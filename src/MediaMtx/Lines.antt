-- ===== src/MediaMtx/Lines.antt =====
-- The functions of Go's package strings that internal/mediamtx/config_file.go uses on lines.
use Prim.Native.Char.{Char, code}
use dronservice_updates.Prelude.{
  ℕ, String, codes, concat, Bool, true, false, Option, none, some, List, [], ◌∷◌, ◌==◌,
  if◌then◌else◌, after_prefix,
}

-- A character in front of the first line.
unfoldable pub cons_first : Char → List String → List String
cons_first c [] = String.◌∷◌ c String.[] ∷ []
cons_first c (line ∷ lines) = String.◌∷◌ c line ∷ lines

-- strings.SplitAfter at newlines
unfoldable pub split_after : String → List String
unfolding cons_first
split_after String.[] = String.[] ∷ []
split_after (String.◌∷◌ c s) =
    let lines = split_after s in
    if code c == b'\n' then String.◌∷◌ c String.[] ∷ lines else cons_first c lines

-- strings.Join with nothing in between
unfoldable pub join : List String → String
join [] = ""
join (line ∷ lines) = concat line (join lines)

-- `strings.TrimSuffix(line, "\n")`
unfoldable pub trim_newline : String → String
trim_newline String.[] = String.[]
trim_newline (String.◌∷◌ c String.[]) =
    if code c == b'\n' then String.[] else String.◌∷◌ c String.[]
trim_newline (String.◌∷◌ c (String.◌∷◌ d s)) = String.◌∷◌ c (trim_newline (String.◌∷◌ d s))

-- `strings.HasSuffix(text, "\n")`
unfoldable pub ends_line : String → Bool
ends_line String.[] = false
ends_line (String.◌∷◌ c String.[]) = code c == b'\n'
ends_line (String.◌∷◌ c (String.◌∷◌ d s)) = ends_line (String.◌∷◌ d s)

unfoldable pub has_rest : Option (List ℕ) → Bool
has_rest none = false
has_rest (some rest) = true

-- strings.HasPrefix
unfoldable pub has_prefix : String → String → Bool
unfolding after_prefix has_rest
has_prefix s prefix = has_rest (after_prefix (codes prefix) (codes s))
