-- ===== src/MediaMtx/Sections.antt =====
-- pathsSection, removePathBlock and replacePathBlock of internal/mediamtx/config_file.go.
use Prim.Native.Char.{code}
use dronservice_updates.Prelude.{
  ℕ, zero, suc, ◌-◌, String, str_eq, concat, trim_space, Bool, true, false, not, ◌&&◌, Option, none,
  some, List, [], ◌∷◌, ◌++◌, ◌==◌, if◌then◌else◌, drop, drop_while, ◌⊎◌, inl, inr,
}
use dronservice_updates.MediaMtx.Lines.{split_after, join, trim_newline, ends_line, has_prefix}

pub data Error : Type 0 where
  many_sections no_section : Error
  invalid_name unreadable not_found invalid_content not_written : Error

-- The header of the section of paths.
unfoldable pub is_paths : String → Bool
unfolding trim_newline trim_space has_prefix
is_paths raw =
    let line = trim_newline raw in str_eq (trim_space line) "paths:" && not (has_prefix line " ")

-- The first character of a line other than a space and `#`, if there is one.
unfoldable pub closes_with : String → Bool
closes_with String.[] = false
closes_with (String.◌∷◌ c s) = not (code c == b' ') && not (code c == b'#')

-- A line that ends the section.
unfoldable pub closes : String → Bool
unfolding trim_newline closes_with
closes raw = closes_with (trim_newline raw)

-- The first loop, with the index of the next line and `start`.
unfoldable pub find_start : List String → ℕ → Option ℕ → Error ⊎ Option ℕ
unfolding is_paths
find_start [] index start = inr start
find_start (raw ∷ rest) index none =
    if is_paths raw
    then find_start rest (suc index) (some index)
    else find_start rest (suc index) none
find_start (raw ∷ rest) index (some start) =
    let more = find_start rest (suc index) (some start) in
    if is_paths raw then inl many_sections else more

-- The second loop, over the lines from an index on.
unfoldable pub find_end : List String → ℕ → ℕ
unfolding closes
find_end [] index = index
find_end (raw ∷ rest) index =
    let more = find_end rest (suc index) in if closes raw then index else more

unfoldable pub section_from : List String → Error ⊎ Option ℕ → Error ⊎ (ℕ × ℕ)
unfolding find_end
section_from lines (inl e) = inl e
section_from lines (inr none) = inl no_section
section_from lines (inr (some start)) = inr (start, find_end (drop (suc start) lines) (suc start))

-- pathsSection
unfoldable pub paths_section : List String → Error ⊎ (ℕ × ℕ)
unfolding section_from find_start
paths_section lines = section_from lines (find_start lines 0 none)

unfoldable pub take {ℓ} : {A : Type ℓ} → ℕ → List A → List A
take zero xs = []
take (suc n) [] = []
take (suc n) (x ∷ xs) = x ∷ take n xs

-- The lines of a file: up to the header of the section, in the section, and after it.
pub record Parts : Type 0 where
  pub before : List String
  pub body : List String
  pub after : List String

unfoldable pub parts_of : List String → ℕ × ℕ → Parts
unfolding take
parts_of lines (start, end) = record {
  before = take (suc start) lines;
  body = take (end - suc start) (drop (suc start) lines);
  after = drop end lines;
}

-- The key of a path, at any indentation.
unfoldable pub is_key : String → String → Bool
unfolding trim_newline trim_space
is_key name raw =
    let line = trim_space (trim_newline raw) in
    not (str_eq line "") && str_eq line (concat name ":")

unfoldable pub is_marker : String → String → Bool
unfolding trim_space
is_marker name raw = str_eq (trim_space raw) (concat "# DronService managed path: " name)

-- A line of the block of the key before it.
unfoldable pub continues : String → Bool
unfolding trim_newline has_prefix
continues raw =
    let line = trim_newline raw in
    not (str_eq line "")
    && has_prefix line " "
    && not (has_prefix line "  " && not (has_prefix line "    "))

unfoldable pub cons_some : String → Option (List String) → Option (List String)
cons_some line none = none
cons_some line (some lines) = some (line ∷ lines)

-- The loop of removePathBlock over the lines of the section; the line before the key goes with it if
-- it is the marker.
unfoldable pub remove_block : String → List String → Option (List String)
unfolding is_key is_marker continues drop_while cons_some
remove_block name [] = none
remove_block name (line ∷ []) = if is_key name line then some [] else none
remove_block name (line ∷ next ∷ rest) =
    let more = remove_block name (next ∷ rest) in
    if is_key name line
    then some (drop_while continues (next ∷ rest))
    else if is_marker name line && is_key name next
    then some (drop_while continues rest)
    else cons_some line more

unfoldable pub removed : String → Parts → Option (List String) → String × Bool
unfolding join
removed content p none = (content, false)
removed content p (some body) = (join (p.before ++ (body ++ p.after)), true)

unfoldable pub remove_from :
    String → String → List String → Error ⊎ (ℕ × ℕ) → Error ⊎ (String × Bool)
unfolding removed remove_block parts_of
remove_from content name lines (inl e) = inl e
remove_from content name lines (inr section) =
    let p = parts_of lines section in inr (removed content p (remove_block name p.body))

-- removePathBlock: the text, and whether the path was found.
unfoldable pub remove_path_block : String → String → Error ⊎ (String × Bool)
unfolding remove_from split_after paths_section
remove_path_block content name =
    let lines = split_after content in remove_from content name lines (paths_section lines)

-- The lines before the entry for all other paths, and from there on.
unfoldable pub split_others : List String → List String × List String
unfolding trim_newline has_prefix
split_others [] = ([], [])
split_others (line ∷ rest) =
    let (before, from) = split_others rest in
    if has_prefix (trim_newline line) "  all_others:"
    then ([], line ∷ rest)
    else (line ∷ before, from)

unfoldable pub is_empty {ℓ} : {A : Type ℓ} → List A → Bool
is_empty [] = true
is_empty (x ∷ xs) = false

unfoldable pub insert_block : String → Bool → Parts → String
unfolding split_others is_empty ends_line join
insert_block block found p =
    let (above, below) = split_others p.body in
    let lead = join (p.before ++ above) in
    let text =
      if not found && not (is_empty above) && not (ends_line lead)
      then concat "\n" block
      else block in
    concat lead (concat text (join (below ++ p.after)))

unfoldable pub insert_in : String → Bool → List String → Error ⊎ (ℕ × ℕ) → Error ⊎ String
unfolding insert_block parts_of
insert_in block found lines (inl e) = inl e
insert_in block found lines (inr section) = inr (insert_block block found (parts_of lines section))

unfoldable pub replace_removed : String → Error ⊎ (String × Bool) → Error ⊎ String
unfolding insert_in split_after paths_section
replace_removed block (inl e) = inl e
replace_removed block (inr (without, found)) =
    let lines = split_after without in insert_in block found lines (paths_section lines)

-- replacePathBlock
unfoldable pub replace_path_block : String → String → String → Error ⊎ String
unfolding replace_removed remove_path_block
replace_path_block content name block = replace_removed block (remove_path_block content name)
