-- ===== src/Prelude/Text.antt =====
-- Texts are compared as Go compares strings: byte for byte.
use mathlib.Core.Path.{◌≡◌, refl, ap, ◌∙◌}
use mathlib.Core.Logic.{◌↔◌, inl, inr}
use mathlib.Core.Bool.{Bool, true, false, ◌&&◌, ◌||◌}
use mathlib.Core.List.{List, [], ◌∷◌}
use mathlib.Core.Option.{Option, none, some}
use Prim.Native.Char.{Char, code}
use Prim.Native.Nat.{ℕ, ◌+◌}
use dronservice_updates.Prelude.Tests.{ltb, leb, ◌==◌, if◌then◌else◌, if_ind, Bool-cases}
use text.Mathlib.Text.{◌==◌ as text_eq}
use text.Mathlib.TextEquality.{eq_iff}
use text.Mathlib.TextPositions.{eq_refl}
use Prim.Native.String.{◌++◌ as text_append}
pub use Prim.Native.String.{String}

abbrev pub str_eq : String → String → Bool
str_eq = text_eq

pub str_eq_iff : (s t : String) → (str_eq s t ≡ true) ↔ (s ≡ t)
str_eq_iff = eq_iff

pub str_eq_refl : (s : String) → str_eq s s ≡ true
str_eq_refl = eq_refl

-- `s + t`
abbrev pub concat : String → String → String
concat = text_append

-- The code points of a text: its bytes, where it is ASCII.
abbrev pub codes : String → List ℕ
codes String.[] = []
codes (String.◌∷◌ c s) = code c ∷ codes s

-- `strings.TrimPrefix` as a test: what follows the prefix, if it is there.
unfoldable pub after_prefix : List ℕ → List ℕ → Option (List ℕ)
after_prefix [] s = some s
after_prefix (p ∷ ps) [] = none
after_prefix (p ∷ ps) (c ∷ s) = if p == c then after_prefix ps s else none

-- len of a text: its bytes in UTF-8.
unfoldable pub byte_length : List ℕ → ℕ
byte_length [] = 0
byte_length (c ∷ s) =
    (if ltb c 0x80 then 1 else if ltb c 0x800 then 2 else if ltb c 0x10000 then 3 else 4)
    + byte_length s

unfoldable pub all_codes : (ℕ → Bool) → List ℕ → Bool
all_codes p [] = true
all_codes p (c ∷ s) = p c && all_codes p s

-- The classes of regular expressions.
abbrev pub is_digit : ℕ → Bool
is_digit c = leb b'0' c && leb c b'9'

abbrev pub is_letter : ℕ → Bool
is_letter c = leb b'A' c && leb c b'Z' || leb b'a' c && leb c b'z'

abbrev pub is_hex_lower : ℕ → Bool
is_hex_lower c = is_digit c || leb b'a' c && leb c b'f'

-- unicode.IsSpace
abbrev pub is_space : ℕ → Bool
is_space c =
    leb 9 c && leb c 13
    || c == 32
    || c == 0x85
    || c == 0xa0
    || c == 0x1680
    || leb 0x2000 c && leb c 0x200a
    || c == 0x2028
    || c == 0x2029
    || c == 0x202f
    || c == 0x205f
    || c == 0x3000

trim_left : String → String
trim_left String.[] = String.[]
trim_left (String.◌∷◌ c s) =
    let rest = trim_left s in if is_space (code c) then rest else String.◌∷◌ c s

-- `c` in front of a text that is trimmed on the right
trim_cons : Char → String → String
trim_cons c String.[] = if is_space (code c) then String.[] else String.◌∷◌ c String.[]
trim_cons c (String.◌∷◌ d s) = String.◌∷◌ c (String.◌∷◌ d s)

trim_right : String → String
unfolding trim_cons
trim_right String.[] = String.[]
trim_right (String.◌∷◌ c s) = trim_cons c (trim_right s)

-- strings.TrimSpace
unfoldable pub trim_space : String → String
unfolding trim_left trim_right
trim_space s = trim_right (trim_left s)

trim_both : trim_space "  a b\n" ≡ "a b"
unfolding trim_space
trim_both = refl

-- A text without a space in front.
abbrev Begins : String → Type 0
Begins String.[] = Unit
Begins (String.◌∷◌ c s) = is_space (code c) ≡ false

trim_left-Begins : (s : String) → Begins (trim_left s)
unfolding trim_left
trim_left-Begins String.[] = tt
trim_left-Begins (String.◌∷◌ c s) =
    if_ind Begins (is_space (code c)) _ _ (λ _. trim_left-Begins s) (λ e. e)

trim_left_same : (s : String) → Begins s → trim_left s ≡ s
unfolding trim_left
trim_left_same String.[] h = refl
trim_left_same (String.◌∷◌ c s) h = rw h refl

trim_right-Begins : (s : String) → Begins s → Begins (trim_right s)
unfolding trim_right trim_cons
trim_right-Begins String.[] h = tt
trim_right-Begins (String.◌∷◌ c s) h = cons (trim_right s)
  where
    cons : (t : String) → Begins (trim_cons c t)
    cons String.[] = if_ind Begins (is_space (code c)) _ _ (λ _. tt) (λ e. e)
    cons (String.◌∷◌ d t) = h

trim_cons_same :
    (c : Char) (t : String) → trim_right t ≡ t → trim_right (trim_cons c t) ≡ trim_cons c t
unfolding trim_right trim_cons
trim_cons_same c String.[] h = elim (Bool-cases (is_space (code c))) [
  | inl e ↦ rw e refl
  | inr e ↦ rw e (rw e refl)
]
trim_cons_same c (String.◌∷◌ d t) h = ap (trim_cons c) h

trim_right_same : (s : String) → trim_right (trim_right s) ≡ trim_right s
unfolding trim_right
trim_right_same String.[] = refl
trim_right_same (String.◌∷◌ c s) = trim_cons_same c (trim_right s) (trim_right_same s)

pub trim_space_again : (s : String) → trim_space (trim_space s) ≡ trim_space s
unfolding trim_space
trim_space_again s =
    ap trim_right (
      trim_left_same (trim_right (trim_left s))
        (trim_right-Begins (trim_left s) (trim_left-Begins s)))
    ∙ trim_right_same (trim_left s)
