-- ===== src/Updater/Version.antt =====
-- ValidVersion of internal/buildinfo/buildinfo.go, newerVersion and versionParts of
-- internal/updater/client.go. A version is its bytes.
use dronservice_updates.Prelude.{
  ℕ, ◌+◌, ◌-◌, ◌*◌, ◌^◌, Bool, true, false, not, ◌&&◌, Option, none, some, List, [], ◌∷◌, ltb, leb,
  ◌==◌, if◌then◌else◌, is_digit, all_codes, ◌≡◌, refl, codes,
}

-- `0|[1-9][0-9]*`
unfoldable pub valid_number : List ℕ → Bool
unfolding all_codes
valid_number [] = false
valid_number (c ∷ rest) =
    if c == b'0'
    then (elim rest [ [] ↦ true | _ ∷ _ ↦ false ])
    else is_digit c && all_codes is_digit rest

-- strings.Split(s, "."), as the first part and the others
unfoldable pub split_dots : List ℕ → List ℕ × List (List ℕ)
split_dots [] = ([], [])
split_dots (c ∷ s) =
    let (part, others) = split_dots s in
    if c == b'.' then ([], part ∷ others) else (c ∷ part, others)

valid_parts : List ℕ × List (List ℕ) → Bool
unfolding valid_number
valid_parts (a, b ∷ c ∷ []) = valid_number a && valid_number b && valid_number c
valid_parts _ = false

-- `^v(0|[1-9][0-9]*)\.(0|[1-9][0-9]*)\.(0|[1-9][0-9]*)$`: no number holds a dot
unfoldable pub valid_version : List ℕ → Bool
unfolding valid_parts split_dots
valid_version [] = false
valid_version (c ∷ s) = c == b'v' && valid_parts (split_dots s)

abbrev pub max_int : ℕ
max_int = 2 ^ 63 - 1

digits : ℕ → List ℕ → ℕ
digits n [] = n
digits n (c ∷ s) = digits (n * 10 + (c - b'0')) s

-- strconv.Atoi on digits: an error where the number does not fit an int.
unfoldable pub atoi : List ℕ → Option ℕ
unfolding digits
atoi s = if leb (digits 0 s) max_int then some (digits 0 s) else none

three_parts : Option ℕ → Option ℕ → Option ℕ → Option (ℕ × ℕ × ℕ)
three_parts (some a) (some b) (some c) = some (a, b, c)
three_parts _ _ _ = none

unfoldable pub parts_of : List ℕ × List (List ℕ) → Option (ℕ × ℕ × ℕ)
unfolding atoi three_parts
parts_of (a, b ∷ c ∷ []) = three_parts (atoi a) (atoi b) (atoi c)
parts_of _ = none

-- versionParts: `none` is the answer `false`.
unfoldable pub version_parts : List ℕ → Option (ℕ × ℕ × ℕ)
version_parts [] = none
version_parts (c ∷ s) = if valid_version (c ∷ s) then parts_of (split_dots s) else none

-- The loop over the three numbers.
unfoldable pub newer_parts : ℕ × ℕ × ℕ → ℕ × ℕ × ℕ → Bool
newer_parts (a, b, c) (a', b', c') =
    if not (a == a')
    then ltb a' a
    else if not (b == b')
    then ltb b' b
    else if not (c == c')
    then ltb c' c
    else false

unfoldable pub newer_options : Option (ℕ × ℕ × ℕ) → Option (ℕ × ℕ × ℕ) → Bool
unfolding newer_parts
newer_options (some left) (some right) = newer_parts left right
newer_options _ _ = false

unfoldable pub newer_version : List ℕ → List ℕ → Bool
newer_version candidate current = newer_options (version_parts candidate) (version_parts current)

newer_patch : newer_version (codes "v1.2.10") (codes "v1.2.9") ≡ true
unfolding newer_version version_parts valid_version parts_of split_dots newer_options
newer_patch = refl

not_newer_dev : newer_version (codes "v1.2.10") (codes "dev") ≡ false
unfolding newer_version version_parts valid_version parts_of split_dots newer_options
not_newer_dev = refl
