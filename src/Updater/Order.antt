-- ===== src/Updater/Order.antt =====
-- newerVersion of internal/updater/client.go orders the versions.
use dronservice_updates.Prelude.{
  ℕ, true, false, Option, none, some, List, ◌≡◌, refl, [], ◌∷◌, Bool-cases, arith, inl, inr,
}
use dronservice_updates.Updater.Version.{
  version_parts, newer_parts, newer_options, newer_version, valid_version,
}

newer_parts_asymm : (v w : ℕ × ℕ × ℕ) → newer_parts v w ≡ true → newer_parts w v ≡ false
unfolding newer_parts
newer_parts_asymm (a, b, c) (a', b', c') h = ground arith

newer_parts_trans :
    (u v w : ℕ × ℕ × ℕ) → newer_parts u v ≡ true → newer_parts v w ≡ true → newer_parts u w ≡ true
unfolding newer_parts
newer_parts_trans (a, b, c) (a', b', c') (a'', b'', c'') h k = ground arith

newer_parts_total : (v w : ℕ × ℕ × ℕ) → newer_parts v w ≡ false → newer_parts w v ≡ false → v ≡ w
unfolding newer_parts
newer_parts_total (a, b, c) (a', b', c') h k = ground arith

newer_options-some :
    (m n : Option (ℕ × ℕ × ℕ))
    → newer_options m n ≡ true
    → (v : ℕ × ℕ × ℕ) × (w : ℕ × ℕ × ℕ) × (m ≡ some v) × (n ≡ some w) × (newer_parts v w ≡ true)
unfolding newer_options
newer_options-some (some v) (some w) h = (v, w, refl, refl, h)
newer_options-some (some v) none h = cc
newer_options-some none n h = cc

-- What is newer than a version is not older than it.
pub newer_version_asymm : (a b : List ℕ) → newer_version a b ≡ true → newer_version b a ≡ false
unfolding newer_version newer_options
newer_version_asymm a b h =
    let (v, w, e, f, k) = newer_options-some (version_parts a) (version_parts b) h in
    rw (e, f, newer_options) (newer_parts_asymm v w k)

-- What is newer than a newer version is newer.
pub newer_version_trans :
    (a b c : List ℕ)
    → newer_version a b ≡ true
    → newer_version b c ≡ true
    → newer_version a c ≡ true
unfolding newer_version newer_options
newer_version_trans a b c h k =
    let (u, v, eu, ev, h') = newer_options-some (version_parts a) (version_parts b) h in
    let (v', w, ev', ew, k') = newer_options-some (version_parts b) (version_parts c) k in
    rw (eu, ew, newer_options) (newer_parts_trans u v w h' (cc (k', ev, ev')))

-- Two texts that are read as versions, neither newer than the other, have the same three numbers.
pub newer_version_total :
    (a b : List ℕ) (v w : ℕ × ℕ × ℕ)
    → version_parts a ≡ some v
    → version_parts b ≡ some w
    → newer_version a b ≡ false
    → newer_version b a ≡ false
    → v ≡ w
unfolding newer_version newer_options
newer_version_total a b v w ea eb h k =
    newer_parts_total v w (rw (ea, eb, newer_options) at h) (rw (ea, eb, newer_options) at k)

version_parts-valid :
    (a : List ℕ) (v : ℕ × ℕ × ℕ) → version_parts a ≡ some v → valid_version a ≡ true
unfolding version_parts
version_parts-valid [] v e = cc
version_parts-valid (c ∷ s) v e = elim (Bool-cases (valid_version (c ∷ s))) [
  | inl valid ↦ valid
  | inr invalid ↦ cc (e, invalid)
]

-- Of two texts, one is newer than the other only if both are valid versions.
pub newer_version-valid :
    (a b : List ℕ) → newer_version a b ≡ true → (valid_version a ≡ true) × (valid_version b ≡ true)
unfolding newer_version
newer_version-valid a b h =
    let (v, w, e, f, k) = newer_options-some (version_parts a) (version_parts b) h in
    (version_parts-valid a v e, version_parts-valid b w f)
