-- ===== src/Prelude/Maps.antt =====
-- Maps with text keys as lists of entries.
use mathlib.Core.Path.{◌≡◌, refl}
use mathlib.Core.Logic.{◌≢◌}
use mathlib.Core.Bool.{false}
use mathlib.Core.List.{List, [], ◌∷◌}
use mathlib.Core.Option.{Option, none, some}
use Prim.Native.Nat.{ℕ}
use native.Mathlib.Omega.{arith}
use dronservice_updates.Prelude.Tests.{if◌then◌else◌, ◌==◌, if_ind}
use dronservice_updates.Prelude.Text.{String, str_eq, str_eq_iff, str_eq_refl}
use dronservice_updates.Prelude.Lists.{All}

module _ {ℓ} {A : Type ℓ} where
  -- `m[key]`
  unfoldable pub lookup : String → List (String × A) → Option A
  lookup key [] = none
  lookup key ((k, v) ∷ m) = if str_eq k key then some v else lookup key m

  -- `delete(m, key)`
  unfoldable pub delete : String → List (String × A) → List (String × A)
  delete key [] = []
  delete key ((k, v) ∷ m) = let rest = delete key m in if str_eq k key then rest else (k, v) ∷ rest

  -- `m[key] = v`
  unfoldable pub insert : String → A → List (String × A) → List (String × A)
  unfolding delete
  insert key v m = (key, v) ∷ delete key m

  pub lookup-delete : (key : String) (m : List (String × A)) → lookup key (delete key m) ≡ none
  unfolding lookup delete
  lookup-delete key [] = refl
  lookup-delete key ((k, v) ∷ m) = ground (arith, lookup-delete key m)

  pub lookup-delete_ne :
      (key q : String) (m : List (String × A)) → q ≢ key → lookup q (delete key m) ≡ lookup q m
  unfolding lookup delete
  lookup-delete_ne key q [] n = refl
  lookup-delete_ne key q ((k, v) ∷ m) n =
      ground (arith, str_eq_iff k key, str_eq_iff k q, lookup-delete_ne key q m n)

  pub lookup-insert :
      (key : String) (v : A) (m : List (String × A)) → lookup key (insert key v m) ≡ some v
  unfolding lookup insert
  lookup-insert key v m = ground (arith, str_eq_refl key)

  pub lookup-insert_ne :
      (key q : String) (v : A) (m : List (String × A))
      → q ≢ key
      → lookup q (insert key v m) ≡ lookup q m
  unfolding lookup insert
  lookup-insert_ne key q v m n = ground (arith, str_eq_iff key q, lookup-delete_ne key q m n)

-- The numbers of a list other than one of them.
unfoldable pub without : ℕ → List ℕ → List ℕ
without k [] = []
without k (n ∷ ns) = let rest = without k ns in if n == k then rest else n ∷ rest

pub without-All {ℓ κ} :
    (P : ℕ → Type ℓ) (Q : ℕ → Type κ) (k : ℕ) (ns : List ℕ)
    → ((n : ℕ) → (n == k) ≡ false → P n → Q n)
    → All P ns
    → All Q (without k ns)
unfolding without
without-All P Q k [] f h = tt
without-All P Q k (n ∷ ns) f h =
    if_ind (All Q) (n == k) _ _ (λ _. without-All P Q k ns f h.1)
      (λ e. (f n e h.0, without-All P Q k ns f h.1))
