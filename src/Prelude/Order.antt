-- ===== src/Prelude/Order.antt =====
-- Lists in the order of a number, and what trimming them keeps.
use Prim.Native.Nat.{ℕ, zero, suc, ◌-◌, ◌≤◌, ◌<◌}
use mathlib.Core.Path.{◌≡◌, refl, subst}
use mathlib.Core.Bool.{Bool, false}
use mathlib.Core.Option.{some, some-injective}
use mathlib.Core.List.{List, [], ◌∷◌, ◌++◌}
use native.Mathlib.Omega.{arith}
use dronservice_updates.Prelude.Tests.{ltb, ltb→lt, if_ind}
use dronservice_updates.Prelude.Lists.{
  length, drop, length-drop, All, last?, set_last, drop_while, keep_last,
}

module _ {ℓ} {A : Type ℓ} where
  -- Each entry is at most, or below, all that follow it.
  abbrev pub Ascending : (A → ℕ) → List A → Type 0
  Ascending f [] = Unit
  Ascending f (x ∷ xs) = All (λ y. f x ≤ f y) xs × Ascending f xs

  abbrev pub Increasing : (A → ℕ) → List A → Type 0
  Increasing f [] = Unit
  Increasing f (x ∷ xs) = All (λ y. f x < f y) xs × Increasing f xs

  pub length-keep_last : (n : ℕ) (xs : List A) → length (keep_last n xs) ≤ n
  unfolding keep_last
  length-keep_last n xs = ground (arith, length-drop (length xs - n) xs)

  pub last?-append : (xs : List A) (x : A) → last? (xs ++ x ∷ []) ≡ some x
  unfolding last?
  last?-append [] x = refl
  last?-append (y ∷ []) x = refl
  last?-append (y ∷ z ∷ xs) x = last?-append (z ∷ xs) x

  pub last?-drop : (n : ℕ) (xs : List A) → n < length xs → last? (drop n xs) ≡ last? xs
  unfolding last?
  last?-drop zero xs h = refl
  last?-drop (suc n) [] h = refl
  last?-drop (suc zero) (x ∷ []) h = absurd (omega arith)
  last?-drop (suc (suc n)) (x ∷ []) h = absurd (omega arith)
  last?-drop (suc n) (x ∷ y ∷ xs) h = last?-drop n (y ∷ xs) (omega arith)

  pub last?-keep_last : (n : ℕ) (xs : List A) → 0 < n → last? (keep_last n xs) ≡ last? xs
  unfolding keep_last
  last?-keep_last n xs h =
      if_ind (λ ys. last? ys ≡ last? xs) (ltb n (length xs)) _ _
        (λ e. last?-drop (length xs - n) xs (omega (arith, ltb→lt n (length xs) e))) (λ _. refl)

  pub last?-drop_while :
      (p : A → Bool) (xs : List A) (x : A)
      → last? xs ≡ some x
      → p x ≡ false
      → last? (drop_while p xs) ≡ some x
  unfolding last? drop_while
  last?-drop_while p [] x e h = cc
  last?-drop_while p (y ∷ []) x e h = ground arith
  last?-drop_while p (y ∷ z ∷ xs) x e h =
      if_ind (λ ys. last? ys ≡ some x) (p y) _ _ (λ _. last?-drop_while p (z ∷ xs) x e h) (λ _. e)

module _ {ℓ κ} {A : Type ℓ} (P : A → Type κ) where
  pub All-append_one : (xs : List A) (x : A) → All P xs → P x → All P (xs ++ x ∷ [])
  All-append_one [] x h p = (p, tt)
  All-append_one (y ∷ xs) x h p = (h.0, All-append_one xs x h.1 p)

  pub drop-All : (n : ℕ) (xs : List A) → All P xs → All P (drop n xs)
  drop-All zero xs h = h
  drop-All (suc n) [] h = tt
  drop-All (suc n) (x ∷ xs) h = drop-All n xs h.1

  pub keep_last-All : (n : ℕ) (xs : List A) → All P xs → All P (keep_last n xs)
  unfolding keep_last
  keep_last-All n xs h = if_ind (All P) (ltb n (length xs)) _ _ (λ _. drop-All _ xs h) (λ _. h)

  pub drop_while-All : (p : A → Bool) (xs : List A) → All P xs → All P (drop_while p xs)
  unfolding drop_while
  drop_while-All p [] h = tt
  drop_while-All p (x ∷ xs) h = if_ind (All P) (p x) _ _ (λ _. drop_while-All p xs h.1) (λ _. h)

  pub last?-All : (xs : List A) (x : A) → All P xs → last? xs ≡ some x → P x
  unfolding last?
  last?-All [] x h e = cc
  last?-All (y ∷ []) x h e = subst P (some-injective _ _ e) h.0
  last?-All (y ∷ z ∷ xs) x h e = last?-All (z ∷ xs) x h.1 e

  pub set_last-All : (v : A) (xs : List A) → P v → All P xs → All P (set_last v xs)
  unfolding set_last
  set_last-All v [] p h = tt
  set_last-All v (y ∷ []) p h = (p, tt)
  set_last-All v (y ∷ z ∷ xs) p h = (h.0, set_last-All v (z ∷ xs) p h.1)

module _ {ℓ} {A : Type ℓ} (f : A → ℕ) where
  pub append_one-Ascending :
      (xs : List A) (x : A) → Ascending f xs → All (λ y. f y ≤ f x) xs → Ascending f (xs ++ x ∷ [])
  append_one-Ascending [] x h a = (tt, tt)
  append_one-Ascending (y ∷ xs) x h a =
      (All-append_one (λ z. f y ≤ f z) xs x h.0 a.0, append_one-Ascending xs x h.1 a.1)

  pub append_one-Increasing :
      (xs : List A) (x : A)
      → Increasing f xs
      → All (λ y. f y < f x) xs
      → Increasing f (xs ++ x ∷ [])
  append_one-Increasing [] x h a = (tt, tt)
  append_one-Increasing (y ∷ xs) x h a =
      (All-append_one (λ z. f y < f z) xs x h.0 a.0, append_one-Increasing xs x h.1 a.1)

  pub drop-Ascending : (n : ℕ) (xs : List A) → Ascending f xs → Ascending f (drop n xs)
  drop-Ascending zero xs h = h
  drop-Ascending (suc n) [] h = tt
  drop-Ascending (suc n) (x ∷ xs) h = drop-Ascending n xs h.1

  pub keep_last-Ascending : (n : ℕ) (xs : List A) → Ascending f xs → Ascending f (keep_last n xs)
  unfolding keep_last
  keep_last-Ascending n xs h =
      if_ind (Ascending f) (ltb n (length xs)) _ _ (λ _. drop-Ascending _ xs h) (λ _. h)

  pub drop_while-Ascending :
      (p : A → Bool) (xs : List A) → Ascending f xs → Ascending f (drop_while p xs)
  unfolding drop_while
  drop_while-Ascending p [] h = tt
  drop_while-Ascending p (x ∷ xs) h =
      if_ind (Ascending f) (p x) _ _ (λ _. drop_while-Ascending p xs h.1) (λ _. h)

  pub drop_while-Increasing :
      (p : A → Bool) (xs : List A) → Increasing f xs → Increasing f (drop_while p xs)
  unfolding drop_while
  drop_while-Increasing p [] h = tt
  drop_while-Increasing p (x ∷ xs) h =
      if_ind (Increasing f) (p x) _ _ (λ _. drop_while-Increasing p xs h.1) (λ _. h)

  -- In an ascending list the loop drops all that lies below a bound.
  pub drop_while_bound :
      (bound : ℕ) (p : A → Bool)
      → ((x : A) → p x ≡ false → bound ≤ f x)
      → (xs : List A) → Ascending f xs
      → All (λ x. bound ≤ f x) (drop_while p xs)
  unfolding drop_while
  drop_while_bound bound p kept [] h = tt
  drop_while_bound bound p kept (x ∷ xs) h =
      if_ind (All (λ x. bound ≤ f x)) (p x) _ _ (λ _. drop_while_bound bound p kept xs h.1)
        (λ e. (kept x e, above xs h.0 (kept x e)))
    where
      above : (ys : List A) → All (λ y. f x ≤ f y) ys → bound ≤ f x → All (λ y. bound ≤ f y) ys
      above [] a b = tt
      above (y ∷ ys) a b = (omega arith, above ys a.1 b)

  pub Increasing-Ascending : (xs : List A) → Increasing f xs → Ascending f xs
  Increasing-Ascending [] h = tt
  Increasing-Ascending (x ∷ xs) h = (weaken xs h.0, Increasing-Ascending xs h.1)
    where
      weaken : (ys : List A) → All (λ y. f x < f y) ys → All (λ y. f x ≤ f y) ys
      weaken [] a = tt
      weaken (y ∷ ys) a = (omega arith, weaken ys a.1)

  -- The last entry of an ascending list is the greatest.
  pub last?-greatest :
      (xs : List A) (x : A) → Ascending f xs → last? xs ≡ some x → All (λ y. f y ≤ f x) xs
  unfolding last?
  last?-greatest [] x h e = tt
  last?-greatest (y ∷ []) x h e = (ground arith, tt)
  last?-greatest (y ∷ z ∷ xs) x h e =
      (last?-All (λ w. f y ≤ f w) (z ∷ xs) x h.0 e, last?-greatest (z ∷ xs) x h.1 e)

  -- A new last entry with the key of the old one.
  pub set_last-Increasing :
      (xs : List A) (x v : A)
      → last? xs ≡ some x
      → f v ≡ f x
      → Increasing f xs
      → Increasing f (set_last v xs)
  unfolding last? set_last
  set_last-Increasing [] x v e k h = tt
  set_last-Increasing (y ∷ []) x v e k h = (tt, tt)
  set_last-Increasing (y ∷ z ∷ xs) x v e k h = (
    set_last-All (λ w. f y < f w) v (z ∷ xs) (rw k (last?-All (λ w. f y < f w) (z ∷ xs) x h.0 e))
        h.0,
    set_last-Increasing (z ∷ xs) x v e k h.1,
  )

-- A list of which nothing is to be dropped.
pub drop_while_keep {ℓ} :
    {A : Type ℓ} (p : A → Bool) (xs : List A) → All (λ x. p x ≡ false) xs → drop_while p xs ≡ xs
unfolding drop_while
drop_while_keep p [] h = refl
drop_while_keep p (x ∷ xs) h = rw h.0
