-- ===== src/CameraProxy/Held.antt =====
-- Which servers the sessions of internal/cameraproxy/manager.go and the calls that are to come hold.
use mathlib.Core.Option.{some-injective}
use dronservice_updates.Prelude.{
  ℕ, String, str_eq, str_eq_iff, true, false, none, some, List, [], ◌∷◌, ◌==◌, ◌≡◌, ◌≢◌, refl, sym,
  ◌∙◌, ap, All, Any, ◌⊎◌, arith, if_ind, inl, inr, Bool-cases, lookup, insert, delete, without,
  lookup-delete_ne, lookup-insert, lookup-insert_ne,
}
use dronservice_updates.CameraProxy.Manager.{Session, collect}

abbrev pub Owned : List (String × Session) → ℕ → Type 0
Owned xs k = (id : String) × (s : Session) × (lookup id xs ≡ some s) × (s.server ≡ k)

-- A server that belongs to a session, or whose Close or Shutdown has still to run.
abbrev pub Held : List (String × Session) → List ℕ → ℕ → Type 0
Held xs closing k = Owned xs k ⊎ Any (λ n. n ≡ k) closing

pub All-mono : (P Q : ℕ → Type 0) (ks : List ℕ) → ((k : ℕ) → P k → Q k) → All P ks → All Q ks
All-mono P Q [] f h = tt
All-mono P Q (k ∷ ks) f h = (f k h.0, All-mono P Q ks f h.1)

pub All-elsewhere :
    (P Q : ℕ → Type 0) (server : ℕ) (ks : List ℕ)
    → ¬ Any (λ n. n ≡ server) ks
    → ((k : ℕ) → (k == server) ≡ false → P k → Q k)
    → All P ks
    → All Q ks
All-elsewhere P Q server [] gone f h = tt
All-elsewhere P Q server (k ∷ ks) gone f h = elim (Bool-cases (k == server)) [
  | inl same ↦ absurd (gone (inl (ground (arith, same))))
  | inr other ↦ (f k other h.0, All-elsewhere P Q server ks (λ a. gone (inr a)) f h.1)
]

same_key : (q id : String) → (str_eq q id ≡ true → q ≡ id) × (str_eq q id ≡ false → q ≢ id)
same_key q id = ((str_eq_iff q id).0, λ e f. cc (e, (str_eq_iff q id).1 f))

one_session :
    (q id : String) (xs : List (String × Session)) (s t : Session)
    → lookup id xs ≡ some s
    → lookup q xs ≡ some t
    → str_eq q id ≡ true
    → t ≡ s
one_session q id xs s t found e same =
    some-injective t s (sym e ∙ ap (λ k. lookup k xs) ((same_key q id).0 same) ∙ found)

pub delete-Owned :
    (id : String) (xs : List (String × Session)) (s : Session) (k : ℕ)
    → lookup id xs ≡ some s
    → (k == s.server) ≡ false
    → Owned xs k
    → Owned (delete id xs) k
delete-Owned id xs s k found other (q, t, e, own) = elim (Bool-cases (str_eq q id)) [
  | inl same ↦ ground (arith, ap (λ r. r.server) (one_session q id xs s t found e same), own, other)
  | inr differ ↦ (q, t, lookup-delete_ne id q xs ((same_key q id).1 differ) ∙ e, own)
]

pub renew-Owned :
    (id : String) (xs : List (String × Session)) (s t : Session) (k : ℕ)
    → lookup id xs ≡ some s
    → t.server ≡ s.server
    → Owned xs k
    → Owned (insert id t xs) k
renew-Owned id xs s t k found kept (q, u, e, own) = elim (Bool-cases (str_eq q id)) [
  | inl same ↦ (
    id,
    t,
    lookup-insert id t xs,
    kept ∙ sym (ap (λ r. r.server) (one_session q id xs s u found e same)) ∙ own,
  )
  | inr differ ↦ (q, u, lookup-insert_ne id q t xs ((same_key q id).1 differ) ∙ e, own)
]

pub insert-Owned :
    (id : String) (xs : List (String × Session)) (t : Session) (k : ℕ)
    → lookup id xs ≡ none
    → Owned xs k
    → Owned (insert id t xs) k
insert-Owned id xs t k absent (q, u, e, own) = elim (Bool-cases (str_eq q id)) [
  | inl same ↦ cc (absent, e, ap (λ k. lookup k xs) ((same_key q id).0 same))
  | inr differ ↦ (q, u, lookup-insert_ne id q t xs ((same_key q id).1 differ) ∙ e, own)
]

-- With no session and no call to come, no server is held.
Held-none :
    (xs : List (String × Session)) (closing : List ℕ) (k : ℕ)
    → xs ≡ []
    → closing ≡ []
    → Held xs closing k
    → ⊥
unfolding lookup
Held-none [] [] k e c (inl (q, s, f, own)) = cc f
Held-none [] [] k e c (inr h) = h
Held-none [] (n ∷ closing) k e c h = cc c
Held-none (x ∷ xs) closing k e c h = cc e

pub none-Held :
    (xs : List (String × Session)) (closing ks : List ℕ)
    → xs ≡ []
    → closing ≡ []
    → All (Held xs closing) ks
    → ks ≡ []
none-Held xs closing [] e c h = refl
none-Held xs closing (k ∷ ks) e c h = absurd (Held-none xs closing k e c h.0)

pub collect_rest :
    (xs : List (String × Session)) (ks : List ℕ) (k : ℕ)
    → Any (λ n. n ≡ k) ks
    → Any (λ n. n ≡ k) (collect xs ks)
unfolding collect
collect_rest [] ks k h = h
collect_rest ((id, s) ∷ xs) ks k h = inr (collect_rest xs ks k h)

pub collect-Owned :
    (xs : List (String × Session)) (ks : List ℕ) (k : ℕ)
    → Owned xs k
    → Any (λ n. n ≡ k) (collect xs ks)
unfolding collect lookup
collect-Owned [] ks k (q, s, e, own) = cc e
collect-Owned ((id, t) ∷ xs) ks k (q, s, e, own) = elim (Bool-cases (str_eq id q)) [
  | inl hit ↦ inl (ap (λ r. r.server) (some-injective t s (rw (hit) at e)) ∙ own)
  | inr miss ↦ inr (collect-Owned xs ks k (q, s, (rw (miss) at e), own))
]

pub without-Any :
    (k j : ℕ) (ks : List ℕ)
    → (j == k) ≡ false
    → Any (λ n. n ≡ j) ks
    → Any (λ n. n ≡ j) (without k ks)
unfolding without
without-Any k j [] other h = absurd h
without-Any k j (n ∷ ns) other (inl e) =
    if_ind (Any (λ m. m ≡ j)) (n == k) _ _ (λ same. absurd (ground (arith, same, e, other)))
      (λ _. inl e)
without-Any k j (n ∷ ns) other (inr h) =
    if_ind (Any (λ m. m ≡ j)) (n == k) _ _ (λ _. without-Any k j ns other h)
      (λ _. inr (without-Any k j ns other h))

-- The session that a server belongs to is changed, and what is about to be closed stays.
pub Owned-or :
    (xs ys : List (String × Session)) (closing : List ℕ) (k : ℕ)
    → (Owned xs k → Owned ys k)
    → Held xs closing k
    → Held ys closing k
Owned-or xs ys closing k f (inl o) = inl (f o)
Owned-or xs ys closing k f (inr c) = inr c
