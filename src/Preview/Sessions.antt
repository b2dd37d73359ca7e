-- ===== src/Preview/Sessions.antt =====
-- What the operations on the session list keep.
use dronservice_updates.Prelude.{
  ℕ, String, str_eq, str_eq_iff, ◌≡◌, ◌≢◌, refl, true, Option, none, some, List, [], ◌∷◌, All, Any,
  Distinct, arith, inl, inr, Bool-cases, subst,
}
use dronservice_updates.Preview.{Session, ManagedSession, find, remove, set_timer, replace_camera}
use dronservice_updates.Preview.Paths.{PathService}

module _ (P : ManagedSession → Type 0) where
  pub remove-All : (id : String) (xs : List ManagedSession) → All P xs → All P (remove id xs)
  unfolding remove
  remove-All id [] h = tt
  remove-All id (s ∷ xs) h = ground (arith, remove-All id xs h.1)

  pub find-All :
      (id : String) (xs : List ManagedSession) {s : ManagedSession}
      → All P xs
      → find id xs ≡ some s
      → P s
  unfolding find
  find-All id [] h e = cc
  find-All id (x ∷ xs) {s} h e = elim (Bool-cases (str_eq x.id id)) [
    | inl hit ↦ subst P (ground arith) h.0
    | inr miss ↦ find-All id xs h.1 (ground arith)
  ]

pub find_id :
    (id : String) (xs : List ManagedSession) {s : ManagedSession} → find id xs ≡ some s → s.id ≡ id
unfolding find
find_id id [] e = cc
find_id id (x ∷ xs) {s} e = elim (Bool-cases (str_eq x.id id)) [
  | inl hit ↦ ground (arith, str_eq_iff x.id id)
  | inr miss ↦ find_id id xs {s = s} (ground arith)
]

pub remove_absent : (id : String) (xs : List ManagedSession) → All (λ s. s.id ≢ id) (remove id xs)
unfolding remove
remove_absent id [] = tt
remove_absent id (s ∷ xs) = ground (arith, str_eq_iff s.id id, remove_absent id xs)

pub find-remove : (id : String) (xs : List ManagedSession) → find id (remove id xs) ≡ none
unfolding find remove
find-remove id [] = refl
find-remove id (s ∷ xs) = ground (arith, find-remove id xs)

module _ {K : Type 0} (key : ManagedSession → K) where
  pub remove-Distinct :
      (id : String) (xs : List ManagedSession) → Distinct key xs → Distinct key (remove id xs)
  unfolding remove
  remove-Distinct id [] h = tt
  remove-Distinct id (s ∷ xs) h =
      ground (arith, remove-Distinct id xs h.1, remove-All (λ y. key y ≢ key s) id xs h.0)

-- A timer is set without a change of the session.
pub set_timer-All :
    (P : Session → Type 0) (id : String) (t : Option ℕ) (xs : List ManagedSession)
    → All (λ s. P s.session) xs
    → All (λ s. P s.session) (set_timer id t xs)
unfolding set_timer
set_timer-All P id t [] h = tt
set_timer-All P id t (s ∷ xs) h = ground (arith, set_timer-All P id t xs h.1)

pub set_timer-Distinct :
    {K : Type 0} (key : Session → K) (id : String) (t : Option ℕ) (xs : List ManagedSession)
    → Distinct (λ s. key s.session) xs
    → Distinct (λ s. key s.session) (set_timer id t xs)
unfolding set_timer
set_timer-Distinct key id t [] h = tt
set_timer-Distinct key id t (s ∷ xs) h = elim (Bool-cases (str_eq s.id id)) [
  | inl hit ↦
      rw hit
        (set_timer-All (λ y. key y ≢ key s.session) id t xs h.0, set_timer-Distinct key id t xs h.1)
  | inr miss ↦
      rw miss
        (set_timer-All (λ y. key y ≢ key s.session) id t xs h.0, set_timer-Distinct key id t xs h.1)
]

module _ (service : PathService) (camera : String) where
  open service use {World, delete_config}

  pub replace_camera-All :
      (P : ManagedSession → Type 0) (xs : List ManagedSession) (w : World)
      → All P xs
      → All P (replace_camera service camera xs w).left
  unfolding replace_camera
  replace_camera-All P [] w h = tt
  replace_camera-All P (s ∷ xs) w h =
      ground (
        arith,
        replace_camera-All P xs w h.1,
        replace_camera-All P xs (delete_config s.path w).1 h.1,
      )

  pub replace_camera-Distinct :
      {K : Type 0} (key : ManagedSession → K) (xs : List ManagedSession) (w : World)
      → Distinct key xs
      → Distinct key (replace_camera service camera xs w).left
  unfolding replace_camera
  replace_camera-Distinct key [] w h = tt
  replace_camera-Distinct key (s ∷ xs) w h = ground (
    arith,
    replace_camera-Distinct key xs w h.1,
    replace_camera-Distinct key xs (delete_config s.path w).1 h.1,
    replace_camera-All (λ y. key y ≢ key s) xs w h.0,
  )

  -- A loop that completes leaves no session of the camera.
  pub replace_camera_absent :
      (xs : List ManagedSession) (w : World)
      → (replace_camera service camera xs w).done ≡ true
      → All (λ s. s.camera_id ≢ camera) (replace_camera service camera xs w).left
  unfolding replace_camera
  replace_camera_absent [] w h = tt
  replace_camera_absent (s ∷ xs) w h = ground (
    arith,
    str_eq_iff s.camera_id camera,
    replace_camera_absent xs w,
    replace_camera_absent xs (delete_config s.path w).1,
  )

pub find-Any :
    (id : String) (xs : List ManagedSession) {s : ManagedSession}
    → find id xs ≡ some s
    → Any (λ t. t.path ≡ s.path) xs
unfolding find
find-Any id [] e = cc
find-Any id (x ∷ xs) {s} e = elim (Bool-cases (str_eq x.id id)) [
  | inl hit ↦ inl (ground arith)
  | inr miss ↦ inr (find-Any id xs {s = s} (ground arith))
]
