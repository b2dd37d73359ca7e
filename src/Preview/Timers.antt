-- ===== src/Preview/Timers.antt =====
-- The methods of internal/streampreview/manager.go and the timers of its sessions as steps that
-- interleave. A timer fires at a time of its own; its callback then waits for the lock, and other
-- methods may run before it does.
use dronservice_updates.Prelude.{
  ℕ, ◌+◌, String, str_eq, str_eq_iff, ◌≡◌, ◌≢◌, refl, sym, subst, false, Option, none, some, List,
  [], ◌∷◌, ◌++◌, All, Any, ℤ, arith, ◌⊎◌, inl, inr, Option-cases, Bool-cases, if_ind,
}
use dronservice_updates.Stream.Types.{Source}
use dronservice_updates.Preview.{
  ManagedSession, Manager, find, remove, set_timer, new_manager, new_session, add_session, create,
  start_source, stop, close, expire, cleanup, replace_camera,
}
use dronservice_updates.Preview.Sessions.{remove-All, find_id, replace_camera-All}
use dronservice_updates.Preview.Invariant.{
  IsValid, new_manager-IsValid, start_source-IsValid, stop-IsValid, expire-IsValid, cleanup-IsValid,
  close-IsValid, retimed-IsValid,
}
use dronservice_updates.Preview.Paths.{PathService}

-- The manager, and the session IDs of the callbacks that wait for its lock.
pub record System (W : Type 0) : Type 0 where
  pub manager : Manager W
  pub callbacks : List String

module _ (service : PathService) where
  open service use {World}

  pub data Step (s : System World) : System World → Type 0 where
    starts :
        (random : Option String) (camera : String) (source : Source) (now : ℕ)
        → Step s
            (record s { manager = (start_source service s.manager random camera source now).1 })
    stops :
        (camera id : String) → Step s (record s { manager = (stop service s.manager camera id).1 })
    cleans : Step s (record s { manager = (cleanup service s.manager).1 })
    closes : Step s (record s { manager = (close service s.manager).1 })
    fires :
        (id : String) (managed : ManagedSession) (due : ℕ)
        → find id s.manager.sessions ≡ some managed
        → managed.timer ≡ some due
        → Step s (record s {
          manager = record s.manager { sessions = set_timer id none s.manager.sessions };
          callbacks = id ∷ s.callbacks;
        })
    runs :
        (id : String) (before after : List String) (now : ℕ)
        → s.callbacks ≡ before ++ id ∷ after
        → Step s (record { manager = expire service s.manager id now; callbacks = before ++ after })

  pub data Reach (s : System World) : System World → Type 0 where
    here : Reach s s
    next : {t u : System World} → Reach s t → Step t u → Reach s u

  pub Step-IsValid : {s t : System World} → Step s t → IsValid s.manager → IsValid t.manager
  Step-IsValid {s} (starts random camera source now) v =
      start_source-IsValid service s.manager random camera source now v
  Step-IsValid {s} (stops camera id) v = stop-IsValid service s.manager camera id v
  Step-IsValid {s} cleans v = cleanup-IsValid service s.manager v
  Step-IsValid {s} closes v = close-IsValid service s.manager
  Step-IsValid {s} (fires id managed due found timed) v =
      retimed-IsValid service s.manager id none s.manager.paths v
  Step-IsValid {s} (runs id before after now e) v = expire-IsValid service s.manager id now v

  -- At every moment of every history of a preview manager that starts empty (starts, stops,
  -- expiries that run late, a cleanup, a close, whatever MediaMTX answers), a session ID and a
  -- camera have one session at most, each session is on the path of its ID, and a closed manager
  -- has no session.
  pub Reach-IsValid :
      (w : World) (ttl : ℤ) {s : System World}
      → Reach (record { manager = new_manager w ttl; callbacks = [] }) s
      → IsValid s.manager
  Reach-IsValid w ttl here = new_manager-IsValid w ttl
  Reach-IsValid w ttl (next r st) = Step-IsValid st (Reach-IsValid w ttl r)

-- The session's timer is set, or its callback is about to run.
abbrev IsWatched : List String → ManagedSession → Type 0
IsWatched callbacks s = ((due : ℕ) × (s.timer ≡ some due)) ⊎ Any (λ id. id ≡ s.id) callbacks

Any-take :
    (id k : String) (before after : List String)
    → id ≢ k
    → Any (λ i. i ≡ k) (before ++ id ∷ after)
    → Any (λ i. i ≡ k) (before ++ after)
Any-take id k [] after n (inl e) = absurd (n e)
Any-take id k [] after n (inr a) = a
Any-take id k (b ∷ before) after n (inl e) = inl e
Any-take id k (b ∷ before) after n (inr a) = inr (Any-take id k before after n a)

-- Without the callback of `id`, the sessions of other IDs are watched still.
taken-IsWatched :
    (id : String) (before after : List String) (s : ManagedSession)
    → IsWatched (before ++ id ∷ after) s
    → s.id ≢ id
    → IsWatched (before ++ after) s
taken-IsWatched id before after s (inl t) n = inl t
taken-IsWatched id before after s (inr a) n = inr (Any-take id s.id before after (λ e. n (sym e)) a)

fired-IsWatched :
    (id : String) (callbacks : List String) (xs : List ManagedSession)
    → All (IsWatched callbacks) xs
    → All (IsWatched (id ∷ callbacks)) (set_timer id none xs)
unfolding set_timer
fired-IsWatched id cs [] h = tt
fired-IsWatched id cs (s ∷ xs) h = (
  if_ind (IsWatched (id ∷ cs)) (str_eq s.id id) _ _
      (λ hit. inr (inl (sym ((str_eq_iff s.id id).0 hit)))) (λ _. later h.0),
  fired-IsWatched id cs xs h.1,
)
  where
    later : IsWatched cs s → IsWatched (id ∷ cs) s
    later (inl t) = inl t
    later (inr a) = inr (inr a)

differs : (s : ManagedSession) (id : String) → str_eq s.id id ≡ false → s.id ≢ id
differs s id miss e = cc (miss, (str_eq_iff s.id id).1 e)

removed-IsWatched :
    (id : String) (before after : List String) (xs : List ManagedSession)
    → All (IsWatched (before ++ id ∷ after)) xs
    → All (IsWatched (before ++ after)) (remove id xs)
unfolding remove
removed-IsWatched id before after [] h = tt
removed-IsWatched id before after (s ∷ xs) h =
    if_ind (All (IsWatched (before ++ after))) (str_eq s.id id) _ _
      (λ _. removed-IsWatched id before after xs h.1)
      (λ miss. (
        taken-IsWatched id before after s h.0 (differs s id miss),
        removed-IsWatched id before after xs h.1,
      ))

retimed-IsWatched :
    (id : String) (due : ℕ) (before after : List String) (xs : List ManagedSession)
    → All (IsWatched (before ++ id ∷ after)) xs
    → All (IsWatched (before ++ after)) (set_timer id (some due) xs)
unfolding set_timer
retimed-IsWatched id due before after [] h = tt
retimed-IsWatched id due before after (s ∷ xs) h = (
  if_ind (IsWatched (before ++ after)) (str_eq s.id id) _ _ (λ _. inl (due, refl))
      (λ miss. taken-IsWatched id before after s h.0 (differs s id miss)),
  retimed-IsWatched id due before after xs h.1,
)

-- Where no session has the ID, its callback is not needed.
absent-IsWatched :
    (id : String) (before after : List String) (xs : List ManagedSession)
    → find id xs ≡ none
    → All (IsWatched (before ++ id ∷ after)) xs
    → All (IsWatched (before ++ after)) xs
unfolding find
absent-IsWatched id before after [] e h = tt
absent-IsWatched id before after (s ∷ xs) e h = elim (Bool-cases (str_eq s.id id)) [
  | inl hit ↦ ground arith
  | inr miss ↦ (
    taken-IsWatched id before after s h.0 (differs s id miss),
    absent-IsWatched id before after xs (ground arith) h.1,
  )
]

module _ (service : PathService) where
  open service use {World, apply_source, delete_config, list_internal_preview_paths}

  abbrev pub AllWatched : System World → Type 0
  AllWatched s = All (IsWatched s.callbacks) s.manager.sessions

  abbrev Watched : {A : Type 0} → List String → A × Manager World → Type 0
  Watched cs r = All (IsWatched cs) r.1.sessions

  start_source-Watched :
      (cs : List String) (m : Manager World) (random : Option String) (camera : String)
      (source : Source) (now : ℕ)
      → All (IsWatched cs) m.sessions
      → All (IsWatched cs) (start_source service m random camera source now).1.sessions
  unfolding start_source create add_session new_session
  start_source-Watched cs m none camera source now h = h
  start_source-Watched cs m (some token) camera source now h =
      if_ind (Watched cs) m.closed _ _ (λ _. h)
        λ _.
          if_ind (Watched cs) (replace_camera service camera m.sessions m.paths).done _ _
            (λ _.
              if_ind (Watched cs) (apply_source _ source _).0 _ _
                (λ _. (inl (now + m.ttl, refl), remove-All (IsWatched cs) token _ left))
                (λ _. left))
            (λ _. left)
    where
      left : All (IsWatched cs) (replace_camera service camera m.sessions m.paths).left
      left = replace_camera-All service camera (IsWatched cs) m.sessions m.paths h

  stop-Watched :
      (cs : List String) (m : Manager World) (camera id : String)
      → All (IsWatched cs) m.sessions
      → All (IsWatched cs) (stop service m camera id).1.sessions
  unfolding stop
  stop-Watched cs m camera id h = elim (Option-cases (find id m.sessions)) [
    | inl absent ↦ rw (absent, stop) h
    | inr (s, found) ↦
        rw (found, stop) (ground (arith, h, remove-All (IsWatched cs) s.id m.sessions h))
  ]

  expire-Watched :
      (id : String) (before after : List String) (m : Manager World) (now : ℕ)
      → All (IsWatched (before ++ id ∷ after)) m.sessions
      → All (IsWatched (before ++ after)) (expire service m id now).sessions
  unfolding expire
  expire-Watched id before after m now h = elim (Option-cases (find id m.sessions)) [
    | inl absent ↦ rw (absent, expire) (absent-IsWatched id before after m.sessions absent h)
    | inr (s, found) ↦
        let own =
          subst (λ k. All (IsWatched (before ++ k ∷ after)) m.sessions)
            (sym (find_id id m.sessions found)) h in
        rw (found, expire)
          (if_ind (λ (n : Manager World). All (IsWatched (before ++ after)) n.sessions)
            (delete_config s.path m.paths).0 _ _
            (λ _. removed-IsWatched s.id before after m.sessions own)
            (λ _. retimed-IsWatched s.id _ before after m.sessions own))
  ]

  cleanup-Watched :
      (cs : List String) (m : Manager World)
      → All (IsWatched cs) m.sessions
      → All (IsWatched cs) (cleanup service m).1.sessions
  unfolding cleanup
  cleanup-Watched cs m h = elim (Option-cases (list_internal_preview_paths m.paths)) [
    | inl failed ↦ rw (failed, cleanup) h
    | inr (stale, listed) ↦ rw (listed, cleanup) h
  ]

  pub Step-AllWatched : {s t : System World} → Step service s t → AllWatched s → AllWatched t
  Step-AllWatched {s} (starts random camera source now) h =
      start_source-Watched s.callbacks s.manager random camera source now h
  Step-AllWatched {s} (stops camera id) h = stop-Watched s.callbacks s.manager camera id h
  Step-AllWatched {s} cleans h = cleanup-Watched s.callbacks s.manager h
  Step-AllWatched {s} closes h = unfold close in tt
  Step-AllWatched {s} (fires id managed due found timed) h =
      fired-IsWatched id s.callbacks s.manager.sessions h
  Step-AllWatched {s} (runs id before after now e) h =
      expire-Watched id before after s.manager now
        (subst (λ cs. All (IsWatched cs) s.manager.sessions) e h)

  -- At every moment of every history of a preview manager, each session has a timer that is set or
  -- a callback of its timer that is about to run, also after MediaMTX has refused to delete its
  -- path.
  pub Reach-AllWatched :
      (w : World) (ttl : ℤ) {s : System World}
      → Reach service (record { manager = new_manager w ttl; callbacks = [] }) s
      → AllWatched s
  unfolding new_manager
  Reach-AllWatched w ttl here = tt
  Reach-AllWatched w ttl (next r st) = Step-AllWatched st (Reach-AllWatched w ttl r)
