-- ===== src/Preview/Methods.antt =====
-- What the methods of internal/streampreview/manager.go return and leave.
use dronservice_updates.Prelude.{
  ℕ, ◌+◌, String, str_eq, str_eq_refl, str_eq_iff, ◌≡◌, refl, false, Option, none, some, arith,
  Option-cases, subst, sym, if_ind, if◌then◌else◌, ◌⊎◌, inl, inr,
}
use dronservice_updates.Stream.Types.{Source}
use dronservice_updates.Preview.{
  ManagedSession, Manager, Session, Result, ok, err, session_not_found, delete_failed, find, remove,
  new_session, add_session, create, start_source, stop, stop_found,
}
use dronservice_updates.Preview.Sessions.{find-remove, find_id}
use dronservice_updates.Preview.Paths.{PathService}

module _ (service : PathService) where
  open service use {World, has, delete_config, apply_source, delete_config_gone}

  -- A start that succeeds returns a session of the camera that the map holds under its ID, with its
  -- expiry and its timer one time to live after the start.
  pub start_source-ok :
      (m : Manager World) (random : Option String) (camera : String) (source : Source) (now : ℕ)
      (s : Session)
      → (start_source service m random camera source now).0 ≡ ok s
      → (s.camera_id ≡ camera)
        × (s.expires_at ≡ now + m.ttl)
        × (find s.id (start_source service m random camera source now).1.sessions
            ≡ some (record { session = s; timer = some s.expires_at }))
  unfolding start_source create add_session new_session find
  start_source-ok m none camera source now s e = cc
  start_source-ok m (some token) camera source now s e = ground (arith, str_eq_refl token)

  -- The two outcomes for a session of the camera.
  abbrev pub Stopped :
      Manager World → String → ManagedSession → Result (Unit {0}) × Manager World → Type 0
  Stopped m id s r =
      ((r.0 ≡ ok tt) × (find id r.1.sessions ≡ none) × (has r.1.paths s.path ≡ false))
      ⊎ ((r.0 ≡ err delete_failed) × (r.1.sessions ≡ m.sessions))

  abbrev pub Stops : Manager World → String → String → Result (Unit {0}) × Manager World → Type 0
  Stops m camera id r =
      ((r.0 ≡ err session_not_found) × (r.1 ≡ m))
      ⊎ ((s : ManagedSession) × (find id m.sessions ≡ some s)
          × (s.camera_id ≡ camera)
          × Stopped m id s r)

  stop-of_found :
      (m : Manager World) (camera id : String) (s : ManagedSession)
      → find id m.sessions ≡ some s
      → stop service m camera id
        ≡ (if str_eq s.camera_id camera then stop_found service m s else (err session_not_found, m))
  unfolding stop
  stop-of_found m camera id s found = rw (found, stop)

  stop_found-Stopped :
      (m : Manager World) (id : String) (s : ManagedSession)
      → find id m.sessions ≡ some s
      → Stopped m id s (stop_found service m s)
  unfolding stop_found
  stop_found-Stopped m id s found =
      if_ind (Stopped m id s) (delete_config s.path m.paths).0
        (
          ok tt,
          record m { sessions = remove s.id m.sessions; paths = (delete_config s.path m.paths).1 },
        )
        (err delete_failed, record m { paths = (delete_config s.path m.paths).1 })
        (λ done. inl (refl, gone, delete_config_gone s.path m.paths done)) (λ _. inr (refl, refl))
    where
      gone : find id (remove s.id m.sessions) ≡ none
      gone =
          subst (λ k. find k (remove s.id m.sessions) ≡ none) (find_id id m.sessions found)
            (find-remove s.id m.sessions)

  -- A stop of a session that is unknown or of another camera fails and changes nothing; another
  -- stop takes the session out of the map and its path out of MediaMTX, or fails and keeps the
  -- sessions as they were.
  pub stop_lem :
      (m : Manager World) (camera id : String) → Stops m camera id (stop service m camera id)
  stop_lem m camera id = elim (Option-cases (find id m.sessions)) [
    | inl absent ↦ inl (unfold stop in rw (absent, stop), unfold stop in rw (absent, stop))
    | inr (s, found) ↦ subst (Stops m camera id) (sym (stop-of_found m camera id s found)) (
        if_ind (Stops m camera id) (str_eq s.camera_id camera) (stop_found service m s)
          (err session_not_found, m)
          (λ own.
            inr (s, found, (str_eq_iff s.camera_id camera).0 own, stop_found-Stopped m id s found))
          (λ _. inl (refl, refl)))
  ]
