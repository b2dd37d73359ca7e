-- ===== src/Preview/Invariant.antt =====
-- The session map of internal/streampreview/manager.go after any call.
use dronservice_updates.Prelude.{
  ℕ, String, concat, ◌≡◌, ◌≢◌, refl, true, false, Option, none, some, [], All, Distinct, arith, inl,
  inr, Option-cases, ℤ, if_ind, ◌+◌,
}
use dronservice_updates.Stream.Types.{Source, internal_preview_path_prefix}
use dronservice_updates.Preview.{
  ManagedSession, Manager, Session, Result, find, remove, set_timer, new_manager, new_session,
  add_session, create, start_source, stop, close, expire, cleanup, replace_camera,
}
use dronservice_updates.Preview.Sessions.{
  remove-All, remove-Distinct, remove_absent, set_timer-All, set_timer-Distinct, replace_camera-All,
  replace_camera-Distinct, replace_camera_absent,
}
use dronservice_updates.Preview.Paths.{PathService}

abbrev pub IsNamed : ManagedSession → Type 0
IsNamed s = s.path ≡ concat internal_preview_path_prefix s.id

-- One session for an ID and one for a camera, each on the path of its ID; none once closed.
pub record IsValid {W : Type 0} (m : Manager W) : Type 0 where
  pub ids : Distinct (λ (s : ManagedSession). s.id) m.sessions
  pub cameras : Distinct (λ (s : ManagedSession). s.camera_id) m.sessions
  pub named : All IsNamed m.sessions
  pub emptied : m.closed ≡ true → m.sessions ≡ []

pub new_manager-IsValid : {W : Type 0} (w : W) (ttl : ℤ) → IsValid (new_manager w ttl)
unfolding new_manager
new_manager-IsValid w ttl = record { ids = tt; cameras = tt; named = tt; emptied = λ _. refl }

module _ (service : PathService) where
  open service use {World, list_internal_preview_paths, delete_config, apply_source}

  pub moved-IsValid : (m : Manager World) (w : World) → IsValid m → IsValid (record m { paths = w })
  moved-IsValid m w v = record {
    ids = v.ids;
    cameras = v.cameras;
    named = v.named;
    emptied = v.emptied;
  }

  add_session-IsValid :
      (m : Manager World) (session : Session) (now : ℕ)
      → IsValid m
      → m.closed ≡ false
      → session.path ≡ concat internal_preview_path_prefix session.id
      → All (λ s. s.camera_id ≢ session.camera_id) m.sessions
      → IsValid (add_session service m session now)
  unfolding add_session
  add_session-IsValid m session now v open_ named free = record {
    ids = (
      remove_absent session.id m.sessions,
      remove-Distinct (λ s. s.id) session.id m.sessions v.ids,
    );
    cameras = (
      remove-All (λ s. s.camera_id ≢ session.camera_id) session.id m.sessions free,
      remove-Distinct (λ s. s.camera_id) session.id m.sessions v.cameras,
    );
    named = (named, remove-All IsNamed session.id m.sessions v.named);
    emptied = λ c. cc (c, open_);
  }

  -- After the loop, whether it completed or not.
  pub swept-IsValid :
      (m : Manager World) (camera : String)
      → IsValid m
      → m.closed ≡ false
      → let swept = replace_camera service camera m.sessions m.paths in
        IsValid (record m { sessions = swept.left; paths = swept.world })
  swept-IsValid m camera v open_ = record {
    ids = replace_camera-Distinct service camera (λ s. s.id) m.sessions m.paths v.ids;
    cameras =
        replace_camera-Distinct service camera (λ s. s.camera_id) m.sessions m.paths v.cameras;
    named = replace_camera-All service camera IsNamed m.sessions m.paths v.named;
    emptied = λ c. cc (c, open_);
  }

  create-IsValid :
      (m : Manager World) (session : Session) (source : Source) (now : ℕ)
      → IsValid m
      → m.closed ≡ false
      → session.path ≡ concat internal_preview_path_prefix session.id
      → All (λ s. s.camera_id ≢ session.camera_id) m.sessions
      → IsValid (create service m session source now).1
  unfolding create
  create-IsValid m session source now v open_ named free =
      if_ind (λ (r : Result Session × Manager World). IsValid r.1)
        (apply_source session.path source m.paths).0 _ _
        (λ _.
          add_session-IsValid (record m { paths = (apply_source session.path source m.paths).1 })
            session now (moved-IsValid m _ v) open_ named free)
        (λ _. moved-IsValid m _ v)

  -- Whatever MediaMTX answers, a start keeps the session map valid.
  pub start_source-IsValid :
      (m : Manager World) (random : Option String) (camera : String) (source : Source) (now : ℕ)
      → IsValid m
      → IsValid (start_source service m random camera source now).1
  unfolding start_source new_session
  start_source-IsValid m none camera source now v = v
  start_source-IsValid m (some token) camera source now v =
      if_ind (λ (r : Result Session × Manager World). IsValid r.1) m.closed _ _ (λ _. v)
        λ open_.
          if_ind (λ (r : Result Session × Manager World). IsValid r.1)
            (replace_camera service camera m.sessions m.paths).done _ _
            (λ done.
              create-IsValid _ _ source now (swept-IsValid m camera v open_) open_ refl
                (replace_camera_absent service camera m.sessions m.paths done))
            (λ _. swept-IsValid m camera v open_)

  -- A session taken out of the map.
  removed-IsValid :
      (m : Manager World) (id : String) (w : World)
      → IsValid m
      → IsValid (record m { sessions = remove id m.sessions; paths = w })
  unfolding remove
  removed-IsValid m id w v = record {
    ids = remove-Distinct (λ s. s.id) id m.sessions v.ids;
    cameras = remove-Distinct (λ s. s.camera_id) id m.sessions v.cameras;
    named = remove-All IsNamed id m.sessions v.named;
    emptied = λ c. rw (v.emptied c);
  }

  pub retimed-IsValid :
      (m : Manager World) (id : String) (t : Option ℕ) (w : World)
      → IsValid m
      → IsValid (record m { sessions = set_timer id t m.sessions; paths = w })
  unfolding set_timer
  retimed-IsValid m id t w v = record {
    ids = set_timer-Distinct (λ s. s.id) id t m.sessions v.ids;
    cameras = set_timer-Distinct (λ s. s.camera_id) id t m.sessions v.cameras;
    named =
        set_timer-All (λ s. s.path ≡ concat internal_preview_path_prefix s.id) id t m.sessions
          v.named;
    emptied = λ c. rw (v.emptied c);
  }

  pub stop-IsValid :
      (m : Manager World) (camera id : String) → IsValid m → IsValid (stop service m camera id).1
  unfolding stop
  stop-IsValid m camera id v = elim (Option-cases (find id m.sessions)) [
    | inl absent ↦ rw (absent, stop) v
    | inr (s, found) ↦
        rw (found, stop)
          (ground (
            arith,
            moved-IsValid m (delete_config s.path m.paths).1 v,
            removed-IsValid m s.id (delete_config s.path m.paths).1 v,
            v,
          ))
  ]

  pub expire-IsValid :
      (m : Manager World) (id : String) (now : ℕ) → IsValid m → IsValid (expire service m id now)
  unfolding expire
  expire-IsValid m id now v = elim (Option-cases (find id m.sessions)) [
    | inl absent ↦ rw (absent, expire) v
    | inr (s, found) ↦
        rw (found, expire)
          (ground (
            arith,
            removed-IsValid m s.id (delete_config s.path m.paths).1 v,
            retimed-IsValid m s.id (some (now + m.expiry_retry_delay))
                (delete_config s.path m.paths).1 v,
          ))
  ]

  pub cleanup-IsValid : (m : Manager World) → IsValid m → IsValid (cleanup service m).1
  unfolding cleanup
  cleanup-IsValid m v = elim (Option-cases (list_internal_preview_paths m.paths)) [
    | inl failed ↦ rw (failed, cleanup) v
    | inr (stale, listed) ↦ rw (listed, cleanup) (moved-IsValid m _ v)
  ]

  pub close-IsValid : (m : Manager World) → IsValid (close service m).1
  unfolding close
  close-IsValid m = record { ids = tt; cameras = tt; named = tt; emptied = λ _. refl }
