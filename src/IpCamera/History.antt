-- ===== src/IpCamera/History.antt =====
-- Histories of the operations of internal/ipcamera/service.go that change its state.
use dronservice_updates.Prelude.{
  ℕ, String, str_eq, Bool, true, false, not, ◌&&◌, ◌||◌, Option, none, some, List, ◌∷◌,
  if◌then◌else◌, ◌≡◌, ◌≢◌, refl, if_ind, lookup, insert, ◌⊎◌, inl, inr, trim_space, subst,
}
use mathlib.Core.Option.{some-injective}
use dronservice_updates.IpCamera.Types.{
  PersistedCamera, SaveRequest, DiscoveredDevice, Camera, required,
}
use dronservice_updates.IpCamera.Library.{Library}
use dronservice_updates.IpCamera.Prepare.{Error}
use dronservice_updates.IpCamera.Devices.{text_or}
use dronservice_updates.IpCamera.Store.{
  Cameras, Service, Write, unsynced, store, or_zero, save, delete_camera, NetworkChange,
  new_service, is_online,
}
use dronservice_updates.IpCamera.Service.{discover, Probes, check_status, is_dahua, is_unv}
use dronservice_updates.IpCamera.Status.{
  Reading, with_reading, commit_reading, commit_result, refresh_found, refresh_with, Answers,
  refresh_video_streams,
}
use dronservice_updates.IpCamera.Update.{
  save_moved, save_checked, save_network, save_current, save_with_camera_update, moves,
  trim_network, fill_network,
}
use dronservice_updates.IpCamera.Keeping.{
  IsSaved, Keeps, is_ok, is_right, same-Keeps, store-Keeps, insert-IsKeyed, save-Keeps,
  delete_camera-Keeps,
}
use dronservice_updates.IpCamera.Listing.{discover-Keeps, check_status-Keeps, lookup-IsKeyed}

module _ (lib : Library) (w : Write) where
  abbrev KeepsCamera : Service → (Error ⊎ Camera) × Service → Type 0
  KeepsCamera s x = Keeps w (is_right x.0) s x.1

  commit_reading-Keeps :
      (id : String) (unv : Bool) (x : Reading) (o : Option PersistedCamera) (s : Service)
      → lookup id s.cameras ≡ o
      → KeepsCamera s (commit_reading lib w id unv x o s)
  unfolding commit_reading is_right
  commit_reading-Keeps id unv x none s e = same-Keeps w _ s
  commit_reading-Keeps id unv x (some c) s e =
      let read = with_reading unv x c in
      let kept = store-Keeps w (insert id read s.cameras) s (λ k.
        insert-IsKeyed id read s.cameras (unfold with_reading in lookup-IsKeyed id s.cameras c k e)
          k) in
      answered (store w (insert id read s.cameras) s) _ kept
    where
      answered :
          (y : Bool × Service) (c : Camera)
          → Keeps w y.0 s y.1
          → KeepsCamera s (if y.0 then inr c else inl Error.not_written, y.1)
      answered (true, t) c k = k
      answered (false, t) c k = k

  commit_result-Keeps :
      (id : String) (unv : Bool) (x : Error ⊎ Reading) (s : Service)
      → KeepsCamera s (commit_result lib w id unv x s)
  unfolding commit_result
  commit_result-Keeps id unv (inl e) s = same-Keeps w _ s
  commit_result-Keeps id unv (inr x) s = commit_reading-Keeps id unv x _ s refl

  refresh_with-Keeps :
      (o : Answers) (id : String) (c : Option PersistedCamera) (online : Bool) (s : Service)
      → KeepsCamera s (refresh_with lib w o id c online s)
  unfolding refresh_with refresh_found
  refresh_with-Keeps o id none online s = same-Keeps w _ s
  refresh_with-Keeps o id (some c) online s =
      if_ind (KeepsCamera s) (str_eq c.initialization_status required) _ _ (λ _. same-Keeps w _ s)
        (λ _.
          if_ind (KeepsCamera s) (not (is_dahua c) && not (is_unv c)) _ _ (λ _. same-Keeps w _ s)
            (λ _.
              if_ind (KeepsCamera s) (str_eq (trim_space c.username) "" || str_eq c.password "") _ _
                (λ _. same-Keeps w _ s) (λ _. commit_result-Keeps id (is_unv c) _ s)))

  refresh_video_streams-Keeps :
      (o : Answers) (id : String) (before s : Service)
      → KeepsCamera s (refresh_video_streams lib w o id before s)
  unfolding refresh_video_streams
  refresh_video_streams-Keeps o id before s =
      refresh_with-Keeps o id (lookup id before.cameras) (is_online (lookup id before.online)) s

  abbrev KeepsAll : Service → Option Error × Service → Type 0
  KeepsAll s x = Keeps w (is_ok x.0) s x.1

  save_moved-Keeps :
      (device : Option String) (r : SaveRequest) (change : NetworkChange) (s : Service)
      → KeepsAll s (save_moved lib w device r (record s { changes = change ∷ s.changes }))
  unfolding save_moved
  save_moved-Keeps (some e) r change s = record {
    keyed = λ k. k;
    failed = λ _. (refl, refl);
    saved = λ _ i. i;
  }
  save_moved-Keeps none r change s =
      let kept = save-Keeps lib w r (record s { changes = change ∷ s.changes }) in
      record { keyed = kept.keyed; failed = kept.failed; saved = kept.saved }

  save_checked-Keeps :
      (device : Option String) (dahua : Bool) (c : PersistedCamera) (r : Error ⊎ SaveRequest)
      (s : Service)
      → KeepsAll s (save_checked lib w device dahua c r s)
  unfolding save_checked
  save_checked-Keeps device dahua c (inl e) s = same-Keeps w _ s
  save_checked-Keeps device dahua c (inr r) s =
      if_ind (KeepsAll s) (dahua && moves r c) _ _
        (λ _.
          if_ind (KeepsAll s)
            (str_eq (text_or (trim_space r.username) c.username) ""
              || str_eq (text_or r.password c.password) "")
            _ _ (λ _. same-Keeps w _ s) (λ _. save_moved-Keeps device _ _ s))
        (λ _. save-Keeps lib w r s)

  save_network-Keeps :
      (device : Option String) (c : PersistedCamera) (r : SaveRequest) (e : Option Error)
      (s : Service)
      → KeepsAll s (save_network lib w device c r e s)
  unfolding save_network
  save_network-Keeps device c r (some e) s = same-Keeps w _ s
  save_network-Keeps device c r none s = save_checked-Keeps device true c _ s

  save_current-Keeps :
      (device : Option String) (r : SaveRequest) (o : Option PersistedCamera) (s : Service)
      → KeepsAll s (save_current lib w device r o s)
  unfolding save_current
  save_current-Keeps device r none s = save_checked-Keeps device false (or_zero none) _ s
  save_current-Keeps device r (some c) s =
      if_ind (KeepsAll s) (str_eq c.initialization_status required) _ _ (λ _. same-Keeps w _ s)
        (λ _.
          if_ind (KeepsAll s) (str_eq c.manufacturer "Dahua") _ _
            (λ _. save_network-Keeps device c (fill_network r c) _ s)
            (λ _. save_checked-Keeps device false c _ s))

  save_with_camera_update-Keeps :
      (device : Option String) (r : SaveRequest) (before s : Service)
      → KeepsAll s (save_with_camera_update lib w device r before s)
  unfolding save_with_camera_update
  save_with_camera_update-Keeps device r before s =
      save_current-Keeps device (trim_network r) (lookup r.id before.cameras) s

-- One operation, with whether it succeeds. What an operation has read before is a service of any earlier time.
pub data Step (lib : Library) (w : Write) (s : Service) : Bool → Service → Type 0 where
  saves : (r : SaveRequest) → Step lib w s (is_ok (save lib w r s).0) (save lib w r s).1
  deletes : (id : String) → Step lib w s (is_ok (delete_camera w id s).0) (delete_camera w id s).1
  discovers :
      (now : ℕ) (found : String ⊎ List DiscoveredDevice)
      → Step lib w s (is_right (discover lib w now found s).0) (discover lib w now found s).1
  checks :
      (now : ℕ) (o : Probes) (before : Service)
      → Step lib w s
          (is_right (check_status lib w now o before s).0)
          (check_status lib w now o before s).1
  refreshes :
      (o : Answers) (id : String) (before : Service)
      → Step lib w s
          (is_right (refresh_video_streams lib w o id before s).0)
          (refresh_video_streams lib w o id before s).1
  updates :
      (device : Option String) (r : SaveRequest) (before : Service)
      → Step lib w s
          (is_ok (save_with_camera_update lib w device r before s).0)
          (save_with_camera_update lib w device r before s).1

-- An operation of the service of cameras that fails leaves the map and the online marks as they
-- were, also if the file was replaced; any operation keeps each camera under its own ID, and,
-- unless a write fails after the file was replaced, a file that holds the map.
pub Step-Keeps :
    {lib : Library} {w : Write} {s : Service} {ok : Bool} {t : Service}
    → Step lib w s ok t
    → Keeps w ok s t
Step-Keeps {lib} {w} {s} (saves r) = save-Keeps lib w r s
Step-Keeps {lib} {w} {s} (deletes id) = delete_camera-Keeps w id s
Step-Keeps {lib} {w} {s} (discovers now found) = discover-Keeps lib w now found s
Step-Keeps {lib} {w} {s} (checks now o before) = check_status-Keeps lib w now o before s
Step-Keeps {lib} {w} {s} (refreshes o id before) = refresh_video_streams-Keeps lib w o id before s
Step-Keeps {lib} {w} {s} (updates device r before) =
    save_with_camera_update-Keeps lib w device r before s

-- A history in which no write fails after it has replaced the file.
pub data Reach (lib : Library) (s : Service) : Service → Type 0 where
  here : Reach lib s s
  next :
      {t u : Service} {w : Write} {ok : Bool}
      → Reach lib s t
      → w ≢ unsynced
      → Step lib w t ok u
      → Reach lib s u

new_service-IsSaved :
    (o : Option (Option Cameras)) (s : Service) → new_service o ≡ some s → IsSaved s
unfolding new_service
new_service-IsSaved none s e = cc e
new_service-IsSaved (some none) s e = subst IsSaved (some-injective _ s e) (inr (refl, refl))
new_service-IsSaved (some (some cs)) s e = subst IsSaved (some-injective _ s e) (inl refl)

-- After any history of a service of cameras that NewService has opened (saves, deletions,
-- discoveries, checks of the status, reads of the streams, changes of devices), in which no write
-- fails after the file was replaced, the file holds the map, or there is no file and no camera.
pub Reach-IsSaved :
    {lib : Library} (o : Option (Option Cameras)) {s t : Service}
    → new_service o ≡ some s
    → Reach lib s t
    → IsSaved t
Reach-IsSaved o {s} e here = new_service-IsSaved o s e
Reach-IsSaved o {s} e (next {t} {u} {w} r synced step) =
    (Step-Keeps step).saved synced (Reach-IsSaved o e r)
