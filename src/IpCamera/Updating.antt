-- ===== src/IpCamera/Updating.antt =====
-- CheckStatus of internal/ipcamera/service.go: it neither adds nor loses a camera.
use dronservice_updates.Prelude.{
  ℕ, String, Bool, true, false, ◌&&◌, Option, none, some, List, [], ◌∷◌, if◌then◌else◌, ◌≡◌, refl,
  sym, ◌∙◌, subst, if_ind, lookup, insert, lookup-insert_ne,
}
use dronservice_updates.IpCamera.Types.{PersistedCamera, DahuaDevice}
use dronservice_updates.IpCamera.Library.{Library}
use dronservice_updates.IpCamera.Devices.{device_key, update_discovered_camera}
use dronservice_updates.IpCamera.Store.{
  Cameras, Service, Write, refused, written, unsynced, write_json_file, store, or_zero,
}
use dronservice_updates.IpCamera.Service.{
  Online, Listed, finish_listing, Progress, mark_dahua, mark_all_dahua, mark_unv, mark_all_unv,
  commit_status, Probes, status_progress, check_status, expected_dahua, expected_unv, is_empty,
  check_known_unv_status, devices_of,
}
use dronservice_updates.IpCamera.Owners.{
  IsOwned, Preserves, same-Preserves, trans-Preserves, insert-Preserves, finish_listing-cameras,
}

-- No camera is added.
abbrev pub AddsNone : Cameras → Cameras → Type 0
AddsNone before after = (id : String) → lookup id before ≡ none → lookup id after ≡ none

-- The steps of CheckStatus.
abbrev pub Updates : Cameras → Cameras → Type 0
Updates before after = Preserves before after × AddsNone before after

insert-Updates :
    (id : String) (cameras : Cameras) (c d : PersistedCamera)
    → lookup id cameras ≡ some c
    → IsOwned c d
    → Updates cameras (insert id d cameras)
insert-Updates id cameras c d e owned = (
  insert-Preserves id cameras (some c) d e (unfold or_zero in owned),
  λ k absent.
      lookup-insert_ne id k d cameras
        (λ at. cc (absent, subst (λ (x : String). lookup x cameras ≡ some c) (sym at) e))
      ∙ absent,
)

trans-Updates : (a b c : Cameras) → Updates a b → Updates b c → Updates a c
trans-Updates a b c f g = (trans-Preserves a b c f.0 g.0, λ id e. g.1 id (f.1 id e))

same-Updates : (a : Cameras) → Updates a a
same-Updates a = (same-Preserves a, λ id e. e)

mark_dahua-Updates :
    (lib : Library) (now : ℕ) (d : DahuaDevice) (id : String) (o : Option PersistedCamera)
    (p : Progress)
    → lookup id p.next ≡ o
    → Updates p.next (mark_dahua lib now d id o p).next
unfolding mark_dahua update_discovered_camera
mark_dahua-Updates lib now d id none p e = same-Updates p.next
mark_dahua-Updates lib now d id (some c) p e =
    insert-Updates id p.next c (update_discovered_camera lib c id d now) e
      (record { name = refl; username = refl; password = refl; in_use = refl })

mark_all_dahua-Updates :
    (lib : Library) (now : ℕ) (ds : List DahuaDevice) (p : Progress)
    → Updates p.next (mark_all_dahua lib now ds p).next
unfolding mark_all_dahua
mark_all_dahua-Updates lib now [] p = same-Updates p.next
mark_all_dahua-Updates lib now (d ∷ rest) p =
    let id = device_key lib d in
    let q = mark_dahua lib now d id (lookup id p.next) p in
    trans-Updates p.next q.next (mark_all_dahua lib now rest q).next
      (mark_dahua-Updates lib now d id (lookup id p.next) p refl)
      (mark_all_dahua-Updates lib now rest q)

mark_unv-Updates :
    (now : ℕ) (id : String) (o : Option PersistedCamera) (p : Progress)
    → lookup id p.next ≡ o
    → Updates p.next (mark_unv now id o p).next
unfolding mark_unv
mark_unv-Updates now id none p e = same-Updates p.next
mark_unv-Updates now id (some c) p e =
    insert-Updates id p.next c (record c { last_seen = now }) e
      (record { name = refl; username = refl; password = refl; in_use = refl })

mark_all_unv-Updates :
    (now : ℕ) (ids : List String) (p : Progress) → Updates p.next (mark_all_unv now ids p).next
unfolding mark_all_unv
mark_all_unv-Updates now [] p = same-Updates p.next
mark_all_unv-Updates now (id ∷ rest) p =
    let q = mark_unv now id (lookup id p.next) p in
    trans-Updates p.next q.next (mark_all_unv now rest q).next
      (mark_unv-Updates now id (lookup id p.next) p refl) (mark_all_unv-Updates now rest q)

status_progress-Updates :
    (lib : Library) (now : ℕ) (o : Probes) (expected cameras : Cameras)
    → Updates cameras (status_progress lib now o expected cameras).next
unfolding status_progress
status_progress-Updates lib now o expected cameras =
    let dahua = expected_dahua expected in
    let found = if is_empty dahua then [] else devices_of (o.find_dahua dahua) in
    let start : Progress = record { next = cameras; online = []; updated = false } in
    let marked = mark_all_dahua lib now found start in
    let ids = check_known_unv_status o (expected_unv lib expected) in
    trans-Updates cameras marked.next (mark_all_unv now ids marked).next
      (mark_all_dahua-Updates lib now found start) (mark_all_unv-Updates now ids marked)

store-Updates :
    (w : Write) (next : Cameras) (s : Service)
    → Updates s.cameras next
    → Updates s.cameras (store w next s).1.cameras
unfolding store write_json_file
store-Updates refused next s u = same-Updates s.cameras
store-Updates written next s u = u
store-Updates unsynced next s u = same-Updates s.cameras

finish-Updates :
    (lib : Library) (old next : Cameras) (online : Online) (x : Bool × Service)
    → Updates old x.1.cameras
    → Updates old (finish_listing lib next online x).1.cameras
finish-Updates lib old next online x u =
    subst (Updates old) (sym (finish_listing-cameras lib next online x)) u

commit_status-Updates :
    (lib : Library) (w : Write) (p : Progress) (s : Service)
    → Updates s.cameras p.next
    → Updates s.cameras (commit_status lib w p s).1.cameras
unfolding commit_status
commit_status-Updates lib w p s u =
    if_ind (λ (x : Listed × Service). Updates s.cameras x.1.cameras) p.updated _ _
      (λ _.
        finish-Updates lib s.cameras p.next p.online (store w p.next s)
          (store-Updates w p.next s u))
      (λ _. finish-Updates lib s.cameras p.next p.online (true, s) (same-Updates s.cameras))

-- CheckStatus adds no camera, whatever answers, and leaves every camera in the map with its name,
-- its user name, its password and its use.
pub check_status-Updates :
    (lib : Library) (w : Write) (now : ℕ) (o : Probes) (before s : Service)
    → Updates s.cameras (check_status lib w now o before s).1.cameras
unfolding check_status
check_status-Updates lib w now o before s =
    if_ind (λ (x : Listed × Service). Updates s.cameras x.1.cameras)
      (is_empty (expected_dahua before.cameras) && is_empty (expected_unv lib before.cameras)) _ _
      (λ _. finish-Updates lib s.cameras s.cameras [] (true, s) (same-Updates s.cameras))
      (λ _.
        commit_status-Updates lib w (status_progress lib now o before.cameras s.cameras) s
          (status_progress-Updates lib now o before.cameras s.cameras))
