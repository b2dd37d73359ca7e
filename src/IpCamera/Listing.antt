-- ===== src/IpCamera/Listing.antt =====
-- What Discover and CheckStatus of internal/ipcamera/service.go do to the map of cameras and its file.
use dronservice_updates.Prelude.{
  ℕ, String, str_eq, Bool, true, false, ◌&&◌, Option, none, some, List, [], ◌∷◌, if◌then◌else◌, ◌≡◌,
  refl, if_ind, lookup, ◌⊎◌, inl, inr, subst, ◌∙◌, str_eq_iff,
}
use mathlib.Core.Option.{some-injective}
use dronservice_updates.IpCamera.Types.{PersistedCamera, DiscoveredDevice, DahuaDevice}
use dronservice_updates.IpCamera.Library.{Library}
use dronservice_updates.IpCamera.Devices.{
  discovered_device_key, device_key, update_generic_discovered_camera, update_discovered_camera,
}
use dronservice_updates.IpCamera.Store.{Cameras, Service, Write, or_zero}
use dronservice_updates.IpCamera.Service.{
  Online, Listed, add_devices, finish_listing, discover_found, discover, Progress, mark_dahua,
  mark_all_dahua, mark_unv, mark_all_unv, commit_status, Probes, check_status, expected_dahua,
  expected_unv, is_empty, status_progress, check_known_unv_status, devices_of,
}
use dronservice_updates.IpCamera.Keeping.{
  IsKeyed, Keeps, is_right, same-Keeps, store-Keeps, insert-IsKeyed,
}

pub finish_listing-Keeps :
    (lib : Library) (w : Write) (next : Cameras) (online : Online) (s : Service)
    (x : Bool × Service)
    → Keeps w x.0 s x.1
    → Keeps w (is_right (finish_listing lib next online x).0) s (finish_listing lib next online x).1
unfolding finish_listing is_right
finish_listing-Keeps lib w next online s (true, t) k = record {
  keyed = k.keyed;
  failed = λ e. cc e;
  saved = k.saved;
}
finish_listing-Keeps lib w next online s (false, t) k = k

add_devices-IsKeyed :
    (lib : Library) (now : ℕ) (found : List DiscoveredDevice) (next : Cameras) (online : Online)
    → IsKeyed next
    → IsKeyed (add_devices lib now found next online).0
unfolding add_devices update_generic_discovered_camera
add_devices-IsKeyed lib now [] next online k = k
add_devices-IsKeyed lib now (d ∷ rest) next online k =
    let id = discovered_device_key lib d in
    add_devices-IsKeyed lib now rest _ _ (
      insert-IsKeyed id (update_generic_discovered_camera lib (or_zero (lookup id next)) id d now)
        next refl k)

discover_found-Keeps :
    (lib : Library) (w : Write) (now : ℕ) (found : List DiscoveredDevice) (s : Service)
    → Keeps w (is_right (discover_found lib w now found s).0) s (discover_found lib w now found s).1
unfolding discover_found
discover_found-Keeps lib w now [] s =
    finish_listing-Keeps lib w s.cameras [] s (true, s) (same-Keeps w true s)
discover_found-Keeps lib w now (d ∷ rest) s =
    finish_listing-Keeps lib w _ _ s _
      (store-Keeps w _ s (add_devices-IsKeyed lib now (d ∷ rest) s.cameras []))

pub discover-Keeps :
    (lib : Library) (w : Write) (now : ℕ) (found : String ⊎ List DiscoveredDevice) (s : Service)
    → Keeps w (is_right (discover lib w now found s).0) s (discover lib w now found s).1
unfolding discover
discover-Keeps lib w now (inl e) s = same-Keeps w _ s
discover-Keeps lib w now (inr found) s = discover_found-Keeps lib w now found s

mark_dahua-IsKeyed :
    (lib : Library) (now : ℕ) (d : DahuaDevice) (id : String) (o : Option PersistedCamera)
    (p : Progress)
    → IsKeyed p.next
    → IsKeyed (mark_dahua lib now d id o p).next
unfolding mark_dahua update_discovered_camera
mark_dahua-IsKeyed lib now d id none p k = k
mark_dahua-IsKeyed lib now d id (some c) p k =
    insert-IsKeyed id (update_discovered_camera lib c id d now) p.next refl k

mark_all_dahua-IsKeyed :
    (lib : Library) (now : ℕ) (ds : List DahuaDevice) (p : Progress)
    → IsKeyed p.next
    → IsKeyed (mark_all_dahua lib now ds p).next
unfolding mark_all_dahua
mark_all_dahua-IsKeyed lib now [] p k = k
mark_all_dahua-IsKeyed lib now (d ∷ rest) p k =
    mark_all_dahua-IsKeyed lib now rest _
      (mark_dahua-IsKeyed lib now d _ (lookup (device_key lib d) p.next) p k)

-- A camera that is found in a map stands under its own ID.
pub lookup-IsKeyed :
    (id : String) (cameras : Cameras) (c : PersistedCamera)
    → IsKeyed cameras
    → lookup id cameras ≡ some c
    → c.id ≡ id
unfolding lookup
lookup-IsKeyed id [] c k e = cc e
lookup-IsKeyed id ((key, d) ∷ rest) c k e =
    if_ind (λ (o : Option PersistedCamera). o ≡ some c → c.id ≡ id) (str_eq key id) _ _
      (λ same h.
        subst (λ (x : PersistedCamera). x.id ≡ id) (some-injective d c h)
          (k.0 ∙ (str_eq_iff key id).0 same))
      (λ _. lookup-IsKeyed id rest c k.1) e

mark_unv-IsKeyed :
    (now : ℕ) (id : String) (o : Option PersistedCamera) (p : Progress)
    → lookup id p.next ≡ o
    → IsKeyed p.next
    → IsKeyed (mark_unv now id o p).next
unfolding mark_unv
mark_unv-IsKeyed now id none p e k = k
mark_unv-IsKeyed now id (some c) p e k =
    insert-IsKeyed id (record c { last_seen = now }) p.next (lookup-IsKeyed id p.next c k e) k

mark_all_unv-IsKeyed :
    (now : ℕ) (ids : List String) (p : Progress)
    → IsKeyed p.next
    → IsKeyed (mark_all_unv now ids p).next
unfolding mark_all_unv
mark_all_unv-IsKeyed now [] p k = k
mark_all_unv-IsKeyed now (id ∷ rest) p k =
    mark_all_unv-IsKeyed now rest _ (mark_unv-IsKeyed now id _ p refl k)

commit_status-Keeps :
    (lib : Library) (w : Write) (p : Progress) (s : Service)
    → (IsKeyed s.cameras → IsKeyed p.next)
    → Keeps w (is_right (commit_status lib w p s).0) s (commit_status lib w p s).1
unfolding commit_status
commit_status-Keeps lib w p s k =
    if_ind (λ (x : Listed × Service). Keeps w (is_right x.0) s x.1) p.updated _ _
      (λ _. finish_listing-Keeps lib w p.next p.online s _ (store-Keeps w p.next s k))
      (λ _. finish_listing-Keeps lib w p.next p.online s (true, s) (same-Keeps w true s))

status_progress-IsKeyed :
    (lib : Library) (now : ℕ) (o : Probes) (expected cameras : Cameras)
    → IsKeyed cameras
    → IsKeyed (status_progress lib now o expected cameras).next
unfolding status_progress
status_progress-IsKeyed lib now o expected cameras k =
    let dahua = expected_dahua expected in
    let found = if is_empty dahua then [] else devices_of (o.find_dahua dahua) in
    let start : Progress = record { next = cameras; online = []; updated = false } in
    mark_all_unv-IsKeyed now (check_known_unv_status o (expected_unv lib expected))
      (mark_all_dahua lib now found start) (mark_all_dahua-IsKeyed lib now found start k)

pub check_status-Keeps :
    (lib : Library) (w : Write) (now : ℕ) (o : Probes) (before s : Service)
    → Keeps w
        (is_right (check_status lib w now o before s).0)
        s
        (check_status lib w now o before s).1
unfolding check_status
check_status-Keeps lib w now o before s =
    if_ind (λ (x : Listed × Service). Keeps w (is_right x.0) s x.1)
      (is_empty (expected_dahua before.cameras) && is_empty (expected_unv lib before.cameras)) _ _
      (λ _. finish_listing-Keeps lib w s.cameras [] s (true, s) (same-Keeps w true s))
      (λ _.
        commit_status-Keeps lib w (status_progress lib now o before.cameras s.cameras) s
          (status_progress-IsKeyed lib now o before.cameras s.cameras))
