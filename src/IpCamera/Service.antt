-- ===== src/IpCamera/Service.antt =====
-- Discover and CheckStatus of internal/ipcamera/service.go.
use dronservice_updates.Prelude.{
  ℕ, String, str_eq, codes, Bool, true, false, ◌&&◌, ◌||◌, Option, none, some, List, [], ◌∷◌, ◌==◌,
  if◌then◌else◌, lookup, insert, ◌⊎◌, inl, inr,
}
use dronservice_updates.IpCamera.Types.{PersistedCamera, Camera, DiscoveredDevice, DahuaDevice}
use dronservice_updates.IpCamera.Library.{Library}
use dronservice_updates.IpCamera.Urls.{contains}
use dronservice_updates.IpCamera.Prepare.{Error, v4_of}
use dronservice_updates.IpCamera.Devices.{
  discovered_device_key, device_key, update_generic_discovered_camera, update_discovered_camera,
}
use dronservice_updates.IpCamera.Store.{
  Cameras, Service, Write, store, or_zero, cameras_from_persisted,
}

abbrev pub Online : Type 0
Online = List (String × Bool)

-- The result of an operation that answers with cameras.
abbrev pub Listed : Type 0
Listed = Error ⊎ List Camera

-- The loop of Discover over the devices.
unfoldable pub add_devices :
    Library → ℕ → List DiscoveredDevice → Cameras → Online → Cameras × Online
unfolding discovered_device_key update_generic_discovered_camera or_zero lookup insert
add_devices lib now [] next online = (next, online)
add_devices lib now (d ∷ rest) next online =
    let id = discovered_device_key lib d in
    add_devices lib now rest
      (insert id (update_generic_discovered_camera lib (or_zero (lookup id next)) id d now) next)
      (insert id true online)

-- The end of Discover and CheckStatus after a write that was tried.
unfoldable pub finish_listing : Library → Cameras → Online → Bool × Service → Listed × Service
unfolding cameras_from_persisted
finish_listing lib next online (ok, s) =
    if ok
    then (inr (cameras_from_persisted lib next online), record s { online = online })
    else (inl Error.not_written, s)

unfoldable pub discover_found :
    Library → Write → ℕ → List DiscoveredDevice → Service → Listed × Service
unfolding add_devices finish_listing store
discover_found lib w now [] s = finish_listing lib s.cameras [] (true, s)
discover_found lib w now (d ∷ rest) s =
    let (next, online) = add_devices lib now (d ∷ rest) s.cameras [] in
    finish_listing lib next online (store w next s)

-- Discover: the result of DiscoverCameras is a parameter.
unfoldable pub discover :
    Library → Write → ℕ → String ⊎ List DiscoveredDevice → Service → Listed × Service
unfolding discover_found
discover lib w now (inl e) s = (inl (Error.device_failed e), s)
discover lib w now (inr found) s = discover_found lib w now found s

-- What CheckStatus expects of a camera.
unfoldable pub is_dahua : PersistedCamera → Bool
is_dahua c = str_eq c.manufacturer "Dahua" || str_eq c.protocol "DHIP"

unfoldable pub is_unv : PersistedCamera → Bool
unfolding contains
is_unv c = str_eq c.manufacturer "UNV" || contains (codes c.protocol) (codes "UNV-")

unfoldable pub has_v4 : Option ℕ → Bool
has_v4 none = false
has_v4 (some a) = true

unfoldable pub expected_dahua : Cameras → List String
unfolding is_dahua
expected_dahua [] = []
expected_dahua ((id, c) ∷ rest) =
    if is_dahua c then id ∷ expected_dahua rest else expected_dahua rest

-- The targets: an address and a port.
unfoldable pub expected_unv : Library → Cameras → List (String × String × ℕ)
unfolding is_unv has_v4 v4_of
expected_unv lib [] = []
expected_unv lib ((id, c) ∷ rest) =
    if is_unv c && has_v4 (v4_of (lib.parse_ip c.address))
    then (id, c.address, c.http_port) ∷ expected_unv lib rest
    else expected_unv lib rest

-- What the network answers during CheckStatus: discoverKnownDahua, `none` for an error, and the
-- connections to an address and a port that can be made.
pub record Probes : Type 0 where
  pub find_dahua : List String → Option (List DahuaDevice)
  pub dials : String → ℕ → Bool

-- checkKnownUNVStatus, in the order of the targets.
unfoldable pub check_known_unv_status : Probes → List (String × String × ℕ) → List String
check_known_unv_status o [] = []
check_known_unv_status o ((id, address, port) ∷ rest) =
    let online = check_known_unv_status o rest in
    if o.dials address (if port == 0 then 80 else port) || o.dials address 554
    then id ∷ online
    else online

unfoldable pub devices_of : Option (List DahuaDevice) → List DahuaDevice
devices_of none = []
devices_of (some devices) = devices

-- The variables `next`, `online` and `updated`.
pub record Progress : Type 0 where
  pub next : Cameras
  pub online : Online
  pub updated : Bool

unfoldable pub mark_dahua :
    Library → ℕ → DahuaDevice → String → Option PersistedCamera → Progress → Progress
unfolding update_discovered_camera insert
mark_dahua lib now d id none p = p
mark_dahua lib now d id (some saved) p = record {
  next = insert id (update_discovered_camera lib saved id d now) p.next;
  online = insert id true p.online;
  updated = true;
}

unfoldable pub mark_all_dahua : Library → ℕ → List DahuaDevice → Progress → Progress
unfolding mark_dahua device_key lookup
mark_all_dahua lib now [] p = p
mark_all_dahua lib now (d ∷ rest) p =
    let id = device_key lib d in
    mark_all_dahua lib now rest (mark_dahua lib now d id (lookup id p.next) p)

unfoldable pub mark_unv : ℕ → String → Option PersistedCamera → Progress → Progress
unfolding insert
mark_unv now id none p = p
mark_unv now id (some saved) p = record {
  next = insert id (record saved { last_seen = now }) p.next;
  online = insert id true p.online;
  updated = true;
}

unfoldable pub mark_all_unv : ℕ → List String → Progress → Progress
unfolding mark_unv lookup
mark_all_unv now [] p = p
mark_all_unv now (id ∷ rest) p = mark_all_unv now rest (mark_unv now id (lookup id p.next) p)

unfoldable pub is_empty {ℓ} : {A : Type ℓ} → List A → Bool
is_empty [] = true
is_empty (x ∷ xs) = false

unfoldable pub commit_status : Library → Write → Progress → Service → Listed × Service
unfolding store finish_listing
commit_status lib w p s =
    if p.updated
    then finish_listing lib p.next p.online (store w p.next s)
    else finish_listing lib p.next p.online (true, s)

-- The variables after the loops of CheckStatus.
unfoldable pub status_progress : Library → ℕ → Probes → Cameras → Cameras → Progress
unfolding expected_dahua expected_unv is_empty check_known_unv_status devices_of mark_all_dahua
    mark_all_unv
status_progress lib now o expected cameras =
    let dahua = expected_dahua expected in
    let found = if is_empty dahua then [] else devices_of (o.find_dahua dahua) in
    mark_all_unv now (check_known_unv_status o (expected_unv lib expected))
      (mark_all_dahua lib now found (record { next = cameras; online = []; updated = false }))

-- CheckStatus: `s` is the service at the first lock, `later` the one at the second.
unfoldable pub check_status : Library → Write → ℕ → Probes → Service → Service → Listed × Service
unfolding expected_dahua expected_unv is_empty status_progress commit_status finish_listing
check_status lib w now o s later =
    if is_empty (expected_dahua s.cameras) && is_empty (expected_unv lib s.cameras)
    then finish_listing lib later.cameras [] (true, later)
    else commit_status lib w (status_progress lib now o s.cameras later.cameras) later
