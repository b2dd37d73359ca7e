-- ===== src/IpCamera/Store.antt =====
-- The store of cameras of internal/ipcamera/service.go: the map, the file, Save and Delete.
use dronservice_updates.Prelude.{
  String, str_eq, Bool, true, false, not, Option, none, some, List, [], ◌∷◌, if◌then◌else◌, lookup,
  insert, delete, ◌⊎◌, inl, inr,
}
use dronservice_updates.IpCamera.Types.{PersistedCamera, Camera, SaveRequest, zero_camera}
use dronservice_updates.IpCamera.Library.{Library}
use dronservice_updates.IpCamera.Urls.{rtsp_url_without_credentials}
use dronservice_updates.IpCamera.Prepare.{Error, prepare_save_request}
use dronservice_updates.IpCamera.Devices.{normalize_initialization_status, text_or}

abbrev pub Cameras : Type 0
Cameras = List (String × PersistedCamera)

-- The service: its maps, the file of cameras, if there is one, and a camera's own settings that
-- were changed through its web interface, the last change first.
pub record NetworkChange : Type 0 where
  pub id : String
  pub from : String
  pub address : String
  pub subnet : String
  pub gateway : String

pub record Service : Type 0 where
  pub cameras : Cameras
  pub online : List (String × Bool)
  pub file : Option Cameras
  pub changes : List NetworkChange

-- How a write of the file ends: before the rename, with success, or after the rename, when the
-- directory cannot be synchronized.
pub data Write : Type 0 where
  refused written unsynced : Write

-- writeJSONFile: whether it succeeds, and the file.
unfoldable pub write_json_file : Write → Cameras → Option Cameras → Bool × Option Cameras
write_json_file refused next old = (false, old)
write_json_file written next old = (true, some next)
write_json_file unsynced next old = (false, some next)

-- The last statements of each operation: the write, and `s.cameras = next`.
unfoldable pub store : Write → Cameras → Service → Bool × Service
unfolding write_json_file
store w next s =
    let (ok, file) = write_json_file w next s.file in
    (ok, if ok then record s { cameras = next; file = file } else record s { file = file })

-- `s.cameras[id]` with the zero value for a missing key.
unfoldable pub or_zero : Option PersistedCamera → PersistedCamera
or_zero none = zero_camera
or_zero (some c) = c

unfoldable pub dhcp_or : Option Bool → Option Bool → Option Bool
dhcp_or (some b) old = some b
dhcp_or none old = old

unfoldable pub saved_camera : SaveRequest → PersistedCamera → PersistedCamera
unfolding dhcp_or
saved_camera r saved = record saved {
  id = r.id;
  name = r.name;
  address = r.address;
  username = r.username;
  password = r.password;
  manufacturer = r.manufacturer;
  model = r.model;
  subnet_mask = text_or r.subnet_mask saved.subnet_mask;
  gateway = text_or r.gateway saved.gateway;
  dhcp_enabled = dhcp_or r.dhcp_enabled saved.dhcp_enabled;
  main_stream_path = r.main_stream_path;
  sub_stream_path = r.sub_stream_path;
  use_it = r.use_it;
}

-- The error of an operation, `none` for success.
unfoldable pub store_or_error : Write → Cameras → Service → Option Error × Service
unfolding store
store_or_error w next s =
    let (ok, s') = store w next s in (if ok then none else some Error.not_written, s')

unfoldable pub save_prepared : Write → Service → Error ⊎ SaveRequest → Option Error × Service
unfolding store_or_error saved_camera or_zero lookup insert
save_prepared w s (inl e) = (some e, s)
save_prepared w s (inr r) =
    store_or_error w (insert r.id (saved_camera r (or_zero (lookup r.id s.cameras))) s.cameras) s

-- Save
unfoldable pub save : Library → Write → SaveRequest → Service → Option Error × Service
unfolding save_prepared prepare_save_request or_zero lookup
save lib w r s =
    let old = or_zero (lookup r.id s.cameras) in
    save_prepared w s (prepare_save_request lib r old.password)

-- `delete(s.online, id)` after a write that succeeded.
unfoldable pub forget : String → Option Error × Service → Option Error × Service
unfolding delete
forget id (none, s) = (none, record s { online = delete id s.online })
forget id (some e, s) = (some e, s)

unfoldable pub delete_found :
    Write → String → Option PersistedCamera → Service → Option Error × Service
unfolding store_or_error forget delete
delete_found w id none s = (some Error.not_found, s)
delete_found w id (some c) s = forget id (store_or_error w (delete id s.cameras) s)

-- Delete
unfoldable pub delete_camera : Write → String → Service → Option Error × Service
unfolding delete_found lookup
delete_camera w id s = delete_found w id (lookup id s.cameras) s

-- NewService: the cameras that the file holds; `none` is a file that cannot be read or decoded,
-- `some none` an absent one.
unfoldable pub new_service : Option (Option Cameras) → Option Service
new_service none = none
new_service (some none) = some (record { cameras = []; online = []; file = none; changes = [] })
new_service (some (some cameras)) =
    some (record { cameras = cameras; online = []; file = some cameras; changes = [] })

-- `online[id]`
unfoldable pub is_online : Option Bool → Bool
is_online none = false
is_online (some b) = b

-- cameraFromPersisted
unfoldable pub camera_from_persisted : Library → PersistedCamera → Bool → Camera
unfolding rtsp_url_without_credentials normalize_initialization_status
camera_from_persisted lib saved online = record {
  id = saved.id;
  name = saved.name;
  address = saved.address;
  mac = saved.mac;
  model = saved.model;
  manufacturer = saved.manufacturer;
  vendor = saved.vendor;
  device_class = saved.device_class;
  serial = saved.serial;
  firmware = saved.firmware;
  machine_name = saved.machine_name;
  subnet_mask = saved.subnet_mask;
  gateway = saved.gateway;
  http_port = saved.http_port;
  service_port = saved.service_port;
  dhcp_enabled = saved.dhcp_enabled;
  protocol = saved.protocol;
  source_address = saved.source_address;
  interface_name = saved.interface_name;
  last_seen = saved.last_seen;
  initialization_status = normalize_initialization_status saved.initialization_status;
  username = saved.username;
  has_password = not (str_eq saved.password "");
  main_stream_path =
      rtsp_url_without_credentials lib (text_or saved.main_stream_path saved.legacy_rtsp_path);
  sub_stream_path = rtsp_url_without_credentials lib saved.sub_stream_path;
  main_stream = saved.main_stream;
  sub_stream = saved.sub_stream;
  online = online;
  use_it = saved.use_it;
}

-- camerasFromPersisted, up to the order that sort.Slice gives.
unfoldable pub cameras_from_persisted : Library → Cameras → List (String × Bool) → List Camera
unfolding camera_from_persisted is_online lookup
cameras_from_persisted lib [] online = []
cameras_from_persisted lib ((id, saved) ∷ rest) online =
    camera_from_persisted lib saved (is_online (lookup id online))
    ∷ cameras_from_persisted lib rest online

-- List
unfoldable pub list : Library → Service → List Camera
unfolding cameras_from_persisted
list lib s = cameras_from_persisted lib s.cameras s.online
