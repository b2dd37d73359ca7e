-- ===== src/IpCamera/Status.antt =====
-- RefreshVideoStreams of internal/ipcamera/service.go, with mergeVideoStream of
-- internal/ipcamera/unv_lapi.go. It reads a camera under one lock and writes under a later one: `s` is
-- the service at the first, `later` the one at the second.
use dronservice_updates.Prelude.{
  String, str_eq, trim_space, Bool, not, ◌&&◌, ◌||◌, Option, none, some, ◌==◌, if◌then◌else◌,
  lookup, insert, ◌⊎◌, inl, inr,
}
use dronservice_updates.IpCamera.Types.{PersistedCamera, Camera, VideoStream, required, completed}
use dronservice_updates.IpCamera.Library.{Library}
use dronservice_updates.IpCamera.Urls.{rtsp_url_with_credentials}
use dronservice_updates.IpCamera.Prepare.{Error}
use dronservice_updates.IpCamera.Devices.{text_or, port_or}
use dronservice_updates.IpCamera.Store.{Service, Write, store, is_online, camera_from_persisted}
use dronservice_updates.IpCamera.Service.{is_dahua, is_unv}

-- mergeVideoStream
unfoldable pub merge_video_stream : VideoStream → VideoStream → VideoStream
merge_video_stream primary fallback = record {
  resolution = text_or primary.resolution fallback.resolution;
  fps = text_or primary.fps fallback.fps;
  bitrate_kbps = port_or primary.bitrate_kbps fallback.bitrate_kbps;
}

pub record UnvDeviceInfo : Type 0 where
  pub device_name : String
  pub device_model : String
  pub prototype_name : String
  pub serial_number : String
  pub firmware_version : String

-- What the camera answers: its streams by the interface of Dahua, or an error; its data and its
-- streams by that of UNV, zero values after an error; and the probe of an RTSP URL.
pub record Answers : Type 0 where
  pub dahua_streams : String ⊎ (VideoStream × VideoStream)
  pub unv_info : UnvDeviceInfo
  pub unv_streams : VideoStream × VideoStream
  pub probe : String → VideoStream

unfoldable pub is_no_stream : VideoStream → Bool
is_no_stream v = str_eq v.resolution "" && str_eq v.fps "" && v.bitrate_kbps == 0

unfoldable pub probed : Answers → String → VideoStream → VideoStream
unfolding merge_video_stream
probed o source stream =
    if not (str_eq source "") then merge_video_stream stream (o.probe source) else stream

-- What is read from the camera: the two streams, and the data of a UNV camera.
pub record Reading : Type 0 where
  pub main : VideoStream
  pub sub : VideoStream
  pub info : UnvDeviceInfo

abbrev no_info : UnvDeviceInfo
no_info = record {
  device_name = "";
  device_model = "";
  prototype_name = "";
  serial_number = "";
  firmware_version = "";
}

unfoldable pub dahua_reading : String ⊎ (VideoStream × VideoStream) → Error ⊎ Reading
dahua_reading (inl e) = inl (Error.device_failed e)
dahua_reading (inr (main, sub)) = inr (record { main = main; sub = sub; info = no_info })

unfoldable pub unv_reading : Library → Answers → PersistedCamera → Error ⊎ Reading
unfolding probed rtsp_url_with_credentials is_no_stream
unv_reading lib o saved =
    let main =
      probed o (rtsp_url_with_credentials lib saved.main_stream_path saved.username saved.password)
        o.unv_streams.0 in
    let sub =
      probed o (rtsp_url_with_credentials lib saved.sub_stream_path saved.username saved.password)
        o.unv_streams.1 in
    if is_no_stream main && is_no_stream sub
    then inl (Error.device_failed "read UNV video streams")
    else inr (record { main = main; sub = sub; info = o.unv_info })

-- The model: the device's, that of the prototype, or the old one.
unfoldable pub with_reading : Bool → Reading → PersistedCamera → PersistedCamera
with_reading unv x current = record current {
  main_stream = x.main;
  sub_stream = x.sub;
  initialization_status = completed;
  model =
      if unv
      then text_or x.info.device_model (text_or x.info.prototype_name current.model)
      else current.model;
  machine_name =
      if unv then text_or x.info.device_name current.machine_name else current.machine_name;
  serial = if unv then text_or x.info.serial_number current.serial else current.serial;
  firmware = if unv then text_or x.info.firmware_version current.firmware else current.firmware;
}

unfoldable pub commit_reading :
    Library
    → Write
    → String
    → Bool
    → Reading
    → Option PersistedCamera
    → Service
    → (Error ⊎ Camera) × Service
unfolding with_reading store camera_from_persisted is_online lookup insert
commit_reading lib w id unv x none later = (inl Error.not_found, later)
commit_reading lib w id unv x (some current) later =
    let c = with_reading unv x current in
    let (ok, s) = store w (insert id c later.cameras) later in
    (
      if ok
          then inr (camera_from_persisted lib c (is_online (lookup id s.online)))
          else inl Error.not_written,
      s,
    )

unfoldable pub commit_result :
    Library → Write → String → Bool → Error ⊎ Reading → Service → (Error ⊎ Camera) × Service
unfolding commit_reading lookup
commit_result lib w id unv (inl e) later = (inl e, later)
commit_result lib w id unv (inr x) later =
    commit_reading lib w id unv x (lookup id later.cameras) later

unfoldable pub refresh_found :
    Library
    → Write
    → Answers
    → String
    → PersistedCamera
    → Bool
    → Service
    → (Error ⊎ Camera) × Service
unfolding is_dahua is_unv camera_from_persisted trim_space dahua_reading unv_reading commit_result
refresh_found lib w o id saved online later =
    if str_eq saved.initialization_status required
    then (inl Error.not_initialized, later)
    else if not (is_dahua saved) && not (is_unv saved)
    then (inr (camera_from_persisted lib saved online), later)
    else if str_eq (trim_space saved.username) "" || str_eq saved.password ""
    then (inl Error.no_credentials, later)
    else commit_result lib w id (is_unv saved)
        (if is_dahua saved then dahua_reading o.dahua_streams else unv_reading lib o saved) later

unfoldable pub refresh_with :
    Library
    → Write
    → Answers
    → String
    → Option PersistedCamera
    → Bool
    → Service
    → (Error ⊎ Camera) × Service
unfolding refresh_found
refresh_with lib w o id none online later = (inl Error.not_found, later)
refresh_with lib w o id (some saved) online later = refresh_found lib w o id saved online later

-- RefreshVideoStreams
unfoldable pub refresh_video_streams :
    Library → Write → Answers → String → Service → Service → (Error ⊎ Camera) × Service
unfolding refresh_with is_online lookup
refresh_video_streams lib w o id s later =
    refresh_with lib w o id (lookup id s.cameras) (is_online (lookup id s.online)) later
