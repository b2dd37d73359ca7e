-- ===== src/IpCamera/Tests.antt =====
-- A Dahua camera at 10.0.0.2 that is saved, found, shown and moved to 10.0.0.3.
use dronservice_updates.Prelude.{
  Option, String, str_eq, str_eq_iff, trim_space, true, none, some, [], ◌∷◌, if◌then◌else◌, ◌≡◌,
  ◌≢◌, refl, ◌↔◌, inr, lookup, insert, Any, ◌+◌, ◌*◌, ◌^◌,
}
use dronservice_updates.IpCamera.Types.{
  Ip, SaveRequest, PersistedCamera, DiscoveredDevice, zero_camera, completed, unknown, required,
}
use dronservice_updates.IpCamera.Library.{Library, is_rtsp}
use dronservice_updates.IpCamera.Urls.{
  canonical_manufacturer, default_rtsp_paths, with_host, replace_url_host, valid_rtsp_url,
  is_plain_rtsp, no_user,
}
use dronservice_updates.IpCamera.Prepare.{
  prepare_save_request, trim_request, prepare_trimmed, after_normalize, normalize_rtsp_paths,
  split_user, normalize_split, take_users, take_user, set_paths, fill_id, fill_paths, set_hosts,
  check_request, is_missing, take_password, validate_ipv4_network,
}
use dronservice_updates.IpCamera.Devices.{normalize_initialization_status}
use dronservice_updates.IpCamera.Store.{
  Service, written, unsynced, new_service, save, save_prepared, store_or_error, store,
  write_json_file, or_zero, list, NetworkChange, saved_camera,
}
use dronservice_updates.IpCamera.Service.{discover, check_status, Probes}
use dronservice_updates.IpCamera.Update.{
  save_with_camera_update, save_current, save_network, save_checked, save_moved, moves,
  fill_network, trim_network,
}
use dronservice_updates.IpCamera.Sources.{StreamSource, sources_of, source_of, preview_found}
use dronservice_updates.IpCamera.Keeping.{IsSaved, Keeps, is_ok}
use dronservice_updates.IpCamera.History.{Step, Reach, Step-Keeps, Reach-IsSaved}
use dronservice_updates.IpCamera.Owners.{Preserves, discover-Preserves}
use dronservice_updates.IpCamera.Updating.{Updates, check_status-Updates}
use dronservice_updates.IpCamera.Secrets.{list_hides}
use dronservice_updates.IpCamera.Streaming.{sources_of-preview}
use dronservice_updates.IpCamera.Checked.{IsStored, save-IsStored}
use dronservice_updates.IpCamera.Moving.{Moves, save_with_camera_update-Moves}

abbrev address : Ip
address = record { text = "10.0.0.2"; v4 = some (10 * 2 ^ 24 + 2) }

abbrev next_address : Ip
next_address = record { text = "10.0.0.3"; v4 = some (10 * 2 ^ 24 + 3) }

abbrev lib : Library
lib = record {
  parse_url = λ s. some (record { scheme = "rtsp"; user = none; host = "camera"; rest = s });
  print_url = λ u. u.rest;
  port_of = λ s. "";
  join_host_port = λ h p. h;
  parse_ip = λ s.
      if str_eq s "10.0.0.2"
      then some address
      else if str_eq s "10.0.0.3"
      then some next_address
      else none;
  parse_mac = λ s. some (0 ∷ 1 ∷ 2 ∷ 3 ∷ 4 ∷ 5 ∷ []);
  print_mac = λ m. "00:01:02:03:04:05";
  to_lower = λ s. if str_eq s "Dahua" then "dahua" else s;
  to_upper = λ s. s;
}

abbrev request : SaveRequest
request = record {
  id = "front";
  name = " Front ";
  address = "10.0.0.2";
  subnet_mask = "";
  gateway = "";
  manufacturer = "Dahua";
  model = "";
  username = "admin";
  password = "secret";
  main_stream_path = "";
  sub_stream_path = "";
  use_it = true;
  dhcp_enabled = none;
}

abbrev empty : Service
empty = record { cameras = []; online = []; file = none; changes = [] }

abbrev front : PersistedCamera
front = record zero_camera {
  id = "front";
  manufacturer = "Dahua";
  address = "10.0.0.2";
  username = "admin";
  password = "secret";
  main_stream_path = "main";
  sub_stream_path = "sub";
  use_it = true;
}

abbrev full : Service
full = record {
  cameras = ("front", front) ∷ [];
  online = [];
  file = some (("front", front) ∷ []);
  changes = [];
}

succeeds : (save lib written request empty).0 ≡ none
unfolding save save_prepared store_or_error store write_json_file or_zero lookup
    prepare_save_request trim_request prepare_trimmed after_normalize normalize_rtsp_paths
    split_user normalize_split take_users take_user take_password set_paths fill_id fill_paths
    set_hosts check_request is_missing canonical_manufacturer default_rtsp_paths with_host
    replace_url_host valid_rtsp_url is_plain_rtsp no_user is_rtsp trim_space
succeeds = refl

save-IsStored_example : IsStored lib request empty (save lib written request empty).1
save-IsStored_example = save-IsStored lib written request empty succeeds

history : Reach lib empty (save lib written request empty).1
history = Reach.next Reach.here (λ e. cc e) (Step.saves request)

starts : new_service (some none) ≡ some empty
unfolding new_service
starts = refl

Reach-IsSaved_example : IsSaved (save lib written request empty).1
Reach-IsSaved_example = Reach-IsSaved (some none) starts history

Step-Keeps_example :
    Keeps unsynced
      (is_ok (save lib unsynced request full).0)
      full
      (save lib unsynced request full).1
Step-Keeps_example = Step-Keeps {lib = lib} {w = unsynced} {s = full} (Step.saves request)

abbrev device : DiscoveredDevice
device = record {
  vendor = "dahua";
  manufacturer = "";
  protocols = "DHIP" ∷ [];
  mac = "";
  ip = some address;
  subnet_mask = none;
  gateway = none;
  model = "";
  serial_number = "1";
  firmware_version = "";
  device_type = "";
  device_name = "";
  http_port = 80;
  service_port = 0;
  interface_name = "eth0";
  source_address = none;
  initialization_status = completed;
}

discover-Preserves_example :
    Preserves full.cameras (discover lib written 5 (inr (device ∷ [])) full).1.cameras
discover-Preserves_example = discover-Preserves lib written 5 (inr (device ∷ [])) full

abbrev probes : Probes
probes = record { find_dahua = λ ids. some []; dials = λ a p. true }

check_status-Updates_example :
    Updates full.cameras (check_status lib written 5 probes full full).1.cameras
check_status-Updates_example = check_status-Updates lib written 5 probes full full

abbrev other : PersistedCamera
other = record front { password = "changed" }

abbrev changed : Service
changed = record full { cameras = ("front", other) ∷ [] }

list_hides_example : list lib full ≡ list lib changed
list_hides_example =
    list_hides lib full changed
      (
        refl,
        record { others = refl; blank = refl; main = (refl, refl, refl); sub = (refl, refl, refl) },
        tt,
      )
      refl

abbrev main_source : StreamSource
main_source = source_of front "main" "Main stream" front.main_stream "main"

not_required : normalize_initialization_status front.initialization_status ≢ required
unfolding normalize_initialization_status
not_required e = cc ((str_eq_iff unknown required).1 e)

sources_of-preview_example :
    Any (λ y. y ≡ main_source) (sources_of lib front)
    ↔ ((front.use_it ≡ true) × (preview_found lib main_source.kind front ≡ inr main_source))
sources_of-preview_example = sources_of-preview lib front main_source not_required refl

abbrev move : SaveRequest
move = record request { address = "10.0.0.3" }

abbrev change : NetworkChange
change = record { id = "front"; from = "10.0.0.2"; address = "10.0.0.3"; subnet = ""; gateway = "" }

-- The request changes the address of the device.
moves_front : (save_with_camera_update lib written none move full full).1.changes ≡ change ∷ []
unfolding save_with_camera_update save_current save_network save_checked save_moved moves
    fill_network trim_network validate_ipv4_network save save_prepared store_or_error store
    write_json_file or_zero lookup prepare_save_request trim_request prepare_trimmed after_normalize
    normalize_rtsp_paths split_user normalize_split take_users take_user take_password set_paths
    fill_id fill_paths set_hosts check_request is_missing canonical_manufacturer default_rtsp_paths
    with_host replace_url_host valid_rtsp_url is_plain_rtsp no_user is_rtsp trim_space
moves_front = refl

save_with_camera_update-Moves_example :
    Moves lib written none move full
      (some front)
      (save_with_camera_update lib written none move full full)
save_with_camera_update-Moves_example =
    unfold lookup in save_with_camera_update-Moves lib written none move full full

-- Save of a request without an ID for a camera that was added by its address blanks the saved
-- password.
abbrev manual : Service
manual = record full {
  cameras = ("manual:10.0.0.2", record front { id = "manual:10.0.0.2"; password = "secret" }) ∷ [];
}

abbrev password_of : Option PersistedCamera → Option String
password_of none = none
password_of (some c) = some c.password

blanks_password :
    password_of (
      lookup "manual:10.0.0.2"
        (save lib written (record request { id = ""; password = "" }) manual).1.cameras)
    ≡ some ""
unfolding save save_prepared store_or_error store write_json_file or_zero lookup insert saved_camera
    prepare_save_request trim_request prepare_trimmed after_normalize normalize_rtsp_paths
    split_user normalize_split take_users take_user take_password set_paths fill_id fill_paths
    set_hosts check_request is_missing canonical_manufacturer default_rtsp_paths with_host
    replace_url_host valid_rtsp_url is_plain_rtsp no_user is_rtsp trim_space
blanks_password = refl
