-- ===== src/Catalog/Tests.antt =====
-- One device with one mode, in use, and one camera of the network.
use dronservice_updates.Prelude.{
  String, trim_space, true, none, some, [], ◌∷◌, ◌≡◌, refl, inr, lookup,
}
use dronservice_updates.Stream.Types.{Source}
use dronservice_updates.IpCamera.Library.{Library}
use dronservice_updates.IpCamera.Store.{Service}
use dronservice_updates.IpCamera.Sources.{stream_sources, all_sources}
use dronservice_updates.Catalog.Devices.{
  Config, Device, Store, get, valid_device_config, has_format, has_mode,
}
use dronservice_updates.Catalog.Sources.{
  last_with, or_else, device_of, analog_source, source_if, analog_sources, ip_sources, list,
  find_source, resolve_in, resolve, find_device, is_pixel_format, preview_configured,
  preview_device, preview_scanned, resolve_analog_preview,
}
use dronservice_updates.Catalog.Available.{IsAvailable, resolve-IsAvailable}
use dronservice_updates.Catalog.Supported.{IsSupported, resolve_analog_preview-IsSupported}

abbrev lib : Library
lib = record {
  parse_url = λ s. some (record { scheme = "rtsp"; user = none; host = "camera"; rest = s });
  print_url = λ u. u.rest;
  port_of = λ s. "";
  join_host_port = λ h p. h;
  parse_ip = λ s. none;
  parse_mac = λ s. none;
  print_mac = λ m. "";
  to_lower = λ s. s;
  to_upper = λ s. s;
}

abbrev device : Device
device = record {
  id = "usb-1";
  path = "/dev/video0";
  formats =
      record { pixel_format = "MJPG"; modes = record { resolution = "640x480"; fps = "30" } ∷ [] }
      ∷ [];
}

abbrev config : Config
config = record {
  device_id = "usb-1";
  device_path = "/dev/video4";
  name = "Front";
  pixel_format = "MJPG";
  resolution = "640x480";
  fps = "30";
  in_use = true;
}

abbrev store : Store
store = record { configs = ("usb-1", config) ∷ []; file = none }

abbrev cameras : Service
cameras = record { cameras = []; online = []; file = none; changes = [] }

abbrev front : Source
front = analog_source config "/dev/video0"

resolves : resolve lib (some (device ∷ [])) store cameras "analog:usb-1" ≡ inr front
unfolding resolve resolve_in list find_source analog_sources source_if device_of or_else last_with
    ip_sources stream_sources all_sources
resolves = refl

resolve-IsAvailable_example :
    (front.id ≡ "analog:usb-1")
    × IsAvailable (device ∷ []) store.configs (stream_sources lib cameras) front
resolve-IsAvailable_example =
    resolve-IsAvailable lib (device ∷ []) store cameras "analog:usb-1" front resolves

abbrev same : String → String
same s = s

previews : resolve_analog_preview same true (some (device ∷ [])) store "usb-1" ≡ inr front
unfolding resolve_analog_preview preview_scanned preview_device preview_configured find_device get
    lookup valid_device_config has_format has_mode is_pixel_format trim_space
previews = refl

resolve_analog_preview-IsSupported_example :
    (true ≡ true) × IsSupported same (device ∷ []) store "usb-1" front
resolve_analog_preview-IsSupported_example =
    resolve_analog_preview-IsSupported same true (device ∷ []) store "usb-1" front previews
