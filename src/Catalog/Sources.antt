-- ===== src/Catalog/Sources.antt =====
-- streamSourceCatalog of stream_sources.go.
use dronservice_updates.Prelude.{
  String, str_eq, concat, trim_space, Bool, not, ◌||◌, Option, none, some, List, [], ◌∷◌, ◌++◌,
  if◌then◌else◌, ◌⊎◌, inl, inr,
}
use dronservice_updates.Stream.Types.{Source, empty_source}
use dronservice_updates.IpCamera.Library.{Library}
use dronservice_updates.IpCamera.Store.{Service}
use dronservice_updates.IpCamera.Sources.{StreamSource, stream_sources}
use dronservice_updates.Catalog.Devices.{Config, Configs, Device, Store, get, valid_device_config}

pub data Error : Type 0 where
  scan_failed not_marked preview_unavailable device_not_found not_configured mode_invalid : Error

-- `deviceByPath[path]` or `deviceByID[id]`: the last device with the key.
unfoldable pub last_with : (Device → String) → String → List Device → Option Device
last_with key k [] = none
last_with key k (d ∷ rest) = elim (last_with key k rest) [
  | some e ↦ some e
  | none ↦ if str_eq (key d) k then some d else none
]

unfoldable pub or_else : Option Device → Option Device → Option Device
or_else (some d) other = some d
or_else none other = other

unfoldable pub device_of : List Device → Config → Option Device
unfolding last_with or_else
device_of devices c =
    or_else (last_with (λ d. d.path) c.device_path devices)
      (last_with (λ d. d.id) c.device_id devices)

abbrev pub analog_source : Config → String → Source
analog_source c path = record empty_source {
  id = concat "analog:" c.device_id;
  type = "analog";
  name = c.name;
  device_path = path;
  pixel_format = c.pixel_format;
  resolution = c.resolution;
  fps = c.fps;
}

unfoldable pub source_if : Config → Option Device → List Source
source_if c none = []
source_if c (some d) = analog_source c d.path ∷ []

-- The first loop of List.
unfoldable pub analog_sources : List Device → Configs → List Source
unfolding device_of source_if
analog_sources devices [] = []
analog_sources devices ((id, c) ∷ rest) =
    let more = analog_sources devices rest in
    if not c.in_use then more else source_if c (device_of devices c) ++ more

abbrev pub ip_source : StreamSource → Source
ip_source s = record empty_source {
  id = concat "ip:" s.id;
  type = "ip";
  name = s.name;
  detail = s.detail;
  input = s.url;
  resolution = s.metadata.resolution;
  fps = s.metadata.fps;
  bitrate_kbps = s.metadata.bitrate_kbps;
}

-- The second loop of List.
unfoldable pub ip_sources : List StreamSource → List Source
ip_sources [] = []
ip_sources (s ∷ rest) = ip_source s ∷ ip_sources rest

-- List, up to the order that sort.Slice gives; `none` is a scan that fails.
unfoldable pub list : Library → Option (List Device) → Store → Service → Error ⊎ List Source
unfolding analog_sources ip_sources stream_sources
list lib none store cameras = inl scan_failed
list lib (some devices) store cameras =
    inr (analog_sources devices store.configs ++ ip_sources (stream_sources lib cameras))

unfoldable pub find_source : String → List Source → Error ⊎ Source
find_source id [] = inl not_marked
find_source id (s ∷ rest) = let more = find_source id rest in if str_eq s.id id then inr s else more

unfoldable pub resolve_in : String → Error ⊎ List Source → Error ⊎ Source
unfolding find_source
resolve_in id (inl e) = inl e
resolve_in id (inr sources) = find_source id sources

-- Resolve
unfoldable pub resolve : Library → Option (List Device) → Store → Service → String → Error ⊎ Source
unfolding resolve_in list
resolve lib scan store cameras id = resolve_in id (list lib scan store cameras)

unfoldable pub find_device : String → List Device → Option Device
find_device id [] = none
find_device id (d ∷ rest) =
    let more = find_device id rest in if str_eq d.id id then some d else more

-- The pixel formats that ffmpeg is given.
unfoldable pub is_pixel_format : String → Bool
is_pixel_format upper =
    str_eq upper "MJPG" || str_eq upper "MJPEG" || str_eq upper "YUYV" || str_eq upper "YUY2"

unfoldable pub preview_configured :
    (String → String) → List Device → Device → Option Config → Error ⊎ Source
unfolding valid_device_config is_pixel_format trim_space
preview_configured to_upper devices d none = inl not_configured
preview_configured to_upper devices d (some c) =
    if str_eq (trim_space c.name) ""
      || str_eq (trim_space c.pixel_format) ""
      || str_eq (trim_space c.resolution) ""
      || str_eq (trim_space c.fps) ""
    then inl not_configured
    else if not (valid_device_config devices (record c { device_path = d.path }))
    then inl mode_invalid
    else if not (is_pixel_format (to_upper c.pixel_format))
    then inl mode_invalid
    else inr (analog_source c d.path)

unfoldable pub preview_device :
    (String → String) → List Device → Store → String → Option Device → Error ⊎ Source
unfolding preview_configured get
preview_device to_upper devices store id none = inl device_not_found
preview_device to_upper devices store id (some d) =
    preview_configured to_upper devices d (get id store)

unfoldable pub preview_scanned :
    (String → String) → Option (List Device) → Store → String → Error ⊎ Source
unfolding preview_device find_device
preview_scanned to_upper none store id = inl scan_failed
preview_scanned to_upper (some devices) store id =
    preview_device to_upper devices store id (find_device id devices)

-- ResolveAnalogPreview: `executable` says whether ffmpeg can be run.
unfoldable pub resolve_analog_preview :
    (String → String) → Bool → Option (List Device) → Store → String → Error ⊎ Source
unfolding preview_scanned
resolve_analog_preview to_upper executable scan store id =
    if not executable then inl preview_unavailable else preview_scanned to_upper scan store id
