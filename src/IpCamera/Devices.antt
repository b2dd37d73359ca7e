-- ===== src/IpCamera/Devices.antt =====
-- What a discovered device changes of a camera, in internal/ipcamera/service.go, with the keys of
-- devices in internal/ipcamera/dahua_packet.go.
use Prim.Native.Char.{code}
use dronservice_updates.Prelude.{
  ℕ, String, str_eq, codes, concat, trim_space, byte_length, not, ◌||◌, Option, none, some, List,
  [], ◌∷◌, length, ◌==◌, if◌then◌else◌,
}
use dronservice_updates.IpCamera.Types.{
  Ip, PersistedCamera, DiscoveredDevice, DahuaDevice, unknown, required, completed,
}
use dronservice_updates.IpCamera.Library.{Library}
use dronservice_updates.IpCamera.Urls.{
  canonical_manufacturer, default_rtsp_paths, replace_url_host, detect_manufacturer,
}

-- The replacer of ":", "-" and "." by nothing.
unfoldable pub compact : String → String
compact String.[] = String.[]
compact (String.◌∷◌ c s) =
    let rest = compact s in
    if code c == b':' || code c == b'-' || code c == b'.' then rest else String.◌∷◌ c rest

unfoldable pub print_six : Library → Option (List ℕ) → String
print_six lib none = ""
print_six lib (some bytes) = if length bytes == 6 then lib.to_lower (lib.print_mac bytes) else ""

-- normalizeMAC
unfoldable pub normalize_mac : Library → String → String
unfolding trim_space compact byte_length print_six
normalize_mac lib value =
    let digits = compact (trim_space value) in
    if byte_length (codes digits) == 12 then print_six lib (lib.parse_mac digits) else ""

-- IP.String
unfoldable pub ip_string : Option Ip → String
ip_string none = "<nil>"
ip_string (some ip) = ip.text

unfoldable pub address_key : Option Ip → String → String
unfolding ip_string
address_key ip serial = concat "ip:" (concat (ip_string ip) (concat "|serial:" serial))

-- deviceKey
unfoldable pub device_key : Library → DahuaDevice → String
unfolding normalize_mac address_key
device_key lib d =
    if not (str_eq d.mac "")
    then concat "mac:" (normalize_mac lib d.mac)
    else address_key d.ip d.serial_number

-- discoveredDeviceKey
unfoldable pub discovered_device_key : Library → DiscoveredDevice → String
unfolding normalize_mac address_key
discovered_device_key lib d =
    let mac = normalize_mac lib d.mac in
    if not (str_eq mac "") then concat "mac:" mac else address_key d.ip d.serial_number

-- normalizeInitializationStatus
unfoldable pub normalize_initialization_status : String → String
normalize_initialization_status status =
    if str_eq status required || str_eq status completed then status else unknown

-- initializationAfterDiscovery
unfoldable pub initialization_after_discovery : String → String → String
unfolding normalize_initialization_status
initialization_after_discovery previous observed =
    let seen = normalize_initialization_status observed in
    if not (str_eq seen unknown)
    then seen
    else if str_eq (normalize_initialization_status previous) completed
    then completed
    else unknown

-- An assignment that is made if the new text is not empty.
abbrev pub text_or : String → String → String
text_or new old = if not (str_eq new "") then new else old

abbrev pub port_or : ℕ → ℕ → ℕ
port_or new old = if not (new == 0) then new else old

-- An assignment of an address that may be nil, to a text that may be that of nil.
unfoldable pub ip_or : Option Ip → String → String
ip_or (some ip) old = ip.text
ip_or none old = if str_eq old "<nil>" then "" else old

unfoldable pub source_or : Option String → String → String
source_or (some source) old = source
source_or none old = old

-- strings.Join(texts, ", ")
unfoldable pub joined : List String → String
joined [] = ""
joined (s ∷ []) = s
joined (s ∷ t ∷ rest) = concat s (concat ", " (joined (t ∷ rest)))

-- A path after a discovery: the default if there was none, else with the new host.
unfoldable pub path_after : Library → String → String → Option Ip → String
unfolding replace_url_host ip_string
path_after lib path default ip =
    if str_eq path "" then default else replace_url_host lib path (ip_string ip)

-- updateGenericDiscoveredCamera
unfoldable pub update_generic_discovered_camera :
    Library → PersistedCamera → String → DiscoveredDevice → ℕ → PersistedCamera
unfolding normalize_mac canonical_manufacturer default_rtsp_paths ip_string ip_or source_or joined
    path_after initialization_after_discovery
update_generic_discovered_camera lib saved id d seen_at =
    let manufacturer = canonical_manufacturer lib (text_or d.manufacturer d.vendor) in
    let paths = default_rtsp_paths lib manufacturer d.ip in
    record saved {
      id = id;
      address = ip_string d.ip;
      mac = normalize_mac lib d.mac;
      manufacturer = manufacturer;
      vendor = d.vendor;
      model = text_or d.model saved.model;
      device_class = text_or d.device_type saved.device_class;
      serial = text_or d.serial_number saved.serial;
      firmware = text_or d.firmware_version saved.firmware;
      machine_name = text_or d.device_name saved.machine_name;
      subnet_mask = ip_or d.subnet_mask saved.subnet_mask;
      gateway = ip_or d.gateway saved.gateway;
      http_port = port_or d.http_port saved.http_port;
      service_port = port_or d.service_port saved.service_port;
      protocol = joined d.protocols;
      source_address = source_or d.source_address saved.source_address;
      interface_name = text_or d.interface_name saved.interface_name;
      last_seen = seen_at;
      initialization_status =
          initialization_after_discovery saved.initialization_status d.initialization_status;
      main_stream_path = path_after lib saved.main_stream_path paths.0 d.ip;
      sub_stream_path = path_after lib saved.sub_stream_path paths.1 d.ip;
    }

-- updateDiscoveredCamera
unfoldable pub update_discovered_camera :
    Library → PersistedCamera → String → DahuaDevice → ℕ → PersistedCamera
unfolding detect_manufacturer default_rtsp_paths ip_string source_or path_after
    initialization_after_discovery
update_discovered_camera lib saved id d seen_at =
    let manufacturer = detect_manufacturer lib d in
    let paths = default_rtsp_paths lib manufacturer d.ip in
    record saved {
      id = id;
      address = ip_string d.ip;
      mac = d.mac;
      model = d.model;
      manufacturer = manufacturer;
      vendor = d.vendor;
      device_class = d.device_class;
      serial = d.serial_number;
      firmware = d.firmware_version;
      machine_name = d.machine_name;
      subnet_mask = ip_string d.subnet_mask;
      gateway = ip_string d.gateway;
      http_port = d.http_port;
      service_port = d.service_port;
      dhcp_enabled = d.dhcp_enabled;
      protocol = d.protocol;
      source_address = source_or d.source_address saved.source_address;
      last_seen = seen_at;
      initialization_status =
          initialization_after_discovery saved.initialization_status d.initialization_status;
      main_stream_path = path_after lib saved.main_stream_path paths.0 d.ip;
      sub_stream_path = path_after lib saved.sub_stream_path paths.1 d.ip;
    }
