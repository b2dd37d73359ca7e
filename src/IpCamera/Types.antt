-- ===== src/IpCamera/Types.antt =====
-- The types of internal/ipcamera/service.go. Times are nanoseconds, a nil slice or pointer is `none`.
use dronservice_updates.Prelude.{ℕ, String, Bool, false, Option, none, List}

pub record VideoStream : Type 0 where
  pub resolution : String
  pub fps : String
  pub bitrate_kbps : ℕ

-- A net.IP: its text, and its number if it is an IPv4 address.
pub record Ip : Type 0 where
  pub text : String
  pub v4 : Option ℕ

pub record Camera : Type 0 where
  pub id : String
  pub name : String
  pub address : String
  pub mac : String
  pub model : String
  pub manufacturer : String
  pub vendor : String
  pub device_class : String
  pub serial : String
  pub firmware : String
  pub machine_name : String
  pub subnet_mask : String
  pub gateway : String
  pub http_port : ℕ
  pub service_port : ℕ
  pub dhcp_enabled : Option Bool
  pub protocol : String
  pub source_address : String
  pub interface_name : String
  pub last_seen : ℕ
  pub initialization_status : String
  pub username : String
  pub has_password : Bool
  pub main_stream_path : String
  pub sub_stream_path : String
  pub main_stream : VideoStream
  pub sub_stream : VideoStream
  pub online : Bool
  pub use_it : Bool

pub record SaveRequest : Type 0 where
  pub id : String
  pub name : String
  pub address : String
  pub subnet_mask : String
  pub gateway : String
  pub manufacturer : String
  pub model : String
  pub username : String
  pub password : String
  pub main_stream_path : String
  pub sub_stream_path : String
  pub use_it : Bool
  pub dhcp_enabled : Option Bool

pub record PersistedCamera : Type 0 where
  pub id : String
  pub name : String
  pub address : String
  pub username : String
  pub password : String
  pub main_stream_path : String
  pub sub_stream_path : String
  pub legacy_rtsp_path : String
  pub mac : String
  pub model : String
  pub manufacturer : String
  pub vendor : String
  pub device_class : String
  pub serial : String
  pub firmware : String
  pub machine_name : String
  pub subnet_mask : String
  pub gateway : String
  pub http_port : ℕ
  pub service_port : ℕ
  pub dhcp_enabled : Option Bool
  pub protocol : String
  pub source_address : String
  pub interface_name : String
  pub last_seen : ℕ
  pub initialization_status : String
  pub main_stream : VideoStream
  pub sub_stream : VideoStream
  pub use_it : Bool

-- The part of discovery.go's DiscoveredDevice that the service reads.
pub record DiscoveredDevice : Type 0 where
  pub vendor : String
  pub manufacturer : String
  pub protocols : List String
  pub mac : String
  pub ip : Option Ip
  pub subnet_mask : Option Ip
  pub gateway : Option Ip
  pub model : String
  pub serial_number : String
  pub firmware_version : String
  pub device_type : String
  pub device_name : String
  pub http_port : ℕ
  pub service_port : ℕ
  pub interface_name : String
  pub source_address : Option String
  pub initialization_status : String

-- dahua_packet.go
pub record DahuaDevice : Type 0 where
  pub mac : String
  pub ip : Option Ip
  pub subnet_mask : Option Ip
  pub gateway : Option Ip
  pub model : String
  pub device_class : String
  pub serial_number : String
  pub firmware_version : String
  pub machine_name : String
  pub manufacturer : String
  pub vendor : String
  pub http_port : ℕ
  pub service_port : ℕ
  pub dhcp_enabled : Option Bool
  pub protocol : String
  pub source_address : Option String
  pub initialization_status : String

abbrev pub unknown : String
unknown = "unknown"

abbrev pub required : String
required = "uninitialized"

abbrev pub completed : String
completed = "initialized"

-- The zero values of Go.
abbrev pub no_stream : VideoStream
no_stream = record { resolution = ""; fps = ""; bitrate_kbps = 0 }

abbrev pub zero_camera : PersistedCamera
zero_camera = record {
  id = "";
  name = "";
  address = "";
  username = "";
  password = "";
  main_stream_path = "";
  sub_stream_path = "";
  legacy_rtsp_path = "";
  mac = "";
  model = "";
  manufacturer = "";
  vendor = "";
  device_class = "";
  serial = "";
  firmware = "";
  machine_name = "";
  subnet_mask = "";
  gateway = "";
  http_port = 0;
  service_port = 0;
  dhcp_enabled = none;
  protocol = "";
  source_address = "";
  interface_name = "";
  last_seen = 0;
  initialization_status = "";
  main_stream = no_stream;
  sub_stream = no_stream;
  use_it = false;
}
