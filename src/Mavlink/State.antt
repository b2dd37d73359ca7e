-- ===== src/Mavlink/State.antt =====
-- internal/mavlink/state.go, and the messages that internal/mavlink/service.go reads.
use dronservice_updates.Prelude.{ℕ, ℤ, String, Bool, false, Option, none, List}
use dronservice_updates.Mavlink.Config.{Config}

-- float64 with the operations that are used; a float32 is one of its numbers.
pub record Reals (F : Type 0) : Type 0 where
  pub of_int : ℤ → F
  pub add : F → F → F
  pub mul : F → F → F
  pub div : F → F → F
  pub pi : F
  pub is_positive : F → Bool

pub record LinkStatus : Type 0 where
  pub connected : Bool
  pub last_seen_at : ℕ
  pub system_id : ℕ
  pub component_id : ℕ

pub record FlightStatus : Type 0 where
  pub armed : Bool
  pub custom_mode : ℕ
  pub system_status : String
  pub autopilot : String
  pub vehicle_type : String

pub record PositionStatus (F : Type 0) : Type 0 where
  pub latitude : F
  pub longitude : F
  pub altitude_msl : F
  pub altitude_rel : F
  pub heading : F
  pub satellites : ℕ
  pub gps_fix_type : ℕ
  pub gps_fix_type_name : String

pub record AttitudeStatus (F : Type 0) : Type 0 where
  pub roll_deg : F
  pub pitch_deg : F
  pub yaw_deg : F

pub record BatteryStatus (F : Type 0) : Type 0 where
  pub voltage : F
  pub current : F
  pub remaining : ℤ

pub record HudStatus (F : Type 0) : Type 0 where
  pub airspeed : F
  pub groundspeed : F
  pub climb : F
  pub throttle : ℕ

pub record Snapshot (F : Type 0) : Type 0 where
  pub enabled : Bool
  pub config : Config
  pub link : LinkStatus
  pub flight : Option FlightStatus
  pub position : Option (PositionStatus F)
  pub attitude : Option (AttitudeStatus F)
  pub battery : Option (BatteryStatus F)
  pub hud : Option (HudStatus F)
  pub status_text : String
  pub status_at : ℕ
  pub updated_at : ℕ

-- A heartbeat, with the texts of its enumerations, whether its mode has the armed flag, and
-- whether its autopilot is MAV_AUTOPILOT_INVALID.
pub record Heartbeat : Type 0 where
  pub armed : Bool
  pub custom_mode : ℕ
  pub system_status : String
  pub autopilot : String
  pub vehicle_type : String
  pub no_autopilot : Bool

-- The messages of the cases of handleMessage, with the fields that are read, and the others.
pub data Message (F : Type 0) : Type 0 where
  heartbeat : Heartbeat → Message F
  sys_status : ℕ → ℤ → ℤ → Message F  -- voltage, current, remaining
  gps_raw_int : ℤ → ℤ → ℤ → ℕ → ℕ → String → Message F  -- lat, lon, alt, satellites, fix
  global_position_int : ℤ → ℤ → ℤ → ℤ → ℕ → Message F  -- lat, lon, alt, relative alt, heading
  attitude : F → F → F → Message F
  vfr_hud : F → F → F → ℕ → Message F
  battery_status : List ℕ → ℤ → ℤ → Message F  -- voltages, current, remaining
  statustext : String → Message F
  other : Message F

abbrev pub no_link : LinkStatus
no_link = record { connected = false; last_seen_at = 0; system_id = 0; component_id = 0 }

-- The zero value of Snapshot, but for the settings.
abbrev pub empty_snapshot : {F : Type 0} → Config → Snapshot F
empty_snapshot c = record {
  enabled = false;
  config = c;
  link = no_link;
  flight = none;
  position = none;
  attitude = none;
  battery = none;
  hud = none;
  status_text = "";
  status_at = 0;
  updated_at = 0;
}
