-- ===== src/Starlink/Types.antt =====
-- The records of internal/starlink/history.go, events.go and service.go. `F` is float64.
use dronservice_updates.Prelude.{ℕ, ◌*◌, ℤ, String, Bool, hours}

abbrev pub raw_retention : ℕ
raw_retention = hours 2

abbrev pub raw_max_points : ℕ
raw_max_points = 960

abbrev pub minute_retention : ℕ
minute_retention = hours (7 * 24)

abbrev pub max_starlink_events : ℕ
max_starlink_events = 80

pub record ConnectionPoint (F : Type 0) : Type 0 where
  pub time : ℕ
  pub reachable : Bool
  pub downlink_mbps : F
  pub uplink_mbps : F
  pub ping_ms : F

pub record MinuteBucket (F : Type 0) : Type 0 where
  pub time : ℕ
  pub reachable : Bool
  pub downlink_mbps : F
  pub uplink_mbps : F
  pub ping_ms : F
  pub samples : ℕ

pub record Event : Type 0 where
  pub time : ℕ
  pub level : String
  pub message : String
  pub count : ℤ
