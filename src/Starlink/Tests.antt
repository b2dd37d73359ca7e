-- ===== src/Starlink/Tests.antt =====
-- The history and the events of the terminal, with numbers for the floating-point ones.
use dronservice_updates.Prelude.{
  ℕ, ◌+◌, ◌-◌, ◌*◌, ◌/◌, pos, trim_space, true, false, none, some, List, [], ◌∷◌, ◌≡◌, ◌≢◌, refl,
  minutes, hours, ltb, arith,
}
use dronservice_updates.Prelude.Float.{Float}
use dronservice_updates.Starlink.Types.{ConnectionPoint}
use dronservice_updates.Starlink.History.{Histories, record_history, update_minute_bucket}
use dronservice_updates.Starlink.Hourly.{
  aggregate_hourly, hourly_averages, aggregate_hourly-averages,
}
use dronservice_updates.Starlink.Retention.{IsHistory, record_history-IsHistory}
use dronservice_updates.Starlink.Minutes.{IsMinutes, update_minute_bucket-IsMinutes}
use dronservice_updates.Starlink.Events.{EventLog, record_event}
use dronservice_updates.Starlink.Coalescing.{Newest, record_event-Newest}
use dronservice_updates.Starlink.Status.{Status, Outside, Service, is_cached, status}
use dronservice_updates.Starlink.Caching.{IsFresh, status-IsFresh}

instance abbrev whole_numbers : Float ℕ
whole_numbers = record {
  zero = 0;
  hundredth = 0;
  tenth = 1;
  add = λ a b. a + b;
  sub = λ a b. a - b;
  mul = λ a b. a * b;
  div = λ a b. a / b;
  abs = λ a. a;
  lt = ltb;
  of_int = λ n. n;
}

abbrev point_at : ℕ → ℕ → ConnectionPoint ℕ
point_at t ping = record {
  time = t;
  reachable = true;
  downlink_mbps = 120;
  uplink_mbps = 20;
  ping_ms = ping;
}

abbrev no_history : Histories ℕ
no_history = record { history = []; minute_history = []; saved_history = []; saved_minutes = [] }

abbrev three_points : List (ConnectionPoint ℕ)
three_points = point_at (hours 1) 30 ∷ point_at (hours 1 + 5) 50 ∷ point_at (hours 2) 40 ∷ []

aggregate_hourly-averages_example : aggregate_hourly three_points ≡ hourly_averages three_points
aggregate_hourly-averages_example = aggregate_hourly-averages three_points

two_hours : aggregate_hourly three_points ≡ point_at (hours 1) 40 ∷ point_at (hours 2) 40 ∷ []
unfolding aggregate_hourly
two_hours = refl

record_history-IsHistory_example :
    IsHistory (hours 1) (record_history true (hours 1) (point_at (hours 1) 30) no_history).history
record_history-IsHistory_example =
    record_history-IsHistory true (hours 1) (point_at (hours 1) 30) no_history refl
      (record { ordered = tt; past = tt; bounded = omega arith })

update_minute_bucket-IsMinutes_example :
    IsMinutes (hours 1) (update_minute_bucket (hours 1) (point_at (hours 1) 30) [])
update_minute_bucket-IsMinutes_example =
    update_minute_bucket-IsMinutes (hours 1) (point_at (hours 1) 30) []
      (record { ordered = tt; each = tt })

abbrev one_event : EventLog
one_event = record {
  events = record { time = minutes 1; level = "warn"; message = "Overheating"; count = pos 1 } ∷ [];
  saved_events = [];
}

overheating-filled : trim_space "Overheating" ≢ ""
unfolding trim_space
overheating-filled e = cc e

record_event-Newest_example :
    Newest true
      (minutes 2)
      "warn"
      (trim_space "Overheating")
      (record_event true (minutes 2) "warn" "Overheating" one_event)
record_event-Newest_example =
    record_event-Newest true (minutes 2) "warn" "Overheating" one_event overheating-filled

abbrev at_start : Status ℕ
at_start = record {
  detected = false;
  reachable = false;
  internet_via_starlink = false;
  topology = "";
  state = "";
  hardware_version = "";
  software_version = "";
  downlink_mbps = 0;
  uplink_mbps = 0;
  ping_ms = 0;
  drop_rate_percent = 0;
  checked_at = 0;
}

abbrev service : Service ℕ
service = record {
  cached = at_start;
  alerts = [];
  log = record { events = []; saved_events = [] };
  histories = no_history;
  provider_known = true;
  provider_is_dish = true;
  provider_at = 0;
}

abbrev answering : Outside ℕ
answering = record {
  now = hours 1;
  dish = some (record {
    outage = none;
    obstructions = none;
    flags = none;
    downlink = 120;
    uplink = 20;
    ping = 30;
    drop_rate = 0;
    device_info = some ("rev4", "2026.1");
  });
  http_answers = true;
  provider = some true;
  topology = "router";
  writable = true;
}

not_cached : is_cached answering service ≡ false
unfolding is_cached
not_cached = refl

status-IsFresh_example :
    IsFresh answering true (status answering true service).0 (status answering true service).1
status-IsFresh_example = status-IsFresh answering true service not_cached
