-- ===== src/Starlink/Status.antt =====
-- Status, Reboot and Snapshot of internal/starlink/service.go.
use dronservice_updates.Prelude.{
  ℕ, String, Bool, true, false, not, ◌&&◌, ◌||◌, Option, none, some, List, [], ◌∷◌, if◌then◌else◌,
  seconds, minutes, elapsed_lt, is_zero, ◌≡◌, refl,
}
use dronservice_updates.Prelude.Float.{Float}
use dronservice_updates.Starlink.Types.{ConnectionPoint, Event}
use dronservice_updates.Starlink.History.{Histories, record_history, parse_history_range}
use dronservice_updates.Starlink.Hourly.{history_for_range}
use dronservice_updates.Starlink.Events.{
  EventLog, record_event, new_alert_events, copy_events_newest_first,
}
use dronservice_updates.Starlink.Alerts.{
  Cause, AlertFlags, Obstructions, dish_alerts, outage_message, outage_level,
}

pub record Status (F : Type 0) : Type 0 where
  pub detected : Bool
  pub reachable : Bool
  pub internet_via_starlink : Bool
  pub topology : String
  pub state : String
  pub hardware_version : String
  pub software_version : String
  pub downlink_mbps : F
  pub uplink_mbps : F
  pub ping_ms : F
  pub drop_rate_percent : F
  pub checked_at : ℕ

-- An answer of the terminal. The metrics are those that roundMetric returns, and the outage has
-- its name as Status.State shows it.
pub record Dish (F : Type 0) : Type 0 where
  pub outage : Option (Cause × String)
  pub obstructions : Option Obstructions
  pub flags : Option AlertFlags
  pub downlink : F
  pub uplink : F
  pub ping : F
  pub drop_rate : F
  pub device_info : Option (String × String)

-- What the outside answers during one call: the time, the terminal, whether its web interface
-- answers, the provider (whether it is Starlink), the topology, and whether files can be written.
pub record Outside (F : Type 0) : Type 0 where
  pub now : ℕ
  pub dish : Option (Dish F)
  pub http_answers : Bool
  pub provider : Option Bool
  pub topology : String
  pub writable : Bool

pub record Service (F : Type 0) : Type 0 where
  pub cached : Status F
  pub alerts : List String
  pub log : EventLog
  pub histories : Histories F
  pub provider_known : Bool
  pub provider_is_dish : Bool
  pub provider_at : ℕ

unfoldable pub record_service_event :
    {F : Type 0} → Outside F → String → String → Service F → Service F
unfolding record_event
record_service_event o level message s = record s {
  log = record_event o.writable o.now level message s.log;
}

-- `for _, alert := range ... { s.recordEvent("error", alert) }`
unfoldable pub record_alerts : {F : Type 0} → Outside F → List String → Service F → Service F
unfolding record_service_event
record_alerts o [] s = s
record_alerts o (a ∷ rest) s = record_alerts o rest (record_service_event o "error" a s)

record_when : {F : Type 0} → Bool → Outside F → String → String → Service F → Service F
unfolding record_service_event
record_when b o level message s = if b then record_service_event o level message s else s

outage_state : Option (Cause × String) → String
outage_state none = "online"
outage_state (some (Cause.unknown, name)) = "online"
outage_state (some (cause, name)) = name

info_or : Option (String × String) → String × String
info_or none = ("", "")
info_or (some i) = i

pub record Snapshot (F : Type 0) : Type 0 where
  pub status : Status F
  pub alerts : List String
  pub events : List Event
  pub history : List (ConnectionPoint F)
  pub history_range : String

module _ {F : Type 0} ⦃float : Float F⦄ where
  open float use {zero}

  abbrev pub empty_status : ℕ → Status F
  empty_status now = record {
    detected = false;
    reachable = false;
    internet_via_starlink = false;
    topology = "";
    state = "";
    hardware_version = "";
    software_version = "";
    downlink_mbps = zero;
    uplink_mbps = zero;
    ping_ms = zero;
    drop_rate_percent = zero;
    checked_at = now;
  }

  record_outage : Outside F → Option (Cause × String) → Service F → Service F
  unfolding record_service_event outage_level outage_message
  record_outage o none s = s
  record_outage o (some (Cause.unknown, name)) s = s
  record_outage o (some (cause, name)) s =
      record_service_event o (outage_level cause) (outage_message cause) s

  dish_status : Outside F → Dish F → Status F
  unfolding outage_state info_or
  dish_status o d =
      let (hardware, software) = info_or d.device_info in
      record (empty_status o.now) {
        detected = true;
        reachable = true;
        topology = o.topology;
        state = outage_state d.outage;
        downlink_mbps = d.downlink;
        uplink_mbps = d.uplink;
        ping_ms = d.ping;
        drop_rate_percent = d.drop_rate;
        hardware_version = hardware;
        software_version = software;
      }

  -- The part of Status that asks the terminal: the result so far, and the service.
  unfoldable pub check_dish : Outside F → Option (Dish F) → Service F → Status F × Service F
  unfolding dish_status record_outage record_alerts dish_alerts new_alert_events
      record_service_event
  check_dish o (some d) s =
      let alerts = dish_alerts d.obstructions d.flags in
      let after = record_alerts o (new_alert_events s.alerts alerts) (record_outage o d.outage s) in
      (dish_status o d, record after { alerts = alerts })
  check_dish o none s =
      let quiet = record s { alerts = [] } in
      if o.http_answers
      then (
        record (empty_status o.now) { detected = true; topology = o.topology },
        record_service_event o "warning"
            "Веб-интерфейс Starlink доступен, но API терминала не отвечает" quiet,
      )
      else (empty_status o.now, record_service_event o "error" "Терминал Starlink недоступен" quiet)

  provider_after : Outside F → Option Bool → Service F → Service F
  provider_after o none s = s
  provider_after o (some is_starlink) s = record s {
    provider_known = true;
    provider_is_dish = is_starlink;
    provider_at = o.now;
  }

  -- The provider is asked again after five minutes.
  unfoldable pub check_provider : Outside F → Bool → Service F → Service F
  unfolding provider_after
  check_provider o internet_online s =
      if internet_online
        && (not s.provider_known || not (elapsed_lt o.now s.provider_at (minutes 5)))
      then provider_after o o.provider s
      else s

  abbrev pub status_point : Outside F → Status F → ConnectionPoint F
  status_point o r = record {
    time = o.now;
    reachable = r.reachable;
    downlink_mbps = r.downlink_mbps;
    uplink_mbps = r.uplink_mbps;
    ping_ms = r.ping_ms;
  }

  abbrev pub via_starlink : Bool → Service F → Bool
  via_starlink internet_online s = internet_online && s.provider_known && s.provider_is_dish

  -- The two events about a connection without Starlink.
  unfoldable pub note_connection : Outside F → Bool → Status F → Service F → Service F
  unfolding record_when
  note_connection o internet_online result s =
      let foreign =
        record_when
          (result.reachable && internet_online && s.provider_known && not s.provider_is_dish) o
          "warning" "Интернет есть, но внешний адрес не принадлежит Starlink" s in
      record_when (result.reachable && not internet_online) o "error"
        "Терминал Starlink доступен, но интернет отсутствует" foreign

  -- The part of Status after the terminal has been asked.
  unfoldable pub finish_status : Outside F → Bool → Status F → Service F → Status F × Service F
  unfolding check_provider note_connection record_history
  finish_status o internet_online asked s =
      let known = check_provider o internet_online s in
      let result = record asked { internet_via_starlink = via_starlink internet_online known } in
      let noted = note_connection o internet_online result known in
      (
        result,
        record noted {
          histories = record_history o.writable o.now (status_point o result) noted.histories;
          cached = result;
        },
      )

  -- `!s.cached.CheckedAt.IsZero() && now.Sub(s.cached.CheckedAt) < 8*time.Second`
  unfoldable pub is_cached : Outside F → Service F → Bool
  is_cached o s =
      not (is_zero s.cached.checked_at) && elapsed_lt o.now s.cached.checked_at (seconds 8)

  unfoldable pub fresh_status : Outside F → Bool → Service F → Status F × Service F
  unfolding check_dish finish_status
  fresh_status o internet_online s =
      finish_status o internet_online (check_dish o o.dish s).0 (check_dish o o.dish s).1

  unfoldable pub status : Outside F → Bool → Service F → Status F × Service F
  unfolding is_cached fresh_status
  status o internet_online s =
      if is_cached o s
      then (record s.cached { internet_via_starlink = via_starlink internet_online s }, s)
      else fresh_status o internet_online s

  -- The two branches of Status.
  pub status-of_cached :
      (o : Outside F) (internet_online : Bool) (s : Service F)
      → status o internet_online s ≡ (
          if is_cached o s
          then (record s.cached { internet_via_starlink = via_starlink internet_online s }, s)
          else fresh_status o internet_online s)
  unfolding status
  status-of_cached o internet_online s = refl

  -- `accepted` tells whether the terminal took the command.
  unfoldable pub reboot : Outside F → Bool → Service F → Bool × Service F
  unfolding record_service_event
  reboot o accepted s =
      if accepted
      then (
        true,
        record_service_event o "warning" "Отправлена команда перезагрузки терминала Starlink"
            (record s { cached = empty_status 0 }),
      )
      else (false, record_service_event o "error" "Не удалось перезагрузить терминал Starlink" s)

  -- `later` is the time at which the history is read.
  unfoldable pub snapshot : Outside F → Bool → String → ℕ → Service F → Snapshot F × Service F
  unfolding status history_for_range copy_events_newest_first parse_history_range
  snapshot o internet_online range later s =
      let (current, after) = status o internet_online s in
      let (_, key) = parse_history_range range in
      (
        record {
          status = current;
          alerts = after.alerts;
          events = copy_events_newest_first after.log.events;
          history =
              history_for_range after.histories.history after.histories.minute_history key later;
          history_range = key;
        },
        after,
      )
