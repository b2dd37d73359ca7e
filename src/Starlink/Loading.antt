-- ===== src/Starlink/Loading.antt =====
-- What NewService of internal/starlink/service.go finds in the files, the labels of the ranges, and
-- detectTopology.
use dronservice_updates.Prelude.{
  ℕ, ◌/◌, String, str_eq, trim_space, Bool, true, false, not, ◌||◌, Option, none, some, List, [],
  if◌then◌else◌, ◌==◌, ◌≡◌, refl, if_ind,
}
use dronservice_updates.Prelude.Float.{Float}
use dronservice_updates.Starlink.Types.{ConnectionPoint, MinuteBucket, Event}
use dronservice_updates.Starlink.History.{
  Histories, append_point, save_history, save_minute_history, parse_history_range,
}
use dronservice_updates.Starlink.Events.{EventLog}
use dronservice_updates.Starlink.Status.{Service, empty_status}

-- What reading and decoding a file gives; `none` is any error.
pub record Files (F : Type 0) : Type 0 where
  pub events_file : Option (List Event)
  pub history_file : Option (List (ConnectionPoint F))
  pub minutes_file : Option (List (MinuteBucket F))

-- loadEvents
unfoldable pub load_events : Option (List Event) → EventLog → EventLog
load_events none l = l
load_events (some events) l = record { events = events; saved_events = events }

load_minutes : {F : Type 0} → Option (List (MinuteBucket F)) → Histories F → Histories F
load_minutes none h = h
load_minutes (some buckets) h = record h { minute_history = buckets; saved_minutes = buckets }

-- loadHistory: without the raw history the buckets are not read.
unfoldable pub load_history :
    {F : Type 0}
    → Option (List (ConnectionPoint F))
    → Option (List (MinuteBucket F))
    → Histories F
    → Histories F
unfolding load_minutes
load_history none minutes_file h = h
load_history (some points) minutes_file h =
    load_minutes minutes_file (record h { history = points; saved_history = points })

abbrev pub no_histories : {F : Type 0} → Histories F
no_histories = record { history = []; minute_history = []; saved_history = []; saved_minutes = [] }

-- HistoryRangeLabel
unfoldable pub history_range_label : String → String
history_range_label key =
    if str_eq key "10m"
    then "10 минут"
    else if str_eq key "1h"
    then "1 час"
    else if str_eq key "24h"
    then "сутки"
    else if str_eq key "7d"
    then "неделя"
    else "1 час"

topology_of : ℕ → Option ℕ → String
topology_of target none = ""
topology_of target (some local) = if local / 256 == target / 256 then "direct" else "router"

-- detectTopology: `target` is the IPv4 address of the dish's host and port, if there is one, and
-- `local` the IPv4 address from which it is reached.
unfoldable pub detect_topology : (String → Option ℕ) → (ℕ → Option ℕ) → String → String
unfolding topology_of
detect_topology target local address = elim (target address) [
  | none ↦ ""
  | some a ↦ topology_of a (local a)
]

module _ {F : Type 0} ⦃float : Float F⦄ where
  empty_service : Service F
  empty_service = record {
    cached = empty_status 0;
    alerts = [];
    log = record { events = []; saved_events = [] };
    histories = no_histories;
    provider_known = false;
    provider_is_dish = false;
    provider_at = 0;
  }

  -- NewService: `prepared` says whether the client of the terminal could be made.
  unfoldable pub new_service : Bool → String → Files F → Option (Service F)
  unfolding empty_service load_events load_history trim_space
  new_service prepared data_dir f =
      if not prepared
      then none
      else if str_eq (trim_space data_dir) ""
      then some empty_service
      else some (record empty_service {
        log = load_events f.events_file empty_service.log;
        histories = load_history f.history_file f.minutes_file empty_service.histories;
      })

  -- A status that is appended to the history and could be written is there after a restart, with all
  -- points and minutes before it.
  pub load_history-append_point :
      (now : ℕ) (point : ConnectionPoint F) (h start : Histories F)
      → (load_history
            (some (append_point true now point h).saved_history)
            (some (append_point true now point h).saved_minutes)
            start).history
          ≡ (append_point true now point h).history
        × (load_history
            (some (append_point true now point h).saved_history)
            (some (append_point true now point h).saved_minutes)
            start).minute_history
          ≡ (append_point true now point h).minute_history
  unfolding load_history load_minutes append_point save_history save_minute_history
  load_history-append_point now point h start = (refl, refl)

-- The key of a range that ParseHistoryRange answers with is read as the same range again.
pub parse_history_range_again :
    (value : String) → parse_history_range (parse_history_range value).1 ≡ parse_history_range value
unfolding parse_history_range
parse_history_range_again value =
    if_ind Again (str_eq value "10m") _ _ (λ _. refl)
      (λ _.
        if_ind Again (str_eq value "1h" || str_eq value "") _ _ (λ _. refl)
          (λ _.
            if_ind Again (str_eq value "24h" || str_eq value "1d") _ _ (λ _. refl)
              (λ _.
                if_ind Again (str_eq value "7d" || str_eq value "1w") _ _ (λ _. refl) (λ _. refl))))
  where
    Again : ℕ × String → Type 0
    Again r = parse_history_range r.1 ≡ r
