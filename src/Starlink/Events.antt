-- ===== src/Starlink/Events.antt =====
-- recordEvent, copyEventsNewestFirst and newAlertEvents of internal/starlink/events.go.
use dronservice_updates.Prelude.{
  ℕ, pos, increment, below_one, String, str_eq, trim_space, Bool, true, false, ◌&&◌, Option, none,
  some, List, [], ◌∷◌, ◌++◌, last?, set_last, keep_last, if◌then◌else◌, minutes, elapsed_lt, not,
  keep_if, ◌||◌, ◌≡◌, refl, if_ind,
}
use dronservice_updates.Starlink.Types.{Event, max_starlink_events}

-- The events, oldest first, and what the events file holds.
pub record EventLog : Type 0 where
  pub events : List Event
  pub saved_events : List Event

unfoldable pub save_events : Bool → EventLog → EventLog
save_events writable l = if writable then record l { saved_events = l.events } else l

unfoldable pub repeat_event : ℕ → Event → Event
repeat_event now e =
    let count = increment e.count in
    record e { count = (if below_one count then pos 1 else count); time = now }

-- `last.Level == level && last.Message == message && now.Sub(last.Time) < 15*time.Minute`
unfoldable pub repeats : ℕ → String → String → Event → Bool
repeats now level message e =
    str_eq e.level level && str_eq e.message message && elapsed_lt now e.time (minutes 15)

unfoldable pub new_event : ℕ → String → String → Event
new_event now level message = record { time = now; level = level; message = message; count = pos 1 }

unfoldable pub append_event : Bool → ℕ → String → String → EventLog → EventLog
unfolding keep_last save_events new_event
append_event writable now level message l = save_events writable (record l {
  events = keep_last max_starlink_events (l.events ++ new_event now level message ∷ []);
})

event_after : Bool → ℕ → String → String → EventLog → Option Event → EventLog
unfolding append_event repeats set_last repeat_event save_events
event_after writable now level message l none = append_event writable now level message l
event_after writable now level message l (some newest) =
    if repeats now level message newest
    then save_events writable (record l { events = set_last (repeat_event now newest) l.events })
    else append_event writable now level message l

-- recordEvent
unfoldable pub record_event : Bool → ℕ → String → String → EventLog → EventLog
unfolding event_after last? trim_space
record_event writable now level untrimmed l =
    let message = trim_space untrimmed in
    if str_eq message "" then l else event_after writable now level message l (last? l.events)

-- The log with its last event repeated.
abbrev pub repeated : Bool → ℕ → Event → EventLog → EventLog
repeated writable now newest l =
    save_events writable (record l { events = set_last (repeat_event now newest) l.events })

event_after_cases {ℓ} :
    (P : EventLog → Type ℓ) (writable : Bool) (now : ℕ) (level message : String) (l : EventLog)
    (o : Option Event)
    → P (append_event writable now level message l)
    → ((newest : Event)
        → o ≡ some newest
        → repeats now level message newest ≡ true
        → P (repeated writable now newest l))
    → P (event_after writable now level message l o)
unfolding event_after
event_after_cases P writable now level message l none appended again = appended
event_after_cases P writable now level message l (some newest) appended again =
    if_ind P (repeats now level message newest) _ _ (again newest refl) (λ _. appended)

-- A blank message, a new event, and a repetition of the newest one.
pub record_event_cases {ℓ} :
    (P : EventLog → Type ℓ) (writable : Bool) (now : ℕ) (level untrimmed : String) (l : EventLog)
    → (str_eq (trim_space untrimmed) "" ≡ true → P l)
    → P (append_event writable now level (trim_space untrimmed) l)
    → ((newest : Event)
        → last? l.events ≡ some newest
        → repeats now level (trim_space untrimmed) newest ≡ true
        → P (repeated writable now newest l))
    → P (record_event writable now level untrimmed l)
unfolding record_event
record_event_cases P writable now level untrimmed l blank appended again =
    if_ind P (str_eq (trim_space untrimmed) "") _ _ blank (λ _.
      event_after_cases P writable now level (trim_space untrimmed) l (last? l.events) appended
        again)

-- copyEventsNewestFirst
unfoldable pub copy_events_newest_first : List Event → List Event
copy_events_newest_first [] = []
copy_events_newest_first (e ∷ es) = copy_events_newest_first es ++ e ∷ []

unfoldable pub contains : String → List String → Bool
contains a [] = false
contains a (b ∷ bs) = str_eq b a || contains a bs

-- newAlertEvents, with the map of the previous alerts as their list.
unfoldable pub new_alert_events : List String → List String → List String
unfolding contains keep_if
new_alert_events previous current = keep_if (λ a. not (contains a previous)) current
