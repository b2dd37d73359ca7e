-- ===== src/Starlink/Coalescing.antt =====
-- What recordEvent and newAlertEvents of internal/starlink/events.go guarantee.
use dronservice_updates.Prelude.{
  ℕ, ◌≤◌, below_one, String, str_eq_iff, trim_space, Bool, true, false, not, ◌&&◌, some, List, [],
  ◌∷◌, ◌++◌, length, last?, set_last, keep_last, ◌≡◌, ◌≢◌, refl, ap, suc, ◌∙◌, arith, and_true,
  length-keep_last, last?-append, last?-keep_last,
}
use dronservice_updates.Starlink.Types.{Event, max_starlink_events}
use dronservice_updates.Starlink.Events.{
  EventLog, save_events, repeat_event, repeats, new_event, append_event, repeated, record_event,
  record_event_cases, contains, new_alert_events,
}

module _ (writable : Bool) (now : ℕ) (level : String) where
  events-append_event :
      (message : String) (l : EventLog)
      → (append_event writable now level message l).events
        ≡ keep_last max_starlink_events (l.events ++ new_event now level message ∷ [])
  unfolding append_event
  events-append_event message l = ground arith

  length-set_last : (e : Event) (es : List Event) → length (set_last e es) ≡ length es
  unfolding set_last
  length-set_last e [] = refl
  length-set_last e (d ∷ []) = refl
  length-set_last e (d ∷ c ∷ es) = ap suc (length-set_last e (c ∷ es))

  last?-set_last :
      (e d : Event) (es : List Event) → last? es ≡ some d → last? (set_last e es) ≡ some e
  unfolding set_last last?
  last?-set_last e d [] h = cc
  last?-set_last e d (b ∷ []) h = refl
  last?-set_last e d (b ∷ c ∷ es) h =
      last?-skip b (set_last e (c ∷ es)) e (last?-set_last e d (c ∷ es) h)
    where
      last?-skip :
          (b : Event) (xs : List Event) (x : Event) → last? xs ≡ some x → last? (b ∷ xs) ≡ some x
      last?-skip b [] x h = cc
      last?-skip b (y ∷ xs) x h = h

  events-repeated :
      (newest : Event) (l : EventLog)
      → (repeated writable now newest l).events ≡ set_last (repeat_event now newest) l.events
  unfolding save_events
  events-repeated newest l = ground arith

  -- If the log has at most 80 events, it has at most 80 after recordEvent.
  pub record_event-bounded :
      (untrimmed : String) (l : EventLog)
      → length l.events ≤ max_starlink_events
      → length (record_event writable now level untrimmed l).events ≤ max_starlink_events
  record_event-bounded untrimmed l h =
      record_event_cases (λ k. length k.events ≤ max_starlink_events) writable now level untrimmed l
        (λ _. h) (rw events-append_event (length-keep_last max_starlink_events _))
        (λ newest e r. rw (events-repeated, length-set_last) h)

  below_one-repeat : (e : Event) → below_one (repeat_event now e).count ≡ false
  unfolding repeat_event
  below_one-repeat e = ground arith

  abbrev pub Newest : String → EventLog → Type 0
  Newest message k =
      (e : Event) × (last? k.events ≡ some e)
      × (e.level ≡ level)
      × (e.message ≡ message)
      × (e.time ≡ now)
      × (below_one e.count ≡ false)

  repeats-same :
      (message : String) (e : Event)
      → repeats now level message e ≡ true
      → (e.level ≡ level) × (e.message ≡ message)
  unfolding repeats
  repeats-same message e r =
      let (both, _) = and_true _ _ r in
      let (a, b) = and_true _ _ both in
      ((str_eq_iff e.level level).0 a, (str_eq_iff e.message message).0 b)

  -- After a message that is not blank, whatever the log was before, the newest event has that
  -- message, trimmed, the level and the time of the call, and a count of one at least.
  pub record_event-Newest :
      (untrimmed : String) (l : EventLog)
      → trim_space untrimmed ≢ ""
      → Newest (trim_space untrimmed) (record_event writable now level untrimmed l)
  record_event-Newest untrimmed l filled =
      record_event_cases (Newest (trim_space untrimmed)) writable now level untrimmed l
        (λ blank. absurd (filled ((str_eq_iff _ "").0 blank)))
        (
          new_event now level (trim_space untrimmed),
          ap last? (events-append_event (trim_space untrimmed) l)
              ∙ last?-keep_last max_starlink_events _ (omega arith)
              ∙ last?-append l.events _,
          unfold new_event in refl,
          unfold new_event in refl,
          unfold new_event in refl,
          unfold new_event in ground arith,
        )
        (λ newest e r.
          let (same_level, same_message) = repeats-same _ newest r in
          (
            repeat_event now newest,
            ap last? (events-repeated newest l) ∙ last?-set_last _ newest l.events e,
            unfold repeat_event in same_level,
            unfold repeat_event in same_message,
            unfold repeat_event in refl,
            below_one-repeat newest,
          ))

-- An alert is among the new alerts exactly if it is among the current ones and not among the
-- previous ones.
pub contains-new_alert_events :
    (a : String) (previous current : List String)
    → contains a (new_alert_events previous current)
      ≡ (contains a current && not (contains a previous))
unfolding new_alert_events contains
contains-new_alert_events a previous [] = refl
contains-new_alert_events a previous (b ∷ current) =
    ground (arith, contains-new_alert_events a previous current, str_eq_iff b a)
