-- ===== src/Starlink/Caching.antt =====
-- When internal/starlink/service.go asks the terminal again, and what a fresh status leaves.
use dronservice_updates.Prelude.{
  ℕ, ◌+◌, ◌<◌, Bool, true, false, ◌&&◌, Option, none, some, ◌≡◌, refl, ◌⊎◌, arith, last?, seconds,
  subst, sym, ◌∙◌,
}
use dronservice_updates.Prelude.Float.{Float}
use dronservice_updates.Starlink.Types.{ConnectionPoint}
use dronservice_updates.Starlink.History.{history_point_equal}
use dronservice_updates.Starlink.Retention.{record_history_newest}
use dronservice_updates.Starlink.Status.{
  Status, Dish, Outside, Service, is_cached, via_starlink, note_connection, status_point,
  check_dish, check_provider, finish_status, fresh_status, status, status-of_cached,
}

via-online : (a b c : Bool) → (a && b && c) ≡ true → a ≡ true
via-online true b c h = refl
via-online false b c h = cc

module _ {F : Type 0} ⦃float : Float F⦄ where
  abbrev answered : Option (Dish F) → Bool
  answered none = false
  answered (some d) = true

  check_dish-result :
      (o : Outside F) (d : Option (Dish F)) (s : Service F)
      → ((check_dish o d s).0.reachable ≡ answered d) × ((check_dish o d s).0.checked_at ≡ o.now)
  unfolding check_dish
  check_dish-result o none s = ground arith
  check_dish-result o (some d) s = (refl, refl)

  -- The newest raw point shows the status: it is the status, or it is less than four seconds older
  -- and equals it within the tolerance.
  abbrev pub Shows : ConnectionPoint F → ConnectionPoint F → ℕ → Type 0
  Shows newest point now =
      (newest ≡ point)
      ⊎ ((now < newest.time + seconds 4) × (history_point_equal newest point ≡ true))

  -- What a status that asks the terminal returns and leaves.
  pub record IsFresh (o : Outside F) (internet_online : Bool) (r : Status F) (s : Service F)
      : Type 0 where
    pub cached : s.cached ≡ r
    pub answers : r.reachable ≡ answered o.dish
    pub checked : r.checked_at ≡ o.now
    pub online : r.internet_via_starlink ≡ true → internet_online ≡ true
    pub shown :
        (newest : ConnectionPoint F) × (last? s.histories.history ≡ some newest)
        × Shows newest (status_point o r) o.now

  finish_status-IsFresh :
      (o : Outside F) (internet_online : Bool) (asked : Status F) (s : Service F)
      → asked.reachable ≡ answered o.dish
      → asked.checked_at ≡ o.now
      → IsFresh o internet_online
          (finish_status o internet_online asked s).0
          (finish_status o internet_online asked s).1
  unfolding finish_status
  finish_status-IsFresh o internet_online asked s reach checked = record {
    cached = refl;
    answers = reach;
    checked = checked;
    online = via-online _ _ _;
    shown = record_history_newest o.writable o.now (status_point o result) noted.histories refl;
  }
    where
      known : Service F
      known = check_provider o internet_online s

      result : Status F
      result = record asked { internet_via_starlink = via_starlink internet_online known }

      noted : Service F
      noted = note_connection o internet_online result known

  -- If the cached status is not used, Status caches what it returns; that is reachable exactly if
  -- the terminal answered, bears the time of the call, claims the internet through Starlink only if
  -- the internet is there, and is shown by the newest point of the history.
  pub status-IsFresh :
      (o : Outside F) (internet_online : Bool) (s : Service F)
      → is_cached o s ≡ false
      → IsFresh o internet_online (status o internet_online s).0 (status o internet_online s).1
  unfolding fresh_status
  status-IsFresh o internet_online s e =
      subst (λ (r : Status F × Service F). IsFresh o internet_online r.0 r.1)
        (sym (status-of_cached o internet_online s ∙ rw e)) fresh
    where
      fresh :
          IsFresh o internet_online
            (fresh_status o internet_online s).0
            (fresh_status o internet_online s).1
      fresh =
          finish_status-IsFresh o internet_online (check_dish o o.dish s).0
            (check_dish o o.dish s).1 (check_dish-result o o.dish s).0
            (check_dish-result o o.dish s).1
