-- ===== src/Starlink/History.antt =====
-- internal/starlink/history.go: the raw history and the minute buckets, oldest first.
use dronservice_updates.Prelude.{
  ℕ, ◌+◌, ◌*◌, String, str_eq, Bool, true, false, ◌&&◌, ◌||◌, Option, none, some, List, [], ◌∷◌,
  ◌++◌, map, last?, set_last, drop_while, keep_if, keep_last, ◌==◌, if◌then◌else◌, seconds, minutes,
  hours, elapsed_lt, before_cutoff, truncate, not, ◌≡◌, refl, if_ind,
}
use dronservice_updates.Prelude.Float.{Float}
use dronservice_updates.Starlink.Types.{
  ConnectionPoint, MinuteBucket, raw_retention, raw_max_points, minute_retention,
}

unfoldable pub parse_history_range : String → ℕ × String
parse_history_range value =
    if str_eq value "10m"
    then (minutes 10, "10m")
    else if str_eq value "1h" || str_eq value ""
    then (hours 1, "1h")
    else if str_eq value "24h" || str_eq value "1d"
    then (hours 24, "24h")
    else if str_eq value "7d" || str_eq value "1w"
    then (hours (7 * 24), "7d")
    else (hours 1, "1h")

-- The part of the service that history.go keeps. The last two fields are what the files hold;
-- `writable` says whether a write succeeds, since its error is dropped.
pub record Histories (F : Type 0) : Type 0 where
  pub history : List (ConnectionPoint F)
  pub minute_history : List (MinuteBucket F)
  pub saved_history : List (ConnectionPoint F)
  pub saved_minutes : List (MinuteBucket F)

unfoldable pub save_history : {F : Type 0} → Bool → Histories F → Histories F
save_history writable h = if writable then record h { saved_history = h.history } else h

unfoldable pub save_minute_history : {F : Type 0} → Bool → Histories F → Histories F
save_minute_history writable h =
    if writable then record h { saved_minutes = h.minute_history } else h

unfoldable pub trim_raw : {F : Type 0} → ℕ → List (ConnectionPoint F) → List (ConnectionPoint F)
trim_raw now points =
    keep_last raw_max_points (drop_while (λ p. before_cutoff p.time now raw_retention) points)

unfoldable pub trim_minute_history :
    {F : Type 0} → ℕ → List (MinuteBucket F) → List (MinuteBucket F)
trim_minute_history now = drop_while (λ b. before_cutoff b.time now minute_retention)

unfoldable pub filter_raw_since :
    {F : Type 0} → List (ConnectionPoint F) → ℕ → ℕ → List (ConnectionPoint F)
filter_raw_since points now duration = keep_if (λ p. not (before_cutoff p.time now duration)) points

unfoldable pub filter_minutes_since :
    {F : Type 0} → List (MinuteBucket F) → ℕ → ℕ → List (MinuteBucket F)
filter_minutes_since buckets now duration =
    keep_if (λ b. not (before_cutoff b.time now duration)) buckets

unfoldable pub bucket_as_point : {F : Type 0} → MinuteBucket F → ConnectionPoint F
bucket_as_point b = record {
  time = b.time;
  reachable = b.reachable;
  downlink_mbps = b.downlink_mbps;
  uplink_mbps = b.uplink_mbps;
  ping_ms = b.ping_ms;
}

unfoldable pub minute_buckets_as_points :
    {F : Type 0} → List (MinuteBucket F) → List (ConnectionPoint F)
unfolding bucket_as_point
minute_buckets_as_points = map bucket_as_point

module _ {F : Type 0} ⦃float : Float F⦄ where
  open float use {hundredth, tenth, zero, add, sub, mul, div, abs, lt, of_int}

  unfoldable pub history_point_equal : ConnectionPoint F → ConnectionPoint F → Bool
  history_point_equal a b =
      (if a.reachable then b.reachable else not b.reachable)
      && lt (abs (sub a.downlink_mbps b.downlink_mbps)) hundredth
      && lt (abs (sub a.uplink_mbps b.uplink_mbps)) hundredth
      && lt (abs (sub a.ping_ms b.ping_ms)) tenth

  -- `((mean * (weight - 1)) + x) / weight`
  unfoldable pub running_mean : ℕ → F → F → F
  running_mean samples mean x =
      div (add (mul mean (sub (of_int samples) (of_int 1))) x) (of_int samples)

  unfoldable pub merge_into_bucket : MinuteBucket F → ConnectionPoint F → MinuteBucket F
  unfolding running_mean
  merge_into_bucket b p = record {
    time = b.time;
    reachable = b.reachable || p.reachable;
    downlink_mbps = running_mean (b.samples + 1) b.downlink_mbps p.downlink_mbps;
    uplink_mbps = running_mean (b.samples + 1) b.uplink_mbps p.uplink_mbps;
    ping_ms = running_mean (b.samples + 1) b.ping_ms p.ping_ms;
    samples = b.samples + 1;
  }

  unfoldable pub new_bucket : ℕ → ConnectionPoint F → MinuteBucket F
  new_bucket minute p = record {
    time = minute;
    reachable = p.reachable;
    downlink_mbps = p.downlink_mbps;
    uplink_mbps = p.uplink_mbps;
    ping_ms = p.ping_ms;
    samples = 1;
  }

  -- A bucket for a minute that has none, and the trimming that goes with it.
  unfoldable pub append_bucket :
      ℕ → ConnectionPoint F → List (MinuteBucket F) → List (MinuteBucket F)
  unfolding new_bucket trim_minute_history
  append_bucket now point buckets =
      trim_minute_history now (buckets ++ new_bucket (truncate now (minutes 1)) point ∷ [])

  -- The last argument is the last bucket so far.
  update_after :
      ℕ
      → ConnectionPoint F
      → List (MinuteBucket F)
      → Option (MinuteBucket F)
      → List (MinuteBucket F)
  unfolding set_last merge_into_bucket append_bucket
  update_after now point buckets none = append_bucket now point buckets
  update_after now point buckets (some b) =
      if b.time == truncate now (minutes 1)
      then set_last (merge_into_bucket b point) buckets
      else append_bucket now point buckets

  -- updateMinuteBucketLocked
  unfoldable pub update_minute_bucket :
      ℕ → ConnectionPoint F → List (MinuteBucket F) → List (MinuteBucket F)
  unfolding last? update_after
  update_minute_bucket now point buckets = update_after now point buckets (last? buckets)

  update_after_cases {ℓ} :
      (P : List (MinuteBucket F) → Type ℓ) (now : ℕ) (point : ConnectionPoint F)
      (buckets : List (MinuteBucket F)) (o : Option (MinuteBucket F))
      → (o ≡ none → P (append_bucket now point buckets))
      → ((b : MinuteBucket F)
          → o ≡ some b
          → (b.time == truncate now (minutes 1)) ≡ false
          → P (append_bucket now point buckets))
      → ((b : MinuteBucket F)
          → o ≡ some b
          → (b.time == truncate now (minutes 1)) ≡ true
          → P (set_last (merge_into_bucket b point) buckets))
      → P (update_after now point buckets o)
  unfolding update_after
  update_after_cases P now point buckets none first other same = first refl
  update_after_cases P now point buckets (some b) first other same =
      if_ind P (b.time == truncate now (minutes 1)) _ _ (same b refl) (other b refl)

  -- The first bucket, a bucket for another minute, and a sample for the last bucket.
  pub update_minute_bucket_cases {ℓ} :
      (P : List (MinuteBucket F) → Type ℓ) (now : ℕ) (point : ConnectionPoint F)
      (buckets : List (MinuteBucket F))
      → (last? buckets ≡ none → P (append_bucket now point buckets))
      → ((b : MinuteBucket F)
          → last? buckets ≡ some b
          → (b.time == truncate now (minutes 1)) ≡ false
          → P (append_bucket now point buckets))
      → ((b : MinuteBucket F)
          → last? buckets ≡ some b
          → (b.time == truncate now (minutes 1)) ≡ true
          → P (set_last (merge_into_bucket b point) buckets))
      → P (update_minute_bucket now point buckets)
  unfolding update_minute_bucket
  update_minute_bucket_cases P now point buckets =
      update_after_cases P now point buckets (last? buckets)

  unfoldable pub append_point : Bool → ℕ → ConnectionPoint F → Histories F → Histories F
  unfolding trim_raw update_minute_bucket save_history save_minute_history
  append_point writable now point h = save_minute_history writable (
      save_history writable (record h {
        history = trim_raw now (h.history ++ point ∷ []);
        minute_history = update_minute_bucket now point h.minute_history;
      }))

  -- The second argument is the newest point so far.
  record_after :
      Bool → ℕ → ConnectionPoint F → Histories F → Option (ConnectionPoint F) → Histories F
  unfolding history_point_equal append_point update_minute_bucket
  record_after writable now point h none = append_point writable now point h
  record_after writable now point h (some newest) =
      if elapsed_lt now newest.time (seconds 4) && history_point_equal newest point
      then record h { minute_history = update_minute_bucket now point h.minute_history }
      else append_point writable now point h

  -- recordHistory, with the values of the status in the point, whose time is `now`.
  unfoldable pub record_history : Bool → ℕ → ConnectionPoint F → Histories F → Histories F
  unfolding record_after last?
  record_history writable now point h = record_after writable now point h (last? h.history)

  record_after_cases {ℓ} :
      (P : Histories F → Type ℓ) (writable : Bool) (now : ℕ) (point : ConnectionPoint F)
      (h : Histories F) (o : Option (ConnectionPoint F))
      → P (append_point writable now point h)
      → ((newest : ConnectionPoint F)
          → o ≡ some newest
          → (elapsed_lt now newest.time (seconds 4) && history_point_equal newest point) ≡ true
          → P (record h { minute_history = update_minute_bucket now point h.minute_history }))
      → P (record_after writable now point h o)
  unfolding record_after
  record_after_cases P writable now point h none appended same = appended
  record_after_cases P writable now point h (some newest) appended same =
      if_ind P (elapsed_lt now newest.time (seconds 4) && history_point_equal newest point) _ _
        (same newest refl) (λ _. appended)

  -- What holds of both branches holds of the result.
  pub record_history_cases {ℓ} :
      (P : Histories F → Type ℓ) (writable : Bool) (now : ℕ) (point : ConnectionPoint F)
      (h : Histories F)
      → P (append_point writable now point h)
      → ((newest : ConnectionPoint F)
          → last? h.history ≡ some newest
          → (elapsed_lt now newest.time (seconds 4) && history_point_equal newest point) ≡ true
          → P (record h { minute_history = update_minute_bucket now point h.minute_history }))
      → P (record_history writable now point h)
  unfolding record_history
  record_history_cases P writable now point h =
      record_after_cases P writable now point h (last? h.history)
