-- ===== src/Starlink/Hourly.antt =====
-- aggregateHourly and historyForRangeLocked of internal/starlink/history.go.
use dronservice_updates.Prelude.{
  ℕ, ◌+◌, String, str_eq, Bool, false, ◌||◌, List, [], ◌∷◌, ◌++◌, ◌==◌, if◌then◌else◌, hours,
  truncate, ◌≡◌, refl, arith, Bool-cases, inl, inr, ◌<◌, ap, ◌∙◌,
}
use mathlib.Core.List.{append_assoc}
use dronservice_updates.Prelude.Float.{Float}
use dronservice_updates.Starlink.Types.{ConnectionPoint, MinuteBucket}
use dronservice_updates.Starlink.History.{
  parse_history_range, filter_raw_since, filter_minutes_since, minute_buckets_as_points,
}

-- The variables of the loop; the zero time is the hour before the first point.
pub record Aggregation (F : Type 0) : Type 0 where
  pub out : List (ConnectionPoint F)
  pub current_hour : ℕ
  pub bucket : ConnectionPoint F
  pub samples : ℕ

module _ {F : Type 0} ⦃float : Float F⦄ where
  open float use {zero, add, div, of_int}

  unfoldable pub empty_bucket : ℕ → Bool → ConnectionPoint F
  empty_bucket hour reachable = record {
    time = hour;
    reachable = reachable;
    downlink_mbps = zero;
    uplink_mbps = zero;
    ping_ms = zero;
  }

  unfoldable pub average : ConnectionPoint F → ℕ → ConnectionPoint F
  average b samples = record b {
    downlink_mbps = div b.downlink_mbps (of_int samples);
    uplink_mbps = div b.uplink_mbps (of_int samples);
    ping_ms = div b.ping_ms (of_int samples);
  }

  unfoldable pub flush : Aggregation F → Aggregation F
  unfolding average
  flush a =
      if a.samples == 0
      then a
      else (let b = average a.bucket a.samples in
          record { out = a.out ++ b ∷ []; current_hour = a.current_hour; bucket = b; samples = 0 })

  unfoldable pub begin_hour : ℕ → ConnectionPoint F → Aggregation F → Aggregation F
  unfolding empty_bucket
  begin_hour hour p a = record a { current_hour = hour; bucket = empty_bucket hour p.reachable }

  unfoldable pub add_sample : ConnectionPoint F → Aggregation F → Aggregation F
  add_sample p a = record a {
    samples = a.samples + 1;
    bucket = record {
      time = a.bucket.time;
      reachable = a.bucket.reachable || p.reachable;
      downlink_mbps = add a.bucket.downlink_mbps p.downlink_mbps;
      uplink_mbps = add a.bucket.uplink_mbps p.uplink_mbps;
      ping_ms = add a.bucket.ping_ms p.ping_ms;
    };
  }

  -- The body of `for _, point := range points`.
  unfoldable pub aggregate_point : Aggregation F → ConnectionPoint F → Aggregation F
  unfolding flush begin_hour add_sample
  aggregate_point a p =
      let hour = truncate p.time (hours 1) in
      let first = if a.samples == 0 then begin_hour hour p a else a in
      add_sample p (if hour == first.current_hour then first else begin_hour hour p (flush first))

  unfoldable pub aggregate_from : Aggregation F → List (ConnectionPoint F) → Aggregation F
  unfolding aggregate_point
  aggregate_from a [] = flush a
  aggregate_from a (p ∷ ps) = aggregate_from (aggregate_point a p) ps

  unfoldable pub aggregate_hourly : List (ConnectionPoint F) → List (ConnectionPoint F)
  unfolding aggregate_from empty_bucket
  aggregate_hourly points =
      (aggregate_from
        (record { out = []; current_hour = 0; bucket = empty_bucket 0 false; samples = 0 })
        points).out

  -- The range key is one that parse_history_range returns.
  unfoldable pub history_for_range :
      List (ConnectionPoint F) → List (MinuteBucket F) → String → ℕ → List (ConnectionPoint F)
  unfolding parse_history_range filter_raw_since filter_minutes_since minute_buckets_as_points
  history_for_range history minute_history range_key now =
      let (duration, key) = parse_history_range range_key in
      let minutes = minute_buckets_as_points (filter_minutes_since minute_history now duration) in
      if str_eq key "10m" || str_eq key "1h"
      then filter_raw_since history now duration
      else if str_eq key "24h"
      then minutes
      else if str_eq key "7d"
      then aggregate_hourly minutes
      else filter_raw_since history now duration

  -- The reference: the points of each hour in a run, with their sums, then the averages.
  abbrev hour_of : ConnectionPoint F → ℕ
  hour_of p = truncate p.time (hours 1)

  abbrev sums : ConnectionPoint F → ConnectionPoint F → ConnectionPoint F
  sums b p = record {
    time = b.time;
    reachable = b.reachable || p.reachable;
    downlink_mbps = add b.downlink_mbps p.downlink_mbps;
    uplink_mbps = add b.uplink_mbps p.uplink_mbps;
    ping_ms = add b.ping_ms p.ping_ms;
  }

  -- The average of the run that `b` and `n` have summed, and of the runs that follow.
  pub runs_from : ConnectionPoint F → ℕ → List (ConnectionPoint F) → List (ConnectionPoint F)
  runs_from b n [] = average b n ∷ []
  runs_from b n (p ∷ ps) =
      let same = runs_from (sums b p) (n + 1) ps in
      let other = average b n ∷ runs_from (sums (empty_bucket (hour_of p) p.reachable) p) 1 ps in
      if hour_of p == b.time then same else other

  pub hourly_averages : List (ConnectionPoint F) → List (ConnectionPoint F)
  hourly_averages [] = []
  hourly_averages (p ∷ ps) = runs_from (sums (empty_bucket (hour_of p) p.reachable) p) 1 ps

  abbrev running : List (ConnectionPoint F) → ConnectionPoint F → ℕ → Aggregation F
  running out b n = record { out = out; current_hour = b.time; bucket = b; samples = n }

  flush-running :
      (out : List (ConnectionPoint F)) (b : ConnectionPoint F) (n : ℕ)
      → 0 < n
      → (flush (running out b n)).out ≡ out ++ average b n ∷ []
  unfolding flush
  flush-running out b n h = ground arith

  -- A further point of the hour, and the first point of another one.
  aggregate_point-running :
      (out : List (ConnectionPoint F)) (b p : ConnectionPoint F) (n : ℕ)
      → 0 < n
      → aggregate_point (running out b n) p ≡ (
          if hour_of p == b.time
          then running out (sums b p) (n + 1)
          else running (out ++ average b n ∷ []) (sums (empty_bucket (hour_of p) p.reachable) p) 1)
  unfolding aggregate_point
  aggregate_point-running out b p n h = ground arith

  aggregate_from-cons :
      (a : Aggregation F) (p : ConnectionPoint F) (ps : List (ConnectionPoint F))
      → (aggregate_from a (p ∷ ps)).out ≡ (aggregate_from (aggregate_point a p) ps).out
  unfolding aggregate_from
  aggregate_from-cons a p ps = refl

  abbrev idle : Aggregation F
  idle = record { out = []; current_hour = 0; bucket = empty_bucket 0 false; samples = 0 }

  aggregate_hourly-idle :
      (ps : List (ConnectionPoint F)) → aggregate_hourly ps ≡ (aggregate_from idle ps).out
  unfolding aggregate_hourly
  aggregate_hourly-idle ps = refl

  aggregate_point-idle :
      (p : ConnectionPoint F)
      → aggregate_point idle p ≡ running [] (sums (empty_bucket (hour_of p) p.reachable) p) 1
  unfolding aggregate_point
  aggregate_point-idle p = ground arith

  aggregate_from-runs :
      (out : List (ConnectionPoint F)) (b : ConnectionPoint F) (n : ℕ)
      (ps : List (ConnectionPoint F))
      → 0 < n
      → (aggregate_from (running out b n) ps).out ≡ out ++ runs_from b n ps
  unfolding runs_from
  aggregate_from-runs out b n [] h = unfold aggregate_from in flush-running out b n h
  aggregate_from-runs out b n (p ∷ ps) h =
      aggregate_from-cons (running out b n) p ps
      ∙ ap (λ a. (aggregate_from a ps).out) (aggregate_point-running out b p n h)
      ∙ elim (Bool-cases (hour_of p == b.time)) [
        | inl same ↦ rw same (aggregate_from-runs out (sums b p) (n + 1) ps (omega arith))
        | inr other ↦ rw other (
            aggregate_from-runs (out ++ average b n ∷ [])
              (sums (empty_bucket (hour_of p) p.reachable) p) 1 ps (omega arith)
            ∙ append_assoc out (average b n ∷ []) _)
      ]

  -- aggregateHourly, with its variables and its flush, returns for all points what a separate
  -- definition by recursion returns: for each run of points of one hour, the hour, whether a point
  -- of the run was reachable, and the averages of the three values.
  pub aggregate_hourly-averages :
      (points : List (ConnectionPoint F)) → aggregate_hourly points ≡ hourly_averages points
  unfolding hourly_averages
  aggregate_hourly-averages [] = unfold aggregate_hourly in refl
  aggregate_hourly-averages (p ∷ ps) =
      let first = sums (empty_bucket (hour_of p) p.reachable) p in
      aggregate_hourly-idle (p ∷ ps)
      ∙ aggregate_from-cons idle p ps
      ∙ ap (λ a. (aggregate_from a ps).out) (aggregate_point-idle p)
      ∙ aggregate_from-runs [] first 1 ps (omega arith)
