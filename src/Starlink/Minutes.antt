-- ===== src/Starlink/Minutes.antt =====
-- What updateMinuteBucketLocked of internal/starlink/history.go keeps of the minute buckets.
use dronservice_updates.Prelude.{
  ℕ, ◌+◌, ◌≤◌, ◌<◌, ◌%◌, false, none, some, List, [], ◌∷◌, ◌++◌, ◌≡◌, ◌≢◌, refl, sym, ap, subst,
  ◌∙◌, All, All-map, Increasing, last?, set_last, arith, ==_iff, minutes, truncate, before_cutoff,
  All-append_one, drop_while-All, last?-All, set_last-All, append_one-Increasing,
  drop_while-Increasing, last?-greatest, Increasing-Ascending, set_last-Increasing, drop_while_keep,
}
use dronservice_updates.Prelude.Float.{Float}
use dronservice_updates.Starlink.Types.{ConnectionPoint, MinuteBucket, minute_retention}
use dronservice_updates.Starlink.History.{
  merge_into_bucket, new_bucket, append_bucket, update_minute_bucket, update_minute_bucket_cases,
}

abbrev at : {F : Type 0} → MinuteBucket F → ℕ
at b = b.time

-- One bucket for a minute: a whole minute, not in the future, with a sample at least.
pub record IsBucket {F : Type 0} (now : ℕ) (b : MinuteBucket F) : Type 0 where
  pub whole : b.time % minutes 1 ≡ 0
  pub past : b.time ≤ now
  pub sampled : 0 < b.samples

pub record IsMinutes {F : Type 0} (now : ℕ) (buckets : List (MinuteBucket F)) : Type 0 where
  pub ordered : Increasing at buckets
  pub each : All (IsBucket now) buckets

abbrev pub total_samples : {F : Type 0} → List (MinuteBucket F) → ℕ
total_samples [] = 0
total_samples (b ∷ bs) = b.samples + total_samples bs

module _ {F : Type 0} ⦃float : Float F⦄ where
  last?-none : (bs : List (MinuteBucket F)) → last? bs ≡ none → bs ≡ []
  unfolding last?
  last?-none [] e = refl
  last?-none (b ∷ []) e = cc
  last?-none (b ∷ c ∷ bs) e = cc (last?-none (c ∷ bs) e)

  appended-IsMinutes :
      (now : ℕ) (point : ConnectionPoint F) (bs : List (MinuteBucket F))
      → IsMinutes now bs
      → All (λ b. b.time < truncate now (minutes 1)) bs
      → IsMinutes now (append_bucket now point bs)
  unfolding append_bucket
  appended-IsMinutes now point bs v below = record {
    ordered = drop_while-Increasing at _ _ (append_one-Increasing at bs _ v.ordered below);
    each = drop_while-All (IsBucket now) _ _ (
        All-append_one (IsBucket now) bs _ v.each
          (record { whole = omega arith; past = omega arith; sampled = omega arith }));
  }

  merged-IsMinutes :
      (now : ℕ) (point : ConnectionPoint F) (b : MinuteBucket F) (bs : List (MinuteBucket F))
      → IsMinutes now bs
      → last? bs ≡ some b
      → IsMinutes now (set_last (merge_into_bucket b point) bs)
  unfolding merge_into_bucket
  merged-IsMinutes now point b bs v e =
      let own = last?-All (IsBucket now) bs b v.each e in
      record {
        ordered = set_last-Increasing at bs b _ e refl v.ordered;
        each =
            set_last-All (IsBucket now) _ bs
              (record { whole = own.whole; past = own.past; sampled = omega arith }) v.each;
      }

  -- Whole minutes up to now: all lie below the current one if the last is another one.
  below_current :
      (now : ℕ) (b : MinuteBucket F) (bs : List (MinuteBucket F))
      → IsMinutes now bs
      → last? bs ≡ some b
      → b.time ≢ truncate now (minutes 1)
      → All (λ c. c.time < truncate now (minutes 1)) bs
  below_current now b bs v e other =
      let own = last?-All (IsBucket now) bs b v.each e in
      let below : b.time < truncate now (minutes 1) = omega (arith, own.whole, own.past, other) in
      All-map (λ c le. omega arith) bs
        (last?-greatest at bs b (Increasing-Ascending at bs v.ordered) e)

  -- If the minute buckets are strictly in order, each at a whole minute that is not after the time
  -- of the call and with a sample at least, they are so after updateMinuteBucket at that time.
  pub update_minute_bucket-IsMinutes :
      (now : ℕ) (point : ConnectionPoint F) (bs : List (MinuteBucket F))
      → IsMinutes now bs
      → IsMinutes now (update_minute_bucket now point bs)
  update_minute_bucket-IsMinutes now point bs v =
      update_minute_bucket_cases (IsMinutes now) now point bs
        (λ e.
          appended-IsMinutes now point bs v
            (subst (All (λ b. b.time < truncate now (minutes 1))) (sym (last?-none bs e)) tt))
        (λ b e other. appended-IsMinutes now point bs v (
          below_current now b bs v e
            (λ same. cc (other, (==_iff b.time (truncate now (minutes 1))).1 same))))
        (λ b e same. merged-IsMinutes now point b bs v e)

  total_samples-set_last :
      (bs : List (MinuteBucket F)) (b : MinuteBucket F) (p : ConnectionPoint F)
      → last? bs ≡ some b
      → total_samples (set_last (merge_into_bucket b p) bs) ≡ total_samples bs + 1
  unfolding last? set_last merge_into_bucket
  total_samples-set_last [] b p e = cc
  total_samples-set_last (c ∷ []) b p e = ground arith
  total_samples-set_last (c ∷ d ∷ bs) b p e = omega (arith, total_samples-set_last (d ∷ bs) b p e)

  total_samples-append :
      (bs : List (MinuteBucket F)) (minute : ℕ) (p : ConnectionPoint F)
      → total_samples (bs ++ new_bucket minute p ∷ []) ≡ total_samples bs + 1
  unfolding new_bucket
  total_samples-append [] minute p = omega arith
  total_samples-append (b ∷ bs) minute p = omega (arith, total_samples-append bs minute p)

  append_bucket_keep :
      (now : ℕ) (point : ConnectionPoint F) (bs : List (MinuteBucket F))
      → All
          (λ b. before_cutoff b.time now minute_retention ≡ false)
          (bs ++ new_bucket (truncate now (minutes 1)) point ∷ [])
      → append_bucket now point bs ≡ bs ++ new_bucket (truncate now (minutes 1)) point ∷ []
  unfolding append_bucket
  append_bucket_keep now point bs h = drop_while_keep _ _ h

  -- If no bucket is older than seven days, updateMinuteBucket adds one to the number of samples in
  -- all buckets.
  pub total_samples-update :
      (now : ℕ) (point : ConnectionPoint F) (bs : List (MinuteBucket F))
      → All (λ b. now ≤ b.time + minute_retention) bs
      → total_samples (update_minute_bucket now point bs) ≡ total_samples bs + 1
  unfolding new_bucket
  total_samples-update now point bs recent =
      update_minute_bucket_cases (λ cs. total_samples cs ≡ total_samples bs + 1) now point bs
        (λ e. appended) (λ b e other. appended) (λ b e same. total_samples-set_last bs b point e)
    where
      appended : total_samples (append_bucket now point bs) ≡ total_samples bs + 1
      appended =
          ap total_samples (
            append_bucket_keep now point bs
              (All-append_one _ bs _ (All-map (λ b e. ground arith) bs recent) (ground arith)))
          ∙ total_samples-append bs (truncate now (minutes 1)) point
