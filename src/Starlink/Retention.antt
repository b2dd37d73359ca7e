-- ===== src/Starlink/Retention.antt =====
-- What internal/starlink/history.go keeps of the raw history: its order, its size, its age and the
-- newest sample.
use dronservice_updates.Prelude.{
  ℕ, ◌+◌, ◌-◌, sym, ap, subst, ◌∙◌, and_true, ◌≤◌, ◌<◌, Bool, true, some, List, [], ◌∷◌, ◌++◌, ◌≡◌,
  refl, ◌⊎◌, inl, inr, All, All-map, Ascending, length, last?, arith, seconds, length-keep_last,
  last?-append, last?-keep_last, last?-drop_while, All-append_one, keep_last-All, drop_while-All,
  append_one-Ascending, keep_last-Ascending, drop_while-Ascending, drop_while_bound, ltb→lt,
}
use dronservice_updates.Prelude.Float.{Float}
use dronservice_updates.Starlink.Types.{ConnectionPoint, raw_retention, raw_max_points}
use dronservice_updates.Starlink.History.{
  Histories, trim_raw, append_point, record_history, record_history_cases, history_point_equal,
}

abbrev at : {F : Type 0} → ConnectionPoint F → ℕ
at p = p.time

-- The raw history at a time: oldest first, nothing from the future, at most `raw_max_points`.
pub record IsHistory {F : Type 0} (now : ℕ) (points : List (ConnectionPoint F)) : Type 0 where
  pub ordered : Ascending at points
  pub past : All (λ p. p.time ≤ now) points
  pub bounded : length points ≤ raw_max_points

module _ {F : Type 0} where
  trim_raw-IsHistory :
      (now : ℕ) (points : List (ConnectionPoint F))
      → Ascending at points
      → All (λ p. p.time ≤ now) points
      → IsHistory now (trim_raw now points)
  unfolding trim_raw
  trim_raw-IsHistory now points o p = record {
    ordered = keep_last-Ascending at _ _ (drop_while-Ascending at _ points o);
    past = keep_last-All _ _ _ (drop_while-All _ _ points p);
    bounded = length-keep_last raw_max_points _;
  }

  -- Nothing older than the retention is left.
  trim_raw_recent :
      (now : ℕ) (points : List (ConnectionPoint F))
      → Ascending at points
      → All (λ p. now ≤ p.time + raw_retention) (trim_raw now points)
  unfolding trim_raw
  trim_raw_recent now points o = keep_last-All _ _ _ (
      All-map (λ p e. omega arith) _
        (drop_while_bound at (now - raw_retention) _ (λ p e. ground arith) points o))

  last?-trim_raw :
      (now : ℕ) (points : List (ConnectionPoint F)) (p : ConnectionPoint F)
      → last? points ≡ some p
      → now ≤ p.time
      → last? (trim_raw now points) ≡ some p
  unfolding trim_raw
  last?-trim_raw now points p e h =
      last?-keep_last raw_max_points _ (omega arith) ∙ last?-drop_while _ points p e (ground arith)

module _ {F : Type 0} ⦃float : Float F⦄ where
  history-append_point :
      (writable : Bool) (now : ℕ) (point : ConnectionPoint F) (h : Histories F)
      → (append_point writable now point h).history ≡ trim_raw now (h.history ++ point ∷ [])
  unfolding append_point
  history-append_point writable now point h = ground arith

  -- If the raw history is oldest first, has nothing from after the time of the call and at most 960
  -- points, it is so after recordHistory with a point of that time.
  pub record_history-IsHistory :
      (writable : Bool) (now : ℕ) (point : ConnectionPoint F) (h : Histories F)
      → point.time ≡ now
      → IsHistory now h.history
      → IsHistory now (record_history writable now point h).history
  record_history-IsHistory writable now point h t v =
      record_history_cases (λ k. IsHistory now k.history) writable now point h
        (subst (IsHistory now) (sym (history-append_point writable now point h)) (
          trim_raw-IsHistory now (h.history ++ point ∷ [])
            (append_one-Ascending at h.history point v.ordered
              (All-map (λ p e. omega arith) h.history v.past))
            (All-append_one (λ p. p.time ≤ now) h.history point v.past (omega arith))))
        (λ newest e same. v)

  -- After recordHistory with a point of the time of the call, the newest point of the history is
  -- that point, or one of the last four seconds that equals it within the tolerance.
  pub record_history_newest :
      (writable : Bool) (now : ℕ) (point : ConnectionPoint F) (h : Histories F)
      → point.time ≡ now
      → (newest : ConnectionPoint F) × (last? (record_history writable now point h).history
          ≡ some newest)
        × ((newest ≡ point)
            ⊎ ((now < newest.time + seconds 4) × (history_point_equal newest point ≡ true)))
  record_history_newest writable now point h t =
      record_history_cases Newest writable now point h
        (
          point,
          ap last? (history-append_point writable now point h)
              ∙ last?-trim_raw now (h.history ++ point ∷ []) point (last?-append h.history point)
                  (omega arith),
          inl refl,
        )
        (λ newest e same.
          let (close, equal) = and_true _ _ same in
          (newest, e, inr (ltb→lt now (newest.time + seconds 4) close, equal)))
    where
      Newest : Histories F → Type 0
      Newest k =
          (newest : ConnectionPoint F) × (last? k.history ≡ some newest)
          × ((newest ≡ point)
              ⊎ ((now < newest.time + seconds 4) × (history_point_equal newest point ≡ true)))

  -- If the raw history is in order, no point of it is older than two hours after a point of the
  -- time of the call is appended.
  pub append_point_recent :
      (writable : Bool) (now : ℕ) (point : ConnectionPoint F) (h : Histories F)
      → point.time ≡ now
      → IsHistory now h.history
      → All (λ p. now ≤ p.time + raw_retention) (append_point writable now point h).history
  append_point_recent writable now point h t v =
      subst (All (λ p. now ≤ p.time + raw_retention))
        (sym (history-append_point writable now point h))
        (trim_raw_recent now (h.history ++ point ∷ []) (
          append_one-Ascending at h.history point v.ordered
            (All-map (λ p e. omega arith) h.history v.past)))
