-- ===== src/Quality/Series.antt =====
-- The quality of a candle series in services/data_quality/quality.py.
use ict_trading_claude.Prelude.{
  ℕ, ◌+◌, ◌-◌, ◌≤◌, ◌<◌, ◌≡◌, ◌⊎◌, inl, inr, true, false, some, List, last?, arith, Bool-cases,
  Option-cases,
}
use ict_trading_claude.Domain.Enums.{DataQuality, AssetClass}
use ict_trading_claude.Domain.Candle.{Candle, ValidationIssue, has_errors}
use ict_trading_claude.Hours.{Calendar}
use ict_trading_claude.Quality.{
  CandleLag, is_usable, closed_of, missing_bars_since, classify_candle_series, class_of_missing,
}
use ict_trading_claude.Quality.Missed.{MissedSince, missing_bars_since-MissedSince}

module _ (cal : Calendar) (cfg : CandleLag) (candles : List Candle) (issues : List ValidationIssue)
    (asset : AssetClass) (now : ℕ) where
  -- The grade of a series with this many bars missing since its last closed candle.
  abbrev pub IsGraded : DataQuality → ℕ → Type 0
  IsGraded q m =
      ((q ≡ DataQuality.current) × (m ≤ cfg.current_max_missing))
      ⊎ ((q ≡ DataQuality.delayed) × (cfg.current_max_missing < m) × (m ≤ cfg.delayed_max_missing))

  -- No error, and graded by the bars that are really missing since the last closed candle.
  abbrev pub IsFresh : DataQuality → Type 0
  IsFresh q =
      (has_errors issues ≡ false)
      × (c : Candle) × (last? (closed_of candles) ≡ some c)
      × (m : ℕ) × MissedSince cal asset c.timeframe c.open_time (now - cfg.grace) m
      × IsGraded q m

  -- A series that classifies as usable has no error and a last closed candle. With `m` the number of
  -- buckets after that candle that are over by now, less the grace, and had an open market, it is
  -- CURRENT where `m` is at most the limit for that, DELAYED where it is more but at most the limit for
  -- delayed data, and nothing else (never LIVE: that takes a stream). The limit for CURRENT is taken
  -- to be at most that for DELAYED.
  pub classify_candle_series-IsFresh :
      (q : DataQuality)
      → cfg.current_max_missing ≤ cfg.delayed_max_missing
      → classify_candle_series cal cfg candles issues asset now ≡ some q
      → is_usable q ≡ true
      → IsFresh q
  unfolding classify_candle_series is_usable
  classify_candle_series-IsFresh q k h u = elim (Bool-cases (has_errors issues)) [
    | inl bad ↦ absurd (ground arith)
    | inr good ↦ elim (Option-cases (last? (closed_of candles))) [
      | inl missing ↦ absurd (ground arith)
      | inr (c, last) ↦
          elim (Option-cases
            (missing_bars_since cal cfg c asset now (cfg.delayed_max_missing + 1))) [
              | inl stuck ↦ absurd (ground arith)
              | inr (m, counted) ↦
                  let same : class_of_missing cfg m ≡ q = ground arith in
                  let graded : IsGraded q m = ground arith in
                  let few : m < cfg.delayed_max_missing + 1 = ground arith in
                  (
                    good,
                    c,
                    last,
                    m,
                    missing_bars_since-MissedSince cal cfg c asset now (cfg.delayed_max_missing + 1)
                        m counted few,
                    graded,
                  )
            ]
    ]
  ]
