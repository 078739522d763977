-- ===== src/Quality/Tests.antt =====
-- Qualities of concrete quotes and series.
use ict_trading_claude.Prelude.{
  ◌≡◌, ◌≤◌, ◌⊎◌, refl, true, List, [], ◌∷◌, All, Member, all, some, arith,
}
use ict_trading_claude.Domain.Enums.{DataQuality, AssetClass}
use ict_trading_claude.Domain.Candle.{Candle, has_errors}
use ict_trading_claude.Hours.{is_market_open, market_status_at}
use ict_trading_claude.Timeframes.{
  expected_slots, slots, over_by, limit_reached, bucket_has_open_market, next_bucket_start,
}
use ict_trading_claude.Quality.{
  quality_index, is_usable, worst_quality, QuoteAge, CandleLag, classify_quote_age,
  classify_candle_series, missing_bars_since, closed_of,
}
use ict_trading_claude.Quality.Classes.{worst_quality_lem, classify_quote_age_mono}
use ict_trading_claude.Quality.Series.{IsFresh, classify_candle_series-IsFresh}
use ict_trading_claude.Samples.{minute, calendar}

worst_quality_lem_example :
    Member
      (worst_quality (DataQuality.live ∷ DataQuality.stale ∷ []))
      (DataQuality.live ∷ DataQuality.stale ∷ [])
    × All
        (λ r.
          quality_index r
          ≤ quality_index (worst_quality (DataQuality.live ∷ DataQuality.stale ∷ [])))
        (DataQuality.live ∷ DataQuality.stale ∷ [])
    × (is_usable (worst_quality (DataQuality.live ∷ DataQuality.stale ∷ []))
        ≡ all is_usable (DataQuality.live ∷ DataQuality.stale ∷ []))
worst_quality_lem_example = worst_quality_lem (DataQuality.live ∷ DataQuality.stale ∷ [])

-- The values of data_quality.json.
abbrev quote_age : QuoteAge
quote_age = record { live_max = 5; current_max = 60; delayed_max = 900 }

abbrev candle_lag : CandleLag
candle_lag = record { grace = 15; current_max_missing = 0; delayed_max_missing = 2 }

classify_quote_age_mono_example :
    (classify_quote_age quote_age 900 1000 ≡ DataQuality.invalid)
    ⊎ (quality_index (classify_quote_age quote_age 900 1000)
        ≤ quality_index (classify_quote_age quote_age 50 1000))
classify_quote_age_mono_example = classify_quote_age_mono quote_age 50 900 1000 (omega arith)

-- Two minutes of New York's Thursday morning.
abbrev two_candles : List Candle
two_candles = minute 20040 10 12 8 11 ∷ minute 20100 11 13 9 12 ∷ []

two_are_current :
    classify_candle_series calendar candle_lag two_candles [] AssetClass.metal 20170
    ≡ some DataQuality.current
unfolding classify_candle_series has_errors closed_of missing_bars_since expected_slots slots
    over_by limit_reached bucket_has_open_market next_bucket_start is_market_open market_status_at
two_are_current = refl

current_is_usable : is_usable DataQuality.current ≡ true
unfolding is_usable
current_is_usable = refl

classify_candle_series-IsFresh_example :
    IsFresh calendar candle_lag two_candles [] AssetClass.metal 20170 DataQuality.current
classify_candle_series-IsFresh_example =
    classify_candle_series-IsFresh calendar candle_lag two_candles [] AssetClass.metal 20170
      DataQuality.current (omega arith) two_are_current current_is_usable
