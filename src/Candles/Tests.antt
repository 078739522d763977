-- ===== src/Candles/Tests.antt =====
-- Series of concrete bars.
use ict_trading_claude.Prelude.{◌≡◌, refl, Option, none, some, List, [], ◌∷◌}
use ict_trading_claude.Domain.Enums.{AssetClass, Timeframe, DataQuality}
use ict_trading_claude.Domain.Candle.{RawBar}
use ict_trading_claude.Prelude.Int.{pos, max_ℤ, min_ℤ, dist_ℤ}
use ict_trading_claude.Domain.Candle.{has_errors}
use ict_trading_claude.Hours.{is_market_open, market_status_at}
use ict_trading_claude.Timeframes.{
  is_aligned, bucket_start, fixed_start, expected_slots, slots, over_by, limit_reached,
  bucket_has_open_market, next_bucket_start,
}
use ict_trading_claude.Quality.{closed_of, classify_candle_series, missing_bars_since}
use ict_trading_claude.Candles.Validation.{
  validate_bar_prices, validate_prices, range_issues, is_impossible, is_not_positive, finite_prices,
  detect_range_spikes, spikes_from, spike_at, ranges,
}
use ict_trading_claude.Candles.Screen.{
  accept_all, accept, screen_bar, values_of, same_name, same_timeframe, screen_all,
}
use ict_trading_claude.Candles.Duplicates.{
  Feed, group_bars, add_bar, candles_of, is_conflict, same_prices, candle_of, inversions,
  group_issues,
}
use ict_trading_claude.Candles.Gaps.{future_issues, detect_missing_bars, gaps, slots_between}
use ict_trading_claude.Candles.Series.{
  Thresholds, CandleSeries, build_series, all_issues, later_issues, merge_counts, with_count,
  first_of_key, count_of_key, same_key, is_untimed, code_index, note_empty, with_quality,
}
use ict_trading_claude.Prelude.{◌+◌, arith}
use ict_trading_claude.Timeframes.Slots.{Advances}
use ict_trading_claude.Domain.Candle.{upper}
use ict_trading_claude.Prelude.{inl}
use ict_trading_claude.Candles.Unusable.{IsUnusable, impossible}
use ict_trading_claude.Candles.Errors.{build_series_unusable_bar}
use ict_trading_claude.Candles.Total.{build_series-total}
use ict_trading_claude.Candles.Origin.{Series}
use ict_trading_claude.Samples.{minute_bar, calendar, xauusd}

abbrev thresholds : Thresholds
thresholds = record {
  lag = record { grace = 15; current_max_missing = 0; delayed_max_missing = 2 };
  bad_tick = record { multiple_num = 15; multiple_den = 1; lookback = 20; min_samples = 10 };
}

abbrev feed : Feed
feed = record {
  symbol = xauusd;
  timeframe = Timeframe.m1;
  source = xauusd;
  asset_class = AssetClass.metal;
}

-- Out of order, with one bar twice.
abbrev bars : List RawBar
bars = minute_bar 20100 11 13 9 12 ∷ minute_bar 20040 10 12 8 11 ∷ minute_bar 20100 11 13 9 12 ∷ []

abbrev series_of : Option CandleSeries → CandleSeries
series_of (some s) = s
series_of none = record {
  symbol = xauusd;
  timeframe = Timeframe.m1;
  source = xauusd;
  candles = [];
  issues = [];
  quality = DataQuality.invalid;
}

abbrev series : CandleSeries
series = series_of (build_series calendar thresholds feed 20170 bars)

-- Two candles, sorted and without a gap.
two_times : series.quality ≡ DataQuality.current
unfolding build_series later_issues accept_all accept screen_bar validate_bar_prices validate_prices
    range_issues is_impossible is_not_positive finite_prices has_errors values_of same_name
    same_timeframe is_aligned bucket_start fixed_start group_bars add_bar candles_of is_conflict
    same_prices candle_of max_ℤ min_ℤ dist_ℤ screen_all inversions group_issues future_issues
    detect_missing_bars gaps slots_between detect_range_spikes spikes_from spike_at closed_of ranges
    all_issues merge_counts with_count first_of_key count_of_key same_key is_untimed code_index
    note_empty with_quality classify_candle_series missing_bars_since expected_slots slots over_by
    limit_reached bucket_has_open_market next_bucket_start is_market_open market_status_at
two_times = refl

minute-Advances : Advances calendar Timeframe.m1
unfolding next_bucket_start
minute-Advances t = (t + 60, refl, omega arith)

build_series-total_example :
    (s : CandleSeries) × (build_series calendar thresholds feed 20170 bars ≡ some s)
    × Series calendar feed 20170 bars s.quality 0 s.candles
build_series-total_example = build_series-total calendar thresholds feed 20170 bars minute-Advances

-- A bar whose high is below its open.
abbrev bad_bars : List RawBar
bad_bars = minute_bar 20040 10 12 8 11 ∷ minute_bar 20100 11 10 9 9 ∷ []

bad_bar-IsUnusable : IsUnusable calendar (upper xauusd) Timeframe.m1 (minute_bar 20100 11 10 9 9)
bad_bar-IsUnusable =
    impossible (pos 11) (pos 10) (pos 9) (pos 9) (refl, refl, refl, refl) (inl (omega arith))

build_series_unusable_bar_example :
    (build_series-total calendar thresholds feed 20170 bad_bars minute-Advances).0.quality
    ≡ DataQuality.invalid
build_series_unusable_bar_example =
    let (s, built, series) =
      build_series-total calendar thresholds feed 20170 bad_bars minute-Advances in
    build_series_unusable_bar calendar thresholds feed 20170 bad_bars 1 (minute_bar 20100 11 10 9 9)
      s refl bad_bar-IsUnusable built
