-- ===== src/Aggregate/Tests.antt =====
-- Aggregates of concrete candles.
use ict_trading_claude.Prelude.{ℕ, ◌+◌, ◌≡◌, refl, true, none, Option, some, List, [], ◌∷◌}
use ict_trading_claude.Prelude.Int.{pos}
use ict_trading_claude.Domain.Enums.{AssetClass, Timeframe, DataQuality}
use ict_trading_claude.Domain.Candle.{Candle}
use ict_trading_claude.Timeframes.{
  bucket_start, next_bucket_start, fixed_start, trading_week_start, trading_day_start,
}
use ict_trading_claude.Candles.Screen.{same_name, same_timeframe}
use ict_trading_claude.Aggregate.{
  Bucket, Aggregates, aggregate, is_refused, is_mixed, is_ascending, group_by, join, bucket_key,
  summarise, one_bucket,
}
use ict_trading_claude.Aggregate.Buckets.{flatten, Keyed, Apart, Summaries, aggregate-Summaries}
use ict_trading_claude.Timeframes.Slots.{Advances}
use ict_trading_claude.Prelude.{arith, false}
use ict_trading_claude.Aggregate.Weekly.{aggregate_weekly-total, aggregate_weekly, week_key}
use ict_trading_claude.Samples.{minute, calendar, xauusd}

-- Three minutes of one bucket of three minutes, and one of the next.
abbrev four_minutes : List Candle
four_minutes =
    minute 20160 10 12 8 11
    ∷ minute 20220 11 20 10 15
    ∷ minute 20280 15 16 9 10
    ∷ minute 20340 10 11 9 10
    ∷ []

abbrev answer_of : Option Aggregates → Aggregates
answer_of none = ([], [])
answer_of (some r) = r

abbrev threes : Aggregates
threes =
    answer_of (aggregate calendar AssetClass.metal 20400 Timeframe.m1 Timeframe.m3 four_minutes)

aggregated :
    aggregate calendar AssetClass.metal 20400 Timeframe.m1 Timeframe.m3 four_minutes ≡ some threes
unfolding aggregate is_refused is_mixed is_ascending group_by join bucket_key summarise one_bucket
    bucket_start next_bucket_start fixed_start same_name same_timeframe
aggregated = refl

aggregate-Summaries_example :
    (bs : List Bucket) × (flatten bs ≡ four_minutes)
    × Keyed (bucket_key calendar AssetClass.metal 20400 Timeframe.m3) bs
    × Apart bs
    × Summaries threes.0 bs
aggregate-Summaries_example =
    aggregate-Summaries calendar AssetClass.metal 20400 Timeframe.m1 Timeframe.m3 four_minutes
      threes aggregated

abbrev day : ℕ → ℕ → ℕ → Candle
day t high low = record {
  symbol = xauusd;
  timeframe = Timeframe.d1;
  open_time = t;
  close_time = t + 86400;
  opening = pos low;
  high = pos high;
  low = pos low;
  close = pos high;
  volume = none;
  source = xauusd;
  is_closed = true;
  data_quality = DataQuality.current;
}

-- The trading days that begin on a Sunday and on a Monday at 17:00.
abbrev two_days : List Candle
two_days = day 338400 12 8 ∷ day 424800 14 9 ∷ []

day-Advances : Advances calendar Timeframe.d1
unfolding next_bucket_start bucket_start trading_day_start
day-Advances t = (_, refl, ground arith)

week-Advances : Advances calendar Timeframe.w1
unfolding next_bucket_start bucket_start trading_week_start trading_day_start
week-Advances t = (_, refl, ground arith)

days_accepted : is_refused Timeframe.d1 (day 338400 12 8) (day 424800 14 9 ∷ []) ≡ false
unfolding is_refused is_mixed is_ascending same_name same_timeframe
days_accepted = refl

aggregate_weekly-total_example :
    (r : Aggregates) × (aggregate_weekly calendar AssetClass.metal 500000 two_days ≡ some r)
    × (bs : List Bucket) × (flatten bs ≡ two_days)
    × Keyed (week_key calendar AssetClass.metal) bs
    × Apart bs
    × Summaries r.0 bs
aggregate_weekly-total_example =
    aggregate_weekly-total calendar AssetClass.metal 500000 (day 338400 12 8) (day 424800 14 9 ∷ [])
      day-Advances week-Advances days_accepted
