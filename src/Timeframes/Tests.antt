-- ===== src/Timeframes/Tests.antt =====
-- Buckets at concrete instants.
use ict_trading_claude.Prelude.{ℕ, ◌+◌, ◌*◌, ◌≡◌, refl, none, some, [], ◌∷◌}
use ict_trading_claude.Domain.Enums.{AssetClass, Timeframe, duration}
use ict_trading_claude.Hours.{is_market_open, market_status_at}
use ict_trading_claude.Timeframes.{
  bucket_start, next_bucket_start, expected_slots, slots, over_by, limit_reached,
  bucket_has_open_market, trading_day_start, trading_week_start,
}
use ict_trading_claude.Timeframes.Buckets.{IsBucket, bucket_start-IsBucket}
use ict_trading_claude.Samples.{calendar}

-- A minute that is not on a boundary of five.
bucket_start-IsBucket_example :
    (d : ℕ) × (b : ℕ) × (duration Timeframe.m5 ≡ some d)
    × (bucket_start calendar Timeframe.m5 1000 ≡ some b)
    × IsBucket (bucket_start calendar Timeframe.m5) d 1000 b
bucket_start-IsBucket_example = bucket_start-IsBucket calendar Timeframe.m5 1000 refl

-- A gap of three minutes while the market is open.
three_minutes :
    expected_slots calendar AssetClass.metal Timeframe.m1 20040 20280 none
    ≡ some (20100 ∷ 20160 ∷ 20220 ∷ [])
unfolding expected_slots next_bucket_start slots over_by limit_reached bucket_has_open_market
    is_market_open market_status_at
three_minutes = refl

-- Thursday noon in New York belongs to the day that began on Wednesday at 17:00.
trading_day : trading_day_start calendar (7 * 86400 + 61200) ≡ 6 * 86400 + 61200 + 18000
unfolding trading_day_start
trading_day = refl

-- And to the week that began on the Sunday before.
trading_week : trading_week_start calendar (7 * 86400 + 61200) ≡ 3 * 86400 + 61200 + 18000
unfolding trading_week_start trading_day_start
trading_week = refl
