-- ===== src/Timeframes.antt =====
-- Timeframe buckets: services/timeframes/core.py. `none` is an UnsupportedTimeframeError.
pub mod Buckets
pub mod Slots
mod Tests
use ict_trading_claude.Prelude.{
  ℕ, zero, suc, ◌+◌, ◌-◌, ◌*◌, ◌/◌, ◌%◌, Bool, true, false, Option, none, some, List, [], ◌∷◌,
  length, leb, ◌==◌, if◌then◌else◌, ◌||◌,
}
use ict_trading_claude.Domain.Enums.{AssetClass, Timeframe, duration, is_fixed_intraday}
use ict_trading_claude.Hours.{Calendar, date, time, combine, weekday, is_market_open}

-- 17:00.
abbrev pub trading_day_roll : ℕ
trading_day_roll = 61200

unfoldable pub trading_day_start : Calendar → ℕ → ℕ
trading_day_start cal instant =
    let local = cal.zone.to_local instant in
    let roll_date = if leb trading_day_roll (time local) then date local else date local - 1 in
    cal.zone.to_utc (combine roll_date trading_day_roll)

-- `(day_local.weekday() - 6) % 7` days back.
unfoldable pub trading_week_start : Calendar → ℕ → ℕ
trading_week_start cal instant =
    let day_local = cal.zone.to_local (trading_day_start cal instant) in
    let days_since_sunday = (weekday day_local + 1) % 7 in
    cal.zone.to_utc (combine (date day_local - days_since_sunday) trading_day_roll)

-- Whole steps of New York wall time since the roll.
unfoldable pub quarter_start : Calendar → ℕ → ℕ
quarter_start cal instant =
    let local_day_start = cal.zone.to_local (trading_day_start cal instant) in
    let steps = (cal.zone.to_local instant - local_day_start) / 14400 in
    cal.zone.to_utc (local_day_start + steps * 14400)

-- The start of a bucket of a fixed duration, counted from the epoch.
unfoldable pub fixed_start : ℕ → ℕ → ℕ
fixed_start d instant = (instant / d) * d

unfoldable pub bucket_start : Calendar → Timeframe → ℕ → Option ℕ
bucket_start cal Timeframe.mn1 instant = none
bucket_start cal Timeframe.w1 instant = some (trading_week_start cal instant)
bucket_start cal Timeframe.d1 instant = some (trading_day_start cal instant)
bucket_start cal Timeframe.h4 instant = some (quarter_start cal instant)
bucket_start cal Timeframe.m1 instant = some (fixed_start 60 instant)
bucket_start cal Timeframe.m3 instant = some (fixed_start 180 instant)
bucket_start cal Timeframe.m5 instant = some (fixed_start 300 instant)
bucket_start cal Timeframe.m15 instant = some (fixed_start 900 instant)
bucket_start cal Timeframe.m30 instant = some (fixed_start 1800 instant)
bucket_start cal Timeframe.h1 instant = some (fixed_start 3600 instant)

-- `start + duration`, on the UTC clock for a fixed timeframe and on the New York clock otherwise.
unfoldable pub next_bucket_start : Calendar → Timeframe → ℕ → Option ℕ
next_bucket_start cal tf start = elim (duration tf) [
  | none ↦ none
  | some d ↦
      if is_fixed_intraday tf
      then some (start + d)
      else bucket_start cal tf (cal.zone.to_utc (cal.zone.to_local start + d))
]

abbrev pub starts_at : ℕ → Option ℕ → Bool
starts_at t none = false
starts_at t (some b) = b == t

unfoldable pub is_aligned : Calendar → Timeframe → ℕ → Bool
is_aligned cal tf open_time = starts_at open_time (bucket_start cal tf open_time)

-- `any(is_market_open(... start + h hours) for h in range(hours))`.
unfoldable pub open_within : Calendar → AssetClass → ℕ → ℕ → Bool
open_within cal asset zero start = false
open_within cal asset (suc h) start =
    is_market_open cal asset start || open_within cal asset h (start + 3600)

unfoldable pub bucket_has_open_market : Calendar → AssetClass → Timeframe → ℕ → Bool
bucket_has_open_market cal asset tf start =
    if is_fixed_intraday tf
    then is_market_open cal asset start
    else elim (duration tf) [ some d ↦ open_within cal asset (d / 3600) start | none ↦ false ]

-- `cursor + timeframe.duration <= until`.
unfoldable pub over_by : ℕ → ℕ → ℕ → Bool
over_by d until cursor = leb (cursor + d) until

unfoldable pub limit_reached : Option ℕ → ℕ → Bool
limit_reached none yielded = false
limit_reached (some limit) yielded = leb limit yielded

abbrev pub cons_some : ℕ → Option (List ℕ) → Option (List ℕ)
cons_some s none = none
cons_some s (some rest) = some (s ∷ rest)

abbrev pub follow : Option ℕ → (ℕ → Option (List ℕ)) → Option (List ℕ)
follow none go = none
follow (some next) go = go next

-- One round: whether the bucket at the cursor is over, has an open market, and reaches the limit.
abbrev pub visit : Bool → Bool → Bool → ℕ → ℕ → (ℕ → Option (List ℕ)) → Option (List ℕ)
visit false opens reached cursor yielded advance = some []
visit true false reached cursor yielded advance = advance yielded
visit true true true cursor yielded advance = some (cursor ∷ [])
visit true true false cursor yielded advance = cons_some cursor (advance (yielded + 1))

module _ (cal : Calendar) (asset : AssetClass) (tf : Timeframe) (d until : ℕ)
    (limit : Option ℕ) where
  -- The loop on fuel: `none` when it runs out.
  unfoldable pub slots : ℕ → ℕ → ℕ → Option (List ℕ)
  slots zero yielded cursor = none
  slots (suc n) yielded cursor =
      visit (over_by d until cursor) (bucket_has_open_market cal asset tf cursor)
        (limit_reached limit (yielded + 1)) cursor yielded
        (λ y. follow (next_bucket_start cal tf cursor) (λ next. slots n y next))

-- The fuel is more than the number of instants up to `until`.
unfoldable pub expected_slots :
    Calendar → AssetClass → Timeframe → ℕ → ℕ → Option ℕ → Option (List ℕ)
expected_slots cal asset tf after_open_time until limit = follow (duration tf) (λ d.
    follow (next_bucket_start cal tf after_open_time)
      (λ cursor. slots cal asset tf d until limit (until + 2) 0 cursor))
