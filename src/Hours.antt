-- ===== src/Hours.antt =====
-- Weekly trading hours: services/data_quality/market_hours.py.
-- zoneinfo's America/New_York is a parameter of the model, the `Zone`.
use ict_trading_claude.Prelude.{
  ℕ, ◌+◌, ◌*◌, ◌/◌, ◌%◌, Bool, true, false, ◌&&◌, Option, none, some, ltb, leb, ◌==◌, if◌then◌else◌,
}
use ict_trading_claude.Domain.Enums.{AssetClass, MarketStatus}

-- `astimezone(tz)`, and `astimezone(UTC)` of a wall-clock time. A wall-clock time is the number of
-- seconds since 1970-01-01 00:00 on that clock, a date the number of days since then.
pub record Zone : Type 0 where
  pub to_local : ℕ → ℕ
  pub to_utc : ℕ → ℕ

abbrev pub date : ℕ → ℕ
date local = local / 86400

abbrev pub time : ℕ → ℕ
time local = local % 86400

-- `datetime.combine`.
abbrev pub combine : ℕ → ℕ → ℕ
combine day clock = day * 86400 + clock

-- `datetime.weekday()`: 1970-01-01 was a Thursday, and Monday is 0.
abbrev pub weekday : ℕ → ℕ
weekday local = (date local + 3) % 7

-- A dataclass; times of the day are seconds since midnight.
pub record WeeklyHours : Type 0 where
  pub open_weekday : ℕ
  pub open_time : ℕ
  pub close_weekday : ℕ
  pub close_time : ℕ
  pub break_start : Option ℕ
  pub break_end : Option ℕ

-- The zone and `weekly_hours`, which reads the committed market_hours.json.
pub record Calendar : Type 0 where
  pub zone : Zone
  pub weekly_hours : AssetClass → WeeklyHours

abbrev pub in_break : WeeklyHours → ℕ → Bool
in_break h t = elim (h.break_start) [
  | some start ↦ elim (h.break_end) [ some end ↦ leb start t && ltb t end | none ↦ false ]
  | none ↦ false
]

abbrev pub status_of : WeeklyHours → ℕ → ℕ → MarketStatus
status_of h wd t =
    if wd == 5
    then MarketStatus.closed
    else if wd == h.close_weekday && leb h.close_time t
    then MarketStatus.closed
    else if wd == h.open_weekday && ltb t h.open_time
    then MarketStatus.closed
    else if in_break h t
    then MarketStatus.daily_break
    else MarketStatus.opened

unfoldable pub market_status_at : Calendar → AssetClass → ℕ → MarketStatus
market_status_at cal asset instant =
    let local = cal.zone.to_local instant in
    status_of (cal.weekly_hours asset) (weekday local) (time local)

abbrev is_open_status : MarketStatus → Bool
is_open_status MarketStatus.opened = true
is_open_status _ = false

unfoldable pub is_market_open : Calendar → AssetClass → ℕ → Bool
is_market_open cal asset instant = is_open_status (market_status_at cal asset instant)
