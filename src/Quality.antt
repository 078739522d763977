-- ===== src/Quality.antt =====
-- Data-quality classification: services/data_quality/quality.py. Ages and limits are in seconds.
pub mod Classes
pub mod Missed
pub mod Series
mod Tests
use ict_trading_claude.Prelude.{
  ℕ, zero, suc, ◌+◌, ◌-◌, ◌*◌, Bool, true, false, Option, none, some, List, [], ◌∷◌, map, length,
  filter, last?, ltb, leb, if◌then◌else◌,
}
use ict_trading_claude.Prelude.Int.{ℤ, pos, ◌-ℤ◌, ltb_ℤ, leb_ℤ}
use ict_trading_claude.Domain.Enums.{AssetClass, DataQuality, is_engine_supported}
use ict_trading_claude.Domain.Candle.{Candle, ValidationIssue, has_errors}
use ict_trading_claude.Hours.{Calendar}
use ict_trading_claude.Timeframes.{expected_slots}

-- data_quality.json, as far as this file reads it.
pub record QuoteAge : Type 0 where
  pub live_max : ℕ
  pub current_max : ℕ
  pub delayed_max : ℕ

pub record CandleLag : Type 0 where
  pub grace : ℕ
  pub current_max_missing : ℕ
  pub delayed_max_missing : ℕ

-- `QUALITY_ORDER.index`: the best quality first.
unfoldable pub quality_index : DataQuality → ℕ
quality_index DataQuality.live = 0
quality_index DataQuality.current = 1
quality_index DataQuality.delayed = 2
quality_index DataQuality.stale = 3
quality_index DataQuality.disconnected = 4
quality_index DataQuality.invalid = 5

-- `q in USABLE_QUALITIES`.
unfoldable pub is_usable : DataQuality → Bool
is_usable DataQuality.live = true
is_usable DataQuality.current = true
is_usable DataQuality.delayed = true
is_usable _ = false

unfoldable pub worse_of : DataQuality → DataQuality → DataQuality
worse_of q r = if ltb (quality_index q) (quality_index r) then r else q

-- `max(items, key=QUALITY_ORDER.index)`: the first of the greatest.
unfoldable pub max_quality : DataQuality → List DataQuality → DataQuality
max_quality q [] = q
max_quality q (r ∷ rs) = max_quality (worse_of q r) rs

unfoldable pub worst_quality : List DataQuality → DataQuality
worst_quality [] = DataQuality.invalid
worst_quality (q ∷ qs) = max_quality q qs

abbrev pub classify_age : QuoteAge → ℤ → DataQuality
classify_age cfg age =
    if ltb_ℤ age (pos 0 -ℤ pos cfg.live_max)
    then DataQuality.invalid
    else if leb_ℤ age (pos cfg.live_max)
    then DataQuality.live
    else if leb_ℤ age (pos cfg.current_max)
    then DataQuality.current
    else if leb_ℤ age (pos cfg.delayed_max)
    then DataQuality.delayed
    else DataQuality.stale

unfoldable pub classify_quote_age : QuoteAge → ℕ → ℕ → DataQuality
classify_quote_age cfg timestamp now = classify_age cfg (pos now -ℤ pos timestamp)

abbrev pub count_of : Option (List ℕ) → Option ℕ
count_of none = none
count_of (some ss) = some (length ss)

-- `none` is a walk over the slots that does not end.
unfoldable pub missing_bars_since : Calendar → CandleLag → Candle → AssetClass → ℕ → ℕ → Option ℕ
missing_bars_since cal cfg last_closed asset now limit =
    if is_engine_supported last_closed.timeframe
    then count_of (
        expected_slots cal asset last_closed.timeframe last_closed.open_time (now - cfg.grace)
          (some limit))
    else some limit

unfoldable pub closed_of : List Candle → List Candle
closed_of = filter (λ c. c.is_closed)

abbrev pub class_of_missing : CandleLag → ℕ → DataQuality
class_of_missing cfg missing =
    if leb missing cfg.current_max_missing
    then DataQuality.current
    else if leb missing cfg.delayed_max_missing
    then DataQuality.delayed
    else DataQuality.stale

abbrev pub class_of_lag : CandleLag → Option ℕ → Option DataQuality
class_of_lag cfg none = none
class_of_lag cfg (some missing) = some (class_of_missing cfg missing)

abbrev pub class_of_last :
    Calendar → CandleLag → AssetClass → ℕ → Option Candle → Option DataQuality
class_of_last cal cfg asset now none = some DataQuality.invalid
class_of_last cal cfg asset now (some c) =
    class_of_lag cfg (missing_bars_since cal cfg c asset now (cfg.delayed_max_missing + 1))

unfoldable pub classify_candle_series :
    Calendar → CandleLag → List Candle → List ValidationIssue → AssetClass → ℕ → Option DataQuality
classify_candle_series cal cfg candles issues asset now =
    if has_errors issues
    then some DataQuality.invalid
    else class_of_last cal cfg asset now (last? (closed_of candles))
