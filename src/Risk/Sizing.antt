-- ===== src/Risk/Sizing.antt =====
-- `conversion_factor`, `spec_consistent`, `floor_to_step` and `_position` of services/risk/engine.py.
use ict_trading_claude.Prelude.{
  ℕ, ◌+◌, ◌-◌, ◌*◌, ◌/◌, Bool, true, false, not, ◌&&◌, Option, none, some, List, [], ◌∷◌, ◌++◌, ltb,
  leb, if◌then◌else◌,
}
use ict_trading_claude.Prelude.Int.{pos, pos_part}
use ict_trading_claude.Domain.Enums.{Direction, PositionSizeStatus, RiskLock, RiskWarning}
use ict_trading_claude.Domain.Decision.{InstrumentSpec}
use ict_trading_claude.Domain.Candle.{Name}
use ict_trading_claude.Entry.{Ratio}
use ict_trading_claude.Structure.Swings.{Fraction}
use ict_trading_claude.Facts.{id_eq}
use ict_trading_claude.Risk.Models.{
  RiskConfig, AccountProfile, ConversionRate, TradeInput, PositionSize,
}
use ict_trading_claude.Risk.Budget.{lock_if}

abbrev pub dist : ℕ → ℕ → ℕ
dist a b = (a - b) + (b - a)

-- The rate of one entry, when it is fresh and of the two currencies.
unfoldable pub rate_of : Name → Name → ℕ → ℕ → ConversionRate → Option Ratio
rate_of quote currency now max_age r =
    if not (leb r.as_of now && leb (now - r.as_of) max_age)
    then none
    else if id_eq r.base quote && id_eq r.quote currency
    then some r.rate
    else if id_eq r.base currency && id_eq r.quote quote
    then some (record { num = r.rate.den; den = r.rate.num })
    else none

abbrev first_some : Option Ratio → Option Ratio → Option Ratio
first_some none o = o
first_some (some r) o = some r

unfoldable pub fresh_rate : Name → Name → ℕ → ℕ → List ConversionRate → Option Ratio
fresh_rate quote currency now max_age [] = none
fresh_rate quote currency now max_age (r ∷ rs) =
    first_some (rate_of quote currency now max_age r) (fresh_rate quote currency now max_age rs)

unfoldable pub conversion_factor : Name → Name → List ConversionRate → ℕ → ℕ → Option Ratio
conversion_factor quote currency rates now max_age =
    if id_eq quote currency
    then some (record { num = 1; den = 1 })
    else fresh_rate quote currency now max_age rates

-- `abs(tick_value - expected) <= expected * tolerance / 100`.
unfoldable pub spec_consistent : InstrumentSpec → Ratio → Bool
spec_consistent spec tolerance =
    let expected = spec.contract_size * spec.tick_size in
    leb (dist spec.tick_value expected * (100 * tolerance.den)) (expected * tolerance.num)

-- `floor_to_step(num / den, step)`.
unfoldable pub floor_to_step : ℕ → ℕ → ℕ → ℕ
floor_to_step num den step = num / (den * step) * step

-- The result of `_position`.
pub record Sized : Type 0 where
  pub position : PositionSize
  pub size_status : Option PositionSizeStatus
  pub locks : List RiskLock
  pub warnings : List RiskWarning

abbrev pub unsized : PositionSize
unsized = record { risk_per_volume = none; volume = none }

abbrev pub spread_or_zero : Option ℕ → ℕ
spread_or_zero none = 0
spread_or_zero (some s) = s

-- `(distance + spread) / tick_size x tick_value x conversion`.
unfoldable pub risk_per_volume : TradeInput → InstrumentSpec → Ratio → Fraction
risk_per_volume t spec conversion = record {
  num = pos (
      (dist t.entry t.stop + spread_or_zero spec.typical_spread)
      * spec.tick_value
      * conversion.num);
  den = spec.tick_size * conversion.den;
}

-- The volume for an amount of money: the volume counts millionths.
unfoldable pub volume_for : ℕ → Fraction → ℕ → ℕ
volume_for amount per_volume step =
    floor_to_step (amount * 1000000 * per_volume.den) (pos_part per_volume.num) step

abbrev pub spread_locks : Option ℕ → ℕ → Ratio → List RiskLock
spread_locks none distance limit = []
spread_locks (some s) distance limit =
    lock_if (ltb (limit.num * distance) (s * 100 * limit.den)) RiskLock.unsafe_spread

abbrev pub spread_warnings : Option ℕ → List RiskWarning
spread_warnings none = RiskWarning.spread_unknown ∷ []
spread_warnings (some s) = []

abbrev pub warn_if : Bool → RiskWarning → List RiskWarning
warn_if true w = w ∷ []
warn_if false w = []

-- The margin against the balance.
abbrev pub margin_locks :
    ℕ → InstrumentSpec → TradeInput → Ratio → AccountProfile → Option Ratio → List RiskLock
margin_locks volume spec t conversion account none = []
margin_locks volume spec t conversion account (some leverage) =
    lock_if
      (ltb (account.balance * 1000000 * conversion.den * leverage.num)
        (volume * spec.contract_size * t.entry * conversion.num * leverage.den))
      RiskLock.insufficient_margin

abbrev pub leverage_warnings : Option Ratio → List RiskWarning
leverage_warnings none = RiskWarning.leverage_not_set ∷ []
leverage_warnings (some l) = []

-- The end of `_position`, for a budget and a volume.
unfoldable pub size_with :
    TradeInput
    → InstrumentSpec
    → Ratio
    → AccountProfile
    → PositionSizeStatus
    → List RiskLock
    → List RiskWarning
    → ℕ
    → ℕ
    → Sized
size_with t spec conversion account status locks warnings amount volume =
    let per_volume = risk_per_volume t spec conversion in
    if leb amount 1
    then record {
      position = record { risk_per_volume = some per_volume; volume = none };
      size_status = some status;
      locks = locks;
      warnings = warnings;
    }
    else if ltb volume spec.min_volume
    then record {
      position = record { risk_per_volume = some per_volume; volume = none };
      size_status = some status;
      locks = locks ++ (RiskLock.below_min_volume ∷ []);
      warnings = warnings;
    }
    else record {
      position = record { risk_per_volume = some per_volume; volume = some volume };
      size_status = some status;
      locks = locks ++ margin_locks volume spec t conversion account account.leverage;
      warnings = warnings ++ leverage_warnings account.leverage;
    }

abbrev pub verified_status : Bool → PositionSizeStatus
verified_status true = PositionSizeStatus.verified
verified_status false = PositionSizeStatus.sized_from_user_spec

abbrev pub no_conversion : Option Ratio → List RiskWarning
no_conversion none = RiskWarning.conversion_unavailable ∷ []
no_conversion (some r) = []

abbrev pub unverified : List RiskLock → List RiskWarning → Sized
unverified locks warnings = record {
  position = unsized;
  size_status = some PositionSizeStatus.position_size_unverified;
  locks = locks;
  warnings = warnings;
}

-- The size, where nothing is wrong with the contract spec and the conversion.
unfoldable pub size_if :
    Bool
    → Option Ratio
    → TradeInput
    → InstrumentSpec
    → Bool
    → AccountProfile
    → List RiskLock
    → List RiskWarning
    → ℕ
    → Sized
size_if true (some conversion) t spec spec_verified account locks warnings amount =
    size_with t spec conversion account (verified_status spec_verified) locks warnings amount
      (volume_for amount (risk_per_volume t spec conversion) spec.volume_step)
size_if _ _ t spec spec_verified account locks warnings amount = unverified locks warnings

-- A stop on the losing side has a distance above `EPS`.
unfoldable pub has_valid_stop : TradeInput → Bool
has_valid_stop t = elim t.direction [
  | Direction.bullish ↦ ltb t.stop t.entry
  | Direction.bearish ↦ ltb t.entry t.stop
]

abbrev pub with_spec :
    TradeInput
    → Option InstrumentSpec
    → Bool
    → Option Ratio
    → AccountProfile
    → ℕ
    → RiskConfig
    → Sized
with_spec t none spec_verified conversion account amount cfg = unverified [] []
with_spec t (some spec) spec_verified conversion account amount cfg =
    size_if (spec_consistent spec cfg.spec_tolerance_pct) conversion t spec spec_verified account
      (spread_locks spec.typical_spread (dist t.entry t.stop) cfg.max_spread_to_stop_pct)
      (spread_warnings spec.typical_spread
        ++ warn_if (not spec_verified) RiskWarning.user_supplied_spec
        ++ warn_if (not (spec_consistent spec cfg.spec_tolerance_pct)) RiskWarning.spec_inconsistent
        ++ no_conversion conversion)
      amount

-- `_position`, for the effective amount of the budget.
unfoldable pub position :
    TradeInput
    → Option InstrumentSpec
    → Bool
    → Option Ratio
    → AccountProfile
    → ℕ
    → RiskConfig
    → Sized
position t spec spec_verified conversion account amount cfg =
    if has_valid_stop t
    then with_spec t spec spec_verified conversion account amount cfg
    else record {
      position = unsized;
      size_status = none;
      locks = RiskLock.invalid_stop ∷ [];
      warnings = [];
    }
