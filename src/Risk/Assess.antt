-- ===== src/Risk/Assess.antt =====
-- `volatility_state`, `_exposure`, `assess` and `not_assessed` of services/risk/engine.py. The instrument
-- registry is a parameter.
use ict_trading_claude.Prelude.{
  ℕ, zero, suc, ◌+◌, ◌-◌, ◌*◌, ◌/◌, ◌%◌, Bool, true, false, not, ◌&&◌, Option, none, some, List, [],
  ◌∷◌, ◌++◌, length, filter, any, get_elem?, sort_by, ltb, ◌==◌, if◌then◌else◌,
}
use ict_trading_claude.Prelude.Int.{ℤ, pos, pos_part, ◌+ℤ◌, leb_ℤ, scale}
use ict_trading_claude.Prelude.Round.{round_ℤ}
use ict_trading_claude.Domain.Enums.{
  Direction, PositionSizeStatus, RiskLock, RiskStatus, RiskWarning, direction_eq,
}
use ict_trading_claude.Domain.Blockers.{
  Blocker, risk_locked, unsafe_spread, position_size_unverified, risk_profile_missing,
  risk_profile_invalid, risk_gate_missing,
}
use ict_trading_claude.Domain.Decision.{Instrument, InstrumentSpec}
use ict_trading_claude.Domain.Candle.{Candle, Name}
use ict_trading_claude.Entry.{Ratio}
use ict_trading_claude.Structure.Swings.{Fraction, atr_at, true_ranges}
use ict_trading_claude.Facts.{id_eq}
use ict_trading_claude.Risk.Models.{
  RiskConfig, RiskLimits, AccountProfile, AccountState, OpenPosition, ConversionRate, TradeInput,
  RiskAssessment, PositionSize,
}
use ict_trading_claude.Risk.Budget.{
  resolve_limits, exceeds, fraction_lt, budget_of, budget_locks, budget_warnings, positions_of,
  lock_if,
}
use ict_trading_claude.Risk.Sizing.{conversion_factor, position}

-- The ATR of each of the rounds from an index on.
unfoldable pub atrs_from : List ℤ → ℕ → ℕ → ℕ → List Fraction
atrs_from trs period i zero = []
atrs_from trs period i (suc rounds) = atr_at trs i period ∷ atrs_from trs period (i + 1) rounds

abbrev average : Option Fraction → Option Fraction → Option Fraction
average (some x) (some y) =
    some (record { num = scale x.num y.den +ℤ scale y.num x.den; den = 2 * (x.den * y.den) })
average _ _ = none

-- `median`: the middle value, or the mean of the two in the middle.
unfoldable pub median : List Fraction → Option Fraction
median xs =
    let sorted = sort_by (λ x y. not (fraction_lt y x)) xs in
    let n = length xs in
    if n % 2 == 1
    then get_elem? sorted (n / 2)
    else average (get_elem? sorted (n / 2 - 1)) (get_elem? sorted (n / 2))

-- `round(atr / baseline, 3) >= lock_ratio`; `none` is that there is no baseline.
abbrev ratio_reaches : Fraction → Ratio → Option Fraction → Option Bool
ratio_reaches atr limit none = none
ratio_reaches atr limit (some baseline) =
    if leb_ℤ baseline.num (pos 0)
    then none
    else some (
        leb_ℤ (pos (limit.num * 1000)) (
          scale (round_ℤ (scale atr.num (1000 * baseline.den)) (pos_part baseline.num * atr.den))
            limit.den))

-- Whether the ATR reaches the lock ratio; `none` is `volatility_state(...) is None`.
unfoldable pub volatility_locks : List Candle → RiskConfig → Option Bool
volatility_locks candles cfg =
    let closed = filter (λ c. c.is_closed) candles in
    let trs = true_ranges closed in
    let last = length closed - 1 in
    if ltb (length closed) (cfg.atr_period + cfg.baseline_bars)
    then none
    else ratio_reaches (atr_at trs last cfg.atr_period) cfg.volatility_lock_ratio
        (median (atrs_from trs cfg.atr_period (last - cfg.baseline_bars) cfg.baseline_bars))

-- A currency and whether the exposure to it is long. A later key of a dictionary replaces an equal one.
abbrev pub Exposure : Type 0
Exposure = List (Name × Bool)

abbrev is_bullish : Direction → Bool
is_bullish Direction.bullish = true
is_bullish Direction.bearish = false

abbrev pub exposure_of : Option Instrument → Direction → Exposure
exposure_of none d = []
exposure_of (some i) d =
    if id_eq i.base i.quote
    then (i.quote, not (is_bullish d)) ∷ []
    else (i.base, is_bullish d) ∷ (i.quote, not (is_bullish d)) ∷ []

abbrev bool_eq : Bool → Bool → Bool
bool_eq true b = b
bool_eq false b = not b

unfoldable pub shares_exposure : Exposure → Exposure → Bool
shares_exposure mine theirs = any (λ e. any (λ f. id_eq e.0 f.0 && bool_eq e.1 f.1) mine) theirs

abbrev pub volatility_part : Option (List Candle) → RiskConfig → List RiskLock × List RiskWarning
volatility_part none cfg = ([], RiskWarning.volatility_not_checked ∷ [])
volatility_part (some candles) cfg = elim (volatility_locks candles cfg) [
  | none ↦ ([], RiskWarning.volatility_unavailable ∷ [])
  | some reached ↦ (lock_if reached RiskLock.volatility, [])
]

-- What `assess` reads.
pub record RiskRequest : Type 0 where
  pub symbol : Name
  pub now : ℕ
  pub account : AccountProfile
  pub account_state : Option AccountState
  pub spec : Option InstrumentSpec
  pub spec_verified : Bool
  pub rates : List ConversionRate
  pub trade : Option TradeInput
  pub candles : Option (List Candle)
  pub trading_day : ℕ

-- `trade is not None`: the locks, the warnings and the size of the trade.
pub record TradePart : Type 0 where
  pub sized : Option PositionSize
  pub size_status : Option PositionSizeStatus
  pub locks : List RiskLock
  pub warnings : List RiskWarning

unfoldable pub adds_to_loser : Name → Direction → List OpenPosition → Bool
adds_to_loser symbol d ps =
    any (λ p. id_eq p.symbol symbol && direction_eq p.direction d && p.in_loss) ps

abbrev pub quote_of : Option InstrumentSpec → Instrument → Name
quote_of none i = i.quote
quote_of (some spec) i = spec.quote_currency

abbrev warn_if : Bool → RiskWarning → List RiskWarning
warn_if true w = w ∷ []
warn_if false w = []

abbrev pub trade_part :
    (Name → Option Instrument)
    → RiskConfig
    → RiskRequest
    → Instrument
    → ℕ
    → Option TradeInput
    → TradePart
trade_part get_instrument cfg r instrument amount none = record {
  sized = none;
  size_status = none;
  locks = [];
  warnings = [];
}
trade_part get_instrument cfg r instrument amount (some t) =
    let positions = positions_of r.account_state in
    let mine = exposure_of (some instrument) t.direction in
    let conversion =
      conversion_factor (quote_of r.spec instrument) r.account.currency r.rates r.now
        cfg.conversion_max_age in
    let sized = position t r.spec r.spec_verified conversion r.account amount cfg in
    record {
      sized = some sized.position;
      size_status = sized.size_status;
      locks =
          lock_if (adds_to_loser r.symbol t.direction positions) RiskLock.adding_to_loser
          ++ sized.locks;
      warnings =
          warn_if
            (any (λ p. shares_exposure mine (exposure_of (get_instrument p.symbol) p.direction))
              positions)
            RiskWarning.correlated_exposure
          ++ sized.warnings;
    }

unfoldable pub is_unverified : Option PositionSizeStatus → Bool
is_unverified (some PositionSizeStatus.position_size_unverified) = true
is_unverified _ = false

abbrev pub is_none : List RiskLock → Bool
is_none [] = true
is_none (l ∷ ls) = false

abbrev pub is_unsafe_spread : RiskLock → Bool
is_unsafe_spread RiskLock.unsafe_spread = true
is_unsafe_spread _ = false

abbrev pub is_given : Option TradeInput → Bool
is_given none = false
is_given (some t) = true

unfoldable pub assessed_status :
    List RiskLock → Option TradeInput → Option PositionSizeStatus → RiskStatus
assessed_status locks trade size_status =
    if not (is_none locks)
    then RiskStatus.locked
    else if is_given trade && is_unverified size_status
    then RiskStatus.size_unverified
    else if is_given trade
    then RiskStatus.within_limits
    else RiskStatus.clear

abbrev pub block_if : Bool → Blocker → List Blocker
block_if true b = b ∷ []
block_if false b = []

unfoldable pub blockers_of : List RiskLock → Option PositionSizeStatus → List Blocker
blockers_of locks size_status =
    block_if (not (is_none locks)) risk_locked
    ++ block_if (any is_unsafe_spread locks) unsafe_spread
    ++ block_if (is_unverified size_status) position_size_unverified

-- `not_assessed`, with `_STATUS_BLOCKER`.
abbrev status_blocker : RiskStatus → List Blocker
status_blocker RiskStatus.not_configured = risk_profile_missing ∷ []
status_blocker RiskStatus.invalid_profile = risk_profile_invalid ∷ []
status_blocker RiskStatus.unavailable = risk_gate_missing ∷ []
status_blocker _ = []

unfoldable pub not_assessed : RiskStatus → RiskAssessment
not_assessed status = record {
  status = status;
  budget = none;
  locks = [];
  warnings = RiskWarning.news_not_evaluated ∷ [];
  position = none;
  size_status = none;
  blockers = status_blocker status;
}

abbrev pub warning_index : RiskWarning → ℕ
warning_index RiskWarning.risk_reduced_by_limits = 0
warning_index RiskWarning.correlated_exposure = 1
warning_index RiskWarning.user_supplied_spec = 2
warning_index RiskWarning.spec_inconsistent = 3
warning_index RiskWarning.conversion_unavailable = 4
warning_index RiskWarning.leverage_not_set = 5
warning_index RiskWarning.spread_unknown = 6
warning_index RiskWarning.volatility_unavailable = 7
warning_index RiskWarning.volatility_not_checked = 8
warning_index RiskWarning.account_state_not_provided = 9
warning_index RiskWarning.news_not_evaluated = 10

-- `list(dict.fromkeys(warnings))`: each warning where it stands first.
unfoldable pub without : RiskWarning → List RiskWarning → List RiskWarning
without w ws = filter (λ v. not (warning_index v == warning_index w)) ws

unfoldable pub first_ones : List RiskWarning → List RiskWarning
first_ones [] = []
first_ones (w ∷ ws) = w ∷ without w (first_ones ws)

-- The assessment within the hard limits.
unfoldable pub assess_with :
    (Name → Option Instrument) → RiskConfig → RiskRequest → Instrument → RiskLimits → RiskAssessment
assess_with get_instrument cfg r instrument limits =
    let budget = budget_of r.account r.account_state limits in
    let volatility = volatility_part r.candles cfg in
    let trade =
      trade_part get_instrument cfg r instrument (pos_part budget.effective_risk_amount) r.trade in
    let locks =
      budget_locks r.account r.account_state limits r.trading_day ++ volatility.0 ++ trade.locks in
    record {
      status = assessed_status locks r.trade trade.size_status;
      budget = some budget;
      locks = locks;
      warnings = first_ones (
          budget_warnings r.account r.account_state limits
          ++ volatility.1
          ++ trade.warnings
          ++ (RiskWarning.news_not_evaluated ∷ []));
      position = trade.sized;
      size_status = trade.size_status;
      blockers = blockers_of locks trade.size_status;
    }

-- `assess`; `none` is the ValueError for an unknown symbol.
abbrev pub assess_known :
    (Name → Option Instrument)
    → RiskConfig
    → RiskRequest
    → Option Instrument
    → Option RiskAssessment
assess_known get_instrument cfg r none = none
assess_known get_instrument cfg r (some instrument) =
    if exceeds (resolve_limits r.account cfg) cfg.hard_limits
    then some (not_assessed RiskStatus.invalid_profile)
    else some (assess_with get_instrument cfg r instrument (resolve_limits r.account cfg))

unfoldable pub assess :
    (Name → Option Instrument) → RiskConfig → RiskRequest → Option RiskAssessment
assess get_instrument cfg r = assess_known get_instrument cfg r (get_instrument r.symbol)
