-- ===== src/Risk/Tests.antt =====
-- The risk engine at a concrete account.
use ict_trading_claude.Prelude.{ℕ, ◌*◌, ◌≡◌, refl, true, Option, none, some, [], ◌∷◌, arith}
use ict_trading_claude.Prelude.Int.{pos, negsuc, scale, max_ℤ, ◌-ℤ◌}
use ict_trading_claude.Prelude.Round.{round_ℤ, round_ℕ, rounds_up}
use ict_trading_claude.Domain.Enums.{AssetClass, Direction, RiskStatus}
use ict_trading_claude.Domain.Decision.{Instrument, InstrumentSpec}
use ict_trading_claude.Domain.Candle.{Name}
use ict_trading_claude.Facts.{id_eq}
use ict_trading_claude.Risk.{
  RiskLimits, RiskConfig, AccountProfile, AccountState, PropRules, PositionSize, RiskAssessment,
  standard, resolve_limits, ratio_over, exceeds, share_less, balance_before, open_risk_of,
  per_trade, daily_remaining, weekly_remaining, open_remaining, prop_daily, prop_total, fraction_lt,
  smaller, smallest, further_caps, effective, is_used_up, money, budget_locks, is_reduced,
  budget_warnings, budget_of,
}
use ict_trading_claude.Risk.Sizing.{
  rate_of, fresh_rate, conversion_factor, spec_consistent, floor_to_step, risk_per_volume,
  volume_for, size_with, size_if, has_valid_stop, position,
}
use ict_trading_claude.Risk.Assess as Assess
use ict_trading_claude.Risk.Assess.{
  RiskRequest, adds_to_loser, is_unverified, assessed_status, blockers_of, without, first_ones,
  assess_with, assess,
}
use ict_trading_claude.Risk.Limits.{IsWithin, assess-IsWithin}
use ict_trading_claude.Risk.Losses.{IsAtMost, lost, lost_in, caps-IsAtMost}
use ict_trading_claude.Samples.{xauusd}

abbrev usd : Name
usd = b'U' ∷ b'S' ∷ b'D' ∷ []

abbrev gold : Instrument
gold = record {
  symbol = xauusd;
  asset_class = AssetClass.metal;
  base = b'X' ∷ b'A' ∷ b'U' ∷ [];
  quote = usd;
  price_precision = 2;
  priority = 1;
  deeply_validated = true;
  spec = none;
}

abbrev registry : Name → Option Instrument
registry symbol = some gold

abbrev limits : ℕ → RiskLimits
limits k = record {
  risk_per_trade_pct = record { num = k; den = 2 };
  daily_risk_limit_pct = record { num = 2 * k; den = 1 };
  weekly_risk_limit_pct = record { num = 4 * k; den = 1 };
  max_open_risk_pct = record { num = k; den = 1 };
  max_trades_per_day = 3;
  max_positions = 2;
  max_consecutive_losses = 3;
}

abbrev config : RiskConfig
config = record {
  conservative_limits = limits 1;
  standard_limits = limits 1;
  aggressive_limits = limits 2;
  hard_limits = limits 2;
  atr_period = 14;
  baseline_bars = 96;
  volatility_lock_ratio = record { num = 3; den = 1 };
  max_spread_to_stop_pct = record { num = 20; den = 1 };
  spec_tolerance_pct = record { num = 1; den = 1 };
  conversion_max_age = 86400;
}

abbrev prop_rules : PropRules
prop_rules = record {
  starting_balance = 10000000000000;
  max_daily_drawdown_pct = record { num = 5; den = 1 };
  max_total_drawdown_pct = record { num = 10; den = 1 };
}

abbrev account : AccountProfile
account = record {
  balance = 10000000000000;
  currency = usd;
  profile = standard;
  leverage = some (record { num = 100; den = 1 });
  prop_rules = some prop_rules;
}

-- Twenty lost today.
abbrev sample_state : AccountState
sample_state = record {
  trading_day = 1;
  realized_pnl_today = negsuc 19999999999;
  realized_pnl_week = pos 0;
  trades_today = 1;
  consecutive_losses = 1;
  open_positions = [];
}

abbrev gold_spec : InstrumentSpec
gold_spec = record {
  symbol = xauusd;
  contract_size = 100000;
  tick_size = 10000;
  tick_value = 1000000000;
  min_volume = 10000;
  volume_step = 10000;
  quote_currency = usd;
  typical_spread = some 200000;
  platform_pip_size = none;
}

abbrev request : RiskRequest
request = record {
  symbol = xauusd;
  now = 0;
  account = account;
  account_state = some sample_state;
  spec = some gold_spec;
  spec_verified = true;
  rates = [];
  trade = some (record { direction = Direction.bullish; entry = 2000000000; stop = 1990000000 });
  candles = none;
  trading_day = 1;
}

abbrev assessment_of : Option RiskAssessment → RiskAssessment
assessment_of none = Assess.not_assessed RiskStatus.unavailable
assessment_of (some a) = a

abbrev assessment : RiskAssessment
assessment = assessment_of (assess registry config request)

abbrev volume_of : Option PositionSize → Option ℕ
volume_of none = none
volume_of (some p) = p.volume

-- Fifty may be lost: at 10.2 from the entry that is 0.04 of a contract.
assess-volume :
    (assess registry config request ≡ some assessment)
    × (assessment.status ≡ RiskStatus.within_limits)
    × (volume_of assessment.position ≡ some 40000)
unfolding resolve_limits ratio_over exceeds share_less balance_before open_risk_of per_trade
    daily_remaining weekly_remaining open_remaining prop_daily prop_total fraction_lt smaller
    smallest further_caps effective is_used_up money budget_locks is_reduced budget_warnings
    budget_of rate_of fresh_rate conversion_factor spec_consistent floor_to_step risk_per_volume
    volume_for size_with size_if has_valid_stop position adds_to_loser is_unverified assessed_status
    blockers_of without first_ones assess_with assess round_ℤ round_ℕ rounds_up scale max_ℤ ◌-ℤ◌
    id_eq
assess-volume = (refl, refl, refl)

-- A budget that rounds to no cent: the assessment is within the limits, with no volume.
abbrev small_request : RiskRequest
small_request = record request {
  account = record {
    balance = 900000000;
    currency = usd;
    profile = standard;
    leverage = none;
    prop_rules = none;
  };
  account_state = none;
}

assess-no_volume :
    ((assessment_of (assess registry config small_request)).status ≡ RiskStatus.within_limits)
    × (volume_of (assessment_of (assess registry config small_request)).position ≡ none)
unfolding resolve_limits ratio_over exceeds share_less balance_before open_risk_of per_trade
    daily_remaining weekly_remaining open_remaining prop_daily prop_total fraction_lt smaller
    smallest further_caps effective is_used_up money budget_locks is_reduced budget_warnings
    budget_of rate_of fresh_rate conversion_factor spec_consistent floor_to_step risk_per_volume
    volume_for size_with size_if has_valid_stop position adds_to_loser is_unverified assessed_status
    blockers_of without first_ones assess_with assess round_ℤ round_ℕ rounds_up scale max_ℤ ◌-ℤ◌
    id_eq
assess-no_volume = (refl, refl)

assess-IsWithin_example : IsWithin config request assessment
assess-IsWithin_example =
    assess-IsWithin registry config request assessment assess-volume.0 assess-volume.1

caps-IsAtMost_example :
    IsAtMost (per_trade (lost account 5) (limits 1)) (per_trade account (limits 1))
    × IsAtMost
        (daily_remaining (lost account 5) (some (lost_in sample_state 5)) (limits 1))
        (daily_remaining account (some sample_state) (limits 1))
    × IsAtMost
        (weekly_remaining (lost account 5) (some (lost_in sample_state 5)) (limits 1))
        (weekly_remaining account (some sample_state) (limits 1))
    × IsAtMost
        (open_remaining (lost account 5) (some (lost_in sample_state 5)) (limits 1))
        (open_remaining account (some sample_state) (limits 1))
    × IsAtMost
        (prop_daily (lost account 5) (some (lost_in sample_state 5)) prop_rules)
        (prop_daily account (some sample_state) prop_rules)
    × IsAtMost
        (prop_total (lost account 5) (some (lost_in sample_state 5)) prop_rules)
        (prop_total account (some sample_state) prop_rules)
caps-IsAtMost_example = caps-IsAtMost account sample_state (limits 1) prop_rules 5 (omega arith)
