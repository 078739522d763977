-- ===== src/Risk/Models.antt =====
-- services/risk/models.py. Money counts billionths of the account currency, so
-- that `EPS` is one; prices and volumes count millionths. Percentages,
-- rates and leverage are ratios. The validators of the source are the types here: a CUSTOM profile
-- brings its limits.
use ict_trading_claude.Prelude.{ℕ, Bool, Option, List}
use ict_trading_claude.Prelude.Int.{ℤ}
use ict_trading_claude.Domain.Enums.{
  Direction, PositionSizeStatus, RiskLock, RiskStatus, RiskWarning,
}
use ict_trading_claude.Domain.Blockers.{Blocker}
use ict_trading_claude.Domain.Candle.{Name}
use ict_trading_claude.Entry.{Ratio}
use ict_trading_claude.Structure.Swings.{Fraction}

pub record RiskLimits : Type 0 where
  pub risk_per_trade_pct : Ratio
  pub daily_risk_limit_pct : Ratio
  pub weekly_risk_limit_pct : Ratio
  pub max_open_risk_pct : Ratio
  pub max_trades_per_day : ℕ
  pub max_positions : ℕ
  pub max_consecutive_losses : ℕ

-- `RiskProfileName`, with the limits of a CUSTOM account.
pub data RiskProfile : Type 0 where
  conservative standard aggressive : RiskProfile
  custom : RiskLimits → RiskProfile

pub record RiskConfig : Type 0 where
  pub conservative_limits : RiskLimits
  pub standard_limits : RiskLimits
  pub aggressive_limits : RiskLimits
  pub hard_limits : RiskLimits
  pub atr_period : ℕ
  pub baseline_bars : ℕ
  pub volatility_lock_ratio : Ratio
  pub max_spread_to_stop_pct : Ratio
  pub spec_tolerance_pct : Ratio
  pub conversion_max_age : ℕ

pub record PropRules : Type 0 where
  pub starting_balance : ℕ
  pub max_daily_drawdown_pct : Ratio
  pub max_total_drawdown_pct : Ratio

pub record AccountProfile : Type 0 where
  pub balance : ℕ
  pub currency : Name
  pub profile : RiskProfile
  pub leverage : Option Ratio
  pub prop_rules : Option PropRules

pub record OpenPosition : Type 0 where
  pub symbol : Name
  pub direction : Direction
  pub risk_amount : ℕ
  pub in_loss : Bool

pub record AccountState : Type 0 where
  pub trading_day : ℕ
  pub realized_pnl_today : ℤ
  pub realized_pnl_week : ℤ
  pub trades_today : ℕ
  pub consecutive_losses : ℕ
  pub open_positions : List OpenPosition

pub record ConversionRate : Type 0 where
  pub base : Name
  pub quote : Name
  pub rate : Ratio
  pub as_of : ℕ

pub record TradeInput : Type 0 where
  pub direction : Direction
  pub entry : ℕ
  pub stop : ℕ

-- The amounts are those before `_money` rounds them, but for the effective one.
pub record RiskBudget : Type 0 where
  pub risk_per_trade : Fraction
  pub daily_remaining : Fraction
  pub weekly_remaining : Fraction
  pub open_risk : ℕ
  pub open_risk_remaining : Fraction
  pub prop_remaining : Option Fraction
  pub effective_risk_amount : ℤ

-- Of `PositionSize`, the risk of one volume and the volume; the other fields are shown only.
pub record PositionSize : Type 0 where
  pub risk_per_volume : Option Fraction
  pub volume : Option ℕ

-- Of `RiskAssessment`, the fields that are not copied from the request.
pub record RiskAssessment : Type 0 where
  pub status : RiskStatus
  pub budget : Option RiskBudget
  pub locks : List RiskLock
  pub warnings : List RiskWarning
  pub position : Option PositionSize
  pub size_status : Option PositionSizeStatus
  pub blockers : List Blocker
