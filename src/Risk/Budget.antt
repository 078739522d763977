-- ===== src/Risk/Budget.antt =====
-- `resolve_limits`, `exceeds` and `budget_and_locks` of services/risk/engine.py and models.py.
use ict_trading_claude.Prelude.{
  ℕ, ◌+◌, ◌-◌, ◌*◌, Bool, true, false, not, ◌&&◌, ◌||◌, Option, none, some, List, [], ◌∷◌, ◌++◌,
  length, ltb, leb, ◌==◌, if◌then◌else◌,
}
use ict_trading_claude.Prelude.Int.{ℤ, pos, pos_part, neg_part, ◌-ℤ◌, ltb_ℤ, leb_ℤ, max_ℤ, scale}
use ict_trading_claude.Prelude.Round.{round_ℤ}
use ict_trading_claude.Domain.Enums.{RiskLock, RiskWarning}
use ict_trading_claude.Entry.{Ratio}
use ict_trading_claude.Structure.Swings.{Fraction}
use ict_trading_claude.Risk.Models.{
  RiskLimits, conservative, standard, aggressive, custom, RiskConfig, PropRules, AccountProfile,
  OpenPosition, AccountState, RiskBudget,
}

unfoldable pub resolve_limits : AccountProfile → RiskConfig → RiskLimits
resolve_limits account cfg = elim account.profile [
  | custom limits ↦ limits
  | conservative ↦ cfg.conservative_limits
  | standard ↦ cfg.standard_limits
  | aggressive ↦ cfg.aggressive_limits
]

unfoldable pub ratio_over : Ratio → Ratio → Bool
ratio_over a b = ltb (b.num * a.den) (a.num * b.den)

-- `limits.exceeds(cap)` is not empty.
unfoldable pub exceeds : RiskLimits → RiskLimits → Bool
exceeds l cap =
    ratio_over l.risk_per_trade_pct cap.risk_per_trade_pct
    || ratio_over l.daily_risk_limit_pct cap.daily_risk_limit_pct
    || ratio_over l.weekly_risk_limit_pct cap.weekly_risk_limit_pct
    || ratio_over l.max_open_risk_pct cap.max_open_risk_pct
    || ltb cap.max_trades_per_day l.max_trades_per_day
    || ltb cap.max_positions l.max_positions
    || ltb cap.max_consecutive_losses l.max_consecutive_losses

-- `amount x pct / 100 - spent`.
unfoldable pub share_less : ℕ → Ratio → ℕ → Fraction
share_less amount pct spent = record {
  num = pos (amount * pct.num) -ℤ pos (spent * (100 * pct.den));
  den = 100 * pct.den;
}

-- `max(0, b - pnl)` and `max(0, -pnl)`.
unfoldable pub balance_before : ℕ → ℤ → ℕ
balance_before b pnl = b + neg_part pnl - pos_part pnl

abbrev pub loss_of : ℤ → ℕ
loss_of pnl = neg_part pnl

unfoldable pub open_risk_of : List OpenPosition → ℕ
open_risk_of [] = 0
open_risk_of (p ∷ ps) = p.risk_amount + open_risk_of ps

-- What is read of a state that may be missing.
abbrev pub pnl_today : Option AccountState → ℤ
pnl_today none = pos 0
pnl_today (some s) = s.realized_pnl_today

abbrev pub pnl_week : Option AccountState → ℤ
pnl_week none = pos 0
pnl_week (some s) = s.realized_pnl_week

abbrev pub positions_of : Option AccountState → List OpenPosition
positions_of none = []
positions_of (some s) = s.open_positions

unfoldable pub per_trade : AccountProfile → RiskLimits → Fraction
per_trade a l = share_less a.balance l.risk_per_trade_pct 0

unfoldable pub daily_remaining : AccountProfile → Option AccountState → RiskLimits → Fraction
daily_remaining a s l =
    share_less (balance_before a.balance (pnl_today s)) l.daily_risk_limit_pct
      (loss_of (pnl_today s) + open_risk_of (positions_of s))

unfoldable pub weekly_remaining : AccountProfile → Option AccountState → RiskLimits → Fraction
weekly_remaining a s l =
    share_less (balance_before a.balance (pnl_week s)) l.weekly_risk_limit_pct
      (loss_of (pnl_week s) + open_risk_of (positions_of s))

unfoldable pub open_remaining : AccountProfile → Option AccountState → RiskLimits → Fraction
open_remaining a s l = share_less a.balance l.max_open_risk_pct (open_risk_of (positions_of s))

unfoldable pub prop_daily : AccountProfile → Option AccountState → PropRules → Fraction
prop_daily a s prop =
    share_less (balance_before a.balance (pnl_today s)) prop.max_daily_drawdown_pct
      (loss_of (pnl_today s) + open_risk_of (positions_of s))

-- `b - start x (1 - pct / 100) - openRisk`, for a percentage of at most 100.
unfoldable pub prop_total : AccountProfile → Option AccountState → PropRules → Fraction
prop_total a s prop =
    let pct = prop.max_total_drawdown_pct in
    record {
      num =
          pos (a.balance * (100 * pct.den))
          -ℤ pos (
              prop.starting_balance * (100 * pct.den - pct.num)
              + open_risk_of (positions_of s) * (100 * pct.den));
      den = 100 * pct.den;
    }

unfoldable pub fraction_lt : Fraction → Fraction → Bool
fraction_lt x y = ltb_ℤ (scale x.num y.den) (scale y.num x.den)

-- `min(a, b)`.
unfoldable pub smaller : Fraction → Fraction → Fraction
smaller x y = if fraction_lt y x then y else x

unfoldable pub smallest : Fraction → List Fraction → Fraction
smallest x [] = x
smallest x (y ∷ ys) = smallest (smaller x y) ys

abbrev pub prop_caps : AccountProfile → Option AccountState → Option PropRules → List Fraction
prop_caps a s none = []
prop_caps a s (some prop) = smaller (prop_daily a s prop) (prop_total a s prop) ∷ []

-- `caps`, after the first.
unfoldable pub further_caps : AccountProfile → Option AccountState → RiskLimits → List Fraction
further_caps a s l =
    daily_remaining a s l
    ∷ weekly_remaining a s l
    ∷ open_remaining a s l
    ∷ prop_caps a s a.prop_rules

-- `max(0.0, min(caps))`.
unfoldable pub effective : AccountProfile → Option AccountState → RiskLimits → Fraction
effective a s l =
    let least = smallest (per_trade a l) (further_caps a s l) in
    record { num = max_ℤ (pos 0) least.num; den = least.den }

-- `x <= EPS`.
unfoldable pub is_used_up : Fraction → Bool
is_used_up x = leb_ℤ x.num (pos x.den)

-- `_money`: whole cents.
unfoldable pub money : Fraction → ℤ
money x = scale (round_ℤ x.num (x.den * 10000000)) 10000000

abbrev pub lock_if : Bool → RiskLock → List RiskLock
lock_if true l = l ∷ []
lock_if false l = []

abbrev pub prop_locks : AccountProfile → Option AccountState → Option PropRules → List RiskLock
prop_locks a s none = []
prop_locks a s (some prop) =
    lock_if (is_used_up (prop_daily a s prop)) RiskLock.prop_daily_drawdown
    ++ lock_if (is_used_up (prop_total a s prop)) RiskLock.prop_total_drawdown

abbrev pub state_locks : Option AccountState → RiskLimits → ℕ → List RiskLock
state_locks none l day = []
state_locks (some s) l day =
    lock_if (not (s.trading_day == day)) RiskLock.account_state_stale
    ++ lock_if (leb l.max_positions (length s.open_positions)) RiskLock.max_positions
    ++ lock_if (leb l.max_trades_per_day s.trades_today) RiskLock.max_trades_per_day
    ++ lock_if (leb l.max_consecutive_losses s.consecutive_losses) RiskLock.consecutive_losses

-- The locks of `budget_and_locks`.
unfoldable pub budget_locks : AccountProfile → Option AccountState → RiskLimits → ℕ → List RiskLock
budget_locks a s l day =
    prop_locks a s a.prop_rules
    ++ state_locks s l day
    ++ lock_if (is_used_up (daily_remaining a s l)) RiskLock.daily_loss_limit
    ++ lock_if (is_used_up (weekly_remaining a s l)) RiskLock.weekly_loss_limit
    ++ lock_if (is_used_up (open_remaining a s l)) RiskLock.max_open_risk

abbrev pub state_warnings : Option AccountState → List RiskWarning
state_warnings none = RiskWarning.account_state_not_provided ∷ []
state_warnings (some s) = []

-- `EPS < effective < per_trade - 0.005`.
unfoldable pub is_reduced : Fraction → Fraction → Bool
is_reduced e p =
    not (is_used_up e)
    && fraction_lt e (record { num = p.num -ℤ pos (5000000 * p.den); den = p.den })

unfoldable pub budget_warnings :
    AccountProfile → Option AccountState → RiskLimits → List RiskWarning
budget_warnings a s l =
    state_warnings s
    ++ (if is_reduced (effective a s l) (per_trade a l)
        then RiskWarning.risk_reduced_by_limits ∷ []
        else [])

abbrev pub prop_remaining :
    AccountProfile → Option AccountState → Option PropRules → Option Fraction
prop_remaining a s none = none
prop_remaining a s (some prop) = some (smaller (prop_daily a s prop) (prop_total a s prop))

unfoldable pub budget_of : AccountProfile → Option AccountState → RiskLimits → RiskBudget
budget_of a s l = record {
  risk_per_trade = per_trade a l;
  daily_remaining = daily_remaining a s l;
  weekly_remaining = weekly_remaining a s l;
  open_risk = open_risk_of (positions_of s);
  open_risk_remaining = open_remaining a s l;
  prop_remaining = prop_remaining a s a.prop_rules;
  effective_risk_amount = if is_used_up (effective a s l) then pos 0 else money (effective a s l);
}
