-- ===== src/Risk/Losses.antt =====
-- Losses never raise a cap of services/risk/engine.py.
use ict_trading_claude.Prelude.{ℕ, ◌+◌, ◌-◌, ◌*◌, ◌≤◌, ◌≡◌, refl, some, arith}
use ict_trading_claude.Prelude.Int.{ℤ, pos, ◌≤ℤ◌, ◌-ℤ◌, -ℤ_parts}
use ict_trading_claude.Entry.{Ratio}
use ict_trading_claude.Structure.Swings.{Fraction}
use ict_trading_claude.Risk.{
  AccountProfile, AccountState, RiskLimits, PropRules, share_less, balance_before, loss_of,
  open_risk_of, per_trade, daily_remaining, weekly_remaining, open_remaining, prop_daily,
  prop_total,
}

-- An account and its state after `n` was lost on a closed trade.
abbrev pub lost : AccountProfile → ℕ → AccountProfile
lost a n = record a { balance = a.balance - n }

abbrev pub lost_in : AccountState → ℕ → AccountState
lost_in s n = record s {
  realized_pnl_today = s.realized_pnl_today -ℤ pos n;
  realized_pnl_week = s.realized_pnl_week -ℤ pos n;
}

-- The fraction on the left is at most the one on the right, of the same denominator.
abbrev pub IsAtMost : Fraction → Fraction → Type 0
IsAtMost x y = (x.den ≡ y.den) × (x.num ≤ℤ y.num)

mul_le : (a b k : ℕ) → a ≤ b → a * k ≤ b * k
mul_le a b k h = grind arith

share_less-IsAtMost :
    (a b : ℕ) (pct : Ratio) (s t : ℕ)
    → a ≤ b
    → t ≤ s
    → IsAtMost (share_less a pct s) (share_less b pct t)
unfolding share_less
share_less-IsAtMost a b pct s t h k =
    let more = mul_le a b pct.num h in
    let less = mul_le t s (100 * pct.den) k in
    let left = -ℤ_parts (pos (a * pct.num)) (pos (s * (100 * pct.den))) in
    let right = -ℤ_parts (pos (b * pct.num)) (pos (t * (100 * pct.den))) in (refl, omega arith)

-- A realized loss moves the balance and the result together: the balance before them stays.
balance_before_loss :
    (b n : ℕ) (pnl : ℤ) → n ≤ b → balance_before (b - n) (pnl -ℤ pos n) ≤ balance_before b pnl
unfolding balance_before
balance_before_loss b n pnl h = let sides = -ℤ_parts pnl (pos n) in omega arith

loss_grows : (n : ℕ) (pnl : ℤ) → loss_of pnl ≤ loss_of (pnl -ℤ pos n)
unfolding ◌-ℤ◌
loss_grows n pnl = ground arith

prop_total-IsAtMost :
    (a : AccountProfile) (s : AccountState) (prop : PropRules) (n : ℕ)
    → a.balance - n ≤ a.balance
    → IsAtMost (prop_total (lost a n) (some (lost_in s n)) prop) (prop_total a (some s) prop)
unfolding prop_total
prop_total-IsAtMost a s prop n less =
    let unit = 100 * prop.max_total_drawdown_pct.den in
    let held =
      prop.starting_balance * (unit - prop.max_total_drawdown_pct.num)
      + open_risk_of s.open_positions * unit in
    let more = mul_le (a.balance - n) a.balance unit less in
    let left = -ℤ_parts (pos ((a.balance - n) * unit)) (pos held) in
    let right = -ℤ_parts (pos (a.balance * unit)) (pos held) in (refl, omega arith)

-- A realized loss raises no cap: not the risk of a trade, not what remains of the day, the week and the
-- open risk, and not what the prop rules leave, for a loss of at most the balance.
pub caps-IsAtMost :
    (a : AccountProfile) (s : AccountState) (l : RiskLimits) (prop : PropRules) (n : ℕ)
    → n ≤ a.balance
    → IsAtMost (per_trade (lost a n) l) (per_trade a l)
      × IsAtMost (daily_remaining (lost a n) (some (lost_in s n)) l) (daily_remaining a (some s) l)
      × IsAtMost
          (weekly_remaining (lost a n) (some (lost_in s n)) l)
          (weekly_remaining a (some s) l)
      × IsAtMost (open_remaining (lost a n) (some (lost_in s n)) l) (open_remaining a (some s) l)
      × IsAtMost (prop_daily (lost a n) (some (lost_in s n)) prop) (prop_daily a (some s) prop)
      × IsAtMost (prop_total (lost a n) (some (lost_in s n)) prop) (prop_total a (some s) prop)
unfolding per_trade daily_remaining weekly_remaining open_remaining prop_daily prop_total
caps-IsAtMost a s l prop n h =
    let day = balance_before_loss a.balance n s.realized_pnl_today h in
    let week = balance_before_loss a.balance n s.realized_pnl_week h in
    let day_loss = loss_grows n s.realized_pnl_today in
    let week_loss = loss_grows n s.realized_pnl_week in
    let spent = open_risk_of s.open_positions in
    let less : a.balance - n ≤ a.balance = omega arith in
    (
      share_less-IsAtMost (a.balance - n) a.balance l.risk_per_trade_pct 0 0 less (omega arith),
      share_less-IsAtMost (balance_before (a.balance - n) (s.realized_pnl_today -ℤ pos n))
          (balance_before a.balance s.realized_pnl_today) l.daily_risk_limit_pct
          (loss_of (s.realized_pnl_today -ℤ pos n) + spent) (loss_of s.realized_pnl_today + spent)
          day (omega arith),
      share_less-IsAtMost (balance_before (a.balance - n) (s.realized_pnl_week -ℤ pos n))
          (balance_before a.balance s.realized_pnl_week) l.weekly_risk_limit_pct
          (loss_of (s.realized_pnl_week -ℤ pos n) + spent) (loss_of s.realized_pnl_week + spent)
          week (omega arith),
      share_less-IsAtMost (a.balance - n) a.balance l.max_open_risk_pct spent spent less
          (omega arith),
      share_less-IsAtMost (balance_before (a.balance - n) (s.realized_pnl_today -ℤ pos n))
          (balance_before a.balance s.realized_pnl_today) prop.max_daily_drawdown_pct
          (loss_of (s.realized_pnl_today -ℤ pos n) + spent) (loss_of s.realized_pnl_today + spent)
          day (omega arith),
      prop_total-IsAtMost a s prop n less,
    )
