-- ===== src/Setup/Plans.antt =====
-- The plans that a run of services/setup_state/engine.py holds for the risk check.
use mathlib.Core.Path.{subst}
use ict_trading_claude.Prelude.{
  ℕ, zero, suc, ◌+◌, ◌-◌, ◌<◌, ◌≡◌, refl, Option, none, some, List, [], ◌∷◌, All, take, drop, slice,
  arith, length,
}
use ict_trading_claude.Prelude.Int.{ℤ, pos, ◌≤ℤ◌, int_laws, le-max_left, min-le_left}
use ict_trading_claude.Domain.Enums.{SetupState}
use ict_trading_claude.Domain.Candle.{Candle}
use ict_trading_claude.Structure.Swings.{true_range, true_ranges_from, true_ranges, sum, mean}
use ict_trading_claude.Entry.{EntryPlan}
use ict_trading_claude.Entry.Plan.{IsSafe, build_plan-IsSafe}
use ict_trading_claude.Setup.{Machine, Setup, Book, run, atr, atr_before}
use ict_trading_claude.Setup.Stages.{stage_of, Holds, IsBuilt, Settled}
use ict_trading_claude.Setup.Safety.{IsSound-book}
use ict_trading_claude.Setup.Runs.{IsSound, IsOpen}

-- The low of a candle is not above its high.
abbrev pub IsBounded : Candle → Type 0
IsBounded c = c.low ≤ℤ c.high

abbrev IsNatural : ℤ → Type 0
IsNatural x = pos 0 ≤ℤ x

true_range-IsNatural : (p : Option ℤ) (c : Candle) → IsBounded c → IsNatural (true_range p c)
unfolding true_range
true_range-IsNatural none c h = grind int_laws
true_range-IsNatural (some x) c h =
    let up = le-max_left c.high x in let down = min-le_left c.low x in grind int_laws

true_ranges-IsNatural :
    (p : Option ℤ) (cs : List Candle) → All IsBounded cs → All IsNatural (true_ranges_from p cs)
unfolding true_ranges_from
true_ranges-IsNatural p [] h = tt
true_ranges-IsNatural p (c ∷ cs) h =
    (true_range-IsNatural p c h.0, true_ranges-IsNatural (some c.close) cs h.1)

drop-IsNatural : (n : ℕ) (xs : List ℤ) → All IsNatural xs → All IsNatural (drop n xs)
drop-IsNatural zero xs h = h
drop-IsNatural (suc n) [] h = tt
drop-IsNatural (suc n) (x ∷ xs) h = drop-IsNatural n xs h.1

take-IsNatural : (n : ℕ) (xs : List ℤ) → All IsNatural xs → All IsNatural (take n xs)
take-IsNatural zero xs h = tt
take-IsNatural (suc n) [] h = tt
take-IsNatural (suc n) (x ∷ xs) h = (h.0, take-IsNatural n xs h.1)

sum-IsNatural : (xs : List ℤ) → All IsNatural xs → IsNatural (sum xs)
unfolding sum
sum-IsNatural [] h = omega arith
sum-IsNatural (x ∷ xs) h = let rest = sum-IsNatural xs h.1 in let here = h.0 in grind int_laws

mean-IsNatural : (xs : List ℤ) → All IsNatural xs → IsNatural (mean xs).num
unfolding mean
mean-IsNatural [] h = omega arith
mean-IsNatural (x ∷ xs) h = sum-IsNatural (x ∷ xs) h

mean-den : (xs : List ℤ) → 0 < (mean xs).den
unfolding mean
mean-den [] = omega arith
mean-den (x ∷ xs) = omega arith

atr-den : (m : Machine) (i : ℕ) → 0 < (atr m i).den
unfolding atr atr_before
atr-den m i = mean-den (slice (i + 1 - m.cfg.atr_period) (i + 1) (true_ranges m.candles))

atr-IsNatural : (m : Machine) (i : ℕ) → All IsBounded m.candles → IsNatural (atr m i).num
unfolding atr atr_before true_ranges
atr-IsNatural m i h =
    let ranges = true_ranges-IsNatural none m.candles h in
    mean-IsNatural (slice (i + 1 - m.cfg.atr_period) (i + 1) (true_ranges m.candles)) (
      drop-IsNatural (i + 1 - m.cfg.atr_period) (take (i + 1) (true_ranges m.candles))
        (take-IsNatural (i + 1) (true_ranges m.candles) ranges))

built-IsSafe :
    (m : Machine) (o : Option EntryPlan)
    → 0 < m.ecfg.min_rr.num
    → 0 < m.ecfg.stop_buffer_atr.den
    → All IsBounded m.candles
    → IsBuilt m o
    → (p : EntryPlan) × (o ≡ some p) × IsSafe p
built-IsSafe m none r v h b = absurd b
built-IsSafe m (some p) r v h (x, i, a, b) =
    (p, refl, build_plan-IsSafe m.ecfg x p (rw a (atr-IsNatural m i h)) (rw a (atr-den m i)) v r b)

-- A setup that a run leaves blocked, pending the risk check and the news gate, has a plan, and the plan is
-- worth taking, for candles whose low is not above their high, a configured minimum above zero and a
-- stop buffer whose denominator is above zero.
pub run-IsSafe :
    (m : Machine) (k : Book) (s : Setup)
    → 0 < m.ecfg.min_rr.num
    → 0 < m.ecfg.stop_buffer_atr.den
    → All IsBounded m.candles
    → run m ≡ some k
    → k.current ≡ some s
    → s.state ≡ SetupState.blocked
    → (p : EntryPlan) × (s.plan ≡ some p) × IsSafe p
unfolding stage_of
run-IsSafe m k s r v h e c b =
    let open_one =
      subst (IsOpen (Settled m (length m.candles - 1))) c (IsSound.live (IsSound-book m k e)) in
    let held = subst (λ st. Holds (stage_of st) m s) b open_one.1.0 in
    built-IsSafe m s.plan r v h held.2
