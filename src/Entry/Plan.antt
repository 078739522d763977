-- ===== src/Entry/Plan.antt =====
-- What a plan of services/entry/plan.py promises.
use mathlib.Core.Path.{subst}
use ict_trading_claude.Prelude.{
  ℕ, zero, suc, ◌+◌, ◌*◌, ◌≤◌, ◌<◌, leb, ◌≡◌, true, false, Option, none, some, List, [], ◌∷◌, arith,
  Bool-cases, if_cases, inl, inr,
}
use ict_trading_claude.Prelude.Int.{ℤ, pos, negsuc, ◌≤ℤ◌, ◌<ℤ◌, ◌+ℤ◌, -ℤ_parts, leb_ℤ, scale}
use ict_trading_claude.Prelude.Round.{
  round_ℕ, round_ℕ-bounds, round_ℤ, round_ℤ-below, round_ℤ-above, mul_mono,
}
use ict_trading_claude.Domain.Enums.{Direction}
use ict_trading_claude.Structure.Swings.{Fraction}
use ict_trading_claude.Entry.{
  EntryConfig, EntryPlan, PlanInput, planned, build_plan, plan_of, ahead, stop_of, rounded,
  risk_from, rr_below, is_under, is_over, distinct, beyond_targets, extra_targets, multiple, Ratio,
  first_of, second_of,
}

-- Each target lies beyond the one before it.
abbrev pub Outward : Direction → ℤ → List ℤ → Type 0
Outward d last [] = Unit
Outward d last (p ∷ ps) = (pos 0 <ℤ ahead d p last) × Outward d p ps

scale-positive : (x : ℤ) (k : ℕ) → pos 0 <ℤ scale x k → pos 0 <ℤ x
unfolding scale
scale-positive (pos zero) k h = absurd (ground arith)
scale-positive (pos (suc n)) k h = omega arith
scale-positive (negsuc n) k h = absurd (ground arith)

positive-scale : (x : ℤ) (k : ℕ) → pos 0 <ℤ x → 0 < k → pos 0 <ℤ scale x k
unfolding scale
positive-scale (pos n) zero h p = absurd (omega arith)
positive-scale (pos zero) (suc k) h p = absurd (omega arith)
positive-scale (pos (suc n)) (suc k) h p = grind arith
positive-scale (negsuc n) k h p = absurd (omega arith)

is_over-positive : (x : ℤ) (r : Fraction) → pos 0 ≤ℤ r.num → is_over x r ≡ true → pos 0 <ℤ x
unfolding is_over
is_over-positive x r h o = scale-positive x r.den (ground arith)

distinct-Outward :
    (d : Direction) (apart : Fraction) (n : ℕ) (last : ℤ) (ps : List ℤ)
    → pos 0 ≤ℤ apart.num
    → Outward d last (distinct d apart n last ps)
unfolding distinct
distinct-Outward d apart zero last ps h = tt
distinct-Outward d apart (suc n) last [] h = tt
distinct-Outward d apart (suc n) last (p ∷ ps) h =
    if_cases (Outward d last) (is_over (ahead d p last) apart) (p ∷ distinct d apart n p ps)
      (distinct d apart (suc n) last ps)
      (λ o. (is_over-positive (ahead d p last) apart h o, distinct-Outward d apart n p ps h))
      (λ o. distinct-Outward d apart (suc n) last ps h)

-- TP2 and TP3, as far as there are any.
abbrev pub further : Option ℤ → Option ℤ → List ℤ
further none q = []
further (some p) none = p ∷ []
further (some p) (some q) = p ∷ q ∷ []

-- A plan worth taking: the stop not beyond the entry, the targets ahead of it, each beyond the one
-- before, and a first reward of at least the minimum multiple of the risk, up to the half of a place by
-- which the risk is rounded.
pub record IsSafe (p : EntryPlan) : Type 0 where
  pub stop_behind : pos 0 ≤ℤ ahead p.direction p.entry p.stop
  pub target_ahead : pos 0 <ℤ ahead p.direction p.tp1 p.entry
  pub rewarding :
      scale p.risk (2 * p.min_rr.num)
      ≤ℤ scale (ahead p.direction p.tp1 p.entry) (2 * p.min_rr.den) +ℤ pos p.min_rr.num
  pub outward : Outward p.direction p.tp1 (further p.tp2 p.tp3)

further-Outward :
    (d : Direction) (last : ℤ) (ps : List ℤ)
    → Outward d last ps
    → Outward d last (further (first_of ps) (second_of ps))
further-Outward d last [] h = tt
further-Outward d last (p ∷ []) h = h
further-Outward d last (p ∷ q ∷ rest) h = (h.0, (h.1.0, tt))

multiple-positive : (m : Ratio) (a : Fraction) → pos 0 ≤ℤ a.num → pos 0 ≤ℤ (multiple m a).num
unfolding multiple scale
multiple-positive m a h = grind arith

-- The stop of a plan with something at risk is not beyond the entry, also when it is rounded.
stop-behind :
    (d : Direction) (entry : ℤ) (stop : Fraction)
    → 0 < stop.den
    → pos 0 <ℤ ahead d (scale entry stop.den) stop.num
    → pos 0 ≤ℤ ahead d entry (rounded stop)
unfolding rounded
stop-behind Direction.bullish entry stop h k =
    let sides = -ℤ_parts (scale entry stop.den) stop.num in
    let below = round_ℤ-below stop.num entry stop.den h (omega arith) in
    let result = -ℤ_parts entry (rounded stop) in omega arith
stop-behind Direction.bearish entry stop h k =
    let sides = -ℤ_parts stop.num (scale entry stop.den) in
    let above = round_ℤ-above stop.num entry stop.den h (omega arith) in
    let result = -ℤ_parts (rounded stop) entry in omega arith

-- The arithmetic of the reward: `n / d` is the risk and `r` its rounding.
rounded_reward :
    (d n r w a b : ℕ)
    → 0 < d
    → 2 * (d * r) ≤ 2 * n + d
    → n * a ≤ w * d * b
    → r * (2 * a) ≤ w * (2 * b) + a
rounded_reward d n r w a b h near enough = elim (Bool-cases (leb (r * (2 * a)) (w * (2 * b) + a))) [
  | inl le ↦ ground arith
  | inr over ↦
      let more : w * (2 * b) + a + 1 ≤ r * (2 * a) = ground arith in
      let wide = mul_mono d (w * (2 * b) + a + 1) (r * (2 * a)) more in
      let scaled = mul_mono a (2 * (d * r)) (2 * n + d) near in absurd (grind arith)
]

reward-enough :
    (n d : ℤ) (k : ℕ) (m : Ratio)
    → 0 < k
    → pos 0 <ℤ n
    → pos 0 <ℤ d
    → scale n m.num ≤ℤ scale (scale d k) m.den
    → scale (round_ℤ n k) (2 * m.num) ≤ℤ scale d (2 * m.den) +ℤ pos m.num
unfolding scale round_ℤ ◌+ℤ◌
reward-enough (pos n) (pos w) k m h p q e =
    let near = round_ℕ-bounds n k h in
    let core = rounded_reward k n (round_ℕ n k) w m.num m.den h near.0 (grind arith) in grind arith
reward-enough (pos n) (negsuc w) k m h p q e = absurd (omega arith)
reward-enough (negsuc n) d k m h p q e = absurd (omega arith)

stop_of-den :
    (cfg : EntryConfig) (x : PlanInput)
    → 0 < x.atr.den
    → 0 < cfg.stop_buffer_atr.den
    → 0 < (stop_of cfg x).den
unfolding stop_of multiple
stop_of-den cfg x u v = grind arith

plan_of-IsSafe :
    (cfg : EntryConfig) (x : PlanInput)
    → pos 0 ≤ℤ x.atr.num
    → 0 < x.atr.den
    → 0 < cfg.stop_buffer_atr.den
    → 0 < cfg.min_rr.num
    → leb_ℤ (risk_from x.direction x.entry (stop_of cfg x)).num (pos 0) ≡ false
    → rr_below
        (ahead x.direction x.tp1 x.entry)
        (risk_from x.direction x.entry (stop_of cfg x))
        cfg.min_rr
      ≡ false
    → IsSafe (plan_of cfg x)
unfolding plan_of rr_below risk_from extra_targets rounded
plan_of-IsSafe cfg x a u v m k r =
    let stop = stop_of cfg x in
    let risk = ahead x.direction (scale x.entry stop.den) stop.num in
    let reward = ahead x.direction x.tp1 x.entry in
    let some_den : 0 < stop.den = stop_of-den cfg x u v in
    let behind_it : pos 0 <ℤ risk = ground arith in
    let enough : scale risk cfg.min_rr.num ≤ℤ scale (scale reward stop.den) cfg.min_rr.den =
      ground arith in
    let some_risk = positive-scale risk cfg.min_rr.num behind_it m in
    let ahead_of_it =
      scale-positive reward stop.den
        (scale-positive (scale reward stop.den) cfg.min_rr.den (omega arith)) in
    record {
      stop_behind = stop-behind x.direction x.entry stop some_den behind_it;
      target_ahead = ahead_of_it;
      rewarding =
          reward-enough risk reward stop.den cfg.min_rr some_den behind_it ahead_of_it enough;
      outward = further-Outward x.direction x.tp1 (extra_targets cfg x) (
          distinct-Outward x.direction (multiple cfg.target_distinct_atr x.atr) 2 x.tp1
            (beyond_targets x.direction x.tp1 x.further_targets)
            (multiple-positive cfg.target_distinct_atr x.atr a));
    }

-- A plan that `build_plan` gives is worth taking, for a configured minimum above zero, an ATR that is
-- not negative and denominators above zero: the stop is not beyond the entry, the targets lie ahead of
-- it, each beyond the one before, and the first reward is at least the minimum multiple of the risk, up
-- to the half of a place by which the risk is rounded.
pub build_plan-IsSafe :
    (cfg : EntryConfig) (x : PlanInput) (p : EntryPlan)
    → pos 0 ≤ℤ x.atr.num
    → 0 < x.atr.den
    → 0 < cfg.stop_buffer_atr.den
    → 0 < cfg.min_rr.num
    → build_plan cfg x ≡ planned p
    → IsSafe p
unfolding build_plan
build_plan-IsSafe cfg x p a u v m h =
    let risk = risk_from x.direction x.entry (stop_of cfg x) in
    let reward = ahead x.direction x.tp1 x.entry in
    elim (Bool-cases (leb_ℤ risk.num (pos 0))) [
      | inl none_at_risk ↦ absurd (ground arith)
      | inr at_risk ↦ elim (Bool-cases (is_under reward (multiple cfg.min_tp1_atr x.atr))) [
        | inl near ↦ absurd (ground arith)
        | inr far ↦ elim (Bool-cases (rr_below reward risk cfg.min_rr)) [
          | inl low ↦ absurd (ground arith)
          | inr enough ↦
              let same : plan_of cfg x ≡ p = ground arith in
              subst IsSafe same (plan_of-IsSafe cfg x a u v m at_risk enough)
        ]
      ]
    ]
