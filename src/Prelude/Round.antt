-- ===== src/Prelude/Round.antt =====
-- Rounding to the nearest whole number, ties to the even one, as the built-in `round` does.
use Prim.Native.Nat.{ℕ, zero, suc, ◌+◌, ◌*◌, ◌/◌, ◌%◌, ◌≤◌, ◌<◌}
use mathlib.Core.Path.{◌≡◌, refl}
use mathlib.Core.Logic.{inl, inr}
use mathlib.Core.Bool.{Bool, true, false, not}
use native.Mathlib.Omega.{arith}
use ict_trading_claude.Prelude.Tests.{ltb, leb, ◌==◌, if◌then◌else◌, Bool-cases}
use ict_trading_claude.Prelude.Int.{
  ℤ, pos, negsuc, pos_part, neg_part, scale, scale_parts, ◌≤ℤ◌, ◌<ℤ◌,
}

abbrev pub up_if : Bool → ℕ → ℕ
up_if true q = q + 1
up_if false q = q

-- Whether the rest of a division rounds up.
unfoldable pub rounds_up : ℕ → ℕ → ℕ → Bool
rounds_up q r d = if ltb (2 * r) d then false else if ltb d (2 * r) then true else not (q % 2 == 0)

-- `n / d` rounded.
unfoldable pub round_ℕ : ℕ → ℕ → ℕ
round_ℕ n d = up_if (rounds_up (n / d) (n % d) d) (n / d)

rounds_up-bounds :
    (q r d : ℕ) (b : Bool)
    → rounds_up q r d ≡ b
    → r < d
    → (2 * (d * up_if b q) ≤ 2 * (d * q + r) + d) × (2 * (d * q + r) ≤ 2 * (d * up_if b q) + d)
unfolding rounds_up
rounds_up-bounds q r d true h k = let high : d ≤ 2 * r = ground arith in (grind arith, grind arith)
rounds_up-bounds q r d false h k = let low : 2 * r ≤ d = ground arith in (grind arith, grind arith)

parts : (n d : ℕ) → 0 < d → (n ≡ d * (n / d) + n % d) × (n % d < d)
parts n d h = (omega arith, omega arith)

pub round_ℕ-bounds :
    (n d : ℕ) → 0 < d → (2 * (d * round_ℕ n d) ≤ 2 * n + d) × (2 * n ≤ 2 * (d * round_ℕ n d) + d)
unfolding round_ℕ
round_ℕ-bounds n d h =
    let (whole, below) = parts n d h in
    let near = rounds_up-bounds (n / d) (n % d) d (rounds_up (n / d) (n % d) d) refl below in
    (grind arith, grind arith)

abbrev pub negated : ℕ → ℤ
negated zero = pos 0
negated (suc n) = negsuc n

-- `x / d` rounded.
unfoldable pub round_ℤ : ℤ → ℕ → ℤ
round_ℤ (pos n) d = pos (round_ℕ n d)
round_ℤ (negsuc n) d = negated (round_ℕ (suc n) d)

negated_parts : (n : ℕ) → (pos_part (negated n) ≡ 0) × (neg_part (negated n) ≡ n)
negated_parts zero = (refl, refl)
negated_parts (suc n) = (refl, refl)

-- A rounded fraction is within a half of the fraction.
pub round_ℤ-bounds :
    (x : ℤ) (d : ℕ)
    → 0 < d
    → (2 * (d * pos_part (round_ℤ x d)) + 2 * neg_part x
        ≤ 2 * (d * neg_part (round_ℤ x d)) + 2 * pos_part x + d)
      × (2 * (d * neg_part (round_ℤ x d)) + 2 * pos_part x
          ≤ 2 * (d * pos_part (round_ℤ x d)) + 2 * neg_part x + d)
unfolding round_ℤ
round_ℤ-bounds (pos n) d h = let near = round_ℕ-bounds n d h in (grind arith, grind arith)
round_ℤ-bounds (negsuc n) d h =
    let near = round_ℕ-bounds (suc n) d h in
    let same = negated_parts (round_ℕ (suc n) d) in rw (same.0, same.1) (grind arith, grind arith)

pub mul_mono : (d a b : ℕ) → a ≤ b → d * a ≤ d * b
mul_mono d a b h = grind arith

-- The arithmetic of the two bounds below: `a - b` in units of `d` against `e - f`.
whole_below :
    (d a b e f x y : ℕ)
    → 0 < d
    → 2 * (d * a) + 2 * y ≤ 2 * (d * b) + 2 * x + d
    → x + d * f < d * e + y
    → a + f ≤ e + b
whole_below d a b e f x y h near l = elim (Bool-cases (leb (a + f) (e + b))) [
  | inl le ↦ ground arith
  | inr over ↦
      let more : e + b + 1 ≤ a + f = ground arith in
      let step = mul_mono d (e + b + 1) (a + f) more in absurd (grind arith)
]

-- A fraction below a whole number rounds to at most that number, and one above it to at least that.
pub round_ℤ-below : (x k : ℤ) (d : ℕ) → 0 < d → x <ℤ scale k d → round_ℤ x d ≤ℤ k
round_ℤ-below x k d h l =
    let near = round_ℤ-bounds x d h in
    let sides = scale_parts k d in
    whole_below d (pos_part (round_ℤ x d)) (neg_part (round_ℤ x d)) (pos_part k) (neg_part k)
      (pos_part x) (neg_part x) h near.0 (grind arith)

pub round_ℤ-above : (x k : ℤ) (d : ℕ) → 0 < d → scale k d <ℤ x → k ≤ℤ round_ℤ x d
round_ℤ-above x k d h l =
    let near = round_ℤ-bounds x d h in
    let sides = scale_parts k d in
    let result =
      whole_below d (neg_part (round_ℤ x d)) (pos_part (round_ℤ x d)) (neg_part k) (pos_part k)
        (neg_part x) (pos_part x) h near.1 (grind arith) in
    omega arith
