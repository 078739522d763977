-- ===== src/Structure/Swings/Prefix.antt =====
-- Swing detection has no lookahead: what is found in a prefix of the candles is found first in all.
use ict_trading_claude.Prelude.{
  ℕ, zero, suc, ◌+◌, ◌-◌, ◌*◌, ◌≤◌, ◌<◌, ◌≡◌, refl, ap, ◌∙◌, Bool, true, false, Option, none, some,
  List, [], ◌∷◌, ◌++◌, append_assoc, length, slice, drop, length-append, take-append,
  get_elem?-append, All, All-append, Grows, All-ge_mono, arith, ltb, Bool-cases, inl, inr,
}
use ict_trading_claude.Prelude.Int.{ℤ}
use ict_trading_claude.Domain.Enums.{SwingKind}
use ict_trading_claude.Domain.Candle.{Candle}
use mathlib.Core.Path.{subst}
use native.Mathlib.Nat.{zero-add, suc-add}
use ict_trading_claude.Structure.Swings.{
  RawSwing, SwingConfig, Previous, Window, window, round, round_with, found, to_list, atr_at,
  true_ranges, true_ranges_from, Fraction, is_high, is_low, detect_from, detect_swings, no_previous,
}

last_close : Option ℤ → List Candle → Option ℤ
last_close p [] = p
last_close p (c ∷ cs) = last_close (some c.close) cs

true_ranges_from-append :
    (p : Option ℤ) (xs ys : List Candle)
    → true_ranges_from p (xs ++ ys) ≡ true_ranges_from p xs ++ true_ranges_from (last_close p xs) ys
unfolding true_ranges_from last_close
true_ranges_from-append p [] ys = refl
true_ranges_from-append p (c ∷ xs) ys = rw (true_ranges_from-append (some c.close) xs ys)

length-true_ranges_from :
    (p : Option ℤ) (xs : List Candle) → length (true_ranges_from p xs) ≡ length xs
unfolding true_ranges_from
length-true_ranges_from p [] = refl
length-true_ranges_from p (c ∷ xs) = ap suc (length-true_ranges_from (some c.close) xs)

slice-append :
    {A : Type 0} (a b : ℕ) (xs ys : List A) → b ≤ length xs → slice a b (xs ++ ys) ≡ slice a b xs
slice-append a b xs ys h = ap (drop a) (take-append b xs ys h)

-- A round reads nothing past the candle that it confirms at.
window-append :
    (cfg : SwingConfig) (pivot : ℕ) (xs ys : List Candle) (ts us : List ℤ) (i : ℕ)
    → i < length xs
    → i < length ts
    → window cfg pivot (xs ++ ys) (ts ++ us) i ≡ window cfg pivot xs ts i
unfolding window atr_at
window-append cfg pivot xs ys ts us i h k = rw (
  get_elem?-append xs ys (i - pivot) (omega arith),
  slice-append (i - pivot - pivot) (i - pivot) xs ys (omega arith),
  slice-append (i - pivot + 1) (i + 1) xs ys (omega arith),
  slice-append (i + 1 - cfg.atr_period) (i + 1) ts us (omega arith),
)

detect_from-append :
    (cfg : SwingConfig) (pivot : ℕ) (xs ys : List Candle) (ts us : List ℤ) (n i : ℕ) (p : Previous)
    → n ≤ length xs - i
    → length ts ≡ length xs
    → detect_from cfg pivot (xs ++ ys) (ts ++ us) n i p ≡ detect_from cfg pivot xs ts n i p
unfolding detect_from
detect_from-append cfg pivot xs ys ts us zero i p h k = refl
detect_from-append cfg pivot xs ys ts us (suc n) i p h k =
    rw (window-append cfg pivot xs ys ts us i (omega arith) (omega arith)) (
      rw (
        detect_from-append cfg pivot xs ys ts us n (i + 1)
          (round pivot i (window cfg pivot xs ts i) p).1 (omega arith) k))

-- The rounds from `i` on find swings that are confirmed at `i` or later.
found-confirm :
    (kind : SwingKind) (b : Bool) (j i : ℕ) (price : ℤ) (q : Option RawSwing) (f : Fraction)
    → All (λ s. i ≤ s.confirm_index) (to_list (found kind b j i price q f))
unfolding found
found-confirm kind true j i price q f = (omega arith, tt)
found-confirm kind false j i price q f = tt

round_with-confirm :
    (pivot i : ℕ) (w : Window) (o : Option Candle) (p : Previous)
    → All (λ s. i ≤ s.confirm_index) (round_with pivot i w o p).0
unfolding round_with
round_with-confirm pivot i w none p = tt
round_with-confirm pivot i w (some c) p =
    All-append (λ (s : RawSwing). i ≤ s.confirm_index) _ _
      (found-confirm SwingKind.high (is_high c w.left w.right) (i - pivot) i c.high p.high
        w.tolerance)
      (found-confirm SwingKind.low (is_low c w.left w.right) (i - pivot) i c.low p.low w.tolerance)

round-confirm :
    (pivot i : ℕ) (w : Window) (p : Previous) → All (λ s. i ≤ s.confirm_index) (round pivot i w p).0
unfolding round
round-confirm pivot i w p = round_with-confirm pivot i w w.pivot_candle p

detect_from-confirm :
    (cfg : SwingConfig) (pivot : ℕ) (cs : List Candle) (ts : List ℤ) (n i : ℕ) (p : Previous)
    → All (λ s. i ≤ s.confirm_index) (detect_from cfg pivot cs ts n i p)
unfolding detect_from
detect_from-confirm cfg pivot cs ts zero i p = tt
detect_from-confirm cfg pivot cs ts (suc n) i p =
    let p' = (round pivot i (window cfg pivot cs ts i) p).1 in
    All-append (λ (s : RawSwing). i ≤ s.confirm_index) _ _
      (round-confirm pivot i (window cfg pivot cs ts i) p)
      (All-ge_mono (λ (s : RawSwing). s.confirm_index) i (i + 1) _ (omega arith)
        (detect_from-confirm cfg pivot cs ts n (i + 1) p'))

-- `previous` after some rounds.
previous_after : SwingConfig → ℕ → List Candle → List ℤ → ℕ → ℕ → Previous → Previous
previous_after cfg pivot cs ts zero i p = p
previous_after cfg pivot cs ts (suc n) i p =
    previous_after cfg pivot cs ts n (i + 1) (round pivot i (window cfg pivot cs ts i) p).1

detect_from-split :
    (cfg : SwingConfig) (pivot : ℕ) (cs : List Candle) (ts : List ℤ) (n m i k : ℕ) (p : Previous)
    → i + n ≡ k
    → detect_from cfg pivot cs ts (n + m) i p
      ≡ detect_from cfg pivot cs ts n i p
        ++ detect_from cfg pivot cs ts m k (previous_after cfg pivot cs ts n i p)
unfolding detect_from previous_after
detect_from-split cfg pivot cs ts zero m i k p e = let e' : i ≡ k = omega arith in rw (zero-add, e')
detect_from-split cfg pivot cs ts (suc n) m i k p e =
    let p' = (round pivot i (window cfg pivot cs ts i) p).1 in
    rw (suc-add, detect_from-split cfg pivot cs ts n m (i + 1) k p' (omega arith), append_assoc)

detect_from-Grows :
    (cfg : SwingConfig) (pivot : ℕ) (xs ys : List Candle)
    → let all = xs ++ ys in
      Grows
        (λ s. s.confirm_index)
        (length xs)
        (detect_from cfg pivot xs (true_ranges xs) (length xs - 2 * pivot) (2 * pivot) no_previous)
        (detect_from cfg pivot all
          (true_ranges all)
          (length all - 2 * pivot)
          (2 * pivot)
          no_previous)
unfolding true_ranges
detect_from-Grows cfg pivot xs ys =
    let all = xs ++ ys in
    let ts = true_ranges_from none xs in
    let us = true_ranges_from (last_close none xs) ys in
    let n = length xs - 2 * pivot in
    let m = length all - 2 * pivot - n in
    let e : length all - 2 * pivot ≡ n + m = omega (arith, length-append xs ys) in
    let p' = previous_after cfg pivot all (ts ++ us) n (2 * pivot) no_previous in
    rw (true_ranges_from-append none xs ys, e)
      (
        detect_from cfg pivot all (ts ++ us) m (2 * pivot + n) p',
        detect_from-split cfg pivot all (ts ++ us) n m (2 * pivot) (2 * pivot + n) no_previous refl
            ∙ ap (λ t. t ++ detect_from cfg pivot all (ts ++ us) m (2 * pivot + n) p')
                (detect_from-append cfg pivot xs ys ts us n (2 * pivot) no_previous (omega arith)
                  (length-true_ranges_from none xs)),
        All-ge_mono (λ (s : RawSwing). s.confirm_index) (length xs) (2 * pivot + n) _ (omega arith)
            (detect_from-confirm cfg pivot all (ts ++ us) m (2 * pivot + n) p'),
      )

-- The swings of a prefix are the first swings of the whole, and the others are confirmed by later
-- candles.
pub detect_swings-Grows :
    (cfg : SwingConfig) (pivot : ℕ) (xs ys : List Candle) {raw : List RawSwing}
    → detect_swings cfg pivot xs ≡ some raw
    → (raw' : List RawSwing) × (detect_swings cfg pivot (xs ++ ys) ≡ some raw')
      × Grows (λ s. s.confirm_index) (length xs) raw raw'
unfolding detect_swings
detect_swings-Grows cfg pivot xs ys {raw} h = elim (Bool-cases (ltb pivot 1)) [
  | inl none_found ↦ absurd (ground arith)
  | inr ok ↦
      let all = xs ++ ys in
      let raw' =
        detect_from cfg pivot all (true_ranges all) (length all - 2 * pivot) (2 * pivot)
          no_previous in
      let e : detect_from cfg pivot xs (true_ranges xs) (length xs - 2 * pivot) (2 * pivot)
            no_previous
          ≡ raw =
        ground arith in
      (
        raw',
        rw ok,
        subst (λ r. Grows (λ s. s.confirm_index) (length xs) r raw') e
            (detect_from-Grows cfg pivot xs ys),
      )
]
