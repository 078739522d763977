-- ===== src/Structure/Swings.antt =====
-- Pivot swing detection, services/structure/swings.py.
-- Prices and their sums are exact integers; an average and the tolerance made from it are fractions,
-- compared by cross-multiplication, where the source divides floats.
-- `RawSwing.broken_index` and `broken_by`, the fields that the engine writes, are kept in the
-- engine's own table (Structure/Engine).
pub mod Prefix
use ict_trading_claude.Prelude.{
  ℕ, zero, suc, ◌+◌, ◌-◌, ◌*◌, Bool, true, false, ◌&&◌, Option, none, some, List, [], ◌∷◌, ◌++◌,
  length, get_elem?, slice, if◌then◌else◌, ltb,
}
use ict_trading_claude.Prelude.Int.{
  ℤ, pos, pos_part, neg_part, sub_ℕ, ◌+ℤ◌, ◌-ℤ◌, ltb_ℤ, leb_ℤ, max_ℤ, min_ℤ, dist_ℤ,
}
use ict_trading_claude.Domain.Enums.{SwingKind, SwingLabel}
use ict_trading_claude.Domain.Candle.{Candle}

pub record RawSwing : Type 0 where
  pub kind : SwingKind
  pub index : ℕ
  pub confirm_index : ℕ
  pub price : ℤ
  pub label : SwingLabel

-- `num / den`.
pub record Fraction : Type 0 where
  pub num : ℤ
  pub den : ℕ

-- `equal_tolerance_atr` as a fraction of naturals, and `atr_period`.
pub record SwingConfig : Type 0 where
  pub tolerance_num : ℕ
  pub tolerance_den : ℕ
  pub atr_period : ℕ

-- The loop of `true_ranges`, from the previous close.
unfoldable pub true_range : Option ℤ → Candle → ℤ
true_range none c = c.high -ℤ c.low
true_range (some p) c = max_ℤ c.high p -ℤ min_ℤ c.low p

unfoldable pub true_ranges_from : Option ℤ → List Candle → List ℤ
true_ranges_from p [] = []
true_ranges_from p (c ∷ cs) = true_range p c ∷ true_ranges_from (some c.close) cs

unfoldable pub true_ranges : List Candle → List ℤ
unfolding true_ranges_from
true_ranges cs = true_ranges_from none cs

unfoldable pub sum : List ℤ → ℤ
sum [] = pos 0
sum (x ∷ xs) = x +ℤ sum xs

unfoldable pub mean : List ℤ → Fraction
unfolding sum
mean [] = record { num = pos 0; den = 1 }
mean (x ∷ xs) = record { num = sum (x ∷ xs); den = length (x ∷ xs) }

-- `trs[max(0, index - period + 1) : index + 1]`: `-` on ℕ stops at 0.
unfoldable pub atr_at : List ℤ → ℕ → ℕ → Fraction
unfolding mean
atr_at trs index period = mean (slice (index + 1 - period) (index + 1) trs)

-- `equal_tolerance_atr * atr`.
unfoldable pub tolerance_of : SwingConfig → Fraction → Fraction
tolerance_of cfg a = record {
  num = sub_ℕ (cfg.tolerance_num * pos_part a.num) (cfg.tolerance_num * neg_part a.num);
  den = cfg.tolerance_den * a.den;
}

-- `abs(diff) <= tolerance`.
unfoldable pub within : ℕ → Fraction → Bool
within diff t = leb_ℤ (pos (diff * t.den)) t.num

unfoldable pub label_by : SwingKind → Bool → Bool → SwingLabel
label_by SwingKind.high true up = SwingLabel.eh
label_by SwingKind.low true up = SwingLabel.el
label_by SwingKind.high false up = if up then SwingLabel.hh else SwingLabel.lh
label_by SwingKind.low false up = if up then SwingLabel.hl else SwingLabel.ll

-- `_label`.
unfoldable pub label_of : SwingKind → ℤ → Option RawSwing → Fraction → SwingLabel
unfolding label_by
label_of kind price none tolerance = SwingLabel.unlabelled
label_of kind price (some p) tolerance =
    label_by kind (within (dist_ℤ price p.price) tolerance) (ltb_ℤ p.price price)

-- `max(f(x) for x in x :: xs)` and `min`.
unfoldable pub max_of : (Candle → ℤ) → Candle → List Candle → ℤ
max_of f x [] = f x
max_of f x (y ∷ ys) = max_ℤ (f x) (max_of f y ys)

unfoldable pub min_of : (Candle → ℤ) → Candle → List Candle → ℤ
min_of f x [] = f x
min_of f x (y ∷ ys) = min_ℤ (f x) (min_of f y ys)

-- The pivot test: strictly beyond the left side, not exceeded on the right. `max` of an empty slice
-- is an error in Python; with a pivot of 1 or more neither slice is empty.
unfoldable pub is_high : Candle → List Candle → List Candle → Bool
is_high c [] right = false
is_high c (l ∷ ls) [] = false
is_high c (l ∷ ls) (r ∷ rs) =
    ltb_ℤ (max_of (λ x. x.high) l ls) c.high && leb_ℤ (max_of (λ x. x.high) r rs) c.high

unfoldable pub is_low : Candle → List Candle → List Candle → Bool
is_low c [] right = false
is_low c (l ∷ ls) [] = false
is_low c (l ∷ ls) (r ∷ rs) =
    ltb_ℤ c.low (min_of (λ x. x.low) l ls) && leb_ℤ c.low (min_of (λ x. x.low) r rs)

-- The dictionary `previous`.
pub record Previous : Type 0 where
  pub high : Option RawSwing
  pub low : Option RawSwing

-- One round of the loop for one kind: the swings found and the new `previous[kind]`.
unfoldable pub found : SwingKind → Bool → ℕ → ℕ → ℤ → Option RawSwing → Fraction → Option RawSwing
found kind false j i price previous tolerance = none
found kind true j i price previous tolerance = some (record {
  kind = kind;
  index = j;
  confirm_index = i;
  price = price;
  label = label_of kind price previous tolerance;
})

abbrev pub or_previous : Option RawSwing → Option RawSwing → Option RawSwing
or_previous none p = p
or_previous (some s) p = some s

abbrev pub to_list : Option RawSwing → List RawSwing
to_list none = []
to_list (some s) = s ∷ []

-- What one round reads of the candles: the pivot candle, its two sides and the tolerance.
pub record Window : Type 0 where
  pub pivot_candle : Option Candle
  pub left : List Candle
  pub right : List Candle
  pub tolerance : Fraction

unfoldable pub window : SwingConfig → ℕ → List Candle → List ℤ → ℕ → Window
window cfg pivot candles trs i =
    let j = i - pivot in
    record {
      pivot_candle = get_elem? candles j;
      left = slice (j - pivot) j candles;
      right = slice (j + 1) (i + 1) candles;
      tolerance = tolerance_of cfg (atr_at trs i cfg.atr_period);
    }

unfoldable pub round_with : ℕ → ℕ → Window → Option Candle → Previous → List RawSwing × Previous
round_with pivot i w none p = ([], p)
round_with pivot i w (some c) p =
    let h =
      found SwingKind.high (is_high c w.left w.right) (i - pivot) i c.high p.high w.tolerance in
    let l = found SwingKind.low (is_low c w.left w.right) (i - pivot) i c.low p.low w.tolerance in
    (to_list h ++ to_list l, record { high = or_previous h p.high; low = or_previous l p.low })

unfoldable pub round : ℕ → ℕ → Window → Previous → List RawSwing × Previous
unfolding round_with
round pivot i w p = round_with pivot i w w.pivot_candle p

-- `for i in range(2 * pivot, len(candles))`, with the number of rounds left.
unfoldable pub detect_from :
    SwingConfig → ℕ → List Candle → List ℤ → ℕ → ℕ → Previous → List RawSwing
detect_from cfg pivot candles trs zero i p = []
detect_from cfg pivot candles trs (suc rounds) i p =
    let (swings, p') = round pivot i (window cfg pivot candles trs i) p in
    swings ++ detect_from cfg pivot candles trs rounds (i + 1) p'

abbrev pub no_previous : Previous
no_previous = record { high = none; low = none }

-- `detect_swings`; `none` is the ValueError of a pivot below 1.
unfoldable pub detect_swings : SwingConfig → ℕ → List Candle → Option (List RawSwing)
unfolding true_ranges
detect_swings cfg pivot candles =
    if ltb pivot 1
    then none
    else some (
        detect_from cfg pivot candles (true_ranges candles) (length candles - 2 * pivot) (2 * pivot)
          no_previous)
