-- ===== src/Candles/Validation.antt =====
-- The validators of services/data_quality/validation.py on bars and candles.
use ict_trading_claude.Prelude.{
  ℕ, ◌+◌, ◌-◌, ◌*◌, ◌/◌, ◌%◌, ◌≡◌, sym, ◌∙◌, Bool, true, false, ◌&&◌, ◌||◌, Option, none, some,
  List, [], ◌∷◌, ◌++◌, length, slice, get_elem?, String, ltb, leb, ◌==◌, if◌then◌else◌, arith,
}
use ict_trading_claude.Prelude.Int.{ℤ, pos, ◌≤ℤ◌, ◌<ℤ◌, ltb_ℤ, leb_ℤ, max_ℤ, min_ℤ, dist_ℤ}
use ict_trading_claude.Domain.Enums.{IssueSeverity, ValidationIssueCode}
use ict_trading_claude.Domain.Candle.{
  Candle, RawBar, Reading, finite, not_finite, Stamp, naive, aware, Message, ValidationIssue,
  has_errors,
}

abbrev pub text : String → Message
text s = record { template = s; values = [] }

-- `_issue`.
abbrev pub issue : ValidationIssueCode → IssueSeverity → Message → Option ℕ → ValidationIssue
issue code severity message at = record {
  code = code;
  severity = severity;
  message = message;
  at = at;
  count = 1;
}

-- The values of a bar, all finite.
pub record Prices : Type 0 where
  pub opening : ℤ
  pub high : ℤ
  pub low : ℤ
  pub close : ℤ
  pub volume : Option ℤ

abbrev volume_of : Option Reading → Option (Option ℤ)
volume_of none = some none
volume_of (some (finite v)) = some (some v)
volume_of (some not_finite) = none

abbrev prices_of : Reading → Reading → Reading → Reading → Option (Option ℤ) → Option Prices
prices_of (finite o) (finite h) (finite l) (finite c) (some v) =
    some (record { opening = o; high = h; low = l; close = c; volume = v })
prices_of _ _ _ _ _ = none

-- `all(math.isfinite(v) for v in values)`, with the values.
unfoldable pub finite_prices : RawBar → Option Prices
finite_prices b = prices_of b.opening b.high b.low b.close (volume_of b.volume)

abbrev pub stamp_seconds : Stamp → ℕ
stamp_seconds (naive t) = t
stamp_seconds (aware t) = t

unfoldable pub is_impossible : Prices → Bool
is_impossible p =
    ltb_ℤ p.high (max_ℤ p.opening p.close)
    || ltb_ℤ (min_ℤ p.opening p.close) p.low
    || ltb_ℤ p.high p.low

unfoldable pub is_not_positive : Prices → Bool
is_not_positive p = leb_ℤ (min_ℤ (min_ℤ (min_ℤ p.opening p.high) p.low) p.close) (pos 0)

abbrev pub equal_ℤ : ℤ → ℤ → Bool
equal_ℤ a b = dist_ℤ a b == 0

abbrev pub is_negative : Option ℤ → Bool
is_negative none = false
is_negative (some v) = ltb_ℤ v (pos 0)

abbrev pub only_if : Bool → ValidationIssue → List ValidationIssue
only_if true i = i ∷ []
only_if false i = []

unfoldable pub range_issues : ℕ → Prices → List ValidationIssue
range_issues at p =
    if is_impossible p
    then issue ValidationIssueCode.impossible_ohlc IssueSeverity.error
        (text "high/low do not bound open/close") (some at)
      ∷ []
    else only_if (equal_ℤ p.high p.low) (
        issue ValidationIssueCode.zero_range IssueSeverity.warning
          (text "zero-range bar (high == low)") (some at))

unfoldable pub validate_prices : ℕ → Option Prices → List ValidationIssue
validate_prices at none =
    issue ValidationIssueCode.non_finite_value IssueSeverity.error (text "bar contains NaN/inf")
      (some at)
    ∷ []
validate_prices at (some p) =
    only_if (is_not_positive p) (
      issue ValidationIssueCode.non_positive_price IssueSeverity.error (text "price <= 0")
        (some at))
    ++ range_issues at p
    ++ only_if (is_negative p.volume) (
        issue ValidationIssueCode.negative_volume IssueSeverity.error (text "negative volume")
          (some at))

unfoldable pub validate_bar_prices : RawBar → List ValidationIssue
validate_bar_prices b = validate_prices (stamp_seconds b.open_time) (finite_prices b)

-- data_quality.json's badTick: the multiple is a quotient of numbers.
pub record BadTick : Type 0 where
  pub multiple_num : ℕ
  pub multiple_den : ℕ
  pub lookback : ℕ
  pub min_samples : ℕ

unfoldable pub insert_number : ℕ → List ℕ → List ℕ
insert_number n [] = n ∷ []
insert_number n (m ∷ ms) = if leb n m then n ∷ m ∷ ms else m ∷ insert_number n ms

unfoldable pub sort_numbers : List ℕ → List ℕ
sort_numbers [] = []
sort_numbers (n ∷ ns) = insert_number n (sort_numbers ns)

abbrev number_at : Option ℕ → ℕ
number_at none = 0
number_at (some n) = n

-- Twice the median: the middle one twice, or the sum of the middle two.
unfoldable pub twice_median : List ℕ → ℕ
twice_median ns =
    let sorted = sort_numbers ns in
    let half = length ns / 2 in
    number_at (get_elem? sorted half)
    + number_at (get_elem? sorted (if length ns % 2 == 1 then half else half - 1))

unfoldable pub ranges : List Candle → List ℕ
ranges [] = []
ranges (c ∷ cs) = if ltb_ℤ c.low c.high then dist_ℤ c.high c.low ∷ ranges cs else ranges cs

-- `high - low > multiple * median`, where the range is a positive one.
unfoldable pub is_spike : BadTick → List ℕ → Candle → Bool
is_spike cfg window c =
    ltb 0 (twice_median window)
    && ltb_ℤ c.low c.high
    && ltb (cfg.multiple_num * twice_median window) (2 * cfg.multiple_den * dist_ℤ c.high c.low)

unfoldable pub spike_at : BadTick → List Candle → ℕ → Candle → List ValidationIssue
spike_at cfg candles i c =
    let window = ranges (slice (i - cfg.lookback) i candles) in
    if ltb (length window) cfg.min_samples
    then []
    else only_if (is_spike cfg window c) (
        issue ValidationIssueCode.suspect_bad_tick IssueSeverity.warning
          (record {
            template = "range > multiple x median";
            values = dist_ℤ c.high c.low ∷ twice_median window ∷ [];
          })
          (some c.open_time))

unfoldable pub spikes_from : BadTick → List Candle → ℕ → List Candle → List ValidationIssue
spikes_from cfg candles i [] = []
spikes_from cfg candles i (c ∷ cs) = spike_at cfg candles i c ++ spikes_from cfg candles (i + 1) cs

unfoldable pub detect_range_spikes : BadTick → List Candle → List ValidationIssue
detect_range_spikes cfg candles = spikes_from cfg candles 0 candles

-- What a bar without an error is: finite positive prices that the high and the low bound.
pub record IsSane (p : Prices) : Type 0 where
  pub opening : p.opening ≤ℤ p.high
  pub close : p.close ≤ℤ p.high
  pub above_opening : p.low ≤ℤ p.opening
  pub above_close : p.low ≤ℤ p.close
  pub positive : pos 0 <ℤ p.low

pub validate_prices-errors :
    (at : ℕ) (p : Prices)
    → has_errors (validate_prices at (some p))
      ≡ (is_not_positive p || (is_impossible p || is_negative p.volume))
unfolding has_errors validate_prices range_issues
validate_prices-errors at p = ground arith

not_impossible :
    (p : Prices)
    → is_impossible p ≡ false
    → (p.opening ≤ℤ p.high) × (p.close ≤ℤ p.high) × (p.low ≤ℤ p.opening) × (p.low ≤ℤ p.close)
unfolding is_impossible max_ℤ min_ℤ
not_impossible p h = (ground arith, ground arith, ground arith, ground arith)

all_positive : (p : Prices) → is_not_positive p ≡ false → pos 0 <ℤ p.low
unfolding is_not_positive min_ℤ
all_positive p h = ground arith

pub validate_prices-IsSane :
    (at : ℕ) (p : Prices) → has_errors (validate_prices at (some p)) ≡ false → IsSane p
validate_prices-IsSane at p h =
    let e = sym (validate_prices-errors at p) ∙ h in
    let (o, c, lo, lc) = not_impossible p (ground arith) in
    record {
      opening = o;
      close = c;
      above_opening = lo;
      above_close = lc;
      positive = all_positive p (ground arith);
    }
