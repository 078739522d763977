-- ===== src/Candles/Duplicates.antt =====
-- Ordering, duplicates and the candles made of them in services/candles/normalize.py.
use ict_trading_claude.Prelude.{
  ℕ, zero, suc, ◌+◌, Bool, true, false, not, ◌&&◌, Option, none, some, List, [], ◌∷◌, ◌++◌, length,
  any, ltb, leb, ◌==◌, if◌then◌else◌,
}
use ict_trading_claude.Prelude.Int.{ℤ}
use ict_trading_claude.Domain.Enums.{
  AssetClass, DataQuality, IssueSeverity, Timeframe, ValidationIssueCode, duration,
}
use ict_trading_claude.Domain.Candle.{Candle, Name, upper, ValidationIssue}
use ict_trading_claude.Candles.Validation.{text, issue, Prices, equal_ℤ}
use ict_trading_claude.Candles.Screen.{Accepted}

-- `sum(1 for a, b in pairwise(utc_times) if b < a)`.
unfoldable pub inversions : List Accepted → ℕ
inversions [] = 0
inversions (a ∷ []) = 0
inversions (a ∷ b ∷ bs) = let rest = inversions (b ∷ bs) in if ltb b.at a.at then suc rest else rest

-- The bars of one open time, in the order that they came.
pub record Group : Type 0 where
  pub at : ℕ
  pub first : Prices
  pub copies : List Prices

-- One bar of `by_time`, whose keys are kept in the order that `sorted` gives them.
unfoldable pub add_bar : Accepted → List Group → List Group
add_bar b [] = record { at = b.at; first = b.prices; copies = [] } ∷ []
add_bar b (g ∷ gs) =
    if ltb b.at g.at
    then record { at = b.at; first = b.prices; copies = [] } ∷ g ∷ gs
    else if b.at == g.at
    then record g { copies = g.copies ++ (b.prices ∷ []) } ∷ gs
    else g ∷ add_bar b gs

unfoldable pub group_bars : List Accepted → List Group → List Group
group_bars [] gs = gs
group_bars (b ∷ bs) gs = group_bars bs (add_bar b gs)

abbrev same_volume : Option ℤ → Option ℤ → Bool
same_volume none none = true
same_volume (some v) (some w) = equal_ℤ v w
same_volume _ _ = false

unfoldable pub same_prices : Prices → Prices → Bool
same_prices p q =
    equal_ℤ p.opening q.opening
    && equal_ℤ p.high q.high
    && equal_ℤ p.low q.low
    && equal_ℤ p.close q.close
    && same_volume p.volume q.volume

-- `len(fields) > 1`.
unfoldable pub is_conflict : Group → Bool
is_conflict g = any (λ p. not (same_prices g.first p)) g.copies

abbrev identical_issue : ℕ → ℕ → List ValidationIssue
identical_issue at zero = []
identical_issue at (suc n) =
    record {
      code = ValidationIssueCode.duplicate_identical;
      severity = IssueSeverity.warning;
      message = text "identical duplicate dropped";
      at = some at;
      count = suc n;
    }
    ∷ []

unfoldable pub group_issues : List Group → List ValidationIssue
group_issues [] = []
group_issues (g ∷ gs) =
    let rest = group_issues gs in
    if is_conflict g
    then issue ValidationIssueCode.duplicate_conflict IssueSeverity.error
        (record {
          template = "conflicting bars share one open_time; all excluded";
          values = suc (length g.copies) ∷ [];
        })
        (some g.at)
      ∷ rest
    else identical_issue g.at (length g.copies) ++ rest

-- What `build_series` is told about the series.
pub record Feed : Type 0 where
  pub symbol : Name
  pub timeframe : Timeframe
  pub source : Name
  pub asset_class : AssetClass

-- MN1 is never aligned: no bar of it comes this far, and its length is not asked for.
abbrev pub length_of : Timeframe → ℕ
length_of tf = elim (duration tf) [ some d ↦ d | none ↦ 0 ]

unfoldable pub candle_of : Feed → ℕ → Group → Candle
candle_of f now g = record {
  symbol = upper f.symbol;
  timeframe = f.timeframe;
  open_time = g.at;
  close_time = g.at + length_of f.timeframe;
  opening = g.first.opening;
  high = g.first.high;
  low = g.first.low;
  close = g.first.close;
  volume = g.first.volume;
  source = f.source;
  is_closed = leb (g.at + length_of f.timeframe) now;
  data_quality = DataQuality.invalid;
}

unfoldable pub candles_of : Feed → ℕ → List Group → List Candle
candles_of f now [] = []
candles_of f now (g ∷ gs) =
    let rest = candles_of f now gs in if is_conflict g then rest else candle_of f now g ∷ rest
