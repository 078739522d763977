-- ===== src/Candles/Screen.antt =====
-- The screening of bars in services/candles/normalize.py.
use ict_trading_claude.Prelude.{
  ℕ, Bool, true, false, not, ◌&&◌, Option, none, some, List, [], ◌∷◌, ◌++◌, String, str_eq, ◌==◌,
  if◌then◌else◌,
}
use ict_trading_claude.Domain.Enums.{IssueSeverity, Timeframe, ValidationIssueCode}
use ict_trading_claude.Domain.Candle.{
  RawBar, Stamp, naive, aware, Name, upper, Message, ValidationIssue, has_errors,
}
use ict_trading_claude.Hours.{Calendar}
use ict_trading_claude.Timeframes.{is_aligned}
use ict_trading_claude.Candles.Validation.{text, issue, Prices, finite_prices, validate_bar_prices}

unfoldable pub same_name : Name → Name → Bool
same_name [] [] = true
same_name (x ∷ xs) (y ∷ ys) = x == y && same_name xs ys
same_name _ _ = false

abbrev pub timeframe_value : Timeframe → String
timeframe_value Timeframe.m1 = "M1"
timeframe_value Timeframe.m3 = "M3"
timeframe_value Timeframe.m5 = "M5"
timeframe_value Timeframe.m15 = "M15"
timeframe_value Timeframe.m30 = "M30"
timeframe_value Timeframe.h1 = "H1"
timeframe_value Timeframe.h4 = "H4"
timeframe_value Timeframe.d1 = "D1"
timeframe_value Timeframe.w1 = "W1"
timeframe_value Timeframe.mn1 = "MN1"

unfoldable pub same_timeframe : Timeframe → Timeframe → Bool
same_timeframe t u = str_eq (timeframe_value t) (timeframe_value u)

abbrev failure : ValidationIssueCode → Message → Option ℕ → List ValidationIssue
failure code message at = issue code IssueSeverity.error message at ∷ []

-- An aware stamp off the boundary of its timeframe, or the prices.
abbrev pub screen_stamp : Calendar → Timeframe → RawBar → Stamp → List ValidationIssue
screen_stamp cal tf bar (naive t) =
    failure ValidationIssueCode.non_utc_timestamp (text "naive timestamp") none
screen_stamp cal tf bar (aware t) =
    if not (is_aligned cal tf t)
    then failure ValidationIssueCode.misaligned_open_time (text "open_time not on boundary")
        (some t)
    else validate_bar_prices bar

-- `_screen_bar`.
unfoldable pub screen_bar : Calendar → Name → Timeframe → RawBar → List ValidationIssue
screen_bar cal symbol tf bar =
    if not (same_name (upper bar.symbol) symbol)
    then failure ValidationIssueCode.symbol_mismatch (record { template = ""; values = bar.symbol })
        none
    else if not (same_timeframe bar.timeframe tf)
    then failure ValidationIssueCode.timeframe_mismatch (text (timeframe_value bar.timeframe)) none
    else screen_stamp cal tf bar bar.open_time

-- An accepted bar, by its open time and its values.
pub record Accepted : Type 0 where
  pub at : ℕ
  pub prices : Prices

-- A bar without an error has an aware stamp and finite values, so the last line is never reached.
unfoldable pub values_of : Stamp → Option Prices → List Accepted
values_of (aware t) (some p) = record { at = t; prices = p } ∷ []
values_of _ _ = []

unfoldable pub accept : Calendar → Name → Timeframe → RawBar → List Accepted
accept cal symbol tf bar =
    if has_errors (screen_bar cal symbol tf bar)
    then []
    else values_of bar.open_time (finite_prices bar)

unfoldable pub screen_all : Calendar → Name → Timeframe → List RawBar → List ValidationIssue
screen_all cal symbol tf [] = []
screen_all cal symbol tf (b ∷ bs) = screen_bar cal symbol tf b ++ screen_all cal symbol tf bs

unfoldable pub accept_all : Calendar → Name → Timeframe → List RawBar → List Accepted
accept_all cal symbol tf [] = []
accept_all cal symbol tf (b ∷ bs) = accept cal symbol tf b ++ accept_all cal symbol tf bs
