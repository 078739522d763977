-- ===== src/Candles/Gaps.antt =====
-- Bars of the future and missing bars in services/candles/normalize.py. The message of a gap keeps
-- the timeframe and the number of bars of its f-string.
use ict_trading_claude.Prelude.{
  ℕ, suc, ◌-◌, Option, none, some, List, [], ◌∷◌, ◌++◌, length, filter, ltb, leb, if◌then◌else◌,
}
use ict_trading_claude.Domain.Enums.{
  AssetClass, IssueSeverity, Timeframe, ValidationIssueCode, is_engine_supported,
}
use ict_trading_claude.Domain.Candle.{Candle, ValidationIssue}
use ict_trading_claude.Hours.{Calendar}
use ict_trading_claude.Timeframes.{expected_slots}
use ict_trading_claude.Candles.Validation.{issue}
use ict_trading_claude.Candles.Screen.{timeframe_value}
use ict_trading_claude.Candles.Duplicates.{length_of}

abbrev pub max_gap_slots_counted : ℕ
max_gap_slots_counted = 50000

abbrev future_issue : List Candle → List ValidationIssue
future_issue [] = []
future_issue (c ∷ cs) =
    issue ValidationIssueCode.non_utc_timestamp IssueSeverity.error
      (record {
        template = "bar(s) open in the future (timezone or clock error)";
        values = suc (length cs) ∷ [];
      })
      (some c.open_time)
    ∷ []

unfoldable pub future_issues : ℕ → List Candle → List ValidationIssue
future_issues now candles = future_issue (filter (λ c. ltb now c.open_time) candles)

abbrev gap_issue : Timeframe → List ℕ → List ValidationIssue
gap_issue tf [] = []
gap_issue tf (s ∷ ss) =
    record {
      code = ValidationIssueCode.missing_bars;
      severity = IssueSeverity.warning;
      message = record { template = timeframe_value tf; values = suc (length ss) ∷ [] };
      at = some s;
      count = suc (length ss);
    }
    ∷ []

abbrev pub append_gap :
    Timeframe → Option (List ℕ) → Option (List ValidationIssue) → Option (List ValidationIssue)
append_gap tf (some ss) (some rest) = some (gap_issue tf ss ++ rest)
append_gap tf _ _ = none

-- The gap between two neighbours; nothing is expected between bars that touch.
unfoldable pub slots_between : Calendar → AssetClass → Timeframe → Candle → Candle → Option (List ℕ)
slots_between cal asset tf prev cur =
    if leb (cur.open_time - prev.open_time) (length_of tf)
    then some []
    else expected_slots cal asset tf prev.open_time cur.open_time (some max_gap_slots_counted)

unfoldable pub gaps :
    Calendar → AssetClass → Timeframe → List Candle → Option (List ValidationIssue)
gaps cal asset tf [] = some []
gaps cal asset tf (c ∷ []) = some []
gaps cal asset tf (prev ∷ cur ∷ cs) =
    append_gap tf (slots_between cal asset tf prev cur) (gaps cal asset tf (cur ∷ cs))

-- `none` is a walk over the slots that does not end.
unfoldable pub detect_missing_bars :
    Calendar → AssetClass → List Candle → Option (List ValidationIssue)
detect_missing_bars cal asset [] = some []
detect_missing_bars cal asset (c ∷ cs) =
    if is_engine_supported c.timeframe then gaps cal asset c.timeframe (c ∷ cs) else some []
