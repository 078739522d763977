-- ===== src/Candles/Series.antt =====
-- `build_series` of services/candles/normalize.py.
use ict_trading_claude.Prelude.{
  ℕ, zero, suc, ◌+◌, Bool, true, false, not, ◌&&◌, Option, none, some, List, [], ◌∷◌, ◌++◌, map,
  any, String, str_eq, ◌==◌, if◌then◌else◌,
}
use ict_trading_claude.Domain.Enums.{DataQuality, IssueSeverity, Timeframe, ValidationIssueCode}
use ict_trading_claude.Domain.Candle.{
  Candle, RawBar, Name, upper, ValidationIssue, has_errors, is_error,
}
use ict_trading_claude.Hours.{Calendar}
use ict_trading_claude.Quality.{CandleLag, classify_candle_series, closed_of}
use ict_trading_claude.Candles.Validation.{text, issue, BadTick, detect_range_spikes}
use ict_trading_claude.Candles.Screen.{same_name, screen_all, accept_all, Accepted}
use ict_trading_claude.Candles.Duplicates.{Feed, inversions, group_bars, group_issues, candles_of}
use ict_trading_claude.Candles.Gaps.{future_issues, detect_missing_bars}

pub record CandleSeries : Type 0 where
  pub symbol : Name
  pub timeframe : Timeframe
  pub source : Name
  pub candles : List Candle
  pub issues : List ValidationIssue
  pub quality : DataQuality

-- The position of a code in its enum: two codes are the same when these are.
unfoldable pub code_index : ValidationIssueCode → ℕ
code_index ValidationIssueCode.non_utc_timestamp = 0
code_index ValidationIssueCode.misaligned_open_time = 1
code_index ValidationIssueCode.non_positive_price = 2
code_index ValidationIssueCode.non_finite_value = 3
code_index ValidationIssueCode.impossible_ohlc = 4
code_index ValidationIssueCode.zero_range = 5
code_index ValidationIssueCode.negative_volume = 6
code_index ValidationIssueCode.duplicate_identical = 7
code_index ValidationIssueCode.duplicate_conflict = 8
code_index ValidationIssueCode.out_of_order = 9
code_index ValidationIssueCode.missing_bars = 10
code_index ValidationIssueCode.suspect_bad_tick = 11
code_index ValidationIssueCode.crossed_quote = 12
code_index ValidationIssueCode.wide_spread = 13
code_index ValidationIssueCode.provider_disagreement = 14
code_index ValidationIssueCode.symbol_mismatch = 15
code_index ValidationIssueCode.timeframe_mismatch = 16
code_index ValidationIssueCode.empty_series = 17
code_index ValidationIssueCode.incomplete_bucket = 18

abbrev same_flag : Bool → Bool → Bool
same_flag true b = b
same_flag false b = not b

-- The key of `_merge_counts`: code, severity and message.
unfoldable pub same_key : ValidationIssue → ValidationIssue → Bool
same_key i j =
    code_index i.code == code_index j.code
    && same_flag (is_error i) (is_error j)
    && str_eq i.message.template j.message.template
    && same_name i.message.values j.message.values

unfoldable pub is_untimed : ValidationIssue → Bool
is_untimed i = elim i.at [ none ↦ true | some t ↦ false ]

-- The first of each key among the issues without a time, and all the others. `seen` are the earlier
-- issues without a time.
unfoldable pub first_of_key : List ValidationIssue → List ValidationIssue → List ValidationIssue
first_of_key seen [] = []
first_of_key seen (i ∷ is) =
    let rest = first_of_key (if is_untimed i then i ∷ seen else seen) is in
    if is_untimed i && any (same_key i) seen then rest else i ∷ rest

unfoldable pub count_of_key : ValidationIssue → List ValidationIssue → ℕ
count_of_key i [] = 0
count_of_key i (j ∷ js) =
    let rest = count_of_key i js in if is_untimed j && same_key i j then j.count + rest else rest

unfoldable pub with_count : List ValidationIssue → ValidationIssue → ValidationIssue
with_count issues i = if is_untimed i then record i { count = count_of_key i issues } else i

-- `_merge_counts`.
unfoldable pub merge_counts : List ValidationIssue → List ValidationIssue
merge_counts issues = map (with_count issues) (first_of_key [] issues)

abbrev pub empty_series : String → ValidationIssue
empty_series s = issue ValidationIssueCode.empty_series IssueSeverity.error (text s) none

abbrev order_issue : ℕ → List ValidationIssue
order_issue zero = []
order_issue (suc n) =
    record {
      code = ValidationIssueCode.out_of_order;
      severity = IssueSeverity.warning;
      message = record { template = "out-of-order bar(s) re-sorted"; values = suc n ∷ [] };
      at = none;
      count = suc n;
    }
    ∷ []

unfoldable pub note_empty : List Candle → List ValidationIssue → List ValidationIssue
note_empty [] issues =
    if has_errors issues then issues else issues ++ (empty_series "no usable bars" ∷ [])
note_empty (c ∷ cs) issues = issues

-- `c.model_copy(update={"data_quality": quality})`.
unfoldable pub with_quality : DataQuality → List Candle → List Candle
with_quality q [] = []
with_quality q (c ∷ cs) = record c { data_quality = q } ∷ with_quality q cs

abbrev pub finish :
    Feed → List Candle → List ValidationIssue → Option DataQuality → Option CandleSeries
finish f candles issues none = none
finish f candles issues (some q) = some (record {
  symbol = upper f.symbol;
  timeframe = f.timeframe;
  source = f.source;
  candles = with_quality q candles;
  issues = issues;
  quality = q;
})

-- The two configurations of data_quality.json that the pipeline reads.
pub record Thresholds : Type 0 where
  pub lag : CandleLag
  pub bad_tick : BadTick

module _ (cal : Calendar) (cfg : Thresholds) (f : Feed) (now : ℕ) where
  -- The issues of the whole series, given those of the gaps.
  unfoldable pub later_issues :
      List Accepted → List Candle → List ValidationIssue → List ValidationIssue
  later_issues accepted candles missing =
      order_issue (inversions accepted)
      ++ group_issues (group_bars accepted [])
      ++ future_issues now candles
      ++ missing
      ++ detect_range_spikes cfg.bad_tick (closed_of candles)

  -- All issues before `_merge_counts`.
  unfoldable pub all_issues :
      List RawBar → List Accepted → List Candle → List ValidationIssue → List ValidationIssue
  all_issues raw accepted candles missing =
      screen_all cal (upper f.symbol) f.timeframe raw ++ later_issues accepted candles missing

  abbrev pub classify_series :
      List RawBar
      → List Accepted
      → List Candle
      → Option (List ValidationIssue)
      → Option CandleSeries
  classify_series raw accepted candles none = none
  classify_series raw accepted candles (some missing) =
      let issues = note_empty candles (merge_counts (all_issues raw accepted candles missing)) in
      finish f candles issues (classify_candle_series cal cfg.lag candles issues f.asset_class now)

  -- `none` is a walk over the slots that does not end.
  unfoldable pub build_series : List RawBar → Option CandleSeries
  build_series [] = some (record {
    symbol = upper f.symbol;
    timeframe = f.timeframe;
    source = f.source;
    candles = [];
    issues = empty_series "no bars returned" ∷ [];
    quality = DataQuality.invalid;
  })
  build_series (b ∷ bs) =
      let accepted = accept_all cal (upper f.symbol) f.timeframe (b ∷ bs) in
      let candles = candles_of f now (group_bars accepted []) in
      classify_series (b ∷ bs) accepted candles (detect_missing_bars cal f.asset_class candles)
