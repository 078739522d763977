-- ===== src/Structure/Analysis.antt =====
-- The analysis of a loaded series and the bias of several: services/structure/analysis.py. The merged
-- event log and the fields that only carry a value through to the response are left out.
use ict_trading_claude.Prelude.{
  ℕ, ◌≤◌, ◌≡◌, refl, Bool, true, false, not, ◌&&◌, Option, none, some, List, [], ◌∷◌, ◌++◌, length,
  any, all, is_some, last?, ltb, if◌then◌else◌, arith, inl, inr, Bool-cases, Option-cases,
}
use ict_trading_claude.Domain.Enums.{
  AnalysisIneligibility, DataQuality, Direction, HtfBias, MtfAlignment, StructureLevel,
  StructureState, Timeframe,
}
use ict_trading_claude.Domain.Candle.{Candle, Name}
use ict_trading_claude.Quality.{closed_of, is_usable}
use ict_trading_claude.Structure.Engine.{StructureConfig}
use ict_trading_claude.Structure.Output.{LevelStructure, level_structure, state_for}

-- `LoadedSeries`, as far as the analysis reads it.
pub record LoadedSeries : Type 0 where
  pub symbol : Name
  pub timeframe : Timeframe
  pub candles : List Candle
  pub quality : DataQuality
  pub is_synthetic : Bool

pub record StructureAnalysis : Type 0 where
  pub symbol : Name
  pub timeframe : Timeframe
  pub as_of : Option ℕ
  pub candle_count : ℕ
  pub quality : DataQuality
  pub is_synthetic : Bool
  pub eligible_for_decision : Bool
  pub ineligibility : List AnalysisIneligibility
  pub internal : Option LevelStructure
  pub external : Option LevelStructure

abbrev quality_reason : DataQuality → List AnalysisIneligibility
quality_reason DataQuality.stale = AnalysisIneligibility.data_stale ∷ []
quality_reason DataQuality.invalid = AnalysisIneligibility.data_invalid ∷ []
quality_reason DataQuality.disconnected = AnalysisIneligibility.data_disconnected ∷ []
quality_reason _ = []

abbrev reason_if : Bool → AnalysisIneligibility → List AnalysisIneligibility
reason_if true r = r ∷ []
reason_if false r = []

-- `_ineligibility`.
unfoldable pub ineligibility : LoadedSeries → ℕ → StructureConfig → List AnalysisIneligibility
ineligibility series closed_count cfg =
    reason_if series.is_synthetic AnalysisIneligibility.data_synthetic
    ++ quality_reason series.quality
    ++ reason_if (ltb closed_count cfg.min_candles) AnalysisIneligibility.insufficient_candles

abbrev is_empty : List AnalysisIneligibility → Bool
is_empty [] = true
is_empty (r ∷ rs) = false

unfoldable pub is_withheld : DataQuality → Bool
is_withheld DataQuality.invalid = true
is_withheld DataQuality.disconnected = true
is_withheld _ = false

abbrev last_close_time : Option Candle → Option ℕ
last_close_time none = none
last_close_time (some c) = some c.close_time

abbrev analysis_of :
    LoadedSeries
    → List Candle
    → List AnalysisIneligibility
    → Option ℕ
    → Option LevelStructure
    → Option LevelStructure
    → StructureAnalysis
analysis_of series closed reasons as_of internal external = record {
  symbol = series.symbol;
  timeframe = series.timeframe;
  as_of = as_of;
  candle_count = length closed;
  quality = series.quality;
  is_synthetic = series.is_synthetic;
  eligible_for_decision = is_empty reasons;
  ineligibility = reasons;
  internal = internal;
  external = external;
}

abbrev both_levels :
    LoadedSeries
    → List Candle
    → List AnalysisIneligibility
    → Option LevelStructure
    → Option LevelStructure
    → Option StructureAnalysis
both_levels series closed reasons (some i) (some e) =
    some (analysis_of series closed reasons (last_close_time (last? closed)) (some i) (some e))
both_levels series closed reasons _ _ = none

-- `none` is the ValueError of `detect_swings`.
unfoldable pub analyze_series : LoadedSeries → StructureConfig → Option StructureAnalysis
analyze_series series cfg =
    let closed = closed_of series.candles in
    let reasons = ineligibility series (length closed) cfg in
    if is_withheld series.quality
    then some (analysis_of series closed reasons none none none)
    else both_levels series closed reasons (level_structure cfg StructureLevel.internal closed)
        (level_structure cfg StructureLevel.external closed)

abbrev pub state_eq : StructureState → StructureState → Bool
state_eq StructureState.bullish StructureState.bullish = true
state_eq StructureState.bearish StructureState.bearish = true
state_eq StructureState.ranging StructureState.ranging = true
state_eq StructureState.transitioning StructureState.transitioning = true
state_eq StructureState.unclear StructureState.unclear = true
state_eq _ _ = false

abbrev pub is_state : StructureState → Option StructureState → Bool
is_state s none = false
is_state s (some t) = state_eq s t

abbrev is_clear : Option StructureState → Bool
is_clear o = is_some o && not (is_state StructureState.unclear o)

unfoldable pub classify_alignment : List (Option StructureState) → MtfAlignment
classify_alignment [] = MtfAlignment.unclear
classify_alignment (s ∷ ss) =
    if any (λ o. not (is_clear o)) (s ∷ ss)
    then MtfAlignment.unclear
    else if all (is_state StructureState.bullish) (s ∷ ss)
    then MtfAlignment.aligned_bullish
    else if all (is_state StructureState.bearish) (s ∷ ss)
    then MtfAlignment.aligned_bearish
    else MtfAlignment.mixed

abbrev state_in : Option LevelStructure → Option StructureState
state_in none = none
state_in (some l) = some l.state

-- The state of the external structure.
abbrev pub external_state : StructureAnalysis → Option StructureState
external_state a = state_in a.external

abbrev pub is_known : StructureAnalysis → Bool
is_known a = a.eligible_for_decision && is_some a.external

abbrev all_in : StructureState → List StructureAnalysis → Bool
all_in s = all (λ a. is_state s (external_state a))

abbrev any_in : StructureState → List StructureAnalysis → Bool
any_in s = any (λ a. is_state s (external_state a))

unfoldable pub bias_of_states : List StructureAnalysis → HtfBias
bias_of_states as_given =
    if any_in StructureState.unclear as_given
    then HtfBias.unclear
    else if all_in StructureState.bullish as_given
    then HtfBias.bullish
    else if all_in StructureState.bearish as_given
    then HtfBias.bearish
    else if any_in StructureState.transitioning as_given
    then HtfBias.transitioning
    else if all_in StructureState.ranging as_given
    then HtfBias.ranging
    else HtfBias.mixed

unfoldable pub classify_htf_bias : List StructureAnalysis → HtfBias
classify_htf_bias [] = HtfBias.unknown
classify_htf_bias (a ∷ rest) =
    if any (λ (b : StructureAnalysis). not (is_known b)) (a ∷ rest)
    then HtfBias.unknown
    else bias_of_states (a ∷ rest)

-- The bias of a direction.
abbrev pub bias_of : Direction → HtfBias
bias_of Direction.bullish = HtfBias.bullish
bias_of Direction.bearish = HtfBias.bearish

abbrev pub is_bias : Direction → HtfBias → Bool
is_bias Direction.bullish HtfBias.bullish = true
is_bias Direction.bearish HtfBias.bearish = true
is_bias _ _ = false

-- An analysis that a bias may rest on: eligible for a decision, with an external structure in the
-- direction's state.
abbrev shows : Direction → StructureState → Bool
shows Direction.bullish StructureState.bullish = true
shows Direction.bearish StructureState.bearish = true
shows _ _ = false

abbrev shown_by : Direction → Option LevelStructure → Bool
shown_by d none = false
shown_by d (some l) = shows d l.state

abbrev pub supports : Direction → StructureAnalysis → Bool
supports d a = a.eligible_for_decision && shown_by d a.external

abbrev pub is_given : List StructureAnalysis → Bool
is_given [] = false
is_given (a ∷ rest) = true

all-supports :
    (d : Direction) (as_given : List StructureAnalysis)
    → all (supports d) as_given ≡ (
        not (any (λ (b : StructureAnalysis). not (is_known b)) as_given)
        && all_in (state_for d) as_given)
all-supports d [] = refl
all-supports d (a ∷ rest) = ground (arith, all-supports d rest)

-- Analyses that all show the direction's state show no other.
all_in-any_in :
    (d : Direction) (as_given : List StructureAnalysis)
    → all_in (state_for d) as_given ≡ true
    → any_in StructureState.unclear as_given ≡ false
all_in-any_in d [] h = refl
all_in-any_in d (a ∷ rest) h = ground (arith, all_in-any_in d rest)

all_in-opposite :
    (a : StructureAnalysis) (rest : List StructureAnalysis)
    → all_in StructureState.bearish (a ∷ rest) ≡ true
    → all_in StructureState.bullish (a ∷ rest) ≡ false
all_in-opposite a rest h = ground arith

-- The bias is bullish exactly when there is an analysis and all are eligible for a decision with a
-- bullish external structure, and bearish exactly when there is one and all are eligible with a
-- bearish one.
pub classify_htf_bias-supports :
    (d : Direction) (as_given : List StructureAnalysis)
    → is_bias d (classify_htf_bias as_given) ≡ (is_given as_given && all (supports d) as_given)
unfolding classify_htf_bias bias_of_states
classify_htf_bias-supports d [] = ground arith
classify_htf_bias-supports Direction.bullish (a ∷ rest) =
    let e = all-supports Direction.bullish (a ∷ rest) in
    let clear = all_in-any_in Direction.bullish (a ∷ rest) in ground (arith, e, clear)
classify_htf_bias-supports Direction.bearish (a ∷ rest) =
    let e = all-supports Direction.bearish (a ∷ rest) in
    let clear = all_in-any_in Direction.bearish (a ∷ rest) in
    let one = all_in-opposite a rest in ground (arith, e, clear, one)

-- An eligible analysis is of real data of a usable quality, with enough closed candles, and has its
-- external structure.
pub analyze_series_eligible :
    (series : LoadedSeries) (cfg : StructureConfig) (a : StructureAnalysis)
    → analyze_series series cfg ≡ some a
    → a.eligible_for_decision ≡ true
    → (series.is_synthetic ≡ false)
      × (is_usable series.quality ≡ true)
      × (cfg.min_candles ≤ length (closed_of series.candles))
      × (is_some a.external ≡ true)
unfolding analyze_series ineligibility is_usable is_withheld
analyze_series_eligible series cfg a h e =
    let closed = closed_of series.candles in
    elim (Bool-cases (is_withheld series.quality)) [
      | inl w ↦ absurd (ground arith)
      | inr shown ↦ elim (Option-cases (level_structure cfg StructureLevel.internal closed)) [
        | inl n ↦ absurd (ground arith)
        | inr (i, internal) ↦
            elim (Option-cases (level_structure cfg StructureLevel.external closed)) [
              | inl n ↦ absurd (ground arith)
              | inr (x, external) ↦ (ground arith, ground arith, ground arith, ground arith)
            ]
      ]
    ]
