-- ===== src/Structure/BiasTests.antt =====
-- States, biases and analyses at concrete inputs.
use ict_trading_claude.Prelude.{
  ℕ, ◌-◌, ◌≤◌, ◌≡◌, refl, true, false, Option, none, some, is_some, [], ◌∷◌, all, Any, ◌&&◌, length,
}
use ict_trading_claude.Domain.Enums.{
  DataQuality, Direction, HtfBias, StructureLevel, StructureState, Timeframe, TrendDirection,
}
use ict_trading_claude.Quality.{closed_of, is_usable}
use ict_trading_claude.Structure.Swings.{
  detect_swings, detect_from, true_ranges, window, atr_at, tolerance_of, round, is_high, is_low,
  max_of, min_of, found, label_of,
}
use ict_trading_claude.Structure.Engine.{
  State, initial, StructureConfig, analyze_level, run_from, step, targets, breaks, confirm_breaks,
  wick_crossings, confirmed_at, record_swings, unbroken, is_below, emit_potentials, emit_potential,
  is_above, update_trend, bull_events, bear_events, confirm, is_broken, apply_type, establish,
  break_swing, confirmed_event, classify, set_latest,
}
use ict_trading_claude.Structure.Output.{
  LevelStructure, state_of, ranges_since, is_quiet, level_structure,
}
use ict_trading_claude.Structure.Trend.{HasRanged, Settled, state_of-Settled}
use ict_trading_claude.Structure.Trend.Invariant.{Sets}
use ict_trading_claude.Structure.Analysis.{
  LoadedSeries, StructureAnalysis, supports, is_bias, classify_htf_bias, bias_of_states,
  classify_htf_bias-supports, analyze_series, analyze_series_eligible, ineligibility, is_withheld,
}
use ict_trading_claude.Samples.{minute, xauusd}

abbrev config : StructureConfig
config = record {
  pivot_length = λ level. 1;
  swings = record { tolerance_num = 1; tolerance_den = 10; atr_period = 14 };
  ranging_bars_without_break = λ level. 40;
  min_candles = 3;
}

abbrev up : LevelStructure
up = record {
  level = StructureLevel.external;
  pivot_length = 1;
  state = StructureState.bullish;
  trend = TrendDirection.bullish;
  swings = [];
  events = [];
  protected_high = none;
  protected_low = none;
  bars_since_last_break = some 1;
}

abbrev upward : StructureAnalysis
upward = record {
  symbol = xauusd;
  timeframe = Timeframe.d1;
  as_of = some 0;
  candle_count = 5;
  quality = DataQuality.current;
  is_synthetic = false;
  eligible_for_decision = true;
  ineligibility = [];
  internal = some up;
  external = some up;
}

two_upward : classify_htf_bias (upward ∷ upward ∷ []) ≡ HtfBias.bullish
unfolding classify_htf_bias bias_of_states
two_upward = refl

classify_htf_bias-supports_example :
    is_bias Direction.bullish (classify_htf_bias (upward ∷ upward ∷ []))
    ≡ (true && all (supports Direction.bullish) (upward ∷ upward ∷ []))
classify_htf_bias-supports_example =
    classify_htf_bias-supports Direction.bullish (upward ∷ upward ∷ [])

abbrev series : LoadedSeries
series = record {
  symbol = xauusd;
  timeframe = Timeframe.m1;
  candles =
      minute 0 10 12 8 11
      ∷ minute 60 11 20 10 15
      ∷ minute 120 15 16 9 10
      ∷ minute 180 10 25 10 22
      ∷ [];
  quality = DataQuality.current;
  is_synthetic = false;
}

abbrev analysis_of : Option StructureAnalysis → StructureAnalysis
analysis_of none = upward
analysis_of (some a) = a

analyzed : analyze_series series config ≡ some (analysis_of (analyze_series series config))
unfolding analyze_series ineligibility is_withheld level_structure detect_swings analyze_level
    closed_of
analyzed = refl

is_eligible : (analysis_of (analyze_series series config)).eligible_for_decision ≡ true
unfolding analyze_series ineligibility is_withheld level_structure detect_swings analyze_level
    closed_of
is_eligible = refl

analyze_series_eligible_example :
    (false ≡ false)
    × (is_usable DataQuality.current ≡ true)
    × (3 ≤ length (closed_of series.candles))
    × (is_some (analysis_of (analyze_series series config)).external ≡ true)
analyze_series_eligible_example =
    analyze_series_eligible series config (analysis_of (analyze_series series config)) analyzed
      is_eligible

abbrev state_in : Option State → State
state_in none = initial
state_in (some s) = s

abbrev broken_up : State
broken_up = state_in (analyze_level config StructureLevel.internal series.candles)

up_analyzed : analyze_level config StructureLevel.internal series.candles ≡ some broken_up
unfolding analyze_level detect_swings
up_analyzed = refl

up_bullish : state_of 4 broken_up config StructureLevel.internal ≡ StructureState.bullish
unfolding state_of ranges_since is_quiet analyze_level detect_swings detect_from true_ranges window
    atr_at tolerance_of round is_high is_low max_of min_of found label_of run_from step targets
    breaks confirm_breaks wick_crossings confirmed_at record_swings unbroken is_below
    emit_potentials emit_potential is_above update_trend bull_events bear_events confirm is_broken
    apply_type establish break_swing confirmed_event classify set_latest
up_bullish = refl

state_of-Settled_example :
    Settled 4 config Direction.bullish broken_up
    × (last : ℕ) × (broken_up.last_break_index ≡ some last)
    × (4 - 1 - last ≤ 40)
    × (¬ HasRanged last broken_up)
    × Any (Sets last Direction.bullish) broken_up.events
state_of-Settled_example =
    state_of-Settled config StructureLevel.internal series.candles broken_up Direction.bullish
      up_analyzed up_bullish
