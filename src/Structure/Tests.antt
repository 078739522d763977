-- ===== src/Structure/Tests.antt =====
-- The structure engine at a concrete series.
use ict_trading_claude.Prelude.{
  ℕ, ◌≡◌, refl, none, some, Option, List, [], ◌∷◌, ◌++◌, All, Grows, Member,
}
use ict_trading_claude.Domain.Enums.{StructureLevel, StructureEventType, Direction}
use ict_trading_claude.Domain.Candle.{Candle}
use ict_trading_claude.Structure.Swings.{
  RawSwing, SwingConfig, detect_swings, detect_from, true_ranges, window, atr_at, tolerance_of,
  round, is_high, is_low, max_of, min_of, found, label_of,
}
use ict_trading_claude.Structure.Swings.Prefix.{detect_swings-Grows}
use ict_trading_claude.Structure.Engine.{
  State, initial, RawEvent, Broken, StructureConfig, analyze_level, run_from, step, targets, breaks,
  confirm_breaks, wick_crossings, confirmed_at, record_swings, unbroken, is_below, emit_potentials,
  emit_potential, is_above, update_trend, bull_events, bear_events, confirm, is_broken, apply_type,
  establish, break_swing, confirmed_event, classify, set_latest,
}
use ict_trading_claude.Structure.Lookahead.{analyze_level-no_lookahead}
use ict_trading_claude.Structure.Events.Invariant.{Sound}
use ict_trading_claude.Structure.Events.Analysis.{analyze_level-Sound}
use ict_trading_claude.Samples.{minute}

abbrev swing_config : SwingConfig
swing_config = record { tolerance_num = 1; tolerance_den = 10; atr_period = 14 }

abbrev config : StructureConfig
config = record {
  pivot_length = λ level. 1;
  swings = swing_config;
  ranging_bars_without_break = λ level. 40;
  min_candles = 3;
}

-- A swing high at the second candle, broken by the close of the fourth.
abbrev first_candles : List Candle
first_candles = minute 0 10 12 8 11 ∷ minute 60 11 20 10 15 ∷ minute 120 15 16 9 10 ∷ []

abbrev later_candles : List Candle
later_candles = minute 180 10 25 10 22 ∷ []

abbrev state_of : Option State → State
state_of none = initial
state_of (some s) = s

abbrev swings_of : Option (List RawSwing) → List RawSwing
swings_of none = []
swings_of (some ss) = ss

abbrev sample_state : State
sample_state =
    state_of (analyze_level config StructureLevel.internal (first_candles ++ later_candles))

abbrev event_kinds : List RawEvent → List (ℕ × StructureEventType × Direction)
event_kinds [] = []
event_kinds (e ∷ es) = (e.index, e.type, e.direction) ∷ event_kinds es

sample_events :
    event_kinds sample_state.events ≡ (3, StructureEventType.bos, Direction.bullish) ∷ []
unfolding analyze_level detect_swings detect_from true_ranges window atr_at tolerance_of round
    is_high is_low max_of min_of found label_of run_from step targets breaks confirm_breaks
    wick_crossings confirmed_at record_swings unbroken is_below emit_potentials emit_potential
    is_above update_trend bull_events bear_events confirm is_broken apply_type establish break_swing
    confirmed_event classify set_latest
sample_events = refl

detect_swings-Grows_example :
    (raw' : List RawSwing) × (detect_swings swing_config 1 (first_candles ++ later_candles)
      ≡ some raw')
    × Grows
        (λ (s : RawSwing). s.confirm_index)
        3
        (swings_of (detect_swings swing_config 1 first_candles))
        raw'
unfolding detect_swings
detect_swings-Grows_example = detect_swings-Grows swing_config 1 first_candles later_candles refl

analyze_level-no_lookahead_example :
    (s' : State) × (analyze_level config StructureLevel.internal (first_candles ++ later_candles)
      ≡ some s')
    × Grows
        (λ (e : RawEvent). e.index)
        3
        (state_of (analyze_level config StructureLevel.internal first_candles)).events
        s'.events
    × Grows
        (λ (b : Broken). b.broken_index)
        3
        (state_of (analyze_level config StructureLevel.internal first_candles)).broken
        s'.broken
unfolding analyze_level detect_swings
analyze_level-no_lookahead_example =
    analyze_level-no_lookahead config StructureLevel.internal first_candles later_candles
      (state_of (analyze_level config StructureLevel.internal first_candles)) refl

analyze_level-Sound_example :
    (raw : List RawSwing) × (detect_swings swing_config 1 (first_candles ++ later_candles)
      ≡ some raw)
    × All
        (λ (e : RawEvent). Sound (first_candles ++ later_candles) e × Member e.swing raw)
        sample_state.events
unfolding analyze_level detect_swings
analyze_level-Sound_example =
    analyze_level-Sound config StructureLevel.internal (first_candles ++ later_candles) sample_state
      refl
