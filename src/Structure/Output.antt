-- ===== src/Structure/Output.antt =====
-- `_state` and `_build_output` of services/structure/engine.py, and the models that they fill.
-- The positions are those of candles of the series, so every look-up finds one.
use ict_trading_claude.Prelude.{
  ℕ, ◌-◌, Bool, true, false, ◌&&◌, ◌||◌, Option, none, some, List, [], ◌∷◌, map, length, get_elem?,
  ltb, if◌then◌else◌,
}
use ict_trading_claude.Prelude.Int.{ℤ}
use ict_trading_claude.Domain.Enums.{
  BreakConfirmation, Direction, QualifierStatus, StructureEventStatus, StructureEventType,
  StructureLevel, StructureState, SwingKind, SwingLabel, TrendDirection,
}
use ict_trading_claude.Domain.Candle.{Candle}
use ict_trading_claude.Structure.Swings.{RawSwing, detect_swings}
use ict_trading_claude.Structure.Engine.{
  State, RawEvent, Broken, EventId, StructureConfig, event_id, same_swing, trend_eq, unbroken,
  analyze_level,
}

-- `_RANGING_LABEL_PAIRS`.
abbrev is_ranging_pair : SwingLabel → SwingLabel → Bool
is_ranging_pair SwingLabel.lh SwingLabel.hl = true
is_ranging_pair SwingLabel.lh SwingLabel.el = true
is_ranging_pair SwingLabel.eh SwingLabel.hl = true
is_ranging_pair SwingLabel.eh SwingLabel.el = true
is_ranging_pair SwingLabel.hh SwingLabel.ll = true
is_ranging_pair _ _ = false

-- Swings that were both confirmed after the last break and compress or expand.
unfoldable pub ranges_since : Option ℕ → Option RawSwing → Option RawSwing → Bool
ranges_since (some last) (some high) (some low) =
    ltb last high.confirm_index
    && ltb last low.confirm_index
    && is_ranging_pair high.label low.label
ranges_since _ _ _ = false

-- No break, or none in the last bars.
unfoldable pub is_quiet : ℕ → Option ℕ → ℕ → Bool
is_quiet n none bars = true
is_quiet n (some last) bars = ltb bars (n - 1 - last)

-- `_state`.
unfoldable pub state_of : ℕ → State → StructureConfig → StructureLevel → StructureState
state_of n st cfg level =
    if ltb n cfg.min_candles || trend_eq st.trend TrendDirection.absent
    then StructureState.unclear
    else if st.is_transitioning
    then StructureState.transitioning
    else if ranges_since st.last_break_index st.latest_high st.latest_low
    then StructureState.ranging
    else if is_quiet n st.last_break_index (cfg.ranging_bars_without_break level)
    then StructureState.ranging
    else if trend_eq st.trend TrendDirection.bullish
    then StructureState.bullish
    else StructureState.bearish

-- The string of `swing_id`, by its parts.
pub record SwingId : Type 0 where
  pub level : StructureLevel
  pub kind : SwingKind
  pub time : ℕ

pub record Swing : Type 0 where
  pub id : SwingId
  pub level : StructureLevel
  pub kind : SwingKind
  pub label : SwingLabel
  pub price : ℤ
  pub time : ℕ
  pub confirmed_at : ℕ
  pub broken_at : Option ℕ
  pub broken_by : Option EventId

pub record StructureEvent : Type 0 where
  pub id : EventId
  pub level : StructureLevel
  pub type : StructureEventType
  pub direction : Direction
  pub status : StructureEventStatus
  pub confirmation : BreakConfirmation
  pub price : ℤ
  pub time : ℕ
  pub broken_swing_id : SwingId
  pub broken_swing_time : ℕ
  pub trend_before : TrendDirection
  pub ambiguous : Bool
  pub liquidity_qualifier : QualifierStatus
  pub displacement_qualifier : QualifierStatus

pub record LevelStructure : Type 0 where
  pub level : StructureLevel
  pub pivot_length : ℕ
  pub state : StructureState
  pub trend : TrendDirection
  pub swings : List Swing
  pub events : List StructureEvent
  pub protected_high : Option Swing
  pub protected_low : Option Swing
  pub bars_since_last_break : Option ℕ

abbrev open_of : Option Candle → ℕ
open_of none = 0
open_of (some c) = c.open_time

abbrev close_of : Option Candle → ℕ
close_of none = 0
close_of (some c) = c.close_time

-- The record of a swing's break.
unfoldable pub break_of : List Broken → RawSwing → Option Broken
break_of [] s = none
break_of (b ∷ bs) s = let rest = break_of bs s in if same_swing s b.swing then some b else rest

abbrev confirmation_of : StructureEventStatus → BreakConfirmation
confirmation_of StructureEventStatus.confirmed = BreakConfirmation.candle_close
confirmation_of StructureEventStatus.potential = BreakConfirmation.wick_only

abbrev map_some {ℓ κ} : {A : Type ℓ} {B : Type κ} → (A → B) → Option A → Option B
map_some f none = none
map_some f (some a) = some (f a)

module _ (candles : List Candle) (level : StructureLevel) where
  unfoldable pub swing_id : RawSwing → SwingId
  swing_id s = record { level = level; kind = s.kind; time = open_of (get_elem? candles s.index) }

  unfoldable pub to_swing : List Broken → RawSwing → Swing
  to_swing broken s = record {
    id = swing_id s;
    level = level;
    kind = s.kind;
    label = s.label;
    price = s.price;
    time = open_of (get_elem? candles s.index);
    confirmed_at = close_of (get_elem? candles s.confirm_index);
    broken_at =
        map_some (λ (b : Broken). open_of (get_elem? candles b.broken_index)) (break_of broken s);
    broken_by = map_some (λ (b : Broken). b.broken_by) (break_of broken s);
  }

  unfoldable pub to_event : RawEvent → StructureEvent
  to_event e = record {
    id = event_id level e;
    level = level;
    type = e.type;
    direction = e.direction;
    status = e.status;
    confirmation = confirmation_of e.status;
    price = e.swing.price;
    time = open_of (get_elem? candles e.index);
    broken_swing_id = swing_id e.swing;
    broken_swing_time = open_of (get_elem? candles e.swing.index);
    trend_before = e.trend_before;
    ambiguous = e.ambiguous;
    liquidity_qualifier = QualifierStatus.not_evaluated;
    displacement_qualifier = QualifierStatus.not_evaluated;
  }

  -- `_build_output`.
  unfoldable pub build_output : ℕ → List RawSwing → State → StructureConfig → LevelStructure
  build_output pivot raw st cfg = record {
    level = level;
    pivot_length = pivot;
    state = state_of (length candles) st cfg level;
    trend = st.trend;
    swings = map (to_swing st.broken) raw;
    events = map to_event st.events;
    protected_high = map_some (to_swing st.broken) (unbroken st.broken st.protected_high);
    protected_low = map_some (to_swing st.broken) (unbroken st.broken st.protected_low);
    bars_since_last_break = map_some (λ last. length candles - 1 - last) st.last_break_index;
  }

abbrev output_of :
    StructureConfig
    → StructureLevel
    → List Candle
    → Option (List RawSwing)
    → Option State
    → Option LevelStructure
output_of cfg level candles (some raw) (some st) =
    some (build_output candles level (cfg.pivot_length level) raw st cfg)
output_of cfg level candles _ _ = none

-- `analyze_level` with its output.
unfoldable pub level_structure :
    StructureConfig → StructureLevel → List Candle → Option LevelStructure
level_structure cfg level candles =
    output_of cfg level candles (detect_swings cfg.swings (cfg.pivot_length level) candles)
      (analyze_level cfg level candles)

-- The state of a direction.
abbrev pub state_for : Direction → StructureState
state_for Direction.bullish = StructureState.bullish
state_for Direction.bearish = StructureState.bearish
