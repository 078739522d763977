-- ===== src/Setup/Defs.antt =====
-- States, inputs and the mutable setup of services/setup_state/engine.py and
-- services/setup_state/models.py. An index that is -1 in the source is absent here; those of the
-- liquidity event and the break are only read once they are set, and start at 0.
use ict_trading_claude.Prelude.{ℕ, Bool, true, false, Option, List}
use ict_trading_claude.Prelude.Int.{ℤ}
use ict_trading_claude.Domain.Enums.{
  Direction, LiquidityEventType, LiquidityPoolType, QualifierStatus, SetupState, StructureEventType,
  StructureLevel, Timeframe, EntryModel,
}
use ict_trading_claude.Domain.Candle.{Candle, Name}
use ict_trading_claude.Structure.Engine.{EventId}
use ict_trading_claude.Structure.Output.{StructureEvent}
use ict_trading_claude.Facts.{LiquidityPool, LiquidityEvent, PdArrayZone, PdArrayEvent, NoWickEvent}
use ict_trading_claude.Entry.{Ratio, EntryConfig, EntryPlan, Missed}

-- `TERMINAL`.
unfoldable pub is_terminal : SetupState → Bool
is_terminal SetupState.invalidated = true
is_terminal SetupState.expired = true
is_terminal SetupState.entry_missed = true
is_terminal _ = false

-- `PRE_LIQUIDITY`, `WAITING_BREAK` and the rest, which `advance` sends to `armed`.
pub data Phase : Type 0 where
  before_liquidity before_break past_break : Phase

unfoldable pub phase_of : SetupState → Phase
phase_of SetupState.discovered = before_liquidity
phase_of SetupState.watch = before_liquidity
phase_of SetupState.setup_forming = before_liquidity
phase_of SetupState.liquidity_event = before_break
phase_of SetupState.waiting_for_mss = before_break
phase_of _ = past_break

-- `ALLOWED`: the states that may follow a state.
unfoldable pub is_allowed : SetupState → SetupState → Bool
is_allowed SetupState.discovered SetupState.watch = true
is_allowed SetupState.discovered SetupState.invalidated = true
is_allowed SetupState.watch SetupState.setup_forming = true
is_allowed SetupState.watch SetupState.liquidity_event = true
is_allowed SetupState.watch SetupState.discovered = true
is_allowed SetupState.watch SetupState.invalidated = true
is_allowed SetupState.setup_forming SetupState.watch = true
is_allowed SetupState.setup_forming SetupState.liquidity_event = true
is_allowed SetupState.setup_forming SetupState.discovered = true
is_allowed SetupState.setup_forming SetupState.invalidated = true
is_allowed SetupState.liquidity_event SetupState.waiting_for_mss = true
is_allowed SetupState.liquidity_event SetupState.setup_armed = true
is_allowed SetupState.liquidity_event SetupState.invalidated = true
is_allowed SetupState.liquidity_event SetupState.expired = true
is_allowed SetupState.waiting_for_mss SetupState.setup_armed = true
is_allowed SetupState.waiting_for_mss SetupState.invalidated = true
is_allowed SetupState.waiting_for_mss SetupState.expired = true
is_allowed SetupState.setup_armed SetupState.waiting_for_retracement = true
is_allowed SetupState.setup_armed SetupState.entry_zone_approaching = true
is_allowed SetupState.setup_armed SetupState.entry_zone_touched = true
is_allowed SetupState.setup_armed SetupState.invalidated = true
is_allowed SetupState.setup_armed SetupState.expired = true
is_allowed SetupState.waiting_for_retracement SetupState.entry_zone_approaching = true
is_allowed SetupState.waiting_for_retracement SetupState.entry_zone_touched = true
is_allowed SetupState.waiting_for_retracement SetupState.invalidated = true
is_allowed SetupState.waiting_for_retracement SetupState.expired = true
is_allowed SetupState.entry_zone_approaching SetupState.entry_zone_touched = true
is_allowed SetupState.entry_zone_approaching SetupState.waiting_for_retracement = true
is_allowed SetupState.entry_zone_approaching SetupState.invalidated = true
is_allowed SetupState.entry_zone_approaching SetupState.expired = true
is_allowed SetupState.entry_zone_touched SetupState.waiting_for_confirmation = true
is_allowed SetupState.entry_zone_touched SetupState.blocked = true
is_allowed SetupState.entry_zone_touched SetupState.entry_missed = true
is_allowed SetupState.entry_zone_touched SetupState.invalidated = true
is_allowed SetupState.entry_zone_touched SetupState.expired = true
is_allowed SetupState.waiting_for_confirmation SetupState.blocked = true
is_allowed SetupState.waiting_for_confirmation SetupState.entry_missed = true
is_allowed SetupState.waiting_for_confirmation SetupState.invalidated = true
is_allowed SetupState.waiting_for_confirmation SetupState.expired = true
is_allowed SetupState.blocked SetupState.entry_missed = true
is_allowed SetupState.blocked SetupState.invalidated = true
is_allowed SetupState.blocked SetupState.expired = true
is_allowed _ _ = false

-- Tests whether a state is a given one.
abbrev pub is_discovered : SetupState → Bool
is_discovered SetupState.discovered = true
is_discovered _ = false

abbrev pub is_watch : SetupState → Bool
is_watch SetupState.watch = true
is_watch _ = false

abbrev pub is_forming : SetupState → Bool
is_forming SetupState.setup_forming = true
is_forming _ = false

abbrev pub is_liquidity_event : SetupState → Bool
is_liquidity_event SetupState.liquidity_event = true
is_liquidity_event _ = false

abbrev pub is_setup_armed : SetupState → Bool
is_setup_armed SetupState.setup_armed = true
is_setup_armed _ = false

abbrev pub is_waiting : SetupState → Bool
is_waiting SetupState.waiting_for_retracement = true
is_waiting _ = false

abbrev pub is_approaching : SetupState → Bool
is_approaching SetupState.entry_zone_approaching = true
is_approaching _ = false

abbrev pub is_touched_state : SetupState → Bool
is_touched_state SetupState.entry_zone_touched = true
is_touched_state _ = false

-- `state in (ENTRY_ZONE_TOUCHED, WAITING_FOR_CONFIRMATION)`.
unfoldable pub is_confirming : SetupState → Bool
is_confirming SetupState.entry_zone_touched = true
is_confirming SetupState.waiting_for_confirmation = true
is_confirming _ = false

pub record SetupConfig : Type 0 where
  pub forming_approach_atr : Ratio
  pub sweep_event_types : LiquidityEventType → Bool
  pub significant_sweeps_only : Bool
  pub chase_guard_after_touch_only : Bool
  pub confirm_before_chase_guard : Bool
  pub min_target_atr : Ratio
  pub mss_break_types : StructureEventType → Bool
  pub mss_require_displacement : Bool
  pub mss_window_bars : ℕ
  pub zone_grace_bars : ℕ
  pub retracement_approach_atr : Ratio
  pub retracement_window_bars : ℕ
  pub expire_at_trading_day_end : Bool
  pub atr_period : ℕ

pub record BiasPoint : Type 0 where
  pub timeframe : Timeframe
  pub direction : Direction
  pub known_at : ℕ
  pub event_id : EventId

pub record TargetRef : Type 0 where
  pub pool_id : Name
  pub pool_type : LiquidityPoolType
  pub label : Name
  pub price : ℤ

pub record LiquidityRef : Type 0 where
  pub pool_id : Name
  pub pool_type : LiquidityPoolType
  pub event_type : LiquidityEventType
  pub time : ℕ
  pub extreme : ℤ

pub record BreakRef : Type 0 where
  pub event_id : EventId
  pub type : StructureEventType
  pub level : StructureLevel
  pub time : ℕ
  pub price : ℤ
  pub displacement_qualifier : QualifierStatus

-- The texts of `detail` and `reason`, with the values that they hold.
pub data Detail : Type 0 where
  htf_bias : Direction → Detail
  bias_changed : Option Direction → Detail
  trading_day_ended no_target : Detail
  target_at : Name → ℤ → Detail
  swept : LiquidityEventType → LiquidityPoolType → Detail
  into_liquidity away_from_liquidity liquidity_ran : Detail
  broke : StructureLevel → StructureEventType → ℤ → Detail
  no_break : ℕ → ℕ → Detail
  waiting_for_break beyond_protective target_reached zones_gone no_fvg : Detail
  no_confirmation : ℕ → Detail
  waiting_for_confirmation : Detail
  no_retracement : ℕ → Detail
  waiting_for_fvg : Detail
  touched_zone : ℤ → ℤ → Detail
  approaching_edge : ℤ → Detail
  waiting_for_zone : Detail
  confirmed_by : EntryModel → Detail
  confirmed_but : EntryModel → Missed → Detail
  stop_traded tp1_reached : Detail
  chased : Missed → Detail

-- The string of a setup's id, by its parts.
pub record SetupId : Type 0 where
  pub direction : Direction
  pub time : ℕ

pub record SetupEvent : Type 0 where
  pub setup_id : SetupId
  pub direction : Direction
  pub state : SetupState
  pub time : ℕ
  pub price : ℤ
  pub detail : Detail

-- `_Setup`. The zones that `zone_ids` and `touched_zone_id` name are held themselves: the dictionary of
-- zones does not change.
pub record Setup : Type 0 where
  pub id : SetupId
  pub direction : Direction
  pub state : SetupState
  pub trading_day : ℕ
  pub discovered_index : ℕ
  pub state_index : ℕ
  pub target : Option TargetRef
  pub liquidity : Option LiquidityRef
  pub liquidity_index : ℕ
  pub adverse : Option ℤ
  pub mss : Option BreakRef
  pub mss_index : ℕ
  pub protective : Option ℤ
  pub zones : List PdArrayZone
  pub touched_zone : Option PdArrayZone
  pub touched_index : Option ℕ
  pub reason : Option Detail
  pub plan : Option EntryPlan
  pub retest_index : Option ℕ
  pub retest_close : ℤ
  pub breaks_without_displacement : ℕ

-- `SetupInputs`, with the candles, the configurations and `trading_day_of`, which the service passes in.
pub record Machine : Type 0 where
  pub candles : List Candle
  pub cfg : SetupConfig
  pub ecfg : EntryConfig
  pub trading_day_of : ℕ → ℕ
  pub structure_events : List StructureEvent
  pub pools : List LiquidityPool
  pub liquidity_events : List LiquidityEvent
  pub pd_zones : List PdArrayZone
  pub pd_events : List PdArrayEvent
  pub bias_points : List BiasPoint
  pub bias_timeframes : List Timeframe
  pub no_wick_events : List NoWickEvent
  pub ltf_candles : List Candle
  pub ltf_breaks : List StructureEvent
