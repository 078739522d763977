-- ===== src/Structure/Engine/Defs.antt =====
-- The state, events and break targets of services/structure/engine.py.
use ict_trading_claude.Prelude.{
  ℕ, Bool, true, false, ◌&&◌, ◌||◌, Option, none, some, List, [], any, if◌then◌else◌, ◌==◌,
}
use ict_trading_claude.Domain.Enums.{
  TrendDirection, Direction, StructureLevel, SwingKind, StructureEventType, StructureEventStatus,
}
use ict_trading_claude.Structure.Swings.{RawSwing}

abbrev pub kind_eq : SwingKind → SwingKind → Bool
kind_eq SwingKind.high SwingKind.high = true
kind_eq SwingKind.low SwingKind.low = true
kind_eq _ _ = false

-- Two references to one swing object: a candle has at most one swing of each kind.
abbrev pub same_swing : RawSwing → RawSwing → Bool
same_swing s t = s.index == t.index && kind_eq s.kind t.kind

pub record EventId : Type 0 where
  pub level : StructureLevel
  pub index : ℕ
  pub type : StructureEventType
  pub direction : Direction
  pub status : StructureEventStatus
  pub swing_kind : SwingKind
  pub swing_index : ℕ

-- `_RawEvent`.
pub record RawEvent : Type 0 where
  pub index : ℕ
  pub type : StructureEventType
  pub direction : Direction
  pub status : StructureEventStatus
  pub swing : RawSwing
  pub trend_before : TrendDirection
  pub ambiguous : Bool

abbrev pub event_id : StructureLevel → RawEvent → EventId
event_id level e = record {
  level = level;
  index = e.index;
  type = e.type;
  direction = e.direction;
  status = e.status;
  swing_kind = e.swing.kind;
  swing_index = e.swing.index;
}

-- A swing whose `broken_index` and `broken_by` are set.
pub record Broken : Type 0 where
  pub swing : RawSwing
  pub broken_index : ℕ
  pub broken_by : EventId

-- `_State` with the loop's other variables: the events emitted, the written fields of the swings,
-- and `potential_done`.
pub record State : Type 0 where
  pub trend : TrendDirection
  pub is_transitioning : Bool
  pub latest_high : Option RawSwing
  pub latest_low : Option RawSwing
  pub protected_high : Option RawSwing
  pub protected_low : Option RawSwing
  pub last_break_index : Option ℕ
  pub broken : List Broken
  pub potential_done : List RawSwing
  pub events : List RawEvent

abbrev pub initial : State
initial = record {
  trend = TrendDirection.absent;
  is_transitioning = false;
  latest_high = none;
  latest_low = none;
  protected_high = none;
  protected_low = none;
  last_break_index = none;
  broken = [];
  potential_done = [];
  events = [];
}

-- `s.is_broken`.
unfoldable pub is_broken : List Broken → RawSwing → Bool
is_broken bs s = any (λ b. same_swing s b.swing) bs

-- `_unbroken`.
unfoldable pub unbroken : List Broken → Option RawSwing → Option RawSwing
unbroken bs none = none
unbroken bs (some s) = if is_broken bs s then none else some s

abbrev pub trend_of : Direction → TrendDirection
trend_of Direction.bullish = TrendDirection.bullish
trend_of Direction.bearish = TrendDirection.bearish

abbrev pub trend_eq : TrendDirection → TrendDirection → Bool
trend_eq TrendDirection.bullish TrendDirection.bullish = true
trend_eq TrendDirection.bearish TrendDirection.bearish = true
trend_eq TrendDirection.absent TrendDirection.absent = true
trend_eq _ _ = false

-- `_classify`.
unfoldable pub classify : TrendDirection → Direction → Bool → StructureEventType
classify trend direction true = StructureEventType.mss
classify trend direction false =
    if trend_eq trend TrendDirection.absent || trend_eq trend (trend_of direction)
    then StructureEventType.bos
    else StructureEventType.choch

-- The four levels that a candle may break.
pub record Targets : Type 0 where
  pub target_high : Option RawSwing
  pub target_low : Option RawSwing
  pub prot_high : Option RawSwing
  pub prot_low : Option RawSwing

unfoldable pub targets : State → Targets
targets st = record {
  target_high = unbroken st.broken st.latest_high;
  target_low = unbroken st.broken st.latest_low;
  prot_high =
      if trend_eq st.trend TrendDirection.bearish
      then unbroken st.broken st.protected_high
      else none;
  prot_low =
      if trend_eq st.trend TrendDirection.bullish
      then unbroken st.broken st.protected_low
      else none;
}
