-- ===== src/Structure/Engine/Confirm.antt =====
-- Confirmed breaks of services/structure/engine.py: events, broken swings and the trend.
use ict_trading_claude.Prelude.{
  ℕ, Bool, true, false, ◌||◌, Option, none, some, List, [], ◌∷◌, ◌++◌, or_else, if◌then◌else◌,
}
use ict_trading_claude.Prelude.Int.{ℤ, ltb_ℤ}
use ict_trading_claude.Domain.Enums.{
  TrendDirection, Direction, StructureLevel, StructureEventType, StructureEventStatus,
}
use ict_trading_claude.Structure.Swings.{RawSwing}
use ict_trading_claude.Structure.Engine.Defs.{
  RawEvent, event_id, Broken, State, is_broken, unbroken, trend_eq, classify, Targets,
}

-- `s is not None and price > s.price`, and below.
unfoldable pub is_above : ℤ → Option RawSwing → Bool
is_above p none = false
is_above p (some s) = ltb_ℤ s.price p

unfoldable pub is_below : ℤ → Option RawSwing → Bool
is_below p none = false
is_below p (some s) = ltb_ℤ p s.price

-- A confirmed event on the level that is set (the source asserts that it is).
unfoldable pub confirmed_event :
    ℕ → TrendDirection → Direction → Bool → Bool → Option RawSwing → List RawEvent
confirmed_event i trend direction through_protected ambiguous none = []
confirmed_event i trend direction through_protected ambiguous (some s) =
    record {
      index = i;
      type = classify trend direction through_protected;
      direction = direction;
      status = StructureEventStatus.confirmed;
      swing = s;
      trend_before = trend;
      ambiguous = ambiguous;
    }
    ∷ []

-- `break_swings`, one swing at a time.
unfoldable pub break_swing : StructureLevel → RawEvent → Option RawSwing → List Broken → List Broken
break_swing level e none bs = bs
break_swing level e (some s) bs =
    if is_broken bs s
    then bs
    else bs ++ (record { swing = s; broken_index = e.index; broken_by = event_id level e } ∷ [])

-- `emit(ev)` and `break_swings(ev, [target, protected])`, with the swings that the candle closed through.
unfoldable pub confirm :
    StructureLevel → List RawEvent → Option RawSwing → Option RawSwing → State → State
unfolding break_swing
confirm level [] target prot st = st
confirm level (e ∷ es) target prot st = record st {
  events = st.events ++ (e ∷ []);
  broken = break_swing level e prot (break_swing level e target st.broken);
}

abbrev pub keep_if : Bool → Option RawSwing → Option RawSwing
keep_if b o = if b then o else none

-- What a candle's close breaks.
pub record Breaks : Type 0 where
  pub bull_target : Bool
  pub bull_mss : Bool
  pub bear_target : Bool
  pub bear_mss : Bool

unfoldable pub breaks : ℤ → Targets → Breaks
breaks close t = record {
  bull_target = is_above close t.target_high;
  bull_mss = is_above close t.prot_high;
  bear_target = is_below close t.target_low;
  bear_mss = is_below close t.prot_low;
}

abbrev pub is_bull : Breaks → Bool
is_bull b = b.bull_target || b.bull_mss

abbrev pub is_bear : Breaks → Bool
is_bear b = b.bear_target || b.bear_mss

-- The confirmed events of candle `i`, bullish first.
unfoldable pub bull_events : ℕ → TrendDirection → Targets → Breaks → List RawEvent
unfolding confirmed_event
bull_events i trend t b =
    if is_bull b
    then confirmed_event i trend Direction.bullish b.bull_mss (is_bear b)
        (if b.bull_mss then t.prot_high else t.target_high)
    else []

unfoldable pub bear_events : ℕ → TrendDirection → Targets → Breaks → List RawEvent
unfolding confirmed_event
bear_events i trend t b =
    if is_bear b
    then confirmed_event i trend Direction.bearish b.bear_mss (is_bull b)
        (if b.bear_mss then t.prot_low else t.target_low)
    else []

-- A BOS or MSS (re)establishes the trend in the direction of the break.
unfoldable pub establish : Direction → State → State
establish Direction.bullish st = record st {
  protected_low =
      or_else (unbroken st.broken st.latest_low)
        (keep_if (trend_eq st.trend TrendDirection.bullish) (unbroken st.broken st.protected_low));
  protected_high = none;
  trend = TrendDirection.bullish;
  is_transitioning = false;
}
establish Direction.bearish st = record st {
  protected_high =
      or_else (unbroken st.broken st.latest_high)
        (keep_if (trend_eq st.trend TrendDirection.bearish) (unbroken st.broken st.protected_high));
  protected_low = none;
  trend = TrendDirection.bearish;
  is_transitioning = false;
}

unfoldable pub apply_type : StructureEventType → Direction → State → State
apply_type StructureEventType.choch d st = record st { is_transitioning = true }
apply_type t d st = establish d st

-- The state after the confirmed events of candle `i`: both sides, the first event, or none.
unfoldable pub update_trend : ℕ → Bool → List RawEvent → State → State
update_trend i both [] st = st
update_trend i true (e ∷ es) st = record st {
  trend = TrendDirection.absent;
  is_transitioning = false;
  protected_high = none;
  protected_low = none;
  last_break_index = some i;
}
update_trend i false (e ∷ es) st =
    apply_type e.type e.direction (record st { last_break_index = some i })
