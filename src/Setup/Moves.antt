-- ===== src/Setup/Moves.antt =====
-- `emit` and `end` of services/setup_state/engine.py, and the transitions before the break. An outcome is
-- the setup with the events that were emitted; `none` is an AssertionError.
use ict_trading_claude.Prelude.{
  ℕ, ◌+◌, ◌-◌, Bool, true, false, not, ◌&&◌, ◌||◌, Option, none, some, List, [], ◌∷◌, ◌++◌, any,
  leb, if◌then◌else◌,
}
use ict_trading_claude.Prelude.Int.{ℤ, max_ℤ, min_ℤ}
use ict_trading_claude.Domain.Enums.{Direction, QualifierStatus, SetupState, direction_eq}
use ict_trading_claude.Domain.Candle.{Candle}
use ict_trading_claude.Structure.Output.{StructureEvent}
use ict_trading_claude.Facts.{LiquidityPool, LiquidityEvent, PdArrayZone, id_eq}
use ict_trading_claude.Setup.Defs.{
  Machine, Setup, SetupEvent, Detail, TargetRef, LiquidityRef, BreakRef, is_allowed, is_discovered,
  is_watch, is_forming, is_liquidity_event, no_target, target_at, swept, into_liquidity,
  away_from_liquidity, liquidity_ran, broke, no_break, waiting_for_break,
}
use ict_trading_claude.Setup.Known.{
  target, sweep, near_opposite, is_beyond, breaks_at, Marks, created_in_order,
}

abbrev pub Outcome : Type 0
Outcome = Option (Setup × List SetupEvent)

-- Statements one after the other: the events of both.
abbrev pub add_events : List SetupEvent → Outcome → Outcome
add_events es none = none
add_events es (some (s, fs)) = some (s, es ++ fs)

abbrev pub and_then : Outcome → (Setup → Outcome) → Outcome
and_then none f = none
and_then (some (s, es)) f = add_events es (f s)

abbrev pub unchanged : Setup → Outcome
unchanged s = some (s, [])

-- `state is s.state`.
unfoldable pub state_eq : SetupState → SetupState → Bool
state_eq SetupState.discovered SetupState.discovered = true
state_eq SetupState.watch SetupState.watch = true
state_eq SetupState.setup_forming SetupState.setup_forming = true
state_eq SetupState.liquidity_event SetupState.liquidity_event = true
state_eq SetupState.waiting_for_mss SetupState.waiting_for_mss = true
state_eq SetupState.rebalance_watch SetupState.rebalance_watch = true
state_eq SetupState.rebalance_touch SetupState.rebalance_touch = true
state_eq SetupState.reaction SetupState.reaction = true
state_eq SetupState.confirmation SetupState.confirmation = true
state_eq SetupState.setup_armed SetupState.setup_armed = true
state_eq SetupState.waiting_for_retracement SetupState.waiting_for_retracement = true
state_eq SetupState.entry_zone_approaching SetupState.entry_zone_approaching = true
state_eq SetupState.entry_zone_touched SetupState.entry_zone_touched = true
state_eq SetupState.waiting_for_confirmation SetupState.waiting_for_confirmation = true
state_eq SetupState.long_ready SetupState.long_ready = true
state_eq SetupState.short_ready SetupState.short_ready = true
state_eq SetupState.entry_missed SetupState.entry_missed = true
state_eq SetupState.invalidated SetupState.invalidated = true
state_eq SetupState.expired SetupState.expired = true
state_eq SetupState.blocked SetupState.blocked = true
state_eq SetupState.active SetupState.active = true
state_eq SetupState.closed SetupState.closed = true
state_eq _ _ = false

unfoldable pub may_emit : SetupState → SetupState → Bool
may_emit old new = state_eq new old || is_allowed old new

abbrev pub event_of : Setup → SetupState → Candle → Detail → ℤ → SetupEvent
event_of s state c detail price = record {
  setup_id = s.id;
  direction = s.direction;
  state = state;
  time = c.open_time;
  price = price;
  detail = detail;
}

-- `emit`, at a price.
unfoldable pub emit_at : Setup → SetupState → ℕ → Candle → Detail → ℤ → Outcome
emit_at s state i c detail price =
    if may_emit s.state state
    then some (record s { state = state; state_index = i }, event_of s state c detail price ∷ [])
    else none

-- `emit` at the close.
abbrev pub emit : Setup → SetupState → ℕ → Candle → Detail → Outcome
emit s state i c detail = emit_at s state i c detail c.close

-- `end`.
unfoldable pub end : Setup → SetupState → ℕ → Candle → Detail → Outcome
end s state i c reason = emit (record s { reason = some reason }) state i c reason

abbrev pub adverse_extreme : Direction → Candle → ℤ
adverse_extreme Direction.bullish c = c.low
adverse_extreme Direction.bearish c = c.high

abbrev pub most_adverse : Direction → Option ℤ → ℤ → ℤ
most_adverse d none x = x
most_adverse Direction.bullish (some a) x = min_ℤ a x
most_adverse Direction.bearish (some a) x = max_ℤ a x

abbrev is_present : QualifierStatus → Bool
is_present QualifierStatus.present = true
is_present _ = false

-- `confirmation_break`: the break, and the breaks that lacked displacement before it.
unfoldable pub find_break : Bool → Direction → List StructureEvent → ℕ → Option StructureEvent × ℕ
find_break require d [] lacked = (none, lacked)
find_break require d (e ∷ es) lacked =
    let rest = find_break require d es in
    if not (direction_eq e.direction d)
    then rest lacked
    else if require && not (is_present e.displacement_qualifier)
    then rest (lacked + 1)
    else (some e, lacked)

unfoldable pub confirmation_break : Machine → Setup → ℕ → Option StructureEvent × ℕ
confirmation_break m s i =
    find_break m.cfg.mss_require_displacement s.direction (breaks_at m i)
      s.breaks_without_displacement

unfoldable pub has_zone : PdArrayZone → List PdArrayZone → Bool
has_zone z zs = any (λ y. id_eq z.id y.id) zs

-- The loop of `collect_zones`.
unfoldable pub collect : Direction → ℕ → ℕ → Marks → List PdArrayZone → List PdArrayZone
collect d first last [] zs = zs
collect d first last ((z, created) ∷ ms) zs = collect d first last ms (
    if not (has_zone z zs) && direction_eq z.direction d && leb first created && leb created last
    then zs ++ (z ∷ [])
    else zs)

unfoldable pub collect_zones : Machine → ℕ → Setup → Setup
collect_zones m i s =
    let last =
      if leb i (s.mss_index + m.cfg.zone_grace_bars)
      then i
      else s.mss_index + m.cfg.zone_grace_bars in
    record s { zones = collect s.direction s.liquidity_index last (created_in_order m) s.zones }

abbrev pub liquidity_ref : LiquidityEvent → LiquidityRef
liquidity_ref e = record {
  pool_id = e.pool_id;
  pool_type = e.pool_type;
  event_type = e.type;
  time = e.time;
  extreme = e.extreme;
}

abbrev pub break_ref : StructureEvent → BreakRef
break_ref e = record {
  event_id = e.id;
  type = e.type;
  level = e.level;
  time = e.time;
  price = e.price;
  displacement_qualifier = e.displacement_qualifier;
}

abbrev pub collected : Machine → ℕ → Outcome → Outcome
collected m i none = none
collected m i (some (s, es)) = some (collect_zones m i s, es)

-- The end of `waiting_break`: the break, the end of the window, or waiting.
unfoldable pub after_break : Machine → ℕ → Candle → Bool → Setup → Option StructureEvent → Outcome
after_break m i c same_candle s (some e) = collected m i (
    emit (record s { mss = some (break_ref e); mss_index = i; protective = s.adverse })
      SetupState.setup_armed i c (broke e.level e.type e.price))
after_break m i c same_candle s none =
    if leb m.cfg.mss_window_bars (i - s.liquidity_index)
    then end s SetupState.expired i c (no_break m.cfg.mss_window_bars s.breaks_without_displacement)
    else if not same_candle && is_liquidity_event s.state
    then emit s SetupState.waiting_for_mss i c waiting_for_break
    else unchanged s

unfoldable pub seek_break : Machine → ℕ → Candle → Bool → Setup → Outcome
seek_break m i c same_candle s =
    let (found, lacked) = confirmation_break m s i in
    after_break m i c same_candle (record s { breaks_without_displacement = lacked }) found

-- A deeper sweep replaces the liquidity event.
abbrev pub deepen : Direction → LiquidityRef → Option LiquidityEvent → LiquidityRef
deepen d l none = l
deepen d l (some e) = if is_beyond d l.extreme e.extreme then liquidity_ref e else l

unfoldable pub wait_on : Machine → ℕ → Candle → Bool → Setup → LiquidityRef → Outcome
wait_on m i c true s l = seek_break m i c true s
wait_on m i c false s l =
    if is_beyond s.direction l.extreme c.close
    then end s SetupState.invalidated i c liquidity_ran
    else seek_break m i c false
        (record s { liquidity = some (deepen s.direction l (sweep m s.direction i)) })

abbrev pub wait_with : Machine → ℕ → Candle → Bool → Setup → Option LiquidityRef → Outcome
wait_with m i c same_candle s none = none
wait_with m i c same_candle s (some l) = wait_on m i c same_candle s l

-- `waiting_break`; it asserts that there is a liquidity event.
unfoldable pub waiting_break : Machine → ℕ → Candle → Bool → Setup → Outcome
waiting_break m i c same_candle s =
    wait_with m i c same_candle
      (record s {
        adverse = some (most_adverse s.direction s.adverse (adverse_extreme s.direction c));
      })
      s.liquidity

abbrev pub target_ref : LiquidityPool → TargetRef
target_ref p = record { pool_id = p.id; pool_type = p.type; label = p.label; price = p.price }

-- The approach to opposite-side liquidity, and the way back.
unfoldable pub approach : Machine → ℕ → Candle → Setup → Outcome
approach m i c s =
    if near_opposite m s.direction c i && is_watch s.state
    then emit s SetupState.setup_forming i c into_liquidity
    else if not (near_opposite m s.direction c i) && is_forming s.state
    then emit s SetupState.watch i c away_from_liquidity
    else unchanged s

-- A sweep on this candle, or the approach to one.
unfoldable pub on_sweep : Machine → ℕ → Candle → Option LiquidityEvent → Setup → Outcome
on_sweep m i c none s = approach m i c s
on_sweep m i c (some e) s =
    and_then
      (emit_at
        (record s {
          liquidity = some (liquidity_ref e);
          liquidity_index = i;
          adverse = some e.extreme;
        })
        SetupState.liquidity_event i c (swept e.type e.pool_type) e.extreme)
      (waiting_break m i c true)

unfoldable pub with_target : Machine → ℕ → Candle → LiquidityPool → Setup → Outcome
with_target m i c p s =
    and_then
      (if is_discovered s.state
        then emit s SetupState.watch i c (target_at p.label p.price)
        else unchanged s)
      (on_sweep m i c (sweep m s.direction i))

abbrev pub on_target : Machine → ℕ → Candle → Setup → Option LiquidityPool → Outcome
on_target m i c s none =
    if is_discovered s.state then unchanged s else emit s SetupState.discovered i c no_target
on_target m i c s (some p) =
    with_target m i c p
      (record s { target = some (target_ref p); trading_day = m.trading_day_of c.open_time })

-- `pre_liquidity`.
unfoldable pub seek_liquidity : Machine → ℕ → Candle → Setup → Outcome
seek_liquidity m i c s = on_target m i c s (target m s.direction c i)
