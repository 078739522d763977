-- ===== src/Setup/Advance.antt =====
-- `blocked`, `armed`, `advance` and `run` of services/setup_state/engine.py.
use ict_trading_claude.Prelude.{
  ℕ, ◌+◌, ◌-◌, Bool, true, false, not, ◌&&◌, Option, none, some, is_some, List, [], ◌∷◌, ◌++◌,
  filter, best, ltb, leb, ◌==◌, if◌then◌else◌,
}
use ict_trading_claude.Prelude.Int.{ℤ, pos, ltb_ℤ, leb_ℤ}
use ict_trading_claude.Domain.Enums.{Direction, SetupState, direction_eq}
use ict_trading_claude.Domain.Candle.{Candle}
use ict_trading_claude.Facts.{PdArrayZone}
use ict_trading_claude.Entry.{EntryPlan, Missed, multiple, is_over, ahead, chase_reason}
use ict_trading_claude.Setup.Defs.{
  Machine, Setup, SetupEvent, TargetRef, Phase, before_liquidity, before_break, past_break,
  phase_of, is_terminal, is_confirming, is_setup_armed, is_waiting, is_approaching,
  is_touched_state, htf_bias, bias_changed, trading_day_ended, beyond_protective, target_reached,
  zones_gone, no_fvg, no_confirmation, waiting_for_confirmation, no_retracement, waiting_for_fvg,
  touched_zone, approaching_edge, waiting_for_zone, stop_traded, tp1_reached, chased,
}
use ict_trading_claude.Setup.Known.{
  atr, bias, is_beyond, is_taken, index_in, created_marks, invalidated_marks, chase_guard_applies,
  is_by,
}
use ict_trading_claude.Setup.Moves.{
  Outcome, add_events, and_then, unchanged, emit, emit_at, end, collect_zones, seek_liquidity,
  waiting_break,
}
use ict_trading_claude.Setup.Confirm.{Confirmed, confirm, edge_of, is_after}

-- A wick that reaches `x` against the direction.
abbrev pub reaches : Direction → Candle → ℤ → Bool
reaches Direction.bullish c x = leb_ℤ c.low x
reaches Direction.bearish c x = leb_ℤ x c.high

-- The same for a stop.
abbrev pub reaches_stop : Direction → Candle → ℤ → Bool
reaches_stop Direction.bullish c stop = leb_ℤ c.low stop
reaches_stop Direction.bearish c stop = leb_ℤ stop c.high

abbrev pub chase_end : ℕ → Candle → Setup → Option Missed → Outcome
chase_end i c s none = unchanged s
chase_end i c s (some reason) = end s SetupState.entry_missed i c (chased reason)

unfoldable pub on_blocked : Machine → ℕ → Candle → Setup → EntryPlan → ℤ → TargetRef → Outcome
on_blocked m i c s plan protective t =
    if reaches_stop s.direction c plan.stop
    then end s SetupState.invalidated i c stop_traded
    else if is_beyond s.direction protective c.close
    then end s SetupState.invalidated i c beyond_protective
    else if is_taken m t.pool_id i
    then end s SetupState.entry_missed i c tp1_reached
    else chase_end i c s (chase_reason plan c.close)

abbrev pub blocked_with : Machine → ℕ → Candle → Setup → Option EntryPlan → ℤ → TargetRef → Outcome
blocked_with m i c s none protective t = none
blocked_with m i c s (some plan) protective t = on_blocked m i c s plan protective t

-- `live_zones`.
unfoldable pub live_zones : Machine → ℕ → Setup → List PdArrayZone
live_zones m i s = filter (λ z. not (is_by i (index_in z (invalidated_marks m)))) s.zones

abbrev pub is_before : ℕ → Option ℕ → Bool
is_before i none = false
is_before i (some j) = ltb j i

-- The live zones that were created before the candle.
unfoldable pub usable_zones : Machine → ℕ → Setup → List PdArrayZone
usable_zones m i s = filter (λ z. is_before i (index_in z (created_marks m))) (live_zones m i s)

abbrev pub better_zone : Direction → PdArrayZone → PdArrayZone → Bool
better_zone Direction.bullish y z = ltb_ℤ z.top y.top
better_zone Direction.bearish y z = ltb_ℤ y.bottom z.bottom

-- The distance from the close to the edge is at most the configured multiple of the ATR.
unfoldable pub is_near : Machine → ℕ → Candle → Direction → ℤ → Bool
is_near m i c d edge =
    not (is_over (ahead d c.close edge) (multiple m.cfg.retracement_approach_atr (atr m i)))

-- What follows a confirmation that may have failed.
abbrev pub or_else_run : Confirmed → (Setup → Outcome) → Outcome
or_else_run none rest = none
or_else_run (some (s, es, true)) rest = some (s, es)
or_else_run (some (s, es, false)) rest = add_events es (rest s)

-- The touch of a zone, and a confirmation on the same candle.
unfoldable pub touch : Machine → ℕ → Candle → Setup → PdArrayZone → ℤ → Outcome
touch m i c s z edge =
    and_then
      (emit_at (record s { touched_zone = some z; touched_index = some i; retest_index = none })
        SetupState.entry_zone_touched i c (touched_zone z.bottom z.top) edge)
      (λ s'. or_else_run (confirm m i c s') unchanged)

unfoldable pub retrace_to : Machine → ℕ → Candle → Setup → PdArrayZone → Outcome
retrace_to m i c s z =
    let edge = edge_of s.direction z in
    if reaches s.direction c edge
    then touch m i c s z edge
    else if is_near m i c s.direction edge && not (is_approaching s.state)
    then emit_at s SetupState.entry_zone_approaching i c (approaching_edge edge) edge
    else if not (is_near m i c s.direction edge) && not (is_waiting s.state)
    then emit s SetupState.waiting_for_retracement i c waiting_for_zone
    else unchanged s

abbrev pub on_zone : Machine → ℕ → Candle → Setup → Option PdArrayZone → Outcome
on_zone m i c s none =
    if is_setup_armed s.state
    then emit s SetupState.waiting_for_retracement i c waiting_for_fvg
    else unchanged s
on_zone m i c s (some z) = retrace_to m i c s z

-- Before the touch: the retracement window, then the best usable zone.
unfoldable pub retrace : Machine → ℕ → Candle → Setup → Outcome
retrace m i c s =
    if leb m.cfg.retracement_window_bars (i - s.mss_index)
    then end s SetupState.expired i c (no_retracement m.cfg.retracement_window_bars)
    else if leb i s.mss_index
    then unchanged s
    else on_zone m i c s (best (better_zone s.direction) (usable_zones m i s))

abbrev pub window_over : ℕ → Option ℕ → ℕ → Bool
window_over i none bars = true
window_over i (some j) bars = leb bars (i - j)

-- After the touch without a confirmation: its window, then waiting.
unfoldable pub unconfirmed : Machine → ℕ → Candle → Setup → Outcome
unconfirmed m i c s =
    if window_over i s.touched_index m.ecfg.confirmation_window_bars
    then end s SetupState.expired i c (no_confirmation m.ecfg.confirmation_window_bars)
    else if is_touched_state s.state && is_after i s.touched_index
    then emit s SetupState.waiting_for_confirmation i c waiting_for_confirmation
    else unchanged s

unfoldable pub await_confirmation : Machine → ℕ → Candle → Setup → Outcome
await_confirmation m i c s =
    if is_after i s.touched_index
    then or_else_run (confirm m i c s) (unconfirmed m i c)
    else unconfirmed m i c s

abbrev pub is_empty : List PdArrayZone → Bool
is_empty [] = true
is_empty (z ∷ zs) = false

-- From the chase guard on.
unfoldable pub guarded : Machine → ℕ → Candle → TargetRef → Setup → Outcome
guarded m i c t s =
    if chase_guard_applies (is_taken m t.pool_id i) (is_some s.touched_index)
      m.cfg.chase_guard_after_touch_only
    then end s SetupState.invalidated i c target_reached
    else if not (is_empty s.zones) && is_empty (live_zones m i s)
    then end s SetupState.invalidated i c zones_gone
    else if is_empty s.zones && leb (s.mss_index + m.cfg.zone_grace_bars) i
    then end s SetupState.expired i c no_fvg
    else if is_confirming s.state
    then await_confirmation m i c s
    else retrace m i c s

-- The option to confirm before the chase guard.
unfoldable pub confirm_first : Machine → ℕ → Candle → TargetRef → Setup → Outcome
confirm_first m i c t s =
    if m.cfg.confirm_before_chase_guard && is_confirming s.state && is_after i s.touched_index
    then or_else_run (confirm m i c s) (guarded m i c t)
    else guarded m i c t s

unfoldable pub track_zones : Machine → ℕ → Candle → ℤ → TargetRef → Setup → Outcome
track_zones m i c protective t s =
    if is_beyond s.direction protective c.close
    then end s SetupState.invalidated i c beyond_protective
    else confirm_first m i c t s

abbrev pub is_blocked : SetupState → Bool
is_blocked SetupState.blocked = true
is_blocked _ = false

abbrev pub armed_with : Machine → ℕ → Candle → Setup → Option ℤ → Option TargetRef → Outcome
armed_with m i c s (some protective) (some t) =
    if is_blocked s.state
    then blocked_with m i c s s.plan protective t
    else track_zones m i c protective t (collect_zones m i s)
armed_with m i c s _ _ = none

-- `armed`; it asserts that there are a protective extreme and a target.
unfoldable pub advance_armed : Machine → ℕ → Candle → Setup → Outcome
advance_armed m i c s = armed_with m i c s s.protective s.target

unfoldable pub by_phase : Machine → ℕ → Candle → Setup → Phase → Outcome
by_phase m i c s before_liquidity = seek_liquidity m i c s
by_phase m i c s before_break = waiting_break m i c false s
by_phase m i c s past_break = advance_armed m i c s

abbrev pub is_bias : Direction → Option Direction → Bool
is_bias d none = false
is_bias d (some e) = direction_eq e d

abbrev pub is_pre_liquidity : Phase → Bool
is_pre_liquidity before_liquidity = true
is_pre_liquidity _ = false

-- `advance`.
unfoldable pub advance : Machine → ℕ → Candle → Option Direction → Bool → Setup → Outcome
advance m i c b new s =
    if not new && not (is_bias s.direction b)
    then end s SetupState.invalidated i c (bias_changed b)
    else if m.cfg.expire_at_trading_day_end
        && not (is_pre_liquidity (phase_of s.state))
        && not (m.trading_day_of c.open_time == s.trading_day)
    then end s SetupState.expired i c trading_day_ended
    else by_phase m i c s (phase_of s.state)

abbrev pub new_setup : Machine → ℕ → Candle → Direction → Setup
new_setup m i c d = record {
  id = record { direction = d; time = c.open_time };
  direction = d;
  state = SetupState.discovered;
  trading_day = m.trading_day_of c.open_time;
  discovered_index = i;
  state_index = i;
  target = none;
  liquidity = none;
  liquidity_index = 0;
  adverse = none;
  mss = none;
  mss_index = 0;
  protective = none;
  zones = [];
  touched_zone = none;
  touched_index = none;
  reason = none;
  plan = none;
  retest_index = none;
  retest_close = pos 0;
  breaks_without_displacement = 0;
}

-- The variables of the loop of `run`: the setups that have ended, and the open one.
pub record Book : Type 0 where
  pub done : List Setup
  pub current : Option Setup
  pub events : List SetupEvent

-- A setup goes to `done` when its state is terminal.
unfoldable pub file : List Setup → List SetupEvent → Setup → Book
file done events s =
    if is_terminal s.state
    then record { done = done ++ (s ∷ []); current = none; events = events }
    else record { done = done; current = some s; events = events }

abbrev pub file_outcome : Book → Outcome → Option Book
file_outcome k none = none
file_outcome k (some (s, es)) = some (file k.done (k.events ++ es) s)

-- A new setup, where there is a bias.
abbrev pub open_setup : Machine → ℕ → Candle → Option Direction → Book → Option Book
open_setup m i c none k = some k
open_setup m i c (some d) k = file_outcome k (
    and_then (emit (new_setup m i c d) SetupState.discovered i c (htf_bias d))
      (advance m i c (some d) true))

abbrev pub on_current : Machine → ℕ → Candle → Option Direction → Book → Option Setup → Option Book
on_current m i c b k none = open_setup m i c b k
on_current m i c b k (some s) = file_outcome k (advance m i c b false s)

-- The body of the loop. A setup that ends on a candle is not replaced on the same one.
unfoldable pub on_candle : Machine → ℕ → Candle → Book → Option Book
on_candle m i c k = on_current m i c (bias m c) k k.current

abbrev pub then_run : Option Book → (Book → Option Book) → Option Book
then_run none rest = none
then_run (some k) rest = rest k

unfoldable pub run_from : Machine → ℕ → List Candle → Book → Option Book
run_from m i [] k = some k
run_from m i (c ∷ cs) k = then_run (on_candle m i c k) (run_from m (i + 1) cs)

abbrev pub start : Book
start = record { done = []; current = none; events = [] }

-- `run`: the setups are those of `done` and the open one.
unfoldable pub run : Machine → Option Book
run m = run_from m 0 m.candles start
