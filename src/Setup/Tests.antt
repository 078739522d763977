-- ===== src/Setup/Tests.antt =====
-- The state machine at a concrete series.
use ict_trading_claude.Prelude.{
  false, ◌-◌, ◌≡◌, refl, Option, none, some, List, [], ◌∷◌, All, length, map, arith,
}
use ict_trading_claude.Domain.Enums.{Direction, LiquidityEventType, LiquidityPoolType, SetupState}
use ict_trading_claude.Prelude.Int.{pos, scale, ◌+ℤ◌, ◌-ℤ◌, max_ℤ, min_ℤ, dist_ℤ}
use ict_trading_claude.Prelude.Round.{round_ℕ, rounds_up, round_ℤ}
use ict_trading_claude.Structure.Swings.{true_range, true_ranges_from, true_ranges, sum, mean}
use ict_trading_claude.Candles.Screen.{same_timeframe}
use ict_trading_claude.Facts.{id_eq, id_lt}
use ict_trading_claude.Entry.{
  EntryPlan, multiple, is_under, is_over, stop_of, risk_from, rr_below, rr_of, rounded, distinct,
  beyond_targets, extra_targets, plan_of, build_plan,
}
use ict_trading_claude.Entry.Plan.{IsSafe}
use ict_trading_claude.Setup.{
  Book, Setup, SetupEvent, start, new_setup, is_terminal, phase_of, is_allowed, is_confirming,
  index_from, index_of, breaks_at, liquidity_at, is_take, is_taken, no_wick_at, is_usable_kind,
  zone_in, mark, marks_from, created_marks, invalidated_marks, index_in, created_in_order,
  latest_point, bias_at, bias, atr_before, atr, is_untaken, is_eligible, target, near_opposite,
  is_significant, sweep_is_significant, sweep, chase_guard_applies, state_eq, may_emit, emit_at,
  end, find_break, confirmation_break, has_zone, collect, collect_zones, after_break, seek_break,
  wait_on, waiting_break, approach, on_sweep, with_target, seek_liquidity, closes_beyond,
  with_direction, try_model, further_targets, plan_input, finish_confirmation, try_models, confirm,
  on_blocked, live_zones, usable_zones, is_near, touch, retrace_to, retrace, unconfirmed,
  await_confirmation, guarded, confirm_first, track_zones, advance_armed, by_phase, advance, file,
  on_candle, run_from, run,
}
use ict_trading_claude.Setup.Runs.{Sound, run-Sound}
use ict_trading_claude.Setup.Stages.{stage_of}
use ict_trading_claude.Setup.Safety.{IsUnauthorized, run-IsUnauthorized}
use ict_trading_claude.Setup.Deadline.{IsDecided, waiting_break-IsDecided}
use ict_trading_claude.Setup.Events.{Good, place}
use ict_trading_claude.Setup.Plans.{run-IsSafe}
use ict_trading_claude.Samples.{minute}
use ict_trading_claude.Setup.Samples.{machine, sellside}

abbrev states : List SetupEvent → List SetupState
states es = map (λ e. e.state) es

abbrev book_of : Option Book → Book
book_of none = start
book_of (some k) = k

abbrev book : Book
book = book_of (run machine)

abbrev setup_of : Option Setup → Setup
setup_of none = new_setup machine 0 (minute 0 1 1 1 1) Direction.bullish
setup_of (some s) = s

abbrev sample_setup : Setup
sample_setup = setup_of book.current

-- The whole way from the bias to the plan.
run-states :
    (run machine ≡ some book)
    × (book.current ≡ some sample_setup)
    × (sample_setup.state ≡ SetupState.blocked)
    × (states book.events
        ≡ SetupState.discovered ∷ SetupState.watch ∷ SetupState.liquidity_event
          ∷ SetupState.setup_armed ∷ SetupState.entry_zone_touched ∷ SetupState.blocked ∷ [])
unfolding same_timeframe is_terminal phase_of is_allowed is_confirming index_from index_of breaks_at
    liquidity_at is_take is_taken no_wick_at is_usable_kind zone_in mark marks_from created_marks
    invalidated_marks index_in created_in_order latest_point bias_at bias atr_before atr is_untaken
    is_eligible target near_opposite is_significant sweep_is_significant sweep chase_guard_applies
    state_eq may_emit emit_at end find_break confirmation_break has_zone collect collect_zones
    after_break seek_break wait_on waiting_break approach on_sweep with_target seek_liquidity
    closes_beyond with_direction try_model further_targets plan_input finish_confirmation try_models
    confirm on_blocked live_zones usable_zones is_near touch retrace_to retrace unconfirmed
    await_confirmation guarded confirm_first track_zones advance_armed by_phase advance file
    on_candle run_from run multiple is_under is_over stop_of risk_from rr_below rr_of rounded
    distinct beyond_targets extra_targets plan_of build_plan id_eq id_lt true_range true_ranges_from
    true_ranges sum mean round_ℕ rounds_up round_ℤ scale ◌+ℤ◌ ◌-ℤ◌ max_ℤ min_ℤ dist_ℤ
run-states = (refl, refl, refl, refl)

run-Sound_example : Sound machine (length machine.candles - 1) (run machine)
run-Sound_example = run-Sound machine

run-IsUnauthorized_example : All IsUnauthorized book.events
run-IsUnauthorized_example = run-IsUnauthorized machine book run-states.0

run-IsSafe_example : (p : EntryPlan) × (sample_setup.plan ≡ some p) × IsSafe p
run-IsSafe_example =
    run-IsSafe machine book sample_setup (omega arith) (omega arith)
      (omega arith, (omega arith, (omega arith, (omega arith, (omega arith, tt))))) run-states.0
      run-states.1 run-states.2

-- A setup that has waited for the break for as long as the window.
abbrev waiting_setup : Setup
waiting_setup = record (new_setup machine 0 (minute 0 110 112 108 110) Direction.bullish) {
  state = SetupState.waiting_for_mss;
  liquidity = some (record {
    pool_id = sellside;
    pool_type = LiquidityPoolType.pdl;
    event_type = LiquidityEventType.sweep;
    time = 60;
    extreme = pos 98;
  });
  liquidity_index = 1;
  adverse = some (pos 98);
}

waiting_break-IsDecided_example :
    Good IsDecided
      (place waiting_setup)
      (waiting_break machine 17 (minute 1020 105 106 104 105) false waiting_setup)
unfolding stage_of
waiting_break-IsDecided_example =
    waiting_break-IsDecided machine 17 (minute 1020 105 106 104 105) waiting_setup refl tt
      (omega arith)
