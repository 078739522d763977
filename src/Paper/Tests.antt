-- ===== src/Paper/Tests.antt =====
-- Paper simulations at concrete bars.
use ict_trading_claude.Prelude.{◌≡◌, ◌≢◌, refl, none, some, Option, List, [], ◌∷◌, ◌++◌, arith}
use ict_trading_claude.Prelude.Int.{pos, ◌+ℤ◌, ◌-ℤ◌, max_ℤ, min_ℤ}
use ict_trading_claude.Domain.Enums.{Direction, ExitReason, PaperEntryType, PaperStatus}
use ict_trading_claude.Domain.Candle.{Candle}
use ict_trading_claude.Paper.{
  SimParams, SimState, SimEvent, new, step, simulate, is_skipped, step_active, enter, enter_limit,
  fill_limit, wait_limit, exit_bar, exit_inside, close, track, finish_entry, sort, loop,
}
use ict_trading_claude.Paper.Step.{IsValid}
use ict_trading_claude.Paper.Outcome.{simulate-IsValid, step_stop_first, step_intrabar_no_target}
use ict_trading_claude.Paper.Loop.{and_then, simulate-append}
use ict_trading_claude.Paper.Once.{simulate-again}
use ict_trading_claude.Samples.{minute}

-- A long LIMIT at 100 with its stop at 90 and its target at 120, a spread of 2 and a slippage of 1.
abbrev order : SimParams
order = record {
  direction = Direction.bullish;
  entry_type = PaperEntryType.limit;
  limit_price = some (pos 100);
  stop = pos 90;
  target = pos 120;
  created_at = 0;
  costs = record { spread = 2; slippage = 1; commission = 0 };
  pending_expiry_bars = 5;
}

-- The first bar fills inside; the second reaches stop and target.
abbrev fills : Candle
fills = minute 0 105 125 98 110

abbrev both : Candle
both = minute 60 110 125 85 100

abbrev answer : Option (SimState × List SimEvent) → SimState × List SimEvent
answer none = (new, [])
answer (some r) = r

abbrev opened : SimState
opened = (answer (step order new fills)).0

abbrev finished : SimState
finished = (answer (simulate order new (both ∷ fills ∷ []))).0

stopped_out : (finished.exit_reason ≡ some ExitReason.stop) × (finished.exit_price ≡ some (pos 89))
unfolding step simulate is_skipped step_active enter enter_limit fill_limit wait_limit exit_bar
    exit_inside close track finish_entry sort loop ◌+ℤ◌ ◌-ℤ◌ max_ℤ min_ℤ
stopped_out = (refl, refl)

simulate-IsValid_example :
    (r : SimState × List SimEvent) × (simulate order new (both ∷ fills ∷ []) ≡ some r)
    × IsValid order r.0
simulate-IsValid_example =
    simulate-IsValid order new (both ∷ fills ∷ []) refl
      ((refl, refl), (refl, refl, refl), refl, refl, omega arith)

simulate-append_example :
    simulate order new ((fills ∷ []) ++ (both ∷ []))
    ≡ and_then (simulate order new (fills ∷ [])) (λ s'. simulate order s' (both ∷ []))
simulate-append_example = simulate-append order new (fills ∷ []) (both ∷ []) (omega arith)

simulate-again_example : simulate order finished (both ∷ fills ∷ []) ≡ some (finished, [])
unfolding step simulate is_skipped step_active enter enter_limit fill_limit wait_limit exit_bar
    exit_inside close track finish_entry sort loop ◌+ℤ◌ ◌-ℤ◌ max_ℤ min_ℤ
simulate-again_example =
    simulate-again order new (both ∷ fills ∷ []) finished
      (answer (simulate order new (both ∷ fills ∷ []))).1 refl

step_stop_first_example :
    let s' = (answer (step order opened both)).0 in
    (s'.status ≡ PaperStatus.closed) × (s'.exit_reason ≡ some ExitReason.stop)
unfolding step simulate is_skipped step_active enter enter_limit fill_limit wait_limit exit_bar
    exit_inside close track finish_entry sort loop ◌+ℤ◌ ◌-ℤ◌ max_ℤ min_ℤ
step_stop_first_example =
    step_stop_first order opened both (answer (step order opened both)).0
      (answer (step order opened both)).1 refl refl refl refl refl

step_intrabar_no_target_example : opened.exit_reason ≢ some ExitReason.target
unfolding step simulate is_skipped step_active enter enter_limit fill_limit wait_limit exit_bar
    exit_inside close track finish_entry sort loop ◌+ℤ◌ ◌-ℤ◌ max_ℤ min_ℤ
step_intrabar_no_target_example =
    step_intrabar_no_target order new fills (pos 100) opened (answer (step order new fills)).1 refl
      refl refl refl refl refl
