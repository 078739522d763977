-- ===== src/Entry/Tests.antt =====
-- A plan at concrete prices.
use ict_trading_claude.Prelude.{ℕ, ◌≡◌, refl, some, [], ◌∷◌, false, arith}
use ict_trading_claude.Prelude.Int.{pos, ◌-ℤ◌, scale}
use ict_trading_claude.Prelude.Round.{round_ℤ, round_ℕ, rounds_up}
use ict_trading_claude.Domain.Enums.{Direction, EntryMode, EntryModel}
use ict_trading_claude.Entry.{
  EntryConfig, PlanInput, build_plan, planned, missed, plan_of, multiple, is_under, is_over,
  stop_of, rounded, risk_from, rr_below, distinct, beyond_targets, extra_targets, rr_too_low,
  chase_reason, price_moved_away,
}
use ict_trading_claude.Entry.Plan.{IsSafe, build_plan-IsSafe}

abbrev config : EntryConfig
config = record {
  mode = EntryMode.standard;
  models = EntryModel.m15_close ∷ [];
  min_rr = record { num = 2; den = 1 };
  execution_step = 60;
  ltf_break_types = [];
  confirmation_window_bars = 8;
  stop_buffer_atr = record { num = 1; den = 10 };
  min_tp1_atr = record { num = 1; den = 1 };
  target_distinct_atr = record { num = 1; den = 4 };
  include_confirmed_ifvg = false;
}

-- A long at 120 with its protective low at 98 and an ATR of 20.
abbrev input : ℕ → PlanInput
input tp1 = record {
  direction = Direction.bullish;
  model = EntryModel.m15_close;
  mode = EntryMode.standard;
  confirmed_at = 240;
  zone_id = [];
  entry = pos 120;
  protective = pos 98;
  tp1 = pos tp1;
  further_targets = pos 230 ∷ pos 190 ∷ pos 203 ∷ pos 220 ∷ pos 222 ∷ [];
  atr = record { num = pos 20; den = 1 };
  research_only = false;
}

built : build_plan config (input 200) ≡ planned (plan_of config (input 200))
unfolding build_plan multiple is_under stop_of risk_from rr_below scale ◌-ℤ◌
built = refl

-- The further targets that are a quarter of an ATR apart, nearest first.
targets : extra_targets config (input 200) ≡ pos 220 ∷ pos 230 ∷ []
unfolding extra_targets distinct beyond_targets multiple is_over scale ◌-ℤ◌
targets = refl

too_low : build_plan config (input 160) ≡ missed rr_too_low
unfolding build_plan multiple is_under stop_of risk_from rr_below scale ◌-ℤ◌
too_low = refl

chased : chase_reason (plan_of config (input 200)) (pos 180) ≡ some price_moved_away
unfolding chase_reason rounded round_ℤ round_ℕ rounds_up plan_of extra_targets distinct
    beyond_targets multiple is_over stop_of risk_from rr_below scale ◌-ℤ◌
chased = refl

build_plan-IsSafe_example : IsSafe (plan_of config (input 200))
build_plan-IsSafe_example =
    build_plan-IsSafe config (input 200) (plan_of config (input 200)) (omega arith) (omega arith)
      (omega arith) (omega arith) built
