-- ===== src/Structure/Engine.antt =====
-- The sequential engine of services/structure/engine.py, candle by candle.
-- The strings that identify events and swings name candles by their open times; here they name them
-- by their positions, which the ascending open times determine.
mod Defs
mod Confirm
mod Potential
unfoldable pub use Defs.*
unfoldable pub use Confirm.*
unfoldable pub use Potential.*
use ict_trading_claude.Prelude.{
  ℕ, zero, suc, ◌+◌, ◌-◌, Bool, true, false, not, ◌&&◌, ◌||◌, Option, none, some, List, [], ◌∷◌,
  ◌++◌, length, filter, any, is_some, or_else, if◌then◌else◌, ltb, ◌==◌,
}
use ict_trading_claude.Prelude.Int.{ℤ, ltb_ℤ}
use ict_trading_claude.Domain.Enums.{
  StructureState, TrendDirection, Direction, StructureLevel, SwingKind, SwingLabel,
  StructureEventType, StructureEventStatus,
}
use ict_trading_claude.Domain.Candle.{Candle}
use ict_trading_claude.Structure.Swings.{RawSwing, SwingConfig, detect_swings}

unfoldable pub record_swings : List RawSwing → State → State
unfolding set_latest
record_swings [] st = st
record_swings (s ∷ ss) st = record_swings ss (set_latest s.kind s st)

-- The body of the loop over the candles after the targets: confirmed events, the trend, potentials.
-- A candle that closes through both sides has two events.
unfoldable pub confirm_breaks : StructureLevel → ℕ → Targets → Breaks → State → State
confirm_breaks level i t b st =
    let bulls = bull_events i st.trend t b in
    let bears = bear_events i st.trend t b in
    let st1 =
      confirm level bulls (keep_if b.bull_target t.target_high) (keep_if b.bull_mss t.prot_high)
        st in
    let st2 =
      confirm level bears (keep_if b.bear_target t.target_low) (keep_if b.bear_mss t.prot_low)
        st1 in
    update_trend i (is_bull b && is_bear b) (bulls ++ bears) st2

unfoldable pub wick_crossings : ℕ → TrendDirection → Candle → Targets → Breaks → State → State
wick_crossings i trend c t b st =
    let st' =
      if is_bull b
      then st
      else emit_potentials i trend c.high Direction.bullish t.prot_high t.target_high st in
    if is_bear b
    then st'
    else emit_potentials i trend c.low Direction.bearish t.prot_low t.target_low st'

-- One round of the loop: candle `i`, and the swings that it confirms.
unfoldable pub step : StructureLevel → ℕ → Candle → List RawSwing → State → State
step level i c confirmed st =
    let t = targets st in
    let b = breaks c.close t in
    record_swings confirmed (wick_crossings i st.trend c t b (confirm_breaks level i t b st))

-- `by_confirm.get(i, [])`.
unfoldable pub confirmed_at : List RawSwing → ℕ → List RawSwing
confirmed_at raw i = filter (λ s. s.confirm_index == i) raw

unfoldable pub run_from : StructureLevel → List RawSwing → ℕ → List Candle → State → State
run_from level raw i [] st = st
run_from level raw i (c ∷ cs) st =
    run_from level raw (i + 1) cs (step level i c (confirmed_at raw i) st)

pub record StructureConfig : Type 0 where
  pub pivot_length : StructureLevel → ℕ
  pub swings : SwingConfig
  pub ranging_bars_without_break : StructureLevel → ℕ
  pub min_candles : ℕ

abbrev pub run_on : StructureLevel → List Candle → Option (List RawSwing) → Option State
run_on level candles none = none
run_on level candles (some raw) = some (run_from level raw 0 candles initial)

-- The analysis of `analyze_level` up to its output; `none` is the ValueError of `detect_swings`.
unfoldable pub analyze_level : StructureConfig → StructureLevel → List Candle → Option State
unfolding run_from
analyze_level cfg level candles =
    run_on level candles (detect_swings cfg.swings (cfg.pivot_length level) candles)
