-- ===== src/Structure/Engine/Potential.antt =====
-- Wick-only crossings and newly confirmed swings of services/structure/engine.py.
use ict_trading_claude.Prelude.{
  ℕ, Bool, true, false, not, ◌||◌, Option, none, some, [], ◌∷◌, ◌++◌, any, if◌then◌else◌,
}
use ict_trading_claude.Prelude.Int.{ℤ, ltb_ℤ}
use ict_trading_claude.Domain.Enums.{TrendDirection, Direction, SwingKind, StructureEventStatus}
use ict_trading_claude.Structure.Swings.{RawSwing}
use ict_trading_claude.Structure.Engine.Defs.{same_swing, State, is_broken, unbroken, classify}

abbrev pub crosses : Direction → ℤ → RawSwing → Bool
crosses Direction.bullish extreme s = ltb_ℤ s.price extreme
crosses Direction.bearish extreme s = ltb_ℤ extreme s.price

-- One candidate of `_emit_potentials`.
unfoldable pub emit_potential :
    ℕ → TrendDirection → ℤ → Direction → Bool → Option RawSwing → State → State
emit_potential i trend extreme direction through_protected none st = st
emit_potential i trend extreme direction through_protected (some s) st =
    if is_broken st.broken s
      || not (crosses direction extreme s)
      || any (same_swing s) st.potential_done
    then st
    else record st {
      potential_done = st.potential_done ++ (s ∷ []);
      events =
          st.events
          ++ (record {
            index = i;
            type = classify trend direction through_protected;
            direction = direction;
            status = StructureEventStatus.potential;
            swing = s;
            trend_before = trend;
            ambiguous = false;
          }
              ∷ []);
    }

-- `id(swing) in seen` for the second candidate.
abbrev pub unseen : Option RawSwing → Option RawSwing → Option RawSwing
unseen none o = o
unseen (some s) none = none
unseen (some s) (some t) = if same_swing s t then none else some t

-- `_emit_potentials`, over the protected and the target swing.
unfoldable pub emit_potentials :
    ℕ → TrendDirection → ℤ → Direction → Option RawSwing → Option RawSwing → State → State
emit_potentials i trend extreme direction prot target st =
    emit_potential i trend extreme direction false (unseen (unbroken st.broken prot) target)
      (emit_potential i trend extreme direction true prot st)

-- `st.latest[s.kind] = s` for each swing confirmed at this candle.
unfoldable pub set_latest : SwingKind → RawSwing → State → State
set_latest SwingKind.high s st = record st { latest_high = some s }
set_latest SwingKind.low s st = record st { latest_low = some s }
