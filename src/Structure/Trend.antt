-- ===== src/Structure/Trend.antt =====
-- What the state of a level in services/structure/engine.py rests on: the break that set its trend.
pub mod Invariant
use ict_trading_claude.Prelude.{
  ap, ◌<◌, ℕ, ◌-◌, ◌≤◌, ◌≡◌, ◌≢◌, ◌⊎◌, sym, ◌∙◌, false, Option, some, List, inl, inr, Any, arith,
  length,
}
use ict_trading_claude.Domain.Enums.{SwingLabel, TrendDirection, Direction, StructureLevel}
use ict_trading_claude.Domain.Candle.{Candle}
use ict_trading_claude.Structure.Swings.{RawSwing}
use ict_trading_claude.Structure.Engine.{State, StructureConfig, analyze_level, trend_of}
use ict_trading_claude.Structure.Output.{state_of, ranges_since, is_quiet, state_for}
use ict_trading_claude.Structure.Trend.Invariant.{Sets, analyze_level-Rests}

-- The latest swings were both confirmed after the last break, and compress (a lower or equal high with
-- a higher or equal low) or expand (a higher high with a lower low).
abbrev pub HasRanged : ℕ → State → Type 0
HasRanged last s =
    (h : RawSwing) × (l : RawSwing) × (s.latest_high ≡ some h)
    × (s.latest_low ≡ some l)
    × (last < h.confirm_index)
    × (last < l.confirm_index)
    × ((((h.label ≡ SwingLabel.lh) ⊎ (h.label ≡ SwingLabel.eh))
          × ((l.label ≡ SwingLabel.hl) ⊎ (l.label ≡ SwingLabel.el)))
        ⊎ ((h.label ≡ SwingLabel.hh) × (l.label ≡ SwingLabel.ll)))

-- What a directional state says of the candles and the trend.
abbrev pub Settled : ℕ → StructureConfig → Direction → State → Type 0
Settled n cfg d s = (cfg.min_candles ≤ n) × (s.trend ≡ trend_of d) × (s.is_transitioning ≡ false)

state_of_lem :
    (n : ℕ) (s : State) (cfg : StructureConfig) (level : StructureLevel) (d : Direction)
    → state_of n s cfg level ≡ state_for d
    → Settled n cfg d s
      × (ranges_since s.last_break_index s.latest_high s.latest_low ≡ false)
      × (is_quiet n s.last_break_index (cfg.ranging_bars_without_break level) ≡ false)
unfolding state_of
state_of_lem n s cfg level Direction.bullish h = ground arith
state_of_lem n s cfg level Direction.bearish h = ground arith

ranges_since_lem :
    (last : ℕ) (s : State)
    → s.last_break_index ≡ some last
    → ranges_since s.last_break_index s.latest_high s.latest_low ≡ false
    → ¬ HasRanged last s
unfolding ranges_since
ranges_since_lem last s b n (h, l, eh, el, ch, cl, labels) =
    let e : ranges_since (some last) (some h) (some l) ≡ false =
      ap (λ o. ranges_since o (some h) (some l)) (sym b)
      ∙ ap (λ o. ranges_since s.last_break_index o (some l)) (sym eh)
      ∙ ap (ranges_since s.last_break_index s.latest_high) (sym el)
      ∙ n in
    ground arith

is_quiet_lem :
    (n last : ℕ) (o : Option ℕ) (bars : ℕ)
    → o ≡ some last
    → is_quiet n o bars ≡ false
    → n - 1 - last ≤ bars
unfolding is_quiet
is_quiet_lem n last o bars e h = ground arith

no_trend : (d : Direction) → trend_of d ≢ TrendDirection.absent
no_trend Direction.bullish = ground arith
no_trend Direction.bearish = ground arith

trend_of-injective : (d e : Direction) → trend_of d ≡ trend_of e → d ≡ e
trend_of-injective Direction.bullish e h = ground arith
trend_of-injective Direction.bearish e h = ground arith

-- An analysis whose state is bullish or bearish has enough candles and a trend of that direction that is
-- not in transition, its latest swings have not ranged since the last break, and the trend rests on a
-- confirmed BOS or MSS of that direction among the events, which was the last break and stands within
-- the configured number of bars of the end.
pub state_of-Settled :
    (cfg : StructureConfig) (level : StructureLevel) (cs : List Candle) (s : State) (d : Direction)
    → analyze_level cfg level cs ≡ some s
    → state_of (length cs) s cfg level ≡ state_for d
    → Settled (length cs) cfg d s
      × (last : ℕ) × (s.last_break_index ≡ some last)
      × (length cs - 1 - last ≤ cfg.ranging_bars_without_break level)
      × (¬ HasRanged last s)
      × Any (Sets last d) s.events
state_of-Settled cfg level cs s d h e =
    let (settled, ranged, recent) = state_of_lem (length cs) s cfg level d e in
    elim (analyze_level-Rests cfg level cs s h) [
      | inl none_yet ↦ absurd (no_trend d (sym settled.1 ∙ none_yet))
      | inr (inl moving) ↦ absurd (ground arith)
      | inr (inr (d', last, t, b, a)) ↦
          let same : d' ≡ d = trend_of-injective d' d (sym t ∙ settled.1) in
          (
            settled,
            last,
            b,
            is_quiet_lem (length cs) last s.last_break_index (cfg.ranging_bars_without_break level)
                b recent,
            ranges_since_lem last s b ranged,
            rw (← same) a,
          )
    ]
