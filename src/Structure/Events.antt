-- ===== src/Structure/Events.antt =====
-- What the events of services/structure/engine.py mean: which swing is broken, by which candle, and
-- how the event's type follows from the trend before it.
pub mod Invariant
pub mod Soundness
pub mod Analysis
pub mod Origin
use ict_trading_claude.Prelude.{
  ℕ, ◌≤◌, ◌<◌, ◌≡◌, refl, Bool, true, false, Option, none, some, List, [], ◌∷◌, ◌⊎◌, inl, inr, All,
  arith, if◌then◌else◌, if_both, Bool-cases,
}
use ict_trading_claude.Prelude.Int.{ℤ, ◌<ℤ◌, ◌≤ℤ◌}
use ict_trading_claude.Domain.Enums.{
  TrendDirection, Direction, StructureEventType, StructureEventStatus, SwingKind,
}
use ict_trading_claude.Domain.Candle.{Candle}
use ict_trading_claude.Structure.Swings.{RawSwing}
use ict_trading_claude.Structure.Engine.{
  State, RawEvent, Broken, Targets, Breaks, bull_events, bear_events, confirmed_event, classify,
  trend_of, trend_eq, breaks, is_above, is_below, is_bull, is_bear, emit_potential, emit_potentials,
  unseen, unbroken, is_broken, crosses, targets,
}

-- An optional value satisfies a predicate if it is there.
abbrev pub IfSome {ℓ} : {A : Type 0} → (A → Type ℓ) → Option A → Type ℓ
IfSome P none = Unit
IfSome P (some a) = P a

abbrev pub opposite : Direction → Direction
opposite Direction.bullish = Direction.bearish
opposite Direction.bearish = Direction.bullish

abbrev pub kind_of : Direction → SwingKind
kind_of Direction.bullish = SwingKind.high
kind_of Direction.bearish = SwingKind.low

-- How the candle passed the level: its close beyond it, or only its wick.
abbrev pub Crossed : StructureEventStatus → Direction → ℤ → Candle → Type 0
Crossed StructureEventStatus.confirmed Direction.bullish p c = p <ℤ c.close
Crossed StructureEventStatus.confirmed Direction.bearish p c = c.close <ℤ p
Crossed StructureEventStatus.potential Direction.bullish p c = (p <ℤ c.high) × (c.close ≤ℤ p)
Crossed StructureEventStatus.potential Direction.bearish p c = (c.low <ℤ p) × (p ≤ℤ c.close)

-- A BOS goes with the trend or starts one; a CHoCH and an MSS go against it.
abbrev pub Typed : StructureEventType → Direction → TrendDirection → Type 0
Typed StructureEventType.bos d trend = (trend ≡ TrendDirection.absent) ⊎ (trend ≡ trend_of d)
Typed StructureEventType.choch d trend = trend ≡ trend_of (opposite d)
Typed StructureEventType.mss d trend = trend ≡ trend_of (opposite d)

abbrev pub SoundAt : Candle → RawEvent → Type 0
SoundAt c e =
    (e.swing.confirm_index < e.index)
    × (e.swing.kind ≡ kind_of e.direction)
    × Crossed e.status e.direction e.swing.price c
    × Typed e.type e.direction e.trend_before

-- A swing of this kind that was confirmed before candle `i`.
abbrev pub Known : SwingKind → ℕ → RawSwing → Type 0
Known k i s = (s.kind ≡ k) × (s.confirm_index < i)

abbrev pub ProtectedBy : SwingKind → ℕ → TrendDirection → TrendDirection → RawSwing → Type 0
ProtectedBy k i t trend s = (s.kind ≡ k) × (s.confirm_index < i) × (trend ≡ t)

pub record TargetsKnown (i : ℕ) (trend : TrendDirection) (t : Targets) : Type 0 where
  pub target_high : IfSome (Known SwingKind.high i) t.target_high
  pub target_low : IfSome (Known SwingKind.low i) t.target_low
  pub prot_high : IfSome (ProtectedBy SwingKind.high i TrendDirection.bearish trend) t.prot_high
  pub prot_low : IfSome (ProtectedBy SwingKind.low i TrendDirection.bullish trend) t.prot_low

module _ (i : ℕ) (trend : TrendDirection) (c : Candle) (t : Targets)
    (k : TargetsKnown i trend t) where
  pub bull_events-SoundAt : All (SoundAt c) (bull_events i trend t (breaks c.close t))
  unfolding bull_events breaks is_above classify
  bull_events-SoundAt = ground arith

  pub bear_events-SoundAt : All (SoundAt c) (bear_events i trend t (breaks c.close t))
  unfolding bear_events breaks is_below classify
  bear_events-SoundAt = ground arith
