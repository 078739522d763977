-- ===== src/Structure/Events/Invariant.antt =====
-- What is known of the levels in the state of services/structure/engine.py, between two candles.
use ict_trading_claude.Prelude.{
  ℕ, ◌+◌, ◌<◌, ◌≡◌, refl, Bool, true, false, Option, none, some, List, [], ◌∷◌, All, arith, if_both,
  get_elem?,
}
use ict_trading_claude.Prelude.Int.{ℤ}
use ict_trading_claude.Domain.Enums.{
  TrendDirection, Direction, StructureLevel, StructureEventType, SwingKind,
}
use ict_trading_claude.Domain.Candle.{Candle}
use ict_trading_claude.Structure.Swings.{RawSwing}
use ict_trading_claude.Structure.Engine.{
  State, RawEvent, Broken, confirm, update_trend, apply_type, establish, set_latest, record_swings,
  confirmed_at, targets, emit_potential, unbroken, is_broken,
}
use ict_trading_claude.Structure.Events.{IfSome, SoundAt, Known, ProtectedBy, TargetsKnown}

-- Sound at the candle that the event stands at.
abbrev pub Sound : List Candle → RawEvent → Type 0
Sound cs e = (c : Candle) × (get_elem? cs e.index ≡ some c) × SoundAt c e

-- What the state's levels are known to be before candle `i`.
pub record Levels (i : ℕ) (s : State) : Type 0 where
  pub latest_high : IfSome (Known SwingKind.high i) s.latest_high
  pub latest_low : IfSome (Known SwingKind.low i) s.latest_low
  pub prot_high :
      IfSome (ProtectedBy SwingKind.high i TrendDirection.bearish s.trend) s.protected_high
  pub prot_low : IfSome (ProtectedBy SwingKind.low i TrendDirection.bullish s.trend) s.protected_low

pub unbroken-IfSome :
    (P : RawSwing → Type 0) (bs : List Broken) (o : Option RawSwing)
    → IfSome P o
    → IfSome P (unbroken bs o)
unfolding unbroken
unbroken-IfSome P bs none h = tt
unbroken-IfSome P bs (some s) h = if_both (IfSome P) (is_broken bs s) none (some s) tt h

pub targets-TargetsKnown : (i : ℕ) (s : State) → Levels i s → TargetsKnown i s.trend (targets s)
unfolding targets
targets-TargetsKnown i s h = record {
  target_high = unbroken-IfSome _ s.broken s.latest_high h.latest_high;
  target_low = unbroken-IfSome _ s.broken s.latest_low h.latest_low;
  prot_high =
      if_both (IfSome (ProtectedBy SwingKind.high i TrendDirection.bearish s.trend)) _ _ none
        (unbroken-IfSome _ s.broken s.protected_high h.prot_high) tt;
  prot_low =
      if_both (IfSome (ProtectedBy SwingKind.low i TrendDirection.bullish s.trend)) _ _ none
        (unbroken-IfSome _ s.broken s.protected_low h.prot_low) tt;
}

-- The levels only depend on the fields that `confirm` and the potentials leave alone.
abbrev pub SameLevels : State → State → Type 0
SameLevels s t =
    (t.trend ≡ s.trend)
    × (t.latest_high ≡ s.latest_high)
    × (t.latest_low ≡ s.latest_low)
    × (t.protected_high ≡ s.protected_high)
    × (t.protected_low ≡ s.protected_low)

pub Levels-SameLevels : (i : ℕ) (s t : State) → SameLevels s t → Levels i s → Levels i t
Levels-SameLevels i s t (p, q, r, u, v) h = record {
  latest_high = rw q h.latest_high;
  latest_low = rw r h.latest_low;
  prot_high = rw (p, u) h.prot_high;
  prot_low = rw (p, v) h.prot_low;
}

pub confirm-SameLevels :
    (level : StructureLevel) (es : List RawEvent) (a b : Option RawSwing) (s : State)
    → SameLevels s (confirm level es a b s)
unfolding confirm
confirm-SameLevels level [] a b s = (refl, refl, refl, refl, refl)
confirm-SameLevels level (e ∷ es) a b s = (refl, refl, refl, refl, refl)

pub emit_potential-SameLevels :
    (i : ℕ) (trend : TrendDirection) (x : ℤ) (d : Direction) (p : Bool) (o : Option RawSwing)
    (s : State)
    → SameLevels s (emit_potential i trend x d p o s)
unfolding emit_potential
emit_potential-SameLevels i trend x d p none s = (refl, refl, refl, refl, refl)
emit_potential-SameLevels i trend x d p (some w) s =
    if_both (SameLevels s) _ s _ (refl, refl, refl, refl, refl) (refl, refl, refl, refl, refl)

establish-Levels : (i : ℕ) (d : Direction) (s : State) → Levels i s → Levels i (establish d s)
unfolding establish
establish-Levels i d s h =
    let hi = unbroken-IfSome _ s.broken s.latest_high h.latest_high in
    let lo = unbroken-IfSome _ s.broken s.latest_low h.latest_low in
    let ph = unbroken-IfSome _ s.broken s.protected_high h.prot_high in
    let pl = unbroken-IfSome _ s.broken s.protected_low h.prot_low in ground arith

apply_type-Levels :
    (i : ℕ) (type : StructureEventType) (d : Direction) (s : State)
    → Levels i s
    → Levels i (apply_type type d s)
unfolding apply_type
apply_type-Levels i StructureEventType.choch d s h =
    Levels-SameLevels i s _ (refl, refl, refl, refl, refl) h
apply_type-Levels i StructureEventType.bos d s h = establish-Levels i d s h
apply_type-Levels i StructureEventType.mss d s h = establish-Levels i d s h

pub update_trend-Levels :
    (i j : ℕ) (both : Bool) (es : List RawEvent) (s : State)
    → Levels i s
    → Levels i (update_trend j both es s)
unfolding update_trend
update_trend-Levels i j both [] s h = h
update_trend-Levels i j true (e ∷ es) s h = record {
  latest_high = h.latest_high;
  latest_low = h.latest_low;
  prot_high = tt;
  prot_low = tt;
}
update_trend-Levels i j false (e ∷ es) s h =
    let s' = record s { last_break_index = some j } in
    apply_type-Levels i e.type e.direction s'
      (Levels-SameLevels i s s' (refl, refl, refl, refl, refl) h)

-- Levels are known a candle later too, and the swings that candle `i` confirms are known from then on.
pub Levels-suc : (i : ℕ) (s : State) → Levels i s → Levels (i + 1) s
Levels-suc i s h = record {
  latest_high = later_known SwingKind.high s.latest_high h.latest_high;
  latest_low = later_known SwingKind.low s.latest_low h.latest_low;
  prot_high = later_protected SwingKind.high TrendDirection.bearish s.protected_high h.prot_high;
  prot_low = later_protected SwingKind.low TrendDirection.bullish s.protected_low h.prot_low;
}
  where
    later_known :
        (k : SwingKind) (o : Option RawSwing) → IfSome (Known k i) o → IfSome (Known k (i + 1)) o
    later_known k none h = tt
    later_known k (some w) h = (h.0, omega arith)

    later_protected :
        (k : SwingKind) (t : TrendDirection) (o : Option RawSwing)
        → IfSome (ProtectedBy k i t s.trend) o
        → IfSome (ProtectedBy k (i + 1) t s.trend) o
    later_protected k t none h = tt
    later_protected k t (some w) h = (h.0, omega arith, h.2)

set_latest-Levels :
    (i : ℕ) (w : RawSwing) (k : SwingKind) (s : State)
    → w.kind ≡ k
    → w.confirm_index < i
    → Levels i s
    → Levels i (set_latest k w s)
unfolding set_latest
set_latest-Levels i w SwingKind.high s e c h = record {
  latest_high = (e, c);
  latest_low = h.latest_low;
  prot_high = h.prot_high;
  prot_low = h.prot_low;
}
set_latest-Levels i w SwingKind.low s e c h = record {
  latest_high = h.latest_high;
  latest_low = (e, c);
  prot_high = h.prot_high;
  prot_low = h.prot_low;
}

pub record_swings-Levels :
    (i : ℕ) (ws : List RawSwing) (s : State)
    → All (λ w. w.confirm_index < i) ws
    → Levels i s
    → Levels i (record_swings ws s)
unfolding record_swings
record_swings-Levels i [] s a h = h
record_swings-Levels i (w ∷ ws) s a h =
    record_swings-Levels i ws (set_latest w.kind w s) a.1
      (set_latest-Levels i w w.kind s refl a.0 h)

pub record_swings-events : (ws : List RawSwing) (s : State) → (record_swings ws s).events ≡ s.events
unfolding record_swings set_latest
record_swings-events [] s = refl
record_swings-events (w ∷ ws) s = ground (arith, record_swings-events ws (set_latest w.kind w s))

pub confirmed_at-confirm :
    (raw : List RawSwing) (i : ℕ) → All (λ w. w.confirm_index < i + 1) (confirmed_at raw i)
unfolding confirmed_at
confirmed_at-confirm [] i = tt
confirmed_at-confirm (w ∷ raw) i = ground (arith, confirmed_at-confirm raw i)

-- The events of one candle, from sound ones at that candle.
pub All-Sound :
    (cs : List Candle) (i : ℕ) (c : Candle) (es : List RawEvent)
    → get_elem? cs i ≡ some c
    → All (λ e. e.index ≡ i) es
    → All (SoundAt c) es
    → All (Sound cs) es
All-Sound cs i c [] g a h = tt
All-Sound cs i c (e ∷ es) g a h = ((c, rw a.0 g, h.0), All-Sound cs i c es g a.1 h.1)
