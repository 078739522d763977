-- ===== src/Structure/Events/Soundness.antt =====
-- Each part of a round of services/structure/engine.py adds only sound events.
use ict_trading_claude.Prelude.{
  ℕ, ◌<◌, ◌≡◌, refl, Bool, true, false, not, ◌||◌, Option, none, some, List, [], ◌∷◌, inl, inr, All,
  All-append, arith, if_both, Bool-cases, get_elem?, any,
}
use ict_trading_claude.Prelude.Int.{ℤ, ◌≤ℤ◌}
use ict_trading_claude.Domain.Enums.{
  TrendDirection, Direction, StructureLevel, StructureEventStatus,
}
use ict_trading_claude.Domain.Candle.{Candle}
use ict_trading_claude.Structure.Swings.{RawSwing}
use ict_trading_claude.Structure.Engine.{
  State, RawEvent, Targets, confirm, update_trend, apply_type, establish, is_bull, is_bear, breaks,
  is_above, is_below, classify, trend_of, emit_potential, emit_potentials, unseen, unbroken,
  is_broken, crosses, same_swing,
}
use ict_trading_claude.Structure.Events.{IfSome, opposite, kind_of, SoundAt, TargetsKnown}
use ict_trading_claude.Structure.Events.Invariant.{Sound}

abbrev pub NotBeyond : Direction → Candle → ℤ → Type 0
NotBeyond Direction.bullish c p = c.close ≤ℤ p
NotBeyond Direction.bearish c p = p ≤ℤ c.close

abbrev pub Against : Bool → Direction → TrendDirection → Type 0
Against true d trend = trend ≡ trend_of (opposite d)
Against false d trend = Unit

abbrev pub extreme : Direction → Candle → ℤ
extreme Direction.bullish c = c.high
extreme Direction.bearish c = c.low

-- A level that the close of candle `c` is not beyond.
abbrev pub Candidate : Direction → Bool → ℕ → TrendDirection → Candle → RawSwing → Type 0
Candidate d p i trend c s =
    (s.kind ≡ kind_of d) × (s.confirm_index < i) × NotBeyond d c s.price × Against p d trend

pub unseen-IfSome :
    (P : RawSwing → Type 0) (a o : Option RawSwing) → IfSome P o → IfSome P (unseen a o)
unseen-IfSome P none o h = h
unseen-IfSome P (some s) none h = tt
unseen-IfSome P (some s) (some t) h = if_both (IfSome P) (same_swing s t) none (some t) tt h

abbrev pub AllSound : List Candle → State → Type 0
AllSound cs s = All (Sound cs) s.events

module _ (cs : List Candle) (i : ℕ) (c : Candle) (at : get_elem? cs i ≡ some c) where
  potential_sound :
      (trend : TrendDirection) (d : Direction) (p : Bool) (w : RawSwing)
      → Candidate d p i trend c w
      → crosses d (extreme d c) w ≡ true
      → SoundAt c (record {
        index = i;
        type = classify trend d p;
        direction = d;
        status = StructureEventStatus.potential;
        swing = w;
        trend_before = trend;
        ambiguous = false;
      })
  unfolding classify
  potential_sound trend d p w k x = ground arith

  emit_potential-AllSound :
      (trend : TrendDirection) (d : Direction) (p : Bool) (o : Option RawSwing) (s : State)
      → IfSome (Candidate d p i trend c) o
      → AllSound cs s
      → AllSound cs (emit_potential i trend (extreme d c) d p o s)
  unfolding emit_potential
  emit_potential-AllSound trend d p none s k h = h
  emit_potential-AllSound trend d p (some w) s k h =
      elim (Bool-cases (
        is_broken s.broken w
        || not (crosses d (extreme d c) w)
        || any (same_swing w) s.potential_done)) [
          | inl skip ↦ rw skip h
          | inr add ↦ rw add (
              All-append (Sound cs) s.events _ h
                ((c, at, potential_sound trend d p w k (ground arith)), tt))
        ]

  pub emit_potentials-AllSound :
      (trend : TrendDirection) (d : Direction) (p o : Option RawSwing) (s : State)
      → IfSome (Candidate d true i trend c) p
      → IfSome (Candidate d false i trend c) o
      → AllSound cs s
      → AllSound cs (emit_potentials i trend (extreme d c) d p o s)
  unfolding emit_potentials
  emit_potentials-AllSound trend d p o s kp ko h =
      emit_potential-AllSound trend d false (unseen (unbroken s.broken p) o) _
        (unseen-IfSome (Candidate d false i trend c) (unbroken s.broken p) o ko)
        (emit_potential-AllSound trend d true p s kp h)

  pub confirm-AllSound :
      (level : StructureLevel) (es : List RawEvent) (a b : Option RawSwing) (s : State)
      → All (Sound cs) es
      → AllSound cs s
      → AllSound cs (confirm level es a b s)
  unfolding confirm
  confirm-AllSound level [] a b s k h = h
  confirm-AllSound level (e ∷ es) a b s k h = All-append (Sound cs) s.events (e ∷ []) h (k.0, tt)

-- Levels that the close does not break are candidates for a wick crossing.
module _ (i : ℕ) (trend : TrendDirection) (c : Candle) (t : Targets)
    (k : TargetsKnown i trend t) where
  pub bull_candidates :
      is_bull (breaks c.close t) ≡ false
      → IfSome (Candidate Direction.bullish true i trend c) t.prot_high
        × IfSome (Candidate Direction.bullish false i trend c) t.target_high
  unfolding breaks is_above
  bull_candidates h = ground arith

  pub bear_candidates :
      is_bear (breaks c.close t) ≡ false
      → IfSome (Candidate Direction.bearish true i trend c) t.prot_low
        × IfSome (Candidate Direction.bearish false i trend c) t.target_low
  unfolding breaks is_below
  bear_candidates h = ground arith

pub update_trend-events :
    (i : ℕ) (both : Bool) (es : List RawEvent) (s : State)
    → (update_trend i both es s).events ≡ s.events
unfolding update_trend apply_type establish
update_trend-events i both [] s = refl
update_trend-events i true (e ∷ es) s = refl
update_trend-events i false (e ∷ es) s = ground arith
