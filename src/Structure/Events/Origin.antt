-- ===== src/Structure/Events/Origin.antt =====
-- Where the levels of services/structure/engine.py come from: whatever holds of the detected swings holds
-- of every level in the state and of every event's swing.
use ict_trading_claude.Prelude.{
  ℕ, ◌+◌, Bool, true, false, Option, none, some, List, [], ◌∷◌, inl, inr, All, All-append, arith,
  if_both, Bool-cases, ◌==◌, ◌||◌, not, any,
}
use ict_trading_claude.Prelude.Int.{ℤ}
use ict_trading_claude.Domain.Enums.{
  TrendDirection, Direction, StructureLevel, StructureEventType, SwingKind,
}
use ict_trading_claude.Domain.Candle.{Candle}
use ict_trading_claude.Structure.Swings.{RawSwing}
use ict_trading_claude.Structure.Engine.{
  State, RawEvent, Targets, Breaks, bull_events, bear_events, confirm, confirm_breaks,
  wick_crossings, step, confirmed_at, run_from, is_bull, is_bear, targets, breaks, emit_potential,
  emit_potentials, unbroken, update_trend, apply_type, establish, set_latest, record_swings,
  is_broken, crosses, same_swing,
}
use ict_trading_claude.Structure.Events.{IfSome}
use ict_trading_claude.Structure.Events.Invariant.{unbroken-IfSome}
use ict_trading_claude.Structure.Events.Soundness.{unseen-IfSome}

module _ (P : RawSwing → Type 0) where
  abbrev OfSwings : List RawEvent → Type 0
  OfSwings es = All (λ (e : RawEvent). P e.swing) es

  -- Every level in the state and every event's swing satisfies the predicate.
  pub record Drawn (s : State) : Type 0 where
    pub latest_high : IfSome P s.latest_high
    pub latest_low : IfSome P s.latest_low
    pub prot_high : IfSome P s.protected_high
    pub prot_low : IfSome P s.protected_low
    pub events : OfSwings s.events

  abbrev TargetsDrawn : Targets → Type 0
  TargetsDrawn t =
      IfSome P t.target_high × IfSome P t.target_low × IfSome P t.prot_high × IfSome P t.prot_low

  targets-TargetsDrawn : (s : State) → Drawn s → TargetsDrawn (targets s)
  unfolding targets
  targets-TargetsDrawn s h = (
    unbroken-IfSome P s.broken s.latest_high h.latest_high,
    unbroken-IfSome P s.broken s.latest_low h.latest_low,
    if_both (IfSome P) _ _ none (unbroken-IfSome P s.broken s.protected_high h.prot_high) tt,
    if_both (IfSome P) _ _ none (unbroken-IfSome P s.broken s.protected_low h.prot_low) tt,
  )

  bull_events-OfSwings :
      (i : ℕ) (trend : TrendDirection) (t : Targets) (b : Breaks)
      → TargetsDrawn t
      → OfSwings (bull_events i trend t b)
  unfolding bull_events
  bull_events-OfSwings i trend t b h = ground arith

  bear_events-OfSwings :
      (i : ℕ) (trend : TrendDirection) (t : Targets) (b : Breaks)
      → TargetsDrawn t
      → OfSwings (bear_events i trend t b)
  unfolding bear_events
  bear_events-OfSwings i trend t b h = ground arith

  confirm-Drawn :
      (level : StructureLevel) (es : List RawEvent) (a b : Option RawSwing) (s : State)
      → OfSwings es
      → Drawn s
      → Drawn (confirm level es a b s)
  unfolding confirm
  confirm-Drawn level [] a b s k h = h
  confirm-Drawn level (e ∷ es) a b s k h = record {
    latest_high = h.latest_high;
    latest_low = h.latest_low;
    prot_high = h.prot_high;
    prot_low = h.prot_low;
    events = All-append (λ (e : RawEvent). P e.swing) s.events (e ∷ []) h.events (k.0, tt);
  }

  establish-Drawn : (d : Direction) (s : State) → Drawn s → Drawn (establish d s)
  unfolding establish
  establish-Drawn d s h =
      let hi = unbroken-IfSome P s.broken s.latest_high h.latest_high in
      let lo = unbroken-IfSome P s.broken s.latest_low h.latest_low in
      let ph = unbroken-IfSome P s.broken s.protected_high h.prot_high in
      let pl = unbroken-IfSome P s.broken s.protected_low h.prot_low in ground arith

  apply_type-Drawn :
      (type : StructureEventType) (d : Direction) (s : State)
      → Drawn s
      → Drawn (apply_type type d s)
  unfolding apply_type
  apply_type-Drawn StructureEventType.choch d s h = record {
    latest_high = h.latest_high;
    latest_low = h.latest_low;
    prot_high = h.prot_high;
    prot_low = h.prot_low;
    events = h.events;
  }
  apply_type-Drawn StructureEventType.bos d s h = establish-Drawn d s h
  apply_type-Drawn StructureEventType.mss d s h = establish-Drawn d s h

  update_trend-Drawn :
      (i : ℕ) (both : Bool) (es : List RawEvent) (s : State)
      → Drawn s
      → Drawn (update_trend i both es s)
  unfolding update_trend
  update_trend-Drawn i both [] s h = h
  update_trend-Drawn i true (e ∷ es) s h = record {
    latest_high = h.latest_high;
    latest_low = h.latest_low;
    prot_high = tt;
    prot_low = tt;
    events = h.events;
  }
  update_trend-Drawn i false (e ∷ es) s h =
      apply_type-Drawn e.type e.direction (record s { last_break_index = some i })
        (record {
          latest_high = h.latest_high;
          latest_low = h.latest_low;
          prot_high = h.prot_high;
          prot_low = h.prot_low;
          events = h.events;
        })

  emit_potential-Drawn :
      (i : ℕ) (trend : TrendDirection) (x : ℤ) (d : Direction) (p : Bool) (o : Option RawSwing)
      (s : State)
      → IfSome P o
      → Drawn s
      → Drawn (emit_potential i trend x d p o s)
  unfolding emit_potential
  emit_potential-Drawn i trend x d p none s k h = h
  emit_potential-Drawn i trend x d p (some w) s k h =
      elim (Bool-cases
        (is_broken s.broken w || not (crosses d x w) || any (same_swing w) s.potential_done)) [
          | inl skip ↦ rw skip h
          | inr add ↦ rw add (record {
            latest_high = h.latest_high;
            latest_low = h.latest_low;
            prot_high = h.prot_high;
            prot_low = h.prot_low;
            events = All-append (λ (e : RawEvent). P e.swing) s.events _ h.events (k, tt);
          })
        ]

  emit_potentials-Drawn :
      (i : ℕ) (trend : TrendDirection) (x : ℤ) (d : Direction) (p o : Option RawSwing) (s : State)
      → IfSome P p
      → IfSome P o
      → Drawn s
      → Drawn (emit_potentials i trend x d p o s)
  unfolding emit_potentials
  emit_potentials-Drawn i trend x d p o s kp ko h =
      emit_potential-Drawn i trend x d false _ _ (unseen-IfSome P (unbroken s.broken p) o ko)
        (emit_potential-Drawn i trend x d true p s kp h)

  confirm_breaks-Drawn :
      (level : StructureLevel) (i : ℕ) (t : Targets) (b : Breaks) (s : State)
      → TargetsDrawn t
      → Drawn s
      → Drawn (confirm_breaks level i t b s)
  unfolding confirm_breaks
  confirm_breaks-Drawn level i t b s k h = update_trend-Drawn i _ _ _ (
      confirm-Drawn level _ _ _ _ (bear_events-OfSwings i s.trend t b k)
        (confirm-Drawn level _ _ _ s (bull_events-OfSwings i s.trend t b k) h))

  wick_crossings-Drawn :
      (i : ℕ) (trend : TrendDirection) (c : Candle) (t : Targets) (b : Breaks) (s : State)
      → TargetsDrawn t
      → Drawn s
      → Drawn (wick_crossings i trend c t b s)
  unfolding wick_crossings
  wick_crossings-Drawn i trend c t b s (th, tl, ph, pl) h =
      let up = emit_potentials-Drawn i trend c.high Direction.bullish t.prot_high t.target_high s in
      let h' = if_both Drawn (is_bull b) s _ h (up ph th h) in
      if_both Drawn (is_bear b) _ _ h'
        (emit_potentials-Drawn i trend c.low Direction.bearish t.prot_low t.target_low _ pl tl h')

  set_latest-Drawn :
      (k : SwingKind) (w : RawSwing) (s : State) → P w → Drawn s → Drawn (set_latest k w s)
  unfolding set_latest
  set_latest-Drawn SwingKind.high w s p h = record {
    latest_high = p;
    latest_low = h.latest_low;
    prot_high = h.prot_high;
    prot_low = h.prot_low;
    events = h.events;
  }
  set_latest-Drawn SwingKind.low w s p h = record {
    latest_high = h.latest_high;
    latest_low = p;
    prot_high = h.prot_high;
    prot_low = h.prot_low;
    events = h.events;
  }

  record_swings-Drawn :
      (ws : List RawSwing) (s : State) → All P ws → Drawn s → Drawn (record_swings ws s)
  unfolding record_swings
  record_swings-Drawn [] s a h = h
  record_swings-Drawn (w ∷ ws) s a h =
      record_swings-Drawn ws (set_latest w.kind w s) a.1 (set_latest-Drawn w.kind w s a.0 h)

  confirmed_at-All : (raw : List RawSwing) (i : ℕ) → All P raw → All P (confirmed_at raw i)
  unfolding confirmed_at
  confirmed_at-All [] i a = tt
  confirmed_at-All (w ∷ raw) i a =
      let rest = confirmed_at-All raw i a.1 in
      if_both (All P) (w.confirm_index == i) (w ∷ confirmed_at raw i) (confirmed_at raw i)
        (a.0, rest) rest

  -- The loop only draws levels from the swings that it is given.
  pub run_from-Drawn :
      (level : StructureLevel) (raw : List RawSwing) (i : ℕ) (cs : List Candle) (s : State)
      → All P raw
      → Drawn s
      → Drawn (run_from level raw i cs s)
  unfolding run_from step
  run_from-Drawn level raw i [] s a h = h
  run_from-Drawn level raw i (c ∷ cs) s a h =
      let t = targets s in
      let k = targets-TargetsDrawn s h in
      run_from-Drawn level raw (i + 1) cs _ a (
        record_swings-Drawn (confirmed_at raw i) _ (confirmed_at-All raw i a) (
          wick_crossings-Drawn i s.trend c t (breaks c.close t) _ k
            (confirm_breaks-Drawn level i t (breaks c.close t) s k h)))
