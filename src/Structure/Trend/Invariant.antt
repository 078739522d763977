-- ===== src/Structure/Trend/Invariant.antt =====
-- The trend of services/structure/engine.py, settled or in transition, over its loop: a settled trend is
-- that of the last break.
use ict_trading_claude.Prelude.{
  ℕ, ◌+◌, ◌≡◌, ◌≢◌, ◌⊎◌, refl, Bool, true, false, ◌||◌, not, Option, none, some, List, [], ◌∷◌,
  ◌++◌, inl, inr, All, Any, Member, arith, if_both, Option-cases, any,
}
use ict_trading_claude.Prelude.Int.{ℤ}
use ict_trading_claude.Domain.Enums.{
  TrendDirection, Direction, StructureLevel, StructureEventType, StructureEventStatus, SwingKind,
}
use ict_trading_claude.Domain.Candle.{Candle}
use ict_trading_claude.Structure.Swings.{RawSwing, detect_swings}
use ict_trading_claude.Structure.Engine.{
  State, initial, RawEvent, Targets, Breaks, StructureConfig, bull_events, bear_events, confirm,
  confirm_breaks, wick_crossings, step, confirmed_at, run_from, analyze_level, is_bull, is_bear,
  targets, breaks, emit_potential, emit_potentials, update_trend, apply_type, establish, set_latest,
  record_swings, is_broken, crosses, same_swing, trend_of,
}

-- A confirmed event of candle `i`.
abbrev pub Confirmed : ℕ → RawEvent → Type 0
Confirmed i e = (e.index ≡ i) × (e.status ≡ StructureEventStatus.confirmed)

-- A confirmed break of candle `i` in this direction that sets a trend, as a CHoCH does not.
abbrev pub Sets : ℕ → Direction → RawEvent → Type 0
Sets i d e = Confirmed i e × (e.direction ≡ d) × (e.type ≢ StructureEventType.choch)

-- A settled trend is that of the last break, which is among the events.
abbrev pub Rests : State → Type 0
Rests s =
    (s.trend ≡ TrendDirection.absent)
    ⊎ (s.is_transitioning ≡ true)
    ⊎ ((d : Direction) × (last : ℕ) × (s.trend ≡ trend_of d)
        × (s.last_break_index ≡ some last)
        × Any (Sets last d) s.events)

Any-append_left : (P : RawEvent → Type 0) (xs ys : List RawEvent) → Any P xs → Any P (xs ++ ys)
Any-append_left P [] ys h = absurd h
Any-append_left P (x ∷ xs) ys (inl h) = inl h
Any-append_left P (x ∷ xs) ys (inr h) = inr (Any-append_left P xs ys h)

Any-append_right : (P : RawEvent → Type 0) (xs ys : List RawEvent) → Any P ys → Any P (xs ++ ys)
Any-append_right P [] ys h = h
Any-append_right P (x ∷ xs) ys h = inr (Any-append_right P xs ys h)

Member-Any :
    (P : RawEvent → Type 0) (e : RawEvent) (xs : List RawEvent) → P e → Member e xs → Any P xs
Member-Any P e [] p m = absurd m
Member-Any P e (x ∷ xs) p (inl same) = inl (rw (← same) p)
Member-Any P e (x ∷ xs) p (inr later) = inr (Member-Any P e xs p later)

-- More events keep what a trend rests on.
Rests-push :
    (s : State) (es : List RawEvent) → Rests s → Rests (record s { events = s.events ++ es })
Rests-push s es (inl h) = inl h
Rests-push s es (inr (inl h)) = inr (inl h)
Rests-push s es (inr (inr (d, last, t, b, a))) =
    inr (inr (d, last, t, b, Any-append_left (Sets last d) s.events es a))

confirm-Rests :
    (level : StructureLevel) (es : List RawEvent) (a b : Option RawSwing) (s : State)
    → Rests s
    → Rests (confirm level es a b s)
unfolding confirm
confirm-Rests level [] a b s h = h
confirm-Rests level (e ∷ es) a b s h = Rests-push s (e ∷ []) h

-- The first of the confirmed events is among the events of the state.
abbrev HeadHeld : ℕ → List RawEvent → State → Type 0
HeadHeld i [] s = Unit
HeadHeld i (e ∷ es) s = Confirmed i e × Member e s.events

confirm-HeadHeld :
    (level : StructureLevel) (i : ℕ) (bulls bears : List RawEvent) (a b c d : Option RawSwing)
    (s : State)
    → All (Confirmed i) bulls
    → All (Confirmed i) bears
    → HeadHeld i (bulls ++ bears) (confirm level bears c d (confirm level bulls a b s))
unfolding confirm
confirm-HeadHeld level i [] [] a b c d s p q = tt
confirm-HeadHeld level i [] (e ∷ es) a b c d s p q =
    (q.0, Any-append_right (λ x. e ≡ x) s.events (e ∷ []) (inl refl))
confirm-HeadHeld level i (e ∷ es) [] a b c d s p q =
    (p.0, Any-append_right (λ x. e ≡ x) s.events (e ∷ []) (inl refl))
confirm-HeadHeld level i (e ∷ es) (f ∷ fs) a b c d s p q = (
  p.0,
  Any-append_left (λ x. e ≡ x) (s.events ++ (e ∷ [])) (f ∷ [])
      (Any-append_right (λ x. e ≡ x) s.events (e ∷ []) (inl refl)),
)

establish-Rests :
    (i : ℕ) (d : Direction) (s : State)
    → s.last_break_index ≡ some i
    → Any (Sets i d) s.events
    → Rests (establish d s)
unfolding establish
establish-Rests i Direction.bullish s b a = inr (inr (Direction.bullish, i, refl, b, a))
establish-Rests i Direction.bearish s b a = inr (inr (Direction.bearish, i, refl, b, a))

apply_type-Rests :
    (i : ℕ) (type : StructureEventType) (d : Direction) (s : State)
    → s.last_break_index ≡ some i
    → (type ≢ StructureEventType.choch → Any (Sets i d) s.events)
    → Rests (apply_type type d s)
unfolding apply_type
apply_type-Rests i StructureEventType.choch d s b a = inr (inl refl)
apply_type-Rests i StructureEventType.bos d s b a = establish-Rests i d s b (a (ground arith))
apply_type-Rests i StructureEventType.mss d s b a = establish-Rests i d s b (a (ground arith))

update_trend-Rests :
    (i : ℕ) (both : Bool) (es : List RawEvent) (s : State)
    → HeadHeld i es s
    → Rests s
    → Rests (update_trend i both es s)
unfolding update_trend
update_trend-Rests i both [] s k h = h
update_trend-Rests i true (e ∷ es) s k h = inl refl
update_trend-Rests i false (e ∷ es) s (known, held) h =
    apply_type-Rests i e.type e.direction (record s { last_break_index = some i }) refl
      (λ n. Member-Any (Sets i e.direction) e s.events (known, refl, n) held)

bull_events-Confirmed :
    (i : ℕ) (trend : TrendDirection) (t : Targets) (b : Breaks)
    → All (Confirmed i) (bull_events i trend t b)
unfolding bull_events
bull_events-Confirmed i trend t b = ground arith

bear_events-Confirmed :
    (i : ℕ) (trend : TrendDirection) (t : Targets) (b : Breaks)
    → All (Confirmed i) (bear_events i trend t b)
unfolding bear_events
bear_events-Confirmed i trend t b = ground arith

confirm_breaks-Rests :
    (level : StructureLevel) (i : ℕ) (t : Targets) (b : Breaks) (s : State)
    → Rests s
    → Rests (confirm_breaks level i t b s)
unfolding confirm_breaks
confirm_breaks-Rests level i t b s h =
    let bulls = bull_events i s.trend t b in
    let bears = bear_events i s.trend t b in
    update_trend-Rests i _ (bulls ++ bears) _
      (confirm-HeadHeld level i bulls bears _ _ _ _ s (bull_events-Confirmed i s.trend t b)
        (bear_events-Confirmed i s.trend t b))
      (confirm-Rests level bears _ _ _ (confirm-Rests level bulls _ _ s h))

emit_potential-Rests :
    (i : ℕ) (trend : TrendDirection) (x : ℤ) (d : Direction) (p : Bool) (o : Option RawSwing)
    (s : State)
    → Rests s
    → Rests (emit_potential i trend x d p o s)
unfolding emit_potential
emit_potential-Rests i trend x d p none s h = h
emit_potential-Rests i trend x d p (some w) s h =
    if_both Rests
      (is_broken s.broken w || not (crosses d x w) || any (same_swing w) s.potential_done) s _ h
      (Rests-push (record s { potential_done = s.potential_done ++ (w ∷ []) }) _ h)

emit_potentials-Rests :
    (i : ℕ) (trend : TrendDirection) (x : ℤ) (d : Direction) (p o : Option RawSwing) (s : State)
    → Rests s
    → Rests (emit_potentials i trend x d p o s)
unfolding emit_potentials
emit_potentials-Rests i trend x d p o s h =
    emit_potential-Rests i trend x d false _ _ (emit_potential-Rests i trend x d true p s h)

wick_crossings-Rests :
    (i : ℕ) (trend : TrendDirection) (c : Candle) (t : Targets) (b : Breaks) (s : State)
    → Rests s
    → Rests (wick_crossings i trend c t b s)
unfolding wick_crossings
wick_crossings-Rests i trend c t b s h =
    let up =
      if_both Rests (is_bull b) s _ h
        (emit_potentials-Rests i trend c.high Direction.bullish t.prot_high t.target_high s h) in
    if_both Rests (is_bear b) _ _ up
      (emit_potentials-Rests i trend c.low Direction.bearish t.prot_low t.target_low _ up)

set_latest-Rests : (k : SwingKind) (w : RawSwing) (s : State) → Rests s → Rests (set_latest k w s)
unfolding set_latest
set_latest-Rests SwingKind.high w s h = h
set_latest-Rests SwingKind.low w s h = h

record_swings-Rests : (ws : List RawSwing) (s : State) → Rests s → Rests (record_swings ws s)
unfolding record_swings
record_swings-Rests [] s h = h
record_swings-Rests (w ∷ ws) s h =
    record_swings-Rests ws (set_latest w.kind w s) (set_latest-Rests w.kind w s h)

run_from-Rests :
    (level : StructureLevel) (raw : List RawSwing) (i : ℕ) (cs : List Candle) (s : State)
    → Rests s
    → Rests (run_from level raw i cs s)
unfolding run_from step
run_from-Rests level raw i [] s h = h
run_from-Rests level raw i (c ∷ cs) s h = run_from-Rests level raw (i + 1) cs _ (
    record_swings-Rests (confirmed_at raw i) _ (
      wick_crossings-Rests i s.trend c (targets s) (breaks c.close (targets s)) _
        (confirm_breaks-Rests level i (targets s) (breaks c.close (targets s)) s h)))

pub analyze_level-Rests :
    (cfg : StructureConfig) (level : StructureLevel) (cs : List Candle) (s : State)
    → analyze_level cfg level cs ≡ some s
    → Rests s
unfolding analyze_level
analyze_level-Rests cfg level cs s h =
    elim (Option-cases (detect_swings cfg.swings (cfg.pivot_length level) cs)) [
      | inl failed ↦ absurd (ground arith)
      | inr (raw, found) ↦
          let e : run_from level raw 0 cs initial ≡ s = ground arith in
          rw (← e) (run_from-Rests level raw 0 cs initial (inl refl))
    ]
