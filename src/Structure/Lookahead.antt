-- ===== src/Structure/Lookahead.antt =====
-- The engine has no lookahead: services/structure/engine.py on a prefix of the candles reports what it
-- reports of that prefix on all of them.
use ict_trading_claude.Prelude.{
  ℕ, ◌+◌, ◌≤◌, ◌<◌, ◌≡◌, refl, ap, ◌∙◌, Bool, true, false, Option, none, some, List, [], ◌∷◌, ◌++◌,
  length, All, Grows, Grows-refl, Grows-push, Grows-trans, arith, if◌then◌else◌, inl, inr, if_both,
  Option-cases,
}
use ict_trading_claude.Prelude.Int.{ℤ}
use ict_trading_claude.Domain.Enums.{TrendDirection, Direction, StructureLevel}
use ict_trading_claude.Domain.Candle.{Candle}
use ict_trading_claude.Structure.Swings.{RawSwing, detect_swings}
use ict_trading_claude.Structure.Swings.Prefix.{detect_swings-Grows}
use ict_trading_claude.Structure.Engine.{
  State, initial, RawEvent, Broken, Targets, Breaks, bull_events, bear_events, confirmed_event,
  confirm, break_swing, update_trend, apply_type, establish, emit_potential, emit_potentials,
  set_latest, record_swings, confirm_breaks, wick_crossings, step, confirmed_at, run_from,
  analyze_level, StructureConfig, is_bull, is_bear, targets, breaks, is_broken, unseen, unbroken,
  keep_if,
}

-- `t` is `s` with events and breaks added by candles from `i` on.
abbrev pub Extends : ℕ → State → State → Type 0
Extends i s t =
    Grows (λ (e : RawEvent). e.index) i s.events t.events
    × Grows (λ (b : Broken). b.broken_index) i s.broken t.broken

Extends-refl : (i : ℕ) (s : State) → Extends i s s
Extends-refl i s = (Grows-refl _ i s.events, Grows-refl _ i s.broken)

Extends-trans : (i j : ℕ) (s t u : State) → i ≤ j → Extends i s t → Extends j t u → Extends i s u
Extends-trans i j s t u h (e, b) (e', b') = (
  Grows-trans _ i j s.events t.events u.events h e e',
  Grows-trans _ i j s.broken t.broken u.broken h b b',
)

-- What leaves the events and the breaks alone.
Keeps : State → State → Type 0
Keeps s t = (t.events ≡ s.events) × (t.broken ≡ s.broken)

Extends-keep : (i : ℕ) (s t u : State) → Extends i s t → Keeps t u → Extends i s u
unfolding Keeps
Extends-keep i s t u (e, b) (p, q) = (rw p e, rw q b)

update_trend-Keeps :
    (i : ℕ) (both : Bool) (es : List RawEvent) (s : State) → Keeps s (update_trend i both es s)
unfolding Keeps update_trend apply_type establish
update_trend-Keeps i both [] s = (refl, refl)
update_trend-Keeps i true (e ∷ es) s = (refl, refl)
update_trend-Keeps i false (e ∷ es) s = ground arith

record_swings-Keeps : (ss : List RawSwing) (s : State) → Keeps s (record_swings ss s)
unfolding Keeps record_swings set_latest
record_swings-Keeps [] s = (refl, refl)
record_swings-Keeps (x ∷ ss) s = ground (arith, record_swings-Keeps ss (set_latest x.kind x s))

break_swing-Grows :
    (level : StructureLevel) (i : ℕ) (e : RawEvent) (o : Option RawSwing) (bs : List Broken)
    → e.index ≡ i
    → Grows (λ (b : Broken). b.broken_index) i bs (break_swing level e o bs)
unfolding break_swing
break_swing-Grows level i e none bs h = Grows-refl _ i bs
break_swing-Grows level i e (some s) bs h =
    if_both (Grows (λ (b : Broken). b.broken_index) i bs) (is_broken bs s) bs _ (Grows-refl _ i bs)
      (Grows-push _ i bs _ (omega arith))

-- The events of one candle carry its index.
abbrev pub AtIndex : ℕ → List RawEvent → Type 0
AtIndex i = All (λ e. e.index ≡ i)

confirmed_event-AtIndex :
    (i : ℕ) (trend : TrendDirection) (d : Direction) (p a : Bool) (o : Option RawSwing)
    → AtIndex i (confirmed_event i trend d p a o)
unfolding confirmed_event
confirmed_event-AtIndex i trend d p a none = tt
confirmed_event-AtIndex i trend d p a (some s) = (refl, tt)

pub bull_events-AtIndex :
    (i : ℕ) (trend : TrendDirection) (t : Targets) (b : Breaks)
    → AtIndex i (bull_events i trend t b)
unfolding bull_events
bull_events-AtIndex i trend t b =
    if_both (AtIndex i) (is_bull b) _ [] (confirmed_event-AtIndex i trend Direction.bullish _ _ _)
      tt

pub bear_events-AtIndex :
    (i : ℕ) (trend : TrendDirection) (t : Targets) (b : Breaks)
    → AtIndex i (bear_events i trend t b)
unfolding bear_events
bear_events-AtIndex i trend t b =
    if_both (AtIndex i) (is_bear b) _ [] (confirmed_event-AtIndex i trend Direction.bearish _ _ _)
      tt

confirm-Extends :
    (level : StructureLevel) (i : ℕ) (es : List RawEvent) (target prot : Option RawSwing)
    (s : State)
    → AtIndex i es
    → Extends i s (confirm level es target prot s)
unfolding confirm
confirm-Extends level i [] target prot s h = Extends-refl i s
confirm-Extends level i (e ∷ es) target prot s h = (
  Grows-push _ i s.events e (omega arith),
  Grows-trans _ i i s.broken (break_swing level e target s.broken) _ (omega arith)
      (break_swing-Grows level i e target s.broken h.0)
      (break_swing-Grows level i e prot (break_swing level e target s.broken) h.0),
)

confirm_breaks-Extends :
    (level : StructureLevel) (i : ℕ) (t : Targets) (b : Breaks) (s : State)
    → Extends i s (confirm_breaks level i t b s)
unfolding confirm_breaks
confirm_breaks-Extends level i t b s =
    let bulls = bull_events i s.trend t b in
    let bears = bear_events i s.trend t b in
    let s1 =
      confirm level bulls (keep_if b.bull_target t.target_high) (keep_if b.bull_mss t.prot_high)
        s in
    let s2 =
      confirm level bears (keep_if b.bear_target t.target_low) (keep_if b.bear_mss t.prot_low) s1 in
    Extends-keep i s s2 _
      (Extends-trans i i s s1 s2 (omega arith)
        (confirm-Extends level i bulls _ _ s (bull_events-AtIndex i s.trend t b))
        (confirm-Extends level i bears _ _ s1 (bear_events-AtIndex i s.trend t b)))
      (update_trend-Keeps i _ (bulls ++ bears) s2)

emit_potential-Extends :
    (i : ℕ) (trend : TrendDirection) (x : ℤ) (d : Direction) (p : Bool) (o : Option RawSwing)
    (s : State)
    → Extends i s (emit_potential i trend x d p o s)
unfolding emit_potential
emit_potential-Extends i trend x d p none s = Extends-refl i s
emit_potential-Extends i trend x d p (some w) s =
    if_both (Extends i s) _ s _ (Extends-refl i s)
      (Grows-push _ i s.events _ (omega arith), Grows-refl _ i s.broken)

emit_potentials-Extends :
    (i : ℕ) (trend : TrendDirection) (x : ℤ) (d : Direction) (p o : Option RawSwing) (s : State)
    → Extends i s (emit_potentials i trend x d p o s)
unfolding emit_potentials
emit_potentials-Extends i trend x d p o s =
    let s' = emit_potential i trend x d true p s in
    let o' = unseen (unbroken s.broken p) o in
    Extends-trans i i s s' (emit_potential i trend x d false o' s') (omega arith)
      (emit_potential-Extends i trend x d true p s) (emit_potential-Extends i trend x d false o' s')

wick_crossings-Extends :
    (i : ℕ) (trend : TrendDirection) (c : Candle) (t : Targets) (b : Breaks) (s : State)
    → Extends i s (wick_crossings i trend c t b s)
unfolding wick_crossings
wick_crossings-Extends i trend c t b s =
    let up = emit_potentials i trend c.high Direction.bullish t.prot_high t.target_high s in
    let s' = if is_bull b then s else up in
    let first : Extends i s s' =
      if_both (Extends i s) (is_bull b) s up (Extends-refl i s)
        (emit_potentials-Extends i trend c.high Direction.bullish t.prot_high t.target_high s) in
    let down = emit_potentials i trend c.low Direction.bearish t.prot_low t.target_low s' in
    if_both (Extends i s) (is_bear b) s' down first (
      Extends-trans i i s s' down (omega arith) first
        (emit_potentials-Extends i trend c.low Direction.bearish t.prot_low t.target_low s'))

step-Extends :
    (level : StructureLevel) (i : ℕ) (c : Candle) (ss : List RawSwing) (s : State)
    → Extends i s (step level i c ss s)
unfolding step
step-Extends level i c ss s =
    let t = targets s in
    let b = breaks c.close t in
    let s1 = confirm_breaks level i t b s in
    let s2 = wick_crossings i s.trend c t b s1 in
    Extends-keep i s s2 (record_swings ss s2)
      (Extends-trans i i s s1 s2 (omega arith) (confirm_breaks-Extends level i t b s)
        (wick_crossings-Extends i s.trend c t b s1))
      (record_swings-Keeps ss s2)

run_from-Extends :
    (level : StructureLevel) (raw : List RawSwing) (i : ℕ) (cs : List Candle) (s : State)
    → Extends i s (run_from level raw i cs s)
unfolding run_from
run_from-Extends level raw i [] s = Extends-refl i s
run_from-Extends level raw i (c ∷ cs) s =
    let s' = step level i c (confirmed_at raw i) s in
    Extends-trans i (i + 1) s s' (run_from level raw (i + 1) cs s') (omega arith)
      (step-Extends level i c (confirmed_at raw i) s) (run_from-Extends level raw (i + 1) cs s')

-- The candles of a prefix see the swings of the prefix only.
confirmed_at-later :
    (later : List RawSwing) (n i : ℕ)
    → i < n
    → All (λ s. n ≤ s.confirm_index) later
    → confirmed_at later i ≡ []
unfolding confirmed_at
confirmed_at-later [] n i h a = refl
confirmed_at-later (s ∷ ss) n i h a = ground (arith, confirmed_at-later ss n i h a.1)

confirmed_at-append :
    (raw later : List RawSwing) (n i : ℕ)
    → i < n
    → All (λ s. n ≤ s.confirm_index) later
    → confirmed_at (raw ++ later) i ≡ confirmed_at raw i
unfolding confirmed_at
confirmed_at-append [] later n i h a = confirmed_at-later later n i h a
confirmed_at-append (s ∷ raw) later n i h a = rw (confirmed_at-append raw later n i h a)

run_from-append :
    (level : StructureLevel) (raw later : List RawSwing) (n i : ℕ) (xs ys : List Candle) (s : State)
    → i + length xs ≡ n
    → All (λ s. n ≤ s.confirm_index) later
    → run_from level (raw ++ later) i (xs ++ ys) s
      ≡ run_from level (raw ++ later) n ys (run_from level raw i xs s)
unfolding run_from
run_from-append level raw later n i [] ys s e a = let e' : i ≡ n = omega arith in rw e'
run_from-append level raw later n i (x ∷ xs) ys s e a =
    ap (λ seen. run_from level (raw ++ later) (i + 1) (xs ++ ys) (step level i x seen s))
      (confirmed_at-append raw later n i (omega arith) a)
    ∙ run_from-append level raw later n (i + 1) xs ys (step level i x (confirmed_at raw i) s)
        (omega arith) a

run_from_no_lookahead :
    (level : StructureLevel) (raw later : List RawSwing) (xs ys : List Candle)
    → All (λ s. length xs ≤ s.confirm_index) later
    → Extends
        (length xs)
        (run_from level raw 0 xs initial)
        (run_from level (raw ++ later) 0 (xs ++ ys) initial)
run_from_no_lookahead level raw later xs ys a =
    rw (run_from-append level raw later (length xs) 0 xs ys initial (omega arith) a)
      (run_from-Extends level (raw ++ later) (length xs) ys (run_from level raw 0 xs initial))

-- Candles that arrive later change nothing that was reported: the analysis of `xs ++ ys` has the
-- events and the broken swings of the analysis of `xs` first, and all others stand at later candles.
pub analyze_level-no_lookahead :
    (cfg : StructureConfig) (level : StructureLevel) (xs ys : List Candle) (s : State)
    → analyze_level cfg level xs ≡ some s
    → (s' : State) × (analyze_level cfg level (xs ++ ys) ≡ some s')
      × Grows (λ (e : RawEvent). e.index) (length xs) s.events s'.events
      × Grows (λ (b : Broken). b.broken_index) (length xs) s.broken s'.broken
unfolding analyze_level
analyze_level-no_lookahead cfg level xs ys s h =
    elim (Option-cases (detect_swings cfg.swings (cfg.pivot_length level) xs)) [
      | inl failed ↦ absurd (ground arith)
      | inr (raw, found) ↦
          let (raw', found', grows) =
            detect_swings-Grows cfg.swings (cfg.pivot_length level) xs ys found in
          let (later, e, a) = grows in
          let s' = run_from level raw' 0 (xs ++ ys) initial in
          let first : run_from level raw 0 xs initial ≡ s = ground arith in
          let extends : Extends (length xs) s s' =
            rw (← first, e) (run_from_no_lookahead level raw later xs ys a) in
          (s', rw found', extends.0, extends.1)
    ]
