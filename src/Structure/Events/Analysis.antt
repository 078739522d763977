-- ===== src/Structure/Events/Analysis.antt =====
-- Every event that services/structure/engine.py reports is sound.
use ict_trading_claude.Prelude.{
  ℕ, ◌+◌, ◌<◌, ◌≡◌, refl, sym, ◌∙◌, Bool, true, false, ◌&&◌, Option, some, List, [], ◌∷◌, ◌++◌, inl,
  inr, All, arith, if◌then◌else◌, get_elem?, length, Option-cases, length-append, append_assoc,
  All-both, All-Member, Member,
}
use ict_trading_claude.Prelude.Int.{ℤ}
use ict_trading_claude.Domain.Enums.{TrendDirection, Direction, StructureLevel}
use ict_trading_claude.Domain.Candle.{Candle}
use ict_trading_claude.Structure.Swings.{RawSwing, detect_swings}
use ict_trading_claude.Structure.Engine.{
  State, initial, RawEvent, Targets, bull_events, bear_events, confirm, confirm_breaks,
  wick_crossings, step, confirmed_at, run_from, analyze_level, StructureConfig, is_bull, is_bear,
  targets, breaks, emit_potential, emit_potentials, unseen, unbroken, keep_if,
}
use ict_trading_claude.Structure.Lookahead.{AtIndex, bull_events-AtIndex, bear_events-AtIndex}
use ict_trading_claude.Structure.Events.{
  IfSome, SoundAt, TargetsKnown, bull_events-SoundAt, bear_events-SoundAt,
}
use ict_trading_claude.Structure.Events.Invariant.{
  Sound, Levels, targets-TargetsKnown, Levels-SameLevels, confirm-SameLevels,
  emit_potential-SameLevels, update_trend-Levels, Levels-suc, record_swings-Levels,
  record_swings-events, confirmed_at-confirm, All-Sound,
}
use ict_trading_claude.Structure.Events.Origin.{run_from-Drawn}
use ict_trading_claude.Structure.Events.Soundness.{
  Candidate, extreme, AllSound, emit_potentials-AllSound, confirm-AllSound, bull_candidates,
  bear_candidates, update_trend-events,
}

-- The loop's invariant between candles `i - 1` and `i`.
abbrev Inv : List Candle → ℕ → State → Type 0
Inv cs i s = Levels i s × AllSound cs s

emit_potentials-Levels :
    (i : ℕ) (trend : TrendDirection) (x : ℤ) (d : Direction) (p o : Option RawSwing) (s : State)
    → Levels i s
    → Levels i (emit_potentials i trend x d p o s)
unfolding emit_potentials
emit_potentials-Levels i trend x d p o s l =
    let s' = emit_potential i trend x d true p s in
    let o' = unseen (unbroken s.broken p) o in
    Levels-SameLevels i s' (emit_potential i trend x d false o' s')
      (emit_potential-SameLevels i trend x d false o' s')
      (Levels-SameLevels i s s' (emit_potential-SameLevels i trend x d true p s) l)

module _ (cs : List Candle) (i : ℕ) (c : Candle) (at : get_elem? cs i ≡ some c) where
  crossings_side :
      (trend : TrendDirection) (d : Direction) (b : Bool) (p o : Option RawSwing) (s : State)
      → (b ≡ false → IfSome (Candidate d true i trend c) p × IfSome (Candidate d false i trend c) o)
      → Inv cs i s
      → Inv cs i (if b then s else emit_potentials i trend (extreme d c) d p o s)
  crossings_side trend d true p o s k h = h
  crossings_side trend d false p o s k (l, h) = (
    emit_potentials-Levels i trend (extreme d c) d p o s l,
    emit_potentials-AllSound cs i c at trend d p o s (k refl).0 (k refl).1 h,
  )

  wick_crossings-Inv :
      (trend : TrendDirection) (t : Targets) (s : State)
      → TargetsKnown i trend t
      → Inv cs i s
      → Inv cs i (wick_crossings i trend c t (breaks c.close t) s)
  unfolding wick_crossings
  wick_crossings-Inv trend t s k h =
      let b = breaks c.close t in
      let s' =
        if is_bull b
        then s
        else emit_potentials i trend c.high Direction.bullish t.prot_high t.target_high s in
      let h' : Inv cs i s' =
        crossings_side trend Direction.bullish (is_bull b) t.prot_high t.target_high s
          (bull_candidates i trend c t k) h in
      crossings_side trend Direction.bearish (is_bear b) t.prot_low t.target_low s'
        (bear_candidates i trend c t k) h'

  confirm-Inv :
      (level : StructureLevel) (es : List RawEvent) (a b : Option RawSwing) (s : State)
      → AtIndex i es
      → All (SoundAt c) es
      → Inv cs i s
      → Inv cs i (confirm level es a b s)
  confirm-Inv level es a b s k q (l, h) = (
    Levels-SameLevels i s (confirm level es a b s) (confirm-SameLevels level es a b s) l,
    confirm-AllSound cs i c at level es a b s (All-Sound cs i c es at k q) h,
  )

  confirm_breaks-Inv :
      (level : StructureLevel) (t : Targets) (s : State)
      → TargetsKnown i s.trend t
      → Inv cs i s
      → Inv cs i (confirm_breaks level i t (breaks c.close t) s)
  unfolding confirm_breaks
  confirm_breaks-Inv level t s k h =
      let b = breaks c.close t in
      let bulls = bull_events i s.trend t b in
      let bears = bear_events i s.trend t b in
      let s1 =
        confirm level bulls (keep_if b.bull_target t.target_high) (keep_if b.bull_mss t.prot_high)
          s in
      let s2 =
        confirm level bears (keep_if b.bear_target t.target_low) (keep_if b.bear_mss t.prot_low)
          s1 in
      let h1 : Inv cs i s1 =
        confirm-Inv level bulls _ _ s (bull_events-AtIndex i s.trend t b)
          (bull_events-SoundAt i s.trend c t k) h in
      let h2 : Inv cs i s2 =
        confirm-Inv level bears _ _ s1 (bear_events-AtIndex i s.trend t b)
          (bear_events-SoundAt i s.trend c t k) h1 in
      (
        update_trend-Levels i i (is_bull b && is_bear b) (bulls ++ bears) s2 h2.0,
        rw (update_trend-events i (is_bull b && is_bear b) (bulls ++ bears) s2) h2.1,
      )

  step-Inv :
      (level : StructureLevel) (ws : List RawSwing) (s : State)
      → All (λ w. w.confirm_index < i + 1) ws
      → Inv cs i s
      → Inv cs (i + 1) (step level i c ws s)
  unfolding step
  step-Inv level ws s a h =
      let t = targets s in
      let k : TargetsKnown i s.trend t = targets-TargetsKnown i s h.0 in
      let s1 = confirm_breaks level i t (breaks c.close t) s in
      let s2 = wick_crossings i s.trend c t (breaks c.close t) s1 in
      let h2 : Inv cs i s2 = wick_crossings-Inv s.trend t s1 k (confirm_breaks-Inv level t s k h) in
      (
        record_swings-Levels (i + 1) ws s2 a (Levels-suc i s2 h2.0),
        rw (record_swings-events ws s2) h2.1,
      )

get_elem?-length :
    (xs ys : List Candle) (c : Candle) → get_elem? (xs ++ c ∷ ys) (length xs) ≡ some c
get_elem?-length [] ys c = refl
get_elem?-length (x ∷ xs) ys c = get_elem?-length xs ys c

-- The loop over the candles `ys` that follow `xs`.
run_from-Inv :
    (level : StructureLevel) (raw : List RawSwing) (cs xs ys : List Candle) (i : ℕ) (s : State)
    → cs ≡ xs ++ ys
    → i ≡ length xs
    → Inv cs i s
    → AllSound cs (run_from level raw i ys s)
unfolding run_from
run_from-Inv level raw cs xs [] i s e n h = h.1
run_from-Inv level raw cs xs (c ∷ ys) i s e n h =
    let at : get_elem? cs i ≡ some c = rw (e, n) (get_elem?-length xs ys c) in
    run_from-Inv level raw cs (xs ++ (c ∷ [])) ys (i + 1) (step level i c (confirmed_at raw i) s)
      (e ∙ sym (append_assoc xs (c ∷ []) ys)) (omega (arith, length-append xs (c ∷ [])))
      (step-Inv cs i c at level (confirmed_at raw i) s (confirmed_at-confirm raw i) h)

-- The analysis has an answer only where the swings are detected, and then every reported event stands
-- at a candle of the series that passed the level the way the event's status says (a confirmed one
-- closed beyond it; a potential one only crossed it with its wick), the level is one of the detected
-- swings, of the matching side and confirmed by an earlier candle, and the type follows from the trend:
-- BOS with it or with none, CHoCH and MSS against it.
pub analyze_level-Sound :
    (cfg : StructureConfig) (level : StructureLevel) (cs : List Candle) (s : State)
    → analyze_level cfg level cs ≡ some s
    → (raw : List RawSwing) × (detect_swings cfg.swings (cfg.pivot_length level) cs ≡ some raw)
      × All (λ (e : RawEvent). Sound cs e × Member e.swing raw) s.events
unfolding analyze_level
analyze_level-Sound cfg level cs s h =
    elim (Option-cases (detect_swings cfg.swings (cfg.pivot_length level) cs)) [
      | inl failed ↦ absurd (ground arith)
      | inr (raw, found) ↦
          let e : run_from level raw 0 cs initial ≡ s = ground arith in
          let sound =
            run_from-Inv level raw cs [] cs 0 initial refl refl
              (record { latest_high = tt; latest_low = tt; prot_high = tt; prot_low = tt }, tt) in
          let drawn =
            run_from-Drawn (λ w. Member w raw) level raw 0 cs initial (All-Member raw)
              (record {
                latest_high = tt;
                latest_low = tt;
                prot_high = tt;
                prot_low = tt;
                events = tt;
              }) in
          (
            raw,
            found,
            rw (← e) (
                All-both (Sound cs) (λ (e : RawEvent). Member e.swing raw)
                  (run_from level raw 0 cs initial).events sound drawn.events),
          )
    ]
