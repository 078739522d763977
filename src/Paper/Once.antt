-- ===== src/Paper/Once.antt =====
-- `simulate` of services/paper/engine.py looks at every bar once.
use mathlib.Core.Path.{subst}
use ict_trading_claude.Prelude.{
  ℕ, ◌≤◌, ◌≡◌, ◌⊎◌, refl, sym, ap, ◌∙◌, Bool, true, false, Option, none, some, List, [], ◌∷◌, arith,
  Bool-cases, Option-cases, inl, inr, some-injective, All,
}
use ict_trading_claude.Prelude.Int.{ℤ}
use ict_trading_claude.Domain.Enums.{PaperStatus, PaperEntryType}
use ict_trading_claude.Domain.Candle.{Candle}
use ict_trading_claude.Paper.{
  SimParams, SimState, SimEvent, Entry, returned, entered, is_processed, is_skipped, fill_limit,
  wait_limit, enter_market, enter_limit, enter, close, exit_inside, exit_bar, track, finish_entry,
  step_active, step, sort, prepend, simulate,
}
use ict_trading_claude.Paper.Loop.{and_then, run, loop-eq-run, SortedFrom, sort-SortedFrom}

-- Bars that a state does not look at any more.
abbrev Skipped : SimParams → SimState → Candle → Type 0
Skipped p s c = is_skipped p s c ≡ true

exit_bar-processed :
    (p : SimParams) (s : SimState) (b : Candle) (i : Bool)
    → (exit_bar p s b i).0.processed_through ≡ s.processed_through
unfolding exit_bar exit_inside close
exit_bar-processed p s b i = ground arith

entry-processed :
    (p : SimParams) (s : SimState) (b : Candle) (t : PaperEntryType) (o : Option ℤ) (e : Entry)
    → enter p s b t o ≡ some e
    → (finish_entry p b e).0.processed_through ≡ some b.open_time
unfolding enter enter_limit enter_market fill_limit wait_limit finish_entry track
entry-processed p s b t o (returned s' es) h = ground arith
entry-processed p s b t o (entered s' es i) h = rw (exit_bar-processed p (track p s' b) b i)

step_active-processed :
    (st : PaperStatus) (p : SimParams) (s : SimState) (b : Candle) (r : SimState × List SimEvent)
    → step_active st p s b ≡ some r
    → r.0.processed_through ≡ some b.open_time
unfolding step_active track
step_active-processed PaperStatus.pending p s b r h =
    elim (Option-cases (enter p s b p.entry_type p.limit_price)) [
      | inl failed ↦ absurd (ground arith)
      | inr (e, entry) ↦
          let same : finish_entry p b e ≡ r = ground arith in
          rw (← same) (entry-processed p s b p.entry_type p.limit_price e entry)
    ]
step_active-processed _ p s b r h =
    rw (← some-injective h) (exit_bar-processed p (track p s b) b false)

processed-Skipped :
    (p : SimParams) (s : SimState) (c : Candle) (t : ℕ)
    → s.processed_through ≡ some t
    → c.open_time ≤ t
    → Skipped p s c
unfolding is_skipped
processed-Skipped p s c t h le =
    let seen : is_processed s.processed_through c.open_time ≡ true = rw h (ground arith) in
    ground arith

-- A bar that is not skipped moves `processed_through` to its open time.
step-moves :
    (p : SimParams) (s : SimState) (b : Candle) (r : SimState × List SimEvent)
    → step p s b ≡ some r
    → ((s ≡ r.0) × (is_skipped p s b ≡ true)) ⊎ (r.0.processed_through ≡ some b.open_time)
unfolding step
step-moves p s b r h = elim (Bool-cases (is_skipped p s b)) [
  | inl skip ↦
      let kept : some (s, []) ≡ some r = rw skip at h in
      inl (ap (λ (x : SimState × List SimEvent). x.0) (some-injective kept), skip)
  | inr run ↦
      let taken : step_active s.status p s b ≡ some r = rw run at h in
      inr (step_active-processed s.status p s b r taken)
]

-- A bar is looked at no more once it has been fed, and stays so while later bars are fed.
fed-Skipped :
    (p : SimParams) (s : SimState) (b : Candle) (r : SimState × List SimEvent)
    → step p s b ≡ some r
    → Skipped p r.0 b
fed-Skipped p s b r h = elim (step-moves p s b r h) [
  | inl (same, skip) ↦ subst (λ s'. Skipped p s' b) same skip
  | inr moved ↦ processed-Skipped p r.0 b b.open_time moved (omega arith)
]

step-Skipped :
    (p : SimParams) (s : SimState) (b c : Candle) (r : SimState × List SimEvent)
    → step p s b ≡ some r
    → c.open_time ≤ b.open_time
    → Skipped p s c
    → Skipped p r.0 c
step-Skipped p s b c r h le k = elim (step-moves p s b r h) [
  | inl (same, skip) ↦ subst (λ s'. Skipped p s' c) same k
  | inr moved ↦ processed-Skipped p r.0 c b.open_time moved le
]

prepend-some :
    (es : List SimEvent) (m : Option (SimState × List SimEvent)) (r : SimState × List SimEvent)
    → prepend es m ≡ some r
    → (fs : List SimEvent) × (m ≡ some (r.0, fs))
prepend-some es none r h = cc
prepend-some es (some (s, fs)) r h =
    (fs, ap (λ (x : SimState × List SimEvent). some (x.0, fs)) (some-injective h))

-- The parts of a run that goes on.
and_then-some :
    (m : Option (SimState × List SimEvent)) (k : SimState → Option (SimState × List SimEvent))
    (r : SimState × List SimEvent)
    → and_then m k ≡ some r
    → (a : SimState × List SimEvent) × (m ≡ some a)
      × (es : List SimEvent) × (k a.0 ≡ some (r.0, es))
and_then-some none k r h = cc
and_then-some (some (s, es)) k r h =
    let (fs, rest) = prepend-some es (k s) r h in ((s, es), refl, fs, rest)

run-keeps-Skipped :
    (p : SimParams) (t : ℕ) (c : Candle) (bs : List Candle) (s : SimState)
    (r : SimState × List SimEvent)
    → SortedFrom t bs
    → c.open_time ≤ t
    → Skipped p s c
    → run p s bs ≡ some r
    → Skipped p r.0 c
unfolding run
run-keeps-Skipped p t c [] s r o le k h =
    subst (λ (x : SimState × List SimEvent). Skipped p x.0 c) (some-injective h) k
run-keeps-Skipped p t c (b ∷ bs) s r o le k h =
    let (a, stepped, es, rest) = and_then-some (step p s b) (λ s'. run p s' bs) r h in
    run-keeps-Skipped p b.open_time c bs a.0 (r.0, es) o.1 (omega arith)
      (step-Skipped p s b c a stepped (omega arith) k) rest

run-Skipped :
    (p : SimParams) (t : ℕ) (bs : List Candle) (s : SimState) (r : SimState × List SimEvent)
    → SortedFrom t bs
    → run p s bs ≡ some r
    → All (Skipped p r.0) bs
unfolding run
run-Skipped p t [] s r o h = tt
run-Skipped p t (b ∷ bs) s r o h =
    let (a, stepped, es, rest) = and_then-some (step p s b) (λ s'. run p s' bs) r h in
    (
      run-keeps-Skipped p b.open_time b bs a.0 (r.0, es) o.1 (omega arith)
          (fed-Skipped p s b a stepped) rest,
      run-Skipped p b.open_time bs a.0 (r.0, es) o.1 rest,
    )

run_processed :
    (p : SimParams) (bs : List Candle) (s : SimState)
    → All (Skipped p s) bs
    → run p s bs ≡ some (s, [])
unfolding run step
run_processed p [] s k = refl
run_processed p (b ∷ bs) s k = rw (k.0) (rw (run_processed p bs s k.1))

-- Feeding bars again does nothing: whatever a simulation has been fed, in whatever order, it ignores
-- when it comes a second time.
pub simulate-again :
    (p : SimParams) (s : SimState) (bars : List Candle) (s' : SimState) (es : List SimEvent)
    → simulate p s bars ≡ some (s', es)
    → simulate p s' bars ≡ some (s', [])
unfolding simulate
simulate-again p s bars s' es h =
    let o = sort-SortedFrom bars in
    let ran : run p s (sort bars) ≡ some (s', es) = sym (loop-eq-run p s (sort bars)) ∙ h in
    loop-eq-run p s' (sort bars)
    ∙ run_processed p (sort bars) s' (run-Skipped p 0 (sort bars) s (s', es) o ran)
