-- ===== src/Paper/Loop.antt =====
-- `simulate` of services/paper/engine.py over batches of bars, and over bars that were seen before.
use ict_trading_claude.Prelude.{
  ℕ, ◌≤◌, ◌≡◌, refl, sym, ap, ◌∙◌, false, Option, none, some, List, [], ◌∷◌, ◌++◌, arith, leb,
  leb→le, Bool-cases, inl, inr, append_assoc, append-nil,
}
use mathlib.Core.Path.{fun_ext}
use ict_trading_claude.Domain.Candle.{Candle}
use ict_trading_claude.Paper.{
  SimParams, SimState, SimEvent, is_active, is_skipped, step, insert, sort, prepend, resume, loop,
  simulate,
}

-- Go on with what comes after, keeping the events so far.
abbrev pub and_then :
    Option (SimState × List SimEvent)
    → (SimState → Option (SimState × List SimEvent))
    → Option (SimState × List SimEvent)
and_then none k = none
and_then (some (s, es)) k = prepend es (k s)

-- The loop without its `break`.
unfoldable pub run : SimParams → SimState → List Candle → Option (SimState × List SimEvent)
run p s [] = some (s, [])
run p s (b ∷ bs) = and_then (step p s b) (λ s'. run p s' bs)

-- A finished simulation is left alone.
pub step_finished :
    (p : SimParams) (s : SimState) (b : Candle)
    → is_active s.status ≡ false
    → step p s b ≡ some (s, [])
unfolding step is_skipped
step_finished p s b h = rw h

run_finished :
    (p : SimParams) (s : SimState) (bs : List Candle)
    → is_active s.status ≡ false
    → run p s bs ≡ some (s, [])
unfolding run
run_finished p s [] h = refl
run_finished p s (b ∷ bs) h = rw (step_finished p s b h) (rw (run_finished p s bs h))

resume-and_then :
    (p : SimParams) (m : Option (SimState × List SimEvent)) (bs : List Candle)
    → resume m (λ s'. run p s' bs) ≡ and_then m (λ s'. run p s' bs)
resume-and_then p none bs = refl
resume-and_then p (some (s', es)) bs = elim (Bool-cases (is_active s'.status)) [
  | inl active ↦ rw active
  | inr over ↦ rw (over, run_finished p s' bs over) (rw append-nil)
]

-- The `break` changes nothing.
pub loop-eq-run : (p : SimParams) (s : SimState) (bs : List Candle) → loop p s bs ≡ run p s bs
unfolding loop run
loop-eq-run p s [] = refl
loop-eq-run p s (b ∷ bs) =
    ap (resume (step p s b)) (fun_ext (λ s'. loop-eq-run p s' bs))
    ∙ resume-and_then p (step p s b) bs

prepend_nil : (m : Option (SimState × List SimEvent)) → prepend [] m ≡ m
prepend_nil none = refl
prepend_nil (some (s, es)) = refl

prepend-and_then :
    (es : List SimEvent) (m : Option (SimState × List SimEvent))
    (k : SimState → Option (SimState × List SimEvent))
    → prepend es (and_then m k) ≡ and_then (prepend es m) k
prepend-and_then es none k = refl
prepend-and_then es (some (s, fs)) k = regroup (k s)
  where
    regroup :
        (m : Option (SimState × List SimEvent)) → prepend es (prepend fs m) ≡ prepend (es ++ fs) m
    regroup none = refl
    regroup (some (s', gs)) = rw append_assoc

and_then_assoc :
    (m : Option (SimState × List SimEvent)) (k l : SimState → Option (SimState × List SimEvent))
    → and_then m (λ s. and_then (k s) l) ≡ and_then (and_then m k) l
and_then_assoc none k l = refl
and_then_assoc (some (s, es)) k l = prepend-and_then es (k s) l

run-append :
    (p : SimParams) (s : SimState) (xs ys : List Candle)
    → run p s (xs ++ ys) ≡ and_then (run p s xs) (λ s'. run p s' ys)
unfolding run
run-append p s [] ys = sym (prepend_nil (run p s ys))
run-append p s (b ∷ xs) ys =
    ap (and_then (step p s b)) (fun_ext (λ s'. run-append p s' xs ys))
    ∙ and_then_assoc (step p s b) (λ s'. run p s' xs) (λ s'. run p s' ys)

-- Open times ascend, none before `t`.
abbrev pub SortedFrom : ℕ → List Candle → Type 0
SortedFrom t [] = Unit
SortedFrom t (b ∷ bs) = (t ≤ b.open_time) × SortedFrom b.open_time bs

SortedFrom-mono : (t u : ℕ) (bs : List Candle) → t ≤ u → SortedFrom u bs → SortedFrom t bs
SortedFrom-mono t u [] h s = tt
SortedFrom-mono t u (b ∷ bs) h s = (omega arith, s.1)

insert-SortedFrom :
    (t : ℕ) (b : Candle) (cs : List Candle)
    → t ≤ b.open_time
    → SortedFrom t cs
    → SortedFrom t (insert b cs)
unfolding insert
insert-SortedFrom t b [] h s = (h, tt)
insert-SortedFrom t b (c ∷ cs) h s = elim (Bool-cases (leb b.open_time c.open_time)) [
  | inl first ↦ rw first (h, (leb→le b.open_time c.open_time first, s.1))
  | inr later ↦ rw later (s.0, insert-SortedFrom c.open_time b cs (ground arith) s.1)
]

pub sort-SortedFrom : (bs : List Candle) → SortedFrom 0 (sort bs)
unfolding sort
sort-SortedFrom [] = tt
sort-SortedFrom (b ∷ bs) = insert-SortedFrom 0 b (sort bs) (omega arith) (sort-SortedFrom bs)

insert_first :
    (t : ℕ) (b : Candle) (cs : List Candle) → SortedFrom t (b ∷ cs) → insert b cs ≡ b ∷ cs
unfolding insert
insert_first t b [] h = refl
insert_first t b (c ∷ cs) h = ground arith

sort_sorted : (t : ℕ) (bs : List Candle) → SortedFrom t bs → sort bs ≡ bs
unfolding sort
sort_sorted t [] h = refl
sort_sorted t (b ∷ bs) h = rw (sort_sorted b.open_time bs h.1) (insert_first t b bs h)

SortedFrom-append :
    (t : ℕ) (xs ys : List Candle) → SortedFrom t (xs ++ ys) → SortedFrom t xs × SortedFrom 0 ys
SortedFrom-append t [] ys h = (tt, SortedFrom-mono 0 t ys (omega arith) h)
SortedFrom-append t (b ∷ xs) ys h =
    let (left, right) = SortedFrom-append b.open_time xs ys h.1 in ((h.0, left), right)

-- Feeding an ascending series in two batches is feeding it at once: the same state, and the events of
-- the first batch followed by those of the second, which starts where the first ended.
pub simulate-append :
    (p : SimParams) (s : SimState) (xs ys : List Candle)
    → SortedFrom 0 (xs ++ ys)
    → simulate p s (xs ++ ys) ≡ and_then (simulate p s xs) (λ s'. simulate p s' ys)
unfolding simulate
simulate-append p s xs ys h =
    let (left, right) = SortedFrom-append 0 xs ys h in
    rw
      (
        sort_sorted 0 (xs ++ ys) h,
        sort_sorted 0 xs left,
        loop-eq-run p s (xs ++ ys),
        loop-eq-run p s xs,
      )
      (run-append p s xs ys
        ∙ ap (and_then (run p s xs))
            (fun_ext (λ s'. sym (ap (loop p s') (sort_sorted 0 ys right) ∙ loop-eq-run p s' ys))))
