-- ===== src/Paper/Outcome.antt =====
-- What a whole simulation answers, and the conservative choices of services/paper/engine.py.
use mathlib.Core.Path.{subst}
use ict_trading_claude.Prelude.{
  ◌≡◌, ◌≢◌, refl, sym, ap, ◌∙◌, true, false, Option, none, some, List, [], ◌∷◌, ◌++◌, arith,
  Bool-cases, inl, inr, is_some, if_both,
}
use ict_trading_claude.Prelude.Int.{ℤ}
use ict_trading_claude.Domain.Enums.{ExitReason, PaperStatus, PaperEntryType}
use ict_trading_claude.Domain.Candle.{Candle}
use ict_trading_claude.Paper.{
  SimParams, SimState, SimEvent, Entry, is_skipped, plus, minus, not_above, not_below, near_side,
  half_spread, fill_limit, wait_limit, enter_market, enter_limit, enter, close, exit_inside,
  exit_bar, track, finish_entry, step_active, step, sort, simulate,
}
use ict_trading_claude.Paper.Step.{IsValid, step-IsValid}
use ict_trading_claude.Paper.Loop.{run, loop-eq-run}

-- A LIMIT has a price.
abbrev pub HasPrice : PaperEntryType → Option ℤ → Type 0
HasPrice PaperEntryType.market o = Unit
HasPrice PaperEntryType.limit o = is_some o ≡ true

enter_total :
    (p : SimParams) (s : SimState) (b : Candle) (t : PaperEntryType) (o : Option ℤ)
    → HasPrice t o
    → (e : Entry) × (enter p s b t o ≡ some e)
unfolding enter
enter_total p s b PaperEntryType.market o h = (enter_market p s b, refl)
enter_total p s b PaperEntryType.limit none h = cc
enter_total p s b PaperEntryType.limit (some l) h = (enter_limit p s b l, refl)

step_active_total :
    (st : PaperStatus) (p : SimParams) (s : SimState) (b : Candle)
    → HasPrice p.entry_type p.limit_price
    → (r : SimState × List SimEvent) × (step_active st p s b ≡ some r)
unfolding step_active
step_active_total PaperStatus.pending p s b h =
    let (e, found) = enter_total p s b p.entry_type p.limit_price h in
    (finish_entry p b e, rw found)
step_active_total _ p s b h = (exit_bar p (track p s b) b false, refl)

step_total :
    (p : SimParams) (s : SimState) (b : Candle)
    → HasPrice p.entry_type p.limit_price
    → (r : SimState × List SimEvent) × (step p s b ≡ some r)
unfolding step
step_total p s b h = elim (Bool-cases (is_skipped p s b)) [
  | inl skip ↦ ((s, []), rw skip)
  | inr run ↦ let (r, e) = step_active_total s.status p s b h in (r, rw run e)
]

run_total :
    (p : SimParams) (bs : List Candle) (s : SimState)
    → HasPrice p.entry_type p.limit_price
    → IsValid p s
    → (r : SimState × List SimEvent) × (run p s bs ≡ some r) × IsValid p r.0
unfolding run
run_total p [] s h v = ((s, []), refl, v)
run_total p (b ∷ bs) s h v =
    let (a, stepped) = step_total p s b h in
    let (r, ran, v') = run_total p bs a.0 h (step-IsValid p s b a.0 a.1 v stepped) in
    ((r.0, a.1 ++ r.1), rw stepped (rw ran), v')

-- A simulation of a priced order never fails, over any bars in any order, and its answer is valid.
pub simulate-IsValid :
    (p : SimParams) (s : SimState) (bars : List Candle)
    → HasPrice p.entry_type p.limit_price
    → IsValid p s
    → (r : SimState × List SimEvent) × (simulate p s bars ≡ some r) × IsValid p r.0
unfolding simulate
simulate-IsValid p s bars h v =
    let (r, ran, v') = run_total p (sort bars) s h v in (r, loop-eq-run p s (sort bars) ∙ ran, v')

exit_stop_first :
    (p : SimParams) (s : SimState) (b : Candle)
    → not_above p.direction (minus p.direction (near_side p.direction b) (half_spread p)) p.stop
      ≡ true
    → not_below p.direction (minus p.direction b.opening (half_spread p)) p.target ≡ false
    → ((exit_bar p s b false).0.status ≡ PaperStatus.closed)
      × ((exit_bar p s b false).0.exit_reason ≡ some ExitReason.stop)
unfolding exit_bar exit_inside close
exit_stop_first p s b stopped early =
    elim (Bool-cases (not_above p.direction (minus p.direction b.opening (half_spread p)) p.stop)) [
      | inl gap ↦ rw gap (refl, refl)
      | inr inside ↦ rw (inside, early, stopped) (refl, refl)
    ]

-- When a bar of an open position reaches the stop, the stop is taken, whether or not the bar also
-- reaches the target, unless it already opened at the target or beyond.
pub step_stop_first :
    (p : SimParams) (s : SimState) (b : Candle) (s' : SimState) (es : List SimEvent)
    → s.status ≡ PaperStatus.opened
    → is_skipped p s b ≡ false
    → not_above p.direction (minus p.direction (near_side p.direction b) (half_spread p)) p.stop
      ≡ true
    → not_below p.direction (minus p.direction b.opening (half_spread p)) p.target ≡ false
    → step p s b ≡ some (s', es)
    → (s'.status ≡ PaperStatus.closed) × (s'.exit_reason ≡ some ExitReason.stop)
unfolding step step_active
step_stop_first p s b s' es is_open live stopped early h =
    let taken : step_active s.status p s b ≡ some (s', es) = rw live at h in
    let e : exit_bar p (track p s b) b false ≡ (s', es) = ground arith in
    let (c, r) = exit_stop_first p (track p s b) b stopped early in
    (
      ap (λ (x : SimState × List SimEvent). x.0.status) (sym e) ∙ c,
      ap (λ (x : SimState × List SimEvent). x.0.exit_reason) (sym e) ∙ r,
    )

exit_after_intrabar_fill :
    (p : SimParams) (s : SimState) (b : Candle)
    → s.exit_reason ≡ none
    → (exit_bar p s b true).0.exit_reason ≢ some ExitReason.target
unfolding exit_bar exit_inside close
exit_after_intrabar_fill p s b h t =
    elim (Bool-cases (
      not_above p.direction (minus p.direction (near_side p.direction b) (half_spread p)) p.stop)) [
        | inl hit ↦ let t' = (rw hit at t) in cc
        | inr safe ↦ let t' = (rw safe at t) in cc
      ]

track-exit_reason :
    (p : SimParams) (s : SimState) (b : Candle) → (track p s b).exit_reason ≡ s.exit_reason
unfolding track
track-exit_reason p s b = refl

NoTarget : SimState × List SimEvent → Type 0
NoTarget r = r.0.exit_reason ≢ some ExitReason.target

fill_limit-NoTarget :
    (p : SimParams) (s : SimState) (b : Candle) (limit : ℤ)
    → s.exit_reason ≡ none
    → not_above p.direction (plus p.direction b.opening (half_spread p)) limit ≡ false
    → NoTarget (finish_entry p b (fill_limit p s b limit))
unfolding NoTarget finish_entry fill_limit
fill_limit-NoTarget p s b limit fresh far =
    rw far (exit_after_intrabar_fill p _ b (track-exit_reason p _ b ∙ fresh))

wait_limit-NoTarget :
    (p : SimParams) (s : SimState) (b : Candle)
    → s.exit_reason ≡ none
    → NoTarget (finish_entry p b (wait_limit p s b))
unfolding NoTarget finish_entry wait_limit
wait_limit-NoTarget p s b fresh = ground arith

-- A pending LIMIT goes through its entry.
limit_entered :
    (p : SimParams) (s : SimState) (b : Candle) (limit : ℤ) (st : PaperStatus) (t : PaperEntryType)
    (o : Option ℤ) {r : SimState × List SimEvent}
    → st ≡ PaperStatus.pending
    → t ≡ PaperEntryType.limit
    → o ≡ some limit
    → (p.entry_type ≡ t) × (p.limit_price ≡ o)
    → step_active st p s b ≡ some r
    → finish_entry p b (enter_limit p s b limit) ≡ r
unfolding step_active enter
limit_entered p s b limit st t o e f g (h, k) taken = ground arith

-- A LIMIT that fills inside a bar (the bar opened on the far side of the limit) does not take its
-- target on that bar: the order of the two touches is unknown.
pub step_intrabar_no_target :
    (p : SimParams) (s : SimState) (b : Candle) (limit : ℤ) (s' : SimState) (es : List SimEvent)
    → p.entry_type ≡ PaperEntryType.limit
    → p.limit_price ≡ some limit
    → s.status ≡ PaperStatus.pending
    → s.exit_reason ≡ none
    → not_above p.direction (plus p.direction b.opening (half_spread p)) limit ≡ false
    → step p s b ≡ some (s', es)
    → s'.exit_reason ≢ some ExitReason.target
unfolding step step_active enter enter_limit NoTarget
step_intrabar_no_target p s b limit s' es t l pending fresh far h =
    elim (Bool-cases (is_skipped p s b)) [
      | inl skip ↦ ground arith
      | inr run ↦
          let taken : step_active s.status p s b ≡ some (s', es) = rw run at h in
          let begun : finish_entry p b (enter_limit p s b limit) ≡ (s', es) =
            limit_entered p s b limit s.status p.entry_type p.limit_price pending t l (refl, refl)
              taken in
          subst NoTarget begun (
            if_both (λ e. NoTarget (finish_entry p b e)) _ (fill_limit p s b limit)
              (wait_limit p s b) (fill_limit-NoTarget p s b limit fresh far)
              (wait_limit-NoTarget p s b fresh))
    ]
