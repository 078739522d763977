-- ===== src/Paper/Step.antt =====
-- What a simulation holds in each status, and that every bar keeps it (services/paper/engine.py).
use ict_trading_claude.Prelude.{
  ℕ, ◌+◌, ◌<◌, ◌≡◌, refl, sym, Bool, true, false, not, ◌&&◌, Option, none, some, List, arith,
  is_some, if◌then◌else◌, if_cases, and_right, leb, if_both, some-injective, Option-cases,
  Bool-cases, inl, inr,
}
use mathlib.Core.Path.{subst}
use ict_trading_claude.Prelude.Int.{ℤ, ◌+ℤ◌, ◌-ℤ◌}
use ict_trading_claude.Domain.Enums.{
  Direction, ExitReason, PaperEntryType, PaperEventType, PaperStatus,
}
use ict_trading_claude.Domain.Candle.{Candle}
use ict_trading_claude.Paper.{
  SimParams, SimState, SimEvent, Detail, Entry, returned, entered, is_active, is_skipped, plus,
  minus, not_above, not_below, half_spread, near_side, far_side, fill_limit, wait_limit,
  enter_market, enter_limit, enter, close, exit_inside, exit_bar, track, finish_entry, step_active,
  step,
}

-- A stop is never left at a better price than the stop less slippage, a target never at a worse one
-- than the target.
abbrev pub ExitPriced : SimParams → Option ExitReason → Option ℤ → Type 0
ExitPriced p (some ExitReason.stop) (some x) =
    not_above p.direction x (minus p.direction p.stop p.costs.slippage) ≡ true
ExitPriced p (some ExitReason.target) (some x) = not_below p.direction x p.target ≡ true
ExitPriced p _ _ = ⊥

-- A LIMIT never fills at a worse price than its limit.
abbrev pub FillPriced : PaperEntryType → Option ℤ → Direction → Option ℤ → Type 0
FillPriced PaperEntryType.limit (some l) d (some x) = not_above d x l ≡ true
FillPriced PaperEntryType.limit (some l) d none = ⊥
FillPriced t l d o = is_some o ≡ true

abbrev pub Filled : SimParams → SimState → Type 0
Filled p s =
    (is_some s.fill_price ≡ true)
    × (is_some s.filled_at ≡ true)
    × FillPriced p.entry_type p.limit_price p.direction s.fill_price

abbrev pub Unfilled : SimState → Type 0
Unfilled s = (s.fill_price ≡ none) × (s.filled_at ≡ none)

abbrev pub NotExited : SimState → Type 0
NotExited s = (s.exit_price ≡ none) × (s.exited_at ≡ none) × (s.exit_reason ≡ none)

abbrev pub Shape : PaperStatus → SimParams → SimState → Type 0
Shape PaperStatus.pending p s =
    Unfilled s
    × NotExited s
    × (s.best ≡ none)
    × (s.worst ≡ none)
    × (s.pending_bars < p.pending_expiry_bars)
Shape PaperStatus.opened p s =
    Filled p s × NotExited s × (is_some s.best ≡ true) × (is_some s.worst ≡ true)
Shape PaperStatus.closed p s =
    Filled p s × (is_some s.exited_at ≡ true) × ExitPriced p s.exit_reason s.exit_price
Shape PaperStatus.expired p s = Unfilled s × NotExited s
Shape PaperStatus.cancelled p s = Unit

abbrev pub IsValid : SimParams → SimState → Type 0
IsValid p s = Shape s.status p s

-- An open position, filled and not exited, before the bar's exits.
abbrev IsOpen : SimParams → SimState → Type 0
IsOpen p s =
    (s.status ≡ PaperStatus.opened)
    × Filled p s
    × NotExited s
    × (is_some s.best ≡ true)
    × (is_some s.worst ≡ true)

close-IsValid :
    (p : SimParams) (s : SimState) (b : Candle) (k : PaperEventType) (r : ExitReason) (x : ℤ)
    (a : Bool) (d : Detail)
    → IsOpen p s
    → ExitPriced p (some r) (some x)
    → IsValid p (close s b k r x a d).0
unfolding close
close-IsValid p s b k r x a d o e = (o.1, refl, e)

pub not_above_refl : (d : Direction) (x : ℤ) → not_above d x x ≡ true
not_above_refl Direction.bullish x = ground arith
not_above_refl Direction.bearish x = ground arith

not_above-minus :
    (d : Direction) (x y : ℤ) (a : ℕ)
    → not_above d x y ≡ true
    → not_above d (minus d x a) (minus d y a) ≡ true
unfolding ◌-ℤ◌ ◌+ℤ◌
not_above-minus Direction.bullish x y a h = ground arith
not_above-minus Direction.bearish x y a h = ground arith

IsOpen-IsValid : (p : SimParams) (s : SimState) → IsOpen p s → IsValid p s
IsOpen-IsValid p s o = subst (λ st. Shape st p s) (sym o.0) (o.1, o.2, o.3, o.4)

exit_inside-IsValid :
    (p : SimParams) (s : SimState) (b : Candle) (i : Bool)
    → IsOpen p s
    → IsValid p (exit_inside p s b i).0
unfolding exit_inside
exit_inside-IsValid p s b i o =
    let d = p.direction in
    elim (Bool-cases (not_above d (minus d (near_side d b) (half_spread p)) p.stop)) [
      | inl hit ↦ rw hit (close-IsValid p s b _ ExitReason.stop _ _ _ o (not_above_refl d _))
      | inr safe ↦
          rw safe
            (elim (Bool-cases
              (not i && not_below d (minus d (far_side d b) (half_spread p)) p.target)) [
                | inl hit ↦
                    rw hit (close-IsValid p s b _ ExitReason.target _ _ _ o (not_above_refl d _))
                | inr calm ↦ rw calm (IsOpen-IsValid p s o)
              ])
    ]

exit_bar-IsValid :
    (p : SimParams) (s : SimState) (b : Candle) (i : Bool)
    → IsOpen p s
    → IsValid p (exit_bar p s b i).0
unfolding exit_bar
exit_bar-IsValid p s b i o =
    let d = p.direction in
    let exit_open = minus d b.opening (half_spread p) in
    elim (Bool-cases (not i && not_above d exit_open p.stop)) [
      | inl hit ↦ rw hit (
          close-IsValid p s b _ ExitReason.stop _ _ _ o
            (not_above-minus d exit_open p.stop p.costs.slippage (and_right (not i) _ hit)))
      | inr safe ↦ rw safe (elim (Bool-cases (not i && not_below d exit_open p.target)) [
        | inl hit ↦
            rw hit (close-IsValid p s b _ ExitReason.target _ _ _ o (and_right (not i) _ hit))
        | inr inside ↦ rw inside (exit_inside-IsValid p s b i o)
      ])
    ]

track-IsOpen :
    (p : SimParams) (s : SimState) (b : Candle)
    → s.status ≡ PaperStatus.opened
    → Filled p s
    → NotExited s
    → IsOpen p (track p s b)
unfolding track
track-IsOpen p s b h f n = (h, f, n, refl, refl)

-- What the entry part of a bar leaves of a pending simulation.
abbrev EntryValid : SimParams → Entry → Type 0
EntryValid p (returned s es) = IsValid p s
EntryValid p (entered s es i) = (s.status ≡ PaperStatus.opened) × Filled p s × NotExited s

-- The better of the limit and the open is no worse than the limit.
better_open :
    (d : Direction) (x limit : ℤ)
    → not_above d (if not_above d x limit then x else limit) limit ≡ true
better_open d x limit =
    if_cases (λ y. not_above d y limit ≡ true) (not_above d x limit) x limit (λ h. h)
      (λ _. not_above_refl d limit)

FillPriced-limit :
    (t : PaperEntryType) (o : Option ℤ) (d : Direction) (x l : ℤ)
    → t ≡ PaperEntryType.limit
    → o ≡ some l
    → not_above d x l ≡ true
    → FillPriced t o d (some x)
FillPriced-limit t o d x l e f h = rw (e, f) h

FillPriced-market :
    (t : PaperEntryType) (o : Option ℤ) (d : Direction) (x : ℤ)
    → t ≡ PaperEntryType.market
    → FillPriced t o d (some x)
FillPriced-market t o d x e = rw e refl

fill_limit-EntryValid :
    (p : SimParams) (s : SimState) (b : Candle) (limit : ℤ)
    → p.entry_type ≡ PaperEntryType.limit
    → p.limit_price ≡ some limit
    → NotExited s
    → EntryValid p (fill_limit p s b limit)
unfolding fill_limit
fill_limit-EntryValid p s b limit t l n =
    let x = plus p.direction b.opening (half_spread p) in
    (
      refl,
      (
        refl,
        refl,
        FillPriced-limit p.entry_type p.limit_price p.direction _ limit t l
            (better_open p.direction x limit),
      ),
      n,
    )

wait_limit-EntryValid :
    (p : SimParams) (s : SimState) (b : Candle)
    → s.status ≡ PaperStatus.pending
    → Shape PaperStatus.pending p s
    → EntryValid p (wait_limit p s b)
unfolding wait_limit
wait_limit-EntryValid p s b st h =
    elim (Bool-cases (leb p.pending_expiry_bars (s.pending_bars + 1))) [
      | inl over ↦ rw over (h.0, h.1)
      | inr more ↦ rw more (
          let s' = record s {
            pending_bars = s.pending_bars + 1;
            processed_through = some b.open_time;
          } in
          subst (λ st. Shape st p s') (sym st) (h.0, h.1, h.2, h.3, ground arith))
    ]

enter-EntryValid :
    (p : SimParams) (s : SimState) (b : Candle) (t : PaperEntryType) (o : Option ℤ) {e : Entry}
    → p.entry_type ≡ t
    → p.limit_price ≡ o
    → s.status ≡ PaperStatus.pending
    → Shape PaperStatus.pending p s
    → enter p s b t o ≡ some e
    → EntryValid p e
unfolding enter enter_limit enter_market
enter-EntryValid p s b PaperEntryType.market o et eo st h r =
    subst (EntryValid p) (some-injective r)
      (refl, (refl, refl, FillPriced-market p.entry_type p.limit_price p.direction _ et), h.1)
enter-EntryValid p s b PaperEntryType.limit none et eo st h r = cc
enter-EntryValid p s b PaperEntryType.limit (some l) et eo st h r =
    subst (EntryValid p) (some-injective r) (
      if_both (EntryValid p) _ (fill_limit p s b l) (wait_limit p s b)
        (fill_limit-EntryValid p s b l et eo h.1) (wait_limit-EntryValid p s b st h))

finish_entry-IsValid :
    (p : SimParams) (b : Candle) (e : Entry) → EntryValid p e → IsValid p (finish_entry p b e).0
unfolding finish_entry
finish_entry-IsValid p b (returned s es) h = h
finish_entry-IsValid p b (entered s es i) h =
    exit_bar-IsValid p (track p s b) b i (track-IsOpen p s b h.0 h.1 h.2)

step_active-IsValid :
    (st : PaperStatus) (p : SimParams) (s : SimState) (b : Candle) {r : SimState × List SimEvent}
    → s.status ≡ st
    → is_active st ≡ true
    → Shape st p s
    → step_active st p s b ≡ some r
    → IsValid p r.0
unfolding step_active
step_active-IsValid PaperStatus.pending p s b {r} e a h q =
    elim (Option-cases (enter p s b p.entry_type p.limit_price)) [
      | inl failed ↦ absurd (ground arith)
      | inr (x, entry) ↦
          let same : finish_entry p b x ≡ r = ground arith in
          subst (λ (y : SimState × List SimEvent). IsValid p y.0) same
            (finish_entry-IsValid p b x
              (enter-EntryValid p s b p.entry_type p.limit_price refl refl e h entry))
    ]
step_active-IsValid PaperStatus.opened p s b {r} e a h q =
    subst (λ (y : SimState × List SimEvent). IsValid p y.0) (some-injective q)
      (exit_bar-IsValid p (track p s b) b false (track-IsOpen p s b e h.0 h.1))
step_active-IsValid PaperStatus.closed p s b e a h q = cc
step_active-IsValid PaperStatus.expired p s b e a h q = cc
step_active-IsValid PaperStatus.cancelled p s b e a h q = cc

-- Every bar keeps a simulation valid: its status says which prices and times are set, a LIMIT has not
-- filled beyond its limit, a stop has not exited above the stop less slippage, a target not below the
-- target, and an order that waits has not waited its bars out.
pub step-IsValid :
    (p : SimParams) (s : SimState) (b : Candle) (s' : SimState) (es : List SimEvent)
    → IsValid p s
    → step p s b ≡ some (s', es)
    → IsValid p s'
unfolding step is_skipped
step-IsValid p s b s' es h q = elim (Bool-cases (is_skipped p s b)) [
  | inl skip ↦ let same : s ≡ s' = ground arith in subst (IsValid p) same h
  | inr run ↦
      let taken : step_active s.status p s b ≡ some (s', es) = ground arith in
      let active : is_active s.status ≡ true = ground arith in
      step_active-IsValid s.status p s b refl active h taken
]
