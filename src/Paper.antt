-- ===== src/Paper.antt =====
-- The paper simulation of services/paper/engine.py, with the assumed costs of services/paper/models.py.
-- Prices are whole numbers of a unit in which half the spread is whole and which is no finer than the
-- 10 decimals that the source rounds to, so `_r` changes nothing and is left out.
mod Fills
unfoldable pub use Fills.*
pub mod Step
pub mod Outcome
pub mod Loop
pub mod Once
mod Tests
use ict_trading_claude.Prelude.{
  ℕ, zero, suc, ◌+◌, ◌-◌, ◌/◌, Bool, true, false, not, ◌&&◌, ◌||◌, Option, none, some, List, [],
  ◌∷◌, ◌++◌, if◌then◌else◌, ltb, leb,
}
use ict_trading_claude.Prelude.Int.{ℤ, pos, ◌+ℤ◌, ◌-ℤ◌, ltb_ℤ, leb_ℤ, max_ℤ, min_ℤ}
use ict_trading_claude.Domain.Enums.{
  Direction, ExitReason, PaperEntryType, PaperEventType, PaperStatus,
}
use ict_trading_claude.Domain.Candle.{Candle}

-- `max(best, favourable)` on the favourable side, the first value as it is.
abbrev pub better : Direction → Option ℤ → ℤ → ℤ
better d none x = x
better Direction.bullish (some y) x = max_ℤ y x
better Direction.bearish (some y) x = min_ℤ y x

abbrev pub worse : Direction → Option ℤ → ℤ → ℤ
worse d none x = x
worse Direction.bullish (some y) x = min_ℤ y x
worse Direction.bearish (some y) x = max_ℤ y x

-- `close`: the closed position with the event that closes it.
unfoldable pub close :
    SimState → Candle → PaperEventType → ExitReason → ℤ → Bool → Detail → SimState × List SimEvent
close s b kind reason price ambiguous detail = (
  record s {
    status = PaperStatus.closed;
    exit_price = some price;
    exited_at = some b.close_time;
    exit_reason = some reason;
  },
  record {
    type = kind;
    at = b.open_time;
    price = some price;
    ambiguous = ambiguous;
    detail = detail;
  }
      ∷ [],
)

-- The stop or the target touched inside the bar.
unfoldable pub exit_inside : SimParams → SimState → Candle → Bool → SimState × List SimEvent
exit_inside p s b intrabar =
    let d = p.direction in
    let adverse = minus d (near_side d b) (half_spread p) in
    let favourable = minus d (far_side d b) (half_spread p) in
    let stop_hit = not_above d adverse p.stop in
    let target_hit = not intrabar && not_below d favourable p.target in
    if stop_hit
    then close s b PaperEventType.stop_hit ExitReason.stop (minus d p.stop p.costs.slippage)
        (target_hit || intrabar)
        (if intrabar
          then Detail.filled_and_stopped
          else if target_hit
          then Detail.both_touched
          else Detail.stop_touched)
    else if target_hit
    then close s b PaperEventType.target_hit ExitReason.target p.target false Detail.target_touched
    else (s, [])

-- The part of `step` for an open position: gaps at the open first, unless the bar filled a LIMIT inside.
unfoldable pub exit_bar : SimParams → SimState → Candle → Bool → SimState × List SimEvent
exit_bar p s b intrabar =
    let d = p.direction in
    let exit_open = minus d b.opening (half_spread p) in
    if not intrabar && not_above d exit_open p.stop
    then close s b PaperEventType.stop_hit ExitReason.stop (minus d exit_open p.costs.slippage)
        false Detail.gapped_stop
    else if not intrabar && not_below d exit_open p.target
    then close s b PaperEventType.target_hit ExitReason.target exit_open false Detail.gapped_target
    else exit_inside p s b intrabar

-- The excursions of the bar, then the exits.
unfoldable pub track : SimParams → SimState → Candle → SimState
track p s b =
    let d = p.direction in
    record s {
      best = some (better d s.best (minus d (far_side d b) (half_spread p)));
      worst = some (worse d s.worst (minus d (near_side d b) (half_spread p)));
      processed_through = some b.open_time;
    }

abbrev pub add_events : List SimEvent → SimState × List SimEvent → SimState × List SimEvent
add_events es (s, fs) = (s, es ++ fs)

unfoldable pub finish_entry : SimParams → Candle → Entry → SimState × List SimEvent
finish_entry p b (returned s es) = (s, es)
finish_entry p b (entered s es intrabar) = add_events es (exit_bar p (track p s b) b intrabar)

abbrev pub finish_all : SimParams → Candle → Option Entry → Option (SimState × List SimEvent)
finish_all p b none = none
finish_all p b (some e) = some (finish_entry p b e)

unfoldable pub step_active :
    PaperStatus → SimParams → SimState → Candle → Option (SimState × List SimEvent)
step_active PaperStatus.pending p s b = finish_all p b (enter p s b p.entry_type p.limit_price)
step_active _ p s b = some (exit_bar p (track p s b) b false)

unfoldable pub step : SimParams → SimState → Candle → Option (SimState × List SimEvent)
step p s b = if is_skipped p s b then some (s, []) else step_active s.status p s b

-- `sorted(bars, key=lambda b: b.open_time)`: stable.
unfoldable pub insert : Candle → List Candle → List Candle
insert b [] = b ∷ []
insert b (c ∷ cs) = if leb b.open_time c.open_time then b ∷ c ∷ cs else c ∷ insert b cs

unfoldable pub sort : List Candle → List Candle
unfolding insert
sort [] = []
sort (b ∷ bs) = insert b (sort bs)

abbrev pub prepend :
    List SimEvent → Option (SimState × List SimEvent) → Option (SimState × List SimEvent)
prepend es none = none
prepend es (some (s, fs)) = some (s, es ++ fs)

-- The end of a round of `simulate`: break once the simulation is over, else go on.
abbrev pub resume :
    Option (SimState × List SimEvent)
    → (SimState → Option (SimState × List SimEvent))
    → Option (SimState × List SimEvent)
resume none k = none
resume (some (s', es)) k =
    let rest = k s' in if is_active s'.status then prepend es rest else some (s', es)

unfoldable pub loop : SimParams → SimState → List Candle → Option (SimState × List SimEvent)
loop p s [] = some (s, [])
loop p s (b ∷ bs) = resume (step p s b) (λ s'. loop p s' bs)

unfoldable pub simulate : SimParams → SimState → List Candle → Option (SimState × List SimEvent)
unfolding loop sort
simulate p s bars = loop p s (sort bars)

-- `manual_close_price`.
unfoldable pub manual_close_price : SimParams → Candle → ℤ
manual_close_price p last_bar =
    minus p.direction (minus p.direction last_bar.close (half_spread p)) p.costs.slippage
