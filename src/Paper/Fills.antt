-- ===== src/Paper/Fills.antt =====
-- Parameters, state and events of services/paper/engine.py, and the part of `step` for a pending order.
use ict_trading_claude.Prelude.{
  ℕ, ◌+◌, ◌/◌, Bool, true, false, not, ◌||◌, Option, none, some, List, [], ◌∷◌, if◌then◌else◌, ltb,
  leb,
}
use ict_trading_claude.Prelude.Int.{ℤ, pos, ◌+ℤ◌, ◌-ℤ◌, leb_ℤ}
use ict_trading_claude.Domain.Enums.{
  Direction, ExitReason, PaperEntryType, PaperEventType, PaperStatus,
}
use ict_trading_claude.Domain.Candle.{Candle}

pub record AssumedCosts : Type 0 where
  pub spread : ℕ
  pub slippage : ℕ
  pub commission : ℕ

pub record SimParams : Type 0 where
  pub direction : Direction
  pub entry_type : PaperEntryType
  pub limit_price : Option ℤ
  pub stop : ℤ
  pub target : ℤ
  pub created_at : ℕ
  pub costs : AssumedCosts
  pub pending_expiry_bars : ℕ

pub record SimState : Type 0 where
  pub status : PaperStatus
  pub fill_price : Option ℤ
  pub filled_at : Option ℕ
  pub exit_price : Option ℤ
  pub exited_at : Option ℕ
  pub exit_reason : Option ExitReason
  pub pending_bars : ℕ
  pub best : Option ℤ
  pub worst : Option ℤ
  pub processed_through : Option ℕ

-- The state of a new simulation: the defaults of `SimState`.
abbrev pub new : SimState
new = record {
  status = PaperStatus.pending;
  fill_price = none;
  filled_at = none;
  exit_price = none;
  exited_at = none;
  exit_reason = none;
  pending_bars = 0;
  best = none;
  worst = none;
  processed_through = none;
}

-- The texts of `detail`.
pub data Detail : Type 0 where
  market_entry limit_gapped limit_filled : Detail
  limit_not_reached : ℕ → Detail
  gapped_stop gapped_target both_touched stop_touched filled_and_stopped target_touched : Detail

pub record SimEvent : Type 0 where
  pub type : PaperEventType
  pub at : ℕ
  pub price : Option ℤ
  pub ambiguous : Bool
  pub detail : Detail

-- `x + s * amount` and `x - s * amount`, with s = +1 for BULLISH and -1 for BEARISH.
abbrev pub plus : Direction → ℤ → ℕ → ℤ
plus Direction.bullish x a = x +ℤ pos a
plus Direction.bearish x a = x -ℤ pos a

abbrev pub minus : Direction → ℤ → ℕ → ℤ
minus Direction.bullish x a = x -ℤ pos a
minus Direction.bearish x a = x +ℤ pos a

-- `s * (x - y) <= 0` and `s * (x - y) >= 0`.
abbrev pub not_above : Direction → ℤ → ℤ → Bool
not_above Direction.bullish x y = leb_ℤ x y
not_above Direction.bearish x y = leb_ℤ y x

abbrev pub not_below : Direction → ℤ → ℤ → Bool
not_below d x y = not_above d y x

-- The bar's extreme in the favourable direction and in the adverse one.
abbrev pub far_side : Direction → Candle → ℤ
far_side Direction.bullish b = b.high
far_side Direction.bearish b = b.low

abbrev pub near_side : Direction → Candle → ℤ
near_side Direction.bullish b = b.low
near_side Direction.bearish b = b.high

abbrev pub half_spread : SimParams → ℕ
half_spread p = p.costs.spread / 2

-- `status in (PENDING, OPEN)`.
abbrev pub is_active : PaperStatus → Bool
is_active PaperStatus.pending = true
is_active PaperStatus.opened = true
is_active _ = false

abbrev pub is_processed : Option ℕ → ℕ → Bool
is_processed none t = false
is_processed (some through) t = leb t through

-- The early returns of `step`.
unfoldable pub is_skipped : SimParams → SimState → Candle → Bool
is_skipped p s b =
    not (is_active s.status)
    || not b.is_closed
    || is_processed s.processed_through b.open_time
    || ltb b.open_time p.created_at

abbrev pub fill : SimState → ℤ → ℕ → SimState
fill s price at = record s {
  status = PaperStatus.opened;
  fill_price = some price;
  filled_at = some at;
}

-- What the pending part of `step` leaves: a return, or an open position and `intrabar_fill`.
pub data Entry : Type 0 where
  returned : SimState → List SimEvent → Entry
  entered : SimState → List SimEvent → Bool → Entry

-- A LIMIT that is reached, filled at the better of the limit and the entry-side open.
unfoldable pub fill_limit : SimParams → SimState → Candle → ℤ → Entry
fill_limit p s b limit =
    let entry_open = plus p.direction b.opening (half_spread p) in
    let gapped = not_above p.direction entry_open limit in
    let price = if gapped then entry_open else limit in
    entered (fill s price b.open_time)
      (record {
        type = PaperEventType.filled;
        at = b.open_time;
        price = some price;
        ambiguous = false;
        detail = if gapped then Detail.limit_gapped else Detail.limit_filled;
      }
        ∷ [])
      (not gapped)

-- A LIMIT that is not reached waits or expires.
unfoldable pub wait_limit : SimParams → SimState → Candle → Entry
wait_limit p s b =
    let pending = s.pending_bars + 1 in
    let s' = record s { pending_bars = pending; processed_through = some b.open_time } in
    if leb p.pending_expiry_bars pending
    then returned (record s' { status = PaperStatus.expired })
        (record {
          type = PaperEventType.expired;
          at = b.open_time;
          price = none;
          ambiguous = false;
          detail = Detail.limit_not_reached pending;
        }
          ∷ [])
    else returned s' []

unfoldable pub enter_market : SimParams → SimState → Candle → Entry
enter_market p s b =
    let price = plus p.direction (plus p.direction b.opening (half_spread p)) p.costs.slippage in
    entered (fill s price b.open_time)
      (record {
        type = PaperEventType.filled;
        at = b.open_time;
        price = some price;
        ambiguous = false;
        detail = Detail.market_entry;
      }
        ∷ [])
      false

unfoldable pub enter_limit : SimParams → SimState → Candle → ℤ → Entry
enter_limit p s b limit =
    if not_above p.direction (plus p.direction (near_side p.direction b) (half_spread p)) limit
    then fill_limit p s b limit
    else wait_limit p s b

-- The pending part; `none` is the assertion that a LIMIT has a price.
unfoldable pub enter : SimParams → SimState → Candle → PaperEntryType → Option ℤ → Option Entry
enter p s b PaperEntryType.market limit = some (enter_market p s b)
enter p s b PaperEntryType.limit none = none
enter p s b PaperEntryType.limit (some limit) = some (enter_limit p s b limit)
