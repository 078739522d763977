-- ===== src/Entry.antt =====
-- Entry plans and chase protection: services/entry/plan.py and services/entry/models.py.
-- Prices are whole numbers of the sixth decimal place, to which the source rounds a plan; amounts that
-- it divides are fractions, compared without division.
pub mod Plan
mod Tests
use ict_trading_claude.Prelude.{
  ℕ, zero, suc, ◌*◌, Bool, true, false, Option, none, some, List, [], ◌∷◌, ◌++◌, filter, sort_by,
  if◌then◌else◌,
}
use ict_trading_claude.Prelude.Int.{ℤ, pos, pos_part, ◌+ℤ◌, ◌-ℤ◌, ltb_ℤ, leb_ℤ, scale}
use ict_trading_claude.Prelude.Round.{round_ℤ}
use ict_trading_claude.Domain.Enums.{
  Direction, EntryMode, EntryModel, StructureEventType, Timeframe,
}
use ict_trading_claude.Domain.Candle.{Name}
use ict_trading_claude.Structure.Swings.{Fraction}

-- A multiple of the configuration.
pub record Ratio : Type 0 where
  pub num : ℕ
  pub den : ℕ

unfoldable pub multiple : Ratio → Fraction → Fraction
multiple m a = record { num = scale a.num m.num; den = m.den * a.den }

-- `x < r`, `r < x` and `x <= r` for a price difference `x`.
unfoldable pub is_under : ℤ → Fraction → Bool
is_under x r = ltb_ℤ (scale x r.den) r.num

unfoldable pub is_over : ℤ → Fraction → Bool
is_over x r = ltb_ℤ r.num (scale x r.den)

-- `sign * (x - y)`.
abbrev pub ahead : Direction → ℤ → ℤ → ℤ
ahead Direction.bullish x y = x -ℤ y
ahead Direction.bearish x y = y -ℤ x

-- `x - sign * y`.
abbrev pub behind : Direction → ℤ → ℤ → ℤ
behind Direction.bullish x y = x -ℤ y
behind Direction.bearish x y = x +ℤ y

pub record EntryConfig : Type 0 where
  pub mode : EntryMode
  pub models : List EntryModel
  pub min_rr : Ratio
  -- `execution_timeframe.duration`, all that the engine reads of it (the source raises a ValueError for
  -- MN1, which has none: an execution timeframe is taken to have one).
  pub execution_step : ℕ
  pub ltf_break_types : List StructureEventType
  pub confirmation_window_bars : ℕ
  pub stop_buffer_atr : Ratio
  pub min_tp1_atr : Ratio
  pub target_distinct_atr : Ratio
  pub include_confirmed_ifvg : Bool

-- A confirmed plan. `rr1`, `rr2` and `rr3` count hundredths.
pub record EntryPlan : Type 0 where
  pub model : EntryModel
  pub mode : EntryMode
  pub direction : Direction
  pub confirmed_at : ℕ
  pub zone_id : Name
  pub entry : ℤ
  pub stop : ℤ
  pub risk : ℤ
  pub tp1 : ℤ
  pub tp2 : Option ℤ
  pub tp3 : Option ℤ
  pub rr1 : ℤ
  pub rr2 : Option ℤ
  pub rr3 : Option ℤ
  pub min_rr : Ratio
  pub research_only : Bool

-- The second component of `build_plan`, and what `chase_reason` returns.
pub data Missed : Type 0 where
  beyond_stop tp1_too_close rr_too_low price_moved_away : Missed

pub data Planned : Type 0 where
  planned : EntryPlan → Planned
  missed : Missed → Planned

-- The arguments of `build_plan`.
pub record PlanInput : Type 0 where
  pub direction : Direction
  pub model : EntryModel
  pub mode : EntryMode
  pub confirmed_at : ℕ
  pub zone_id : Name
  pub entry : ℤ
  pub protective : ℤ
  pub tp1 : ℤ
  pub further_targets : List ℤ
  pub atr : Fraction
  pub research_only : Bool

-- `stop = protective - sign * stop_buffer_atr * atr`.
unfoldable pub stop_of : EntryConfig → PlanInput → Fraction
stop_of cfg x =
    let buffer = multiple cfg.stop_buffer_atr x.atr in
    record { num = behind x.direction (scale x.protective buffer.den) buffer.num; den = buffer.den }

-- `sign * (price - stop)`.
unfoldable pub risk_from : Direction → ℤ → Fraction → Fraction
risk_from d price stop = record { num = ahead d (scale price stop.den) stop.num; den = stop.den }

-- `reward / risk < min_rr`, for a positive risk.
unfoldable pub rr_below : ℤ → Fraction → Ratio → Bool
rr_below reward risk min_rr =
    ltb_ℤ (scale (scale reward risk.den) min_rr.den) (scale risk.num min_rr.num)

-- `round(sign * (tp - entry) / risk, 2)`, for a positive risk.
unfoldable pub rr_of : Direction → ℤ → Fraction → ℤ → ℤ
rr_of d entry risk tp = round_ℤ (scale (ahead d tp entry) (100 * risk.den)) (pos_part risk.num)

abbrev pub rr_of_some : Direction → ℤ → Fraction → Option ℤ → Option ℤ
rr_of_some d entry risk none = none
rr_of_some d entry risk (some tp) = some (rr_of d entry risk tp)

-- `round(x, 6)`.
unfoldable pub rounded : Fraction → ℤ
rounded x = round_ℤ x.num x.den

-- The loop over `beyond`, with the targets that it may still take.
unfoldable pub distinct : Direction → Fraction → ℕ → ℤ → List ℤ → List ℤ
distinct d apart zero last ps = []
distinct d apart (suc n) last [] = []
distinct d apart (suc n) last (p ∷ ps) =
    let take_it = p ∷ distinct d apart n p ps in
    let leave_it = distinct d apart (suc n) last ps in
    if is_over (ahead d p last) apart then take_it else leave_it

-- The targets beyond TP1, nearest first.
unfoldable pub beyond_targets : Direction → ℤ → List ℤ → List ℤ
beyond_targets d tp1 ps =
    sort_by (λ p q. leb_ℤ (ahead d p tp1) (ahead d q tp1))
      (filter (λ p. ltb_ℤ (pos 0) (ahead d p tp1)) ps)

abbrev pub first_of : List ℤ → Option ℤ
first_of [] = none
first_of (p ∷ ps) = some p

abbrev pub second_of : List ℤ → Option ℤ
second_of [] = none
second_of (p ∷ ps) = first_of ps

unfoldable pub extra_targets : EntryConfig → PlanInput → List ℤ
extra_targets cfg x =
    distinct x.direction (multiple cfg.target_distinct_atr x.atr) 2 x.tp1
      (beyond_targets x.direction x.tp1 x.further_targets)

unfoldable pub plan_of : EntryConfig → PlanInput → EntryPlan
plan_of cfg x =
    let stop = stop_of cfg x in
    let risk = risk_from x.direction x.entry stop in
    let extra = extra_targets cfg x in
    record {
      model = x.model;
      mode = x.mode;
      direction = x.direction;
      confirmed_at = x.confirmed_at;
      zone_id = x.zone_id;
      entry = x.entry;
      stop = rounded stop;
      risk = rounded risk;
      tp1 = x.tp1;
      tp2 = first_of extra;
      tp3 = second_of extra;
      rr1 = rr_of x.direction x.entry risk x.tp1;
      rr2 = rr_of_some x.direction x.entry risk (first_of extra);
      rr3 = rr_of_some x.direction x.entry risk (second_of extra);
      min_rr = cfg.min_rr;
      research_only = x.research_only;
    }

unfoldable pub build_plan : EntryConfig → PlanInput → Planned
build_plan cfg x =
    let risk = risk_from x.direction x.entry (stop_of cfg x) in
    let reward1 = ahead x.direction x.tp1 x.entry in
    if leb_ℤ risk.num (pos 0)
    then missed beyond_stop
    else if is_under reward1 (multiple cfg.min_tp1_atr x.atr)
    then missed tp1_too_close
    else if rr_below reward1 risk cfg.min_rr
    then missed rr_too_low
    else planned (plan_of cfg x)

-- `none` is that nothing is wrong.
unfoldable pub chase_reason : EntryPlan → ℤ → Option Missed
chase_reason plan close =
    let risk = ahead plan.direction close plan.stop in
    if leb_ℤ (ahead plan.direction close plan.entry) (pos 0)
    then none
    else if leb_ℤ risk (pos 0)
    then none
    else if rr_below (ahead plan.direction plan.tp1 close) (record { num = risk; den = 1 })
        plan.min_rr
    then some price_moved_away
    else none
