-- ===== src/Setup/Known.antt =====
-- The facts at candle `i` that `_Machine` of services/setup_state/engine.py reads: its tables, bias, ATR,
-- targets and sweeps; with chase.py, significance.py, targets.py and `atr_before` of
-- services/pd_arrays/displacement.py.
use ict_trading_claude.Prelude.{
  ℕ, ◌+◌, ◌-◌, ◌*◌, Bool, true, false, not, ◌&&◌, ◌||◌, Option, none, some, List, [], ◌∷◌, filter,
  any, slice, or_else, sort_by, best, ltb, leb, ◌==◌, if◌then◌else◌,
}
use ict_trading_claude.Prelude.Int.{ℤ, pos, ◌-ℤ◌, ltb_ℤ, leb_ℤ, dist_ℤ, scale}
use ict_trading_claude.Domain.Enums.{
  Direction, LiquidityEventType, LiquidityPoolType, LiquiditySide, PdArrayEventType, PdArrayType,
  StructureEventStatus, Timeframe, direction_eq,
}
use ict_trading_claude.Domain.Candle.{Candle, Name}
use ict_trading_claude.Candles.Screen.{same_timeframe}
use ict_trading_claude.Structure.Swings.{Fraction, mean, true_ranges}
use ict_trading_claude.Structure.Output.{StructureEvent}
use ict_trading_claude.Facts.{
  LiquidityPool, LiquidityEvent, PdArrayZone, PdArrayEvent, NoWickEvent, side_eq, id_eq, id_lt,
}
use ict_trading_claude.Entry.{Ratio, EntryConfig, multiple}
use ict_trading_claude.Setup.Defs.{Machine, BiasPoint}

-- `index`, a dictionary by open time: the last candle of a time.
unfoldable pub index_from : ℕ → List Candle → ℕ → Option ℕ
index_from i [] t = none
index_from i (c ∷ cs) t =
    or_else (index_from (i + 1) cs t) (if c.open_time == t then some i else none)

unfoldable pub index_of : Machine → ℕ → Option ℕ
index_of m t = index_from 0 m.candles t

abbrev is_at : ℕ → Option ℕ → Bool
is_at i none = false
is_at i (some j) = i == j

abbrev pub is_confirmed : StructureEventStatus → Bool
is_confirmed StructureEventStatus.confirmed = true
is_confirmed StructureEventStatus.potential = false

-- `breaks_at[i]`.
unfoldable pub breaks_at : Machine → ℕ → List StructureEvent
breaks_at m i =
    filter
      (λ e. is_confirmed e.status && m.cfg.mss_break_types e.type && is_at i (index_of m e.time))
      m.structure_events

-- `liq_at[i]`.
unfoldable pub liquidity_at : Machine → ℕ → List LiquidityEvent
liquidity_at m i = filter (λ e. is_at i (index_of m e.time)) m.liquidity_events

-- `type in TAKE_EVENTS`.
unfoldable pub is_take : LiquidityEventType → Bool
is_take LiquidityEventType.sweep = true
is_take LiquidityEventType.break = true
is_take _ = false

-- `taken_index[pool_id] <= i`: an event that takes the pool stands at candle `i` or before.
abbrev pub is_by : ℕ → Option ℕ → Bool
is_by i none = false
is_by i (some j) = leb j i

unfoldable pub is_taken : Machine → Name → ℕ → Bool
is_taken m pool_id i =
    any (λ e. is_take e.type && id_eq e.pool_id pool_id && is_by i (index_of m e.time))
      m.liquidity_events

unfoldable pub is_no_wick_at : Machine → ℕ → NoWickEvent → Bool
is_no_wick_at m i e = is_at i (index_of m e.time)

-- `no_wick_at[i]`.
unfoldable pub no_wick_at : Machine → ℕ → List NoWickEvent
no_wick_at m i = filter (is_no_wick_at m i) m.no_wick_events

-- `z.type in kinds`.
unfoldable pub is_usable_kind : EntryConfig → PdArrayType → Bool
is_usable_kind ecfg PdArrayType.fvg = true
is_usable_kind ecfg PdArrayType.ifvg = ecfg.include_confirmed_ifvg
is_usable_kind ecfg _ = false

-- `zones`, a dictionary: the last zone of an id.
unfoldable pub zone_in : EntryConfig → Name → List PdArrayZone → Option PdArrayZone
zone_in ecfg id [] = none
zone_in ecfg id (z ∷ zs) =
    or_else (zone_in ecfg id zs)
      (if is_usable_kind ecfg z.type && id_eq z.id id then some z else none)

-- The event that makes a zone usable: CREATED for an FVG, IFVG_CONFIRMED for an IFVG.
abbrev is_usable_event : PdArrayType → PdArrayEventType → Bool
is_usable_event PdArrayType.fvg PdArrayEventType.created = true
is_usable_event PdArrayType.fvg _ = false
is_usable_event _ PdArrayEventType.ifvg_confirmed = true
is_usable_event _ _ = false

abbrev is_invalidation : PdArrayEventType → Bool
is_invalidation PdArrayEventType.invalidated = true
is_invalidation _ = false

-- A dictionary of zones to the index of an event; a later assignment replaces an earlier one.
abbrev pub Marks : Type 0
Marks = List (PdArrayZone × ℕ)

unfoldable pub mark : PdArrayZone → ℕ → Marks → Marks
mark z i [] = (z, i) ∷ []
mark z i ((y, j) ∷ ms) = if id_eq z.id y.id then (y, i) ∷ ms else (y, j) ∷ mark z i ms

abbrev mark_some : (PdArrayZone → Bool) → Option PdArrayZone → Option ℕ → Marks → Marks
mark_some test (some z) (some i) ms = if test z then mark z i ms else ms
mark_some test _ _ ms = ms

-- One of the two tables that the loop over `pd_events` fills.
unfoldable pub marks_from :
    Machine → (PdArrayZone → PdArrayEvent → Bool) → List PdArrayEvent → Marks → Marks
marks_from m test [] ms = ms
marks_from m test (e ∷ es) ms =
    marks_from m test es
      (mark_some (λ z. test z e) (zone_in m.ecfg e.zone_id m.pd_zones) (index_of m e.time) ms)

-- `fvg_created` and `fvg_invalidated`.
unfoldable pub created_marks : Machine → Marks
created_marks m = marks_from m (λ z e. is_usable_event z.type e.type) m.pd_events []

unfoldable pub invalidated_marks : Machine → Marks
invalidated_marks m =
    marks_from m (λ z e. not (is_usable_event z.type e.type) && is_invalidation e.type) m.pd_events
      []

unfoldable pub index_in : PdArrayZone → Marks → Option ℕ
index_in z [] = none
index_in z ((y, j) ∷ ms) = if id_eq z.id y.id then some j else index_in z ms

-- `sorted(fvg_created.items(), key=lambda kv: (kv[1], kv[0]))`.
abbrev comes_first : PdArrayZone × ℕ → PdArrayZone × ℕ → Bool
comes_first (z, i) (y, j) = ltb i j || (i == j && not (id_lt y.id z.id))

unfoldable pub created_in_order : Machine → Marks
created_in_order m = sort_by comes_first (created_marks m)

-- `bias_at`. The latest point of a timeframe is the first of those with the greatest time.
unfoldable pub latest_point : List BiasPoint → Timeframe → ℕ → Option BiasPoint
latest_point points tf t =
    best (λ p q. ltb q.known_at p.known_at)
      (filter (λ p. same_timeframe p.timeframe tf && leb p.known_at t) points)

abbrev agree : Option BiasPoint → Option Direction → Option Direction
agree (some p) (some d) = if direction_eq p.direction d then some d else none
agree _ _ = none

abbrev direction_of : Option BiasPoint → Option Direction
direction_of none = none
direction_of (some p) = some p.direction

unfoldable pub bias_at : List BiasPoint → List Timeframe → ℕ → Option Direction
bias_at points [] t = none
bias_at points (tf ∷ []) t = direction_of (latest_point points tf t)
bias_at points (tf ∷ tf' ∷ tfs) t = agree (latest_point points tf t) (bias_at points (tf' ∷ tfs) t)

-- `_Machine.bias`: of the points in the order of their times, those known by the candle's close.
unfoldable pub bias : Machine → Candle → Option Direction
bias m c =
    bias_at
      (filter (λ p. leb p.known_at c.close_time)
        (sort_by (λ p q. leb p.known_at q.known_at) m.bias_points))
      m.bias_timeframes c.close_time

-- `atr_before(trs, start, period)`, and 0 where it is `None`.
unfoldable pub atr_before : List ℤ → ℕ → ℕ → Fraction
atr_before trs start period = mean (slice (start - period) start trs)

unfoldable pub atr : Machine → ℕ → Fraction
atr m i = atr_before (true_ranges m.candles) (i + 1) m.cfg.atr_period

unfoldable pub is_untaken : Machine → Candle → ℕ → LiquidityPool → Bool
is_untaken m c i p = leb p.known_at c.close_time && not (is_taken m p.id i)

-- The side of the targets of a direction, and the side that is swept for it.
abbrev pub target_side : Direction → LiquiditySide
target_side Direction.bullish = LiquiditySide.bsl
target_side Direction.bearish = LiquiditySide.ssl

abbrev pub sweep_side : Direction → LiquiditySide
sweep_side Direction.bullish = LiquiditySide.ssl
sweep_side Direction.bearish = LiquiditySide.bsl

-- `x > y` for BULLISH and `x < y` for BEARISH.
abbrev pub is_beyond : Direction → ℤ → ℤ → Bool
is_beyond Direction.bullish x y = ltb_ℤ y x
is_beyond Direction.bearish x y = ltb_ℤ x y

-- `eligible_targets`: a floor or an ATR that is not positive keeps every pool.
unfoldable pub is_eligible : Fraction → Ratio → ℤ → LiquidityPool → Bool
is_eligible a min_atr price p =
    min_atr.num == 0
    || leb_ℤ a.num (pos 0)
    || leb_ℤ (multiple min_atr a).num (pos (dist_ℤ p.price price * (multiple min_atr a).den))

abbrev nearer : ℤ → LiquidityPool → LiquidityPool → Bool
nearer close p q =
    ltb (dist_ℤ p.price close) (dist_ℤ q.price close)
    || (dist_ℤ p.price close == dist_ℤ q.price close && id_lt p.id q.id)

-- `_Machine.target`.
unfoldable pub target : Machine → Direction → Candle → ℕ → Option LiquidityPool
target m d c i = best (nearer c.close) (
    filter (is_eligible (atr m i) m.cfg.min_target_atr c.close) (
      filter
        (λ p. side_eq p.side (target_side d) && is_untaken m c i p && is_beyond d p.price c.close)
        m.pools))

-- `close >= p.price >= close - reach`, and its mirror.
abbrev is_within_reach : Direction → ℤ → Fraction → LiquidityPool → Bool
is_within_reach Direction.bullish close reach p =
    leb_ℤ p.price close && leb_ℤ (scale (close -ℤ p.price) reach.den) reach.num
is_within_reach Direction.bearish close reach p =
    leb_ℤ close p.price && leb_ℤ (scale (p.price -ℤ close) reach.den) reach.num

-- `_Machine.near_opposite`.
unfoldable pub near_opposite : Machine → Direction → Candle → ℕ → Bool
near_opposite m d c i =
    any
      (λ p.
        side_eq p.side (sweep_side d)
        && is_untaken m c i p
        && is_within_reach d c.close (multiple m.cfg.forming_approach_atr (atr m i)) p)
      m.pools

-- `pool_type in SIGNIFICANT_POOL_TYPES`: all types but plain swings.
unfoldable pub is_significant : LiquidityPoolType → Bool
is_significant LiquidityPoolType.swing_high = false
is_significant LiquidityPoolType.swing_low = false
is_significant _ = true

-- `sweep_is_significant`.
unfoldable pub sweep_is_significant : LiquidityEvent → Bool → Bool
sweep_is_significant e restrict = not restrict || is_significant e.pool_type

-- `_Machine.sweep`: the first of the most extreme.
unfoldable pub sweep : Machine → Direction → ℕ → Option LiquidityEvent
sweep m d i =
    best (λ e f. is_beyond d f.extreme e.extreme)
      (filter (λ e. sweep_is_significant e m.cfg.significant_sweeps_only)
        (filter (λ e. side_eq e.side (sweep_side d) && m.cfg.sweep_event_types e.type)
          (liquidity_at m i)))

-- `chase_guard_applies`.
unfoldable pub chase_guard_applies : Bool → Bool → Bool → Bool
chase_guard_applies target_taken zone_touched after_touch_only =
    if target_taken then (if after_touch_only then zone_touched else true) else false
