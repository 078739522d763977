-- ===== src/Setup/Confirm.antt =====
-- Entry confirmation in services/setup_state/engine.py: `ltf_entry`, `confirm` and `finish_confirmation`.
use ict_trading_claude.Prelude.{
  ℕ, ◌+◌, Bool, true, false, not, ◌&&◌, Option, none, some, List, [], ◌∷◌, filter, map, any,
  get_elem?, or_else, sort_by, ltb, leb, ◌==◌, if◌then◌else◌,
}
use ict_trading_claude.Prelude.Int.{ℤ}
use ict_trading_claude.Domain.Enums.{
  Direction, EntryModel, PdArrayType, SetupState, StructureEventType, direction_eq,
}
use ict_trading_claude.Domain.Candle.{Candle}
use ict_trading_claude.Structure.Output.{StructureEvent}
use ict_trading_claude.Facts.{PdArrayZone, side_eq, id_eq, rank}
use ict_trading_claude.Entry.{PlanInput, Planned, planned, missed, build_plan}
use ict_trading_claude.Setup.Defs.{
  Machine, Setup, SetupEvent, TargetRef, confirmed_by, confirmed_but,
}
use ict_trading_claude.Setup.Known.{
  atr, is_beyond, is_untaken, target_side, no_wick_at, is_confirmed,
}
use ict_trading_claude.Setup.Moves.{Outcome, emit_at, end}

-- The entry edge of a zone.
abbrev pub edge_of : Direction → PdArrayZone → ℤ
edge_of Direction.bullish z = z.top
edge_of Direction.bearish z = z.bottom

abbrev break_type_eq : StructureEventType → StructureEventType → Bool
break_type_eq StructureEventType.bos StructureEventType.bos = true
break_type_eq StructureEventType.choch StructureEventType.choch = true
break_type_eq StructureEventType.mss StructureEventType.mss = true
break_type_eq _ _ = false

-- `ltf_breaks`, in the order of their times.
unfoldable pub ltf_breaks : Machine → List StructureEvent
ltf_breaks m =
    sort_by (λ a b. leb a.time b.time)
      (filter (λ b. is_confirmed b.status && any (break_type_eq b.type) m.ecfg.ltf_break_types)
        m.ltf_breaks)

-- `ltf_close`, a dictionary by open time.
unfoldable pub close_in : List Candle → ℕ → Option ℤ
close_in [] t = none
close_in (c ∷ cs) t = or_else (close_in cs t) (if c.open_time == t then some c.close else none)

-- The loop of `ltf_entry`: the first break of the direction within the times.
unfoldable pub first_within : Machine → Direction → ℕ → ℕ → ℕ → List StructureEvent → Option ℤ
first_within m d start finish step [] = none
first_within m d start finish step (b ∷ bs) =
    let rest = first_within m d start finish step bs in
    if direction_eq b.direction d && leb start b.time && leb (b.time + step) finish
    then close_in m.ltf_candles b.time
    else rest

abbrev within_times : Machine → Direction → Candle → Option Candle → ℕ → Option ℤ
within_times m d c (some touched) step =
    first_within m d touched.open_time c.close_time step (ltf_breaks m)
within_times m d c none step = none

abbrev candle_at : Machine → Option ℕ → Option Candle
candle_at m none = none
candle_at m (some i) = get_elem? m.candles i

-- `ltf_entry`. A setup that confirms was touched at a candle of the series.
unfoldable pub ltf_entry : Machine → Setup → Candle → Option ℤ
ltf_entry m s c = within_times m s.direction c (candle_at m s.touched_index) m.ecfg.execution_step

abbrev is_ifvg : PdArrayType → Bool
is_ifvg PdArrayType.ifvg = true
is_ifvg _ = false

abbrev pub is_index : ℕ → Option ℕ → Bool
is_index i none = false
is_index i (some j) = i == j

-- `i > index`, where the index may be -1.
abbrev pub is_after : ℕ → Option ℕ → Bool
is_after i none = true
is_after i (some j) = ltb j i

-- `retest_index >= 0 and i == retest_index + 1`.
abbrev pub is_next : ℕ → Option ℕ → Bool
is_next i none = false
is_next i (some j) = i == j + 1

-- What a model tries to enter at, with the label that the plan gets, and the setup that it leaves.
abbrev pub Attempt : Type 0
Attempt = Option (ℤ × EntryModel) × Setup

abbrev labelled : EntryModel → Option ℤ → Option (ℤ × EntryModel)
labelled model none = none
labelled model (some entry) = some (entry, model)

abbrev entry_if : Bool → ℤ → EntryModel → Option (ℤ × EntryModel)
entry_if true entry model = some (entry, model)
entry_if false entry model = none

unfoldable pub closes_beyond : Setup → Candle → PdArrayZone → Bool
closes_beyond s c z = is_beyond s.direction c.close (edge_of s.direction z)

unfoldable pub with_direction : Setup → Candle → Bool
with_direction s c = is_beyond s.direction c.close c.opening

-- The body of the loop over the models.
unfoldable pub try_model : Machine → ℕ → Candle → PdArrayZone → Setup → EntryModel → Attempt
try_model m i c z s EntryModel.limit_research =
    (entry_if (is_index i s.touched_index) (edge_of s.direction z) EntryModel.limit_research, s)
try_model m i c z s EntryModel.ltf_refinement =
    (labelled EntryModel.ltf_refinement (ltf_entry m s c), s)
try_model m i c z s EntryModel.no_wick_rebalance = (
  entry_if
      (closes_beyond s c z
        && any (λ e. direction_eq e.direction s.direction && leb 1 (rank e.strength))
            (no_wick_at m i))
      c.close EntryModel.no_wick_rebalance,
  s,
)
try_model m i c z s EntryModel.m15_close = (
  entry_if (closes_beyond s c z && with_direction s c) c.close
      (if is_ifvg z.type then EntryModel.ifvg else EntryModel.m15_close),
  s,
)
try_model m i c z s EntryModel.conservative_retest =
    if is_next i s.retest_index && is_beyond s.direction c.close s.retest_close
    then (some (c.close, EntryModel.conservative_retest), s)
    else (
      none,
      if closes_beyond s c z && with_direction s c && is_after i s.retest_index
          then record s { retest_index = some i; retest_close = c.close }
          else s,
    )
try_model m i c z s _ = (none, s)

unfoldable pub further_targets : Machine → Direction → TargetRef → Candle → ℕ → List ℤ
further_targets m d t c i =
    map (λ p. p.price)
      (filter
        (λ p. side_eq p.side (target_side d) && not (id_eq p.id t.pool_id) && is_untaken m c i p)
        m.pools)

unfoldable pub plan_input :
    Machine → ℕ → Candle → PdArrayZone → Setup → TargetRef → ℤ → EntryModel → ℤ → PlanInput
plan_input m i c z s t protective model entry = record {
  direction = s.direction;
  model = model;
  mode = m.ecfg.mode;
  confirmed_at = c.open_time;
  zone_id = z.id;
  entry = entry;
  protective = protective;
  tp1 = t.price;
  further_targets = further_targets m s.direction t c i;
  atr = atr m i;
  research_only = elim model [ EntryModel.limit_research ↦ true | _ ↦ false ];
}

abbrev pub on_plan : ℕ → Candle → EntryModel → ℤ → Setup → Planned → Outcome
on_plan i c model entry s (missed reason) =
    end s SetupState.entry_missed i c (confirmed_but model reason)
on_plan i c model entry s (planned plan) =
    emit_at (record s { plan = some plan }) SetupState.blocked i c (confirmed_by model) entry

abbrev pub finish_with :
    Machine
    → ℕ
    → Candle
    → PdArrayZone
    → Setup
    → ℤ
    → EntryModel
    → Option TargetRef
    → Option ℤ
    → Outcome
finish_with m i c z s entry model (some t) (some protective) =
    on_plan i c model entry s (build_plan m.ecfg (plan_input m i c z s t protective model entry))
finish_with m i c z s entry model _ _ = none

-- `finish_confirmation`; it asserts that there are a target and a protective extreme.
unfoldable pub finish_confirmation :
    Machine → ℕ → Candle → PdArrayZone → Setup → ℤ → EntryModel → Outcome
finish_confirmation m i c z s entry model = finish_with m i c z s entry model s.target s.protective

-- An outcome, and whether `confirm` returned True.
abbrev pub Confirmed : Type 0
Confirmed = Option (Setup × List SetupEvent × Bool)

abbrev pub finished : Outcome → Confirmed
finished none = none
finished (some (s, es)) = some (s, es, true)

-- The entry of an attempt, or the models that are left.
abbrev pub resolve : Machine → ℕ → Candle → PdArrayZone → Attempt → (Setup → Confirmed) → Confirmed
resolve m i c z (some (entry, model), s) rest = finished (finish_confirmation m i c z s entry model)
resolve m i c z (none, s) rest = rest s

unfoldable pub try_models : Machine → ℕ → Candle → PdArrayZone → List EntryModel → Setup → Confirmed
try_models m i c z [] s = some (s, [], false)
try_models m i c z (model ∷ models) s =
    resolve m i c z (try_model m i c z s model) (try_models m i c z models)

abbrev pub confirm_on : Machine → ℕ → Candle → Setup → Option PdArrayZone → Confirmed
confirm_on m i c s none = none
confirm_on m i c s (some z) = try_models m i c z m.ecfg.models s

-- `confirm`; it asserts that a zone was touched.
unfoldable pub confirm : Machine → ℕ → Candle → Setup → Confirmed
confirm m i c s = confirm_on m i c s s.touched_zone
