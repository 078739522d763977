-- ===== src/Setup/Stages.antt =====
-- The stages of a setup in services/setup_state/engine.py: what it holds in each, how long it stays, and
-- the transitions that are open to it.
use ict_trading_claude.Prelude.{ℕ, ◌-◌, ◌≤◌, ◌≡◌, refl, true, false, Option, none, some, arith, leb}
use ict_trading_claude.Domain.Enums.{SetupState}
use ict_trading_claude.Entry.{EntryPlan, PlanInput, build_plan, planned}
use ict_trading_claude.Setup.{
  Machine, Setup, may_emit, state_eq, is_allowed, is_confirming, is_discovered, is_watch,
  is_forming, atr,
}

-- The stages between which what a setup holds differs. `unreached` has the states of the other setup
-- types and those that authorize a trade.
pub data Stage : Type 0 where
  seeking breaking retracing confirming holding ended unreached : Stage

unfoldable pub stage_of : SetupState → Stage
stage_of SetupState.discovered = seeking
stage_of SetupState.watch = seeking
stage_of SetupState.setup_forming = seeking
stage_of SetupState.liquidity_event = breaking
stage_of SetupState.waiting_for_mss = breaking
stage_of SetupState.setup_armed = retracing
stage_of SetupState.waiting_for_retracement = retracing
stage_of SetupState.entry_zone_approaching = retracing
stage_of SetupState.entry_zone_touched = confirming
stage_of SetupState.waiting_for_confirmation = confirming
stage_of SetupState.blocked = holding
stage_of SetupState.invalidated = ended
stage_of SetupState.expired = ended
stage_of SetupState.entry_missed = ended
stage_of _ = unreached

abbrev pub IsPresent : {A : Type 0} → Option A → Type 0
IsPresent none = ⊥
IsPresent (some a) = Unit

-- A plan that `build_plan` gave for this machine.
abbrev pub IsBuilt : Machine → Option EntryPlan → Type 0
IsBuilt m none = ⊥
IsBuilt m (some p) =
    (x : PlanInput) × (i : ℕ) × (x.atr ≡ atr m i) × (build_plan m.ecfg x ≡ planned p)

-- What a setup holds.
abbrev pub Holds : Stage → Machine → Setup → Type 0
Holds seeking m s = Unit
Holds breaking m s = IsPresent s.target × IsPresent s.liquidity
Holds retracing m s = IsPresent s.target × IsPresent s.protective
Holds confirming m s =
    IsPresent s.target
    × IsPresent s.protective
    × IsPresent s.touched_zone
    × IsPresent s.touched_index
Holds holding m s = IsPresent s.target × IsPresent s.protective × IsBuilt m s.plan
Holds ended m s = Unit
Holds unreached m s = ⊥

-- At most the bars of a window have passed since a candle. A window of no bars still has its first candle.
abbrev pub IsWithin : ℕ → ℕ → ℕ → Type 0
IsWithin bars start i = i - start ≤ bars - 1

abbrev pub IsWithinSome : ℕ → Option ℕ → ℕ → Type 0
IsWithinSome bars none i = ⊥
IsWithinSome bars (some start) i = IsWithin bars start i

pub within : (bars start i : ℕ) → leb bars (i - start) ≡ false → IsWithin bars start i
within bars start i h = ground arith

-- How long a setup stays in a stage.
abbrev pub Lasts : Stage → Machine → ℕ → Setup → Type 0
Lasts breaking m i s = IsWithin m.cfg.mss_window_bars s.liquidity_index i
Lasts retracing m i s = IsWithin m.cfg.retracement_window_bars s.mss_index i
Lasts confirming m i s = IsWithinSome m.ecfg.confirmation_window_bars s.touched_index i
Lasts _ m i s = Unit

abbrev pub Ready : Machine → Setup → Type 0
Ready m s = Holds (stage_of s.state) m s

abbrev pub Timely : Machine → ℕ → Setup → Type 0
Timely m i s = Lasts (stage_of s.state) m i s

abbrev pub Settled : Machine → ℕ → Setup → Type 0
Settled m i s = Ready m s × Timely m i s

pub seeking-watch :
    (st : SetupState) → is_discovered st ≡ true → may_emit st SetupState.watch ≡ true
unfolding may_emit state_eq is_allowed
seeking-watch SetupState.discovered h = refl
seeking-watch _ h = cc

pub seeking-invalidated :
    (st : SetupState) → stage_of st ≡ seeking → may_emit st SetupState.invalidated ≡ true
unfolding may_emit state_eq is_allowed stage_of
seeking-invalidated SetupState.discovered h = refl
seeking-invalidated SetupState.watch h = refl
seeking-invalidated SetupState.setup_forming h = refl
seeking-invalidated _ h = cc

pub seeking-discovered :
    (st : SetupState) → stage_of st ≡ seeking → may_emit st SetupState.discovered ≡ true
unfolding may_emit state_eq is_allowed stage_of
seeking-discovered SetupState.discovered h = refl
seeking-discovered SetupState.watch h = refl
seeking-discovered SetupState.setup_forming h = refl
seeking-discovered _ h = cc

-- A setup with a target is watched, or forming.
pub seeking-watched :
    (st : SetupState)
    → stage_of st ≡ seeking
    → is_discovered st ≡ false
    → (may_emit st SetupState.liquidity_event ≡ true)
      × (is_forming st ≡ true → may_emit st SetupState.watch ≡ true)
      × (is_watch st ≡ true → may_emit st SetupState.setup_forming ≡ true)
unfolding may_emit state_eq is_allowed stage_of
seeking-watched SetupState.discovered h k = cc
seeking-watched SetupState.watch h k = (refl, λ e. refl, λ e. refl)
seeking-watched SetupState.setup_forming h k = (refl, λ e. refl, λ e. refl)
seeking-watched _ h k = cc

pub breaking_moves :
    (st : SetupState)
    → stage_of st ≡ breaking
    → (may_emit st SetupState.invalidated ≡ true)
      × (may_emit st SetupState.expired ≡ true)
      × (may_emit st SetupState.setup_armed ≡ true)
      × (may_emit st SetupState.waiting_for_mss ≡ true)
unfolding may_emit state_eq is_allowed stage_of
breaking_moves SetupState.liquidity_event h = (refl, refl, refl, refl)
breaking_moves SetupState.waiting_for_mss h = (refl, refl, refl, refl)
breaking_moves _ h = cc

pub retracing_moves :
    (st : SetupState)
    → stage_of st ≡ retracing
    → (may_emit st SetupState.invalidated ≡ true)
      × (may_emit st SetupState.expired ≡ true)
      × (may_emit st SetupState.entry_zone_touched ≡ true)
      × (may_emit st SetupState.entry_zone_approaching ≡ true)
      × (may_emit st SetupState.waiting_for_retracement ≡ true)
unfolding may_emit state_eq is_allowed stage_of
retracing_moves SetupState.setup_armed h = (refl, refl, refl, refl, refl)
retracing_moves SetupState.waiting_for_retracement h = (refl, refl, refl, refl, refl)
retracing_moves SetupState.entry_zone_approaching h = (refl, refl, refl, refl, refl)
retracing_moves _ h = cc

pub confirming_moves :
    (st : SetupState)
    → stage_of st ≡ confirming
    → (may_emit st SetupState.invalidated ≡ true)
      × (may_emit st SetupState.expired ≡ true)
      × (may_emit st SetupState.entry_missed ≡ true)
      × (may_emit st SetupState.blocked ≡ true)
      × (may_emit st SetupState.waiting_for_confirmation ≡ true)
unfolding may_emit state_eq is_allowed stage_of
confirming_moves SetupState.entry_zone_touched h = (refl, refl, refl, refl, refl)
confirming_moves SetupState.waiting_for_confirmation h = (refl, refl, refl, refl, refl)
confirming_moves _ h = cc

pub holding_moves :
    (st : SetupState)
    → stage_of st ≡ holding
    → (may_emit st SetupState.invalidated ≡ true)
      × (may_emit st SetupState.expired ≡ true)
      × (may_emit st SetupState.entry_missed ≡ true)
unfolding may_emit state_eq is_allowed stage_of
holding_moves SetupState.blocked h = (refl, refl, refl)
holding_moves _ h = cc

-- A stage after the break and before a plan: how it may end, and whether it confirms.
pub retracing-is_confirming : (st : SetupState) → stage_of st ≡ retracing → is_confirming st ≡ false
unfolding stage_of is_confirming
retracing-is_confirming SetupState.entry_zone_touched h = cc
retracing-is_confirming SetupState.waiting_for_confirmation h = cc
retracing-is_confirming _ h = refl

pub confirming-is_confirming :
    (st : SetupState) → stage_of st ≡ confirming → is_confirming st ≡ true
unfolding stage_of is_confirming
confirming-is_confirming SetupState.entry_zone_touched h = refl
confirming-is_confirming SetupState.waiting_for_confirmation h = refl
confirming-is_confirming _ h = cc
