-- ===== src/Setup/Advancing.antt =====
-- `advance` of services/setup_state/engine.py goes through, and leaves the setup ready for the next candle.
use ict_trading_claude.Prelude.{
  ℕ, ◌==◌, ◌≡◌, refl, inl, inr, Bool, true, false, not, ◌&&◌, Option, none, some, if_cases, if_both,
  if◌then◌else◌, arith,
}
use ict_trading_claude.Prelude.Int.{ℤ}
use ict_trading_claude.Domain.Enums.{Direction, SetupState}
use ict_trading_claude.Domain.Candle.{Candle}
use ict_trading_claude.Entry.{EntryPlan, Missed, chase_reason}
use ict_trading_claude.Setup.{
  Machine, Setup, TargetRef, Phase, before_liquidity, before_break, past_break, phase_of, end,
  chase_end, on_blocked, blocked_with, armed_with, is_blocked, advance_armed, by_phase, advance,
  is_bias, is_pre_liquidity, reaches_stop, is_beyond, is_taken, collect_zones, beyond_protective,
  stop_traded, tp1_reached, chased, bias_changed, trading_day_ended, may_emit, state_eq, is_allowed,
}
use ict_trading_claude.Setup.Events.{place, Good, end-Good}
use ict_trading_claude.Setup.Stages.{
  Stage, seeking, breaking, retracing, confirming, holding, ended, unreached, stage_of, Holds,
  IsPresent, IsBuilt, Ready, Settled, holding_moves,
}
use ict_trading_claude.Setup.Early.{waiting_break-Good, seek_liquidity-Good}
use ict_trading_claude.Setup.Guarded.{Armed, track_zones-Good}

abbrev Holding : Machine → Setup → Type 0
Holding m s =
    (stage_of s.state ≡ holding) × IsPresent s.target × IsPresent s.protective × IsBuilt m s.plan

Holding-Settled : (m : Machine) (i : ℕ) (s : Setup) → Holding m s → Settled m i s
Holding-Settled m i s h = rw h.0 ((h.1, h.2, h.3), tt)

chase_end-Good :
    (m : Machine) (i : ℕ) (c : Candle) (s : Setup) (o : Option Missed)
    → Holding m s
    → Good (Settled m i) (place s) (chase_end i c s o)
unfolding stage_of
chase_end-Good m i c s none h = (Holding-Settled m i s h, refl)
chase_end-Good m i c s (some reason) h =
    end-Good (Settled m i) s SetupState.entry_missed i c (chased reason)
      (holding_moves s.state h.0).2 (tt, tt)

on_blocked-Good :
    (m : Machine) (i : ℕ) (c : Candle) (s : Setup) (plan : EntryPlan) (protective : ℤ)
    (t : TargetRef)
    → Holding m s
    → Good (Settled m i) (place s) (on_blocked m i c s plan protective t)
unfolding on_blocked stage_of
on_blocked-Good m i c s plan protective t h =
    let P = Good (Settled m i) (place s) in
    let moves = holding_moves s.state h.0 in
    let chase = chase_end i c s (chase_reason plan c.close) in
    let taken =
      if is_taken m t.pool_id i then end s SetupState.entry_missed i c tp1_reached else chase in
    if_both P (reaches_stop s.direction c plan.stop) (end s SetupState.invalidated i c stop_traded)
      (if is_beyond s.direction protective c.close
        then end s SetupState.invalidated i c beyond_protective
        else taken)
      (end-Good (Settled m i) s SetupState.invalidated i c stop_traded moves.0 (tt, tt))
      (if_both P (is_beyond s.direction protective c.close)
        (end s SetupState.invalidated i c beyond_protective) taken
        (end-Good (Settled m i) s SetupState.invalidated i c beyond_protective moves.0 (tt, tt))
        (if_both P (is_taken m t.pool_id i) (end s SetupState.entry_missed i c tp1_reached) chase
          (end-Good (Settled m i) s SetupState.entry_missed i c tp1_reached moves.2 (tt, tt))
          (chase_end-Good m i c s (chase_reason plan c.close) h)))

blocked_with-Good :
    (m : Machine) (i : ℕ) (c : Candle) (s : Setup) (o : Option EntryPlan) (protective : ℤ)
    (t : TargetRef)
    → Holding m s
    → IsBuilt m o
    → Good (Settled m i) (place s) (blocked_with m i c s o protective t)
blocked_with-Good m i c s none protective t h b = absurd b
blocked_with-Good m i c s (some plan) protective t h b = on_blocked-Good m i c s plan protective t h

-- The two ways on after the break, by the stage.
holding-is_blocked : (st : SetupState) → stage_of st ≡ holding → is_blocked st ≡ true
unfolding stage_of
holding-is_blocked SetupState.blocked h = refl
holding-is_blocked _ h = cc

armed-is_blocked : (st : SetupState) → (stage_of st ≡ holding → ⊥) → is_blocked st ≡ false
unfolding stage_of
armed-is_blocked SetupState.blocked h = absurd (h refl)
armed-is_blocked _ h = refl

Armed-not_holding : (s : Setup) → Armed s → stage_of s.state ≡ holding → ⊥
Armed-not_holding s (inl h) k = cc
Armed-not_holding s (inr h) k = cc

armed_with-Good :
    (m : Machine) (i : ℕ) (c : Candle) (s : Setup) (p : Option ℤ) (t : Option TargetRef)
    → Armed s
    → IsPresent p
    → IsPresent t
    → Good (Settled m i) (place s) (armed_with m i c s p t)
unfolding collect_zones
armed_with-Good m i c s (some p) (some t) h x y =
    rw (armed-is_blocked s.state (Armed-not_holding s h))
      (track_zones-Good m i c p t (collect_zones m i s) h)
armed_with-Good m i c s none t h x y = absurd x
armed_with-Good m i c s (some p) none h x y = absurd y

held_with-Good :
    (m : Machine) (i : ℕ) (c : Candle) (s : Setup) (p : Option ℤ) (t : Option TargetRef)
    → Holding m s
    → IsPresent p
    → IsPresent t
    → Good (Settled m i) (place s) (armed_with m i c s p t)
held_with-Good m i c s (some p) (some t) h x y =
    rw (holding-is_blocked s.state h.0) (blocked_with-Good m i c s s.plan p t h h.3)
held_with-Good m i c s none t h x y = absurd x
held_with-Good m i c s (some p) none h x y = absurd y

-- A stage that a setup goes on from.
abbrev pub IsLive : Stage → Type 0
IsLive ended = ⊥
IsLive unreached = ⊥
IsLive _ = Unit

live_invalidated :
    (st : SetupState) → IsLive (stage_of st) → may_emit st SetupState.invalidated ≡ true
unfolding stage_of may_emit state_eq is_allowed
live_invalidated SetupState.discovered h = refl
live_invalidated SetupState.watch h = refl
live_invalidated SetupState.setup_forming h = refl
live_invalidated SetupState.liquidity_event h = refl
live_invalidated SetupState.waiting_for_mss h = refl
live_invalidated SetupState.setup_armed h = refl
live_invalidated SetupState.waiting_for_retracement h = refl
live_invalidated SetupState.entry_zone_approaching h = refl
live_invalidated SetupState.entry_zone_touched h = refl
live_invalidated SetupState.waiting_for_confirmation h = refl
live_invalidated SetupState.blocked h = refl
live_invalidated _ h = absurd h

live_expired :
    (st : SetupState)
    → IsLive (stage_of st)
    → is_pre_liquidity (phase_of st) ≡ false
    → may_emit st SetupState.expired ≡ true
unfolding stage_of phase_of may_emit state_eq is_allowed
live_expired SetupState.discovered h k = cc
live_expired SetupState.watch h k = cc
live_expired SetupState.setup_forming h k = cc
live_expired SetupState.liquidity_event h k = refl
live_expired SetupState.waiting_for_mss h k = refl
live_expired SetupState.setup_armed h k = refl
live_expired SetupState.waiting_for_retracement h k = refl
live_expired SetupState.entry_zone_approaching h k = refl
live_expired SetupState.entry_zone_touched h k = refl
live_expired SetupState.waiting_for_confirmation h k = refl
live_expired SetupState.blocked h k = refl
live_expired _ h k = absurd h

day_over_phase : (a x y : Bool) → (a && not x && y) ≡ true → x ≡ false
day_over_phase a true y h = ground arith
day_over_phase a false y h = refl

abbrev phase_of_stage : Stage → Phase
phase_of_stage seeking = before_liquidity
phase_of_stage breaking = before_break
phase_of_stage _ = past_break

phase_of-stage_of : (st : SetupState) → phase_of st ≡ phase_of_stage (stage_of st)
unfolding phase_of stage_of
phase_of-stage_of SetupState.discovered = refl
phase_of-stage_of _ = refl

by_phase-Good :
    (m : Machine) (i : ℕ) (c : Candle) (s : Setup) (g : Stage)
    → stage_of s.state ≡ g
    → Holds g m s
    → IsLive g
    → Good (Settled m i) (place s) (by_phase m i c s (phase_of_stage g))
unfolding by_phase advance_armed
by_phase-Good m i c s seeking e h l = seek_liquidity-Good m i c s e
by_phase-Good m i c s breaking e h l = waiting_break-Good m i c false s (e, h.0) h.1
by_phase-Good m i c s retracing e h l =
    armed_with-Good m i c s s.protective s.target (inl (e, h.0, h.1)) h.1 h.0
by_phase-Good m i c s confirming e h l =
    armed_with-Good m i c s s.protective s.target (inr (e, h.0, h.1, h.2, h.3)) h.1 h.0
by_phase-Good m i c s holding e h l =
    held_with-Good m i c s s.protective s.target (e, h.0, h.1, h.2) h.1 h.0
by_phase-Good m i c s ended e h l = absurd l
by_phase-Good m i c s unreached e h l = absurd l

pub advance-Good :
    (m : Machine) (i : ℕ) (c : Candle) (b : Option Direction) (new : Bool) (s : Setup)
    → Ready m s
    → IsLive (stage_of s.state)
    → Good (Settled m i) (place s) (advance m i c b new s)
unfolding advance stage_of
advance-Good m i c b new s h l =
    let P = Good (Settled m i) (place s) in
    let day_over =
      m.cfg.expire_at_trading_day_end
      && not (is_pre_liquidity (phase_of s.state))
      && not (m.trading_day_of c.open_time == s.trading_day) in
    let rest = by_phase m i c s (phase_of s.state) in
    if_both P (not new && not (is_bias s.direction b))
      (end s SetupState.invalidated i c (bias_changed b))
      (if day_over then end s SetupState.expired i c trading_day_ended else rest)
      (end-Good (Settled m i) s SetupState.invalidated i c (bias_changed b)
        (live_invalidated s.state l) (tt, tt))
      (if_cases P day_over (end s SetupState.expired i c trading_day_ended) rest
        (λ e.
          end-Good (Settled m i) s SetupState.expired i c trading_day_ended
            (live_expired s.state l (
              day_over_phase m.cfg.expire_at_trading_day_end (is_pre_liquidity (phase_of s.state))
                (not (m.trading_day_of c.open_time == s.trading_day)) e))
            (tt, tt))
        (λ e. rw (phase_of-stage_of s.state) (by_phase-Good m i c s (stage_of s.state) refl h l)))
