-- ===== src/Setup/Guarded.antt =====
-- The guards after the break, in services/setup_state/engine.py, go through.
use ict_trading_claude.Prelude.{
  ℕ, ◌+◌, ◌≡◌, ◌⊎◌, refl, true, false, not, ◌&&◌, Option, none, some, is_some, arith, leb, if_cases,
  if_both, inl, inr, if◌then◌else◌,
}
use ict_trading_claude.Prelude.Int.{ℤ}
use ict_trading_claude.Domain.Enums.{SetupState}
use ict_trading_claude.Domain.Candle.{Candle}
use ict_trading_claude.Setup.{
  Machine, Setup, TargetRef, Detail, emit, end, unchanged, or_else_run, confirm, is_after, may_emit,
  is_confirming, is_touched_state, live_zones, retrace, window_over, unconfirmed,
  await_confirmation, is_empty, guarded, confirm_first, track_zones, is_beyond, is_taken,
  chase_guard_applies, beyond_protective, target_reached, zones_gone, no_fvg, no_confirmation,
  waiting_for_confirmation,
}
use ict_trading_claude.Setup.Events.{place, Good, emit_at-Good, end-Good}
use ict_trading_claude.Setup.Stages.{
  stage_of, IsWithinSome, within, Settled, retracing_moves, confirming_moves,
  retracing-is_confirming, confirming-is_confirming,
}
use ict_trading_claude.Setup.Confirming.{Confirming, retested, confirm-Good}
use ict_trading_claude.Setup.Armed.{Retracing, Confirming-Settled, retrace-Good}

within_some :
    (bars : ℕ) (o : Option ℕ) (i : ℕ) → window_over i o bars ≡ false → IsWithinSome bars o i
within_some bars none i h = cc
within_some bars (some start) i h = within bars start i h

unconfirmed-Good :
    (m : Machine) (i : ℕ) (c : Candle) (s : Setup)
    → Confirming s
    → Good (Settled m i) (place s) (unconfirmed m i c s)
unfolding unconfirmed stage_of
unconfirmed-Good m i c s h =
    let bars = m.ecfg.confirmation_window_bars in
    let moves = confirming_moves s.state h.0 in
    let P = Good (Settled m i) (place s) in
    if_cases P (window_over i s.touched_index bars)
      (end s SetupState.expired i c (no_confirmation bars))
      (if is_touched_state s.state && is_after i s.touched_index
        then emit s SetupState.waiting_for_confirmation i c waiting_for_confirmation
        else unchanged s)
      (λ e. end-Good (Settled m i) s SetupState.expired i c (no_confirmation bars) moves.1 (tt, tt))
      (λ e.
        if_both P (is_touched_state s.state && is_after i s.touched_index)
          (emit s SetupState.waiting_for_confirmation i c waiting_for_confirmation) (unchanged s)
          (emit_at-Good (Settled m i) s SetupState.waiting_for_confirmation i c
            waiting_for_confirmation c.close moves.4
            ((h.1, h.2, h.3, h.4), within_some bars s.touched_index i e))
          (Confirming-Settled m i s h (within_some bars s.touched_index i e), refl))

await_confirmation-Good :
    (m : Machine) (i : ℕ) (c : Candle) (s : Setup)
    → Confirming s
    → Good (Settled m i) (place s) (await_confirmation m i c s)
unfolding await_confirmation
await_confirmation-Good m i c s h =
    if_both (Good (Settled m i) (place s)) (is_after i s.touched_index)
      (or_else_run (confirm m i c s) (unconfirmed m i c)) (unconfirmed m i c s)
      (confirm-Good m i c s (unconfirmed m i c) h
        (λ r x. unconfirmed-Good m i c (retested s r x) h))
      (unconfirmed-Good m i c s h)

-- A setup after the break that has no plan.
abbrev pub Armed : Setup → Type 0
Armed s = Retracing s ⊎ Confirming s

Armed-invalidated : (s : Setup) → Armed s → may_emit s.state SetupState.invalidated ≡ true
Armed-invalidated s (inl h) = (retracing_moves s.state h.0).0
Armed-invalidated s (inr h) = (confirming_moves s.state h.0).0

Armed-expired : (s : Setup) → Armed s → may_emit s.state SetupState.expired ≡ true
Armed-expired s (inl h) = (retracing_moves s.state h.0).1
Armed-expired s (inr h) = (confirming_moves s.state h.0).1

invalidated-Good :
    (m : Machine) (i : ℕ) (c : Candle) (s : Setup) (d : Detail)
    → Armed s
    → Good (Settled m i) (place s) (end s SetupState.invalidated i c d)
unfolding stage_of
invalidated-Good m i c s d h =
    end-Good (Settled m i) s SetupState.invalidated i c d (Armed-invalidated s h) (tt, tt)

expired-Good :
    (m : Machine) (i : ℕ) (c : Candle) (s : Setup) (d : Detail)
    → Armed s
    → Good (Settled m i) (place s) (end s SetupState.expired i c d)
unfolding stage_of
expired-Good m i c s d h =
    end-Good (Settled m i) s SetupState.expired i c d (Armed-expired s h) (tt, tt)

-- The stage tells which of the two the setup goes on with.
follow-Good :
    (m : Machine) (i : ℕ) (c : Candle) (s : Setup)
    → Armed s
    → Good
        (Settled m i)
        (place s)
        (if is_confirming s.state then await_confirmation m i c s else retrace m i c s)
follow-Good m i c s (inl h) = rw (retracing-is_confirming s.state h.0) (retrace-Good m i c s h)
follow-Good m i c s (inr h) =
    rw (confirming-is_confirming s.state h.0) (await_confirmation-Good m i c s h)

guarded-Good :
    (m : Machine) (i : ℕ) (c : Candle) (t : TargetRef) (s : Setup)
    → Armed s
    → Good (Settled m i) (place s) (guarded m i c t s)
unfolding guarded
guarded-Good m i c t s h =
    let P = Good (Settled m i) (place s) in
    let follow = if is_confirming s.state then await_confirmation m i c s else retrace m i c s in
    let formed =
      if is_empty s.zones && leb (s.mss_index + m.cfg.zone_grace_bars) i
      then end s SetupState.expired i c no_fvg
      else follow in
    if_both P
      (chase_guard_applies (is_taken m t.pool_id i) (is_some s.touched_index)
        m.cfg.chase_guard_after_touch_only)
      (end s SetupState.invalidated i c target_reached)
      (if not (is_empty s.zones) && is_empty (live_zones m i s)
        then end s SetupState.invalidated i c zones_gone
        else formed)
      (invalidated-Good m i c s target_reached h)
      (if_both P (not (is_empty s.zones) && is_empty (live_zones m i s))
        (end s SetupState.invalidated i c zones_gone) formed (invalidated-Good m i c s zones_gone h)
        (if_both P (is_empty s.zones && leb (s.mss_index + m.cfg.zone_grace_bars) i)
          (end s SetupState.expired i c no_fvg) follow (expired-Good m i c s no_fvg h)
          (follow-Good m i c s h)))

confirm_first-Good :
    (m : Machine) (i : ℕ) (c : Candle) (t : TargetRef) (s : Setup)
    → Armed s
    → Good (Settled m i) (place s) (confirm_first m i c t s)
unfolding confirm_first
confirm_first-Good m i c t s (inl h) =
    let off = retracing-is_confirming s.state h.0 in
    if_cases (Good (Settled m i) (place s))
      (m.cfg.confirm_before_chase_guard && is_confirming s.state && is_after i s.touched_index)
      (or_else_run (confirm m i c s) (guarded m i c t)) (guarded m i c t s)
      (λ e. absurd (ground arith)) (λ e. guarded-Good m i c t s (inl h))
confirm_first-Good m i c t s (inr h) =
    if_both (Good (Settled m i) (place s))
      (m.cfg.confirm_before_chase_guard && is_confirming s.state && is_after i s.touched_index)
      (or_else_run (confirm m i c s) (guarded m i c t)) (guarded m i c t s)
      (confirm-Good m i c s (guarded m i c t) h
        (λ r x. guarded-Good m i c t (retested s r x) (inr h)))
      (guarded-Good m i c t s (inr h))

pub track_zones-Good :
    (m : Machine) (i : ℕ) (c : Candle) (protective : ℤ) (t : TargetRef) (s : Setup)
    → Armed s
    → Good (Settled m i) (place s) (track_zones m i c protective t s)
unfolding track_zones
track_zones-Good m i c protective t s h =
    if_both (Good (Settled m i) (place s)) (is_beyond s.direction protective c.close)
      (end s SetupState.invalidated i c beyond_protective) (confirm_first m i c t s)
      (invalidated-Good m i c s beyond_protective h) (confirm_first-Good m i c t s h)
