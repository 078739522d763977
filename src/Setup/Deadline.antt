-- ===== src/Setup/Deadline.antt =====
-- The wait for the break in services/setup_state/engine.py ends with its window.
use ict_trading_claude.Prelude.{
  ℕ, ◌-◌, ◌≤◌, ◌≡◌, ◌⊎◌, inl, inr, refl, Bool, true, false, Option, none, some, arith, leb, if_both,
}
use ict_trading_claude.Domain.Enums.{SetupState}
use ict_trading_claude.Domain.Candle.{Candle}
use ict_trading_claude.Structure.Output.{StructureEvent}
use ict_trading_claude.Setup.{
  Machine, Setup, Outcome, LiquidityRef, after_break, seek_break, wait_on, wait_with, waiting_break,
  is_beyond, sweep, emit, end, collect_zones, collected, confirmation_break, break_ref, deepen,
  most_adverse, adverse_extreme, broke, no_break, liquidity_ran,
}
use ict_trading_claude.Setup.Events.{Place, place, Good, emit_at-Good, end-Good}
use ict_trading_claude.Setup.Stages.{
  breaking, retracing, ended, stage_of, IsPresent, breaking_moves,
}

-- A setup that waits for the break no more.
abbrev pub IsDecided : Setup → Type 0
IsDecided s = (stage_of s.state ≡ retracing) ⊎ (stage_of s.state ≡ ended)

-- At or beyond the end of the window.
abbrev pub IsDue : Machine → ℕ → Setup → Type 0
IsDue m i s = m.cfg.mss_window_bars ≤ i - s.liquidity_index

collected-IsDecided :
    (m : Machine) (i : ℕ) (p : Place) (o : Outcome)
    → Good IsDecided p o
    → Good IsDecided p (collected m i o)
unfolding collect_zones
collected-IsDecided m i p none h = h
collected-IsDecided m i p (some (s, es)) h = h

after_break-IsDecided :
    (m : Machine) (i : ℕ) (c : Candle) (b : Bool) (s : Setup) (o : Option StructureEvent)
    → stage_of s.state ≡ breaking
    → IsDue m i s
    → Good IsDecided (place s) (after_break m i c b s o)
unfolding after_break stage_of
after_break-IsDecided m i c b s (some e) h due =
    let armed = record s { mss = some (break_ref e); mss_index = i; protective = s.adverse } in
    collected-IsDecided m i (place s)
      (emit armed SetupState.setup_armed i c (broke e.level e.type e.price))
      (emit_at-Good IsDecided armed SetupState.setup_armed i c (broke e.level e.type e.price)
        c.close (breaking_moves s.state h).2 (inl refl))
after_break-IsDecided m i c b s none h due =
    let over : leb m.cfg.mss_window_bars (i - s.liquidity_index) ≡ true = ground arith in
    rw over (
      end-Good IsDecided s SetupState.expired i c
        (no_break m.cfg.mss_window_bars s.breaks_without_displacement) (breaking_moves s.state h).1
        (inr refl))

seek_break-IsDecided :
    (m : Machine) (i : ℕ) (c : Candle) (b : Bool) (s : Setup)
    → stage_of s.state ≡ breaking
    → IsDue m i s
    → Good IsDecided (place s) (seek_break m i c b s)
unfolding seek_break
seek_break-IsDecided m i c b s h due =
    let (found, lacked) = confirmation_break m s i in
    after_break-IsDecided m i c b (record s { breaks_without_displacement = lacked }) found h due

wait_on-IsDecided :
    (m : Machine) (i : ℕ) (c : Candle) (b : Bool) (s : Setup) (l : LiquidityRef)
    → stage_of s.state ≡ breaking
    → IsDue m i s
    → Good IsDecided (place s) (wait_on m i c b s l)
unfolding wait_on stage_of
wait_on-IsDecided m i c true s l h due = seek_break-IsDecided m i c true s h due
wait_on-IsDecided m i c false s l h due =
    let deeper = record s { liquidity = some (deepen s.direction l (sweep m s.direction i)) } in
    if_both (Good IsDecided (place s)) (is_beyond s.direction l.extreme c.close)
      (end s SetupState.invalidated i c liquidity_ran) (seek_break m i c false deeper)
      (end-Good IsDecided s SetupState.invalidated i c liquidity_ran (breaking_moves s.state h).0
        (inr refl))
      (seek_break-IsDecided m i c false deeper h due)

wait_with-IsDecided :
    (m : Machine) (i : ℕ) (c : Candle) (b : Bool) (s : Setup) (o : Option LiquidityRef)
    → stage_of s.state ≡ breaking
    → IsDue m i s
    → IsPresent o
    → Good IsDecided (place s) (wait_with m i c b s o)
wait_with-IsDecided m i c b s none h due p = absurd p
wait_with-IsDecided m i c b s (some l) h due p = wait_on-IsDecided m i c b s l h due

-- A setup that waits for the break, at a candle at or beyond the end of the window, has an outcome if its
-- liquidity event is there; in it the setup waits no more: the break has armed it, or it has ended.
pub waiting_break-IsDecided :
    (m : Machine) (i : ℕ) (c : Candle) (s : Setup)
    → stage_of s.state ≡ breaking
    → IsPresent s.liquidity
    → IsDue m i s
    → Good IsDecided (place s) (waiting_break m i c false s)
unfolding waiting_break
waiting_break-IsDecided m i c s h p due =
    wait_with-IsDecided m i c false
      (record s {
        adverse = some (most_adverse s.direction s.adverse (adverse_extreme s.direction c));
      })
      s.liquidity h due p
