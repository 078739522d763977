-- ===== src/Setup/Early.antt =====
-- The transitions before the break, in services/setup_state/engine.py, go through.
use ict_trading_claude.Prelude.{
  ℕ, ◌-◌, ◌≡◌, refl, Bool, true, false, not, ◌&&◌, Option, none, some, arith, leb, if_cases,
  if_both, and_right, if◌then◌else◌,
}
use ict_trading_claude.Domain.Enums.{SetupState}
use ict_trading_claude.Domain.Candle.{Candle}
use ict_trading_claude.Structure.Output.{StructureEvent}
use ict_trading_claude.Facts.{LiquidityPool, LiquidityEvent}
use ict_trading_claude.Setup.{
  Machine, Setup, Outcome, LiquidityRef, is_discovered, is_watch, is_forming, is_liquidity_event,
  after_break, seek_break, wait_on, waiting_break, approach, on_sweep, with_target, seek_liquidity,
  near_opposite, is_beyond, target, sweep, emit, end, emit_at, collect_zones, collected,
  confirmation_break, unchanged, break_ref, liquidity_ref, target_ref, deepen, wait_with, on_target,
  most_adverse, adverse_extreme, broke, no_break, waiting_for_break, liquidity_ran, into_liquidity,
  away_from_liquidity, no_target, target_at, swept,
}
use ict_trading_claude.Setup.Events.{Place, place, Good, and_then-Good, emit_at-Good, end-Good}
use ict_trading_claude.Setup.Stages.{
  seeking, breaking, stage_of, IsPresent, IsWithin, within, Settled, seeking-watch,
  seeking-discovered, seeking-watched, breaking_moves,
}

-- A setup that waits for the break, at a stage.
abbrev pub Breaking : Setup → Type 0
Breaking s = (stage_of s.state ≡ breaking) × IsPresent s.target

collected-Good :
    (m : Machine) (i : ℕ) (p : Place) (o : Outcome)
    → Good (λ s. Settled m i (collect_zones m i s)) p o
    → Good (Settled m i) p (collected m i o)
unfolding collect_zones
collected-Good m i p none h = h
collected-Good m i p (some (s, es)) h = h

unchanged-Settled :
    (m : Machine) (i : ℕ) (s : Setup)
    → Breaking s
    → IsPresent s.liquidity
    → IsWithin m.cfg.mss_window_bars s.liquidity_index i
    → Settled m i s
unchanged-Settled m i s h l w = rw h.0 ((h.1, l), w)

after_break-Good :
    (m : Machine) (i : ℕ) (c : Candle) (b : Bool) (s : Setup) (o : Option StructureEvent)
    → Breaking s
    → IsPresent s.liquidity
    → IsPresent s.adverse
    → Good (Settled m i) (place s) (after_break m i c b s o)
unfolding after_break stage_of collect_zones
after_break-Good m i c b s (some e) h l a =
    collected-Good m i (place s)
      (emit (record s { mss = some (break_ref e); mss_index = i; protective = s.adverse })
        SetupState.setup_armed i c (broke e.level e.type e.price))
      (emit_at-Good (λ s'. Settled m i (collect_zones m i s'))
        (record s { mss = some (break_ref e); mss_index = i; protective = s.adverse })
        SetupState.setup_armed i c (broke e.level e.type e.price) c.close
        (breaking_moves s.state h.0).2 ((h.1, a), omega arith))
after_break-Good m i c b s none h l a =
    let moves = breaking_moves s.state h.0 in
    let settled = unchanged-Settled m i s h l in
    if_cases (Good (Settled m i) (place s)) (leb m.cfg.mss_window_bars (i - s.liquidity_index))
      (end s SetupState.expired i c (no_break m.cfg.mss_window_bars s.breaks_without_displacement))
      (if not b && is_liquidity_event s.state
        then emit s SetupState.waiting_for_mss i c waiting_for_break
        else unchanged s)
      (λ e.
        end-Good (Settled m i) s SetupState.expired i c
          (no_break m.cfg.mss_window_bars s.breaks_without_displacement) moves.1 (tt, tt))
      (λ e.
        if_both (Good (Settled m i) (place s)) (not b && is_liquidity_event s.state)
          (emit s SetupState.waiting_for_mss i c waiting_for_break) (unchanged s)
          (emit_at-Good (Settled m i) s SetupState.waiting_for_mss i c waiting_for_break c.close
            moves.3 ((h.1, l), within m.cfg.mss_window_bars s.liquidity_index i e))
          (settled (within m.cfg.mss_window_bars s.liquidity_index i e), refl))

seek_break-Good :
    (m : Machine) (i : ℕ) (c : Candle) (b : Bool) (s : Setup)
    → Breaking s
    → IsPresent s.liquidity
    → IsPresent s.adverse
    → Good (Settled m i) (place s) (seek_break m i c b s)
unfolding seek_break
seek_break-Good m i c b s h l a =
    let (found, lacked) = confirmation_break m s i in
    after_break-Good m i c b (record s { breaks_without_displacement = lacked }) found h l a

wait_on-Good :
    (m : Machine) (i : ℕ) (c : Candle) (b : Bool) (s : Setup) (l : LiquidityRef)
    → Breaking s
    → IsPresent s.liquidity
    → IsPresent s.adverse
    → Good (Settled m i) (place s) (wait_on m i c b s l)
unfolding wait_on stage_of
wait_on-Good m i c true s l h p a = seek_break-Good m i c true s h p a
wait_on-Good m i c false s l h p a =
    let deeper = record s { liquidity = some (deepen s.direction l (sweep m s.direction i)) } in
    if_both (Good (Settled m i) (place s)) (is_beyond s.direction l.extreme c.close)
      (end s SetupState.invalidated i c liquidity_ran) (seek_break m i c false deeper)
      (end-Good (Settled m i) s SetupState.invalidated i c liquidity_ran
        (breaking_moves s.state h.0).0 (tt, tt))
      (seek_break-Good m i c false deeper h tt a)

wait_with-Good :
    (m : Machine) (i : ℕ) (c : Candle) (b : Bool) (s : Setup) (o : Option LiquidityRef)
    → Breaking s
    → IsPresent s.liquidity
    → IsPresent s.adverse
    → IsPresent o
    → Good (Settled m i) (place s) (wait_with m i c b s o)
wait_with-Good m i c b s none h p a o = absurd o
wait_with-Good m i c b s (some l) h p a o = wait_on-Good m i c b s l h p a

pub waiting_break-Good :
    (m : Machine) (i : ℕ) (c : Candle) (b : Bool) (s : Setup)
    → Breaking s
    → IsPresent s.liquidity
    → Good (Settled m i) (place s) (waiting_break m i c b s)
unfolding waiting_break
waiting_break-Good m i c b s h l =
    wait_with-Good m i c b
      (record s {
        adverse = some (most_adverse s.direction s.adverse (adverse_extreme s.direction c));
      })
      s.liquidity h l tt l

-- A setup that looks for liquidity stays settled where it is.
pub seeking-Settled : (m : Machine) (i : ℕ) (s : Setup) → stage_of s.state ≡ seeking → Settled m i s
seeking-Settled m i s h = rw h (tt, tt)

approach-Good :
    (m : Machine) (i : ℕ) (c : Candle) (s : Setup)
    → stage_of s.state ≡ seeking
    → is_discovered s.state ≡ false
    → Good (Settled m i) (place s) (approach m i c s)
unfolding approach stage_of
approach-Good m i c s h w =
    let moves = seeking-watched s.state h w in
    let near = near_opposite m s.direction c i in
    if_cases (Good (Settled m i) (place s)) (near && is_watch s.state)
      (emit s SetupState.setup_forming i c into_liquidity)
      (if not near && is_forming s.state
        then emit s SetupState.watch i c away_from_liquidity
        else unchanged s)
      (λ e.
        emit_at-Good (Settled m i) s SetupState.setup_forming i c into_liquidity c.close
          (moves.2 (and_right near (is_watch s.state) e)) (tt, tt))
      (λ e.
        if_cases (Good (Settled m i) (place s)) (not near && is_forming s.state)
          (emit s SetupState.watch i c away_from_liquidity) (unchanged s)
          (λ f.
            emit_at-Good (Settled m i) s SetupState.watch i c away_from_liquidity c.close
              (moves.1 (and_right (not near) (is_forming s.state) f)) (tt, tt))
          (λ f. (seeking-Settled m i s h, refl)))

on_sweep-Good :
    (m : Machine) (i : ℕ) (c : Candle) (o : Option LiquidityEvent) (s : Setup)
    → stage_of s.state ≡ seeking
    → is_discovered s.state ≡ false
    → IsPresent s.target
    → Good (Settled m i) (place s) (on_sweep m i c o s)
unfolding on_sweep stage_of
on_sweep-Good m i c none s h w t = approach-Good m i c s h w
on_sweep-Good m i c (some e) s h w t =
    let swept_by = record s {
      liquidity = some (liquidity_ref e);
      liquidity_index = i;
      adverse = some e.extreme;
    } in
    and_then-Good (λ s'. Breaking s' × IsPresent s'.liquidity) (Settled m i) (place s)
      (emit_at swept_by SetupState.liquidity_event i c (swept e.type e.pool_type) e.extreme)
      (waiting_break m i c true)
      (emit_at-Good (λ s'. Breaking s' × IsPresent s'.liquidity) swept_by SetupState.liquidity_event
        i c (swept e.type e.pool_type) e.extreme (seeking-watched s.state h w).0 ((refl, t), tt))
      (λ s' k. waiting_break-Good m i c true s' k.0 k.1)

-- What `with_target` needs of the setup that it goes on with.
abbrev Watched : Setup → Type 0
Watched s = (stage_of s.state ≡ seeking) × (is_discovered s.state ≡ false) × IsPresent s.target

with_target-Good :
    (m : Machine) (i : ℕ) (c : Candle) (p : LiquidityPool) (s : Setup)
    → stage_of s.state ≡ seeking
    → IsPresent s.target
    → Good (Settled m i) (place s) (with_target m i c p s)
unfolding with_target stage_of
with_target-Good m i c p s h t =
    let first =
      if is_discovered s.state
      then emit s SetupState.watch i c (target_at p.label p.price)
      else unchanged s in
    and_then-Good Watched (Settled m i) (place s) first (on_sweep m i c (sweep m s.direction i))
      (if_cases (Good Watched (place s)) (is_discovered s.state)
        (emit s SetupState.watch i c (target_at p.label p.price)) (unchanged s)
        (λ e.
          emit_at-Good Watched s SetupState.watch i c (target_at p.label p.price) c.close
            (seeking-watch s.state e) (refl, refl, t))
        (λ e. ((h, e, t), refl)))
      (λ s' k. on_sweep-Good m i c (sweep m s.direction i) s' k.0 k.1 k.2)

on_target-Good :
    (m : Machine) (i : ℕ) (c : Candle) (s : Setup) (o : Option LiquidityPool)
    → stage_of s.state ≡ seeking
    → Good (Settled m i) (place s) (on_target m i c s o)
unfolding stage_of
on_target-Good m i c s none h =
    if_both (Good (Settled m i) (place s)) (is_discovered s.state) (unchanged s)
      (emit s SetupState.discovered i c no_target) (seeking-Settled m i s h, refl)
      (emit_at-Good (Settled m i) s SetupState.discovered i c no_target c.close
        (seeking-discovered s.state h) (tt, tt))
on_target-Good m i c s (some p) h =
    with_target-Good m i c p
      (record s { target = some (target_ref p); trading_day = m.trading_day_of c.open_time }) h tt

pub seek_liquidity-Good :
    (m : Machine) (i : ℕ) (c : Candle) (s : Setup)
    → stage_of s.state ≡ seeking
    → Good (Settled m i) (place s) (seek_liquidity m i c s)
unfolding seek_liquidity
seek_liquidity-Good m i c s h = on_target-Good m i c s (target m s.direction c i) h
