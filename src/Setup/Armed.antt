-- ===== src/Setup/Armed.antt =====
-- The transitions after the break, in services/setup_state/engine.py, go through.
use ict_trading_claude.Prelude.{
  ℕ, ◌-◌, ◌≡◌, refl, not, ◌&&◌, Option, none, some, arith, leb, best, if_cases, if_both,
  if◌then◌else◌,
}
use ict_trading_claude.Prelude.Int.{ℤ}
use ict_trading_claude.Domain.Enums.{SetupState}
use ict_trading_claude.Domain.Candle.{Candle}
use ict_trading_claude.Facts.{PdArrayZone}
use ict_trading_claude.Setup.{
  Machine, Setup, emit, emit_at, end, unchanged, or_else_run, confirm, edge_of, is_setup_armed,
  is_waiting, is_approaching, usable_zones, better_zone, is_near, touch, retrace_to, on_zone,
  retrace, reaches, no_retracement, waiting_for_fvg, touched_zone, approaching_edge,
  waiting_for_zone,
}
use ict_trading_claude.Setup.Events.{place, Good, and_then-Good, emit_at-Good, end-Good}
use ict_trading_claude.Setup.Stages.{
  retracing, stage_of, IsPresent, IsWithin, within, IsWithinSome, Settled, retracing_moves,
}
use ict_trading_claude.Setup.Confirming.{Confirming, retested, confirm-Good}

abbrev pub Retracing : Setup → Type 0
Retracing s = (stage_of s.state ≡ retracing) × IsPresent s.target × IsPresent s.protective

pub Retracing-Settled :
    (m : Machine) (i : ℕ) (s : Setup)
    → Retracing s
    → IsWithin m.cfg.retracement_window_bars s.mss_index i
    → Settled m i s
Retracing-Settled m i s h w = rw h.0 ((h.1, h.2), w)

pub Confirming-Settled :
    (m : Machine) (i : ℕ) (s : Setup)
    → Confirming s
    → IsWithinSome m.ecfg.confirmation_window_bars s.touched_index i
    → Settled m i s
Confirming-Settled m i s h w = rw h.0 ((h.1, h.2, h.3, h.4), w)

touch-Good :
    (m : Machine) (i : ℕ) (c : Candle) (s : Setup) (z : PdArrayZone) (edge : ℤ)
    → Retracing s
    → Good (Settled m i) (place s) (touch m i c s z edge)
unfolding touch stage_of
touch-Good m i c s z edge h =
    let touched = record s { touched_zone = some z; touched_index = some i; retest_index = none } in
    let P : Setup → Type 0 =
      λ t. Confirming t × IsWithinSome m.ecfg.confirmation_window_bars t.touched_index i in
    and_then-Good P (Settled m i) (place s)
      (emit_at touched SetupState.entry_zone_touched i c (touched_zone z.bottom z.top) edge)
      (λ t. or_else_run (confirm m i c t) unchanged)
      (emit_at-Good P touched SetupState.entry_zone_touched i c (touched_zone z.bottom z.top) edge
        (retracing_moves s.state h.0).2 ((refl, h.1, h.2, tt, tt), omega arith))
      (λ t k.
        confirm-Good m i c t unchanged k.0
          (λ r x. (Confirming-Settled m i (retested t r x) k.0 k.1, refl)))

retrace_to-Good :
    (m : Machine) (i : ℕ) (c : Candle) (s : Setup) (z : PdArrayZone)
    → Retracing s
    → IsWithin m.cfg.retracement_window_bars s.mss_index i
    → Good (Settled m i) (place s) (retrace_to m i c s z)
unfolding retrace_to stage_of
retrace_to-Good m i c s z h w =
    let edge = edge_of s.direction z in
    let near = is_near m i c s.direction edge in
    let moves = retracing_moves s.state h.0 in
    let P = Good (Settled m i) (place s) in
    let approaching =
      emit_at s SetupState.entry_zone_approaching i c (approaching_edge edge) edge in
    let waiting =
      if not near && not (is_waiting s.state)
      then emit s SetupState.waiting_for_retracement i c waiting_for_zone
      else unchanged s in
    if_both P (reaches s.direction c edge) (touch m i c s z edge)
      (if near && not (is_approaching s.state) then approaching else waiting)
      (touch-Good m i c s z edge h)
      (if_both P (near && not (is_approaching s.state)) approaching waiting
        (emit_at-Good (Settled m i) s SetupState.entry_zone_approaching i c (approaching_edge edge)
          edge moves.3 ((h.1, h.2), w))
        (if_both P (not near && not (is_waiting s.state))
          (emit s SetupState.waiting_for_retracement i c waiting_for_zone) (unchanged s)
          (emit_at-Good (Settled m i) s SetupState.waiting_for_retracement i c waiting_for_zone
            c.close moves.4 ((h.1, h.2), w))
          (Retracing-Settled m i s h w, refl)))

on_zone-Good :
    (m : Machine) (i : ℕ) (c : Candle) (s : Setup) (o : Option PdArrayZone)
    → Retracing s
    → IsWithin m.cfg.retracement_window_bars s.mss_index i
    → Good (Settled m i) (place s) (on_zone m i c s o)
unfolding stage_of
on_zone-Good m i c s none h w =
    if_both (Good (Settled m i) (place s)) (is_setup_armed s.state)
      (emit s SetupState.waiting_for_retracement i c waiting_for_fvg) (unchanged s)
      (emit_at-Good (Settled m i) s SetupState.waiting_for_retracement i c waiting_for_fvg c.close
        (retracing_moves s.state h.0).4 ((h.1, h.2), w))
      (Retracing-Settled m i s h w, refl)
on_zone-Good m i c s (some z) h w = retrace_to-Good m i c s z h w

pub retrace-Good :
    (m : Machine) (i : ℕ) (c : Candle) (s : Setup)
    → Retracing s
    → Good (Settled m i) (place s) (retrace m i c s)
unfolding retrace stage_of
retrace-Good m i c s h =
    let P = Good (Settled m i) (place s) in
    let zone = best (better_zone s.direction) (usable_zones m i s) in
    let bars = m.cfg.retracement_window_bars in
    if_cases P (leb bars (i - s.mss_index)) (end s SetupState.expired i c (no_retracement bars))
      (if leb i s.mss_index then unchanged s else on_zone m i c s zone)
      (λ e.
        end-Good (Settled m i) s SetupState.expired i c (no_retracement bars)
          (retracing_moves s.state h.0).1 (tt, tt))
      (λ e.
        if_both P (leb i s.mss_index) (unchanged s) (on_zone m i c s zone)
          (Retracing-Settled m i s h (within bars s.mss_index i e), refl)
          (on_zone-Good m i c s zone h (within bars s.mss_index i e)))
