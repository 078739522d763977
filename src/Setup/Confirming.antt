-- ===== src/Setup/Confirming.antt =====
-- Entry confirmation in services/setup_state/engine.py goes through.
use mathlib.Core.Path.{subst}
use ict_trading_claude.Prelude.{
  ℕ, ◌≡◌, refl, sym, ◌&&◌, Option, none, some, List, [], ◌∷◌, if_both, if◌then◌else◌,
}
use ict_trading_claude.Prelude.Int.{ℤ}
use ict_trading_claude.Domain.Enums.{EntryModel, SetupState}
use ict_trading_claude.Domain.Candle.{Candle}
use ict_trading_claude.Facts.{PdArrayZone}
use ict_trading_claude.Entry.{Planned, planned, missed, build_plan}
use ict_trading_claude.Setup.{
  Machine, Setup, Outcome, TargetRef, confirmed_but, confirmed_by, on_plan, finish_with,
  finish_confirmation, plan_input, try_model, try_models, confirm, confirm_on, resolve, or_else_run,
  Attempt, Confirmed, finished, is_next, is_after, is_beyond, closes_beyond, with_direction,
}
use ict_trading_claude.Setup.Events.{Place, place, Good, add_events-Good, emit_at-Good, end-Good}
use ict_trading_claude.Setup.Stages.{confirming, stage_of, IsPresent, Settled, confirming_moves}

-- A setup that may confirm an entry.
abbrev pub Confirming : Setup → Type 0
Confirming s =
    (stage_of s.state ≡ confirming)
    × IsPresent s.target
    × IsPresent s.protective
    × IsPresent s.touched_zone
    × IsPresent s.touched_index

-- All that trying a model changes in a setup.
abbrev pub retested : Setup → Option ℕ → ℤ → Setup
retested s r x = record s { retest_index = r; retest_close = x }

-- What trying a model leaves.
abbrev Left : Setup → Attempt → Type 0
Left s a = (r : Option ℕ) × (x : ℤ) × (a.1 ≡ retested s r x)

same-Left : (s : Setup) → (r : Option ℕ) × (x : ℤ) × (s ≡ retested s r x)
same-Left s = (s.retest_index, s.retest_close, refl)

try_model-Left :
    (m : Machine) (i : ℕ) (c : Candle) (z : PdArrayZone) (s : Setup) (model : EntryModel)
    → Left s (try_model m i c z s model)
unfolding try_model
try_model-Left m i c z s EntryModel.conservative_retest =
    let noted = record s { retest_index = some i; retest_close = c.close } in
    if_both (Left s) (is_next i s.retest_index && is_beyond s.direction c.close s.retest_close)
      (some (c.close, EntryModel.conservative_retest), s)
      (
        none,
        if closes_beyond s c z && with_direction s c && is_after i s.retest_index then noted else s,
      )
      (same-Left s)
      (if_both (λ s'. Left s (none, s'))
        (closes_beyond s c z && with_direction s c && is_after i s.retest_index) noted s
        (some i, c.close, refl) (same-Left s))
try_model-Left m i c z s EntryModel.limit_research = same-Left s
try_model-Left m i c z s _ = same-Left s

on_plan-Good :
    (m : Machine) (i : ℕ) (c : Candle) (s : Setup) (entry : ℤ) (model : EntryModel)
    (z : PdArrayZone) (t : TargetRef) (protective : ℤ) (r : Planned)
    → Confirming s
    → build_plan m.ecfg (plan_input m i c z s t protective model entry) ≡ r
    → Good (Settled m i) (place s) (on_plan i c model entry s r)
unfolding stage_of plan_input
on_plan-Good m i c s entry model z t protective (missed reason) h b =
    end-Good (Settled m i) s SetupState.entry_missed i c (confirmed_but model reason)
      (confirming_moves s.state h.0).2 (tt, tt)
on_plan-Good m i c s entry model z t protective (planned plan) h b =
    emit_at-Good (Settled m i) (record s { plan = some plan }) SetupState.blocked i c
      (confirmed_by model) entry (confirming_moves s.state h.0).3
      ((h.1, h.2, (plan_input m i c z s t protective model entry, i, refl, b)), tt)

finish_with-Good :
    (m : Machine) (i : ℕ) (c : Candle) (z : PdArrayZone) (s : Setup) (entry : ℤ)
    (model : EntryModel) (t : Option TargetRef) (protective : Option ℤ)
    → Confirming s
    → IsPresent t
    → IsPresent protective
    → Good (Settled m i) (place s) (finish_with m i c z s entry model t protective)
finish_with-Good m i c z s entry model (some t) (some protective) h p q =
    on_plan-Good m i c s entry model z t protective
      (build_plan m.ecfg (plan_input m i c z s t protective model entry)) h refl
finish_with-Good m i c z s entry model none protective h p q = absurd p
finish_with-Good m i c z s entry model (some t) none h p q = absurd q

finished-Good :
    (P : Setup → Type 0) (p : Place) (o : Outcome) (k : Setup → Outcome)
    → Good P p o
    → Good P p (or_else_run (finished o) k)
finished-Good P p none k h = h
finished-Good P p (some (s, es)) k h = h

-- `rest` may go on, whatever the models have left in the setup.
abbrev pub GoesOn : Machine → ℕ → Setup → (Setup → Outcome) → Type 0
GoesOn m i s rest = (r : Option ℕ) (x : ℤ) → Good (Settled m i) (place s) (rest (retested s r x))

resolve-Good :
    (m : Machine) (i : ℕ) (c : Candle) (z : PdArrayZone) (s : Setup) (a : Attempt)
    (rest : Setup → Confirmed) (k : Setup → Outcome)
    → Confirming s
    → Left s a
    → GoesOn m i s (λ s'. or_else_run (rest s') k)
    → Good (Settled m i) (place s) (or_else_run (resolve m i c z a rest) k)
unfolding finish_confirmation
resolve-Good m i c z s (some (entry, model), s') rest k h (r, x, e) g =
    subst
      (λ t.
        Good (Settled m i) (place s)
          (or_else_run (finished (finish_confirmation m i c z t entry model)) k))
      (sym e)
      (finished-Good (Settled m i) (place s)
        (finish_confirmation m i c z (retested s r x) entry model) k
        (finish_with-Good m i c z (retested s r x) entry model s.target s.protective h h.1 h.2))
resolve-Good m i c z s (none, s') rest k h (r, x, e) g =
    subst (λ t. Good (Settled m i) (place s) (or_else_run (rest t) k)) (sym e) (g r x)

try_models-Good :
    (m : Machine) (i : ℕ) (c : Candle) (z : PdArrayZone) (models : List EntryModel) (s : Setup)
    (k : Setup → Outcome)
    → Confirming s
    → GoesOn m i s k
    → Good (Settled m i) (place s) (or_else_run (try_models m i c z models s) k)
unfolding try_models
try_models-Good m i c z [] s k h g =
    add_events-Good (Settled m i) [] (place s) (place s) (k s) refl
      (g s.retest_index s.retest_close)
try_models-Good m i c z (model ∷ models) s k h g =
    resolve-Good m i c z s (try_model m i c z s model) (try_models m i c z models) k h
      (try_model-Left m i c z s model)
      (λ r x. try_models-Good m i c z models (retested s r x) k h g)

confirm_on-Good :
    (m : Machine) (i : ℕ) (c : Candle) (s : Setup) (o : Option PdArrayZone) (k : Setup → Outcome)
    → Confirming s
    → IsPresent o
    → GoesOn m i s k
    → Good (Settled m i) (place s) (or_else_run (confirm_on m i c s o) k)
confirm_on-Good m i c s none k h p g = absurd p
confirm_on-Good m i c s (some z) k h p g = try_models-Good m i c z m.ecfg.models s k h g

-- A confirmation goes through, and so does what follows one that fails.
pub confirm-Good :
    (m : Machine) (i : ℕ) (c : Candle) (s : Setup) (k : Setup → Outcome)
    → Confirming s
    → GoesOn m i s k
    → Good (Settled m i) (place s) (or_else_run (confirm m i c s) k)
unfolding confirm
confirm-Good m i c s k h g = confirm_on-Good m i c s s.touched_zone k h h.3 g
