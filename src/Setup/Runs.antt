-- ===== src/Setup/Runs.antt =====
-- `run` of services/setup_state/engine.py never raises, and what its setups and events are.
use mathlib.Core.Path.{subst}
use ict_trading_claude.Prelude.{
  ℕ, suc, ◌+◌, ◌-◌, length, arith, ◌≡◌, refl, inr, true, false, Option, none, some, List, [], ◌∷◌,
  ◌++◌, All, All-append, if_cases,
}
use ict_trading_claude.Domain.Enums.{Direction, SetupState}
use ict_trading_claude.Domain.Candle.{Candle}
use ict_trading_claude.Setup.{
  Machine, Setup, SetupEvent, Outcome, Book, file, file_outcome, open_setup, new_setup, on_current,
  on_candle, run_from, run, start, advance, bias, emit, emit_at, and_then, htf_bias, is_terminal,
  may_emit, state_eq, then_run,
}
use ict_trading_claude.Setup.Events.{Place, place, Leads, Good, append-Leads, and_then-Good}
use ict_trading_claude.Setup.Stages.{Holds, stage_of, Ready, Settled}
use ict_trading_claude.Setup.Advancing.{IsLive, advance-Good}

abbrev pub IsTerminal : Setup → Type 0
IsTerminal s = is_terminal s.state ≡ true

-- The events stand at an open setup, or after one that has ended, or nowhere.
abbrev pub StandsAt : Place → Option Setup → Type 0
StandsAt p (some s) = p ≡ place s
StandsAt none none = Unit
StandsAt (some (id, state)) none = is_terminal state ≡ true

-- The open setup is not over, and has what its state needs, within the windows of the configuration.
abbrev pub IsOpen : (Setup → Type 0) → Option Setup → Type 0
IsOpen P none = Unit
IsOpen P (some s) = (is_terminal s.state ≡ false) × P s

-- What holds of the book after candle `i`: the filed setups have ended, the open one has not, and the events
-- are one chain of allowed transitions that leads to where the setups stand.
pub record IsSound (m : Machine) (i : ℕ) (k : Book) : Type 0 where
  pub filed : All IsTerminal k.done
  pub live : IsOpen (Settled m i) k.current
  pub at : Place
  pub chain : Leads none k.events at
  pub stands : StandsAt at k.current

abbrev pub Sound : Machine → ℕ → Option Book → Type 0
Sound m i none = ⊥
Sound m i (some k) = IsSound m i k

file-IsSound :
    (m : Machine) (i : ℕ) (k : Book) (es : List SetupEvent) (s : Setup)
    → All IsTerminal k.done
    → Settled m i s
    → Leads none es (place s)
    → IsSound m i (file k.done es s)
unfolding file
file-IsSound m i k es s f h l =
    if_cases (IsSound m i) (is_terminal s.state)
      (record { done = k.done ++ (s ∷ []); current = none; events = es })
      (record { done = k.done; current = some s; events = es })
      (λ e. record {
        filed = All-append IsTerminal k.done (s ∷ []) f (e, tt);
        live = tt;
        at = place s;
        chain = l;
        stands = e;
      })
      (λ e. record { filed = f; live = (e, h); at = place s; chain = l; stands = refl })

file_outcome-Sound :
    (m : Machine) (i : ℕ) (k : Book) (p : Place) (o : Outcome)
    → All IsTerminal k.done
    → Leads none k.events p
    → Good (Settled m i) p o
    → Sound m i (file_outcome k o)
file_outcome-Sound m i k p none f l g = absurd g
file_outcome-Sound m i k p (some (s, es)) f l g =
    file-IsSound m i k (k.events ++ es) s f g.0 (append-Leads k.events es none p (place s) l g.1)

ready_stage :
    (m : Machine) (s : Setup) (st : SetupState)
    → Holds (stage_of st) m s
    → is_terminal st ≡ false
    → IsLive (stage_of st)
unfolding stage_of is_terminal
ready_stage m s SetupState.invalidated h t = cc
ready_stage m s SetupState.expired h t = cc
ready_stage m s SetupState.entry_missed h t = cc
ready_stage m s SetupState.discovered h t = tt
ready_stage m s SetupState.watch h t = tt
ready_stage m s SetupState.setup_forming h t = tt
ready_stage m s SetupState.liquidity_event h t = tt
ready_stage m s SetupState.waiting_for_mss h t = tt
ready_stage m s SetupState.setup_armed h t = tt
ready_stage m s SetupState.waiting_for_retracement h t = tt
ready_stage m s SetupState.entry_zone_approaching h t = tt
ready_stage m s SetupState.entry_zone_touched h t = tt
ready_stage m s SetupState.waiting_for_confirmation h t = tt
ready_stage m s SetupState.blocked h t = tt
ready_stage m s _ h t = absurd h

-- A setup that is ready and not over is at a stage that goes on.
Ready-IsLive :
    (m : Machine) (s : Setup) → Ready m s → is_terminal s.state ≡ false → IsLive (stage_of s.state)
Ready-IsLive m s r t = ready_stage m s s.state r t

-- The discovery follows what came before, when that has ended.
discovery-Follows :
    (m : Machine) (i : ℕ) (c : Candle) (d : Direction) (p : Place)
    → StandsAt p none
    → Good
        (λ s. Ready m s × IsLive (stage_of s.state))
        p
        (emit (new_setup m i c d) SetupState.discovered i c (htf_bias d))
unfolding emit_at may_emit state_eq stage_of
discovery-Follows m i c d none h = ((tt, tt), (refl, refl))
discovery-Follows m i c d (some (id, state)) h = ((tt, tt), (inr (h, refl), refl))

open_setup-Sound :
    (m : Machine) (i j : ℕ) (c : Candle) (b : Option Direction) (k : Book) (p : Place)
    → All IsTerminal k.done
    → k.current ≡ none
    → Leads none k.events p
    → StandsAt p none
    → Sound m i (open_setup m i c b k)
open_setup-Sound m i j c none k p f n l h = record {
  filed = f;
  live = rw n tt;
  at = p;
  chain = l;
  stands = rw n h;
}
open_setup-Sound m i j c (some d) k p f n l h =
    let first = emit (new_setup m i c d) SetupState.discovered i c (htf_bias d) in
    file_outcome-Sound m i k p (and_then first (advance m i c (some d) true)) f l (
      and_then-Good (λ s. Ready m s × IsLive (stage_of s.state)) (Settled m i) p first
        (advance m i c (some d) true) (discovery-Follows m i c d p h)
        (λ s r. advance-Good m i c (some d) true s r.0 r.1))

on_current-Sound :
    (m : Machine) (i j : ℕ) (c : Candle) (b : Option Direction) (k : Book) (o : Option Setup)
    (p : Place)
    → k.current ≡ o
    → All IsTerminal k.done
    → IsOpen (Settled m j) o
    → Leads none k.events p
    → StandsAt p o
    → Sound m i (on_current m i c b k o)
on_current-Sound m i j c b k none p e f v l h = open_setup-Sound m i j c b k p f e l h
on_current-Sound m i j c b k (some s) p e f v l h =
    file_outcome-Sound m i k (place s) (advance m i c b false s) f (rw (← h) l)
      (advance-Good m i c b false s v.1.0 (Ready-IsLive m s v.1.0 v.0))

-- A candle takes a sound book to a sound book.
pub on_candle-Sound :
    (m : Machine) (i j : ℕ) (c : Candle) (k : Book) → IsSound m j k → Sound m i (on_candle m i c k)
unfolding on_candle
on_candle-Sound m i j c k h =
    on_current-Sound m i j c (bias m c) k k.current h.at refl h.filed h.live h.chain h.stands

then_run-Sound :
    (m : Machine) (i j : ℕ) (o : Option Book) (rest : Book → Option Book)
    → Sound m i o
    → ((k : Book) → IsSound m i k → Sound m j (rest k))
    → Sound m j (then_run o rest)
then_run-Sound m i j none rest h r = absurd h
then_run-Sound m i j (some k) rest h r = r k h

length_shift : (i n : ℕ) → i + 1 + n - 1 ≡ i + suc n - 1
length_shift i n = omega arith

nil_shift : (i : ℕ) → i - 1 ≡ i + 0 - 1
nil_shift i = omega arith

step_back : (i : ℕ) → i ≡ i + 1 - 1
step_back i = omega arith

from_zero : (n : ℕ) → 0 + n - 1 ≡ n - 1
from_zero n = omega arith

run_from-Sound :
    (m : Machine) (i : ℕ) (cs : List Candle) (k : Book)
    → IsSound m (i - 1) k
    → Sound m (i + length cs - 1) (run_from m i cs k)
unfolding run_from
run_from-Sound m i [] k h = subst (λ j. IsSound m j k) (nil_shift i) h
run_from-Sound m i (c ∷ cs) k h =
    then_run-Sound m i (i + length (c ∷ cs) - 1) (on_candle m i c k) (run_from m (i + 1) cs)
      (on_candle-Sound m i (i - 1) c k h)
      (λ k' h'.
        subst (λ j. Sound m j (run_from m (i + 1) cs k')) (length_shift i (length cs))
          (run_from-Sound m (i + 1) cs k' (subst (λ j. IsSound m j k') (step_back i) h')))

-- The state machine never raises an AssertionError. At the end of a run every filed setup is in a
-- terminal state and the open one is not, has the target, the sweep, the protective extreme, the touched
-- zone and the plan that its state calls for, and has not waited longer than the window of its stage; the
-- events are one chain of allowed transitions, in which a setup is only discovered after the one
-- before it has ended.
pub run-Sound : (m : Machine) → Sound m (length m.candles - 1) (run m)
unfolding run
run-Sound m =
    subst (λ i. Sound m i (run_from m 0 m.candles start)) (from_zero (length m.candles))
      (run_from-Sound m 0 m.candles start
        (record { filed = tt; live = tt; at = none; chain = refl; stands = tt }))
