-- ===== src/Setup/Events.antt =====
-- The events of services/setup_state/engine.py as a chain, and what an outcome promises.
use ict_trading_claude.Prelude.{
  ℕ, ◌≡◌, refl, ◌⊎◌, inl, true, Option, none, some, List, [], ◌∷◌, ◌++◌,
}
use ict_trading_claude.Prelude.Int.{ℤ}
use ict_trading_claude.Domain.Enums.{SetupState}
use ict_trading_claude.Domain.Candle.{Candle}
use ict_trading_claude.Setup.{
  Setup, SetupEvent, SetupId, Detail, Outcome, may_emit, is_terminal, emit_at, end, and_then,
  add_events,
}

-- Where the events stand: nowhere, or at a state of a setup.
abbrev pub Place : Type 0
Place = Option (SetupId × SetupState)

abbrev pub place : Setup → Place
place s = some (s.id, s.state)

-- An event goes on with its setup by a transition that `emit` allows, or is the discovery of a setup after
-- the one before it has ended.
abbrev pub Follows : Place → SetupEvent → Type 0
Follows none e = e.state ≡ SetupState.discovered
Follows (some (id, state)) e =
    ((id ≡ e.setup_id) × (may_emit state e.state ≡ true))
    ⊎ ((is_terminal state ≡ true) × (e.state ≡ SetupState.discovered))

-- Each event follows the one before it, and the last one leads to the second place.
abbrev pub Leads : Place → List SetupEvent → Place → Type 0
Leads p [] q = p ≡ q
Leads p (e ∷ es) q = Follows p e × Leads (some (e.setup_id, e.state)) es q

-- An outcome is there, its setup has the property, and its events lead to the setup.
abbrev pub Good : (Setup → Type 0) → Place → Outcome → Type 0
Good P p none = ⊥
Good P p (some (s, es)) = P s × Leads p es (place s)

pub append-Leads :
    (es fs : List SetupEvent) (p q r : Place) → Leads p es q → Leads q fs r → Leads p (es ++ fs) r
append-Leads [] fs p q r h k = rw h k
append-Leads (e ∷ es) fs p q r h k =
    (h.0, append-Leads es fs (some (e.setup_id, e.state)) q r h.1 k)

pub add_events-Good :
    (P : Setup → Type 0) (es : List SetupEvent) (p q : Place) (o : Outcome)
    → Leads p es q
    → Good P q o
    → Good P p (add_events es o)
add_events-Good P es p q none h g = g
add_events-Good P es p q (some (s, fs)) h g = (g.0, append-Leads es fs p q (place s) h g.1)

pub and_then-Good :
    (P Q : Setup → Type 0) (p : Place) (o : Outcome) (f : Setup → Outcome)
    → Good P p o
    → ((s : Setup) → P s → Good Q (place s) (f s))
    → Good Q p (and_then o f)
and_then-Good P Q p none f g k = absurd g
and_then-Good P Q p (some (s, es)) f g k = add_events-Good Q es p (place s) (f s) g.1 (k s g.0)

pub emit_at-Good :
    (P : Setup → Type 0) (s : Setup) (state : SetupState) (i : ℕ) (c : Candle) (d : Detail) (x : ℤ)
    → may_emit s.state state ≡ true
    → P (record s { state = state; state_index = i })
    → Good P (place s) (emit_at s state i c d x)
unfolding emit_at
emit_at-Good P s state i c d x h p = rw h (p, (inl (refl, h), refl))

pub end-Good :
    (P : Setup → Type 0) (s : Setup) (state : SetupState) (i : ℕ) (c : Candle) (d : Detail)
    → may_emit s.state state ≡ true
    → P (record s { reason = some d; state = state; state_index = i })
    → Good P (place s) (end s state i c d)
unfolding end
end-Good P s state i c d h p = emit_at-Good P (record s { reason = some d }) state i c d c.close h p
