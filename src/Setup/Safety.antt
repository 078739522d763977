-- ===== src/Setup/Safety.antt =====
-- What the events and the plans of services/setup_state/engine.py can never be.
use mathlib.Core.Path.{subst}
use ict_trading_claude.Prelude.{
  ◌-◌, ◌≡◌, refl, inl, inr, true, false, none, some, List, [], ◌∷◌, All, length,
}
use ict_trading_claude.Domain.Enums.{SetupState, setup_state_value}
use ict_trading_claude.Gate.{is_authority_state}
use ict_trading_claude.Setup.{Machine, SetupEvent, Book, run, may_emit, state_eq, is_allowed}
use ict_trading_claude.Setup.Events.{Place, Follows, Leads}
use ict_trading_claude.Setup.Stages.{Stage, unreached, stage_of}
use ict_trading_claude.Setup.Runs.{IsSound, Sound, run-Sound}

abbrev IsReached : Stage → Type 0
IsReached unreached = ⊥
IsReached _ = Unit

allowed-IsReached :
    (a b : SetupState) → IsReached (stage_of a) → may_emit a b ≡ true → IsReached (stage_of b)
unfolding may_emit state_eq is_allowed stage_of
allowed-IsReached SetupState.discovered SetupState.rebalance_watch r h = cc
allowed-IsReached SetupState.rebalance_watch SetupState.rebalance_watch r h = absurd r
allowed-IsReached _ SetupState.rebalance_watch r h = cc
allowed-IsReached SetupState.discovered SetupState.rebalance_touch r h = cc
allowed-IsReached SetupState.rebalance_touch SetupState.rebalance_touch r h = absurd r
allowed-IsReached _ SetupState.rebalance_touch r h = cc
allowed-IsReached SetupState.discovered SetupState.reaction r h = cc
allowed-IsReached SetupState.reaction SetupState.reaction r h = absurd r
allowed-IsReached _ SetupState.reaction r h = cc
allowed-IsReached SetupState.discovered SetupState.confirmation r h = cc
allowed-IsReached SetupState.confirmation SetupState.confirmation r h = absurd r
allowed-IsReached _ SetupState.confirmation r h = cc
allowed-IsReached SetupState.discovered SetupState.long_ready r h = cc
allowed-IsReached SetupState.long_ready SetupState.long_ready r h = absurd r
allowed-IsReached _ SetupState.long_ready r h = cc
allowed-IsReached SetupState.discovered SetupState.short_ready r h = cc
allowed-IsReached SetupState.short_ready SetupState.short_ready r h = absurd r
allowed-IsReached _ SetupState.short_ready r h = cc
allowed-IsReached SetupState.discovered SetupState.active r h = cc
allowed-IsReached SetupState.active SetupState.active r h = absurd r
allowed-IsReached _ SetupState.active r h = cc
allowed-IsReached SetupState.discovered SetupState.closed r h = cc
allowed-IsReached SetupState.closed SetupState.closed r h = absurd r
allowed-IsReached _ SetupState.closed r h = cc
allowed-IsReached _ _ r h = tt

abbrev IsReachedPlace : Place → Type 0
IsReachedPlace none = Unit
IsReachedPlace (some (id, state)) = IsReached (stage_of state)

Follows-IsReached :
    (p : Place) (e : SetupEvent) → IsReachedPlace p → Follows p e → IsReached (stage_of e.state)
unfolding stage_of
Follows-IsReached none e r f = rw f tt
Follows-IsReached (some (id, state)) e r (inl (same, h)) = allowed-IsReached state e.state r h
Follows-IsReached (some (id, state)) e r (inr (over, d)) = rw d tt

chain-IsReached :
    (es : List SetupEvent) (p q : Place)
    → IsReachedPlace p
    → Leads p es q
    → All (λ e. IsReached (stage_of e.state)) es
chain-IsReached [] p q r l = tt
chain-IsReached (e ∷ es) p q r l =
    let here = Follows-IsReached p e r l.0 in
    (here, chain-IsReached es (some (e.setup_id, e.state)) q here l.1)

reached-unauthorized :
    (st : SetupState) → IsReached (stage_of st) → is_authority_state (setup_state_value st) ≡ false
unfolding stage_of is_authority_state
reached-unauthorized SetupState.long_ready r = absurd r
reached-unauthorized SetupState.short_ready r = absurd r
reached-unauthorized SetupState.active r = absurd r
reached-unauthorized SetupState.closed r = absurd r
reached-unauthorized _ r = refl

-- An event whose state authorizes no trade.
abbrev pub IsUnauthorized : SetupEvent → Type 0
IsUnauthorized e = is_authority_state (setup_state_value e.state) ≡ false

All-IsUnauthorized :
    (es : List SetupEvent) → All (λ e. IsReached (stage_of e.state)) es → All IsUnauthorized es
All-IsUnauthorized [] h = tt
All-IsUnauthorized (e ∷ es) h = (reached-unauthorized e.state h.0, All-IsUnauthorized es h.1)

-- What the book of a run is.
pub IsSound-book : (m : Machine) (k : Book) → run m ≡ some k → IsSound m (length m.candles - 1) k
IsSound-book m k h = subst (Sound m (length m.candles - 1)) h (run-Sound m)

-- No event of a run carries a state that the decision gate holds for an authorization: LONG_READY,
-- SHORT_READY, ACTIVE or CLOSED.
pub run-IsUnauthorized : (m : Machine) (k : Book) → run m ≡ some k → All IsUnauthorized k.events
run-IsUnauthorized m k h =
    let book = IsSound-book m k h in
    All-IsUnauthorized k.events (chain-IsReached k.events none book.at tt book.chain)
