-- ===== src/Gate.antt =====
-- The fail-safe decision gate, services/market_state/gate.py, with `verdict_authority` of contracts.py.
-- The verdict authority and the strategy version are read from the environment and the strategy
-- spec: they are arguments here.
pub mod Blocking
pub mod Authority
mod Tests
use ict_trading_claude.Prelude.{
  ℕ, Bool, true, false, not, ◌&&◌, ◌||◌, Option, none, some, List, [], ◌∷◌, any, filter, map,
  sort_by, if◌then◌else◌, is_some, ◌==◌, ltb, leb, ◌+◌, ◌-◌, String, str_eq,
}
use ict_trading_claude.Domain.Enums.{
  Verdict, DataQuality, MarketStatus, ValidationIssueCode, DecisionConfidence, setup_state_value,
  authority_setup_states, SetupState,
}
use ict_trading_claude.Domain.Blockers.{
  Blocker, BlockerSet, index, all_blockers, add, union, set_of, meets, system_integrity_failure,
  unknown_symbol, provider_unavailable, no_data, data_invalid, data_stale, data_disconnected,
  data_delayed, data_gap, data_suspect_bad_tick, data_synthetic, market_closed,
  instrument_spec_missing, analysis_gates_not_implemented, market_not_validated,
}
use ict_trading_claude.Domain.Candle.{upper, Name, ValidationIssue}
use ict_trading_claude.Candles.Screen.{same_name}
use ict_trading_claude.Domain.Decision.{Instrument, MasterDecision}

-- ASCII white space, which `str.strip` takes off both ends.
abbrev is_space : ℕ → Bool
is_space c = (leb 9 c && leb c 13) || (leb 28 c && leb c 32)

abbrev strip_left : Name → Name
strip_left [] = []
strip_left (c ∷ cs) = let rest = strip_left cs in if is_space c then rest else c ∷ cs

abbrev unless_blank : ℕ → Name → Name
unless_blank c [] = if is_space c then [] else c ∷ []
unless_blank c (d ∷ ds) = c ∷ d ∷ ds

abbrev strip_right : Name → Name
strip_right [] = []
strip_right (c ∷ cs) = unless_blank c (strip_right cs)

abbrev or_empty : Option Name → Name
or_empty none = []
or_empty (some n) = n

-- `_ALLOWED_AUTHORITY`, by their code points.
abbrev fail_safe_only : Name
fail_safe_only =
    b'F' ∷ b'A' ∷ b'I' ∷ b'L' ∷ b'_' ∷ b'S' ∷ b'A' ∷ b'F' ∷ b'E' ∷ b'_' ∷ b'O' ∷ b'N' ∷ b'L' ∷ b'Y'
    ∷ []

abbrev full : Name
full = b'F' ∷ b'U' ∷ b'L' ∷ b'L' ∷ []

-- `verdict_authority()`: the override of the environment, stripped and in upper case, when it is an
-- allowed one, else the committed spec's value.
unfoldable pub verdict_authority : Option Name → String → String
unfolding same_name
verdict_authority override committed =
    let name = upper (strip_right (strip_left (or_empty override))) in
    if same_name name fail_safe_only
    then "FAIL_SAFE_ONLY"
    else if same_name name full
    then "FULL"
    else committed

-- `UNAVAILABLE_BLOCKERS`.
abbrev pub unavailable_blockers : List Blocker
unavailable_blockers =
    system_integrity_failure ∷ unknown_symbol ∷ provider_unavailable ∷ no_data ∷ data_invalid
    ∷ data_stale ∷ data_disconnected ∷ data_synthetic ∷ []

-- `v in FAIL_SAFE_VERDICTS`.
abbrev pub is_fail_safe : Verdict → Bool
is_fail_safe Verdict.wait = true
is_fail_safe Verdict.unavailable = true
is_fail_safe _ = false

-- `_QUALITY_BLOCKER` and `_ISSUE_BLOCKER`.
unfoldable pub quality_blocker : DataQuality → Option Blocker
quality_blocker DataQuality.invalid = some data_invalid
quality_blocker DataQuality.stale = some data_stale
quality_blocker DataQuality.disconnected = some data_disconnected
quality_blocker DataQuality.delayed = some data_delayed
quality_blocker _ = none

unfoldable pub issue_blocker : ValidationIssueCode → Option Blocker
issue_blocker ValidationIssueCode.missing_bars = some data_gap
issue_blocker ValidationIssueCode.suspect_bad_tick = some data_suspect_bad_tick
issue_blocker ValidationIssueCode.empty_series = some no_data
issue_blocker _ = none

pub record GateInput : Type 0 where
  pub symbol : Name
  pub now : ℕ
  pub instrument : Option Instrument
  pub provider_available : Bool
  pub is_synthetic : Bool
  pub data_quality : DataQuality
  pub issues : List ValidationIssue
  pub market_status : MarketStatus

-- `sorted(blockers, key=order.index)`, over the members in the order that the set is walked in.
unfoldable pub sorted_blockers : List Blocker → List Blocker
sorted_blockers = sort_by (λ a b. leb (index a) (index b))

-- The members of a set. A Python set promises no order, and the sort makes the order immaterial.
abbrev pub members : BlockerSet → List Blocker
members s = filter s all_blockers

unfoldable pub ordered_blockers : BlockerSet → List Blocker
ordered_blockers s = sorted_blockers (members s)

unfoldable pub next_required_event : String → BlockerSet → String
next_required_event authority s =
    if s unknown_symbol
    then "Select a supported instrument"
    else if s provider_unavailable
    then "Configure and connect an independent market-data provider"
    else if s data_synthetic
    then "Replace synthetic fixture data with a real independent provider"
    else if meets s (data_invalid ∷ no_data ∷ data_stale ∷ data_disconnected ∷ [])
    then "Restore valid, current market data"
    else if not (str_eq authority "FULL")
    then "Directional verdicts are disabled: verdict authority is FAIL_SAFE_ONLY (an explicit decision)"
    else if s market_closed
    then "Market is closed: waiting for the next session"
    else "Waiting for a qualifying setup to confirm with clean risk and news gates"

-- `decision.setup_state in {s.value for s in AUTHORITY_SETUP_STATES}`.
unfoldable pub is_authority_state : String → Bool
is_authority_state s = any (λ a. str_eq s (setup_state_value a)) authority_setup_states

module _ {Doc : Type 0} where
  unfoldable pub enforce_verdict_authority : String → MasterDecision Doc → MasterDecision Doc
  enforce_verdict_authority authority d =
      let authority_state = is_authority_state d.setup_state in
      if str_eq authority "FAIL_SAFE_ONLY" && (not (is_fail_safe d.verdict) || authority_state)
      then record d {
        verdict = Verdict.unavailable;
        direction = none;
        decision_confidence = DecisionConfidence.low;
        blockers = ordered_blockers (add system_integrity_failure (set_of d.blockers));
        next_required_event = some "Investigate system integrity failure";
        setup_state =
            if authority_state then setup_state_value SetupState.blocked else d.setup_state;
      }
      else d

-- `blockers.add` for a value found in one of the two dictionaries.
abbrev pub add_found : Option Blocker → BlockerSet → BlockerSet
add_found none s = s
add_found (some b) s = add b s

-- The statements of `evaluate` that build the set of blockers, in order.
abbrev pub empty_set : BlockerSet
empty_set b = false

unfoldable pub initial_blockers : String → BlockerSet
initial_blockers authority =
    if str_eq authority "FULL" then empty_set else add analysis_gates_not_implemented empty_set

unfoldable pub add_instrument : Option Instrument → BlockerSet → BlockerSet
add_instrument none s = add unknown_symbol s
add_instrument (some i) s =
    let s' = if is_some i.spec then s else add instrument_spec_missing s in
    if i.deeply_validated then s' else add market_not_validated s'

-- The quality after the provider check.
unfoldable pub gate_quality : GateInput → DataQuality
gate_quality g = if g.provider_available then g.data_quality else DataQuality.disconnected

unfoldable pub add_provider : GateInput → BlockerSet → BlockerSet
add_provider g s =
    let s' =
      if g.provider_available
      then s
      else union s (set_of (provider_unavailable ∷ data_disconnected ∷ [])) in
    if g.is_synthetic then add data_synthetic s' else s'

-- `for issue in gate.issues`.
unfoldable pub add_issues : List ValidationIssue → BlockerSet → BlockerSet
add_issues [] s = s
add_issues (i ∷ is) s = add_issues is (add_found (issue_blocker i.code) s)

unfoldable pub add_market : MarketStatus → BlockerSet → BlockerSet
add_market MarketStatus.closed s = add market_closed s
add_market MarketStatus.daily_break s = add market_closed s
add_market _ s = s

unfoldable pub gate_blockers : String → GateInput → BlockerSet
unfolding initial_blockers add_instrument gate_quality add_provider add_market
gate_blockers authority g = add_market g.market_status (
    add_issues g.issues (
      add_found (quality_blocker (gate_quality g))
        (add_provider g (add_instrument g.instrument (initial_blockers authority)))))

module _ {Doc : Type 0} where
  -- `_decision`: the fields that it does not name keep their default, `None`.
  unfoldable pub decision :
      String → String → Name → ℕ → Verdict → DataQuality → BlockerSet → MasterDecision Doc
  decision authority version symbol now verdict quality s = record {
    symbol = upper symbol;
    verdict = verdict;
    direction = none;
    setup_type = none;
    setup_state = "NOT_EVALUATED";
    setup_grade = none;
    setup_score = none;
    decision_confidence = DecisionConfidence.low;
    htf_bias = "UNKNOWN";
    primary_dol = none;
    secondary_dol = none;
    liquidity_event = none;
    structure_event = none;
    displacement = none;
    pd_array = none;
    no_wick_state = none;
    session_state = none;
    macro_state = none;
    news_state = none;
    entry_zone = none;
    preferred_entry = none;
    stop = none;
    tp1 = none;
    tp2 = none;
    tp3 = none;
    rr = none;
    risk_status = "NOT_EVALUATED";
    blockers = ordered_blockers s;
    next_required_event = some (next_required_event authority s);
    invalidation = none;
    data_quality = quality;
    strategy_version = version;
    updated_at = now;
  }

  unfoldable pub evaluate : String → String → GateInput → MasterDecision Doc
  unfolding decision
  evaluate authority version g =
      let s = gate_blockers authority g in
      let verdict = if meets s unavailable_blockers then Verdict.unavailable else Verdict.wait in
      enforce_verdict_authority authority
        (decision authority version g.symbol g.now verdict (gate_quality g) s)
