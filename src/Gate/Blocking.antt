-- ===== src/Gate/Blocking.antt =====
-- What `evaluate` blocks on, and the order of the reported blockers.
use ict_trading_claude.Prelude.{
  ◌≡◌, Bool, true, false, not, ◌||◌, Option, List, [], ◌∷◌, any, if◌then◌else◌, is_some, arith,
  String,
}
use ict_trading_claude.Domain.Enums.{Verdict, DataQuality, MarketStatus, ValidationIssueCode}
use ict_trading_claude.Domain.Blockers.{BlockerSet, meets, index}
use ict_trading_claude.Domain.Candle.{ValidationIssue}
use ict_trading_claude.Domain.Decision.{Instrument}
use ict_trading_claude.Gate.{
  GateInput, gate_blockers, evaluate, enforce_verdict_authority, unavailable_blockers,
  issue_blocker, add_issues, add_found, is_authority_state, quality_blocker, gate_quality,
  add_market, add_provider, add_instrument, initial_blockers,
}

-- The conditions under which data is unusable, read off the input alone.
abbrev pub is_unusable_quality : DataQuality → Bool
is_unusable_quality DataQuality.stale = true
is_unusable_quality DataQuality.disconnected = true
is_unusable_quality DataQuality.invalid = true
is_unusable_quality _ = false

abbrev pub is_empty_series : ValidationIssue → Bool
is_empty_series i = elim i.code [ ValidationIssueCode.empty_series ↦ true | _ ↦ false ]

abbrev pub is_unusable : GateInput → Bool
is_unusable g =
    not (is_some g.instrument)
    || not g.provider_available
    || g.is_synthetic
    || is_unusable_quality g.data_quality
    || any is_empty_series g.issues

-- Whether a set of blockers makes the data unusable.
unusable : BlockerSet → Bool
unusable s = meets s unavailable_blockers

unusable-add_issue :
    (c : ValidationIssueCode) (s : BlockerSet)
    → unusable (add_found (issue_blocker c) s)
      ≡ (unusable s || elim c [ ValidationIssueCode.empty_series ↦ true | _ ↦ false ])
unfolding unusable issue_blocker index
unusable-add_issue c s = ground arith

unusable-add_issues :
    (is : List ValidationIssue) (s : BlockerSet)
    → unusable (add_issues is s) ≡ (unusable s || any is_empty_series is)
unfolding add_issues
unusable-add_issues [] s = ground arith
unusable-add_issues (i ∷ is) s = ground (
  arith,
  unusable-add_issues is (add_found (issue_blocker i.code) s),
  unusable-add_issue i.code s,
)

unusable-add_market : (m : MarketStatus) (s : BlockerSet) → unusable (add_market m s) ≡ unusable s
unfolding unusable add_market index
unusable-add_market m s = ground arith

unusable-add_quality :
    (q : DataQuality) (s : BlockerSet)
    → unusable (add_found (quality_blocker q) s) ≡ (unusable s || is_unusable_quality q)
unfolding unusable quality_blocker index
unusable-add_quality q s = ground arith

unusable-add_provider :
    (g : GateInput) (s : BlockerSet)
    → unusable (add_provider g s) ≡ (unusable s || not g.provider_available || g.is_synthetic)
unfolding unusable add_provider index
unusable-add_provider g s = ground arith

unusable-add_instrument :
    (i : Option Instrument) (s : BlockerSet)
    → unusable (add_instrument i s) ≡ (unusable s || not (is_some i))
unfolding unusable add_instrument index
unusable-add_instrument i s = ground arith

unusable-initial : (authority : String) → unusable (initial_blockers authority) ≡ false
unfolding unusable initial_blockers index
unusable-initial authority = ground arith

ruleset unusable_laws = (
  unusable-add_issues, unusable-add_market, unusable-add_quality, unusable-add_provider,
  unusable-add_instrument, unusable-initial,
)

unusable-gate_blockers :
    (authority : String) (g : GateInput)
    → unusable (gate_blockers authority g) ≡ (
        not (is_some g.instrument)
        || not g.provider_available
        || g.is_synthetic
        || is_unusable_quality (gate_quality g)
        || any is_empty_series g.issues)
unfolding gate_blockers
unusable-gate_blockers authority g = simp unusable_laws (ground arith)

-- `evaluate` answers UNAVAILABLE exactly when the data is unusable, and WAIT otherwise, under every
-- verdict authority: it has no directional verdict.
pub evaluate-verdict :
    (Doc : Type 0) (authority version : String) (g : GateInput)
    → (evaluate {Doc = Doc} authority version g).verdict
      ≡ (if is_unusable g then Verdict.unavailable else Verdict.wait)
unfolding evaluate enforce_verdict_authority is_authority_state unusable gate_quality
evaluate-verdict Doc authority version g = ground (arith, unusable-gate_blockers authority g)
