-- ===== src/Gate/Tests.antt =====
-- The gate at concrete inputs.
use ict_trading_claude.Prelude.{arith, ◌≡◌, refl, true, false, none, some, [], ◌∷◌}
use ict_trading_claude.Domain.Enums.{Verdict, DataQuality, MarketStatus}
use ict_trading_claude.Domain.Blockers.{
  Blocker, set_of, market_closed, data_stale, unknown_symbol, index, analysis_gates_not_implemented,
}
use ict_trading_claude.Domain.Decision.{MasterDecision}
use ict_trading_claude.Gate.{
  GateInput, verdict_authority, evaluate, enforce_verdict_authority, gate_blockers,
  ordered_blockers, sorted_blockers, is_fail_safe, is_authority_state, quality_blocker,
  issue_blocker, add_issues,
}
use ict_trading_claude.Gate.Blocking.{evaluate-verdict}
use ict_trading_claude.Gate.Authority.{Ascending, enforce-fail_safe, sorted_blockers_lem}
use ict_trading_claude.Samples.{xauusd}

-- A stale series of a symbol that is not in the registry, with the market closed.
abbrev stale_input : GateInput
stale_input = record {
  symbol = xauusd;
  now = 100;
  instrument = none;
  provider_available = true;
  is_synthetic = false;
  data_quality = DataQuality.stale;
  issues = [];
  market_status = MarketStatus.closed;
}

stale_blockers :
    (evaluate {Doc = Unit} "FAIL_SAFE_ONLY" "v1" stale_input).blockers
    ≡ unknown_symbol ∷ data_stale ∷ market_closed ∷ analysis_gates_not_implemented ∷ []
unfolding evaluate enforce_verdict_authority is_authority_state gate_blockers ordered_blockers
    sorted_blockers quality_blocker issue_blocker add_issues index
stale_blockers = refl

-- " Full\n" as an override.
override_is_full :
    verdict_authority (some (b' ' ∷ b'F' ∷ b'u' ∷ b'l' ∷ b'l' ∷ 10 ∷ [])) "FAIL_SAFE_ONLY" ≡ "FULL"
unfolding verdict_authority
override_is_full = refl

other_override : verdict_authority (some (b'O' ∷ b'N' ∷ [])) "FAIL_SAFE_ONLY" ≡ "FAIL_SAFE_ONLY"
unfolding verdict_authority
other_override = refl

-- A decision that claims a long trade.
abbrev claimed : MasterDecision Unit
claimed = record (unfold evaluate in evaluate {Doc = Unit} "FULL" "v1" stale_input) {
  verdict = Verdict.long;
  direction = some "BULLISH";
  setup_state = "LONG_READY";
  blockers = market_closed ∷ [];
}

evaluate-verdict_example :
    (evaluate {Doc = Unit} "FAIL_SAFE_ONLY" "v1" stale_input).verdict ≡ Verdict.unavailable
evaluate-verdict_example = evaluate-verdict Unit "FAIL_SAFE_ONLY" "v1" stale_input

enforce-fail_safe_example :
    (is_fail_safe (enforce_verdict_authority "FAIL_SAFE_ONLY" claimed).verdict ≡ true)
    × (is_authority_state (enforce_verdict_authority "FAIL_SAFE_ONLY" claimed).setup_state ≡ false)
enforce-fail_safe_example = enforce-fail_safe "FAIL_SAFE_ONLY" claimed refl

sorted_blockers_lem_example :
    ((b : Blocker)
      → set_of (sorted_blockers (market_closed ∷ unknown_symbol ∷ data_stale ∷ [])) b
        ≡ set_of (market_closed ∷ unknown_symbol ∷ data_stale ∷ []) b)
    × Ascending 0 (sorted_blockers (market_closed ∷ unknown_symbol ∷ data_stale ∷ []))
unfolding index
sorted_blockers_lem_example =
    sorted_blockers_lem (market_closed ∷ unknown_symbol ∷ data_stale ∷ [])
      ((omega arith, (omega arith, tt)), ((omega arith, tt), (tt, tt)))
