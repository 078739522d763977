-- ===== src/Domain/Blockers.antt =====
-- `Blocker` of domain/enums.py and sets of blockers. A Python set of blockers is its membership test.
use ict_trading_claude.Prelude.{
  ℕ, ◌≡◌, refl, ap, sym, ◌∙◌, Bool, ◌||◌, some, List, [], ◌∷◌, ◌==◌, any, get_elem?, some-injective,
}

pub data Blocker : Type 0 where
  system_integrity_failure unknown_symbol provider_unavailable no_data data_invalid data_stale
        data_disconnected data_delayed data_gap data_suspect_bad_tick data_synthetic market_closed
        instrument_spec_missing dol_unclear analysis_gates_not_implemented entry_missed
        insufficient_rr risk_gate_missing news_gate_missing risk_profile_missing
        risk_profile_invalid risk_locked unsafe_spread position_size_unverified market_not_validated
        news_blackout news_post_wait news_data_unavailable news_data_synthetic :
      Blocker

-- `list(Blocker)`: declaration order.
abbrev pub all_blockers : List Blocker
all_blockers =
    system_integrity_failure ∷ unknown_symbol ∷ provider_unavailable ∷ no_data ∷ data_invalid
    ∷ data_stale ∷ data_disconnected ∷ data_delayed ∷ data_gap ∷ data_suspect_bad_tick
    ∷ data_synthetic ∷ market_closed ∷ instrument_spec_missing ∷ dol_unclear
    ∷ analysis_gates_not_implemented ∷ entry_missed ∷ insufficient_rr ∷ risk_gate_missing
    ∷ news_gate_missing ∷ risk_profile_missing ∷ risk_profile_invalid ∷ risk_locked ∷ unsafe_spread
    ∷ position_size_unverified ∷ market_not_validated ∷ news_blackout ∷ news_post_wait
    ∷ news_data_unavailable ∷ news_data_synthetic ∷ []

-- `list(Blocker).index`.
unfoldable pub index : Blocker → ℕ
index system_integrity_failure = 0
index unknown_symbol = 1
index provider_unavailable = 2
index no_data = 3
index data_invalid = 4
index data_stale = 5
index data_disconnected = 6
index data_delayed = 7
index data_gap = 8
index data_suspect_bad_tick = 9
index data_synthetic = 10
index market_closed = 11
index instrument_spec_missing = 12
index dol_unclear = 13
index analysis_gates_not_implemented = 14
index entry_missed = 15
index insufficient_rr = 16
index risk_gate_missing = 17
index news_gate_missing = 18
index risk_profile_missing = 19
index risk_profile_invalid = 20
index risk_locked = 21
index unsafe_spread = 22
index position_size_unverified = 23
index market_not_validated = 24
index news_blackout = 25
index news_post_wait = 26
index news_data_unavailable = 27
index news_data_synthetic = 28

-- Two blockers are equal when they stand at one place of the declaration.
abbrev pub blocker_eq : Blocker → Blocker → Bool
blocker_eq a b = index a == index b

abbrev pub BlockerSet : Type 0
BlockerSet = Blocker → Bool

-- `set(xs)`.
abbrev pub set_of : List Blocker → BlockerSet
set_of xs b = any (blocker_eq b) xs

-- `s.add(x)` and `s | t`.
abbrev pub add : Blocker → BlockerSet → BlockerSet
add x s b = blocker_eq b x || s b

abbrev pub union : BlockerSet → BlockerSet → BlockerSet
union s t b = s b || t b

-- `s & t` as a condition: some member of the list `t` is in `s`.
abbrev pub meets : BlockerSet → List Blocker → Bool
meets s t = any s t

get_elem?-index : (b : Blocker) → get_elem? all_blockers (index b) ≡ some b
unfolding index
get_elem?-index system_integrity_failure = refl
get_elem?-index unknown_symbol = refl
get_elem?-index provider_unavailable = refl
get_elem?-index no_data = refl
get_elem?-index data_invalid = refl
get_elem?-index data_stale = refl
get_elem?-index data_disconnected = refl
get_elem?-index data_delayed = refl
get_elem?-index data_gap = refl
get_elem?-index data_suspect_bad_tick = refl
get_elem?-index data_synthetic = refl
get_elem?-index market_closed = refl
get_elem?-index instrument_spec_missing = refl
get_elem?-index dol_unclear = refl
get_elem?-index analysis_gates_not_implemented = refl
get_elem?-index entry_missed = refl
get_elem?-index insufficient_rr = refl
get_elem?-index risk_gate_missing = refl
get_elem?-index news_gate_missing = refl
get_elem?-index risk_profile_missing = refl
get_elem?-index risk_profile_invalid = refl
get_elem?-index risk_locked = refl
get_elem?-index unsafe_spread = refl
get_elem?-index position_size_unverified = refl
get_elem?-index market_not_validated = refl
get_elem?-index news_blackout = refl
get_elem?-index news_post_wait = refl
get_elem?-index news_data_unavailable = refl
get_elem?-index news_data_synthetic = refl

pub index-injective : {a b : Blocker} → index a ≡ index b → a ≡ b
index-injective {a} {b} h =
    some-injective (sym (get_elem?-index a) ∙ ap (get_elem? all_blockers) h ∙ get_elem?-index b)
