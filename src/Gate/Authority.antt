-- ===== src/Gate/Authority.antt =====
-- The last line of defence, `enforce_verdict_authority`, and the order of the reported blockers.
use ict_trading_claude.Prelude.{
  ℕ, suc, Bool, ◌≤◌, ◌≡◌, refl, ap, true, false, ◌&&◌, ◌||◌, List, [], ◌∷◌, any, filter, arith, All,
  All-sort_by, insert_by, leb, leb→le, ◌≢◌, ◌∙◌, str_eq, ==_iff, Bool-cases, inl, inr, String,
}
use ict_trading_claude.Domain.Blockers.{
  Blocker, BlockerSet, blocker_eq, all_blockers, set_of, index, index-injective,
  system_integrity_failure,
}
use ict_trading_claude.Domain.Decision.{MasterDecision}
use ict_trading_claude.Gate.{
  enforce_verdict_authority, sorted_blockers, members, ordered_blockers, is_authority_state,
  is_fail_safe,
}

any-filter :
    (s : BlockerSet) (b : Blocker) (xs : List Blocker)
    → any (blocker_eq b) (filter s xs) ≡ (s b && any (blocker_eq b) xs)
any-filter s b [] = ground arith
any-filter s b (x ∷ xs) = elim (Bool-cases (blocker_eq b x)) [
  | inl same ↦
      let e : b ≡ x = index-injective ((==_iff (index b) (index x)).0 same) in
      let e' : s b ≡ s x = ap s e in ground (arith, any-filter s b xs)
  | inr other ↦ ground (arith, any-filter s b xs)
]

all_blockers_complete : (b : Blocker) → any (blocker_eq b) all_blockers ≡ true
unfolding index
all_blockers_complete system_integrity_failure = refl
all_blockers_complete _ = refl

any-insert :
    (p : Blocker → Bool) (x : Blocker) (ys : List Blocker)
    → any p (insert_by (λ a b. leb (index a) (index b)) x ys) ≡ (p x || any p ys)
any-insert p x [] = refl
any-insert p x (y ∷ ys) = ground (arith, any-insert p x ys)

any-sorted : (p : Blocker → Bool) (xs : List Blocker) → any p (sorted_blockers xs) ≡ any p xs
unfolding sorted_blockers
any-sorted p [] = refl
any-sorted p (x ∷ xs) = any-insert p x (sorted_blockers xs) ∙ ap (λ t. p x || t) (any-sorted p xs)

-- The list has the same members as the set.
set_of-ordered_blockers : (s : BlockerSet) (b : Blocker) → set_of (ordered_blockers s) b ≡ s b
unfolding ordered_blockers
set_of-ordered_blockers s b =
    any-sorted (blocker_eq b) (members s)
    ∙ ground (arith, any-filter s b all_blockers, all_blockers_complete b)

-- Blockers stand in declaration order, each at most once, none before place `lo`.
abbrev pub Ascending : ℕ → List Blocker → Type 0
Ascending lo [] = Unit
Ascending lo (b ∷ bs) = (lo ≤ index b) × Ascending (suc (index b)) bs

-- No blocker stands twice in a list.
abbrev pub Distinct : List Blocker → Type 0
Distinct [] = Unit
Distinct (b ∷ bs) = All (λ c. index c ≢ index b) bs × Distinct bs

Ascending-mono : (lo hi : ℕ) (bs : List Blocker) → lo ≤ hi → Ascending hi bs → Ascending lo bs
Ascending-mono lo hi [] h a = tt
Ascending-mono lo hi (b ∷ bs) h a = (omega arith, a.1)

insert-Ascending :
    (lo : ℕ) (x : Blocker) (ys : List Blocker)
    → lo ≤ index x
    → All (λ c. index c ≢ index x) ys
    → Ascending lo ys
    → Ascending lo (insert_by (λ a b. leb (index a) (index b)) x ys)
insert-Ascending lo x [] h d a = (h, tt)
insert-Ascending lo x (y ∷ ys) h d a = elim (Bool-cases (leb (index x) (index y))) [
  | inl first ↦
      let before : index x ≤ index y = leb→le (index x) (index y) first in
      rw first (h, (omega arith, a.1))
  | inr later ↦ rw later (a.0, insert-Ascending (suc (index y)) x ys (ground arith) d.1 a.1)
]

sorted_blockers-Ascending : (xs : List Blocker) → Distinct xs → Ascending 0 (sorted_blockers xs)
unfolding sorted_blockers
sorted_blockers-Ascending [] d = tt
sorted_blockers-Ascending (x ∷ xs) d =
    insert-Ascending 0 x (sorted_blockers xs) (omega arith)
      (All-sort_by (λ c. index c ≢ index x) (λ a b. leb (index a) (index b)) xs d.0)
      (sorted_blockers-Ascending xs d.1)

-- In whatever order the members of a set are walked, each once, `sorted(..., key=order.index)` reports
-- exactly them, each once, in declaration order.
pub sorted_blockers_lem :
    (xs : List Blocker)
    → Distinct xs
    → ((b : Blocker) → set_of (sorted_blockers xs) b ≡ set_of xs b)
      × Ascending 0 (sorted_blockers xs)
sorted_blockers_lem xs d = (λ b. any-sorted (blocker_eq b) xs, sorted_blockers-Ascending xs d)

blocked_is_no_authority : is_authority_state "BLOCKED" ≡ false
unfolding is_authority_state
blocked_is_no_authority = refl

module _ {Doc : Type 0} (authority : String) (d : MasterDecision Doc) where
  -- Under FAIL_SAFE_ONLY no decision leaves with a directional verdict or a setup state that claims
  -- trade authority, whatever came in.
  pub enforce-fail_safe :
      str_eq authority "FAIL_SAFE_ONLY" ≡ true
      → (is_fail_safe (enforce_verdict_authority authority d).verdict ≡ true)
        × (is_authority_state (enforce_verdict_authority authority d).setup_state ≡ false)
  unfolding enforce_verdict_authority
  enforce-fail_safe h = ground (arith, blocked_is_no_authority)
