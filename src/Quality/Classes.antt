-- ===== src/Quality/Classes.antt =====
-- The combination of qualities and the age of quotes in services/data_quality/quality.py.
use ict_trading_claude.Prelude.{
  ℕ, ◌≤◌, ◌≡◌, refl, ◌⊎◌, inl, inr, Bool, true, false, List, [], ◌∷◌, All, Member, all, arith, ◌&&◌,
  if_both, if◌then◌else◌,
}
use ict_trading_claude.Prelude.Int.{pos, -ℤ_parts}
use ict_trading_claude.Domain.Enums.{DataQuality}
use ict_trading_claude.Quality.{
  quality_index, is_usable, worse_of, max_quality, worst_quality, QuoteAge, classify_quote_age,
}

worse_of-ge :
    (q r : DataQuality)
    → (quality_index q ≤ quality_index (worse_of q r))
      × (quality_index r ≤ quality_index (worse_of q r))
unfolding worse_of
worse_of-ge q r = ground arith

worse_of-usable : (q r : DataQuality) → is_usable (worse_of q r) ≡ (is_usable q && is_usable r)
unfolding worse_of is_usable quality_index
worse_of-usable q r = ground arith

max_quality-ge :
    (q : DataQuality) (qs : List DataQuality)
    → (quality_index q ≤ quality_index (max_quality q qs))
      × All (λ r. quality_index r ≤ quality_index (max_quality q qs)) qs
unfolding max_quality
max_quality-ge q [] = (omega arith, tt)
max_quality-ge q (r ∷ rs) =
    let (a, b) = max_quality-ge (worse_of q r) rs in
    let (left, right) = worse_of-ge q r in (omega arith, (omega arith, b))

max_quality-usable :
    (q : DataQuality) (qs : List DataQuality)
    → is_usable (max_quality q qs) ≡ (is_usable q && all is_usable qs)
unfolding max_quality
max_quality-usable q [] = ground arith
max_quality-usable q (r ∷ rs) =
    rw (max_quality-usable (worse_of q r) rs, worse_of-usable q r) (ground arith)

max_quality-Member : (q : DataQuality) (qs : List DataQuality) → Member (max_quality q qs) (q ∷ qs)
unfolding max_quality worse_of
max_quality-Member q [] = inl refl
max_quality-Member q (r ∷ rs) = elim (max_quality-Member (worse_of q r) rs) [
  | inl first ↦
      if_both (λ w. max_quality w rs ≡ w → Member (max_quality w rs) (q ∷ r ∷ rs)) _ _ _
        (λ e. inr (inl e)) (λ e. inl e) first
  | inr later ↦ inr (inr later)
]

abbrev pub is_given : List DataQuality → Bool
is_given [] = false
is_given (q ∷ qs) = true

-- The worst of any list of qualities is one of them, or INVALID when there is none; it is at least as
-- bad as each of them; and it is usable exactly when there is one and all are usable.
pub worst_quality_lem :
    (qs : List DataQuality)
    → Member (worst_quality qs) (if is_given qs then qs else DataQuality.invalid ∷ [])
      × All (λ r. quality_index r ≤ quality_index (worst_quality qs)) qs
      × (is_usable (worst_quality qs) ≡ (is_given qs && all is_usable qs))
unfolding worst_quality is_usable
worst_quality_lem [] = (inl refl, tt, refl)
worst_quality_lem (q ∷ qs) =
    let (a, b) = max_quality-ge q qs in (max_quality-Member q qs, (a, b), max_quality-usable q qs)

-- An older quote never classifies better, unless the newer one is from the future.
pub classify_quote_age_mono :
    (cfg : QuoteAge) (t t' now : ℕ)
    → t ≤ t'
    → (classify_quote_age cfg t' now ≡ DataQuality.invalid)
      ⊎ (quality_index (classify_quote_age cfg t' now)
          ≤ quality_index (classify_quote_age cfg t now))
unfolding classify_quote_age quality_index
classify_quote_age_mono cfg t t' now h =
    let from = -ℤ_parts (pos now) (pos t) in let from' = -ℤ_parts (pos now) (pos t') in ground arith
