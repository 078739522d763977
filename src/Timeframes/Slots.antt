-- ===== src/Timeframes/Slots.antt =====
-- The loop of `expected_slots` of services/timeframes/core.py ends, and what it yields.
use ict_trading_claude.Prelude.{
  ℕ, zero, suc, ◌+◌, ◌≤◌, ◌<◌, ◌≡◌, refl, ap, ◌∙◌, true, Option, some, List, [], ◌∷◌, leb→le, arith,
  Bool-cases, inl, inr,
}
use ict_trading_claude.Domain.Enums.{AssetClass, Timeframe, duration}
use ict_trading_claude.Hours.{Calendar}
use ict_trading_claude.Timeframes.{
  next_bucket_start, bucket_has_open_market, expected_slots, slots, limit_reached, over_by, follow,
}

-- There is always a later bucket.
abbrev pub Advances : Calendar → Timeframe → Type 0
Advances cal tf = (t : ℕ) → (next : ℕ) × (next_bucket_start cal tf t ≡ some next) × (t < next)

module _ (cal : Calendar) (asset : AssetClass) (tf : Timeframe) (d until : ℕ)
    (limit : Option ℕ) where
  -- A bucket from `from` on that is over by `until` and in which the market opens.
  abbrev pub IsExpected : ℕ → ℕ → Type 0
  IsExpected from s = (from ≤ s) × (s + d ≤ until) × (bucket_has_open_market cal asset tf s ≡ true)

  -- Strictly ascending expected slots, the first at `from` or later.
  abbrev pub Expected : ℕ → List ℕ → Type 0
  Expected from [] = Unit
  Expected from (s ∷ ss) = IsExpected from s × Expected (suc s) ss

  Expected-mono : (a b : ℕ) (ss : List ℕ) → a ≤ b → Expected b ss → Expected a ss
  Expected-mono a b [] h e = tt
  Expected-mono a b (s ∷ ss) h e = ((omega (arith, e.0.0), e.0.1, e.0.2), e.1)

  over_by_lem : (d until c : ℕ) → over_by d until c ≡ true → c + d ≤ until
  unfolding over_by
  over_by_lem d until c h = leb→le (c + d) until h

  slots-Expected :
      (n yielded cursor : ℕ)
      → Advances cal tf
      → 1 ≤ n
      → until + 2 ≤ n + cursor
      → (ss : List ℕ) × (slots cal asset tf d until limit n yielded cursor ≡ some ss)
        × Expected cursor ss
  unfolding slots
  slots-Expected zero y c a p q = absurd (omega arith)
  slots-Expected (suc n) y c a p q = elim (Bool-cases (over_by d until c)) [
    | inr over ↦ rw over ([], refl, tt)
    | inl within ↦
        let fits = over_by_lem d until c within in
        let (next, found, later) = a c in
        let go : (y' : ℕ)
            → (ss : List ℕ) × (slots cal asset tf d until limit n y' next ≡ some ss)
              × Expected next ss =
          λ y'. slots-Expected n y' next a (omega arith) (omega arith) in
        elim (Bool-cases (bucket_has_open_market cal asset tf c)) [
          | inr shut ↦
              let (ss, eq, e) = go y in
              rw (within, shut, found, eq) (ss, refl, Expected-mono c next ss (omega arith) e)
          | inl open_market ↦ elim (Bool-cases (limit_reached limit (y + 1))) [
            | inl enough ↦
                rw (within, open_market, enough)
                  (c ∷ [], refl, ((omega arith, fits, open_market), tt))
            | inr more ↦
                let (ss, eq, e) = go (y + 1) in
                rw (within, open_market, more, found, eq)
                  (
                    c ∷ ss,
                    refl,
                    (
                      (omega arith, fits, open_market),
                      Expected-mono (suc c) next ss (omega arith) e,
                    ),
                  )
          ]
        ]
  ]

duration_of_next :
    (cal : Calendar) (tf : Timeframe) (t : ℕ)
    → (next : ℕ) × (next_bucket_start cal tf t ≡ some next) × (t < next)
    → (d : ℕ) × (duration tf ≡ some d)
unfolding next_bucket_start
duration_of_next cal Timeframe.mn1 t (next, found, later) = cc
duration_of_next cal Timeframe.m1 t r = (60, refl)
duration_of_next cal Timeframe.m3 t r = (180, refl)
duration_of_next cal Timeframe.m5 t r = (300, refl)
duration_of_next cal Timeframe.m15 t r = (900, refl)
duration_of_next cal Timeframe.m30 t r = (1800, refl)
duration_of_next cal Timeframe.h1 t r = (3600, refl)
duration_of_next cal Timeframe.h4 t r = (14400, refl)
duration_of_next cal Timeframe.d1 t r = (86400, refl)
duration_of_next cal Timeframe.w1 t r = (604800, refl)

module _ (cal : Calendar) (asset : AssetClass) (tf : Timeframe) (after until : ℕ)
    (limit : Option ℕ) where
  pub expected_slots-Expected :
      Advances cal tf
      → (d : ℕ) × (ss : List ℕ) × (duration tf ≡ some d)
        × (expected_slots cal asset tf after until limit ≡ some ss)
        × Expected cal asset tf d until limit (suc after) ss
  unfolding expected_slots
  expected_slots-Expected a =
      let (d, timed) = duration_of_next cal tf after (a after) in
      let (c, found, later) = a after in
      let (ss, eq, e) =
        slots-Expected cal asset tf d until limit (until + 2) 0 c a (omega arith) (omega arith) in
      let walk = λ (k : ℕ) (c : ℕ). slots cal asset tf k until limit (until + 2) 0 c in
      let opened =
        ap (λ o. follow o (λ k. follow (next_bucket_start cal tf after) (walk k))) timed in
      (
        d,
        ss,
        timed,
        opened ∙ ap (λ o. follow o (walk d)) found ∙ eq,
        Expected-mono cal asset tf d until limit (suc after) c ss later e,
      )
