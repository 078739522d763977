-- ===== src/Quality/Missed.antt =====
-- The bars that are missing since a candle, counted without the walk of `expected_slots` and its limit:
-- services/timeframes/core.py and `missing_bars_since` of services/data_quality/quality.py.
use mathlib.Core.Path.{subst}
use ict_trading_claude.Prelude.{
  ℕ, zero, suc, ◌+◌, ◌-◌, ◌≤◌, ◌<◌, ◌≡◌, refl, sym, ap, ◌∙◌, inl, inr, Bool, true, false, Option,
  some, List, [], ◌∷◌, length, arith, Bool-cases, Option-cases, some-injective, leb→le,
}
use ict_trading_claude.Domain.Enums.{AssetClass, Timeframe, duration, is_engine_supported}
use ict_trading_claude.Domain.Candle.{Candle}
use ict_trading_claude.Hours.{Calendar}
use ict_trading_claude.Timeframes.{
  next_bucket_start, bucket_has_open_market, expected_slots, slots, limit_reached, over_by, follow,
  visit, cons_some,
}
use ict_trading_claude.Quality.{CandleLag, missing_bars_since}

module _ (cal : Calendar) (asset : AssetClass) (tf : Timeframe) (d until : ℕ) where
  -- `Missed c k`: of the buckets from the one at `c` on, exactly `k` are over by `until` and had an open
  -- market.
  pub data Missed : ℕ → ℕ → Type 0 where
    not_over : (c : ℕ) → until < c + d → Missed c 0
    shut :
        (c next k : ℕ)
        → c + d ≤ until
        → bucket_has_open_market cal asset tf c ≡ false
        → next_bucket_start cal tf c ≡ some next
        → Missed next k
        → Missed c k
    opened :
        (c next k : ℕ)
        → c + d ≤ until
        → bucket_has_open_market cal asset tf c ≡ true
        → next_bucket_start cal tf c ≡ some next
        → Missed next k
        → Missed c (suc k)

  module _ (limit : ℕ) where
    -- A walk that stays below its limit counts all of them.
    abbrev Counts : (ℕ → Option (List ℕ)) → ℕ → Type 0
    Counts advance c =
        (y : ℕ) (ss : List ℕ)
        → advance y ≡ some ss
        → y + length ss < limit
        → (next : ℕ) × (next_bucket_start cal tf c ≡ some next) × Missed next (length ss)

    visit-Missed :
        (o m r : Bool) (c y : ℕ) (ss : List ℕ) (advance : ℕ → Option (List ℕ))
        → over_by d until c ≡ o
        → bucket_has_open_market cal asset tf c ≡ m
        → limit_reached (some limit) (y + 1) ≡ r
        → Counts advance c
        → visit o m r c y advance ≡ some ss
        → y + length ss < limit
        → Missed c (length ss)
    unfolding over_by limit_reached
    visit-Missed false m r c y ss advance p q s go h b =
        subst (λ t. Missed c (length t)) (some-injective h) (not_over c (ground arith))
    visit-Missed true false r c y ss advance p q s go h b =
        let (next, found, rest) = go y ss h b in
        shut c next (length ss) (leb→le (c + d) until p) q found rest
    visit-Missed true true true c y ss advance p q s go h b =
        let one : c ∷ [] ≡ ss = some-injective h in
        let size : 1 ≡ length ss = ap length one in absurd (ground arith)
    visit-Missed true true false c y ss advance p q s go h b =
        elim (Option-cases (advance (y + 1))) [
          | inl stuck ↦ absurd (ground arith)
          | inr (rest, walked) ↦
              let whole : c ∷ rest ≡ ss = some-injective (ap (cons_some c) (sym walked) ∙ h) in
              let size : suc (length rest) ≡ length ss = ap length whole in
              let (next, found, later) = go (y + 1) rest walked (omega arith) in
              subst (λ t. Missed c (length t)) whole
                (opened c next (length rest) (leb→le (c + d) until p) q found later)
        ]

    slots-Missed :
        (n y c : ℕ) (ss : List ℕ)
        → slots cal asset tf d until (some limit) n y c ≡ some ss
        → y + length ss < limit
        → Missed c (length ss)
    unfolding slots
    slots-Missed zero y c ss h b = cc
    slots-Missed (suc n) y c ss h b =
        let go : Counts
            (λ y'.
              follow (next_bucket_start cal tf c)
                (λ next. slots cal asset tf d until (some limit) n y' next))
            c =
          λ y' rest walked below. elim (Option-cases (next_bucket_start cal tf c)) [
            | inl stuck ↦ absurd (ground arith)
            | inr (next, found) ↦ (
              next,
              found,
              slots-Missed n y' next rest
                  (ap (λ o. follow o (λ t. slots cal asset tf d until (some limit) n y' t))
                      (sym found)
                    ∙ walked)
                  below,
            )
          ] in
        visit-Missed _ _ _ c y ss _ refl refl refl go h b

-- Exactly `k` buckets after the one at `after` are over by `until` and had an open market.
abbrev pub MissedSince : Calendar → AssetClass → Timeframe → ℕ → ℕ → ℕ → Type 0
MissedSince cal asset tf after until k =
    (d : ℕ) × (start : ℕ) × (duration tf ≡ some d)
    × (next_bucket_start cal tf after ≡ some start)
    × Missed cal asset tf d until start k

expected_slots-MissedSince :
    (cal : Calendar) (asset : AssetClass) (tf : Timeframe) (after until limit : ℕ) (ss : List ℕ)
    → expected_slots cal asset tf after until (some limit) ≡ some ss
    → length ss < limit
    → MissedSince cal asset tf after until (length ss)
unfolding expected_slots
expected_slots-MissedSince cal asset tf after until limit ss h b =
    elim (Option-cases (duration tf)) [
      | inl n ↦ absurd (ground arith)
      | inr (d, timed) ↦ elim (Option-cases (next_bucket_start cal tf after)) [
        | inl n ↦ absurd (ground arith)
        | inr (start, found) ↦
            let walk = λ (k : ℕ) (c : ℕ). slots cal asset tf k until (some limit) (until + 2) 0 c in
            let walked =
              ap (λ o. follow o (walk d)) (sym found)
              ∙ ap (λ o. follow o (λ k. follow (next_bucket_start cal tf after) (walk k)))
                  (sym timed)
              ∙ h in
            (
              d,
              start,
              timed,
              found,
              slots-Missed cal asset tf d until limit (until + 2) 0 start ss walked
                  (omega (arith, b)),
            )
      ]
    ]

-- A count below the limit is the number of the bars that are really missing.
pub missing_bars_since-MissedSince :
    (cal : Calendar) (cfg : CandleLag) (c : Candle) (asset : AssetClass) (now limit m : ℕ)
    → missing_bars_since cal cfg c asset now limit ≡ some m
    → m < limit
    → MissedSince cal asset c.timeframe c.open_time (now - cfg.grace) m
unfolding missing_bars_since
missing_bars_since-MissedSince cal cfg c asset now limit m h b =
    elim (Bool-cases (is_engine_supported c.timeframe)) [
      | inr n ↦ absurd (ground arith)
      | inl supported ↦
          elim (Option-cases
            (expected_slots cal asset c.timeframe c.open_time (now - cfg.grace) (some limit))) [
              | inl stuck ↦ absurd (ground arith)
              | inr (ss, walked) ↦
                  let size : length ss ≡ m = ground arith in
                  rw (← size) (
                    expected_slots-MissedSince cal asset c.timeframe c.open_time (now - cfg.grace)
                      limit ss walked (omega (arith, size, b)))
            ]
    ]
