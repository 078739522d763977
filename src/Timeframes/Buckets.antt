-- ===== src/Timeframes/Buckets.antt =====
-- The buckets of the fixed timeframes of services/timeframes/core.py.
use native.Mathlib.Nat.{div-mul-le_self, div-eq_of_lt-le, div-add-mod, mod-lt}
use ict_trading_claude.Prelude.{ℕ, ◌+◌, ◌*◌, ◌≤◌, ◌<◌, ◌≡◌, refl, ap, true, Option, some, arith}
use ict_trading_claude.Domain.Enums.{Timeframe, duration, is_fixed_intraday}
use ict_trading_claude.Hours.{Calendar}
use ict_trading_claude.Timeframes.{bucket_start, fixed_start}

-- Bucket `b` of length `d` holds `t`, and is the bucket of every instant that it holds.
abbrev pub IsBucket : (ℕ → Option ℕ) → ℕ → ℕ → ℕ → Type 0
IsBucket start d t b = (b ≤ t) × (t < b + d) × ((u : ℕ) → b ≤ u → u < b + d → start u ≡ some b)

fixed_start-IsBucket :
    (d t : ℕ) → 0 < d → IsBucket (λ u. some (fixed_start d u)) d t (fixed_start d t)
unfolding fixed_start
fixed_start-IsBucket d t h = (
  div-mul-le_self t d,
  omega (arith, div-add-mod t d, mod-lt t h),
  λ u p q. ap (λ k. some (k * d)) (div-eq_of_lt-le d p (omega arith)),
)

-- For a fixed timeframe an instant lies in the bucket that it is given, which is as long as the
-- timeframe, and every instant of that bucket is given the same one.
pub bucket_start-IsBucket :
    (cal : Calendar) (tf : Timeframe) (t : ℕ)
    → is_fixed_intraday tf ≡ true
    → (d : ℕ) × (b : ℕ) × (duration tf ≡ some d)
      × (bucket_start cal tf t ≡ some b)
      × IsBucket (bucket_start cal tf) d t b
unfolding bucket_start
bucket_start-IsBucket cal Timeframe.m1 t h =
    (60, fixed_start 60 t, refl, refl, fixed_start-IsBucket 60 t (omega arith))
bucket_start-IsBucket cal Timeframe.m3 t h =
    (180, fixed_start 180 t, refl, refl, fixed_start-IsBucket 180 t (omega arith))
bucket_start-IsBucket cal Timeframe.m5 t h =
    (300, fixed_start 300 t, refl, refl, fixed_start-IsBucket 300 t (omega arith))
bucket_start-IsBucket cal Timeframe.m15 t h =
    (900, fixed_start 900 t, refl, refl, fixed_start-IsBucket 900 t (omega arith))
bucket_start-IsBucket cal Timeframe.m30 t h =
    (1800, fixed_start 1800 t, refl, refl, fixed_start-IsBucket 1800 t (omega arith))
bucket_start-IsBucket cal Timeframe.h1 t h =
    (3600, fixed_start 3600 t, refl, refl, fixed_start-IsBucket 3600 t (omega arith))
bucket_start-IsBucket cal _ t h = cc
