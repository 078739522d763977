-- ===== src/Aggregate.antt =====
-- Candle aggregation: services/timeframes/aggregate.py. `none` is an AggregationError.
pub mod Buckets
pub mod Weekly
mod Tests
use ict_trading_claude.Prelude.{
  ℕ, zero, suc, ◌+◌, ◌*◌, ◌/◌, ◌%◌, Bool, true, false, not, ◌&&◌, ◌||◌, Option, none, some, List,
  [], ◌∷◌, ◌++◌, map, length, filter, any, all, ltb, leb, ◌==◌, if◌then◌else◌,
}
use ict_trading_claude.Prelude.Int.{ℤ, ◌+ℤ◌, max_ℤ, min_ℤ}
use ict_trading_claude.Domain.Enums.{
  AssetClass, DataQuality, IssueSeverity, Timeframe, ValidationIssueCode, duration,
  is_fixed_intraday, is_trading_week_anchored, is_engine_supported,
}
use ict_trading_claude.Domain.Candle.{Candle, Name, ValidationIssue}
use ict_trading_claude.Hours.{Calendar, is_market_open}
use ict_trading_claude.Timeframes.{
  bucket_start, next_bucket_start, trading_week_start, bucket_has_open_market,
}
use ict_trading_claude.Quality.{worst_quality}
use ict_trading_claude.Candles.Validation.{issue}
use ict_trading_claude.Candles.Screen.{same_name, same_timeframe, timeframe_value}

-- One group of `groupby`: candles of one bucket, the first apart since there is one.
pub record Bucket : Type 0 where
  pub start : ℕ
  pub first : Candle
  pub rest : List Candle

abbrev pub members : Bucket → List Candle
members b = b.first ∷ b.rest

unfoldable pub join : ℕ → Candle → List Bucket → List Bucket
join k c [] = record { start = k; first = c; rest = [] } ∷ []
join k c (b ∷ bs) =
    if k == b.start
    then record { start = k; first = c; rest = members b } ∷ bs
    else record { start = k; first = c; rest = [] } ∷ b ∷ bs

-- `groupby(candles, key=...)`.
unfoldable pub group_by : (Candle → ℕ) → List Candle → List Bucket
group_by key [] = []
group_by key (c ∷ cs) = join (key c) c (group_by key cs)

unfoldable pub highest : ℤ → List Candle → ℤ
highest h [] = h
highest h (c ∷ cs) = highest (max_ℤ h c.high) cs

unfoldable pub lowest : ℤ → List Candle → ℤ
lowest l [] = l
lowest l (c ∷ cs) = lowest (min_ℤ l c.low) cs

unfoldable pub last_close : ℤ → List Candle → ℤ
last_close x [] = x
last_close x (c ∷ cs) = last_close c.close cs

abbrev add_volume : Option ℤ → Option ℤ → Option ℤ
add_volume (some v) (some w) = some (v +ℤ w)
add_volume _ _ = none

-- The sum of the volumes, `None` when one is missing.
unfoldable pub total_volume : Option ℤ → List Candle → Option ℤ
total_volume v [] = v
total_volume v (c ∷ cs) = total_volume (add_volume v c.volume) cs

-- `all(t in present for t in expected)`.
unfoldable pub is_complete : List ℕ → List Candle → Bool
is_complete expected cs = all (λ t. any (λ (c : Candle). c.open_time == t) cs) expected

unfoldable pub is_bucket_closed : List ℕ → Bucket → ℕ → ℕ → Bool
is_bucket_closed expected b close now =
    is_complete expected (members b)
    && all (λ (c : Candle). c.is_closed) (members b)
    && leb close now

-- The candle of a bucket.
unfoldable pub summary : Timeframe → List ℕ → ℕ → ℕ → Bucket → Candle
summary tf expected close now b = record {
  symbol = b.first.symbol;
  timeframe = tf;
  open_time = b.start;
  close_time = close;
  opening = b.first.opening;
  high = highest b.first.high b.rest;
  low = lowest b.first.low b.rest;
  close = last_close b.first.close b.rest;
  volume = total_volume b.first.volume b.rest;
  source = b.first.source;
  is_closed = is_bucket_closed expected b close now;
  data_quality = worst_quality (map (λ (c : Candle). c.data_quality) (members b));
}

-- `len(present & set(expected))`, for expected times that are all different.
unfoldable pub count_present : List Candle → List ℕ → ℕ
count_present cs expected =
    length (filter (λ t. any (λ (c : Candle). c.open_time == t) cs) expected)

-- A bucket of the past with missing constituents.
unfoldable pub incomplete : Timeframe → List ℕ → ℕ → ℕ → Bucket → List ValidationIssue
incomplete tf expected close now b =
    if not (is_complete expected (members b)) && leb close now
    then issue ValidationIssueCode.incomplete_bucket IssueSeverity.warning
        (record {
          template = timeframe_value tf;
          values = count_present (members b) expected ∷ length expected ∷ [];
        })
        (some b.start)
      ∷ []
    else []

abbrev pub Aggregates : Type 0
Aggregates = List Candle × List ValidationIssue

abbrev pub prepend : Option Aggregates → Option Aggregates → Option Aggregates
prepend (some (cs, is)) (some (ds, js)) = some (cs ++ ds, is ++ js)
prepend _ _ = none

unfoldable pub summarise : (Bucket → Option Aggregates) → List Bucket → Option Aggregates
summarise one [] = some ([], [])
summarise one (b ∷ bs) = prepend (one b) (summarise one bs)

-- More than one symbol or source, another timeframe, or times that do not ascend.
unfoldable pub is_mixed : Candle → List Candle → Bool
is_mixed c cs =
    any (λ (d : Candle). not (same_name c.symbol d.symbol) || not (same_name c.source d.source)) cs

unfoldable pub is_ascending : List Candle → Bool
is_ascending [] = true
is_ascending (c ∷ []) = true
is_ascending (c ∷ d ∷ ds) = ltb c.open_time d.open_time && is_ascending (d ∷ ds)

unfoldable pub is_refused : Timeframe → Candle → List Candle → Bool
is_refused tf c cs =
    is_mixed c cs
    || any (λ (d : Candle). not (same_timeframe d.timeframe tf)) (c ∷ cs)
    || not (is_ascending (c ∷ cs))

-- The source slots of a bucket in which the market is open.
unfoldable pub expected_constituents : Calendar → AssetClass → ℕ → ℕ → ℕ → List ℕ
expected_constituents cal asset d zero start = []
expected_constituents cal asset d (suc n) start =
    let rest = expected_constituents cal asset d n (start + d) in
    if is_market_open cal asset start then start ∷ rest else rest

abbrev pub equals_some : ℕ → Option ℕ → Bool
equals_some t none = false
equals_some t (some u) = u == t

module _ (cal : Calendar) (asset : AssetClass) (now : ℕ) where
  -- A bucket whose length is not that of the timeframe is refused.
  unfoldable pub one_bucket : Timeframe → ℕ → ℕ → Bucket → Option Aggregates
  one_bucket tf source_d target_d b =
      let close = b.start + target_d in
      let expected = expected_constituents cal asset source_d (target_d / source_d) b.start in
      if equals_some close (next_bucket_start cal tf b.start)
      then some (summary tf expected close now b ∷ [], incomplete tf expected close now b)
      else none

  -- The targets are supported, so every candle has a bucket.
  unfoldable pub bucket_key : Timeframe → Candle → ℕ
  bucket_key tf c = elim (bucket_start cal tf c.open_time) [ some b ↦ b | none ↦ 0 ]

  abbrev pub aggregate_from : Timeframe → Timeframe → ℕ → ℕ → List Candle → Option Aggregates
  aggregate_from source_tf target_tf source_d target_d [] = some ([], [])
  aggregate_from source_tf target_tf source_d target_d (c ∷ cs) =
      if is_refused source_tf c cs
      then none
      else summarise (one_bucket target_tf source_d target_d)
          (group_by (bucket_key target_tf) (c ∷ cs))

  abbrev pub is_multiple : ℕ → ℕ → Bool
  is_multiple source_d target_d = target_d % source_d == 0 && leb 2 (target_d / source_d)

  abbrev pub with_durations :
      Timeframe → Timeframe → List Candle → Option ℕ → Option ℕ → Option Aggregates
  with_durations source_tf target_tf cs (some source_d) (some target_d) =
      if is_multiple source_d target_d
      then aggregate_from source_tf target_tf source_d target_d cs
      else none
  with_durations source_tf target_tf cs _ _ = none

  unfoldable pub aggregate : Timeframe → Timeframe → List Candle → Option Aggregates
  aggregate source_tf target_tf cs =
      if not (is_fixed_intraday source_tf)
        || is_trading_week_anchored target_tf
        || not (is_engine_supported target_tf)
      then none
      else with_durations source_tf target_tf cs (duration source_tf) (duration target_tf)
