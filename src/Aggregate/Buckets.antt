-- ===== src/Aggregate/Buckets.antt =====
-- What the candles of services/timeframes/aggregate.py summarise.
use mathlib.Core.Path.{subst}
use ict_trading_claude.Prelude.{
  ℕ, ◌≡◌, refl, sym, ap, ◌∙◌, inl, inr, Bool, true, false, not, ◌&&◌, ◌||◌, ◌+◌, ◌/◌, Option, none,
  some, List, [], ◌∷◌, ◌++◌, map, all, All, arith, Bool-cases, Option-cases, if◌then◌else◌, ◌==◌,
  ◌≢◌, ◌⊎◌, Any, if_both, ==_iff, some-injective,
}
use ict_trading_claude.Prelude.Int.{
  ℤ, ◌≤ℤ◌, ltb_ℤ, max_ℤ, min_ℤ, le-max_left, le-max_right, min-le_left, min-le_right,
}
use ict_trading_claude.Domain.Enums.{
  Timeframe, DataQuality, AssetClass, duration, is_fixed_intraday, is_trading_week_anchored,
  is_engine_supported,
}
use ict_trading_claude.Domain.Candle.{Candle}
use ict_trading_claude.Hours.{Calendar}
use ict_trading_claude.Timeframes.{next_bucket_start}
use ict_trading_claude.Quality.{is_usable}
use ict_trading_claude.Quality.Classes.{worst_quality_lem}
use ict_trading_claude.Aggregate.{
  Bucket, members, join, group_by, highest, lowest, last_close, summary, summarise, one_bucket,
  Aggregates, prepend, aggregate, aggregate_from, bucket_key, incomplete, is_refused,
  with_durations, is_multiple, equals_some, expected_constituents,
}

-- The candles of the buckets, in their order.
unfoldable pub flatten : List Bucket → List Candle
flatten [] = []
flatten (b ∷ bs) = members b ++ flatten bs

-- Every member of a bucket has the bucket's key.
abbrev pub Keyed : (Candle → ℕ) → List Bucket → Type 0
Keyed key [] = Unit
Keyed key (b ∷ bs) = All (λ (c : Candle). key c ≡ b.start) (members b) × Keyed key bs

-- The buckets are maximal runs: each is followed by one of another key.
abbrev StartsApart : ℕ → List Bucket → Type 0
StartsApart k [] = Unit
StartsApart k (b ∷ bs) = k ≢ b.start

abbrev pub Apart : List Bucket → Type 0
Apart [] = Unit
Apart (b ∷ bs) = StartsApart b.start bs × Apart bs

join-Apart : (k : ℕ) (c : Candle) (bs : List Bucket) → Apart bs → Apart (join k c bs)
unfolding join
join-Apart k c [] a = (tt, tt)
join-Apart k c (b ∷ bs) a = elim (Bool-cases (k == b.start)) [
  | inl same ↦
      let e : k ≡ b.start = (==_iff k b.start).0 same in
      rw same (subst (λ s. StartsApart s bs) (sym e) a.0, a.1)
  | inr other ↦ rw other (ground arith, a)
]

pub group_by-Apart : (key : Candle → ℕ) (cs : List Candle) → Apart (group_by key cs)
unfolding group_by
group_by-Apart key [] = tt
group_by-Apart key (c ∷ cs) = join-Apart (key c) c (group_by key cs) (group_by-Apart key cs)

join-Keyed :
    (key : Candle → ℕ) (c : Candle) (bs : List Bucket)
    → Keyed key bs
    → Keyed key (join (key c) c bs) × (flatten (join (key c) c bs) ≡ c ∷ flatten bs)
unfolding join flatten
join-Keyed key c [] k = (((refl, tt), tt), refl)
join-Keyed key c (b ∷ bs) k = elim (Bool-cases (key c == b.start)) [
  | inl same ↦
      let e : key c ≡ b.start = (==_iff (key c) b.start).0 same in
      rw same
        (((refl, subst (λ s. All (λ (d : Candle). key d ≡ s) (members b)) (sym e) k.0), k.1), refl)
  | inr other ↦ rw other (((refl, tt), k), refl)
]

pub group_by-Keyed :
    (key : Candle → ℕ) (cs : List Candle)
    → Keyed key (group_by key cs) × (flatten (group_by key cs) ≡ cs)
unfolding group_by flatten
group_by-Keyed key [] = (tt, refl)
group_by-Keyed key (c ∷ cs) =
    let (k, e) = group_by-Keyed key cs in
    let (k', e') = join-Keyed key c (group_by key cs) k in (k', e' ∙ ap (λ t. c ∷ t) e)

-- A bound of the highs and one of them, and the same for the lows.
highest-ge :
    (h : ℤ) (cs : List Candle)
    → (h ≤ℤ highest h cs) × All (λ (c : Candle). c.high ≤ℤ highest h cs) cs
unfolding highest
highest-ge h [] = (omega arith, tt)
highest-ge h (c ∷ cs) =
    let (a, b) = highest-ge (max_ℤ h c.high) cs in
    let left = le-max_left h c.high in
    let right = le-max_right h c.high in (omega arith, (omega arith, b))

lowest-le :
    (l : ℤ) (cs : List Candle) → (lowest l cs ≤ℤ l) × All (λ (c : Candle). lowest l cs ≤ℤ c.low) cs
unfolding lowest
lowest-le l [] = (omega arith, tt)
lowest-le l (c ∷ cs) =
    let (a, b) = lowest-le (min_ℤ l c.low) cs in
    let left = min-le_left l c.low in
    let right = min-le_right l c.low in (omega arith, (omega arith, b))

highest-Any :
    (h : ℤ) (cs : List Candle) → (h ≡ highest h cs) ⊎ Any (λ (c : Candle). c.high ≡ highest h cs) cs
unfolding highest max_ℤ
highest-Any h [] = inl refl
highest-Any h (c ∷ cs) = elim (highest-Any (max_ℤ h c.high) cs) [
  | inl top ↦
      if_both
        (λ x.
          x ≡ highest (max_ℤ h c.high) cs
          → (h ≡ highest (max_ℤ h c.high) cs)
            ⊎ (c.high ≡ highest (max_ℤ h c.high) cs)
            ⊎ Any (λ (d : Candle). d.high ≡ highest (max_ℤ h c.high) cs) cs)
        (ltb_ℤ h c.high) c.high h (λ e. inr (inl e)) (λ e. inl e) top
  | inr later ↦ inr (inr later)
]

lowest-Any :
    (l : ℤ) (cs : List Candle) → (l ≡ lowest l cs) ⊎ Any (λ (c : Candle). c.low ≡ lowest l cs) cs
unfolding lowest min_ℤ
lowest-Any l [] = inl refl
lowest-Any l (c ∷ cs) = elim (lowest-Any (min_ℤ l c.low) cs) [
  | inl bottom ↦
      if_both
        (λ x.
          x ≡ lowest (min_ℤ l c.low) cs
          → (l ≡ lowest (min_ℤ l c.low) cs)
            ⊎ (c.low ≡ lowest (min_ℤ l c.low) cs)
            ⊎ Any (λ (d : Candle). d.low ≡ lowest (min_ℤ l c.low) cs) cs)
        (ltb_ℤ c.low l) c.low l (λ e. inr (inl e)) (λ e. inl e) bottom
  | inr later ↦ inr (inr later)
]

all-map :
    (p : DataQuality → Bool) (cs : List Candle)
    → all p (map (λ (c : Candle). c.data_quality) cs) ≡ all (λ (c : Candle). p c.data_quality) cs
all-map p [] = refl
all-map p (c ∷ cs) = ap (λ t. p c.data_quality && t) (all-map p cs)

-- A candle sums up its bucket: it opens as the first member and closes as the last, its high is the
-- highest of the members' and its low the lowest, both reached by a member, and it is of a usable
-- quality exactly when they all are.
pub record Summarises (b : Bucket) (c : Candle) : Type 0 where
  pub open_time : c.open_time ≡ b.start
  pub opening : c.opening ≡ b.first.opening
  pub close : c.close ≡ last_close b.first.close b.rest
  pub high : All (λ (m : Candle). m.high ≤ℤ c.high) (members b)
  pub low : All (λ (m : Candle). c.low ≤ℤ m.low) (members b)
  pub high_reached : Any (λ (m : Candle). m.high ≡ c.high) (members b)
  pub low_reached : Any (λ (m : Candle). m.low ≡ c.low) (members b)
  pub quality :
      is_usable c.data_quality ≡ all (λ (m : Candle). is_usable m.data_quality) (members b)

pub summary-Summarises :
    (tf : Timeframe) (expected : List ℕ) (close now : ℕ) (b : Bucket)
    → Summarises b (summary tf expected close now b)
unfolding summary
summary-Summarises tf expected close now b =
    let (h, hs) = highest-ge b.first.high b.rest in
    let (l, ls) = lowest-le b.first.low b.rest in
    record {
      open_time = refl;
      opening = refl;
      close = refl;
      high = (h, hs);
      low = (l, ls);
      high_reached = highest-Any b.first.high b.rest;
      low_reached = lowest-Any b.first.low b.rest;
      quality =
          (worst_quality_lem (map (λ (c : Candle). c.data_quality) (members b))).2
          ∙ all-map is_usable (members b);
    }

-- One candle for each bucket, in order.
abbrev pub Summaries : List Candle → List Bucket → Type 0
Summaries [] [] = Unit
Summaries (c ∷ cs) (b ∷ bs) = Summarises b c × Summaries cs bs
Summaries _ _ = ⊥

-- One candle for each bucket, whatever makes the candle of a single bucket.
pub summarise-Summaries :
    (one : Bucket → Option Aggregates)
    → ((b : Bucket) (r : Aggregates)
        → one b ≡ some r
        → (c : Candle) × (r.0 ≡ c ∷ []) × Summarises b c)
    → (bs : List Bucket) (r : Aggregates) → summarise one bs ≡ some r
    → Summaries r.0 bs
unfolding summarise
summarise-Summaries one fits [] r h = subst (λ t. Summaries t.0 []) (some-injective h) tt
summarise-Summaries one fits (b ∷ bs) r h = elim (Option-cases (one b)) [
  | inl failed ↦ absurd (ground arith)
  | inr (x, made) ↦ elim (Option-cases (summarise one bs)) [
    | inl failed ↦ absurd (ground arith)
    | inr (y, rest) ↦
        let (c, single, fit) = fits b x made in
        let e =
          ap (λ o. prepend (some x) o) (sym rest)
          ∙ ap (λ o. prepend o (summarise one bs)) (sym made)
          ∙ h in
        subst (λ t. Summaries t.0 (b ∷ bs)) (some-injective e)
          (subst (λ l. Summaries (l ++ y.0) (b ∷ bs)) (sym single)
            (fit, summarise-Summaries one fits bs y rest))
  ]
]

if_then_some : (b : Bool) (x r : Aggregates) → (if b then some x else none) ≡ some r → x ≡ r
if_then_some true x r h = some-injective h
if_then_some false x r h = cc

pub if_else_some :
    (b : Bool) (o : Option Aggregates) (r : Aggregates)
    → (if b then none else o) ≡ some r
    → o ≡ some r
if_else_some true o r h = cc
if_else_some false o r h = h

module _ (cal : Calendar) (asset : AssetClass) (now : ℕ) where
  one_bucket-Summarises :
      (tf : Timeframe) (source_d target_d : ℕ) (b : Bucket) (r : Aggregates)
      → one_bucket cal asset now tf source_d target_d b ≡ some r
      → (c : Candle) × (r.0 ≡ c ∷ []) × Summarises b c
  unfolding one_bucket
  one_bucket-Summarises tf source_d target_d b r h =
      let close = b.start + target_d in
      let expected = expected_constituents cal asset source_d (target_d / source_d) b.start in
      let e =
        if_then_some (equals_some close (next_bucket_start cal tf b.start))
          (summary tf expected close now b ∷ [], incomplete tf expected close now b) r h in
      (
        summary tf expected close now b,
        ap (λ (t : Aggregates). t.0) (sym e),
        summary-Summarises tf expected close now b,
      )

  aggregate_from-Summaries :
      (source_tf target_tf : Timeframe) (source_d target_d : ℕ) (cs : List Candle) (r : Aggregates)
      → aggregate_from cal asset now source_tf target_tf source_d target_d cs ≡ some r
      → (bs : List Bucket) × (flatten bs ≡ cs)
        × Keyed (bucket_key cal asset now target_tf) bs
        × Apart bs
        × Summaries r.0 bs
  unfolding flatten
  aggregate_from-Summaries source_tf target_tf source_d target_d [] r h =
      ([], refl, tt, tt, subst (λ t. Summaries t.0 []) (some-injective h) tt)
  aggregate_from-Summaries source_tf target_tf source_d target_d (c ∷ cs) r h =
      let bs = group_by (bucket_key cal asset now target_tf) (c ∷ cs) in
      let (keyed, whole) = group_by-Keyed (bucket_key cal asset now target_tf) (c ∷ cs) in
      let e =
        if_else_some (is_refused source_tf c cs)
          (summarise (one_bucket cal asset now target_tf source_d target_d) bs) r h in
      (
        bs,
        whole,
        keyed,
        group_by-Apart (bucket_key cal asset now target_tf) (c ∷ cs),
        summarise-Summaries (one_bucket cal asset now target_tf source_d target_d)
            (one_bucket-Summarises target_tf source_d target_d) bs r e,
      )

  with_durations_lem :
      (source_tf target_tf : Timeframe) (cs : List Candle) (o p : Option ℕ) (r : Aggregates)
      → with_durations cal asset now source_tf target_tf cs o p ≡ some r
      → (d : ℕ) × (e : ℕ) × (aggregate_from cal asset now source_tf target_tf d e cs ≡ some r)
  with_durations_lem source_tf target_tf cs none p r h = cc
  with_durations_lem source_tf target_tf cs (some d) none r h = cc
  with_durations_lem source_tf target_tf cs (some d) (some e) r h =
      elim (Bool-cases (is_multiple cal asset now d e)) [
        | inl m ↦ (d, e, ground arith)
        | inr m ↦ absurd (ground arith)
      ]

  -- An answer partitions the candles, in their order, into the maximal runs of one bucket, and has
  -- exactly one candle for each run, with the run's opening, close, high and low: no bar is lost and none
  -- is made up.
  pub aggregate-Summaries :
      (source_tf target_tf : Timeframe) (cs : List Candle) (r : Aggregates)
      → aggregate cal asset now source_tf target_tf cs ≡ some r
      → (bs : List Bucket) × (flatten bs ≡ cs)
        × Keyed (bucket_key cal asset now target_tf) bs
        × Apart bs
        × Summaries r.0 bs
  unfolding aggregate
  aggregate-Summaries source_tf target_tf cs r h =
      let bad =
        not (is_fixed_intraday source_tf)
        || is_trading_week_anchored target_tf
        || not (is_engine_supported target_tf) in
      let e =
        if_else_some bad
          (with_durations cal asset now source_tf target_tf cs (duration source_tf)
            (duration target_tf))
          r h in
      let (d, d', e') =
        with_durations_lem source_tf target_tf cs (duration source_tf) (duration target_tf) r e in
      aggregate_from-Summaries source_tf target_tf d d' cs r e'
