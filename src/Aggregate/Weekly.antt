-- ===== src/Aggregate/Weekly.antt =====
-- `aggregate_weekly` of services/timeframes/aggregate.py: trading weeks from trading days. `none` is an
-- AggregationError, or a walk over the days that does not end.
use mathlib.Core.Path.{subst}
use ict_trading_claude.Prelude.{
  ℕ, zero, suc, ◌+◌, Bool, true, false, Option, none, some, List, [], ◌∷◌, ◌≡◌, refl, sym, ap,
  some-injective, ltb, if◌then◌else◌, Bool-cases, ltb→lt, ◌≤◌, arith, inl, inr, ◌∙◌,
}
use ict_trading_claude.Domain.Enums.{AssetClass, Timeframe}
use ict_trading_claude.Domain.Candle.{Candle}
use ict_trading_claude.Hours.{Calendar}
use ict_trading_claude.Timeframes.{
  trading_week_start, next_bucket_start, bucket_has_open_market, cons_some,
}
use ict_trading_claude.Timeframes.Slots.{Advances}
use ict_trading_claude.Aggregate.{
  Bucket, Aggregates, prepend, summary, incomplete, summarise, group_by, is_refused,
}
use ict_trading_claude.Aggregate.Buckets.{
  Summarises, Summaries, Keyed, Apart, flatten, group_by-Keyed, group_by-Apart, summary-Summarises,
  summarise-Summaries, if_else_some,
}

abbrev keep_day : Bool → ℕ → Option (List ℕ) → Option (List ℕ)
keep_day true day rest = cons_some day rest
keep_day false day rest = rest

-- The rest of the days, unless the cursor has reached the end of the week.
abbrev until_close : Bool → (ℕ → Option (List ℕ)) → Option ℕ → Bool → ℕ → Option (List ℕ)
until_close false go next opens day = some []
until_close true go none opens day = none
until_close true go (some next) opens day = keep_day opens day (go next)

module _ (cal : Calendar) (asset : AssetClass) where
  -- `_expected_days`, on fuel: `none` when it runs out.
  unfoldable pub days_from : ℕ → ℕ → ℕ → Option (List ℕ)
  days_from zero week_close cursor = none
  days_from (suc n) week_close cursor =
      until_close (ltb cursor week_close) (λ next. days_from n week_close next)
        (next_bucket_start cal Timeframe.d1 cursor)
        (bucket_has_open_market cal asset Timeframe.d1 cursor) cursor

  -- The fuel is more than the number of instants up to the end of the week.
  unfoldable pub expected_days : ℕ → ℕ → Option (List ℕ)
  expected_days week_open week_close = days_from (week_close + 1) week_close week_open

  abbrev week_of : ℕ → Bucket → Option ℕ → Option (List ℕ) → Option Aggregates
  week_of now b (some close) (some expected) =
      some (
        summary Timeframe.w1 expected close now b ∷ [],
        incomplete Timeframe.w1 expected close now b,
      )
  week_of now b _ _ = none

  abbrev days_until : ℕ → Option ℕ → Option (List ℕ)
  days_until week_open none = none
  days_until week_open (some close) = expected_days week_open close

  unfoldable pub one_week : ℕ → Bucket → Option Aggregates
  one_week now b =
      let close = next_bucket_start cal Timeframe.w1 b.start in
      week_of now b close (days_until b.start close)

  abbrev pub week_key : Candle → ℕ
  week_key c = trading_week_start cal c.open_time

  unfoldable pub aggregate_weekly : ℕ → List Candle → Option Aggregates
  aggregate_weekly now [] = some ([], [])
  aggregate_weekly now (c ∷ cs) =
      if is_refused Timeframe.d1 c cs
      then none
      else summarise (one_week now) (group_by week_key (c ∷ cs))

  week_of-Summarises :
      (now : ℕ) (b : Bucket) (o : Option ℕ) (p : Option (List ℕ)) (r : Aggregates)
      → week_of now b o p ≡ some r
      → (c : Candle) × (r.0 ≡ c ∷ []) × Summarises b c
  week_of-Summarises now b none p r h = cc
  week_of-Summarises now b (some close) none r h = cc
  week_of-Summarises now b (some close) (some expected) r h = (
    summary Timeframe.w1 expected close now b,
    ap (λ (t : Aggregates). t.0) (sym (some-injective h)),
    summary-Summarises Timeframe.w1 expected close now b,
  )

  one_week-Summarises :
      (now : ℕ) (b : Bucket) (r : Aggregates)
      → one_week now b ≡ some r
      → (c : Candle) × (r.0 ≡ c ∷ []) × Summarises b c
  unfolding one_week
  one_week-Summarises now b r h =
      let close = next_bucket_start cal Timeframe.w1 b.start in
      week_of-Summarises now b close (days_until b.start close) r h

  -- The weeks of an answer are one candle for each maximal run of days of one trading week.
  pub aggregate_weekly-Summaries :
      (now : ℕ) (cs : List Candle) (r : Aggregates)
      → aggregate_weekly now cs ≡ some r
      → (bs : List Bucket) × (flatten bs ≡ cs) × Keyed week_key bs × Apart bs × Summaries r.0 bs
  unfolding aggregate_weekly flatten
  aggregate_weekly-Summaries now [] r h =
      ([], refl, tt, tt, subst (λ t. Summaries t.0 []) (some-injective h) tt)
  aggregate_weekly-Summaries now (c ∷ cs) r h =
      let bs = group_by week_key (c ∷ cs) in
      let (keyed, whole) = group_by-Keyed week_key (c ∷ cs) in
      let e = if_else_some (is_refused Timeframe.d1 c cs) (summarise (one_week now) bs) r h in
      (
        bs,
        whole,
        keyed,
        group_by-Apart week_key (c ∷ cs),
        summarise-Summaries (one_week now) (one_week-Summarises now) bs r e,
      )

keep_day-total :
    (b : Bool) (day : ℕ) (rest : List ℕ)
    → (days : List ℕ) × (keep_day b day (some rest) ≡ some days)
keep_day-total true day rest = (day ∷ rest, refl)
keep_day-total false day rest = (rest, refl)

module _ (cal : Calendar) (asset : AssetClass) where
  days_from-total :
      (n week_close cursor : ℕ)
      → Advances cal Timeframe.d1
      → 1 ≤ n
      → week_close + 1 ≤ n + cursor
      → (days : List ℕ) × (days_from cal asset n week_close cursor ≡ some days)
  unfolding days_from
  days_from-total zero week_close cursor a p q = absurd (omega arith)
  days_from-total (suc n) week_close cursor a p q =
      let go = λ (next : ℕ). days_from cal asset n week_close next in
      let step = next_bucket_start cal Timeframe.d1 cursor in
      let opens = bucket_has_open_market cal asset Timeframe.d1 cursor in
      elim (Bool-cases (ltb cursor week_close)) [
        | inr over ↦ ([], ap (λ b. until_close b go step opens cursor) over)
        | inl inside ↦
            let (next, found, later) = a cursor in
            let before = ltb→lt cursor week_close inside in
            let (rest, eq) = days_from-total n week_close next a (omega arith) (omega arith) in
            let (days, kept) = keep_day-total opens cursor rest in
            (
              days,
              ap (λ b. until_close b go step opens cursor) inside
                  ∙ ap (λ o. until_close true go o opens cursor) found
                  ∙ ap (keep_day opens cursor) eq
                  ∙ kept,
            )
      ]

  one_week-total :
      (now : ℕ) (b : Bucket)
      → Advances cal Timeframe.d1
      → Advances cal Timeframe.w1
      → (r : Aggregates) × (one_week cal asset now b ≡ some r)
  unfolding one_week expected_days
  one_week-total now b a w =
      let (close, found, later) = w b.start in
      let (days, walked) =
        days_from-total (close + 1) close b.start a (omega arith) (omega arith) in
      (
        _,
        ap (λ o. week_of cal asset now b o (days_until cal asset b.start o)) found
            ∙ ap (week_of cal asset now b (some close)) walked,
      )

  summarise-total :
      (now : ℕ) (bs : List Bucket)
      → Advances cal Timeframe.d1
      → Advances cal Timeframe.w1
      → (r : Aggregates) × (summarise (one_week cal asset now) bs ≡ some r)
  unfolding summarise
  summarise-total now [] a w = (([], []), refl)
  summarise-total now (b ∷ bs) a w =
      let (x, one) = one_week-total now b a w in
      let (y, rest) = summarise-total now bs a w in
      (
        _,
        ap (λ o. prepend o (summarise (one_week cal asset now) bs)) one
            ∙ ap (λ o. prepend (some x) o) rest,
      )

  -- Where there is always a later day and a later week, days that are not refused (of one symbol and
  -- source, of D1, ascending) have an answer. It partitions them, in their order, into the maximal runs
  -- of one trading week, with exactly one candle for each run, with the run's opening, close, high and
  -- low: no day is lost and none is made up.
  pub aggregate_weekly-total :
      (now : ℕ) (c : Candle) (cs : List Candle)
      → Advances cal Timeframe.d1
      → Advances cal Timeframe.w1
      → is_refused Timeframe.d1 c cs ≡ false
      → (r : Aggregates) × (aggregate_weekly cal asset now (c ∷ cs) ≡ some r)
        × (bs : List Bucket) × (flatten bs ≡ c ∷ cs)
        × Keyed (week_key cal asset) bs
        × Apart bs
        × Summaries r.0 bs
  unfolding aggregate_weekly
  aggregate_weekly-total now c cs a w good =
      let weeks = group_by (week_key cal asset) (c ∷ cs) in
      let (r, made) = summarise-total now weeks a w in
      let e = ap (λ b. if b then none else summarise (one_week cal asset now) weeks) good ∙ made in
      let (bs, whole, keyed, apart, each) = aggregate_weekly-Summaries cal asset now (c ∷ cs) r e in
      (r, e, bs, whole, keyed, apart, each)
