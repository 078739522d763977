-- ===== src/Candles/Total.antt =====
-- The pipeline of services/candles/normalize.py always ends with a series.
use mathlib.Core.Path.{subst}
use ict_trading_claude.Prelude.{
  ℕ, ◌+◌, ◌-◌, ◌≡◌, refl, sym, ap, ◌∙◌, inl, inr, Option, some, List, [], ◌∷◌, All, last?, length,
  leb, if_both, Option-cases, some-injective,
}
use ict_trading_claude.Domain.Enums.{AssetClass, DataQuality, Timeframe, is_engine_supported}
use ict_trading_claude.Domain.Candle.{Candle, RawBar, ValidationIssue, has_errors, upper}
use ict_trading_claude.Hours.{Calendar}
use ict_trading_claude.Timeframes.{expected_slots}
use ict_trading_claude.Timeframes.Slots.{Advances, expected_slots-Expected}
use ict_trading_claude.Quality.{
  CandleLag, closed_of, missing_bars_since, classify_candle_series, class_of_last, class_of_lag,
  count_of,
}
use ict_trading_claude.Candles.Screen.{Accepted, accept_all}
use ict_trading_claude.Candles.Duplicates.{
  Feed, Group, group_bars, candles_of, candle_of, is_conflict, length_of,
}
use ict_trading_claude.Candles.Gaps.{
  append_gap, slots_between, gaps, detect_missing_bars, max_gap_slots_counted,
}
use ict_trading_claude.Candles.Series.{
  CandleSeries, Thresholds, build_series, classify_series, finish, note_empty, merge_counts,
  all_issues,
}
use ict_trading_claude.Candles.Origin.{Series, build_series-Series}

abbrev Answers {ℓ} : {A : Type ℓ} → Option A → Type ℓ
Answers {A = A} o = (a : A) × (o ≡ some a)

abbrev Of : Timeframe → Candle → Type 0
Of tf c = c.timeframe ≡ tf

module _ (cal : Calendar) (asset : AssetClass) (tf : Timeframe) where
  expected_slots-Answers :
      (after until : ℕ) (limit : Option ℕ)
      → Advances cal tf
      → Answers (expected_slots cal asset tf after until limit)
  expected_slots-Answers after until limit a =
      let (d, ss, timed, eq, e) = expected_slots-Expected cal asset tf after until limit a in
      (ss, eq)

  gaps-Answers : (cs : List Candle) → Advances cal tf → Answers (gaps cal asset tf cs)
  unfolding gaps slots_between
  gaps-Answers [] a = ([], refl)
  gaps-Answers (c ∷ []) a = ([], refl)
  gaps-Answers (prev ∷ cur ∷ cs) a =
      let (ss, walked) =
        if_both Answers (leb (cur.open_time - prev.open_time) (length_of tf)) (some [])
          (expected_slots cal asset tf prev.open_time cur.open_time (some max_gap_slots_counted))
          ([], refl)
          (expected_slots-Answers prev.open_time cur.open_time (some max_gap_slots_counted) a) in
      let (rest, found) = gaps-Answers (cur ∷ cs) a in
      (
        _,
        ap (λ o. append_gap tf o (gaps cal asset tf (cur ∷ cs))) walked
            ∙ ap (λ o. append_gap tf (some ss) o) found,
      )

  detect_missing_bars-Answers :
      (cs : List Candle)
      → Advances cal tf
      → All (Of tf) cs
      → Answers (detect_missing_bars cal asset cs)
  unfolding detect_missing_bars
  detect_missing_bars-Answers [] a h = ([], refl)
  detect_missing_bars-Answers (c ∷ cs) a h =
      if_both Answers (is_engine_supported c.timeframe) (gaps cal asset c.timeframe (c ∷ cs))
        (some [])
        (subst (λ t. Answers (gaps cal asset t (c ∷ cs))) (sym h.0) (gaps-Answers (c ∷ cs) a))
        ([], refl)

  missing_bars_since-Answers :
      (cfg : CandleLag) (c : Candle) (now limit : ℕ)
      → Advances cal tf
      → Of tf c
      → Answers (missing_bars_since cal cfg c asset now limit)
  unfolding missing_bars_since
  missing_bars_since-Answers cfg c now limit a h =
      let (ss, walked) = expected_slots-Answers c.open_time (now - cfg.grace) (some limit) a in
      if_both Answers (is_engine_supported c.timeframe)
        (count_of (expected_slots cal asset c.timeframe c.open_time (now - cfg.grace) (some limit)))
        (some limit)
        (
          length ss,
          ap count_of (
              ap (λ t. expected_slots cal asset t c.open_time (now - cfg.grace) (some limit)) h
              ∙ walked),
        )
        (limit, refl)

last-Of :
    (tf : Timeframe) (cs : List Candle) (c : Candle) → All (Of tf) cs → last? cs ≡ some c → Of tf c
last-Of tf [] c a h = cc
last-Of tf (x ∷ []) c a h = subst (Of tf) (some-injective h) a.0
last-Of tf (x ∷ y ∷ ys) c a h = last-Of tf (y ∷ ys) c a.1 h

closed_of-Of : (tf : Timeframe) (cs : List Candle) → All (Of tf) cs → All (Of tf) (closed_of cs)
unfolding closed_of
closed_of-Of tf [] a = tt
closed_of-Of tf (c ∷ cs) a =
    if_both (All (Of tf)) (c.is_closed) (c ∷ closed_of cs) (closed_of cs)
      (a.0, closed_of-Of tf cs a.1) (closed_of-Of tf cs a.1)

candles_of-Of : (f : Feed) (now : ℕ) (gs : List Group) → All (Of f.timeframe) (candles_of f now gs)
unfolding candles_of candle_of
candles_of-Of f now [] = tt
candles_of-Of f now (g ∷ gs) =
    if_both (All (Of f.timeframe)) (is_conflict g) (candles_of f now gs)
      (candle_of f now g ∷ candles_of f now gs) (candles_of-Of f now gs)
      (refl, candles_of-Of f now gs)

classify_candle_series-Answers :
    (cal : Calendar) (cfg : CandleLag) (tf : Timeframe) (cs : List Candle)
    (issues : List ValidationIssue) (asset : AssetClass) (now : ℕ)
    → Advances cal tf
    → All (Of tf) cs
    → Answers (classify_candle_series cal cfg cs issues asset now)
unfolding classify_candle_series
classify_candle_series-Answers cal cfg tf cs issues asset now a h =
    if_both Answers (has_errors issues) (some DataQuality.invalid)
      (class_of_last cal cfg asset now (last? (closed_of cs))) (DataQuality.invalid, refl)
      (elim (Option-cases (last? (closed_of cs))) [
        | inl n ↦ (DataQuality.invalid, ap (class_of_last cal cfg asset now) n)
        | inr (c, e) ↦
            let (m, counted) =
              missing_bars_since-Answers cal asset tf cfg c now (cfg.delayed_max_missing + 1) a
                (last-Of tf (closed_of cs) c (closed_of-Of tf cs h) e) in
            (_, ap (class_of_last cal cfg asset now) e ∙ ap (class_of_lag cfg) counted)
      ])

classify_series-Answers :
    (cal : Calendar) (cfg : Thresholds) (f : Feed) (now : ℕ) (raw : List RawBar)
    (accepted : List Accepted) (cs : List Candle) (o : Option (List ValidationIssue))
    → Advances cal f.timeframe
    → All (Of f.timeframe) cs
    → Answers o
    → Answers (classify_series cal cfg f now raw accepted cs o)
classify_series-Answers cal cfg f now raw accepted cs o a h (missing, e) =
    let issues = note_empty cs (merge_counts (all_issues cal cfg f now raw accepted cs missing)) in
    let (q, classified) =
      classify_candle_series-Answers cal cfg.lag f.timeframe cs issues f.asset_class now a h in
    (_, ap (classify_series cal cfg f now raw accepted cs) e ∙ ap (finish f cs issues) classified)

build_series-Answers :
    (cal : Calendar) (cfg : Thresholds) (f : Feed) (now : ℕ) (raw : List RawBar)
    → Advances cal f.timeframe
    → Answers (build_series cal cfg f now raw)
unfolding build_series
build_series-Answers cal cfg f now [] a = (_, refl)
build_series-Answers cal cfg f now (b ∷ bs) a =
    let accepted = accept_all cal (upper f.symbol) f.timeframe (b ∷ bs) in
    let cs = candles_of f now (group_bars accepted []) in
    let h = candles_of-Of f now (group_bars accepted []) in
    classify_series-Answers cal cfg f now (b ∷ bs) accepted cs
      (detect_missing_bars cal f.asset_class cs) a h
      (detect_missing_bars-Answers cal f.asset_class f.timeframe cs a h)

-- Where there is always a later bucket, any bars make a series. It has candles at strictly ascending
-- times, on boundaries of its timeframe, each with the values of a bar of the input that stands at that
-- time, sane ones (positive, and bounded by the high and the low), closed exactly when its close time
-- has passed, and each of the series' quality.
pub build_series-total :
    (cal : Calendar) (cfg : Thresholds) (f : Feed) (now : ℕ) (raw : List RawBar)
    → Advances cal f.timeframe
    → (s : CandleSeries) × (build_series cal cfg f now raw ≡ some s)
      × Series cal f now raw s.quality 0 s.candles
build_series-total cal cfg f now raw a =
    let (s, e) = build_series-Answers cal cfg f now raw a in
    (s, e, build_series-Series cal cfg f now raw s e)
