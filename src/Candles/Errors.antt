-- ===== src/Candles/Errors.antt =====
-- What an unusable bar does to a series: services/candles/normalize.py.
use ict_trading_claude.Prelude.{
  ℕ, zero, suc, ◌≡◌, refl, sym, ap, ◌∙◌, ◌⊎◌, inl, inr, true, ◌&&◌, Option, none, some, List, [],
  ◌∷◌, ◌++◌, map, any, get_elem?, if◌then◌else◌, arith, Bool-cases, last?, and_right, if_both,
  if_cases, some-injective,
}
use ict_trading_claude.Domain.Enums.{DataQuality}
use ict_trading_claude.Domain.Candle.{
  Candle, RawBar, Name, upper, ValidationIssue, has_errors, is_error,
}
use ict_trading_claude.Domain.Enums.{Timeframe}
use ict_trading_claude.Hours.{Calendar}
use ict_trading_claude.Quality.{classify_candle_series, class_of_last, closed_of}
use ict_trading_claude.Candles.Screen.{Accepted, screen_bar, screen_all, accept_all}
use ict_trading_claude.Candles.Unusable.{IsUnusable, screen_bar-unusable}
use ict_trading_claude.Candles.Duplicates.{Feed, group_bars, candles_of}
use ict_trading_claude.Candles.Gaps.{detect_missing_bars}
use ict_trading_claude.Candles.Series.{
  CandleSeries, Thresholds, build_series, classify_series, all_issues, later_issues, merge_counts,
  with_count, first_of_key, same_key, is_untimed, note_empty,
}
use ict_trading_claude.Candles.Origin.{finish-candles}

abbrev HasError : List ValidationIssue → Type 0
HasError is = has_errors is ≡ true

append-HasError_left : (xs ys : List ValidationIssue) → HasError xs → HasError (xs ++ ys)
unfolding has_errors
append-HasError_left [] ys h = cc
append-HasError_left (x ∷ xs) ys h = elim (Bool-cases (is_error x)) [
  | inl e ↦ ground arith
  | inr e ↦ let rest = append-HasError_left xs ys (ground arith) in ground arith
]

append-HasError_right : (xs ys : List ValidationIssue) → HasError ys → HasError (xs ++ ys)
unfolding has_errors
append-HasError_right [] ys h = h
append-HasError_right (x ∷ xs) ys h = let rest = append-HasError_right xs ys h in ground arith

-- An error that stands for a key stands for it in `seen` as well.
same_key-HasError :
    (i : ValidationIssue) (seen : List ValidationIssue)
    → is_error i ≡ true
    → any (same_key i) seen ≡ true
    → HasError seen
unfolding has_errors same_key
same_key-HasError i [] e h = cc
same_key-HasError i (j ∷ js) e h = elim (Bool-cases (is_error j)) [
  | inl f ↦ ground arith
  | inr f ↦ let rest = same_key-HasError i js e (ground arith) in ground arith
]

first_of_key-HasError :
    (seen is : List ValidationIssue) → HasError is → HasError (first_of_key seen is) ⊎ HasError seen
unfolding has_errors first_of_key
first_of_key-HasError seen [] h = cc
first_of_key-HasError seen (i ∷ is) h =
    let untimed = is_untimed i in
    let repeats = any (same_key i) seen in
    let rest = first_of_key (if untimed then i ∷ seen else seen) is in
    elim (Bool-cases (is_error i)) [
      | inl e ↦ elim (Bool-cases (untimed && repeats)) [
        | inl dropped ↦ inr (same_key-HasError i seen e (and_right untimed repeats dropped))
        | inr kept ↦ inl (
            if_cases HasError (untimed && repeats) rest (i ∷ rest) (λ d. absurd (ground arith))
              (λ k. ground arith))
      ]
      | inr e ↦
          elim (first_of_key-HasError (if untimed then i ∷ seen else seen) is (ground arith)) [
            | inl r ↦ inl (if_both HasError (untimed && repeats) rest (i ∷ rest) r (ground arith))
            | inr s ↦ elim (Bool-cases untimed) [
              | inl u ↦ inr (ground arith)
              | inr u ↦ inr (ground arith)
            ]
          ]
    ]

with_count-HasError :
    (xs ys : List ValidationIssue) → has_errors (map (with_count xs) ys) ≡ has_errors ys
unfolding has_errors with_count
with_count-HasError xs [] = refl
with_count-HasError xs (y ∷ ys) =
    let rest = with_count-HasError xs ys in
    elim (Bool-cases (is_untimed y)) [ inl u ↦ rw (u, rest) refl | inr t ↦ rw (t, rest) refl ]

note_empty-HasError :
    (cs : List Candle) (is : List ValidationIssue) → HasError is → HasError (note_empty cs is)
unfolding note_empty
note_empty-HasError [] is h = rw h h
note_empty-HasError (c ∷ cs) is h = h

merge_counts-HasError : (is : List ValidationIssue) → HasError is → HasError (merge_counts is)
unfolding merge_counts has_errors
merge_counts-HasError is h = elim (first_of_key-HasError [] is h) [
  | inl e ↦ with_count-HasError is (first_of_key [] is) ∙ e
  | inr e ↦ cc
]

screen_all-HasError :
    (cal : Calendar) (symbol : Name) (tf : Timeframe) (raw : List RawBar) (k : ℕ) (bar : RawBar)
    → get_elem? raw k ≡ some bar
    → HasError (screen_bar cal symbol tf bar)
    → HasError (screen_all cal symbol tf raw)
unfolding screen_all
screen_all-HasError cal symbol tf [] k bar f h = cc
screen_all-HasError cal symbol tf (b ∷ bs) zero bar f h =
    append-HasError_left (screen_bar cal symbol tf b) (screen_all cal symbol tf bs)
      (ap (λ x. has_errors (screen_bar cal symbol tf x)) (some-injective f) ∙ h)
screen_all-HasError cal symbol tf (b ∷ bs) (suc k) bar f h =
    append-HasError_right (screen_bar cal symbol tf b) (screen_all cal symbol tf bs)
      (screen_all-HasError cal symbol tf bs k bar f h)

classify_series_invalid :
    (cal : Calendar) (cfg : Thresholds) (f : Feed) (now : ℕ) (raw : List RawBar)
    (accepted : List Accepted) (cs : List Candle) (o : Option (List ValidationIssue))
    (s : CandleSeries)
    → HasError (screen_all cal (upper f.symbol) f.timeframe raw)
    → classify_series cal cfg f now raw accepted cs o ≡ some s
    → s.quality ≡ DataQuality.invalid
unfolding classify_candle_series all_issues
classify_series_invalid cal cfg f now raw accepted cs none s e h = cc
classify_series_invalid cal cfg f now raw accepted cs (some missing) s e h =
    let all = all_issues cal cfg f now raw accepted cs missing in
    let issues = note_empty cs (merge_counts all) in
    let bad : HasError issues = note_empty-HasError cs (merge_counts all) (
      merge_counts-HasError all (
        append-HasError_left (screen_all cal (upper f.symbol) f.timeframe raw)
          (later_issues cal cfg f now accepted cs missing) e)) in
    let o = classify_candle_series cal cfg.lag cs issues f.asset_class now in
    let q = (finish-candles f cs issues o s h).2 in
    let by_lag = class_of_last cal cfg.lag f.asset_class now (last? (closed_of cs)) in
    sym (some-injective (sym (ap (λ b. if b then some DataQuality.invalid else by_lag) bad) ∙ q))

-- One unusable bar makes the whole series INVALID: a bar of another symbol or timeframe, at a time
-- without a zone or off the boundary, with a value that is no number, with a price that is not positive
-- or that the high and the low do not bound, or with a negative volume.
pub build_series_unusable_bar :
    (cal : Calendar) (cfg : Thresholds) (f : Feed) (now : ℕ) (raw : List RawBar) (k : ℕ)
    (bar : RawBar) (s : CandleSeries)
    → get_elem? raw k ≡ some bar
    → IsUnusable cal (upper f.symbol) f.timeframe bar
    → build_series cal cfg f now raw ≡ some s
    → s.quality ≡ DataQuality.invalid
unfolding build_series
build_series_unusable_bar cal cfg f now [] k bar s found e h = cc
build_series_unusable_bar cal cfg f now (b ∷ bs) k bar s found u h =
    let e = screen_bar-unusable cal (upper f.symbol) f.timeframe bar u in
    let accepted = accept_all cal (upper f.symbol) f.timeframe (b ∷ bs) in
    let cs = candles_of f now (group_bars accepted []) in
    classify_series_invalid cal cfg f now (b ∷ bs) accepted cs
      (detect_missing_bars cal f.asset_class cs) s
      (screen_all-HasError cal (upper f.symbol) f.timeframe (b ∷ bs) k bar found e) h
