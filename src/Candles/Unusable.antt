-- ===== src/Candles/Unusable.antt =====
-- Why services/candles/normalize.py cannot use a bar, and that its screen says so.
use mathlib.Core.Path.{subst}
use ict_trading_claude.Prelude.{
  ℕ, ◌≡◌, ◌≢◌, refl, sym, ◌∙◌, ◌⊎◌, inl, inr, true, false, none, some, [], ◌∷◌, arith, Bool-cases,
  Option-cases, ==_iff,
}
use ict_trading_claude.Prelude.Int.{ℤ, pos, ◌<ℤ◌, ◌≤ℤ◌}
use ict_trading_claude.Domain.Enums.{Timeframe}
use ict_trading_claude.Domain.Candle.{
  RawBar, finite, not_finite, Stamp, naive, aware, Name, upper, has_errors,
}
use ict_trading_claude.Hours.{Calendar}
use ict_trading_claude.Timeframes.{is_aligned}
use ict_trading_claude.Candles.Validation.{
  Prices, IsSane, finite_prices, validate_bar_prices, validate_prices, validate_prices-IsSane,
  validate_prices-errors, is_negative, stamp_seconds,
}
use ict_trading_claude.Candles.Screen.{screen_bar, screen_stamp, same_name, same_timeframe}

-- The four prices are numbers.
abbrev pub HasPrices : RawBar → ℤ → ℤ → ℤ → ℤ → Type 0
HasPrices bar o h l c =
    (bar.opening ≡ finite o) × (bar.high ≡ finite h) × (bar.low ≡ finite l) × (bar.close ≡ finite c)

-- Why a bar cannot stand in a series of this symbol and timeframe: it is of another symbol or another
-- timeframe, its time has no zone or is off the boundary, one of its values is no number, its prices
-- are not positive or not bounded by its high and its low, or its volume is negative.
pub data IsUnusable (cal : Calendar) (symbol : Name) (tf : Timeframe) (bar : RawBar) : Type 0 where
  other_symbol : upper bar.symbol ≢ symbol → IsUnusable cal symbol tf bar
  other_timeframe : bar.timeframe ≢ tf → IsUnusable cal symbol tf bar
  without_zone : (t : ℕ) → bar.open_time ≡ naive t → IsUnusable cal symbol tf bar
  off_boundary :
      (t : ℕ) → bar.open_time ≡ aware t → is_aligned cal tf t ≡ false → IsUnusable cal symbol tf bar
  no_number :
      (bar.opening ≡ not_finite)
        ⊎ (bar.high ≡ not_finite)
        ⊎ (bar.low ≡ not_finite)
        ⊎ (bar.close ≡ not_finite)
        ⊎ (bar.volume ≡ some not_finite)
      → IsUnusable cal symbol tf bar
  impossible :
      (o h l c : ℤ)
      → HasPrices bar o h l c
      → (h <ℤ o) ⊎ (h <ℤ c) ⊎ (o <ℤ l) ⊎ (c <ℤ l) ⊎ (l ≤ℤ pos 0)
      → IsUnusable cal symbol tf bar
  negative_volume :
      (v : ℤ) → bar.volume ≡ some (finite v) → v <ℤ pos 0 → IsUnusable cal symbol tf bar

same_name_lem : (x y : Name) → same_name x y ≡ true → x ≡ y
unfolding same_name
same_name_lem [] [] h = refl
same_name_lem [] (y ∷ ys) h = cc
same_name_lem (x ∷ xs) [] h = cc
same_name_lem (x ∷ xs) (y ∷ ys) h =
    let e : x ≡ y = (==_iff x y).0 (ground arith) in
    let es : xs ≡ ys = same_name_lem xs ys (ground arith) in rw (e, es) refl

same_timeframe_lem : (t u : Timeframe) → same_timeframe t u ≡ true → t ≡ u
unfolding same_timeframe
same_timeframe_lem Timeframe.m1 Timeframe.m1 h = refl
same_timeframe_lem Timeframe.m3 Timeframe.m3 h = refl
same_timeframe_lem Timeframe.m5 Timeframe.m5 h = refl
same_timeframe_lem Timeframe.m15 Timeframe.m15 h = refl
same_timeframe_lem Timeframe.m30 Timeframe.m30 h = refl
same_timeframe_lem Timeframe.h1 Timeframe.h1 h = refl
same_timeframe_lem Timeframe.h4 Timeframe.h4 h = refl
same_timeframe_lem Timeframe.d1 Timeframe.d1 h = refl
same_timeframe_lem Timeframe.w1 Timeframe.w1 h = refl
same_timeframe_lem Timeframe.mn1 Timeframe.mn1 h = refl
same_timeframe_lem _ _ h = cc

-- The validator reports prices that are no numbers or not sane, and a negative volume.
validate_prices-insane :
    (at : ℕ) (p : Prices) → ¬ IsSane p → has_errors (validate_prices at (some p)) ≡ true
validate_prices-insane at p n = elim (Bool-cases (has_errors (validate_prices at (some p)))) [
  | inl e ↦ e
  | inr clean ↦ absurd (n (validate_prices-IsSane at p clean))
]

out_of_order :
    (p : Prices)
    → (p.high <ℤ p.opening)
      ⊎ (p.high <ℤ p.close)
      ⊎ (p.opening <ℤ p.low)
      ⊎ (p.close <ℤ p.low)
      ⊎ (p.low ≤ℤ pos 0)
    → ¬ IsSane p
out_of_order p bad s = ground arith

module _ (bar : RawBar) where
  no_prices-errors : finite_prices bar ≡ none → has_errors (validate_bar_prices bar) ≡ true
  unfolding validate_bar_prices validate_prices has_errors
  no_prices-errors h =
      subst (λ o. has_errors (validate_prices (stamp_seconds bar.open_time) o) ≡ true) (sym h) refl

  prices-errors :
      (p : Prices)
      → finite_prices bar ≡ some p
      → has_errors (validate_prices (stamp_seconds bar.open_time) (some p)) ≡ true
      → has_errors (validate_bar_prices bar) ≡ true
  unfolding validate_bar_prices
  prices-errors p h e =
      subst (λ o. has_errors (validate_prices (stamp_seconds bar.open_time) o) ≡ true) (sym h) e

  no_number-errors :
      (bar.opening ≡ not_finite)
        ⊎ (bar.high ≡ not_finite)
        ⊎ (bar.low ≡ not_finite)
        ⊎ (bar.close ≡ not_finite)
        ⊎ (bar.volume ≡ some not_finite)
      → has_errors (validate_bar_prices bar) ≡ true
  unfolding finite_prices
  no_number-errors h = no_prices-errors (ground arith)

  impossible-errors :
      (o h l c : ℤ)
      → HasPrices bar o h l c
      → (h <ℤ o) ⊎ (h <ℤ c) ⊎ (o <ℤ l) ⊎ (c <ℤ l) ⊎ (l ≤ℤ pos 0)
      → has_errors (validate_bar_prices bar) ≡ true
  unfolding finite_prices
  impossible-errors o h l c (eo, eh, el, ec) bad = elim (Option-cases (finite_prices bar)) [
    | inl n ↦ no_prices-errors n
    | inr (p, found) ↦
        let po : p.opening ≡ o = ground arith in
        let ph : p.high ≡ h = ground arith in
        let pl : p.low ≡ l = ground arith in
        let pc : p.close ≡ c = ground arith in
        prices-errors p found (
          validate_prices-insane (stamp_seconds bar.open_time) p
            (λ s. out_of_order p (rw (po, ph, pl, pc) bad) s))
  ]

  negative_volume-errors :
      (v : ℤ)
      → bar.volume ≡ some (finite v)
      → v <ℤ pos 0
      → has_errors (validate_bar_prices bar) ≡ true
  unfolding finite_prices
  negative_volume-errors v e n = elim (Option-cases (finite_prices bar)) [
    | inl n ↦ no_prices-errors n
    | inr (p, found) ↦
        let pv : p.volume ≡ some v = ground arith in
        let negative : is_negative p.volume ≡ true = rw pv (ground arith) in
        prices-errors p found
          (validate_prices-errors (stamp_seconds bar.open_time) p ∙ ground arith)
  ]

-- The screen passes a bar only for its own symbol and timeframe, at an aligned instant, and with values
-- that the validator has no error for.
module _ (cal : Calendar) (symbol : Name) (tf : Timeframe) (bar : RawBar) where
  screen_stamp-has_errors :
      (s : Stamp)
      → ((t : ℕ)
          → s ≡ aware t
          → is_aligned cal tf t ≡ true
          → has_errors (validate_bar_prices bar) ≡ true)
      → has_errors (screen_stamp cal tf bar s) ≡ true
  unfolding has_errors
  screen_stamp-has_errors (naive t) bad = refl
  screen_stamp-has_errors (aware t) bad = elim (Bool-cases (is_aligned cal tf t)) [
    | inr off ↦ rw off refl
    | inl aligned ↦ rw aligned (bad t refl aligned)
  ]

  screen_bar-has_errors :
      (upper bar.symbol ≡ symbol
        → bar.timeframe ≡ tf
        → (t : ℕ) → bar.open_time ≡ aware t
        → is_aligned cal tf t ≡ true
        → has_errors (validate_bar_prices bar) ≡ true)
      → has_errors (screen_bar cal symbol tf bar) ≡ true
  unfolding screen_bar has_errors
  screen_bar-has_errors bad = elim (Bool-cases (same_name (upper bar.symbol) symbol)) [
    | inr n ↦ rw n refl
    | inl s ↦ elim (Bool-cases (same_timeframe bar.timeframe tf)) [
      | inr n ↦ rw (s, n) refl
      | inl f ↦
          let here =
            bad (same_name_lem (upper bar.symbol) symbol s)
              (same_timeframe_lem bar.timeframe tf f) in
          rw (s, f) (screen_stamp-has_errors bar.open_time here)
    ]
  ]

  pub screen_bar-unusable :
      IsUnusable cal symbol tf bar → has_errors (screen_bar cal symbol tf bar) ≡ true
  screen_bar-unusable (other_symbol n) = screen_bar-has_errors (λ s f t a g. absurd (n s))
  screen_bar-unusable (other_timeframe n) = screen_bar-has_errors (λ s f t a g. absurd (n f))
  screen_bar-unusable (without_zone t n) = screen_bar-has_errors (λ s f u a g. absurd (cc))
  screen_bar-unusable (off_boundary t n b) =
      screen_bar-has_errors (λ s f u a g. absurd (ground arith))
  screen_bar-unusable (no_number h) = screen_bar-has_errors (λ s f t a g. no_number-errors bar h)
  screen_bar-unusable (impossible o h l c p bad) =
      screen_bar-has_errors (λ s f t a g. impossible-errors bar o h l c p bad)
  screen_bar-unusable (negative_volume v e n) =
      screen_bar-has_errors (λ s f t a g. negative_volume-errors bar v e n)
