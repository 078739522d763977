-- ===== src/Candles/Origin.antt =====
-- Where the candles of a normalized series come from: services/candles/normalize.py.
use mathlib.Core.Path.{subst}
use ict_trading_claude.Prelude.{
  ℕ, suc, ◌+◌, ◌≤◌, ◌≡◌, refl, sym, inl, inr, true, false, Option, none, some, List, [], ◌∷◌, All,
  All-append, get_elem?, leb, ltb, ◌==◌, if_both, ltb→lt, if_cases, arith, Bool-cases,
  some-injective,
}
use ict_trading_claude.Domain.Enums.{DataQuality, Timeframe}
use ict_trading_claude.Domain.Candle.{
  Candle, RawBar, Stamp, naive, aware, Name, upper, ValidationIssue, has_errors,
}
use ict_trading_claude.Hours.{Calendar}
use ict_trading_claude.Timeframes.{is_aligned}
use ict_trading_claude.Candles.Validation.{
  Prices, IsSane, finite_prices, validate_bar_prices, validate_prices-IsSane, validate_prices,
  stamp_seconds,
}
use ict_trading_claude.Candles.Screen.{
  Accepted, screen_bar, accept, accept_all, values_of, same_name, same_timeframe,
}
use ict_trading_claude.Candles.Duplicates.{
  Feed, Group, add_bar, group_bars, is_conflict, candle_of, candles_of, length_of,
}
use ict_trading_claude.Candles.Gaps.{detect_missing_bars}
use ict_trading_claude.Candles.Series.{
  CandleSeries, Thresholds, build_series, with_quality, classify_series, finish,
}

-- A bar of the input that stands at `t`, on a boundary, with sane prices `p`.
pub record Delivered (cal : Calendar) (tf : Timeframe) (raw : List RawBar) (t : ℕ) (p : Prices)
    : Type 0 where
  pub position : ℕ
  pub bar : RawBar
  pub found : get_elem? raw position ≡ some bar
  pub stamp : bar.open_time ≡ aware t
  pub values : finite_prices bar ≡ some p
  pub aligned : is_aligned cal tf t ≡ true
  pub sane : IsSane p

abbrev OfAccepted : Calendar → Timeframe → List RawBar → Accepted → Type 0
OfAccepted cal tf raw a = Delivered cal tf raw a.at a.prices

Delivered-later :
    (cal : Calendar) (tf : Timeframe) (b : RawBar) (raw : List RawBar) (t : ℕ) (p : Prices)
    → Delivered cal tf raw t p
    → Delivered cal tf (b ∷ raw) t p
Delivered-later cal tf b raw t p d = record {
  position = suc d.position;
  bar = d.bar;
  found = d.found;
  stamp = d.stamp;
  values = d.values;
  aligned = d.aligned;
  sane = d.sane;
}

All-later :
    (cal : Calendar) (tf : Timeframe) (b : RawBar) (raw : List RawBar) (bars : List Accepted)
    → All (OfAccepted cal tf raw) bars
    → All (OfAccepted cal tf (b ∷ raw)) bars
All-later cal tf b raw [] h = tt
All-later cal tf b raw (a ∷ bars) h =
    (Delivered-later cal tf b raw a.at a.prices h.0, All-later cal tf b raw bars h.1)

abbrev Clean : Calendar → Name → Timeframe → RawBar → Type 0
Clean cal symbol tf bar = has_errors (screen_bar cal symbol tf bar) ≡ false

-- What the screening of a bar without an error has shown.
screen_bar_passed :
    (cal : Calendar) (symbol : Name) (tf : Timeframe) (bar : RawBar) (t : ℕ)
    → Clean cal symbol tf bar
    → bar.open_time ≡ aware t
    → (is_aligned cal tf t ≡ true) × (has_errors (validate_bar_prices bar) ≡ false)
unfolding screen_bar has_errors
screen_bar_passed cal symbol tf bar t h stamp =
    elim (Bool-cases (same_name (upper bar.symbol) symbol)) [
      | inr e ↦ absurd (ground arith)
      | inl e ↦ elim (Bool-cases (same_timeframe bar.timeframe tf)) [
        | inr f ↦ absurd (ground arith)
        | inl f ↦ elim (Bool-cases (is_aligned cal tf t)) [
          | inr g ↦ absurd (ground arith)
          | inl g ↦ (g, ground arith)
        ]
      ]
    ]

validate_bar_prices-IsSane :
    (bar : RawBar) (p : Prices)
    → finite_prices bar ≡ some p
    → has_errors (validate_bar_prices bar) ≡ false
    → IsSane p
unfolding validate_bar_prices
validate_bar_prices-IsSane bar p values h =
    validate_prices-IsSane (stamp_seconds bar.open_time) p
      (subst (λ o. has_errors (validate_prices (stamp_seconds bar.open_time) o) ≡ false) values h)

values_of-Delivered :
    (cal : Calendar) (symbol : Name) (tf : Timeframe) (bar : RawBar) (raw : List RawBar) (s : Stamp)
    (o : Option Prices)
    → Clean cal symbol tf bar
    → bar.open_time ≡ s
    → finite_prices bar ≡ o
    → All (OfAccepted cal tf (bar ∷ raw)) (values_of s o)
unfolding values_of
values_of-Delivered cal symbol tf bar raw (naive t) o clean stamp values = tt
values_of-Delivered cal symbol tf bar raw (aware t) none clean stamp values = tt
values_of-Delivered cal symbol tf bar raw (aware t) (some p) clean stamp values =
    let (aligned, valid) = screen_bar_passed cal symbol tf bar t clean stamp in
    (
      record {
        position = 0;
        bar = bar;
        found = refl;
        stamp = stamp;
        values = values;
        aligned = aligned;
        sane = validate_bar_prices-IsSane bar p values valid;
      },
      tt,
    )

accept_all-Delivered :
    (cal : Calendar) (symbol : Name) (tf : Timeframe) (raw : List RawBar)
    → All (OfAccepted cal tf raw) (accept_all cal symbol tf raw)
unfolding accept_all accept
accept_all-Delivered cal symbol tf [] = tt
accept_all-Delivered cal symbol tf (b ∷ bs) =
    let P = OfAccepted cal tf (b ∷ bs) in
    All-append P (accept cal symbol tf b) (accept_all cal symbol tf bs)
      (if_cases (All P) (has_errors (screen_bar cal symbol tf b)) []
        (values_of b.open_time (finite_prices b)) (λ bad. tt)
        (λ clean.
          values_of-Delivered cal symbol tf b bs b.open_time (finite_prices b) clean refl refl))
      (All-later cal tf b bs (accept_all cal symbol tf bs) (accept_all-Delivered cal symbol tf bs))

-- Groups at strictly ascending times, the first at `from` or later, each with values of the input.
abbrev Grouped : Calendar → Timeframe → List RawBar → ℕ → List Group → Type 0
Grouped cal tf raw from [] = Unit
Grouped cal tf raw from (g ∷ gs) =
    (from ≤ g.at) × Delivered cal tf raw g.at g.first × Grouped cal tf raw (suc g.at) gs

add_bar-Grouped :
    (cal : Calendar) (tf : Timeframe) (raw : List RawBar) (from : ℕ) (b : Accepted)
    (gs : List Group)
    → from ≤ b.at
    → OfAccepted cal tf raw b
    → Grouped cal tf raw from gs
    → Grouped cal tf raw from (add_bar b gs)
unfolding add_bar
add_bar-Grouped cal tf raw from b [] h d r = (h, d, tt)
add_bar-Grouped cal tf raw from b (g ∷ gs) h d r = elim (Bool-cases (ltb b.at g.at)) [
  | inl before ↦ rw before (h, d, (ltb→lt b.at g.at before, r.1, r.2))
  | inr k ↦ elim (Bool-cases (b.at == g.at)) [
    | inl same ↦ rw (k, same) r
    | inr after ↦
        rw (k, after) (r.0, r.1, add_bar-Grouped cal tf raw (suc g.at) b gs (ground arith) d r.2)
  ]
]

group_bars-Grouped :
    (cal : Calendar) (tf : Timeframe) (raw : List RawBar) (bars : List Accepted) (gs : List Group)
    → All (OfAccepted cal tf raw) bars
    → Grouped cal tf raw 0 gs
    → Grouped cal tf raw 0 (group_bars bars gs)
unfolding group_bars
group_bars-Grouped cal tf raw [] gs a r = r
group_bars-Grouped cal tf raw (b ∷ bars) gs a r =
    group_bars-Grouped cal tf raw bars (add_bar b gs) a.1
      (add_bar-Grouped cal tf raw 0 b gs (omega arith) a.0 r)

abbrev pub prices_of_candle : Candle → Prices
prices_of_candle c = record {
  opening = c.opening;
  high = c.high;
  low = c.low;
  close = c.close;
  volume = c.volume;
}

-- A candle of the feed at `now`: its values are those of a bar of the input.
pub record Normalized (cal : Calendar) (f : Feed) (now : ℕ) (raw : List RawBar) (q : DataQuality)
    (c : Candle) : Type 0 where
  pub delivered : Delivered cal f.timeframe raw c.open_time (prices_of_candle c)
  pub symbol : c.symbol ≡ upper f.symbol
  pub timeframe : c.timeframe ≡ f.timeframe
  pub source : c.source ≡ f.source
  pub close_time : c.close_time ≡ c.open_time + length_of f.timeframe
  pub closed : c.is_closed ≡ leb c.close_time now
  pub quality : c.data_quality ≡ q

module _ (cal : Calendar) (f : Feed) (now : ℕ) (raw : List RawBar) where
  -- Strictly ascending normalized candles, the first at `from` or later.
  abbrev pub Series : DataQuality → ℕ → List Candle → Type 0
  Series q from [] = Unit
  Series q from (c ∷ cs) =
      (from ≤ c.open_time) × Normalized cal f now raw q c × Series q (suc c.open_time) cs

  Series-mono :
      (q : DataQuality) (a b : ℕ) (cs : List Candle) → a ≤ b → Series q b cs → Series q a cs
  Series-mono q a b [] h s = tt
  Series-mono q a b (c ∷ cs) h s = (omega (arith, s.0), s.1, s.2)

  candle_of-Normalized :
      (g : Group)
      → Delivered cal f.timeframe raw g.at g.first
      → Normalized cal f now raw DataQuality.invalid (candle_of f now g)
  unfolding candle_of
  candle_of-Normalized g d = record {
    delivered = d;
    symbol = refl;
    timeframe = refl;
    source = refl;
    close_time = refl;
    closed = refl;
    quality = refl;
  }

  candles_of-Series :
      (from : ℕ) (gs : List Group)
      → Grouped cal f.timeframe raw from gs
      → Series DataQuality.invalid from (candles_of f now gs)
  unfolding candles_of candle_of
  candles_of-Series from [] r = tt
  candles_of-Series from (g ∷ gs) r =
      let rest = candles_of-Series (suc g.at) gs r.2 in
      if_both (Series DataQuality.invalid from) (is_conflict g) (candles_of f now gs)
        (candle_of f now g ∷ candles_of f now gs)
        (Series-mono DataQuality.invalid from (suc g.at) (candles_of f now gs) (omega (arith, r.0))
          rest)
        (r.0, candle_of-Normalized g r.1, rest)

  with_quality-Series :
      (p q : DataQuality) (from : ℕ) (cs : List Candle)
      → Series p from cs
      → Series q from (with_quality q cs)
  unfolding with_quality
  with_quality-Series p q from [] s = tt
  with_quality-Series p q from (c ∷ cs) s = (
    s.0,
    record {
      delivered = s.1.delivered;
      symbol = s.1.symbol;
      timeframe = s.1.timeframe;
      source = s.1.source;
      close_time = s.1.close_time;
      closed = s.1.closed;
      quality = refl;
    },
    with_quality-Series p q (suc c.open_time) cs s.2,
  )

pub finish-candles :
    (f : Feed) (cs : List Candle) (issues : List ValidationIssue) (o : Option DataQuality)
    (s : CandleSeries)
    → finish f cs issues o ≡ some s
    → (s.candles ≡ with_quality s.quality cs) × (s.issues ≡ issues) × (o ≡ some s.quality)
finish-candles f cs issues none s h = cc
finish-candles f cs issues (some q) s h =
    let e = some-injective h in
    subst
      (λ t.
        (t.candles ≡ with_quality t.quality cs) × (t.issues ≡ issues) × (some q ≡ some t.quality))
      e (refl, refl, refl)

classify_series-candles :
    (cal : Calendar) (cfg : Thresholds) (f : Feed) (now : ℕ) (raw : List RawBar)
    (accepted : List Accepted) (cs : List Candle) (o : Option (List ValidationIssue))
    (s : CandleSeries)
    → classify_series cal cfg f now raw accepted cs o ≡ some s
    → s.candles ≡ with_quality s.quality cs
classify_series-candles cal cfg f now raw accepted cs none s h = cc
classify_series-candles cal cfg f now raw accepted cs (some missing) s h =
    (finish-candles f cs _ _ s h).0

-- A series has the candles at strictly ascending times, on boundaries of its timeframe, each with the
-- values of a bar of the input that stands at that time, sane ones (positive, and bounded by the high
-- and the low), closed exactly when its close time has passed, and each of the series' quality.
pub build_series-Series :
    (cal : Calendar) (cfg : Thresholds) (f : Feed) (now : ℕ) (raw : List RawBar) (s : CandleSeries)
    → build_series cal cfg f now raw ≡ some s
    → Series cal f now raw s.quality 0 s.candles
unfolding build_series
build_series-Series cal cfg f now [] s h =
    subst (λ t. Series cal f now [] t.quality 0 t.candles) (some-injective h) tt
build_series-Series cal cfg f now (b ∷ bs) s h =
    let accepted = accept_all cal (upper f.symbol) f.timeframe (b ∷ bs) in
    let groups = group_bars accepted [] in
    let grouped : Grouped cal f.timeframe (b ∷ bs) 0 groups =
      group_bars-Grouped cal f.timeframe (b ∷ bs) accepted []
        (accept_all-Delivered cal (upper f.symbol) f.timeframe (b ∷ bs)) tt in
    let series = candles_of-Series cal f now (b ∷ bs) 0 groups grouped in
    let e =
      classify_series-candles cal cfg f now (b ∷ bs) accepted (candles_of f now groups)
        (detect_missing_bars cal f.asset_class (candles_of f now groups)) s h in
    subst (Series cal f now (b ∷ bs) s.quality 0) (sym e) (
      with_quality-Series cal f now (b ∷ bs) DataQuality.invalid s.quality 0
        (candles_of f now groups) series)
