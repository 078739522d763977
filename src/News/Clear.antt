-- ===== src/News/Clear.antt =====
-- What it takes for services/news/engine.py to report no blocker.
use mathlib.Core.Path.{subst}
use ict_trading_claude.Prelude.{
  ℕ, ◌+◌, ◌-◌, ◌*◌, ◌≤◌, ◌<◌, ◌≡◌, ◌⊎◌, refl, inl, inr, Bool, true, false, Option, none, some, List,
  [], ◌∷◌, ◌++◌, All, filter, any, sort_by, insert_by, arith, ltb, leb, ◌==◌, Bool-cases,
}
use ict_trading_claude.Domain.Enums.{NewsState}
use ict_trading_claude.Domain.Decision.{Instrument}
use ict_trading_claude.Facts.{id_eq}
use ict_trading_claude.News.{
  ImportanceWindow, NewsConfig, EconomicEvent, CalendarSnapshot, windows_of, relevant_currencies,
  window_in, is_cancelled, blackout_end, post_end, inside, state_in, state_with, event_state,
  severity, worst_state, lookback, coverage_problem, CoverageProblem, relevant_events,
  state_blockers, synthetic_blockers, states_of, available_news, assess_covered, assess_news,
}

-- What holds of the sorted holds of all.
insert_by-All :
    {A : Type 0} (P : A → Type 0) (le : A → A → Bool) (x : A) (xs : List A)
    → All P (insert_by le x xs)
    → P x × All P xs
insert_by-All P le x [] h = (h.0, tt)
insert_by-All P le x (y ∷ ys) h = elim (Bool-cases (le x y)) [
  | inl first ↦ let all : All P (x ∷ y ∷ ys) = rw first at h in (all.0, all.1)
  | inr later ↦
      let all : All P (y ∷ insert_by le x ys) = rw later at h in
      let rest = insert_by-All P le x ys all.1 in (rest.0, (all.0, rest.1))
]

sort_by-All :
    {A : Type 0} (P : A → Type 0) (le : A → A → Bool) (xs : List A)
    → All P (sort_by le xs)
    → All P xs
sort_by-All P le [] h = tt
sort_by-All P le (x ∷ xs) h =
    let (first, rest) = insert_by-All P le x (sort_by le xs) h in (first, sort_by-All P le xs rest)

filter-All :
    {A : Type 0} (P : A → Type 0) (p : A → Bool) (xs : List A)
    → All P (filter p xs)
    → All (λ x. p x ≡ true → P x) xs
filter-All P p [] h = tt
filter-All P p (x ∷ xs) h = elim (Bool-cases (p x)) [
  | inl kept ↦
      let all : All P (x ∷ filter p xs) = rw kept at h in ((λ e. all.0), filter-All P p xs all.1)
  | inr left ↦ let all : All P (filter p xs) = rw left at h in ((λ e. cc), filter-All P p xs all)
]

-- Neither a blackout nor the wait after one.
abbrev IsCalm : NewsState → Type 0
IsCalm s = severity s ≤ 2

worst_state-IsCalm :
    (s : NewsState) (ts : List NewsState) → IsCalm (worst_state s ts) → IsCalm s × All IsCalm ts
unfolding worst_state
worst_state-IsCalm s [] h = (h, tt)
worst_state-IsCalm s (t ∷ ts) h = elim (Bool-cases (ltb (severity s) (severity t))) [
  | inl worse ↦
      let more : IsCalm (worst_state t ts) = rw worse at h in
      let (calm, rest) = worst_state-IsCalm t ts more in (ground arith, (calm, rest))
  | inr better ↦
      let more : IsCalm (worst_state s ts) = rw better at h in
      let (calm, rest) = worst_state-IsCalm s ts more in (calm, (ground arith, rest))
]

states_of-IsCalm :
    (es : List EconomicEvent) (now : ℕ) (cfg : NewsConfig)
    → All IsCalm (states_of es now cfg)
    → All (λ e. IsCalm (event_state e now cfg)) es
unfolding states_of
states_of-IsCalm [] now cfg h = tt
states_of-IsCalm (e ∷ es) now cfg h = (h.0, states_of-IsCalm es now cfg h.1)

-- Before the blackout of an event, or at or after the end of the wait that follows it.
abbrev pub IsOutside : EconomicEvent → ImportanceWindow → ℕ → NewsConfig → Type 0
IsOutside e w now cfg = (now < e.scheduled_time - w.blackout_before * 60) ⊎ (post_end e w cfg ≤ now)

outside_both :
    (a b c now : ℕ) → inside a b now ≡ false → inside b c now ≡ false → (now < a) ⊎ (c ≤ now)
unfolding inside
outside_both a b c now h k = elim (Bool-cases (ltb now a)) [
  | inl before ↦ inl (ground arith)
  | inr after ↦ inr (ground arith)
]

state_in-IsOutside :
    (e : EconomicEvent) (w : ImportanceWindow) (now : ℕ) (cfg : NewsConfig)
    → 0 < w.blackout_before + w.blackout_after
    → IsCalm (state_in e w now cfg)
    → IsOutside e w now cfg
unfolding state_in severity
state_in-IsOutside e w now cfg blacks calm =
    let start = e.scheduled_time - w.blackout_before * 60 in
    let some_blackout : (w.blackout_before + w.blackout_after == 0) ≡ false = ground arith in
    elim (Bool-cases (inside start (blackout_end e w cfg) now)) [
      | inl black ↦
          let bad : IsCalm NewsState.blackout = rw (some_blackout, black) at calm in
          absurd (omega arith)
      | inr free ↦ elim (Bool-cases (inside (blackout_end e w cfg) (post_end e w cfg) now)) [
        | inl wait ↦
            let bad : IsCalm NewsState.post_news_wait = rw (some_blackout, free, wait) at calm in
            absurd (omega arith)
        | inr over ↦ outside_both start (blackout_end e w cfg) (post_end e w cfg) now free over
      ]
    ]

-- An event with a blackout, that is not cancelled, is not near.
abbrev pub IsAway : ℕ → NewsConfig → EconomicEvent → Type 0
IsAway now cfg e =
    (w : ImportanceWindow)
    → is_cancelled e.status ≡ false
    → window_in (windows_of cfg) e.importance ≡ some w
    → 0 < w.blackout_before + w.blackout_after
    → IsOutside e w now cfg

event_state-IsAway :
    (e : EconomicEvent) (now : ℕ) (cfg : NewsConfig)
    → IsCalm (event_state e now cfg)
    → IsAway now cfg e
unfolding event_state
event_state-IsAway e now cfg calm w going given blacks =
    let with_window : IsCalm (state_with e (window_in (windows_of cfg) e.importance) now cfg) =
      rw going at calm in
    state_in-IsOutside e w now cfg blacks
      (subst (λ o. IsCalm (state_with e o now cfg)) given with_window)

All-IsAway :
    (es : List EconomicEvent) (now : ℕ) (cfg : NewsConfig)
    → All (λ e. IsCalm (event_state e now cfg)) es
    → All (IsAway now cfg) es
All-IsAway [] now cfg h = tt
All-IsAway (e ∷ es) now cfg h = (event_state-IsAway e now cfg h.0, All-IsAway es now cfg h.1)

-- A calendar that proves the news clear: it is real, fresh and covers the times around now, and every event
-- of a currency that counts is away.
pub record IsProven (i : Instrument) (now : ℕ) (s : CalendarSnapshot) (cfg : NewsConfig)
    : Type 0 where
  pub is_real : s.is_synthetic ≡ false
  pub is_fresh : now ≤ s.fetched_at + cfg.calendar_max_age
  pub covers_next : now + cfg.required_lookahead ≤ s.coverage_end
  pub covers_past : s.coverage_start + lookback cfg ≤ now
  pub away :
      All
        (λ e. any (id_eq e.currency) (relevant_currencies i cfg) ≡ true → IsAway now cfg e)
        s.events

coverage_problem-none :
    (s : CalendarSnapshot) (now : ℕ) (cfg : NewsConfig)
    → coverage_problem s now cfg ≡ none
    → (now ≤ s.fetched_at + cfg.calendar_max_age)
      × (now + cfg.required_lookahead ≤ s.coverage_end)
      × (s.coverage_start + lookback cfg ≤ now)
unfolding coverage_problem
coverage_problem-none s now cfg h = (ground arith, ground arith, ground arith)

no_blockers :
    (st : NewsState) (b : Bool)
    → state_blockers st ++ synthetic_blockers b ≡ []
    → (b ≡ false) × IsCalm st
unfolding severity
no_blockers NewsState.blackout b h = cc
no_blockers NewsState.post_news_wait b h = cc
no_blockers NewsState.clear true h = cc
no_blockers NewsState.clear false h = (refl, omega arith)
no_blockers NewsState.caution true h = cc
no_blockers NewsState.caution false h = (refl, omega arith)
no_blockers NewsState.normalized true h = cc
no_blockers NewsState.normalized false h = (refl, omega arith)
no_blockers NewsState.unavailable true h = cc
no_blockers NewsState.unavailable false h = (refl, omega arith)

available_news-IsProven :
    (i : Instrument) (now : ℕ) (s : CalendarSnapshot) (cfg : NewsConfig)
    → coverage_problem s now cfg ≡ none
    → (available_news i s now cfg).blockers ≡ []
    → IsProven i now s cfg
unfolding available_news relevant_events
available_news-IsProven i now s cfg covered h =
    let counts = λ (e : EconomicEvent). any (id_eq e.currency) (relevant_currencies i cfg) in
    let earlier = λ (e f : EconomicEvent). leb e.scheduled_time f.scheduled_time in
    let events = sort_by earlier (filter counts s.events) in
    let (real, calm) =
      no_blockers (worst_state NewsState.clear (states_of events now cfg)) s.is_synthetic h in
    let each =
      states_of-IsCalm events now cfg
        (worst_state-IsCalm NewsState.clear (states_of events now cfg) calm).1 in
    let (fresh, next, past) = coverage_problem-none s now cfg covered in
    record {
      is_real = real;
      is_fresh = fresh;
      covers_next = next;
      covers_past = past;
      away = filter-All (IsAway now cfg) counts s.events (
          sort_by-All (IsAway now cfg) earlier (filter counts s.events)
            (All-IsAway events now cfg each));
    }

covered-IsProven :
    (i : Instrument) (now : ℕ) (s : CalendarSnapshot) (cfg : NewsConfig)
    (o : Option CoverageProblem)
    → coverage_problem s now cfg ≡ o
    → (assess_covered i now s cfg o).blockers ≡ []
    → IsProven i now s cfg
covered-IsProven i now s cfg none c h = available_news-IsProven i now s cfg c h
covered-IsProven i now s cfg (some problem) c h = cc

-- News without a blocker is proven clear: there is a calendar, which is not synthetic, is fresh and covers
-- the times around now; and every event in it of a currency that counts for the instrument, which is
-- not cancelled and whose importance has a blackout, has its blackout still to come or the wait after it
-- behind it.
pub assess_news-IsProven :
    (i : Instrument) (now : ℕ) (o : Option CalendarSnapshot) (cfg : NewsConfig)
    → (assess_news i now o cfg).blockers ≡ []
    → (s : CalendarSnapshot) × (o ≡ some s) × IsProven i now s cfg
unfolding assess_news
assess_news-IsProven i now none cfg h = cc
assess_news-IsProven i now (some s) cfg h =
    (s, refl, covered-IsProven i now s cfg (coverage_problem s now cfg) refl h)
