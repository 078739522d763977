-- ===== src/News.antt =====
-- The news gate: services/news/engine.py and services/news/models.py. The views of single events are
-- not modelled. A dictionary of windows is the list of its items, which is not empty.
pub mod Clear
mod Tests
use ict_trading_claude.Prelude.{
  ℕ, ◌+◌, ◌-◌, ◌*◌, Bool, true, false, not, ◌&&◌, ◌||◌, Option, none, some, List, [], ◌∷◌, ◌++◌,
  filter, any, sort_by, ltb, leb, ◌==◌, if◌then◌else◌,
}
use ict_trading_claude.Domain.Enums.{AssetClass, EventImportance, EventStatus, NewsState}
use ict_trading_claude.Domain.Blockers.{
  Blocker, news_blackout, news_post_wait, news_data_unavailable, news_data_synthetic,
}
use ict_trading_claude.Domain.Candle.{Name}
use ict_trading_claude.Domain.Decision.{Instrument}
use ict_trading_claude.Facts.{id_eq}

-- In minutes.
pub record ImportanceWindow : Type 0 where
  pub blackout_before : ℕ
  pub blackout_after : ℕ
  pub post_wait : ℕ
  pub caution_lead : ℕ

abbrev pub Windows : Type 0
Windows = List (EventImportance × ImportanceWindow)

-- The rule of an asset class is whether the base currency counts beside the quote.
pub record NewsConfig : Type 0 where
  pub counts_base : AssetClass → Bool
  pub first_window : EventImportance × ImportanceWindow
  pub more_windows : Windows
  pub normalized_minutes : ℕ
  pub delayed_max_minutes : ℕ
  pub calendar_max_age : ℕ
  pub required_lookahead : ℕ

pub record EconomicEvent : Type 0 where
  pub currency : Name
  pub scheduled_time : ℕ
  pub importance : EventImportance
  pub status : Option EventStatus

pub record CalendarSnapshot : Type 0 where
  pub is_synthetic : Bool
  pub fetched_at : ℕ
  pub coverage_start : ℕ
  pub coverage_end : ℕ
  pub events : List EconomicEvent

abbrev pub windows_of : NewsConfig → Windows
windows_of cfg = cfg.first_window ∷ cfg.more_windows

unfoldable pub relevant_currencies : Instrument → NewsConfig → List Name
relevant_currencies i cfg =
    if cfg.counts_base i.asset_class then i.base ∷ i.quote ∷ [] else i.quote ∷ []

abbrev pub importance_eq : EventImportance → EventImportance → Bool
importance_eq EventImportance.low EventImportance.low = true
importance_eq EventImportance.medium EventImportance.medium = true
importance_eq EventImportance.high EventImportance.high = true
importance_eq EventImportance.extreme EventImportance.extreme = true
importance_eq _ _ = false

unfoldable pub window_in : Windows → EventImportance → Option ImportanceWindow
window_in [] i = none
window_in ((j, w) ∷ ws) i = let rest = window_in ws i in if importance_eq j i then some w else rest

abbrev pub is_delayed : Option EventStatus → Bool
is_delayed (some EventStatus.delayed) = true
is_delayed _ = false

abbrev pub is_cancelled : Option EventStatus → Bool
is_cancelled (some EventStatus.cancelled) = true
is_cancelled _ = false

-- The end of the blackout, and of the wait after it.
unfoldable pub blackout_end : EconomicEvent → ImportanceWindow → NewsConfig → ℕ
blackout_end e w cfg =
    e.scheduled_time
    + (if is_delayed e.status then cfg.delayed_max_minutes else w.blackout_after) * 60

unfoldable pub post_end : EconomicEvent → ImportanceWindow → NewsConfig → ℕ
post_end e w cfg = blackout_end e w cfg + w.post_wait * 60

unfoldable pub inside : ℕ → ℕ → ℕ → Bool
inside start finish now = leb start now && ltb now finish

-- The first window of `windows_for` that the instant lies in.
unfoldable pub state_in : EconomicEvent → ImportanceWindow → ℕ → NewsConfig → NewsState
state_in e w now cfg =
    let t = e.scheduled_time in
    let start = t - w.blackout_before * 60 in
    let caution_from = t - w.caution_lead * 60 in
    let settled = post_end e w cfg + cfg.normalized_minutes * 60 in
    if w.blackout_before + w.blackout_after == 0
    then (if inside caution_from (t + w.caution_lead * 60) now
        then NewsState.caution
        else NewsState.clear)
    else if inside start (blackout_end e w cfg) now
    then NewsState.blackout
    else if inside (blackout_end e w cfg) (post_end e w cfg) now
    then NewsState.post_news_wait
    else if inside caution_from start now
    then NewsState.caution
    else if inside (post_end e w cfg) settled now
    then NewsState.normalized
    else NewsState.clear

abbrev pub state_with : EconomicEvent → Option ImportanceWindow → ℕ → NewsConfig → NewsState
state_with e none now cfg = NewsState.clear
state_with e (some w) now cfg = state_in e w now cfg

-- The state of `event_state`; a cancelled event is clear.
unfoldable pub event_state : EconomicEvent → ℕ → NewsConfig → NewsState
event_state e now cfg =
    if is_cancelled e.status
    then NewsState.clear
    else state_with e (window_in (windows_of cfg) e.importance) now cfg

-- `SEVERITY.index`. UNAVAILABLE is not in the list, and no event has it.
unfoldable pub severity : NewsState → ℕ
severity NewsState.clear = 0
severity NewsState.normalized = 1
severity NewsState.caution = 2
severity NewsState.post_news_wait = 3
severity NewsState.blackout = 4
severity NewsState.unavailable = 0

-- The loop of `assess` over the relevant events.
unfoldable pub worst_state : NewsState → List NewsState → NewsState
worst_state s [] = s
worst_state s (t ∷ ts) = worst_state (if ltb (severity s) (severity t) then t else s) ts

unfoldable pub longest : Windows → ℕ
longest [] = 0
longest ((i, w) ∷ ws) =
    let minutes = w.blackout_after + w.post_wait + w.caution_lead in
    let rest = longest ws in if ltb minutes rest then rest else minutes

-- How far back the calendar has to reach.
unfoldable pub lookback : NewsConfig → ℕ
lookback cfg = (longest (windows_of cfg) + cfg.delayed_max_minutes + cfg.normalized_minutes) * 60

pub data CoverageProblem : Type 0 where
  too_old in_the_future no_lookahead no_lookback : CoverageProblem

unfoldable pub coverage_problem : CalendarSnapshot → ℕ → NewsConfig → Option CoverageProblem
coverage_problem s now cfg =
    if ltb (s.fetched_at + cfg.calendar_max_age) now
    then some too_old
    else if ltb (now + 300) s.fetched_at
    then some in_the_future
    else if ltb s.coverage_end (now + cfg.required_lookahead)
    then some no_lookahead
    else if ltb now (s.coverage_start + lookback cfg)
    then some no_lookback
    else none

-- Of `NewsAssessment`, the state and the blockers.
pub record NewsAssessment : Type 0 where
  pub state : NewsState
  pub blockers : List Blocker

unfoldable pub relevant_events : Instrument → CalendarSnapshot → NewsConfig → List EconomicEvent
relevant_events i s cfg =
    sort_by (λ e f. leb e.scheduled_time f.scheduled_time)
      (filter (λ e. any (id_eq e.currency) (relevant_currencies i cfg)) s.events)

abbrev pub state_blockers : NewsState → List Blocker
state_blockers NewsState.blackout = news_blackout ∷ []
state_blockers NewsState.post_news_wait = news_post_wait ∷ []
state_blockers _ = []

abbrev pub synthetic_blockers : Bool → List Blocker
synthetic_blockers true = news_data_synthetic ∷ []
synthetic_blockers false = []

unfoldable pub states_of : List EconomicEvent → ℕ → NewsConfig → List NewsState
states_of [] now cfg = []
states_of (e ∷ es) now cfg = event_state e now cfg ∷ states_of es now cfg

abbrev pub unavailable_news : NewsAssessment
unavailable_news = record { state = NewsState.unavailable; blockers = news_data_unavailable ∷ [] }

unfoldable pub available_news : Instrument → CalendarSnapshot → ℕ → NewsConfig → NewsAssessment
available_news i s now cfg =
    let state = worst_state NewsState.clear (states_of (relevant_events i s cfg) now cfg) in
    record { state = state; blockers = state_blockers state ++ synthetic_blockers s.is_synthetic }

abbrev pub assess_covered :
    Instrument → ℕ → CalendarSnapshot → NewsConfig → Option CoverageProblem → NewsAssessment
assess_covered i now s cfg none = available_news i s now cfg
assess_covered i now s cfg (some problem) = unavailable_news

-- `assess`.
unfoldable pub assess_news : Instrument → ℕ → Option CalendarSnapshot → NewsConfig → NewsAssessment
assess_news i now none cfg = unavailable_news
assess_news i now (some s) cfg = assess_covered i now s cfg (coverage_problem s now cfg)
