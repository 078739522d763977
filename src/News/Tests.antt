-- ===== src/News/Tests.antt =====
-- The news gate at a concrete calendar.
use ict_trading_claude.Prelude.{ℕ, ◌≡◌, refl, true, false, none, some, List, [], ◌∷◌}
use ict_trading_claude.Domain.Enums.{AssetClass, EventImportance}
use ict_trading_claude.Domain.Blockers.{Blocker, news_blackout}
use ict_trading_claude.Domain.Candle.{Name}
use ict_trading_claude.Domain.Decision.{Instrument}
use ict_trading_claude.Facts.{id_eq}
use ict_trading_claude.News.{
  NewsConfig, CalendarSnapshot, assess_news, coverage_problem, lookback, longest, available_news,
  relevant_events, relevant_currencies, states_of, event_state, window_in, state_in, inside,
  blackout_end, post_end, worst_state, severity,
}
use ict_trading_claude.News.Clear.{IsProven, assess_news-IsProven}
use ict_trading_claude.Samples.{xauusd}

abbrev usd : Name
usd = b'U' ∷ b'S' ∷ b'D' ∷ []

abbrev gold : Instrument
gold = record {
  symbol = xauusd;
  asset_class = AssetClass.metal;
  base = b'X' ∷ b'A' ∷ b'U' ∷ [];
  quote = usd;
  price_precision = 2;
  priority = 1;
  deeply_validated = true;
  spec = none;
}

abbrev config : NewsConfig
config = record {
  counts_base = λ asset. false;
  first_window = (
    EventImportance.high,
    record { blackout_before = 30; blackout_after = 15; post_wait = 15; caution_lead = 60 },
  );
  more_windows = [];
  normalized_minutes = 60;
  delayed_max_minutes = 120;
  calendar_max_age = 86400;
  required_lookahead = 43200;
}

-- One event, at 500000.
abbrev calendar : CalendarSnapshot
calendar = record {
  is_synthetic = false;
  fetched_at = 490000;
  coverage_start = 400000;
  coverage_end = 600000;
  events =
      record {
        currency = usd;
        scheduled_time = 500000;
        importance = EventImportance.high;
        status = none;
      }
      ∷ [];
}

abbrev at : ℕ → List Blocker
at now = (assess_news gold now (some calendar) config).blockers

-- Half an hour before and half an hour after.
blackout_then_clear : (at 498200 ≡ news_blackout ∷ []) × (at 498199 ≡ []) × (at 501800 ≡ [])
unfolding assess_news coverage_problem lookback longest available_news relevant_events
    relevant_currencies states_of event_state window_in state_in inside blackout_end post_end
    worst_state severity id_eq
blackout_then_clear = (refl, refl, refl)

assess_news-IsProven_example :
    (s : CalendarSnapshot) × (some calendar ≡ some s) × IsProven gold 501800 s config
assess_news-IsProven_example =
    assess_news-IsProven gold 501800 (some calendar) config blackout_then_clear.2
