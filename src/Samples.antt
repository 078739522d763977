-- ===== src/Samples.antt =====
-- Candles, bars and a calendar for the tests of the other modules.
use ict_trading_claude.Prelude.{ℕ, ◌+◌, ◌-◌, true, none, some, [], ◌∷◌}
use ict_trading_claude.Prelude.Int.{pos}
use ict_trading_claude.Domain.Enums.{DataQuality, Timeframe}
use ict_trading_claude.Domain.Candle.{Candle, Name, RawBar, finite, aware}
use ict_trading_claude.Hours.{Zone, WeeklyHours, Calendar}

abbrev pub xauusd : Name
xauusd = b'X' ∷ b'A' ∷ b'U' ∷ b'U' ∷ b'S' ∷ b'D' ∷ []

-- A closed one-minute candle.
abbrev pub minute : ℕ → ℕ → ℕ → ℕ → ℕ → Candle
minute t o h l c = record {
  symbol = xauusd;
  timeframe = Timeframe.m1;
  open_time = t;
  close_time = t + 60;
  opening = pos o;
  high = pos h;
  low = pos l;
  close = pos c;
  volume = none;
  source = xauusd;
  is_closed = true;
  data_quality = DataQuality.current;
}

-- A one-minute bar as a provider delivers it.
abbrev pub minute_bar : ℕ → ℕ → ℕ → ℕ → ℕ → RawBar
minute_bar t o h l c = record {
  symbol = xauusd;
  timeframe = Timeframe.m1;
  open_time = aware t;
  opening = finite (pos o);
  high = finite (pos h);
  low = finite (pos l);
  close = finite (pos c);
  volume = none;
}

-- Five hours behind UTC, the whole year.
abbrev pub standard_time : Zone
standard_time = record { to_local = λ t. t - 18000; to_utc = λ t. t + 18000 }

abbrev pub hours : WeeklyHours
hours = record {
  open_weekday = 6;
  open_time = 64800;
  close_weekday = 4;
  close_time = 61200;
  break_start = some 61200;
  break_end = some 64800;
}

abbrev pub calendar : Calendar
calendar = record { zone = standard_time; weekly_hours = λ asset. hours }
