-- ===== src/Setup/Samples.antt =====
-- A bullish setup at a concrete series, from the bias to the confirmed plan.
use ict_trading_claude.Prelude.{Bool, true, false, List, [], ◌∷◌}
use ict_trading_claude.Prelude.Int.{pos}
use ict_trading_claude.Domain.Enums.{
  BreakConfirmation, Direction, EntryMode, EntryModel, LiquidityEventType, LiquidityPoolType,
  LiquiditySide, PdArrayEventType, PdArrayType, QualifierStatus, StructureEventStatus,
  StructureEventType, StructureLevel, SwingKind, Timeframe, TrendDirection,
}
use ict_trading_claude.Domain.Candle.{Candle, Name}
use ict_trading_claude.Structure.Output.{StructureEvent}
use ict_trading_claude.Entry.{EntryConfig}
use ict_trading_claude.Setup.{Machine, SetupConfig}
use ict_trading_claude.Samples.{minute}

abbrev pub buyside : Name
buyside = b'B' ∷ []

abbrev pub sellside : Name
sellside = b'S' ∷ []

abbrev pub gap : Name
gap = b'F' ∷ []

abbrev is_sweep : LiquidityEventType → Bool
is_sweep LiquidityEventType.sweep = true
is_sweep _ = false

abbrev is_reversal : StructureEventType → Bool
is_reversal StructureEventType.bos = false
is_reversal _ = true

abbrev pub setup_config : SetupConfig
setup_config = record {
  forming_approach_atr = record { num = 1; den = 1 };
  sweep_event_types = is_sweep;
  significant_sweeps_only = true;
  chase_guard_after_touch_only = false;
  confirm_before_chase_guard = false;
  min_target_atr = record { num = 0; den = 1 };
  mss_break_types = is_reversal;
  mss_require_displacement = true;
  mss_window_bars = 16;
  zone_grace_bars = 3;
  retracement_approach_atr = record { num = 1; den = 2 };
  retracement_window_bars = 48;
  expire_at_trading_day_end = true;
  atr_period = 14;
}

abbrev pub entry_config : EntryConfig
entry_config = record {
  mode = EntryMode.standard;
  models = EntryModel.m15_close ∷ [];
  min_rr = record { num = 2; den = 1 };
  execution_step = 60;
  ltf_break_types = [];
  confirmation_window_bars = 8;
  stop_buffer_atr = record { num = 1; den = 10 };
  min_tp1_atr = record { num = 1; den = 1 };
  target_distinct_atr = record { num = 1; den = 4 };
  include_confirmed_ifvg = false;
}

-- The sweep of the low at 100, the break, the touch of the gap and the close beyond it.
abbrev pub setup_candles : List Candle
setup_candles =
    minute 0 110 112 108 110
    ∷ minute 60 110 111 98 105
    ∷ minute 120 105 125 104 122
    ∷ minute 180 122 123 114 116
    ∷ minute 240 116 121 115 120
    ∷ []

abbrev reversal : StructureEvent
reversal = record {
  id = record {
    level = StructureLevel.internal;
    index = 2;
    type = StructureEventType.mss;
    direction = Direction.bullish;
    status = StructureEventStatus.confirmed;
    swing_kind = SwingKind.high;
    swing_index = 0;
  };
  level = StructureLevel.internal;
  type = StructureEventType.mss;
  direction = Direction.bullish;
  status = StructureEventStatus.confirmed;
  confirmation = BreakConfirmation.candle_close;
  price = pos 112;
  time = 120;
  broken_swing_id = record { level = StructureLevel.internal; kind = SwingKind.high; time = 0 };
  broken_swing_time = 0;
  trend_before = TrendDirection.bearish;
  ambiguous = false;
  liquidity_qualifier = QualifierStatus.present;
  displacement_qualifier = QualifierStatus.present;
}

abbrev pub machine : Machine
machine = record {
  candles = setup_candles;
  cfg = setup_config;
  ecfg = entry_config;
  trading_day_of = λ t. 1;
  structure_events = reversal ∷ [];
  pools =
      record {
        id = buyside;
        type = LiquidityPoolType.pdh;
        side = LiquiditySide.bsl;
        label = buyside;
        price = pos 200;
        known_at = 0;
      }
      ∷ record {
        id = sellside;
        type = LiquidityPoolType.pdl;
        side = LiquiditySide.ssl;
        label = sellside;
        price = pos 100;
        known_at = 0;
      }
      ∷ [];
  liquidity_events =
      record {
        pool_id = sellside;
        pool_type = LiquidityPoolType.pdl;
        side = LiquiditySide.ssl;
        type = LiquidityEventType.sweep;
        time = 60;
        extreme = pos 98;
      }
      ∷ [];
  pd_zones =
      record {
        id = gap;
        type = PdArrayType.fvg;
        direction = Direction.bullish;
        top = pos 115;
        bottom = pos 108;
      }
      ∷ [];
  pd_events = record { zone_id = gap; type = PdArrayEventType.created; time = 120 } ∷ [];
  bias_points =
      record {
        timeframe = Timeframe.h4;
        direction = Direction.bullish;
        known_at = 0;
        event_id = reversal.id;
      }
      ∷ [];
  bias_timeframes = Timeframe.h4 ∷ [];
  no_wick_events = [];
  ltf_candles = [];
  ltf_breaks = [];
}
