-- ===== src/Domain/Enums.antt =====
-- The canonical enums of domain/enums.py, as far as the modelled services use them. `timedelta`s are
-- numbers of seconds.
use ict_trading_claude.Prelude.{ℕ, ◌*◌, String, Bool, true, false, ◌||◌, Option, some}
use ict_trading_claude.Prelude.{List, [], ◌∷◌}

pub data Verdict : Type 0 where
  long short wait no_trade unavailable : Verdict

pub data DecisionConfidence : Type 0 where
  low moderate high very_high : DecisionConfidence

pub data DataQuality : Type 0 where
  live current delayed stale disconnected invalid : DataQuality

pub data Timeframe : Type 0 where
  m1 m3 m5 m15 m30 h1 h4 d1 w1 mn1 : Timeframe

-- `self in _FIXED_INTRADAY`.
abbrev pub is_fixed_intraday : Timeframe → Bool
is_fixed_intraday Timeframe.m1 = true
is_fixed_intraday Timeframe.m3 = true
is_fixed_intraday Timeframe.m5 = true
is_fixed_intraday Timeframe.m15 = true
is_fixed_intraday Timeframe.m30 = true
is_fixed_intraday Timeframe.h1 = true
is_fixed_intraday _ = false

abbrev pub is_trading_day_anchored : Timeframe → Bool
is_trading_day_anchored Timeframe.h4 = true
is_trading_day_anchored Timeframe.d1 = true
is_trading_day_anchored _ = false

abbrev pub is_trading_week_anchored : Timeframe → Bool
is_trading_week_anchored Timeframe.w1 = true
is_trading_week_anchored _ = false

abbrev pub is_engine_supported : Timeframe → Bool
is_engine_supported t =
    is_fixed_intraday t || is_trading_day_anchored t || is_trading_week_anchored t

-- `Timeframe.duration`: `none` is the ValueError that MN1 raises.
abbrev pub duration : Timeframe → Option ℕ
duration Timeframe.m1 = some 60
duration Timeframe.m3 = some 180
duration Timeframe.m5 = some 300
duration Timeframe.m15 = some 900
duration Timeframe.m30 = some 1800
duration Timeframe.h1 = some 3600
duration Timeframe.h4 = some (4 * 3600)
duration Timeframe.d1 = some 86400
duration Timeframe.w1 = some (7 * 86400)
duration Timeframe.mn1 = Option.none

pub data AssetClass : Type 0 where
  metal fx_major fx_cross : AssetClass

pub data MarketStatus : Type 0 where
  opened closed daily_break unknown : MarketStatus

pub data IssueSeverity : Type 0 where
  warning error : IssueSeverity

pub data ValidationIssueCode : Type 0 where
  non_utc_timestamp misaligned_open_time non_positive_price non_finite_value impossible_ohlc
        zero_range negative_volume duplicate_identical duplicate_conflict out_of_order missing_bars
        suspect_bad_tick crossed_quote wide_spread provider_disagreement symbol_mismatch
        timeframe_mismatch empty_series incomplete_bucket :
      ValidationIssueCode

pub data StructureState : Type 0 where
  bullish bearish ranging transitioning unclear : StructureState

-- `absent` is the source's NONE.
pub data TrendDirection : Type 0 where
  bullish bearish absent : TrendDirection

pub data Direction : Type 0 where
  bullish bearish : Direction

pub data StructureLevel : Type 0 where
  internal external : StructureLevel

pub data SwingKind : Type 0 where
  high low : SwingKind

-- `unlabelled` is the source's NONE.
pub data SwingLabel : Type 0 where
  hh hl lh ll eh el unlabelled : SwingLabel

pub data StructureEventType : Type 0 where
  bos choch mss : StructureEventType

pub data StructureEventStatus : Type 0 where
  confirmed potential : StructureEventStatus

pub data BreakConfirmation : Type 0 where
  candle_close wick_only : BreakConfirmation

pub data QualifierStatus : Type 0 where
  not_evaluated present absent : QualifierStatus

pub data MtfAlignment : Type 0 where
  aligned_bullish aligned_bearish mixed unclear : MtfAlignment

pub data SetupState : Type 0 where
  discovered watch setup_forming liquidity_event waiting_for_mss rebalance_watch rebalance_touch
        reaction confirmation setup_armed waiting_for_retracement entry_zone_approaching
        entry_zone_touched waiting_for_confirmation long_ready short_ready entry_missed invalidated
        expired blocked active closed :
      SetupState

-- The string value of a `SetupState`.
abbrev pub setup_state_value : SetupState → String
setup_state_value SetupState.discovered = "DISCOVERED"
setup_state_value SetupState.watch = "WATCH"
setup_state_value SetupState.setup_forming = "SETUP_FORMING"
setup_state_value SetupState.liquidity_event = "LIQUIDITY_EVENT"
setup_state_value SetupState.waiting_for_mss = "WAITING_FOR_MSS"
setup_state_value SetupState.rebalance_watch = "REBALANCE_WATCH"
setup_state_value SetupState.rebalance_touch = "REBALANCE_TOUCH"
setup_state_value SetupState.reaction = "REACTION"
setup_state_value SetupState.confirmation = "CONFIRMATION"
setup_state_value SetupState.setup_armed = "SETUP_ARMED"
setup_state_value SetupState.waiting_for_retracement = "WAITING_FOR_RETRACEMENT"
setup_state_value SetupState.entry_zone_approaching = "ENTRY_ZONE_APPROACHING"
setup_state_value SetupState.entry_zone_touched = "ENTRY_ZONE_TOUCHED"
setup_state_value SetupState.waiting_for_confirmation = "WAITING_FOR_CONFIRMATION"
setup_state_value SetupState.long_ready = "LONG_READY"
setup_state_value SetupState.short_ready = "SHORT_READY"
setup_state_value SetupState.entry_missed = "ENTRY_MISSED"
setup_state_value SetupState.invalidated = "INVALIDATED"
setup_state_value SetupState.expired = "EXPIRED"
setup_state_value SetupState.blocked = "BLOCKED"
setup_state_value SetupState.active = "ACTIVE"
setup_state_value SetupState.closed = "CLOSED"

-- `AUTHORITY_SETUP_STATES`: the states that would claim trade authority.
abbrev pub authority_setup_states : List SetupState
authority_setup_states =
    SetupState.long_ready ∷ SetupState.short_ready ∷ SetupState.active ∷ SetupState.closed ∷ []

pub data ExitReason : Type 0 where
  target stop break_even_stop manual invalidation news trailing_stop : ExitReason

pub data PaperEntryType : Type 0 where
  market limit : PaperEntryType

pub data PaperStatus : Type 0 where
  pending opened closed expired cancelled : PaperStatus

pub data PaperEventType : Type 0 where
  created filled stop_hit target_hit closed_manually expired cancelled : PaperEventType

pub data QuizQuestionType : Type 0 where
  next_bars_direction level_first setup_progress : QuizQuestionType

pub data QuizGrade : Type 0 where
  correct incorrect void : QuizGrade

pub data HtfBias : Type 0 where
  bullish bearish ranging transitioning mixed unclear unknown : HtfBias

-- As far as the structure analysis gives them.
pub data AnalysisIneligibility : Type 0 where
  data_synthetic data_stale data_invalid data_disconnected insufficient_candles :
      AnalysisIneligibility

pub data LiquiditySide : Type 0 where
  bsl ssl : LiquiditySide

pub data LiquidityPoolType : Type 0 where
  swing_high swing_low eqh eql pdh pdl pwh pwl asia_high asia_low london_high london_low ny_am_high
        ny_am_low ny_pm_high ny_pm_low :
      LiquidityPoolType

pub data LiquidityEventType : Type 0 where
  touch sweep break run reclaim sweep_failed : LiquidityEventType

pub data PdArrayType : Type 0 where
  fvg ifvg imr reversal_fvg : PdArrayType

pub data PdArrayEventType : Type 0 where
  created touched partial_fill half_fill full_fill invalidated ifvg_potential ifvg_confirmed
        ifvg_failed imr_created reversal_fvg_created :
      PdArrayEventType

pub data NoWickStrength : Type 0 where
  insignificant meaningful strong exceptional : NoWickStrength

pub data EntryModel : Type 0 where
  conservative_retest m15_close ltf_refinement no_wick_rebalance breaker ifvg limit_research :
      EntryModel

pub data EntryMode : Type 0 where
  conservative standard aggressive : EntryMode

abbrev pub direction_eq : Direction → Direction → Bool
direction_eq Direction.bullish Direction.bullish = true
direction_eq Direction.bearish Direction.bearish = true
direction_eq _ _ = false

pub data PositionSizeStatus : Type 0 where
  verified sized_from_user_spec position_size_unverified : PositionSizeStatus

pub data RiskStatus : Type 0 where
  not_configured invalid_profile locked size_unverified clear within_limits unavailable : RiskStatus

pub data RiskLock : Type 0 where
  account_state_stale daily_loss_limit weekly_loss_limit max_open_risk max_positions
        max_trades_per_day consecutive_losses prop_daily_drawdown prop_total_drawdown volatility
        invalid_stop adding_to_loser unsafe_spread insufficient_margin below_min_volume :
      RiskLock

pub data RiskWarning : Type 0 where
  risk_reduced_by_limits correlated_exposure user_supplied_spec spec_inconsistent
        conversion_unavailable leverage_not_set spread_unknown volatility_unavailable
        volatility_not_checked account_state_not_provided news_not_evaluated :
      RiskWarning

pub data EventImportance : Type 0 where
  low medium high extreme : EventImportance

pub data EventStatus : Type 0 where
  upcoming imminent released revised completed cancelled delayed : EventStatus

pub data NewsState : Type 0 where
  clear caution blackout post_news_wait normalized unavailable : NewsState
