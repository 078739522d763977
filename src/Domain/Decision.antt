-- ===== src/Domain/Decision.antt =====
-- `MasterDecision` of domain/decision.py and `Instrument` of domain/instrument.py.
-- `Doc` stands for the values of `dict[str, object]`, which no modelled function reads.
use ict_trading_claude.Prelude.{ℕ, String, Bool, Option, List}
use ict_trading_claude.Prelude.Int.{ℤ}
use ict_trading_claude.Domain.Enums.{AssetClass, DataQuality, DecisionConfidence, Verdict}
use ict_trading_claude.Domain.Blockers.{Blocker}
use ict_trading_claude.Domain.Candle.{Name}

pub record PriceZone : Type 0 where
  pub low : ℤ
  pub high : ℤ

pub record MasterDecision (Doc : Type 0) : Type 0 where
  pub symbol : Name
  pub verdict : Verdict
  pub direction : Option String
  pub setup_type : Option String
  pub setup_state : String
  pub setup_grade : Option String
  pub setup_score : Option ℤ
  pub decision_confidence : DecisionConfidence
  pub htf_bias : String
  pub primary_dol : Option String
  pub secondary_dol : Option String
  pub liquidity_event : Option String
  pub structure_event : Option String
  pub displacement : Option String
  pub pd_array : Option Doc
  pub no_wick_state : Option Doc
  pub session_state : Option Doc
  pub macro_state : Option Doc
  pub news_state : Option Doc
  pub entry_zone : Option PriceZone
  pub preferred_entry : Option ℤ
  pub stop : Option ℤ
  pub tp1 : Option ℤ
  pub tp2 : Option ℤ
  pub tp3 : Option ℤ
  pub rr : Option ℤ
  pub risk_status : String
  pub blockers : List Blocker
  pub next_required_event : Option String
  pub invalidation : Option String
  pub data_quality : DataQuality
  pub strategy_version : String
  pub updated_at : ℕ

-- A contract specification; its validators keep the amounts above zero. Money counts billionths of the
-- currency, prices and volumes millionths, the contract size thousandths.
pub record InstrumentSpec : Type 0 where
  pub symbol : Name
  pub contract_size : ℕ
  pub tick_size : ℕ
  pub tick_value : ℕ
  pub min_volume : ℕ
  pub volume_step : ℕ
  pub quote_currency : Name
  pub typical_spread : Option ℕ
  pub platform_pip_size : Option ℕ

pub record Instrument : Type 0 where
  pub symbol : Name
  pub asset_class : AssetClass
  pub base : Name
  pub quote : Name
  pub price_precision : ℕ
  pub priority : ℕ
  pub deeply_validated : Bool
  pub spec : Option InstrumentSpec
