-- ===== src/Risk/Limits.antt =====
-- An assessment WITHIN_LIMITS of services/risk/engine.py, from the whole of `assess`.
use mathlib.Core.Path.{subst}
use ict_trading_claude.Prelude.{
  ℕ, ◌≡◌, refl, ap, ◌∙◌, inl, inr, Bool, true, false, Option, none, some, List, [], ◌∷◌, ◌++◌,
  Bool-cases, some-injective,
}
use ict_trading_claude.Prelude.Int.{pos_part}
use ict_trading_claude.Domain.Enums.{PositionSizeStatus, RiskLock, RiskStatus}
use ict_trading_claude.Domain.Decision.{Instrument}
use ict_trading_claude.Domain.Candle.{Name}
use ict_trading_claude.Risk.{
  RiskConfig, RiskLimits, RiskAssessment, AccountProfile, AccountState, TradeInput, PositionSize,
  resolve_limits, exceeds, budget_of, budget_locks, is_used_up, daily_remaining, weekly_remaining,
  open_remaining, lock_if, positions_of, prop_locks, state_locks,
}
use ict_trading_claude.Risk.Sizing.{position, has_valid_stop, conversion_factor}
use ict_trading_claude.Risk.Assess.{
  RiskRequest, trade_part, assessed_status, blockers_of, is_unverified, is_given, assess_with,
  assess_known, assess, not_assessed, volatility_part, quote_of, adds_to_loser,
}
use ict_trading_claude.Risk.Within.{Fits, position-Valid, position-Fits}

append_nil : {A : Type 0} (xs ys : List A) → xs ++ ys ≡ [] → (xs ≡ []) × (ys ≡ [])
append_nil [] ys h = (refl, h)
append_nil (x ∷ xs) ys h = cc

lock_if_nil : (b : Bool) (l : RiskLock) → lock_if b l ≡ [] → b ≡ false
lock_if_nil true l h = cc
lock_if_nil false l h = refl

-- What is left of the limits when the budget locks nothing.
abbrev pub HasRoom : AccountProfile → Option AccountState → RiskLimits → Type 0
HasRoom a s l =
    (is_used_up (daily_remaining a s l) ≡ false)
    × (is_used_up (weekly_remaining a s l) ≡ false)
    × (is_used_up (open_remaining a s l) ≡ false)

budget_locks-HasRoom :
    (a : AccountProfile) (s : Option AccountState) (l : RiskLimits) (day : ℕ)
    → budget_locks a s l day ≡ []
    → HasRoom a s l
unfolding budget_locks
budget_locks-HasRoom a s l day h =
    let daily = lock_if (is_used_up (daily_remaining a s l)) RiskLock.daily_loss_limit in
    let weekly = lock_if (is_used_up (weekly_remaining a s l)) RiskLock.weekly_loss_limit in
    let total = lock_if (is_used_up (open_remaining a s l)) RiskLock.max_open_risk in
    let before = prop_locks a s a.prop_rules ++ state_locks s l day in
    let third = append_nil (before ++ daily ++ weekly) total h in
    let second = append_nil (before ++ daily) weekly third.0 in
    let first = append_nil before daily second.0 in
    (
      lock_if_nil (is_used_up (daily_remaining a s l)) RiskLock.daily_loss_limit first.1,
      lock_if_nil (is_used_up (weekly_remaining a s l)) RiskLock.weekly_loss_limit second.1,
      lock_if_nil (is_used_up (open_remaining a s l)) RiskLock.max_open_risk third.1,
    )

-- The status says it all of the locks, the trade and its size.
status_within :
    (ls : List RiskLock) (t : Option TradeInput) (st : Option PositionSizeStatus)
    → assessed_status ls t st ≡ RiskStatus.within_limits
    → (ls ≡ []) × (is_given t ≡ true) × (is_unverified st ≡ false)
unfolding assessed_status
status_within (l ∷ ls) t st h = cc
status_within [] none st h = cc
status_within [] (some t) st h = elim (Bool-cases (is_unverified st)) [
  | inl bad ↦ let other : RiskStatus.size_unverified ≡ RiskStatus.within_limits = rw bad at h in cc
  | inr good ↦ (refl, refl, good)
]

-- An assessment within the limits: nothing locks or blocks, the account's limits are within the hard
-- ones and have room, and the trade has its stop on the losing side and a size that fits the budget.
pub record IsWithin (cfg : RiskConfig) (r : RiskRequest) (a : RiskAssessment) : Type 0 where
  pub no_locks : a.locks ≡ []
  pub no_blockers : a.blockers ≡ []
  pub within_hard : exceeds (resolve_limits r.account cfg) cfg.hard_limits ≡ false
  pub room : HasRoom r.account r.account_state (resolve_limits r.account cfg)
  pub trade : TradeInput
  pub given : r.trade ≡ some trade
  pub valid : has_valid_stop trade ≡ true
  pub size : PositionSize
  pub sized : a.position ≡ some size
  pub fits :
      Fits
        (pos_part
          (budget_of r.account r.account_state
            (resolve_limits r.account cfg)).effective_risk_amount)
        size

no_blockers :
    (ls : List RiskLock) (st : Option PositionSizeStatus)
    → ls ≡ []
    → is_unverified st ≡ false
    → blockers_of ls st ≡ []
unfolding blockers_of
no_blockers ls st h k = rw (h, k) refl

-- What the part of the trade says, when it locks nothing.
abbrev TradeFits : RiskRequest → ℕ → Option TradeInput → Option PositionSize → Type 0
TradeFits r amount o p =
    (t : TradeInput) × (o ≡ some t)
    × (has_valid_stop t ≡ true)
    × (size : PositionSize) × (p ≡ some size)
    × Fits amount size

trade_part-Fits :
    (get_instrument : Name → Option Instrument) (cfg : RiskConfig) (r : RiskRequest)
    (i : Instrument) (amount : ℕ) (o : Option TradeInput)
    → is_given o ≡ true
    → (trade_part get_instrument cfg r i amount o).locks ≡ []
    → TradeFits r amount o (trade_part get_instrument cfg r i amount o).sized
trade_part-Fits get_instrument cfg r i amount none g h = cc
trade_part-Fits get_instrument cfg r i amount (some t) g h =
    let conversion =
      conversion_factor (quote_of r.spec i) r.account.currency r.rates r.now
        cfg.conversion_max_age in
    let sized = position t r.spec r.spec_verified conversion r.account amount cfg in
    let locks =
      (append_nil
        (lock_if (adds_to_loser r.symbol t.direction (positions_of r.account_state))
          RiskLock.adding_to_loser)
        sized.locks h).1 in
    (
      t,
      refl,
      position-Valid t r.spec r.spec_verified conversion r.account amount cfg locks,
      sized.position,
      refl,
      position-Fits t r.spec r.spec_verified conversion r.account amount cfg,
    )

assess_with-IsWithin :
    (get_instrument : Name → Option Instrument) (cfg : RiskConfig) (r : RiskRequest)
    (i : Instrument)
    → exceeds (resolve_limits r.account cfg) cfg.hard_limits ≡ false
    → (assess_with get_instrument cfg r i (resolve_limits r.account cfg)).status
      ≡ RiskStatus.within_limits
    → IsWithin cfg r (assess_with get_instrument cfg r i (resolve_limits r.account cfg))
unfolding assess_with
assess_with-IsWithin get_instrument cfg r i hard h =
    let limits = resolve_limits r.account cfg in
    let amount = pos_part (budget_of r.account r.account_state limits).effective_risk_amount in
    let budget = budget_locks r.account r.account_state limits r.trading_day in
    let moves = (volatility_part r.candles cfg).0 in
    let part = trade_part get_instrument cfg r i amount r.trade in
    let ok = status_within (budget ++ moves ++ part.locks) r.trade part.size_status h in
    let split = append_nil (budget ++ moves) part.locks ok.0 in
    let (t, given, valid, size, sized, fits) =
      trade_part-Fits get_instrument cfg r i amount r.trade ok.1 split.1 in
    record {
      no_locks = ok.0;
      no_blockers = no_blockers (budget ++ moves ++ part.locks) part.size_status ok.0 ok.2;
      within_hard = hard;
      room =
          budget_locks-HasRoom r.account r.account_state limits r.trading_day
            (append_nil budget moves split.0).0;
      trade = t;
      given = given;
      valid = valid;
      size = size;
      sized = sized;
      fits = fits;
    }

assess_known-IsWithin :
    (get_instrument : Name → Option Instrument) (cfg : RiskConfig) (r : RiskRequest)
    (o : Option Instrument) (a : RiskAssessment)
    → assess_known get_instrument cfg r o ≡ some a
    → a.status ≡ RiskStatus.within_limits
    → IsWithin cfg r a
unfolding not_assessed
assess_known-IsWithin get_instrument cfg r none a h w = cc
assess_known-IsWithin get_instrument cfg r (some i) a h w =
    let limits = resolve_limits r.account cfg in
    elim (Bool-cases (exceeds limits cfg.hard_limits)) [
      | inl over ↦
          let other : some (not_assessed RiskStatus.invalid_profile) ≡ some a = rw over at h in
          let bad : RiskStatus.invalid_profile ≡ RiskStatus.within_limits =
            ap (λ (x : RiskAssessment). x.status) (some-injective other) ∙ w in
          cc
      | inr hard ↦
          let same : some (assess_with get_instrument cfg r i limits) ≡ some a = rw hard at h in
          subst (IsWithin cfg r) (some-injective same) (
            assess_with-IsWithin get_instrument cfg r i hard
              (ap (λ (x : RiskAssessment). x.status) (some-injective same) ∙ w))
    ]

-- An assessment whose status is WITHIN_LIMITS has no lock and no blocker, its limits do not exceed the
-- hard ones, the daily, the weekly and the open-risk budget are not used up, and there is a trade whose
-- stop is on the losing side; its volume, if it has one, risks no more than the effective amount.
pub assess-IsWithin :
    (get_instrument : Name → Option Instrument) (cfg : RiskConfig) (r : RiskRequest)
    (a : RiskAssessment)
    → assess get_instrument cfg r ≡ some a
    → a.status ≡ RiskStatus.within_limits
    → IsWithin cfg r a
unfolding assess
assess-IsWithin get_instrument cfg r a h w =
    assess_known-IsWithin get_instrument cfg r (get_instrument r.symbol) a h w
