-- ===== src/Risk/Within.antt =====
-- What an assessment WITHIN_LIMITS of services/risk/engine.py promises.
use ict_trading_claude.Prelude.{
  ℕ, ◌*◌, ◌≤◌, ◌≡◌, refl, inl, inr, Bool, true, false, not, Option, none, some, List, [], ◌∷◌, ◌++◌,
  arith, Bool-cases, if_both, some-injective, ltb, leb, if◌then◌else◌,
}
use native.Mathlib.Omega.{div_any}
use ict_trading_claude.Prelude.Int.{pos_part}
use ict_trading_claude.Domain.Enums.{PositionSizeStatus, RiskLock, RiskWarning}
use ict_trading_claude.Domain.Decision.{InstrumentSpec}
use ict_trading_claude.Entry.{Ratio}
use ict_trading_claude.Structure.Swings.{Fraction}
use ict_trading_claude.Risk.{RiskConfig, AccountProfile, TradeInput, PositionSize}
use ict_trading_claude.Risk.Sizing.{
  verified_status, Sized, floor_to_step, volume_for, risk_per_volume, size_with, size_if, with_spec,
  position, has_valid_stop, unverified, unsized, spec_consistent, spread_locks, spread_warnings,
  warn_if, no_conversion, dist, margin_locks, leverage_warnings,
}

-- The volume for an amount risks no more than the amount.
floor_to_step-le : (n d step : ℕ) → floor_to_step n d step * d ≤ n
unfolding floor_to_step
floor_to_step-le n d step = let whole = div_any n (d * step) in grind arith

-- A size that is given risks at most the amount, counted in the units of the volume.
abbrev pub Fits : ℕ → PositionSize → Type 0
Fits amount p =
    (v : ℕ) (f : Fraction)
    → p.volume ≡ some v
    → p.risk_per_volume ≡ some f
    → v * pos_part f.num ≤ amount * 1000000 * f.den

unsized-Fits : (amount : ℕ) (p : PositionSize) → p.volume ≡ none → Fits amount p
unsized-Fits amount p n v f h k = cc

sized-Fits :
    (amount step : ℕ) (f : Fraction)
    → Fits amount (record { risk_per_volume = some f; volume = some (volume_for amount f step) })
unfolding volume_for
sized-Fits amount step f v g h k =
    rw (← some-injective h, ← some-injective k)
      (floor_to_step-le (amount * 1000000 * f.den) (pos_part f.num) step)

size_with-Fits :
    (t : TradeInput) (spec : InstrumentSpec) (c : Ratio) (a : AccountProfile)
    (st : PositionSizeStatus) (ls : List RiskLock) (ws : List RiskWarning) (amount : ℕ)
    → Fits amount
        (size_with t spec c a st ls ws amount
          (volume_for amount (risk_per_volume t spec c) spec.volume_step)).position
unfolding size_with
size_with-Fits t spec c a st ls ws amount =
    let f = risk_per_volume t spec c in
    let v = volume_for amount f spec.volume_step in
    let P : Sized → Type 0 = λ s. Fits amount s.position in
    let spent : Sized = record {
      position = record { risk_per_volume = some f; volume = none };
      size_status = some st;
      locks = ls;
      warnings = ws;
    } in
    let small : Sized = record {
      position = record { risk_per_volume = some f; volume = none };
      size_status = some st;
      locks = ls ++ (RiskLock.below_min_volume ∷ []);
      warnings = ws;
    } in
    let sized : Sized = record {
      position = record { risk_per_volume = some f; volume = some v };
      size_status = some st;
      locks = ls ++ margin_locks v spec t c a a.leverage;
      warnings = ws ++ leverage_warnings a.leverage;
    } in
    if_both P (leb amount 1) spent (if ltb v spec.min_volume then small else sized)
      (unsized-Fits amount spent.position refl)
      (if_both P (ltb v spec.min_volume) small sized (unsized-Fits amount small.position refl)
        (sized-Fits amount spec.volume_step f))

size_if-Fits :
    (b : Bool) (c : Option Ratio) (t : TradeInput) (spec : InstrumentSpec) (verified : Bool)
    (a : AccountProfile) (ls : List RiskLock) (ws : List RiskWarning) (amount : ℕ)
    → Fits amount (size_if b c t spec verified a ls ws amount).position
unfolding size_if
size_if-Fits true (some c) t spec verified a ls ws amount =
    size_with-Fits t spec c a (verified_status verified) ls ws amount
size_if-Fits true none t spec verified a ls ws amount =
    unsized-Fits amount (unverified ls ws).position refl
size_if-Fits false c t spec verified a ls ws amount =
    unsized-Fits amount (unverified ls ws).position refl

with_spec-Fits :
    (t : TradeInput) (spec : Option InstrumentSpec) (verified : Bool) (c : Option Ratio)
    (a : AccountProfile) (amount : ℕ) (cfg : RiskConfig)
    → Fits amount (with_spec t spec verified c a amount cfg).position
with_spec-Fits t none verified c a amount cfg = unsized-Fits amount (unverified [] []).position refl
with_spec-Fits t (some spec) verified c a amount cfg =
    size_if-Fits (spec_consistent spec cfg.spec_tolerance_pct) c t spec verified a
      (spread_locks spec.typical_spread (dist t.entry t.stop) cfg.max_spread_to_stop_pct)
      (spread_warnings spec.typical_spread
        ++ warn_if (not verified) RiskWarning.user_supplied_spec
        ++ warn_if (not (spec_consistent spec cfg.spec_tolerance_pct)) RiskWarning.spec_inconsistent
        ++ no_conversion c)
      amount

-- A size without a lock is for a stop on the losing side.
pub position-Valid :
    (t : TradeInput) (spec : Option InstrumentSpec) (verified : Bool) (c : Option Ratio)
    (a : AccountProfile) (amount : ℕ) (cfg : RiskConfig)
    → (position t spec verified c a amount cfg).locks ≡ []
    → has_valid_stop t ≡ true
unfolding position
position-Valid t spec verified c a amount cfg h = elim (Bool-cases (has_valid_stop t)) [
  | inl valid ↦ valid
  | inr bad ↦ let locks : RiskLock.invalid_stop ∷ [] ≡ [] = rw bad at h in cc
]

pub position-Fits :
    (t : TradeInput) (spec : Option InstrumentSpec) (verified : Bool) (c : Option Ratio)
    (a : AccountProfile) (amount : ℕ) (cfg : RiskConfig)
    → Fits amount (position t spec verified c a amount cfg).position
unfolding position
position-Fits t spec verified c a amount cfg =
    if_both (λ (s : Sized). Fits amount s.position) (has_valid_stop t)
      (with_spec t spec verified c a amount cfg)
      (record {
        position = unsized;
        size_status = none;
        locks = RiskLock.invalid_stop ∷ [];
        warnings = [];
      })
      (with_spec-Fits t spec verified c a amount cfg) (unsized-Fits amount unsized refl)
