-- ===== src/Facts.antt =====
-- What the liquidity, PD array and no-wick services report to the setup state machine
-- (services/liquidity/models.py, services/pd_arrays/models.py, services/no_wick/models.py), as far as
-- it reads them. An id is a string, ordered by its code points.
use ict_trading_claude.Prelude.{ℕ, Bool, true, false, ◌&&◌, ◌||◌, [], ◌∷◌, ltb, ◌==◌}
use ict_trading_claude.Prelude.Int.{ℤ}
use ict_trading_claude.Domain.Enums.{
  Direction, LiquidityEventType, LiquidityPoolType, LiquiditySide, NoWickStrength, PdArrayEventType,
  PdArrayType,
}
use ict_trading_claude.Domain.Candle.{Name}

pub record LiquidityPool : Type 0 where
  pub id : Name
  pub type : LiquidityPoolType
  pub side : LiquiditySide
  pub label : Name
  pub price : ℤ
  pub known_at : ℕ

pub record LiquidityEvent : Type 0 where
  pub pool_id : Name
  pub pool_type : LiquidityPoolType
  pub side : LiquiditySide
  pub type : LiquidityEventType
  pub time : ℕ
  pub extreme : ℤ

pub record PdArrayZone : Type 0 where
  pub id : Name
  pub type : PdArrayType
  pub direction : Direction
  pub top : ℤ
  pub bottom : ℤ

pub record PdArrayEvent : Type 0 where
  pub zone_id : Name
  pub type : PdArrayEventType
  pub time : ℕ

pub record NoWickEvent : Type 0 where
  pub direction : Direction
  pub strength : NoWickStrength
  pub time : ℕ

abbrev pub side_eq : LiquiditySide → LiquiditySide → Bool
side_eq LiquiditySide.bsl LiquiditySide.bsl = true
side_eq LiquiditySide.ssl LiquiditySide.ssl = true
side_eq _ _ = false

-- `NoWickStrength.rank`.
abbrev pub rank : NoWickStrength → ℕ
rank NoWickStrength.insignificant = 0
rank NoWickStrength.meaningful = 1
rank NoWickStrength.strong = 2
rank NoWickStrength.exceptional = 3

unfoldable pub id_eq : Name → Name → Bool
id_eq [] [] = true
id_eq (x ∷ xs) (y ∷ ys) = x == y && id_eq xs ys
id_eq _ _ = false

-- `a < b` on strings.
unfoldable pub id_lt : Name → Name → Bool
id_lt [] [] = false
id_lt [] (y ∷ ys) = true
id_lt (x ∷ xs) [] = false
id_lt (x ∷ xs) (y ∷ ys) = ltb x y || (x == y && id_lt xs ys)
