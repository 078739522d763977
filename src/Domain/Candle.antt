-- ===== src/Domain/Candle.antt =====
-- `RawBar` and `Candle` of domain/candle.py, and `ValidationIssue` of domain/issues.py.
-- A datetime is its number of seconds since the UTC epoch. A finite price is a whole number of the
-- smallest price unit, signed since the models hold whatever a provider delivered.
use ict_trading_claude.Prelude.{
  ℕ, ◌+◌, ◌-◌, ◌&&◌, String, Bool, true, false, Option, none, some, List, map, any, ltb, leb, ◌==◌,
  if◌then◌else◌,
}
use ict_trading_claude.Prelude.Int.{ℤ}
use ict_trading_claude.Domain.Enums.{
  DataQuality, Timeframe, IssueSeverity, ValidationIssueCode, duration,
}

-- A symbol or a source, as its code points.
abbrev pub Name : Type 0
Name = List ℕ

-- `str.upper` on the code points of an ASCII symbol.
abbrev pub upper : Name → Name
upper = map (λ c. if leb b'a' c && leb c b'z' then c - 32 else c)

-- A `float` that a provider delivered: NaN and the infinities are `not_finite`.
pub data Reading : Type 0 where
  finite : ℤ → Reading
  not_finite : Reading

-- A `datetime` that a provider delivered: without a zone, or at an instant.
pub data Stamp : Type 0 where
  naive : ℕ → Stamp
  aware : ℕ → Stamp

pub record RawBar : Type 0 where
  pub symbol : Name
  pub timeframe : Timeframe
  pub open_time : Stamp
  pub opening : Reading
  pub high : Reading
  pub low : Reading
  pub close : Reading
  pub volume : Option Reading

pub record Candle : Type 0 where
  pub symbol : Name
  pub timeframe : Timeframe
  pub open_time : ℕ
  pub close_time : ℕ
  pub opening : ℤ
  pub high : ℤ
  pub low : ℤ
  pub close : ℤ
  pub volume : Option ℤ
  pub source : Name
  pub is_closed : Bool
  pub data_quality : DataQuality

-- A whole candle of a fixed duration, or (for W1 and MN1) one that only runs forward.
abbrev close_matches : Timeframe → ℕ → ℕ → Bool
close_matches Timeframe.w1 open_time close_time = ltb open_time close_time
close_matches t open_time close_time = elim (duration t) [
  | some d ↦ close_time == open_time + d
  | none ↦ ltb open_time close_time
]

-- The model validator `_close_time_matches_timeframe`, as a test.
unfoldable pub close_time_matches_timeframe : Candle → Bool
close_time_matches_timeframe c = close_matches c.timeframe c.open_time c.close_time

-- An f-string: its text without the values, and the values (code points for a string).
pub record Message : Type 0 where
  pub template : String
  pub values : List ℕ

pub record ValidationIssue : Type 0 where
  pub code : ValidationIssueCode
  pub severity : IssueSeverity
  pub message : Message
  pub at : Option ℕ
  pub count : ℕ

abbrev pub is_error : ValidationIssue → Bool
is_error i = elim i.severity [ IssueSeverity.error ↦ true | IssueSeverity.warning ↦ false ]

unfoldable pub has_errors : List ValidationIssue → Bool
has_errors = any is_error
