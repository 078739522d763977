-- ===== src/Candles.antt =====
-- From raw bars to validated series: services/data_quality/validation.py (Validation) and
-- services/candles/normalize.py (the others).
pub mod Validation
pub mod Screen
pub mod Duplicates
pub mod Gaps
pub mod Series
pub mod Origin
pub mod Total
pub mod Unusable
pub mod Errors
mod Tests
