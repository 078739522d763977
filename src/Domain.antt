-- ===== src/Domain.antt =====
-- The domain models that the services share (services/api/app/domain).
pub mod Enums
pub mod Blockers
pub mod Candle
pub mod Decision
