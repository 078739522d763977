-- ===== src/Risk.antt =====
-- The risk engine: services/risk/engine.py and services/risk/models.py.
mod Models
mod Budget
mod Sizing
mod Assess
mod Within
mod Limits
mod Losses
mod Tests
unfoldable pub use Models.*
unfoldable pub use Budget.*
