-- ===== src/Structure.antt =====
-- Market structure: swings (services/structure/swings.py) and the sequential engine
-- (services/structure/engine.py).
pub mod Swings
pub mod Engine
pub mod Lookahead
pub mod Events
pub mod Output
pub mod Trend
pub mod Analysis
mod Tests
mod BiasTests
