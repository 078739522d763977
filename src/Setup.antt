-- ===== src/Setup.antt =====
-- The setup state machine of services/setup_state/engine.py.
mod Defs
mod Known
mod Moves
mod Confirm
mod Advance
mod Events
mod Stages
mod Early
mod Confirming
mod Armed
mod Guarded
mod Advancing
mod Runs
mod Safety
mod Plans
mod Deadline
mod Samples
mod Tests
unfoldable pub use Defs.*
unfoldable pub use Known.*
unfoldable pub use Moves.*
unfoldable pub use Confirm.*
unfoldable pub use Advance.*
