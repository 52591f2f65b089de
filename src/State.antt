-- ===== src/State.antt =====
-- The state of servers and channels, `src/state`.
pub mod Mode
pub mod Types
pub mod Status
mod Tests
