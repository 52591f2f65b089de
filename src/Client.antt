-- ===== src/Client.antt =====
-- The parts of `src/client` that are modelled.
pub mod Queue
pub mod Nick
pub mod TimeLimits
pub mod Messages
pub mod Auth
pub mod Handlers
pub mod Cap
pub mod Ping
pub mod Register
mod Tests
