-- ===== src/Util.antt =====
-- `src/util`.
pub mod FlatMap
pub mod EditGuard
mod Tests
