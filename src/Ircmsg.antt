-- ===== src/Ircmsg.antt =====
-- Messages, `src/ircmsg`.
pub mod Failure
pub mod Args
pub mod Source
pub mod Tags
pub mod Numeric
pub mod Codec
pub mod Read
pub mod Frames
pub mod Ctcp
mod Tests
