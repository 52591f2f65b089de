-- ===== src/Text.antt =====
-- The byte-string layer, `src/string`.
pub mod Kinds
pub mod Splitter
pub mod Escape
pub mod Casemap
pub mod Builder
pub mod Trim
pub mod Chunks
mod Tests
