-- ===== src/Util.antt =====
-- The `util` package (C/src/util).
pub mod Status
pub mod SafeCast
pub mod Pool
pub mod Strings
