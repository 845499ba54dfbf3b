-- ===== src/Tests.antt =====
-- Concrete runs: each theorem of the library that has hypotheses, at an input where they hold.
pub mod ByteBuffers
pub mod Sorting
pub mod Collections
pub mod Pools
pub mod Identities
pub mod Texts
pub mod Programs
pub mod Sharing
pub mod Calls
