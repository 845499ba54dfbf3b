-- ===== src/Coll.antt =====
-- The `coll` package: comparators, lists, and sets and maps over sorted arrays.
pub mod Compare
pub mod Array
pub mod Libc
pub mod Storage
pub mod SortedArray
pub mod CollSet
pub mod CollList
pub mod CollMap
