-- ===== src/Dedup.antt =====
-- crates/dedup-engine: the detection of duplicate files.
pub mod UnionFind
pub mod Scanner
pub mod Grouping
pub mod Duplicates
mod Tests
