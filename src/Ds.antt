-- ===== src/Ds.antt =====
-- The data structures of ds/.
pub mod LinkedList
pub mod SkipList
mod Examples
