-- ===== src/Gset.antt =====
-- container/gset: sets.
pub mod IntSet
