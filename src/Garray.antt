-- ===== src/Garray.antt =====
-- container/garray: the arrays.
pub mod IntArray
pub mod SortedIntArray
