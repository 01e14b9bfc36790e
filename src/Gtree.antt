-- ===== src/Gtree.antt =====
-- container/gtree: the ordered maps. `Comparator` is the comparison function that each takes.
pub mod Comparator
pub mod Entries
pub mod Avl
pub mod RedBlack
