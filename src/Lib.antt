-- ===== src/Lib.antt =====
-- gf: a Go framework. Modelled is the core logic of its container and encoding packages.
--
-- Gtree (container/gtree) holds the ordered maps. Gtree/Comparator.antt is the comparison function
-- that a tree takes, with the laws that it has to satisfy; Gtree/Entries.antt is what an ordered
-- map promises, a list of entries in ascending order, with lookup_entry, insert_entry and
-- erase_entry. Gtree/Avl.antt models gtree_avltree.go: put, remove, removeMin, putFix, removeFix
-- and the rotations, on trees that stand for the nodes reached by pointers. Gtree/Avl/Map.antt has
-- the methods of AVLTree over them, Gtree/Avl/Walk.antt the iterators by Next and Prev. A pointer
-- that the code follows and that is nil is the outcome `panic`. A parent pointer is not stored: it
-- is the node above. The loops over a tree recur on it; only the iterators take fuel, and more
-- fuel than there are entries is enough.
--
-- Gtree/RedBlack.antt models the insertion of gtree_redblacktree.go and Gtree/RedBlack/Delete.antt
-- its removal (doRemove and deleteCase1 to deleteCase6). The node that the code works on is a
-- subtree with its path, the list of the frames above it; root_of puts the tree together again, as
-- replaceNode does. The cases recur on the path, so that no fuel is needed. A flag tells
-- deleteCase6 whether the node is the one that goes, which its last turn depends on.
-- Gtree/RedBlack/Map.antt has the other methods of RedBlackTree, and Gtree/RedBlack/Walk.antt the
-- ascending iterators, which take fuel: more of it than there are entries is enough.
-- Gtree/RedBlack/Coloured.antt says what its colours have to satisfy, and Inorder.antt what its
-- entries are; Set keeps the key of a node that is there, which is Gtree/Entries/Upsert.antt.
--
-- Garray (container/garray) holds the array lists. Garray/IntArray.antt models the record and the
-- constructors, reads, writes, insertions and removals of garray_normal_int.go,
-- Garray/IntArray/Cut.antt its methods that cut or extend the array (PopLefts, Range, SubSlice,
-- Fill, Chunk, Pad) and Garray/IntArray/Scan.antt those that go through it (Sum, Search, Unique,
-- FilterEmpty, Reverse, the iterators). They stand on Prelude/Slice.antt, Go's slice expressions on
-- lists, whose bounds checks panic. A loop that reads or removes by index takes the length of the
-- array as fuel, one unit for each round: every round moves an index on or shortens the array.
-- Those of Unique take one more, and running out of it is a panic, which their theorem excludes.
-- The loop of NewIntArrayRange stores to one more slot in each round and takes one unit for each
-- slot, and one more; the greatest length that make allows is a parameter.
-- Garray/SortedIntArray.antt models the binary search of garray_sorted_int.go, whose fuel is the
-- length of the array as each round shortens the window, and Add, Search, Unique and SetUnique over
-- it; its comparator is that of the trees.
--
-- Gbinary (encoding/gbinary) holds the encodings. Gbinary/LittleEndian.antt and
-- Gbinary/BigEndian.antt model gbinary_le.go and gbinary_be.go on lists of bytes, which are numbers
-- below 256; Gbinary/Bytes.antt is the layout of Go's encoding/binary and math that they call, a
-- float being given by its bits, and Prelude/Word.antt the conversions between signed and unsigned
-- words. An int has 64 bits. Gbinary/Bits.antt models gbinary_bits.go; the loop that fills a byte
-- up takes 8 units of fuel, as at most 7 bits are missing, and the loop over the bytes one for each
-- bit. Decode, which stores through pointers by reflection, is not modelled.
--
-- Gset/IntSet.antt models the sets of gset_int_set.go (container/gset). The Go map is the list of its
-- keys in the order of range, which no theorem fixes; a set that is an argument of its own method is
-- told apart from another one, as the code does by comparing pointers.
--
-- Not modelled: the scheduling of goroutines (each method runs under the mutex of its object and is
-- one step), the capacity of slices, printing and JSON. The length of a slice is an int. Where the
-- code adds or subtracts an argument of any size (PopRights, SubSlice, Fill, NewIntArrayRange,
-- Sum), the result wraps, by wrap of Prelude/Word.antt; an index or a count that stays between 0
-- and a length does not overflow, and is a natural number or an unbounded integer.
pub mod Prelude
pub mod Gtree
pub mod Garray
pub mod Gbinary
pub mod Gset
