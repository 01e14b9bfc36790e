-- ===== src/Gtree/Avl/Tests.antt =====
-- Runs of the AVL tree, and its theorems at concrete trees.
use gf.Prelude.{
  ℕ, ◌+◌, ◌*◌, ◌/◌, ◌^◌, ◌≤◌, ◌≡◌, refl, Bool, true, false, List, [], ◌∷◌, reverse, length, none,
  some, leb, arith,
}
use gf.Prelude.Outcome.{ok, panic, Ensures, WhenOk}
use gf.Gtree.Comparator.{by_number, by_number-IsWeakOrder}
use gf.Gtree.Entries.{value_of, lookup_entry}
use gf.Gtree.Avl.{
  Tree, leaf, node, even, plus, left, right, put, put_fix, remove_fix, remove_min, remove_here,
  remove,
}
use gf.Gtree.Avl.Shape.{height, IsBalanced}
use gf.Gtree.Avl.Balanced.{lowers_min}
use gf.Gtree.Avl.Inorder.{entries}
use gf.Gtree.Avl.Unbalanced.{MisreportsHeight}
use gf.Gtree.Avl.Map.Low.{new_avl_tree_from-IsLow}
use gf.Gtree.Avl.Walk.{iterate}
use gf.Gtree.Avl.Walk.Laws.{fold_until, iterate_lem}
use gf.Gtree.Avl.Map.{
  AvlTree, new_avl_tree, new_avl_tree_from, set_key, search_key, remove_key, floor, ceiling,
}
use gf.Gtree.Avl.Map.Laws.{
  items, IsOrdered, IsValid, HasSet, HasRemoved, set_key_lem, remove_key_lem,
}
use gf.Gtree.Avl.Map.Reads.{override, search_key-set_key, search_key-remove_key}
use gf.Gtree.Avl.Map.Batch.{
  inserts, Op, set_op, remove_op, run_ops, replay_ops, new_avl_tree_from_lem, run_ops_refines,
}
use gf.Gtree.Avl.Map.Nearest.{at_most, at_least, first_or, last_or, floor-ceiling}
use gf.Gtree.Avl.Map.Validity.{remove_key-IsValid, remove_unbalances}

abbrev leaf_of : ℕ → Tree ℕ ℕ
leaf_of n = node even leaf n (10 * n) leaf

-- the least of its right subtree leaves that no lower
abbrev high_left : Tree ℕ ℕ
high_left = node plus (leaf_of 1) 2 20 (node even (leaf_of 3) 4 40 (leaf_of 5))

abbrev sample : AvlTree ℕ ℕ
sample = record {
  safe = true;
  root =
      node even high_left 6 60
        (node plus (leaf_of 7) 8 80 (node even (leaf_of 9) 10 100 (leaf_of 11)));
  comparator = by_number;
  size = 11;
}

sample-IsValid : IsValid sample
sample-IsValid = record {
  balanced = omega arith;
  ordered = record { lawful = by_number-IsWeakOrder; ascending = ground arith; counted = refl };
}

abbrev numbers : List ℕ → List (Op ℕ ℕ)
numbers [] = []
numbers (n ∷ ns) = set_op n (10 * n) ∷ numbers ns

abbrev calls_of : List (Bool × ℕ) → List (Op ℕ ℕ)
calls_of [] = []
calls_of ((true, n) ∷ ns) = set_op n (10 * n) ∷ calls_of ns
calls_of ((false, n) ∷ ns) = remove_op n ∷ calls_of ns

abbrev calls : List (Op ℕ ℕ)
calls = calls_of (
    (true, 19)
    ∷ (true, 21)
    ∷ (true, 5)
    ∷ (true, 13)
    ∷ (true, 18)
    ∷ (true, 15)
    ∷ (true, 2)
    ∷ (false, 13)
    ∷ (true, 14)
    ∷ (true, 9)
    ∷ (false, 5)
    ∷ (false, 21)
    ∷ (false, 14)
    ∷ (false, 19)
    ∷ (true, 10)
    ∷ (true, 20)
    ∷ [])

-- Eleven calls of Set and five of Remove the last of which follows a nil pointer.
panicking_calls : run_ops (new_avl_tree by_number false) calls ≡ panic
unfolding run_ops new_avl_tree set_key remove_key put put_fix remove remove_here
panicking_calls = refl

ascending_sets :
    run_ops (new_avl_tree by_number false) (numbers (1 ∷ 2 ∷ 3 ∷ []))
    ≡ ok (record {
      safe = false;
      root = node even (leaf_of 1) 2 20 (leaf_of 3);
      comparator = by_number;
      size = 3;
    })
unfolding run_ops new_avl_tree set_key put put_fix
ascending_sets = refl

set_key_lem_example : (t : AvlTree ℕ ℕ) × (set_key sample 12 0 ≡ ok t) × HasSet sample 12 0 t
set_key_lem_example = set_key_lem sample 12 0 sample-IsValid

remove_key_lem_example :
    (t : AvlTree ℕ ℕ) × (remove_key sample 8
      ≡ ok (t, value_of (lookup_entry by_number 8 (items sample))))
    × HasRemoved sample 8 t
remove_key_lem_example = remove_key_lem sample 8 sample-IsValid

search_key-set_key_example :
    (t : AvlTree ℕ ℕ) × (set_key sample 12 0 ≡ ok t)
    × (search_key t 4 ≡ override by_number 12 (some 0) (search_key sample) 4)
search_key-set_key_example = search_key-set_key sample 12 0 4 sample-IsValid

search_key-remove_key_example :
    (t : AvlTree ℕ ℕ) × (remove_key sample 8 ≡ ok (t, search_key sample 8))
    × (search_key t 4 ≡ override by_number 8 none (search_key sample) 4)
search_key-remove_key_example = search_key-remove_key sample 8 4 sample-IsValid

built_from :
    (t : AvlTree ℕ ℕ) × (new_avl_tree_from by_number ((2, 20) ∷ (1, 10) ∷ []) false ≡ ok t)
    × IsValid t
    × (items t ≡ inserts by_number ((2, 20) ∷ (1, 10) ∷ []) [])
built_from = new_avl_tree_from_lem by_number ((2, 20) ∷ (1, 10) ∷ []) false by_number-IsWeakOrder

run_ops_refines_example :
    WhenOk
      (λ t.
        IsOrdered t
        × (items t ≡ replay_ops by_number (remove_op 2 ∷ set_op 5 0 ∷ []) (items sample)))
      (run_ops sample (remove_op 2 ∷ set_op 5 0 ∷ []))
run_ops_refines_example =
    run_ops_refines sample (remove_op 2 ∷ set_op 5 0 ∷ []) sample-IsValid.ordered

remove_key-IsValid_example :
    (t : AvlTree ℕ ℕ) × (remove_key sample 1 ≡ ok (t, search_key sample 1)) × IsValid t
remove_key-IsValid_example = remove_key-IsValid sample 1 sample-IsValid refl

not_lower : lowers_min (node even (leaf_of 3) 4 40 (leaf_of 5)) ≡ false
unfolding remove_min remove_fix
not_lower = refl

remove_unbalances_example :
    Ensures (MisreportsHeight high_left) (remove by_number 2 11 high_left)
    × Ensures (λ (t, _, _). ¬ IsBalanced t) (remove by_number 2 11 sample.root)
remove_unbalances_example =
    remove_unbalances by_number 2 11 plus (leaf_of 1) 2 20 (node even (leaf_of 3) 4 40 (leaf_of 5))
      left even 6 60 (node plus (leaf_of 7) 8 80 (node even (leaf_of 9) 10 100 (leaf_of 11)))
      sample-IsValid.balanced refl refl not_lower

new_avl_tree_from-IsLow_example :
    (t : AvlTree ℕ ℕ) × (new_avl_tree_from by_number ((2, 20) ∷ (1, 10) ∷ []) false ≡ ok t)
    × (t.size ≡ length (inserts {V = ℕ} by_number ((2, 20) ∷ (1, 10) ∷ []) []))
    × (2 ^ (height t.root / 2) ≤ t.size + 1)
new_avl_tree_from-IsLow_example =
    new_avl_tree_from-IsLow by_number ((2, 20) ∷ (1, 10) ∷ []) false by_number-IsWeakOrder

abbrev first_keys : List ℕ → ℕ × ℕ → List ℕ × Bool
first_keys ks (k, _) = (k ∷ ks, leb k 3)

iterate_lem_example :
    (iterate 12 right first_keys sample.root [] ≡ fold_until first_keys (entries sample.root) [])
    × (iterate 12 left first_keys sample.root []
        ≡ fold_until first_keys (reverse (entries sample.root)) [])
iterate_lem_example = iterate_lem 12 first_keys sample.root [] (omega arith)

floor-ceiling_example :
    (floor sample 12 ≡ last_or (at_most by_number 12 (items sample)) none)
    × (ceiling sample 12 ≡ first_or (at_least by_number 12 (items sample)) none)
floor-ceiling_example = floor-ceiling sample 12 sample-IsValid.ordered
