-- ===== src/Gtree/Avl/Map/Low.antt =====
-- How high the trees are that NewAVLTreeFrom builds.
use gf.Prelude.{◌+◌, ◌/◌, ◌^◌, ◌≤◌, ◌≡◌, ◌∙◌, ap, Bool, List, [], length}
use gf.Prelude.Outcome.{ok}
use gf.Gtree.Comparator.{Comparator, IsWeakOrder}
use gf.Gtree.Avl.Shape.{height}
use gf.Gtree.Avl.Height.{height_bound}
use gf.Gtree.Avl.Map.{AvlTree, new_avl_tree_from}
use gf.Gtree.Avl.Map.Batch.{inserts, new_avl_tree_from_lem}

module _ {ℓ κ} {K : Type ℓ} {V : Type κ} where
  -- NewAVLTreeFrom returns, for any map, a tree whose size is the number of the entries set one after
  -- the other, and whose height h is low: the size is at least 2 ^ (h / 2) - 1.
  pub new_avl_tree_from-IsLow :
      (cmp : Comparator K) (kvs : List (K × V)) (safe : Bool)
      → IsWeakOrder cmp
      → (t : AvlTree K V) × (new_avl_tree_from cmp kvs safe ≡ ok t)
        × (t.size ≡ length (inserts cmp kvs []))
        × (2 ^ (height t.root / 2) ≤ t.size + 1)
  new_avl_tree_from-IsLow cmp kvs safe o =
      let (t, e, valid, contents) = new_avl_tree_from_lem cmp kvs safe o in
      let counted = valid.ordered.counted in
      (t, e, counted ∙ ap length contents, rw counted (height_bound t.root valid.balanced))
