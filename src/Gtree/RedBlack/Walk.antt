-- ===== src/Gtree/RedBlack/Walk.antt =====
-- container/gtree/gtree_redblacktree.go: IteratorAsc and IteratorAscFrom, which go from node to node
-- by the pointers and find the way up by comparing keys.
pub mod Laws
use gf.Prelude.{
  ℕ, zero, suc, Ordering, Bool, true, false, if◌then◌else◌, List, [], ◌∷◌, Option, none, some,
}
use gf.Gtree.Comparator.{Comparator, sign}
use gf.Gtree.RedBlack.{RbTree, leaf, node, Side, left, right, Frame, plug}
use gf.Gtree.RedBlack.Map.{RedBlackTree}
use gf.Gtree.RedBlack.Delete.{Place, locate}

module _ {ℓ κ} {K : Type ℓ} {V : Type κ} where
  -- `leftNode`, below a path, and `for node.left != nil { node = node.left }`
  unfoldable pub first_place : RbTree K V → List (Frame K V) → Option (Place K V)
  first_place leaf path = none
  first_place (node c leaf k v r) path =
      some (record { color = c; lower = leaf; key = k; value = v; upper = r; path = path })
  first_place (node c (node lc ll lk lv lr) k v r) path =
      first_place (node lc ll lk lv lr)
        (record { side = left; color = c; key = k; value = v; sibling = r } ∷ path)

  -- the parent of the node `n`
  abbrev pub parent_place : RbTree K V → Frame K V → List (Frame K V) → Place K V
  parent_place n f path = elim f.side [
    | left ↦ record {
      color = f.color;
      lower = n;
      key = f.key;
      value = f.value;
      upper = f.sibling;
      path = path;
    }
    | right ↦ record {
      color = f.color;
      lower = f.sibling;
      key = f.key;
      value = f.value;
      upper = n;
      path = path;
    }
  ]

  -- `for node.parent != nil { node = node.parent; if comparator(old.Key, node.Key) <= 0 { goto loop } }`
  unfoldable pub climb_up : Comparator K → K → RbTree K V → List (Frame K V) → Option (Place K V)
  climb_up cmp old n [] = none
  climb_up cmp old n (f ∷ path) =
      let further = climb_up cmp old (plug f n) path in
      elim (sign (cmp old f.key)) [ Ordering.gt ↦ further | _ ↦ some (parent_place n f path) ]

  -- one round of `doIteratorAsc` after the callback
  unfoldable pub next_place : Comparator K → Place K V → Option (Place K V)
  unfolding first_place climb_up
  next_place cmp p = elim p.upper [
    | leaf ↦ climb_up cmp p.key (node p.color p.lower p.key p.value p.upper) p.path
    | node c l k v r ↦ first_place (node c l k v r) (
        record { side = right; color = p.color; key = p.key; value = p.value; sibling = p.lower }
        ∷ p.path)
  ]

  -- `doIteratorAsc`: the callback goes from one state to the next, and its Bool says whether to go
  -- on. The fuel bounds the rounds.
  unfoldable pub do_iterator_asc {σ} :
      {S : Type σ} → ℕ → Comparator K → (S → K × V → S × Bool) → Option (Place K V) → S → S
  unfolding next_place
  do_iterator_asc zero cmp f n s = s
  do_iterator_asc (suc fuel) cmp f none s = s
  do_iterator_asc (suc fuel) cmp f (some p) s =
      let (s', go) = f s (p.key, p.value) in
      let rest = do_iterator_asc fuel cmp f (next_place cmp p) s' in if go then rest else s'

  unfoldable pub iterator_asc {σ} :
      {S : Type σ} → ℕ → RedBlackTree K V → (S → K × V → S × Bool) → S → S
  unfolding first_place do_iterator_asc
  iterator_asc fuel t f s = do_iterator_asc fuel t.comparator f (first_place t.root []) s

  -- `IteratorAscFrom`: `doSearch` returns nil for a key that is not there, so that `match` is of no
  -- effect
  unfoldable pub iterator_asc_from {σ} :
      {S : Type σ} → ℕ → RedBlackTree K V → K → (S → K × V → S × Bool) → S → S
  unfolding locate do_iterator_asc
  iterator_asc_from fuel t q f s =
      do_iterator_asc fuel t.comparator f (locate t.comparator q t.root []) s
