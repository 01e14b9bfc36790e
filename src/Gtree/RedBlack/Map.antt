-- ===== src/Gtree/RedBlack/Map.antt =====
-- container/gtree/gtree_redblacktree.go: the methods of RedBlackTree but those that remove, on the
-- record that it is. The mutex serialises the calls; of it the record keeps the switch `safe`.
pub mod Laws
pub mod Reads
use gf.Prelude.{
  ℕ, suc, ◌==◌, Ordering, Bool, true, false, not, List, [], ◌∷◌, Option, none, some, if◌then◌else◌,
}
use gf.Prelude.Outcome.{Outcome, ok, panic, ◌>>=◌}
use gf.Gtree.Comparator.{Comparator, sign}
use gf.Gtree.Avl.Map.{Supplied, supplied_value}
use gf.Gtree.RedBlack.{RbTree, leaf, node, arrive, descend, search_node}

-- `mu` is its switch `safe`.
pub record RedBlackTree {ℓ κ} (K : Type ℓ) (V : Type κ) : Type (ℓ ⊔ κ) where
  pub safe : Bool
  pub root : RbTree K V
  pub size : ℕ
  pub comparator : Comparator K

module _ {ℓ κ} {K : Type ℓ} {V : Type κ} where
  -- `NewRedBlackTree`
  unfoldable pub new_red_black_tree : Comparator K → Bool → RedBlackTree K V
  new_red_black_tree cmp safe = record { safe = safe; root = leaf; size = 0; comparator = cmp }

  -- `doSet`; a key that is there gets the value and no new node
  unfoldable pub do_set : RedBlackTree K V → K → V → Outcome (RedBlackTree K V)
  unfolding descend arrive
  do_set t q w = do
    (root, new) ← arrive (descend t.comparator q w t.root [])
    ok (record t { root = root; size = (if new then suc t.size else t.size) })

  -- `Sets`, and the loops of `NewRedBlackTreeFrom` and `Replace`: the map is the list of its entries,
  -- in the order in which `range` gives them.
  unfoldable pub sets : RedBlackTree K V → List (K × V) → Outcome (RedBlackTree K V)
  unfolding do_set
  sets t [] = ok t
  sets t ((q, w) ∷ kvs) = do_set t q w >>= λ t'. sets t' kvs

  -- `Search`: the value and `found` are an Option.
  unfoldable pub search : RedBlackTree K V → K → Option V
  unfolding search_node
  search t q = elim (search_node t.comparator q t.root) [ none ↦ none | some (_, v) ↦ some v ]

  -- `Contains`
  unfoldable pub contains : RedBlackTree K V → K → Bool
  unfolding search
  contains t q = elim (search t q) [ none ↦ false | some _ ↦ true ]

  -- `IsEmpty`
  unfoldable pub is_empty : RedBlackTree K V → Bool
  is_empty t = t.size == 0

  -- `Clear`
  unfoldable pub clear : RedBlackTree K V → RedBlackTree K V
  clear t = record t { root = leaf; size = 0 }

  -- `Replace`
  unfoldable pub replace : RedBlackTree K V → List (K × V) → Outcome (RedBlackTree K V)
  unfolding clear sets
  replace t kvs = sets (clear t) kvs

  -- `NewRedBlackTreeFrom`
  unfoldable pub new_red_black_tree_from :
      Comparator K → List (K × V) → Bool → Outcome (RedBlackTree K V)
  unfolding new_red_black_tree sets
  new_red_black_tree_from cmp kvs safe = sets (new_red_black_tree cmp safe) kvs

  -- `leftNode` and `rightNode`: `p` is the node before
  unfoldable pub leftmost : RbTree K V → Option (K × V) → Option (K × V)
  leftmost leaf p = p
  leftmost (node c l k v r) p = leftmost l (some (k, v))

  unfoldable pub rightmost : RbTree K V → Option (K × V) → Option (K × V)
  rightmost leaf p = p
  rightmost (node c l k v r) p = rightmost r (some (k, v))

  -- the loop of `Floor`: `best` is the result so far
  unfoldable pub floor_loop : Comparator K → K → RbTree K V → Option (K × V) → Option (K × V)
  floor_loop cmp q leaf best = best
  floor_loop cmp q (node c l k v r) best = elim (sign (cmp q k)) [
    | Ordering.eq ↦ some (k, v)
    | Ordering.lt ↦ floor_loop cmp q l best
    | Ordering.gt ↦ floor_loop cmp q r (some (k, v))
  ]

  -- the loop of `Ceiling`
  unfoldable pub ceiling_loop : Comparator K → K → RbTree K V → Option (K × V) → Option (K × V)
  ceiling_loop cmp q leaf best = best
  ceiling_loop cmp q (node c l k v r) best = elim (sign (cmp q k)) [
    | Ordering.eq ↦ some (k, v)
    | Ordering.gt ↦ ceiling_loop cmp q r best
    | Ordering.lt ↦ ceiling_loop cmp q l (some (k, v))
  ]

  -- `Floor`
  unfoldable pub floor : RedBlackTree K V → K → Option (K × V)
  unfolding floor_loop
  floor t q = floor_loop t.comparator q t.root none

  -- `Ceiling`
  unfoldable pub ceiling : RedBlackTree K V → K → Option (K × V)
  unfolding ceiling_loop
  ceiling t q = ceiling_loop t.comparator q t.root none

  -- The node that `Left` and `Right` return. On an empty tree a safe one reads through nil.
  unfoldable pub end_node : RedBlackTree K V → Option (K × V) → Outcome (Option (K × V))
  end_node t (some e) = ok (some e)
  end_node t none = if t.safe then panic else ok none

  unfoldable pub left_node : RedBlackTree K V → Outcome (Option (K × V))
  unfolding leftmost end_node
  left_node t = end_node t (leftmost t.root none)

  unfoldable pub right_node : RedBlackTree K V → Outcome (Option (K × V))
  unfolding rightmost end_node
  right_node t = end_node t (rightmost t.root none)

module _ {ℓ κ} {K : Type ℓ} {V : Type κ} (is_nil : V → Bool) where
  -- `doSetWithLockCheck`
  unfoldable pub do_set_with_lock_check :
      RedBlackTree K V → K → Supplied V → Outcome (RedBlackTree K V × V)
  unfolding search_node do_set
  do_set_with_lock_check t q s = elim (search_node t.comparator q t.root) [
    | some (_, v) ↦ ok (t, v)
    | none ↦
        let v = supplied_value s in
        if is_nil v then ok (t, v) else (do t' ← do_set t q v; ok (t', v))
  ]

  -- `GetOrSet`, `GetOrSetFunc` (with `plain`) and `GetOrSetFuncLock` (with `callback`)
  unfoldable pub get_or_set : RedBlackTree K V → K → Supplied V → Outcome (RedBlackTree K V × V)
  unfolding search do_set_with_lock_check
  get_or_set t q s = elim (search t q) [ some v ↦ ok (t, v) | none ↦ do_set_with_lock_check t q s ]

  -- `SetIfNotExist`, and its two variants likewise
  unfoldable pub set_if_not_exist :
      RedBlackTree K V → K → Supplied V → Outcome (RedBlackTree K V × Bool)
  unfolding contains do_set_with_lock_check
  set_if_not_exist t q s =
      if not (contains t q)
      then (do (t', _) ← do_set_with_lock_check t q s; ok (t', true))
      else ok (t, false)
