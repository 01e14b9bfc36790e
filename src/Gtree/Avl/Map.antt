-- ===== src/Gtree/Avl/Map.antt =====
-- container/gtree/gtree_avltree.go: the methods of AVLTree, on the record that it is. The mutex
-- serialises the calls; of it the record keeps the switch `safe`.
pub mod Laws
pub mod Reads
pub mod Nearest
pub mod Batch
pub mod Low
pub mod Validity
use gf.Prelude.{
  ℕ, Ordering, Bool, true, false, not, ◌==◌, List, [], ◌∷◌, Option, none, some, if◌then◌else◌,
}
use gf.Prelude.Outcome.{Outcome, ok, panic, ◌>>=◌}
use gf.Gtree.Comparator.{Comparator, sign}
use gf.Gtree.Avl.{Tree, leaf, node, left, right, put, remove, search_node, bottom}

-- `mu` is its switch `safe`.
pub record AvlTree {ℓ κ} (K : Type ℓ) (V : Type κ) : Type (ℓ ⊔ κ) where
  pub safe : Bool
  pub root : Tree K V
  pub comparator : Comparator K
  pub size : ℕ

module _ {ℓ κ} {K : Type ℓ} {V : Type κ} where
  -- `NewAVLTree`
  unfoldable pub new_avl_tree : Comparator K → Bool → AvlTree K V
  new_avl_tree cmp safe = record { safe = safe; root = leaf; comparator = cmp; size = 0 }

  -- `Set`
  unfoldable pub set_key : AvlTree K V → K → V → Outcome (AvlTree K V)
  set_key t q w = do
    (root, size, _) ← put t.comparator q w t.size t.root
    ok (record t { root = root; size = size })

  -- `Sets`: the map is the list of its entries, in the order in which `range` gives them.
  unfoldable pub sets : AvlTree K V → List (K × V) → Outcome (AvlTree K V)
  unfolding set_key
  sets t [] = ok t
  sets t ((q, w) ∷ kvs) = set_key t q w >>= λ t'. sets t' kvs

  -- `Search`: the value and `found` are an Option.
  unfoldable pub search_key : AvlTree K V → K → Option V
  unfolding search_node
  search_key t q = elim (search_node t.comparator q t.root) [ none ↦ none | some (_, v) ↦ some v ]

  -- `Contains`
  unfoldable pub contains : AvlTree K V → K → Bool
  unfolding search_key
  contains t q = elim (search_key t q) [ none ↦ false | some _ ↦ true ]

  -- `Remove`
  unfoldable pub remove_key : AvlTree K V → K → Outcome (AvlTree K V × Option V)
  remove_key t q = do
    (root, (size, value), _) ← remove t.comparator q t.size t.root
    ok (record t { root = root; size = size }, value)

  -- `Removes`
  unfoldable pub removes : AvlTree K V → List K → Outcome (AvlTree K V)
  unfolding remove_key
  removes t [] = ok t
  removes t (q ∷ qs) = remove_key t q >>= λ (t', _). removes t' qs

  -- `IsEmpty`
  unfoldable pub is_empty : AvlTree K V → Bool
  is_empty t = t.size == 0

  -- `Clear`
  unfoldable pub clear : AvlTree K V → AvlTree K V
  clear t = record t { root = leaf; size = 0 }

  -- `Replace`
  unfoldable pub replace : AvlTree K V → List (K × V) → Outcome (AvlTree K V)
  unfolding clear sets
  replace t kvs = sets (clear t) kvs

  -- `NewAVLTreeFrom`
  unfoldable pub new_avl_tree_from : Comparator K → List (K × V) → Bool → Outcome (AvlTree K V)
  unfolding new_avl_tree sets
  new_avl_tree_from cmp kvs safe = sets (new_avl_tree cmp safe) kvs

  -- The node that `Left` and `Right` return. On an empty tree a safe one reads through nil.
  unfoldable pub end_node : AvlTree K V → Option (K × V) → Outcome (Option (K × V))
  end_node t (some e) = ok (some e)
  end_node t none = if t.safe then panic else ok none

  unfoldable pub left_node : AvlTree K V → Outcome (Option (K × V))
  unfolding bottom end_node
  left_node t = end_node t (bottom left t.root)

  unfoldable pub right_node : AvlTree K V → Outcome (Option (K × V))
  unfolding bottom end_node
  right_node t = end_node t (bottom right t.root)

  -- the loop of `Floor`: `best` is the result so far
  unfoldable pub floor_loop : Comparator K → K → Tree K V → Option (K × V) → Option (K × V)
  floor_loop cmp q leaf best = best
  floor_loop cmp q (node b l k v r) best = elim (sign (cmp q k)) [
    | Ordering.eq ↦ some (k, v)
    | Ordering.lt ↦ floor_loop cmp q l best
    | Ordering.gt ↦ floor_loop cmp q r (some (k, v))
  ]

  -- `Floor`
  unfoldable pub floor : AvlTree K V → K → Option (K × V)
  unfolding floor_loop
  floor t q = floor_loop t.comparator q t.root none

  unfoldable pub ceiling_loop : Comparator K → K → Tree K V → Option (K × V) → Option (K × V)
  ceiling_loop cmp q leaf best = best
  ceiling_loop cmp q (node b l k v r) best = elim (sign (cmp q k)) [
    | Ordering.eq ↦ some (k, v)
    | Ordering.gt ↦ ceiling_loop cmp q r best
    | Ordering.lt ↦ ceiling_loop cmp q l (some (k, v))
  ]

  -- `Ceiling`
  unfoldable pub ceiling : AvlTree K V → K → Option (K × V)
  unfolding ceiling_loop
  ceiling t q = ceiling_loop t.comparator q t.root none

-- The `value` of the GetOrSet family: a value, or a `func() interface{}` that would return it.
pub data Supplied {κ} (V : Type κ) : Type κ where
  plain : V → Supplied V
  callback : V → Supplied V

abbrev pub supplied_value {κ} : {V : Type κ} → Supplied V → V
supplied_value (plain v) = v
supplied_value (callback v) = v

module _ {ℓ κ} {K : Type ℓ} {V : Type κ} (is_nil : V → Bool) where
  -- `doSetWithLockCheck`
  unfoldable pub do_set_with_lock_check : AvlTree K V → K → Supplied V → Outcome (AvlTree K V × V)
  unfolding search_node set_key
  do_set_with_lock_check t q s = elim (search_node t.comparator q t.root) [
    | some (_, v) ↦ ok (t, v)
    | none ↦
        let v = supplied_value s in
        if is_nil v then ok (t, v) else (do t' ← set_key t q v; ok (t', v))
  ]

  -- `GetOrSet`, `GetOrSetFunc` (with `plain`) and `GetOrSetFuncLock` (with `callback`)
  unfoldable pub get_or_set : AvlTree K V → K → Supplied V → Outcome (AvlTree K V × V)
  unfolding search_key do_set_with_lock_check
  get_or_set t q s = elim (search_key t q) [
    | some v ↦ ok (t, v)
    | none ↦ do_set_with_lock_check t q s
  ]

  -- `SetIfNotExist`, and its two variants likewise
  unfoldable pub set_if_not_exist : AvlTree K V → K → Supplied V → Outcome (AvlTree K V × Bool)
  unfolding contains do_set_with_lock_check
  set_if_not_exist t q s =
      if not (contains t q)
      then (do (t', _) ← do_set_with_lock_check t q s; ok (t', true))
      else ok (t, false)
