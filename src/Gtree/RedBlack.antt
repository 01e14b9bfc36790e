-- ===== src/Gtree/RedBlack.antt =====
-- container/gtree/gtree_redblacktree.go: the insertion, on the nodes that its pointers reach. A node
-- under work is a subtree with its path: the frames above it, the nearest first. A frame holds the
-- parent and the parent's other child. A nil pointer that the code follows is a panic.
pub mod Delete
pub mod Walk
pub mod Inorder
pub mod Coloured
pub mod Recolour
pub mod Insert
pub mod Map
mod Tests
use gf.Prelude.{
  Ordering, Bool, true, false, not, ◌&&◌, if◌then◌else◌, List, [], ◌∷◌, Option, none, some,
}
use gf.Prelude.Outcome.{Outcome, ok, panic, ◌>>=◌}
use gf.Gtree.Comparator.{Comparator, sign}

pub data Color : Type 0 where
  black red : Color

pub data Side : Type 0 where
  left right : Side

abbrev pub is_red : Color → Bool
is_red red = true
is_red black = false

abbrev pub is_left : Side → Bool
is_left left = true
is_left right = false

-- `*RedBlackTreeNode`; `leaf` is nil
pub data RbTree {ℓ κ} (K : Type ℓ) (V : Type κ) : Type (ℓ ⊔ κ) where
  leaf : RbTree K V
  node : Color → RbTree K V → K → V → RbTree K V → RbTree K V

-- The node is the child on `side` of the parent; `sibling` is the other child.
pub record Frame {ℓ κ} (K : Type ℓ) (V : Type κ) : Type (ℓ ⊔ κ) where
  pub side : Side
  pub color : Color
  pub key : K
  pub value : V
  pub sibling : RbTree K V

module _ {ℓ κ} {K : Type ℓ} {V : Type κ} where
  abbrev pub node_color : RbTree K V → Color
  node_color leaf = black
  node_color (node c l k v r) = c

  -- `node.color = c`
  abbrev pub set_color : Color → RbTree K V → Outcome (RbTree K V)
  set_color c leaf = panic
  set_color c (node _ l k v r) = ok (node c l k v r)

  -- a parent with its children
  abbrev pub join : Side → Color → K → V → RbTree K V → RbTree K V → RbTree K V
  join left c k v t sibling = node c t k v sibling
  join right c k v t sibling = node c sibling k v t

  abbrev pub plug : Frame K V → RbTree K V → RbTree K V
  plug f t = join f.side f.color f.key f.value t f.sibling

  -- the root above a node
  abbrev pub root_of : List (Frame K V) → RbTree K V → RbTree K V
  root_of [] t = t
  root_of (f ∷ path) t = root_of path (plug f t)

  unfoldable pub rotate_left : RbTree K V → Outcome (RbTree K V)
  rotate_left (node c l k v (node rc rl rk rv rr)) = ok (node rc (node c l k v rl) rk rv rr)
  rotate_left _ = panic

  unfoldable pub rotate_right : RbTree K V → Outcome (RbTree K V)
  rotate_right (node c (node lc ll lk lv lr) k v r) = ok (node lc ll lk lv (node c lr k v r))
  rotate_right _ = panic

  -- `insertCase5`: the node, its parent, its grandparent and what is above
  unfoldable pub insert_case5 :
      RbTree K V → Frame K V → Frame K V → List (Frame K V) → Outcome (RbTree K V)
  unfolding rotate_left rotate_right
  insert_case5 n f g path = do
    let top = plug (record g { color = red }) (plug (record f { color = black }) n)
    turned ←
        if is_left f.side && is_left g.side
        then rotate_right top
        else if not (is_left f.side) && not (is_left g.side)
        then rotate_left top
        else ok top
    ok (root_of path turned)

  -- the node and its parent after the first rotation, as a node and the frame over it
  abbrev pub step_left : RbTree K V → Outcome (RbTree K V × Frame K V)
  step_left leaf = panic
  step_left (node c l k v r) =
      ok (l, record { side = left; color = c; key = k; value = v; sibling = r })

  abbrev pub step_right : RbTree K V → Outcome (RbTree K V × Frame K V)
  step_right leaf = panic
  step_right (node c l k v r) =
      ok (r, record { side = right; color = c; key = k; value = v; sibling = l })

  unfoldable pub insert_case4 :
      RbTree K V → Frame K V → Frame K V → List (Frame K V) → Outcome (RbTree K V)
  unfolding rotate_left rotate_right insert_case5
  insert_case4 n f g path = do
    (n', f') ←
        if is_left g.side
        then (if is_left f.side then ok (n, f) else rotate_left (plug f n) >>= step_left)
        else (if is_left f.side then rotate_right (plug f n) >>= step_right else ok (n, f))
    insert_case5 n' f' g path

  -- `insertCase1`, with `insertCase2` and `insertCase3`. A red parent that is the root has no parent
  -- that `insertCase4` or `insertCase5` could read.
  unfoldable pub insert_case1 : RbTree K V → List (Frame K V) → Outcome (RbTree K V)
  unfolding insert_case4
  insert_case1 n [] = set_color black n
  insert_case1 n (f ∷ []) = if is_red f.color then panic else ok (plug f n)
  insert_case1 n (f ∷ g ∷ path) =
      let repaint = do
        uncle ← set_color black g.sibling
        insert_case1
            (plug (record g { color = red; sibling = uncle }) (plug (record f { color = black }) n))
            path
      in let done = ok (root_of (f ∷ g ∷ path) n) in
        let turn = insert_case4 n f g path in
        if is_red f.color then (if is_red (node_color g.sibling) then repaint else turn) else done

-- where the loop of `doSet` ends: at a node with the key, or at a new node
pub data Arrival {ℓ κ} (K : Type ℓ) (V : Type κ) : Type (ℓ ⊔ κ) where
  replaced : RbTree K V → Arrival K V
  attached : RbTree K V → List (Frame K V) → Arrival K V

module _ {ℓ κ} {K : Type ℓ} {V : Type κ} where
  -- what follows the loop; the flag says that an entry was added
  unfoldable pub arrive : Arrival K V → Outcome (RbTree K V × Bool)
  unfolding insert_case1
  arrive (replaced root) = ok (root, false)
  arrive (attached n path) = do root ← insert_case1 n path; ok (root, true)

module _ {ℓ κ} {K : Type ℓ} {V : Type κ} (cmp : Comparator K) where
  -- the loop of `doSet`; the key of a node that is there stays
  unfoldable pub descend : K → V → RbTree K V → List (Frame K V) → Arrival K V
  descend q w leaf path = attached (node red leaf q w leaf) path
  descend q w (node c l k v r) path = elim (sign (cmp q k)) [
    | Ordering.eq ↦ replaced (root_of path (node c l k w r))
    | Ordering.lt ↦
        descend q w l (record { side = left; color = c; key = k; value = v; sibling = r } ∷ path)
    | Ordering.gt ↦
        descend q w r (record { side = right; color = c; key = k; value = v; sibling = l } ∷ path)
  ]

  -- `doSearch`
  unfoldable pub search_node : K → RbTree K V → Option (K × V)
  search_node q leaf = none
  search_node q (node c l k v r) = elim (sign (cmp q k)) [
    | Ordering.eq ↦ some (k, v)
    | Ordering.lt ↦ search_node q l
    | Ordering.gt ↦ search_node q r
  ]
