-- ===== src/Gtree/RedBlack/Delete.antt =====
-- container/gtree/gtree_redblacktree.go: `doRemove` and the cases of the deletion. The cases read
-- the node's parent, its sibling and the sibling's children, and nothing below the node itself, so
-- that here the node's place holds already the child that `replaceNode` puts there at the end.
pub mod Laws
pub mod Repair
pub mod Ascent
pub mod Removal
pub mod Remove
pub mod Fault
use gf.Prelude.{
  ℕ, ◌-◌, Ordering, Bool, true, false, not, ◌&&◌, if◌then◌else◌, List, [], ◌∷◌, Option, none, some,
}
use gf.Prelude.Outcome.{Outcome, ok, panic, ◌>>=◌}
use gf.Gtree.Comparator.{Comparator, sign}
use gf.Gtree.RedBlack.{
  Color, black, red, Side, left, right, is_red, is_left, RbTree, leaf, node, Frame, node_color,
  set_color, join, plug, root_of, rotate_left, rotate_right,
}
use gf.Gtree.RedBlack.Map.{RedBlackTree}

-- a node that is not nil, with its path
pub record Place {ℓ κ} (K : Type ℓ) (V : Type κ) : Type (ℓ ⊔ κ) where
  pub color : Color
  pub lower : RbTree K V
  pub key : K
  pub value : V
  pub upper : RbTree K V
  pub path : List (Frame K V)

module _ {ℓ κ} {K : Type ℓ} {V : Type κ} where
  -- the sibling's child beside the node, and the one away from it
  abbrev pub nephews : Side → RbTree K V → Outcome (RbTree K V × RbTree K V)
  nephews s leaf = panic
  nephews left (node c l k v r) = ok (l, r)
  nephews right (node c l k v r) = ok (r, l)

  -- whether the sibling and its children are black
  unfoldable pub is_all_black : Side → RbTree K V → Outcome Bool
  is_all_black s x = if is_red (node_color x) then ok false else (do
    (near, far) ← nephews s x
    ok (not (is_red (node_color near)) && not (is_red (node_color far))))

  -- the rotation of the parent towards the node: the frames of the parent and of the sibling
  unfoldable pub rotate_over : Frame K V → Outcome (Frame K V × Frame K V)
  rotate_over f = elim f.sibling [
    | leaf ↦ panic
    | node c l k v r ↦ elim f.side [
      | left ↦ ok (
        record f { sibling = l },
        record { side = left; color = c; key = k; value = v; sibling = r },
      )
      | right ↦ ok (
        record f { sibling = r },
        record { side = right; color = c; key = k; value = v; sibling = l },
      )
    ]
  ]

  -- `deleteCase5`: the sibling after it
  unfoldable pub delete_case5 : Side → RbTree K V → Outcome (RbTree K V)
  delete_case5 s x = if is_red (node_color x) then ok x else (do
    (near, far) ← nephews s x
    if is_red (node_color near) && not (is_red (node_color far)) then turn s x else ok x)
    where
      turn : Side → RbTree K V → Outcome (RbTree K V)
      turn s leaf = panic
      turn left (node c l k v r) = do l' ← set_color black l; rotate_right (node red l' k v r)
      turn right (node c l k v r) = do r' ← set_color black r; rotate_left (node red l k v r')

  -- `sibling.right.color = black`, or `left`: of the child away from the node
  unfoldable pub blacken_far : Side → RbTree K V → Outcome (RbTree K V)
  blacken_far s leaf = panic
  blacken_far left (node c l k v r) = do r' ← set_color black r; ok (node c l k v r')
  blacken_far right (node c l k v r) = do l' ← set_color black l; ok (node c l' k v r)

  -- `if node.parent == nil && child != nil { child.color = black }`
  unfoldable pub blacken_root : List (Frame K V) → RbTree K V → RbTree K V
  blacken_root [] (node c l k v r) = node black l k v r
  blacken_root path t = t

  -- `deleteCase6`; `bottom` says that the node is the one that goes. The last turn, of a left node
  -- whose sibling has a red left child and a black right one, lifts the node over its parent: if it is
  -- the one that goes, then its child takes its place there, and the parent is lost with it.
  unfoldable pub delete_case6 :
      Bool → RbTree K V → Frame K V → List (Frame K V) → Outcome (RbTree K V)
  unfolding rotate_over blacken_far blacken_root
  delete_case6 bottom n f path = do
    sibling ← set_color f.color f.sibling
    (near, far) ← nephews f.side sibling
    let turned = do
      sibling' ← blacken_far f.side sibling
      (f', g) ← rotate_over (record f { color = black; sibling = sibling' })
      ok (root_of path (plug g (plug f' n)))
    let lifted = do
      sibling' ← blacken_far right sibling
      t ← rotate_right (plug (record f { color = black; sibling = sibling' }) n)
      ok (root_of path t)
    let still = ok (root_of path (plug (record f { color = black; sibling = sibling }) n))
    if is_red (node_color far)
        then turned
        else (if is_left f.side && is_red (node_color near)
            then (if bottom then ok (root_of path (blacken_root path n)) else lifted)
            else still)

  unfoldable pub delete_case4 :
      Bool → RbTree K V → Frame K V → List (Frame K V) → Outcome (RbTree K V)
  unfolding is_all_black delete_case5 delete_case6
  delete_case4 bottom n f path =
      let rest = do
        sibling ← delete_case5 f.side f.sibling
        delete_case6 bottom n (record f { sibling = sibling }) path
      in if is_red f.color
        then (do
          plain ← is_all_black f.side f.sibling
          if plain
              then (do
                sibling ← set_color red f.sibling
                ok (root_of path (plug (record f { color = black; sibling = sibling }) n)))
              else rest)
        else rest

  -- `deleteCase1`, with `deleteCase2` and `deleteCase3`: under the parent that `deleteCase2` makes
  -- red, `deleteCase3` goes on to `deleteCase4`.
  unfoldable pub delete_case1 : Bool → RbTree K V → List (Frame K V) → Outcome (RbTree K V)
  unfolding is_all_black rotate_over delete_case4
  delete_case1 bottom n [] = ok n
  delete_case1 bottom n (f ∷ path) =
      let red_sibling = do
        sibling ← set_color black f.sibling
        (f', g) ← rotate_over (record f { color = red; sibling = sibling })
        delete_case4 bottom n f' (g ∷ path)
      in let repaint = do
        sibling ← set_color red f.sibling
        delete_case1 false (plug (record f { sibling = sibling }) n) path
        in let black_parent = do
          plain ← is_all_black f.side f.sibling
          if plain then repaint else delete_case4 bottom n f path
          in if is_red (node_color f.sibling)
            then red_sibling
            else (if is_red f.color then delete_case4 bottom n f path else black_parent)

  -- `maximumNode` of the left subtree: its right child if it has one, and itself otherwise; with the
  -- frame of the node above
  unfoldable pub maximum_node :
      Color → RbTree K V → K → V → RbTree K V → (K → V → Frame K V) → List (Frame K V) → Place K V
  maximum_node c l k v (node rc rl rk rv rr) above path = record {
    color = rc;
    lower = rl;
    key = rk;
    value = rv;
    upper = rr;
    path = record { side = right; color = c; key = k; value = v; sibling = l } ∷ above rk rv ∷ path;
  }
  maximum_node c l k v leaf above path = record {
    color = c;
    lower = l;
    key = k;
    value = v;
    upper = leaf;
    path = above k v ∷ path;
  }

  -- the child that takes the place of a node
  unfoldable pub put_child : Color → List (Frame K V) → RbTree K V → Outcome (RbTree K V)
  unfolding delete_case1 blacken_root
  put_child c path child =
      let n = blacken_root path child in
      if is_red c then ok (root_of path n) else delete_case1 true n path

  -- the last part of `doRemove`, at the node that is to go: nothing goes if it has two children
  unfoldable pub cut_node : Place K V → Outcome (RbTree K V)
  unfolding put_child
  cut_node p = elim p.upper [
    | leaf ↦ put_child p.color p.path p.lower
    | node rc rl rk rv rr ↦ elim p.lower [
      | leaf ↦ put_child p.color p.path p.upper
      | node lc ll lk lv lr ↦ ok (root_of p.path (node p.color p.lower p.key p.value p.upper))
    ]
  ]

  -- the node that `doRemove` works on: the one found, or the one whose entry it copies there
  unfoldable pub chosen_node : Place K V → Place K V
  unfolding maximum_node
  chosen_node p = elim p.upper [
    | leaf ↦ p
    | node rc rl rk rv rr ↦ elim p.lower [
      | leaf ↦ p
      | node lc ll lk lv lr ↦
          maximum_node lc ll lk lv lr
            (λ k v. record { side = left; color = p.color; key = k; value = v; sibling = p.upper })
            p.path
    ]
  ]

module _ {ℓ κ} {K : Type ℓ} {V : Type κ} where
  -- `doSearch`, with the path of the node
  unfoldable pub locate : Comparator K → K → RbTree K V → List (Frame K V) → Option (Place K V)
  locate cmp q leaf path = none
  locate cmp q (node c l k v r) path = elim (sign (cmp q k)) [
    | Ordering.eq ↦
        some (record { color = c; lower = l; key = k; value = v; upper = r; path = path })
    | Ordering.lt ↦
        locate cmp q l (record { side = left; color = c; key = k; value = v; sibling = r } ∷ path)
    | Ordering.gt ↦
        locate cmp q r (record { side = right; color = c; key = k; value = v; sibling = l } ∷ path)
  ]

  -- `doRemove`
  unfoldable pub do_remove : RedBlackTree K V → K → Outcome (RedBlackTree K V × Option V)
  unfolding locate chosen_node cut_node
  do_remove t q = elim (locate t.comparator q t.root []) [
    | none ↦ ok (t, none)
    | some p ↦ do
      root ← cut_node (chosen_node p)
      ok (record t { root = root; size = t.size - 1 }, some p.value)
  ]

  -- `Removes`
  unfoldable pub do_removes : RedBlackTree K V → List K → Outcome (RedBlackTree K V)
  unfolding do_remove
  do_removes t [] = ok t
  do_removes t (q ∷ qs) = do_remove t q >>= λ (t', _). do_removes t' qs
