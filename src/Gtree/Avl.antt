-- ===== src/Gtree/Avl.antt =====
-- container/gtree/gtree_avltree.go: the AVL tree, on the nodes that its pointers reach.
-- A node's parent pointer is not stored: it is the node above. The balance factor `b`, an int8
-- that is only ever -1, 0 or 1, is a `Balance`; the side `c` of a fix, -1 or 1, is a `Side`.
-- A nil pointer that the code follows is a panic.
pub mod Shape
pub mod Balanced
pub mod Unbalanced
pub mod Inorder
pub mod Ordered
pub mod Returns
pub mod Height
mod Tests
pub mod Walk
pub mod Map
use gf.Prelude.{ℕ, ◌+◌, ◌-◌, Ordering, if◌then◌else◌, Bool, true, false, Option, none, some}
use gf.Prelude.Outcome.{Outcome, ok, panic, ◌>>=◌}
use gf.Gtree.Comparator.{Comparator, sign}

pub data Balance : Type 0 where
  minus even plus : Balance

pub data Side : Type 0 where
  left right : Side

-- `c` as a balance factor, and `-c`
abbrev pub factor : Side → Balance
factor left = minus
factor right = plus

abbrev pub opposite : Side → Side
opposite left = right
opposite right = left

-- `x == y` on int8
abbrev pub is_factor : Balance → Balance → Bool
is_factor minus minus = true
is_factor even even = true
is_factor plus plus = true
is_factor _ _ = false

-- The `switch` of doubleRotate: the new factors of `s` and of `r`, by that of `p`.
unfoldable pub double_factors : Side → Balance → Balance × Balance
double_factors c b =
    if is_factor b (factor c)
    then (factor (opposite c), even)
    else if is_factor b (factor (opposite c))
    then (even, factor c)
    else (even, even)

-- `*AVLTreeNode`; `leaf` is nil
pub data Tree {ℓ κ} (K : Type ℓ) (V : Type κ) : Type (ℓ ⊔ κ) where
  leaf : Tree K V
  node : Balance → Tree K V → K → V → Tree K V → Tree K V

module _ {ℓ κ} {K : Type ℓ} {V : Type κ} where
  -- `s.b`, `s.b = b`, `s.children[a]` and `s.children[a] = t`
  abbrev pub balance : Tree K V → Outcome Balance
  balance leaf = panic
  balance (node b l k v r) = ok b

  abbrev pub set_balance : Balance → Tree K V → Outcome (Tree K V)
  set_balance b leaf = panic
  set_balance b (node _ l k v r) = ok (node b l k v r)

  abbrev pub child : Side → Tree K V → Outcome (Tree K V)
  child c leaf = panic
  child left (node b l k v r) = ok l
  child right (node b l k v r) = ok r

  abbrev pub set_child : Side → Tree K V → Tree K V → Outcome (Tree K V)
  set_child c t leaf = panic
  set_child left t (node b l k v r) = ok (node b t k v r)
  set_child right t (node b l k v r) = ok (node b l k v t)

  unfoldable pub rotate : Side → Tree K V → Outcome (Tree K V)
  rotate c s = do
    r ← child c s
    inner ← child (opposite c) r
    s' ← set_child c inner s
    set_child (opposite c) s' r

  unfoldable pub single_rotate : Side → Tree K V → Outcome (Tree K V)
  unfolding rotate
  single_rotate c s = do s' ← set_balance even s; r ← rotate c s'; set_balance even r

  -- After the two rotations `s` and `r` are the children of `p`.
  unfoldable pub double_rotate : Side → Tree K V → Outcome (Tree K V)
  unfolding rotate double_factors
  double_rotate c s = do
    r ← child c s
    lifted ← rotate (opposite c) r
    s' ← set_child c lifted s
    p ← rotate c s'
    b ← balance p
    let (bs, br) = double_factors c b
    s₁ ← child (opposite c) p
    r₁ ← child c p
    s₂ ← set_balance bs s₁
    r₂ ← set_balance br r₁
    p₁ ← set_child (opposite c) s₂ p
    p₂ ← set_child c r₂ p₁
    set_balance even p₂

  -- The result of a fix is what it returns, with the node that the pointer now leads to.
  unfoldable pub put_fix : Side → Tree K V → Outcome (Tree K V × Bool)
  unfolding single_rotate double_rotate
  put_fix c s = do
    b ← balance s
    let grown = do s' ← set_balance (factor c) s; ok (s', true)
    let level = do s' ← set_balance even s; ok (s', false)
    let turned = do
      t ← child c s
      bt ← balance t
      s' ← if is_factor bt (factor c) then single_rotate c s else double_rotate c s
      ok (s', false)
    if is_factor b even then grown else if is_factor b (factor (opposite c)) then level else turned

  unfoldable pub remove_fix : Side → Tree K V → Outcome (Tree K V × Bool)
  unfolding single_rotate double_rotate
  remove_fix c s = do
    b ← balance s
    let kept = do s' ← set_balance (factor c) s; ok (s', false)
    let level = do s' ← set_balance even s; ok (s', true)
    let slid = do r ← rotate c s; s' ← set_balance (factor (opposite c)) r; ok (s', false)
    let turned = do
      t ← child c s
      bt ← balance t
      let deep = do
        s' ← if is_factor bt (factor c) then single_rotate c s else double_rotate c s
        ok (s', true)
      if is_factor bt even then slid else deep
    if is_factor b even then kept else if is_factor b (factor (opposite c)) then level else turned

  -- `if fix { return …, removeFix(c, qp) }; return …, false`
  abbrev pub fix_if {μ} :
      {R : Type μ}
      → Bool
      → (Tree K V → Outcome (Tree K V × Bool))
      → Tree K V
      → R
      → Outcome (Tree K V × R × Bool)
  fix_if fix f t r = if fix then (do (t', fix') ← f t; ok (t', r, fix')) else ok (t, r, false)

  -- The least entry leaves the tree; the third part says that the tree is lower.
  unfoldable pub remove_min : Tree K V → Outcome (Tree K V × (K × V) × Bool)
  remove_min leaf = panic
  remove_min (node b leaf k v r) = ok (r, (k, v), true)
  remove_min (node b (node lb ll lk lv lr) k v r) = do
    (l, least, fix) ← remove_min (node lb ll lk lv lr)
    fix_if fix (remove_fix right) (node b l k v r) least

  -- The end nodes in a direction, `bottom(d)`.
  unfoldable pub bottom : Side → Tree K V → Option (K × V)
  bottom d leaf = none
  bottom left (node b leaf k v r) = some (k, v)
  bottom left (node b (node lb ll lk lv lr) k v r) = bottom left (node lb ll lk lv lr)
  bottom right (node b l k v leaf) = some (k, v)
  bottom right (node b l k v (node rb rl rk rv rr)) = bottom right (node rb rl rk rv rr)

  -- The case `c == 0` of `remove`, on the children of the node found. Where removeMin returns false
  -- the named result `fix` is still true.
  unfoldable pub remove_here {μ} :
      {R : Type μ} → R → Balance → Tree K V → Tree K V → Outcome (Tree K V × R × Bool)
  unfolding remove_min remove_fix
  remove_here out b l leaf = ok (l, out, true)
  remove_here out b l (node rb rl rk rv rr) = do
    (r, (k, v), fix) ← remove_min (node rb rl rk rv rr)
    if fix
        then (do (t, fix') ← remove_fix left (node b l k v r); ok (t, out, fix'))
        else ok (node b l k v r, out, true)

module _ {ℓ κ} {K : Type ℓ} {V : Type κ} (cmp : Comparator K) where
  -- `doSearch`
  unfoldable pub search_node : K → Tree K V → Option (K × V)
  search_node q leaf = none
  search_node q (node b l k v r) = elim (sign (cmp q k)) [
    | Ordering.eq ↦ some (k, v)
    | Ordering.lt ↦ search_node q l
    | Ordering.gt ↦ search_node q r
  ]

  -- `put`: the number is `tree.size`.
  unfoldable pub put : K → V → ℕ → Tree K V → Outcome (Tree K V × ℕ × Bool)
  put q w size leaf = ok (node even leaf q w leaf, size + 1, true)
  put q w size (node b l k v r) = elim (sign (cmp q k)) [
    | Ordering.eq ↦ ok (node b l q w r, size, false)
    | Ordering.lt ↦ do
      (l', size', fix) ← put q w size l
      fix_if fix (put_fix left) (node b l' k v r) size'
    | Ordering.gt ↦ do
      (r', size', fix) ← put q w size r
      fix_if fix (put_fix right) (node b l k v r') size'
  ]

  -- `remove`: the results are the tree, `tree.size` and the value, and `fix`.
  unfoldable pub remove : K → ℕ → Tree K V → Outcome (Tree K V × (ℕ × Option V) × Bool)
  remove q size leaf = ok (leaf, (size, none), false)
  remove q size (node b l k v r) = elim (sign (cmp q k)) [
    | Ordering.eq ↦ remove_here (size - 1, some v) b l r
    | Ordering.lt ↦ do
      (l', out, fix) ← remove q size l
      fix_if fix (remove_fix right) (node b l' k v r) out
    | Ordering.gt ↦ do
      (r', out, fix) ← remove q size r
      fix_if fix (remove_fix left) (node b l k v r') out
  ]
