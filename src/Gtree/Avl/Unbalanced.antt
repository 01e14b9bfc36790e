-- ===== src/Gtree/Avl/Unbalanced.antt =====
-- AVLTree.remove where the height that it reports is wrong: what becomes of the node above.
use gf.Prelude.{ℕ, ◌-◌, ◌≡◌, Bool, true, false, Ordering, some, arith}
use gf.Prelude.Outcome.{ok, Ensures, Ensures-inv, Ensures-bind}
use gf.Gtree.Comparator.{Comparator, sign}
use gf.Gtree.Avl.{
  Balance, minus, even, plus, Side, left, right, Tree, leaf, node, remove_min, remove_here,
  remove_fix, remove, fix_if,
}
use gf.Gtree.Avl.Shape.{height, IsBalanced, RemoveResult}
use gf.Gtree.Avl.Balanced.{remove_min-IsBalanced, lowers_min}

module _ {ℓ κ} {K : Type ℓ} {V : Type κ} where
  -- `remove_fix right` where the left side is as high as the factor says
  fix_right_wrong :
      (b : Balance) (l : Tree K V) (k : K) (v : V) (r : Tree K V)
      → IsBalanced (node b l k v r)
      → Ensures (λ (t, _). ¬ IsBalanced t) (remove_fix right (node b l k v r))
  unfolding remove_fix
  fix_right_wrong even l k v r h = ground arith
  fix_right_wrong minus l k v r h = ground arith
  fix_right_wrong plus l k v (node plus rl rk rv rr) h = ground arith
  fix_right_wrong plus l k v (node even rl rk rv rr) h = ground arith
  fix_right_wrong plus l k v (node minus leaf rk rv rr) h = ground arith
  fix_right_wrong plus l k v (node minus (node minus a x y c) rk rv rr) h = ground arith
  fix_right_wrong plus l k v (node minus (node even a x y c) rk rv rr) h = ground arith
  fix_right_wrong plus l k v (node minus (node plus a x y c) rk rv rr) h = ground arith
  fix_right_wrong plus l k v leaf h = ground arith

  -- `remove_fix left` where the right side is as high as the factor says
  fix_left_wrong :
      (b : Balance) (l : Tree K V) (k : K) (v : V) (r : Tree K V)
      → IsBalanced (node b l k v r)
      → Ensures (λ (t, _). ¬ IsBalanced t) (remove_fix left (node b l k v r))
  unfolding remove_fix
  fix_left_wrong even l k v r h = ground arith
  fix_left_wrong plus l k v r h = ground arith
  fix_left_wrong minus (node minus ll lk lv lr) k v r h = ground arith
  fix_left_wrong minus (node even ll lk lv lr) k v r h = ground arith
  fix_left_wrong minus (node plus ll lk lv leaf) k v r h = ground arith
  fix_left_wrong minus (node plus ll lk lv (node minus a x y c)) k v r h = ground arith
  fix_left_wrong minus (node plus ll lk lv (node even a x y c)) k v r h = ground arith
  fix_left_wrong minus (node plus ll lk lv (node plus a x y c)) k v r h = ground arith
  fix_left_wrong minus leaf k v r h = ground arith

  -- a node with a child on the given side, and another one
  abbrev pub parent_of : Side → Balance → Tree K V → K → V → Tree K V → Tree K V
  parent_of left b t k v s = node b t k v s
  parent_of right b t k v s = node b s k v t

  pub child-IsBalanced :
      (c : Side) (b : Balance) (t : Tree K V) (k : K) (v : V) (s : Tree K V)
      → IsBalanced (parent_of c b t k v s)
      → IsBalanced t
  child-IsBalanced left b t k v s h = h.1
  child-IsBalanced right b t k v s h = h.2

abbrev pub toward : Side → Ordering
toward left = Ordering.lt
toward right = Ordering.gt

-- a tree that is reported as lower though it is balanced and as high as before
abbrev pub MisreportsHeight {ℓ κ μ} :
    {K : Type ℓ} {V : Type κ} {R : Type μ} → Tree K V → Tree K V × R × Bool → Type 0
MisreportsHeight t (t', _, fix) = IsBalanced t' × (height t' ≡ height t) × (fix ≡ true)

module _ {ℓ κ μ} {K : Type ℓ} {V : Type κ} {R : Type μ} where
  remove_here-misreports :
      (out : R) (b : Balance) (l : Tree K V) (k : K) (v : V) (r : Tree K V)
      → IsBalanced (node b l k v r)
      → lowers_min r ≡ false
      → Ensures (MisreportsHeight (node b l k v r)) (remove_here out b l r)
  unfolding remove_here
  remove_here-misreports out b l k v leaf h c = ground arith
  remove_here-misreports out b l k v (node rb rl rk rv rr) h c =
      let ((t, least, fix), e, p) =
        Ensures-inv (λ (t, _, fix). RemoveResult (height (node rb rl rk rv rr)) t fix)
          (remove_min (node rb rl rk rv rr)) (remove_min-IsBalanced rb rl rk rv rr h.2) in
      let kept : fix ≡ false = ground arith in
      let p' : RemoveResult (height (node rb rl rk rv rr)) t false = rw kept at p in
      rw (e, kept) (ground arith)

  -- the fix that the report leads to
  fixed_left :
      (b : Balance) (t : Tree K V) (k : K) (v : V) (s : Tree K V) (t' : Tree K V) (out : R)
      → IsBalanced (node b t k v s)
      → IsBalanced t'
      → height t' ≡ height t
      → Ensures (λ (u, _, _). ¬ IsBalanced u) (fix_if true (remove_fix right) (node b t' k v s) out)
  fixed_left b t k v s t' out h h' e =
      Ensures-bind (λ (u, _). ¬ IsBalanced u) (λ (u, _, _). ¬ IsBalanced u)
        (remove_fix right (node b t' k v s)) (λ (u, f). ok (u, out, f))
        (fix_right_wrong b t' k v s (rw e h.0, h', h.2)) (λ _ n. n)

  fixed_right :
      (b : Balance) (t : Tree K V) (k : K) (v : V) (s : Tree K V) (t' : Tree K V) (out : R)
      → IsBalanced (node b s k v t)
      → IsBalanced t'
      → height t' ≡ height t
      → Ensures (λ (u, _, _). ¬ IsBalanced u) (fix_if true (remove_fix left) (node b s k v t') out)
  fixed_right b t k v s t' out h h' e =
      Ensures-bind (λ (u, _). ¬ IsBalanced u) (λ (u, _, _). ¬ IsBalanced u)
        (remove_fix left (node b s k v t')) (λ (u, f). ok (u, out, f))
        (fix_left_wrong b s k v t' (rw e h.0, h.1, h')) (λ _ n. n)

module _ {ℓ κ} {K : Type ℓ} {V : Type κ} (cmp : Comparator K) where
  pub remove-misreports :
      (q : K) (size : ℕ) (b : Balance) (l : Tree K V) (k : K) (v : V) (r : Tree K V)
      → IsBalanced (node b l k v r)
      → sign (cmp q k) ≡ Ordering.eq
      → lowers_min r ≡ false
      → Ensures (MisreportsHeight (node b l k v r)) (remove cmp q size (node b l k v r))
  unfolding remove
  remove-misreports q size b l k v r h e c =
      rw (e, remove) (remove_here-misreports (size - 1, some v) b l k v r h c)

  pub remove-below :
      (q : K) (size : ℕ) (t : Tree K V) (side : Side) (b : Balance) (k : K) (v : V) (s : Tree K V)
      → IsBalanced (parent_of side b t k v s)
      → sign (cmp q k) ≡ toward side
      → Ensures (MisreportsHeight t) (remove cmp q size t)
      → Ensures (λ (u, _, _). ¬ IsBalanced u) (remove cmp q size (parent_of side b t k v s))
  unfolding remove
  remove-below q size t left b k v s h e m =
      let ((t', out, fix), f, p) = Ensures-inv (MisreportsHeight t) (remove cmp q size t) m in
      rw (e, remove, f, p.2) (fixed_left b t k v s t' out h p.0 p.1)
  remove-below q size t right b k v s h e m =
      let ((t', out, fix), f, p) = Ensures-inv (MisreportsHeight t) (remove cmp q size t) m in
      rw (e, remove, f, p.2) (fixed_right b t k v s t' out h p.0 p.1)
