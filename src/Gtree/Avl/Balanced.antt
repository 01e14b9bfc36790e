-- ===== src/Gtree/Avl/Balanced.antt =====
-- Insertion, and the removal of the least entry, keep an AVL tree balanced and do not panic.
use gf.Prelude.{ℕ, suc, ◌-◌, max, ◌≡◌, refl, Bool, true, false, Ordering, some, arith}
use gf.Prelude.Outcome.{ok, panic, Ensures, Ensures-bind, Ensures-inv}
use gf.Gtree.Comparator.{Comparator, sign, order_case, is_lt, is_eq, is_gt}
use gf.Gtree.Avl.{
  Balance, Tree, leaf, node, put_fix, remove_fix, fix_if, remove_min, remove_here, put, remove,
  left, right,
}
use gf.Gtree.Avl.Shape.{
  Fits, height, IsBalanced, PutResult, RemoveResult, put_fix-left, put_fix-right, remove_fix-left,
  remove_fix-right,
}

module _ {ℓ κ μ} {K : Type ℓ} {V : Type κ} {R : Type μ} where
  put_left :
      (b : Balance) (l' : Tree K V) (k : K) (v : V) (r : Tree K V) (h : ℕ) (out : R) (fix : Bool)
      → Fits b h (height r)
      → PutResult h l' fix
      → IsBalanced r
      → Ensures
          (λ (t, _, f). PutResult (suc (max h (height r))) t f)
          (fix_if fix (put_fix left) (node b l' k v r) out)
  put_left b l' k v r h out true f p br =
      Ensures-bind (λ (t, f). PutResult (suc (max h (height r))) t f) _
        (put_fix left (node b l' k v r)) _ (put_fix-left b l' k v r h f p.0 br p.2) (λ _ e. e)
  put_left b l' k v r h out false f p br = ground arith

  put_right :
      (b : Balance) (l : Tree K V) (k : K) (v : V) (r' : Tree K V) (h : ℕ) (out : R) (fix : Bool)
      → Fits b (height l) h
      → IsBalanced l
      → PutResult h r' fix
      → Ensures
          (λ (t, _, f). PutResult (suc (max (height l) h)) t f)
          (fix_if fix (put_fix right) (node b l k v r') out)
  put_right b l k v r' h out true f bl p =
      Ensures-bind (λ (t, f). PutResult (suc (max (height l) h)) t f) _
        (put_fix right (node b l k v r')) _ (put_fix-right b l k v r' h f bl p.0 p.2) (λ _ e. e)
  put_right b l k v r' h out false f bl p = ground arith

  remove_right :
      (b : Balance) (l : Tree K V) (k : K) (v : V) (r' : Tree K V) (h : ℕ) (out : R) (fix : Bool)
      → Fits b (height l) h
      → IsBalanced l
      → RemoveResult h r' fix
      → Ensures
          (λ (t, _, f). RemoveResult (suc (max (height l) h)) t f)
          (fix_if fix (remove_fix left) (node b l k v r') out)
  remove_right b l k v r' h out true f bl p =
      Ensures-bind (λ (t, f). RemoveResult (suc (max (height l) h)) t f) _
        (remove_fix left (node b l k v r')) _ (remove_fix-left b l k v r' h f bl p.0 p.1) (λ _ e. e)
  remove_right b l k v r' h out false f bl p = ground arith

  remove_left :
      (b : Balance) (l' : Tree K V) (k : K) (v : V) (r : Tree K V) (h : ℕ) (out : R) (fix : Bool)
      → Fits b h (height r)
      → RemoveResult h l' fix
      → IsBalanced r
      → Ensures
          (λ (t, _, f). RemoveResult (suc (max h (height r))) t f)
          (fix_if fix (remove_fix right) (node b l' k v r) out)
  remove_left b l' k v r h out true f p br =
      Ensures-bind (λ (t, f). RemoveResult (suc (max h (height r))) t f) _
        (remove_fix right (node b l' k v r)) _ (remove_fix-right b l' k v r h f p.0 br p.1)
        (λ _ e. e)
  remove_left b l' k v r h out false f p br = ground arith

module _ {ℓ κ} {K : Type ℓ} {V : Type κ} where
  -- The least entry leaves a balanced tree that is not empty: the rest is balanced, and the report
  -- whether it is lower is right.
  pub remove_min-IsBalanced :
      (b : Balance) (l : Tree K V) (k : K) (v : V) (r : Tree K V)
      → IsBalanced (node b l k v r)
      → Ensures
          (λ (t, _, fix). RemoveResult (suc (max (height l) (height r))) t fix)
          (remove_min (node b l k v r))
  unfolding remove_min
  remove_min-IsBalanced b leaf k v r h = ground arith
  remove_min-IsBalanced b (node lb ll lk lv lr) k v r h =
      Ensures-bind (λ (t, _, fix). RemoveResult (height (node lb ll lk lv lr)) t fix) _
        (remove_min (node lb ll lk lv lr)) _ (remove_min-IsBalanced lb ll lk lv lr h.1)
        (λ (t, least, fix) e. remove_left b t k v r _ least fix h.0 e h.2)

  -- `t` is empty, or becomes lower when its least entry leaves.
  abbrev pub lowers_min : Tree K V → Bool
  lowers_min leaf = true
  lowers_min (node b l k v r) = elim (remove_min (node b l k v r)) [
    | ok (t, least, fix) ↦ fix
    | panic ↦ false
  ]

  remove_here-IsBalanced {μ} :
      {R : Type μ} (out : R) (b : Balance) (l : Tree K V) (k : K) (v : V) (r : Tree K V)
      → IsBalanced (node b l k v r)
      → lowers_min r ≡ true
      → Ensures
          (λ (t, _, fix). RemoveResult (suc (max (height l) (height r))) t fix)
          (remove_here out b l r)
  unfolding remove_here
  remove_here-IsBalanced out b l k v leaf h c = ground arith
  remove_here-IsBalanced out b l k v (node rb rl rk rv rr) h c =
      let ((t, least, fix), e, p) =
        Ensures-inv (λ (t, _, fix). RemoveResult (height (node rb rl rk rv rr)) t fix)
          (remove_min (node rb rl rk rv rr)) (remove_min-IsBalanced rb rl rk rv rr h.2) in
      let low : fix ≡ true = ground arith in
      let p' : RemoveResult (height (node rb rl rk rv rr)) t true = rw low at p in
      rw (e, low)
        (Ensures-bind
          (λ (t', f). RemoveResult (suc (max (height l) (height (node rb rl rk rv rr)))) t' f) _
          (remove_fix left (node b l least.0 least.1 t)) _
          (remove_fix-left b l least.0 least.1 t _ h.0 h.1 p'.0 p'.1) (λ _ q. q))

module _ {ℓ κ} {K : Type ℓ} {V : Type κ} (cmp : Comparator K) where
  -- Insertion into a balanced tree returns a balanced tree, and reports exactly whether it has
  -- grown by one.
  pub put-IsBalanced :
      (q : K) (w : V) (size : ℕ) (t : Tree K V)
      → IsBalanced t
      → Ensures (λ (t', size', fix). PutResult (height t) t' fix) (put cmp q w size t)
  unfolding put
  put-IsBalanced q w size leaf h = ground arith
  put-IsBalanced q w size (node b l k v r) h = elim (order_case (sign (cmp q k))) [
    | is_lt e ↦
        rw (e, put)
          (Ensures-bind (λ (t, _, fix). PutResult (height l) t fix) _ (put cmp q w size l) _
            (put-IsBalanced q w size l h.1)
            (λ (l', size', fix) p. put_left b l' k v r _ size' fix h.0 p h.2))
    | is_eq e ↦ rw (e, put) (h, refl)
    | is_gt e ↦
        rw (e, put)
          (Ensures-bind (λ (t, _, fix). PutResult (height r) t fix) _ (put cmp q w size r) _
            (put-IsBalanced q w size r h.2)
            (λ (r', size', fix) p. put_right b l k v r' _ size' fix h.0 h.1 p))
  ]

  -- What has to hold of the node with key `q`, if there is one, for the removal of `q` to report a
  -- change of height correctly: it has no right child, or the least entry of its right subtree
  -- leaves a lower one.
  abbrev pub ReportsHeight : K → Tree K V → Type 0
  ReportsHeight q leaf = Unit
  ReportsHeight q (node b l k v r) = elim (sign (cmp q k)) [
    | Ordering.lt ↦ ReportsHeight q l
    | Ordering.eq ↦ lowers_min r ≡ true
    | Ordering.gt ↦ ReportsHeight q r
  ]

  -- Under that condition removal keeps a balanced tree balanced, and reports its height correctly.
  pub remove-IsBalanced :
      (q : K) (size : ℕ) (t : Tree K V)
      → IsBalanced t
      → ReportsHeight q t
      → Ensures (λ (t', _, fix). RemoveResult (height t) t' fix) (remove cmp q size t)
  unfolding remove
  remove-IsBalanced q size leaf h c = ground arith
  remove-IsBalanced q size (node b l k v r) h c = elim (order_case (sign (cmp q k))) [
    | is_lt e ↦
        rw (e, remove)
          (Ensures-bind (λ (t, _, fix). RemoveResult (height l) t fix) _ (remove cmp q size l) _
            (remove-IsBalanced q size l h.1 (rw (e, ReportsHeight) at c))
            (λ (l', out, fix) p. remove_left b l' k v r _ out fix h.0 p h.2))
    | is_eq e ↦
        rw (e, remove)
          (remove_here-IsBalanced (size - 1, some v) b l k v r h (rw (e, ReportsHeight) at c))
    | is_gt e ↦
        rw (e, remove)
          (Ensures-bind (λ (t, _, fix). RemoveResult (height r) t fix) _ (remove cmp q size r) _
            (remove-IsBalanced q size r h.2 (rw (e, ReportsHeight) at c))
            (λ (r', out, fix) p. remove_right b l k v r' _ out fix h.0 h.1 p))
  ]
