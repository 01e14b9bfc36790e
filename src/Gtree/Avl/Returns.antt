-- ===== src/Gtree/Avl/Returns.antt =====
-- `remove` does not panic on a balanced tree, whether or not it keeps the balance.
use gf.Prelude.{ℕ, ◌-◌, if◌then◌else◌, Bool, true, false, some}
use gf.Prelude.Outcome.{ok, ◌>>=◌, Ensures, Ensures-bind}
use gf.Gtree.Comparator.{Comparator, sign, order_case, is_lt, is_eq, is_gt}
use gf.Gtree.Avl.{
  Balance, Tree, leaf, node, left, right, remove_fix, fix_if, remove_min, remove_here, remove,
}
use gf.Gtree.Avl.Shape.{
  Fits, height, IsBalanced, RemoveResult, remove_fix_returns-left, remove_fix_returns-right,
}
use gf.Gtree.Avl.Balanced.{remove_min-IsBalanced}

module _ {ℓ κ μ} {K : Type ℓ} {V : Type κ} {R : Type μ} where
  fix_right_returns :
      (fix : Bool) (b : Balance) (l' : Tree K V) (k : K) (v : V) (r : Tree K V) (h : ℕ) (out : R)
      → Fits b h (height r)
      → IsBalanced r
      → Ensures (λ _. Unit) (fix_if fix (remove_fix right) (node b l' k v r) out)
  fix_right_returns true b l' k v r h out f br =
      Ensures-bind (λ _. Unit) (λ _. Unit) (remove_fix right (node b l' k v r)) _
        (remove_fix_returns-right b l' k v r h f br) (λ _ _. tt)
  fix_right_returns false b l' k v r h out f br = tt

  fix_left_returns :
      (fix : Bool) (b : Balance) (l : Tree K V) (k : K) (v : V) (r' : Tree K V) (h : ℕ) (out : R)
      → Fits b (height l) h
      → IsBalanced l
      → Ensures (λ _. Unit) (fix_if fix (remove_fix left) (node b l k v r') out)
  fix_left_returns true b l k v r' h out f bl =
      Ensures-bind (λ _. Unit) (λ _. Unit) (remove_fix left (node b l k v r')) _
        (remove_fix_returns-left b l k v r' h f bl) (λ _ _. tt)
  fix_left_returns false b l k v r' h out f bl = tt

  placed_returns :
      (fix : Bool) (b : Balance) (l : Tree K V) (k : K) (v : V) (r' : Tree K V) (h : ℕ) (out : R)
      → Fits b (height l) h
      → IsBalanced l
      → Ensures {A = Tree K V × R × Bool}
          (λ _. Unit)
          (if fix
            then (remove_fix left (node b l k v r') >>= λ (t, f). ok (t, out, f))
            else ok (node b l k v r', out, true))
  placed_returns true b l k v r' h out f bl =
      Ensures-bind (λ _. Unit) (λ _. Unit) (remove_fix left (node b l k v r')) _
        (remove_fix_returns-left b l k v r' h f bl) (λ _ _. tt)
  placed_returns false b l k v r' h out f bl = tt

  remove_here_returns :
      (out : R) (b : Balance) (l : Tree K V) (k : K) (v : V) (r : Tree K V)
      → IsBalanced (node b l k v r)
      → Ensures (λ _. Unit) (remove_here out b l r)
  unfolding remove_here
  remove_here_returns out b l k v leaf h = tt
  remove_here_returns out b l k v (node rb rl rk rv rr) h =
      Ensures-bind (λ (t, _, fix). RemoveResult (height (node rb rl rk rv rr)) t fix) (λ _. Unit)
        (remove_min (node rb rl rk rv rr)) _ (remove_min-IsBalanced rb rl rk rv rr h.2)
        (λ (t, least, fix) _. placed_returns fix b l least.0 least.1 t _ out h.0 h.1)

module _ {ℓ κ} {K : Type ℓ} {V : Type κ} (cmp : Comparator K) where
  -- Removal from a balanced tree returns.
  pub remove_returns :
      (q : K) (size : ℕ) (t : Tree K V) → IsBalanced t → Ensures (λ _. Unit) (remove cmp q size t)
  unfolding remove
  remove_returns q size leaf h = tt
  remove_returns q size (node b l k v r) h = elim (order_case (sign (cmp q k))) [
    | is_lt e ↦
        rw (e, remove)
          (Ensures-bind (λ _. Unit) (λ _. Unit) (remove cmp q size l) _
            (remove_returns q size l h.1)
            (λ (l', out, fix) _. fix_right_returns fix b l' k v r _ out h.0 h.2))
    | is_eq e ↦ rw (e, remove) (remove_here_returns (size - 1, some v) b l k v r h)
    | is_gt e ↦
        rw (e, remove)
          (Ensures-bind (λ _. Unit) (λ _. Unit) (remove cmp q size r) _
            (remove_returns q size r h.2)
            (λ (r', out, fix) _. fix_left_returns fix b l k v r' _ out h.0 h.1))
  ]
