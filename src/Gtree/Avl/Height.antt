-- ===== src/Gtree/Avl/Height.antt =====
-- An AVL tree is low: its height is at most about twice the logarithm of its size.
use native.Mathlib.Nat.{pow-suc}
use gf.Prelude.{
  ℕ, zero, suc, ◌+◌, ◌*◌, ◌/◌, ◌^◌, ◌≤◌, max, ◌≡◌, refl, length, length-append, ◌∷◌, arith,
}
use gf.Gtree.Avl.{Balance, minus, even, plus, Tree, leaf, node}
use gf.Gtree.Avl.Shape.{Fits, height, IsBalanced}
use gf.Gtree.Avl.Inorder.{entries}

-- 2 ^ (h / 2), by steps of two
power : ℕ → ℕ
power zero = 1
power (suc zero) = 1
power (suc (suc h)) = 2 * power h

power-le-suc : (h : ℕ) → power h ≤ power (suc h)
unfolding power
power-le-suc zero = omega arith
power-le-suc (suc zero) = omega arith
power-le-suc (suc (suc h)) = omega (arith, power-le-suc h)

power_lem : (h : ℕ) → power h ≡ 2 ^ (h / 2)
unfolding power
power_lem zero = refl
power_lem (suc zero) = refl
power_lem (suc (suc h)) =
    let e : suc (suc h) / 2 ≡ suc (h / 2) = omega arith in
    rw (e, pow-suc) (omega (arith, power_lem h))

power-suc-le : (h : ℕ) → power (suc h) ≤ 2 * power h
unfolding power
power-suc-le zero = omega arith
power-suc-le (suc zero) = omega arith
power-suc-le (suc (suc h)) = omega (arith, power-suc-le h)

-- two children, one of height `h + 1`, the other of that or of `h`
power_children : (b : Balance) (x y : ℕ) → Fits b x y → power (suc (max x y)) ≤ power x + power y
unfolding power
power_children even x y f =
    let m : max x y ≡ y = omega arith in rw (m, f) (omega (arith, power-suc-le y))
power_children minus x y f =
    let m : max x y ≡ suc y = omega arith in rw (m, f) (omega (arith, power-le-suc y))
power_children plus x y f =
    let m : max x y ≡ suc x = omega arith in rw (m, f) (omega (arith, power-le-suc x))

module _ {ℓ κ} {K : Type ℓ} {V : Type κ} where
  power-le-length : (t : Tree K V) → IsBalanced t → power (height t) ≤ length (entries t) + 1
  unfolding power
  power-le-length leaf h = omega arith
  power-le-length (node b l k v r) h = omega (
    arith,
    power_children b (height l) (height r) h.0,
    power-le-length l h.1,
    power-le-length r h.2,
    length-append (entries l) ((k, v) ∷ entries r),
  )

  -- A balanced tree of height h holds at least 2 ^ (h / 2) - 1 entries.
  pub height_bound : (t : Tree K V) → IsBalanced t → 2 ^ (height t / 2) ≤ length (entries t) + 1
  height_bound t h = rw (← power_lem) (power-le-length t h)
