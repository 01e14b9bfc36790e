-- ===== src/Gset/IntSet/Take.antt =====
-- Pops of IntSet, whatever the order of the map.
use gf.Prelude.{
  ℕ, zero, suc, ◌≤◌, ◌≡◌, refl, ap, ltb, if◌then◌else◌, List, [], ◌∷◌, ◌++◌, length, arith,
}
use gf.Prelude.Int.{ℤ, pos, negsuc}
use gf.Garray.IntArray.Filter.{eq_ℤ-refl}
use gf.Gset.IntSet.{IntSet, delete_key, pops_loop, pops}

delete_first : (k : ℤ) (ks : List ℤ) → delete_key k (k ∷ ks) ≡ ks
unfolding delete_key
delete_first k ks = rw (eq_ℤ-refl k) refl

-- what is taken, and what is left
abbrev Splits : ℕ → List ℤ → List ℤ × List ℤ → Type 0
Splits n ks (m, array) = (array ++ m ≡ ks) × (length array ≡ n)

pops_loop_lem : (left : ℕ) (ks : List ℤ) → left ≤ length ks → Splits left ks (pops_loop left ks ks)
unfolding pops_loop
pops_loop_lem zero ks h = (refl, refl)
pops_loop_lem (suc left) [] h = absurd (omega (arith, h))
pops_loop_lem (suc left) (k ∷ ks) h = rw (delete_first k ks) (
    let rest = pops_loop_lem left ks (omega (arith, h)) in
    (ap (λ es. k ∷ es) rest.0, omega (arith, rest.1)))

-- how many items Pops takes
abbrev pub taken : ℕ → ℤ → ℕ
taken n (negsuc zero) = n
taken n (negsuc (suc m)) = 0
taken n (pos m) = if ltb n m then n else m

-- Pops returns as many items as it is asked for, or all of them where the set has fewer or the size
-- is -1, and none for another negative size. What it returns and what it leaves make up the set.
pub pops_splits :
    (set : IntSet) (size : ℤ)
    → ((pops set size).1 ++ (pops set size).0.keys ≡ set.keys)
      × (length (pops set size).1 ≡ taken (length set.keys) size)
unfolding pops
pops_splits set (negsuc zero) = pops_loop_lem (length set.keys) set.keys (omega arith)
pops_splits set (negsuc (suc m)) = (refl, refl)
pops_splits set (pos n) =
    pops_loop_lem (taken (length set.keys) (pos n)) set.keys (few (length set.keys) n)
  where
    few : (a b : ℕ) → (if ltb a b then a else b) ≤ a
    few a b = ground arith
