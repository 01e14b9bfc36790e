-- ===== src/Gtree/Avl/Walk.antt =====
-- Iteration over an AVL tree by the nodes' own pointers: `bottom`, `Next`, `Prev` and the loops of
-- IteratorAsc and IteratorDesc. A `*AVLTreeNode` is a location: a subtree and the way up from it.
pub mod Laws
use gf.Prelude.{ℕ, zero, suc, Bool, List, [], ◌∷◌, Option, none, some, if◌then◌else◌}
use gf.Gtree.Avl.{Balance, Side, left, right, opposite, Tree, leaf, node}

-- one step up: the parent, without the child on the side that the step comes from
pub data Crumb {ℓ κ} (K : Type ℓ) (V : Type κ) : Type (ℓ ⊔ κ) where
  crumb : Side → Balance → K → V → Tree K V → Crumb K V

-- a node that is not nil
pub data Location {ℓ κ} (K : Type ℓ) (V : Type κ) : Type (ℓ ⊔ κ) where
  at : Balance → Tree K V → K → V → Tree K V → List (Crumb K V) → Location K V

module _ {ℓ κ} {K : Type ℓ} {V : Type κ} where
  -- `for n.children[d] != nil { n = n.children[d] }`, and nil from nil
  unfoldable pub descend : Side → Tree K V → List (Crumb K V) → Option (Location K V)
  descend d leaf p = none
  descend left (node b leaf k v r) p = some (at b leaf k v r p)
  descend left (node b (node lb ll lk lv lr) k v r) p =
      descend left (node lb ll lk lv lr) (crumb left b k v r ∷ p)
  descend right (node b l k v leaf) p = some (at b l k v leaf p)
  descend right (node b l k v (node rb rl rk rv rr)) p =
      descend right (node rb rl rk rv rr) (crumb right b k v l ∷ p)

  -- `for p != nil && p.children[a] == n { n = p; p = p.parent }; return p`
  unfoldable pub climb : Side → Tree K V → List (Crumb K V) → Option (Location K V)
  climb a n [] = none
  climb left n (crumb left b k v r ∷ p) = climb left (node b n k v r) p
  climb right n (crumb left b k v r ∷ p) = some (at b n k v r p)
  climb left n (crumb right b k v l ∷ p) = some (at b l k v n p)
  climb right n (crumb right b k v l ∷ p) = climb right (node b l k v n) p

  -- `walk1`: Prev is `walk left`, Next is `walk right`.
  unfoldable pub walk : Side → Location K V → Option (Location K V)
  unfolding descend climb
  walk left (at b leaf k v r p) = climb left (node b leaf k v r) p
  walk left (at b (node lb ll lk lv lr) k v r p) =
      descend right (node lb ll lk lv lr) (crumb left b k v r ∷ p)
  walk right (at b l k v leaf p) = climb right (node b l k v leaf) p
  walk right (at b l k v (node rb rl rk rv rr) p) =
      descend left (node rb rl rk rv rr) (crumb right b k v l ∷ p)

  abbrev pub entry : Location K V → K × V
  entry (at b l k v r p) = (k, v)

  -- doIteratorAsc and doIteratorDesc: the callback goes from one state to the next, and its Bool
  -- says whether to go on. The fuel bounds the rounds.
  unfoldable pub iterate_from {σ} :
      {S : Type σ} → ℕ → Side → (S → K × V → S × Bool) → Option (Location K V) → S → S
  unfolding walk
  iterate_from zero a f n s = s
  iterate_from (suc fuel) a f none s = s
  iterate_from (suc fuel) a f (some n) s =
      let (s', go) = f s (entry n) in
      let rest = iterate_from fuel a f (walk a n) s' in if go then rest else s'

  -- IteratorAsc (`right`) and IteratorDesc (`left`)
  unfoldable pub iterate {σ} : {S : Type σ} → ℕ → Side → (S → K × V → S × Bool) → Tree K V → S → S
  unfolding iterate_from
  iterate fuel a f t s = iterate_from fuel a f (descend (opposite a) t []) s
