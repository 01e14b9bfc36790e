-- ===== src/Gtree/Avl/Walk/Laws.antt =====
-- The iterators visit the entries of an AVL tree in ascending, or descending, order, once each.
use gf.Prelude.{
  ℕ, zero, suc, ◌<◌, ◌≡◌, refl, sym, ap, Bool, List, [], ◌∷◌, ◌++◌, append_assoc, append-nil,
  reverse, reverse-append, ◌∙◌, length-reverse, length, Option, none, some, if◌then◌else◌, arith,
}
use gf.Gtree.Avl.{Balance, Side, left, right, opposite, Tree, leaf, node}
use gf.Gtree.Avl.Inorder.{entries}
use gf.Gtree.Avl.Walk.{
  Crumb, crumb, Location, at, descend, climb, walk, entry, iterate_from, iterate,
}

-- what a callback makes of a list of entries, up to the one at which it says stop
abbrev pub fold_until {ℓ σ} : {E : Type ℓ} {S : Type σ} → (S → E → S × Bool) → List E → S → S
fold_until f [] s = s
fold_until f (e ∷ es) s =
    let (s', go) = f s e in let rest = fold_until f es s' in if go then rest else s'

module _ {ℓ κ} {K : Type ℓ} {V : Type κ} where
  -- the entries in the direction of a walk
  abbrev pub entries_toward : Side → Tree K V → List (K × V)
  entries_toward a leaf = []
  entries_toward right (node b l k v r) = entries_toward right l ++ (k, v) ∷ entries_toward right r
  entries_toward left (node b l k v r) = entries_toward left r ++ (k, v) ∷ entries_toward left l

  -- those that come after a subtree, by the way up from it
  abbrev after : Side → List (Crumb K V) → List (K × V)
  after a [] = []
  after left (crumb left b k v r ∷ p) = after left p
  after right (crumb left b k v r ∷ p) = (k, v) ∷ entries_toward right r ++ after right p
  after left (crumb right b k v l ∷ p) = (k, v) ∷ entries_toward left l ++ after left p
  after right (crumb right b k v l ∷ p) = after right p

  -- what a walk from the location on visits
  abbrev visits : Side → Option (Location K V) → List (K × V)
  visits a none = []
  visits left (some (at b l k v r p)) = (k, v) ∷ entries_toward left l ++ after left p
  visits right (some (at b l k v r p)) = (k, v) ∷ entries_toward right r ++ after right p

  descend-visits :
      (a : Side) (b : Balance) (l : Tree K V) (k : K) (v : V) (r : Tree K V) (p : List (Crumb K V))
      → visits a (descend (opposite a) (node b l k v r) p)
        ≡ entries_toward a (node b l k v r) ++ after a p
  unfolding descend
  descend-visits right b leaf k v r p = refl
  descend-visits right b (node lb ll lk lv lr) k v r p =
      rw (descend-visits right lb ll lk lv lr (crumb left b k v r ∷ p)) (simp append_assoc)
  descend-visits left b l k v leaf p = refl
  descend-visits left b l k v (node rb rl rk rv rr) p =
      rw (descend-visits left rb rl rk rv rr (crumb right b k v l ∷ p)) (simp append_assoc)

  climb-visits :
      (a : Side) (n : Tree K V) (p : List (Crumb K V)) → visits a (climb a n p) ≡ after a p
  unfolding climb
  climb-visits a n [] = ground arith
  climb-visits left n (crumb left b k v r ∷ p) = climb-visits left (node b n k v r) p
  climb-visits right n (crumb left b k v r ∷ p) = refl
  climb-visits left n (crumb right b k v l ∷ p) = refl
  climb-visits right n (crumb right b k v l ∷ p) = climb-visits right (node b l k v n) p

  -- One step of a walk goes to the next entry.
  walk-visits : (a : Side) (n : Location K V) → visits a (some n) ≡ entry n ∷ visits a (walk a n)
  unfolding walk
  walk-visits left (at b leaf k v r p) =
      ap (◌∷◌ (k, v)) (sym (climb-visits left (node b leaf k v r) p))
  walk-visits left (at b (node lb ll lk lv lr) k v r p) =
      ap (◌∷◌ (k, v)) (sym (descend-visits left lb ll lk lv lr (crumb left b k v r ∷ p)))
  walk-visits right (at b l k v leaf p) =
      ap (◌∷◌ (k, v)) (sym (climb-visits right (node b l k v leaf) p))
  walk-visits right (at b l k v (node rb rl rk rv rr) p) =
      ap (◌∷◌ (k, v)) (sym (descend-visits right rb rl rk rv rr (crumb right b k v l ∷ p)))

  iterate_from_lem {σ} :
      {S : Type σ} (fuel : ℕ) (a : Side) (f : S → K × V → S × Bool) (n : Option (Location K V))
      (s : S)
      → length (visits a n) < fuel
      → iterate_from fuel a f n s ≡ fold_until f (visits a n) s
  unfolding iterate_from
  iterate_from_lem zero a f n s h = absurd (omega arith)
  iterate_from_lem (suc fuel) a f none s h = refl
  iterate_from_lem (suc fuel) a f (some n) s h =
      let shorter : length (visits a (walk a n)) < fuel =
        omega (arith, ap length (walk-visits a n)) in
      rw (walk-visits a n, iterate_from_lem fuel a f (walk a n) (f s (entry n)).0 shorter) refl

  entries_toward-right : (t : Tree K V) → entries_toward right t ≡ entries t
  entries_toward-right leaf = refl
  entries_toward-right (node b l k v r) = rw (entries_toward-right l, entries_toward-right r)

  entries_toward-left : (t : Tree K V) → entries_toward left t ≡ reverse (entries t)
  entries_toward-left leaf = refl
  entries_toward-left (node b l k v r) = simp (
    entries_toward-left l,
    entries_toward-left r,
    reverse-append (entries l) ((k, v) ∷ entries r),
    reverse-append ((k, v) ∷ []) (entries r),
    append_assoc,
  )

  visits_all : (a : Side) (t : Tree K V) → visits a (descend (opposite a) t []) ≡ entries_toward a t
  unfolding descend
  visits_all a leaf = ground arith
  visits_all left (node b l k v r) = descend-visits left b l k v r [] ∙ append-nil _
  visits_all right (node b l k v r) = descend-visits right b l k v r [] ∙ append-nil _

  -- With fuel for every entry, IteratorAsc calls the callback on the entries in ascending order,
  -- up to the first at which it returns false, and IteratorDesc in descending order.
  pub iterate_lem {σ} :
      {S : Type σ} (fuel : ℕ) (f : S → K × V → S × Bool) (t : Tree K V) (s : S)
      → length (entries t) < fuel
      → (iterate fuel right f t s ≡ fold_until f (entries t) s)
        × (iterate fuel left f t s ≡ fold_until f (reverse (entries t)) s)
  unfolding iterate
  iterate_lem fuel f t s h = (
    rw
        (
          iterate_from_lem fuel right f (descend left t []) s
              (rw (visits_all right t, entries_toward-right t) h),
          visits_all right t,
          entries_toward-right t,
        )
        refl,
    rw
        (
          iterate_from_lem fuel left f (descend right t []) s
              (rw (visits_all left t, entries_toward-left t, length-reverse) h),
          visits_all left t,
          entries_toward-left t,
        )
        refl,
  )
