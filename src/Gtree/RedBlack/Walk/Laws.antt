-- ===== src/Gtree/RedBlack/Walk/Laws.antt =====
-- IteratorAsc visits the entries of a valid red-black tree in ascending order, once each.
use gf.Prelude.{
  ℕ, zero, suc, ◌<◌, ◌≡◌, refl, subst, ◌∙◌, ap, Ordering, Bool, List, [], ◌∷◌, ◌++◌, append_assoc,
  append-nil, length, Option, none, some, if◌then◌else◌, arith,
}
use gf.Gtree.Comparator.{Comparator, sign, IsWeakOrder}
use gf.Gtree.Entries.{IsAscending}
use gf.Gtree.Entries.Order.{IsAscending-left, IsAscending-right, AllAbove-right}
use gf.Gtree.Avl.Walk.Laws.{fold_until}
use gf.Gtree.RedBlack.{Color, RbTree, leaf, node, Side, left, right, Frame, plug, root_of}
use gf.Gtree.RedBlack.Inorder.{entries}
use gf.Gtree.RedBlack.Map.{RedBlackTree}
use gf.Gtree.RedBlack.Map.Laws.{items, IsValid}
use gf.Gtree.RedBlack.Delete.{Place}
use gf.Gtree.RedBlack.Delete.Removal.{tree_at}
use gf.Gtree.RedBlack.Walk.{first_place, climb_up, next_place, do_iterator_asc, iterator_asc}

-- where a key lies that is in the subtree on that side of a parent
abbrev IsBeside {ℓ} : {K : Type ℓ} → Comparator K → K → Side → K → Type 0
IsBeside cmp q left k = sign (cmp q k) ≡ Ordering.lt
IsBeside cmp q right k = sign (cmp q k) ≡ Ordering.gt

module _ {ℓ κ} {K : Type ℓ} {V : Type κ} where
  -- the entries after a subtree, by the path above it
  abbrev after : List (Frame K V) → List (K × V)
  after [] = []
  after (f ∷ path) = elim f.side [
    | left ↦ (f.key, f.value) ∷ entries f.sibling ++ after path
    | right ↦ after path
  ]

  -- what the iteration from the place on visits
  abbrev visits : Option (Place K V) → List (K × V)
  visits none = []
  visits (some p) = (p.key, p.value) ∷ entries p.upper ++ after p.path

  -- the entries of a subtree are a part of those of the whole
  below-IsAscending :
      (cmp : Comparator K) (path : List (Frame K V)) (t : RbTree K V)
      → IsAscending cmp (entries (root_of path t))
      → IsAscending cmp (entries t)
  below-IsAscending cmp [] t h = h
  below-IsAscending cmp (f ∷ path) t h = part f.side (below-IsAscending cmp path (plug f t) h)
    where
      part :
          (s : Side)
          → IsAscending cmp (entries (plug (record f { side = s }) t))
          → IsAscending cmp (entries t)
      part left g = IsAscending-left cmp (entries t) ((f.key, f.value) ∷ entries f.sibling) g
      part right g = (IsAscending-right cmp (entries f.sibling) ((f.key, f.value) ∷ entries t) g).1

  abbrev IsBetween : Comparator K → K → List (Frame K V) → Type 0
  IsBetween cmp q [] = Unit
  IsBetween cmp q (f ∷ path) = IsBeside cmp q f.side f.key × IsBetween cmp q path

  abbrev StaysAscending : Comparator K → Option (Place K V) → Type 0
  StaysAscending cmp none = Unit
  StaysAscending cmp (some p) = IsAscending cmp (entries (root_of p.path (tree_at p)))

  first_place-visits :
      (c : Color) (l : RbTree K V) (k : K) (v : V) (r : RbTree K V) (path : List (Frame K V))
      → visits (first_place (node c l k v r) path) ≡ entries (node c l k v r) ++ after path
  unfolding first_place
  first_place-visits c leaf k v r path = refl
  first_place-visits c (node lc ll lk lv lr) k v r path =
      first_place-visits lc ll lk lv lr
        (record { side = left; color = c; key = k; value = v; sibling = r } ∷ path)
      ∙ simp append_assoc

  -- a list with an entry in it
  abbrev HasAt : K → V → List (K × V) → Type (ℓ ⊔ κ)
  HasAt q w es = (xs : List (K × V)) × (ys : List (K × V)) × (es ≡ xs ++ (q, w) ∷ ys)

  plug-HasAt :
      (s : Side) (f : Frame K V) (t : RbTree K V) (q : K) (w : V)
      → HasAt q w (entries t)
      → HasAt q w (entries (plug (record f { side = s }) t))
  plug-HasAt left f t q w (xs, ys, e) =
      (xs, ys ++ (f.key, f.value) ∷ entries f.sibling, rw e (simp append_assoc))
  plug-HasAt right f t q w (xs, ys, e) =
      (entries f.sibling ++ (f.key, f.value) ∷ xs, ys, rw e (simp append_assoc))

  beside :
      (cmp : Comparator K) (o : IsWeakOrder cmp) (s : Side) (f : Frame K V) (t : RbTree K V) (q : K)
      (w : V)
      → HasAt q w (entries t)
      → IsAscending cmp (entries (plug (record f { side = s }) t))
      → IsBeside cmp q s f.key
  beside cmp o left f t q w (xs, ys, e) h =
      let rest = (f.key, f.value) ∷ entries f.sibling in
      let g : IsAscending cmp (xs ++ ((q, w) ∷ ys ++ rest)) =
        subst (IsAscending cmp) (append_assoc xs ((q, w) ∷ ys) rest)
          (subst (λ es. IsAscending cmp (es ++ rest)) e h) in
      (AllAbove-right cmp q ys rest (IsAscending-right cmp xs ((q, w) ∷ ys ++ rest) g).0).0
  beside cmp o right f t q w (xs, ys, e) h =
      let g : IsAscending cmp (entries f.sibling ++ (f.key, f.value) ∷ (xs ++ (q, w) ∷ ys)) =
        subst (λ es. IsAscending cmp (entries f.sibling ++ (f.key, f.value) ∷ es)) e h in
      o.gt_of_lt f.key q
        (AllAbove-right cmp f.key xs ((q, w) ∷ ys)
          (IsAscending-right cmp (entries f.sibling) ((f.key, f.value) ∷ (xs ++ (q, w) ∷ ys))
            g).0).0

  between :
      (cmp : Comparator K) (o : IsWeakOrder cmp) (path : List (Frame K V)) (t : RbTree K V) (q : K)
      (w : V)
      → HasAt q w (entries t)
      → IsAscending cmp (entries (root_of path t))
      → IsBetween cmp q path
  between cmp o [] t q w at h = tt
  between cmp o (f ∷ path) t q w at h = (
    beside cmp o f.side f t q w at (below-IsAscending cmp path (plug f t) h),
    between cmp o path (plug f t) q w (plug-HasAt f.side f t q w at) h,
  )

  climb_up-visits :
      (cmp : Comparator K) (old : K) (n : RbTree K V) (path : List (Frame K V))
      → IsBetween cmp old path
      → IsAscending cmp (entries (root_of path n))
      → (visits (climb_up cmp old n path) ≡ after path)
        × StaysAscending cmp (climb_up cmp old n path)
  unfolding climb_up
  climb_up-visits cmp old n [] b h = (refl, tt)
  climb_up-visits cmp old n (f ∷ path) b h =
      step f.side f b.0 h (climb_up-visits cmp old (plug f n) path b.1 h)
    where
      step :
          (s : Side) (g : Frame K V)
          → IsBeside cmp old s g.key
          → IsAscending cmp (entries (root_of (record g { side = s } ∷ path) n))
          → (visits (climb_up cmp old (plug (record g { side = s }) n) path) ≡ after path)
            × StaysAscending cmp (climb_up cmp old (plug (record g { side = s }) n) path)
          → (visits (climb_up cmp old n (record g { side = s } ∷ path))
              ≡ after (record g { side = s } ∷ path))
            × StaysAscending cmp (climb_up cmp old n (record g { side = s } ∷ path))
      step left g e h rest = rw (e, climb_up) (refl, h)
      step right g e h rest = rw (e, climb_up) rest

  first_place-inv :
      (cmp : Comparator K) (c : Color) (l : RbTree K V) (k : K) (v : V) (r : RbTree K V)
      (path : List (Frame K V))
      → IsAscending cmp (entries (root_of path (node c l k v r)))
      → StaysAscending cmp (first_place (node c l k v r) path)
  unfolding first_place
  first_place-inv cmp c leaf k v r path h = h
  first_place-inv cmp c (node lc ll lk lv lr) k v r path h =
      first_place-inv cmp lc ll lk lv lr
        (record { side = left; color = c; key = k; value = v; sibling = r } ∷ path) h

  next_place-visits :
      (cmp : Comparator K) (o : IsWeakOrder cmp) (p : Place K V)
      → IsAscending cmp (entries (root_of p.path (tree_at p)))
      → (visits (next_place cmp p) ≡ entries p.upper ++ after p.path)
        × StaysAscending cmp (next_place cmp p)
  unfolding next_place
  next_place-visits cmp o p h = step p.upper h
    where
      step :
          (r : RbTree K V)
          → IsAscending cmp (entries (root_of p.path (node p.color p.lower p.key p.value r)))
          → (visits (next_place cmp (record p { upper = r })) ≡ entries r ++ after p.path)
            × StaysAscending cmp (next_place cmp (record p { upper = r }))
      step leaf h =
          climb_up-visits cmp p.key (node p.color p.lower p.key p.value leaf) p.path
            (between cmp o p.path (node p.color p.lower p.key p.value leaf) p.key p.value
              (entries p.lower, [], refl) h)
            h
      step (node c l k v r) h =
          let path =
            record {
              side = right;
              color = p.color;
              key = p.key;
              value = p.value;
              sibling = p.lower;
            }
            ∷ p.path in
          (first_place-visits c l k v r path, first_place-inv cmp c l k v r path h)

  -- With more fuel than entries to come the loop makes of them what the callback does one by one.
  do_iterator_asc_lem {σ} :
      {S : Type σ} (fuel : ℕ) (cmp : Comparator K) (o : IsWeakOrder cmp) (f : S → K × V → S × Bool)
      (n : Option (Place K V)) (s : S)
      → StaysAscending cmp n
      → length (visits n) < fuel
      → do_iterator_asc fuel cmp f n s ≡ fold_until f (visits n) s
  unfolding do_iterator_asc
  do_iterator_asc_lem zero cmp o f n s h e = absurd (omega (arith, e))
  do_iterator_asc_lem (suc fuel) cmp o f none s h e = refl
  do_iterator_asc_lem (suc fuel) cmp o f (some p) s h e =
      let (same, keep) = next_place-visits cmp o p h in
      let fits : length (visits (next_place cmp p)) < fuel = rw same (omega (arith, e)) in
      ap (λ r. if (f s (p.key, p.value)).1 then r else (f s (p.key, p.value)).0)
        (do_iterator_asc_lem fuel cmp o f (next_place cmp p) (f s (p.key, p.value)).0 keep fits
          ∙ ap (λ es. fold_until f es (f s (p.key, p.value)).0) same)

  first_visits :
      (cmp : Comparator K) (t : RbTree K V)
      → IsAscending cmp (entries t)
      → (visits (first_place t []) ≡ entries t) × StaysAscending cmp (first_place t [])
  unfolding first_place
  first_visits cmp leaf h = (refl, tt)
  first_visits cmp (node c l k v r) h = (
    first_place-visits c l k v r [] ∙ append-nil (entries (node c l k v r)),
    first_place-inv cmp c l k v r [] h,
  )

  -- With more fuel than entries, IteratorAsc of a valid red-black tree calls back on its entries in
  -- ascending order, once each, up to the first at which the callback says stop.
  pub iterator_asc_lem {σ} :
      {S : Type σ} (fuel : ℕ) (t : RedBlackTree K V) (f : S → K × V → S × Bool) (s : S)
      → IsValid t
      → length (items t) < fuel
      → iterator_asc fuel t f s ≡ fold_until f (items t) s
  unfolding iterator_asc
  iterator_asc_lem fuel t f s h e =
      let (same, keep) = first_visits t.comparator t.root h.ascending in
      do_iterator_asc_lem fuel t.comparator h.lawful f (first_place t.root []) s keep (rw same e)
      ∙ ap (λ es. fold_until f es s) same
