-- ===== src/Gtree/RedBlack/Delete/Removal.antt =====
-- Remove of RedBlackTree as a whole: the node that it works on, and what is left.
use gf.Prelude.{
  zero, Ordering, ◌≡◌, refl, ◌∙◌, ap, sym, subst, List, ◌∷◌, ◌++◌, Option, none, some, arith,
}
use gf.Gtree.Comparator.{Comparator, sign, IsWeakOrder, order_case, is_lt, is_eq, is_gt}
use gf.Gtree.Entries.{lookup_entry, erase_entry, IsAscending}
use gf.Gtree.Entries.Walk.{
  lookup_entry-left, lookup_entry-right, lookup_entry-here, erase_entry-left, erase_entry-right,
  erase_entry-here,
}
use gf.Gtree.Entries.Order.{IsAscending-left, IsAscending-right, AllBelow-of_gt, AllBelow-of_eq}
use gf.Gtree.RedBlack.{
  Color, black, red, left, right, RbTree, leaf, node, Frame, node_color, root_of,
}
use gf.Gtree.RedBlack.Inorder.{entries}
use gf.Gtree.RedBlack.Coloured.{
  WhenRed, raise, black_height, IsColoured, IsPathColoured, Fits, root_of-IsRedBlack,
}
use gf.Gtree.RedBlack.Insert.{top_of_Fits}
use gf.Gtree.RedBlack.Delete.{Place, locate, chosen_node, maximum_node, cut_node}
use gf.Gtree.RedBlack.Delete.Laws.{Repairs}
use gf.Gtree.RedBlack.Delete.Ascent.{put_child-Repairs}

swap_red : (c d : Color) → WhenRed c (d ≡ black) → WhenRed d (c ≡ black)
swap_red c black h = tt
swap_red black red h = refl
swap_red red red h = ground arith

module _ {ℓ κ} {K : Type ℓ} {V : Type κ} where
  abbrev pub tree_at : Place K V → RbTree K V
  tree_at p = node p.color p.lower p.key p.value p.upper

  -- what stands in the place of the node afterwards: the node itself if it has two children
  abbrev pub remainder : RbTree K V → RbTree K V → RbTree K V → RbTree K V
  remainder t l leaf = l
  remainder t leaf (node c l k v r) = node c l k v r
  remainder t (node lc ll lk lv lr) (node c l k v r) = t

  -- a place in a red-black tree
  abbrev pub IsPlaced : Place K V → Type 0
  IsPlaced p =
      IsColoured (tree_at p)
      × IsPathColoured p.path (black_height (tree_at p))
      × Fits p.path p.color

  cut-Repairs :
      (c : Color) (l : RbTree K V) (k : K) (v : V) (r : RbTree K V) (path : List (Frame K V))
      → IsColoured (node c l k v r)
      → IsPathColoured path (raise c (black_height l))
      → Fits path c
      → Repairs
          (remainder (node c l k v r) l r)
          path
          (cut_node (record { color = c; lower = l; key = k; value = v; upper = r; path = path }))
  unfolding cut_node
  cut-Repairs c l k v leaf path i p m = put_child-Repairs c path l (black_height l) i.0 refl i.3 m p
  cut-Repairs c leaf k v (node rc rl rk rv rr) path i p m =
      put_child-Repairs c path (node rc rl rk rv rr) zero i.1 i.2 i.4 m p
  cut-Repairs c (node lc ll lk lv lr) k v (node rc rl rk rv rr) path i p m =
      let t = node c (node lc ll lk lv lr) k v (node rc rl rk rv rr) in
      (root_of path t, refl, root_of-IsRedBlack path t i p m, refl)

  -- The last part of `doRemove` returns, and keeps the tree red-black.
  pub cut_node-Repairs :
      (p : Place K V)
      → IsPlaced p
      → Repairs (remainder (tree_at p) p.lower p.upper) p.path (cut_node p)
  cut_node-Repairs p h = cut-Repairs p.color p.lower p.key p.value p.upper p.path h.0 h.1 h.2

  chosen-IsPlaced :
      (c : Color) (l : RbTree K V) (k : K) (v : V) (r : RbTree K V) (path : List (Frame K V))
      → IsColoured (node c l k v r)
      → IsPathColoured path (raise c (black_height l))
      → Fits path c
      → IsPlaced (
          chosen_node (record { color = c; lower = l; key = k; value = v; upper = r; path = path }))
  unfolding chosen_node maximum_node
  chosen-IsPlaced c l k v leaf path i p m = (i, p, m)
  chosen-IsPlaced c leaf k v (node rc rl rk rv rr) path i p m = (i, p, m)
  chosen-IsPlaced c (node lc ll lk lv leaf) k v (node rc rl rk rv rr) path i p m =
      (i.0, (i.1, i.2, i.4, top_of_Fits c path m, p), i.3)
  chosen-IsPlaced c (node lc ll lk lv (node mc ml mk mv mr)) k v (node rc rl rk rv rr) path i p m =
      (
        i.0.1,
        (
          i.0.0,
          sym i.0.2,
          i.0.3,
          swap_red c lc i.3,
          (
            i.1,
            i.2 ∙ ap (raise lc) (sym i.0.2),
            i.4,
            top_of_Fits c path m,
            subst (λ b. IsPathColoured path (raise c (raise lc b))) (sym i.0.2) p,
          ),
        ),
        i.0.4,
      )

  pub chosen_node-IsPlaced : (p : Place K V) → IsPlaced p → IsPlaced (chosen_node p)
  chosen_node-IsPlaced p h =
      chosen-IsPlaced p.color p.lower p.key p.value p.upper p.path h.0 h.1 h.2

  -- where the node is, in a red-black tree
  abbrev pub IsFoundPlaced : Option (Place K V) → Type 0
  IsFoundPlaced none = Unit
  IsFoundPlaced (some p) = IsPlaced p

  -- the place holds the entry that the list has, and a tree without it there is the tree without it
  abbrev pub IsPlaceOf :
      Comparator K → K → RbTree K V → List (Frame K V) → Option (Place K V) → Type (ℓ ⊔ κ)
  IsPlaceOf cmp q t path none = lookup_entry cmp q (entries t) ≡ none
  IsPlaceOf cmp q t path (some p) =
      (lookup_entry cmp q (entries t) ≡ some (p.key, p.value))
      × ((x : RbTree K V)
          → entries x ≡ entries p.lower ++ entries p.upper
          → (u : RbTree K V) × (entries u ≡ erase_entry cmp q (entries t))
            × (root_of p.path x ≡ root_of path u))

module _ {ℓ κ} {K : Type ℓ} {V : Type κ} (cmp : Comparator K) where
  pub locate-IsPlaced :
      (q : K) (t : RbTree K V) (path : List (Frame K V))
      → IsColoured t
      → IsPathColoured path (black_height t)
      → Fits path (node_color t)
      → IsFoundPlaced (locate cmp q t path)
  unfolding locate
  locate-IsPlaced q leaf path h p m = tt
  locate-IsPlaced q (node c l k v r) path h p m = elim (order_case (sign (cmp q k))) [
    | is_eq e ↦ rw (e, locate) (h, p, m)
    | is_lt e ↦
        rw (e, locate)
          (locate-IsPlaced q l
            (record { side = left; color = c; key = k; value = v; sibling = r } ∷ path) h.0
            (h.1, h.2, h.4, top_of_Fits c path m, p) h.3)
    | is_gt e ↦
        rw (e, locate)
          (locate-IsPlaced q r
            (record { side = right; color = c; key = k; value = v; sibling = l } ∷ path) h.1
            (
              h.0,
              sym h.2,
              h.3,
              top_of_Fits c path m,
              subst (λ b. IsPathColoured path (raise c b)) (sym h.2) p,
            )
            h.4)
  ]

module _ {ℓ κ} {K : Type ℓ} {V : Type κ} (cmp : Comparator K) (o : IsWeakOrder cmp) where
  left-IsPlaceOf :
      (q : K) (c : Color) (l : RbTree K V) (k : K) (v : V) (r : RbTree K V)
      (path : List (Frame K V)) (p : Option (Place K V))
      → sign (cmp q k) ≡ Ordering.lt
      → IsPlaceOf cmp q l
          (record { side = left; color = c; key = k; value = v; sibling = r } ∷ path)
          p
      → IsPlaceOf cmp q (node c l k v r) path p
  left-IsPlaceOf q c l k v r path none e h =
      lookup_entry-left cmp q k v (entries l) (entries r) e ∙ h
  left-IsPlaceOf q c l k v r path (some p) e h = (
    lookup_entry-left cmp q k v (entries l) (entries r) e ∙ h.0,
    λ x same.
        let (u, eu, over) = h.1 x same in
        (
          node c u k v r,
          ap (λ es. es ++ (k, v) ∷ entries r) eu
              ∙ sym (erase_entry-left cmp q k v (entries l) (entries r) e),
          over,
        ),
  )

  right-IsPlaceOf :
      (q : K) (c : Color) (l : RbTree K V) (k : K) (v : V) (r : RbTree K V)
      (path : List (Frame K V)) (p : Option (Place K V))
      → sign (cmp q k) ≡ Ordering.gt
      → IsAscending cmp (entries l ++ (k, v) ∷ entries r)
      → IsPlaceOf cmp q r
          (record { side = right; color = c; key = k; value = v; sibling = l } ∷ path)
          p
      → IsPlaceOf cmp q (node c l k v r) path p
  right-IsPlaceOf q c l k v r path none e a h =
      lookup_entry-right cmp q k v (entries l) (entries r)
        (AllBelow-of_gt cmp o q k v (entries l) (entries r) a e) e
      ∙ h
  right-IsPlaceOf q c l k v r path (some p) e a h =
      let b = AllBelow-of_gt cmp o q k v (entries l) (entries r) a e in
      (
        lookup_entry-right cmp q k v (entries l) (entries r) b e ∙ h.0,
        λ x same.
            let (u, eu, over) = h.1 x same in
            (
              node c l k v u,
              ap (λ es. entries l ++ (k, v) ∷ es) eu
                  ∙ sym (erase_entry-right cmp q k v (entries l) (entries r) b e),
              over,
            ),
      )

  pub locate-IsPlaceOf :
      (q : K) (t : RbTree K V) (path : List (Frame K V))
      → IsAscending cmp (entries t)
      → IsPlaceOf cmp q t path (locate cmp q t path)
  unfolding locate lookup_entry
  locate-IsPlaceOf q leaf path a = refl
  locate-IsPlaceOf q (node c l k v r) path a = elim (order_case (sign (cmp q k))) [
    | is_eq e ↦
        let b = AllBelow-of_eq cmp o q k v (entries l) (entries r) a e in
        rw (e, locate)
          (
            lookup_entry-here cmp q k v (entries l) (entries r) b e,
            λ x same.
                (x, same ∙ sym (erase_entry-here cmp q k v (entries l) (entries r) b e), refl),
          )
    | is_lt e ↦
        rw (e, locate)
          (left-IsPlaceOf q c l k v r path _ e (
            locate-IsPlaceOf q l
              (record { side = left; color = c; key = k; value = v; sibling = r } ∷ path)
              (IsAscending-left cmp (entries l) ((k, v) ∷ entries r) a)))
    | is_gt e ↦
        rw (e, locate)
          (right-IsPlaceOf q c l k v r path _ e a (
            locate-IsPlaceOf q r
              (record { side = right; color = c; key = k; value = v; sibling = l } ∷ path)
              (IsAscending-right cmp (entries l) ((k, v) ∷ entries r) a).1))
  ]
