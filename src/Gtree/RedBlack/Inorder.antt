-- ===== src/Gtree/RedBlack/Inorder.antt =====
-- The entries of a red-black tree, which rotations and repainting keep.
use gf.Prelude.{
  Bool, true, false, not, ◌&&◌, if◌then◌else◌, ◌≡◌, refl, ◌∙◌, ap, sym, List, [], ◌∷◌, ◌++◌,
  append_assoc,
}
use gf.Prelude.Outcome.{Outcome, ok, panic, ◌>>=◌, WhenOk, WhenOk-bind, WhenOk-map}
use gf.Gtree.Comparator.{Comparator, sign, IsWeakOrder, order_case, is_lt, is_eq, is_gt}
use gf.Gtree.Entries.{IsAscending}
use gf.Gtree.Entries.Upsert.{upsert_entry, upsert_entry-left, upsert_entry-right, upsert_entry-here}
use gf.Gtree.Entries.Order.{IsAscending-left, IsAscending-right, AllBelow-of_gt, AllBelow-of_eq}
use gf.Gtree.RedBlack.{
  Color, black, red, Side, left, right, is_red, is_left, RbTree, leaf, node, Frame, node_color,
  set_color, join, plug, root_of, rotate_left, rotate_right, step_left, step_right, insert_case5,
  insert_case4, insert_case1, Arrival, replaced, attached, descend,
}

module _ {ℓ κ} {K : Type ℓ} {V : Type κ} where
  abbrev pub entries : RbTree K V → List (K × V)
  entries leaf = []
  entries (node c l k v r) = entries l ++ (k, v) ∷ entries r

  pub join-entries :
      (s : Side) (c d : Color) (k : K) (v : V) (t u x y : RbTree K V)
      → entries t ≡ entries u
      → entries x ≡ entries y
      → entries (join s c k v t x) ≡ entries (join s d k v u y)
  join-entries left c d k v t u x y e f = rw (e, f) refl
  join-entries right c d k v t u x y e f = rw (e, f) refl

  -- the root depends on the entries of the node only
  pub root_of-entries :
      (path : List (Frame K V)) (t u : RbTree K V)
      → entries t ≡ entries u
      → entries (root_of path t) ≡ entries (root_of path u)
  root_of-entries [] t u e = e
  root_of-entries (f ∷ path) t u e =
      root_of-entries path (plug f t) (plug f u)
        (join-entries f.side f.color f.color f.key f.value t u f.sibling f.sibling e refl)

  abbrev SameEntries : RbTree K V → RbTree K V → Type (ℓ ⊔ κ)
  SameEntries t u = entries u ≡ entries t

  rotate_left-entries : (t : RbTree K V) → WhenOk (SameEntries t) (rotate_left t)
  unfolding rotate_left
  rotate_left-entries leaf = tt
  rotate_left-entries (node c l k v leaf) = tt
  rotate_left-entries (node c l k v (node rc rl rk rv rr)) = simp append_assoc

  rotate_right-entries : (t : RbTree K V) → WhenOk (SameEntries t) (rotate_right t)
  unfolding rotate_right
  rotate_right-entries leaf = tt
  rotate_right-entries (node c leaf k v r) = tt
  rotate_right-entries (node c (node lc ll lk lv lr) k v r) = simp append_assoc

  set_color-entries : (c : Color) (t : RbTree K V) → WhenOk (SameEntries t) (set_color c t)
  set_color-entries c leaf = tt
  set_color-entries c (node d l k v r) = refl

  turn-entries :
      (a b : Bool) (t : RbTree K V)
      → WhenOk (SameEntries t) (if a then rotate_right t else if b then rotate_left t else ok t)
  turn-entries true b t = rotate_right-entries t
  turn-entries false true t = rotate_left-entries t
  turn-entries false false t = refl

  -- what a call that works on `n` below `path` leaves is the tree that it was given
  abbrev KeepsEntries : RbTree K V → List (Frame K V) → Outcome (RbTree K V) → Type (ℓ ⊔ κ)
  KeepsEntries n path r = WhenOk (λ root. entries root ≡ entries (root_of path n)) r

  recolour-entries :
      (n : RbTree K V) (f g : Frame K V) (c d : Color)
      → entries (plug (record g { color = d }) (plug (record f { color = c }) n))
        ≡ entries (plug g (plug f n))
  recolour-entries n f g c d =
      join-entries g.side d g.color g.key g.value (plug (record f { color = c }) n) (plug f n)
        g.sibling g.sibling
        (join-entries f.side c f.color f.key f.value n n f.sibling f.sibling refl refl) refl

  insert_case5-entries :
      (n : RbTree K V) (f g : Frame K V) (path : List (Frame K V))
      → KeepsEntries n (f ∷ g ∷ path) (insert_case5 n f g path)
  unfolding insert_case5
  insert_case5-entries n f g path =
      let top : RbTree K V =
        plug (record g { color = red }) (plug (record f { color = black }) n) in
      WhenOk-bind (SameEntries top) (λ root. entries root ≡ entries (root_of (f ∷ g ∷ path) n))
        (if is_left f.side && is_left g.side
          then rotate_right top
          else if not (is_left f.side) && not (is_left g.side)
          then rotate_left top
          else ok top)
        (λ turned. ok (root_of path turned))
        (turn-entries (is_left f.side && is_left g.side)
          (not (is_left f.side) && not (is_left g.side)) top)
        (λ turned e.
          root_of-entries path turned (plug g (plug f n)) (e ∙ recolour-entries n f g black red))

  step_left-entries :
      (t : RbTree K V) → WhenOk (λ (n, f). entries (plug f n) ≡ entries t) (step_left t)
  step_left-entries leaf = tt
  step_left-entries (node c l k v r) = refl

  step_right-entries :
      (t : RbTree K V) → WhenOk (λ (n, f). entries (plug f n) ≡ entries t) (step_right t)
  step_right-entries leaf = tt
  step_right-entries (node c l k v r) = refl

  -- The first rotation of `insert_case4`.
  turned_parent-entries :
      (a b : Bool) (n : RbTree K V) (f : Frame K V)
      → WhenOk
          (λ (m, h). entries (plug h m) ≡ entries (plug f n))
          (if a
            then (if b then ok (n, f) else rotate_left (plug f n) >>= step_left)
            else (if b then rotate_right (plug f n) >>= step_right else ok (n, f)))
  turned_parent-entries true true n f = refl
  turned_parent-entries true false n f =
      WhenOk-bind (SameEntries (plug f n)) (λ (m, h). entries (plug h m) ≡ entries (plug f n))
        (rotate_left (plug f n)) step_left (rotate_left-entries (plug f n))
        (λ t e.
          WhenOk-map (λ (m, h). entries (plug h m) ≡ entries t)
            (λ (m, h). entries (plug h m) ≡ entries (plug f n)) (step_left t) (step_left-entries t)
            (λ _ d. d ∙ e))
  turned_parent-entries false true n f =
      WhenOk-bind (SameEntries (plug f n)) (λ (m, h). entries (plug h m) ≡ entries (plug f n))
        (rotate_right (plug f n)) step_right (rotate_right-entries (plug f n))
        (λ t e.
          WhenOk-map (λ (m, h). entries (plug h m) ≡ entries t)
            (λ (m, h). entries (plug h m) ≡ entries (plug f n)) (step_right t)
            (step_right-entries t) (λ _ d. d ∙ e))
  turned_parent-entries false false n f = refl

  insert_case4-entries :
      (n : RbTree K V) (f g : Frame K V) (path : List (Frame K V))
      → KeepsEntries n (f ∷ g ∷ path) (insert_case4 n f g path)
  unfolding insert_case4
  insert_case4-entries n f g path =
      WhenOk-bind (λ (m, h). entries (plug h m) ≡ entries (plug f n))
        (λ root. entries root ≡ entries (root_of (f ∷ g ∷ path) n))
        (if is_left g.side
          then (if is_left f.side then ok (n, f) else rotate_left (plug f n) >>= step_left)
          else (if is_left f.side then rotate_right (plug f n) >>= step_right else ok (n, f)))
        (λ (m, h). insert_case5 m h g path)
        (turned_parent-entries (is_left g.side) (is_left f.side) n f)
        (λ (m, h) e.
          WhenOk-map (λ root. entries root ≡ entries (root_of (h ∷ g ∷ path) m))
            (λ root. entries root ≡ entries (root_of (f ∷ g ∷ path) n)) (insert_case5 m h g path)
            (insert_case5-entries m h g path)
            (λ root d. d ∙ root_of-entries (g ∷ path) (plug h m) (plug f n) e))

  KeepsEntries-if :
      (b : Bool) (n : RbTree K V) (path : List (Frame K V)) (r s : Outcome (RbTree K V))
      → KeepsEntries n path r
      → KeepsEntries n path s
      → KeepsEntries n path (if b then r else s)
  KeepsEntries-if true n path r s h k = h
  KeepsEntries-if false n path r s h k = k

  repaint-entries :
      (uncle : RbTree K V) (n : RbTree K V) (f g : Frame K V) (c d : Color)
      → entries uncle ≡ entries g.sibling
      → entries (plug (record g { color = d; sibling = uncle }) (plug (record f { color = c }) n))
        ≡ entries (plug g (plug f n))
  repaint-entries uncle n f g c d e =
      join-entries g.side d g.color g.key g.value (plug (record f { color = c }) n) (plug f n) uncle
        g.sibling (join-entries f.side c f.color f.key f.value n n f.sibling f.sibling refl refl) e

  pub insert_case1-entries :
      (path : List (Frame K V)) (n : RbTree K V) → KeepsEntries n path (insert_case1 n path)
  unfolding insert_case1
  insert_case1-entries [] n = set_color-entries black n
  insert_case1-entries (f ∷ []) n =
      KeepsEntries-if (is_red f.color) n (f ∷ []) panic (ok (plug f n)) tt refl
  insert_case1-entries (f ∷ g ∷ path) n =
      let repaint : RbTree K V → RbTree K V = λ uncle.
        plug (record g { color = red; sibling = uncle }) (plug (record f { color = black }) n) in
      let again : RbTree K V → Outcome (RbTree K V) = λ uncle. insert_case1 (repaint uncle) path in
      let turn : Outcome (RbTree K V) = insert_case4 n f g path in
      KeepsEntries-if (is_red f.color) n (f ∷ g ∷ path)
        (if is_red (node_color g.sibling) then set_color black g.sibling >>= again else turn)
        (ok (root_of (f ∷ g ∷ path) n))
        (KeepsEntries-if (is_red (node_color g.sibling)) n (f ∷ g ∷ path)
          (set_color black g.sibling >>= again) turn
          (WhenOk-bind (SameEntries g.sibling)
            (λ root. entries root ≡ entries (root_of (f ∷ g ∷ path) n)) (set_color black g.sibling)
            again (set_color-entries black g.sibling)
            (λ uncle e.
              WhenOk-map (λ root. entries root ≡ entries (root_of path (repaint uncle)))
                (λ root. entries root ≡ entries (root_of (f ∷ g ∷ path) n)) (again uncle)
                (insert_case1-entries path (repaint uncle))
                (λ root d.
                  d
                  ∙ root_of-entries path (repaint uncle) (plug g (plug f n))
                      (repaint-entries uncle n f g black red e))))
          (insert_case4-entries n f g path))
        refl

  -- the tree above an arrival, before it is repaired
  abbrev pub whole : Arrival K V → RbTree K V
  whole (replaced root) = root
  whole (attached n path) = root_of path n

module _ {ℓ κ} {K : Type ℓ} {V : Type κ} (cmp : Comparator K) (o : IsWeakOrder cmp) where
  -- The loop of `doSet` reaches the place of the key: the tree with the entry set there is the tree
  -- above an ordered map with that entry.
  pub descend-entries :
      (q : K) (w : V) (t : RbTree K V) (path : List (Frame K V))
      → IsAscending cmp (entries t)
      → (u : RbTree K V) × (entries u ≡ upsert_entry cmp q w (entries t))
        × (whole (descend cmp q w t path) ≡ root_of path u)
  unfolding descend upsert_entry
  descend-entries q w leaf path h = (node red leaf q w leaf, refl, refl)
  descend-entries q w (node c l k v r) path h = elim (order_case (sign (cmp q k))) [
    | is_eq e ↦ (
      node c l k w r,
      sym (
          upsert_entry-here cmp q k v w (entries l) (entries r)
            (AllBelow-of_eq cmp o q k v (entries l) (entries r) h e) e),
      rw (e, descend) refl,
    )
    | is_lt e ↦
        let rest =
          descend-entries q w l
            (record { side = left; color = c; key = k; value = v; sibling = r } ∷ path)
            (IsAscending-left cmp (entries l) ((k, v) ∷ entries r) h) in
        (
          node c rest.0 k v r,
          ap (λ es. es ++ (k, v) ∷ entries r) rest.1
              ∙ sym (upsert_entry-left cmp q k v w (entries l) (entries r) e),
          rw (e, descend) rest.2,
        )
    | is_gt e ↦
        let rest =
          descend-entries q w r
            (record { side = right; color = c; key = k; value = v; sibling = l } ∷ path)
            (IsAscending-right cmp (entries l) ((k, v) ∷ entries r) h).1 in
        (
          node c l k v rest.0,
          ap (λ es. entries l ++ (k, v) ∷ es) rest.1
              ∙ sym (
                  upsert_entry-right cmp q k v w (entries l) (entries r)
                    (AllBelow-of_gt cmp o q k v (entries l) (entries r) h e) e),
          rw (e, descend) rest.2,
        )
  ]
