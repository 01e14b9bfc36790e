-- ===== src/Gtree/RedBlack/Delete/Ascent.antt =====
-- The deletion from the node up: `deleteCase1` repairs every path that is one black node short.
use gf.Prelude.{
  Bool, ℕ, suc, ◌≡◌, refl, ◌∙◌, ap, sym, subst, true, false, not, ◌&&◌, if◌then◌else◌, List, [],
  ◌∷◌, arith,
}
use gf.Prelude.Outcome.{ok}
use gf.Gtree.RedBlack.{
  Color, black, red, Side, left, right, is_red, RbTree, leaf, node, Frame, node_color, join, plug,
  root_of,
}
use gf.Gtree.RedBlack.Inorder.{entries, join-entries, root_of-entries}
use gf.Gtree.RedBlack.Coloured.{
  WhenRed, raise, black_height, IsColoured, HasBlackTop, IsPathColoured, Fits, Fits-black,
  join-IsColoured, black_height-join, node_color-join, root_of-IsRedBlack, is_red-split,
}
use gf.Gtree.RedBlack.Delete.{
  rotate_over, is_all_black, delete_case4, delete_case1, blacken_root, put_child,
}
use gf.Gtree.RedBlack.Delete.Repair.{
  is_black, is_red_one, color_case, Repairs-of, join_parts, delete_case4-Repairs,
}
use gf.Gtree.RedBlack.Delete.Laws.{Repairs, frame, red_node, black_node, turned-entries}

module _ {ℓ κ} {K : Type ℓ} {V : Type κ} where
  -- the branches of `delete_case1`
  delete_case1-red_sibling :
      (bottom : Bool) (s : Side) (c : Color) (n near far : RbTree K V) (fk k : K) (fv v : V)
      (path : List (Frame K V))
      → delete_case1 bottom n (frame s c fk fv (join s red k v near far) ∷ path)
        ≡ delete_case4 bottom n (frame s red fk fv near) (frame s black k v far ∷ path)
  unfolding delete_case1 rotate_over
  delete_case1-red_sibling bottom left c n near far fk k fv v path = refl
  delete_case1-red_sibling bottom right c n near far fk k fv v path = refl

  delete_case1-red_parent :
      (bottom : Bool) (s : Side) (n near far : RbTree K V) (fk k : K) (fv v : V)
      (path : List (Frame K V))
      → delete_case1 bottom n (frame s red fk fv (join s black k v near far) ∷ path)
        ≡ delete_case4 bottom n (frame s red fk fv (join s black k v near far)) path
  unfolding delete_case1
  delete_case1-red_parent bottom left n near far fk k fv v path = refl
  delete_case1-red_parent bottom right n near far fk k fv v path = refl

  delete_case1-black_parent :
      (bottom : Bool) (s : Side) (n near far : RbTree K V) (fk k : K) (fv v : V)
      (path : List (Frame K V))
      → delete_case1 bottom n (frame s black fk fv (join s black k v near far) ∷ path) ≡ (
          if not (is_red (node_color near)) && not (is_red (node_color far))
          then delete_case1 false (join s black fk fv n (join s red k v near far)) path
          else delete_case4 bottom n (frame s black fk fv (join s black k v near far)) path)
  unfolding delete_case1 is_all_black
  delete_case1-black_parent bottom left n near far fk k fv v path = refl
  delete_case1-black_parent bottom right n near far fk k fv v path = refl

  red_sibling-Repairs :
      (bottom : Bool) (s : Side) (n near far : RbTree K V) (fk k : K) (fv v : V)
      (path : List (Frame K V)) (h : ℕ)
      → IsColoured n × (black_height n ≡ h)
      → IsColoured (join s red k v near far)
      → black_height (join s red k v near far) ≡ suc h
      → IsPathColoured path (suc (suc h))
      → Repairs n
          (frame s black fk fv (join s red k v near far) ∷ path)
          (delete_case1 bottom n (frame s black fk fv (join s red k v near far) ∷ path))
  red_sibling-Repairs bottom s n near far fk k fv v path h hn hx bx p =
      let f = frame s black fk fv (join s red k v near far) in
      let g = frame s black k v far in
      let (ia, ba, ca, ib, bb, cb) = join_parts s red k v near far (suc h) hx bx in
      let (j, y, a, b, same) = black_node s near h ca ba in
      let parts =
        join_parts s black j y a b h (subst IsColoured same ia) (ap black_height (sym same) ∙ ba) in
      let (root, e, good, kept) =
        subst
          (λ t.
            Repairs n (frame s red fk fv t ∷ g ∷ path)
              (delete_case4 bottom n (frame s red fk fv t) (g ∷ path)))
          (sym same)
          (delete_case4-Repairs bottom s red n a b fk j fv y (g ∷ path) h hn (parts.0, parts.1)
            (parts.3, parts.4) refl (ib, bb, tt, tt, p) (λ z. ground arith)) in
      (
        root,
        delete_case1-red_sibling bottom s black n near far fk k fv v path ∙ e,
        good,
        kept
            ∙ root_of-entries path (plug g (plug (frame s red fk fv near) n)) (plug f n)
                (turned-entries s black red black red n near far fk k fv v),
      )

  -- what must hold of the root if the path is empty
  abbrev EndsBlack : List (Frame K V) → RbTree K V → Type 0
  EndsBlack [] n = node_color n ≡ black
  EndsBlack (f ∷ path) n = Unit

  EndsBlack-black :
      (path : List (Frame K V)) (n : RbTree K V) → node_color n ≡ black → EndsBlack path n
  EndsBlack-black [] n e = e
  EndsBlack-black (f ∷ path) n e = tt

  not_red : (t : RbTree K V) → not (is_red (node_color t)) ≡ true → node_color t ≡ black
  not_red t e =
      is_red-split (node_color t) (λ b. not b ≡ true → node_color t ≡ black) (λ _ h. ground arith)
        (λ h _. h) e

  black_sibling-Repairs :
      (bottom : Bool) (s : Side) (n near far : RbTree K V) (fk k : K) (fv v : V)
      (path : List (Frame K V)) (h : ℕ)
      → IsColoured n × (black_height n ≡ h)
      → IsColoured near × (black_height near ≡ h)
      → IsColoured far × (black_height far ≡ h)
      → IsPathColoured path (suc (suc h))
      → ((m : RbTree K V)
          → IsColoured m
          → black_height m ≡ suc h
          → EndsBlack path m
          → Repairs m path (delete_case1 false m path))
      → Repairs n
          (frame s black fk fv (join s black k v near far) ∷ path)
          (delete_case1 bottom n (frame s black fk fv (join s black k v near far) ∷ path))
  black_sibling-Repairs bottom s n near far fk k fv v path h hn ha hb p again =
      let f = frame s black fk fv (join s black k v near far) in
      let up = delete_case1-black_parent bottom s n near far fk k fv v path in
      elim (color_case (node_color near)) [
        | is_red_one en ↦
            Repairs-of n (f ∷ path) (delete_case1 bottom n (f ∷ path))
              (delete_case4 bottom n f path) (up ∙ rw en refl)
              (delete_case4-Repairs bottom s black n near far fk k fv v path h hn ha hb tt p
                (λ (_, z, _). ground arith))
        | is_black en ↦ elim (color_case (node_color far)) [
          | is_red_one ef ↦
              Repairs-of n (f ∷ path) (delete_case1 bottom n (f ∷ path))
                (delete_case4 bottom n f path) (up ∙ rw (en, ef) refl)
                (delete_case4-Repairs bottom s black n near far fk k fv v path h hn ha hb tt p
                  (λ (_, _, z). ground arith))
          | is_black ef ↦
              let u = join s red k v near far in
              let t = join s black fk fv n u in
              let same = hb.1 ∙ sym ha.1 in
              let bu : black_height u ≡ h = black_height-join s red k v near far same ∙ ha.1 in
              let (root, e, good, kept) =
                again t
                  (join-IsColoured s black fk fv n u hn.0
                    (join-IsColoured s red k v near far ha.0 hb.0 same en ef) (bu ∙ sym hn.1) tt tt)
                  (black_height-join s black fk fv n u (bu ∙ sym hn.1) ∙ ap suc hn.1)
                  (EndsBlack-black path t (node_color-join s black fk fv n u)) in
              (
                root,
                up ∙ rw (en, ef) e,
                good,
                kept
                    ∙ root_of-entries path t (plug f n) (
                        join-entries s black black fk fv n n u (join s black k v near far) refl
                          (join-entries s red black k v near near far far refl refl)),
              )
        ]
      ]

  -- `delete_case1` below a frame, given what it does further up
  frame-Repairs :
      (bottom : Bool) (s : Side) (c : Color) (n x : RbTree K V) (fk : K) (fv : V)
      (path : List (Frame K V)) (h : ℕ)
      → IsColoured n × (black_height n ≡ h)
      → IsColoured x × (black_height x ≡ suc h)
      → WhenRed c (node_color x ≡ black)
      → WhenRed c (HasBlackTop path)
      → IsPathColoured path (raise c (suc h))
      → ((m : RbTree K V)
          → IsColoured m
          → black_height m ≡ suc h
          → EndsBlack path m
          → IsPathColoured path (suc (suc h))
          → Repairs m path (delete_case1 false m path))
      → Repairs n (frame s c fk fv x ∷ path) (delete_case1 bottom n (frame s c fk fv x ∷ path))
  frame-Repairs bottom s red n x fk fv path h hn hx ex top p again =
      let (k, v, near, far, same) = black_node s x h ex hx.1 in
      let (ia, ba, _, ib, bb, _) =
        join_parts s black k v near far h (subst IsColoured same hx.0)
          (ap black_height (sym same) ∙ hx.1) in
      let f = frame s red fk fv (join s black k v near far) in
      subst
        (λ t.
          Repairs n (frame s red fk fv t ∷ path)
            (delete_case1 bottom n (frame s red fk fv t ∷ path)))
        (sym same)
        (Repairs-of n (f ∷ path) (delete_case1 bottom n (f ∷ path)) (delete_case4 bottom n f path)
          (delete_case1-red_parent bottom s n near far fk k fv v path)
          (delete_case4-Repairs bottom s red n near far fk k fv v path h hn (ia, ba) (ib, bb) top p
            (λ z. ground arith)))
  frame-Repairs bottom s black n x fk fv path h hn hx m top p again =
      elim (color_case (node_color x)) [
        | is_red_one ex ↦
            let (k, v, near, far, same) = red_node s x ex in
            subst
              (λ t.
                Repairs n (frame s black fk fv t ∷ path)
                  (delete_case1 bottom n (frame s black fk fv t ∷ path)))
              (sym same)
              (red_sibling-Repairs bottom s n near far fk k fv v path h hn
                (subst IsColoured same hx.0) (ap black_height (sym same) ∙ hx.1) p)
        | is_black ex ↦
            let (k, v, near, far, same) = black_node s x h ex hx.1 in
            let (ia, ba, _, ib, bb, _) =
              join_parts s black k v near far h (subst IsColoured same hx.0)
                (ap black_height (sym same) ∙ hx.1) in
            subst
              (λ t.
                Repairs n (frame s black fk fv t ∷ path)
                  (delete_case1 bottom n (frame s black fk fv t ∷ path)))
              (sym same)
              (black_sibling-Repairs bottom s n near far fk k fv v path h hn (ia, ba) (ib, bb) p
                (λ m i b e. again m i b e p))
      ]

  delete_case1-end : (bottom : Bool) (n : RbTree K V) → delete_case1 bottom n [] ≡ ok n
  unfolding delete_case1
  delete_case1-end bottom n = refl

  -- Below a coloured path that is one black node short `delete_case1` returns a red-black tree with
  -- the entries of the tree that it was given.
  pub delete_case1-Repairs :
      (bottom : Bool) (path : List (Frame K V)) (n : RbTree K V) (h : ℕ)
      → IsColoured n
      → black_height n ≡ h
      → EndsBlack path n
      → IsPathColoured path (suc h)
      → Repairs n path (delete_case1 bottom n path)
  delete_case1-Repairs bottom [] n h i e m p = (n, delete_case1-end bottom n, (i, m), refl)
  delete_case1-Repairs bottom (f ∷ path) n h i e m p =
      frame-Repairs bottom f.side f.color n f.sibling f.key f.value path h (i, e) (p.0, p.1) p.2 p.3
        p.4 (λ m i' b end p'. delete_case1-Repairs false path m (suc h) i' b end p')

  blacken_root-same :
      (path : List (Frame K V)) (t : RbTree K V)
      → entries (root_of path (blacken_root path t)) ≡ entries (root_of path t)
  unfolding blacken_root
  blacken_root-same [] leaf = refl
  blacken_root-same [] (node c l k v r) = refl
  blacken_root-same (f ∷ path) t = refl

  -- the child that takes the place of a coloured node keeps the tree a red-black tree
  pub put_child-Repairs :
      (c : Color) (path : List (Frame K V)) (t : RbTree K V) (h : ℕ)
      → IsColoured t
      → black_height t ≡ h
      → WhenRed c (node_color t ≡ black)
      → Fits path c
      → IsPathColoured path (raise c h)
      → Repairs t path (put_child c path t)
  unfolding put_child blacken_root
  put_child-Repairs red [] t h i b e m p = ground arith
  put_child-Repairs black [] leaf h i b e m p = (leaf, delete_case1-end true leaf, (tt, refl), refl)
  put_child-Repairs black [] (node c l k v r) h i b e m p = (
    node black l k v r,
    delete_case1-end true (node black l k v r),
    ((i.0, i.1, i.2, tt, tt), refl),
    refl,
  )
  put_child-Repairs red (f ∷ path) t h i b e m p = (
    root_of (f ∷ path) t,
    refl,
    root_of-IsRedBlack (f ∷ path) t i (subst (λ x. IsPathColoured (f ∷ path) x) (sym b) p)
        (subst (λ x. Fits (f ∷ path) x) (sym e) (Fits-black (f ∷ path))),
    refl,
  )
  put_child-Repairs black (f ∷ path) t h i b e m p =
      delete_case1-Repairs true (f ∷ path) t h i b tt p
