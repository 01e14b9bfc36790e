-- ===== src/Gtree/RedBlack/Recolour.antt =====
-- The insertion below a coloured path: `insertCase1` returns, and the tree is a red-black tree.
use gf.Prelude.{ℕ, suc, ◌≡◌, refl, ◌∙◌, ap, sym, subst, List, [], ◌∷◌, if◌then◌else◌, arith}
use gf.Prelude.Outcome.{ok, panic, ◌>>=◌, Ensures}
use gf.Gtree.RedBlack.{
  black, red, Side, left, right, is_red, RbTree, leaf, node, Frame, node_color, set_color, plug,
  root_of, rotate_left, rotate_right, insert_case5, insert_case4, insert_case1,
}
use gf.Gtree.RedBlack.Coloured.{
  WhenRed, is_red-split, black_height, IsColoured, IsRedBlack, IsPathColoured, Fits, Fits-black,
  join-IsColoured, black_height-join, node_color-join, root_of-IsRedBlack, set_color-IsRedBlack,
}

module _ {ℓ κ} {K : Type ℓ} {V : Type κ} where
  -- a black node with red children below a coloured path
  balanced-IsRedBlack :
      (a b c d : RbTree K V) (i j k : K) (x y z : V) (path : List (Frame K V)) (h : ℕ)
      → IsColoured (node red a i x b)
      → IsColoured (node red c k z d)
      → black_height a ≡ h
      → black_height c ≡ h
      → IsPathColoured path (suc h)
      → IsRedBlack (root_of path (node black (node red a i x b) j y (node red c k z d)))
  balanced-IsRedBlack a b c d i j k x y z path h ab cd e f p =
      root_of-IsRedBlack path (node black (node red a i x b) j y (node red c k z d))
        (ab, cd, f ∙ sym e, tt, tt) (subst (λ m. IsPathColoured path (suc m)) (sym e) p)
        (Fits-black path)

  -- The turns of `insert_case4` and `insert_case5`, below a black grandparent with a black uncle.
  turn-IsRedBlack :
      (s t : Side) (a b x u : RbTree K V) (nk fk gk : K) (nv fv gv : V) (path : List (Frame K V))
      → IsColoured (node red a nk nv b)
      → IsColoured x
      → black_height x ≡ black_height a
      → node_color x ≡ black
      → IsColoured u
      → black_height u ≡ black_height a
      → node_color u ≡ black
      → IsPathColoured path (suc (black_height a))
      → Ensures IsRedBlack (
          insert_case4
            (node red a nk nv b)
            (record { side = s; color = red; key = fk; value = fv; sibling = x })
            (record { side = t; color = black; key = gk; value = gv; sibling = u })
            path)
  unfolding insert_case4 insert_case5 rotate_left rotate_right
  turn-IsRedBlack left left a b x u nk fk gk nv fv gv path n hx ex bx hu eu bu p =
      balanced-IsRedBlack a b x u nk fk gk nv fv gv path (black_height a) n
        (hx, hu, eu ∙ sym ex, bx, bu) refl ex p
  turn-IsRedBlack left right a b x u nk fk gk nv fv gv path n hx ex bx hu eu bu p =
      balanced-IsRedBlack u a b x gk nk fk gv nv fv path (black_height a) (hu, n.0, sym eu, bu, n.3)
        (n.1, hx, ex ∙ sym n.2, n.4, bx) eu n.2 p
  turn-IsRedBlack right left a b x u nk fk gk nv fv gv path n hx ex bx hu eu bu p =
      balanced-IsRedBlack x a b u fk nk gk fv nv gv path (black_height a) (hx, n.0, sym ex, bx, n.3)
        (n.1, hu, eu ∙ sym n.2, n.4, bu) ex n.2 p
  turn-IsRedBlack right right a b x u nk fk gk nv fv gv path n hx ex bx hu eu bu p =
      balanced-IsRedBlack u x a b gk fk nk gv fv nv path (black_height a)
        (hu, hx, ex ∙ sym eu, bu, bx) n eu refl p

  red_parent :
      (f g : Frame K V) (path : List (Frame K V)) (h : ℕ)
      → f.color ≡ red
      → IsPathColoured (f ∷ g ∷ path) h
      → IsPathColoured (record f { color = red } ∷ record g { color = black } ∷ path) h
        × (g.color ≡ black)
  red_parent f g path h ef p =
      let p' : IsPathColoured (record f { color = red } ∷ g ∷ path) h =
        subst (λ c. IsPathColoured (record f { color = c } ∷ g ∷ path) h) ef p in
      (
        subst (λ c. IsPathColoured (record f { color = red } ∷ record g { color = c } ∷ path) h)
            p'.3 p',
        p'.3,
      )

  -- The same for any frames with those colours.
  insert_case4-IsRedBlack :
      (n : RbTree K V) (f g : Frame K V) (path : List (Frame K V))
      → IsColoured n
      → node_color n ≡ red
      → f.color ≡ red
      → node_color g.sibling ≡ black
      → IsPathColoured (f ∷ g ∷ path) (black_height n)
      → Ensures IsRedBlack (insert_case4 n f g path)
  insert_case4-IsRedBlack leaf f g path h e ef eu p = ground arith
  insert_case4-IsRedBlack (node black a k v b) f g path h e ef eu p = ground arith
  insert_case4-IsRedBlack (node red a k v b) f g path h e ef bu p =
      let (p', eg) = red_parent f g path (black_height a) ef p in
      subst
        (λ c. Ensures IsRedBlack (insert_case4 (node red a k v b) (record f { color = c }) g path))
        (sym ef)
        (subst
          (λ c. Ensures IsRedBlack (
            insert_case4 (node red a k v b) (record f { color = red }) (record g { color = c })
              path))
          (sym eg)
          (turn-IsRedBlack f.side g.side a b f.sibling g.sibling k f.key g.key v f.value g.value
            path h p'.0 p'.1 p'.2 p'.4.0 p'.4.1 bu p'.4.4))

  -- What `insert_case1` repaints is coloured, and red.
  repaint-IsColoured :
      (n : RbTree K V) (f g : Frame K V) (uncle : RbTree K V)
      → IsColoured n
      → IsColoured f.sibling
      → black_height f.sibling ≡ black_height n
      → IsColoured uncle
      → black_height uncle ≡ suc (black_height n)
      → node_color uncle ≡ black
      → IsColoured
          (plug (record g { color = red; sibling = uncle }) (plug (record f { color = black }) n))
  repaint-IsColoured n f g uncle h hs es hu eu bu =
      let parent : RbTree K V = plug (record f { color = black }) n in
      join-IsColoured g.side red g.key g.value parent uncle
        (join-IsColoured f.side black f.key f.value n f.sibling h hs es tt tt) hu
        (eu ∙ sym (black_height-join f.side black f.key f.value n f.sibling es))
        (node_color-join f.side black f.key f.value n f.sibling) bu

  repaint-black_height :
      (n : RbTree K V) (f g : Frame K V) (uncle : RbTree K V)
      → black_height f.sibling ≡ black_height n
      → black_height uncle ≡ suc (black_height n)
      → black_height
          (plug (record g { color = red; sibling = uncle }) (plug (record f { color = black }) n))
        ≡ suc (black_height n)
  repaint-black_height n f g uncle es eu =
      let below = black_height-join f.side black f.key f.value n f.sibling es in
      black_height-join g.side red g.key g.value (plug (record f { color = black }) n) uncle
        (eu ∙ sym below)
      ∙ below

  repaint-node_color :
      (n : RbTree K V) (f g : Frame K V) (uncle : RbTree K V)
      → node_color
          (plug (record g { color = red; sibling = uncle }) (plug (record f { color = black }) n))
        ≡ red
  repaint-node_color n f g uncle =
      node_color-join g.side red g.key g.value (plug (record f { color = black }) n) uncle

  blackened :
      (t : RbTree K V) (h : ℕ)
      → node_color t ≡ red
      → IsColoured t
      → black_height t ≡ h
      → (u : RbTree K V) × (set_color black t ≡ ok u)
        × IsColoured u
        × (black_height u ≡ suc h)
        × (node_color u ≡ black)
  blackened leaf h e c b = ground arith
  blackened (node black l k v r) h e c b = ground arith
  blackened (node red l k v r) h e c b =
      (node black l k v r, refl, (c.0, c.1, c.2, tt, tt), ap suc b, refl)

  black_parent :
      (f : Frame K V) (path : List (Frame K V)) (n : RbTree K V)
      → f.color ≡ black
      → Fits (f ∷ path) (node_color n)
  black_parent f path n e = subst (λ c. WhenRed c (node_color n ≡ black)) (sym e) tt

  -- On a coloured path `insert_case1` of a red node returns, and its root is a red-black tree.
  pub insert_case1-IsRedBlack :
      (path : List (Frame K V)) (n : RbTree K V)
      → IsColoured n
      → node_color n ≡ red
      → IsPathColoured path (black_height n)
      → Ensures IsRedBlack (insert_case1 n path)
  unfolding insert_case1
  insert_case1-IsRedBlack [] n h e p = set_color-IsRedBlack n h e
  insert_case1-IsRedBlack (f ∷ []) n h e p =
      is_red-split f.color (λ b. Ensures IsRedBlack (if b then panic else ok (plug f n)))
        (λ ef. (subst (λ c. WhenRed c ⊥) ef p.3))
        (λ ef. root_of-IsRedBlack (f ∷ []) n h p (black_parent f [] n ef))
  insert_case1-IsRedBlack (f ∷ g ∷ path) n h e p =
      is_red-split f.color
        (λ b. Ensures IsRedBlack (
          if b
          then (if is_red (node_color g.sibling)
              then set_color black g.sibling >>= (λ uncle.
                insert_case1
                  (plug (record g { color = red; sibling = uncle })
                    (plug (record f { color = black }) n))
                  path)
              else insert_case4 n f g path)
          else ok (root_of (f ∷ g ∷ path) n)))
        (λ ef.
          is_red-split (node_color g.sibling)
            (λ b. Ensures IsRedBlack (
              if b
              then set_color black g.sibling >>= (λ uncle.
                insert_case1
                  (plug (record g { color = red; sibling = uncle })
                    (plug (record f { color = black }) n))
                  path)
              else insert_case4 n f g path))
            (λ eu.
              let p' = (red_parent f g path (black_height n) ef p).0 in
              let (u, same, hu, bu, cu) = blackened g.sibling (black_height n) eu p'.4.0 p'.4.1 in
              subst
                (λ r. Ensures IsRedBlack (
                  r >>= (λ uncle.
                    insert_case1
                      (plug (record g { color = red; sibling = uncle })
                        (plug (record f { color = black }) n))
                      path)))
                (sym same)
                (insert_case1-IsRedBlack path
                  (plug (record g { color = red; sibling = u })
                    (plug (record f { color = black }) n))
                  (repaint-IsColoured n f g u h p'.0 p'.1 hu bu cu) (repaint-node_color n f g u)
                  (subst (λ m. IsPathColoured path m) (sym (repaint-black_height n f g u p'.1 bu))
                    p'.4.4)))
            (λ eu. insert_case4-IsRedBlack n f g path h e ef eu p))
        (λ ef. root_of-IsRedBlack (f ∷ g ∷ path) n h p (black_parent f (g ∷ path) n ef))
