-- ===== src/Gtree/RedBlack/Coloured.antt =====
-- The colours of a red-black tree, and of a path above a node.
use gf.Prelude.{ℕ, suc, ◌≡◌, refl, ap, sym, subst, List, [], ◌∷◌, Bool, true, false, arith}
use gf.Prelude.Outcome.{Ensures}
use gf.Gtree.RedBlack.{
  Color, black, red, Side, left, right, is_red, RbTree, leaf, node, Frame, node_color, set_color,
  join, plug, root_of,
}

abbrev pub WhenRed : Color → Type 0 → Type 0
WhenRed red A = A
WhenRed black A = Unit

pub is_red-split :
    (c : Color) (P : Bool → Type 0) → (c ≡ red → P true) → (c ≡ black → P false) → P (is_red c)
is_red-split red P h k = h refl
is_red-split black P h k = k refl

abbrev pub raise : Color → ℕ → ℕ
raise red h = h
raise black h = suc h

module _ {ℓ κ} {K : Type ℓ} {V : Type κ} where
  -- the black nodes on the way to the leftmost leaf
  abbrev pub black_height : RbTree K V → ℕ
  black_height leaf = 0
  black_height (node c l k v r) = raise c (black_height l)

  -- Every way down from a node has the same number of black nodes, and no red node has a red child.
  abbrev pub IsColoured : RbTree K V → Type 0
  IsColoured leaf = Unit
  IsColoured (node c l k v r) =
      IsColoured l
      × IsColoured r
      × (black_height r ≡ black_height l)
      × WhenRed c (node_color l ≡ black)
      × WhenRed c (node_color r ≡ black)

  -- what the root of a valid tree satisfies
  abbrev pub IsRedBlack : RbTree K V → Type 0
  IsRedBlack t = IsColoured t × (node_color t ≡ black)

  abbrev pub HasBlackTop : List (Frame K V) → Type 0
  HasBlackTop [] = ⊥
  HasBlackTop (f ∷ path) = f.color ≡ black

  -- A path is coloured if a coloured tree of black height `h` may stand below it.
  abbrev pub IsPathColoured : List (Frame K V) → ℕ → Type 0
  IsPathColoured [] h = Unit
  IsPathColoured (f ∷ path) h =
      IsColoured f.sibling
      × (black_height f.sibling ≡ h)
      × WhenRed f.color (node_color f.sibling ≡ black)
      × WhenRed f.color (HasBlackTop path)
      × IsPathColoured path (raise f.color h)

  -- whether a node of colour `c` may stand there
  abbrev pub Fits : List (Frame K V) → Color → Type 0
  Fits [] c = c ≡ black
  Fits (f ∷ path) c = WhenRed f.color (c ≡ black)

  pub Fits-black : (path : List (Frame K V)) → Fits path black
  Fits-black [] = refl
  Fits-black (f ∷ path) = elim f.color as (λ c. WhenRed c (black ≡ black)) [
    | red ↦ refl
    | black ↦ tt
  ]

  pub Fits-top : (c : Color) (path : List (Frame K V)) → WhenRed c (HasBlackTop path) → Fits path c
  Fits-top black path h = Fits-black path
  Fits-top red [] h = absurd h
  Fits-top red (f ∷ path) h = subst (λ c. WhenRed c (red ≡ black)) (sym h) tt

  pub join-IsColoured :
      (s : Side) (c : Color) (k : K) (v : V) (t x : RbTree K V)
      → IsColoured t
      → IsColoured x
      → black_height x ≡ black_height t
      → WhenRed c (node_color t ≡ black)
      → WhenRed c (node_color x ≡ black)
      → IsColoured (join s c k v t x)
  join-IsColoured left c k v t x h i e m n = (h, i, e, m, n)
  join-IsColoured right c k v t x h i e m n = (i, h, sym e, n, m)

  pub black_height-join :
      (s : Side) (c : Color) (k : K) (v : V) (t x : RbTree K V)
      → black_height x ≡ black_height t
      → black_height (join s c k v t x) ≡ raise c (black_height t)
  black_height-join left c k v t x e = refl
  black_height-join right c k v t x e = ap (raise c) e

  pub node_color-join :
      (s : Side) (c : Color) (k : K) (v : V) (t x : RbTree K V) → node_color (join s c k v t x) ≡ c
  node_color-join left c k v t x = refl
  node_color-join right c k v t x = refl

  pub root_of-IsRedBlack :
      (path : List (Frame K V)) (t : RbTree K V)
      → IsColoured t
      → IsPathColoured path (black_height t)
      → Fits path (node_color t)
      → IsRedBlack (root_of path t)
  root_of-IsRedBlack [] t h p m = (h, m)
  root_of-IsRedBlack (f ∷ path) t h (i, e, n, top, p) m =
      root_of-IsRedBlack path (plug f t)
        (join-IsColoured f.side f.color f.key f.value t f.sibling h i e m n)
        (subst (λ b. IsPathColoured path b)
          (sym (black_height-join f.side f.color f.key f.value t f.sibling e)) p)
        (subst (λ c. Fits path c) (sym (node_color-join f.side f.color f.key f.value t f.sibling))
          (Fits-top f.color path top))

  pub set_color-IsRedBlack :
      (t : RbTree K V) → IsColoured t → node_color t ≡ red → Ensures IsRedBlack (set_color black t)
  set_color-IsRedBlack leaf h e = ground arith
  set_color-IsRedBlack (node c l k v r) h e = ((h.0, h.1, h.2, tt, tt), refl)
