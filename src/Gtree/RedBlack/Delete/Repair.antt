-- ===== src/Gtree/RedBlack/Delete/Repair.antt =====
-- The repair of a path that is one black node short.
use gf.Prelude.{Bool, ℕ, suc, ◌≡◌, refl, ◌∙◌, ap, sym, subst, List, ◌∷◌, append_assoc, arith}
use gf.Prelude.Outcome.{Outcome, ok}
use gf.Gtree.RedBlack.{
  Color, black, red, Side, left, right, RbTree, Frame, node_color, join, plug, root_of,
}
use gf.Gtree.RedBlack.Inorder.{entries, join-entries, root_of-entries}
use gf.Gtree.RedBlack.Coloured.{
  WhenRed, raise, black_height, IsColoured, HasBlackTop, IsPathColoured, Fits, Fits-top, Fits-black,
  join-IsColoured, black_height-join, node_color-join, root_of-IsRedBlack,
}
use gf.Gtree.RedBlack.Delete.{delete_case4}
use gf.Gtree.RedBlack.Delete.Laws.{
  Repairs, frame, red_node, delete_case4-far, delete_case4-near, delete_case4-plain, turned-entries,
}

when_red : (c : Color) (A : Type 0) → A → WhenRed c A
when_red red A a = a
when_red black A a = tt

pub data ColorCase (c : Color) : Type 0 where
  is_black : c ≡ black → ColorCase c
  is_red_one : c ≡ red → ColorCase c

pub color_case : (c : Color) → ColorCase c
color_case black = is_black refl
color_case red = is_red_one refl

module _ {ℓ κ} {K : Type ℓ} {V : Type κ} where
  -- a tree that stands below the path, in place of the one there
  settle :
      (n t : RbTree K V) (f : Frame K V) (path : List (Frame K V)) (c : Color) (g : ℕ)
      → IsColoured t
      → black_height t ≡ g
      → node_color t ≡ c
      → IsPathColoured path g
      → Fits path c
      → entries t ≡ entries (plug f n)
      → Repairs n (f ∷ path) (ok (root_of path t))
  settle n t f path c g h b e p m same = (
    root_of path t,
    refl,
    root_of-IsRedBlack path t h (subst (λ x. IsPathColoured path x) (sym b) p)
        (subst (λ x. Fits path x) (sym e) m),
    root_of-entries path t (plug f n) same,
  )

  -- two black nodes below a node of colour `c`
  pair-Repairs :
      (s : Side) (c : Color) (n a b e : RbTree K V) (j k i : K) (y v x : V) (f : Frame K V)
      (path : List (Frame K V)) (h : ℕ)
      → IsColoured n × (black_height n ≡ h)
      → IsColoured a × (black_height a ≡ h)
      → IsColoured b × (black_height b ≡ h)
      → IsColoured e × (black_height e ≡ h)
      → WhenRed c (HasBlackTop path)
      → IsPathColoured path (raise c (suc h))
      → entries (join s c k v (join s black j y n a) (join s black i x b e)) ≡ entries (plug f n)
      → Repairs n
          (f ∷ path)
          (ok (root_of path (join s c k v (join s black j y n a) (join s black i x b e))))
  pair-Repairs s c n a b e j k i y v x f path h hn ha hb he top p same =
      let t = join s black j y n a in
      let u = join s black i x b e in
      let bt : black_height t ≡ suc h =
        black_height-join s black j y n a (ha.1 ∙ sym hn.1) ∙ ap suc hn.1 in
      let bu : black_height u ≡ suc h =
        black_height-join s black i x b e (he.1 ∙ sym hb.1) ∙ ap suc hb.1 in
      settle n (join s c k v t u) f path c (raise c (suc h))
        (join-IsColoured s c k v t u
          (join-IsColoured s black j y n a hn.0 ha.0 (ha.1 ∙ sym hn.1) tt tt)
          (join-IsColoured s black i x b e hb.0 he.0 (he.1 ∙ sym hb.1) tt tt) (bu ∙ sym bt)
          (when_red c (node_color t ≡ black) (node_color-join s black j y n a))
          (when_red c (node_color u ≡ black) (node_color-join s black i x b e)))
        (black_height-join s c k v t u (bu ∙ sym bt) ∙ ap (raise c) bt)
        (node_color-join s c k v t u) p (Fits-top c path top) same

  pub Repairs-of :
      (n : RbTree K V) (path : List (Frame K V)) (r s : Outcome (RbTree K V))
      → r ≡ s
      → Repairs n path s
      → Repairs n path r
  Repairs-of n path r s e (root, f, h, k) = (root, e ∙ f, h, k)

  -- the children of a coloured node, whichever side they are on
  pub join_parts :
      (s : Side) (c : Color) (k : K) (v : V) (a b : RbTree K V) (h : ℕ)
      → IsColoured (join s c k v a b)
      → black_height (join s c k v a b) ≡ raise c h
      → IsColoured a
        × (black_height a ≡ h)
        × WhenRed c (node_color a ≡ black)
        × IsColoured b
        × (black_height b ≡ h)
        × WhenRed c (node_color b ≡ black)
  join_parts left black k v a b h i e =
      let below : black_height a ≡ h = omega (arith, e) in (i.0, below, tt, i.1, i.2 ∙ below, tt)
  join_parts left red k v a b h i e = (i.0, e, i.3, i.1, i.2 ∙ e, i.4)
  join_parts right black k v a b h i e =
      let below : black_height b ≡ h = omega (arith, e) in (i.1, i.2 ∙ below, tt, i.0, below, tt)
  join_parts right red k v a b h i e = (i.1, i.2 ∙ e, i.4, i.0, e, i.3)

  near-entries :
      (s : Side) (c : Color) (n a b far : RbTree K V) (fk k i : K) (fv v x : V)
      → entries (join s c i x (join s black fk fv n a) (join s black k v b far))
        ≡ entries (join s c fk fv n (join s black k v (join s red i x a b) far))
  near-entries left c n a b far fk k i fv v x = simp append_assoc
  near-entries right c n a b far fk k i fv v x = simp append_assoc

  far-Repairs :
      (bottom : Bool) (s : Side) (c : Color) (n a b e : RbTree K V) (fk k i : K) (fv v x : V)
      (path : List (Frame K V)) (h : ℕ)
      → IsColoured n × (black_height n ≡ h)
      → IsColoured a × (black_height a ≡ h)
      → IsColoured (join s red i x b e) × (black_height (join s red i x b e) ≡ h)
      → WhenRed c (HasBlackTop path)
      → IsPathColoured path (raise c (suc h))
      → Repairs n
          (frame s c fk fv (join s black k v a (join s red i x b e)) ∷ path)
          (delete_case4 bottom n (frame s c fk fv (join s black k v a (join s red i x b e))) path)
  far-Repairs bottom s c n a b e fk k i fv v x path h hn ha hf top p =
      let f = frame s c fk fv (join s black k v a (join s red i x b e)) in
      let t = join s c k v (join s black fk fv n a) (join s black i x b e) in
      let (ib, bb, _, ie, be, _) = join_parts s red i x b e h hf.0 hf.1 in
      Repairs-of n (f ∷ path) (delete_case4 bottom n f path) (ok (root_of path t))
        (delete_case4-far bottom s c n a b e fk k i fv v x path)
        (pair-Repairs s c n a b e fk k i fv v x f path h hn ha (ib, bb) (ie, be) top p
          (join-entries s c c k v (join s black fk fv n a) (join s black fk fv n a)
              (join s black i x b e) (join s red i x b e) refl
              (join-entries s black red i x b b e e refl refl)
            ∙ turned-entries s c black c black n a (join s red i x b e) fk k fv v))

  near-Repairs :
      (bottom : Bool) (s : Side) (c : Color) (n a b far : RbTree K V) (fk k i : K) (fv v x : V)
      (path : List (Frame K V)) (h : ℕ)
      → IsColoured n × (black_height n ≡ h)
      → IsColoured (join s red i x a b) × (black_height (join s red i x a b) ≡ h)
      → IsColoured far × (black_height far ≡ h)
      → node_color far ≡ black
      → WhenRed c (HasBlackTop path)
      → IsPathColoured path (raise c (suc h))
      → Repairs n
          (frame s c fk fv (join s black k v (join s red i x a b) far) ∷ path)
          (delete_case4 bottom n (frame s c fk fv (join s black k v (join s red i x a b) far)) path)
  near-Repairs bottom s c n a b far fk k i fv v x path h hn ha hf ef top p =
      let f = frame s c fk fv (join s black k v (join s red i x a b) far) in
      let t = join s c i x (join s black fk fv n a) (join s black k v b far) in
      let (ia, ba, _, ib, bb, _) = join_parts s red i x a b h ha.0 ha.1 in
      Repairs-of n (f ∷ path) (delete_case4 bottom n f path) (ok (root_of path t))
        (delete_case4-near bottom s c n a b far fk k i fv v x path ef)
        (pair-Repairs s c n a b far fk i k fv x v f path h hn (ia, ba) (ib, bb) hf top p
          (near-entries s c n a b far fk k i fv v x))

  plain-Repairs :
      (bottom : Bool) (s : Side) (n near far : RbTree K V) (fk k : K) (fv v : V)
      (path : List (Frame K V)) (h : ℕ)
      → IsColoured n × (black_height n ≡ h)
      → IsColoured near × (black_height near ≡ h)
      → IsColoured far × (black_height far ≡ h)
      → node_color near ≡ black
      → node_color far ≡ black
      → IsPathColoured path (suc h)
      → Repairs n
          (frame s red fk fv (join s black k v near far) ∷ path)
          (delete_case4 bottom n (frame s red fk fv (join s black k v near far)) path)
  plain-Repairs bottom s n near far fk k fv v path h hn ha hb en ef p =
      let f = frame s red fk fv (join s black k v near far) in
      let u = join s red k v near far in
      let same = hb.1 ∙ sym ha.1 in
      let bu : black_height u ≡ h = black_height-join s red k v near far same ∙ ha.1 in
      Repairs-of n (f ∷ path) (delete_case4 bottom n f path)
        (ok (root_of path (join s black fk fv n u)))
        (delete_case4-plain bottom s n near far fk k fv v path en ef)
        (settle n (join s black fk fv n u) f path black (suc h)
          (join-IsColoured s black fk fv n u hn.0
            (join-IsColoured s red k v near far ha.0 hb.0 same en ef) (bu ∙ sym hn.1) tt tt)
          (black_height-join s black fk fv n u (bu ∙ sym hn.1) ∙ ap suc hn.1)
          (node_color-join s black fk fv n u) p (Fits-black path)
          (join-entries s black red fk fv n n u (join s black k v near far) refl
            (join-entries s red black k v near near far far refl refl)))

  -- `delete_case4` beside a black sibling, unless everything is black there
  pub delete_case4-Repairs :
      (bottom : Bool) (s : Side) (c : Color) (n near far : RbTree K V) (fk k : K) (fv v : V)
      (path : List (Frame K V)) (h : ℕ)
      → IsColoured n × (black_height n ≡ h)
      → IsColoured near × (black_height near ≡ h)
      → IsColoured far × (black_height far ≡ h)
      → WhenRed c (HasBlackTop path)
      → IsPathColoured path (raise c (suc h))
      → ¬ ((c ≡ black) × (node_color near ≡ black) × (node_color far ≡ black))
      → Repairs n
          (frame s c fk fv (join s black k v near far) ∷ path)
          (delete_case4 bottom n (frame s c fk fv (join s black k v near far)) path)
  delete_case4-Repairs bottom s c n near far fk k fv v path h hn ha hb top p busy =
      elim (color_case (node_color far)) [
        | is_red_one ef ↦
            let (i, x, b, e, same) = red_node s far ef in
            subst
              (λ t.
                Repairs n (frame s c fk fv (join s black k v near t) ∷ path)
                  (delete_case4 bottom n (frame s c fk fv (join s black k v near t)) path))
              (sym same)
              (far-Repairs bottom s c n near b e fk k i fv v x path h hn ha
                (subst (λ t. IsColoured t × (black_height t ≡ h)) same hb) top p)
        | is_black ef ↦ elim (color_case (node_color near)) [
          | is_red_one en ↦
              let (i, x, a, b, same) = red_node s near en in
              subst
                (λ t.
                  Repairs n (frame s c fk fv (join s black k v t far) ∷ path)
                    (delete_case4 bottom n (frame s c fk fv (join s black k v t far)) path))
                (sym same)
                (near-Repairs bottom s c n a b far fk k i fv v x path h hn
                  (subst (λ t. IsColoured t × (black_height t ≡ h)) same ha) hb ef top p)
          | is_black en ↦ elim (color_case c) [
            | is_black ec ↦ absurd (busy (ec, en, ef))
            | is_red_one ec ↦
                subst
                  (λ d.
                    Repairs n (frame s d fk fv (join s black k v near far) ∷ path)
                      (delete_case4 bottom n (frame s d fk fv (join s black k v near far)) path))
                  (sym ec)
                  (plain-Repairs bottom s n near far fk k fv v path h hn ha hb en ef
                    (subst (λ d. IsPathColoured path (raise d (suc h))) ec p))
          ]
        ]
      ]
