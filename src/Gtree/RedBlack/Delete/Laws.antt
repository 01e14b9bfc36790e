-- ===== src/Gtree/RedBlack/Delete/Laws.antt =====
-- The cases of the deletion: below a coloured path that is one black node short they return a
-- red-black tree, with the same entries.
use gf.Prelude.{ℕ, suc, ◌≡◌, refl, Bool, true, false, not, ◌&&◌, List, append_assoc, arith}
use gf.Prelude.Outcome.{Outcome, ok}
use gf.Gtree.RedBlack.{
  Color, black, red, Side, left, right, is_red, RbTree, leaf, node, Frame, node_color, set_color,
  join, root_of, rotate_left, rotate_right,
}
use gf.Gtree.RedBlack.Inorder.{entries}
use gf.Gtree.RedBlack.Coloured.{black_height, IsRedBlack, node_color-join}
use gf.Gtree.RedBlack.Delete.{
  is_all_black, rotate_over, delete_case5, blacken_far, delete_case6, delete_case4,
}

pub and_false : (b : Bool) → (b && false) ≡ false
and_false true = refl
and_false false = refl

module _ {ℓ κ} {K : Type ℓ} {V : Type κ} where
  -- the call returns a red-black tree with the entries of the tree that it was given
  abbrev pub Repairs : RbTree K V → List (Frame K V) → Outcome (RbTree K V) → Type (ℓ ⊔ κ)
  Repairs n path r =
      (root : RbTree K V) × (r ≡ ok root)
      × IsRedBlack root
      × (entries root ≡ entries (root_of path n))

  abbrev pub frame : Side → Color → K → V → RbTree K V → Frame K V
  frame s c k v x = record { side = s; color = c; key = k; value = v; sibling = x }

  pub red_node :
      (s : Side) (t : RbTree K V)
      → node_color t ≡ red
      → (k : K) × (v : V) × (a : RbTree K V) × (b : RbTree K V) × (t ≡ join s red k v a b)
  red_node s leaf e = ground arith
  red_node s (node black l k v r) e = ground arith
  red_node left (node red l k v r) e = (k, v, l, r, refl)
  red_node right (node red l k v r) e = (k, v, r, l, refl)

  pub black_node :
      (s : Side) (t : RbTree K V) (h : ℕ)
      → node_color t ≡ black
      → black_height t ≡ suc h
      → (k : K) × (v : V) × (a : RbTree K V) × (b : RbTree K V) × (t ≡ join s black k v a b)
  black_node s leaf h e b = ground arith
  black_node s (node red l k v r) h e b = ground arith
  black_node left (node black l k v r) h e b = (k, v, l, r, refl)
  black_node right (node black l k v r) h e b = (k, v, r, l, refl)

  -- `deleteCase6` with a red far nephew
  delete_case6-far :
      (bottom : Bool) (s : Side) (c d : Color) (n a b e : RbTree K V) (fk k i : K) (fv v x : V)
      (path : List (Frame K V))
      → delete_case6 bottom n (frame s c fk fv (join s d k v a (join s red i x b e))) path
        ≡ ok (root_of path (join s c k v (join s black fk fv n a) (join s black i x b e)))
  unfolding delete_case6 rotate_over blacken_far
  delete_case6-far bottom left c d n a b e fk k i fv v x path = refl
  delete_case6-far bottom right c d n a b e fk k i fv v x path = refl

  delete_case5-far :
      (s : Side) (a b e : RbTree K V) (k i : K) (v x : V)
      → delete_case5 s (join s black k v a (join s red i x b e))
        ≡ ok (join s black k v a (join s red i x b e))
  unfolding delete_case5
  delete_case5-far left a b e k i v x = rw (and_false (is_red (node_color a))) refl
  delete_case5-far right a b e k i v x = rw (and_false (is_red (node_color a))) refl

  delete_case5-near :
      (s : Side) (a b far : RbTree K V) (k i : K) (v x : V)
      → node_color far ≡ black
      → delete_case5 s (join s black k v (join s red i x a b) far)
        ≡ ok (join s black i x a (join s red k v b far))
  unfolding delete_case5 rotate_left rotate_right
  delete_case5-near left a b far k i v x e = rw e refl
  delete_case5-near right a b far k i v x e = rw e refl

  pub is_all_black_lem :
      (s : Side) (near far : RbTree K V) (k : K) (v : V)
      → is_all_black s (join s black k v near far)
        ≡ ok (not (is_red (node_color near)) && not (is_red (node_color far)))
  unfolding is_all_black
  is_all_black_lem left near far k v = refl
  is_all_black_lem right near far k v = refl

  -- a red far nephew
  pub delete_case4-far :
      (bottom : Bool) (s : Side) (c : Color) (n a b e : RbTree K V) (fk k i : K) (fv v x : V)
      (path : List (Frame K V))
      → delete_case4 bottom n (frame s c fk fv (join s black k v a (join s red i x b e))) path
        ≡ ok (root_of path (join s c k v (join s black fk fv n a) (join s black i x b e)))
  unfolding delete_case4
  delete_case4-far bottom s black n a b e fk k i fv v x path =
      rw (delete_case5-far s a b e k i v x)
        (delete_case6-far bottom s black black n a b e fk k i fv v x path)
  delete_case4-far bottom s red n a b e fk k i fv v x path =
      rw
        (
          is_all_black_lem s a (join s red i x b e) k v,
          node_color-join s red i x b e,
          and_false (not (is_red (node_color a))),
          delete_case5-far s a b e k i v x,
        )
        (delete_case6-far bottom s red black n a b e fk k i fv v x path)

  -- a red near nephew beside a black far one
  pub delete_case4-near :
      (bottom : Bool) (s : Side) (c : Color) (n a b far : RbTree K V) (fk k i : K) (fv v x : V)
      (path : List (Frame K V))
      → node_color far ≡ black
      → delete_case4 bottom n (frame s c fk fv (join s black k v (join s red i x a b) far)) path
        ≡ ok (root_of path (join s c i x (join s black fk fv n a) (join s black k v b far)))
  unfolding delete_case4
  delete_case4-near bottom s black n a b far fk k i fv v x path h =
      rw (delete_case5-near s a b far k i v x h)
        (delete_case6-far bottom s black black n a b far fk i k fv x v path)
  delete_case4-near bottom s red n a b far fk k i fv v x path h =
      rw
        (
          is_all_black_lem s (join s red i x a b) far k v,
          node_color-join s red i x a b,
          delete_case5-near s a b far k i v x h,
        )
        (delete_case6-far bottom s red black n a b far fk i k fv x v path)

  pub set_color-join :
      (s : Side) (c d : Color) (k : K) (v : V) (a b : RbTree K V)
      → set_color d (join s c k v a b) ≡ ok (join s d k v a b)
  set_color-join left c d k v a b = refl
  set_color-join right c d k v a b = refl

  -- black nephews below a red parent
  pub delete_case4-plain :
      (bottom : Bool) (s : Side) (n near far : RbTree K V) (fk k : K) (fv v : V)
      (path : List (Frame K V))
      → node_color near ≡ black
      → node_color far ≡ black
      → delete_case4 bottom n (frame s red fk fv (join s black k v near far)) path
        ≡ ok (root_of path (join s black fk fv n (join s red k v near far)))
  unfolding delete_case4
  delete_case4-plain bottom s n near far fk k fv v path hn hf =
      rw (is_all_black_lem s near far k v, hn, hf, set_color-join s black red k v near far) refl

  -- the entries of a parent, its node and the sibling's children, whichever way they are joined
  pub turned-entries :
      (s : Side) (c d e f : Color) (n a b : RbTree K V) (fk k : K) (fv v : V)
      → entries (join s c k v (join s d fk fv n a) b)
        ≡ entries (join s e fk fv n (join s f k v a b))
  turned-entries left c d e f n a b fk k fv v = simp append_assoc
  turned-entries right c d e f n a b fk k fv v = simp append_assoc
