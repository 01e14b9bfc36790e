-- ===== src/Gtree/Avl/Map/Validity.antt =====
-- Removal and the balance: when AVLTree.Remove keeps the tree valid, and when it does not.
use gf.Prelude.{ℕ, ◌≡◌, false, Ordering, Option, arith}
use gf.Prelude.Outcome.{ok, Ensures, Ensures-inv}
use gf.Gtree.Comparator.{Comparator, sign}
use gf.Gtree.Avl.{Balance, Side, Tree, node, remove}
use gf.Gtree.Avl.Shape.{height, IsBalanced, RemoveResult, RemoveResult-IsBalanced}
use gf.Gtree.Avl.Balanced.{lowers_min, ReportsHeight, remove-IsBalanced}
use gf.Gtree.Avl.Unbalanced.{
  parent_of, toward, child-IsBalanced, MisreportsHeight, remove-misreports, remove-below,
}
use gf.Gtree.Avl.Map.{AvlTree, remove_key, search_key}
use gf.Gtree.Avl.Map.Laws.{IsValid, remove_key_lem}
use gf.Gtree.Avl.Map.Reads.{search_key_lem}

module _ {ℓ κ} {K : Type ℓ} {V : Type κ} where
  remove_key-IsBalanced :
      (t : AvlTree K V) (q : K) (t' : AvlTree K V) (v : Option V)
      → IsBalanced t.root
      → ReportsHeight t.comparator q t.root
      → remove_key t q ≡ ok (t', v)
      → IsBalanced t'.root
  unfolding remove_key
  remove_key-IsBalanced t q t' v h c e =
      let ((root, out, fix), e₁, p) =
        Ensures-inv (λ (s, _, f). RemoveResult (height t.root) s f)
          (remove t.comparator q t.size t.root)
          (remove-IsBalanced t.comparator q t.size t.root h c) in
      let same : t'.root ≡ root = ground arith in
      rw same (RemoveResult-IsBalanced (height t.root) root fix p)

  -- Remove keeps a valid tree valid if the node of the key, where there is one, has no right child
  -- or its right subtree gets lower without its least entry.
  pub remove_key-IsValid :
      (t : AvlTree K V) (q : K)
      → IsValid t
      → ReportsHeight t.comparator q t.root
      → (t' : AvlTree K V) × (remove_key t q ≡ ok (t', search_key t q)) × IsValid t'
  remove_key-IsValid t q h c =
      let (t', e, s) = remove_key_lem t q h in
      (
        t',
        rw (search_key_lem t q h.ordered) e,
        record { balanced = remove_key-IsBalanced t q t' _ h.balanced c e; ordered = s.ordered },
      )

module _ {ℓ κ} {K : Type ℓ} {V : Type κ} (cmp : Comparator K) where
  -- In the other case, where the right subtree of the node found does not get lower without its
  -- least entry, `remove` at that node returns a balanced tree of the same height and reports that
  -- it is lower. Called at its parent, on whichever side of it the node is and whatever the factor
  -- of the parent, it returns a tree that is not balanced.
  pub remove_unbalances :
      (q : K) (size : ℕ) (b : Balance) (l : Tree K V) (k : K) (v : V) (r : Tree K V) (side : Side)
      (pb : Balance) (pk : K) (pv : V) (sibling : Tree K V)
      → IsBalanced (parent_of side pb (node b l k v r) pk pv sibling)
      → sign (cmp q pk) ≡ toward side
      → sign (cmp q k) ≡ Ordering.eq
      → lowers_min r ≡ false
      → Ensures (MisreportsHeight (node b l k v r)) (remove cmp q size (node b l k v r))
        × Ensures
            (λ (t, _, _). ¬ IsBalanced t)
            (remove cmp q size (parent_of side pb (node b l k v r) pk pv sibling))
  remove_unbalances q size b l k v r side pb pk pv sibling h e f c =
      let found : IsBalanced (node b l k v r) =
        child-IsBalanced side pb (node b l k v r) pk pv sibling h in
      let m = remove-misreports cmp q size b l k v r found f c in
      (m, remove-below cmp q size (node b l k v r) side pb pk pv sibling h e m)
