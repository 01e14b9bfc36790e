-- ===== src/Gtree/RedBlack/Insert.antt =====
-- The insertion of a red-black tree as a whole: the way down, and the repair on the way up.
use gf.Prelude.{ℕ, ◌+◌, ◌≡◌, refl, sym, subst, List, [], ◌∷◌, Bool, true, false, arith}
use gf.Prelude.Outcome.{Outcome, ok, panic, ◌>>=◌, Ensures, Ensures-bind, WhenOk}
use gf.Gtree.Comparator.{Comparator, sign, IsWeakOrder, order_case, is_lt, is_eq, is_gt}
use gf.Gtree.Entries.{lookup_entry, found, IsAscending}
use gf.Gtree.Entries.Walk.{lookup_entry-left, lookup_entry-right, lookup_entry-here}
use gf.Gtree.Entries.Order.{IsAscending-left, IsAscending-right, AllBelow-of_gt, AllBelow-of_eq}
use gf.Gtree.RedBlack.{
  Color, black, red, left, right, RbTree, leaf, node, Frame, node_color, root_of, insert_case1,
  Arrival, replaced, attached, arrive, descend,
}
use gf.Gtree.RedBlack.Inorder.{entries, whole, insert_case1-entries}
use gf.Gtree.RedBlack.Recolour.{insert_case1-IsRedBlack}
use gf.Gtree.RedBlack.Coloured.{
  WhenRed, raise, black_height, IsColoured, IsRedBlack, HasBlackTop, IsPathColoured, Fits,
  root_of-IsRedBlack,
}

abbrev pub count_new : Bool → ℕ
count_new true = 1
count_new false = 0

module _ {ℓ κ} {K : Type ℓ} {V : Type κ} where
  pub top_of_Fits :
      (c : Color) (path : List (Frame K V)) → Fits path c → WhenRed c (HasBlackTop path)
  top_of_Fits black path h = tt
  top_of_Fits red [] h = ground arith
  top_of_Fits red (f ∷ path) h = below_red f.color h
    where
      below_red : (c : Color) → WhenRed c (red ≡ black) → c ≡ black
      below_red black m = refl
      below_red red m = ground arith

  -- What the loop of `doSet` leaves can be repaired.
  abbrev pub IsReady : Arrival K V → Type 0
  IsReady (replaced root) = IsRedBlack root
  IsReady (attached n path) =
      IsColoured n × (node_color n ≡ red) × IsPathColoured path (black_height n)

  pub arrive-IsRedBlack :
      (a : Arrival K V) → IsReady a → Ensures (λ (root, _). IsRedBlack root) (arrive a)
  unfolding arrive
  arrive-IsRedBlack (replaced root) h = h
  arrive-IsRedBlack (attached n path) h =
      Ensures-bind IsRedBlack (λ (root, _). IsRedBlack root) (insert_case1 n path)
        (λ root. ok (root, true)) (insert_case1-IsRedBlack path n h.0 h.1 h.2) (λ root k. k)

  -- whether `doSet` adds a node
  abbrev pub is_attached : Arrival K V → Bool
  is_attached (replaced root) = false
  is_attached (attached n path) = true

  pub arrive_lem :
      (a : Arrival K V)
      → WhenOk
          (λ (root, new). (entries root ≡ entries (whole a)) × (new ≡ is_attached a))
          (arrive a)
  unfolding arrive
  arrive_lem (replaced root) = (refl, refl)
  arrive_lem (attached n path) = go (insert_case1 n path) (insert_case1-entries path n)
    where
      go :
          (r : Outcome (RbTree K V))
          → WhenOk (λ root. entries root ≡ entries (root_of path n)) r
          → WhenOk
              (λ (root, new). (entries root ≡ entries (root_of path n)) × (new ≡ true))
              (r >>= λ root. ok (root, true))
      go (ok root) h = (h, refl)
      go panic h = tt

module _ {ℓ κ} {K : Type ℓ} {V : Type κ} (cmp : Comparator K) where
  pub descend-IsReady :
      (q : K) (w : V) (t : RbTree K V) (path : List (Frame K V))
      → IsColoured t
      → IsPathColoured path (black_height t)
      → Fits path (node_color t)
      → IsReady (descend cmp q w t path)
  unfolding descend
  descend-IsReady q w leaf path h p m = ((tt, tt, refl, refl, refl), refl, p)
  descend-IsReady q w (node c l k v r) path h p m = elim (order_case (sign (cmp q k))) [
    | is_eq e ↦ rw (e, descend) (root_of-IsRedBlack path (node c l k w r) h p m)
    | is_lt e ↦
        rw (e, descend)
          (descend-IsReady q w l
            (record { side = left; color = c; key = k; value = v; sibling = r } ∷ path) h.0
            (h.1, h.2, h.4, top_of_Fits c path m, p) h.3)
    | is_gt e ↦
        rw (e, descend)
          (descend-IsReady q w r
            (record { side = right; color = c; key = k; value = v; sibling = l } ∷ path) h.1
            (
              h.0,
              sym h.2,
              h.3,
              top_of_Fits c path m,
              subst (λ b. IsPathColoured path (raise c b)) (sym h.2) p,
            )
            h.4)
  ]

module _ {ℓ κ} {K : Type ℓ} {V : Type κ} (cmp : Comparator K) (o : IsWeakOrder cmp) where
  -- A node is added exactly if the key is not there.
  pub descend-is_attached :
      (q : K) (w : V) (t : RbTree K V) (path : List (Frame K V))
      → IsAscending cmp (entries t)
      → count_new (is_attached (descend cmp q w t path)) + found (lookup_entry cmp q (entries t))
        ≡ 1
  unfolding descend lookup_entry
  descend-is_attached q w leaf path h = refl
  descend-is_attached q w (node c l k v r) path h = elim (order_case (sign (cmp q k))) [
    | is_eq e ↦
        rw
          (
            e,
            descend,
            lookup_entry-here cmp q k v (entries l) (entries r)
                (AllBelow-of_eq cmp o q k v (entries l) (entries r) h e) e,
          )
          refl
    | is_lt e ↦
        rw (e, descend, lookup_entry-left cmp q k v (entries l) (entries r) e)
          (descend-is_attached q w l
            (record { side = left; color = c; key = k; value = v; sibling = r } ∷ path)
            (IsAscending-left cmp (entries l) ((k, v) ∷ entries r) h))
    | is_gt e ↦
        rw
          (
            e,
            descend,
            lookup_entry-right cmp q k v (entries l) (entries r)
                (AllBelow-of_gt cmp o q k v (entries l) (entries r) h e) e,
          )
          (descend-is_attached q w r
            (record { side = right; color = c; key = k; value = v; sibling = l } ∷ path)
            (IsAscending-right cmp (entries l) ((k, v) ∷ entries r) h).1)
  ]
