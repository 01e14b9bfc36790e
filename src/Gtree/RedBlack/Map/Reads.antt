-- ===== src/Gtree/RedBlack/Map/Reads.antt =====
-- What the methods of RedBlackTree that read it return.
use gf.Prelude.{
  ◌≡◌, ◌≢◌, refl, ap, ◌∙◌, sym, Ordering, Bool, true, false, Bool-cases, Option-cases, inl, inr,
  ◌∷◌, Option, none, some, if◌then◌else◌, arith,
}
use gf.Prelude.Outcome.{Outcome, ok, panic}
use gf.Gtree.Comparator.{Comparator, sign, IsWeakOrder, order_case, is_lt, is_eq, is_gt}
use gf.Gtree.Entries.{value_of, lookup_entry, IsAscending}
use gf.Gtree.Entries.Upsert.{lookup_entry-upsert_entry_self, lookup_entry-upsert_entry_ne}
use gf.Gtree.Entries.Walk.{lookup_entry-left, lookup_entry-right, lookup_entry-here}
use gf.Gtree.Entries.Order.{IsAscending-left, IsAscending-right, AllBelow-of_gt, AllBelow-of_eq}
use gf.Gtree.Avl.{even, Tree}
use gf.Gtree.Avl.Inorder
use gf.Gtree.Avl.Map
use gf.Gtree.Avl.Map.Reads.{override}
use gf.Gtree.Avl.Map.{Supplied, supplied_value}
use gf.Gtree.Avl.Map.Nearest.{
  first_or, last_or, at_most, at_least, first_or-append, last_or-append, floor_loop_lem,
  ceiling_loop_lem,
}
use gf.Gtree.RedBlack.{RbTree, leaf, node, search_node}
use gf.Gtree.RedBlack.Inorder.{entries}
use gf.Gtree.RedBlack.Map.{
  RedBlackTree, do_set, search, do_set_with_lock_check, get_or_set, floor_loop, floor, ceiling_loop,
  ceiling, leftmost, rightmost, end_node, left_node, right_node,
}
use gf.Gtree.RedBlack.Map.Laws.{items, IsValid, HasSet, do_set-HasSet}

module _ {ℓ κ} {K : Type ℓ} {V : Type κ} (cmp : Comparator K) (o : IsWeakOrder cmp) where
  search_node_lem :
      (q : K) (t : RbTree K V)
      → IsAscending cmp (entries t)
      → search_node cmp q t ≡ lookup_entry cmp q (entries t)
  unfolding search_node lookup_entry
  search_node_lem q leaf h = refl
  search_node_lem q (node c l k v r) h = elim (order_case (sign (cmp q k))) [
    | is_eq e ↦
        rw
          (
            e,
            search_node,
            lookup_entry-here cmp q k v (entries l) (entries r)
                (AllBelow-of_eq cmp o q k v (entries l) (entries r) h e) e,
          )
          refl
    | is_lt e ↦
        rw (e, search_node, lookup_entry-left cmp q k v (entries l) (entries r) e)
          (search_node_lem q l (IsAscending-left cmp (entries l) ((k, v) ∷ entries r) h))
    | is_gt e ↦
        rw
          (
            e,
            search_node,
            lookup_entry-right cmp q k v (entries l) (entries r)
                (AllBelow-of_gt cmp o q k v (entries l) (entries r) h e) e,
          )
          (search_node_lem q r (IsAscending-right cmp (entries l) ((k, v) ∷ entries r) h).1)
  ]

module _ {ℓ κ} {K : Type ℓ} {V : Type κ} where
  pub search_lem :
      (t : RedBlackTree K V) (q : K)
      → IsValid t
      → search t q ≡ value_of (lookup_entry t.comparator q (items t))
  unfolding search
  search_lem t q h = ground (arith, search_node_lem t.comparator h.lawful q t.root h.ascending)

  search-HasSet :
      (t : RedBlackTree K V) (q : K) (w : V) (t' : RedBlackTree K V) (p : K)
      → IsValid t
      → HasSet t q w t'
      → search t' p ≡ override t.comparator q (some w) (search t) p
  search-HasSet t q w t' p h s =
      let cmp = t.comparator in
      let o = h.lawful in
      rw (search_lem t' p s.valid, s.same_order, s.contents)
        (elim (order_case (sign (cmp p q))) [
          | is_lt f ↦
              rw (f, override, lookup_entry-upsert_entry_ne cmp o p q w (items t) (ground arith))
                (sym (search_lem t p h))
          | is_eq f ↦ rw (f, override, lookup_entry-upsert_entry_self cmp o p q w (items t) f) refl
          | is_gt f ↦
              rw (f, override, lookup_entry-upsert_entry_ne cmp o p q w (items t) (ground arith))
                (sym (search_lem t p h))
        ])

  -- After Set(q, w) on a valid red-black tree a key equal to q reads w, and all others read what
  -- they read before.
  pub search-do_set :
      (t : RedBlackTree K V) (q : K) (w : V) (p : K)
      → IsValid t
      → (t' : RedBlackTree K V) × (do_set t q w ≡ ok t')
        × (search t' p ≡ override t.comparator q (some w) (search t) p)
  search-do_set t q w p h =
      let (t', e, s) = do_set-HasSet t q w h in (t', e, search-HasSet t q w t' p h s)

  -- the same tree without its colours, as a tree of the other kind
  abbrev uncoloured : RbTree K V → Tree K V
  uncoloured leaf = Tree.leaf
  uncoloured (node c l k v r) = Tree.node even (uncoloured l) k v (uncoloured r)

  uncoloured-entries : (t : RbTree K V) → Inorder.entries (uncoloured t) ≡ entries t
  uncoloured-entries leaf = refl
  uncoloured-entries (node c l k v r) = rw (uncoloured-entries l, uncoloured-entries r) refl

  floor_loop-uncoloured :
      (cmp : Comparator K) (q : K) (t : RbTree K V) (best : Option (K × V))
      → floor_loop cmp q t best ≡ Map.floor_loop cmp q (uncoloured t) best
  unfolding floor_loop Map.floor_loop
  floor_loop-uncoloured cmp q leaf best = refl
  floor_loop-uncoloured cmp q (node c l k v r) best =
      ground
        (arith, floor_loop-uncoloured cmp q l best, floor_loop-uncoloured cmp q r (some (k, v)))

  ceiling_loop-uncoloured :
      (cmp : Comparator K) (q : K) (t : RbTree K V) (best : Option (K × V))
      → ceiling_loop cmp q t best ≡ Map.ceiling_loop cmp q (uncoloured t) best
  unfolding ceiling_loop Map.ceiling_loop
  ceiling_loop-uncoloured cmp q leaf best = refl
  ceiling_loop-uncoloured cmp q (node c l k v r) best =
      ground
        (arith, ceiling_loop-uncoloured cmp q l (some (k, v)), ceiling_loop-uncoloured cmp q r best)

  leftmost_lem : (t : RbTree K V) (p : Option (K × V)) → leftmost t p ≡ first_or (entries t) p
  unfolding leftmost
  leftmost_lem leaf p = refl
  leftmost_lem (node c l k v r) p =
      leftmost_lem l (some (k, v)) ∙ sym (first_or-append (entries l) ((k, v) ∷ entries r) p)

  rightmost_lem : (t : RbTree K V) (p : Option (K × V)) → rightmost t p ≡ last_or (entries t) p
  unfolding rightmost
  rightmost_lem leaf p = refl
  rightmost_lem (node c l k v r) p =
      rightmost_lem r (some (k, v)) ∙ sym (last_or-append (entries l) ((k, v) ∷ entries r) p)

  -- the node that Left or Right returns, for the outermost entry; on an empty tree a safe one panics
  abbrev pub outermost : Bool → Option (K × V) → Outcome (Option (K × V))
  outermost safe (some e) = ok (some e)
  outermost true none = panic
  outermost false none = ok none

  end_node_lem : (t : RedBlackTree K V) (e : Option (K × V)) → end_node t e ≡ outermost t.safe e
  unfolding end_node
  end_node_lem t e = ground arith

  -- On a valid red-black tree Floor returns the last of the entries with a key of at most q, and
  -- Ceiling the first of those with a key of at least q; each returns none where there is none.
  -- Left and Right return the first and the last entry; on an empty tree they return none, but panic
  -- if the tree is safe for concurrent use.
  pub nearest_entries :
      (t : RedBlackTree K V) (q : K)
      → IsValid t
      → (floor t q ≡ last_or (at_most t.comparator q (items t)) none)
        × (ceiling t q ≡ first_or (at_least t.comparator q (items t)) none)
        × (left_node t ≡ outermost t.safe (first_or (items t) none))
        × (right_node t ≡ outermost t.safe (last_or (items t) none))
  unfolding floor ceiling left_node right_node
  nearest_entries t q h =
      let same = uncoloured-entries t.root in
      let up : IsAscending t.comparator (Inorder.entries (uncoloured t.root)) =
        rw same h.ascending in
      (
        floor_loop-uncoloured t.comparator q t.root none
            ∙ rw same at (floor_loop_lem t.comparator h.lawful q (uncoloured t.root) none up),
        ceiling_loop-uncoloured t.comparator q t.root none
            ∙ rw same at (ceiling_loop_lem t.comparator h.lawful q (uncoloured t.root) none up),
        ap (end_node t) (leftmost_lem t.root none) ∙ end_node_lem t (first_or (items t) none),
        ap (end_node t) (rightmost_lem t.root none) ∙ end_node_lem t (last_or (items t) none),
      )

override_ne {ℓ κ} :
    {K : Type ℓ} {V : Type κ} (cmp : Comparator K) (p q : K) (w : Option V) (f : K → Option V)
    → sign (cmp p q) ≢ Ordering.eq
    → override cmp q w f p ≡ f p
override_ne cmp p q w f n = ground arith

-- what GetOrSet returns, and what the key reads afterwards
abbrev pub found_or {κ} : {V : Type κ} → Option V → V → V
found_or none w = w
found_or (some v) w = v

module _ {κ} {V : Type κ} (is_nil : V → Bool) where
  abbrev pub stored : Option V → V → Option V
  stored none w = if is_nil w then none else some w
  stored (some v) w = some v

module _ {ℓ κ} {K : Type ℓ} {V : Type κ} (is_nil : V → Bool) where
  get_or_set-present :
      (t : RedBlackTree K V) (q : K) (s : Supplied V) (v : V)
      → search t q ≡ some v
      → get_or_set is_nil t q s ≡ ok (t, v)
  unfolding get_or_set
  get_or_set-present t q s v e = ground arith

  get_or_set-nil :
      (t : RedBlackTree K V) (q : K) (s : Supplied V)
      → search t q ≡ none
      → is_nil (supplied_value s) ≡ true
      → get_or_set is_nil t q s ≡ ok (t, supplied_value s)
  unfolding get_or_set do_set_with_lock_check
  get_or_set-nil t q s e n = ground arith

  get_or_set-absent :
      (t : RedBlackTree K V) (q : K) (s : Supplied V) (t' : RedBlackTree K V)
      → search t q ≡ none
      → is_nil (supplied_value s) ≡ false
      → do_set t q (supplied_value s) ≡ ok t'
      → get_or_set is_nil t q s ≡ ok (t', supplied_value s)
  unfolding get_or_set do_set_with_lock_check
  get_or_set-absent t q s t' e n set = ground arith

  -- GetOrSet on a valid red-black tree returns the value of the key, or else the one given. It
  -- leaves a valid tree, in which the key has the value returned, unless that is a nil that was not
  -- there, and another key reads as before.
  pub search-get_or_set :
      (t : RedBlackTree K V) (q : K) (s : Supplied V) (p : K)
      → IsValid t
      → sign (t.comparator p q) ≢ Ordering.eq
      → (t' : RedBlackTree K V) × (get_or_set is_nil t q s
          ≡ ok (t', found_or (search t q) (supplied_value s)))
        × IsValid t'
        × (search t' q ≡ stored is_nil (search t q) (supplied_value s))
        × (search t' p ≡ search t p)
  search-get_or_set t q s p h n = elim (Option-cases (search t q)) [
    | inr (v, e) ↦
        (t, rw (e, found_or) (get_or_set-present t q s v e), h, rw (e, stored) refl, refl)
    | inl e ↦ elim (Bool-cases (is_nil (supplied_value s))) [
      | inl b ↦ (t, rw (e, found_or) (get_or_set-nil t q s e b), h, rw (e, stored, b) refl, refl)
      | inr b ↦
          let w = supplied_value s in
          let (t', set, new) = do_set-HasSet t q w h in
          (
            t',
            rw (e, found_or) (get_or_set-absent t q s t' e b set),
            new.valid,
            rw (search-HasSet t q w t' q h new, e, stored, b, h.lawful.reflexive q, override) refl,
            rw (search-HasSet t q w t' p h new)
                (override_ne t.comparator p q (some w) (search t) n),
          )
    ]
  ]
