-- ===== src/Gtree/Avl/Map/Reads.antt =====
-- What the methods of AVLTree that read it return after those that change it.
use gf.Prelude.{◌≡◌, refl, sym, Ordering, Option, none, some, arith}
use gf.Prelude.Outcome.{ok}
use gf.Gtree.Comparator.{Comparator, sign, order_case, is_lt, is_eq, is_gt}
use gf.Gtree.Entries.{value_of, lookup_entry}
use gf.Gtree.Entries.Laws.{
  lookup_entry-insert_entry_self, lookup_entry-insert_entry_ne, lookup_entry-erase_entry_self,
  lookup_entry-erase_entry_ne,
}
use gf.Gtree.Avl.Ordered.{search_node_lem}
use gf.Gtree.Avl.Map.{AvlTree, search_key, set_key, remove_key}
use gf.Gtree.Avl.Map.Laws.{items, IsOrdered, IsValid, HasSet, set_key_lem, remove_key_lem}

module _ {ℓ κ} {K : Type ℓ} {V : Type κ} where
  pub search_key_lem :
      (t : AvlTree K V) (q : K)
      → IsOrdered t
      → search_key t q ≡ value_of (lookup_entry t.comparator q (items t))
  unfolding search_key
  search_key_lem t q h = ground (arith, search_node_lem t.comparator h.lawful q t.root h.ascending)

  -- the reading `f` of a map, with the keys equal to `q` reading `w`
  abbrev pub override : Comparator K → K → Option V → (K → Option V) → K → Option V
  override cmp q w f p = elim (sign (cmp p q)) [ Ordering.eq ↦ w | _ ↦ f p ]

  pub search_key-HasSet :
      (t : AvlTree K V) (q : K) (w : V) (t' : AvlTree K V) (p : K)
      → IsOrdered t
      → HasSet t q w t'
      → search_key t' p ≡ override t.comparator q (some w) (search_key t) p
  search_key-HasSet t q w t' p h s =
      let o = h.lawful in
      rw (search_key_lem t' p s.valid.ordered, s.same_order, s.contents)
        (elim (order_case (sign (t.comparator p q))) [
          | is_lt f ↦
              rw
                (
                  f,
                  override,
                  lookup_entry-insert_entry_ne t.comparator o p q w (items t) (ground arith),
                )
                (sym (search_key_lem t p h))
          | is_eq f ↦
              rw (f, override, lookup_entry-insert_entry_self t.comparator o p q w (items t) f) refl
          | is_gt f ↦
              rw
                (
                  f,
                  override,
                  lookup_entry-insert_entry_ne t.comparator o p q w (items t) (ground arith),
                )
                (sym (search_key_lem t p h))
        ])

  -- After Set(q, w) a key equal to q reads w, and all others read what they read before.
  pub search_key-set_key :
      (t : AvlTree K V) (q : K) (w : V) (p : K)
      → IsValid t
      → (t' : AvlTree K V) × (set_key t q w ≡ ok t')
        × (search_key t' p ≡ override t.comparator q (some w) (search_key t) p)
  search_key-set_key t q w p h =
      let (t', e, s) = set_key_lem t q w h in (t', e, search_key-HasSet t q w t' p h.ordered s)

  -- After Remove(q), which returns what q read, a key equal to q reads nothing, and all others
  -- read what they read before.
  pub search_key-remove_key :
      (t : AvlTree K V) (q : K) (p : K)
      → IsValid t
      → (t' : AvlTree K V) × (remove_key t q ≡ ok (t', search_key t q))
        × (search_key t' p ≡ override t.comparator q none (search_key t) p)
  search_key-remove_key t q p h =
      let (t', e, s) = remove_key_lem t q h in
      let o = h.ordered.lawful in
      (
        t',
        rw (search_key_lem t q h.ordered) e,
        rw (search_key_lem t' p s.ordered, s.same_order, s.contents)
            (elim (order_case (sign (t.comparator p q))) [
              | is_lt f ↦
                  rw
                    (
                      f,
                      override,
                      lookup_entry-erase_entry_ne t.comparator o p q (items t) h.ordered.ascending
                          (ground arith),
                    )
                    (sym (search_key_lem t p h.ordered))
              | is_eq f ↦
                  rw
                    (
                      f,
                      override,
                      lookup_entry-erase_entry_self t.comparator o p q (items t) h.ordered.ascending
                          f,
                    )
                    refl
              | is_gt f ↦
                  rw
                    (
                      f,
                      override,
                      lookup_entry-erase_entry_ne t.comparator o p q (items t) h.ordered.ascending
                          (ground arith),
                    )
                    (sym (search_key_lem t p h.ordered))
            ]),
      )
