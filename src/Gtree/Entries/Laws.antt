-- ===== src/Gtree/Entries/Laws.antt =====
-- The map laws of ascending lists of entries, and their lengths.
use gf.Prelude.{Ordering, ◌≡◌, ◌≢◌, refl, ◌+◌, length, List, [], ◌∷◌, none, some, arith}
use gf.Gtree.Comparator.{Comparator, sign, IsWeakOrder, order_case, is_lt, is_eq, is_gt}
use gf.Gtree.Entries.{lookup_entry, found, insert_entry, erase_entry, AllAbove, IsAscending}
use gf.Gtree.Entries.Order.{eq_sym, AllAbove-of_lt, AllAbove-of_eq}

module _ {ℓ κ} {K : Type ℓ} {V : Type κ} (cmp : Comparator K) (o : IsWeakOrder cmp) where
  -- The entry just inserted is found under every key that compares as equal.
  pub lookup_entry-insert_entry_self :
      (p q : K) (w : V) (es : List (K × V))
      → sign (cmp p q) ≡ Ordering.eq
      → lookup_entry cmp p (insert_entry cmp q w es) ≡ some (q, w)
  unfolding lookup_entry insert_entry
  lookup_entry-insert_entry_self p q w [] e = ground arith
  lookup_entry-insert_entry_self p q w ((k, v) ∷ es) e = ground (
    arith,
    eq_sym cmp o p q,
    o.lt_of_gt q k,
    o.lt_of_lt_eq k q p,
    o.gt_of_lt k p,
    lookup_entry-insert_entry_self p q w es e,
  )

  -- Other keys read as before.
  pub lookup_entry-insert_entry_ne :
      (p q : K) (w : V) (es : List (K × V))
      → sign (cmp p q) ≢ Ordering.eq
      → lookup_entry cmp p (insert_entry cmp q w es) ≡ lookup_entry cmp p es
  unfolding lookup_entry insert_entry
  lookup_entry-insert_entry_ne p q w [] n = ground arith
  lookup_entry-insert_entry_ne p q w ((k, v) ∷ es) n = ground (
    arith,
    o.lt_trans p q k,
    o.lt_of_lt_eq p q k,
    o.lt_of_gt p q,
    eq_sym cmp o q k,
    o.lt_of_eq_lt k q p,
    o.gt_of_lt k p,
    lookup_entry-insert_entry_ne p q w es n,
  )

  lookup_entry-AllAbove :
      (p : K) (es : List (K × V)) → AllAbove cmp p es → lookup_entry cmp p es ≡ none
  unfolding lookup_entry
  lookup_entry-AllAbove p [] h = refl
  lookup_entry-AllAbove p ((k, v) ∷ es) h = ground arith

  -- After an erasure no key that compares as equal is found.
  pub lookup_entry-erase_entry_self :
      (p q : K) (es : List (K × V))
      → IsAscending cmp es
      → sign (cmp p q) ≡ Ordering.eq
      → lookup_entry cmp p (erase_entry cmp q es) ≡ none
  unfolding lookup_entry erase_entry
  lookup_entry-erase_entry_self p q [] h e = refl
  lookup_entry-erase_entry_self p q ((k, v) ∷ es) h e = ground (
    arith,
    o.lt_of_eq_lt p q k,
    eq_sym cmp o p q,
    o.lt_of_gt q k,
    o.lt_of_lt_eq k q p,
    o.gt_of_lt k p,
    AllAbove-of_eq cmp o q k es,
    AllAbove-of_eq cmp o p q es,
    lookup_entry-AllAbove p es,
    lookup_entry-erase_entry_self p q es h.1 e,
  )

  -- Other keys read as before.
  pub lookup_entry-erase_entry_ne :
      (p q : K) (es : List (K × V))
      → IsAscending cmp es
      → sign (cmp p q) ≢ Ordering.eq
      → lookup_entry cmp p (erase_entry cmp q es) ≡ lookup_entry cmp p es
  unfolding lookup_entry erase_entry
  lookup_entry-erase_entry_ne p q [] h n = refl
  lookup_entry-erase_entry_ne p q ((k, v) ∷ es) h n =
      let same = lookup_entry-erase_entry_ne p q es h.1 n in
      elim (order_case (sign (cmp q k))) [
        | is_lt e ↦ ground arith
        | is_gt e ↦ ground (arith, same)
        | is_eq e ↦ elim (order_case (sign (cmp p k))) [
          | is_lt f ↦ ground (arith, AllAbove-of_lt cmp o p k es f h.0, lookup_entry-AllAbove p es)
          | is_gt f ↦ ground arith
          | is_eq f ↦
              absurd (n (ground (arith, o.lt_of_lt_eq p q k, o.lt_of_gt p q, o.lt_of_lt_eq q p k)))
        ]
      ]

module _ {ℓ κ} {K : Type ℓ} {V : Type κ} (cmp : Comparator K) where
  pub length-insert_entry :
      (q : K) (w : V) (es : List (K × V))
      → length (insert_entry cmp q w es) + found (lookup_entry cmp q es) ≡ length es + 1
  unfolding lookup_entry insert_entry
  length-insert_entry q w [] = refl
  length-insert_entry q w ((k, v) ∷ es) = ground (arith, length-insert_entry q w es)

  pub length-erase_entry :
      (q : K) (es : List (K × V))
      → length (erase_entry cmp q es) + found (lookup_entry cmp q es) ≡ length es
  unfolding lookup_entry erase_entry
  length-erase_entry q [] = refl
  length-erase_entry q ((k, v) ∷ es) = ground (arith, length-erase_entry q es)

  -- Without the key there is nothing to erase.
  pub erase_entry-absent :
      (q : K) (es : List (K × V)) → lookup_entry cmp q es ≡ none → erase_entry cmp q es ≡ es
  unfolding lookup_entry erase_entry
  erase_entry-absent q [] h = refl
  erase_entry-absent q ((k, v) ∷ es) h = ground (arith, erase_entry-absent q es)
