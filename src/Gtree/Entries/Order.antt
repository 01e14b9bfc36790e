-- ===== src/Gtree/Entries/Order.antt =====
-- Ascending lists of entries: their parts, and what lies below a key.
use gf.Prelude.{Ordering, ◌≡◌, List, [], ◌∷◌, ◌++◌, arith}
use gf.Gtree.Comparator.{Comparator, sign, IsWeakOrder}
use gf.Gtree.Entries.{insert_entry, erase_entry, AllBelow, AllAbove, IsAscending}

module _ {ℓ κ} {K : Type ℓ} {V : Type κ} (cmp : Comparator K) where
  pub AllAbove-left : (q : K) (xs ys : List (K × V)) → AllAbove cmp q (xs ++ ys) → AllAbove cmp q xs
  AllAbove-left q [] ys h = tt
  AllAbove-left q ((j, u) ∷ xs) ys h = (h.0, AllAbove-left q xs ys h.1)

  pub AllAbove-right :
      (q : K) (xs ys : List (K × V)) → AllAbove cmp q (xs ++ ys) → AllAbove cmp q ys
  AllAbove-right q [] ys h = h
  AllAbove-right q ((j, u) ∷ xs) ys h = AllAbove-right q xs ys h.1

  pub IsAscending-left : (xs ys : List (K × V)) → IsAscending cmp (xs ++ ys) → IsAscending cmp xs
  IsAscending-left [] ys h = tt
  IsAscending-left ((j, u) ∷ xs) ys h = (AllAbove-left j xs ys h.0, IsAscending-left xs ys h.1)

  pub IsAscending-right : (xs ys : List (K × V)) → IsAscending cmp (xs ++ ys) → IsAscending cmp ys
  IsAscending-right [] ys h = h
  IsAscending-right ((j, u) ∷ xs) ys h = IsAscending-right xs ys h.1

module _ {ℓ} {K : Type ℓ} (cmp : Comparator K) (o : IsWeakOrder cmp) where
  pub eq_sym : (a b : K) → sign (cmp a b) ≡ Ordering.eq → sign (cmp b a) ≡ Ordering.eq
  eq_sym a b e = ground (arith, o.gt_of_lt b a, o.lt_of_gt b a)

module _ {ℓ κ} {K : Type ℓ} {V : Type κ} (cmp : Comparator K) (o : IsWeakOrder cmp) where
  -- What lies before `k` lies below every key that is not below `k`.
  pub AllBelow-of_gt :
      (q k : K) (v : V) (xs ys : List (K × V))
      → IsAscending cmp (xs ++ (k, v) ∷ ys)
      → sign (cmp q k) ≡ Ordering.gt
      → AllBelow cmp q xs
  AllBelow-of_gt q k v [] ys h e = tt
  AllBelow-of_gt q k v ((j, u) ∷ xs) ys h e =
      let below = (AllAbove-right cmp j xs ((k, v) ∷ ys) h.0).0 in
      (o.gt_of_lt j q (o.lt_trans j k q below (o.lt_of_gt q k e)), AllBelow-of_gt q k v xs ys h.1 e)

  pub AllBelow-of_eq :
      (q k : K) (v : V) (xs ys : List (K × V))
      → IsAscending cmp (xs ++ (k, v) ∷ ys)
      → sign (cmp q k) ≡ Ordering.eq
      → AllBelow cmp q xs
  AllBelow-of_eq q k v [] ys h e = tt
  AllBelow-of_eq q k v ((j, u) ∷ xs) ys h e =
      let below = (AllAbove-right cmp j xs ((k, v) ∷ ys) h.0).0 in
      (
        o.gt_of_lt j q (o.lt_of_lt_eq j k q below (eq_sym cmp o q k e)),
        AllBelow-of_eq q k v xs ys h.1 e,
      )

  pub AllAbove-of_lt :
      (q k : K) (xs : List (K × V))
      → sign (cmp q k) ≡ Ordering.lt
      → AllAbove cmp k xs
      → AllAbove cmp q xs
  AllAbove-of_lt q k [] e h = tt
  AllAbove-of_lt q k ((j, u) ∷ xs) e h = (o.lt_trans q k j e h.0, AllAbove-of_lt q k xs e h.1)

  pub AllAbove-of_eq :
      (q k : K) (xs : List (K × V))
      → sign (cmp q k) ≡ Ordering.eq
      → AllAbove cmp k xs
      → AllAbove cmp q xs
  AllAbove-of_eq q k [] e h = tt
  AllAbove-of_eq q k ((j, u) ∷ xs) e h = (o.lt_of_eq_lt q k j e h.0, AllAbove-of_eq q k xs e h.1)

  AllAbove-insert_entry :
      (j q : K) (w : V) (xs : List (K × V))
      → sign (cmp j q) ≡ Ordering.lt
      → AllAbove cmp j xs
      → AllAbove cmp j (insert_entry cmp q w xs)
  unfolding insert_entry
  AllAbove-insert_entry j q w [] e h = (e, tt)
  AllAbove-insert_entry j q w ((k, v) ∷ xs) e h =
      ground (arith, AllAbove-insert_entry j q w xs e h.1)

  pub insert_entry-IsAscending :
      (q : K) (w : V) (xs : List (K × V))
      → IsAscending cmp xs
      → IsAscending cmp (insert_entry cmp q w xs)
  unfolding insert_entry
  insert_entry-IsAscending q w [] h = (tt, tt)
  insert_entry-IsAscending q w ((k, v) ∷ xs) h = ground (
    arith,
    insert_entry-IsAscending q w xs h.1,
    AllAbove-of_lt q k xs,
    AllAbove-of_eq q k xs,
    AllAbove-insert_entry k q w xs,
    o.lt_of_gt q k,
  )

  AllAbove-erase_entry :
      (j q : K) (xs : List (K × V)) → AllAbove cmp j xs → AllAbove cmp j (erase_entry cmp q xs)
  unfolding erase_entry
  AllAbove-erase_entry j q [] h = tt
  AllAbove-erase_entry j q ((k, v) ∷ xs) h = ground (arith, AllAbove-erase_entry j q xs h.1)

  pub erase_entry-IsAscending :
      (q : K) (xs : List (K × V)) → IsAscending cmp xs → IsAscending cmp (erase_entry cmp q xs)
  unfolding erase_entry
  erase_entry-IsAscending q [] h = tt
  erase_entry-IsAscending q ((k, v) ∷ xs) h =
      ground (arith, erase_entry-IsAscending q xs h.1, AllAbove-erase_entry k q xs h.0)
