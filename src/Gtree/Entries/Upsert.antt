-- ===== src/Gtree/Entries/Upsert.antt =====
-- Setting the value of a key that stays as it is if the list has it, as RedBlackTree does.
use gf.Prelude.{some, ◌≢◌, Ordering, ◌≡◌, refl, ◌+◌, length, List, [], ◌∷◌, ◌++◌, arith}
use gf.Gtree.Comparator.{Comparator, sign, IsWeakOrder}
use gf.Gtree.Entries.{value_of, lookup_entry, found, AllBelow, AllAbove, IsAscending}
use gf.Gtree.Entries.Order.{AllAbove-of_lt, eq_sym}

module _ {ℓ κ} {K : Type ℓ} {V : Type κ} (cmp : Comparator K) where
  unfoldable pub upsert_entry : K → V → List (K × V) → List (K × V)
  upsert_entry q w [] = (q, w) ∷ []
  upsert_entry q w ((k, v) ∷ es) = elim (sign (cmp q k)) [
    | Ordering.lt ↦ (q, w) ∷ (k, v) ∷ es
    | Ordering.eq ↦ (k, w) ∷ es
    | Ordering.gt ↦ (k, v) ∷ upsert_entry q w es
  ]

  pub length-upsert_entry :
      (q : K) (w : V) (es : List (K × V))
      → length (upsert_entry q w es) + found (lookup_entry cmp q es) ≡ length es + 1
  unfolding upsert_entry lookup_entry
  length-upsert_entry q w [] = refl
  length-upsert_entry q w ((k, v) ∷ es) = ground (arith, length-upsert_entry q w es)

  AllAbove-upsert_entry :
      (j q : K) (w : V) (es : List (K × V))
      → sign (cmp j q) ≡ Ordering.lt
      → AllAbove cmp j es
      → AllAbove cmp j (upsert_entry q w es)
  unfolding upsert_entry
  AllAbove-upsert_entry j q w [] e h = (e, tt)
  AllAbove-upsert_entry j q w ((k, v) ∷ es) e h =
      ground (arith, AllAbove-upsert_entry j q w es e h.1)

module _ {ℓ κ} {K : Type ℓ} {V : Type κ} (cmp : Comparator K) (o : IsWeakOrder cmp) where
  pub IsAscending-upsert_entry :
      (q : K) (w : V) (es : List (K × V))
      → IsAscending cmp es
      → IsAscending cmp (upsert_entry cmp q w es)
  unfolding upsert_entry
  IsAscending-upsert_entry q w [] h = (tt, tt)
  IsAscending-upsert_entry q w ((k, v) ∷ es) h = ground (
    arith,
    IsAscending-upsert_entry q w es h.1,
    AllAbove-of_lt cmp o q k es,
    AllAbove-upsert_entry cmp k q w es,
    o.lt_of_gt q k,
  )

  -- The value just set is read under every key that compares as equal.
  pub lookup_entry-upsert_entry_self :
      (p q : K) (w : V) (es : List (K × V))
      → sign (cmp p q) ≡ Ordering.eq
      → value_of (lookup_entry cmp p (upsert_entry cmp q w es)) ≡ some w
  unfolding lookup_entry upsert_entry
  lookup_entry-upsert_entry_self p q w [] e = ground arith
  lookup_entry-upsert_entry_self p q w ((k, v) ∷ es) e = ground (
    arith,
    eq_sym cmp o p q,
    eq_sym cmp o q k,
    o.lt_of_eq_lt p q k,
    o.lt_of_gt q k,
    o.lt_of_lt_eq k q p,
    o.lt_of_gt p k,
    o.lt_of_lt_eq k p q,
    o.lt_of_lt_eq p k q,
    o.lt_of_eq_lt q p k,
    o.gt_of_lt p q,
    o.gt_of_lt k p,
    o.gt_of_lt k q,
    lookup_entry-upsert_entry_self p q w es e,
  )

  -- Other keys read as before.
  pub lookup_entry-upsert_entry_ne :
      (p q : K) (w : V) (es : List (K × V))
      → sign (cmp p q) ≢ Ordering.eq
      → value_of (lookup_entry cmp p (upsert_entry cmp q w es)) ≡ value_of (lookup_entry cmp p es)
  unfolding lookup_entry upsert_entry
  lookup_entry-upsert_entry_ne p q w [] n = ground arith
  lookup_entry-upsert_entry_ne p q w ((k, v) ∷ es) n = ground (
    arith,
    o.lt_trans p q k,
    o.lt_of_lt_eq p q k,
    o.lt_of_gt p q,
    eq_sym cmp o q k,
    eq_sym cmp o p q,
    o.lt_of_eq_lt k q p,
    o.lt_of_lt_eq k q p,
    o.gt_of_lt k p,
    lookup_entry-upsert_entry_ne p q w es n,
  )

module _ {ℓ κ} {K : Type ℓ} {V : Type κ} (cmp : Comparator K) (q : K) (k : K) (v : V) where
  pub upsert_entry-left :
      (w : V) (xs ys : List (K × V))
      → sign (cmp q k) ≡ Ordering.lt
      → upsert_entry cmp q w (xs ++ (k, v) ∷ ys) ≡ upsert_entry cmp q w xs ++ (k, v) ∷ ys
  unfolding upsert_entry
  upsert_entry-left w [] ys h = ground arith
  upsert_entry-left w ((j, u) ∷ xs) ys h = ground (arith, upsert_entry-left w xs ys h)

  pub upsert_entry-right :
      (w : V) (xs ys : List (K × V))
      → AllBelow cmp q xs
      → sign (cmp q k) ≡ Ordering.gt
      → upsert_entry cmp q w (xs ++ (k, v) ∷ ys) ≡ xs ++ (k, v) ∷ upsert_entry cmp q w ys
  unfolding upsert_entry
  upsert_entry-right w [] ys b h = ground arith
  upsert_entry-right w ((j, u) ∷ xs) ys b h = ground (arith, upsert_entry-right w xs ys b.1 h)

  pub upsert_entry-here :
      (w : V) (xs ys : List (K × V))
      → AllBelow cmp q xs
      → sign (cmp q k) ≡ Ordering.eq
      → upsert_entry cmp q w (xs ++ (k, v) ∷ ys) ≡ xs ++ (k, w) ∷ ys
  unfolding upsert_entry
  upsert_entry-here w [] ys b h = ground arith
  upsert_entry-here w ((j, u) ∷ xs) ys b h = ground (arith, upsert_entry-here w xs ys b.1 h)
