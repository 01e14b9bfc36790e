-- ===== src/Gtree/Entries/Walk.antt =====
-- A descent in a search tree agrees with the walk along the list of its entries.
use gf.Prelude.{Ordering, ◌≡◌, List, [], ◌∷◌, ◌++◌, some, arith}
use gf.Gtree.Comparator.{Comparator, sign}
use gf.Gtree.Entries.{lookup_entry, insert_entry, erase_entry, AllBelow}

module _ {ℓ κ} {K : Type ℓ} {V : Type κ} (cmp : Comparator K) (q : K) (k : K) (v : V) where
  pub insert_entry-left :
      (w : V) (xs ys : List (K × V))
      → sign (cmp q k) ≡ Ordering.lt
      → insert_entry cmp q w (xs ++ (k, v) ∷ ys) ≡ insert_entry cmp q w xs ++ (k, v) ∷ ys
  unfolding insert_entry
  insert_entry-left w [] ys h = ground arith
  insert_entry-left w ((j, u) ∷ xs) ys h = ground (arith, insert_entry-left w xs ys h)

  pub insert_entry-right :
      (w : V) (xs ys : List (K × V))
      → AllBelow cmp q xs
      → sign (cmp q k) ≡ Ordering.gt
      → insert_entry cmp q w (xs ++ (k, v) ∷ ys) ≡ xs ++ (k, v) ∷ insert_entry cmp q w ys
  unfolding insert_entry
  insert_entry-right w [] ys b h = ground arith
  insert_entry-right w ((j, u) ∷ xs) ys b h = ground (arith, insert_entry-right w xs ys b.1 h)

  pub insert_entry-here :
      (w : V) (xs ys : List (K × V))
      → AllBelow cmp q xs
      → sign (cmp q k) ≡ Ordering.eq
      → insert_entry cmp q w (xs ++ (k, v) ∷ ys) ≡ xs ++ (q, w) ∷ ys
  unfolding insert_entry
  insert_entry-here w [] ys b h = ground arith
  insert_entry-here w ((j, u) ∷ xs) ys b h = ground (arith, insert_entry-here w xs ys b.1 h)

  pub erase_entry-left :
      (xs ys : List (K × V))
      → sign (cmp q k) ≡ Ordering.lt
      → erase_entry cmp q (xs ++ (k, v) ∷ ys) ≡ erase_entry cmp q xs ++ (k, v) ∷ ys
  unfolding erase_entry
  erase_entry-left [] ys h = ground arith
  erase_entry-left ((j, u) ∷ xs) ys h = ground (arith, erase_entry-left xs ys h)

  pub erase_entry-right :
      (xs ys : List (K × V))
      → AllBelow cmp q xs
      → sign (cmp q k) ≡ Ordering.gt
      → erase_entry cmp q (xs ++ (k, v) ∷ ys) ≡ xs ++ (k, v) ∷ erase_entry cmp q ys
  unfolding erase_entry
  erase_entry-right [] ys b h = ground arith
  erase_entry-right ((j, u) ∷ xs) ys b h = ground (arith, erase_entry-right xs ys b.1 h)

  pub erase_entry-here :
      (xs ys : List (K × V))
      → AllBelow cmp q xs
      → sign (cmp q k) ≡ Ordering.eq
      → erase_entry cmp q (xs ++ (k, v) ∷ ys) ≡ xs ++ ys
  unfolding erase_entry
  erase_entry-here [] ys b h = ground arith
  erase_entry-here ((j, u) ∷ xs) ys b h = ground (arith, erase_entry-here xs ys b.1 h)

  pub lookup_entry-left :
      (xs ys : List (K × V))
      → sign (cmp q k) ≡ Ordering.lt
      → lookup_entry cmp q (xs ++ (k, v) ∷ ys) ≡ lookup_entry cmp q xs
  unfolding lookup_entry
  lookup_entry-left [] ys h = ground arith
  lookup_entry-left ((j, u) ∷ xs) ys h = ground (arith, lookup_entry-left xs ys h)

  pub lookup_entry-right :
      (xs ys : List (K × V))
      → AllBelow cmp q xs
      → sign (cmp q k) ≡ Ordering.gt
      → lookup_entry cmp q (xs ++ (k, v) ∷ ys) ≡ lookup_entry cmp q ys
  unfolding lookup_entry
  lookup_entry-right [] ys b h = ground arith
  lookup_entry-right ((j, u) ∷ xs) ys b h = ground (arith, lookup_entry-right xs ys b.1 h)

  pub lookup_entry-here :
      (xs ys : List (K × V))
      → AllBelow cmp q xs
      → sign (cmp q k) ≡ Ordering.eq
      → lookup_entry cmp q (xs ++ (k, v) ∷ ys) ≡ some (k, v)
  unfolding lookup_entry
  lookup_entry-here [] ys b h = ground arith
  lookup_entry-here ((j, u) ∷ xs) ys b h = ground (arith, lookup_entry-here xs ys b.1 h)
