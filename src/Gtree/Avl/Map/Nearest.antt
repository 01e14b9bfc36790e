-- ===== src/Gtree/Avl/Map/Nearest.antt =====
-- Floor and Ceiling of AVLTree, against the list of entries.
use gf.Prelude.{◌≡◌, refl, Ordering, List, [], ◌∷◌, ◌++◌, append-nil, Option, none, some, arith}
use gf.Gtree.Comparator.{Comparator, sign, IsWeakOrder, order_case, is_lt, is_eq, is_gt}
use gf.Gtree.Entries.{AllBelow, AllAbove, IsAscending}
use gf.Gtree.Entries.Order.{
  IsAscending-left, IsAscending-right, AllBelow-of_gt, AllBelow-of_eq, AllAbove-of_lt,
  AllAbove-of_eq,
}
use gf.Gtree.Avl.{Tree, leaf, node}
use gf.Gtree.Avl.Inorder.{entries}
use gf.Gtree.Avl.Map.{AvlTree, floor_loop, floor, ceiling_loop, ceiling}
use gf.Gtree.Avl.Map.Laws.{items, IsOrdered}

module _ {ℓ} {E : Type ℓ} where
  -- the first and the last of a list, and what to take if it is empty
  abbrev pub first_or : List E → Option E → Option E
  first_or [] e = e
  first_or (x ∷ xs) e = some x

  abbrev pub last_or : List E → Option E → Option E
  last_or [] e = e
  last_or (x ∷ xs) e = last_or xs (some x)

  pub last_or-append :
      (xs ys : List E) (e : Option E) → last_or (xs ++ ys) e ≡ last_or ys (last_or xs e)
  last_or-append [] ys e = refl
  last_or-append (x ∷ xs) ys e = last_or-append xs ys (some x)

  pub first_or-append :
      (xs ys : List E) (e : Option E) → first_or (xs ++ ys) e ≡ first_or xs (first_or ys e)
  first_or-append [] ys e = refl
  first_or-append (x ∷ xs) ys e = refl

module _ {ℓ κ} {K : Type ℓ} {V : Type κ} (cmp : Comparator K) where
  -- the entries whose key is at most `q`, and those whose key is at least `q`
  abbrev pub at_most : K → List (K × V) → List (K × V)
  at_most q [] = []
  at_most q ((k, v) ∷ es) = elim (sign (cmp q k)) [
    | Ordering.lt ↦ at_most q es
    | _ ↦ (k, v) ∷ at_most q es
  ]

  abbrev pub at_least : K → List (K × V) → List (K × V)
  at_least q [] = []
  at_least q ((k, v) ∷ es) = elim (sign (cmp q k)) [
    | Ordering.gt ↦ at_least q es
    | _ ↦ (k, v) ∷ at_least q es
  ]

  at_most-append :
      (q : K) (xs ys : List (K × V)) → at_most q (xs ++ ys) ≡ at_most q xs ++ at_most q ys
  at_most-append q [] ys = refl
  at_most-append q ((k, v) ∷ xs) ys = ground (arith, at_most-append q xs ys)

  at_least-append :
      (q : K) (xs ys : List (K × V)) → at_least q (xs ++ ys) ≡ at_least q xs ++ at_least q ys
  at_least-append q [] ys = refl
  at_least-append q ((k, v) ∷ xs) ys = ground (arith, at_least-append q xs ys)

  at_most-AllAbove : (q : K) (xs : List (K × V)) → AllAbove cmp q xs → at_most q xs ≡ []
  at_most-AllAbove q [] h = refl
  at_most-AllAbove q ((k, v) ∷ xs) h = ground (arith, at_most-AllAbove q xs h.1)

  at_least-AllBelow : (q : K) (xs : List (K × V)) → AllBelow cmp q xs → at_least q xs ≡ []
  at_least-AllBelow q [] h = refl
  at_least-AllBelow q ((k, v) ∷ xs) h = ground (arith, at_least-AllBelow q xs h.1)

module _ {ℓ κ} {K : Type ℓ} {V : Type κ} (cmp : Comparator K) (o : IsWeakOrder cmp) where
  pub floor_loop_lem :
      (q : K) (t : Tree K V) (best : Option (K × V))
      → IsAscending cmp (entries t)
      → floor_loop cmp q t best ≡ last_or (at_most cmp q (entries t)) best
  unfolding floor_loop
  floor_loop_lem q leaf best h = refl
  floor_loop_lem q (node b l k v r) best h =
      let hr = IsAscending-right cmp (entries l) ((k, v) ∷ entries r) h in
      elim (order_case (sign (cmp q k))) [
        | is_lt e ↦
            rw
              (
                e,
                floor_loop,
                at_most-append cmp q (entries l) ((k, v) ∷ entries r),
                e,
                at_most,
                at_most-AllAbove cmp q (entries r) (AllAbove-of_lt cmp o q k (entries r) e hr.0),
                append-nil,
              )
              (floor_loop_lem q l best (IsAscending-left cmp (entries l) ((k, v) ∷ entries r) h))
        | is_eq e ↦
            rw
              (
                e,
                floor_loop,
                at_most-append cmp q (entries l) ((k, v) ∷ entries r),
                e,
                at_most,
                at_most-AllAbove cmp q (entries r) (AllAbove-of_eq cmp o q k (entries r) e hr.0),
                last_or-append,
              )
              refl
        | is_gt e ↦
            rw
              (
                e,
                floor_loop,
                at_most-append cmp q (entries l) ((k, v) ∷ entries r),
                e,
                at_most,
                last_or-append,
              )
              (floor_loop_lem q r (some (k, v)) hr.1)
      ]

  pub ceiling_loop_lem :
      (q : K) (t : Tree K V) (best : Option (K × V))
      → IsAscending cmp (entries t)
      → ceiling_loop cmp q t best ≡ first_or (at_least cmp q (entries t)) best
  unfolding ceiling_loop
  ceiling_loop_lem q leaf best h = refl
  ceiling_loop_lem q (node b l k v r) best h =
      let hl = IsAscending-left cmp (entries l) ((k, v) ∷ entries r) h in
      let hr = IsAscending-right cmp (entries l) ((k, v) ∷ entries r) h in
      elim (order_case (sign (cmp q k))) [
        | is_lt e ↦
            rw
              (
                e,
                ceiling_loop,
                at_least-append cmp q (entries l) ((k, v) ∷ entries r),
                e,
                at_least,
                first_or-append,
              )
              (ceiling_loop_lem q l (some (k, v)) hl)
        | is_eq e ↦
            rw
              (
                e,
                ceiling_loop,
                at_least-append cmp q (entries l) ((k, v) ∷ entries r),
                e,
                at_least,
                at_least-AllBelow cmp q (entries l)
                    (AllBelow-of_eq cmp o q k v (entries l) (entries r) h e),
              )
              refl
        | is_gt e ↦
            rw
              (
                e,
                ceiling_loop,
                at_least-append cmp q (entries l) ((k, v) ∷ entries r),
                e,
                at_least,
                at_least-AllBelow cmp q (entries l)
                    (AllBelow-of_gt cmp o q k v (entries l) (entries r) h e),
              )
              (ceiling_loop_lem q r best hr.1)
      ]

module _ {ℓ κ} {K : Type ℓ} {V : Type κ} where
  -- On an ordered tree Floor returns the last of the entries with a key of at most q, and Ceiling
  -- the first of those with a key of at least q; each returns none where there is no such entry.
  pub floor-ceiling :
      (t : AvlTree K V) (q : K)
      → IsOrdered t
      → (floor t q ≡ last_or (at_most t.comparator q (items t)) none)
        × (ceiling t q ≡ first_or (at_least t.comparator q (items t)) none)
  unfolding floor ceiling
  floor-ceiling t q h = (
    floor_loop_lem t.comparator h.lawful q t.root none h.ascending,
    ceiling_loop_lem t.comparator h.lawful q t.root none h.ascending,
  )
