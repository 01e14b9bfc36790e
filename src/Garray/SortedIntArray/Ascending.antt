-- ===== src/Garray/SortedIntArray/Ascending.antt =====
-- Lists in the order of a comparator, the order of the array of a SortedIntArray.
use gf.Prelude.{◌≡◌, ◌≢◌, Ordering, List, [], ◌∷◌, ◌++◌}
use gf.Prelude.Int.{ℤ}
use gf.Gtree.Comparator.{Comparator, IsWeakOrder, is_lt, is_eq, is_gt, order_case, sign}

abbrev pub AllOf : (ℤ → Type 0) → List ℤ → Type 0
AllOf P [] = Unit
AllOf P (x ∷ xs) = P x × AllOf P xs

pub AllOf-append : (P : ℤ → Type 0) (xs ys : List ℤ) → AllOf P xs → AllOf P ys → AllOf P (xs ++ ys)
AllOf-append P [] ys h k = k
AllOf-append P (x ∷ xs) ys (h, hs) k = (h, AllOf-append P xs ys hs k)

pub AllOf-split : (P : ℤ → Type 0) (xs ys : List ℤ) → AllOf P (xs ++ ys) → AllOf P xs × AllOf P ys
AllOf-split P [] ys h = (tt, h)
AllOf-split P (x ∷ xs) ys (h, hs) = let (k, l) = AllOf-split P xs ys hs in ((h, k), l)

pub AllOf-map : (P Q : ℤ → Type 0) (xs : List ℤ) → ((x : ℤ) → P x → Q x) → AllOf P xs → AllOf Q xs
AllOf-map P Q [] f h = tt
AllOf-map P Q (x ∷ xs) f (h, hs) = (f x h, AllOf-map P Q xs f hs)

module _ (cmp : Comparator ℤ) where
  abbrev pub NotAfter : ℤ → ℤ → Type 0
  NotAfter x y = sign (cmp x y) ≢ Ordering.gt

  abbrev pub IsAscending : List ℤ → Type 0
  IsAscending [] = Unit
  IsAscending (x ∷ xs) = AllOf (λ y. NotAfter x y) xs × IsAscending xs

  -- what an ascending list with an element singled out comes to
  pub IsAscending-split :
      (xs : List ℤ) (x : ℤ) (ys : List ℤ)
      → IsAscending (xs ++ x ∷ ys)
      → IsAscending xs
        × IsAscending ys
        × AllOf (λ y. NotAfter y x) xs
        × AllOf (λ y. NotAfter x y) ys
  IsAscending-split [] x ys (h, k) = (tt, k, tt, h)
  IsAscending-split (z ∷ xs) x ys (h, k) =
      let (a, b, c, d) = IsAscending-split xs x ys k in
      let (e, (f, g)) = AllOf-split (λ y. NotAfter z y) xs (x ∷ ys) h in ((e, a), b, (f, c), d)

  -- an element put between what is not after it and what is not before it
  pub IsAscending-between :
      (xs : List ℤ) (v : ℤ) (ys : List ℤ)
      → IsAscending (xs ++ ys)
      → AllOf (λ y. NotAfter y v) xs
      → AllOf (λ y. NotAfter v y) ys
      → IsAscending (xs ++ v ∷ ys)
  IsAscending-between [] v ys h b a = (a, h)
  IsAscending-between (x ∷ xs) v ys (h, k) (b, bs) a =
      let (l, r) = AllOf-split (λ y. NotAfter x y) xs ys h in
      (AllOf-append (λ y. NotAfter x y) xs (v ∷ ys) l (b, r), IsAscending-between xs v ys k bs a)

module _ (cmp : Comparator ℤ) (lawful : IsWeakOrder cmp) where
  pub lt_of_lt-NotAfter :
      (v x y : ℤ) → sign (cmp v x) ≡ Ordering.lt → NotAfter cmp x y → sign (cmp v y) ≡ Ordering.lt
  lt_of_lt-NotAfter v x y h k = elim (order_case (sign (cmp x y))) [
    | is_lt e ↦ lawful.lt_trans v x y h e
    | is_eq e ↦ lawful.lt_of_lt_eq v x y h e
    | is_gt e ↦ absurd (k e)
  ]

  pub lt_of_NotAfter_lt :
      (y x v : ℤ) → NotAfter cmp y x → sign (cmp x v) ≡ Ordering.lt → sign (cmp y v) ≡ Ordering.lt
  lt_of_NotAfter_lt y x v h k = elim (order_case (sign (cmp y x))) [
    | is_lt e ↦ lawful.lt_trans y x v e k
    | is_eq e ↦ lawful.lt_of_eq_lt y x v e k
    | is_gt e ↦ absurd (h e)
  ]

  pub gt_of_gt-NotAfter :
      (v x y : ℤ) → sign (cmp v x) ≡ Ordering.gt → NotAfter cmp y x → sign (cmp v y) ≡ Ordering.gt
  gt_of_gt-NotAfter v x y h k =
      lawful.gt_of_lt y v (lt_of_NotAfter_lt y x v k (lawful.lt_of_gt v x h))

  pub NotAfter-of_lt : (x y : ℤ) → sign (cmp x y) ≡ Ordering.lt → NotAfter cmp x y
  NotAfter-of_lt x y h k = cc

  pub NotAfter-of_gt : (v y : ℤ) → sign (cmp v y) ≡ Ordering.gt → NotAfter cmp y v
  NotAfter-of_gt v y h = NotAfter-of_lt y v (lawful.lt_of_gt v y h)

  -- an element that compares as equal is as good as the value
  pub NotAfter-eq_right :
      (v x y : ℤ) → sign (cmp v x) ≡ Ordering.eq → NotAfter cmp y x → NotAfter cmp y v
  NotAfter-eq_right v x y e h k = let l = lt_of_lt-NotAfter v y x (lawful.lt_of_gt y v k) h in cc

  pub NotAfter-eq_left :
      (v x y : ℤ) → sign (cmp v x) ≡ Ordering.eq → NotAfter cmp x y → NotAfter cmp v y
  NotAfter-eq_left v x y e h k =
      let l = lawful.lt_of_lt_eq y v x (lawful.lt_of_gt v y k) e in
      absurd (h (lawful.gt_of_lt y x l))
