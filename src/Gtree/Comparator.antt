-- ===== src/Gtree/Comparator.antt =====
-- The argument `comparator func(v1, v2 interface{}) int` of the trees of container/gtree. The code
-- tests only the sign of its result.
use gf.Prelude.{arith, ℕ, zero, suc, Ordering, ◌≡◌, refl}
use gf.Prelude.Int.{sub_ℕ, ℤ, pos, negsuc}

abbrev pub Comparator {ℓ} : Type ℓ → Type ℓ
Comparator K = K → K → ℤ

abbrev pub sign : ℤ → Ordering
sign (pos zero) = Ordering.eq
sign (pos (suc n)) = Ordering.gt
sign (negsuc n) = Ordering.lt

-- What a comparator has to satisfy: a weak order. Keys that compare as equal may differ.
pub record IsWeakOrder {ℓ} {K : Type ℓ} (cmp : Comparator K) : Type ℓ where
  pub reflexive : (a : K) → sign (cmp a a) ≡ Ordering.eq
  pub gt_of_lt : (a b : K) → sign (cmp a b) ≡ Ordering.lt → sign (cmp b a) ≡ Ordering.gt
  pub lt_of_gt : (a b : K) → sign (cmp a b) ≡ Ordering.gt → sign (cmp b a) ≡ Ordering.lt
  pub lt_trans :
      (a b c : K)
      → sign (cmp a b) ≡ Ordering.lt
      → sign (cmp b c) ≡ Ordering.lt
      → sign (cmp a c) ≡ Ordering.lt
  pub lt_of_lt_eq :
      (a b c : K)
      → sign (cmp a b) ≡ Ordering.lt
      → sign (cmp b c) ≡ Ordering.eq
      → sign (cmp a c) ≡ Ordering.lt
  pub lt_of_eq_lt :
      (a b c : K)
      → sign (cmp a b) ≡ Ordering.eq
      → sign (cmp b c) ≡ Ordering.lt
      → sign (cmp a c) ≡ Ordering.lt

-- To split on a comparison and keep the equation.
pub data OrderCase (o : Ordering) : Type 0 where
  is_lt : o ≡ Ordering.lt → OrderCase o
  is_eq : o ≡ Ordering.eq → OrderCase o
  is_gt : o ≡ Ordering.gt → OrderCase o

pub order_case : (o : Ordering) → OrderCase o
order_case Ordering.lt = is_lt refl
order_case Ordering.eq = is_eq refl
order_case Ordering.gt = is_gt refl

-- numbers by their difference
abbrev pub by_number : Comparator ℕ
by_number a b = sub_ℕ a b

pub by_number-IsWeakOrder : IsWeakOrder by_number
by_number-IsWeakOrder = record {
  reflexive = λ a. ground arith;
  gt_of_lt = λ a b h. ground arith;
  lt_of_gt = λ a b h. ground arith;
  lt_trans = λ a b c h k. ground arith;
  lt_of_lt_eq = λ a b c h k. ground arith;
  lt_of_eq_lt = λ a b c h k. ground arith;
}
