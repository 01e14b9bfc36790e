-- ===== src/Garray/SortedIntArray/Find.antt =====
-- Search and Contains of SortedIntArray, and Unique on an empty array.
use gf.Prelude.{
  ℕ, zero, suc, ◌≡◌, ◌≢◌, refl, ◌∙◌, ap, sym, subst, Ordering, Bool, true, false, List, ◌∷◌, ◌++◌,
  length, ◌⊎◌, inl, inr, arith,
}
use gf.Prelude.Int.{ℤ, pos, negsuc}
use gf.Prelude.Outcome.{ok, panic, Ensures-inv}
use native.Mathlib.Decide.{dec_lt}
use gf.Gtree.Comparator.{IsWeakOrder, sign}
use gf.Garray.SortedIntArray.{
  SortedIntArray, bin_search, search_sorted, contains, unique_loop, unique, set_unique,
}
use gf.Garray.SortedIntArray.Ascending.{AllOf, IsAscending}
use gf.Garray.SortedIntArray.Place.{Place, before, after, here, bin_search_lem}
use gf.Garray.SortedIntArray.Add.{of_eq, empty_lem}

-- the element at index `i` compares as equal to `v`
pub record FoundAt (a : SortedIntArray) (v i : ℤ) : Type 0 where
  pub front : List ℤ
  pub value : ℤ
  pub rear : List ℤ
  pub parts : a.array ≡ front ++ value ∷ rear
  pub place : i ≡ pos (length front)
  pub same : sign (a.comparator v value) ≡ Ordering.eq

abbrev pub Lacks : SortedIntArray → ℤ → Type 0
Lacks a v = AllOf (λ y. sign (a.comparator v y) ≢ Ordering.eq) a.array

abbrev pub Searched : SortedIntArray → ℤ → ℤ → Bool → Type 0
Searched a v i has = (FoundAt a v i × (has ≡ true)) ⊎ (Lacks a v × (i ≡ negsuc 0) × (has ≡ false))

-- what Search and Contains return
abbrev pub Lookups : SortedIntArray → ℤ → Type 0
Lookups a v =
    (i : ℤ) × (has : Bool) × (search_sorted a v ≡ ok i)
    × (contains a v ≡ ok has)
    × Searched a v i has

module _ (a : SortedIntArray) (v : ℤ) where
  empty_search : length a.array ≡ 0 → bin_search a.comparator a.array v ≡ ok (negsuc 0, negsuc 1)
  unfolding bin_search
  empty_search h = rw h refl

  found_results :
      (k : ℕ)
      → bin_search a.comparator a.array v ≡ ok (pos k, pos 0)
      → (search_sorted a v ≡ ok (pos k)) × (contains a v ≡ ok true)
  unfolding search_sorted contains
  found_results k e = rw e (refl, refl)

  missing_results :
      (i c : ℤ)
      → sign c ≢ Ordering.eq
      → bin_search a.comparator a.array v ≡ ok (i, c)
      → (search_sorted a v ≡ ok (negsuc 0)) × (contains a v ≡ ok false)
  unfolding search_sorted contains
  missing_results i (negsuc n) s e = rw e (refl, refl)
  missing_results i (pos zero) s e = absurd (s refl)
  missing_results i (pos (suc n)) s e = rw e (ground arith)

  missing :
      (i c : ℤ)
      → sign c ≢ Ordering.eq
      → bin_search a.comparator a.array v ≡ ok (i, c)
      → Lacks a v
      → Lookups a v
  missing i c s e l =
      let (r, t) = missing_results i c s e in (negsuc 0, false, r, t, inr (l, refl, refl))

  found :
      (i c : ℤ)
      → bin_search a.comparator a.array v ≡ ok (i, c)
      → Place a.comparator a.array v i c
      → Lookups a v
  found i c e p = elim p.verdict [
    | before s l n ↦
        missing i c (λ z. cc) e
          (subst (λ t. AllOf (λ y. sign (a.comparator v y) ≢ Ordering.eq) t) (sym p.parts) n)
    | after k s l m n ↦
        missing i c (λ z. cc) e
          (subst (λ t. AllOf (λ y. sign (a.comparator v y) ≢ Ordering.eq) t) (sym p.parts) n)
    | here x rest s l r q ↦
        let f = e ∙ ap ok (ap (λ d. (i, d)) (of_eq c s) ∙ ap (λ j. (j, pos 0)) l) in
        let (t, u) = found_results (length p.front) f in
        (
          pos (length p.front),
          true,
          t,
          u,
          inl (
            record {
              front = p.front;
              value = x;
              rear = rest;
              parts = p.parts ∙ ap (◌++◌ p.front) r;
              place = refl;
              same = q;
            },
            refl,
          ),
        )
  ]

  none_there : length a.array ≡ 0 → Lookups a v
  none_there h =
      let e = empty_lem a.array h in
      let nothing : bin_search a.comparator a.array v ≡ ok (negsuc 0, negsuc 1) = empty_search h in
      missing (negsuc 0) (negsuc 1) (λ z. cc) nothing
        (subst (λ t. AllOf (λ y. sign (a.comparator v y) ≢ Ordering.eq) t) (sym e) tt)

-- Search and Contains on an array in the order of its comparator return: an index whose element
-- compares as equal to the value, with true, or -1, with false, where there is none.
pub search_sorted_lem :
    (a : SortedIntArray) (v : ℤ)
    → IsWeakOrder a.comparator
    → IsAscending a.comparator a.array
    → Lookups a v
search_sorted_lem a v w h = elim (dec_lt 0 (length a.array)) [
  | no n ↦ none_there a v (omega arith)
  | yes l ↦
      let ((i, c), e, p) =
        Ensures-inv (λ (i, c). Place a.comparator a.array v i c) (bin_search a.comparator a.array v)
          (bin_search_lem a.comparator w v a.array (λ z. omega arith) h) in
      found a v i c e p
]

-- Unique panics on an empty array, and so does SetUnique(true) if the array was not unique.
pub unique_empty :
    (a : SortedIntArray)
    → length a.array ≡ 0
    → (unique a ≡ panic) × (a.is_unique ≡ false → set_unique a true ≡ panic)
unfolding unique unique_loop set_unique
unique_empty a h =
    let e = empty_lem a.array h in (rw e (ground arith), λ u. rw (u, e) (ground arith))
