-- ===== src/Garray/SortedIntArray/Add.antt =====
-- Add of SortedIntArray, and the lookups that rest on its binary search.
use gf.Prelude.{
  ℕ, zero, suc, ◌≡◌, refl, ◌∙◌, ap, sym, subst, Ordering, true, false, Bool-cases, List, [], ◌∷◌,
  ◌++◌, append_assoc, length, length-append, ◌⊎◌, inl, inr, arith,
}
use gf.Prelude.Int.{ℤ, pos, negsuc, ◌+ℤ◌}
use native.Mathlib.Decide.{dec_lt}
use gf.Prelude.Outcome.{ok, Ensures, Ensures-inv, Ensures-bind, Ensures-map}
use gf.Prelude.Slice.{slice_from, slice_to}
use gf.Prelude.Slice.Laws.{take-append, drop-append}
use gf.Gtree.Comparator.{IsWeakOrder, sign}
use gf.Garray.SortedIntArray.{SortedIntArray, bin_search, add_value, add}
use gf.Garray.SortedIntArray.Ascending.{IsAscending, IsAscending-between}
use gf.Garray.SortedIntArray.Place.{Place, before, after, here, bin_search_lem}

cut_rear : (front rear : List ℤ) → slice_from (front ++ rear) (pos (length front)) ≡ ok rear
cut_rear front rear = ground (arith, length-append front rear, drop-append front rear)

cut_front : (front rear : List ℤ) → slice_to (front ++ rear) (pos (length front)) ≡ ok front
cut_front front rear = ground (arith, length-append front rear, take-append front rear)

next_place : (k : ℕ) → pos k +ℤ pos 1 ≡ pos (suc k)
unfolding ◌+ℤ◌
next_place k = ground arith

pub of_lt : (c : ℤ) → sign c ≡ Ordering.lt → (n : ℕ) × (c ≡ negsuc n)
of_lt (negsuc n) e = (n, refl)
of_lt (pos zero) e = cc
of_lt (pos (suc n)) e = cc

pub of_gt : (c : ℤ) → sign c ≡ Ordering.gt → (n : ℕ) × (c ≡ pos (suc n))
of_gt (negsuc n) e = cc
of_gt (pos zero) e = cc
of_gt (pos (suc n)) e = (n, refl)

pub of_eq : (c : ℤ) → sign c ≡ Ordering.eq → c ≡ pos 0
of_eq (negsuc n) e = cc
of_eq (pos zero) e = refl
of_eq (pos (suc n)) e = cc

module _ (a : SortedIntArray) (v : ℤ) where
  abbrev inserted : List ℤ → List ℤ → SortedIntArray
  inserted front rear = record a { array = front ++ v ∷ rear }

  add_empty : length a.array ≡ 0 → a.array ≡ [] → add_value a v ≡ ok (record a { array = v ∷ [] })
  unfolding add_value bin_search
  add_empty e n = rw n (ground arith)

  add_unique :
      (i : ℤ)
      → bin_search a.comparator a.array v ≡ ok (i, pos 0)
      → a.is_unique ≡ true
      → add_value a v ≡ ok a
  unfolding add_value
  add_unique i e u = rw (e, u) (ground arith)

  module _ (front rear : List ℤ) (parts : a.array ≡ front ++ rear) where
    rear_lem : slice_from a.array (pos (length front)) ≡ ok rear
    rear_lem = rw parts (cut_rear front rear)

    front_lem : slice_to a.array (pos (length front)) ≡ ok front
    front_lem = rw parts (cut_front front rear)

    regroup : (front ++ v ∷ []) ++ rear ≡ front ++ v ∷ rear
    regroup = append_assoc front (v ∷ []) rear

    add_before :
        (n : ℕ)
        → bin_search a.comparator a.array v ≡ ok (pos (length front), negsuc n)
        → add_value a v ≡ ok (inserted front rear)
    unfolding add_value
    add_before n e = rw e (ground (arith, rear_lem, front_lem, regroup))

    add_after :
        (n k : ℕ)
        → suc k ≡ length front
        → bin_search a.comparator a.array v ≡ ok (pos k, pos (suc n))
        → add_value a v ≡ ok (inserted front rear)
    unfolding add_value
    add_after n k l e =
        let place = next_place k ∙ ap pos l in
        rw e (ground (arith, place, rear_lem, front_lem, regroup))

    add_here :
        a.is_unique ≡ false
        → bin_search a.comparator a.array v ≡ ok (pos (length front), pos 0)
        → add_value a v ≡ ok (inserted front rear)
    unfolding add_value
    add_here u e = rw (e, u) (ground (arith, rear_lem, front_lem, regroup))

-- `v` has been put between `front` and `rear`
pub record IsInserted (a : SortedIntArray) (v : ℤ) (b : SortedIntArray) : Type 0 where
  pub front : List ℤ
  pub rear : List ℤ
  pub parts : a.array ≡ front ++ rear
  pub whole : b ≡ record a { array = front ++ v ∷ rear }

-- `v` is there: an element compares as equal to it
abbrev pub IsThere : SortedIntArray → ℤ → Type 0
IsThere a v =
    (front : List ℤ) × (x : ℤ) × (rear : List ℤ) × (a.array ≡ front ++ x ∷ rear)
    × (sign (a.comparator v x) ≡ Ordering.eq)

-- what one round of Add comes to
abbrev pub IsAdded : SortedIntArray → ℤ → SortedIntArray → Type 0
IsAdded a v b =
    IsAscending b.comparator b.array
    × (IsInserted a v b ⊎ ((a.is_unique ≡ true) × IsThere a v × (b ≡ a)))

module _ (a : SortedIntArray) (v : ℤ) (ascending : IsAscending a.comparator a.array) where
  inserted_lem :
      (i c : ℤ) (p : Place a.comparator a.array v i c) → IsAdded a v (inserted a v p.front p.rear)
  inserted_lem i c p = (
    IsAscending-between a.comparator p.front v p.rear
        (subst (λ t. IsAscending a.comparator t) p.parts ascending) p.front_below p.rear_above,
    inl (record { front = p.front; rear = p.rear; parts = p.parts; whole = refl }),
  )

  placed_lem :
      (i c : ℤ)
      → bin_search a.comparator a.array v ≡ ok (i, c)
      → (p : Place a.comparator a.array v i c) → Ensures (IsAdded a v) (add_value a v)
  placed_lem i c e p =
      let done = inserted_lem i c p in
      elim p.verdict [
        | before s l _ ↦
            let (n, m) = of_lt c s in
            rw
              (add_before a v p.front p.rear p.parts n
                (e ∙ ap ok (ap (λ j. (j, c)) l ∙ ap (λ d. (pos (length p.front), d)) m)))
              done
        | after k s l m _ ↦
            let (n, o) = of_gt c s in
            rw
              (add_after a v p.front p.rear p.parts n k m
                (e ∙ ap ok (ap (λ j. (j, c)) l ∙ ap (λ d. (pos k, d)) o)))
              done
        | here x rest s l r q ↦
            let f = e ∙ ap ok (ap (λ d. (i, d)) (of_eq c s)) in
            elim (Bool-cases a.is_unique) [
              | inl u ↦
                  rw (add_unique a v i f u) (
                    ascending,
                    inr (u, (p.front, x, rest, (p.parts ∙ ap (◌++◌ p.front) r), q), refl),
                  )
              | inr u ↦
                  rw (add_here a v p.front p.rear p.parts u (f ∙ ap ok (ap (λ j. (j, pos 0)) l)))
                    done
            ]
      ]

pub empty_lem : (xs : List ℤ) → length xs ≡ 0 → xs ≡ []
empty_lem [] e = refl
empty_lem (x ∷ xs) e = absurd (omega arith)

-- One round of Add on an array in the order of its comparator returns. The value is put where the
-- array stays in order; only if the array is unique and has an element that compares as equal does
-- it stay as it is.
pub add_value_lem :
    (a : SortedIntArray) (v : ℤ)
    → IsWeakOrder a.comparator
    → IsAscending a.comparator a.array
    → Ensures (IsAdded a v) (add_value a v)
add_value_lem a v w h = elim (dec_lt 0 (length a.array)) [
  | no n ↦
      let e = empty_lem a.array (omega arith) in
      rw (add_empty a v (omega arith) e)
        ((tt, tt), inl (record { front = []; rear = []; parts = e; whole = refl }))
  | yes l ↦
      let ((i, c), e, p) =
        Ensures-inv (λ (i, c). Place a.comparator a.array v i c) (bin_search a.comparator a.array v)
          (bin_search_lem a.comparator w v a.array (λ z. omega arith) h) in
      placed_lem a v h i c e p
]

-- a run of rounds of Add
pub data AddRun : SortedIntArray → List ℤ → SortedIntArray → Type 0 where
  run_done : (a : SortedIntArray) → AddRun a [] a
  run_next :
      (a b c : SortedIntArray) (v : ℤ) (vs : List ℤ)
      → IsAdded a v b
      → AddRun b vs c
      → AddRun a (v ∷ vs) c

IsAdded-comparator :
    (a : SortedIntArray) (v : ℤ) (b : SortedIntArray) → IsAdded a v b → b.comparator ≡ a.comparator
IsAdded-comparator a v b (_, inl i) = ap (λ (c : SortedIntArray). c.comparator) i.whole
IsAdded-comparator a v b (_, inr (_, _, e)) = ap (λ (c : SortedIntArray). c.comparator) e

-- Add of several values to an array in the order of its comparator returns: the values are added
-- one after the other, and the array is in order at the end.
pub add_lem :
    (a : SortedIntArray) (vs : List ℤ)
    → IsWeakOrder a.comparator
    → IsAscending a.comparator a.array
    → Ensures (λ b. AddRun a vs b × IsAscending b.comparator b.array) (add a vs)
unfolding add
add_lem a [] w h = (run_done a, h)
add_lem a (v ∷ vs) w h =
    Ensures-bind (IsAdded a v) (λ c. AddRun a (v ∷ vs) c × IsAscending c.comparator c.array)
      (add_value a v) (λ b. add b vs) (add_value_lem a v w h)
      (λ b k.
        let w' = subst (λ d. IsWeakOrder d) (sym (IsAdded-comparator a v b k)) w in
        Ensures-map (λ c. AddRun b vs c × IsAscending c.comparator c.array)
          (λ c. AddRun a (v ∷ vs) c × IsAscending c.comparator c.array) (add b vs)
          (add_lem b vs w' k.0) (λ c (r, o). (run_next a b c v vs k r, o)))
