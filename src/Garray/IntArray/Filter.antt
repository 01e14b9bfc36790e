-- ===== src/Garray/IntArray/Filter.antt =====
-- FilterEmpty, Search and RemoveValue of IntArray.
use gf.Prelude.{
  ℕ, zero, suc, ◌+◌, ◌≤◌, ◌≡◌, ◌≢◌, refl, ◌∙◌, ap, sym, true, false, if◌then◌else◌, Bool-cases, ◌⊎◌,
  inl, inr, List, [], ◌∷◌, ◌++◌, append_assoc, append-nil, length, length-append, arith,
}
use gf.Prelude.Int.{ℤ, pos, negsuc}
use gf.Prelude.Outcome.{ok}
use gf.Prelude.Slice.{eq_ℤ}
use gf.Prelude.Slice.Laws.{get_elem?-append, take-append, drop-append_suc}
use gf.Garray.IntArray.{IntArray}
use gf.Garray.IntArray.Scan.{filter_loop, filter_empty, search_loop, search_value, remove_value}

pub eq_ℤ→eq : (a b : ℤ) → eq_ℤ a b ≡ true → a ≡ b
eq_ℤ→eq (pos a) (pos b) h = ground arith
eq_ℤ→eq (negsuc a) (negsuc b) h = ground arith
eq_ℤ→eq (pos a) (negsuc b) h = cc
eq_ℤ→eq (negsuc a) (pos b) h = cc

pub eq_ℤ-refl : (a : ℤ) → eq_ℤ a a ≡ true
eq_ℤ-refl (pos a) = ground arith
eq_ℤ-refl (negsuc a) = ground arith

-- the elements that are not 0
abbrev pub nonzero : List ℤ → List ℤ
nonzero [] = []
nonzero (x ∷ xs) = if eq_ℤ x (pos 0) then nonzero xs else x ∷ nonzero xs

-- `pre` is done, `rest` is to come
filter_round :
    (fuel : ℕ) (pre : List ℤ) (x : ℤ) (rest : List ℤ)
    → filter_loop (suc fuel) (length pre) (pre ++ x ∷ rest) ≡ (
        if eq_ℤ x (pos 0)
        then filter_loop fuel (length pre) (pre ++ rest)
        else filter_loop fuel (length pre + 1) (pre ++ x ∷ rest))
unfolding filter_loop
filter_round fuel pre x rest = ground (
  arith,
  get_elem?-append pre x rest,
  take-append pre (x ∷ rest),
  drop-append_suc pre x rest,
  length-append pre (x ∷ rest),
)

filter_loop_lem :
    (fuel : ℕ) (pre rest : List ℤ)
    → length rest ≤ fuel
    → filter_loop fuel (length pre) (pre ++ rest) ≡ ok (pre ++ nonzero rest)
unfolding filter_loop
filter_loop_lem zero pre [] h = refl
filter_loop_lem zero pre (x ∷ rest) h = absurd (omega arith)
filter_loop_lem (suc fuel) pre [] h = ground (arith, ap length (append-nil pre))
filter_loop_lem (suc fuel) pre (x ∷ rest) h = elim (Bool-cases (eq_ℤ x (pos 0))) [
  | inl e ↦
      filter_round fuel pre x rest ∙ rw (e, nonzero) (filter_loop_lem fuel pre rest (omega arith))
  | inr e ↦
      let i : length pre + 1 ≡ length (pre ++ x ∷ []) = omega (arith, length-append pre (x ∷ [])) in
      let ih = filter_loop_lem fuel (pre ++ x ∷ []) rest (omega arith) in
      filter_round fuel pre x rest
      ∙ rw (e, nonzero, i)
          (rw (append_assoc pre (x ∷ []) rest, append_assoc pre (x ∷ []) (nonzero rest)) at ih)
]

-- FilterEmpty returns, and keeps exactly the elements that are not 0, in their order.
pub filter_empty_lem : (a : IntArray) → filter_empty a ≡ ok (record a { array = nonzero a.array })
unfolding filter_empty
filter_empty_lem a = rw (filter_loop_lem (length a.array) [] a.array (omega arith)) refl

-- no element of the list is `value`
abbrev pub Lacks : ℤ → List ℤ → Type 0
Lacks value [] = Unit
Lacks value (x ∷ xs) = (x ≢ value) × Lacks value xs

-- the place of the first element that is `value`
pub record FirstAt (value : ℤ) (xs : List ℤ) (i : ℕ) : Type 0 where
  pub front : List ℤ
  pub rear : List ℤ
  pub parts : xs ≡ front ++ value ∷ rear
  pub place : length front ≡ i
  pub first : Lacks value front

eq_ℤ→ne : (a b : ℤ) → eq_ℤ a b ≡ false → a ≢ b
eq_ℤ→ne a b h e =
    let k : eq_ℤ a b ≡ true = rw (e) (eq_ℤ-refl b) in
    let clash : false ≡ true = sym h ∙ k in absurd (ground (arith, clash))

search_loop-none : (index : ℕ) (value : ℤ) → search_loop index [] value ≡ negsuc 0
unfolding search_loop
search_loop-none index value = refl

search_loop-hit :
    (index : ℕ) (x : ℤ) (xs : List ℤ) (value : ℤ)
    → eq_ℤ x value ≡ true
    → search_loop index (x ∷ xs) value ≡ pos index
unfolding search_loop
search_loop-hit index x xs value e = rw e refl

search_loop-miss :
    (index : ℕ) (x : ℤ) (xs : List ℤ) (value : ℤ)
    → eq_ℤ x value ≡ false
    → search_loop index (x ∷ xs) value ≡ search_loop (index + 1) xs value
unfolding search_loop
search_loop-miss index x xs value e = rw e refl

pub search_loop_lem :
    (index : ℕ) (xs : List ℤ) (value : ℤ)
    → ((i : ℕ) × (search_loop index xs value ≡ pos (index + i)) × FirstAt value xs i)
      ⊎ ((search_loop index xs value ≡ negsuc 0) × Lacks value xs)
search_loop_lem index [] value = inr (search_loop-none index value, tt)
search_loop_lem index (x ∷ xs) value = elim (Bool-cases (eq_ℤ x value)) [
  | inl e ↦ inl (
    0,
    search_loop-hit index x xs value e ∙ ap pos (omega arith),
    record {
      front = [];
      rear = xs;
      parts = ap (λ y. y ∷ xs) (eq_ℤ→eq x value e);
      place = refl;
      first = tt;
    },
  )
  | inr e ↦ elim (search_loop_lem (index + 1) xs value) [
    | inl (i, s, f) ↦ inl (
      suc i,
      search_loop-miss index x xs value e ∙ s ∙ ap pos (omega arith),
      record {
        front = x ∷ f.front;
        rear = f.rear;
        parts = ap (◌∷◌ x) f.parts;
        place = ap suc f.place;
        first = (eq_ℤ→ne x value e, f.first);
      },
    )
    | inr (s, l) ↦ inr (search_loop-miss index x xs value e ∙ s, (eq_ℤ→ne x value e, l))
  ]
]

-- what RemoveValue does where the value is in the array: its first occurrence goes
pub record FirstRemoved (a : IntArray) (value : ℤ) : Type 0 where
  pub index : ℕ
  pub at : FirstAt value a.array index
  pub found : search_value a value ≡ pos index
  pub result : remove_value a value ≡ ok (record a { array = at.front ++ at.rear }, true)
