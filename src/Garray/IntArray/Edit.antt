-- ===== src/Garray/IntArray/Edit.antt =====
-- What Insert, Remove and the pops of IntArray do to the elements, on every branch.
use gf.Prelude.{
  ℕ, suc, ◌+◌, ◌≤◌, ◌<◌, ◌≡◌, refl, ◌∙◌, ap, sym, List, [], ◌∷◌, ◌++◌, append_assoc, append-nil,
  length, length-append, take, drop, take-append-drop, length-take, ◌⊎◌, inl, inr, Bool, arith,
}
use gf.Prelude.Int.{ℤ, pos, negsuc, ◌+ℤ◌, ◌-ℤ◌}
use native.Mathlib.Decide.{dec_lt}
use gf.Prelude.Outcome.{ok, panic}
use gf.Prelude.Slice.Laws.{split_at, take-append, drop-append_suc, get_elem?-append}
use gf.Garray.IntArray.{
  IntArray, insert_before, remove_from, remove_at, pop_left, pop_right, push_left, push_right,
}

next : (i : ℕ) → pos i +ℤ pos 1 ≡ pos (suc i)
unfolding ◌+ℤ◌
next i = ground arith

remove_from_split :
    (xs : List ℤ) (x : ℤ) (ys : List ℤ)
    → remove_from (xs ++ x ∷ ys) (pos (length xs)) ≡ ok (x, xs ++ ys)
unfolding remove_from ◌-ℤ◌
remove_from_split [] x ys = ground arith
remove_from_split (y ∷ xs) x [] = ground (
  arith,
  get_elem?-append xs x [],
  take-append xs (x ∷ []),
  length-append xs (x ∷ []),
  append-nil xs,
)
remove_from_split (y ∷ xs) x (z ∷ zs) = ground (
  arith,
  next (suc (length xs)),
  get_elem?-append xs x (z ∷ zs),
  take-append xs (x ∷ z ∷ zs),
  drop-append_suc xs x (z ∷ zs),
  length-append xs (x ∷ z ∷ zs),
)

-- Remove at an index inside the array returns its element and keeps what is before and after.
pub remove_at-split :
    (safe : Bool) (xs : List ℤ) (x : ℤ) (ys : List ℤ)
    → remove_at (record { safe = safe; array = xs ++ x ∷ ys }) (pos (length xs))
      ≡ ok (record { safe = safe; array = xs ++ ys }, x)
unfolding remove_at
remove_at-split safe xs x ys = rw (remove_from_split xs x ys) refl

-- InsertBefore at an index up to the length puts the value there, and Remove at that index takes
-- it out again: it returns the value, and the array is what it was.
pub remove_at-insert_before :
    (a : IntArray) (i : ℕ) (v : ℤ)
    → i ≤ length a.array
    → (b : IntArray) × (insert_before a (pos i) v ≡ ok b)
      × (length b.array ≡ length a.array + 1)
      × (remove_at b (pos i) ≡ ok (a, v))
unfolding insert_before
remove_at-insert_before a i v h =
    let xs = take i a.array in
    let ys = drop i a.array in
    let n : length xs ≡ i = length-take i a.array ∙ omega arith in
    let whole = take-append-drop i a.array in
    (
      record { safe = a.safe; array = xs ++ v ∷ ys },
      ground (arith, append_assoc xs (v ∷ []) ys),
      omega (arith, length-append xs (v ∷ ys), length-append xs ys, ap length whole),
      rw n at (remove_at-split a.safe xs v ys)
          ∙ ap (λ (l : List ℤ). ok (record a { array = l }, v)) whole,
    )

-- `xs`, `x` and `ys` take the array apart at the index, and Remove takes out `x`
pub record TakenOut (a : IntArray) (i : ℤ) : Type 0 where
  pub front : List ℤ
  pub value : ℤ
  pub rear : List ℤ
  pub parts : a.array ≡ front ++ value ∷ rear
  pub place : i ≡ pos (length front)
  pub result : remove_at a i ≡ ok (record a { array = front ++ rear }, value)

remove_at-outside :
    (a : IntArray) (n : ℕ) → length a.array ≤ n → remove_at a (pos n) ≡ ok (a, pos 0)
unfolding remove_at remove_from
remove_at-outside a n h = ground arith

remove_at-negative : (a : IntArray) (n : ℕ) → remove_at a (negsuc n) ≡ ok (a, pos 0)
unfolding remove_at remove_from
remove_at-negative a n = ground arith

remove_at-inside : (a : IntArray) (n : ℕ) → n < length a.array → TakenOut a (pos n)
remove_at-inside a n h =
    let (xs, x, ys, e, k) = split_at n a.array h in
    record {
      front = xs;
      value = x;
      rear = ys;
      parts = e;
      place = ap pos (sym k);
      result = rw (← k) (
          ap (λ (l : List ℤ). remove_at (record a { array = l }) (pos (length xs))) e
          ∙ remove_at-split a.safe xs x ys);
    }

-- Remove takes out the element at an index inside the array and returns it; at any other index it
-- returns 0 and changes nothing.
pub remove_at_lem :
    (a : IntArray) (i : ℤ)
    → TakenOut a i ⊎ (((n : ℕ) → i ≡ pos n → length a.array ≤ n) × (remove_at a i ≡ ok (a, pos 0)))
remove_at_lem a (negsuc n) = inr ((λ m e. cc), remove_at-negative a n)
remove_at_lem a (pos n) = elim (dec_lt n (length a.array)) [
  | yes h ↦ inl (remove_at-inside a n h)
  | no h ↦ inr ((λ m e. ground arith), remove_at-outside a n (omega arith))
]

last_index : (xs : List ℤ) (x : ℤ) → pos (length (xs ++ x ∷ [])) -ℤ pos 1 ≡ pos (length xs)
unfolding ◌-ℤ◌
last_index xs x = ground (arith, length-append xs (x ∷ []))

pop_right-push_right : (a : IntArray) (v : ℤ) → pop_right (push_right a (v ∷ [])) ≡ ok (a, v)
unfolding pop_right push_right
pop_right-push_right a v =
    rw (last_index a.array v, get_elem?-append a.array v [])
      (ground (arith, take-append a.array (v ∷ []), length-append a.array (v ∷ [])))

pop_empty : (a : IntArray) → length a.array ≡ 0 → (pop_left a ≡ panic) × (pop_right a ≡ panic)
unfolding pop_left pop_right ◌-ℤ◌
pop_empty a e = ground arith

-- A value pushed at an end is the value popped there, and the array is what it was; a pop from an
-- empty array panics.
pub pop-push :
    (a : IntArray) (v : ℤ)
    → (pop_left (push_left a (v ∷ [])) ≡ ok (a, v))
      × (pop_right (push_right a (v ∷ [])) ≡ ok (a, v))
      × (length a.array ≡ 0 → (pop_left a ≡ panic) × (pop_right a ≡ panic))
unfolding pop_left push_left
pop-push a v = (ground arith, pop_right-push_right a v, pop_empty a)
