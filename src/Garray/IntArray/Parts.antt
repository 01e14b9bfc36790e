-- ===== src/Garray/IntArray/Parts.antt =====
-- What PopLefts, PopRights and Fill of IntArray do to the elements.
use gf.Prelude.{
  ℕ, zero, suc, ◌+◌, ◌-◌, ◌^◌, ◌≤◌, ◌<◌, ◌≡◌, refl, ◌∙◌, ap, sym, false, ltb, lt→ltb, if◌then◌else◌,
  List, [], ◌∷◌, ◌++◌, append_assoc, append-nil, length, length-append, take, drop, set,
  length-drop, take-append-drop, replicate, arith,
}
use gf.Prelude.Int.{ℤ, pos, negsuc, pos_part, ◌+ℤ◌, ◌-ℤ◌}
use gf.Prelude.Outcome.{Outcome, ok, panic}
use gf.Prelude.Word.{wrap, wrap-pos, wrap-negsuc, wrap-over}
use gf.Prelude.Slice.{slice}
use native.Mathlib.Decide.{dec_lt}
use gf.Garray.IntArray.{IntArray}
use gf.Garray.IntArray.Cut.{pop_lefts, pop_rights, fill_loop, fill}

pub take_beyond : (n : ℕ) (a : List ℤ) → length a ≤ n → take n a ≡ a
take_beyond zero [] h = refl
take_beyond zero (x ∷ a) h = absurd (omega arith)
take_beyond (suc n) [] h = refl
take_beyond (suc n) (x ∷ a) h = ap (◌∷◌ x) (take_beyond n a (omega arith))

pub drop_beyond : (n : ℕ) (a : List ℤ) → length a ≤ n → drop n a ≡ []
drop_beyond zero [] h = refl
drop_beyond zero (x ∷ a) h = absurd (omega arith)
drop_beyond (suc n) [] h = refl
drop_beyond (suc n) (x ∷ a) h = drop_beyond n a (omega arith)

pub take-drop_append : (i n : ℕ) (a : List ℤ) → take n (drop i a) ++ drop (i + n) a ≡ drop i a
take-drop_append zero n a = let e : 0 + n ≡ n = omega arith in rw e (take-append-drop n a)
take-drop_append (suc i) n [] =
    rw (take_beyond n [] (omega arith), drop_beyond (suc i + n) [] (omega arith)) refl
take-drop_append (suc i) n (x ∷ a) =
    let e : suc i + n ≡ suc (i + n) = omega arith in rw e (take-drop_append i n a)

-- a slice up to a bound that the length caps
pub slice_capped :
    (lo size : ℕ) (a : List ℤ)
    → lo ≤ length a
    → slice a (pos lo) (pos (if ltb (length a) (lo + size) then length a else lo + size))
      ≡ ok (take size (drop lo a))
slice_capped lo size a h = elim (dec_lt (length a) (lo + size)) [
  | yes l ↦ ground (
    arith,
    length-drop lo a,
    take_beyond (length a - lo) (drop lo a),
    take_beyond size (drop lo a),
  )
  | no n ↦
      let e : lo + size - lo ≡ size = omega arith in
      let capped : ltb (length a) (lo + size) ≡ false = ground arith in
      rw (capped, e) (ground arith)
]

pop_lefts-pos :
    (a : IntArray) (n : ℕ)
    → pop_lefts a (pos n) ≡ ok (record a { array = drop n a.array }, take n a.array)
unfolding pop_lefts
pop_lefts-pos a n = ground (
  arith,
  take_beyond n a.array,
  drop_beyond n a.array,
  take_beyond (length a.array) a.array,
  drop_beyond (length a.array) a.array,
)

pop_rights-pos :
    (a : IntArray) (n : ℕ)
    → length a.array < 2 ^ 63
    → n < 2 ^ 63
    → pop_rights a (pos n)
      ≡ ok (
        record a { array = take (length a.array - n) a.array },
        drop (length a.array - n) a.array,
      )
unfolding pop_rights ◌-ℤ◌
pop_rights-pos a n h l = ground (
  arith,
  wrap-pos (length a.array - n) (omega arith),
  wrap-negsuc (n - length a.array - 1) (omega arith),
)

pop_lefts-negative : (a : IntArray) (n : ℕ) → pop_lefts a (negsuc n) ≡ panic
unfolding pop_lefts
pop_lefts-negative a n = ground arith

-- PopRights of a negative number
abbrev pub rights_below : IntArray → ℕ → Outcome (IntArray × List ℤ)
rights_below a n =
    if ltb (length a.array + suc n) (2 ^ 63) then panic else ok (record a { array = [] }, a.array)

pop_rights-negative :
    (a : IntArray) (n : ℕ)
    → length a.array < 2 ^ 63
    → n < 2 ^ 63
    → pop_rights a (negsuc n) ≡ rights_below a n
unfolding pop_rights ◌-ℤ◌
pop_rights-negative a n h l = elim (dec_lt (length a.array + suc n) (2 ^ 63)) [
  | yes k ↦ ground (arith, wrap-pos (length a.array + suc n) k)
  | no k ↦ ground (arith, wrap-over (length a.array + suc n) (omega arith) (omega arith))
]

-- PopLefts of n elements returns the first n, PopRights of n the last n, or all where there are no
-- more, and they leave the others. At a negative number PopLefts panics, and so does PopRights unless
-- the length minus the number is more than the greatest int: then it returns all elements.
pub pops_lem :
    (a : IntArray) (n : ℕ)
    → length a.array < 2 ^ 63
    → n < 2 ^ 63
    → (pop_lefts a (pos n) ≡ ok (record a { array = drop n a.array }, take n a.array))
      × (pop_rights a (pos n)
          ≡ ok (
            record a { array = take (length a.array - n) a.array },
            drop (length a.array - n) a.array,
          ))
      × (pop_lefts a (negsuc n) ≡ panic)
      × (pop_rights a (negsuc n) ≡ rights_below a n)
pops_lem a n h l =
    (pop_lefts-pos a n, pop_rights-pos a n h l, pop_lefts-negative a n, pop_rights-negative a n h l)

take-set :
    (i : ℕ) (v : ℤ) (a : List ℤ) → i < length a → take (suc i) (set a i v) ≡ take i a ++ v ∷ []
take-set i v [] h = absurd (omega arith)
take-set zero v (x ∷ a) h = refl
take-set (suc i) v (x ∷ a) h = ap (◌∷◌ x) (take-set i v a (omega arith))

drop-set : (i n : ℕ) (v : ℤ) (a : List ℤ) → i < n → drop n (set a i v) ≡ drop n a
drop-set i zero v a h = absurd (omega arith)
drop-set i (suc n) v [] h = refl
drop-set zero (suc n) v (x ∷ a) h = refl
drop-set (suc i) (suc n) v (x ∷ a) h = drop-set i n v a (omega arith)

-- `n` elements from the index on overwritten or appended
abbrev pub filled : ℕ → ℕ → ℤ → List ℤ → List ℤ
filled i n value a = (take i a ++ replicate n value) ++ drop (i + n) a

filled_inside :
    (n i : ℕ) (value : ℤ) (a : List ℤ)
    → i < length a
    → filled (i + 1) n value (set a i value) ≡ filled i (suc n) value a
filled_inside n i value a h =
    let e : i + 1 ≡ suc i = omega arith in
    let e' : suc i + n ≡ i + suc n = omega arith in
    rw (e, take-set i value a h, drop-set i (suc i + n) value a (omega arith), e')
      (simp append_assoc)

filled_outside :
    (n i : ℕ) (value : ℤ) (a : List ℤ)
    → length a ≤ i
    → filled (i + 1) n value (a ++ value ∷ []) ≡ filled i (suc n) value a
filled_outside n i value a h =
    let l : length (a ++ value ∷ []) ≤ i + 1 = omega (arith, length-append a (value ∷ [])) in
    let l' : length (a ++ value ∷ []) ≤ i + 1 + n = omega arith in
    rw
      (
        take_beyond (i + 1) (a ++ value ∷ []) l,
        drop_beyond (i + 1 + n) (a ++ value ∷ []) l',
        take_beyond i a h,
        drop_beyond (i + suc n) a (omega arith),
      )
      (simp append_assoc)

fill_round :
    (n i : ℕ) (value : ℤ) (a : List ℤ)
    → filled (i + 1) n value (if ltb i (length a) then set a i value else a ++ value ∷ [])
      ≡ filled i (suc n) value a
fill_round n i value a = elim (dec_lt i (length a)) [
  | yes h ↦ rw (lt→ltb i (length a) h) (filled_inside n i value a h)
  | no h ↦
      let not_below : ltb i (length a) ≡ false = ground arith in
      rw (not_below) (filled_outside n i value a (omega arith))
]

filled_nothing : (i : ℕ) (value : ℤ) (a : List ℤ) → a ≡ filled i 0 value a
filled_nothing i value a =
    let e : i + 0 ≡ i = omega arith in rw (e, append-nil (take i a)) (sym (take-append-drop i a))

fill_loop_lem : (n i : ℕ) (value : ℤ) (a : List ℤ) → fill_loop n i value a ≡ filled i n value a
unfolding fill_loop
fill_loop_lem zero i value a = filled_nothing i value a
fill_loop_lem (suc n) i value a =
    fill_loop_lem n (i + 1) value (if ltb i (length a) then set a i value else a ++ value ∷ [])
    ∙ fill_round n i value a

fill_by :
    (a : IntArray) (start num value : ℤ) (i n : ℕ)
    → pos_part start ≡ i
    → pos_part (wrap (pos i +ℤ num) -ℤ pos i) ≡ n
    → fill a start num value ≡ record a { array = filled i n value a.array }
unfolding fill
fill_by a start num value i n e e' = rw (e, e', fill_loop_lem n i value a.array) refl

rounds : (i n : ℕ) → i + n < 2 ^ 63 → pos_part (wrap (pos i +ℤ pos n) -ℤ pos i) ≡ n
unfolding ◌+ℤ◌ ◌-ℤ◌
rounds i n h = ground (arith, wrap-pos (i + n) h)

-- Fill of n entries from an index overwrites the elements from there on and appends the rest, right
-- behind the last element where the index is past the end; a negative index is 0.
pub fill_lem :
    (a : IntArray) (i n j : ℕ) (value : ℤ)
    → i + n < 2 ^ 63
    → (fill a (pos i) (pos n) value ≡ record a { array = filled i n value a.array })
      × (fill a (negsuc j) (pos n) value ≡ record a { array = filled 0 n value a.array })
fill_lem a i n j value h = (
  fill_by a (pos i) (pos n) value i n refl (rounds i n h),
  fill_by a (negsuc j) (pos n) value 0 n refl (rounds 0 n (omega arith)),
)
