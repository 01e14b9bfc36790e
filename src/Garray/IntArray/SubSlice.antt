-- ===== src/Garray/IntArray/SubSlice.antt =====
-- What SubSlice of IntArray returns.
use gf.Prelude.{
  ℕ, suc, ◌+◌, ◌-◌, ◌^◌, ◌≤◌, ◌∙◌, if◌then◌else◌, ◌<◌, ◌≡◌, refl, true, false, ltb, Option, none,
  some, List, length, take, drop, arith,
}
use gf.Prelude.Int.{ℤ, pos, negsuc, ◌+ℤ◌, ◌-ℤ◌, ltb_ℤ}
use gf.Prelude.Outcome.{Outcome, ok, panic}
use gf.Prelude.Word.{wrap-pos, wrap-over}
use native.Mathlib.Decide.{dec_lt}
use gf.Garray.IntArray.{IntArray}
use gf.Garray.IntArray.Parts.{slice_capped}
use gf.Garray.IntArray.Cut.{sub_slice_end, sub_slice_size, sub_slice}

-- what is returned from an offset inside the array, unless the end is past the greatest int
abbrev pub from_offset : List ℤ → ℕ → ℕ → Outcome (Option (List ℤ))
from_offset a i n = if ltb (i + n) (2 ^ 63) then ok (some (take n (drop i a))) else panic

end_lem :
    (a : List ℤ) (i n : ℕ)
    → length a < 2 ^ 63
    → n < 2 ^ 63
    → i ≤ length a
    → sub_slice_end a (pos i) (pos n) ≡ from_offset a i n
unfolding sub_slice_end ◌+ℤ◌
end_lem a i n k l h = elim (dec_lt (i + n) (2 ^ 63)) [
  | yes m ↦ ground (arith, slice_capped i n a h, wrap-pos (i + n) m)
  | no m ↦ ground (arith, wrap-over (i + n) (omega arith) (omega arith))
]

pub record SubSliceLaws (a : IntArray) (i n : ℕ) : Type 0 where
  pub forward : i ≤ length a.array → sub_slice a (pos i) (some (pos n)) ≡ from_offset a.array i n
  pub backward :
      i ≤ length a.array
      → n < i
      → sub_slice a (pos i) (some (negsuc n)) ≡ ok (some (take (suc n) (drop (i - suc n) a.array)))
  pub before_start : i ≤ length a.array → i ≤ n → sub_slice a (pos i) (some (negsuc n)) ≡ ok none
  pub past_end : (l : Option ℤ) → length a.array < i → sub_slice a (pos i) l ≡ ok none
  pub from_end :
      (l : Option ℤ)
      → i < length a.array
      → sub_slice a (negsuc i) l ≡ sub_slice a (pos (length a.array - suc i)) l
  pub left_of_start : (l : Option ℤ) → length a.array ≤ i → sub_slice a (negsuc i) l ≡ ok none
  pub omitted : (o : ℤ) → sub_slice a o none ≡ sub_slice a o (some (pos (length a.array)))

forward_lem :
    (a : IntArray) (i n : ℕ)
    → length a.array < 2 ^ 63
    → n < 2 ^ 63
    → i ≤ length a.array
    → sub_slice a (pos i) (some (pos n)) ≡ from_offset a.array i n
unfolding sub_slice sub_slice_size
forward_lem a i n k l h =
    let inside : ltb (length a.array) i ≡ false = ground arith in
    let more : ltb_ℤ (pos i) (pos 0) ≡ false = ground arith in
    let size : ltb_ℤ (pos n) (pos 0) ≡ false = ground arith in
    let inside' : ltb_ℤ (pos (length a.array)) (pos i) ≡ false = ground arith in
    rw (inside', more, size) (end_lem a.array i n k l h)

back : (i n : ℕ) → n < i → pos i +ℤ negsuc n ≡ pos (i - suc n)
unfolding ◌+ℤ◌
back i n h = ground arith

negated : (n : ℕ) → pos 0 -ℤ negsuc n ≡ pos (suc n)
unfolding ◌-ℤ◌
negated n = ground arith

backward_lem :
    (a : IntArray) (i n : ℕ)
    → length a.array < 2 ^ 63
    → i ≤ length a.array
    → n < i
    → sub_slice a (pos i) (some (negsuc n)) ≡ ok (some (take (suc n) (drop (i - suc n) a.array)))
unfolding sub_slice sub_slice_size
backward_lem a i n m h k =
    let inside : ltb (length a.array) i ≡ false = ground arith in
    let more : ltb_ℤ (pos i) (pos 0) ≡ false = ground arith in
    let less : ltb_ℤ (negsuc n) (pos 0) ≡ true = ground arith in
    let inside' : ltb_ℤ (pos (i - suc n)) (pos 0) ≡ false = ground arith in
    let inside'' : ltb_ℤ (pos (length a.array)) (pos i) ≡ false = ground arith in
    let ends : ltb (i - suc n + suc n) (2 ^ 63) ≡ true = ground arith in
    let whole : from_offset a.array (i - suc n) (suc n)
        ≡ ok (some (take (suc n) (drop (i - suc n) a.array))) =
      rw ends refl in
    rw (inside'', more, less, back i n k, inside', negated n)
      (end_lem a.array (i - suc n) (suc n) m (omega arith) (omega arith) ∙ whole)

before_start_lem :
    (a : IntArray) (i n : ℕ)
    → i ≤ length a.array
    → i ≤ n
    → sub_slice a (pos i) (some (negsuc n)) ≡ ok none
unfolding sub_slice sub_slice_size ◌+ℤ◌ ◌-ℤ◌
before_start_lem a i n h k = ground arith

past_end_lem :
    (a : IntArray) (i : ℕ) (l : Option ℤ) → length a.array < i → sub_slice a (pos i) l ≡ ok none
unfolding sub_slice
past_end_lem a i l h = ground arith

from_end_lem :
    (a : IntArray) (i : ℕ) (l : Option ℤ)
    → i < length a.array
    → sub_slice a (negsuc i) l ≡ sub_slice a (pos (length a.array - suc i)) l
unfolding sub_slice
from_end_lem a i l h =
    let k = length a.array - suc i in
    let inside : ltb_ℤ (pos (length a.array)) (negsuc i) ≡ false = ground arith in
    let less : ltb_ℤ (negsuc i) (pos 0) ≡ true = ground arith in
    let inside' : ltb_ℤ (pos k) (pos 0) ≡ false = ground arith in
    let inside'' : ltb_ℤ (pos (length a.array)) (pos k) ≡ false = ground arith in
    rw (inside, less, back (length a.array) i h, inside', inside'') refl

left_of_start_lem :
    (a : IntArray) (i : ℕ) (l : Option ℤ) → length a.array ≤ i → sub_slice a (negsuc i) l ≡ ok none
unfolding sub_slice ◌+ℤ◌
left_of_start_lem a i l h = ground arith

omitted_lem :
    (a : IntArray) (o : ℤ) → sub_slice a o none ≡ sub_slice a o (some (pos (length a.array)))
unfolding sub_slice
omitted_lem a o = refl

-- From an offset inside the array SubSlice returns the given number of elements from there on, unless
-- the offset and the number add up to more than the greatest int: then it panics. For a negative
-- number it returns those just before the offset, and nil where that is left of the start. An offset
-- past the end is nil; a negative offset counts from the end and is nil where it is left of the
-- start; an omitted length is that of the array.
pub sub_slice_lem :
    (a : IntArray) (i n : ℕ) → length a.array < 2 ^ 63 → n < 2 ^ 63 → SubSliceLaws a i n
sub_slice_lem a i n k l = record {
  forward = forward_lem a i n k l;
  backward = backward_lem a i n k;
  before_start = before_start_lem a i n;
  past_end = past_end_lem a i;
  from_end = from_end_lem a i;
  left_of_start = left_of_start_lem a i;
  omitted = omitted_lem a;
}
