-- ===== src/Garray/SortedIntArray.antt =====
-- container/garray/garray_sorted_int.go: SortedIntArray, an IntArray that its comparator keeps in
-- order. Remove and RemoveValue have the bodies of those of IntArray.
pub mod Ascending
pub mod Rounds
pub mod Place
pub mod Add
pub mod Find
mod Tests
use gf.Prelude.{
  ℕ, zero, suc, ◌+◌, ◌-◌, ◌/◌, Ordering, Bool, true, false, not, ◌&&◌, ltb, leb, ◌==◌,
  if◌then◌else◌, List, [], ◌∷◌, ◌++◌, length,
}
use gf.Prelude.Int.{ℤ, pos, negsuc, ◌+ℤ◌, ltb_ℤ}
use gf.Prelude.Outcome.{Outcome, ok, panic, ◌>>=◌}
use gf.Prelude.Slice.{eq_ℤ, load, slice_from, slice_to}
use gf.Garray.IntArray.{remove_from}
use gf.Gtree.Comparator.{Comparator, sign}

pub record SortedIntArray : Type 0 where
  pub safe : Bool
  pub array : List ℤ
  pub is_unique : Bool
  pub comparator : Comparator ℤ

-- The loop of `binSearch`: `high` is `max + 1`.
unfoldable pub bin_loop : ℕ → Comparator ℤ → List ℤ → ℤ → ℕ → ℕ → ℕ → ℤ → Outcome (ℤ × ℤ)
bin_loop zero cmp a value low high mid c = ok (pos mid, c)
bin_loop (suc fuel) cmp a value low high mid c =
    let middle = (low + high - 1) / 2 in
    let round = load a (pos middle) >>= λ x. elim (sign (cmp value x)) [
      | Ordering.lt ↦ bin_loop fuel cmp a value low middle middle (cmp value x)
      | Ordering.gt ↦ bin_loop fuel cmp a value (middle + 1) high middle (cmp value x)
      | Ordering.eq ↦ ok (pos middle, cmp value x)
    ] in
    if ltb low high then round else ok (pos mid, c)

unfoldable pub bin_search : Comparator ℤ → List ℤ → ℤ → Outcome (ℤ × ℤ)
unfolding bin_loop
bin_search cmp a value =
    let loop = bin_loop (length a) cmp a value 0 (length a) 0 (negsuc 1) in
    if length a == 0 then ok (negsuc 0, negsuc 1) else loop

-- one round of `Add`
unfoldable pub add_value : SortedIntArray → ℤ → Outcome SortedIntArray
unfolding bin_search
add_value a value = do
  (index, c) ← bin_search a.comparator a.array value
  let place = if ltb_ℤ (pos 0) c then index +ℤ pos 1 else index
  let appended = record a { array = a.array ++ value ∷ [] }
  let inserted = do
    rear ← slice_from a.array place
    front ← slice_to a.array place
    ok (record a { array = (front ++ value ∷ []) ++ rear })
  if a.is_unique && eq_ℤ c (pos 0)
      then ok a
      else if ltb_ℤ index (pos 0)
      then ok appended
      else inserted

unfoldable pub add : SortedIntArray → List ℤ → Outcome SortedIntArray
unfolding add_value
add a [] = ok a
add a (value ∷ values) = add_value a value >>= λ b. add b values

unfoldable pub search_sorted : SortedIntArray → ℤ → Outcome ℤ
unfolding bin_search
search_sorted a value = do
  (i, r) ← bin_search a.comparator a.array value
  ok (if eq_ℤ r (pos 0) then i else negsuc 0)

unfoldable pub contains : SortedIntArray → ℤ → Outcome Bool
unfolding search_sorted
contains a value = do i ← search_sorted a value; ok (not (eq_ℤ i (negsuc 0)))

unfoldable pub remove_at : SortedIntArray → ℤ → Outcome (SortedIntArray × ℤ)
unfolding remove_from
remove_at a index = do (v, xs) ← remove_from a.array index; ok (record a { array = xs }, v)

unfoldable pub remove_value : SortedIntArray → ℤ → Outcome (SortedIntArray × Bool)
unfolding search_sorted remove_at
remove_value a value = do
  i ← search_sorted a value
  let removed = do (a', _) ← remove_at a i; ok (a', true)
  if eq_ℤ i (negsuc 0) then ok (a, false) else removed

-- The loop of `Unique`: it ends only where `i` is the last index.
unfoldable pub unique_loop : ℕ → Comparator ℤ → ℕ → List ℤ → Outcome (List ℤ)
unique_loop zero cmp i a = ok a
unique_loop (suc fuel) cmp i a =
    let round = do
      x ← load a (pos i)
      y ← load a (pos (i + 1))
      let same = eq_ℤ (cmp x y) (pos 0)
      front ← slice_to a (pos (i + 1))
      rear ← slice_from a (pos (i + 2))
      unique_loop fuel cmp (if same then i else i + 1) (if same then front ++ rear else a)
    in if i + 1 == length a then ok a else round

unfoldable pub unique : SortedIntArray → Outcome SortedIntArray
unfolding unique_loop
unique a = do
  xs ← unique_loop (length a.array + 1) a.comparator 0 a.array
  ok (record a { array = xs })

unfoldable pub set_unique : SortedIntArray → Bool → Outcome SortedIntArray
unfolding unique
set_unique a mark =
    let b = record a { is_unique = mark } in if mark && not a.is_unique then unique b else ok b

-- `defaultComparatorInt`
abbrev pub default_comparator_int : Comparator ℤ
default_comparator_int a b = if ltb_ℤ a b then negsuc 0 else if ltb_ℤ b a then pos 1 else pos 0

-- `NewSortedIntArraySize`, and the array that `SetUnique` and `Add` on it start from
unfoldable pub new_sorted_int_array : Bool → SortedIntArray
new_sorted_int_array safe = record {
  safe = safe;
  array = [];
  is_unique = false;
  comparator = default_comparator_int;
}
