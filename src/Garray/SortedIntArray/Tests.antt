-- ===== src/Garray/SortedIntArray/Tests.antt =====
-- Runs of SortedIntArray, and its theorems at concrete arrays.
use gf.Prelude.{◌≡◌, refl, true, false, [], ◌∷◌, arith}
use gf.Prelude.Int.{pos, negsuc, ◌+ℤ◌}
use gf.Prelude.Outcome.{ok, panic, Ensures}
use gf.Gtree.Comparator.{IsWeakOrder}
use gf.Garray.SortedIntArray.{
  SortedIntArray, default_comparator_int, new_sorted_int_array, add, add_value, bin_search,
  bin_loop, unique, set_unique,
}
use gf.Garray.SortedIntArray.Ascending.{IsAscending}
use gf.Garray.SortedIntArray.Add.{IsAdded, AddRun, add_value_lem, add_lem}
use gf.Garray.SortedIntArray.Find.{Lookups, search_sorted_lem, unique_empty}

-- the default comparator is a weak order
default-IsWeakOrder : IsWeakOrder default_comparator_int
default-IsWeakOrder = record {
  reflexive = λ a. ground arith;
  gt_of_lt = λ a b h. ground arith;
  lt_of_gt = λ a b h. ground arith;
  lt_trans = λ a b c h k. ground arith;
  lt_of_lt_eq = λ a b c h k. ground arith;
  lt_of_eq_lt = λ a b c h k. ground arith;
}

abbrev sample : SortedIntArray
sample = record {
  safe = true;
  array = negsuc 2 ∷ pos 1 ∷ pos 1 ∷ pos 4 ∷ pos 9 ∷ [];
  is_unique = false;
  comparator = default_comparator_int;
}

sample-IsAscending : IsAscending sample.comparator sample.array
sample-IsAscending = ground arith

-- Add puts the values in order.
adds_in_order :
    add (new_sorted_int_array true) (pos 5 ∷ pos 2 ∷ negsuc 0 ∷ pos 5 ∷ pos 3 ∷ [])
    ≡ ok (record {
      safe = true;
      array = negsuc 0 ∷ pos 2 ∷ pos 3 ∷ pos 5 ∷ pos 5 ∷ [];
      is_unique = false;
      comparator = default_comparator_int;
    })
unfolding add add_value bin_search bin_loop new_sorted_int_array ◌+ℤ◌
adds_in_order = refl

four_put : Ensures (IsAdded sample (pos 4)) (add_value sample (pos 4))
four_put = add_value_lem sample (pos 4) default-IsWeakOrder sample-IsAscending

add_lem_example :
    Ensures
      (λ b. AddRun sample (pos 4 ∷ negsuc 7 ∷ []) b × IsAscending b.comparator b.array)
      (add sample (pos 4 ∷ negsuc 7 ∷ []))
add_lem_example = add_lem sample (pos 4 ∷ negsuc 7 ∷ []) default-IsWeakOrder sample-IsAscending

search_sorted_lem_example : Lookups sample (pos 4)
search_sorted_lem_example = search_sorted_lem sample (pos 4) default-IsWeakOrder sample-IsAscending

unique_empty_example :
    (unique (new_sorted_int_array true) ≡ panic)
    × ((new_sorted_int_array true).is_unique ≡ false
        → set_unique (new_sorted_int_array true) true ≡ panic)
unfolding new_sorted_int_array
unique_empty_example = unique_empty (new_sorted_int_array true) refl
