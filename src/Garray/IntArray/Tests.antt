-- ===== src/Garray/IntArray/Tests.antt =====
-- Runs of IntArray, and its theorems at concrete arrays.
use gf.Prelude.{
  ℕ, ◌+◌, ◌/◌, ◌≤◌, ◌≡◌, if◌then◌else◌, refl, Bool, true, false, not, ◌⊎◌, List, [], ◌∷◌, ◌++◌,
  length, take, drop, some, ◌-◌, ◌^◌, arith,
}
use gf.Prelude.Int.{ℤ, pos, negsuc, ◌+ℤ◌, ◌-ℤ◌}
use gf.Prelude.Outcome.{ok, panic, Ensures}
use gf.Prelude.Word.{wrap, quotient}
use gf.Prelude.Slice.{eq_ℤ}
use gf.Garray.IntArray.Iterate.{call_each, enumerate, iterators_lem}
use gf.Garray.IntArray.{
  IntArray, make, range_loop, range_size, new_int_array_range, insert_before, remove_at, pop_left,
  pop_right, push_left, push_right, clone,
}
use gf.Garray.IntArray.Edit.{TakenOut, remove_at-insert_before, remove_at_lem, pop-push}
use gf.Garray.IntArray.Scan.{
  reverse_array, filter_empty, unique, unique_outer, iterate_asc, iterate_desc, unique_inner,
  sum_loop, sum,
}
use gf.Garray.IntArray.Reverse.{reverse_array_lem}
use gf.Garray.IntArray.Filter.{nonzero, filter_empty_lem}
use gf.Garray.IntArray.Unique.{SameMembers, unique-SameMembers}
use gf.Garray.IntArray.Rounds.{progression}
use gf.Garray.IntArray.Progression.{fits, new_int_array_range_lem}
use gf.Garray.IntArray.Cut.{
  pop_lefts, pop_rights, fill, chunk, range, pad, sub_slice, sub_slice_size, sub_slice_end,
}
use gf.Garray.IntArray.Parts.{rights_below, pops_lem, filled, fill_lem}
use gf.Garray.IntArray.Chunks.{ChunksOf, chunk_lem}
use gf.Garray.IntArray.SubSlice.{SubSliceLaws, sub_slice_lem}
use mathlib.Core.List.{reverse}

abbrev until_zero : List ℤ → ℕ → ℤ → List ℤ × Bool
until_zero seen k v = (v ∷ seen, not (eq_ℤ v (pos 0)))

abbrev items : List ℤ
items = pos 3 ∷ pos 0 ∷ negsuc 4 ∷ pos 3 ∷ pos 8 ∷ []

abbrev sample : IntArray
sample = record { safe = true; array = items }

sum_wraps :
    sum (record { safe = false; array = pos 9223372036854775807 ∷ pos 1 ∷ [] })
    ≡ negsuc 9223372036854775807
unfolding sum sum_loop ◌+ℤ◌ wrap
sum_wraps = refl

-- Range with a negative end panics where the start is not past it.
range_panics : range sample (negsuc 1) (some (negsuc 0)) ≡ panic
unfolding range
range_panics = refl

pad_both :
    (pad sample (pos 6) (pos 1) ≡ record { safe = true; array = items ++ pos 1 ∷ [] })
    × (pad sample (negsuc 5) (pos 1) ≡ record { safe = true; array = pos 1 ∷ items })
unfolding pad
pad_both = (refl, refl)

-- Clone of a safe array is not safe.
clone_flips : clone sample ≡ record { safe = false; array = items }
unfolding clone
clone_flips = refl

remove_at-insert_before_example :
    (b : IntArray) × (insert_before sample (pos 2) (pos 7) ≡ ok b)
    × (length b.array ≡ length sample.array + 1)
    × (remove_at b (pos 2) ≡ ok (sample, pos 7))
remove_at-insert_before_example = remove_at-insert_before sample 2 (pos 7) (omega arith)

fifth_removed :
    TakenOut sample (pos 4)
    ⊎ (((n : ℕ) → pos 4 ≡ pos n → length sample.array ≤ n)
        × (remove_at sample (pos 4) ≡ ok (sample, pos 0)))
fifth_removed = remove_at_lem sample (pos 4)

pop-push_example :
    (pop_left (push_left sample (pos 7 ∷ [])) ≡ ok (sample, pos 7))
    × (pop_right (push_right sample (pos 7 ∷ [])) ≡ ok (sample, pos 7))
    × (length sample.array ≡ 0 → (pop_left sample ≡ panic) × (pop_right sample ≡ panic))
pop-push_example = pop-push sample (pos 7)

reverse_array_lem_example :
    reverse_array sample ≡ ok (record { safe = true; array = reverse items })
reverse_array_lem_example = reverse_array_lem sample

filter_empty_lem_example : filter_empty sample ≡ ok (record { safe = true; array = nonzero items })
filter_empty_lem_example = filter_empty_lem sample

unique-SameMembers_example :
    Ensures (λ b. (b.safe ≡ true) × SameMembers items b.array) (unique sample)
unique-SameMembers_example = unique-SameMembers sample

three_equal :
    unique (record { safe = true; array = pos 5 ∷ pos 5 ∷ pos 5 ∷ [] })
    ≡ ok (record { safe = true; array = pos 5 ∷ pos 5 ∷ [] })
unfolding unique unique_outer unique_inner
three_equal = refl

new_int_array_range_lem_example :
    new_int_array_range 1000 (negsuc 2) (negsuc 2 +ℤ pos 11) (pos 3) true ≡ (
      if fits 1000 (negsuc 2) 11 2
      then ok (record { safe = true; array = progression (negsuc 2) 3 ((11 + 1) / 3) })
      else panic)
unfolding ◌+ℤ◌
new_int_array_range_lem_example =
    new_int_array_range_lem 1000 (negsuc 2) 11 2 true (omega arith) (omega arith)

ranges :
    (new_int_array_range 1000 (negsuc 2) (pos 8) (pos 3) true
      ≡ ok (record { safe = true; array = negsuc 2 ∷ pos 0 ∷ pos 3 ∷ pos 6 ∷ [] }))
    × (new_int_array_range 1000 (pos 0) (pos 10) (pos 3) true ≡ panic)
    × (new_int_array_range 1000 (pos (2 ^ 63 - 2)) (pos (2 ^ 63 - 1)) (pos 1) true ≡ panic)
    × (new_int_array_range 1000 (pos 3) (pos 0) (pos 1) true ≡ panic)
    × (new_int_array_range 1000 (pos 3) (pos 1) (negsuc 0) true
        ≡ ok (record { safe = true; array = pos 0 ∷ [] }))
unfolding new_int_array_range range_loop range_size make quotient wrap ◌+ℤ◌ ◌-ℤ◌
ranges = (refl, refl, refl, refl, refl)

pops_lem_example :
    (pop_lefts sample (pos 2) ≡ ok (record { safe = true; array = drop 2 items }, take 2 items))
    × (pop_rights sample (pos 2)
        ≡ ok (
          record { safe = true; array = take (length items - 2) items },
          drop (length items - 2) items,
        ))
    × (pop_lefts sample (negsuc 2) ≡ panic)
    × (pop_rights sample (negsuc 2) ≡ rights_below sample 2)
pops_lem_example = pops_lem sample 2 (omega arith) (omega arith)

-- The length minus the least int wraps.
all_popped :
    pop_rights sample (negsuc (2 ^ 63 - 1)) ≡ ok (record { safe = true; array = [] }, items)
unfolding pop_rights ◌-ℤ◌ wrap
all_popped = refl

-- so does the offset plus the greatest int
end_wraps : sub_slice sample (pos 1) (some (pos (2 ^ 63 - 1))) ≡ panic
unfolding sub_slice sub_slice_size sub_slice_end ◌+ℤ◌ wrap
end_wraps = refl

filled_from_three :
    (fill sample (pos 3) (pos 4) (pos 9) ≡ record { safe = true; array = filled 3 4 (pos 9) items })
    × (fill sample (negsuc 3) (pos 4) (pos 9)
        ≡ record { safe = true; array = filled 0 4 (pos 9) items })
filled_from_three = fill_lem sample 3 4 3 (pos 9) (omega arith)

chunk_lem_example :
    Ensures (ChunksOf 2 items) (chunk sample (pos 2))
    × (chunk sample (pos 0) ≡ ok [])
    × (chunk sample (negsuc 1) ≡ ok [])
chunk_lem_example = chunk_lem sample 1

sub_slice_lem_example : SubSliceLaws sample 3 1
sub_slice_lem_example = sub_slice_lem sample 3 1 (omega arith) (omega arith)

both_directions :
    (iterate_asc until_zero 0 items [] ≡ call_each until_zero (enumerate 0 items) [])
    × (iterate_desc until_zero (length items) items []
        ≡ ok (call_each until_zero (reverse (enumerate 0 items)) []))
both_directions = iterators_lem until_zero items []
