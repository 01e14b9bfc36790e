-- ===== src/Gset/IntSet/Tests.antt =====
-- Runs of IntSet, and its theorems at concrete sets.
use gf.Prelude.{◌+◌, ◌≡◌, refl, true, false, not, ◌||◌, ◌&&◌, List, [], ◌∷◌, ◌++◌, length, ◌↔◌}
use gf.Prelude.Int.{ℤ, pos, negsuc}
use gf.Prelude.Slice.{eq_ℤ}
use gf.Gset.IntSet.{
  IntSet, Other, itself, another, keys_of, has, new_int_set_from, add, contains,
  add_if_not_exist_func, remove, equal, is_subset_of, union, diff, intersect, complement, merge,
  pops, size,
}
use gf.Gset.IntSet.Keys.{IsDistinct}
use gf.Gset.IntSet.Algebra.{in_other, some_lacks, is_some, has_itself, set_algebra}
use gf.Gset.IntSet.Compare.{SameItems, IsSubset, equal_iff}
use gf.Gset.IntSet.Take.{taken, pops_splits}
use gf.Gset.IntSet.Distinct.{keeps_IsDistinct}
use gf.Gset.IntSet.Sizes.{one_if, sizes_add_up}
use gf.Gset.IntSet.Changes.{changes}

abbrev three : IntSet
three = record { safe = true; keys = pos 1 ∷ pos 2 ∷ negsuc 2 ∷ [] }

abbrev turned : IntSet
turned = record { safe = false; keys = negsuc 2 ∷ pos 1 ∷ pos 2 ∷ [] }

abbrev others : List Other
others = another (record { safe = true; keys = pos 2 ∷ pos 5 ∷ [] }) ∷ another turned ∷ []

-- An item that one of two others has is in the difference, since the second one lacks it.
two_others :
    (diff three (another turned ∷ another (record { safe = true; keys = [] }) ∷ [])).keys
    ≡ three.keys
unfolding diff
two_others = refl

set_algebra_example :
    (contains (union three others) (pos 5)
      ≡ (is_some others && (contains three (pos 5) || in_other others (pos 5))))
    × (contains (diff three others) (pos 5) ≡ (contains three (pos 5) && some_lacks others (pos 5)))
    × (contains (intersect three others) (pos 5)
        ≡ (contains three (pos 5) && (has_itself others || in_other others (pos 5))))
    × (contains (complement three (another turned)) (pos 5)
        ≡ (has (pos 5) (keys_of three (another turned)) && not (contains three (pos 5))))
    × (contains (merge three others) (pos 5) ≡ (contains three (pos 5) || in_other others (pos 5)))
set_algebra_example = set_algebra three others (another turned) (pos 5)

equal_iff_example :
    ((equal three (another turned) ≡ true) ↔ SameItems three turned)
    × ((is_subset_of three (another turned) ≡ true) ↔ IsSubset three turned)
    × (equal three itself ≡ true)
    × (is_subset_of three itself ≡ true)
equal_iff_example = equal_iff three turned (refl, (refl, (refl, tt))) (refl, (refl, (refl, tt)))

pops_splits_example :
    ((pops three (pos 2)).1 ++ (pops three (pos 2)).0.keys ≡ three.keys)
    × (length (pops three (pos 2)).1 ≡ taken (length three.keys) (pos 2))
pops_splits_example = pops_splits three (pos 2)

abbrev items : List ℤ
items = pos 7 ∷ pos 1 ∷ pos 7 ∷ []

every_key_once :
    IsDistinct (new_int_set_from items true).keys
    × IsDistinct (add three items).keys
    × IsDistinct (remove three (pos 2)).keys
    × IsDistinct (add_if_not_exist_func three (pos 2) (pos 9)).keys
    × IsDistinct (union three others).keys
    × IsDistinct (diff three others).keys
    × IsDistinct (intersect three others).keys
    × IsDistinct (complement three itself).keys
    × IsDistinct (merge three others).keys
    × IsDistinct (pops three (pos 2)).0.keys
every_key_once =
    keeps_IsDistinct three items (pos 2) (pos 9) others itself (pos 2) (refl, (refl, (refl, tt)))

abbrev pair : IntSet
pair = record { safe = true; keys = pos 2 ∷ pos 5 ∷ [] }

sizes_add_up_example :
    (size (diff three (another pair ∷ [])) + size (intersect three (another pair ∷ []))
      ≡ size three)
    × (size (union three (another pair ∷ [])) ≡ size three + size (complement three (another pair)))
    × (size (merge three (another pair ∷ [])) ≡ size three + size (complement three (another pair)))
sizes_add_up_example = sizes_add_up three pair (refl, (refl, (refl, tt))) (refl, (refl, tt))

changes_example :
    (contains (add_if_not_exist_func three (pos 4) (pos 9)) (pos 9)
      ≡ (contains three (pos 9) || (not (contains three (pos 4)) && eq_ℤ (pos 9) (pos 9))))
    × (size (add_if_not_exist_func three (pos 4) (pos 9))
        ≡ size three + one_if (not (contains three (pos 4)) && not (contains three (pos 9))))
    × (contains (add three items) (pos 9) ≡ (contains three (pos 9) || has (pos 9) items))
    × (contains (remove three (pos 4)) (pos 9)
        ≡ (contains three (pos 9) && not (eq_ℤ (pos 9) (pos 4))))
    × (size (remove three (pos 4)) + one_if (contains three (pos 4)) ≡ size three)
changes_example = changes three items (pos 4) (pos 9) (pos 9) (refl, (refl, (refl, tt)))
