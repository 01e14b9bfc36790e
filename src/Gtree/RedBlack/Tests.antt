-- ===== src/Gtree/RedBlack/Tests.antt =====
-- Runs of the red-black tree, and its theorems at concrete trees.
use gf.Prelude.{
  ℕ, ◌+◌, ◌*◌, ◌≡◌, refl, true, List, [], ◌∷◌, length, none, some, ◌==◌, arith, Bool, not,
}
use gf.Prelude.Outcome.{Outcome, ok, panic}
use gf.Gtree.Comparator.{by_number, by_number-IsWeakOrder}
use gf.Gtree.Avl.Map.{plain}
use gf.Gtree.Avl.Map.Nearest.{at_most, at_least, first_or, last_or}
use gf.Gtree.RedBlack.{RbTree, leaf, node, black, red}
use gf.Gtree.RedBlack.Coloured.{IsRedBlack}
use gf.Gtree.RedBlack.Map.{
  RedBlackTree, new_red_black_tree_from, do_set, search, get_or_set, floor, ceiling, left_node,
  right_node, end_node, leftmost,
}
use gf.Gtree.RedBlack.Map.Laws.{items, IsValid, HasSet, do_set-HasSet}
use gf.Gtree.RedBlack.Map.Reads.{found_or, stored, search-get_or_set, nearest_entries, outermost}
use gf.Gtree.Avl.Walk.Laws.{fold_until}
use gf.Gtree.RedBlack.Walk.{iterator_asc}
use gf.Gtree.RedBlack.Walk.Laws.{iterator_asc_lem}
use gf.Gtree.RedBlack.Delete.{Place, locate, do_remove}
use gf.Gtree.RedBlack.Delete.Remove.{
  FindsMaximum, HasRemoved, do_remove-IsRedBlack, do_remove-HasRemoved,
}
use gf.Gtree.RedBlack.Delete.Fault.{do_remove_loses_count}

abbrev tip : ℕ → RbTree ℕ ℕ
tip n = node red leaf n (10 * n) leaf

abbrev single : ℕ → RbTree ℕ ℕ
single n = node black leaf n (10 * n) leaf

abbrev lower_part : RbTree ℕ ℕ
lower_part = node black (node black (tip 1) 2 20 (tip 3)) 4 40 (node black (tip 5) 6 60 (tip 7))

abbrev upper_part : RbTree ℕ ℕ
upper_part = node black (single 10) 12 120 (single 14)

abbrev sample : RedBlackTree ℕ ℕ
sample = record {
  safe = true;
  root = node black lower_part 8 80 upper_part;
  size = 11;
  comparator = by_number;
}

sample-IsValid : IsValid sample
sample-IsValid = record {
  coloured = ground arith;
  lawful = by_number-IsWeakOrder;
  ascending = ground arith;
  counted = refl;
}

abbrev top : Place ℕ ℕ
top = record {
  color = black;
  lower = lower_part;
  key = 8;
  value = 80;
  upper = upper_part;
  path = [];
}

abbrev eight_entries : List (ℕ × ℕ)
eight_entries = (5, 1) ∷ (3, 2) ∷ (8, 3) ∷ (9, 4) ∷ (1, 5) ∷ (2, 6) ∷ (4, 7) ∷ (7, 8) ∷ (6, 9) ∷ []

abbrev items_of : Outcome (RedBlackTree ℕ ℕ) → List (ℕ × ℕ)
items_of (ok t) = items t
items_of panic = []

built :
    items_of (new_red_black_tree_from by_number eight_entries true)
    ≡ (1, 5) ∷ (2, 6) ∷ (3, 2) ∷ (4, 7) ∷ (5, 1) ∷ (6, 9) ∷ (7, 8) ∷ (8, 3) ∷ (9, 4) ∷ []
unfolding new_red_black_tree_from
built = refl

located : locate by_number 8 sample.root [] ≡ some top
unfolding locate
located = refl

found_soon : FindsMaximum (locate by_number 10 sample.root [])
unfolding locate
found_soon = tt

do_set-HasSet_example :
    (t' : RedBlackTree ℕ ℕ) × (do_set sample 11 110 ≡ ok t') × HasSet sample 11 110 t'
do_set-HasSet_example = do_set-HasSet sample 11 110 sample-IsValid

search-get_or_set_example :
    (t' : RedBlackTree ℕ ℕ) × (get_or_set (λ v. v == 0) sample 9 (plain 90)
      ≡ ok (t', found_or (search sample 9) 90))
    × IsValid t'
    × (search t' 9 ≡ stored (λ v. v == 0) (search sample 9) 90)
    × (search t' 4 ≡ search sample 4)
search-get_or_set_example =
    search-get_or_set (λ v. v == 0) sample 9 (plain 90) 4 sample-IsValid (λ e. ground arith)

-- Left of an empty safe tree reads through nil.
nothing_leftmost :
    left_node {V = ℕ} (record { safe = true; root = leaf; comparator = by_number; size = 0 })
    ≡ panic
unfolding left_node end_node leftmost
nothing_leftmost = refl

nearest_entries_example :
    (floor sample 9 ≡ last_or (at_most by_number 9 (items sample)) none)
    × (ceiling sample 9 ≡ first_or (at_least by_number 9 (items sample)) none)
    × (left_node sample ≡ outermost sample.safe (first_or (items sample) none))
    × (right_node sample ≡ outermost sample.safe (last_or (items sample) none))
nearest_entries_example = nearest_entries sample 9 sample-IsValid

do_remove-IsRedBlack_example :
    (t' : RedBlackTree ℕ ℕ) × (do_remove sample 10 ≡ ok (t', search sample 10)) × IsRedBlack t'.root
do_remove-IsRedBlack_example = do_remove-IsRedBlack sample 10 sample-IsValid

do_remove-HasRemoved_example :
    (t' : RedBlackTree ℕ ℕ) × (do_remove sample 10 ≡ ok (t', search sample 10))
    × HasRemoved sample 10 t'
do_remove-HasRemoved_example = do_remove-HasRemoved sample 10 sample-IsValid found_soon

do_remove_loses_count_example :
    (t' : RedBlackTree ℕ ℕ) × (do_remove sample 8 ≡ ok (t', some 80))
    × (length (items t') ≡ length (items sample))
    × (t'.size + 1 ≡ sample.size)
    × (¬ IsValid t')
do_remove_loses_count_example = do_remove_loses_count sample 8 top sample-IsValid located tt

-- collects the keys, up to 6
abbrev keys_to_six : List ℕ → ℕ × ℕ → List ℕ × Bool
keys_to_six ks (k, v) = (k ∷ ks, not (k == 6))

iterator_asc_lem_example :
    iterator_asc 12 sample keys_to_six [] ≡ fold_until keys_to_six (items sample) []
iterator_asc_lem_example = iterator_asc_lem 12 sample keys_to_six [] sample-IsValid (omega arith)
