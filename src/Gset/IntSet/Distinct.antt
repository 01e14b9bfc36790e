-- ===== src/Gset/IntSet/Distinct.antt =====
-- Every operation of IntSet leaves a map that holds every key once, so that Size counts its items.
use gf.Prelude.{Bool, true, false, if◌then◌else◌, List, [], ◌∷◌, ◌++◌}
use gf.Prelude.Int.{ℤ}
use gf.Gset.IntSet.{
  IntSet, Other, itself, another, keys_of, has, put_key, put_keys, new_int_set_from, add, contains,
  do_add_with_lock_check, add_if_not_exist_func, remove, union_loop, union, put_if, diff_loop, diff,
  intersect_loop, intersect, complement, merge_loop, merge, pops,
}
use gf.Gset.IntSet.Keys.{
  IsDistinct, put_key-IsDistinct, put_keys-IsDistinct, put_if-IsDistinct, delete_key-IsDistinct,
}
use gf.Gset.IntSet.Take.{pops_splits}

union_loop-IsDistinct :
    (set : IntSet) (others : List Other) (m : List ℤ)
    → IsDistinct m
    → IsDistinct (union_loop set others m)
unfolding union_loop
union_loop-IsDistinct set [] m d = d
union_loop-IsDistinct set (itself ∷ others) m d =
    union_loop-IsDistinct set others (put_keys set.keys m) (put_keys-IsDistinct set.keys m d)
union_loop-IsDistinct set (another other ∷ others) m d =
    union_loop-IsDistinct set others (put_keys other.keys (put_keys set.keys m))
      (put_keys-IsDistinct other.keys (put_keys set.keys m) (put_keys-IsDistinct set.keys m d))

diff_loop-IsDistinct :
    (set : IntSet) (others : List Other) (m : List ℤ)
    → IsDistinct m
    → IsDistinct (diff_loop set others m)
unfolding diff_loop
diff_loop-IsDistinct set [] m d = d
diff_loop-IsDistinct set (itself ∷ others) m d = diff_loop-IsDistinct set others m d
diff_loop-IsDistinct set (another other ∷ others) m d =
    diff_loop-IsDistinct set others (put_if false other.keys set.keys m)
      (put_if-IsDistinct false other.keys set.keys m d)

intersect_loop-IsDistinct :
    (set : IntSet) (others : List Other) (m : List ℤ)
    → IsDistinct m
    → IsDistinct (intersect_loop set others m)
unfolding intersect_loop
intersect_loop-IsDistinct set [] m d = d
intersect_loop-IsDistinct set (other ∷ others) m d =
    intersect_loop-IsDistinct set others (put_if true (keys_of set other) set.keys m)
      (put_if-IsDistinct true (keys_of set other) set.keys m d)

merge_loop-IsDistinct :
    (others : List Other) (m : List ℤ) → IsDistinct m → IsDistinct (merge_loop others m)
unfolding merge_loop
merge_loop-IsDistinct [] m d = d
merge_loop-IsDistinct (itself ∷ others) m d =
    merge_loop-IsDistinct others (put_keys m m) (put_keys-IsDistinct m m d)
merge_loop-IsDistinct (another other ∷ others) m d =
    merge_loop-IsDistinct others (put_keys other.keys m) (put_keys-IsDistinct other.keys m d)

drop-IsDistinct : (xs ys : List ℤ) → IsDistinct (xs ++ ys) → IsDistinct ys
drop-IsDistinct [] ys d = d
drop-IsDistinct (x ∷ xs) ys d = drop-IsDistinct xs ys d.1

-- Whatever a set is built from, and whatever Add, Remove, AddIfNotExistFunc, Merge, Pops and the set
-- algebra do with a set whose map holds every key once, the result holds every key once.
pub keeps_IsDistinct :
    (set : IntSet) (items : List ℤ) (item value : ℤ) (others : List Other) (full : Other) (n : ℤ)
    → IsDistinct set.keys
    → IsDistinct (new_int_set_from items true).keys
      × IsDistinct (add set items).keys
      × IsDistinct (remove set item).keys
      × IsDistinct (add_if_not_exist_func set item value).keys
      × IsDistinct (union set others).keys
      × IsDistinct (diff set others).keys
      × IsDistinct (intersect set others).keys
      × IsDistinct (complement set full).keys
      × IsDistinct (merge set others).keys
      × IsDistinct (pops set n).0.keys
unfolding new_int_set_from add remove add_if_not_exist_func do_add_with_lock_check contains union
    diff intersect complement merge
keeps_IsDistinct set items item value others full n d = (
  put_keys-IsDistinct items [] tt,
  put_keys-IsDistinct items set.keys d,
  delete_key-IsDistinct item set.keys d,
  added (has item set.keys),
  union_loop-IsDistinct set others [] tt,
  diff_loop-IsDistinct set others [] tt,
  intersect_loop-IsDistinct set others [] tt,
  put_if-IsDistinct false set.keys (keys_of set full) [] tt,
  merge_loop-IsDistinct others set.keys d,
  drop-IsDistinct (pops set n).1 (pops set n).0.keys (rw (pops_splits set n).0 d),
)
  where
    added :
        (b : Bool)
        → IsDistinct
            (if b
              then set
              else record set { keys = put_key (if b then item else value) set.keys }).keys
    added true = d
    added false = put_key-IsDistinct value set.keys d
