-- ===== src/Gset/IntSet.antt =====
-- container/gset/gset_int_set.go. The Go map is the list of its keys, each once, in the order in
-- which `range` gives them: that order is any, and no theorem depends on it.
pub mod Keys
pub mod Algebra
pub mod Compare
pub mod Take
pub mod Distinct
pub mod Sizes
pub mod Changes
mod Tests
use gf.Prelude.{
  ℕ, zero, suc, ◌+◌, ◌-◌, Bool, true, false, not, ◌||◌, ltb, ◌==◌, if◌then◌else◌, List, [], ◌∷◌,
  ◌++◌, length,
}
use gf.Prelude.Int.{ℤ, pos, negsuc, ltb_ℤ}
use gf.Prelude.Slice.{eq_ℤ}

-- `_, ok := m[k]`
abbrev pub has : ℤ → List ℤ → Bool
has k [] = false
has k (j ∷ js) = eq_ℤ k j || has k js

-- `m[k] = struct{}{}`
unfoldable pub put_key : ℤ → List ℤ → List ℤ
put_key k m = if has k m then m else m ++ k ∷ []

-- `for k, v := range from { m[k] = v }`
unfoldable pub put_keys : List ℤ → List ℤ → List ℤ
unfolding put_key
put_keys [] m = m
put_keys (k ∷ from) m = put_keys from (put_key k m)

-- `delete(m, k)`
unfoldable pub delete_key : ℤ → List ℤ → List ℤ
delete_key k [] = []
delete_key k (j ∷ js) = if eq_ℤ k j then js else j ∷ delete_key k js

-- `mu` is its switch `safe`.
pub record IntSet : Type 0 where
  pub safe : Bool
  pub keys : List ℤ

-- an argument `other *IntSet`: the set itself, or another one
pub data Other : Type 0 where
  itself : Other
  another : IntSet → Other

abbrev pub keys_of : IntSet → Other → List ℤ
keys_of set itself = set.keys
keys_of set (another other) = other.keys

-- `NewIntSet`
abbrev pub new_int_set : Bool → IntSet
new_int_set safe = record { safe = safe; keys = [] }

-- `NewIntSetFrom`
unfoldable pub new_int_set_from : List ℤ → Bool → IntSet
unfolding put_keys
new_int_set_from items safe = record { safe = safe; keys = put_keys items [] }

unfoldable pub add : IntSet → List ℤ → IntSet
unfolding put_keys
add set items = record set { keys = put_keys items set.keys }

unfoldable pub contains : IntSet → ℤ → Bool
contains set item = has item set.keys

-- `doAddWithLockCheck`, for a value that is not nil: an int, or what a function returns. The item
-- itself is added again where the set has it.
unfoldable pub do_add_with_lock_check : IntSet → ℤ → ℤ → IntSet × ℤ
unfolding put_key
do_add_with_lock_check set item value =
    let added = if has item set.keys then item else value in
    (record set { keys = put_key added set.keys }, added)

-- `AddIfNotExistFunc` and `AddIfNotExistFuncLock`; the value is what `f` returns
unfoldable pub add_if_not_exist_func : IntSet → ℤ → ℤ → IntSet
unfolding contains do_add_with_lock_check
add_if_not_exist_func set item value =
    if contains set item then set else (do_add_with_lock_check set item value).0

unfoldable pub remove : IntSet → ℤ → IntSet
unfolding delete_key
remove set item = record set { keys = delete_key item set.keys }

unfoldable pub size : IntSet → ℕ
size set = length set.keys

unfoldable pub clear : IntSet → IntSet
clear set = record set { keys = [] }

-- the loop of `Equal` and `IsSubsetOf`
unfoldable pub all_in : List ℤ → List ℤ → Bool
all_in [] m = true
all_in (k ∷ ks) m = let rest = all_in ks m in if has k m then rest else false

unfoldable pub equal : IntSet → Other → Bool
unfolding all_in
equal set itself = true
equal set (another other) =
    if length set.keys == length other.keys then all_in set.keys other.keys else false

unfoldable pub is_subset_of : IntSet → Other → Bool
unfolding all_in
is_subset_of set itself = true
is_subset_of set (another other) = all_in set.keys other.keys

-- the loop of `Union` over the others; `m` is the keys of the new set
unfoldable pub union_loop : IntSet → List Other → List ℤ → List ℤ
unfolding put_keys
union_loop set [] m = m
union_loop set (itself ∷ others) m = union_loop set others (put_keys set.keys m)
union_loop set (another other ∷ others) m =
    union_loop set others (put_keys other.keys (put_keys set.keys m))

unfoldable pub union : IntSet → List Other → IntSet
unfolding union_loop
union set others = record { safe = true; keys = union_loop set others [] }

-- `for k, v := range from { if _, ok := filter[k]; ok == want { m[k] = v } }`
unfoldable pub put_if : Bool → List ℤ → List ℤ → List ℤ → List ℤ
unfolding put_key
put_if want filter [] m = m
put_if want filter (k ∷ from) m =
    put_if want filter from (if (if has k filter then want else not want) then put_key k m else m)

unfoldable pub diff_loop : IntSet → List Other → List ℤ → List ℤ
unfolding put_if
diff_loop set [] m = m
diff_loop set (itself ∷ others) m = diff_loop set others m
diff_loop set (another other ∷ others) m = diff_loop set others (put_if false other.keys set.keys m)

unfoldable pub diff : IntSet → List Other → IntSet
unfolding diff_loop
diff set others = record { safe = true; keys = diff_loop set others [] }

unfoldable pub intersect_loop : IntSet → List Other → List ℤ → List ℤ
unfolding put_if
intersect_loop set [] m = m
intersect_loop set (other ∷ others) m =
    intersect_loop set others (put_if true (keys_of set other) set.keys m)

unfoldable pub intersect : IntSet → List Other → IntSet
unfolding intersect_loop
intersect set others = record { safe = true; keys = intersect_loop set others [] }

unfoldable pub complement : IntSet → Other → IntSet
unfolding put_if
complement set full = record { safe = true; keys = put_if false set.keys (keys_of set full) [] }

-- `Merge`; a set that is merged into itself stays
unfoldable pub merge_loop : List Other → List ℤ → List ℤ
unfolding put_keys
merge_loop [] m = m
merge_loop (itself ∷ others) m = merge_loop others (put_keys m m)
merge_loop (another other ∷ others) m = merge_loop others (put_keys other.keys m)

unfoldable pub merge : IntSet → List Other → IntSet
unfolding merge_loop
merge set others = record set { keys = merge_loop others set.keys }

-- `Pop`: the first key that `range` gives
unfoldable pub pop : IntSet → IntSet × ℤ
unfolding delete_key
pop set = elim set.keys [
  | [] ↦ (set, pos 0)
  | k ∷ ks ↦ (record set { keys = delete_key k (k ∷ ks) }, k)
]

-- the loop of `Pops`: `left` items are still wanted
unfoldable pub pops_loop : ℕ → List ℤ → List ℤ → List ℤ × List ℤ
unfolding delete_key
pops_loop zero ks m = (m, [])
pops_loop (suc left) [] m = (m, [])
pops_loop (suc left) (k ∷ ks) m =
    let (m', array) = pops_loop left ks (delete_key k m) in (m', k ∷ array)

-- `Pops`; nil is the empty slice here
unfoldable pub pops : IntSet → ℤ → IntSet × List ℤ
unfolding pops_loop
pops set (negsuc zero) =
    let (m, array) = pops_loop (length set.keys) set.keys set.keys in
    (record set { keys = m }, array)
pops set (negsuc (suc n)) = (set, [])
pops set (pos n) =
    let wanted = if ltb (length set.keys) n then length set.keys else n in
    let (m, array) = pops_loop wanted set.keys set.keys in (record set { keys = m }, array)
