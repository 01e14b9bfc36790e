-- ===== src/Gset/IntSet/Changes.antt =====
-- What Add, AddIfNotExistFunc and Remove of IntSet change.
use gf.Prelude.{◌+◌, ◌≡◌, refl, not, ◌||◌, ◌&&◌, Bool-cases, inl, inr, List, [], ◌∷◌, length, arith}
use gf.Prelude.Int.{ℤ}
use gf.Prelude.Slice.{eq_ℤ}
use gf.Gset.IntSet.{
  IntSet, has, delete_key, add, contains, do_add_with_lock_check, add_if_not_exist_func, remove,
  size,
}
use gf.Gset.IntSet.Keys.{IsDistinct, has-put_key, has-put_keys, has-delete_key, or_false}
use gf.Gset.IntSet.Sizes.{one_if, length-put_key}

length-delete_key : (k : ℤ) (m : List ℤ) → length (delete_key k m) + one_if (has k m) ≡ length m
unfolding delete_key
length-delete_key k [] = refl
length-delete_key k (j ∷ js) = elim (Bool-cases (eq_ℤ k j)) [
  | inl e ↦ rw e (omega arith)
  | inr e ↦ rw e (omega (arith, length-delete_key k js))
]

contains-add_if_not_exist_func :
    (set : IntSet) (item value x : ℤ)
    → contains (add_if_not_exist_func set item value) x
      ≡ (contains set x || (not (contains set item) && eq_ℤ x value))
unfolding add_if_not_exist_func do_add_with_lock_check contains
contains-add_if_not_exist_func set item value x = elim (Bool-cases (has item set.keys)) [
  | inl e ↦ rw e (ground (arith, or_false (has x set.keys)))
  | inr e ↦ rw e (has-put_key x value set.keys)
]

size-add_if_not_exist_func :
    (set : IntSet) (item value : ℤ)
    → size (add_if_not_exist_func set item value)
      ≡ size set + one_if (not (contains set item) && not (contains set value))
unfolding add_if_not_exist_func do_add_with_lock_check contains size
size-add_if_not_exist_func set item value = elim (Bool-cases (has item set.keys)) [
  | inl e ↦ rw e (omega arith)
  | inr e ↦ rw e (length-put_key value set.keys)
]

size-remove :
    (set : IntSet) (item : ℤ) → size (remove set item) + one_if (contains set item) ≡ size set
unfolding remove contains size
size-remove set item = length-delete_key item set.keys

contains-add :
    (set : IntSet) (items : List ℤ) (x : ℤ)
    → contains (add set items) x ≡ (contains set x || has x items)
unfolding add contains
contains-add set items x = has-put_keys x items set.keys

contains-remove :
    (set : IntSet) (item x : ℤ)
    → IsDistinct set.keys
    → contains (remove set item) x ≡ (contains set x && not (eq_ℤ x item))
unfolding remove contains
contains-remove set item x d = has-delete_key x item set.keys d

-- After AddIfNotExistFunc the set has its items, and the value that the function returns only if the
-- item asked for was not there; one item more only if the value was not there either. After Add it
-- has its items and those added. After Remove it has its items but for the one removed, one less if
-- that was there.
pub changes :
    (set : IntSet) (items : List ℤ) (item value x : ℤ)
    → IsDistinct set.keys
    → (contains (add_if_not_exist_func set item value) x
        ≡ (contains set x || (not (contains set item) && eq_ℤ x value)))
      × (size (add_if_not_exist_func set item value)
          ≡ size set + one_if (not (contains set item) && not (contains set value)))
      × (contains (add set items) x ≡ (contains set x || has x items))
      × (contains (remove set item) x ≡ (contains set x && not (eq_ℤ x item)))
      × (size (remove set item) + one_if (contains set item) ≡ size set)
changes set items item value x d = (
  contains-add_if_not_exist_func set item value x,
  size-add_if_not_exist_func set item value,
  contains-add set items x,
  contains-remove set item x d,
  size-remove set item,
)
