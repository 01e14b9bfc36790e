-- ===== src/Gset/IntSet/Compare.antt =====
-- Equal and IsSubsetOf, on what the sets have.
use gf.Prelude.{
  ℕ, ◌+◌, ◌≤◌, ◌≡◌, refl, ◌∙◌, ap, sym, Bool, true, false, ◌||◌, ◌&&◌, ◌==◌, if◌then◌else◌, List,
  [], ◌∷◌, length, ◌↔◌, Bool-cases, inl, inr, arith,
}
use gf.Prelude.Int.{ℤ}
use gf.Prelude.Slice.{eq_ℤ}
use gf.Garray.IntArray.Filter.{eq_ℤ-refl}
use gf.Gset.IntSet.{IntSet, itself, another, has, delete_key, contains, all_in, equal, is_subset_of}
use gf.Gset.IntSet.Keys.{IsDistinct, eq_ℤ_sym, has_eq, has-delete_key, delete_key-IsDistinct}

-- every key of the one is a key of the other
abbrev pub IsPartOf : List ℤ → List ℤ → Type 0
IsPartOf ks m = (x : ℤ) → (has x ks && has x m) ≡ has x ks

part_has : (a b : Bool) → (a && b) ≡ a → a ≡ true → b ≡ true
part_has true b e h = e
part_has false b e h = ground arith

has_part : (a b : Bool) → (a ≡ true → b ≡ true) → (a && b) ≡ a
has_part true b h = h refl
has_part false b h = refl

all_in-has : (ks m : List ℤ) (x : ℤ) → all_in ks m ≡ true → has x ks ≡ true → has x m ≡ true
unfolding all_in
all_in-has [] m x h e = ground arith
all_in-has (k ∷ ks) m x h e = elim (Bool-cases (has k m)) [
  | inr f ↦ ground arith
  | inl f ↦ elim (Bool-cases (eq_ℤ x k)) [
    | inl g ↦ has_eq x k m g f
    | inr g ↦ all_in-has ks m x (ground arith) (ground arith)
  ]
]

all_in-of : (ks m : List ℤ) → IsPartOf ks m → all_in ks m ≡ true
unfolding all_in
all_in-of [] m h = refl
all_in-of (k ∷ ks) m h =
    let here : has k m ≡ true =
      part_has (has k (k ∷ ks)) (has k m) (h k) (ap (λ b. b || has k ks) (eq_ℤ-refl k)) in
    rw here (
      all_in-of ks m (λ x.
        has_part (has x ks) (has x m)
          (λ e. part_has (eq_ℤ x k || has x ks) (has x m) (h x) (later x e))))
  where
    later : (x : ℤ) → has x ks ≡ true → (eq_ℤ x k || has x ks) ≡ true
    later x e = ground arith

length-delete_key : (k : ℤ) (m : List ℤ) → has k m ≡ true → length (delete_key k m) + 1 ≡ length m
unfolding delete_key
length-delete_key k [] h = ground arith
length-delete_key k (j ∷ js) h = elim (Bool-cases (eq_ℤ k j)) [
  | inl e ↦ rw e (omega arith)
  | inr e ↦ rw e (omega (arith, length-delete_key k js (ground arith)))
]

-- without a key that the part has not
rest-IsPartOf :
    (k : ℤ) (ks m : List ℤ)
    → IsDistinct (k ∷ ks)
    → IsDistinct m
    → IsPartOf (k ∷ ks) m
    → IsPartOf ks (delete_key k m)
rest-IsPartOf k ks m d dm h x =
    has_part (has x ks) (has x (delete_key k m))
      (λ e. has-delete_key x k m dm ∙ rw (there e, apart e) refl)
  where
    there : has x ks ≡ true → has x m ≡ true
    there e = part_has (eq_ℤ x k || has x ks) (has x m) (h x) (ground arith)

    apart : has x ks ≡ true → eq_ℤ x k ≡ false
    apart e = elim (Bool-cases (eq_ℤ x k)) [
      | inr f ↦ f
      | inl f ↦ ground (arith, has_eq k x ks (eq_ℤ_sym k x ∙ f) e)
    ]

has_first : (k : ℤ) (ks m : List ℤ) → IsPartOf (k ∷ ks) m → has k m ≡ true
has_first k ks m h =
    part_has (has k (k ∷ ks)) (has k m) (h k) (ap (λ b. b || has k ks) (eq_ℤ-refl k))

length_of_part :
    (ks m : List ℤ) → IsDistinct ks → IsDistinct m → IsPartOf ks m → length ks ≤ length m
length_of_part [] m d dm h = omega arith
length_of_part (k ∷ ks) m d dm h = omega (
  arith,
  length-delete_key k m (has_first k ks m h),
  length_of_part ks (delete_key k m) d.1 (delete_key-IsDistinct k m dm)
      (rest-IsPartOf k ks m d dm h),
)

-- A part that is as long is the whole.
part_is_whole :
    (ks m : List ℤ)
    → IsDistinct ks
    → IsDistinct m
    → IsPartOf ks m
    → length ks ≡ length m
    → (x : ℤ) → has x m ≡ true
    → has x ks ≡ true
part_is_whole [] [] d dm h e x g = ground arith
part_is_whole [] (j ∷ js) d dm h e x g = absurd (omega (arith, e))
part_is_whole (k ∷ ks) m d dm h e x g = elim (Bool-cases (eq_ℤ x k)) [
  | inl f ↦ rw f refl
  | inr f ↦
      let left : has x (delete_key k m) ≡ true = has-delete_key x k m dm ∙ rw (g, f) refl in
      rw f (
        part_is_whole ks (delete_key k m) d.1 (delete_key-IsDistinct k m dm)
          (rest-IsPartOf k ks m d dm h)
          (omega (arith, e, length-delete_key k m (has_first k ks m h))) x left)
]

same_bool : (a b : Bool) → (a ≡ true → b ≡ true) → (b ≡ true → a ≡ true) → a ≡ b
same_bool true b f g = sym (f refl)
same_bool false true f g = g refl
same_bool false false f g = refl

abbrev pub SameItems : IntSet → IntSet → Type 0
SameItems set other = (x : ℤ) → contains set x ≡ contains other x

abbrev pub IsSubset : IntSet → IntSet → Type 0
IsSubset set other = (x : ℤ) → (contains set x && contains other x) ≡ contains set x

equal_of_same :
    (set other : IntSet)
    → IsDistinct set.keys
    → IsDistinct other.keys
    → SameItems set other
    → equal set (another other) ≡ true
unfolding equal contains
equal_of_same set other d dm h =
    let part : IsPartOf set.keys other.keys =
      λ x. has_part (has x set.keys) (has x other.keys) (λ e. sym (h x) ∙ e) in
    let whole : IsPartOf other.keys set.keys =
      λ x. has_part (has x other.keys) (has x set.keys) (λ e. h x ∙ e) in
    let same : (length set.keys == length other.keys) ≡ true =
      equal_numbers (length set.keys) (length other.keys)
        (length_of_part set.keys other.keys d dm part)
        (length_of_part other.keys set.keys dm d whole) in
    rw same (all_in-of set.keys other.keys part)
  where
    equal_numbers : (a b : ℕ) → a ≤ b → b ≤ a → (a == b) ≡ true
    equal_numbers a b p q = ground arith

same_of_equal :
    (set other : IntSet)
    → IsDistinct set.keys
    → IsDistinct other.keys
    → equal set (another other) ≡ true
    → SameItems set other
unfolding equal contains
same_of_equal set other d dm h x =
    let within : all_in set.keys other.keys ≡ true =
      second (length set.keys == length other.keys) _ h in
    let size : length set.keys ≡ length other.keys =
      numbers (length set.keys) (length other.keys) (all_in set.keys other.keys) h in
    let forth : (y : ℤ) → has y set.keys ≡ true → has y other.keys ≡ true =
      λ y. all_in-has set.keys other.keys y within in
    same_bool (has x set.keys) (has x other.keys) (forth x) (
      part_is_whole set.keys other.keys d dm
        (λ y. has_part (has y set.keys) (has y other.keys) (forth y)) size x)
  where
    second : (a b : Bool) → (if a then b else false) ≡ true → b ≡ true
    second true b h = h
    second false b h = ground arith

    numbers : (m n : ℕ) (b : Bool) → (if m == n then b else false) ≡ true → m ≡ n
    numbers m n b h = ground arith

-- Equal of two different sets is true exactly if they have the same items, and IsSubsetOf exactly if
-- the other set has all items of the set; both are true of a set and itself. The maps hold every key
-- once.
pub equal_iff :
    (set other : IntSet)
    → IsDistinct set.keys
    → IsDistinct other.keys
    → ((equal set (another other) ≡ true) ↔ SameItems set other)
      × ((is_subset_of set (another other) ≡ true) ↔ IsSubset set other)
      × (equal set itself ≡ true)
      × (is_subset_of set itself ≡ true)
unfolding is_subset_of equal contains
equal_iff set other d dm = (
  (same_of_equal set other d dm, equal_of_same set other d dm),
  (
    λ h x. has_part (has x set.keys) (has x other.keys) (all_in-has set.keys other.keys x h),
    all_in-of set.keys other.keys,
  ),
  refl,
  refl,
)
