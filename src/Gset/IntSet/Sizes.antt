-- ===== src/Gset/IntSet/Sizes.antt =====
-- How many items the sets of the algebra of IntSet have.
use gf.Prelude.{
  ℕ, ◌+◌, ◌≡◌, refl, ◌∙◌, Bool, true, false, not, ◌||◌, Bool-cases, inl, inr, List, [], ◌∷◌, length,
  length-append, arith,
}
use gf.Prelude.Int.{ℤ}
use gf.Prelude.Slice.{eq_ℤ}
use gf.Garray.IntArray.Filter.{eq_ℤ→eq, eq_ℤ-refl}
use gf.Gset.IntSet.{
  IntSet, another, has, put_key, put_keys, size, union_loop, union, put_if, diff_loop, diff,
  intersect_loop, intersect, complement, merge_loop, merge,
}
use gf.Gset.IntSet.Keys.{IsDistinct, has-put_key, has-put_keys, passes}

abbrev pub one_if : Bool → ℕ
one_if true = 1
one_if false = 0

or_true : (b : Bool) → (b || true) ≡ true
or_true true = refl
or_true false = refl

-- how many keys of the list pass the test of `put_if`
abbrev pub passing : Bool → List ℤ → List ℤ → ℕ
passing want filter [] = 0
passing want filter (k ∷ ks) = one_if (passes want filter k) + passing want filter ks

pub length-put_key : (k : ℤ) (m : List ℤ) → length (put_key k m) ≡ length m + one_if (not (has k m))
unfolding put_key
length-put_key k m = elim (Bool-cases (has k m)) [
  | inl h ↦ rw h (omega arith)
  | inr h ↦ rw h (length-append m (k ∷ []))
]

-- a key further on is another one
other_key : (x k : ℤ) (ks : List ℤ) → has k ks ≡ false → has x ks ≡ true → eq_ℤ x k ≡ false
other_key x k ks h h' = elim (Bool-cases (eq_ℤ x k)) [
  | inr e ↦ e
  | inl e ↦ let same : has k ks ≡ true = rw (eq_ℤ→eq x k e) at h' in cc
]

-- putting one key of a list changes nothing for the others
put_key_other :
    (x k : ℤ) (ks m : List ℤ) → has k ks ≡ false → has x ks ≡ true → has x (put_key k m) ≡ has x m
put_key_other x k ks m h h' = rw (has-put_key x k m, other_key x k ks h h') (ground arith)

passing_agree :
    (want : Bool) (f g from : List ℤ)
    → ((x : ℤ) → has x from ≡ true → has x f ≡ has x g)
    → passing want f from ≡ passing want g from
passing_agree want f g [] h = refl
passing_agree want f g (k ∷ ks) h =
    rw
      (
        h k (rw (eq_ℤ-refl k) refl),
        passing_agree want f g ks (λ x i. h x (rw i (or_true (eq_ℤ x k)))),
      )
      refl

passing_both : (f from : List ℤ) → passing false f from + passing true f from ≡ length from
passing_both f [] = refl
passing_both f (k ∷ ks) = elim (Bool-cases (has k f)) [
  | inl e ↦ rw e (omega (arith, passing_both f ks))
  | inr e ↦ rw e (omega (arith, passing_both f ks))
]

none_pass : (from : List ℤ) → passing true [] from ≡ 0
none_pass [] = refl
none_pass (k ∷ ks) = omega (arith, none_pass ks)

length-put_keys :
    (from m : List ℤ) → IsDistinct from → length (put_keys from m) ≡ length m + passing false m from
unfolding put_keys
length-put_keys [] m d = omega arith
length-put_keys (k ∷ ks) m d =
    let rest = passing_agree false (put_key k m) m ks (λ x i. put_key_other x k ks m d.0 i) in
    length-put_keys ks (put_key k m) d.1
    ∙ rw (length-put_key k m, rest)
        (elim (Bool-cases (has k m)) [ inl e ↦ rw e (omega arith) | inr e ↦ rw e (omega arith) ])

-- The keys that pass are not in the map yet.
length-put_if :
    (want : Bool) (filter from m : List ℤ)
    → IsDistinct from
    → ((x : ℤ) → has x from ≡ true → has x m ≡ false)
    → length (put_if want filter from m) ≡ length m + passing want filter from
unfolding put_if
length-put_if want filter [] m d h = omega arith
length-put_if want filter (k ∷ ks) m d h =
    let here : has k m ≡ false = h k (rw (eq_ℤ-refl k) refl) in
    let later : (x : ℤ) → has x ks ≡ true → has x m ≡ false =
      λ x i. h x (rw i (or_true (eq_ℤ x k))) in
    elim (Bool-cases (passes want filter k)) [
      | inl e ↦ rw e (
          length-put_if want filter ks (put_key k m) d.1
            (λ x i. put_key_other x k ks m d.0 i ∙ later x i)
          ∙ rw (length-put_key k m, here) (omega arith))
      | inr e ↦ rw e (length-put_if want filter ks m d.1 later ∙ omega arith)
    ]

module _ (set other : IntSet) (d : IsDistinct set.keys) (d' : IsDistinct other.keys) where
  size-union : size (union set (another other ∷ [])) ≡ size set + passing false set.keys other.keys
  unfolding size union union_loop
  size-union =
      length-put_keys other.keys (put_keys set.keys []) d'
      ∙ rw
          (
            passing_agree false (put_keys set.keys []) set.keys other.keys
                (λ x i. has-put_keys x set.keys []),
            length-put_keys set.keys [] d,
          )
          (omega (arith, passing_both [] set.keys, none_pass set.keys))

  size-complement : size (complement set (another other)) ≡ passing false set.keys other.keys
  unfolding size complement
  size-complement = length-put_if false set.keys other.keys [] d' (λ x i. refl) ∙ omega arith

  size-diff : size (diff set (another other ∷ [])) ≡ passing false other.keys set.keys
  unfolding size diff diff_loop
  size-diff = length-put_if false other.keys set.keys [] d (λ x i. refl) ∙ omega arith

  size-intersect : size (intersect set (another other ∷ [])) ≡ passing true other.keys set.keys
  unfolding size intersect intersect_loop
  size-intersect = length-put_if true other.keys set.keys [] d (λ x i. refl) ∙ omega arith

  size-merge : size (merge set (another other ∷ [])) ≡ size set + passing false set.keys other.keys
  unfolding size merge merge_loop
  size-merge = length-put_keys other.keys set.keys d'

passing_whole :
    (set : IntSet) (f : List ℤ) → passing false f set.keys + passing true f set.keys ≡ size set
unfolding size
passing_whole set f = passing_both f set.keys

-- Of two different sets Diff and Intersect divide the items of the first one, so that their sizes add
-- up to its size. Union and Merge have the items of the first set and those that Complement gives,
-- so that their sizes are the sum of those.
pub sizes_add_up :
    (set other : IntSet)
    → IsDistinct set.keys
    → IsDistinct other.keys
    → (size (diff set (another other ∷ [])) + size (intersect set (another other ∷ [])) ≡ size set)
      × (size (union set (another other ∷ [])) ≡ size set + size (complement set (another other)))
      × (size (merge set (another other ∷ [])) ≡ size set + size (complement set (another other)))
sizes_add_up set other d d' = (
  rw (size-diff set other d d', size-intersect set other d d') (passing_whole set other.keys),
  rw (size-complement set other d d') (size-union set other d d'),
  rw (size-complement set other d d') (size-merge set other d d'),
)
