-- ===== src/Gset/IntSet/Algebra.antt =====
-- Which items the sets have that Union, Diff, Intersect, Complement and Merge return.
use gf.Prelude.{
  ◌≡◌, refl, ◌∙◌, ap, sym, Bool, true, false, not, ◌||◌, ◌&&◌, if◌then◌else◌, List, [], ◌∷◌,
}
use gf.Prelude.Int.{ℤ}
use gf.Gset.IntSet.{
  IntSet, Other, itself, another, keys_of, has, put_keys, put_if, contains, union_loop, union,
  diff_loop, diff, intersect_loop, intersect, complement, merge_loop, merge,
}
use gf.Gset.IntSet.Keys.{or_assoc, or_false, and_false, has-put_keys, passes, has-put_if}

-- one of the other sets has the item; a set given as its own argument does not count
abbrev pub in_other : List Other → ℤ → Bool
in_other [] x = false
in_other (itself ∷ others) x = in_other others x
in_other (another other ∷ others) x = has x other.keys || in_other others x

-- one of the others lacks the item
abbrev pub some_lacks : List Other → ℤ → Bool
some_lacks [] x = false
some_lacks (itself ∷ others) x = some_lacks others x
some_lacks (another other ∷ others) x = not (has x other.keys) || some_lacks others x

abbrev pub is_some : List Other → Bool
is_some [] = false
is_some (other ∷ others) = true

-- the set is among its arguments
abbrev pub has_itself : List Other → Bool
has_itself [] = false
has_itself (itself ∷ others) = true
has_itself (another other ∷ others) = has_itself others

-- the rounds of the loops, for a set that has the item or not
abbrev union_rounds : Bool → List Other → ℤ → Bool
union_rounds s [] x = false
union_rounds s (itself ∷ others) x = s || union_rounds s others x
union_rounds s (another other ∷ others) x = (s || has x other.keys) || union_rounds s others x

abbrev diff_rounds : Bool → List Other → ℤ → Bool
diff_rounds s [] x = false
diff_rounds s (itself ∷ others) x = diff_rounds s others x
diff_rounds s (another other ∷ others) x =
    (s && passes false other.keys x) || diff_rounds s others x

abbrev intersect_rounds : IntSet → List Other → ℤ → Bool
intersect_rounds set [] x = false
intersect_rounds set (other ∷ others) x =
    (has x set.keys && passes true (keys_of set other) x) || intersect_rounds set others x

passes-false : (m : List ℤ) (x : ℤ) → passes false m x ≡ not (has x m)
passes-false m x = elim (has x m) as (λ b. (if b then false else true) ≡ not b) [
  | true ↦ refl
  | false ↦ refl
]

passes-true : (m : List ℤ) (x : ℤ) → passes true m x ≡ has x m
passes-true m x = elim (has x m) as (λ b. (if b then true else false) ≡ b) [
  | true ↦ refl
  | false ↦ refl
]

none_left :
    (others : List Other) (x : ℤ) → (is_some others && in_other others x) ≡ in_other others x
none_left [] x = refl
none_left (other ∷ others) x = refl

union_rounds_lem :
    (s : Bool) (others : List Other) (x : ℤ)
    → union_rounds s others x ≡ (is_some others && (s || in_other others x))
union_rounds_lem s [] x = refl
union_rounds_lem true (itself ∷ others) x = refl
union_rounds_lem true (another other ∷ others) x = refl
union_rounds_lem false (itself ∷ others) x = union_rounds_lem false others x ∙ none_left others x
union_rounds_lem false (another other ∷ others) x =
    ap (λ b. has x other.keys || b) (union_rounds_lem false others x ∙ none_left others x)

diff_rounds_lem :
    (s : Bool) (others : List Other) (x : ℤ) → diff_rounds s others x ≡ (s && some_lacks others x)
diff_rounds_lem s [] x = sym (and_false s)
diff_rounds_lem s (itself ∷ others) x = diff_rounds_lem s others x
diff_rounds_lem true (another other ∷ others) x =
    rw (passes-false other.keys x, diff_rounds_lem true others x) refl
diff_rounds_lem false (another other ∷ others) x = diff_rounds_lem false others x

intersect_rounds_lem :
    (set : IntSet) (others : List Other) (x : ℤ)
    → intersect_rounds set others x ≡ (has x set.keys && (has_itself others || in_other others x))
intersect_rounds_lem set [] x = sym (and_false (has x set.keys))
intersect_rounds_lem set (itself ∷ others) x =
    rw (passes-true set.keys x, intersect_rounds_lem set others x)
      (absorb (has x set.keys) (has_itself others || in_other others x))
  where
    absorb : (a b : Bool) → ((a && a) || (a && b)) ≡ (a && true)
    absorb true b = refl
    absorb false b = refl
intersect_rounds_lem set (another other ∷ others) x =
    rw (passes-true other.keys x, intersect_rounds_lem set others x)
      (factor (has x set.keys) (has x other.keys) (has_itself others) (in_other others x))
  where
    factor : (a b c d : Bool) → ((a && b) || (a && (c || d))) ≡ (a && (c || (b || d)))
    factor false b c d = refl
    factor true true true d = refl
    factor true true false d = refl
    factor true false c d = refl

has-union_loop :
    (x : ℤ) (set : IntSet) (others : List Other) (m : List ℤ)
    → has x (union_loop set others m) ≡ (has x m || union_rounds (has x set.keys) others x)
unfolding union_loop
has-union_loop x set [] m = sym (or_false (has x m))
has-union_loop x set (itself ∷ others) m =
    has-union_loop x set others (put_keys set.keys m)
    ∙ ap (λ b. b || union_rounds (has x set.keys) others x) (has-put_keys x set.keys m)
    ∙ or_assoc (has x m) (has x set.keys) (union_rounds (has x set.keys) others x)
has-union_loop x set (another other ∷ others) m =
    has-union_loop x set others (put_keys other.keys (put_keys set.keys m))
    ∙ ap (λ b. b || union_rounds (has x set.keys) others x)
        (has-put_keys x other.keys (put_keys set.keys m)
          ∙ ap (λ b. b || has x other.keys) (has-put_keys x set.keys m)
          ∙ or_assoc (has x m) (has x set.keys) (has x other.keys))
    ∙ or_assoc (has x m) (has x set.keys || has x other.keys)
        (union_rounds (has x set.keys) others x)

has-diff_loop :
    (x : ℤ) (set : IntSet) (others : List Other) (m : List ℤ)
    → has x (diff_loop set others m) ≡ (has x m || diff_rounds (has x set.keys) others x)
unfolding diff_loop
has-diff_loop x set [] m = sym (or_false (has x m))
has-diff_loop x set (itself ∷ others) m = has-diff_loop x set others m
has-diff_loop x set (another other ∷ others) m =
    has-diff_loop x set others (put_if false other.keys set.keys m)
    ∙ ap (λ b. b || diff_rounds (has x set.keys) others x)
        (has-put_if x false other.keys set.keys m)
    ∙ or_assoc (has x m) (has x set.keys && passes false other.keys x)
        (diff_rounds (has x set.keys) others x)

has-intersect_loop :
    (x : ℤ) (set : IntSet) (others : List Other) (m : List ℤ)
    → has x (intersect_loop set others m) ≡ (has x m || intersect_rounds set others x)
unfolding intersect_loop
has-intersect_loop x set [] m = sym (or_false (has x m))
has-intersect_loop x set (other ∷ others) m =
    has-intersect_loop x set others (put_if true (keys_of set other) set.keys m)
    ∙ ap (λ b. b || intersect_rounds set others x)
        (has-put_if x true (keys_of set other) set.keys m)
    ∙ or_assoc (has x m) (has x set.keys && passes true (keys_of set other) x)
        (intersect_rounds set others x)

has-merge_loop :
    (x : ℤ) (others : List Other) (m : List ℤ)
    → has x (merge_loop others m) ≡ (has x m || in_other others x)
unfolding merge_loop
has-merge_loop x [] m = sym (or_false (has x m))
has-merge_loop x (itself ∷ others) m =
    has-merge_loop x others (put_keys m m)
    ∙ ap (λ b. b || in_other others x) (has-put_keys x m m ∙ twice (has x m))
  where
    twice : (a : Bool) → (a || a) ≡ a
    twice true = refl
    twice false = refl
has-merge_loop x (another other ∷ others) m =
    has-merge_loop x others (put_keys other.keys m)
    ∙ ap (λ b. b || in_other others x) (has-put_keys x other.keys m)
    ∙ or_assoc (has x m) (has x other.keys) (in_other others x)

-- What the set algebra returns. Union has the items of the set and of the others, and none at all
-- without others; Diff has the items of the set that one of the others lacks; Intersect has those
-- that one of the others has; Complement has the items of the full set that the set lacks; Merge
-- leaves the items of the set and of the others.
pub set_algebra :
    (set : IntSet) (others : List Other) (full : Other) (x : ℤ)
    → (contains (union set others) x ≡ (is_some others && (contains set x || in_other others x)))
      × (contains (diff set others) x ≡ (contains set x && some_lacks others x))
      × (contains (intersect set others) x
          ≡ (contains set x && (has_itself others || in_other others x)))
      × (contains (complement set full) x ≡ (has x (keys_of set full) && not (contains set x)))
      × (contains (merge set others) x ≡ (contains set x || in_other others x))
unfolding contains union diff intersect complement merge
set_algebra set others full x = (
  has-union_loop x set others [] ∙ union_rounds_lem (has x set.keys) others x,
  has-diff_loop x set others [] ∙ diff_rounds_lem (has x set.keys) others x,
  has-intersect_loop x set others [] ∙ intersect_rounds_lem set others x,
  has-put_if x false set.keys (keys_of set full) []
      ∙ ap (λ b. has x (keys_of set full) && b) (passes-false set.keys x),
  has-merge_loop x others set.keys,
)
