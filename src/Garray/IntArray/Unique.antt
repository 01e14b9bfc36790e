-- ===== src/Garray/IntArray/Unique.antt =====
-- Unique of IntArray: what it keeps.
use gf.Prelude.{
  ℕ, zero, suc, ◌+◌, ◌≤◌, ◌<◌, ◌≡◌, refl, ◌∙◌, ap, sym, Bool, true, false, ◌||◌, lt→ltb,
  if◌then◌else◌, Bool-cases, inl, inr, List, [], ◌∷◌, ◌++◌, length, append_assoc, length-append,
  get_elem?, some, arith,
}
use gf.Prelude.Int.{ℤ}
use gf.Prelude.Outcome.{ok, Ensures, Ensures-bind, Ensures-map, ◌>>=◌}
use native.Mathlib.Decide.{dec_lt}
use gf.Prelude.Slice.{eq_ℤ}
use gf.Prelude.Slice.Laws.{split_at, get_elem?-append, take-append, drop-append_suc}
use gf.Garray.IntArray.{IntArray}
use gf.Garray.IntArray.Scan.{unique_inner, unique_outer, unique}
use gf.Garray.IntArray.Filter.{eq_ℤ→eq, eq_ℤ-refl}

-- an element of the list is `v`
abbrev pub member : ℤ → List ℤ → Bool
member v [] = false
member v (x ∷ xs) = eq_ℤ x v || member v xs

member-append : (v : ℤ) (xs ys : List ℤ) → member v (xs ++ ys) ≡ (member v xs || member v ys)
member-append v [] ys = refl
member-append v (x ∷ xs) ys = ground (arith, member-append v xs ys)

member-get_elem? : (xs : List ℤ) (i : ℕ) (x : ℤ) → get_elem? xs i ≡ some x → member x xs ≡ true
member-get_elem? [] i x h = ground arith
member-get_elem? (y ∷ xs) zero x h = ground (arith, eq_ℤ-refl x)
member-get_elem? (y ∷ xs) (suc i) x h = ground (arith, member-get_elem? xs i x h)

-- an element that is in the front as well may go
member-repeat :
    (v x : ℤ) (front rear : List ℤ)
    → member x front ≡ true
    → member v (front ++ x ∷ rear) ≡ member v (front ++ rear)
member-repeat v x front rear h = elim (Bool-cases (eq_ℤ x v)) [
  | inl e ↦
      let k : member v front ≡ true = ap (λ y. member y front) (sym (eq_ℤ→eq x v e)) ∙ h in
      rw (member-append v front (x ∷ rear), member-append v front rear, k) refl
  | inr e ↦ rw (member-append v front (x ∷ rear), member-append v front rear, e) refl
]

inner_round :
    (fuel : ℕ) (p : List ℤ) (x : ℤ) (q : List ℤ) (y : ℤ) (rear : List ℤ)
    → unique_inner (suc fuel) (length p) (length (p ++ x ∷ q)) ((p ++ x ∷ q) ++ y ∷ rear)
      ≡ unique_inner fuel
          (length p)
          (length (p ++ x ∷ q) + 1)
          (if eq_ℤ x y then (p ++ x ∷ q) ++ rear else (p ++ x ∷ q) ++ y ∷ rear)
unfolding unique_inner
inner_round fuel p x q y rear =
    let front = p ++ x ∷ q in
    let e : get_elem? (front ++ y ∷ rear) (length p) ≡ some x =
      rw (append_assoc p (x ∷ q) (y ∷ rear)) (get_elem?-append p x (q ++ y ∷ rear)) in
    ground (
      arith,
      e,
      get_elem?-append front y rear,
      take-append front (y ∷ rear),
      drop-append_suc front y rear,
      length-append front (y ∷ rear),
    )

-- the same elements, and no more of them
abbrev pub SameMembers : List ℤ → List ℤ → Type 0
SameMembers a b = (length b ≤ length a) × ((v : ℤ) → member v b ≡ member v a)

inner_done : (fuel i j : ℕ) (a : List ℤ) → length a ≤ j → unique_inner (suc fuel) i j a ≡ ok a
unfolding unique_inner
inner_done fuel i j a h = ground arith

-- one round of the inner loop, and the list that it goes on with
abbrev Advance : ℕ → ℕ → List ℤ → Type 0
Advance i j a =
    (b : List ℤ) × SameMembers a b
    × ((fuel : ℕ) → unique_inner (suc fuel) i j a ≡ unique_inner fuel i (j + 1) b)

inner_step-split :
    (p : List ℤ) (x : ℤ) (q : List ℤ) (y : ℤ) (rear : List ℤ)
    → Advance (length p) (length (p ++ x ∷ q)) ((p ++ x ∷ q) ++ y ∷ rear)
inner_step-split p x q y rear = elim (Bool-cases (eq_ℤ x y)) [
  | inl e ↦
      let front = p ++ x ∷ q in
      let here : member y front ≡ true =
        member-get_elem? front (length p) y (get_elem?-append p x q ∙ ap some (eq_ℤ→eq x y e)) in
      (
        front ++ rear,
        (
          omega (arith, length-append front (y ∷ rear), length-append front rear),
          λ v. sym (member-repeat v y front rear here),
        ),
        λ fuel. inner_round fuel p x q y rear ∙ rw e refl,
      )
  | inr e ↦ (
    (p ++ x ∷ q) ++ y ∷ rear,
    (omega arith, λ v. refl),
    λ fuel. inner_round fuel p x q y rear ∙ rw e refl,
  )
]

inner_step : (i j : ℕ) (a : List ℤ) → i < j → j < length a → Advance i j a
inner_step i j a h l =
    let (front, y, rear, e, n) = split_at j a l in
    let (p, x, q, e', m) = split_at i front (omega arith) in
    rw (← e', n, m, ← e) at (inner_step-split p x q y rear)

SameMembers-trans : (a b c : List ℤ) → SameMembers a b → SameMembers b c → SameMembers a c
SameMembers-trans a b c (l, m) (l', m') = (omega arith, λ v. m' v ∙ m v)

-- One unit of fuel more than there are elements left is enough.
unique_inner_lem :
    (k i j : ℕ) (a : List ℤ)
    → i < j
    → length a ≤ j + k
    → Ensures (SameMembers a) (unique_inner (suc k) i j a)
unique_inner_lem zero i j a h f = rw (inner_done 0 i j a (omega arith)) (omega arith, λ v. refl)
unique_inner_lem (suc k) i j a h f = elim (dec_lt j (length a)) [
  | no n ↦ rw (inner_done (suc k) i j a (omega arith)) (omega arith, λ v. refl)
  | yes l ↦
      let (b, s, e) = inner_step i j a h l in
      rw (e (suc k)) (
        Ensures-map (SameMembers b) (SameMembers a) (unique_inner (suc k) i (j + 1) b)
          (unique_inner_lem k i (j + 1) b (omega arith) (omega (arith, s.0)))
          (λ c. SameMembers-trans a b c s))
]

outer_done : (fuel i : ℕ) (a : List ℤ) → length a ≤ i + 1 → unique_outer (suc fuel) i a ≡ ok a
unfolding unique_outer
outer_done fuel i a h = ground arith

outer_round :
    (fuel i : ℕ) (a : List ℤ)
    → i + 1 < length a
    → unique_outer (suc fuel) i a
      ≡ (unique_inner (suc (length a)) i (i + 1) a >>= λ b. unique_outer fuel (i + 1) b)
unfolding unique_outer
outer_round fuel i a h = rw (lt→ltb (i + 1) (length a) h) refl

unique_outer_lem :
    (k i : ℕ) (a : List ℤ)
    → length a ≤ i + 1 + k
    → Ensures (SameMembers a) (unique_outer (suc k) i a)
unique_outer_lem zero i a f = rw (outer_done 0 i a (omega arith)) (omega arith, λ v. refl)
unique_outer_lem (suc k) i a f = elim (dec_lt (i + 1) (length a)) [
  | no n ↦ rw (outer_done (suc k) i a (omega arith)) (omega arith, λ v. refl)
  | yes l ↦ rw (outer_round (suc k) i a l) (
      Ensures-bind (SameMembers a) (SameMembers a) (unique_inner (suc (length a)) i (i + 1) a)
        (λ b. unique_outer (suc k) (i + 1) b)
        (unique_inner_lem (length a) i (i + 1) a (omega arith) (omega arith))
        (λ b s.
          Ensures-map (SameMembers b) (SameMembers a) (unique_outer (suc k) (i + 1) b)
            (unique_outer_lem k (i + 1) b (omega (arith, s.0))) (λ c. SameMembers-trans a b c s)))
]

-- Unique returns, within the rounds given to its loops and without a panic, and the array that it
-- leaves is no longer than before and has the same values in it.
pub unique-SameMembers :
    (a : IntArray) → Ensures (λ b. (b.safe ≡ a.safe) × SameMembers a.array b.array) (unique a)
unfolding unique
unique-SameMembers a =
    Ensures-bind (SameMembers a.array)
      (λ (b : IntArray). (b.safe ≡ a.safe) × SameMembers a.array b.array)
      (unique_outer (suc (length a.array)) 0 a.array) (λ xs. ok (record a { array = xs }))
      (unique_outer_lem (length a.array) 0 a.array (omega arith)) (λ xs s. (refl, s))
