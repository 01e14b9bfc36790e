-- ===== src/Gset/IntSet/Keys.antt =====
-- The keys of a map after its operations: what it has, and that it has every key once.
use gf.Prelude.{
  ◌≡◌, refl, ◌∙◌, ap, sym, Bool, true, false, not, ◌||◌, ◌&&◌, if◌then◌else◌, List, [], ◌∷◌, ◌++◌,
  arith, Bool-cases, inl, inr,
}
use gf.Prelude.Int.{ℤ}
use gf.Prelude.Slice.{eq_ℤ}
use gf.Garray.IntArray.Filter.{eq_ℤ→eq}
use gf.Gset.IntSet.{has, put_key, put_keys, delete_key, put_if}

-- every key of the list stands there once
abbrev pub IsDistinct : List ℤ → Type 0
IsDistinct [] = Unit
IsDistinct (k ∷ ks) = (has k ks ≡ false) × IsDistinct ks

pub or_assoc : (a b c : Bool) → ((a || b) || c) ≡ (a || (b || c))
or_assoc true b c = refl
or_assoc false b c = refl

pub or_comm : (a b : Bool) → (a || b) ≡ (b || a)
or_comm true true = refl
or_comm true false = refl
or_comm false true = refl
or_comm false false = refl

pub eq_ℤ_sym : (a b : ℤ) → eq_ℤ a b ≡ eq_ℤ b a
eq_ℤ_sym a b = elim (Bool-cases (eq_ℤ a b)) [
  | inl e ↦ rw (eq_ℤ→eq a b e) refl
  | inr e ↦ elim (Bool-cases (eq_ℤ b a)) [ inl f ↦ rw (eq_ℤ→eq b a f) refl | inr f ↦ e ∙ sym f ]
]

pub has-append : (x : ℤ) (xs ys : List ℤ) → has x (xs ++ ys) ≡ (has x xs || has x ys)
has-append x [] ys = refl
has-append x (j ∷ xs) ys =
    ap (λ b. eq_ℤ x j || b) (has-append x xs ys) ∙ sym (or_assoc (eq_ℤ x j) (has x xs) (has x ys))

-- a key that equals one of the list
pub has_eq : (x k : ℤ) (m : List ℤ) → eq_ℤ x k ≡ true → has k m ≡ true → has x m ≡ true
has_eq x k m e h = rw (eq_ℤ→eq x k e) h

pub and_false : (a : Bool) → (a && false) ≡ false
and_false true = refl
and_false false = refl

pub and_true : (a : Bool) → (a && true) ≡ a
and_true true = refl
and_true false = refl

pub or_false : (a : Bool) → (a || false) ≡ a
or_false true = refl
or_false false = refl

pub has-put_key : (x k : ℤ) (m : List ℤ) → has x (put_key k m) ≡ (has x m || eq_ℤ x k)
unfolding put_key
has-put_key x k m = elim (Bool-cases (has k m)) [
  | inr h ↦ rw h (has-append x m (k ∷ []) ∙ ap (λ b. has x m || b) (or_false (eq_ℤ x k)))
  | inl h ↦ rw h (elim (Bool-cases (eq_ℤ x k)) [
    | inl e ↦ rw (has_eq x k m e h) refl
    | inr e ↦ rw e (sym (or_false (has x m)))
  ])
]

append-IsDistinct : (k : ℤ) (m : List ℤ) → has k m ≡ false → IsDistinct m → IsDistinct (m ++ k ∷ [])
append-IsDistinct k [] h d = (refl, tt)
append-IsDistinct k (j ∷ js) h d = (fresh, append-IsDistinct k js (ground arith) d.1)
  where
    fresh : has j (js ++ k ∷ []) ≡ false
    fresh = rw (has-append j js (k ∷ []), d.0, eq_ℤ_sym j k) (ground arith)

pub put_key-IsDistinct : (k : ℤ) (m : List ℤ) → IsDistinct m → IsDistinct (put_key k m)
unfolding put_key
put_key-IsDistinct k m d = elim (Bool-cases (has k m)) [
  | inl h ↦ rw h d
  | inr h ↦ rw h (append-IsDistinct k m h d)
]

pub has-put_keys : (x : ℤ) (from m : List ℤ) → has x (put_keys from m) ≡ (has x m || has x from)
unfolding put_keys
has-put_keys x [] m = sym (or_false (has x m))
has-put_keys x (k ∷ from) m =
    has-put_keys x from (put_key k m)
    ∙ ap (λ b. b || has x from) (has-put_key x k m)
    ∙ or_assoc (has x m) (eq_ℤ x k) (has x from)

pub put_keys-IsDistinct : (from m : List ℤ) → IsDistinct m → IsDistinct (put_keys from m)
unfolding put_keys
put_keys-IsDistinct [] m d = d
put_keys-IsDistinct (k ∷ from) m d =
    put_keys-IsDistinct from (put_key k m) (put_key-IsDistinct k m d)

-- whether a key passes the test of `put_if`
abbrev pub passes : Bool → List ℤ → ℤ → Bool
passes want filter k = if has k filter then want else not want

passes_eq :
    (want : Bool) (filter : List ℤ) (x k : ℤ)
    → eq_ℤ x k ≡ true
    → passes want filter k ≡ passes want filter x
passes_eq want filter x k e = rw (eq_ℤ→eq x k e) refl

-- one key of `put_if`
has-put_passing :
    (x k : ℤ) (b c : Bool) (m : List ℤ)
    → (eq_ℤ x k ≡ true → b ≡ c)
    → has x (if b then put_key k m else m) ≡ (has x m || (eq_ℤ x k && c))
has-put_passing x k b c m same = elim (Bool-cases (eq_ℤ x k)) [
  | inr e ↦ elim (Bool-cases b) [
    | inl t ↦ rw (t, e) (has-put_key x k m ∙ ap (λ d. has x m || d) e)
    | inr t ↦ rw (t, e) (sym (or_false (has x m)))
  ]
  | inl e ↦ elim (Bool-cases b) [
    | inl t ↦ rw (t, e, sym (same e) ∙ t) (has-put_key x k m ∙ ap (λ d. has x m || d) e)
    | inr t ↦ rw (t, e, sym (same e) ∙ t) (sym (or_false (has x m)))
  ]
]

-- after `put_if` the map has besides the keys of `from` that pass
pub has-put_if :
    (x : ℤ) (want : Bool) (filter from m : List ℤ)
    → has x (put_if want filter from m) ≡ (has x m || (has x from && passes want filter x))
unfolding put_if
has-put_if x want filter [] m = sym (or_false (has x m))
has-put_if x want filter (k ∷ from) m =
    has-put_if x want filter from (if passes want filter k then put_key k m else m)
    ∙ ap (λ b. b || (has x from && passes want filter x))
        (has-put_passing x k (passes want filter k) (passes want filter x) m
          (λ e. passes_eq want filter x k e))
    ∙ distribute (has x m) (eq_ℤ x k) (has x from) (passes want filter x)
  where
    distribute : (a b c d : Bool) → ((a || (b && d)) || (c && d)) ≡ (a || ((b || c) && d))
    distribute true b c d = refl
    distribute false true c true = refl
    distribute false true true false = refl
    distribute false true false false = refl
    distribute false false c d = refl

pub put_if-IsDistinct :
    (want : Bool) (filter from m : List ℤ) → IsDistinct m → IsDistinct (put_if want filter from m)
unfolding put_if
put_if-IsDistinct want filter [] m d = d
put_if-IsDistinct want filter (k ∷ from) m d =
    put_if-IsDistinct want filter from (if passes want filter k then put_key k m else m)
      (elim (passes want filter k) as (λ b. IsDistinct (if b then put_key k m else m)) [
        | true ↦ put_key-IsDistinct k m d
        | false ↦ d
      ])

-- Deleting takes the key out, once.
pub has-delete_key :
    (x k : ℤ) (m : List ℤ) → IsDistinct m → has x (delete_key k m) ≡ (has x m && not (eq_ℤ x k))
unfolding delete_key
has-delete_key x k [] d = refl
has-delete_key x k (j ∷ js) d = elim (Bool-cases (eq_ℤ k j)) [
  | inl e ↦ rw e (elim (Bool-cases (eq_ℤ x k)) [
    | inl f ↦ rw (f, and_false (eq_ℤ x j || has x js), eq_ℤ→eq x k f, eq_ℤ→eq k j e) d.0
    | inr f ↦ rw (f, and_true (eq_ℤ x j || has x js), sym (ap (eq_ℤ x) (eq_ℤ→eq k j e)) ∙ f) refl
  ])
  | inr e ↦
      rw (e, has-delete_key x k js d.1)
        (elim (Bool-cases (eq_ℤ x j)) [
          | inr f ↦ rw f refl
          | inl f ↦ rw (f, ap (λ y. eq_ℤ y k) (eq_ℤ→eq x j f) ∙ eq_ℤ_sym j k ∙ e) refl
        ])
]

pub delete_key-IsDistinct : (k : ℤ) (m : List ℤ) → IsDistinct m → IsDistinct (delete_key k m)
unfolding delete_key
delete_key-IsDistinct k [] d = tt
delete_key-IsDistinct k (j ∷ js) d = elim (Bool-cases (eq_ℤ k j)) [
  | inl e ↦ rw e d.1
  | inr e ↦
      let fresh : has j (delete_key k js) ≡ false =
        has-delete_key j k js d.1 ∙ ap (λ b. b && not (eq_ℤ j k)) d.0 in
      rw e (fresh, delete_key-IsDistinct k js d.1)
]
