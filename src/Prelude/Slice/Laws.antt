-- ===== src/Prelude/Slice/Laws.antt =====
-- Taking apart, reading and writing a list at a position.
use gf.Prelude.Lists.{length, get_elem?, set, take, drop, length-append}
use Prim.Native.Nat.{ℕ, zero, suc, ◌+◌, ◌<◌}
use mathlib.Core.Path.{◌≡◌, refl, ap}
use mathlib.Core.Option.{some}
use mathlib.Core.List.{List, [], ◌∷◌, ◌++◌, append_assoc}
use native.Mathlib.Omega.{arith}

module _ {ℓ} {A : Type ℓ} where
  -- the list at a position inside it: what is before, the element, what is after
  pub split_at :
      (i : ℕ) (a : List A)
      → i < length a
      → (xs : List A) × (x : A) × (ys : List A) × (a ≡ xs ++ x ∷ ys) × (length xs ≡ i)
  split_at i [] h = absurd (omega arith)
  split_at zero (x ∷ a) h = ([], x, a, refl, refl)
  split_at (suc i) (x ∷ a) h =
      let (xs, y, ys, e, n) = split_at i a (omega arith) in (x ∷ xs, y, ys, ap (◌∷◌ x) e, ap suc n)

  pub take-append : (xs ys : List A) → take (length xs) (xs ++ ys) ≡ xs
  take-append [] ys = refl
  take-append (x ∷ xs) ys = ap (◌∷◌ x) (take-append xs ys)

  pub drop-append : (xs ys : List A) → drop (length xs) (xs ++ ys) ≡ ys
  drop-append [] ys = refl
  drop-append (x ∷ xs) ys = drop-append xs ys

  pub drop-append_suc :
      (xs : List A) (x : A) (ys : List A) → drop (suc (length xs)) (xs ++ x ∷ ys) ≡ ys
  drop-append_suc [] x ys = refl
  drop-append_suc (y ∷ xs) x ys = drop-append_suc xs x ys

  pub get_elem?-append :
      (xs : List A) (x : A) (ys : List A) → get_elem? (xs ++ x ∷ ys) (length xs) ≡ some x
  get_elem?-append [] x ys = refl
  get_elem?-append (y ∷ xs) x ys = get_elem?-append xs x ys

  pub set-append :
      (xs : List A) (x v : A) (ys : List A) → set (xs ++ x ∷ ys) (length xs) v ≡ xs ++ v ∷ ys
  set-append [] x v ys = refl
  set-append (y ∷ xs) x v ys = ap (◌∷◌ y) (set-append xs x v ys)

  pub take_all : (a : List A) → take (length a) a ≡ a
  take_all [] = refl
  take_all (x ∷ a) = ap (◌∷◌ x) (take_all a)

  -- the second of two elements that are singled out
  pub get_elem?-second :
      (xs : List A) (x : A) (ys : List A) (y : A) (zs : List A)
      → get_elem? (xs ++ x ∷ (ys ++ y ∷ zs)) (length xs + suc (length ys)) ≡ some y
  get_elem?-second xs x ys y zs =
      rw (← append_assoc xs (x ∷ ys) (y ∷ zs), ← length-append xs (x ∷ ys))
        (get_elem?-append (xs ++ x ∷ ys) y zs)

  pub set-second :
      (xs : List A) (x : A) (ys : List A) (y v : A) (zs : List A)
      → set (xs ++ x ∷ (ys ++ y ∷ zs)) (length xs + suc (length ys)) v ≡ xs ++ x ∷ (ys ++ v ∷ zs)
  set-second xs x ys y v zs =
      rw
        (
          ← append_assoc xs (x ∷ ys) (y ∷ zs),
          ← append_assoc xs (x ∷ ys) (v ∷ zs),
          ← length-append xs (x ∷ ys),
        )
        (set-append (xs ++ x ∷ ys) y v zs)
