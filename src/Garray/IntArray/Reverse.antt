-- ===== src/Garray/IntArray/Reverse.antt =====
-- Reverse of IntArray, which swaps in place, reverses.
use gf.Prelude.{
  ℕ, zero, suc, ◌+◌, ◌-◌, ◌≤◌, ◌≡◌, refl, ◌∙◌, ap, sym, subst, List, [], ◌∷◌, ◌++◌, append_assoc,
  append-nil, reverse, reverse-append, length, length-append, arith,
}
use gf.Prelude.Int.{ℤ}
use gf.Prelude.Outcome.{ok}
use gf.Prelude.Slice.Laws.{get_elem?-append, set-append, get_elem?-second, set-second}
use gf.Garray.IntArray.{IntArray}
use gf.Garray.IntArray.Scan.{reverse_loop, reverse_array}

-- a round swaps the ends of what is left
reverse_round :
    (fuel : ℕ) (pre : List ℤ) (x : ℤ) (m : List ℤ) (y : ℤ) (post : List ℤ)
    → reverse_loop
        (suc fuel)
        (length pre)
        (length pre + suc (length m))
        (pre ++ x ∷ (m ++ y ∷ post))
      ≡ reverse_loop fuel
          (length pre + 1)
          (length pre + suc (length m) - 1)
          (pre ++ y ∷ (m ++ x ∷ post))
unfolding reverse_loop
reverse_round fuel pre x m y post = ground (
  arith,
  get_elem?-append pre x (m ++ y ∷ post),
  get_elem?-second pre x m y post,
  set-append pre x y (m ++ y ∷ post),
  set-second pre y m y x post,
  length-append pre (x ∷ (m ++ y ∷ post)),
  length-append pre (y ∷ (m ++ y ∷ post)),
  length-append m (y ∷ post),
)

unsnoc : (z : ℤ) (zs : List ℤ) → (m : List ℤ) × (y : ℤ) × (z ∷ zs ≡ m ++ y ∷ [])
unsnoc z [] = ([], z, refl)
unsnoc z (w ∷ zs) = let (m, y, e) = unsnoc w zs in (z ∷ m, y, ap (◌∷◌ z) e)

reverse-ends :
    (x : ℤ) (m : List ℤ) (y : ℤ) → reverse (x ∷ (m ++ y ∷ [])) ≡ y ∷ (reverse m ++ x ∷ [])
reverse-ends x m y = rw (reverse-append (x ∷ []) (m ++ y ∷ []), reverse-append m (y ∷ [])) refl

-- the round before the last `fuel` ones
reverse_loop_step :
    (fuel : ℕ) (pre : List ℤ) (x : ℤ) (m : List ℤ) (y : ℤ) (post : List ℤ)
    → reverse_loop fuel
        (length (pre ++ y ∷ []))
        (length (pre ++ y ∷ []) + length m - 1)
        ((pre ++ y ∷ []) ++ (m ++ x ∷ post))
      ≡ ok ((pre ++ y ∷ []) ++ (reverse m ++ x ∷ post))
    → reverse_loop
        (suc fuel)
        (length pre)
        (length pre + length (x ∷ (m ++ y ∷ [])) - 1)
        (pre ++ ((x ∷ (m ++ y ∷ [])) ++ post))
      ≡ ok (pre ++ (reverse (x ∷ (m ++ y ∷ [])) ++ post))
reverse_loop_step fuel pre x m y post ih =
    let n : length pre + suc (length (m ++ y ∷ [])) - 1 ≡ length pre + suc (length m) =
      omega (arith, length-append m (y ∷ [])) in
    let i : length (pre ++ y ∷ []) ≡ length pre + 1 = omega (arith, length-append pre (y ∷ [])) in
    let j : length (pre ++ y ∷ []) + length m - 1 ≡ length pre + suc (length m) - 1 =
      omega (arith, length-append pre (y ∷ [])) in
    let ih' =
      rw
        (
          j,
          i,
          append_assoc pre (y ∷ []) (m ++ x ∷ post),
          append_assoc pre (y ∷ []) (reverse m ++ x ∷ post),
        )
        at ih in
    rw (n, append_assoc m (y ∷ []) post, reverse-ends x m y, append_assoc (reverse m) (x ∷ []) post)
      (reverse_round fuel pre x m y post ∙ ih')

reverse_loop_lem :
    (fuel : ℕ) (pre mid post : List ℤ)
    → length mid ≤ fuel
    → reverse_loop fuel (length pre) (length pre + length mid - 1) (pre ++ (mid ++ post))
      ≡ ok (pre ++ (reverse mid ++ post))
unfolding reverse_loop
reverse_loop_lem zero pre [] post h = refl
reverse_loop_lem zero pre (x ∷ mid) post h = absurd (omega arith)
reverse_loop_lem (suc fuel) pre [] post h = ground arith
reverse_loop_lem (suc fuel) pre (x ∷ []) post h = ground arith
reverse_loop_lem (suc fuel) pre (x ∷ z ∷ zs) post h =
    let (m, y, e) = unsnoc z zs in
    subst
      (λ l.
        reverse_loop (suc fuel) (length pre) (length pre + length (x ∷ l) - 1)
          (pre ++ ((x ∷ l) ++ post))
        ≡ ok (pre ++ (reverse (x ∷ l) ++ post)))
      (sym e)
      (reverse_loop_step fuel pre x m y post (
        reverse_loop_lem fuel (pre ++ y ∷ []) m (x ∷ post)
          (omega (arith, ap length e, length-append m (y ∷ [])))))

-- Reverse returns, and turns the order of the elements round.
pub reverse_array_lem : (a : IntArray) → reverse_array a ≡ ok (record a { array = reverse a.array })
unfolding reverse_array
reverse_array_lem a =
    let n : 0 + length a.array - 1 ≡ length a.array - 1 = omega arith in
    let e = reverse_loop_lem (length a.array) [] a.array [] (omega arith) in
    rw (rw (n, append-nil a.array, append-nil (reverse a.array)) at e) refl
