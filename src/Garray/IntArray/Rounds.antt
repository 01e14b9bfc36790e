-- ===== src/Garray/IntArray/Rounds.antt =====
-- The rounds of the loop of NewIntArrayRange.
use gf.Prelude.{
  ℕ, zero, suc, ◌+◌, ◌-◌, ◌*◌, ◌^◌, ◌≡◌, refl, ◌∙◌, true, false, Bool-cases, inl, inr,
  if◌then◌else◌, List, [], ◌∷◌, ◌++◌, append_assoc, append-nil, length, length-append, replicate,
  arith,
}
use gf.Prelude.Int.{ℤ, pos, negsuc, ◌+ℤ◌, ltb_ℤ}
use gf.Prelude.Outcome.{ok, panic}
use gf.Prelude.Slice.{store}
use gf.Prelude.Word.{wrap, IsInt, wrap-IsInt}
use gf.Prelude.Slice.Laws.{set-append}
use gf.Garray.IntArray.{range_loop}

-- `n` numbers from `start` on
abbrev pub progression : ℤ → ℕ → ℕ → List ℤ
progression start step zero = []
progression start step (suc n) = start ∷ progression (start +ℤ pos step) step n

further : (i : ℤ) (step m : ℕ) → i +ℤ pos (step + m) ≡ (i +ℤ pos step) +ℤ pos m
unfolding ◌+ℤ◌
further (pos i) step m = ground arith
further (negsuc i) step m = ground arith

not_past : (i : ℤ) (m : ℕ) → ltb_ℤ (i +ℤ pos m) i ≡ false
unfolding ◌+ℤ◌
not_past (pos i) m = ground arith
not_past (negsuc i) m = ground arith

past : (i : ℤ) (m : ℕ) → ltb_ℤ (i +ℤ pos m) (i +ℤ pos (suc m)) ≡ true
unfolding ◌+ℤ◌
past (pos i) m = ground arith
past (negsuc i) m = ground arith

-- what is between two ints is one
between : (i : ℤ) (step m : ℕ) → IsInt i → IsInt (i +ℤ pos (step + m)) → IsInt (i +ℤ pos step)
unfolding ◌+ℤ◌
between (pos i) step m h l = ground arith
between (negsuc i) step m h l = ground arith

store_here :
    (pre : List ℤ) (z i : ℤ) (zs : List ℤ)
    → store (pre ++ z ∷ zs) (pos (length pre)) i ≡ ok (pre ++ i ∷ zs)
store_here pre z i zs = ground (arith, set-append pre z i zs, length-append pre (z ∷ zs))

-- a round that stores
round :
    (rounds : ℕ) (i : ℤ) (m : ℕ) (step : ℤ) (pre : List ℤ) (z : ℤ) (zs : List ℤ)
    → range_loop (suc rounds) i (i +ℤ pos m) step (pre ++ z ∷ zs) (length pre)
      ≡ range_loop rounds (wrap (i +ℤ step)) (i +ℤ pos m) step (pre ++ i ∷ zs) (length pre + 1)
unfolding range_loop
round rounds i m step pre z zs = rw (not_past i m, store_here pre z i zs) refl

-- a round that finds no slot
no_room :
    (rounds : ℕ) (i end step : ℤ) (slice : List ℤ)
    → ltb_ℤ end i ≡ false
    → range_loop (suc rounds) i end step slice (length slice) ≡ panic
unfolding range_loop
no_room rounds i end step slice h = rw h (ground arith)

finished :
    (rounds : ℕ) (i end step : ℤ) (slice : List ℤ) (index : ℕ)
    → ltb_ℤ end i ≡ true
    → range_loop (suc rounds) i end step slice index ≡ ok slice
unfolding range_loop
finished rounds i end step slice index h = rw h refl

-- a round where the next number is not past the end either
round_on :
    (rounds : ℕ) (i : ℤ) (m step : ℕ) (pre : List ℤ) (z : ℤ) (zs : List ℤ)
    → IsInt (i +ℤ pos step)
    → range_loop (suc rounds) i (i +ℤ pos (step + m)) (pos step) (pre ++ z ∷ zs) (length pre)
      ≡ range_loop rounds
          (i +ℤ pos step)
          ((i +ℤ pos step) +ℤ pos m)
          (pos step)
          ((pre ++ i ∷ []) ++ zs)
          (length (pre ++ i ∷ []))
round_on rounds i m step pre z zs h =
    let n : length pre + 1 ≡ length (pre ++ i ∷ []) = omega (arith, length-append pre (i ∷ [])) in
    round rounds i (step + m) (pos step) pre z zs
    ∙ rw (wrap-IsInt (i +ℤ pos step) h, ← further i step m, append_assoc pre (i ∷ []) zs, n) refl

-- the slots are one less than the numbers up to the end
pub loop_panics :
    (q : ℕ) (i : ℤ) (step r : ℕ) (pre : List ℤ)
    → IsInt i
    → IsInt (i +ℤ pos (q * step + r))
    → range_loop
        (suc q)
        i
        (i +ℤ pos (q * step + r))
        (pos step)
        (pre ++ replicate q (pos 0))
        (length pre)
      ≡ panic
loop_panics zero i step r pre h l =
    rw (append-nil pre)
      (no_room 0 i (i +ℤ pos (zero * step + r)) (pos step) pre (not_past i (zero * step + r)))
loop_panics (suc q) i step r pre h l =
    let split : suc q * step + r ≡ step + (q * step + r) = omega arith in
    let l' : IsInt (i +ℤ pos (step + (q * step + r))) = rw split at l in
    let next = between i step (q * step + r) h l' in
    rw split (
      round_on (suc q) i (q * step + r) step pre (pos 0) (replicate q (pos 0)) next
      ∙ loop_panics q (i +ℤ pos step) step r (pre ++ i ∷ []) next (rw (further i step _) at l'))

-- the slots are as many as the numbers up to the end: the state once they are written
pub loop_fills :
    (q : ℕ) (i : ℤ) (s : ℕ) (pre : List ℤ)
    → IsInt i
    → IsInt (i +ℤ pos (q * suc s + s))
    → range_loop
        (suc (suc q))
        i
        (i +ℤ pos (q * suc s + s))
        (pos (suc s))
        (pre ++ replicate (suc q) (pos 0))
        (length pre)
      ≡ range_loop 1
          (wrap (i +ℤ pos (suc (q * suc s + s))))
          (i +ℤ pos (q * suc s + s))
          (pos (suc s))
          (pre ++ progression i (suc s) (suc q))
          (length (pre ++ progression i (suc s) (suc q)))
loop_fills zero i s pre h l =
    let last : zero * suc s + s ≡ s = omega arith in
    let n : length pre + 1 ≡ length (pre ++ i ∷ []) = omega (arith, length-append pre (i ∷ [])) in
    rw last (round 1 i s (pos (suc s)) pre (pos 0) [] ∙ rw n refl)
loop_fills (suc q) i s pre h l =
    let split : suc q * suc s + s ≡ suc s + (q * suc s + s) = omega arith in
    let split' : suc (suc s + (q * suc s + s)) ≡ suc s + suc (q * suc s + s) = omega arith in
    let l' : IsInt (i +ℤ pos (suc s + (q * suc s + s))) = rw split at l in
    let next = between i (suc s) (q * suc s + s) h l' in
    let ih =
      loop_fills q (i +ℤ pos (suc s)) s (pre ++ i ∷ []) next (rw (further i (suc s) _) at l') in
    rw split (
      round_on (suc (suc q)) i (q * suc s + s) (suc s) pre (pos 0) (replicate (suc q) (pos 0)) next
      ∙ ih
      ∙ rw
          (
            split',
            further i (suc s) (suc (q * suc s + s)),
            further i (suc s) (q * suc s + s),
            append_assoc pre (i ∷ []) (progression (i +ℤ pos (suc s)) (suc s) (suc q)),
          )
          refl)

next_IsInt :
    (i : ℤ) (m : ℕ)
    → IsInt i
    → IsInt (i +ℤ pos m)
    → ltb_ℤ (i +ℤ pos m) (pos (2 ^ 63 - 1)) ≡ true
    → IsInt (i +ℤ pos (suc m))
unfolding ◌+ℤ◌
next_IsInt (pos i) m h l e = ground arith
next_IsInt (negsuc i) m h l e = ground arith

wrapped_below :
    (i : ℤ) (m : ℕ)
    → IsInt i
    → IsInt (i +ℤ pos m)
    → ltb_ℤ (i +ℤ pos m) (pos (2 ^ 63 - 1)) ≡ false
    → ltb_ℤ (i +ℤ pos m) (wrap (i +ℤ pos (suc m))) ≡ false
unfolding ◌+ℤ◌ wrap
wrapped_below (pos i) m h l e = ground arith
wrapped_below (negsuc i) m h l e = ground arith

-- the round after the last number: the index wraps where the end is the greatest int
pub ends :
    (i : ℤ) (m : ℕ) (step : ℤ) (slice : List ℤ)
    → IsInt i
    → IsInt (i +ℤ pos m)
    → range_loop 1 (wrap (i +ℤ pos (suc m))) (i +ℤ pos m) step slice (length slice)
      ≡ (if ltb_ℤ (i +ℤ pos m) (pos (2 ^ 63 - 1)) then ok slice else panic)
ends i m step slice h l = elim (Bool-cases (ltb_ℤ (i +ℤ pos m) (pos (2 ^ 63 - 1)))) [
  | inl e ↦
      rw (e, wrap-IsInt (i +ℤ pos (suc m)) (next_IsInt i m h l e))
        (finished 0 (i +ℤ pos (suc m)) (i +ℤ pos m) step slice (length slice) (past i m))
  | inr e ↦
      rw e (no_room 0 (wrap (i +ℤ pos (suc m))) (i +ℤ pos m) step slice (wrapped_below i m h l e))
]
