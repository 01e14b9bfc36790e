-- ===== src/Garray/IntArray/Progression.antt =====
-- NewIntArrayRange: when its slice has room for the numbers that its loop writes.
use gf.Prelude.{
  ℕ, zero, suc, ◌+◌, ◌-◌, ◌*◌, ◌/◌, ◌%◌, ◌^◌, ◌≤◌, ◌<◌, ◌≡◌, refl, ◌∙◌, Bool, false, Bool-cases,
  inl, inr, ◌&&◌, ◌==◌, ltb, leb, lt→ltb, if◌then◌else◌, [], length-replicate, replicate, arith,
}
use gf.Prelude.Int.{ℤ, pos, negsuc, ◌+ℤ◌, ◌-ℤ◌, ltb_ℤ, sub_ℕ}
use gf.Prelude.Outcome.{ok, panic, ◌>>=◌}
use gf.Prelude.Word.{wrap, wrap-pos, IsInt, quotient}
use native.Mathlib.Nat.{div-add-mod}
use native.Mathlib.Decide.{dec_lt}
use gf.Garray.IntArray.{make, range_loop, range_size, new_int_array_range}
use gf.Garray.IntArray.Rounds.{progression, loop_panics, loop_fills, ends}

distance : (i : ℤ) (d : ℕ) → (i +ℤ pos d) -ℤ i ≡ pos d
unfolding ◌+ℤ◌ ◌-ℤ◌
distance (pos i) d = ground arith
distance (negsuc i) d = ground arith

distance_bound : (i : ℤ) (d : ℕ) → IsInt i → IsInt (i +ℤ pos d) → d < 2 ^ 64
unfolding ◌+ℤ◌
distance_bound (pos i) d h l = ground arith
distance_bound (negsuc i) d h l = ground arith

one_more : (d : ℕ) → pos d +ℤ pos 1 ≡ pos (d + 1)
unfolding ◌+ℤ◌
one_more d = ground arith

quotient-pos : (a b : ℕ) → quotient (pos a) (pos b) ≡ pos (a / b)
unfolding quotient
quotient-pos a b = refl

size_fits :
    (i : ℤ) (d s : ℕ)
    → d + 1 < 2 ^ 63
    → range_size i (i +ℤ pos d) (pos (suc s)) ≡ pos ((d + 1) / suc s)
unfolding range_size
size_fits i d s h =
    rw (distance i d, wrap-pos d (omega arith), one_more d, wrap-pos (d + 1) h)
      (quotient-pos (d + 1) (suc s))

not_above :
    (d s : ℕ)
    → 2 ^ 63 ≤ d + 1
    → d < 2 ^ 64
    → (w : ℕ) × (quotient (wrap (wrap (pos d) +ℤ pos 1)) (pos (suc s)) ≡ sub_ℕ 0 w)
unfolding ◌+ℤ◌ wrap quotient
not_above d s h l = elim (dec_lt (d + 1) (2 ^ 64)) [
  | no n ↦ (0, ground arith)
  | yes k ↦ ((2 ^ 64 - d - 1) / suc s, ground arith)
]

-- one more than the distance is no int: the size wraps to a number that is not above 0
size_wraps :
    (i : ℤ) (d s : ℕ)
    → 2 ^ 63 ≤ d + 1
    → d < 2 ^ 64
    → (w : ℕ) × (range_size i (i +ℤ pos d) (pos (suc s)) ≡ sub_ℕ 0 w)
unfolding range_size
size_wraps i d s h l = rw (distance i d) (not_above d s h l)

not_zero : (n : ℕ) → (suc n == 0) ≡ false
not_zero n = ground arith

module _ (max_len : ℕ) (i : ℤ) (d s : ℕ) (safe : Bool) (h : IsInt i) (l : IsInt (i +ℤ pos d)) where
  -- the loop over the slots that `make` gave
  made :
      (q : ℕ)
      → range_size i (i +ℤ pos d) (pos (suc s)) ≡ pos q
      → new_int_array_range max_len i (i +ℤ pos d) (pos (suc s)) safe ≡ (
          if leb q max_len
          then (range_loop (suc q) i (i +ℤ pos d) (pos (suc s)) (replicate q (pos 0)) 0 >>= λ xs.
              ok (record { safe = safe; array = xs }))
          else panic)
  unfolding new_int_array_range make
  made q e = elim (Bool-cases (leb q max_len)) [
    | inl f ↦ rw (e, not_zero s, f, length-replicate q (pos 0)) refl
    | inr f ↦ rw (e, not_zero s, f) refl
  ]

  panics_by :
      (q r : ℕ)
      → range_size i (i +ℤ pos d) (pos (suc s)) ≡ pos q
      → d ≡ q * suc s + r
      → new_int_array_range max_len i (i +ℤ pos d) (pos (suc s)) safe ≡ panic
  panics_by q r e f =
      let loop : range_loop (suc q) i (i +ℤ pos d) (pos (suc s)) (replicate q (pos 0)) 0 ≡ panic =
        rw (← f) at (loop_panics q i (suc s) r [] h (rw f at l)) in
      made q e ∙ rw loop (ground arith)

  fills_by :
      (q : ℕ)
      → range_size i (i +ℤ pos d) (pos (suc s)) ≡ pos (suc q)
      → d ≡ q * suc s + s
      → new_int_array_range max_len i (i +ℤ pos d) (pos (suc s)) safe ≡ (
          if leb (suc q) max_len && ltb_ℤ (i +ℤ pos d) (pos (2 ^ 63 - 1))
          then ok (record { safe = safe; array = progression i (suc s) (suc q) })
          else panic)
  fills_by q e f =
      let loop : range_loop (suc (suc q)) i (i +ℤ pos d) (pos (suc s)) (replicate (suc q) (pos 0)) 0
          ≡ (if ltb_ℤ (i +ℤ pos d) (pos (2 ^ 63 - 1))
              then ok (progression i (suc s) (suc q))
              else panic) =
        rw (← f) at (loop_fills q i s [] h (rw f at l))
        ∙ ends i d (pos (suc s)) (progression i (suc s) (suc q)) h l in
      made (suc q) e ∙ rw loop (ground arith)

  wrapped_panics :
      (w : ℕ)
      → range_size i (i +ℤ pos d) (pos (suc s)) ≡ sub_ℕ 0 w
      → new_int_array_range max_len i (i +ℤ pos d) (pos (suc s)) safe ≡ panic
  unfolding new_int_array_range make
  wrapped_panics zero e = panics_by 0 d e (omega arith)
  wrapped_panics (suc w) e =
      let below : sub_ℕ 0 (suc w) ≡ negsuc w = ground arith in rw (e, not_zero s, below) refl

-- the slots are as many as the numbers up to the end, and neither their number nor the index behind
-- the end is too large
abbrev pub fits : ℕ → ℤ → ℕ → ℕ → Bool
fits max_len start d s =
    (((d + 1) % suc s == 0) && ltb (d + 1) (2 ^ 63))
    && (leb ((d + 1) / suc s) max_len && ltb_ℤ (start +ℤ pos d) (pos (2 ^ 63 - 1)))

module _ (max_len : ℕ) (i : ℤ) (d s : ℕ) (safe : Bool) (h : IsInt i) (l : IsInt (i +ℤ pos d)) where
  by_remainder :
      (q r : ℕ)
      → range_size i (i +ℤ pos d) (pos (suc s)) ≡ pos q
      → suc s * q + r ≡ d + 1
      → new_int_array_range max_len i (i +ℤ pos d) (pos (suc s)) safe ≡ (
          if (r == 0) && (leb q max_len && ltb_ℤ (i +ℤ pos d) (pos (2 ^ 63 - 1)))
          then ok (record { safe = safe; array = progression i (suc s) q })
          else panic)
  by_remainder zero zero e f = absurd (omega arith)
  by_remainder (suc q) zero e f = fills_by max_len i d s safe h l q e (omega arith)
  by_remainder q (suc r) e f =
      panics_by max_len i d s safe h l q r e (omega arith) ∙ rw (not_zero r) refl

-- NewIntArrayRange from `start` to `start + d` by a step above 0 gives the numbers start, start +
-- step, ... up to the end if the step divides d + 1, d + 1 is an int, `make` has room for the numbers
-- and the end is not the greatest int; in all other cases it panics.
pub new_int_array_range_lem :
    (max_len : ℕ) (start : ℤ) (d s : ℕ) (safe : Bool)
    → IsInt start
    → IsInt (start +ℤ pos d)
    → new_int_array_range max_len start (start +ℤ pos d) (pos (suc s)) safe ≡ (
        if fits max_len start d s
        then ok (record { safe = safe; array = progression start (suc s) ((d + 1) / suc s) })
        else panic)
new_int_array_range_lem max_len start d s safe h l = elim (dec_lt (d + 1) (2 ^ 63)) [
  | yes k ↦
      by_remainder max_len start d s safe h l ((d + 1) / suc s) ((d + 1) % suc s)
        (size_fits start d s k) (div-add-mod (d + 1) (suc s))
      ∙ rw (lt→ltb (d + 1) (2 ^ 63) k) (ground arith)
  | no k ↦
      let (w, e) = size_wraps start d s (omega arith) (distance_bound start d h l) in
      let over : ltb (d + 1) (2 ^ 63) ≡ false = ground arith in
      wrapped_panics max_len start d s safe h l w e ∙ rw over (ground arith)
]
