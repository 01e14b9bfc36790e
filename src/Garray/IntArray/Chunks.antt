-- ===== src/Garray/IntArray/Chunks.antt =====
-- What Chunk of IntArray returns.
use gf.Prelude.{
  ℕ, zero, suc, ◌+◌, ◌-◌, ◌*◌, ◌/◌, ◌≤◌, ◌<◌, ◌≡◌, refl, ◌∙◌, ap, sym, false, ltb, List, [], ◌∷◌,
  ◌++◌, length, length-append, take, drop, length-take, length-drop, arith,
}
use gf.Prelude.Int.{ℤ, pos, negsuc}
use gf.Prelude.Outcome.{ok, ◌>>=◌, Ensures, Ensures-bind}
use native.Mathlib.Nat.{div-add-mod, mod-lt}
use gf.Garray.IntArray.{IntArray}
use gf.Garray.IntArray.Cut.{chunk_loop, chunk}
use gf.Garray.IntArray.Parts.{drop_beyond, take-drop_append, slice_capped}

abbrev pub concat : List (List ℤ) → List ℤ
concat [] = []
concat (c ∷ cs) = c ++ concat cs

-- all chunks but the last have `size` elements, and the last has between 1 and `size`
abbrev pub IsChunked : ℕ → List (List ℤ) → Type 0
IsChunked size [] = Unit
IsChunked size (c ∷ []) = (1 ≤ length c) × (length c ≤ size)
IsChunked size (c ∷ d ∷ cs) = (length c ≡ size) × IsChunked size (d ∷ cs)

abbrev pub ChunksOf : ℕ → List ℤ → List (List ℤ) → Type 0
ChunksOf size a cs = (concat cs ≡ a) × IsChunked size cs

chunk_round :
    (chunks i size : ℕ) (a : List ℤ)
    → i * size ≤ length a
    → chunk_loop (suc chunks) i size a
      ≡ (chunk_loop chunks (i + 1) size a >>= λ cs. ok (take size (drop (i * size) a) ∷ cs))
unfolding chunk_loop
chunk_round chunks i size a h =
    let e : (i + 1) * size ≡ i * size + size = omega arith in
    rw (e, slice_capped (i * size) size a h) refl

IsChunked-cons :
    (size : ℕ) (c : List ℤ) (cs : List (List ℤ))
    → 0 < size
    → 1 ≤ length c
    → length c ≤ size
    → (0 < length (concat cs) → length c ≡ size)
    → IsChunked size cs
    → IsChunked size (c ∷ cs)
IsChunked-cons size c [] p l u full h = (l, u)
IsChunked-cons size c (d ∷ []) p l u full h = (full (omega (arith, length-append d [])), h)
IsChunked-cons size c (d ∷ e ∷ cs) p l u full h =
    (full (omega (arith, length-append d (concat (e ∷ cs)))), h)

ChunksOf-cons :
    (lo size : ℕ) (a : List ℤ) (cs : List (List ℤ))
    → 0 < size
    → lo < length a
    → ChunksOf size (drop (lo + size) a) cs
    → ChunksOf size (drop lo a) (take size (drop lo a) ∷ cs)
ChunksOf-cons lo size a cs p h (e, k) =
    let n = length-take size (drop lo a) in
    let n' = length-drop lo a in
    let rest : length (concat cs) ≡ length a - (lo + size) =
      ap length e ∙ length-drop (lo + size) a in
    (
      rw e (take-drop_append lo size a),
      IsChunked-cons size (take size (drop lo a)) cs p (omega arith) (omega arith)
          (λ q. omega arith) k,
    )

chunk_loop-done :
    (i size : ℕ) (a : List ℤ)
    → length a ≤ i * size
    → Ensures (ChunksOf size (drop (i * size) a)) (chunk_loop 0 i size a)
unfolding chunk_loop
chunk_loop-done i size a h = (sym (drop_beyond (i * size) a h), tt)

chunk_loop_lem :
    (chunks i size : ℕ) (a : List ℤ)
    → 0 < size
    → length a ≤ (i + chunks) * size
    → (i + chunks) * size < length a + size
    → Ensures (ChunksOf size (drop (i * size) a)) (chunk_loop chunks i size a)
chunk_loop_lem zero i size a p l u = chunk_loop-done i size a (omega arith)
chunk_loop_lem (suc chunks) i size a p l u =
    let e : (i + 1) * size ≡ i * size + size = omega arith in
    let ih : Ensures (ChunksOf size (drop (i * size + size) a)) (chunk_loop chunks (i + 1) size a) =
      rw e at (chunk_loop_lem chunks (i + 1) size a p (omega arith) (omega arith)) in
    rw (chunk_round chunks i size a (omega arith)) (
      Ensures-bind (ChunksOf size (drop (i * size + size) a)) (ChunksOf size (drop (i * size) a))
        (chunk_loop chunks (i + 1) size a) (λ cs. ok (take size (drop (i * size) a) ∷ cs)) ih
        (λ cs. ChunksOf-cons (i * size) size a cs p (omega arith)))

-- the quotient rounded up is the least number of chunks with room for the array
positive : (s : ℕ) → 0 < suc s
positive s = omega arith

rounded_up :
    (n s : ℕ)
    → (n ≤ ((n + suc s - 1) / suc s) * suc s) × (((n + suc s - 1) / suc s) * suc s < n + suc s)
rounded_up n s =
    let e = div-add-mod (n + suc s - 1) (suc s) in
    let l = mod-lt (n + suc s - 1) (positive s) in (omega arith, omega arith)

chunk-suc : (a : IntArray) (s : ℕ) → Ensures (ChunksOf (suc s) a.array) (chunk a (pos (suc s)))
unfolding chunk
chunk-suc a s =
    let chunks = (length a.array + suc s - 1) / suc s in
    let (l, u) = rounded_up (length a.array) s in
    let no_offset : 0 * suc s ≡ 0 = omega arith in
    let is_size : ltb (suc s) 1 ≡ false = ground arith in
    let all = chunk_loop_lem chunks 0 (suc s) a.array (positive s) (omega arith) (omega arith) in
    rw is_size (rw no_offset at all)

-- Chunk by a size of at least 1 returns without a panic. Its chunks one after the other are the
-- array; all but the last have the size, and the last is not empty and no longer than the size. For
-- other sizes there are no chunks.
pub chunk_lem :
    (a : IntArray) (n : ℕ)
    → Ensures (ChunksOf (suc n) a.array) (chunk a (pos (suc n)))
      × (chunk a (pos 0) ≡ ok [])
      × (chunk a (negsuc n) ≡ ok [])
unfolding chunk
chunk_lem a n = (chunk-suc a n, refl, refl)
