-- ===== src/Garray/IntArray/Cut.antt =====
-- container/garray/garray_normal_int.go: the methods of IntArray that cut or extend it.
use gf.Prelude.{
  ℕ, zero, suc, ◌+◌, ◌-◌, ◌*◌, ◌/◌, ◌||◌, ltb, ◌==◌, if◌then◌else◌, List, [], ◌∷◌, ◌++◌, Option,
  none, some, length, set, replicate,
}
use gf.Prelude.Int.{ℤ, pos, negsuc, pos_part, ◌+ℤ◌, ◌-ℤ◌, ltb_ℤ}
use gf.Prelude.Word.{wrap}
use gf.Prelude.Outcome.{Outcome, ok, ◌>>=◌}
use gf.Prelude.Slice.{slice_from, slice_to, slice}
use gf.Garray.IntArray.{IntArray, count}

unfoldable pub pop_lefts : IntArray → ℤ → Outcome (IntArray × List ℤ)
pop_lefts a size = do
  let size' = if ltb_ℤ (count a.array) size then count a.array else size
  value ← slice a.array (pos 0) size'
  rest ← slice_from a.array size'
  ok (record a { array = rest }, value)

-- Where the length minus the size wraps, the index is below 0 and all elements go.
unfoldable pub pop_rights : IntArray → ℤ → Outcome (IntArray × List ℤ)
pop_rights a size = do
  let index = wrap (count a.array -ℤ size)
  let index' = if ltb_ℤ index (pos 0) then pos 0 else index
  value ← slice_from a.array index'
  rest ← slice_to a.array index'
  ok (record a { array = rest }, value)

-- `Range`: a nil result is `none`. In safe mode the result is a copy of the same elements.
unfoldable pub range : IntArray → ℤ → Option ℤ → Outcome (Option (List ℤ))
range a start end = do
  let offset_end : ℤ = elim end [
    | some e ↦ if ltb_ℤ e (count a.array) then e else count a.array
    | none ↦ count a.array
  ]
  let start' = if ltb_ℤ start (pos 0) then pos 0 else start
  let cut = slice a.array start' offset_end >>= λ xs. ok (some xs)
  if ltb_ℤ offset_end start then ok none else cut

-- The tail of `SubSlice`, from an offset and a size that are settled. Where the sum wraps, the end is
-- below 0: the slice expression panics, and in safe mode so does `make`, as no slice has that size.
unfoldable pub sub_slice_end : List ℤ → ℤ → ℤ → Outcome (Option (List ℤ))
sub_slice_end a offset size = do
  let end = wrap (offset +ℤ size)
  let end' = if ltb_ℤ (count a) end then count a else end
  xs ← slice a offset end'
  ok (some xs)

unfoldable pub sub_slice_size : List ℤ → ℤ → ℤ → Outcome (Option (List ℤ))
unfolding sub_slice_end
sub_slice_size a offset size =
    if ltb_ℤ size (pos 0)
    then (if ltb_ℤ (offset +ℤ size) (pos 0)
        then ok none
        else sub_slice_end a (offset +ℤ size) (pos 0 -ℤ size))
    else sub_slice_end a offset size

-- `SubSlice`
unfoldable pub sub_slice : IntArray → ℤ → Option ℤ → Outcome (Option (List ℤ))
unfolding sub_slice_size
sub_slice a offset given =
    let size : ℤ = elim given [ some l ↦ l | none ↦ count a.array ] in
    let offset' = count a.array +ℤ offset in
    if ltb_ℤ (count a.array) offset
    then ok none
    else if ltb_ℤ offset (pos 0)
    then (if ltb_ℤ offset' (pos 0) then ok none else sub_slice_size a.array offset' size)
    else sub_slice_size a.array offset size

-- the loop of `Fill`, for the rounds left
unfoldable pub fill_loop : ℕ → ℕ → ℤ → List ℤ → List ℤ
fill_loop zero i value a = a
fill_loop (suc n) i value a =
    fill_loop n (i + 1) value (if ltb i (length a) then set a i value else a ++ value ∷ [])

-- `Fill`: the loop has no round where its bound, which may wrap, is not above the start.
unfoldable pub fill : IntArray → ℤ → ℤ → ℤ → IntArray
unfolding fill_loop
fill a start num value =
    let i = pos_part start in
    let bound = wrap (pos i +ℤ num) in
    record a { array = fill_loop (pos_part (bound -ℤ pos i)) i value a.array }

-- the loop of `Chunk`, for the chunks left
unfoldable pub chunk_loop : ℕ → ℕ → ℕ → List ℤ → Outcome (List (List ℤ))
chunk_loop zero i size a = ok []
chunk_loop (suc chunks) i size a = do
  let end = (i + 1) * size
  c ← slice a (pos (i * size)) (pos (if ltb (length a) end then length a else end))
  cs ← chunk_loop chunks (i + 1) size a
  ok (c ∷ cs)

-- `Chunk`: the float quotient, rounded up, is exact for the lengths that fit in memory.
unfoldable pub chunk : IntArray → ℤ → Outcome (List (List ℤ))
unfolding chunk_loop
chunk a (negsuc n) = ok []
chunk a (pos size) =
    if ltb size 1 then ok [] else chunk_loop ((length a.array + size - 1) / size) 0 size a.array

-- `Pad`
unfoldable pub pad : IntArray → ℤ → ℤ → IntArray
pad a (pos n) value =
    if n == 0 || ltb n (length a.array)
    then a
    else record a { array = a.array ++ replicate (n - length a.array) value }
pad a (negsuc n) value =
    if ltb (suc n) (length a.array)
    then a
    else record a { array = replicate (suc n - length a.array) value ++ a.array }
