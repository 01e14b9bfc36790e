-- ===== src/Garray/IntArray.antt =====
-- container/garray/garray_normal_int.go: IntArray. Its methods run under the mutex, of which the
-- record keeps the switch. This file has the constructors, and the methods that read, write, insert
-- and remove elements.
pub mod Cut
pub mod Edit
pub mod Reverse
pub mod Filter
pub mod Unique
pub mod Iterate
pub mod Parts
mod Tests
pub mod Chunks
pub mod SubSlice
pub mod Rounds
pub mod Progression
pub mod Scan
use gf.Prelude.{
  ℕ, zero, suc, ◌+◌, ◌-◌, ◌*◌, ◌/◌, min, Bool, true, false, not, ◌||◌, ltb, leb, ◌==◌,
  if◌then◌else◌, List, [], ◌∷◌, ◌++◌, Option, none, some, length, set, replicate,
}
use gf.Prelude.Int.{ℤ, pos, negsuc, ◌+ℤ◌, ◌-ℤ◌, ltb_ℤ}
use gf.Prelude.Word.{wrap, quotient}
use gf.Prelude.Outcome.{Outcome, ok, panic, ◌>>=◌}
use gf.Prelude.Slice.{eq_ℤ, load, store, slice_from, slice_to}

pub record IntArray : Type 0 where
  pub safe : Bool
  pub array : List ℤ

abbrev pub count : List ℤ → ℤ
count a = pos (length a)

-- `NewIntArrayFrom`
unfoldable pub new_int_array_from : List ℤ → Bool → IntArray
new_int_array_from a safe = record { safe = safe; array = a }

-- `make([]int, size)`, where the greatest length that the runtime allows is `max_len`
unfoldable pub make : ℕ → ℤ → Outcome (List ℤ)
make max_len (pos n) = if leb n max_len then ok (replicate n (pos 0)) else panic
make max_len (negsuc n) = panic

-- `NewIntArraySize`, where `make` takes a capacity as well, not below the size
unfoldable pub new_int_array_size : ℕ → ℤ → ℤ → Bool → Outcome IntArray
unfolding make
new_int_array_size max_len size cap safe = do
  _ ← make max_len cap
  xs ← make max_len size
  if ltb_ℤ cap size then panic else ok (record { safe = safe; array = xs })

-- The loop `for i := start; i <= end; i += step` of NewIntArrayRange, for the rounds that it may take:
-- one for each slot, and one that ends it or finds no slot.
unfoldable pub range_loop : ℕ → ℤ → ℤ → ℤ → List ℤ → ℕ → Outcome (List ℤ)
range_loop zero i end step slice index = panic
range_loop (suc rounds) i end step slice index =
    let next = store slice (pos index) i >>= λ slice'.
    range_loop rounds (wrap (i +ℤ step)) end step slice' (index + 1) in
    if ltb_ℤ end i then ok slice else next

unfoldable pub range_size : ℤ → ℤ → ℤ → ℤ
range_size start end step = quotient (wrap (wrap (end -ℤ start) +ℤ pos 1)) step

unfoldable pub new_int_array_range : ℕ → ℤ → ℤ → ℤ → Bool → Outcome IntArray
unfolding make range_loop range_size
new_int_array_range max_len start end step safe = if eq_ℤ step (pos 0) then panic else do
  slots ← make max_len (range_size start end step)
  slice ← range_loop (suc (length slots)) start end step slots 0
  ok (record { safe = safe; array = slice })

unfoldable pub get_at : IntArray → ℤ → Outcome ℤ
get_at a index = load a.array index

unfoldable pub set_at : IntArray → ℤ → ℤ → Outcome IntArray
set_at a index value = do xs ← store a.array index value; ok (record a { array = xs })

-- `Replace`: `a.array[i] = array[i]` for i below `max`
unfoldable pub replace_loop : ℕ → ℕ → List ℤ → List ℤ → Outcome (List ℤ)
replace_loop zero i a array = ok a
replace_loop (suc n) i a array = do
  v ← load array (pos i)
  a' ← store a (pos i) v
  replace_loop n (i + 1) a' array

unfoldable pub replace : IntArray → List ℤ → Outcome IntArray
unfolding replace_loop
replace a array = do
  let bound = if ltb (length a.array) (length array) then length a.array else length array
  xs ← replace_loop bound 0 a.array array
  ok (record a { array = xs })

unfoldable pub insert_before : IntArray → ℤ → ℤ → Outcome IntArray
insert_before a index value = do
  rear ← slice_from a.array index
  front ← slice_to a.array index
  ok (record a { array = (front ++ value ∷ []) ++ rear })

unfoldable pub insert_after : IntArray → ℤ → ℤ → Outcome IntArray
insert_after a index value = do
  rear ← slice_from a.array (index +ℤ pos 1)
  front ← slice_to a.array (index +ℤ pos 1)
  ok (record a { array = (front ++ value ∷ []) ++ rear })

-- `Remove`, on the slice: the value and what is left
unfoldable pub remove_from : List ℤ → ℤ → Outcome (ℤ × List ℤ)
remove_from a index =
    let first = (do v ← load a (pos 0); rest ← slice_from a (pos 1); ok (v, rest)) in
    let last = (do v ← load a index; rest ← slice_to a index; ok (v, rest)) in
    let inner = do
      v ← load a index
      front ← slice_to a index
      rear ← slice_from a (index +ℤ pos 1)
      ok (v, front ++ rear)
    in if ltb_ℤ index (pos 0) || not (ltb_ℤ index (count a))
      then ok (pos 0, a)
      else if eq_ℤ index (pos 0)
      then first
      else if eq_ℤ index (count a -ℤ pos 1)
      then last
      else inner

unfoldable pub remove_at : IntArray → ℤ → Outcome (IntArray × ℤ)
unfolding remove_from
remove_at a index = do (v, xs) ← remove_from a.array index; ok (record a { array = xs }, v)

unfoldable pub push_left : IntArray → List ℤ → IntArray
push_left a values = record a { array = values ++ a.array }

unfoldable pub push_right : IntArray → List ℤ → IntArray
push_right a values = record a { array = a.array ++ values }

unfoldable pub append_values : IntArray → List ℤ → IntArray
append_values a values = record a { array = a.array ++ values }

unfoldable pub pop_left : IntArray → Outcome (IntArray × ℤ)
pop_left a = do
  v ← load a.array (pos 0)
  rest ← slice_from a.array (pos 1)
  ok (record a { array = rest }, v)

unfoldable pub pop_right : IntArray → Outcome (IntArray × ℤ)
pop_right a = do
  v ← load a.array (count a.array -ℤ pos 1)
  rest ← slice_to a.array (count a.array -ℤ pos 1)
  ok (record a { array = rest }, v)

-- `Clone` hands the negated switch on.
unfoldable pub clone : IntArray → IntArray
clone a = record { safe = not a.safe; array = a.array }

unfoldable pub clear : IntArray → IntArray
clear a = record a { array = if ltb 0 (length a.array) then [] else a.array }
