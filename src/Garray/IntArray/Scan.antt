-- ===== src/Garray/IntArray/Scan.antt =====
-- container/garray/garray_normal_int.go: the methods of IntArray that go through it.
use gf.Prelude.{
  ℕ, zero, suc, ◌+◌, ◌-◌, Bool, true, false, not, ltb, if◌then◌else◌, List, [], ◌∷◌, ◌++◌, length,
}
use gf.Prelude.Int.{ℤ, pos, negsuc, ◌+ℤ◌}
use gf.Prelude.Outcome.{Outcome, ok, panic, ◌>>=◌}
use gf.Prelude.Word.{wrap}
use gf.Prelude.Slice.{eq_ℤ, load, store, slice_from, slice_to}
use gf.Garray.IntArray.{IntArray, remove_at}

unfoldable pub sum_loop : ℤ → List ℤ → ℤ
sum_loop sum [] = sum
sum_loop sum (v ∷ vs) = sum_loop (wrap (sum +ℤ v)) vs

unfoldable pub sum : IntArray → ℤ
unfolding sum_loop
sum a = sum_loop (pos 0) a.array

-- the loop of `Search`
unfoldable pub search_loop : ℕ → List ℤ → ℤ → ℤ
search_loop index [] value = negsuc 0
search_loop index (v ∷ vs) value =
    let rest = search_loop (index + 1) vs value in if eq_ℤ v value then pos index else rest

unfoldable pub search_value : IntArray → ℤ → ℤ
unfolding search_loop
search_value a value = search_loop 0 a.array value

unfoldable pub contains : IntArray → ℤ → Bool
unfolding search_value
contains a value = not (eq_ℤ (search_value a value) (negsuc 0))

unfoldable pub remove_value : IntArray → ℤ → Outcome (IntArray × Bool)
unfolding search_value remove_at
remove_value a value =
    let i = search_value a value in
    if eq_ℤ i (negsuc 0) then ok (a, false) else (do (a', _) ← remove_at a i; ok (a', true))

-- The inner loop of `Unique`: after a removal `j` goes on all the same. Running out of fuel, here and
-- in the outer loop, is a panic, so that it is not taken for the end of the loop.
unfoldable pub unique_inner : ℕ → ℕ → ℕ → List ℤ → Outcome (List ℤ)
unique_inner zero i j a = panic
unique_inner (suc fuel) i j a =
    let round = do
      x ← load a (pos i)
      y ← load a (pos j)
      front ← slice_to a (pos j)
      rear ← slice_from a (pos (j + 1))
      unique_inner fuel i (j + 1) (if eq_ℤ x y then front ++ rear else a)
    in if ltb j (length a) then round else ok a

unfoldable pub unique_outer : ℕ → ℕ → List ℤ → Outcome (List ℤ)
unfolding unique_inner
unique_outer zero i a = panic
unique_outer (suc fuel) i a =
    let round = unique_inner (suc (length a)) i (i + 1) a >>= λ a'. unique_outer fuel (i + 1) a' in
    if ltb (i + 1) (length a) then round else ok a

unfoldable pub unique : IntArray → Outcome IntArray
unfolding unique_outer
unique a = do xs ← unique_outer (suc (length a.array)) 0 a.array; ok (record a { array = xs })

-- the loop of `FilterEmpty`
unfoldable pub filter_loop : ℕ → ℕ → List ℤ → Outcome (List ℤ)
filter_loop zero i a = ok a
filter_loop (suc fuel) i a =
    let round = do
      x ← load a (pos i)
      front ← slice_to a (pos i)
      rear ← slice_from a (pos (i + 1))
      let empty = eq_ℤ x (pos 0)
      filter_loop fuel (if empty then i else i + 1) (if empty then front ++ rear else a)
    in if ltb i (length a) then round else ok a

unfoldable pub filter_empty : IntArray → Outcome IntArray
unfolding filter_loop
filter_empty a = do xs ← filter_loop (length a.array) 0 a.array; ok (record a { array = xs })

-- the loop of `Reverse`: `i` goes up and `j` down
unfoldable pub reverse_loop : ℕ → ℕ → ℕ → List ℤ → Outcome (List ℤ)
reverse_loop zero i j a = ok a
reverse_loop (suc fuel) i j a =
    let round = do
      x ← load a (pos i)
      y ← load a (pos j)
      a' ← store a (pos i) y
      a'' ← store a' (pos j) x
      reverse_loop fuel (i + 1) (j - 1) a''
    in if ltb i j then round else ok a

unfoldable pub reverse_array : IntArray → Outcome IntArray
unfolding reverse_loop
reverse_array a = do
  xs ← reverse_loop (length a.array) 0 (length a.array - 1) a.array
  ok (record a { array = xs })

-- the loops of IteratorAsc and IteratorDesc: a callback from state to state
unfoldable pub iterate_asc {σ} : {S : Type σ} → (S → ℕ → ℤ → S × Bool) → ℕ → List ℤ → S → S
iterate_asc f k [] s = s
iterate_asc f k (v ∷ vs) s =
    let (s', go) = f s k v in let rest = iterate_asc f (k + 1) vs s' in if go then rest else s'

-- `n` indices are left
unfoldable pub iterate_desc {σ} : {S : Type σ} → (S → ℕ → ℤ → S × Bool) → ℕ → List ℤ → S → Outcome S
iterate_desc f zero a s = ok s
iterate_desc f (suc i) a s = do
  v ← load a (pos i)
  let (s', go) = f s i v
  let rest = iterate_desc f i a s'
  if go then rest else ok s'
