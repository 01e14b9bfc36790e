-- ===== src/Prelude/Slice.antt =====
-- Go's slices as lists: an index or a bound out of range panics. Capacities are not modelled.
pub mod Laws
use gf.Prelude.Tests.{leb, ltb, ◌==◌, if◌then◌else◌}
use gf.Prelude.Lists.{length, get_elem?, set, take, drop}
use gf.Prelude.Int.{ℤ, pos, negsuc}
use gf.Prelude.Outcome.{Outcome, ok, panic, or_panic}
use Prim.Native.Nat.{ℕ, ◌-◌}
use mathlib.Core.Bool.{Bool, true, false}
use mathlib.Core.List.{List}

-- `a == b` on int
abbrev pub eq_ℤ : ℤ → ℤ → Bool
eq_ℤ (pos a) (pos b) = a == b
eq_ℤ (negsuc a) (negsuc b) = a == b
eq_ℤ _ _ = false

module _ {ℓ} {A : Type ℓ} where
  -- `a[i]`
  abbrev pub load : List A → ℤ → Outcome A
  load a (pos i) = or_panic (get_elem? a i)
  load a (negsuc i) = panic

  -- `a[i] = v`
  abbrev pub store : List A → ℤ → A → Outcome (List A)
  store a (pos i) v = if ltb i (length a) then ok (set a i v) else panic
  store a (negsuc i) v = panic

  -- `a[i:]`
  abbrev pub slice_from : List A → ℤ → Outcome (List A)
  slice_from a (pos i) = if leb i (length a) then ok (drop i a) else panic
  slice_from a (negsuc i) = panic

  -- `a[:i]`
  abbrev pub slice_to : List A → ℤ → Outcome (List A)
  slice_to a (pos i) = if leb i (length a) then ok (take i a) else panic
  slice_to a (negsuc i) = panic

  -- `a[i:j]`
  abbrev pub slice : List A → ℤ → ℤ → Outcome (List A)
  slice a (pos i) (pos j) =
      if leb i j then (if leb j (length a) then ok (take (j - i) (drop i a)) else panic) else panic
  slice a _ _ = panic
