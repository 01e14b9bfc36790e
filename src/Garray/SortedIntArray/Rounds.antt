-- ===== src/Garray/SortedIntArray/Rounds.antt =====
-- The rounds of the binary search of SortedIntArray.
use gf.Prelude.{
  ℕ, zero, suc, ◌+◌, ◌-◌, ◌/◌, ◌<◌, ◌≡◌, refl, Ordering, lt→ltb, List, ◌∷◌, ◌++◌, length, arith,
}
use gf.Prelude.Int.{ℤ, pos}
use gf.Prelude.Outcome.{Outcome, ok, ◌>>=◌}
use gf.Prelude.Slice.{load}
use gf.Prelude.Slice.Laws.{get_elem?-append}
use gf.Gtree.Comparator.{Comparator, sign}
use gf.Garray.SortedIntArray.{bin_loop}

module _ (cmp : Comparator ℤ) where
  -- a round that looks at place `m`
  abbrev pub look : ℕ → List ℤ → ℤ → ℕ → ℕ → ℕ → Outcome (ℤ × ℤ)
  look fuel a v low high m = load a (pos m) >>= λ x. elim (sign (cmp v x)) [
    | Ordering.lt ↦ bin_loop fuel cmp a v low m m (cmp v x)
    | Ordering.gt ↦ bin_loop fuel cmp a v (m + 1) high m (cmp v x)
    | Ordering.eq ↦ ok (pos m, cmp v x)
  ]

  pub bin_loop-look :
      (fuel : ℕ) (a : List ℤ) (v : ℤ) (low high mid : ℕ) (c : ℤ)
      → low < high
      → bin_loop (suc fuel) cmp a v low high mid c ≡ look fuel a v low high ((low + high - 1) / 2)
  unfolding bin_loop
  bin_loop-look fuel a v low high mid c h = rw (lt→ltb low high h) refl

  pub look_lem :
      (fuel : ℕ) (q : List ℤ) (x : ℤ) (r : List ℤ) (v : ℤ) (low high : ℕ)
      → look fuel (q ++ x ∷ r) v low high (length q) ≡ (elim (sign (cmp v x)) [
        | Ordering.lt ↦ bin_loop fuel cmp (q ++ x ∷ r) v low (length q) (length q) (cmp v x)
        | Ordering.gt ↦ bin_loop fuel cmp (q ++ x ∷ r) v (length q + 1) high (length q) (cmp v x)
        | Ordering.eq ↦ ok (pos (length q), cmp v x)
      ])
  look_lem fuel q x r v low high = rw (get_elem?-append q x r) refl

  pub loop_done :
      (fuel : ℕ) (a : List ℤ) (v : ℤ) (low mid : ℕ) (c : ℤ)
      → bin_loop fuel cmp a v low low mid c ≡ ok (pos mid, c)
  unfolding bin_loop
  loop_done zero a v low mid c = refl
  loop_done (suc fuel) a v low mid c = ground arith
