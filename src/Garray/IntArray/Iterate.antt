-- ===== src/Garray/IntArray/Iterate.antt =====
-- The order in which the iterators of IntArray call back.
use gf.Prelude.{
  ℕ, zero, suc, ◌+◌, ◌≤◌, ◌<◌, ◌≡◌, refl, ap, Bool, true, false, if◌then◌else◌, List, [], ◌∷◌, ◌++◌,
  reverse, reverse-append, length, length-take, take, get_elem?, some, arith,
}
use gf.Prelude.Int.{ℤ}
use gf.Prelude.Outcome.{ok}
use gf.Garray.IntArray.Scan.{iterate_asc, iterate_desc}
use gf.Garray.IntArray.Parts.{take_beyond}

-- the calls of a callback on indices and elements one after the other, up to the first stop
abbrev pub call_each {σ} : {S : Type σ} → (S → ℕ → ℤ → S × Bool) → List (ℕ × ℤ) → S → S
call_each f [] s = s
call_each f ((k, v) ∷ rest) s =
    let (s', go) = f s k v in let later = call_each f rest s' in if go then later else s'

abbrev pub enumerate : ℕ → List ℤ → List (ℕ × ℤ)
enumerate k [] = []
enumerate k (v ∷ vs) = (k, v) ∷ enumerate (k + 1) vs

enumerate-append :
    (k : ℕ) (xs : List ℤ) (x : ℤ)
    → enumerate k (xs ++ x ∷ []) ≡ enumerate k xs ++ (k + length xs, x) ∷ []
enumerate-append k [] x = ap (λ i. (i, x) ∷ []) (omega arith)
enumerate-append k (y ∷ xs) x =
    let e : k + 1 + length xs ≡ k + suc (length xs) = omega arith in
    rw (enumerate-append (k + 1) xs x, e) refl

take-suc :
    (n : ℕ) (a : List ℤ)
    → n < length a
    → (x : ℤ) × (get_elem? a n ≡ some x) × (take (suc n) a ≡ take n a ++ x ∷ [])
take-suc n [] h = absurd (omega arith)
take-suc zero (x ∷ a) h = (x, refl, refl)
take-suc (suc n) (y ∷ a) h = let (x, e, t) = take-suc n a (omega arith) in (x, e, ap (◌∷◌ y) t)

if_ok {σ} :
    {S : Type σ} (go : Bool) (later stop : S)
    → (if go then ok later else ok stop) ≡ ok (if go then later else stop)
if_ok true later stop = refl
if_ok false later stop = refl

module _ {σ} {S : Type σ} (f : S → ℕ → ℤ → S × Bool) where
  asc_lem : (k : ℕ) (a : List ℤ) (s : S) → iterate_asc f k a s ≡ call_each f (enumerate k a) s
  unfolding iterate_asc
  asc_lem k [] s = refl
  asc_lem k (v ∷ vs) s = rw (asc_lem (k + 1) vs ((f s k v).0)) refl

  desc_round :
      (n : ℕ) (a : List ℤ) (s : S) (x : ℤ) (rest : List (ℕ × ℤ))
      → get_elem? a n ≡ some x
      → ((t : S) → iterate_desc f n a t ≡ ok (call_each f rest t))
      → iterate_desc f (suc n) a s ≡ ok (call_each f ((n, x) ∷ rest) s)
  unfolding iterate_desc
  desc_round n a s x rest e ih =
      rw (e, ih ((f s n x).0)) (if_ok ((f s n x).1) (call_each f rest ((f s n x).0)) ((f s n x).0))

  desc_lem :
      (n : ℕ) (a : List ℤ)
      → n ≤ length a
      → (s : S) → iterate_desc f n a s ≡ ok (call_each f (reverse (enumerate 0 (take n a))) s)
  unfolding iterate_desc
  desc_lem zero a h s = refl
  desc_lem (suc n) a h s =
      let (x, e, t) = take-suc n a (omega arith) in
      let e₀ : 0 + length (take n a) ≡ n = omega (arith, length-take n a) in
      let order : reverse (enumerate 0 (take (suc n) a))
          ≡ (n, x) ∷ reverse (enumerate 0 (take n a)) =
        rw (t, enumerate-append 0 (take n a) x, e₀)
          (reverse-append (enumerate 0 (take n a)) ((n, x) ∷ [])) in
      rw order
        (desc_round n a s x (reverse (enumerate 0 (take n a))) e (desc_lem n a (omega arith)))

  -- IteratorAsc calls back on the indices and elements in ascending order, IteratorDesc in
  -- descending order, without a panic; both stop after the first callback that returns false.
  pub iterators_lem :
      (a : List ℤ) (s : S)
      → (iterate_asc f 0 a s ≡ call_each f (enumerate 0 a) s)
        × (iterate_desc f (length a) a s ≡ ok (call_each f (reverse (enumerate 0 a)) s))
  iterators_lem a s = (
    asc_lem 0 a s,
    rw (take_beyond (length a) a (omega arith)) at (desc_lem (length a) a (omega arith) s),
  )
