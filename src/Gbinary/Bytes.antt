-- ===== src/Gbinary/Bytes.antt =====
-- The byte orders of Go's package encoding/binary, on lists of bytes.
use gf.Prelude.{
  ℕ, zero, suc, ◌+◌, ◌*◌, ◌/◌, ◌%◌, ◌^◌, ◌<◌, ◌≡◌, refl, ◌∙◌, ap, sym, leb, if◌then◌else◌, true,
  List, [], ◌∷◌, ◌++◌, reverse, length, length-append, length-reverse, take, replicate, arith,
}
use gf.Prelude.Outcome.{Outcome, ok, panic}
use gf.Prelude.Slice.Laws.{take-append}
use mathlib.Core.List.{reverse-reverse}
use native.Mathlib.Nat.{
  pow-suc, one-le-pow, div-add-mod, mod-lt, mod-eq_of_lt, add-mul-mod_self_left,
}

-- `PutUint16` and the like: `n` bytes of a number, the least one first or last
abbrev pub le_bytes : ℕ → ℕ → List ℕ
le_bytes zero u = []
le_bytes (suc n) u = (u % 256) ∷ le_bytes n (u / 256)

abbrev pub be_bytes : ℕ → ℕ → List ℕ
be_bytes n u = reverse (le_bytes n u)

-- the number that bytes stand for, the least one first
abbrev pub value : List ℕ → ℕ
value [] = 0
value (b ∷ bs) = b + 256 * value bs

-- `Uint16` and the like: they panic where there are not `n` bytes
abbrev pub le_read : ℕ → List ℕ → Outcome ℕ
le_read n bs = if leb n (length bs) then ok (value (take n bs)) else panic

abbrev pub be_read : ℕ → List ℕ → Outcome ℕ
be_read n bs = if leb n (length bs) then ok (value (reverse (take n bs))) else panic

pub length-le_bytes : (n u : ℕ) → length (le_bytes n u) ≡ n
length-le_bytes zero u = refl
length-le_bytes (suc n) u = ap suc (length-le_bytes n (u / 256))

pub length-be_bytes : (n u : ℕ) → length (be_bytes n u) ≡ n
length-be_bytes n u = length-reverse (le_bytes n u) ∙ length-le_bytes n u

-- the last `n` digits of a number that has one digit more
mod_step : (p u : ℕ) → 0 < p → u % 256 + 256 * (u / 256 % p) ≡ u % (p * 256)
mod_step p u h =
    let a = u / 256 / p in
    let b = u / 256 % p in
    let small : b < p = mod-lt (u / 256) h in
    let whole = div-add-mod (u / 256) p in
    let split : u ≡ (u % 256 + 256 * b) + p * 256 * a =
      omega (arith, ap (λ (t : ℕ). 256 * t) whole) in
    sym (
      ap (λ (t : ℕ). t % (p * 256)) split
      ∙ add-mul-mod_self_left (u % 256 + 256 * b) (p * 256) a
      ∙ mod-eq_of_lt (omega arith))

pub value-le_bytes : (n u : ℕ) → value (le_bytes n u) ≡ u % 256 ^ n
value-le_bytes zero u = omega arith
value-le_bytes (suc n) u =
    rw (value-le_bytes n (u / 256), pow-suc 256 n)
      (mod_step (256 ^ n) u (omega (arith, one-le-pow n 256)))

-- Reading back what was put, whatever stands behind it.
pub le_read-le_bytes :
    (n u : ℕ) (rest : List ℕ) → le_read n (le_bytes n u ++ rest) ≡ ok (u % 256 ^ n)
le_read-le_bytes n u rest =
    let bs = le_bytes n u in
    let size = length-le_bytes n u in
    let enough : leb n (length (bs ++ rest)) ≡ true = ground (arith, length-append bs rest, size) in
    let cut : take n (bs ++ rest) ≡ bs = rw size at (take-append bs rest) in
    rw (enough, cut, value-le_bytes n u) refl

pub be_read-be_bytes :
    (n u : ℕ) (rest : List ℕ) → be_read n (be_bytes n u ++ rest) ≡ ok (u % 256 ^ n)
be_read-be_bytes n u rest =
    let bs = be_bytes n u in
    let size = length-be_bytes n u in
    let enough : leb n (length (bs ++ rest)) ≡ true = ground (arith, length-append bs rest, size) in
    let cut : take n (bs ++ rest) ≡ bs = rw size at (take-append bs rest) in
    rw (enough, cut, reverse-reverse (le_bytes n u), value-le_bytes n u) refl

value-zeros : (bs : List ℕ) (k : ℕ) → value (bs ++ replicate k 0) ≡ value bs
value-zeros [] zero = refl
value-zeros [] (suc k) = omega (arith, value-zeros [] k)
value-zeros (b ∷ bs) k = omega (arith, value-zeros bs k)
