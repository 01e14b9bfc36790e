-- ===== src/Gbinary/Bits/Laws.antt =====
-- Bits and back, to numbers and to bytes.
use gf.Prelude.{
  ℕ, zero, suc, ◌+◌, ◌-◌, ◌*◌, ◌/◌, ◌%◌, ◌^◌, ◌≤◌, ◌<◌, ◌≡◌, ◌≢◌, refl, ◌∙◌, ap, sym, true, false,
  Bool-cases, ltb, lt→ltb, leb, ◌==◌, List, [], ◌∷◌, ◌++◌, append_assoc, append-nil, length,
  length-append, length-replicate, replicate, take, inl, inr, arith,
}
use gf.Prelude.Int.{pos}
use gf.Prelude.Outcome.{ok, ◌>>=◌}
use gf.Prelude.Slice.{slice}
use gf.Prelude.Slice.Laws.{take-append, drop-append}
use native.Mathlib.Nat.{
  pow-suc, one-le-pow, pow-le-pow_right, div-add-mod, mod-lt, mod-eq_of_lt, add-mul-mod_self_left,
}
use gf.Gbinary.Bits.{
  encode_loop, encode_width, encode_bits_with_uint, decode_loop, decode_bits_to_uint, fill_up_loop,
  bytes_loop, encode_bits_to_bytes, bits_loop, decode_bytes_to_bits,
}

-- the bits of a number, the first one first
abbrev pub bits_of : ℕ → ℕ → List ℕ
bits_of zero u = []
bits_of (suc l) u = bits_of l (u / 2) ++ (u % 2) ∷ []

encode_loop_lem : (l u : ℕ) (a : List ℕ) → encode_loop l u a ≡ bits_of l u ++ a
unfolding encode_loop
encode_loop_lem zero u a = refl
encode_loop_lem (suc l) u a =
    encode_loop_lem l (u / 2) ((u % 2) ∷ a)
    ∙ sym (append_assoc (bits_of l (u / 2)) ((u % 2) ∷ []) a)

length-bits_of : (l u : ℕ) → length (bits_of l u) ≡ l
length-bits_of zero u = refl
length-bits_of (suc l) u =
    omega (arith, length-append (bits_of l (u / 2)) ((u % 2) ∷ []), length-bits_of l (u / 2))

decode_loop-append :
    (v : ℕ) (xs ys : List ℕ) → decode_loop v (xs ++ ys) ≡ decode_loop (decode_loop v xs) ys
unfolding decode_loop
decode_loop-append v [] ys = refl
decode_loop-append v (x ∷ xs) ys = decode_loop-append (2 * v % 2 ^ 64 + x) xs ys

decode_one : (v b : ℕ) → decode_loop v (b ∷ []) ≡ 2 * v % 2 ^ 64 + b
unfolding decode_loop
decode_one v b = refl

decode_none : (v : ℕ) → decode_loop v [] ≡ v
unfolding decode_loop
decode_none v = refl

-- the last bits of a number that has one bit more
mod_step : (p u : ℕ) → 0 < p → u % 2 + 2 * (u / 2 % p) ≡ u % (p * 2)
mod_step p u h =
    let a = u / 2 / p in
    let b = u / 2 % p in
    let small : b < p = mod-lt (u / 2) h in
    let whole = div-add-mod (u / 2) p in
    let split : u ≡ (u % 2 + 2 * b) + p * 2 * a = omega (arith, ap (λ (t : ℕ). 2 * t) whole) in
    sym (
      ap (λ (t : ℕ). t % (p * 2)) split
      ∙ add-mul-mod_self_left (u % 2 + 2 * b) (p * 2) a
      ∙ mod-eq_of_lt (omega arith))

binary_step : (l u : ℕ) → suc l ≤ 64 → 2 * (u / 2 % 2 ^ l) % 2 ^ 64 + u % 2 ≡ u % 2 ^ suc l
binary_step l u h =
    let p : 0 < 2 ^ l = one-le-pow l 2 (omega arith) in
    let room : 2 ^ suc l ≤ 2 ^ 64 = pow-le-pow_right {n = 2} (omega arith) h in
    let small : u / 2 % 2 ^ l < 2 ^ l = mod-lt (u / 2) p in
    let double = pow-suc 2 l in rw double (omega (arith, mod_step (2 ^ l) u p))

decode-bits_of : (l u : ℕ) → l ≤ 64 → decode_loop 0 (bits_of l u) ≡ u % 2 ^ l
decode-bits_of zero u h = decode_none 0 ∙ omega arith
decode-bits_of (suc l) u h =
    decode_loop-append 0 (bits_of l (u / 2)) ((u % 2) ∷ [])
    ∙ decode_one (decode_loop 0 (bits_of l (u / 2))) (u % 2)
    ∙ rw (decode-bits_of l (u / 2) (omega arith)) (binary_step l u h)

-- Decoding the bits that EncodeBitsWithUint appends gives the number back, as far as they hold it.
pub decode-encode_bits :
    (bits : List ℕ) (u l : ℕ)
    → l ≤ 64
    → (a : List ℕ) × (encode_bits_with_uint bits u (pos l) ≡ ok (bits ++ a))
      × (length a ≡ l)
      × (decode_bits_to_uint a ≡ u % 2 ^ l)
unfolding encode_bits_with_uint encode_width decode_bits_to_uint
decode-encode_bits bits u l h = (
  bits_of l u,
  ap (λ a. ok (bits ++ a)) (encode_loop_lem l u [] ∙ append-nil (bits_of l u)),
  length-bits_of l u,
  decode-bits_of l u h,
)

abbrev flat : List ℕ → List ℕ
flat [] = []
flat (b ∷ bs) = bits_of 8 b ++ flat bs

bits_loop_lem : (bits bs : List ℕ) → bits_loop bits bs ≡ bits ++ flat bs
unfolding bits_loop encode_width
bits_loop_lem bits [] = sym (append-nil bits)
bits_loop_lem bits (b ∷ bs) =
    bits_loop_lem (bits ++ encode_loop 8 b []) bs
    ∙ rw (encode_loop_lem 8 b [], append-nil (bits_of 8 b))
        (append_assoc bits (bits_of 8 b) (flat bs))

length-flat : (bs : List ℕ) → length (flat bs) ≡ 8 * length bs
length-flat [] = omega arith
length-flat (b ∷ bs) =
    omega (arith, length-append (bits_of 8 b) (flat bs), length-bits_of 8 b, length-flat bs)

-- the next eight bits
next_cut :
    (pre w rest : List ℕ) (k : ℕ)
    → length w ≡ k
    → slice (pre ++ (w ++ rest)) (pos (length pre)) (pos (length pre + k)) ≡ ok w
next_cut pre w rest k e =
    let d = drop-append pre (w ++ rest) in
    let t : take k (w ++ rest) ≡ w = rw e at (take-append w rest) in
    let n : length pre + k - length pre ≡ k = omega arith in
    let a : leb (length pre) (length pre + k) ≡ true = ground arith in
    let b : leb (length pre + k) (length (pre ++ (w ++ rest))) ≡ true =
      ground (arith, length-append pre (w ++ rest), length-append w rest) in
    rw (a, b, n, d, t) refl

bytes_round :
    (fuel : ℕ) (pre : List ℕ) (b : ℕ) (rest : List ℕ)
    → bytes_loop (suc fuel) (length pre) (pre ++ (bits_of 8 b ++ rest)) ≡ (
        bytes_loop fuel (length pre + 8) (pre ++ (bits_of 8 b ++ rest)) >>= λ bs.
        ok ((b % 2 ^ 8) ∷ bs))
unfolding bytes_loop
bytes_round fuel pre b rest =
    let inside : ltb (length pre) (length (pre ++ (bits_of 8 b ++ rest))) ≡ true = ground (
      arith,
      length-append pre (bits_of 8 b ++ rest),
      length-append (bits_of 8 b) rest,
      length-bits_of 8 b,
    ) in
    let byte : decode_loop 0 (bits_of 8 b) % 2 ^ 8 ≡ b % 2 ^ 8 =
      omega (arith, decode-bits_of 8 b (omega arith)) in
    rw (inside, next_cut pre (bits_of 8 b) rest 8 (length-bits_of 8 b), byte) refl

bytes_end : (fuel : ℕ) (pre : List ℕ) → bytes_loop fuel (length pre) (pre ++ []) ≡ ok []
unfolding bytes_loop
bytes_end zero pre = refl
bytes_end (suc fuel) pre = ground (arith, ap length (append-nil pre))

abbrev pub low_bytes : List ℕ → List ℕ
low_bytes [] = []
low_bytes (b ∷ bs) = (b % 2 ^ 8) ∷ low_bytes bs

bytes_loop_lem :
    (fuel : ℕ) (pre bs : List ℕ)
    → length bs ≤ fuel
    → bytes_loop fuel (length pre) (pre ++ flat bs) ≡ ok (low_bytes bs)
bytes_loop_lem fuel pre [] h = bytes_end fuel pre
bytes_loop_lem zero pre (b ∷ bs) h = absurd (omega arith)
bytes_loop_lem (suc fuel) pre (b ∷ bs) h =
    let w = bits_of 8 b in
    let n : length (pre ++ w) ≡ length pre + 8 =
      length-append pre w ∙ ap (λ (k : ℕ). length pre + k) (length-bits_of 8 b) in
    let ih =
      rw (n, append_assoc pre w (flat bs)) at (bytes_loop_lem fuel (pre ++ w) bs (omega arith)) in
    bytes_round fuel pre b (flat bs) ∙ rw ih refl

fill_up_done : (fuel i : ℕ) (bits : List ℕ) → length bits % 8 ≡ 0 → fill_up_loop fuel i bits ≡ bits
unfolding fill_up_loop
fill_up_done zero i bits e = refl
fill_up_done (suc fuel) i bits e = rw e (ground arith)

fill_up_round :
    (fuel i : ℕ) (bits : List ℕ)
    → i < length bits % 8
    → fill_up_loop (suc fuel) i bits ≡ fill_up_loop fuel (i + 1) (bits ++ 0 ∷ [])
unfolding fill_up_loop
fill_up_round fuel i bits h = rw (lt→ltb i (length bits % 8) h) refl

-- one round of the filling up for each bit that is missing
fill_up_lem :
    (k fuel i : ℕ) (bits : List ℕ)
    → k ≤ fuel
    → k < 8
    → (length bits + k) % 8 ≡ 0
    → (k ≢ 0 → i < length bits % 8)
    → fill_up_loop fuel i bits ≡ bits ++ replicate k 0
fill_up_lem zero fuel i bits h l e g =
    fill_up_done fuel i bits (omega arith) ∙ sym (append-nil bits)
fill_up_lem (suc k) zero i bits h l e g = absurd (omega arith)
fill_up_lem (suc k) (suc fuel) i bits h l e g =
    let n = length-append bits (0 ∷ []) in
    let below : i < length bits % 8 = g (λ z. omega arith) in
    fill_up_round fuel i bits below
    ∙ fill_up_lem k fuel (i + 1) (bits ++ 0 ∷ []) (omega arith) (omega arith) (omega arith)
        (λ z. omega arith)
    ∙ append_assoc bits (0 ∷ []) (replicate k 0)

-- how many bits EncodeBitsToBytes adds
abbrev pub missing : List ℕ → ℕ
missing bits = (8 - length bits % 8) % 8

whole_bytes :
    (bits : List ℕ)
    → length bits % 8 ≡ 0
    → encode_bits_to_bytes bits ≡ bytes_loop (length bits) 0 bits
unfolding encode_bits_to_bytes
whole_bytes bits e = let t : (length bits % 8 == 0) ≡ true = ground arith in rw t refl

broken_bytes :
    (bits : List ℕ)
    → length bits % 8 ≢ 0
    → encode_bits_to_bytes bits ≡ encode_bits_to_bytes (bits ++ replicate (missing bits) 0)
unfolding encode_bits_to_bytes
broken_bytes bits n =
    let k = missing bits in
    let t : (length bits % 8 == 0) ≡ false = ground arith in
    let filled : fill_up_loop 8 0 bits ≡ bits ++ replicate k 0 =
      fill_up_lem k 8 0 bits (omega arith) (omega arith) (omega arith) (λ z. omega arith) in
    let size : length (bits ++ replicate k 0) % 8 ≡ 0 =
      omega (arith, length-append bits (replicate k 0), length-replicate {A = ℕ} k 0) in
    let u : (length (bits ++ replicate k 0) % 8 == 0) ≡ true = rw size (ground arith) in
    rw (t, filled, u) refl

bytes_lem : (bs : List ℕ) → encode_bits_to_bytes (decode_bytes_to_bits bs) ≡ ok (low_bytes bs)
unfolding decode_bytes_to_bits
bytes_lem bs =
    let n = length-flat bs in
    rw (bits_loop_lem [] bs)
      (whole_bytes (flat bs) (omega arith) ∙ bytes_loop_lem (length (flat bs)) [] bs (omega arith))

filled_bytes :
    (bits : List ℕ)
    → encode_bits_to_bytes bits ≡ encode_bits_to_bytes (bits ++ replicate (missing bits) 0)
filled_bytes bits = elim (Bool-cases (length bits % 8 == 0)) [
  | inr e ↦ broken_bytes bits (ground arith)
  | inl e ↦ let n : missing bits ≡ 0 = ground arith in rw (n, append-nil bits) refl
]

-- EncodeBitsToBytes gives the bytes back that DecodeBytesToBits took apart. On bits that make up no
-- whole number of bytes it does what it does on them with zeros behind, up to the next byte.
pub encode_bits_to_bytes_lem :
    (bs bits : List ℕ)
    → (encode_bits_to_bytes (decode_bytes_to_bits bs) ≡ ok (low_bytes bs))
      × (encode_bits_to_bytes bits ≡ encode_bits_to_bytes (bits ++ replicate (missing bits) 0))
      × ((length bits + missing bits) % 8 ≡ 0)
encode_bits_to_bytes_lem bs bits = (bytes_lem bs, filled_bytes bits, omega arith)
