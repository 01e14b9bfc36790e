-- ===== src/Gbinary/Variable.antt =====
-- The encodings of int and uint, whose width depends on the value.
use gf.Prelude.{
  ℕ, ◌-◌, ◌%◌, ◌^◌, ◌⊎◌, inl, inr, ◌<◌, ◌≡◌, refl, ◌∙◌, ap, true, false, ltb, lt→ltb, List, [], ◌∷◌,
  arith,
}
use gf.Prelude.Int.{pos, negsuc, ltb_ℤ}
use gf.Prelude.Word.{to_uint, to_int, of_bits}
use gf.Prelude.Outcome.{ok}
use native.Mathlib.Decide.{dec_lt}
use gf.Gbinary.Bytes.{le_bytes, be_bytes}
use gf.Gbinary.LittleEndian.{
  le_encode_int, le_encode_uint, le_decode_to_int, le_decode_to_uint, le_decode_to_uint8,
}
use gf.Gbinary.BigEndian.{
  be_encode_int, be_encode_uint, be_decode_to_int, be_decode_to_uint, be_decode_to_uint8,
}
use gf.Gbinary.RoundTrip.{
  le_uint16_lem, le_uint32_lem, le_uint64_lem, be_uint16_lem, be_uint32_lem, be_uint64_lem,
}

-- what numbers that fit are as int8, int16, int32 and int64, and back
int8_word : (n : ℕ) → n < 2 ^ 7 → to_uint 8 (to_int 8 (pos n)) ≡ n
int8_word n h = ground arith

int16_word : (n : ℕ) → n < 2 ^ 15 → to_uint 16 (to_int 16 (pos n)) ≡ n
int16_word n h = ground arith

int32_word : (n : ℕ) → n < 2 ^ 31 → to_uint 32 (to_int 32 (pos n)) ≡ n
int32_word n h = ground arith

int64_word : (n : ℕ) → n < 2 ^ 63 → of_bits 64 n ≡ pos n
int64_word n h = ground arith

int8_byte : (b : ℕ) → b < 2 ^ 8 → to_uint 8 (of_bits 8 b) ≡ b
int8_byte b h = ground arith

le_one : (b : ℕ) → le_decode_to_uint (b ∷ []) ≡ ok b
unfolding le_decode_to_uint le_decode_to_uint8
le_one b = refl

le_two : (n : ℕ) → le_decode_to_uint (le_bytes 2 n) ≡ ok (n % 2 ^ 16)
unfolding le_decode_to_uint
le_two n = le_uint16_lem n []

le_four : (n : ℕ) → le_decode_to_uint (le_bytes 4 n) ≡ ok (n % 2 ^ 32)
unfolding le_decode_to_uint
le_four n = le_uint32_lem n []

le_eight : (n : ℕ) → le_decode_to_uint (le_bytes 8 n) ≡ ok (n % 2 ^ 64)
unfolding le_decode_to_uint
le_eight n = le_uint64_lem n []

-- the encodings that a number can have, each with the bound below which it has it
abbrev LeWidths : ℕ → List ℕ → Type 0
LeWidths n bs =
    (bs ≡ n ∷ [])
    ⊎ ((n < 2 ^ 16) × (bs ≡ le_bytes 2 n))
    ⊎ ((n < 2 ^ 32) × (bs ≡ le_bytes 4 n))
    ⊎ ((n < 2 ^ 64) × (bs ≡ le_bytes 8 n))

le_decodes : (n : ℕ) (bs : List ℕ) → LeWidths n bs → le_decode_to_uint bs ≡ ok n
le_decodes n bs (inl e) = rw e (le_one n)
le_decodes n bs (inr (inl (h, e))) = rw e (le_two n ∙ ap ok (omega arith))
le_decodes n bs (inr (inr (inl (h, e)))) = rw e (le_four n ∙ ap ok (omega arith))
le_decodes n bs (inr (inr (inr (h, e)))) = rw e (le_eight n ∙ ap ok (omega arith))

LeWidths-encode_uint : (n : ℕ) → n < 2 ^ 64 → LeWidths n (le_encode_uint n)
unfolding le_encode_uint
LeWidths-encode_uint n h = elim (dec_lt n (2 ^ 8)) [
  | yes a ↦ let e : n % 2 ^ 8 ≡ n = omega arith in inl (rw (lt→ltb n (2 ^ 8) a, e) refl)
  | no a ↦
      let t : ltb n (2 ^ 8) ≡ false = ground arith in
      elim (dec_lt n (2 ^ 16)) [
        | yes b ↦
            let e : n % 2 ^ 16 ≡ n = omega arith in
            inr (inl (b, rw (t, lt→ltb n (2 ^ 16) b, e) refl))
        | no b ↦
            let u : ltb n (2 ^ 16) ≡ false = ground arith in
            elim (dec_lt n (2 ^ 32)) [
              | yes c ↦
                  let e : n % 2 ^ 32 ≡ n = omega arith in
                  inr (inr (inl (c, rw (t, u, lt→ltb n (2 ^ 32) c, e) refl)))
              | no c ↦
                  let v : ltb n (2 ^ 32) ≡ false = ground arith in
                  inr (inr (inr (h, rw (t, u, v) refl)))
            ]
      ]
]

LeWidths-encode_int : (n : ℕ) → n < 2 ^ 63 → LeWidths n (le_encode_int (pos n))
unfolding le_encode_int
LeWidths-encode_int n h = elim (dec_lt n (2 ^ 7)) [
  | yes a ↦
      let t : ltb_ℤ (pos n) (pos (2 ^ 7)) ≡ true = ground arith in inl (rw (t, int8_word n a) refl)
  | no a ↦
      let t : ltb_ℤ (pos n) (pos (2 ^ 7)) ≡ false = ground arith in
      elim (dec_lt n (2 ^ 15)) [
        | yes b ↦
            let t' : ltb_ℤ (pos n) (pos (2 ^ 15)) ≡ true = ground arith in
            inr (inl (omega arith, rw (t, t', int16_word n b) refl))
        | no b ↦
            let u : ltb_ℤ (pos n) (pos (2 ^ 15)) ≡ false = ground arith in
            elim (dec_lt n (2 ^ 31)) [
              | yes c ↦
                  let t' : ltb_ℤ (pos n) (pos (2 ^ 31)) ≡ true = ground arith in
                  inr (inr (inl (omega arith, rw (t, u, t', int32_word n c) refl)))
              | no c ↦
                  let v : ltb_ℤ (pos n) (pos (2 ^ 31)) ≡ false = ground arith in
                  let e : n % 2 ^ 64 ≡ n = omega arith in
                  inr (inr (inr (omega arith, rw (t, u, v, e) refl)))
            ]
      ]
]

le_int_lem : (n : ℕ) → n < 2 ^ 63 → le_decode_to_int (le_encode_int (pos n)) ≡ ok (pos n)
unfolding le_decode_to_int
le_int_lem n h =
    rw (le_decodes n (le_encode_int (pos n)) (LeWidths-encode_int n h), int64_word n h) refl

-- the last byte of a negative number
le_negative_lem : (n : ℕ) → le_decode_to_int (le_encode_int (negsuc n)) ≡ ok (pos (255 - n % 256))
unfolding le_encode_int le_decode_to_int
le_negative_lem n =
    let t : ltb_ℤ (negsuc n) (pos (2 ^ 7)) ≡ true = ground arith in
    let small : 255 - n % 256 < 2 ^ 63 = omega arith in
    rw (t, int8_byte (255 - n % 256) (omega arith), int64_word (255 - n % 256) small) refl

be_one : (b : ℕ) → be_decode_to_uint (b ∷ []) ≡ ok b
unfolding be_decode_to_uint be_decode_to_uint8
be_one b = refl

be_two : (n : ℕ) → be_decode_to_uint (be_bytes 2 n) ≡ ok (n % 2 ^ 16)
unfolding be_decode_to_uint
be_two n = be_uint16_lem n []

be_four : (n : ℕ) → be_decode_to_uint (be_bytes 4 n) ≡ ok (n % 2 ^ 32)
unfolding be_decode_to_uint
be_four n = be_uint32_lem n []

be_eight : (n : ℕ) → be_decode_to_uint (be_bytes 8 n) ≡ ok (n % 2 ^ 64)
unfolding be_decode_to_uint
be_eight n = be_uint64_lem n []

-- the encodings that a number can have, each with the bound below which it has it
abbrev BeWidths : ℕ → List ℕ → Type 0
BeWidths n bs =
    (bs ≡ n ∷ [])
    ⊎ ((n < 2 ^ 16) × (bs ≡ be_bytes 2 n))
    ⊎ ((n < 2 ^ 32) × (bs ≡ be_bytes 4 n))
    ⊎ ((n < 2 ^ 64) × (bs ≡ be_bytes 8 n))

be_decodes : (n : ℕ) (bs : List ℕ) → BeWidths n bs → be_decode_to_uint bs ≡ ok n
be_decodes n bs (inl e) = rw e (be_one n)
be_decodes n bs (inr (inl (h, e))) = rw e (be_two n ∙ ap ok (omega arith))
be_decodes n bs (inr (inr (inl (h, e)))) = rw e (be_four n ∙ ap ok (omega arith))
be_decodes n bs (inr (inr (inr (h, e)))) = rw e (be_eight n ∙ ap ok (omega arith))

BeWidths-encode_uint : (n : ℕ) → n < 2 ^ 64 → BeWidths n (be_encode_uint n)
unfolding be_encode_uint
BeWidths-encode_uint n h = elim (dec_lt n (2 ^ 8)) [
  | yes a ↦ let e : n % 2 ^ 8 ≡ n = omega arith in inl (rw (lt→ltb n (2 ^ 8) a, e) refl)
  | no a ↦
      let t : ltb n (2 ^ 8) ≡ false = ground arith in
      elim (dec_lt n (2 ^ 16)) [
        | yes b ↦
            let e : n % 2 ^ 16 ≡ n = omega arith in
            inr (inl (b, rw (t, lt→ltb n (2 ^ 16) b, e) refl))
        | no b ↦
            let u : ltb n (2 ^ 16) ≡ false = ground arith in
            elim (dec_lt n (2 ^ 32)) [
              | yes c ↦
                  let e : n % 2 ^ 32 ≡ n = omega arith in
                  inr (inr (inl (c, rw (t, u, lt→ltb n (2 ^ 32) c, e) refl)))
              | no c ↦
                  let v : ltb n (2 ^ 32) ≡ false = ground arith in
                  inr (inr (inr (h, rw (t, u, v) refl)))
            ]
      ]
]

BeWidths-encode_int : (n : ℕ) → n < 2 ^ 63 → BeWidths n (be_encode_int (pos n))
unfolding be_encode_int
BeWidths-encode_int n h = elim (dec_lt n (2 ^ 7)) [
  | yes a ↦
      let t : ltb_ℤ (pos n) (pos (2 ^ 7)) ≡ true = ground arith in inl (rw (t, int8_word n a) refl)
  | no a ↦
      let t : ltb_ℤ (pos n) (pos (2 ^ 7)) ≡ false = ground arith in
      elim (dec_lt n (2 ^ 15)) [
        | yes b ↦
            let t' : ltb_ℤ (pos n) (pos (2 ^ 15)) ≡ true = ground arith in
            inr (inl (omega arith, rw (t, t', int16_word n b) refl))
        | no b ↦
            let u : ltb_ℤ (pos n) (pos (2 ^ 15)) ≡ false = ground arith in
            elim (dec_lt n (2 ^ 31)) [
              | yes c ↦
                  let t' : ltb_ℤ (pos n) (pos (2 ^ 31)) ≡ true = ground arith in
                  inr (inr (inl (omega arith, rw (t, u, t', int32_word n c) refl)))
              | no c ↦
                  let v : ltb_ℤ (pos n) (pos (2 ^ 31)) ≡ false = ground arith in
                  let e : n % 2 ^ 64 ≡ n = omega arith in
                  inr (inr (inr (omega arith, rw (t, u, v, e) refl)))
            ]
      ]
]

be_int_lem : (n : ℕ) → n < 2 ^ 63 → be_decode_to_int (be_encode_int (pos n)) ≡ ok (pos n)
unfolding be_decode_to_int
be_int_lem n h =
    rw (be_decodes n (be_encode_int (pos n)) (BeWidths-encode_int n h), int64_word n h) refl

-- the last byte of a negative number
be_negative_lem : (n : ℕ) → be_decode_to_int (be_encode_int (negsuc n)) ≡ ok (pos (255 - n % 256))
unfolding be_encode_int be_decode_to_int
be_negative_lem n =
    let t : ltb_ℤ (negsuc n) (pos (2 ^ 7)) ≡ true = ground arith in
    let small : 255 - n % 256 < 2 ^ 63 = omega arith in
    rw (t, int8_byte (255 - n % 256) (omega arith), int64_word (255 - n % 256) small) refl

-- An int that is not negative, and a uint, come back from the encoding whose width depends on the
-- value, in both byte orders. A negative int does not: its last byte comes back.
pub int_round_trip :
    (n m : ℕ)
    → n < 2 ^ 63
    → m < 2 ^ 64
    → (le_decode_to_int (le_encode_int (pos n)) ≡ ok (pos n))
      × (be_decode_to_int (be_encode_int (pos n)) ≡ ok (pos n))
      × (le_decode_to_uint (le_encode_uint m) ≡ ok m)
      × (be_decode_to_uint (be_encode_uint m) ≡ ok m)
      × (le_decode_to_int (le_encode_int (negsuc n)) ≡ ok (pos (255 - n % 256)))
      × (be_decode_to_int (be_encode_int (negsuc n)) ≡ ok (pos (255 - n % 256)))
int_round_trip n m h k = (
  le_int_lem n h,
  be_int_lem n h,
  le_decodes m (le_encode_uint m) (LeWidths-encode_uint m k),
  be_decodes m (be_encode_uint m) (BeWidths-encode_uint m k),
  le_negative_lem n,
  be_negative_lem n,
)
