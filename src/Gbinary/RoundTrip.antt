-- ===== src/Gbinary/RoundTrip.antt =====
-- Decoding what was encoded at a fixed width.
use gf.Prelude.{
  ℕ, ◌%◌, ◌^◌, ◌<◌, ◌≡◌, refl, true, leb, List, [], ◌++◌, append-nil, length, length-append, arith,
}
use gf.Prelude.Int.{ℤ, pos, negsuc}
use gf.Prelude.Word.{to_uint, to_int}
use gf.Prelude.Outcome.{ok}
use gf.Prelude.Slice.Laws.{take-append}
use gf.Gbinary.Bytes.{
  le_bytes, be_bytes, le_read, be_read, length-le_bytes, length-be_bytes, le_read-le_bytes,
  be_read-be_bytes,
}
use gf.Gbinary.LittleEndian.{
  le_fill_up_size, le_encode_int8, le_decode_to_int8, le_encode_uint8, le_decode_to_uint8,
  le_encode_int16, le_decode_to_int16, le_encode_uint16, le_decode_to_uint16, le_encode_int32,
  le_decode_to_int32, le_encode_uint32, le_decode_to_uint32, le_encode_int64, le_decode_to_int64,
  le_encode_uint64, le_decode_to_uint64,
}
use gf.Gbinary.BigEndian.{
  be_fill_up_size, be_encode_int8, be_decode_to_int8, be_encode_uint8, be_decode_to_uint8,
  be_encode_int16, be_decode_to_int16, be_encode_uint16, be_decode_to_uint16, be_encode_int32,
  be_decode_to_int32, be_encode_uint32, be_decode_to_uint32, be_encode_int64, be_decode_to_int64,
  be_encode_uint64, be_decode_to_uint64,
}

pub to_uint_fits :
    (z : ℤ)
    → (to_uint 8 z < 2 ^ 8)
      × (to_uint 16 z < 2 ^ 16)
      × (to_uint 32 z < 2 ^ 32)
      × (to_uint 64 z < 2 ^ 64)
to_uint_fits (pos n) = (omega arith, omega arith, omega arith, omega arith)
to_uint_fits (negsuc n) = (omega arith, omega arith, omega arith, omega arith)

-- filled up to the size that was put, or cut off to it
le_fill-le_bytes :
    (n u : ℕ) (rest : List ℕ) → le_fill_up_size (le_bytes n u ++ rest) n ≡ le_bytes n u
unfolding le_fill_up_size
le_fill-le_bytes n u rest =
    let size = length-le_bytes n u in
    let enough : leb n (length (le_bytes n u ++ rest)) ≡ true =
      ground (arith, length-append (le_bytes n u) rest, size) in
    rw enough (rw size at (take-append (le_bytes n u) rest))

le_fixed :
    (n u : ℕ) (rest : List ℕ)
    → le_read n (le_fill_up_size (le_bytes n u ++ rest) n) ≡ ok (u % 256 ^ n)
le_fixed n u rest =
    rw (le_fill-le_bytes n u rest, ← append-nil (le_bytes n u)) (le_read-le_bytes n u [])

-- filled up to the size that was put, or cut off to it
be_fill-be_bytes :
    (n u : ℕ) (rest : List ℕ) → be_fill_up_size (be_bytes n u ++ rest) n ≡ be_bytes n u
unfolding be_fill_up_size
be_fill-be_bytes n u rest =
    let size = length-be_bytes n u in
    let enough : leb n (length (be_bytes n u ++ rest)) ≡ true =
      ground (arith, length-append (be_bytes n u) rest, size) in
    rw enough (rw size at (take-append (be_bytes n u) rest))

be_fixed :
    (n u : ℕ) (rest : List ℕ)
    → be_read n (be_fill_up_size (be_bytes n u ++ rest) n) ≡ ok (u % 256 ^ n)
be_fixed n u rest =
    rw (be_fill-be_bytes n u rest, ← append-nil (be_bytes n u)) (be_read-be_bytes n u [])

pub le_uint16_lem :
    (n : ℕ) (rest : List ℕ) → le_decode_to_uint16 (le_encode_uint16 n ++ rest) ≡ ok (n % 2 ^ 16)
unfolding le_decode_to_uint16
le_uint16_lem n rest = le_fixed 2 n rest

pub le_int16_lem :
    (z : ℤ) (rest : List ℕ) → le_decode_to_int16 (le_encode_int16 z ++ rest) ≡ ok (to_int 16 z)
unfolding le_decode_to_int16
le_int16_lem z rest =
    let small = to_uint_fits z in
    let e : to_uint 16 z % 2 ^ 16 ≡ to_uint 16 z = omega arith in
    rw (le_fixed 2 (to_uint 16 z) rest, e) refl

pub le_uint32_lem :
    (n : ℕ) (rest : List ℕ) → le_decode_to_uint32 (le_encode_uint32 n ++ rest) ≡ ok (n % 2 ^ 32)
unfolding le_decode_to_uint32
le_uint32_lem n rest = le_fixed 4 n rest

pub le_int32_lem :
    (z : ℤ) (rest : List ℕ) → le_decode_to_int32 (le_encode_int32 z ++ rest) ≡ ok (to_int 32 z)
unfolding le_decode_to_int32
le_int32_lem z rest =
    let small = to_uint_fits z in
    let e : to_uint 32 z % 2 ^ 32 ≡ to_uint 32 z = omega arith in
    rw (le_fixed 4 (to_uint 32 z) rest, e) refl

pub le_uint64_lem :
    (n : ℕ) (rest : List ℕ) → le_decode_to_uint64 (le_encode_uint64 n ++ rest) ≡ ok (n % 2 ^ 64)
unfolding le_decode_to_uint64
le_uint64_lem n rest = le_fixed 8 n rest

pub le_int64_lem :
    (z : ℤ) (rest : List ℕ) → le_decode_to_int64 (le_encode_int64 z ++ rest) ≡ ok (to_int 64 z)
unfolding le_decode_to_int64
le_int64_lem z rest =
    let small = to_uint_fits z in
    let e : to_uint 64 z % 2 ^ 64 ≡ to_uint 64 z = omega arith in
    rw (le_fixed 8 (to_uint 64 z) rest, e) refl

le_int8_lem :
    (z : ℤ) (rest : List ℕ) → le_decode_to_int8 (le_encode_int8 z ++ rest) ≡ ok (to_int 8 z)
unfolding le_decode_to_int8
le_int8_lem z rest = refl

le_uint8_lem : (n : ℕ) (rest : List ℕ) → le_decode_to_uint8 (le_encode_uint8 n ++ rest) ≡ ok n
unfolding le_decode_to_uint8
le_uint8_lem n rest = refl

pub be_uint16_lem :
    (n : ℕ) (rest : List ℕ) → be_decode_to_uint16 (be_encode_uint16 n ++ rest) ≡ ok (n % 2 ^ 16)
unfolding be_decode_to_uint16
be_uint16_lem n rest = be_fixed 2 n rest

pub be_int16_lem :
    (z : ℤ) (rest : List ℕ) → be_decode_to_int16 (be_encode_int16 z ++ rest) ≡ ok (to_int 16 z)
unfolding be_decode_to_int16
be_int16_lem z rest =
    let small = to_uint_fits z in
    let e : to_uint 16 z % 2 ^ 16 ≡ to_uint 16 z = omega arith in
    rw (be_fixed 2 (to_uint 16 z) rest, e) refl

pub be_uint32_lem :
    (n : ℕ) (rest : List ℕ) → be_decode_to_uint32 (be_encode_uint32 n ++ rest) ≡ ok (n % 2 ^ 32)
unfolding be_decode_to_uint32
be_uint32_lem n rest = be_fixed 4 n rest

pub be_int32_lem :
    (z : ℤ) (rest : List ℕ) → be_decode_to_int32 (be_encode_int32 z ++ rest) ≡ ok (to_int 32 z)
unfolding be_decode_to_int32
be_int32_lem z rest =
    let small = to_uint_fits z in
    let e : to_uint 32 z % 2 ^ 32 ≡ to_uint 32 z = omega arith in
    rw (be_fixed 4 (to_uint 32 z) rest, e) refl

pub be_uint64_lem :
    (n : ℕ) (rest : List ℕ) → be_decode_to_uint64 (be_encode_uint64 n ++ rest) ≡ ok (n % 2 ^ 64)
unfolding be_decode_to_uint64
be_uint64_lem n rest = be_fixed 8 n rest

pub be_int64_lem :
    (z : ℤ) (rest : List ℕ) → be_decode_to_int64 (be_encode_int64 z ++ rest) ≡ ok (to_int 64 z)
unfolding be_decode_to_int64
be_int64_lem z rest =
    let small = to_uint_fits z in
    let e : to_uint 64 z % 2 ^ 64 ≡ to_uint 64 z = omega arith in
    rw (be_fixed 8 (to_uint 64 z) rest, e) refl

be_int8_lem :
    (z : ℤ) (rest : List ℕ) → be_decode_to_int8 (be_encode_int8 z ++ rest) ≡ ok (to_int 8 z)
unfolding be_decode_to_int8
be_int8_lem z rest = refl

be_uint8_lem : (n : ℕ) (rest : List ℕ) → be_decode_to_uint8 (be_encode_uint8 n ++ rest) ≡ ok n
unfolding be_decode_to_uint8
be_uint8_lem n rest = refl

-- what a number and an integer are after a round trip, more bytes following or not
pub record FixedWidths (n : ℕ) (z : ℤ) (rest : List ℕ) : Type 0 where
  pub le_uint16 : le_decode_to_uint16 (le_encode_uint16 n ++ rest) ≡ ok (n % 2 ^ 16)
  pub le_int16 : le_decode_to_int16 (le_encode_int16 z ++ rest) ≡ ok (to_int 16 z)
  pub le_uint32 : le_decode_to_uint32 (le_encode_uint32 n ++ rest) ≡ ok (n % 2 ^ 32)
  pub le_int32 : le_decode_to_int32 (le_encode_int32 z ++ rest) ≡ ok (to_int 32 z)
  pub le_uint64 : le_decode_to_uint64 (le_encode_uint64 n ++ rest) ≡ ok (n % 2 ^ 64)
  pub le_int64 : le_decode_to_int64 (le_encode_int64 z ++ rest) ≡ ok (to_int 64 z)
  pub le_int8 : le_decode_to_int8 (le_encode_int8 z ++ rest) ≡ ok (to_int 8 z)
  pub le_uint8 : le_decode_to_uint8 (le_encode_uint8 n ++ rest) ≡ ok n
  pub be_uint16 : be_decode_to_uint16 (be_encode_uint16 n ++ rest) ≡ ok (n % 2 ^ 16)
  pub be_int16 : be_decode_to_int16 (be_encode_int16 z ++ rest) ≡ ok (to_int 16 z)
  pub be_uint32 : be_decode_to_uint32 (be_encode_uint32 n ++ rest) ≡ ok (n % 2 ^ 32)
  pub be_int32 : be_decode_to_int32 (be_encode_int32 z ++ rest) ≡ ok (to_int 32 z)
  pub be_uint64 : be_decode_to_uint64 (be_encode_uint64 n ++ rest) ≡ ok (n % 2 ^ 64)
  pub be_int64 : be_decode_to_int64 (be_encode_int64 z ++ rest) ≡ ok (to_int 64 z)
  pub be_int8 : be_decode_to_int8 (be_encode_int8 z ++ rest) ≡ ok (to_int 8 z)
  pub be_uint8 : be_decode_to_uint8 (be_encode_uint8 n ++ rest) ≡ ok n

-- Decoding at the width of the encoding gives back the number, as far as the width holds it, in both
-- byte orders, signed and unsigned, whatever bytes follow.
pub fixed_width_round_trip : (n : ℕ) (z : ℤ) (rest : List ℕ) → FixedWidths n z rest
fixed_width_round_trip n z rest = record {
  le_uint16 = le_uint16_lem n rest;
  le_int16 = le_int16_lem z rest;
  le_uint32 = le_uint32_lem n rest;
  le_int32 = le_int32_lem z rest;
  le_uint64 = le_uint64_lem n rest;
  le_int64 = le_int64_lem z rest;
  le_int8 = le_int8_lem z rest;
  le_uint8 = le_uint8_lem n rest;
  be_uint16 = be_uint16_lem n rest;
  be_int16 = be_int16_lem z rest;
  be_uint32 = be_uint32_lem n rest;
  be_int32 = be_int32_lem z rest;
  be_uint64 = be_uint64_lem n rest;
  be_int64 = be_int64_lem z rest;
  be_int8 = be_int8_lem z rest;
  be_uint8 = be_uint8_lem n rest;
}
