-- ===== src/Gbinary/BigEndian.antt =====
-- encoding/gbinary/gbinary_be.go. Bytes are numbers below 256, a string is its bytes, and a float is
-- given by its bits.
use gf.Prelude.{
  ℕ, ◌-◌, ◌%◌, ◌^◌, Bool, true, false, not, ltb, leb, ◌==◌, if◌then◌else◌, List, [], ◌∷◌, ◌++◌,
  length, take, replicate,
}
use gf.Prelude.Int.{ℤ, pos, negsuc, ltb_ℤ}
use gf.Prelude.Word.{to_uint, to_int, of_bits}
use gf.Prelude.Outcome.{Outcome, ok, ◌>>=◌}
use gf.Prelude.Slice.{load, slice}
use gf.Gbinary.Bytes.{be_bytes, be_read}
use gf.Gbinary.Value.{
  Value, nil, int, int8, int16, int32, int64, uint, uint8, uint16, uint32, uint64, bool, str, bytes,
  float32, float64, other,
}

abbrev pub be_encode_string : List ℕ → List ℕ
be_encode_string s = s

abbrev pub be_decode_to_string : List ℕ → List ℕ
be_decode_to_string b = b

abbrev pub be_encode_bool : Bool → List ℕ
be_encode_bool b = if b then 1 ∷ [] else 0 ∷ []

abbrev pub be_encode_int8 : ℤ → List ℕ
be_encode_int8 i = to_uint 8 i ∷ []

abbrev pub be_encode_uint8 : ℕ → List ℕ
be_encode_uint8 i = i ∷ []

abbrev pub be_encode_int16 : ℤ → List ℕ
be_encode_int16 i = be_bytes 2 (to_uint 16 i)

abbrev pub be_encode_uint16 : ℕ → List ℕ
be_encode_uint16 i = be_bytes 2 i

abbrev pub be_encode_int32 : ℤ → List ℕ
be_encode_int32 i = be_bytes 4 (to_uint 32 i)

abbrev pub be_encode_uint32 : ℕ → List ℕ
be_encode_uint32 i = be_bytes 4 i

abbrev pub be_encode_int64 : ℤ → List ℕ
be_encode_int64 i = be_bytes 8 (to_uint 64 i)

abbrev pub be_encode_uint64 : ℕ → List ℕ
be_encode_uint64 i = be_bytes 8 i

abbrev pub be_encode_float32 : ℕ → List ℕ
be_encode_float32 f = be_bytes 4 f

abbrev pub be_encode_float64 : ℕ → List ℕ
be_encode_float64 f = be_bytes 8 f

-- `i <= math.MaxInt8` and so on: a negative number takes the first branch.
unfoldable pub be_encode_int : ℤ → List ℕ
be_encode_int i =
    if ltb_ℤ i (pos (2 ^ 7))
    then be_encode_int8 (to_int 8 i)
    else if ltb_ℤ i (pos (2 ^ 15))
    then be_encode_int16 (to_int 16 i)
    else if ltb_ℤ i (pos (2 ^ 31))
    then be_encode_int32 (to_int 32 i)
    else be_encode_int64 i

unfoldable pub be_encode_uint : ℕ → List ℕ
be_encode_uint i =
    if ltb i (2 ^ 8)
    then be_encode_uint8 (i % 2 ^ 8)
    else if ltb i (2 ^ 16)
    then be_encode_uint16 (i % 2 ^ 16)
    else if ltb i (2 ^ 32)
    then be_encode_uint32 (i % 2 ^ 32)
    else be_encode_uint64 i

-- one round of the loop of BeEncode
unfoldable pub be_encode_value : Value → List ℕ
unfolding be_encode_int be_encode_uint
be_encode_value nil = []
be_encode_value (int i) = be_encode_int i
be_encode_value (int8 i) = be_encode_int8 i
be_encode_value (int16 i) = be_encode_int16 i
be_encode_value (int32 i) = be_encode_int32 i
be_encode_value (int64 i) = be_encode_int64 i
be_encode_value (uint i) = be_encode_uint i
be_encode_value (uint8 i) = be_encode_uint8 i
be_encode_value (uint16 i) = be_encode_uint16 i
be_encode_value (uint32 i) = be_encode_uint32 i
be_encode_value (uint64 i) = be_encode_uint64 i
be_encode_value (bool b) = be_encode_bool b
be_encode_value (str s) = be_encode_string s
be_encode_value (bytes b) = b
be_encode_value (float32 f) = be_encode_float32 f
be_encode_value (float64 f) = be_encode_float64 f
be_encode_value (other b) = b

-- BeEncode stops at the first nil.
unfoldable pub be_encode : List Value → List ℕ
unfolding be_encode_value
be_encode [] = []
be_encode (nil ∷ values) = []
be_encode (value ∷ values) = be_encode_value value ++ be_encode values

unfoldable pub be_encode_by_length : ℤ → List Value → Outcome (List ℕ)
unfolding be_encode
be_encode_by_length (negsuc n) values = slice (be_encode values) (pos 0) (negsuc n)
be_encode_by_length (pos n) values =
    let b = be_encode values in
    if ltb (length b) n
    then ok (b ++ replicate (n - length b) 0)
    else if ltb n (length b)
    then slice b (pos 0) (pos n)
    else ok b

-- fills up or cuts off
unfoldable pub be_fill_up_size : List ℕ → ℕ → List ℕ
be_fill_up_size b l = if leb l (length b) then take l b else replicate (l - length b) 0 ++ b

unfoldable pub be_decode_to_uint8 : List ℕ → Outcome ℕ
be_decode_to_uint8 b = load b (pos 0)

unfoldable pub be_decode_to_int8 : List ℕ → Outcome ℤ
be_decode_to_int8 b = do x ← load b (pos 0); ok (of_bits 8 x)

unfoldable pub be_decode_to_uint16 : List ℕ → Outcome ℕ
unfolding be_fill_up_size
be_decode_to_uint16 b = be_read 2 (be_fill_up_size b 2)

unfoldable pub be_decode_to_int16 : List ℕ → Outcome ℤ
unfolding be_fill_up_size
be_decode_to_int16 b = do x ← be_read 2 (be_fill_up_size b 2); ok (of_bits 16 x)

unfoldable pub be_decode_to_uint32 : List ℕ → Outcome ℕ
unfolding be_fill_up_size
be_decode_to_uint32 b = be_read 4 (be_fill_up_size b 4)

unfoldable pub be_decode_to_int32 : List ℕ → Outcome ℤ
unfolding be_fill_up_size
be_decode_to_int32 b = do x ← be_read 4 (be_fill_up_size b 4); ok (of_bits 32 x)

unfoldable pub be_decode_to_uint64 : List ℕ → Outcome ℕ
unfolding be_fill_up_size
be_decode_to_uint64 b = be_read 8 (be_fill_up_size b 8)

unfoldable pub be_decode_to_int64 : List ℕ → Outcome ℤ
unfolding be_fill_up_size
be_decode_to_int64 b = do x ← be_read 8 (be_fill_up_size b 8); ok (of_bits 64 x)

unfoldable pub be_decode_to_float32 : List ℕ → Outcome ℕ
unfolding be_fill_up_size
be_decode_to_float32 b = be_read 4 (be_fill_up_size b 4)

unfoldable pub be_decode_to_float64 : List ℕ → Outcome ℕ
unfolding be_fill_up_size
be_decode_to_float64 b = be_read 8 (be_fill_up_size b 8)

unfoldable pub be_decode_to_uint : List ℕ → Outcome ℕ
unfolding be_decode_to_uint8 be_decode_to_uint16 be_decode_to_uint32 be_decode_to_uint64
be_decode_to_uint b =
    if ltb (length b) 2
    then be_decode_to_uint8 b
    else if ltb (length b) 3
    then be_decode_to_uint16 b
    else if ltb (length b) 5
    then be_decode_to_uint32 b
    else be_decode_to_uint64 b

-- Only the conversion from uint64 can change the value.
unfoldable pub be_decode_to_int : List ℕ → Outcome ℤ
unfolding be_decode_to_uint
be_decode_to_int b = do u ← be_decode_to_uint b; ok (of_bits 64 u)

-- `bytes.Compare(b, make([]byte, len(b))) == 0`
abbrev all_zero : List ℕ → Bool
all_zero [] = true
all_zero (b ∷ bs) = elim (b == 0) [ true ↦ all_zero bs | false ↦ false ]

unfoldable pub be_decode_to_bool : List ℕ → Bool
be_decode_to_bool b = if length b == 0 then false else not (all_zero b)
