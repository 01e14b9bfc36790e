-- ===== src/Gbinary/Tests.antt =====
-- Runs of the encoders, and their theorems at concrete values.
use gf.Prelude.{
  ℕ, ◌+◌, ◌-◌, ◌%◌, ◌^◌, ◌≡◌, refl, true, List, [], ◌∷◌, ◌++◌, length, replicate, arith,
}
use gf.Prelude.Int.{pos, negsuc}
use gf.Prelude.Outcome.{ok, panic}
use gf.Gbinary.Value.{nil, int, uint16, bool, str}
use gf.Gbinary.LittleEndian.{
  le_encode_by_length, le_encode_int, le_encode_uint, le_decode_to_int, le_decode_to_uint,
}
use gf.Gbinary.BigEndian.{
  be_encode, be_encode_value, be_encode_int, be_encode_uint, be_decode_to_int, be_decode_to_uint,
  be_decode_to_uint32,
}
use gf.Gbinary.RoundTrip.{FixedWidths, fixed_width_round_trip}
use gf.Gbinary.Variable.{int_round_trip}
use gf.Gbinary.Bits.{
  encode_bits_with_uint, decode_bits_to_uint, decode_loop, encode_bits_to_bytes,
  decode_bytes_to_bits,
}
use gf.Gbinary.Bits.Laws.{decode-encode_bits, missing, low_bytes, encode_bits_to_bytes_lem}

abbrev three_bits : List ℕ
three_bits = 1 ∷ 0 ∷ 1 ∷ []

encodes :
    be_encode (int (pos 300) ∷ uint16 258 ∷ bool true ∷ nil ∷ str (65 ∷ []) ∷ [])
    ≡ 1 ∷ 44 ∷ 1 ∷ 2 ∷ 1 ∷ []
unfolding be_encode be_encode_value be_encode_int
encodes = refl

cuts : le_encode_by_length (pos 1) (uint16 258 ∷ []) ≡ ok (2 ∷ [])
unfolding le_encode_by_length
cuts = refl

-- A negative length panics.
negative_length : le_encode_by_length (negsuc 0) (uint16 258 ∷ []) ≡ panic
unfolding le_encode_by_length
negative_length = refl

fills_up : be_decode_to_uint32 (1 ∷ 2 ∷ []) ≡ ok 258
unfolding be_decode_to_uint32
fills_up = refl

five_bits : encode_bits_to_bytes (1 ∷ 0 ∷ 1 ∷ 1 ∷ 1 ∷ []) ≡ ok (184 ∷ [])
unfolding encode_bits_to_bytes decode_loop
five_bits = refl

fixed_width_round_trip_example : FixedWidths 70000 (negsuc 299) (7 ∷ [])
fixed_width_round_trip_example = fixed_width_round_trip 70000 (negsuc 299) (7 ∷ [])

int_round_trip_example :
    (le_decode_to_int (le_encode_int (pos 70000)) ≡ ok (pos 70000))
    × (be_decode_to_int (be_encode_int (pos 70000)) ≡ ok (pos 70000))
    × (le_decode_to_uint (le_encode_uint 300) ≡ ok 300)
    × (be_decode_to_uint (be_encode_uint 300) ≡ ok 300)
    × (le_decode_to_int (le_encode_int (negsuc 70000)) ≡ ok (pos (255 - 70000 % 256)))
    × (be_decode_to_int (be_encode_int (negsuc 70000)) ≡ ok (pos (255 - 70000 % 256)))
int_round_trip_example = int_round_trip 70000 300 (omega arith) (omega arith)

encode_bits_to_bytes_lem_example :
    (encode_bits_to_bytes (decode_bytes_to_bits (200 ∷ 3 ∷ [])) ≡ ok (low_bytes (200 ∷ 3 ∷ [])))
    × (encode_bits_to_bytes three_bits
        ≡ encode_bits_to_bytes (three_bits ++ replicate (missing three_bits) 0))
    × ((length three_bits + missing three_bits) % 8 ≡ 0)
encode_bits_to_bytes_lem_example = encode_bits_to_bytes_lem (200 ∷ 3 ∷ []) three_bits

four_bits :
    (a : List ℕ) × (encode_bits_with_uint (1 ∷ []) 37 (pos 4) ≡ ok ((1 ∷ []) ++ a))
    × (length a ≡ 4)
    × (decode_bits_to_uint a ≡ 37 % 2 ^ 4)
four_bits = decode-encode_bits (1 ∷ []) 37 4 (omega arith)
