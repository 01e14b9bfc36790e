-- ===== src/Gbinary/Bits.antt =====
-- encoding/gbinary/gbinary_bits.go. A Bit is 0 or 1.
pub mod Laws
use gf.Prelude.{
  ℕ, zero, suc, ◌+◌, ◌-◌, ◌*◌, ◌/◌, ◌%◌, ◌^◌, ltb, ◌==◌, if◌then◌else◌, List, [], ◌∷◌, ◌++◌, length,
}
use gf.Prelude.Int.{ℤ, pos, negsuc}
use gf.Prelude.Word.{to_uint, of_bits}
use gf.Prelude.Outcome.{Outcome, ok, panic, ◌>>=◌}
use gf.Prelude.Slice.{slice}

-- the loop of EncodeBitsWithUint for the `l` bits left, the last one first
unfoldable pub encode_loop : ℕ → ℕ → List ℕ → List ℕ
encode_loop zero ui a = a
encode_loop (suc l) ui a = encode_loop l (ui / 2) ((ui % 2) ∷ a)

-- EncodeBitsWithUint once its `make` has found that the length is not negative
unfoldable pub encode_width : List ℕ → ℕ → ℕ → List ℕ
unfolding encode_loop
encode_width bits ui l = bits ++ encode_loop l ui []

unfoldable pub encode_bits_with_uint : List ℕ → ℕ → ℤ → Outcome (List ℕ)
encode_bits_with_uint bits ui (pos l) = ok (encode_width bits ui l)
encode_bits_with_uint bits ui (negsuc l) = panic

unfoldable pub encode_bits : List ℕ → ℤ → ℤ → Outcome (List ℕ)
encode_bits bits i l = encode_bits_with_uint bits (to_uint 64 i) l

-- The last bit of `v<<1` is 0, so that `|` adds the bit.
unfoldable pub decode_loop : ℕ → List ℕ → ℕ
decode_loop v [] = v
decode_loop v (i ∷ bits) = decode_loop (2 * v % 2 ^ 64 + i) bits

unfoldable pub decode_bits_to_uint : List ℕ → ℕ
unfolding decode_loop
decode_bits_to_uint bits = decode_loop 0 bits

-- DecodeBits: the same on an int, whose bits these are
unfoldable pub decode_bits : List ℕ → ℤ
unfolding decode_loop
decode_bits bits = of_bits 64 (decode_loop 0 bits)

-- the loop that fills up; its bound is read anew in each round
unfoldable pub fill_up_loop : ℕ → ℕ → List ℕ → List ℕ
fill_up_loop zero i bits = bits
fill_up_loop (suc fuel) i bits =
    let more = fill_up_loop fuel (i + 1) (bits ++ 0 ∷ []) in
    if ltb i (length bits % 8) then more else bits

unfoldable pub bytes_loop : ℕ → ℕ → List ℕ → Outcome (List ℕ)
bytes_loop zero i bits = ok []
bytes_loop (suc fuel) i bits =
    let round = do
      cut ← slice bits (pos i) (pos (i + 8))
      rest ← bytes_loop fuel (i + 8) bits
      ok ((decode_loop 0 cut % 2 ^ 8) ∷ rest)
    in if ltb i (length bits) then round else ok []

unfoldable pub encode_bits_to_bytes : List ℕ → Outcome (List ℕ)
unfolding fill_up_loop bytes_loop
encode_bits_to_bytes bits =
    let filled = if length bits % 8 == 0 then bits else fill_up_loop 8 0 bits in
    bytes_loop (length filled) 0 filled

unfoldable pub bits_loop : List ℕ → List ℕ → List ℕ
unfolding encode_width
bits_loop bits [] = bits
bits_loop bits (b ∷ bs) = bits_loop (encode_width bits b 8) bs

unfoldable pub decode_bytes_to_bits : List ℕ → List ℕ
unfolding bits_loop
decode_bytes_to_bits bs = bits_loop [] bs
