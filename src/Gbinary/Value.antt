-- ===== src/Gbinary/Value.antt =====
-- The arguments of the variadic encoders, by the cases of their type switch.
use gf.Prelude.{ℕ, List, Bool}
use gf.Prelude.Int.{ℤ}

-- A float stands for its bits. `other` holds what the default case writes for the value.
pub data Value : Type 0 where
  nil : Value
  int int8 int16 int32 int64 : ℤ → Value
  uint uint8 uint16 uint32 uint64 : ℕ → Value
  bool : Bool → Value
  str bytes : List ℕ → Value
  float32 float64 : ℕ → Value
  other : List ℕ → Value
