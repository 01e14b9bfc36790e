-- ===== src/Prelude/Word.antt =====
-- Go's conversions between int and the sized integer types.
use gf.Prelude.Tests.{ltb, if◌then◌else◌}
use gf.Prelude.Int.{ℤ, pos, negsuc, sub_ℕ}
use Prim.Native.Nat.{ℕ, suc, ◌-◌, ◌/◌, ◌%◌, ◌^◌, ◌≤◌, ◌<◌}
use mathlib.Core.Path.{◌≡◌}
use native.Mathlib.Omega.{arith}

-- the unsigned integer of `w` bits that an integer is converted to
abbrev pub to_uint : ℕ → ℤ → ℕ
to_uint w (pos n) = n % 2 ^ w
to_uint w (negsuc n) = 2 ^ w - 1 - n % 2 ^ w

-- the signed integer that `w` bits stand for
abbrev pub of_bits : ℕ → ℕ → ℤ
of_bits w u = if ltb u (2 ^ (w - 1)) then pos u else negsuc (2 ^ w - u - 1)

-- the signed integer of `w` bits that an integer is converted to
abbrev pub to_int : ℕ → ℤ → ℤ
to_int w z = of_bits w (to_uint w z)

-- the int that a sum or a difference of ints wraps to
unfoldable pub wrap : ℤ → ℤ
wrap z = to_int 64 z

pub wrap-pos : (n : ℕ) → n < 2 ^ 63 → wrap (pos n) ≡ pos n
unfolding wrap
wrap-pos n h = ground arith

pub wrap-negsuc : (n : ℕ) → n < 2 ^ 63 → wrap (negsuc n) ≡ negsuc n
unfolding wrap
wrap-negsuc n h = ground arith

-- what is too large comes out below 0
pub wrap-over : (n : ℕ) → 2 ^ 63 ≤ n → n < 2 ^ 64 → wrap (pos n) ≡ negsuc (2 ^ 64 - n - 1)
unfolding wrap
wrap-over n h l = ground arith

-- what an int holds
abbrev pub IsInt : ℤ → Type 0
IsInt (pos n) = n < 2 ^ 63
IsInt (negsuc n) = n < 2 ^ 63

pub wrap-IsInt : (z : ℤ) → IsInt z → wrap z ≡ z
wrap-IsInt (pos n) h = wrap-pos n h
wrap-IsInt (negsuc n) h = wrap-negsuc n h

-- `a / b`, rounded towards 0
unfoldable pub quotient : ℤ → ℤ → ℤ
unfolding wrap
quotient (pos a) (pos b) = pos (a / b)
quotient (pos a) (negsuc b) = sub_ℕ 0 (a / suc b)
quotient (negsuc a) (pos b) = sub_ℕ 0 (suc a / b)
quotient (negsuc a) (negsuc b) = wrap (pos (suc a / suc b))
