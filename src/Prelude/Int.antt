-- ===== src/Prelude/Int.antt =====
-- Signed integers over the native numbers, and the two's complement readings of a byte.
use wifi_sniffer.Prelude.Tests.{leb, ltb, ◌==◌, if◌then◌else◌}
use Prim.Native.Nat.{ℕ, suc, ◌+◌, ◌-◌, ◌%◌, ◌≤◌, ◌<◌}
use mathlib.Core.Path.{◌≡◌}
use mathlib.Core.Bool.{Bool, true, ◌&&◌}
use native.Mathlib.Omega.{arith}

-- `negsuc n` is -(n + 1).
pub data ℤ : Type 0 where
  pos : ℕ → ℤ
  negsuc : ℕ → ℤ

abbrev pub pos_part : ℤ → ℕ
pos_part (pos n) = n
pos_part (negsuc _) = 0

abbrev pub neg_part : ℤ → ℕ
neg_part (pos _) = 0
neg_part (negsuc n) = suc n

infix 50 ◌≤ℤ◌
abbrev pub ◌≤ℤ◌ : ℤ → ℤ → Type 0
a ≤ℤ b = pos_part a + neg_part b ≤ pos_part b + neg_part a

abbrev pub leb_ℤ : ℤ → ℤ → Bool
leb_ℤ a b = leb (pos_part a + neg_part b) (pos_part b + neg_part a)

abbrev pub ltb_ℤ : ℤ → ℤ → Bool
ltb_ℤ a b = ltb (pos_part a + neg_part b) (pos_part b + neg_part a)

abbrev pub eq_ℤ : ℤ → ℤ → Bool
eq_ℤ a b = (pos_part a == pos_part b) && (neg_part a == neg_part b)

-- The w-bit pattern of an integer, and the integer that such a pattern stands for: a conversion to
-- a signed type of that width is one after the other.
abbrev pub pattern_of : ℕ → ℤ → ℕ
pattern_of m (pos n) = n % m
pattern_of m (negsuc n) = m - 1 - n % m

abbrev pub signed_of : ℕ → ℕ → ℤ
signed_of m p = if ltb (p + p) m then pos p else negsuc (m - 1 - p)

-- `(int8_t)x` and `(uint8_t)x`.
abbrev pub int8 : ℤ → ℤ
int8 z = signed_of 256 (pattern_of 256 z)

abbrev pub uint8 : ℤ → ℕ
uint8 z = pattern_of 256 z

-- The values of an `int8_t`.
abbrev pub IsInt8 : ℤ → Type 0
IsInt8 (pos n) = n < 128
IsInt8 (negsuc n) = n < 128

pub int8_id : (z : ℤ) → IsInt8 z → int8 z ≡ z
int8_id (pos n) h = ground arith
int8_id (negsuc n) h = ground arith

pub int8-IsInt8 : (z : ℤ) → IsInt8 (int8 z)
int8-IsInt8 (pos n) = ground arith
int8-IsInt8 (negsuc n) = ground arith

pub eq_ℤ→eq : (a b : ℤ) → eq_ℤ a b ≡ true → a ≡ b
eq_ℤ→eq a b h = ground arith

pub eq_ℤ_refl : (a : ℤ) → eq_ℤ a a ≡ true
eq_ℤ_refl a = ground arith

-- `(int16_t)x` and `(uint16_t)x`.
abbrev pub int16 : ℤ → ℤ
int16 z = signed_of 65536 (pattern_of 65536 z)

abbrev pub uint16 : ℤ → ℕ
uint16 z = pattern_of 65536 z
