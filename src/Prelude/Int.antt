-- ===== src/Prelude/Int.antt =====
-- Signed machine integers, by their values.
use Prim.Native.Nat.{ℕ, ◌+◌, ◌-◌, ◌%◌, ◌<◌}
use mathlib.Core.Path.{◌≡◌}
use native.Mathlib.Omega.{arith}
use nproto.Prelude.Tests.{ltb, if◌then◌else◌}

-- `negsuc n` is -(n + 1).
pub data ℤ : Type 0 where
  pos : ℕ → ℤ
  negsuc : ℕ → ℤ

abbrev pub sub_ℕ : ℕ → ℕ → ℤ
sub_ℕ a b = if ltb a b then negsuc (b - a - 1) else pos (a - b)

abbrev pub pos_part : ℤ → ℕ
pos_part (pos n) = n
pos_part (negsuc n) = 0

abbrev pub neg_part : ℤ → ℕ
neg_part (pos n) = 0
neg_part (negsuc n) = n + 1

infixl 65 ◌+ℤ◌
unfoldable pub ◌+ℤ◌ : ℤ → ℤ → ℤ
a +ℤ b = sub_ℕ (pos_part a + pos_part b) (neg_part a + neg_part b)

-- The 16 low bits of the two's complement form.
abbrev pub low16 : ℤ → ℕ
low16 (pos n) = n % 65536
low16 (negsuc n) = 65535 - n % 65536

abbrev pub signed16 : ℕ → ℤ
signed16 b = if ltb b 32768 then pos b else negsuc (65535 - b)

-- Go's conversion of a wider signed integer to int16.
unfoldable pub to_int16 : ℤ → ℤ
to_int16 x = signed16 (low16 x)

abbrev pub IsInt16 : ℤ → Type 0
IsInt16 (pos n) = n < 32768
IsInt16 (negsuc n) = n < 32768

pub to_int16-eq_of_IsInt16 : (x : ℤ) → IsInt16 x → to_int16 x ≡ x
unfolding to_int16
to_int16-eq_of_IsInt16 (pos n) h = ground arith
to_int16-eq_of_IsInt16 (negsuc n) h = ground arith

pub to_int16-IsInt16 : (x : ℤ) → IsInt16 (to_int16 x)
unfolding to_int16
to_int16-IsInt16 (pos n) = ground arith
to_int16-IsInt16 (negsuc n) = ground arith
