-- ===== src/Base/Int.antt =====
-- `i32` values, as integers and as the bit patterns that travel on the wire.
use riskanvil.Base.{ℕ, ◌-◌, ◌^◌, ◌<◌, ◌≡◌, Bool, true, false, arith, ltb, ◌==◌, if◌then◌else◌}

-- `negsuc n` is -(n + 1).
pub data ℤ : Type 0 where
  pos : ℕ → ℤ
  negsuc : ℕ → ℤ

abbrev pub int_eq : ℤ → ℤ → Bool
int_eq (pos a) (pos b) = a == b
int_eq (pos a) (negsuc b) = false
int_eq (negsuc a) (pos b) = false
int_eq (negsuc a) (negsuc b) = a == b

pub int_eq_refl : (k : ℤ) → int_eq k k ≡ true
int_eq_refl (pos a) = ground arith
int_eq_refl (negsuc a) = ground arith

pub int_eq→eq : (j k : ℤ) → int_eq j k ≡ true → j ≡ k
int_eq→eq j k h = ground arith

abbrev pub int_ltb : ℤ → ℤ → Bool
int_ltb (pos a) (pos b) = ltb a b
int_ltb (pos a) (negsuc b) = false
int_ltb (negsuc a) (pos b) = true
int_ltb (negsuc a) (negsuc b) = ltb b a

-- Two's complement on 32 bits.
unfoldable pub i32_of_bits : ℕ → ℤ
i32_of_bits w = if ltb w (2 ^ 31) then pos w else negsuc (2 ^ 32 - w - 1)

unfoldable pub bits_of_i32 : ℤ → ℕ
bits_of_i32 (pos n) = n
bits_of_i32 (negsuc n) = 2 ^ 32 - n - 1

abbrev pub IsI32 : ℤ → Type 0
IsI32 (pos n) = n < 2 ^ 31
IsI32 (negsuc n) = n < 2 ^ 31

pub i32_of_bits-bits_of_i32 : (k : ℤ) → IsI32 k → i32_of_bits (bits_of_i32 k) ≡ k
unfolding i32_of_bits bits_of_i32
i32_of_bits-bits_of_i32 (pos n) h = ground arith
i32_of_bits-bits_of_i32 (negsuc n) h = ground arith

pub bits_of_i32-lt : (k : ℤ) → IsI32 k → bits_of_i32 k < 2 ^ 32
unfolding bits_of_i32
bits_of_i32-lt (pos n) h = omega arith
bits_of_i32-lt (negsuc n) h = omega arith

-- Two's complement on 16 bits.
unfoldable pub i16_of_bits : ℕ → ℤ
i16_of_bits w = if ltb w (2 ^ 15) then pos w else negsuc (2 ^ 16 - w - 1)

unfoldable pub bits_of_i16 : ℤ → ℕ
bits_of_i16 (pos n) = n
bits_of_i16 (negsuc n) = 2 ^ 16 - n - 1

abbrev pub IsI16 : ℤ → Type 0
IsI16 (pos n) = n < 2 ^ 15
IsI16 (negsuc n) = n < 2 ^ 15

pub i16_of_bits-bits_of_i16 : (k : ℤ) → IsI16 k → i16_of_bits (bits_of_i16 k) ≡ k
unfolding i16_of_bits bits_of_i16
i16_of_bits-bits_of_i16 (pos n) h = ground arith
i16_of_bits-bits_of_i16 (negsuc n) h = ground arith

pub bits_of_i16-lt : (k : ℤ) → IsI16 k → bits_of_i16 k < 2 ^ 16
unfolding bits_of_i16
bits_of_i16-lt (pos n) h = omega arith
bits_of_i16-lt (negsuc n) h = omega arith
