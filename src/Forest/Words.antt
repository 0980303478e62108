-- ===== src/Forest/Words.antt =====
-- `trailing_zeros` and `is_power_of_two` of a `u64`, and the sets of leaves that its bits stand for.
use Prim.Native.Nat.{bit_and-bitwise, digits}
use riskanvil.Base.{
  ℕ, zero, suc, ◌+◌, ◌*◌, ◌/◌, ◌%◌, ◌^◌, ◌≤◌, min, Bool, ◌==◌, if◌then◌else◌, bit_and, ◌≡◌, refl,
  arith, ◌⊎◌, inl, inr, ◌∙◌, sym, Bool-cases,
}

-- On `fuel` bits.
unfoldable pub zeros_of : ℕ → ℕ → ℕ
zeros_of zero x = 0
zeros_of (suc fuel) x = let rest = zeros_of fuel (x / 2) in if x % 2 == 1 then 0 else suc rest

unfoldable pub trailing_zeros : ℕ → ℕ
trailing_zeros x = zeros_of 64 x

-- A number of 64 zeros is no power of a `u64`.
unfoldable pub is_power_of_two : ℕ → Bool
is_power_of_two x = x == 2 ^ trailing_zeros x

-- `bit_and` digit by digit, on any number of digits that the first argument does not exceed.
abbrev and_of : ℕ → ℕ → ℕ → ℕ
and_of n a b = digits (λ b. zero) min n a b

and_of-zero : (n b : ℕ) → and_of n 0 b ≡ 0
and_of-zero zero b = refl
and_of-zero (suc n) b = refl

and_of-enough : (n m a b : ℕ) → a ≤ n → a ≤ m → and_of n a b ≡ and_of m a b
and_of-enough n m zero b p q = and_of-zero n b ∙ sym (and_of-zero m b)
and_of-enough zero m (suc a) b p q = absurd (omega arith)
and_of-enough (suc n) zero (suc a) b p q = absurd (omega arith)
and_of-enough (suc n) (suc m) (suc a) b p q =
    let rest = and_of-enough n m (suc a / 2) (b / 2) (omega arith) (omega arith) in
    omega (arith, rest)

pub bit_and_step : (a b : ℕ) → bit_and a b ≡ bit_and (a / 2) (b / 2) * 2 + min (a % 2) (b % 2)
bit_and_step zero b = omega (arith, bit_and-bitwise 0 b, bit_and-bitwise 0 (b / 2))
bit_and_step (suc a) b =
    let same = and_of-enough a (suc a / 2) (suc a / 2) (b / 2) (omega arith) (omega arith) in
    omega (arith, bit_and-bitwise (suc a) b, bit_and-bitwise (suc a / 2) (b / 2), same)

pub zero-bit_and : (b : ℕ) → bit_and 0 b ≡ 0
zero-bit_and b = bit_and-bitwise 0 b

-- A mask leaves a set of one leaf as it is, or nothing of it.
pub power-bit_and : (k m : ℕ) → (bit_and (2 ^ k) m ≡ 0) ⊎ (bit_and (2 ^ k) m ≡ 2 ^ k)
power-bit_and zero m =
    let step = bit_and_step 1 m in
    let none_left = zero-bit_and (m / 2) in
    elim (Bool-cases (m % 2 == 0)) [
      | inl even ↦ inl (ground (arith, step, none_left))
      | inr odd ↦ inr (ground (arith, step, none_left))
    ]
power-bit_and (suc k) m =
    let step = bit_and_step (2 ^ suc k) m in
    let half : 2 ^ suc k ≡ 2 ^ k * 2 = omega arith in
    let down : 2 ^ suc k / 2 ≡ 2 ^ k = omega (arith, half) in
    let even : 2 ^ suc k % 2 ≡ 0 = omega (arith, half) in
    elim (power-bit_and k (m / 2)) [
      | inl p ↦ inl (step ∙ rw (down, even, p) (omega arith))
      | inr p ↦ inr (step ∙ rw (down, even, p) (omega (arith, half)))
    ]
