-- ===== src/Forest/Fields.antt =====
-- Two 16-bit fields in a 32-bit word, put together by `|` and taken apart by `&` and `>>`, as the tree
-- headers of crates/risk-quickscorer/src/qs_exact.rs hold them.
use Prim.Native.Nat.{bit_or-bitwise, digits}
use native.Mathlib.Nat.{pow-suc}
use riskanvil.Base.{
  ℕ, zero, suc, ◌+◌, ◌-◌, ◌*◌, ◌/◌, ◌%◌, ◌^◌, ◌≤◌, ◌<◌, max, bit_and, bit_or, ◌≡◌, refl, ap, arith,
}
use riskanvil.Forest.Words.{bit_and_step, zero-bit_and}

or_of : ℕ → ℕ → ℕ → ℕ
or_of n a b = digits (λ b. b) max n a b

or_of-enough : (n m a b : ℕ) → a ≤ n → a ≤ m → or_of n a b ≡ or_of m a b
unfolding or_of
or_of-enough zero zero zero b p q = refl
or_of-enough zero (suc m) zero b p q = refl
or_of-enough (suc n) zero zero b p q = refl
or_of-enough (suc n) (suc m) zero b p q = refl
or_of-enough zero m (suc a) b p q = absurd (omega arith)
or_of-enough (suc n) zero (suc a) b p q = absurd (omega arith)
or_of-enough (suc n) (suc m) (suc a) b p q =
    let rest = or_of-enough n m (suc a / 2) (b / 2) (omega arith) (omega arith) in
    omega (arith, rest)

zero-bit_or : (b : ℕ) → bit_or 0 b ≡ b
zero-bit_or b = bit_or-bitwise 0 b

bit_or_step : (a b : ℕ) → bit_or a b ≡ bit_or (a / 2) (b / 2) * 2 + max (a % 2) (b % 2)
unfolding or_of
bit_or_step zero b = omega (arith, zero-bit_or b, zero-bit_or (b / 2))
bit_or_step (suc a) b =
    let same = or_of-enough a (suc a / 2) (suc a / 2) (b / 2) (omega arith) (omega arith) in
    omega (arith, bit_or-bitwise (suc a) b, bit_or-bitwise (suc a / 2) (b / 2), same)

doubled : (q k : ℕ) → q * 2 ^ suc k ≡ 2 * (q * 2 ^ k)
doubled q k = omega (arith, ap (λ (t : ℕ). q * t) (pow-suc 2 k))

bit_and-zero_of : (n a : ℕ) → a ≤ n → bit_and a 0 ≡ 0
bit_and-zero_of n zero h = zero-bit_and 0
bit_and-zero_of zero (suc a) h = absurd (omega arith)
bit_and-zero_of (suc n) (suc a) h =
    omega (arith, bit_and_step (suc a) 0, bit_and-zero_of n (suc a / 2) (omega arith))

-- A lower field beside the bits of a higher one.
pub bit_or_beside : (k q r : ℕ) → r < 2 ^ k → bit_or r (q * 2 ^ k) ≡ q * 2 ^ k + r
bit_or_beside zero q r h = ground (arith, zero-bit_or (q * 1))
bit_or_beside (suc k) q r h =
    ground
      (arith, bit_or_step r (q * 2 ^ suc k), doubled q k, bit_or_beside k q (r / 2) (omega arith))

bit_and_lower : (k q r : ℕ) → r < 2 ^ k → bit_and (q * 2 ^ k + r) (2 ^ k - 1) ≡ r
bit_and_lower zero q r h = ground (arith, bit_and-zero_of (q * 1 + r) (q * 1 + r) (omega arith))
bit_and_lower (suc k) q r h = ground (
  arith,
  bit_and_step (q * 2 ^ suc k + r) (2 ^ suc k - 1),
  doubled q k,
  pow-suc 2 k,
  bit_and_lower k q (r / 2) (omega arith),
)

-- What the loader takes out of the word that the writer puts together.
pub lower_field :
    (low high : ℕ)
    → low < 2 ^ 16
    → high < 2 ^ 16
    → bit_and (bit_or low (high * 2 ^ 16 % 2 ^ 32)) 0xffff % 2 ^ 16 ≡ low
lower_field low high h h' =
    let fits : high * 2 ^ 16 % 2 ^ 32 ≡ high * 2 ^ 16 = omega arith in
    rw (fits, bit_or_beside 16 high low h, bit_and_lower 16 high low h) (omega arith)

pub higher_field :
    (low high : ℕ)
    → low < 2 ^ 16
    → high < 2 ^ 16
    → bit_or low (high * 2 ^ 16 % 2 ^ 32) / 2 ^ 16 % 2 ^ 16 ≡ high
higher_field low high h h' =
    let fits : high * 2 ^ 16 % 2 ^ 32 ≡ high * 2 ^ 16 = omega arith in
    rw (fits, bit_or_beside 16 high low h) (omega arith)

pub fields-lt :
    (low high : ℕ) → low < 2 ^ 16 → high < 2 ^ 16 → bit_or low (high * 2 ^ 16 % 2 ^ 32) < 2 ^ 32
fields-lt low high h h' =
    let fits : high * 2 ^ 16 % 2 ^ 32 ≡ high * 2 ^ 16 = omega arith in
    rw (fits, bit_or_beside 16 high low h) (omega arith)
