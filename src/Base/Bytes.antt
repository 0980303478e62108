-- ===== src/Base/Bytes.antt =====
-- Bytes are numbers below 256. Little-endian fields as `to_le_bytes` writes them and as
-- `from_le_bytes` reads them, slices, and the checked arithmetic of a 64-bit `usize`.
use riskanvil.Base.{
  ℕ, ◌+◌, ◌*◌, ◌/◌, ◌%◌, ◌^◌, ◌≤◌, ◌<◌, ◌≡◌, Option, none, some, List, [], ◌∷◌, ◌++◌, arith, ltb,
  leb, if◌then◌else◌, length, get_or, take, drop, length-take, length-drop, ◌∙◌, ap, length-append,
  drop-append, take-append,
}

abbrev pub le16 : ℕ → List ℕ
le16 x = x % 256 ∷ x / 256 % 256 ∷ []

abbrev pub le32 : ℕ → List ℕ
le32 x = x % 256 ∷ x / 256 % 256 ∷ x / 65536 % 256 ∷ x / 16777216 % 256 ∷ []

abbrev pub le64 : ℕ → List ℕ
le64 x = le32 (x % 2 ^ 32) ++ le32 (x / 2 ^ 32)

-- The byte `b[i]`. Each read of the code stands behind a length check, so that the default is
-- never met.
abbrev pub byte_at : List ℕ → ℕ → ℕ
byte_at b i = get_or b i 0

abbrev pub read_u16 : List ℕ → ℕ → ℕ
read_u16 b i = byte_at b i + byte_at b (i + 1) * 256

abbrev pub read_u32 : List ℕ → ℕ → ℕ
read_u32 b i =
    byte_at b i + byte_at b (i + 1) * 256 + byte_at b (i + 2) * 65536 + byte_at b (i + 3) * 16777216

abbrev pub read_u64 : List ℕ → ℕ → ℕ
read_u64 b i = read_u32 b i + read_u32 b (i + 4) * 2 ^ 32

abbrev pub u32_limit : ℕ
u32_limit = 2 ^ 32

abbrev pub u64_limit : ℕ
u64_limit = 2 ^ 64

-- `a.checked_mul(b)` and `a.checked_add(b)`
abbrev pub checked_mul : ℕ → ℕ → Option ℕ
checked_mul a b = if ltb (a * b) u64_limit then some (a * b) else none

abbrev pub checked_add : ℕ → ℕ → Option ℕ
checked_add a b = if ltb (a + b) u64_limit then some (a + b) else none

-- `&b[off..off + n]`, where `none` is the panic of a range that leaves the slice.
abbrev pub slice {ℓ} : {A : Type ℓ} → List A → ℕ → ℕ → Option (List A)
slice b off n = if leb (off + n) (length b) then some (take n (drop off b)) else none

pub slice-eq-some {ℓ} :
    {A : Type ℓ} (b : List A) (off n : ℕ)
    → off + n ≤ length b
    → slice b off n ≡ some (take n (drop off b))
slice-eq-some b off n h = ground arith

pub length-slice {ℓ} :
    {A : Type ℓ} (b : List A) (off n : ℕ) → off + n ≤ length b → length (take n (drop off b)) ≡ n
length-slice b off n h = omega (arith, length-take n (drop off b), length-drop off b)

-- The four bytes of a word below 2 ^ 32 give the word back.
pub word_bytes :
    (x : ℕ)
    → x < 2 ^ 32
    → x % 256 + x / 256 % 256 * 256 + x / 65536 % 256 * 65536 + x / 16777216 % 256 * 16777216 ≡ x
word_bytes x h = omega arith

pub half_bytes : (x : ℕ) → x < 2 ^ 16 → x % 256 + x / 256 % 256 * 256 ≡ x
half_bytes x h = omega arith

pub halves : (x : ℕ) → x % 2 ^ 32 + x / 2 ^ 32 * 2 ^ 32 ≡ x
halves x = omega arith

pub read-write_u64 : (x : ℕ) → x < 2 ^ 64 → read_u64 (le64 x) 0 ≡ x
read-write_u64 x h =
    omega (arith, word_bytes (x % 2 ^ 32) (omega arith), word_bytes (x / 2 ^ 32) (omega arith))

-- A range that starts where a known front part ends, and is as long as the next part.
pub slice-append {ℓ} :
    {A : Type ℓ} (pre xs ys : List A) (off n : ℕ)
    → length pre ≡ off
    → length xs ≡ n
    → slice (pre ++ (xs ++ ys)) off n ≡ some xs
slice-append pre xs ys off n p q =
    slice-eq-some (pre ++ (xs ++ ys)) off n
      (omega (arith, length-append pre (xs ++ ys), length-append xs ys))
    ∙ ap some (rw (drop-append off pre (xs ++ ys) p) (take-append n xs ys q))
