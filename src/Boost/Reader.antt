-- ===== src/Boost/Reader.antt =====
-- The readers of little-endian fields of crates/risk-quickscorer/src/prefix.rs, each of which takes
-- the buffer and an offset, and how many bytes they take.
use riskanvil.Base.{
  ℕ, zero, suc, ◌+◌, ◌*◌, ◌≤◌, ◌<◌, true, false, Bool-cases, List, [], ◌∷◌, length, ltb,
  if◌then◌else◌, Result, ok, err, ◌≡◌, refl, inl, inr, arith, ap,
}
use riskanvil.Base.Bytes.{byte_at, read_u16, read_u32, read_u64}
use riskanvil.Base.Float.{Float32}
use riskanvil.Base.Int.{ℤ, i32_of_bits}

pub data LoadError : Type 0 where
  underflow_u16 underflow_u32 underflow_u64 underflow_f32 truncated_flags : LoadError
  underflow_bytes too_short invalid_magic panicked : LoadError
  cut_offsets_mismatch cuts_mismatch tree_hdrs_mismatch block_hdrs_mismatch : LoadError
  block_truncated luts_mismatch luts_too_short masks_too_short : LoadError
  leafs_mismatch leafs_too_short : LoadError

abbrev pub Reader : Type 0 → Type 0
Reader A = List ℕ → ℕ → Result LoadError (A × ℕ)

abbrev pub resume :
    {A B : Type 0} → Result LoadError (A × ℕ) → (A → Reader B) → List ℕ → Result LoadError (B × ℕ)
resume (err e) k buf = err e
resume (ok (a, off)) k buf = k a buf off

infixl 5 ◌>>=◌ ◌>>◌
abbrev pub ◌>>=◌ : {A B : Type 0} → Reader A → (A → Reader B) → Reader B
◌>>=◌ r k buf off = resume (r buf off) k buf

abbrev pub ◌>>◌ : {B : Type 0} → Reader (Unit {0}) → Reader B → Reader B
m >> k = m >>= λ _. k

abbrev pub pure : {A : Type 0} → A → Reader A
pure a buf off = ok (a, off)

-- A field of `n` bytes, or the error of a buffer that ends before it does.
abbrev pub field : {A : Type 0} → ℕ → LoadError → (List ℕ → ℕ → A) → Reader A
field n e value buf off = if ltb (length buf) (off + n) then err e else ok (value buf off, off + n)

unfoldable pub le_u16 : Reader ℕ
le_u16 = field 2 underflow_u16 read_u16

unfoldable pub le_u32 : Reader ℕ
le_u32 = field 4 underflow_u32 read_u32

unfoldable pub le_u64 : Reader ℕ
le_u64 = field 8 underflow_u64 read_u64

unfoldable pub le_i32 : Reader ℤ
le_i32 = le_u32 >>= λ w. pure (i32_of_bits w)

unfoldable pub le_f32 : {F : Type 0} → ⦃f : Float32 F⦄ → Reader F
le_f32 ⦃f⦄ = field 4 underflow_f32 (λ buf off. f.from_bits (read_u32 buf off))

-- The flag at the offset, with three bytes that are skipped.
unfoldable pub le_flag : Reader ℕ
le_flag = field 4 truncated_flags byte_at

-- A loop that pushes what it reads `n` times.
unfoldable pub read_vec : {A : Type 0} → Reader A → ℕ → Reader (List A)
read_vec r zero = pure []
read_vec r (suc n) = do x ← r; xs ← read_vec r n; pure (x ∷ xs)

-- A reader that takes `n` bytes whenever they are there, with a value of which `P` holds, and
-- otherwise ends with an error.
pub record Takes {A : Type 0} (n : ℕ) (P : A → Type 0) (r : Reader A) : Type 0 where
  pub there :
      (buf : List ℕ) (off : ℕ)
      → off + n ≤ length buf
      → (a : A) × (r buf off ≡ ok (a, off + n)) × P a
  pub not_there :
      (buf : List ℕ) (off : ℕ)
      → off ≤ length buf
      → length buf < off + n
      → (e : LoadError) × (r buf off ≡ err e)

abbrev pub Anything : {A : Type 0} → A → Type 0
Anything a = Unit {0}

abbrev pub HasLength : {A : Type 0} → ℕ → List A → Type 0
HasLength n xs = length xs ≡ n

module _ {A : Type 0} where
  pub field-Takes :
      (n : ℕ) (e : LoadError) (value : List ℕ → ℕ → A) → Takes n Anything (field n e value)
  field-Takes n e value = record {
    there = λ buf off h.
        let fits : ltb (length buf) (off + n) ≡ false = ground arith in
        (value buf off, rw fits refl, tt);
    not_there = λ buf off h less.
        let short : ltb (length buf) (off + n) ≡ true = ground arith in (e, rw short refl);
  }

  pub pure-Takes : (P : A → Type 0) (a : A) → P a → Takes 0 P (pure a)
  pure-Takes P a h = record {
    there = λ buf off inside. (a, ap (λ n. ok (a, n)) (omega arith), h);
    not_there = λ buf off inside less. absurd (omega arith);
  }

  -- One reader after the other.
  pub bind-Takes :
      {B : Type 0} {P : A → Type 0} {Q : B → Type 0} (n m : ℕ) (r : Reader A) (k : A → Reader B)
      → Takes n P r
      → ((a : A) → P a → Takes m Q (k a))
      → Takes (n + m) Q (r >>= k)
  bind-Takes n m r k first second = record {
    there = λ buf off h.
        let (a, p, good) = first.there buf off (omega arith) in
        let (b, q, fine) = (second a good).there buf (off + n) (omega arith) in
        (b, rw (p, q) (ap (λ o. ok (b, o)) (omega arith)), fine);
    not_there = λ buf off inside less. elim (Bool-cases (ltb (length buf) (off + n))) [
      | inl h ↦ let (e, p) = first.not_there buf off inside (ground (arith, h)) in (e, rw p refl)
      | inr h ↦
          let (a, p, good) = first.there buf off (ground (arith, h)) in
          let (e, q) = (second a good).not_there buf (off + n) (ground (arith, h)) (omega arith) in
          (e, rw (p, q) refl)
    ];
  }

pub Takes-size :
    {A : Type 0} {P : A → Type 0} {r : Reader A} {n m : ℕ} → n ≡ m → Takes n P r → Takes m P r
Takes-size e h = rw (← e) h

pub read_vec-Takes :
    {A : Type 0} {P : A → Type 0} (k n : ℕ) (r : Reader A)
    → Takes k P r
    → Takes (n * k) (HasLength n) (read_vec r n)
unfolding read_vec
read_vec-Takes k zero r h = Takes-size (grind arith) (pure-Takes (HasLength 0) [] refl)
read_vec-Takes {A} k (suc n) r h = Takes-size (grind arith) (
    bind-Takes k (n * k + 0) r _ h (λ x good.
      bind-Takes (n * k) 0 (read_vec r n) _ (read_vec-Takes k n r h)
        (λ xs same. pure-Takes (HasLength (suc n)) (x ∷ xs) (ap suc same))))

pub le_u32-Takes : Takes 4 Anything le_u32
unfolding le_u32
le_u32-Takes = field-Takes 4 underflow_u32 read_u32

pub le_f32-Takes : {F : Type 0} ⦃f : Float32 F⦄ → Takes 4 Anything (le_f32 {F = F})
unfolding le_f32
le_f32-Takes ⦃f⦄ = field-Takes 4 underflow_f32 (λ buf off. f.from_bits (read_u32 buf off))

pub le_i32-Takes : Takes 4 Anything le_i32
unfolding le_i32
le_i32-Takes = bind-Takes 4 0 le_u32 _ le_u32-Takes (λ w h. pure-Takes Anything (i32_of_bits w) tt)

pub le_flag-Takes : Takes 4 Anything le_flag
unfolding le_flag
le_flag-Takes = field-Takes 4 truncated_flags byte_at
