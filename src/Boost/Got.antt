-- ===== src/Boost/Got.antt =====
-- What the readers of crates/risk-quickscorer/src/prefix.rs give from a buffer of bytes: numbers that fit
-- their types, and as many bytes taken as the fields have.
use riskanvil.Base.{
  ℕ, zero, suc, set, ◌+◌, ◌*◌, ◌^◌, ◌≤◌, ◌<◌, Bool-cases, List, [], ◌∷◌, map, length, ltb, All,
  get_elem?, some, take, bytes_eq, ok, Result-cases, inl, inr, ◌≡◌, refl, ap, arith,
}
use riskanvil.Base.Bytes.{byte_at, read_u32, read_u64}
use riskanvil.Base.Float.{Float32}
use riskanvil.Boost.Load.{behind_magic}
use riskanvil.Boost.Reader.{LoadError, Reader, ◌>>=◌, pure, field, le_u32, le_u64, le_f32, read_vec}
use riskanvil.Boost.Written.{U32, IsExact}

abbrev pub IsBytes : List ℕ → Type 0
IsBytes buf = All (λ b. b < 256) buf

pub byte-lt : (buf : List ℕ) (i : ℕ) → IsBytes buf → byte_at buf i < 256
byte-lt [] i h = omega arith
byte-lt (b ∷ bs) zero (p, h) = p
byte-lt (b ∷ bs) (suc i) (p, h) = byte-lt bs i h

-- Both parts of a run that is not an error.
pub bind_ok :
    {A B : Type 0} (r : Reader A) (k : A → Reader B) (buf : List ℕ) (off end : ℕ) (b : B)
    → (r >>= k) buf off ≡ ok (b, end)
    → (a : A) × (mid : ℕ) × (r buf off ≡ ok (a, mid)) × (k a buf mid ≡ ok (b, end))
bind_ok r k buf off end b h = elim (Result-cases (r buf off)) [
  | inl (e, p) ↦ absurd (ground (arith, rw p at h))
  | inr ((a, mid), p) ↦ (a, mid, p, rw p at h)
]

-- A reader that, where it does not fail, takes `n` bytes and gives what has the property.
pub record Got {A : Type 0} (buf : List ℕ) (r : Reader A) (n : ℕ) (P : A → Type 0) : Type 0 where
  pub from :
      (off end : ℕ) (a : A)
      → off ≤ length buf
      → r buf off ≡ ok (a, end)
      → P a × (end ≡ off + n) × (end ≤ length buf)

module _ {A : Type 0} (buf : List ℕ) where
  pub field-Got :
      (n : ℕ) (e : LoadError) (value : List ℕ → ℕ → A) (P : A → Type 0)
      → ((off : ℕ) → P (value buf off))
      → Got buf (field n e value) n P
  field-Got n e value P each = record {
    from = λ off end a inside h. elim (Bool-cases (ltb (length buf) (off + n))) [
      | inl short ↦ absurd (ground (arith, rw short at h))
      | inr fits ↦
          let same : value buf off ≡ a = ground (arith, rw fits at h) in
          (rw same at (each off), ground (arith, rw fits at h), ground (arith, fits, rw fits at h))
    ];
  }

  pub pure-Got : (P : A → Type 0) (a : A) → P a → Got buf (pure a) 0 P
  pure-Got P a p = record {
    from = λ off end b inside h.
        let same : a ≡ b = ground (arith, h) in
        (rw same at p, ground (arith, h), ground (arith, h));
  }

  pub bind-Got :
      {B : Type 0} {P : A → Type 0} {Q : B → Type 0} {r : Reader A} (n m : ℕ) (k : A → Reader B)
      → Got buf r n P
      → ((a : A) → P a → Got buf (k a) m Q)
      → Got buf (r >>= k) (n + m) Q
  bind-Got {r} n m k first second = record {
    from = λ off end b inside h.
        let (a, mid, p, q) = bind_ok r k buf off end b h in
        let (good, at, within) = first.from off mid a inside p in
        let (fine, at', within') = (second a good).from mid end b within q in
        (fine, omega (arith, at, at'), within');
  }

abbrev pub Vector : {A : Type 0} → ℕ → (A → Type 0) → List A → Type 0
Vector n P xs = (length xs ≡ n) × All P xs

pub size-Got :
    {A : Type 0} {buf : List ℕ} {r : Reader A} {P : A → Type 0} {n m : ℕ}
    → n ≡ m
    → Got buf r n P
    → Got buf r m P
size-Got same g = rw same at g

pub read_vec-Got :
    {A : Type 0} (buf : List ℕ) (k n : ℕ) (r : Reader A) (P : A → Type 0)
    → Got buf r k P
    → Got buf (read_vec r n) (n * k) (Vector n P)
unfolding read_vec
read_vec-Got {A} buf k zero r P g =
    size-Got (grind arith) (pure-Got {A = List A} buf (Vector 0 P) [] (refl, tt))
read_vec-Got {A} buf k (suc n) r P g = size-Got (grind arith) (
    bind-Got buf k (n * k + 0) _ g (λ x p.
      bind-Got buf (n * k) 0 _ (read_vec-Got buf k n r P g)
        (λ xs (same, all). pure-Got buf (Vector (suc n) P) (x ∷ xs) (ap suc same, (p, all)))))

module _ (buf : List ℕ) (bytes : IsBytes buf) where
  pub read_u32-lt : (off : ℕ) → read_u32 buf off < 2 ^ 32
  read_u32-lt off = omega (
    arith,
    byte-lt buf off bytes,
    byte-lt buf (off + 1) bytes,
    byte-lt buf (off + 2) bytes,
    byte-lt buf (off + 3) bytes,
  )

  pub le_u32-Got : Got buf le_u32 4 U32
  unfolding le_u32
  le_u32-Got = field-Got buf 4 _ read_u32 U32 read_u32-lt

  pub le_u64-Got : Got buf le_u64 8 (λ n. n < 2 ^ 64)
  unfolding le_u64
  le_u64-Got =
      field-Got buf 8 _ read_u64 _ (λ off. omega (arith, read_u32-lt off, read_u32-lt (off + 4)))

  pub le_f32-Got :
      {F : Type 0} ⦃f : Float32 F⦄
      → ((w : ℕ) → w < 2 ^ 32 → f.to_bits (f.from_bits w) ≡ w)
      → Got buf le_f32 4 (IsExact {F = F})
  unfolding le_f32
  le_f32-Got ⦃f⦄ kept =
      field-Got buf 4 _ (λ b off. f.from_bits (read_u32 b off)) IsExact
        (λ off.
          let same = kept (read_u32 buf off) (read_u32-lt off) in
          record { fits = rw same (read_u32-lt off); exact = ap f.from_bits same })

-- What holds of the value and the end of a run from an offset, unless the run fails.
pub record After {A : Type 0} (buf : List ℕ) (off : ℕ) (r : Reader A) (Post : A → Type 0)
    : Type 0 where
  pub from : (a : A) (end : ℕ) → r buf off ≡ ok (a, end) → Post a

module _ {A B : Type 0} (buf : List ℕ) (off : ℕ) {Post : B → Type 0} where
  pub bind-After :
      (r : Reader A) (k : A → Reader B)
      → ((a : A) (mid : ℕ) → r buf off ≡ ok (a, mid) → After buf mid (k a) Post)
      → After buf off (r >>= k) Post
  bind-After r k rest = record {
    from =
        λ b end h. let (a, mid, p, q) = bind_ok r k buf off end b h in (rest a mid p).from b end q;
  }

  pub step-After :
      {r : Reader A} {n : ℕ} {P : A → Type 0} (k : A → Reader B)
      → Got buf r n P
      → off ≤ length buf
      → ((a : A) (mid : ℕ) → P a → mid ≡ off + n → mid ≤ length buf → After buf mid (k a) Post)
      → After buf off (r >>= k) Post
  step-After {r} k got inside rest = bind-After r k (λ a mid p.
      let (good, stop, within) = got.from off mid a inside p in rest a mid good stop within)

pub pure-After :
    {A : Type 0} (buf : List ℕ) (off : ℕ) {Post : A → Type 0} (a : A)
    → Post a
    → After buf off (pure a) Post
pure-After buf off {Post} a p = record {
  from = λ b end h. let same : a ≡ b = ground (arith, h) in rw same at p;
}

pub move-After :
    {A : Type 0} {buf : List ℕ} {off off' : ℕ} {r : Reader A} {Post : A → Type 0}
    → off ≡ off'
    → After buf off' r Post
    → After buf off r Post
move-After same after = rw same after

pub behind_magic-Got :
    {A : Type 0} {Post : A → Type 0} (fields : ℕ) (magic : List ℕ) (r : Reader A) (buf : List ℕ)
    (a : A)
    → (length magic + fields ≤ length buf → After buf (length magic) r Post)
    → behind_magic fields magic r buf ≡ ok a
    → Post a
behind_magic-Got fields magic r buf a after h =
    elim (Bool-cases (ltb (length buf) (length magic + fields))) [
      | inl p ↦ absurd (ground (arith, rw p at h))
      | inr p ↦ elim (Bool-cases (bytes_eq (take (length magic) buf) magic)) [
        | inr q ↦ absurd (ground (arith, rw (p, q) at h))
        | inl q ↦ elim (Result-cases (r buf (length magic))) [
          | inl (e, s) ↦ absurd (ground (arith, rw (p, q, s) at h))
          | inr ((b, end), s) ↦
              let same : b ≡ a = ground (arith, rw (p, q, s) at h) in
              rw same at ((after (ground (arith, p))).from b end s)
        ]
      ]
    ]

pub All-get :
    {A : Type 0} (P : A → Type 0) (xs : List A) (i : ℕ) (x : A)
    → All P xs
    → get_elem? xs i ≡ some x
    → P x
All-get P [] i x all h = absurd (ground (arith, h))
All-get P (y ∷ ys) zero x (p, all) h = let same : y ≡ x = ground (arith, h) in rw same at p
All-get P (y ∷ ys) (suc i) x (p, all) h = All-get P ys i x all h

pub All-map :
    {A B : Type 0} (P : B → Type 0) (g : A → B) (xs : List A)
    → All (λ a. P (g a)) xs
    → All P (map g xs)
All-map P g [] all = tt
All-map P g (x ∷ xs) (p, all) = (p, All-map P g xs all)

pub All-set :
    {A : Type 0} (P : A → Type 0) (xs : List A) (i : ℕ) (x : A)
    → All P xs
    → P x
    → All P (set xs i x)
All-set P [] i x all p = tt
All-set P (y ∷ ys) zero x (q, all) p = (p, all)
All-set P (y ∷ ys) (suc i) x (q, all) p = (q, All-set P ys i x all p)

pub All-weaken :
    {A : Type 0} (P Q : A → Type 0) (xs : List A) → ((a : A) → P a → Q a) → All P xs → All Q xs
All-weaken P Q [] imp all = tt
All-weaken P Q (x ∷ xs) imp (p, all) = (imp x p, All-weaken P Q xs imp all)
