-- ===== src/Boost/Written.antt =====
-- Writers of little-endian fields of crates/risk-quickscorer/src/prefix.rs, and readers that give
-- back what was written.
use riskanvil.Base.{
  ℕ, ◌+◌, ◌/◌, ◌%◌, ◌^◌, ◌≤◌, ◌<◌, false, List, [], ◌∷◌, ◌++◌, length, drop, All, ltb, ok, ◌≡◌,
  refl, ap, ◌∙◌, sym, arith, drop_behind, drop_inside, get_or-drop, length-append, drop-append,
  take-append, bytes_eq, bytes_eq_refl, true, take,
}
use riskanvil.Base.Bytes.{
  le16, le32, le64, byte_at, read_u16, read_u32, read_u64, word_bytes, half_bytes, halves,
}
use riskanvil.Base.Float.{Float32}
use riskanvil.Boost.Reader.{
  LoadError, underflow_bytes, Reader, ◌>>=◌, pure, field, le_u16, le_u32, le_u64, le_i32, le_f32,
  read_vec,
}
use riskanvil.Base.Int.{ℤ, IsI32, i32_of_bits, bits_of_i32, i32_of_bits-bits_of_i32, bits_of_i32-lt}
use riskanvil.Boost.Load.{behind_magic}
use mathlib.Core.List.{append_assoc, append-nil}

-- A slice of `len` bytes.
unfoldable pub le_bytes : ℕ → Reader (List ℕ)
le_bytes len = field len underflow_bytes (λ buf off. take len (drop off buf))

-- A loop that appends the bytes of each element.
unfoldable pub write_vec : {A : Type 0} → (A → List ℕ) → List A → List ℕ
write_vec w [] = []
write_vec w (x ∷ xs) = w x ++ write_vec w xs

-- Wherever the bytes stand in a buffer, the reader takes exactly these and gives the value.
pub record ReadsBack {A : Type 0} (r : Reader A) (bs : List ℕ) (a : A) : Type 0 where
  pub from :
      (buf : List ℕ) (off : ℕ) (rest : List ℕ)
      → off ≤ length buf
      → drop off buf ≡ bs ++ rest
      → r buf off ≡ ok (a, off + length bs)

module _ {A : Type 0} where
  pub pure-ReadsBack : (a : A) → ReadsBack (pure a) [] a
  pure-ReadsBack a = record { from = λ buf off rest inside h. ap (λ n. ok (a, n)) (omega arith) }

  pub bind-ReadsBack :
      {B : Type 0} {bs bs' : List ℕ} {a : A} {b : B} (r : Reader A) (k : A → Reader B)
      → ReadsBack r bs a
      → ReadsBack (k a) bs' b
      → ReadsBack (r >>= k) (bs ++ bs') b
  bind-ReadsBack {bs} {bs'} {b} r k first second = record {
    from = λ buf off rest inside h.
        let front : drop off buf ≡ bs ++ (bs' ++ rest) = h ∙ append_assoc bs bs' rest in
        let e = first.from buf off (bs' ++ rest) inside front in
        let e' =
          second.from buf (off + length bs) rest (drop_inside buf bs (bs' ++ rest) off front inside)
            (drop_behind buf bs (bs' ++ rest) off front) in
        rw (e, e') (ap (λ n. ok (b, n)) (omega (arith, length-append bs bs')));
  }

  -- A reader whose value only goes into a result.
  pub last-ReadsBack :
      {B : Type 0} {bs : List ℕ} {a : A} (r : Reader A) (g : A → B)
      → ReadsBack r bs a
      → ReadsBack (r >>= λ a. pure (g a)) bs (g a)
  last-ReadsBack r g first = record {
    from = λ buf off rest inside h. rw (first.from buf off rest inside h) refl;
  }

  pub field-ReadsBack :
      (n : ℕ) (e : LoadError) (value : List ℕ → ℕ → A) (bs : List ℕ) (a : A)
      → length bs ≡ n
      → ((buf : List ℕ) (off : ℕ) (rest : List ℕ) → drop off buf ≡ bs ++ rest → value buf off ≡ a)
      → ReadsBack (field n e value) bs a
  field-ReadsBack n e value bs a size gives = record {
    from = λ buf off rest inside h.
        let fits : ltb (length buf) (off + n) ≡ false =
          ground (arith, drop_inside buf bs rest off h inside, size) in
        rw (fits, gives buf off rest h, size) refl;
  }

pub read_vec-ReadsBack :
    {A : Type 0} (P : A → Type 0) (r : Reader A) (w : A → List ℕ) (xs : List A)
    → ((x : A) → P x → ReadsBack r (w x) x)
    → All P xs
    → ReadsBack (read_vec r (length xs)) (write_vec w xs) xs
unfolding read_vec write_vec
read_vec-ReadsBack {A} P r w [] one all = pure-ReadsBack {A = List A} []
read_vec-ReadsBack P r w (x ∷ xs) one (p, all) =
    bind-ReadsBack r _ (one x p)
      (last-ReadsBack (read_vec r (length xs)) (λ ys. x ∷ ys) (read_vec-ReadsBack P r w xs one all))

-- A byte of a part that stands at the offset.
pub byte_there :
    (buf bs : List ℕ) (off i : ℕ) → drop off buf ≡ bs → byte_at buf (off + i) ≡ byte_at bs i
byte_there buf bs off i h = rw (get_or-drop off i buf 0, h) refl

pub byte_first : (buf bs : List ℕ) (off : ℕ) → drop off buf ≡ bs → byte_at buf off ≡ byte_at bs 0
byte_first buf bs off h =
    let e : off + 0 ≡ off = omega arith in sym (ap (byte_at buf) e) ∙ byte_there buf bs off 0 h

pub read_u32_there :
    (x : ℕ) (buf : List ℕ) (off : ℕ) (rest : List ℕ)
    → x < 2 ^ 32
    → drop off buf ≡ le32 x ++ rest
    → read_u32 buf off ≡ x
read_u32_there x buf off rest fits h =
    rw
      (
        byte_first buf _ off h,
        byte_there buf _ off 1 h,
        byte_there buf _ off 2 h,
        byte_there buf _ off 3 h,
      )
      (word_bytes x fits)

abbrev pub U16 : ℕ → Type 0
U16 n = n < 2 ^ 16

abbrev pub U32 : ℕ → Type 0
U32 n = n < 2 ^ 32

-- Fewer than 2 ^ 32 elements, each of which has the property.
abbrev pub Saved : {A : Type 0} → (A → Type 0) → List A → Type 0
Saved P xs = U32 (length xs) × All P xs

-- A vector that is as long as a field of its record says.
pub vec_of :
    {A : Type 0} (P : A → Type 0) (r : Reader A) (w : A → List ℕ) (xs : List A) {n : ℕ}
    → length xs ≡ n
    → ((x : A) → P x → ReadsBack r (w x) x)
    → All P xs
    → ReadsBack (read_vec r n) (write_vec w xs) xs
vec_of P r w xs same one all = rw (← same) (read_vec-ReadsBack P r w xs one all)

pub le_u32-ReadsBack : (x : ℕ) → x < 2 ^ 32 → ReadsBack le_u32 (le32 x) x
unfolding le_u32
le_u32-ReadsBack x fits =
    field-ReadsBack 4 _ read_u32 (le32 x) x refl
      (λ buf off rest h. read_u32_there x buf off rest fits h)

pub count :
    {A : Type 0} (P : A → Type 0) (xs : List A)
    → Saved P xs
    → ReadsBack le_u32 (le32 (length xs)) (length xs)
count P xs h = le_u32-ReadsBack (length xs) h.0

pub le_u16-ReadsBack : (x : ℕ) → x < 2 ^ 16 → ReadsBack le_u16 (le16 x) x
unfolding le_u16
le_u16-ReadsBack x fits =
    field-ReadsBack 2 _ read_u16 (le16 x) x refl
      (λ buf off rest h. rw (byte_first buf _ off h, byte_there buf _ off 1 h) (half_bytes x fits))

pub le_u64-ReadsBack : (x : ℕ) → x < 2 ^ 64 → ReadsBack le_u64 (le64 x) x
unfolding le_u64
le_u64-ReadsBack x fits = field-ReadsBack 8 _ read_u64 (le64 x) x refl (λ buf off rest h.
    let low = read_u32_there (x % 2 ^ 32) buf off (le32 (x / 2 ^ 32) ++ rest) (omega arith) h in
    let high =
      read_u32_there (x / 2 ^ 32) buf (off + 4) rest (omega arith)
        (drop_behind buf (le32 (x % 2 ^ 32)) (le32 (x / 2 ^ 32) ++ rest) off h) in
    rw (low, high) (halves x))

-- What a bit pattern and its number are to each other.
pub record IsExact {F : Type 0} ⦃f : Float32 F⦄ (x : F) : Type 0 where
  pub fits : f.to_bits x < 2 ^ 32
  pub exact : f.from_bits (f.to_bits x) ≡ x

abbrev pub le_float : {F : Type 0} → ⦃f : Float32 F⦄ → F → List ℕ
le_float ⦃f⦄ x = le32 (f.to_bits x)

pub le_f32-ReadsBack :
    {F : Type 0} ⦃f : Float32 F⦄ (x : F) → IsExact x → ReadsBack le_f32 (le_float x) x
unfolding le_f32
le_f32-ReadsBack ⦃f⦄ x e =
    field-ReadsBack 4 _ (λ buf off. f.from_bits (read_u32 buf off)) (le_float x) x refl
      (λ buf off rest h.
        ap f.from_bits (read_u32_there (f.to_bits x) buf off rest e.fits h) ∙ e.exact)

pub le_bytes-ReadsBack : (bs : List ℕ) → ReadsBack (le_bytes (length bs)) bs bs
unfolding le_bytes
le_bytes-ReadsBack bs =
    field-ReadsBack (length bs) _ _ bs bs refl
      (λ buf off rest h. rw h (take-append (length bs) bs rest refl))

pub le_i32-ReadsBack : (k : ℤ) → IsI32 k → ReadsBack le_i32 (le32 (bits_of_i32 k)) k
unfolding le_i32
le_i32-ReadsBack k h =
    let word =
      last-ReadsBack _ i32_of_bits (le_u32-ReadsBack (bits_of_i32 k) (bits_of_i32-lt k h)) in
    rw (i32_of_bits-bits_of_i32 k h) at word

-- A file of the magic bytes and what the reader reads back.
pub behind_magic-ReadsBack :
    {A : Type 0} (fields : ℕ) (magic : List ℕ) (r : Reader A) (bs : List ℕ) (a : A)
    → fields ≤ length bs
    → ReadsBack r bs a
    → behind_magic fields magic r (magic ++ bs) ≡ ok a
behind_magic-ReadsBack fields magic r bs a long back =
    let fits : ltb (length (magic ++ bs)) (length magic + fields) ≡ false =
      ground (arith, length-append magic bs) in
    let same : bytes_eq (take (length magic) (magic ++ bs)) magic ≡ true =
      rw (take-append (length magic) magic bs refl) (bytes_eq_refl magic) in
    let read =
      back.from (magic ++ bs) (length magic) [] (omega (arith, length-append magic bs))
        (drop-append (length magic) magic bs refl ∙ sym (append-nil bs)) in
    rw (fits, same, read) refl

-- The same at one offset of one buffer, for readers that look at where they are.
pub record ReadsHere {A : Type 0} (buf : List ℕ) (off : ℕ) (r : Reader A) (bs : List ℕ) (a : A)
    : Type 0 where
  pub from :
      (rest : List ℕ)
      → off ≤ length buf
      → drop off buf ≡ bs ++ rest
      → r buf off ≡ ok (a, off + length bs)

module _ {A : Type 0} (buf : List ℕ) (off : ℕ) where
  pub here : {r : Reader A} {bs : List ℕ} {a : A} → ReadsBack r bs a → ReadsHere buf off r bs a
  here back = record { from = λ rest inside h. back.from buf off rest inside h }

  pub bind-ReadsHere :
      {B : Type 0} {bs bs' : List ℕ} {a : A} {b : B} (r : Reader A) (k : A → Reader B)
      → ReadsHere buf off r bs a
      → ReadsHere buf (off + length bs) (k a) bs' b
      → ReadsHere buf off (r >>= k) (bs ++ bs') b
  bind-ReadsHere {bs} {bs'} {b} r k first second = record {
    from = λ rest inside h.
        let front : drop off buf ≡ bs ++ (bs' ++ rest) = h ∙ append_assoc bs bs' rest in
        let e = first.from (bs' ++ rest) inside front in
        let e' =
          second.from rest (drop_inside buf bs (bs' ++ rest) off front inside)
            (drop_behind buf bs (bs' ++ rest) off front) in
        rw (e, e') (ap (λ n. ok (b, n)) (omega (arith, length-append bs bs')));
  }

  pub last-ReadsHere :
      {B : Type 0} {bs : List ℕ} {a : A} (r : Reader A) (g : A → B)
      → ReadsHere buf off r bs a
      → ReadsHere buf off (r >>= λ a. pure (g a)) bs (g a)
  last-ReadsHere r g first = record { from = λ rest inside h. rw (first.from rest inside h) refl }
