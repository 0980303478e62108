-- ===== src/Core/Engine/Buffers.antt =====
-- The reused buffers of crates/risk-core/src/quickscorer/engine.rs, and rows side by side in one of them.
use riskanvil.Base.{
  ℕ, zero, suc, ◌+◌, ◌-◌, ◌≤◌, ◌<◌, some, List, [], ◌∷◌, ◌++◌, length, set, get_elem?, ◌≡◌, refl,
  arith, take, drop, replicate, length-take, length-drop, length-append, length-replicate, ap,
}
use mathlib.Core.List.{append-nil}
use riskanvil.Base.Bytes.{slice, slice-append}
use riskanvil.Core.Engine.Scratch.{ensure_len, splice}

module _ {A : Type 0} where
  drop_all : (n : ℕ) (xs : List A) → length xs ≤ n → drop n xs ≡ []
  drop_all zero [] h = refl
  drop_all zero (x ∷ xs) h = absurd (omega arith)
  drop_all (suc n) [] h = refl
  drop_all (suc n) (x ∷ xs) h = drop_all n xs (omega arith)

  pub length-ensure_len : (xs : List A) (n : ℕ) (x : A) → length (ensure_len xs n x) ≡ n
  unfolding ensure_len
  length-ensure_len xs n x =
      let longer = length-append (take n xs) (replicate (n - length xs) x) in
      ground (arith, longer, length-take n xs, length-replicate (n - length xs) x)

  pub length-splice :
      (xs : List A) (off : ℕ) (ys : List A)
      → off + length ys ≤ length xs
      → length (splice xs off ys) ≡ length xs
  unfolding splice
  length-splice xs off ys h = omega (
    arith,
    length-append (take off xs) (ys ++ drop (off + length ys) xs),
    length-append ys (drop (off + length ys) xs),
    length-take off xs,
    length-drop (off + length ys) xs,
  )

  pub splice_whole : (xs ys : List A) → length xs ≡ length ys → splice xs 0 ys ≡ ys
  unfolding splice
  splice_whole xs ys h = rw (drop_all (0 + length ys) xs (omega arith)) (append-nil ys)

  -- What stands before the end of a front part is there whatever follows it.
  range_before :
      (a n b : ℕ) (xs zs : List A)
      → a + n ≤ b
      → b ≤ length xs
      → take n (drop a (take b xs ++ zs)) ≡ take n (drop a xs)
  range_before zero zero b xs zs h k = refl
  range_before zero (suc n) zero xs zs h k = absurd (omega arith)
  range_before zero (suc n) (suc b) [] zs h k = absurd (omega arith)
  range_before zero (suc n) (suc b) (x ∷ xs) zs h k =
      ap (◌∷◌ x) (range_before zero n b xs zs (omega arith) (omega arith))
  range_before (suc a) n zero xs zs h k = absurd (omega arith)
  range_before (suc a) n (suc b) [] zs h k = absurd (omega arith)
  range_before (suc a) n (suc b) (x ∷ xs) zs h k =
      range_before a n b xs zs (omega arith) (omega arith)

  -- A slice that ends before a write is as it was.
  pub slice-splice_before :
      (xs : List A) (off : ℕ) (ys : List A) (a n : ℕ)
      → a + n ≤ off
      → off + length ys ≤ length xs
      → slice (splice xs off ys) a n ≡ slice xs a n
  unfolding splice
  slice-splice_before xs off ys a n h k = ground (
    arith,
    length-splice xs off ys k,
    range_before a n off xs (ys ++ drop (off + length ys) xs) h (omega arith),
  )

  -- The slice that was written holds what was written.
  pub slice-splice_self :
      (xs : List A) (off : ℕ) (ys : List A)
      → off + length ys ≤ length xs
      → slice (splice xs off ys) off (length ys) ≡ some ys
  unfolding splice
  slice-splice_self xs off ys h =
      slice-append (take off xs) ys (drop (off + length ys) xs) off (length ys)
        (omega (arith, length-take off xs)) refl

-- Writing and reading at an index.
module _ {A : Type 0} where
  pub get_elem?-set_self :
      (xs : List A) (i : ℕ) (v : A) → i < length xs → get_elem? (set xs i v) i ≡ some v
  get_elem?-set_self [] i v h = elim h [ ]
  get_elem?-set_self (x ∷ xs) zero v h = refl
  get_elem?-set_self (x ∷ xs) (suc i) v h = get_elem?-set_self xs i v (omega arith)

  pub get_elem?-set_before :
      (xs : List A) (i j : ℕ) (v : A) → j < i → get_elem? (set xs i v) j ≡ get_elem? xs j
  get_elem?-set_before [] i j v h = refl
  get_elem?-set_before (x ∷ xs) zero j v h = elim h [ ]
  get_elem?-set_before (x ∷ xs) (suc i) zero v h = refl
  get_elem?-set_before (x ∷ xs) (suc i) (suc j) v h = get_elem?-set_before xs i j v (omega arith)

  pub take-suc-set :
      (i : ℕ) (xs : List A) (v : A)
      → i < length xs
      → take (suc i) (set xs i v) ≡ take i xs ++ (v ∷ [])
  take-suc-set i [] v h = elim h [ ]
  take-suc-set zero (x ∷ xs) v h = refl
  take-suc-set (suc i) (x ∷ xs) v h = ap (◌∷◌ x) (take-suc-set i xs v (omega arith))
