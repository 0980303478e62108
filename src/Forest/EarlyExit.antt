-- ===== src/Forest/EarlyExit.antt =====
-- The walk over the blocks of a tree in crates/risk-quickscorer/src/qs_exact.rs against a walk that
-- reads all of them.
use riskanvil.Base.{
  ℕ, zero, suc, ◌+◌, ◌≤◌, ◌^◌, true, ◌&&◌, ◌==◌, bit_and, Result, ok, ◌>>=◌, ◌≡◌, refl, arith, inl,
  inr, ◌⊎◌, sym, Bool-cases, Result-cases, ==→eq,
}
use mathlib.Core.Path.{subst}
use riskanvil.Base.Float.{Float32}
use riskanvil.Forest.Words.{trailing_zeros, is_power_of_two, power-bit_and, zero-bit_and}
use riskanvil.Forest.Pack.{QsPack, QsError, at}
use riskanvil.Forest.Trees.{
  resolved, decode_leaf, Walk, walk_blocks, single, leaf_value, score_tree,
}

single-power : (x : ℕ) → single x ≡ true → x ≡ 2 ^ trailing_zeros x
unfolding is_power_of_two
single-power x h = ==→eq x (2 ^ trailing_zeros x) (ground arith)

-- A mask leaves a resolved set as it is, or nothing.
single-bit_and : (x m : ℕ) → single x ≡ true → (bit_and x m ≡ 0) ⊎ (bit_and x m ≡ x)
single-bit_and x m h =
    let e = single-power x h in
    subst (λ y. (bit_and y m ≡ 0) ⊎ (bit_and y m ≡ y)) (sym e) (power-bit_and (trailing_zeros x) m)

resolved-bit_and :
    (lo hi m n : ℕ)
    → resolved lo hi ≡ true
    → ((bit_and lo m ≡ 0) × (bit_and hi n ≡ 0)) ⊎ ((bit_and lo m ≡ lo) × (bit_and hi n ≡ hi))
unfolding resolved
resolved-bit_and lo hi m n h = elim (Bool-cases ((hi == 0) && single lo)) [
  | inl low ↦ elim (single-bit_and lo m (ground (arith, low))) [
    | inl p ↦ inl (p, ground (arith, low, zero-bit_and n))
    | inr p ↦ inr (p, ground (arith, low, zero-bit_and n))
  ]
  | inr other ↦ elim (single-bit_and hi n (ground (arith, other, h))) [
    | inl p ↦ inl (ground (arith, other, h, zero-bit_and m), p)
    | inr p ↦ inr (ground (arith, other, h, zero-bit_and m), p)
  ]
]

module _ (mask_of : ℕ → Result QsError (ℕ × ℕ)) where
  -- Every block, with no test in between.
  unfoldable pub all_blocks : ℕ → ℕ → ℕ → ℕ → Result QsError (ℕ × ℕ)
  all_blocks zero idx lo hi = ok (lo, hi)
  all_blocks (suc left) idx lo hi = do
    mask ← mask_of idx
    all_blocks left (idx + 1) (bit_and lo mask.0) (bit_and hi mask.1)

  nothing_left : (left idx a b : ℕ) → all_blocks left idx 0 0 ≡ ok (a, b) → (a ≡ 0) × (b ≡ 0)
  unfolding all_blocks
  nothing_left zero idx a b h = ground (arith, h)
  nothing_left (suc left) idx a b h = elim (Result-cases (mask_of idx)) [
    | inl (e, p) ↦ absurd (ground (arith, p, h))
    | inr (m, p) ↦
        nothing_left left (idx + 1) a b (ground (arith, p, h, zero-bit_and m.0, zero-bit_and m.1))
  ]

  stays :
      (left idx lo hi a b leaf : ℕ)
      → resolved lo hi ≡ true
      → all_blocks left idx lo hi ≡ ok (a, b)
      → decode_leaf a b ≡ ok leaf
      → decode_leaf lo hi ≡ ok leaf
  unfolding all_blocks decode_leaf
  stays zero idx lo hi a b leaf r h d = ground (arith, h, d)
  stays (suc left) idx lo hi a b leaf r h d = elim (Result-cases (mask_of idx)) [
    | inl (e, p) ↦ absurd (ground (arith, p, h))
    | inr (m, p) ↦ elim (resolved-bit_and lo hi m.0 m.1 r) [
      | inl (l, g) ↦
          let gone = nothing_left left (idx + 1) a b (ground (arith, p, h, l, g)) in
          absurd (ground (arith, gone, d))
      | inr (l, g) ↦ stays left (idx + 1) lo hi a b leaf r (ground (arith, p, h, l, g)) d
    ]
  ]

  pub walk_blocks-eq :
      (left idx lo hi evals a b leaf : ℕ)
      → all_blocks left idx lo hi ≡ ok (a, b)
      → decode_leaf a b ≡ ok leaf
      → (w : Walk) × (walk_blocks mask_of left idx lo hi evals ≡ ok w)
        × (decode_leaf w.lo w.hi ≡ ok leaf)
        × (w.block_evals ≤ evals + left)
  unfolding all_blocks walk_blocks
  walk_blocks-eq zero idx lo hi evals a b leaf h d = (
    record { lo = lo; hi = hi; block_evals = evals; resolved_early = 0 },
    refl,
    ground (arith, h, d),
    omega arith,
  )
  walk_blocks-eq (suc left) idx lo hi evals a b leaf h d = elim (Result-cases (mask_of idx)) [
    | inl (e, p) ↦ absurd (ground (arith, p, h))
    | inr (m, p) ↦
        let lo' = bit_and lo m.0 in
        let hi' = bit_and hi m.1 in
        let after : all_blocks left (idx + 1) lo' hi' ≡ ok (a, b) = ground (arith, p, h) in
        elim (Bool-cases (resolved lo' hi')) [
          | inl r ↦ (
            record { lo = lo'; hi = hi'; block_evals = evals + 1; resolved_early = 1 },
            rw (p, r) refl,
            stays left (idx + 1) lo' hi' a b leaf r after d,
            omega arith,
          )
          | inr r ↦
              let (w, run, found, cost) =
                walk_blocks-eq left (idx + 1) lo' hi' (evals + 1) a b leaf after d in
              (w, rw (p, r) run, found, omega (arith, cost))
        ]
  ]

module _ {F : Type 0} ⦃f : Float32 F⦄ (pack : QsPack F) (mask_of : ℕ → Result QsError (ℕ × ℕ)) where
  -- Where the tree's arrays hold its entry and the masks of all its blocks leave one leaf, with a
  -- value, the traversal, which stops as soon as one leaf is left, returns that value, and reads
  -- no more blocks than the tree has.
  pub score_tree-eq-all_blocks :
      (tree_idx lo hi start cnt a b : ℕ) (v : F)
      → at pack.tree_init_lo tree_idx ≡ ok lo
      → at pack.tree_init_hi tree_idx ≡ ok hi
      → at pack.tree_block_off tree_idx ≡ ok start
      → at pack.tree_block_cnt tree_idx ≡ ok cnt
      → all_blocks mask_of cnt start lo hi ≡ ok (a, b)
      → leaf_value pack tree_idx a b ≡ ok v
      → (evals : ℕ) × (early : ℕ) × (score_tree pack mask_of tree_idx ≡ ok (v, evals, early))
        × (evals ≤ cnt)
  unfolding score_tree
  score_tree-eq-all_blocks tree_idx lo hi start cnt a b v init_lo init_hi off count all value =
      elim (Result-cases (decode_leaf a b)) [
        | inl (e, p) ↦ absurd (ground (arith, p, value))
        | inr (leaf, p) ↦
            let (w, run, found, cost) = walk_blocks-eq mask_of cnt start lo hi 0 a b leaf all p in
            (
              w.block_evals,
              w.resolved_early,
              ground (arith, init_lo, init_hi, off, count, run, found, p, value),
              omega (arith, cost),
            )
      ]
