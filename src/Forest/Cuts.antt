-- ===== src/Forest/Cuts.antt =====
-- `upper_bound` of crates/risk-quickscorer/src/qs_exact.rs against the split of the cuts at a value.
use riskanvil.Base.{
  ℕ, zero, suc, ◌+◌, ◌-◌, ◌/◌, ◌%◌, ◌≤◌, ◌<◌, not, List, length, ltb, ◌≡◌, arith, Bool-cases, inl,
  inr,
}
use riskanvil.Base.Float.{Float32}
use riskanvil.Forest.Quantize.{above_at, at_most, first_above, bisect, upper_bound}

module _ {F : Type 0} ⦃f : Float32 F⦄ (vals : List F) (x : F) where
  -- The first `k` cuts are at most the value, and the others above it. Sorted cuts without a NaN
  -- are so for every value that is none.
  pub record IsSplit (k : ℕ) : Type 0 where
    pub inside : k ≤ length vals
    pub below : (i : ℕ) → i < length vals → at_most vals x i ≡ ltb i k
    pub above : (i : ℕ) → i < length vals → above_at vals x i ≡ not (ltb i k)

  pub first_above-eq :
      (k left i : ℕ) → IsSplit k → i + left ≡ length vals → i ≤ k → first_above vals x left i ≡ k
  unfolding first_above
  first_above-eq k zero i split e le = omega (arith, split.inside)
  first_above-eq k (suc left) i split e le = elim (Bool-cases (ltb i k)) [
    | inl p ↦ ground (
      arith,
      p,
      split.above i (omega arith),
      first_above-eq k left (i + 1) split (omega arith) (ground (arith, p)),
    )
    | inr p ↦ ground (arith, p, split.above i (omega arith))
  ]

  -- With fuel for each of the cuts that are left.
  pub bisect-eq :
      (k fuel lo hi : ℕ)
      → IsSplit k
      → lo ≤ k
      → k ≤ hi
      → hi ≤ length vals
      → hi - lo ≤ fuel
      → bisect vals x fuel lo hi ≡ k
  unfolding bisect
  bisect-eq k zero lo hi split a b c d = omega arith
  bisect-eq k (suc fuel) lo hi split a b c d = elim (Bool-cases (ltb lo hi)) [
    | inr p ↦ ground (arith, p)
    | inl p ↦
        let less : lo < hi = ground (arith, p) in
        let mid = (lo + hi) / 2 in
        elim (Bool-cases (ltb mid k)) [
          | inl q ↦
              let right =
                bisect-eq k fuel (mid + 1) hi split (ground (arith, q)) b c (omega arith) in
              ground (arith, p, q, split.below mid (omega arith), right)
          | inr q ↦
              let left =
                bisect-eq k fuel lo mid split a (ground (arith, q)) (omega arith) (omega arith) in
              ground (arith, p, q, split.below mid (omega arith), left)
        ]
  ]

  -- Where the first k cuts are at most the value and all others above it, the scan of up to 16
  -- cuts and the bisection of more both end with k, as a byte.
  pub upper_bound-eq : (k : ℕ) → IsSplit k → upper_bound vals x ≡ k % 256
  unfolding upper_bound
  upper_bound-eq k split = ground (
    arith,
    first_above-eq k (length vals) 0 split (omega arith) (omega arith),
    bisect-eq k (length vals) 0 (length vals) split (omega arith) split.inside (omega arith)
        (omega arith),
  )
