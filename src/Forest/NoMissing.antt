-- ===== src/Forest/NoMissing.antt =====
-- The traversals of crates/risk-quickscorer/src/qs_exact.rs with and without missing values.
use riskanvil.Base.{
  ℕ, ◌+◌, ◌≤◌, List, [], ◌∷◌, length, ltb, get_elem?, some, Result, ◌>>=◌, ◌>>◌, ensure, ◌≡◌, refl,
  ◌∙◌, arith, inl, inr, Option-cases, ap,
}
use riskanvil.Base.Float.{Float32}
use riskanvil.Forest.Pack.{QsPack, QsError, tree_outside}
use riskanvil.Forest.Trees.{
  block_mask, block_mask_nomiss, score_tree, score_tree_quantized, score_tree_quantized_nomiss,
  has_tree, sum_trees, sum_trees_nomiss, score_tree_indices_from_quantized,
  score_tree_indices_from_quantized_nomiss,
}

module _ {F : Type 0} ⦃f : Float32 F⦄ (pack : QsPack F) (ranks missing : List ℕ) where
  -- No feature of a block is missing.
  abbrev pub NoneMissing : Type 0
  NoneMissing = (i fid : ℕ) → get_elem? pack.block_fid i ≡ some fid → get_elem? missing fid ≡ some 0

  block_mask-eq :
      NoneMissing → (i : ℕ) → block_mask pack ranks missing i ≡ block_mask_nomiss pack ranks i
  unfolding block_mask block_mask_nomiss
  block_mask-eq none_missing i = elim (Option-cases (get_elem? pack.block_fid i)) [
    | inl p ↦ ground (arith, p)
    | inr (fid, p) ↦ ground (arith, p, none_missing i fid p)
  ]

  -- With no more records than trees, both loops go on at the same indices.
  has_tree-eq :
      (t : ℕ) → length pack.tree_hdrs ≤ pack.n_trees → has_tree pack t ≡ ltb t pack.n_trees
  has_tree-eq t few = ground (arith, few)

  sum_trees-nomiss-eq :
      (tree : ℕ → Result QsError (F × ℕ × ℕ)) (ts : List ℕ) (acc : F × ℕ × ℕ)
      → length pack.tree_hdrs ≤ pack.n_trees
      → sum_trees pack tree ts acc ≡ sum_trees_nomiss pack tree ts acc
  unfolding sum_trees sum_trees_nomiss
  sum_trees-nomiss-eq tree [] acc few = refl
  sum_trees-nomiss-eq tree (t ∷ ts) (score, evals, early) few = rw (has_tree-eq t few) (
      ap (λ k. ensure (ltb t pack.n_trees) (tree_outside t pack.n_trees) >> (tree t >>= k))
        (λ d (s, e, r). sum_trees-nomiss-eq tree ts (f.add score s, evals + e, early + r) few d))

  -- Where the missing flag of every block's feature is 0 and the pack has no more tree records
  -- than trees, any selection of trees, in range or not, has the same sums, or the same error,
  -- with and without a look at the flags.
  pub score_tree_indices-nomiss-eq :
      (tree_indices : List ℕ)
      → NoneMissing
      → length pack.tree_hdrs ≤ pack.n_trees
      → score_tree_indices_from_quantized pack tree_indices ranks missing
        ≡ score_tree_indices_from_quantized_nomiss pack tree_indices ranks
  unfolding score_tree_indices_from_quantized score_tree_indices_from_quantized_nomiss
      score_tree_quantized score_tree_quantized_nomiss
  score_tree_indices-nomiss-eq tree_indices none_missing few =
      ap (λ m. sum_trees pack (λ t. score_tree pack m t) tree_indices (f.zero_f, 0, 0))
        (λ i x. block_mask-eq none_missing x i)
      ∙ sum_trees-nomiss-eq (λ t. score_tree pack (block_mask_nomiss pack ranks) t) tree_indices
          (f.zero_f, 0, 0) few
