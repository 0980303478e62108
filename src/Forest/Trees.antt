-- ===== src/Forest/Trees.antt =====
-- The traversal of a tree, which keeps the set of leaves that are left as 128 bits, and its sums.
use riskanvil.Base.{
  ℕ, zero, suc, ◌+◌, Bool, not, ◌&&◌, ◌||◌, List, [], ◌∷◌, ◌==◌, if◌then◌else◌, length, ltb,
  bit_and, Result, ok, err, ◌>>=◌, ◌>>◌, ensure,
}
use riskanvil.Base.Float.{Float32}
use riskanvil.Forest.Words.{trailing_zeros, is_power_of_two}
use riskanvil.Forest.Pack.{QsPack, QsError, no_single_leaf, leaf_outside, tree_outside, at}

abbrev pub single : ℕ → Bool
single x = not (x == 0) && is_power_of_two x

unfoldable pub resolved : ℕ → ℕ → Bool
resolved lo hi = ((hi == 0) && single lo) || ((lo == 0) && single hi)

unfoldable pub decode_leaf : ℕ → ℕ → Result QsError ℕ
decode_leaf lo hi =
    if (hi == 0) && single lo
    then ok (trailing_zeros lo)
    else if (lo == 0) && single hi
    then ok (64 + trailing_zeros hi)
    else err no_single_leaf

-- What a walk over blocks leaves: the bits, the blocks it read and whether it stopped early.
pub record Walk : Type 0 where
  pub lo : ℕ
  pub hi : ℕ
  pub block_evals : ℕ
  pub resolved_early : ℕ

-- The blocks of a tree, whichever way a block finds its mask.
module _ (mask_of : ℕ → Result QsError (ℕ × ℕ)) where
  unfoldable pub walk_blocks : ℕ → ℕ → ℕ → ℕ → ℕ → Result QsError Walk
  walk_blocks zero idx lo hi evals =
      ok (record { lo = lo; hi = hi; block_evals = evals; resolved_early = 0 })
  walk_blocks (suc left) idx lo hi evals = do
    mask ← mask_of idx
    let lo' = bit_and lo mask.0
    let hi' = bit_and hi mask.1
    let rest = walk_blocks left (idx + 1) lo' hi' (evals + 1)
    if resolved lo' hi'
        then ok (record { lo = lo'; hi = hi'; block_evals = evals + 1; resolved_early = 1 })
        else rest

module _ {F : Type 0} ⦃f : Float32 F⦄ (pack : QsPack F) where
  abbrev mask_at : ℕ → ℕ → Result QsError (ℕ × ℕ)
  mask_at block_idx bucket = do
    off ← at pack.block_mask_off block_idx
    lo ← at pack.masks_lo (off + bucket)
    hi ← at pack.masks_hi (off + bucket)
    ok (lo, hi)

  abbrev lut_bucket : ℕ → List ℕ → ℕ → Result QsError ℕ
  lut_bucket block_idx ranks fid = do
    off ← at pack.block_lut_off block_idx
    rank ← at ranks fid
    at pack.luts (off + rank)

  unfoldable pub block_mask : List ℕ → List ℕ → ℕ → Result QsError (ℕ × ℕ)
  block_mask ranks missing block_idx = do
    fid ← at pack.block_fid block_idx
    miss ← at missing fid
    bucket ←
        (if not (miss == 0)
          then at pack.block_miss_bucket block_idx
          else lut_bucket block_idx ranks fid)
    mask_at block_idx bucket

  unfoldable pub block_mask_nomiss : List ℕ → ℕ → Result QsError (ℕ × ℕ)
  block_mask_nomiss ranks block_idx = do
    fid ← at pack.block_fid block_idx
    bucket ← lut_bucket block_idx ranks fid
    mask_at block_idx bucket

  -- The value of the leaf that is left.
  abbrev pub leaf_value : ℕ → ℕ → ℕ → Result QsError F
  leaf_value tree_idx lo hi = do
    leaf_idx ← decode_leaf lo hi
    leaf_cnt ← at pack.tree_leaf_cnt tree_idx
    ensure (ltb leaf_idx leaf_cnt) (leaf_outside leaf_idx leaf_cnt)
    off ← at pack.tree_leaf_val_off tree_idx
    at pack.leaf_values (off + leaf_idx)

  unfoldable pub score_tree : (ℕ → Result QsError (ℕ × ℕ)) → ℕ → Result QsError (F × ℕ × ℕ)
  score_tree mask_of tree_idx = do
    lo ← at pack.tree_init_lo tree_idx
    hi ← at pack.tree_init_hi tree_idx
    start ← at pack.tree_block_off tree_idx
    cnt ← at pack.tree_block_cnt tree_idx
    walk ← walk_blocks mask_of cnt start lo hi 0
    value ← leaf_value tree_idx walk.lo walk.hi
    ok (value, walk.block_evals, walk.resolved_early)

  unfoldable pub score_tree_quantized : ℕ → List ℕ → List ℕ → Result QsError (F × ℕ × ℕ)
  score_tree_quantized tree_idx ranks missing = score_tree (block_mask ranks missing) tree_idx

  unfoldable pub score_tree_quantized_nomiss : ℕ → List ℕ → Result QsError (F × ℕ × ℕ)
  score_tree_quantized_nomiss tree_idx ranks = score_tree (block_mask_nomiss ranks) tree_idx

  -- A tree that has a record is not looked up in the count of trees.
  abbrev pub has_tree : ℕ → Bool
  has_tree t = ltb t (length pack.tree_hdrs) || ltb t pack.n_trees

  -- The sum over trees, with the sums so far.
  unfoldable pub sum_trees :
      (ℕ → Result QsError (F × ℕ × ℕ)) → List ℕ → F × ℕ × ℕ → Result QsError (F × ℕ × ℕ)
  sum_trees tree [] acc = ok acc
  sum_trees tree (t ∷ ts) (score, evals, early) = do
    ensure (has_tree t) (tree_outside t pack.n_trees)
    (s, e, r) ← tree t
    sum_trees tree ts (f.add score s, evals + e, early + r)

  -- The sum without a look at missing values asks for the count of trees alone.
  unfoldable pub sum_trees_nomiss :
      (ℕ → Result QsError (F × ℕ × ℕ)) → List ℕ → F × ℕ × ℕ → Result QsError (F × ℕ × ℕ)
  sum_trees_nomiss tree [] acc = ok acc
  sum_trees_nomiss tree (t ∷ ts) (score, evals, early) = do
    ensure (ltb t pack.n_trees) (tree_outside t pack.n_trees)
    (s, e, r) ← tree t
    sum_trees_nomiss tree ts (f.add score s, evals + e, early + r)

  unfoldable pub score_tree_indices_from_quantized :
      List ℕ → List ℕ → List ℕ → Result QsError (F × ℕ × ℕ)
  score_tree_indices_from_quantized tree_indices ranks missing =
      sum_trees (λ t. score_tree_quantized t ranks missing) tree_indices (f.zero_f, 0, 0)

  unfoldable pub score_tree_indices_from_quantized_nomiss :
      List ℕ → List ℕ → Result QsError (F × ℕ × ℕ)
  score_tree_indices_from_quantized_nomiss tree_indices ranks =
      sum_trees_nomiss (λ t. score_tree_quantized_nomiss t ranks) tree_indices (f.zero_f, 0, 0)
