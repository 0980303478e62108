-- ===== src/Examples/Trees.antt =====
-- A tree of three leaves and two blocks.
use riskanvil.Base.{ℕ, ◌≤◌, ◌<◌, not, List, [], ◌∷◌, ltb, ok, ◌≡◌, refl, arith, zero, suc}
use riskanvil.Forest.Words.{trailing_zeros, zeros_of, is_power_of_two}
use riskanvil.Forest.Pack.{QsPack}
use riskanvil.Forest.Headers.{IsColumns}
use riskanvil.Forest.Quantize.{upper_bound, at_most, above_at}
use riskanvil.Forest.Trees.{
  block_mask_nomiss, decode_leaf, score_tree, score_tree_indices_from_quantized,
  score_tree_indices_from_quantized_nomiss,
}
use riskanvil.Forest.Cuts.{IsSplit, upper_bound-eq}
use riskanvil.Forest.EarlyExit.{all_blocks, score_tree-eq-all_blocks}
use riskanvil.Forest.NoMissing.{NoneMissing, score_tree_indices-nomiss-eq}
use riskanvil.Examples.Data.{whole}

-- Feature 0 is cut at 10, and feature 1 at 20.
abbrev pack : QsPack ℕ
pack = record {
  n_features = 2;
  n_trees = 1;
  n_blocks = 2;
  base_score = 50;
  cut_offsets = 0 ∷ 1 ∷ 2 ∷ [];
  cuts = 10 ∷ 20 ∷ [];
  tree_hdrs =
      record {
        block_off = 0;
        block_cnt = 2;
        leaf_cnt = 3;
        leaf_val_off = 0;
        init_lo = 7;
        init_hi = 0;
      }
      ∷ [];
  block_hdrs =
      record { fid = 0; bucket_cnt = 2; miss_bucket = 0; lut_off = 0; mask_off = 0 }
      ∷ record { fid = 1; bucket_cnt = 2; miss_bucket = 0; lut_off = 2; mask_off = 2 }
      ∷ [];
  tree_block_off = 0 ∷ [];
  tree_block_cnt = 2 ∷ [];
  tree_leaf_cnt = 3 ∷ [];
  tree_leaf_val_off = 0 ∷ [];
  tree_init_lo = 7 ∷ [];
  tree_init_hi = 0 ∷ [];
  block_fid = 0 ∷ 1 ∷ [];
  block_bucket_cnt = 2 ∷ 2 ∷ [];
  block_miss_bucket = 0 ∷ 0 ∷ [];
  block_lut_off = 0 ∷ 2 ∷ [];
  block_mask_off = 0 ∷ 2 ∷ [];
  luts = 0 ∷ 1 ∷ 0 ∷ 1 ∷ [];
  masks =
      record { lo = 1; hi = 0 }
      ∷ record { lo = 6; hi = 0 }
      ∷ record { lo = 3; hi = 0 }
      ∷ record { lo = 5; hi = 0 }
      ∷ [];
  masks_lo = 1 ∷ 6 ∷ 3 ∷ 5 ∷ [];
  masks_hi = 0 ∷ 0 ∷ 0 ∷ 0 ∷ [];
  leaf_values = 100 ∷ 200 ∷ 300 ∷ [];
}

-- The first block leaves leaf 0 alone, so that the second is not read.
score_tree-eq-all_blocks_example :
    (evals : ℕ) × (early : ℕ) × (score_tree pack (block_mask_nomiss pack (0 ∷ 0 ∷ [])) 0
      ≡ ok (100, evals, early))
    × (evals ≤ 2)
unfolding all_blocks block_mask_nomiss decode_leaf is_power_of_two trailing_zeros zeros_of
score_tree-eq-all_blocks_example =
    score_tree-eq-all_blocks pack (block_mask_nomiss pack (0 ∷ 0 ∷ [])) 0 7 0 0 2 1 0 100 refl refl
      refl refl refl refl

none_missing : NoneMissing pack (0 ∷ 1 ∷ []) (0 ∷ 0 ∷ [])
none_missing zero fid h = ground (arith, h)
none_missing (suc zero) fid h = ground (arith, h)
none_missing (suc (suc i)) fid h = absurd (ground (arith, h))

score_tree_indices-nomiss-eq_example :
    score_tree_indices_from_quantized pack (0 ∷ 0 ∷ []) (0 ∷ 1 ∷ []) (0 ∷ 0 ∷ [])
    ≡ score_tree_indices_from_quantized_nomiss pack (0 ∷ 0 ∷ []) (0 ∷ 1 ∷ [])
score_tree_indices-nomiss-eq_example =
    score_tree_indices-nomiss-eq pack (0 ∷ 1 ∷ []) (0 ∷ 0 ∷ []) (0 ∷ 0 ∷ []) none_missing
      (omega arith)

abbrev cuts : List ℕ
cuts = 10 ∷ 20 ∷ 30 ∷ []

cuts-IsSplit : IsSplit cuts 25 2
cuts-IsSplit = record { inside = omega arith; below = λ i h. below i h; above = λ i h. above i h }
  where
    below : (i : ℕ) → i < 3 → at_most cuts 25 i ≡ ltb i 2
    below zero h = refl
    below (suc zero) h = refl
    below (suc (suc zero)) h = refl
    below (suc (suc (suc i))) h = absurd (omega arith)

    above : (i : ℕ) → i < 3 → above_at cuts 25 i ≡ not (ltb i 2)
    above zero h = refl
    above (suc zero) h = refl
    above (suc (suc zero)) h = refl
    above (suc (suc (suc i))) h = absurd (omega arith)

upper_bound-eq_example : upper_bound cuts 25 ≡ 2
upper_bound-eq_example = upper_bound-eq cuts 25 2 cuts-IsSplit

pack-IsColumns : IsColumns pack
pack-IsColumns = record {
  trees = refl;
  block_off = refl;
  block_cnt = refl;
  leaf_cnt = refl;
  leaf_val_off = refl;
  init_lo = refl;
  init_hi = refl;
  fid = refl;
  miss_bucket = refl;
  lut_off = refl;
  mask_off = refl;
  lo = refl;
  hi = refl;
}
