-- ===== src/Examples/Converted.antt =====
-- A file of one tree that splits on one feature, in the first version of the format of a `QsPack`.
use riskanvil.Base.{ℕ, ◌≤◌, List, [], ◌∷◌, ◌++◌, length, replicate, ok, ◌>>=◌, ◌≡◌, refl, arith}
use riskanvil.Base.Bytes.{le32, le64}
use riskanvil.Boost.Got.{IsBytes}
use riskanvil.Boost.Reader.{le_u32, le_u64, le_f32, read_vec}
use riskanvil.Examples.Data.{whole}
use riskanvil.Forest.Converted.{load-save_qs_pack_v2, score_row-eq-loaded}
use riskanvil.Forest.File.{
  magic_qs, expect, last_or_zero, max_of, read_tree_hdr, read_block_hdr, read_luts, read_mask,
  read_masks, read_leafs, read_header, read_sections, load_qs_pack,
}
use riskanvil.Forest.FileRoundTrip.{without_records}
use riskanvil.Forest.Headers.{indices, score_row}
use riskanvil.Forest.Pack.{QsPack}
use riskanvil.Forest.Quantize.{quantize_row}
use riskanvil.Forest.Save.{save_qs_pack_v2}
use riskanvil.Forest.Trees.{score_tree_quantized, sum_trees}

abbrev qs_luts : List ℕ
qs_luts = 0 ∷ 1 ∷ replicate 127 0

abbrev qs_file : List ℕ
qs_file =
    magic_qs
    ++ (le32 1
        ++ (le32 1
            ++ (le32 1
                ++ (le32 3
                    ++ (le64 79
                        ++ (le64 87
                            ++ (le64 91
                                ++ (le64 119
                                    ++ (le64 131
                                        ++ (le64 260
                                            ++ (le64 292
                                                ++ (le32 0
                                                    ++ (le32 1
                                                        ++ (le32 10
                                                            ++ (le32 0
                                                            ++ (le32 131073
                                                            ++ (le32 0
                                                            ++ (le64 3
                                                            ++ (le64 0
                                                            ++ (0
                                                            ∷ 2
                                                            ∷ 0
                                                            ∷ 0
                                                            ∷ (le32 0
                                                            ++ (le32 0
                                                            ++ (qs_luts
                                                            ++ (le64 1
                                                            ++ (le64 0
                                                            ++ (le64 2
                                                            ++ (le64 0
                                                            ++ (le32 4
                                                            ++ le32 9))))))))))))))))))))))))))))

abbrev qs_pack : QsPack ℕ
qs_pack = record {
  n_features = 1;
  n_trees = 1;
  n_blocks = 1;
  base_score = 3;
  cut_offsets = 0 ∷ 1 ∷ [];
  cuts = 10 ∷ [];
  tree_hdrs =
      record {
        block_off = 0;
        block_cnt = 1;
        leaf_cnt = 2;
        leaf_val_off = 0;
        init_lo = 3;
        init_hi = 0;
      }
      ∷ [];
  block_hdrs = record { fid = 0; bucket_cnt = 2; miss_bucket = 0; lut_off = 0; mask_off = 0 } ∷ [];
  tree_block_off = 0 ∷ [];
  tree_block_cnt = 1 ∷ [];
  tree_leaf_cnt = 2 ∷ [];
  tree_leaf_val_off = 0 ∷ [];
  tree_init_lo = 3 ∷ [];
  tree_init_hi = 0 ∷ [];
  block_fid = 0 ∷ [];
  block_bucket_cnt = 2 ∷ [];
  block_miss_bucket = 0 ∷ [];
  block_lut_off = 0 ∷ [];
  block_mask_off = 0 ∷ [];
  luts = qs_luts;
  masks = record { lo = 1; hi = 0 } ∷ record { lo = 2; hi = 0 } ∷ [];
  masks_lo = 1 ∷ 2 ∷ [];
  masks_hi = 0 ∷ 0 ∷ [];
  leaf_values = 4 ∷ 9 ∷ [];
}

loads_qs : load_qs_pack qs_file ≡ ok qs_pack
unfolding load_qs_pack read_header read_sections expect last_or_zero max_of read_tree_hdr
    read_block_hdr read_luts read_mask read_masks read_leafs le_u32 le_u64 le_f32 read_vec
loads_qs = refl

qs-IsBytes : IsBytes qs_file
qs-IsBytes = omega arith

load-save_qs_pack_v2_example :
    (out : List ℕ) × (save_qs_pack_v2 qs_pack ≡ ok out)
    × (length out ≤ length qs_file)
    × (load_qs_pack out ≡ ok (without_records qs_pack))
load-save_qs_pack_v2_example =
    load-save_qs_pack_v2 qs_file qs_pack (λ w h. refl) qs-IsBytes (omega arith) loads_qs

score_row-eq-loaded_example : score_row qs_pack (12 ∷ []) (0 ∷ [], 0 ∷ []) ≡ (
    quantize_row qs_pack (12 ∷ []) 1 0 (0 ∷ [], 0 ∷ []) >>= λ (ranks, missing).
    sum_trees qs_pack (λ t. score_tree_quantized qs_pack t ranks missing) (indices 1 0) (3, 0, 0))
score_row-eq-loaded_example =
    score_row-eq-loaded qs_file qs_pack (λ w h. refl) qs-IsBytes refl loads_qs (12 ∷ [])
      (0 ∷ [], 0 ∷ [])
