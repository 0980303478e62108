-- ===== src/Examples/Cascade.antt =====
-- Small files of the second stage: a prefix pack, a layout and a certify plan.
use riskanvil.Base.{ℕ, true, none, List, [], ◌∷◌, ◌++◌, ok, ◌≡◌, refl, arith}
use riskanvil.Base.Bytes.{le32}
use riskanvil.Base.Int.{pos, negsuc}
use riskanvil.Boost.Load.{magic_prf, read_node, read_prefix_pack, load_prefix_pack}
use riskanvil.Boost.Reader.{le_u32, le_i32, le_f32, le_flag, read_vec}
use riskanvil.Cascade.CertifyFile.{centroids_of, save_prefix_certify_plan, load_prefix_certify_plan}
use riskanvil.Cascade.CertifyRoundTrip.{IsTable, IsAtlas, IsPlanFile, load-save_prefix_certify_plan}
use riskanvil.Cascade.Compiled.{load-save-compile}
use riskanvil.Cascade.HotFiles.{
  save_compiled_hot_prefix_pack, load_compiled_hot_prefix_pack, HotCheckpointLayout, IsLayout,
  save_hot_checkpoint_layout, load_hot_checkpoint_layout, load-save_hot_checkpoint_layout,
}
use riskanvil.Cascade.Tables.{
  LoadedPrefixCheckpoint, LoadedPrefixAtlasCheckpoint, LoadedPrefixCertifyPlan,
}
use riskanvil.Examples.Data.{whole}
use riskanvil.Examples.Prefix.{prefix_pack, compiled, compiles_prefix}
use riskanvil.Base.Int.{i32_of_bits}

abbrev none_bytes : List ℕ
none_bytes = 255 ∷ 255 ∷ 255 ∷ 255 ∷ []

abbrev prefix_file : List ℕ
prefix_file =
    magic_prf
    ++ (le32 1
        ++ (le32 1
            ++ (le32 3
                ++ (le32 0
                    ++ (le32 0
                        ++ (le32 0
                            ++ (le32 1
                                ++ (le32 2
                                    ++ (le32 2
                                        ++ (le32 10
                                            ++ (le32 0
                                                ++ (le32 0
                                                    ++ (none_bytes
                                                        ++ (le32 0
                                                            ++ (le32 0
                                                            ++ (le32 0
                                                            ++ (le32 0
                                                            ++ (le32 5
                                                            ++ (le32 1
                                                            ++ (none_bytes
                                                            ++ (le32 0
                                                            ++ (le32 0
                                                            ++ (le32 0
                                                            ++ (le32 0
                                                            ++ (le32 1
                                                            ++ le32 1)))))))))))))))))))))))))

loads_prefix : load_prefix_pack prefix_file ≡ ok prefix_pack
unfolding load_prefix_pack read_prefix_pack read_node le_u32 le_i32 le_f32 le_flag read_vec
    i32_of_bits
loads_prefix = refl

load-save-compile_example :
    load_compiled_hot_prefix_pack (save_compiled_hot_prefix_pack compiled) ≡ ok compiled
load-save-compile_example =
    load-save-compile prefix_file prefix_pack compiled (λ w h. refl) (omega arith) loads_prefix
      compiles_prefix

abbrev layout : HotCheckpointLayout
layout = record {
  hot_values = 16 ∷ 32 ∷ [];
  hot_indices = 0 ∷ 1 ∷ [];
  late_values = 64 ∷ [];
  late_indices = 2 ∷ [];
  late_feature_ids = 3 ∷ 7 ∷ [];
  late_feature_offsets = 0 ∷ 2 ∷ [];
  late_cut_starts = 5 ∷ 9 ∷ [];
  late_cut_ends = 6 ∷ 12 ∷ [];
}

abbrev layout_fits : IsLayout layout
layout_fits = record {
  hot_values = omega arith;
  hot_indices = omega arith;
  late_values = omega arith;
  late_indices = omega arith;
  late_feature_ids = omega arith;
  late_feature_offsets = omega arith;
}

load-save_hot_checkpoint_layout_example :
    load_hot_checkpoint_layout (save_hot_checkpoint_layout layout)
    ≡ ok (record layout { late_cut_starts = []; late_cut_ends = [] })
load-save_hot_checkpoint_layout_example = load-save_hot_checkpoint_layout layout layout_fits

abbrev table : LoadedPrefixCheckpoint ℕ
table = record {
  checkpoint = 16;
  gap_edges = 1 ∷ 4 ∷ [];
  global_ref_hi = 2 ∷ 3 ∷ 5 ∷ [];
  global_rej_lo = 7 ∷ 8 ∷ 9 ∷ [];
  tau_edges = [];
  fold_ids = pos 0 ∷ negsuc 1 ∷ [];
  fold_lut_base = negsuc 1;
  fold_slot_lut = pos 1 ∷ negsuc 0 ∷ pos 0 ∷ [];
  fold_ref_hi = 2 ∷ [];
  fold_rej_lo = 7 ∷ [];
  tau_bin_count = 0;
  tau_fold_mask = 1 ∷ 0 ∷ [];
  tau_ref_hi = [];
  tau_rej_lo = [];
}

abbrev atlas : LoadedPrefixAtlasCheckpoint ℕ
atlas = record {
  checkpoint = 16;
  gap_edges = 1 ∷ [];
  shared_gap_edges = true;
  feature_mean = 1 ∷ 2 ∷ 3 ∷ 4 ∷ [];
  feature_inv_std = 1 ∷ 1 ∷ 1 ∷ 1 ∷ [];
  cluster_count = 1;
  tau_bin_count = 1;
  centroid_w0 = 1 ∷ [];
  centroid_w1 = 2 ∷ [];
  centroid_w2 = 3 ∷ [];
  centroid_w3 = 4 ∷ [];
  centroid_bias = 5 ∷ [];
  centroids16 = none;
  decision_grid = 0 ∷ 2 ∷ [];
}

abbrev plan : LoadedPrefixCertifyPlan ℕ
plan = record { tau_edges = 5 ∷ []; checkpoints = record { table = table; atlas = atlas } ∷ [] }

table_fits : IsTable table
table_fits = record {
  checkpoint = omega arith;
  gap_edges = omega arith;
  global_ref_hi = omega arith;
  global_rej_lo = omega arith;
  tau_edges = omega arith;
  fold_ids = omega arith;
  fold_lut_base = omega arith;
  fold_slot_lut = omega arith;
  fold_ref_hi = omega arith;
  fold_rej_lo = omega arith;
  tau_bin_count = omega arith;
  tau_fold_mask = omega arith;
  tau_ref_hi = omega arith;
  tau_rej_lo = omega arith;
}

atlas_fits : IsAtlas atlas
unfolding centroids_of
atlas_fits = record {
  checkpoint = omega arith;
  gap_edges = omega arith;
  cluster_count = omega arith;
  tau_bin_count = omega arith;
  mean_len = refl;
  feature_mean = omega arith;
  inv_std_len = refl;
  feature_inv_std = omega arith;
  centroid_w0 = omega arith;
  centroid_w1 = omega arith;
  centroid_w2 = omega arith;
  centroid_w3 = omega arith;
  centroid_bias = omega arith;
  decision_grid = omega arith;
  centroids16 = refl;
}

plan_fits : IsPlanFile plan
plan_fits = record {
  tau_edges = omega arith;
  checkpoints = (omega arith, (record { table = table_fits; atlas = atlas_fits }, tt));
}

load-save_prefix_certify_plan_example :
    load_prefix_certify_plan (save_prefix_certify_plan plan) ≡ ok plan
load-save_prefix_certify_plan_example = load-save_prefix_certify_plan plan plan_fits
