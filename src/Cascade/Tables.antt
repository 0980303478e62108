-- ===== src/Cascade/Tables.antt =====
-- The tables of crates/risk-quickscorer by which the second stage certifies a decision after the
-- first trees (lib.rs, prefix.rs). A fixed array of `f32` is a list of its length.
use riskanvil.Base.{ℕ, Bool, Option, List}
use riskanvil.Base.Int.{ℤ}

pub record LoadedPrefixCheckpoint (F : Type 0) : Type 0 where
  pub checkpoint : ℕ
  pub gap_edges : List F
  pub global_ref_hi : List F
  pub global_rej_lo : List F
  pub tau_edges : List F
  pub fold_ids : List ℤ
  pub fold_lut_base : ℤ
  pub fold_slot_lut : List ℤ
  pub fold_ref_hi : List F
  pub fold_rej_lo : List F
  pub tau_bin_count : ℕ
  pub tau_fold_mask : List ℕ
  pub tau_ref_hi : List F
  pub tau_rej_lo : List F

pub record LoadedPrefixAtlasCentroids16 (F : Type 0) : Type 0 where
  pub w0 : List F
  pub w1 : List F
  pub w2 : List F
  pub w3 : List F
  pub bias : List F

pub record LoadedPrefixAtlasCheckpoint (F : Type 0) : Type 0 where
  pub checkpoint : ℕ
  pub gap_edges : List F
  pub shared_gap_edges : Bool
  pub feature_mean : List F
  pub feature_inv_std : List F
  pub cluster_count : ℕ
  pub tau_bin_count : ℕ
  pub centroid_w0 : List F
  pub centroid_w1 : List F
  pub centroid_w2 : List F
  pub centroid_w3 : List F
  pub centroid_bias : List F
  pub centroids16 : Option (LoadedPrefixAtlasCentroids16 F)
  pub decision_grid : List ℕ

pub record LoadedPrefixCertifyCheckpoint (F : Type 0) : Type 0 where
  pub table : LoadedPrefixCheckpoint F
  pub atlas : LoadedPrefixAtlasCheckpoint F

pub record LoadedPrefixCertifyPlan (F : Type 0) : Type 0 where
  pub tau_edges : List F
  pub checkpoints : List (LoadedPrefixCertifyCheckpoint F)
