-- ===== src/Forest/Pack.antt =====
-- A `QsPack` of crates/risk-quickscorer/src/qs_exact.rs, with its trees and blocks both as records
-- and as arrays, and the errors of the traversals. `u8`, `u16`, `u32` and `u64` are numbers.
use riskanvil.Base.{ℕ, List, Result, ok_or, get_elem?}

pub record QsTreeHdr : Type 0 where
  pub block_off : ℕ
  pub block_cnt : ℕ
  pub leaf_cnt : ℕ
  pub leaf_val_off : ℕ
  pub init_lo : ℕ
  pub init_hi : ℕ

pub record QsBlockHdr : Type 0 where
  pub fid : ℕ
  pub bucket_cnt : ℕ
  pub miss_bucket : ℕ
  pub lut_off : ℕ
  pub mask_off : ℕ

pub record Mask128 : Type 0 where
  pub lo : ℕ
  pub hi : ℕ

pub record QsPack (F : Type 0) : Type 0 where
  pub n_features : ℕ
  pub n_trees : ℕ
  pub n_blocks : ℕ
  pub base_score : F
  pub cut_offsets : List ℕ
  pub cuts : List F
  pub tree_hdrs : List QsTreeHdr
  pub block_hdrs : List QsBlockHdr
  pub tree_block_off : List ℕ
  pub tree_block_cnt : List ℕ
  pub tree_leaf_cnt : List ℕ
  pub tree_leaf_val_off : List ℕ
  pub tree_init_lo : List ℕ
  pub tree_init_hi : List ℕ
  pub block_fid : List ℕ
  pub block_bucket_cnt : List ℕ
  pub block_miss_bucket : List ℕ
  pub block_lut_off : List ℕ
  pub block_mask_off : List ℕ
  pub luts : List ℕ
  pub masks : List Mask128
  pub masks_lo : List ℕ
  pub masks_hi : List ℕ
  pub leaf_values : List F

-- `panicked` is an index out of range.
pub data QsError : Type 0 where
  no_single_leaf panicked : QsError
  leaf_outside tree_outside : ℕ → ℕ → QsError

-- `v[i]`
abbrev pub at : {A : Type 0} → List A → ℕ → Result QsError A
at v i = ok_or (get_elem? v i) panicked
