-- ===== src/Cascade/CertifyFile.antt =====
-- `save_prefix_certify_plan` and `load_prefix_certify_plan` of crates/risk-quickscorer/src/prefix.rs, from
-- the bytes on.
use riskanvil.Base.{
  ℕ, Bool, not, ◌&&◌, Option, none, some, List, [], ◌∷◌, ◌++◌, length, ◌==◌, if◌then◌else◌, Result,
}
use riskanvil.Base.Bytes.{le16, le32, byte_at}
use riskanvil.Base.Float.{Float32}
use riskanvil.Base.Int.{ℤ, i16_of_bits, bits_of_i16, bits_of_i32}
use riskanvil.Boost.Load.{behind_magic}
use riskanvil.Boost.Reader.{
  LoadError, Reader, ◌>>=◌, pure, le_u16, le_u32, le_i32, le_f32, read_vec,
}
use riskanvil.Boost.Written.{write_vec, le_bytes, le_float}
use riskanvil.Cascade.Tables.{
  LoadedPrefixCheckpoint, LoadedPrefixAtlasCentroids16, LoadedPrefixAtlasCheckpoint,
  LoadedPrefixCertifyCheckpoint, LoadedPrefixCertifyPlan,
}

-- "L2CERTV1"
abbrev pub magic_cert : List ℕ
magic_cert = 76 ∷ 50 ∷ 67 ∷ 69 ∷ 82 ∷ 84 ∷ 86 ∷ 49 ∷ []

abbrev pub i32_bytes : ℤ → List ℕ
i32_bytes k = le32 (bits_of_i32 k)

abbrev pub i16_bytes : ℤ → List ℕ
i16_bytes k = le16 (bits_of_i16 k)

abbrev pub flag_byte : Bool → List ℕ
flag_byte b = (if b then 1 else 0) ∷ []

-- `le_u16(buf, &mut off)? as i16`
unfoldable pub le_i16 : Reader ℤ
le_i16 = le_u16 >>= λ w. pure (i16_of_bits w)

-- `le_bytes(buf, &mut off, 1)?[0] != 0`
unfoldable pub le_nonzero : Reader Bool
le_nonzero = le_bytes 1 >>= λ b. pure (not (byte_at b 0 == 0))

module _ {F : Type 0} ⦃f : Float32 F⦄ where
  abbrev pub floats : List F → List ℕ
  floats = write_vec le_float

  -- A vector behind its length.
  abbrev pub counted : List F → List ℕ
  counted xs = le32 (length xs) ++ floats xs

  unfoldable pub table_bytes : LoadedPrefixCheckpoint F → List ℕ
  table_bytes table =
      le32 table.checkpoint
      ++ (le32 (length table.gap_edges)
          ++ (le32 (length table.global_ref_hi)
              ++ (le32 (length table.global_rej_lo)
                  ++ (le32 (length table.tau_edges)
                      ++ (le32 (length table.fold_ids)
                          ++ (i32_bytes table.fold_lut_base
                              ++ (le32 (length table.fold_slot_lut)
                                  ++ (le32 (length table.fold_ref_hi)
                                      ++ (le32 (length table.fold_rej_lo)
                                          ++ (le32 table.tau_bin_count
                                              ++ (le32 (length table.tau_fold_mask)
                                                  ++ (le32 (length table.tau_ref_hi)
                                                      ++ (le32 (length table.tau_rej_lo)
                                                          ++ (floats table.gap_edges
                                                            ++ (floats table.global_ref_hi
                                                            ++ (floats table.global_rej_lo
                                                            ++ (floats table.tau_edges
                                                            ++ (write_vec i32_bytes table.fold_ids
                                                            ++ (write_vec i16_bytes
                                                            table.fold_slot_lut
                                                            ++ (floats table.fold_ref_hi
                                                            ++ (floats table.fold_rej_lo
                                                            ++ (table.tau_fold_mask
                                                            ++ (floats table.tau_ref_hi
                                                            ++ floats
                                                            table.tau_rej_lo)))))))))))))))))))))))

  unfoldable pub atlas_bytes : LoadedPrefixAtlasCheckpoint F → List ℕ
  atlas_bytes atlas =
      le32 atlas.checkpoint
      ++ (flag_byte atlas.shared_gap_edges
          ++ (le32 (length atlas.gap_edges)
              ++ (le32 atlas.cluster_count
                  ++ (le32 atlas.tau_bin_count
                      ++ (floats atlas.feature_mean
                          ++ (floats atlas.feature_inv_std
                              ++ (floats atlas.gap_edges
                                  ++ (counted atlas.centroid_w0
                                      ++ (counted atlas.centroid_w1
                                          ++ (counted atlas.centroid_w2
                                              ++ (counted atlas.centroid_w3
                                                  ++ (counted atlas.centroid_bias
                                                      ++ (le32 (length atlas.decision_grid)
                                                          ++ atlas.decision_grid)))))))))))))

  abbrev pub checkpoint_bytes : LoadedPrefixCertifyCheckpoint F → List ℕ
  checkpoint_bytes cp = table_bytes cp.table ++ atlas_bytes cp.atlas

  unfoldable pub save_prefix_certify_plan : LoadedPrefixCertifyPlan F → List ℕ
  save_prefix_certify_plan plan =
      magic_cert
      ++ (counted plan.tau_edges
          ++ (le32 (length plan.checkpoints) ++ write_vec checkpoint_bytes plan.checkpoints))

  abbrev pub le_f32_vec : ℕ → Reader (List F)
  le_f32_vec = read_vec le_f32

  unfoldable pub read_counted : Reader (List F)
  read_counted = le_u32 >>= le_f32_vec

  unfoldable pub read_table : Reader (LoadedPrefixCheckpoint F)
  read_table = do
    checkpoint ← le_u32
    gap_edges_len ← le_u32
    global_ref_hi_len ← le_u32
    global_rej_lo_len ← le_u32
    tau_edges_len ← le_u32
    fold_ids_len ← le_u32
    fold_lut_base ← le_i32
    fold_slot_lut_len ← le_u32
    fold_ref_hi_len ← le_u32
    fold_rej_lo_len ← le_u32
    tau_bin_count ← le_u32
    tau_fold_mask_len ← le_u32
    tau_ref_hi_len ← le_u32
    tau_rej_lo_len ← le_u32
    gap_edges ← le_f32_vec gap_edges_len
    global_ref_hi ← le_f32_vec global_ref_hi_len
    global_rej_lo ← le_f32_vec global_rej_lo_len
    tau_edges ← le_f32_vec tau_edges_len
    fold_ids ← read_vec le_i32 fold_ids_len
    fold_slot_lut ← read_vec le_i16 fold_slot_lut_len
    fold_ref_hi ← le_f32_vec fold_ref_hi_len
    fold_rej_lo ← le_f32_vec fold_rej_lo_len
    tau_fold_mask ← le_bytes tau_fold_mask_len
    tau_ref_hi ← le_f32_vec tau_ref_hi_len
    tau_rej_lo ← le_f32_vec tau_rej_lo_len
    pure (record {
      checkpoint = checkpoint;
      gap_edges = gap_edges;
      global_ref_hi = global_ref_hi;
      global_rej_lo = global_rej_lo;
      tau_edges = tau_edges;
      fold_ids = fold_ids;
      fold_lut_base = fold_lut_base;
      fold_slot_lut = fold_slot_lut;
      fold_ref_hi = fold_ref_hi;
      fold_rej_lo = fold_rej_lo;
      tau_bin_count = tau_bin_count;
      tau_fold_mask = tau_fold_mask;
      tau_ref_hi = tau_ref_hi;
      tau_rej_lo = tau_rej_lo;
    })

  -- The centroids as fixed arrays, where there are sixteen of them.
  unfoldable pub centroids_of :
      ℕ → List F → List F → List F → List F → List F → Option (LoadedPrefixAtlasCentroids16 F)
  centroids_of cluster_count w0 w1 w2 w3 bias =
      if (cluster_count == 16)
        && (length w0 == 16)
        && (length w1 == 16)
        && (length w2 == 16)
        && (length w3 == 16)
        && (length bias == 16)
      then some (record { w0 = w0; w1 = w1; w2 = w2; w3 = w3; bias = bias })
      else none

  unfoldable pub read_atlas : Reader (LoadedPrefixAtlasCheckpoint F)
  read_atlas = do
    checkpoint ← le_u32
    shared_gap_edges ← le_nonzero
    gap_edges_len ← le_u32
    cluster_count ← le_u32
    tau_bin_count ← le_u32
    feature_mean ← le_f32_vec 4
    feature_inv_std ← le_f32_vec 4
    gap_edges ← le_f32_vec gap_edges_len
    centroid_w0 ← read_counted
    centroid_w1 ← read_counted
    centroid_w2 ← read_counted
    centroid_w3 ← read_counted
    centroid_bias ← read_counted
    grid_len ← le_u32
    decision_grid ← le_bytes grid_len
    pure (record {
      checkpoint = checkpoint;
      gap_edges = gap_edges;
      shared_gap_edges = shared_gap_edges;
      feature_mean = feature_mean;
      feature_inv_std = feature_inv_std;
      cluster_count = cluster_count;
      tau_bin_count = tau_bin_count;
      centroid_w0 = centroid_w0;
      centroid_w1 = centroid_w1;
      centroid_w2 = centroid_w2;
      centroid_w3 = centroid_w3;
      centroid_bias = centroid_bias;
      centroids16 =
          centroids_of cluster_count centroid_w0 centroid_w1 centroid_w2 centroid_w3 centroid_bias;
      decision_grid = decision_grid;
    })

  unfoldable pub read_certify_checkpoint : Reader (LoadedPrefixCertifyCheckpoint F)
  read_certify_checkpoint = do
    table ← read_table
    atlas ← read_atlas
    pure (record { table = table; atlas = atlas })

  -- The eight bytes of the magic are there in a file of twelve.
  unfoldable pub load_prefix_certify_plan : List ℕ → Result LoadError (LoadedPrefixCertifyPlan F)
  load_prefix_certify_plan = behind_magic 4 magic_cert (do
    tau_edges ← read_counted
    checkpoint_len ← le_u32
    checkpoints ← read_vec read_certify_checkpoint checkpoint_len
    pure (record { tau_edges = tau_edges; checkpoints = checkpoints }))
