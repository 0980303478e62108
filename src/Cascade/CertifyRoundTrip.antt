-- ===== src/Cascade/CertifyRoundTrip.antt =====
-- A certify plan of crates/risk-quickscorer/src/prefix.rs that is saved and loaded again.
use riskanvil.Base.{Bool, true, false, List, [], ◌∷◌, length, ok, ◌≡◌, arith}
use riskanvil.Base.Float.{Float32}
use riskanvil.Base.Int.{
  ℤ, IsI32, IsI16, i16_of_bits, bits_of_i16, i16_of_bits-bits_of_i16, bits_of_i16-lt,
}
use riskanvil.Boost.Reader.{le_i32, le_f32}
use riskanvil.Boost.Written.{
  U32, Saved, ReadsBack, bind-ReadsBack, last-ReadsBack, read_vec-ReadsBack, vec_of, count,
  le_u16-ReadsBack, le_u32-ReadsBack, le_i32-ReadsBack, le_f32-ReadsBack, le_bytes-ReadsBack,
  behind_magic-ReadsBack, IsExact, le_float,
}
use riskanvil.Cascade.CertifyFile.{
  magic_cert, i32_bytes, i16_bytes, flag_byte, le_i16, le_nonzero, floats, counted, table_bytes,
  atlas_bytes, checkpoint_bytes, save_prefix_certify_plan, le_f32_vec, read_counted, read_table,
  centroids_of, read_atlas, read_certify_checkpoint, load_prefix_certify_plan,
}
use riskanvil.Cascade.Tables.{
  LoadedPrefixCheckpoint, LoadedPrefixAtlasCheckpoint, LoadedPrefixCertifyCheckpoint,
  LoadedPrefixCertifyPlan,
}

le_i16-ReadsBack : (k : ℤ) → IsI16 k → ReadsBack le_i16 (i16_bytes k) k
unfolding le_i16
le_i16-ReadsBack k h =
    let word =
      last-ReadsBack _ i16_of_bits (le_u16-ReadsBack (bits_of_i16 k) (bits_of_i16-lt k h)) in
    rw (i16_of_bits-bits_of_i16 k h) at word

le_nonzero-ReadsBack : (b : Bool) → ReadsBack le_nonzero (flag_byte b) b
unfolding le_nonzero
le_nonzero-ReadsBack true = last-ReadsBack _ _ (le_bytes-ReadsBack (1 ∷ []))
le_nonzero-ReadsBack false = last-ReadsBack _ _ (le_bytes-ReadsBack (0 ∷ []))

module _ {F : Type 0} ⦃f : Float32 F⦄ where
  -- The numbers fit their types.
  pub record IsTable (table : LoadedPrefixCheckpoint F) : Type 0 where
    pub checkpoint : U32 table.checkpoint
    pub gap_edges : Saved IsExact table.gap_edges
    pub global_ref_hi : Saved IsExact table.global_ref_hi
    pub global_rej_lo : Saved IsExact table.global_rej_lo
    pub tau_edges : Saved IsExact table.tau_edges
    pub fold_ids : Saved IsI32 table.fold_ids
    pub fold_lut_base : IsI32 table.fold_lut_base
    pub fold_slot_lut : Saved IsI16 table.fold_slot_lut
    pub fold_ref_hi : Saved IsExact table.fold_ref_hi
    pub fold_rej_lo : Saved IsExact table.fold_rej_lo
    pub tau_bin_count : U32 table.tau_bin_count
    pub tau_fold_mask : U32 (length table.tau_fold_mask)
    pub tau_ref_hi : Saved IsExact table.tau_ref_hi
    pub tau_rej_lo : Saved IsExact table.tau_rej_lo

  -- The numbers fit their types, four features are scaled, and the centroids are those of the
  -- vectors.
  pub record IsAtlas (atlas : LoadedPrefixAtlasCheckpoint F) : Type 0 where
    pub checkpoint : U32 atlas.checkpoint
    pub gap_edges : Saved IsExact atlas.gap_edges
    pub cluster_count : U32 atlas.cluster_count
    pub tau_bin_count : U32 atlas.tau_bin_count
    pub mean_len : length atlas.feature_mean ≡ 4
    pub feature_mean : Saved IsExact atlas.feature_mean
    pub inv_std_len : length atlas.feature_inv_std ≡ 4
    pub feature_inv_std : Saved IsExact atlas.feature_inv_std
    pub centroid_w0 : Saved IsExact atlas.centroid_w0
    pub centroid_w1 : Saved IsExact atlas.centroid_w1
    pub centroid_w2 : Saved IsExact atlas.centroid_w2
    pub centroid_w3 : Saved IsExact atlas.centroid_w3
    pub centroid_bias : Saved IsExact atlas.centroid_bias
    pub decision_grid : U32 (length atlas.decision_grid)
    pub centroids16 :
        centroids_of atlas.cluster_count atlas.centroid_w0 atlas.centroid_w1 atlas.centroid_w2
          atlas.centroid_w3 atlas.centroid_bias
        ≡ atlas.centroids16

  pub record IsCertifyCheckpoint (cp : LoadedPrefixCertifyCheckpoint F) : Type 0 where
    pub table : IsTable cp.table
    pub atlas : IsAtlas cp.atlas

  pub record IsPlanFile (plan : LoadedPrefixCertifyPlan F) : Type 0 where
    pub tau_edges : Saved IsExact plan.tau_edges
    pub checkpoints : Saved IsCertifyCheckpoint plan.checkpoints

  vec : (xs : List F) → Saved IsExact xs → ReadsBack (le_f32_vec (length xs)) (floats xs) xs
  vec xs h = read_vec-ReadsBack IsExact le_f32 le_float xs le_f32-ReadsBack h.1

  counted-ReadsBack : (xs : List F) → Saved IsExact xs → ReadsBack read_counted (counted xs) xs
  unfolding read_counted
  counted-ReadsBack xs h = bind-ReadsBack _ _ (count IsExact xs h) (vec xs h)

  table-ReadsBack :
      (t : LoadedPrefixCheckpoint F) → IsTable t → ReadsBack read_table (table_bytes t) t
  unfolding read_table table_bytes
  table-ReadsBack t h = bind-ReadsBack _ _ (le_u32-ReadsBack t.checkpoint h.checkpoint) (
      bind-ReadsBack _ _ (count IsExact t.gap_edges h.gap_edges) (
        bind-ReadsBack _ _ (count IsExact t.global_ref_hi h.global_ref_hi) (
          bind-ReadsBack _ _ (count IsExact t.global_rej_lo h.global_rej_lo) (
            bind-ReadsBack _ _ (count IsExact t.tau_edges h.tau_edges) (
              bind-ReadsBack _ _ (count IsI32 t.fold_ids h.fold_ids) (
                bind-ReadsBack _ _ (le_i32-ReadsBack t.fold_lut_base h.fold_lut_base) (
                  bind-ReadsBack _ _ (count IsI16 t.fold_slot_lut h.fold_slot_lut) (
                    bind-ReadsBack _ _ (count IsExact t.fold_ref_hi h.fold_ref_hi) (
                      bind-ReadsBack _ _ (count IsExact t.fold_rej_lo h.fold_rej_lo) (
                        bind-ReadsBack _ _ (le_u32-ReadsBack t.tau_bin_count h.tau_bin_count) (
                          bind-ReadsBack _ _
                            (le_u32-ReadsBack (length t.tau_fold_mask) h.tau_fold_mask)
                            (bind-ReadsBack _ _ (count IsExact t.tau_ref_hi h.tau_ref_hi) (
                              bind-ReadsBack _ _ (count IsExact t.tau_rej_lo h.tau_rej_lo) (
                                bind-ReadsBack _ _ (vec t.gap_edges h.gap_edges) (
                                  bind-ReadsBack _ _ (vec t.global_ref_hi h.global_ref_hi) (
                                    bind-ReadsBack _ _ (vec t.global_rej_lo h.global_rej_lo) (
                                      bind-ReadsBack _ _ (vec t.tau_edges h.tau_edges) (
                                        bind-ReadsBack _ _
                                          (read_vec-ReadsBack IsI32 le_i32 i32_bytes t.fold_ids
                                            le_i32-ReadsBack h.fold_ids.1)
                                          (bind-ReadsBack _ _
                                            (read_vec-ReadsBack IsI16 le_i16 i16_bytes
                                              t.fold_slot_lut le_i16-ReadsBack h.fold_slot_lut.1)
                                            (bind-ReadsBack _ _ (vec t.fold_ref_hi h.fold_ref_hi) (
                                              bind-ReadsBack _ _ (vec t.fold_rej_lo h.fold_rej_lo) (
                                                bind-ReadsBack _ _
                                                  (le_bytes-ReadsBack t.tau_fold_mask)
                                                  (bind-ReadsBack _ _
                                                    (vec t.tau_ref_hi h.tau_ref_hi)
                                                    (last-ReadsBack _ _ (
                                                      vec t.tau_rej_lo
                                                        h.tau_rej_lo)))))))))))))))))))))))))

  atlas-ReadsBack :
      (a : LoadedPrefixAtlasCheckpoint F) → IsAtlas a → ReadsBack read_atlas (atlas_bytes a) a
  unfolding read_atlas atlas_bytes
  atlas-ReadsBack a h =
      let loaded : ReadsBack read_atlas (atlas_bytes a) (record a {
        centroids16 =
            centroids_of a.cluster_count a.centroid_w0 a.centroid_w1 a.centroid_w2 a.centroid_w3
              a.centroid_bias;
      }) =
        bind-ReadsBack _ _ (le_u32-ReadsBack a.checkpoint h.checkpoint) (
          bind-ReadsBack _ _ (le_nonzero-ReadsBack a.shared_gap_edges) (
            bind-ReadsBack _ _ (count IsExact a.gap_edges h.gap_edges) (
              bind-ReadsBack _ _ (le_u32-ReadsBack a.cluster_count h.cluster_count) (
                bind-ReadsBack _ _ (le_u32-ReadsBack a.tau_bin_count h.tau_bin_count) (
                  bind-ReadsBack _ _
                    (vec_of IsExact le_f32 le_float a.feature_mean h.mean_len le_f32-ReadsBack
                      h.feature_mean.1)
                    (bind-ReadsBack _ _
                      (vec_of IsExact le_f32 le_float a.feature_inv_std h.inv_std_len
                        le_f32-ReadsBack h.feature_inv_std.1)
                      (bind-ReadsBack _ _ (vec a.gap_edges h.gap_edges) (
                        bind-ReadsBack _ _ (counted-ReadsBack a.centroid_w0 h.centroid_w0) (
                          bind-ReadsBack _ _ (counted-ReadsBack a.centroid_w1 h.centroid_w1) (
                            bind-ReadsBack _ _ (counted-ReadsBack a.centroid_w2 h.centroid_w2) (
                              bind-ReadsBack _ _ (counted-ReadsBack a.centroid_w3 h.centroid_w3) (
                                bind-ReadsBack _ _
                                  (counted-ReadsBack a.centroid_bias h.centroid_bias)
                                  (bind-ReadsBack _ _
                                    (le_u32-ReadsBack (length a.decision_grid) h.decision_grid)
                                    (last-ReadsBack _ _
                                      (le_bytes-ReadsBack a.decision_grid))))))))))))))) in
      rw h.centroids16 at loaded

  checkpoint-ReadsBack :
      (cp : LoadedPrefixCertifyCheckpoint F)
      → IsCertifyCheckpoint cp
      → ReadsBack read_certify_checkpoint (checkpoint_bytes cp) cp
  unfolding read_certify_checkpoint
  checkpoint-ReadsBack cp h =
      bind-ReadsBack _ _ (table-ReadsBack cp.table h.table)
        (last-ReadsBack _ _ (atlas-ReadsBack cp.atlas h.atlas))

  -- A certify plan whose numbers fit their types, whose vectors have fewer than 2^32 elements,
  -- whose atlases scale four features and whose fixed centroids are those of its vectors is loaded
  -- from its file as it was saved.
  pub load-save_prefix_certify_plan :
      (plan : LoadedPrefixCertifyPlan F)
      → IsPlanFile plan
      → load_prefix_certify_plan (save_prefix_certify_plan plan) ≡ ok plan
  unfolding load_prefix_certify_plan save_prefix_certify_plan
  load-save_prefix_certify_plan plan h =
      behind_magic-ReadsBack 4 magic_cert _ _ plan (omega arith) (
        bind-ReadsBack _ _ (counted-ReadsBack plan.tau_edges h.tau_edges) (
          bind-ReadsBack _ _ (count IsCertifyCheckpoint plan.checkpoints h.checkpoints) (
            last-ReadsBack _ _ (
              read_vec-ReadsBack IsCertifyCheckpoint read_certify_checkpoint checkpoint_bytes
                plan.checkpoints checkpoint-ReadsBack h.checkpoints.1))))
