-- ===== src/Forest/Save.antt =====
-- `save_qs_pack_v2` of crates/risk-quickscorer/src/qs_exact.rs, up to the bytes that are written. `as u32`
-- and `as u64` keep the low bits, which are all that `le32` and `le64` take.
use riskanvil.Base.{
  ℕ, zero, suc, ◌+◌, ◌*◌, ◌%◌, ◌^◌, bit_or, List, [], ◌∷◌, ◌++◌, length, Result, ok, ◌>>=◌,
}
use riskanvil.Base.Bytes.{le32, le64}
use riskanvil.Base.Float.{Float32}
use riskanvil.Boost.Written.{write_vec, le_float}
use riskanvil.Forest.File.{magic_qs_v2, QsHeader}
use riskanvil.Forest.Pack.{QsPack, QsError, at}

-- `for idx in i..i + n`, with the bytes of each row appended.
unfoldable pub write_rows : (ℕ → Result QsError (List ℕ)) → ℕ → ℕ → Result QsError (List ℕ)
write_rows row zero i = ok []
write_rows row (suc n) i = do bytes ← row i; rest ← write_rows row n (i + 1); ok (bytes ++ rest)

module _ {F : Type 0} ⦃f : Float32 F⦄ (pack : QsPack F) where
  unfoldable pub tree_row : ℕ → Result QsError (List ℕ)
  tree_row i = do
    block_off ← at pack.tree_block_off i
    block_cnt ← at pack.tree_block_cnt i
    leaf_cnt ← at pack.tree_leaf_cnt i
    leaf_val_off ← at pack.tree_leaf_val_off i
    init_lo ← at pack.tree_init_lo i
    init_hi ← at pack.tree_init_hi i
    ok (
        le32 block_off
        ++ (le32 (bit_or block_cnt (leaf_cnt * 2 ^ 16 % 2 ^ 32))
            ++ (le32 leaf_val_off ++ (le64 init_lo ++ le64 init_hi))))

  unfoldable pub block_row : ℕ → Result QsError (List ℕ)
  block_row i = do
    fid ← at pack.block_fid i
    bucket_cnt ← at pack.block_bucket_cnt i
    miss_bucket ← at pack.block_miss_bucket i
    lut_off ← at pack.block_lut_off i
    mask_off ← at pack.block_mask_off i
    ok (fid ∷ bucket_cnt ∷ miss_bucket ∷ 0 ∷ (le32 lut_off ++ le32 mask_off))

  unfoldable pub mask_row : ℕ → Result QsError (List ℕ)
  mask_row i = do lo ← at pack.masks_lo i; hi ← at pack.masks_hi i; ok (le64 lo ++ le64 hi)

module _ {F : Type 0} ⦃f : Float32 F⦄ where
  abbrev pub header_bytes : QsHeader F → List ℕ
  header_bytes h =
      le32 h.n_features
      ++ (le32 h.n_trees
          ++ (le32 h.n_blocks
              ++ (le_float h.base_score
                  ++ (le64 h.cut_offsets_off
                      ++ (le64 h.cuts_off
                          ++ (le64 h.tree_hdrs_off
                              ++ (le64 h.block_hdrs_off
                                  ++ (le64 h.luts_off
                                      ++ (le64 h.masks_off ++ le64 h.leafs_off)))))))))

  -- Where the sections start, one behind the other.
  abbrev pub header_of : QsPack F → ℕ → ℕ → ℕ → ℕ → ℕ → ℕ → QsHeader F
  header_of pack cut_offsets_len cuts_len tree_hdrs_len block_hdrs_len luts_len masks_len =
      let cut_offsets_off = length magic_qs_v2 + 16 + 56 in
      let cuts_off = cut_offsets_off + cut_offsets_len in
      let tree_hdrs_off = cuts_off + cuts_len in
      let block_hdrs_off = tree_hdrs_off + tree_hdrs_len in
      let luts_off = block_hdrs_off + block_hdrs_len in
      let masks_off = luts_off + luts_len in
      record {
        n_features = pack.n_features;
        n_trees = pack.n_trees;
        n_blocks = pack.n_blocks;
        base_score = pack.base_score;
        cut_offsets_off = cut_offsets_off;
        cuts_off = cuts_off;
        tree_hdrs_off = tree_hdrs_off;
        block_hdrs_off = block_hdrs_off;
        luts_off = luts_off;
        masks_off = masks_off;
        leafs_off = masks_off + masks_len;
      }

  -- The file of the sections' bytes.
  abbrev pub file_of :
      QsPack F → List ℕ → List ℕ → List ℕ → List ℕ → List ℕ → List ℕ → List ℕ → List ℕ
  file_of pack cut_offsets cuts tree_hdrs block_hdrs luts masks leafs =
      magic_qs_v2
      ++ (header_bytes (
            header_of pack (length cut_offsets) (length cuts) (length tree_hdrs) (length block_hdrs)
              (length luts) (length masks))
          ++ (cut_offsets ++ (cuts ++ (tree_hdrs ++ (block_hdrs ++ (luts ++ (masks ++ leafs)))))))

  unfoldable pub save_qs_pack_v2 : QsPack F → Result QsError (List ℕ)
  save_qs_pack_v2 pack = do
    tree_hdrs ← write_rows (tree_row pack) pack.n_trees 0
    block_hdrs ← write_rows (block_row pack) pack.n_blocks 0
    masks ← write_rows (mask_row pack) (length pack.masks_lo) 0
    ok (
        file_of pack (write_vec le32 pack.cut_offsets) (write_vec le_float pack.cuts) tree_hdrs
          block_hdrs pack.luts masks (write_vec le_float pack.leaf_values))
