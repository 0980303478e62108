-- ===== src/Forest/FileRoundTrip.antt =====
-- A pack of crates/risk-quickscorer/src/qs_exact.rs that `save_qs_pack_v2` writes and `load_qs_pack` reads
-- again.
use riskanvil.Base.{
  ℕ, ◌+◌, ◌-◌, ◌*◌, ◌/◌, ◌^◌, ◌≤◌, ◌<◌, true, false, List, [], ◌∷◌, ◌++◌, map, length, length-map,
  length-append, All, ltb, leb, ◌==◌, ok, ◌≡◌, drop_inside, drop_behind, refl, ap, sym, ◌∙◌, arith,
  take-append,
}
use mathlib.Core.List.{append-nil}
use riskanvil.Base.Bytes.{le32}
use riskanvil.Base.Float.{Float32}
use riskanvil.Boost.Reader.{LoadError, Reader, le_u32, le_f32, read_vec}
use riskanvil.Boost.Reader as Reader
use riskanvil.Boost.Written.{
  write_vec, le_float, IsExact, U32, ReadsBack, bind-ReadsBack, last-ReadsBack, read_vec-ReadsBack,
  vec_of, le_u32-ReadsBack, le_u64-ReadsBack, le_f32-ReadsBack, ReadsHere, here, bind-ReadsHere,
  last-ReadsHere,
}
use riskanvil.Forest.File.{
  magic_qs_v2, QsHeader, expect, last_or_zero, max_of, lut_end, mask_end, leaf_end, read_tree_hdr,
  read_block_hdr, read_luts, read_mask, isize_limit, read_masks, read_leafs, read_header, pack_of,
  read_sections, load_qs_pack,
}
use riskanvil.Forest.FileRows.{
  IsTree, IsBlock, IsMask, tree_bytes, block_bytes, mask_bytes, tree-ReadsBack, block-ReadsBack,
  mask-ReadsBack, IsView, tree_rows-eq, block_rows-eq, mask_rows-eq,
}
use riskanvil.Forest.Pack.{QsTreeHdr, QsBlockHdr, Mask128, QsPack}
use riskanvil.Forest.Save.{header_bytes, header_of, file_of, save_qs_pack_v2}

length-write_vec :
    {A : Type 0} (w : A → List ℕ) (n : ℕ) (xs : List A)
    → ((x : A) → length (w x) ≡ n)
    → length (write_vec w xs) ≡ length xs * n
unfolding write_vec
length-write_vec w n [] each = grind arith
length-write_vec w n (x ∷ xs) each =
    grind (arith, each x, length-append (w x) (write_vec w xs), length-write_vec w n xs each)

length-sections :
    (hb a b c d e g k : List ℕ)
    → length hb ≡ 72
    → length (magic_qs_v2 ++ (hb ++ (a ++ (b ++ (c ++ (d ++ (e ++ (g ++ k))))))))
      ≡ 79 + length a + length b + length c + length d + length e + length g + length k
length-sections hb a b c d e g k size = omega (
  arith,
  size,
  length-append hb (a ++ (b ++ (c ++ (d ++ (e ++ (g ++ k)))))),
  length-append a (b ++ (c ++ (d ++ (e ++ (g ++ k))))),
  length-append b (c ++ (d ++ (e ++ (g ++ k)))),
  length-append c (d ++ (e ++ (g ++ k))),
  length-append d (e ++ (g ++ k)),
  length-append e (g ++ k),
  length-append g k,
)

module _ (buf : List ℕ) (off : ℕ) where
  expect_then :
      {A : Type 0} {bs : List ℕ} {a : A} (n : ℕ) (e : LoadError) (k : Reader A)
      → off ≡ n
      → ReadsHere buf off k bs a
      → ReadsHere buf off (Reader.◌>>◌ (expect n e) k) bs a
  unfolding expect
  expect_then n e k same read = record {
    from = λ rest inside h.
        let here_ : (off == n) ≡ true = ground arith in rw here_ (read.from rest inside h);
  }

  luts-ReadsHere :
      (luts : List ℕ) (luts_off masks_off most : ℕ)
      → luts_off ≡ off
      → masks_off ≡ off + length luts
      → most ≤ length luts
      → ReadsHere buf off (read_luts luts_off masks_off most) luts luts
  unfolding read_luts
  luts-ReadsHere luts luts_off masks_off most p q long = record {
    from = λ rest inside h.
        let end = drop_inside buf luts rest off h inside in
        let size : off + length luts - off ≡ length luts = omega arith in
        let enough : ltb (length luts) most ≡ false = ground arith in
        let forward : leb off (off + length luts) ≡ true = ground arith in
        let within : leb (off + length luts) (length buf) ≡ true = ground arith in
        rw (p, q, size, enough, forward, within, h)
          (ap (λ (b : List ℕ). ok (b, off + length luts))
            (take-append (length luts) luts rest refl));
  }

  masks-ReadsHere :
      (masks : List Mask128) (masks_off leafs_off most : ℕ)
      → masks_off ≡ off
      → leafs_off ≡ off + length masks * 16
      → most ≤ length masks
      → length masks * 16 < isize_limit
      → All IsMask masks
      → ReadsHere buf off (read_masks masks_off leafs_off most) (write_vec mask_bytes masks) masks
  unfolding read_masks
  masks-ReadsHere masks masks_off leafs_off most p q long small each = record {
    from = λ rest inside h.
        let count : (off + length masks * 16 - off) / 16 ≡ length masks = omega arith in
        let enough : ltb (length masks) most ≡ false = ground arith in
        let small_ : leb isize_limit (length masks * 16) ≡ false = ground arith in
        let read = read_vec-ReadsBack IsMask read_mask mask_bytes masks mask-ReadsBack each in
        rw (p, q, count, enough, small_) (read.from buf off rest inside h);
  }

module _ {F : Type 0} ⦃f : Float32 F⦄ where
  leafs-ReadsHere :
      (buf : List ℕ) (off : ℕ) (leafs : List F) (leafs_off total : ℕ)
      → leafs_off ≡ off
      → length leafs ≡ total
      → All IsExact leafs
      → ReadsHere buf off (read_leafs leafs_off total) (write_vec le_float leafs) leafs
  unfolding read_leafs
  leafs-ReadsHere buf off leafs leafs_off total p q each = record {
    from = λ rest inside h.
        let end = drop_inside buf (write_vec le_float leafs) rest off h inside in
        let size = length-write_vec le_float 4 leafs (λ x. refl) in
        let enough : ltb (length buf - off) (total * 4) ≡ false = ground (arith, end, size, q) in
        let read = vec_of IsExact le_f32 le_float leafs q le_f32-ReadsBack each in
        rw (p, enough) (read.from buf off rest inside h);
  }

  -- The numbers fit their types, and each array is as long as the loader takes it to be.
  pub record IsSavable (pack : QsPack F) (trees : List QsTreeHdr) (blocks : List QsBlockHdr)
      (masks : List Mask128) : Type 0 where
    pub n_features : U32 pack.n_features
    pub n_trees : U32 pack.n_trees
    pub n_blocks : U32 pack.n_blocks
    pub base_score : IsExact pack.base_score
    pub cut_offsets_len : length pack.cut_offsets ≡ pack.n_features + 1
    pub cut_offsets : All U32 pack.cut_offsets
    pub cuts_len : length pack.cuts ≡ last_or_zero pack.cut_offsets
    pub cuts : All IsExact pack.cuts
    pub trees_len : length trees ≡ pack.n_trees
    pub each_tree : All IsTree trees
    pub blocks_len : length blocks ≡ pack.n_blocks
    pub each_block : All IsBlock blocks
    pub luts : max_of (map lut_end blocks) ≤ length pack.luts
    pub masks_long : max_of (map mask_end blocks) ≤ length masks
    pub each_mask : All IsMask masks
    pub leafs_len : length pack.leaf_values ≡ max_of (map leaf_end trees)
    pub leaf_values : All IsExact pack.leaf_values

  header-ReadsBack :
      (h : QsHeader F)
      → U32 h.n_features
      → U32 h.n_trees
      → U32 h.n_blocks
      → IsExact h.base_score
      → h.cut_offsets_off < 2 ^ 64
      → h.cuts_off < 2 ^ 64
      → h.tree_hdrs_off < 2 ^ 64
      → h.block_hdrs_off < 2 ^ 64
      → h.luts_off < 2 ^ 64
      → h.masks_off < 2 ^ 64
      → h.leafs_off < 2 ^ 64
      → ReadsBack read_header (header_bytes h) h
  unfolding read_header
  header-ReadsBack h p q r s a b c d e g i = bind-ReadsBack _ _ (le_u32-ReadsBack h.n_features p) (
      bind-ReadsBack _ _ (le_u32-ReadsBack h.n_trees q) (
        bind-ReadsBack _ _ (le_u32-ReadsBack h.n_blocks r) (
          bind-ReadsBack _ _ (le_f32-ReadsBack h.base_score s) (
            bind-ReadsBack _ _ (le_u64-ReadsBack h.cut_offsets_off a) (
              bind-ReadsBack _ _ (le_u64-ReadsBack h.cuts_off b) (
                bind-ReadsBack _ _ (le_u64-ReadsBack h.tree_hdrs_off c) (
                  bind-ReadsBack _ _ (le_u64-ReadsBack h.block_hdrs_off d) (
                    bind-ReadsBack _ _ (le_u64-ReadsBack h.luts_off e) (
                      bind-ReadsBack _ _ (le_u64-ReadsBack h.masks_off g)
                        (last-ReadsBack _ _ (le_u64-ReadsBack h.leafs_off i)))))))))))

  -- The file that the second version of the format has for a pack.
  abbrev pub saved_file : QsPack F → List QsTreeHdr → List QsBlockHdr → List Mask128 → List ℕ
  saved_file pack trees blocks masks =
      file_of pack (write_vec le32 pack.cut_offsets) (write_vec le_float pack.cuts)
        (write_vec tree_bytes trees) (write_vec block_bytes blocks) pack.luts
        (write_vec mask_bytes masks) (write_vec le_float pack.leaf_values)

  abbrev pub without_records : QsPack F → QsPack F
  without_records pack = record pack { tree_hdrs = []; block_hdrs = []; masks = [] }

  load_of :
      (h : QsHeader F) (hb rest : List ℕ) (pack : QsPack F)
      → length hb ≡ 72
      → ReadsBack read_header hb h
      → ((buf : List ℕ) → ReadsHere buf 79 (read_sections true h) rest pack)
      → load_qs_pack (magic_qs_v2 ++ (hb ++ rest)) ≡ ok pack
  unfolding load_qs_pack
  load_of h hb rest pack size front back =
      let buf : List ℕ = magic_qs_v2 ++ (hb ++ rest) in
      let total : length buf ≡ 79 + length rest = omega (arith, length-append hb rest, size) in
      let long : ltb (length buf) 79 ≡ false = ground (arith, total) in
      let e = front.from buf 7 rest (omega (arith, total)) refl in
      let there : 7 + length hb ≡ 79 = omega (arith, size) in
      let e' =
        (back buf).from [] (omega (arith, total))
          (rw there at (drop_behind buf hb rest 7 refl) ∙ sym (append-nil rest)) in
      rw (long, e, there, e') refl

module _ {F : Type 0} ⦃f : Float32 F⦄ (pack : QsPack F) (trees : List QsTreeHdr)
    (blocks : List QsBlockHdr) (masks : List Mask128) (v : IsView pack trees blocks masks)
    (s : IsSavable pack trees blocks masks) where
  pub save-saved_file : save_qs_pack_v2 pack ≡ ok (saved_file pack trees blocks masks)
  unfolding save_qs_pack_v2
  save-saved_file =
      let count : length pack.masks_lo ≡ length masks = rw v.lo (length-map (λ m. m.lo) masks) in
      let trees_written = rw s.trees_len at (tree_rows-eq pack v) in
      let blocks_written = rw s.blocks_len at (block_rows-eq pack v) in
      let masks_written = rw (← count) at (mask_rows-eq pack v) in
      rw (trees_written, blocks_written, masks_written) refl

  view-eq :
      (h : QsHeader F)
      → h.n_features ≡ pack.n_features
      → h.n_trees ≡ pack.n_trees
      → h.n_blocks ≡ pack.n_blocks
      → h.base_score ≡ pack.base_score
      → pack_of true h pack.cut_offsets pack.cuts trees blocks pack.luts masks pack.leaf_values
        ≡ without_records pack
  view-eq h a b c d = ground (
    arith, v.block_off, v.block_cnt, v.leaf_cnt, v.leaf_val_off, v.init_lo, v.init_hi, v.fid,
    v.bucket_cnt, v.miss_bucket, v.lut_off, v.mask_off, v.lo, v.hi,
  )

  abbrev header : QsHeader F
  header =
      header_of pack (length (write_vec le32 pack.cut_offsets))
        (length (write_vec le_float pack.cuts)) (length (write_vec tree_bytes trees))
        (length (write_vec block_bytes blocks)) (length pack.luts)
        (length (write_vec mask_bytes masks))

  sections :
      (buf : List ℕ)
      → length masks * 16 < isize_limit
      → ReadsHere buf 79
          (read_sections true header)
          (write_vec le32 pack.cut_offsets
            ++ (write_vec le_float pack.cuts
                ++ (write_vec tree_bytes trees
                    ++ (write_vec block_bytes blocks
                        ++ (pack.luts
                            ++ (write_vec mask_bytes masks
                                ++ write_vec le_float pack.leaf_values))))))
          (without_records pack)
  unfolding read_sections
  sections buf small =
      let words = length-write_vec mask_bytes 16 masks (λ m. refl) in
      let read = expect_then buf _ _ _ _ refl (
        bind-ReadsHere buf _ _ _
          (here buf _ (
            vec_of U32 le_u32 le32 pack.cut_offsets s.cut_offsets_len le_u32-ReadsBack
              s.cut_offsets))
          (expect_then buf _ _ _ _ refl (
            bind-ReadsHere buf _ _ _
              (here buf _
                (vec_of IsExact le_f32 le_float pack.cuts s.cuts_len le_f32-ReadsBack s.cuts))
              (expect_then buf _ _ _ _ refl (
                bind-ReadsHere buf _ _ _
                  (here buf _ (
                    vec_of IsTree read_tree_hdr tree_bytes trees s.trees_len tree-ReadsBack
                      s.each_tree))
                  (expect_then buf _ _ _ _ refl (
                    bind-ReadsHere buf _ _ _
                      (here buf _ (
                        vec_of IsBlock read_block_hdr block_bytes blocks s.blocks_len
                          block-ReadsBack s.each_block))
                      (expect_then buf _ _ _ _ refl (
                        bind-ReadsHere buf _ _ _
                          (luts-ReadsHere buf _ pack.luts _ _ _ refl refl s.luts)
                          (bind-ReadsHere buf _ _ _
                            (masks-ReadsHere buf _ masks _ _ _ refl (omega (arith, words))
                              s.masks_long small s.each_mask)
                            (expect_then buf _ _ _ _ refl (
                              last-ReadsHere buf _ _ _ (
                                leafs-ReadsHere buf _ pack.leaf_values _ _ refl s.leafs_len
                                  s.leaf_values))))))))))))) in
      rw (← view-eq header refl refl refl refl) read

  pub load-saved_file :
      length (saved_file pack trees blocks masks) < isize_limit
      → load_qs_pack (saved_file pack trees blocks masks) ≡ ok (without_records pack)
  load-saved_file small =
      let words = length-write_vec mask_bytes 16 masks (λ m. refl) in
      let total =
        length-sections (header_bytes header) (write_vec le32 pack.cut_offsets)
          (write_vec le_float pack.cuts) (write_vec tree_bytes trees) (write_vec block_bytes blocks)
          pack.luts (write_vec mask_bytes masks) (write_vec le_float pack.leaf_values) refl in
      load_of header (header_bytes header) _ _ refl
        (header-ReadsBack header s.n_features s.n_trees s.n_blocks s.base_score (omega arith)
          (omega (arith, total, small)) (omega (arith, total, small)) (omega (arith, total, small))
          (omega (arith, total, small)) (omega (arith, total, small)) (omega (arith, total, small)))
        (λ buf. sections buf (omega (arith, total, small, words)))

  pub length-saved_file :
      length (saved_file pack trees blocks masks)
      ≡ 79
        + length pack.cut_offsets * 4
        + length pack.cuts * 4
        + length trees * 28
        + length blocks * 12
        + length pack.luts
        + length masks * 16
        + length pack.leaf_values * 4
  length-saved_file = omega (
    arith,
    length-sections (header_bytes header) (write_vec le32 pack.cut_offsets)
        (write_vec le_float pack.cuts) (write_vec tree_bytes trees) (write_vec block_bytes blocks)
        pack.luts (write_vec mask_bytes masks) (write_vec le_float pack.leaf_values) refl,
    length-write_vec le32 4 pack.cut_offsets (λ x. refl),
    length-write_vec le_float 4 pack.cuts (λ x. refl),
    length-write_vec tree_bytes 28 trees (λ x. refl),
    length-write_vec block_bytes 12 blocks (λ x. refl),
    length-write_vec mask_bytes 16 masks (λ x. refl),
    length-write_vec le_float 4 pack.leaf_values (λ x. refl),
  )
