-- ===== src/Forest/File.antt =====
-- `load_qs_pack` and `save_qs_pack_v2` of crates/risk-quickscorer/src/qs_exact.rs, from the mapped bytes
-- and up to the bytes that are written. `as u32` and `as u64` keep the low bits, which are all that
-- `le32` and `le64` take.
use riskanvil.Base.{
  ℕ, ◌+◌, ◌-◌, ◌*◌, ◌/◌, ◌%◌, ◌^◌, max, bit_and, Bool, not, ◌&&◌, List, [], ◌∷◌, map, length, take,
  drop, ltb, leb, ◌==◌, bytes_eq, if◌then◌else◌, Result, ok, err,
}
use riskanvil.Base.Bytes.{byte_at, read_u32}
use riskanvil.Base.Float.{Float32}
use riskanvil.Boost.Load.{value_of}
use riskanvil.Boost.Reader.{
  LoadError, too_short, invalid_magic, panicked, cut_offsets_mismatch, cuts_mismatch,
  tree_hdrs_mismatch, block_hdrs_mismatch, block_truncated, luts_mismatch, luts_too_short,
  masks_too_short, leafs_mismatch, leafs_too_short, Reader, ◌>>=◌, ◌>>◌, pure, field, le_u32,
  le_u64, le_f32, read_vec,
}
use riskanvil.Forest.Pack.{QsTreeHdr, QsBlockHdr, Mask128, QsPack}

-- "L2QSv1\0" and "L2QSv2\0"
abbrev pub magic_qs : List ℕ
magic_qs = 76 ∷ 50 ∷ 81 ∷ 83 ∷ 118 ∷ 49 ∷ 0 ∷ []

abbrev pub magic_qs_v2 : List ℕ
magic_qs_v2 = 76 ∷ 50 ∷ 81 ∷ 83 ∷ 118 ∷ 50 ∷ 0 ∷ []

pub record QsHeader (F : Type 0) : Type 0 where
  pub n_features : ℕ
  pub n_trees : ℕ
  pub n_blocks : ℕ
  pub base_score : F
  pub cut_offsets_off : ℕ
  pub cuts_off : ℕ
  pub tree_hdrs_off : ℕ
  pub block_hdrs_off : ℕ
  pub luts_off : ℕ
  pub masks_off : ℕ
  pub leafs_off : ℕ

-- `if pos != expected { bail!(e) }`
unfoldable pub expect : ℕ → LoadError → Reader (Unit {0})
expect expected e buf pos = if pos == expected then ok (tt, pos) else err e

-- `.last().unwrap_or(&0)`
unfoldable pub last_or_zero : List ℕ → ℕ
last_or_zero [] = 0
last_or_zero (x ∷ []) = x
last_or_zero (x ∷ y ∷ ys) = last_or_zero (y ∷ ys)

-- `.max().unwrap_or(0)`
unfoldable pub max_of : List ℕ → ℕ
max_of [] = 0
max_of (x ∷ xs) = max x (max_of xs)

-- `usize` and `u32` sums, which cannot wrap.
abbrev pub lut_end : QsBlockHdr → ℕ
lut_end block = block.lut_off + 129

abbrev pub mask_end : QsBlockHdr → ℕ
mask_end block = block.mask_off + block.bucket_cnt

abbrev pub leaf_end : QsTreeHdr → ℕ
leaf_end tree = tree.leaf_val_off + tree.leaf_cnt

unfoldable pub read_tree_hdr : Reader QsTreeHdr
read_tree_hdr = do
  block_off ← le_u32
  block_leaf ← le_u32
  leaf_val_off ← le_u32
  init_lo ← le_u64
  init_hi ← le_u64
  pure (record {
    block_off = block_off;
    block_cnt = bit_and block_leaf 0xffff % 2 ^ 16;
    leaf_cnt = block_leaf / 2 ^ 16 % 2 ^ 16;
    leaf_val_off = leaf_val_off;
    init_lo = init_lo;
    init_hi = init_hi;
  })

-- Behind the check of the twelve bytes no read fails.
unfoldable pub read_block_hdr : Reader QsBlockHdr
read_block_hdr = field 12 block_truncated (λ buf pos. record {
  fid = byte_at buf pos;
  bucket_cnt = byte_at buf (pos + 1);
  miss_bucket = byte_at buf (pos + 2);
  lut_off = read_u32 buf (pos + 4);
  mask_off = read_u32 buf (pos + 8);
})

-- `buf[luts_off..masks_off].to_vec()` and `pos = masks_off`, behind the check of the length.
unfoldable pub read_luts : ℕ → ℕ → ℕ → Reader (List ℕ)
read_luts luts_off masks_off max_lut_end buf pos =
    if ltb (masks_off - luts_off) max_lut_end
    then err luts_too_short
    else if leb luts_off masks_off && leb masks_off (length buf)
    then ok (take (masks_off - luts_off) (drop luts_off buf), masks_off)
    else err panicked

unfoldable pub read_mask : Reader Mask128
read_mask = do lo ← le_u64; hi ← le_u64; pure (record { lo = lo; hi = hi })

-- A `Vec` of more than `isize::MAX` bytes panics.
abbrev pub isize_limit : ℕ
isize_limit = 2 ^ 63

unfoldable pub read_masks : ℕ → ℕ → ℕ → Reader (List Mask128)
read_masks masks_off leafs_off max_mask_end buf pos =
    let mask_count = (leafs_off - masks_off) / 16 in
    if ltb mask_count max_mask_end
    then err masks_too_short
    else if leb isize_limit (mask_count * 16)
    then err panicked
    else read_vec read_mask mask_count buf pos

module _ {F : Type 0} ⦃f : Float32 F⦄ where
  unfoldable pub read_leafs : ℕ → ℕ → Reader (List F)
  read_leafs leafs_off total_leafs buf pos =
      if ltb (length buf - leafs_off) (total_leafs * 4)
      then err leafs_too_short
      else read_vec le_f32 total_leafs buf pos

  unfoldable pub read_header : Reader (QsHeader F)
  read_header = do
    n_features ← le_u32
    n_trees ← le_u32
    n_blocks ← le_u32
    base_score ← le_f32
    cut_offsets_off ← le_u64
    cuts_off ← le_u64
    tree_hdrs_off ← le_u64
    block_hdrs_off ← le_u64
    luts_off ← le_u64
    masks_off ← le_u64
    leafs_off ← le_u64
    pure (record {
      n_features = n_features;
      n_trees = n_trees;
      n_blocks = n_blocks;
      base_score = base_score;
      cut_offsets_off = cut_offsets_off;
      cuts_off = cuts_off;
      tree_hdrs_off = tree_hdrs_off;
      block_hdrs_off = block_hdrs_off;
      luts_off = luts_off;
      masks_off = masks_off;
      leafs_off = leafs_off;
    })

  -- The arrays of the trees, blocks and masks, which a pack of the first version keeps as records
  -- as well.
  abbrev pub pack_of :
      Bool
      → QsHeader F
      → List ℕ
      → List F
      → List QsTreeHdr
      → List QsBlockHdr
      → List ℕ
      → List Mask128
      → List F
      → QsPack F
  pack_of is_v2 h cut_offsets cuts trees blocks luts masks leaf_values = record {
    n_features = h.n_features;
    n_trees = h.n_trees;
    n_blocks = h.n_blocks;
    base_score = h.base_score;
    cut_offsets = cut_offsets;
    cuts = cuts;
    tree_hdrs = if is_v2 then [] else trees;
    block_hdrs = if is_v2 then [] else blocks;
    tree_block_off = map (λ t. t.block_off) trees;
    tree_block_cnt = map (λ t. t.block_cnt) trees;
    tree_leaf_cnt = map (λ t. t.leaf_cnt) trees;
    tree_leaf_val_off = map (λ t. t.leaf_val_off) trees;
    tree_init_lo = map (λ t. t.init_lo) trees;
    tree_init_hi = map (λ t. t.init_hi) trees;
    block_fid = map (λ b. b.fid) blocks;
    block_bucket_cnt = map (λ b. b.bucket_cnt) blocks;
    block_miss_bucket = map (λ b. b.miss_bucket) blocks;
    block_lut_off = map (λ b. b.lut_off) blocks;
    block_mask_off = map (λ b. b.mask_off) blocks;
    luts = luts;
    masks = if is_v2 then [] else masks;
    masks_lo = map (λ m. m.lo) masks;
    masks_hi = map (λ m. m.hi) masks;
    leaf_values = leaf_values;
  }

  unfoldable pub read_sections : Bool → QsHeader F → Reader (QsPack F)
  read_sections is_v2 h = do
    expect h.cut_offsets_off cut_offsets_mismatch
    cut_offsets ← read_vec le_u32 (h.n_features + 1)
    expect h.cuts_off cuts_mismatch
    cuts ← read_vec le_f32 (last_or_zero cut_offsets)
    expect h.tree_hdrs_off tree_hdrs_mismatch
    trees ← read_vec read_tree_hdr h.n_trees
    expect h.block_hdrs_off block_hdrs_mismatch
    blocks ← read_vec read_block_hdr h.n_blocks
    expect h.luts_off luts_mismatch
    luts ← read_luts h.luts_off h.masks_off (max_of (map lut_end blocks))
    masks ← read_masks h.masks_off h.leafs_off (max_of (map mask_end blocks))
    expect h.leafs_off leafs_mismatch
    leaf_values ← read_leafs h.leafs_off (max_of (map leaf_end trees))
    pure (pack_of is_v2 h cut_offsets cuts trees blocks luts masks leaf_values)

  unfoldable pub load_qs_pack : List ℕ → Result LoadError (QsPack F)
  load_qs_pack buf =
      let magic = take 7 buf in
      if ltb (length buf) 79
      then err too_short
      else if not (bytes_eq magic magic_qs) && not (bytes_eq magic magic_qs_v2)
      then err invalid_magic
      else value_of ((read_header >>= read_sections (bytes_eq magic magic_qs_v2)) buf 7)
