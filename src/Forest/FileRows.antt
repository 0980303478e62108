-- ===== src/Forest/FileRows.antt =====
-- The sections of a file of crates/risk-quickscorer/src/qs_exact.rs: what `save_qs_pack_v2` writes for each
-- tree, block and mask, and what `load_qs_pack` reads back.
use riskanvil.Base.{
  ℕ, suc, ◌+◌, ◌*◌, ◌%◌, ◌^◌, ◌<◌, bit_or, List, [], ◌∷◌, ◌++◌, map, length, get_elem?, some,
  Result, ok, ◌≡◌, refl, arith, bit_and, ◌/◌, drop_behind,
}
use riskanvil.Base.Bytes.{le32, le64}
use riskanvil.Base.Float.{Float32}
use riskanvil.Boost.Written.{
  write_vec, U16, U32, ReadsBack, bind-ReadsBack, last-ReadsBack, field-ReadsBack, le_u32-ReadsBack,
  le_u64-ReadsBack, read_u32_there, byte_there, byte_first,
}
use riskanvil.Forest.Fields.{lower_field, higher_field, fields-lt}
use riskanvil.Forest.File.{read_tree_hdr, read_block_hdr, read_mask}
use riskanvil.Forest.Headers.{column}
use riskanvil.Forest.Pack.{QsTreeHdr, QsBlockHdr, Mask128, QsPack, QsError}
use riskanvil.Forest.Save.{write_rows, tree_row, block_row, mask_row}

abbrev U64 : ℕ → Type 0
U64 n = n < 2 ^ 64

abbrev U8 : ℕ → Type 0
U8 n = n < 256

-- The numbers fit their types.
pub record IsTree (t : QsTreeHdr) : Type 0 where
  pub block_off : U32 t.block_off
  pub block_cnt : U16 t.block_cnt
  pub leaf_cnt : U16 t.leaf_cnt
  pub leaf_val_off : U32 t.leaf_val_off
  pub init_lo : U64 t.init_lo
  pub init_hi : U64 t.init_hi

pub record IsBlock (b : QsBlockHdr) : Type 0 where
  pub fid : U8 b.fid
  pub bucket_cnt : U8 b.bucket_cnt
  pub miss_bucket : U8 b.miss_bucket
  pub lut_off : U32 b.lut_off
  pub mask_off : U32 b.mask_off

pub record IsMask (m : Mask128) : Type 0 where
  pub lo : U64 m.lo
  pub hi : U64 m.hi

abbrev pub tree_bytes : QsTreeHdr → List ℕ
tree_bytes t =
    le32 t.block_off
    ++ (le32 (bit_or t.block_cnt (t.leaf_cnt * 2 ^ 16 % 2 ^ 32))
        ++ (le32 t.leaf_val_off ++ (le64 t.init_lo ++ le64 t.init_hi)))

abbrev pub block_bytes : QsBlockHdr → List ℕ
block_bytes b = b.fid ∷ b.bucket_cnt ∷ b.miss_bucket ∷ 0 ∷ (le32 b.lut_off ++ le32 b.mask_off)

abbrev pub mask_bytes : Mask128 → List ℕ
mask_bytes m = le64 m.lo ++ le64 m.hi

pub tree-ReadsBack : (t : QsTreeHdr) → IsTree t → ReadsBack read_tree_hdr (tree_bytes t) t
unfolding read_tree_hdr
tree-ReadsBack t h =
    let word = bit_or t.block_cnt (t.leaf_cnt * 2 ^ 16 % 2 ^ 32) in
    let read : ReadsBack read_tree_hdr (tree_bytes t)
        (record t { block_cnt = bit_and word 0xffff % 2 ^ 16; leaf_cnt = word / 2 ^ 16 % 2 ^ 16 }) =
      bind-ReadsBack _ _ (le_u32-ReadsBack t.block_off h.block_off) (
        bind-ReadsBack _ _
          (le_u32-ReadsBack _ (fields-lt t.block_cnt t.leaf_cnt h.block_cnt h.leaf_cnt))
          (bind-ReadsBack _ _ (le_u32-ReadsBack t.leaf_val_off h.leaf_val_off) (
            bind-ReadsBack _ _ (le_u64-ReadsBack t.init_lo h.init_lo)
              (last-ReadsBack _ _ (le_u64-ReadsBack t.init_hi h.init_hi))))) in
    rw
      (
        lower_field t.block_cnt t.leaf_cnt h.block_cnt h.leaf_cnt,
        higher_field t.block_cnt t.leaf_cnt h.block_cnt h.leaf_cnt,
      )
      at read

pub block-ReadsBack : (b : QsBlockHdr) → IsBlock b → ReadsBack read_block_hdr (block_bytes b) b
unfolding read_block_hdr
block-ReadsBack b h = field-ReadsBack 12 _ _ (block_bytes b) b refl (λ buf off rest p.
    let front : List ℕ = b.fid ∷ b.bucket_cnt ∷ b.miss_bucket ∷ 0 ∷ [] in
    rw
      (
        byte_first buf _ off p,
        byte_there buf _ off 1 p,
        byte_there buf _ off 2 p,
        read_u32_there b.lut_off buf (off + 4) (le32 b.mask_off ++ rest) h.lut_off
            (drop_behind buf front (le32 b.lut_off ++ (le32 b.mask_off ++ rest)) off p),
        read_u32_there b.mask_off buf (off + 8) rest h.mask_off
            (drop_behind buf (front ++ le32 b.lut_off) (le32 b.mask_off ++ rest) off p),
      )
      refl)

pub mask-ReadsBack : (m : Mask128) → IsMask m → ReadsBack read_mask (mask_bytes m) m
unfolding read_mask
mask-ReadsBack m h =
    bind-ReadsBack _ _ (le_u64-ReadsBack m.lo h.lo)
      (last-ReadsBack _ _ (le_u64-ReadsBack m.hi h.hi))

-- Rows that are written one behind the other.
pub rows-eq :
    {A : Type 0} (row : ℕ → Result QsError (List ℕ)) (w : A → List ℕ) (xs : List A) (i : ℕ)
    → ((j : ℕ) (x : A) → get_elem? xs j ≡ some x → row (i + j) ≡ ok (w x))
    → write_rows row (length xs) i ≡ ok (write_vec w xs)
unfolding write_rows write_vec
rows-eq row w [] i each = refl
rows-eq row w (x ∷ xs) i each =
    let first : row i ≡ ok (w x) = let e : i + 0 ≡ i = omega arith in rw (← e) (each 0 x refl) in
    let rest =
      rows-eq row w xs (i + 1)
        (λ j y p. let e : i + 1 + j ≡ i + suc j = omega arith in rw e (each (suc j) y p)) in
    rw (first, rest) refl

-- The arrays are the fields of these trees, blocks and masks.
pub record IsView {F : Type 0} (pack : QsPack F) (trees : List QsTreeHdr) (blocks : List QsBlockHdr)
    (masks : List Mask128) : Type 0 where
  pub block_off : pack.tree_block_off ≡ map (λ t. t.block_off) trees
  pub block_cnt : pack.tree_block_cnt ≡ map (λ t. t.block_cnt) trees
  pub leaf_cnt : pack.tree_leaf_cnt ≡ map (λ t. t.leaf_cnt) trees
  pub leaf_val_off : pack.tree_leaf_val_off ≡ map (λ t. t.leaf_val_off) trees
  pub init_lo : pack.tree_init_lo ≡ map (λ t. t.init_lo) trees
  pub init_hi : pack.tree_init_hi ≡ map (λ t. t.init_hi) trees
  pub fid : pack.block_fid ≡ map (λ b. b.fid) blocks
  pub bucket_cnt : pack.block_bucket_cnt ≡ map (λ b. b.bucket_cnt) blocks
  pub miss_bucket : pack.block_miss_bucket ≡ map (λ b. b.miss_bucket) blocks
  pub lut_off : pack.block_lut_off ≡ map (λ b. b.lut_off) blocks
  pub mask_off : pack.block_mask_off ≡ map (λ b. b.mask_off) blocks
  pub lo : pack.masks_lo ≡ map (λ m. m.lo) masks
  pub hi : pack.masks_hi ≡ map (λ m. m.hi) masks

module _ {F : Type 0} ⦃f : Float32 F⦄ (pack : QsPack F) {trees : List QsTreeHdr}
    {blocks : List QsBlockHdr} {masks : List Mask128} (v : IsView pack trees blocks masks) where
  pub tree_rows-eq : write_rows (tree_row pack) (length trees) 0 ≡ ok (write_vec tree_bytes trees)
  unfolding tree_row
  tree_rows-eq = rows-eq (tree_row pack) tree_bytes trees 0 (λ j t p.
      let e : 0 + j ≡ j = omega arith in
      rw
        (
          e,
          column _ _ _ _ j v.block_off p,
          column _ _ _ _ j v.block_cnt p,
          column _ _ _ _ j v.leaf_cnt p,
          column _ _ _ _ j v.leaf_val_off p,
          column _ _ _ _ j v.init_lo p,
          column _ _ _ _ j v.init_hi p,
        )
        refl)

  pub block_rows-eq :
      write_rows (block_row pack) (length blocks) 0 ≡ ok (write_vec block_bytes blocks)
  unfolding block_row
  block_rows-eq = rows-eq (block_row pack) block_bytes blocks 0 (λ j b p.
      let e : 0 + j ≡ j = omega arith in
      rw
        (
          e,
          column _ _ _ _ j v.fid p,
          column _ _ _ _ j v.bucket_cnt p,
          column _ _ _ _ j v.miss_bucket p,
          column _ _ _ _ j v.lut_off p,
          column _ _ _ _ j v.mask_off p,
        )
        refl)

  pub mask_rows-eq : write_rows (mask_row pack) (length masks) 0 ≡ ok (write_vec mask_bytes masks)
  unfolding mask_row
  mask_rows-eq = rows-eq (mask_row pack) mask_bytes masks 0 (λ j m p.
      let e : 0 + j ≡ j = omega arith in
      rw (e, column _ _ _ _ j v.lo p, column _ _ _ _ j v.hi p) refl)
