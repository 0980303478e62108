-- ===== src/Forest/FileLoaded.antt =====
-- What `load_qs_pack` of crates/risk-quickscorer/src/qs_exact.rs gives from a file that it takes.
use riskanvil.Base.{
  ℕ, ◌+◌, ◌-◌, ◌*◌, ◌/◌, ◌^◌, ◌≤◌, ◌<◌, Bool, Bool-cases, List, [], map, length, length-take,
  length-drop, All, drop, ltb, leb, if◌then◌else◌, ok, inl, inr, ◌≡◌, refl, arith,
}
use riskanvil.Base.Float.{Float32}
use riskanvil.Boost.Got.{
  IsBytes, byte-lt, After, bind-After, step-After, pure-After, Got, field-Got, pure-Got, bind-Got,
  read_vec-Got, read_u32-lt, le_u32-Got, le_u64-Got, le_f32-Got,
}
use riskanvil.Boost.Reader as Reader
use riskanvil.Boost.Reader.{LoadError, Reader, le_u32, le_f32, read_vec}
use riskanvil.Boost.Written.{U32, IsExact}
use riskanvil.Forest.File.{
  QsHeader, expect, last_or_zero, max_of, lut_end, mask_end, leaf_end, read_tree_hdr,
  read_block_hdr, read_luts, read_mask, isize_limit, read_masks, read_leafs, read_header, pack_of,
  read_sections,
}
use riskanvil.Forest.FileRows.{IsTree, IsBlock, IsMask, IsView}
use riskanvil.Forest.FileRoundTrip.{IsSavable}
use riskanvil.Forest.Pack.{QsTreeHdr, QsBlockHdr, Mask128, QsPack}

expect_ok :
    (n : ℕ) (e : LoadError) (buf : List ℕ) (off end : ℕ) (u : Unit {0})
    → expect n e buf off ≡ ok (u, end)
    → (off ≡ n) × (end ≡ n)
unfolding expect
expect_ok n e buf off end u h = ground (arith, h)

luts_ok :
    (luts_off masks_off most : ℕ) (buf : List ℕ) (off end : ℕ) (luts : List ℕ)
    → read_luts luts_off masks_off most buf off ≡ ok (luts, end)
    → (most ≤ length luts)
      × (luts_off + length luts ≡ masks_off)
      × (end ≡ masks_off)
      × (masks_off ≤ length buf)
unfolding read_luts
luts_ok luts_off masks_off most buf off end luts h =
    ground
      (arith, length-take (masks_off - luts_off) (drop luts_off buf), length-drop luts_off buf, h)

expect-After :
    {A : Type 0} {Post : A → Type 0} (buf : List ℕ) (off n : ℕ) (e : LoadError) (k : Reader A)
    → (off ≡ n → After buf n k Post)
    → After buf off (Reader.◌>>◌ (expect n e) k) Post
expect-After buf off n e k rest =
    bind-After buf off (expect n e) (λ u. k)
      (λ u mid h. let (here, stop) = expect_ok n e buf off mid u h in rw (← stop) at (rest here))

module _ (buf : List ℕ) (bytes : IsBytes buf) where
  read_tree_hdr-Got : Got buf read_tree_hdr 28 IsTree
  unfolding read_tree_hdr
  read_tree_hdr-Got = bind-Got buf 4 24 _ (le_u32-Got buf bytes) (λ a p.
      bind-Got buf 4 20 _ (le_u32-Got buf bytes) (λ w q.
        bind-Got buf 4 16 _ (le_u32-Got buf bytes) (λ c r.
          bind-Got buf 8 8 _ (le_u64-Got buf bytes) (λ lo s.
            bind-Got buf 8 0 _ (le_u64-Got buf bytes) (λ hi t. pure-Got buf IsTree _ (record {
              block_off = p;
              block_cnt = omega arith;
              leaf_cnt = omega arith;
              leaf_val_off = r;
              init_lo = s;
              init_hi = t;
            }))))))

  read_block_hdr-Got : Got buf read_block_hdr 12 IsBlock
  unfolding read_block_hdr
  read_block_hdr-Got = field-Got buf 12 _ _ IsBlock (λ off. record {
    fid = byte-lt buf off bytes;
    bucket_cnt = byte-lt buf (off + 1) bytes;
    miss_bucket = byte-lt buf (off + 2) bytes;
    lut_off = read_u32-lt buf bytes (off + 4);
    mask_off = read_u32-lt buf bytes (off + 8);
  })

  read_mask-Got : Got buf read_mask 16 IsMask
  unfolding read_mask
  read_mask-Got = bind-Got buf 8 8 _ (le_u64-Got buf bytes) (λ lo p.
      bind-Got buf 8 0 _ (le_u64-Got buf bytes)
        (λ hi q. pure-Got buf IsMask _ (record { lo = p; hi = q })))

  masks_ok :
      (masks_off leafs_off most off end : ℕ) (masks : List Mask128)
      → off ≤ length buf
      → read_masks masks_off leafs_off most buf off ≡ ok (masks, end)
      → (most ≤ length masks)
        × All IsMask masks
        × (end ≡ off + length masks * 16)
        × (end ≤ length buf)
  unfolding read_masks
  masks_ok masks_off leafs_off most off end masks inside h =
      let n = (leafs_off - masks_off) / 16 in
      elim (Bool-cases (ltb n most)) [
        | inl short ↦ absurd (ground (arith, rw short at h))
        | inr enough ↦ elim (Bool-cases (leb isize_limit (n * 16))) [
          | inl large ↦ absurd (ground (arith, rw (enough, large) at h))
          | inr small ↦
              let ((size, all), stop, within) =
                (read_vec-Got buf 16 n read_mask IsMask read_mask-Got).from off end masks inside
                  (rw (enough, small) at h) in
              (ground (arith, enough, size), all, rw size stop, within)
        ]
      ]

module _ {F : Type 0} ⦃f : Float32 F⦄ where
  pub record IsHeader (h : QsHeader F) : Type 0 where
    pub n_features : U32 h.n_features
    pub n_trees : U32 h.n_trees
    pub n_blocks : U32 h.n_blocks
    pub base_score : IsExact h.base_score

  -- The bytes that the second version of the format has for the sections.
  abbrev pub sections_size : QsPack F → List QsTreeHdr → List QsBlockHdr → List Mask128 → ℕ
  sections_size pack trees blocks masks =
      length pack.cut_offsets * 4
      + length pack.cuts * 4
      + length trees * 28
      + length blocks * 12
      + length pack.luts
      + length masks * 16
      + length pack.leaf_values * 4

  -- The records behind a pack that was loaded.
  pub record IsLoaded (buf : List ℕ) (is_v2 : Bool) (pack : QsPack F) : Type 0 where
    pub tree_records : List QsTreeHdr
    pub block_records : List QsBlockHdr
    pub mask_records : List Mask128
    pub view : IsView pack tree_records block_records mask_records
    pub savable : IsSavable pack tree_records block_records mask_records
    pub size : 79 + sections_size pack tree_records block_records mask_records ≤ length buf
    pub tree_hdrs : pack.tree_hdrs ≡ (if is_v2 then [] else tree_records)
    pub block_hdrs : pack.block_hdrs ≡ (if is_v2 then [] else block_records)
    pub masks : pack.masks ≡ (if is_v2 then [] else mask_records)

module _ {F : Type 0} ⦃f : Float32 F⦄ (kept : (w : ℕ) → w < 2 ^ 32 → f.to_bits (f.from_bits w) ≡ w)
    (buf : List ℕ) (bytes : IsBytes buf) where
  leafs_ok :
      (leafs_off total off end : ℕ) (leafs : List F)
      → off ≤ length buf
      → read_leafs leafs_off total buf off ≡ ok (leafs, end)
      → (length leafs ≡ total)
        × All IsExact leafs
        × (end ≡ off + length leafs * 4)
        × (end ≤ length buf)
  unfolding read_leafs
  leafs_ok leafs_off total off end leafs inside h =
      elim (Bool-cases (ltb (length buf - leafs_off) (total * 4))) [
        | inl short ↦ absurd (ground (arith, rw short at h))
        | inr enough ↦
            let ((size, all), stop, within) =
              (read_vec-Got buf 4 total le_f32 IsExact (le_f32-Got buf bytes kept)).from off end
                leafs inside (rw enough at h) in
            (size, all, rw size stop, within)
      ]

  pub read_header-Got : Got buf (read_header {F = F}) 72 IsHeader
  unfolding read_header
  read_header-Got = bind-Got buf 4 68 _ (le_u32-Got buf bytes) (λ a p.
      bind-Got buf 4 64 _ (le_u32-Got buf bytes) (λ b q.
        bind-Got buf 4 60 _ (le_u32-Got buf bytes) (λ c r.
          bind-Got buf 4 56 _ (le_f32-Got buf bytes kept) (λ d s.
            bind-Got buf 8 48 _ (le_u64-Got buf bytes) (λ o1 t.
              bind-Got buf 8 40 _ (le_u64-Got buf bytes) (λ o2 t.
                bind-Got buf 8 32 _ (le_u64-Got buf bytes) (λ o3 t.
                  bind-Got buf 8 24 _ (le_u64-Got buf bytes) (λ o4 t.
                    bind-Got buf 8 16 _ (le_u64-Got buf bytes) (λ o5 t.
                      bind-Got buf 8 8 _ (le_u64-Got buf bytes) (λ o6 t.
                        bind-Got buf 8 0 _ (le_u64-Got buf bytes) (λ o7 t.
                          pure-Got buf IsHeader _ (record {
                            n_features = p;
                            n_trees = q;
                            n_blocks = r;
                            base_score = s;
                          }))))))))))))

  pack_of-IsView :
      (is_v2 : Bool) (h : QsHeader F) (cut_offsets : List ℕ) (cuts : List F)
      (trees : List QsTreeHdr) (blocks : List QsBlockHdr) (luts : List ℕ) (masks : List Mask128)
      (leafs : List F)
      → IsView (pack_of is_v2 h cut_offsets cuts trees blocks luts masks leafs) trees blocks masks
  pack_of-IsView is_v2 h cut_offsets cuts trees blocks luts masks leafs = record {
    block_off = refl;
    block_cnt = refl;
    leaf_cnt = refl;
    leaf_val_off = refl;
    init_lo = refl;
    init_hi = refl;
    fid = refl;
    bucket_cnt = refl;
    miss_bucket = refl;
    lut_off = refl;
    mask_off = refl;
    lo = refl;
    hi = refl;
  }

  pub sections-After :
      (is_v2 : Bool) (h : QsHeader F)
      → IsHeader h
      → 79 ≤ length buf
      → After buf 79 (read_sections is_v2 h) (IsLoaded buf is_v2)
  unfolding read_sections
  sections-After is_v2 h fits inside = expect-After buf 79 _ _ _ (λ at1.
      step-After buf _ _ (read_vec-Got buf 4 (h.n_features + 1) le_u32 U32 (le_u32-Got buf bytes))
        (omega arith)
        (λ cut_offsets o1 (len1, all1) to1 in1. expect-After buf o1 _ _ _ (λ at2.
          step-After buf _ _
            (read_vec-Got buf 4 (last_or_zero cut_offsets) (le_f32 {F = F}) IsExact
              (le_f32-Got buf bytes kept))
            (omega arith)
            (λ cuts o2 (len2, all2) to2 in2. expect-After buf o2 _ _ _ (λ at3.
              step-After buf _ _
                (read_vec-Got buf 28 h.n_trees read_tree_hdr IsTree (read_tree_hdr-Got buf bytes))
                (omega arith)
                (λ trees o3 (len3, all3) to3 in3. expect-After buf o3 _ _ _ (λ at4.
                  step-After buf _ _
                    (read_vec-Got buf 12 h.n_blocks read_block_hdr IsBlock
                      (read_block_hdr-Got buf bytes))
                    (omega arith)
                    (λ blocks o4 (len4, all4) to4 in4. expect-After buf o4 _ _ _ (λ at5.
                      let most_luts = max_of (map lut_end blocks) in
                      let most_masks = max_of (map mask_end blocks) in
                      let total_leafs = max_of (map leaf_end trees) in
                      bind-After buf _ (read_luts h.luts_off h.masks_off most_luts) _ (λ luts o5 p5.
                        let (long5, size5, to5, in5) =
                          luts_ok h.luts_off h.masks_off most_luts buf h.luts_off o5 luts p5 in
                        bind-After buf _ (read_masks h.masks_off h.leafs_off most_masks) _
                          (λ masks o6 p6.
                            let (long6, all6, to6, in6) =
                              masks_ok buf bytes h.masks_off h.leafs_off most_masks o5 o6 masks
                                (omega arith) p6 in
                            expect-After buf o6 _ _ _ (λ at7.
                              bind-After buf _ (read_leafs h.leafs_off total_leafs) _
                                (λ leafs o7 p7.
                                  let (len7, all7, to7, in7) =
                                    leafs_ok h.leafs_off total_leafs h.leafs_off o7 leafs
                                      (omega arith) p7 in
                                  pure-After buf o7 _ (record {
                                    tree_records = trees;
                                    block_records = blocks;
                                    mask_records = masks;
                                    view =
                                        pack_of-IsView is_v2 h cut_offsets cuts trees blocks luts
                                          masks leafs;
                                    savable = record {
                                      n_features = fits.n_features;
                                      n_trees = fits.n_trees;
                                      n_blocks = fits.n_blocks;
                                      base_score = fits.base_score;
                                      cut_offsets_len = len1;
                                      cut_offsets = all1;
                                      cuts_len = len2;
                                      cuts = all2;
                                      trees_len = len3;
                                      each_tree = all3;
                                      blocks_len = len4;
                                      each_block = all4;
                                      luts = long5;
                                      masks_long = long6;
                                      each_mask = all6;
                                      leafs_len = len7;
                                      leaf_values = all7;
                                    };
                                    size = omega arith;
                                    tree_hdrs = refl;
                                    block_hdrs = refl;
                                    masks = refl;
                                  }))))))))))))))
