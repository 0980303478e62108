-- ===== src/Forest/Converted.antt =====
-- The packs that `load_qs_pack` of crates/risk-quickscorer/src/qs_exact.rs gives: converted to the second
-- version of the format, as the command `compile-qs-pack-v2` does, and scored by `score_row`.
use riskanvil.Base.{
  ℕ, ◌^◌, ◌≤◌, ◌<◌, Bool, true, false, not, ◌&&◌, Bool-cases, List, length, take, ltb, bytes_eq, ok,
  bytes_eq→eq, ◌>>=◌, Result-cases, inl, inr, ◌≡◌, refl, arith,
}
use riskanvil.Base.Float.{Float32}
use riskanvil.Boost.Got.{IsBytes, After, step-After}
use riskanvil.Boost.Reader as Reader
use riskanvil.Forest.File.{
  magic_qs, magic_qs_v2, isize_limit, read_header, read_sections, load_qs_pack,
}
use riskanvil.Forest.FileLoaded.{IsLoaded, read_header-Got, sections-After}
use riskanvil.Forest.FileRoundTrip.{
  without_records, saved_file, length-saved_file, save-saved_file, load-saved_file,
}
use riskanvil.Forest.Headers.{indices, score_row, IsColumns, score_row-eq-columns}
use riskanvil.Forest.Pack.{QsPack}
use riskanvil.Forest.Quantize.{quantize_row}
use riskanvil.Forest.Save.{save_qs_pack_v2}
use riskanvil.Forest.Trees.{score_tree_quantized, sum_trees}

module _ {F : Type 0} ⦃f : Float32 F⦄ where
  load-IsLoaded :
      (kept : (w : ℕ) → w < 2 ^ 32 → f.to_bits (f.from_bits w) ≡ w) (buf : List ℕ) (pack : QsPack F)
      → IsBytes buf
      → load_qs_pack buf ≡ ok pack
      → IsLoaded buf (bytes_eq (take 7 buf) magic_qs_v2) pack
  unfolding load_qs_pack
  load-IsLoaded kept buf pack bytes h =
      let magic = take 7 buf in
      let v2 = bytes_eq magic magic_qs_v2 in
      elim (Bool-cases (ltb (length buf) 79)) [
        | inl short ↦ absurd (ground (arith, rw short at h))
        | inr long ↦ elim (Bool-cases (not (bytes_eq magic magic_qs) && not v2)) [
          | inl other ↦ absurd (ground (arith, rw (long, other) at h))
          | inr known ↦
              let enough : 79 ≤ length buf = ground (arith, long) in
              let sections : After buf 7 (Reader.◌>>=◌ (read_header {F = F}) (read_sections v2))
                  (IsLoaded buf v2) =
                step-After buf 7 _ (read_header-Got kept buf bytes) (omega arith)
                  (λ hdr mid fits to within.
                    let stop : mid ≡ 79 = omega arith in
                    rw stop (sections-After kept buf bytes v2 hdr fits enough)) in
              elim (Result-cases ((Reader.◌>>=◌ (read_header {F = F}) (read_sections v2)) buf 7)) [
                | inl (e, p) ↦ absurd (ground (arith, rw (long, known, p) at h))
                | inr ((got, end), p) ↦
                    let same : got ≡ pack = ground (arith, rw (long, known, p) at h) in
                    rw same at (sections.from got end p)
              ]
        ]
      ]

  -- Where a file of fewer than 2^63 bytes, of either version, loads as a pack, save_qs_pack_v2
  -- writes that pack without an error into no more bytes, and these load as the same pack without
  -- its tree, block and mask records, given that the bits of an f32 come back from the float they
  -- make.
  pub load-save_qs_pack_v2 :
      (buf : List ℕ) (pack : QsPack F)
      → ((w : ℕ) → w < 2 ^ 32 → f.to_bits (f.from_bits w) ≡ w)
      → IsBytes buf
      → length buf < isize_limit
      → load_qs_pack buf ≡ ok pack
      → (out : List ℕ) × (save_qs_pack_v2 pack ≡ ok out)
        × (length out ≤ length buf)
        × (load_qs_pack out ≡ ok (without_records pack))
  load-save_qs_pack_v2 buf pack kept bytes small h =
      let l = load-IsLoaded kept buf pack bytes h in
      let trees = l.tree_records in
      let blocks = l.block_records in
      let masks = l.mask_records in
      let size = length-saved_file pack trees blocks masks l.view l.savable in
      let within : length (saved_file pack trees blocks masks) ≤ length buf =
        omega (arith, size, l.size) in
      (
        saved_file pack trees blocks masks,
        save-saved_file pack trees blocks masks l.view l.savable,
        within,
        load-saved_file pack trees blocks masks l.view l.savable (omega (arith, within, small)),
      )

  -- A loaded pack, of either version, has no more tree records than trees.
  length-tree_hdrs :
      (buf : List ℕ) (pack : QsPack F) (is_v2 : Bool)
      → IsLoaded buf is_v2 pack
      → length pack.tree_hdrs ≤ pack.n_trees
  length-tree_hdrs buf pack false l = rw l.tree_hdrs (omega (arith, l.savable.trees_len))
  length-tree_hdrs buf pack true l = rw l.tree_hdrs (omega arith)

  loaded-IsColumns : (buf : List ℕ) (pack : QsPack F) → IsLoaded buf false pack → IsColumns pack
  loaded-IsColumns buf pack l = record {
    trees = rw l.tree_hdrs l.savable.trees_len;
    block_off = rw l.tree_hdrs l.view.block_off;
    block_cnt = rw l.tree_hdrs l.view.block_cnt;
    leaf_cnt = rw l.tree_hdrs l.view.leaf_cnt;
    leaf_val_off = rw l.tree_hdrs l.view.leaf_val_off;
    init_lo = rw l.tree_hdrs l.view.init_lo;
    init_hi = rw l.tree_hdrs l.view.init_hi;
    fid = rw l.block_hdrs l.view.fid;
    miss_bucket = rw l.block_hdrs l.view.miss_bucket;
    lut_off = rw l.block_hdrs l.view.lut_off;
    mask_off = rw l.block_hdrs l.view.mask_off;
    lo = rw l.masks l.view.lo;
    hi = rw l.masks l.view.hi;
  }

  -- Where a file of bytes with the magic of the first version loads, score_row has on every row
  -- and with any buffers the same sums, or the same error, as the quantized traversal of all trees
  -- over the arrays from the base score, given that the bits of an f32 come back from the float
  -- they make.
  pub score_row-eq-loaded :
      (buf : List ℕ) (pack : QsPack F)
      → ((w : ℕ) → w < 2 ^ 32 → f.to_bits (f.from_bits w) ≡ w)
      → IsBytes buf
      → bytes_eq (take 7 buf) magic_qs ≡ true
      → load_qs_pack buf ≡ ok pack
      → (feat : List F) (buffers : List ℕ × List ℕ)
      → score_row pack feat buffers ≡ (
          quantize_row pack feat pack.n_features 0 buffers >>= λ (ranks, missing).
          sum_trees pack
            (λ t. score_tree_quantized pack t ranks missing)
            (indices pack.n_trees 0)
            (pack.base_score, 0, 0))
  score_row-eq-loaded buf pack kept bytes first h =
      let other : bytes_eq (take 7 buf) magic_qs_v2 ≡ false =
        rw (bytes_eq→eq (take 7 buf) magic_qs first) refl in
      score_row-eq-columns pack
        (loaded-IsColumns buf pack (rw other at (load-IsLoaded kept buf pack bytes h)))
