-- ===== src/Forest/Headers.antt =====
-- `score_row` of crates/risk-quickscorer/src/qs_exact.rs, which reads the trees and blocks as records,
-- against the traversal that reads them as arrays.
use riskanvil.Base.{
  ℕ, zero, suc, ◌+◌, not, none, some, List, [], ◌∷◌, map, length, get_elem?, ltb, ◌==◌,
  if◌then◌else◌, Result, ok, ◌>>=◌, ◌>>◌, ensure, Result-cases, Option-cases, inl, inr, ◌≡◌, refl,
  ◌∙◌, ap, arith, true,
}
use riskanvil.Base.Float.{Float32}
use riskanvil.Forest.Pack.{QsPack, QsTreeHdr, QsBlockHdr, QsError, leaf_outside, at}
use riskanvil.Forest.Quantize.{quantize_row}
use riskanvil.Forest.Trees.{
  walk_blocks, decode_leaf, block_mask, score_tree, score_tree_quantized, has_tree, sum_trees,
}

abbrev pub indices : ℕ → ℕ → List ℕ
indices zero i = []
indices (suc n) i = i ∷ indices n (i + 1)

module _ {F : Type 0} ⦃f : Float32 F⦄ (pack : QsPack F) where
  abbrev hdr_bucket : QsBlockHdr → List ℕ → ℕ → Result QsError ℕ
  hdr_bucket block ranks miss =
      if not (miss == 0)
      then ok block.miss_bucket
      else (at ranks block.fid >>= λ rank. at pack.luts (block.lut_off + rank))

  abbrev pub mask_record : ℕ → Result QsError (ℕ × ℕ)
  mask_record i = do mask ← at pack.masks i; ok (mask.lo, mask.hi)

  unfoldable pub hdr_mask : List ℕ → List ℕ → ℕ → Result QsError (ℕ × ℕ)
  hdr_mask ranks missing block_idx = do
    block ← at pack.block_hdrs block_idx
    miss ← at missing block.fid
    bucket ← hdr_bucket block ranks miss
    mask_record (block.mask_off + bucket)

  abbrev hdr_leaf : QsTreeHdr → ℕ → ℕ → Result QsError F
  hdr_leaf tree lo hi = do
    leaf_idx ← decode_leaf lo hi
    ensure (ltb leaf_idx tree.leaf_cnt) (leaf_outside leaf_idx tree.leaf_cnt)
    at pack.leaf_values (tree.leaf_val_off + leaf_idx)

  unfoldable pub score_hdr : List ℕ → List ℕ → QsTreeHdr → Result QsError (F × ℕ × ℕ)
  score_hdr ranks missing tree = do
    walk ←
        walk_blocks (hdr_mask ranks missing) tree.block_cnt tree.block_off tree.init_lo tree.init_hi
          0
    value ← hdr_leaf tree walk.lo walk.hi
    ok (value, walk.block_evals, walk.resolved_early)

  unfoldable pub sum_hdrs :
      List ℕ → List ℕ → List QsTreeHdr → F × ℕ × ℕ → Result QsError (F × ℕ × ℕ)
  sum_hdrs ranks missing [] acc = ok acc
  sum_hdrs ranks missing (tree ∷ trees) (score, evals, early) = do
    (s, e, r) ← score_hdr ranks missing tree
    sum_hdrs ranks missing trees (f.add score s, evals + e, early + r)

  unfoldable pub score_row : List F → List ℕ × List ℕ → Result QsError (F × ℕ × ℕ)
  score_row feat buffers = do
    (ranks, missing) ← quantize_row pack feat pack.n_features 0 buffers
    sum_hdrs ranks missing pack.tree_hdrs (pack.base_score, 0, 0)

  -- The arrays are the records' fields, as the loader pushes them.
  pub record IsColumns : Type 0 where
    pub trees : length pack.tree_hdrs ≡ pack.n_trees
    pub block_off : pack.tree_block_off ≡ map (λ t. t.block_off) pack.tree_hdrs
    pub block_cnt : pack.tree_block_cnt ≡ map (λ t. t.block_cnt) pack.tree_hdrs
    pub leaf_cnt : pack.tree_leaf_cnt ≡ map (λ t. t.leaf_cnt) pack.tree_hdrs
    pub leaf_val_off : pack.tree_leaf_val_off ≡ map (λ t. t.leaf_val_off) pack.tree_hdrs
    pub init_lo : pack.tree_init_lo ≡ map (λ t. t.init_lo) pack.tree_hdrs
    pub init_hi : pack.tree_init_hi ≡ map (λ t. t.init_hi) pack.tree_hdrs
    pub fid : pack.block_fid ≡ map (λ b. b.fid) pack.block_hdrs
    pub miss_bucket : pack.block_miss_bucket ≡ map (λ b. b.miss_bucket) pack.block_hdrs
    pub lut_off : pack.block_lut_off ≡ map (λ b. b.lut_off) pack.block_hdrs
    pub mask_off : pack.block_mask_off ≡ map (λ b. b.mask_off) pack.block_hdrs
    pub lo : pack.masks_lo ≡ map (λ m. m.lo) pack.masks
    pub hi : pack.masks_hi ≡ map (λ m. m.hi) pack.masks

pub at-map-none :
    {A B : Type 0} (g : A → B) (xs : List A) (i : ℕ)
    → get_elem? xs i ≡ none
    → get_elem? (map g xs) i ≡ none
at-map-none g [] i h = refl
at-map-none g (x ∷ xs) zero h = absurd (ground (arith, h))
at-map-none g (x ∷ xs) (suc i) h = at-map-none g xs i h

pub at-map :
    {A B : Type 0} (g : A → B) (xs : List A) (i : ℕ) (x : A)
    → get_elem? xs i ≡ some x
    → get_elem? (map g xs) i ≡ some (g x)
at-map g [] i x h = absurd (ground (arith, h))
at-map g (y ∷ ys) zero x h = ground (arith, h)
at-map g (y ∷ ys) (suc i) x h = at-map g ys i x h

pub column :
    {A B : Type 0} (g : A → B) (xs : List A) (ys : List B) (x : A) (i : ℕ)
    → ys ≡ map g xs
    → get_elem? xs i ≡ some x
    → get_elem? ys i ≡ some (g x)
column g xs ys x i same h = rw same (at-map g xs i x h)

column_none :
    {A B : Type 0} (g : A → B) (xs : List A) (ys : List B) (i : ℕ)
    → ys ≡ map g xs
    → get_elem? xs i ≡ none
    → get_elem? ys i ≡ none
column_none g xs ys i same h = rw same (at-map-none g xs i h)

module _ {F : Type 0} ⦃f : Float32 F⦄ (pack : QsPack F) (c : IsColumns pack)
    (ranks missing : List ℕ) where
  abbrev mask_columns : ℕ → Result QsError (ℕ × ℕ)
  mask_columns i = do lo ← at pack.masks_lo i; hi ← at pack.masks_hi i; ok (lo, hi)

  mask-eq : (j : ℕ) → mask_record pack j ≡ mask_columns j
  mask-eq j = elim (Option-cases (get_elem? pack.masks j)) [
    | inl p ↦ rw (p, column_none _ _ _ j c.lo p) refl
    | inr (m, p) ↦ rw (p, column _ _ _ _ j c.lo p, column _ _ _ _ j c.hi p) refl
  ]

  hdr_mask-eq : (i : ℕ) → hdr_mask pack ranks missing i ≡ block_mask pack ranks missing i
  unfolding hdr_mask block_mask
  hdr_mask-eq i = elim (Option-cases (get_elem? pack.block_hdrs i)) [
    | inl p ↦ rw (p, column_none _ _ _ i c.fid p) refl
    | inr (b, p) ↦
        rw
          (
            p,
            column _ _ _ _ i c.fid p,
            column _ _ _ _ i c.miss_bucket p,
            column _ _ _ _ i c.lut_off p,
            column _ _ _ _ i c.mask_off p,
          )
          (ap (λ k. at missing b.fid >>= λ miss. hdr_bucket pack b ranks miss >>= k)
            (λ d bucket. mask-eq (b.mask_off + bucket) d))
  ]

  score_hdr-eq :
      (t : ℕ) (tree : QsTreeHdr)
      → get_elem? pack.tree_hdrs t ≡ some tree
      → score_hdr pack ranks missing tree ≡ score_tree_quantized pack t ranks missing
  unfolding score_hdr score_tree_quantized score_tree
  score_hdr-eq t tree p =
      let masks : hdr_mask pack ranks missing ≡ block_mask pack ranks missing =
        λ d i. hdr_mask-eq i d in
      rw
        (
          masks,
          column _ _ _ _ t c.init_lo p,
          column _ _ _ _ t c.init_hi p,
          column _ _ _ _ t c.block_off p,
          column _ _ _ _ t c.block_cnt p,
          column _ _ _ _ t c.leaf_cnt p,
          column _ _ _ _ t c.leaf_val_off p,
        )
        refl

  sum_hdrs-eq :
      (k : ℕ) (rest : List QsTreeHdr) (acc : F × ℕ × ℕ)
      → k + length rest ≡ pack.n_trees
      → ((j : ℕ) → get_elem? pack.tree_hdrs (k + j) ≡ get_elem? rest j)
      → sum_hdrs pack ranks missing rest acc
        ≡ sum_trees pack
            (λ t. score_tree_quantized pack t ranks missing)
            (indices (length rest) k)
            acc
  unfolding sum_hdrs sum_trees
  sum_hdrs-eq k [] acc h same = refl
  sum_hdrs-eq k (tree ∷ trees) (score, evals, early) h same =
      let inside : has_tree pack k ≡ true = ground (arith, h) in
      let here : get_elem? pack.tree_hdrs k ≡ some tree =
        let e : k + 0 ≡ k = omega arith in rw (← e) (same 0) in
      elim (Result-cases (score_tree_quantized pack k ranks missing)) [
        | inl (e, q) ↦ rw (score_hdr-eq k tree here, inside, q) refl
        | inr ((s, e, r), q) ↦
            rw (score_hdr-eq k tree here, inside, q)
              (sum_hdrs-eq (k + 1) trees (f.add score s, evals + e, early + r) (omega (arith, h))
                (λ j. let shift : k + 1 + j ≡ k + suc j = omega arith in rw shift (same (suc j))))
      ]

module _ {F : Type 0} ⦃f : Float32 F⦄ (pack : QsPack F) where
  -- Where the arrays of a pack are the fields of its tree and block records, as a pack of the
  -- first version is loaded, score_row has on every row and with any buffers the same sums, or the
  -- same error, as the quantized traversal of all trees over the arrays from the base score.
  pub score_row-eq-columns :
      IsColumns pack
      → (feat : List F) (buffers : List ℕ × List ℕ)
      → score_row pack feat buffers ≡ (
          quantize_row pack feat pack.n_features 0 buffers >>= λ (ranks, missing).
          sum_trees pack
            (λ t. score_tree_quantized pack t ranks missing)
            (indices pack.n_trees 0)
            (pack.base_score, 0, 0))
  unfolding score_row
  score_row-eq-columns c feat buffers =
      elim (Result-cases (quantize_row pack feat pack.n_features 0 buffers)) [
        | inl (e, p) ↦ rw p refl
        | inr ((ranks, missing), p) ↦ rw p (
            sum_hdrs-eq pack c ranks missing 0 pack.tree_hdrs (pack.base_score, 0, 0)
              (omega (arith, c.trees)) (λ j. let e : 0 + j ≡ j = omega arith in rw e refl)
            ∙ ap
                (λ n.
                  sum_trees pack (λ t. score_tree_quantized pack t ranks missing) (indices n 0)
                    (pack.base_score, 0, 0))
                c.trees)
      ]
