-- ===== src/Cascade/HotFiles.antt =====
-- The compiled hot prefix pack and the hot checkpoint layout of crates/risk-quickscorer/src/prefix.rs
-- as files: `save_compiled_hot_prefix_pack`, `load_compiled_hot_prefix_pack`,
-- `save_hot_checkpoint_layout` and `load_hot_checkpoint_layout`, from the bytes on. `as u32` keeps
-- the low 32 bits, which are all that `le32` takes.
use riskanvil.Base.{ℕ, List, [], ◌∷◌, ◌++◌, length, All, Result, ok, ◌≡◌, arith}
use riskanvil.Base.Bytes.{le16, le32}
use riskanvil.Base.Float.{Float32}
use riskanvil.Boost.Load.{behind_magic}
use riskanvil.Boost.Prefix.{HotPrefixNode, HotCompiledPrefixPack}
use riskanvil.Boost.Reader.{LoadError, Reader, ◌>>=◌, pure, le_u16, le_u32, le_f32, read_vec}
use riskanvil.Boost.Written.{
  write_vec, U16, U32, Saved, vec_of, count, ReadsBack, bind-ReadsBack, last-ReadsBack,
  read_vec-ReadsBack, le_u16-ReadsBack, le_u32-ReadsBack, le_f32-ReadsBack, le_float, IsExact,
  behind_magic-ReadsBack,
}

-- "L1PRFC1\0" and "L2HCLv1\0"
abbrev magic_prfc : List ℕ
magic_prfc = 76 ∷ 49 ∷ 80 ∷ 82 ∷ 70 ∷ 67 ∷ 49 ∷ 0 ∷ []

abbrev magic_hcl : List ℕ
magic_hcl = 76 ∷ 50 ∷ 72 ∷ 67 ∷ 76 ∷ 118 ∷ 49 ∷ 0 ∷ []

module _ {F : Type 0} ⦃f : Float32 F⦄ where
  abbrev node_bytes : HotPrefixNode F → List ℕ
  node_bytes node =
      le_float node.thr
      ++ le_float node.leaf
      ++ le16 node.left
      ++ le16 node.right
      ++ le16 node.missing
      ++ le16 node.hot_fidx_flags

  unfoldable pub save_compiled_hot_prefix_pack : HotCompiledPrefixPack F → List ℕ
  save_compiled_hot_prefix_pack pack =
      magic_prfc
      ++ (le32 pack.n_hot_features
          ++ (le32 pack.n_trees
              ++ (le32 (length pack.nodes)
                  ++ (write_vec le32 pack.hot_global_fidx
                      ++ (write_vec le16 pack.tree_roots ++ write_vec node_bytes pack.nodes)))))

  unfoldable pub read_hot_node : Reader (HotPrefixNode F)
  read_hot_node = do
    thr ← le_f32
    leaf ← le_f32
    left ← le_u16
    right ← le_u16
    missing ← le_u16
    hot_fidx_flags ← le_u16
    pure (record {
      thr = thr;
      leaf = leaf;
      left = left;
      right = right;
      missing = missing;
      hot_fidx_flags = hot_fidx_flags;
    })

  unfoldable pub load_compiled_hot_prefix_pack : List ℕ → Result LoadError (HotCompiledPrefixPack F)
  load_compiled_hot_prefix_pack = behind_magic 12 magic_prfc (do
    n_hot_features ← le_u32
    n_trees ← le_u32
    n_nodes ← le_u32
    hot_global_fidx ← read_vec le_u32 n_hot_features
    tree_roots ← read_vec le_u16 n_trees
    nodes ← read_vec read_hot_node n_nodes
    pure (record {
      n_hot_features = n_hot_features;
      n_trees = n_trees;
      hot_global_fidx = hot_global_fidx;
      tree_roots = tree_roots;
      nodes = nodes;
    }))

  pub record IsHotNode (node : HotPrefixNode F) : Type 0 where
    pub thr : IsExact node.thr
    pub leaf : IsExact node.leaf
    pub left : U16 node.left
    pub right : U16 node.right
    pub missing : U16 node.missing
    pub hot_fidx_flags : U16 node.hot_fidx_flags

  -- The numbers fit their types, and each array is as long as the pack says.
  pub record IsHotPack (pack : HotCompiledPrefixPack F) : Type 0 where
    pub features_len : length pack.hot_global_fidx ≡ pack.n_hot_features
    pub roots_len : length pack.tree_roots ≡ pack.n_trees
    pub features_count : U32 pack.n_hot_features
    pub roots_count : U32 pack.n_trees
    pub nodes_count : U32 (length pack.nodes)
    pub features : All U32 pack.hot_global_fidx
    pub roots : All U16 pack.tree_roots
    pub nodes : All IsHotNode pack.nodes

  hot_node-ReadsBack :
      (node : HotPrefixNode F) → IsHotNode node → ReadsBack read_hot_node (node_bytes node) node
  unfolding read_hot_node
  hot_node-ReadsBack node h = bind-ReadsBack _ _ (le_f32-ReadsBack node.thr h.thr) (
      bind-ReadsBack _ _ (le_f32-ReadsBack node.leaf h.leaf) (
        bind-ReadsBack _ _ (le_u16-ReadsBack node.left h.left) (
          bind-ReadsBack _ _ (le_u16-ReadsBack node.right h.right) (
            bind-ReadsBack _ _ (le_u16-ReadsBack node.missing h.missing)
              (last-ReadsBack _ _ (le_u16-ReadsBack node.hot_fidx_flags h.hot_fidx_flags))))))

  -- A compiled pack is loaded from its file as it was saved.
  pub load-save_compiled_hot_prefix_pack :
      (pack : HotCompiledPrefixPack F)
      → IsHotPack pack
      → load_compiled_hot_prefix_pack (save_compiled_hot_prefix_pack pack) ≡ ok pack
  unfolding save_compiled_hot_prefix_pack load_compiled_hot_prefix_pack
  load-save_compiled_hot_prefix_pack pack h =
      behind_magic-ReadsBack 12 magic_prfc _ _ pack (omega arith) (
        bind-ReadsBack _ _ (le_u32-ReadsBack pack.n_hot_features h.features_count) (
          bind-ReadsBack _ _ (le_u32-ReadsBack pack.n_trees h.roots_count) (
            bind-ReadsBack _ _ (le_u32-ReadsBack (length pack.nodes) h.nodes_count) (
              bind-ReadsBack _ _
                (vec_of U32 le_u32 le32 pack.hot_global_fidx h.features_len le_u32-ReadsBack
                  h.features)
                (bind-ReadsBack _ _
                  (vec_of U16 le_u16 le16 pack.tree_roots h.roots_len le_u16-ReadsBack h.roots)
                  (last-ReadsBack _ _ (
                    read_vec-ReadsBack IsHotNode read_hot_node node_bytes pack.nodes
                      hot_node-ReadsBack h.nodes)))))))

pub record HotCheckpointLayout : Type 0 where
  pub hot_values : List ℕ
  pub hot_indices : List ℕ
  pub late_values : List ℕ
  pub late_indices : List ℕ
  pub late_feature_ids : List ℕ
  pub late_feature_offsets : List ℕ
  pub late_cut_starts : List ℕ
  pub late_cut_ends : List ℕ

unfoldable pub save_hot_checkpoint_layout : HotCheckpointLayout → List ℕ
save_hot_checkpoint_layout layout =
    magic_hcl
    ++ (le32 (length layout.hot_values)
        ++ (le32 (length layout.hot_indices)
            ++ (le32 (length layout.late_values)
                ++ (le32 (length layout.late_indices)
                    ++ (le32 (length layout.late_feature_ids)
                        ++ (le32 (length layout.late_feature_offsets)
                            ++ (write_vec le32 layout.hot_values
                                ++ (write_vec le32 layout.hot_indices
                                    ++ (write_vec le32 layout.late_values
                                        ++ (write_vec le32 layout.late_indices
                                            ++ (write_vec le16 layout.late_feature_ids
                                                ++ write_vec le32
                                                    layout.late_feature_offsets)))))))))))

unfoldable pub load_hot_checkpoint_layout : List ℕ → Result LoadError HotCheckpointLayout
load_hot_checkpoint_layout = behind_magic 24 magic_hcl (do
  hot_values_len ← le_u32
  hot_indices_len ← le_u32
  late_values_len ← le_u32
  late_indices_len ← le_u32
  late_feature_ids_len ← le_u32
  late_feature_offsets_len ← le_u32
  hot_values ← read_vec le_u32 hot_values_len
  hot_indices ← read_vec le_u32 hot_indices_len
  late_values ← read_vec le_u32 late_values_len
  late_indices ← read_vec le_u32 late_indices_len
  late_feature_ids ← read_vec le_u16 late_feature_ids_len
  late_feature_offsets ← read_vec le_u32 late_feature_offsets_len
  pure (record {
    hot_values = hot_values;
    hot_indices = hot_indices;
    late_values = late_values;
    late_indices = late_indices;
    late_feature_ids = late_feature_ids;
    late_feature_offsets = late_feature_offsets;
    late_cut_starts = [];
    late_cut_ends = [];
  }))

pub record IsLayout (layout : HotCheckpointLayout) : Type 0 where
  pub hot_values : Saved U32 layout.hot_values
  pub hot_indices : Saved U32 layout.hot_indices
  pub late_values : Saved U32 layout.late_values
  pub late_indices : Saved U32 layout.late_indices
  pub late_feature_ids : Saved U16 layout.late_feature_ids
  pub late_feature_offsets : Saved U32 layout.late_feature_offsets

words :
    (xs : List ℕ) → Saved U32 xs → ReadsBack (read_vec le_u32 (length xs)) (write_vec le32 xs) xs
words xs h = read_vec-ReadsBack U32 le_u32 le32 xs le_u32-ReadsBack h.1

-- A checkpoint layout whose numbers fit 32 bits, its feature ids 16, and whose vectors have fewer
-- than 2^32 elements is loaded from its file as it was saved, without its cuts.
pub load-save_hot_checkpoint_layout :
    (layout : HotCheckpointLayout)
    → IsLayout layout
    → load_hot_checkpoint_layout (save_hot_checkpoint_layout layout)
      ≡ ok (record layout { late_cut_starts = []; late_cut_ends = [] })
unfolding save_hot_checkpoint_layout load_hot_checkpoint_layout
load-save_hot_checkpoint_layout layout h = behind_magic-ReadsBack 24 magic_hcl _ _ _ (omega arith) (
    bind-ReadsBack _ _ (count U32 layout.hot_values h.hot_values) (
      bind-ReadsBack _ _ (count U32 layout.hot_indices h.hot_indices) (
        bind-ReadsBack _ _ (count U32 layout.late_values h.late_values) (
          bind-ReadsBack _ _ (count U32 layout.late_indices h.late_indices) (
            bind-ReadsBack _ _ (count U16 layout.late_feature_ids h.late_feature_ids) (
              bind-ReadsBack _ _ (count U32 layout.late_feature_offsets h.late_feature_offsets) (
                bind-ReadsBack _ _ (words layout.hot_values h.hot_values) (
                  bind-ReadsBack _ _ (words layout.hot_indices h.hot_indices) (
                    bind-ReadsBack _ _ (words layout.late_values h.late_values) (
                      bind-ReadsBack _ _ (words layout.late_indices h.late_indices) (
                        bind-ReadsBack _ _
                          (read_vec-ReadsBack U16 le_u16 le16 layout.late_feature_ids
                            le_u16-ReadsBack h.late_feature_ids.1)
                          (last-ReadsBack _ _
                            (words layout.late_feature_offsets h.late_feature_offsets)))))))))))))
