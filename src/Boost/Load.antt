-- ===== src/Boost/Load.antt =====
-- The loaders of the first stage's files, `load_soa`, `load_bounds`, `load_tree_order`,
-- `load_prefix_pack` and `load_rank_pack` of crates/risk-quickscorer/src/prefix.rs, from the mapped bytes on.
use riskanvil.Base.{
  ℕ, ◌+◌, not, List, [], ◌∷◌, map, length, take, ltb, bytes_eq, if◌then◌else◌, Result, ok, err,
}
use riskanvil.Base.Float.{Float32}
use riskanvil.Base.Int.{ℤ}
use riskanvil.Boost.Model.{SoaModel, Bounds, TreeOrder}
use riskanvil.Boost.Prefix.{PrefixPack}
use riskanvil.Boost.Ranks.{RankPack}
use riskanvil.Boost.Reader.{
  LoadError, too_short, invalid_magic, Reader, ◌>>=◌, pure, le_u32, le_i32, le_f32, le_flag,
  read_vec,
}

-- "L1SOAv1\0", "L1BNDv1\0", "L1ORDv1\0", "L1PRFv1\0" and "L1RANKv1\0"
abbrev pub magic_soa : List ℕ
magic_soa = 76 ∷ 49 ∷ 83 ∷ 79 ∷ 65 ∷ 118 ∷ 49 ∷ 0 ∷ []

abbrev pub magic_bnd : List ℕ
magic_bnd = 76 ∷ 49 ∷ 66 ∷ 78 ∷ 68 ∷ 118 ∷ 49 ∷ 0 ∷ []

abbrev pub magic_ord : List ℕ
magic_ord = 76 ∷ 49 ∷ 79 ∷ 82 ∷ 68 ∷ 118 ∷ 49 ∷ 0 ∷ []

abbrev pub magic_prf : List ℕ
magic_prf = 76 ∷ 49 ∷ 80 ∷ 82 ∷ 70 ∷ 118 ∷ 49 ∷ 0 ∷ []

abbrev pub magic_rnk : List ℕ
magic_rnk = 76 ∷ 49 ∷ 82 ∷ 65 ∷ 78 ∷ 75 ∷ 118 ∷ 49 ∷ 0 ∷ []

abbrev pub value_of : {A : Type 0} → Result LoadError (A × ℕ) → Result LoadError A
value_of (ok (a, off)) = ok a
value_of (err e) = err e

-- A reader that starts behind the magic bytes, where `fields` bytes have to follow them.
abbrev pub behind_magic : {A : Type 0} → ℕ → List ℕ → Reader A → List ℕ → Result LoadError A
behind_magic fields magic r buf =
    if ltb (length buf) (length magic + fields)
    then err too_short
    else if not (bytes_eq (take (length magic) buf) magic)
    then err invalid_magic
    else value_of (r buf (length magic))

-- The fields of a node, in their order.
pub record SoaNode (F : Type 0) : Type 0 where
  pub fidx : ℤ
  pub left : ℕ
  pub right : ℕ
  pub missing : ℕ
  pub thr : F
  pub leaf : F
  pub is_leaf : ℕ

module _ {F : Type 0} ⦃f : Float32 F⦄ where
  unfoldable pub read_node : Reader (SoaNode F)
  read_node = do
    fidx ← le_i32
    left ← le_u32
    right ← le_u32
    missing ← le_u32
    thr ← le_f32
    leaf ← le_f32
    is_leaf ← le_flag
    pure (record {
      fidx = fidx;
      left = left;
      right = right;
      missing = missing;
      thr = thr;
      leaf = leaf;
      is_leaf = is_leaf;
    })

  abbrev pub soa_of : ℕ → ℕ → ℕ → List ℕ → List (SoaNode F) → SoaModel F
  soa_of n_features n_trees n_nodes tree_offsets nodes = record {
    n_features = n_features;
    n_trees = n_trees;
    node_count = n_nodes;
    tree_roots = take n_trees tree_offsets;
    fidx = map (λ node. node.fidx) nodes;
    left = map (λ node. node.left) nodes;
    right = map (λ node. node.right) nodes;
    missing = map (λ node. node.missing) nodes;
    thr = map (λ node. node.thr) nodes;
    leaf = map (λ node. node.leaf) nodes;
    is_leaf = map (λ node. node.is_leaf) nodes;
  }

  -- Behind the numbers of features, trees and nodes.
  unfoldable pub read_soa : ℕ → ℕ → ℕ → Reader (SoaModel F)
  read_soa n_features n_trees n_nodes = do
    tree_offsets ← read_vec le_u32 (n_trees + 1)
    nodes ← read_vec read_node n_nodes
    pure (soa_of n_features n_trees n_nodes tree_offsets nodes)

  unfoldable pub load_soa : List ℕ → Result LoadError (SoaModel F)
  load_soa = behind_magic 12 magic_soa (do
    n_features ← le_u32
    n_trees ← le_u32
    n_nodes ← le_u32
    read_soa n_features n_trees n_nodes)

  -- Behind the number of trees. The bounds of each tree are skipped.
  unfoldable pub read_bounds : ℕ → Reader (Bounds F)
  read_bounds n_trees = do
    tree_min ← read_vec (le_f32 {F = F}) n_trees
    tree_max ← read_vec (le_f32 {F = F}) n_trees
    suffix_min ← read_vec le_f32 (n_trees + 1)
    suffix_max ← read_vec le_f32 (n_trees + 1)
    pure (record { n_trees = n_trees; suffix_min = suffix_min; suffix_max = suffix_max })

  unfoldable pub load_bounds : List ℕ → Result LoadError (Bounds F)
  load_bounds = behind_magic 4 magic_bnd (le_u32 >>= read_bounds)

  unfoldable pub read_tree_order : ℕ → Reader (TreeOrder F)
  read_tree_order n_trees = do
    order ← read_vec le_u32 n_trees
    tree_min ← read_vec (le_f32 {F = F}) n_trees
    tree_max ← read_vec (le_f32 {F = F}) n_trees
    suffix_min ← read_vec le_f32 (n_trees + 1)
    suffix_max ← read_vec le_f32 (n_trees + 1)
    pure (record {
      n_trees = n_trees;
      order = order;
      suffix_min = suffix_min;
      suffix_max = suffix_max;
    })

  unfoldable pub load_tree_order : List ℕ → Result LoadError (TreeOrder F)
  load_tree_order = behind_magic 4 magic_ord (le_u32 >>= read_tree_order)

  unfoldable pub read_rank_pack : ℕ → ℕ → ℕ → Reader (RankPack F)
  read_rank_pack n_features n_nodes n_values = do
    feat_offset ← read_vec le_u32 n_features
    feat_count ← read_vec le_u32 n_features
    node_thr_rank ← read_vec le_i32 n_nodes
    threshold_values ← read_vec le_f32 n_values
    pure (record {
      n_features = n_features;
      node_thr_rank = node_thr_rank;
      feat_offset = feat_offset;
      feat_count = feat_count;
      threshold_values = threshold_values;
    })

  unfoldable pub load_rank_pack : List ℕ → Result LoadError (RankPack F)
  load_rank_pack = behind_magic 12 magic_rnk (do
    n_features ← le_u32
    n_nodes ← le_u32
    n_values ← le_u32
    read_rank_pack n_features n_nodes n_values)

  abbrev prefix_of : ℕ → ℕ → ℕ → List ℕ → List ℕ → List (SoaNode F) → PrefixPack F
  prefix_of n_hot_features n_trees n_nodes hot_global_fidx tree_roots nodes = record {
    n_hot_features = n_hot_features;
    n_trees = n_trees;
    node_count = n_nodes;
    hot_global_fidx = hot_global_fidx;
    tree_roots = tree_roots;
    fidx = map (λ node. node.fidx) nodes;
    left = map (λ node. node.left) nodes;
    right = map (λ node. node.right) nodes;
    missing = map (λ node. node.missing) nodes;
    thr = map (λ node. node.thr) nodes;
    leaf = map (λ node. node.leaf) nodes;
    is_leaf = map (λ node. node.is_leaf) nodes;
  }

  unfoldable pub read_prefix_pack : ℕ → ℕ → ℕ → Reader (PrefixPack F)
  read_prefix_pack n_hot_features n_trees n_nodes = do
    hot_global_fidx ← read_vec le_u32 n_hot_features
    tree_roots ← read_vec le_u32 n_trees
    nodes ← read_vec read_node n_nodes
    pure (prefix_of n_hot_features n_trees n_nodes hot_global_fidx tree_roots nodes)

  unfoldable pub load_prefix_pack : List ℕ → Result LoadError (PrefixPack F)
  load_prefix_pack = behind_magic 12 magic_prf (do
    n_hot_features ← le_u32
    n_trees ← le_u32
    n_nodes ← le_u32
    read_prefix_pack n_hot_features n_trees n_nodes)
