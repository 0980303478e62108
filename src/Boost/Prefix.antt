-- ===== src/Boost/Prefix.antt =====
-- The prefix packs of crates/risk-quickscorer/src/prefix.rs: the first trees over the features that
-- they use, as arrays and compiled into nodes of sixteen bytes.
use riskanvil.Base.{
  ℕ, zero, suc, ◌+◌, ◌-◌, ◌%◌, ◌^◌, Bool, not, bit_and, List, [], ◌∷◌, map, get_or, leb, ◌==◌,
  if◌then◌else◌, Result, ok, ◌>>=◌, ◌>>◌, ensure,
}
use riskanvil.Base.Int.{ℤ, pos, negsuc}
use riskanvil.Boost.Model.{L1Error, too_many_features, too_many_nodes, fetch}

pub record PrefixPack (F : Type 0) : Type 0 where
  pub n_hot_features : ℕ
  pub n_trees : ℕ
  pub node_count : ℕ
  pub hot_global_fidx : List ℕ
  pub tree_roots : List ℕ
  pub fidx : List ℤ
  pub left : List ℕ
  pub right : List ℕ
  pub missing : List ℕ
  pub thr : List F
  pub leaf : List F
  pub is_leaf : List ℕ

pub record HotPrefixNode (F : Type 0) : Type 0 where
  pub thr : F
  pub leaf : F
  pub left : ℕ
  pub right : ℕ
  pub missing : ℕ
  pub hot_fidx_flags : ℕ

-- `HOT_COMPILED_NODE_LEAF` and `HOT_COMPILED_NODE_FIDX_MASK`
unfoldable pub hot_leaf : ℕ
hot_leaf = 2 ^ 15

unfoldable pub hot_fidx_mask : ℕ
hot_fidx_mask = 2 ^ 15 - 1

unfoldable pub hot_is_leaf : {F : Type 0} → HotPrefixNode F → Bool
hot_is_leaf node = not (bit_and node.hot_fidx_flags hot_leaf == 0)

unfoldable pub hot_fidx : {F : Type 0} → HotPrefixNode F → ℕ
hot_fidx node = bit_and node.hot_fidx_flags hot_fidx_mask

pub record HotCompiledPrefixPack (F : Type 0) : Type 0 where
  pub n_hot_features : ℕ
  pub n_trees : ℕ
  pub hot_global_fidx : List ℕ
  pub tree_roots : List ℕ
  pub nodes : List (HotPrefixNode F)

abbrev pub to_u16 : ℕ → ℕ
to_u16 n = n % 2 ^ 16

-- A negative index becomes 0.
abbrev pub feature_u16 : ℤ → ℕ
feature_u16 (pos n) = to_u16 n
feature_u16 (negsuc n) = 0

module _ {F : Type 0} (pack : PrefixPack F) where
  abbrev pub hot_flags : ℕ → ℤ → ℕ
  hot_flags flag fidx = if flag == 0 then feature_u16 fidx else hot_leaf

  -- A node without an index has the index 0.
  unfoldable pub compile_node : ℕ → Result L1Error (HotPrefixNode F)
  compile_node idx = do
    flag ← fetch pack.is_leaf idx
    thr ← fetch pack.thr idx
    leaf ← fetch pack.leaf idx
    left ← fetch pack.left idx
    right ← fetch pack.right idx
    missing ← fetch pack.missing idx
    ok (record {
      thr = thr;
      leaf = leaf;
      left = to_u16 left;
      right = to_u16 right;
      missing = to_u16 missing;
      hot_fidx_flags = hot_flags flag (get_or pack.fidx idx (pos 0));
    })

  unfoldable pub compile_nodes : ℕ → ℕ → Result L1Error (List (HotPrefixNode F))
  compile_nodes zero idx = ok []
  compile_nodes (suc left) idx = do
    node ← compile_node idx
    nodes ← compile_nodes left (idx + 1)
    ok (node ∷ nodes)

  unfoldable pub compile_hot_prefix_pack : Result L1Error (HotCompiledPrefixPack F)
  compile_hot_prefix_pack = do
    ensure (leb pack.n_hot_features (2 ^ 16 - 1)) (too_many_features pack.n_hot_features)
    ensure (leb pack.n_hot_features hot_fidx_mask) (too_many_features pack.n_hot_features)
    ensure (leb pack.node_count (2 ^ 16 - 1)) (too_many_nodes pack.node_count)
    nodes ← compile_nodes pack.node_count 0
    ok (record {
      n_hot_features = pack.n_hot_features;
      n_trees = pack.n_trees;
      hot_global_fidx = pack.hot_global_fidx;
      tree_roots = map to_u16 pack.tree_roots;
      nodes = nodes;
    })
