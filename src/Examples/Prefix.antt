-- ===== src/Examples/Prefix.antt =====
-- The tree of a split and two leaves as a prefix pack, compiled.
use riskanvil.Base.{ℕ, [], ◌∷◌, false, ok, ◌≡◌, refl, arith}
use riskanvil.Base.Int.{pos, negsuc}
use riskanvil.Boost.Model.{fetch}
use riskanvil.Boost.Prefix.{
  PrefixPack, HotPrefixNode, HotCompiledPrefixPack, hot_leaf, hot_fidx_mask, hot_is_leaf, hot_fidx,
  compile_node, compile_nodes, compile_hot_prefix_pack,
}
use riskanvil.Boost.PrefixNodes.{IsNodeAt, compile_hot_prefix_pack-nodes}

abbrev pub prefix_pack : PrefixPack ℕ
prefix_pack = record {
  n_hot_features = 1;
  n_trees = 1;
  node_count = 3;
  hot_global_fidx = 0 ∷ [];
  tree_roots = 0 ∷ [];
  fidx = pos 0 ∷ negsuc 0 ∷ negsuc 0 ∷ [];
  left = 1 ∷ 0 ∷ 0 ∷ [];
  right = 2 ∷ 0 ∷ 0 ∷ [];
  missing = 2 ∷ 0 ∷ 0 ∷ [];
  thr = 10 ∷ 0 ∷ 0 ∷ [];
  leaf = 0 ∷ 5 ∷ 1 ∷ [];
  is_leaf = 0 ∷ 1 ∷ 1 ∷ [];
}

abbrev pub compiled : HotCompiledPrefixPack ℕ
compiled = record {
  n_hot_features = 1;
  n_trees = 1;
  hot_global_fidx = 0 ∷ [];
  tree_roots = 0 ∷ [];
  nodes =
      record { thr = 10; leaf = 0; left = 1; right = 2; missing = 2; hot_fidx_flags = 0 }
      ∷ record { thr = 0; leaf = 5; left = 0; right = 0; missing = 0; hot_fidx_flags = 32768 }
      ∷ record { thr = 0; leaf = 1; left = 0; right = 0; missing = 0; hot_fidx_flags = 32768 }
      ∷ [];
}

pub compiles_prefix : compile_hot_prefix_pack prefix_pack ≡ ok compiled
unfolding compile_hot_prefix_pack compile_nodes compile_node hot_leaf hot_fidx_mask
compiles_prefix = refl

abbrev pub root_node : IsNodeAt prefix_pack 0
root_node = record {
  inside = omega arith;
  flag = 0;
  fidx = pos 0;
  left = 1;
  right = 2;
  missing = 2;
  thr = 10;
  leaf = 0;
  flag_at = refl;
  fidx_at = refl;
  left_at = refl;
  right_at = refl;
  missing_at = refl;
  thr_at = refl;
  leaf_at = refl;
  feature = omega arith;
  left_inside = omega arith;
  right_inside = omega arith;
  missing_inside = omega arith;
}

compile_hot_prefix_pack-nodes_example :
    (node : HotPrefixNode ℕ) × (fetch compiled.nodes 0 ≡ ok node)
    × (hot_is_leaf node ≡ false)
    × (hot_fidx node ≡ 0)
    × (node.left ≡ 1)
    × (node.right ≡ 2)
    × (node.missing ≡ 2)
    × (node.thr ≡ 10)
    × (node.leaf ≡ 0)
compile_hot_prefix_pack-nodes_example =
    compile_hot_prefix_pack-nodes prefix_pack compiled 0 root_node compiles_prefix
