-- ===== src/Boost/PrefixNodes.antt =====
-- The compiled nodes of crates/risk-quickscorer/src/prefix.rs against the arrays of their pack.
use riskanvil.Base.{
  ℕ, zero, suc, ◌+◌, ◌*◌, ◌/◌, ◌-◌, map, ◌%◌, ◌^◌, ◌≤◌, ◌<◌, not, bit_and, Bool-cases, List, [],
  ◌∷◌, length, get_elem?, get_or, some, leb, ◌==◌, if◌then◌else◌, Result, ok, Result-cases, inl,
  inr, ◌≡◌, refl, sym, ◌∙◌, ap, arith,
}
use riskanvil.Base.Int.{ℤ, pos, negsuc}
use riskanvil.Boost.Model.{L1Error, fetch}
use riskanvil.Boost.Prefix.{
  PrefixPack, HotPrefixNode, HotCompiledPrefixPack, hot_leaf, hot_fidx_mask, hot_is_leaf, hot_fidx,
  to_u16, feature_u16, hot_flags, compile_node, compile_nodes, compile_hot_prefix_pack,
}
use riskanvil.Forest.Words.{bit_and_step, zero-bit_and}

-- A bit above a number is not set in it.
above-bit_and : (k a : ℕ) → a < 2 ^ k → bit_and a (2 ^ k) ≡ 0
above-bit_and zero a h = let none_left : a ≡ 0 = omega arith in rw none_left (zero-bit_and 1)
above-bit_and (suc k) a h =
    let half : 2 ^ suc k ≡ 2 ^ k * 2 = omega arith in
    let down : 2 ^ suc k / 2 ≡ 2 ^ k = omega (arith, half) in
    let even : 2 ^ suc k % 2 ≡ 0 = omega (arith, half) in
    let rest = above-bit_and k (a / 2) (omega (arith, half)) in
    bit_and_step a (2 ^ suc k) ∙ rw (down, even, rest) (omega arith)

-- The mask of the low bits leaves them.
mask-bit_and : (k a : ℕ) → a < 2 ^ k → bit_and a (2 ^ k - 1) ≡ a
mask-bit_and zero a h = let none_left : a ≡ 0 = omega arith in rw none_left (zero-bit_and 0)
mask-bit_and (suc k) a h =
    let half : 2 ^ suc k ≡ 2 ^ k * 2 = omega arith in
    let positive : 1 ≤ 2 ^ k = omega (arith, half, h) in
    let down : (2 ^ suc k - 1) / 2 ≡ 2 ^ k - 1 = omega (arith, half, positive) in
    let odd : (2 ^ suc k - 1) % 2 ≡ 1 = omega (arith, half, positive) in
    let rest = mask-bit_and k (a / 2) (omega (arith, half)) in
    bit_and_step a (2 ^ suc k - 1) ∙ rw (down, odd, rest) (omega arith)

-- The index that the code takes of an `i32`, where a negative one is 0.
abbrev pub hot_index : ℤ → ℕ
hot_index (pos n) = n
hot_index (negsuc n) = 0

abbrev done : {A : Type 0} → A → Result L1Error A
done x = ok x

ok-inj : {A : Type 0} (x y : A) → done x ≡ done y → x ≡ y
ok-inj x y h = ground (arith, h)

feature_u16-small : (fidx : ℤ) → hot_index fidx < 2 ^ 15 → feature_u16 fidx ≡ hot_index fidx
feature_u16-small (pos n) h = omega arith
feature_u16-small (negsuc n) h = refl

-- The flags of a node tell a leaf from a split, and a split's feature.
module _ {F : Type 0} (pack : PrefixPack F) (flag : ℕ) (fidx : ℤ) where
  flags-leaf :
      hot_index fidx < 2 ^ 15
      → not (bit_and (hot_flags pack flag fidx) (2 ^ 15) == 0) ≡ not (flag == 0)
  unfolding hot_leaf
  flags-leaf h = elim (Bool-cases (flag == 0)) [
    | inl p ↦ rw (p, feature_u16-small fidx h, above-bit_and 15 (hot_index fidx) h) refl
    | inr p ↦ rw p refl
  ]

  flags-fidx :
      hot_index fidx < 2 ^ 15
      → bit_and (hot_flags pack flag fidx) (2 ^ 15 - 1) ≡ (if flag == 0 then hot_index fidx else 0)
  unfolding hot_leaf
  flags-fidx h = elim (Bool-cases (flag == 0)) [
    | inl p ↦ rw (p, feature_u16-small fidx h) (mask-bit_and 15 (hot_index fidx) h)
    | inr p ↦ rw p refl
  ]

module _ {F : Type 0} (pack : PrefixPack F) where
  -- The node `idx` of the pack, with its feature and its children in range.
  pub record IsNodeAt (idx : ℕ) : Type 0 where
    pub inside : idx < pack.node_count
    pub flag : ℕ
    pub fidx : ℤ
    pub left : ℕ
    pub right : ℕ
    pub missing : ℕ
    pub thr : F
    pub leaf : F
    pub flag_at : fetch pack.is_leaf idx ≡ ok flag
    pub fidx_at : get_or pack.fidx idx (pos 0) ≡ fidx
    pub left_at : fetch pack.left idx ≡ ok left
    pub right_at : fetch pack.right idx ≡ ok right
    pub missing_at : fetch pack.missing idx ≡ ok missing
    pub thr_at : fetch pack.thr idx ≡ ok thr
    pub leaf_at : fetch pack.leaf idx ≡ ok leaf
    pub feature : hot_index fidx ≤ pack.n_hot_features
    pub left_inside : left < pack.node_count
    pub right_inside : right < pack.node_count
    pub missing_inside : missing < pack.node_count

  compile_nodes-suc :
      (left k : ℕ) (nodes : List (HotPrefixNode F))
      → compile_nodes pack (suc left) k ≡ ok nodes
      → (node : HotPrefixNode F) × (rest : List (HotPrefixNode F)) × (compile_node pack k ≡ ok node)
        × (compile_nodes pack left (k + 1) ≡ ok rest)
        × (node ∷ rest ≡ nodes)
  unfolding compile_nodes
  compile_nodes-suc left k nodes h = elim (Result-cases (compile_node pack k)) [
    | inl (e, p) ↦ absurd (ground (arith, rw p at h))
    | inr (node, p) ↦ elim (Result-cases (compile_nodes pack left (k + 1))) [
      | inl (e, q) ↦ absurd (ground (arith, rw (p, q) at h))
      | inr (rest, q) ↦ (node, rest, p, q, ground (arith, rw (p, q) at h))
    ]
  ]

  pub length-compile_nodes :
      (left k : ℕ) (nodes : List (HotPrefixNode F))
      → compile_nodes pack left k ≡ ok nodes
      → length nodes ≡ left
  unfolding compile_nodes
  length-compile_nodes zero k nodes h =
      let same : [] ≡ nodes = ground (arith, h) in rw (← same) refl
  length-compile_nodes (suc left) k nodes h =
      let (node, rest, p, q, same) = compile_nodes-suc left k nodes h in
      rw (← same) (ap suc (length-compile_nodes left (k + 1) rest q))

  compile_nodes-at :
      (left k i : ℕ) (nodes : List (HotPrefixNode F))
      → compile_nodes pack left k ≡ ok nodes
      → i < left
      → (node : HotPrefixNode F) × (get_elem? nodes i ≡ some node)
        × (compile_node pack (k + i) ≡ ok node)
  compile_nodes-at zero k i nodes h less = absurd (omega arith)
  compile_nodes-at (suc left) k zero nodes h less =
      let (node, rest, p, q, same) = compile_nodes-suc left k nodes h in
      let e : k + 0 ≡ k = omega arith in (node, rw (← same) refl, rw e p)
  compile_nodes-at (suc left) k (suc i) nodes h less =
      let (node, rest, p, q, same) = compile_nodes-suc left k nodes h in
      let (n, found, compiled) = compile_nodes-at left (k + 1) i rest q (omega arith) in
      let e : k + suc i ≡ k + 1 + i = omega arith in (n, rw (← same) found, rw e compiled)

  abbrev pub compiled_of : List (HotPrefixNode F) → HotCompiledPrefixPack F
  compiled_of nodes = record {
    n_hot_features = pack.n_hot_features;
    n_trees = pack.n_trees;
    hot_global_fidx = pack.hot_global_fidx;
    tree_roots = map to_u16 pack.tree_roots;
    nodes = nodes;
  }

  -- What the sizes and the nodes are when the compilation succeeds.
  pub compile_hot_prefix_pack-ok :
      (compiled : HotCompiledPrefixPack F)
      → compile_hot_prefix_pack pack ≡ ok compiled
      → (nodes : List (HotPrefixNode F)) × (pack.n_hot_features < 2 ^ 15)
        × (pack.node_count < 2 ^ 16)
        × (compile_nodes pack pack.node_count 0 ≡ ok nodes)
        × (compiled_of nodes ≡ compiled)
  unfolding compile_hot_prefix_pack hot_fidx_mask
  compile_hot_prefix_pack-ok compiled h = elim (Bool-cases (leb pack.n_hot_features (2 ^ 16 - 1))) [
    | inr p ↦ absurd (ground (arith, rw p at h))
    | inl p ↦ elim (Bool-cases (leb pack.n_hot_features (2 ^ 15 - 1))) [
      | inr q ↦ absurd (ground (arith, rw (p, q) at h))
      | inl q ↦ elim (Bool-cases (leb pack.node_count (2 ^ 16 - 1))) [
        | inr r ↦ absurd (ground (arith, rw (p, q, r) at h))
        | inl r ↦ elim (Result-cases (compile_nodes pack pack.node_count 0)) [
          | inl (e, c) ↦ absurd (ground (arith, rw (p, q, r, c) at h))
          | inr (nodes, c) ↦
              (nodes, ground (arith, q), ground (arith, r), c, ok-inj _ _ (rw (p, q, r, c) at h))
        ]
      ]
    ]
  ]

  pub small_u16 : (n : ℕ) → n < 2 ^ 16 → to_u16 n ≡ n
  small_u16 n h = omega arith

  -- Where a prefix pack compiles, each of its nodes whose feature and children are in range has a
  -- compiled node in its place, with the same flag, feature, children, threshold and leaf: none of
  -- the narrow fields has cut anything off.
  pub compile_hot_prefix_pack-nodes :
      (compiled : HotCompiledPrefixPack F) (idx : ℕ) (n : IsNodeAt idx)
      → compile_hot_prefix_pack pack ≡ ok compiled
      → (node : HotPrefixNode F) × (fetch compiled.nodes idx ≡ ok node)
        × (hot_is_leaf node ≡ not (n.flag == 0))
        × (hot_fidx node ≡ (if n.flag == 0 then hot_index n.fidx else 0))
        × (node.left ≡ n.left)
        × (node.right ≡ n.right)
        × (node.missing ≡ n.missing)
        × (node.thr ≡ n.thr)
        × (node.leaf ≡ n.leaf)
  unfolding compile_node hot_is_leaf hot_fidx hot_leaf hot_fidx_mask
  compile_hot_prefix_pack-nodes compiled idx n h =
      let (nodes, hot_few, few, all, built_of) = compile_hot_prefix_pack-ok compiled h in
      let same_nodes : nodes ≡ compiled.nodes =
        ap (λ (c : HotCompiledPrefixPack F). c.nodes) built_of in
      let (node, found, made) = compile_nodes-at pack.node_count 0 idx nodes all n.inside in
      let small : hot_index n.fidx < 2 ^ 15 = omega (arith, hot_few, n.feature) in
      let expected : HotPrefixNode F = record {
        thr = n.thr;
        leaf = n.leaf;
        left = to_u16 n.left;
        right = to_u16 n.right;
        missing = to_u16 n.missing;
        hot_fidx_flags = hot_flags pack n.flag n.fidx;
      } in
      let built : compile_node pack idx ≡ ok expected =
        rw (n.flag_at, n.thr_at, n.leaf_at, n.left_at, n.right_at, n.missing_at, n.fidx_at) refl in
      let same : node ≡ expected =
        let e : 0 + idx ≡ idx = omega arith in ok-inj _ _ (sym (rw e at made) ∙ built) in
      (
        expected,
        rw (← same_nodes, found, same) refl,
        flags-leaf pack n.flag n.fidx small,
        flags-fidx pack n.flag n.fidx small,
        small_u16 n.left (omega (arith, few, n.left_inside)),
        small_u16 n.right (omega (arith, few, n.right_inside)),
        small_u16 n.missing (omega (arith, few, n.missing_inside)),
        refl,
        refl,
      )
