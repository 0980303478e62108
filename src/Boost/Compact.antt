-- ===== src/Boost/Compact.antt =====
-- `HotApproxL1CompactPack` of crates/risk-quickscorer/src/l1.rs: the nodes of the first trees of a
-- plan, one tree after the other, in sixteen bytes each.
use riskanvil.Base.{
  ℕ, zero, suc, ◌+◌, ◌-◌, ◌%◌, ◌^◌, min, Bool, not, bit_and, Option, none, some, List, [], ◌∷◌,
  ◌++◌, length, set, replicate, ltb, ◌==◌, ◌||◌, if◌then◌else◌, Result, ok, err, ◌>>=◌,
}
use riskanvil.Base.Float.{Float32}
use riskanvil.Boost.Model.{
  SoaModel, TreeOrder, ApproxPolicy, L1Error, panicked, endless, fetch, as_usize,
}

abbrev leaf_flag : ℕ
leaf_flag = 2 ^ 15

-- `HOT_L1_COMPACT_NODE_FIDX_MASK`
abbrev fidx_mask : ℕ
fidx_mask = 2 ^ 15 - 1

-- `u16::MAX`, for a node that has no index yet.
abbrev unplaced : ℕ
unplaced = 2 ^ 16 - 1

pub record HotNode (F : Type 0) : Type 0 where
  pub thr : F
  pub leaf : F
  pub left : ℕ
  pub right : ℕ
  pub fidx_flags : ℕ

abbrev pub node_is_leaf : {F : Type 0} → HotNode F → Bool
node_is_leaf node = not (bit_and node.fidx_flags leaf_flag == 0)

abbrev pub node_fidx : {F : Type 0} → HotNode F → ℕ
node_fidx node = bit_and node.fidx_flags fidx_mask

pub record HotPack (F : Type 0) : Type 0 where
  pub n_trees : ℕ
  pub tree_node_offs : List ℕ
  pub nodes : List (HotNode F)

module _ {F : Type 0} ⦃f : Float32 F⦄ (pack : HotPack F) (feat : List F) where
  -- From the node `local_idx` of the tree that starts at `base`.
  unfoldable pub descend_compact : ℕ → ℕ → ℕ → Result L1Error F
  descend_compact zero base local_idx = err endless
  descend_compact (suc fuel) base local_idx = do
    node ← fetch pack.nodes (base + local_idx)
    let deeper = fetch feat (node_fidx node) >>= λ x.
        descend_compact fuel base (if f.lt x node.thr then node.left else node.right)
    if node_is_leaf node then ok node.leaf else deeper

  unfoldable pub walk_compact : ℕ → Unit {0} → Result L1Error (Unit {0} × F)
  walk_compact pos s = do
    base ← fetch pack.tree_node_offs pos
    v ← descend_compact (suc (length pack.nodes)) base 0
    ok (s, v)

-- The nodes so far and, for each node of the model, its index in the tree at hand.
pub record Compiling (F : Type 0) : Type 0 where
  pub nodes : List (HotNode F)
  pub local_idx_buf : List ℕ

abbrev write_at : {A : Type 0} → List A → ℕ → A → Result L1Error (List A)
write_at v i a = if ltb i (length v) then ok (set v i a) else err panicked

abbrev as_u16 : ℕ → ℕ
as_u16 n = n % 2 ^ 16

module _ {F : Type 0} ⦃f : Float32 F⦄ (model : SoaModel F) (off : ℕ) where
  abbrev leaf_node : F → HotNode F
  leaf_node v = record { thr = f.zero_f; leaf = v; left = 0; right = 0; fidx_flags = leaf_flag }

  abbrev split_node : F → ℕ → HotNode F
  split_node thr fidx = record {
    thr = thr;
    leaf = f.zero_f;
    left = 0;
    right = 0;
    fidx_flags = fidx;
  }

  -- The children on top of the stack, the left one first.
  abbrev push_children : ℕ → List ℕ → Result L1Error (List ℕ)
  push_children idx stack = do
    right ← fetch model.right idx
    left ← fetch model.left idx
    ok (left ∷ right ∷ stack)

  -- One round of the first pass, which numbers the nodes and writes them down.
  abbrev place : ℕ → List ℕ → Compiling F → Result L1Error (List ℕ × Compiling F)
  place idx stack st = do
    buf ← write_at st.local_idx_buf idx (as_u16 (length st.nodes - off))
    flag ← fetch model.is_leaf idx
    let as_leaf = fetch model.leaf idx >>= λ v.
        ok (stack, record { nodes = st.nodes ++ (leaf_node v ∷ []); local_idx_buf = buf })
    let as_split = (do
      thr ← fetch model.thr idx
      fidx ← fetch model.fidx idx
      stack' ← push_children idx stack
      let node = split_node thr (as_u16 (as_usize fidx))
      ok (stack', record { nodes = st.nodes ++ (node ∷ []); local_idx_buf = buf }))
    if flag == 0 then as_split else as_leaf

  unfoldable pub place_nodes : ℕ → List ℕ → Compiling F → Result L1Error (Compiling F)
  place_nodes zero stack st = err endless
  place_nodes (suc fuel) [] st = ok st
  place_nodes (suc fuel) (idx ∷ stack) st = do
    known ← fetch st.local_idx_buf idx
    let seen = place_nodes fuel stack st
    let placed = place idx stack st >>= λ (stack', st'). place_nodes fuel stack' st'
    if known == unplaced then placed else seen

  -- One round of the second pass, which writes the children's numbers.
  abbrev link : ℕ → List ℕ → Compiling F → Result L1Error (List ℕ × Compiling F)
  link idx stack st = do
    local_idx ← fetch st.local_idx_buf idx
    flag ← fetch model.is_leaf idx
    let linked = (do
      left_idx ← fetch model.left idx
      right_idx ← fetch model.right idx
      node ← fetch st.nodes (local_idx + off)
      left ← fetch st.local_idx_buf left_idx
      right ← fetch st.local_idx_buf right_idx
      nodes ← write_at st.nodes (local_idx + off) (record {
        thr = node.thr;
        leaf = node.leaf;
        left = left;
        right = right;
        fidx_flags = node.fidx_flags;
      })
      ok (left_idx ∷ right_idx ∷ stack, record { nodes = nodes; local_idx_buf = st.local_idx_buf }))
    if flag == 0 then linked else ok (stack, st)

  unfoldable pub link_nodes : ℕ → List ℕ → Compiling F → Result L1Error (Compiling F)
  link_nodes zero stack st = err endless
  link_nodes (suc fuel) [] st = ok st
  link_nodes (suc fuel) (idx ∷ stack) st =
      link idx stack st >>= λ (stack', st'). link_nodes fuel stack' st'

  -- One round of the third pass, which forgets the numbers.
  abbrev forget : ℕ → List ℕ → Compiling F → Result L1Error (List ℕ × Compiling F)
  forget idx stack st = do
    known ← fetch st.local_idx_buf idx
    flag ← fetch model.is_leaf idx
    let st' : Compiling F = record {
      nodes = st.nodes;
      local_idx_buf = set st.local_idx_buf idx unplaced;
    }
    let further = push_children idx stack >>= λ stack'. ok (stack', st')
    if (known == unplaced) || not (flag == 0) then ok (stack, st') else further

  unfoldable pub forget_nodes : ℕ → List ℕ → Compiling F → Result L1Error (Compiling F)
  forget_nodes zero stack st = err endless
  forget_nodes (suc fuel) [] st = ok st
  forget_nodes (suc fuel) (idx ∷ stack) st =
      forget idx stack st >>= λ (stack', st'). forget_nodes fuel stack' st'

module _ {F : Type 0} ⦃f : Float32 F⦄ (model : SoaModel F) (plan : TreeOrder F) where
  -- A pass takes one round for each way down from the root. Of n nodes without a cycle there are
  -- fewer than 2 ^ n ways.
  abbrev pass_fuel : ℕ
  pass_fuel = suc (2 ^ suc (length model.is_leaf))

  unfoldable pub compile_tree : ℕ → Compiling F → Result L1Error (Compiling F)
  compile_tree pos st = do
    tree_idx ← fetch plan.order pos
    root ← fetch model.tree_roots tree_idx
    let off = length st.nodes % 2 ^ 32
    placed ← place_nodes model off pass_fuel (root ∷ []) st
    linked ← link_nodes model off pass_fuel (root ∷ []) placed
    forget_nodes model off pass_fuel (root ∷ []) linked

  unfoldable pub compile_trees :
      ℕ → ℕ → List ℕ → Compiling F → Result L1Error (List ℕ × List (HotNode F))
  compile_trees zero pos offs st = ok (offs, st.nodes)
  compile_trees (suc left) pos offs st = do
    st' ← compile_tree pos st
    compile_trees left (pos + 1) (offs ++ (length st.nodes % 2 ^ 32 ∷ [])) st'

  unfoldable pub compile_hot_approx_l1_compact_pack :
      ApproxPolicy F → Result L1Error (Option (HotPack F))
  compile_hot_approx_l1_compact_pack policy =
      let k_hot = min policy.k_hot plan.n_trees in
      let buf = replicate (length model.is_leaf) unplaced in
      let compiled =
        compile_trees k_hot 0 [] (record { nodes = []; local_idx_buf = buf }) >>= λ (offs, nodes).
        ok (some (record { n_trees = k_hot; tree_node_offs = offs; nodes = nodes })) in
      if (k_hot == 0) || ltb fidx_mask model.n_features then ok none else compiled
