-- ===== src/Boost/Sizes.antt =====
-- How long the files of crates/risk-quickscorer/src/prefix.rs have to be, and the arrays they give.
use riskanvil.Base.{
  length-map, ℕ, ◌+◌, ◌*◌, ◌≤◌, true, false, Bool-cases, List, length, take, length-take, ltb, Bool,
  leb, leb→le, bytes_eq, ok, err, inl, inr, ◌≡◌, refl, ◌∙◌, arith,
}
use riskanvil.Base.Bytes.{read_u32}
use riskanvil.Base.Float.{Float32}
use riskanvil.Boost.Load.{magic_soa, SoaNode, read_node, soa_of, read_soa, load_soa}
use riskanvil.Boost.Model.{SoaModel}
use riskanvil.Boost.Reader.{
  LoadError, le_u32, Takes, Anything, Takes-size, pure-Takes, bind-Takes, read_vec-Takes,
  le_u32-Takes, le_i32-Takes, le_f32-Takes, le_flag-Takes,
}

-- A number of the header.
le_u32-there :
    (buf : List ℕ) (off : ℕ)
    → off + 4 ≤ length buf
    → le_u32 buf off ≡ ok (read_u32 buf off, off + 4)
unfolding le_u32
le_u32-there buf off h =
    let fits : ltb (length buf) (off + 4) ≡ false = ground arith in rw fits refl

module _ {F : Type 0} ⦃f : Float32 F⦄ where
  -- As many nodes as the header says in each array, and a root for each tree.
  pub record HasShape (n_trees n_nodes : ℕ) (model : SoaModel F) : Type 0 where
    pub roots_len : length model.tree_roots ≡ n_trees
    pub fidx_len : length model.fidx ≡ n_nodes
    pub left_len : length model.left ≡ n_nodes
    pub right_len : length model.right ≡ n_nodes
    pub missing_len : length model.missing ≡ n_nodes
    pub thr_len : length model.thr ≡ n_nodes
    pub leaf_len : length model.leaf ≡ n_nodes
    pub is_leaf_len : length model.is_leaf ≡ n_nodes

  read_node-Takes : Takes 28 Anything (read_node {F = F})
  unfolding read_node
  read_node-Takes = bind-Takes 4 24 _ _ le_i32-Takes (λ a h.
      bind-Takes 4 20 _ _ le_u32-Takes (λ b h. bind-Takes 4 16 _ _ le_u32-Takes (λ c h.
        bind-Takes 4 12 _ _ le_u32-Takes (λ e h. bind-Takes 4 8 _ _ le_f32-Takes (λ t h.
          bind-Takes 4 4 _ _ le_f32-Takes
            (λ v h. bind-Takes 4 0 _ _ le_flag-Takes (λ g h. pure-Takes Anything _ tt)))))))

  soa_of-HasShape :
      (n_features n_trees n_nodes : ℕ) (offsets : List ℕ) (nodes : List (SoaNode F))
      → length offsets ≡ n_trees + 1
      → length nodes ≡ n_nodes
      → HasShape n_trees n_nodes (soa_of n_features n_trees n_nodes offsets nodes)
  soa_of-HasShape n_features n_trees n_nodes offsets nodes h h' = record {
    roots_len = omega (arith, length-take n_trees offsets, h);
    fidx_len = length-map (λ node. node.fidx) nodes ∙ h';
    left_len = length-map (λ node. node.left) nodes ∙ h';
    right_len = length-map (λ node. node.right) nodes ∙ h';
    missing_len = length-map (λ node. node.missing) nodes ∙ h';
    thr_len = length-map (λ node. node.thr) nodes ∙ h';
    leaf_len = length-map (λ node. node.leaf) nodes ∙ h';
    is_leaf_len = length-map (λ node. node.is_leaf) nodes ∙ h';
  }

  read_soa-Takes :
      (n_features n_trees n_nodes : ℕ)
      → Takes
          (4 + 4 * n_trees + 28 * n_nodes)
          (HasShape n_trees n_nodes)
          (read_soa n_features n_trees n_nodes)
  unfolding read_soa
  read_soa-Takes n_features n_trees n_nodes = Takes-size (grind arith) (
      bind-Takes ((n_trees + 1) * 4) (n_nodes * 28 + 0) _ _
        (read_vec-Takes 4 (n_trees + 1) le_u32 le_u32-Takes)
        (λ offsets h.
          bind-Takes (n_nodes * 28) 0 _ _ (read_vec-Takes 28 n_nodes read_node read_node-Takes)
            (λ nodes h'.
              pure-Takes (HasShape n_trees n_nodes) _
                (soa_of-HasShape n_features n_trees n_nodes offsets nodes h h'))))

module _ (F : Type 0) ⦃f : Float32 F⦄ where
  -- What the loader does with a file that is long enough, and with one that is not.
  abbrev pub LoadsIf : Bool → ℕ → ℕ → List ℕ → Type 0
  LoadsIf true n_trees n_nodes buf =
      (model : SoaModel F) × (load_soa buf ≡ ok model) × HasShape n_trees n_nodes model
  LoadsIf false n_trees n_nodes buf = (e : LoadError) × (load_soa {F = F} buf ≡ err e)

  -- A file of at least 20 bytes with the magic bytes loads exactly when it has 24 bytes, 4 for
  -- each tree and 28 for each node of its header: then each array has an entry for each node, and
  -- there is a root for each tree. Otherwise the loader ends with an error.
  pub load_soa-size :
      (buf : List ℕ)
      → 20 ≤ length buf
      → bytes_eq (take 8 buf) magic_soa ≡ true
      → LoadsIf
          (leb (24 + 4 * read_u32 buf 12 + 28 * read_u32 buf 16) (length buf))
          (read_u32 buf 12)
          (read_u32 buf 16)
          buf
  unfolding load_soa
  load_soa-size buf long magic =
      let n_trees = read_u32 buf 12 in
      let n_nodes = read_u32 buf 16 in
      let not_short : ltb (length buf) 20 ≡ false = ground arith in
      let first = le_u32-there buf 8 (omega arith) in
      let second = le_u32-there buf 12 (omega arith) in
      let third = le_u32-there buf 16 (omega arith) in
      let rest : Takes (4 + 4 * n_trees + 28 * n_nodes) (HasShape {F = F} n_trees n_nodes)
          (read_soa (read_u32 buf 8) n_trees n_nodes) =
        read_soa-Takes (read_u32 buf 8) n_trees n_nodes in
      elim (Bool-cases (leb (24 + 4 * n_trees + 28 * n_nodes) (length buf))) [
        | inl fits ↦
            let (model, p, shape) =
              rest.there buf 20
                (omega (arith, leb→le (24 + 4 * n_trees + 28 * n_nodes) (length buf) fits)) in
            rw fits (model, rw (not_short, magic, first, second, third, p) refl, shape)
        | inr short ↦
            let (e, p) = rest.not_there buf 20 long (ground (arith, short)) in
            rw short (e, rw (not_short, magic, first, second, third, p) refl)
      ]
