-- ===== src/Cascade/Compiled.antt =====
-- A prefix pack of crates/risk-quickscorer/src/prefix.rs that is loaded, compiled and saved, as
-- `load_prefix_runtime` does where there is no compiled file yet.
use riskanvil.Base.{
  ℕ, zero, suc, ◌+◌, ◌^◌, ◌≤◌, ◌<◌, List, [], ◌∷◌, length, length-map, get_elem?, get_or, Option,
  none, some, ok_or, Result, ◌>>=◌, All, ok, Result-cases, inl, inr, ◌≡◌, refl, ap, ◌∙◌, arith,
}
use riskanvil.Base.Float.{Float32}
use riskanvil.Base.Int.{ℤ, pos, negsuc, i32_of_bits}
use riskanvil.Base.Bytes.{byte_at}
use riskanvil.Boost.Got.{
  IsBytes, Got, field-Got, pure-Got, bind-Got, Vector, read_vec-Got, le_u32-Got, le_f32-Got, After,
  step-After, pure-After, move-After, behind_magic-Got, All-get, All-map, All-weaken,
}
use riskanvil.Boost.Load.{magic_prf, SoaNode, read_node, read_prefix_pack, load_prefix_pack}
use riskanvil.Boost.Model.{L1Error, panicked}
use riskanvil.Boost.Prefix.{
  PrefixPack, HotPrefixNode, HotCompiledPrefixPack, hot_leaf, to_u16, hot_flags, compile_node,
  compile_nodes, compile_hot_prefix_pack,
}
use riskanvil.Boost.PrefixNodes.{compiled_of, compile_hot_prefix_pack-ok}
use riskanvil.Boost.Reader.{Anything, truncated_flags, le_u32, le_i32, le_flag}
use riskanvil.Boost.Written.{U16, U32, IsExact}
use riskanvil.Cascade.HotFiles.{
  IsHotNode, IsHotPack, save_compiled_hot_prefix_pack, load_compiled_hot_prefix_pack,
  load-save_compiled_hot_prefix_pack,
}

fetch_ok :
    {A B : Type 0} (o : Option A) (k : A → Result L1Error B) (b : B)
    → (ok_or o panicked >>= k) ≡ ok b
    → (a : A) × (o ≡ some a) × (k a ≡ ok b)
fetch_ok none k b h = absurd (ground (arith, h))
fetch_ok (some a) k b h = (a, refl, h)

module _ (buf : List ℕ) (bytes : IsBytes buf) where
  signed-Got : Got buf le_i32 4 Anything
  unfolding le_i32
  signed-Got =
      bind-Got buf 4 0 _ (le_u32-Got buf bytes) (λ w p. pure-Got buf Anything (i32_of_bits w) tt)

flag-Got : (buf : List ℕ) → Got buf le_flag 4 Anything
unfolding le_flag
flag-Got buf = field-Got buf 4 truncated_flags byte_at Anything (λ off. tt)

module _ {F : Type 0} ⦃f : Float32 F⦄ where
  abbrev HasFloats : SoaNode F → Type 0
  HasFloats node = IsExact node.thr × IsExact node.leaf

  -- What the compiled pack needs of the pack.
  record IsPrefix (pack : PrefixPack F) : Type 0 where
    features_len : length pack.hot_global_fidx ≡ pack.n_hot_features
    roots_len : length pack.tree_roots ≡ pack.n_trees
    features_count : U32 pack.n_hot_features
    roots_count : U32 pack.n_trees
    features : All U32 pack.hot_global_fidx
    thr : All IsExact pack.thr
    leaf : All IsExact pack.leaf

  module _ (kept : (w : ℕ) → w < 2 ^ 32 → f.to_bits (f.from_bits w) ≡ w) (buf : List ℕ)
      (bytes : IsBytes buf) where
    node-Got : Got buf (read_node {F = F}) 28 HasFloats
    unfolding read_node
    node-Got = bind-Got buf 4 24 _ (signed-Got buf bytes) (λ a p.
        bind-Got buf 4 20 _ (le_u32-Got buf bytes) (λ b p.
          bind-Got buf 4 16 _ (le_u32-Got buf bytes) (λ c p.
            bind-Got buf 4 12 _ (le_u32-Got buf bytes) (λ e p.
              bind-Got buf 4 8 _ (le_f32-Got buf bytes kept) (λ t q.
                bind-Got buf 4 4 _ (le_f32-Got buf bytes kept) (λ v r.
                  bind-Got buf 4 0 _ (flag-Got buf) (λ g p. pure-Got buf HasFloats _ (q, r))))))))

    prefix-After :
        (a b c : ℕ)
        → U32 a
        → U32 b
        → 20 ≤ length buf
        → After buf 20 (read_prefix_pack a b c) IsPrefix
    unfolding read_prefix_pack
    prefix-After a b c p q inside =
        step-After buf _ _ (read_vec-Got buf 4 a le_u32 U32 (le_u32-Got buf bytes)) inside
          (λ fids o1 (len1, all1) to1 in1.
            step-After buf _ _ (read_vec-Got buf 4 b le_u32 U32 (le_u32-Got buf bytes)) in1
              (λ roots o2 (len2, all2) to2 in2.
                step-After buf _ _ (read_vec-Got buf 28 c read_node HasFloats node-Got) in2
                  (λ nodes o3 (len3, all3) to3 in3. pure-After buf _ _ (record {
                    features_len = len1;
                    roots_len = len2;
                    features_count = p;
                    roots_count = q;
                    features = all1;
                    thr =
                        All-map IsExact (λ n. n.thr) nodes
                          (All-weaken HasFloats (λ n. IsExact n.thr) nodes (λ n g. g.0) all3);
                    leaf =
                        All-map IsExact (λ n. n.leaf) nodes
                          (All-weaken HasFloats (λ n. IsExact n.leaf) nodes (λ n g. g.1) all3);
                  }))))

    load-IsPrefix : (pack : PrefixPack F) → load_prefix_pack buf ≡ ok pack → IsPrefix pack
    unfolding load_prefix_pack
    load-IsPrefix pack h =
        behind_magic-Got {Post = IsPrefix} 12 magic_prf _ buf pack
          (λ long. step-After buf 8 _ (le_u32-Got buf bytes) (omega arith) (λ a o1 p to1 in1.
            step-After buf o1 _ (le_u32-Got buf bytes) in1 (λ b o2 q to2 in2.
              step-After buf o2 _ (le_u32-Got buf bytes) in2 (λ c o3 r to3 in3.
                move-After {off' = 20} (omega arith) (prefix-After a b c p q (omega arith))))))
          h

  hot_flags-lt : (pack : PrefixPack F) (flag : ℕ) (fidx : ℤ) → U16 (hot_flags pack flag fidx)
  unfolding hot_leaf
  hot_flags-lt pack flag (pos n) = ground arith
  hot_flags-lt pack flag (negsuc n) = ground arith

  module _ (pack : PrefixPack F) (p : IsPrefix pack) where
    compile_node-IsHotNode :
        (i : ℕ) (node : HotPrefixNode F) → compile_node pack i ≡ ok node → IsHotNode node
    unfolding compile_node
    compile_node-IsHotNode i node h =
        let (flag, at1, h) = fetch_ok (get_elem? pack.is_leaf i) _ node h in
        let (thr, at2, h) = fetch_ok (get_elem? pack.thr i) _ node h in
        let (leaf, at3, h) = fetch_ok (get_elem? pack.leaf i) _ node h in
        let (left, at4, h) = fetch_ok (get_elem? pack.left i) _ node h in
        let (right, at5, h) = fetch_ok (get_elem? pack.right i) _ node h in
        let (missing, at6, h) = fetch_ok (get_elem? pack.missing i) _ node h in
        let made : HotPrefixNode F = record {
          thr = thr;
          leaf = leaf;
          left = to_u16 left;
          right = to_u16 right;
          missing = to_u16 missing;
          hot_fidx_flags = hot_flags pack flag (get_or pack.fidx i (pos 0));
        } in
        let fine : IsHotNode made = record {
          thr = All-get IsExact pack.thr i thr p.thr at2;
          leaf = All-get IsExact pack.leaf i leaf p.leaf at3;
          left = omega arith;
          right = omega arith;
          missing = omega arith;
          hot_fidx_flags = hot_flags-lt pack flag (get_or pack.fidx i (pos 0));
        } in
        let same : made ≡ node = ground (arith, h) in rw same at fine

    compile_nodes-IsHotNode :
        (n i : ℕ) (nodes : List (HotPrefixNode F))
        → compile_nodes pack n i ≡ ok nodes
        → Vector n IsHotNode nodes
    unfolding compile_nodes
    compile_nodes-IsHotNode zero i nodes h =
        let same : [] ≡ nodes = ground (arith, h) in rw (← same) (refl, tt)
    compile_nodes-IsHotNode (suc n) i nodes h = elim (Result-cases (compile_node pack i)) [
      | inl (e, q) ↦ absurd (ground (arith, rw q at h))
      | inr (node, q) ↦ elim (Result-cases (compile_nodes pack n (i + 1))) [
        | inl (e, r) ↦ absurd (ground (arith, rw (q, r) at h))
        | inr (rest, r) ↦
            let same : node ∷ rest ≡ nodes = ground (arith, rw (q, r) at h) in
            let (len, all) = compile_nodes-IsHotNode n (i + 1) rest r in
            rw (← same) (ap suc len, (compile_node-IsHotNode i node q, all))
      ]
    ]

    u16s : (roots : List ℕ) → All (λ r. U16 (to_u16 r)) roots
    u16s [] = tt
    u16s (r ∷ rs) = (omega arith, u16s rs)

    compile-IsHotPack :
        (compiled : HotCompiledPrefixPack F)
        → compile_hot_prefix_pack pack ≡ ok compiled
        → IsHotPack compiled
    compile-IsHotPack compiled h =
        let (nodes, hot_few, few, all, same) = compile_hot_prefix_pack-ok pack compiled h in
        let (len, each) = compile_nodes-IsHotNode pack.node_count 0 nodes all in
        let fine : IsHotPack (compiled_of pack nodes) = record {
          features_len = p.features_len;
          roots_len = length-map to_u16 pack.tree_roots ∙ p.roots_len;
          features_count = p.features_count;
          roots_count = p.roots_count;
          nodes_count = omega (arith, few, len);
          features = p.features;
          roots = All-map U16 to_u16 pack.tree_roots (u16s pack.tree_roots);
          nodes = each;
        } in
        rw same at fine

  -- Where a file of bytes loads as a prefix pack and that pack compiles, the compiled pack is
  -- loaded from its file as it was saved, given that the bits of an f32 come back from the float
  -- they make.
  pub load-save-compile :
      (buf : List ℕ) (pack : PrefixPack F) (compiled : HotCompiledPrefixPack F)
      → ((w : ℕ) → w < 2 ^ 32 → f.to_bits (f.from_bits w) ≡ w)
      → IsBytes buf
      → load_prefix_pack buf ≡ ok pack
      → compile_hot_prefix_pack pack ≡ ok compiled
      → load_compiled_hot_prefix_pack (save_compiled_hot_prefix_pack compiled) ≡ ok compiled
  load-save-compile buf pack compiled kept bytes h made =
      load-save_compiled_hot_prefix_pack compiled
        (compile-IsHotPack pack (load-IsPrefix kept buf bytes pack h) compiled made)
