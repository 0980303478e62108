-- ===== src/Cascade/HotAlike.antt =====
-- The exact score of the first trees of crates/risk-quickscorer/src/l1.rs by the compiled pack, with the
-- features of the row copied first, against the arrays of the pack with a lazy cache of features.
use riskanvil.Base.{
  ℕ, ◌+◌, ◌^◌, ◌<◌, false, List, map, length, get_elem?, some, none, Option-cases, ok, Result-cases,
  inl, inr, ◌≡◌, refl, ap, ◌∙◌, arith,
}
use riskanvil.Base.Float.{Float32}
use riskanvil.Boost.Caches.{StampCache, next_row}
use riskanvil.Boost.Got.{All-get}
use riskanvil.Boost.Model.{panicked, fetch}
use riskanvil.Boost.Prefix.{PrefixPack, HotCompiledPrefixPack, to_u16, compile_hot_prefix_pack}
use riskanvil.Boost.PrefixNodes.{length-compile_nodes, compile_hot_prefix_pack-ok, small_u16}
use riskanvil.Boost.Simulation.{Alike, Alike-weaken}
use riskanvil.Boost.Stamps.{IsStamped, next_row-IsFresh}
use riskanvil.Forest.File.{last_or_zero}
use riskanvil.Forest.Headers.{at-map, at-map-none}
use riskanvil.Cascade.HotPrefix.{
  Callback, check_checkpoints, hot_exact_prefix_until, hot_exact_prefix_until_compiled, hot_feature,
  fill_from_global_u32, visit_pack, visit_compiled,
}
use riskanvil.Cascade.HotFill.{fill-lem}
use riskanvil.Cascade.HotLoops.{TreesAlike, prefix_loop-Alike}
use riskanvil.Cascade.HotWalk.{IsHotTree, Serves, walks}

module _ {F : Type 0} ⦃f : Float32 F⦄ (pack : PrefixPack F) (compiled : HotCompiledPrefixPack F)
    (feat : List F) (t : IsHotTree pack feat)
    (made : compile_hot_prefix_pack pack ≡ ok compiled) where
  same_trees :
      compiled.tree_roots ≡ map to_u16 pack.tree_roots
      → pack.node_count < 2 ^ 16
      → (p : ℕ)
      → TreesAlike
          (Serves pack feat)
          (visit_pack pack feat)
          (visit_compiled false compiled)
          pack.node_count
          pack.tree_roots
          compiled.tree_roots
          p
  same_trees roots few p = elim (Option-cases (get_elem? pack.tree_roots p)) [
    | inl none_at ↦
        let none_there : get_elem? compiled.tree_roots p ≡ none =
          rw roots (at-map-none to_u16 pack.tree_roots p none_at) in
        inl (panicked, rw none_at refl, rw none_there refl)
    | inr (root, root_at) ↦
        let inside = All-get (λ r. r < pack.node_count) pack.tree_roots p root t.roots root_at in
        let kept = small_u16 pack root (omega (arith, inside, few)) in
        let there : get_elem? compiled.tree_roots p ≡ some root =
          rw roots (at-map to_u16 pack.tree_roots p root root_at ∙ ap some kept) in
        inr (
          root,
          root,
          rw root_at refl,
          rw there refl,
          λ cache values evals ready.
              walks pack compiled feat t made pack.node_count cache values root evals ready inside,
        )
  ]

compiled-fields :
    {F : Type 0} (pack : PrefixPack F) (compiled : HotCompiledPrefixPack F)
    → compile_hot_prefix_pack pack ≡ ok compiled
    → (compiled.n_trees ≡ pack.n_trees)
      × (compiled.hot_global_fidx ≡ pack.hot_global_fidx)
      × (compiled.tree_roots ≡ map to_u16 pack.tree_roots)
      × (length compiled.nodes ≡ pack.node_count)
      × (pack.node_count < 2 ^ 16)
compiled-fields pack compiled made =
    let (nodes, hot_few, few, all, same) = compile_hot_prefix_pack-ok pack compiled made in
    rw (← same) (refl, refl, refl, length-compile_nodes pack pack.node_count 0 nodes all, few)

module _ {F : Type 0} ⦃f : Float32 F⦄ where
  -- Where a prefix pack compiles, its nodes have their features and children in range, its roots
  -- are nodes and the row has each feature: from a cache whose stamps do not pass its epoch and a
  -- buffer of a value for each feature, the exact score of the first trees by the pack and by its
  -- compiled nodes has the same error, or the same score, trees, split nodes passed and state of
  -- the callback, for all checkpoints and callbacks, and leaves such a cache.
  pub hot_exact_prefix_until-eq-compiled :
      {S : Type 0} (pack : PrefixPack F) (compiled : HotCompiledPrefixPack F) (feat : List F)
      (cache : StampCache F) (hot_buf : List F) (checkpoints : List ℕ) (init_score : F)
      (cb : Callback F S) (s : S)
      → IsHotTree pack feat
      → compile_hot_prefix_pack pack ≡ ok compiled
      → IsStamped pack.n_hot_features cache
      → length hot_buf ≡ pack.n_hot_features
      → Alike
          (λ cache' values. IsStamped pack.n_hot_features cache')
          (hot_exact_prefix_until pack cache feat checkpoints init_score cb s)
          (hot_exact_prefix_until_compiled false compiled hot_buf feat checkpoints init_score cb s)
  unfolding hot_exact_prefix_until hot_exact_prefix_until_compiled
  hot_exact_prefix_until-eq-compiled pack compiled feat cache hot_buf checkpoints init_score cb s t
        made stamped len =
      let (trees, globals, roots, nodes, few) = compiled-fields pack compiled made in
      let (values, filled, front, back) =
        fill-lem feat pack.hot_global_fidx 0 hot_buf t.features
          (omega (arith, len, t.features_len)) in
      let filled_ : fill_from_global_u32 compiled.hot_global_fidx feat 0 hot_buf ≡ ok values =
        rw globals filled in
      let find = hot_feature pack.hot_global_fidx feat in
      let (stamped', fresh) = next_row-IsFresh find pack.n_hot_features cache stamped in
      let holds : (k : ℕ) (x : F) → find k ≡ ok x → fetch values k ≡ ok x = λ k x h.
        let e : 0 + k ≡ k = omega arith in
        let there : get_elem? values k ≡ some x = rw e at (back k x h) in rw there refl in
      elim (Result-cases (check_checkpoints pack.n_trees checkpoints)) [
        | inl (e, p) ↦ rw (trees, p) refl
        | inr (u, p) ↦
            let p' : check_checkpoints compiled.n_trees checkpoints ≡ ok u = rw trees p in
            rw (p, p', filled_, nodes)
              (Alike-weaken _ _ (λ cache' values' (stays, fresh', holds'). stays)
                (prefix_loop-Alike (Serves pack feat) (visit_pack pack feat)
                  (visit_compiled false compiled) pack.node_count cb pack.tree_roots
                  compiled.tree_roots (same_trees pack compiled feat t made roots few)
                  (last_or_zero checkpoints) 0 init_score 0 checkpoints (next_row cache) values s
                  (stamped', fresh, holds)))
      ]
