-- ===== src/Cascade/HotNoMissing.antt =====
-- `hot_exact_prefix_until_compiled` against `hot_exact_prefix_until_compiled_nomiss`, both of
-- crates/risk-quickscorer/src/l1.rs, which looks for no missing value.
use riskanvil.Base.{
  ℕ, zero, suc, ◌+◌, Bool-cases, true, false, List, [], ◌∷◌, length, get_elem?, set, ltb, All,
  Option-cases, Result, ok, err, Result-cases, inl, inr, ◌⊎◌, ◌≡◌, refl, arith,
}
use riskanvil.Base.Float.{Float32}
use riskanvil.Boost.Got.{All-get, All-set}
use riskanvil.Boost.Model.{L1Error, panicked, fetch}
use riskanvil.Boost.Prefix.{HotCompiledPrefixPack, hot_is_leaf, hot_fidx}
use riskanvil.Boost.Simulation.{Alike}
use riskanvil.Forest.File.{last_or_zero}
use riskanvil.Cascade.HotLoops.{prefix_loop-Alike, TreesAlike}
use riskanvil.Cascade.HotPrefix.{
  Callback, Visit, walk, check_checkpoints, leaf_of, child_at, hot_exact_prefix_until_compiled,
  fill_from_global_u32, visit_compiled, node_child,
}

module _ {F : Type 0} ⦃f : Float32 F⦄ where
  abbrev pub NoNan : List F → Type 0
  NoNan = All (λ x. f.is_nan x ≡ false)

  fill-NoNan :
      (gs : List ℕ) (feat : List F) (i : ℕ) (values filled : List F)
      → NoNan feat
      → NoNan values
      → fill_from_global_u32 gs feat i values ≡ ok filled
      → NoNan filled
  unfolding fill_from_global_u32
  fill-NoNan [] feat i values filled clean cleans h =
      let same : values ≡ filled = ground (arith, h) in rw (← same) cleans
  fill-NoNan (g ∷ gs) feat i values filled clean cleans h = elim (Option-cases (get_elem? feat g)) [
    | inl p ↦ absurd (ground (arith, rw p at h))
    | inr (x, p) ↦ elim (Bool-cases (ltb i (length values))) [
      | inr q ↦ absurd (ground (arith, rw (p, q) at h))
      | inl q ↦
          fill-NoNan gs feat (i + 1) (set values i x) filled clean
            (All-set (λ y. f.is_nan y ≡ false) values i x cleans
              (All-get (λ y. f.is_nan y ≡ false) feat g x clean p))
            (rw (p, q) at h)
    ]
  ]

  module _ (pack : HotCompiledPrefixPack F) (values : List F) (clean : NoNan values) where
    abbrev Both : List F → List F → Type 0
    Both c d = (c ≡ values) × (d ≡ values)

    visits :
        (i : ℕ)
        → ((e : L1Error) × (visit_compiled false pack values i ≡ err e)
            × (visit_compiled true pack values i ≡ err e))
          ⊎ ((v : Visit F) × (visit_compiled false pack values i ≡ ok (values, v))
              × (visit_compiled true pack values i ≡ ok (values, v)))
    unfolding visit_compiled
    visits i = elim (Result-cases (fetch pack.nodes i)) [
      | inl (e, p) ↦ inl (e, rw p refl, rw p refl)
      | inr (node, p) ↦ elim (Bool-cases (hot_is_leaf node)) [
        | inl q ↦ inr (leaf_of node.leaf, rw (p, q) refl, rw (p, q) refl)
        | inr q ↦ elim (Option-cases (get_elem? values (hot_fidx node))) [
          | inl r ↦ inl (panicked, rw (p, q, r) refl, rw (p, q, r) refl)
          | inr (x, r) ↦
              let whole = All-get (λ y. f.is_nan y ≡ false) values (hot_fidx node) x clean r in
              inr (child_at (node_child true node x), rw (p, q, r, whole) refl, rw (p, q, r) refl)
        ]
      ]
    ]

    walks :
        (fuel i evals : ℕ) (c d : List F)
        → Both c d
        → Alike Both
            (walk (visit_compiled false pack) fuel c i evals)
            (walk (visit_compiled true pack) fuel d i evals)
    unfolding walk
    walks zero i evals c d both = refl
    walks (suc fuel) i evals c d (at_c, at_d) =
        rw (at_c, at_d)
          (elim (visits i) [
            | inl (e, p, q) ↦ rw (p, q) refl
            | inr (leaf_of x, p, q) ↦ rw (p, q) ((refl, refl), refl)
            | inr (child_at j, p, q) ↦
                rw (p, q) (walks fuel j (evals + 1) values values (refl, refl))
          ])

    same_trees :
        (fuel p : ℕ)
        → TreesAlike Both
            (visit_compiled false pack)
            (visit_compiled true pack)
            fuel
            pack.tree_roots
            pack.tree_roots
            p
    same_trees fuel p = elim (Result-cases (fetch pack.tree_roots p)) [
      | inl (e, h) ↦ inl (e, h, h)
      | inr (root, h) ↦ inr (root, root, h, h, (λ c d evals both. walks fuel root evals c d both))
    ]

    same_end : {A : Type 0} (x y : Result L1Error (List F × A)) → Alike Both x y → x ≡ y
    same_end (ok (c, a)) (ok (d, b)) ((at_c, at_d), same) = rw (at_c, at_d, same) refl
    same_end (err e) (err e') same = rw same refl
    same_end (ok x) (err e) h = absurd h
    same_end (err e) (ok x) h = absurd h

  -- On a row and a buffer without a NaN, the exact score of the first trees by the compiled nodes
  -- has the same result or error where it looks for missing values as where it does not, whatever
  -- the pack, the checkpoints and the callback.
  pub hot_exact_prefix_until_compiled-nomiss-eq :
      {S : Type 0} (pack : HotCompiledPrefixPack F) (hot_buf feat : List F) (checkpoints : List ℕ)
      (init_score : F) (cb : Callback F S) (s : S)
      → NoNan feat
      → NoNan hot_buf
      → hot_exact_prefix_until_compiled false pack hot_buf feat checkpoints init_score cb s
        ≡ hot_exact_prefix_until_compiled true pack hot_buf feat checkpoints init_score cb s
  unfolding hot_exact_prefix_until_compiled
  hot_exact_prefix_until_compiled-nomiss-eq pack hot_buf feat checkpoints init_score cb s clean
        cleans =
      elim (Result-cases (check_checkpoints pack.n_trees checkpoints)) [
        | inl (e, p) ↦ rw p refl
        | inr (u, p) ↦
            elim (Result-cases (fill_from_global_u32 pack.hot_global_fidx feat 0 hot_buf)) [
              | inl (e, q) ↦ rw (p, q) refl
              | inr (values, q) ↦
                  let whole =
                    fill-NoNan pack.hot_global_fidx feat 0 hot_buf values clean cleans q in
                  rw (p, q)
                    (same_end pack values whole _ _ (
                      prefix_loop-Alike (Both pack values whole) (visit_compiled false pack)
                        (visit_compiled true pack) (length pack.nodes) cb pack.tree_roots
                        pack.tree_roots (same_trees pack values whole (length pack.nodes))
                        (last_or_zero checkpoints) 0 init_score 0 checkpoints values values s
                        (refl, refl)))
            ]
      ]
