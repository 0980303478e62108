-- ===== src/Boost/Total.antt =====
-- `predict_l1_feat_nomiss` of crates/risk-quickscorer/src/runtime.rs on what the loaders give.
use riskanvil.Base.{
  ℕ, ◌-◌, ◌^◌, min, ◌<◌, true, Bool-cases, none, List, length, eq→==, ok, inl, inr, ◌≡◌, refl,
  arith,
}
use riskanvil.Base.Float.{Float32}
use riskanvil.Boost.Ends.{exact_always-IsOk, run_rest-IsOk, then_run-IsOk}
use riskanvil.Boost.Hot.{
  OnlineL1Runtime, add_threshold, hot_traversal, predict_l1_feat_nomiss,
  traverse_approx_float_nomiss_l1_hot_impl,
}
use riskanvil.Boost.Model.{SoaModel, ApproxPolicy, Float64, as_usize}
use riskanvil.Boost.Policies.{load_approx_policy, has_used}
use riskanvil.Boost.Dense.{load_approx_policy-in_range}
use riskanvil.Boost.Totality.{
  IsOk, IsOk-bind, fetch-inside, IsSound, IsPlanOf, StepsDown, walk_plan-IsOk, run_trees-IsOk,
}
use riskanvil.Boost.Traverse.{float_child, next_float}
use riskanvil.Boost.Walk.{Flow, on, out}

module _ {F : Type 0} ⦃f : Float32 F⦄ (model : SoaModel F) (feat : List F) (height : ℕ → ℕ)
    (sound : IsSound model (length feat) height) where
  next_float-StepsDown :
      StepsDown model (length feat) height sound (next_float model feat {S = Unit {0}})
  unfolding next_float float_child
  next_float-StepsDown s idx inside split =
      let (fidx, p) = fetch-inside model.fidx idx (omega (arith, sound.fidx_len)) in
      let (x, q) = fetch-inside feat (as_usize fidx) (sound.feature_inside idx fidx split p) in
      let (thr, r) = fetch-inside model.thr idx (omega (arith, sound.thr_len)) in
      let (lower, pl) = fetch-inside model.left idx (omega (arith, sound.left_len)) in
      let (upper, pr) = fetch-inside model.right idx (omega (arith, sound.right_len)) in
      elim (Bool-cases (f.lt x thr)) [
        | inl c ↦
            let (below, down) = sound.left_down idx lower split pl in
            (s, lower, rw (p, q, r, c, pl) refl, below, down)
        | inr c ↦
            let (below, down) = sound.right_down idx upper split pr in
            (s, upper, rw (p, q, r, c, pr) refl, below, down)
      ]

add_threshold-IsOk :
    {S F : Type 0} ⦃f : Float32 F⦄ (threshold : F) (x : Flow S F) → IsOk (add_threshold threshold x)
add_threshold-IsOk threshold (on st) = (_, refl)
add_threshold-IsOk threshold (out s r) = (_, refl)

module _ {F : Type 0} ⦃f : Float32 F⦄ ⦃d : Float64 F⦄ (l1 : OnlineL1Runtime F) where
  hot_traversal-IsOk :
      (parsed : ApproxPolicy F) (feat : List F) (height : ℕ → ℕ)
      → IsSound l1.model (length feat) height
      → IsPlanOf l1.plan l1.model
      → l1.plan.n_trees < 2 ^ 64 - 1
      → has_used parsed ≡ true
      → load_approx_policy parsed ≡ ok l1.approx_policy
      → IsOk (hot_traversal l1 none feat)
  unfolding traverse_approx_float_nomiss_l1_hot_impl
  hot_traversal-IsOk parsed feat height sound good few used loaded =
      let k_hot = min l1.approx_policy.k_hot l1.plan.n_trees in
      IsOk-bind _ _
        (IsOk-bind _ _
          (run_trees-IsOk _ _ l1.plan.n_trees k_hot 0 _ (omega arith)
            (λ p s h.
              walk_plan-IsOk l1.model (length feat) height sound _
                (next_float-StepsDown l1.model feat height sound) l1.plan p s good h)
            (λ score m cp h.
              (load_approx_policy-in_range parsed l1.approx_policy score m cp used loaded
                (omega arith)).2))
          (λ x p. then_run-IsOk x (λ st.
            run_rest-IsOk l1.plan _ _ k_hot st
              (λ p s h.
                walk_plan-IsOk l1.model (length feat) height sound _
                  (next_float-StepsDown l1.model feat height sound) l1.plan p s good h)
              (λ score m cp h. exact_always-IsOk _ l1.plan l1.model m cp score good h))))
        (λ x p. add_threshold-IsOk l1.threshold x)

  -- Where the trees lead down to leaves, the plan fits the trees, the policy is one that
  -- load_approx_policy made of a file with compacted arrays, and there are no compact nodes, a row
  -- of the right length gets a first-stage prediction: no index is out of range, and no loop goes
  -- on for ever.
  pub predict_l1-IsOk :
      (parsed : ApproxPolicy F) (feat : List F) (height : ℕ → ℕ)
      → l1.hot_compact_pack ≡ none
      → length feat ≡ l1.l1_dim
      → IsSound l1.model (length feat) height
      → IsPlanOf l1.plan l1.model
      → l1.plan.n_trees < 2 ^ 64 - 1
      → has_used parsed ≡ true
      → load_approx_policy parsed ≡ ok l1.approx_policy
      → IsOk (predict_l1_feat_nomiss l1 feat)
  unfolding predict_l1_feat_nomiss
  predict_l1-IsOk parsed feat height no_pack len sound good few used loaded =
      let (r, p) = hot_traversal-IsOk parsed feat height sound good few used loaded in
      rw (eq→== (length feat) l1.l1_dim len, no_pack, p) (_, refl)
