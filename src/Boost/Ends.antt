-- ===== src/Boost/Ends.antt =====
-- The traversals of crates/risk-quickscorer/src/l1.rs with missing values, and what makes them end.
use riskanvil.Base.{
  ℕ, suc, ◌-◌, min, ◌≤◌, ◌<◌, Bool, Bool-cases, Option, none, some, List, leb, length,
  if◌then◌else◌, get_elem?, ◌==◌, Result, ok, Option-cases, inl, inr, ◌≡◌, refl, arith,
}
use riskanvil.Base.Float.{Float32}
use riskanvil.Boost.Exits.{
  Check, exact_check, exact_always, exit_at, maybe_approx_exit, used_tau_positive,
}
use riskanvil.Boost.Model.{
  RowMeta, SoaModel, TreeOrder, ApproxPolicy, InferMode, L1Error, Float64, fetch, as_usize,
}
use riskanvil.Boost.Ranks.{RankCache}
use riskanvil.Boost.Totality.{
  IsOk, IsOk-bind, fetch-inside, get_elem-bound, if-IsOk, IsSound, IsPlanOf, IsLevel, StepsDown,
  walk_plan-IsOk, run_trees-IsOk,
}
use riskanvil.Boost.Traverse.{
  or_else, by_policy, is_route_mode, is_approx_mode, float_child, next_float, next_generic,
  exact_due, mode_check, finish, traverse_by, traverse_approx_by, traverse_generic_from,
  traverse_approx_generic,
}
use riskanvil.Boost.Walk.{Run, Flow, on, out, run_trees, then_run, walk_plan}

module _ {F : Type 0} ⦃f : Float32 F⦄ ⦃d : Float64 F⦄ where
  exit_at-IsOk :
      (policy : ApproxPolicy F) (diff : F) (idx : ℕ)
      → IsLevel policy
      → idx < length policy.used_checkpoints
      → IsOk (exit_at diff policy idx)
  unfolding exit_at
  exit_at-IsOk policy diff idx level h =
      IsOk-bind (fetch policy.used_tau_ref idx) _
        (fetch-inside policy.used_tau_ref idx (omega (arith, level.ref_len)))
        (λ tau p.
          if-IsOk _ _ _ (_, refl)
            (IsOk-bind (fetch (used_tau_positive policy) idx) _
              (fetch-inside (used_tau_positive policy) idx (omega (arith, level.positive_len)))
              (λ tau' q. (_, refl))))

  pub maybe_approx_exit-IsOk :
      (policy : ApproxPolicy F) (threshold score : F) (m cp : ℕ)
      → IsLevel policy
      → IsOk (maybe_approx_exit score threshold m policy cp)
  unfolding maybe_approx_exit
  maybe_approx_exit-IsOk policy threshold score m cp level =
      elim (Option-cases (get_elem? policy.used_checkpoints cp)) [
        | inl p ↦ rw (maybe_approx_exit, p) (_, refl)
        | inr (c, p) ↦ elim (Bool-cases (c == m)) [
          | inl q ↦
              rw (maybe_approx_exit, p, q)
                (exit_at-IsOk policy (d.sub score threshold) cp level
                  (get_elem-bound policy.used_checkpoints cp c p))
          | inr q ↦ rw (maybe_approx_exit, p, q) (_, refl)
        ]
      ]

pub exact_always-IsOk :
    {F : Type 0} (test : F → F → F → Option Bool) (plan : TreeOrder F) (model : SoaModel F)
    (m cp : ℕ) (score : F)
    → IsPlanOf plan model
    → m ≤ plan.n_trees
    → IsOk (exact_always test plan score m cp)
unfolding exact_always
exact_always-IsOk test plan model m cp score good h =
    IsOk-bind (fetch plan.suffix_min m) _
      (fetch-inside plan.suffix_min m (omega (arith, good.min_len)))
      (λ lo p.
        IsOk-bind (fetch plan.suffix_max m) _
          (fetch-inside plan.suffix_max m (omega (arith, good.max_len))) (λ hi q. (_, refl)))

exact_check-IsOk :
    {F : Type 0} (test : F → F → F → Option Bool) (plan : TreeOrder F) (model : SoaModel F)
    (every m cp : ℕ) (score : F)
    → IsPlanOf plan model
    → m ≤ plan.n_trees
    → IsOk (exact_check test plan (suc every) score m cp)
unfolding exact_check
exact_check-IsOk test plan model every m cp score good h =
    if-IsOk _ _ _ (exact_always-IsOk test plan model m cp score good h) (_, refl)

module _ {F : Type 0} ⦃f : Float32 F⦄ (model : SoaModel F) (feat : List F) (height : ℕ → ℕ)
    (sound : IsSound model (length feat) height) where
  next_generic-StepsDown : StepsDown model (length feat) height sound (next_generic model feat none)
  unfolding next_generic next_float float_child
  next_generic-StepsDown cache idx inside split =
      let (fidx, p) = fetch-inside model.fidx idx (omega (arith, sound.fidx_len)) in
      let (x, q) = fetch-inside feat (as_usize fidx) (sound.feature_inside idx fidx split p) in
      let (thr, r) = fetch-inside model.thr idx (omega (arith, sound.thr_len)) in
      let (lower, pl) = fetch-inside model.left idx (omega (arith, sound.left_len)) in
      let (upper, pr) = fetch-inside model.right idx (omega (arith, sound.right_len)) in
      let (absent, pm) = fetch-inside model.missing idx (omega (arith, sound.missing_len)) in
      elim (Bool-cases (f.is_nan x)) [
        | inl n ↦
            let (below, down) = sound.missing_down idx absent split pm in
            (cache, absent, rw (p, q, n, pm) refl, below, down)
        | inr n ↦ elim (Bool-cases (f.lt x thr)) [
          | inl c ↦
              let (below, down) = sound.left_down idx lower split pl in
              (cache, lower, rw (p, q, n, r, c, pl) refl, below, down)
          | inr c ↦
              let (below, down) = sound.right_down idx upper split pr in
              (cache, upper, rw (p, q, n, r, c, pr) refl, below, down)
        ]
      ]

pub then_run-IsOk :
    {S F : Type 0} {more : Run S F → Result L1Error (Flow S F)} (x : Flow S F)
    → ((st : Run S F) → IsOk (more st))
    → IsOk (then_run more x)
then_run-IsOk (on st) h = h st
then_run-IsOk (out s r) h = (_, refl)

pub run_rest-IsOk :
    {S F : Type 0} ⦃f : Float32 F⦄ (plan : TreeOrder F) (walk : ℕ → S → Result L1Error (S × F))
    (check : F → ℕ → ℕ → Result L1Error Check) (first : ℕ) (st : Run S F)
    → ((p : ℕ) (s : S) → p < plan.n_trees → IsOk (walk p s))
    → ((score : F) (m cp : ℕ) → m ≤ plan.n_trees → IsOk (check score m cp))
    → IsOk (run_trees walk check (plan.n_trees - first) first st)
unfolding run_trees
run_rest-IsOk plan walk check first st ws cs = elim (Bool-cases (leb first plan.n_trees)) [
  | inl h ↦
      run_trees-IsOk walk check plan.n_trees (plan.n_trees - first) first st (ground (arith, h)) ws
        cs
  | inr h ↦ let none_left : plan.n_trees - first ≡ 0 = ground (arith, h) in rw none_left (_, refl)
]

-- A policy, if there is one, has thresholds for its checkpoints.
abbrev pub IsLevelIfAny : {F : Type 0} → Option (ApproxPolicy F) → Type 0
IsLevelIfAny none = Unit {0}
IsLevelIfAny (some policy) = IsLevel policy

module _ {F : Type 0} ⦃f : Float32 F⦄ ⦃d : Float64 F⦄ (model : SoaModel F) (feat : List F)
    (height : ℕ → ℕ) (sound : IsSound model (length feat) height) (threshold base_score : F)
    (plan : TreeOrder F) (good : IsPlanOf plan model) (eps bound_guard : F) (every : ℕ) where
  or_else-IsOk :
      (found : Option (Bool × RowMeta)) (cp : ℕ) (second : Result L1Error Check)
      → IsOk second
      → IsOk (or_else found cp second)
  or_else-IsOk none cp second h = h
  or_else-IsOk (some exit) cp second h = (_, refl)

  by_policy-IsOk :
      (policy : Option (ApproxPolicy F)) (score : F) (m cp : ℕ)
      → IsLevelIfAny policy
      → IsOk (by_policy model threshold plan eps bound_guard (suc every) policy score m cp)
  by_policy-IsOk none score m cp level = (_, refl)
  by_policy-IsOk (some policy) score m cp level =
      maybe_approx_exit-IsOk policy threshold score m cp level

  mode_check-IsOk :
      (mode : InferMode) (policy : Option (ApproxPolicy F)) (score : F) (m cp : ℕ)
      → IsLevelIfAny policy
      → m ≤ plan.n_trees
      → IsOk (mode_check model threshold plan eps bound_guard (suc every) mode policy score m cp)
  unfolding mode_check
  mode_check-IsOk mode policy score m cp level h =
      IsOk-bind
        (if is_route_mode mode
          then exact_due model threshold plan eps bound_guard (suc every) score m cp
          else ok (none, cp))
        _
        (if-IsOk (is_route_mode mode) _ _ (exact_check-IsOk _ plan model every m cp score good h)
          (_, refl))
        (λ (found, cp') p.
          or_else-IsOk found cp' _
            (if-IsOk (is_approx_mode mode) _ _ (by_policy-IsOk policy score m cp' level) (_, refl)))

  walks :
      (p : ℕ) (cache : Option RankCache)
      → p < plan.n_trees
      → IsOk (walk_plan model (next_generic model feat none) plan p cache)
  walks p cache h =
      walk_plan-IsOk model (length feat) height sound (next_generic model feat none)
        (next_generic-StepsDown model feat height sound) plan p cache good h

  finish-IsOk : {S : Type 0} (x : Flow S F) → IsOk (finish threshold x)
  finish-IsOk (on st) = (_, refl)
  finish-IsOk (out s r) = (_, refl)

  -- Where the trees lead down to leaves, the plan fits them, the interval of the exact tests is
  -- not 0 and a policy has thresholds for its checkpoints, the traversals without a rank pack
  -- return a result on every row as long as the trees' features, missing values included, with a
  -- mode as with a policy.
  pub traverse_generic-ends :
      (cache : Option RankCache) (mode : InferMode) (policy : Option (ApproxPolicy F)) (first : ℕ)
      (approx : ApproxPolicy F)
      → IsLevelIfAny policy
      → IsLevel approx
      → IsOk (
          traverse_generic_from model threshold plan eps bound_guard
            (suc every)
            feat
            base_score
            none
            cache
            mode
            policy
            first)
        × IsOk (
            traverse_approx_generic model threshold plan eps bound_guard
              (suc every)
              feat
              base_score
              none
              cache
              approx)
  unfolding traverse_generic_from traverse_approx_generic traverse_by traverse_approx_by
  traverse_generic-ends cache mode policy first approx level level' =
      let k_hot = min approx.k_hot plan.n_trees in
      (
        IsOk-bind _ _
            (run_rest-IsOk plan _ _ first _ walks
              (λ score m cp h. mode_check-IsOk mode policy score m cp level h))
            (λ x p. finish-IsOk x),
        IsOk-bind _ _
            (IsOk-bind _ _
              (run_trees-IsOk _ _ plan.n_trees k_hot 0 _ (omega arith) walks
                (λ score m cp h. maybe_approx_exit-IsOk approx threshold score m cp level'))
              (λ x p. then_run-IsOk x (λ st.
                run_rest-IsOk plan _ _ k_hot st walks
                  (λ score m cp h. exact_check-IsOk _ plan model every m cp score good h))))
            (λ x p. finish-IsOk x),
      )
