-- ===== src/Boost/Traverse.antt =====
-- The traversals of crates/risk-quickscorer/src/l1.rs over the plan's trees, by floats, by ranks
-- and with missing values.
use riskanvil.Base.{
  ℕ, ◌-◌, min, Bool, true, false, Option, none, some, List, leb, if◌then◌else◌, Result, ok, ◌>>=◌,
}
use riskanvil.Base.Float.{Float32, ge}
use riskanvil.Boost.Exits.{Check, maybe_exact_exit, maybe_approx_exit, exact_check}
use riskanvil.Boost.Model.{
  SoaModel, TreeOrder, ApproxPolicy, InferMode, route_fast, margin_exact, route_exact_reordered,
  margin_exact_reordered, route_approx, l2_route_exact_reordered, l2_route_approx, L1Error, fetch,
  RowMeta, no_meta, as_usize, as_i32, Float64, Routed,
}
use riskanvil.Boost.Ranks.{RankPack, RankCache, cached_rank, split_rank}
use riskanvil.Boost.Walk.{walk_plan, Run, Flow, on, out, run_trees, then_run}

abbrev pub is_route_mode : InferMode → Bool
is_route_mode route_fast = true
is_route_mode route_exact_reordered = true
is_route_mode l2_route_exact_reordered = true
is_route_mode margin_exact = false
is_route_mode margin_exact_reordered = false
is_route_mode route_approx = false
is_route_mode l2_route_approx = false

abbrev pub is_approx_mode : InferMode → Bool
is_approx_mode route_approx = true
is_approx_mode l2_route_approx = true
is_approx_mode route_fast = false
is_approx_mode route_exact_reordered = false
is_approx_mode l2_route_exact_reordered = false
is_approx_mode margin_exact = false
is_approx_mode margin_exact_reordered = false

module _ {F : Type 0} ⦃f : Float32 F⦄ (model : SoaModel F) (feat : List F) where
  -- The child of a node on a row without missing values.
  unfoldable pub float_child : ℕ → Result L1Error ℕ
  float_child idx = do
    fidx ← fetch model.fidx idx
    x ← fetch feat (as_usize fidx)
    thr ← fetch model.thr idx
    fetch (if f.lt x thr then model.left else model.right) idx

  unfoldable pub next_float : {S : Type 0} → S → ℕ → Result L1Error (S × ℕ)
  next_float s idx = float_child idx >>= λ child. ok (s, child)

  unfoldable pub next_rank : RankPack F → RankCache → ℕ → Result L1Error (RankCache × ℕ)
  next_rank pack cache idx = do
    fidx ← fetch model.fidx idx
    thr_rank ← fetch pack.node_thr_rank idx
    bound ← split_rank thr_rank
    (cache', rank) ← cached_rank pack feat cache (as_usize fidx)
    child ← fetch (if leb rank bound then model.left else model.right) idx
    ok (cache', child)

  abbrev with_cache : RankCache × ℕ → Result L1Error (Option RankCache × ℕ)
  with_cache (cache, child) = ok (some cache, child)

  -- By ranks where there are a pack and a cache, by floats otherwise.
  abbrev by_rank :
      Option (RankPack F) → Option RankCache → ℕ → Result L1Error (Option RankCache × ℕ)
  by_rank (some pack) (some cache) idx = next_rank pack cache idx >>= with_cache
  by_rank (some pack) none idx = next_float none idx
  by_rank none cache idx = next_float cache idx

  unfoldable pub next_generic :
      Option (RankPack F) → Option RankCache → ℕ → Result L1Error (Option RankCache × ℕ)
  next_generic pack cache idx = do
    fidx ← fetch model.fidx idx
    x ← fetch feat (as_usize fidx)
    let absent = fetch model.missing idx >>= λ child. ok (cache, child)
    if f.is_nan x then absent else by_rank pack cache idx

-- Where the trees of a plan end, what is left is compared with the threshold.
module _ {F : Type 0} ⦃f : Float32 F⦄ where
  abbrev pub finish : {S : Type 0} → F → Flow S F → Result L1Error (S × Routed F)
  finish threshold (on st) = ok (
    st.cache,
    record { score = st.score; pass = ge st.score threshold; visited = st.visited; meta = no_meta },
  )
  finish threshold (out s r) = ok (s, r)

  abbrev pub start : {S : Type 0} → S → F → ℕ → Run S F
  start s score visited = record { cache = s; score = score; visited = as_i32 visited; cp_idx = 0 }

-- An exit that is found, or else the second test.
abbrev pub or_else : Option (Bool × RowMeta) → ℕ → Result L1Error Check → Result L1Error Check
or_else none cp second = second
or_else (some exit) cp second = ok (some exit, cp)

module _ {F : Type 0} ⦃f : Float32 F⦄ ⦃d : Float64 F⦄ (model : SoaModel F) (threshold : F)
    (plan : TreeOrder F) (eps bound_guard : F) (bound_check_every : ℕ) where
  abbrev pub exact_test : F → F → F → Option Bool
  exact_test score lo hi = maybe_exact_exit score threshold lo hi eps bound_guard

  abbrev pub exact_due : F → ℕ → ℕ → Result L1Error Check
  exact_due = exact_check exact_test plan bound_check_every

  abbrev pub approx_due : ApproxPolicy F → F → ℕ → ℕ → Result L1Error Check
  approx_due policy score m_end cp_idx = maybe_approx_exit score threshold m_end policy cp_idx

  abbrev pub by_policy : Option (ApproxPolicy F) → F → ℕ → ℕ → Result L1Error Check
  by_policy none score m_end cp_idx = ok (none, cp_idx)
  by_policy (some policy) score m_end cp_idx = approx_due policy score m_end cp_idx

  -- The tests after a tree in the traversals that take a mode.
  unfoldable pub mode_check : InferMode → Option (ApproxPolicy F) → F → ℕ → ℕ → Result L1Error Check
  mode_check mode policy score m_end cp_idx = do
    (found, cp) ← (if is_route_mode mode then exact_due score m_end cp_idx else ok (none, cp_idx))
    let second = if is_approx_mode mode then by_policy policy score m_end cp else ok (none, cp)
    or_else found cp second

  unfoldable pub traverse_by :
      {S : Type 0}
      → (S → ℕ → Result L1Error (S × ℕ))
      → S
      → F
      → InferMode
      → Option (ApproxPolicy F)
      → ℕ
      → Result L1Error (S × Routed F)
  traverse_by next s init_score mode policy start_tree_idx =
      run_trees (walk_plan model next plan) (mode_check mode policy) (plan.n_trees - start_tree_idx)
        start_tree_idx (start s init_score start_tree_idx)
      >>= finish threshold

  -- The trees up to `k_hot` with the policy's test, the others with the exact one.
  unfoldable pub traverse_approx_by :
      {S : Type 0}
      → (S → ℕ → Result L1Error (S × ℕ))
      → S
      → F
      → ApproxPolicy F
      → Result L1Error (S × Routed F)
  traverse_approx_by next s base_score policy =
      let k_hot = min policy.k_hot plan.n_trees in
      run_trees (walk_plan model next plan) (approx_due policy) k_hot 0 (start s base_score 0)
      >>= then_run (run_trees (walk_plan model next plan) exact_due (plan.n_trees - k_hot) k_hot)
      >>= finish threshold

  module _ (feat : List F) (base_score : F) where
    unfoldable pub traverse_float_nomiss_from :
        InferMode → Option (ApproxPolicy F) → ℕ → Result L1Error (Unit {0} × Routed F)
    traverse_float_nomiss_from mode policy start_tree_idx =
        traverse_by (next_float model feat) tt base_score mode policy start_tree_idx

    unfoldable pub traverse_float_nomiss :
        InferMode → Option (ApproxPolicy F) → Result L1Error (Unit {0} × Routed F)
    traverse_float_nomiss mode policy = traverse_float_nomiss_from mode policy 0

    unfoldable pub traverse_rank_nomiss :
        RankPack F
        → RankCache
        → InferMode
        → Option (ApproxPolicy F)
        → Result L1Error (RankCache × Routed F)
    traverse_rank_nomiss pack cache mode policy =
        traverse_by (next_rank model feat pack) cache base_score mode policy 0

    unfoldable pub traverse_generic_from :
        Option (RankPack F)
        → Option RankCache
        → InferMode
        → Option (ApproxPolicy F)
        → ℕ
        → Result L1Error (Option RankCache × Routed F)
    traverse_generic_from pack cache mode policy start_tree_idx =
        traverse_by (next_generic model feat pack) cache base_score mode policy start_tree_idx

    unfoldable pub traverse_generic :
        Option (RankPack F)
        → Option RankCache
        → InferMode
        → Option (ApproxPolicy F)
        → Result L1Error (Option RankCache × Routed F)
    traverse_generic pack cache mode policy = traverse_generic_from pack cache mode policy 0

    unfoldable pub traverse_approx_float_nomiss :
        ApproxPolicy F → Result L1Error (Unit {0} × Routed F)
    traverse_approx_float_nomiss policy =
        traverse_approx_by (next_float model feat) tt base_score policy

    unfoldable pub traverse_approx_rank_nomiss :
        RankPack F → RankCache → ApproxPolicy F → Result L1Error (RankCache × Routed F)
    traverse_approx_rank_nomiss pack cache policy =
        traverse_approx_by (next_rank model feat pack) cache base_score policy

    unfoldable pub traverse_approx_generic :
        Option (RankPack F)
        → Option RankCache
        → ApproxPolicy F
        → Result L1Error (Option RankCache × Routed F)
    traverse_approx_generic pack cache policy =
        traverse_approx_by (next_generic model feat pack) cache base_score policy
