-- ===== src/Boost/Hot.antt =====
-- The first stage's traversal of crates/risk-quickscorer/src/l1.rs, which adds up the margin over
-- the threshold, and its calls in `MinpackRuntime` of crates/risk-quickscorer/src/runtime.rs.
use riskanvil.Base.{
  ℕ, ◌+◌, ◌-◌, ◌^◌, min, Bool, false, not, ◌&&◌, ◌||◌, Option, none, some, List, [], ◌∷◌, length,
  get_or, ◌==◌, if◌then◌else◌, Result, ok, ◌>>=◌, ◌>>◌, ensure,
}
use riskanvil.Base.Float.{Float32, ge}
use riskanvil.Base.Int.{ℤ}
use riskanvil.Boost.Compact.{HotPack, walk_compact}
use riskanvil.Boost.Exits.{
  Check, passing, referring, maybe_exact_exit_margin, exact_always, exact_check,
}
use riskanvil.Boost.Model.{
  SoaModel, TreeOrder, ApproxPolicy, L1Error, feat_len_mismatch, fetch, no_meta, Float64, Routed,
}
use riskanvil.Boost.Ranks.{RankCache}
use riskanvil.Boost.Traverse.{next_float, start, traverse_approx_generic}
use riskanvil.Boost.Walk.{walk_plan, Flow, on, out, run_trees, then_run}
use riskanvil.Core.Engine.Scratch.{Runtime, L2Output}

-- `usize::MAX`
unfoldable pub usize_max : ℕ
usize_max = 2 ^ 64 - 1

module _ {F : Type 0} ⦃f : Float32 F⦄ where
  -- The two thresholds of the checkpoint `slot`, where a NaN stands for none.
  unfoldable pub exit_slot : F → ApproxPolicy F → ℕ → Result L1Error Check
  exit_slot margin policy slot = do
    tau_ref ← fetch policy.used_tau_ref_dense slot
    let positive = fetch policy.used_tau_positive_dense slot >>= λ tau.
        ok ((if not (f.is_nan tau) && ge margin tau then some (passing slot) else none), slot + 1)
    if not (f.is_nan tau_ref) && f.le margin tau_ref
        then ok (some (referring slot), slot + 1)
        else positive

  unfoldable pub hot_check : ApproxPolicy F → F → ℕ → ℕ → Result L1Error Check
  hot_check policy margin m_end cp_idx =
      if m_end == get_or policy.used_checkpoints cp_idx usize_max
      then exit_slot margin policy cp_idx
      else ok (none, cp_idx)

  -- The margin is the score less the threshold.
  abbrev pub add_threshold : {S : Type 0} → F → Flow S F → Result L1Error (S × Routed F)
  add_threshold threshold (on st) = ok (
    st.cache,
    record {
      score = f.add st.score threshold;
      pass = ge st.score f.zero_f;
      visited = st.visited;
      meta = no_meta;
    },
  )
  add_threshold threshold (out s r) = ok (
    s,
    record { score = f.add r.score threshold; pass = r.pass; visited = r.visited; meta = r.meta },
  )

module _ {F : Type 0} ⦃f : Float32 F⦄ ⦃d : Float64 F⦄ (model : SoaModel F) (feat : List F)
    (threshold base_score : F) (plan : TreeOrder F) (policy : ApproxPolicy F) (eps bound_guard : F)
    (bound_check_every : ℕ) where
  abbrev k_hot : ℕ
  k_hot = min policy.k_hot plan.n_trees

  abbrev margin_test : F → F → F → Option Bool
  margin_test margin lo hi = maybe_exact_exit_margin margin lo hi eps bound_guard

  abbrev margin_due : F → ℕ → ℕ → Result L1Error Check
  margin_due margin m_end cp_idx =
      if bound_check_every == 1
      then exact_always margin_test plan margin m_end cp_idx
      else exact_check margin_test plan bound_check_every margin m_end cp_idx

  abbrev walk_trees : ℕ → Unit {0} → Result L1Error (Unit {0} × F)
  walk_trees = walk_plan model (next_float model feat) plan

  -- The first `hot_done` trees as `walk` finds their leaves, and the others by the model.
  abbrev hot_then_exact :
      (ℕ → Unit {0} → Result L1Error (Unit {0} × F)) → ℕ → Result L1Error (Unit {0} × Routed F)
  hot_then_exact walk hot_done =
      run_trees walk (hot_check policy) hot_done 0 (start tt (d.sub base_score threshold) 0)
      >>= then_run (run_trees walk_trees margin_due (plan.n_trees - hot_done) hot_done)
      >>= add_threshold threshold

  unfoldable pub traverse_approx_float_nomiss_l1_hot_impl :
      Option (HotPack F) → Result L1Error (Unit {0} × Routed F)
  traverse_approx_float_nomiss_l1_hot_impl (some pack) =
      hot_then_exact (walk_compact pack feat) (min pack.n_trees k_hot)
  traverse_approx_float_nomiss_l1_hot_impl none = hot_then_exact walk_trees k_hot

-- `OnlineL1Runtime`, with the dimension that `MinpackRuntime` keeps beside it.
pub record OnlineL1Runtime (F : Type 0) : Type 0 where
  pub model : SoaModel F
  pub plan : TreeOrder F
  pub approx_policy : ApproxPolicy F
  pub hot_compact_pack : Option (HotPack F)
  pub threshold : F
  pub base_score : F
  pub l1_dim : ℕ

pub record OnlineL1Output (F : Type 0) : Type 0 where
  pub score : F
  pub passed : Bool
  pub visited_trees : ℤ

module _ {F : Type 0} ⦃f : Float32 F⦄ where
  -- `feat.iter().any(|x| x.is_nan())`
  abbrev pub any_nan : List F → Bool
  any_nan [] = false
  any_nan (x ∷ xs) = f.is_nan x || any_nan xs

abbrev pub online_output : {S F : Type 0} → S × Routed F → Result L1Error (OnlineL1Output F)
online_output (s, r) = ok (record { score = r.score; passed = r.pass; visited_trees = r.visited })

module _ {F : Type 0} ⦃f : Float32 F⦄ ⦃d : Float64 F⦄ (l1 : OnlineL1Runtime F) where
  abbrev pub hot_traversal : Option (HotPack F) → List F → Result L1Error (Unit {0} × Routed F)
  hot_traversal pack feat =
      traverse_approx_float_nomiss_l1_hot_impl l1.model feat l1.threshold l1.base_score l1.plan
        l1.approx_policy f.zero_f f.zero_f 1 pack

  abbrev pub generic_traversal : List F → Result L1Error (Option RankCache × Routed F)
  generic_traversal feat =
      traverse_approx_generic l1.model l1.threshold l1.plan f.zero_f f.zero_f 1 feat l1.base_score
        none none l1.approx_policy

  unfoldable pub predict_l1_feat_nomiss : List F → Result L1Error (OnlineL1Output F)
  predict_l1_feat_nomiss feat = do
    ensure (length feat == l1.l1_dim) (feat_len_mismatch (length feat) l1.l1_dim)
    routed ← hot_traversal l1.hot_compact_pack feat
    online_output routed

  unfoldable pub predict_l1_feat : List F → Result L1Error (OnlineL1Output F)
  predict_l1_feat feat =
      ensure (length feat == l1.l1_dim) (feat_len_mismatch (length feat) l1.l1_dim)
      >> (if any_nan feat
          then generic_traversal feat >>= online_output
          else hot_traversal l1.hot_compact_pack feat >>= online_output)

  -- The first stage as the engine calls it, beside any second stage.
  abbrev pub minpack_runtime :
      ℕ → (List F → F → ℤ → Result L1Error (L2Output F)) → Runtime F L1Error
  minpack_runtime l2_dim l2 = record {
    l1_dim = l1.l1_dim;
    l2_dim = l2_dim;
    predict_l1_feat_nomiss = λ feat.
        predict_l1_feat_nomiss feat >>= λ o. ok (record { score = o.score; passed = o.passed });
    predict_l2_row_nomiss = l2;
  }
