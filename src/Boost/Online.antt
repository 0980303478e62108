-- ===== src/Boost/Online.antt =====
-- The first stage's calls of `MinpackRuntime`, crates/risk-quickscorer/src/runtime.rs.
use riskanvil.Base.{ℕ, none, some, List, Result, ok, err, ◌>>=◌, ◌≡◌, refl, ap}
use riskanvil.Base.Float.{Float32}
use riskanvil.Boost.Compact.{HotPack}
use riskanvil.Boost.Hot.{
  OnlineL1Runtime, online_output, hot_traversal, predict_l1_feat, predict_l1_feat_nomiss,
}
use riskanvil.Boost.Mirror.{IsPackOf, traverse_hot-compact-eq}
use riskanvil.Boost.Model.{Float64, L1Error, Routed}
use riskanvil.Boost.NoMissing.{SameOutcome}

online_output-eq :
    {F : Type 0} (x y : Result L1Error (Unit {0} × Routed F))
    → SameOutcome x y
    → (x >>= online_output) ≡ (y >>= online_output)
online_output-eq (ok (s, r)) (ok (t, r')) (h, same) = ap (λ r. online_output (s, r)) same
online_output-eq (err e) (err e') h = ap err h
online_output-eq (ok x) (err e) h = absurd h
online_output-eq (err e) (ok x) h = absurd h

module _ {F : Type 0} ⦃f : Float32 F⦄ ⦃d : Float64 F⦄ (l1 : OnlineL1Runtime F) where
  -- The same runtime without compact nodes.
  abbrev pub without_pack : OnlineL1Runtime F
  without_pack = record {
    model = l1.model;
    plan = l1.plan;
    approx_policy = l1.approx_policy;
    hot_compact_pack = none;
    threshold = l1.threshold;
    base_score = l1.base_score;
    l1_dim = l1.l1_dim;
  }

  -- Where the compact nodes mirror the first trees of the plan, both calls of the first stage have
  -- the same outcome on every row as without compact nodes.
  pub predict_l1-compact-eq :
      (pack : HotPack F) (height : ℕ → ℕ)
      → l1.hot_compact_pack ≡ some pack
      → IsPackOf pack l1.model l1.plan l1.approx_policy height
      → (feat : List F)
      → (predict_l1_feat l1 feat ≡ predict_l1_feat without_pack feat)
        × (predict_l1_feat_nomiss l1 feat ≡ predict_l1_feat_nomiss without_pack feat)
  unfolding predict_l1_feat predict_l1_feat_nomiss
  predict_l1-compact-eq pack height has packed feat =
      let same = online_output-eq (hot_traversal l1 (some pack) feat) (hot_traversal l1 none feat) (
        traverse_hot-compact-eq pack l1.model feat l1.plan l1.approx_policy height packed
          l1.threshold l1.base_score f.zero_f f.zero_f 1) in
      (rw (has, same) refl, rw (has, same) refl)
