-- ===== src/Core/Engine/Predict.antt =====
-- The engine with its policy and runtime, and the prediction of a single row:
-- `load`, `predict_l1_only_from_bytes` and `predict_from_l1_bytes_with_meta`.
use riskanvil.Base.{
  ℕ, Bool, true, false, Option, none, some, List, ◌==◌, if◌then◌else◌, length, Result, ok, err,
  ok_or,
}
use riskanvil.Base.Bytes.{checked_mul}
use riskanvil.Base.Float.{Float32}
use riskanvil.Core.Schema.{Decision, allow, manual_review, QuickRouteMeta}
use riskanvil.Core.Policy.{L2Policy, QuickPolicy}
use riskanvil.Core.Policy.SegKey.{Formats}
use riskanvil.Core.Engine.Scratch.{
  L1Output, Runtime, EngineError, l1_dim_too_large, size_mismatch, M, ◌>>=◌, ◌>>◌, pure, lift, gets,
  modify, ensure, from_runtime, decode_dense_f32le_into, l2_stage,
}

pub record QuickScorerEngine (F : Type 0) (E : Type 0) : Type 0 where
  pub policy : QuickPolicy F
  pub runtime : Runtime F E

pub record QuickPredictOutput (F : Type 0) : Type 0 where
  pub l1_score : F
  pub l2_score : Option F
  pub final_score : F
  pub decision : Decision
  pub used_l2 : Bool
  pub feature_us : ℕ
  pub l1_us : ℕ
  pub l2_us : ℕ
  pub router_us : ℕ

pub record QuickL1PredictOutput (F : Type 0) : Type 0 where
  pub l1_score : F
  pub passed : Bool
  pub l1_us : ℕ
  pub router_us : ℕ

-- What the clock says of one call: the microseconds of each stage.
pub record Elapsed : Type 0 where
  pub feature : ℕ
  pub l1 : ℕ
  pub l2 : ℕ
  pub router : ℕ

pub data LoadError : Type 0 where
  l1_dim_mismatch l2_dim_mismatch : ℕ → ℕ → LoadError

abbrev l2_dims_agree : {F E : Type 0} → QuickPolicy F → Runtime F E → Bool
l2_dims_agree policy rt = elim (policy.l2) [ none ↦ true | some l2 ↦ rt.l2_dim == l2.dim ]

abbrev policy_l2_dim : {F : Type 0} → QuickPolicy F → ℕ
policy_l2_dim policy = elim (policy.l2) [ none ↦ 0 | some l2 ↦ l2.dim ]

-- The checks of `load` on a policy and a runtime that were read.
unfoldable pub load :
    {F E : Type 0} → QuickPolicy F → Runtime F E → Result LoadError (QuickScorerEngine F E)
load policy rt =
    if rt.l1_dim == policy.l1_dim
    then (if l2_dims_agree policy rt
        then ok (record { policy = policy; runtime = rt })
        else err (l2_dim_mismatch (policy_l2_dim policy) rt.l2_dim))
    else err (l1_dim_mismatch policy.l1_dim rt.l1_dim)

abbrev pub size_checked : {E : Type 0} → ℕ → ℕ → Result (EngineError E) (Unit {0})
size_checked got need = ensure (got == need) (size_mismatch got need)

module _ {F E : Type 0} ⦃f : Float32 F⦄ (text : Formats F) (engine : QuickScorerEngine F E) where
  -- `predict_l1_bytes_nomiss` of the runtime, which decodes into a buffer of its own.
  unfoldable pub predict_l1_bytes_nomiss : List ℕ → Result (EngineError E) (L1Output F)
  predict_l1_bytes_nomiss bytes =
      elim (decode_dense_f32le_into {E = E} bytes engine.runtime.l1_dim (List.[])) [
        | err e ↦ err e
        | ok feat ↦ from_runtime (engine.runtime.predict_l1_feat_nomiss feat)
      ]

  unfoldable pub predict_l1_only_from_bytes : List ℕ → Elapsed → M F E (QuickL1PredictOutput F)
  predict_l1_only_from_bytes l1_bytes us = do
    need ← lift (ok_or (checked_mul engine.policy.l1_dim 4) l1_dim_too_large)
    lift (size_checked (length l1_bytes) need)
    old ← gets (λ s. s.l1_feat)
    feat ← lift (decode_dense_f32le_into l1_bytes engine.policy.l1_dim old)
    modify (λ s. record s { l1_feat = feat })
    out ← lift (from_runtime (engine.runtime.predict_l1_feat_nomiss feat))
    pure
        (record { l1_score = out.score; passed = out.passed; l1_us = us.l1; router_us = us.router })

  abbrev allowed_output : L1Output F → Elapsed → QuickPredictOutput F
  allowed_output out us = record {
    l1_score = out.score;
    l2_score = none;
    final_score = out.score;
    decision = allow;
    used_l2 = false;
    feature_us = 0;
    l1_us = us.l1;
    l2_us = 0;
    router_us = us.router;
  }

  -- Without a second stage.
  abbrev predict_without_l2 : List ℕ → Elapsed → Result (EngineError E) (QuickPredictOutput F)
  predict_without_l2 l1_bytes us = elim (predict_l1_bytes_nomiss l1_bytes) [
    | err e ↦ err e
    | ok out ↦ ok (record {
      l1_score = out.score;
      l2_score = none;
      final_score = out.score;
      decision = if out.passed then allow else manual_review;
      used_l2 = false;
      feature_us = 0;
      l1_us = us.l1;
      l2_us = 0;
      router_us = us.router;
    })
  ]

  abbrev predict_survivor :
      L2Policy F
      → List F
      → L1Output F
      → Option (QuickRouteMeta F)
      → Elapsed
      → M F E (QuickPredictOutput F)
  predict_survivor policy feat out route_meta us = do
    l2 ← l2_stage text engine.runtime policy feat out.score route_meta
    pure (record {
      l1_score = out.score;
      l2_score = some l2.0;
      final_score = l2.0;
      decision = l2.1;
      used_l2 = true;
      feature_us = us.feature;
      l1_us = us.l1;
      l2_us = us.l2;
      router_us = us.router;
    })

  abbrev predict_with_l2 :
      L2Policy F → List ℕ → Option (QuickRouteMeta F) → Elapsed → M F E (QuickPredictOutput F)
  predict_with_l2 policy l1_bytes route_meta us = do
    old ← gets (λ s. s.l1_feat)
    feat ← lift (decode_dense_f32le_into l1_bytes engine.policy.l1_dim old)
    modify (λ s. record s { l1_feat = feat })
    out ← lift (from_runtime (engine.runtime.predict_l1_feat_nomiss feat))
    if out.passed
        then pure (allowed_output out us)
        else predict_survivor policy feat out route_meta us

  unfoldable pub predict_from_l1_bytes_with_meta :
      List ℕ → Option (QuickRouteMeta F) → Elapsed → M F E (QuickPredictOutput F)
  predict_from_l1_bytes_with_meta l1_bytes route_meta us = do
    need ← lift (ok_or (checked_mul engine.policy.l1_dim 4) l1_dim_too_large)
    lift (size_checked (length l1_bytes) need)
    elim (engine.policy.l2) [
      | none ↦ lift (predict_without_l2 l1_bytes us)
      | some policy ↦ predict_with_l2 policy l1_bytes route_meta us
    ]
