-- ===== src/Core/Engine/Outcome.antt =====
-- The scoring of a row in crates/risk-core/src/quickscorer/engine.rs with no buffer in sight.
use riskanvil.Base.{
  ℕ, ◌*◌, ◌<◌, ◌^◌, true, false, Option, none, some, List, [], length, Result, ok, err, ◌≡◌, arith,
  ◌==◌, if◌then◌else◌, Option-cases, Result-cases, inl, inr, ==→eq, Bool-cases,
}
use riskanvil.Base.Bytes.{checked_mul}
use riskanvil.Base.Float.{Float32}
use riskanvil.Core.Schema.{Decision, allow, manual_review, QuickRouteMeta}
use riskanvil.Core.Decisions.{l2_is_reject, final_decision}
use riskanvil.Core.Policy.{L2Policy}
use riskanvil.Core.Policy.SegKey.{Formats}
use riskanvil.Core.Policy.Resolve.{resolve_threshold_with_route_meta}
use riskanvil.Core.Policy.Thresholds.{resolve_threshold-clears}
use riskanvil.Core.Engine.Scratch.{
  QuickTlsScratch, L1Output, L2Output, EngineError, panicked, threshold_unavailable, size_mismatch,
  runtime_failed, from_runtime, floats, l2_stage,
}
use riskanvil.Core.Engine.Predict.{
  QuickScorerEngine, QuickPredictOutput, Elapsed, predict_from_l1_bytes_with_meta,
  predict_l1_bytes_nomiss,
}
use riskanvil.Core.Engine.Rows.{
  source_values, materialize_l2_row_into_lem, decode_dense_f32le_into_lem,
}

module _ {F E : Type 0} where
  -- What `load` and the loader of the policy leave behind, with a dimension whose batch fits `usize`.
  pub record IsLoaded (engine : QuickScorerEngine F E) : Type 0 where
    pub dims : engine.runtime.l1_dim ≡ engine.policy.l1_dim
    pub fits : engine.policy.l1_dim * 128 < 2 ^ 64
    pub sources :
        (policy : L2Policy F)
        → engine.policy.l2 ≡ some policy
        → length policy.feature_sources ≡ policy.dim

module _ {F E : Type 0} ⦃f : Float32 F⦄ (text : Formats F) (engine : QuickScorerEngine F E) where
  abbrev pub l1_outcome : List ℕ → Result (EngineError E) (L1Output F)
  l1_outcome bytes = from_runtime (engine.runtime.predict_l1_feat_nomiss (floats bytes))

  abbrev l2_decided : F → Result E (L2Output F) → Result (EngineError E) (F × Decision)
  l2_decided tau (err e) = err (runtime_failed e)
  l2_decided tau (ok out) = ok (out.score, final_decision false (some (l2_is_reject out.score tau)))

  abbrev l2_row_outcome :
      L2Policy F
      → Option (QuickRouteMeta F)
      → Option (List F)
      → Result (EngineError E) (F × Decision)
  l2_row_outcome policy route_meta none = err panicked
  l2_row_outcome policy route_meta (some row) =
      elim ((resolve_threshold_with_route_meta text policy row route_meta []).0) [
        | err e ↦ err threshold_unavailable
        | ok t ↦ l2_decided t.tau (engine.runtime.predict_l2_row_nomiss row t.tau t.fold)
      ]

  unfoldable pub l2_outcome :
      L2Policy F → List F → F → Option (QuickRouteMeta F) → Result (EngineError E) (F × Decision)
  l2_outcome policy feat score route_meta =
      l2_row_outcome policy route_meta (source_values feat score policy.feature_sources)

  pub l2_stage-eq :
      (policy : L2Policy F) (feat : List F) (score : F) (route_meta : Option (QuickRouteMeta F))
      (s : QuickTlsScratch F)
      → length policy.feature_sources ≡ policy.dim
      → ((l2_stage text engine.runtime policy feat score route_meta s).0
          ≡ l2_outcome policy feat score route_meta)
        × ((l2_stage text engine.runtime policy feat score route_meta s).1.batch_l1 ≡ s.batch_l1)
        × ((l2_stage text engine.runtime policy feat score route_meta s).1.batch_l1_scores
            ≡ s.batch_l1_scores)
  unfolding l2_stage l2_outcome
  l2_stage-eq policy feat score route_meta s wf =
      let row = materialize_l2_row_into_lem feat score policy s.l2_row wf in
      elim (Option-cases (source_values feat score policy.feature_sources)) [
        | inl p ↦ ground arith
        | inr (vs, p) ↦
            ground (arith, resolve_threshold-clears text policy vs route_meta s.seg_key_buf)
      ]

  abbrev pub Scored : Type 0
  Scored = Result (EngineError E) (QuickPredictOutput F)

  abbrev first_stage_output : L1Output F → Decision → Elapsed → QuickPredictOutput F
  first_stage_output out decision us = record {
    l1_score = out.score;
    l2_score = none;
    final_score = out.score;
    decision = decision;
    used_l2 = false;
    feature_us = 0;
    l1_us = us.l1;
    l2_us = 0;
    router_us = us.router;
  }

  abbrev second_stage_output :
      L1Output F
      → Elapsed
      → Result (EngineError E) (F × Decision)
      → Result (EngineError E) (QuickPredictOutput F)
  second_stage_output out us (err e) = err e
  second_stage_output out us (ok (score, decision)) = ok (record {
    l1_score = out.score;
    l2_score = some score;
    final_score = score;
    decision = decision;
    used_l2 = true;
    feature_us = us.feature;
    l1_us = us.l1;
    l2_us = us.l2;
    router_us = us.router;
  })

  abbrev cascade_outcome :
      List ℕ
      → Option (QuickRouteMeta F)
      → Elapsed
      → Option (L2Policy F)
      → L1Output F
      → Result (EngineError E) (QuickPredictOutput F)
  cascade_outcome bytes route_meta us none out =
      ok (first_stage_output out (if out.passed then allow else manual_review) us)
  cascade_outcome bytes route_meta us (some policy) out =
      if out.passed
      then ok (first_stage_output out allow us)
      else second_stage_output out us (l2_outcome policy (floats bytes) out.score route_meta)

  -- The meaning of a prediction: the first stage, and the second one for a row that does not pass.
  unfoldable pub row_outcome :
      List ℕ → Option (QuickRouteMeta F) → Elapsed → Result (EngineError E) (QuickPredictOutput F)
  row_outcome bytes route_meta us =
      if length bytes == engine.policy.l1_dim * 4
      then elim (l1_outcome bytes) [
        | err e ↦ err e
        | ok out ↦ cascade_outcome bytes route_meta us engine.policy.l2 out
      ]
      else err (size_mismatch (length bytes) (engine.policy.l1_dim * 4))

  need_lem : IsLoaded engine → checked_mul engine.policy.l1_dim 4 ≡ some (engine.policy.l1_dim * 4)
  need_lem loaded = ground arith

  -- Where the engine is as load leaves it, a single prediction, with its buffers in any state, has
  -- the result or the error of the cascade that is written without buffers: size check, first
  -- stage, second-stage row, threshold, second stage.
  pub predict-eq-row_outcome :
      (bytes : List ℕ) (route_meta : Option (QuickRouteMeta F)) (us : Elapsed)
      (s : QuickTlsScratch F)
      → IsLoaded engine
      → (predict_from_l1_bytes_with_meta text engine bytes route_meta us s).0
        ≡ row_outcome bytes route_meta us
  unfolding predict_from_l1_bytes_with_meta row_outcome predict_l1_bytes_nomiss
  predict-eq-row_outcome bytes route_meta us s loaded =
      let dim = engine.policy.l1_dim in
      let need = need_lem loaded in
      let fits : dim * 4 < 2 ^ 64 = omega (arith, loaded.fits) in
      elim (Bool-cases (length bytes == dim * 4)) [
        | inr other ↦ ground (arith, need)
        | inl same ↦
            let len = ==→eq (length bytes) (dim * 4) same in
            let own =
              decode_dense_f32le_into_lem {F = F} {E = E} bytes engine.runtime.l1_dim []
                (rw loaded.dims len) (rw loaded.dims fits) in
            let decoded =
              decode_dense_f32le_into_lem {F = F} {E = E} bytes dim s.l1_feat len fits in
            let s' : QuickTlsScratch F = record s { l1_feat = floats bytes } in
            elim (Option-cases (engine.policy.l2)) [
              | inl without ↦ ground (arith, need, own)
              | inr (policy, two) ↦ elim (Result-cases (l1_outcome bytes)) [
                | inl (e, p) ↦ ground (arith, need, decoded)
                | inr (out, p) ↦ ground (
                  arith,
                  need,
                  decoded,
                  l2_stage-eq policy (floats bytes) out.score route_meta s'
                      (loaded.sources policy two),
                )
              ]
            ]
      ]
