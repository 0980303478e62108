-- ===== src/Examples/Scoring.antt =====
-- A batch whose first 100 rows pass the first stage, and whose other rows are denied or reviewed.
use riskanvil.Base.{
  ℕ, ◌+◌, ◌<◌, true, none, some, List, [], ◌∷◌, ltb, if◌then◌else◌, ok, ◌≡◌, refl, Bool-cases, inl,
  inr, Option,
}
use riskanvil.Core.Decisions.{l2_is_reject, final_decision}
use riskanvil.Core.Schema.{deny, manual_review, QuickRouteMeta}
use riskanvil.Core.Policy.Resolve.{resolve_threshold_with_route_meta, select_fold}
use riskanvil.Core.Policy.SegKey.{
  build_seg_key_bytes, write_seg_columns, write_canonical_seg_component_from_f32,
}
use riskanvil.Core.Engine.Scratch.{
  decode_dense_f32le_into, ensure_len, resize, splice, floats, l2_stage, materialize_l2_row_into,
  fill_l2_row,
}
use riskanvil.Core.Engine.FirstStage.{outs_from, l1_only_batch-eq-single}
use riskanvil.Core.Engine.Predict.{
  QuickL1PredictOutput, predict_l1_only_from_bytes, QuickPredictOutput,
  predict_from_l1_bytes_with_meta,
}
use riskanvil.Core.Engine.Batch.{
  predict_l1_only_batch128_from_bytes, DecisionCounts,
  predict_batch128_counts_from_l1_bytes_with_meta,
}
use riskanvil.Core.Engine.Outcome.{row_outcome, predict-eq-row_outcome}
use riskanvil.Core.Engine.Counting.{count_from}
use riskanvil.Core.Engine.BatchSingle.{batch_counts-eq-single}
use riskanvil.Core.Engine.Partition.{batch_counts-partition}
use riskanvil.Examples.Data.{
  whole, text, l2_policy, engine, engine-IsLoaded, scratch, elapsed, passed,
}

-- The three kinds of rows.
abbrev row_of : ℕ → List ℕ
row_of i =
    if ltb i 100
    then 9 ∷ 0 ∷ 0 ∷ 0 ∷ []
    else if ltb i 110
    then 4 ∷ 0 ∷ 0 ∷ 0 ∷ []
    else 2 ∷ 0 ∷ 0 ∷ 0 ∷ []

abbrev no_meta : ℕ → Option (QuickRouteMeta ℕ)
no_meta i = none

abbrev denied : QuickPredictOutput ℕ
denied = record {
  l1_score = 4;
  l2_score = some 4;
  final_score = 4;
  decision = deny;
  used_l2 = true;
  feature_us = 1;
  l1_us = 2;
  l2_us = 3;
  router_us = 7;
}

abbrev reviewed : QuickPredictOutput ℕ
reviewed = record {
  l1_score = 2;
  l2_score = some 2;
  final_score = 2;
  decision = manual_review;
  used_l2 = true;
  feature_us = 1;
  l1_us = 2;
  l2_us = 3;
  router_us = 7;
}

abbrev out_of : ℕ → QuickPredictOutput ℕ
out_of i = if ltb i 100 then passed else if ltb i 110 then denied else reviewed

predict_passed :
    (predict_from_l1_bytes_with_meta text engine (9 ∷ 0 ∷ 0 ∷ 0 ∷ []) none elapsed scratch).0
    ≡ ok passed
unfolding predict_from_l1_bytes_with_meta decode_dense_f32le_into ensure_len resize splice floats
    l2_stage materialize_l2_row_into fill_l2_row resolve_threshold_with_route_meta select_fold
    build_seg_key_bytes write_seg_columns write_canonical_seg_component_from_f32 l2_is_reject
    final_decision
predict_passed = refl

predict_denied :
    (predict_from_l1_bytes_with_meta text engine (4 ∷ 0 ∷ 0 ∷ 0 ∷ []) none elapsed scratch).0
    ≡ ok denied
unfolding predict_from_l1_bytes_with_meta decode_dense_f32le_into ensure_len resize splice floats
    l2_stage materialize_l2_row_into fill_l2_row resolve_threshold_with_route_meta select_fold
    build_seg_key_bytes write_seg_columns write_canonical_seg_component_from_f32 l2_is_reject
    final_decision
predict_denied = refl

predict_reviewed :
    (predict_from_l1_bytes_with_meta text engine (2 ∷ 0 ∷ 0 ∷ 0 ∷ []) none elapsed scratch).0
    ≡ ok reviewed
unfolding predict_from_l1_bytes_with_meta decode_dense_f32le_into ensure_len resize splice floats
    l2_stage materialize_l2_row_into fill_l2_row resolve_threshold_with_route_meta select_fold
    build_seg_key_bytes write_seg_columns write_canonical_seg_component_from_f32 l2_is_reject
    final_decision
predict_reviewed = refl

predict_row :
    (i : ℕ)
    → i < 128
    → (predict_from_l1_bytes_with_meta text engine (row_of i) (no_meta i) elapsed scratch).0
      ≡ ok (out_of i)
predict_row i h = elim (Bool-cases (ltb i 100)) [
  | inl p ↦ rw p predict_passed
  | inr p ↦ rw p (elim (Bool-cases (ltb i 110)) [
    | inl q ↦ rw q predict_denied
    | inr q ↦ rw q predict_reviewed
  ])
]

predict-eq-row_outcome_example :
    (predict_from_l1_bytes_with_meta text engine (row_of 105) none elapsed scratch).0
    ≡ row_outcome text engine (row_of 105) none elapsed
predict-eq-row_outcome_example =
    predict-eq-row_outcome text engine (row_of 105) none elapsed scratch engine-IsLoaded

batch_counts-eq-single_example :
    (predict_batch128_counts_from_l1_bytes_with_meta text engine row_of no_meta
      (λ i. elapsed)
      scratch).0
    ≡ ok (28, record { c0 = 100; c1 = 10; c2 = 18; c3 = 0; c4 = 0 })
unfolding count_from
batch_counts-eq-single_example =
    batch_counts-eq-single text engine row_of no_meta (λ i. elapsed) l2_policy out_of (λ i. scratch)
      scratch engine-IsLoaded refl predict_row

batch_counts-partition_example :
    (used : ℕ) × (c : DecisionCounts) × ((predict_batch128_counts_from_l1_bytes_with_meta text
        engine row_of no_meta
        (λ i. elapsed)
        scratch).0
      ≡ ok (used, c))
    × (c.c0 + used ≡ 128)
    × (c.c1 + c.c2 ≡ used)
    × (c.c3 ≡ 0)
    × (c.c4 ≡ 0)
batch_counts-partition_example =
    batch_counts-partition text engine row_of no_meta (λ i. elapsed) l2_policy out_of (λ i. scratch)
      scratch engine-IsLoaded refl predict_row

abbrev passed_l1 : QuickL1PredictOutput ℕ
passed_l1 = record { l1_score = 9; passed = true; l1_us = 2; router_us = 7 }

predict_l1_row :
    (predict_l1_only_from_bytes text engine (9 ∷ 0 ∷ 0 ∷ 0 ∷ []) elapsed scratch).0 ≡ ok passed_l1
unfolding predict_l1_only_from_bytes decode_dense_f32le_into ensure_len resize splice floats
predict_l1_row = refl

l1_only_batch-eq-single_example :
    (predict_l1_only_batch128_from_bytes text engine
      (λ i. 9 ∷ 0 ∷ 0 ∷ 0 ∷ [])
      (λ i. elapsed)
      scratch).0
    ≡ ok (outs_from (λ i. passed_l1) 0 128)
l1_only_batch-eq-single_example =
    l1_only_batch-eq-single text engine (λ i. 9 ∷ 0 ∷ 0 ∷ 0 ∷ []) (λ i. elapsed) (λ i. passed_l1)
      (λ i. scratch) scratch engine-IsLoaded (λ i h. predict_l1_row)
