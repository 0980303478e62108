-- ===== src/Core/Engine/BatchSingle.antt =====
-- The batch of 128 rows of crates/risk-core/src/quickscorer/engine.rs beside 128 single predictions.
use riskanvil.Base.{
  ℕ, zero, suc, ◌+◌, ◌*◌, ◌<◌, true, false, not, Option, some, List, [], length, Result, ok, err,
  ◌≡◌, refl, arith, if◌then◌else◌, inl, inr, ap, ◌∙◌, Bool-cases, sym, ◌==◌, Result-cases,
}
use riskanvil.Base.Bytes.{checked_mul}
use riskanvil.Base.Float.{Float32}
use riskanvil.Core.Schema.{Decision, allow, deny, manual_review, degrade_allow, QuickRouteMeta}
use riskanvil.Core.Policy.{L2Policy}
use riskanvil.Core.Policy.SegKey.{Formats}
use riskanvil.Core.Engine.Scratch.{
  gets, ◌>>=◌, QuickTlsScratch, L1Output, EngineError, floats, >>=-ok, ensure_len,
}
use riskanvil.Core.Engine.Predict.{
  QuickScorerEngine, QuickPredictOutput, Elapsed, predict_from_l1_bytes_with_meta,
}
use riskanvil.Core.Engine.Batch.{
  first_stage, second_stage, DecisionCounts, no_decisions,
  predict_batch128_counts_from_l1_bytes_with_meta,
}
use riskanvil.Core.Engine.Buffers.{length-ensure_len}
use riskanvil.Core.Engine.Outcome.{
  IsLoaded, l1_outcome, l2_outcome, row_outcome, predict-eq-row_outcome,
}
use riskanvil.Core.Engine.Stages.{IsScored, HasRoom, survivors_from, passes_from, first_stage-eq}
use riskanvil.Core.Engine.Counting.{is_decision, count_from, tally, AllSurvive, second_stage-eq}
use riskanvil.Core.Engine.Survivors.{
  count_from_congr, decision_of, length-survivors_from, counts_of_all,
}

-- The counts of 128 predictions: those of the second stage, and each decision's.
abbrev pub counts_of : {F : Type 0} → (ℕ → QuickPredictOutput F) → ℕ × DecisionCounts
counts_of outs = (
  count_from (λ i. (outs i).used_l2) 0 128,
  record {
    c0 = count_from (λ i. is_decision allow (outs i).decision) 0 128;
    c1 = count_from (λ i. is_decision deny (outs i).decision) 0 128;
    c2 = count_from (λ i. is_decision manual_review (outs i).decision) 0 128;
    c3 = count_from (λ i. is_decision degrade_allow (outs i).decision) 0 128;
    c4 = 0;
  },
)

module _ {F E : Type 0} ⦃f : Float32 F⦄ (text : Formats F) (engine : QuickScorerEngine F E)
    (rows : ℕ → List ℕ) (route_metas : ℕ → Option (QuickRouteMeta F)) (clock : ℕ → Elapsed)
    (policy : L2Policy F) where
  -- The stages' results for each row, where they are results.
  l1_of : ℕ → L1Output F
  l1_of i = elim (l1_outcome text engine (rows i)) [
    | ok out ↦ out
    | err e ↦ record { score = f.zero_f; passed = true }
  ]

  l2_of : ℕ → F × Decision
  l2_of i = elim (l2_outcome text engine policy (floats (rows i)) (l1_of i).score (route_metas i)) [
    | ok r ↦ r
    | err e ↦ (f.zero_f, allow)
  ]

  -- What a result for row `i` says of the stages.
  record HasStages (i : ℕ) (out : QuickPredictOutput F) : Type 0 where
    scored : IsScored text engine rows l1_of i
    decided : out.decision ≡ (if (l1_of i).passed then allow else (l2_of i).1)
    used : out.used_l2 ≡ not (l1_of i).passed
    survives :
        (l1_of i).passed ≡ false
        → l2_outcome text engine policy (floats (rows i)) (l1_of i).score (route_metas i)
          ≡ ok (l2_of i)

  row_outcome-HasStages :
      (i : ℕ) (out : QuickPredictOutput F)
      → engine.policy.l2 ≡ some policy
      → row_outcome text engine (rows i) (route_metas i) (clock i) ≡ ok out
      → HasStages i out
  unfolding row_outcome l1_of l2_of
  row_outcome-HasStages i out two h =
      elim (Bool-cases (length (rows i) == engine.policy.l1_dim * 4)) [
        | inr bad ↦ absurd (ground arith)
        | inl good ↦ elim (Result-cases (l1_outcome text engine (rows i))) [
          | inl (e, p) ↦ absurd (ground arith)
          | inr (o, p) ↦ record {
            scored = record { sized = ground arith; scored = ground arith };
            decided = ground arith;
            used = ground arith;
            survives = ground arith;
          }
        ]
      ]

  all_survive :
      (wf : length policy.feature_sources ≡ policy.dim) (outs : ℕ → QuickPredictOutput F)
      (left i : ℕ)
      → i + left ≡ 128
      → ((j : ℕ) → j < 128 → HasStages j (outs j))
      → AllSurvive text engine rows l1_of route_metas policy wf l2_of (survivors_from l1_of i left)
  unfolding survivors_from
  all_survive wf outs zero i e all = tt
  all_survive wf outs (suc left) i e all =
      let rest = all_survive wf outs left (i + 1) (omega arith) all in
      elim (Bool-cases (l1_of i).passed) [
        | inl passes ↦ rw passes rest
        | inr stays ↦ rw stays ((omega arith, (all i (omega arith)).survives stays), rest)
      ]

  counts_of_outs :
      (outs : ℕ → QuickPredictOutput F)
      → ((j : ℕ) → j < 128 → HasStages j (outs j))
      → ◌≡◌ {A = ℕ × DecisionCounts}
          (
            0 + length (survivors_from l1_of 0 128),
            tally l2_of (survivors_from l1_of 0 128) (passes_from l1_of 0 128 no_decisions),
          )
          (counts_of outs)
  counts_of_outs outs all =
      let same = λ (d : Decision).
        count_from_congr (λ j. is_decision d (decision_of l1_of l2_of j))
          (λ j. is_decision d (outs j).decision) 128 0
          (λ j less. ap (is_decision d) (sym (all j less).decided)) in
      let used =
        count_from_congr (λ j. not (l1_of j).passed) (λ j. (outs j).used_l2) 128 0
          (λ j less. sym (all j less).used) in
      ground (
        arith,
        length-survivors_from l1_of l2_of 0 128,
        counts_of_all l1_of l2_of 128,
        same allow,
        same deny,
        same manual_review,
        same degrade_allow,
        used,
      )

  pub batch-eq-counts :
      (outs : ℕ → QuickPredictOutput F) (s : QuickTlsScratch F)
      → IsLoaded engine
      → engine.policy.l2 ≡ some policy
      → ((i : ℕ)
          → i < 128
          → row_outcome text engine (rows i) (route_metas i) (clock i) ≡ ok (outs i))
      → (predict_batch128_counts_from_l1_bytes_with_meta text engine rows route_metas clock s).0
        ≡ ok (counts_of outs)
  unfolding predict_batch128_counts_from_l1_bytes_with_meta
  batch-eq-counts outs s loaded two all =
      let d = engine.policy.l1_dim in
      let need : checked_mul d 4 ≡ some (d * 4) = ground (arith, loaded.fits) in
      let batch : checked_mul 128 d ≡ some (128 * d) = ground (arith, loaded.fits) in
      let stages = λ (i : ℕ) (h : i < 128). row_outcome-HasStages i (outs i) two (all i h) in
      let wf = loaded.sources policy two in
      let s1 : QuickTlsScratch F = record s {
        batch_l1 = ensure_len s.batch_l1 (128 * d) f.zero_f;
        batch_l1_scores = ensure_len s.batch_l1_scores 128 f.zero_f;
        batch_survivors = [];
      } in
      let room : HasRoom text engine rows l1_of s1 = record {
        batch = length-ensure_len s.batch_l1 (128 * d) f.zero_f;
        scores = length-ensure_len s.batch_l1_scores 128 f.zero_f;
      } in
      let (s2, run, left) =
        first_stage-eq text engine rows l1_of 128 0 no_decisions s1 refl
          (λ i h. (stages i h).scored) room (λ j h. absurd (omega arith)) in
      let second =
        second_stage-eq text engine rows l1_of route_metas policy wf l2_of
          (survivors_from l1_of 0 128) 0 (passes_from l1_of 0 128 no_decisions) s2 left.stored_rows
          (all_survive wf outs 128 0 refl stages) in
      let then_second = λ (counts : DecisionCounts). gets (λ s. s.batch_survivors) >>= λ survivors.
      second_stage text engine rows route_metas policy survivors 0 counts in
      rw need (
        rw two (
          rw batch (
            ap (λ (r : Result (EngineError E) (ℕ × DecisionCounts) × QuickTlsScratch F). r.0)
              (>>=-ok (first_stage text engine rows (d * 4) 128 0 no_decisions) then_second s1 run)
            ∙ rw left.survivors (second ∙ ap ok (counts_of_outs outs stages)))))

  -- The batch of 128 rows against its rows one by one: where the engine is as load leaves it, has
  -- a second stage, and each of the 128 rows has a prediction on its own, with any buffers, the
  -- batch returns how many of those predictions used the second stage and how many gave each
  -- decision, whatever the batch's own buffers hold.
  pub batch_counts-eq-single :
      (outs : ℕ → QuickPredictOutput F) (ss : ℕ → QuickTlsScratch F) (s : QuickTlsScratch F)
      → IsLoaded engine
      → engine.policy.l2 ≡ some policy
      → ((i : ℕ)
          → i < 128
          → (predict_from_l1_bytes_with_meta text engine
              (rows i)
              (route_metas i)
              (clock i)
              (ss i)).0
            ≡ ok (outs i))
      → (predict_batch128_counts_from_l1_bytes_with_meta text engine rows route_metas clock s).0
        ≡ ok (counts_of outs)
  batch_counts-eq-single outs ss s loaded two all = batch-eq-counts outs s loaded two (λ i h.
      sym (predict-eq-row_outcome text engine (rows i) (route_metas i) (clock i) (ss i) loaded)
      ∙ all i h)
