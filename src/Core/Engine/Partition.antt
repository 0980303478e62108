-- ===== src/Core/Engine/Partition.antt =====
-- Where the 128 rows of a batch of crates/risk-core/src/quickscorer/engine.rs end up.
use riskanvil.Base.{
  ℕ, zero, suc, ◌+◌, ◌*◌, ◌<◌, true, false, Option, some, List, [], length, ok, ◌≡◌, refl, arith,
  inl, inr, Option-cases, ◌⊎◌, ◌∙◌, Bool-cases, sym, ◌==◌, Result-cases,
}
use riskanvil.Base.Float.{Float32}
use riskanvil.Core.Schema.{Decision, allow, deny, manual_review, degrade_allow, QuickRouteMeta}
use riskanvil.Core.Decisions.{l2_is_reject, final_decision}
use riskanvil.Core.Policy.Resolve.{resolve_threshold_with_route_meta}
use riskanvil.Core.Engine.Rows.{source_values}
use riskanvil.Core.Policy.{L2Policy}
use riskanvil.Core.Policy.SegKey.{Formats}
use riskanvil.Core.Engine.Scratch.{QuickTlsScratch, floats}
use riskanvil.Core.Engine.Predict.{
  QuickScorerEngine, QuickPredictOutput, Elapsed, predict_from_l1_bytes_with_meta,
}
use riskanvil.Core.Engine.Batch.{DecisionCounts, predict_batch128_counts_from_l1_bytes_with_meta}
use riskanvil.Core.Engine.Outcome.{
  IsLoaded, l1_outcome, l2_outcome, row_outcome, predict-eq-row_outcome,
}
use riskanvil.Core.Engine.Counting.{is_decision, count_from}
use riskanvil.Core.Engine.BatchSingle.{counts_of, batch_counts-eq-single}

-- A row is allowed by the first stage, or denied or reviewed by the second.
unfoldable IsCascade : {F : Type 0} → QuickPredictOutput F → Type 0
IsCascade out =
    ((out.used_l2 ≡ false) × (out.decision ≡ allow))
    ⊎ ((out.used_l2 ≡ true) × ((out.decision ≡ deny) ⊎ (out.decision ≡ manual_review)))

module _ {F E : Type 0} ⦃f : Float32 F⦄ (text : Formats F) (engine : QuickScorerEngine F E) where
  l2_outcome-cases :
      (policy : L2Policy F) (feat : List F) (score : F) (meta : Option (QuickRouteMeta F))
      (r : F × Decision)
      → l2_outcome text engine policy feat score meta ≡ ok r
      → (r.1 ≡ deny) ⊎ (r.1 ≡ manual_review)
  unfolding l2_outcome final_decision
  l2_outcome-cases policy feat score meta r h =
      elim (Option-cases (source_values feat score policy.feature_sources)) [
        | inl p ↦ absurd (ground arith)
        | inr (row, p) ↦
            elim (Result-cases ((resolve_threshold_with_route_meta text policy row meta []).0)) [
              | inl (e, q) ↦ absurd (ground arith)
              | inr (t, q) ↦
                  elim (Result-cases (engine.runtime.predict_l2_row_nomiss row t.tau t.fold)) [
                    | inl (e, w) ↦ absurd (ground arith)
                    | inr (out, w) ↦ elim (Bool-cases (l2_is_reject out.score t.tau)) [
                      | inl yes_reject ↦ inl (ground arith)
                      | inr no_reject ↦ inr (ground arith)
                    ]
                  ]
            ]
      ]

  row_outcome-IsCascade :
      (policy : L2Policy F) (bytes : List ℕ) (meta : Option (QuickRouteMeta F)) (us : Elapsed)
      (out : QuickPredictOutput F)
      → engine.policy.l2 ≡ some policy
      → row_outcome text engine bytes meta us ≡ ok out
      → IsCascade out
  unfolding row_outcome IsCascade
  row_outcome-IsCascade policy bytes meta us out two h =
      elim (Bool-cases (length bytes == engine.policy.l1_dim * 4)) [
        | inr bad ↦ absurd (ground arith)
        | inl good ↦ elim (Result-cases (l1_outcome text engine bytes)) [
          | inl (e, p) ↦ absurd (ground arith)
          | inr (o, p) ↦ elim (Bool-cases o.passed) [
            | inl passes ↦ inl (ground arith, ground arith)
            | inr stays ↦
                elim (Result-cases (l2_outcome text engine policy (floats bytes) o.score meta)) [
                  | inl (e, q) ↦ absurd (ground arith)
                  | inr (r, q) ↦ inr (
                    ground arith,
                    elim (l2_outcome-cases policy (floats bytes) o.score meta r q) [
                      | inl d ↦ inl (ground arith)
                      | inr d ↦ inr (ground arith)
                    ],
                  )
                ]
          ]
        ]
      ]

module _ {F : Type 0} (outs : ℕ → QuickPredictOutput F) where
  split :
      (left i : ℕ)
      → ((j : ℕ) → j < i + left → IsCascade (outs j))
      → (count_from (λ i. is_decision allow (outs i).decision) i left
            + count_from (λ i. (outs i).used_l2) i left
          ≡ left)
        × (count_from (λ i. is_decision deny (outs i).decision) i left
              + count_from (λ i. is_decision manual_review (outs i).decision) i left
            ≡ count_from (λ i. (outs i).used_l2) i left)
        × (count_from (λ i. is_decision degrade_allow (outs i).decision) i left ≡ 0)
  unfolding count_from IsCascade
  split zero i h = (refl, refl, refl)
  split (suc left) i h =
      let rest = split left (i + 1) (λ j less. h j (omega arith)) in
      elim (h i (omega arith)) [
        | inl (u, d) ↦ ground (arith, u, d, rest)
        | inr (u, inl d) ↦ ground (arith, u, d, rest)
        | inr (u, inr d) ↦ ground (arith, u, d, rest)
      ]

module _ {F E : Type 0} ⦃f : Float32 F⦄ (text : Formats F) (engine : QuickScorerEngine F E)
    (rows : ℕ → List ℕ) (route_metas : ℕ → Option (QuickRouteMeta F)) (clock : ℕ → Elapsed)
    (policy : L2Policy F) where
  -- Under the conditions of the comparison with single predictions the batch returns counts in
  -- which each of the 128 rows is either allowed or a row of the second stage, and a row of the
  -- second stage is either denied or sent to review; no other count is used.
  pub batch_counts-partition :
      (outs : ℕ → QuickPredictOutput F) (ss : ℕ → QuickTlsScratch F) (s : QuickTlsScratch F)
      → IsLoaded engine
      → engine.policy.l2 ≡ some policy
      → ((i : ℕ)
          → i < 128
          → (predict_from_l1_bytes_with_meta text engine
              (rows i)
              (route_metas i)
              (clock i)
              (ss i)).0
            ≡ ok (outs i))
      → (used : ℕ) × (c : DecisionCounts) × ((predict_batch128_counts_from_l1_bytes_with_meta text
            engine rows route_metas clock s).0
          ≡ ok (used, c))
        × (c.c0 + used ≡ 128)
        × (c.c1 + c.c2 ≡ used)
        × (c.c3 ≡ 0)
        × (c.c4 ≡ 0)
  batch_counts-partition outs ss s loaded two all =
      let run =
        batch_counts-eq-single text engine rows route_metas clock policy outs ss s loaded two all in
      let (whole, second, never) = split outs 128 0 (λ i h.
        row_outcome-IsCascade text engine policy (rows i) (route_metas i) (clock i) (outs i) two (
          sym (predict-eq-row_outcome text engine (rows i) (route_metas i) (clock i) (ss i) loaded)
          ∙ all i h)) in
      ((counts_of outs).0, (counts_of outs).1, run, whole, second, never, refl)
