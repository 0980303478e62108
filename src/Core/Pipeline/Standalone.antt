-- ===== src/Core/Pipeline/Standalone.antt =====
-- Rows of the prepared file: the two loops over 128 rows against the rows one by one.
use riskanvil.Base.{
  ℕ, ◌+◌, Bool, true, false, Option, List, [], ◌∷◌, if◌then◌else◌, ok, ◌≡◌, arith, Bool-cases,
  Result-cases, ◌⊎◌, inl, inr, length,
}
use riskanvil.Base.Float.{Float32}
use riskanvil.Core.Schema.{Decision, allow, deny, manual_review, QuickRouteMeta}
use riskanvil.Core.Policy.SegKey.{Formats}
use riskanvil.Core.Engine.Predict.{QuickScorerEngine, QuickL1PredictOutput}
use riskanvil.Core.Engine.Batch.{DecisionCounts, no_decisions, count_decision}
use riskanvil.Core.Engine.Counting.{count_from, is_decision}
use riskanvil.Core.Pipeline.{
  StandaloneL2, StandaloneL2TauMode, BatchScoreLite, PendingL2, collect_pending, score_pending,
  score_both, score_standalone_l2_from_l1_batch_lite, row_idx_or, standalone_tau, standalone_row,
  fold_or_zero,
}

module _ {F E : Type 0} ⦃f : Float32 F⦄ (text : Formats F) (quick : Option (QuickScorerEngine F E))
    (rt : StandaloneL2 F E) (tau_mode : StandaloneL2TauMode F)
    (metas : ℕ → Option (QuickRouteMeta F)) (lites : ℕ → BatchScoreLite) where
  abbrev IsLite : ℕ → QuickL1PredictOutput F → Type 0
  IsLite i out =
      score_standalone_l2_from_l1_batch_lite text quick rt tau_mode out (metas i)
        (row_idx_or text quick (metas i) i)
      ≡ ok (lites i)

  -- Each row from `i` on has a result of its own.
  abbrev pub AllLite : ℕ → List (QuickL1PredictOutput F) → Type 0
  AllLite i [] = Unit
  AllLite i (out ∷ outs) = IsLite i out × AllLite (i + 1) outs

  abbrev count_lites : Decision → ℕ → ℕ → ℕ
  count_lites d i left = count_from (λ j. is_decision d (lites j).decision) i left

  -- What a row's result says of the two loops.
  lite_cases :
      (i : ℕ) (out : QuickL1PredictOutput F)
      → IsLite i out
      → ((out.passed ≡ true) × (lites i ≡ record { decision = allow; used_l2 = false }))
        ⊎ ((out.passed ≡ false)
            × (tau : F) × (reject : Bool) × (standalone_tau text quick tau_mode (metas i) ≡ ok tau)
            × (standalone_row text quick rt
                  (row_idx_or text quick (metas i) i)
                  tau
                  (fold_or_zero text quick (metas i))
                ≡ ok reject)
            × (lites i
                ≡ record { decision = if reject then deny else manual_review; used_l2 = true }))
  unfolding score_standalone_l2_from_l1_batch_lite
  lite_cases i out h = elim (Bool-cases out.passed) [
    | inl p ↦ inl (p, ground (arith, p, h))
    | inr p ↦ elim (Result-cases (standalone_tau text quick tau_mode (metas i))) [
      | inl (e, q) ↦ absurd (ground (arith, p, q, h))
      | inr (tau, q) ↦
          elim (Result-cases (
            standalone_row text quick rt (row_idx_or text quick (metas i) i) tau
              (fold_or_zero text quick (metas i)))) [
                | inl (e, t) ↦ absurd (ground (arith, p, q, t, h))
                | inr (reject, t) ↦ inr (p, tau, reject, q, t, ground (arith, p, q, t, h))
              ]
    ]
  ]

  -- Both loops, from row `i` on and with any counts between them.
  record Loops (i : ℕ) (outs : List (QuickL1PredictOutput F)) (counts : DecisionCounts)
      : Type 0 where
    pending : List (PendingL2 F)
    collected :
        collect_pending text quick rt tau_mode outs metas i counts
        ≡ ok (record counts { c0 = counts.c0 + count_lites allow i (length outs) }, pending)
    scored :
        (used : ℕ) (c : DecisionCounts)
        → score_pending text quick rt tau_mode pending used c
          ≡ ok (
            used + count_from (λ j. (lites j).used_l2) i (length outs),
            record c {
              c1 = c.c1 + count_lites deny i (length outs);
              c2 = c.c2 + count_lites manual_review i (length outs);
            },
          )

  loops :
      (i : ℕ) (outs : List (QuickL1PredictOutput F)) (counts : DecisionCounts)
      → AllLite i outs
      → Loops i outs counts
  unfolding collect_pending score_pending count_from count_decision
  loops i [] counts all = record {
    pending = [];
    collected = ground arith;
    scored = λ used c. ground arith;
  }
  loops i (out ∷ outs) counts (one, rest) = elim (lite_cases i out one) [
    | inl (p, l) ↦
        let next = loops (i + 1) outs (count_decision allow counts) rest in
        record {
          pending = next.pending;
          collected = ground (arith, p, l, next.collected);
          scored = λ used c. ground (arith, l, next.scored used c);
        }
    | inr (p, tau, reject, q, t, l) ↦
        let next = loops (i + 1) outs counts rest in
        record {
          pending =
              record {
                sidecar_row_idx = row_idx_or text quick (metas i) i;
                fold_id = fold_or_zero text quick (metas i);
                tau = tau;
              }
              ∷ next.pending;
          collected = elim (Bool-cases reject) [
            | inl y ↦ ground (arith, p, q, l, y, next.collected)
            | inr n ↦ ground (arith, p, q, l, n, next.collected)
          ];
          scored = λ used c. elim (Bool-cases reject) [
            | inl y ↦ ground (arith, t, l, y, next.scored (used + 1) (count_decision deny c))
            | inr n ↦
                ground (arith, t, l, n, next.scored (used + 1) (count_decision manual_review c))
          ];
        }
  ]

  -- Where the rows with the given first-stage outputs each have a result of their own from the
  -- prepared file, at the row of their route or else of their position, the two loops over them
  -- return the number of second-stage rows and of each decision among those results.
  pub score_both-eq-lites :
      (outs : List (QuickL1PredictOutput F))
      → AllLite 0 outs
      → score_both text quick rt tau_mode outs metas
        ≡ ok (
          count_from (λ j. (lites j).used_l2) 0 (length outs),
          record {
            c0 = count_lites allow 0 (length outs);
            c1 = count_lites deny 0 (length outs);
            c2 = count_lites manual_review 0 (length outs);
            c3 = 0;
            c4 = 0;
          },
        )
  score_both-eq-lites outs all =
      let both = loops 0 outs no_decisions all in
      ground (
        arith,
        both.collected,
        both.scored 0 (record no_decisions { c0 = 0 + count_lites allow 0 (length outs) }),
      )
