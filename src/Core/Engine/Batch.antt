-- ===== src/Core/Engine/Batch.antt =====
-- The batch of 128 rows: `predict_l1_only_batch128_from_bytes` and
-- `predict_batch128_counts_from_l1_bytes_with_meta`. An array of 128 is a function of the index.
use riskanvil.Base.{
  ℕ, zero, suc, ◌+◌, ◌*◌, Option, none, some, List, [], ◌∷◌, ◌++◌, if◌then◌else◌, length, set,
  get_elem?, ok_or,
}
use riskanvil.Base.Bytes.{checked_mul, slice}
use riskanvil.Base.Float.{Float32}
use riskanvil.Core.Schema.{Decision, allow, manual_review, deny, degrade_allow, QuickRouteMeta}
use riskanvil.Core.Policy.{L2Policy}
use riskanvil.Core.Policy.SegKey.{Formats}
use riskanvil.Core.Engine.Scratch.{
  QuickTlsScratch, L1Output, l1_dim_too_large, batch_too_large, M, ◌>>=◌, ◌>>◌, pure, lift, gets,
  modify, from_runtime, or_panic, ensure_len, splice, floats, l2_stage,
}
use riskanvil.Core.Engine.Predict.{QuickScorerEngine, QuickL1PredictOutput, Elapsed, size_checked}

-- `[u32; 5]`, at most 128 in all
pub record DecisionCounts : Type 0 where
  pub c0 : ℕ
  pub c1 : ℕ
  pub c2 : ℕ
  pub c3 : ℕ
  pub c4 : ℕ

abbrev pub no_decisions : DecisionCounts
no_decisions = record { c0 = 0; c1 = 0; c2 = 0; c3 = 0; c4 = 0 }

-- `decision_counts[idx] += 1` at the index that the code gives a decision.
unfoldable pub count_decision : Decision → DecisionCounts → DecisionCounts
count_decision allow c = record c { c0 = c.c0 + 1 }
count_decision deny c = record c { c1 = c.c1 + 1 }
count_decision manual_review c = record c { c2 = c.c2 + 1 }
count_decision degrade_allow c = record c { c3 = c.c3 + 1 }

abbrev pub Batch128Counts : Type 0
Batch128Counts = ℕ × DecisionCounts

-- The score of row `i` is kept, and its index if it did not pass.
abbrev pub note_row : {F : Type 0} → ℕ → L1Output F → QuickTlsScratch F → QuickTlsScratch F
note_row i out s = record s {
  batch_l1_scores = set s.batch_l1_scores i out.score;
  batch_survivors = if out.passed then s.batch_survivors else s.batch_survivors ++ (i ∷ []);
}

module _ {F E : Type 0} ⦃f : Float32 F⦄ (text : Formats F) (engine : QuickScorerEngine F E)
    (rows : ℕ → List ℕ) where
  -- One row of either loop: its bytes are copied to its place in `batch_l1`, and scored there.
  unfoldable pub score_row_in_place : ℕ → ℕ → M F E (L1Output F)
  score_row_in_place l1_need i = do
    lift (size_checked (length (rows i)) l1_need)
    let off = i * engine.policy.l1_dim
    room ← gets (λ s. slice s.batch_l1 off engine.policy.l1_dim)
    _ ← lift (or_panic room)
    modify (λ s. record s { batch_l1 = splice s.batch_l1 off (floats (rows i)) })
    l1_feat_row ← gets (λ s. slice s.batch_l1 off engine.policy.l1_dim)
    feat ← lift (or_panic l1_feat_row)
    lift (from_runtime (engine.runtime.predict_l1_feat_nomiss feat))

  -- The rows from `i` on, with `left` to go.
  unfoldable pub l1_only_rows : (ℕ → Elapsed) → ℕ → ℕ → ℕ → M F E (List (QuickL1PredictOutput F))
  l1_only_rows clock l1_need zero i = pure []
  l1_only_rows clock l1_need (suc left) i = do
    out ← score_row_in_place l1_need i
    outs ← l1_only_rows clock l1_need left (i + 1)
    pure (
        record {
          l1_score = out.score;
          passed = out.passed;
          l1_us = (clock i).l1;
          router_us = (clock i).router;
        }
        ∷ outs)

  abbrev prepare_batch_l1 : M F E (Unit {0})
  prepare_batch_l1 = do
    batch_need ← lift (ok_or (checked_mul 128 engine.policy.l1_dim) batch_too_large)
    modify (λ s. record s { batch_l1 = ensure_len s.batch_l1 batch_need f.zero_f })

  unfoldable pub predict_l1_only_batch128_from_bytes :
      (ℕ → Elapsed) → M F E (List (QuickL1PredictOutput F))
  predict_l1_only_batch128_from_bytes clock = do
    l1_need ← lift (ok_or (checked_mul engine.policy.l1_dim 4) l1_dim_too_large)
    prepare_batch_l1
    l1_only_rows clock l1_need 128 0

  -- Without a second stage a row that does not pass is counted for review.
  unfoldable pub count_l1_only : List (QuickL1PredictOutput F) → DecisionCounts → DecisionCounts
  count_l1_only [] c = c
  count_l1_only (out ∷ outs) c =
      count_l1_only outs (count_decision (if out.passed then allow else manual_review) c)

  -- The first loop: every row through the first stage, and the rows left over.
  unfoldable pub first_stage : ℕ → ℕ → ℕ → DecisionCounts → M F E DecisionCounts
  first_stage l1_need zero i counts = pure counts
  first_stage l1_need (suc left) i counts = do
    out ← score_row_in_place l1_need i
    modify (note_row i out)
    first_stage l1_need left (i + 1) (if out.passed then count_decision allow counts else counts)

  module _ (route_metas : ℕ → Option (QuickRouteMeta F)) where
    abbrev pub survivor_stage : L2Policy F → ℕ → M F E (F × Decision)
    survivor_stage policy i = do
      row ← gets (λ s. slice s.batch_l1 (i * engine.policy.l1_dim) engine.policy.l1_dim)
      feat ← lift (or_panic row)
      scored ← gets (λ s. get_elem? s.batch_l1_scores i)
      l1_score ← lift (or_panic scored)
      l2_stage text engine.runtime policy feat l1_score (route_metas i)

    -- The second loop, over the survivors.
    unfoldable pub second_stage : L2Policy F → List ℕ → ℕ → DecisionCounts → M F E Batch128Counts
    second_stage policy [] used counts = pure (used, counts)
    second_stage policy (i ∷ survivors) used counts = do
      l2 ← survivor_stage policy i
      second_stage policy survivors (used + 1) (count_decision l2.1 counts)

    abbrev batch_with_l2 : L2Policy F → ℕ → M F E Batch128Counts
    batch_with_l2 policy l1_need = do
      prepare_batch_l1
      modify (λ s. record s {
        batch_l1_scores = ensure_len s.batch_l1_scores 128 f.zero_f;
        batch_survivors = [];
      })
      counts ← first_stage l1_need 128 0 no_decisions
      survivors ← gets (λ s. s.batch_survivors)
      second_stage policy survivors 0 counts

    unfoldable pub predict_batch128_counts_from_l1_bytes_with_meta :
        (ℕ → Elapsed) → M F E Batch128Counts
    predict_batch128_counts_from_l1_bytes_with_meta clock = do
      l1_need ← lift (ok_or (checked_mul engine.policy.l1_dim 4) l1_dim_too_large)
      elim (engine.policy.l2) [
        | none ↦ predict_l1_only_batch128_from_bytes clock >>= λ outs.
            pure (0, count_l1_only outs no_decisions)
        | some policy ↦ batch_with_l2 policy l1_need
      ]
