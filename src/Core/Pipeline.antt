-- ===== src/Core/Pipeline.antt =====
-- crates/risk-core/src/pipeline.rs: the scoring calls that the servers make, over the engine and
-- over the runtime that scores second-stage rows of a prepared file by their index.
pub mod Standalone
pub mod Sampling
pub mod Bounds
use riskanvil.Base.{
  ℕ, zero, suc, ◌+◌, ◌%◌, Bool, true, false, Option, none, some, List, [], ◌∷◌, ◌++◌, ◌==◌,
  if◌then◌else◌, Result, ok, err, ok_or,
}
use riskanvil.Base.Int.{ℤ, pos}
use riskanvil.Base.Float.{Float32}
use riskanvil.Core.Schema.{Decision, allow, deny, manual_review, QuickRouteMeta}
use riskanvil.Core.Policy.SegKey.{Formats}
use riskanvil.Core.Engine.Scratch.{QuickTlsScratch, EngineError, M}
use riskanvil.Core.Engine.Predict.{
  QuickScorerEngine, QuickPredictOutput, QuickL1PredictOutput, Elapsed,
  predict_from_l1_bytes_with_meta, predict_l1_only_from_bytes,
}
use riskanvil.Core.Engine.Batch.{
  DecisionCounts, no_decisions, count_decision, predict_l1_only_batch128_from_bytes,
  predict_batch128_counts_from_l1_bytes_with_meta,
}

-- `panicked` is the remainder by a file of no rows.
pub data CoreError (E : Type 0) : Type 0 where
  not_enabled tau_missing panicked : CoreError E
  engine_failed : EngineError E → CoreError E
  standalone_failed : E → CoreError E

pub record BatchScoreLite : Type 0 where
  pub decision : Decision
  pub used_l2 : Bool

pub data StandaloneL2TauMode (F : Type 0) : Type 0 where
  request : StandaloneL2TauMode F
  fixed : F → StandaloneL2TauMode F

-- `StandaloneL2Runtime` as this code sees it: the number of rows of its file, and whether the row
-- with an index is rejected at a threshold and a fold, which depends on these alone.
pub record StandaloneL2 (F : Type 0) (E : Type 0) : Type 0 where
  pub feat_rows : ℕ
  pub predict_l2_row_by_index : ℕ → F → ℤ → Result E Bool

-- A call of the server on the buffers of its thread.
abbrev pub Serve : Type 0 → Type 0 → Type 0 → Type 0
Serve F X A = QuickTlsScratch F → Result X A × QuickTlsScratch F

infixl 5 ◌>>=◌ ◌>>◌
abbrev pub ◌>>=◌ : {F X A B : Type 0} → Serve F X A → (A → Serve F X B) → Serve F X B
◌>>=◌ m k s = let r = m s in elim (r.0) [ err e ↦ (err e, r.1) | ok a ↦ k a r.1 ]

abbrev pub ◌>>◌ : {F X B : Type 0} → Serve F X (Unit {0}) → Serve F X B → Serve F X B
m >> k = m >>= λ _. k

abbrev pub pure : {F X A : Type 0} → A → Serve F X A
pure a s = (ok a, s)

abbrev pub lift : {F X A : Type 0} → Result X A → Serve F X A
lift r s = (r, s)

-- `map_err`
abbrev pub map_err : {F X Y A : Type 0} → (X → Y) → Serve F X A → Serve F Y A
map_err g m s = let r = m s in (elim (r.0) [ err e ↦ err (g e) | ok a ↦ ok a ], r.1)

-- What is left of a row for the second stage: its index, its fold and its threshold.
pub record PendingL2 (F : Type 0) : Type 0 where
  pub sidecar_row_idx : ℕ
  pub fold_id : ℤ
  pub tau : F

module _ {F E : Type 0} ⦃f : Float32 F⦄ (text : Formats F)
    (quick : Option (QuickScorerEngine F E)) where
  abbrev pub enabled : Serve F (CoreError E) (QuickScorerEngine F E)
  enabled = lift (ok_or quick not_enabled)

  unfoldable pub predict_quick_l1_only_bytes :
      List ℕ → Elapsed → Serve F (CoreError E) (QuickL1PredictOutput F)
  predict_quick_l1_only_bytes row us = do
    engine ← enabled
    map_err engine_failed (predict_l1_only_from_bytes text engine row us)

  unfoldable pub score_quick_dense_bytes_with_meta_batch_lite :
      List ℕ → Option (QuickRouteMeta F) → Elapsed → Serve F (CoreError E) BatchScoreLite
  score_quick_dense_bytes_with_meta_batch_lite row route_meta us = do
    engine ← enabled
    out ← map_err engine_failed (predict_from_l1_bytes_with_meta text engine row route_meta us)
    pure (record { decision = out.decision; used_l2 = out.used_l2 })

  unfoldable pub score_quick_dense_batch128_http_ack_lite :
      (ℕ → List ℕ)
      → (ℕ → Option (QuickRouteMeta F))
      → (ℕ → Elapsed)
      → Serve F (CoreError E) (ℕ × DecisionCounts)
  score_quick_dense_batch128_http_ack_lite rows metas clock = do
    engine ← enabled
    map_err engine_failed
        (predict_batch128_counts_from_l1_bytes_with_meta text engine rows metas clock)

  abbrev pub meta_tau : Option (QuickRouteMeta F) → Option F
  meta_tau none = none
  meta_tau (some m) = m.l2_tau_used

  -- The threshold by the mode.
  abbrev pub standalone_tau :
      StandaloneL2TauMode F → Option (QuickRouteMeta F) → Result (CoreError E) F
  standalone_tau request route_meta = ok_or (meta_tau route_meta) tau_missing
  standalone_tau (fixed v) route_meta = ok v

  abbrev pub fold_or_zero : Option (QuickRouteMeta F) → ℤ
  fold_or_zero none = pos 0
  fold_or_zero (some m) = m.fold_id

  abbrev pub row_idx_or : Option (QuickRouteMeta F) → ℕ → ℕ
  row_idx_or none i = i
  row_idx_or (some m) i = m.row_idx

  -- The row at an index that wraps around at the end of the file.
  abbrev pub standalone_row : StandaloneL2 F E → ℕ → F → ℤ → Result (CoreError E) Bool
  standalone_row rt idx tau fold =
      if rt.feat_rows == 0
      then err panicked
      else elim (rt.predict_l2_row_by_index (idx % rt.feat_rows) tau fold) [
        | err e ↦ err (standalone_failed e)
        | ok reject ↦ ok reject
      ]

  module _ (rt : StandaloneL2 F E) (tau_mode : StandaloneL2TauMode F) where
    -- The first loop over the rows from `i` on: the passes are counted, and the rest is kept.
    unfoldable pub collect_pending :
        List (QuickL1PredictOutput F)
        → (ℕ → Option (QuickRouteMeta F))
        → ℕ
        → DecisionCounts
        → Result (CoreError E) (DecisionCounts × List (PendingL2 F))
    collect_pending [] metas i counts = ok (counts, [])
    collect_pending (out ∷ outs) metas i counts =
        if out.passed
        then collect_pending outs metas (i + 1) (count_decision allow counts)
        else elim (standalone_tau tau_mode (metas i)) [
          | err e ↦ err e
          | ok tau ↦ elim (collect_pending outs metas (i + 1) counts) [
            | err e ↦ err e
            | ok (c, rest) ↦ ok (
              c,
              record {
                sidecar_row_idx = row_idx_or (metas i) i;
                fold_id = fold_or_zero (metas i);
                tau = tau;
              }
                  ∷ rest,
            )
          ]
        ]

    -- The second loop.
    unfoldable pub score_pending :
        List (PendingL2 F) → ℕ → DecisionCounts → Result (CoreError E) (ℕ × DecisionCounts)
    score_pending [] used counts = ok (used, counts)
    score_pending (p ∷ pending) used counts =
        elim (standalone_row rt p.sidecar_row_idx p.tau p.fold_id) [
          | err e ↦ err e
          | ok reject ↦
              score_pending pending (used + 1)
                (count_decision (if reject then deny else manual_review) counts)
        ]

    abbrev pub score_both :
        List (QuickL1PredictOutput F)
        → (ℕ → Option (QuickRouteMeta F))
        → Result (CoreError E) (ℕ × DecisionCounts)
    score_both outs metas = elim (collect_pending outs metas 0 no_decisions) [
      | err e ↦ err e
      | ok (counts, pending) ↦ score_pending pending 0 counts
    ]

    unfoldable pub score_standalone_batch128_http_ack_lite :
        (ℕ → List ℕ)
        → (ℕ → Option (QuickRouteMeta F))
        → (ℕ → Elapsed)
        → Serve F (CoreError E) (ℕ × DecisionCounts)
    score_standalone_batch128_http_ack_lite rows metas clock = do
      engine ← enabled
      outs ← map_err engine_failed (predict_l1_only_batch128_from_bytes text engine rows clock)
      lift (score_both outs metas)

    unfoldable pub score_standalone_l2_from_l1_batch_lite :
        QuickL1PredictOutput F → Option (QuickRouteMeta F) → ℕ → Result (CoreError E) BatchScoreLite
    score_standalone_l2_from_l1_batch_lite l1_out route_meta sidecar_row_idx =
        if l1_out.passed
        then ok (record { decision = allow; used_l2 = false })
        else elim (standalone_tau tau_mode route_meta) [
          | err e ↦ err e
          | ok tau ↦ elim (standalone_row rt sidecar_row_idx tau (fold_or_zero route_meta)) [
            | err e ↦ err e
            | ok reject ↦
                ok (record { decision = if reject then deny else manual_review; used_l2 = true })
          ]
        ]
