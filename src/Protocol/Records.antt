-- ===== src/Protocol/Records.antt =====
-- The record loop of the scoring endpoint, which takes any number of records.
use riskanvil.Base.{
  ℕ, zero, suc, ◌+◌, ◌*◌, ◌≡◌, refl, Bool, Option, none, some, List, [], ◌∷◌, arith, if◌then◌else◌,
  ok, err, Result, inl, inr, ap, ◌∙◌, Option-cases, Result-cases,
}
use mathlib.Core.Path.{subst}
use riskanvil.Base.Bytes.{slice}
use riskanvil.Base.Float.{Float32}
use riskanvil.Core.Schema.{Decision, allow, deny, manual_review, degrade_allow, QuickRouteMeta}
use riskanvil.Core.Policy.SegKey.{Formats}
use riskanvil.Core.Engine.Scratch.{QuickTlsScratch}
use riskanvil.Core.Engine.Predict.{
  QuickScorerEngine, QuickPredictOutput, Elapsed, predict_from_l1_bytes_with_meta,
}
use riskanvil.Core.Engine.Batch.{DecisionCounts, count_decision}
use riskanvil.Core.Engine.Counting.{count_from, is_decision}
use riskanvil.Core.Pipeline.{
  map_err, BatchScoreLite, Serve, ◌>>=◌, score_quick_dense_bytes_with_meta_batch_lite,
}
use riskanvil.Server.Dense.{parse_batch_record_ref}
use riskanvil.Server.Batch.{batch_records}
use riskanvil.Server.Acks.{AppState, AckError, core_failed, score_records}

-- What the loop adds to its counts for the predictions from `i` on.
abbrev pub add_counts :
    {F : Type 0} → (ℕ → QuickPredictOutput F) → ℕ → ℕ → ℕ × DecisionCounts → ℕ × DecisionCounts
add_counts outs i left (used, c) = (
  used + count_from (λ i. (outs i).used_l2) i left,
  record {
    c0 = c.c0 + count_from (λ i. is_decision allow (outs i).decision) i left;
    c1 = c.c1 + count_from (λ i. is_decision deny (outs i).decision) i left;
    c2 = c.c2 + count_from (λ i. is_decision manual_review (outs i).decision) i left;
    c3 = c.c3 + count_from (λ i. is_decision degrade_allow (outs i).decision) i left;
    c4 = c.c4;
  },
)

add_counts-zero :
    {F : Type 0} (outs : ℕ → QuickPredictOutput F) (i used : ℕ) (c : DecisionCounts)
    → (used, c) ≡ add_counts outs i 0 (used, c)
unfolding count_from
add_counts-zero outs i used c = ground arith

add_counts-suc :
    {F : Type 0} (outs : ℕ → QuickPredictOutput F) (i left used : ℕ) (c : DecisionCounts)
    → add_counts outs
        (i + 1)
        left
        (used + (if (outs i).used_l2 then 1 else 0), count_decision (outs i).decision c)
      ≡ add_counts outs i (suc left) (used, c)
unfolding count_from count_decision
add_counts-suc outs i left used c = decision_cases (outs i).decision refl
  where
    decision_cases :
        (d : Decision)
        → (outs i).decision ≡ d
        → add_counts outs
            (i + 1)
            left
            (used + (if (outs i).used_l2 then 1 else 0), count_decision (outs i).decision c)
          ≡ add_counts outs i (suc left) (used, c)
    decision_cases allow p = ground (arith, p)
    decision_cases deny p = ground (arith, p)
    decision_cases manual_review p = ground (arith, p)
    decision_cases degrade_allow p = ground (arith, p)

-- A step with a value hands it on.
pub step_value :
    {F X A B : Type 0} (m : Serve F X A) (k : A → Serve F X B) (s : QuickTlsScratch F) (a : A)
    → (m s).0 ≡ ok a
    → (m >>= k) s ≡ k a (m s).1
step_value {F} {X} {A} {B} m k s a h = ap run h
  where
    run : Result X A → Result X B × QuickTlsScratch F
    run r = elim r [ err e ↦ (err e, (m s).1) | ok a ↦ k a (m s).1 ]

-- A server with an engine and without the prepared file of a sidecar.
abbrev pub engine_only : {F E : Type 0} → QuickScorerEngine F E → AppState F E
engine_only engine = record { quick = some engine; standalone = none }

pub engine_only-eq :
    {F E : Type 0} (state : AppState F E) (engine : QuickScorerEngine F E)
    → state.quick ≡ some engine
    → state.standalone ≡ none
    → state ≡ engine_only engine
engine_only-eq state engine has_engine no_sidecar =
    let parts : state ≡ record { quick = state.quick; standalone = state.standalone } = refl in
    parts ∙ rw (has_engine, no_sidecar) refl

module _ {F E : Type 0} ⦃f : Float32 F⦄ (text : Formats F) (engine : QuickScorerEngine F E)
    (clock : ℕ → Elapsed) (outs : ℕ → QuickPredictOutput F) where
  abbrev Predicts : ℕ → List ℕ × Option (QuickRouteMeta F) → Type 0
  Predicts i r =
      (s : QuickTlsScratch F)
      → (predict_from_l1_bytes_with_meta text engine r.0 r.1 (clock i) s).0 ≡ ok (outs i)

  -- Record `i + j` has the prediction `outs (i + j)`.
  abbrev pub AllPredict : ℕ → List (List ℕ × Option (QuickRouteMeta F)) → Type 0
  AllPredict i [] = Unit
  AllPredict i (r ∷ rs) = Predicts i r × AllPredict (i + 1) rs

  lite_value :
      (r : List ℕ × Option (QuickRouteMeta F)) (i : ℕ) (s : QuickTlsScratch F)
      → Predicts i r
      → (map_err core_failed
          (score_quick_dense_bytes_with_meta_batch_lite text (some engine) r.0 r.1 (clock i))
          s).0
        ≡ ok (record { decision = (outs i).decision; used_l2 = (outs i).used_l2 })
  unfolding score_quick_dense_bytes_with_meta_batch_lite
  lite_value r i s h = ground (arith, h s)

  module _ (body : List ℕ) (routed : Bool) (rb : ℕ) where
    -- The records that the parsers find are scored one by one, and their counts added up.
    pub score_records-eq :
        (left i used : ℕ) (counts : DecisionCounts) (s : QuickTlsScratch F)
        (recs : List (List ℕ × Option (QuickRouteMeta F)))
        → batch_records body routed rb left i ≡ ok recs
        → AllPredict i recs
        → (score_records text (engine_only engine) clock body routed rb left i used counts s).0
          ≡ ok (add_counts outs i left (used, counts))
    unfolding score_records batch_records
    score_records-eq zero i used counts s recs parsed all =
        ap ok (add_counts-zero outs i used counts)
    score_records-eq (suc left) i used counts s recs parsed all =
        elim (Option-cases (slice body (16 + i * rb) rb)) [
          | inl p ↦ absurd (ground (arith, p, parsed))
          | inr (rec, p) ↦ elim (Result-cases (parse_batch_record_ref {F = F} rec routed)) [
            | inl (e, q) ↦ absurd (ground (arith, p, q, parsed))
            | inr (r, q) ↦ elim (Result-cases (batch_records {F = F} body routed rb left (i + 1))) [
              | inl (e, t) ↦ absurd (ground (arith, p, q, t, parsed))
              | inr (rs, t) ↦
                  let e : recs ≡ r ∷ rs = ground (arith, p, q, t, parsed) in
                  let (one, rest) = subst (AllPredict i) e all in
                  let lite : Serve F (AckError E) BatchScoreLite = map_err core_failed (
                    score_quick_dense_bytes_with_meta_batch_lite text (some engine) r.0 r.1
                      (clock i)) in
                  let next = λ (l : BatchScoreLite).
                    score_records text (engine_only engine) clock body routed rb left (i + 1)
                      (used + (if l.used_l2 then 1 else 0)) (count_decision l.decision counts) in
                  let used' = used + (if (outs i).used_l2 then 1 else 0) in
                  let counts' = count_decision (outs i).decision counts in
                  rw (p, q)
                    (ap (λ (x : Result (AckError E) (ℕ × DecisionCounts) × QuickTlsScratch F). x.0)
                        (step_value lite next s
                          (record { decision = (outs i).decision; used_l2 = (outs i).used_l2 })
                          (lite_value r i s one))
                      ∙ (score_records-eq left (i + 1) used' counts' (lite s).1 rs t rest
                          ∙ ap ok (add_counts-suc outs i left used counts)))
            ]
          ]
        ]
