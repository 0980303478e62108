-- ===== src/Protocol/Scored.antt =====
-- A batch of 128 routed rows from the client's body to the counts that the client reads.
use riskanvil.Base.{
  ℕ, zero, suc, ◌+◌, ◌*◌, ◌^◌, ◌≤◌, ◌<◌, ◌≡◌, Bool, true, Option, none, some, List, [], arith, ok,
  map, length, Result, get_or, ap, ◌∙◌,
}
use riskanvil.Base.Float.{Float32}
use riskanvil.Core.Schema.{allow, deny, manual_review, degrade_allow, QuickRouteMeta}
use riskanvil.Core.Policy.{L2Policy}
use riskanvil.Core.Policy.SegKey.{Formats}
use riskanvil.Core.Engine.Scratch.{QuickTlsScratch}
use riskanvil.Core.Engine.Predict.{
  QuickScorerEngine, QuickPredictOutput, Elapsed, predict_from_l1_bytes_with_meta,
}
use riskanvil.Core.Engine.Batch.{DecisionCounts, predict_batch128_counts_from_l1_bytes_with_meta}
use riskanvil.Core.Engine.Outcome.{IsLoaded}
use riskanvil.Core.Engine.Counting.{count_from, is_decision}
use riskanvil.Core.Engine.BatchSingle.{counts_of, batch_counts-eq-single}
use riskanvil.Core.Pipeline.{Serve, score_quick_dense_batch128_http_ack_lite}
use riskanvil.Server.Batch.{
  Batch128Shape, Batch128Refs, batch128_shape_for_content_len, parse_batch128_refs,
}
use riskanvil.Server.Acks.{
  AckError, AppState, score, score_dense_batch_binary_request_http_ack_v1, ack_of, counts_list,
  execute_h1_batch_fast_request, execute_h1_batch_fixed_request,
  score_dense_batch_binary_request_http_ack_v1_batch128_fixed,
}
use riskanvil.Bench.Decode.{decode_batch_ack_body}
use riskanvil.Protocol.Replies.{decode-encode_batch_aggregate_ack}
use riskanvil.Protocol.Requests.{Entry, AllFit, as_record}
use riskanvil.Protocol.Records.{engine_only, engine_only-eq}
use riskanvil.Protocol.Batches.{as_refs, batch_body, parse_batch128-batch_body, length-batch_body}

-- The fixed shape is found from the length of a routed batch alone.
shape_of_routed :
    (dim : ℕ)
    → 40 + dim * 4 < 2 ^ 32
    → batch128_shape_for_content_len dim (16 + 128 * (40 + dim * 4))
      ≡ some (record {
        has_route_meta = true;
        record_bytes = 40 + dim * 4;
        content_len = 16 + 128 * (40 + dim * 4);
      })
unfolding batch128_shape_for_content_len
shape_of_routed dim h = ground arith

count_from-le : (p : ℕ → Bool) (left i : ℕ) → count_from p i left ≤ left
unfolding count_from
count_from-le p zero i = omega arith
count_from-le p (suc left) i = ground (arith, count_from-le p left (i + 1))

-- The client reads the counts of an ack for 128 predictions.
decode-ack_of :
    {F : Type 0} (outs : ℕ → QuickPredictOutput F)
    → decode_batch_ack_body (ack_of 128 (counts_of outs))
      ≡ some (record {
        record_count = 128;
        ok_count = 128;
        used_l2_count = (counts_of outs).0;
        decision_counts = counts_list (counts_of outs).1;
      })
decode-ack_of outs =
    let small = λ (p : ℕ → Bool). count_from-le p 128 0 in
    let bound = λ (p : ℕ → Bool). below (count_from p 0 128) (small p) in
    decode-encode_batch_aggregate_ack 128 128 (counts_of outs).0 (counts_of outs).1.c0
      (counts_of outs).1.c1 (counts_of outs).1.c2 (counts_of outs).1.c3 0 (omega arith)
      (omega arith) (bound (λ i. (outs i).used_l2))
      (bound (λ i. is_decision allow (outs i).decision))
      (bound (λ i. is_decision deny (outs i).decision))
      (bound (λ i. is_decision manual_review (outs i).decision))
      (bound (λ i. is_decision degrade_allow (outs i).decision)) (omega arith)
  where
    below : (n : ℕ) → n ≤ 128 → n < 2 ^ 32
    below n h = omega arith

module _ {F E : Type 0} ⦃f : Float32 F⦄ (text : Formats F) (engine : QuickScorerEngine F E)
    (clock : ℕ → Elapsed) where
  -- A length with a fixed shape goes to the fixed handler.
  dispatch :
      (len : ℕ) (shape : Batch128Shape) (body : List ℕ) (s : QuickTlsScratch F)
      → batch128_shape_for_content_len engine.policy.l1_dim len ≡ some shape
      → execute_h1_batch_fast_request text (engine_only engine) clock score (some len) body s
        ≡ score_dense_batch_binary_request_http_ack_v1_batch128_fixed text
            (engine_only engine)
            clock
            body
            shape.has_route_meta
            shape.record_bytes
            s
  unfolding execute_h1_batch_fast_request execute_h1_batch_fixed_request
  dispatch len shape body s h = ap (λ o. run o s) h
    where
      run : Option Batch128Shape → Serve F (AckError E) (List ℕ)
      run o = elim o [
        | some found ↦
            execute_h1_batch_fixed_request text (engine_only engine) clock score found body
        | none ↦ score_dense_batch_binary_request_http_ack_v1 text (engine_only engine) clock body
      ]

  -- The fixed handler acknowledges the counts of the engine.
  fixed_reply :
      (body : List ℕ) (routed : Bool) (rb : ℕ) (refs : Batch128Refs F) (c : ℕ × DecisionCounts)
      (s : QuickTlsScratch F)
      → parse_batch128_refs body routed rb ≡ ok refs
      → (predict_batch128_counts_from_l1_bytes_with_meta text engine
          (λ i. get_or refs.rows i [])
          (λ i. get_or refs.metas i none)
          clock
          s).0
        ≡ ok c
      → (score_dense_batch_binary_request_http_ack_v1_batch128_fixed text
          (engine_only engine)
          clock
          body
          routed
          rb
          s).0
        ≡ ok (ack_of 128 c)
  unfolding score_dense_batch_binary_request_http_ack_v1_batch128_fixed
      score_quick_dense_batch128_http_ack_lite
  fixed_reply body routed rb refs c s parses counted = ground (arith, parses, counted)

  -- The row and the route of record `i`.
  abbrev pub row_at : List (Entry F) → ℕ → List ℕ
  row_at es i = get_or (as_refs (map as_record es)).rows i []

  abbrev pub meta_at : List (Entry F) → ℕ → Option (QuickRouteMeta F)
  meta_at es i = get_or (as_refs (map as_record es)).metas i none

  -- The client sends the body of 128 routed rows, whose fields fit their widths and whose length
  -- is the engine's, with records of fewer than 2^32 bytes, to the scoring endpoint of a server
  -- that has this engine and no standalone sidecar, with the body's length as content length.
  -- Where the engine is as load leaves it, has a second stage, and each row has a prediction on
  -- its own, with any buffers, the server answers with a reply, and the client reads from it 128
  -- records, 128 scored, and the numbers of second-stage rows and of each decision among the
  -- single predictions.
  pub batch_reply-counts :
      (state : AppState F E) (policy : L2Policy F) (es : List (Entry F))
      (outs : ℕ → QuickPredictOutput F) (ss : ℕ → QuickTlsScratch F) (s : QuickTlsScratch F)
      → state.quick ≡ some engine
      → state.standalone ≡ none
      → IsLoaded engine
      → engine.policy.l2 ≡ some policy
      → AllFit engine.policy.l1_dim es
      → 40 + engine.policy.l1_dim * 4 < 2 ^ 32
      → length es ≡ 128
      → ((i : ℕ)
          → i < 128
          → (predict_from_l1_bytes_with_meta text engine
              (row_at es i)
              (meta_at es i)
              (clock i)
              (ss i)).0
            ≡ ok (outs i))
      → (reply : List ℕ) × ((execute_h1_batch_fast_request text state clock score
            (some (length (batch_body engine.policy.l1_dim es)))
            (batch_body engine.policy.l1_dim es)
            s).0
          ≡ ok reply)
        × (decode_batch_ack_body reply
            ≡ some (record {
              record_count = 128;
              ok_count = 128;
              used_l2_count = (counts_of outs).0;
              decision_counts = counts_list (counts_of outs).1;
            }))
  batch_reply-counts state policy es outs ss s has_engine no_sidecar loaded two fit d n all =
      let dim = engine.policy.l1_dim in
      let len = length-batch_body dim es fit ∙ ap (λ k. 16 + k * (40 + dim * 4)) n in
      let shape : Batch128Shape = record {
        has_route_meta = true;
        record_bytes = 40 + dim * 4;
        content_len = 16 + 128 * (40 + dim * 4);
      } in
      let refs = parse_batch128-batch_body dim es fit d n in
      let counts =
        batch_counts-eq-single text engine (row_at es) (meta_at es) clock policy outs ss s loaded
          two all in
      (
        ack_of 128 (counts_of outs),
        rw (engine_only-eq state engine has_engine no_sidecar) (
            ap (λ (r : Result (AckError E) (List ℕ) × QuickTlsScratch F). r.0)
              (dispatch (length (batch_body dim es)) shape (batch_body dim es) s
                (rw len (shape_of_routed dim d)))
            ∙ fixed_reply (batch_body dim es) true (40 + dim * 4) (as_refs (map as_record es))
                (counts_of outs) s refs counts),
        decode-ack_of outs,
      )
