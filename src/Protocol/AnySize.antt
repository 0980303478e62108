-- ===== src/Protocol/AnySize.antt =====
-- A batch of routed rows that is not 128 of them: the endpoint takes its records one by one.
use riskanvil.Base.{
  ℕ, ◌+◌, ◌*◌, ◌<◌, ◌^◌, ◌≡◌, ◌≢◌, true, false, none, some, List, ◌==◌, arith, ok, length, map,
  Result, ap,
}
use riskanvil.Base.Float.{Float32}
use riskanvil.Core.Policy.SegKey.{Formats}
use riskanvil.Core.Engine.Scratch.{QuickTlsScratch}
use riskanvil.Core.Engine.Predict.{QuickScorerEngine, QuickPredictOutput, Elapsed}
use riskanvil.Core.Engine.Batch.{DecisionCounts, no_decisions}
use riskanvil.Core.Pipeline.{pure}
use riskanvil.Server.Batch.{BatchShape, parse_batch_dense_payload_le}
use riskanvil.Server.Acks.{
  AckError, AppState, ack_of, score_records, score_dense_batch_binary_request_http_ack_v1,
}
use riskanvil.Bench.Encode.{encode_batch_header}
use riskanvil.Protocol.Requests.{Entry, AllFit, as_record, batch_records-encode_records}
use riskanvil.Protocol.Batches.{batch_body, parse-batch_body, length-encode_batch_header}
use riskanvil.Protocol.Records.{
  AllPredict, add_counts, step_value, engine_only, engine_only-eq, score_records-eq,
}

module _ {F E : Type 0} ⦃f : Float32 F⦄ (text : Formats F) (engine : QuickScorerEngine F E)
    (clock : ℕ → Elapsed) where
  not_128 :
      (body : List ℕ) (shape : BatchShape) (c : ℕ × DecisionCounts) (s : QuickTlsScratch F)
      → parse_batch_dense_payload_le body engine.policy.l1_dim ≡ ok shape
      → shape.record_count ≢ 128
      → (score_records text
          (engine_only engine)
          clock
          body
          shape.has_route_meta
          shape.record_bytes
          shape.record_count
          0
          0
          no_decisions
          s).0
        ≡ ok c
      → (score_dense_batch_binary_request_http_ack_v1 text (engine_only engine) clock body s).0
        ≡ ok (ack_of shape.record_count c)
  unfolding score_dense_batch_binary_request_http_ack_v1
  not_128 body shape c s parsed other scored =
      let test : (shape.record_count == 128) ≡ false = ground (arith, other) in
      rw (parsed, test)
        (ap (λ (r : Result (AckError E) (List ℕ) × QuickTlsScratch F). r.0)
          (step_value
            (score_records text (engine_only engine) clock body shape.has_route_meta
              shape.record_bytes shape.record_count 0 0 no_decisions)
            (λ counts. pure (ack_of shape.record_count counts)) s c scored))

  -- The client sends a body of routed rows, whose fields fit their widths and whose length is the
  -- engine's, with records of fewer than 2^32 bytes, at least one and fewer than 2^32 but not 128,
  -- to the endpoint of any size of a server that has this engine and no standalone sidecar. Where
  -- each row has a prediction on its own, whatever the buffers hold, the endpoint returns the ack
  -- of that many records with the numbers of second-stage rows and of each decision among the
  -- predictions.
  pub any_size_reply-counts :
      (state : AppState F E) (es : List (Entry F)) (outs : ℕ → QuickPredictOutput F)
      (s : QuickTlsScratch F)
      → state.quick ≡ some engine
      → state.standalone ≡ none
      → AllFit engine.policy.l1_dim es
      → 40 + engine.policy.l1_dim * 4 < 2 ^ 32
      → 0 < length es
      → length es < 2 ^ 32
      → length es ≢ 128
      → AllPredict text engine clock outs 0 (map as_record es)
      → (score_dense_batch_binary_request_http_ack_v1 text state clock
          (batch_body engine.policy.l1_dim es)
          s).0
        ≡ ok (ack_of (length es) (add_counts outs 0 (length es) (0, no_decisions)))
  any_size_reply-counts state es outs s has_engine no_sidecar fit d pos n other all =
      let dim = engine.policy.l1_dim in
      let head = encode_batch_header (length es) (40 + dim * 4) true in
      let body = batch_body dim es in
      let shape : BatchShape = record {
        has_route_meta = true;
        record_count = length es;
        record_bytes = 40 + dim * 4;
      } in
      let recs =
        batch_records-encode_records dim 0 head es (omega arith) fit
          (omega (arith, length-encode_batch_header (length es) (40 + dim * 4) true)) in
      rw (engine_only-eq state engine has_engine no_sidecar) (
        not_128 body shape (add_counts outs 0 (length es) (0, no_decisions)) s
          (parse-batch_body dim es fit d pos n) other
          (score_records-eq text engine clock outs body true (40 + dim * 4) (length es) 0 0
            no_decisions s (map as_record es) recs all))
