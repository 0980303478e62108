-- ===== src/Protocol/Replies.antt =====
-- A reply of the server, read back by the client.
use mathlib.Core.List.{append_assoc}
use riskanvil.Base.{
  ℕ, ◌+◌, ◌*◌, ◌/◌, ◌%◌, ◌^◌, ◌<◌, ◌≡◌, refl, some, List, [], ◌∷◌, ◌++◌, arith, ok,
}
use riskanvil.Base.Bytes.{word_bytes, half_bytes}
use riskanvil.Core.Schema.{TimingsUs, ScoreResponse}
use riskanvil.Server.Reply.{
  decision_to_u8, clamp_u32, rsk1_flags, qsb2_flags, encode_rsk1_response, encode_qsb2_response,
  encode_qsb2_record, encode_batch_aggregate_ack,
}
use riskanvil.Bench.Decode.{
  StageTimingsUs, no_timings, qsb2, rsk1, decode_batch_ack_body, decode_body,
}

-- The client reads the counts of a batch ack, each below 2^32, as the server wrote them.
pub decode-encode_batch_aggregate_ack :
    (record_count ok_count used_l2 c0 c1 c2 c3 c4 : ℕ)
    → record_count < 2 ^ 32
    → ok_count < 2 ^ 32
    → used_l2 < 2 ^ 32
    → c0 < 2 ^ 32
    → c1 < 2 ^ 32
    → c2 < 2 ^ 32
    → c3 < 2 ^ 32
    → c4 < 2 ^ 32
    → decode_batch_ack_body
        (encode_batch_aggregate_ack record_count ok_count used_l2 (c0 ∷ c1 ∷ c2 ∷ c3 ∷ c4 ∷ []))
      ≡ some (record {
        record_count = record_count;
        ok_count = ok_count;
        used_l2_count = used_l2;
        decision_counts = c0 ∷ c1 ∷ c2 ∷ c3 ∷ c4 ∷ [];
      })
unfolding decode_batch_ack_body encode_batch_aggregate_ack
decode-encode_batch_aggregate_ack n k u c0 c1 c2 c3 c4 hn hk hu h0 h1 h2 h3 h4 = rw (
  word_bytes n hn,
  word_bytes k hk,
  word_bytes u hu,
  word_bytes c0 h0,
  word_bytes c1 h1,
  word_bytes c2 h2,
  word_bytes c3 h3,
  word_bytes c4 h4,
)

clamp_u32-lt : (x : ℕ) → clamp_u32 x < 2 ^ 32
unfolding clamp_u32
clamp_u32-lt x = ground arith

clamp_u32_word :
    (x : ℕ)
    → let c = clamp_u32 x in
      c % 256 + c / 256 % 256 * 256 + c / 65536 % 256 * 65536 + c / 16777216 % 256 * 16777216 ≡ c
clamp_u32_word x = word_bytes (clamp_u32 x) (clamp_u32-lt x)

abbrev clamped : TimingsUs → StageTimingsUs
clamped ts = record {
  parse = clamp_u32 ts.parse;
  feature = clamp_u32 ts.feature;
  router = clamp_u32 ts.router;
  l1 = clamp_u32 ts.l1;
  l2 = clamp_u32 ts.l2;
  serialize = clamp_u32 ts.serialize;
}

rsk1_flags-lt : (resp : ScoreResponse) → rsk1_flags resp < 2 ^ 16
unfolding rsk1_flags
rsk1_flags-lt resp = ground arith

-- Every single-row reply RSK1 is read back by the client with its decision, its flags and its
-- timings, each timing clamped to 32 bits.
pub decode_body-encode_rsk1_response :
    (trace_id : ℕ) (resp : ScoreResponse)
    → decode_body (encode_rsk1_response trace_id resp)
      ≡ ok (
          rsk1 (record {
            decision = decision_to_u8 resp.decision;
            flags = rsk1_flags resp;
            timings = clamped resp.timings_us;
          }))
unfolding decode_body encode_rsk1_response
decode_body-encode_rsk1_response trace_id resp =
    let ts = resp.timings_us in
    rw (
      half_bytes (rsk1_flags resp) (rsk1_flags-lt resp),
      clamp_u32_word ts.parse,
      clamp_u32_word ts.feature,
      clamp_u32_word ts.router,
      clamp_u32_word ts.l1,
      clamp_u32_word ts.l2,
      clamp_u32_word ts.serialize,
    )

-- Every single-row reply QSB2 is read back by the client with its decision and its flags, and
-- without timings.
pub decode_body-encode_qsb2_response :
    (trace_id : ℕ) (resp : ScoreResponse)
    → decode_body (encode_qsb2_response trace_id resp)
      ≡ ok (
          qsb2 (record {
            decision = decision_to_u8 resp.decision;
            flags = qsb2_flags resp;
            timings = no_timings;
          }))
unfolding decode_body encode_qsb2_response
decode_body-encode_qsb2_response trace_id resp = refl

-- The record that is appended to a batch reply is the single-row reply QSB2.
pub encode_qsb2_record-eq :
    (trace_id : ℕ) (resp : ScoreResponse) (out : List ℕ)
    → encode_qsb2_record trace_id resp out ≡ out ++ encode_qsb2_response trace_id resp
unfolding encode_qsb2_record encode_qsb2_response
encode_qsb2_record-eq trace_id resp out = simp append_assoc
