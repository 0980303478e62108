-- ===== src/Examples/Messages.antt =====
-- Messages of the client and of the server.
use riskanvil.Base.{
  ℕ, true, some, List, [], ◌∷◌, ok, ◌≡◌, refl, arith, map, length, replicate, zero, suc, ap, ◌++◌,
  ◌^◌,
}
use riskanvil.Base.Int.{negsuc}
use riskanvil.Core.Schema.{degrade_allow, ScoreResponse}
use riskanvil.Bench.Encode.{RouteMetaEntry, encode_batch_header}
use riskanvil.Bench.Decode.{decode_batch_ack_body, decode_body, rsk1}
use riskanvil.Server.Reply.{
  encode_rsk1_response, encode_batch_aggregate_ack, rsk1_flags, decision_to_u8, clamp_u32,
}
use riskanvil.Server.Dense.{parse_dense_payload_le}
use riskanvil.Server.Batch.{parse_batch128_refs, batch_records}
use riskanvil.Protocol.Replies.{decode-encode_batch_aggregate_ack, decode_body-encode_rsk1_response}
use riskanvil.Protocol.Requests.{
  Entry, Fits, AllFit, as_route_meta, as_record, encode_record, encode_records,
  parse_dense-encode_record, batch_records-encode_records,
}
use riskanvil.Protocol.Batches.{
  as_refs, refs_of, batch_body, parse_batch128-batch_body, parse_batch128_refs-eq-batch_records,
}
use riskanvil.Examples.Data.{whole}

abbrev response : ScoreResponse
response = record {
  score_bits = 1000;
  decision = degrade_allow;
  timings_us = record {
    parse = 1;
    feature = 2;
    router = 5000000000;
    l1 = 4;
    l2 = 5;
    serialize = 6;
  };
}

decode-encode_batch_aggregate_ack_example :
    decode_batch_ack_body (encode_batch_aggregate_ack 128 128 28 (100 ∷ 10 ∷ 18 ∷ 0 ∷ 0 ∷ []))
    ≡ some (record {
      record_count = 128;
      ok_count = 128;
      used_l2_count = 28;
      decision_counts = 100 ∷ 10 ∷ 18 ∷ 0 ∷ 0 ∷ [];
    })
decode-encode_batch_aggregate_ack_example =
    decode-encode_batch_aggregate_ack 128 128 28 100 10 18 0 0 (omega arith) (omega arith)
      (omega arith) (omega arith) (omega arith) (omega arith) (omega arith) (omega arith)

-- The router's time of 5000 seconds is clamped, and both flags are set.
decode_body-encode_rsk1_response_example :
    decode_body (encode_rsk1_response 77 response)
    ≡ ok (
        rsk1 (record {
          decision = 3;
          flags = 3;
          timings = record {
            parse = 1;
            feature = 2;
            router = 4294967295;
            l1 = 4;
            l2 = 5;
            serialize = 6;
          };
        }))
unfolding rsk1_flags decision_to_u8 clamp_u32
decode_body-encode_rsk1_response_example = decode_body-encode_rsk1_response 77 response

abbrev entry : RouteMetaEntry ℕ
entry = record {
  row_idx = 3;
  transaction_id = 2 ^ 40;
  fold_id = negsuc 0;
  seg_prod_amtbin = 9;
  l2_tau_used = 4;
}

abbrev row : List ℕ
row = 1 ∷ 2 ∷ 3 ∷ 4 ∷ []

entry-Fits : Fits entry
entry-Fits = record {
  row_idx_fits = omega arith;
  transaction_fits = omega arith;
  fold_fits = omega arith;
  seg_fits = omega arith;
  tau_fits = omega arith;
  tau_exact = refl;
}

parse_dense-encode_record_example :
    parse_dense_payload_le (encode_record entry 1 row) 1
    ≡ ok (record { payload = row; route_meta = some (as_route_meta entry) })
parse_dense-encode_record_example =
    parse_dense-encode_record entry 1 row entry-Fits (omega arith) refl

abbrev item : Entry ℕ
item = (entry, row)

copies-AllFit : (n : ℕ) → AllFit 1 (replicate n item)
copies-AllFit zero = tt
copies-AllFit (suc n) = (entry-Fits, refl, copies-AllFit n)

length-copies : (n : ℕ) → length (replicate n item) ≡ n
length-copies zero = refl
length-copies (suc n) = ap suc (length-copies n)

batch_records-encode_records_example :
    batch_records (encode_batch_header 2 44 true ++ encode_records 1 (replicate 2 item)) true 44 2 0
    ≡ ok (map as_record (replicate 2 item))
unfolding encode_batch_header
batch_records-encode_records_example =
    batch_records-encode_records 1 0 (encode_batch_header 2 44 true) (replicate 2 item)
      (omega arith) (copies-AllFit 2) refl

parse_batch128-batch_body_example :
    parse_batch128_refs (batch_body 1 (replicate 128 item)) true 44
    ≡ ok (as_refs (map as_record (replicate 128 item)))
parse_batch128-batch_body_example =
    parse_batch128-batch_body 1 (replicate 128 item) (copies-AllFit 128) (omega arith)
      (length-copies 128)

parse_batch128_refs-eq-batch_records_example :
    parse_batch128_refs (1 ∷ 2 ∷ []) true 44
    ≡ refs_of (batch_records {F = ℕ} (1 ∷ 2 ∷ []) true 44 128 0)
parse_batch128_refs-eq-batch_records_example =
    parse_batch128_refs-eq-batch_records (1 ∷ 2 ∷ []) true 44
