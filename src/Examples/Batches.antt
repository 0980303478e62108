-- ===== src/Examples/Batches.antt =====
-- Whole batches through the server, and rows of a prepared file.
use riskanvil.Base.{
  ◌++◌, ℕ, zero, suc, ◌+◌, ◌<◌, ◌^◌, true, false, Option, some, List, [], ◌∷◌, ok, ◌≡◌, refl, arith,
  map, length, replicate, ap, ◌∙◌, if◌then◌else◌, ltb,
}
use riskanvil.Base.Int.{pos}
use riskanvil.Core.Schema.{allow, deny, manual_review, QuickRouteMeta}
use riskanvil.Core.Engine.Scratch.{QuickTlsScratch, floats}
use riskanvil.Core.Engine.Predict.{QuickL1PredictOutput, predict_from_l1_bytes_with_meta}
use riskanvil.Core.Engine.Outcome.{row_outcome, predict-eq-row_outcome}
use riskanvil.Core.Engine.Counting.{count_from}
use riskanvil.Core.Pipeline.{
  StandaloneL2, request, BatchScoreLite, score_both, score_standalone_l2_from_l1_batch_lite,
}
use riskanvil.Core.Pipeline.Standalone.{score_both-eq-lites}
use riskanvil.Server.Acks.{
  score_dense_batch_binary_request_http_ack_v1_batch128_fixed, ack_of, score,
  execute_h1_batch_fast_request, score_dense_batch_binary_request_http_ack_v1,
}
use riskanvil.Bench.Encode.{encode_batch_header, RouteMetaEntry}
use riskanvil.Bench.Decode.{decode_batch_ack_body}
use riskanvil.Protocol.Requests.{encode_records, Entry, AllFit, as_record}
use riskanvil.Protocol.Batches.{batch_body}
use riskanvil.Protocol.Header.{score_fixed-ignores-header}
use riskanvil.Protocol.Scored.{row_at, meta_at, batch_reply-counts}
use riskanvil.Protocol.Records.{AllPredict, engine_only}
use riskanvil.Protocol.AnySize.{any_size_reply-counts}
use riskanvil.Examples.Data.{
  whole, text, l2_policy, engine, engine-IsLoaded, scratch, elapsed, passed,
}

abbrev entry : RouteMetaEntry ℕ
entry = record {
  row_idx = 3;
  transaction_id = 2 ^ 40;
  fold_id = pos 1;
  seg_prod_amtbin = 9;
  l2_tau_used = 4;
}

abbrev item : Entry ℕ
item = (entry, 9 ∷ 0 ∷ 0 ∷ 0 ∷ [])

copies-AllFit : (n : ℕ) → AllFit 1 (replicate n item)
copies-AllFit zero = tt
copies-AllFit (suc n) = (
  record {
    row_idx_fits = omega arith;
    transaction_fits = omega arith;
    fold_fits = omega arith;
    seg_fits = omega arith;
    tau_fits = omega arith;
    tau_exact = refl;
  },
  refl,
  copies-AllFit n,
)

length-copies : (n : ℕ) → length (replicate n item) ≡ n
length-copies zero = refl
length-copies (suc n) = ap suc (length-copies n)

outcome_item :
    (meta : Option (QuickRouteMeta ℕ))
    → row_outcome text engine (9 ∷ 0 ∷ 0 ∷ 0 ∷ []) meta elapsed ≡ ok passed
unfolding row_outcome floats
outcome_item meta = refl

-- A score above 5 passes, whatever the buffers hold.
predict_item :
    (meta : Option (QuickRouteMeta ℕ)) (s : QuickTlsScratch ℕ)
    → (predict_from_l1_bytes_with_meta text engine (9 ∷ 0 ∷ 0 ∷ 0 ∷ []) meta elapsed s).0
      ≡ ok passed
predict_item meta s =
    predict-eq-row_outcome text engine (9 ∷ 0 ∷ 0 ∷ 0 ∷ []) meta elapsed s engine-IsLoaded
    ∙ outcome_item meta

row_of_copies :
    (n i : ℕ) → i < n → row_at text engine (λ i. elapsed) (replicate n item) i ≡ 9 ∷ 0 ∷ 0 ∷ 0 ∷ []
row_of_copies zero i h = absurd (omega arith)
row_of_copies (suc n) zero h = refl
row_of_copies (suc n) (suc i) h = row_of_copies n i (omega arith)

batch_reply-counts_example :
    (reply : List ℕ) × ((execute_h1_batch_fast_request text
        (engine_only engine)
        (λ i. elapsed)
        score
        (some (length (batch_body 1 (replicate 128 item))))
        (batch_body 1 (replicate 128 item))
        scratch).0
      ≡ ok reply)
    × (decode_batch_ack_body reply
        ≡ some (record {
          record_count = 128;
          ok_count = 128;
          used_l2_count = 0;
          decision_counts = 128 ∷ 0 ∷ 0 ∷ 0 ∷ 0 ∷ [];
        }))
unfolding count_from
batch_reply-counts_example =
    batch_reply-counts text engine (λ i. elapsed) (engine_only engine) l2_policy
      (replicate 128 item) (λ i. passed) (λ i. scratch) scratch refl refl engine-IsLoaded refl
      (copies-AllFit 128) (omega arith) (length-copies 128)
      (λ i h.
        rw (row_of_copies 128 i h)
          (predict_item (meta_at text engine (λ i. elapsed) (replicate 128 item) i) scratch))

all-copies :
    (n i : ℕ)
    → AllPredict text engine (λ i. elapsed) (λ i. passed) i (map as_record (replicate n item))
all-copies zero i = tt
all-copies (suc n) i = (λ s. predict_item (as_record item).1 s, all-copies n (i + 1))

any_size_reply-counts_example :
    (score_dense_batch_binary_request_http_ack_v1 text
      (engine_only engine)
      (λ i. elapsed)
      (batch_body 1 (replicate 3 item))
      scratch).0
    ≡ ok (ack_of 3 (0, record { c0 = 3; c1 = 0; c2 = 0; c3 = 0; c4 = 0 }))
unfolding count_from
any_size_reply-counts_example =
    any_size_reply-counts text engine (λ i. elapsed) (engine_only engine) (replicate 3 item)
      (λ i. passed) scratch refl refl (copies-AllFit 3) (omega arith) (omega arith) (omega arith)
      (λ h. absurd (omega arith)) (all-copies 3 0)

-- Rejected at an even index.
abbrev file : StandaloneL2 ℕ ℕ
file = record { feat_rows = 10; predict_l2_row_by_index = λ i tau fold. ok (ltb i 3) }

abbrev l1_outs : List (QuickL1PredictOutput ℕ)
l1_outs =
    record { l1_score = 9; passed = true; l1_us = 1; router_us = 1 }
    ∷ record { l1_score = 2; passed = false; l1_us = 1; router_us = 1 }
    ∷ record { l1_score = 3; passed = false; l1_us = 1; router_us = 1 }
    ∷ []

-- The second row wraps around to row 2 of the file, the third is row 5.
abbrev file_meta : ℕ → Option (QuickRouteMeta ℕ)
file_meta i = some (record {
  row_idx = if ltb i 2 then 12 else 5;
  transaction_id = 0;
  fold_id = pos 1;
  seg_prod_amtbin = 0;
  l2_tau_used = some 4;
})

abbrev lite_of : ℕ → BatchScoreLite
lite_of i =
    if ltb i 1
    then record { decision = allow; used_l2 = false }
    else if ltb i 2
    then record { decision = deny; used_l2 = true }
    else record { decision = manual_review; used_l2 = true }

score_both-eq-lites_example :
    score_both text (some engine) file request l1_outs file_meta
    ≡ ok (2, record { c0 = 1; c1 = 1; c2 = 1; c3 = 0; c4 = 0 })
unfolding score_standalone_l2_from_l1_batch_lite count_from
score_both-eq-lites_example =
    score_both-eq-lites text (some engine) file request file_meta lite_of l1_outs
      (refl, (refl, (refl, tt)))

abbrev wrong_magic : List ℕ
wrong_magic = replicate 16 0

score_fixed-ignores-header_example :
    score_dense_batch_binary_request_http_ack_v1_batch128_fixed text
      (engine_only engine)
      (λ i. elapsed)
      (encode_batch_header 128 44 true ++ encode_records 1 (replicate 128 item))
      true
      44
      scratch
    ≡ score_dense_batch_binary_request_http_ack_v1_batch128_fixed text
        (engine_only engine)
        (λ i. elapsed)
        (wrong_magic ++ encode_records 1 (replicate 128 item))
        true
        44
        scratch
unfolding encode_batch_header
score_fixed-ignores-header_example =
    score_fixed-ignores-header text (engine_only engine) (λ i. elapsed)
      (encode_batch_header 128 44 true) wrong_magic (encode_records 1 (replicate 128 item)) true 44
      scratch refl refl
