-- ===== src/Bench/Throughput.antt =====
-- How the client counts replies: crates/risk-bench3/src/bench_decode.rs, without its clocks. The
-- sums of rows stay far below 2^64.
use riskanvil.Base.{
  ℕ, ◌+◌, ◌-◌, Bool, true, false, ◌&&◌, not, Option, none, some, List, [], ◌∷◌, ◌++◌, ◌==◌, leb,
  ltb, if◌then◌else◌, bit_and, set,
}
use riskanvil.Bench.Decode.{BodyDecoded, qsb2, rsk1, batch_ack, Sample, decision_bucket}

pub record ThroughputResponse : Type 0 where
  pub status_code : ℕ
  pub timeout : Bool
  pub rows : ℕ
  pub used_l2_count : ℕ
  pub decision_counts : List ℕ
  pub qsb2_samples : ℕ
  pub rsk1_samples : ℕ

pub record ThroughputBatchState : Type 0 where
  pub outstanding : ℕ
  pub sealed : Bool
  pub ok_rows : ℕ
  pub err_rows : ℕ
  pub timeout_rows : ℕ
  pub http_2xx : ℕ
  pub http_429 : ℕ
  pub http_5xx : ℕ
  pub qsb2_samples : ℕ
  pub rsk1_samples : ℕ
  pub used_l2 : ℕ
  pub decision_counts : List ℕ

abbrev zeros : List ℕ
zeros = 0 ∷ 0 ∷ 0 ∷ 0 ∷ 0 ∷ []

abbrev of_sample : ℕ → Sample → ℕ → ℕ → ThroughputResponse
of_sample status_code sample qsb2_samples rsk1_samples = record {
  status_code = status_code;
  timeout = false;
  rows = 1;
  used_l2_count = if bit_and sample.flags 1 == 0 then 0 else 1;
  decision_counts = set zeros (decision_bucket sample.decision) 1;
  qsb2_samples = qsb2_samples;
  rsk1_samples = rsk1_samples;
}

unfoldable pub throughput_response_from_decoded : ℕ → BodyDecoded → ThroughputResponse
throughput_response_from_decoded status_code (qsb2 q) = of_sample status_code q 1 0
throughput_response_from_decoded status_code (rsk1 r) = of_sample status_code r 0 1
throughput_response_from_decoded status_code (batch_ack ack) = record {
  status_code = status_code;
  timeout = false;
  rows = ack.record_count;
  used_l2_count = ack.used_l2_count;
  decision_counts = ack.decision_counts;
  qsb2_samples = 0;
  rsk1_samples = 0;
}

unfoldable pub throughput_timeout_response : ℕ → ThroughputResponse
throughput_timeout_response rows = record {
  status_code = 0;
  timeout = true;
  rows = rows;
  used_l2_count = 0;
  decision_counts = 0 ∷ 0 ∷ 0 ∷ 0 ∷ rows ∷ [];
  qsb2_samples = 0;
  rsk1_samples = 0;
}

-- The loop over both arrays; an entry without a partner stays.
unfoldable pub add_counts : List ℕ → List ℕ → List ℕ
add_counts [] src = []
add_counts (d ∷ ds) [] = d ∷ ds
add_counts (d ∷ ds) (s ∷ src) = (d + s) ∷ add_counts ds src

abbrev count_rows : ThroughputBatchState → ThroughputResponse → ThroughputBatchState
count_rows state resp =
    if resp.timeout
    then record state { timeout_rows = state.timeout_rows + resp.rows }
    else if leb 200 resp.status_code && ltb resp.status_code 300
    then record state { ok_rows = state.ok_rows + resp.rows; http_2xx = state.http_2xx + resp.rows }
    else record state {
      err_rows = state.err_rows + resp.rows;
      http_429 = if resp.status_code == 429 then state.http_429 + resp.rows else state.http_429;
      http_5xx =
          if not (resp.status_code == 429) && leb 500 resp.status_code
          then state.http_5xx + resp.rows
          else state.http_5xx;
    }

unfoldable pub update_throughput_batch :
    ThroughputBatchState → ThroughputResponse → ThroughputBatchState
update_throughput_batch state resp =
    let counted = count_rows state resp in
    record counted {
      outstanding = state.outstanding - 1;
      qsb2_samples = counted.qsb2_samples + resp.qsb2_samples;
      rsk1_samples = counted.rsk1_samples + resp.rsk1_samples;
      used_l2 = counted.used_l2 + resp.used_l2_count;
      decision_counts = add_counts counted.decision_counts resp.decision_counts;
    }

-- `HashMap<u64, ThroughputBatchState>`
abbrev pub Batches : Type 0
Batches = List (ℕ × ThroughputBatchState)

abbrev pub batch_get : Batches → ℕ → Option ThroughputBatchState
batch_get [] id = none
batch_get ((k, b) ∷ bs) id = if k == id then some b else batch_get bs id

abbrev pub batch_remove : Batches → ℕ → Batches
batch_remove [] id = []
batch_remove ((k, b) ∷ bs) id = if k == id then bs else (k, b) ∷ batch_remove bs id

unfoldable pub maybe_finalize_throughput_batch :
    List ThroughputBatchState → ℕ → Batches → List ThroughputBatchState × Batches
maybe_finalize_throughput_batch out batch_id batches = elim (batch_get batches batch_id) [
  | none ↦ (out, batches)
  | some b ↦
      if b.sealed && (b.outstanding == 0)
      then (out ++ (b ∷ []), batch_remove batches batch_id)
      else (out, batches)
]
