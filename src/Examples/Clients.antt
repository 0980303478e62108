-- ===== src/Examples/Clients.antt =====
-- Replies that the client counts, and workers that share a quota.
use riskanvil.Base.{ℕ, ◌+◌, true, false, List, [], ◌∷◌, ◌≡◌, refl, arith, map}
use riskanvil.Bench.Decode.{BatchAck, rsk1, batch_ack, no_timings}
use riskanvil.Bench.Throughput.{
  ThroughputResponse, ThroughputBatchState, throughput_response_from_decoded,
  throughput_timeout_response,
}
use riskanvil.Bench.Accounting.{
  IsWhole, AllWhole, update_all, counted, sum, update_all-counts, from_decoded-IsWhole,
}
use riskanvil.Bench.Quota.{Pool, pool_step, all_taken, starting, fresh, step, quota-conserved}

abbrev ack : BatchAck
ack = record {
  record_count = 128;
  ok_count = 128;
  used_l2_count = 28;
  decision_counts = 100 ∷ 10 ∷ 18 ∷ 0 ∷ 0 ∷ [];
}

timeout-IsWhole : (rows : ℕ) → IsWhole (throughput_timeout_response rows)
unfolding throughput_timeout_response
timeout-IsWhole rows = record { five = refl; all = omega arith }

abbrev fresh_batch : ThroughputBatchState
fresh_batch = record {
  outstanding = 3;
  sealed = true;
  ok_rows = 0;
  err_rows = 0;
  timeout_rows = 0;
  http_2xx = 0;
  http_429 = 0;
  http_5xx = 0;
  qsb2_samples = 0;
  rsk1_samples = 0;
  used_l2 = 0;
  decision_counts = 0 ∷ 0 ∷ 0 ∷ 0 ∷ 0 ∷ [];
}

abbrev replies : List ThroughputResponse
replies =
    throughput_response_from_decoded 200 (batch_ack ack)
    ∷ throughput_response_from_decoded 429
        (rsk1 (record { decision = 7; flags = 1; timings = no_timings }))
    ∷ throughput_timeout_response 128
    ∷ []

replies-AllWhole : AllWhole replies
replies-AllWhole = (
  from_decoded-IsWhole_ack,
  (
    from_decoded-IsWhole 429 (rsk1 (record { decision = 7; flags = 1; timings = no_timings }))
        (λ a e. absurd (ground (arith, e))),
    (timeout-IsWhole 128, tt),
  ),
)
  where
    from_decoded-IsWhole_ack : IsWhole (throughput_response_from_decoded 200 (batch_ack ack))
    from_decoded-IsWhole_ack =
        from_decoded-IsWhole 200 (batch_ack ack) (λ a e. (ground (arith, e), ground (arith, e)))

update_all-counts_example :
    (counted (update_all fresh_batch replies) ≡ 257)
    × (sum (update_all fresh_batch replies).decision_counts ≡ 257)
    × ((update_all fresh_batch replies).outstanding ≡ 0)
unfolding throughput_response_from_decoded throughput_timeout_response
update_all-counts_example = update_all-counts fresh_batch replies refl replies-AllWhole

-- The second worker takes two of five while the first one holds an old value.
abbrev pool : Pool
pool = pool_step false 0 (
    pool_step false 1 (
      pool_step false 1
        (pool_step false 0 (record { quota = 5; workers = map starting (4 ∷ 2 ∷ []) }))))

quota-conserved_example : pool.quota + all_taken pool.workers ≡ 5
quota-conserved_example =
    quota-conserved 5 (4 ∷ 2 ∷ []) pool
      (step false 0 (step false 1 (step false 1 (step false 0 fresh))))
