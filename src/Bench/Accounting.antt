-- ===== src/Bench/Accounting.antt =====
-- The rows and decisions of the replies that crates/risk-bench3/src/bench_decode.rs counts.
use riskanvil.Base.{ℕ, ◌+◌, ◌-◌, List, [], ◌∷◌, length, ◌≡◌, refl, arith}
use riskanvil.Bench.Decode.{BatchAck, BodyDecoded, qsb2, rsk1, batch_ack, decision_bucket}
use riskanvil.Bench.Throughput.{
  ThroughputResponse, ThroughputBatchState, throughput_response_from_decoded,
  update_throughput_batch, add_counts,
}

abbrev pub sum : List ℕ → ℕ
sum [] = 0
sum (n ∷ ns) = n + sum ns

-- A reply whose decisions are those of its rows.
pub record IsWhole (resp : ThroughputResponse) : Type 0 where
  pub five : length resp.decision_counts ≡ 5
  pub all : sum resp.decision_counts ≡ resp.rows

abbrev pub AllWhole : List ThroughputResponse → Type 0
AllWhole [] = Unit
AllWhole (r ∷ rs) = IsWhole r × AllWhole rs

abbrev pub rows_of : List ThroughputResponse → ℕ
rows_of [] = 0
rows_of (r ∷ rs) = r.rows + rows_of rs

-- The replies of a batch, one after the other.
unfoldable pub update_all : ThroughputBatchState → List ThroughputResponse → ThroughputBatchState
update_all state [] = state
update_all state (r ∷ rs) = update_all (update_throughput_batch state r) rs

abbrev pub counted : ThroughputBatchState → ℕ
counted b = b.ok_rows + b.err_rows + b.timeout_rows

sum-add_counts :
    (ds src : List ℕ)
    → length src ≡ length ds
    → (sum (add_counts ds src) ≡ sum ds + sum src) × (length (add_counts ds src) ≡ length ds)
unfolding add_counts
sum-add_counts [] [] e = (refl, refl)
sum-add_counts [] (s ∷ src) e = absurd (omega arith)
sum-add_counts (d ∷ ds) [] e = absurd (omega arith)
sum-add_counts (d ∷ ds) (s ∷ src) e =
    let rest = sum-add_counts ds src (omega arith) in (omega (arith, rest), omega (arith, rest))

update_lem :
    (b : ThroughputBatchState) (r : ThroughputResponse)
    → length b.decision_counts ≡ 5
    → IsWhole r
    → let u = update_throughput_batch b r in
      (counted u ≡ counted b + r.rows)
      × (sum u.decision_counts ≡ sum b.decision_counts + r.rows)
      × (length u.decision_counts ≡ 5)
      × (u.outstanding ≡ b.outstanding - 1)
unfolding update_throughput_batch
update_lem b r five whole =
    let s = sum-add_counts b.decision_counts r.decision_counts (omega (arith, five, whole.five)) in
    (ground arith, ground (arith, s, whole.all), ground (arith, s), ground arith)

-- After any replies whose five decision counts add up to their rows, from a state with five
-- counts: each row is counted once as scored, failed or timed out, and once among the decisions,
-- and the replies outstanding have gone down by one for each reply, at most to 0.
pub update_all-counts :
    (b : ThroughputBatchState) (rs : List ThroughputResponse)
    → length b.decision_counts ≡ 5
    → AllWhole rs
    → (counted (update_all b rs) ≡ counted b + rows_of rs)
      × (sum (update_all b rs).decision_counts ≡ sum b.decision_counts + rows_of rs)
      × ((update_all b rs).outstanding ≡ b.outstanding - length rs)
unfolding update_all
update_all-counts b [] five all = (omega arith, omega arith, omega arith)
update_all-counts b (r ∷ rs) five (whole, rest) =
    let (c, s, l, o) = update_lem b r five whole in
    let (c', s', o') = update_all-counts (update_throughput_batch b r) rs l rest in
    (omega (arith, c, c'), omega (arith, s, s'), omega (arith, o, o'))

-- The response made of a decoded body has five decision counts that add up to its rows; for a
-- batch ack, where the counts of the ack are five and add up to its records.
pub from_decoded-IsWhole :
    (status_code : ℕ) (body : BodyDecoded)
    → ((ack : BatchAck)
        → body ≡ batch_ack ack
        → (length ack.decision_counts ≡ 5) × (sum ack.decision_counts ≡ ack.record_count))
    → IsWhole (throughput_response_from_decoded status_code body)
unfolding throughput_response_from_decoded decision_bucket
from_decoded-IsWhole status_code (qsb2 q) h = record { five = ground arith; all = ground arith }
from_decoded-IsWhole status_code (rsk1 r) h = record { five = ground arith; all = ground arith }
from_decoded-IsWhole status_code (batch_ack ack) h = record {
  five = (h ack refl).0;
  all = (h ack refl).1;
}
