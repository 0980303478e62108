-- ===== src/Core/Counters/Conservation.antt =====
-- The way of an increment from the held-back counters of crates/risk-core/src/util.rs to the recorder.
use riskanvil.Base.{
  ℕ, ◌+◌, ◌<◌, ◌^◌, List, [], ◌∷◌, if◌then◌else◌, bytes_eq, ◌≡◌, refl, arith, Bool-cases, inl, inr,
  bytes_eq→eq,
}
use riskanvil.Core.Counters.{
  CounterSlot, CounterBuf, Increment, flush_slots, flush, add_to_slot, metrics_counter_add,
}

-- What the recorder got of a counter.
unfoldable pub sent : List ℕ → List Increment → ℕ
sent name [] = 0
sent name ((n, d) ∷ log) = (if bytes_eq n name then d else 0) + sent name log

-- What is still held back.
unfoldable pub held : List ℕ → List CounterSlot → ℕ
held name [] = 0
held name (slot ∷ slots) = (if bytes_eq slot.name name then slot.count else 0) + held name slots

flush_lem :
    (name : List ℕ) (slots : List CounterSlot)
    → (sent name (flush_slots slots).1 ≡ held name slots) × (held name (flush_slots slots).0 ≡ 0)
unfolding flush_slots sent held
flush_lem name [] = (refl, refl)
flush_lem name (slot ∷ slots) = ground (arith, flush_lem name slots)

held-add_to_slot :
    (q name : List ℕ) (delta : ℕ) (slots : List CounterSlot)
    → held name slots + delta < 2 ^ 64
    → held q (add_to_slot name delta slots) ≡ held q slots + (if bytes_eq name q then delta else 0)
unfolding add_to_slot held
held-add_to_slot q name delta [] fits = ground arith
held-add_to_slot q name delta (slot ∷ slots) fits = elim (Bool-cases (bytes_eq slot.name name)) [
  | inl same ↦ let e = bytes_eq→eq slot.name name same in ground (arith, same, e)
  | inr other ↦
      ground (arith, other, held-add_to_slot q name delta slots (ground (arith, other, fits)))
]

-- After a call, for every counter, what the recorder got with the call and what is still held make
-- up what was held before and, for the counter of the call, its increment, as long as the held
-- count and the increment stay below 2^64.
pub metrics_counter_add-conserves :
    (batch flush_ms now_ms : ℕ) (q name : List ℕ) (delta : ℕ) (buf : CounterBuf)
    → held name buf.slots + delta < 2 ^ 64
    → let r = metrics_counter_add batch flush_ms now_ms name delta buf in
      sent q r.1 + held q r.0.slots ≡ held q buf.slots + (if bytes_eq name q then delta else 0)
unfolding metrics_counter_add flush sent
metrics_counter_add-conserves batch flush_ms now_ms q name delta buf fits = ground (
  arith,
  held-add_to_slot q name delta buf.slots fits,
  flush_lem q (add_to_slot name delta buf.slots),
)

-- A buffer that holds back fewer calls than a batch, which is positive and below 2^64, does so
-- after every call.
pub metrics_counter_add-bounded :
    (batch flush_ms now_ms : ℕ) (name : List ℕ) (delta : ℕ) (buf : CounterBuf)
    → 0 < batch
    → batch < 2 ^ 64
    → buf.total < batch
    → (metrics_counter_add batch flush_ms now_ms name delta buf).0.total < batch
unfolding metrics_counter_add flush
metrics_counter_add-bounded batch flush_ms now_ms name delta buf pos small below = ground arith
