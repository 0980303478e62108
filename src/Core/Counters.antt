-- ===== src/Core/Counters.antt =====
-- crates/risk-core/src/util.rs: the counters that a thread holds back and hands on in batches, and
-- the sampling of the histograms. The recorder's counters are the log of their increments.
pub mod Conservation
use riskanvil.Base.{
  ℕ, zero, suc, ◌+◌, ◌*◌, ◌-◌, ◌/◌, ◌%◌, ◌^◌, Bool, true, false, ◌&&◌, ◌||◌, List, [], ◌∷◌, ◌++◌,
  ◌==◌, ltb, leb, if◌then◌else◌, min, bit_and, bit_xor, bytes_eq,
}
use riskanvil.Base.Bytes.{u64_limit}

pub record CounterSlot : Type 0 where
  pub name : List ℕ
  pub count : ℕ

pub record CounterBuf : Type 0 where
  pub slots : List CounterSlot
  pub total : ℕ
  pub last_flush_ms : ℕ

-- An `increment` of the recorder.
abbrev pub Increment : Type 0
Increment = List ℕ × ℕ

abbrev saturating_add : ℕ → ℕ → ℕ
saturating_add a b = min (a + b) (u64_limit - 1)

unfoldable pub flush_slots : List CounterSlot → List CounterSlot × List Increment
flush_slots [] = ([], [])
flush_slots (slot ∷ slots) =
    let rest = flush_slots slots in
    if ltb 0 slot.count
    then (record slot { count = 0 } ∷ rest.0, (slot.name, slot.count) ∷ rest.1)
    else (slot ∷ rest.0, rest.1)

unfoldable pub flush : ℕ → CounterBuf → CounterBuf × List Increment
flush now_ms buf =
    let flushed = flush_slots buf.slots in
    (record { slots = flushed.0; total = 0; last_flush_ms = now_ms }, flushed.1)

-- The first slot with the name takes the increment, or a new slot at the end.
unfoldable pub add_to_slot : List ℕ → ℕ → List CounterSlot → List CounterSlot
add_to_slot name delta [] = record { name = name; count = delta } ∷ []
add_to_slot name delta (slot ∷ slots) =
    let rest = add_to_slot name delta slots in
    if bytes_eq slot.name name
    then record slot { count = saturating_add slot.count delta } ∷ slots
    else slot ∷ rest

-- `batch` and `flush_ms` are the settings; the increments that reach the recorder come back.
unfoldable pub metrics_counter_add :
    ℕ → ℕ → ℕ → List ℕ → ℕ → CounterBuf → CounterBuf × List Increment
metrics_counter_add batch flush_ms now_ms name delta buf =
    if delta == 0
    then (buf, (name, 0) ∷ [])
    else if leb batch 1 && (flush_ms == 0)
    then (buf, (name, delta) ∷ [])
    else let held = record buf {
      slots = add_to_slot name delta buf.slots;
      total = saturating_add buf.total 1;
    } in
      if leb batch held.total
      then flush now_ms held
      else if ltb 0 flush_ms
          && (bit_and held.total 63 == 0)
          && leb flush_ms (now_ms - held.last_flush_ms)
      then flush now_ms held
      else (held, [])

-- `metrics_should_sample` with the thread's counter.
unfoldable pub metrics_should_sample : ℕ → ℕ → Bool × ℕ
metrics_should_sample log2 c =
    if log2 == 0
    then (true, c)
    else if leb 63 log2
    then (false, c)
    else let n = (c + 1) % u64_limit in (bit_and n (2 ^ log2 - 1) == 0, n)

unfoldable pub mix_u64 : ℕ → ℕ
mix_u64 x =
    let a = bit_xor x (x / 2 ^ 30) in
    let b = a * 0xbf58476d1ce4e5b9 % 2 ^ 64 in
    let c = bit_xor b (b / 2 ^ 27) in
    let d = c * 0x94d049bb133111eb % 2 ^ 64 in bit_xor d (d / 2 ^ 31)
