-- ===== src/Examples/Control.antt =====
-- The sampling control and the held-back counters.
use riskanvil.Base.{ℕ, ◌+◌, ◌*◌, ◌/◌, ◌-◌, ◌≤◌, none, some, [], ◌∷◌, ◌≡◌, arith, ltb}
use riskanvil.Core.Pipeline.Sampling.{
  Ratios, Settings, L2Control, from_env, sample_ppm, feedback_overload, feedback_waterline,
}
use riskanvil.Core.Pipeline.Bounds.{
  granted, granted-eq, start, overload, waterline, sample_ppm-within,
}
use riskanvil.Core.Counters.{CounterBuf, metrics_counter_add}
use riskanvil.Core.Counters.Conservation.{sent, held, metrics_counter_add-conserves}
use riskanvil.Examples.Data.{whole}

-- Of ten calls in a second in which two are used up, the limit of five leaves three.
granted-eq_example : granted 10 7 (record { limit_per_sec = 5; sec = 7; count = 2 }) ≡ 3
granted-eq_example =
    granted-eq 10 7 (record { limit_per_sec = 5; sec = 7; count = 2 }) (omega arith) (omega arith)

abbrev ratios : Ratios ℕ
ratios = record {
  down = λ n. n * 7 / 10;
  up = λ n. n * 108 / 100;
  near = λ a b. ltb (a - b + (b - a)) 3;
}

abbrev settings : Settings ℕ
settings = record {
  max_triggers_per_sec = 5;
  base_ppm = none;
  ratio_ppm = none;
  min_ratio_ppm = some 600000;
  tenth = λ n. n / 10;
  dyn_enable = none;
  target = 60;
  hi = 40;
  lo = 85;
}

abbrev later : L2Control ℕ
later = feedback_overload ratios 2000 (feedback_waterline ratios 1000 1 0 90 (from_env settings))

sample_ppm-within_example :
    (300000 ≤ sample_ppm later) × (sample_ppm later ≤ 300000) × (300000 ≤ 1000000)
unfolding from_env
sample_ppm-within_example =
    sample_ppm-within ratios settings later (overload 2000 (waterline 1000 1 0 90 start))

abbrev buf : CounterBuf
buf = record {
  slots = record { name = b'a' ∷ []; count = 3 } ∷ record { name = b'b' ∷ []; count = 4 } ∷ [];
  total = 7;
  last_flush_ms = 0;
}

-- The eighth call reaches the batch, and 4 + 6 are sent.
metrics_counter_add-conserves_example :
    let r = metrics_counter_add 8 200 50 (b'b' ∷ []) 6 buf in
    sent (b'b' ∷ []) r.1 + held (b'b' ∷ []) r.0.slots ≡ 10
unfolding held
metrics_counter_add-conserves_example =
    metrics_counter_add-conserves 8 200 50 (b'b' ∷ []) (b'b' ∷ []) 6 buf (omega arith)
