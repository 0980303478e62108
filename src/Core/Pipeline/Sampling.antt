-- ===== src/Core/Pipeline/Sampling.antt =====
-- The control of the second stage's sampling in crates/risk-core/src/pipeline.rs: the budget of
-- triggers per second and the feedback on the sampled share, in parts per million. One thread at a
-- time; the clock of a call is an argument.
use riskanvil.Base.{
  ℕ, ◌+◌, ◌-◌, ◌%◌, Bool, true, not, ◌&&◌, Option, none, some, ◌==◌, ltb, leb, if◌then◌else◌, min,
  max, bit_and,
}
use riskanvil.Base.Bytes.{u32_limit, u64_limit}
use riskanvil.Base.Float.{Float32, ge}

-- `sec` and `count` are atomics; `start` is folded into the clock.
pub record RateBudget : Type 0 where
  pub limit_per_sec : ℕ
  pub sec : ℕ
  pub count : ℕ

abbrev pub new_budget : ℕ → RateBudget
new_budget limit = record { limit_per_sec = limit; sec = 0; count = 0 }

-- The compare-and-swap succeeds, as no other thread moves `sec` in between.
unfoldable pub try_acquire : ℕ → RateBudget → Bool × RateBudget
try_acquire now b =
    if b.limit_per_sec == 0
    then (true, b)
    else let fresh = if b.sec == now then b else record b { sec = now; count = 0 } in
      let n = (fresh.count + 1) % u64_limit in
      (leb n fresh.limit_per_sec, record fresh { count = n })

-- The arithmetic of `f64` that the control does: `(cur as f64 * 0.7).round() as u32`, the same
-- with 1.08, and `(waterline - target).abs() < 0.03`.
pub record Ratios (W : Type 0) : Type 0 where
  pub down : ℕ → ℕ
  pub up : ℕ → ℕ
  pub near : W → W → Bool

-- Without the queue fields and the remaining time, which no step of the control reads.
pub record L2Control (W : Type 0) : Type 0 where
  pub rate_budget : Option RateBudget
  pub sample_base_ppm : ℕ
  pub sample_min_ppm : ℕ
  pub sample_dyn_ppm : ℕ
  pub sample_dyn_enable : Bool
  pub sample_last_update_ms : ℕ
  pub sample_update_ctr : ℕ
  pub sample_waterline_target : W
  pub sample_waterline_hi : W
  pub sample_waterline_lo : W
  pub waterline_cached : W

-- What `from_env` reads, with the numbers that it has already rounded.
pub record Settings (W : Type 0) : Type 0 where
  pub max_triggers_per_sec : ℕ
  pub base_ppm : Option ℕ
  pub ratio_ppm : Option ℕ
  pub min_ratio_ppm : Option ℕ
  -- `(base_ppm as f64 * 0.1).round() as u32`
  pub tenth : ℕ → ℕ
  pub dyn_enable : Option ℕ
  pub target : W
  pub hi : W
  pub lo : W

abbrev or_default : Option ℕ → ℕ → ℕ
or_default none d = d
or_default (some n) d = n

abbrev or_else : Option ℕ → Option ℕ → Option ℕ
or_else none o = o
or_else (some n) o = some n

abbrev base_of : {W : Type 0} → Settings W → ℕ
base_of env = min (or_default (or_else env.base_ppm env.ratio_ppm) 300000) 1000000

module _ {W : Type 0} ⦃f : Float32 W⦄ where
  unfoldable pub from_env : Settings W → L2Control W
  from_env env =
      let base_ppm = base_of env in
      let min_ppm = or_default env.min_ratio_ppm (env.tenth base_ppm) in
      let swap = f.lt env.hi env.lo in
      record {
        rate_budget =
            if ltb 0 env.max_triggers_per_sec
            then some (new_budget env.max_triggers_per_sec)
            else none;
        sample_base_ppm = base_ppm;
        sample_min_ppm = if ltb base_ppm min_ppm then base_ppm else min_ppm;
        sample_dyn_ppm = base_ppm;
        sample_dyn_enable = not (or_default env.dyn_enable 1 == 0);
        sample_last_update_ms = 0;
        sample_update_ctr = 0;
        sample_waterline_target = env.target;
        sample_waterline_hi = if swap then env.lo else env.hi;
        sample_waterline_lo = if swap then env.hi else env.lo;
        waterline_cached = f.zero_f;
      }

  unfoldable pub sample_ppm : L2Control W → ℕ
  sample_ppm c = if c.sample_dyn_enable then min c.sample_dyn_ppm 1000000 else c.sample_base_ppm

  -- `fetch_add(1) + 1`, and the test that only one call in `mask + 1` passes.
  abbrev counted : L2Control W → L2Control W
  counted c = record c { sample_update_ctr = (c.sample_update_ctr + 1) % u64_limit }

  -- `cur as u32`, where the atomic holds a `u64`.
  abbrev pub current : L2Control W → ℕ
  current c = c.sample_dyn_ppm % u32_limit

  abbrev clamped : L2Control W → ℕ → ℕ
  clamped c next = min (max next c.sample_min_ppm) c.sample_base_ppm

  module _ (r : Ratios W) (now_ms : ℕ) where
    abbrev overload_step : L2Control W → L2Control W
    overload_step c =
        let c' = record c { sample_last_update_ms = now_ms } in
        let next = clamped c (r.down (current c)) in
        if ltb next (current c) then record c' { sample_dyn_ppm = next } else c'

    unfoldable pub feedback_overload : L2Control W → L2Control W
    feedback_overload c =
        if not c.sample_dyn_enable
        then c
        else let c' = counted c in
          if not (bit_and c'.sample_update_ctr 31 == 0)
          then c'
          else if ltb (now_ms - c'.sample_last_update_ms) 50
          then c'
          else overload_step c'

    abbrev relax_step : L2Control W → L2Control W
    relax_step c =
        let c' = record c { sample_last_update_ms = now_ms } in
        let next = clamped c (r.up (current c)) in
        if leb c.sample_base_ppm (current c)
        then c'
        else if ltb (current c) next
        then record c' { sample_dyn_ppm = next }
        else c'

    unfoldable pub feedback_relax : L2Control W → L2Control W
    feedback_relax c =
        if not c.sample_dyn_enable
        then c
        else let c' = counted c in
          if not (bit_and c'.sample_update_ctr 127 == 0)
          then c'
          else if ltb (now_ms - c'.sample_last_update_ms) 200
          then c'
          else relax_step c'

    abbrev pub acquired : ℕ → L2Control W → Bool × L2Control W
    acquired now_sec c = elim (c.rate_budget) [
      | none ↦ (true, c)
      | some b ↦
          let (granted, b') = try_acquire now_sec b in (granted, record c { rate_budget = some b' })
    ]

    -- `dice` is the number that `tls_rand_u64` draws.
    unfoldable pub feedback_waterline : ℕ → ℕ → W → L2Control W → L2Control W
    feedback_waterline now_sec dice waterline c =
        let (granted, c') = acquired now_sec (record c { waterline_cached = waterline }) in
        if not granted
        then feedback_overload c'
        else if ge waterline c'.sample_waterline_hi
        then feedback_overload c'
        else if f.le waterline c'.sample_waterline_lo
        then feedback_relax c'
        else if r.near waterline c'.sample_waterline_target && (bit_and dice 63 == 0)
        then feedback_relax c'
        else c'
