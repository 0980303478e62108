-- ===== src/Core/Pipeline/Bounds.antt =====
-- The states that the sampling control of crates/risk-core/src/pipeline.rs goes through, and the
-- grants of its budget.
use riskanvil.Base.{
  ℕ, zero, suc, ◌+◌, ◌-◌, ◌%◌, ◌^◌, ◌≤◌, ◌<◌, Option, ◌==◌, if◌then◌else◌, min, ◌≡◌, refl, arith,
  Bool-cases, Option-cases, inl, inr, ◌⊎◌, ◌∙◌,
}
use riskanvil.Base.Bytes.{u64_limit}
use riskanvil.Base.Float.{Float32}
use riskanvil.Core.Pipeline.Sampling.{
  RateBudget, acquired, try_acquire, Ratios, L2Control, Settings, from_env, sample_ppm,
  feedback_overload, feedback_relax, feedback_waterline,
}

-- How many of `n` calls in the second `now` are granted.
unfoldable pub granted : ℕ → ℕ → RateBudget → ℕ
granted zero now b = 0
granted (suc n) now b = let r = try_acquire now b in (if r.0 then 1 else 0) + granted n now r.1

-- What is used of the budget when a call comes in the second `now`.
abbrev pub used_in : ℕ → RateBudget → ℕ
used_in now b = if b.sec == now then b.count else 0

-- With a limit, of any number of calls in one second as many are granted as the limit leaves after
-- the calls before them in that second, as long as the calls of the second stay below 2^64.
pub granted-eq :
    (n now : ℕ) (b : RateBudget)
    → 0 < b.limit_per_sec
    → used_in now b + n < 2 ^ 64
    → granted n now b ≡ min n (b.limit_per_sec - used_in now b)
unfolding granted try_acquire
granted-eq zero now b pos fits = ground arith
granted-eq (suc n) now b pos fits = elim (Bool-cases (b.sec == now)) [
  | inl same ↦
      ground (arith, same, granted-eq n now (record b { count = (b.count + 1) % u64_limit }) pos)
  | inr other ↦ ground (arith, other, granted-eq n now (record b { sec = now; count = 1 }) pos)
]

module _ {W : Type 0} ⦃f : Float32 W⦄ where
  -- The share is between its minimum and its base, which is at most all of the rows.
  pub record IsWithin (c : L2Control W) : Type 0 where
    pub low : c.sample_min_ppm ≤ c.sample_dyn_ppm
    pub high : c.sample_dyn_ppm ≤ c.sample_base_ppm
    pub whole : c.sample_base_ppm ≤ 1000000

  from_env-IsWithin : (env : Settings W) → IsWithin (from_env env)
  unfolding from_env
  from_env-IsWithin env = record { low = ground arith; high = ground arith; whole = ground arith }

  module _ (r : Ratios W) (now_ms : ℕ) where
    -- A feedback keeps the limits and moves the share one way.
    overload_lem :
        (c : L2Control W)
        → IsWithin c
        → IsWithin (feedback_overload r now_ms c)
          × ((feedback_overload r now_ms c).sample_dyn_ppm ≤ c.sample_dyn_ppm)
    unfolding feedback_overload
    overload_lem c w = (
      record {
        low = ground (arith, w.low, w.high, w.whole);
        high = ground (arith, w.low, w.high, w.whole);
        whole = ground (arith, w.whole);
      },
      ground (arith, w.low, w.high, w.whole),
    )

    relax_lem :
        (c : L2Control W)
        → IsWithin c
        → IsWithin (feedback_relax r now_ms c)
          × (c.sample_dyn_ppm ≤ (feedback_relax r now_ms c).sample_dyn_ppm)
    unfolding feedback_relax
    relax_lem c w = (
      record {
        low = ground (arith, w.low, w.high, w.whole);
        high = ground (arith, w.low, w.high, w.whole);
        whole = ground (arith, w.whole);
      },
      ground (arith, w.low, w.high, w.whole),
    )

  -- The limits themselves, which no feedback moves.
  abbrev SameLimits : L2Control W → L2Control W → Type 0
  SameLimits c d =
      (d.sample_base_ppm ≡ c.sample_base_ppm)
      × (d.sample_min_ppm ≡ c.sample_min_ppm)
      × (d.sample_dyn_enable ≡ c.sample_dyn_enable)

  module _ (r : Ratios W) where
    overload-SameLimits :
        (now_ms : ℕ) (c : L2Control W) → SameLimits c (feedback_overload r now_ms c)
    unfolding feedback_overload
    overload-SameLimits now_ms c = ground arith

    relax-SameLimits : (now_ms : ℕ) (c : L2Control W) → SameLimits c (feedback_relax r now_ms c)
    unfolding feedback_relax
    relax-SameLimits now_ms c = ground arith

    -- A waterline is one of the two feedbacks, or none, after the budget was asked.
    waterline_cases :
        (now_ms now_sec dice : ℕ) (w : W) (c : L2Control W)
        → (b : Option RateBudget) × (let d = record c { rate_budget = b; waterline_cached = w } in
            (feedback_waterline r now_ms now_sec dice w c ≡ d)
            ⊎ ((feedback_waterline r now_ms now_sec dice w c ≡ feedback_overload r now_ms d)
                ⊎ (feedback_waterline r now_ms now_sec dice w c ≡ feedback_relax r now_ms d)))
    unfolding feedback_waterline
    waterline_cases now_ms now_sec dice w c =
        let asked = acquired r now_ms now_sec (record c { waterline_cached = w }) in
        (
          asked.1.rate_budget,
          elim (Option-cases (c.rate_budget)) [
            | inl none_set ↦ ground (arith, none_set)
            | inr (b, set) ↦ ground (arith, set)
          ],
        )

    -- The states that the control can be in: any feedbacks, at any times.
    pub data Reachable (env : Settings W) : L2Control W → Type 0 where
      start : Reachable env (from_env env)
      overload :
          {c : L2Control W} (now_ms : ℕ)
          → Reachable env c
          → Reachable env (feedback_overload r now_ms c)
      waterline :
          {c : L2Control W} (now_ms now_sec dice : ℕ) (w : W)
          → Reachable env c
          → Reachable env (feedback_waterline r now_ms now_sec dice w c)

    waterline_lem :
        (now_ms now_sec dice : ℕ) (w : W) (c : L2Control W)
        → IsWithin c
        → IsWithin (feedback_waterline r now_ms now_sec dice w c)
          × SameLimits c (feedback_waterline r now_ms now_sec dice w c)
    waterline_lem now_ms now_sec dice w c within =
        let (b, cases) = waterline_cases now_ms now_sec dice w c in
        let d : L2Control W = record c { rate_budget = b; waterline_cached = w } in
        let fine : IsWithin d = record {
          low = within.low;
          high = within.high;
          whole = within.whole;
        } in
        elim cases [
          | inl p ↦ rw p (fine, (refl, refl, refl))
          | inr (inl p) ↦ rw p ((overload_lem r now_ms d fine).0, overload-SameLimits now_ms d)
          | inr (inr p) ↦ rw p ((relax_lem r now_ms d fine).0, relax-SameLimits now_ms d)
        ]

    pub reachable_lem :
        (env : Settings W) (c : L2Control W)
        → Reachable env c
        → IsWithin c × SameLimits (from_env env) c
    reachable_lem env c start = (from_env-IsWithin env, (refl, refl, refl))
    reachable_lem env c (overload {c = d} now_ms h) =
        let (within, (base, low, enabled)) = reachable_lem env d h in
        let (base', low', enabled') = overload-SameLimits now_ms d in
        ((overload_lem r now_ms d within).0, (base' ∙ base, low' ∙ low, enabled' ∙ enabled))
    reachable_lem env c (waterline {c = d} now_ms now_sec dice w h) =
        let (within, (base, low, enabled)) = reachable_lem env d h in
        let (fine, (base', low', enabled')) = waterline_lem now_ms now_sec dice w d within in
        (fine, (base' ∙ base, low' ∙ low, enabled' ∙ enabled))

    -- In every state that the control reaches from its settings by any feedbacks, in any order and
    -- at any times, the sampled share lies between the minimum and the base that from_env set, and
    -- the base is at most a million parts per million.
    pub sample_ppm-within :
        (env : Settings W) (c : L2Control W)
        → Reachable env c
        → ((from_env env).sample_min_ppm ≤ sample_ppm c)
          × (sample_ppm c ≤ (from_env env).sample_base_ppm)
          × ((from_env env).sample_base_ppm ≤ 1000000)
    unfolding sample_ppm
    sample_ppm-within env c h =
        let (within, (base, low, enabled)) = reachable_lem env c h in
        ground (arith, within.low, within.high, within.whole, base, low)
