-- ===== src/Bench/Quota.antt =====
-- `take_quota` of crates/risk-bench3/src/bench_decode.rs: workers that share one atomic, in every
-- order of their loads and exchanges.
use riskanvil.Base.{
  ℕ, zero, suc, ◌+◌, ◌-◌, Bool, not, ◌&&◌, List, [], ◌∷◌, ◌==◌, if◌then◌else◌, min, map, ◌≡◌, refl,
  arith, set, get_elem?, none, some, Option-cases, inl, inr, ◌∙◌,
}

-- A worker before its load, before its exchange with the value it knows, and with its result.
pub data Worker : Type 0 where
  starting : ℕ → Worker
  holding : ℕ → ℕ → Worker
  done : ℕ → Worker

-- One access to the atomic, which `spurious` lets a weak exchange fail without a reason.
unfoldable pub take_quota_step : Bool → ℕ → Worker → ℕ × Worker
take_quota_step spurious quota (starting max_take) =
    if max_take == 0 then (quota, done 0) else (quota, holding max_take quota)
take_quota_step spurious quota (holding max_take cur) =
    let take = min cur max_take in
    if cur == 0
    then (quota, done 0)
    else if (quota == cur) && not spurious
    then (cur - take, done take)
    else (quota, holding max_take quota)
take_quota_step spurious quota (done n) = (quota, done n)

pub record Pool : Type 0 where
  pub quota : ℕ
  pub workers : List Worker

-- Worker `i` takes a step; there is none at an index out of range.
unfoldable pub pool_step : Bool → ℕ → Pool → Pool
pool_step spurious i p = elim (get_elem? p.workers i) [
  | none ↦ p
  | some w ↦
      let (quota, w') = take_quota_step spurious p.quota w in
      record { quota = quota; workers = set p.workers i w' }
]

pub data Reachable (quota : ℕ) (asks : List ℕ) : Pool → Type 0 where
  fresh : Reachable quota asks (record { quota = quota; workers = map starting asks })
  step :
      {p : Pool} (spurious : Bool) (i : ℕ)
      → Reachable quota asks p
      → Reachable quota asks (pool_step spurious i p)

abbrev pub taken : Worker → ℕ
taken (starting m) = 0
taken (holding m c) = 0
taken (done n) = n

abbrev pub all_taken : List Worker → ℕ
all_taken [] = 0
all_taken (w ∷ ws) = taken w + all_taken ws

none_taken : (asks : List ℕ) → all_taken (map starting asks) ≡ 0
none_taken [] = refl
none_taken (m ∷ ms) = omega (arith, none_taken ms)

step_lem :
    (spurious : Bool) (quota : ℕ) (w : Worker)
    → let r = take_quota_step spurious quota w in r.0 + taken r.1 ≡ quota + taken w
unfolding take_quota_step
step_lem spurious quota (starting m) = ground arith
step_lem spurious quota (holding m c) = ground arith
step_lem spurious quota (done n) = refl

all_taken-set :
    (ws : List Worker) (i : ℕ) (w v : Worker)
    → get_elem? ws i ≡ some w
    → all_taken (set ws i v) + taken w ≡ all_taken ws + taken v
all_taken-set [] i w v h = absurd (ground (arith, h))
all_taken-set (x ∷ xs) zero w v h = ground (arith, h)
all_taken-set (x ∷ xs) (suc i) w v h = omega (arith, all_taken-set xs i w v h)

pool_step-conserves :
    (spurious : Bool) (i : ℕ) (p : Pool)
    → (pool_step spurious i p).quota + all_taken (pool_step spurious i p).workers
      ≡ p.quota + all_taken p.workers
unfolding pool_step
pool_step-conserves spurious i p = elim (Option-cases (get_elem? p.workers i)) [
  | inl q ↦ ground (arith, q)
  | inr (w, q) ↦
      let r = take_quota_step spurious p.quota w in
      ground (arith, q, step_lem spurious p.quota w, all_taken-set p.workers i w r.1 q)
]

-- Whatever the workers and their loads and weak exchanges, in every order and with any spurious
-- failures: what is left of the quota and what the workers have taken make up the quota at the
-- start, so that nothing is taken twice or lost.
pub quota-conserved :
    (quota : ℕ) (asks : List ℕ) (p : Pool)
    → Reachable quota asks p
    → p.quota + all_taken p.workers ≡ quota
quota-conserved quota asks p fresh = omega (arith, none_taken asks)
quota-conserved quota asks p (step {p = q} spurious i h) =
    let before = quota-conserved quota asks q h in pool_step-conserves spurious i q ∙ before
