-- ===== src/Boost/Stamps.antt =====
-- The caches of crates/risk-quickscorer/src/l1.rs from row to row: the stamps never pass the
-- epoch, and an entry whose stamp is the epoch holds the value of the row at hand.
use riskanvil.Base.{
  ℕ, zero, suc, ◌+◌, ◌%◌, ◌^◌, ◌≤◌, ◌<◌, false, Bool-cases, List, [], ◌∷◌, length, get_elem?, set,
  replicate, length-set, length-replicate, ◌==◌, ==→eq, lt→ltb, some, Result, ok, inl, inr, ◌≡◌,
  refl, arith, ap,
}
use riskanvil.Boost.Caches.{StampCache, next_row, cached, remember}
use riskanvil.Boost.Model.{L1Error}
use riskanvil.Boost.Totality.{get_elem-inside}

module _ {A : Type 0} where
  pub get_elem-set_same :
      (xs : List A) (i : ℕ) (v : A) → i < length xs → get_elem? (set xs i v) i ≡ some v
  get_elem-set_same [] i v h = absurd (omega arith)
  get_elem-set_same (x ∷ xs) zero v h = refl
  get_elem-set_same (x ∷ xs) (suc i) v h = get_elem-set_same xs i v (omega arith)

  pub get_elem-set_other :
      (xs : List A) (i j : ℕ) (v : A) → (i == j) ≡ false → get_elem? (set xs i v) j ≡ get_elem? xs j
  get_elem-set_other [] i j v h = refl
  get_elem-set_other (x ∷ xs) zero zero v h = absurd (ground (arith, h))
  get_elem-set_other (x ∷ xs) zero (suc j) v h = refl
  get_elem-set_other (x ∷ xs) (suc i) zero v h = refl
  get_elem-set_other (x ∷ xs) (suc i) (suc j) v h = get_elem-set_other xs i j v (ground (arith, h))

  get_elem-replicate : (n i : ℕ) (v x : A) → get_elem? (replicate n v) i ≡ some x → x ≡ v
  get_elem-replicate zero i v x h = absurd (ground (arith, h))
  get_elem-replicate (suc n) zero v x h = ground (arith, h)
  get_elem-replicate (suc n) (suc i) v x h = get_elem-replicate n i v x h

-- A cache of `n` features.
pub record IsStamped {V : Type 0} (n : ℕ) (cache : StampCache V) : Type 0 where
  pub values_len : length cache.values ≡ n
  pub stamps_len : length cache.stamps ≡ n
  pub begun : 1 ≤ cache.epoch
  pub small : cache.epoch < 2 ^ 32
  pub old : (i stamp : ℕ) → get_elem? cache.stamps i ≡ some stamp → stamp ≤ cache.epoch

remember-IsStamped :
    {V : Type 0} (n : ℕ) (cache : StampCache V) (fidx : ℕ) (rank : V)
    → IsStamped n cache
    → fidx < n
    → IsStamped n (remember cache fidx rank)
remember-IsStamped n cache fidx rank stamped inside = record {
  values_len = omega (arith, length-set cache.values fidx rank, stamped.values_len);
  stamps_len = omega (arith, length-set cache.stamps fidx cache.epoch, stamped.stamps_len);
  begun = stamped.begun;
  small = stamped.small;
  old = λ i stamp h. elim (Bool-cases (fidx == i)) [
    | inl r ↦ ground (
      arith,
      h,
      ==→eq fidx i r,
      get_elem-set_same cache.stamps fidx cache.epoch (omega (arith, stamped.stamps_len)),
    )
    | inr r ↦ stamped.old i stamp (rw (get_elem-set_other cache.stamps fidx i cache.epoch r) at h)
  ];
}

module _ {V : Type 0} (find : ℕ → Result L1Error V) where
  -- What counts in the cache is the row's.
  abbrev pub IsFresh : StampCache V → Type 0
  IsFresh cache =
      (i : ℕ) (rank : V)
      → get_elem? cache.stamps i ≡ some cache.epoch
      → get_elem? cache.values i ≡ some rank
      → find i ≡ ok rank

  pub next_row-IsFresh :
      (n : ℕ) (cache : StampCache V)
      → IsStamped n cache
      → IsStamped n (next_row cache) × IsFresh (next_row cache)
  unfolding next_row
  next_row-IsFresh n cache stamped = elim (Bool-cases ((cache.epoch + 1) % 2 ^ 32 == 0)) [
    | inl p ↦ rw p (
      record {
        values_len = stamped.values_len;
        stamps_len =
            omega (arith, length-replicate {A = ℕ} (length cache.stamps) 0, stamped.stamps_len);
        begun = omega arith;
        small = omega arith;
        old = λ i stamp h.
            omega (arith, get_elem-replicate {A = ℕ} (length cache.stamps) i 0 stamp h);
      },
      λ i rank h h'.
          absurd (omega (arith, get_elem-replicate {A = ℕ} (length cache.stamps) i 0 1 h)),
    )
    | inr p ↦
        let next : (cache.epoch + 1) % 2 ^ 32 ≡ cache.epoch + 1 =
          ground (arith, p, stamped.small) in
        rw p (
          record {
            values_len = stamped.values_len;
            stamps_len = stamped.stamps_len;
            begun = omega (arith, next);
            small = omega arith;
            old = λ i stamp h. omega (arith, stamped.old i stamp h, next);
          },
          λ i rank h h'. absurd (omega (arith, stamped.old i ((cache.epoch + 1) % 2 ^ 32) h, next)),
        )
  ]

  remember-IsFresh :
      (n : ℕ) (cache : StampCache V) (fidx : ℕ) (rank : V)
      → IsStamped n cache
      → IsFresh cache
      → fidx < n
      → find fidx ≡ ok rank
      → IsFresh (remember cache fidx rank)
  remember-IsFresh n cache fidx rank stamped fresh inside e i known h h' =
      elim (Bool-cases (fidx == i)) [
        | inl r ↦
            let same : fidx ≡ i = ==→eq fidx i r in
            let known_rank : known ≡ rank = ground (
              arith,
              rw same at h',
              get_elem-set_same cache.values fidx rank (omega (arith, stamped.values_len)),
              same,
            ) in
            rw (← same, known_rank) e
        | inr r ↦
            fresh i known (rw (get_elem-set_other cache.stamps fidx i cache.epoch r) at h)
              (rw (get_elem-set_other cache.values fidx i rank r) at h')
      ]

  -- A lookup gives the row's value, and leaves a cache that is as good.
  pub cached-IsFresh :
      (n : ℕ) (cache : StampCache V) (fidx : ℕ) (rank : V)
      → IsStamped n cache
      → IsFresh cache
      → fidx < n
      → find fidx ≡ ok rank
      → (cache' : StampCache V) × (cached find cache fidx ≡ ok (cache', rank))
        × IsStamped n cache'
        × IsFresh cache'
  unfolding cached
  cached-IsFresh n cache fidx rank stamped fresh inside e =
      let (stamp, p) = get_elem-inside cache.stamps fidx (omega (arith, stamped.stamps_len)) in
      let (known, q) = get_elem-inside cache.values fidx (omega (arith, stamped.values_len)) in
      elim (Bool-cases (stamp == cache.epoch)) [
        | inl r ↦
            let at_epoch : get_elem? cache.stamps fidx ≡ some cache.epoch =
              rw p (ap some (==→eq stamp cache.epoch r)) in
            let same : known ≡ rank = ground (arith, fresh fidx known at_epoch q, e) in
            (cache, rw (p, r, q) (ap (λ v. ok (cache, v)) same), stamped, fresh)
        | inr r ↦ (
          remember cache fidx rank,
          rw (p, r, e, lt→ltb fidx (length cache.values) (omega (arith, stamped.values_len))) refl,
          remember-IsStamped n cache fidx rank stamped inside,
          remember-IsFresh n cache fidx rank stamped fresh inside e,
        )
      ]
