-- ===== src/Boost/Dense.antt =====
-- The dense thresholds of a policy of crates/risk-quickscorer/src/prefix.rs, as it is loaded and as
-- the tests after a tree read them.
use riskanvil.Base.{
  length-map, ℕ, zero, suc, ◌<◌, Bool, true, false, not, ◌&&◌, ◌||◌, Bool-cases, List, [], ◌∷◌, map,
  length, get_or, ◌==◌, ==→eq, if◌then◌else◌, ok, err, ◌>>◌, ensure, inl, inr, ◌≡◌, ◌∙◌, sym, ◌⊎◌,
  ◌-◌, ◌^◌, refl, arith,
}
use riskanvil.Base.Float.{Float32}
use riskanvil.Boost.Exits.{is_empty, used_tau_positive}
use riskanvil.Boost.Hot.{usize_max, exit_slot, hot_check}
use riskanvil.Boost.Model.{ApproxPolicy, L1Error, panicked, fetch}
use riskanvil.Boost.Totality.{if-IsOk, IsOk, IsOk-bind, fetch-inside}
use riskanvil.Boost.Policies.{used_pos, has_used, or_nan, fill, load_approx_policy}

length-if_same :
    {A : Type 0} (xs ys : List A) (n : ℕ)
    → length ys ≡ n
    → length (if length xs == n then xs else ys) ≡ n
length-if_same xs ys n h = elim (Bool-cases (length xs == n)) [
  | inl p ↦ rw p (==→eq (length xs) n p)
  | inr p ↦ rw p h
]

get_or-inside : {A : Type 0} (xs : List A) (i : ℕ) (d : A) → (i < length xs) ⊎ (get_or xs i d ≡ d)
get_or-inside [] i d = inr refl
get_or-inside (x ∷ xs) zero d = inl (omega arith)
get_or-inside (x ∷ xs) (suc i) d = elim (get_or-inside xs i d) [
  | inl h ↦ inl (omega (arith, h))
  | inr e ↦ inr e
]

or_false : (a b : Bool) → (a || b) ≡ false → (a ≡ false) × (b ≡ false)
or_false true b h = absurd (ground (arith, h))
or_false false b h = (refl, h)

not-false : (a : Bool) → not a ≡ false → a ≡ true
not-false true h = refl
not-false false h = absurd (ground (arith, h))

and_true : (a b : Bool) → (a && b) ≡ true → (a ≡ true) × (b ≡ true)
and_true true b h = (refl, h)
and_true false b h = absurd (ground (arith, h))

is_empty→nil : {A : Type 0} (xs : List A) → is_empty xs ≡ true → xs ≡ []
is_empty→nil [] h = refl
is_empty→nil (x ∷ xs) h = absurd (ground (arith, h))

no_used_pos : {F : Type 0} (policy : ApproxPolicy F) → has_used policy ≡ false → used_pos policy ≡ 0
no_used_pos policy h =
    let (no_checkpoints, h') = or_false _ _ h in
    let (no_refs, h'') = or_false _ _ h' in
    let (no_pass, no_reject) = or_false _ _ h'' in
    let pass_nil = is_empty→nil policy.used_tau_pass (not-false _ no_pass) in
    let reject_nil = is_empty→nil policy.used_tau_reject (not-false _ no_reject) in
    rw (pass_nil, reject_nil) refl

ensure-ok :
    {A : Type 0} (b : Bool) (e : L1Error) (x y : A)
    → (ensure b e >> ok x) ≡ ok y
    → (b ≡ true) × (x ≡ y)
ensure-ok true e x y h = (refl, ground (arith, h))
ensure-ok false e x y h = absurd (ground (arith, h))

module _ {F : Type 0} ⦃f : Float32 F⦄ where
  length-used_tau_positive :
      (policy : ApproxPolicy F) → length (used_tau_positive policy) ≡ used_pos policy
  length-used_tau_positive policy = elim (Bool-cases (is_empty policy.used_tau_reject)) [
    | inl p ↦ rw p refl
    | inr p ↦ rw p refl
  ]

  exit_slot-IsOk :
      (policy : ApproxPolicy F) (margin : F) (slot : ℕ)
      → length policy.used_tau_ref_dense ≡ length policy.used_checkpoints
      → length policy.used_tau_positive_dense ≡ length policy.used_checkpoints
      → slot < length policy.used_checkpoints
      → IsOk (exit_slot margin policy slot)
  unfolding exit_slot
  exit_slot-IsOk policy margin slot a b h =
      IsOk-bind (fetch policy.used_tau_ref_dense slot) _
        (fetch-inside policy.used_tau_ref_dense slot (omega arith))
        (λ tau p.
          if-IsOk _ _ _ (_, refl)
            (IsOk-bind (fetch policy.used_tau_positive_dense slot) _
              (fetch-inside policy.used_tau_positive_dense slot (omega arith))
              (λ tau' q. (_, refl))))

  pub hot_check-IsOk :
      (policy : ApproxPolicy F) (margin : F) (m_end cp : ℕ)
      → length policy.used_tau_ref_dense ≡ length policy.used_checkpoints
      → length policy.used_tau_positive_dense ≡ length policy.used_checkpoints
      → m_end < 2 ^ 64 - 1
      → IsOk (hot_check policy margin m_end cp)
  unfolding hot_check usize_max
  hot_check-IsOk policy margin m_end cp a b h =
      let next_cp = get_or policy.used_checkpoints cp usize_max in
      elim (Bool-cases (m_end == next_cp)) [
        | inr p ↦ rw p (_, refl)
        | inl p ↦ elim (get_or-inside policy.used_checkpoints cp usize_max) [
          | inl inside ↦ rw p (exit_slot-IsOk policy margin cp a b inside)
          | inr e ↦ absurd (omega (arith, ==→eq m_end next_cp p, e))
        ]
      ]

  -- A policy that is loaded from a file with compacted arrays has as many dense thresholds of both
  -- kinds as checkpoints, so that the test after any tree below usize::MAX reads within range.
  pub load_approx_policy-in_range :
      (policy loaded : ApproxPolicy F) (margin : F) (m_end cp : ℕ)
      → has_used policy ≡ true
      → load_approx_policy policy ≡ ok loaded
      → m_end < 2 ^ 64 - 1
      → (length loaded.used_tau_ref_dense ≡ length loaded.used_checkpoints)
        × (length loaded.used_tau_positive_dense ≡ length loaded.used_checkpoints)
        × IsOk (hot_check loaded margin m_end cp)
  unfolding load_approx_policy
  load_approx_policy-in_range policy loaded margin m_end cp used h small =
      let (test, filled) = ensure-ok _ _ _ _ (rw used at h) in
      let (ref_len, positive) = and_true _ _ test in
      let refs = ==→eq (length policy.used_checkpoints) (length policy.used_tau_ref) ref_len in
      let positives = ==→eq (length policy.used_checkpoints) (used_pos policy) positive in
      let dense_refs : length (fill (used_pos policy) policy).used_tau_ref_dense
          ≡ length policy.used_checkpoints =
        length-if_same policy.used_tau_ref_dense (map or_nan policy.used_tau_ref) _
          (length-map or_nan policy.used_tau_ref)
        ∙ sym refs in
      let dense_positives : length (fill (used_pos policy) policy).used_tau_positive_dense
          ≡ length policy.used_checkpoints =
        length-if_same policy.used_tau_positive_dense (map or_nan (used_tau_positive policy)) _
          (length-map or_nan (used_tau_positive policy) ∙ length-used_tau_positive policy)
        ∙ sym positives in
      rw (← filled) (
        dense_refs,
        dense_positives,
        hot_check-IsOk (fill (used_pos policy) policy) margin m_end cp dense_refs dense_positives
            small,
      )

  -- A policy that is loaded from a file with raw arrays alone and without dense ones keeps an
  -- empty dense array of positive thresholds beside as many checkpoints as the file has, so that a
  -- checkpoint with a threshold that does not refer the row reads out of range.
  pub load_approx_policy-raw :
      (policy loaded : ApproxPolicy F) (margin tau : F) (i : ℕ)
      → has_used policy ≡ false
      → is_empty policy.used_tau_positive_dense ≡ true
      → load_approx_policy policy ≡ ok loaded
      → fetch loaded.used_tau_ref_dense i ≡ ok tau
      → (not (f.is_nan tau) && f.le margin tau) ≡ false
      → (length loaded.used_checkpoints ≡ length policy.checkpoints)
        × (loaded.used_tau_positive_dense ≡ [])
        × (exit_slot margin loaded i ≡ err panicked)
  unfolding load_approx_policy exit_slot
  load_approx_policy-raw policy loaded margin tau i raw empty h p no_refer =
      let (test, filled) = ensure-ok _ _ _ _ (rw raw at h) in
      let none_used = no_used_pos policy raw in
      let nothing = is_empty→nil policy.used_tau_positive_dense empty in
      let positive_nil : loaded.used_tau_positive_dense ≡ [] =
        rw (← filled, none_used, nothing) refl in
      let same_len : length loaded.used_checkpoints ≡ length policy.checkpoints =
        rw (← filled) refl in
      (same_len, positive_nil, rw (p, no_refer, positive_nil) refl)
