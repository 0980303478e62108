-- ===== src/Boost/Policies.antt =====
-- `load_approx_policy` of crates/risk-quickscorer/src/prefix.rs, from the parsed JSON on.
use riskanvil.Base.{
  ℕ, max, Bool, not, ◌&&◌, ◌||◌, Option, none, some, List, [], ◌∷◌, map, length, replicate, ◌==◌,
  if◌then◌else◌, Result, ok, ◌>>◌, ensure,
}
use riskanvil.Base.Float.{Float32}
use riskanvil.Boost.Exits.{is_empty, used_tau_positive}
use riskanvil.Boost.Model.{ApproxPolicy, L1Error, compacted_length_mismatch, length_mismatch}

-- `reject` if there are any, and `pass` otherwise.
abbrev positive_len : {A : Type 0} → List A → List A → ℕ
positive_len reject pass = if not (is_empty reject) then length reject else length pass

-- `iter().copied().max().unwrap_or(0)`
abbrev largest : List ℕ → ℕ
largest [] = 0
largest (x ∷ xs) = max x (largest xs)

module _ {F : Type 0} where
  abbrev pub has_used : ApproxPolicy F → Bool
  has_used policy =
      not (is_empty policy.used_checkpoints)
      || (not (is_empty policy.used_tau_ref)
          || (not (is_empty policy.used_tau_pass) || not (is_empty policy.used_tau_reject)))

  abbrev pub used_pos : ApproxPolicy F → ℕ
  used_pos policy = positive_len policy.used_tau_reject policy.used_tau_pass

  abbrev pub raw_pos : ApproxPolicy F → ℕ
  raw_pos policy = positive_len policy.tau_reject policy.tau_pass

  abbrev pub checked : ApproxPolicy F → Result L1Error (Unit {0})
  checked policy =
      if has_used policy
      then ensure
          ((length policy.used_checkpoints == length policy.used_tau_ref)
            && (length policy.used_checkpoints == used_pos policy))
          compacted_length_mismatch
      else ensure
          ((length policy.checkpoints == length policy.tau_ref)
            && (length policy.checkpoints == raw_pos policy))
          length_mismatch

  -- The raw arrays stand in for the used ones that are missing.
  abbrev pub from_raw : ApproxPolicy F → ApproxPolicy F
  from_raw policy =
      let by_reject = not (is_empty policy.tau_reject) in
      record {
        checkpoints = policy.checkpoints;
        tau_ref = policy.tau_ref;
        tau_pass = policy.tau_pass;
        tau_reject = policy.tau_reject;
        used_checkpoints = policy.checkpoints;
        used_tau_ref = policy.tau_ref;
        used_tau_pass = if by_reject then policy.used_tau_pass else policy.tau_pass;
        used_tau_reject = if by_reject then policy.tau_reject else policy.used_tau_reject;
        used_tau_ref_dense = policy.used_tau_ref_dense;
        used_tau_positive_dense = policy.used_tau_positive_dense;
        k_hot = policy.k_hot;
        checkpoint_exit_counts = policy.checkpoint_exit_counts;
      }

module _ {F : Type 0} ⦃f : Float32 F⦄ where
  -- `v.unwrap_or(f32::NAN)`
  abbrev pub or_nan : Option F → F
  or_nan none = f.nan_f
  or_nan (some v) = v

  -- The fields that are filled from the others, where `positive` is the count of positive
  -- thresholds before the raw arrays stood in.
  abbrev pub fill : ℕ → ApproxPolicy F → ApproxPolicy F
  fill positive policy = record {
    checkpoints = policy.checkpoints;
    tau_ref = policy.tau_ref;
    tau_pass = policy.tau_pass;
    tau_reject = policy.tau_reject;
    used_checkpoints = policy.used_checkpoints;
    used_tau_ref = policy.used_tau_ref;
    used_tau_pass = policy.used_tau_pass;
    used_tau_reject = policy.used_tau_reject;
    used_tau_ref_dense =
        if length policy.used_tau_ref_dense == length policy.used_tau_ref
        then policy.used_tau_ref_dense
        else map or_nan policy.used_tau_ref;
    used_tau_positive_dense =
        if length policy.used_tau_positive_dense == positive
        then policy.used_tau_positive_dense
        else map or_nan (used_tau_positive policy);
    k_hot = if policy.k_hot == 0 then largest policy.used_checkpoints else policy.k_hot;
    checkpoint_exit_counts =
        if length policy.checkpoint_exit_counts == length policy.used_checkpoints
        then policy.checkpoint_exit_counts
        else replicate (length policy.used_checkpoints) 0;
  }

  unfoldable pub load_approx_policy : ApproxPolicy F → Result L1Error (ApproxPolicy F)
  load_approx_policy policy = do
    checked policy
    let used = if has_used policy then policy else from_raw policy
    ok (fill (used_pos policy) used)
