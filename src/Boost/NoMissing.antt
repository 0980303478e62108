-- ===== src/Boost/NoMissing.antt =====
-- The traversals of crates/risk-quickscorer/src/l1.rs with and without a look at missing values.
use riskanvil.Base.{
  ℕ, false, Option, none, some, List, get_elem?, Result-cases, Option-cases, inl, inr, ◌≡◌, refl,
  Result, err,
}
use riskanvil.Base.Int.{ℤ}
use riskanvil.Base.Float.{Float32}
use riskanvil.Boost.Model.{
  panicked, SoaModel, TreeOrder, ApproxPolicy, InferMode, L1Error, Float64, Routed, as_usize,
}
use riskanvil.Boost.Ranks.{RankCache}
use riskanvil.Boost.Simulation.{Alike, traverse_by-Alike, traverse_approx_by-Alike, SameSteps}
use riskanvil.Boost.Traverse.{
  float_child, next_float, next_generic, traverse_float_nomiss_from, traverse_generic_from,
  traverse_approx_float_nomiss, traverse_approx_generic,
}

-- The same error, or the same score, decision, count of trees and mark, whatever is kept beside.
abbrev pub SameOutcome :
    {S T F : Type 0} → Result L1Error (S × Routed F) → Result L1Error (T × Routed F) → Type 0
SameOutcome = Alike (λ s t. Unit {0})

module _ {F : Type 0} ⦃f : Float32 F⦄ ⦃d : Float64 F⦄ (model : SoaModel F) (feat : List F) where
  abbrev pub NoNan : Type 0
  NoNan = (i : ℕ) (x : F) → get_elem? feat i ≡ some x → f.is_nan x ≡ false

  -- Out of range, the float search ends as the other one does.
  no_fidx : (idx : ℕ) → get_elem? model.fidx idx ≡ none → float_child model feat idx ≡ err panicked
  unfolding float_child
  no_fidx idx p = rw p refl

  no_feature :
      (idx : ℕ) (fidx : ℤ)
      → get_elem? model.fidx idx ≡ some fidx
      → get_elem? feat (as_usize fidx) ≡ none
      → float_child model feat idx ≡ err panicked
  unfolding float_child
  no_feature idx fidx p q = rw (p, q) refl

  no_nan_steps :
      NoNan
      → SameSteps
          (λ (s : Option RankCache) (t : Unit {0}). Unit {0})
          model
          (next_generic model feat none)
          (next_float model feat)
  unfolding next_generic next_float
  no_nan_steps no_nan idx s t flag h = elim (Option-cases (get_elem? model.fidx idx)) [
    | inl p ↦ rw (p, no_fidx idx p) refl
    | inr (fidx, p) ↦ elim (Option-cases (get_elem? feat (as_usize fidx))) [
      | inl q ↦ rw (p, q, no_feature idx fidx p q) refl
      | inr (x, q) ↦ elim (Result-cases (float_child model feat idx)) [
        | inl (e, r) ↦ rw (p, q, no_nan (as_usize fidx) x q, r) refl
        | inr (child, r) ↦ rw (p, q, no_nan (as_usize fidx) x q, r) (tt, refl)
      ]
    ]
  ]

  module _ (no_nan : NoNan) (threshold base_score : F) (plan : TreeOrder F) (eps bound_guard : F)
      (every : ℕ) where
    -- On a row without a NaN the traversals that look for missing values, without a rank pack,
    -- have the same error or the same score, decision, count of trees and mark as those that do
    -- not, whatever the model, the mode and the plan.
    pub traverse_generic-nomiss-eq :
        (cache : Option RankCache) (mode : InferMode) (policy : Option (ApproxPolicy F)) (first : ℕ)
        (approx : ApproxPolicy F)
        → SameOutcome
            (traverse_generic_from model threshold plan eps bound_guard every feat base_score none
              cache mode policy first)
            (traverse_float_nomiss_from model threshold plan eps bound_guard every feat base_score
              mode policy first)
          × SameOutcome
              (traverse_approx_generic model threshold plan eps bound_guard every feat base_score
                none cache approx)
              (traverse_approx_float_nomiss model threshold plan eps bound_guard every feat
                base_score approx)
    unfolding traverse_generic_from traverse_float_nomiss_from traverse_approx_generic
        traverse_approx_float_nomiss
    traverse_generic-nomiss-eq cache mode policy first approx = (
      traverse_by-Alike _ model threshold plan eps bound_guard every (next_generic model feat none)
          (next_float model feat) (no_nan_steps no_nan) mode policy first base_score cache tt tt,
      traverse_approx_by-Alike _ model threshold plan eps bound_guard every
          (next_generic model feat none) (next_float model feat) (no_nan_steps no_nan) approx
          base_score cache tt tt,
    )
