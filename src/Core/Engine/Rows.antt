-- ===== src/Core/Engine/Rows.antt =====
-- The rows that the two stages of crates/risk-core/src/quickscorer/engine.rs are given.
use mathlib.Core.List.{append-nil, append_assoc}
use riskanvil.Base.{
  ℕ, zero, suc, ◌+◌, ◌*◌, ◌<◌, ◌^◌, Option, none, some, List, [], ◌∷◌, ◌++◌, length, set, ok, ◌≡◌,
  refl, arith, take, ap, ◌∙◌, sym, take_all, Option-cases, inl, inr, length-set, lt→ltb,
}
use riskanvil.Base.Float.{Float32}
use riskanvil.Core.Policy.{L2FeatureSource, L2Policy}
use riskanvil.Core.Engine.Scratch.{
  ensure_len, floats, decode_dense_f32le_into, fill_l2_row, source_value, materialize_l2_row_into,
}
use riskanvil.Core.Engine.Buffers.{length-ensure_len, splice_whole, take-suc-set}

pub length-floats :
    (F : Type 0) ⦃f : Float32 F⦄ (dim : ℕ) (bytes : List ℕ)
    → length bytes ≡ dim * 4
    → length (floats {F = F} bytes) ≡ dim
unfolding floats
length-floats F zero [] h = refl
length-floats F zero (a ∷ bytes) h = absurd (omega arith)
length-floats F (suc dim) [] h = absurd (omega arith)
length-floats F (suc dim) (a ∷ []) h = absurd (omega arith)
length-floats F (suc dim) (a ∷ b ∷ []) h = absurd (omega arith)
length-floats F (suc dim) (a ∷ b ∷ c ∷ []) h = absurd (omega arith)
length-floats F (suc dim) (a ∷ b ∷ c ∷ d ∷ rest) h =
    omega (arith, length-floats F dim rest (omega arith))

module _ {F : Type 0} ⦃f : Float32 F⦄ where
  -- The decoded row does not depend on the buffer.
  pub decode_dense_f32le_into_lem :
      {E : Type 0} (bytes : List ℕ) (dim : ℕ) (out : List F)
      → length bytes ≡ dim * 4
      → dim * 4 < 2 ^ 64
      → decode_dense_f32le_into {E = E} bytes dim out ≡ ok (floats bytes)
  unfolding decode_dense_f32le_into
  decode_dense_f32le_into_lem bytes dim out l fits = ground (
    arith,
    splice_whole (ensure_len out dim f.zero_f) (floats bytes)
        (length-ensure_len out dim f.zero_f ∙ sym (length-floats F dim bytes l)),
  )

  -- The values of a row of the second stage, or `none` where a source is out of range.
  pub source_values : List F → F → List L2FeatureSource → Option (List F)
  source_values l1_feat score [] = some []
  source_values l1_feat score (src ∷ rest) = elim (source_value l1_feat score src) [
    | none ↦ none
    | some v ↦ elim (source_values l1_feat score rest) [ none ↦ none | some vs ↦ some (v ∷ vs) ]
  ]

  abbrev behind : List F → Option (List F) → Option (List F)
  behind front none = none
  behind front (some vs) = some (front ++ vs)

  behind_nil : (vs : Option (List F)) → behind [] vs ≡ vs
  behind_nil none = refl
  behind_nil (some vs) = refl

  behind_cons :
      (front : List F) (v : F) (vs : Option (List F))
      → behind (front ++ v ∷ []) vs
        ≡ behind front (elim vs [ none ↦ none | some ws ↦ some (v ∷ ws) ])
  behind_cons front v none = refl
  behind_cons front v (some vs) = ap some (append_assoc front (v ∷ []) vs)

  fill_l2_row-eq :
      (l1_feat : List F) (score : F) (srcs : List L2FeatureSource) (i : ℕ) (out : List F)
      → i + length srcs ≡ length out
      → fill_l2_row l1_feat score srcs i out
        ≡ behind (take i out) (source_values l1_feat score srcs)
  unfolding fill_l2_row source_values
  fill_l2_row-eq l1_feat score [] i out h =
      ap some (sym (append-nil (take i out) ∙ take_all i out (omega arith)))
  fill_l2_row-eq l1_feat score (src ∷ rest) i out h =
      elim (Option-cases (source_value l1_feat score src)) [
        | inl p ↦ rw (p, fill_l2_row, source_values)
        | inr (v, p) ↦
            let step =
              fill_l2_row-eq l1_feat score rest (suc i) (set out i v)
                (omega (arith, length-set out i v)) in
            let below : i < length out = omega arith in
            let front = take-suc-set i out v below in
            rw (p, fill_l2_row, source_values)
              (rw (lt→ltb _ _ below)
                (step ∙ rw front (behind_cons (take i out) v (source_values l1_feat score rest))))
      ]

  -- A row of the second stage has the values of its sources, and nothing of the buffer.
  pub materialize_l2_row_into_lem :
      (l1_feat : List F) (score : F) (policy : L2Policy F) (out : List F)
      → length policy.feature_sources ≡ policy.dim
      → materialize_l2_row_into l1_feat score policy out
        ≡ source_values l1_feat score policy.feature_sources
  unfolding materialize_l2_row_into
  materialize_l2_row_into_lem l1_feat score policy out h =
      let row = ensure_len out policy.dim f.nan_f in
      fill_l2_row-eq l1_feat score policy.feature_sources 0 row
        (omega (arith, length-ensure_len out policy.dim f.nan_f))
      ∙ behind_nil (source_values l1_feat score policy.feature_sources)
