-- ===== src/Core/Engine/Scratch.antt =====
-- The thread's buffers of crates/risk-core/src/quickscorer/engine.rs, which every call reuses, the
-- computations over them, and the steps that both the single and the batch path are made of.
use riskanvil.Base.{
  ℕ, suc, ◌+◌, ◌*◌, ◌-◌, Bool, true, false, Option, none, some, List, [], ◌∷◌, ◌++◌, ◌==◌,
  if◌then◌else◌, length, take, drop, set, replicate, get_elem?, ltb, Result, ok, err, ok_or, ◌≡◌,
  ap,
}
use riskanvil.Base.Bytes.{checked_mul}
use riskanvil.Base.Int.{ℤ}
use riskanvil.Base.Float.{Float32}
use riskanvil.Core.Schema.{Decision, QuickRouteMeta}
use riskanvil.Core.Decisions.{l2_is_reject, final_decision}
use riskanvil.Core.Policy.{L2Policy, L2FeatureSource, from_l1, l1_score}
use riskanvil.Core.Policy.SegKey.{Formats}
use riskanvil.Core.Policy.Resolve.{resolve_threshold_with_route_meta}

pub record QuickTlsScratch (F : Type 0) : Type 0 where
  pub l1_feat : List F
  pub l2_row : List F
  pub seg_key_buf : List ℕ
  pub batch_l1 : List F
  pub batch_l1_scores : List F
  pub batch_survivors : List ℕ

pub record L1Output (F : Type 0) : Type 0 where
  pub score : F
  pub passed : Bool

pub record L2Output (F : Type 0) : Type 0 where
  pub score : F
  pub reject : Bool

-- `MinpackRuntime` as the engine sees it: the dimensions and the two traversals, which depend on
-- their arguments alone. `E` is the type of their errors.
pub record Runtime (F : Type 0) (E : Type 0) : Type 0 where
  pub l1_dim : ℕ
  pub l2_dim : ℕ
  pub predict_l1_feat_nomiss : List F → Result E (L1Output F)
  pub predict_l2_row_nomiss : List F → F → ℤ → Result E (L2Output F)

-- `panicked` is an index out of range.
pub data EngineError (E : Type 0) : Type 0 where
  l1_dim_too_large batch_too_large threshold_unavailable panicked : EngineError E
  size_mismatch : ℕ → ℕ → EngineError E
  runtime_failed : E → EngineError E

-- A computation over the buffers. They keep what was written before an error.
abbrev pub M : Type 0 → Type 0 → Type 0 → Type 0
M F E A = QuickTlsScratch F → Result (EngineError E) A × QuickTlsScratch F

infixl 5 ◌>>=◌ ◌>>◌
abbrev pub ◌>>=◌ : {F E A B : Type 0} → M F E A → (A → M F E B) → M F E B
◌>>=◌ m k s = let r = m s in elim (r.0) [ err e ↦ (err e, r.1) | ok a ↦ k a r.1 ]

abbrev pub ◌>>◌ : {F E B : Type 0} → M F E (Unit {0}) → M F E B → M F E B
m >> k = m >>= λ _. k

abbrev pub pure : {F E A : Type 0} → A → M F E A
pure a s = (ok a, s)

abbrev pub lift : {F E A : Type 0} → Result (EngineError E) A → M F E A
lift r s = (r, s)

abbrev pub gets : {F E A : Type 0} → (QuickTlsScratch F → A) → M F E A
gets g s = (ok (g s), s)

abbrev pub modify : {F E : Type 0} → (QuickTlsScratch F → QuickTlsScratch F) → M F E (Unit {0})
modify g s = (ok tt, g s)

abbrev pub ensure : {E : Type 0} → Bool → EngineError E → Result (EngineError E) (Unit {0})
ensure true e = ok tt
ensure false e = err e

-- The value of a slice access, which panics out of range.
abbrev pub or_panic : {E A : Type 0} → Option A → Result (EngineError E) A
or_panic o = ok_or o panicked

abbrev pub from_runtime : {E A : Type 0} → Result E A → Result (EngineError E) A
from_runtime (ok a) = ok a
from_runtime (err e) = err (runtime_failed e)

-- A step that succeeds hands its value and its buffers on.
pub >>=-ok :
    {F E A B : Type 0} (m : M F E A) (k : A → M F E B) (s : QuickTlsScratch F) {a : A}
    {t : QuickTlsScratch F}
    → m s ≡ (ok a, t)
    → (m >>= k) s ≡ k a t
>>=-ok {F} {E} {A} {B} m k s h = ap run h
  where
    run :
        Result (EngineError E) A × QuickTlsScratch F → Result (EngineError E) B × QuickTlsScratch F
    run r = elim (r.0) [ err e ↦ (err e, r.1) | ok a ↦ k a r.1 ]

-- `v.resize(n, x)`
unfoldable pub resize : {A : Type 0} → List A → ℕ → A → List A
resize xs n x = take n xs ++ replicate (n - length xs) x

-- `if v.len() != n { v.resize(n, x) }`
unfoldable pub ensure_len : {A : Type 0} → List A → ℕ → A → List A
unfolding resize
ensure_len xs n x = if length xs == n then xs else resize xs n x

-- `copy_nonoverlapping` onto the elements from `off` on.
unfoldable pub splice : {A : Type 0} → List A → ℕ → List A → List A
splice xs off ys = take off xs ++ (ys ++ drop (off + length ys) xs)

module _ {F : Type 0} ⦃f : Float32 F⦄ where
  -- The `f32` values that little-endian bytes stand for, four bytes each.
  unfoldable pub floats : List ℕ → List F
  floats (a ∷ b ∷ c ∷ d ∷ rest) = f.from_bits (a + b * 256 + c * 65536 + d * 16777216) ∷ floats rest
  floats _ = []

  -- The buffer behind the call, or the error.
  unfoldable pub decode_dense_f32le_into :
      {E : Type 0} → List ℕ → ℕ → List F → Result (EngineError E) (List F)
  decode_dense_f32le_into bytes dim out = elim (checked_mul dim 4) [
    | none ↦ err l1_dim_too_large
    | some need ↦
        if length bytes == need
        then ok (splice (ensure_len out dim f.zero_f) 0 (floats bytes))
        else err (size_mismatch (length bytes) need)
  ]

  abbrev pub source_value : List F → F → L2FeatureSource → Option F
  source_value l1_feat score (from_l1 idx) = get_elem? l1_feat idx
  source_value l1_feat score l1_score = some score

  abbrev write : List F → ℕ → F → Option (List F)
  write out i v = if ltb i (length out) then some (set out i v) else none

  -- The loop of `materialize_l2_row_into` from position `i` on; `none` is a panic.
  unfoldable pub fill_l2_row : List F → F → List L2FeatureSource → ℕ → List F → Option (List F)
  fill_l2_row l1_feat score [] i out = some out
  fill_l2_row l1_feat score (src ∷ rest) i out = elim (source_value l1_feat score src) [
    | none ↦ none
    | some v ↦ elim (write out i v) [
      | none ↦ none
      | some out' ↦ fill_l2_row l1_feat score rest (suc i) out'
    ]
  ]

  unfoldable pub materialize_l2_row_into : List F → F → L2Policy F → List F → Option (List F)
  materialize_l2_row_into l1_feat score policy out =
      fill_l2_row l1_feat score policy.feature_sources 0 (ensure_len out policy.dim f.nan_f)

  module _ {E : Type 0} (text : Formats F) (rt : Runtime F E) where
    -- The second stage on one row, the same statements in the single and in the batch path: the row
    -- is built in `l2_row`, its threshold is resolved, and the runtime scores it.
    unfoldable pub l2_stage :
        L2Policy F → List F → F → Option (QuickRouteMeta F) → M F E (F × Decision)
    l2_stage policy l1_feat score route_meta s =
        elim (materialize_l2_row_into l1_feat score policy s.l2_row) [
          | none ↦ (err panicked, s)
          | some row ↦
              let r = resolve_threshold_with_route_meta text policy row route_meta s.seg_key_buf in
              let s' = record s { l2_row = row; seg_key_buf = r.1 } in
              elim (r.0) [
                | err e ↦ (err threshold_unavailable, s')
                | ok t ↦ elim (rt.predict_l2_row_nomiss row t.tau t.fold) [
                  | err e ↦ (err (runtime_failed e), s')
                  | ok out ↦ (
                    ok (out.score, final_decision false (some (l2_is_reject out.score t.tau))),
                    s',
                  )
                ]
              ]
        ]
