-- ===== src/Core/Policy/Resolve.antt =====
-- `select_fold` and `resolve_threshold_with_route_meta`.
use riskanvil.Base.{
  Bool, true, false, Option, none, some, List, [], ◌∷◌, ℕ, Result, ok, err, if◌then◌else◌,
}
use riskanvil.Base.Int.{ℤ}
use riskanvil.Base.Float.{Float32}
use riskanvil.Core.Schema.{QuickRouteMeta}
use riskanvil.Core.Policy.{L2Policy, ResolvedL2Threshold, FoldMap, fold_get, key_get}
use riskanvil.Core.Policy.SegKey.{Formats, build_seg_key_bytes}

pub data PolicyError : Type 0 where
  threshold_unavailable : PolicyError

abbrev pub is_some {ℓ} : {A : Type ℓ} → Option A → Bool
is_some none = false
is_some (some a) = true

module _ {F : Type 0} ⦃f : Float32 F⦄ where
  abbrev requested_fold : L2Policy F → Option (QuickRouteMeta F) → ℤ
  requested_fold policy none = policy.default_fold
  requested_fold policy (some meta) = meta.fold_id

  abbrev pub first_key_or : FoldMap F → ℤ → ℤ
  first_key_or [] requested = requested
  first_key_or ((k, v) ∷ m) requested = k

  unfoldable pub select_fold : L2Policy F → Option (QuickRouteMeta F) → ℤ
  select_fold policy route_meta =
      let requested = requested_fold policy route_meta in
      if is_some (fold_get policy.tau_global_by_fold requested)
      then requested
      else first_key_or policy.tau_global_by_fold requested

  abbrev pub route_tau : Option (QuickRouteMeta F) → Option F
  route_tau none = none
  route_tau (some meta) = meta.l2_tau_used

  abbrev resolved_at : ℤ → F → ResolvedL2Threshold F
  resolved_at fold tau = record { fold = fold; tau = tau }

  abbrev last_resort : FoldMap F → ℤ → Result PolicyError (ResolvedL2Threshold F)
  last_resort [] fold = err threshold_unavailable
  last_resort ((k, v) ∷ m) fold = ok (resolved_at fold v)

  abbrev global_tau : FoldMap F → ℤ → Result PolicyError (ResolvedL2Threshold F)
  global_tau m fold = elim (fold_get m fold) [
    | some v ↦ ok (resolved_at fold v)
    | none ↦ last_resort m fold
  ]

  abbrev pub seg_tau : FoldMap (List (List ℕ × F)) → ℤ → List ℕ → Option F
  seg_tau m fold key = elim (fold_get m fold) [ none ↦ none | some by_key ↦ key_get by_key key ]

  module _ (text : Formats F) where
    -- The threshold, and the key buffer as the call leaves it.
    unfoldable pub resolve_threshold_with_route_meta :
        L2Policy F
        → List F
        → Option (QuickRouteMeta F)
        → List ℕ
        → Result PolicyError (ResolvedL2Threshold F) × List ℕ
    resolve_threshold_with_route_meta policy row_l2 route_meta seg_key_buf =
        let fold = select_fold policy route_meta in
        let key = build_seg_key_bytes text policy row_l2 route_meta seg_key_buf in
        let global = global_tau policy.tau_global_by_fold fold in
        elim (route_tau route_meta) [
          | some tau ↦ (ok (resolved_at fold tau), seg_key_buf)
          | none ↦
              if policy.seg_enabled
              then (
                elim (seg_tau policy.tau_map_by_fold fold key) [
                  | some v ↦ ok (resolved_at fold v)
                  | none ↦ global
                ],
                key,
              )
              else (global, seg_key_buf)
        ]

    unfoldable pub resolve_threshold_with_buf :
        L2Policy F → List F → List ℕ → Result PolicyError F × List ℕ
    resolve_threshold_with_buf policy row_l2 seg_key_buf =
        let (r, buf) = resolve_threshold_with_route_meta policy row_l2 none seg_key_buf in
        (elim r [ ok t ↦ ok t.tau | err e ↦ err e ], buf)

    unfoldable pub resolve_threshold : L2Policy F → List F → Result PolicyError F
    resolve_threshold policy row_l2 =
        elim ((resolve_threshold_with_route_meta policy row_l2 none []).0) [
          | ok t ↦ ok t.tau
          | err e ↦ err e
        ]
