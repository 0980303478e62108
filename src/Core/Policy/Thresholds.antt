-- ===== src/Core/Policy/Thresholds.antt =====
-- Which threshold `resolve_threshold_with_route_meta` of crates/risk-core/src/quickscorer/policy.rs
-- gives.
use riskanvil.Base.{
  Option, none, some, List, [], ◌∷◌, ℕ, ok, if◌then◌else◌, ◌≡◌, refl, arith, inl, inr, Option-cases,
}
use riskanvil.Base.Int.{ℤ, int_eq_refl}
use riskanvil.Base.Float.{Float32}
use riskanvil.Core.Schema.{QuickRouteMeta}
use riskanvil.Core.Policy.{L2Policy, FoldMap, fold_get}
use riskanvil.Core.Policy.SegKey.{Formats, build_seg_key_bytes}
use riskanvil.Core.Policy.Resolve.{
  resolve_threshold_with_route_meta, select_fold, first_key_or, route_tau, seg_tau, is_some,
}

abbrev pub or_else {ℓ} : {A : Type ℓ} → Option A → A → A
or_else none d = d
or_else (some a) d = a

module _ {F : Type 0} ⦃f : Float32 F⦄ where
  fold_get-first : (k : ℤ) (v : F) (m : FoldMap F) → fold_get ((k, v) ∷ m) k ≡ some v
  fold_get-first k v m = rw (int_eq_refl k)

  chosen_has_tau :
      (m : FoldMap F) (requested : ℤ) (e : ℤ × F) (rest : FoldMap F)
      → m ≡ e ∷ rest
      → (g : F) × (fold_get m
            (if is_some (fold_get m requested) then requested else first_key_or m requested)
          ≡ some g)
  chosen_has_tau m requested e rest h = elim (Option-cases (fold_get m requested)) [
    | inr (g, p) ↦ (g, rw p p)
    | inl p ↦ (e.1, rw p (rw h (fold_get-first e.0 e.1 rest)))
  ]

  -- With any global threshold loaded, the selected fold has one, whichever fold the route asks
  -- for.
  pub select_fold-has_tau :
      (policy : L2Policy F) (route_meta : Option (QuickRouteMeta F)) (e : ℤ × F) (m : FoldMap F)
      → policy.tau_global_by_fold ≡ e ∷ m
      → (g : F) × (fold_get policy.tau_global_by_fold (select_fold policy route_meta) ≡ some g)
  unfolding select_fold
  select_fold-has_tau policy none e m h =
      chosen_has_tau policy.tau_global_by_fold policy.default_fold e m h
  select_fold-has_tau policy (some meta) e m h =
      chosen_has_tau policy.tau_global_by_fold meta.fold_id e m h

  module _ (text : Formats F) where
    -- The threshold.
    abbrev pub expected_tau : L2Policy F → List F → Option (QuickRouteMeta F) → F → F
    expected_tau policy row_l2 route_meta g = or_else (route_tau route_meta) (
        if policy.seg_enabled
        then or_else
            (seg_tau policy.tau_map_by_fold (select_fold policy route_meta)
              (build_seg_key_bytes text policy row_l2 route_meta []))
            g
        else g)

    build_seg_key_bytes-clears :
        (policy : L2Policy F) (row_l2 : List F) (route_meta : Option (QuickRouteMeta F))
        (buf : List ℕ)
        → build_seg_key_bytes text policy row_l2 route_meta buf
          ≡ build_seg_key_bytes text policy row_l2 route_meta []
    unfolding build_seg_key_bytes
    build_seg_key_bytes-clears policy row_l2 none buf = refl
    build_seg_key_bytes-clears policy row_l2 (some meta) buf = refl

    -- With any global threshold loaded a threshold is found, whatever the key buffer held before:
    -- the one of the route, or else that of the row's segment if segments are enabled and it has
    -- one, or else the global one of the selected fold, which has one.
    pub resolve_threshold-total :
        (policy : L2Policy F) (row_l2 : List F) (route_meta : Option (QuickRouteMeta F))
        (buf : List ℕ) (e : ℤ × F) (m : FoldMap F)
        → policy.tau_global_by_fold ≡ e ∷ m
        → (g : F) × (fold_get policy.tau_global_by_fold (select_fold policy route_meta) ≡ some g)
          × ((resolve_threshold_with_route_meta text policy row_l2 route_meta buf).0
              ≡ ok (record {
                fold = select_fold policy route_meta;
                tau = expected_tau policy row_l2 route_meta g;
              }))
    unfolding resolve_threshold_with_route_meta
    resolve_threshold-total policy row_l2 route_meta buf e m h =
        let (g, has) = select_fold-has_tau policy route_meta e m h in
        (g, has, ground (arith, build_seg_key_bytes-clears policy row_l2 route_meta buf))

    -- The resolved threshold, or the error, does not depend on what the key buffer held before.
    pub resolve_threshold-clears :
        (policy : L2Policy F) (row_l2 : List F) (route_meta : Option (QuickRouteMeta F))
        (buf : List ℕ)
        → (resolve_threshold_with_route_meta text policy row_l2 route_meta buf).0
          ≡ (resolve_threshold_with_route_meta text policy row_l2 route_meta []).0
    unfolding resolve_threshold_with_route_meta
    resolve_threshold-clears policy row_l2 route_meta buf =
        ground (arith, build_seg_key_bytes-clears policy row_l2 route_meta buf)
