-- ===== src/Examples/Thresholds.antt =====
-- The thresholds of the policy with two folds.
use riskanvil.Base.{ℕ, some, [], ◌∷◌, ok, ◌≡◌, refl}
use riskanvil.Base.Int.{pos}
use riskanvil.Core.Policy.{fold_get}
use riskanvil.Core.Policy.Resolve.{select_fold, resolve_threshold_with_route_meta}
use riskanvil.Core.Policy.Thresholds.{resolve_threshold-total, expected_tau}
use riskanvil.Examples.Data.{whole, text, l2_policy, meta}

-- The segment's threshold 9 goes before the fold's 4.
resolve_threshold-total_example :
    (g : ℕ) × (fold_get l2_policy.tau_global_by_fold (select_fold l2_policy (some meta)) ≡ some g)
    × ((resolve_threshold_with_route_meta text l2_policy (5 ∷ []) (some meta) (1 ∷ [])).0
        ≡ ok (record {
          fold = select_fold l2_policy (some meta);
          tau = expected_tau text l2_policy (5 ∷ []) (some meta) g;
        }))
resolve_threshold-total_example =
    resolve_threshold-total text l2_policy (5 ∷ []) (some meta) (1 ∷ []) (pos 1, 3)
      ((pos 2, 4) ∷ []) refl
