-- ===== src/Core/Policy.antt =====
-- crates/risk-core/src/quickscorer/policy.rs: which threshold applies to a row of the second stage.
pub mod SegKey
pub mod Resolve
pub mod Thresholds
use Prim.Native.String.{String}
use riskanvil.Base.{ℕ, Bool, Option, none, some, List, [], ◌∷◌, if◌then◌else◌, bytes_eq}
use riskanvil.Base.Int.{ℤ, int_eq}

pub data L2FeatureSource : Type 0 where
  from_l1 : ℕ → L2FeatureSource
  l1_score : L2FeatureSource

-- `HashMap<i32, V>`, and `BTreeMap<i32, V>` with its entries in the order of their keys.
abbrev pub FoldMap : Type 0 → Type 0
FoldMap V = List (ℤ × V)

module _ {V : Type 0} where
  abbrev pub fold_get : FoldMap V → ℤ → Option V
  fold_get [] k = none
  fold_get ((j, v) ∷ m) k = if int_eq j k then some v else fold_get m k

  abbrev pub first_key_value : FoldMap V → Option (ℤ × V)
  first_key_value [] = none
  first_key_value (e ∷ m) = some e

  -- `HashMap<Vec<u8>, V>`
  abbrev pub key_get : List (List ℕ × V) → List ℕ → Option V
  key_get [] k = none
  key_get ((j, v) ∷ m) k = if bytes_eq j k then some v else key_get m k

pub record L2Policy (F : Type 0) : Type 0 where
  pub dim : ℕ
  pub feature_sources : List L2FeatureSource
  pub seg_enabled : Bool
  pub seg_cols : List String
  pub seg_indices : List ℕ
  pub tau_map_by_fold : FoldMap (List (List ℕ × F))
  pub tau_global_by_fold : FoldMap F
  pub default_fold : ℤ
  pub gb_target : String

pub record QuickPolicy (F : Type 0) : Type 0 where
  pub l1_dim : ℕ
  pub l1_threshold : F
  pub l2 : Option (L2Policy F)

pub record ResolvedL2Threshold (F : Type 0) : Type 0 where
  pub fold : ℤ
  pub tau : F
