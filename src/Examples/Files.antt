-- ===== src/Examples/Files.antt =====
-- The smallest files of the first stage, and a policy that has only the raw arrays.
use riskanvil.Base.{ℕ, true, none, some, List, [], ◌∷◌, length, ok, err, ◌≡◌, refl, arith}
use riskanvil.Boost.Exits.{materialize_tree_plan}
use riskanvil.Boost.Hot.{exit_slot, hot_check}
use riskanvil.Boost.Load.{load_bounds, load_tree_order, read_bounds, read_tree_order}
use riskanvil.Boost.Model.{Bounds, TreeOrder, ApproxPolicy, panicked}
use riskanvil.Boost.Plans.{IsPlan, materialize_tree_plan-loaded}
use riskanvil.Boost.Policies.{load_approx_policy}
use riskanvil.Boost.Dense.{load_approx_policy-in_range, load_approx_policy-raw}
use riskanvil.Boost.Reader.{le_u32, le_f32, read_vec}
use riskanvil.Boost.Sizes.{LoadsIf, load_soa-size}
use riskanvil.Boost.Totality.{IsOk}
use riskanvil.Examples.Boosted.{parsed, policy, loads}
use riskanvil.Examples.Data.{whole}

load_approx_policy-in_range_example :
    (length policy.used_tau_ref_dense ≡ length policy.used_checkpoints)
    × (length policy.used_tau_positive_dense ≡ length policy.used_checkpoints)
    × IsOk (hot_check policy 5 1 0)
load_approx_policy-in_range_example =
    load_approx_policy-in_range parsed policy 5 1 0 refl loads (omega arith)

abbrev raw : ApproxPolicy ℕ
raw = record {
  checkpoints = 1 ∷ [];
  tau_ref = some 2 ∷ [];
  tau_pass = some 9 ∷ [];
  tau_reject = [];
  used_checkpoints = [];
  used_tau_ref = [];
  used_tau_pass = [];
  used_tau_reject = [];
  used_tau_ref_dense = [];
  used_tau_positive_dense = [];
  k_hot = 1;
  checkpoint_exit_counts = [];
}

abbrev filled : ApproxPolicy ℕ
filled = record {
  checkpoints = 1 ∷ [];
  tau_ref = some 2 ∷ [];
  tau_pass = some 9 ∷ [];
  tau_reject = [];
  used_checkpoints = 1 ∷ [];
  used_tau_ref = some 2 ∷ [];
  used_tau_pass = some 9 ∷ [];
  used_tau_reject = [];
  used_tau_ref_dense = 2 ∷ [];
  used_tau_positive_dense = [];
  k_hot = 1;
  checkpoint_exit_counts = 0 ∷ [];
}

loads_raw : load_approx_policy raw ≡ ok filled
unfolding load_approx_policy
loads_raw = refl

-- A margin of five is above the threshold of two, so that the other one is looked up.
load_approx_policy-raw_example :
    (length filled.used_checkpoints ≡ length raw.checkpoints)
    × (filled.used_tau_positive_dense ≡ [])
    × (exit_slot 5 filled 0 ≡ err panicked)
load_approx_policy-raw_example =
    load_approx_policy-raw raw filled 5 2 0 refl refl loads_raw refl refl

-- A tree of one leaf.
abbrev soa_file : List ℕ
soa_file =
    76 ∷ 49 ∷ 83 ∷ 79 ∷ 65 ∷ 118 ∷ 49 ∷ 0 ∷ 1 ∷ 0 ∷ 0 ∷ 0 ∷ 1 ∷ 0 ∷ 0 ∷ 0 ∷ 1 ∷ 0 ∷ 0 ∷ 0 ∷ 0 ∷ 0
    ∷ 0 ∷ 0 ∷ 1 ∷ 0 ∷ 0 ∷ 0 ∷ 255 ∷ 255 ∷ 255 ∷ 255 ∷ 0 ∷ 0 ∷ 0 ∷ 0 ∷ 0 ∷ 0 ∷ 0 ∷ 0 ∷ 0 ∷ 0 ∷ 0 ∷ 0
    ∷ 0 ∷ 0 ∷ 0 ∷ 0 ∷ 5 ∷ 0 ∷ 0 ∷ 0 ∷ 1 ∷ 0 ∷ 0 ∷ 0 ∷ []

load_soa-size_example : LoadsIf ℕ true 1 1 soa_file
load_soa-size_example = load_soa-size ℕ soa_file (omega arith) refl

-- One tree, with bounds from two to six.
abbrev bounds_file : List ℕ
bounds_file =
    76 ∷ 49 ∷ 66 ∷ 78 ∷ 68 ∷ 118 ∷ 49 ∷ 0 ∷ 1 ∷ 0 ∷ 0 ∷ 0 ∷ 2 ∷ 0 ∷ 0 ∷ 0 ∷ 6 ∷ 0 ∷ 0 ∷ 0 ∷ 2 ∷ 0
    ∷ 0 ∷ 0 ∷ 0 ∷ 0 ∷ 0 ∷ 0 ∷ 6 ∷ 0 ∷ 0 ∷ 0 ∷ 0 ∷ 0 ∷ 0 ∷ 0 ∷ []

abbrev order_file : List ℕ
order_file =
    76 ∷ 49 ∷ 79 ∷ 82 ∷ 68 ∷ 118 ∷ 49 ∷ 0 ∷ 1 ∷ 0 ∷ 0 ∷ 0 ∷ 0 ∷ 0 ∷ 0 ∷ 0 ∷ 2 ∷ 0 ∷ 0 ∷ 0 ∷ 6 ∷ 0
    ∷ 0 ∷ 0 ∷ 2 ∷ 0 ∷ 0 ∷ 0 ∷ 0 ∷ 0 ∷ 0 ∷ 0 ∷ 6 ∷ 0 ∷ 0 ∷ 0 ∷ 0 ∷ 0 ∷ 0 ∷ 0 ∷ []

abbrev bounds : Bounds ℕ
bounds = record { n_trees = 1; suffix_min = 2 ∷ 0 ∷ []; suffix_max = 6 ∷ 0 ∷ [] }

abbrev order : TreeOrder ℕ
order = record { n_trees = 1; order = 0 ∷ []; suffix_min = 2 ∷ 0 ∷ []; suffix_max = 6 ∷ 0 ∷ [] }

loads_bounds : load_bounds bounds_file ≡ ok bounds
unfolding load_bounds read_bounds le_u32 le_f32 read_vec
loads_bounds = refl

loads_order : load_tree_order order_file ≡ ok order
unfolding load_tree_order read_tree_order le_u32 le_f32 read_vec
loads_order = refl

materialize_tree_plan-loaded_example :
    ((plan : TreeOrder ℕ) × (materialize_tree_plan bounds (some order) none ≡ ok plan)
      × (plan.n_trees ≡ 1)
      × IsPlan plan)
    × ((plan : TreeOrder ℕ) × (materialize_tree_plan bounds none none ≡ ok plan)
        × (plan.n_trees ≡ 1)
        × IsPlan plan)
materialize_tree_plan-loaded_example =
    materialize_tree_plan-loaded bounds_file order_file bounds order none loads_bounds loads_order
      refl
