-- ===== src/Examples/Boosted.antt =====
-- A tree of a split and two leaves and a tree of one leaf.
use riskanvil.Base.{
  ℕ, zero, suc, ◌+◌, ◌-◌, ◌≤◌, ◌<◌, none, some, [], ◌∷◌, ltb, leb, ok, ◌≡◌, refl, arith,
}
use riskanvil.Base.Int.{pos, negsuc}
use riskanvil.Boost.Ends.{traverse_generic-ends}
use riskanvil.Boost.Hot.{OnlineL1Runtime, predict_l1_feat_nomiss}
use riskanvil.Boost.Model.{SoaModel, TreeOrder, ApproxPolicy, Float64, route_fast, fetch, as_usize}
use riskanvil.Boost.NoMissing.{SameOutcome, traverse_generic-nomiss-eq}
use riskanvil.Boost.Policies.{load_approx_policy}
use riskanvil.Boost.Total.{predict_l1-IsOk}
use riskanvil.Boost.Totality.{IsOk, IsSound, IsPlanOf}
use riskanvil.Boost.Traverse.{
  traverse_generic_from, traverse_float_nomiss_from, traverse_approx_generic,
  traverse_approx_float_nomiss,
}
use riskanvil.Examples.Data.{whole}

instance abbrev pub wide : Float64 ℕ
wide = record {
  Wide = ℕ;
  sub = λ a b. a - b;
  neg = λ a. 0;
  widen = λ a. a;
  add = λ a b. a + b;
  le = leb;
  lt = ltb;
}

abbrev pub model : SoaModel ℕ
model = record {
  n_features = 1;
  n_trees = 2;
  node_count = 3;
  tree_roots = 0 ∷ 2 ∷ [];
  fidx = pos 0 ∷ negsuc 0 ∷ negsuc 0 ∷ [];
  left = 1 ∷ 0 ∷ 0 ∷ [];
  right = 2 ∷ 0 ∷ 0 ∷ [];
  missing = 2 ∷ 0 ∷ 0 ∷ [];
  thr = 10 ∷ 0 ∷ 0 ∷ [];
  leaf = 0 ∷ 5 ∷ 1 ∷ [];
  is_leaf = 0 ∷ 1 ∷ 1 ∷ [];
}

abbrev pub plan : TreeOrder ℕ
plan = record {
  n_trees = 2;
  order = 0 ∷ 1 ∷ [];
  suffix_min = 2 ∷ 1 ∷ 0 ∷ [];
  suffix_max = 6 ∷ 1 ∷ 0 ∷ [];
}

-- As the file has it, without the dense arrays.
abbrev pub parsed : ApproxPolicy ℕ
parsed = record {
  checkpoints = [];
  tau_ref = [];
  tau_pass = [];
  tau_reject = [];
  used_checkpoints = 1 ∷ [];
  used_tau_ref = some 2 ∷ [];
  used_tau_pass = some 9 ∷ [];
  used_tau_reject = [];
  used_tau_ref_dense = [];
  used_tau_positive_dense = [];
  k_hot = 0;
  checkpoint_exit_counts = [];
}

abbrev pub policy : ApproxPolicy ℕ
policy = record {
  checkpoints = [];
  tau_ref = [];
  tau_pass = [];
  tau_reject = [];
  used_checkpoints = 1 ∷ [];
  used_tau_ref = some 2 ∷ [];
  used_tau_pass = some 9 ∷ [];
  used_tau_reject = [];
  used_tau_ref_dense = 2 ∷ [];
  used_tau_positive_dense = 9 ∷ [];
  k_hot = 1;
  checkpoint_exit_counts = 0 ∷ [];
}

pub loads : load_approx_policy parsed ≡ ok policy
unfolding load_approx_policy
loads = refl

-- Nine is below the threshold, so that the first tree gives five.
traverse_generic-nomiss-eq_example :
    SameOutcome
      (traverse_generic_from model 4 plan 0 0 1 (9 ∷ []) 0 none none route_fast none 0)
      (traverse_float_nomiss_from model 4 plan 0 0 1 (9 ∷ []) 0 route_fast none 0)
    × SameOutcome
        (traverse_approx_generic model 4 plan 0 0 1 (9 ∷ []) 0 none none policy)
        (traverse_approx_float_nomiss model 4 plan 0 0 1 (9 ∷ []) 0 policy)
traverse_generic-nomiss-eq_example =
    traverse_generic-nomiss-eq model (9 ∷ []) (λ i x h. refl) 4 0 plan 0 0 1 none route_fast none 0
      policy

abbrev pub height : ℕ → ℕ
height zero = 1
height (suc n) = 0

height-le : (idx : ℕ) → height idx ≤ 3
height-le zero = omega arith
height-le (suc n) = omega arith

pub only_split : (idx : ℕ) → fetch model.is_leaf idx ≡ ok 0 → idx ≡ 0
only_split zero h = refl
only_split (suc zero) h = absurd (ground (arith, h))
only_split (suc (suc zero)) h = absurd (ground (arith, h))
only_split (suc (suc (suc i))) h = absurd (ground (arith, h))

leads_down :
    (at_0 child : ℕ) → 1 ≤ at_0 → at_0 < 3 → at_0 ≡ child → (child < 3) × (height child < 1)
leads_down at_0 zero a b e = absurd (omega arith)
leads_down at_0 (suc n) a b e = (omega arith, omega arith)

pub sound : IsSound model 1 height
unfolding as_usize
sound = record {
  fidx_len = refl;
  left_len = refl;
  right_len = refl;
  missing_len = refl;
  thr_len = refl;
  leaf_len = refl;
  bounded = height-le;
  feature_inside = λ idx fidx h p.
      let e : pos 0 ≡ fidx = ground (arith, rw (only_split idx h) at p) in rw (← e) (omega arith);
  left_down = λ idx child h p.
      rw (only_split idx h) (
        leads_down 1 child (omega arith) (omega arith)
          (ground (arith, rw (only_split idx h) at p)));
  right_down = λ idx child h p.
      rw (only_split idx h) (
        leads_down 2 child (omega arith) (omega arith)
          (ground (arith, rw (only_split idx h) at p)));
  missing_down = λ idx child h p.
      rw (only_split idx h) (
        leads_down 2 child (omega arith) (omega arith)
          (ground (arith, rw (only_split idx h) at p)));
}

pub good : IsPlanOf plan model
good = record {
  order_len = refl;
  min_len = refl;
  max_len = refl;
  order_inside = λ p tree h. trees p tree h;
  root_inside = λ tree root h. roots tree root h;
}
  where
    trees : (p tree : ℕ) → fetch plan.order p ≡ ok tree → tree < 2
    trees zero tree h = let e : 0 ≡ tree = ground (arith, h) in omega arith
    trees (suc zero) tree h = let e : 1 ≡ tree = ground (arith, h) in omega arith
    trees (suc (suc i)) tree h = absurd (ground (arith, h))

    roots : (tree root : ℕ) → fetch model.tree_roots tree ≡ ok root → root < 3
    roots zero root h = let e : 0 ≡ root = ground (arith, h) in omega arith
    roots (suc zero) root h = let e : 2 ≡ root = ground (arith, h) in omega arith
    roots (suc (suc i)) root h = absurd (ground (arith, h))

traverse_generic-ends_example :
    IsOk (traverse_generic_from model 4 plan 0 0 1 (9 ∷ []) 0 none none route_fast none 0)
    × IsOk (traverse_approx_generic model 4 plan 0 0 1 (9 ∷ []) 0 none none policy)
traverse_generic-ends_example =
    traverse_generic-ends model (9 ∷ []) height sound 4 0 plan good 0 0 0 none route_fast none 0
      policy tt (record { ref_len = refl; positive_len = refl })

abbrev pub l1 : OnlineL1Runtime ℕ
l1 = record {
  model = model;
  plan = plan;
  approx_policy = policy;
  hot_compact_pack = none;
  threshold = 4;
  base_score = 4;
  l1_dim = 1;
}

predict_l1-IsOk_example : IsOk (predict_l1_feat_nomiss l1 (9 ∷ []))
predict_l1-IsOk_example =
    predict_l1-IsOk l1 parsed (9 ∷ []) height refl refl sound good (omega arith) refl loads
