-- ===== src/Examples/Packs.antt =====
-- The same trees by ranks and as compact nodes.
use riskanvil.Base.{
  ℕ, get_elem?, zero, suc, ◌+◌, ◌≤◌, ◌<◌, not, none, some, [], ◌∷◌, ltb, ok, ◌≡◌, refl, arith,
}
use riskanvil.Base.Int.{pos, negsuc}
use riskanvil.Boost.Compact.{
  HotPack, compile_hot_approx_l1_compact_pack, compile_trees, compile_tree, place_nodes, link_nodes,
  forget_nodes,
}
use riskanvil.Boost.Hot.{OnlineL1Runtime, predict_l1_feat, predict_l1_feat_nomiss}
use riskanvil.Boost.Mirror.{IsLeafAt, IsSplitAt, IsMirrorOf, IsPackOf}
use riskanvil.Boost.Model.{route_fast, fetch, as_usize}
use riskanvil.Boost.Online.{without_pack, predict_l1-compact-eq}
use riskanvil.Boost.RankFloat.{IsRanked, IsRankedAt, traverse_rank-eq-float}
use riskanvil.Boost.Caches.{next_row}
use riskanvil.Boost.Ranks.{RankPack, RankCache}
use riskanvil.Boost.Simulation.{Alike}
use riskanvil.Boost.Stamps.{IsStamped}
use riskanvil.Boost.Totality.{IsOk}
use riskanvil.Boost.Traverse.{
  traverse_rank_nomiss, traverse_float_nomiss, traverse_approx_rank_nomiss,
  traverse_approx_float_nomiss,
}
use riskanvil.Examples.Boosted.{wide, model, plan, policy, height, only_split, l1}
use riskanvil.Examples.Data.{whole}
use riskanvil.Forest.Cuts.{IsSplit}
use riskanvil.Forest.Quantize.{at_most, above_at}

abbrev rank_pack : RankPack ℕ
rank_pack = record {
  n_features = 1;
  node_thr_rank = pos 0 ∷ negsuc 0 ∷ negsuc 0 ∷ [];
  feat_offset = 0 ∷ [];
  feat_count = 1 ∷ [];
  threshold_values = 10 ∷ [];
}

abbrev pub cache : RankCache
cache = record { values = 0 ∷ []; stamps = 0 ∷ []; epoch = 1 }

pub cache-IsStamped : IsStamped 1 cache
cache-IsStamped = record {
  values_len = refl;
  stamps_len = refl;
  begun = omega arith;
  small = omega arith;
  old = λ i stamp h. old i stamp h;
}
  where
    old : (i stamp : ℕ) → get_elem? (0 ∷ []) i ≡ some stamp → stamp ≤ 1
    old zero stamp h = let e : 0 ≡ stamp = ground (arith, h) in omega arith
    old (suc i) stamp h = absurd (ground (arith, h))

-- Nine is below the only threshold.
ranked : IsRanked model rank_pack (9 ∷ []) 1
unfolding as_usize
ranked idx h = rw (only_split idx h) root
  where
    split : IsSplit {F = ℕ} (10 ∷ []) 9 0
    split = record { inside = omega arith; below = λ i h. below i h; above = λ i h. above i h }
      where
        below : (i : ℕ) → i < 1 → at_most {F = ℕ} (10 ∷ []) 9 i ≡ ltb i 0
        below zero h = refl
        below (suc i) h = absurd (omega arith)

        above : (i : ℕ) → i < 1 → above_at {F = ℕ} (10 ∷ []) 9 i ≡ not (ltb i 0)
        above zero h = refl
        above (suc i) h = absurd (omega arith)

    root : IsRankedAt model rank_pack (9 ∷ []) 1 0
    root = record {
      fidx = pos 0;
      bound = 0;
      split_at = 0;
      x = 9;
      thr = 10;
      vals = 10 ∷ [];
      node_feature = refl;
      inside = omega arith;
      node_rank = refl;
      value = refl;
      thresholds = refl;
      few = omega arith;
      node_thr = refl;
      place = refl;
      split = split;
    }

traverse_rank-eq-float_example :
    Alike
      (λ cache' t. IsStamped 1 cache')
      (traverse_rank_nomiss model 4 plan 0 0 1
        (9 ∷ [])
        0
        rank_pack
        (next_row cache)
        route_fast
        none)
      (traverse_float_nomiss model 4 plan 0 0 1 (9 ∷ []) 0 route_fast none)
    × Alike
        (λ cache' t. IsStamped 1 cache')
        (traverse_approx_rank_nomiss model 4 plan 0 0 1
          (9 ∷ [])
          0
          rank_pack
          (next_row cache)
          policy)
        (traverse_approx_float_nomiss model 4 plan 0 0 1 (9 ∷ []) 0 policy)
traverse_rank-eq-float_example =
    traverse_rank-eq-float model rank_pack (9 ∷ []) 4 0 plan 0 0 1 1 cache route_fast none policy
      cache-IsStamped ranked

abbrev pack : HotPack ℕ
pack = record {
  n_trees = 1;
  tree_node_offs = 0 ∷ [];
  nodes =
      record { thr = 10; leaf = 0; left = 1; right = 2; fidx_flags = 0 }
      ∷ record { thr = 0; leaf = 5; left = 0; right = 0; fidx_flags = 32768 }
      ∷ record { thr = 0; leaf = 1; left = 0; right = 0; fidx_flags = 32768 }
      ∷ [];
}

compiles : compile_hot_approx_l1_compact_pack model plan policy ≡ ok (some pack)
unfolding compile_hot_approx_l1_compact_pack compile_trees compile_tree place_nodes link_nodes
    forget_nodes as_usize
compiles = refl

mirror : IsMirrorOf pack model height 0 0
unfolding as_usize
mirror = record {
  local = λ idx. idx;
  In = λ idx. idx < 3;
  root_in = omega arith;
  root_place = refl;
  root_height = omega arith;
  root_height' = omega arith;
  leaf_at = λ idx flag inside h. leaf_at idx flag inside h;
  split_at = λ idx inside h. rw (only_split idx h) root;
  known = λ idx inside. known idx inside;
  left_in = λ idx child inside h p.
      let e : 1 ≡ child = ground (arith, rw (only_split idx h) at p) in
      rw (only_split idx h, ← e) (omega arith, omega arith);
  right_in = λ idx child inside h p.
      let e : 2 ≡ child = ground (arith, rw (only_split idx h) at p) in
      rw (only_split idx h, ← e) (omega arith, omega arith);
}
  where
    root : IsSplitAt pack model (λ idx. idx) 0 0
    root = record {
      node = record { thr = 10; leaf = 0; left = 1; right = 2; fidx_flags = 0 };
      fidx = pos 0;
      left = 1;
      right = 2;
      at_place = refl;
      unflagged = refl;
      same_fidx = refl;
      feature = refl;
      same_thr = refl;
      same_left = refl;
      same_right = refl;
      left_place = refl;
      right_place = refl;
    }

    leaf_at :
        (idx flag : ℕ)
        → idx < 3
        → fetch model.is_leaf idx ≡ ok (suc flag)
        → IsLeafAt pack model idx (0 + idx)
    leaf_at zero flag inside h = absurd (ground (arith, h))
    leaf_at (suc zero) flag inside h = record {
      node = record { thr = 0; leaf = 5; left = 0; right = 0; fidx_flags = 32768 };
      at_place = refl;
      flagged = refl;
      same_leaf = refl;
    }
    leaf_at (suc (suc zero)) flag inside h = record {
      node = record { thr = 0; leaf = 1; left = 0; right = 0; fidx_flags = 32768 };
      at_place = refl;
      flagged = refl;
      same_leaf = refl;
    }
    leaf_at (suc (suc (suc i))) flag inside h = absurd (omega arith)

    known : (idx : ℕ) → idx < 3 → IsOk (fetch model.is_leaf idx)
    known zero inside = (0, refl)
    known (suc zero) inside = (1, refl)
    known (suc (suc zero)) inside = (1, refl)
    known (suc (suc (suc i))) inside = absurd (omega arith)

packed : IsPackOf pack model plan policy height
packed = record {
  hot = refl;
  base = λ p. 0;
  tree = λ p. 0;
  root = λ p. 0;
  base_at = λ p h. let e : p ≡ 0 = omega arith in rw e refl;
  tree_at = λ p h. let e : p ≡ 0 = omega arith in rw e refl;
  root_at = λ p h. refl;
  mirror = λ p h. mirror;
}

abbrev with_pack : OnlineL1Runtime ℕ
with_pack = record {
  model = l1.model;
  plan = l1.plan;
  approx_policy = l1.approx_policy;
  hot_compact_pack = some pack;
  threshold = l1.threshold;
  base_score = l1.base_score;
  l1_dim = l1.l1_dim;
}

predict_l1-compact-eq_example :
    (predict_l1_feat with_pack (9 ∷ []) ≡ predict_l1_feat (without_pack with_pack) (9 ∷ []))
    × (predict_l1_feat_nomiss with_pack (9 ∷ [])
        ≡ predict_l1_feat_nomiss (without_pack with_pack) (9 ∷ []))
predict_l1-compact-eq_example = predict_l1-compact-eq with_pack pack height refl packed (9 ∷ [])
