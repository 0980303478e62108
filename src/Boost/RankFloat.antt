-- ===== src/Boost/RankFloat.antt =====
-- The traversals by ranks of crates/risk-quickscorer/src/l1.rs against those by floats.
use riskanvil.Base.{
  ℕ, ◌<◌, ◌^◌, Option, List, length, get_elem?, leb, some, Result, ok, err, ◌>>=◌, ◌≡◌, refl, arith,
}
use riskanvil.Base.Float.{Float32}
use riskanvil.Base.Int.{ℤ, pos}
use riskanvil.Boost.Model.{
  SoaModel, TreeOrder, ApproxPolicy, InferMode, Float64, L1Error, fetch, as_usize,
}
use riskanvil.Boost.Caches.{next_row}
use riskanvil.Boost.Ranks.{
  RankPack, RankCache, fresh_rank, cached_rank, thresholds_of, upper_bound_auto,
}
use riskanvil.Boost.Simulation.{
  Alike, Alike-weaken, SameSteps, traverse_by-Alike, traverse_approx_by-Alike,
}
use riskanvil.Boost.Stamps.{IsStamped, IsFresh, next_row-IsFresh, cached-IsFresh}
use riskanvil.Boost.Totality.{get_elem-bound}
use riskanvil.Boost.Traverse.{
  float_child, next_float, next_rank, traverse_float_nomiss, traverse_float_nomiss_from,
  traverse_rank_nomiss, traverse_approx_float_nomiss, traverse_approx_rank_nomiss,
}
use riskanvil.Forest.Cuts.{IsSplit, first_above-eq, bisect-eq}

module _ {F : Type 0} ⦃f : Float32 F⦄ where
  upper_bound_auto-eq :
      (vals : List F) (x : F) (k : ℕ)
      → IsSplit vals x k
      → length vals < 2 ^ 32
      → upper_bound_auto vals x ≡ k
  unfolding upper_bound_auto
  upper_bound_auto-eq vals x k split small = ground (
    arith,
    split.inside,
    first_above-eq vals x k (length vals) 0 split (omega arith) (omega arith),
    bisect-eq vals x k (length vals) 0 (length vals) split (omega arith) split.inside (omega arith)
        (omega arith),
  )

  module _ (model : SoaModel F) (pack : RankPack F) (feat : List F) where
    -- What the pack says of a node that is no leaf: the rank that stands for its threshold is the
    -- threshold's place among the feature's thresholds, which the row's value splits.
    pub record IsRankedAt (n idx : ℕ) : Type 0 where
      pub fidx : ℤ
      pub bound : ℕ
      pub split_at : ℕ
      pub x : F
      pub thr : F
      pub vals : List F
      pub node_feature : fetch model.fidx idx ≡ ok fidx
      pub inside : as_usize fidx < n
      pub node_rank : fetch pack.node_thr_rank idx ≡ ok (pos bound)
      pub value : fetch feat (as_usize fidx) ≡ ok x
      pub thresholds : thresholds_of pack (as_usize fidx) ≡ ok vals
      pub few : length vals < 2 ^ 32
      pub node_thr : fetch model.thr idx ≡ ok thr
      pub place : get_elem? vals bound ≡ some thr
      pub split : IsSplit vals x split_at

    abbrev pub IsRanked : ℕ → Type 0
    IsRanked n = (idx : ℕ) → fetch model.is_leaf idx ≡ ok 0 → IsRankedAt n idx

    -- The rank is at most the threshold's exactly when the value is below the threshold.
    rank-test : (n idx : ℕ) (r : IsRankedAt n idx) → leb r.split_at r.bound ≡ f.lt r.x r.thr
    rank-test n idx r =
        let above = r.split.above r.bound (get_elem-bound r.vals r.bound r.thr r.place) in
        ground (arith, above, r.place)

    fresh_rank-eq :
        (n idx : ℕ) (r : IsRankedAt n idx) → fresh_rank pack feat (as_usize r.fidx) ≡ ok r.split_at
    fresh_rank-eq n idx r =
        rw (r.value, r.thresholds, upper_bound_auto-eq r.vals r.x r.split_at r.split r.few) refl

    -- Caches that serve the row.
    abbrev Serves : ℕ → RankCache → Unit {0} → Type 0
    Serves n cache t = IsStamped n cache × IsFresh (fresh_rank pack feat) cache

    Alike-pair :
        {S T : Type 0} (R : S → T → Type 0) (s : S) (t : T) (c : Result L1Error ℕ)
        → R s t
        → Alike R (c >>= λ child. ok (s, child)) (c >>= λ child. ok (t, child))
    Alike-pair R s t (ok child) h = (h, refl)
    Alike-pair R s t (err e) h = refl

    rank_steps :
        (n : ℕ)
        → IsRanked n
        → SameSteps (Serves n) model (next_rank model feat pack) (next_float model feat)
    unfolding next_rank next_float float_child cached_rank
    rank_steps n ranked idx cache t split (stamped, fresh) =
        let r = ranked idx split in
        let (cache', found, stamped', fresh') =
          cached-IsFresh (fresh_rank pack feat) n cache (as_usize r.fidx) r.split_at stamped fresh
            r.inside (fresh_rank-eq n idx r) in
        rw (r.node_feature, r.node_rank, found, r.value, r.node_thr, rank-test n idx r)
          (Alike-pair (Serves n) cache' t _ (stamped', fresh'))

module _ {F : Type 0} ⦃f : Float32 F⦄ ⦃d : Float64 F⦄ (model : SoaModel F) (pack : RankPack F)
    (feat : List F) (threshold base_score : F) (plan : TreeOrder F) (eps bound_guard : F)
    (every : ℕ) where
  -- Where each split node's rank in the pack is its threshold's place among the feature's
  -- thresholds, which the row's value splits, and the cache's stamps do not pass its epoch: after
  -- next_row the traversal by cached ranks, with a mode or a policy, has the same error or the
  -- same score, decision, count of trees and mark as the one by floats, and leaves a cache for
  -- which the same holds.
  pub traverse_rank-eq-float :
      (n : ℕ) (cache : RankCache) (mode : InferMode) (policy : Option (ApproxPolicy F))
      (approx : ApproxPolicy F)
      → IsStamped n cache
      → IsRanked model pack feat n
      → Alike
          (λ cache' t. IsStamped n cache')
          (traverse_rank_nomiss model threshold plan eps bound_guard every feat base_score pack
            (next_row cache)
            mode
            policy)
          (traverse_float_nomiss model threshold plan eps bound_guard every feat base_score mode
            policy)
        × Alike
            (λ cache' t. IsStamped n cache')
            (traverse_approx_rank_nomiss model threshold plan eps bound_guard every feat base_score
              pack
              (next_row cache)
              approx)
            (traverse_approx_float_nomiss model threshold plan eps bound_guard every feat base_score
              approx)
  unfolding traverse_rank_nomiss traverse_float_nomiss traverse_float_nomiss_from
      traverse_approx_rank_nomiss traverse_approx_float_nomiss
  traverse_rank-eq-float n cache mode policy approx stamped ranked =
      let ready = next_row-IsFresh (fresh_rank pack feat) n cache stamped in
      let steps = rank_steps model pack feat n ranked in
      (
        Alike-weaken _ _ (λ s t h. h.0)
            (traverse_by-Alike _ model threshold plan eps bound_guard every _ _ steps mode policy 0
              base_score (next_row cache) tt ready),
        Alike-weaken _ _ (λ s t h. h.0)
            (traverse_approx_by-Alike _ model threshold plan eps bound_guard every _ _ steps approx
              base_score (next_row cache) tt ready),
      )
