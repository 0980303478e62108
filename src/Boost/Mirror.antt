-- ===== src/Boost/Mirror.antt =====
-- The compact nodes of crates/risk-quickscorer/src/l1.rs against the model's arrays.
use riskanvil.Base.{
  ℕ, zero, suc, ◌+◌, ◌-◌, min, ◌≤◌, ◌<◌, true, false, Bool-cases, none, some, List, length, Result,
  ok, err, ◌>>=◌, Result-cases, inl, inr, ◌≡◌, refl, arith,
}
use riskanvil.Base.Float.{Float32}
use riskanvil.Base.Int.{ℤ}
use riskanvil.Boost.Compact.{
  HotPack, HotNode, node_is_leaf, node_fidx, descend_compact, walk_compact,
}
use riskanvil.Boost.Hot.{add_threshold, traverse_approx_float_nomiss_l1_hot_impl}
use riskanvil.Boost.Model.{
  SoaModel, TreeOrder, ApproxPolicy, Float64, L1Error, fetch, as_usize, as_i32,
}
use riskanvil.Boost.NoMissing.{SameOutcome}
use riskanvil.Boost.Simulation.{Alike, suc-not_zero, run_trees-Alike, then_run-Alike, AlikeFlow}
use riskanvil.Boost.Totality.{IsOk, IsOk-cases}
use riskanvil.Boost.Traverse.{float_child, next_float}
use riskanvil.Boost.Walk.{Flow, on, out, descend, tree_leaf, walk_plan}

module _ {F : Type 0} (pack : HotPack F) (model : SoaModel F) where
  -- The node at `place` holds what the model holds of the leaf `idx`.
  pub record IsLeafAt (idx place : ℕ) : Type 0 where
    pub node : HotNode F
    pub at_place : fetch pack.nodes place ≡ ok node
    pub flagged : node_is_leaf node ≡ true
    pub same_leaf : fetch model.leaf idx ≡ ok node.leaf

  -- The node at `place` holds what the model holds of the split `idx`, with the children where
  -- `local` puts them, below the tree's `base`.
  pub record IsSplitAt (local : ℕ → ℕ) (base idx : ℕ) : Type 0 where
    pub node : HotNode F
    pub fidx : ℤ
    pub left : ℕ
    pub right : ℕ
    pub at_place : fetch pack.nodes (base + local idx) ≡ ok node
    pub unflagged : node_is_leaf node ≡ false
    pub same_fidx : fetch model.fidx idx ≡ ok fidx
    pub feature : as_usize fidx ≡ node_fidx node
    pub same_thr : fetch model.thr idx ≡ ok node.thr
    pub same_left : fetch model.left idx ≡ ok left
    pub same_right : fetch model.right idx ≡ ok right
    pub left_place : node.left ≡ local left
    pub right_place : node.right ≡ local right

  -- The tree of `root` from `base` on: what `In` says of the root goes down to the children of each
  -- split, and the heights go down with it.
  pub record IsMirrorOf (height : ℕ → ℕ) (root base : ℕ) : Type 1 where
    pub local : ℕ → ℕ
    pub In : ℕ → Type 0
    pub root_in : In root
    pub root_place : local root ≡ 0
    pub root_height : height root ≤ length pack.nodes
    pub root_height' : height root ≤ length model.is_leaf
    pub leaf_at :
        (idx flag : ℕ)
        → In idx
        → fetch model.is_leaf idx ≡ ok (suc flag)
        → IsLeafAt idx (base + local idx)
    pub split_at : (idx : ℕ) → In idx → fetch model.is_leaf idx ≡ ok 0 → IsSplitAt local base idx
    pub known : (idx : ℕ) → In idx → IsOk (fetch model.is_leaf idx)
    pub left_in :
        (idx child : ℕ)
        → In idx
        → fetch model.is_leaf idx ≡ ok 0
        → fetch model.left idx ≡ ok child
        → In child × (height child < height idx)
    pub right_in :
        (idx child : ℕ)
        → In idx
        → fetch model.is_leaf idx ≡ ok 0
        → fetch model.right idx ≡ ok child
        → In child × (height child < height idx)

module _ {F : Type 0} ⦃f : Float32 F⦄ (pack : HotPack F) (model : SoaModel F) (feat : List F)
    (height : ℕ → ℕ) (root base : ℕ) (m : IsMirrorOf pack model height root base) where
  -- Whatever fuel is left on both sides, as long as it is more than the height.
  descend_compact-Alike :
      (fuel fuel' : ℕ) (idx : ℕ)
      → m.In idx
      → height idx < fuel
      → height idx < fuel'
      → Alike
          (λ s t. Unit {0})
          (descend_compact pack feat fuel base (m.local idx) >>= λ v. ok (tt, v))
          (descend model (next_float model feat) fuel' tt idx)
  unfolding descend_compact descend next_float float_child
  descend_compact-Alike zero fuel' idx inside h h' = absurd (omega arith)
  descend_compact-Alike (suc fuel) zero idx inside h h' = absurd (omega arith)
  descend_compact-Alike (suc fuel) (suc fuel') idx inside h h' =
      elim (IsOk-cases (m.known idx inside)) [
        | inl impossible ↦ absurd impossible
        | inr (suc flag, p) ↦
            let r = m.leaf_at idx flag inside p in
            rw (r.at_place, r.flagged, p, suc-not_zero flag, r.same_leaf) (tt, refl)
        | inr (zero, p) ↦
            let r = m.split_at idx inside p in
            let (left_in, left_low) = m.left_in idx r.left inside p r.same_left in
            let (right_in, right_low) = m.right_in idx r.right inside p r.same_right in
            elim (Result-cases (fetch feat (node_fidx r.node))) [
              | inl (e, q) ↦ rw (r.at_place, r.unflagged, p, r.same_fidx, r.feature, q) refl
              | inr (x, q) ↦ elim (Bool-cases (f.lt x r.node.thr)) [
                | inl c ↦
                    rw
                      (
                        r.at_place, r.unflagged, p, r.same_fidx, r.feature, q, r.same_thr, c,
                        r.same_left, r.left_place,
                      )
                      (descend_compact-Alike fuel fuel' r.left left_in (omega (arith, left_low, h))
                        (omega (arith, left_low, h')))
                | inr c ↦
                    rw
                      (
                        r.at_place, r.unflagged, p, r.same_fidx, r.feature, q, r.same_thr, c,
                        r.same_right, r.right_place,
                      )
                      (descend_compact-Alike fuel fuel' r.right right_in
                        (omega (arith, right_low, h)) (omega (arith, right_low, h')))
              ]
            ]
      ]

-- The pack holds the first trees of the plan that the policy calls hot.
pub record IsPackOf {F : Type 0} (pack : HotPack F) (model : SoaModel F) (plan : TreeOrder F)
    (policy : ApproxPolicy F) (height : ℕ → ℕ) : Type 1 where
  pub hot : pack.n_trees ≡ min policy.k_hot plan.n_trees
  pub base : ℕ → ℕ
  pub tree : ℕ → ℕ
  pub root : ℕ → ℕ
  pub base_at : (p : ℕ) → p < pack.n_trees → fetch pack.tree_node_offs p ≡ ok (base p)
  pub tree_at : (p : ℕ) → p < pack.n_trees → fetch plan.order p ≡ ok (tree p)
  pub root_at : (p : ℕ) → p < pack.n_trees → fetch model.tree_roots (tree p) ≡ ok (root p)
  pub mirror : (p : ℕ) → p < pack.n_trees → IsMirrorOf pack model height (root p) (base p)

Alike-refl : {A : Type 0} (r : Result L1Error (Unit {0} × A)) → Alike (λ s t. Unit {0}) r r
Alike-refl (ok (s, a)) = (tt, refl)
Alike-refl (err e) = refl

module _ {F : Type 0} ⦃f : Float32 F⦄ (threshold : F) where
  add_threshold-Alike :
      (x y : Result L1Error (Flow (Unit {0}) F))
      → AlikeFlow (λ s t. Unit {0}) x y
      → SameOutcome (x >>= add_threshold threshold) (y >>= add_threshold threshold)
  add_threshold-Alike (ok (on st)) (ok (on st')) (r, score, visited, cp) =
      (r, rw (score, visited) refl)
  add_threshold-Alike (ok (out s r)) (ok (out t r')) (h, same) = (h, rw same refl)
  add_threshold-Alike (ok (on st)) (ok (out t r)) h = absurd h
  add_threshold-Alike (ok (out s r)) (ok (on st)) h = absurd h
  add_threshold-Alike (err e) (err e') h = h
  add_threshold-Alike (ok x) (err e) h = absurd h
  add_threshold-Alike (err e) (ok x) h = absurd h

module _ {F : Type 0} ⦃f : Float32 F⦄ (pack : HotPack F) (model : SoaModel F) (feat : List F)
    (plan : TreeOrder F) (policy : ApproxPolicy F) (height : ℕ → ℕ)
    (packed : IsPackOf pack model plan policy height) where
  abbrev by_model : ℕ → Unit {0} → Result L1Error (Unit {0} × F)
  by_model = walk_plan model (next_float model feat) plan

  walk_compact-Alike :
      (p : ℕ) (s t : Unit {0})
      → p < pack.n_trees
      → Alike
          (λ a b. Unit {0})
          (walk_compact pack feat p s)
          (walk_plan model (next_float model feat) plan p t)
  unfolding walk_compact walk_plan tree_leaf
  walk_compact-Alike p s t h =
      let m = packed.mirror p h in
      let down =
        descend_compact-Alike pack model feat height (packed.root p) (packed.base p) m
          (suc (length pack.nodes)) (suc (length model.is_leaf)) (packed.root p) m.root_in
          (omega (arith, m.root_height)) (omega (arith, m.root_height')) in
      rw (packed.base_at p h, packed.tree_at p h, packed.root_at p h) (rw m.root_place at down)

  -- The compact nodes change neither the result nor the error of the traversal.
  pub traverse_hot-compact-eq :
      ⦃d : Float64 F⦄ (threshold base_score eps bound_guard : F) (every : ℕ)
      → SameOutcome
          (traverse_approx_float_nomiss_l1_hot_impl model feat threshold base_score plan policy eps
            bound_guard every
            (some pack))
          (traverse_approx_float_nomiss_l1_hot_impl model feat threshold base_score plan policy eps
            bound_guard every none)
  unfolding traverse_approx_float_nomiss_l1_hot_impl
  traverse_hot-compact-eq ⦃d⦄ threshold base_score eps bound_guard every =
      let k = min policy.k_hot plan.n_trees in
      let same_count : min pack.n_trees k ≡ k = omega (arith, packed.hot) in
      rw same_count (
        add_threshold-Alike threshold _ _ (
          then_run-Alike _ _ by_model by_model plan.n_trees (plan.n_trees - k) k (omega arith)
            (λ p s t less r. Alike-refl (by_model p t)) _ _
            (run_trees-Alike _ _ (walk_compact pack feat) by_model pack.n_trees k 0
              (omega (arith, packed.hot)) (λ p s t less r. walk_compact-Alike p s t less) tt tt
              (d.sub base_score threshold) (as_i32 0) 0 tt)))
