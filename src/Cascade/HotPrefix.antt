-- ===== src/Cascade/HotPrefix.antt =====
-- The exact score of the first trees, of crates/risk-quickscorer/src/l1.rs: `HotFeatureBuf`,
-- `LazyHotFeatureCache`, `hot_exact_prefix_until`, `hot_exact_prefix_until_compiled` and
-- `hot_exact_prefix_until_compiled_nomiss`. The callback at a checkpoint takes the state that it
-- captures and gives it back. A walk has as much fuel as there are nodes.
use riskanvil.Base.{
  ℕ, zero, suc, ◌+◌, Bool, true, false, not, ◌&&◌, ◌||◌, List, [], ◌∷◌, length, set, ltb, leb, ◌==◌,
  if◌then◌else◌, Result, ok, err, ◌>>=◌, ◌>>◌, ensure,
}
use riskanvil.Base.Float.{Float32}
use riskanvil.Boost.Caches.{StampCache, next_row, cached}
use riskanvil.Boost.Model.{
  L1Error, panicked, endless, no_checkpoints, checkpoints_not_increasing, checkpoint_not_reached,
  invalid_checkpoint, fetch, as_usize,
}
use riskanvil.Boost.Prefix.{PrefixPack, HotPrefixNode, HotCompiledPrefixPack, hot_is_leaf, hot_fidx}
use riskanvil.Forest.File.{last_or_zero}

-- Every checkpoint is a number of trees that the pack has, above the one before.
unfoldable pub increasing : ℕ → ℕ → List ℕ → Result L1Error (Unit {0})
increasing n_trees prev [] = ok tt
increasing n_trees prev (cp ∷ cps) = do
  ensure (not ((cp == 0) || ltb n_trees cp)) (invalid_checkpoint cp n_trees)
  ensure (not (leb cp prev)) checkpoints_not_increasing
  increasing n_trees cp cps

unfoldable pub check_checkpoints : ℕ → List ℕ → Result L1Error (Unit {0})
check_checkpoints n_trees [] = err no_checkpoints
check_checkpoints n_trees (cp ∷ cps) = increasing n_trees 0 (cp ∷ cps)

-- A leaf's value, or the index of a child.
pub data Visit (F : Type 0) : Type 0 where
  leaf_of : F → Visit F
  child_at : ℕ → Visit F

-- The trees are done, or the checkpoints that are left.
pub data Turn (S : Type 0) : Type 0 where
  finish : S → Turn S
  more : List ℕ → S → Turn S

abbrev pub Callback : Type 0 → Type 0 → Type 0
Callback F S = S → ℕ → F → ℕ → ℕ → Bool × S

-- Score, trees, split nodes passed, and the trees that were resolved early, of which there are none.
abbrev pub HotEnd : Type 0 → Type 0
HotEnd F = F × ℕ × ℕ × ℕ

abbrev pub called : {S : Type 0} → Bool × S → List ℕ → Turn S
called (true, s) cps = finish s
called (false, s) [] = finish s
called (false, s) (cp ∷ cps) = more (cp ∷ cps) s

unfoldable pub at_checkpoint :
    {F S : Type 0} → Callback F S → List ℕ → ℕ → F → ℕ → S → Result L1Error (Turn S)
at_checkpoint cb [] done score evals s = err panicked
at_checkpoint cb (cp ∷ cps) done score evals s =
    if done == cp then ok (called (cb s done score evals 0) cps) else ok (more (cp ∷ cps) s)

abbrev pub take_turn :
    {S X : Type 0}
    → Turn S
    → (S → Result L1Error X)
    → (List ℕ → S → Result L1Error X)
    → Result L1Error X
take_turn (finish s) stop go = stop s
take_turn (more cps s) stop go = go cps s

abbrev pub went_by :
    {C F : Type 0}
    → (C → ℕ → ℕ → Result L1Error (C × (F × ℕ)))
    → ℕ
    → C
    → Visit F
    → Result L1Error (C × (F × ℕ))
went_by rest evals c (leaf_of value) = ok (c, (value, evals))
went_by rest evals c (child_at next) = rest c next (evals + 1)

module _ {F : Type 0} ⦃f : Float32 F⦄ where
  unfoldable pub hot_feature : List ℕ → List F → ℕ → Result L1Error F
  hot_feature hot_global_fidx feat hot_idx = do
    global_fidx ← fetch hot_global_fidx hot_idx
    fetch feat global_fidx

  unfoldable pub fill_from_global_u32 : List ℕ → List F → ℕ → List F → Result L1Error (List F)
  fill_from_global_u32 [] feat i values = ok values
  fill_from_global_u32 (g ∷ gs) feat i values = do
    x ← fetch feat g
    ensure (ltb i (length values)) panicked
    fill_from_global_u32 gs feat (i + 1) (set values i x)

  module _ {C : Type 0} (visit : C → ℕ → Result L1Error (C × Visit F)) where
    unfoldable pub walk : ℕ → C → ℕ → ℕ → Result L1Error (C × (F × ℕ))
    walk zero c idx evals = err endless
    walk (suc fuel) c idx evals = do (c', found) ← visit c idx; went_by (walk fuel) evals c' found

    unfoldable pub prefix_loop :
        {S : Type 0}
        → Callback F S
        → ℕ
        → List ℕ
        → ℕ
        → ℕ
        → F
        → ℕ
        → List ℕ
        → C
        → S
        → Result L1Error (C × (HotEnd F × S))
    prefix_loop cb fuel roots zero pos score evals cps c s = err checkpoint_not_reached
    prefix_loop cb fuel roots (suc n) pos score evals cps c s = do
      root ← fetch roots pos
      (c', (value, evals')) ← walk fuel c root evals
      turn ← at_checkpoint cb cps (pos + 1) (f.add score value) evals' s
      take_turn turn (λ s'. ok (c', ((f.add score value, pos + 1, evals', 0), s')))
          (λ cps' s'. prefix_loop cb fuel roots n (pos + 1) (f.add score value) evals' cps' c' s')

  abbrev pub child_of : PrefixPack F → F → ℕ → Result L1Error ℕ
  child_of pack x idx =
      if f.is_nan x
      then fetch pack.missing idx
      else (fetch pack.thr idx >>= λ thr. fetch (if f.lt x thr then pack.left else pack.right) idx)

  -- `LazyHotFeatureCache::get` and the step to a child.
  abbrev split_pack :
      PrefixPack F → List F → StampCache F → ℕ → Result L1Error (StampCache F × Visit F)
  split_pack pack feat cache idx = do
    fidx ← fetch pack.fidx idx
    (cache', x) ← cached (hot_feature pack.hot_global_fidx feat) cache (as_usize fidx)
    next ← child_of pack x idx
    ok (cache', child_at next)

  unfoldable pub visit_pack :
      PrefixPack F → List F → StampCache F → ℕ → Result L1Error (StampCache F × Visit F)
  visit_pack pack feat cache idx = do
    flag ← fetch pack.is_leaf idx
    if not (flag == 0)
        then (fetch pack.leaf idx >>= λ value. ok (cache, leaf_of value))
        else split_pack pack feat cache idx

  abbrev pub node_child : Bool → HotPrefixNode F → F → ℕ
  node_child nomiss node x =
      if not nomiss && f.is_nan x
      then node.missing
      else if f.lt x node.thr
      then node.left
      else node.right

  -- `nomiss` where the code does not look for NaNs.
  unfoldable pub visit_compiled :
      Bool → HotCompiledPrefixPack F → List F → ℕ → Result L1Error (List F × Visit F)
  visit_compiled nomiss pack values idx = do
    node ← fetch pack.nodes idx
    if hot_is_leaf node
        then ok (values, leaf_of node.leaf)
        else (fetch values (hot_fidx node) >>= λ x.
            ok (values, child_at (node_child nomiss node x)))

  unfoldable pub hot_exact_prefix_until :
      {S : Type 0}
      → PrefixPack F
      → StampCache F
      → List F
      → List ℕ
      → F
      → Callback F S
      → S
      → Result L1Error (StampCache F × (HotEnd F × S))
  hot_exact_prefix_until pack cache feat checkpoints init_score cb s = do
    check_checkpoints pack.n_trees checkpoints
    prefix_loop (visit_pack pack feat) cb pack.node_count pack.tree_roots (last_or_zero checkpoints)
        0 init_score 0 checkpoints (next_row cache) s

  -- The two compiled functions are alike but for the NaNs.
  unfoldable pub hot_exact_prefix_until_compiled :
      {S : Type 0}
      → Bool
      → HotCompiledPrefixPack F
      → List F
      → List F
      → List ℕ
      → F
      → Callback F S
      → S
      → Result L1Error (List F × (HotEnd F × S))
  hot_exact_prefix_until_compiled nomiss pack hot_buf feat checkpoints init_score cb s = do
    check_checkpoints pack.n_trees checkpoints
    values ← fill_from_global_u32 pack.hot_global_fidx feat 0 hot_buf
    prefix_loop (visit_compiled nomiss pack) cb (length pack.nodes) pack.tree_roots
        (last_or_zero checkpoints) 0 init_score 0 checkpoints values s
