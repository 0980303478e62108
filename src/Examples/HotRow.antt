-- ===== src/Examples/HotRow.antt =====
-- A row through the tree of a split and two leaves, with one checkpoint.
use riskanvil.Base.{ℕ, suc, zero, ◌<◌, ◌==◌, true, false, [], ◌∷◌, ok, ◌≡◌, refl, arith}
use riskanvil.Base.Int.{pos, negsuc}
use riskanvil.Boost.Model.{fetch}
use riskanvil.Boost.Prefix.{hot_is_leaf, hot_leaf, hot_fidx, hot_fidx_mask}
use riskanvil.Forest.File.{last_or_zero}
use riskanvil.Boost.PrefixNodes.{IsNodeAt}
use riskanvil.Boost.Simulation.{Alike}
use riskanvil.Boost.Stamps.{IsStamped}
use riskanvil.Cascade.HotAlike.{hot_exact_prefix_until-eq-compiled}
use riskanvil.Cascade.HotPrefix.{
  Callback, check_checkpoints, increasing, fill_from_global_u32, prefix_loop, walk, visit_compiled,
  at_checkpoint, hot_exact_prefix_until, hot_exact_prefix_until_compiled,
}
use riskanvil.Cascade.HotWalk.{IsHotTree}
use riskanvil.Cascade.HotNoMissing.{hot_exact_prefix_until_compiled-nomiss-eq}
use riskanvil.Examples.Data.{whole}
use riskanvil.Examples.Packs.{cache, cache-IsStamped}
use riskanvil.Examples.Prefix.{prefix_pack, compiled, compiles_prefix, root_node}

abbrev leaf_1 : IsNodeAt prefix_pack 1
leaf_1 = record {
  inside = omega arith;
  flag = 1;
  fidx = negsuc 0;
  left = 0;
  right = 0;
  missing = 0;
  thr = 0;
  leaf = 5;
  flag_at = refl;
  fidx_at = refl;
  left_at = refl;
  right_at = refl;
  missing_at = refl;
  thr_at = refl;
  leaf_at = refl;
  feature = omega arith;
  left_inside = omega arith;
  right_inside = omega arith;
  missing_inside = omega arith;
}

abbrev leaf_2 : IsNodeAt prefix_pack 2
leaf_2 = record {
  inside = omega arith;
  flag = 1;
  fidx = negsuc 0;
  left = 0;
  right = 0;
  missing = 0;
  thr = 0;
  leaf = 1;
  flag_at = refl;
  fidx_at = refl;
  left_at = refl;
  right_at = refl;
  missing_at = refl;
  thr_at = refl;
  leaf_at = refl;
  feature = omega arith;
  left_inside = omega arith;
  right_inside = omega arith;
  missing_inside = omega arith;
}

abbrev node_of : (i : ℕ) → i < 3 → IsNodeAt prefix_pack i
node_of zero h = root_node
node_of (suc zero) h = leaf_1
node_of (suc (suc zero)) h = leaf_2
node_of (suc (suc (suc i))) h = absurd (omega arith)

split_of :
    (i : ℕ) (h : i < 3)
    → ((node_of i h).flag == 0) ≡ true
    → (k : ℕ) × (fetch prefix_pack.fidx i ≡ ok (pos k)) × ((node_of i h).fidx ≡ pos k) × (k < 1)
split_of zero h e = (0, refl, refl, omega arith)
split_of (suc zero) h e = absurd (ground (arith, e))
split_of (suc (suc zero)) h e = absurd (ground (arith, e))
split_of (suc (suc (suc i))) h e = absurd (omega arith)

hot_tree : IsHotTree prefix_pack (9 ∷ [])
hot_tree = record {
  node = node_of;
  split = split_of;
  roots = omega arith;
  features_len = refl;
  features = omega arith;
}

-- Counts the checkpoints, and never stops.
abbrev counted : Callback ℕ ℕ
counted s trees score evals early = (false, suc s)

-- The row goes left at the split to the leaf 5, and from 2 the score is 7.
counted_row :
    hot_exact_prefix_until_compiled false compiled (0 ∷ []) (9 ∷ []) (1 ∷ []) 2 counted 0
    ≡ ok (9 ∷ [], ((7, 1, 1, 0), 1))
unfolding hot_exact_prefix_until_compiled check_checkpoints increasing fill_from_global_u32
    prefix_loop last_or_zero walk visit_compiled hot_is_leaf hot_leaf hot_fidx hot_fidx_mask
    at_checkpoint
counted_row = refl

hot_exact_prefix_until-eq-compiled_example :
    Alike
      (λ cache' values. IsStamped 1 cache')
      (hot_exact_prefix_until prefix_pack cache (9 ∷ []) (1 ∷ []) 2 counted 0)
      (hot_exact_prefix_until_compiled false compiled (0 ∷ []) (9 ∷ []) (1 ∷ []) 2 counted 0)
hot_exact_prefix_until-eq-compiled_example =
    hot_exact_prefix_until-eq-compiled prefix_pack compiled (9 ∷ []) cache (0 ∷ []) (1 ∷ []) 2
      counted 0 hot_tree compiles_prefix cache-IsStamped refl

hot_exact_prefix_until_compiled-nomiss-eq_example :
    hot_exact_prefix_until_compiled false compiled (0 ∷ []) (9 ∷ []) (1 ∷ []) 2 counted 0
    ≡ hot_exact_prefix_until_compiled true compiled (0 ∷ []) (9 ∷ []) (1 ∷ []) 2 counted 0
hot_exact_prefix_until_compiled-nomiss-eq_example =
    hot_exact_prefix_until_compiled-nomiss-eq compiled (0 ∷ []) (9 ∷ []) (1 ∷ []) 2 counted 0
      (refl, tt) (refl, tt)
