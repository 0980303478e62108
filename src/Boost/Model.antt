-- ===== src/Boost/Model.antt =====
-- The trees as arrays of nodes, the order in which they are read, the policy of early exits, and
-- what a traversal returns. `u8`, `u32` and `usize` are numbers.
use riskanvil.Base.{ℕ, ◌-◌, ◌%◌, ◌^◌, Bool, false, Option, List, Result, ok_or, get_elem?}
use riskanvil.Base.Int.{ℤ, pos, negsuc, i32_of_bits}

pub record SoaModel (F : Type 0) : Type 0 where
  pub n_features : ℕ
  pub n_trees : ℕ
  pub node_count : ℕ
  pub tree_roots : List ℕ
  pub fidx : List ℤ
  pub left : List ℕ
  pub right : List ℕ
  pub missing : List ℕ
  pub thr : List F
  pub leaf : List F
  pub is_leaf : List ℕ

pub record Bounds (F : Type 0) : Type 0 where
  pub n_trees : ℕ
  pub suffix_min : List F
  pub suffix_max : List F

pub record TreeOrder (F : Type 0) : Type 0 where
  pub n_trees : ℕ
  pub order : List ℕ
  pub suffix_min : List F
  pub suffix_max : List F

pub data InferMode : Type 0 where
  route_fast margin_exact route_exact_reordered margin_exact_reordered route_approx : InferMode
  l2_route_exact_reordered l2_route_approx : InferMode

-- The fields that the loader checks and fills, and the traversals read.
pub record ApproxPolicy (F : Type 0) : Type 0 where
  pub checkpoints : List ℕ
  pub tau_ref : List (Option F)
  pub tau_pass : List (Option F)
  pub tau_reject : List (Option F)
  pub used_checkpoints : List ℕ
  pub used_tau_ref : List (Option F)
  pub used_tau_pass : List (Option F)
  pub used_tau_reject : List (Option F)
  pub used_tau_ref_dense : List F
  pub used_tau_positive_dense : List F
  pub k_hot : ℕ
  pub checkpoint_exit_counts : List ℕ

pub record RowMeta : Type 0 where
  pub approx_pass : Bool
  pub approx_refer : Bool
  pub approx_checkpoint_idx : ℤ

-- `RowMeta::default()`
abbrev pub no_meta : RowMeta
no_meta = record { approx_pass = false; approx_refer = false; approx_checkpoint_idx = negsuc 0 }

-- `panicked` is an index out of range, checked or not. `endless` is a loop over a tree that comes
-- back to a node it has been at.
pub data L1Error : Type 0 where
  panicked endless invalid_rank_pack : L1Error
  tree_order_mismatch feat_len_mismatch : ℕ → ℕ → L1Error
  too_many_features too_many_nodes : ℕ → L1Error
  compacted_length_mismatch length_mismatch : L1Error
  no_checkpoints checkpoints_not_increasing checkpoint_not_reached : L1Error
  invalid_checkpoint : ℕ → ℕ → L1Error

-- `v[i]` and `*v.get_unchecked(i)`
abbrev pub fetch : {A : Type 0} → List A → ℕ → Result L1Error A
fetch v i = ok_or (get_elem? v i) panicked

-- `i as usize` of an `i32`, and `n as i32` of a `usize`.
unfoldable pub as_usize : ℤ → ℕ
as_usize (pos n) = n
as_usize (negsuc n) = 2 ^ 64 - 1 - n

unfoldable pub as_i32 : ℕ → ℤ
as_i32 n = i32_of_bits (n % 2 ^ 32)

-- What the traversals do with `f32` besides `Float32`, and with the `f64` they widen to.
pub record Float64 (F : Type 0) : Type 1 where
  pub Wide : Type 0
  pub sub : F → F → F
  pub neg : F → F
  pub widen : F → Wide
  pub add : Wide → Wide → Wide
  pub le : Wide → Wide → Bool
  pub lt : Wide → Wide → Bool

-- The tuple that a traversal returns: score, pass, visited trees and how it ended.
pub record Routed (F : Type 0) : Type 0 where
  pub score : F
  pub pass : Bool
  pub visited : ℤ
  pub meta : RowMeta
