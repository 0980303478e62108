-- ===== src/Boost/Exits.antt =====
-- The tests after a tree that may end a traversal: `maybe_exact_exit`, `maybe_exact_exit_margin`
-- and `maybe_approx_exit` of crates/risk-quickscorer/src/l1.rs, and `materialize_tree_plan`.
use riskanvil.Base.{
  ℕ, zero, suc, ◌+◌, ◌%◌, min, Bool, true, false, not, ◌||◌, Option, none, some, List, [], ◌∷◌,
  length, get_elem?, take, leb, ◌==◌, if◌then◌else◌, Result, ok, err, ◌>>=◌, ◌>>◌, ensure,
}
use riskanvil.Base.Float.{Float32, ge}
use riskanvil.Boost.Model.{
  Bounds, TreeOrder, ApproxPolicy, RowMeta, no_meta, L1Error, panicked, tree_order_mismatch, fetch,
  as_i32, Float64,
}

-- `max_trees.unwrap_or(n).min(n)`
abbrev pub tree_limit : Option ℕ → ℕ → ℕ
tree_limit none n = n
tree_limit (some m) n = min m n

abbrev pub range : ℕ → ℕ → List ℕ
range zero i = []
range (suc n) i = i ∷ range n (i + 1)

-- `v[..n].to_vec()`
abbrev pub prefix : {A : Type 0} → List A → ℕ → Result L1Error (List A)
prefix v n = if leb n (length v) then ok (take n v) else err panicked

abbrev pub is_empty : {A : Type 0} → List A → Bool
is_empty [] = true
is_empty (x ∷ xs) = false

module _ {F : Type 0} where
  abbrev ordered_plan : TreeOrder F → ℕ → ℕ → Result L1Error (TreeOrder F)
  ordered_plan ord n limit = do
    ensure (ord.n_trees == n) (tree_order_mismatch ord.n_trees n)
    order ← prefix ord.order limit
    suffix_min ← prefix ord.suffix_min (limit + 1)
    suffix_max ← prefix ord.suffix_max (limit + 1)
    ok (record { n_trees = limit; order = order; suffix_min = suffix_min; suffix_max = suffix_max })

  unfoldable pub materialize_tree_plan :
      Bounds F → Option (TreeOrder F) → Option ℕ → Result L1Error (TreeOrder F)
  materialize_tree_plan bounds (some ord) max_trees =
      ordered_plan ord bounds.n_trees (tree_limit max_trees bounds.n_trees)
  materialize_tree_plan bounds none max_trees = do
    let limit = tree_limit max_trees bounds.n_trees
    suffix_min ← prefix bounds.suffix_min (limit + 1)
    suffix_max ← prefix bounds.suffix_max (limit + 1)
    ok (record {
      n_trees = limit;
      order = range limit 0;
      suffix_min = suffix_min;
      suffix_max = suffix_max;
    })

  abbrev pub used_tau_positive : ApproxPolicy F → List (Option F)
  used_tau_positive policy =
      if not (is_empty policy.used_tau_reject) then policy.used_tau_reject else policy.used_tau_pass

-- A found exit, and the index of the next checkpoint.
abbrev pub Check : Type 0
Check = Option (Bool × RowMeta) × ℕ

abbrev pub passing : ℕ → Bool × RowMeta
passing idx =
    (true, record { approx_pass = true; approx_refer = false; approx_checkpoint_idx = as_i32 idx })

abbrev pub referring : ℕ → Bool × RowMeta
referring idx =
    (false, record { approx_pass = false; approx_refer = true; approx_checkpoint_idx = as_i32 idx })

-- `(m_end % every == 0) || (m_end == n_trees)`, where a remainder by 0 panics.
abbrev pub is_due : ℕ → ℕ → ℕ → Result L1Error Bool
is_due zero m_end n = err panicked
is_due (suc every) m_end n = ok ((m_end % suc every == 0) || (m_end == n))

abbrev pub without_meta : Option Bool → Option (Bool × RowMeta)
without_meta none = none
without_meta (some pass) = some (pass, no_meta)

module _ {F : Type 0} ⦃f : Float32 F⦄ where
  -- `score - row_threshold <= tau` and `>= tau`, where there is a tau.
  abbrev at_most_tau : F → Option F → Bool
  at_most_tau diff none = false
  at_most_tau diff (some tau) = f.le diff tau

  abbrev at_least_tau : F → Option F → Bool
  at_least_tau diff none = false
  at_least_tau diff (some tau) = ge diff tau

-- From `lower >= pass_cut` and `upper < ref_cut`.
abbrev pub decide : Bool → Bool → Option Bool
decide passed failed = if passed then some true else if failed then some false else none

module _ {F : Type 0} ⦃f : Float32 F⦄ ⦃d : Float64 F⦄ where
  unfoldable pub maybe_exact_exit : F → F → F → F → F → F → Option Bool
  maybe_exact_exit score threshold suffix_min suffix_max eps bound_guard =
      let lower = d.add (d.widen score) (d.widen suffix_min) in
      let upper = d.add (d.widen score) (d.widen suffix_max) in
      let pass_cut = d.widen (f.add (f.add threshold eps) bound_guard) in
      let ref_cut = d.widen (d.sub (d.sub threshold eps) bound_guard) in
      decide (d.le pass_cut lower) (d.lt upper ref_cut)

  unfoldable pub maybe_exact_exit_margin : F → F → F → F → F → Option Bool
  maybe_exact_exit_margin margin suffix_min suffix_max eps bound_guard =
      let lower = d.add (d.widen margin) (d.widen suffix_min) in
      let upper = d.add (d.widen margin) (d.widen suffix_max) in
      let pass_cut = d.widen (f.add eps bound_guard) in
      let ref_cut = d.widen (d.neg (f.add eps bound_guard)) in
      decide (d.le pass_cut lower) (d.lt upper ref_cut)

  unfoldable pub exit_at : F → ApproxPolicy F → ℕ → Result L1Error Check
  exit_at diff policy idx = do
    tau_ref ← fetch policy.used_tau_ref idx
    let positive = fetch (used_tau_positive policy) idx >>= λ tau_pos.
        ok ((if at_least_tau diff tau_pos then some (passing idx) else none), idx + 1)
    if at_most_tau diff tau_ref then ok (some (referring idx), idx + 1) else positive

  unfoldable pub maybe_approx_exit : F → F → ℕ → ApproxPolicy F → ℕ → Result L1Error Check
  maybe_approx_exit score row_threshold visited policy cp_idx =
      elim (get_elem? policy.used_checkpoints cp_idx) [
        | none ↦ ok (none, cp_idx)
        | some cp ↦
            if cp == visited
            then exit_at (d.sub score row_threshold) policy cp_idx
            else ok (none, cp_idx)
      ]

module _ {F : Type 0} (test : F → F → F → Option Bool) (plan : TreeOrder F) where
  -- The exact test after tree `m_end` of a plan.
  unfoldable pub exact_always : F → ℕ → ℕ → Result L1Error Check
  exact_always score m_end cp_idx = do
    suffix_min ← fetch plan.suffix_min m_end
    suffix_max ← fetch plan.suffix_max m_end
    ok (without_meta (test score suffix_min suffix_max), cp_idx)

  -- The same, wherever it is due.
  unfoldable pub exact_check : ℕ → F → ℕ → ℕ → Result L1Error Check
  exact_check every score m_end cp_idx = do
    due ← is_due every m_end plan.n_trees
    let tested = exact_always score m_end cp_idx
    if due then tested else ok (none, cp_idx)
