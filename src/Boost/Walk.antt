-- ===== src/Boost/Walk.antt =====
-- The loop from a tree's root to its leaf, and the loop over trees with a test after each. The
-- traversals of crates/risk-quickscorer/src/l1.rs differ in how they find the next node, in what
-- they keep while they do, and in the test.
use riskanvil.Base.{
  ℕ, zero, suc, ◌+◌, none, some, length, ◌==◌, if◌then◌else◌, Result, ok, err, ◌>>=◌,
}
use riskanvil.Base.Float.{Float32}
use riskanvil.Base.Int.{ℤ}
use riskanvil.Boost.Model.{SoaModel, TreeOrder, L1Error, endless, fetch, as_i32, Routed}
use riskanvil.Boost.Exits.{Check}

module _ {S F : Type 0} where
  module _ (model : SoaModel F) (next : S → ℕ → Result L1Error (S × ℕ)) where
    unfoldable pub descend : ℕ → S → ℕ → Result L1Error (S × F)
    descend zero s idx = err endless
    descend (suc fuel) s idx = do
      flag ← fetch model.is_leaf idx
      let deeper = next s idx >>= λ (t, child). descend fuel t child
      if flag == 0 then deeper else (fetch model.leaf idx >>= λ v. ok (s, v))

    -- A path that is longer than there are nodes repeats one.
    unfoldable pub tree_leaf : ℕ → S → Result L1Error (S × F)
    tree_leaf root s = descend (suc (length model.is_leaf)) s root

    -- Tree number `pos` of the plan.
    unfoldable pub walk_plan : TreeOrder F → ℕ → S → Result L1Error (S × F)
    walk_plan plan pos s = do
      tree_idx ← fetch plan.order pos
      root ← fetch model.tree_roots tree_idx
      tree_leaf root s

-- The variables of the loop over trees. `cache` is what the search for a node keeps.
pub record Run (S F : Type 0) : Type 0 where
  pub cache : S
  pub score : F
  pub visited : ℤ
  pub cp_idx : ℕ

pub data Flow (S F : Type 0) : Type 0 where
  on : Run S F → Flow S F
  out : S → Routed F → Flow S F

module _ {S F : Type 0} ⦃f : Float32 F⦄ (walk : ℕ → S → Result L1Error (S × F))
    (check : F → ℕ → ℕ → Result L1Error Check) where
  abbrev pub advance : ℕ → Run S F → S → F → ℕ → Run S F
  advance pos st s v cp = record {
    cache = s;
    score = f.add st.score v;
    visited = as_i32 (pos + 1);
    cp_idx = cp;
  }

  -- `left` trees from `pos` on.
  unfoldable pub run_trees : ℕ → ℕ → Run S F → Result L1Error (Flow S F)
  run_trees zero pos st = ok (on st)
  run_trees (suc left) pos st = do
    (s, v) ← walk pos st.cache
    (found, cp) ← check (f.add st.score v) (pos + 1) st.cp_idx
    elim found [
      | none ↦ run_trees left (pos + 1) (advance pos st s v cp)
      | some (pass, meta) ↦ ok (
          out s (record {
            score = f.add st.score v;
            pass = pass;
            visited = as_i32 (pos + 1);
            meta = meta;
          }))
    ]

-- What follows a loop that no test has ended.
abbrev pub then_run :
    {S F : Type 0} → (Run S F → Result L1Error (Flow S F)) → Flow S F → Result L1Error (Flow S F)
then_run more (on st) = more st
then_run more (out s r) = ok (out s r)
