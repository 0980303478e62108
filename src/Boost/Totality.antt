-- ===== src/Boost/Totality.antt =====
-- The traversals of crates/risk-quickscorer/src/l1.rs end with a result on trees without cycles.
use riskanvil.Base.{
  ℕ, zero, suc, ◌+◌, ◌≤◌, ◌<◌, Bool, true, false, none, some, List, [], ◌∷◌, length, get_elem?,
  if◌then◌else◌, Result, ok, ◌>>=◌, inl, inr, ◌≡◌, ◌⊎◌, refl, arith,
}
use riskanvil.Base.Float.{Float32}
use riskanvil.Base.Int.{ℤ}
use riskanvil.Boost.Exits.{Check, used_tau_positive}
use riskanvil.Boost.Model.{SoaModel, TreeOrder, ApproxPolicy, L1Error, fetch, as_usize}
use riskanvil.Boost.Simulation.{suc-not_zero}
use riskanvil.Boost.Walk.{descend, tree_leaf, walk_plan, Run, on, advance, run_trees}

-- The result is no error.
abbrev pub IsOk : {A : Type 0} → Result L1Error A → Type 0
IsOk {A} r = (a : A) × (r ≡ ok a)

pub get_elem-inside :
    {A : Type 0} (xs : List A) (i : ℕ) → i < length xs → (x : A) × (get_elem? xs i ≡ some x)
get_elem-inside [] i h = absurd (omega arith)
get_elem-inside (x ∷ xs) zero h = (x, refl)
get_elem-inside (x ∷ xs) (suc i) h = get_elem-inside xs i (omega arith)

pub get_elem-bound :
    {A : Type 0} (xs : List A) (i : ℕ) (x : A) → get_elem? xs i ≡ some x → i < length xs
get_elem-bound [] i x h = absurd (ground (arith, h))
get_elem-bound (y ∷ ys) zero x h = omega arith
get_elem-bound (y ∷ ys) (suc i) x h = omega (arith, get_elem-bound ys i x h)

pub fetch-inside : {A : Type 0} (xs : List A) (i : ℕ) → i < length xs → IsOk (fetch xs i)
fetch-inside xs i h = let r = get_elem-inside xs i h in (r.0, rw (r.1) refl)

pub IsOk-bind :
    {A B : Type 0} (r : Result L1Error A) (k : A → Result L1Error B)
    → IsOk r
    → ((a : A) → r ≡ ok a → IsOk (k a))
    → IsOk (r >>= k)
IsOk-bind r k (a, p) more = rw p (more a p)

-- To split on the value and keep the equation.
pub IsOk-cases : {A : Type 0} {r : Result L1Error A} → IsOk r → ⊥ ⊎ ((a : A) × (r ≡ ok a))
IsOk-cases h = inr h

pub if-IsOk :
    {A : Type 0} (b : Bool) (x y : Result L1Error A) → IsOk x → IsOk y → IsOk (if b then x else y)
if-IsOk true x y h h' = h
if-IsOk false x y h h' = h'

-- A model as the loader builds it, with trees that lead down: each child of a node has a smaller
-- height, which no node's exceeds the count of nodes.
pub record IsSound {F : Type 0} (model : SoaModel F) (dim : ℕ) (height : ℕ → ℕ) : Type 0 where
  pub fidx_len : length model.fidx ≡ length model.is_leaf
  pub left_len : length model.left ≡ length model.is_leaf
  pub right_len : length model.right ≡ length model.is_leaf
  pub missing_len : length model.missing ≡ length model.is_leaf
  pub thr_len : length model.thr ≡ length model.is_leaf
  pub leaf_len : length model.leaf ≡ length model.is_leaf
  pub bounded : (idx : ℕ) → height idx ≤ length model.is_leaf
  pub feature_inside :
      (idx : ℕ) (fidx : ℤ)
      → fetch model.is_leaf idx ≡ ok 0
      → fetch model.fidx idx ≡ ok fidx
      → as_usize fidx < dim
  pub left_down :
      (idx child : ℕ)
      → fetch model.is_leaf idx ≡ ok 0
      → fetch model.left idx ≡ ok child
      → (child < length model.is_leaf) × (height child < height idx)
  pub right_down :
      (idx child : ℕ)
      → fetch model.is_leaf idx ≡ ok 0
      → fetch model.right idx ≡ ok child
      → (child < length model.is_leaf) × (height child < height idx)
  pub missing_down :
      (idx child : ℕ)
      → fetch model.is_leaf idx ≡ ok 0
      → fetch model.missing idx ≡ ok child
      → (child < length model.is_leaf) × (height child < height idx)

-- A plan over the model's trees, with a bound for each count of trees.
pub record IsPlanOf {F : Type 0} (plan : TreeOrder F) (model : SoaModel F) : Type 0 where
  pub order_len : length plan.order ≡ plan.n_trees
  pub min_len : length plan.suffix_min ≡ plan.n_trees + 1
  pub max_len : length plan.suffix_max ≡ plan.n_trees + 1
  pub order_inside : (p tree : ℕ) → fetch plan.order p ≡ ok tree → tree < length model.tree_roots
  pub root_inside :
      (tree root : ℕ) → fetch model.tree_roots tree ≡ ok root → root < length model.is_leaf

-- A policy with a pair of thresholds, or none, for each checkpoint.
pub record IsLevel {F : Type 0} (policy : ApproxPolicy F) : Type 0 where
  pub ref_len : length policy.used_tau_ref ≡ length policy.used_checkpoints
  pub positive_len : length (used_tau_positive policy) ≡ length policy.used_checkpoints

module _ {S F : Type 0} (model : SoaModel F) (dim : ℕ) (height : ℕ → ℕ)
    (sound : IsSound model dim height) (next : S → ℕ → Result L1Error (S × ℕ)) where
  -- Each step from a node that is no leaf leads to a lower one.
  abbrev pub StepsDown : Type 0
  StepsDown =
      (s : S) (idx : ℕ)
      → idx < length model.is_leaf
      → fetch model.is_leaf idx ≡ ok 0
      → (t : S) × (child : ℕ) × (next s idx ≡ ok (t, child))
        × (child < length model.is_leaf)
        × (height child < height idx)

  descend-IsOk :
      StepsDown
      → (fuel : ℕ) (s : S) (idx : ℕ) → idx < length model.is_leaf
      → height idx < fuel
      → IsOk (descend model next fuel s idx)
  unfolding descend
  descend-IsOk down zero s idx inside h = absurd (omega arith)
  descend-IsOk down (suc fuel) s idx inside h =
      elim (IsOk-cases (fetch-inside model.is_leaf idx inside)) [
        | inl impossible ↦ absurd impossible
        | inr (zero, p) ↦
            let (t, child, q, below, lower) = down s idx inside p in
            rw (p, q) (descend-IsOk down fuel t child below (omega (arith, lower, h)))
        | inr (suc flag, p) ↦
            let (v, q) = fetch-inside model.leaf idx (omega (arith, sound.leaf_len)) in
            ((s, v), rw (p, suc-not_zero flag, q) refl)
      ]

  pub walk_plan-IsOk :
      StepsDown
      → (plan : TreeOrder F) (p : ℕ) (s : S) → IsPlanOf plan model
      → p < plan.n_trees
      → IsOk (walk_plan model next plan p s)
  unfolding walk_plan tree_leaf
  walk_plan-IsOk down plan p s good h =
      let (tree, q) = fetch-inside plan.order p (omega (arith, good.order_len)) in
      let (root, q') = fetch-inside model.tree_roots tree (good.order_inside p tree q) in
      rw (q, q')
        (descend-IsOk down (suc (length model.is_leaf)) s root (good.root_inside tree root q')
          (omega (arith, sound.bounded root)))

module _ {S F : Type 0} ⦃f : Float32 F⦄ (walk : ℕ → S → Result L1Error (S × F))
    (check : F → ℕ → ℕ → Result L1Error Check) where
  pub run_trees-IsOk :
      (n left i : ℕ) (st : Run S F)
      → i + left ≤ n
      → ((p : ℕ) (s : S) → p < n → IsOk (walk p s))
      → ((score : F) (m cp : ℕ) → m ≤ n → IsOk (check score m cp))
      → IsOk (run_trees walk check left i st)
  unfolding run_trees
  run_trees-IsOk n zero i st le walks checks = (on st, refl)
  run_trees-IsOk n (suc left) i st le walks checks =
      let ((s, v), p) = walks i st.cache (omega arith) in
      elim (IsOk-cases (checks (f.add st.score v) (i + 1) st.cp_idx (omega arith))) [
        | inl impossible ↦ absurd impossible
        | inr ((none, cp), q) ↦
            rw (p, q)
              (run_trees-IsOk n left (i + 1) (advance walk check i st s v cp) (omega arith) walks
                checks)
        | inr ((some (pass, meta), cp), q) ↦ rw (p, q) (_, refl)
      ]
