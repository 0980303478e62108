-- ===== src/Boost/Simulation.antt =====
-- Two traversals of the same trees, run side by side: while what they keep stays related, and each
-- tree gives both the same leaf, they end alike.
use riskanvil.Base.{
  ℕ, zero, suc, ◌+◌, ◌-◌, min, length, ◌≤◌, ◌<◌, ◌==◌, false, Option, none, some, Result, ok, err,
  ◌>>=◌, ◌≡◌, refl, arith, Result-cases, inl, inr,
}
use riskanvil.Base.Float.{Float32}
use riskanvil.Base.Int.{ℤ}
use riskanvil.Boost.Model.{
  InferMode, ApproxPolicy, Float64, L1Error, as_i32, fetch, SoaModel, TreeOrder,
}
use riskanvil.Boost.Exits.{Check}
use riskanvil.Boost.Traverse.{finish, traverse_by, traverse_approx_by}
use riskanvil.Boost.Walk.{descend, tree_leaf, walk_plan, Run, Flow, on, out, run_trees, then_run}

pub suc-not_zero : (n : ℕ) → (suc n == 0) ≡ false
suc-not_zero n = ground arith

-- The same error, or the same value beside related caches.
abbrev pub Alike :
    {S T A : Type 0} → (S → T → Type 0) → Result L1Error (S × A) → Result L1Error (T × A) → Type 0
Alike R (ok (s, a)) (ok (t, b)) = R s t × (a ≡ b)
Alike R (err e) (err e') = e ≡ e'
Alike R (ok r) (err e) = ⊥
Alike R (err e) (ok r) = ⊥

pub Alike-weaken :
    {S T A : Type 0} {R R' : S → T → Type 0} (x : Result L1Error (S × A))
    (y : Result L1Error (T × A))
    → ((s : S) (t : T) → R s t → R' s t)
    → Alike R x y
    → Alike R' x y
Alike-weaken (ok (s, a)) (ok (t, b)) weaker (r, same) = (weaker s t r, same)
Alike-weaken (err e) (err e') weaker same = same
Alike-weaken (ok x) (err e) weaker h = absurd h
Alike-weaken (err e) (ok x) weaker h = absurd h

-- The same error, the same place in the loop, or the same end.
abbrev pub SameFlow : {S T F : Type 0} → (S → T → Type 0) → Flow S F → Flow T F → Type 0
SameFlow R (on st) (on st') =
    R st.cache st'.cache
    × (st.score ≡ st'.score)
    × (st.visited ≡ st'.visited)
    × (st.cp_idx ≡ st'.cp_idx)
SameFlow R (out s r) (out t r') = R s t × (r ≡ r')
SameFlow R (on st) (out t r) = ⊥
SameFlow R (out s r) (on st) = ⊥

abbrev pub AlikeFlow :
    {S T F : Type 0}
    → (S → T → Type 0)
    → Result L1Error (Flow S F)
    → Result L1Error (Flow T F)
    → Type 0
AlikeFlow R (ok x) (ok y) = SameFlow R x y
AlikeFlow R (err e) (err e') = e ≡ e'
AlikeFlow R (ok x) (err e) = ⊥
AlikeFlow R (err e) (ok x) = ⊥

module _ {S T : Type 0} (R : S → T → Type 0) where
  pub Alike-bind :
      {A B : Type 0} (x : Result L1Error (S × A)) (y : Result L1Error (T × A))
      (k : S × A → Result L1Error (S × B)) (l : T × A → Result L1Error (T × B))
      → Alike R x y
      → ((s : S) (t : T) (a : A) → R s t → Alike R (k (s, a)) (l (t, a)))
      → Alike R (x >>= k) (y >>= l)
  Alike-bind (ok (s, a)) (ok (t, b)) k l (r, same) more = rw (← same) (more s t a r)
  Alike-bind (err e) (err e') k l same more = same
  Alike-bind (ok x) (err e) k l h more = absurd h
  Alike-bind (err e) (ok x) k l h more = absurd h

  pub AlikeFlow-bind :
      {A F : Type 0} (x : Result L1Error (S × A)) (y : Result L1Error (T × A))
      (k : S × A → Result L1Error (Flow S F)) (l : T × A → Result L1Error (Flow T F))
      → Alike R x y
      → ((s : S) (t : T) (a : A) → R s t → AlikeFlow R (k (s, a)) (l (t, a)))
      → AlikeFlow R (x >>= k) (y >>= l)
  AlikeFlow-bind (ok (s, a)) (ok (t, b)) k l (r, same) more = rw (← same) (more s t a r)
  AlikeFlow-bind (err e) (err e') k l same more = same
  AlikeFlow-bind (ok x) (err e) k l h more = absurd h
  AlikeFlow-bind (err e) (ok x) k l h more = absurd h

  module _ {F : Type 0} ⦃f : Float32 F⦄ (check : F → ℕ → ℕ → Result L1Error Check)
      (walk : ℕ → S → Result L1Error (S × F)) (walk' : ℕ → T → Result L1Error (T × F)) where
    abbrev at_state : {A : Type 0} → A → F → ℤ → ℕ → Run A F
    at_state s score visited cp = record {
      cache = s;
      score = score;
      visited = visited;
      cp_idx = cp;
    }

    -- With the trees alike below `n`, so are the loops that stay below `n`.
    pub run_trees-Alike :
        (n left i : ℕ)
        → i + left ≤ n
        → ((p : ℕ) (s : S) (t : T) → p < n → R s t → Alike R (walk p s) (walk' p t))
        → (s : S) (t : T) (score : F) (visited : ℤ) (cp : ℕ) → R s t
        → AlikeFlow R
            (run_trees walk check left i (at_state s score visited cp))
            (run_trees walk' check left i (at_state t score visited cp))
    unfolding run_trees
    run_trees-Alike n zero i le same s t score visited cp h = (h, refl, refl, refl)
    run_trees-Alike n (suc left) i le same s t score visited cp h =
        AlikeFlow-bind (walk i s) (walk' i t) _ _ (same i s t (omega arith) h) (λ s' t' v r.
          elim (Result-cases (check (f.add score v) (i + 1) cp)) [
            | inl (e, p) ↦ ground (arith, p)
            | inr ((none, cp'), p) ↦ rw p (
                run_trees-Alike n left (i + 1) (omega arith) same s' t' (f.add score v)
                  (as_i32 (i + 1)) cp' r)
            | inr ((some (pass, meta), cp'), p) ↦ rw p (r, refl)
          ])

    -- The second loop, where the first one ended by no test.
    pub then_run-Alike :
        (n left i : ℕ)
        → i + left ≤ n
        → ((p : ℕ) (s : S) (t : T) → p < n → R s t → Alike R (walk p s) (walk' p t))
        → (x : Result L1Error (Flow S F)) (y : Result L1Error (Flow T F)) → AlikeFlow R x y
        → AlikeFlow R
            (x >>= then_run (run_trees walk check left i))
            (y >>= then_run (run_trees walk' check left i))
    then_run-Alike n left i le same (ok (on st)) (ok (on st')) (r, score, visited, cp) =
        rw (← score, ← visited, ← cp)
          (run_trees-Alike n left i le same st.cache st'.cache st.score st.visited st.cp_idx r)
    then_run-Alike n left i le same (ok (out s r)) (ok (out t r')) h = h
    then_run-Alike n left i le same (ok (on st)) (ok (out t r)) h = absurd h
    then_run-Alike n left i le same (ok (out s r)) (ok (on st)) h = absurd h
    then_run-Alike n left i le same (err e) (err e') h = h
    then_run-Alike n left i le same (ok x) (err e) h = absurd h
    then_run-Alike n left i le same (err e) (ok x) h = absurd h

  pub finish-Alike :
      {F : Type 0} ⦃f : Float32 F⦄ (threshold : F) (x : Result L1Error (Flow S F))
      (y : Result L1Error (Flow T F))
      → AlikeFlow R x y
      → Alike R (x >>= finish threshold) (y >>= finish threshold)
  finish-Alike threshold (ok (on st)) (ok (on st')) (r, score, visited, cp) =
      (r, rw (score, visited) refl)
  finish-Alike threshold (ok (out s r)) (ok (out t r')) h = h
  finish-Alike threshold (ok (on st)) (ok (out t r)) h = absurd h
  finish-Alike threshold (ok (out s r)) (ok (on st)) h = absurd h
  finish-Alike threshold (err e) (err e') h = h
  finish-Alike threshold (ok x) (err e) h = absurd h
  finish-Alike threshold (err e) (ok x) h = absurd h

  module _ {F : Type 0} (model : SoaModel F) (next : S → ℕ → Result L1Error (S × ℕ))
      (next' : T → ℕ → Result L1Error (T × ℕ)) where
    -- Both searches take the same step from each node that is no leaf.
    abbrev pub SameSteps : Type 0
    SameSteps =
        (idx : ℕ) (s : S) (t : T)
        → fetch model.is_leaf idx ≡ ok 0
        → R s t
        → Alike R (next s idx) (next' t idx)

    descend-Alike :
        SameSteps
        → (fuel : ℕ) (s : S) (t : T) (idx : ℕ) → R s t
        → Alike R (descend model next fuel s idx) (descend model next' fuel t idx)
    unfolding descend
    descend-Alike same zero s t idx h = refl
    descend-Alike same (suc fuel) s t idx h = elim (Result-cases (fetch model.is_leaf idx)) [
      | inl (e, p) ↦ rw p refl
      | inr (zero, p) ↦ rw p (
          Alike-bind (next s idx) (next' t idx) _ _ (same idx s t p h)
            (λ s' t' child r. descend-Alike same fuel s' t' child r))
      | inr (suc flag, p) ↦ elim (Result-cases (fetch model.leaf idx)) [
        | inl (e, q) ↦ rw (p, suc-not_zero flag, q) refl
        | inr (v, q) ↦ rw (p, suc-not_zero flag, q) (h, refl)
      ]
    ]

    pub walk_plan-Alike :
        SameSteps
        → (plan : TreeOrder F) (p : ℕ) (s : S) (t : T) → R s t
        → Alike R (walk_plan model next plan p s) (walk_plan model next' plan p t)
    unfolding walk_plan tree_leaf
    walk_plan-Alike same plan p s t h = elim (Result-cases (fetch plan.order p)) [
      | inl (e, q) ↦ rw q refl
      | inr (tree_idx, q) ↦ elim (Result-cases (fetch model.tree_roots tree_idx)) [
        | inl (e, q') ↦ rw (q, q') refl
        | inr (root, q') ↦ rw (q, q') (descend-Alike same (suc (length model.is_leaf)) s t root h)
      ]
    ]

  module _ {F : Type 0} ⦃f : Float32 F⦄ ⦃d : Float64 F⦄ (model : SoaModel F) (threshold : F)
      (plan : TreeOrder F) (eps bound_guard : F) (every : ℕ) (next : S → ℕ → Result L1Error (S × ℕ))
      (next' : T → ℕ → Result L1Error (T × ℕ)) (same : SameSteps model next next') where
    pub traverse_by-Alike :
        (mode : InferMode) (policy : Option (ApproxPolicy F)) (first : ℕ) (score : F) (s : S)
        (t : T)
        → R s t
        → Alike R
            (traverse_by model threshold plan eps bound_guard every next s score mode policy first)
            (traverse_by model threshold plan eps bound_guard every next' t score mode policy first)
    unfolding traverse_by
    traverse_by-Alike mode policy first score s t h = finish-Alike threshold _ _ (
        run_trees-Alike _ _ _ (plan.n_trees - first + first) (plan.n_trees - first) first
          (omega arith) (λ p s' t' less r. walk_plan-Alike model next next' same plan p s' t' r) s t
          score (as_i32 first) 0 h)

    pub traverse_approx_by-Alike :
        (policy : ApproxPolicy F) (score : F) (s : S) (t : T)
        → R s t
        → Alike R
            (traverse_approx_by model threshold plan eps bound_guard every next s score policy)
            (traverse_approx_by model threshold plan eps bound_guard every next' t score policy)
    unfolding traverse_approx_by
    traverse_approx_by-Alike policy score s t h =
        let k_hot = min policy.k_hot plan.n_trees in
        finish-Alike threshold _ _ (
          then_run-Alike _ _ _ plan.n_trees (plan.n_trees - k_hot) k_hot (omega arith)
            (λ p s' t' less r. walk_plan-Alike model next next' same plan p s' t' r) _ _
            (run_trees-Alike _ _ _ plan.n_trees k_hot 0 (omega arith)
              (λ p s' t' less r. walk_plan-Alike model next next' same plan p s' t' r) s t score
              (as_i32 0) 0 h))
