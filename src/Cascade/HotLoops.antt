-- ===== src/Cascade/HotLoops.antt =====
-- The loop over the trees of crates/risk-quickscorer/src/l1.rs, run side by side with two ways to visit
-- a node and two lists of roots.
use riskanvil.Base.{ℕ, zero, suc, ◌+◌, List, Result, ok, err, ◌>>=◌, ◌⊎◌, inl, inr, ◌≡◌, refl}
use riskanvil.Base.Float.{Float32}
use riskanvil.Boost.Model.{L1Error, fetch}
use riskanvil.Boost.Simulation.{Alike, Alike-bind}
use riskanvil.Cascade.HotPrefix.{
  Callback, HotEnd, Turn, finish, more, Visit, at_checkpoint, take_turn, prefix_loop, walk,
}

module _ {F : Type 0} ⦃f : Float32 F⦄ {C D : Type 0} (R : C → D → Type 0) where
  turned :
      {S : Type 0} (p : ℕ) (x : F) (e : ℕ) (c : C) (d : D) (score : F)
      → R c d
      → (turn : Result L1Error (Turn S)) (k : List ℕ → S → Result L1Error (C × (HotEnd F × S)))
        (l : List ℕ → S → Result L1Error (D × (HotEnd F × S)))
      → ((cps : List ℕ) (s : S) → Alike R (k cps s) (l cps s))
      → Alike R
          (turn >>= λ t. take_turn t (λ s. ok (c, ((score, p + 1, e, 0), s))) k)
          (turn >>= λ t. take_turn t (λ s. ok (d, ((score, p + 1, e, 0), s))) l)
  turned p x e c d score ready (err b) k l rest = refl
  turned p x e c d score ready (ok (finish s)) k l rest = (ready, refl)
  turned p x e c d score ready (ok (more cps s)) k l rest = rest cps s

  module _ (visit : C → ℕ → Result L1Error (C × Visit F))
      (visit' : D → ℕ → Result L1Error (D × Visit F)) (fuel : ℕ) where
    -- The walks from two roots end alike.
    abbrev pub RootsAlike : ℕ → ℕ → Type 0
    RootsAlike root root' =
        (c : C) (d : D) (evals : ℕ)
        → R c d
        → Alike R (walk visit fuel c root evals) (walk visit' fuel d root' evals)

    -- Neither list has a root there, or both have, and the walks from them end alike.
    abbrev pub TreesAlike : List ℕ → List ℕ → ℕ → Type 0
    TreesAlike roots roots' p =
        ((e : L1Error) × (fetch roots p ≡ err e) × (fetch roots' p ≡ err e))
        ⊎ ((root : ℕ) × (root' : ℕ) × (fetch roots p ≡ ok root)
            × (fetch roots' p ≡ ok root')
            × RootsAlike root root')

    pub prefix_loop-Alike :
        {S : Type 0} (cb : Callback F S) (roots roots' : List ℕ)
        → ((p : ℕ) → TreesAlike roots roots' p)
        → (n p : ℕ) (score : F) (evals : ℕ) (cps : List ℕ) (c : C) (d : D) (s : S) → R c d
        → Alike R
            (prefix_loop visit cb fuel roots n p score evals cps c s)
            (prefix_loop visit' cb fuel roots' n p score evals cps d s)
    unfolding prefix_loop
    prefix_loop-Alike cb roots roots' trees zero p score evals cps c d s ready = refl
    prefix_loop-Alike cb roots roots' trees (suc n) p score evals cps c d s ready = elim (trees p) [
      | inl (e, none_at, none_there) ↦ rw (none_at, none_there) refl
      | inr (root, root', root_at, there, walks) ↦
          rw (root_at, there)
            (Alike-bind R _ _ _ _ (walks c d evals ready) (λ c' d' (x, e) ready'.
              turned p x e c' d' (f.add score x) ready'
                (at_checkpoint cb cps (p + 1) (f.add score x) e s) _ _
                (λ cps' s'.
                  prefix_loop-Alike cb roots roots' trees n (p + 1) (f.add score x) e cps' c' d' s'
                    ready')))
    ]
