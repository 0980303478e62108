-- ===== src/Core/Engine/Survivors.antt =====
-- The rows that the first loop of the batch in crates/risk-core/src/quickscorer/engine.rs leaves
-- over, beside those that it lets pass.
use riskanvil.Base.{
  ℕ, zero, suc, ◌+◌, ◌<◌, Bool, not, List, [], ◌∷◌, length, ◌≡◌, refl, arith, if◌then◌else◌,
}
use riskanvil.Core.Schema.{Decision, allow, deny, manual_review, degrade_allow}
use riskanvil.Core.Engine.Scratch.{L1Output}
use riskanvil.Core.Engine.Batch.{DecisionCounts, no_decisions, count_decision}
use riskanvil.Core.Engine.Stages.{survivors_from, passes_from}
use riskanvil.Core.Engine.Counting.{is_decision, count_from, tally}

pub count_from_congr :
    (p q : ℕ → Bool) (left i : ℕ)
    → ((j : ℕ) → j < i + left → p j ≡ q j)
    → count_from p i left ≡ count_from q i left
unfolding count_from
count_from_congr p q zero i h = refl
count_from_congr p q (suc left) i h =
    rw (h i (omega arith)) (rw (count_from_congr p q left (i + 1) (λ j less. h j (omega arith))))

module _ {F : Type 0} (l1 : ℕ → L1Output F) (l2 : ℕ → F × Decision) where
  abbrev count_in : Decision → List ℕ → ℕ
  count_in d [] = 0
  count_in d (i ∷ is) = (if is_decision d (l2 i).1 then 1 else 0) + count_in d is

  abbrev pub decision_of : ℕ → Decision
  decision_of i = if (l1 i).passed then allow else (l2 i).1

  tally-eq :
      (is : List ℕ) (c : DecisionCounts)
      → tally l2 is c ≡ record {
        c0 = c.c0 + count_in allow is;
        c1 = c.c1 + count_in deny is;
        c2 = c.c2 + count_in manual_review is;
        c3 = c.c3 + count_in degrade_allow is;
        c4 = c.c4;
      }
  unfolding count_decision tally
  tally-eq [] c = ground arith
  tally-eq (i ∷ is) c = ground (arith, tally-eq is (count_decision (l2 i).1 c))

  passes_from-eq :
      (i left : ℕ) (c : DecisionCounts)
      → passes_from l1 i left c ≡ record c { c0 = c.c0 + count_from (λ j. (l1 j).passed) i left }
  unfolding count_decision count_from passes_from
  passes_from-eq i zero c = ground arith
  passes_from-eq i (suc left) c =
      ground
        (arith, passes_from-eq (i + 1) left c, passes_from-eq (i + 1) left (count_decision allow c))

  -- A row is counted once, as it passes or as it survives.
  count_in-survivors :
      (d : Decision) (i left : ℕ)
      → count_in d (survivors_from l1 i left)
          + (if is_decision d allow then count_from (λ j. (l1 j).passed) i left else 0)
        ≡ count_from (λ j. is_decision d (decision_of j)) i left
  unfolding count_from survivors_from
  count_in-survivors d i zero = ground arith
  count_in-survivors d i (suc left) = ground (arith, count_in-survivors d (i + 1) left)

  pub length-survivors_from :
      (i left : ℕ) → length (survivors_from l1 i left) ≡ count_from (λ j. not (l1 j).passed) i left
  unfolding count_from survivors_from
  length-survivors_from i zero = refl
  length-survivors_from i (suc left) = ground (arith, length-survivors_from (i + 1) left)

  -- Both loops together count the decision of every row.
  pub counts_of_all :
      (n : ℕ)
      → tally l2 (survivors_from l1 0 n) (passes_from l1 0 n no_decisions) ≡ record {
        c0 = count_from (λ j. is_decision allow (decision_of j)) 0 n;
        c1 = count_from (λ j. is_decision deny (decision_of j)) 0 n;
        c2 = count_from (λ j. is_decision manual_review (decision_of j)) 0 n;
        c3 = count_from (λ j. is_decision degrade_allow (decision_of j)) 0 n;
        c4 = 0;
      }
  counts_of_all n = rw passes_from-eq (
      ground (
        arith,
        tally-eq (survivors_from l1 0 n)
            (record no_decisions { c0 = 0 + count_from (λ j. (l1 j).passed) 0 n }),
        count_in-survivors allow 0 n,
        count_in-survivors deny 0 n,
        count_in-survivors manual_review 0 n,
        count_in-survivors degrade_allow 0 n,
      ))
