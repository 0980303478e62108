-- ===== src/Core/Engine/Counting.antt =====
-- The second loop of the batch in crates/risk-core/src/quickscorer/engine.rs, as a tally of decisions.
use riskanvil.Base.{
  ℕ, zero, suc, ◌+◌, ◌<◌, Bool, true, false, Option, List, [], ◌∷◌, length, Result, ok, ◌≡◌, arith,
  if◌then◌else◌, ap, ◌∙◌,
}
use riskanvil.Base.Float.{Float32}
use riskanvil.Core.Schema.{Decision, allow, deny, manual_review, degrade_allow, QuickRouteMeta}
use riskanvil.Core.Policy.{L2Policy}
use riskanvil.Core.Policy.SegKey.{Formats}
use riskanvil.Core.Engine.Scratch.{QuickTlsScratch, L1Output, EngineError, floats, l2_stage, >>=-ok}
use riskanvil.Core.Engine.Predict.{QuickScorerEngine}
use riskanvil.Core.Engine.Batch.{DecisionCounts, count_decision, second_stage, survivor_stage}
use riskanvil.Core.Engine.Outcome.{l2_outcome, l2_stage-eq}
use riskanvil.Core.Engine.Stages.{IsStored}

abbrev pub is_decision : Decision → Decision → Bool
is_decision allow allow = true
is_decision deny deny = true
is_decision manual_review manual_review = true
is_decision degrade_allow degrade_allow = true
is_decision _ _ = false

-- How many of the indices from `i` on, `left` of them, pass a test.
unfoldable pub count_from : (ℕ → Bool) → ℕ → ℕ → ℕ
count_from p i zero = 0
count_from p i (suc left) = (if p i then 1 else 0) + count_from p (i + 1) left

-- The decisions of some rows, added to counts.
unfoldable pub tally : {F : Type 0} → (ℕ → F × Decision) → List ℕ → DecisionCounts → DecisionCounts
tally l2 [] c = c
tally l2 (i ∷ is) c = tally l2 is (count_decision (l2 i).1 c)

module _ {F E : Type 0} ⦃f : Float32 F⦄ (text : Formats F) (engine : QuickScorerEngine F E)
    (rows : ℕ → List ℕ) (l1 : ℕ → L1Output F) (route_metas : ℕ → Option (QuickRouteMeta F))
    (policy : L2Policy F) (wf : length policy.feature_sources ≡ policy.dim)
    (l2 : ℕ → F × Decision) where
  abbrev pub Survives : ℕ → Type 0
  Survives i =
      (i < 128)
      × (l2_outcome text engine policy (floats (rows i)) (l1 i).score (route_metas i) ≡ ok (l2 i))

  abbrev pub AllSurvive : List ℕ → Type 0
  AllSurvive [] = Unit
  AllSurvive (i ∷ is) = Survives i × AllSurvive is

  abbrev Stored : QuickTlsScratch F → Type 0
  Stored s = (j : ℕ) → j < 128 → IsStored text engine rows l1 s j

  survivor_stage-eq :
      (i : ℕ) (s : QuickTlsScratch F)
      → Stored s
      → Survives i
      → (t : QuickTlsScratch F) × (survivor_stage text engine rows route_metas policy i s
          ≡ (ok (l2 i), t))
        × Stored t
  survivor_stage-eq i s all (h, scored) =
      let here = all i h in
      let r =
        l2_stage text engine.runtime policy (floats (rows i)) (l1 i).score (route_metas i) s in
      let (value, same_rows, same_scores) =
        l2_stage-eq text engine policy (floats (rows i)) (l1 i).score (route_metas i) s wf in
      (
        r.1,
        ground (arith, here.row, here.score, value ∙ scored),
        λ j less. record {
          row = rw same_rows (all j less).row;
          score = rw same_scores (all j less).score;
        },
      )

  pub second_stage-eq :
      (survivors : List ℕ) (used : ℕ) (counts : DecisionCounts) (s : QuickTlsScratch F)
      → Stored s
      → AllSurvive survivors
      → (second_stage text engine rows route_metas policy survivors used counts s).0
        ≡ ok (used + length survivors, tally l2 survivors counts)
  unfolding second_stage tally
  second_stage-eq [] used counts s all fine = ground arith
  second_stage-eq (i ∷ is) used counts s all (one, rest) =
      let (t, run, kept) = survivor_stage-eq i s all one in
      ap (λ (r : Result (EngineError E) (ℕ × DecisionCounts) × QuickTlsScratch F). r.0)
        (>>=-ok (survivor_stage text engine rows route_metas policy i)
          (λ l.
            second_stage text engine rows route_metas policy is (used + 1)
              (count_decision l.1 counts))
          s run)
      ∙ (second_stage-eq is (used + 1) (count_decision (l2 i).1 counts) t kept rest
          ∙ ap (λ (n : ℕ). ok (n, tally l2 is (count_decision (l2 i).1 counts))) (omega arith))
