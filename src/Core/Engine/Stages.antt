-- ===== src/Core/Engine/Stages.antt =====
-- The first loop of the batch in crates/risk-core/src/quickscorer/engine.rs, each row in its own
-- place of the shared buffer.
use riskanvil.Base.{
  ℕ, zero, suc, ◌+◌, ◌*◌, ◌≤◌, ◌<◌, some, List, [], ◌∷◌, ◌++◌, length, set, get_elem?, ok, ◌≡◌,
  refl, arith, if◌then◌else◌, inl, inr, ◌∙◌, Bool-cases, length-set, sym,
}
use mathlib.Core.List.{append_assoc, append-nil}
use mathlib.Core.Path.{subst}
use native.Mathlib.Decide.{dec_lt}
use riskanvil.Base.Bytes.{slice, slice-eq-some}
use riskanvil.Base.Float.{Float32}
use riskanvil.Core.Schema.{allow}
use riskanvil.Core.Policy.SegKey.{Formats}
use riskanvil.Core.Engine.Scratch.{QuickTlsScratch, L1Output, >>=-ok, modify, ◌>>◌, floats, splice}
use riskanvil.Core.Engine.Predict.{QuickScorerEngine}
use riskanvil.Core.Engine.Batch.{
  note_row, DecisionCounts, count_decision, score_row_in_place, first_stage,
}
use riskanvil.Core.Engine.Buffers.{
  length-splice, slice-splice_before, slice-splice_self, get_elem?-set_self, get_elem?-set_before,
}
use riskanvil.Core.Engine.Rows.{length-floats}
use riskanvil.Core.Engine.Outcome.{l1_outcome}

-- Row `i` of `n` ends inside the buffer.
pub row_fits : (i n dim : ℕ) → i < n → i * dim + dim ≤ n * dim
row_fits i n dim h = grind arith

pub row_before : (j i dim : ℕ) → j < i → j * dim + dim ≤ i * dim
row_before j i dim h = grind arith

-- The rows that do not pass, and the counts with those that do.
unfoldable pub survivors_from : {F : Type 0} → (ℕ → L1Output F) → ℕ → ℕ → List ℕ
survivors_from l1 i zero = []
survivors_from l1 i (suc left) =
    if (l1 i).passed then survivors_from l1 (i + 1) left else i ∷ survivors_from l1 (i + 1) left

unfoldable pub passes_from :
    {F : Type 0} → (ℕ → L1Output F) → ℕ → ℕ → DecisionCounts → DecisionCounts
passes_from l1 i zero counts = counts
passes_from l1 i (suc left) counts =
    passes_from l1 (i + 1) left (if (l1 i).passed then count_decision allow counts else counts)

module _ {F E : Type 0} ⦃f : Float32 F⦄ (text : Formats F) (engine : QuickScorerEngine F E)
    (rows : ℕ → List ℕ) (l1 : ℕ → L1Output F) where
  -- Row `i` has the right size, and the first stage gives `l1 i` for it.
  pub record IsScored (i : ℕ) : Type 0 where
    pub sized : length (rows i) ≡ engine.policy.l1_dim * 4
    pub scored : l1_outcome text engine (rows i) ≡ ok (l1 i)

  abbrev pub stored : QuickTlsScratch F → ℕ → QuickTlsScratch F
  stored s i = record s {
    batch_l1 = splice s.batch_l1 (i * engine.policy.l1_dim) (floats (rows i));
  }

  pub score_row_in_place-eq :
      (i : ℕ) (s : QuickTlsScratch F)
      → length s.batch_l1 ≡ 128 * engine.policy.l1_dim
      → i < 128
      → IsScored i
      → score_row_in_place text engine rows (engine.policy.l1_dim * 4) i s ≡ (ok (l1 i), stored s i)
  unfolding score_row_in_place
  score_row_in_place-eq i s room h row =
      let d = engine.policy.l1_dim in
      let width = length-floats F d (rows i) row.sized in
      let inside : i * d + d ≤ length s.batch_l1 = omega (arith, row_fits i 128 d h) in
      let before = slice-eq-some s.batch_l1 (i * d) d inside in
      let after =
        slice-splice_self s.batch_l1 (i * d) (floats {F = F} (rows i)) (rw width inside) in
      ground (arith, row.sized, before, rw width at after, row.scored)

  -- Row `j` stands in the buffers with its score.
  pub record IsStored (s : QuickTlsScratch F) (j : ℕ) : Type 0 where
    pub row :
        slice s.batch_l1 (j * engine.policy.l1_dim) engine.policy.l1_dim ≡ some (floats (rows j))
    pub score : get_elem? s.batch_l1_scores j ≡ some (l1 j).score

  pub record HasRoom (s : QuickTlsScratch F) : Type 0 where
    pub batch : length s.batch_l1 ≡ 128 * engine.policy.l1_dim
    pub scores : length s.batch_l1_scores ≡ 128

  abbrev pub after_row : ℕ → QuickTlsScratch F → QuickTlsScratch F
  after_row i s = record s {
    batch_l1 = splice s.batch_l1 (i * engine.policy.l1_dim) (floats (rows i));
    batch_l1_scores = set s.batch_l1_scores i (l1 i).score;
    batch_survivors = if (l1 i).passed then s.batch_survivors else s.batch_survivors ++ (i ∷ []);
  }

  pub width_lem : (i : ℕ) → IsScored i → length (floats {F = F} (rows i)) ≡ engine.policy.l1_dim
  width_lem i row = length-floats F engine.policy.l1_dim (rows i) row.sized

  after_row-HasRoom :
      (i : ℕ) (s : QuickTlsScratch F) → i < 128 → IsScored i → HasRoom s → HasRoom (after_row i s)
  after_row-HasRoom i s h row room =
      let d = engine.policy.l1_dim in
      let inside : i * d + d ≤ length s.batch_l1 = omega (arith, row_fits i 128 d h, room.batch) in
      record {
        batch =
            length-splice s.batch_l1 (i * d) (floats {F = F} (rows i)) (rw (width_lem i row) inside)
            ∙ room.batch;
        scores = length-set s.batch_l1_scores i (l1 i).score ∙ room.scores;
      }

  after_row-IsStored_self :
      (i : ℕ) (s : QuickTlsScratch F)
      → i < 128
      → IsScored i
      → HasRoom s
      → IsStored (after_row i s) i
  after_row-IsStored_self i s h row room =
      let d = engine.policy.l1_dim in
      let inside : i * d + d ≤ length s.batch_l1 = omega (arith, row_fits i 128 d h, room.batch) in
      let written =
        slice-splice_self s.batch_l1 (i * d) (floats {F = F} (rows i))
          (rw (width_lem i row) inside) in
      record {
        row = rw (width_lem i row) at written;
        score = get_elem?-set_self s.batch_l1_scores i (l1 i).score (omega (arith, room.scores));
      }

  after_row-IsStored_before :
      (i j : ℕ) (s : QuickTlsScratch F)
      → i < 128
      → IsScored i
      → HasRoom s
      → j < i
      → IsStored s j
      → IsStored (after_row i s) j
  after_row-IsStored_before i j s h row room less old =
      let d = engine.policy.l1_dim in
      let inside : i * d + d ≤ length s.batch_l1 = omega (arith, row_fits i 128 d h, room.batch) in
      record {
        row =
            slice-splice_before s.batch_l1 (i * d) (floats {F = F} (rows i)) (j * d) d
              (row_before j i d less) (rw (width_lem i row) inside)
            ∙ old.row;
        score = get_elem?-set_before s.batch_l1_scores i j (l1 i).score less ∙ old.score;
      }

  -- What the first loop leaves: every row in its place, and the rows that did not pass.
  pub record IsFirstStage (s s' : QuickTlsScratch F) (i left : ℕ) : Type 0 where
    pub survivors : s'.batch_survivors ≡ s.batch_survivors ++ survivors_from l1 i left
    pub stored_rows : (j : ℕ) → j < i + left → IsStored s' j

  first_stage-suc :
      (left i : ℕ) (counts : DecisionCounts) (s : QuickTlsScratch F)
      → i < 128
      → IsScored i
      → HasRoom s
      → first_stage text engine rows (engine.policy.l1_dim * 4) (suc left) i counts s
        ≡ first_stage text engine rows
            (engine.policy.l1_dim * 4)
            left
            (i + 1)
            (if (l1 i).passed then count_decision allow counts else counts)
            (after_row i s)
  unfolding first_stage
  first_stage-suc left i counts s h row room =
      >>=-ok (score_row_in_place text engine rows (engine.policy.l1_dim * 4) i)
        (λ out.
          modify (note_row i out)
          >> first_stage text engine rows (engine.policy.l1_dim * 4) left (i + 1)
              (if out.passed then count_decision allow counts else counts))
        s (score_row_in_place-eq i s room.batch h row)

  survivors_step :
      (i left : ℕ) (s : QuickTlsScratch F)
      → (after_row i s).batch_survivors ++ survivors_from l1 (i + 1) left
        ≡ s.batch_survivors ++ survivors_from l1 i (suc left)
  unfolding survivors_from
  survivors_step i left s = elim (Bool-cases (l1 i).passed) [
    | inl yes_passed ↦ rw yes_passed
    | inr survives ↦
        rw survives (append_assoc s.batch_survivors (i ∷ []) (survivors_from l1 (i + 1) left))
  ]

  IsStored-upto :
      (i : ℕ) (s : QuickTlsScratch F)
      → i < 128
      → IsScored i
      → HasRoom s
      → ((j : ℕ) → j < i → IsStored s j)
      → (j : ℕ) → j < i + 1
      → IsStored (after_row i s) j
  IsStored-upto i s h row room old j less = elim (dec_lt j i) [
    | yes before ↦ after_row-IsStored_before i j s h row room before (old j before)
    | no same ↦
        let e : i ≡ j = omega arith in
        subst (IsStored (after_row i s)) e (after_row-IsStored_self i s h row room)
  ]

  pub first_stage-eq :
      (left i : ℕ) (counts : DecisionCounts) (s : QuickTlsScratch F)
      → i + left ≡ 128
      → ((j : ℕ) → j < 128 → IsScored j)
      → HasRoom s
      → ((j : ℕ) → j < i → IsStored s j)
      → (s' : QuickTlsScratch F) × (first_stage text engine rows
            (engine.policy.l1_dim * 4)
            left
            i
            counts
            s
          ≡ (ok (passes_from l1 i left counts), s'))
        × IsFirstStage s s' i left
  unfolding first_stage survivors_from passes_from
  first_stage-eq zero i counts s e all room old = (
    s,
    refl,
    record {
      survivors = sym (append-nil s.batch_survivors);
      stored_rows = λ j h. old j (omega arith);
    },
  )
  first_stage-eq (suc left) i counts s e all room old =
      let h : i < 128 = omega arith in
      let row = all i h in
      let t = after_row i s in
      let (s', run, rest) =
        first_stage-eq left (i + 1) (if (l1 i).passed then count_decision allow counts else counts)
          t (omega arith) all (after_row-HasRoom i s h row room)
          (IsStored-upto i s h row room old) in
      (
        s',
        first_stage-suc left i counts s h row room ∙ run,
        record {
          survivors = rest.survivors ∙ survivors_step i left s;
          stored_rows = λ j less. rest.stored_rows j (omega arith);
        },
      )
