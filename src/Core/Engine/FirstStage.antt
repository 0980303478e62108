-- ===== src/Core/Engine/FirstStage.antt =====
-- The batch of the first stage alone in crates/risk-core/src/quickscorer/engine.rs.
use riskanvil.Base.{
  ℕ, zero, suc, ◌+◌, ◌*◌, ◌≤◌, ◌<◌, ◌^◌, some, List, [], ◌∷◌, length, Result, ok, ◌≡◌, refl, arith,
  inl, inr, ap, ◌∙◌, Bool-cases, ◌==◌, Result-cases, ==→eq,
}
use riskanvil.Base.Bytes.{checked_mul}
use riskanvil.Base.Float.{Float32}
use riskanvil.Core.Policy.SegKey.{Formats}
use riskanvil.Core.Engine.Scratch.{
  pure, ◌>>=◌, QuickTlsScratch, L1Output, EngineError, floats, >>=-ok, ensure_len,
}
use riskanvil.Core.Engine.Predict.{
  QuickScorerEngine, QuickL1PredictOutput, Elapsed, predict_l1_only_from_bytes,
}
use riskanvil.Core.Engine.Batch.{
  score_row_in_place, l1_only_rows, predict_l1_only_batch128_from_bytes,
}
use riskanvil.Core.Engine.Buffers.{length-ensure_len, length-splice}
use riskanvil.Core.Engine.Rows.{decode_dense_f32le_into_lem}
use riskanvil.Core.Engine.Outcome.{IsLoaded, l1_outcome}
use riskanvil.Core.Engine.Stages.{IsScored, score_row_in_place-eq, stored, row_fits, width_lem}

-- The outputs from `i` on, in order.
unfoldable pub outs_from : {A : Type 0} → (ℕ → A) → ℕ → ℕ → List A
outs_from outs i zero = []
outs_from outs i (suc left) = outs i ∷ outs_from outs (i + 1) left

module _ {F E : Type 0} ⦃f : Float32 F⦄ (text : Formats F) (engine : QuickScorerEngine F E)
    (rows : ℕ → List ℕ) (clock : ℕ → Elapsed) (outs : ℕ → QuickL1PredictOutput F) where
  abbrev l1_of : ℕ → L1Output F
  l1_of i = record { score = (outs i).l1_score; passed = (outs i).passed }

  -- What a row's own prediction says of it.
  record HasL1 (i : ℕ) : Type 0 where
    scored : IsScored text engine rows l1_of i
    timed : outs i ≡ record {
      l1_score = (outs i).l1_score;
      passed = (outs i).passed;
      l1_us = (clock i).l1;
      router_us = (clock i).router;
    }

  predict_l1_only-HasL1 :
      (i : ℕ) (s : QuickTlsScratch F)
      → IsLoaded engine
      → (predict_l1_only_from_bytes text engine (rows i) (clock i) s).0 ≡ ok (outs i)
      → HasL1 i
  unfolding predict_l1_only_from_bytes
  predict_l1_only-HasL1 i s loaded h =
      let dim = engine.policy.l1_dim in
      let need : checked_mul dim 4 ≡ some (dim * 4) = ground (arith, loaded.fits) in
      let fits : dim * 4 < 2 ^ 64 = omega (arith, loaded.fits) in
      elim (Bool-cases (length (rows i) == dim * 4)) [
        | inr other ↦ absurd (ground (arith, need, other, h))
        | inl same ↦
            let len = ==→eq (length (rows i)) (dim * 4) same in
            let decoded =
              decode_dense_f32le_into_lem {F = F} {E = E} (rows i) dim s.l1_feat len fits in
            elim (Result-cases (l1_outcome text engine (rows i))) [
              | inl (e, p) ↦ absurd (ground (arith, need, same, decoded, p, h))
              | inr (o, p) ↦ record {
                scored = record { sized = len; scored = ground (arith, need, same, decoded, p, h) };
                timed = ground (arith, need, same, decoded, p, h);
              }
            ]
      ]

  l1_only_rows-eq :
      (left i : ℕ) (s : QuickTlsScratch F)
      → i + left ≡ 128
      → length s.batch_l1 ≡ 128 * engine.policy.l1_dim
      → ((j : ℕ) → j < 128 → HasL1 j)
      → (l1_only_rows text engine rows clock (engine.policy.l1_dim * 4) left i s).0
        ≡ ok (outs_from outs i left)
  unfolding l1_only_rows outs_from
  l1_only_rows-eq zero i s e room all = refl
  l1_only_rows-eq (suc left) i s e room all =
      let d = engine.policy.l1_dim in
      let h : i < 128 = omega arith in
      let here = all i h in
      let inside : i * d + d ≤ length s.batch_l1 = omega (arith, row_fits i 128 d h, room) in
      let t = stored text engine rows l1_of s i in
      let room' : length t.batch_l1 ≡ 128 * d =
        length-splice s.batch_l1 (i * d) (floats {F = F} (rows i))
          (rw (width_lem text engine rows l1_of i here.scored) inside)
        ∙ room in
      let run = score_row_in_place-eq text engine rows l1_of i s room h here.scored in
      let rest = l1_only_rows-eq left (i + 1) t (omega arith) room' all in
      let row : L1Output F → QuickL1PredictOutput F = λ out. record {
        l1_score = out.score;
        passed = out.passed;
        l1_us = (clock i).l1;
        router_us = (clock i).router;
      } in
      ap (λ (r : Result (EngineError E) (List (QuickL1PredictOutput F)) × QuickTlsScratch F). r.0)
        (>>=-ok (score_row_in_place text engine rows (d * 4) i)
          (λ out. l1_only_rows text engine rows clock (d * 4) left (i + 1) >>= λ outs'.
            pure (row out ∷ outs'))
          s run)
      ∙ ground (arith, rest, here.timed)

  -- Where the engine is as load leaves it and each of the 128 rows has a first-stage prediction on
  -- its own, with any buffers, the batch of the first stage alone returns these predictions in
  -- order, whatever its own buffers hold.
  pub l1_only_batch-eq-single :
      (ss : ℕ → QuickTlsScratch F) (s : QuickTlsScratch F)
      → IsLoaded engine
      → ((i : ℕ)
          → i < 128
          → (predict_l1_only_from_bytes text engine (rows i) (clock i) (ss i)).0 ≡ ok (outs i))
      → (predict_l1_only_batch128_from_bytes text engine rows clock s).0 ≡ ok (outs_from outs 0 128)
  unfolding predict_l1_only_batch128_from_bytes
  l1_only_batch-eq-single ss s loaded all =
      let d = engine.policy.l1_dim in
      let need : checked_mul d 4 ≡ some (d * 4) = ground (arith, loaded.fits) in
      let batch : checked_mul 128 d ≡ some (128 * d) = ground (arith, loaded.fits) in
      let s1 : QuickTlsScratch F = record s {
        batch_l1 = ensure_len s.batch_l1 (128 * d) f.zero_f;
      } in
      let each = λ (i : ℕ) (h : i < 128). predict_l1_only-HasL1 i (ss i) loaded (all i h) in
      rw (need, batch)
        (l1_only_rows-eq 128 0 s1 refl (length-ensure_len s.batch_l1 (128 * d) f.zero_f) each)
