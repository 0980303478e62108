-- ===== src/Protocol/Header.antt =====
-- What the fixed scoring handler reads of a body.
use riskanvil.Base.{
  ℕ, zero, suc, ◌+◌, ◌*◌, ◌≡◌, refl, Bool, List, [], ◌∷◌, ◌++◌, arith, length, length-append, drop,
  ap, ◌∙◌, sym,
}
use riskanvil.Base.Bytes.{slice}
use riskanvil.Base.Float.{Float32}
use riskanvil.Core.Policy.SegKey.{Formats}
use riskanvil.Core.Engine.Scratch.{QuickTlsScratch}
use riskanvil.Core.Engine.Predict.{Elapsed}
use riskanvil.Server.Batch.{batch_records, parse_batch128_refs}
use riskanvil.Server.Acks.{AppState, score_dense_batch_binary_request_http_ack_v1_batch128_fixed}
use riskanvil.Protocol.Batches.{refs_of, parse_batch128_refs-eq-batch_records}

drop-past :
    {A : Type 0} (xs ys : List A) (n k : ℕ) → n ≡ length xs + k → drop n (xs ++ ys) ≡ drop k ys
drop-past [] ys n k e = ap (λ m. drop m ys) (omega (arith, e))
drop-past (x ∷ xs) ys zero k e = absurd (omega (arith, e))
drop-past (x ∷ xs) ys (suc n) k e = drop-past xs ys n k (omega (arith, e))

slice-past :
    {A : Type 0} (h rest : List A) (k n : ℕ)
    → length h ≡ 16
    → slice (h ++ rest) (16 + k) n ≡ slice rest k n
slice-past h rest k n len =
    ground (arith, length-append h rest, drop-past h rest (16 + k) k (omega (arith, len)))

module _ {F : Type 0} ⦃f : Float32 F⦄ where
  batch_records-header :
      (h h' rest : List ℕ) (routed : Bool) (rb left i : ℕ)
      → length h ≡ 16
      → length h' ≡ 16
      → batch_records {F = F} (h ++ rest) routed rb left i
        ≡ batch_records {F = F} (h' ++ rest) routed rb left i
  unfolding batch_records
  batch_records-header h h' rest routed rb zero i p q = refl
  batch_records-header h h' rest routed rb (suc left) i p q = rw (
    slice-past h rest (i * rb) rb p,
    slice-past h' rest (i * rb) rb q,
    batch_records-header h h' rest routed rb left (i + 1) p q,
  )

  module _ {E : Type 0} (text : Formats F) (st : AppState F E) (clock : ℕ → Elapsed) where
    -- The fixed scoring handler reads nothing of the 16 header bytes: for any two headers before
    -- the same records it has the same reply or error, and leaves the same buffers.
    pub score_fixed-ignores-header :
        (h h' rest : List ℕ) (routed : Bool) (rb : ℕ) (s : QuickTlsScratch F)
        → length h ≡ 16
        → length h' ≡ 16
        → score_dense_batch_binary_request_http_ack_v1_batch128_fixed text st clock
            (h ++ rest)
            routed
            rb
            s
          ≡ score_dense_batch_binary_request_http_ack_v1_batch128_fixed text st clock
              (h' ++ rest)
              routed
              rb
              s
    unfolding score_dense_batch_binary_request_http_ack_v1_batch128_fixed
    score_fixed-ignores-header h h' rest routed rb s p q =
        let same : parse_batch128_refs {F = F} (h ++ rest) routed rb
            ≡ parse_batch128_refs (h' ++ rest) routed rb =
          parse_batch128_refs-eq-batch_records (h ++ rest) routed rb
          ∙ (ap refs_of (batch_records-header h h' rest routed rb 128 0 p q)
              ∙ sym (parse_batch128_refs-eq-batch_records (h' ++ rest) routed rb)) in
        rw same refl
