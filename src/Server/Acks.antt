-- ===== src/Server/Acks.antt =====
-- The batch endpoints of crates/risk-server-tokio/src/main.rs that answer with one ack of 40 bytes:
-- scoring, no work (null) and parsing only, for any number of records and for the fixed 128.
use riskanvil.Base.{
  ℕ, zero, suc, ◌+◌, ◌*◌, Bool, Option, none, some, List, [], ◌∷◌, ◌==◌, if◌then◌else◌, Result, ok,
  err, ok_or, get_or,
}
use riskanvil.Base.Bytes.{slice}
use riskanvil.Base.Float.{Float32}
use riskanvil.Core.Schema.{allow, QuickRouteMeta}
use riskanvil.Core.Policy.SegKey.{Formats}
use riskanvil.Core.Engine.Predict.{QuickScorerEngine, QuickL1PredictOutput, Elapsed}
use riskanvil.Core.Engine.Batch.{DecisionCounts, no_decisions, count_decision}
use riskanvil.Core.Pipeline.{
  CoreError, StandaloneL2, StandaloneL2TauMode, Serve, ◌>>=◌, ◌>>◌, pure, lift, map_err, row_idx_or,
  predict_quick_l1_only_bytes, score_quick_dense_bytes_with_meta_batch_lite,
  score_quick_dense_batch128_http_ack_lite, score_standalone_batch128_http_ack_lite,
  score_standalone_l2_from_l1_batch_lite,
}
use riskanvil.Server.Dense.{WireError, parse_batch_record_ref}
use riskanvil.Server.Batch.{
  BatchShape, Batch128Shape, parse_batch_dense_payload_le, batch128_shape_for_content_len,
  validate_batch128_header, parse_batch128_refs, batch_records,
}
use riskanvil.Server.Reply.{encode_batch_aggregate_ack}

-- `BAD_REQUEST` and `INTERNAL_SERVER_ERROR`
pub data AckError (E : Type 0) : Type 0 where
  bad_request : WireError → AckError E
  core_failed : CoreError E → AckError E

pub data H1BatchFastPath : Type 0 where
  score null parse_only : H1BatchFastPath

-- What the handlers read of the server's state.
pub record AppState (F : Type 0) (E : Type 0) : Type 0 where
  pub quick : Option (QuickScorerEngine F E)
  pub standalone : Option (StandaloneL2 F E × StandaloneL2TauMode F)

abbrev pub counts_list : DecisionCounts → List ℕ
counts_list c = c.c0 ∷ c.c1 ∷ c.c2 ∷ c.c3 ∷ c.c4 ∷ []

abbrev pub ack_of : ℕ → ℕ × DecisionCounts → List ℕ
ack_of record_count (used, c) =
    encode_batch_aggregate_ack record_count record_count used (counts_list c)

abbrev pub ack_all_allowed : ℕ → List ℕ
ack_all_allowed n = encode_batch_aggregate_ack n n 0 (n ∷ 0 ∷ 0 ∷ 0 ∷ 0 ∷ [])

module _ {F E : Type 0} ⦃f : Float32 F⦄ (text : Formats F) (st : AppState F E)
    (clock : ℕ → Elapsed) where
  abbrev pub parsed : {A : Type 0} → Result WireError A → Serve F (AckError E) A
  parsed r s = (elim r [ err e ↦ err (bad_request e) | ok a ↦ ok a ], s)

  -- `quick_dims`
  abbrev quick_dim : Result (AckError E) ℕ
  quick_dim = elim st.quick [
    | none ↦ err (core_failed CoreError.not_enabled)
    | some q ↦ ok q.policy.l1_dim
  ]

  -- The two ways to score 128 rows.
  abbrev pub score_128 :
      (ℕ → List ℕ) → (ℕ → Option (QuickRouteMeta F)) → Serve F (AckError E) (ℕ × DecisionCounts)
  score_128 rows metas = elim st.standalone [
    | some (rt, tau_mode) ↦
        map_err core_failed
          (score_standalone_batch128_http_ack_lite text st.quick rt tau_mode rows metas clock)
    | none ↦
        map_err core_failed
          (score_quick_dense_batch128_http_ack_lite text st.quick rows metas clock)
  ]

  unfoldable pub score_dense_batch_binary_request_http_ack_v1_batch128_fixed :
      List ℕ → Bool → ℕ → Serve F (AckError E) (List ℕ)
  score_dense_batch_binary_request_http_ack_v1_batch128_fixed body has_route_meta record_bytes = do
    refs ← parsed (parse_batch128_refs body has_route_meta record_bytes)
    _ ← lift (ok_or st.quick (core_failed CoreError.not_enabled))
    counts ← score_128 (λ i. get_or refs.rows i []) (λ i. get_or refs.metas i none)
    pure (ack_of 128 counts)

  -- One record of the loops: its bytes are taken out of the body and parsed.
  abbrev pub record_at :
      List ℕ → Bool → ℕ → ℕ → Serve F (AckError E) (List ℕ × Option (QuickRouteMeta F))
  record_at body has_route_meta record_bytes i =
      parsed (elim (slice body (16 + i * record_bytes) record_bytes) [
        | none ↦ err WireError.panicked
        | some rec ↦ parse_batch_record_ref rec has_route_meta
      ])

  -- The record loop without the prepared file, from record `i` on with `left` to go.
  unfoldable pub score_records :
      List ℕ → Bool → ℕ → ℕ → ℕ → ℕ → DecisionCounts → Serve F (AckError E) (ℕ × DecisionCounts)
  score_records body has_route_meta record_bytes zero i used counts = pure (used, counts)
  score_records body has_route_meta record_bytes (suc left) i used counts = do
    rec ← record_at body has_route_meta record_bytes i
    lite ←
        map_err core_failed
          (score_quick_dense_bytes_with_meta_batch_lite text st.quick rec.0 rec.1 (clock i))
    score_records body has_route_meta record_bytes left (i + 1)
        (used + (if lite.used_l2 then 1 else 0)) (count_decision lite.decision counts)

  -- With the prepared file: the first loop over the records, and the second over what is left.
  unfoldable pub l1_records :
      List ℕ
      → Bool
      → ℕ
      → ℕ
      → ℕ
      → DecisionCounts
      → Serve F
          (AckError E)
          (DecisionCounts × List (Option (QuickRouteMeta F) × ℕ × QuickL1PredictOutput F))
  l1_records body has_route_meta record_bytes zero i counts = pure (counts, [])
  l1_records body has_route_meta record_bytes (suc left) i counts = do
    rec ← record_at body has_route_meta record_bytes i
    l1_out ← map_err core_failed (predict_quick_l1_only_bytes text st.quick rec.0 (clock i))
    rest ←
        l1_records body has_route_meta record_bytes left (i + 1)
          (if l1_out.passed then count_decision allow counts else counts)
    pure (
      rest.0,
      (if l1_out.passed
          then rest.1
          else (rec.1, row_idx_or text st.quick rec.1 i, l1_out) ∷ rest.1),
    )

  module _ (rt : StandaloneL2 F E) (tau_mode : StandaloneL2TauMode F) where
    unfoldable pub l2_records :
        List (Option (QuickRouteMeta F) × ℕ × QuickL1PredictOutput F)
        → ℕ
        → DecisionCounts
        → Result (CoreError E) (ℕ × DecisionCounts)
    l2_records [] used counts = ok (used, counts)
    l2_records ((route_meta, idx, l1_out) ∷ pending) used counts =
        elim (score_standalone_l2_from_l1_batch_lite text st.quick rt tau_mode l1_out route_meta
          idx) [
            | err e ↦ err e
            | ok lite ↦
                l2_records pending (used + (if lite.used_l2 then 1 else 0))
                  (count_decision lite.decision counts)
          ]

  abbrev score_any : List ℕ → BatchShape → Serve F (AckError E) (ℕ × DecisionCounts)
  score_any body shape = elim st.standalone [
    | none ↦
        score_records body shape.has_route_meta shape.record_bytes shape.record_count 0 0
          no_decisions
    | some (rt, tau_mode) ↦
        l1_records body shape.has_route_meta shape.record_bytes shape.record_count 0 no_decisions
        >>= λ first. map_err core_failed (lift (l2_records rt tau_mode first.1 0 first.0))
  ]

  unfoldable pub score_dense_batch_binary_request_http_ack_v1 :
      List ℕ → Serve F (AckError E) (List ℕ)
  score_dense_batch_binary_request_http_ack_v1 body = do
    expected_dim ← lift quick_dim
    shape ← parsed (parse_batch_dense_payload_le body expected_dim)
    if shape.record_count == 128
        then score_dense_batch_binary_request_http_ack_v1_batch128_fixed body shape.has_route_meta
            shape.record_bytes
        else (score_any body shape >>= λ counts. pure (ack_of shape.record_count counts))

  unfoldable pub score_dense_batch_null_request_http_ack_v1 : List ℕ → Serve F (AckError E) (List ℕ)
  score_dense_batch_null_request_http_ack_v1 body = do
    expected_dim ← lift quick_dim
    shape ← parsed (parse_batch_dense_payload_le body expected_dim)
    pure (ack_all_allowed shape.record_count)

  unfoldable pub score_dense_batch_parse_only_request_http_ack_v1 :
      List ℕ → Serve F (AckError E) (List ℕ)
  score_dense_batch_parse_only_request_http_ack_v1 body = do
    expected_dim ← lift quick_dim
    shape ← parsed (parse_batch_dense_payload_le body expected_dim)
    _ ←
        parsed
          (batch_records {F = F} body shape.has_route_meta shape.record_bytes shape.record_count 0)
    pure (ack_all_allowed shape.record_count)

  unfoldable pub score_dense_batch_null_request_http_ack_v1_batch128_fixed :
      List ℕ → Bool → ℕ → Serve F (AckError E) (List ℕ)
  score_dense_batch_null_request_http_ack_v1_batch128_fixed body has_route_meta record_bytes = do
    parsed (validate_batch128_header body has_route_meta record_bytes)
    pure (ack_all_allowed 128)

  unfoldable pub score_dense_batch_parse_only_request_http_ack_v1_batch128_fixed :
      List ℕ → Bool → ℕ → Serve F (AckError E) (List ℕ)
  score_dense_batch_parse_only_request_http_ack_v1_batch128_fixed body has_route_meta record_bytes =
      do
        parsed (validate_batch128_header body has_route_meta record_bytes)
        _ ← parsed (parse_batch128_refs {F = F} body has_route_meta record_bytes)
        pure (ack_all_allowed 128)

  unfoldable pub execute_h1_batch_fixed_request :
      H1BatchFastPath → Batch128Shape → List ℕ → Serve F (AckError E) (List ℕ)
  execute_h1_batch_fixed_request score shape body =
      score_dense_batch_binary_request_http_ack_v1_batch128_fixed body shape.has_route_meta
        shape.record_bytes
  execute_h1_batch_fixed_request null shape body =
      score_dense_batch_null_request_http_ack_v1_batch128_fixed body shape.has_route_meta
        shape.record_bytes
  execute_h1_batch_fixed_request parse_only shape body =
      score_dense_batch_parse_only_request_http_ack_v1_batch128_fixed body shape.has_route_meta
        shape.record_bytes

  abbrev any_size : H1BatchFastPath → List ℕ → Serve F (AckError E) (List ℕ)
  any_size score body = score_dense_batch_binary_request_http_ack_v1 body
  any_size null body = score_dense_batch_null_request_http_ack_v1 body
  any_size parse_only body = score_dense_batch_parse_only_request_http_ack_v1 body

  abbrev shape_for : ℕ → Option ℕ → Option Batch128Shape
  shape_for expected_dim none = none
  shape_for expected_dim (some len) = batch128_shape_for_content_len expected_dim len

  -- The reply to a body with its declared length; an error is answered with its text.
  unfoldable pub execute_h1_batch_fast_request :
      H1BatchFastPath → Option ℕ → List ℕ → Serve F (AckError E) (List ℕ)
  execute_h1_batch_fast_request fast_path content_len body = do
    expected_dim ← lift quick_dim
    elim (shape_for expected_dim content_len) [
      | some shape ↦ execute_h1_batch_fixed_request fast_path shape body
      | none ↦ any_size fast_path body
    ]
