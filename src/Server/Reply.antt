-- ===== src/Server/Reply.antt =====
-- The binary replies of crates/risk-server-tokio/src/main.rs: RSK1, QSB2 and the batch ack RBA1.
use Prim.Native.Nat.{bit_or}
use riskanvil.Base.{ℕ, ◌-◌, Bool, true, false, List, [], ◌∷◌, ◌++◌, ltb, if◌then◌else◌}
use riskanvil.Base.Bytes.{le16, le32, le64, u32_limit}
use riskanvil.Core.Schema.{Decision, allow, manual_review, deny, degrade_allow, ScoreResponse}

unfoldable pub decision_to_u8 : Decision → ℕ
decision_to_u8 allow = 0
decision_to_u8 deny = 1
decision_to_u8 manual_review = 2
decision_to_u8 degrade_allow = 3

unfoldable pub clamp_u32 : ℕ → ℕ
clamp_u32 x = if ltb (u32_limit - 1) x then u32_limit - 1 else x

abbrev pub is_degrade : Decision → Bool
is_degrade allow = false
is_degrade deny = false
is_degrade manual_review = false
is_degrade degrade_allow = true

abbrev pub rsk1_magic : List ℕ
rsk1_magic = b'R' ∷ b'S' ∷ b'K' ∷ b'1' ∷ []

abbrev pub qsb2_magic : List ℕ
qsb2_magic = b'Q' ∷ b'S' ∷ b'B' ∷ b'2' ∷ []

abbrev pub rba1_magic : List ℕ
rba1_magic = b'R' ∷ b'B' ∷ b'A' ∷ b'1' ∷ []

unfoldable pub rsk1_flags : ScoreResponse → ℕ
rsk1_flags resp =
    let path = if ltb 0 resp.timings_us.l2 then bit_or 0 1 else 0 in
    if is_degrade resp.decision then bit_or path 2 else path

unfoldable pub encode_rsk1_response : ℕ → ScoreResponse → List ℕ
encode_rsk1_response trace_id resp =
    let ts = resp.timings_us in
    rsk1_magic
    ++ (le16 1
        ++ (le16 (rsk1_flags resp)
            ++ (le64 trace_id
                ++ (le32 resp.score_bits
                    ++ (decision_to_u8 resp.decision ∷ (0 ∷ 0 ∷ 0 ∷ [])
                        ++ (le32 (clamp_u32 ts.parse)
                            ++ (le32 (clamp_u32 ts.feature)
                                ++ (le32 (clamp_u32 ts.router)
                                    ++ (le32 (clamp_u32 ts.l1)
                                        ++ (le32 (clamp_u32 ts.l2)
                                            ++ le32 (clamp_u32 ts.serialize)))))))))))

unfoldable pub qsb2_flags : ScoreResponse → ℕ
qsb2_flags resp = if ltb 0 resp.timings_us.l2 then 1 else 0

unfoldable pub encode_qsb2_response : ℕ → ScoreResponse → List ℕ
encode_qsb2_response trace_id resp =
    qsb2_magic
    ++ (le16 1
        ++ (decision_to_u8 resp.decision
            ∷ qsb2_flags resp
            ∷ (le64 trace_id ++ (le32 resp.score_bits ++ le32 0))))

-- The same record, appended to the reply of a whole batch.
unfoldable pub encode_qsb2_record : ℕ → ScoreResponse → List ℕ → List ℕ
encode_qsb2_record trace_id resp out =
    ((((((out ++ qsb2_magic) ++ le16 1) ++ (decision_to_u8 resp.decision ∷ []))
          ++ (qsb2_flags resp ∷ []))
        ++ le64 trace_id)
      ++ le32 resp.score_bits)
    ++ le32 0

abbrev pub le32_all : List ℕ → List ℕ
le32_all [] = []
le32_all (c ∷ cs) = le32 c ++ le32_all cs

unfoldable pub encode_batch_aggregate_ack : ℕ → ℕ → ℕ → List ℕ → List ℕ
encode_batch_aggregate_ack record_count ok_count used_l2_count decision_counts =
    rba1_magic
    ++ (le16 1
        ++ (le16 0
            ++ (le32 record_count
                ++ (le32 ok_count ++ (le32 used_l2_count ++ le32_all decision_counts)))))
