-- ===== src/Bench/Decode.antt =====
-- How the client reads a reply: crates/risk-bench3/src/bench_decode.rs.
use riskanvil.Base.{
  ℕ, ◌&&◌, not, Option, none, some, List, [], ◌∷◌, ◌==◌, if◌then◌else◌, length, take, bytes_eq,
  ◌||◌, Result, ok, err,
}
use riskanvil.Base.Bytes.{byte_at, read_u16, read_u32}
use riskanvil.Server.Reply.{rsk1_magic, qsb2_magic, rba1_magic}

pub record BatchAck : Type 0 where
  pub record_count : ℕ
  pub ok_count : ℕ
  pub used_l2_count : ℕ
  pub decision_counts : List ℕ

pub record StageTimingsUs : Type 0 where
  pub parse : ℕ
  pub feature : ℕ
  pub router : ℕ
  pub l1 : ℕ
  pub l2 : ℕ
  pub serialize : ℕ

abbrev pub no_timings : StageTimingsUs
no_timings = record { parse = 0; feature = 0; router = 0; l1 = 0; l2 = 0; serialize = 0 }

pub record Sample : Type 0 where
  pub decision : ℕ
  pub flags : ℕ
  pub timings : StageTimingsUs

pub data BodyDecoded : Type 0 where
  qsb2 rsk1 : Sample → BodyDecoded
  batch_ack : BatchAck → BodyDecoded

pub data DecodeError : Type 0 where
  unsupported_body : DecodeError

unfoldable pub decode_batch_ack_body : List ℕ → Option BatchAck
decode_batch_ack_body buf =
    if not (length buf == 40) || not (bytes_eq (take 4 buf) rba1_magic)
    then none
    else if not (read_u16 buf 4 == 1)
    then none
    else some (record {
      record_count = read_u32 buf 8;
      ok_count = read_u32 buf 12;
      used_l2_count = read_u32 buf 16;
      decision_counts =
          read_u32 buf 20
          ∷ read_u32 buf 24
          ∷ read_u32 buf 28
          ∷ read_u32 buf 32
          ∷ read_u32 buf 36
          ∷ [];
    })

abbrev read_timings : List ℕ → StageTimingsUs
read_timings buf = record {
  parse = read_u32 buf 24;
  feature = read_u32 buf 28;
  router = read_u32 buf 32;
  l1 = read_u32 buf 36;
  l2 = read_u32 buf 40;
  serialize = read_u32 buf 44;
}

abbrev decode_single : List ℕ → Result DecodeError BodyDecoded
decode_single buf =
    if (length buf == 24) && bytes_eq (take 4 buf) qsb2_magic
    then ok
        (qsb2 (record { decision = byte_at buf 6; flags = byte_at buf 7; timings = no_timings }))
    else if (length buf == 48) && bytes_eq (take 4 buf) qsb2_magic
    then ok (
        qsb2
          (record { decision = byte_at buf 6; flags = byte_at buf 7; timings = read_timings buf }))
    else if (length buf == 48) && bytes_eq (take 4 buf) rsk1_magic
    then ok (
        rsk1 (record {
          decision = byte_at buf 20;
          flags = read_u16 buf 6;
          timings = read_timings buf;
        }))
    else err unsupported_body

unfoldable pub decode_body : List ℕ → Result DecodeError BodyDecoded
unfolding decode_batch_ack_body
decode_body buf = elim (decode_batch_ack_body buf) [
  | some ack ↦ ok (batch_ack ack)
  | none ↦ decode_single buf
]

unfoldable pub decision_bucket : ℕ → ℕ
decision_bucket d =
    if d == 0 then 0 else if d == 1 then 1 else if d == 2 then 2 else if d == 3 then 3 else 4
