-- ===== src/Server/Dense.antt =====
-- The request parsers of crates/risk-server-tokio/src/main.rs for one dense row, and for one
-- record of a batch.
use riskanvil.Base.{
  ℕ, ◌+◌, Bool, not, ◌&&◌, Option, none, some, List, ◌==◌, if◌then◌else◌, length, take, drop,
  bytes_eq, Result, ok, err, ok_or, ◌>>=◌, ◌>>◌, ensure, leb,
}
use riskanvil.Base.Bytes.{read_u16, read_u32, read_u64, checked_mul}
use riskanvil.Base.Int.{i32_of_bits}
use riskanvil.Base.Float.{Float32}
use riskanvil.Core.Schema.{QuickRouteMeta}
use riskanvil.Bench.Encode.{rvec_magic}

-- One constructor for each message, with the numbers that it prints. `panicked` is an index out
-- of range.
pub data WireError : Type 0 where
  dim_too_large body_too_short bad_magic bad_batch_magic empty_batch : WireError
  record_bytes_overflow batch_length_overflow panicked : WireError
  bad_flags bad_version : ℕ → WireError
  dim_mismatch size_mismatch : ℕ → ℕ → WireError
  record_bytes_mismatch record_count_mismatch : ℕ → ℕ → WireError

pub record DenseRequest (F : Type 0) : Type 0 where
  pub payload : List ℕ
  pub route_meta : Option (QuickRouteMeta F)

module _ {F : Type 0} ⦃f : Float32 F⦄ where
  -- The route fields of an RVEC header; `tau` is its last one, which version 2 does not have.
  abbrev pub read_route_meta : List ℕ → Option F → QuickRouteMeta F
  read_route_meta b tau = record {
    row_idx = read_u32 b 28;
    transaction_id = read_u64 b 20;
    fold_id = i32_of_bits (read_u32 b 12);
    seg_prod_amtbin = read_u32 b 16;
    l2_tau_used = tau;
  }

  -- A payload of `raw_len` bytes behind a header of `header` bytes.
  abbrev headered : List ℕ → ℕ → ℕ → Option (QuickRouteMeta F) → Result WireError (DenseRequest F)
  headered b header raw_len meta =
      if not (length b == header + raw_len)
      then err (size_mismatch (length b) (header + raw_len))
      else ok (record { payload = drop header b; route_meta = meta })

  abbrev dense_of_version : List ℕ → ℕ → ℕ → Result WireError (DenseRequest F)
  dense_of_version b raw_len ver =
      if ver == 1
      then headered b 16 raw_len none
      else if ver == 2
      then headered b 32 raw_len (some (read_route_meta b none))
      else if ver == 3
      then headered b 40 raw_len (some (read_route_meta b (some (f.from_bits (read_u32 b 32)))))
      else err (bad_version ver)

  abbrev parse_rvec : List ℕ → ℕ → ℕ → Result WireError (DenseRequest F)
  parse_rvec b expected_dim raw_len = do
    ensure (leb 16 (length b)) body_too_short
    ensure (bytes_eq (take 4 b) rvec_magic) bad_magic
    ensure (read_u16 b 6 == 0) (bad_flags (read_u16 b 6))
    ensure (read_u32 b 8 == expected_dim) (dim_mismatch (read_u32 b 8) expected_dim)
    dense_of_version b raw_len (read_u16 b 4)

  unfoldable pub parse_dense_payload_le : List ℕ → ℕ → Result WireError (DenseRequest F)
  parse_dense_payload_le b expected_dim = do
    raw_len ← ok_or (checked_mul expected_dim 4) dim_too_large
    if length b == raw_len
        then ok (record { payload = b; route_meta = none })
        else parse_rvec b expected_dim raw_len

  abbrev parse_routed_record : List ℕ → Result WireError (List ℕ × Option (QuickRouteMeta F))
  parse_routed_record record_bytes = do
    ensure (leb 40 (length record_bytes) && bytes_eq (take 4 record_bytes) rvec_magic) bad_magic
    ensure (read_u16 record_bytes 4 == 3) (bad_version (read_u16 record_bytes 4))
    ensure (read_u16 record_bytes 6 == 0) (bad_flags (read_u16 record_bytes 6))
    payload_len ← ok_or (checked_mul (read_u32 record_bytes 8) 4) dim_too_large
    ensure (length record_bytes == 40 + payload_len)
        (size_mismatch (length record_bytes) (40 + payload_len))
    ok (
      drop 40 record_bytes,
      some (read_route_meta record_bytes (some (f.from_bits (read_u32 record_bytes 32)))),
    )

  unfoldable pub parse_batch_record_ref :
      List ℕ → Bool → Result WireError (List ℕ × Option (QuickRouteMeta F))
  parse_batch_record_ref record_bytes has_route_meta =
      if not has_route_meta then ok (record_bytes, none) else parse_routed_record record_bytes
