-- ===== src/Server/Batch.antt =====
-- The batch requests of crates/risk-server-tokio/src/main.rs: the RBH1 header, the fixed shape of
-- 128 records, and the parser that takes the 128 records apart in one pass.
use riskanvil.Base.{
  ℕ, zero, suc, ◌+◌, ◌*◌, Bool, true, false, not, ◌&&◌, Option, none, some, List, [], ◌∷◌, ◌==◌,
  if◌then◌else◌, length, take, drop, bytes_eq, Result, ok, ok_or, ◌>>=◌, ◌>>◌, ensure, leb,
  replicate, bit_and,
}
use riskanvil.Base.Bytes.{read_u16, read_u32, checked_mul, checked_add, slice}
use riskanvil.Base.Float.{Float32}
use riskanvil.Core.Schema.{QuickRouteMeta}
use riskanvil.Bench.Encode.{rvec_magic, rbh1_magic}
use riskanvil.Server.Dense.{
  WireError, dim_too_large, body_too_short, bad_magic, bad_batch_magic, empty_batch,
  record_bytes_overflow, batch_length_overflow, panicked, bad_flags, bad_version, size_mismatch,
  record_bytes_mismatch, record_count_mismatch, read_route_meta, parse_batch_record_ref,
}

pub record BatchShape : Type 0 where
  pub has_route_meta : Bool
  pub record_count : ℕ
  pub record_bytes : ℕ

abbrev bind_option : Option ℕ → (ℕ → Option ℕ) → Option ℕ
bind_option none k = none
bind_option (some a) k = k a

abbrev pub expect_record_bytes : ℕ → Bool → Option ℕ
expect_record_bytes expected_dim routed =
    bind_option (checked_mul expected_dim 4) λ n. checked_add n (if routed then 40 else 0)

unfoldable pub parse_batch_dense_payload_le : List ℕ → ℕ → Result WireError BatchShape
parse_batch_dense_payload_le body expected_dim = do
  ensure (leb 16 (length body) && bytes_eq (take 4 body) rbh1_magic) bad_batch_magic
  ensure (read_u16 body 4 == 1) (bad_version (read_u16 body 4))
  let flags = read_u16 body 6
  let record_count = read_u32 body 8
  let record_bytes = read_u32 body 12
  ensure (not (record_count == 0)) empty_batch
  let has_route_meta = not (bit_and flags 1 == 0)
  expected ← ok_or (expect_record_bytes expected_dim has_route_meta) record_bytes_overflow
  ensure (record_bytes == expected) (record_bytes_mismatch record_bytes expected)
  product ← ok_or (checked_mul record_count record_bytes) batch_length_overflow
  expect_len ← ok_or (checked_add 16 product) batch_length_overflow
  ensure (length body == expect_len) (size_mismatch (length body) expect_len)
  ok (record {
    has_route_meta = has_route_meta;
    record_count = record_count;
    record_bytes = record_bytes;
  })

pub record Batch128Shape : Type 0 where
  pub has_route_meta : Bool
  pub record_bytes : ℕ
  pub content_len : ℕ

abbrev batch128_len : ℕ → Option ℕ
batch128_len record_bytes = bind_option (checked_mul 128 record_bytes) (checked_add 16)

abbrev route_shape : ℕ → ℕ → Option Batch128Shape
route_shape route_record_bytes content_len = elim (batch128_len route_record_bytes) [
  | none ↦ none
  | some route_len ↦
      if content_len == route_len
      then some (record {
        has_route_meta = true;
        record_bytes = route_record_bytes;
        content_len = content_len;
      })
      else none
]

abbrev raw_shape : ℕ → ℕ → ℕ → Option Batch128Shape
raw_shape raw_record_bytes route_record_bytes content_len = elim (batch128_len raw_record_bytes) [
  | none ↦ none
  | some raw_len ↦
      if content_len == raw_len
      then some (record {
        has_route_meta = false;
        record_bytes = raw_record_bytes;
        content_len = content_len;
      })
      else route_shape route_record_bytes content_len
]

unfoldable pub batch128_shape_for_content_len : ℕ → ℕ → Option Batch128Shape
batch128_shape_for_content_len expected_dim content_len = elim (checked_mul expected_dim 4) [
  | none ↦ none
  | some raw_record_bytes ↦ elim (checked_add raw_record_bytes 40) [
    | none ↦ none
    | some route_record_bytes ↦ raw_shape raw_record_bytes route_record_bytes content_len
  ]
]

unfoldable pub validate_batch128_header : List ℕ → Bool → ℕ → Result WireError (Unit {0})
validate_batch128_header body has_route_meta record_bytes = do
  ensure (leb 16 (length body)) body_too_short
  ensure (bytes_eq (take 4 body) rbh1_magic) bad_batch_magic
  ensure (read_u16 body 4 == 1) (bad_version (read_u16 body 4))
  ensure (read_u16 body 6 == (if has_route_meta then 1 else 0)) (bad_flags (read_u16 body 6))
  ensure (read_u32 body 8 == 128) (record_count_mismatch (read_u32 body 8) 128)
  ensure (read_u32 body 12 == record_bytes) (record_bytes_mismatch (read_u32 body 12) record_bytes)

pub record Batch128Refs (F : Type 0) : Type 0 where
  pub rows : List (List ℕ)
  pub metas : List (Option (QuickRouteMeta F))

-- The loop without route headers at index `i`, with `left` rounds to go.
unfoldable pub raw_refs : List ℕ → ℕ → ℕ → ℕ → Result WireError (List (List ℕ))
raw_refs body record_bytes zero i = ok []
raw_refs body record_bytes (suc left) i = do
  rec ← ok_or (slice body (16 + i * record_bytes) record_bytes) panicked
  rows ← raw_refs body record_bytes left (i + 1)
  ok (rec ∷ rows)

module _ {F : Type 0} ⦃f : Float32 F⦄ where
  -- The checks on one record as the loop of `parse_batch128_refs` writes them out.
  unfoldable pub batch128_record : List ℕ → Result WireError (List ℕ × QuickRouteMeta F)
  batch128_record rec = do
    ensure (leb 40 (length rec) && bytes_eq (take 4 rec) rvec_magic) bad_magic
    ensure (read_u16 rec 4 == 3) (bad_version (read_u16 rec 4))
    ensure (read_u16 rec 6 == 0) (bad_flags (read_u16 rec 6))
    payload_len ← ok_or (checked_mul (read_u32 rec 8) 4) dim_too_large
    ensure (length rec == 40 + payload_len) (size_mismatch (length rec) (40 + payload_len))
    ok (drop 40 rec, read_route_meta rec (some (f.from_bits (read_u32 rec 32))))

  -- The loop with route headers at index `i`, with `left` rounds to go.
  unfoldable pub routed_refs : List ℕ → ℕ → ℕ → ℕ → Result WireError (Batch128Refs F)
  routed_refs body record_bytes zero i = ok (record { rows = []; metas = [] })
  routed_refs body record_bytes (suc left) i = do
    rec ← ok_or (slice body (16 + i * record_bytes) record_bytes) panicked
    r ← batch128_record rec
    refs ← routed_refs body record_bytes left (i + 1)
    ok (record { rows = r.0 ∷ refs.rows; metas = some r.1 ∷ refs.metas })

  unfoldable pub parse_batch128_refs : List ℕ → Bool → ℕ → Result WireError (Batch128Refs F)
  parse_batch128_refs body has_route_meta record_bytes =
      if has_route_meta
      then routed_refs body record_bytes 128 0
      else raw_refs body record_bytes 128 0 >>= λ rows.
          ok (record { rows = rows; metas = replicate 128 none })

  -- The record loop of the endpoints that take any number of records.
  unfoldable pub batch_records :
      List ℕ → Bool → ℕ → ℕ → ℕ → Result WireError (List (List ℕ × Option (QuickRouteMeta F)))
  batch_records body has_route_meta record_bytes zero i = ok []
  batch_records body has_route_meta record_bytes (suc left) i = do
    rec ← ok_or (slice body (16 + i * record_bytes) record_bytes) panicked
    r ← parse_batch_record_ref rec has_route_meta
    rest ← batch_records body has_route_meta record_bytes left (i + 1)
    ok (r ∷ rest)
