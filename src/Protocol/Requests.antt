-- ===== src/Protocol/Requests.antt =====
-- A request of the client, taken apart by the server.
use mathlib.Core.List.{append_assoc}
use riskanvil.Base.{
  ℕ, ◌+◌, ◌*◌, ◌^◌, ◌<◌, ◌≡◌, refl, true, Option, some, List, [], ◌∷◌, ◌++◌, arith, ok, map, length,
  length-append,
}
use riskanvil.Base.Bytes.{read_u32, read-write_u64, word_bytes, slice-append}
use riskanvil.Base.Int.{IsI32, i32_of_bits-bits_of_i32, bits_of_i32-lt, bits_of_i32}
use riskanvil.Base.Float.{Float32}
use riskanvil.Core.Schema.{QuickRouteMeta}
use riskanvil.Bench.Encode.{RouteMetaEntry, encode_rvec_v3_route_header}
use riskanvil.Server.Dense.{read_route_meta, parse_dense_payload_le, parse_batch_record_ref}
use riskanvil.Server.Batch.{batch_records}

-- A row of the corpus with its routing entry.
abbrev pub Entry : Type 0 → Type 0
Entry F = RouteMetaEntry F × List ℕ

module _ {F : Type 0} ⦃f : Float32 F⦄ where
  -- The fields of an entry fit the widths of the header.
  pub record Fits (m : RouteMetaEntry F) : Type 0 where
    pub row_idx_fits : m.row_idx < 2 ^ 32
    pub transaction_fits : m.transaction_id < 2 ^ 64
    pub fold_fits : IsI32 m.fold_id
    pub seg_fits : m.seg_prod_amtbin < 2 ^ 32
    pub tau_fits : f.to_bits m.l2_tau_used < 2 ^ 32
    pub tau_exact : f.from_bits (f.to_bits m.l2_tau_used) ≡ m.l2_tau_used

  -- What the server makes of an entry.
  abbrev pub as_route_meta : RouteMetaEntry F → QuickRouteMeta F
  as_route_meta m = record {
    row_idx = m.row_idx;
    transaction_id = m.transaction_id;
    fold_id = m.fold_id;
    seg_prod_amtbin = m.seg_prod_amtbin;
    l2_tau_used = some m.l2_tau_used;
  }

  abbrev pub encode_record : RouteMetaEntry F → ℕ → List ℕ → List ℕ
  encode_record m dim row = encode_rvec_v3_route_header m dim ++ row

  -- The fields that the server reads behind the magic.
  read-encode_record :
      (m : RouteMetaEntry F) (dim : ℕ) (row : List ℕ)
      → Fits m
      → dim < 2 ^ 32
      → let b = encode_record m dim row in
        (read_u32 b 8 ≡ dim)
        × (read_route_meta b (some (f.from_bits (read_u32 b 32))) ≡ as_route_meta m)
  unfolding encode_rvec_v3_route_header
  read-encode_record m dim row fits d = (
    omega arith,
    rw (
      word_bytes m.row_idx fits.row_idx_fits,
      read-write_u64 m.transaction_id fits.transaction_fits,
      word_bytes (bits_of_i32 m.fold_id) (bits_of_i32-lt m.fold_id fits.fold_fits),
      i32_of_bits-bits_of_i32 m.fold_id fits.fold_fits,
      word_bytes m.seg_prod_amtbin fits.seg_fits,
      word_bytes (f.to_bits m.l2_tau_used) fits.tau_fits,
      fits.tau_exact,
    ),
  )

  -- Of one routed row behind its header, whose fields fit their widths and whose length is that of
  -- the dimension, the server recovers the row and the routing entry with its threshold.
  pub parse_dense-encode_record :
      (m : RouteMetaEntry F) (dim : ℕ) (row : List ℕ)
      → Fits m
      → dim < 2 ^ 32
      → length row ≡ dim * 4
      → parse_dense_payload_le (encode_record m dim row) dim
        ≡ ok (record { payload = row; route_meta = some (as_route_meta m) })
  unfolding parse_dense_payload_le encode_rvec_v3_route_header
  parse_dense-encode_record m dim row fits d l =
      let reads = read-encode_record m dim row fits d in ground (arith, reads.0, reads.1)

  -- Of one routed record of a batch, whose fields fit their widths and whose length is that of the
  -- dimension, the record parser recovers the row and the routing entry.
  pub parse_batch_record-encode_record :
      (m : RouteMetaEntry F) (dim : ℕ) (row : List ℕ)
      → Fits m
      → dim * 4 < 2 ^ 32
      → length row ≡ dim * 4
      → parse_batch_record_ref (encode_record m dim row) true ≡ ok (row, some (as_route_meta m))
  unfolding parse_batch_record_ref encode_rvec_v3_route_header
  parse_batch_record-encode_record m dim row fits d l =
      let reads = read-encode_record m dim row fits (omega arith) in
      ground (arith, reads.0, reads.1)

  abbrev pub encode_records : ℕ → List (Entry F) → List ℕ
  encode_records dim [] = []
  encode_records dim (e ∷ es) = encode_record e.0 dim e.1 ++ encode_records dim es

  abbrev pub AllFit : ℕ → List (Entry F) → Type 0
  AllFit dim [] = Unit
  AllFit dim (e ∷ es) = Fits e.0 × (length e.1 ≡ dim * 4) × AllFit dim es

  abbrev pub as_record : Entry F → List ℕ × Option (QuickRouteMeta F)
  as_record e = (e.1, some (as_route_meta e.0))

  length-encode_record :
      (m : RouteMetaEntry F) (dim : ℕ) (row : List ℕ)
      → length row ≡ dim * 4
      → length (encode_record m dim row) ≡ 40 + dim * 4
  unfolding encode_rvec_v3_route_header
  length-encode_record m dim row l = omega arith

  -- Of the encoded records of any number of routed rows, behind a prefix that ends where record i
  -- starts, the record loop from i on recovers every row and every routing entry, in order. The
  -- fields fit their widths, and a row's length is below 2^32.
  pub batch_records-encode_records :
      (dim i : ℕ) (pre : List ℕ) (es : List (Entry F))
      → dim * 4 < 2 ^ 32
      → AllFit dim es
      → length pre ≡ 16 + i * (40 + dim * 4)
      → batch_records (pre ++ encode_records dim es) true (40 + dim * 4) (length es) i
        ≡ ok (map as_record es)
  unfolding batch_records
  batch_records-encode_records dim i pre [] d fit p = refl
  batch_records-encode_records dim i pre (e ∷ es) d (fits, l, rest) p =
      let r = encode_record e.0 dim e.1 in
      let len : length r ≡ 40 + dim * 4 = length-encode_record e.0 dim e.1 l in
      let next =
        batch_records-encode_records dim (i + 1) (pre ++ r) es d rest
          (rw length-append (grind arith)) in
      rw (
        slice-append pre r (encode_records dim es) (16 + i * (40 + dim * 4)) (40 + dim * 4) p len,
        parse_batch_record-encode_record e.0 dim e.1 fits d l,
        rw append_assoc at next,
      )
