-- ===== src/Protocol/Batches.antt =====
-- Whole batches: the one-pass parser against the record loop, and the client's batch body.
use native.Mathlib.Nat.{mul-le-mul}
use mathlib.Core.Path.{subst}
use riskanvil.Base.{
  Option-cases, ap, ◌∙◌, length-append, ◌-◌, ℕ, zero, suc, ◌+◌, ◌*◌, ◌^◌, ◌≤◌, ◌<◌, ◌≡◌, refl, Bool,
  true, false, Option, none, some, List, [], ◌∷◌, ◌++◌, arith, ok, map, length, ◌>>=◌, Result,
  Result-cases, inl, inr, replicate, ok_or,
}
use riskanvil.Base.Bytes.{slice}
use riskanvil.Base.Float.{Float32}
use riskanvil.Core.Schema.{QuickRouteMeta}
use riskanvil.Bench.Encode.{encode_rvec_v3_route_header, encode_batch_header}
use riskanvil.Server.Dense.{WireError, parse_batch_record_ref}
use riskanvil.Server.Batch.{
  Batch128Refs, batch128_record, routed_refs, raw_refs, parse_batch128_refs, batch_records,
  parse_batch_dense_payload_le,
}
use riskanvil.Protocol.Requests.{
  Entry, encode_records, AllFit, as_record, batch_records-encode_records,
}

product_fits : (a b : ℕ) → a < 2 ^ 32 → b < 2 ^ 32 → 16 + a * b < 2 ^ 64
product_fits a b ha hb =
    let pa : a ≤ 2 ^ 32 - 1 = omega arith in
    let pb : b ≤ 2 ^ 32 - 1 = omega arith in omega (arith, mul-le-mul pa pb)

pub length-encode_batch_header :
    (n rb : ℕ) (routed : Bool) → length (encode_batch_header n rb routed) ≡ 16
unfolding encode_batch_header
length-encode_batch_header n rb routed = refl

module _ {F : Type 0} ⦃f : Float32 F⦄ where
  abbrev pub as_refs : List (List ℕ × Option (QuickRouteMeta F)) → Batch128Refs F
  as_refs rs = record { rows = map (λ r. r.0) rs; metas = map (λ r. r.1) rs }

  abbrev pub refs_of :
      Result WireError (List (List ℕ × Option (QuickRouteMeta F)))
      → Result WireError (Batch128Refs F)
  refs_of r = r >>= λ rs. ok (as_refs rs)

  batch128_record-eq :
      (rec : List ℕ)
      → parse_batch_record_ref {F = F} rec true ≡ (batch128_record rec >>= λ r. ok (r.0, some r.1))
  unfolding parse_batch_record_ref batch128_record
  batch128_record-eq rec = ground arith

  routed_refs-eq :
      (body : List ℕ) (rb left i : ℕ)
      → routed_refs {F = F} body rb left i ≡ refs_of (batch_records body true rb left i)
  unfolding routed_refs batch_records
  routed_refs-eq body rb zero i = refl
  routed_refs-eq body rb (suc left) i =
      elim (Result-cases (ok_or (slice body (16 + i * rb) rb) WireError.panicked)) [
        | inl (e, p) ↦ rw p
        | inr (rec, p) ↦
            rw (p, batch128_record-eq rec)
              (elim (Result-cases (batch128_record {F = F} rec)) [
                | inl (e, q) ↦ rw q
                | inr (r, q) ↦
                    rw (q, routed_refs-eq body rb left (i + 1))
                      (elim (Result-cases (batch_records {F = F} body true rb left (i + 1))) [
                        | inl (e, t) ↦ rw t
                        | inr (rs, t) ↦ rw t
                      ])
              ])
      ]

  raw_refs-eq :
      (body : List ℕ) (rb left i : ℕ)
      → (raw_refs body rb left i >>= λ rows.
          ok (record { rows = rows; metas = replicate left none }))
        ≡ refs_of (batch_records {F = F} body false rb left i)
  unfolding raw_refs batch_records parse_batch_record_ref
  raw_refs-eq body rb zero i = refl
  raw_refs-eq body rb (suc left) i = elim (Option-cases (slice body (16 + i * rb) rb)) [
    | inl p ↦ rw p
    | inr (rec, p) ↦ rw p (ground (arith, raw_refs-eq body rb left (i + 1)))
  ]

  -- For every body, with and without route metadata and for every record size, the parser that
  -- takes 128 records apart in one pass gives the rows and routes of the record loop, or fails
  -- with its error.
  pub parse_batch128_refs-eq-batch_records :
      (body : List ℕ) (has_route_meta : Bool) (record_bytes : ℕ)
      → parse_batch128_refs body has_route_meta record_bytes
        ≡ refs_of (batch_records {F = F} body has_route_meta record_bytes 128 0)
  unfolding parse_batch128_refs
  parse_batch128_refs-eq-batch_records body true rb = routed_refs-eq body rb 128 0
  parse_batch128_refs-eq-batch_records body false rb = raw_refs-eq body rb 128 0

  length-encode_records :
      (dim : ℕ) (es : List (Entry F))
      → AllFit dim es
      → length (encode_records dim es) ≡ length es * (40 + dim * 4)
  unfolding encode_rvec_v3_route_header
  length-encode_records dim [] fit = omega arith
  length-encode_records dim (e ∷ es) (fits, l, rest) =
      rw length-append (omega (arith, length-encode_records dim es rest))

  -- The body that the client sends for a batch of routed rows.
  abbrev pub batch_body : ℕ → List (Entry F) → List ℕ
  batch_body dim es = encode_batch_header (length es) (40 + dim * 4) true ++ encode_records dim es

  pub length-batch_body :
      (dim : ℕ) (es : List (Entry F))
      → AllFit dim es
      → length (batch_body dim es) ≡ 16 + length es * (40 + dim * 4)
  length-batch_body dim es fit = rw length-append (
      omega (
        arith,
        length-encode_batch_header (length es) (40 + dim * 4) true,
        length-encode_records dim es fit,
      ))

  -- The server accepts the header of the client's body of routed rows, at least one and fewer than
  -- 2^32, whose fields fit their widths, with a record size below 2^32, and reads from it that the
  -- rows are routed, their number and the record size.
  pub parse-batch_body :
      (dim : ℕ) (es : List (Entry F))
      → AllFit dim es
      → 40 + dim * 4 < 2 ^ 32
      → 0 < length es
      → length es < 2 ^ 32
      → parse_batch_dense_payload_le (batch_body dim es) dim
        ≡ ok (record {
          has_route_meta = true;
          record_count = length es;
          record_bytes = 40 + dim * 4;
        })
  unfolding parse_batch_dense_payload_le encode_batch_header
  parse-batch_body dim es fit d pos n =
      let len = length-encode_records dim es fit in
      let fits = product_fits (length es) (40 + dim * 4) n d in ground (arith, len, fits)

  -- Of the client's body of 128 routed rows, whose fields fit their widths, with a record size
  -- below 2^32, the server's one-pass parser recovers every row and every routing entry, in order.
  pub parse_batch128-batch_body :
      (dim : ℕ) (es : List (Entry F))
      → AllFit dim es
      → 40 + dim * 4 < 2 ^ 32
      → length es ≡ 128
      → parse_batch128_refs (batch_body dim es) true (40 + dim * 4)
        ≡ ok (as_refs (map as_record es))
  parse_batch128-batch_body dim es fit d n =
      let head = encode_batch_header (length es) (40 + dim * 4) true in
      let loop =
        batch_records-encode_records dim 0 head es (omega arith) fit
          (omega (arith, length-encode_batch_header (length es) (40 + dim * 4) true)) in
      parse_batch128_refs-eq-batch_records (batch_body dim es) true (40 + dim * 4)
      ∙ ap refs_of (
          subst
            (λ k. batch_records (batch_body dim es) true (40 + dim * 4) k 0 ≡ ok (map as_record es))
            n loop)
