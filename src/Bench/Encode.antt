-- ===== src/Bench/Encode.antt =====
-- The requests that the client builds: crates/risk-bench3/src/bench_http.rs and bench_decode.rs.
use riskanvil.Base.{ℕ, ◌%◌, Bool, List, [], ◌∷◌, ◌++◌, if◌then◌else◌}
use riskanvil.Base.Bytes.{le16, le32, le64, u32_limit}
use riskanvil.Base.Int.{ℤ, bits_of_i32}
use riskanvil.Base.Float.{Float32}

abbrev pub rbh1_magic : List ℕ
rbh1_magic = b'R' ∷ b'B' ∷ b'H' ∷ b'1' ∷ []

abbrev pub rvec_magic : List ℕ
rvec_magic = b'R' ∷ b'V' ∷ b'E' ∷ b'C' ∷ []

pub record RouteMetaEntry (F : Type 0) : Type 0 where
  pub row_idx : ℕ
  pub transaction_id : ℕ
  pub fold_id : ℤ
  pub seg_prod_amtbin : ℕ
  pub l2_tau_used : F

unfoldable pub encode_batch_header : ℕ → ℕ → Bool → List ℕ
encode_batch_header record_count record_bytes has_route_meta =
    rbh1_magic
    ++ (le16 1
        ++ (le16 (if has_route_meta then 1 else 0)
            ++ (le32 (record_count % u32_limit) ++ le32 (record_bytes % u32_limit))))

module _ {F : Type 0} ⦃f : Float32 F⦄ where
  -- The bytes 36 to 39 of the header stay zero.
  unfoldable pub encode_rvec_v3_route_header : RouteMetaEntry F → ℕ → List ℕ
  encode_rvec_v3_route_header meta dim =
      rvec_magic
      ++ (le16 3
          ++ (le16 0
              ++ (le32 (dim % u32_limit)
                  ++ (le32 (bits_of_i32 meta.fold_id)
                      ++ (le32 meta.seg_prod_amtbin
                          ++ (le64 meta.transaction_id
                              ++ (le32 meta.row_idx
                                  ++ (le32 (f.to_bits meta.l2_tau_used) ++ le32 0))))))))
