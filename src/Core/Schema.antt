-- ===== src/Core/Schema.antt =====
-- crates/risk-core/src/schema.rs and quickscorer/types.rs: the values that the layers exchange.
use riskanvil.Base.{ℕ, Option}
use riskanvil.Base.Int.{ℤ}

pub data Decision : Type 0 where
  allow manual_review deny degrade_allow : Decision

pub record QuickRouteMeta (F : Type 0) : Type 0 where
  pub row_idx : ℕ
  pub transaction_id : ℕ
  pub fold_id : ℤ
  pub seg_prod_amtbin : ℕ
  pub l2_tau_used : Option F

pub record TimingsUs : Type 0 where
  pub parse : ℕ
  pub feature : ℕ
  pub router : ℕ
  pub l1 : ℕ
  pub l2 : ℕ
  pub serialize : ℕ

-- The fields that the binary replies carry; `score_bits` is `score as f32`.
pub record ScoreResponse : Type 0 where
  pub score_bits : ℕ
  pub decision : Decision
  pub timings_us : TimingsUs
