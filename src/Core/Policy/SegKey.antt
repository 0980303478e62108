-- ===== src/Core/Policy/SegKey.antt =====
-- The segment key of a row: `build_seg_key_bytes` and `write_canonical_seg_component_from_f32`.
use riskanvil.Base.{
  ℕ, zero, suc, Bool, false, Option, none, some, List, [], ◌∷◌, ◌++◌, ◌||◌, ◌==◌, if◌then◌else◌,
  length, get_elem?, take,
}
use riskanvil.Base.Bytes.{byte_at}
use riskanvil.Base.Float.{Float32}
use riskanvil.Core.Schema.{QuickRouteMeta}
use riskanvil.Core.Policy.{L2Policy}

-- The crates `itoa` and `ryu` and the `f64` test for a whole number, which the code calls.
pub record Formats (F : Type 0) : Type 0 where
  pub is_finite : F → Bool
  -- `(v as f64).fract().abs() <= 1e-9`
  pub is_whole : F → Bool
  -- `itoa` of `v as f64 as i64`, and of a `u32`
  pub whole_text : F → List ℕ
  pub u32_text : ℕ → List ℕ
  -- `ryu` of `v as f64`
  pub finite_text : F → List ℕ

abbrev pub contains : List ℕ → ℕ → Bool
contains [] c = false
contains (x ∷ xs) c = (x == c) || contains xs c

-- The new end of `bytes[..end]` without the zeros in its tail.
unfoldable pub trim_zeros : List ℕ → ℕ → ℕ
trim_zeros bytes zero = 0
trim_zeros bytes (suc end) =
    let rest = trim_zeros bytes end in if byte_at bytes end == b'0' then rest else suc end

abbrev pub trim_dot : List ℕ → ℕ → ℕ
trim_dot bytes zero = 0
trim_dot bytes (suc end) = if byte_at bytes end == b'.' then end else suc end

unfoldable pub trim_end : List ℕ → ℕ
trim_end bytes =
    trim_dot bytes (if contains bytes b'.' then trim_zeros bytes (length bytes) else length bytes)

abbrev pub trimmed : List ℕ → List ℕ
trimmed bytes = if trim_end bytes == 0 then b'0' ∷ [] else take (trim_end bytes) bytes

module _ {F : Type 0} ⦃f : Float32 F⦄ (text : Formats F) where
  unfoldable pub write_canonical_seg_component_from_f32 : F → List ℕ → List ℕ
  write_canonical_seg_component_from_f32 v out =
      if text.is_finite v
      then (if text.is_whole v
          then out ++ text.whole_text v
          else out ++ trimmed (text.finite_text v))
      else out ++ (b'N' ∷ b'A' ∷ [])

  -- `row.get(idx).copied().unwrap_or(NAN)`
  abbrev pub value_or_nan : List F → ℕ → F
  value_or_nan row idx = elim (get_elem? row idx) [ some v ↦ v | none ↦ f.nan_f ]

  -- The loop over the segment columns from position `pos` on.
  unfoldable pub write_seg_columns : List ℕ → ℕ → List F → List ℕ → List ℕ
  write_seg_columns [] pos row out = out
  write_seg_columns (idx ∷ rest) pos row out = write_seg_columns rest (suc pos) row (
      write_canonical_seg_component_from_f32 (value_or_nan row idx)
        (if pos == 0 then out else out ++ (b'|' ∷ [])))

  -- `out` is cleared first.
  unfoldable pub build_seg_key_bytes :
      L2Policy F → List F → Option (QuickRouteMeta F) → List ℕ → List ℕ
  build_seg_key_bytes policy row_l2 (some meta) out = [] ++ text.u32_text meta.seg_prod_amtbin
  build_seg_key_bytes policy row_l2 none out = write_seg_columns policy.seg_indices 0 row_l2 []
