-- ===== src/Base/Float.antt =====
-- What the code does with an `f32`: its bits, the constants, the addition and the two orders.
-- `add` may round, and no law of it is assumed.
use riskanvil.Base.{ℕ, Bool}

pub record Float32 (F : Type 0) : Type 0 where
  pub zero_f : F
  pub nan_f : F
  pub add : F → F → F
  -- `a <= b` and `a < b`, false when either is a NaN
  pub le : F → F → Bool
  pub lt : F → F → Bool
  pub is_nan : F → Bool
  pub from_bits : ℕ → F
  pub to_bits : F → ℕ

-- `a >= b`
abbrev pub ge : {F : Type 0} ⦃f : Float32 F⦄ → F → F → Bool
ge ⦃f⦄ a b = f.le b a
