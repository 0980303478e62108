-- ===== src/Cascade/HotFill.antt =====
-- `fill_from_global_u32` of crates/risk-quickscorer/src/l1.rs copies the features of the row.
use riskanvil.Base.{
  ℕ, zero, suc, ◌+◌, ◌≤◌, ◌<◌, List, [], ◌∷◌, length, length-set, get_elem?, set, some, All, lt→ltb,
  ok, ◌≡◌, refl, ◌∙◌, arith,
}
use riskanvil.Base.Float.{Float32}
use riskanvil.Boost.Stamps.{get_elem-set_same, get_elem-set_other}
use riskanvil.Boost.Totality.{get_elem-inside}
use riskanvil.Cascade.HotPrefix.{hot_feature, fill_from_global_u32}

module _ {F : Type 0} ⦃f : Float32 F⦄ (feat : List F) where
  copied_from :
      (g : ℕ) (gs : List ℕ) (i : ℕ) (filled : List F) (x : F)
      → get_elem? feat g ≡ some x
      → get_elem? filled i ≡ some x
      → ((j : ℕ) (y : F) → hot_feature gs feat j ≡ ok y → get_elem? filled (i + 1 + j) ≡ some y)
      → (j : ℕ) (y : F) → hot_feature (g ∷ gs) feat j ≡ ok y
      → get_elem? filled (i + j) ≡ some y
  unfolding hot_feature
  copied_from g gs i filled x p here rest zero y h =
      let e : i + 0 ≡ i = omega arith in
      let same : x ≡ y = ground (arith, p, h) in rw (e, ← same) here
  copied_from g gs i filled x p here rest (suc j) y h =
      let e : i + suc j ≡ i + 1 + j = omega arith in rw e (rest j y h)

  -- The copied values are the features of the row, from an index on.
  pub fill-lem :
      (gs : List ℕ) (i : ℕ) (values : List F)
      → All (λ g. g < length feat) gs
      → i + length gs ≤ length values
      → (filled : List F) × (fill_from_global_u32 gs feat i values ≡ ok filled)
        × ((j : ℕ) → j < i → get_elem? filled j ≡ get_elem? values j)
        × ((j : ℕ) (x : F) → hot_feature gs feat j ≡ ok x → get_elem? filled (i + j) ≡ some x)
  unfolding fill_from_global_u32 hot_feature
  fill-lem [] i values all room =
      (values, refl, (λ j h. refl), (λ j x h. absurd (ground (arith, h))))
  fill-lem (g ∷ gs) i values (inside, all) room =
      let (x, p) = get_elem-inside feat g inside in
      let fits = lt→ltb i (length values) (omega (arith, room)) in
      let (filled, e, front, back) =
        fill-lem gs (i + 1) (set values i x) all (omega (arith, room, length-set values i x)) in
      (
        filled,
        rw (p, fits) e,
        (λ j h. front j (omega (arith, h)) ∙ get_elem-set_other values i j x (ground (arith, h))),
        copied_from g gs i filled x p
            (front i (omega arith) ∙ get_elem-set_same values i x (omega (arith, room))) back,
      )
