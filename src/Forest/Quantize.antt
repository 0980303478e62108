-- ===== src/Forest/Quantize.antt =====
-- The rank of a feature among the cuts of its trees.
use riskanvil.Base.{
  ℕ, zero, suc, ◌+◌, ◌-◌, ◌/◌, ◌%◌, Bool, true, false, List, if◌then◌else◌, length, get_elem?, set,
  leb, ltb, none, some, Result, ok, err, ◌>>=◌,
}
use riskanvil.Base.Bytes.{slice}
use riskanvil.Base.Float.{Float32}
use riskanvil.Forest.Pack.{QsPack, QsError, panicked, at}

abbrev write : List ℕ → ℕ → ℕ → Result QsError (List ℕ)
write v i a = if ltb i (length v) then ok (set v i a) else err panicked

module _ {F : Type 0} ⦃f : Float32 F⦄ where
  -- `vals[i] > x` and `vals[i] <= x`, for an index in range.
  abbrev pub above_at : List F → F → ℕ → Bool
  above_at vals x i = elim (get_elem? vals i) [ some v ↦ f.lt x v | none ↦ true ]

  abbrev pub at_most : List F → F → ℕ → Bool
  at_most vals x i = elim (get_elem? vals i) [ some v ↦ f.le v x | none ↦ false ]

  -- The loop over a few cuts, from `i` on with `left` to go.
  unfoldable pub first_above : List F → F → ℕ → ℕ → ℕ
  first_above vals x zero i = i
  first_above vals x (suc left) i =
      let rest = first_above vals x left (i + 1) in if above_at vals x i then i else rest

  -- The bisection between `lo` and `hi`, with fuel for each halving.
  unfoldable pub bisect : List F → F → ℕ → ℕ → ℕ → ℕ
  bisect vals x zero lo hi = lo
  bisect vals x (suc fuel) lo hi =
      let mid = (lo + hi) / 2 in
      let right = bisect vals x fuel (mid + 1) hi in
      let left = bisect vals x fuel lo mid in
      if ltb lo hi then (if at_most vals x mid then right else left) else lo

  -- `as u8` at the end of both. As many rounds as there are cuts are enough for the bisection.
  unfoldable pub upper_bound : List F → F → ℕ
  upper_bound vals x =
      if leb (length vals) 16
      then first_above vals x (length vals) 0 % 256
      else bisect vals x (length vals) 0 (length vals) % 256

  -- `&pack.cuts[start..end]`
  abbrev cuts_of : QsPack F → ℕ → Result QsError (List F)
  cuts_of pack fid = at pack.cut_offsets fid >>= λ st. at pack.cut_offsets (fid + 1) >>= λ ed.
      if leb st ed then at_slice pack.cuts st ed else err panicked
    where
      at_slice : List F → ℕ → ℕ → Result QsError (List F)
      at_slice cuts st ed = elim (slice cuts st (ed - st)) [ none ↦ err panicked | some s ↦ ok s ]

  -- Feature `fid` and `left` more without a missing value.
  unfoldable pub quantize_row_nomiss : QsPack F → List F → ℕ → ℕ → List ℕ → Result QsError (List ℕ)
  quantize_row_nomiss pack feat zero fid ranks = ok ranks
  quantize_row_nomiss pack feat (suc left) fid ranks = do
    cuts ← cuts_of pack fid
    x ← at feat fid
    ranks' ← write ranks fid (upper_bound cuts x)
    quantize_row_nomiss pack feat left (fid + 1) ranks'

  abbrev rank_or_missing : QsPack F → F → ℕ → Result QsError (ℕ × ℕ)
  rank_or_missing pack x fid =
      if f.is_nan x then ok (0, 1) else (cuts_of pack fid >>= λ cuts. ok (upper_bound cuts x, 0))

  unfoldable pub quantize_row :
      QsPack F → List F → ℕ → ℕ → List ℕ × List ℕ → Result QsError (List ℕ × List ℕ)
  quantize_row pack feat zero fid out = ok out
  quantize_row pack feat (suc left) fid (ranks, missing) = do
    x ← at feat fid
    r ← rank_or_missing pack x fid
    ranks' ← write ranks fid r.0
    missing' ← write missing fid r.1
    quantize_row pack feat left (fid + 1) (ranks', missing')
