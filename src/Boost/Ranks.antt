-- ===== src/Boost/Ranks.antt =====
-- Thresholds by their ranks among a feature's thresholds, with the ranks of a row kept in a cache
-- whose entries count while their stamp is the epoch: `RankPack`, `RankCache`, `upper_bound_auto`
-- and `cached_rank` of crates/risk-quickscorer/src/l1.rs.
use riskanvil.Base.{
  ℕ, ◌%◌, ◌^◌, List, length, replicate, leb, if◌then◌else◌, none, some, Result, ok, err, ◌>>=◌,
}
use riskanvil.Base.Bytes.{slice}
use riskanvil.Base.Float.{Float32}
use riskanvil.Base.Int.{ℤ, pos, negsuc}
use riskanvil.Boost.Caches.{StampCache, cached}
use riskanvil.Boost.Model.{L1Error, panicked, invalid_rank_pack, fetch}
use riskanvil.Forest.Quantize.{first_above, bisect}

pub record RankPack (F : Type 0) : Type 0 where
  pub n_features : ℕ
  pub node_thr_rank : List ℤ
  pub feat_offset : List ℕ
  pub feat_count : List ℕ
  pub threshold_values : List F

abbrev pub RankCache : Type 0
RankCache = StampCache ℕ

-- `RankCache::new`
unfoldable pub new_rank_cache : ℕ → RankCache
new_rank_cache n_features = record {
  values = replicate n_features 0;
  stamps = replicate n_features 0;
  epoch = 1;
}

module _ {F : Type 0} ⦃f : Float32 F⦄ where
  -- The scan of at most 16 values and the bisection of more, `as u32`. As many rounds as there are
  -- values are enough for the bisection.
  unfoldable pub upper_bound_auto : List F → F → ℕ
  upper_bound_auto vals x =
      if leb (length vals) 16
      then first_above vals x (length vals) 0 % 2 ^ 32
      else bisect vals x (length vals) 0 (length vals) % 2 ^ 32

  abbrev pub thresholds_of : RankPack F → ℕ → Result L1Error (List F)
  thresholds_of pack fidx = do
    st ← fetch pack.feat_offset fidx
    ct ← fetch pack.feat_count fidx
    elim (slice pack.threshold_values st ct) [ none ↦ err panicked | some vals ↦ ok vals ]

  abbrev pub fresh_rank : RankPack F → List F → ℕ → Result L1Error ℕ
  fresh_rank pack feat fidx = do
    x ← fetch feat fidx
    vals ← thresholds_of pack fidx
    ok (upper_bound_auto vals x)

  unfoldable pub cached_rank : RankPack F → List F → RankCache → ℕ → Result L1Error (RankCache × ℕ)
  cached_rank pack feat cache fidx = cached (fresh_rank pack feat) cache fidx

-- `thr_rank < 0` ends the traversal, and `thr_rank as u32` is the rank otherwise.
abbrev pub split_rank : ℤ → Result L1Error ℕ
split_rank (pos rank) = ok rank
split_rank (negsuc n) = err invalid_rank_pack
