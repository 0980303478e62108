-- ===== src/Boost/Caches.antt =====
-- The caches of crates/risk-quickscorer/src/l1.rs whose entries count while their stamp is the epoch:
-- `RankCache`, of the ranks of a row, and `LazyHotFeatureCache`, of its features.
use riskanvil.Base.{
  ℕ, ◌+◌, ◌%◌, ◌^◌, List, length, set, replicate, ltb, ◌==◌, if◌then◌else◌, Result, ok, err, ◌>>=◌,
}
use riskanvil.Boost.Model.{L1Error, panicked, fetch}

pub record StampCache (V : Type 0) : Type 0 where
  pub values : List V
  pub stamps : List ℕ
  pub epoch : ℕ

module _ {V : Type 0} where
  -- `next_row`, where the stamps are cleared when the epoch wraps around.
  unfoldable pub next_row : StampCache V → StampCache V
  next_row cache =
      let epoch = (cache.epoch + 1) % 2 ^ 32 in
      if epoch == 0
      then record { values = cache.values; stamps = replicate (length cache.stamps) 0; epoch = 1 }
      else record { values = cache.values; stamps = cache.stamps; epoch = epoch }

  abbrev pub remember : StampCache V → ℕ → V → StampCache V
  remember cache fidx value = record {
    values = set cache.values fidx value;
    stamps = set cache.stamps fidx cache.epoch;
    epoch = cache.epoch;
  }

  abbrev store : StampCache V → ℕ → V → Result L1Error (StampCache V × V)
  store cache fidx value =
      if ltb fidx (length cache.values) then ok (remember cache fidx value, value) else err panicked

  -- The value of the row, kept or found.
  unfoldable pub cached :
      (ℕ → Result L1Error V) → StampCache V → ℕ → Result L1Error (StampCache V × V)
  cached find cache fidx = do
    stamp ← fetch cache.stamps fidx
    let known = fetch cache.values fidx >>= λ value. ok (cache, value)
    let found = find fidx >>= λ value. store cache fidx value
    if stamp == cache.epoch then known else found
