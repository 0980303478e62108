-- ===== src/Examples/Data.antt =====
-- Floats that are whole numbers, an engine of one feature, and a policy with a second stage.
use riskanvil.Base.{ℕ, ◌+◌, true, false, none, some, List, [], ◌∷◌, ltb, leb, ok, refl, arith}
use riskanvil.Base.Int.{pos}
use riskanvil.Base.Float.{Float32}
use riskanvil.Core.Schema.{allow, QuickRouteMeta}
use riskanvil.Core.Policy.{L2Policy, from_l1, l1_score}
use riskanvil.Core.Policy.SegKey.{Formats}
use riskanvil.Core.Engine.Scratch.{Runtime, QuickTlsScratch}
use riskanvil.Core.Engine.Predict.{QuickPredictOutput, QuickScorerEngine, Elapsed}
use riskanvil.Core.Engine.Outcome.{IsLoaded}

instance abbrev pub whole : Float32 ℕ
whole = record {
  zero_f = 0;
  nan_f = 0;
  add = λ a b. a + b;
  le = leb;
  lt = ltb;
  is_nan = λ a. false;
  from_bits = λ a. a;
  to_bits = λ a. a;
}

abbrev pub text : Formats ℕ
text = record {
  is_finite = λ a. true;
  is_whole = λ a. true;
  whole_text = λ a. a ∷ [];
  u32_text = λ a. a ∷ [];
  finite_text = λ a. a ∷ [];
}

-- Scores above 5 pass the first stage; the second one scores its row with the first feature.
abbrev pub runtime : Runtime ℕ ℕ
runtime = record {
  l1_dim = 1;
  l2_dim = 2;
  predict_l1_feat_nomiss = λ feat. ok (record { score = first feat; passed = ltb 5 (first feat) });
  predict_l2_row_nomiss =
      λ row tau fold. ok (record { score = first row; reject = leb tau (first row) });
}
  where
    first : List ℕ → ℕ
    first [] = 0
    first (x ∷ xs) = x

abbrev pub l2_policy : L2Policy ℕ
l2_policy = record {
  dim = 2;
  feature_sources = from_l1 0 ∷ l1_score ∷ [];
  seg_enabled = true;
  seg_cols = [];
  seg_indices = 0 ∷ [];
  tau_map_by_fold = (pos 2, (7 ∷ [], 9) ∷ []) ∷ [];
  tau_global_by_fold = (pos 1, 3) ∷ (pos 2, 4) ∷ [];
  default_fold = pos 1;
  gb_target = "";
}

abbrev pub engine : QuickScorerEngine ℕ ℕ
engine = record {
  policy = record { l1_dim = 1; l1_threshold = 5; l2 = some l2_policy };
  runtime = runtime;
}

pub engine-IsLoaded : IsLoaded engine
engine-IsLoaded = record { dims = refl; fits = omega arith; sources = λ policy h. ground arith }

abbrev pub scratch : QuickTlsScratch ℕ
scratch = record {
  l1_feat = [];
  l2_row = 8 ∷ [];
  seg_key_buf = 1 ∷ 2 ∷ [];
  batch_l1 = [];
  batch_l1_scores = [];
  batch_survivors = 4 ∷ [];
}

abbrev pub elapsed : Elapsed
elapsed = record { feature = 1; l1 = 2; l2 = 3; router = 7 }

abbrev pub meta : QuickRouteMeta ℕ
meta = record {
  row_idx = 3;
  transaction_id = 4;
  fold_id = pos 2;
  seg_prod_amtbin = 7;
  l2_tau_used = none;
}

abbrev pub passed : QuickPredictOutput ℕ
passed = record {
  l1_score = 9;
  l2_score = none;
  final_score = 9;
  decision = allow;
  used_l2 = false;
  feature_us = 0;
  l1_us = 2;
  l2_us = 0;
  router_us = 7;
}
