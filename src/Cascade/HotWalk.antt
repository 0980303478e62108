-- ===== src/Cascade/HotWalk.antt =====
-- A walk through a tree of a prefix pack of crates/risk-quickscorer/src/l1.rs, with a lazy cache of
-- features, against the walk through its compiled nodes, with the features copied.
use riskanvil.Base.{
  ℕ, zero, suc, ◌+◌, ◌<◌, true, false, Bool-cases, List, length, All, ◌==◌, if◌then◌else◌, Result,
  ok, inl, inr, ◌≡◌, refl, ap, arith,
}
use riskanvil.Base.Float.{Float32}
use riskanvil.Base.Int.{pos}
use riskanvil.Boost.Caches.{StampCache}
use riskanvil.Boost.Got.{All-get}
use riskanvil.Boost.Model.{L1Error, fetch, as_usize}
use riskanvil.Boost.Prefix.{
  PrefixPack, HotPrefixNode, HotCompiledPrefixPack, hot_fidx, compile_hot_prefix_pack,
}
use riskanvil.Boost.PrefixNodes.{IsNodeAt, compile_hot_prefix_pack-nodes}
use riskanvil.Boost.Simulation.{Alike}
use riskanvil.Boost.Stamps.{IsStamped, IsFresh, cached-IsFresh}
use riskanvil.Boost.Totality.{get_elem-inside}
use riskanvil.Cascade.HotPrefix.{
  child_of, went_by, Visit, leaf_of, child_at, hot_feature, visit_pack, visit_compiled, node_child,
  walk,
}

-- A prefix pack whose nodes have their features and children in range, its roots as well, and the
-- row each feature.
pub record IsHotTree {F : Type 0} (pack : PrefixPack F) (feat : List F) : Type 0 where
  pub node : (i : ℕ) → i < pack.node_count → IsNodeAt pack i
  pub split :
      (i : ℕ) (h : i < pack.node_count)
      → ((node i h).flag == 0) ≡ true
      → (k : ℕ) × (fetch pack.fidx i ≡ ok (pos k))
        × ((node i h).fidx ≡ pos k)
        × (k < pack.n_hot_features)
  pub roots : All (λ r. r < pack.node_count) pack.tree_roots
  pub features_len : length pack.hot_global_fidx ≡ pack.n_hot_features
  pub features : All (λ g. g < length feat) pack.hot_global_fidx

module _ {F : Type 0} ⦃f : Float32 F⦄ (pack : PrefixPack F) (feat : List F) where
  abbrev pub value : ℕ → Result L1Error F
  value = hot_feature pack.hot_global_fidx feat

  -- The cache is as the lookups leave it, and the buffer has every feature.
  abbrev pub Serves : StampCache F → List F → Type 0
  Serves cache values =
      IsStamped pack.n_hot_features cache
      × IsFresh value cache
      × ((k : ℕ) (x : F) → value k ≡ ok x → fetch values k ≡ ok x)

module _ {F : Type 0} ⦃f : Float32 F⦄ (pack : PrefixPack F) (compiled : HotCompiledPrefixPack F)
    (feat : List F) (t : IsHotTree pack feat)
    (made : compile_hot_prefix_pack pack ≡ ok compiled) where
  abbrev Inside : Visit F → Type 0
  Inside (leaf_of x) = Unit {0}
  Inside (child_at i) = i < pack.node_count

  value-inside : (k : ℕ) → k < pack.n_hot_features → (x : F) × (value pack feat k ≡ ok x)
  unfolding hot_feature
  value-inside k h =
      let (g, p) = get_elem-inside pack.hot_global_fidx k (omega (arith, t.features_len)) in
      let inside = All-get (λ g. g < length feat) pack.hot_global_fidx k g t.features p in
      let (x, q) = get_elem-inside feat g inside in (x, rw (p, q) refl)

  next_of : {i : ℕ} → IsNodeAt pack i → F → ℕ
  next_of n x = if f.is_nan x then n.missing else if f.lt x n.thr then n.left else n.right

  child_of-next : {i : ℕ} (n : IsNodeAt pack i) (x : F) → child_of pack x i ≡ ok (next_of n x)
  unfolding next_of
  child_of-next n x = elim (Bool-cases (f.is_nan x)) [
    | inl p ↦ rw (p, n.missing_at) refl
    | inr p ↦ elim (Bool-cases (f.lt x n.thr)) [
      | inl q ↦ rw (p, n.thr_at, q, n.left_at) refl
      | inr q ↦ rw (p, n.thr_at, q, n.right_at) refl
    ]
  ]

  node_child-next :
      {i : ℕ} (n : IsNodeAt pack i) (node : HotPrefixNode F) (x : F)
      → node.left ≡ n.left
      → node.right ≡ n.right
      → node.missing ≡ n.missing
      → node.thr ≡ n.thr
      → node_child false node x ≡ next_of n x
  unfolding next_of
  node_child-next n node x left right missing thr = rw (left, right, missing, thr) refl

  next-inside : {i : ℕ} (n : IsNodeAt pack i) (x : F) → next_of n x < pack.node_count
  unfolding next_of
  next-inside n x = ground (arith, n.left_inside, n.right_inside, n.missing_inside)

  visits :
      (cache : StampCache F) (values : List F) (i : ℕ)
      → Serves pack feat cache values
      → i < pack.node_count
      → (cache' : StampCache F) × (v : Visit F) × (visit_pack pack feat cache i ≡ ok (cache', v))
        × (visit_compiled false compiled values i ≡ ok (values, v))
        × Serves pack feat cache' values
        × Inside v
  unfolding visit_pack visit_compiled as_usize
  visits cache values i (stamped, fresh, holds) h =
      let n = t.node i h in
      let (node, found, is_leaf, fid, left, right, missing, thr, leaf) =
        compile_hot_prefix_pack-nodes pack compiled i n made in
      elim (Bool-cases (n.flag == 0)) [
        | inr p ↦ (
          cache,
          leaf_of n.leaf,
          rw (n.flag_at, p, n.leaf_at) refl,
          rw (found, is_leaf, p, leaf) refl,
          (stamped, fresh, holds),
          tt,
        )
        | inl p ↦
            let (k, fidx_at, is_k, few) = t.split i h p in
            let (x, given) = value-inside k few in
            let (cache', look, stamped', fresh') =
              cached-IsFresh (value pack feat) pack.n_hot_features cache k x stamped fresh few
                given in
            let index : hot_fidx node ≡ k = rw (fid, p, is_k) refl in
            let held = holds k x given in
            (
              cache',
              child_at (next_of n x),
              rw (n.flag_at, p, fidx_at, look, child_of-next n x) refl,
              rw (found, is_leaf, p, index, held)
                  (ap (λ j. ok (values, child_at j))
                    (node_child-next n node x left right missing thr)),
              (stamped', fresh', holds),
              next-inside n x,
            )
      ]

  go_on :
      (fuel evals : ℕ) (cache : StampCache F) (values : List F) (v : Visit F)
      → Serves pack feat cache values
      → Inside v
      → ((j e : ℕ)
          → j < pack.node_count
          → Alike
              (Serves pack feat)
              (walk (visit_pack pack feat) fuel cache j e)
              (walk (visit_compiled false compiled) fuel values j e))
      → Alike
          (Serves pack feat)
          (went_by (walk (visit_pack pack feat) fuel) evals cache v)
          (went_by (walk (visit_compiled false compiled) fuel) evals values v)
  go_on fuel evals cache values (leaf_of x) s inside rest = (s, refl)
  go_on fuel evals cache values (child_at j) s inside rest = rest j (evals + 1) inside

  pub walks :
      (fuel : ℕ) (cache : StampCache F) (values : List F) (i evals : ℕ)
      → Serves pack feat cache values
      → i < pack.node_count
      → Alike
          (Serves pack feat)
          (walk (visit_pack pack feat) fuel cache i evals)
          (walk (visit_compiled false compiled) fuel values i evals)
  unfolding walk
  walks zero cache values i evals s h = refl
  walks (suc fuel) cache values i evals s h =
      let (cache', v, p, q, s', inside) = visits cache values i s h in
      rw (p, q)
        (go_on fuel evals cache' values v s' inside (λ j e. walks fuel cache' values j e s'))
