-- ===== src/Boost/Plans.antt =====
-- The plan that `materialize_tree_plan` of crates/risk-quickscorer/src/l1.rs makes of the files that
-- `load_bounds` and `load_tree_order` of crates/risk-quickscorer/src/prefix.rs read.
use riskanvil.Base.{
  ℕ, zero, suc, ◌+◌, ◌≤◌, true, Bool-cases, Option, none, some, List, [], ◌∷◌, length, take,
  length-take, ltb, leb, bytes_eq, eq→==, ok, Result-cases, inl, inr, ◌≡◌, refl, ap, arith,
}
use riskanvil.Base.Float.{Float32}
use riskanvil.Boost.Exits.{range, tree_limit, prefix, materialize_tree_plan}
use riskanvil.Boost.Load.{
  behind_magic, magic_bnd, magic_ord, read_bounds, load_bounds, read_tree_order, load_tree_order,
}
use riskanvil.Boost.Model.{Bounds, TreeOrder}
use riskanvil.Boost.Reader.{Reader, ◌>>=◌, pure, le_u32, le_f32, read_vec, HasLength, Anything}

-- Whatever the reader gives has the property.
abbrev pub Gives : {A : Type 0} → (A → Type 0) → Reader A → Type 0
Gives {A} P r = (buf : List ℕ) (off : ℕ) (a : A) (end : ℕ) → r buf off ≡ ok (a, end) → P a

bind-Gives :
    {A B : Type 0} {P : A → Type 0} {Q : B → Type 0} (r : Reader A) (k : A → Reader B)
    → Gives P r
    → ((a : A) → P a → Gives Q (k a))
    → Gives Q (r >>= k)
bind-Gives r k first second buf off b end h = elim (Result-cases (r buf off)) [
  | inl (e, p) ↦ absurd (ground (arith, rw p at h))
  | inr ((a, mid), p) ↦ second a (first buf off a mid p) buf mid b end (rw p at h)
]

any-Gives : {A : Type 0} (r : Reader A) → Gives Anything r
any-Gives r buf off a end h = tt

pure-Gives : {A : Type 0} (P : A → Type 0) (a : A) → P a → Gives P (pure a)
pure-Gives P a h buf off b end e = let same : a ≡ b = ground (arith, e) in rw (← same) h

read_vec-Gives : {A : Type 0} (r : Reader A) (n : ℕ) → Gives (HasLength n) (read_vec r n)
unfolding read_vec
read_vec-Gives r zero = pure-Gives (HasLength 0) [] refl
read_vec-Gives r (suc n) = bind-Gives r _ (any-Gives r) (λ x h.
    bind-Gives (read_vec r n) _ (read_vec-Gives r n)
      (λ xs same. pure-Gives (HasLength (suc n)) (x ∷ xs) (ap suc same)))

behind_magic-Gives :
    {A : Type 0} {P : A → Type 0} (fields : ℕ) (magic : List ℕ) (r : Reader A) (buf : List ℕ)
    (a : A)
    → Gives P r
    → behind_magic fields magic r buf ≡ ok a
    → P a
behind_magic-Gives fields magic r buf a gives h =
    elim (Bool-cases (ltb (length buf) (length magic + fields))) [
      | inl p ↦ absurd (ground (arith, rw p at h))
      | inr p ↦ elim (Bool-cases (bytes_eq (take (length magic) buf) magic)) [
        | inr q ↦ absurd (ground (arith, rw (p, q) at h))
        | inl q ↦ elim (Result-cases (r buf (length magic))) [
          | inl (e, s) ↦ absurd (ground (arith, rw (p, q, s) at h))
          | inr ((b, end), s) ↦
              let same : b ≡ a = ground (arith, rw (p, q, s) at h) in
              rw (← same) (gives buf (length magic) b end s)
        ]
      ]
    ]

prefix-ok : {A : Type 0} (v : List A) (n : ℕ) → n ≤ length v → prefix v n ≡ ok (take n v)
prefix-ok v n h = let fits : leb n (length v) ≡ true = ground arith in rw fits refl

limit-le : (max_trees : Option ℕ) (n : ℕ) → tree_limit max_trees n ≤ n
limit-le none n = omega arith
limit-le (some m) n = omega arith

length-range : (n i : ℕ) → length (range n i) ≡ n
length-range zero i = refl
length-range (suc n) i = ap suc (length-range n (i + 1))

module _ {F : Type 0} ⦃f : Float32 F⦄ where
  -- One bound more than there are trees.
  abbrev IsBounds : Bounds F → Type 0
  IsBounds b = (length b.suffix_min ≡ b.n_trees + 1) × (length b.suffix_max ≡ b.n_trees + 1)

  abbrev pub IsPlan : TreeOrder F → Type 0
  IsPlan p =
      (length p.order ≡ p.n_trees)
      × (length p.suffix_min ≡ p.n_trees + 1)
      × (length p.suffix_max ≡ p.n_trees + 1)

  load_bounds-IsBounds : (buf : List ℕ) (b : Bounds F) → load_bounds buf ≡ ok b → IsBounds b
  unfolding load_bounds read_bounds
  load_bounds-IsBounds buf b h =
      behind_magic-Gives 4 magic_bnd (le_u32 >>= read_bounds) buf b
        (bind-Gives le_u32 read_bounds (any-Gives le_u32) (λ n g.
          bind-Gives _ _ (any-Gives (read_vec (le_f32 {F = F}) n)) (λ lo g.
            bind-Gives _ _ (any-Gives (read_vec (le_f32 {F = F}) n)) (λ hi g.
              bind-Gives _ _ (read_vec-Gives le_f32 (n + 1)) (λ mins p.
                bind-Gives _ _ (read_vec-Gives le_f32 (n + 1))
                  (λ maxs q. pure-Gives IsBounds _ (p, q)))))))
        h

  load_tree_order-IsPlan : (buf : List ℕ) (o : TreeOrder F) → load_tree_order buf ≡ ok o → IsPlan o
  unfolding load_tree_order read_tree_order
  load_tree_order-IsPlan buf o h =
      behind_magic-Gives 4 magic_ord (le_u32 >>= read_tree_order) buf o
        (bind-Gives le_u32 read_tree_order (any-Gives le_u32) (λ n g.
          bind-Gives _ _ (read_vec-Gives le_u32 n) (λ order s.
            bind-Gives _ _ (any-Gives (read_vec (le_f32 {F = F}) n)) (λ lo g.
              bind-Gives _ _ (any-Gives (read_vec (le_f32 {F = F}) n)) (λ hi g.
                bind-Gives _ _ (read_vec-Gives le_f32 (n + 1)) (λ mins p.
                  bind-Gives _ _ (read_vec-Gives le_f32 (n + 1))
                    (λ maxs q. pure-Gives IsPlan _ (s, p, q))))))))
        h

  -- From a bounds file and an order file that load and agree on the number of trees, the plan with
  -- the order and the one without are made without a panic: each has the trees asked for, one
  -- place in the order for each, and one bound of both kinds more than trees.
  pub materialize_tree_plan-loaded :
      (bounds_file order_file : List ℕ) (bounds : Bounds F) (order : TreeOrder F)
      (max_trees : Option ℕ)
      → load_bounds bounds_file ≡ ok bounds
      → load_tree_order order_file ≡ ok order
      → order.n_trees ≡ bounds.n_trees
      → ((plan : TreeOrder F) × (materialize_tree_plan bounds (some order) max_trees ≡ ok plan)
          × (plan.n_trees ≡ tree_limit max_trees bounds.n_trees)
          × IsPlan plan)
        × ((plan : TreeOrder F) × (materialize_tree_plan bounds none max_trees ≡ ok plan)
            × (plan.n_trees ≡ tree_limit max_trees bounds.n_trees)
            × IsPlan plan)
  unfolding materialize_tree_plan
  materialize_tree_plan-loaded bounds_file order_file bounds order max_trees h h' same =
      let (mins, maxs) = load_bounds-IsBounds bounds_file bounds h in
      let (len, mins', maxs') = load_tree_order-IsPlan order_file order h' in
      let limit = tree_limit max_trees bounds.n_trees in
      let below = limit-le max_trees bounds.n_trees in
      let order' : TreeOrder F = record {
        n_trees = limit;
        order = take limit order.order;
        suffix_min = take (limit + 1) order.suffix_min;
        suffix_max = take (limit + 1) order.suffix_max;
      } in
      let natural : TreeOrder F = record {
        n_trees = limit;
        order = range limit 0;
        suffix_min = take (limit + 1) bounds.suffix_min;
        suffix_max = take (limit + 1) bounds.suffix_max;
      } in
      (
        (
          order',
          rw
              (
                eq→== order.n_trees bounds.n_trees same,
                prefix-ok order.order limit (omega (arith, below, same, len)),
                prefix-ok order.suffix_min (limit + 1) (omega (arith, below, same, mins')),
                prefix-ok order.suffix_max (limit + 1) (omega (arith, below, same, maxs')),
              )
              refl,
          refl,
          (
            omega (arith, length-take limit order.order, below, len, same),
            omega (arith, length-take (limit + 1) order.suffix_min, below, mins', same),
            omega (arith, length-take (limit + 1) order.suffix_max, below, maxs', same),
          ),
        ),
        (
          natural,
          rw
              (
                prefix-ok bounds.suffix_min (limit + 1) (omega (arith, below, mins)),
                prefix-ok bounds.suffix_max (limit + 1) (omega (arith, below, maxs)),
              )
              refl,
          refl,
          (
            length-range limit 0,
            omega (arith, length-take (limit + 1) bounds.suffix_min, below, mins),
            omega (arith, length-take (limit + 1) bounds.suffix_max, below, maxs),
          ),
        ),
      )
