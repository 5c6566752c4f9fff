-- ===== src/Pricegraph/Graph/ShortestPaths/Predecessors.antt =====
-- pricegraph/src/graph/shortest_paths.rs with the store of unbounded.rs: the predecessors and the
-- distances belong to walks from the source.
use mathlib.Core.List.{Memᴰ}
use dex_services.Prelude.{
  ℕ, zero, suc, ◌≡◌, refl, Bool, true, false, List, [], ◌∷◌, Bool-cases, inl, inr, ◌⊎◌, ◌==◌,
  ==-refl, arith, none, some, Option-cases,
}
use dex_services.Pricegraph.Graph.{Measure, Graph, update}
use dex_services.Pricegraph.Graph.ShortestPaths.{scan, start_distances}
use dex_services.Pricegraph.Graph.ShortestPaths.Walks.{Le, IsOrdered, Walk}
use dex_services.Pricegraph.Graph.ShortestPaths.Unbounded.{Unbounded, storing}
use dex_services.Pricegraph.Graph.ShortestPaths.Passes.{
  relax_one, relax_all, relax_pass, relax_elim, Le_update,
}

module _ {W : Type 0} {m : Measure W} (o : IsOrdered m) (g : Graph W) where
  -- What every relaxation along an edge keeps, a scan keeps.
  relax_all_inv :
      (P : Unbounded W → Type 0) (i : ℕ) (s : Unbounded W × Bool) (es : List (ℕ × W))
      → ((i j : ℕ) (w : W) (s : Unbounded W) (b : Bool)
          → Memᴰ (j, w) (g.edges i)
          → P s
          → P (relax_one o g i (s, b) (j, w)).0)
      → ((e : ℕ × W) → Memᴰ e es → Memᴰ e (g.edges i))
      → P s.0
      → P (relax_all o g i s es).0
  relax_all_inv P i s [] keep sub h = h
  relax_all_inv P i s (e ∷ es) keep sub h =
      relax_all_inv P i (relax_one o g i s e) es keep (λ x is. sub x (Memᴰ.tail is))
        (keep i e.0 e.1 s.0 s.1 (sub e (Memᴰ.head refl)) h)

  relax_pass_inv :
      (P : Unbounded W → Type 0) (s : Unbounded W × Bool) (is : List ℕ)
      → ((i j : ℕ) (w : W) (s : Unbounded W) (b : Bool)
          → Memᴰ (j, w) (g.edges i)
          → P s
          → P (relax_one o g i (s, b) (j, w)).0)
      → P s.0
      → P (relax_pass o g s is).0
  relax_pass_inv P s [] keep h = h
  relax_pass_inv P s (i ∷ is) keep h =
      relax_pass_inv P (relax_all o g i s (g.edges i)) is keep
        (relax_all_inv P i s (g.edges i) keep (λ x is. is) h)

  scan_inv :
      (P : Unbounded W → Type 0) (n : ℕ) (s : Unbounded W)
      → ((i j : ℕ) (w : W) (s : Unbounded W) (b : Bool)
          → Memᴰ (j, w) (g.edges i)
          → P s
          → P (relax_one o g i (s, b) (j, w)).0)
      → P s
      → P (scan m g (storing m g) n s)
  unfolding scan
  scan_inv P zero s keep h = h
  scan_inv P (suc n) s keep h =
      let kept = relax_pass_inv P (s, false) g.node_identifiers keep h in
      elim (Bool-cases (relax_pass o g (s, false) g.node_identifiers).1) [
        | inl y ↦ rw y (scan_inv P n (relax_pass o g (s, false) g.node_identifiers).0 keep kept)
        | inr d ↦ rw d kept
      ]

-- The source, or a node with a predecessor.
abbrev pub IsReached : {W : Type 0} → ℕ → Unbounded W → ℕ → Type 0
IsReached source s i = ((i == source) ≡ true) ⊎ ((k : ℕ) × (s.predecessors i ≡ some k))

pub record IsTree {W : Type 0} (m : Measure W) (g : Graph W) (source : ℕ) (s : Unbounded W)
    : Type 0 where
  pub realised :
      (j : ℕ) → (s.distances j ≡ m.infinite) ⊎ ((n : ℕ) × Walk m g source j n (s.distances j))
  pub root : s.predecessors source ≡ none → s.distances source ≡ m.zero
  pub rooted :
      (j : ℕ) → (j == source) ≡ false → s.predecessors j ≡ none → s.distances j ≡ m.infinite
  pub linked :
      (j i : ℕ)
      → s.predecessors j ≡ some i
      → (w : W) × Memᴰ (j, w) (g.edges i) × Le m (m.add (s.distances i) w) (s.distances j)
  pub reached : (j i : ℕ) → s.predecessors j ≡ some i → IsReached source s i

module _ {W : Type 0} {m : Measure W} (o : IsOrdered m) (g : Graph W) (source : ℕ) (i j : ℕ) (w : W)
    (s : Unbounded W) (edge : Memᴰ (j, w) (g.edges i)) (t : IsTree m g source s)
    (y : m.lt (m.add (s.distances i) w) (s.distances j) ≡ true) where
  abbrev improved : Unbounded W
  improved = record {
    predecessors = update s.predecessors j (some i);
    distances = update s.distances j (m.add (s.distances i) w);
  }

  not_infinite : s.distances i ≡ m.infinite → ⊥
  not_infinite e = cc (o.unreached w (s.distances j), e, y)

  improved-realised :
      (k : ℕ)
      → (improved.distances k ≡ m.infinite) ⊎ ((n : ℕ) × Walk m g source k n (improved.distances k))
  improved-realised k = elim (Bool-cases (k == j)) [
    | inl e ↦ elim (t.realised i) [
      | inl far ↦ absurd (not_infinite far)
      | inr (n, walk) ↦
          let same : k ≡ j = ground arith in
          rw e (inr (suc n, Walk.step i k n _ _ w walk (rw same edge) refl))
    ]
    | inr e ↦ rw e (t.realised k)
  ]

  improved-root : improved.predecessors source ≡ none → improved.distances source ≡ m.zero
  improved-root h = elim (Bool-cases (source == j)) [
    | inl e ↦ cc (rw e at h)
    | inr e ↦ rw e (t.root (rw e at h))
  ]

  improved-rooted :
      (k : ℕ)
      → (k == source) ≡ false
      → improved.predecessors k ≡ none
      → improved.distances k ≡ m.infinite
  improved-rooted k away h = elim (Bool-cases (k == j)) [
    | inl e ↦ cc (rw e at h)
    | inr e ↦ rw e (t.rooted k away (rw e at h))
  ]

  improved-Le : (k : ℕ) → Le m (improved.distances k) (s.distances k)
  improved-Le k = Le_update o g s.distances j k _ (o.asymmetric _ _ y)

  -- The predecessor of a node after the update.
  improved-predecessor :
      (k l : ℕ)
      → improved.predecessors k ≡ some l
      → ((k ≡ j) × (l ≡ i)) ⊎ (((k == j) ≡ false) × (s.predecessors k ≡ some l))
  improved-predecessor k l h = elim (Bool-cases (k == j)) [
    | inl e ↦ let h' = rw e at h in inl (ground arith, cc)
    | inr e ↦ inr (e, rw e at h)
  ]

  improved-linked :
      (k l : ℕ)
      → improved.predecessors k ≡ some l
      → (v : W) × Memᴰ (k, v) (g.edges l)
        × Le m (m.add (improved.distances l) v) (improved.distances k)
  improved-linked k l h = elim (improved-predecessor k l h) [
    | inl (e, f) ↦ (w, rw (e, f) edge, rw (e, f, ==-refl j) (o.monotone _ _ w (improved-Le i)))
    | inr (e, old) ↦
        let (v, edge', le) = t.linked k l old in
        (v, edge', rw e (o.transitive _ _ _ (o.monotone _ _ v (improved-Le l)) le))
  ]

  IsReached-improved : (k : ℕ) → IsReached source s k → IsReached source improved k
  IsReached-improved k (inl e) = inl e
  IsReached-improved k (inr (l, e)) = elim (Bool-cases (k == j)) [
    | inl b ↦ inr (i, rw b refl)
    | inr b ↦ inr (l, rw b e)
  ]

  pub i-IsReached : IsReached source s i
  i-IsReached = elim (Bool-cases (i == source)) [
    | inl e ↦ inl e
    | inr e ↦ elim (Option-cases (s.predecessors i)) [
      | inl n ↦ absurd (not_infinite (t.rooted i e n))
      | inr r ↦ inr r
    ]
  ]

  improved-IsReached : (k l : ℕ) → improved.predecessors k ≡ some l → IsReached source improved l
  improved-IsReached k l h = elim (improved-predecessor k l h) [
    | inl (e, f) ↦ rw f (IsReached-improved i i-IsReached)
    | inr (e, old) ↦ IsReached-improved l (t.reached k l old)
  ]

  improved-IsTree : IsTree m g source improved
  improved-IsTree = record {
    realised = improved-realised;
    root = improved-root;
    rooted = improved-rooted;
    linked = improved-linked;
    reached = improved-IsReached;
  }

module _ {W : Type 0} {m : Measure W} (o : IsOrdered m) (g : Graph W) (source : ℕ) where
  relax_one-IsTree :
      (i j : ℕ) (w : W) (s : Unbounded W) (b : Bool)
      → Memᴰ (j, w) (g.edges i)
      → IsTree m g source s
      → IsTree m g source (relax_one o g i (s, b) (j, w)).0
  relax_one-IsTree i j w s b edge t =
      relax_elim o g (λ r. IsTree m g source r.0) i s b j w
        (λ y. improved-IsTree o g source i j w s edge t y) (λ n. t)

  -- What `shortest_path` starts from.
  abbrev pub started : Unbounded W
  started = record { predecessors = λ i. none; distances = start_distances m source }

  started-IsTree : IsTree m g source started
  started-IsTree = record {
    realised = λ j. elim (Bool-cases (j == source)) [
      | inl e ↦ rw e (inr (zero, Walk.here j m.zero (ground arith) refl))
      | inr e ↦ rw e (inl refl)
    ];
    root = λ h. rw (==-refl source) refl;
    rooted = λ j e h. rw e refl;
    linked = λ j i h. cc;
    reached = λ j i h. cc;
  }

  pub scan-IsTree : (n : ℕ) → IsTree m g source (scan m g (storing m g) n started)
  scan-IsTree n = scan_inv o g (IsTree m g source) n started relax_one-IsTree started-IsTree
