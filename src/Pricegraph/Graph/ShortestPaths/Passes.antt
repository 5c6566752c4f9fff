-- ===== src/Pricegraph/Graph/ShortestPaths/Passes.antt =====
-- pricegraph/src/graph/shortest_paths.rs with the store of unbounded.rs: what a scan over all edges
-- does to the distances.
use mathlib.Core.List.{Memᴰ}
use dex_services.Prelude.{
  ℕ, zero, suc, ◌+◌, ◌≤◌, ◌≡◌, refl, sym, ap, ◌∙◌, Bool, true, false, List, [], ◌∷◌, Bool-cases,
  inl, inr, ◌==◌, ==-refl, arith, some,
}
use dex_services.Pricegraph.Graph.{Measure, Graph, update}
use dex_services.Pricegraph.Graph.ShortestPaths.{relax, relax_edges, relax_nodes, scan}
use dex_services.Pricegraph.Graph.ShortestPaths.Walks.{Le, IsOrdered, IsClosed, Le_refl, Walk}
use dex_services.Pricegraph.Graph.ShortestPaths.Unbounded.{Unbounded, storing}

module _ {W : Type 0} {m : Measure W} (o : IsOrdered m) (g : Graph W) where
  -- The loops for this store.
  abbrev pub relax_one : ℕ → Unbounded W × Bool → ℕ × W → Unbounded W × Bool
  relax_one = relax m g (storing m g)

  abbrev pub relax_all : ℕ → Unbounded W × Bool → List (ℕ × W) → Unbounded W × Bool
  relax_all = relax_edges m g (storing m g)

  abbrev pub relax_pass : Unbounded W × Bool → List ℕ → Unbounded W × Bool
  relax_pass = relax_nodes m g (storing m g)

  -- No distance has grown.
  abbrev pub Shrinks : Unbounded W → Unbounded W → Type 0
  Shrinks s s' = (j : ℕ) → Le m (s'.distances j) (s.distances j)

  Shrinks-trans : (s t u : Unbounded W) → Shrinks s t → Shrinks t u → Shrinks s u
  Shrinks-trans s t u h k j = o.transitive _ _ _ (k j) (h j)

  pub Le_update : (f : ℕ → W) (j k : ℕ) (d : W) → Le m d (f j) → Le m (update f j d k) (f k)
  Le_update f j k d h = elim (Bool-cases (k == j)) [
    | inl y ↦ let e : k ≡ j = ground arith in rw (y, e) h
    | inr n ↦ rw n (Le_refl o (f k))
  ]

  -- The rule for a relaxation: an improved distance, or no change.
  pub relax_elim :
      (P : Unbounded W × Bool → Type 0) (i : ℕ) (s : Unbounded W) (b : Bool) (j : ℕ) (w : W)
      → (m.lt (m.add (s.distances i) w) (s.distances j) ≡ true
          → P (
            record {
              predecessors = update s.predecessors j (some i);
              distances = update s.distances j (m.add (s.distances i) w);
            },
            true,
          ))
      → (m.lt (m.add (s.distances i) w) (s.distances j) ≡ false → P (s, b))
      → P (relax_one i (s, b) (j, w))
  unfolding relax
  relax_elim P i s b j w improved same =
      elim (Bool-cases (m.lt (m.add (s.distances i) w) (s.distances j))) [
        | inl y ↦ rw y (improved y)
        | inr n ↦ rw n (same n)
      ]

  relax-Shrinks :
      (i : ℕ) (s : Unbounded W) (b : Bool) (j : ℕ) (w : W) → Shrinks s (relax_one i (s, b) (j, w)).0
  relax-Shrinks i s b j w =
      relax_elim (λ r. Shrinks s r.0) i s b j w
        (λ y k. Le_update s.distances j k _ (o.asymmetric _ _ y)) (λ n k. Le_refl o _)

  -- The edge does not improve the distance any more.
  relax-Le :
      (i : ℕ) (s : Unbounded W) (b : Bool) (j : ℕ) (w : W)
      → Le m ((relax_one i (s, b) (j, w)).0.distances j) (m.add (s.distances i) w)
  relax-Le i s b j w =
      relax_elim (λ r. Le m (r.0.distances j) (m.add (s.distances i) w)) i s b j w
        (λ y. rw (==-refl j) (Le_refl o _)) (λ n. n)

  relax_edges-Shrinks :
      (i : ℕ) (s : Unbounded W × Bool) (es : List (ℕ × W)) → Shrinks s.0 (relax_all i s es).0
  relax_edges-Shrinks i s [] = λ k. Le_refl o _
  relax_edges-Shrinks i s (e ∷ es) =
      let first = relax_one i s e in
      Shrinks-trans s.0 first.0 (relax_all i first es).0 (relax-Shrinks i s.0 s.1 e.0 e.1)
        (relax_edges-Shrinks i first es)

  relax_nodes-Shrinks : (s : Unbounded W × Bool) (is : List ℕ) → Shrinks s.0 (relax_pass s is).0
  relax_nodes-Shrinks s [] = λ k. Le_refl o _
  relax_nodes-Shrinks s (i ∷ is) =
      let first = relax_all i s (g.edges i) in
      Shrinks-trans s.0 first.0 (relax_pass first is).0 (relax_edges-Shrinks i s (g.edges i))
        (relax_nodes-Shrinks first is)

  -- After a pass no edge improves on the distances from before it.
  relax_edges-Le :
      (s₀ : Unbounded W) (i : ℕ) (s : Unbounded W × Bool) (es : List (ℕ × W)) (j : ℕ) (w : W)
      → Shrinks s₀ s.0
      → Memᴰ (j, w) es
      → Le m ((relax_all i s es).0.distances j) (m.add (s₀.distances i) w)
  relax_edges-Le s₀ i s [] j w h edge = elim edge [ ]
  relax_edges-Le s₀ i s (e ∷ es) j w h (Memᴰ.head is) =
      let first = relax_one i s e in
      o.transitive _ _ _ (relax_edges-Shrinks i first es j)
        (o.transitive _ _ _ (rw (← is) (relax-Le i s.0 s.1 j w)) (o.monotone _ _ w (h i)))
  relax_edges-Le s₀ i s (e ∷ es) j w h (Memᴰ.tail is) =
      relax_edges-Le s₀ i (relax_one i s e) es j w
        (Shrinks-trans s₀ s.0 (relax_one i s e).0 h (relax-Shrinks i s.0 s.1 e.0 e.1)) is

  relax_nodes-Le :
      (s₀ : Unbounded W) (s : Unbounded W × Bool) (is : List ℕ) (i j : ℕ) (w : W)
      → Shrinks s₀ s.0
      → Memᴰ i is
      → Memᴰ (j, w) (g.edges i)
      → Le m ((relax_pass s is).0.distances j) (m.add (s₀.distances i) w)
  relax_nodes-Le s₀ s [] i j w h e edge = elim e [ ]
  relax_nodes-Le s₀ s (k ∷ is) i j w h (Memᴰ.head e) edge =
      o.transitive _ _ _ (relax_nodes-Shrinks (relax_all k s (g.edges k)) is j)
        (rw (← e) (relax_edges-Le s₀ i s (g.edges i) j w h edge))
  relax_nodes-Le s₀ s (k ∷ is) i j w h (Memᴰ.tail e) edge =
      relax_nodes-Le s₀ (relax_all k s (g.edges k)) is i j w
        (Shrinks-trans s₀ s.0 (relax_all k s (g.edges k)).0 h (relax_edges-Shrinks k s (g.edges k)))
        e edge

  -- No edge improves a distance.
  abbrev pub IsStable : Unbounded W → Type 0
  IsStable s =
      (i j : ℕ) (w : W) → Memᴰ (j, w) (g.edges i) → Le m (s.distances j) (m.add (s.distances i) w)

  -- At most the weight of the walks of up to that many edges.
  abbrev pub IsBelow : ℕ → ℕ → Unbounded W → Type 0
  IsBelow source k s = (j n : ℕ) (x : W) → Walk m g source j n x → n ≤ k → Le m (s.distances j) x

  pub IsStable-IsBelow :
      (source : ℕ) (s : Unbounded W)
      → IsStable s
      → Le m (s.distances source) m.zero
      → (j n : ℕ) (x : W) → Walk m g source j n x
      → Le m (s.distances j) x
  IsStable-IsBelow source s h z j n x (Walk.here _ _ e f) = rw (e, f) z
  IsStable-IsBelow source s h z j _ x (Walk.step i _ n x' _ w walk edge e) = rw e (
      o.transitive _ _ _ (h i j w edge)
        (o.monotone _ _ w (IsStable-IsBelow source s h z i n x' walk)))

  -- Where a pass reports no update it changes nothing.
  relax-unchanged :
      (i : ℕ) (s : Unbounded W) (b : Bool) (j : ℕ) (w : W)
      → (relax_one i (s, b) (j, w)).1 ≡ false
      → relax_one i (s, b) (j, w) ≡ (s, b)
  relax-unchanged i s b j w =
      relax_elim (λ r. r.1 ≡ false → r ≡ (s, b)) i s b j w (λ y h. cc) (λ n h. refl)

  relax_edges-unchanged :
      (i : ℕ) (s : Unbounded W × Bool) (es : List (ℕ × W))
      → (relax_all i s es).1 ≡ false
      → relax_all i s es ≡ s
  relax_edges-unchanged i s [] h = refl
  relax_edges-unchanged i s (e ∷ es) h =
      let rest = relax_edges-unchanged i (relax_one i s e) es h in
      let first = relax-unchanged i s.0 s.1 e.0 e.1 (sym (ap (λ r. r.1) rest) ∙ h) in rest ∙ first

  relax_nodes-unchanged :
      (s : Unbounded W × Bool) (is : List ℕ) → (relax_pass s is).1 ≡ false → relax_pass s is ≡ s
  relax_nodes-unchanged s [] h = refl
  relax_nodes-unchanged s (i ∷ is) h =
      let rest = relax_nodes-unchanged (relax_all i s (g.edges i)) is h in
      rest ∙ relax_edges-unchanged i s (g.edges i) (sym (ap (λ r. r.1) rest) ∙ h)

  -- After a pass without an update no edge improves a distance.
  relax_pass-IsStable :
      (s : Unbounded W)
      → IsClosed g
      → (relax_pass (s, false) g.node_identifiers).1 ≡ false
      → IsStable (relax_pass (s, false) g.node_identifiers).0
  relax_pass-IsStable s c h i j w edge =
      let same = relax_nodes-unchanged (s, false) g.node_identifiers h in
      rw same (
        rw same at (
          relax_nodes-Le s (s, false) g.node_identifiers i j w (λ k. Le_refl o _)
            (c.sources i j w edge) edge))

  relax_pass-IsBelow :
      (source k : ℕ) (s : Unbounded W)
      → IsClosed g
      → IsBelow source k s
      → IsBelow source (suc k) (relax_pass (s, false) g.node_identifiers).0
  relax_pass-IsBelow source k s c h j zero x walk le =
      o.transitive _ _ _ (relax_nodes-Shrinks (s, false) g.node_identifiers j)
        (h j zero x walk (omega arith))
  relax_pass-IsBelow source k s c h j (suc n) x (Walk.step i _ _ x' _ w walk edge e) le = rw e (
      o.transitive _ _ _
        (relax_nodes-Le s (s, false) g.node_identifiers i j w (λ k. Le_refl o _)
          (c.sources i j w edge) edge)
        (o.monotone _ _ w (h i n x' walk (omega arith))))

  pub scan-IsBelow :
      (source n k : ℕ) (s : Unbounded W)
      → IsClosed g
      → IsBelow source k s
      → IsBelow source (k + n) (scan m g (storing m g) n s)
  unfolding scan
  scan-IsBelow source zero k s c h = λ j l x walk le. h j l x walk (omega arith)
  scan-IsBelow source (suc n) k s c h =
      elim (Bool-cases (relax_pass (s, false) g.node_identifiers).1) [
        | inl y ↦ rw y (λ j l x walk le.
            scan-IsBelow source n (suc k) (relax_pass (s, false) g.node_identifiers).0 c
              (relax_pass-IsBelow source k s c h) j l x walk (omega arith))
        | inr d ↦ rw d (λ j l x walk le.
            IsStable-IsBelow source (relax_pass (s, false) g.node_identifiers).0
              (relax_pass-IsStable s c d)
              (relax_pass-IsBelow source k s c h source zero m.zero
                (Walk.here source m.zero refl refl) (omega arith))
              j l x walk)
      ]
