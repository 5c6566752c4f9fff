-- ===== src/Pricegraph/Graph/ShortestPaths/Layers.antt =====
-- pricegraph/src/graph/shortest_paths.rs with the store of bounded.rs: what the scans of a search
-- with a bound keep.
use mathlib.Core.List.{Memᴰ}
use dex_services.Prelude.{
  ℕ, zero, suc, ◌+◌, ◌≤◌, ◌≡◌, refl, Bool, true, false, Option, none, some, List, [], ◌∷◌, length,
  All, Bool-cases, inl, inr, ◌⊎◌, ◌==◌, arith,
}
use dex_services.Pricegraph.Graph.{Measure, Graph, update}
use dex_services.Pricegraph.Graph.ShortestPaths.{relax, relax_edges, relax_nodes, scan}
use dex_services.Pricegraph.Graph.ShortestPaths.Walks.{IsOrdered, Walk}
use dex_services.Pricegraph.Graph.ShortestPaths.Bounded.{Bounded, steps, storing}
use dex_services.Pricegraph.Graph.ShortestPaths.Hops.{IsLinked}

module _ {W : Type 0} {m : Measure W} (o : IsOrdered m) (g : Graph W) (source : ℕ) where
  -- Infinite, or the weight of a walk of at most so many edges.
  abbrev pub IsRealised : ℕ → ℕ → W → Type 0
  IsRealised n j x = (x ≡ m.infinite) ⊎ ((k : ℕ) × (k ≤ n) × Walk m g source j k x)

  pub record IsLayered (hops : ℕ) (s : Bounded W) : Type 0 where
    pub currents : (j : ℕ) → IsRealised hops j (s.current j)
    pub pendings : (j : ℕ) → IsRealised (suc hops) j (s.pending j)
    pub linked : All (IsLinked g) (steps s)
    pub count : length s.earlier ≤ hops

  abbrev relax_one : ℕ → Bounded W × Bool → ℕ × W → Bounded W × Bool
  relax_one = relax m g (storing m g)

  abbrev relax_all : ℕ → Bounded W × Bool → List (ℕ × W) → Bounded W × Bool
  relax_all = relax_edges m g (storing m g)

  abbrev relax_pass : Bounded W × Bool → List ℕ → Bounded W × Bool
  relax_pass = relax_nodes m g (storing m g)

  IsRealised-step :
      (hops i j : ℕ) (w x : W) (s : Bounded W)
      → Memᴰ (j, w) (g.edges i)
      → IsRealised hops i (s.current i)
      → m.lt (m.add (s.current i) w) x ≡ true
      → IsRealised (suc hops) j (m.add (s.current i) w)
  IsRealised-step hops i j w x s edge (inl far) y = cc (o.unreached w x, far, y)
  IsRealised-step hops i j w x s edge (inr (k, le, walk)) y =
      inr (suc k, omega arith, Walk.step i j k _ _ w walk edge refl)

  IsRealised-weaken : (n j : ℕ) (x : W) → IsRealised n j x → IsRealised (suc n) j x
  IsRealised-weaken n j x (inl far) = inl far
  IsRealised-weaken n j x (inr (k, le, walk)) = inr (k, omega arith, walk)

  update-IsRealised :
      (f : ℕ → W) (n j k : ℕ) (x : W)
      → ((k : ℕ) → IsRealised n k (f k))
      → IsRealised n j x
      → IsRealised n k (update f j x k)
  update-IsRealised f n j k x h e = elim (Bool-cases (k == j)) [
    | inl b ↦ let same : k ≡ j = ground arith in rw (b, same) e
    | inr b ↦ rw b (h k)
  ]

  update-IsLinked :
      (p : ℕ → Option ℕ) (i j : ℕ) (w : W)
      → Memᴰ (j, w) (g.edges i)
      → IsLinked g p
      → IsLinked g (update p j (some i))
  update-IsLinked p i j w edge h k l e = elim (Bool-cases (k == j)) [
    | inl b ↦
        let same : k ≡ j = ground arith in
        let from : l ≡ i = cc (rw b at e) in (w, rw (same, from) edge)
    | inr b ↦ h k l (rw b at e)
  ]

  relax_one-IsLayered :
      (hops i j : ℕ) (w : W) (s : Bounded W) (b : Bool)
      → Memᴰ (j, w) (g.edges i)
      → IsLayered hops s
      → IsLayered hops (relax_one i (s, b) (j, w)).0
  unfolding relax
  relax_one-IsLayered hops i j w s b edge h =
      elim (Bool-cases (m.lt (m.add (s.current i) w) (s.current j))) [
        | inl y ↦ rw y (record {
          currents = h.currents;
          pendings = λ k.
              update-IsRealised s.pending (suc hops) j k (m.add (s.current i) w) h.pendings
                (IsRealised-step hops i j w (s.current j) s edge (h.currents i) y);
          linked = (update-IsLinked s.last i j w edge h.linked.0, h.linked.1);
          count = h.count;
        })
        | inr n ↦ rw n h
      ]

  relax_all-IsLayered :
      (hops i : ℕ) (s : Bounded W × Bool) (es : List (ℕ × W))
      → ((e : ℕ × W) → Memᴰ e es → Memᴰ e (g.edges i))
      → IsLayered hops s.0
      → IsLayered hops (relax_all i s es).0
  relax_all-IsLayered hops i s [] sub h = h
  relax_all-IsLayered hops i s (e ∷ es) sub h =
      relax_all-IsLayered hops i (relax_one i s e) es (λ x is. sub x (Memᴰ.tail is))
        (relax_one-IsLayered hops i e.0 e.1 s.0 s.1 (sub e (Memᴰ.head refl)) h)

  relax_pass-IsLayered :
      (hops : ℕ) (s : Bounded W × Bool) (is : List ℕ)
      → IsLayered hops s.0
      → IsLayered hops (relax_pass s is).0
  relax_pass-IsLayered hops s [] h = h
  relax_pass-IsLayered hops s (i ∷ is) h =
      relax_pass-IsLayered hops (relax_all i s (g.edges i)) is
        (relax_all-IsLayered hops i s (g.edges i) (λ x is. is) h)

  abbrev prepare : Bounded W → Bounded W
  prepare s = (storing m g).prepare_next_relaxation_step s

  prepare-IsLayered :
      (hops : ℕ) (s : Bounded W) → IsLayered hops s → IsLayered (suc hops) (prepare s)
  prepare-IsLayered hops s h = record {
    currents = h.pendings;
    pendings = λ j. IsRealised-weaken (suc hops) j (s.pending j) (h.pendings j);
    linked = (λ j i e. cc, h.linked);
    count = omega (arith, h.count);
  }

  -- Between the scans the last step is empty.
  pub record IsBetween (hops : ℕ) (s : Bounded W) : Type 0 where
    pub layered : IsLayered hops s
    pub fresh : s.last ≡ (λ i. none)

  pub scan-IsBetween :
      (n hops : ℕ) (s : Bounded W)
      → IsBetween hops s
      → (k : ℕ) × (k ≤ hops + n) × IsBetween k (scan m g (storing m g) n s)
  unfolding scan
  scan-IsBetween zero hops s h = (hops, omega arith, h)
  scan-IsBetween (suc n) hops s h =
      let passed = relax_pass (s, false) g.node_identifiers in
      let ready : IsBetween (suc hops) (prepare passed.0) = record {
        layered =
            prepare-IsLayered hops passed.0
              (relax_pass-IsLayered hops (s, false) g.node_identifiers h.layered);
        fresh = refl;
      } in
      elim (Bool-cases (relax_pass (s, false) g.node_identifiers).1) [
        | inl y ↦
            let (k, le, rest) = scan-IsBetween n (suc hops) (prepare passed.0) ready in
            rw y (k, omega arith, rest)
        | inr d ↦ rw d (suc hops, omega arith, ready)
      ]
