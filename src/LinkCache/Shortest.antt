-- ===== src/LinkCache/Shortest.antt =====
-- link-cache.c: where the loop of `__dijkstra` ends, the costs are those of cheapest walks.
use dsr_uu.Base.{
  ℕ, zero, suc, ◌+◌, ◌*◌, ◌≤◌, ◌<◌, ◌≡◌, ◌≢◌, inl, inr, refl, List, [], ◌∷◌, ◌++◌, some, arith, All,
  In, All-In, length, sym, ap, ◌∙◌,
}
use dsr_uu.LinkCache.{LcLink, LcGraph, Memory, lc_cost_inf, lc_nodes_max}
use dsr_uu.LinkCache.Search.{Search, pred_addrs}
use dsr_uu.LinkCache.Lowest.{IsInf}
use dsr_uu.LinkCache.Invariant.{Origin, start, via}
use dsr_uu.LinkCache.Loop.{Run, Ended}
use dsr_uu.LinkCache.Start.{IsGraph}
use dsr_uu.LinkCache.Path.{Route, Walk, here, step, addr_of}

length_pos : (p : ℕ) (xs : List ℕ) → In p xs → 1 ≤ length xs
length_pos p [] m = absurd m
length_pos p (x ∷ xs) m = omega arith

pred_addrs_self :
    (fuel : ℕ) (mem : Memory) (n : ℕ) (acc : List ℕ)
    → (mem n).pred ≡ some n
    → pred_addrs (suc fuel) mem n acc ≡ some acc
unfolding pred_addrs
pred_addrs_self fuel mem n acc e = ground arith

pred_addrs_next :
    (fuel : ℕ) (mem : Memory) (n u : ℕ) (acc : List ℕ)
    → (mem n).pred ≡ some u
    → n ≢ u
    → pred_addrs (suc fuel) mem n acc ≡ pred_addrs fuel mem u ((mem n).addr ∷ acc)
unfolding pred_addrs
pred_addrs_next fuel mem n u acc e ne = ground arith

module _ (lc : LcGraph) (g : IsGraph lc) (bound source : ℕ)
    (costs : All (λ l. l.cost ≤ bound) lc.links.items) (few : length lc.nodes.items ≤ lc_nodes_max)
    (fits : length lc.nodes.items * bound < lc_cost_inf) (source_in : In source lc.nodes.items)
    (s : Search) (ended : Ended lc.links bound source lc.mem lc.nodes.items costs few fits s) where
  run : Run lc.links bound source lc.mem lc.nodes.items s
  run = ended.0

  -- A node whose cost is known is settled.
  pub settled_of : (p : ℕ) → In p lc.nodes.items → ¬ IsInf (s.mem p) → In p s.settled.items
  settled_of p m f = elim ((run.members p).1 m) [
    | inl left ↦ absurd (f (All-In (λ q. IsInf (s.mem q)) s.nodes.items p ended.1 left))
    | inr done ↦ done
  ]

  small_of : (p : ℕ) → In p s.settled.items → (s.mem p).cost ≤ length s.settled.items * bound
  small_of p m = elim (run.inv.small p (inr m)) [
    | inl i ↦ absurd (run.inv.known p m i)
    | inr h ↦ h.0
  ]

  pub small_hops : (p : ℕ) → In p s.settled.items → (s.mem p).hops ≤ lc_nodes_max
  small_hops p m = elim (run.inv.small p (inr m)) [
    | inl i ↦ absurd (run.inv.known p m i)
    | inr h ↦ omega (arith, run.total)
  ]

  closed_edge :
      (u : ℕ) (l : LcLink)
      → In u s.settled.items
      → In l lc.links.items
      → l.src ≡ u
      → (s.mem l.dst).cost ≤ (s.mem u).cost + l.cost
  closed_edge u l m at =
      All-In (λ k. k.src ≡ u → (s.mem k.dst).cost ≤ (s.mem u).cost + k.cost) lc.links.items l
        (run.inv.closed u m) at

  reached :
      {u : ℕ} (l : LcLink)
      → In l lc.links.items
      → (s.mem u).cost ≤ length s.settled.items * bound
      → (s.mem l.dst).cost ≤ (s.mem u).cost + l.cost
      → In l.dst s.settled.items
  reached l at small edge =
      let cost_l : l.cost ≤ bound = All-In (λ k. k.cost ≤ bound) lc.links.items l costs at in
      elim ((run.members l.dst).1 (All-In _ lc.links.items l g.ends at).1) [
        | inl left ↦
            let inf = All-In (λ q. IsInf (s.mem q)) s.nodes.items l.dst ended.1 left in
            let some_left = length_pos l.dst s.nodes.items left in
            absurd (grind (arith, run.total, some_left, inf, cost_l, small, edge, fits))
        | inr done ↦ done
      ]

  -- No walk is cheaper than the cost found, and what a walk reaches has been found.
  pub cost-le-walk :
      {p c : ℕ} → Walk lc.links.items source p c → In p s.settled.items × ((s.mem p).cost ≤ c)
  cost-le-walk (here e z) =
      rw (e, z, run.inv.at_source)
        (settled_of source source_in (λ i. omega (arith, run.inv.at_source)), omega arith)
  cost-le-walk (step u d l w at from to sum) =
      let (u_done, u_le) = cost-le-walk w in
      let edge = closed_edge u l u_done at from in
      rw (to, sum) (reached l at (small_of u u_done) edge, omega arith)

  pub Origin-of :
      (n : ℕ) → In n s.settled.items → Origin lc.links.items s.mem source s.settled.items n
  Origin-of n m = elim (run.inv.origin n (inr m)) [
    | inl i ↦ absurd (run.inv.known n m i)
    | inr o ↦ o
  ]

  -- What the walk back from `n` gives, in front of a route of cost `c` from `n` to `b`.
  abbrev pub Traced : ℕ → ℕ → ℕ → List ℕ → ℕ → ℕ → Type 0
  Traced h fuel n acc b c =
      (xs : List ℕ) × (pred_addrs fuel s.mem n acc ≡ some xs)
      × (length xs ≡ h + length acc)
      × Route (addr_of lc) lc.links.items (addr_of lc source ∷ (xs ++ b ∷ [])) ((s.mem n).cost + c)

  Traced-start :
      (h fuel n : ℕ) (acc : List ℕ) (b c : ℕ)
      → (s.mem n).hops ≡ h
      → n ≡ source
      → (s.mem n).cost ≡ 0
      → (s.mem n).hops ≡ 0
      → (s.mem n).pred ≡ some n
      → Route (addr_of lc) lc.links.items (addr_of lc n ∷ (acc ++ b ∷ [])) c
      → Traced h (suc fuel) n acc b c
  Traced-start h fuel n acc b c e at z hz self r = (
    acc,
    pred_addrs_self fuel s.mem n acc self,
    omega arith,
    let sum : (s.mem n).cost + c ≡ c = omega arith in rw (sum, sym at) r,
  )

  -- Back along the predecessors of a settled node stands a route of the cost found.
  pub pred_addrs-Route :
      (h fuel n : ℕ) (acc : List ℕ) (b c : ℕ)
      → In n s.settled.items
      → (s.mem n).hops ≡ h
      → h < fuel
      → Route (addr_of lc) lc.links.items (addr_of lc n ∷ (acc ++ b ∷ [])) c
      → Traced h fuel n acc b c
  pred_addrs-Route h zero n acc b c m e lt r = elim lt [ ]
  pred_addrs-Route zero (suc fuel) n acc b c m e lt r = elim (Origin-of n m) [
    | start at z hz self ↦ Traced-start zero fuel n acc b c e at z hz self r
    | via u l mu ml from to sum up pr ↦ absurd (omega arith)
  ]
  pred_addrs-Route (suc h) (suc fuel) n acc b c m e lt r = elim (Origin-of n m) [
    | start at z hz self ↦ Traced-start (suc h) fuel n acc b c e at z hz self r
    | via u l mu ml from to sum up pr ↦
        let r' : Route (addr_of lc) lc.links.items (addr_of lc u ∷ ((addr_of lc n ∷ acc) ++ b ∷ []))
            (l.cost + c) =
          (l, ml, ap (addr_of lc) from, ap (addr_of lc) to, c, refl, r) in
        let (xs, found, len, route) =
          pred_addrs-Route h fuel u (addr_of lc n ∷ acc) b (l.cost + c) mu (omega arith)
            (omega arith) r' in
        let cost_n : (s.mem n).cost + c ≡ (s.mem u).cost + (l.cost + c) = omega arith in
        (
          xs,
          pred_addrs_next fuel s.mem n u acc pr
                (λ same. omega (arith, ap (λ p. (s.mem p).hops) same))
              ∙ rw (run.same_addr n) found,
          omega arith,
          rw cost_n route,
        )
  ]
