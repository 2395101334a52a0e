-- ===== src/LinkCache/Relax.antt =====
-- link-cache.c: what one round of `do_relax` over all links does to the nodes.
use native.Mathlib.Nat.{le_trans}
use dsr_uu.Base.{
  ℕ, ◌+◌, ◌≤◌, ◌<◌, ◌≡◌, ◌⊎◌, inl, inr, refl, List, [], ◌∷◌, some, u32_mod, arith, All, In, ◌∙◌,
}
use dsr_uu.Tbl.{for_each}
use dsr_uu.LinkCache.{LcNode, LcLink, Memory}
use dsr_uu.LinkCache.Search.{do_relax}

-- The node `n'` is `n` as the link `l` from `u`, which holds `un`, improved it.
pub record Improved (u : ℕ) (un : LcNode) (l : LcLink) (n n' : LcNode) : Type 0 where
  pub from_u : l.src ≡ u
  pub cost : n'.cost ≡ un.cost + l.cost
  pub hops : n'.hops ≡ un.hops + 1
  pub pred : n'.pred ≡ some u
  pub better : n'.cost < n.cost

-- The round leaves a node alone or improves it, and no link from `u` can improve a node further.
pub record Relaxed (u : ℕ) (un : LcNode) (links : List LcLink) (mem mem' : Memory) : Type 0 where
  pub same_addr : (p : ℕ) → (mem' p).addr ≡ (mem p).addr
  pub at_u : mem' u ≡ un
  pub lower : (p : ℕ) → (mem' p).cost ≤ (mem p).cost
  pub edges : All (λ l. l.src ≡ u → (mem' l.dst).cost ≤ un.cost + l.cost) links
  pub change :
      (p : ℕ)
      → (mem' p ≡ mem p)
        ⊎ ((l : LcLink) × In l links × (l.dst ≡ p) × Improved u un l (mem p) (mem' p))

module _ (u : ℕ) (un : LcNode) (few : un.hops + 1 < u32_mod) where
  step_change :
      (mem : Memory) (l : LcLink)
      → un.cost + l.cost < u32_mod
      → mem u ≡ un
      → (p : ℕ)
      → (do_relax u mem l p ≡ mem p) ⊎ ((l.dst ≡ p) × Improved u un l (mem p) (do_relax u mem l p))
  unfolding do_relax
  step_change mem l small e p = ground arith

  step_at_u :
      (mem : Memory) (l : LcLink)
      → un.cost + l.cost < u32_mod
      → mem u ≡ un
      → do_relax u mem l u ≡ un
  unfolding do_relax
  step_at_u mem l small e = ground arith

  step_edge :
      (mem : Memory) (l : LcLink)
      → un.cost + l.cost < u32_mod
      → mem u ≡ un
      → l.src ≡ u
      → (do_relax u mem l l.dst).cost ≤ un.cost + l.cost
  unfolding do_relax
  step_edge mem l small e s = ground arith

  step_addr : (mem : Memory) (l : LcLink) (p : ℕ) → (do_relax u mem l p).addr ≡ (mem p).addr
  unfolding do_relax
  step_addr mem l p = ground arith

  step_lower : (mem : Memory) (l : LcLink) (p : ℕ) → (do_relax u mem l p).cost ≤ (mem p).cost
  unfolding do_relax
  step_lower mem l p = ground arith

  -- The whole round, where no sum wraps.
  pub Relaxed-for_each :
      (links : List LcLink) (mem : Memory)
      → All (λ l. un.cost + l.cost < u32_mod) links
      → mem u ≡ un
      → Relaxed u un links mem (for_each (do_relax u) links mem)
  unfolding for_each
  Relaxed-for_each [] mem sums e = record {
    same_addr = λ p. refl;
    at_u = e;
    lower = λ p. omega arith;
    edges = tt;
    change = λ p. inl refl;
  }
  Relaxed-for_each (l ∷ links) mem sums e =
      let mem1 = do_relax u mem l in
      let rest = Relaxed-for_each links mem1 sums.1 (step_at_u mem l sums.0 e) in
      record {
        same_addr = λ p. rest.same_addr p ∙ step_addr mem l p;
        at_u = rest.at_u;
        lower = λ p. le_trans (rest.lower p) (step_lower mem l p);
        edges = (λ s. le_trans (rest.lower l.dst) (step_edge mem l sums.0 e s), rest.edges);
        change = λ p. elim (rest.change p) [
          | inl same ↦ elim (step_change mem l sums.0 e p) [
            | inl still ↦ inl (same ∙ still)
            | inr (at, i) ↦ inr (l, inl refl, at, rw same i)
          ]
          | inr (k, m, at, i) ↦ inr (k, inr m, at, sharper p (step_lower mem l p) i)
        ];
      }
    where
      sharper :
          {k : LcLink} {n n' m : LcNode} (p : ℕ)
          → m.cost ≤ n.cost
          → Improved u un k m n'
          → Improved u un k n n'
      sharper p le i = record {
        from_u = i.from_u;
        cost = i.cost;
        hops = i.hops;
        pred = i.pred;
        better = omega (arith, i.better);
      }
