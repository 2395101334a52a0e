-- ===== src/LinkCache/Invariant.antt =====
-- link-cache.c: the invariant of the loop of `__dijkstra`, for the lists of its two tables.
use native.Mathlib.Nat.{le_trans}
use dsr_uu.Base.{
  ℕ, ◌+◌, ◌*◌, ◌≤◌, ◌<◌, ◌≡◌, ◌⊎◌, inl, inr, refl, List, [], ◌∷◌, ◌++◌, some, ◌==◌, arith, All, In,
  In-append, All-In, In-All, length, length-append,
}
use dsr_uu.Tbl.{remove_first, for_each}
use dsr_uu.LinkCache.{LcLink, Memory, lc_cost_inf}
use dsr_uu.LinkCache.Search.{do_relax}
use dsr_uu.LinkCache.Relax.{Relaxed, Relaxed-for_each}
use dsr_uu.LinkCache.Lowest.{IsInf, Cheapest, In-remove_first, length-remove_first_mem}

-- Where the cost of the node at `p` comes from: it is the source, or a settled node has a link to it.
pub data Origin (links : List LcLink) (mem : Memory) (source : ℕ) (settled : List ℕ) (p : ℕ)
    : Type 0 where
  start :
      p ≡ source
      → (mem p).cost ≡ 0
      → (mem p).hops ≡ 0
      → (mem p).pred ≡ some p
      → Origin links mem source settled p
  via :
      (u : ℕ) (l : LcLink)
      → In u settled
      → In l links
      → l.src ≡ u
      → l.dst ≡ p
      → (mem p).cost ≡ (mem u).cost + l.cost
      → (mem p).hops ≡ (mem u).hops + 1
      → (mem p).pred ≡ some u
      → Origin links mem source settled p

-- `links` are the links of the cache, `bound` is at least the cost of each, and `source` is the
-- node that the search starts from; `open_nodes` and `settled` are the lists of the two tables.
pub record Inv (links : List LcLink) (bound source : ℕ) (mem : Memory) (open_nodes settled : List ℕ)
    : Type 0 where
  pub ordered :
      (p q : ℕ) → In p settled → In q open_nodes → IsInf (mem q) ⊎ ((mem p).cost ≤ (mem q).cost)
  pub closed :
      (p : ℕ) → In p settled → All (λ l. l.src ≡ p → (mem l.dst).cost ≤ (mem p).cost + l.cost) links
  pub small :
      (p : ℕ)
      → In p open_nodes ⊎ In p settled
      → IsInf (mem p) ⊎ ((mem p).cost ≤ length settled * bound) × ((mem p).hops ≤ length settled)
  pub origin :
      (p : ℕ) → In p open_nodes ⊎ In p settled → IsInf (mem p) ⊎ Origin links mem source settled p
  pub known : (p : ℕ) → In p settled → ¬ IsInf (mem p)
  pub at_source : (mem source).cost ≡ 0

module _ (links : List LcLink) (bound source : ℕ) (mem : Memory) (open_nodes settled : List ℕ)
    (v : Inv links bound source mem open_nodes settled) (costs : All (λ l. l.cost ≤ bound) links)
    (fits : (length settled + length open_nodes) * bound < lc_cost_inf)
    (few : length settled + length open_nodes < lc_cost_inf) (u : ℕ) (open_u : In u open_nodes)
    (known_u : ¬ IsInf (mem u)) (cheapest : Cheapest mem u open_nodes) where
  abbrev pub mem' : Memory
  mem' = for_each (do_relax u) links mem

  abbrev pub open' : List ℕ
  open' = remove_first (λ p. p == u) open_nodes

  abbrev pub settled' : List ℕ
  settled' = settled ++ u ∷ []

  small_u : ((mem u).cost ≤ length settled * bound) × ((mem u).hops ≤ length settled)
  small_u = elim (v.small u (inl open_u)) [ inl i ↦ absurd (known_u i) | inr s ↦ s ]

  some_open : 1 ≤ length open_nodes
  some_open = omega (arith, length-remove_first_mem u open_nodes open_u)

  room : (length settled * bound) + bound < lc_cost_inf
  room = grind (arith, some_open)

  pub relaxed : Relaxed u (mem u) links mem mem'
  relaxed =
      Relaxed-for_each u (mem u) (omega (arith, small_u, some_open)) links mem
        (In-All _ links (λ l m.
          omega (arith, All-In (λ (k : LcLink). k.cost ≤ bound) links l costs m, small_u, room)))
        refl

  -- The round leaves the settled nodes alone.
  settled_same : (p : ℕ) → In p settled → mem' p ≡ mem p
  settled_same p m = elim (relaxed.change p) [
    | inl same ↦ same
    | inr (l, at, to, i) ↦ elim (v.ordered p u m open_u) [
      | inl inf ↦ absurd (known_u inf)
      | inr le ↦ absurd (omega (arith, i.better, i.cost))
    ]
  ]

  settled_cases : (p : ℕ) → In p settled' → In p settled ⊎ (p ≡ u)
  settled_cases p m = elim ((In-append p settled (u ∷ [])).0 m) [
    | inl old ↦ inl old
    | inr (inl e) ↦ inr e
    | inr (inr none) ↦ absurd none
  ]

  settled_inl : (p : ℕ) → In p settled → In p settled'
  settled_inl p m = (In-append p settled (u ∷ [])).1 (inl m)

  settled_u : In u settled'
  settled_u = (In-append u settled (u ∷ [])).1 (inr (inl refl))

  before : (p : ℕ) → In p open' ⊎ In p settled' → In p open_nodes ⊎ In p settled
  before p (inl m) = inl (In-remove_first u p open_nodes m)
  before p (inr m) = elim (settled_cases p m) [ inl old ↦ inr old | inr e ↦ inl (rw e open_u) ]

  ordered' :
      (p q : ℕ) → In p settled' → In q open' → IsInf (mem' q) ⊎ ((mem' p).cost ≤ (mem' q).cost)
  ordered' p q mp mq =
      let old_q = In-remove_first u q open_nodes mq in
      elim (settled_cases p mp) [
        | inl old ↦ elim (relaxed.change q) [
          | inl same ↦ rw (same, settled_same p old) (v.ordered p q old old_q)
          | inr (l, at, to, i) ↦ rw (settled_same p old) (elim (v.ordered p u old open_u) [
            | inl inf ↦ absurd (known_u inf)
            | inr le ↦ inr (omega (arith, i.cost))
          ])
        ]
        | inr e ↦ elim (relaxed.change q) [
          | inl same ↦
              rw (e, relaxed.at_u, same)
                (All-In (λ x. IsInf (mem x) ⊎ ((mem u).cost ≤ (mem x).cost)) open_nodes q cheapest
                  old_q)
          | inr (l, at, to, i) ↦ rw (e, relaxed.at_u) (inr (omega (arith, i.cost)))
        ]
      ]

  closed' :
      (p : ℕ)
      → In p settled'
      → All (λ l. l.src ≡ p → (mem' l.dst).cost ≤ (mem' p).cost + l.cost) links
  closed' p m = elim (settled_cases p m) [
    | inl old ↦ rw (settled_same p old) (
        In-All _ links (λ l at e. le_trans (relaxed.lower l.dst) (
          All-In (λ k. k.src ≡ p → (mem k.dst).cost ≤ (mem p).cost + k.cost) links l
            (v.closed p old) at e)))
    | inr e ↦ rw (e, relaxed.at_u) relaxed.edges
  ]

  one_more : length settled' ≡ length settled + 1
  one_more = omega (arith, length-append settled (u ∷ []))

  grown : length settled' * bound ≡ length settled * bound + bound
  grown = rw one_more (omega arith)

  small' :
      (p : ℕ)
      → In p open' ⊎ In p settled'
      → IsInf (mem' p)
        ⊎ ((mem' p).cost ≤ length settled' * bound) × ((mem' p).hops ≤ length settled')
  small' p m = elim (relaxed.change p) [
    | inl same ↦ rw same (elim (v.small p (before p m)) [
      | inl inf ↦ inl inf
      | inr (c, h) ↦ inr (omega (arith, grown), omega (arith, one_more))
    ])
    | inr (l, at, to, i) ↦
        let cost_l : l.cost ≤ bound = All-In (λ k. k.cost ≤ bound) links l costs at in
        inr (omega (arith, i.cost, small_u, grown), omega (arith, i.hops, small_u, one_more))
  ]

  keep-Origin :
      (p : ℕ)
      → mem' p ≡ mem p
      → Origin links mem source settled p
      → Origin links mem' source settled' p
  keep-Origin p same (start e c h r) = start e (rw same c) (rw same h) (rw same r)
  keep-Origin p same (via w l m at from to c h r) =
      via w l (settled_inl w m) at from to (rw (same, settled_same w m) c)
        (rw (same, settled_same w m) h) (rw same r)

  origin' :
      (p : ℕ) → In p open' ⊎ In p settled' → IsInf (mem' p) ⊎ Origin links mem' source settled' p
  origin' p m = elim (relaxed.change p) [
    | inl same ↦ elim (v.origin p (before p m)) [
      | inl inf ↦ inl (rw same inf)
      | inr o ↦ inr (keep-Origin p same o)
    ]
    | inr (l, at, to, i) ↦
        inr (
          via u l settled_u at i.from_u to (rw relaxed.at_u i.cost) (rw relaxed.at_u i.hops) i.pred)
  ]

  known' : (p : ℕ) → In p settled' → ¬ IsInf (mem' p)
  known' p m = elim (settled_cases p m) [
    | inl old ↦ rw (settled_same p old) (v.known p old)
    | inr e ↦ rw (e, relaxed.at_u) known_u
  ]

  at_source' : (mem' source).cost ≡ 0
  at_source' = omega (arith, relaxed.lower source, v.at_source)

  -- Settling a cheapest node keeps the invariant.
  pub settle-Inv : Inv links bound source mem' open' settled'
  settle-Inv = record {
    ordered = ordered';
    closed = closed';
    small = small';
    origin = origin';
    known = known';
    at_source = at_source';
  }
