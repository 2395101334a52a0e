-- ===== src/LinkCache/Loop.antt =====
-- link-cache.c: the loop of `__dijkstra` on its tables. It ends, and keeps the invariant.
use dsr_uu.Base.{
  ℕ, zero, suc, ◌+◌, ◌*◌, ◌≤◌, ◌<◌, ◌≡◌, ◌⊎◌, ◌↔◌, refl, List, [], ◌∷◌, ◌++◌, Option, none, some,
  ◌==◌, arith, All, In, In-append, length, length-append, ◌∙◌, incr32, decr32,
}
use dsr_uu.Tbl.{Tbl, remove_first, for_each, tbl_detach, tbl_add_tail, unless_full, tbl_do_for_each}
use dsr_uu.LinkCache.{LcLink, Memory, lc_cost_inf, lc_nodes_max}
use dsr_uu.LinkCache.Search.{
  Search, settle, do_relax, dijkstra_loop, dijkstra_find_lowest_cost_node,
}
use dsr_uu.LinkCache.Lowest.{
  IsInf, Lowest, find-Lowest-Lowest, In-remove_first, In-remove_first_ne, length-remove_first_mem,
}
use dsr_uu.LinkCache.Invariant.{Inv, relaxed, settle-Inv}

-- A table whose counter is right.
abbrev pub IsCounted {ℓ} : {A : Type ℓ} → Tbl A → Type 0
IsCounted t = t.len ≡ length t.items

pub detach_mem :
    (t : Tbl ℕ) (u : ℕ)
    → In u t.items
    → tbl_detach t (λ p. p == u)
      ≡ record t { items = remove_first (λ p. p == u) t.items; len = decr32 t.len }
unfolding tbl_detach
detach_mem t u m = ground arith

pub add_tail_room {ℓ} :
    {A : Type ℓ} (t : Tbl A) (a : A)
    → t.len < t.max_len
    → unless_full t (tbl_add_tail t a) ≡ record t { items = t.items ++ a ∷ []; len = incr32 t.len }
unfolding tbl_add_tail
add_tail_room t a h = ground arith

All-nil : (P : ℕ → Type 0) (xs : List ℕ) → length xs ≤ 0 → All P xs
All-nil P [] h = tt
All-nil P (x ∷ xs) h = absurd (omega arith)

-- A state of the loop that began with the nodes `nodes` and the memory `mem`.
pub record Run (links : Tbl LcLink) (bound source : ℕ) (mem : Memory) (nodes : List ℕ) (s : Search)
    : Type 0 where
  pub inv : Inv links.items bound source s.mem s.nodes.items s.settled.items
  pub nodes_counted : IsCounted s.nodes
  pub settled_counted : IsCounted s.settled
  pub total : length s.settled.items + length s.nodes.items ≡ length nodes
  pub settled_max : s.settled.max_len ≡ lc_nodes_max
  pub nodes_max : s.nodes.max_len ≡ lc_nodes_max
  pub same_addr : (p : ℕ) → (s.mem p).addr ≡ (mem p).addr
  pub members : (p : ℕ) → (In p s.nodes.items ⊎ In p s.settled.items) ↔ In p nodes

module _ (links : Tbl LcLink) (bound source : ℕ) (mem : Memory) (nodes : List ℕ)
    (costs : All (λ l. l.cost ≤ bound) links.items) (few : length nodes ≤ lc_nodes_max)
    (fits : length nodes * bound < lc_cost_inf) where
  settle-members :
      (s : Search) (u p : ℕ)
      → In u s.nodes.items
      → (In p (remove_first (λ q. q == u) s.nodes.items) ⊎ In p (s.settled.items ++ u ∷ []))
        ↔ (In p s.nodes.items ⊎ In p s.settled.items)
  settle-members s u p m = ground (
    arith,
    In-remove_first u p s.nodes.items,
    In-remove_first_ne u p s.nodes.items,
    In-append p s.settled.items (u ∷ []),
  )

  -- The state after the body of the loop.
  abbrev settled_state : Search → ℕ → Search
  settled_state s u = record {
    mem = for_each (do_relax u) links.items s.mem;
    nodes = record s.nodes {
      items = remove_first (λ q. q == u) s.nodes.items;
      len = decr32 s.nodes.len;
    };
    settled = record s.settled { items = s.settled.items ++ u ∷ []; len = incr32 s.settled.len };
  }

  settled_state_eq :
      (s : Search) (u : ℕ)
      → In u s.nodes.items
      → s.settled.len < s.settled.max_len
      → settle links s u ≡ settled_state s u
  unfolding settle tbl_do_for_each
  settled_state_eq s u m h = rw (detach_mem s.nodes u m, add_tail_room s.settled u h)

  settle-Run :
      (s : Search) (u : ℕ)
      → Run links bound source mem nodes s
      → In u s.nodes.items
      → ¬ IsInf (s.mem u)
      → All (λ q. IsInf (s.mem q) ⊎ ((s.mem u).cost ≤ (s.mem q).cost)) s.nodes.items
      → Run links bound source mem nodes (settle links s u)
  settle-Run s u r m f c =
      let some_open = length-remove_first_mem u s.nodes.items m in
      let sum : (length s.settled.items + length s.nodes.items) * bound < lc_cost_inf =
        rw r.total fits in
      rw
        (settled_state_eq s u m
          (omega (arith, r.settled_counted, r.settled_max, r.total, some_open)))
        (record {
          inv =
              settle-Inv links.items bound source s.mem s.nodes.items s.settled.items r.inv costs
                sum (omega (arith, r.total)) u m f c;
          nodes_counted = omega (arith, some_open, r.nodes_counted, r.total);
          settled_counted =
              omega (arith, length-append s.settled.items (u ∷ []), r.settled_counted, r.total);
          total = omega (arith, some_open, length-append s.settled.items (u ∷ []), r.total);
          settled_max = r.settled_max;
          nodes_max = r.nodes_max;
          same_addr = λ p.
              (relaxed links.items bound source s.mem s.nodes.items s.settled.items r.inv costs sum
                  (omega (arith, r.total)) u m f c).same_addr
                p
              ∙ r.same_addr p;
          members = λ p. ground (arith, settle-members s u p m, r.members p);
        })

  settle-length :
      (s : Search) (u : ℕ)
      → In u s.nodes.items
      → suc (length (settle links s u).nodes.items) ≡ length s.nodes.items
  unfolding settle
  settle-length s u m = rw (detach_mem s.nodes u m) (length-remove_first_mem u s.nodes.items m)

  -- The loop has ended by its own test: the nodes that are left cannot be reached.
  abbrev pub Ended : Search → Type 0
  Ended s = Run links bound source mem nodes s × All (λ q. IsInf (s.mem q)) s.nodes.items

  -- With as much fuel as there are nodes, the loop ends by its own test.
  pub dijkstra_loop-Run :
      (fuel : ℕ) (s : Search)
      → length s.nodes.items ≤ fuel
      → Run links bound source mem nodes s
      → Ended (dijkstra_loop fuel links s)
  unfolding dijkstra_loop
  dijkstra_loop-Run zero s h r = (r, All-nil _ s.nodes.items h)
  dijkstra_loop-Run (suc fuel) s h r =
      go (dijkstra_loop-Run fuel) (dijkstra_find_lowest_cost_node s.mem s.nodes) refl
        (find-Lowest-Lowest s.mem s.nodes)
    where
      go :
          ((t : Search)
            → length t.nodes.items ≤ fuel
            → Run links bound source mem nodes t
            → Ended (dijkstra_loop fuel links t))
          → (o : Option ℕ) → dijkstra_find_lowest_cost_node s.mem s.nodes ≡ o
          → Lowest s.mem s.nodes.items o
          → Ended (dijkstra_loop (suc fuel) links s)
      go rec none e l = rw (e, dijkstra_loop) (r, l)
      go rec (some u) e (m, f, c) =
          rw (e, dijkstra_loop)
            (rec (settle links s u) (omega (arith, settle-length s u m)) (settle-Run s u r m f c))
