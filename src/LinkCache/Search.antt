-- ===== src/LinkCache/Search.antt =====
-- link-cache.c: `__dijkstra`, `lc_srt_find` and `lc_srt_add`. Each `while` loop takes fuel.
use dsr_uu.Base.{
  ℕ, zero, suc, ◌+◌, ◌-◌, ◌*◌, ◌%◌, Bool, not, ◌&&◌, List, [], ◌∷◌, Option, none, some, ltb, ◌==◌,
  if◌then◌else◌, incr32, u32_mod, length,
}
use dsr_uu.Tbl.{
  Tbl, init_tbl, tbl_empty, tbl_add_tail, unless_full, tbl_find, tbl_detach, tbl_detach_first,
  tbl_do_for_each,
}
use dsr_uu.Srt.{Srt, Garbage}
use dsr_uu.LinkCache.{
  LcLink, LcGraph, Memory, LinkInfo, Blocks, update, lc_cost_inf, lc_nodes_max, crit_addr,
  lc_link_add,
}

unfoldable pub do_init : ℕ → Memory → ℕ → Memory
do_init addr mem p = update mem p (
    if (mem p).addr == addr
    then record (mem p) { cost = 0; hops = 0; pred = some p }
    else record (mem p) { cost = lc_cost_inf; hops = lc_cost_inf; pred = none })

unfoldable pub do_lowest_cost : Memory → Option ℕ → ℕ → Option ℕ
do_lowest_cost mem none p = if (mem p).cost == lc_cost_inf then none else some p
do_lowest_cost mem (some n) p =
    if not ((mem p).cost == lc_cost_inf) && ltb (mem p).cost (mem n).cost then some p else some n

unfoldable pub do_relax : ℕ → Memory → LcLink → Memory
do_relax u mem link =
    if link.src == u
    then (let cost = ((mem u).cost + link.cost) % u32_mod in
        if ltb cost (mem link.dst).cost
        then update mem link.dst
            (record (mem link.dst) { cost = cost; hops = incr32 (mem u).hops; pred = some u })
        else mem)
    else mem

unfoldable pub dijkstra_init_single_source : Memory → Tbl ℕ → ℕ → Memory
unfolding do_init
dijkstra_init_single_source mem t src = tbl_do_for_each t (do_init src) mem

unfoldable pub dijkstra_find_lowest_cost_node : Memory → Tbl ℕ → Option ℕ
unfolding do_lowest_cost
dijkstra_find_lowest_cost_node mem t = tbl_do_for_each t (do_lowest_cost mem) none

-- The variables of the loop: the memory, the nodes still in the cache's table, and the table S.
pub record Search : Type 0 where
  pub mem : Memory
  pub nodes : Tbl ℕ
  pub settled : Tbl ℕ

-- The body of the loop, for the node that was found.
unfoldable pub settle : Tbl LcLink → Search → ℕ → Search
unfolding do_relax
settle links s u = record {
  nodes = tbl_detach s.nodes (λ p. p == u);
  settled = unless_full s.settled (tbl_add_tail s.settled u);
  mem = tbl_do_for_each links (do_relax u) s.mem;
}

unfoldable pub dijkstra_loop : ℕ → Tbl LcLink → Search → Search
dijkstra_loop zero links s = s
dijkstra_loop (suc fuel) links s = elim (dijkstra_find_lowest_cost_node s.mem s.nodes) [
  | none ↦ s
  | some u ↦ dijkstra_loop fuel links (settle links s u)
]

-- `__lc_move`, with the number of elements of `from` as the fuel.
unfoldable pub lc_move : ℕ → Tbl ℕ → Tbl ℕ → Tbl ℕ
lc_move zero to from = to
lc_move (suc fuel) to from = elim (tbl_detach_first from) [
  | none ↦ to
  | some (n, from') ↦ lc_move fuel (unless_full to (tbl_add_tail to n)) from'
]

unfoldable pub dijkstra : LcGraph → ℕ → LcGraph
unfolding dijkstra_init_single_source dijkstra_find_lowest_cost_node settle dijkstra_loop lc_move
    crit_addr
dijkstra lc src =
    if tbl_empty lc.nodes
    then lc
    else (let mem = dijkstra_init_single_source lc.mem lc.nodes src in
        elim (tbl_find lc.nodes (crit_addr mem src)) [
          | none ↦ record lc { mem = mem }
          | some src_node ↦
              let end =
                dijkstra_loop (length lc.nodes.items) lc.links
                  (record { mem = mem; nodes = lc.nodes; settled = init_tbl lc_nodes_max }) in
              record lc {
                mem = end.mem;
                nodes = lc_move (length end.settled.items) end.nodes end.settled;
                src = some src_node;
              }
        ])

-- The loop of `lc_srt_find` back along the predecessors, from `n` on: the addresses that it writes,
-- those before `acc` in the array. `none` where it follows a null pointer or runs out of fuel.
unfoldable pub pred_addrs : ℕ → Memory → ℕ → List ℕ → Option (List ℕ)
pred_addrs zero mem n acc = none
pred_addrs (suc fuel) mem n acc = elim (mem n).pred [
  | none ↦ none
  | some p ↦ if n == p then some acc else pred_addrs fuel mem p ((mem n).addr ∷ acc)
]

-- The route that the search left behind for the node at `d`.
unfoldable pub route_to : Option Garbage → Memory → ℕ → ℕ → ℕ → Option Srt
unfolding pred_addrs
route_to block mem src dst d = elim (mem d).pred [
  | none ↦ none
  | some p ↦ if (mem d).cost == lc_cost_inf then none else elim block [
    | none ↦ none
    | some m ↦ elim (pred_addrs (suc (mem d).hops) mem p []) [
      | none ↦ none
      | some addrs ↦
          if length addrs + 1 == (mem d).hops
          then some (record {
            src = src;
            dst = dst;
            flags = m.flags;
            index = m.index;
            laddrs = 4 * ((mem d).hops - 1) % u32_mod;
            addrs = addrs;
          })
          else none
    ]
  ]
]

unfoldable pub lc_srt_find : Option Garbage → LcGraph → ℕ → ℕ → LcGraph × Option Srt
unfolding route_to
lc_srt_find block lc src dst =
    if src == dst
    then (lc, none)
    else (let lc' = dijkstra lc src in
        elim (tbl_find lc'.nodes (crit_addr lc'.mem dst)) [
          | none ↦ (lc', none)
          | some d ↦ (lc', route_to block lc'.mem src dst d)
        ])

-- One hop of a route, in both directions if the route says so: the graph and the count of links.
unfoldable pub lc_hop_add : (ℕ → Blocks) → LinkInfo → Bool → LcGraph → ℕ → ℕ → ℕ → LcGraph × ℕ
lc_hop_add new info bidir lc links addr1 addr2 =
    let lc1 = (lc_link_add (new links) lc addr1 addr2 info).0 in
    if bidir
    then ((lc_link_add (new (links + 1)) lc1 addr2 addr1 info).0, links + 2)
    else (lc1, links + 1)

-- The loop over the addresses and the last hop behind it.
unfoldable pub lc_hops_add :
    (ℕ → Blocks) → LinkInfo → Bool → LcGraph → ℕ → ℕ → List ℕ → ℕ → LcGraph × ℕ
unfolding lc_hop_add
lc_hops_add new info bidir lc links addr1 [] dst = lc_hop_add new info bidir lc links addr1 dst
lc_hops_add new info bidir lc links addr1 (addr2 ∷ rest) dst =
    let (lc', links') = lc_hop_add new info bidir lc links addr1 addr2 in
    lc_hops_add new info bidir lc' links' addr2 rest dst

-- `new` gives the blocks for each call of `__lc_link_add`; the `flags` argument is not read.
-- The result is `none` for -1.
unfoldable pub lc_srt_add : (ℕ → Blocks) → LcGraph → Option Srt → LinkInfo → LcGraph × Option ℕ
unfolding lc_hops_add
lc_srt_add new lc none info = (lc, none)
lc_srt_add new lc (some srt) info =
    let hop = record info { status = 0; cost = 1 } in
    let (lc', links) = lc_hops_add new hop (srt.flags % 2 == 1) lc 0 srt.src srt.addrs srt.dst in
    (lc', some links)
