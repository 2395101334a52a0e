-- ===== src/LinkCache/Answer.antt =====
-- link-cache.c: what `__dijkstra` and `lc_srt_find` compute, case by case.
use dsr_uu.Base.{
  ℕ, suc, ◌+◌, ◌-◌, ◌*◌, ◌%◌, ◌≤◌, ◌<◌, ◌≡◌, ◌≢◌, ◌⊎◌, inl, inr, refl, List, [], ◌∷◌, Option, none,
  some, false, ◌==◌, arith, All, In, length, u32_mod, Bool-cases, Option-cases,
}
use dsr_uu.Tbl.{Tbl, tbl_find, tbl_empty}
use dsr_uu.Srt.{Srt, Garbage}
use dsr_uu.LinkCache.{LcNode, LcGraph, Memory, lc_cost_inf, crit_addr}
use dsr_uu.LinkCache.Search.{
  dijkstra, dijkstra_init_single_source, lc_srt_find, route_to, pred_addrs,
}
use dsr_uu.LinkCache.Lowest.{IsInf}
use dsr_uu.LinkCache.Start.{IsGraph}
use dsr_uu.LinkCache.Restore.{searched}

pub Nat-cases : (a b : ℕ) → (a ≡ b) ⊎ (a ≢ b)
Nat-cases a b = elim (Bool-cases (a == b)) [
  | inl e ↦ inl (ground arith)
  | inr e ↦ inr (ground arith)
]

-- The route that `lc_srt_find` builds from the addresses that it writes.
abbrev pub found_srt : Garbage → LcNode → ℕ → ℕ → List ℕ → Srt
found_srt block n src dst addrs = record {
  src = src;
  dst = dst;
  flags = block.flags;
  index = block.index;
  laddrs = 4 * (n.hops - 1) % u32_mod;
  addrs = addrs;
}

pub route_to_inf :
    (block : Garbage) (mem : Memory) (src dst d : ℕ)
    → IsInf (mem d)
    → route_to (some block) mem src dst d ≡ none
unfolding route_to
route_to_inf block mem src dst d i = elim (Option-cases (mem d).pred) [
  | inl e ↦ rw (e, route_to) refl
  | inr (p, e) ↦ rw (e, route_to) (ground (arith, i))
]

pub route_to_no_pred :
    (block : Garbage) (mem : Memory) (src dst d : ℕ)
    → (mem d).pred ≡ none
    → route_to (some block) mem src dst d ≡ none
unfolding route_to
route_to_no_pred block mem src dst d e = rw (e, route_to) refl

pub route_to_found :
    (block : Garbage) (mem : Memory) (src dst d u : ℕ) (xs : List ℕ)
    → (mem d).pred ≡ some u
    → ¬ IsInf (mem d)
    → pred_addrs (suc (mem d).hops) mem u [] ≡ some xs
    → length xs + 1 ≡ (mem d).hops
    → route_to (some block) mem src dst d ≡ some (found_srt block (mem d) src dst xs)
unfolding route_to
route_to_found block mem src dst d u xs pr f e len =
    rw (pr, route_to) (rw e (ground (arith, f, len)))

-- The memory in which the search looks for its source.
abbrev pub init_mem : LcGraph → ℕ → Memory
init_mem lc src = dijkstra_init_single_source lc.mem lc.nodes src

pub lc_srt_find_absent :
    (block : Option Garbage) (lc lc' : LcGraph) (src dst : ℕ)
    → src ≢ dst
    → dijkstra lc src ≡ lc'
    → tbl_find lc'.nodes (crit_addr lc'.mem dst) ≡ none
    → lc_srt_find block lc src dst ≡ (lc', none)
unfolding lc_srt_find
lc_srt_find_absent block lc lc' src dst apart e n =
    rw (e, lc_srt_find) (rw (n, lc_srt_find) (ground (arith, apart)))

pub lc_srt_find_present :
    (block : Option Garbage) (lc lc' : LcGraph) (src dst d : ℕ)
    → src ≢ dst
    → dijkstra lc src ≡ lc'
    → tbl_find lc'.nodes (crit_addr lc'.mem dst) ≡ some d
    → lc_srt_find block lc src dst ≡ (lc', route_to block lc'.mem src dst d)
unfolding lc_srt_find
lc_srt_find_present block lc lc' src dst d apart e y =
    rw (e, lc_srt_find) (rw (y, lc_srt_find) (ground (arith, apart)))

pub dijkstra_empty : (lc : LcGraph) (src : ℕ) → lc.nodes.items ≡ [] → dijkstra lc src ≡ lc
unfolding dijkstra tbl_empty
dijkstra_empty lc src e = rw (e, dijkstra, tbl_empty) refl

not_empty : (t : Tbl ℕ) {x : ℕ} {xs : List ℕ} → t.items ≡ x ∷ xs → tbl_empty t ≡ false
unfolding tbl_empty
not_empty t e = rw (e, tbl_empty) refl

pub dijkstra_absent :
    (lc : LcGraph) (src : ℕ) {x : ℕ} {xs : List ℕ}
    → lc.nodes.items ≡ x ∷ xs
    → tbl_find lc.nodes (crit_addr (init_mem lc src) src) ≡ none
    → dijkstra lc src ≡ record lc { mem = init_mem lc src }
unfolding dijkstra
dijkstra_absent lc src e n = rw (not_empty lc.nodes e, dijkstra) (rw (n, dijkstra) refl)

pub dijkstra_present :
    (lc : LcGraph) (g : IsGraph lc) (bound src source : ℕ)
    (costs : All (λ l. l.cost ≤ bound) lc.links.items)
    (fits : length lc.nodes.items * bound < lc_cost_inf) (m : In source lc.nodes.items)
    (at : (lc.mem source).addr ≡ src) {x : ℕ} {xs : List ℕ}
    → lc.nodes.items ≡ x ∷ xs
    → tbl_find lc.nodes (crit_addr (init_mem lc src) src) ≡ some source
    → dijkstra lc src ≡ searched lc g bound src source costs fits m at
unfolding dijkstra
dijkstra_present lc g bound src source costs fits m at e y =
    rw (not_empty lc.nodes e, dijkstra) (rw (y, dijkstra) refl)
