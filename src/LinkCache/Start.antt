-- ===== src/LinkCache/Start.antt =====
-- link-cache.c: the graph before a search, and the state in which the loop of `__dijkstra` begins.
use dsr_uu.Base.{
  ℕ, ◌≡◌, ◌≢◌, ◌⊎◌, inl, inr, refl, List, [], ◌∷◌, none, some, ◌==◌, arith, All, In, ◌∙◌,
  if◌then◌else◌,
}
use dsr_uu.Tbl.{Tbl, for_each, tbl_do_for_each, init_tbl}
use dsr_uu.Tbl.Bounds.{IsTbl}
use dsr_uu.LinkCache.{LcNode, LcGraph, Memory, lc_cost_inf, lc_nodes_max}
use dsr_uu.LinkCache.Search.{Search, do_init, dijkstra_init_single_source}
use dsr_uu.LinkCache.Lowest.{IsInf}
use dsr_uu.LinkCache.Invariant.{start}
use dsr_uu.LinkCache.Loop.{Run}

-- The cache is a graph: its links lead between nodes of the table, one for each address.
pub record IsGraph (lc : LcGraph) : Type 0 where
  pub nodes_table : IsTbl lc.nodes
  pub nodes_max : lc.nodes.max_len ≡ lc_nodes_max
  pub ends : All (λ l. In l.src lc.nodes.items × In l.dst lc.nodes.items) lc.links.items
  pub unique :
      (p q : ℕ)
      → In p lc.nodes.items
      → In q lc.nodes.items
      → (lc.mem p).addr ≡ (lc.mem q).addr
      → p ≡ q

-- What `do_init` makes of the node at `p`.
abbrev init_node : ℕ → ℕ → LcNode → LcNode
init_node a p n =
    if n.addr == a
    then record n { cost = 0; hops = 0; pred = some p }
    else record n { cost = lc_cost_inf; hops = lc_cost_inf; pred = none }

init_kept :
    (a p : ℕ) (n : LcNode) (xs : List ℕ) (mem : Memory)
    → mem p ≡ init_node a p n
    → for_each (do_init a) xs mem p ≡ init_node a p n
unfolding for_each do_init
init_kept a p n [] mem e = e
init_kept a p n (x ∷ xs) mem e = init_kept a p n xs (do_init a mem x) (ground arith)

init_done :
    (a p : ℕ) (xs : List ℕ) (mem : Memory)
    → In p xs
    → for_each (do_init a) xs mem p ≡ init_node a p (mem p)
unfolding for_each do_init
init_done a p [] mem m = absurd m
init_done a p (x ∷ xs) mem (inl e) = init_kept a p (mem p) xs (do_init a mem x) (ground arith)
init_done a p (x ∷ xs) mem (inr m) = init_done a p xs (do_init a mem x) m ∙ ground arith

init_addr :
    (a p : ℕ) (xs : List ℕ) (mem : Memory) → (for_each (do_init a) xs mem p).addr ≡ (mem p).addr
unfolding for_each do_init
init_addr a p [] mem = refl
init_addr a p (x ∷ xs) mem = init_addr a p xs (do_init a mem x) ∙ ground arith

pub init_mem_addr :
    (mem : Memory) (t : Tbl ℕ) (a p : ℕ)
    → (dijkstra_init_single_source mem t a p).addr ≡ (mem p).addr
unfolding dijkstra_init_single_source tbl_do_for_each
init_mem_addr mem t a p = init_addr a p t.items mem

-- Where a node has another address than the source, its cost is unknown.
pub init_mem_other :
    (mem : Memory) (t : Tbl ℕ) (a p : ℕ)
    → In p t.items
    → (mem p).addr ≢ a
    → (dijkstra_init_single_source mem t a p).pred ≡ none
unfolding dijkstra_init_single_source tbl_do_for_each
init_mem_other mem t a p m ne = rw (init_done a p t.items mem m) (ground arith)

module _ (lc : LcGraph) (g : IsGraph lc) (bound addr source : ℕ) (m : In source lc.nodes.items)
    (at : (lc.mem source).addr ≡ addr) where
  abbrev pub start_state : Search
  start_state = record {
    mem = dijkstra_init_single_source lc.mem lc.nodes addr;
    nodes = lc.nodes;
    settled = init_tbl lc_nodes_max;
  }

  start_node : (p : ℕ) → In p lc.nodes.items → start_state.mem p ≡ init_node addr p (lc.mem p)
  unfolding dijkstra_init_single_source tbl_do_for_each
  start_node p mp = init_done addr p lc.nodes.items lc.mem mp

  start_cases :
      (p : ℕ)
      → In p lc.nodes.items
      → IsInf (start_state.mem p)
        ⊎ (p ≡ source)
          × ((start_state.mem p).cost ≡ 0)
          × ((start_state.mem p).hops ≡ 0)
          × ((start_state.mem p).pred ≡ some p)
  start_cases p mp = rw (start_node p mp) (ground (arith, g.unique p source mp m))

  source_cost : (start_state.mem source).cost ≡ 0
  source_cost = rw (start_node source m) (ground (arith, at))

  in_nodes :
      (p : ℕ)
      → In p lc.nodes.items ⊎ In p (init_tbl {A = ℕ} lc_nodes_max).items
      → In p lc.nodes.items
  unfolding init_tbl
  in_nodes p (inl mp) = mp
  in_nodes p (inr h) = absurd h

  -- Before the first round the costs are known of the source alone.
  pub start-Run : Run lc.links bound source lc.mem lc.nodes.items start_state
  unfolding init_tbl
  start-Run = record {
    inv = record {
      ordered = λ p q mp mq. absurd mp;
      closed = λ p mp. absurd mp;
      small = λ p mp. elim (start_cases p (in_nodes p mp)) [
        | inl i ↦ inl i
        | inr (e, c, h, r) ↦ inr (omega (arith, c), omega (arith, h))
      ];
      origin = λ p mp. elim (start_cases p (in_nodes p mp)) [
        | inl i ↦ inl i
        | inr (e, c, h, r) ↦ inr (start e c h r)
      ];
      known = λ p mp. absurd mp;
      at_source = source_cost;
    };
    nodes_counted = g.nodes_table.counted;
    settled_counted = refl;
    total = omega arith;
    settled_max = refl;
    nodes_max = g.nodes_max;
    same_addr = λ p.
        unfold dijkstra_init_single_source tbl_do_for_each in
        init_addr addr p lc.nodes.items lc.mem;
    members = λ p. (in_nodes p, inl);
  }
