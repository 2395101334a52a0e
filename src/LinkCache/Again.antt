-- ===== src/LinkCache/Again.antt =====
-- link-cache.c: the cache after `lc_srt_find` is the graph that it was, so that the next search
-- gives the answers of the first.
use dsr_uu.Base.{
  ℕ, ◌*◌, ◌≤◌, ◌<◌, ◌≡◌, ◌≢◌, inl, inr, refl, Option, none, some, arith, All, All-In, In-All,
  length, sym, subst, ◌∙◌, Option-cases, List-cases,
}
use dsr_uu.Tbl.{tbl_find}
use dsr_uu.Srt.{Srt, Garbage}
use dsr_uu.LinkCache.{LcGraph, lc_cost_inf, crit_addr}
use dsr_uu.LinkCache.Search.{dijkstra, lc_srt_find}
use dsr_uu.LinkCache.Start.{IsGraph, init_mem_addr}
use dsr_uu.LinkCache.Path.{addr_of}
use dsr_uu.LinkCache.Restore.{ListFound, tbl_find-Found, SameGraph, searched, searched-SameGraph}
use dsr_uu.LinkCache.Answer.{
  init_mem, lc_srt_find_absent, lc_srt_find_present, dijkstra_empty, dijkstra_absent,
  dijkstra_present,
}
use dsr_uu.LinkCache.Find.{IsCheapest}

-- The same links between the same addresses, and still a graph.
pub record Kept (lc lc' : LcGraph) : Type 0 where
  pub links : lc'.links ≡ lc.links
  pub addrs : addr_of lc' ≡ addr_of lc
  pub count : length lc'.nodes.items ≡ length lc.nodes.items
  pub graph : IsGraph lc'

pub Kept-refl : (lc : LcGraph) → IsGraph lc → Kept lc lc
Kept-refl lc g = record { links = refl; addrs = refl; count = refl; graph = g }

pub Kept-trans : (lc lc' lc'' : LcGraph) → Kept lc lc' → Kept lc' lc'' → Kept lc lc''
Kept-trans lc lc' lc'' k k' = record {
  links = k'.links ∙ k.links;
  addrs = k'.addrs ∙ k.addrs;
  count = k'.count ∙ k.count;
  graph = k'.graph;
}

-- An answer from the cache is one from the cache that it was.
pub Kept-IsCheapest :
    (lc lc' : LcGraph) (src dst : ℕ) (r : Option Srt)
    → Kept lc lc'
    → IsCheapest lc' src dst r
    → IsCheapest lc src dst r
Kept-IsCheapest lc lc' src dst none k h = rw (sym k.links, sym k.addrs) h
Kept-IsCheapest lc lc' src dst (some srt) k h = rw (sym k.links, sym k.addrs) h

module _ (lc : LcGraph) (g : IsGraph lc) where
  same-Kept : (lc' : LcGraph) → SameGraph lc lc' → Kept lc lc'
  same-Kept lc' s =
      let size : length lc'.nodes.items ≡ length lc.nodes.items =
        omega (arith, s.counted, s.same_len, g.nodes_table.counted) in
      record {
        links = s.links;
        addrs = λ i p. s.addrs p i;
        count = size;
        graph = record {
          nodes_table = record {
            counted = s.counted;
            bounded = omega (arith, s.same_len, s.max_len, g.nodes_table.bounded, g.nodes_max);
            is_word = omega (arith, s.max_len, g.nodes_max, g.nodes_table.is_word);
          };
          nodes_max = s.max_len;
          ends = rw s.links (
              In-All _ lc.links.items (λ l m.
                let (from, to) = All-In _ lc.links.items l g.ends m in
                ((s.members l.src).1 from, (s.members l.dst).1 to)));
          unique = λ p q m n e.
              g.unique p q ((s.members p).0 m) ((s.members q).0 n)
                (sym (s.addrs p) ∙ e ∙ s.addrs q);
        };
      }

  init-Kept : (src : ℕ) → Kept lc (record lc { mem = init_mem lc src })
  init-Kept src = record {
    links = refl;
    addrs = λ i p. init_mem_addr lc.mem lc.nodes src p i;
    count = refl;
    graph = record {
      nodes_table = g.nodes_table;
      nodes_max = g.nodes_max;
      ends = g.ends;
      unique = λ p q m n e.
          g.unique p q m n
            (sym (init_mem_addr lc.mem lc.nodes src p) ∙ e ∙ init_mem_addr lc.mem lc.nodes src q);
    };
  }

  module _ (bound : ℕ) (costs : All (λ l. l.cost ≤ bound) lc.links.items)
      (fits : length lc.nodes.items * bound < lc_cost_inf) where
    pub dijkstra-Kept : (src : ℕ) → Kept lc (dijkstra lc src)
    dijkstra-Kept src = elim (List-cases lc.nodes.items) [
      | inl e ↦ rw (dijkstra_empty lc src e) (Kept-refl lc g)
      | inr (x, xs, e) ↦ elim (Option-cases (tbl_find lc.nodes (crit_addr (init_mem lc src) src))) [
        | inl n ↦ rw (dijkstra_absent lc src e n) (init-Kept src)
        | inr (source, y) ↦
            let (m, at') =
              subst (ListFound (init_mem lc src) src lc.nodes.items) y
                (tbl_find-Found (init_mem lc src) src lc.nodes) in
            let at = sym (init_mem_addr lc.mem lc.nodes src source) ∙ at' in
            rw (dijkstra_present lc g bound src source costs fits m at e y) (
              same-Kept (searched lc g bound src source costs fits m at)
                (searched-SameGraph lc g bound src source costs fits m at))
      ]
    ]

    -- Where the cache is a graph and the costs of its links, each at most a bound, cannot sum up to
    -- LC_COST_INF, a search between different addresses leaves the cache a graph with the same links
    -- between the same addresses and as many nodes, whether memory suffices or not.
    pub lc_srt_find-Kept :
        (block : Option Garbage) (src dst : ℕ)
        → src ≢ dst
        → Kept lc (lc_srt_find block lc src dst).0
    lc_srt_find-Kept block src dst apart =
        let lc' = dijkstra lc src in
        elim (Option-cases (tbl_find lc'.nodes (crit_addr lc'.mem dst))) [
          | inl n ↦ rw (lc_srt_find_absent block lc lc' src dst apart refl n) (dijkstra-Kept src)
          | inr (d, y) ↦
              rw (lc_srt_find_present block lc lc' src dst d apart refl y) (dijkstra-Kept src)
        ]
