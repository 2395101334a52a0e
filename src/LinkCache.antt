-- ===== src/LinkCache.antt =====
-- link-cache.c: the link cache, a graph of nodes and links with its shortest-path search.
-- A node is known by its address in memory; `mem` gives what stands there. `kmalloc` enters as the
-- pointers that it returns, and the time as an argument. LC_TIMER is not defined, as in the source.
pub mod Search
pub mod Relax
pub mod Lowest
pub mod Invariant
pub mod Loop
pub mod Start
pub mod Path
pub mod Shortest
pub mod Restore
pub mod Answer
pub mod Find
pub mod Again
pub mod Tests
use dsr_uu.Base.{
  ℕ, Bool, true, false, ◌&&◌, Option, none, some, ◌==◌, if◌then◌else◌, incr32, decr32,
}
use dsr_uu.Timer.{Timeval, timeval_add_usecs}
use dsr_uu.Tbl.{
  Tbl, init_tbl, tbl_add_tail, unless_full, tbl_find, tbl_detach, tbl_find_do, tbl_flush,
}

abbrev pub lc_nodes_max : ℕ
lc_nodes_max = 500

abbrev pub lc_links_max : ℕ
lc_links_max = 100

abbrev pub lc_cost_inf : ℕ
lc_cost_inf = 4294967295

pub record LcNode : Type 0 where
  pub addr : ℕ
  pub links : ℕ
  pub cost : ℕ
  pub hops : ℕ
  pub pred : Option ℕ

pub record LcLink : Type 0 where
  pub src : ℕ
  pub dst : ℕ
  pub status : ℕ
  pub cost : ℕ
  pub expires : Timeval

abbrev pub Memory : Type 0
Memory = ℕ → LcNode

abbrev pub update : Memory → ℕ → LcNode → Memory
update mem p n q = if p == q then n else mem q

-- `struct lc_graph`, with the memory that its pointers lead to.
pub record LcGraph : Type 0 where
  pub mem : Memory
  pub nodes : Tbl ℕ
  pub links : Tbl LcLink
  pub src : Option ℕ

unfoldable pub crit_addr : Memory → ℕ → ℕ → Bool
crit_addr mem addr p = (mem p).addr == addr

unfoldable pub crit_link_query : Memory → ℕ → ℕ → LcLink → Bool
crit_link_query mem src dst l = (mem l.src).addr == src && (mem l.dst).addr == dst

unfoldable pub lc_node_create : Memory → ℕ → ℕ → Memory
lc_node_create mem p addr =
    update mem p (record { addr = addr; links = 0; cost = lc_cost_inf; hops = 0; pred = none })

unfoldable pub lc_link_find : LcGraph → ℕ → ℕ → Option LcLink
unfolding crit_link_query
lc_link_find lc src dst = tbl_find lc.links (crit_link_query lc.mem src dst)

-- `links` of the node at `p`, changed.
abbrev pub set_links : Memory → ℕ → ℕ → Memory
set_links mem p n = update mem p (record (mem p) { links = n })

-- The two counters, one after the other: both belong to one node where a link leads back to it.
unfoldable pub count_link : Memory → ℕ → ℕ → Memory
count_link mem sn dn =
    let mem' = set_links mem sn (incr32 (mem sn).links) in
    set_links mem' dn (incr32 (mem' dn).links)

-- What the caller says about a link, and the time at which it does.
pub record LinkInfo : Type 0 where
  pub now : Timeval
  pub timeout : ℕ
  pub status : ℕ
  pub cost : ℕ

abbrev pub fill_link : LinkInfo → LcLink → LcLink
fill_link info l = record {
  src = l.src;
  dst = l.dst;
  status = info.status;
  cost = info.cost;
  expires = timeval_add_usecs info.now info.timeout;
}

abbrev pub new_link : LinkInfo → ℕ → ℕ → LcLink
new_link info sn dn = record {
  src = sn;
  dst = dn;
  status = info.status;
  cost = info.cost;
  expires = timeval_add_usecs info.now info.timeout;
}

-- The result is `none` for -1. A link that finds no room is lost, and counted in its nodes.
unfoldable pub lc_link_tbl_add : Bool → LcGraph → ℕ → ℕ → LinkInfo → LcGraph × Option ℕ
unfolding count_link crit_link_query lc_link_find
lc_link_tbl_add room lc sn dn info = elim (lc_link_find lc (lc.mem sn).addr (lc.mem dn).addr) [
  | none ↦
      if room
      then (
        record lc {
          mem = count_link lc.mem sn dn;
          links = unless_full lc.links (tbl_add_tail lc.links (new_link info sn dn));
        },
        some 1,
      )
      else (lc, none)
  | some _ ↦ (
    record lc {
      links =
          (tbl_find_do lc.links (λ l.
            if crit_link_query lc.mem (lc.mem sn).addr (lc.mem dn).addr l
            then some (fill_link info l)
            else none)).0;
    },
    some 0,
  )
]

-- The node of an address, made if there is none: `none` where memory is short.
unfoldable pub lc_node_get : LcGraph → ℕ → Option ℕ → LcGraph × Option ℕ
unfolding crit_addr lc_node_create
lc_node_get lc addr new = elim (tbl_find lc.nodes (crit_addr lc.mem addr)) [
  | some p ↦ (lc, some p)
  | none ↦ elim new [
    | none ↦ (lc, none)
    | some p ↦ (
      record lc {
        mem = lc_node_create lc.mem p addr;
        nodes = unless_full lc.nodes (tbl_add_tail lc.nodes p);
      },
      some p,
    )
  ]
]

-- What `kmalloc` returns for the source, the destination and the link.
pub record Blocks : Type 0 where
  pub src_node : Option ℕ
  pub dst_node : Option ℕ
  pub link : Bool

-- The result is `true` for 0 and `false` for -1.
unfoldable pub lc_link_add : Blocks → LcGraph → ℕ → ℕ → LinkInfo → LcGraph × Bool
unfolding lc_node_get lc_link_tbl_add
lc_link_add new lc src dst info =
    let (lc1, sn?) = lc_node_get lc src new.src_node in
    elim sn? [
      | none ↦ (lc1, false)
      | some sn ↦
          let (lc2, dn?) = lc_node_get lc1 dst new.dst_node in
          elim dn? [
            | none ↦ (lc2, false)
            | some dn ↦ ((lc_link_tbl_add new.link lc2 sn dn info).0, true)
          ]
    ]

-- One of the two node counters goes down; a node without links leaves the table.
unfoldable pub release_node : LcGraph → ℕ → LcGraph
release_node lc p =
    let left = decr32 (lc.mem p).links in
    record lc {
      mem = set_links lc.mem p left;
      nodes = if left == 0 then tbl_detach lc.nodes (λ q. q == p) else lc.nodes;
    }

-- `is` tells the link `l` of the table from the others.
unfoldable pub lc_unlink : LcGraph → LcLink → (LcLink → Bool) → LcGraph
unfolding release_node
lc_unlink lc l is =
    let lc' = release_node (release_node lc l.src) l.dst in
    record lc' { links = tbl_detach lc'.links is }

-- The result is `true` for 1 and `false` for -1.
unfoldable pub lc_link_del : LcGraph → ℕ → ℕ → LcGraph × Bool
unfolding lc_link_find crit_link_query lc_unlink
lc_link_del lc src dst = elim (lc_link_find lc src dst) [
  | none ↦ (record lc { src = none }, false)
  | some l ↦
      let lc' = lc_unlink lc l (crit_link_query lc.mem src dst) in
      elim (lc_link_find lc' dst src) [
        | none ↦ (record lc' { src = none }, false)
        | some l' ↦
            (record (lc_unlink lc' l' (crit_link_query lc'.mem dst src)) { src = none }, true)
      ]
]

unfoldable pub lc_flush : LcGraph → LcGraph
lc_flush lc = record lc { links = tbl_flush lc.links; nodes = tbl_flush lc.nodes; src = none }

unfoldable pub lc_init : Memory → LcGraph
lc_init mem = record {
  mem = mem;
  links = init_tbl lc_links_max;
  nodes = init_tbl lc_nodes_max;
  src = none;
}
