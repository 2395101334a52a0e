-- ===== src/LinkCache/Restore.antt =====
-- link-cache.c: `__dijkstra` puts the settled nodes back into the table of the cache.
use mathlib.Core.List.{append-nil, append_assoc}
use dsr_uu.Base.{
  ℕ, suc, ◌+◌, ◌*◌, ◌≤◌, ◌<◌, ◌≡◌, ◌≢◌, ◌↔◌, inl, inr, refl, List, [], ◌∷◌, ◌++◌, Option, none,
  some, ◌==◌, arith, All, In, In-append, length, length-append, incr32, decr32, sym, ap, ◌∙◌,
  Bool-cases,
}
use dsr_uu.Tbl.{Tbl, find_first, tbl_find, tbl_detach_first}
use dsr_uu.LinkCache.{LcGraph, Memory, lc_cost_inf, lc_nodes_max, crit_addr}
use dsr_uu.LinkCache.Search.{Search, lc_move, dijkstra_loop}
use dsr_uu.LinkCache.Loop.{Ended, dijkstra_loop-Run, add_tail_room}
use dsr_uu.LinkCache.Start.{IsGraph, start_state, start-Run}

lc_move_step :
    (k x : ℕ) (xs : List ℕ) (to from : Tbl ℕ)
    → from.items ≡ x ∷ xs
    → to.len < to.max_len
    → lc_move (suc k) to from
      ≡ lc_move k
          (record to { items = to.items ++ x ∷ []; len = incr32 to.len })
          (record from { items = xs; len = decr32 from.len })
unfolding lc_move tbl_detach_first
lc_move_step k x xs to from e h = rw (e, lc_move, tbl_detach_first) (rw (add_tail_room to x h))

-- The moved elements stand behind those that were there.
lc_move_lem :
    (xs : List ℕ) (to from : Tbl ℕ)
    → from.items ≡ xs
    → to.len ≡ length to.items
    → to.len + length xs ≤ lc_nodes_max
    → to.max_len ≡ lc_nodes_max
    → ((lc_move (length xs) to from).items ≡ to.items ++ xs)
      × ((lc_move (length xs) to from).len ≡ to.len + length xs)
      × ((lc_move (length xs) to from).max_len ≡ lc_nodes_max)
lc_move_lem [] to from e c h w = unfold lc_move in (sym (append-nil to.items), omega arith, w)
lc_move_lem (x ∷ xs) to from e c h w =
    let to' : Tbl ℕ = record to { items = to.items ++ x ∷ []; len = incr32 to.len } in
    let from' : Tbl ℕ = record from { items = xs; len = decr32 from.len } in
    let (items, len, max) =
      lc_move_lem xs to' from' refl (omega (arith, length-append to.items (x ∷ []))) (omega arith)
        w in
    rw (lc_move_step (length xs) x xs to from e (omega arith))
      (items ∙ append_assoc to.items (x ∷ []) xs, omega (arith, len), max)

-- What a search for the node of an address finds.
abbrev pub ListFound : Memory → ℕ → List ℕ → Option ℕ → Type 0
ListFound mem a xs none = All (λ p. (mem p).addr ≢ a) xs
ListFound mem a xs (some p) = In p xs × ((mem p).addr ≡ a)

ListFound-cons :
    (mem : Memory) (a x : ℕ) (xs : List ℕ) (r : Option ℕ)
    → (mem x).addr ≢ a
    → ListFound mem a xs r
    → ListFound mem a (x ∷ xs) r
ListFound-cons mem a x xs none h f = (h, f)
ListFound-cons mem a x xs (some p) h (m, e) = (inr m, e)

find_first-Found :
    (mem : Memory) (a : ℕ) (xs : List ℕ) → ListFound mem a xs (find_first (crit_addr mem a) xs)
unfolding find_first crit_addr
find_first-Found mem a [] = tt
find_first-Found mem a (x ∷ xs) = elim (Bool-cases ((mem x).addr == a)) [
  | inl e ↦ rw e (inl refl, ground arith)
  | inr e ↦ rw e (ListFound-cons mem a x xs _ (ground arith) (find_first-Found mem a xs))
]

pub tbl_find-Found :
    (mem : Memory) (a : ℕ) (t : Tbl ℕ) → ListFound mem a t.items (tbl_find t (crit_addr mem a))
unfolding tbl_find
tbl_find-Found mem a t = find_first-Found mem a t.items

-- What a search leaves in the cache: the same links, nodes and addresses.
pub record SameGraph (lc lc' : LcGraph) : Type 0 where
  pub links : lc'.links ≡ lc.links
  pub addrs : (p : ℕ) → (lc'.mem p).addr ≡ (lc.mem p).addr
  pub members : (p : ℕ) → In p lc'.nodes.items ↔ In p lc.nodes.items
  pub counted : lc'.nodes.len ≡ length lc'.nodes.items
  pub same_len : lc'.nodes.len ≡ lc.nodes.len
  pub max_len : lc'.nodes.max_len ≡ lc_nodes_max

module _ (lc : LcGraph) (g : IsGraph lc) (bound addr source : ℕ)
    (costs : All (λ l. l.cost ≤ bound) lc.links.items)
    (fits : length lc.nodes.items * bound < lc_cost_inf) (m : In source lc.nodes.items)
    (at : (lc.mem source).addr ≡ addr) where
  pub few : length lc.nodes.items ≤ lc_nodes_max
  few = omega (arith, g.nodes_table.counted, g.nodes_table.bounded, g.nodes_max)

  abbrev pub end_state : Search
  end_state =
      dijkstra_loop (length lc.nodes.items) lc.links (start_state lc g bound addr source m at)

  pub end_state-Ended : Ended lc.links bound source lc.mem lc.nodes.items costs few fits end_state
  end_state-Ended =
      dijkstra_loop-Run lc.links bound source lc.mem lc.nodes.items costs few fits
        (length lc.nodes.items) (start_state lc g bound addr source m at) (omega arith)
        (start-Run lc g bound addr source m at)

  abbrev pub restored : Tbl ℕ
  restored = lc_move (length end_state.settled.items) end_state.nodes end_state.settled

  restored_lem :
      (restored.items ≡ end_state.nodes.items ++ end_state.settled.items)
      × (restored.len ≡ end_state.nodes.len + length end_state.settled.items)
      × (restored.max_len ≡ lc_nodes_max)
  restored_lem =
      let r = end_state-Ended.0 in
      lc_move_lem end_state.settled.items end_state.nodes end_state.settled refl r.nodes_counted
        (omega (arith, r.nodes_counted, r.total, few)) r.nodes_max

  -- The graph after a search from the node `source`.
  abbrev pub searched : LcGraph
  searched = record lc { mem = end_state.mem; nodes = restored; src = some source }

  pub searched-SameGraph : SameGraph lc searched
  searched-SameGraph =
      let r = end_state-Ended.0 in
      let (items, len, max) = restored_lem in
      record {
        links = refl;
        addrs = r.same_addr;
        members = λ p. rw items (
          λ h. (r.members p).0 ((In-append p end_state.nodes.items end_state.settled.items).0 h),
          λ h. (In-append p end_state.nodes.items end_state.settled.items).1 ((r.members p).1 h),
        );
        counted = omega (
          arith,
          len,
          ap length items,
          length-append end_state.nodes.items end_state.settled.items,
          r.nodes_counted,
        );
        same_len = omega (arith, len, r.nodes_counted, r.total, g.nodes_table.counted);
        max_len = max;
      }
