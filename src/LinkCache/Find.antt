-- ===== src/LinkCache/Find.antt =====
-- link-cache.c: `lc_srt_find` gives a cheapest route of the cache, and gives none only where there
-- is none.
use dsr_uu.Base.{
  ℕ, suc, ◌+◌, ◌*◌, ◌≤◌, ◌<◌, ◌≡◌, ◌≢◌, inl, inr, refl, List, [], ◌∷◌, ◌++◌, Option, none, some,
  arith, All, In, All-In, In-All, length, sym, ap, subst, ◌∙◌, Option-cases, List-cases,
}
use dsr_uu.Tbl.{tbl_find}
use dsr_uu.Srt.{Srt, Garbage}
use dsr_uu.Srt.Route.{nodes, IsSrt}
use dsr_uu.LinkCache.{LcLink, LcGraph, lc_cost_inf, crit_addr}
use dsr_uu.LinkCache.Search.{Search, dijkstra, lc_srt_find, route_to}
use dsr_uu.LinkCache.Lowest.{IsInf}
use dsr_uu.LinkCache.Invariant.{start, via}
use dsr_uu.LinkCache.Start.{IsGraph, init_mem_addr, init_mem_other}
use dsr_uu.LinkCache.Path.{Route, here, addr_of, walk_along}
use dsr_uu.LinkCache.Shortest.{cost-le-walk, pred_addrs-Route, settled_of, Origin-of, small_hops}
use dsr_uu.LinkCache.Restore.{
  ListFound, tbl_find-Found, few, end_state, end_state-Ended, searched, searched-SameGraph,
  restored,
}
use dsr_uu.LinkCache.Answer.{
  Nat-cases, route_to_inf, route_to_no_pred, route_to_found, lc_srt_find_absent,
  lc_srt_find_present, dijkstra_empty, dijkstra_absent, dijkstra_present, init_mem,
}

-- What `lc_srt_find` may give: a route from `src` to `dst` along links of the cache that costs no
-- more than any other, or nothing where no links lead from `src` to `dst`.
abbrev pub IsCheapest : LcGraph → ℕ → ℕ → Option Srt → Type 0
IsCheapest lc src dst none =
    (xs : List ℕ) (c : ℕ) → ¬ Route (addr_of lc) lc.links.items (src ∷ (xs ++ dst ∷ [])) c
IsCheapest lc src dst (some srt) =
    (srt.src ≡ src)
    × (srt.dst ≡ dst)
    × IsSrt srt
    × (c : ℕ) × Route (addr_of lc) lc.links.items (nodes srt) c
    × ((xs : List ℕ) (c' : ℕ)
        → Route (addr_of lc) lc.links.items (src ∷ (xs ++ dst ∷ [])) c'
        → c ≤ c')

-- A route begins at a node of the table.
Route-source :
    (lc : LcGraph) (g : IsGraph lc) (src dst : ℕ) (xs : List ℕ) (c : ℕ)
    → Route (addr_of lc) lc.links.items (src ∷ (xs ++ dst ∷ [])) c
    → (p : ℕ) × In p lc.nodes.items × (addr_of lc p ≡ src)
Route-source lc g src dst [] c (l, at, from, to, c', sum, end) =
    (l.src, (All-In _ lc.links.items l g.ends at).0, from)
Route-source lc g src dst (x ∷ xs) c (l, at, from, to, c', sum, rest) =
    (l.src, (All-In _ lc.links.items l g.ends at).0, from)

module _ (lc : LcGraph) (g : IsGraph lc) (bound src dst : ℕ)
    (costs : All (λ l. l.cost ≤ bound) lc.links.items)
    (fits : length lc.nodes.items * bound < lc_cost_inf) (apart : src ≢ dst) (block : Garbage) where
  no_source : All (λ p. (lc.mem p).addr ≢ src) lc.nodes.items → IsCheapest lc src dst none
  no_source h xs c r =
      let (p, m, e) = Route-source lc g src dst xs c r in
      All-In (λ q. (lc.mem q).addr ≢ src) lc.nodes.items p h m e

  module _ (source : ℕ) (m : In source lc.nodes.items) (at : (lc.mem source).addr ≡ src) where
    abbrev end : Search
    end = end_state lc g bound src source costs fits m at

    -- Every route of addresses ends at a settled node that costs no more.
    reach_dst :
        (xs : List ℕ) (c : ℕ)
        → Route (addr_of lc) lc.links.items (src ∷ (xs ++ dst ∷ [])) c
        → (q : ℕ) × In q lc.nodes.items
          × (addr_of lc q ≡ dst)
          × In q end.settled.items
          × ((end.mem q).cost ≤ c)
    reach_dst xs c r =
        let (q, w, q_in, q_at, sum, walk) =
          walk_along lc g source dst xs src source 0 c m at (here refl refl) r in
        let (done, le) =
          cost-le-walk lc g bound source costs (few lc g bound src source costs fits m at) fits m
            end (end_state-Ended lc g bound src source costs fits m at) walk in
        (q, q_in, q_at, done, omega arith)

    found_IsCheapest :
        (d u : ℕ) (l : LcLink)
        → In d lc.nodes.items
        → addr_of lc d ≡ dst
        → ¬ IsInf (end.mem d)
        → In u end.settled.items
        → In l lc.links.items
        → l.src ≡ u
        → l.dst ≡ d
        → (end.mem d).cost ≡ (end.mem u).cost + l.cost
        → (end.mem d).hops ≡ (end.mem u).hops + 1
        → (end.mem d).pred ≡ some u
        → IsCheapest lc src dst (route_to (some block) end.mem src dst d)
    found_IsCheapest d u l d_in d_at f mu ml from to sum up pr =
        let few' = few lc g bound src source costs fits m at in
        let ended = end_state-Ended lc g bound src source costs fits m at in
        let last : Route (addr_of lc) lc.links.items (addr_of lc u ∷ dst ∷ []) l.cost =
          (l, ml, ap (addr_of lc) from, ap (addr_of lc) to ∙ d_at, 0, omega arith, refl) in
        let (xs, traced, len, route) =
          pred_addrs-Route lc g bound source costs few' fits m end ended (end.mem u).hops
            (suc (end.mem d).hops) u [] dst l.cost mu refl (omega arith) last in
        let le = small_hops lc g bound source costs few' fits m end ended u mu in
        let len' : length xs ≡ (end.mem u).hops = omega (arith, len) in
        rw (route_to_found block end.mem src dst d u xs pr f traced (omega arith)) (
          refl,
          refl,
          record { sized = omega arith; is_word = omega arith },
          (end.mem u).cost + l.cost,
          subst
              (λ a.
                Route (addr_of lc) lc.links.items (a ∷ (xs ++ dst ∷ []))
                  ((end.mem u).cost + l.cost))
              at route,
          λ ys c' r.
              let (q, q_in, q_at, done, low) = reach_dst ys c' r in
              let same : (end.mem q).cost ≡ (end.mem d).cost =
                ap (λ p. (end.mem p).cost) (g.unique q d q_in d_in (q_at ∙ sym d_at)) in
              omega arith,
        )

    route_to-IsCheapest :
        (d : ℕ)
        → In d lc.nodes.items
        → addr_of lc d ≡ dst
        → IsCheapest lc src dst (route_to (some block) end.mem src dst d)
    route_to-IsCheapest d d_in d_at =
        let ended = end_state-Ended lc g bound src source costs fits m at in
        let few' = few lc g bound src source costs fits m at in
        elim (Nat-cases (end.mem d).cost lc_cost_inf) [
          | inl i ↦ rw (route_to_inf block end.mem src dst d i) (λ xs c r.
              let (q, q_in, q_at, done, le) = reach_dst xs c r in
              ended.0.inv.known q done (rw (g.unique q d q_in d_in (q_at ∙ sym d_at)) i))
          | inr f ↦
              elim (Origin-of lc g bound source costs few' fits m end ended d
                (settled_of lc g bound source costs few' fits m end ended d d_in f)) [
                  | start e z hz self ↦ absurd (apart (sym at ∙ ap (addr_of lc) (sym e) ∙ d_at))
                  | via u l mu ml from to sum up pr ↦
                      found_IsCheapest d u l d_in d_at f mu ml from to sum up pr
                ]
        ]

  -- The route is the one of the node that the search found for the destination.
  answer_of :
      (lc' : LcGraph)
      → dijkstra lc src ≡ lc'
      → (All (λ p. (lc'.mem p).addr ≢ dst) lc'.nodes.items → IsCheapest lc src dst none)
      → ((d : ℕ)
          → In d lc'.nodes.items
          → (lc'.mem d).addr ≡ dst
          → IsCheapest lc src dst (route_to (some block) lc'.mem src dst d))
      → IsCheapest lc src dst (lc_srt_find (some block) lc src dst).1
  answer_of lc' e absent present =
      let found = tbl_find-Found lc'.mem dst lc'.nodes in
      elim (Option-cases (tbl_find lc'.nodes (crit_addr lc'.mem dst))) [
        | inl n ↦
            rw (lc_srt_find_absent (some block) lc lc' src dst apart e n)
              (absent (subst (ListFound lc'.mem dst lc'.nodes.items) n found))
        | inr (d, y) ↦
            let (d_in, d_at) = subst (ListFound lc'.mem dst lc'.nodes.items) y found in
            rw (lc_srt_find_present (some block) lc lc' src dst d apart e y) (present d d_in d_at)
      ]

  answer_empty : lc.nodes.items ≡ [] → IsCheapest lc src dst (lc_srt_find (some block) lc src dst).1
  answer_empty e =
      answer_of lc (dijkstra_empty lc src e) (λ h. no_source (rw e tt))
        (λ d d_in at. absurd (subst (In d) e d_in))

  answer_absent :
      {x : ℕ} {xs : List ℕ}
      → lc.nodes.items ≡ x ∷ xs
      → tbl_find lc.nodes (crit_addr (init_mem lc src) src) ≡ none
      → IsCheapest lc src dst (lc_srt_find (some block) lc src dst).1
  answer_absent e n =
      let absent : All (λ p. (lc.mem p).addr ≢ src) lc.nodes.items =
        In-All _ lc.nodes.items (λ p p_in. rw (sym (init_mem_addr lc.mem lc.nodes src p)) (
          All-In (λ q. (init_mem lc src q).addr ≢ src) lc.nodes.items p
            (subst (ListFound (init_mem lc src) src lc.nodes.items) n
              (tbl_find-Found (init_mem lc src) src lc.nodes))
            p_in)) in
      answer_of (record lc { mem = init_mem lc src }) (dijkstra_absent lc src e n)
        (λ h. no_source absent)
        (λ d d_in at.
          rw
            (route_to_no_pred block (init_mem lc src) src dst d
              (init_mem_other lc.mem lc.nodes src d d_in (All-In _ lc.nodes.items d absent d_in)))
            (no_source absent))

  answer_present :
      (source : ℕ) {x : ℕ} {xs : List ℕ}
      → lc.nodes.items ≡ x ∷ xs
      → tbl_find lc.nodes (crit_addr (init_mem lc src) src) ≡ some source
      → IsCheapest lc src dst (lc_srt_find (some block) lc src dst).1
  answer_present source e y =
      let (m, at') =
        subst (ListFound (init_mem lc src) src lc.nodes.items) y
          (tbl_find-Found (init_mem lc src) src lc.nodes) in
      let at = sym (init_mem_addr lc.mem lc.nodes src source) ∙ at' in
      let same = searched-SameGraph lc g bound src source costs fits m at in
      answer_of (searched lc g bound src source costs fits m at)
        (dijkstra_present lc g bound src source costs fits m at e y)
        (λ h xs c r.
          let (q, q_in, q_at, done, le) = reach_dst source m at xs c r in
          All-In _ (restored lc g bound src source costs fits m at).items q h
            ((same.members q).1 q_in) (same.addrs q ∙ q_at))
        (λ d d_in d_at.
          route_to-IsCheapest source m at d ((same.members d).0 d_in) (sym (same.addrs d) ∙ d_at))

  -- Where the cache is a graph, no link costs more than a bound whose product with the number of
  -- nodes is below LC_COST_INF, source and destination differ and memory suffices, `lc_srt_find`
  -- gives a route along links of the cache from the source to the destination that costs no more
  -- than any other such route, and gives none only where no links lead there.
  pub lc_srt_find-IsCheapest : IsCheapest lc src dst (lc_srt_find (some block) lc src dst).1
  lc_srt_find-IsCheapest = elim (List-cases lc.nodes.items) [
    | inl e ↦ answer_empty e
    | inr (x, xs, e) ↦ elim (Option-cases (tbl_find lc.nodes (crit_addr (init_mem lc src) src))) [
      | inl n ↦ answer_absent e n
      | inr (source, y) ↦ answer_present source e y
    ]
  ]
