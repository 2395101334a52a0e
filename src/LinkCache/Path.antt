-- ===== src/LinkCache/Path.antt =====
-- The paths of the link cache, by addresses and by nodes: what the search is held to.
use dsr_uu.Base.{ℕ, ◌+◌, ◌≡◌, ◌∙◌, sym, refl, List, [], ◌∷◌, ◌++◌, arith, In, All-In}
use dsr_uu.LinkCache.{LcLink, LcGraph}
use dsr_uu.LinkCache.Start.{IsGraph}

-- Links lead from each address to the next, and their costs sum up to `c`.
abbrev pub Route : (ℕ → ℕ) → List LcLink → List ℕ → ℕ → Type 0
Route addr links [] c = ⊥
Route addr links (a ∷ []) c = c ≡ 0
Route addr links (a ∷ b ∷ rest) c =
    (l : LcLink) × In l links
    × (addr l.src ≡ a)
    × (addr l.dst ≡ b)
    × (c' : ℕ) × (c ≡ l.cost + c')
    × Route addr links (b ∷ rest) c'

-- The same from node to node: a walk of cost `c` from `source` to `p`.
pub data Walk (links : List LcLink) (source : ℕ) : ℕ → ℕ → Type 0 where
  here : {p c : ℕ} → p ≡ source → c ≡ 0 → Walk links source p c
  step :
      {p c : ℕ} (u d : ℕ) (l : LcLink)
      → Walk links source u d
      → In l links
      → l.src ≡ u
      → p ≡ l.dst
      → c ≡ d + l.cost
      → Walk links source p c

abbrev pub addr_of : LcGraph → ℕ → ℕ
addr_of lc p = (lc.mem p).addr

module _ (lc : LcGraph) (g : IsGraph lc) (source b : ℕ) where
  -- What a route of addresses reaches, a walk reaches.
  pub walk_along :
      (xs : List ℕ) (a p d c : ℕ)
      → In p lc.nodes.items
      → addr_of lc p ≡ a
      → Walk lc.links.items source p d
      → Route (addr_of lc) lc.links.items (a ∷ (xs ++ b ∷ [])) c
      → (q w : ℕ) × In q lc.nodes.items
        × (addr_of lc q ≡ b)
        × (w ≡ d + c)
        × Walk lc.links.items source q w
  walk_along [] a p d c m e w (l, at, from, to, c', sum, end) =
      let (src_in, dst_in) = All-In _ lc.links.items l g.ends at in
      (
        l.dst,
        d + l.cost,
        dst_in,
        to,
        omega arith,
        step p d l w at (g.unique l.src p src_in m (from ∙ sym e)) refl refl,
      )
  walk_along (x ∷ xs) a p d c m e w (l, at, from, to, c', sum, rest) =
      let (src_in, dst_in) = All-In _ lc.links.items l g.ends at in
      let (q, w', q_in, q_at, q_sum, walk) =
        walk_along xs x l.dst (d + l.cost) c' dst_in to
          (step p d l w at (g.unique l.src p src_in m (from ∙ sym e)) refl refl) rest in
      (q, w', q_in, q_at, omega arith, walk)
