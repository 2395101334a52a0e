-- ===== src/LinkCache/Lowest.antt =====
-- link-cache.c: the node that `__dijkstra_find_lowest_cost_node` finds, and a table without it.
use dsr_uu.Base.{
  ℕ, suc, ◌≤◌, ◌≡◌, ◌⊎◌, inl, inr, refl, not, ◌&&◌, List, [], ◌∷◌, Option, none, some, ltb, ◌==◌,
  arith, All, In, length, Bool-cases,
}
use dsr_uu.Tbl.{Tbl, for_each, remove_first, tbl_do_for_each}
use dsr_uu.LinkCache.{LcNode, Memory, lc_cost_inf}
use dsr_uu.LinkCache.Search.{do_lowest_cost, dijkstra_find_lowest_cost_node}

-- The cost of a node, once it is known.
abbrev pub IsInf : LcNode → Type 0
IsInf n = n.cost ≡ lc_cost_inf

-- No node of the list is known to be cheaper than `u`.
abbrev pub Cheapest : Memory → ℕ → List ℕ → Type 0
Cheapest mem u = All (λ q. IsInf (mem q) ⊎ ((mem u).cost ≤ (mem q).cost))

Cheapest-mono :
    (mem : Memory) (u v : ℕ) (xs : List ℕ)
    → (mem u).cost ≤ (mem v).cost
    → Cheapest mem v xs
    → Cheapest mem u xs
Cheapest-mono mem u v [] h c = tt
Cheapest-mono mem u v (x ∷ xs) h c = (ground arith, Cheapest-mono mem u v xs h c.1)

abbrev LowestFrom : Memory → List ℕ → Option ℕ → Option ℕ → Type 0
LowestFrom mem xs none none = All (λ q. IsInf (mem q)) xs
LowestFrom mem xs (some v) none = ⊥
LowestFrom mem xs none (some u) = In u xs × ¬ IsInf (mem u) × Cheapest mem u xs
LowestFrom mem xs (some v) (some u) =
    ((u ≡ v) ⊎ In u xs) × ¬ IsInf (mem u) × ((mem u).cost ≤ (mem v).cost) × Cheapest mem u xs

module _ (mem : Memory) (x : ℕ) (xs : List ℕ) where
  from_head :
      (v : ℕ) (r : Option ℕ)
      → (mem x).cost ≤ (mem v).cost
      → LowestFrom mem xs (some x) r
      → LowestFrom mem (x ∷ xs) (some v) r
  from_head v none le h = absurd h
  from_head v (some u) le (m, f, low, c) = (inr m, f, omega arith, (inr low, c))

  past_head :
      (v : ℕ) (r : Option ℕ)
      → IsInf (mem x) ⊎ ((mem v).cost ≤ (mem x).cost)
      → LowestFrom mem xs (some v) r
      → LowestFrom mem (x ∷ xs) (some v) r
  past_head v none h l = absurd l
  past_head v (some u) h (inl e, f, low, c) = (inl e, f, low, (ground arith, c))
  past_head v (some u) h (inr m, f, low, c) = (inr (inr m), f, low, (ground arith, c))

  at_head : (r : Option ℕ) → LowestFrom mem xs (some x) r → LowestFrom mem (x ∷ xs) none r
  at_head none h = absurd h
  at_head (some u) (m, f, low, c) = (m, f, (inr low, c))

  no_head :
      (r : Option ℕ) → IsInf (mem x) → LowestFrom mem xs none r → LowestFrom mem (x ∷ xs) none r
  no_head none i h = (i, h)
  no_head (some u) i (m, f, c) = (inr m, f, (inl i, c))

lowest_some :
    (mem : Memory) (xs : List ℕ) (v : ℕ)
    → ¬ IsInf (mem v)
    → LowestFrom mem xs (some v) (for_each (do_lowest_cost mem) xs (some v))
unfolding for_each do_lowest_cost
lowest_some mem [] v f = (inl refl, f, omega arith, tt)
lowest_some mem (x ∷ xs) v f =
    elim (Bool-cases (not ((mem x).cost == lc_cost_inf) && ltb (mem x).cost (mem v).cost)) [
      | inl e ↦ rw e (from_head mem x xs v _ (ground arith) (lowest_some mem xs x (ground arith)))
      | inr e ↦ rw e (past_head mem x xs v _ (ground arith) (lowest_some mem xs v f))
    ]

lowest_none :
    (mem : Memory) (xs : List ℕ) → LowestFrom mem xs none (for_each (do_lowest_cost mem) xs none)
unfolding for_each do_lowest_cost
lowest_none mem [] = tt
lowest_none mem (x ∷ xs) = elim (Bool-cases ((mem x).cost == lc_cost_inf)) [
  | inl e ↦ rw e (no_head mem x xs _ (ground arith) (lowest_none mem xs))
  | inr e ↦ rw e (at_head mem x xs _ (lowest_some mem xs x (ground arith)))
]

-- Either the costs of all nodes are unknown, or the node found is one of the cheapest known ones.
abbrev pub Lowest : Memory → List ℕ → Option ℕ → Type 0
Lowest mem xs none = All (λ q. IsInf (mem q)) xs
Lowest mem xs (some u) = In u xs × ¬ IsInf (mem u) × Cheapest mem u xs

to_Lowest : (mem : Memory) (xs : List ℕ) (r : Option ℕ) → LowestFrom mem xs none r → Lowest mem xs r
to_Lowest mem xs none h = h
to_Lowest mem xs (some u) h = h

pub find-Lowest-Lowest :
    (mem : Memory) (t : Tbl ℕ) → Lowest mem t.items (dijkstra_find_lowest_cost_node mem t)
unfolding dijkstra_find_lowest_cost_node tbl_do_for_each
find-Lowest-Lowest mem t = to_Lowest mem t.items _ (lowest_none mem t.items)

-- Taking a node out leaves the others.
pub In-remove_first : (u q : ℕ) (xs : List ℕ) → In q (remove_first (λ p. p == u) xs) → In q xs
unfolding remove_first
In-remove_first u q [] m = m
In-remove_first u q (x ∷ xs) m = elim (Bool-cases (x == u)) [
  | inl e ↦ inr (rw e at m)
  | inr e ↦ elim (let m' : (q ≡ x) ⊎ In q (remove_first (λ p. p == u) xs) = rw e at m in m') [
    | inl h ↦ inl h
    | inr h ↦ inr (In-remove_first u q xs h)
  ]
]

pub In-remove_first_ne :
    (u q : ℕ) (xs : List ℕ) → In q xs → (q ≡ u) ⊎ In q (remove_first (λ p. p == u) xs)
unfolding remove_first
In-remove_first_ne u q [] m = absurd m
In-remove_first_ne u q (x ∷ xs) m = ground (arith, In-remove_first_ne u q xs)

pub length-remove_first_mem :
    (u : ℕ) (xs : List ℕ) → In u xs → suc (length (remove_first (λ p. p == u) xs)) ≡ length xs
unfolding remove_first
length-remove_first_mem u [] m = absurd m
length-remove_first_mem u (x ∷ xs) m = ground (arith, length-remove_first_mem u xs)
