-- ===== src/Rrep/Run.antt =====
-- dsr-rrep.c: any run of the operations on the table of gratuitous replies, and how it empties.
use dsr_uu.Base.{
  ℕ, zero, suc, ◌-◌, ◌≤◌, ◌≡◌, refl, sym, ap, subst, ◌∙◌, true, false, not, ◌&&◌, List, [], ◌∷◌,
  none, ◌==◌, arith, length, ==_refl, decr32, drop,
}
use dsr_uu.Conf.{Confvals}
use dsr_uu.Tbl.{Tbl, init_tbl, tbl_del_first, tbl_detach_first, tbl_empty}
use dsr_uu.Tbl.Bounds.{IsTbl, init_tbl-IsTbl}
use dsr_uu.Rrep.{
  GratRrepEntry, GratRrep, crit_query, set_for_first, grat_rrep_tbl_timeout, grat_rrep_tbl_find,
  grat_rrep_tbl_init,
}
use dsr_uu.Rrep.Set.{any, Apart, TimerFor, IsGrat, set_for_first-tbl}
use dsr_uu.Rrep.Pairs.{
  GratOp, add, timeout, grat_step, grat_run, without_pair, Step, nothing, forget, Steps, here, next,
  view, pairs_eq, any-rest,
}
use dsr_uu.Rrep.Refine.{find-any, set_for_first-IsGrat, Result, add-Result, view-set_for_first}

-- An empty table stays so.
timeout_empty :
    (g : GratRrep)
    → g.tbl.items ≡ []
    → grat_rrep_tbl_timeout g ≡ record { tbl = g.tbl; timer = none }
unfolding grat_rrep_tbl_timeout tbl_del_first tbl_detach_first tbl_empty
timeout_empty g e = ground (arith, e)

abbrev without_first : GratRrep → List GratRrepEntry → Tbl GratRrepEntry
without_first g rest = record (g.tbl) { items = rest; len = decr32 g.tbl.len }

timeout_last :
    (g : GratRrep) (x : GratRrepEntry)
    → g.tbl.items ≡ x ∷ []
    → grat_rrep_tbl_timeout g ≡ record { tbl = without_first g []; timer = none }
unfolding grat_rrep_tbl_timeout tbl_del_first tbl_detach_first tbl_empty
timeout_last g x e = ground (arith, e)

timeout_more :
    (g : GratRrep) (x y : GratRrepEntry) (rest : List GratRrepEntry)
    → g.tbl.items ≡ x ∷ (y ∷ rest)
    → grat_rrep_tbl_timeout g
      ≡ set_for_first (record { tbl = without_first g (y ∷ rest); timer = none })
unfolding grat_rrep_tbl_timeout tbl_del_first tbl_detach_first tbl_empty
timeout_more g x y rest e =
    rw (e, grat_rrep_tbl_timeout, tbl_del_first, tbl_detach_first, tbl_empty) refl

-- What is left without the first entry is sound, and the set without its pair.
rest_lem :
    (g : GratRrep) (x : GratRrepEntry) (rest : List GratRrepEntry)
    → IsGrat g
    → g.tbl.items ≡ x ∷ rest
    → IsTbl (without_first g rest)
      × Apart rest
      × (view (record { tbl = without_first g rest; timer = none })
          ≡ without_pair (view g) x.src x.prev_hop)
      × (grat_rrep_tbl_find g x.src x.prev_hop ≡ true)
unfolding crit_query
rest_lem g x rest v e =
    let apart : Apart (x ∷ rest) = subst Apart e v.apart in
    let seen : (a b : ℕ) → grat_rrep_tbl_find g a b ≡ any (crit_query a b) (x ∷ rest) =
      λ a b. find-any g a b ∙ ap (any (crit_query a b)) e in
    let g' : GratRrep = record { tbl = without_first g rest; timer = none } in
    let len : g.tbl.len ≡ suc (length rest) = v.table.counted ∙ ap length e in
    (
      record {
        counted = omega (arith, len, v.table.bounded, v.table.is_word);
        bounded = omega (arith, len, v.table.bounded, v.table.is_word);
        is_word = v.table.is_word;
      },
      apart.1,
      pairs_eq (grat_rrep_tbl_find g') (without_pair (view g) x.src x.prev_hop).held
          (decr32 g.tbl.len) (g.tbl.len - 1)
          (λ a b.
            find-any g' a b
            ∙ any-rest x rest a b apart.0
            ∙ ap (λ r. r && not (x.src == a && x.prev_hop == b)) (sym (seen a b)))
          (omega (arith, len, v.table.bounded, v.table.is_word)),
      seen x.src x.prev_hop ∙ rw (==_refl x.src, ==_refl x.prev_hop) refl,
    )

-- The timer runs out again and again.
abbrev pub timeouts : ℕ → List GratOp
timeouts zero = []
timeouts (suc n) = timeout ∷ timeouts n

module _ (conf : Confvals) where
  pub timeout-Result : (g : GratRrep) → IsGrat g → Result conf timeout g (grat_rrep_tbl_timeout g)
  unfolding grat_rrep_tbl_find
  timeout-Result g v = go g.tbl.items refl
    where
      go :
          (xs : List GratRrepEntry)
          → g.tbl.items ≡ xs
          → Result conf timeout g (grat_rrep_tbl_timeout g)
      go [] e =
          let empty : IsGrat (record { tbl = g.tbl; timer = none }) = record {
            table = v.table;
            limit = v.limit;
            apart = v.apart;
            timed = subst (λ xs. TimerFor xs none) (sym e) tt;
          } in
          subst (Result conf timeout g) (sym (timeout_empty g e))
            (empty, nothing (v.table.counted ∙ ap length e))
      go (x ∷ []) e =
          let (ok, apart, seen, held) = rest_lem g x [] v e in
          let left : IsGrat (record { tbl = without_first g []; timer = none }) = record {
            table = ok;
            limit = v.limit;
            apart = apart;
            timed = tt;
          } in
          subst (Result conf timeout g) (sym (timeout_last g x e))
            (left, subst (Step timeout (view g)) (sym seen) (forget x.src x.prev_hop held))
      go (x ∷ (y ∷ rest)) e =
          let (ok, apart, seen, held) = rest_lem g x (y ∷ rest) v e in
          let t = without_first g (y ∷ rest) in
          subst (Result conf timeout g) (sym (timeout_more g x y rest e)) (
            set_for_first-IsGrat t none ok v.limit apart,
            subst (Step timeout (view g)) (sym (view-set_for_first conf t none ∙ seen))
                (forget x.src x.prev_hop held),
          )

  step-Result : (g : GratRrep) (op : GratOp) → IsGrat g → Result conf op g (grat_step conf g op)
  unfolding grat_step
  step-Result g (add block now src prev_hop) v = add-Result conf block now g src prev_hop v
  step-Result g timeout v = timeout-Result g v

  run-Steps :
      (g : GratRrep) (ops : List GratOp)
      → IsGrat g
      → IsGrat (grat_run conf g ops) × Steps ops (view g) (view (grat_run conf g ops))
  unfolding grat_run
  run-Steps g [] v = (v, here)
  run-Steps g (op ∷ ops) v =
      let (ok, one) = step-Result g op v in
      let (end, more) = run-Steps (grat_step conf g op) ops ok in
      (end, next (view (grat_step conf g op)) one more)

  pub init-IsGrat : IsGrat grat_rrep_tbl_init
  unfolding grat_rrep_tbl_init init_tbl
  init-IsGrat = record {
    table = init_tbl-IsTbl 64 (omega arith);
    limit = refl;
    apart = tt;
    timed = tt;
  }

  -- Any sequence of pairs added and timeouts on the fresh table, whatever stands in the new blocks and
  -- also where memory is short, is step by step one on a set of at most 64 pairs, which
  -- `grat_rrep_tbl_find` reads: a new pair is held exactly where memory and the limit allow it, each
  -- timeout forgets one pair while there is any, and nothing else changes. No pair stands twice, and
  -- while the table is not empty its timer is set for the first entry.
  pub grat_run-Steps :
      (ops : List GratOp)
      → IsGrat (grat_run conf grat_rrep_tbl_init ops)
        × Steps ops (view grat_rrep_tbl_init) (view (grat_run conf grat_rrep_tbl_init ops))
  grat_run-Steps ops = run-Steps grat_rrep_tbl_init ops init-IsGrat

  -- The table after a timeout, and its timer if that was the last entry.
  timeout_left :
      (g : GratRrep)
      → ((grat_rrep_tbl_timeout g).tbl.items ≡ drop 1 g.tbl.items)
        × (length g.tbl.items ≤ 1 → (grat_rrep_tbl_timeout g).timer ≡ none)
  timeout_left g = go g.tbl.items refl
    where
      go :
          (xs : List GratRrepEntry)
          → g.tbl.items ≡ xs
          → ((grat_rrep_tbl_timeout g).tbl.items ≡ drop 1 xs)
            × (length xs ≤ 1 → (grat_rrep_tbl_timeout g).timer ≡ none)
      go [] e = (
        ap (λ (h : GratRrep). h.tbl.items) (timeout_empty g e) ∙ e,
        λ _. ap (λ (h : GratRrep). h.timer) (timeout_empty g e),
      )
      go (x ∷ []) e = (
        ap (λ (h : GratRrep). h.tbl.items) (timeout_last g x e),
        λ _. ap (λ (h : GratRrep). h.timer) (timeout_last g x e),
      )
      go (x ∷ (y ∷ rest)) e = (
        ap (λ (h : GratRrep). h.tbl.items) (timeout_more g x y rest e)
            ∙ ap (λ (h : Tbl GratRrepEntry). h.items)
                (set_for_first-tbl (record { tbl = without_first g (y ∷ rest); timer = none })),
        λ h. absurd (omega arith),
      )

  -- Once the timer has run out at least once, and at least as often as there are entries, the table is
  -- empty, its timer is not set, and no pair is held: the replies are held off no longer.
  pub timeouts-Empty :
      (n : ℕ) (g : GratRrep)
      → length g.tbl.items ≤ suc n
      → ((grat_run conf g (timeouts (suc n))).tbl.items ≡ [])
        × ((grat_run conf g (timeouts (suc n))).timer ≡ none)
        × ((a b : ℕ) → grat_rrep_tbl_find (grat_run conf g (timeouts (suc n))) a b ≡ false)
  unfolding grat_run grat_step
  timeouts-Empty zero g h =
      let (left, timer) = timeout_left g in
      let empty : (grat_rrep_tbl_timeout g).tbl.items ≡ [] = left ∙ drop_all g.tbl.items h in
      (
        empty,
        timer h,
        λ a b. find-any (grat_rrep_tbl_timeout g) a b ∙ ap (any (crit_query a b)) empty,
      )
    where
      drop_all : (xs : List GratRrepEntry) → length xs ≤ 1 → drop 1 xs ≡ []
      drop_all [] h = refl
      drop_all (x ∷ []) h = refl
      drop_all (x ∷ (y ∷ rest)) h = absurd (omega arith)
  timeouts-Empty (suc n) g h =
      let (left, timer) = timeout_left g in
      timeouts-Empty n (grat_rrep_tbl_timeout g)
        (omega (arith, ap length left, drop_one g.tbl.items, h))
    where
      drop_one : (xs : List GratRrepEntry) → length (drop 1 xs) ≡ length xs - 1
      drop_one [] = omega arith
      drop_one (x ∷ xs) = omega arith
