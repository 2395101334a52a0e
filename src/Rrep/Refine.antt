-- ===== src/Rrep/Refine.antt =====
-- dsr-rrep.c: every operation on the table of gratuitous replies is a step of a bounded set.
use dsr_uu.Base.{
  ℕ, ◌+◌, ◌<◌, ◌≡◌, refl, sym, ap, subst, ◌∙◌, inl, inr, Bool, true, false, ◌||◌, Option, none,
  some, ltb, leb, Bool-cases, arith, incr32,
}
use dsr_uu.Timer.{Timeval}
use dsr_uu.Conf.{Confvals}
use dsr_uu.Tbl.{Tbl, insert_before, tbl_add, unless_full}
use dsr_uu.Tbl.Bounds.{IsTbl, tbl_add-IsTbl}
use dsr_uu.Rrep.{
  GratRrepEntry, GratRrep, crit_query, crit_time, set_for_first, grat_rrep_tbl_find,
  grat_rrep_entry_create, grat_rrep_tbl_add,
}
use dsr_uu.Rrep.Pairs.{
  GratOp, add, is_pair, with_pair, Step, known, no_memory, full, hold, view, pairs_eq,
}
use dsr_uu.Rrep.Set.{
  any, in_tbl-any, any-insert, Apart, Apart-insert, TimerFor, IsGrat, set_for_first-TimerFor,
  set_for_first-tbl,
}

pub find-any :
    (g : GratRrep) (a b : ℕ) → grat_rrep_tbl_find g a b ≡ any (crit_query a b) g.tbl.items
unfolding grat_rrep_tbl_find
find-any g a b = in_tbl-any g.tbl (crit_query a b)

-- The timer set anew on a sound table.
pub set_for_first-IsGrat :
    (t : Tbl GratRrepEntry) (timer : Option Timeval)
    → IsTbl t
    → t.max_len ≡ 64
    → Apart t.items
    → IsGrat (set_for_first (record { tbl = t; timer = timer }))
set_for_first-IsGrat t timer v m a =
    let g : GratRrep = record { tbl = t; timer = timer } in
    let e = set_for_first-tbl g in
    record {
      table = subst IsTbl (sym e) v;
      limit = ap (λ (u : Tbl GratRrepEntry). u.max_len) e ∙ m;
      apart = subst (λ (u : Tbl GratRrepEntry). Apart u.items) (sym e) a;
      timed =
          subst (λ (u : Tbl GratRrepEntry). TimerFor u.items (set_for_first g).timer) (sym e)
            (set_for_first-TimerFor g);
    }

module _ (conf : Confvals) where
  -- The table with the new entry, if it has room.
  abbrev added : Timeval → Timeval → GratRrep → ℕ → ℕ → Tbl GratRrepEntry
  added links now g src prev_hop =
      unless_full g.tbl
        (tbl_add g.tbl (grat_rrep_entry_create conf now src prev_hop) (λ p l. crit_time links p))

  add_known :
      (block : Option Timeval) (now : Timeval) (g : GratRrep) (src prev_hop : ℕ)
      → grat_rrep_tbl_find g src prev_hop ≡ true
      → (grat_rrep_tbl_add block conf now g src prev_hop).0 ≡ g
  unfolding grat_rrep_tbl_add grat_rrep_tbl_find
  add_known block now g src prev_hop k = rw (k, grat_rrep_tbl_add) refl

  add_no_memory :
      (now : Timeval) (g : GratRrep) (src prev_hop : ℕ)
      → (grat_rrep_tbl_add none conf now g src prev_hop).0 ≡ g
  unfolding grat_rrep_tbl_add
  add_no_memory now g src prev_hop = ground arith

  add_new :
      (links now : Timeval) (g : GratRrep) (src prev_hop : ℕ)
      → grat_rrep_tbl_find g src prev_hop ≡ false
      → (grat_rrep_tbl_add (some links) conf now g src prev_hop).0
        ≡ set_for_first (record { tbl = added links now g src prev_hop; timer = none })
  unfolding grat_rrep_tbl_add grat_rrep_tbl_find
  add_new links now g src prev_hop k = rw (k, grat_rrep_tbl_add) refl

  added_full :
      (links now : Timeval) (g : GratRrep) (src prev_hop : ℕ)
      → IsGrat g
      → g.tbl.len ≡ 64
      → added links now g src prev_hop ≡ g.tbl
  unfolding tbl_add
  added_full links now g src prev_hop v n = ground (arith, n, v.limit)

  -- The table with one entry more.
  abbrev Grown : GratRrep → ℕ → ℕ → Tbl GratRrepEntry → Type 0
  Grown g src prev_hop t =
      IsTbl t
      × (t.max_len ≡ 64)
      × (t.len ≡ g.tbl.len + 1)
      × Apart t.items
      × ((a b : ℕ)
          → any (crit_query a b) t.items
            ≡ (is_pair src prev_hop a b || any (crit_query a b) g.tbl.items))

  added-Grown :
      (links now : Timeval) (g : GratRrep) (src prev_hop : ℕ)
      → IsGrat g
      → grat_rrep_tbl_find g src prev_hop ≡ false
      → g.tbl.len < 64
      → Grown g src prev_hop (added links now g src prev_hop)
  unfolding tbl_add crit_query grat_rrep_entry_create
  added-Grown links now g src prev_hop v k n =
      let e = grat_rrep_entry_create conf now src prev_hop in
      let crit : GratRrepEntry → GratRrepEntry → Bool = λ p l. crit_time links p in
      let room : leb g.tbl.max_len g.tbl.len ≡ false = ground (arith, v.limit, n) in
      let t : Tbl GratRrepEntry = record (g.tbl) {
        items = insert_before crit e g.tbl.items;
        len = incr32 g.tbl.len;
      } in
      let made : tbl_add g.tbl e crit ≡ some t = rw (room, tbl_add) refl in
      subst (λ r. Grown g src prev_hop (unless_full g.tbl r)) (sym made)
        (
          tbl_add-IsTbl g.tbl e crit v.table made,
          v.limit,
          omega (arith, n, v.table.is_word),
          Apart-insert crit e g.tbl.items (sym (find-any g src prev_hop) ∙ k) v.apart,
          λ a b. any-insert (crit_query a b) crit e g.tbl.items,
        )

  -- The operation keeps the table sound, and is a step of the set.
  abbrev pub Result : GratOp → GratRrep → GratRrep → Type 0
  Result op g g' = IsGrat g' × Step op (view g) (view g')

  pub view-set_for_first :
      (t : Tbl GratRrepEntry) (timer : Option Timeval)
      → view (set_for_first (record { tbl = t; timer = timer }))
        ≡ view (record { tbl = t; timer = none })
  unfolding grat_rrep_tbl_find
  view-set_for_first t timer =
      ap (λ (u : Tbl GratRrepEntry). view (record { tbl = u; timer = none }))
        (set_for_first-tbl (record { tbl = t; timer = timer }))

  new-Result :
      (links now : Timeval) (g : GratRrep) (src prev_hop : ℕ)
      → IsGrat g
      → grat_rrep_tbl_find g src prev_hop ≡ false
      → Result
          (add (some links) now src prev_hop)
          g
          (set_for_first (record { tbl = added links now g src prev_hop; timer = none }))
  unfolding grat_rrep_tbl_find
  new-Result links now g src prev_hop v k = elim (Bool-cases (ltb g.tbl.len 64)) [
    | inl n ↦
        let less : g.tbl.len < 64 = ground (arith, n) in
        let t = added links now g src prev_hop in
        let (ok, max, len, apart, held) = added-Grown links now g src prev_hop v k less in
        let seen : view (record { tbl = t; timer = none }) ≡ with_pair (view g) src prev_hop =
          pairs_eq (grat_rrep_tbl_find (record { tbl = t; timer = none }))
            (with_pair (view g) src prev_hop).held t.len (g.tbl.len + 1)
            (λ a b.
              find-any (record { tbl = t; timer = none }) a b
              ∙ held a b
              ∙ ap (λ r. is_pair src prev_hop a b || r) (sym (find-any g a b)))
            len in
        (
          set_for_first-IsGrat t none ok max apart,
          subst (Step (add (some links) now src prev_hop) (view g))
              (sym (view-set_for_first t none ∙ seen)) (hold k less),
        )
    | inr n ↦
        let all : g.tbl.len ≡ 64 = ground (arith, n, v.table.bounded, v.limit) in
        let e = added_full links now g src prev_hop v all in
        subst
          (λ t.
            Result (add (some links) now src prev_hop) g
              (set_for_first (record { tbl = t; timer = none })))
          (sym e)
          (
            set_for_first-IsGrat g.tbl none v.table v.limit v.apart,
            subst (Step (add (some links) now src prev_hop) (view g))
                (sym (view-set_for_first g.tbl none)) (full all),
          )
  ]

  pub add-Result :
      (block : Option Timeval) (now : Timeval) (g : GratRrep) (src prev_hop : ℕ)
      → IsGrat g
      → Result (add block now src prev_hop) g (grat_rrep_tbl_add block conf now g src prev_hop).0
  add-Result none now g src prev_hop v =
      subst (Result (add none now src prev_hop) g) (sym (add_no_memory now g src prev_hop))
        (v, no_memory)
  add-Result (some links) now g src prev_hop v =
      elim (Bool-cases (grat_rrep_tbl_find g src prev_hop)) [
        | inl k ↦
            subst (Result (add (some links) now src prev_hop) g)
              (sym (add_known (some links) now g src prev_hop k)) (v, known k)
        | inr k ↦
            subst (Result (add (some links) now src prev_hop) g)
              (sym (add_new links now g src prev_hop k)) (new-Result links now g src prev_hop v k)
      ]
