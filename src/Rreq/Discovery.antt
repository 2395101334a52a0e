-- ===== src/Rreq/Discovery.antt =====
-- dsr-rreq.c: a request once seen is a duplicate, and a discovery without an answer ends.
use dsr_uu.Base.{
  ℕ, ◌≤◌, ◌<◌, ◌≡◌, refl, sym, subst, inl, inr, Bool, true, false, List, [], ◌∷◌, ◌++◌, Option,
  none, some, arith, All, ==_refl, if◌then◌else◌, Bool-cases, Option-cases,
}
use dsr_uu.Timer.{Timeval}
use dsr_uu.Conf.{Confvals}
use dsr_uu.Tbl.{
  Tbl, tbl_add_tail, unless_full, tbl_find, in_tbl, find_first, tbl_del_first, tbl_full,
}
use dsr_uu.Tbl.Bounds.{IsTbl}
use dsr_uu.Rreq.{
  RreqEntry, RreqGarbage, IdEntry, Action, crit_addr, crit_id, crit_duplicate, rreq_tbl_take,
  id_add, rreq_tbl_add_id, dsr_rreq_duplicate,
}
use dsr_uu.Rreq.Table.{IsEntry, IsLimit, IsRreqTbl, Taken, Without, rreq_tbl_take-Taken}

-- A search that comes to the last element.
find-last :
    {A : Type 0} (crit : A → Bool) (xs : List A) (e : A)
    → All (λ x. crit x ≡ false) xs
    → crit e ≡ true
    → find_first crit (xs ++ e ∷ []) ≡ some e
unfolding find_first
find-last crit [] e h m = rw (m, find_first) refl
find-last crit (x ∷ xs) e h m = rw (h.0, find_first) (find-last crit xs e h.1 m)

-- A search over a list with a match at its end does not fail.
in-last :
    {A : Type 0} (crit : A → Bool) (xs : List A) (e : A)
    → crit e ≡ true
    → (a : A) × (find_first crit (xs ++ e ∷ []) ≡ some a)
unfolding find_first
in-last crit [] e m = (e, rw (m, find_first) refl)
in-last crit (x ∷ xs) e m = elim (Bool-cases (crit x)) [
  | inl y ↦ (x, rw (y, find_first) refl)
  | inr n ↦ let (a, h) = in-last crit xs e m in (a, rw (n, find_first) h)
]

Without-crit :
    (addr : ℕ) (xs : List RreqEntry) → Without addr xs → All (λ x. crit_addr addr x ≡ false) xs
unfolding crit_addr
Without-crit addr [] h = tt
Without-crit addr (x ∷ xs) h = (ground (arith, h.0), Without-crit addr xs h.1)

add_tail_some :
    {A : Type 0} (t : Tbl A) (e : A)
    → t.len < t.max_len
    → (unless_full t (tbl_add_tail t e)).items ≡ t.items ++ e ∷ []
unfolding tbl_add_tail
add_tail_some t e h = ground (arith, h)

-- An entry put behind the others is found.
pub put_found :
    (t : Tbl RreqEntry) (addr : ℕ) (e : RreqEntry)
    → t.len < t.max_len
    → Without addr t.items
    → e.node_addr ≡ addr
    → find_first (crit_addr addr) (unless_full t (tbl_add_tail t e)).items ≡ some e
put_found t addr e room w at = rw (add_tail_some t e room) (
    find-last (crit_addr addr) t.items e (Without-crit addr t.items w)
      (unfold crit_addr in rw at (==_refl addr)))

in_tbl-some :
    {A : Type 0} (t : Tbl A) (crit : A → Bool) (a : A)
    → find_first crit t.items ≡ some a
    → in_tbl t crit ≡ true
unfolding in_tbl tbl_find
in_tbl-some t crit a h = rw (h, in_tbl, tbl_find) refl

not_full_after :
    (ids : Tbl IdEntry)
    → IsTbl ids
    → 1 ≤ ids.max_len
    → (if tbl_full ids then tbl_del_first ids else ids).len
      < (if tbl_full ids then tbl_del_first ids else ids).max_len
unfolding tbl_full tbl_del_first
not_full_after ids v h = ground (arith, h)

-- The identifier that `id_add` puts in is found.
id_found :
    (now : Timeval) (e : RreqEntry) (target id : ℕ)
    → IsEntry e
    → in_tbl (id_add true now e target id).rreq_id_tbl (crit_id target id) ≡ true
unfolding id_add crit_id
id_found now e target id (ids, max, _) =
    let x : IdEntry = record { trg_addr = target; id = id } in
    let kept : Tbl IdEntry =
      if tbl_full e.rreq_id_tbl then tbl_del_first e.rreq_id_tbl else e.rreq_id_tbl in
    let (a, h) =
      in-last (crit_id target id) kept.items x
        (unfold crit_id in rw (==_refl target, ==_refl id) refl) in
    in_tbl-some (unless_full kept (tbl_add_tail kept x)) (crit_id target id) a (
      subst (λ xs. find_first (crit_id target id) xs ≡ some a)
        (sym (add_tail_some kept x (not_full_after e.rreq_id_tbl ids max))) h)

pub take_some :
    (block : RreqGarbage) (conf : Confvals) (t : Tbl RreqEntry) (addr : ℕ)
    → ¬ (rreq_tbl_take (some block) conf t addr ≡ none)
unfolding rreq_tbl_take
take_some block conf t addr h = elim (Option-cases (tbl_find t (crit_addr addr))) [
  | inl n ↦ ground (arith, h, n)
  | inr (e, y) ↦ ground (arith, h, y)
]

duplicate_last :
    (t : Tbl RreqEntry) (e : RreqEntry) (initiator target id : ℕ)
    → t.len < t.max_len
    → e.node_addr ≡ initiator
    → in_tbl e.rreq_id_tbl (crit_id target id) ≡ true
    → dsr_rreq_duplicate (unless_full t (tbl_add_tail t e)) initiator target id ≡ true
unfolding dsr_rreq_duplicate crit_duplicate
duplicate_last t e initiator target id room at known =
    let (a, h) =
      in-last (crit_duplicate initiator target id) t.items e
        (unfold crit_duplicate in rw (at, ==_refl initiator) known) in
    in_tbl-some (unless_full t (tbl_add_tail t e)) (crit_duplicate initiator target id) a (
      subst (λ xs. find_first (crit_duplicate initiator target id) xs ≡ some a)
        (sym (add_tail_some t e room)) h)

-- Once a route request has been put into a well-formed table it is a duplicate, if the limit of the
-- table is not 0, the limit for identifiers is a word other than 0, and memory does not run short.
pub add_id-duplicate :
    (block : RreqGarbage) (conf : Confvals) (now : Timeval) (t : Tbl RreqEntry)
    (initiator target id : ℕ)
    → IsLimit conf
    → IsRreqTbl t
    → 1 ≤ t.max_len
    → dsr_rreq_duplicate
        (rreq_tbl_add_id (some block) true conf now t initiator target id).0
        initiator
        target
        id
      ≡ true
unfolding rreq_tbl_add_id
add_id-duplicate block conf now t initiator target id lim v max =
    go (rreq_tbl_take (some block) conf t initiator) refl
      (rreq_tbl_take-Taken (some block) conf t initiator lim v)
  where
    go :
        (r : Option (RreqEntry × Tbl RreqEntry × List Action))
        → rreq_tbl_take (some block) conf t initiator ≡ r
        → Taken t initiator r
        → dsr_rreq_duplicate
            (rreq_tbl_add_id (some block) true conf now t initiator target id).0
            initiator
            target
            id
          ≡ true
    go none e k = absurd (take_some block conf t initiator e)
    go (some (x, rest, actions)) e (at, ok, rest_ok, without, _, room) =
        rw (e, rreq_tbl_add_id)
          (duplicate_last rest (id_add true now x target id) initiator target id (room max)
            (unfold id_add in at) (id_found now x target id ok))
