-- ===== src/Rreq/Invariant.antt =====
-- dsr-rreq.c: every sequence of operations keeps the table of route requests well formed.
use dsr_uu.Base.{
  ℕ, ◌<◌, ◌≡◌, ◌⊎◌, refl, inl, inr, Bool, true, false, List, [], ◌∷◌, Option, none, some, arith,
  u32_mod, leb, if◌then◌else◌, Bool-cases, Option-cases,
}
use dsr_uu.Timer.{Timeval}
use dsr_uu.Conf.{Confvals, max_request_rexmt}
use dsr_uu.Tbl.{
  Tbl, init_tbl, tbl_add_tail, unless_full, tbl_find, find_first, tbl_detach, tbl_del_first,
  tbl_full,
}
use dsr_uu.Tbl.Bounds.{IsTbl, init_tbl-IsTbl, tbl_add_tail-IsTbl, tbl_del_first-IsTbl}
use dsr_uu.Tbl.Find.{find_detach_none, find_detach_some}
use dsr_uu.Rreq.{
  RreqState, RreqEntry, RreqGarbage, IdEntry, Action, idle, in_route_disc, crit_addr, back_off,
  rreq_tbl_timeout, rreq_tbl_take, id_add, rreq_tbl_add_id, rreq_tbl_route_discovery_cancel,
  discovery_start, dsr_rreq_route_discovery,
}
use dsr_uu.Rreq.Table.{
  IsEntry, IsLimit, IsRreqTbl, Taken, put-IsRreqTbl, rreq_tbl_take-Taken, take_found,
}

-- What the rest of the program asks of the table, one call after the other.
pub data RreqOp : Type 0 where
  timeout : Timeval → ℕ → RreqOp
  add_id : Option RreqGarbage → Bool → Timeval → ℕ → ℕ → ℕ → RreqOp
  cancel : Timeval → ℕ → RreqOp
  discover : Option RreqGarbage → Timeval → ℕ → RreqOp

unfoldable pub rreq_step : Confvals → Tbl RreqEntry → RreqOp → Tbl RreqEntry
rreq_step conf t (timeout now addr) = (rreq_tbl_timeout conf now t addr).0
rreq_step conf t (add_id block room now initiator target id) =
    (rreq_tbl_add_id block room conf now t initiator target id).0
rreq_step conf t (cancel now dst) = (rreq_tbl_route_discovery_cancel now t dst).0
rreq_step conf t (discover block now target) = (dsr_rreq_route_discovery block conf now t target).0

unfoldable pub rreq_run : Confvals → Tbl RreqEntry → List RreqOp → Tbl RreqEntry
unfolding rreq_step
rreq_run conf t [] = t
rreq_run conf t (op ∷ ops) = rreq_run conf (rreq_step conf t op) ops

pub back_off-IsEntry :
    (conf : Confvals) (now : Timeval) (e : RreqEntry) → IsEntry e → IsEntry (back_off conf now e)
unfolding back_off
back_off-IsEntry conf now e (ids, room, ttl) = (ids, room, ground arith)

ids_room : (ids : Tbl IdEntry) → IsTbl ids → IsTbl (if tbl_full ids then tbl_del_first ids else ids)
ids_room ids v = elim (Bool-cases (tbl_full ids)) [
  | inl f ↦ rw f (tbl_del_first-IsTbl ids v)
  | inr f ↦ rw f v
]

del_first_max : {A : Type 0} (t : Tbl A) → (tbl_del_first t).max_len ≡ t.max_len
unfolding tbl_del_first
del_first_max t = ground arith

ids_max :
    (ids : Tbl IdEntry) → (if tbl_full ids then tbl_del_first ids else ids).max_len ≡ ids.max_len
ids_max ids = elim (Bool-cases (tbl_full ids)) [
  | inl f ↦ rw f (del_first_max ids)
  | inr f ↦ rw f refl
]

add_tail_kept :
    (ids : Tbl IdEntry) (x : IdEntry) → IsTbl ids → IsTbl (unless_full ids (tbl_add_tail ids x))
add_tail_kept ids x v = elim (Option-cases (tbl_add_tail ids x)) [
  | inl n ↦ rw n v
  | inr (t', s) ↦ rw s (tbl_add_tail-IsTbl ids x v s)
]

add_tail_max :
    (ids : Tbl IdEntry) (x : IdEntry) → (unless_full ids (tbl_add_tail ids x)).max_len ≡ ids.max_len
unfolding tbl_add_tail
add_tail_max ids x = ground arith

pub id_add-IsEntry :
    (room : Bool) (now : Timeval) (e : RreqEntry) (target id : ℕ)
    → IsEntry e
    → IsEntry (id_add room now e target id)
unfolding id_add
id_add-IsEntry false now e target id (ids, room, ttl) =
    (ids_room e.rreq_id_tbl ids, omega (arith, ids_max e.rreq_id_tbl), ttl)
id_add-IsEntry true now e target id (ids, room, ttl) =
    let x : IdEntry = record { trg_addr = target; id = id } in
    let kept : Tbl IdEntry =
      if tbl_full e.rreq_id_tbl then tbl_del_first e.rreq_id_tbl else e.rreq_id_tbl in
    (
      add_tail_kept kept x (ids_room e.rreq_id_tbl ids),
      omega (arith, add_tail_max kept x, ids_max e.rreq_id_tbl),
      ttl,
    )

pub timeout_keeps :
    (conf : Confvals) (now : Timeval) (t : Tbl RreqEntry) (addr : ℕ)
    → IsRreqTbl t
    → IsRreqTbl (rreq_tbl_timeout conf now t addr).0
unfolding rreq_tbl_timeout tbl_find
timeout_keeps conf now t addr v = elim (Option-cases (find_first (crit_addr addr) t.items)) [
  | inl n ↦ rw (n, rreq_tbl_timeout, tbl_find) v
  | inr (e, y) ↦
      let (at, ok, rest_ok, without, _, _) = take_found t addr e v y in
      let rest : Tbl RreqEntry = tbl_detach t (crit_addr addr) in
      rw (y, rreq_tbl_timeout, tbl_find)
        (elim (Bool-cases (leb (conf max_request_rexmt) e.num_rexmts)) [
          | inl m ↦ rw m (put-IsRreqTbl rest (record e { state = idle }) rest_ok (rw at without) ok)
          | inr m ↦ rw m (
              put-IsRreqTbl rest (back_off conf now e) rest_ok (unfold back_off in rw at without)
                (back_off-IsEntry conf now e ok))
        ])
]

add_id_keeps :
    (block : Option RreqGarbage) (room : Bool) (conf : Confvals) (now : Timeval) (t : Tbl RreqEntry)
    (initiator target id : ℕ)
    → IsLimit conf
    → IsRreqTbl t
    → IsRreqTbl (rreq_tbl_add_id block room conf now t initiator target id).0
unfolding rreq_tbl_add_id
add_id_keeps block room conf now t initiator target id lim v =
    go (rreq_tbl_take block conf t initiator) refl
      (rreq_tbl_take-Taken block conf t initiator lim v)
  where
    go :
        (r : Option (RreqEntry × Tbl RreqEntry × List Action))
        → rreq_tbl_take block conf t initiator ≡ r
        → Taken t initiator r
        → IsRreqTbl (rreq_tbl_add_id block room conf now t initiator target id).0
    go none e k = rw (e, rreq_tbl_add_id) v
    go (some (x, rest, actions)) e (at, ok, rest_ok, without, _, _) =
        rw (e, rreq_tbl_add_id)
          (put-IsRreqTbl rest (id_add room now x target id) rest_ok (unfold id_add in rw at without)
            (id_add-IsEntry room now x target id ok))

pub State-cases : (s : RreqState) → (s ≡ idle) ⊎ (s ≡ in_route_disc)
State-cases idle = inl refl
State-cases in_route_disc = inr refl

discover_keeps :
    (block : Option RreqGarbage) (conf : Confvals) (now : Timeval) (t : Tbl RreqEntry) (target : ℕ)
    → IsLimit conf
    → IsRreqTbl t
    → IsRreqTbl (dsr_rreq_route_discovery block conf now t target).0
unfolding dsr_rreq_route_discovery discovery_start
discover_keeps block conf now t target lim v =
    go (rreq_tbl_take block conf t target) refl (rreq_tbl_take-Taken block conf t target lim v)
  where
    go :
        (r : Option (RreqEntry × Tbl RreqEntry × List Action))
        → rreq_tbl_take block conf t target ≡ r
        → Taken t target r
        → IsRreqTbl (dsr_rreq_route_discovery block conf now t target).0
    go none e k = rw (e, dsr_rreq_route_discovery) v
    go (some (x, rest, actions)) e (at, ok, rest_ok, without, _, _) =
        rw (e, dsr_rreq_route_discovery)
          (elim (State-cases x.state) [
            | inl i ↦ rw i (
                put-IsRreqTbl rest (discovery_start conf now x) rest_ok (rw at without)
                  (ok.0, ok.1, omega arith))
            | inr d ↦ rw d (put-IsRreqTbl rest x rest_ok (rw at without) ok)
          ])

cancel_keeps :
    (now : Timeval) (t : Tbl RreqEntry) (dst : ℕ)
    → IsRreqTbl t
    → IsRreqTbl (rreq_tbl_route_discovery_cancel now t dst).0
unfolding rreq_tbl_route_discovery_cancel
cancel_keeps now t dst v = elim (Option-cases (find_first (crit_addr dst) t.items)) [
  | inl n ↦ rw (find_detach_none (crit_addr dst) t n, rreq_tbl_route_discovery_cancel) v
  | inr (e, y) ↦
      let (at, ok, rest_ok, without, _, _) = take_found t dst e v y in
      let rest : Tbl RreqEntry = tbl_detach t (crit_addr dst) in
      rw (find_detach_some (crit_addr dst) t e y, rreq_tbl_route_discovery_cancel)
        (put-IsRreqTbl rest (record e { state = idle; last_used = now }) rest_ok (rw at without) ok)
]

pub step_keeps :
    (conf : Confvals) (t : Tbl RreqEntry) (op : RreqOp)
    → IsLimit conf
    → IsRreqTbl t
    → IsRreqTbl (rreq_step conf t op)
unfolding rreq_step
step_keeps conf t (timeout now addr) lim v = timeout_keeps conf now t addr v
step_keeps conf t (add_id block room now initiator target id) lim v =
    add_id_keeps block room conf now t initiator target id lim v
step_keeps conf t (cancel now dst) lim v = cancel_keeps now t dst v
step_keeps conf t (discover block now target) lim v = discover_keeps block conf now t target lim v

run_keeps :
    (conf : Confvals) (t : Tbl RreqEntry) (ops : List RreqOp)
    → IsLimit conf
    → IsRreqTbl t
    → IsRreqTbl (rreq_run conf t ops)
unfolding rreq_run
run_keeps conf t [] lim v = v
run_keeps conf t (op ∷ ops) lim v =
    run_keeps conf (rreq_step conf t op) ops lim (step_keeps conf t op lim v)

-- After any sequence of timeouts, identifiers added, discoveries cancelled and discoveries begun on a
-- fresh table whose limit is a word other than 0, also where memory is short, and if the limit for identifiers is
-- a word other than 0: the table stays within its limit with a right counter, holds one entry for
-- each address, no ttl exceeds 255, and the table of identifiers of each entry stays within its
-- limit, which is not 0.
pub rreq_run-IsRreqTbl :
    (conf : Confvals) (n : ℕ) (ops : List RreqOp)
    → IsLimit conf
    → 0 < n
    → n < u32_mod
    → IsRreqTbl (rreq_run conf (init_tbl n) ops)
unfolding init_tbl
rreq_run-IsRreqTbl conf n ops lim more h =
    run_keeps conf (init_tbl n) ops lim
      (record { table = init_tbl-IsTbl n h; entries = tt; apart = tt })
