-- ===== src/Rreq.antt =====
-- dsr-rreq.c: the table of route requests, of those seen from others and of the discoveries that
-- this node has under way. An entry is a value in the table: the source changes it in place, after
-- it has moved it to the end, and the model puts the changed entry there. The address of a pointer
-- is the `node_addr` of its entry. `refcnt`, which is never read, is left out.
pub mod Table
pub mod Invariant
pub mod Discovery
pub mod Backoff
pub mod Request
pub mod Tests
use dsr_uu.Base.{
  ◌++◌, ℕ, ◌*◌, ◌%◌, ◌^◌, Bool, true, false, ◌&&◌, List, [], ◌∷◌, Option, none, some, ltb, leb,
  ◌==◌, if◌then◌else◌, incr32,
}
use dsr_uu.Base.Int.{ℤ, pos, negsuc}
use dsr_uu.Timer.{Timeval, timeval_add_usecs}
use dsr_uu.Conf.{
  Confvals, confval_to_usecs, request_table_ids, max_request_rexmt, max_request_period,
  request_period, nonprop_request_timeout,
}
use dsr_uu.Tbl.{
  Tbl, init_tbl, tbl_full, tbl_add_tail, unless_full, tbl_find, in_tbl, tbl_detach, tbl_find_detach,
  tbl_detach_first, tbl_del_first,
}

pub data RreqState : Type 0 where
  idle in_route_disc : RreqState

pub record IdEntry : Type 0 where
  pub trg_addr : ℕ
  pub id : ℕ

pub record RreqEntry : Type 0 where
  pub state : RreqState
  pub node_addr : ℕ
  pub ttl : ℕ
  pub tx_time : Timeval
  pub last_used : Timeval
  pub timeout : ℕ
  pub num_rexmts : ℕ
  pub rreq_id_tbl : Tbl IdEntry

-- What is done outside of the table, in order.
pub data Action : Type 0 where
  dsr_rreq_send : ℕ → ℕ → Action
  set_timer : ℕ → Timeval → Action
  del_timer_sync : ℕ → Action

-- The fields that a new block holds and `__rreq_tbl_entry_create` leaves as they are.
pub record RreqGarbage : Type 0 where
  pub last_used : Timeval
  pub timeout : ℕ

abbrev pub max_ttl : ℕ
max_ttl = 255

-- `usecs_t` is an `unsigned long`.
abbrev pub ulong_mod : ℕ
ulong_mod = 2 ^ 64

unfoldable pub crit_addr : ℕ → RreqEntry → Bool
crit_addr addr e = e.node_addr == addr

unfoldable pub crit_id : ℕ → ℕ → IdEntry → Bool
crit_id target id id_e = id_e.trg_addr == target && id_e.id == id

unfoldable pub crit_duplicate : ℕ → ℕ → ℕ → RreqEntry → Bool
unfolding crit_id
crit_duplicate initiator target id e =
    e.node_addr == initiator && in_tbl e.rreq_id_tbl (crit_id target id)

unfoldable pub rreq_tbl_set_max_len : Tbl RreqEntry → ℕ → Tbl RreqEntry
rreq_tbl_set_max_len t max_len = record t { max_len = max_len }

-- What a timeout makes of an entry that has tries left.
unfoldable pub back_off : Confvals → Timeval → RreqEntry → RreqEntry
back_off conf now e =
    let timeout = e.timeout * 2 % ulong_mod in
    let ttl = e.ttl * 2 in
    let period = confval_to_usecs conf max_request_period in
    record e {
      num_rexmts = incr32 e.num_rexmts;
      ttl = if ltb max_ttl ttl then max_ttl else ttl;
      timeout = if ltb period timeout then period else timeout;
      last_used = now;
    }

-- The timer of the entry for `addr` has run out.
unfoldable pub rreq_tbl_timeout :
    Confvals → Timeval → Tbl RreqEntry → ℕ → Tbl RreqEntry × List Action
unfolding back_off crit_addr
rreq_tbl_timeout conf now t addr = elim (tbl_find t (crit_addr addr)) [
  | none ↦ (t, [])
  | some e ↦
      let rest = tbl_detach t (crit_addr addr) in
      if leb (conf max_request_rexmt) e.num_rexmts
      then (unless_full rest (tbl_add_tail rest (record e { state = idle })), [])
      else (let e' = back_off conf now e in
          (
            unless_full rest (tbl_add_tail rest e'),
            dsr_rreq_send e.node_addr e'.ttl
                ∷ set_timer e.node_addr (timeval_add_usecs now e'.timeout)
                ∷ [],
          ))
]

unfoldable pub rreq_tbl_entry_create : RreqGarbage → Confvals → ℕ → RreqEntry
rreq_tbl_entry_create block conf addr = record {
  state = idle;
  node_addr = addr;
  ttl = 0;
  tx_time = record { tv_sec = 0; tv_usec = 0 };
  last_used = block.last_used;
  timeout = block.timeout;
  num_rexmts = 0;
  rreq_id_tbl = init_tbl (conf request_table_ids);
}

-- The first entry of a full table makes room. A table with a limit of 0 is full and empty, and the
-- source takes the head of its list for an entry then, which is not modelled: that table stays here.
unfoldable pub make_room : Tbl RreqEntry → Tbl RreqEntry × List Action
make_room t =
    if tbl_full t
    then elim (tbl_detach_first t) [
      | none ↦ (t, [])
      | some (f, rest) ↦ (rest, del_timer_sync f.node_addr ∷ [])
    ]
    else (t, [])

-- The entry for `addr`, new if there is none, and the table that it is put behind. The block is
-- `none` where `kmalloc` gives none, for the entry or for its timer.
unfoldable pub rreq_tbl_take :
    Option RreqGarbage
    → Confvals
    → Tbl RreqEntry
    → ℕ
    → Option (RreqEntry × Tbl RreqEntry × List Action)
unfolding crit_addr rreq_tbl_entry_create make_room
rreq_tbl_take block conf t addr = elim (tbl_find t (crit_addr addr)) [
  | some e ↦ some (e, tbl_detach t (crit_addr addr), [])
  | none ↦ elim block [
    | none ↦ none
    | some b ↦
        let (rest, actions) = make_room t in some (rreq_tbl_entry_create b conf addr, rest, actions)
  ]
]

-- The oldest identifier of a full entry goes. `room` tells whether `kmalloc` gives a block.
unfoldable pub id_add : Bool → Timeval → RreqEntry → ℕ → ℕ → RreqEntry
id_add room now e target id =
    let ids = if tbl_full e.rreq_id_tbl then tbl_del_first e.rreq_id_tbl else e.rreq_id_tbl in
    record e {
      last_used = now;
      rreq_id_tbl =
          if room
          then unless_full ids (tbl_add_tail ids (record { trg_addr = target; id = id }))
          else ids;
    }

-- The source returns 1 in every case.
unfoldable pub rreq_tbl_add_id :
    Option RreqGarbage
    → Bool
    → Confvals
    → Timeval
    → Tbl RreqEntry
    → ℕ
    → ℕ
    → ℕ
    → Tbl RreqEntry × List Action
unfolding rreq_tbl_take id_add
rreq_tbl_add_id block room conf now t initiator target id =
    elim (rreq_tbl_take block conf t initiator) [
      | none ↦ (t, [])
      | some (e, rest, actions) ↦
          (unless_full rest (tbl_add_tail rest (id_add room now e target id)), actions)
    ]

abbrev stop_timer : RreqEntry → List Action
stop_timer e = elim e.state [ in_route_disc ↦ del_timer_sync e.node_addr ∷ [] | idle ↦ [] ]

unfoldable pub rreq_tbl_route_discovery_cancel :
    Timeval → Tbl RreqEntry → ℕ → Tbl RreqEntry × List Action × ℤ
unfolding crit_addr
rreq_tbl_route_discovery_cancel now t dst = elim (tbl_find_detach t (crit_addr dst)) [
  | none ↦ (t, [], negsuc 0)
  | some (e, rest) ↦ (
    unless_full rest (tbl_add_tail rest (record e { state = idle; last_used = now })),
    stop_timer e,
    pos 1,
  )
]

-- An entry at the start of a discovery.
unfoldable pub discovery_start : Confvals → Timeval → RreqEntry → RreqEntry
discovery_start conf now e = record e {
  state = in_route_disc;
  last_used = now;
  ttl = 1;
  timeout = confval_to_usecs conf nonprop_request_timeout;
  num_rexmts = 0;
}

-- -12 is -ENOMEM.
unfoldable pub dsr_rreq_route_discovery :
    Option RreqGarbage → Confvals → Timeval → Tbl RreqEntry → ℕ → Tbl RreqEntry × List Action × ℤ
unfolding rreq_tbl_take discovery_start
dsr_rreq_route_discovery block conf now t target = elim (rreq_tbl_take block conf t target) [
  | none ↦ (t, [], negsuc 11)
  | some (e, rest, actions) ↦ elim e.state [
    | in_route_disc ↦ (unless_full rest (tbl_add_tail rest e), actions, pos 0)
    | idle ↦
        let e' = discovery_start conf now e in
        (
          unless_full rest (tbl_add_tail rest e'),
          actions
              ++ set_timer target (timeval_add_usecs now e'.timeout)
                ∷ dsr_rreq_send target e'.ttl
                ∷ [],
          pos 1,
        )
  ]
]

unfoldable pub dsr_rreq_duplicate : Tbl RreqEntry → ℕ → ℕ → ℕ → Bool
unfolding crit_duplicate
dsr_rreq_duplicate t initiator target id = in_tbl t (crit_duplicate initiator target id)

-- The timer of the entry for `addr` runs out again and again, at these times.
unfoldable pub rreq_timeouts :
    Confvals → Tbl RreqEntry → ℕ → List Timeval → Tbl RreqEntry × List Action
unfolding rreq_tbl_timeout
rreq_timeouts conf t addr [] = (t, [])
rreq_timeouts conf t addr (now ∷ times) =
    let (t1, actions) = rreq_tbl_timeout conf now t addr in
    let (t2, later) = rreq_timeouts conf t1 addr times in (t2, actions ++ later)
