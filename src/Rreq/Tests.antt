-- ===== src/Rreq/Tests.antt =====
-- dsr-rreq.c: the theorems at concrete tables.
use dsr_uu.Base.{◌≡◌, refl, true, List, [], ◌∷◌, none, some, arith, length}
use dsr_uu.Timer.{Timeval}
use dsr_uu.Conf.{default_val, max_request_rexmt}
use dsr_uu.Tbl.{Tbl, init_tbl, tbl_find}
use dsr_uu.Rreq.{
  RreqEntry, RreqGarbage, idle, in_route_disc, crit_addr, rreq_tbl_add_id, dsr_rreq_duplicate,
  rreq_timeouts,
}
use dsr_uu.Rreq.Table.{IsLimit, IsRreqTbl}
use dsr_uu.Rreq.Invariant.{RreqOp, timeout, add_id, cancel, discover, rreq_run, rreq_run-IsRreqTbl}
use dsr_uu.Rreq.Discovery.{add_id-duplicate}
use dsr_uu.Rreq.Backoff.{rreq_timeouts-idle}

abbrev noon : Timeval
noon = record { tv_sec = 43200; tv_usec = 0 }

abbrev block : RreqGarbage
block = record { last_used = noon; timeout = 7 }

default-IsLimit : IsLimit default_val
unfolding default_val
default-IsLimit = (omega arith, omega arith)

abbrev ops : List RreqOp
ops =
    discover (some block) noon 9
    ∷ add_id (some block) true noon 3 9 1
    ∷ timeout noon 9
    ∷ add_id none true noon 4 9 1
    ∷ cancel noon 9
    ∷ []

rreq_run-IsRreqTbl_example : IsRreqTbl (rreq_run default_val (init_tbl 2) ops)
rreq_run-IsRreqTbl_example =
    rreq_run-IsRreqTbl default_val 2 ops default-IsLimit (omega arith) (omega arith)

abbrev waiting : RreqEntry
waiting = record {
  state = in_route_disc;
  node_addr = 9;
  ttl = 64;
  tx_time = noon;
  last_used = noon;
  timeout = 30000;
  num_rexmts = 14;
  rreq_id_tbl = init_tbl 16;
}

abbrev table : Tbl RreqEntry
table = record { items = waiting ∷ []; len = 1; max_len = 64 }

table-IsRreqTbl : IsRreqTbl table
unfolding init_tbl
table-IsRreqTbl = record {
  table = record { counted = refl; bounded = omega arith; is_word = omega arith };
  entries = (
    (
      record { counted = refl; bounded = omega arith; is_word = omega arith },
      omega arith,
      omega arith,
    ),
    tt,
  );
  apart = (tt, tt);
}

add_id-duplicate_example :
    dsr_rreq_duplicate (rreq_tbl_add_id (some block) true default_val noon table 9 5 77).0 9 5 77
    ≡ true
add_id-duplicate_example =
    add_id-duplicate block default_val noon table 9 5 77 default-IsLimit table-IsRreqTbl
      (omega arith)

held : tbl_find table (crit_addr 9) ≡ some waiting
unfolding tbl_find crit_addr
held = refl

rexmts : (default_val max_request_rexmt ≡ 16)
unfolding default_val
rexmts = refl

rreq_timeouts-idle_example :
    (e' : RreqEntry) × (tbl_find
        (rreq_timeouts default_val table 9 (noon ∷ noon ∷ noon ∷ [])).0
        (crit_addr 9)
      ≡ some e')
    × (e'.state ≡ idle)
    × (length (rreq_timeouts default_val table 9 (noon ∷ noon ∷ noon ∷ [])).1 ≡ 4)
rreq_timeouts-idle_example =
    rreq_timeouts-idle default_val table 9 2 (noon ∷ noon ∷ noon ∷ []) waiting table-IsRreqTbl
      (omega arith) held (omega (arith, rexmts)) (omega (arith, rexmts)) refl
