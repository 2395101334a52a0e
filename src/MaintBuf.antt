-- ===== src/MaintBuf.antt =====
-- maint-buf.c: the packets whose receipt by the next hop is not yet confirmed. The clock reads the
-- same during one operation. `rooms` gives what `kmalloc` gives to each call that needs memory,
-- counted by `calls`. In ns-2 the interface queue loses its packets for a lost neighbour; this is
-- the version of Linux. What `dsr_pkt_alloc` reads of the copy that `skb_copy` makes is an argument.
pub mod Salvage
pub mod Timeout
pub mod Ops
pub mod Work
pub mod Rounds
pub mod Finish
pub mod Acked
pub mod OnTime
pub mod Resent
pub mod Timer
pub mod Lost
pub mod Added
pub mod Tests
use dsr_uu.Base.{
  ◌-◌, ℕ, zero, suc, ◌+◌, ◌%◌, ◌^◌, Bool, true, false, ◌&&◌, List, [], ◌∷◌, ◌++◌, map, Option, none,
  some, leb, ltb, ◌==◌, if◌then◌else◌, accept, length, incr32,
}
use dsr_uu.Base.Int.{ℤ, pos, negsuc, leb_int, to_int, is_positive}
use dsr_uu.Timer.{Timeval, usecs, timeval_diff, timeval_add_usecs}
use dsr_uu.Conf.{Confvals, confval_to_usecs, max_maint_rexmt, maint_holdoff_time}
use dsr_uu.Tbl.{
  Tbl, init_tbl, tbl_empty, tbl_add, tbl_add_tail, unless_full, tbl_find, tbl_find_do,
  tbl_detach_first, tbl_for_each_del, for_each,
}
use dsr_uu.Tbl.Drain.{drain}
use dsr_uu.LinkCache.{LcGraph, lc_link_del}
use dsr_uu.Neigh.{
  Neighbor, u64_mod, neigh_tbl_query, neigh_tbl_set_rto, neigh_tbl_set_ack_req_time,
  neigh_tbl_id_inc,
}
use dsr_uu.Pkt.{DsrPkt}
use dsr_uu.Send.{
  Effect, dsr_pkt_free, xmit, set_timer, PktRoom, dsr_rerr_send, dsr_ack_req_send,
  dsr_ack_req_opt_add,
}
use dsr_uu.MaintBuf.Salvage.{SalvageRoom, salvaged, failed, fault, maint_buf_salvage}

abbrev pub maint_buf_max_len : ℕ
maint_buf_max_len = 100

-- `struct maint_entry`
pub record MaintEntry : Type 0 where
  pub nxt_hop : ℕ
  pub rexmt : ℕ
  pub id : ℕ
  pub tx_time : Timeval
  pub expires : Timeval
  pub rto : ℕ
  pub ack_req_sent : Bool
  pub dp : DsrPkt

-- What one call gets: an entry, the packet read again from a copy of its socket buffer, space of
-- options, a packet, that of a request for an acknowledgement, a salvaged route.
pub record MaintRoom : Type 0 where
  pub entry : Bool
  pub copy : Option DsrPkt
  pub opts : Bool
  pub rerr : PktRoom
  pub ack_req : Bool
  pub salvage : SalvageRoom

-- The node: its buffer, its timer, and the tables that the buffer works on. `faulty` tells that the
-- handler gets no further: a route or a packet at NULL was used, or a salvaged packet was transmitted
-- that `maint_buf_add` is to keep, which waits for the lock of the buffer that the handler holds.
pub record Maint : Type 0 where
  pub maint_buf : Tbl MaintEntry
  pub ack_timer : Option Timeval
  pub lc : LcGraph
  pub neigh_tbl : Tbl Neighbor
  pub effects : List Effect
  pub calls : ℕ
  pub faulty : Bool

-- `long` where `usecs_t` is meant.
abbrev pub to_usecs_t : ℤ → ℕ
to_usecs_t (pos n) = n % u64_mod
to_usecs_t (negsuc n) = u64_mod - 1 - n

unfoldable pub crit_addr_id_del : ℕ → ℕ → MaintEntry → Bool
crit_addr_id_del nxt_hop id m = m.nxt_hop == nxt_hop && leb m.id id

-- What the same walk leaves in `rtt` of the query.
unfoldable pub rtt_addr_id : Timeval → ℕ → ℕ → MaintEntry → ℕ
rtt_addr_id now id rtt m =
    if m.id == id && m.rexmt == 0 then to_usecs_t (timeval_diff now m.tx_time) else rtt

unfoldable pub crit_addr_del : ℕ → MaintEntry → Bool
crit_addr_del nxt_hop m = m.nxt_hop == nxt_hop

unfoldable pub rtt_addr : Timeval → ℕ → MaintEntry → ℕ
rtt_addr now rtt m = if m.rexmt == 0 then to_usecs_t (timeval_diff now m.tx_time) else rtt

unfoldable pub crit_addr : ℕ → MaintEntry → Bool
crit_addr nxt_hop m = m.nxt_hop == nxt_hop

unfoldable pub crit_expires : MaintEntry → MaintEntry → Bool
crit_expires m m_new = is_positive (timeval_diff m.expires m_new.expires)

unfoldable pub crit_ack_req_sent : MaintEntry → Bool
crit_ack_req_sent m = m.ack_req_sent

unfoldable pub maint_buf_set_max_len : Maint → ℕ → Maint
maint_buf_set_max_len s max_len = record s {
  maint_buf = record (s.maint_buf) { max_len = max_len };
}

-- `none` is NULL: a failed copy is given back.
unfoldable pub maint_entry_create : MaintRoom → Timeval → DsrPkt → ℕ → ℕ → Option MaintEntry
maint_entry_create room now dp id rto =
    if room.entry
    then elim room.copy [
      | none ↦ none
      | some c ↦ some (record {
        nxt_hop = dp.nxt_hop;
        rexmt = 0;
        id = id;
        tx_time = now;
        expires = timeval_add_usecs now rto;
        rto = rto;
        ack_req_sent = false;
        dp = record c { nxt_hop = dp.nxt_hop };
      })
    ]
    else none

unfoldable pub maint_buf_init : Tbl MaintEntry
maint_buf_init = init_tbl maint_buf_max_len
