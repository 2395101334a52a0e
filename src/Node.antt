-- ===== src/Node.antt =====
-- A node: the tables and buffers of the source, which are global variables there, and what the
-- handlers of packets do to more than one of them.
pub mod Perform
pub mod Invariant
pub mod Sample
use dsr_uu.Base.{ℕ, Bool, List, [], ◌∷◌, ◌++◌, Option, none, some, ◌==◌, if◌then◌else◌}
use dsr_uu.Timer.{Timeval}
use dsr_uu.Conf.{Confvals, confval_to_usecs, route_cache_timeout}
use dsr_uu.Tbl.{Tbl}
use dsr_uu.Srt.{Garbage, Srt}
use dsr_uu.LinkCache.{LcGraph, Blocks, LinkInfo, lc_link_add}
use dsr_uu.LinkCache.Search.{lc_srt_add, lc_srt_find}
use dsr_uu.Rreq.{RreqEntry, RreqGarbage, Action, dsr_rreq_send, set_timer, del_timer_sync}
use dsr_uu.Rreq.Request
use dsr_uu.Neigh.{neigh_tbl_add}
use dsr_uu.Send.{Effect, PktRoom}
use dsr_uu.SendBuf.{SendBufEntry, SendBufVerdict, send_buf_set_verdict}
use dsr_uu.MaintBuf.{Maint, MaintRoom}
use dsr_uu.Rrep.{GratRrep}

-- `maint` holds the link cache, the neighbours and what is done outside of the tables. `rreq_timers`
-- gives the time at which the timer of the entry for an address runs out.
pub record Node : Type 0 where
  pub maint : Maint
  pub rreq_tbl : Tbl RreqEntry
  pub rreq_timers : ℕ → Option Timeval
  pub rreq_seqno : ℕ
  pub grat_rrep : GratRrep
  pub send_buf : Tbl SendBufEntry

-- What a handler reads: the configuration, `my_addr()`, the clock, and the hardware address that the
-- packet comes from.
pub record Env : Type 0 where
  pub conf : Confvals
  pub my_addr : ℕ
  pub now : Timeval
  pub ethh : ℕ

-- What one handler gets from `kmalloc`, call by call: for the routes that it makes, for the links,
-- neighbours, requests and replies that it records, for the packets that it makes or sends on.
-- `intended`, `prev` and `next` are what is read outside of the addresses of a route.
pub record Room : Type 0 where
  pub srt : Option Garbage
  pub srt_rev : Option Garbage
  pub srt_split : Option Garbage
  pub srt_cut : Option Garbage
  pub srt_back : Option Garbage
  pub srt_rc : Option Garbage
  pub srt_cat : Option Garbage
  pub duplicates : Option Garbage
  pub link : Blocks
  pub route : ℕ → Blocks
  pub neigh : Bool
  pub rreq : Option RreqGarbage
  pub rreq_id : Bool
  pub grat : Option Timeval
  pub pkt : PktRoom
  pub ack_pkt : Bool
  pub ack : Bool
  pub waiting : ℕ → Option Garbage
  pub waiting_opts : ℕ → Bool
  pub maint : ℕ → MaintRoom
  pub intended : ℕ
  pub prev : ℕ
  pub next : ℕ

abbrev pub emit : Node → List Effect → Node
emit s effects = record s { maint = record (s.maint) { effects = s.maint.effects ++ effects } }

abbrev pub set_lc : Node → LcGraph → Node
set_lc s lc = record s { maint = record (s.maint) { lc = lc } }

-- The lifetime of what is learned from a packet, at the cost of one hop.
abbrev pub link_info : Env → LinkInfo
link_info env = record {
  now = env.now;
  timeout = confval_to_usecs env.conf route_cache_timeout;
  status = 0;
  cost = 1;
}

-- `dsr_rtc_add`, which link-cache.h defines as `lc_srt_add`, where nobody looks at the result.
unfoldable pub add_route : Env → Room → Node → Srt → Node
add_route env room s srt = set_lc s (lc_srt_add room.route s.maint.lc (some srt) (link_info env)).0

unfoldable pub add_link : Env → Room → Node → ℕ → Node
add_link env room s addr =
    set_lc s (lc_link_add room.link s.maint.lc env.my_addr addr (link_info env)).0

unfoldable pub add_neigh : Env → Room → Node → ℕ → Node
add_neigh env room s addr = record s {
  maint = record (s.maint) {
    neigh_tbl = (neigh_tbl_add room.neigh s.maint.neigh_tbl addr env.ethh).0;
  };
}

-- `send_buf_set_verdict(SEND_BUF_SEND, dst)`
unfoldable pub send_waiting : Room → Node → ℕ → Node
send_waiting room s dst =
    let (buf, sending) =
      send_buf_set_verdict room.waiting room.waiting_opts s.maint.lc s.send_buf SendBufVerdict.send
        dst in
    emit (record (set_lc s sending.lc) { send_buf = buf }) sending.effects

abbrev pub set_at : (ℕ → Option Timeval) → ℕ → Option Timeval → ℕ → Option Timeval
set_at timers addr at a = if a == addr then at else timers a

-- What the table of route requests has to be done outside of it.
unfoldable pub perform : PktRoom → Env → Node → Action → Node
perform room env s (dsr_rreq_send target ttl) =
    let (seqno, effects) = Request.dsr_rreq_send room env.my_addr s.rreq_seqno target ttl in
    emit (record s { rreq_seqno = seqno }) effects
perform room env s (set_timer addr at) = record s {
  rreq_timers = set_at s.rreq_timers addr (some at);
}
perform room env s (del_timer_sync addr) = record s { rreq_timers = set_at s.rreq_timers addr none }

unfoldable pub perform_all : PktRoom → Env → Node → List Action → Node
unfolding perform
perform_all room env s [] = s
perform_all room env s (a ∷ rest) = perform_all room env (perform room env s a) rest
