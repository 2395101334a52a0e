-- ===== src/Life.antt =====
-- A node from its start on: what happens to it, one event after the other. An event is what the kernel
-- calls: a packet comes in from the device, one of the node's own comes from above, or a timer runs out.
-- No packet asks for an acknowledgement here, so that one that goes out changes no table, and the
-- maintenance buffer and its timer are not used. A handler is not interrupted.
pub mod Step
pub mod Sound
pub mod Tests
use dsr_uu.Base.{ℕ, suc, ◌+◌, Bool, true, false, List, [], ◌∷◌, Option, none, some, if◌then◌else◌}
use dsr_uu.Conf.{max_maint_rexmt}
use dsr_uu.Tbl.{init_tbl}
use dsr_uu.LinkCache.{Memory, lc_init}
use dsr_uu.Rreq.{rreq_tbl_timeout}
use dsr_uu.Neigh.{neigh_tbl_init}
use dsr_uu.Pkt.{DsrPkt}
use dsr_uu.Send.{PktRoom}
use dsr_uu.SendBuf.{send_buf_init, send_buf_timeout}
use dsr_uu.MaintBuf.{Maint, maint_buf_init}
use dsr_uu.MaintBuf.Timeout.{maint_buf_timeout}
use dsr_uu.MaintBuf.Ops.{maint_buf_add}
use dsr_uu.Rrep.{grat_rrep_tbl_timeout, grat_rrep_tbl_init}
use dsr_uu.Node.{Node, Env, Room, emit, set_at, perform_all}
use dsr_uu.Recv.{dsr_recv}
use dsr_uu.Recv.Errors.{rounds}
use dsr_uu.StartXmit.{XmitRoom, dsr_start_xmit}

abbrev pub rreq_tbl_max_len : ℕ
rreq_tbl_max_len = 64

-- The tables as `dsr_module_init` leaves them. The memory and the first number of a request are
-- whatever they are.
unfoldable pub dsr_module_init : Memory → ℕ → Node
dsr_module_init mem rreq_seqno = record {
  maint = record {
    maint_buf = maint_buf_init;
    ack_timer = none;
    lc = lc_init mem;
    neigh_tbl = neigh_tbl_init;
    effects = [];
    calls = 0;
    faulty = false;
  };
  rreq_tbl = init_tbl rreq_tbl_max_len;
  rreq_timers = λ _. none;
  rreq_seqno = rreq_seqno;
  grat_rrep = grat_rrep_tbl_init;
  send_buf = send_buf_init;
}

pub data Event : Type 0 where
  receives : (ℕ → Room) → (ℕ → Room) → DsrPkt → Event
  starts : XmitRoom → DsrPkt → Event
  rreq_timer : PktRoom → ℕ → Event
  grat_timer : Event
  send_buf_timer : Event

-- The timer of an entry has run out, and is no longer set.
unfoldable pub rreq_timeout : PktRoom → Env → Node → ℕ → Node
rreq_timeout room env s addr =
    let (t, actions) = rreq_tbl_timeout env.conf env.now s.rreq_tbl addr in
    perform_all room env (record s { rreq_tbl = t; rreq_timers = set_at s.rreq_timers addr none })
      actions

unfoldable pub send_timeout : Env → Node → Node
send_timeout env s =
    let (buf, effects) = send_buf_timeout env.conf env.now s.send_buf in
    emit (record s { send_buf = buf }) effects

unfoldable pub event_step : Env → Node → Event → Option Node
unfolding rreq_timeout send_timeout
event_step env s (receives rooms later dp) = dsr_recv env rooms later s dp
event_step env s (starts room dp) = some (dsr_start_xmit env room s dp)
event_step env s (rreq_timer room addr) = some (rreq_timeout room env s addr)
event_step env s grat_timer = some (record s { grat_rrep = grat_rrep_tbl_timeout s.grat_rrep })
event_step env s send_buf_timer = some (send_timeout env s)

-- Each event comes with what the node reads then. `none` is that a handler comes to no
-- end.
unfoldable pub event_run : Node → List (Env × Event) → Option Node
unfolding event_step
event_run s [] = some s
event_run s ((env, ev) ∷ rest) = elim (event_step env s ev) [
  | none ↦ none
  | some s' ↦ event_run s' rest
]
