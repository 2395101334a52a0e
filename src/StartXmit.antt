-- ===== src/StartXmit.antt =====
-- dsr-io.c: a packet of this node's own. A packet that could not be allocated is left out.
pub mod Outcome
pub mod Tests
use dsr_uu.Base.{ℕ, Bool, true, false, List, [], ◌∷◌, ◌++◌, Option, none, some}
use dsr_uu.Base.Int.{ℤ, is_negative}
use dsr_uu.Tbl.{Tbl}
use dsr_uu.Srt.{Garbage, Srt}
use dsr_uu.LinkCache.Search.{lc_srt_find}
use dsr_uu.Rreq.{RreqGarbage, dsr_rreq_route_discovery}
use dsr_uu.Pkt.{DsrPkt}
use dsr_uu.Send.{Effect, xmit, dsr_pkt_free, PktRoom, dsr_srt_add}
use dsr_uu.SendBuf.{SendBufEntry, send_buf_enqueue_packet}
use dsr_uu.Node.{Node, Env, emit, set_lc, perform_all}

-- What `kmalloc` gives: for the route, for the space of options, for the entry of the send buffer,
-- for that of the table of requests, and for the request.
pub record XmitRoom : Type 0 where
  pub srt : Option Garbage
  pub opts : Bool
  pub waiting : Bool
  pub rreq : Option RreqGarbage
  pub pkt : PktRoom

-- A route is looked for; what becomes of the discovery is only logged.
unfoldable pub discover : Env → XmitRoom → Node → ℕ → Node
discover env room s dst =
    let (t, actions, res) = dsr_rreq_route_discovery room.rreq env.conf env.now s.rreq_tbl dst in
    perform_all room.pkt env (record s { rreq_tbl = t }) actions

-- The packet has been put into the buffer, or not.
unfoldable pub after_enqueue :
    Env → XmitRoom → Node → DsrPkt → Tbl SendBufEntry × List Effect × ℤ → Node
unfolding discover
after_enqueue env room s dp (buf, effects, res) =
    let s' = emit (record s { send_buf = buf }) effects in
    elim (is_negative res) [
      | true ↦ emit s' (dsr_pkt_free dp ∷ [])
      | false ↦ discover env room s' dp.dst
    ]

-- There is no route.
unfoldable pub put_aside : Env → XmitRoom → Node → DsrPkt → Node
unfolding after_enqueue
put_aside env room s dp =
    after_enqueue env room s dp
      (send_buf_enqueue_packet room.waiting env.conf env.now s.send_buf dp)

-- The packet with the route that was found for it, or none.
unfoldable pub with_srt : Env → XmitRoom → Node → DsrPkt → Option Srt → Node
unfolding put_aside
with_srt env room s dp none = put_aside env room s (record dp { srt = none })
with_srt env room s dp (some srt) =
    let dp' : DsrPkt = record dp { srt = some srt } in
    elim (dsr_srt_add room.opts dp') [
      | none ↦ emit s (dsr_pkt_free dp' ∷ [])
      | some dp'' ↦ emit s (xmit dp'' ∷ [])
    ]

unfoldable pub dsr_start_xmit : Env → XmitRoom → Node → DsrPkt → Node
unfolding with_srt
dsr_start_xmit env room s dp =
    let (lc, srt) = lc_srt_find room.srt s.maint.lc dp.src dp.dst in
    with_srt env room (set_lc s lc) dp srt
