-- ===== src/Life/Step.antt =====
-- Every event leaves a sound node sound, and every handler comes to an end.
use dsr_uu.Base.{
  ◌≡◌, ℕ, ◌≤◌, inl, inr, Bool, true, false, List, Option, none, some, arith, All-mono, Bool-cases,
  Option-cases,
}
use dsr_uu.Base.Int.{ℤ, is_negative}
use dsr_uu.Timer.{usecs}
use dsr_uu.Tbl.{Tbl}
use dsr_uu.Srt.{Srt}
use dsr_uu.LinkCache.Search.{lc_srt_find}
use dsr_uu.Rreq.{rreq_tbl_timeout, dsr_rreq_route_discovery}
use dsr_uu.Rreq.Table.{IsLimit}
use dsr_uu.Rreq.Invariant.{RreqOp, rreq_step, step_keeps, timeout_keeps}
use dsr_uu.Pkt.{DsrPkt}
use dsr_uu.Send.{Effect, PktRoom, dsr_srt_add}
use dsr_uu.SendBuf.{SendBufEntry, send_buf_enqueue_packet}
use dsr_uu.SendBuf.Queue.{arrival}
use dsr_uu.SendBuf.Steps.{UpTo, enqueue-Step, timeout-Step}
use dsr_uu.Node.{Node, Env, emit, set_lc}
use dsr_uu.Node.Invariant.{IsNode, perform_all-IsNode}
use dsr_uu.Recv.Sound.{IsOpts}
use dsr_uu.Recv.Total.{SoundNode, handled-Sound}
use dsr_uu.Rrep.Run.{timeout-Result}
use dsr_uu.StartXmit.{XmitRoom, discover, after_enqueue, put_aside, with_srt, dsr_start_xmit}
use dsr_uu.Life.{
  Event, receives, starts, rreq_timer, grat_timer, send_buf_timer, rreq_timeout, send_timeout,
  event_step,
}

-- No packet asks for an acknowledgement; there is memory for the packets of acknowledgements; and a
-- packet that comes in has options as long as their headers, with none behind a request.
abbrev pub IsArrival : Event → Type 0
IsArrival (receives rooms later dp) =
    ((n : ℕ) → (rooms n).ack_pkt ≡ true) × IsOpts dp.opts × (dp.request_ack ≡ false)
IsArrival (starts room dp) = dp.request_ack ≡ false
IsArrival (rreq_timer room addr) = Unit
IsArrival grat_timer = Unit
IsArrival send_buf_timer = Unit

-- The clock has not gone back, and the limit for identifiers is a word other than 0.
abbrev pub Fits : ℕ → Env × Event → Type 0
Fits k (env, ev) = (k ≤ usecs env.now) × IsLimit env.conf × IsArrival ev

pub later-IsNode : (j k : ℕ) (s : Node) → j ≤ k → IsNode j s → IsNode k s
later-IsNode j k s h v = (
  v.0,
  v.1,
  record {
    buffer = v.2.buffer;
    before =
        All-mono (λ e. arrival e ≤ j) (λ e. arrival e ≤ k) s.send_buf.items (λ e le. omega arith)
          v.2.before;
    limit = v.2.limit;
  },
  v.3,
)

module _ (env : Env) (lim : IsLimit env.conf) where
  abbrev time : ℕ
  time = usecs env.now

  discover-IsNode :
      (room : XmitRoom) (s : Node) (dst : ℕ) → IsNode time s → IsNode time (discover env room s dst)
  unfolding discover rreq_step
  discover-IsNode room s dst v =
      let (t, actions, res) = dsr_rreq_route_discovery room.rreq env.conf env.now s.rreq_tbl dst in
      perform_all-IsNode time room.pkt env (record s { rreq_tbl = t }) actions
        (
          v.0,
          step_keeps env.conf s.rreq_tbl (RreqOp.discover room.rreq env.now dst) lim v.1,
          v.2,
          v.3,
        )

  after_enqueue-IsNode :
      (room : XmitRoom) (s : Node) (dp : DsrPkt) (buf : Tbl SendBufEntry) (effects : List Effect)
      (res : ℤ)
      → IsNode time s
      → UpTo time buf
      → IsNode time (after_enqueue env room s dp (buf, effects, res))
  unfolding after_enqueue
  after_enqueue-IsNode room s dp buf effects res v u =
      let s' : Node = emit (record s { send_buf = buf }) effects in
      let v' : IsNode time s' = (v.0, v.1, u, v.3) in
      elim (Bool-cases (is_negative res)) [
        | inl n ↦ rw (n, after_enqueue) v'
        | inr n ↦ rw (n, after_enqueue) (discover-IsNode room s' dp.dst v')
      ]

  enqueue-UpTo :
      (room : Bool) (dp : DsrPkt) (t : Tbl SendBufEntry)
      → UpTo time t
      → UpTo time (send_buf_enqueue_packet room env.conf env.now t dp).0
  unfolding send_buf_enqueue_packet
  enqueue-UpTo false dp t u = u
  enqueue-UpTo true dp t u = (enqueue-Step env.conf env.now dp time t u (omega arith)).0

  with_srt-IsNode :
      (room : XmitRoom) (s : Node) (dp : DsrPkt) (srt : Option Srt)
      → IsNode time s
      → IsNode time (with_srt env room s dp srt)
  unfolding with_srt put_aside
  with_srt-IsNode room s dp none v =
      let dp' : DsrPkt = record dp { srt = none } in
      let r = send_buf_enqueue_packet room.waiting env.conf env.now s.send_buf dp' in
      after_enqueue-IsNode room s dp' r.0 r.1 r.2 v (enqueue-UpTo room.waiting dp' s.send_buf v.2)
  with_srt-IsNode room s dp (some srt) v =
      elim (Option-cases (dsr_srt_add room.opts (record dp { srt = some srt }))) [
        | inl n ↦ rw (n, with_srt) v
        | inr (dp', y) ↦ rw (y, with_srt) v
      ]

  start_xmit-IsNode :
      (room : XmitRoom) (s : Node) (dp : DsrPkt)
      → IsNode time s
      → IsNode time (dsr_start_xmit env room s dp)
  unfolding dsr_start_xmit
  start_xmit-IsNode room s dp v =
      let (lc, srt) = lc_srt_find room.srt s.maint.lc dp.src dp.dst in
      with_srt-IsNode room (set_lc s lc) dp srt v

  rreq_timeout-IsNode :
      (room : PktRoom) (s : Node) (addr : ℕ)
      → IsNode time s
      → IsNode time (rreq_timeout room env s addr)
  unfolding rreq_timeout
  rreq_timeout-IsNode room s addr v =
      let (t, actions) = rreq_tbl_timeout env.conf env.now s.rreq_tbl addr in
      perform_all-IsNode time room env _ actions
        (v.0, timeout_keeps env.conf env.now s.rreq_tbl addr v.1, v.2, v.3)

  pub step-Sound :
      (s : Node) (ev : Event) → IsArrival ev → IsNode time s → SoundNode time (event_step env s ev)
  unfolding event_step send_timeout
  step-Sound s (receives rooms later dp) h v = handled-Sound time env lim rooms later s dp h.0 h.1 v
  step-Sound s (starts room dp) h v = start_xmit-IsNode room s dp v
  step-Sound s (rreq_timer room addr) h v = rreq_timeout-IsNode room s addr v
  step-Sound s grat_timer h v = (v.0, v.1, v.2, (timeout-Result env.conf s.grat_rrep v.3).0)
  step-Sound s send_buf_timer h v =
      (v.0, v.1, (timeout-Step env.conf env.now time s.send_buf v.2).0, v.3)
