-- ===== src/Recv/Same.antt =====
-- The handlers of options leave the packet the addresses, the flag and the payload that it came with.
use dsr_uu.Base.{
  ℕ, suc, ◌≡◌, subst, inl, inr, Bool, List, [], ◌∷◌, ◌++◌, Option, none, some, Option-cases, arith,
}
use dsr_uu.Srt.{Srt, SrtOpt}
use dsr_uu.Pkt
use dsr_uu.Pkt.{Opt, RreqOpt, RrepOpt, RerrOpt, AckOpt, AckReqOpt, DsrPkt}
use dsr_uu.Node.{Node, Env, Room}
use dsr_uu.Recv.Action.{Actions, ◌or◌, Handled}
use dsr_uu.Recv.Replies.{dsr_rrep_opt_recv}
use dsr_uu.Recv.Errors.{dsr_rerr_opt_recv, dsr_ack_opt_recv, dsr_ack_req_opt_recv}
use dsr_uu.Recv.Requests.{forward_rreq, answer_or_forward, rreq_route, rreq_new, dsr_rreq_opt_recv}
use dsr_uu.Recv.Routes.{take_route, next_segment, srt_route, dsr_srt_opt_recv}
use dsr_uu.Recv.{Received, recv_opt, recv_opts, is_last}

abbrev pub Same : DsrPkt → DsrPkt → Type 0
Same dp dp' =
    (dp'.src ≡ dp.src)
    × (dp'.dst ≡ dp.dst)
    × (dp'.promisc_recv ≡ dp.promisc_recv)
    × (dp'.ttl ≡ dp.ttl)
    × (dp'.payload ≡ dp.payload)

abbrev AllSame : DsrPkt → Option Handled → Type 0
AllSame dp none = Unit
AllSame dp (some h) = Same dp h.dp

Same-trans : (a b c : DsrPkt) → Same a b → Same b c → Same a c
Same-trans a b c h k = ground (arith, h, k)

module _ (env : Env) (room : Room) where
  rrep-Same :
      (s : Node) (dp : DsrPkt) (o : RrepOpt) → AllSame dp (dsr_rrep_opt_recv env room s dp o)
  unfolding dsr_rrep_opt_recv
  rrep-Same s dp o = ground arith

  rerr-Same :
      (s : Node) (dp : DsrPkt) (o : RerrOpt) → AllSame dp (dsr_rerr_opt_recv env room s dp o)
  unfolding dsr_rerr_opt_recv
  rerr-Same s dp o = ground arith

  ack-Same : (s : Node) (dp : DsrPkt) (o : AckOpt) → AllSame dp (dsr_ack_opt_recv env room s dp o)
  unfolding dsr_ack_opt_recv
  ack-Same s dp o = ground arith

  ack_req-Same :
      (s : Node) (dp : DsrPkt) (o : AckReqOpt) → AllSame dp (dsr_ack_req_opt_recv env room s dp o)
  unfolding dsr_ack_req_opt_recv
  ack_req-Same s dp o = ground arith

  answer-Same :
      (last : Bool) (s : Node) (dp : DsrPkt) (o : RreqOpt) (srt srt_rev : Srt)
      → AllSame dp (answer_or_forward env room last s dp o srt srt_rev)
  unfolding answer_or_forward forward_rreq
  answer-Same last s dp o srt srt_rev = ground arith

  route-Same :
      (last : Bool) (s : Node) (dp : DsrPkt) (o : RreqOpt) (srt srt_rev : Srt)
      → AllSame dp (rreq_route env room last s dp o srt srt_rev)
  unfolding rreq_route answer_or_forward forward_rreq
  route-Same last s dp o srt srt_rev = ground arith

  new-Same :
      (last : Bool) (s : Node) (dp : DsrPkt) (o : RreqOpt)
      → AllSame dp (rreq_new env room last s dp o)
  unfolding rreq_new rreq_route answer_or_forward forward_rreq
  new-Same last s dp o = ground arith

  rreq-Same :
      (last : Bool) (s : Node) (dp : DsrPkt) (o : RreqOpt)
      → AllSame dp (dsr_rreq_opt_recv env room last s dp o)
  unfolding dsr_rreq_opt_recv rreq_new rreq_route answer_or_forward forward_rreq
  rreq-Same last s dp o = ground arith

  next-Same :
      (s : Node) (dp : DsrPkt) (o : SrtOpt) (srt : Srt) → Same dp (next_segment s dp o srt).dp
  unfolding next_segment
  next-Same s dp o srt = ground arith

  srt-Same : (s : Node) (dp : DsrPkt) (o : SrtOpt) → Same dp (dsr_srt_opt_recv env room s dp o).dp
  unfolding dsr_srt_opt_recv srt_route take_route next_segment
  srt-Same s dp o = ground arith

  opt-Same :
      (last : Bool) (s : Node) (dp : DsrPkt) (o : Opt) → AllSame dp (recv_opt env room last s dp o)
  unfolding recv_opt dsr_ack_opt_recv
  opt-Same last s dp (Pkt.Opt.rreq o) = ground (arith, rreq-Same last s dp o)
  opt-Same last s dp (Pkt.Opt.rrep o) = ground (arith, rrep-Same s dp o)
  opt-Same last s dp (Pkt.Opt.rerr o) = ground (arith, rerr-Same s dp o)
  opt-Same last s dp (Pkt.Opt.ack o) = ground arith
  opt-Same last s dp (Pkt.Opt.srt o) = srt-Same s dp o
  opt-Same last s dp (Pkt.Opt.ack_req o) = ack_req-Same s dp o
  opt-Same last s dp (Pkt.Opt.other t l) = ground arith

pub opts-Same :
    (env : Env) (rooms : ℕ → Room) (i : ℕ) (s : Node) (dp : DsrPkt) (action : Actions)
    (done opts : List Opt) (r : Received)
    → recv_opts env rooms i s dp action done opts ≡ some r
    → Same dp r.dp
unfolding recv_opts
opts-Same env rooms i s dp action done [] r e = ground arith
opts-Same env rooms i s dp action done (o ∷ rest) r e =
    elim (Option-cases (recv_opt env (rooms i) (is_last rest) s dp o)) [
      | inl n ↦ absurd (ground (arith, n, e))
      | inr (h, y) ↦
          Same-trans dp h.dp r.dp
            (subst (AllSame dp) y (opt-Same env (rooms i) (is_last rest) s dp o))
            (opts-Same env rooms (suc i) h.node h.dp (action or h.action) (done ++ h.opt ∷ []) rest
              r (rw (y, recv_opts) at e))
    ]
