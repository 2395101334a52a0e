-- ===== src/Recv/Sound.antt =====
-- The handler of each option comes to an end, and leaves the node sound.
use dsr_uu.Base.{
  ℕ, ◌+◌, ◌≤◌, ◌≡◌, refl, inl, inr, Bool, true, false, List, [], ◌∷◌, ◌++◌, Option, none, some,
  Option-cases, arith,
}
use dsr_uu.Srt.{Srt, SrtOpt, dsr_srt_new, dsr_srt_new_rev}
use dsr_uu.Rreq.{rreq_tbl_add_id, rreq_tbl_route_discovery_cancel}
use dsr_uu.Rreq.Table.{IsLimit}
use dsr_uu.Rreq.Invariant.{add_id, cancel, rreq_step, step_keeps}
use dsr_uu.Pkt
use dsr_uu.Pkt.{Opt, RreqOpt, RrepOpt, RerrOpt, AckOpt, AckReqOpt, DsrPkt}
use dsr_uu.MaintBuf.{Maint}
use dsr_uu.MaintBuf.Work.{work}
use dsr_uu.Send.{dsr_ack_send}
use dsr_uu.MaintBuf.Ops.{maint_buf_del_all, maint_buf_del_all_id}
use dsr_uu.Rrep.Refine.{add-Result}
use dsr_uu.Node.{Node, Env, Room, add_route, add_link, add_neigh}
use dsr_uu.Node.Invariant.{
  IsNode, send_waiting-IsNode, perform_all-IsNode, SoundResult, del_all-Sound, del_all_id-Sound,
}
use dsr_uu.Recv.Action.{Handled}
use dsr_uu.Recv.Replies.{rrep_srt_dst, rrep_addrs_len, cancel_discovery, dsr_rrep_opt_recv}
use dsr_uu.Recv.Errors.{
  rounds, unreachable, dsr_rerr_opt_recv, dsr_ack_opt_recv, dsr_ack_req_opt_recv,
}
use dsr_uu.Recv.Requests.{
  rreq_addrs_len, previous_hop, note_request, learn, forward_rreq, answer_or_forward, rreq_route,
  rreq_new, dsr_rreq_opt_recv,
}
use dsr_uu.Recv.Routes.{take_route, learn_route, shorten, next_segment, srt_route, dsr_srt_opt_recv}
use dsr_uu.Recv.{recv_opt, is_last}

-- An option at least as long as its header; a request has no option behind it.
abbrev pub IsOpt : Bool → Opt → Type 0
IsOpt last (Pkt.Opt.rreq o) = (6 ≤ o.length) × (last ≡ true)
IsOpt last (Pkt.Opt.rrep o) = 5 ≤ o.length
IsOpt last (Pkt.Opt.rerr o) = Unit
IsOpt last (Pkt.Opt.ack o) = Unit
IsOpt last (Pkt.Opt.srt o) = Unit
IsOpt last (Pkt.Opt.ack_req o) = Unit
IsOpt last (Pkt.Opt.other t l) = Unit

abbrev pub IsOpts : List Opt → Type 0
IsOpts [] = Unit
IsOpts (o ∷ rest) = IsOpt (is_last rest) o × IsOpts rest

module _ (k : ℕ) (env : Env) (room : Room) (lim : IsLimit env.conf)
    (memory : room.ack_pkt ≡ true) where
  abbrev pub Sound : Option Handled → Type 0
  Sound none = ⊥
  Sound (some h) = IsNode k h.node

  note_request-IsNode :
      (s : Node) (dp : DsrPkt) (o : RreqOpt) → IsNode k s → IsNode k (note_request env room s dp o)
  unfolding note_request rreq_step
  note_request-IsNode s dp o v =
      let (t, actions) =
        rreq_tbl_add_id room.rreq room.rreq_id env.conf env.now s.rreq_tbl dp.src o.target o.id in
      perform_all-IsNode k room.pkt env (record s { rreq_tbl = t }) actions
        (
          v.0,
          step_keeps env.conf s.rreq_tbl
              (add_id room.rreq room.rreq_id env.now dp.src o.target o.id) lim v.1,
          v.2,
          v.3,
        )

  cancel-IsNode : (s : Node) (dst : ℕ) → IsNode k s → IsNode k (cancel_discovery env room s dst)
  unfolding cancel_discovery rreq_step
  cancel-IsNode s dst v =
      let (t, actions, res) = rreq_tbl_route_discovery_cancel env.now s.rreq_tbl dst in
      perform_all-IsNode k room.pkt env (record s { rreq_tbl = t }) actions
        (v.0, step_keeps env.conf s.rreq_tbl (cancel env.now dst) lim v.1, v.2, v.3)

  learn-IsNode : (s : Node) (srt : Srt) → IsNode k s → IsNode k (learn env room s srt)
  unfolding learn add_neigh add_route
  learn-IsNode s srt v =
      send_waiting-IsNode k room (add_neigh env room (add_route env room s srt) (previous_hop srt))
        srt.dst v

  route-Sound :
      (s : Node) (dp : DsrPkt) (o : RreqOpt) (srt srt_rev : Srt)
      → IsNode k s
      → Sound (rreq_route env room true s dp o srt srt_rev)
  unfolding rreq_route answer_or_forward forward_rreq
  route-Sound s dp o srt srt_rev v = ground (arith, learn-IsNode s srt_rev v)

  new-Sound :
      (s : Node) (dp : DsrPkt) (o : RreqOpt)
      → 6 ≤ o.length
      → IsNode k s
      → Sound (rreq_new env room true s dp o)
  unfolding rreq_new
  new-Sound s dp o long v = elim (Option-cases srt?) [
    | inl n ↦ ground (arith, long, n, note_request-IsNode s dp o v)
    | inr (srt, y) ↦ elim (Option-cases (dsr_srt_new_rev room.srt_rev (some srt))) [
      | inl n ↦ ground (arith, long, y, n, note_request-IsNode s dp o v)
      | inr (srt_rev, y') ↦ ground (
        arith,
        long,
        y,
        y',
        route-Sound (note_request env room s dp o) dp o srt srt_rev (note_request-IsNode s dp o v),
      )
    ]
  ]
    where
      srt? : Option Srt
      srt? = dsr_srt_new room.srt dp.src env.my_addr (rreq_addrs_len o) o.addrs

  rreq-Sound :
      (last : Bool) (s : Node) (dp : DsrPkt) (o : RreqOpt)
      → (6 ≤ o.length) × (last ≡ true)
      → IsNode k s
      → Sound (dsr_rreq_opt_recv env room last s dp o)
  unfolding dsr_rreq_opt_recv
  rreq-Sound false s dp o (long, at_end) v = cc
  rreq-Sound true s dp o (long, at_end) v = ground (
    arith,
    v,
    new-Sound s (record dp { num_rreq_opts = dp.num_rreq_opts + 1; rreq_opt = some o }) o long v,
  )

  rrep-Sound :
      (s : Node) (dp : DsrPkt) (o : RrepOpt)
      → 5 ≤ o.length
      → IsNode k s
      → Sound (dsr_rrep_opt_recv env room s dp o)
  unfolding dsr_rrep_opt_recv add_route
  rrep-Sound s dp o long v =
      elim (Option-cases
        (dsr_srt_new room.srt dp.dst (rrep_srt_dst o) (rrep_addrs_len o) o.addrs)) [
          | inl n ↦ ground (arith, long, n, v)
          | inr (srt, y) ↦
              ground (arith, long, y, v, cancel-IsNode (add_route env room s srt) srt.dst v)
        ]

  unreachable-Sound :
      (s : Node) (dp : DsrPkt) (o : RerrOpt)
      → IsNode k s
      → Sound (dsr_rerr_opt_recv env room s dp o)
  unfolding dsr_rerr_opt_recv unreachable
  unreachable-Sound s dp o v =
      go
        (maint_buf_del_all room.maint env.conf env.my_addr env.now (rounds env room s.maint) s.maint
          o.err_dst)
        refl
        (del_all-Sound room.maint env.conf env.my_addr env.now
          (work room.maint env.conf env.my_addr env.now s.maint.maint_buf.items) s.maint o.err_dst
          v.0)
    where
      go :
          (r : Option (Maint × ℕ))
          → maint_buf_del_all room.maint env.conf env.my_addr env.now
              (rounds env room s.maint)
              s.maint
              o.err_dst
            ≡ r
          → SoundResult room.maint env.conf env.my_addr env.now r
          → Sound (dsr_rerr_opt_recv env room s dp o)
      go none e h = absurd h
      go (some (m, n)) e h = ground (arith, e, h, h.2, v)

  ack-Sound :
      (s : Node) (dp : DsrPkt) (o : AckOpt) → IsNode k s → Sound (dsr_ack_opt_recv env room s dp o)
  unfolding dsr_ack_opt_recv
  ack-Sound s dp o v =
      go
        (maint_buf_del_all_id room.maint env.conf env.my_addr env.now (rounds env room s.maint)
          s.maint o.src o.id)
        refl
        (del_all_id-Sound room.maint env.conf env.my_addr env.now
          (work room.maint env.conf env.my_addr env.now s.maint.maint_buf.items) s.maint o.src o.id
          v.0)
    where
      go :
          (r : Option (Maint × ℕ))
          → maint_buf_del_all_id room.maint env.conf env.my_addr env.now
              (rounds env room s.maint)
              s.maint
              o.src
              o.id
            ≡ r
          → SoundResult room.maint env.conf env.my_addr env.now r
          → Sound (dsr_ack_opt_recv env room s dp o)
      go none e h = absurd h
      go (some (m, n)) e h = ground (arith, e, h, h.2, v)

  learn_route-IsNode :
      (s : Node) (dp : DsrPkt) (srt : Srt) → IsNode k s → IsNode k (learn_route env room s dp srt)
  unfolding learn_route add_neigh add_link add_route
  learn_route-IsNode s dp srt v = ground (arith, v)

  abbrev AllNode : Option Node → Type 0
  AllNode none = Unit
  AllNode (some s) = IsNode k s

  shorten-AllNode :
      (s : Node) (dp : DsrPkt) (srt : Srt) → IsNode k s → AllNode (shorten env room s dp srt)
  unfolding shorten
  shorten-AllNode s dp srt v =
      ground (arith, v, (add-Result env.conf room.grat env.now s.grat_rrep dp.src dp.prv_hop v.3).0)

  next-IsNode :
      (s : Node) (dp : DsrPkt) (o : SrtOpt) (srt : Srt)
      → IsNode k s
      → IsNode k (next_segment s dp o srt).node
  unfolding next_segment
  next-IsNode s dp o srt v = ground (arith, v)

  srt_route-IsNode :
      (s : Node) (dp : DsrPkt) (o : SrtOpt) (srt : Srt)
      → IsNode k s
      → IsNode k (srt_route env room s dp o srt).node
  unfolding srt_route next_segment
  srt_route-IsNode s dp o srt v =
      let dp' = take_route room dp o srt in
      let ok = learn_route-IsNode s dp' srt v in
      ground (arith, ok, shorten-AllNode (learn_route env room s dp' srt) dp' srt ok)

  srt-IsNode :
      (s : Node) (dp : DsrPkt) (o : SrtOpt)
      → IsNode k s
      → IsNode k (dsr_srt_opt_recv env room s dp o).node
  unfolding dsr_srt_opt_recv
  srt-IsNode s dp o v = elim (Option-cases (dsr_srt_new room.srt dp.src dp.dst o.length o.addrs)) [
    | inl n ↦ ground (arith, n, v)
    | inr (srt, y) ↦ ground (arith, y, srt_route-IsNode s dp o srt v)
  ]

  ack_req-IsNode :
      (s : Node) (dp : DsrPkt) (o : AckReqOpt)
      → IsNode k s
      → Sound (dsr_ack_req_opt_recv env room s dp o)
  unfolding dsr_ack_req_opt_recv dsr_ack_send
  ack_req-IsNode s dp o v = ground (arith, memory, v)

  pub opt-Sound :
      (last : Bool) (s : Node) (dp : DsrPkt) (o : Opt)
      → IsOpt last o
      → IsNode k s
      → Sound (recv_opt env room last s dp o)
  unfolding recv_opt
  opt-Sound last s dp (Pkt.Opt.rreq o) h v = ground (arith, v, rreq-Sound last s dp o h v)
  opt-Sound last s dp (Pkt.Opt.rrep o) h v = ground (arith, v, rrep-Sound s dp o h v)
  opt-Sound last s dp (Pkt.Opt.rerr o) h v = ground (arith, v, unreachable-Sound s dp o v)
  opt-Sound last s dp (Pkt.Opt.ack o) h v =
      ground (arith, v, ack-Sound s (record dp { ack_opt = dp.ack_opt ++ o ∷ [] }) o v)
  opt-Sound last s dp (Pkt.Opt.srt o) h v = srt-IsNode s dp o v
  opt-Sound last s dp (Pkt.Opt.ack_req o) h v = ack_req-IsNode s dp o v
  opt-Sound last s dp (Pkt.Opt.other t l) h v = v
