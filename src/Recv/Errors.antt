-- ===== src/Recv/Errors.antt =====
-- dsr-rerr.c and dsr-ack.c: the handlers of a route error, of an acknowledgement and of a request for
-- one. The callers see to it that there is room for the option in its array.
use dsr_uu.Base.{true, false, ℕ, suc, [], ◌∷◌, ◌++◌, Option, none, some, ◌==◌, if◌then◌else◌}
use dsr_uu.LinkCache.{lc_link_del}
use dsr_uu.Pkt
use dsr_uu.Pkt.{Opt, RerrOpt, AckOpt, AckReqOpt, DsrPkt}
use dsr_uu.Send.{node_unreachable, dsr_ack_send}
use dsr_uu.MaintBuf.{Maint}
use dsr_uu.MaintBuf.Work.{work}
use dsr_uu.MaintBuf.Ops.{maint_buf_del_all, maint_buf_del_all_id}
use dsr_uu.Node.{Node, Env, Room, emit, set_lc}
use dsr_uu.Recv.Action.{pkt_none, pkt_error, no_action, bit, Handled}

-- Enough rounds for the timer of the maintenance buffer.
abbrev pub rounds : Env → Room → Maint → ℕ
rounds env room m = suc (work room.maint env.conf env.my_addr env.now m.maint_buf.items)

-- The buffered packets for the destination of the error go, and then the link. `none` here and below is
-- that the handler gets no further.
unfoldable pub unreachable : Env → Room → Node → RerrOpt → Option Node
unreachable env room s o =
    elim (maint_buf_del_all room.maint env.conf env.my_addr env.now (rounds env room s.maint)
      s.maint o.err_dst) [
        | none ↦ none
        | some (m, n) ↦ elim m.faulty [
          | true ↦ none
          | false ↦
              let s' : Node = record s { maint = m } in
              some (set_lc s' (lc_link_del m.lc o.err_src o.info).0)
        ]
      ]

unfoldable pub dsr_rerr_opt_recv : Env → Room → Node → DsrPkt → RerrOpt → Option Handled
unfolding unreachable
dsr_rerr_opt_recv env room s dp o =
    let dp' : DsrPkt = record dp { rerr_opt = dp.rerr_opt ++ o ∷ [] } in
    elim (if o.err_type == node_unreachable then unreachable env room s o else some s) [
      | none ↦ none
      | some s' ↦ some (record { node = s'; dp = dp'; opt = Pkt.Opt.rerr o; action = no_action })
    ]

-- The caller has put the option into the array of the packet.
unfoldable pub dsr_ack_opt_recv : Env → Room → Node → DsrPkt → AckOpt → Option Handled
dsr_ack_opt_recv env room s dp o =
    if o.dst == env.my_addr
    then elim (maint_buf_del_all_id room.maint env.conf env.my_addr env.now
        (rounds env room s.maint) s.maint o.src o.id) [
          | none ↦ none
          | some (m, n) ↦ elim m.faulty [
            | true ↦ none
            | false ↦ some (record {
              node = record s { maint = m };
              dp = dp;
              opt = Pkt.Opt.ack o;
              action = bit pkt_none;
            })
          ]
        ]
    else some (record { node = s; dp = dp; opt = Pkt.Opt.ack o; action = bit pkt_error })

-- `none` is that the packet of the acknowledgement is used at NULL.
unfoldable pub dsr_ack_req_opt_recv : Env → Room → Node → DsrPkt → AckReqOpt → Option Handled
dsr_ack_req_opt_recv env room s dp o =
    if dp.promisc_recv
    then some (record { node = s; dp = dp; opt = Pkt.Opt.ack_req o; action = bit pkt_error })
    else (let prv_hop : ℕ = elim dp.srt_opt [ none ↦ dp.src | some _ ↦ dp.prv_hop ] in
        elim (dsr_ack_send room.ack_pkt room.ack env.my_addr prv_hop o.id) [
          | none ↦ none
          | some effects ↦ some (record {
            node = emit s effects;
            dp = record dp { ack_req_opt = some o; prv_hop = prv_hop };
            opt = Pkt.Opt.ack_req o;
            action = bit pkt_none;
          })
        ])
