-- ===== src/Recv/Replies.antt =====
-- dsr-rrep.c: the handler of a route reply.
use dsr_uu.Base.{
  ℕ, ◌-◌, ◌/◌, [], ◌∷◌, ◌++◌, Option, none, some, ltb, ◌==◌, if◌then◌else◌, get_or, length,
}
use dsr_uu.Srt.{dsr_srt_new}
use dsr_uu.Rreq.{rreq_tbl_route_discovery_cancel}
use dsr_uu.Pkt
use dsr_uu.Pkt.{Opt, RrepOpt, DsrPkt}
use dsr_uu.Node.{Node, Env, Room, add_route, perform_all}
use dsr_uu.Recv.Action.{pkt_send_buffered, pkt_forward, pkt_error, bit, Handled}

abbrev pub max_rrep_opts : ℕ
max_rrep_opts = 10

-- DSR_RREP_ADDRS_LEN, for an option that is at least as long as its header.
abbrev pub rrep_addrs_len : RrepOpt → ℕ
rrep_addrs_len o = o.length - 5

-- The address behind those of the route. One outside of the option gives 0.
unfoldable pub rrep_srt_dst : RrepOpt → ℕ
rrep_srt_dst o = get_or o.addrs (rrep_addrs_len o / 4) 0

-- The discoveries of a route to the node are over.
unfoldable pub cancel_discovery : Env → Room → Node → ℕ → Node
cancel_discovery env room s dst =
    let (t, actions, res) = rreq_tbl_route_discovery_cancel env.now s.rreq_tbl dst in
    perform_all room.pkt env (record s { rreq_tbl = t }) actions

-- `none` is an option whose length is less than that of its header.
unfoldable pub dsr_rrep_opt_recv : Env → Room → Node → DsrPkt → RrepOpt → Option Handled
unfolding rrep_srt_dst cancel_discovery
dsr_rrep_opt_recv env room s dp o =
    let opt = Pkt.Opt.rrep o in
    if dp.promisc_recv
    then some (record { node = s; dp = dp; opt = opt; action = bit pkt_error })
    else if ltb (length dp.rrep_opt) max_rrep_opts
    then (let dp' : DsrPkt = record dp { rrep_opt = dp.rrep_opt ++ o ∷ [] } in
        if ltb o.length 5
        then none
        else elim (dsr_srt_new room.srt dp.dst (rrep_srt_dst o) (rrep_addrs_len o) o.addrs) [
          | none ↦ some (record { node = s; dp = dp'; opt = opt; action = bit pkt_error })
          | some srt ↦ some (record {
            node = cancel_discovery env room (add_route env room s srt) srt.dst;
            dp = dp';
            opt = opt;
            action = if dp.dst == env.my_addr then bit pkt_send_buffered else bit pkt_forward;
          })
        ])
    else some (record { node = s; dp = dp; opt = opt; action = bit pkt_error })
