-- ===== src/Recv/Routes.antt =====
-- dsr-srt.c: the handler of a source route.
use dsr_uu.Base.{ℕ, ◌-◌, Bool, not, ◌&&◌, Option, none, some, ltb, ◌==◌, if◌then◌else◌}
use dsr_uu.Base.Int.{pos, pred_int}
use dsr_uu.Conf.{automatic_route_shortening}
use dsr_uu.Srt.{
  Srt, SrtOpt, addr_count, dsr_srt_next_hop, dsr_srt_prev_hop, dsr_srt_find_addr, dsr_srt_new,
  dsr_srt_new_rev, dsr_srt_new_split, dsr_srt_new_split_rev, dsr_srt_shortcut,
}
use dsr_uu.Pkt
use dsr_uu.Pkt.{Opt, DsrPkt}
use dsr_uu.Rrep.{grat_rrep_tbl_find, grat_rrep_tbl_add}
use dsr_uu.Rrep.Reply.{dsr_rrep_send}
use dsr_uu.Node.{Node, Env, Room, emit, add_route, add_link, add_neigh}
use dsr_uu.Recv.Action.{
  pkt_srt_remove, pkt_send_icmp, pkt_forward, pkt_drop, pkt_error, bit, Handled,
}

-- A read outside of the addresses gives what stands there.
abbrev pub or_stray : ℕ → Option ℕ → ℕ
or_stray stray none = stray
or_stray stray (some addr) = addr

-- The packet once its option has been read.
unfoldable pub take_route : Room → DsrPkt → SrtOpt → Srt → DsrPkt
take_route room dp o srt = record dp {
  srt_opt = some o;
  srt = some srt;
  salvage = o.salv;
  prv_hop = or_stray room.prev (dsr_srt_prev_hop srt (pred_int o.sleft));
  nxt_hop = or_stray room.next (dsr_srt_next_hop srt (pred_int o.sleft));
}

-- The hops that the packet has come by, as far as this node knows them to work.
unfoldable pub travelled : Env → Room → DsrPkt → Srt → Option Srt
travelled env room dp srt =
    if dp.dst == env.my_addr
    then some srt
    else dsr_srt_new_split room.srt_split (some srt)
        (if dp.promisc_recv then dp.prv_hop else env.my_addr)

-- What the option tells about the node's surroundings.
unfoldable pub learn_route : Env → Room → Node → DsrPkt → Srt → Node
unfolding travelled
learn_route env room s dp srt =
    let s1 = add_neigh env room s dp.prv_hop in
    let s2 = if dp.promisc_recv then s1 else add_link env room s1 dp.prv_hop in
    elim (travelled env room dp srt) [ none ↦ s2 | some known ↦ add_route env room s2 known ]

-- The packet was meant for a later hop than this node, which the route visits all the same.
unfoldable pub is_shorter : Env → Room → Node → DsrPkt → SrtOpt → Srt → Bool
is_shorter env room s dp o srt =
    not (env.conf automatic_route_shortening == 0)
    && not (or_stray room.intended (dsr_srt_next_hop srt (pos o.sleft)) == env.my_addr)
    && dsr_srt_find_addr srt env.my_addr o.sleft
    && not (grat_rrep_tbl_find s.grat_rrep dp.src dp.prv_hop)

-- The route back to the source of the packet, for the shorter route `srt_cut`.
unfoldable pub way_back : Env → Room → Srt → Option Srt
way_back env room srt_cut =
    if addr_count srt_cut == 0
    then dsr_srt_new_rev room.srt_rev (some srt_cut)
    else dsr_srt_new_split_rev room.srt_back room.srt_rev (some srt_cut) env.my_addr

-- The gratuitous reply; `none` where memory is short.
unfoldable pub shorten : Env → Room → Node → DsrPkt → Srt → Option Node
unfolding way_back
shorten env room s dp srt = elim (dsr_srt_shortcut room.srt_cut (some srt) dp.prv_hop env.my_addr) [
  | none ↦ none
  | some srt_cut ↦ elim (way_back env room srt_cut) [
    | none ↦ none
    | some back ↦
        let s' : Node = record s {
          grat_rrep =
              (grat_rrep_tbl_add room.grat env.conf env.now s.grat_rrep dp.src dp.prv_hop).0;
        } in
        some (emit s' (dsr_rrep_send room.pkt env.my_addr back srt_cut))
  ]
]

-- The end of the handler: the packet goes on with one segment less.
unfoldable pub next_segment : Node → DsrPkt → SrtOpt → Srt → Handled
next_segment s dp o srt =
    if dp.promisc_recv
    then record { node = s; dp = dp; opt = Pkt.Opt.srt o; action = bit pkt_drop }
    else if o.sleft == 0
    then record { node = s; dp = dp; opt = Pkt.Opt.srt o; action = bit pkt_srt_remove }
    else if ltb (addr_count srt) o.sleft
    then record { node = s; dp = dp; opt = Pkt.Opt.srt o; action = bit pkt_send_icmp }
    else (let o' : SrtOpt = record o { sleft = o.sleft - 1 } in
        record {
          node = s;
          dp = record dp { srt_opt = some o' };
          opt = Pkt.Opt.srt o';
          action = bit pkt_forward;
        })

unfoldable pub srt_route : Env → Room → Node → DsrPkt → SrtOpt → Srt → Handled
unfolding take_route learn_route is_shorter shorten next_segment
srt_route env room s dp o srt =
    let dp' = take_route room dp o srt in
    let s' = learn_route env room s dp' srt in
    if is_shorter env room s' dp' o srt
    then elim (shorten env room s' dp' srt) [
      | none ↦ record { node = s'; dp = dp'; opt = Pkt.Opt.srt o; action = bit pkt_drop }
      | some s'' ↦ next_segment s'' dp' o srt
    ]
    else next_segment s' dp' o srt

-- `length` of the option counts two bytes more than the addresses, which a route leaves unread.
unfoldable pub dsr_srt_opt_recv : Env → Room → Node → DsrPkt → SrtOpt → Handled
unfolding srt_route
dsr_srt_opt_recv env room s dp o = elim (dsr_srt_new room.srt dp.src dp.dst o.length o.addrs) [
  | none ↦ record {
    node = s;
    dp = record dp { srt_opt = some o; srt = none };
    opt = Pkt.Opt.srt o;
    action = bit pkt_error;
  }
  | some srt ↦ srt_route env room s dp o srt
]
