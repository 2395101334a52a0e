-- ===== src/Recv/Tests.antt =====
-- dsr-io.c and the handlers of options: the theorems at concrete packets, on the node 110.
use dsr_uu.Base.{◌≡◌, refl, true, false, [], ◌∷◌, Option, none, some, arith}
use dsr_uu.Conf.{default_val}
use dsr_uu.Srt.{Srt, SrtOpt}
use dsr_uu.Rreq.Table.{IsRreqTbl}
use dsr_uu.Pkt
use dsr_uu.Pkt.{Opt, RreqOpt, RrepOpt, AckReqOpt, DsrPkt}
use dsr_uu.Rrep.Reply.{dsr_rrep_opt_add}
use dsr_uu.Node.{Node, Room, send_waiting, add_neigh, add_route, perform_all}
use dsr_uu.Tbl.{in_tbl, tbl_full, tbl_empty, tbl_find, find_first}
use dsr_uu.Srt.{dsr_srt_next_hop, dsr_srt_new, dsr_srt_new_rev, occurs}
use dsr_uu.LinkCache.{lc_link_add, lc_node_get}
use dsr_uu.LinkCache.Search.{lc_srt_find, dijkstra, lc_srt_add, lc_hops_add, lc_hop_add}
use dsr_uu.SendBuf.{send_buf_set_verdict}
use dsr_uu.Rreq.{dsr_rreq_duplicate, rreq_tbl_add_id, rreq_tbl_take}
use dsr_uu.Node.Sample.{env, room, node, pkt, block, rreq_block}
use dsr_uu.Recv.Action.{Handled, shift, bit, ◌or◌, pkt_drop}
use dsr_uu.Recv.Errors.{dsr_ack_req_opt_recv}
use dsr_uu.Recv.Requests.{dsr_rreq_opt_recv}
use dsr_uu.Recv.Routes.{dsr_srt_opt_recv}
use dsr_uu.Recv.Replies.{dsr_rrep_opt_recv}
use dsr_uu.Recv.Same.{Same}
use dsr_uu.Recv.Flood.{GoesOn, dsr_rreq_opt_recv-GoesOn}
use dsr_uu.Recv.Once.{counted, dsr_rreq_opt_recv-Once}
use dsr_uu.Recv.Onward.{Onward, dsr_srt_opt_recv-Onward}
use dsr_uu.Recv.RoundTrip.{taken, in_block, dsr_rrep_opt_recv-dsr_rrep_opt_add}
use dsr_uu.Recv.{passed, Received, for_me}

-- A packet from 112 by 111, which asks for an acknowledgement.
abbrev ack_req : AckReqOpt
ack_req = record { length = 2; id = 7 }

abbrev asking : DsrPkt
asking = record (pkt 112 110) { opts = Pkt.Opt.ack_req ack_req ∷ []; payload = 1 ∷ 2 ∷ [] }

-- What a handler leaves, where it comes to an end.
abbrev or_passed : Option Handled → Handled
or_passed none = passed node asking (Pkt.Opt.ack_req ack_req)
or_passed (some h) = h

abbrev answered : Handled
answered = or_passed (dsr_ack_req_opt_recv env room node asking ack_req)

abbrev received : Received
received = record {
  node = answered.node;
  dp = record (answered.dp) { opts = Pkt.Opt.ack_req ack_req ∷ [] };
  action = for_me env asking or answered.action;
}

-- A request of 112 for 115, which came by 111.
abbrev request : RreqOpt
request = record { length = 10; id = 5; target = 115; addrs = 111 ∷ [] }

abbrev requesting : DsrPkt
requesting = record (pkt 112 4294967295) { opts = Pkt.Opt.rreq request ∷ [] }

-- The cache is empty, and memory for links short.
abbrev forgetful : Node
forgetful = record node {
  maint = record (node.maint) {
    lc = record (node.maint.lc) {
      nodes = record { items = []; len = 0; max_len = 500 };
      links = record { items = []; len = 0; max_len = 100 };
    };
  };
}

abbrev tight : Room
tight = record room { route = λ _. record { src_node = none; dst_node = none; link = false } }

abbrev requested : Handled
requested = or_passed (dsr_rreq_opt_recv env tight true forgetful requesting request)

requested_eq : dsr_rreq_opt_recv env tight true forgetful requesting request ≡ some requested
unfolding shift dsr_rreq_opt_recv dsr_rreq_duplicate in_tbl dsr_srt_new dsr_srt_new_rev occurs
    lc_srt_find dijkstra tbl_empty tbl_find find_first send_waiting send_buf_set_verdict add_neigh
    add_route perform_all rreq_tbl_add_id rreq_tbl_take lc_srt_add lc_link_add lc_node_get
    lc_hops_add lc_hop_add tbl_full
requested_eq = refl

dsr_rreq_opt_recv-GoesOn_example : GoesOn env forgetful requesting request requested
unfolding shift dsr_rreq_opt_recv dsr_rreq_duplicate in_tbl dsr_srt_new dsr_srt_new_rev occurs
    lc_srt_find dijkstra tbl_empty tbl_find find_first send_waiting send_buf_set_verdict add_neigh
    add_route perform_all rreq_tbl_add_id rreq_tbl_take lc_srt_add lc_link_add lc_node_get
    lc_hops_add lc_hop_add tbl_full
dsr_rreq_opt_recv-GoesOn_example =
    dsr_rreq_opt_recv-GoesOn env tight forgetful requesting request requested requested_eq refl

-- The same request again, by 113.
abbrev again : RreqOpt
again = record { length = 10; id = 5; target = 115; addrs = 113 ∷ [] }

abbrev coming_again : DsrPkt
coming_again = record (pkt 112 4294967295) { opts = Pkt.Opt.rreq again ∷ [] }

node-IsRreqTbl : IsRreqTbl node.rreq_tbl
node-IsRreqTbl = record {
  table = record { counted = refl; bounded = omega arith; is_word = omega arith };
  entries = tt;
  apart = tt;
}

dsr_rreq_opt_recv-Once_example :
    dsr_rreq_opt_recv env room true requested.node coming_again again
    ≡ some (record {
      node = requested.node;
      dp = counted coming_again again;
      opt = Pkt.Opt.rreq again;
      action = bit pkt_drop;
    })
unfolding default_val
dsr_rreq_opt_recv-Once_example =
    dsr_rreq_opt_recv-Once env env tight room true true forgetful requesting coming_again request
      again requested rreq_block refl refl (omega arith, omega arith) node-IsRreqTbl (omega arith)
      (refl, refl) requested_eq (refl, refl) (refl, refl, refl)

-- A packet of 112 to 115 by 110 and 111.
abbrev route : SrtOpt
route = record {
  type = 96;
  length = 10;
  f = 0;
  l = 0;
  res = 0;
  salv = 0;
  sleft = 2;
  addrs = 110 ∷ 111 ∷ [];
}

dsr_srt_opt_recv-Onward_example :
    Onward (pkt 112 115) route (dsr_srt_opt_recv env tight forgetful (pkt 112 115) route)
unfolding shift dsr_srt_opt_recv dsr_srt_new default_val dsr_srt_next_hop
dsr_srt_opt_recv-Onward_example =
    dsr_srt_opt_recv-Onward env tight forgetful (pkt 112 115) route (omega arith) refl

-- The reply that tells 110 the way to 112 by 111.
abbrev way : Srt
way = record { src = 110; dst = 112; flags = 0; index = 0; laddrs = 4; addrs = 111 ∷ [] }

dsr_rrep_opt_recv-dsr_rrep_opt_add_example :
    (r : RrepOpt) × (dsr_rrep_opt_add 12 way ≡ some r)
    × (dsr_rrep_opt_recv env room node (pkt 112 110) r
        ≡ some (taken env room node (pkt 112 110) r (in_block block way)))
dsr_rrep_opt_recv-dsr_rrep_opt_add_example =
    dsr_rrep_opt_recv-dsr_rrep_opt_add env room node (pkt 112 110) 12 way block refl (omega arith)
      (omega arith) refl refl (omega arith) refl

-- A reply, an acknowledgement and a request for one, a route and a route request in one packet.
abbrev mixed : DsrPkt
mixed = record (pkt 112 110) {
  opts =
      Pkt.Opt.rrep (record { length = 9; l = 0; res = 0; addrs = 111 ∷ 112 ∷ [] })
      ∷ Pkt.Opt.ack (record { length = 10; id = 3; src = 111; dst = 110 })
      ∷ Pkt.Opt.ack_req ack_req
      ∷ Pkt.Opt.srt route
      ∷ Pkt.Opt.rreq request
      ∷ [];
}
