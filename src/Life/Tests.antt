-- ===== src/Life/Tests.antt =====
-- dsr-module.c and dsr-dev.c: the first seconds of the node 110.
use dsr_uu.Base.{ℕ, ◌+◌, true, List, [], ◌∷◌, none, some}
use dsr_uu.LinkCache.{LcNode}
use dsr_uu.Pkt
use dsr_uu.Pkt.{DsrPkt}
use dsr_uu.Node.{Env}
use dsr_uu.Node.Sample.{block, rreq_block, second, pkt_room, env, rooms, pkt}
use dsr_uu.StartXmit.{XmitRoom}
use dsr_uu.Life.{Event, receives, starts, rreq_timer, grat_timer, send_buf_timer}

abbrev mem : ℕ → LcNode
mem p = record { addr = p + 100; links = 0; cost = 0; hops = 0; pred = none }

abbrev xmit_room : XmitRoom
xmit_room = record {
  srt = some block;
  opts = true;
  waiting = true;
  rreq = some rreq_block;
  pkt = pkt_room;
}

abbrev at_second : ℕ → Env
at_second n = record env { now = second n }

-- The route from 112 to this node, by 111.
abbrev from_112 : DsrPkt
from_112 = record (pkt 112 110) {
  prv_hop = 111;
  opts =
      Pkt.Opt.srt (record {
        type = 96;
        length = 6;
        f = 0;
        l = 0;
        res = 0;
        salv = 0;
        sleft = 0;
        addrs = 111 ∷ [];
      })
      ∷ [];
}

-- A packet waits for a route, a route comes in by a packet from its destination, and the timers
-- run out.
abbrev events : List (Env × Event)
events =
    (at_second 1, starts xmit_room (pkt 110 112))
    ∷ (at_second 1, rreq_timer pkt_room 112)
    ∷ (at_second 2, receives rooms rooms from_112)
    ∷ (at_second 40, send_buf_timer)
    ∷ (at_second 40, grat_timer)
    ∷ []
