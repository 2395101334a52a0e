-- ===== src/StartXmit/Tests.antt =====
-- dsr-io.c: a packet of the node 110, whose cache knows the way to it.
use dsr_uu.Base.{refl, true, some, arith}
use dsr_uu.Conf.{default_val}
use dsr_uu.LinkCache.Search.{lc_srt_find}
use dsr_uu.Node.Sample.{block, rreq_block, pkt_room, env, node, pkt}
use dsr_uu.StartXmit.{XmitRoom, dsr_start_xmit}
use dsr_uu.StartXmit.Outcome.{Outcome, dsr_start_xmit-Outcome}

abbrev room : XmitRoom
room = record {
  srt = some block;
  opts = true;
  waiting = true;
  rreq = some rreq_block;
  pkt = pkt_room;
}

dsr_start_xmit-Outcome_example :
    Outcome env room node
      (pkt 110 112)
      (lc_srt_find room.srt node.maint.lc 110 112).1
      (dsr_start_xmit env room node (pkt 110 112))
unfolding default_val
dsr_start_xmit-Outcome_example =
    dsr_start_xmit-Outcome env room rreq_block refl refl (omega arith, omega arith) node
      (pkt 110 112) (record { counted = refl; bounded = omega arith; is_word = omega arith })
      (omega arith)
      (record {
        table = record { counted = refl; bounded = omega arith; is_word = omega arith };
        entries = tt;
        apart = tt;
      })
      (omega arith)
