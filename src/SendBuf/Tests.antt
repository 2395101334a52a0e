-- ===== src/SendBuf/Tests.antt =====
-- send-buf.c: the theorems at concrete buffers and a concrete cache.
use dsr_uu.Base.{
  ℕ, ◌+◌, ◌≤◌, ◌≡◌, true, false, refl, List, [], ◌∷◌, ◌++◌, suc, none, some, arith, length,
}
use dsr_uu.Base.Int.{pos}
use dsr_uu.Tbl.Bounds.{IsTbl}
use dsr_uu.Timer.{Timeval}
use dsr_uu.Conf.{default_val, confval_to_usecs, confval_type, to_usecs}
use dsr_uu.Tbl.{Tbl}
use dsr_uu.Srt.{Garbage}
use dsr_uu.LinkCache.{LcNode, LcLink, LcGraph}
use dsr_uu.LinkCache.Start.{IsGraph}
use dsr_uu.LinkCache.Search.{lc_srt_find}
use dsr_uu.LinkCache.Again.{Kept, lc_srt_find-Kept}
use dsr_uu.Pkt.{DsrPkt, empty_pkt}
use dsr_uu.SendBuf.{
  SendBufEntry, SendBufVerdict, send_buf_enqueue_packet, send_buf_timeout, send_buf_set_verdict,
  send_buf_init, crit_addr,
}
use dsr_uu.SendBuf.Queue.{
  IsSendBuf, TimedOut, started, send_buf_enqueue_packet_room, send_buf_timeout_lem,
}
use dsr_uu.SendBuf.Verdict.{
  Others, AllSent, dropped, send_buf_set_verdict-drop, send_buf_set_verdict-send,
}
use dsr_uu.SendBuf.Steps.{gone}
use dsr_uu.SendBuf.Invariant.{
  SendBufOp, enqueue_packet, timeout, set_verdict, send_buf_run, send_buf_run-IsSendBuf,
}

abbrev block : Garbage
block = record { flags = 0; index = 0 }

abbrev pkt : ℕ → ℕ → DsrPkt
pkt src dst = record empty_pkt { src = src; dst = dst }

abbrev second : ℕ → Timeval
second n = record { tv_sec = n; tv_usec = 0 }

abbrev waiting : ℕ → ℕ → SendBufEntry
waiting dst at = record { dp = pkt 110 dst; qtime = second at }

-- Full, with two packets for 112 and one for another node.
abbrev buffer : Tbl SendBufEntry
buffer = record {
  items = waiting 112 1 ∷ waiting 114 20 ∷ waiting 112 30 ∷ [];
  len = 3;
  max_len = 4;
}

buffer-IsSendBuf : IsSendBuf buffer
buffer-IsSendBuf = record {
  table = record { counted = refl; bounded = omega arith; is_word = omega arith };
  in_order = ground arith;
}

abbrev mem : ℕ → LcNode
mem p = record { addr = p + 100; links = 2; cost = 0; hops = 0; pred = none }

abbrev link : ℕ → ℕ → LcLink
link src dst = record { src = src; dst = dst; status = 0; cost = 1; expires = second 0 }

abbrev cache : LcGraph
cache = record {
  mem = mem;
  nodes = record { items = 10 ∷ 11 ∷ 12 ∷ []; len = 3; max_len = 500 };
  links = record { items = link 10 11 ∷ link 11 12 ∷ []; len = 2; max_len = 100 };
  src = none;
}

cache-IsGraph : IsGraph cache
cache-IsGraph = record {
  nodes_table = record { counted = refl; bounded = omega arith; is_word = omega arith };
  nodes_max = refl;
  ends = ground arith;
  unique = λ p q m n e. omega (arith, e);
}

send_buf_enqueue_packet_example :
    ((send_buf_enqueue_packet true default_val (second 31) buffer (pkt 110 115)).0.items
      ≡ buffer.items ++ record { dp = pkt 110 115; qtime = second 31 } ∷ [])
    × ((send_buf_enqueue_packet true default_val (second 31) buffer (pkt 110 115)).1
        ≡ started default_val (second 31) buffer)
    × ((send_buf_enqueue_packet true default_val (second 31) buffer (pkt 110 115)).2
        ≡ pos (suc (length buffer.items)))
    × IsTbl (send_buf_enqueue_packet true default_val (second 31) buffer (pkt 110 115)).0
send_buf_enqueue_packet_example =
    send_buf_enqueue_packet_room default_val (second 31) buffer (pkt 110 115) buffer-IsSendBuf.table
      (omega arith)

send_buf_timeout_example :
    TimedOut default_val (second 40) buffer (send_buf_timeout default_val (second 40) buffer)
unfolding default_val confval_to_usecs to_usecs confval_type
send_buf_timeout_example =
    send_buf_timeout_lem default_val (second 40) (omega arith) buffer buffer-IsSendBuf

send_buf_set_verdict-drop_example :
    Others buffer 112
      (send_buf_set_verdict (λ _. none) (λ _. false) cache buffer SendBufVerdict.drop 112).0
    × ((send_buf_set_verdict (λ _. none) (λ _. false) cache buffer SendBufVerdict.drop 112).1
        ≡ record { lc = cache; effects = dropped (waiting 112 1 ∷ waiting 112 30 ∷ []); pkts = 2 })
unfolding crit_addr
send_buf_set_verdict-drop_example =
    send_buf_set_verdict-drop (λ _. none) (λ _. false) cache buffer 112 buffer-IsSendBuf

send_buf_set_verdict-send_example :
    Others buffer 112
      (send_buf_set_verdict (λ _. some block) (λ _. true) cache buffer SendBufVerdict.send 112).0
    × AllSent cache
        (record { lc = cache; effects = []; pkts = 0 })
        (waiting 112 1 ∷ waiting 112 30 ∷ [])
        (send_buf_set_verdict (λ _. some block) (λ _. true) cache buffer SendBufVerdict.send 112).1
unfolding crit_addr
send_buf_set_verdict-send_example =
    send_buf_set_verdict-send cache cache-IsGraph 1 (ground arith) (omega arith) (λ _. block) buffer
      112 buffer-IsSendBuf (ground arith)

-- Two packets wait, one of which is sent, and memory is short for a third.
abbrev ops : List SendBufOp
ops =
    enqueue_packet true (second 1) (pkt 110 112)
    ∷ enqueue_packet true (second 2) (pkt 110 114)
    ∷ set_verdict (λ _. some block) (λ _. true) cache SendBufVerdict.send 112
    ∷ enqueue_packet false (second 3) (pkt 110 112)
    ∷ timeout (second 20)
    ∷ []

send_buf_run-IsSendBuf_example :
    IsSendBuf (send_buf_run default_val send_buf_init ops).0
    × ((send_buf_run default_val send_buf_init ops).0.len ≤ 100)
    × (gone (send_buf_run default_val send_buf_init ops).1
          + length (send_buf_run default_val send_buf_init ops).0.items
        ≡ 2)
send_buf_run-IsSendBuf_example = send_buf_run-IsSendBuf default_val ops (ground arith)

lc_srt_find-Kept_example : Kept cache (lc_srt_find (some block) cache 110 112).0
lc_srt_find-Kept_example =
    lc_srt_find-Kept cache cache-IsGraph 1 (ground arith) (omega arith) (some block) 110 112
      (ground arith)
