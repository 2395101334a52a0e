-- ===== src/MaintBuf/Tests.antt =====
-- maint-buf.c: the theorems at a concrete buffer.
use dsr_uu.Base.{ℕ, ◌+◌, true, false, refl, [], ◌∷◌, inr, none, some, arith}
use dsr_uu.Timer.{Timeval, timeval_diff}
use dsr_uu.Conf.{default_val}
use dsr_uu.Tbl.{Tbl}
use dsr_uu.Tbl.Bounds.{IsTbl}
use dsr_uu.Srt.{Garbage, SrtOpt}
use dsr_uu.LinkCache.{LcNode, LcLink, LcGraph}
use dsr_uu.Pkt
use dsr_uu.Pkt.{DsrPkt, empty_pkt}
use dsr_uu.MaintBuf.{Maint, MaintEntry, MaintRoom, crit_addr}
use dsr_uu.MaintBuf.Salvage.{SalvageRoom, maint_buf_salvage}
use dsr_uu.MaintBuf.Timeout.{next_hop_lost, maint_buf_timeout}
use dsr_uu.MaintBuf.Ops.{maint_buf_del_all, maint_buf_del_all_id, maint_buf_del_addr}
use dsr_uu.MaintBuf.Acked.{
  up_to_id, for_hop, Confirmed, maint_buf_del_all_id-Confirmed, maint_buf_del-Confirmed,
}
use dsr_uu.MaintBuf.OnTime.{Left, maint_buf_del_all_id-Left}
use dsr_uu.MaintBuf.Timer.{Handled, maint_buf_timeout-Handled}
use dsr_uu.MaintBuf.Lost.{AllSettled, error_sent, next_hop_lost-Settled}
use dsr_uu.Neigh.{Neighbor}
use dsr_uu.MaintBuf.Added.{Added}
use dsr_uu.MaintBuf.Resent.{IsResent, maint_buf_salvage-IsResent}

abbrev block : Garbage
block = record { flags = 0; index = 0 }

abbrev second : ℕ → Timeval
second n = record { tv_sec = n; tv_usec = 0 }

-- From 109 by this node, 110, and by 111 to 112.
abbrev old_opt : SrtOpt
old_opt = record {
  type = 96;
  length = 10;
  f = 0;
  l = 0;
  res = 0;
  salv = 0;
  sleft = 1;
  addrs = 110 ∷ 111 ∷ [];
}

abbrev pkt : DsrPkt
pkt = record empty_pkt {
  src = 109;
  dst = 112;
  nxt_hop = 111;
  srt_opt = some old_opt;
  opts = Pkt.Opt.srt old_opt ∷ [];
}

abbrev entry : ℕ → ℕ → ℕ → MaintEntry
entry nxt_hop id rexmt = record {
  nxt_hop = nxt_hop;
  rexmt = rexmt;
  id = id;
  tx_time = second 1;
  expires = second 2;
  rto = 1_000_000;
  ack_req_sent = true;
  dp = pkt;
}

abbrev mem : ℕ → LcNode
mem p = record { addr = p + 100; links = 2; cost = 0; hops = 0; pred = none }

abbrev link : ℕ → ℕ → LcLink
link src dst = record { src = src; dst = dst; status = 0; cost = 1; expires = second 0 }

-- Another way to 112 goes by 113.
abbrev cache : LcGraph
cache = record {
  mem = mem;
  nodes = record { items = 10 ∷ 11 ∷ 12 ∷ 13 ∷ []; len = 4; max_len = 500 };
  links = record {
    items = link 10 11 ∷ link 11 12 ∷ link 10 13 ∷ link 13 12 ∷ [];
    len = 4;
    max_len = 100;
  };
  src = none;
}

abbrev buffer : Tbl MaintEntry
buffer = record {
  items = entry 111 1 1 ∷ entry 113 2 0 ∷ entry 111 3 0 ∷ [];
  len = 3;
  max_len = 100;
}

abbrev node : Maint
node = record {
  maint_buf = buffer;
  ack_timer = none;
  lc = cache;
  neigh_tbl = record { items = []; len = 0; max_len = 50 };
  effects = [];
  calls = 0;
  faulty = false;
}

abbrev room : SalvageRoom
room = record {
  alt = some block;
  old = some block;
  to_me = some block;
  new = some block;
  check = some block;
  opts = true;
  stray = 0;
}

abbrev rooms : ℕ → MaintRoom
rooms n = record {
  entry = true;
  copy = some pkt;
  opts = true;
  rerr = record { pkt = true; opts = true; block = some block };
  ack_req = true;
  salvage = room;
}

buffer-IsTbl : IsTbl buffer
buffer-IsTbl = record { counted = refl; bounded = omega arith; is_word = omega arith }

maint_buf_del_all_id-Confirmed_example :
    Confirmed
      (up_to_id 111 1)
      buffer
      (maint_buf_del_all_id rooms default_val 110 (second 3) 10 node 111 1)
unfolding default_val
maint_buf_del_all_id-Confirmed_example =
    maint_buf_del_all_id-Confirmed rooms default_val 110 (second 3) (omega arith) 10 node 111 1
      buffer-IsTbl (ground arith) (omega arith)

maint_buf_del-Confirmed_example :
    Confirmed (for_hop 111) buffer (maint_buf_del_addr rooms default_val 110 (second 3) 10 node 111)
    × Confirmed
        (for_hop 111)
        buffer
        (maint_buf_del_all rooms default_val 110 (second 3) 10 node 111)
unfolding default_val
maint_buf_del-Confirmed_example =
    maint_buf_del-Confirmed rooms default_val 110 (second 3) (omega arith) 10 node 111 buffer-IsTbl
      (ground arith) (omega arith)

maint_buf_timeout-Handled_example :
    Handled buffer (maint_buf_timeout rooms default_val 110 (second 3) 10 node)
unfolding default_val
maint_buf_timeout-Handled_example =
    maint_buf_timeout-Handled rooms default_val 110 (second 3) (omega arith) 10 node buffer-IsTbl
      (ground arith) (omega arith)

next_hop_lost-Settled_example :
    AllSettled
      (error_sent rooms default_val 110 (second 3) node (entry 111 0 2)).1
      (entry 111 0 2 ∷ entry 111 1 1 ∷ entry 111 3 0 ∷ [])
      (entry 113 2 0 ∷ [])
      (next_hop_lost rooms default_val 110 (second 3) node (entry 111 0 2))
unfolding crit_addr
next_hop_lost-Settled_example =
    next_hop_lost-Settled rooms default_val 110 (second 3) node (entry 111 0 2) buffer-IsTbl

maint_buf_salvage-IsResent_example : IsResent pkt (maint_buf_salvage room 110 cache pkt).1
maint_buf_salvage-IsResent_example = maint_buf_salvage-IsResent room 110 cache pkt

-- The node knows its neighbour 111.
abbrev neighbour : Neighbor
neighbour = record {
  addr = 111;
  hw_addr = 0;
  id = 4;
  last_ack_req = second 0;
  t_srtt = 0;
  rto = 0;
  t_rxtcur = 120;
  t_rttmin = 20;
  t_rttvar = 240;
  jitter = 0;
}

abbrev node' : Maint
node' = record node { neigh_tbl = record { items = neighbour ∷ []; len = 1; max_len = 50 } }

abbrev asking : DsrPkt
asking = record pkt { request_ack = true }

maint_buf_del_all_id-Left_example :
    Left
      (up_to_id 111 1)
      buffer
      (maint_buf_del_all_id rooms default_val 110 (second 2) 1 node 111 1)
unfolding default_val timeval_diff
maint_buf_del_all_id-Left_example =
    maint_buf_del_all_id-Left rooms default_val 110 (second 2) (omega arith) 0 node 111 1
      buffer-IsTbl refl (inr (ground arith), (inr (ground arith), (inr (ground arith), tt)))
