-- ===== src/Node/Sample.antt =====
-- Test data: the node 110, with a cache that knows the way to 112 by 111.
use dsr_uu.Base.{ℕ, ◌+◌, true, false, [], ◌∷◌, none, some}
use dsr_uu.Timer.{Timeval}
use dsr_uu.Conf.{default_val}
use dsr_uu.Srt.{Garbage}
use dsr_uu.LinkCache.{LcNode, LcLink, LcGraph, Blocks}
use dsr_uu.Rreq.{RreqGarbage}
use dsr_uu.Pkt.{DsrPkt, empty_pkt}
use dsr_uu.Send.{PktRoom}
use dsr_uu.MaintBuf.{MaintRoom}
use dsr_uu.MaintBuf.Salvage.{SalvageRoom}
use dsr_uu.Node.{Node, Env, Room}

abbrev pub block : Garbage
block = record { flags = 0; index = 0 }

abbrev pub second : ℕ → Timeval
second n = record { tv_sec = n; tv_usec = 0 }

abbrev mem : ℕ → LcNode
mem p = record { addr = p + 100; links = 2; cost = 0; hops = 0; pred = none }

abbrev link : ℕ → ℕ → LcLink
link src dst = record { src = src; dst = dst; status = 0; cost = 1; expires = second 0 }

abbrev cache : LcGraph
cache = record {
  mem = mem;
  nodes = record { items = 10 ∷ 11 ∷ 12 ∷ []; len = 3; max_len = 500 };
  links = record { items = link 10 11 ∷ link 11 12 ∷ []; len = 2; max_len = 100 };
  src = none;
}

abbrev pub node : Node
node = record {
  maint = record {
    maint_buf = record { items = []; len = 0; max_len = 100 };
    ack_timer = none;
    lc = cache;
    neigh_tbl = record { items = []; len = 0; max_len = 50 };
    effects = [];
    calls = 0;
    faulty = false;
  };
  rreq_tbl = record { items = []; len = 0; max_len = 64 };
  rreq_timers = λ _. none;
  rreq_seqno = 0;
  grat_rrep = record { tbl = record { items = []; len = 0; max_len = 64 }; timer = none };
  send_buf = record { items = []; len = 0; max_len = 100 };
}

abbrev pub env : Env
env = record { conf = default_val; my_addr = 110; now = second 3; ethh = 0 }

abbrev pub pkt_room : PktRoom
pkt_room = record { pkt = true; opts = true; block = some block }

abbrev pub rreq_block : RreqGarbage
rreq_block = record { last_used = second 0; timeout = 0 }

abbrev salvage : SalvageRoom
salvage = record {
  alt = some block;
  old = some block;
  to_me = some block;
  new = some block;
  check = some block;
  opts = true;
  stray = 0;
}

abbrev maint_room : MaintRoom
maint_room = record {
  entry = true;
  copy = some empty_pkt;
  opts = true;
  rerr = pkt_room;
  ack_req = true;
  salvage = salvage;
}

abbrev blocks : Blocks
blocks = record { src_node = some 20; dst_node = some 21; link = true }

abbrev pub room : Room
room = record {
  srt = some block;
  srt_rev = some block;
  srt_split = some block;
  srt_cut = some block;
  srt_back = some block;
  srt_rc = some block;
  srt_cat = some block;
  duplicates = some block;
  link = blocks;
  route = λ _. blocks;
  neigh = true;
  rreq = some rreq_block;
  rreq_id = true;
  grat = some (second 0);
  pkt = pkt_room;
  ack_pkt = true;
  ack = true;
  waiting = λ _. some block;
  waiting_opts = λ _. true;
  maint = λ _. maint_room;
  intended = 0;
  prev = 0;
  next = 0;
}

abbrev pub rooms : ℕ → Room
rooms n = room

abbrev pub pkt : ℕ → ℕ → DsrPkt
pkt src dst = record empty_pkt { src = src; dst = dst; ip_dst = dst; ttl = 9 }
