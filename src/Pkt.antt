-- ===== src/Pkt.antt =====
-- dsr-pkt.h: a packet, and the options that dsr-rreq.h, dsr-rrep.h, dsr-rerr.h and dsr-ack.h lay out.
-- The space for options is the list of the options that stand in it, in order. The bits of `flags`
-- are fields of their own, and an array with its count is a list. `ttl` is that of the IP header.
use dsr_uu.Base.{ℕ, Bool, false, List, [], Option, none}
use dsr_uu.Srt.{Srt, SrtOpt}

-- `struct dsr_rreq_opt`
pub record RreqOpt : Type 0 where
  pub length : ℕ
  pub id : ℕ
  pub target : ℕ
  pub addrs : List ℕ

-- `struct dsr_rrep_opt`
pub record RrepOpt : Type 0 where
  pub length : ℕ
  pub l : ℕ
  pub res : ℕ
  pub addrs : List ℕ

-- `struct dsr_rerr_opt`; `info` is the unreachable node.
pub record RerrOpt : Type 0 where
  pub length : ℕ
  pub err_type : ℕ
  pub err_src : ℕ
  pub err_dst : ℕ
  pub res : ℕ
  pub salv : ℕ
  pub info : ℕ

-- `struct dsr_ack_opt`
pub record AckOpt : Type 0 where
  pub length : ℕ
  pub id : ℕ
  pub src : ℕ
  pub dst : ℕ

-- `struct dsr_ack_req_opt`
pub record AckReqOpt : Type 0 where
  pub length : ℕ
  pub id : ℕ

-- An option, by its type; `other` is one that no handler reads, with its type and length.
pub data Opt : Type 0 where
  rreq : RreqOpt → Opt
  rrep : RrepOpt → Opt
  rerr : RerrOpt → Opt
  ack : AckOpt → Opt
  srt : SrtOpt → Opt
  ack_req : AckReqOpt → Opt
  other : ℕ → ℕ → Opt

-- `struct dsr_pkt`; `ip_dst` is `nh.iph->daddr`, the destination in the IP header.
pub record DsrPkt : Type 0 where
  pub src : ℕ
  pub dst : ℕ
  pub ip_dst : ℕ
  pub nxt_hop : ℕ
  pub prv_hop : ℕ
  pub promisc_recv : Bool
  pub request_ack : Bool
  pub xmit_jitter : Bool
  pub salvage : ℕ
  pub ttl : ℕ
  pub opts : List Opt
  pub num_rreq_opts : ℕ
  pub rreq_opt : Option RreqOpt
  pub srt_opt : Option SrtOpt
  pub rrep_opt : List RrepOpt
  pub rerr_opt : List RerrOpt
  pub ack_opt : List AckOpt
  pub ack_req_opt : Option AckReqOpt
  pub srt : Option Srt
  pub payload : List ℕ

-- `dsr_pkt_alloc(NULL)`: the new packet is cleared.
abbrev pub empty_pkt : DsrPkt
empty_pkt = record {
  src = 0;
  dst = 0;
  ip_dst = 0;
  nxt_hop = 0;
  prv_hop = 0;
  promisc_recv = false;
  request_ack = false;
  xmit_jitter = false;
  salvage = 0;
  ttl = 0;
  opts = [];
  num_rreq_opts = 0;
  rreq_opt = none;
  srt_opt = none;
  rrep_opt = [];
  rerr_opt = [];
  ack_opt = [];
  ack_req_opt = none;
  srt = none;
  payload = [];
}
