-- ===== src/Send.antt =====
-- The functions that put options into packets and make packets to send, from dsr-srt.c, dsr-rerr.c
-- and dsr-ack.c. `room` tells whether memory suffices for the new space of options. `dsr_build_ip` and
-- `dsr_opt_hdr_add` cannot fail where they are called, and the IP header is that of the packet.
use dsr_uu.Base.{
  List, ◌++◌, [], map, ◌%◌, ltb, ◌==◌, if◌then◌else◌, get_or, ℕ, ◌+◌, Bool, true, false, [], ◌∷◌,
  Option, none, some,
}
use dsr_uu.Base.Int.{pos}
use dsr_uu.Timer.{Timeval}
use dsr_uu.Conf.{Confvals, max_salvage_count}
use dsr_uu.LinkCache.{LcGraph}
use dsr_uu.LinkCache.Search.{lc_srt_find}
use dsr_uu.Srt.{Garbage, SrtOpt, Srt, addr_count, dsr_srt_next_hop, dsr_srt_opt_add}
use dsr_uu.Pkt
use dsr_uu.Pkt.{Opt, RerrOpt, AckReqOpt, empty_pkt, DsrPkt}

-- What is done outside of the tables and the buffers, in order.
pub data Effect : Type 0 where
  xmit : DsrPkt → Effect
  dsr_pkt_free : DsrPkt → Effect
  icmp_send : DsrPkt → Effect
  set_timer : Timeval → Effect
  deliver : DsrPkt → Effect

-- A read outside of an array, which no route with the right length makes, gives 0.
abbrev pub hop_or_zero : Option ℕ → ℕ
hop_or_zero none = 0
hop_or_zero (some hop) = hop

-- DSR_SRT_OPT_LEN
abbrev pub srt_opt_len : Srt → ℕ
srt_opt_len srt = 4 + srt.laddrs

-- `none` is -1. The new options replace those that the packet had.
unfoldable pub dsr_srt_add : Bool → DsrPkt → Option DsrPkt
dsr_srt_add room dp = elim dp.srt [
  | none ↦ none
  | some srt ↦ elim room [
    | false ↦ none
    | true ↦ elim (dsr_srt_opt_add (srt_opt_len srt) 0 dp.salvage srt) [
      | none ↦ none
      | some o ↦ some (record dp {
        nxt_hop = hop_or_zero (dsr_srt_next_hop srt (pos (addr_count srt)));
        opts = Pkt.Opt.srt o ∷ [];
        srt_opt = some o;
      })
    ]
  ]
]

-- IPDEFTTL of the kernel
abbrev pub ipdefttl : ℕ
ipdefttl = 64

-- NODE_UNREACHABLE
abbrev pub node_unreachable : ℕ
node_unreachable = 1

-- The option for a node that cannot be reached: DSR_RERR_OPT_LEN and the 4 bytes of its address.
-- `salv` has 4 bits.
unfoldable pub dsr_rerr_opt_add : ℕ → ℕ → ℕ → ℕ → RerrOpt
dsr_rerr_opt_add err_src err_dst unreach_addr salv = record {
  length = 14;
  err_type = node_unreachable;
  err_src = err_src;
  err_dst = err_dst;
  res = 0;
  salv = salv % 16;
  info = unreach_addr;
}

-- The loop over the route errors of the trigger packet, up to the first that was salvaged too often.
unfoldable pub old_rerr_opts : Confvals → List RerrOpt → List Opt
old_rerr_opts conf [] = []
old_rerr_opts conf (r ∷ rest) =
    if ltb (conf max_salvage_count) r.salv then [] else Pkt.Opt.rerr r ∷ old_rerr_opts conf rest

-- What `kmalloc` gives to a function that makes a packet, and what stands in the block of its route.
pub record PktRoom : Type 0 where
  pub pkt : Bool
  pub opts : Bool
  pub block : Option Garbage

-- The packet that carries a route error along the route `srt`; `none` is that of `out_err`.
unfoldable pub rerr_pkt : Bool → Confvals → ℕ → ℕ → Srt → DsrPkt → SrtOpt → ℕ → Option DsrPkt
unfolding dsr_rerr_opt_add old_rerr_opts
rerr_pkt room conf myaddr dst srt dp_trigg trigg_opt unr_addr = elim room [
  | false ↦ none
  | true ↦ elim (dsr_srt_opt_add (srt_opt_len srt) 0 0 srt) [
    | none ↦ none
    | some o ↦ some (record empty_pkt {
      src = myaddr;
      dst = dst;
      ip_dst = dst;
      nxt_hop = hop_or_zero (dsr_srt_next_hop srt (pos (addr_count srt)));
      ttl = ipdefttl;
      srt = some srt;
      srt_opt = some o;
      opts =
          Pkt.Opt.srt o
          ∷ Pkt.Opt.rerr (dsr_rerr_opt_add myaddr dst unr_addr trigg_opt.salv)
          ∷ (old_rerr_opts conf dp_trigg.rerr_opt ++ map Pkt.Opt.ack dp_trigg.ack_opt);
    })
  ]
]

-- The cache is searched for the way back. Where none is found the source returns without more. A
-- read behind the addresses of the option gives 0.
unfoldable pub dsr_rerr_send : PktRoom → Confvals → ℕ → LcGraph → DsrPkt → ℕ → LcGraph × List Effect
unfolding rerr_pkt
dsr_rerr_send room conf myaddr lc dp_trigg unr_addr =
    if dp_trigg.src == myaddr then (lc, []) else elim dp_trigg.srt_opt [
      | none ↦ (lc, [])
      | some o ↦ elim room.pkt [
        | false ↦ (lc, [])
        | true ↦
            let dst = if o.salv == 0 then dp_trigg.src else get_or o.addrs 1 0 in
            let (lc', srt?) = lc_srt_find room.block lc myaddr dst in
            elim srt? [
              | none ↦ (lc', [])
              | some srt ↦ elim (rerr_pkt room.opts conf myaddr dst srt dp_trigg o unr_addr) [
                | none ↦ (lc', dsr_pkt_free (record empty_pkt { srt = some srt }) ∷ [])
                | some dp ↦ (lc', xmit dp ∷ [])
              ]
            ]
      ]
    ]

-- `pkt` tells whether the packet can be allocated; `none` is that the source uses the packet at NULL.
unfoldable pub dsr_ack_req_send : Bool → Bool → ℕ → ℕ → ℕ → Option (List Effect)
dsr_ack_req_send pkt room myaddr neigh_addr id =
    if pkt
    then some (
        let dp : DsrPkt = record empty_pkt {
          src = myaddr;
          dst = neigh_addr;
          ip_dst = neigh_addr;
          nxt_hop = neigh_addr;
        } in
        if room
        then xmit
            (record dp { ttl = 1; opts = Pkt.Opt.ack_req (record { length = 2; id = id }) ∷ [] })
          ∷ []
        else dsr_pkt_free dp ∷ [])
    else none

unfoldable pub dsr_ack_send : Bool → Bool → ℕ → ℕ → ℕ → Option (List Effect)
dsr_ack_send pkt room myaddr dst id =
    if pkt
    then some (
        let dp : DsrPkt = record empty_pkt {
          src = myaddr;
          dst = dst;
          ip_dst = dst;
          nxt_hop = dst;
        } in
        if room
        then xmit (record dp {
          ttl = ipdefttl;
          xmit_jitter = true;
          opts = Pkt.Opt.ack (record { length = 10; id = id; src = myaddr; dst = dst }) ∷ [];
        })
          ∷ []
        else dsr_pkt_free dp ∷ [])
    else none

-- The first option of the kind is overwritten: it is the one that `dp` points to.
unfoldable pub overwrite_ack_req : AckReqOpt → List Opt → List Opt
overwrite_ack_req a [] = []
overwrite_ack_req a (Pkt.Opt.ack_req b ∷ rest) = Pkt.Opt.ack_req a ∷ rest
overwrite_ack_req a (Pkt.Opt.rreq b ∷ rest) = Pkt.Opt.rreq b ∷ overwrite_ack_req a rest
overwrite_ack_req a (Pkt.Opt.rrep b ∷ rest) = Pkt.Opt.rrep b ∷ overwrite_ack_req a rest
overwrite_ack_req a (Pkt.Opt.rerr b ∷ rest) = Pkt.Opt.rerr b ∷ overwrite_ack_req a rest
overwrite_ack_req a (Pkt.Opt.ack b ∷ rest) = Pkt.Opt.ack b ∷ overwrite_ack_req a rest
overwrite_ack_req a (Pkt.Opt.srt b ∷ rest) = Pkt.Opt.srt b ∷ overwrite_ack_req a rest
overwrite_ack_req a (Pkt.Opt.other t l ∷ rest) = Pkt.Opt.other t l ∷ overwrite_ack_req a rest

-- A new option goes behind the others, into the space that is left or into a new one. `none` is NULL.
unfoldable pub dsr_ack_req_opt_add : Bool → DsrPkt → ℕ → Option DsrPkt
unfolding overwrite_ack_req
dsr_ack_req_opt_add room dp id =
    let a : AckReqOpt = record { length = 2; id = id } in
    elim dp.ack_req_opt [
      | some _ ↦ some (record dp { ack_req_opt = some a; opts = overwrite_ack_req a dp.opts })
      | none ↦ if room then some (record dp { opts = dp.opts ++ Pkt.Opt.ack_req a ∷ [] }) else none
    ]
