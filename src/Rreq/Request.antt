-- ===== src/Rreq/Request.antt =====
-- dsr-rreq.c: the option of a route request and the packet that carries it.
use dsr_uu.Base.{ℕ, ◌%◌, ◌^◌, true, false, List, [], ◌∷◌, some, ◌==◌, if◌then◌else◌, incr32}
use dsr_uu.Pkt
use dsr_uu.Pkt.{Opt, RreqOpt, empty_pkt, DsrPkt}
use dsr_uu.Send.{Effect, xmit, dsr_pkt_free, ipdefttl, PktRoom}

abbrev pub dsr_broadcast : ℕ
dsr_broadcast = 4294967295

-- The buffer has the 8 bytes of the option where it is called. `id` has 16 bits.
unfoldable pub dsr_rreq_opt_add : ℕ → ℕ → RreqOpt
dsr_rreq_opt_add target seqno = record {
  length = 6;
  id = seqno % 2 ^ 16;
  target = target;
  addrs = [];
}

-- `rreq_seqno` is counted up once there is room for the option; the new number is the result.
unfoldable pub dsr_rreq_send : PktRoom → ℕ → ℕ → ℕ → ℕ → ℕ × List Effect
unfolding dsr_rreq_opt_add
dsr_rreq_send room myaddr rreq_seqno target ttl = elim room.pkt [
  | false ↦ (rreq_seqno, [])
  | true ↦
      let dp : DsrPkt = record empty_pkt {
        dst = dsr_broadcast;
        ip_dst = dsr_broadcast;
        nxt_hop = dsr_broadcast;
        src = myaddr;
      } in
      elim room.opts [
        | false ↦ (rreq_seqno, dsr_pkt_free dp ∷ [])
        | true ↦
            let seqno = incr32 rreq_seqno in
            let o = dsr_rreq_opt_add target seqno in
            (
              seqno,
              xmit (record dp {
                ttl = if ttl == 0 then ipdefttl else ttl;
                rreq_opt = some o;
                xmit_jitter = true;
                opts = Pkt.Opt.rreq o ∷ [];
              })
                  ∷ [],
            )
      ]
]
