-- ===== src/Rrep/Reply.antt =====
-- dsr-rrep.c: the option of a route reply and the packet that carries it.
use dsr_uu.Base.{
  ℕ, ◌+◌, ◌-◌, ◌%◌, true, false, List, [], ◌∷◌, ◌++◌, Option, none, some, ltb, ◌==◌, if◌then◌else◌,
  get_or, take,
}
use dsr_uu.Srt.{SrtOpt, Srt, addr_count, dsr_srt_opt_add}
use dsr_uu.Pkt
use dsr_uu.Pkt.{Opt, RrepOpt, empty_pkt, DsrPkt}
use dsr_uu.Send.{Effect, xmit, dsr_pkt_free, srt_opt_len, PktRoom}

-- DSR_RREP_OPT_LEN: the compiler fills the struct up to 4 bytes.
abbrev pub rrep_opt_len : Srt → ℕ
rrep_opt_len srt = 4 + srt.laddrs + 4

-- The addresses of the route and its destination.
unfoldable pub dsr_rrep_add_srt : Srt → List ℕ
dsr_rrep_add_srt srt = take (addr_count srt) srt.addrs ++ srt.dst ∷ []

-- The option in a buffer of `len` bytes; `length` has 8 bits.
unfoldable pub dsr_rrep_opt_add : ℕ → Srt → Option RrepOpt
unfolding dsr_rrep_add_srt
dsr_rrep_opt_add len srt =
    if ltb len (rrep_opt_len srt)
    then none
    else some (record {
      length = (srt.laddrs + 4 + 1) % 256;
      l = 0;
      res = 0;
      addrs = dsr_rrep_add_srt srt;
    })

-- The two options, one behind the other.
unfoldable pub reply_opts : Srt → Srt → Option (SrtOpt × RrepOpt)
unfolding dsr_rrep_opt_add
reply_opts srt srt_to_me =
    let len = srt_opt_len srt + rrep_opt_len srt_to_me in
    elim (dsr_srt_opt_add len 0 0 srt) [
      | none ↦ none
      | some o ↦ elim (dsr_rrep_opt_add (len - srt_opt_len srt) srt_to_me) [
        | none ↦ none
        | some r ↦ some (o, r)
      ]
    ]

-- The route `srt_to_me` is told to the destination of `srt`. An IP header made with the ttl 0 has
-- IPDEFTTL; that of a reply has more than the number of its hops.
unfoldable pub dsr_rrep_send : PktRoom → ℕ → Srt → Srt → List Effect
unfolding reply_opts
dsr_rrep_send room myaddr srt srt_to_me = elim room.pkt [
  | false ↦ []
  | true ↦
      let dp : DsrPkt = record empty_pkt {
        src = myaddr;
        dst = srt.dst;
        ip_dst = srt.dst;
        nxt_hop = if srt.laddrs == 0 then srt.dst else get_or srt.addrs 0 0;
      } in
      elim room.opts [
        | false ↦ dsr_pkt_free dp ∷ []
        | true ↦ elim (reply_opts srt srt_to_me) [
          | none ↦ dsr_pkt_free dp ∷ []
          | some (o, r) ↦
              xmit (record dp {
                ttl = addr_count srt + 1;
                srt_opt = some o;
                rrep_opt = r ∷ [];
                xmit_jitter = true;
                opts = Pkt.Opt.srt o ∷ Pkt.Opt.rrep r ∷ [];
              })
              ∷ []
        ]
      ]
]
