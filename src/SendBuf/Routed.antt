-- ===== src/SendBuf/Routed.antt =====
-- send-buf.c with dsr-srt.c: a packet that is given a route.
use dsr_uu.Base.{
  ℕ, suc, ◌+◌, ◌%◌, ◌≡◌, refl, ap, sym, ◌∙◌, inl, inr, true, false, [], ◌∷◌, Option, none, some,
  arith, length, take, take_all, ltb, List-cases,
}
use dsr_uu.Base.Int.{pos}
use dsr_uu.Srt.{Srt, SrtOpt, addr_count, dsr_srt_next_hop, dsr_srt_opt_add}
use dsr_uu.Srt.Route.{IsSrt}
use dsr_uu.Pkt
use dsr_uu.Pkt.{DsrPkt}
use dsr_uu.Send.{Effect, xmit, dsr_pkt_free, hop_or_zero, srt_opt_len, dsr_srt_add}
use dsr_uu.SendBuf.{routed}

abbrev pub first_hop : Srt → ℕ
first_hop srt = elim srt.addrs [ [] ↦ srt.dst | a ∷ _ ↦ a ]

-- What is done with a packet, given the route that was found for it.
abbrev pub Routed : DsrPkt → Option Srt → Effect → Type 0
Routed dp none f = f ≡ dsr_pkt_free (record dp { srt = none })
Routed dp (some srt) f =
    (o : SrtOpt) × (o.addrs ≡ srt.addrs)
    × (o.sleft ≡ length srt.addrs % 64)
    × (f
        ≡ xmit (record dp {
          srt = some srt;
          nxt_hop = first_hop srt;
          opts = Pkt.Opt.srt o ∷ [];
          srt_opt = some o;
        }))

next_hop_first :
    (srt : Srt)
    → IsSrt srt
    → hop_or_zero (dsr_srt_next_hop srt (pos (addr_count srt))) ≡ first_hop srt
unfolding dsr_srt_next_hop
next_hop_first srt v = elim (List-cases srt.addrs) [
  | inl e ↦ let n : addr_count srt ≡ 0 = v.sized ∙ ap length e in rw (e, n) refl
  | inr (x, rest, e) ↦
      let n : addr_count srt ≡ suc (length rest) = v.sized ∙ ap length e in rw (e, n) (ground arith)
]

pub routed-Routed :
    (dp : DsrPkt) (srt : Srt)
    → IsSrt srt
    → Routed dp (some srt) (routed true (record dp { srt = some srt }))
unfolding routed dsr_srt_add dsr_srt_opt_add
routed-Routed dp srt v =
    let fits : ltb (srt_opt_len srt) (4 + srt.laddrs) ≡ false = ground arith in
    let all : take (addr_count srt) srt.addrs ≡ srt.addrs =
      take_all (addr_count srt) srt.addrs (omega (arith, v.sized)) in
    let o : SrtOpt = record {
      type = 96;
      length = (srt.laddrs + 2) % 256;
      f = 0;
      l = 0;
      res = 0;
      salv = dp.salvage % 16;
      sleft = addr_count srt % 64;
      addrs = take (addr_count srt) srt.addrs;
    } in
    (
      o,
      all,
      rw v.sized refl,
      rw (sym (next_hop_first srt v)) (rw (fits, routed, dsr_srt_add, dsr_srt_opt_add) refl),
    )
