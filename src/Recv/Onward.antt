-- ===== src/Recv/Onward.antt =====
-- dsr-srt.c: a packet that its source route leads on.
use dsr_uu.Base.{
  ℕ, zero, suc, ◌-◌, ◌/◌, ◌≤◌, ◌≡◌, refl, sym, ap, subst, ◌∙◌, inl, inr, true, false, [], ◌∷◌, ◌++◌,
  some, Option-cases, arith, take, length, get_or, get_elem?-get_or, length-take,
}
use dsr_uu.Base.Int.{pos, pred_int}
use dsr_uu.Srt.{Garbage, Srt, SrtOpt, addr_count, dsr_srt_next_hop, dsr_srt_new}
use dsr_uu.Srt.Route.{nodes}
use dsr_uu.Pkt
use dsr_uu.Pkt.{Opt, DsrPkt}
use dsr_uu.Node.{Node, Env, Room}
use dsr_uu.Recv.Action.{shift, pkt_forward, Handled}
use dsr_uu.Recv.Routes.{or_stray, take_route, next_segment, srt_route, dsr_srt_opt_recv}

-- The option with one segment less.
abbrev pub one_less : SrtOpt → SrtOpt
one_less o = record o { sleft = o.sleft - 1 }

-- An address stands where the next hop is looked for.
next_hop-some :
    (srt : Srt) (k : ℕ)
    → addr_count srt ≤ length srt.addrs
    → k ≤ addr_count srt
    → (a : ℕ) × (dsr_srt_next_hop srt (pos k) ≡ some a)
unfolding dsr_srt_next_hop
next_hop-some srt zero h le = (srt.dst, refl)
next_hop-some srt (suc k) h le = (
  get_or srt.addrs (addr_count srt - suc k) 0,
  ground (arith, le, get_elem?-get_or srt.addrs (addr_count srt - suc k) 0 (omega arith)),
)

-- What is true of a packet that the handler sends on, by the route `srt`.
abbrev pub Leads : Room → DsrPkt → SrtOpt → Handled → Srt → Type 0
Leads room dp o h srt =
    (dp.promisc_recv ≡ false)
    × (1 ≤ o.sleft)
    × (o.sleft ≤ addr_count srt)
    × (h.opt ≡ Pkt.Opt.srt (one_less o))
    × (h.dp.srt_opt ≡ some (one_less o))
    × (h.dp.srt ≡ some srt)
    × (h.dp.nxt_hop ≡ or_stray room.next (dsr_srt_next_hop srt (pred_int o.sleft)))

-- The packet goes to the node that the route names for the segments that are left.
abbrev pub Onward : DsrPkt → SrtOpt → Handled → Type 0
Onward dp o h =
    (srt : Srt) × (nodes srt ≡ dp.src ∷ (take (o.length / 4) o.addrs ++ dp.dst ∷ []))
    × (h.dp.srt ≡ some srt)
    × (dp.promisc_recv ≡ false)
    × (1 ≤ o.sleft)
    × (o.sleft ≤ o.length / 4)
    × (h.opt ≡ Pkt.Opt.srt (one_less o))
    × (dsr_srt_next_hop srt (pos (o.sleft - 1)) ≡ some h.dp.nxt_hop)

module _ (env : Env) (room : Room) where
  route-Leads :
      (s : Node) (dp : DsrPkt) (o : SrtOpt) (srt : Srt)
      → (srt_route env room s dp o srt).action pkt_forward ≡ true
      → Leads room dp o (srt_route env room s dp o srt) srt
  unfolding srt_route take_route next_segment shift
  route-Leads s dp o srt f = ground (arith, f)

  pred-pos : (k : ℕ) → 1 ≤ k → pred_int k ≡ pos (k - 1)
  pred-pos zero h = absurd (omega arith)
  pred-pos (suc k) h = ap pos (omega arith)

  -- The route that the option holds.
  abbrev held : Garbage → DsrPkt → SrtOpt → Srt
  held m dp o = record {
    src = dp.src;
    dst = dp.dst;
    flags = m.flags;
    index = m.index;
    laddrs = o.length;
    addrs = take (o.length / 4) o.addrs;
  }

  held-Onward :
      (dp : DsrPkt) (o : SrtOpt) (m : Garbage) (h : Handled)
      → o.length / 4 ≤ length o.addrs
      → Leads room dp o h (held m dp o)
      → Onward dp o h
  held-Onward dp o m h l (p, low, high, opt, _, route, hop) =
      let (a, e) =
        next_hop-some (held m dp o) (o.sleft - 1)
          (omega (arith, length-take (o.length / 4) o.addrs l)) (omega arith) in
      let at : pred_int o.sleft ≡ pos (o.sleft - 1) = pred-pos o.sleft low in
      let there : h.dp.nxt_hop ≡ a =
        hop
        ∙ ap (λ k. or_stray room.next (dsr_srt_next_hop (held m dp o) k)) at
        ∙ ap (or_stray room.next) e in
      (held m dp o, refl, route, p, low, high, opt, e ∙ ap some (sym there))

  -- A packet that the handler of its source route sends on, where the option has the addresses that
  -- its length counts: it was not overheard, and the segments left were at least one and not more than
  -- the route has addresses; the option goes on with one segment less, and the packet to the node that
  -- the route, which visits the source, the addresses and the destination, names for that number: the
  -- next node takes itself for the next hop intended.
  pub dsr_srt_opt_recv-Onward :
      (s : Node) (dp : DsrPkt) (o : SrtOpt)
      → o.length / 4 ≤ length o.addrs
      → (dsr_srt_opt_recv env room s dp o).action pkt_forward ≡ true
      → Onward dp o (dsr_srt_opt_recv env room s dp o)
  unfolding dsr_srt_opt_recv dsr_srt_new shift
  dsr_srt_opt_recv-Onward s dp o l f = elim (Option-cases room.srt) [
    | inl n ↦ absurd (ground (arith, n, f))
    | inr (m, y) ↦
        let e : dsr_srt_opt_recv env room s dp o ≡ srt_route env room s dp o (held m dp o) =
          ground (arith, y) in
        held-Onward dp o m (dsr_srt_opt_recv env room s dp o) l (
          subst (λ h. Leads room dp o h (held m dp o)) (sym e)
            (route-Leads s dp o (held m dp o)
              (subst (λ (h : Handled). h.action pkt_forward ≡ true) e f)))
  ]
