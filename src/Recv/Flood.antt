-- ===== src/Recv/Flood.antt =====
-- dsr-rreq.c: which requests a node sends on, and that it sends none on twice.
use dsr_uu.Base.{
  ℕ, ◌+◌, ◌/◌, ◌%◌, ◌∷◌, ◌++◌, [], ◌≡◌, ◌≢◌, subst, true, false, List, Option, none, some, arith,
  take,
}
use dsr_uu.Srt.{occurs, dsr_srt_new}
use dsr_uu.Rreq.{dsr_rreq_duplicate}
use dsr_uu.Pkt
use dsr_uu.Pkt.{Opt, RreqOpt, DsrPkt}
use dsr_uu.Node.{Node, Env, Room}
use dsr_uu.Recv.Action.{shift, pkt_forward_rreq, Handled}
use dsr_uu.Recv.Requests.{
  rreq_addrs_len, grown, forward_rreq, answer_or_forward, rreq_route, rreq_new, dsr_rreq_opt_recv,
}

-- The addresses that a request has collected.
abbrev pub collected : RreqOpt → List ℕ
collected o = take (rreq_addrs_len o / 4) o.addrs

-- The request as it goes on: one more address, and a length of four bytes more, in 8 bits.
abbrev pub onward : ℕ → RreqOpt → RreqOpt
onward addr o = record {
  length = (o.length + 4) % 256;
  id = o.id;
  target = o.target;
  addrs = collected o ++ addr ∷ [];
}

-- What is true of a request that goes on.
abbrev pub GoesOn : Env → Node → DsrPkt → RreqOpt → Handled → Type 0
GoesOn env s dp o h =
    (dp.promisc_recv ≡ false)
    × (dp.num_rreq_opts ≡ 0)
    × (dsr_rreq_duplicate s.rreq_tbl dp.src o.target o.id ≡ false)
    × (o.target ≢ env.my_addr)
    × (dp.src ≢ env.my_addr)
    × (occurs env.my_addr (collected o) ≡ false)
    × (h.opt ≡ Pkt.Opt.rreq (onward env.my_addr o))

module _ (env : Env) (room : Room) where
  abbrev Forwards : Node → DsrPkt → RreqOpt → Option Handled → Type 0
  Forwards s dp o none = Unit
  Forwards s dp o (some h) = h.action pkt_forward_rreq ≡ true → GoesOn env s dp o h

  abbrev NewPasses : DsrPkt → RreqOpt → Option Handled → Type 0
  NewPasses dp o none = Unit
  NewPasses dp o (some h) =
      h.action pkt_forward_rreq ≡ true
      → (o.target ≢ env.my_addr)
        × (dp.src ≢ env.my_addr)
        × (occurs env.my_addr (collected o) ≡ false)
        × (h.opt ≡ Pkt.Opt.rreq (onward env.my_addr o))

  new-Passes :
      (s : Node) (dp : DsrPkt) (o : RreqOpt) → NewPasses dp o (rreq_new env room true s dp o)
  unfolding rreq_new rreq_route answer_or_forward forward_rreq grown dsr_srt_new shift
  new-Passes s dp o = ground arith

  recv-Forwards :
      (s : Node) (dp : DsrPkt) (o : RreqOpt)
      → Forwards s dp o (dsr_rreq_opt_recv env room true s dp o)
  unfolding dsr_rreq_opt_recv shift
  recv-Forwards s dp o = ground (
    arith,
    new-Passes s (record dp { num_rreq_opts = dp.num_rreq_opts + 1; rreq_opt = some o }) o,
  )

  -- A request that is the last option of its packet and that its handler has sent on: it was not
  -- overheard, it was the first of its packet, no request of its initiator with its target and
  -- identifier was known, neither its target nor its initiator nor an address that it had collected is
  -- this node, and it goes on with its target, its identifier and all the addresses that it had
  -- collected in order, the address of this node behind them, and four bytes longer, in 8 bits.
  pub dsr_rreq_opt_recv-GoesOn :
      (s : Node) (dp : DsrPkt) (o : RreqOpt) (h : Handled)
      → dsr_rreq_opt_recv env room true s dp o ≡ some h
      → h.action pkt_forward_rreq ≡ true
      → GoesOn env s dp o h
  dsr_rreq_opt_recv-GoesOn s dp o h y f = subst (Forwards s dp o) y (recv-Forwards s dp o) f
