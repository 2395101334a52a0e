-- ===== src/Recv/Once.antt =====
-- dsr-rreq.c: a request that comes again.
use dsr_uu.Base.{ℕ, ◌+◌, ◌≤◌, ◌≡◌, refl, subst, Bool, true, false, Option, none, some, arith}
use dsr_uu.Rreq.{RreqGarbage, rreq_tbl_add_id, dsr_rreq_duplicate}
use dsr_uu.Rreq.Table.{IsLimit, IsRreqTbl}
use dsr_uu.Rreq.Discovery.{add_id-duplicate}
use dsr_uu.Pkt
use dsr_uu.Pkt.{Opt, RreqOpt, DsrPkt}
use dsr_uu.Node.{Node, Env, Room, send_waiting, add_neigh, add_route}
use dsr_uu.Node.Perform.{perform_all-rreq_tbl}
use dsr_uu.Recv.Action.{pkt_drop, bit, Handled}
use dsr_uu.Recv.Requests.{
  note_request, learn, forward_rreq, answer_or_forward, rreq_route, rreq_new, dsr_rreq_opt_recv,
}

module _ (env : Env) (room : Room) (last : Bool) where
  abbrev Kept : Node → Option Handled → Type 0
  Kept s none = Unit
  Kept s (some h) = h.node.rreq_tbl ≡ s.rreq_tbl

  note_request-Noted :
      (s : Node) (dp : DsrPkt) (o : RreqOpt)
      → (note_request env room s dp o).rreq_tbl
        ≡ (rreq_tbl_add_id room.rreq room.rreq_id env.conf env.now s.rreq_tbl dp.src o.target
            o.id).0
  unfolding note_request
  note_request-Noted s dp o =
      let (t, actions) =
        rreq_tbl_add_id room.rreq room.rreq_id env.conf env.now s.rreq_tbl dp.src o.target o.id in
      perform_all-rreq_tbl room.pkt env (record s { rreq_tbl = t }) actions

  new-Kept :
      (s : Node) (dp : DsrPkt) (o : RreqOpt)
      → Kept (note_request env room s dp o) (rreq_new env room last s dp o)
  unfolding rreq_new rreq_route learn send_waiting add_neigh add_route answer_or_forward
      forward_rreq
  new-Kept s dp o = ground arith

  abbrev Known : ℕ → ℕ → ℕ → Option Handled → Type 0
  Known src target id none = Unit
  Known src target id (some h) = dsr_rreq_duplicate h.node.rreq_tbl src target id ≡ true

  new-Known :
      (s : Node) (dp : DsrPkt) (o : RreqOpt) (block : RreqGarbage)
      → room.rreq ≡ some block
      → room.rreq_id ≡ true
      → IsLimit env.conf
      → IsRreqTbl s.rreq_tbl
      → 1 ≤ s.rreq_tbl.max_len
      → Known dp.src o.target o.id (rreq_new env room last s dp o)
  new-Known s dp o block m m' lim v max = go (rreq_new env room last s dp o) (new-Kept s dp o)
    where
      known : dsr_rreq_duplicate (note_request env room s dp o).rreq_tbl dp.src o.target o.id ≡ true
      known =
          rw (note_request-Noted s dp o, m, m')
            (add_id-duplicate block env.conf env.now s.rreq_tbl dp.src o.target o.id lim v max)

      go :
          (r : Option Handled)
          → Kept (note_request env room s dp o) r
          → Known dp.src o.target o.id r
      go none k = tt
      go (some h) k = rw k known

  recv-Known :
      (s : Node) (dp : DsrPkt) (o : RreqOpt) (block : RreqGarbage)
      → room.rreq ≡ some block
      → room.rreq_id ≡ true
      → IsLimit env.conf
      → IsRreqTbl s.rreq_tbl
      → 1 ≤ s.rreq_tbl.max_len
      → dp.promisc_recv ≡ false
      → dp.num_rreq_opts ≡ 0
      → Known dp.src o.target o.id (dsr_rreq_opt_recv env room last s dp o)
  unfolding dsr_rreq_opt_recv
  recv-Known s dp o block m m' lim v max p first = ground (
    arith,
    new-Known s (record dp { num_rreq_opts = dp.num_rreq_opts + 1; rreq_opt = some o }) o block m m'
        lim v max,
    p,
    first,
  )

-- A packet whose request was counted, and found.
abbrev pub counted : DsrPkt → RreqOpt → DsrPkt
counted dp o = record dp { num_rreq_opts = 1; rreq_opt = some o }

-- A request, not overheard and the first of its packet, that its handler has worked on with memory for
-- the entry of its initiator and for its identifier, in a well-formed table with room for an entry:
-- when next a request of the same initiator with the same target and identifier comes, in whatever
-- packet and by whatever way, not overheard and the first of its packet, it is dropped, and the node
-- stays as it is.
pub dsr_rreq_opt_recv-Once :
    (env env' : Env) (room room' : Room) (last last' : Bool) (s : Node) (dp dp' : DsrPkt)
    (o o' : RreqOpt) (h : Handled) (block : RreqGarbage)
    → room.rreq ≡ some block
    → room.rreq_id ≡ true
    → IsLimit env.conf
    → IsRreqTbl s.rreq_tbl
    → 1 ≤ s.rreq_tbl.max_len
    → (dp.promisc_recv ≡ false) × (dp.num_rreq_opts ≡ 0)
    → dsr_rreq_opt_recv env room last s dp o ≡ some h
    → (dp'.promisc_recv ≡ false) × (dp'.num_rreq_opts ≡ 0)
    → (dp'.src ≡ dp.src) × (o'.target ≡ o.target) × (o'.id ≡ o.id)
    → dsr_rreq_opt_recv env' room' last' h.node dp' o'
      ≡ some (record {
        node = h.node;
        dp = counted dp' o';
        opt = Pkt.Opt.rreq o';
        action = bit pkt_drop;
      })
unfolding dsr_rreq_opt_recv
dsr_rreq_opt_recv-Once env env' room room' last last' s dp dp' o o' h block m m' lim v max p y p'
      q =
    let known =
      subst (Known env room last dp.src o.target o.id) y
        (recv-Known env room last s dp o block m m' lim v max p.0 p.1) in
    let again : dsr_rreq_duplicate h.node.rreq_tbl dp'.src o'.target o'.id ≡ true =
      rw (q.0, q.1, q.2) known in
    rw (p'.0, p'.1, dsr_rreq_opt_recv) (rw again refl)
