-- ===== src/StartXmit/Outcome.antt =====
-- dsr-io.c: what becomes of a packet of this node's own.
use dsr_uu.Base.{
  ℕ, ◌≤◌, ◌<◌, ◌≡◌, Bool, arith, refl, sym, ap, subst, ◌∙◌, inl, inr, true, false, List, [], ◌∷◌,
  ◌++◌, Option, none, some, Option-cases,
}
use dsr_uu.Base.Int.{ℤ, is_negative}
use dsr_uu.Timer.{Timeval}
use dsr_uu.Conf.{Confvals}
use dsr_uu.Tbl.{Tbl, find_first}
use dsr_uu.Tbl.Bounds.{IsTbl}
use dsr_uu.Srt.{Srt}
use dsr_uu.LinkCache.Search.{lc_srt_find}
use dsr_uu.Rreq.{
  RreqEntry, RreqGarbage, Action, in_route_disc, crit_addr, rreq_tbl_take, discovery_start,
  dsr_rreq_route_discovery,
}
use dsr_uu.Rreq.Table.{IsLimit, IsRreqTbl, Taken, rreq_tbl_take-Taken}
use dsr_uu.Rreq.Invariant.{State-cases}
use dsr_uu.Rreq.Discovery.{put_found, take_some}
use dsr_uu.Pkt.{DsrPkt}
use dsr_uu.Send.{Effect, xmit, dsr_pkt_free, dsr_srt_add}
use dsr_uu.SendBuf.{routed, SendBufEntry, send_buf_enqueue_packet}
use dsr_uu.SendBuf.Routed.{Routed, routed-Routed}
use dsr_uu.Srt.Route.{IsSrt}
use dsr_uu.SendBuf.Queue.{send_buf_enqueue_packet_room}
use dsr_uu.Node.{Node, Env, emit, set_lc}
use dsr_uu.Node.Perform.{perform_all-rreq_tbl, perform_all-send_buf}
use dsr_uu.StartXmit.{XmitRoom, discover, after_enqueue, put_aside, with_srt, dsr_start_xmit}

-- A discovery for the address is under way.
abbrev pub UnderWay : Tbl RreqEntry → ℕ → Type 0
UnderWay t addr =
    (e : RreqEntry) × (find_first (crit_addr addr) t.items ≡ some e) × (e.state ≡ in_route_disc)

discovery-UnderWay :
    (block : RreqGarbage) (conf : Confvals) (now : Timeval) (t : Tbl RreqEntry) (target : ℕ)
    → IsLimit conf
    → IsRreqTbl t
    → 1 ≤ t.max_len
    → UnderWay (dsr_rreq_route_discovery (some block) conf now t target).0 target
unfolding dsr_rreq_route_discovery discovery_start
discovery-UnderWay block conf now t target lim v max =
    go (rreq_tbl_take (some block) conf t target) refl
      (rreq_tbl_take-Taken (some block) conf t target lim v)
  where
    go :
        (r : Option (RreqEntry × Tbl RreqEntry × List Action))
        → rreq_tbl_take (some block) conf t target ≡ r
        → Taken t target r
        → UnderWay (dsr_rreq_route_discovery (some block) conf now t target).0 target
    go none e k = absurd (take_some block conf t target e)
    go (some (x, rest, actions)) e (at, ok, rest_ok, without, _, room) =
        rw (e, dsr_rreq_route_discovery)
          (elim (State-cases x.state) [
            | inl i ↦ rw i (
              discovery_start conf now x,
              put_found rest target (discovery_start conf now x) (room max) without at,
              refl,
            )
            | inr d ↦ rw d (x, put_found rest target x (room max) without at, d)
          ])

-- The packet is the last that waits, and its destination is being looked for.
abbrev pub Waits : Timeval → Tbl SendBufEntry → DsrPkt → Node → Type 0
Waits now buf dp s' =
    (s'.send_buf.items ≡ buf.items ++ record { dp = dp; qtime = now } ∷ [])
    × UnderWay s'.rreq_tbl dp.dst

-- A packet that is sent, with the option that holds its route, or freed.
abbrev pub Sent : DsrPkt → Srt → Bool → Effect → Type 0
Sent dp srt true f = IsSrt srt → Routed dp (some srt) f
Sent dp srt false f = f ≡ dsr_pkt_free (record dp { srt = some srt })

routed-Sent :
    (opts : Bool) (dp : DsrPkt) (srt : Srt)
    → Sent dp srt opts (routed opts (record dp { srt = some srt }))
unfolding routed dsr_srt_add
routed-Sent true dp srt = routed-Routed dp srt
routed-Sent false dp srt = ground arith

module _ (env : Env) (room : XmitRoom) where
  discover-send_buf : (s : Node) (dst : ℕ) → (discover env room s dst).send_buf ≡ s.send_buf
  unfolding discover
  discover-send_buf s dst =
      let (t, actions, res) = dsr_rreq_route_discovery room.rreq env.conf env.now s.rreq_tbl dst in
      perform_all-send_buf room.pkt env (record s { rreq_tbl = t }) actions

  discover-rreq_tbl :
      (s : Node) (dst : ℕ)
      → (discover env room s dst).rreq_tbl
        ≡ (dsr_rreq_route_discovery room.rreq env.conf env.now s.rreq_tbl dst).0
  unfolding discover
  discover-rreq_tbl s dst =
      let (t, actions, res) = dsr_rreq_route_discovery room.rreq env.conf env.now s.rreq_tbl dst in
      perform_all-rreq_tbl room.pkt env (record s { rreq_tbl = t }) actions

  enqueued-discover :
      (s : Node) (dp : DsrPkt) (buf : Tbl SendBufEntry) (effects : List Effect) (res : ℤ)
      → is_negative res ≡ false
      → after_enqueue env room s dp (buf, effects, res)
        ≡ discover env room (emit (record s { send_buf = buf }) effects) dp.dst
  unfolding after_enqueue
  enqueued-discover s dp buf effects res n = rw (n, after_enqueue) refl

  -- What becomes of a packet: with a route in its options it is transmitted, without memory for
  -- them freed, and without a route it waits.
  abbrev pub Outcome : Node → DsrPkt → Option Srt → Node → Type 0
  Outcome s dp none s' = Waits env.now s.send_buf (record dp { srt = none }) s'
  Outcome s dp (some srt) s' =
      (effect : Effect) × (s'.maint.effects ≡ s.maint.effects ++ effect ∷ [])
      × (s'.send_buf ≡ s.send_buf)
      × (s'.rreq_tbl ≡ s.rreq_tbl)
      × Sent dp srt room.opts effect

  module _ (block : RreqGarbage) (has_block : room.rreq ≡ some block)
      (has_entry : room.waiting ≡ true) (lim : IsLimit env.conf) where
    put_aside-Waits :
        (s : Node) (dp : DsrPkt)
        → IsTbl s.send_buf
        → s.send_buf.len < s.send_buf.max_len
        → IsRreqTbl s.rreq_tbl
        → 1 ≤ s.rreq_tbl.max_len
        → Waits env.now s.send_buf dp (put_aside env room s dp)
    unfolding put_aside
    put_aside-Waits s dp v m v' m' =
        let (items, _, res, _) = send_buf_enqueue_packet_room env.conf env.now s.send_buf dp v m in
        let r = send_buf_enqueue_packet true env.conf env.now s.send_buf dp in
        let s' : Node = emit (record s { send_buf = r.0 }) r.1 in
        let there : put_aside env room s dp ≡ discover env room s' dp.dst =
          ap
            (λ w.
              after_enqueue env room s dp
                (send_buf_enqueue_packet w env.conf env.now s.send_buf dp))
            has_entry
          ∙ enqueued-discover s dp r.0 r.1 r.2 (ap is_negative res) in
        let begun =
          discover-rreq_tbl s' dp.dst
          ∙ ap (λ b. (dsr_rreq_route_discovery b env.conf env.now s.rreq_tbl dp.dst).0) has_block in
        subst (Waits env.now s.send_buf dp) (sym there) (
          ap (λ (t : Tbl SendBufEntry). t.items) (discover-send_buf s' dp.dst) ∙ items,
          subst (λ t. UnderWay t dp.dst) (sym begun)
              (discovery-UnderWay block env.conf env.now s.rreq_tbl dp.dst lim v' m'),
        )

    with_srt-Outcome :
        (s : Node) (dp : DsrPkt) (srt : Option Srt)
        → IsTbl s.send_buf
        → s.send_buf.len < s.send_buf.max_len
        → IsRreqTbl s.rreq_tbl
        → 1 ≤ s.rreq_tbl.max_len
        → Outcome s dp srt (with_srt env room s dp srt)
    unfolding with_srt routed
    with_srt-Outcome s dp none v m v' m' = put_aside-Waits s (record dp { srt = none }) v m v' m'
    with_srt-Outcome s dp (some srt) v m v' m' =
        elim (Option-cases (dsr_srt_add room.opts (record dp { srt = some srt }))) [
          | inl n ↦ (
            dsr_pkt_free (record dp { srt = some srt }),
            rw (n, with_srt) refl,
            rw (n, with_srt) refl,
            rw (n, with_srt) refl,
            subst (Sent dp srt room.opts) (rw (n, routed) refl) (routed-Sent room.opts dp srt),
          )
          | inr (dp', y) ↦ (
            xmit dp',
            rw (y, with_srt) refl,
            rw (y, with_srt) refl,
            rw (y, with_srt) refl,
            subst (Sent dp srt room.opts) (rw (y, routed) refl) (routed-Sent room.opts dp srt),
          )
        ]

    -- A packet of this node's own, with memory for the entries of the send buffer and of the table of
    -- route requests, both well-formed, the first not full and the second with a limit other than 0, where the limit of the
    -- configuration for identifiers is a word other than 0: if `lc_srt_find` returns a route, both
    -- tables stay as they are, and one thing is done: with memory for the options, and where the array
    -- of the route has the length that `laddrs` says, the packet is transmitted to the first hop with
    -- an option that holds the addresses of the route and their number as the segments left, in 6
    -- bits; without memory for the options it is freed. If none is returned, the packet waits behind
    -- those that waited before, and a discovery for its destination is under way.
    pub dsr_start_xmit-Outcome :
        (s : Node) (dp : DsrPkt)
        → IsTbl s.send_buf
        → s.send_buf.len < s.send_buf.max_len
        → IsRreqTbl s.rreq_tbl
        → 1 ≤ s.rreq_tbl.max_len
        → Outcome s dp
            (lc_srt_find room.srt s.maint.lc dp.src dp.dst).1
            (dsr_start_xmit env room s dp)
    unfolding dsr_start_xmit
    dsr_start_xmit-Outcome s dp v m v' m' =
        let (lc, srt) = lc_srt_find room.srt s.maint.lc dp.src dp.dst in
        with_srt-Outcome (set_lc s lc) dp srt v m v' m'
