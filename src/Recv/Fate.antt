-- ===== src/Recv/Fate.antt =====
-- dsr-io.c: what becomes of a packet that arrives.
use dsr_uu.Base.{ℕ, ◌≡◌, Bool, ◌&&◌, ◌||◌, [], ◌∷◌, ltb, ◌==◌, if◌then◌else◌, arith}
use dsr_uu.Pkt.{DsrPkt}
use dsr_uu.Send.{Effect, xmit, dsr_pkt_free, deliver}
use dsr_uu.Node.{Node, Env, Room, emit}
use dsr_uu.Recv.Action.{
  pkt_send_buffered, pkt_forward, pkt_forward_rreq, pkt_drop, pkt_error, pkt_deliver, Actions,
}
use dsr_uu.Recv.Same.{Same}
use dsr_uu.Recv.{Received, masks, send_buffered, act}

-- What the bits say, in the order in which they count.
abbrev pub fate : DsrPkt → Actions → Effect
fate dp action =
    if action pkt_forward && ltb dp.ttl 1
    then dsr_pkt_free dp
    else if action pkt_forward || action pkt_forward_rreq
    then xmit dp
    else if action pkt_drop || action pkt_error
    then dsr_pkt_free dp
    else if action pkt_deliver
    then deliver dp
    else dsr_pkt_free dp

-- The packets that wait for a route are sent first.
abbrev pub after_buffered : (ℕ → Room) → Node → DsrPkt → Actions → Node
after_buffered later s dp action =
    if action pkt_send_buffered then send_buffered later 0 s dp.rrep_opt else s

pub act-fate :
    (later : ℕ → Room) (s : Node) (dp : DsrPkt) (action : Actions)
    → act later s dp action masks ≡ emit (after_buffered later s dp action) (fate dp action ∷ [])
unfolding act
act-fate later s dp action = ground arith

-- What is done with a packet, overheard or not.
abbrev pub disposal : DsrPkt → Actions → Effect
disposal dp action = if dp.promisc_recv then dsr_pkt_free dp else fate dp action

-- The packets that wait are sent for a packet that was not overheard.
abbrev pub settled : (ℕ → Room) → Received → Node
settled later r = if r.dp.promisc_recv then r.node else after_buffered later r.node r.dp r.action

-- A packet of this node's own that it overhears.
abbrev pub is_echo : Env → DsrPkt → Bool
is_echo env dp = dp.promisc_recv && env.my_addr == dp.src
