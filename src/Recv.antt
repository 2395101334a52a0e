-- ===== src/Recv.antt =====
-- dsr-opt.c and dsr-io.c: what is done with a packet that arrives: its options are handled in order,
-- and the bits that the handlers return say what becomes of it. Of an option that stands in the space
-- of a packet the model has the fields; where a PAD1 stands between options the source reads them one
-- byte off (see Opt), and the model has none. `rooms` gives what `kmalloc` gives to each handler,
-- counted by the options.
pub mod Action
pub mod Replies
pub mod Errors
pub mod Requests
pub mod Routes
pub mod Fate
pub mod Same
pub mod Flood
pub mod Once
pub mod Sound
pub mod Total
pub mod Tests
pub mod Onward
pub mod RoundTrip
use dsr_uu.Base.{
  ℕ, suc, Bool, true, false, not, ◌&&◌, List, [], ◌∷◌, ◌++◌, Option, none, some, ltb, ◌==◌,
  if◌then◌else◌, length,
}
use dsr_uu.Pkt
use dsr_uu.Pkt.{Opt, RrepOpt, DsrPkt}
use dsr_uu.Send.{xmit, dsr_pkt_free, deliver}
use dsr_uu.Node.{Node, Env, Room, emit, send_waiting}
use dsr_uu.Recv.Action.{
  PktAction, pkt_none, pkt_srt_remove, pkt_send_icmp, pkt_send_rrep, pkt_send_buffered,
  pkt_send_ack, pkt_forward, pkt_forward_rreq, pkt_drop, pkt_error, pkt_deliver, Actions, no_action,
  bit, ◌or◌, Handled,
}
use dsr_uu.Recv.Replies.{rrep_srt_dst, dsr_rrep_opt_recv}
use dsr_uu.Recv.Errors.{dsr_rerr_opt_recv, dsr_ack_opt_recv, dsr_ack_req_opt_recv}
use dsr_uu.Recv.Requests.{dsr_rreq_opt_recv}
use dsr_uu.Recv.Routes.{dsr_srt_opt_recv}

-- MAX_RERR_OPTS and MAX_ACK_OPTS
abbrev pub max_opts : ℕ
max_opts = 10

-- An option that is passed over.
abbrev pub passed : Node → DsrPkt → Opt → Handled
passed s dp o = record { node = s; dp = dp; opt = o; action = no_action }

-- The `switch` of `dsr_opt_recv`; `last` tells whether the option is the last of the packet.
unfoldable pub recv_opt : Env → Room → Bool → Node → DsrPkt → Opt → Option Handled
recv_opt env room last s dp (Pkt.Opt.rreq o) =
    if dp.promisc_recv
    then some (passed s dp (Pkt.Opt.rreq o))
    else dsr_rreq_opt_recv env room last s dp o
recv_opt env room last s dp (Pkt.Opt.rrep o) =
    if dp.promisc_recv
    then some (passed s dp (Pkt.Opt.rrep o))
    else dsr_rrep_opt_recv env room s dp o
recv_opt env room last s dp (Pkt.Opt.rerr o) =
    if not dp.promisc_recv && ltb (length dp.rerr_opt) max_opts
    then dsr_rerr_opt_recv env room s dp o
    else some (passed s dp (Pkt.Opt.rerr o))
recv_opt env room last s dp (Pkt.Opt.ack o) =
    if not dp.promisc_recv && ltb (length dp.ack_opt) max_opts
    then dsr_ack_opt_recv env room s (record dp { ack_opt = dp.ack_opt ++ o ∷ [] }) o
    else some (passed s dp (Pkt.Opt.ack o))
recv_opt env room last s dp (Pkt.Opt.srt o) = some (dsr_srt_opt_recv env room s dp o)
recv_opt env room last s dp (Pkt.Opt.ack_req o) = dsr_ack_req_opt_recv env room s dp o
recv_opt env room last s dp (Pkt.Opt.other t l) = some (passed s dp (Pkt.Opt.other t l))

abbrev pub is_last : List Opt → Bool
is_last [] = true
is_last (_ ∷ _) = false

-- What the loop leaves: the node, the packet with its options, and the bits.
pub record Received : Type 0 where
  pub node : Node
  pub dp : DsrPkt
  pub action : Actions

-- The loop over the options, from option `i` on; `done` are those in front, as they are now.
unfoldable pub recv_opts :
    Env → (ℕ → Room) → ℕ → Node → DsrPkt → Actions → List Opt → List Opt → Option Received
unfolding recv_opt
recv_opts env rooms i s dp action done [] =
    some (record { node = s; dp = record dp { opts = done }; action = action })
recv_opts env rooms i s dp action done (o ∷ rest) =
    elim (recv_opt env (rooms i) (is_last rest) s dp o) [
      | none ↦ none
      | some h ↦
          recv_opts env rooms (suc i) h.node h.dp (action or h.action) (done ++ h.opt ∷ []) rest
    ]

-- A packet with a payload for this node is to be delivered.
unfoldable pub for_me : Env → DsrPkt → Actions
for_me env dp =
    if dp.dst == env.my_addr && not (length dp.payload == 0) then bit pkt_deliver else no_action

unfoldable pub dsr_opt_recv : Env → (ℕ → Room) → Node → DsrPkt → Option Received
unfolding recv_opts for_me
dsr_opt_recv env rooms s dp = recv_opts env rooms 0 s dp (for_me env dp) [] dp.opts

-- The bits in the order of the mask. No action has the second one.
abbrev pub masks : List PktAction
masks =
    pkt_none ∷ pkt_srt_remove ∷ pkt_send_icmp ∷ pkt_send_rrep ∷ pkt_send_buffered ∷ pkt_send_ack
    ∷ pkt_forward ∷ pkt_forward_rreq ∷ pkt_drop ∷ pkt_error ∷ pkt_deliver ∷ []

-- The packets that wait for the nodes that the route replies of a packet lead to.
unfoldable pub send_buffered : (ℕ → Room) → ℕ → Node → List RrepOpt → Node
unfolding rrep_srt_dst
send_buffered rooms i s [] = s
send_buffered rooms i s (o ∷ rest) =
    send_buffered rooms (suc i) (send_waiting (rooms i) s (rrep_srt_dst o)) rest

-- The loop over the masks, where a bit that is set may end it.
unfoldable pub act : (ℕ → Room) → Node → DsrPkt → Actions → List PktAction → Node
unfolding send_buffered
act rooms s dp action [] = emit s (dsr_pkt_free dp ∷ [])
act rooms s dp action (pkt_drop ∷ rest) = elim (action pkt_drop) [
  | true ↦ emit s (dsr_pkt_free dp ∷ [])
  | false ↦ act rooms s dp action rest
]
act rooms s dp action (pkt_error ∷ rest) = elim (action pkt_error) [
  | true ↦ emit s (dsr_pkt_free dp ∷ [])
  | false ↦ act rooms s dp action rest
]
act rooms s dp action (pkt_forward ∷ rest) = elim (action pkt_forward) [
  | true ↦ if ltb dp.ttl 1 then emit s (dsr_pkt_free dp ∷ []) else emit s (xmit dp ∷ [])
  | false ↦ act rooms s dp action rest
]
act rooms s dp action (pkt_forward_rreq ∷ rest) = elim (action pkt_forward_rreq) [
  | true ↦ emit s (xmit dp ∷ [])
  | false ↦ act rooms s dp action rest
]
act rooms s dp action (pkt_send_buffered ∷ rest) = elim (action pkt_send_buffered) [
  | true ↦ act rooms (send_buffered rooms 0 s dp.rrep_opt) dp action rest
  | false ↦ act rooms s dp action rest
]
act rooms s dp action (pkt_deliver ∷ rest) = elim (action pkt_deliver) [
  | true ↦ emit s (deliver dp ∷ [])
  | false ↦ act rooms s dp action rest
]
act rooms s dp action (pkt_none ∷ rest) = act rooms s dp action rest
act rooms s dp action (pkt_srt_remove ∷ rest) = act rooms s dp action rest
act rooms s dp action (pkt_send_icmp ∷ rest) = act rooms s dp action rest
act rooms s dp action (pkt_send_rrep ∷ rest) = act rooms s dp action rest
act rooms s dp action (pkt_send_ack ∷ rest) = act rooms s dp action rest

-- `later` gives what `kmalloc` gives once the options have been handled.
unfoldable pub dsr_recv : Env → (ℕ → Room) → (ℕ → Room) → Node → DsrPkt → Option Node
unfolding dsr_opt_recv act
dsr_recv env rooms later s dp =
    if dp.promisc_recv && env.my_addr == dp.src
    then some (emit s (dsr_pkt_free dp ∷ []))
    else elim (dsr_opt_recv env rooms s dp) [
      | none ↦ none
      | some r ↦
          if r.dp.promisc_recv
          then some (emit r.node (dsr_pkt_free r.dp ∷ []))
          else some (act later r.node r.dp r.action masks)
    ]
