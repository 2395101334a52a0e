-- ===== src/Recv/Action.antt =====
-- dsr-pkt.h: what is to be done with a packet. An `int` of DSR_PKT_ bits is the set of them.
use dsr_uu.Base.{ℕ, Bool, false, ◌||◌, ◌==◌}
use dsr_uu.Pkt.{Opt, DsrPkt}
use dsr_uu.Node.{Node}

pub data PktAction : Type 0 where
  pkt_none pkt_srt_remove pkt_send_icmp pkt_send_rrep pkt_send_buffered : PktAction
  pkt_send_ack pkt_forward pkt_forward_rreq pkt_drop pkt_error pkt_deliver : PktAction

-- How far DSR_PKT_NONE is shifted.
unfoldable pub shift : PktAction → ℕ
shift pkt_none = 0
shift pkt_srt_remove = 2
shift pkt_send_icmp = 3
shift pkt_send_rrep = 4
shift pkt_send_buffered = 5
shift pkt_send_ack = 6
shift pkt_forward = 7
shift pkt_forward_rreq = 8
shift pkt_drop = 9
shift pkt_error = 10
shift pkt_deliver = 11

abbrev pub Actions : Type 0
Actions = PktAction → Bool

abbrev pub no_action : Actions
no_action a = false

abbrev pub bit : PktAction → Actions
unfolding shift
bit a b = shift a == shift b

-- `|`
infix 40 ◌or◌
abbrev pub ◌or◌ : Actions → Actions → Actions
(xs or ys) a = xs a || ys a

-- What a handler leaves: the node, the packet, the option in its place, and the bits that it returns.
pub record Handled : Type 0 where
  pub node : Node
  pub dp : DsrPkt
  pub opt : Opt
  pub action : Actions
