-- ===== src/SendBuf.antt =====
-- send-buf.c: the packets that wait for a route. `okfn` is left out: both callers hand over the
-- function that transmits. In ns-2 no ICMP message is sent; this is the version of Linux.
pub mod Queue
pub mod Routed
pub mod Verdict
pub mod Steps
pub mod Invariant
pub mod Tests
use dsr_uu.Base.{
  ℕ, ◌+◌, Bool, true, false, List, [], ◌∷◌, ◌++◌, Option, none, some, map, ◌==◌, if◌then◌else◌,
  accept, length,
}
use dsr_uu.Base.Int.{ℤ, pos, negsuc, leb_int, to_int}
use dsr_uu.Timer.{Timeval, timeval_diff, timeval_add_usecs}
use dsr_uu.Conf.{Confvals, confval_to_usecs, send_buffer_timeout}
use dsr_uu.Tbl.{
  Tbl, init_tbl, tbl_empty, tbl_add_tail, tbl_find, tbl_detach_first, tbl_for_each_del,
}
use dsr_uu.Tbl.Drain.{drain}
use dsr_uu.Srt.{Garbage}
use dsr_uu.LinkCache.{LcGraph}
use dsr_uu.LinkCache.Search.{lc_srt_find}
use dsr_uu.Pkt.{DsrPkt}
use dsr_uu.Send.{Effect, xmit, dsr_pkt_free, icmp_send, set_timer, dsr_srt_add}

abbrev pub send_buf_max_len : ℕ
send_buf_max_len = 100

pub record SendBufEntry : Type 0 where
  pub dp : DsrPkt
  pub qtime : Timeval

unfoldable pub crit_addr : ℕ → SendBufEntry → Bool
crit_addr addr e = e.dp.dst == addr

unfoldable pub crit_garbage : Confvals → Timeval → SendBufEntry → Bool
crit_garbage conf now e =
    leb_int (to_int (confval_to_usecs conf send_buffer_timeout)) (timeval_diff now e.qtime)

unfoldable pub send_buf_set_max_len : Tbl SendBufEntry → ℕ → Tbl SendBufEntry
send_buf_set_max_len t max_len = record t { max_len = max_len }

-- When a packet that came in at this time has waited long enough.
unfoldable pub expiry : Confvals → Timeval → Timeval
expiry conf qtime = timeval_add_usecs qtime (confval_to_usecs conf send_buffer_timeout)

unfoldable pub send_buf_timeout :
    Confvals → Timeval → Tbl SendBufEntry → Tbl SendBufEntry × List Effect
unfolding crit_garbage expiry
send_buf_timeout conf now t =
    let freed =
      map (λ (e : SendBufEntry). dsr_pkt_free e.dp) (accept (crit_garbage conf now) t.items) in
    let t' = (tbl_for_each_del t (crit_garbage conf now)).0 in
    elim (tbl_find t' (λ _. true)) [
      | none ↦ (t', freed)
      | some e ↦ (t', freed ++ set_timer (expiry conf e.qtime) ∷ [])
    ]

-- A full buffer loses its first packet. The second insertion is tried on what that leaves.
unfoldable pub put_in : Tbl SendBufEntry → SendBufEntry → Option (Tbl SendBufEntry) × List Effect
put_in t e = elim (tbl_add_tail t e) [
  | some t' ↦ (some t', [])
  | none ↦ elim (tbl_detach_first t) [
    | none ↦ (tbl_add_tail t e, [])
    | some (f, t') ↦ (tbl_add_tail t' e, dsr_pkt_free f.dp ∷ [])
  ]
]

-- What is left of the buffer where both insertions fail.
unfoldable pub without_first : Tbl SendBufEntry → Tbl SendBufEntry
without_first t = elim (tbl_detach_first t) [ none ↦ t | some (_, t') ↦ t' ]

-- -12 is -ENOMEM and -28 is -ENOSPC; the caller frees the packet then.
unfoldable pub send_buf_enqueue_packet :
    Bool → Confvals → Timeval → Tbl SendBufEntry → DsrPkt → Tbl SendBufEntry × List Effect × ℤ
unfolding put_in expiry without_first
send_buf_enqueue_packet room conf now t dp = elim room [
  | false ↦ (t, [], negsuc 11)
  | true ↦
      let (added, effects) = put_in t (record { dp = dp; qtime = now }) in
      elim added [
        | none ↦ (without_first t, effects, negsuc 27)
        | some t' ↦ (
          t',
          effects ++ (if tbl_empty t then set_timer (expiry conf now) ∷ [] else []),
          pos t'.len,
        )
      ]
]

pub data SendBufVerdict : Type 0 where
  drop send : SendBufVerdict

-- The variables of the loops of `send_buf_set_verdict`.
pub record Sending : Type 0 where
  pub lc : LcGraph
  pub effects : List Effect
  pub pkts : ℕ

-- Only the first packet is answered by an ICMP message.
unfoldable pub drop_one : Sending → SendBufEntry → Sending
drop_one s e = record s {
  effects =
      s.effects
      ++ (if s.pkts == 0 then icmp_send e.dp ∷ dsr_pkt_free e.dp ∷ [] else dsr_pkt_free e.dp ∷ []);
  pkts = s.pkts + 1;
}

-- A packet with the route that was found for it.
unfoldable pub routed : Bool → DsrPkt → Effect
routed room dp = elim dp.srt [
  | none ↦ dsr_pkt_free dp
  | some _ ↦ elim (dsr_srt_add room dp) [ none ↦ dsr_pkt_free dp | some dp' ↦ xmit dp' ]
]

-- `block` and `room` are what `kmalloc` gives in each round.
unfoldable pub send_one : (ℕ → Option Garbage) → (ℕ → Bool) → Sending → SendBufEntry → Sending
unfolding routed
send_one block room s e =
    let (lc, srt) = lc_srt_find (block s.pkts) s.lc e.dp.src e.dp.dst in
    record {
      lc = lc;
      effects = s.effects ++ routed (room s.pkts) (record (e.dp) { srt = srt }) ∷ [];
      pkts = s.pkts + 1;
    }

unfoldable pub verdict_body :
    (ℕ → Option Garbage) → (ℕ → Bool) → SendBufVerdict → Sending → SendBufEntry → Sending
unfolding drop_one send_one
verdict_body block room drop = drop_one
verdict_body block room send = send_one block room

-- Each loop is given as many rounds as the buffer has packets. The count is the result.
unfoldable pub send_buf_set_verdict :
    (ℕ → Option Garbage)
    → (ℕ → Bool)
    → LcGraph
    → Tbl SendBufEntry
    → SendBufVerdict
    → ℕ
    → Tbl SendBufEntry × Sending
unfolding crit_addr verdict_body drain
send_buf_set_verdict block room lc t verdict dst =
    drain (crit_addr dst) (verdict_body block room verdict) (length t.items) t
      (record { lc = lc; effects = []; pkts = 0 })

unfoldable pub flush_one : List Effect × ℕ → SendBufEntry → List Effect × ℕ
flush_one (effects, pkts) e = (effects ++ dsr_pkt_free e.dp ∷ [], pkts + 1)

unfoldable pub send_buf_flush : Tbl SendBufEntry → Tbl SendBufEntry × (List Effect × ℕ)
unfolding flush_one drain
send_buf_flush t = drain (λ _. true) flush_one (length t.items) t ([], 0)

unfoldable pub send_buf_init : Tbl SendBufEntry
send_buf_init = init_tbl send_buf_max_len
