-- ===== src/SendBuf/Invariant.antt =====
-- send-buf.c: the buffer over any sequence of its operations, and what becomes of its packets.
use dsr_uu.Base.{
  ℕ, suc, ◌+◌, ◌≤◌, ◌≡◌, refl, ap, Bool, true, false, List, [], ◌∷◌, ◌++◌, Option, arith, length,
  All-mono,
}
use dsr_uu.Base.Int.{negsuc}
use dsr_uu.Timer.{Timeval, usecs}
use dsr_uu.Conf.{Confvals}
use dsr_uu.Tbl.{Tbl, init_tbl}
use dsr_uu.Tbl.Bounds.{init_tbl-IsTbl}
use dsr_uu.Srt.{Garbage}
use dsr_uu.LinkCache.{LcGraph}
use dsr_uu.Pkt.{DsrPkt}
use dsr_uu.Send.{Effect}
use dsr_uu.SendBuf.{
  SendBufEntry, SendBufVerdict, send_buf_enqueue_packet, send_buf_timeout, send_buf_set_verdict,
  send_buf_flush, send_buf_init,
}
use dsr_uu.SendBuf.Queue.{arrival, IsSendBuf}
use dsr_uu.SendBuf.Steps.{
  Step, UpTo, gone, gone-append, timeout-Step, verdict-Step, flush-Step, enqueue-Step,
}

-- The operations of the buffer, with the time where the source reads the clock.
pub data SendBufOp : Type 0 where
  enqueue_packet : Bool → Timeval → DsrPkt → SendBufOp
  timeout : Timeval → SendBufOp
  set_verdict : (ℕ → Option Garbage) → (ℕ → Bool) → LcGraph → SendBufVerdict → ℕ → SendBufOp
  flush : SendBufOp

unfoldable pub send_buf_step :
    Confvals → Tbl SendBufEntry → SendBufOp → Tbl SendBufEntry × List Effect
send_buf_step conf t (enqueue_packet room now dp) =
    let (t', effects, res) = send_buf_enqueue_packet room conf now t dp in (t', effects)
send_buf_step conf t (timeout now) = send_buf_timeout conf now t
send_buf_step conf t (set_verdict block room lc verdict dst) =
    let (t', s) = send_buf_set_verdict block room lc t verdict dst in (t', s.effects)
send_buf_step conf t flush = let (t', (effects, pkts)) = send_buf_flush t in (t', effects)

-- The buffer at the end, and what was done outside of it.
unfoldable pub send_buf_run :
    Confvals → Tbl SendBufEntry → List SendBufOp → Tbl SendBufEntry × List Effect
unfolding send_buf_step
send_buf_run conf t [] = (t, [])
send_buf_run conf t (op ∷ ops) =
    let (t', effects) = send_buf_step conf t op in
    let (t'', effects') = send_buf_run conf t' ops in (t'', effects ++ effects')

-- No packet comes in before the one in front of it.
abbrev pub InTime : ℕ → List SendBufOp → Type 0
InTime k [] = Unit
InTime k (enqueue_packet room now dp ∷ ops) = (k ≤ usecs now) × InTime (usecs now) ops
InTime k (timeout now ∷ ops) = InTime k ops
InTime k (set_verdict block room lc verdict dst ∷ ops) = InTime k ops
InTime k (flush ∷ ops) = InTime k ops

-- The packets that the buffer takes: those for whose entries memory suffices.
abbrev pub taken : List SendBufOp → ℕ
taken [] = 0
taken (enqueue_packet true now dp ∷ ops) = suc (taken ops)
taken (enqueue_packet false now dp ∷ ops) = taken ops
taken (timeout now ∷ ops) = taken ops
taken (set_verdict block room lc verdict dst ∷ ops) = taken ops
taken (flush ∷ ops) = taken ops

pass :
    (conf : Confvals) (room : Bool) (now : Timeval) (dp : DsrPkt) (t : Tbl SendBufEntry)
    → room ≡ false
    → send_buf_enqueue_packet room conf now t dp ≡ (t, [], negsuc 11)
unfolding send_buf_enqueue_packet
pass conf room now dp t e = rw e refl

init_items : send_buf_init.items ≡ []
unfolding send_buf_init init_tbl
init_items = refl

init-UpTo : UpTo 0 send_buf_init
unfolding send_buf_init init_tbl
init-UpTo = record {
  buffer = record { table = init_tbl-IsTbl 100 (omega arith); in_order = tt };
  before = tt;
  limit = refl;
}

abbrev Ran : ℕ → Tbl SendBufEntry → Tbl SendBufEntry × List Effect → Type 0
Ran n t (t', effects) =
    IsSendBuf t' × (t'.max_len ≡ 100) × (gone effects + length t'.items ≡ n + length t.items)

UpTo-later : (j k : ℕ) (t : Tbl SendBufEntry) → j ≤ k → UpTo j t → UpTo k t
UpTo-later j k t le u = record {
  buffer = u.buffer;
  before = All-mono (λ e. arrival e ≤ j) (λ e. arrival e ≤ k) t.items (λ e h. omega arith) u.before;
  limit = u.limit;
}

Ran-Step :
    (k n m m' : ℕ) (t t' t'' : Tbl SendBufEntry) (effects effects' : List Effect)
    → m' ≡ n + m
    → Step k n t t' effects
    → Ran m t' (t'', effects')
    → Ran m' t (t'', effects ++ effects')
Ran-Step k n m m' t t' t'' effects effects' e s r =
    (r.0, r.1, omega (arith, e, s.1, r.2, gone-append effects effects'))

send_buf_run_from :
    (conf : Confvals) (k : ℕ) (t : Tbl SendBufEntry) (ops : List SendBufOp)
    → UpTo k t
    → InTime k ops
    → Ran (taken ops) t (send_buf_run conf t ops)
unfolding send_buf_run send_buf_step
send_buf_run_from conf k t [] u i = (u.buffer, u.limit, refl)
send_buf_run_from conf k t (enqueue_packet false now dp ∷ ops) u (le, i) =
    rw (pass conf false now dp t refl)
      (send_buf_run_from conf (usecs now) t ops (UpTo-later k (usecs now) t le u) i)
send_buf_run_from conf k t (enqueue_packet true now dp ∷ ops) u (le, i) =
    let s = enqueue-Step conf now dp k t u le in
    let r = send_buf_enqueue_packet true conf now t dp in
    let rest = send_buf_run conf r.0 ops in
    Ran-Step (usecs now) 1 (taken ops) (suc (taken ops)) t r.0 rest.0 r.1 rest.1 (omega arith) s
      (send_buf_run_from conf (usecs now) r.0 ops s.0 i)
send_buf_run_from conf k t (timeout now ∷ ops) u i =
    let s = timeout-Step conf now k t u in
    let r = send_buf_timeout conf now t in
    let rest = send_buf_run conf r.0 ops in
    Ran-Step k 0 (taken ops) (taken ops) t r.0 rest.0 r.1 rest.1 (omega arith) s
      (send_buf_run_from conf k r.0 ops s.0 i)
send_buf_run_from conf k t (set_verdict block room lc verdict dst ∷ ops) u i =
    let s = verdict-Step block room lc verdict dst k t u in
    let r = send_buf_set_verdict block room lc t verdict dst in
    let rest = send_buf_run conf r.0 ops in
    Ran-Step k 0 (taken ops) (taken ops) t r.0 rest.0 r.1.effects rest.1 (omega arith) s
      (send_buf_run_from conf k r.0 ops s.0 i)
send_buf_run_from conf k t (flush ∷ ops) u i =
    let s = flush-Step k t u in
    let r = send_buf_flush t in
    let rest = send_buf_run conf r.0 ops in
    Ran-Step k 0 (taken ops) (taken ops) t r.0 rest.0 r.1.0 rest.1 (omega arith) s
      (send_buf_run_from conf k r.0 ops s.0 i)

-- After any sequence of packets put in, timeouts, verdicts and flushes on a fresh buffer, also where
-- memory is short, and if the clock at the packets put in does not run back: the buffer is in the
-- order of arrival, its counter is right and at most 100, and each packet for whose entry memory
-- sufficed has been freed or transmitted once, or still waits: the numbers agree.
pub send_buf_run-IsSendBuf :
    (conf : Confvals) (ops : List SendBufOp)
    → InTime 0 ops
    → IsSendBuf (send_buf_run conf send_buf_init ops).0
      × ((send_buf_run conf send_buf_init ops).0.len ≤ 100)
      × (gone (send_buf_run conf send_buf_init ops).1
            + length (send_buf_run conf send_buf_init ops).0.items
          ≡ taken ops)
send_buf_run-IsSendBuf conf ops i =
    let (v, max, sum) = send_buf_run_from conf 0 send_buf_init ops init-UpTo i in
    (v, omega (arith, max, v.table.bounded), omega (arith, sum, ap length init_items))
