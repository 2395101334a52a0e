-- ===== src/SendBuf/Steps.antt =====
-- send-buf.c: what each operation makes of a buffer in order, and how many packets leave it.
use dsr_uu.Base.{
  ℕ, suc, ◌+◌, ◌≤◌, ◌≡◌, refl, ap, subst, ◌∙◌, inl, inr, Bool, true, List, [], ◌∷◌, ◌++◌, map,
  Option, arith, All, length, length-append, All-append, All-mono, accept, reject,
  length-accept-reject, Bool-cases, ◌==◌, leb, Option-cases, List-cases,
}
use dsr_uu.Timer.{Timeval, usecs}
use dsr_uu.Conf.{Confvals}
use dsr_uu.Tbl.{Tbl, for_each, tbl_find, tbl_for_each_del}
use dsr_uu.Tbl.Bounds.{IsTbl, tbl_for_each_del_lem}
use dsr_uu.Tbl.Order.{IsSorted, reject-IsSorted}
use dsr_uu.Tbl.Drain.{drain-Drained}
use dsr_uu.Srt.{Garbage}
use dsr_uu.LinkCache.{LcGraph}
use dsr_uu.LinkCache.Search.{lc_srt_find}
use dsr_uu.Pkt.{DsrPkt}
use dsr_uu.Send.{Effect, xmit, dsr_pkt_free, icmp_send, set_timer, deliver}
use dsr_uu.SendBuf.{
  SendBufEntry, SendBufVerdict, Sending, send_one, drop_one, routed, verdict_body, crit_addr,
  crit_garbage, send_buf_enqueue_packet, send_buf_timeout, send_buf_set_verdict, send_buf_flush,
  flush_one, expiry,
}
use dsr_uu.SendBuf.Verdict.{verdict_drains}
use dsr_uu.SendBuf.Queue.{arrival, IsSendBuf, kept, lost, started, send_buf_enqueue_packet_lem}

-- How many packets leave the buffer: each is freed or transmitted once.
abbrev pub gone : List Effect → ℕ
gone [] = 0
gone (xmit dp ∷ rest) = suc (gone rest)
gone (dsr_pkt_free dp ∷ rest) = suc (gone rest)
gone (icmp_send dp ∷ rest) = gone rest
gone (set_timer at ∷ rest) = gone rest
gone (deliver dp ∷ rest) = gone rest

pub gone-append : (xs ys : List Effect) → gone (xs ++ ys) ≡ gone xs + gone ys
gone-append [] ys = omega arith
gone-append (xmit dp ∷ xs) ys = omega (arith, gone-append xs ys)
gone-append (dsr_pkt_free dp ∷ xs) ys = omega (arith, gone-append xs ys)
gone-append (icmp_send dp ∷ xs) ys = gone-append xs ys
gone-append (set_timer at ∷ xs) ys = gone-append xs ys
gone-append (deliver dp ∷ xs) ys = gone-append xs ys

gone-freed :
    (xs : List SendBufEntry) → gone (map (λ (e : SendBufEntry). dsr_pkt_free e.dp) xs) ≡ length xs
gone-freed [] = refl
gone-freed (x ∷ xs) = ap suc (gone-freed xs)

gone-routed : (room : Bool) (dp : DsrPkt) → gone (routed room dp ∷ []) ≡ 1
unfolding routed
gone-routed room dp = ground arith

gone_verdict_one :
    (block : ℕ → Option Garbage) (room : ℕ → Bool) (verdict : SendBufVerdict) (s : Sending)
    (e : SendBufEntry)
    → gone (verdict_body block room verdict s e).effects ≡ suc (gone s.effects)
unfolding verdict_body drop_one send_one
gone_verdict_one block room SendBufVerdict.drop s e = elim (Bool-cases (s.pkts == 0)) [
  | inl first ↦
      rw first (omega (arith, gone-append s.effects (icmp_send e.dp ∷ dsr_pkt_free e.dp ∷ [])))
  | inr later ↦ rw later (omega (arith, gone-append s.effects (dsr_pkt_free e.dp ∷ [])))
]
gone_verdict_one block room SendBufVerdict.send s e =
    let r = lc_srt_find (block s.pkts) s.lc e.dp.src e.dp.dst in
    let f = routed (room s.pkts) (record (e.dp) { srt = r.1 }) in
    omega (
      arith,
      gone-append s.effects (f ∷ []),
      gone-routed (room s.pkts) (record (e.dp) { srt = r.1 }),
    )

gone_verdict :
    (block : ℕ → Option Garbage) (room : ℕ → Bool) (verdict : SendBufVerdict)
    (xs : List SendBufEntry) (s : Sending)
    → gone (for_each (verdict_body block room verdict) xs s).effects ≡ gone s.effects + length xs
unfolding for_each
gone_verdict block room verdict [] s = omega arith
gone_verdict block room verdict (x ∷ xs) s = omega (
  arith,
  gone_verdict block room verdict xs (verdict_body block room verdict s x),
  gone_verdict_one block room verdict s x,
)

-- All waiting packets came in before `k`, and the limit is that of `send_buf_init`.
pub record UpTo (k : ℕ) (t : Tbl SendBufEntry) : Type 0 where
  pub buffer : IsSendBuf t
  pub before : All (λ e. arrival e ≤ k) t.items
  pub limit : t.max_len ≡ 100

abbrev pub Step : ℕ → ℕ → Tbl SendBufEntry → Tbl SendBufEntry → List Effect → Type 0
Step k n t t' effects = UpTo k t' × (gone effects + length t'.items ≡ n + length t.items)

reject-before :
    (p : SendBufEntry → Bool) (k : ℕ) (xs : List SendBufEntry)
    → All (λ e. arrival e ≤ k) xs
    → All (λ e. arrival e ≤ k) (reject p xs)
reject-before p k [] h = tt
reject-before p k (x ∷ xs) h = ground (arith, reject-before p k xs)

-- An operation that takes out the packets that meet a criterion.
rejected :
    (p : SendBufEntry → Bool) (k : ℕ) (t t' : Tbl SendBufEntry) (effects : List Effect)
    → UpTo k t
    → t'.items ≡ reject p t.items
    → IsTbl t'
    → t'.max_len ≡ t.max_len
    → gone effects ≡ length (accept p t.items)
    → Step k 0 t t' effects
rejected p k t t' effects u items ok max out = (
  record {
    buffer = record {
      table = ok;
      in_order = rw items (reject-IsSorted arrival p t.items u.buffer.in_order);
    };
    before = rw items (reject-before p k t.items u.before);
    limit = max ∙ u.limit;
  },
  omega (arith, ap length items, length-accept-reject p t.items, out),
)

for_each_del-max :
    (t : Tbl SendBufEntry) (p : SendBufEntry → Bool) → (tbl_for_each_del t p).0.max_len ≡ t.max_len
unfolding tbl_for_each_del
for_each_del-max t p = refl

gone_flush :
    (xs : List SendBufEntry) (s : List Effect × ℕ)
    → gone (for_each flush_one xs s).0 ≡ gone s.0 + length xs
unfolding for_each flush_one
gone_flush [] s = omega arith
gone_flush (x ∷ xs) s =
    omega (arith, gone_flush xs (flush_one s x), gone-append s.0 (dsr_pkt_free x.dp ∷ []))

append-IsSorted :
    (e : SendBufEntry) (xs : List SendBufEntry)
    → IsSorted arrival xs
    → All (λ x. arrival x ≤ arrival e) xs
    → IsSorted arrival (xs ++ e ∷ [])
append-IsSorted e [] s h = (tt, tt)
append-IsSorted e (x ∷ xs) s h = (
  All-append (λ y. arrival x ≤ arrival y) xs (e ∷ []) s.0 (h.0, tt),
  append-IsSorted e xs s.1 h.1,
)

pub timeout-Step :
    (conf : Confvals) (now : Timeval) (k : ℕ) (t : Tbl SendBufEntry)
    → UpTo k t
    → Step k 0 t (send_buf_timeout conf now t).0 (send_buf_timeout conf now t).1
unfolding send_buf_timeout
timeout-Step conf now k t u =
    let crit = crit_garbage conf now in
    let t' = (tbl_for_each_del t crit).0 in
    let freed = map (λ (e : SendBufEntry). dsr_pkt_free e.dp) (accept crit t.items) in
    let (items, n, ok) = tbl_for_each_del_lem t crit u.buffer.table in
    elim (Option-cases (tbl_find t' (λ _. true))) [
      | inl e ↦
          rw (e, send_buf_timeout)
            (rejected crit k t t' freed u items ok (for_each_del-max t crit)
              (gone-freed (accept crit t.items)))
      | inr (f, e) ↦
          rw (e, send_buf_timeout)
            (rejected crit k t t' (freed ++ set_timer (expiry conf f.qtime) ∷ []) u items ok
              (for_each_del-max t crit)
              (omega (
                arith,
                gone-append freed (set_timer (expiry conf f.qtime) ∷ []),
                gone-freed (accept crit t.items),
              )))
    ]

pub verdict-Step :
    (block : ℕ → Option Garbage) (room : ℕ → Bool) (lc : LcGraph) (verdict : SendBufVerdict)
    (dst : ℕ) (k : ℕ) (t : Tbl SendBufEntry)
    → UpTo k t
    → Step k 0 t
        (send_buf_set_verdict block room lc t verdict dst).0
        (send_buf_set_verdict block room lc t verdict dst).1.effects
verdict-Step block room lc verdict dst k t u =
    let ((items, v, max), state) = verdict_drains block room lc t dst verdict u.buffer in
    rejected (crit_addr dst) k t (send_buf_set_verdict block room lc t verdict dst).0
      (send_buf_set_verdict block room lc t verdict dst).1.effects u items v.table max
      (omega (
        arith,
        ap (λ (s : Sending). gone s.effects) state,
        gone_verdict block room verdict (accept (crit_addr dst) t.items)
            (record { lc = lc; effects = []; pkts = 0 }),
      ))

pub flush-Step :
    (k : ℕ) (t : Tbl SendBufEntry)
    → UpTo k t
    → Step k 0 t (send_buf_flush t).0 (send_buf_flush t).1.0
unfolding send_buf_flush
flush-Step k t u =
    let (items, state, ok, max) =
      drain-Drained (λ (_ : SendBufEntry). true) flush_one (length t.items) t ([], 0) u.buffer.table
        (omega arith) in
    rejected (λ _. true) k t (send_buf_flush t).0 (send_buf_flush t).1.0 u items ok max
      (omega (
        arith,
        ap (λ (s : List Effect × ℕ). gone s.0) state,
        gone_flush (accept (λ _. true) t.items) ([], 0),
      ))

kept_lem :
    (k : ℕ) (t : Tbl SendBufEntry)
    → IsSorted arrival t.items
    → All (λ e. arrival e ≤ k) t.items
    → IsSorted arrival (kept t)
      × All (λ e. arrival e ≤ k) (kept t)
      × (gone (lost t) + length (kept t) ≡ length t.items)
kept_lem k t s a = elim (List-cases t.items) [
  | inl e ↦ rw e (tt, tt, refl)
  | inr (x, rest, e) ↦
      let s' = subst (IsSorted arrival) e s in
      let a' = subst (All (λ e. arrival e ≤ k)) e a in
      elim (Bool-cases (leb t.max_len t.len)) [
        | inl full ↦ rw (e, full) (s'.1, a'.1, omega arith)
        | inr free ↦ rw (e, free) (s', a', omega arith)
      ]
]

gone-started :
    (conf : Confvals) (now : Timeval) (t : Tbl SendBufEntry) → gone (started conf now t) ≡ 0
gone-started conf now t = elim (List-cases t.items) [
  | inl e ↦ rw e refl
  | inr (x, rest, e) ↦ rw e refl
]

pub enqueue-Step :
    (conf : Confvals) (now : Timeval) (dp : DsrPkt) (k : ℕ) (t : Tbl SendBufEntry)
    → UpTo k t
    → k ≤ usecs now
    → Step
        (usecs now)
        1
        t
        (send_buf_enqueue_packet true conf now t dp).0
        (send_buf_enqueue_packet true conf now t dp).1
enqueue-Step conf now dp k t u h =
    let e : SendBufEntry = record { dp = dp; qtime = now } in
    let (items, effects, res, ok, max) =
      send_buf_enqueue_packet_lem conf now t dp u.buffer.table (omega (arith, u.limit)) in
    let (sorted, before, sum) = kept_lem k t u.buffer.in_order u.before in
    let early =
      All-mono (λ x. arrival x ≤ k) (λ x. arrival x ≤ usecs now) (kept t) (λ x le. omega arith)
        before in
    (
      record {
        buffer = record {
          table = ok;
          in_order = rw items (append-IsSorted e (kept t) sorted early);
        };
        before =
            rw items
              (All-append (λ x. arrival x ≤ usecs now) (kept t) (e ∷ []) early (omega arith, tt));
        limit = max ∙ u.limit;
      },
      omega (
        arith,
        ap length items,
        ap gone effects,
        gone-append (lost t) (started conf now t),
        gone-started conf now t,
        sum,
        length-append (kept t) (e ∷ []),
      ),
    )
