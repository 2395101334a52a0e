-- ===== src/SendBuf/Queue.antt =====
-- send-buf.c: the buffer as a queue, and its timer.
use dsr_uu.Base.{
  ℕ, suc, ◌+◌, ◌≤◌, ◌<◌, ◌^◌, ◌≡◌, ◌∙◌, refl, Bool, true, List, [], ◌∷◌, ◌++◌, map, inl, inr, arith,
  leb, if◌then◌else◌, All, length, length-append, accept, reject, List-cases,
}
use dsr_uu.Base.Int.{ℤ, pos}
use dsr_uu.Timer.{Timeval, usecs, timeval_diff, timeval_add_usecs}
use dsr_uu.Conf.{Confvals, confval_to_usecs, send_buffer_timeout}
use dsr_uu.Tbl.{
  Tbl, tbl_empty, tbl_add_tail, tbl_find, find_first, tbl_detach_first, tbl_for_each_del,
}
use dsr_uu.Tbl.Bounds.{IsTbl, tbl_for_each_del_lem}
use dsr_uu.Tbl.Order.{IsSorted, reject-IsSorted}
use dsr_uu.Pkt.{DsrPkt}
use dsr_uu.Send.{Effect, dsr_pkt_free, set_timer}
use dsr_uu.SendBuf.{
  SendBufEntry, put_in, expiry, crit_garbage, send_buf_enqueue_packet, send_buf_timeout,
}

abbrev pub arrival : SendBufEntry → ℕ
arrival e = usecs e.qtime

-- The packets in the order of their arrival, and as many as the table says.
pub record IsSendBuf (t : Tbl SendBufEntry) : Type 0 where
  pub table : IsTbl t
  pub in_order : IsSorted arrival t.items

-- What an insertion leaves: the first packet goes where the buffer is full.
abbrev pub kept : Tbl SendBufEntry → List SendBufEntry
kept t = elim t.items [ [] ↦ [] | e ∷ rest ↦ if leb t.max_len t.len then rest else e ∷ rest ]

abbrev pub lost : Tbl SendBufEntry → List Effect
lost t = elim t.items [
  | [] ↦ []
  | e ∷ rest ↦ if leb t.max_len t.len then dsr_pkt_free e.dp ∷ [] else []
]

abbrev pub started : Confvals → Timeval → Tbl SendBufEntry → List Effect
started conf now t = elim t.items [ [] ↦ set_timer (expiry conf now) ∷ [] | _ ∷ _ ↦ [] ]

abbrev pub Enqueued :
    Confvals → Timeval → Tbl SendBufEntry → DsrPkt → Tbl SendBufEntry × List Effect × ℤ → Type 0
Enqueued conf now t dp (t', effects, res) =
    (t'.items ≡ kept t ++ record { dp = dp; qtime = now } ∷ [])
    × (effects ≡ lost t ++ started conf now t)
    × (res ≡ pos (length t'.items))
    × IsTbl t'
    × (t'.max_len ≡ t.max_len)

-- Where memory suffices and a well-formed buffer is not full, a packet is put behind the others, and
-- none goes. The timer is started exactly when the buffer was empty, and the result is the number of
-- packets that wait then.
pub send_buf_enqueue_packet_room :
    (conf : Confvals) (now : Timeval) (t : Tbl SendBufEntry) (dp : DsrPkt)
    → IsTbl t
    → t.len < t.max_len
    → ((send_buf_enqueue_packet true conf now t dp).0.items
        ≡ t.items ++ record { dp = dp; qtime = now } ∷ [])
      × ((send_buf_enqueue_packet true conf now t dp).1 ≡ started conf now t)
      × ((send_buf_enqueue_packet true conf now t dp).2 ≡ pos (suc (length t.items)))
      × IsTbl (send_buf_enqueue_packet true conf now t dp).0
unfolding send_buf_enqueue_packet put_in tbl_add_tail tbl_empty
send_buf_enqueue_packet_room conf now t dp v h = elim (List-cases t.items) [
  | inl e ↦ ground arith
  | inr (x, rest, e) ↦ ground (arith, length-append rest (record { dp = dp; qtime = now } ∷ []))
]

-- What a full buffer does where the second insertion does not wait for the lock that is held.
pub send_buf_enqueue_packet_lem :
    (conf : Confvals) (now : Timeval) (t : Tbl SendBufEntry) (dp : DsrPkt)
    → IsTbl t
    → 0 < t.max_len
    → Enqueued conf now t dp (send_buf_enqueue_packet true conf now t dp)
unfolding send_buf_enqueue_packet put_in tbl_add_tail tbl_detach_first tbl_empty
send_buf_enqueue_packet_lem conf now t dp v h = elim (List-cases t.items) [
  | inl e ↦ ground arith
  | inr (x, rest, e) ↦ ground (arith, length-append rest (record { dp = dp; qtime = now } ∷ []))
]

module _ (conf : Confvals) (now : Timeval) where
  abbrev pub limit : ℕ
  limit = confval_to_usecs conf send_buffer_timeout

  abbrev pub is_old : SendBufEntry → Bool
  is_old e = leb (arrival e + limit) (usecs now)

  abbrev pub freed : List SendBufEntry → List Effect
  freed xs = map (λ (e : SendBufEntry). dsr_pkt_free e.dp) (accept is_old xs)

  -- The timer is for the packet that has waited longest, and fires later than now.
  abbrev pub NextTimer : List Effect → List SendBufEntry → List Effect → Type 0
  NextTimer before [] effects = effects ≡ before
  NextTimer before (e ∷ rest) effects =
      (at : Timeval) × (effects ≡ before ++ set_timer at ∷ [])
      × (usecs at ≡ arrival e + limit)
      × (usecs now < usecs at)
      × All (λ x. usecs at ≤ arrival x + limit) rest

  abbrev pub TimedOut : Tbl SendBufEntry → Tbl SendBufEntry × List Effect → Type 0
  TimedOut t (t', effects) =
      (t'.items ≡ reject is_old t.items)
      × All (λ e. usecs now < arrival e + limit) t'.items
      × IsSendBuf t'
      × NextTimer (freed t.items) t'.items effects

  module _ (word : limit < 2 ^ 31) where
    crit_garbage_lem : (e : SendBufEntry) → crit_garbage conf now e ≡ is_old e
    unfolding crit_garbage timeval_diff
    crit_garbage_lem e = ground arith

    expiry_lem : (tv : Timeval) → usecs (expiry conf tv) ≡ usecs tv + limit
    unfolding expiry timeval_add_usecs
    expiry_lem tv = omega arith

    garbage-is_old :
        (xs : List SendBufEntry)
        → (accept (crit_garbage conf now) xs ≡ accept is_old xs)
          × (reject (crit_garbage conf now) xs ≡ reject is_old xs)
    garbage-is_old [] = (refl, refl)
    garbage-is_old (x ∷ xs) = ground (arith, crit_garbage_lem x, garbage-is_old xs)

    reject_young :
        (xs : List SendBufEntry) → All (λ e. usecs now < arrival e + limit) (reject is_old xs)
    reject_young [] = tt
    reject_young (x ∷ xs) = ground (arith, reject_young xs)

    later :
        (k l : ℕ) (xs : List SendBufEntry)
        → All (λ x. k ≤ arrival x) xs
        → l ≡ k + limit
        → All (λ x. l ≤ arrival x + limit) xs
    later k l [] h e = tt
    later k l (x ∷ xs) h e = (omega (arith, h.0), later k l xs h.1 e)

    next_timer :
        (before : List Effect) (xs : List SendBufEntry)
        → All (λ e. usecs now < arrival e + limit) xs
        → IsSorted arrival xs
        → NextTimer before xs
            (elim xs [ [] ↦ before | e ∷ _ ↦ before ++ set_timer (expiry conf e.qtime) ∷ [] ])
    next_timer before [] a s = refl
    next_timer before (e ∷ rest) a s = (
      expiry conf e.qtime,
      refl,
      expiry_lem e.qtime,
      omega (arith, expiry_lem e.qtime, a.0),
      later (arrival e) (usecs (expiry conf e.qtime)) rest s.0 (expiry_lem e.qtime),
    )

    timeout_eq :
        (t t' : Tbl SendBufEntry)
        → (tbl_for_each_del t (crit_garbage conf now)).0 ≡ t'
        → send_buf_timeout conf now t ≡ (
          t',
          elim t'.items [
            | [] ↦ freed t.items
            | e ∷ _ ↦ freed t.items ++ set_timer (expiry conf e.qtime) ∷ []
          ],
        )
    unfolding send_buf_timeout tbl_find find_first
    timeout_eq t t' e = elim (List-cases t'.items) [
      | inl none_left ↦ ground (arith, (garbage-is_old t.items).0)
      | inr (x, rest, some_left) ↦ ground (arith, (garbage-is_old t.items).0)
    ]

    -- Where the buffer is well-formed and the limit of waiting is less than 2^31 microseconds, the
    -- timeout frees exactly the packets that have waited so long, keeps the others in order, and, if
    -- any are left, sets the timer to the time at which the first of them expires, which is to come.
    pub send_buf_timeout_lem :
        (t : Tbl SendBufEntry) → IsSendBuf t → TimedOut t (send_buf_timeout conf now t)
    send_buf_timeout_lem t v =
        let t' = (tbl_for_each_del t (crit_garbage conf now)).0 in
        let (left, _, ok) = tbl_for_each_del_lem t (crit_garbage conf now) v.table in
        let items : t'.items ≡ reject is_old t.items = left ∙ (garbage-is_old t.items).1 in
        let young : All (λ e. usecs now < arrival e + limit) t'.items =
          rw items (reject_young t.items) in
        let sorted : IsSorted arrival t'.items =
          rw items (reject-IsSorted arrival is_old t.items v.in_order) in
        rw (timeout_eq t t' refl) (
          items,
          young,
          record { table = ok; in_order = sorted },
          next_timer (freed t.items) t'.items young sorted,
        )
