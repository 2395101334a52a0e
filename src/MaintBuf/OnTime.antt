-- ===== src/MaintBuf/OnTime.antt =====
-- maint-buf.c: an acknowledgement where no packet that waits is late.
use mathlib.Core.Path.{fun_ext}
use dsr_uu.Base.{
  ◌<◌, u32_mod, ℕ, suc, ◌≡◌, ◌⊎◌, refl, sym, ap, ◌∙◌, subst, Bool, true, false, List, [], ◌∷◌, map,
  Option, none, some, inl, inr, arith, All, All-reject, accept, reject, length,
  length-accept-reject, Option-cases, Bool-cases,
}
use dsr_uu.Base.Int.{leb_int, to_int}
use dsr_uu.Timer.{Timeval, timeval_diff}
use dsr_uu.Conf.{Confvals, max_maint_rexmt}
use dsr_uu.Tbl.{Tbl, find_first, tbl_find, for_each, tbl_for_each_del}
use dsr_uu.Tbl.Bounds.{IsTbl, tbl_for_each_del_lem}
use dsr_uu.Pkt.{DsrPkt}
use dsr_uu.MaintBuf.{Maint, MaintEntry, MaintRoom, crit_ack_req_sent, crit_addr_id_del, rtt_addr_id}
use dsr_uu.MaintBuf.Timeout.{set_timeout_body, maint_buf_set_timeout}
use dsr_uu.MaintBuf.Ops.{with_result, release, note_rtt, maint_buf_del_all_id}
use dsr_uu.MaintBuf.Work.{reset, reset-length, find_do-reset}
use dsr_uu.MaintBuf.Finish.{set_timeout_body-buf}
use dsr_uu.MaintBuf.Acked.{up_to_id, note_rtt-buf, id_by_key}

-- What is known of a packet that waits, but for the time at which it expires.
abbrev pub waiting : MaintEntry → ℕ × ℕ × ℕ × DsrPkt
waiting m = (m.nxt_hop, m.id, m.rexmt, m.dp)

-- The handler has ended, and exactly the packets that the key does not name are left, in order.
abbrev pub Left : (ℕ → ℕ → Bool) → Tbl MaintEntry → Option (Maint × ℕ) → Type 0
Left key t none = ⊥
Left key t (some (s, n)) =
    (s.faulty ≡ false)
    × (map waiting s.maint_buf.items
        ≡ map waiting (reject (λ (m : MaintEntry). key m.nxt_hop m.id) t.items))
    × IsTbl s.maint_buf
    × (n ≡ length (accept (λ (m : MaintEntry). key m.nxt_hop m.id) t.items))

-- An acknowledgement was not asked for, or there is time left for it.
abbrev pub OnTime : Timeval → MaintEntry → Type 0
OnTime now m =
    (m.ack_req_sent ≡ false) ⊎ (leb_int (timeval_diff now m.tx_time) (to_int m.rto) ≡ true)

module _ (rooms : ℕ → MaintRoom) (conf : Confvals) (myaddr : ℕ) (now : Timeval)
    (word : conf max_maint_rexmt < u32_mod) where
  find-OnTime :
      (xs : List MaintEntry) (m : MaintEntry)
      → find_first crit_ack_req_sent xs ≡ some m
      → All (OnTime now) xs
      → leb_int (timeval_diff now m.tx_time) (to_int m.rto) ≡ true
  unfolding find_first crit_ack_req_sent
  find-OnTime [] m e h = cc
  find-OnTime (x ∷ xs) m e (inl n, h) = find-OnTime xs m (ground (arith, e, n)) h
  find-OnTime (x ∷ xs) m e (inr t, h) = elim (Bool-cases x.ack_req_sent) [
    | inl y ↦
        let same : x ≡ m = ground (arith, e, y) in
        subst (λ (k : MaintEntry). leb_int (timeval_diff now k.tx_time) (to_int k.rto) ≡ true) same
          t
    | inr n ↦ find-OnTime xs m (ground (arith, e, n)) h
  ]

  body_calm :
      (s : Maint)
      → All (OnTime now) s.maint_buf.items
      → ((set_timeout_body rooms conf myaddr now s).1 ≡ false)
        × ((set_timeout_body rooms conf myaddr now s).0.faulty ≡ s.faulty)
  unfolding set_timeout_body tbl_find
  body_calm s h = elim (Option-cases (find_first crit_ack_req_sent s.maint_buf.items)) [
    | inl n ↦ (rw (n, set_timeout_body, tbl_find) refl, rw (n, set_timeout_body, tbl_find) refl)
    | inr (m, y) ↦
        let t = find-OnTime s.maint_buf.items m y h in
        (
          rw (y, set_timeout_body, tbl_find) (rw t refl),
          rw (y, set_timeout_body, tbl_find) (rw t refl),
        )
  ]

  set_timeout_calm :
      (fuel : ℕ) (s : Maint)
      → All (OnTime now) s.maint_buf.items
      → maint_buf_set_timeout rooms conf myaddr now (suc fuel) s
        ≡ some (set_timeout_body rooms conf myaddr now s).0
  unfolding maint_buf_set_timeout
  set_timeout_calm fuel s h = rw ((body_calm s h).0, maint_buf_set_timeout) refl

  waiting-reset :
      (xs : List MaintEntry) → map waiting (reset rooms conf myaddr now xs) ≡ map waiting xs
  waiting-reset [] = refl
  waiting-reset (x ∷ xs) = elim (Bool-cases x.ack_req_sent) [
    | inl y ↦ simp y refl
    | inr n ↦ simp n (ap (◌∷◌ (waiting x)) (waiting-reset xs))
  ]

  -- Setting the timer leaves the packets that wait.
  body_waiting :
      (s : Maint)
      → IsTbl s.maint_buf
      → (map waiting (set_timeout_body rooms conf myaddr now s).0.maint_buf.items
          ≡ map waiting s.maint_buf.items)
        × IsTbl (set_timeout_body rooms conf myaddr now s).0.maint_buf
  body_waiting s v = elim (set_timeout_body-buf rooms conf myaddr now (λ _ _ _. Unit) word s) [
    | inl e ↦ rw e (refl, v)
    | inr e ↦ rw (e ∙ find_do-reset rooms conf myaddr now s.maint_buf) (
      waiting-reset s.maint_buf.items,
      record {
        counted = v.counted ∙ sym (reset-length rooms conf myaddr now s.maint_buf.items);
        bounded = v.bounded;
        is_word = v.is_word;
      },
    )
  ]

  note_rtt-faulty :
      (nxt_hop rtt : ℕ) (s : Maint)
      → (note_rtt rooms conf myaddr now nxt_hop rtt s).faulty ≡ s.faulty
  unfolding note_rtt
  note_rtt-faulty nxt_hop rtt s = ground arith

  -- An acknowledgement, where the buffer is a table, no packet in it is late that was asked an
  -- acknowledgement for, no step before went wrong, MaxMaintRexmt is a word and there is a round
  -- of fuel: the operation ends well, exactly the packets for the next hop whose id is at most the
  -- confirmed one go, the others stay in order with their next hop, their id and their tries, and
  -- the result is the number of the packets confirmed.
  pub maint_buf_del_all_id-Left :
      (fuel : ℕ) (s : Maint) (nxt_hop id : ℕ)
      → IsTbl s.maint_buf
      → s.faulty ≡ false
      → All (OnTime now) s.maint_buf.items
      → Left
          (up_to_id nxt_hop id)
          s.maint_buf
          (maint_buf_del_all_id rooms conf myaddr now (suc fuel) s nxt_hop id)
  unfolding maint_buf_del_all_id release
  maint_buf_del_all_id-Left fuel s nxt_hop id v sane h =
      let crit = crit_addr_id_del nxt_hop id in
      let rtt = for_each (rtt_addr_id now id) (accept crit s.maint_buf.items) 0 in
      let s' = release rooms conf myaddr now crit s in
      let s'' = note_rtt rooms conf myaddr now nxt_hop rtt s' in
      let (left, n, ok) = tbl_for_each_del_lem s.maint_buf crit v in
      let same : s''.maint_buf ≡ (tbl_for_each_del s.maint_buf crit).0 =
        note_rtt-buf rooms conf myaddr now word nxt_hop rtt s' in
      let items : s''.maint_buf.items ≡ reject crit s.maint_buf.items =
        ap (λ (t : Tbl MaintEntry). t.items) same ∙ left in
      let calm : All (OnTime now) s''.maint_buf.items =
        subst (All (OnTime now)) (sym items) (All-reject crit (OnTime now) s.maint_buf.items h) in
      let key = fun_ext (id_by_key rooms conf myaddr now word nxt_hop id) in
      let (kept, table) = body_waiting s'' (subst IsTbl (sym same) ok) in
      subst
        (λ r.
          Left (up_to_id nxt_hop id) s.maint_buf
            (with_result rooms conf myaddr now (tbl_for_each_del s.maint_buf crit).1 r))
        (sym (set_timeout_calm fuel s'' calm))
        (
          (body_calm s'' calm).1 ∙ note_rtt-faulty nxt_hop rtt s' ∙ sane,
          kept ∙ ap (map waiting) items ∙ ap (λ p. map waiting (reject p s.maint_buf.items)) key,
          table,
          omega (arith, n, length-accept-reject crit s.maint_buf.items)
              ∙ ap (λ p. length (accept p s.maint_buf.items)) key,
        )
