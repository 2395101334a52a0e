-- ===== src/MaintBuf/Acked.antt =====
-- maint-buf.c: what is left in the buffer once a next hop has confirmed packets.
use mathlib.Core.Path.{fun_ext}
use dsr_uu.Base.{
  ℕ, suc, ◌<◌, ◌≡◌, refl, sym, ap, ◌∙◌, subst, ◌⊎◌, true, Bool, false, List, [], ◌∷◌, Option, none,
  some, inl, inr, arith, All, All-mono, In, accept, reject, length, length-accept-reject, u32_mod,
  Bool-cases, leb, ◌==◌, ◌&&◌,
}
use dsr_uu.Timer.{Timeval}
use dsr_uu.Conf.{Confvals, max_maint_rexmt}
use dsr_uu.Tbl.{Tbl, for_each, tbl_for_each_del}
use dsr_uu.Tbl.Bounds.{IsTbl, tbl_for_each_del_lem}
use dsr_uu.Pkt.{DsrPkt}
use dsr_uu.MaintBuf.{
  Maint, MaintEntry, MaintRoom, crit_addr_id_del, crit_addr_del, rtt_addr_id, rtt_addr,
}
use dsr_uu.MaintBuf.Timeout.{maint_buf_set_timeout}
use dsr_uu.MaintBuf.Ops.{
  with_result, release, note_rtt, maint_buf_del_all, maint_buf_del_all_id, maint_buf_del_addr,
}
use dsr_uu.MaintBuf.Work.{work, work-reject}
use dsr_uu.MaintBuf.Rounds.{IsMaint, Entry}
use dsr_uu.MaintBuf.Finish.{Ends, set_timeout-Ends}

-- An entry stands for a packet that waited in the buffer, for the same hop and with the same id.
abbrev pub StoodIn : Tbl MaintEntry → ℕ → ℕ → DsrPkt → Type 0
StoodIn t nxt_hop id dp =
    (m : MaintEntry) × In m t.items × (m.nxt_hop ≡ nxt_hop) × (m.id ≡ id) × (m.dp ≡ dp)

-- The packets that a confirmation of `id` by the next hop is about, and all those of a next hop.
abbrev pub up_to_id : ℕ → ℕ → ℕ → ℕ → Bool
up_to_id nxt_hop id h i = h == nxt_hop && leb i id

abbrev pub for_hop : ℕ → ℕ → ℕ → Bool
for_hop nxt_hop h i = h == nxt_hop

-- The handler gets no further, or none of these packets is left, nothing new has come in, and the number is theirs.
abbrev pub Confirmed : (ℕ → ℕ → Bool) → Tbl MaintEntry → Option (Maint × ℕ) → Type 0
Confirmed key t none = ⊥
Confirmed key t (some (s, n)) =
    (s.faulty ≡ true)
    ⊎ (IsTbl s.maint_buf
        × All (λ m. (key m.nxt_hop m.id ≡ false) × StoodIn t m.nxt_hop m.id m.dp) s.maint_buf.items
        × (n ≡ length (accept (λ (m : MaintEntry). key m.nxt_hop m.id) t.items)))

-- No counter of tries wraps next.
abbrev pub Counting : List MaintEntry → Type 0
Counting = All (λ m. suc m.rexmt < u32_mod)

module _ (rooms : ℕ → MaintRoom) (conf : Confvals) (myaddr : ℕ) (now : Timeval)
    (word : conf max_maint_rexmt < u32_mod) where
  module _ (key : ℕ → ℕ → Bool) (crit : MaintEntry → Bool)
      (by_key : (m : MaintEntry) → crit m ≡ key m.nxt_hop m.id) where
    Left : Tbl MaintEntry → ℕ → ℕ → DsrPkt → Type 0
    Left t nxt_hop id dp = (key nxt_hop id ≡ false) × StoodIn t nxt_hop id dp

    Left-Entry :
        (xs : List MaintEntry) (t : Tbl MaintEntry)
        → ((m : MaintEntry) → In m xs → In m t.items)
        → Counting xs
        → All (Entry (Left t)) (reject crit xs)
    unfolding Left
    Left-Entry [] t k h = tt
    Left-Entry (x ∷ xs) t k h = elim (Bool-cases (crit x)) [
      | inl y ↦ rw (y, All, reject) (Left-Entry xs t (λ m i. k m (inr i)) h.1)
      | inr n ↦
          rw (n, All, reject)
            (
              ((sym (by_key x) ∙ n, (x, k x (inl refl), refl, refl, refl)), h.0),
              Left-Entry xs t (λ m i. k m (inr i)) h.1,
            )
    ]

    Ends-Confirmed :
        (t : Tbl MaintEntry) (n : ℕ) (r : Option Maint)
        → n ≡ length (accept crit t.items)
        → Ends rooms conf myaddr now (Left t) word r
        → Confirmed key t (with_result rooms conf myaddr now n r)
    unfolding Left
    Ends-Confirmed t n none e h = h
    Ends-Confirmed t n (some s) e h = inr (
      h.table,
      All-mono (Entry (Left t)) (λ m. (key m.nxt_hop m.id ≡ false) × StoodIn t m.nxt_hop m.id m.dp)
          s.maint_buf.items (λ m k. (k.0.0, k.0.1)) h.entries,
      e ∙ ap (λ p. length (accept p t.items)) (fun_ext by_key),
    )

    pub Deleted-Confirmed :
        (fuel : ℕ) (t : Tbl MaintEntry) (s : Maint)
        → IsTbl t
        → Counting t.items
        → work rooms conf myaddr now t.items < fuel
        → s.maint_buf ≡ (tbl_for_each_del t crit).0
        → Confirmed key t (
            with_result rooms conf myaddr now
              (tbl_for_each_del t crit).1
              (maint_buf_set_timeout rooms conf myaddr now fuel s))
    Deleted-Confirmed fuel t s v c h e =
        let (left, n, ok) = tbl_for_each_del_lem t crit v in
        let here : IsMaint (Left t) (tbl_for_each_del t crit).0 = record {
          table = ok;
          entries = rw left (Left-Entry t.items t (λ m i. i) c);
        } in
        let less : work rooms conf myaddr now s.maint_buf.items < fuel = omega (
          arith,
          h,
          ap (λ (b : Tbl MaintEntry). work rooms conf myaddr now b.items) e,
          ap (work rooms conf myaddr now) left,
          work-reject rooms conf myaddr now crit t.items,
        ) in
        Ends-Confirmed t (tbl_for_each_del t crit).1
          (maint_buf_set_timeout rooms conf myaddr now fuel s)
          (omega (arith, n, length-accept-reject crit t.items))
          (set_timeout-Ends rooms conf myaddr now (Left t) word fuel s
            (subst (IsMaint (Left t)) (sym e) here) less)

  pub note_rtt-buf :
      (nxt_hop rtt : ℕ) (s : Maint)
      → (note_rtt rooms conf myaddr now nxt_hop rtt s).maint_buf ≡ s.maint_buf
  unfolding note_rtt
  note_rtt-buf nxt_hop rtt s = ground arith

  pub id_by_key :
      (nxt_hop id : ℕ) (m : MaintEntry)
      → crit_addr_id_del nxt_hop id m ≡ (m.nxt_hop == nxt_hop && leb m.id id)
  unfolding crit_addr_id_del
  id_by_key nxt_hop id m = refl

  addr_by_key : (nxt_hop : ℕ) (m : MaintEntry) → crit_addr_del nxt_hop m ≡ (m.nxt_hop == nxt_hop)
  unfolding crit_addr_del
  addr_by_key nxt_hop m = refl

  -- An acknowledgement, where the buffer is a table, no counter of tries wraps next, and MaxMaintRexmt
  -- is a word, with as much fuel as the entries may have rounds: the operation ends, in a buffer
  -- without a packet for the next hop whose id is at most the confirmed one, and with none that did
  -- not wait before, and the result is the number of the packets confirmed. Or it gets no further, as
  -- the timer of a packet that is late may have it salvaged: a route or a packet at NULL is used, or a
  -- salvaged packet is transmitted that the buffer, whose lock is held, is to keep.
  pub maint_buf_del_all_id-Confirmed :
      (fuel : ℕ) (s : Maint) (nxt_hop id : ℕ)
      → IsTbl s.maint_buf
      → Counting s.maint_buf.items
      → work rooms conf myaddr now s.maint_buf.items < fuel
      → Confirmed
          (up_to_id nxt_hop id)
          s.maint_buf
          (maint_buf_del_all_id rooms conf myaddr now fuel s nxt_hop id)
  unfolding maint_buf_del_all_id release note_rtt crit_addr_id_del
  maint_buf_del_all_id-Confirmed fuel s nxt_hop id v c h =
      let crit = crit_addr_id_del nxt_hop id in
      let rtt = for_each (rtt_addr_id now id) (accept crit s.maint_buf.items) 0 in
      let s' = release rooms conf myaddr now crit s in
      Deleted-Confirmed (up_to_id nxt_hop id) crit (id_by_key nxt_hop id) fuel s.maint_buf
        (note_rtt rooms conf myaddr now nxt_hop rtt s') v c h (note_rtt-buf nxt_hop rtt s')

  maint_buf_del_all-Confirmed :
      (fuel : ℕ) (s : Maint) (nxt_hop : ℕ)
      → IsTbl s.maint_buf
      → Counting s.maint_buf.items
      → work rooms conf myaddr now s.maint_buf.items < fuel
      → Confirmed
          (for_hop nxt_hop)
          s.maint_buf
          (maint_buf_del_all rooms conf myaddr now fuel s nxt_hop)
  unfolding maint_buf_del_all release crit_addr_del
  maint_buf_del_all-Confirmed fuel s nxt_hop v c h =
      let crit = crit_addr_del nxt_hop in
      Deleted-Confirmed (for_hop nxt_hop) crit (addr_by_key nxt_hop) fuel s.maint_buf
        (release rooms conf myaddr now crit s) v c h refl

  maint_buf_del_addr-Confirmed :
      (fuel : ℕ) (s : Maint) (nxt_hop : ℕ)
      → IsTbl s.maint_buf
      → Counting s.maint_buf.items
      → work rooms conf myaddr now s.maint_buf.items < fuel
      → Confirmed
          (for_hop nxt_hop)
          s.maint_buf
          (maint_buf_del_addr rooms conf myaddr now fuel s nxt_hop)
  unfolding maint_buf_del_addr release note_rtt crit_addr_del
  maint_buf_del_addr-Confirmed fuel s nxt_hop v c h =
      let crit = crit_addr_del nxt_hop in
      let rtt = for_each (rtt_addr now) (accept crit s.maint_buf.items) 0 in
      let s' = release rooms conf myaddr now crit s in
      Deleted-Confirmed (for_hop nxt_hop) crit (addr_by_key nxt_hop) fuel s.maint_buf
        (note_rtt rooms conf myaddr now nxt_hop rtt s') v c h (note_rtt-buf nxt_hop rtt s')

  -- A next hop, under the same conditions: the two operations that free all its packets, with and
  -- without a sample of the round-trip time, end in a buffer without a packet for it, and with none
  -- that did not wait before, and the result is the number of the packets freed; or they get no further,
  -- in the same way.
  pub maint_buf_del-Confirmed :
      (fuel : ℕ) (s : Maint) (nxt_hop : ℕ)
      → IsTbl s.maint_buf
      → Counting s.maint_buf.items
      → work rooms conf myaddr now s.maint_buf.items < fuel
      → Confirmed
          (for_hop nxt_hop)
          s.maint_buf
          (maint_buf_del_addr rooms conf myaddr now fuel s nxt_hop)
        × Confirmed
            (for_hop nxt_hop)
            s.maint_buf
            (maint_buf_del_all rooms conf myaddr now fuel s nxt_hop)
  maint_buf_del-Confirmed fuel s nxt_hop v c h = (
    maint_buf_del_addr-Confirmed fuel s nxt_hop v c h,
    maint_buf_del_all-Confirmed fuel s nxt_hop v c h,
  )
