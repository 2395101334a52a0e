-- ===== src/MaintBuf/Lost.antt =====
-- maint-buf.c: what becomes of the packets for a next hop that is lost.
use mathlib.Core.List.{append-nil, append_assoc}
use dsr_uu.Base.{
  ℕ, ◌+◌, ◌≡◌, ◌⊎◌, ◌∙◌, sym, ap, refl, subst, Bool, false, true, List, [], ◌∷◌, ◌++◌, inl, inr,
  arith, accept, reject, length, Bool-cases,
}
use dsr_uu.Timer.{Timeval}
use dsr_uu.Conf.{Confvals}
use dsr_uu.Tbl.{Tbl, for_each}
use dsr_uu.Tbl.Bounds.{IsTbl}
use dsr_uu.Tbl.Drain.{drain-Drained}
use dsr_uu.LinkCache.{LcGraph, lc_link_del}
use dsr_uu.Pkt.{DsrPkt}
use dsr_uu.Send.{Effect, xmit, dsr_pkt_free, dsr_rerr_send}
use dsr_uu.MaintBuf.{Maint, MaintEntry, MaintRoom, crit_addr}
use dsr_uu.MaintBuf.Salvage.{Salvage, salvaged, failed, fault, maint_buf_salvage}
use dsr_uu.MaintBuf.Timeout.{
  takes_lock, xmit_salvaged, after_salvage, salvage_unless, salvage_or_free, next_hop_lost,
}
use dsr_uu.MaintBuf.Resent.{IsResent, maint_buf_salvage-IsResent}

-- A packet is freed, or sent on.
abbrev pub Outcome : DsrPkt → Effect → Type 0
Outcome dp f =
    (f ≡ dsr_pkt_free dp) ⊎ ((dp' : DsrPkt) × (f ≡ xmit dp') × IsResent dp (salvaged dp'))

-- One outcome for each packet, in order.
abbrev pub Outcomes : List MaintEntry → List Effect → Type 0
Outcomes [] out = out ≡ []
Outcomes (m ∷ ms) out =
    (f : Effect) × (rest : List Effect) × (out ≡ f ∷ rest) × Outcome m.dp f × Outcomes ms rest

-- What the packets add to what was done, unless the handler gets no further.
abbrev pub Settled : List Effect → List MaintEntry → Maint → Type 0
Settled before ms s =
    (s.faulty ≡ true) ⊎ ((out : List Effect) × (s.effects ≡ before ++ out) × Outcomes ms out)

-- The same, with what is left in the buffer.
abbrev pub AllSettled : List Effect → List MaintEntry → List MaintEntry → Maint → Type 0
AllSettled before ms left s =
    (s.faulty ≡ true)
    ⊎ ((s.maint_buf.items ≡ left)
        × IsTbl s.maint_buf
        × (out : List Effect) × (s.effects ≡ before ++ out)
        × Outcomes ms out)

with_left :
    (before : List Effect) (ms left : List MaintEntry) (s : Maint)
    → s.maint_buf.items ≡ left
    → IsTbl s.maint_buf
    → Settled before ms s
    → AllSettled before ms left s
with_left before ms left s e v (inl broken) = inl broken
with_left before ms left s e v (inr (out, more, each)) = inr (e, v, out, more, each)

module _ (rooms : ℕ → MaintRoom) (conf : Confvals) (myaddr : ℕ) (now : Timeval) where
  abbrev go : Maint → MaintEntry → Maint
  go = salvage_or_free rooms conf myaddr now

  -- One packet.
  abbrev One : Maint → MaintEntry → Maint → Type 0
  One s m s' =
      ((s'.faulty ≡ true) ⊎ ((f : Effect) × (s'.effects ≡ s.effects ++ f ∷ []) × Outcome m.dp f))
      × (s'.maint_buf ≡ s.maint_buf)
      × (s.faulty ≡ true → s'.faulty ≡ true)

  after_salvage-One :
      (room : MaintRoom) (s : Maint) (m : MaintEntry) (r : Salvage)
      → IsResent m.dp r
      → One s m (after_salvage rooms conf myaddr now room s m r)
  unfolding after_salvage xmit_salvaged
  after_salvage-One room s m (salvaged dp') h =
      elim (Bool-cases (takes_lock rooms conf myaddr now room s dp')) [
        | inl y ↦ rw y (inl refl, refl, λ k. refl)
        | inr n ↦ rw n (inr (xmit dp', refl, inr (dp', refl, h)), refl, λ k. k)
      ]
  after_salvage-One room s m failed h = (inr (dsr_pkt_free m.dp, refl, inl refl), refl, λ k. k)
  after_salvage-One room s m fault h = (inl refl, refl, λ k. refl)

  salvage_unless-One :
      (b : Bool) (s : Maint) (m : MaintEntry)
      → s.faulty ≡ b
      → One s m (salvage_unless rooms conf myaddr now b s m)
  unfolding salvage_unless
  salvage_unless-One true s m e = (inl e, refl, λ k. k)
  salvage_unless-One false s m e =
      let r = maint_buf_salvage (rooms s.calls).salvage myaddr s.lc m.dp in
      after_salvage-One (rooms s.calls) (record s { lc = r.0; calls = s.calls + 1 }) m r.1
        (maint_buf_salvage-IsResent (rooms s.calls).salvage myaddr s.lc m.dp)

  salvage_or_free-One : (s : Maint) (m : MaintEntry) → One s m (go s m)
  unfolding salvage_or_free
  salvage_or_free-One s m = salvage_unless-One s.faulty s m refl

  faulty-for_each :
      (ms : List MaintEntry) (s : Maint) → s.faulty ≡ true → (for_each go ms s).faulty ≡ true
  unfolding for_each
  faulty-for_each [] s h = h
  faulty-for_each (m ∷ ms) s h =
      let (one, same, keeps) = salvage_or_free-One s m in faulty-for_each ms (go s m) (keeps h)

  for_each-Settled : (ms : List MaintEntry) (s : Maint) → Settled s.effects ms (for_each go ms s)
  unfolding for_each
  for_each-Settled [] s = inr ([], sym (append-nil s.effects), refl)
  for_each-Settled (m ∷ ms) s =
      let (one, same, keeps) = salvage_or_free-One s m in
      elim one [
        | inl broken ↦ inl (faulty-for_each ms (go s m) broken)
        | inr (f, added, outcome) ↦ elim (for_each-Settled ms (go s m)) [
          | inl broken ↦ inl broken
          | inr (out, more, rest) ↦ inr (
            f ∷ out,
            more ∙ ap (λ x. x ++ out) added ∙ append_assoc s.effects (f ∷ []) out,
            (f, out, refl, outcome, rest),
          )
        ]
      ]

  -- The cache without the link to the next hop, and what `dsr_rerr_send` does then.
  abbrev pub error_sent : Maint → MaintEntry → LcGraph × List Effect
  error_sent s m =
      dsr_rerr_send (rooms s.calls).rerr conf myaddr (lc_link_del s.lc myaddr m.nxt_hop).0 m.dp
        m.nxt_hop

  after_error : Maint → MaintEntry → Maint
  after_error s m = record s {
    lc = (error_sent s m).0;
    effects = s.effects ++ (error_sent s m).1;
    calls = s.calls + 1;
  }

  -- A next hop that is lost, where the buffer is a table: the error is sent first; then the packet
  -- that timed out and after it, in order, the waiting packets for that next hop are salvaged on a
  -- route without repetitions, or freed, each once, and the packets for other hops stay in order. Or
  -- the handler gets no further: a route at NULL is used, or a salvaged packet is transmitted that the
  -- buffer, whose lock is held, is to keep.
  pub next_hop_lost-Settled :
      (s : Maint) (m : MaintEntry)
      → IsTbl s.maint_buf
      → AllSettled
          (s.effects ++ (error_sent s m).1)
          (m ∷ accept (crit_addr m.nxt_hop) s.maint_buf.items)
          (reject (crit_addr m.nxt_hop) s.maint_buf.items)
          (next_hop_lost rooms conf myaddr now s m)
  unfolding next_hop_lost for_each after_error
  next_hop_lost-Settled s m v =
      let s1 = after_error s m in
      let s2 = go s1 m in
      let (one, same, keeps) = salvage_or_free-One s1 m in
      let (items, state, ok, max) =
        drain-Drained (crit_addr m.nxt_hop) go (length s2.maint_buf.items) s2.maint_buf s2
          (subst IsTbl (sym same) v) (omega arith) in
      with_left (s.effects ++ (error_sent s m).1)
        (m ∷ accept (crit_addr m.nxt_hop) s.maint_buf.items)
        (reject (crit_addr m.nxt_hop) s.maint_buf.items) (next_hop_lost rooms conf myaddr now s m)
        (items ∙ ap (λ (t : Tbl MaintEntry). reject (crit_addr m.nxt_hop) t.items) same) ok
        (subst
          (λ (x : Maint).
            Settled (s.effects ++ (error_sent s m).1)
              (m ∷ accept (crit_addr m.nxt_hop) s.maint_buf.items) x)
          (sym (
            state
            ∙ ap (λ (t : Tbl MaintEntry). for_each go (accept (crit_addr m.nxt_hop) t.items) s2)
                same))
          (for_each-Settled (m ∷ accept (crit_addr m.nxt_hop) s.maint_buf.items) s1))
