-- ===== src/Node/Invariant.antt =====
-- A node whose tables and buffers are sound, and what the handlers of packets share keeps them so.
use dsr_uu.Base.{
  suc, false, [], ◌∷◌, All, ◌∙◌, inl, inr, Bool-cases, ◌==◌, ℕ, ◌≡◌, refl, sym, ap, subst, Bool,
  List, Option, none, some, arith, All-reject, accept,
}
use dsr_uu.Timer.{Timeval}
use dsr_uu.Conf.{Confvals}
use dsr_uu.Tbl.{find_first, tbl_find, Tbl, for_each}
use dsr_uu.Tbl.Bounds.{tbl_for_each_del_lem}
use dsr_uu.Rreq.{Action}
use dsr_uu.Rreq.Table.{IsRreqTbl}
use dsr_uu.Pkt.{DsrPkt}
use dsr_uu.Send.{PktRoom}
use dsr_uu.SendBuf.{SendBufVerdict}
use dsr_uu.SendBuf.Steps.{UpTo, verdict-Step}
use dsr_uu.MaintBuf.{
  Maint, MaintEntry, MaintRoom, crit_ack_req_sent, crit_addr_id_del, crit_addr_del, rtt_addr_id,
}
use dsr_uu.MaintBuf.Rounds.{Entry, IsMaint}
use dsr_uu.MaintBuf.Timeout.{set_timeout_body, maint_buf_set_timeout}
use dsr_uu.MaintBuf.Ops.{release, note_rtt, maint_buf_del_all, maint_buf_del_all_id}
use dsr_uu.Rrep.Set.{IsGrat}
use dsr_uu.Node.{Node, Env, Room, send_waiting, perform_all}
use dsr_uu.Node.Perform.{
  perform_all-rreq_tbl, perform_all-send_buf, perform_all-faulty, perform_all-maint_buf,
  perform_all-grat_rrep,
}

-- Any entry whose counter of tries does not wrap next.
abbrev pub AnyEntry : ℕ → ℕ → DsrPkt → Type 0
AnyEntry nxt_hop id dp = Unit

-- No packet that waits has been asked for an acknowledgement, and no handler is held up.
abbrev pub IsQuiet : Maint → Type 0
IsQuiet m =
    IsMaint AnyEntry m.maint_buf
    × All (λ (e : MaintEntry). e.ack_req_sent ≡ false) m.maint_buf.items
    × (m.faulty ≡ false)

-- A quiet maintenance buffer, the table of requests, the send buffer, in which nothing has come in later
-- than `k`, and the table of gratuitous replies.
abbrev pub IsNode : ℕ → Node → Type 0
IsNode k s = IsQuiet s.maint × IsRreqTbl s.rreq_tbl × UpTo k s.send_buf × IsGrat s.grat_rrep

module _ (k : ℕ) where
  pub send_waiting-IsNode :
      (room : Room) (s : Node) (dst : ℕ) → IsNode k s → IsNode k (send_waiting room s dst)
  unfolding send_waiting
  send_waiting-IsNode room s dst v = (
    v.0,
    v.1,
    (verdict-Step room.waiting room.waiting_opts s.maint.lc SendBufVerdict.send dst k s.send_buf
        v.2).0,
    v.3,
  )

  pub perform_all-IsNode :
      (room : PktRoom) (env : Env) (s : Node) (actions : List Action)
      → IsNode k s
      → IsNode k (perform_all room env s actions)
  perform_all-IsNode room env s actions v = (
    (
      subst (IsMaint AnyEntry) (sym (perform_all-maint_buf room env s actions)) v.0.0,
      subst (λ (t : Tbl MaintEntry). All (λ (e : MaintEntry). e.ack_req_sent ≡ false) t.items)
          (sym (perform_all-maint_buf room env s actions)) v.0.1,
      perform_all-faulty room env s actions ∙ v.0.2,
    ),
    subst IsRreqTbl (sym (perform_all-rreq_tbl room env s actions)) v.1,
    subst (UpTo k) (sym (perform_all-send_buf room env s actions)) v.2,
    subst IsGrat (sym (perform_all-grat_rrep room env s actions)) v.3,
  )

-- In a quiet buffer no timer is set, and no packet is late.
module _ (rooms : ℕ → MaintRoom) (conf : Confvals) (myaddr : ℕ) (now : Timeval) where
  abbrev pub SoundResult : Option (Maint × ℕ) → Type 0
  SoundResult none = ⊥
  SoundResult (some (s, n)) = IsQuiet s

  none_asked :
      (xs : List MaintEntry)
      → All (λ (e : MaintEntry). e.ack_req_sent ≡ false) xs
      → find_first crit_ack_req_sent xs ≡ none
  unfolding find_first crit_ack_req_sent
  none_asked [] h = refl
  none_asked (x ∷ xs) h = ground (arith, h.0, none_asked xs h.1)

  body_quiet :
      (s : Maint)
      → All (λ (e : MaintEntry). e.ack_req_sent ≡ false) s.maint_buf.items
      → set_timeout_body rooms conf myaddr now s ≡ (s, false)
  unfolding set_timeout_body tbl_find
  body_quiet s h = rw (none_asked s.maint_buf.items h, set_timeout_body, tbl_find) refl

  set_timeout_quiet :
      (fuel : ℕ) (s : Maint)
      → All (λ (e : MaintEntry). e.ack_req_sent ≡ false) s.maint_buf.items
      → maint_buf_set_timeout rooms conf myaddr now (suc fuel) s ≡ some s
  unfolding maint_buf_set_timeout
  set_timeout_quiet fuel s h =
      let calm : (set_timeout_body rooms conf myaddr now s).1 ≡ false =
        ap (λ (p : Maint × Bool). p.1) (body_quiet s h) in
      rw (calm, maint_buf_set_timeout) (ap (λ (p : Maint × Bool). some p.0) (body_quiet s h))

  released-IsQuiet :
      (crit : MaintEntry → Bool) (s : Maint)
      → IsQuiet s
      → IsQuiet (release rooms conf myaddr now crit s)
  unfolding release
  released-IsQuiet crit s v =
      let (left, n, ok) = tbl_for_each_del_lem s.maint_buf crit v.0.table in
      (
        record {
          table = ok;
          entries = rw left (All-reject crit (Entry AnyEntry) s.maint_buf.items v.0.entries);
        },
        rw left
            (All-reject crit (λ (e : MaintEntry). e.ack_req_sent ≡ false) s.maint_buf.items v.1),
        v.2,
      )

  note_rtt-IsQuiet :
      (nxt_hop rtt : ℕ) (s : Maint)
      → IsQuiet s
      → IsQuiet (note_rtt rooms conf myaddr now nxt_hop rtt s)
  unfolding note_rtt
  note_rtt-IsQuiet nxt_hop rtt s v = elim (Bool-cases (rtt == 0)) [
    | inl y ↦ rw y v
    | inr n ↦ rw n v
  ]

  pub del_all-Sound :
      (fuel : ℕ) (s : Maint) (nxt_hop : ℕ)
      → IsQuiet s
      → SoundResult (maint_buf_del_all rooms conf myaddr now (suc fuel) s nxt_hop)
  unfolding maint_buf_del_all
  del_all-Sound fuel s nxt_hop v =
      let crit = crit_addr_del nxt_hop in
      let ok = released-IsQuiet crit s v in
      rw (set_timeout_quiet fuel (release rooms conf myaddr now crit s) ok.1) ok

  pub del_all_id-Sound :
      (fuel : ℕ) (s : Maint) (nxt_hop id : ℕ)
      → IsQuiet s
      → SoundResult (maint_buf_del_all_id rooms conf myaddr now (suc fuel) s nxt_hop id)
  unfolding maint_buf_del_all_id
  del_all_id-Sound fuel s nxt_hop id v =
      let crit = crit_addr_id_del nxt_hop id in
      let rtt = for_each (rtt_addr_id now id) (accept crit s.maint_buf.items) 0 in
      let ok =
        note_rtt-IsQuiet nxt_hop rtt (release rooms conf myaddr now crit s)
          (released-IsQuiet crit s v) in
      rw
        (set_timeout_quiet fuel
          (note_rtt rooms conf myaddr now nxt_hop rtt (release rooms conf myaddr now crit s)) ok.1)
        ok
