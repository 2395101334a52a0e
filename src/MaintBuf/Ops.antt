-- ===== src/MaintBuf/Ops.antt =====
-- maint-buf.c: the operations of the buffer that other parts call.
use dsr_uu.Base.{
  ℕ, ◌+◌, Bool, true, false, [], ◌∷◌, ◌++◌, map, Option, none, some, ltb, ◌==◌, if◌then◌else◌,
  accept,
}
use dsr_uu.Timer.{Timeval, timeval_diff}
use dsr_uu.Conf.{Confvals, confval_to_usecs, maint_holdoff_time}
use dsr_uu.Tbl.{Tbl, tbl_add_tail, tbl_for_each_del, for_each}
use dsr_uu.Neigh.{neigh_tbl_query, neigh_tbl_set_rto, neigh_tbl_set_ack_req_time, neigh_tbl_id_inc}
use dsr_uu.Pkt.{DsrPkt}
use dsr_uu.Send.{dsr_pkt_free, dsr_ack_req_opt_add}
use dsr_uu.MaintBuf.{
  Maint, MaintEntry, MaintRoom, to_usecs_t, crit_addr_id_del, rtt_addr_id, crit_addr_del, rtt_addr,
  maint_entry_create,
}
use dsr_uu.MaintBuf.Timeout.{maint_buf_set_timeout}

module _ (rooms : ℕ → MaintRoom) (conf : Confvals) (myaddr : ℕ) (now : Timeval) where
  -- The result is that of the function: `true` for 1 and `false` for -1.
  abbrev pub with_result {ℓ} : {A : Type ℓ} → A → Option Maint → Option (Maint × A)
  with_result a none = none
  with_result a (some s) = some (s, a)

  -- The packet may ask for an acknowledgement, unless one was asked for lately. Where memory for the
  -- option is short, the packet keeps those that it has.
  unfoldable pub ask_for_ack : Maint → DsrPkt → MaintEntry → Timeval → Maint × DsrPkt × MaintEntry
  ask_for_ack s dp m last_ack_req =
      if ltb (confval_to_usecs conf maint_holdoff_time) (to_usecs_t (timeval_diff now last_ack_req))
      then (
        record s {
          neigh_tbl =
              (neigh_tbl_id_inc (neigh_tbl_set_ack_req_time now s.neigh_tbl m.nxt_hop).0
                m.nxt_hop).0;
        },
        elim (dsr_ack_req_opt_add (rooms s.calls).opts dp m.id) [ none ↦ dp | some dp' ↦ dp' ],
        record m { ack_req_sent = true },
      )
      else (s, dp, m)

  -- A full buffer does not take the entry.
  unfoldable pub keep :
      ℕ → Maint → DsrPkt → MaintEntry → Option (Tbl MaintEntry) → Option (Maint × (DsrPkt × Bool))
  unfolding maint_buf_set_timeout
  keep fuel s dp m none =
      some (record s { effects = s.effects ++ dsr_pkt_free m.dp ∷ [] }, (dp, false))
  keep fuel s dp m (some buf) =
      with_result (dp, true)
        (maint_buf_set_timeout rooms conf myaddr now fuel
          (record s { maint_buf = buf; calls = s.calls + 1 }))

  -- An entry for a packet that asks for no acknowledgement is made all the same, and lost.
  unfoldable pub use_entry :
      ℕ → Maint → DsrPkt → Timeval → Bool → Option MaintEntry → Option (Maint × (DsrPkt × Bool))
  unfolding ask_for_ack keep
  use_entry fuel s dp last_ack_req request_ack none = some (s, (dp, false))
  use_entry fuel s dp last_ack_req false (some m) = some (s, (dp, true))
  use_entry fuel s dp last_ack_req true (some m) =
      let (s', dp', m') = ask_for_ack s dp m last_ack_req in
      keep fuel s' dp' m' (tbl_add_tail s'.maint_buf m')

  -- The packet, as it is to be sent, and the result.
  unfoldable pub maint_buf_add : ℕ → Maint → DsrPkt → Option (Maint × (DsrPkt × Bool))
  unfolding maint_entry_create use_entry
  maint_buf_add fuel s dp = elim (neigh_tbl_query conf s.neigh_tbl dp.nxt_hop) [
    | none ↦ some (s, (dp, false))
    | some info ↦
        use_entry fuel s dp info.last_ack_req dp.request_ack
          (maint_entry_create (rooms s.calls) now dp info.id info.rto)
  ]

  -- The timer is stopped and the packets that meet the criterion are freed.
  unfoldable pub release : (MaintEntry → Bool) → Maint → Maint
  release crit s = record s {
    maint_buf = (tbl_for_each_del s.maint_buf crit).0;
    ack_timer = none;
    effects =
        s.effects ++ map (λ (m : MaintEntry). dsr_pkt_free m.dp) (accept crit s.maint_buf.items);
  }

  -- A round-trip time of 0 is none.
  unfoldable pub note_rtt : ℕ → ℕ → Maint → Maint
  note_rtt nxt_hop rtt s =
      if rtt == 0 then s else record s { neigh_tbl = (neigh_tbl_set_rto s.neigh_tbl nxt_hop rtt).0 }

  unfoldable pub maint_buf_del_all : ℕ → Maint → ℕ → Option (Maint × ℕ)
  unfolding release crit_addr_del maint_buf_set_timeout
  maint_buf_del_all fuel s nxt_hop =
      let crit = crit_addr_del nxt_hop in
      with_result (tbl_for_each_del s.maint_buf crit).1
        (maint_buf_set_timeout rooms conf myaddr now fuel (release crit s))

  unfoldable pub maint_buf_del_all_id : ℕ → Maint → ℕ → ℕ → Option (Maint × ℕ)
  unfolding release crit_addr_id_del rtt_addr_id note_rtt maint_buf_set_timeout
  maint_buf_del_all_id fuel s nxt_hop id =
      let crit = crit_addr_id_del nxt_hop id in
      let rtt = for_each (rtt_addr_id now id) (accept crit s.maint_buf.items) 0 in
      with_result (tbl_for_each_del s.maint_buf crit).1
        (maint_buf_set_timeout rooms conf myaddr now fuel (note_rtt nxt_hop rtt (release crit s)))

  unfoldable pub maint_buf_del_addr : ℕ → Maint → ℕ → Option (Maint × ℕ)
  unfolding release crit_addr_del rtt_addr note_rtt maint_buf_set_timeout
  maint_buf_del_addr fuel s nxt_hop =
      let crit = crit_addr_del nxt_hop in
      let rtt = for_each (rtt_addr now) (accept crit s.maint_buf.items) 0 in
      with_result (tbl_for_each_del s.maint_buf crit).1
        (maint_buf_set_timeout rooms conf myaddr now fuel (note_rtt nxt_hop rtt (release crit s)))
