-- ===== src/MaintBuf/Timeout.antt =====
-- maint-buf.c: the two functions that handle the timer, and what they do with a packet that has expired.
use dsr_uu.Base.{
  ℕ, zero, suc, ◌+◌, Bool, true, false, ◌&&◌, List, [], ◌∷◌, ◌++◌, Option, none, some, leb,
  if◌then◌else◌, length, incr32,
}
use dsr_uu.Base.Int.{leb_int, to_int}
use dsr_uu.Timer.{Timeval, timeval_diff, timeval_add_usecs}
use dsr_uu.Conf.{Confvals, max_maint_rexmt}
use dsr_uu.Tbl.{Tbl, tbl_add, unless_full, tbl_find, tbl_find_do, tbl_detach_first}
use dsr_uu.Tbl.Drain.{drain}
use dsr_uu.LinkCache.{lc_link_del}
use dsr_uu.Neigh.{neigh_tbl_query}
use dsr_uu.Pkt.{DsrPkt}
use dsr_uu.Send.{Effect, dsr_pkt_free, xmit, set_timer, dsr_rerr_send, dsr_ack_req_send}
use dsr_uu.MaintBuf.Salvage.{Salvage, salvaged, failed, fault, maint_buf_salvage}
use dsr_uu.MaintBuf.{
  Maint, MaintEntry, MaintRoom, crit_addr, crit_expires, crit_ack_req_sent, maint_entry_create,
}

module _ (rooms : ℕ → MaintRoom) (conf : Confvals) (myaddr : ℕ) (now : Timeval) where
  -- Whether `maint_buf_add`, which `dsr_dev_xmit` calls for a packet that asks for an acknowledgement,
  -- comes to the lock of the buffer: the next hop is known, and there is memory.
  unfoldable pub takes_lock : MaintRoom → Maint → DsrPkt → Bool
  unfolding maint_entry_create
  takes_lock room s dp = dp.request_ack && elim (neigh_tbl_query conf s.neigh_tbl dp.nxt_hop) [
    | none ↦ false
    | some info ↦ elim (maint_entry_create room now dp info.id info.rto) [
      | none ↦ false
      | some _ ↦ true
    ]
  ]

  -- XMIT of a salvaged packet, while the lock of the buffer is held.
  unfoldable pub xmit_salvaged : MaintRoom → Maint → DsrPkt → Maint
  unfolding takes_lock
  xmit_salvaged room s dp =
      if takes_lock room s dp
      then record s { faulty = true }
      else record s { effects = s.effects ++ xmit dp ∷ [] }

  -- What the caller does with the result of a salvage.
  unfoldable pub after_salvage : MaintRoom → Maint → MaintEntry → Salvage → Maint
  unfolding xmit_salvaged
  after_salvage room s m (salvaged dp) = xmit_salvaged room s dp
  after_salvage room s m failed = record s { effects = s.effects ++ dsr_pkt_free m.dp ∷ [] }
  after_salvage room s m fault = record s { faulty = true }

  -- A packet is sent along another route, or freed, unless the handler gets no further.
  unfoldable pub salvage_unless : Bool → Maint → MaintEntry → Maint
  unfolding after_salvage
  salvage_unless true s m = s
  salvage_unless false s m =
      let (lc, result) = maint_buf_salvage (rooms s.calls).salvage myaddr s.lc m.dp in
      after_salvage (rooms s.calls) (record s { lc = lc; calls = s.calls + 1 }) m result

  unfoldable pub salvage_or_free : Maint → MaintEntry → Maint
  unfolding salvage_unless
  salvage_or_free s m = salvage_unless s.faulty s m

  -- The next hop is lost: its link goes, an error is sent back, and its packets are salvaged. The
  -- loop is given as many rounds as the buffer has packets.
  unfoldable pub next_hop_lost : Maint → MaintEntry → Maint
  unfolding salvage_or_free drain crit_addr
  next_hop_lost s m =
      let (lc, sent) =
        dsr_rerr_send (rooms s.calls).rerr conf myaddr (lc_link_del s.lc myaddr m.nxt_hop).0 m.dp
          m.nxt_hop in
      let s' =
        salvage_or_free (record s { lc = lc; effects = s.effects ++ sent; calls = s.calls + 1 })
          m in
      let (buf, s'') =
        drain (crit_addr m.nxt_hop) salvage_or_free (length s'.maint_buf.items) s'.maint_buf s' in
      record s'' { maint_buf = buf }

  -- The packet `m`, detached from the buffer, with one more try counted.
  unfoldable pub expired : Maint → MaintEntry → Maint
  unfolding next_hop_lost crit_expires
  expired s m =
      if leb (conf max_maint_rexmt) m.rexmt
      then (if m.ack_req_sent
          then next_hop_lost s m
          else record s { effects = s.effects ++ dsr_pkt_free m.dp ∷ [] })
      else (let m' : MaintEntry = record m {
        tx_time = now;
        expires = timeval_add_usecs now m.rto;
      } in
          let asked : Option (List Effect) =
            if m.ack_req_sent
            then dsr_ack_req_send (rooms s.calls).ack_req (rooms s.calls).opts myaddr m.nxt_hop m.id
            else some [] in
          record s {
            maint_buf = unless_full s.maint_buf (tbl_add s.maint_buf m' crit_expires);
            effects = s.effects ++ elim asked [ none ↦ [] | some out ↦ out ];
            calls = s.calls + 1;
            faulty = elim asked [ none ↦ true | some _ ↦ s.faulty ];
          })

  -- `m->expires` of the first packet that asks for an acknowledgement is set again.
  unfoldable pub set_expires : MaintEntry → Option MaintEntry
  set_expires m =
      if m.ack_req_sent
      then some (record m { expires = timeval_add_usecs m.tx_time m.rto })
      else none

  -- The body of `_maint_buf_set_timeout`: it is `true` where `_maint_buf_timeout` is called then.
  unfoldable pub set_timeout_body : Maint → Maint × Bool
  unfolding crit_ack_req_sent set_expires
  set_timeout_body s = elim (tbl_find s.maint_buf crit_ack_req_sent) [
    | none ↦ (s, false)
    | some m ↦
        let s' : Maint = record s { maint_buf = (tbl_find_do s.maint_buf set_expires).0 } in
        if leb_int (timeval_diff now m.tx_time) (to_int m.rto)
        then (
          record s' {
            ack_timer = some (timeval_add_usecs m.tx_time m.rto);
            effects = s.effects ++ set_timer (timeval_add_usecs m.tx_time m.rto) ∷ [];
          },
          false,
        )
        else (s', true)
  ]

  -- Given whether the timer is pending and what is detached: `none` where the source returns.
  unfoldable pub timeout_round :
      Maint → Option Timeval → Option (MaintEntry × Tbl MaintEntry) → Option Maint
  unfolding expired
  timeout_round s (some _) first = none
  timeout_round s none none = none
  timeout_round s none (some (m, buf)) =
      some (expired (record s { maint_buf = buf }) (record m { rexmt = incr32 m.rexmt }))

  -- The body of `_maint_buf_timeout`.
  unfoldable pub timeout_body : Maint → Option Maint
  unfolding timeout_round
  timeout_body s = timeout_round s s.ack_timer (tbl_detach_first s.maint_buf)

  -- The two functions call each other. Each call of `_maint_buf_timeout` takes one round of fuel,
  -- and `none` is that it ran out.
  unfoldable pub maint_buf_set_timeout : ℕ → Maint → Option Maint
  unfolding set_timeout_body timeout_body
  maint_buf_set_timeout zero s = none
  maint_buf_set_timeout (suc fuel) s =
      let (s', late) = set_timeout_body s in
      elim late [
        | false ↦ some s'
        | true ↦ elim (timeout_body s') [
          | none ↦ some s'
          | some s'' ↦ elim s''.faulty [ true ↦ some s'' | false ↦ maint_buf_set_timeout fuel s'' ]
        ]
      ]

  -- The timer that has fired is no longer pending.
  unfoldable pub maint_buf_timeout : ℕ → Maint → Option Maint
  unfolding timeout_body maint_buf_set_timeout
  maint_buf_timeout fuel s =
      let s' : Maint = record s { ack_timer = none } in
      elim (timeout_body s') [
        | none ↦ some s'
        | some s'' ↦ elim s''.faulty [ true ↦ some s'' | false ↦ maint_buf_set_timeout fuel s'' ]
      ]
