-- ===== src/MaintBuf/Added.antt =====
-- maint-buf.c: what `maint_buf_add` leaves in the buffer.
use dsr_uu.Base.{ℕ, ◌<◌, ◌≡◌, ◌⊎◌, Bool, true, Option, none, some, All, u32_mod}
use dsr_uu.Timer.{Timeval}
use dsr_uu.Conf.{Confvals, max_maint_rexmt}
use dsr_uu.Tbl.{Tbl}
use dsr_uu.Tbl.Bounds.{IsTbl}
use dsr_uu.Pkt.{DsrPkt}
use dsr_uu.MaintBuf.{Maint, MaintEntry, MaintRoom}
use dsr_uu.MaintBuf.Rounds.{Entry}
use dsr_uu.MaintBuf.Acked.{StoodIn}

-- A packet that waited before, or the copy of the new one.
abbrev pub OldOrNew : Tbl MaintEntry → DsrPkt → ℕ → ℕ → DsrPkt → Type 0
OldOrNew t new nxt_hop id dp =
    StoodIn t nxt_hop id dp ⊎ ((nxt_hop ≡ new.nxt_hop) × (dp.nxt_hop ≡ new.nxt_hop))

abbrev pub Added : Tbl MaintEntry → DsrPkt → Option (Maint × (DsrPkt × Bool)) → Type 0
Added t new none = ⊥
Added t new (some (s, (dp, done))) =
    (s.faulty ≡ true)
    ⊎ (IsTbl s.maint_buf
        × All (Entry (OldOrNew t new)) s.maint_buf.items
        × (dp.nxt_hop ≡ new.nxt_hop)
        × (dp.dst ≡ new.dst))

module _ (rooms : ℕ → MaintRoom) (conf : Confvals) (myaddr : ℕ) (now : Timeval)
    (word : conf max_maint_rexmt < u32_mod) where
  -- An entry for the packet that has not been tried.
  abbrev IsNew : DsrPkt → MaintEntry → Type 0
  IsNew dp m = (m.nxt_hop ≡ dp.nxt_hop) × (m.dp.nxt_hop ≡ dp.nxt_hop) × (m.rexmt ≡ 0)
