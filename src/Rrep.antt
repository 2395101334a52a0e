-- ===== src/Rrep.antt =====
-- dsr-rrep.c: the table of gratuitous route replies lately sent, with its timer, and the option of a
-- route reply with the packet that carries it.
pub mod Reply
pub mod Set
pub mod Pairs
pub mod Refine
pub mod Run
pub mod Tests
use dsr_uu.Base.{ℕ, Bool, ◌&&◌, Option, none, some, List, ◌==◌, if◌then◌else◌}
use dsr_uu.Base.Int.{ℤ, pos, negsuc, is_negative}
use dsr_uu.Timer.{Timeval, timeval_diff, timeval_add_usecs}
use dsr_uu.Conf.{Confvals, confval_to_usecs, grat_reply_hold_off}
use dsr_uu.Tbl.{Tbl, init_tbl, tbl_empty, tbl_add, unless_full, in_tbl, tbl_del_first, tbl_find}

abbrev pub grat_rrep_tbl_max_len : ℕ
grat_rrep_tbl_max_len = 64

-- `struct grat_rrep_entry`
pub record GratRrepEntry : Type 0 where
  pub src : ℕ
  pub prev_hop : ℕ
  pub expires : Timeval

-- The table and the time at which its timer runs out, if it is set.
pub record GratRrep : Type 0 where
  pub tbl : Tbl GratRrepEntry
  pub timer : Option Timeval

unfoldable pub crit_query : ℕ → ℕ → GratRrepEntry → Bool
crit_query src prev_hop p = p.src == src && p.prev_hop == prev_hop

unfoldable pub crit_time : Timeval → GratRrepEntry → Bool
crit_time t p = is_negative (timeval_diff p.expires t)

-- The timer is set for the first entry. The list of an empty table has none.
unfoldable pub set_for_first : GratRrep → GratRrep
set_for_first g = elim (tbl_find g.tbl (λ _. Bool.true)) [
  | none ↦ g
  | some e ↦ record g { timer = some e.expires }
]

-- The timer has run out.
unfoldable pub grat_rrep_tbl_timeout : GratRrep → GratRrep
unfolding set_for_first
grat_rrep_tbl_timeout g =
    let left = tbl_del_first g.tbl in
    if tbl_empty left
    then record { tbl = left; timer = none }
    else set_for_first (record { tbl = left; timer = none })

unfoldable pub grat_rrep_tbl_find : GratRrep → ℕ → ℕ → Bool
unfolding crit_query
grat_rrep_tbl_find g src prev_hop = in_tbl g.tbl (crit_query src prev_hop)

unfoldable pub grat_rrep_entry_create : Confvals → Timeval → ℕ → ℕ → GratRrepEntry
grat_rrep_entry_create conf now src prev_hop = record {
  src = src;
  prev_hop = prev_hop;
  expires = timeval_add_usecs now (confval_to_usecs conf grat_reply_hold_off);
}

-- `block` is `none` where `kmalloc` fails, and else the two words at the start of the new block: the
-- criterion is handed the new element, and reads its links there as a time. `tbl_add` does not return
-- 0, so that the timer is set also where the table is full.
unfoldable pub grat_rrep_tbl_add :
    Option Timeval → Confvals → Timeval → GratRrep → ℕ → ℕ → GratRrep × ℤ
unfolding crit_query crit_time set_for_first grat_rrep_entry_create
grat_rrep_tbl_add block conf now g src prev_hop =
    if in_tbl g.tbl (crit_query src prev_hop) then (g, pos 0) else elim block [
      | none ↦ (g, negsuc 0)
      | some links ↦
          let e = grat_rrep_entry_create conf now src prev_hop in
          (
            set_for_first (record {
              tbl = unless_full g.tbl (tbl_add g.tbl e (λ p l. crit_time links p));
              timer = none;
            }),
            pos 1,
          )
    ]

unfoldable pub grat_rrep_tbl_init : GratRrep
grat_rrep_tbl_init = record { tbl = init_tbl grat_rrep_tbl_max_len; timer = none }
