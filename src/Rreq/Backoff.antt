-- ===== src/Rreq/Backoff.antt =====
-- dsr-rreq.c: a discovery that no answer cancels ends after MaxRequestRexmt more requests.
use dsr_uu.Base.{
  ℕ, zero, suc, ◌+◌, ◌*◌, ◌≤◌, ◌<◌, ◌≡◌, refl, ◌∙◌, List, [], ◌∷◌, some, arith, length,
  length-append, u32_mod, leb, true, false,
}
use dsr_uu.Timer.{Timeval, timeval_add_usecs}
use dsr_uu.Conf.{Confvals, max_request_rexmt}
use dsr_uu.Tbl.{Tbl, tbl_add_tail, unless_full, tbl_find, find_first, tbl_detach}
use dsr_uu.Rreq.{
  RreqEntry, idle, crit_addr, back_off, rreq_tbl_timeout, rreq_timeouts, dsr_rreq_send, set_timer,
}
use dsr_uu.Rreq.Table.{IsRreqTbl, take_found}
use dsr_uu.Rreq.Invariant.{timeout_keeps}
use dsr_uu.Rreq.Discovery.{put_found}

-- The table holds `e` for the address, and has room.
abbrev Held : Tbl RreqEntry → ℕ → RreqEntry → Type 0
Held t addr e = IsRreqTbl t × (1 ≤ t.max_len) × (find_first (crit_addr addr) t.items ≡ some e)

put_max :
    (t : Tbl RreqEntry) (e : RreqEntry) → (unless_full t (tbl_add_tail t e)).max_len ≡ t.max_len
unfolding tbl_add_tail
put_max t e = ground arith

module _ (conf : Confvals) (now : Timeval) (t : Tbl RreqEntry) (addr : ℕ) (e : RreqEntry)
    (held : Held t addr e) where
  abbrev rest : Tbl RreqEntry
  rest = tbl_detach t (crit_addr addr)

  put_held :
      (e' : RreqEntry)
      → e'.node_addr ≡ e.node_addr
      → (find_first (crit_addr addr) (unless_full rest (tbl_add_tail rest e')).items ≡ some e')
        × (1 ≤ (unless_full rest (tbl_add_tail rest e')).max_len)
  put_held e' same =
      let (at, ok, rest_ok, without, max, room) = take_found t addr e held.0 held.2 in
      (
        put_found rest addr e' (room held.1) without (same ∙ at),
        omega (arith, put_max rest e', max, held.1),
      )

  timeout_last_eq :
      leb (conf max_request_rexmt) e.num_rexmts ≡ true
      → rreq_tbl_timeout conf now t addr
        ≡ (unless_full rest (tbl_add_tail rest (record e { state = idle })), [])
  unfolding rreq_tbl_timeout tbl_find
  timeout_last_eq m = rw (held.2, rreq_tbl_timeout, tbl_find) (rw m refl)

  timeout_more_eq :
      leb (conf max_request_rexmt) e.num_rexmts ≡ false
      → rreq_tbl_timeout conf now t addr ≡ (
        unless_full rest (tbl_add_tail rest (back_off conf now e)),
        dsr_rreq_send e.node_addr (back_off conf now e).ttl
            ∷ set_timer e.node_addr (timeval_add_usecs now (back_off conf now e).timeout)
            ∷ [],
      )
  unfolding rreq_tbl_timeout tbl_find
  timeout_more_eq m = rw (held.2, rreq_tbl_timeout, tbl_find) (rw m refl)

  timeout_last :
      conf max_request_rexmt ≤ e.num_rexmts
      → Held (rreq_tbl_timeout conf now t addr).0 addr (record e { state = idle })
        × ((rreq_tbl_timeout conf now t addr).1 ≡ [])
  timeout_last h =
      let ok = timeout_keeps conf now t addr held.0 in
      let eq = timeout_last_eq (ground (arith, h)) in
      let (found, max) = put_held (record e { state = idle }) refl in
      ((ok, rw eq max, rw eq found), rw eq refl)

  timeout_more :
      e.num_rexmts < conf max_request_rexmt
      → Held (rreq_tbl_timeout conf now t addr).0 addr (back_off conf now e)
        × (length (rreq_tbl_timeout conf now t addr).1 ≡ 2)
  timeout_more h =
      let ok = timeout_keeps conf now t addr held.0 in
      let eq = timeout_more_eq (ground (arith, h)) in
      let (found, max) = put_held (back_off conf now e) (unfold back_off in refl) in
      ((ok, rw eq max, rw eq found), rw eq refl)

-- Where a well-formed table with room for an entry holds one for the address that has sent at most
-- MaxRequestRexmt requests again, a word, and n tries are left: after n + 1 timeouts its entry is
-- idle, and the timeouts have done 2 * n things outside of the table.
pub rreq_timeouts-idle :
    (conf : Confvals) (t : Tbl RreqEntry) (addr n : ℕ) (times : List Timeval) (e : RreqEntry)
    → IsRreqTbl t
    → 1 ≤ t.max_len
    → tbl_find t (crit_addr addr) ≡ some e
    → conf max_request_rexmt < u32_mod
    → e.num_rexmts + n ≡ conf max_request_rexmt
    → length times ≡ suc n
    → (e' : RreqEntry) × (tbl_find (rreq_timeouts conf t addr times).0 (crit_addr addr) ≡ some e')
      × (e'.state ≡ idle)
      × (length (rreq_timeouts conf t addr times).1 ≡ 2 * n)
unfolding rreq_timeouts tbl_find
rreq_timeouts-idle conf t addr n [] e v max found word left len = absurd (omega arith)
rreq_timeouts-idle conf t addr zero (now ∷ []) e v max found word left len =
    let ((_, _, found'), none_done) =
      timeout_last conf now t addr e (v, max, found) (omega arith) in
    (record e { state = idle }, found', refl, rw none_done refl)
rreq_timeouts-idle conf t addr zero (now ∷ later ∷ times) e v max found word left len =
    absurd (omega arith)
rreq_timeouts-idle conf t addr (suc n) (now ∷ times) e v max found word left len =
    let ((v', max', found'), two) = timeout_more conf now t addr e (v, max, found) (omega arith) in
    let t' : Tbl RreqEntry = (rreq_tbl_timeout conf now t addr).0 in
    let (e', at, idle', count) =
      rreq_timeouts-idle conf t' addr n times (back_off conf now e) v' max' found' word
        (unfold back_off in omega arith) (omega arith) in
    (
      e',
      at,
      idle',
      omega (
        arith,
        count,
        two,
        length-append (rreq_tbl_timeout conf now t addr).1 (rreq_timeouts conf t' addr times).1,
      ),
    )
