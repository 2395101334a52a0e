-- ===== src/MaintBuf/Finish.antt =====
-- maint-buf.c: the two functions of the timer, which call each other, come to an end.
use dsr_uu.Base.{
  ◌⊎◌, Bool, true, false, ℕ, zero, suc, ◌<◌, ◌≡◌, refl, sym, ◌∙◌, Option, none, some, inl, inr,
  arith, u32_mod, Bool-cases, Option-cases,
}
use dsr_uu.Base.Int.{leb_int, to_int}
use dsr_uu.Timer.{Timeval, timeval_diff}
use dsr_uu.Conf.{Confvals, max_maint_rexmt}
use dsr_uu.Tbl.{Tbl, tbl_find, tbl_find_do}
use dsr_uu.Pkt.{DsrPkt}
use dsr_uu.MaintBuf.{Maint, MaintEntry, MaintRoom, crit_ack_req_sent}
use dsr_uu.MaintBuf.Timeout.{set_expires, set_timeout_body, timeout_body, maint_buf_set_timeout}
use dsr_uu.MaintBuf.Work.{reset, reset-length, work, work-reset, find_do-reset}
use dsr_uu.MaintBuf.Rounds.{IsMaint, All-reset, timeout_body-Round}

module _ (rooms : ℕ → MaintRoom) (conf : Confvals) (myaddr : ℕ) (now : Timeval)
    (P : ℕ → ℕ → DsrPkt → Type 0) (word : conf max_maint_rexmt < u32_mod) where
  -- The buffer is the same, or its first entry that asks for an acknowledgement has a new time.
  pub set_timeout_body-buf :
      (s : Maint)
      → ((set_timeout_body rooms conf myaddr now s).0.maint_buf ≡ s.maint_buf)
        ⊎ ((set_timeout_body rooms conf myaddr now s).0.maint_buf
            ≡ (tbl_find_do s.maint_buf (set_expires rooms conf myaddr now)).0)
  unfolding set_timeout_body
  set_timeout_body-buf s = elim (Option-cases (tbl_find s.maint_buf crit_ack_req_sent)) [
    | inl n ↦ inl (rw (n, set_timeout_body) refl)
    | inr (m, y) ↦ elim (Bool-cases (leb_int (timeval_diff now m.tx_time) (to_int m.rto))) [
      | inl late ↦ inr (rw (y, set_timeout_body) (rw late refl))
      | inr early ↦ inr (rw (y, set_timeout_body) (rw early refl))
    ]
  ]

  reset-IsMaint :
      (t : Tbl MaintEntry)
      → IsMaint P t
      → IsMaint P (record t { items = reset rooms conf myaddr now t.items })
  reset-IsMaint t v = record {
    table = record {
      counted = v.table.counted ∙ sym (reset-length rooms conf myaddr now t.items);
      bounded = v.table.bounded;
      is_word = v.table.is_word;
    };
    entries = All-reset P rooms conf myaddr now t.items v.entries;
  }

  set_timeout_body-IsMaint :
      (s : Maint)
      → IsMaint P s.maint_buf
      → IsMaint P (set_timeout_body rooms conf myaddr now s).0.maint_buf
        × (work rooms conf myaddr now (set_timeout_body rooms conf myaddr now s).0.maint_buf.items
            ≡ work rooms conf myaddr now s.maint_buf.items)
  set_timeout_body-IsMaint s v = elim (set_timeout_body-buf s) [
    | inl e ↦ rw e (v, refl)
    | inr e ↦
        rw (e ∙ find_do-reset rooms conf myaddr now s.maint_buf)
          (reset-IsMaint s.maint_buf v, work-reset rooms conf myaddr now s.maint_buf.items)
  ]

  -- The result of a call that ends, with the buffer well-formed.
  abbrev pub Ends : Option Maint → Type 0
  Ends none = ⊥
  Ends (some s) = IsMaint P s.maint_buf

  -- A handler that gets no further leaves the buffer as the round left it.
  pub halted-Ends :
      (b : Bool) (s : Maint) (r : Option Maint)
      → IsMaint P s.maint_buf
      → Ends r
      → Ends (elim b [ true ↦ some s | false ↦ r ])
  halted-Ends true s r v h = v
  halted-Ends false s r v h = h

  pub set_timeout-Ends :
      (fuel : ℕ) (s : Maint)
      → IsMaint P s.maint_buf
      → work rooms conf myaddr now s.maint_buf.items < fuel
      → Ends (maint_buf_set_timeout rooms conf myaddr now fuel s)
  unfolding maint_buf_set_timeout
  set_timeout-Ends zero s v h = absurd (omega arith)
  set_timeout-Ends (suc fuel) s v h =
      let (ok, same) = set_timeout_body-IsMaint s v in
      let s' = (set_timeout_body rooms conf myaddr now s).0 in
      elim (Bool-cases (set_timeout_body rooms conf myaddr now s).1) [
        | inr e ↦ rw (e, Ends, maint_buf_set_timeout) ok
        | inl e ↦ elim (Option-cases (timeout_body rooms conf myaddr now s')) [
          | inl n ↦ rw (e, Ends, maint_buf_set_timeout) (rw (n, Ends) ok)
          | inr (s'', y) ↦
              let (ok', less) = timeout_body-Round rooms conf myaddr now P word s' s'' ok y in
              rw (e, Ends, maint_buf_set_timeout)
                (rw (y, Ends)
                  (halted-Ends s''.faulty s'' (maint_buf_set_timeout rooms conf myaddr now fuel s'')
                    ok' (set_timeout-Ends fuel s'' ok' (omega (arith, less, same)))))
        ]
      ]
