-- ===== src/MaintBuf/Timer.antt =====
-- maint-buf.c: the handler of the timer ends, and what it does with a next hop that is lost.
use dsr_uu.Base.{
  ◌⊎◌, ◌≡◌, true, ℕ, ◌<◌, refl, List, [], ◌∷◌, Option, none, some, inl, inr, arith, All, All-mono,
  In, u32_mod, Option-cases,
}
use dsr_uu.Timer.{Timeval}
use dsr_uu.Conf.{Confvals, max_maint_rexmt}
use dsr_uu.Tbl.{Tbl}
use dsr_uu.Tbl.Bounds.{IsTbl}
use dsr_uu.MaintBuf.{Maint, MaintEntry, MaintRoom}
use dsr_uu.MaintBuf.Timeout.{timeout_body, maint_buf_set_timeout, maint_buf_timeout}
use dsr_uu.MaintBuf.Work.{work}
use dsr_uu.MaintBuf.Rounds.{IsMaint, Entry, timeout_body-Round}
use dsr_uu.MaintBuf.Finish.{Ends, halted-Ends, set_timeout-Ends}
use dsr_uu.MaintBuf.Acked.{StoodIn, Counting}

-- The handler gets no further, or it has ended, in a buffer of packets that waited before.
abbrev pub Handled : Tbl MaintEntry → Option Maint → Type 0
Handled t none = ⊥
Handled t (some s) =
    (s.faulty ≡ true)
    ⊎ (IsTbl s.maint_buf × All (λ m. StoodIn t m.nxt_hop m.id m.dp) s.maint_buf.items)

module _ (rooms : ℕ → MaintRoom) (conf : Confvals) (myaddr : ℕ) (now : Timeval)
    (word : conf max_maint_rexmt < u32_mod) where
  all_stood :
      (xs : List MaintEntry) (t : Tbl MaintEntry)
      → ((m : MaintEntry) → In m xs → In m t.items)
      → Counting xs
      → All (Entry (StoodIn t)) xs
  all_stood [] t k h = tt
  all_stood (x ∷ xs) t k h =
      (((x, k x (inl refl), refl, refl, refl), h.0), all_stood xs t (λ m i. k m (inr i)) h.1)

  stood-IsMaint : (t : Tbl MaintEntry) → IsTbl t → Counting t.items → IsMaint (StoodIn t) t
  stood-IsMaint t v c = record { table = v; entries = all_stood t.items t (λ m i. i) c }

  Ends-Handled :
      (t : Tbl MaintEntry) (r : Option Maint)
      → Ends rooms conf myaddr now (StoodIn t) word r
      → Handled t r
  Ends-Handled t none h = h
  Ends-Handled t (some s) h = inr (
    h.table,
    All-mono (Entry (StoodIn t)) (λ m. StoodIn t m.nxt_hop m.id m.dp) s.maint_buf.items (λ m k. k.0)
        h.entries,
  )

  -- Where the buffer is a table, no counter of tries wraps next, and MaxMaintRexmt is a word, with as
  -- much fuel as the entries may have rounds: the handler of the timer and the function that sets the
  -- timer, which call each other, come to an end, and leave a table of packets that waited before,
  -- unless they get no further: a route or a packet at NULL is used, or a salvaged packet is
  -- transmitted that the buffer, whose lock is held, is to keep.
  pub maint_buf_timeout-Handled :
      (fuel : ℕ) (s : Maint)
      → IsTbl s.maint_buf
      → Counting s.maint_buf.items
      → work rooms conf myaddr now s.maint_buf.items < fuel
      → Handled s.maint_buf (maint_buf_timeout rooms conf myaddr now fuel s)
  unfolding maint_buf_timeout
  maint_buf_timeout-Handled fuel s v c h =
      let s' : Maint = record s { ack_timer = none } in
      let here = stood-IsMaint s.maint_buf v c in
      elim (Option-cases (timeout_body rooms conf myaddr now s')) [
        | inl n ↦ rw (n, Handled) (Ends-Handled s.maint_buf (some s') here)
        | inr (s'', y) ↦
            let (ok, less) =
              timeout_body-Round rooms conf myaddr now (StoodIn s.maint_buf) word s' s'' here y in
            rw (y, Handled)
              (Ends-Handled s.maint_buf _ (
                halted-Ends rooms conf myaddr now (StoodIn s.maint_buf) word s''.faulty s''
                  (maint_buf_set_timeout rooms conf myaddr now fuel s'') ok
                  (set_timeout-Ends rooms conf myaddr now (StoodIn s.maint_buf) word fuel s'' ok
                    (omega (arith, h, less)))))
      ]
