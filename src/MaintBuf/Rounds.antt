-- ===== src/MaintBuf/Rounds.antt =====
-- maint-buf.c: what one round of the timer does to the entries of the buffer.
use mathlib.Core.Path.{ap₂}
use mathlib.Core.Option.{some-injective}
use dsr_uu.Base.{
  ◌⊎◌, ◌++◌, ℕ, suc, ◌+◌, ◌-◌, ◌≤◌, ◌<◌, ◌≡◌, refl, sym, ap, ◌∙◌, subst, Bool, true, false, List,
  [], ◌∷◌, none, some, inl, inr, arith, leb, All, All-reject, reject, length, incr32, decr32,
  u32_mod, Bool-cases, Option-cases, List-cases,
}
use dsr_uu.Timer.{Timeval, timeval_add_usecs}
use dsr_uu.Conf.{Confvals, max_maint_rexmt}
use dsr_uu.Tbl.{Tbl, tbl_add, insert_before, unless_full, tbl_detach_first}
use dsr_uu.Tbl.Bounds.{IsTbl, tbl_add-IsTbl, tbl_detach_first-IsTbl}
use dsr_uu.Tbl.Drain.{drain, drain-Drained}
use dsr_uu.Pkt.{DsrPkt}
use dsr_uu.MaintBuf.{Maint, MaintEntry, MaintRoom, crit_addr, crit_expires}
use dsr_uu.LinkCache.{lc_link_del}
use dsr_uu.Send.{dsr_rerr_send}
use dsr_uu.MaintBuf.Timeout.{salvage_or_free, next_hop_lost, expired, timeout_body, timeout_round}
use dsr_uu.MaintBuf.Work.{reset, work, work-reject, work-insert_before}

module _ (P : ℕ → ℕ → DsrPkt → Type 0) where
  -- A property of what a round keeps of an entry, and a counter of tries that does not wrap next.
  abbrev pub Entry : MaintEntry → Type 0
  Entry m = P m.nxt_hop m.id m.dp × (suc m.rexmt < u32_mod)

  pub record IsMaint (t : Tbl MaintEntry) : Type 0 where
    pub table : IsTbl t
    pub entries : All Entry t.items

  pub All-insert_before :
      (crit : MaintEntry → MaintEntry → Bool) (l : MaintEntry) (xs : List MaintEntry)
      → Entry l
      → All Entry xs
      → All Entry (insert_before crit l xs)
  unfolding insert_before
  All-insert_before crit l [] e h = (e, tt)
  All-insert_before crit l (x ∷ xs) e h = elim (Bool-cases (crit x l)) [
    | inl y ↦ rw y (e, h)
    | inr n ↦ rw n (h.0, All-insert_before crit l xs e h.1)
  ]

  pub All-reset :
      (rooms : ℕ → MaintRoom) (conf : Confvals) (myaddr : ℕ) (now : Timeval) (xs : List MaintEntry)
      → All Entry xs
      → All Entry (reset rooms conf myaddr now xs)
  All-reset rooms conf myaddr now [] h = tt
  All-reset rooms conf myaddr now (x ∷ xs) h = elim (Bool-cases x.ack_req_sent) [
    | inl y ↦ simp y h
    | inr n ↦ simp n (h.0, All-reset rooms conf myaddr now xs h.1)
  ]

module _ (rooms : ℕ → MaintRoom) (conf : Confvals) (myaddr : ℕ) (now : Timeval)
    (P : ℕ → ℕ → DsrPkt → Type 0) (word : conf max_maint_rexmt < u32_mod) where
  salvage_or_free-buf :
      (s : Maint) (m : MaintEntry)
      → (salvage_or_free rooms conf myaddr now s m).maint_buf ≡ s.maint_buf
  unfolding salvage_or_free
  salvage_or_free-buf s m = ground arith

  drained-buf :
      (nxt_hop : ℕ) (s : Maint)
      → IsMaint P s.maint_buf
      → IsMaint P
          (drain
            (crit_addr nxt_hop)
            (salvage_or_free rooms conf myaddr now)
            (length s.maint_buf.items)
            s.maint_buf
            s).0
        × ((drain
              (crit_addr nxt_hop)
              (salvage_or_free rooms conf myaddr now)
              (length s.maint_buf.items)
              s.maint_buf
              s).0.items
            ≡ reject (crit_addr nxt_hop) s.maint_buf.items)
  drained-buf nxt_hop s v =
      let (items, state, ok, max) =
        drain-Drained (crit_addr nxt_hop) (salvage_or_free rooms conf myaddr now)
          (length s.maint_buf.items) s.maint_buf s v.table (omega arith) in
      (
        record {
          table = ok;
          entries = rw items (All-reject (crit_addr nxt_hop) (Entry P) s.maint_buf.items v.entries);
        },
        items,
      )

  pub lost-buf :
      (s : Maint) (m : MaintEntry)
      → IsMaint P s.maint_buf
      → (IsMaint P (next_hop_lost rooms conf myaddr now s m).maint_buf)
        × ((next_hop_lost rooms conf myaddr now s m).maint_buf.items
            ≡ reject (crit_addr m.nxt_hop) s.maint_buf.items)
  unfolding next_hop_lost
  lost-buf s m v =
      let lost =
        dsr_rerr_send (rooms s.calls).rerr conf myaddr (lc_link_del s.lc myaddr m.nxt_hop).0 m.dp
          m.nxt_hop in
      let s1 : Maint = record s {
        lc = lost.0;
        effects = s.effects ++ lost.1;
        calls = s.calls + 1;
      } in
      let same = salvage_or_free-buf s1 m in
      let (ok, items) =
        drained-buf m.nxt_hop (salvage_or_free rooms conf myaddr now s1 m)
          (subst (IsMaint P) (sym same) v) in
      (ok, items ∙ ap (λ (t : Tbl MaintEntry). reject (crit_addr m.nxt_hop) t.items) same)

  abbrev again : MaintEntry → MaintEntry
  again m = record m { tx_time = now; expires = timeval_add_usecs now m.rto }

  expired-lost :
      (s : Maint) (m : MaintEntry)
      → leb (conf max_maint_rexmt) m.rexmt ≡ true
      → m.ack_req_sent ≡ true
      → (expired rooms conf myaddr now s m).maint_buf
        ≡ (next_hop_lost rooms conf myaddr now s m).maint_buf
  unfolding expired
  expired-lost s m most y = simp (most, y) refl

  expired-freed :
      (s : Maint) (m : MaintEntry)
      → leb (conf max_maint_rexmt) m.rexmt ≡ true
      → m.ack_req_sent ≡ false
      → (expired rooms conf myaddr now s m).maint_buf ≡ s.maint_buf
  unfolding expired
  expired-freed s m most n = simp (most, n) refl

  expired-again :
      (s : Maint) (m : MaintEntry)
      → leb (conf max_maint_rexmt) m.rexmt ≡ false
      → (expired rooms conf myaddr now s m).maint_buf
        ≡ unless_full s.maint_buf (tbl_add s.maint_buf (again m) crit_expires)
  unfolding expired
  expired-again s m more = simp more refl

  abbrev Round : ℕ → Tbl MaintEntry → Tbl MaintEntry → Type 0
  Round r t t' =
      IsMaint P t'
      × (work rooms conf myaddr now t'.items
          ≤ work rooms conf myaddr now t.items + (conf max_maint_rexmt - r))

  again-Round :
      (t : Tbl MaintEntry) (m : MaintEntry) (r : ℕ)
      → IsMaint P t
      → P m.nxt_hop m.id m.dp
      → m.rexmt ≡ suc r
      → leb (conf max_maint_rexmt) m.rexmt ≡ false
      → Round r t (unless_full t (tbl_add t m crit_expires))
  unfolding tbl_add
  again-Round t m r v p e more = elim (Bool-cases (leb t.max_len t.len)) [
    | inl full ↦ rw full (v, omega arith)
    | inr free ↦
        let t' : Tbl MaintEntry = record t {
          items = insert_before crit_expires m t.items;
          len = incr32 t.len;
        } in
        let added : tbl_add t m crit_expires ≡ some t' = rw free refl in
        let low : suc m.rexmt < u32_mod = ground (arith, more) in
        rw free (
          record {
            table = tbl_add-IsTbl t m crit_expires v.table added;
            entries = All-insert_before P crit_expires m t.items (p, low) v.entries;
          },
          ground (arith, work-insert_before rooms conf myaddr now crit_expires m t.items, more),
        )
  ]

  -- The packet is gone, or stands in the buffer again with one try less.
  expired-Round :
      (s : Maint) (m : MaintEntry) (r : ℕ)
      → IsMaint P s.maint_buf
      → P m.nxt_hop m.id m.dp
      → m.rexmt ≡ suc r
      → Round r s.maint_buf (expired rooms conf myaddr now s m).maint_buf
  expired-Round s m r v p e = elim (Bool-cases (leb (conf max_maint_rexmt) m.rexmt)) [
    | inl most ↦ elim (Bool-cases m.ack_req_sent) [
      | inl y ↦
          let (ok, items) = lost-buf s m v in
          rw (expired-lost s m most y) (
            ok,
            omega (
              arith,
              ap (work rooms conf myaddr now) items,
              work-reject rooms conf myaddr now (crit_addr m.nxt_hop) s.maint_buf.items,
            ),
          )
      | inr n ↦ rw (expired-freed s m most n) (v, omega arith)
    ]
    | inr more ↦ rw (expired-again s m more) (again-Round s.maint_buf (again m) r v p e more)
  ]

  detach_cons :
      (t : Tbl MaintEntry) (m : MaintEntry) (rest : List MaintEntry)
      → t.items ≡ m ∷ rest
      → tbl_detach_first t ≡ some (m, record t { items = rest; len = decr32 t.len })
  unfolding tbl_detach_first
  detach_cons t m rest e = rw e refl

  detach_nil : (t : Tbl MaintEntry) → t.items ≡ [] → tbl_detach_first t ≡ none
  unfolding tbl_detach_first
  detach_nil t e = rw e refl

  abbrev without_first : Maint → List MaintEntry → Maint
  without_first s rest = record s {
    maint_buf = record (s.maint_buf) { items = rest; len = decr32 s.maint_buf.len };
  }

  abbrev one_more : MaintEntry → MaintEntry
  one_more m = record m { rexmt = incr32 m.rexmt }

  timeout_body_idle :
      (s : Maint)
      → ((at : Timeval) × (s.ack_timer ≡ some at)) ⊎ (s.maint_buf.items ≡ [])
      → timeout_body rooms conf myaddr now s ≡ none
  unfolding timeout_body timeout_round
  timeout_body_idle s (inl (at, e)) =
      ap (λ at?. timeout_round rooms conf myaddr now s at? (tbl_detach_first s.maint_buf)) e
  timeout_body_idle s (inr e) = elim (Option-cases s.ack_timer) [
    | inl n ↦ ap₂ (timeout_round rooms conf myaddr now s) n (detach_nil s.maint_buf e)
    | inr (at, y) ↦
        ap (λ at?. timeout_round rooms conf myaddr now s at? (tbl_detach_first s.maint_buf)) y
  ]

  timeout_body_first :
      (s : Maint) (m : MaintEntry) (rest : List MaintEntry)
      → s.ack_timer ≡ none
      → s.maint_buf.items ≡ m ∷ rest
      → timeout_body rooms conf myaddr now s
        ≡ some (expired rooms conf myaddr now (without_first s rest) (one_more m))
  unfolding timeout_body timeout_round
  timeout_body_first s m rest n e =
      ap₂ (timeout_round rooms conf myaddr now s) n (detach_cons s.maint_buf m rest e)

  first_round :
      (s : Maint) (m : MaintEntry) (rest : List MaintEntry)
      → IsMaint P s.maint_buf
      → s.maint_buf.items ≡ m ∷ rest
      → IsMaint P (expired rooms conf myaddr now (without_first s rest) (one_more m)).maint_buf
        × (work rooms conf myaddr now
              (expired rooms conf myaddr now (without_first s rest) (one_more m)).maint_buf.items
            < work rooms conf myaddr now s.maint_buf.items)
  first_round s m rest v e =
      let (here, others) = subst (All (Entry P)) e v.entries in
      let left = tbl_detach_first-IsTbl s.maint_buf v.table (detach_cons s.maint_buf m rest e) in
      let (ok, le) =
        expired-Round (without_first s rest) (one_more m) m.rexmt
          (record { table = left; entries = others }) here.0 (omega (arith, here.1)) in
      (ok, omega (arith, le, ap (work rooms conf myaddr now) e))

  -- Each round keeps the buffer well-formed and takes one try.
  pub timeout_body-Round :
      (s s' : Maint)
      → IsMaint P s.maint_buf
      → timeout_body rooms conf myaddr now s ≡ some s'
      → IsMaint P s'.maint_buf
        × (work rooms conf myaddr now s'.maint_buf.items
            < work rooms conf myaddr now s.maint_buf.items)
  timeout_body-Round s s' v e = elim (Option-cases s.ack_timer) [
    | inr (at, y) ↦ (let no = sym (timeout_body_idle s (inl (at, y))) ∙ e in absurd cc)
    | inl n ↦ elim (List-cases s.maint_buf.items) [
      | inl empty ↦ (let no = sym (timeout_body_idle s (inr empty)) ∙ e in absurd cc)
      | inr (m, rest, cons) ↦
          subst
            (λ (x : Maint).
              IsMaint P x.maint_buf
              × (work rooms conf myaddr now x.maint_buf.items
                  < work rooms conf myaddr now s.maint_buf.items))
            (some-injective (expired rooms conf myaddr now (without_first s rest) (one_more m)) s'
              (sym (timeout_body_first s m rest n cons) ∙ e))
            (first_round s m rest v cons)
    ]
  ]
