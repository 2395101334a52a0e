-- ===== src/MaintBuf/Work.antt =====
-- maint-buf.c: how many rounds the entries of the buffer may last, and the reset of an expiry time.
use dsr_uu.Base.{
  ℕ, suc, ◌+◌, ◌-◌, ◌≤◌, ◌≡◌, refl, ap, subst, Bool, true, false, List, [], ◌∷◌, Option, none, some,
  inl, inr, arith, reject, length, Option-cases,
}
use dsr_uu.Timer.{Timeval, timeval_add_usecs}
use dsr_uu.Conf.{Confvals, max_maint_rexmt}
use dsr_uu.Tbl.{Tbl, tbl_find_do, do_first, insert_before}
use dsr_uu.MaintBuf.{MaintEntry, MaintRoom}
use dsr_uu.MaintBuf.Timeout.{set_expires}

module _ (rooms : ℕ → MaintRoom) (conf : Confvals) (myaddr : ℕ) (now : Timeval) where
  -- The first packet that asks for an acknowledgement with a new time.
  abbrev pub reset : List MaintEntry → List MaintEntry
  reset [] = []
  reset (m ∷ rest) = elim m.ack_req_sent [
    | true ↦ record m { expires = timeval_add_usecs m.tx_time m.rto } ∷ rest
    | false ↦ m ∷ reset rest
  ]

  abbrev or_old : List MaintEntry → Option (List MaintEntry) → List MaintEntry
  or_old xs none = xs
  or_old xs (some ys) = ys

  do_first-reset :
      (xs : List MaintEntry)
      → or_old xs (do_first (set_expires rooms conf myaddr now) xs) ≡ reset xs
  unfolding do_first set_expires
  do_first-reset [] = refl
  do_first-reset (x ∷ xs) = ground (arith, do_first-reset xs)

  pub reset-length : (xs : List MaintEntry) → length (reset xs) ≡ length xs
  reset-length [] = refl
  reset-length (x ∷ xs) = ground (arith, reset-length xs)

  -- How many rounds an entry may last.
  abbrev pub tries : MaintEntry → ℕ
  tries m = suc (conf max_maint_rexmt - m.rexmt)

  abbrev pub work : List MaintEntry → ℕ
  work [] = 0
  work (m ∷ rest) = tries m + work rest

  pub work-reset : (xs : List MaintEntry) → work (reset xs) ≡ work xs
  work-reset [] = refl
  work-reset (x ∷ xs) = ground (arith, work-reset xs)

  pub work-reject : (p : MaintEntry → Bool) (xs : List MaintEntry) → work (reject p xs) ≤ work xs
  work-reject p [] = omega arith
  work-reject p (x ∷ xs) = ground (arith, work-reject p xs)

  pub work-insert_before :
      (crit : MaintEntry → MaintEntry → Bool) (m : MaintEntry) (xs : List MaintEntry)
      → work (insert_before crit m xs) ≡ tries m + work xs
  unfolding insert_before
  work-insert_before crit m [] = refl
  work-insert_before crit m (x ∷ xs) = ground (arith, work-insert_before crit m xs)

  pub find_do-reset :
      (t : Tbl MaintEntry)
      → (tbl_find_do t (set_expires rooms conf myaddr now)).0 ≡ record t { items = reset t.items }
  unfolding tbl_find_do
  find_do-reset t = elim (Option-cases (do_first (set_expires rooms conf myaddr now) t.items)) [
    | inl n ↦
        rw (n, tbl_find_do)
          (ap (λ xs. record t { items = xs })
            (subst (λ r. or_old t.items r ≡ reset t.items) n (do_first-reset t.items)))
    | inr (ys, y) ↦
        rw (y, tbl_find_do)
          (ap (λ xs. record t { items = xs })
            (subst (λ r. or_old t.items r ≡ reset t.items) y (do_first-reset t.items)))
  ]
