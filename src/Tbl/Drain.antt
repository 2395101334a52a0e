-- ===== src/Tbl/Drain.antt =====
-- tbl.h: the loop `while ((e = __tbl_find_detach(t, id, crit)))`, as the buffers use it.
use dsr_uu.Base.{
  ℕ, zero, suc, ◌≤◌, ◌≡◌, refl, sym, ◌∙◌, Bool, List, [], ◌∷◌, none, some, inl, inr, arith, length,
  accept, reject, decr32, Option-cases,
}
use dsr_uu.Tbl.{Tbl, find_first, remove_first, tbl_find, tbl_find_detach, for_each}
use dsr_uu.Tbl.Bounds.{IsTbl, length-remove_first, tbl_find_detach-IsTbl}
use dsr_uu.Tbl.Find.{find_detach_none}

module _ {A S : Type 0} (crit : A → Bool) (func : S → A → S) where
  -- The body of the loop changes a state outside of the table.
  unfoldable pub drain : ℕ → Tbl A → S → Tbl A × S
  drain zero t s = (t, s)
  drain (suc fuel) t s = elim (tbl_find_detach t crit) [
    | none ↦ (t, s)
    | some (e, t') ↦ drain fuel t' (func s e)
  ]

  accept-nil :
      (xs : List A) → find_first crit xs ≡ none → (accept crit xs ≡ []) × (reject crit xs ≡ xs)
  unfolding find_first
  accept-nil [] h = (refl, refl)
  accept-nil (x ∷ xs) h = ground (arith, accept-nil xs)

  -- The first match is the head of what is accepted; what is left rejects and accepts the rest.
  accept_first :
      (xs : List A) (e : A)
      → find_first crit xs ≡ some e
      → (accept crit xs ≡ e ∷ accept crit (remove_first crit xs))
        × (reject crit (remove_first crit xs) ≡ reject crit xs)
  unfolding find_first remove_first
  accept_first [] e h = cc
  accept_first (x ∷ xs) e h = ground (arith, accept_first xs e)

  pub for_each-cons :
      (e : A) (xs : List A) (s : S) → for_each func (e ∷ xs) s ≡ for_each func xs (func s e)
  unfolding for_each
  for_each-cons e xs s = refl

  pub for_each-nil : (s : S) → for_each func [] s ≡ s
  unfolding for_each
  for_each-nil s = refl

  find_detach_eq :
      (t : Tbl A) (e : A)
      → find_first crit t.items ≡ some e
      → tbl_find_detach t crit
        ≡ some (e, record t { items = remove_first crit t.items; len = decr32 t.len })
  unfolding tbl_find_detach tbl_find
  find_detach_eq t e h = rw (h, tbl_find_detach, tbl_find) refl

  abbrev pub Drained : Tbl A → S → Tbl A × S → Type 0
  Drained t s (t', s') =
      (t'.items ≡ reject crit t.items)
      × (s' ≡ for_each func (accept crit t.items) s)
      × IsTbl t'
      × (t'.max_len ≡ t.max_len)

  drain_stop :
      (fuel : ℕ) (t : Tbl A) (s : S) → find_first crit t.items ≡ none → drain fuel t s ≡ (t, s)
  unfolding drain
  drain_stop zero t s n = refl
  drain_stop (suc fuel) t s n = rw (find_detach_none crit t n, drain)

  drain_next :
      (fuel : ℕ) (t : Tbl A) (s : S) (e : A)
      → find_first crit t.items ≡ some e
      → drain (suc fuel) t s
        ≡ drain fuel (record t { items = remove_first crit t.items; len = decr32 t.len }) (func s e)
  unfolding drain
  drain_next fuel t s e y = rw (find_detach_eq t e y, drain)

  Drained-stop :
      (fuel : ℕ) (t : Tbl A) (s : S)
      → IsTbl t
      → find_first crit t.items ≡ none
      → Drained t s (drain fuel t s)
  Drained-stop fuel t s v n =
      let (acc, rej) = accept-nil t.items n in
      rw (drain_stop fuel t s n) (sym rej, rw acc (sym (for_each-nil s)), v, refl)

  -- With as much fuel as elements, the loop takes out all that meet the criterion, in order.
  pub drain-Drained :
      (fuel : ℕ) (t : Tbl A) (s : S)
      → IsTbl t
      → length t.items ≤ fuel
      → Drained t s (drain fuel t s)
  drain-Drained zero t s v h = elim (Option-cases (find_first crit t.items)) [
    | inl n ↦ Drained-stop 0 t s v n
    | inr (e, y) ↦ absurd (omega (arith, length-remove_first crit t.items e y))
  ]
  drain-Drained (suc fuel) t s v h = elim (Option-cases (find_first crit t.items)) [
    | inl n ↦ Drained-stop (suc fuel) t s v n
    | inr (e, y) ↦
        let t' : Tbl A = record t { items = remove_first crit t.items; len = decr32 t.len } in
        let (acc, rej) = accept_first t.items e y in
        let v' = tbl_find_detach-IsTbl t crit v (find_detach_eq t e y) in
        let (items, state, ok, max) =
          drain-Drained fuel t' (func s e) v'
            (omega (arith, length-remove_first crit t.items e y)) in
        rw (drain_next fuel t s e y) (
          items ∙ rej,
          rw (acc, for_each-cons e (accept crit (remove_first crit t.items)) s) state,
          ok,
          max,
        )
  ]
