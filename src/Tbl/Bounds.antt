-- ===== src/Tbl/Bounds.antt =====
-- tbl.h: the counter of a table against its list, under every operation.
use dsr_uu.Base.{
  ℕ, suc, ◌+◌, ◌-◌, ◌≤◌, ◌<◌, ◌≡◌, refl, Bool, List, [], ◌∷◌, Option, none, some, inl, inr, arith,
  length, length-append, reject, length-reject-le, incr32, decr32, u32_mod, Bool-cases,
  Option-cases,
}
use dsr_uu.Tbl.{
  unless_full, Tbl, init_tbl, insert_before, tbl_add, tbl_add_tail, find_first, remove_first,
  tbl_find_detach, tbl_detach_first, tbl_del_first, delete_each, tbl_for_each_del, flush_len,
  tbl_flush,
}

-- The counter is the number of elements, and neither exceeds the limit.
pub record IsTbl {ℓ} {A : Type ℓ} (t : Tbl A) : Type ℓ where
  pub counted : t.len ≡ length t.items
  pub bounded : t.len ≤ t.max_len
  pub is_word : t.max_len < u32_mod

module _ {ℓ} {A : Type ℓ} where
  pub init_tbl-IsTbl : (n : ℕ) → n < u32_mod → IsTbl (init_tbl {A = A} n)
  unfolding init_tbl
  init_tbl-IsTbl n h = record { counted = refl; bounded = omega arith; is_word = h }

  pub length-insert_before :
      (crit : A → A → Bool) (l : A) (xs : List A)
      → length (insert_before crit l xs) ≡ suc (length xs)
  unfolding insert_before
  length-insert_before crit l [] = refl
  length-insert_before crit l (x ∷ xs) = ground (arith, length-insert_before crit l xs)

  pub tbl_add-IsTbl :
      (t : Tbl A) (l : A) (crit : A → A → Bool) {t' : Tbl A}
      → IsTbl t
      → tbl_add t l crit ≡ some t'
      → IsTbl t'
  unfolding tbl_add
  tbl_add-IsTbl t l crit v e = ground (arith, length-insert_before crit l t.items)

  pub tbl_add_tail-IsTbl :
      (t : Tbl A) (l : A) {t' : Tbl A} → IsTbl t → tbl_add_tail t l ≡ some t' → IsTbl t'
  unfolding tbl_add_tail
  tbl_add_tail-IsTbl t l v e = ground (arith, length-append t.items (l ∷ []))

  pub length-remove_first :
      (crit : A → Bool) (xs : List A) (e : A)
      → find_first crit xs ≡ some e
      → suc (length (remove_first crit xs)) ≡ length xs
  unfolding find_first remove_first
  length-remove_first crit [] e h = cc
  length-remove_first crit (x ∷ xs) e h = ground (arith, length-remove_first crit xs e)

  pub tbl_find_detach-IsTbl :
      (t : Tbl A) (crit : A → Bool) {e : A} {t' : Tbl A}
      → IsTbl t
      → tbl_find_detach t crit ≡ some (e, t')
      → IsTbl t'
  unfolding tbl_find_detach
  tbl_find_detach-IsTbl t crit {e} v h = elim (Option-cases (find_first crit t.items)) [
    | inl miss ↦ ground arith
    | inr (a, hit) ↦ ground (arith, length-remove_first crit t.items a)
  ]

  pub tbl_detach_first-IsTbl :
      (t : Tbl A) {e : A} {t' : Tbl A} → IsTbl t → tbl_detach_first t ≡ some (e, t') → IsTbl t'
  unfolding tbl_detach_first
  tbl_detach_first-IsTbl t v h = ground arith

  pub tbl_del_first-IsTbl : (t : Tbl A) → IsTbl t → IsTbl (tbl_del_first t)
  unfolding tbl_del_first
  tbl_del_first-IsTbl t v = ground arith

  -- What the deleting walk keeps, and what it counts.
  pub delete_each_lem :
      (crit : A → Bool) (xs : List A) (len n : ℕ)
      → length xs ≤ len
      → len < u32_mod
      → n + length xs < u32_mod
      → delete_each crit xs len n ≡ (
        reject crit xs,
        len - (length xs - length (reject crit xs)),
        n + (length xs - length (reject crit xs)),
      )
  unfolding delete_each
  delete_each_lem crit [] len n a b c = ground arith
  delete_each_lem crit (x ∷ xs) len n a b c = elim (Bool-cases (crit x)) [
    | inl hit ↦
        ground (arith, delete_each_lem crit xs (decr32 len) (incr32 n), length-reject-le crit xs)
    | inr miss ↦ ground (arith, delete_each_lem crit xs len n, length-reject-le crit xs)
  ]

  pub tbl_for_each_del_lem :
      (t : Tbl A) (crit : A → Bool)
      → IsTbl t
      → ((tbl_for_each_del t crit).0.items ≡ reject crit t.items)
        × ((tbl_for_each_del t crit).1 ≡ length t.items - length (reject crit t.items))
        × IsTbl (tbl_for_each_del t crit).0
  unfolding tbl_for_each_del
  tbl_for_each_del_lem t crit v =
      ground (arith, delete_each_lem crit t.items t.len 0, length-reject-le crit t.items)

  flush_len_lem : (xs : List A) (len : ℕ) → length xs ≡ len → len < u32_mod → flush_len xs len ≡ 0
  unfolding flush_len
  flush_len_lem [] len e h = omega arith
  flush_len_lem (x ∷ xs) len e h = flush_len_lem xs (decr32 len) (omega arith) (omega arith)

  pub tbl_flush-IsTbl : (t : Tbl A) → IsTbl t → IsTbl (tbl_flush t)
  unfolding tbl_flush
  tbl_flush-IsTbl t v = ground (arith, flush_len_lem t.items t.len)

-- The operations of a table, as a client calls them one after the other.
pub data Op {ℓ} (A : Type ℓ) : Type ℓ where
  add : A → (A → A → Bool) → Op A
  add_tail : A → Op A
  find_detach for_each_del : (A → Bool) → Op A
  detach_first del_first flush : Op A

module _ {ℓ} {A : Type ℓ} where
  abbrev pub or_same : Tbl A → Option (A × Tbl A) → Tbl A
  or_same t none = t
  or_same t (some (_, t')) = t'

  unfoldable pub step : Tbl A → Op A → Tbl A
  step t (add l crit) = unless_full t (tbl_add t l crit)
  step t (add_tail l) = unless_full t (tbl_add_tail t l)
  step t (find_detach crit) = or_same t (tbl_find_detach t crit)
  step t detach_first = or_same t (tbl_detach_first t)
  step t del_first = tbl_del_first t
  step t flush = tbl_flush t
  step t (for_each_del crit) = (tbl_for_each_del t crit).0

  unfoldable pub run : Tbl A → List (Op A) → Tbl A
  unfolding step
  run t [] = t
  run t (op ∷ ops) = run (step t op) ops

  step-IsTbl : (t : Tbl A) (op : Op A) → IsTbl t → IsTbl (step t op)
  unfolding step
  step-IsTbl t (add l crit) v = elim (Option-cases (tbl_add t l crit)) [
    | inl e ↦ rw e v
    | inr (t', e) ↦ rw e (tbl_add-IsTbl t l crit v e)
  ]
  step-IsTbl t (add_tail l) v = elim (Option-cases (tbl_add_tail t l)) [
    | inl e ↦ rw e v
    | inr (t', e) ↦ rw e (tbl_add_tail-IsTbl t l v e)
  ]
  step-IsTbl t (find_detach crit) v = elim (Option-cases (tbl_find_detach t crit)) [
    | inl e ↦ rw e v
    | inr ((a, t'), e) ↦ rw e (tbl_find_detach-IsTbl t crit v e)
  ]
  step-IsTbl t detach_first v = elim (Option-cases (tbl_detach_first t)) [
    | inl e ↦ rw e v
    | inr ((a, t'), e) ↦ rw e (tbl_detach_first-IsTbl t v e)
  ]
  step-IsTbl t del_first v = tbl_del_first-IsTbl t v
  step-IsTbl t flush v = tbl_flush-IsTbl t v
  step-IsTbl t (for_each_del crit) v = (tbl_for_each_del_lem t crit v).2

  run-keeps-IsTbl : (t : Tbl A) (ops : List (Op A)) → IsTbl t → IsTbl (run t ops)
  unfolding run
  run-keeps-IsTbl t [] v = v
  run-keeps-IsTbl t (op ∷ ops) v = run-keeps-IsTbl (step t op) ops (step-IsTbl t op v)

  -- After any sequence of insertions, searches that detach, deletions and flushes on a fresh table
  -- whose limit is a word, `len` is the number of its elements and at most its limit, a word.
  pub run-IsTbl : (n : ℕ) (ops : List (Op A)) → n < u32_mod → IsTbl (run (init_tbl n) ops)
  run-IsTbl n ops h = run-keeps-IsTbl (init_tbl n) ops (init_tbl-IsTbl n h)
