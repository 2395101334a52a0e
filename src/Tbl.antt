-- ===== src/Tbl.antt =====
-- tbl.h: bounded tables, as the list of their elements with the counter `len` kept beside it.
-- The locked variants (`tbl_add`, …) do what the unlocked ones (`__tbl_add`, …) do.
pub mod Bounds
pub mod Find
pub mod Drain
pub mod Order
pub mod Tests
use dsr_uu.Base.{
  ℕ, Bool, true, false, List, [], ◌∷◌, ◌++◌, Option, none, some, leb, if◌then◌else◌, incr32, decr32,
}

pub record Tbl {ℓ} (A : Type ℓ) : Type ℓ where
  pub items : List A
  pub len : ℕ
  pub max_len : ℕ

module _ {ℓ} {A : Type ℓ} where
  unfoldable pub init_tbl : ℕ → Tbl A
  init_tbl max_length = record { items = []; len = 0; max_len = max_length }

  unfoldable pub tbl_empty : Tbl A → Bool
  tbl_empty t = elim t.items [ [] ↦ true | _ ∷ _ ↦ false ]

  unfoldable pub tbl_full : Tbl A → Bool
  tbl_full t = leb t.max_len t.len

  -- The walk of `__tbl_add`: the new element goes before the first one that meets the criterion,
  -- and at the end when there is none.
  unfoldable pub insert_before : (A → A → Bool) → A → List A → List A
  insert_before crit l [] = l ∷ []
  insert_before crit l (pos ∷ rest) =
      if crit pos l then l ∷ pos ∷ rest else pos ∷ insert_before crit l rest

  -- `none` is -ENOSPC. The length that the source returns is `len` of the new table.
  unfoldable pub tbl_add : Tbl A → A → (A → A → Bool) → Option (Tbl A)
  unfolding insert_before
  tbl_add t l crit =
      if leb t.max_len t.len
      then none
      else some (record t { items = insert_before crit l t.items; len = incr32 t.len })

  unfoldable pub tbl_add_tail : Tbl A → A → Option (Tbl A)
  tbl_add_tail t l =
      if leb t.max_len t.len
      then none
      else some (record t { items = t.items ++ l ∷ []; len = incr32 t.len })

  -- A caller that does not look at the result of an insertion.
  abbrev pub unless_full : Tbl A → Option (Tbl A) → Tbl A
  unless_full t none = t
  unless_full t (some t') = t'

  unfoldable pub find_first : (A → Bool) → List A → Option A
  find_first crit [] = none
  find_first crit (pos ∷ rest) = if crit pos then some pos else find_first crit rest

  unfoldable pub tbl_find : Tbl A → (A → Bool) → Option A
  unfolding find_first
  tbl_find t crit = find_first crit t.items

  unfoldable pub in_tbl : Tbl A → (A → Bool) → Bool
  unfolding tbl_find
  in_tbl t crit = elim (tbl_find t crit) [ none ↦ false | some _ ↦ true ]

  -- The list without its first element that meets the criterion.
  unfoldable pub remove_first : (A → Bool) → List A → List A
  remove_first crit [] = []
  remove_first crit (pos ∷ rest) = if crit pos then rest else pos ∷ remove_first crit rest

  -- `is` tells the element that the source names by its address; it stands in the table.
  unfoldable pub tbl_detach : Tbl A → (A → Bool) → Tbl A
  unfolding remove_first tbl_empty
  tbl_detach t is =
      if tbl_empty t then t else record t { items = remove_first is t.items; len = decr32 t.len }

  unfoldable pub tbl_find_detach : Tbl A → (A → Bool) → Option (A × Tbl A)
  unfolding tbl_find remove_first
  tbl_find_detach t crit = elim (tbl_find t crit) [
    | none ↦ none
    | some e ↦ some (e, record t { items = remove_first crit t.items; len = decr32 t.len })
  ]

  unfoldable pub tbl_detach_first : Tbl A → Option (A × Tbl A)
  tbl_detach_first t = elim t.items [
    | [] ↦ none
    | e ∷ rest ↦ some (e, record t { items = rest; len = decr32 t.len })
  ]

  -- `tbl_del_first`: `kfree(NULL)` does nothing.
  unfoldable pub tbl_del_first : Tbl A → Tbl A
  unfolding tbl_detach_first
  tbl_del_first t = elim (tbl_detach_first t) [ none ↦ t | some (_, t') ↦ t' ]

  -- The loop of `__tbl_for_each_del`: what is left, the counter `len`, and the count `n`.
  unfoldable pub delete_each : (A → Bool) → List A → ℕ → ℕ → List A × ℕ × ℕ
  delete_each crit [] len n = ([], len, n)
  delete_each crit (pos ∷ rest) len n = elim (crit pos) [
    | true ↦ delete_each crit rest (decr32 len) (incr32 n)
    | false ↦ let (kept, len', n') = delete_each crit rest len n in (pos ∷ kept, len', n')
  ]

  unfoldable pub tbl_for_each_del : Tbl A → (A → Bool) → Tbl A × ℕ
  unfolding delete_each
  tbl_for_each_del t crit =
      let (kept, len, n) = delete_each crit t.items t.len 0 in
      (record t { items = kept; len = len }, n)

  -- `func` returns `none` for 0, and for 1 the element as it left it.
  unfoldable pub do_first : (A → Option A) → List A → Option (List A)
  do_first func [] = none
  do_first func (pos ∷ rest) = elim (func pos) [
    | some pos' ↦ some (pos' ∷ rest)
    | none ↦ elim (do_first func rest) [ none ↦ none | some rest' ↦ some (pos ∷ rest') ]
  ]

  unfoldable pub tbl_find_do : Tbl A → (A → Option A) → Tbl A × Bool
  unfolding do_first
  tbl_find_do t func = elim (do_first func t.items) [
    | none ↦ (t, false)
    | some items ↦ (record t { items = items }, true)
  ]

  -- The loop of `__tbl_flush` on the counter.
  unfoldable pub flush_len : List A → ℕ → ℕ
  flush_len [] len = len
  flush_len (_ ∷ rest) len = flush_len rest (decr32 len)

  unfoldable pub tbl_flush : Tbl A → Tbl A
  unfolding flush_len
  tbl_flush t = record t { items = []; len = flush_len t.items t.len }

-- The walk of `__tbl_do_for_each`, whose function changes a state outside of the table.
unfoldable pub for_each {ℓ κ} : {A : Type ℓ} {S : Type κ} → (S → A → S) → List A → S → S
for_each func [] s = s
for_each func (pos ∷ rest) s = for_each func rest (func s pos)

unfoldable pub tbl_do_for_each {ℓ κ} : {A : Type ℓ} {S : Type κ} → Tbl A → (S → A → S) → S → S
unfolding for_each
tbl_do_for_each t func s = for_each func t.items s
