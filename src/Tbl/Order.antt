-- ===== src/Tbl/Order.antt =====
-- tbl.h: a table filled by `tbl_add` with a criterion on keys is in the order of the keys.
use dsr_uu.Base.{ℕ, ◌≤◌, ◌≡◌, Bool, List, [], ◌∷◌, some, arith, All, reject, ltb}
use dsr_uu.Tbl.{Tbl, insert_before, tbl_add}

-- Keys in ascending order.
abbrev pub IsSorted {ℓ} : {A : Type ℓ} → (A → ℕ) → List A → Type ℓ
IsSorted key [] = Unit
IsSorted key (x ∷ xs) = All (λ y. key x ≤ key y) xs × IsSorted key xs

module _ {A : Type 0} (key : A → ℕ) where
  abbrev pub Below : ℕ → List A → Type 0
  Below k = All (λ y. k ≤ key y)

  Below-mono : (j k : ℕ) (xs : List A) → j ≤ k → Below k xs → Below j xs
  Below-mono j k [] h b = tt
  Below-mono j k (x ∷ xs) h b = (omega arith, Below-mono j k xs h b.1)

  module _ (p : A → Bool) where
    reject-Below : (k : ℕ) (xs : List A) → Below k xs → Below k (reject p xs)
    reject-Below k [] h = tt
    reject-Below k (x ∷ xs) h = ground (arith, reject-Below k xs)

    pub reject-IsSorted : (xs : List A) → IsSorted key xs → IsSorted key (reject p xs)
    reject-IsSorted [] s = tt
    reject-IsSorted (x ∷ xs) s = ground (arith, reject-Below (key x) xs, reject-IsSorted xs)

  module _ (crit : A → A → Bool) (by_key : (a l : A) → crit a l ≡ ltb (key l) (key a)) where
    insert_before-Below :
        (k : ℕ) (l : A) (xs : List A) → k ≤ key l → Below k xs → Below k (insert_before crit l xs)
    unfolding insert_before
    insert_before-Below k l [] h b = (h, tt)
    insert_before-Below k l (x ∷ xs) h b = ground (arith, insert_before-Below k l xs h)

    insert_before-IsSorted :
        (l : A) (xs : List A) → IsSorted key xs → IsSorted key (insert_before crit l xs)
    unfolding insert_before
    insert_before-IsSorted l [] s = (tt, tt)
    insert_before-IsSorted l (x ∷ xs) s = ground (
      arith,
      by_key x l,
      Below-mono (key l) (key x) xs,
      insert_before-Below (key x) l xs,
      insert_before-IsSorted l xs,
    )

    -- Where the criterion asks whether an element has a greater key than the new one, an insertion
    -- that does not fail keeps the table in ascending order of its keys.
    pub tbl_add-IsSorted :
        (t t' : Tbl A) (l : A)
        → IsSorted key t.items
        → tbl_add t l crit ≡ some t'
        → IsSorted key t'.items
    unfolding tbl_add
    tbl_add-IsSorted t t' l s e = ground (arith, insert_before-IsSorted l t.items s)
