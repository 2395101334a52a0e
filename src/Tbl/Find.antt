-- ===== src/Tbl/Find.antt =====
-- tbl.h: what a search finds, and what it leaves.
use dsr_uu.Base.{
  ◌≡◌, refl, Bool, true, false, List, [], ◌∷◌, ◌++◌, Option, none, some, inl, inr, arith, All,
  Bool-cases, Option-cases, decr32,
}
use dsr_uu.Tbl.{Tbl, tbl_find, tbl_detach, find_first, remove_first, tbl_find_detach}

module _ {ℓ} {A : Type ℓ} (crit : A → Bool) where
  -- The first match, with what stands before and behind it.
  abbrev pub FirstMatch : List A → A → List A → List A → Type ℓ
  FirstMatch xs e before behind =
      (xs ≡ before ++ e ∷ behind) × (crit e ≡ true) × All (λ x. crit x ≡ false) before

  pub find_first-split :
      (xs : List A) (e : A)
      → find_first crit xs ≡ some e
      → (before behind : List A) × FirstMatch xs e before behind
        × (remove_first crit xs ≡ before ++ behind)
  unfolding find_first remove_first
  find_first-split [] e h = cc
  find_first-split (x ∷ xs) e h = elim (Bool-cases (crit x)) [
    | inl hit ↦ ([], xs, (ground arith, ground arith, tt), ground arith)
    | inr miss ↦
        let (before, behind, (at, here, none_before), left) =
          find_first-split xs e (ground arith) in
        (x ∷ before, behind, (ground arith, here, (miss, none_before)), ground arith)
  ]

  -- `__tbl_find_detach` fails exactly when no element meets the criterion.
  pub find_first-none : (xs : List A) → find_first crit xs ≡ none → All (λ x. crit x ≡ false) xs
  unfolding find_first
  find_first-none [] h = tt
  find_first-none (x ∷ xs) h = elim (Bool-cases (crit x)) [
    | inl hit ↦ absurd (ground arith)
    | inr miss ↦ (miss, find_first-none xs (ground arith))
  ]

module _ {A : Type 0} (crit : A → Bool) where
  pub find_detach_none :
      (t : Tbl A) → find_first crit t.items ≡ none → tbl_find_detach t crit ≡ none
  unfolding tbl_find_detach tbl_find
  find_detach_none t n = rw (n, tbl_find_detach, tbl_find) refl

  -- To find and detach an element is to detach the one found.
  pub find_detach_some :
      (t : Tbl A) (e : A)
      → find_first crit t.items ≡ some e
      → tbl_find_detach t crit ≡ some (e, tbl_detach t crit)
  unfolding tbl_find_detach tbl_find tbl_detach
  find_detach_some t e y = ground (arith, y)

  abbrev DetachResult : Tbl A → Option (A × Tbl A) → Type 0
  DetachResult t none = All (λ x. crit x ≡ false) t.items
  DetachResult t (some (e, t')) =
      (before behind : List A) × FirstMatch crit t.items e before behind
      × (t'.items ≡ before ++ behind)
      × (t'.len ≡ decr32 t.len)
      × (t'.max_len ≡ t.max_len)

  -- `__tbl_find_detach` takes out the first match and keeps the others in order; it fails only
  -- when nothing matches.
  tbl_find_detach_lem : (t : Tbl A) → DetachResult t (tbl_find_detach t crit)
  unfolding tbl_find_detach
  tbl_find_detach_lem t = elim (Option-cases (find_first crit t.items)) [
    | inl e ↦ rw (e, tbl_find_detach) (find_first-none crit t.items e)
    | inr (a, e) ↦
        rw (e, tbl_find_detach)
          (let (before, behind, found, left) = find_first-split crit t.items a e in
            (before, behind, found, left, refl, refl))
  ]
