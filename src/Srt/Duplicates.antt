-- ===== src/Srt/Duplicates.antt =====
-- dsr-srt.c: the check for a node that a source route visits twice.
use mathlib.Core.List.{append_assoc}
use dsr_uu.Base.{ℕ, ◌≡◌, ◌≢◌, ◌↔◌, sym, refl, List, [], ◌∷◌, ◌++◌, some, arith, All, false, some}
use dsr_uu.Srt.{Srt, Garbage, occurs, duplicate_from, dsr_srt_check_duplicate}
use dsr_uu.Srt.Route.{nodes}

-- No number stands in the list twice.
abbrev pub Distinct : List ℕ → Type 0
Distinct [] = Unit
Distinct (x ∷ xs) = All (λ y. y ≢ x) xs × Distinct xs

pub occurs-false : (a : ℕ) (xs : List ℕ) → (occurs a xs ≡ false) ↔ All (λ y. y ≢ a) xs
unfolding occurs
occurs-false a [] = (λ _. tt, λ _. refl)
occurs-false a (x ∷ xs) = ground (arith, occurs-false a xs)

All-append : (P : ℕ → Type 0) (xs ys : List ℕ) → All P (xs ++ ys) ↔ (All P xs × All P ys)
All-append P [] ys = (λ h. (tt, h), λ h. h.1)
All-append P (x ∷ xs) ys = ground (arith, All-append P xs ys)

pub Distinct-snoc :
    (xs : List ℕ) (a : ℕ) → Distinct (xs ++ a ∷ []) ↔ (Distinct xs × All (λ y. y ≢ a) xs)
Distinct-snoc [] a = (λ _. (tt, tt), λ _. (tt, tt))
Distinct-snoc (x ∷ xs) a = ground (arith, Distinct-snoc xs a, All-append (λ y. y ≢ x) xs (a ∷ []))

Distinct-append_left : (xs ys : List ℕ) → Distinct (xs ++ ys) → Distinct xs
Distinct-append_left [] ys d = tt
Distinct-append_left (x ∷ xs) ys d =
    (((All-append (λ y. y ≢ x) xs ys).0 d.0).0, Distinct-append_left xs ys d.1)

duplicate_from-false :
    (buf xs : List ℕ) (dst : ℕ)
    → Distinct buf
    → (duplicate_from buf xs dst ≡ false) ↔ Distinct (buf ++ (xs ++ dst ∷ []))
unfolding duplicate_from
duplicate_from-false buf [] dst d = ground (arith, occurs-false dst buf, Distinct-snoc buf dst)
duplicate_from-false buf (a ∷ rest) dst d =
    let tail : List ℕ = rest ++ dst ∷ [] in
    rw (sym (append_assoc buf (a ∷ []) tail)) (
      ground (
        arith,
        occurs-false a buf,
        Distinct-snoc buf a,
        Distinct-append_left (buf ++ a ∷ []) tail,
        duplicate_from-false (buf ++ a ∷ []) rest dst,
      ))

-- Where memory suffices, the check tells exactly whether all nodes of the route, its ends included,
-- are different.
pub dsr_srt_check_duplicate_lem :
    (m : Garbage) (srt : Srt)
    → (dsr_srt_check_duplicate (some m) srt ≡ some false) ↔ Distinct (nodes srt)
unfolding dsr_srt_check_duplicate
dsr_srt_check_duplicate_lem m srt =
    ground (arith, duplicate_from-false (srt.src ∷ []) srt.addrs srt.dst (tt, tt))
