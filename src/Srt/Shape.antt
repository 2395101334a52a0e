-- ===== src/Srt/Shape.antt =====
-- dsr-srt.c: reversing, splitting and joining source routes, on their nodes.
use mathlib.Core.List.{reverse-cons, reverse-append, append_assoc}
use dsr_uu.Base.{
  ℕ, zero, suc, ◌+◌, ◌-◌, ◌*◌, ◌<◌, ◌≡◌, ◌≢◌, ◌∙◌, ap, refl, List, [], ◌∷◌, ◌++◌, Option, none,
  some, arith, length, get_or, take, drop, reverse, All, length-append, length-reverse, length-take,
  take_all, inl, inr, ◌==◌, Bool-cases, Option-cases, u32_mod,
}
use dsr_uu.Srt.{
  Srt, Garbage, addr_count, rev_addrs, dsr_srt_new_rev, addr_index, split_at, dsr_srt_new_split,
  dsr_srt_concatenate,
}
use dsr_uu.Srt.Route.{nodes, IsSrt}

take-suc :
    (k : ℕ) (xs : List ℕ) → k < length xs → take (suc k) xs ≡ take k xs ++ (get_or xs k 0 ∷ [])
take-suc k [] h = elim h [ ]
take-suc zero (x ∷ xs) h = refl
take-suc (suc k) (x ∷ xs) h = ap (◌∷◌ x) (take-suc k xs (omega arith))

-- The loop reads the array backwards: the first `k` elements come out in reverse.
rev_addrs-take :
    (k i : ℕ) (xs : List ℕ) → k + i ≡ length xs → rev_addrs k i (length xs) xs ≡ reverse (take k xs)
unfolding rev_addrs
rev_addrs-take zero i xs e = refl
rev_addrs-take (suc k) i xs e =
    let at : length xs - 1 - i ≡ k = omega arith in
    rw (
      at,
      rev_addrs-take k (i + 1) xs (omega arith),
      take-suc k xs (omega arith),
      reverse-append (take k xs) (get_or xs k 0 ∷ []),
    )

reverse-nodes : (a b : ℕ) (xs : List ℕ) → reverse (a ∷ (xs ++ b ∷ [])) ≡ b ∷ (reverse xs ++ a ∷ [])
reverse-nodes a b xs = simp (reverse-cons, reverse-append)

-- The reverse of a route whose array has the length that `laddrs` says, when its block is given, is
-- such a route too, and visits the same nodes in the opposite order.
pub dsr_srt_new_rev-nodes :
    (m : Garbage) (srt : Srt)
    → IsSrt srt
    → (rev : Srt) × (dsr_srt_new_rev (some m) (some srt) ≡ some rev)
      × (nodes rev ≡ reverse (nodes srt))
      × IsSrt rev
unfolding dsr_srt_new_rev
dsr_srt_new_rev-nodes m srt v =
    let same : rev_addrs (addr_count srt) 0 (addr_count srt) srt.addrs ≡ reverse srt.addrs =
      rw v.sized (
        rev_addrs-take (length srt.addrs) 0 srt.addrs (omega arith)
        ∙ ap reverse (take_all (length srt.addrs) srt.addrs (omega arith))) in
    (
      _,
      refl,
      rw (same, reverse-nodes srt.src srt.dst srt.addrs),
      record {
        sized = rw same (omega (arith, length-reverse srt.addrs, v.sized));
        is_word = v.is_word;
      },
    )

-- The search of the split finds the first address that equals the given one.
addr_index-split :
    (a : ℕ) (xs : List ℕ) (i k : ℕ)
    → addr_index a xs i ≡ some k
    → (j : ℕ) × (k ≡ i + j)
      × (j < length xs)
      × (get_or xs j 0 ≡ a)
      × All (λ x. x ≢ a) (take j xs)
      × (xs ≡ take j xs ++ a ∷ drop (suc j) xs)
unfolding addr_index
addr_index-split a [] i k h = cc
addr_index-split a (x ∷ xs) i k h = elim (Bool-cases (a == x)) [
  | inl hit ↦ (0, ground arith, omega arith, ground arith, tt, ground arith)
  | inr miss ↦
      let (j, at, inside, here, before, whole) = addr_index-split a xs (i + 1) k (ground arith) in
      (suc j, omega arith, omega arith, here, (λ e. ground arith, before), ap (◌∷◌ x) whole)
]

addr_index-none : (a : ℕ) (xs : List ℕ) (i : ℕ) → addr_index a xs i ≡ none → All (λ x. x ≢ a) xs
unfolding addr_index
addr_index-none a [] i h = tt
addr_index-none a (x ∷ xs) i h = elim (Bool-cases (a == x)) [
  | inl hit ↦ absurd (ground arith)
  | inr miss ↦ (λ e. ground arith, addr_index-none a xs (i + 1) (ground arith))
]

All-of_empty : (P : ℕ → Type 0) (xs : List ℕ) → length xs ≡ 0 → All P xs
All-of_empty P [] h = tt
All-of_empty P (x ∷ xs) h = absurd (omega arith)

-- The outcomes of a split: no address of the route is the given one, or the new route is the part
-- of the old one up to the first such address.
abbrev pub SplitResult : Srt → ℕ → Option Srt → Type 0
SplitResult srt addr none = All (λ x. x ≢ addr) srt.addrs
SplitResult srt addr (some split) =
    (behind : List ℕ) × (srt.addrs ≡ split.addrs ++ addr ∷ behind)
    × (nodes srt ≡ nodes split ++ (behind ++ srt.dst ∷ []))
    × (split.src ≡ srt.src)
    × (split.dst ≡ addr)
    × All (λ x. x ≢ addr) split.addrs
    × IsSrt split

-- Where memory suffices and the array has the length that `laddrs` says, a split cuts the route behind the first address that equals the given
-- one, and gives no route exactly when there is none.
pub dsr_srt_new_split_lem :
    (m : Garbage) (srt : Srt) (addr : ℕ)
    → IsSrt srt
    → SplitResult srt addr (dsr_srt_new_split (some m) (some srt) addr)
unfolding dsr_srt_new_split
dsr_srt_new_split_lem m srt addr v = elim (Bool-cases (addr_count srt == 0)) [
  | inl e ↦ rw e (All-of_empty _ srt.addrs (ground (arith, v.sized)))
  | inr more ↦ elim (Option-cases (addr_index addr srt.addrs 0)) [
    | inl e ↦ rw (more, e) (addr_index-none addr srt.addrs 0 e)
    | inr (k, e) ↦ rw (more, e) (split_at_lem k e)
  ]
]
  where
    split_at_lem :
        (k : ℕ)
        → addr_index addr srt.addrs 0 ≡ some k
        → SplitResult srt addr (split_at (some m) srt k)
    split_at_lem k e =
        let (j, at, inside, here, before, whole) = addr_index-split addr srt.addrs 0 k e in
        let same : k ≡ j = omega arith in
        rw (same, here)
          (
            drop (suc j) srt.addrs,
            whole,
            ap (λ xs. srt.src ∷ (xs ++ srt.dst ∷ [])) whole ∙ simp append_assoc,
            refl,
            refl,
            before,
            record {
              sized = omega (arith, length-take j srt.addrs);
              is_word = omega (arith, v.sized, v.is_word);
            },
          )

-- Where memory suffices, two routes whose arrays have the lengths that `laddrs` says, of which the
-- first ends where the second begins, and which are together short enough for `laddrs`, join to one
-- that visits the nodes of the first and then those of the second behind its source.
pub dsr_srt_concatenate-nodes :
    (m : Garbage) (s1 s2 : Srt)
    → IsSrt s1
    → IsSrt s2
    → s1.dst ≡ s2.src
    → 4 * (addr_count s1 + addr_count s2 + 1) < u32_mod
    → (cat : Srt) × (dsr_srt_concatenate (some m) (some s1) (some s2) ≡ some cat)
      × (nodes cat ≡ nodes s1 ++ (s2.addrs ++ s2.dst ∷ []))
      × IsSrt cat
unfolding dsr_srt_concatenate
dsr_srt_concatenate-nodes m s1 s2 v1 v2 e h =
    let all1 : take (addr_count s1) s1.addrs ≡ s1.addrs =
      take_all (addr_count s1) s1.addrs (omega (arith, v1.sized)) in
    let all2 : take (addr_count s2) s2.addrs ≡ s2.addrs =
      take_all (addr_count s2) s2.addrs (omega (arith, v2.sized)) in
    (
      _,
      refl,
      simp (all1, all2, e, append_assoc),
      record {
        sized =
            rw (all1, all2)
              (omega (arith, length-append s1.addrs (s2.src ∷ s2.addrs), v1.sized, v2.sized));
        is_word = omega arith;
      },
    )
