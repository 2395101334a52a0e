-- ===== src/Srt/Shortcut.antt =====
-- dsr-srt.c: the shortcut of a source route between two of its nodes.
use mathlib.Core.List.{append_assoc}
use native.Mathlib.Numerals.{add-one}
use dsr_uu.Base.{
  ◌%◌, ℕ, zero, suc, ◌+◌, ◌-◌, ◌*◌, ◌≤◌, ◌<◌, ◌≡◌, ◌≢◌, ◌⊎◌, subst, sym, ap, refl, List, [], ◌∷◌,
  ◌++◌, some, arith, length, get_elem?, take, drop, All, ◌==◌, if◌then◌else◌, inl, inr, ◌==◌,
  Bool-cases, u32_mod,
}
use dsr_uu.Srt.{
  Srt, Garbage, addr_count, last_place, cut_between, first_place, second_place, dsr_srt_shortcut,
}
use dsr_uu.Srt.Route.{nodes, IsSrt}
use dsr_uu.Srt.Duplicates.{Distinct, Distinct-snoc}

-- An element that does not occur leaves the place as it was.
last_place-none :
    (a : ℕ) (xs : List ℕ) (i place : ℕ) → All (λ y. y ≢ a) xs → last_place a xs i place ≡ place
unfolding last_place
last_place-none a [] i place h = refl
last_place-none a (x ∷ xs) i place h = ground (arith, last_place-none a xs (i + 1) place)

-- In a list without repetitions the last place is the only one.
last_place-at :
    (a : ℕ) (xs : List ℕ) (i j place : ℕ)
    → Distinct xs
    → get_elem? xs j ≡ some a
    → last_place a xs i place ≡ i + j + 2
unfolding last_place
last_place-at a [] i j place d h = cc
last_place-at a (x ∷ xs) i zero place d h = ground (arith, last_place-none x xs (i + 1) (i + 2))
last_place-at a (x ∷ xs) i (suc j) place d h =
    ground (arith, last_place-at a xs (i + 1) j (if x == a then i + 2 else place))

take_nil : (n : ℕ) → take {A = ℕ} n [] ≡ []
take_nil zero = refl
take_nil (suc n) = refl

drop_nil : (n : ℕ) → drop {A = ℕ} n [] ≡ []
drop_nil zero = refl
drop_nil (suc n) = refl

module _ (p1 p2 : ℕ) (h : p1 < p2) where
  -- The copy keeps what stands up to the first place and from the second place on.
  cut_between_lem :
      (xs : List ℕ) (i t d : ℕ)
      → t ≡ p1 - (i + 1)
      → d ≡ p2 - (i + 2)
      → cut_between p1 p2 xs i ≡ take t xs ++ drop d xs
  unfolding cut_between
  cut_between_lem [] i t d et ed = rw (take_nil t, drop_nil d)
  cut_between_lem (x ∷ xs) i zero zero et ed = ground (arith, cut_between_lem xs (i + 1) 0 0)
  cut_between_lem (x ∷ xs) i zero (suc d) et ed = ground (arith, cut_between_lem xs (i + 1) 0 d)
  cut_between_lem (x ∷ xs) i (suc t) zero et ed = absurd (omega arith)
  cut_between_lem (x ∷ xs) i (suc t) (suc d) et ed = ground (arith, cut_between_lem xs (i + 1) t d)

take-append_left : (xs ys : List ℕ) (i : ℕ) → i ≤ length xs → take i (xs ++ ys) ≡ take i xs
take-append_left xs ys zero h = refl
take-append_left [] ys (suc i) h = elim h [ ]
take-append_left (x ∷ xs) ys (suc i) h = ap (◌∷◌ x) (take-append_left xs ys i (omega arith))

drop-append_left : (xs ys : List ℕ) (i : ℕ) → i ≤ length xs → drop i (xs ++ ys) ≡ drop i xs ++ ys
drop-append_left xs ys zero h = refl
drop-append_left [] ys (suc i) h = elim h [ ]
drop-append_left (x ∷ xs) ys (suc i) h = drop-append_left xs ys i (omega arith)

length-take-drop :
    (xs : List ℕ) (i j : ℕ)
    → i ≤ j
    → j ≤ length xs
    → length (take i xs ++ drop j xs) + j ≡ length xs + i
length-take-drop xs zero zero h k = omega arith
length-take-drop [] zero (suc j) h k = elim k [ ]
length-take-drop (x ∷ xs) zero (suc j) h k =
    omega (arith, length-take-drop xs zero j (omega arith) (omega arith))
length-take-drop xs (suc i) zero h k = elim h [ ]
length-take-drop [] (suc i) (suc j) h k = elim k [ ]
length-take-drop (x ∷ xs) (suc i) (suc j) h k =
    omega (arith, length-take-drop xs i j (omega arith) (omega arith))

-- The element at a place behind the inner list is the last one.
get_elem?-snoc :
    (xs : List ℕ) (b a i : ℕ)
    → get_elem? (xs ++ b ∷ []) i ≡ some a
    → ((i < length xs) × (get_elem? xs i ≡ some a)) ⊎ ((i ≡ length xs) × (b ≡ a))
get_elem?-snoc [] b a zero h = inr (refl, ground arith)
get_elem?-snoc [] b a (suc i) h = cc
get_elem?-snoc (x ∷ xs) b a zero h = inl (omega arith, h)
get_elem?-snoc (x ∷ xs) b a (suc i) h = elim (get_elem?-snoc xs b a i h) [
  | inl (p, q) ↦ inl (omega arith, q)
  | inr (p, q) ↦ inr (omega arith, q)
]

All-get_elem? : (P : ℕ → Type 0) (xs : List ℕ) (i a : ℕ) → All P xs → get_elem? xs i ≡ some a → P a
All-get_elem? P [] i a d h = absurd (ground arith)
All-get_elem? P (x ∷ xs) zero a d h = subst P (ground arith) d.0
All-get_elem? P (x ∷ xs) (suc i) a d h = All-get_elem? P xs i a d.1 h

Distinct-snoc_left :
    (xs : List ℕ) (b : ℕ) → Distinct (xs ++ b ∷ []) → Distinct xs × All (λ y. y ≢ b) xs
Distinct-snoc_left xs b d = (Distinct-snoc xs b).0 d

All-snoc : (P : ℕ → Type 0) (xs : List ℕ) (b : ℕ) → All P (xs ++ b ∷ []) → All P xs × P b
All-snoc P [] b h = (tt, h.0)
All-snoc P (x ∷ xs) b h = let (l, r) = All-snoc P xs b h.1 in ((h.0, l), r)

nil_of_length : (xs : List ℕ) → length xs ≡ 0 → xs ≡ []
nil_of_length [] h = refl
nil_of_length (x ∷ xs) h = absurd (omega arith)

module _ (srt : Srt) (v : IsSrt srt) (d : Distinct (nodes srt)) where
  first_place-at :
      (a i : ℕ)
      → i ≤ length srt.addrs
      → get_elem? (nodes srt) i ≡ some a
      → first_place srt a ≡ i + 1
  unfolding first_place
  first_place-at a zero le h =
      let absent : All (λ y. y ≢ srt.src) srt.addrs = (All-snoc _ srt.addrs srt.dst d.0).0 in
      ground (arith, last_place-none srt.src srt.addrs 0 1 absent)
  first_place-at a (suc i) le h = elim (get_elem?-snoc srt.addrs srt.dst a i h) [
    | inl (inside, at) ↦ omega (
      arith,
      last_place-at a srt.addrs 0 i (if srt.src == a then 1 else 0)
          (Distinct-snoc_left srt.addrs srt.dst d.1).0 at,
    )
    | inr (end, _) ↦ absurd (omega arith)
  ]

  second_place-at :
      (a j : ℕ) → get_elem? (nodes srt) (suc j) ≡ some a → second_place srt a ≡ suc j + 1
  unfolding second_place
  second_place-at a j h = elim (get_elem?-snoc srt.addrs srt.dst a j h) [
    | inl (inside, at) ↦
        let (apart, not_dst) = Distinct-snoc_left srt.addrs srt.dst d.1 in
        let differs : a ≢ srt.dst = All-get_elem? (λ y. y ≢ srt.dst) srt.addrs j a not_dst at in
        ground (arith, last_place-at a srt.addrs 0 j 0 apart at)
    | inr (end, same) ↦ ground (arith, v.sized)
  ]

  place-le : (a j : ℕ) → get_elem? (nodes srt) (suc j) ≡ some a → j ≤ length srt.addrs
  place-le a j h = elim (get_elem?-snoc srt.addrs srt.dst a j h) [
    | inl (inside, _) ↦ omega arith
    | inr (end, _) ↦ omega arith
  ]

  -- What the copying loop makes of the array, also where it is skipped.
  copied :
      (i j len : ℕ)
      → i ≤ j
      → j ≤ length srt.addrs
      → len ≡ 4 * (length srt.addrs + i - j)
      → (if len == 0 then [] else cut_between (i + 1) (suc j + 1) srt.addrs 0)
        ≡ take i srt.addrs ++ drop j srt.addrs
  copied i j len h k e = elim (Bool-cases (len == 0)) [
    | inl zero_len ↦
        rw zero_len (sym (nil_of_length _ (ground (arith, length-take-drop srt.addrs i j))))
    | inr more ↦ rw more (
        cut_between_lem (i + 1) (suc j + 1) (omega arith) srt.addrs 0 i j (omega arith)
          (omega arith))
  ]

  -- Between two nodes of a route without repetitions, in their order, whose array has the length
  -- that `laddrs` says, the shortcut leaves out exactly the nodes that stand between them, where
  -- memory suffices.
  pub dsr_srt_shortcut-nodes :
      (m : Garbage) (a1 a2 i j : ℕ)
      → i < j
      → get_elem? (nodes srt) i ≡ some a1
      → get_elem? (nodes srt) j ≡ some a2
      → (cut : Srt) × (dsr_srt_shortcut (some m) (some srt) a1 a2 ≡ some cut)
        × (nodes cut ≡ take (i + 1) (nodes srt) ++ drop j (nodes srt))
        × IsSrt cut
  dsr_srt_shortcut-nodes m a1 a2 i zero lt h1 h2 = elim lt [ ]
  dsr_srt_shortcut-nodes m a1 a2 i (suc j) lt h1 h2 =
      let end : j ≤ length srt.addrs = place-le a2 j h2 in
      let p1 : first_place srt a1 ≡ i + 1 = first_place-at a1 i (omega arith) h1 in
      let p2 : second_place srt a2 ≡ suc j + 1 = second_place-at a2 j h2 in
      let len : ℕ = (4 * (addr_count srt + 1 + (i + 1) + u32_mod - (suc j + 1))) % u32_mod in
      let short : len ≡ 4 * (length srt.addrs + i - j) = omega (arith, v.sized, v.is_word) in
      let kept = copied i j len (omega arith) end short in
      (
        record {
          src = srt.src;
          dst = srt.dst;
          flags = m.flags;
          index = m.index;
          laddrs = len;
          addrs = take i srt.addrs ++ drop j srt.addrs;
        },
        unfold dsr_srt_shortcut in rw (p1, p2, kept),
        rw
            (
              add-one,
              take-append_left srt.addrs (srt.dst ∷ []) i (omega arith),
              drop-append_left srt.addrs (srt.dst ∷ []) j end,
            )
            (ap (◌∷◌ srt.src) (append_assoc (take i srt.addrs) (drop j srt.addrs) (srt.dst ∷ []))),
        record {
          sized = omega (arith, short, length-take-drop srt.addrs i j (omega arith) end);
          is_word = omega arith;
        },
      )
