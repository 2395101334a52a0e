-- ===== src/Opt/Written.antt =====
-- dsr-opt.c: the parser on options that are written one behind the other.
use dsr_uu.Base.{
  ℕ, zero, suc, ◌+◌, ◌-◌, ◌<◌, ◌≡◌, ap, refl, subst, true, false, ◌&&◌, List, [], ◌∷◌, ◌++◌, Option,
  some, arith, ltb, ◌==◌, length, drop, get_elem?, All, length-append, sym, ◌∙◌, Bool-cases, inl,
  inr,
}
use dsr_uu.Opt.{WalkEnd, ended, Found, opt_pad1, walk, dsr_opt_parse, find_opt, dsr_opt_find_opt}
use dsr_uu.Opt.Parse.{Keeps, places, first, dsr_opt_parse-Keeps}

-- An option by its type and what stands behind its length.
pub record Written : Type 0 where
  pub type : ℕ
  pub body : List ℕ

abbrev pub write : List Written → List ℕ
write [] = []
write (o ∷ rest) = o.type ∷ length o.body ∷ (o.body ++ write rest)

abbrev found_at : ℕ → Written → Found
found_at at o = record { type = o.type; place = at }

-- The options at their places, the first of which is given.
abbrev pub located : ℕ → List Written → List Found
located at [] = []
located at (o ∷ rest) = found_at at o ∷ located (at + length o.body + 2) rest

-- No option of one byte, and none without a body.
abbrev pub HasBody : Written → Type 0
HasBody o = ((o.type == opt_pad1) ≡ false) × (0 < length o.body)

drop_cons :
    (n : ℕ) (xs : List ℕ) (x : ℕ) (rest : List ℕ)
    → drop n xs ≡ x ∷ rest
    → (get_elem? xs n ≡ some x) × (drop (suc n) xs ≡ rest)
drop_cons zero xs x rest h = rw h (refl, refl)
drop_cons (suc n) [] x rest h = cc
drop_cons (suc n) (y ∷ ys) x rest h = drop_cons n ys x rest h

drop_body :
    (n : ℕ) (xs body rest : List ℕ) → drop n xs ≡ body ++ rest → drop (n + length body) xs ≡ rest
drop_body n xs [] rest h = subst (λ k. drop k xs ≡ rest) (omega arith) h
drop_body n xs (b ∷ body) rest h =
    let (_, next) = drop_cons n xs b (body ++ rest) h in
    subst (λ k. drop k xs ≡ rest) (omega arith) (drop_body (suc n) xs body rest next)

-- The bytes from one option on.
option_at :
    (bytes : List ℕ) (l : ℕ) (o : Written) (rest : List Written)
    → drop l bytes ≡ write (o ∷ rest)
    → (get_elem? bytes l ≡ some o.type)
      × (get_elem? bytes (l + 1) ≡ some (length o.body))
      × (drop (l + length o.body + 2) bytes ≡ write rest)
option_at bytes l o rest h =
    let (type, next) = drop_cons l bytes o.type (length o.body ∷ (o.body ++ write rest)) h in
    let (size, next') = drop_cons (suc l) bytes (length o.body) (o.body ++ write rest) next in
    (
      type,
      subst (λ k. get_elem? bytes k ≡ some (length o.body)) (omega arith) size,
      subst (λ k. drop k bytes ≡ write rest) (omega arith)
          (drop_body (suc (suc l)) bytes o.body (write rest) next'),
    )

walk-write :
    (bytes : List ℕ) (opts : List Written) (fuel l : ℕ)
    → drop l bytes ≡ write opts
    → length bytes ≡ l + length (write opts)
    → length (write opts) < fuel
    → All HasBody opts
    → walk bytes fuel l l ≡ (located l opts, ended)
unfolding walk
walk-write bytes opts zero l d n f h = absurd (omega arith)
walk-write bytes [] (suc fuel) l d n f h =
    let stop : (ltb l (length bytes) && ltb 2 (length bytes - l)) ≡ false = ground (arith, n) in
    rw (stop, walk) refl
walk-write bytes (o ∷ rest) (suc fuel) l d n f h =
    let size = length-append o.body (write rest) in
    let more : (ltb l (length bytes) && ltb 2 (length bytes - l)) ≡ true =
      ground (arith, n, size, h.0.1) in
    let (type, len, next) = option_at bytes l o rest d in
    rw
      (
        more,
        walk,
        type,
        h.0.0,
        len,
        walk-write bytes rest fuel (l + length o.body + 2) next (omega (arith, n, size))
            (omega (arith, f, size)) h.1,
      )
      refl

places_hit :
    (type : ℕ) (f : Found) (rest : List Found)
    → (f.type == type) ≡ true
    → places type (f ∷ rest) ≡ f.place ∷ places type rest
places_hit type f rest h = rw (h, places) refl

places_miss :
    (type : ℕ) (f : Found) (rest : List Found)
    → (f.type == type) ≡ false
    → places type (f ∷ rest) ≡ places type rest
places_miss type f rest h = rw (h, places) refl

find_opt-write :
    (bytes : List ℕ) (type : ℕ) (opts : List Written) (fuel l : ℕ)
    → drop l bytes ≡ write opts
    → length bytes ≡ l + length (write opts)
    → length (write opts) < fuel
    → All HasBody opts
    → find_opt bytes type fuel l ≡ (first (places type (located l opts)), ended)
unfolding find_opt
find_opt-write bytes type opts zero l d n f h = absurd (omega arith)
find_opt-write bytes type [] (suc fuel) l d n f h =
    let stop : (ltb l (length bytes) && ltb 2 (length bytes - l)) ≡ false = ground (arith, n) in
    rw (stop, find_opt) refl
find_opt-write bytes type (o ∷ rest) (suc fuel) l d n f h =
    let size = length-append o.body (write rest) in
    let more : (ltb l (length bytes) && ltb 2 (length bytes - l)) ≡ true =
      ground (arith, n, size, h.0.1) in
    let (here, len, next) = option_at bytes l o rest d in
    elim (Bool-cases (o.type == type)) [
      | inl hit ↦
          rw (more, find_opt, here, hit)
            (ap (λ ps. (first ps, ended))
              (sym (places_hit type (found_at l o) (located (l + length o.body + 2) rest) hit)))
      | inr miss ↦
          rw (more, find_opt, here, miss, len)
            (find_opt-write bytes type rest fuel (l + length o.body + 2) next
                (omega (arith, n, size)) (omega (arith, f, size)) h.1
              ∙ ap (λ ps. (first ps, ended))
                  (sym
                    (places_miss type (found_at l o) (located (l + length o.body + 2) rest) miss)))
    ]

-- Options with a body, none of them of the type of PAD1, that are written one behind the other after a
-- header of 4 bytes: the parser comes to all of them and to nothing else, and its loop ends by its
-- condition. By their places it keeps the first ten route replies, route errors and acknowledgements,
-- each in order, the first source route and the first request for an acknowledgement; the result is
-- the number of the options. `dsr_opt_find_opt` finds the first option of any type, or none where there
-- is none.
pub dsr_opt_parse-write :
    (header : List ℕ) (opts : List Written) (rreq_opt : Option ℕ)
    → length header ≡ 4
    → All HasBody opts
    → Keeps (located 4 opts) (dsr_opt_parse (header ++ write opts) rreq_opt)
      × ((dsr_opt_parse (header ++ write opts) rreq_opt).2 ≡ ended)
      × ((type : ℕ)
          → dsr_opt_find_opt (header ++ write opts) type
            ≡ (first (places type (located 4 opts)), ended))
unfolding dsr_opt_parse dsr_opt_find_opt
dsr_opt_parse-write header opts rreq_opt four h =
    let bytes = header ++ write opts in
    let size = length-append header (write opts) in
    let four' : 0 + length header ≡ 4 = omega (arith, four) in
    let start : drop 4 bytes ≡ write opts =
      subst (λ k. drop k bytes ≡ write opts) four' (drop_body 0 bytes header (write opts) refl) in
    let sum : length bytes ≡ 4 + length (write opts) = omega (arith, size, four) in
    let all : walk bytes (length bytes) 4 4 ≡ (located 4 opts, ended) =
      walk-write bytes opts (length bytes) 4 start sum (omega (arith, sum)) h in
    (
      subst (λ (r : List Found × WalkEnd). Keeps r.0 (dsr_opt_parse bytes rreq_opt)) all
          (dsr_opt_parse-Keeps bytes rreq_opt (omega (arith, sum))),
      ap (λ (r : List Found × WalkEnd). r.1) all,
      λ type. find_opt-write bytes type opts (length bytes) 4 start sum (omega (arith, sum)) h,
    )
