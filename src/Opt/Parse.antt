-- ===== src/Opt/Parse.antt =====
-- dsr-opt.c: the walk ends, and what `dsr_opt_parse` keeps of the options that it comes to.
use mathlib.Core.List.{append-nil, append_assoc}
use dsr_uu.Base.{
  ℕ, zero, suc, ◌+◌, ◌-◌, ◌≤◌, ◌<◌, ◌≡◌, ◌≢◌, ◌∙◌, sym, ap, refl, true, false, ◌&&◌, List, [], ◌∷◌,
  ◌++◌, Option, none, some, inl, inr, arith, ltb, ◌==◌, length, take, take_all, get_elem?,
  Bool-cases, Option-cases, length-append,
}
use dsr_uu.Opt.{
  WalkEnd, no_fuel, Found, opt_pad1, walk, Parsed, max_opts, add_opt, parse_one, parse_all,
  dsr_opt_parse,
}

-- The places of the options of one type.
abbrev pub places : ℕ → List Found → List ℕ
places t [] = []
places t (f ∷ rest) = elim (f.type == t) [ true ↦ f.place ∷ places t rest | false ↦ places t rest ]

abbrev pub first : List ℕ → Option ℕ
first [] = none
first (x ∷ xs) = some x

abbrev add_all : List ℕ → List ℕ → List ℕ
add_all xs [] = xs
add_all xs (y ∷ ys) = add_all (add_opt xs y) ys

walk_fuel :
    (bytes : List ℕ) (fuel l dopt : ℕ)
    → length bytes < l + fuel
    → 0 < fuel
    → (walk bytes fuel l dopt).1 ≢ no_fuel
unfolding walk
walk_fuel bytes zero l dopt h p = absurd (omega arith)
walk_fuel bytes (suc fuel) l dopt h p =
    elim (Bool-cases (ltb l (length bytes) && ltb 2 (length bytes - l))) [
      | inr stop ↦ rw (stop, walk) (λ e. cc)
      | inl more ↦
          let far : l + 2 < length bytes = ground (arith, more) in
          elim (Option-cases (get_elem? bytes dopt)) [
            | inl n ↦ rw (more, walk, n) (λ e. cc)
            | inr (t, y) ↦ elim (Bool-cases (t == opt_pad1)) [
              | inl pad ↦
                  rw (more, walk, y, pad)
                    (walk_fuel bytes fuel (l + 1) (dopt + 2) (omega arith) (omega arith))
              | inr opt ↦ elim (Option-cases (get_elem? bytes (dopt + 1))) [
                | inl n ↦ rw (more, walk, y, opt, n) (λ e. cc)
                | inr (len, y') ↦
                    rw (more, walk, y, opt, y')
                      (walk_fuel bytes fuel (l + len + 2) (dopt + len + 2) (omega arith)
                        (omega arith))
              ]
            ]
          ]
    ]

take_append : (n : ℕ) (xs ys : List ℕ) → n ≤ length xs → take n (xs ++ ys) ≡ take n xs
take_append zero xs ys h = refl
take_append (suc n) [] ys h = absurd (omega arith)
take_append (suc n) (x ∷ xs) ys h = ap (◌∷◌ x) (take_append n xs ys (omega arith))

add_all-take : (xs ys : List ℕ) → length xs ≤ max_opts → add_all xs ys ≡ take max_opts (xs ++ ys)
unfolding add_opt
add_all-take xs [] h = rw (append-nil xs) (sym (take_all max_opts xs h))
add_all-take xs (y ∷ ys) h = elim (Bool-cases (ltb (length xs) max_opts)) [
  | inl more ↦
      let low : length (xs ++ y ∷ []) ≤ max_opts =
        ground (arith, length-append xs (y ∷ []), more) in
      rw more
        (add_all-take (xs ++ y ∷ []) ys low ∙ ap (take max_opts) (append_assoc xs (y ∷ []) ys))
  | inr full ↦
      let size : max_opts ≤ length xs = ground (arith, full) in
      rw full (
        add_all-take xs ys h
        ∙ take_append max_opts xs ys size
        ∙ sym (take_append max_opts xs (y ∷ ys) size))
]

rrep-add_all :
    (p : Parsed) (fs : List Found) → (parse_all p fs).rrep_opt ≡ add_all p.rrep_opt (places 1 fs)
unfolding parse_all parse_one
rrep-add_all p [] = refl
rrep-add_all p (f ∷ fs) = ground (arith, rrep-add_all (parse_one p f) fs)

rerr-add_all :
    (p : Parsed) (fs : List Found) → (parse_all p fs).rerr_opt ≡ add_all p.rerr_opt (places 3 fs)
unfolding parse_all parse_one
rerr-add_all p [] = refl
rerr-add_all p (f ∷ fs) = ground (arith, rerr-add_all (parse_one p f) fs)

ack-add_all :
    (p : Parsed) (fs : List Found) → (parse_all p fs).ack_opt ≡ add_all p.ack_opt (places 32 fs)
unfolding parse_all parse_one
ack-add_all p [] = refl
ack-add_all p (f ∷ fs) = ground (arith, ack-add_all (parse_one p f) fs)

abbrev or_else : Option ℕ → Option ℕ → Option ℕ
or_else none b = b
or_else (some a) b = some a

srt-or_else :
    (p : Parsed) (fs : List Found)
    → (parse_all p fs).srt_opt ≡ or_else p.srt_opt (first (places 96 fs))
unfolding parse_all parse_one
srt-or_else p [] = ground arith
srt-or_else p (f ∷ fs) = ground (arith, srt-or_else (parse_one p f) fs)

ack_req-or_else :
    (p : Parsed) (fs : List Found)
    → (parse_all p fs).ack_req_opt ≡ or_else p.ack_req_opt (first (places 160 fs))
unfolding parse_all parse_one
ack_req-or_else p [] = ground arith
ack_req-or_else p (f ∷ fs) = ground (arith, ack_req-or_else (parse_one p f) fs)

-- What is kept of the options that the walk comes to.
abbrev pub Keeps : List Found → Parsed × ℕ × WalkEnd → Type 0
Keeps fs (p, n, end) =
    (p.rrep_opt ≡ take max_opts (places 1 fs))
    × (p.rerr_opt ≡ take max_opts (places 3 fs))
    × (p.ack_opt ≡ take max_opts (places 32 fs))
    × (p.srt_opt ≡ first (places 96 fs))
    × (p.ack_req_opt ≡ first (places 160 fs))
    × (n ≡ length fs)
    × (end ≢ no_fuel)

-- On a space that is not empty: with as much fuel as it has bytes the walk ends, by its condition or
-- by a read outside, and of the options that it comes to the parser keeps the first ten route
-- replies, route errors and acknowledgements, each in order, the first source route and the first
-- request for an acknowledgement; the result is the number of all.
pub dsr_opt_parse-Keeps :
    (bytes : List ℕ) (rreq_opt : Option ℕ)
    → 0 < length bytes
    → Keeps (walk bytes (length bytes) 4 4).0 (dsr_opt_parse bytes rreq_opt)
unfolding dsr_opt_parse
dsr_opt_parse-Keeps bytes rreq_opt h =
    let fs = (walk bytes (length bytes) 4 4).0 in
    let p : Parsed = record {
      rreq_opt = rreq_opt;
      rrep_opt = [];
      rerr_opt = [];
      ack_opt = [];
      srt_opt = none;
      ack_req_opt = none;
    } in
    (
      rrep-add_all p fs ∙ add_all-take [] (places 1 fs) (omega arith),
      rerr-add_all p fs ∙ add_all-take [] (places 3 fs) (omega arith),
      ack-add_all p fs ∙ add_all-take [] (places 32 fs) (omega arith),
      srt-or_else p fs,
      ack_req-or_else p fs,
      refl,
      walk_fuel bytes (length bytes) 4 4 (omega arith) h,
    )
