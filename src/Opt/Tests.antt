-- ===== src/Opt/Tests.antt =====
-- dsr-opt.c: the theorem at concrete options.
use dsr_uu.Base.{ℕ, ◌≡◌, refl, List, [], ◌∷◌, ◌++◌, none, some, arith}
use dsr_uu.Opt.Written.{Written, write, located, dsr_opt_parse-write}
use dsr_uu.Opt.{ended, walk, dsr_opt_parse, dsr_opt_find_opt}
use dsr_uu.Opt.Parse.{Keeps, places, first, dsr_opt_parse-Keeps}

-- A header, a source route of one address, a request for an acknowledgement and a route error.
abbrev bytes : List ℕ
bytes =
    0 ∷ 0 ∷ 0 ∷ 28 ∷ 96 ∷ 6 ∷ 0 ∷ 1 ∷ 10 ∷ 0 ∷ 0 ∷ 1 ∷ 160 ∷ 2 ∷ 0 ∷ 7 ∷ 3 ∷ 14 ∷ 1 ∷ 0 ∷ 0 ∷ 0 ∷ 0
    ∷ 0 ∷ 0 ∷ 0 ∷ 0 ∷ 0 ∷ 0 ∷ 0 ∷ 0 ∷ 0 ∷ []

three_options : dsr_opt_parse bytes none ≡ (
  record {
    rreq_opt = none;
    rrep_opt = [];
    rerr_opt = 16 ∷ [];
    ack_opt = [];
    srt_opt = some 4;
    ack_req_opt = some 12;
  },
  3,
  ended,
)
unfolding dsr_opt_parse
three_options = refl

dsr_opt_parse-Keeps_example : Keeps (walk bytes 32 4 4).0 (dsr_opt_parse bytes none)
dsr_opt_parse-Keeps_example = dsr_opt_parse-Keeps bytes none (omega arith)

-- The same options, as they are written.
abbrev header : List ℕ
header = 0 ∷ 0 ∷ 0 ∷ 28 ∷ []

abbrev opts : List Written
opts =
    record { type = 96; body = 0 ∷ 1 ∷ 10 ∷ 0 ∷ 0 ∷ 1 ∷ [] }
    ∷ record { type = 160; body = 0 ∷ 7 ∷ [] }
    ∷ record { type = 3; body = 1 ∷ 0 ∷ 0 ∷ 0 ∷ 0 ∷ 0 ∷ 0 ∷ 0 ∷ 0 ∷ 0 ∷ 0 ∷ 0 ∷ 0 ∷ 0 ∷ [] }
    ∷ []

dsr_opt_parse-write_example :
    Keeps (located 4 opts) (dsr_opt_parse (header ++ write opts) none)
    × ((dsr_opt_parse (header ++ write opts) none).2 ≡ ended)
    × ((type : ℕ)
        → dsr_opt_find_opt (header ++ write opts) type
          ≡ (first (places type (located 4 opts)), ended))
dsr_opt_parse-write_example =
    dsr_opt_parse-write header opts none refl
      ((refl, omega arith), ((refl, omega arith), ((refl, omega arith), tt)))
