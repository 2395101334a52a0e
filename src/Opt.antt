-- ===== src/Opt.antt =====
-- dsr-opt.c: the walk over the options of a packet, as bytes. `l` counts the bytes and `dopt` is the
-- place that is read, an offset in the same space, whose first 4 bytes are the header: the two part
-- ways behind an option of one byte, over which `dopt` steps by the 2 bytes of `struct dsr_opt`.
pub mod Parse
pub mod Written
pub mod Tests
use dsr_uu.Base.{
  ℕ, zero, suc, ◌+◌, ◌-◌, Bool, true, false, ◌&&◌, List, [], ◌∷◌, ◌++◌, Option, none, some, ltb,
  ◌==◌, if◌then◌else◌, get_elem?, length,
}

-- How the loop ends: by its condition, by a read outside of the space, or for want of fuel.
pub data WalkEnd : Type 0 where
  ended outside no_fuel : WalkEnd

-- An option: its type and its place.
pub record Found : Type 0 where
  pub type : ℕ
  pub place : ℕ

abbrev pub opt_pad1 : ℕ
opt_pad1 = 224

-- The options in order, as the loops of `dsr_opt_parse` and of `dsr_opt_recv` come to them.
unfoldable pub walk : List ℕ → ℕ → ℕ → ℕ → List Found × WalkEnd
walk bytes zero l dopt = ([], no_fuel)
walk bytes (suc fuel) l dopt = elim (ltb l (length bytes) && ltb 2 (length bytes - l)) [
  | false ↦ ([], ended)
  | true ↦ elim (get_elem? bytes dopt) [
    | none ↦ ([], outside)
    | some t ↦ elim (t == opt_pad1) [
      | true ↦ walk bytes fuel (l + 1) (dopt + 2)
      | false ↦ elim (get_elem? bytes (dopt + 1)) [
        | none ↦ ([], outside)
        | some len ↦
            let (found, end) = walk bytes fuel (l + len + 2) (dopt + len + 2) in
            (record { type = t; place = dopt } ∷ found, end)
      ]
    ]
  ]
]

-- The fields of `struct dsr_pkt` that `dsr_opt_parse` sets, as the places that they point to.
pub record Parsed : Type 0 where
  pub rreq_opt : Option ℕ
  pub rrep_opt : List ℕ
  pub rerr_opt : List ℕ
  pub ack_opt : List ℕ
  pub srt_opt : Option ℕ
  pub ack_req_opt : Option ℕ

abbrev pub max_opts : ℕ
max_opts = 10

-- MAX_RREP_OPTS, MAX_RERR_OPTS and MAX_ACK_OPTS are all 10.
unfoldable pub add_opt : List ℕ → ℕ → List ℕ
add_opt places place = if ltb (length places) max_opts then places ++ place ∷ [] else places

abbrev pub or_first : Option ℕ → ℕ → Option ℕ
or_first none place = some place
or_first (some p) place = some p

-- `num_rreq_opts` stays 0, so that each route request replaces the one before it.
unfoldable pub parse_one : Parsed → Found → Parsed
unfolding add_opt
parse_one p f =
    if f.type == 2
    then record p { rreq_opt = some f.place }
    else if f.type == 1
    then record p { rrep_opt = add_opt p.rrep_opt f.place }
    else if f.type == 3
    then record p { rerr_opt = add_opt p.rerr_opt f.place }
    else if f.type == 32
    then record p { ack_opt = add_opt p.ack_opt f.place }
    else if f.type == 96
    then record p { srt_opt = or_first p.srt_opt f.place }
    else if f.type == 160
    then record p { ack_req_opt = or_first p.ack_req_opt f.place }
    else p

unfoldable pub parse_all : Parsed → List Found → Parsed
unfolding parse_one
parse_all p [] = p
parse_all p (f ∷ rest) = parse_all (parse_one p f) rest

-- The pointer to the route request of the packet is left as it was. The count is the result.
unfoldable pub dsr_opt_parse : List ℕ → Option ℕ → Parsed × ℕ × WalkEnd
unfolding walk parse_all
dsr_opt_parse bytes rreq_opt =
    let (found, end) = walk bytes (length bytes) 4 4 in
    (
      parse_all
          (record {
            rreq_opt = rreq_opt;
            rrep_opt = [];
            rerr_opt = [];
            ack_opt = [];
            srt_opt = none;
            ack_req_opt = none;
          })
          found,
      length found,
      end,
    )

-- `dsr_opt_find_opt` takes an option of one byte for one with a length, so that the count and the place
-- do not part ways. An option that is found ends the loop too.
unfoldable pub find_opt : List ℕ → ℕ → ℕ → ℕ → Option ℕ × WalkEnd
find_opt bytes type zero l = (none, no_fuel)
find_opt bytes type (suc fuel) l = elim (ltb l (length bytes) && ltb 2 (length bytes - l)) [
  | false ↦ (none, ended)
  | true ↦ elim (get_elem? bytes l) [
    | none ↦ (none, outside)
    | some t ↦ elim (t == type) [
      | true ↦ (some l, ended)
      | false ↦ elim (get_elem? bytes (l + 1)) [
        | none ↦ (none, outside)
        | some len ↦ find_opt bytes type fuel (l + len + 2)
      ]
    ]
  ]
]

unfoldable pub dsr_opt_find_opt : List ℕ → ℕ → Option ℕ × WalkEnd
unfolding find_opt
dsr_opt_find_opt bytes type = find_opt bytes type (length bytes) 4
