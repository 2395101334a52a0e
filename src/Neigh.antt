-- ===== src/Neigh.antt =====
-- neigh.c: the table of neighbours, with the round-trip times that acknowledgements give. `usecs_t`
-- is an `unsigned long` of 64 bits, and an `int` has 32. `neigh_tbl_del` is not modelled: it hands
-- an address to a criterion that reads a query there.
pub mod Rto
pub mod Invariant
pub mod Tests
use dsr_uu.Base.{
  ℕ, ◌+◌, ◌-◌, ◌*◌, ◌/◌, ◌%◌, ◌^◌, Bool, true, false, Option, none, some, ltb, ◌==◌, u32_mod,
  if◌then◌else◌,
}
use dsr_uu.Base.Int.{ℤ, pos, negsuc}
use dsr_uu.Timer.{Timeval}
use dsr_uu.Conf.{Confvals, confval_to_usecs, round_trip_timeout}
use dsr_uu.Tbl.{Tbl, init_tbl, tbl_add, unless_full, tbl_find, in_tbl, tbl_find_do}

abbrev pub neigh_tbl_max_len : ℕ
neigh_tbl_max_len = 50

abbrev pub dsr_min : ℕ
dsr_min = 20

abbrev pub dsr_rexmtmax : ℕ
dsr_rexmtmax = 1280

abbrev pub u64_mod : ℕ
u64_mod = 2 ^ 64

pub record Neighbor : Type 0 where
  pub addr : ℕ
  pub hw_addr : ℕ
  pub id : ℕ
  pub last_ack_req : Timeval
  pub t_srtt : ℕ
  pub rto : ℕ
  pub t_rxtcur : ℕ
  pub t_rttmin : ℕ
  pub t_rttvar : ℕ
  pub jitter : ℕ

-- `DSR_RANGESET`
abbrev pub range_set : ℕ → ℕ → ℕ → ℕ
range_set value tvmin tvmax =
    if ltb value tvmin then tvmin else (if ltb tvmax value then tvmax else value)

-- `DSR_REXMTVAL`
abbrev pub rexmt_val : ℕ → ℕ
rexmt_val val = (val / 8 + val) % u64_mod

-- An `int`, given by its bits, where it meets an `unsigned long`.
abbrev pub sign_extend : ℕ → ℕ
sign_extend d = if ltb d (2 ^ 31) then d else d + (u64_mod - u32_mod)

abbrev pub negate_int : ℕ → ℕ
negate_int d = (u32_mod - d) % u32_mod

-- `if ((x += delta) <= 0) x = 1` on an `unsigned long`.
abbrev pub add_at_least_one : ℕ → ℕ → ℕ
add_at_least_one x delta =
    let sum = (x + sign_extend delta) % u64_mod in if sum == 0 then 1 else sum

-- `int delta` of `rto_calc`, by its bits.
abbrev pub rtt_delta : ℕ → ℕ → ℕ
rtt_delta rtt srtt = ((rtt + u64_mod - 1 - srtt / 8) % u64_mod) % u32_mod

abbrev pub rttvar_delta : ℕ → ℕ → ℕ
rttvar_delta delta rttvar =
    let abs = if ltb delta (2 ^ 31) then delta else negate_int delta in
    ((sign_extend abs + u64_mod - rttvar / 4) % u64_mod) % u32_mod

unfoldable pub smooth : ℕ → ℕ → ℕ → ℕ × ℕ
smooth rtt srtt rttvar =
    if srtt == 0
    then (rtt * 8 % u64_mod, rtt * 2 % u64_mod)
    else (let delta = rtt_delta rtt srtt in
        (add_at_least_one srtt delta, add_at_least_one rttvar (rttvar_delta delta rttvar)))

-- `none` is 0, where the neighbour is another one.
unfoldable pub rto_calc : ℕ → ℕ → Neighbor → Option Neighbor
unfolding smooth
rto_calc addr rtt n =
    if n.addr == addr
    then (let (srtt, rttvar) = smooth rtt n.t_srtt n.t_rttvar in
        some (record n {
          t_srtt = srtt;
          t_rttvar = rttvar;
          t_rxtcur = range_set (rexmt_val srtt) n.t_rttmin dsr_rexmtmax;
        }))
    else none

unfoldable pub crit_addr : ℕ → Neighbor → Bool
crit_addr addr n = n.addr == addr

unfoldable pub crit_addr_id_inc : ℕ → Neighbor → Option Neighbor
crit_addr_id_inc addr n =
    if n.addr == addr then some (record n { id = (n.id + 1) % 2 ^ 16 }) else none

unfoldable pub set_ack_req_time : Timeval → ℕ → Neighbor → Option Neighbor
set_ack_req_time now addr n =
    if n.addr == addr then some (record n { last_ack_req = now }) else none

unfoldable pub neigh_tbl_create : ℕ → ℕ → ℕ → Neighbor
neigh_tbl_create addr hw_addr id = record {
  addr = addr;
  hw_addr = hw_addr;
  id = id;
  last_ack_req = record { tv_sec = 0; tv_usec = 0 };
  t_srtt = 0;
  rto = 0;
  t_rxtcur = range_set ((0 / 4 + 60 * 4) / 2) dsr_min dsr_rexmtmax;
  t_rttmin = dsr_min;
  t_rttvar = 30 * 2 * 4;
  jitter = 0;
}

-- `room` tells whether `kmalloc` gives a block. A table that is full loses the neighbour, and the
-- result is 1 all the same.
unfoldable pub neigh_tbl_add : Bool → Tbl Neighbor → ℕ → ℕ → Tbl Neighbor × ℤ
unfolding crit_addr neigh_tbl_create
neigh_tbl_add room t addr hw_addr =
    if in_tbl t (crit_addr addr)
    then (t, pos 0)
    else (if room
        then (unless_full t (tbl_add t (neigh_tbl_create addr hw_addr 1) (λ x y. true)), pos 1)
        else (t, negsuc 0))

unfoldable pub neigh_tbl_set_ack_req_time : Timeval → Tbl Neighbor → ℕ → Tbl Neighbor × Bool
unfolding set_ack_req_time
neigh_tbl_set_ack_req_time now t addr = tbl_find_do t (set_ack_req_time now addr)

unfoldable pub neigh_tbl_set_rto : Tbl Neighbor → ℕ → ℕ → Tbl Neighbor × Bool
unfolding rto_calc
neigh_tbl_set_rto t addr rtt = tbl_find_do t (rto_calc addr rtt)

unfoldable pub neigh_tbl_id_inc : Tbl Neighbor → ℕ → Tbl Neighbor × Bool
unfolding crit_addr_id_inc
neigh_tbl_id_inc t addr = tbl_find_do t (crit_addr_id_inc addr)

-- `struct neighbor_info`, as far as a query fills it.
pub record NeighborInfo : Type 0 where
  pub id : ℕ
  pub last_ack_req : Timeval
  pub hw_addr : ℕ
  pub rto : ℕ

unfoldable pub fill_info : Confvals → Neighbor → NeighborInfo
fill_info conf n =
    let rto = confval_to_usecs conf round_trip_timeout in
    record {
      id = n.id;
      last_ack_req = n.last_ack_req;
      hw_addr = n.hw_addr;
      rto = if rto == 0 then n.t_rxtcur * 1000 % u64_mod / 2 else rto;
    }

unfoldable pub neigh_tbl_query : Confvals → Tbl Neighbor → ℕ → Option NeighborInfo
unfolding crit_addr fill_info
neigh_tbl_query conf t addr = elim (tbl_find t (crit_addr addr)) [
  | none ↦ none
  | some n ↦ some (fill_info conf n)
]

unfoldable pub neigh_tbl_init : Tbl Neighbor
neigh_tbl_init = init_tbl neigh_tbl_max_len
