-- ===== src/Neigh/Invariant.antt =====
-- neigh.c: the retransmission timeouts of the neighbours stay in their range.
use dsr_uu.Base.{
  ℕ, ◌≤◌, ◌≡◌, refl, inl, inr, Bool, true, List, [], ◌∷◌, Option, none, some, arith, All, length,
  ◌==◌, Bool-cases, Option-cases, List-cases, sym, subst, ◌∙◌,
}
use dsr_uu.Timer.{Timeval}
use dsr_uu.Tbl.{Tbl, init_tbl, do_first, tbl_find_do, tbl_add, unless_full, insert_before, in_tbl}
use dsr_uu.Tbl.Bounds.{IsTbl, init_tbl-IsTbl, tbl_add-IsTbl}
use dsr_uu.Neigh.{
  Neighbor, dsr_min, dsr_rexmtmax, neigh_tbl_add, neigh_tbl_create, crit_addr, rto_calc,
  set_ack_req_time, crit_addr_id_inc, neigh_tbl_set_ack_req_time, neigh_tbl_set_rto,
  neigh_tbl_id_inc, neigh_tbl_init, smooth, range_set, rexmt_val,
}

abbrev pub IsNeighbor : Neighbor → Type 0
IsNeighbor n = (n.t_rttmin ≡ dsr_min) × (dsr_min ≤ n.t_rxtcur) × (n.t_rxtcur ≤ dsr_rexmtmax)

abbrev pub IsNeighTbl : Tbl Neighbor → Type 0
IsNeighTbl t = IsTbl t × All IsNeighbor t.items

-- What the rest of the program asks of the table.
pub data NeighOp : Type 0 where
  add : Bool → ℕ → ℕ → NeighOp
  set_ack_req : Timeval → ℕ → NeighOp
  set_rto : ℕ → ℕ → NeighOp
  id_inc : ℕ → NeighOp

unfoldable pub neigh_step : Tbl Neighbor → NeighOp → Tbl Neighbor
neigh_step t (add room addr hw_addr) = (neigh_tbl_add room t addr hw_addr).0
neigh_step t (set_ack_req now addr) = (neigh_tbl_set_ack_req_time now t addr).0
neigh_step t (set_rto addr rtt) = (neigh_tbl_set_rto t addr rtt).0
neigh_step t (id_inc addr) = (neigh_tbl_id_inc t addr).0

unfoldable pub neigh_run : Tbl Neighbor → List NeighOp → Tbl Neighbor
unfolding neigh_step
neigh_run t [] = t
neigh_run t (op ∷ ops) = neigh_run (neigh_step t op) ops

-- A function that is good for each neighbour is good for the list.

do_first-keeps :
    (func : Neighbor → Option Neighbor) (xs ys : List Neighbor)
    → ((n n' : Neighbor) → func n ≡ some n' → IsNeighbor n → IsNeighbor n')
    → do_first func xs ≡ some ys
    → All IsNeighbor xs
    → All IsNeighbor ys × (length ys ≡ length xs)
unfolding do_first
do_first-keeps func [] ys k h v = cc
do_first-keeps func (x ∷ xs) ys k h v = elim (Option-cases (func x)) [
  | inr (x', e) ↦ let at : ys ≡ x' ∷ xs = ground (arith, e, h) in rw at ((k x x' e v.0, v.1), refl)
  | inl e ↦ elim (Option-cases (do_first func xs)) [
    | inl n ↦ absurd (ground (arith, e, n, h))
    | inr (zs, s) ↦
        let (ok, len) = do_first-keeps func xs zs k s v.1 in
        let at : ys ≡ x ∷ zs = ground (arith, e, s, h) in rw at ((v.0, ok), omega (arith, len))
  ]
]

find_do-keeps :
    (func : Neighbor → Option Neighbor) (t : Tbl Neighbor)
    → ((n n' : Neighbor) → func n ≡ some n' → IsNeighbor n → IsNeighbor n')
    → IsNeighTbl t
    → IsNeighTbl (tbl_find_do t func).0
unfolding tbl_find_do
find_do-keeps func t k (v, all) = elim (Option-cases (do_first func t.items)) [
  | inl n ↦ rw (n, tbl_find_do) (v, all)
  | inr (ys, s) ↦
      let (ok, len) = do_first-keeps func t.items ys k s all in
      rw (s, tbl_find_do)
        (
          record {
            counted = omega (arith, v.counted, len);
            bounded = v.bounded;
            is_word = v.is_word;
          },
          ok,
        )
]

range_set_lem :
    (value tvmin : ℕ)
    → tvmin ≡ dsr_min
    → (dsr_min ≤ range_set value tvmin dsr_rexmtmax)
      × (range_set value tvmin dsr_rexmtmax ≤ dsr_rexmtmax)
range_set_lem value tvmin h = ground (arith, h)

-- What `rto_calc` leaves of the neighbour that it is for.
abbrev rto_done : ℕ → Neighbor → Neighbor
rto_done rtt n = record n {
  t_srtt = (smooth rtt n.t_srtt n.t_rttvar).0;
  t_rttvar = (smooth rtt n.t_srtt n.t_rttvar).1;
  t_rxtcur = range_set (rexmt_val (smooth rtt n.t_srtt n.t_rttvar).0) n.t_rttmin dsr_rexmtmax;
}

some_injective : {a b : Neighbor} → some a ≡ some b → a ≡ b
some_injective h = cc

some-ne-none : {a : Neighbor} → ¬ (some a ≡ none)
some-ne-none h = cc

rto_calc-keeps :
    (addr rtt : ℕ) (n n' : Neighbor) → rto_calc addr rtt n ≡ some n' → IsNeighbor n → IsNeighbor n'
unfolding rto_calc
rto_calc-keeps addr rtt n n' e v = elim (Bool-cases (n.addr == addr)) [
  | inl y ↦
      let hit : rto_calc addr rtt n ≡ some (rto_done rtt n) = rw (y, rto_calc) refl in
      let same : n' ≡ rto_done rtt n = some_injective (sym e ∙ hit) in
      let (low, high) =
        range_set_lem (rexmt_val (smooth rtt n.t_srtt n.t_rttvar).0) n.t_rttmin v.0 in
      rw same (v.0, low, high)
  | inr y ↦
      let miss : rto_calc addr rtt n ≡ none = rw (y, rto_calc) refl in
      absurd (some-ne-none (sym e ∙ miss))
]

ack_req-keeps :
    (now : Timeval) (addr : ℕ) (n n' : Neighbor)
    → set_ack_req_time now addr n ≡ some n'
    → IsNeighbor n
    → IsNeighbor n'
unfolding set_ack_req_time
ack_req-keeps now addr n n' e v = ground (arith, e, v)

id_inc-keeps :
    (addr : ℕ) (n n' : Neighbor) → crit_addr_id_inc addr n ≡ some n' → IsNeighbor n → IsNeighbor n'
unfolding crit_addr_id_inc
id_inc-keeps addr n n' e v = ground (arith, e, v)

add_items :
    (t t' : Tbl Neighbor) (n : Neighbor)
    → tbl_add t n (λ x y. true) ≡ some t'
    → All IsNeighbor t.items
    → IsNeighbor n
    → All IsNeighbor t'.items
unfolding tbl_add insert_before
add_items t t' n e v ok = elim (List-cases t.items) [
  | inl y ↦ ground (arith, e, y, ok)
  | inr (x, xs, y) ↦
      let at : t'.items ≡ n ∷ x ∷ xs = ground (arith, e, y) in
      let all : All IsNeighbor (x ∷ xs) = subst (All IsNeighbor) y v in rw at (ok, all)
]

put_neighbor :
    (t : Tbl Neighbor) (n : Neighbor)
    → IsNeighTbl t
    → IsNeighbor n
    → IsNeighTbl (unless_full t (tbl_add t n (λ x y. true)))
put_neighbor t n (v, all) ok = elim (Option-cases (tbl_add t n (λ x y. true))) [
  | inl e ↦ rw e (v, all)
  | inr (t', e) ↦ rw e (tbl_add-IsTbl t n (λ x y. true) v e, add_items t t' n e all ok)
]

add_keeps :
    (room : Bool) (t : Tbl Neighbor) (addr hw_addr : ℕ)
    → IsNeighTbl t
    → IsNeighTbl (neigh_tbl_add room t addr hw_addr).0
unfolding neigh_tbl_add neigh_tbl_create
add_keeps room t addr hw_addr v = elim (Bool-cases (in_tbl t (crit_addr addr))) [
  | inl y ↦ rw (y, neigh_tbl_add) v
  | inr n ↦ elim (Bool-cases room) [
    | inl y ↦
        rw (n, neigh_tbl_add)
          (rw y
            (put_neighbor t (neigh_tbl_create addr hw_addr 1) v (refl, omega arith, omega arith)))
    | inr y ↦ rw (n, neigh_tbl_add) (rw y v)
  ]
]

step_keeps : (t : Tbl Neighbor) (op : NeighOp) → IsNeighTbl t → IsNeighTbl (neigh_step t op)
unfolding neigh_step neigh_tbl_set_rto neigh_tbl_set_ack_req_time neigh_tbl_id_inc
step_keeps t (add room addr hw_addr) v = add_keeps room t addr hw_addr v
step_keeps t (set_ack_req now addr) v =
    find_do-keeps (set_ack_req_time now addr) t (ack_req-keeps now addr) v
step_keeps t (set_rto addr rtt) v = find_do-keeps (rto_calc addr rtt) t (rto_calc-keeps addr rtt) v
step_keeps t (id_inc addr) v = find_do-keeps (crit_addr_id_inc addr) t (id_inc-keeps addr) v

run_keeps : (t : Tbl Neighbor) (ops : List NeighOp) → IsNeighTbl t → IsNeighTbl (neigh_run t ops)
unfolding neigh_run
run_keeps t [] v = v
run_keeps t (op ∷ ops) v = run_keeps (neigh_step t op) ops (step_keeps t op v)

step-max : (t : Tbl Neighbor) (op : NeighOp) → (neigh_step t op).max_len ≡ t.max_len
unfolding neigh_step neigh_tbl_add neigh_tbl_set_rto neigh_tbl_set_ack_req_time neigh_tbl_id_inc
    tbl_find_do tbl_add
step-max t (add room addr hw_addr) = ground arith
step-max t (set_ack_req now addr) = ground arith
step-max t (set_rto addr rtt) = ground arith
step-max t (id_inc addr) = ground arith

run-max : (t : Tbl Neighbor) (ops : List NeighOp) → (neigh_run t ops).max_len ≡ t.max_len
unfolding neigh_run
run-max t [] = refl
run-max t (op ∷ ops) = run-max (neigh_step t op) ops ∙ step-max t op

-- After any sequence of neighbours added, acknowledgement times set, round-trip samples and
-- identifiers counted, on a fresh table: its limit stays 50, the table holds no more entries and counts them right,
-- and each retransmission timeout is between 20 and 1280.
pub neigh_run-IsNeighTbl :
    (ops : List NeighOp)
    → IsNeighTbl (neigh_run neigh_tbl_init ops) × ((neigh_run neigh_tbl_init ops).max_len ≡ 50)
unfolding neigh_tbl_init init_tbl
neigh_run-IsNeighTbl ops =
    (run_keeps neigh_tbl_init ops (init_tbl-IsTbl 50 (omega arith), tt), run-max neigh_tbl_init ops)
