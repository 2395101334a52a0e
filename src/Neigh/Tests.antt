-- ===== src/Neigh/Tests.antt =====
-- neigh.c: the theorems at concrete neighbours.
use dsr_uu.Base.{true, ◌≡◌, List, [], ◌∷◌, arith}
use dsr_uu.Neigh.{smooth, neigh_tbl_init}
use dsr_uu.Neigh.Rto.{smooth_lem}
use dsr_uu.Neigh.Invariant.{
  IsNeighTbl, NeighOp, add, set_rto, id_inc, neigh_run, neigh_run-IsNeighTbl,
}

smooth_lem_example : smooth 90 320 60 ≡ (369, 94)
smooth_lem_example = smooth_lem 90 320 60 (omega arith) (omega arith) (omega arith) (omega arith)

abbrev ops : List NeighOp
ops = add true 4 44 ∷ set_rto 4 90 ∷ set_rto 4 1 ∷ id_inc 4 ∷ []

neigh_run-IsNeighTbl_example :
    IsNeighTbl (neigh_run neigh_tbl_init ops) × ((neigh_run neigh_tbl_init ops).max_len ≡ 50)
neigh_run-IsNeighTbl_example = neigh_run-IsNeighTbl ops
