-- ===== src/Tbl/Tests.antt =====
-- tbl.h: the theorems at concrete tables.
use dsr_uu.Base.{ℕ, ◌≡◌, refl, Bool, List, [], ◌∷◌, some, ltb, ◌==◌, arith}
use dsr_uu.Tbl.{Tbl, init_tbl, tbl_add}
use dsr_uu.Tbl.Bounds.{IsTbl, Op, add_tail, del_first, for_each_del, run, run-IsTbl}
use dsr_uu.Tbl.Order.{IsSorted, tbl_add-IsSorted}

abbrev ops : List (Op ℕ)
ops =
    add_tail 4 ∷ add_tail 5 ∷ add_tail 6 ∷ for_each_del (λ x. x == 4) ∷ del_first ∷ add_tail 7 ∷ []

run-IsTbl_example : IsTbl (run (init_tbl 2) ops)
run-IsTbl_example = run-IsTbl 2 ops (omega arith)

abbrev three : Tbl ℕ
three = record { items = 3 ∷ 5 ∷ 8 ∷ []; len = 3; max_len = 8 }

abbrev greater : ℕ → ℕ → Bool
greater a l = ltb l a

abbrev four : Tbl ℕ
four = record { items = 3 ∷ 5 ∷ 6 ∷ 8 ∷ []; len = 4; max_len = 8 }

added : tbl_add three 6 greater ≡ some four
unfolding tbl_add
added = refl

tbl_add-IsSorted_example : IsSorted (λ x. x) four.items
tbl_add-IsSorted_example =
    tbl_add-IsSorted (λ x. x) greater (λ a l. refl) three four 6 (ground arith) added
