-- ===== src/Rrep/Tests.antt =====
-- dsr-rrep.c: the theorems on the table of gratuitous replies at concrete runs.
use dsr_uu.Base.{ℕ, ◌≡◌, false, List, [], ◌∷◌, none, some, arith}
use dsr_uu.Timer.{Timeval}
use dsr_uu.Conf.{default_val}
use dsr_uu.Rrep.{GratRrep, grat_rrep_tbl_find, grat_rrep_tbl_init}
use dsr_uu.Rrep.Set.{IsGrat}
use dsr_uu.Rrep.Pairs.{GratOp, add, timeout, grat_run, Steps, view}
use dsr_uu.Rrep.Run.{timeouts, grat_run-Steps, timeouts-Empty}

abbrev second : ℕ → Timeval
second n = record { tv_sec = n; tv_usec = 0 }

-- Two pairs, one of them twice, a block that is not given, and a timeout.
abbrev ops : List GratOp
ops =
    add (some (second 0)) (second 1) 112 111
    ∷ add (some (second 0)) (second 2) 113 111
    ∷ add (some (second 0)) (second 2) 112 111
    ∷ add none (second 3) 114 111
    ∷ timeout
    ∷ []

grat_run-Steps_example :
    IsGrat (grat_run default_val grat_rrep_tbl_init ops)
    × Steps ops (view grat_rrep_tbl_init) (view (grat_run default_val grat_rrep_tbl_init ops))
grat_run-Steps_example = grat_run-Steps default_val ops

abbrev held : GratRrep
held = record {
  tbl = record {
    items =
        record { src = 112; prev_hop = 111; expires = second 2 }
        ∷ record { src = 113; prev_hop = 111; expires = second 3 }
        ∷ [];
    len = 2;
    max_len = 64;
  };
  timer = some (second 2);
}

timeouts-Empty_example :
    ((grat_run default_val held (timeouts 2)).tbl.items ≡ [])
    × ((grat_run default_val held (timeouts 2)).timer ≡ none)
    × ((a b : ℕ) → grat_rrep_tbl_find (grat_run default_val held (timeouts 2)) a b ≡ false)
timeouts-Empty_example = timeouts-Empty default_val 1 held (omega arith)
