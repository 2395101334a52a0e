-- ===== src/Neigh/Rto.antt =====
-- neigh.c: the smoothed round-trip time and its variance.
use dsr_uu.Base.{ℕ, ◌+◌, ◌-◌, ◌*◌, ◌/◌, ◌^◌, ◌≤◌, ◌<◌, ◌≡◌, arith, ◌==◌, if◌then◌else◌}
use dsr_uu.Neigh.{smooth}

-- The distance of two numbers.
abbrev pub distance : ℕ → ℕ → ℕ
distance a b = (a - b) + (b - a)

abbrev pub at_least_one : ℕ → ℕ
at_least_one n = if n == 0 then 1 else n

-- For a sample of at least 1, and where it and the two running values are less than 2^30, they become
-- those of Jacobson's algorithm, in fixed point: srtt + (rtt - 1 - srtt / 8) and rttvar + (|rtt - 1 - srtt / 8| - rttvar / 4), each at
-- least 1. The first sample sets them, to 8 and 2 times its value.
pub smooth_lem :
    (rtt srtt rttvar : ℕ)
    → 1 ≤ rtt
    → rtt < 2 ^ 30
    → srtt < 2 ^ 30
    → rttvar < 2 ^ 30
    → smooth rtt srtt rttvar ≡ (
        if srtt == 0 then (rtt * 8, rtt * 2) else (
          at_least_one (srtt + (rtt - 1) - srtt / 8),
          at_least_one (rttvar + distance (rtt - 1) (srtt / 8) - rttvar / 4),
        ))
unfolding smooth
smooth_lem rtt srtt rttvar pos a b c = ground arith
