-- ===== src/Timer.antt =====
-- timer.h: times in seconds and microseconds. The fields are `long`; the source says that these
-- functions may overflow, and the model does not.
use dsr_uu.Base.{ℕ, ◌+◌, ◌*◌, ◌/◌, ◌%◌}
use dsr_uu.Base.Int.{ℤ, sub_ℕ}

-- `struct timeval`
pub record Timeval : Type 0 where
  pub tv_sec : ℕ
  pub tv_usec : ℕ

-- The time in microseconds.
abbrev pub usecs : Timeval → ℕ
usecs tv = tv.tv_sec * 1_000_000 + tv.tv_usec

-- In microseconds, with a sign.
unfoldable pub timeval_diff : Timeval → Timeval → ℤ
timeval_diff tv1 tv2 = sub_ℕ (usecs tv1) (usecs tv2)

unfoldable pub timeval_add_usecs : Timeval → ℕ → Timeval
timeval_add_usecs tv usecs = record {
  tv_sec = tv.tv_sec + (tv.tv_usec + usecs) / 1_000_000;
  tv_usec = (tv.tv_usec + usecs) % 1_000_000;
}
