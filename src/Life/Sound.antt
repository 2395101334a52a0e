-- ===== src/Life/Sound.antt =====
-- Whatever happens to a node from its start on, its tables and buffers stay sound.
use dsr_uu.Base.{ℕ, List, [], ◌∷◌}
use dsr_uu.Timer.{usecs}
use dsr_uu.Node.{Node, Env}
use dsr_uu.Life.{Event}
use dsr_uu.Life.Step.{Fits}

-- The time of the last event, which is `k` if there is none.
abbrev pub last_time : ℕ → List (Env × Event) → ℕ
last_time k [] = k
last_time k ((env, ev) ∷ rest) = last_time (usecs env.now) rest

abbrev pub AllFit : ℕ → List (Env × Event) → Type 0
AllFit k [] = Unit
AllFit k ((env, ev) ∷ rest) = Fits k (env, ev) × AllFit (usecs env.now) rest
