-- ===== src/Srt/Route.antt =====
-- dsr-srt.c: a source route as the list of the nodes that it visits.
use dsr_uu.Base.{ℕ, ◌<◌, ◌≡◌, List, [], ◌∷◌, ◌++◌, length, u32_mod}
use dsr_uu.Srt.{Srt, addr_count}

-- From the source to the destination.
abbrev pub nodes : Srt → List ℕ
nodes srt = srt.src ∷ (srt.addrs ++ srt.dst ∷ [])

-- The array has the length that `laddrs` says, and that is a word.
pub record IsSrt (srt : Srt) : Type 0 where
  pub sized : addr_count srt ≡ length srt.addrs
  pub is_word : srt.laddrs < u32_mod
