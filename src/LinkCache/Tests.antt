-- ===== src/LinkCache/Tests.antt =====
-- link-cache.c: the theorem on `lc_srt_find` at a concrete cache.
use dsr_uu.Base.{ℕ, ◌+◌, refl, [], ◌∷◌, none, some, arith}
use dsr_uu.Srt.{Garbage}
use dsr_uu.LinkCache.{LcNode, LcLink, LcGraph, Memory}
use dsr_uu.LinkCache.Search.{lc_srt_find}
use dsr_uu.LinkCache.Start.{IsGraph}
use dsr_uu.LinkCache.Find.{IsCheapest, lc_srt_find-IsCheapest}

abbrev block : Garbage
block = record { flags = 0; index = 0 }

abbrev node : ℕ → LcNode
node addr = record { addr = addr; links = 2; cost = 0; hops = 0; pred = none }

abbrev mem : Memory
mem p = node (p + 100)

abbrev link : ℕ → ℕ → ℕ → LcLink
link src dst cost = record {
  src = src;
  dst = dst;
  status = 0;
  cost = cost;
  expires = record { tv_sec = 0; tv_usec = 0 };
}

-- Two ways from 110 to 112, of which the longer one is cheaper.
abbrev cache : LcGraph
cache = record {
  mem = mem;
  nodes = record { items = 10 ∷ 11 ∷ 12 ∷ []; len = 3; max_len = 500 };
  links = record {
    items = link 10 12 9 ∷ link 10 11 2 ∷ link 11 12 3 ∷ [];
    len = 3;
    max_len = 100;
  };
  src = none;
}

cache-IsGraph : IsGraph cache
cache-IsGraph = record {
  nodes_table = record { counted = refl; bounded = omega arith; is_word = omega arith };
  nodes_max = refl;
  ends = ground arith;
  unique = λ p q m n e. omega (arith, e);
}

lc_srt_find-IsCheapest_example : IsCheapest cache 110 112 (lc_srt_find (some block) cache 110 112).1
lc_srt_find-IsCheapest_example =
    lc_srt_find-IsCheapest cache cache-IsGraph 9 110 112 (ground arith) (omega arith) (ground arith)
      block
