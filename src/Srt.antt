-- ===== src/Srt.antt =====
-- dsr-srt.c and dsr-srt.h: source routes. An address is the number in `s_addr`.
-- `addrs` holds the whole words of the array; what a length that is no multiple of four adds to it
-- is read by nobody. `kmalloc` is an argument: `none` where it fails, else what the new block holds.
pub mod Route
pub mod Hops
pub mod Shape
pub mod Shortcut
pub mod Options
pub mod Tests
pub mod Duplicates
use dsr_uu.Base.{
  ℕ, zero, suc, ◌+◌, ◌-◌, ◌*◌, ◌/◌, ◌%◌, Bool, true, false, not, ◌&&◌, ◌||◌, List, [], ◌∷◌, ◌++◌,
  Option, none, some, ltb, leb, ◌==◌, if◌then◌else◌, get_elem?, get_or, take, u32_mod,
}
use dsr_uu.Base.Int.{ℤ, pos, negsuc}

-- `struct dsr_srt`
pub record Srt : Type 0 where
  pub src : ℕ
  pub dst : ℕ
  pub flags : ℕ
  pub index : ℕ
  pub laddrs : ℕ
  pub addrs : List ℕ

-- The fields of a new block that no function of dsr-srt.c sets.
pub record Garbage : Type 0 where
  pub flags : ℕ
  pub index : ℕ

abbrev pub addr_count : Srt → ℕ
addr_count srt = srt.laddrs / 4

-- `none` is a read outside of `addrs`.
unfoldable pub dsr_srt_next_hop : Srt → ℤ → Option ℕ
dsr_srt_next_hop srt (negsuc _) = some srt.dst
dsr_srt_next_hop srt (pos zero) = some srt.dst
dsr_srt_next_hop srt (pos (suc k)) =
    if leb (suc k) (addr_count srt) then get_elem? srt.addrs (addr_count srt - suc k) else none

unfoldable pub dsr_srt_prev_hop : Srt → ℤ → Option ℕ
dsr_srt_prev_hop srt (negsuc k) =
    if addr_count srt + k == 0 then some srt.src else get_elem? srt.addrs (addr_count srt + k - 1)
dsr_srt_prev_hop srt (pos sleft) =
    if addr_count srt == sleft + 1
    then some srt.src
    else if leb (sleft + 2) (addr_count srt)
    then get_elem? srt.addrs (addr_count srt - 2 - sleft)
    else none

-- The loop of `dsr_srt_find_addr` over the `sleft` last addresses.
unfoldable pub find_in_last : List ℕ → ℕ → ℕ → ℕ → Bool
find_in_last addrs n addr zero = false
find_in_last addrs n addr (suc sleft) =
    get_or addrs (n - suc sleft) 0 == addr || find_in_last addrs n addr sleft

unfoldable pub dsr_srt_find_addr : Srt → ℕ → ℕ → Bool
unfolding find_in_last
dsr_srt_find_addr srt addr sleft =
    if addr_count srt == 0 || ltb (addr_count srt) sleft || ltb sleft 1
    then false
    else find_in_last srt.addrs (addr_count srt) addr sleft || addr == srt.dst

unfoldable pub dsr_srt_new : Option Garbage → ℕ → ℕ → ℕ → List ℕ → Option Srt
dsr_srt_new none src dst length addrs = none
dsr_srt_new (some m) src dst length addrs = some (record {
  src = src;
  dst = dst;
  flags = m.flags;
  index = m.index;
  laddrs = length;
  addrs = take (length / 4) addrs;
})

-- for (i = 0; i < n; i++) rev[i] = addrs[n - 1 - i], with the rounds left first.
unfoldable pub rev_addrs : ℕ → ℕ → ℕ → List ℕ → List ℕ
rev_addrs zero i n addrs = []
rev_addrs (suc k) i n addrs = get_or addrs (n - 1 - i) 0 ∷ rev_addrs k (i + 1) n addrs

unfoldable pub dsr_srt_new_rev : Option Garbage → Option Srt → Option Srt
unfolding rev_addrs
dsr_srt_new_rev m none = none
dsr_srt_new_rev none (some srt) = none
dsr_srt_new_rev (some m) (some srt) = some (record {
  src = srt.dst;
  dst = srt.src;
  flags = m.flags;
  index = m.index;
  laddrs = srt.laddrs;
  addrs = rev_addrs (addr_count srt) 0 (addr_count srt) srt.addrs;
})

-- The index of the first address that equals `addr`.
unfoldable pub addr_index : ℕ → List ℕ → ℕ → Option ℕ
addr_index addr [] i = none
addr_index addr (a ∷ rest) i = if addr == a then some i else addr_index addr rest (i + 1)

-- The block that `dsr_srt_new_split` fills once the address is found at `i`.
unfoldable pub split_at : Option Garbage → Srt → ℕ → Option Srt
split_at none srt i = none
split_at (some m) srt i = some (record {
  src = srt.src;
  dst = get_or srt.addrs i 0;
  flags = m.flags;
  index = m.index;
  laddrs = 4 * i;
  addrs = take i srt.addrs;
})

unfoldable pub dsr_srt_new_split : Option Garbage → Option Srt → ℕ → Option Srt
unfolding addr_index split_at
dsr_srt_new_split m none addr = none
dsr_srt_new_split m (some srt) addr =
    if addr_count srt == 0
    then none
    else elim (addr_index addr srt.addrs 0) [ none ↦ none | some i ↦ split_at m srt i ]

unfoldable pub dsr_srt_new_split_rev : Option Garbage → Option Garbage → Option Srt → ℕ → Option Srt
unfolding dsr_srt_new_split dsr_srt_new_rev
dsr_srt_new_split_rev m m' srt addr = elim (dsr_srt_new_split m srt addr) [
  | none ↦ none
  | some split ↦ dsr_srt_new_rev m' (some split)
]

-- The last place of `a` among the nodes of the route, one more than the source's number for it, so
-- that 0 stands for -1: the loop of `dsr_srt_shortcut` from index `i` on.
unfoldable pub last_place : ℕ → List ℕ → ℕ → ℕ → ℕ
last_place a [] i place = place
last_place a (x ∷ rest) i place = last_place a rest (i + 1) (if x == a then i + 2 else place)

-- The copying loop: the addresses between the two places are left out.
unfoldable pub cut_between : ℕ → ℕ → List ℕ → ℕ → List ℕ
cut_between p1 p2 [] i = []
cut_between p1 p2 (x ∷ rest) i =
    if ltb p1 (i + 2) && ltb (i + 2) p2
    then cut_between p1 p2 rest (i + 1)
    else x ∷ cut_between p1 p2 rest (i + 1)

unfoldable pub first_place : Srt → ℕ → ℕ
unfolding last_place
first_place srt a1 = last_place a1 srt.addrs 0 (if srt.src == a1 then 1 else 0)

unfoldable pub second_place : Srt → ℕ → ℕ
unfolding last_place
second_place srt a2 = if srt.dst == a2 then addr_count srt + 2 else last_place a2 srt.addrs 0 0

unfoldable pub dsr_srt_shortcut : Option Garbage → Option Srt → ℕ → ℕ → Option Srt
unfolding first_place second_place cut_between
dsr_srt_shortcut m none a1 a2 = none
dsr_srt_shortcut none (some srt) a1 a2 = none
dsr_srt_shortcut (some m) (some srt) a1 a2 =
    let p1 = first_place srt a1 in
    let p2 = second_place srt a2 in
    let laddrs = (4 * (addr_count srt + 1 + p1 + u32_mod - p2)) % u32_mod in
    some (record {
      src = srt.src;
      dst = srt.dst;
      flags = m.flags;
      index = m.index;
      laddrs = laddrs;
      addrs = if laddrs == 0 then [] else cut_between p1 p2 srt.addrs 0;
    })

unfoldable pub dsr_srt_concatenate : Option Garbage → Option Srt → Option Srt → Option Srt
dsr_srt_concatenate m none srt2 = none
dsr_srt_concatenate m (some srt1) none = none
dsr_srt_concatenate none (some srt1) (some srt2) = none
dsr_srt_concatenate (some m) (some srt1) (some srt2) = some (record {
  src = srt1.src;
  dst = srt2.dst;
  flags = m.flags;
  index = m.index;
  laddrs = 4 * (addr_count srt1 + addr_count srt2 + 1) % u32_mod;
  addrs = take (addr_count srt1) srt1.addrs ++ (srt2.src ∷ take (addr_count srt2) srt2.addrs);
})

unfoldable pub occurs : ℕ → List ℕ → Bool
occurs a [] = false
occurs a (x ∷ rest) = x == a || occurs a rest

-- The two loops of `dsr_srt_check_duplicate` over the nodes seen so far.
unfoldable pub duplicate_from : List ℕ → List ℕ → ℕ → Bool
unfolding occurs
duplicate_from buf [] dst = occurs dst buf
duplicate_from buf (a ∷ rest) dst = occurs a buf || duplicate_from (buf ++ a ∷ []) rest dst

-- `none` is the -1 of a failed allocation.
unfoldable pub dsr_srt_check_duplicate : Option Garbage → Srt → Option Bool
unfolding duplicate_from
dsr_srt_check_duplicate none srt = none
dsr_srt_check_duplicate (some m) srt = some (duplicate_from (srt.src ∷ []) srt.addrs srt.dst)

-- `struct dsr_srt_opt`, its bit-fields apart.
pub record SrtOpt : Type 0 where
  pub type : ℕ
  pub length : ℕ
  pub f : ℕ
  pub l : ℕ
  pub res : ℕ
  pub salv : ℕ
  pub sleft : ℕ
  pub addrs : List ℕ

-- The option in a buffer of `len` bytes: `length` has 8 bits, `salv` 4 and `sleft` 6.
unfoldable pub dsr_srt_opt_add : ℕ → ℕ → ℕ → Srt → Option SrtOpt
dsr_srt_opt_add len flags salvage srt =
    if ltb len (4 + srt.laddrs)
    then none
    else some (record {
      type = 96;
      length = (srt.laddrs + 2) % 256;
      f = flags % 2;
      l = flags / 2 % 2;
      res = 0;
      salv = salvage % 16;
      sleft = addr_count srt % 64;
      addrs = take (addr_count srt) srt.addrs;
    })
