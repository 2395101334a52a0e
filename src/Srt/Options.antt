-- ===== src/Srt/Options.antt =====
-- dsr-srt.c: a route in the option of a packet, and read back from it.
use dsr_uu.Base.{
  ℕ, ◌+◌, ◌-◌, ◌/◌, ◌%◌, ◌≤◌, ◌≡◌, refl, some, arith, take, take_all, length, ltb, false,
}
use dsr_uu.Srt.{Srt, Garbage, SrtOpt, addr_count, dsr_srt_opt_add, dsr_srt_new}
use dsr_uu.Srt.Route.{nodes, IsSrt}

-- A route of at most 63 addresses, whose array has the length that `laddrs` says, given room in the
-- buffer and memory, can be read back from its option, whose
-- two fields for it hold the length and the number of hops left.
pub dsr_srt_opt_add-dsr_srt_new :
    (m : Garbage) (srt : Srt) (len flags salvage : ℕ)
    → IsSrt srt
    → srt.laddrs ≤ 252
    → srt.laddrs + 4 ≤ len
    → (o : SrtOpt) × (back : Srt) × (dsr_srt_opt_add len flags salvage srt ≡ some o)
      × (dsr_srt_new (some m) srt.src srt.dst (o.length - 2) o.addrs ≡ some back)
      × (nodes back ≡ nodes srt)
      × (o.sleft ≡ length srt.addrs)
      × IsSrt back
unfolding dsr_srt_opt_add dsr_srt_new
dsr_srt_opt_add-dsr_srt_new m srt len flags salvage v short room =
    let all : take (addr_count srt) srt.addrs ≡ srt.addrs =
      take_all (addr_count srt) srt.addrs (omega (arith, v.sized)) in
    let size : (srt.laddrs + 2) % 256 - 2 ≡ srt.laddrs = omega arith in
    let fits : ltb len (4 + srt.laddrs) ≡ false = ground arith in
    let written : SrtOpt = record {
      type = 96;
      length = (srt.laddrs + 2) % 256;
      f = flags % 2;
      l = flags / 2 % 2;
      res = 0;
      salv = salvage % 16;
      sleft = addr_count srt % 64;
      addrs = take (addr_count srt) srt.addrs;
    } in
    let back : Srt = record {
      src = srt.src;
      dst = srt.dst;
      flags = m.flags;
      index = m.index;
      laddrs = (srt.laddrs + 2) % 256 - 2;
      addrs = take (((srt.laddrs + 2) % 256 - 2) / 4) (take (addr_count srt) srt.addrs);
    } in
    (
      written,
      back,
      rw (fits, dsr_srt_opt_add) refl,
      refl,
      rw (size, all, all) refl,
      omega (arith, v.sized),
      record { sized = rw (size, all, all) v.sized; is_word = omega arith },
    )
