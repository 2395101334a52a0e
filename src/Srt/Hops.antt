-- ===== src/Srt/Hops.antt =====
-- dsr-srt.c: the hops around a node that forwards a packet.
use native.Mathlib.Numerals.{add-one, towards_suc}
use dsr_uu.Base.{
  ℕ, zero, suc, ◌+◌, ◌-◌, ◌<◌, ◌≡◌, refl, [], ◌∷◌, some, arith, length, get_elem?,
  get_elem?-append_left, get_elem?-append_length, if◌then◌else◌, ◌==◌,
}
use dsr_uu.Base.Int.{pos, pred_int}
use dsr_uu.Srt.{Srt, addr_count, dsr_srt_next_hop, dsr_srt_prev_hop}
use dsr_uu.Srt.Route.{nodes, IsSrt}

module _ (srt : Srt) (v : IsSrt srt) where
  -- The node at each place of the route: the addresses, and the destination behind them.
  inner : (i : ℕ) → i < length srt.addrs → get_elem? (nodes srt) (suc i) ≡ get_elem? srt.addrs i
  inner i h = get_elem?-append_left srt.addrs (srt.dst ∷ []) i h

  last : (i : ℕ) → i ≡ length srt.addrs → get_elem? (nodes srt) (suc i) ≡ some srt.dst
  last i e = get_elem?-append_length srt.addrs [] srt.dst i e

  next_hop_at :
      (sleft i : ℕ)
      → sleft + i ≡ length srt.addrs
      → dsr_srt_next_hop srt (pos sleft) ≡ get_elem? (nodes srt) (suc i)
  unfolding dsr_srt_next_hop
  next_hop_at zero i e = rw (last i (omega arith)) refl
  next_hop_at (suc k) i e =
      let at : addr_count srt - suc k ≡ i = omega (arith, v.sized) in
      rw at (ground (arith, v.sized, inner i))

  prev_hop_at :
      (sleft i : ℕ)
      → sleft + i ≡ length srt.addrs
      → dsr_srt_prev_hop srt (pred_int sleft) ≡ get_elem? (nodes srt) i
  unfolding dsr_srt_prev_hop
  prev_hop_at zero zero e = ground (arith, v.sized)
  prev_hop_at zero (suc i) e =
      let at : addr_count srt + 0 - 1 ≡ i = omega (arith, v.sized) in
      rw at (ground (arith, v.sized, inner i))
  prev_hop_at (suc k) zero e = ground (arith, v.sized)
  prev_hop_at (suc k) (suc i) e =
      let at : addr_count srt - 2 - k ≡ i = omega (arith, v.sized) in
      rw at (ground (arith, v.sized, inner i))

  -- On a route whose array has the length that `laddrs` says: with `sleft` segments left, of at most as many as the route has addresses, the previous hop,
  -- the intended next hop and the hop after that are consecutive nodes of the route; behind the
  -- destination the next hop stays the destination.
  pub hops_consecutive :
      (sleft i : ℕ)
      → sleft + i ≡ length srt.addrs
      → (dsr_srt_prev_hop srt (pred_int sleft) ≡ get_elem? (nodes srt) i)
        × (dsr_srt_next_hop srt (pos sleft) ≡ get_elem? (nodes srt) (i + 1))
        × (dsr_srt_next_hop srt (pred_int sleft)
            ≡ (if sleft == 0 then some srt.dst else get_elem? (nodes srt) (i + 2)))
  hops_consecutive sleft i e =
      (prev_hop_at sleft i e, rw add-one (next_hop_at sleft i e), after sleft e)
    where
      after :
          (s : ℕ)
          → s + i ≡ length srt.addrs
          → dsr_srt_next_hop srt (pred_int s)
            ≡ (if s == 0 then some srt.dst else get_elem? (nodes srt) (i + 2))
      after zero e = unfold dsr_srt_next_hop in refl
      after (suc k) e = simp towards_suc (ground (arith, next_hop_at k (suc i)))
