-- ===== src/Recv/RoundTrip.antt =====
-- dsr-rrep.c: the route that a reply tells is the one that its receiver takes from it.
use dsr_uu.Base.{
  ℕ, ◌+◌, ◌*◌, ◌/◌, ◌≤◌, ◌<◌, ◌≡◌, refl, ap, ap, ◌∙◌, false, List, [], ◌∷◌, ◌++◌, some, ◌==◌,
  if◌then◌else◌, arith, take, length, get_or, take_all,
}
use dsr_uu.Srt.{Garbage, Srt, addr_count, dsr_srt_new}
use dsr_uu.Pkt
use dsr_uu.Pkt.{Opt, RrepOpt, DsrPkt}
use dsr_uu.Rrep.Reply.{rrep_opt_len, dsr_rrep_add_srt, dsr_rrep_opt_add}
use dsr_uu.Node.{Node, Env, Room, add_route}
use dsr_uu.Recv.Action.{pkt_send_buffered, pkt_forward, bit, Handled}
use dsr_uu.Recv.Replies.{
  max_rrep_opts, rrep_addrs_len, rrep_srt_dst, cancel_discovery, dsr_rrep_opt_recv,
}

take_front : (xs ys : List ℕ) → take (length xs) (xs ++ ys) ≡ xs
take_front [] ys = refl
take_front (x ∷ xs) ys = ap (◌∷◌ x) (take_front xs ys)

get_behind : (xs : List ℕ) (y d : ℕ) → get_or (xs ++ y ∷ []) (length xs) d ≡ y
get_behind [] y d = refl
get_behind (x ∷ xs) y d = get_behind xs y d

-- The option for a route whose array has the length that it says, and fits one.
abbrev pub told : Srt → RrepOpt
told srt = record { length = srt.laddrs + 5; l = 0; res = 0; addrs = srt.addrs ++ srt.dst ∷ [] }

opt_add-told :
    (len : ℕ) (srt : Srt)
    → srt.laddrs ≡ 4 * length srt.addrs
    → srt.laddrs + 5 < 256
    → rrep_opt_len srt ≤ len
    → dsr_rrep_opt_add len srt ≡ some (told srt)
unfolding dsr_rrep_opt_add dsr_rrep_add_srt
opt_add-told len srt sized fits room =
    ground (arith, sized, take_all (addr_count srt) srt.addrs (omega (arith, sized)))

-- The same route in a new block.
abbrev pub in_block : Garbage → Srt → Srt
in_block m srt = record srt { flags = m.flags; index = m.index }

-- What the receiver makes of the reply.
abbrev pub taken : Env → Room → Node → DsrPkt → RrepOpt → Srt → Handled
taken env room s dp r srt = record {
  node = cancel_discovery env room (add_route env room s srt) srt.dst;
  dp = record dp { rrep_opt = dp.rrep_opt ++ r ∷ [] };
  opt = Pkt.Opt.rrep r;
  action = if dp.dst == env.my_addr then bit pkt_send_buffered else bit pkt_forward;
}

block_eq :
    (m : Garbage) (srt : Srt) (dst laddrs : ℕ) (addrs : List ℕ)
    → dst ≡ srt.dst
    → laddrs ≡ srt.laddrs
    → addrs ≡ srt.addrs
    → some (record {
      src = srt.src;
      dst = dst;
      flags = m.flags;
      index = m.index;
      laddrs = laddrs;
      addrs = addrs;
    })
      ≡ some (in_block m srt)
block_eq m srt dst laddrs addrs d l a = cc

new-told :
    (m : Garbage) (srt : Srt)
    → srt.laddrs ≡ 4 * length srt.addrs
    → dsr_srt_new
        (some m)
        srt.src
        (rrep_srt_dst (told srt))
        (rrep_addrs_len (told srt))
        (told srt).addrs
      ≡ some (in_block m srt)
unfolding dsr_srt_new rrep_srt_dst
new-told m srt sized =
    let n : rrep_addrs_len (told srt) / 4 ≡ length srt.addrs = omega (arith, sized) in
    block_eq m srt (rrep_srt_dst (told srt)) (rrep_addrs_len (told srt))
      (take (rrep_addrs_len (told srt) / 4) (srt.addrs ++ srt.dst ∷ []))
      (ap (λ i. get_or (srt.addrs ++ srt.dst ∷ []) i 0) n ∙ get_behind srt.addrs srt.dst 0)
      (omega arith)
      (ap (λ i. take i (srt.addrs ++ srt.dst ∷ [])) n ∙ take_front srt.addrs (srt.dst ∷ []))

-- A route of at most 62 addresses, in an array of the length that it says, put into the option of a
-- route reply where the buffer has room for it: a node that handles the option, in a packet to the
-- source of the route that was not overheard and holds less than ten replies, with memory for a route,
-- adds that very route to its cache, but for two fields that no constructor sets, ends the discovery
-- of the route's destination, and sends the packet on, or the packets that wait if it is the source.
pub dsr_rrep_opt_recv-dsr_rrep_opt_add :
    (env : Env) (room : Room) (s : Node) (dp : DsrPkt) (len : ℕ) (srt : Srt) (m : Garbage)
    → srt.laddrs ≡ 4 * length srt.addrs
    → srt.laddrs + 5 < 256
    → rrep_opt_len srt ≤ len
    → dp.dst ≡ srt.src
    → dp.promisc_recv ≡ false
    → length dp.rrep_opt < max_rrep_opts
    → room.srt ≡ some m
    → (r : RrepOpt) × (dsr_rrep_opt_add len srt ≡ some r)
      × (dsr_rrep_opt_recv env room s dp r ≡ some (taken env room s dp r (in_block m srt)))
unfolding dsr_rrep_opt_recv
dsr_rrep_opt_recv-dsr_rrep_opt_add env room s dp len srt m sized fits buf dst p few block =
    let read : dsr_srt_new room.srt dp.dst (rrep_srt_dst (told srt)) (rrep_addrs_len (told srt))
          (told srt).addrs
        ≡ some (in_block m srt) =
      ap
        (λ b.
          dsr_srt_new b dp.dst (rrep_srt_dst (told srt)) (rrep_addrs_len (told srt))
            (told srt).addrs)
        block
      ∙ ap
          (λ a.
            dsr_srt_new (some m) a (rrep_srt_dst (told srt)) (rrep_addrs_len (told srt))
              (told srt).addrs)
          dst
      ∙ new-told m srt sized in
    (told srt, opt_add-told len srt sized fits buf, ground (arith, read, p, few))
