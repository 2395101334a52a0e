-- ===== src/MaintBuf/Salvage.antt =====
-- maint-buf.c: `maint_buf_salvage`, which sends a packet on along another route.
use dsr_uu.Base.{
  ℕ, ◌+◌, ◌-◌, ◌%◌, Bool, List, [], ◌∷◌, Option, none, some, ◌==◌, ◌||◌, if◌then◌else◌, get_or,
  u32_mod,
}
use dsr_uu.Base.Int.{pos}
use dsr_uu.Srt.{
  Srt, Garbage, SrtOpt, addr_count, dsr_srt_new, dsr_srt_new_split, dsr_srt_concatenate,
  dsr_srt_check_duplicate, dsr_srt_opt_add, dsr_srt_next_hop,
}
use dsr_uu.LinkCache.{LcGraph}
use dsr_uu.LinkCache.Search.{lc_srt_find}
use dsr_uu.Pkt
use dsr_uu.Pkt.{DsrPkt, Opt}
use dsr_uu.Send.{hop_or_zero, srt_opt_len}

-- What `kmalloc` gives: the alternative route, the old one, the part that leads here, the new route,
-- the list of addresses of the check, and the space of options. `stray` is what stands behind the
-- block of an old route without addresses, whose first one is read.
pub record SalvageRoom : Type 0 where
  pub alt : Option Garbage
  pub old : Option Garbage
  pub to_me : Option Garbage
  pub new : Option Garbage
  pub check : Option Garbage
  pub opts : Bool
  pub stray : ℕ

-- `failed` is -1, where the caller frees the packet; `fault` is the read of a route at NULL.
pub data Salvage : Type 0 where
  salvaged : DsrPkt → Salvage
  failed fault : Salvage

-- The first option of the kind is the one that `dp` points to.
unfoldable pub overwrite_srt : SrtOpt → List Opt → List Opt
overwrite_srt o [] = []
overwrite_srt o (Pkt.Opt.srt b ∷ rest) = Pkt.Opt.srt o ∷ rest
overwrite_srt o (Pkt.Opt.ack_req b ∷ rest) = Pkt.Opt.ack_req b ∷ overwrite_srt o rest
overwrite_srt o (Pkt.Opt.rreq b ∷ rest) = Pkt.Opt.rreq b ∷ overwrite_srt o rest
overwrite_srt o (Pkt.Opt.rrep b ∷ rest) = Pkt.Opt.rrep b ∷ overwrite_srt o rest
overwrite_srt o (Pkt.Opt.rerr b ∷ rest) = Pkt.Opt.rerr b ∷ overwrite_srt o rest
overwrite_srt o (Pkt.Opt.ack b ∷ rest) = Pkt.Opt.ack b ∷ overwrite_srt o rest
overwrite_srt o (Pkt.Opt.other t l ∷ rest) = Pkt.Opt.other t l ∷ overwrite_srt o rest

-- The packet with the new route, `sleft` of whose hops are left. The space of options is a new one
-- where the length of the option changes.
unfoldable pub with_route : Bool → DsrPkt → SrtOpt → Srt → ℕ → Salvage
unfolding overwrite_srt
with_route room dp old_opt srt sleft =
    if old_opt.length + 2 == srt_opt_len srt || room
    then elim (dsr_srt_opt_add (srt_opt_len srt) 0 (old_opt.salv + 1) srt) [
      | none ↦ failed
      | some o ↦
          let o' : SrtOpt = record o { sleft = sleft % 64 } in
          salvaged (record dp {
            srt_opt = some o';
            opts = overwrite_srt o' dp.opts;
            nxt_hop = hop_or_zero (dsr_srt_next_hop srt (pos (sleft % 64)));
            srt = some srt;
          })
    ]
    else failed

-- The check for repetitions, whose -1 counts as one.
unfoldable pub checked : SalvageRoom → DsrPkt → SrtOpt → Srt → ℕ → Salvage
unfolding with_route
checked room dp old_opt srt sleft = elim (dsr_srt_check_duplicate room.check srt) [
  | none ↦ failed
  | some twice ↦ if twice then failed else with_route room.opts dp old_opt srt sleft
]

-- The old route up to this node, and the alternative one behind it.
unfoldable pub rerouted : SalvageRoom → ℕ → DsrPkt → SrtOpt → Srt → Srt → Salvage
unfolding checked
rerouted room myaddr dp old_opt old_srt alt_srt =
    if get_or old_srt.addrs 0 room.stray == dp.nxt_hop
    then checked room dp old_opt alt_srt (addr_count alt_srt)
    else elim (dsr_srt_new_split room.to_me (some old_srt) myaddr) [
      | none ↦ failed
      | some srt_to_me ↦ elim (dsr_srt_concatenate room.new (some srt_to_me) (some alt_srt)) [
        | none ↦ fault
        | some srt ↦
            checked room dp old_opt srt
              ((addr_count srt + u32_mod + u32_mod - addr_count srt_to_me - 1) % u32_mod)
      ]
    ]

-- Given the alternative route, the option of the packet, and the old route made from it.
unfoldable pub salvage_along : SalvageRoom → ℕ → DsrPkt → Srt → SrtOpt → Option Srt → Salvage
unfolding rerouted
salvage_along room myaddr dp alt_srt old_opt none = failed
salvage_along room myaddr dp alt_srt old_opt (some old_srt) =
    rerouted room myaddr dp old_opt old_srt alt_srt

unfoldable pub salvage_with : SalvageRoom → ℕ → DsrPkt → Option Srt → Option SrtOpt → Salvage
unfolding salvage_along
salvage_with room myaddr dp none old_opt? = failed
salvage_with room myaddr dp (some alt_srt) none = failed
salvage_with room myaddr dp (some alt_srt) (some old_opt) =
    salvage_along room myaddr dp alt_srt old_opt
      (dsr_srt_new room.old dp.src dp.dst ((old_opt.length + u32_mod - 2) % u32_mod) old_opt.addrs)

unfoldable pub maint_buf_salvage : SalvageRoom → ℕ → LcGraph → DsrPkt → LcGraph × Salvage
unfolding salvage_with
maint_buf_salvage room myaddr lc dp =
    let (lc', alt_srt?) = lc_srt_find room.alt lc myaddr dp.dst in
    (lc', salvage_with room myaddr dp alt_srt? dp.srt_opt)
