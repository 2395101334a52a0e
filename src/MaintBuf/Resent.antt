-- ===== src/MaintBuf/Resent.antt =====
-- maint-buf.c: what `maint_buf_salvage` makes of a packet.
use dsr_uu.Base.{
  ℕ, ◌+◌, ◌-◌, ◌%◌, ◌≡◌, ◌≢◌, refl, sym, ap, ◌∙◌, Bool, true, false, List, [], ◌∷◌, ◌++◌, All, take,
  Option, none, some, inl, inr, arith, ◌==◌, ◌||◌, u32_mod, get_or, Bool-cases, Option-cases,
}
use dsr_uu.Tbl.{tbl_find}
use dsr_uu.Srt.{
  Srt, Garbage, SrtOpt, addr_count, dsr_srt_next_hop, dsr_srt_new, dsr_srt_new_split,
  dsr_srt_concatenate, dsr_srt_check_duplicate, dsr_srt_opt_add,
}
use dsr_uu.Srt.Route.{nodes}
use dsr_uu.Srt.Duplicates.{Distinct, dsr_srt_check_duplicate_lem}
use dsr_uu.LinkCache.{LcGraph, Memory, crit_addr}
use dsr_uu.LinkCache.Search.{dijkstra, lc_srt_find, route_to}
use dsr_uu.LinkCache.Answer.{lc_srt_find_absent, lc_srt_find_present}
use dsr_uu.Base.Int.{pos}
use dsr_uu.Pkt
use dsr_uu.Pkt.{Opt, DsrPkt}
use dsr_uu.Send.{hop_or_zero, srt_opt_len}
use dsr_uu.MaintBuf.Salvage.{
  overwrite_srt, SalvageRoom, Salvage, salvaged, failed, fault, with_route, checked, rerouted,
  salvage_along, salvage_with, maint_buf_salvage,
}

abbrev is_srt : Opt → Bool
is_srt (Pkt.Opt.srt o) = true
is_srt (Pkt.Opt.rreq o) = false
is_srt (Pkt.Opt.rrep o) = false
is_srt (Pkt.Opt.rerr o) = false
is_srt (Pkt.Opt.ack o) = false
is_srt (Pkt.Opt.ack_req o) = false
is_srt (Pkt.Opt.other t l) = false

-- The first source route among the options is the given one now, and the others are as they were.
abbrev pub Replaced : SrtOpt → List Opt → List Opt → Type 0
Replaced o xs ys =
    (before behind : List Opt) (b : SrtOpt)
    → All (λ x. is_srt x ≡ false) before
    → xs ≡ before ++ Pkt.Opt.srt b ∷ behind
    → ys ≡ before ++ Pkt.Opt.srt o ∷ behind

overwrite_at :
    (o b : SrtOpt) (before behind : List Opt)
    → All (λ x. is_srt x ≡ false) before
    → overwrite_srt o (before ++ Pkt.Opt.srt b ∷ behind) ≡ before ++ Pkt.Opt.srt o ∷ behind
unfolding overwrite_srt
overwrite_at o b [] behind h = refl
overwrite_at o b (Pkt.Opt.srt x ∷ rest) behind h = cc
overwrite_at o b (Pkt.Opt.rreq x ∷ rest) behind h =
    ap (◌∷◌ (Pkt.Opt.rreq x)) (overwrite_at o b rest behind h.1)
overwrite_at o b (Pkt.Opt.rrep x ∷ rest) behind h =
    ap (◌∷◌ (Pkt.Opt.rrep x)) (overwrite_at o b rest behind h.1)
overwrite_at o b (Pkt.Opt.rerr x ∷ rest) behind h =
    ap (◌∷◌ (Pkt.Opt.rerr x)) (overwrite_at o b rest behind h.1)
overwrite_at o b (Pkt.Opt.ack x ∷ rest) behind h =
    ap (◌∷◌ (Pkt.Opt.ack x)) (overwrite_at o b rest behind h.1)
overwrite_at o b (Pkt.Opt.ack_req x ∷ rest) behind h =
    ap (◌∷◌ (Pkt.Opt.ack_req x)) (overwrite_at o b rest behind h.1)
overwrite_at o b (Pkt.Opt.other t l ∷ rest) behind h =
    ap (◌∷◌ (Pkt.Opt.other t l)) (overwrite_at o b rest behind h.1)

overwrite_srt-Replaced : (o : SrtOpt) (xs : List Opt) → Replaced o xs (overwrite_srt o xs)
overwrite_srt-Replaced o xs before behind b h e =
    ap (overwrite_srt o) e ∙ overwrite_at o b before behind h

-- A salvaged packet is the old one on a route to its destination on which no node stands twice: the
-- option holds the addresses of the route in place of the old ones, its salvage count, of 4 bits, is
-- one more, and the next hop is the one that the route has where as many segments are left.
abbrev pub IsResent : DsrPkt → Salvage → Type 0
IsResent dp failed = Unit
IsResent dp fault = Unit
IsResent dp (salvaged dp') =
    (srt : Srt) × (old o : SrtOpt) × (dp.srt_opt ≡ some old)
    × (dp'.srt_opt ≡ some o)
    × (dp'.srt ≡ some srt)
    × (o.salv ≡ (old.salv + 1) % 16)
    × (o.addrs ≡ take (addr_count srt) srt.addrs)
    × (dp'.nxt_hop ≡ hop_or_zero (dsr_srt_next_hop srt (pos o.sleft)))
    × Replaced o dp.opts dp'.opts
    × (srt.dst ≡ dp.dst)
    × Distinct (nodes srt)
    × (dp'.src ≡ dp.src)
    × (dp'.dst ≡ dp.dst)
    × (dp'.payload ≡ dp.payload)

opt_add-addrs :
    (len flags salv : ℕ) (srt : Srt) (o : SrtOpt)
    → dsr_srt_opt_add len flags salv srt ≡ some o
    → o.addrs ≡ take (addr_count srt) srt.addrs
unfolding dsr_srt_opt_add
opt_add-addrs len flags salv srt o e = ground (arith, e)

opt_add-salv :
    (len flags salv : ℕ) (srt : Srt) (o : SrtOpt)
    → dsr_srt_opt_add len flags salv srt ≡ some o
    → o.salv ≡ salv % 16
unfolding dsr_srt_opt_add
opt_add-salv len flags salv srt o e = ground (arith, e)

abbrev LeadsTo : ℕ → Option Srt → Type 0
LeadsTo dst none = Unit
LeadsTo dst (some srt) = srt.dst ≡ dst

route_to-LeadsTo :
    (block : Option Garbage) (mem : Memory) (src dst d : ℕ)
    → LeadsTo dst (route_to block mem src dst d)
unfolding route_to
route_to-LeadsTo block mem src dst d = ground arith

lc_srt_find-LeadsTo :
    (block : Option Garbage) (lc : LcGraph) (src dst : ℕ)
    → LeadsTo dst (lc_srt_find block lc src dst).1
unfolding lc_srt_find
lc_srt_find-LeadsTo block lc src dst = elim (Bool-cases (src == dst)) [
  | inl e ↦ rw e tt
  | inr e ↦
      let lc' = dijkstra lc src in
      let apart : src ≢ dst = ground arith in
      elim (Option-cases (tbl_find lc'.nodes (crit_addr lc'.mem dst))) [
        | inl n ↦ rw (lc_srt_find_absent block lc lc' src dst apart refl n) tt
        | inr (d, y) ↦
            rw (lc_srt_find_present block lc lc' src dst d apart refl y)
              (route_to-LeadsTo block lc'.mem src dst d)
      ]
]

concatenate-dst :
    (m : Option Garbage) (s1 s2 srt : Srt)
    → dsr_srt_concatenate m (some s1) (some s2) ≡ some srt
    → srt.dst ≡ s2.dst
unfolding dsr_srt_concatenate
concatenate-dst none s1 s2 srt e = ground (arith, e)
concatenate-dst (some m) s1 s2 srt e = ground (arith, e)

with_route-IsResent :
    (room : Bool) (dp : DsrPkt) (old : SrtOpt) (srt : Srt) (sleft : ℕ)
    → dp.srt_opt ≡ some old
    → srt.dst ≡ dp.dst
    → Distinct (nodes srt)
    → IsResent dp (with_route room dp old srt sleft)
unfolding with_route
with_route-IsResent room dp old srt sleft e to d =
    elim (Bool-cases (old.length + 2 == srt_opt_len srt || room)) [
      | inr n ↦ rw (n, IsResent) tt
      | inl y ↦ elim (Option-cases (dsr_srt_opt_add (srt_opt_len srt) 0 (old.salv + 1) srt)) [
        | inl n ↦ rw (y, IsResent) (rw (n, IsResent) tt)
        | inr (o, at) ↦
            rw (y, IsResent)
              (rw (at, IsResent)
                (
                  srt,
                  old,
                  record o { sleft = sleft % 64 },
                  e,
                  refl,
                  refl,
                  opt_add-salv (srt_opt_len srt) 0 (old.salv + 1) srt o at,
                  opt_add-addrs (srt_opt_len srt) 0 (old.salv + 1) srt o at,
                  refl,
                  overwrite_srt-Replaced (record o { sleft = sleft % 64 }) dp.opts,
                  to,
                  d,
                  refl,
                  refl,
                  refl,
                ))
      ]
    ]

no_room :
    (room : SalvageRoom) (srt : Srt)
    → room.check ≡ none
    → dsr_srt_check_duplicate room.check srt ≡ none
unfolding dsr_srt_check_duplicate
no_room room srt n = rw n refl

checked-IsResent :
    (room : SalvageRoom) (dp : DsrPkt) (old : SrtOpt) (srt : Srt) (sleft : ℕ)
    → dp.srt_opt ≡ some old
    → srt.dst ≡ dp.dst
    → IsResent dp (checked room dp old srt sleft)
unfolding checked
checked-IsResent room dp old srt sleft e to = elim (Option-cases room.check) [
  | inl n ↦ rw (no_room room srt n, IsResent) tt
  | inr (m, y) ↦ elim (Option-cases (dsr_srt_check_duplicate room.check srt)) [
    | inl n ↦ rw (n, IsResent) tt
    | inr (true, y') ↦ rw (y', IsResent) tt
    | inr (false, y') ↦
        rw (y', IsResent)
          (with_route-IsResent room.opts dp old srt sleft e to (
            (dsr_srt_check_duplicate_lem m srt).0
              (ap (λ c. dsr_srt_check_duplicate c srt) (sym y) ∙ y')))
  ]
]

rerouted-IsResent :
    (room : SalvageRoom) (myaddr : ℕ) (dp : DsrPkt) (old : SrtOpt) (old_srt alt_srt : Srt)
    → dp.srt_opt ≡ some old
    → alt_srt.dst ≡ dp.dst
    → IsResent dp (rerouted room myaddr dp old old_srt alt_srt)
unfolding rerouted
rerouted-IsResent room myaddr dp old old_srt alt_srt e to =
    elim (Bool-cases (get_or old_srt.addrs 0 room.stray == dp.nxt_hop)) [
      | inl y ↦ rw (y, IsResent) (checked-IsResent room dp old alt_srt (addr_count alt_srt) e to)
      | inr n ↦ elim (Option-cases (dsr_srt_new_split room.to_me (some old_srt) myaddr)) [
        | inl none_left ↦ rw (n, IsResent) (rw (none_left, IsResent) tt)
        | inr (to_me, y) ↦
            elim (Option-cases (dsr_srt_concatenate room.new (some to_me) (some alt_srt))) [
              | inl short ↦ rw (n, IsResent) (rw (y, IsResent) (rw (short, IsResent) tt))
              | inr (srt, y') ↦
                  rw (n, IsResent)
                    (rw (y, IsResent)
                      (rw (y', IsResent)
                        (checked-IsResent room dp old srt
                          ((addr_count srt + u32_mod + u32_mod - addr_count to_me - 1) % u32_mod) e
                          (concatenate-dst room.new to_me alt_srt srt y' ∙ to))))
            ]
      ]
    ]

salvage_along-IsResent :
    (room : SalvageRoom) (myaddr : ℕ) (dp : DsrPkt) (alt : Srt) (old : SrtOpt)
    (old_srt? : Option Srt)
    → dp.srt_opt ≡ some old
    → alt.dst ≡ dp.dst
    → IsResent dp (salvage_along room myaddr dp alt old old_srt?)
unfolding salvage_along
salvage_along-IsResent room myaddr dp alt old none e to = tt
salvage_along-IsResent room myaddr dp alt old (some old_srt) e to =
    rerouted-IsResent room myaddr dp old old_srt alt e to

salvage_with-IsResent :
    (room : SalvageRoom) (myaddr : ℕ) (dp : DsrPkt) (alt? : Option Srt) (old? : Option SrtOpt)
    → dp.srt_opt ≡ old?
    → LeadsTo dp.dst alt?
    → IsResent dp (salvage_with room myaddr dp alt? old?)
unfolding salvage_with
salvage_with-IsResent room myaddr dp none old? e to = tt
salvage_with-IsResent room myaddr dp (some alt) none e to = tt
salvage_with-IsResent room myaddr dp (some alt) (some old) e to =
    salvage_along-IsResent room myaddr dp alt old
      (dsr_srt_new room.old dp.src dp.dst ((old.length + u32_mod - 2) % u32_mod) old.addrs) e to

-- Whatever memory gives: a packet that is salvaged has a route to its own destination on which no node
-- stands twice. The option that stands in the place of the first source route among its options, where
-- the others are as they were, holds the addresses of that route; the packet goes to the hop that the
-- route has where as many segments are left as the option says; its salvage count is one more, in 4
-- bits; and its source, destination and payload are kept.
pub maint_buf_salvage-IsResent :
    (room : SalvageRoom) (myaddr : ℕ) (lc : LcGraph) (dp : DsrPkt)
    → IsResent dp (maint_buf_salvage room myaddr lc dp).1
unfolding maint_buf_salvage
maint_buf_salvage-IsResent room myaddr lc dp =
    salvage_with-IsResent room myaddr dp (lc_srt_find room.alt lc myaddr dp.dst).1 dp.srt_opt refl
      (lc_srt_find-LeadsTo room.alt lc myaddr dp.dst)
