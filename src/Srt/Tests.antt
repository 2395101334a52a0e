-- ===== src/Srt/Tests.antt =====
-- dsr-srt.c: the theorems at concrete routes.
use dsr_uu.Base.{
  ◌-◌, ◌≡◌, ◌↔◌, refl, false, [], ◌∷◌, ◌++◌, some, reverse, arith, get_elem?, take, drop,
}
use dsr_uu.Base.Int.{pos, pred_int}
use dsr_uu.Srt.{
  Srt, Garbage, SrtOpt, dsr_srt_next_hop, dsr_srt_prev_hop, dsr_srt_new, dsr_srt_new_rev,
  dsr_srt_new_split, dsr_srt_shortcut, dsr_srt_concatenate, dsr_srt_check_duplicate,
  dsr_srt_opt_add,
}
use dsr_uu.Srt.Route.{nodes, IsSrt}
use dsr_uu.Srt.Hops.{hops_consecutive}
use dsr_uu.Srt.Shape.{
  dsr_srt_new_rev-nodes, dsr_srt_new_split_lem, SplitResult, dsr_srt_concatenate-nodes,
}
use dsr_uu.Srt.Duplicates.{Distinct, dsr_srt_check_duplicate_lem}
use dsr_uu.Srt.Shortcut.{dsr_srt_shortcut-nodes}
use dsr_uu.Srt.Options.{dsr_srt_opt_add-dsr_srt_new}

abbrev block : Garbage
block = record { flags = 0; index = 0 }

abbrev route : Srt
route = record { src = 1; dst = 5; flags = 0; index = 0; laddrs = 12; addrs = 2 ∷ 3 ∷ 4 ∷ [] }

abbrev onward : Srt
onward = record { src = 5; dst = 7; flags = 0; index = 0; laddrs = 4; addrs = 6 ∷ [] }

route-IsSrt : IsSrt route
route-IsSrt = record { sized = refl; is_word = omega arith }

onward-IsSrt : IsSrt onward
onward-IsSrt = record { sized = refl; is_word = omega arith }

hops_consecutive_example :
    (dsr_srt_prev_hop route (pred_int 2) ≡ get_elem? (nodes route) 1)
    × (dsr_srt_next_hop route (pos 2) ≡ get_elem? (nodes route) 2)
    × (dsr_srt_next_hop route (pred_int 2) ≡ get_elem? (nodes route) 3)
hops_consecutive_example = hops_consecutive route route-IsSrt 2 1 refl

dsr_srt_new_rev-nodes_example :
    (rev : Srt) × (dsr_srt_new_rev (some block) (some route) ≡ some rev)
    × (nodes rev ≡ reverse (nodes route))
    × IsSrt rev
dsr_srt_new_rev-nodes_example = dsr_srt_new_rev-nodes block route route-IsSrt

dsr_srt_new_split_lem_example : SplitResult route 3 (dsr_srt_new_split (some block) (some route) 3)
dsr_srt_new_split_lem_example = dsr_srt_new_split_lem block route 3 route-IsSrt

dsr_srt_concatenate-nodes_example :
    (cat : Srt) × (dsr_srt_concatenate (some block) (some route) (some onward) ≡ some cat)
    × (nodes cat ≡ nodes route ++ (onward.addrs ++ onward.dst ∷ []))
    × IsSrt cat
dsr_srt_concatenate-nodes_example =
    dsr_srt_concatenate-nodes block route onward route-IsSrt onward-IsSrt refl (omega arith)

dsr_srt_check_duplicate_lem_example :
    (dsr_srt_check_duplicate (some block) route ≡ some false) ↔ Distinct (nodes route)
dsr_srt_check_duplicate_lem_example = dsr_srt_check_duplicate_lem block route

dsr_srt_shortcut-nodes_example :
    (cut : Srt) × (dsr_srt_shortcut (some block) (some route) 2 4 ≡ some cut)
    × (nodes cut ≡ take 2 (nodes route) ++ drop 3 (nodes route))
    × IsSrt cut
dsr_srt_shortcut-nodes_example =
    dsr_srt_shortcut-nodes route route-IsSrt (ground arith) block 2 4 1 3 (omega arith) refl refl

dsr_srt_opt_add-dsr_srt_new_example :
    (o : SrtOpt) × (back : Srt) × (dsr_srt_opt_add 40 1 0 route ≡ some o)
    × (dsr_srt_new (some block) 1 5 (o.length - 2) o.addrs ≡ some back)
    × (nodes back ≡ nodes route)
    × (o.sleft ≡ 3)
    × IsSrt back
dsr_srt_opt_add-dsr_srt_new_example =
    dsr_srt_opt_add-dsr_srt_new block route 40 1 0 route-IsSrt (omega arith) (omega arith)
