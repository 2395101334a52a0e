-- ===== src/Recv/Requests.antt =====
-- dsr-rreq.c: the handler of a route request.
use dsr_uu.Base.{
  ℕ, ◌+◌, ◌-◌, ◌/◌, ◌%◌, Bool, true, false, [], ◌∷◌, ◌++◌, Option, none, some, ltb, ◌==◌,
  if◌then◌else◌, get_or, take,
}
use dsr_uu.Srt.{
  Srt, occurs, dsr_srt_new, dsr_srt_new_rev, dsr_srt_concatenate, dsr_srt_check_duplicate,
}
use dsr_uu.LinkCache.Search.{lc_srt_find}
use dsr_uu.Rreq.{rreq_tbl_add_id, dsr_rreq_duplicate}
use dsr_uu.Pkt
use dsr_uu.Pkt.{Opt, RreqOpt, DsrPkt}
use dsr_uu.Rrep.Reply.{dsr_rrep_send}
use dsr_uu.Node.{Node, Env, Room, emit, set_lc, add_route, add_neigh, send_waiting, perform_all}
use dsr_uu.Recv.Action.{pkt_none, pkt_forward_rreq, pkt_drop, pkt_error, bit, Handled}

-- DSR_RREQ_ADDRS_LEN, for an option that is at least as long as its header.
abbrev pub rreq_addrs_len : RreqOpt → ℕ
rreq_addrs_len o = o.length - 6

-- The request with the address of this node behind the others; `length` has 8 bits.
unfoldable pub grown : ℕ → RreqOpt → RreqOpt
grown myaddr o = record o {
  addrs = take (rreq_addrs_len o / 4) o.addrs ++ myaddr ∷ [];
  length = (o.length + 4) % 256;
}

-- The identifier of the request goes into the table.
unfoldable pub note_request : Env → Room → Node → DsrPkt → RreqOpt → Node
note_request env room s dp o =
    let (t, actions) =
      rreq_tbl_add_id room.rreq room.rreq_id env.conf env.now s.rreq_tbl dp.src o.target o.id in
    perform_all room.pkt env (record s { rreq_tbl = t }) actions

-- The address of the node that the packet comes from, on the way back to the initiator.
abbrev pub previous_hop : Srt → ℕ
previous_hop srt_rev = if srt_rev.laddrs == 0 then srt_rev.dst else get_or srt_rev.addrs 0 0

-- What a request tells about the way back to its initiator.
unfoldable pub learn : Env → Room → Node → Srt → Node
learn env room s srt_rev =
    send_waiting room (add_neigh env room (add_route env room s srt_rev) (previous_hop srt_rev))
      srt_rev.dst

-- `rreq_forward`. There is more than 4 bytes of space behind the options of a packet that came in.
-- Where other options stand behind the request, of which the source moves only 4 bytes away and goes on
-- with what is left of them, the model has no result.
unfoldable pub forward_rreq : ℕ → Bool → Node → DsrPkt → RreqOpt → Option Handled
unfolding grown
forward_rreq myaddr last s dp o = elim last [
  | false ↦ none
  | true ↦
      let o' = grown myaddr o in
      some (record {
        node = s;
        dp = record dp { rreq_opt = some o' };
        opt = Pkt.Opt.rreq o';
        action = bit pkt_forward_rreq;
      })
]

-- A route from the cache, if it can be put behind the one that the request came by.
unfoldable pub cached_route : Room → Srt → Option Srt → Option Srt
cached_route room srt none = none
cached_route room srt (some srt_rc) =
    elim (dsr_srt_concatenate room.srt_cat (some srt) (some srt_rc)) [
      | none ↦ none
      | some srt_cat ↦ elim (dsr_srt_check_duplicate room.duplicates srt_cat) [
        | some true ↦ none
        | _ ↦ some srt_cat
      ]
    ]

-- A request that is not for this node and has not passed it: the cache answers, or it goes on.
unfoldable pub answer_or_forward :
    Env → Room → Bool → Node → DsrPkt → RreqOpt → Srt → Srt → Option Handled
unfolding forward_rreq cached_route
answer_or_forward env room last s dp o srt srt_rev =
    let (lc, srt_rc) = lc_srt_find room.srt_rc s.maint.lc env.my_addr o.target in
    elim (cached_route room srt srt_rc) [
      | none ↦ forward_rreq env.my_addr last (set_lc s lc) dp o
      | some srt_cat ↦ some (record {
        node = emit (set_lc s lc) (dsr_rrep_send room.pkt env.my_addr srt_rev srt_cat);
        dp = record dp { ip_dst = o.target };
        opt = Pkt.Opt.rreq o;
        action = bit pkt_none;
      })
    ]

-- The request came by `srt`. One that is answered has its target in the IP header from then on.
unfoldable pub rreq_route : Env → Room → Bool → Node → DsrPkt → RreqOpt → Srt → Srt → Option Handled
unfolding learn answer_or_forward
rreq_route env room last s dp o srt srt_rev =
    let dp' : DsrPkt = record dp { srt = some srt; prv_hop = previous_hop srt_rev } in
    let s' = learn env room s srt_rev in
    if o.target == env.my_addr
    then some (record {
      node = emit s' (dsr_rrep_send room.pkt env.my_addr srt_rev srt);
      dp = record dp' { ip_dst = o.target };
      opt = Pkt.Opt.rreq o;
      action = bit pkt_none;
    })
    else if srt.src == env.my_addr
    then some (record { node = s'; dp = dp'; opt = Pkt.Opt.rreq o; action = bit pkt_drop })
    else if occurs env.my_addr srt.addrs
    then some (record { node = s'; dp = dp'; opt = Pkt.Opt.rreq o; action = bit pkt_drop })
    else answer_or_forward env room last s' dp' o srt srt_rev

-- The request is new. `none` is an option whose length is less than that of its header.
unfoldable pub rreq_new : Env → Room → Bool → Node → DsrPkt → RreqOpt → Option Handled
unfolding note_request rreq_route
rreq_new env room last s dp o =
    let s' = note_request env room s dp o in
    let opt = Pkt.Opt.rreq o in
    if ltb o.length 6
    then none
    else elim (dsr_srt_new room.srt dp.src env.my_addr (rreq_addrs_len o) o.addrs) [
      | none ↦
          some
            (record { node = s'; dp = record dp { srt = none }; opt = opt; action = bit pkt_error })
      | some srt ↦ elim (dsr_srt_new_rev room.srt_rev (some srt)) [
        | none ↦ some (record {
          node = s';
          dp = record dp { srt = some srt };
          opt = opt;
          action = bit pkt_error;
        })
        | some srt_rev ↦ rreq_route env room last s' dp o srt srt_rev
      ]
    ]

-- `last` tells whether the request is the last option of the packet.
unfoldable pub dsr_rreq_opt_recv : Env → Room → Bool → Node → DsrPkt → RreqOpt → Option Handled
unfolding rreq_new
dsr_rreq_opt_recv env room last s dp o =
    let opt = Pkt.Opt.rreq o in
    if dp.promisc_recv
    then some (record { node = s; dp = dp; opt = opt; action = bit pkt_drop })
    else (let dp1 : DsrPkt = record dp { num_rreq_opts = dp.num_rreq_opts + 1 } in
        if ltb 1 dp1.num_rreq_opts
        then some (record { node = s; dp = dp1; opt = opt; action = bit pkt_error })
        else (let dp2 : DsrPkt = record dp1 { rreq_opt = some o } in
            if dsr_rreq_duplicate s.rreq_tbl dp.src o.target o.id
            then some (record { node = s; dp = dp2; opt = opt; action = bit pkt_drop })
            else rreq_new env room last s dp2 o))
