-- ===== src/Recv/Total.antt =====
-- A packet that arrives is handled to the end, and leaves the node sound.
use dsr_uu.Base.{
  ℕ, suc, ◌≡◌, refl, sym, subst, Bool, true, false, List, [], ◌∷◌, ◌++◌, Option, none, some, arith,
  if◌then◌else◌,
}
use dsr_uu.Rreq.Table.{IsLimit}
use dsr_uu.Pkt.{Opt, RrepOpt, DsrPkt}
use dsr_uu.Node.{Node, Env, Room, emit, send_waiting}
use dsr_uu.Node.Invariant.{IsNode, send_waiting-IsNode}
use dsr_uu.Recv.Action.{Actions, pkt_send_buffered, ◌or◌, Handled}
use dsr_uu.Recv.Replies.{rrep_srt_dst}
use dsr_uu.Recv.Sound.{IsOpts, Sound, opt-Sound}
use dsr_uu.Recv.Fate.{act-fate, fate}
use dsr_uu.Recv.{
  Received, is_last, recv_opt, recv_opts, for_me, dsr_opt_recv, masks, send_buffered, act, dsr_recv,
}

abbrev pub SoundNode : ℕ → Option Node → Type 0
SoundNode k none = ⊥
SoundNode k (some s) = IsNode k s

module _ (k : ℕ) (env : Env) (lim : IsLimit env.conf) where
  abbrev SoundReceived : Option Received → Type 0
  SoundReceived none = ⊥
  SoundReceived (some r) = IsNode k r.node

  opts-Sound :
      (rooms : ℕ → Room) (memory : (n : ℕ) → (rooms n).ack_pkt ≡ true) (i : ℕ) (s : Node)
      (dp : DsrPkt) (action : Actions) (done opts : List Opt)
      → IsOpts opts
      → IsNode k s
      → SoundReceived (recv_opts env rooms i s dp action done opts)
  unfolding recv_opts
  opts-Sound rooms memory i s dp action done [] h v = v
  opts-Sound rooms memory i s dp action done (o ∷ rest) h v =
      go (recv_opt env (rooms i) (is_last rest) s dp o)
        (opt-Sound k env (rooms i) lim (memory i) (is_last rest) s dp o h.0 v)
        (λ g w.
          opts-Sound rooms memory (suc i) g.node g.dp (action or g.action) (done ++ g.opt ∷ []) rest
            h.1 w)
    where
      Then : Handled → Type 0
      Then g =
          SoundReceived
            (recv_opts env rooms (suc i) g.node g.dp (action or g.action) (done ++ g.opt ∷ []) rest)

      go :
          (r : Option Handled)
          → Sound k env (rooms i) lim (memory i) r
          → ((g : Handled) → IsNode k g.node → Then g)
          → SoundReceived (elim r [
            | none ↦ none
            | some h ↦
                recv_opts env rooms
                  (suc i)
                  h.node
                  h.dp
                  (action or h.action)
                  (done ++ h.opt ∷ [])
                  rest
          ])
      go none e f = e
      go (some g) e f = f g e

  send_buffered-IsNode :
      (rooms : ℕ → Room) (i : ℕ) (s : Node) (opts : List RrepOpt)
      → IsNode k s
      → IsNode k (send_buffered rooms i s opts)
  unfolding send_buffered
  send_buffered-IsNode rooms i s [] v = v
  send_buffered-IsNode rooms i s (o ∷ rest) v =
      send_buffered-IsNode rooms (suc i) (send_waiting (rooms i) s (rrep_srt_dst o)) rest
        (send_waiting-IsNode k (rooms i) s (rrep_srt_dst o) v)

  act-IsNode :
      (later : ℕ → Room) (s : Node) (dp : DsrPkt) (action : Actions)
      → IsNode k s
      → IsNode k (act later s dp action masks)
  act-IsNode later s dp action v =
      subst (IsNode k) (sym (act-fate later s dp action)) (go (action pkt_send_buffered))
    where
      go :
          (b : Bool)
          → IsNode k
              (emit (if b then send_buffered later 0 s dp.rrep_opt else s) (fate dp action ∷ []))
      go true = send_buffered-IsNode later 0 s dp.rrep_opt v
      go false = v

  pub handled-Sound :
      (rooms later : ℕ → Room) (s : Node) (dp : DsrPkt)
      → ((n : ℕ) → (rooms n).ack_pkt ≡ true)
      → IsOpts dp.opts
      → IsNode k s
      → SoundNode k (dsr_recv env rooms later s dp)
  unfolding dsr_recv dsr_opt_recv
  handled-Sound rooms later s dp memory h v =
      go (recv_opts env rooms 0 s dp (for_me env dp) [] dp.opts) refl
        (opts-Sound rooms memory 0 s dp (for_me env dp) [] dp.opts h v)
    where
      go :
          (r : Option Received)
          → recv_opts env rooms 0 s dp (for_me env dp) [] dp.opts ≡ r
          → SoundReceived r
          → SoundNode k (dsr_recv env rooms later s dp)
      go none e w = absurd w
      go (some r) e w = ground (arith, v, e, w, act-IsNode later r.node r.dp r.action w)
