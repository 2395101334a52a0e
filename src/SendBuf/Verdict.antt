-- ===== src/SendBuf/Verdict.antt =====
-- send-buf.c with link-cache.c and dsr-srt.c: what becomes of the packets for a destination.
use dsr_uu.Base.{
  ℕ, ◌+◌, ◌*◌, ◌≤◌, ◌<◌, ◌≡◌, ◌≢◌, refl, sym, ◌∙◌, Bool, true, List, [], ◌∷◌, ◌++◌, map, Option,
  none, some, arith, All, length, accept, reject, All-accept,
}
use mathlib.Core.List.{append-nil, append_assoc}
use dsr_uu.Tbl.{Tbl, for_each}
use dsr_uu.Tbl.Order.{reject-IsSorted}
use dsr_uu.Tbl.Drain.{drain-Drained}
use dsr_uu.Srt.{Srt, Garbage}
use dsr_uu.LinkCache.{LcGraph, lc_cost_inf}
use dsr_uu.LinkCache.Search.{lc_srt_find}
use dsr_uu.LinkCache.Start.{IsGraph}
use dsr_uu.LinkCache.Find.{IsCheapest, lc_srt_find-IsCheapest}
use dsr_uu.LinkCache.Again.{Kept, Kept-refl, Kept-trans, Kept-IsCheapest, lc_srt_find-Kept}
use dsr_uu.Pkt.{DsrPkt}
use dsr_uu.Send.{Effect, dsr_pkt_free, icmp_send}
use dsr_uu.SendBuf.{
  SendBufEntry, crit_addr, SendBufVerdict, drop, send, Sending, drop_one, routed, send_one,
  verdict_body, send_buf_set_verdict,
}
use dsr_uu.SendBuf.Routed.{Routed, routed-Routed}
use dsr_uu.SendBuf.Queue.{arrival, IsSendBuf}

-- What a verdict leaves of the buffer: the packets for other destinations, in order.
abbrev pub Others : Tbl SendBufEntry → ℕ → Tbl SendBufEntry → Type 0
Others t dst t' =
    (t'.items ≡ reject (crit_addr dst) t.items) × IsSendBuf t' × (t'.max_len ≡ t.max_len)

-- One message for the first packet, and all of them freed, in order.
abbrev pub dropped : List SendBufEntry → List Effect
dropped [] = []
dropped (e ∷ rest) = icmp_send e.dp ∷ map (λ (x : SendBufEntry). dsr_pkt_free x.dp) (e ∷ rest)

drop_rest :
    (xs : List SendBufEntry) (s : Sending)
    → 0 < s.pkts
    → for_each drop_one xs s ≡ record s {
      effects = s.effects ++ map (λ (x : SendBufEntry). dsr_pkt_free x.dp) xs;
      pkts = s.pkts + length xs;
    }
unfolding for_each drop_one
drop_rest [] s h = ground (arith, append-nil s.effects)
drop_rest (x ∷ xs) s h = ground (
  arith,
  drop_rest xs (drop_one s x),
  append_assoc s.effects (dsr_pkt_free x.dp ∷ [])
      (map (λ (x : SendBufEntry). dsr_pkt_free x.dp) xs),
)

drop_all :
    (xs : List SendBufEntry) (lc : LcGraph)
    → for_each drop_one xs (record { lc = lc; effects = []; pkts = 0 })
      ≡ record { lc = lc; effects = dropped xs; pkts = length xs }
unfolding for_each drop_one
drop_all [] lc = refl
drop_all (x ∷ xs) lc =
    ground
      (arith, drop_rest xs (drop_one (record { lc = lc; effects = []; pkts = 0 }) x) (omega arith))

-- Each packet is sent on a cheapest route, or freed where no route leads to its destination.
abbrev pub Sent : LcGraph → List SendBufEntry → List Effect → Type 0
Sent lc [] effects = effects ≡ []
Sent lc (e ∷ es) effects =
    (r : Option Srt) × (f : Effect) × (rest : List Effect) × (effects ≡ f ∷ rest)
    × IsCheapest lc e.dp.src e.dp.dst r
    × Routed e.dp r f
    × Sent lc es rest

module _ (block : ℕ → Option Garbage) (room : ℕ → Bool) (lc : LcGraph) (t : Tbl SendBufEntry)
    (dst : ℕ) where
  abbrev fresh : Sending
  fresh = record { lc = lc; effects = []; pkts = 0 }

  pub verdict_drains :
      (verdict : SendBufVerdict)
      → IsSendBuf t
      → Others t dst (send_buf_set_verdict block room lc t verdict dst).0
        × ((send_buf_set_verdict block room lc t verdict dst).1
            ≡ for_each (verdict_body block room verdict) (accept (crit_addr dst) t.items) fresh)
  unfolding send_buf_set_verdict
  verdict_drains verdict v =
      let (items, state, ok, max) =
        drain-Drained (crit_addr dst) (verdict_body block room verdict) (length t.items) t fresh
          v.table (omega arith) in
      (
        (
          items,
          record {
            table = ok;
            in_order = rw items (reject-IsSorted arrival (crit_addr dst) t.items v.in_order);
          },
          max,
        ),
        state,
      )

  -- A verdict that drops, on a well-formed buffer: all packets for the destination are freed in
  -- order, an ICMP message answers the first of them only, and their number is the result; those
  -- for other destinations stay in order.
  pub send_buf_set_verdict-drop :
      IsSendBuf t
      → Others t dst (send_buf_set_verdict block room lc t drop dst).0
        × ((send_buf_set_verdict block room lc t drop dst).1 ≡ record {
          lc = lc;
          effects = dropped (accept (crit_addr dst) t.items);
          pkts = length (accept (crit_addr dst) t.items);
        })
  unfolding verdict_body
  send_buf_set_verdict-drop v =
      let (others, state) = verdict_drains drop v in
      (others, state ∙ drop_all (accept (crit_addr dst) t.items) lc)

-- What the packets `xs` add to what was done, and the cache at the end.
abbrev pub AllSent : LcGraph → Sending → List SendBufEntry → Sending → Type 0
AllSent lc s xs s' =
    (out : List Effect) × (s'.effects ≡ s.effects ++ out)
    × Sent lc xs out
    × (s'.pkts ≡ s.pkts + length xs)
    × Kept lc s'.lc

module _ (lc : LcGraph) (g : IsGraph lc) (bound : ℕ)
    (costs : All (λ l. l.cost ≤ bound) lc.links.items)
    (fits : length lc.nodes.items * bound < lc_cost_inf) (block : ℕ → Garbage) where
  IsCheapest-again :
      (lc' : LcGraph) (b : Garbage) (src dst : ℕ)
      → Kept lc lc'
      → src ≢ dst
      → IsCheapest lc src dst (lc_srt_find (some b) lc' src dst).1
        × Kept lc (lc_srt_find (some b) lc' src dst).0
  IsCheapest-again lc' b src dst k apart =
      let costs' : All (λ l. l.cost ≤ bound) lc'.links.items = rw k.links costs in
      let fits' : length lc'.nodes.items * bound < lc_cost_inf = rw k.count fits in
      (
        Kept-IsCheapest lc lc' src dst (lc_srt_find (some b) lc' src dst).1 k
            (lc_srt_find-IsCheapest lc' k.graph bound src dst costs' fits' apart b),
        Kept-trans lc lc' (lc_srt_find (some b) lc' src dst).0 k
            (lc_srt_find-Kept lc' k.graph bound costs' fits' (some b) src dst apart),
      )

  routed-found :
      (dp : DsrPkt) (r : Option Srt)
      → IsCheapest lc dp.src dp.dst r
      → Routed dp r (routed true (record dp { srt = r }))
  unfolding routed
  routed-found dp none c = refl
  routed-found dp (some srt) c =
      (let (from, to, v, cost, along, least) = c in routed-Routed dp srt v)

  send_all :
      (xs : List SendBufEntry) (s : Sending)
      → All (λ e. e.dp.src ≢ e.dp.dst) xs
      → Kept lc s.lc
      → AllSent lc s xs (for_each (send_one (λ n. some (block n)) (λ _. true)) xs s)
  unfolding for_each send_one
  send_all [] s a k = ([], sym (append-nil s.effects), refl, omega arith, k)
  send_all (x ∷ xs) s a k =
      let (cheap, k') = IsCheapest-again s.lc (block s.pkts) x.dp.src x.dp.dst k a.0 in
      let (out, effects, sent, count, kept) =
        send_all xs (send_one (λ n. some (block n)) (λ _. true) s x) a.1 k' in
      let r = (lc_srt_find (some (block s.pkts)) s.lc x.dp.src x.dp.dst).1 in
      let f = routed true (record (x.dp) { srt = r }) in
      (
        f ∷ out,
        effects ∙ append_assoc s.effects (f ∷ []) out,
        (r, f, out, refl, cheap, routed-found x.dp r cheap, sent),
        omega (arith, count),
        kept,
      )

  -- A verdict that sends, where the buffer is well-formed, the cache is a graph whose costs sum up
  -- to less than LC_COST_INF, no packet waits for its own source, and memory suffices: each packet
  -- for the destination, in order, is given a cheapest route of the cache and is transmitted to its
  -- first hop with the option of that route, or is freed where no route leads there. Their number is
  -- the result, the cache stays the graph that it was, and the other packets stay in order.
  pub send_buf_set_verdict-send :
      (t : Tbl SendBufEntry) (dst : ℕ)
      → IsSendBuf t
      → All (λ e. e.dp.src ≢ e.dp.dst) t.items
      → Others t dst (send_buf_set_verdict (λ n. some (block n)) (λ _. true) lc t send dst).0
        × AllSent lc
            (record { lc = lc; effects = []; pkts = 0 })
            (accept (crit_addr dst) t.items)
            (send_buf_set_verdict (λ n. some (block n)) (λ _. true) lc t send dst).1
  unfolding verdict_body
  send_buf_set_verdict-send t dst v a =
      let (others, state) = verdict_drains (λ n. some (block n)) (λ _. true) lc t dst send v in
      (
        others,
        rw state (
            send_all (accept (crit_addr dst) t.items) (record { lc = lc; effects = []; pkts = 0 })
              (All-accept (crit_addr dst) (λ e. e.dp.src ≢ e.dp.dst) t.items a) (Kept-refl lc g)),
      )
