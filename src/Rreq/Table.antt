-- ===== src/Rreq/Table.antt =====
-- dsr-rreq.c: the table of route requests, under every operation.
use dsr_uu.Base.{
  ℕ, suc, ◌≤◌, ◌<◌, ◌≡◌, ◌≢◌, refl, sym, subst, ap, List-cases, inl, inr, Bool, true, false, List,
  [], ◌∷◌, ◌++◌, Option, none, some, arith, All, length, u32_mod, ◌==◌, Bool-cases, Option-cases,
  decr32,
}
use dsr_uu.Conf.{Confvals, request_table_ids}
use dsr_uu.Tbl.{
  Tbl, init_tbl, tbl_add_tail, unless_full, tbl_find, find_first, remove_first, tbl_detach,
  tbl_detach_first, tbl_full,
}
use dsr_uu.Tbl.Bounds.{IsTbl, init_tbl-IsTbl, tbl_add_tail-IsTbl, length-remove_first}
use dsr_uu.Tbl.Find.{find_first-none}
use dsr_uu.Rreq.{
  RreqEntry, RreqGarbage, Action, del_timer_sync, crit_addr, make_room, rreq_tbl_take,
  rreq_tbl_entry_create,
}

-- An entry with a sound table of identifiers, room in it, and a ttl that fits the header of a packet.
abbrev pub IsEntry : RreqEntry → Type 0
IsEntry e = IsTbl e.rreq_id_tbl × (1 ≤ e.rreq_id_tbl.max_len) × (e.ttl ≤ 255)

-- A limit for the identifiers that leaves room for one.
abbrev pub IsLimit : Confvals → Type 0
IsLimit conf = (1 ≤ conf request_table_ids) × (conf request_table_ids < u32_mod)

-- No entry is for the address.
abbrev pub Without : ℕ → List RreqEntry → Type 0
Without addr = All (λ x. x.node_addr ≢ addr)

-- One entry for each address.
abbrev pub Apart : List RreqEntry → Type 0
Apart [] = Unit
Apart (e ∷ es) = Without e.node_addr es × Apart es

pub record IsRreqTbl (t : Tbl RreqEntry) : Type 0 where
  pub table : IsTbl t
  pub entries : All IsEntry t.items
  pub apart : Apart t.items

All-tail :
    (P : RreqEntry → Type 0) (xs : List RreqEntry) (e : RreqEntry)
    → All P xs
    → P e
    → All P (xs ++ e ∷ [])
All-tail P [] e h p = (p, tt)
All-tail P (x ∷ xs) e h p = (h.0, All-tail P xs e h.1 p)

Apart-tail :
    (xs : List RreqEntry) (e : RreqEntry) → Apart xs → Without e.node_addr xs → Apart (xs ++ e ∷ [])
Apart-tail [] e h w = (tt, tt)
Apart-tail (x ∷ xs) e h w =
    (All-tail (λ y. y.node_addr ≢ x.node_addr) xs e h.0 (λ p. w.0 (sym p)), Apart-tail xs e h.1 w.1)

All-remove :
    (P : RreqEntry → Type 0) (crit : RreqEntry → Bool) (xs : List RreqEntry)
    → All P xs
    → All P (remove_first crit xs)
unfolding remove_first
All-remove P crit [] h = tt
All-remove P crit (x ∷ xs) h = elim (Bool-cases (crit x)) [
  | inl e ↦ rw (e, remove_first) h.1
  | inr e ↦ rw (e, remove_first) (h.0, All-remove P crit xs h.1)
]

Apart-remove :
    (crit : RreqEntry → Bool) (xs : List RreqEntry) → Apart xs → Apart (remove_first crit xs)
unfolding remove_first
Apart-remove crit [] h = tt
Apart-remove crit (x ∷ xs) h = elim (Bool-cases (crit x)) [
  | inl e ↦ rw (e, remove_first) h.1
  | inr e ↦
      rw (e, remove_first)
        (All-remove (λ y. y.node_addr ≢ x.node_addr) crit xs h.0, Apart-remove crit xs h.1)
]

Without-sym : (a b : ℕ) (xs : List RreqEntry) → a ≡ b → Without a xs → Without b xs
Without-sym a b xs e w = rw (sym e) w

-- The first entry for an address is the only one.
Without-remove :
    (addr : ℕ) (xs : List RreqEntry) → Apart xs → Without addr (remove_first (crit_addr addr) xs)
unfolding remove_first crit_addr
Without-remove addr [] h = tt
Without-remove addr (x ∷ xs) h = elim (Bool-cases (x.node_addr == addr)) [
  | inl e ↦ rw (e, remove_first) (Without-sym x.node_addr addr xs (ground arith) h.0)
  | inr e ↦ rw (e, remove_first) (ground arith, Without-remove addr xs h.1)
]

Without-missing :
    (addr : ℕ) (xs : List RreqEntry) → All (λ x. crit_addr addr x ≡ false) xs → Without addr xs
unfolding crit_addr
Without-missing addr [] h = tt
Without-missing addr (x ∷ xs) h = (ground arith, Without-missing addr xs h.1)

pub find-All :
    (P : RreqEntry → Type 0) (crit : RreqEntry → Bool) (xs : List RreqEntry) (e : RreqEntry)
    → All P xs
    → find_first crit xs ≡ some e
    → P e × (crit e ≡ true)
unfolding find_first
find-All P crit [] e h m = cc
find-All P crit (x ∷ xs) e h m = elim (Bool-cases (crit x)) [
  | inl y ↦ let same : x ≡ e = ground arith in (subst P same h.0, ground arith)
  | inr n ↦ find-All P crit xs e h.1 (ground arith)
]

-- What is left without one entry.
detach-IsTbl :
    (t : Tbl RreqEntry) (crit : RreqEntry → Bool) (e : RreqEntry)
    → IsTbl t
    → find_first crit t.items ≡ some e
    → IsTbl (tbl_detach t crit)
      × ((tbl_detach t crit).items ≡ remove_first crit t.items)
      × ((tbl_detach t crit).max_len ≡ t.max_len)
      × ((tbl_detach t crit).len < t.max_len)
unfolding tbl_detach
detach-IsTbl t crit e v h = ground (arith, length-remove_first crit t.items e h)

add_tail_items :
    (t t' : Tbl RreqEntry) (e : RreqEntry)
    → tbl_add_tail t e ≡ some t'
    → t'.items ≡ t.items ++ e ∷ []
unfolding tbl_add_tail
add_tail_items t t' e h = ground arith

-- An entry put behind a table that holds none for its address.
pub put-IsRreqTbl :
    (t : Tbl RreqEntry) (e : RreqEntry)
    → IsRreqTbl t
    → Without e.node_addr t.items
    → IsEntry e
    → IsRreqTbl (unless_full t (tbl_add_tail t e))
put-IsRreqTbl t e v w ok = elim (Option-cases (tbl_add_tail t e)) [
  | inl n ↦ rw n v
  | inr (t', s) ↦
      let items = add_tail_items t t' e s in
      rw s (record {
        table = tbl_add_tail-IsTbl t e v.table s;
        entries = rw items (All-tail IsEntry t.items e v.entries ok);
        apart = rw items (Apart-tail t.items e v.apart w);
      })
]

-- The entry that an operation takes, and the table without it.
abbrev pub Taken : Tbl RreqEntry → ℕ → Option (RreqEntry × Tbl RreqEntry × List Action) → Type 0
Taken t addr none = Unit
Taken t addr (some (e, rest, actions)) =
    (e.node_addr ≡ addr)
    × IsEntry e
    × IsRreqTbl rest
    × Without addr rest.items
    × (rest.max_len ≡ t.max_len)
    × (1 ≤ t.max_len → rest.len < rest.max_len)

pub take_found :
    (t : Tbl RreqEntry) (addr : ℕ) (e : RreqEntry)
    → IsRreqTbl t
    → find_first (crit_addr addr) t.items ≡ some e
    → Taken t addr (some (e, tbl_detach t (crit_addr addr), []))
unfolding crit_addr
take_found t addr e v h =
    let (table, items, max, room) = detach-IsTbl t (crit_addr addr) e v.table h in
    let (ok, at) = find-All IsEntry (crit_addr addr) t.items e v.entries h in
    (
      ground (arith, at),
      ok,
      record {
        table = table;
        entries = rw items (All-remove IsEntry (crit_addr addr) t.items v.entries);
        apart = rw items (Apart-remove (crit_addr addr) t.items v.apart);
      },
      rw items (Without-remove addr t.items v.apart),
      max,
      λ h'. omega (arith, max, room),
    )

not_full : (t : Tbl RreqEntry) → tbl_full t ≡ false → t.len < t.max_len
unfolding tbl_full
not_full t f = ground arith

make_room_free : (t : Tbl RreqEntry) → tbl_full t ≡ false → make_room t ≡ (t, [])
unfolding make_room
make_room_free t f = rw (f, make_room) refl

make_room_none : (t : Tbl RreqEntry) → t.items ≡ [] → make_room t ≡ (t, [])
unfolding make_room tbl_detach_first
make_room_none t e = ground (arith, e)

make_room_first :
    (t : Tbl RreqEntry) (x : RreqEntry) (xs : List RreqEntry)
    → tbl_full t ≡ true
    → t.items ≡ x ∷ xs
    → make_room t ≡ (record t { items = xs; len = decr32 t.len }, del_timer_sync x.node_addr ∷ [])
unfolding make_room tbl_detach_first
make_room_first t x xs f e = rw (f, make_room) (rw (e, tbl_detach_first) refl)

-- Room in a table, for an address that it has no entry for.
make_room_lem :
    (t : Tbl RreqEntry) (addr : ℕ)
    → IsRreqTbl t
    → Without addr t.items
    → IsRreqTbl (make_room t).0
      × Without addr (make_room t).0.items
      × ((make_room t).0.max_len ≡ t.max_len)
      × (1 ≤ t.max_len → (make_room t).0.len < t.max_len)
make_room_lem t addr v w = elim (Bool-cases (tbl_full t)) [
  | inr f ↦ rw (make_room_free t f) (v, w, refl, λ h. not_full t f)
  | inl f ↦ elim (List-cases t.items) [
    | inl e ↦ rw (make_room_none t e) (v, w, refl, λ h. omega (arith, v.table.counted, ap length e))
    | inr (x, xs, e) ↦
        let entries : All IsEntry (x ∷ xs) = subst (All IsEntry) e v.entries in
        let apart : Apart (x ∷ xs) = subst Apart e v.apart in
        let without : Without addr (x ∷ xs) = subst (Without addr) e w in
        let size : length t.items ≡ suc (length xs) = ap length e in
        rw (make_room_first t x xs f e) (
          record {
            table = record {
              counted = omega (arith, v.table.counted, v.table.bounded, v.table.is_word, size);
              bounded = omega (arith, v.table.counted, v.table.bounded, v.table.is_word, size);
              is_word = v.table.is_word;
            };
            entries = entries.1;
            apart = apart.1;
          },
          without.1,
          refl,
          λ h. omega (arith, v.table.counted, v.table.bounded, v.table.is_word, size),
        )
  ]
]

take_new :
    (block : Option RreqGarbage) (conf : Confvals) (t : Tbl RreqEntry) (addr : ℕ)
    → IsLimit conf
    → IsRreqTbl t
    → find_first (crit_addr addr) t.items ≡ none
    → Taken t addr (rreq_tbl_take block conf t addr)
unfolding rreq_tbl_take tbl_find rreq_tbl_entry_create init_tbl
take_new none conf t addr ids v n = rw (n, rreq_tbl_take, tbl_find) tt
take_new (some b) conf t addr ids v n =
    let (table, without, max, room) =
      make_room_lem t addr v
        (Without-missing addr t.items (find_first-none (crit_addr addr) t.items n)) in
    rw (n, rreq_tbl_take, tbl_find)
      (
        refl,
        (init_tbl-IsTbl (conf request_table_ids) ids.1, ids.0, omega arith),
        table,
        without,
        max,
        λ h. omega (arith, max, room h),
      )

pub rreq_tbl_take-Taken :
    (block : Option RreqGarbage) (conf : Confvals) (t : Tbl RreqEntry) (addr : ℕ)
    → IsLimit conf
    → IsRreqTbl t
    → Taken t addr (rreq_tbl_take block conf t addr)
unfolding rreq_tbl_take tbl_find
rreq_tbl_take-Taken block conf t addr ids v =
    elim (Option-cases (find_first (crit_addr addr) t.items)) [
      | inr (e, y) ↦ rw (y, rreq_tbl_take, tbl_find) (take_found t addr e v y)
      | inl n ↦ take_new block conf t addr ids v n
    ]
