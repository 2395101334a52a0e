-- ===== src/Rrep/Set.antt =====
-- dsr-rrep.c: the table of gratuitous replies as a bounded set of pairs of addresses.
use dsr_uu.Base.{◌≡◌, refl, Bool, true, false, ◌||◌, List, [], ◌∷◌, Option, none, some, arith}
use dsr_uu.Timer.{Timeval}
use dsr_uu.Tbl.{Tbl, insert_before, find_first, tbl_find, in_tbl}
use dsr_uu.Tbl.Bounds.{IsTbl}
use dsr_uu.Rrep.{GratRrepEntry, GratRrep, crit_query, set_for_first}

-- Whether an element passes the test.
abbrev pub any : (GratRrepEntry → Bool) → List GratRrepEntry → Bool
any q [] = false
any q (x ∷ xs) = q x || any q xs

pub in_tbl-any : (t : Tbl GratRrepEntry) (q : GratRrepEntry → Bool) → in_tbl t q ≡ any q t.items
unfolding in_tbl tbl_find find_first
in_tbl-any t q = go t.items
  where
    go :
        (xs : List GratRrepEntry)
        → elim (find_first q xs) as (λ _. Bool) [ none ↦ false | some _ ↦ true ] ≡ any q xs
    go [] = refl
    go (x ∷ xs) = ground (arith, go xs)

pub any-insert :
    (q : GratRrepEntry → Bool) (crit : GratRrepEntry → GratRrepEntry → Bool) (l : GratRrepEntry)
    (xs : List GratRrepEntry)
    → any q (insert_before crit l xs) ≡ (q l || any q xs)
unfolding insert_before
any-insert q crit l [] = refl
any-insert q crit l (x ∷ xs) = ground (arith, any-insert q crit l xs)

-- No pair stands twice.
abbrev pub Apart : List GratRrepEntry → Type 0
Apart [] = Unit
Apart (e ∷ es) = (any (crit_query e.src e.prev_hop) es ≡ false) × Apart es

pub Apart-insert :
    (crit : GratRrepEntry → GratRrepEntry → Bool) (l : GratRrepEntry) (xs : List GratRrepEntry)
    → any (crit_query l.src l.prev_hop) xs ≡ false
    → Apart xs
    → Apart (insert_before crit l xs)
unfolding insert_before crit_query
Apart-insert crit l [] n h = (refl, tt)
Apart-insert crit l (x ∷ xs) n h =
    ground
      (arith, h.0, n, any-insert (crit_query x.src x.prev_hop) crit l xs, Apart-insert crit l xs)

-- The timer is set for the first entry.
abbrev pub TimerFor : List GratRrepEntry → Option Timeval → Type 0
TimerFor [] timer = Unit
TimerFor (e ∷ es) timer = timer ≡ some e.expires

pub record IsGrat (g : GratRrep) : Type 0 where
  pub table : IsTbl g.tbl
  pub limit : g.tbl.max_len ≡ 64
  pub apart : Apart g.tbl.items
  pub timed : TimerFor g.tbl.items g.timer

pub set_for_first-TimerFor : (g : GratRrep) → TimerFor g.tbl.items (set_for_first g).timer
unfolding set_for_first tbl_find find_first
set_for_first-TimerFor g = go g.tbl.items refl
  where
    go : (xs : List GratRrepEntry) → g.tbl.items ≡ xs → TimerFor xs (set_for_first g).timer
    go [] e = tt
    go (x ∷ xs) e = rw (e, set_for_first, tbl_find, find_first) refl

pub set_for_first-tbl : (g : GratRrep) → (set_for_first g).tbl ≡ g.tbl
unfolding set_for_first
set_for_first-tbl g = ground arith
