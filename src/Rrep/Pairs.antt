-- ===== src/Rrep/Pairs.antt =====
-- dsr-rrep.c: what the table of gratuitous replies promises, a bounded set of pairs of addresses.
use mathlib.Core.Path.{fun_ext}
use dsr_uu.Base.{
  ℕ, ◌+◌, ◌-◌, ◌<◌, ◌≡◌, refl, ap, ◌∙◌, inl, inr, Bool, true, false, not, ◌&&◌, ◌||◌, List, [], ◌∷◌,
  Option, none, some, ◌==◌, Bool-cases, arith,
}
use dsr_uu.Timer.{Timeval}
use dsr_uu.Conf.{Confvals}
use dsr_uu.Rrep.{
  GratRrepEntry, GratRrep, crit_query, grat_rrep_tbl_timeout, grat_rrep_tbl_find, grat_rrep_tbl_add,
}
use dsr_uu.Rrep.Set.{any}

-- What the program asks of the table. `add` has what stands in the new block, if there is one.
pub data GratOp : Type 0 where
  add : Option Timeval → Timeval → ℕ → ℕ → GratOp
  timeout : GratOp

unfoldable pub grat_step : Confvals → GratRrep → GratOp → GratRrep
grat_step conf g (add block now src prev_hop) = (grat_rrep_tbl_add block conf now g src prev_hop).0
grat_step conf g timeout = grat_rrep_tbl_timeout g

unfoldable pub grat_run : Confvals → GratRrep → List GratOp → GratRrep
unfolding grat_step
grat_run conf g [] = g
grat_run conf g (op ∷ ops) = grat_run conf (grat_step conf g op) ops

-- The abstract table: the pairs that it holds, and their number.
pub record Pairs : Type 0 where
  pub held : ℕ → ℕ → Bool
  pub count : ℕ

abbrev pub is_pair : ℕ → ℕ → ℕ → ℕ → Bool
is_pair src prev_hop a b = src == a && prev_hop == b

abbrev pub with_pair : Pairs → ℕ → ℕ → Pairs
with_pair p src prev_hop = record {
  held = λ a b. is_pair src prev_hop a b || p.held a b;
  count = p.count + 1;
}

abbrev pub without_pair : Pairs → ℕ → ℕ → Pairs
without_pair p src prev_hop = record {
  held = λ a b. p.held a b && not (is_pair src prev_hop a b);
  count = p.count - 1;
}

-- What an operation may do to the set.
pub data Step : GratOp → Pairs → Pairs → Type 0 where
  known :
      {block : Option Timeval} {now : Timeval} {src prev_hop : ℕ} {p : Pairs}
      → p.held src prev_hop ≡ true
      → Step (add block now src prev_hop) p p
  no_memory : {now : Timeval} {src prev_hop : ℕ} {p : Pairs} → Step (add none now src prev_hop) p p
  full :
      {block : Option Timeval} {now : Timeval} {src prev_hop : ℕ} {p : Pairs}
      → p.count ≡ 64
      → Step (add block now src prev_hop) p p
  hold :
      {links now : Timeval} {src prev_hop : ℕ} {p : Pairs}
      → p.held src prev_hop ≡ false
      → p.count < 64
      → Step (add (some links) now src prev_hop) p (with_pair p src prev_hop)
  nothing : {p : Pairs} → p.count ≡ 0 → Step timeout p p
  forget :
      {p : Pairs} (src prev_hop : ℕ)
      → p.held src prev_hop ≡ true
      → Step timeout p (without_pair p src prev_hop)

pub data Steps : List GratOp → Pairs → Pairs → Type 0 where
  here : {p : Pairs} → Steps [] p p
  next :
      {op : GratOp} {ops : List GratOp} {p r : Pairs} (q : Pairs)
      → Step op p q
      → Steps ops q r
      → Steps (op ∷ ops) p r

abbrev pub view : GratRrep → Pairs
view g = record { held = grat_rrep_tbl_find g; count = g.tbl.len }

abbrev pub pairs : (ℕ → ℕ → Bool) → ℕ → Pairs
pairs f n = record { held = f; count = n }

pub pairs_eq :
    (f f' : ℕ → ℕ → Bool) (n n' : ℕ)
    → ((a b : ℕ) → f a b ≡ f' a b)
    → n ≡ n'
    → pairs f n ≡ pairs f' n'
pairs_eq f f' n n' h e = ap (pairs f) e ∙ ap (λ k. pairs k n') (fun_ext λ a. fun_ext λ b. h a b)

-- An element is found by its own pair exactly.
any-pair :
    (src prev_hop a b : ℕ) (xs : List GratRrepEntry)
    → is_pair src prev_hop a b ≡ true
    → any (crit_query a b) xs ≡ any (crit_query src prev_hop) xs
any-pair src prev_hop a b xs h =
    let e : src ≡ a = ground (arith, h) in
    let e' : prev_hop ≡ b = ground (arith, h) in rw (e, e') refl

pub any-rest :
    (x : GratRrepEntry) (rest : List GratRrepEntry) (a b : ℕ)
    → any (crit_query x.src x.prev_hop) rest ≡ false
    → any (crit_query a b) rest
      ≡ (any (crit_query a b) (x ∷ rest) && not (is_pair x.src x.prev_hop a b))
unfolding crit_query
any-rest x rest a b h = elim (Bool-cases (is_pair x.src x.prev_hop a b)) [
  | inl y ↦ ground (arith, y, any-pair x.src x.prev_hop a b rest y, h)
  | inr n ↦ ground (arith, n)
]
