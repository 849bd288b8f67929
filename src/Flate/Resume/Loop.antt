-- ===== src/Flate/Resume/Loop.antt =====
-- A compressed block.
use targz.Prelude.{
  ℕ, zero, suc, ◌+◌, Bool, true, false, Option, none, some, ltb, ◌==◌, if◌then◌else◌, refl, sym,
  ◌*◌, ◌^◌, Bool-cases, inl, inr,
}
use mathlib.Core.Path.{subst}
use targz.Flate.Huffman.{reverse_loop}
use targz.Flate.State.{
  Decompressor, StepState, state_init, state_dict, TableName, Action, Outcome, pure, ◌>>=◌,
  read_bits, catch_outcome, max_num_lit, max_num_dist,
}
use targz.Flate.Symbols.{corrupt_input, huff_sym}
use targz.Flate.Blocks.{
  table, dist_sym, read_dist, dist_bits, dist_of, length_of, read_match, use_symbol, read_literal,
  block_loop, copy_history, resume_block,
}
use targz.Flate.Resume.{
  IsBlind, Both, both_done, both_failed, both_panicked, both_stuck, SameCore, Like, bind-Both,
  change, blind-Both,
}
use targz.Flate.Resume.Blind.{
  bind-IsBlind, if-IsBlind, read_bits-IsBlind, huff_sym-IsBlind, length_of-IsBlind,
}
use targz.Flate.Resume.Tables.{corrupt_input-Both}
use targz.Flate.Resume.Copying.{
  AgreesOn, InBlock, AtSymbol, Waiting, Ready, Looping, finish_block-Ready, copy_history-Both,
  write_literal-Both, start_copy-Both, table-Both,
}

-- Reading a symbol with a table of a name.
coded-Both :
    (name : Option TableName) (f g : Decompressor)
    → Like AtSymbol f g
    → AgreesOn name f.h1 f.h2 g.h1 g.h2
    → Both
        (λ _. Like AtSymbol)
        SameCore
        ((do h ← table name; huff_sym h) f)
        ((do h ← table name; huff_sym h) g)
coded-Both name f g h a =
    bind-Both (λ _. Like AtSymbol) (λ _. Like AtSymbol) SameCore (table name) (table name) _ _ f g
      (table-Both name f g h a)
      (λ t f g h. blind-Both AtSymbol (huff_sym t) (huff_sym-IsBlind t) f g h)

plain-IsBlind : IsBlind (do x ← read_bits 5; pure (reverse_loop 8 (x * 2 ^ 3) 0))
plain-IsBlind = bind-IsBlind (read_bits 5) _ (read_bits-IsBlind 5) (λ _ x f. refl)

-- `distSym` with the table's name given.
abbrev dist_sym_of : Option TableName → Action ℕ
dist_sym_of hd f = elim hd [
  | none ↦ (do x ← read_bits 5; pure (reverse_loop 8 (x * 2 ^ 3) 0)) f
  | some name ↦ (do h ← table (some name); huff_sym h) f
]

dist_sym_of-Both :
    (hd : Option TableName) (f g : Decompressor)
    → Like AtSymbol f g
    → AgreesOn hd f.h1 f.h2 g.h1 g.h2
    → Both (λ _. Like AtSymbol) SameCore (dist_sym_of hd f) (dist_sym_of hd g)
dist_sym_of-Both none f g h a = blind-Both AtSymbol _ plain-IsBlind f g h
dist_sym_of-Both (some name) f g h a = coded-Both (some name) f g h a

dist_sym-Both :
    (f g : Decompressor)
    → Like AtSymbol f g
    → Both (λ _. Like AtSymbol) SameCore (dist_sym f) (dist_sym g)
unfolding dist_sym
dist_sym-Both f g h =
    subst (λ hd. Both (λ _. Like AtSymbol) SameCore (dist_sym_of f.hd f) (dist_sym_of hd g))
      h.1.0.1.hd_same (dist_sym_of-Both f.hd f g h h.1.0.1.distances)

read_dist-Both :
    (f g : Decompressor)
    → Like AtSymbol f g
    → Both (λ _. Like AtSymbol) SameCore (read_dist f) (read_dist g)
unfolding read_dist
read_dist-Both f g h =
    bind-Both (λ _. Like AtSymbol) (λ _. Like AtSymbol) SameCore dist_sym dist_sym _ _ f g
      (dist_sym-Both f g h) (λ sym f g h. blind-Both AtSymbol _ (extra-IsBlind sym) f g h)
  where
    extra-IsBlind :
        (sym : ℕ)
        → IsBlind (
            if ltb sym 4
            then pure (sym + 1)
            else if ltb sym max_num_dist
            then (do extra ← read_bits (dist_bits sym); pure (dist_of sym extra))
            else corrupt_input)
    extra-IsBlind sym =
        if-IsBlind (ltb sym 4) _ _ (λ x f. refl)
          (if-IsBlind (ltb sym max_num_dist) _ _
            (bind-IsBlind (read_bits (dist_bits sym)) _ (read_bits-IsBlind (dist_bits sym))
              (λ _ x f. refl))
            (λ x f. refl))

read_match-Both :
    (v : ℕ) (f g : Decompressor)
    → Like AtSymbol f g
    → Both Looping SameCore (read_match v f) (read_match v g)
unfolding read_match
read_match-Both v f g h =
    bind-Both (λ _. Like AtSymbol) Looping SameCore (length_of v) (length_of v) _ _ f g
      (blind-Both AtSymbol (length_of v) (length_of-IsBlind v) f g h)
      (λ len f g h.
        bind-Both (λ _. Like AtSymbol) Looping SameCore read_dist read_dist _ _ f g
          (read_dist-Both f g h) (λ dist f g h. start_copy-Both len dist f g h))

use_symbol-Both :
    (v : ℕ) (f g : Decompressor)
    → Like AtSymbol f g
    → Both Looping SameCore (use_symbol v f) (use_symbol v g)
unfolding use_symbol
use_symbol-Both v f g h = elim (Bool-cases (ltb v 256)) [
  | inl p ↦ rw (use_symbol, p) (write_literal-Both v f g h)
  | inr p ↦ elim (Bool-cases (v == 256)) [
    | inl q ↦ rw (use_symbol, p, q) (both_done (finish_block-Ready f g (h.0, (h.1.0.0, h.1.1))))
    | inr q ↦ elim (Bool-cases (ltb v max_num_lit)) [
      | inl r ↦ rw (use_symbol, p, q, r) (read_match-Both v f g h)
      | inr r ↦ rw (use_symbol, p, q, r) (corrupt_input-Both _ f g h.0)
    ]
  ]
]

-- The symbol is read before anything is copied.
abbrev literal_of : Option TableName → Action Bool
literal_of hl f = (do h ← table hl; v ← huff_sym h; use_symbol v) f

literal_of-Both :
    (hl : Option TableName) (f g : Decompressor)
    → Like AtSymbol f g
    → AgreesOn hl f.h1 f.h2 g.h1 g.h2
    → Both Looping SameCore (literal_of hl f) (literal_of hl g)
literal_of-Both hl f g h a =
    bind-Both (λ _. Like AtSymbol) Looping SameCore (table hl) (table hl) _ _ f g
      (table-Both hl f g h a)
      (λ t f g h.
        bind-Both (λ _. Like AtSymbol) Looping SameCore (huff_sym t) (huff_sym t) _ _ f g
          (blind-Both AtSymbol (huff_sym t) (huff_sym-IsBlind t) f g h)
          (λ v f g h. use_symbol-Both v f g h))

read_literal-Both :
    (f g : Decompressor)
    → Like AtSymbol f g
    → Both Looping SameCore (read_literal f) (read_literal g)
unfolding read_literal
read_literal-Both f g h =
    subst (λ hl. Both Looping SameCore (literal_of f.hl f) (literal_of hl g)) h.1.0.1.hl_same
      (literal_of-Both f.hl f g h h.1.0.1.literals)

go_on-Both :
    (m : Action Unit) (again : Bool)
    → ((f g : Decompressor) → Like AtSymbol f g → Both (λ _. Ready) SameCore (m f) (m g))
    → (f g : Decompressor) → Looping again f g
    → Both
        (λ _. Ready)
        SameCore
        ((elim again as (λ _. Action Unit) [ true ↦ m | false ↦ pure tt ]) f)
        ((elim again as (λ _. Action Unit) [ true ↦ m | false ↦ pure tt ]) g)
go_on-Both m true next f g h = next f g h
go_on-Both m false next f g h = both_done h

pub block_loop-Both :
    (rounds : ℕ) (f g : Decompressor)
    → Like AtSymbol f g
    → Both (λ _. Ready) SameCore (block_loop rounds f) (block_loop rounds g)
unfolding block_loop
block_loop-Both zero f g h = both_stuck
block_loop-Both (suc rounds) f g h =
    bind-Both Looping (λ _. Ready) SameCore read_literal read_literal _ _ f g
      (read_literal-Both f g h)
      (λ again f g h. go_on-Both (block_loop rounds) again (block_loop-Both rounds) f g h)

-- A block that goes on, in the same state.
pub resume_block-Both :
    (rounds : ℕ) (state : StepState) (f g : Decompressor)
    → Like (λ x y. InBlock x y × Waiting state x y) f g
    → Both (λ _. Ready) SameCore (resume_block rounds state f) (resume_block rounds state g)
unfolding resume_block
resume_block-Both rounds state_init f g h = block_loop-Both rounds f g h
resume_block-Both rounds state_dict f g (e, (k, (len, dist))) =
    bind-Both Looping (λ _. Ready) SameCore copy_history copy_history _ _ f g
      (copy_history-Both f g (e, k) len dist)
      (λ again f g h. go_on-Both (block_loop rounds) again (block_loop-Both rounds) f g h)

-- An error that is caught ends the steps.
pub catch_outcome-Both :
    {o o' : Outcome Unit}
    → Both (λ _. Ready) SameCore o o'
    → Both (λ _. Ready) SameCore (catch_outcome o) (catch_outcome o')
catch_outcome-Both (both_done h) = both_done h
catch_outcome-Both (both_failed {e = e} {f = f} {g = g} h) =
    both_done (change (λ z. record z { err = some e }) f g h, λ q. absurd (cc q))
catch_outcome-Both both_panicked = both_panicked
catch_outcome-Both both_stuck = both_stuck
