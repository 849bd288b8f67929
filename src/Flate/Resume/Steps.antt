-- ===== src/Flate/Resume/Steps.antt =====
-- A step.
use targz.Prelude.{
  ℕ, suc, ◌-◌, ◌/◌, ◌%◌, ◌≤◌, none, some, ◌==◌, ◌≡◌, refl, ap, sym, arith, Bool-cases, inl, inr,
}
use mathlib.Core.Path.{subst}
use targz.Flate.Dict
use targz.Flate.Dict.{DictDecoder}
use targz.Flate.State.{
  Decompressor, Step, next_block, huffman_block, copy_data, Action, Outcome, done, need_bits,
  fixed_table, table1, table2,
}
use targz.Flate.Symbols.{read_huffman}
use targz.Flate.Blocks.{
  run_copy_data, resume_block, run_huffman_block, run_type, run_next_block, run_step,
}
use targz.Flate.Resume.{
  extras, Both, both_done, both_failed, both_panicked, both_stuck, SameCore, Like, bind-Both,
  change, blind-Both,
}
use targz.Flate.Resume.Blind.{need_bits-IsBlind}
use targz.Flate.Sound.{Ends, weaken-Ends, GoodAt-position}
use targz.Flate.Sound.Bits.{need_bits-Ends}
use targz.Flate.Sound.Symbols.{read_huffman-Ends}
use targz.Flate.Sound.Steps.{Quiet, Good}
use targz.Flate.Resume.Tables.{Tabled, held, released, corrupt_input-Both}
use targz.Flate.Resume.Blocks.{read_huffman-Both}
use targz.Flate.Resume.Copying.{Ended, AtSymbol, ForStep, Ready}
use targz.Flate.Resume.Loop.{resume_block-Both, catch_outcome-Both}
use targz.Flate.Resume.Stored.{IsFine, data_block-Ready, run_copy_data-Ready, block_starts}

-- What is known of two outcomes, together and of each.
pub both_and :
    {A : Type 0} (P : A → Decompressor → Decompressor → Type 0) (Q Q' : A → Decompressor → Type 0)
    (E : Decompressor → Decompressor → Type 0) (F F' : Decompressor → Type 0) {o o' : Outcome A}
    → Both P E o o'
    → Ends Q F o
    → Ends Q' F' o'
    → Both (λ a f g. P a f g × Q a f × Q' a g) E o o'
both_and P Q Q' E F F' (both_done h) q q' = both_done (h, q, q')
both_and P Q Q' E F F' (both_failed h) q q' = both_failed h
both_and P Q Q' E F F' both_panicked q q' = both_panicked
both_and P Q Q' E F F' both_stuck q q' = both_stuck

module _ (cap wo total budget : ℕ) where
  abbrev GoodBoth : Decompressor → Decompressor → Type 0
  GoodBoth f g = Good cap wo total budget f × Good cap wo total budget g

  fine : (f : Decompressor) → Good cap wo total budget f → IsFine f
  fine f g = record { valid = g.valid; room = g.room; waiting = g.waiting }

  -- The tables have been read, and the block begins with them.
  tabled :
      (f g : Decompressor)
      → Like (Tabled 0) f g
      → Like AtSymbol
          (record f { hl = some table1; hd = some table2 })
          (record g { hl = some table1; hd = some table2 })
  tabled f g (e, (k, t, t')) = (
    change (λ z. record z { hl = some table1; hd = some table2 }) f g e,
    (
      (
        released 0 (extras f) (extras g) k,
        record { hl_same = refl; hd_same = refl; literals = t; distances = t' },
      ),
      (k.len, k.len'),
    ),
  )

  fixed :
      (f g : Decompressor)
      → Like Ended f g
      → Like AtSymbol
          (record f { hl = some fixed_table; hd = none })
          (record g { hl = some fixed_table; hd = none })
  fixed f g (e, (k, still)) = (
    change (λ z. record z { hl = some fixed_table; hd = none }) f g e,
    ((k, record { hl_same = refl; hd_same = refl; literals = tt; distances = tt }), still),
  )

  dynamic :
      (f g : Decompressor)
      → Like Ended f g
      → GoodBoth f g
      → Both
          (λ _ f g. Like (Tabled 0) f g × Good cap wo total budget f × Good cap wo total budget g)
          SameCore
          (read_huffman f)
          (read_huffman g)
  dynamic f g (e, (k, still)) (good, good') =
      both_and (λ _. Like (Tabled 0)) (λ _. Good cap wo total budget)
        (λ _. Good cap wo total budget) SameCore (Good cap wo total budget)
        (Good cap wo total budget)
        (read_huffman-Both 0 f g (e, held 0 (extras f) (extras g) k still.0 still.1)) (ends f good)
        (ends g good')
    where
      ends :
          (f : Decompressor)
          → Good cap wo total budget f
          → Ends (λ _. Good cap wo total budget) (Good cap wo total budget) (read_huffman f)
      ends f good =
          weaken-Ends (λ _. Quiet cap wo total budget (Dict.avail_write f.dict))
            (λ _. Good cap wo total budget) (Quiet cap wo total budget (Dict.avail_write f.dict))
            (Good cap wo total budget) (λ _ _ h. h.0) (λ _ h. h.0) (read_huffman f)
            (read_huffman-Ends cap wo total budget (Dict.avail_write f.dict) f (good, refl))

  run_type-Both :
      (typ : ℕ) (f g : Decompressor)
      → Like Ended f g
      → GoodBoth f g
      → Both (λ _. Ready) SameCore (run_type typ f) (run_type typ g)
  unfolding run_type
  run_type-Both typ f g h (good, good') = elim (Bool-cases (typ == 0)) [
    | inl p ↦ rw (run_type, p) (both_done (data_block-Ready f g h))
    | inr p ↦ elim (Bool-cases (typ == 1)) [
      | inl q ↦ rw (run_type, p, q) (block_starts _ _ (fixed f g h) (fine _ good) (fine _ good'))
      | inr q ↦ elim (Bool-cases (typ == 2)) [
        | inl r ↦
            rw (run_type, p, q, r)
              (bind-Both
                (λ _ f g.
                  Like (Tabled 0) f g × Good cap wo total budget f × Good cap wo total budget g)
                (λ _. Ready) SameCore read_huffman read_huffman _ _ f g
                (dynamic f g h (good, good'))
                (λ _ f g (h, good, good').
                  block_starts _ _ (tabled f g h) (fine _ good) (fine _ good')))
        | inr r ↦ rw (run_type, p, q, r) (corrupt_input-Both _ f g h.0)
      ]
    ]
  ]

  abbrev headed : Decompressor → Decompressor
  headed f = record f { final = f.b % 2 == 1; b = f.b / 2 / 4; nb = f.nb - 3 }

  typed :
      (f g : Decompressor)
      → Like Ended f g
      → GoodBoth f g
      → Both
          (λ _. Ready)
          SameCore
          (run_type (f.b / 2 % 4) (headed f))
          (run_type (g.b / 2 % 4) (headed g))
  typed f g (e, k) (good, good') =
      subst
        (λ b.
          Both (λ _. Ready) SameCore (run_type (f.b / 2 % 4) (headed f))
            (run_type (b / 2 % 4) (headed g)))
        (sym (ap (λ z. z.b) e))
        (run_type-Both (f.b / 2 % 4) (headed f) (headed g) (change headed f g e, k)
          (
            GoodAt-position refl (omega (arith, good.bounded)) good,
            GoodAt-position refl (omega (arith, good'.bounded)) good',
          ))

  run_next_block-Both :
      (f g : Decompressor)
      → Like Ended f g
      → GoodBoth f g
      → Both (λ _. Ready) SameCore (run_next_block f) (run_next_block g)
  unfolding run_next_block
  run_next_block-Both f g h (good, good') = catch_outcome-Both (
      bind-Both (λ _ f g. Like Ended f g × Good cap wo total budget f × Good cap wo total budget g)
        (λ _. Ready) SameCore (need_bits 3 3) (need_bits 3 3) _ _ f g
        (both_and (λ _. Like Ended) (λ _. Good cap wo total budget) (λ _. Good cap wo total budget)
          SameCore (Good cap wo total budget) (Good cap wo total budget)
          (blind-Both Ended (need_bits 3 3) (need_bits-IsBlind 3 3) f g h) (ends f good)
          (ends g good'))
        (λ _ f g (h, good, good'). typed f g h (good, good')))
    where
      ends :
          (f : Decompressor)
          → Good cap wo total budget f
          → Ends (λ _. Good cap wo total budget) (Good cap wo total budget) (need_bits 3 3 f)
      ends f good =
          weaken-Ends (λ _ f'. Quiet cap wo total budget (Dict.avail_write f.dict) f' × (3 ≤ f'.nb))
            (λ _. Good cap wo total budget) (Quiet cap wo total budget (Dict.avail_write f.dict))
            (Good cap wo total budget) (λ _ _ h. h.0.0) (λ _ h. h.0) (need_bits 3 3 f)
            (need_bits-Ends cap wo total budget (Dict.avail_write f.dict) 3 3 f (omega arith)
              (good, refl))

  -- A block that has stopped for want of room goes on.
  run_huffman_block-Both :
      (f g : Decompressor)
      → SameCore f g
      → ForStep huffman_block (extras f) (extras g)
      → Both (λ _. Ready) SameCore (run_huffman_block f) (run_huffman_block g)
  unfolding run_huffman_block
  run_huffman_block-Both f g e (k, same, waiting) = catch_outcome-Both (
      subst
        (λ d.
          Both (λ _. Ready) SameCore (resume_block (suc (Dict.avail_write f.dict)) f.step_state f)
            (resume_block (suc (Dict.avail_write d)) g.step_state g))
        (sym (ap (λ z. z.dict) e))
        (subst
          (λ s.
            Both (λ _. Ready) SameCore (resume_block (suc (Dict.avail_write f.dict)) f.step_state f)
              (resume_block (suc (Dict.avail_write f.dict)) s g))
          same
          (resume_block-Both (suc (Dict.avail_write f.dict)) f.step_state f g (e, (k, waiting)))))

  -- `step` with the method given.
  abbrev step_by : Step → Action Unit
  step_by s f = elim s [
    | next_block ↦ run_next_block f
    | huffman_block ↦ run_huffman_block f
    | copy_data ↦ done tt (run_copy_data f)
  ]

  step_by-Both :
      (s : Step) (f g : Decompressor)
      → SameCore f g
      → ForStep s (extras f) (extras g)
      → GoodBoth f g
      → Both (λ _. Ready) SameCore (step_by s f) (step_by s g)
  step_by-Both next_block f g e k good = run_next_block-Both f g (e, k) good
  step_by-Both huffman_block f g e k good = run_huffman_block-Both f g e k
  step_by-Both copy_data f g e k good = both_done (run_copy_data-Ready f g (e, k))

  -- Decoders that are alike where it matters to the next step are so behind it.
  pub run_step-Both :
      (f g : Decompressor)
      → Ready f g
      → f.err ≡ none
      → GoodBoth f g
      → Both (λ _. Ready) SameCore (run_step f) (run_step g)
  unfolding run_step
  run_step-Both f g (e, k) no_err good =
      subst (λ s. Both (λ _. Ready) SameCore (step_by f.step f) (step_by s g))
        (sym (ap (λ z. z.step) e)) (step_by-Both f.step f g e (k no_err) good)
