-- ===== src/Flate/Sound/Whole.antt =====
-- A step as a whole: it ends, keeps the state good, and goes on.
use targz.Prelude.{
  sym, ◌*◌, ◌⊎◌, ◌≢◌, ◌/◌, ◌%◌, ℕ, ◌+◌, ◌-◌, ◌≤◌, ◌<◌, ◌≡◌, refl, none, some, length, arith, ◌==◌,
  inl, inr,
}
use targz.Flate.Dict.{avail_write}
use targz.Flate.State.{
  Decompressor, Step, next_block, huffman_block, copy_data, fixed_table, table1, table2, Outcome,
  need_bits,
}
use targz.Flate.Symbols.{read_huffman}
use targz.Flate.Blocks.{run_copy_data, run_huffman_block, run_type, run_next_block, run_step}
use targz.Flate.Sound.{
  Never, IsGood, bits_left, slack, GoodAt-position, Ends, bind-Ends, weaken-Ends, if-Ends,
  catch_outcome-Ends,
}
use targz.Flate.Sound.Bits.{need_bits-Ends}
use targz.Flate.Sound.Symbols.{read_huffman-Ends}
use targz.Flate.Sound.Loop.{Stepped, run_huffman_block-Ends}
use targz.Flate.Sound.Stored.{data_block-IsGood, run_copy_data-IsGood, run_copy_data-Copied, Copied}
use targz.Flate.Sound.Steps.{Quiet, Good, quiet-Ends}

module _ (cap wo total budget : ℕ) where
  abbrev Result : Outcome Unit → Type 0
  Result = Ends (λ _. Good cap wo total budget) (Good cap wo total budget)

  compressed : (f : Decompressor) → Good cap wo total budget f → Result (run_huffman_block f)
  compressed f g =
      weaken-Ends (λ _. Stepped cap wo total budget) (λ _. Good cap wo total budget) Never
        (Good cap wo total budget) (λ _ _ h. h.0) (λ _ h. absurd h) (run_huffman_block f)
        (run_huffman_block-Ends cap wo total budget f g)

  run_type-Ends :
      (typ : ℕ) (f : Decompressor) → Good cap wo total budget f → Result (run_type typ f)
  unfolding run_type
  run_type-Ends typ f g =
      if-Ends (λ _. Good cap wo total budget) (Good cap wo total budget) (typ == 0) _ _ f
        (data_block-IsGood cap wo total budget f g)
        (if-Ends (λ _. Good cap wo total budget) (Good cap wo total budget) (typ == 1) _ _ f
          (compressed (record f { hl = some fixed_table; hd = none }) g)
          (if-Ends (λ _. Good cap wo total budget) (Good cap wo total budget) (typ == 2) _ _ f
            (bind-Ends (λ _. Good cap wo total budget) (λ _. Good cap wo total budget)
              (Good cap wo total budget) read_huffman _ f
              (weaken-Ends (λ _. Quiet cap wo total budget (avail_write f.dict))
                (λ _. Good cap wo total budget) (Quiet cap wo total budget (avail_write f.dict))
                (Good cap wo total budget) (λ _ _ h. h.0) (λ _ h. h.0) (read_huffman f)
                (read_huffman-Ends cap wo total budget (avail_write f.dict) f (g, refl)))
              (λ _ f' h. compressed (record f' { hl = some table1; hd = some table2 }) h))
            g))

module _ (cap wo total budget : ℕ) where
  run_next_block-Ends :
      (f : Decompressor)
      → Good cap wo total budget f
      → Ends (λ _. Stepped cap wo total budget) Never (run_next_block f)
  unfolding run_next_block
  run_next_block-Ends f g =
      catch_outcome-Ends (Stepped cap wo total budget) (Stepped cap wo total budget)
        (Good cap wo total budget) _ (λ _ h. h) (λ f e h. (h, inl (λ p. cc p)))
        (bind-Ends (λ _ f'. Quiet cap wo total budget (avail_write f.dict) f' × (3 ≤ f'.nb))
          (λ _. Stepped cap wo total budget) (Good cap wo total budget) (need_bits 3 3) _ f
          (quiet-Ends cap wo total budget (avail_write f.dict)
            (λ _ f'. Quiet cap wo total budget (avail_write f.dict) f' × (3 ≤ f'.nb))
            (need_bits 3 3 f)
            (need_bits-Ends cap wo total budget (avail_write f.dict) 3 3 f (omega arith) (g, refl)))
          (λ _ f' h. typed f' h.0.0 h.1))
    where
      headed : Decompressor → Decompressor
      headed f = record f { final = f.b % 2 == 1; b = f.b / 2 / 4; nb = f.nb - 3 }

      -- Three bits have been used, whatever the type of the block.
      typed :
          (f : Decompressor)
          → Good cap wo total budget f
          → 3 ≤ f.nb
          → Ends
              (λ _. Stepped cap wo total budget)
              (Good cap wo total budget)
              (run_type (f.b / 2 % 4) (headed f))
      typed f g le =
          weaken-Ends (λ _. Good cap wo total (budget - 3)) (λ _. Stepped cap wo total budget)
            (Good cap wo total (budget - 3)) (Good cap wo total budget)
            (λ _ f' h. (
              slack budget f' (omega (arith, h.bounded)) h,
              inr (inr (omega (arith, h.bounded, le, g.bounded))),
            ))
            (λ f' h. slack budget f' (omega (arith, h.bounded)) h)
            (run_type (f.b / 2 % 4) (headed f))
            (run_type-Ends cap wo total (budget - 3) (f.b / 2 % 4) (headed f)
              (GoodAt-position refl (omega (arith, g.bounded, le)) g))

-- What `Read` goes down by: the bits left, twice, and one more within a stored block.
abbrev pub pending : Step → ℕ
pending next_block = 0
pending huffman_block = 0
pending copy_data = 1

abbrev pub weight : Decompressor → ℕ
weight f = 2 * bits_left f + pending f.step

-- Behind a step: an error, or bytes to hand out, or less weight than before.
abbrev pub HasProgress : ℕ → Decompressor → Type 0
HasProgress w f = (f.err ≢ none) ⊎ ((0 < length f.to_read) ⊎ (weight f < w))

-- Good, whatever is left to read.
abbrev pub IsSane : ℕ → ℕ → ℕ → Decompressor → Type 0
IsSane cap wo total f = IsGood cap wo total (bits_left f) f

module _ (cap wo total budget : ℕ) where
  raised :
      (f f' : Decompressor)
      → IsGood cap wo total budget f
      → IsGood cap wo total (bits_left f) f'
      → IsGood cap wo total budget f'
  raised f f' g g' = slack budget f' (omega (arith, g.bounded, g'.bounded)) g'

  -- What a step leaves of a state of that weight.
  abbrev pub Advanced : ℕ → Decompressor → Type 0
  Advanced w f = IsGood cap wo total budget f × HasProgress w f

  Stepped-Advanced :
      (w : ℕ) (f f' : Decompressor)
      → 2 * bits_left f ≤ w
      → IsGood cap wo total budget f
      → Stepped cap wo total (bits_left f) f'
      → Advanced w f'
  Stepped-Advanced w f f' le g₀ (g, inl e) = (raised f f' g₀ g, inl e)
  Stepped-Advanced w f f' le g₀ (g, inr (inl some_here)) = (raised f f' g₀ g, inr (inl some_here))
  Stepped-Advanced w f f' le g₀ (g, inr (inr lt)) = (raised f f' g₀ g, inr (inr (lighter f'.step)))
    where
      lighter : (s : Step) → 2 * bits_left f' + pending s < w
      lighter next_block = omega arith
      lighter huffman_block = omega arith
      lighter copy_data = omega arith

  widen :
      (w : ℕ) (f : Decompressor) (o : Outcome Unit)
      → 2 * bits_left f ≤ w
      → IsGood cap wo total budget f
      → Ends (λ _. Stepped cap wo total (bits_left f)) Never o
      → Ends (λ _. Advanced w) Never o
  widen w f o le g =
      weaken-Ends (λ _. Stepped cap wo total (bits_left f)) (λ _. Advanced w) Never Never
        (λ _ f'. Stepped-Advanced w f f' le g) (λ _ h. h) o

  Copied-HasProgress :
      (budget : ℕ) (f : Decompressor)
      → bits_left f ≤ budget
      → Copied cap wo total budget f
      → HasProgress (2 * budget + 1) f
  Copied-HasProgress budget f le (inl e) = inl e
  Copied-HasProgress budget f le (inr (inl lt)) = inr (inr (lighter f.step))
    where
      lighter : (s : Step) → 2 * bits_left f + pending s < 2 * budget + 1
      lighter next_block = omega arith
      lighter huffman_block = omega arith
      lighter copy_data = omega arith
  Copied-HasProgress budget f le (inr (inr e)) = inr (inr (rw e (omega arith)))

  step_of :
      (w : ℕ) (f : Decompressor) (s : Step)
      → f.step ≡ s
      → 2 * bits_left f + pending s ≡ w
      → IsGood cap wo total budget f
      → Ends (λ _. Advanced w) Never (run_step f)
  unfolding run_step
  step_of w f next_block e weighs g =
      rw (run_step, e)
        (widen w f (run_next_block f) (omega (arith, weighs)) g (
          run_next_block-Ends cap wo total (bits_left f) f (slack (bits_left f) f (omega arith) g)))
  step_of w f huffman_block e weighs g =
      rw (run_step, e)
        (widen w f (run_huffman_block f) (omega (arith, weighs)) g (
          run_huffman_block-Ends cap wo total (bits_left f) f
            (slack (bits_left f) f (omega arith) g)))
  step_of w f copy_data e weighs g =
      let sane = slack (bits_left f) f (omega arith) g in
      let good = run_copy_data-IsGood cap wo total (bits_left f) f sane in
      rw (run_step, e, sym weighs)
        (
          raised f (run_copy_data f) g good,
          Copied-HasProgress (bits_left f) (run_copy_data f) good.bounded
              (run_copy_data-Copied cap wo total (bits_left f) f sane),
        )

  -- From a sane state (the window valid, of its size and with room, `woffset` counted, a waiting
  -- copy's distance inside the history, no more bits left to read than a budget) a step of the
  -- decoder returns, at times by a panic, and never for want of fuel or by an error that it does
  -- not record; the state it leaves is sane again with that budget, no byte of the input is lost
  -- or counted twice, and it has an error, or bytes to hand out, or its weight has gone down.
  pub run_step-Ends :
      (f : Decompressor)
      → IsGood cap wo total budget f
      → Ends (λ _. Advanced (weight f)) Never (run_step f)
  run_step-Ends f g = step_of (weight f) f f.step refl refl g
