-- ===== src/Flate/Sound/Loop.antt =====
-- The loop of a compressed block ends, and uses bits.
use targz.Prelude.{
  Bool, false, ◌⊎◌, ◌≢◌, ℕ, zero, suc, ◌-◌, ◌<◌, ◌≡◌, refl, none, length, arith, Bool-cases, inl,
  inr,
}
use targz.Flate.Dict.{avail_write}
use targz.Flate.State.{Decompressor, StepState, state_init, state_dict}
use targz.Flate.Symbols.{huff_sym}
use targz.Flate.Blocks.{
  table, read_literal, use_symbol, block_loop, resume_block, run_huffman_block, copy_history,
}
use targz.Flate.Sound.{
  Never, bits_left, slack, both-Ends, IsQuiet, Ends, bind-Ends, weaken-Ends, catch_outcome-Ends,
}
use targz.Flate.Sound.Symbols.{Spent, huff_sym-Ends}
use targz.Flate.Sound.Histories.{copy_history-to_read, copy_history-Ends}
use targz.Flate.Sound.Copies.{Again}
use targz.Flate.Sound.Steps.{Post, Good, table-Ends, use_symbol-Ends, quiet-Ends}

module _ (cap wo total budget : ℕ) where
  -- After a literal or a match, for which bits have been used.
  abbrev Onward : ℕ → Bool → Decompressor → Type 0
  Onward n again f = Again cap wo total budget n again f × (bits_left f < budget)

  read_literal-Ends :
      (n : ℕ) (f : Decompressor)
      → IsQuiet cap wo total budget n f
      → Ends (Onward n) (Good cap wo total budget) (read_literal f)
  unfolding read_literal
  read_literal-Ends n f q =
      bind-Ends (Post cap wo total budget n) (Onward n) (Good cap wo total budget) (table f.hl) _ f
        (quiet-Ends cap wo total budget n (Post cap wo total budget n) (table f.hl f)
          (table-Ends cap wo total budget n f.hl f q))
        λ h f₁ p₁.
          bind-Ends (Spent cap wo total budget n) (Onward n) (Good cap wo total budget) (huff_sym h)
            _ f₁
            (quiet-Ends cap wo total budget n (Spent cap wo total budget n) (huff_sym h f₁)
              (huff_sym-Ends cap wo total budget n h f₁ p₁))
            λ v f₂ p₂. symbol v f₂ p₂
    where
      symbol :
          (v : ℕ) (f : Decompressor)
          → Spent cap wo total budget n v f
          → Ends (Onward n) (Good cap wo total budget) (use_symbol v f)
      symbol v f (q, lt) =
          weaken-Ends (Again cap wo total (budget - 1) n) (Onward n)
            (Good cap wo total (budget - 1)) (Good cap wo total budget)
            (λ again f' h.
              ((slack budget f' (omega (arith, h.0.bounded)) h.0, h.1), omega (arith, h.0.bounded)))
            (λ f' h. slack budget f' (omega (arith, h.bounded)) h) (use_symbol v f)
            (use_symbol-Ends cap wo total (budget - 1) n v f
              (slack (budget - 1) f (omega arith) q.0, q.1))

  -- The block has ended, or has been left for a full window.
  abbrev Fewer : Decompressor → Type 0
  Fewer f = Good cap wo total budget f × (bits_left f < budget)

  block_loop-Ends :
      (rounds : ℕ) (f : Decompressor)
      → avail_write f.dict < rounds
      → Good cap wo total budget f
      → Ends (λ _. Fewer) (Good cap wo total budget) (block_loop rounds f)
  unfolding block_loop
  block_loop-Ends zero f enough g = absurd (omega arith)
  block_loop-Ends (suc rounds) f enough g =
      bind-Ends (Onward (avail_write f.dict)) (λ _. Fewer) (Good cap wo total budget) read_literal _
        f (read_literal-Ends (avail_write f.dict) f (g, refl))
        λ again f' h. elim (Bool-cases again) [
          | inl e ↦ rw e (block_loop-Ends rounds f' (omega (arith, h.0.1 e)) h.0.0)
          | inr e ↦ rw e (h.0.0, h.1)
        ]

  -- A call that does not fail has bytes to hand out, or fewer bits are left.
  abbrev pub Moved : Decompressor → Type 0
  Moved f = Good cap wo total budget f × ((0 < length f.to_read) ⊎ (bits_left f < budget))

  -- Where a full window has stopped a copy, the copy goes on, and then the block.
  resume_block-Ends :
      (state : StepState) (f : Decompressor)
      → Good cap wo total budget f
      → f.step_state ≡ state
      → Ends
          (λ _. Moved)
          (Good cap wo total budget)
          (resume_block (suc (avail_write f.dict)) state f)
  unfolding resume_block
  resume_block-Ends state_init f g e =
      weaken-Ends (λ _. Fewer) (λ _. Moved) (Good cap wo total budget) (Good cap wo total budget)
        (λ _ _ h. (h.0, inr h.1)) (λ _ h. h) (block_loop (suc (avail_write f.dict)) f)
        (block_loop-Ends (suc (avail_write f.dict)) f (omega arith) g)
  resume_block-Ends state_dict f g e =
      let (pos, le) = g.waiting e in
      bind-Ends
        (λ again f'.
          Again cap wo total budget (suc (avail_write f.dict)) again f'
          × (again ≡ false → 0 < length f'.to_read))
        (λ _. Moved) (Good cap wo total budget) copy_history _ f
        (weaken-Ends _ _ (λ f. Good cap wo total budget f × Unit {0}) (Good cap wo total budget)
          (λ _ _ h. h) (λ _ h. h.0) (copy_history f)
          (both-Ends (Again cap wo total budget (suc (avail_write f.dict)))
            (λ again f'. again ≡ false → 0 < length f'.to_read) (Good cap wo total budget)
            (λ _. Unit) (copy_history f)
            (copy_history-Ends cap wo total budget (suc (avail_write f.dict)) f g pos le
              (omega arith))
            (copy_history-to_read cap wo total budget f g pos le)))
        λ again f' h. elim (Bool-cases again) [
          | inl e ↦ rw e (
              weaken-Ends (λ _. Fewer) (λ _. Moved) (Good cap wo total budget)
                (Good cap wo total budget) (λ _ _ h. (h.0, inr h.1)) (λ _ h. h)
                (block_loop (suc (avail_write f.dict)) f')
                (block_loop-Ends (suc (avail_write f.dict)) f' (h.0.1 e) h.0.0))
          | inr e ↦ rw e (h.0.0, inl (h.1 e))
        ]

  -- Behind a step: an error, bytes to hand out, or fewer bits left.
  abbrev pub Stepped : Decompressor → Type 0
  Stepped f =
      Good cap wo total budget f
      × ((f.err ≢ none) ⊎ ((0 < length f.to_read) ⊎ (bits_left f < budget)))

  pub run_huffman_block-Ends :
      (f : Decompressor)
      → Good cap wo total budget f
      → Ends (λ _. Stepped) Never (run_huffman_block f)
  unfolding run_huffman_block
  run_huffman_block-Ends f g =
      catch_outcome-Ends Moved Stepped (Good cap wo total budget) _ (λ _ h. (h.0, inr h.1))
        (λ f e h. (h, inl (λ p. cc p))) (resume_block-Ends f.step_state f g refl)
