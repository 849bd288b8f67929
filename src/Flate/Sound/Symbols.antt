-- ===== src/Flate/Sound/Symbols.antt =====
-- Huffman symbols and the tables of a dynamic block: they end, and keep the state good.
use targz.Prelude.{
  leb, ◌==◌, ◌*◌, length, ℕ, zero, suc, ◌+◌, ◌-◌, ◌/◌, ◌%◌, ◌^◌, ◌≤◌, ◌<◌, List, arith, ltb,
  Bool-cases, Option-cases, inl, inr, lt→ltb, le→ltb, not_lt,
}
use native.Mathlib.Decide.{dec_lt}
use targz.Prelude.Slices.{slice}
use targz.Flate.Huffman
use targz.Flate.Huffman.{HuffmanDecoder}
use targz.Flate.State.{Decompressor, Action, need_bits, take_bits, read_bits}
use targz.Flate.Symbols.{
  lookup, use_entry, use_length, use_repeat, sym_loop, huff_sym, set_codebits, read_codebits,
  clear_codebits, Repeat, repeat_of, read_lengths, init_h1, init_h2, read_counts, read_huffman,
  corrupt_input,
}
use targz.Flate.Sound.{bits_left, IsQuiet, Ends, bind-Ends, if-Ends}
use targz.Flate.Sound.Bits.{spend, need_bits-Ends, read_bits-Ends}

module _ (cap wo total budget n : ℕ) where
  abbrev Quiet : Decompressor → Type 0
  Quiet = IsQuiet cap wo total budget n

  abbrev Post : {A : Type 0} → A → Decompressor → Type 0
  Post a f = Quiet f

  -- A bit at least has been used.
  abbrev pub Spent : {A : Type 0} → A → Decompressor → Type 0
  Spent a f = Quiet f × (bits_left f < budget)

  use_entry-Ends :
      (chunk : ℕ) (retry : Action ℕ) (f : Decompressor)
      → Quiet f
      → (f.nb < chunk % 16 → Ends Spent Quiet (retry f))
      → Ends Spent Quiet (use_entry chunk f.nb retry f)
  unfolding use_entry take_bits
  use_entry-Ends chunk retry f q again = elim (Bool-cases (leb (chunk % 16) f.nb)) [
    | inr e ↦ rw (use_entry, e) (again (ground arith))
    | inl e ↦ elim (Bool-cases (chunk % 16 == 0)) [
      | inl z ↦ rw (use_entry, e, z) q
      | inr z ↦
          rw (use_entry, e, z)
            (
              (spend cap wo total budget n f (chunk % 16) q.0, q.1),
              fewer (ground arith) (ground arith),
            )
    ]
  ]
    where
      fewer :
          chunk % 16 ≤ f.nb → 0 < chunk % 16 → 8 * length f.r.rest + (f.nb - chunk % 16) < budget
      fewer le pos = omega (arith, q.0.bounded)

  sym_loop-Ends :
      (rounds : ℕ) (h : HuffmanDecoder) (k : ℕ) (f : Decompressor)
      → (k ≤ 15 → 16 ≤ k + rounds)
      → 0 < rounds
      → Quiet f
      → Ends Spent Quiet (sym_loop rounds h k f)
  unfolding sym_loop
  sym_loop-Ends zero h k f enough pos q = absurd (omega arith)
  sym_loop-Ends (suc rounds) h k f enough pos q =
      bind-Ends (λ _ f'. Quiet f' × (k ≤ f'.nb)) Spent Quiet (need_bits k k) _ f
        (need_bits-Ends cap wo total budget n k k f (omega arith) q)
        (λ _ f' p.
          use_entry-Ends (lookup h f'.b) (sym_loop rounds h (lookup h f'.b % 16)) f' p.0 (λ lt.
            sym_loop-Ends rounds h (lookup h f'.b % 16) f' (λ _. omega arith) (omega arith) p.0))

  pub huff_sym-Ends :
      (h : HuffmanDecoder) (f : Decompressor) → Quiet f → Ends Spent Quiet (huff_sym h f)
  unfolding huff_sym
  huff_sym-Ends h f q = sym_loop-Ends 17 h h.min f (λ _. omega arith) (omega arith) q

  read_codebits-Ends :
      (rounds i : ℕ) (f : Decompressor) → Quiet f → Ends Post Quiet (read_codebits rounds i f)
  unfolding read_codebits set_codebits
  read_codebits-Ends zero i f q = q
  read_codebits-Ends (suc rounds) i f q =
      bind-Ends Post Post Quiet (read_bits 3) _ f (read_bits-Ends cap wo total budget n 3 f q)
        (λ x f' p. read_codebits-Ends rounds (i + 1) _ p)

  clear_codebits-Ends :
      (rounds i : ℕ) (f : Decompressor) → Quiet f → Ends Post Quiet (clear_codebits rounds i f)
  unfolding clear_codebits set_codebits
  clear_codebits-Ends zero i f q = q
  clear_codebits-Ends (suc rounds) i f q = clear_codebits-Ends rounds (i + 1) _ q

  repeat_of-Ends :
      (x i : ℕ) (f : Decompressor)
      → Quiet f
      → Ends (λ (r : Repeat) f'. Quiet f' × (3 ≤ r.rep)) Quiet (repeat_of x i f)
  unfolding repeat_of
  repeat_of-Ends x i f q = ground arith

  use_repeat-Ends :
      (r : Repeat) (more i m : ℕ) (next : ℕ → Action Unit) (f : Decompressor)
      → 3 ≤ r.rep
      → Quiet f
      → ((j : ℕ) (f' : Decompressor) → i < j → Quiet f' → Ends Post Quiet (next j f'))
      → Ends Post Quiet (use_repeat r more i m next f)
  unfolding use_repeat
  use_repeat-Ends r more i m next f big q go =
      if-Ends Post Quiet (ltb m (i + (r.rep + more))) corrupt_input _ f q
        (go (i + (r.rep + more)) _ (omega arith) q)

  use_length-Ends :
      (x i m : ℕ) (next : ℕ → Action Unit) (f : Decompressor)
      → i < m
      → Quiet f
      → ((j : ℕ) (f' : Decompressor) → i < j → Quiet f' → Ends Post Quiet (next j f'))
      → Ends Post Quiet (use_length x i m next f)
  unfolding use_length
  use_length-Ends x i m next f lt q go = elim (Bool-cases (ltb x 16)) [
    | inl e ↦ rw (e, use_length) (go (i + 1) _ (omega arith) q)
    | inr e ↦
        rw (e, use_length)
          (bind-Ends (λ (r : Repeat) f'. Quiet f' × (3 ≤ r.rep)) Post Quiet (repeat_of x i) _ f
            (repeat_of-Ends x i f q)
            (λ r f' p.
              bind-Ends Post Post Quiet (read_bits r.nb) _ f'
                (read_bits-Ends cap wo total budget n r.nb f' p.0)
                (λ more f₂ p₂. use_repeat-Ends r more i m next f₂ p.1 p₂ go)))
  ]

  read_lengths-Ends :
      (rounds i m : ℕ) (f : Decompressor)
      → m ≤ i + rounds
      → Quiet f
      → Ends Post Quiet (read_lengths rounds i m f)
  unfolding read_lengths
  read_lengths-Ends zero i m f enough q = rw (le→ltb i m (omega arith)) q
  read_lengths-Ends (suc rounds) i m f enough q = elim (dec_lt i m) [
    | yes lt ↦
        rw (lt→ltb _ _ lt, read_lengths)
          (bind-Ends Spent Post Quiet (huff_sym f.h1) _ f (huff_sym-Ends f.h1 f q) (λ x f' p.
            use_length-Ends x i m (λ j. read_lengths rounds j m) f' lt p.0
              (λ j f₂ more p₂. read_lengths-Ends rounds j m f₂ (omega arith) p₂)))
    | no ge ↦ rw (le→ltb _ _ (not_lt ge), read_lengths) q
  ]

  read_counts-Ends : (f : Decompressor) → Quiet f → Ends Post Quiet (read_counts f)
  unfolding read_counts
  read_counts-Ends f q =
      bind-Ends (λ _ f'. Quiet f' × (14 ≤ f'.nb)) Post Quiet (need_bits 14 14) _ f
        (need_bits-Ends cap wo total budget n 14 14 f (omega arith) q)
        (λ _ f' p. if-Ends Post Quiet (ltb 286 (f'.b % 2 ^ 5 + 257)) corrupt_input _ f' p.0 (
          if-Ends Post Quiet (ltb 30 (f'.b / 2 ^ 5 % 2 ^ 5 + 1)) corrupt_input _ _ p.0
            (spend cap wo total budget n f' 14 p.0.0, p.0.1)))

  init_h1-Ends :
      (lengths : Decompressor → List ℕ) (f : Decompressor)
      → Quiet f
      → Ends Post Quiet (init_h1 lengths f)
  unfolding init_h1
  init_h1-Ends lengths f q = elim (Option-cases (Huffman.init f.h1 (lengths f))) [
    | inl e ↦ rw (e, init_h1) tt
    | inr (h, e) ↦ rw (e, init_h1) q
  ]

  init_h2-Ends :
      (lengths : Decompressor → List ℕ) (f : Decompressor)
      → Quiet f
      → Ends Post Quiet (init_h2 lengths f)
  unfolding init_h2
  init_h2-Ends lengths f q = elim (Option-cases (Huffman.init f.h2 (lengths f))) [
    | inl e ↦ rw (e, init_h2) tt
    | inr (h, e) ↦ rw (e, init_h2) q
  ]

  pub read_huffman-Ends : (f : Decompressor) → Quiet f → Ends Post Quiet (read_huffman f)
  unfolding read_huffman
  read_huffman-Ends f q =
      bind-Ends Post Post Quiet read_counts _ f (read_counts-Ends f q) λ (nlit, ndist, nclen) f₁ q₁.
        bind-Ends Post Post Quiet (read_codebits nclen 0) _ f₁ (read_codebits-Ends nclen 0 f₁ q₁)
          λ _ f₂ q₂.
            bind-Ends Post Post Quiet (clear_codebits (19 - nclen) nclen) _ f₂
              (clear_codebits-Ends (19 - nclen) nclen f₂ q₂)
              λ _ f₃ q₃.
                bind-Ends Post Post Quiet (init_h1 (λ f. f.codebits)) _ f₃
                  (init_h1-Ends (λ f. f.codebits) f₃ q₃)
                  λ _ f₄ q₄.
                    bind-Ends Post Post Quiet (read_lengths (nlit + ndist) 0 (nlit + ndist)) _ f₄
                      (read_lengths-Ends (nlit + ndist) 0 (nlit + ndist) f₄ (omega arith) q₄)
                      λ _ f₅ q₅.
                        bind-Ends Post Post Quiet (init_h1 (λ f. slice f.bits 0 nlit)) _ f₅
                          (init_h1-Ends (λ f. slice f.bits 0 nlit) f₅ q₅)
                          λ _ f₆ q₆.
                            bind-Ends Post Post Quiet
                              (init_h2 (λ f. slice f.bits nlit (nlit + ndist))) _ f₆
                              (init_h2-Ends (λ f. slice f.bits nlit (nlit + ndist)) f₆ q₆)
                              λ _ f₇ q₇. q₇
