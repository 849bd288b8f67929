-- ===== src/Flate/Resume/Blocks.antt =====
-- Reading the tables of a block: what they were before makes no difference.
use targz.Prelude.{
  ℕ, ◌+◌, ◌-◌, ◌≤◌, ltb, if◌then◌else◌, ◌≡◌, refl, ap, sym, ◌∙◌, ◌/◌, ◌%◌, ◌^◌, get_or, arith,
  Bool-cases, inl, inr,
}
use targz.Prelude.Slices.{slice}
use mathlib.Core.Path.{subst}
use targz.Flate.Huffman
use targz.Flate.Huffman.{HuffmanDecoder}
use targz.Flate.State.{
  Decompressor, Action, pure, ◌>>=◌, ◌>>◌, modify, gets, need_bits, num_codes, max_num_lit,
  max_num_dist,
}
use targz.Flate.Symbols.{
  corrupt_input, read_codebits, clear_codebits, read_lengths, init_h1, init_h2, read_counts,
  raise_min, read_huffman,
}
use targz.Flate.Resume.{
  Extras, extras, Both, both_done, both_failed, SameCore, Like, bind-Both, change, blind-Both,
}
use targz.Flate.Resume.Blind.{need_bits-IsBlind}
use targz.Flate.Resume.Lengths.{get_or-AgreeTo, slice-AgreeTo, AgreeIn-all}
use targz.Flate.Resume.Tables.{Held, with_h1, with_h2, Ordered, Written, Tabled, fewer_codes}
use targz.Flate.Resume.Codes.{read_codebits-Both, clear_codebits-Both, init_h1-Both, init_h2-Both}
use targz.Flate.Resume.Sizes.{read_lengths-Both}

module _ (l : ℕ) where
  -- The numbers of codes, of which there are enough for the end of the block.
  read_counts-Both :
      (Q : Extras → Extras → Type 0) (f g : Decompressor)
      → Like Q f g
      → Both (λ c f g. Like Q f g × (257 ≤ c.0)) SameCore (read_counts f) (read_counts g)
  unfolding read_counts
  read_counts-Both Q f g h =
      bind-Both (λ _. Like Q) (λ c f g. Like Q f g × (257 ≤ c.0)) SameCore (need_bits 14 14)
        (need_bits 14 14) _ _ f g (blind-Both Q (need_bits 14 14) (need_bits-IsBlind 14 14) f g h)
        (λ _ f g h. counted f g h)
    where
      rest : Action (ℕ × ℕ × ℕ)
      rest = do
        nlit ← gets (λ f. f.b % 2 ^ 5 + 257)
        if ltb max_num_lit nlit then corrupt_input else do
          modify (λ f. record f { b = f.b / 2 ^ 5 })
          ndist ← gets (λ f. f.b % 2 ^ 5 + 1)
          if ltb max_num_dist ndist then corrupt_input else do
            modify (λ f. record f { b = f.b / 2 ^ 5 })
            nclen ← gets (λ f. f.b % 2 ^ 4 + 4)
            modify (λ f. record f { b = f.b / 2 ^ 4; nb = f.nb - 14 })
            pure (nlit, ndist, nclen)

      counted :
          (f g : Decompressor)
          → Like Q f g
          → Both (λ c f g. Like Q f g × (257 ≤ c.0)) SameCore (rest f) (rest g)
      counted f g (e, q) =
          subst (λ z. Both (λ c f g. Like Q f g × (257 ≤ c.0)) SameCore (rest f) (rest z)) (sym e)
            (elim (Bool-cases (ltb max_num_lit (f.b % 2 ^ 5 + 257))) [
              | inl p ↦ rw (rest, p) (both_failed refl)
              | inr p ↦ elim (Bool-cases (ltb max_num_dist (f.b / 2 ^ 5 % 2 ^ 5 + 1))) [
                | inl r ↦ rw (rest, p, r) (both_failed refl)
                | inr r ↦ rw (rest, p, r) (both_done ((refl, q), omega arith))
              ]
            ])

  -- No fewer l bits at a time than the end of the block has.
  raise_min-Tabled :
      (f g : Decompressor)
      → get_or f.bits 256 0 ≡ get_or g.bits 256 0
      → Like (Tabled l) f g
      → Like (Tabled l) (raise_min f) (raise_min g)
  unfolding raise_min
  raise_min-Tabled f g eob (e, (k, t, t')) = (
    change (λ z. record z { h1 = (raise_min g).h1 }) f g e,
    (
      record {
        init1 = λ lengths. ap (λ h. Huffman.init h lengths) same;
        init2 = k.init2;
        lengths = k.lengths;
        size = k.size;
        size' = k.size';
        len = k.len;
        len' = k.len';
      },
      same,
      t',
    ),
  )
    where
      raised : HuffmanDecoder → ℕ → HuffmanDecoder
      raised h n = record h { min = if ltb h.min n then n else h.min }

      same : (raise_min f).h1 ≡ (raise_min g).h1
      same = ap (λ h. raised h (get_or f.bits 256 0)) t ∙ ap (raised g.h1) eob

  -- The tables that are made of the lengths.
  tables_made :
      (nlit ndist : ℕ)
      → 257 ≤ nlit
      → (f g : Decompressor) → Like (Written l (nlit + ndist)) f g
      → Both
          (λ _. Like (Tabled l))
          SameCore
          ((do
            init_h1 (λ f. slice f.bits 0 nlit)
            init_h2 (λ f. slice f.bits nlit (nlit + ndist))
            modify raise_min)
            f)
          ((do
            init_h1 (λ f. slice f.bits 0 nlit)
            init_h2 (λ f. slice f.bits nlit (nlit + ndist))
            modify raise_min)
            g)
  tables_made nlit ndist le f g (e, q) =
      bind-Both (λ _. Like (Written l (nlit + ndist))) (λ _. Like (Tabled l)) SameCore
        (init_h1 (λ f. slice f.bits 0 nlit)) (init_h1 (λ f. slice f.bits 0 nlit)) _ _ f g
        (init_h1-Both l (Written l (nlit + ndist)) (Written l (nlit + ndist))
          (λ f. slice f.bits 0 nlit) f g (e, q) q.0.init1
          (slice-AgreeTo (nlit + ndist) 0 nlit f.bits g.bits (omega arith) (omega arith) q.2)
          (λ h. (with_h1 l (extras f) (extras g) h q.0, refl, q.2)))
        (λ _ f g (e, q).
          bind-Both (λ _. Like (λ x y. Written l (nlit + ndist) x y × (x.h2 ≡ y.h2)))
            (λ _. Like (Tabled l)) SameCore (init_h2 (λ f. slice f.bits nlit (nlit + ndist)))
            (init_h2 (λ f. slice f.bits nlit (nlit + ndist))) _ _ f g
            (init_h2-Both l (Written l (nlit + ndist))
              (λ x y. Written l (nlit + ndist) x y × (x.h2 ≡ y.h2))
              (λ f. slice f.bits nlit (nlit + ndist)) f g (e, q) q.0.init2
              (slice-AgreeTo (nlit + ndist) nlit (nlit + ndist) f.bits g.bits (omega arith)
                (omega arith) q.2)
              (λ h. ((with_h2 l (extras f) (extras g) h q.0, q.1, q.2), refl)))
            (λ _ f g (e, (q, t)). both_done (
              raise_min-Tabled f g
                (get_or-AgreeTo (nlit + ndist) 256 f.bits g.bits (omega (arith, le)) q.2)
                (e, (q.0, q.1, t)))))

  lengths_known :
      (nlit ndist : ℕ)
      → 257 ≤ nlit
      → (f g : Decompressor) → SameCore f g
      → Ordered l 19 (extras f) (extras g)
      → Both
          (λ _. Like (Tabled l))
          SameCore
          ((do
            init_h1 (λ f. f.codebits)
            read_lengths (nlit + ndist) 0 (nlit + ndist)
            init_h1 (λ f. slice f.bits 0 nlit)
            init_h2 (λ f. slice f.bits nlit (nlit + ndist))
            modify raise_min)
            f)
          ((do
            init_h1 (λ f. f.codebits)
            read_lengths (nlit + ndist) 0 (nlit + ndist)
            init_h1 (λ f. slice f.bits 0 nlit)
            init_h2 (λ f. slice f.bits nlit (nlit + ndist))
            modify raise_min)
            g)
  lengths_known nlit ndist le f g e q =
      bind-Both (λ _. Like (Written l 0)) (λ _. Like (Tabled l)) SameCore
        (init_h1 (λ f. f.codebits)) (init_h1 (λ f. f.codebits)) _ _ f g
        (init_h1-Both l (Ordered l 19) (Written l 0) (λ f. f.codebits) f g (e, q) q.0.init1
          (AgreeIn-all f.codebits g.codebits q.1)
          (λ h. (with_h1 l (extras f) (extras g) h q.0, refl, (q.0.lengths, refl))))
        (λ _ f g h.
          bind-Both (λ _. Like (Written l (nlit + ndist))) (λ _. Like (Tabled l)) SameCore
            (read_lengths (nlit + ndist) 0 (nlit + ndist))
            (read_lengths (nlit + ndist) 0 (nlit + ndist)) _ _ f g
            (read_lengths-Both l (nlit + ndist) 0 (nlit + ndist) f g h)
            (λ _ f g h. tables_made nlit ndist le f g h))

  -- From tables that `init` does not tell apart, and lengths of the same number, the tables of a block
  -- become the same.
  pub read_huffman-Both :
      (f g : Decompressor)
      → Like (Held l) f g
      → Both (λ _. Like (Tabled l)) SameCore (read_huffman f) (read_huffman g)
  unfolding read_huffman
  read_huffman-Both f g h =
      bind-Both (λ c f g. Like (Held l) f g × (257 ≤ c.0)) (λ _. Like (Tabled l)) SameCore
        read_counts read_counts _ _ f g (read_counts-Both (Held l) f g h)
        (λ (nlit, ndist, nclen) f g h. lengths_read nlit ndist nclen h.1 f g h.0)
    where
      lengths_read :
          (nlit ndist nclen : ℕ)
          → 257 ≤ nlit
          → (f g : Decompressor) → Like (Held l) f g
          → Both
              (λ _. Like (Tabled l))
              SameCore
              ((do
                read_codebits nclen 0
                clear_codebits (num_codes - nclen) nclen
                init_h1 (λ f. f.codebits)
                read_lengths (nlit + ndist) 0 (nlit + ndist)
                init_h1 (λ f. slice f.bits 0 nlit)
                init_h2 (λ f. slice f.bits nlit (nlit + ndist))
                modify raise_min)
                f)
              ((do
                read_codebits nclen 0
                clear_codebits (num_codes - nclen) nclen
                init_h1 (λ f. f.codebits)
                read_lengths (nlit + ndist) 0 (nlit + ndist)
                init_h1 (λ f. slice f.bits 0 nlit)
                init_h2 (λ f. slice f.bits nlit (nlit + ndist))
                modify raise_min)
                g)
      lengths_read nlit ndist nclen le f g (e, k) =
          bind-Both (λ _. Like (Ordered l (0 + nclen))) (λ _. Like (Tabled l)) SameCore
            (read_codebits nclen 0) (read_codebits nclen 0) _ _ f g
            (read_codebits-Both l nclen 0 f g
              (e, (k, (k.size, k.size', λ j lt. absurd (omega (arith, lt))))))
            (λ _ f g (e, q).
              bind-Both (λ _. Like (Ordered l (nclen + (19 - nclen)))) (λ _. Like (Tabled l))
                SameCore (clear_codebits (num_codes - nclen) nclen)
                (clear_codebits (num_codes - nclen) nclen) _ _ f g
                (clear_codebits-Both l (19 - nclen) nclen f g
                  (e, fewer_codes l (0 + nclen) nclen _ _ (omega arith) q))
                (λ _ f g (e, q).
                  lengths_known nlit ndist le f g e
                    (fewer_codes l (nclen + (19 - nclen)) 19 _ _ (omega arith) q)))
