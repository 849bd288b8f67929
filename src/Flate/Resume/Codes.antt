-- ===== src/Flate/Resume/Codes.antt =====
-- The code lengths of the code lengths, and what `init` makes of lengths.
use targz.Prelude.{ℕ, zero, suc, ◌+◌, List, Option, none, some, ◌≡◌, ap, ◌∙◌, get_or, set, arith}
use mathlib.Core.Path.{subst}
use targz.Flate.Huffman
use targz.Flate.Huffman.{HuffmanDecoder}
use targz.Flate.State.{Decompressor, done, panicked, Outcome, read_bits}
use targz.Flate.Symbols.{code_order, set_codebits, read_codebits, clear_codebits, init_h1, init_h2}
use targz.Flate.Resume.{
  Extras, extras, Both, both_done, both_panicked, SameCore, Like, bind-Both, change, blind-Both,
}
use targz.Flate.Resume.Blind.{read_bits-IsBlind}
use targz.Flate.Resume.Lengths.{set-AgreeIn}
use targz.Flate.Resume.Tables.{SameInit, Ordered}

module _ (l : ℕ) where
  set_codebits-Both :
      (i c : ℕ) (f g : Decompressor)
      → Like (Ordered l i) f g
      → Both (λ _. Like (Ordered l (i + 1))) SameCore (set_codebits i c f) (set_codebits i c g)
  unfolding set_codebits
  set_codebits-Both i c f g (e, (k, h)) =
      let agree = set-AgreeIn i c f.codebits g.codebits h in
      both_done (
        change (λ z. record z { codebits = set g.codebits (get_or code_order i 0) c }) f g e,
        (
          record {
            init1 = k.init1;
            init2 = k.init2;
            lengths = k.lengths;
            size = agree.0;
            size' = agree.1;
            len = k.len;
            len' = k.len';
          },
          agree,
        ),
      )

  pub read_codebits-Both :
      (rounds i : ℕ) (f g : Decompressor)
      → Like (Ordered l i) f g
      → Both
          (λ _. Like (Ordered l (i + rounds)))
          SameCore
          (read_codebits rounds i f)
          (read_codebits rounds i g)
  unfolding read_codebits
  read_codebits-Both zero i f g h = both_done (at_index (omega arith) h)
    where
      at_index : {j : ℕ} → i ≡ j → Like (Ordered l i) f g → Like (Ordered l j) f g
      at_index e h = subst (λ j. Like (Ordered l j) f g) e h
  read_codebits-Both (suc rounds) i f g h =
      bind-Both (λ _. Like (Ordered l i)) (λ _. Like (Ordered l (i + suc rounds))) SameCore
        (read_bits 3) (read_bits 3) _ _ f g
        (blind-Both (Ordered l i) (read_bits 3) (read_bits-IsBlind 3) f g h)
        (λ c f g h.
          bind-Both (λ _. Like (Ordered l (i + 1))) (λ _. Like (Ordered l (i + suc rounds)))
            SameCore (set_codebits i c) (set_codebits i c) _ _ f g (set_codebits-Both i c f g h)
            (λ _ f g h.
              subst
                (λ j.
                  Both (λ _. Like (Ordered l j)) SameCore (read_codebits rounds (i + 1) f)
                    (read_codebits rounds (i + 1) g))
                (assoc i rounds) (read_codebits-Both rounds (i + 1) f g h)))
    where
      assoc : (i r : ℕ) → i + 1 + r ≡ i + suc r
      assoc i r = omega arith

  pub clear_codebits-Both :
      (rounds i : ℕ) (f g : Decompressor)
      → Like (Ordered l i) f g
      → Both
          (λ _. Like (Ordered l (i + rounds)))
          SameCore
          (clear_codebits rounds i f)
          (clear_codebits rounds i g)
  unfolding clear_codebits
  clear_codebits-Both zero i f g h = both_done (at_index (omega arith) h)
    where
      at_index : {j : ℕ} → i ≡ j → Like (Ordered l i) f g → Like (Ordered l j) f g
      at_index e h = subst (λ j. Like (Ordered l j) f g) e h
  clear_codebits-Both (suc rounds) i f g h =
      bind-Both (λ _. Like (Ordered l (i + 1))) (λ _. Like (Ordered l (i + suc rounds))) SameCore
        (set_codebits i 0) (set_codebits i 0) _ _ f g (set_codebits-Both i 0 f g h)
        (λ _ f g h.
          subst
            (λ j.
              Both (λ _. Like (Ordered l j)) SameCore (clear_codebits rounds (i + 1) f)
                (clear_codebits rounds (i + 1) g))
            (assoc i rounds) (clear_codebits-Both rounds (i + 1) f g h))
    where
      assoc : (i r : ℕ) → i + 1 + r ≡ i + suc r
      assoc i r = omega arith

  -- What is made of the same result of `init` is alike.
  placed-Both :
      (Q : Extras → Extras → Type 0) (put : HuffmanDecoder → Decompressor → Decompressor)
      (f g : Decompressor) (o o' : Option HuffmanDecoder)
      → o ≡ o'
      → ((h : HuffmanDecoder) → Like Q (put h f) (put h g))
      → Both
          (λ _. Like Q)
          SameCore
          (elim o as (λ _. Outcome Unit) [ none ↦ panicked | some h ↦ done tt (put h f) ])
          (elim o' as (λ _. Outcome Unit) [ none ↦ panicked | some h ↦ done tt (put h g) ])
  placed-Both Q put f g o o' e next =
      subst
        (λ o'.
          Both (λ _. Like Q) SameCore
            (elim o as (λ _. Outcome Unit) [ none ↦ panicked | some h ↦ done tt (put h f) ])
            (elim o' as (λ _. Outcome Unit) [ none ↦ panicked | some h ↦ done tt (put h g) ]))
        e (same o)
    where
      same :
          (o : Option HuffmanDecoder)
          → Both
              (λ _. Like Q)
              SameCore
              (elim o as (λ _. Outcome Unit) [ none ↦ panicked | some h ↦ done tt (put h f) ])
              (elim o as (λ _. Outcome Unit) [ none ↦ panicked | some h ↦ done tt (put h g) ])
      same none = both_panicked
      same (some h) = both_done (next h)

  pub init_h1-Both :
      (Q Q' : Extras → Extras → Type 0) (lengths : Decompressor → List ℕ) (f g : Decompressor)
      → Like Q f g
      → SameInit f.h1 g.h1
      → lengths f ≡ lengths g
      → ((h : HuffmanDecoder) → Q' (record (extras f) { h1 = h }) (record (extras g) { h1 = h }))
      → Both (λ _. Like Q') SameCore (init_h1 lengths f) (init_h1 lengths g)
  unfolding init_h1
  init_h1-Both Q Q' lengths f g (e, q) same eq next =
      placed-Both Q' (λ h z. record z { h1 = h }) f g _ _
        (same (lengths f) ∙ ap (Huffman.init g.h1) eq)
        (λ h. (change (λ z. record z { h1 = h }) f g e, next h))

  pub init_h2-Both :
      (Q Q' : Extras → Extras → Type 0) (lengths : Decompressor → List ℕ) (f g : Decompressor)
      → Like Q f g
      → SameInit f.h2 g.h2
      → lengths f ≡ lengths g
      → ((h : HuffmanDecoder) → Q' (record (extras f) { h2 = h }) (record (extras g) { h2 = h }))
      → Both (λ _. Like Q') SameCore (init_h2 lengths f) (init_h2 lengths g)
  unfolding init_h2
  init_h2-Both Q Q' lengths f g (e, q) same eq next =
      placed-Both Q' (λ h z. record z { h2 = h }) f g _ _
        (same (lengths f) ∙ ap (Huffman.init g.h2) eq)
        (λ h. (change (λ z. record z { h2 = h }) f g e, next h))
