-- ===== src/Flate/Resume/Reads.antt =====
-- `Read` of two decoders that agree where it matters.
use targz.Prelude.{
  ℕ, zero, suc, ◌+◌, List, [], Bool, true, false, Option, none, some, ltb, ◌==◌, if◌then◌else◌, ◌≡◌,
  refl, ap, sym, length,
}
use mathlib.Core.Path.{subst}
use targz.Flate.Source.{Error}
use targz.Flate.State.{Decompressor, Action, done, ◌>>◌, modify}
use targz.Flate.Blocks.{flush, run_step}
use targz.Flate.Reading.{deliver, settle, read}
use targz.Flate.Sound.{IsGood, Never}
use targz.Flate.Sound.Whole.{Advanced, weight, run_step-Ends}
use targz.Flate.Sound.Offsets.{settle-IsGood}
use targz.Flate.Resume.{
  Extras, with_extras, Both, both_done, both_stuck, SameCore, bind-Both, like_any,
}
use targz.Flate.Resume.Copying.{ForStep, Ready}
use targz.Flate.Resume.Steps.{both_and, run_step-Both}

-- `settle` with its tests given.
abbrev settle_with : Option Error → Bool → Decompressor → Decompressor
settle_with o empty f =
    let f₁ : Decompressor = record f { woffset = f.woffset + length f.to_read } in
    let f₂ = flush f₁ in
    elim o [
      | none ↦ f₁
      | some e ↦ if empty then record f₂ { woffset = f₂.woffset + length f₂.to_read } else f₁
    ]

settle_with-Ready :
    (o : Option Error) (empty : Bool) (f : Decompressor) (y : Extras)
    → Ready f (with_extras y f)
    → Ready (settle_with o empty f) (settle_with o empty (with_extras y f))
unfolding flush
settle_with-Ready none empty f y (e, k) = (refl, k)
settle_with-Ready (some err) true f y (e, k) = (refl, k)
settle_with-Ready (some err) false f y (e, k) = (refl, k)

-- What matters to the next step, of the states that agree with one.
abbrev Next : Decompressor → Extras → Extras → Type 0
Next f x y = f.err ≡ none → ForStep f.step x y

settle-Ready : (f g : Decompressor) → Ready f g → Ready (settle f) (settle g)
unfolding settle
settle-Ready f g h =
    like_any (Next f) (λ g. Ready (settle f) (settle g)) f g h
      (λ y k.
        settle_with-Ready f.err
          (length (record f { woffset = f.woffset + length f.to_read }).to_read == 0) f y (refl, k))

-- Sane, with any offset in the output.
abbrev pub IsSound : ℕ → ℕ → ℕ → Decompressor → Type 0
IsSound cap total budget f = IsGood cap f.woffset total budget f

-- Decoders that go on alike, both sane.
abbrev pub Along : ℕ → ℕ → ℕ → Decompressor → Decompressor → Type 0
Along cap total budget f g = Ready f g × IsSound cap total budget f × IsSound cap total budget g

module _ (cap total budget n : ℕ) where
  delivered :
      (f g : Decompressor)
      → Along cap total budget f g
      → Both
          (λ _. Along cap total budget)
          SameCore
          (done (deliver n f).0 (deliver n f).1)
          (done (deliver n g).0 (deliver n g).1)
  unfolding deliver
  delivered f g ((e, k), good, good') =
      like_any (λ x y. Next f x y × IsSound cap total budget (with_extras y f))
        (λ g.
          Both (λ _. Along cap total budget) SameCore (done (deliver n f).0 (deliver n f).1)
            (done (deliver n g).0 (deliver n g).1))
        f g (e, (k, subst (IsSound cap total budget) e good'))
        (λ y (k, good'). both_done ((refl, k), good, good'))

  -- `Read` with its tests given.
  abbrev read_by : Bool → Option Error → ℕ → Action (List ℕ × Option Error)
  read_by waiting err rounds f = elim waiting [
    | true ↦ done (deliver n f).0 (deliver n f).1
    | false ↦ elim err [
      | some e ↦ done ([], some e) f
      | none ↦ (do run_step; modify settle; read rounds n) f
    ]
  ]

  stepped :
      (f g : Decompressor)
      → Along cap total budget f g
      → f.err ≡ none
      → Both
          (λ _ f' g'.
            Ready f' g'
            × Advanced cap f.woffset total budget (weight f) f'
            × Advanced cap g.woffset total budget (weight g) g')
          SameCore
          (run_step f)
          (run_step g)
  stepped f g (h, good, good') no_err =
      both_and (λ _. Ready) (λ _. Advanced cap f.woffset total budget (weight f))
        (λ _. Advanced cap g.woffset total budget (weight g)) SameCore Never Never
        (run_step-Both cap f.woffset total budget f g h no_err
          (good, subst (λ w. IsGood cap w total budget g) (ap (λ z. z.woffset) h.0) good'))
        (run_step-Ends cap f.woffset total budget f good)
        (run_step-Ends cap g.woffset total budget g good')

  read_by-Both :
      (waiting : Bool) (err : Option Error) (rounds : ℕ) (f g : Decompressor)
      → ((f g : Decompressor)
          → Along cap total budget f g
          → Both (λ _. Along cap total budget) SameCore (read rounds n f) (read rounds n g))
      → f.err ≡ err
      → Along cap total budget f g
      → Both
          (λ _. Along cap total budget)
          SameCore
          (read_by waiting err rounds f)
          (read_by waiting err rounds g)
  read_by-Both true err rounds f g later e h = delivered f g h
  read_by-Both false (some err) rounds f g later e h = both_done h
  read_by-Both false none rounds f g later e h =
      bind-Both
        (λ _ f' g'.
          Ready f' g'
          × Advanced cap f.woffset total budget (weight f) f'
          × Advanced cap g.woffset total budget (weight g) g')
        (λ _. Along cap total budget) SameCore run_step run_step _ _ f g (stepped f g h e)
        (λ _ f' g' (ready, good, good'). later (settle f') (settle g') (
          settle-Ready f' g' ready,
          settle-IsGood cap total budget f.woffset f' good.0,
          settle-IsGood cap total budget g.woffset g' good'.0,
        ))

  -- `Read` returns the same bytes and the same error.
  pub read-Both :
      (rounds : ℕ) (f g : Decompressor)
      → Along cap total budget f g
      → Both (λ _. Along cap total budget) SameCore (read rounds n f) (read rounds n g)
  unfolding read
  read-Both zero f g h = both_stuck
  read-Both (suc rounds) f g h =
      subst
        (λ (t, o).
          Both (λ _. Along cap total budget) SameCore
            (read_by (ltb 0 (length f.to_read)) f.err rounds f)
            (read_by (ltb 0 (length t)) o rounds g))
        (sym (ap (λ z. (z.to_read, z.err)) h.0.0))
        (read_by-Both (ltb 0 (length f.to_read)) f.err rounds f g (read-Both rounds) refl h)
