-- ===== src/Flate/Resume/Sizes.antt =====
-- The code lengths of literals and distances.
use targz.Prelude.{
  ℕ, zero, suc, ◌+◌, ◌-◌, ◌<◌, false, ltb, ◌==◌, ◌≡◌, ap, set, ltb→le, arith, Bool-cases, inl, inr,
}
use mathlib.Core.Path.{subst}
use targz.Flate.State.{Decompressor, Action, ◌>>=◌, read_bits}
use targz.Flate.Symbols.{
  huff_sym, repeat_bits, Repeat, repeat_of, use_repeat, use_length, read_lengths,
}
use targz.Flate.Resume.{
  extras, Both, both_done, both_failed, both_stuck, SameCore, Like, bind-Both, change, blind-Both,
}
use targz.Flate.Resume.Blind.{read_bits-IsBlind, huff_sym-IsBlind}
use targz.Flate.Resume.Lengths.{set-AgreeTo, repeat_bits-AgreeTo, get_or-AgreeTo}
use targz.Flate.Resume.Tables.{done-Both, corrupt_input-Both, with_bits, Written, fewer}

module _ (l : ℕ) where
  -- The lengths of the codes, from the first that is not known.
  repeat_of-Both :
      (x i : ℕ) (f g : Decompressor)
      → Like (Written l i) f g
      → Both (λ _. Like (Written l i)) SameCore (repeat_of x i f) (repeat_of x i g)
  unfolding repeat_of
  repeat_of-Both x i f g h = elim (Bool-cases (x == 16)) [
    | inl p ↦ elim (Bool-cases (i == 0)) [
      | inl q ↦ rw (repeat_of, p, q) (corrupt_input-Both _ f g h.0)
      | inr q ↦
          rw (repeat_of, p, q)
            (done-Both _ _ _ f g
              (ap (λ b. record { rep = 3; nb = 2; b = b })
                (get_or-AgreeTo i (i - 1) f.bits g.bits (positive q) h.1.2))
              h)
    ]
    | inr p ↦ elim (Bool-cases (x == 17)) [
      | inl q ↦ rw (repeat_of, p, q) (both_done h)
      | inr q ↦ elim (Bool-cases (x == 18)) [
        | inl r ↦ rw (repeat_of, p, q, r) (both_done h)
        | inr r ↦ rw (repeat_of, p, q, r) (both_failed h.0)
      ]
    ]
  ]
    where
      positive : (i == 0) ≡ false → i - 1 < i
      positive q = ground (arith, q)

  use_repeat-Both :
      (r : Repeat) (more i n : ℕ) (next : ℕ → Action Unit)
      → ((j : ℕ) (f g : Decompressor)
          → Like (Written l j) f g
          → Both (λ _. Like (Written l n)) SameCore (next j f) (next j g))
      → (f g : Decompressor) → Like (Written l i) f g
      → Both
          (λ _. Like (Written l n))
          SameCore
          (use_repeat r more i n next f)
          (use_repeat r more i n next g)
  unfolding use_repeat
  use_repeat-Both r more i n next go_on f g (e, (k, t, a)) =
      elim (Bool-cases (ltb n (i + (r.rep + more)))) [
        | inl p ↦ rw (use_repeat, p) (corrupt_input-Both _ f g e)
        | inr p ↦
            rw (use_repeat, p)
              (go_on (i + (r.rep + more)) _ _ (
                change (λ z. record z { bits = repeat_bits (r.rep + more) i r.b g.bits }) f g e,
                (
                  with_bits l (extras f) (extras g) _ _ k
                      (repeat_bits-AgreeTo (r.rep + more) i r.b f.bits g.bits a).0,
                  t,
                  repeat_bits-AgreeTo (r.rep + more) i r.b f.bits g.bits a,
                ),
              ))
      ]

  use_length-Both :
      (x i n : ℕ) (next : ℕ → Action Unit)
      → ((j : ℕ) (f g : Decompressor)
          → Like (Written l j) f g
          → Both (λ _. Like (Written l n)) SameCore (next j f) (next j g))
      → (f g : Decompressor) → Like (Written l i) f g
      → Both (λ _. Like (Written l n)) SameCore (use_length x i n next f) (use_length x i n next g)
  unfolding use_length
  use_length-Both x i n next go_on f g (e, (k, t, a)) = elim (Bool-cases (ltb x 16)) [
    | inl p ↦
        rw (use_length, p)
          (go_on (i + 1) _ _ (
            change (λ z. record z { bits = set g.bits i x }) f g e,
            (
              with_bits l (extras f) (extras g) _ _ k (set-AgreeTo i x f.bits g.bits a).0,
              t,
              set-AgreeTo i x f.bits g.bits a,
            ),
          ))
    | inr p ↦
        rw (use_length, p)
          (bind-Both (λ _. Like (Written l i)) (λ _. Like (Written l n)) SameCore (repeat_of x i)
            (repeat_of x i) _ _ f g (repeat_of-Both x i f g (e, (k, t, a)))
            (λ r f g h.
              bind-Both (λ _. Like (Written l i)) (λ _. Like (Written l n)) SameCore
                (read_bits r.nb) (read_bits r.nb) _ _ f g
                (blind-Both (Written l i) (read_bits r.nb) (read_bits-IsBlind r.nb) f g h)
                (λ more f g h. use_repeat-Both r more i n next go_on f g h)))
  ]

  pub read_lengths-Both :
      (rounds i n : ℕ) (f g : Decompressor)
      → Like (Written l i) f g
      → Both
          (λ _. Like (Written l n))
          SameCore
          (read_lengths rounds i n f)
          (read_lengths rounds i n g)
  unfolding read_lengths
  read_lengths-Both zero i n f g h = elim (Bool-cases (ltb i n)) [
    | inl p ↦ rw (read_lengths, p) both_stuck
    | inr p ↦ rw (read_lengths, p) (both_done (h.0, fewer l i n _ _ (ltb→le i n p) h.1))
  ]
  read_lengths-Both (suc rounds) i n f g h = elim (Bool-cases (ltb i n)) [
    | inl p ↦
        rw (read_lengths, p)
          (subst
            (λ t.
              Both (λ _. Like (Written l n)) SameCore
                ((do x ← huff_sym f.h1; use_length x i n (λ j. read_lengths rounds j n)) f)
                ((do x ← huff_sym t; use_length x i n (λ j. read_lengths rounds j n)) g))
            h.1.1
            (bind-Both (λ _. Like (Written l i)) (λ _. Like (Written l n)) SameCore (huff_sym f.h1)
              (huff_sym f.h1) _ _ f g
              (blind-Both (Written l i) (huff_sym f.h1) (huff_sym-IsBlind f.h1) f g h)
              (λ x f g h.
                use_length-Both x i n (λ j. read_lengths rounds j n)
                  (λ j. read_lengths-Both rounds j n) f g h)))
    | inr p ↦ rw (read_lengths, p) (both_done (h.0, fewer l i n _ _ (ltb→le i n p) h.1))
  ]
