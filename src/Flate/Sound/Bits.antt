-- ===== src/Flate/Sound/Bits.antt =====
-- Reading bits keeps the state good, and gets the bits asked for.
use targz.Prelude.{
  ◌-◌, ℕ, zero, suc, ◌+◌, ◌≤◌, ◌<◌, ◌≡◌, refl, ap, List, [], ◌∷◌, length, arith, lt→ltb, le→ltb,
  not_lt,
}
use native.Mathlib.Decide.{dec_lt}
use targz.Flate.State.{
  Decompressor, done, ◌>>◌, more_bits, more_bits_from, need_bits, take_bits, read_bits,
}
use targz.Flate.Sound.{IsGood, IsQuiet, GoodAt-position, Ends, bind-Ends}

module _ (cap wo total budget n : ℕ) where
  abbrev Quiet : Decompressor → Type 0
  Quiet = IsQuiet cap wo total budget n

  more_bits_from-Ends :
      (bytes : List ℕ) (f : Decompressor)
      → f.r.rest ≡ bytes
      → Quiet f
      → Ends (λ _ f'. Quiet f' × (f'.nb ≡ f.nb + 8)) Quiet (more_bits_from bytes f)
  unfolding more_bits_from
  more_bits_from-Ends [] f e q = q
  more_bits_from-Ends (c ∷ rest) f e q = (
    (
      GoodAt-position (omega (arith, ap length e)) (omega (arith, ap length e, q.0.bounded)) q.0,
      q.1,
    ),
    refl,
  )

  pub more_bits-Ends :
      (f : Decompressor)
      → Quiet f
      → Ends (λ _ f'. Quiet f' × (f'.nb ≡ f.nb + 8)) Quiet (more_bits f)
  unfolding more_bits
  more_bits-Ends f q = more_bits_from-Ends f.r.rest f refl q

  need_bits_more :
      (rounds k : ℕ) (f : Decompressor)
      → f.nb < k
      → need_bits (suc rounds) k f ≡ (more_bits >> need_bits rounds k) f
  unfolding need_bits
  need_bits_more rounds k f lt = rw (lt→ltb _ _ lt, need_bits)

  need_bits_done : (rounds k : ℕ) (f : Decompressor) → k ≤ f.nb → need_bits rounds k f ≡ done tt f
  unfolding need_bits
  need_bits_done zero k f le = rw (le→ltb _ _ le)
  need_bits_done (suc rounds) k f le = rw (le→ltb _ _ le, need_bits)

  pub need_bits-Ends :
      (rounds k : ℕ) (f : Decompressor)
      → k ≤ f.nb + rounds
      → Quiet f
      → Ends (λ _ f'. Quiet f' × (k ≤ f'.nb)) Quiet (need_bits rounds k f)
  need_bits-Ends zero k f enough q = rw (need_bits_done zero k f (omega arith)) (q, omega arith)
  need_bits-Ends (suc rounds) k f enough q = elim (dec_lt f.nb k) [
    | yes lt ↦ rw (need_bits_more rounds k f lt) (
        bind-Ends (λ _ f'. Quiet f' × (f'.nb ≡ f.nb + 8)) (λ _ f'. Quiet f' × (k ≤ f'.nb)) Quiet
          more_bits (λ _. need_bits rounds k) f (more_bits-Ends f q)
          (λ _ f' h. need_bits-Ends rounds k f' (omega arith) h.0))
    | no ge ↦ rw (need_bits_done (suc rounds) k f (not_lt ge)) (q, not_lt ge)
  ]

  -- Bits that are dropped.
  pub spend :
      (f : Decompressor) (k : ℕ)
      → IsGood cap wo total budget f
      → IsGood cap wo total budget (record f { nb = f.nb - k })
  spend f k g = GoodAt-position refl (omega (arith, g.bounded)) g

  pub read_bits-Ends :
      (k : ℕ) (f : Decompressor) → Quiet f → Ends (λ _ f'. Quiet f') Quiet (read_bits k f)
  unfolding read_bits take_bits
  read_bits-Ends k f q =
      bind-Ends (λ _ f'. Quiet f' × (k ≤ f'.nb)) (λ _ f'. Quiet f') Quiet (need_bits k k)
        (λ _. take_bits k) f (need_bits-Ends k k f (omega arith) q)
        (λ _ f' h. (spend f' k h.0.0, h.0.1))
