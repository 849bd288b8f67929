-- ===== src/Flate/Token/Codes.antt =====
-- gsip/internal/flate/token.go against inflate.go: the compressor's code of a length is the one from
-- which the decoder reaches it with the extra bits of that code.
use targz.Prelude.{
  ℕ, ◌+◌, ◌^◌, ◌≤◌, ◌<◌, ◌≡◌, ltb→lt, refl, Bool, true, false, ◌&&◌, none, some, ltb, leb, arith,
  if◌then◌else◌, Option-cases, inl, inr, List, [], ◌∷◌, zero, suc, ◌==◌, ap₂,
}
use targz.Prelude.Below.{all_below, all_below-at, both}
use targz.Flate.Token.{length_code}
use targz.Flate.Blocks.{length_base}

-- `v` lies from `base` on, less than two to the `bits` behind it.
abbrev pub Reaches : ℕ × ℕ → ℕ → Type 0
Reaches (base, bits) v = (base ≤ v) × (v < base + 2 ^ bits)

abbrev pub reaches : ℕ × ℕ → ℕ → Bool
reaches (base, bits) v = leb base v && ltb v (base + 2 ^ bits)

pub reaches-Reaches : (base bits v : ℕ) → reaches (base, bits) v ≡ true → Reaches (base, bits) v
reaches-Reaches base bits v h =
    let (l, r) = both (leb base v) (ltb v (base + 2 ^ bits)) h in
    (ground (arith, l), ltb→lt v (base + 2 ^ bits) r)

-- The length codes, of the first `n`, from which the decoder reaches a length.
unfoldable pub codes_for : ℕ → ℕ → List ℕ
codes_for len zero = []
codes_for len (suc n) =
    let before = codes_for len n in
    if reaches (length_base (257 + n)) len then n ∷ before else before

exactly : List ℕ → List ℕ → Bool
exactly [] [] = true
exactly [] (y ∷ ys) = false
exactly (x ∷ xs) [] = false
exactly (x ∷ xs) (y ∷ ys) = (x == y) && exactly xs ys

exactly-same : (xs ys : List ℕ) → exactly xs ys ≡ true → xs ≡ ys
unfolding exactly
exactly-same [] [] h = refl
exactly-same [] (y ∷ ys) h = absurd (cc h)
exactly-same (x ∷ xs) [] h = absurd (cc h)
exactly-same (x ∷ xs) (y ∷ ys) h =
    let (p, q) = both (x == y) (exactly xs ys) h in
    ap₂ (λ a l. a ∷ l) (ground (arith, p)) (exactly-same xs ys q)

-- The code alone, but for the greatest length, which the code before it reaches too.
abbrev pub alone_for : ℕ → ℕ → List ℕ
alone_for len c = if ltb len 255 then c ∷ [] else c ∷ 27 ∷ []

length_fits : ℕ → Bool
length_fits len = elim (length_code len) [
  | none ↦ false
  | some c ↦
      reaches (length_base (257 + c)) (len + 3)
      && exactly (codes_for (len + 3) 29) (alone_for len c)
]

length_fits_all : all_below length_fits 256 ≡ true
unfolding all_below length_fits length_code length_base codes_for exactly
length_fits_all = refl

-- For every length from 3 to 258, `lengthCode` is a code from which the decoder's formula for
-- lengths reaches that length with the extra bits of the code, and it is the only such code, but
-- for the length 258, which the code before it reaches too.
pub length_code-length_base :
    (len : ℕ)
    → len < 256
    → (c : ℕ) × (length_code len ≡ some c)
      × Reaches (length_base (257 + c)) (len + 3)
      × (codes_for (len + 3) 29 ≡ alone_for len c)
unfolding length_fits
length_code-length_base len lt = elim (Option-cases (length_code len)) [
  | inl e ↦
      absurd (cc (rw (length_fits, e) at (all_below-at length_fits 256 len length_fits_all lt)))
  | inr (c, e) ↦
      let (l, r) =
        both (reaches (length_base (257 + c)) (len + 3))
          (exactly (codes_for (len + 3) 29) (alone_for len c))
          (rw (length_fits, e) at (all_below-at length_fits 256 len length_fits_all lt)) in
      (
        c,
        e,
        reaches-Reaches (length_base (257 + c)).0 (length_base (257 + c)).1 (len + 3) l,
        exactly-same _ _ r,
      )
]
