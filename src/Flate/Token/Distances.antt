-- ===== src/Flate/Token/Distances.antt =====
-- gsip/internal/flate/token.go against inflate.go: the compressor's code of a distance is one from
-- which the decoder makes it with some of the extra bits of that code.
use targz.Prelude.{
  ℕ, ◌+◌, ◌-◌, ◌*◌, ◌/◌, ◌%◌, ◌^◌, ◌≤◌, ◌<◌, ◌≡◌, ◌∙◌, ap, ltb→lt, ltb→le, refl, Bool, true, false,
  ◌&&◌, none, some, ltb, arith, get_elem?, if◌then◌else◌, Bool-cases, Option-cases, inl, inr,
  lt→ltb, length,
}
use targz.Prelude.Below.{all_below, all_below-at, both}
use targz.Flate.Token.Codes.{Reaches, reaches, reaches-Reaches}
use targz.Flate.Token.{offset_code, offset_codes, plus}
use targz.Flate.Blocks.{dist_bits, dist_of}

-- What the decoder makes of a distance symbol: the least distance, and the extra bits.
abbrev pub dist_base : ℕ → ℕ × ℕ
dist_base c = if ltb c 4 then (c + 1, 0) else (dist_of c 0, dist_bits c)

near_fits : ℕ → Bool
near_fits off = elim (get_elem? offset_codes off) [
  | none ↦ false
  | some c ↦ reaches (dist_base c) (off + 1)
]

near_fits_all : all_below near_fits 256 ≡ true
unfolding all_below near_fits offset_codes dist_of dist_bits
near_fits_all = refl

-- A whole run of 128 offsets that have one code.
far_fits : ℕ → Bool
far_fits q = elim (get_elem? offset_codes (q + 2)) [
  | none ↦ false
  | some c ↦
      reaches (dist_base (c + 14)) ((q + 2) * 128 + 1)
      && reaches (dist_base (c + 14)) ((q + 2) * 128 + 128)
]

far_fits_all : all_below far_fits 254 ≡ true
unfolding all_below far_fits offset_codes dist_of dist_bits
far_fits_all = refl

near :
    (off : ℕ)
    → off < 256
    → (c : ℕ) × (get_elem? offset_codes off ≡ some c) × Reaches (dist_base c) (off + 1)
unfolding near_fits
near off lt = elim (Option-cases (get_elem? offset_codes off)) [
  | inl e ↦ absurd (cc (rw (near_fits, e) at (all_below-at near_fits 256 off near_fits_all lt)))
  | inr (c, e) ↦ (
    c,
    e,
    reaches-Reaches (dist_base c).0 (dist_base c).1 (off + 1)
        (rw (near_fits, e) at (all_below-at near_fits 256 off near_fits_all lt)),
  )
]

-- A distance between two that are reached is reached.
between : (r : ℕ × ℕ) (lo hi v : ℕ) → Reaches r lo → Reaches r hi → lo ≤ v → v ≤ hi → Reaches r v
between r lo hi v l h p q = (omega (arith, l.0), omega (arith, h.1))

far_at :
    (q : ℕ)
    → q < 254
    → (c : ℕ) × (get_elem? offset_codes (q + 2) ≡ some c)
      × (Reaches (dist_base (c + 14)) ((q + 2) * 128 + 1)
          × Reaches (dist_base (c + 14)) ((q + 2) * 128 + 128))
unfolding far_fits
far_at q lt = elim (Option-cases (get_elem? offset_codes (q + 2))) [
  | inl e ↦ absurd (cc (rw (far_fits, e) at (all_below-at far_fits 254 q far_fits_all lt)))
  | inr (c, e) ↦
      let r = dist_base (c + 14) in
      let (l, h) =
        both (reaches (dist_base (c + 14)) ((q + 2) * 128 + 1))
          (reaches (dist_base (c + 14)) ((q + 2) * 128 + 128))
          (rw (far_fits, e) at (all_below-at far_fits 254 q far_fits_all lt)) in
      (
        c,
        e,
        (
          reaches-Reaches r.0 r.1 ((q + 2) * 128 + 1) l,
          reaches-Reaches r.0 r.1 ((q + 2) * 128 + 128) h,
        ),
      )
]

far :
    (off : ℕ)
    → 256 ≤ off
    → off < 32768
    → (c : ℕ) × (plus 14 (get_elem? offset_codes (off / 2 ^ 7)) ≡ some c)
      × Reaches (dist_base c) (off + 1)
far off ge lt =
    let q = off / 128 - 2 in
    let (c, e, (l, h)) = far_at q (omega arith) in
    (
      c + 14,
      ap (plus 14) (ap (get_elem? offset_codes) (omega arith) ∙ e),
      between (dist_base (c + 14)) ((q + 2) * 128 + 1) ((q + 2) * 128 + 128) (off + 1) l h
          (omega arith) (omega arith),
    )

codes_length : length offset_codes ≡ 256
unfolding offset_codes
codes_length = refl

-- The decoder's distance grows with the extra bits, which it adds to the least.
dist_of-extra : (c extra : ℕ) → dist_of c extra ≡ dist_of c 0 + extra
unfolding dist_of dist_bits
dist_of-extra c extra = plus_assoc (2 ^ ((c - 2) / 2 + 1) + 1) (c % 2 * 2 ^ ((c - 2) / 2)) extra
  where
    plus_assoc : (a b e : ℕ) → a + (b + e) ≡ a + (b + 0) + e
    plus_assoc a b e = omega arith

-- What the decoder makes of a distance symbol and its extra bits, as `read_dist` does.
abbrev pub dist_from : ℕ → ℕ → ℕ
dist_from c extra = if ltb c 4 then c + 1 else dist_of c extra

-- A distance symbol has extra bits, as many as there are for it, from which the decoder makes that
-- distance.
abbrev pub Decodes : ℕ → ℕ → Type 0
Decodes c dist =
    (c < 30) × ((extra : ℕ) × (extra < 2 ^ (dist_base c).1) × (dist_from c extra ≡ dist))

Reaches-Decodes : (c dist : ℕ) → c < 30 → Reaches (dist_base c) dist → Decodes c dist
Reaches-Decodes c dist lt h = elim (Bool-cases (ltb c 4)) [
  | inl p ↦ let r = rw p at h in rw p (lt, (0, omega arith, alone (c + 1) dist r.0 r.1))
  | inr p ↦
      let r = rw p at h in
      rw p (
        lt,
        (
          dist - dist_of c 0,
          between_lt (dist_of c 0) (2 ^ dist_bits c) dist r.0 r.1,
          dist_of-extra c (dist - dist_of c 0) ∙ add_sub (dist_of c 0) dist r.0,
        ),
      )
]
  where
    alone : (b v : ℕ) → b ≤ v → v < b + 2 ^ 0 → b ≡ v
    alone b v l r = omega (arith, l, r)

    between_lt : (b w v : ℕ) → b ≤ v → v < b + w → v - b < w
    between_lt b w v l r = omega (arith, l, r)

    add_sub : (b v : ℕ) → b ≤ v → b + (v - b) ≡ v
    add_sub b v l = omega (arith, l)

small_code : ℕ → Bool
small_code i = elim (get_elem? offset_codes i) [ none ↦ false | some c ↦ ltb c 16 ]

small_code_all : all_below small_code 256 ≡ true
unfolding all_below small_code offset_codes
small_code_all = refl

code-lt : (i c : ℕ) → i < 256 → get_elem? offset_codes i ≡ some c → c < 16
unfolding small_code
code-lt i c lt e =
    ltb→lt c 16 (rw (small_code, e) at (all_below-at small_code 256 i small_code_all lt))

-- For every offset below 32768, `offsetCode` is a distance symbol of the decoder, and there are
-- extra bits, no more than the symbol has, from which the decoder makes the distance, the offset
-- and one.
pub offset_code-dist_of :
    (off : ℕ) → off < 32768 → (c : ℕ) × (offset_code off ≡ some c) × Decodes c (off + 1)
unfolding offset_code
offset_code-dist_of off lt = elim (Bool-cases (ltb off 256)) [
  | inl e ↦
      let (c, code, h) = near off (ltb→lt off 256 e) in
      rw (offset_code, codes_length, e)
        (
          c,
          code,
          Reaches-Decodes c (off + 1) (omega (arith, code-lt off c (ltb→lt off 256 e) code)) h,
        )
  | inr e ↦
      let (c, code, h) = far off (ltb→le off 256 e) lt in
      rw (offset_code, codes_length, e, lt→ltb (off / 2 ^ 7) 256 (omega arith))
        (c, code, Reaches-Decodes c (off + 1) (far-lt c code) h)
]
  where
    some_inj : {a b : ℕ} → some a ≡ some b → a ≡ b
    some_inj h = cc h

    far-lt : (c : ℕ) → plus 14 (get_elem? offset_codes (off / 2 ^ 7)) ≡ some c → c < 30
    far-lt c code = elim (Option-cases (get_elem? offset_codes (off / 2 ^ 7))) [
      | inl n ↦ absurd (cc (rw n at code))
      | inr (k, n) ↦ omega (arith, code-lt (off / 2 ^ 7) k (omega arith) n, some_inj (rw n at code))
    ]
