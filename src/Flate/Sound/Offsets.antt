-- ===== src/Flate/Sound/Offsets.antt =====
-- gsip/internal/flate/inflate.go, the offsets of `Read`: `Woffset() - ToRead()`, which gzip's reader
-- takes for the position of the bytes that it hands out.
use targz.Prelude.{
  ℕ, ◌+◌, ◌≡◌, refl, length, arith, ◌==◌, Bool-cases, Option-cases, inl, inr, length-take,
  length-drop,
}
use targz.Flate.State.{Decompressor, ◌>>◌, modify}
use targz.Flate.Blocks.{flush, run_step}
use targz.Flate.Reading.{deliver, settle}
use targz.Flate.Sound.{IsGood, Never, Ends, bind-Ends}
use targz.Flate.Sound.Copies.{flush_again}
use targz.Flate.Sound.Whole.{weight, HasProgress, Advanced, run_step-Ends}

-- `d` bytes have been handed out: `woffset` counts them and those that wait.
abbrev pub IsCounted : ℕ → Decompressor → Type 0
IsCounted d f = f.woffset ≡ d + length f.to_read

pub settle-IsCounted : (d : ℕ) (f : Decompressor) → f.woffset ≡ d → IsCounted d (settle f)
unfolding settle flush
settle-IsCounted d f e = elim (Option-cases f.err) [
  | inl p ↦ rw (p, settle) (omega (arith, e))
  | inr (err, p) ↦ elim (Bool-cases (length f.to_read == 0)) [
    | inl z ↦ rw (p, settle, z) (ground (arith, e))
    | inr z ↦ rw (p, settle, z) (omega (arith, e))
  ]
]

pub settle-HasProgress : (w : ℕ) (f : Decompressor) → HasProgress w f → HasProgress w (settle f)
unfolding settle flush
settle-HasProgress w f h = elim (Option-cases f.err) [
  | inl p ↦ rw (settle, p) h
  | inr (e, p) ↦ elim (Bool-cases (length f.to_read == 0)) [
    | inl z ↦ rw (settle, p, z) (inl (λ q. cc q))
    | inr z ↦ rw (settle, p, z) (inl (λ q. cc q))
  ]
]

module _ (cap total budget : ℕ) where
  pub settle-IsGood :
      (wo : ℕ) (f : Decompressor)
      → IsGood cap wo total budget f
      → IsGood cap (settle f).woffset total budget (settle f)
  unfolding settle
  settle-IsGood wo f g = elim (Option-cases f.err) [
    | inl p ↦ rw (p, settle) (moved f g)
    | inr (err, p) ↦ elim (Bool-cases (length f.to_read == 0)) [
      | inl z ↦ rw (p, settle, z) (moved (flush f) (flush_again cap wo total budget f g))
      | inr z ↦ rw (p, settle, z) (moved f g)
    ]
  ]
    where
      moved :
          (f : Decompressor) {wo w : ℕ}
          → IsGood cap wo total budget f
          → IsGood cap w total budget (record f { woffset = w })
      moved f g = record {
        valid = g.valid;
        size = g.size;
        room = g.room;
        flushed = refl;
        consumed = g.consumed;
        bounded = g.bounded;
        waiting = g.waiting;
      }

  -- What a round leaves, where `d` bytes have been handed out.
  abbrev pub Rounded : ℕ → ℕ → Decompressor → Type 0
  Rounded d w f = IsGood cap f.woffset total budget f × IsCounted d f × HasProgress w f

  -- A round of the loop of `Read` from a sane state returns or panics, and leaves a sane state
  -- with the same budget of bits in which `woffset` is what it was and the bytes that wait to be
  -- handed out, also where an error has made it flush the window; that state has an error, or
  -- bytes to hand out, or a lower weight.
  pub round-Ends :
      (f : Decompressor)
      → IsGood cap f.woffset total budget f
      → Ends (λ _. Rounded f.woffset (weight f)) Never ((run_step >> modify settle) f)
  round-Ends f g =
      bind-Ends (λ _. Advanced cap f.woffset total budget (weight f))
        (λ _. Rounded f.woffset (weight f)) Never run_step _ f
        (run_step-Ends cap f.woffset total budget f g)
        (λ _ f' h. (
          settle-IsGood f.woffset f' h.0,
          settle-IsCounted f.woffset f' h.0.flushed,
          settle-HasProgress (weight f) f' h.1,
        ))

-- Where `woffset` counts the bytes handed out and those that wait, it still does when `Read` has
-- handed out some more.
pub deliver-IsCounted :
    (n d : ℕ) (f : Decompressor)
    → IsCounted d f
    → IsCounted (d + length (deliver n f).0.0) (deliver n f).1
unfolding deliver
deliver-IsCounted n d f c = omega (arith, c, length-take n f.to_read, length-drop n f.to_read)
