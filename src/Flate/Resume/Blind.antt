-- ===== src/Flate/Resume/Blind.antt =====
-- Reading bits and symbols is blind to what a checkpoint leaves out.
use targz.Prelude.{
  ℕ, zero, suc, ◌%◌, List, [], ◌∷◌, Bool, true, false, ltb, leb, ◌==◌, if◌then◌else◌, ◌≡◌, refl,
  ◌∙◌, ap, Bool-cases, inl, inr,
}
use targz.Flate.State.{
  Action, Outcome, done, failed, panicked, stuck, ◌>>=◌, pure, then_outcome, more_bits_from,
  more_bits, need_bits, take_bits, read_bits,
}
use targz.Flate.Huffman.{HuffmanDecoder}
use targz.Flate.Symbols.{lookup, use_entry, sym_loop, huff_sym}
use targz.Flate.Blocks.{length_of, length_base}
use targz.Flate.Resume.{Extras, with_extras, map_outcome, IsBlind}

module _ {A B : Type 0} where
  then_outcome-map :
      (x : Extras) (o : Outcome A) (k : A → Action B)
      → ((a : A) → IsBlind (k a))
      → then_outcome (map_outcome (with_extras x) o) k
        ≡ map_outcome (with_extras x) (then_outcome o k)
  then_outcome-map x (done a f) k h = h a x f
  then_outcome-map x (failed e f) k h = refl
  then_outcome-map x panicked k h = refl
  then_outcome-map x stuck k h = refl

  pub bind-IsBlind :
      (m : Action A) (k : A → Action B) → IsBlind m → ((a : A) → IsBlind (k a)) → IsBlind (m >>= k)
  bind-IsBlind m k h next x f = ap (λ o. then_outcome o k) (h x f) ∙ then_outcome-map x (m f) k next

pub if-IsBlind :
    {A : Type 0} (b : Bool) (m k : Action A) → IsBlind m → IsBlind k → IsBlind (if b then m else k)
if-IsBlind true m k h h' = h
if-IsBlind false m k h h' = h'

more_bits_from-IsBlind : (bytes : List ℕ) → IsBlind (more_bits_from bytes)
unfolding more_bits_from
more_bits_from-IsBlind [] x f = refl
more_bits_from-IsBlind (c ∷ rest) x f = refl

more_bits-IsBlind : IsBlind more_bits
unfolding more_bits
more_bits-IsBlind x f = more_bits_from-IsBlind f.r.rest x f

pub need_bits-IsBlind : (rounds n : ℕ) → IsBlind (need_bits rounds n)
unfolding need_bits
need_bits-IsBlind zero n x f = elim (Bool-cases (ltb f.nb n)) [
  | inl p ↦ rw p refl
  | inr p ↦ rw p refl
]
need_bits-IsBlind (suc rounds) n x f = elim (Bool-cases (ltb f.nb n)) [
  | inl p ↦
      rw (need_bits, p)
        (bind-IsBlind more_bits (λ _. need_bits rounds n) more_bits-IsBlind
          (λ _. need_bits-IsBlind rounds n) x f)
  | inr p ↦ rw (need_bits, p) refl
]

pub read_bits-IsBlind : (n : ℕ) → IsBlind (read_bits n)
unfolding read_bits take_bits
read_bits-IsBlind n = bind-IsBlind (need_bits n n) _ (need_bits-IsBlind n n) (λ _ x f. refl)

-- The bits of a symbol, and the symbol.
pub use_entry-IsBlind :
    (chunk nb : ℕ) (retry : Action ℕ) → IsBlind retry → IsBlind (use_entry chunk nb retry)
unfolding use_entry take_bits
use_entry-IsBlind chunk nb retry h x f = elim (Bool-cases (leb (chunk % 16) nb)) [
  | inl p ↦ elim (Bool-cases (chunk % 16 == 0)) [
    | inl q ↦ rw (use_entry, p, q) refl
    | inr q ↦ rw (use_entry, p, q) refl
  ]
  | inr p ↦ rw (use_entry, p) (h x f)
]

sym_loop-IsBlind : (rounds : ℕ) (h : HuffmanDecoder) (n : ℕ) → IsBlind (sym_loop rounds h n)
unfolding sym_loop
sym_loop-IsBlind zero h n x f = refl
sym_loop-IsBlind (suc rounds) h n x f =
    bind-IsBlind (need_bits n n) _ (need_bits-IsBlind n n)
      (λ _ x f.
        use_entry-IsBlind (lookup h f.b) f.nb (sym_loop rounds h (lookup h f.b % 16))
          (sym_loop-IsBlind rounds h (lookup h f.b % 16)) x f)
      x f

pub huff_sym-IsBlind : (h : HuffmanDecoder) → IsBlind (huff_sym h)
unfolding huff_sym
huff_sym-IsBlind h = sym_loop-IsBlind 17 h h.min

pub length_of-IsBlind : (v : ℕ) → IsBlind (length_of v)
unfolding length_of
length_of-IsBlind v =
    bind-IsBlind (if ltb 0 (length_base v).1 then read_bits (length_base v).1 else pure 0) _
      (if-IsBlind (ltb 0 (length_base v).1) (read_bits (length_base v).1) (pure 0)
        (read_bits-IsBlind (length_base v).1) (λ x f. refl))
      (λ _ x f. refl)
