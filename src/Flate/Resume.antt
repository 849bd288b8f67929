-- ===== src/Flate/Resume.antt =====
-- gsip/internal/flate/inflate.go: two decoders that agree but for what a checkpoint leaves out. Of a
-- decoder those fields are apart here that reading bits does not touch: the tables and the lengths
-- they are made of, where a copy goes on, and the channel.
pub mod Blind
pub mod Lengths
pub mod Tables
pub mod Codes
pub mod Sizes
pub mod Blocks
pub mod Copying
pub mod Loop
pub mod Stored
pub mod Steps
pub mod Reads
pub mod Resumed
mod Tests
use targz.Prelude.{ℕ, List, Option, ◌≡◌, refl, ◌∙◌, ap, sym}
use mathlib.Core.Path.{subst}
use targz.Flate.Source.{Error}
use targz.Flate.Checkpoint.{Checkpoint}
use targz.Flate.Huffman.{HuffmanDecoder}
use targz.Flate.State.{
  Decompressor, StepState, TableName, Action, Outcome, done, failed, panicked, stuck, ◌>>=◌,
  then_outcome,
}

pub record Extras : Type 0 where
  pub h1 : HuffmanDecoder
  pub h2 : HuffmanDecoder
  pub bits : List ℕ
  pub codebits : List ℕ
  pub step_state : StepState
  pub hl : Option TableName
  pub hd : Option TableName
  pub copy_len : ℕ
  pub copy_dist : ℕ
  pub span : ℕ
  pub last : ℕ
  pub updates : Option (List Checkpoint)

abbrev pub extras : Decompressor → Extras
extras f = record {
  h1 = f.h1;
  h2 = f.h2;
  bits = f.bits;
  codebits = f.codebits;
  step_state = f.step_state;
  hl = f.hl;
  hd = f.hd;
  copy_len = f.copy_len;
  copy_dist = f.copy_dist;
  span = f.span;
  last = f.last;
  updates = f.updates;
}

abbrev pub with_extras : Extras → Decompressor → Decompressor
with_extras x f = record f {
  h1 = x.h1;
  h2 = x.h2;
  bits = x.bits;
  codebits = x.codebits;
  step_state = x.step_state;
  hl = x.hl;
  hd = x.hd;
  copy_len = x.copy_len;
  copy_dist = x.copy_dist;
  span = x.span;
  last = x.last;
  updates = x.updates;
}

abbrev pub map_outcome : {A : Type 0} → (Decompressor → Decompressor) → Outcome A → Outcome A
map_outcome φ (done a f) = done a (φ f)
map_outcome φ (failed e f) = failed e (φ f)
map_outcome φ panicked = panicked
map_outcome φ stuck = stuck

-- An action that neither looks at those fields nor changes them.
abbrev pub IsBlind : {A : Type 0} → Action A → Type 0
IsBlind m =
    (x : Extras) (f : Decompressor) → m (with_extras x f) ≡ map_outcome (with_extras x) (m f)

-- Two outcomes of the same kind, with the same value or error and states that are related.
pub data Both {A : Type 0} (P : A → Decompressor → Decompressor → Type 0)
    (E : Decompressor → Decompressor → Type 0) : Outcome A → Outcome A → Type 0 where
  both_done : {a : A} {f g : Decompressor} → P a f g → Both P E (done a f) (done a g)
  both_failed : {e : Error} {f g : Decompressor} → E f g → Both P E (failed e f) (failed e g)
  both_panicked : Both P E panicked panicked
  both_stuck : Both P E stuck stuck

-- All other fields are the same.
abbrev pub SameCore : Decompressor → Decompressor → Type 0
SameCore f g = g ≡ with_extras (extras g) f

pub change :
    (φ : Decompressor → Decompressor) (f g : Decompressor)
    → SameCore f g
    → φ g ≡ φ (with_extras (extras g) f)
change φ f g e = ap φ e

abbrev pub Like : (Extras → Extras → Type 0) → Decompressor → Decompressor → Type 0
Like Q f g = SameCore f g × Q (extras f) (extras g)

module _ {A B : Type 0} (P : A → Decompressor → Decompressor → Type 0)
    (P' : B → Decompressor → Decompressor → Type 0) (E : Decompressor → Decompressor → Type 0) where
  then_outcome-Both :
      {o o' : Outcome A} (k k' : A → Action B)
      → Both P E o o'
      → ((a : A) (f g : Decompressor) → P a f g → Both P' E (k a f) (k' a g))
      → Both P' E (then_outcome o k) (then_outcome o' k')
  then_outcome-Both k k' (both_done {a = a} {f = f} {g = g} h) next = next a f g h
  then_outcome-Both k k' (both_failed h) next = both_failed h
  then_outcome-Both k k' both_panicked next = both_panicked
  then_outcome-Both k k' both_stuck next = both_stuck

  pub bind-Both :
      (m m' : Action A) (k k' : A → Action B) (f g : Decompressor)
      → Both P E (m f) (m' g)
      → ((a : A) (f' g' : Decompressor) → P a f' g' → Both P' E (k a f') (k' a g'))
      → Both P' E ((m >>= k) f) ((m' >>= k') g)
  bind-Both m m' k k' f g h next = then_outcome-Both k k' h next

pub SameCore-trans : (f g h : Decompressor) → SameCore f g → SameCore g h → SameCore f h
SameCore-trans f g h e e' = e' ∙ change (with_extras (extras h)) f g e

pub SameCore-sym : (f g : Decompressor) → SameCore f g → SameCore g f
SameCore-sym f g e = sym (change (with_extras (extras f)) f g e)

-- What holds of all states with the same other fields holds of one that is alike.
pub like_any :
    (Q : Extras → Extras → Type 0) (T : Decompressor → Type 0) (f g : Decompressor)
    → Like Q f g
    → ((y : Extras) → Q (extras f) y → T (with_extras y f))
    → T g
like_any Q T f g (e, q) h = subst T (sym e) (h (extras g) q)

-- A blind action takes states that are alike to such states.
module _ {A : Type 0} (Q : Extras → Extras → Type 0) (m : Action A) (blind : IsBlind m) where
  extras_of : Extras → Outcome A → Extras
  extras_of x (done a f) = extras f
  extras_of x (failed e f) = x
  extras_of x panicked = x
  extras_of x stuck = x

  kept :
      (x : Extras) (o : Outcome A) (y : Extras)
      → o ≡ map_outcome (with_extras x) o
      → Q x y
      → Both (λ _. Like Q) SameCore o (map_outcome (with_extras y) o)
  unfolding extras_of
  kept x (done a f) y e q = both_done (refl, subst (λ z. Q z y) (sym (ap (extras_of x) e)) q)
  kept x (failed e' f) y e q = both_failed refl
  kept x panicked y e q = both_panicked
  kept x stuck y e q = both_stuck

  pub blind-Both : (f g : Decompressor) → Like Q f g → Both (λ _. Like Q) SameCore (m f) (m g)
  blind-Both f g (e, q) =
      subst (λ o. Both (λ _. Like Q) SameCore (m f) o) (sym (ap m e ∙ blind (extras g) f))
        (kept (extras f) (m f) (extras g) (blind (extras f) f) q)
