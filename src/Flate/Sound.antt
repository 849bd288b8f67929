-- ===== src/Flate/Sound.antt =====
-- What every step of the decoder keeps, and the rules by which that is proved of an action.
pub mod Bits
pub mod Symbols
pub mod Copies
pub mod Histories
pub mod Steps
pub mod Loop
pub mod Stored
pub mod Whole
pub mod Offsets
pub mod Reads
pub mod Starts
mod Tests
use targz.Prelude.{
  refl, ◌*◌, ℕ, ◌+◌, ◌≤◌, ◌<◌, ◌≡◌, ◌∙◌, sym, length, some, Bool, true, false, if◌then◌else◌,
}
use targz.Flate.Source.{Error}
use targz.Flate.Dict.{DictDecoder, hist_size, avail_write}
use targz.Flate.Dict.Valid.{IsValid}
use targz.Flate.State.{
  Decompressor, StepState, state_init, state_dict, Action, Outcome, done, failed, panicked, stuck,
  ◌>>=◌, catch, then_outcome, catch_outcome,
}

-- The window is valid, has the size `cap` and room for a byte; `wo` bytes have been flushed; what
-- has been read and what is still to come are `total` bytes; no more than `budget` bits are left to
-- read; a copy that waits to go on has a
-- distance that the history covers.
pub record GoodAt (cap wo total budget : ℕ) (dict : DictDecoder) (woffset position bits : ℕ)
    (state : StepState) (dist : ℕ) : Type 0 where
  pub valid : IsValid dict
  pub size : length dict.hist ≡ cap
  pub room : 0 < avail_write dict
  pub flushed : woffset ≡ wo
  pub consumed : position ≡ total
  pub bounded : bits ≤ budget
  pub waiting : state ≡ state_dict → (0 < dist) × (dist ≤ hist_size dict)

-- The bits that have not been used.
abbrev pub bits_left : Decompressor → ℕ
bits_left f = 8 * length f.r.rest + f.nb

abbrev pub IsGood : ℕ → ℕ → ℕ → ℕ → Decompressor → Type 0
IsGood cap wo total budget f =
    GoodAt cap wo total budget f.dict f.woffset (f.roffset + length f.r.rest) (bits_left f)
      f.step_state f.copy_dist

-- Good, with room for `n` bytes: what reading bits and symbols keeps, since it leaves the window.
abbrev pub IsQuiet : ℕ → ℕ → ℕ → ℕ → ℕ → Decompressor → Type 0
IsQuiet cap wo total budget n f = IsGood cap wo total budget f × (avail_write f.dict ≡ n)

module _ {cap wo total : ℕ} {dict : DictDecoder} {woffset p q b c : ℕ} {state : StepState}
    {dist : ℕ} where
  pub GoodAt-position :
      {budget budget' : ℕ}
      → p ≡ q
      → c ≤ budget'
      → GoodAt cap wo total budget dict woffset p b state dist
      → GoodAt cap wo total budget' dict woffset q c state dist
  GoodAt-position e le g = record {
    valid = g.valid;
    size = g.size;
    room = g.room;
    flushed = g.flushed;
    consumed = sym e ∙ g.consumed;
    bounded = le;
    waiting = g.waiting;
  }

module _ {cap wo total budget : ℕ} where
  -- Fewer bits may be left than that.
  pub slack :
      (budget' : ℕ) (f : Decompressor)
      → bits_left f ≤ budget'
      → IsGood cap wo total budget f
      → IsGood cap wo total budget' f
  slack budget' f le g = GoodAt-position refl le g

-- The call ends, not for want of fuel: its value and state satisfy `Q`, or it fails in a state
-- that satisfies `E`, or it panics.
abbrev pub Ends :
    {A : Type 0} → (A → Decompressor → Type 0) → (Decompressor → Type 0) → Outcome A → Type 0
Ends Q E (done a f) = Q a f
Ends Q E (failed e f) = E f
Ends Q E panicked = Unit
Ends Q E stuck = ⊥

module _ {A B : Type 0} (Q : A → Decompressor → Type 0) (R : B → Decompressor → Type 0)
    (E : Decompressor → Type 0) where
  then_outcome-Ends :
      (o : Outcome A) (k : A → Action B)
      → Ends Q E o
      → ((a : A) (f : Decompressor) → Q a f → Ends R E (k a f))
      → Ends R E (then_outcome o k)
  then_outcome-Ends (done a f) k h next = next a f h
  then_outcome-Ends (failed e f) k h next = h
  then_outcome-Ends panicked k h next = tt
  then_outcome-Ends stuck k h next = h

  pub bind-Ends :
      (m : Action A) (k : A → Action B) (f : Decompressor)
      → Ends Q E (m f)
      → ((a : A) (f' : Decompressor) → Q a f' → Ends R E (k a f'))
      → Ends R E ((m >>= k) f)
  bind-Ends m k f h next = then_outcome-Ends (m f) k h next

-- What is known of an outcome may be weakened.
module _ {A : Type 0} (Q R : A → Decompressor → Type 0) (E F : Decompressor → Type 0)
    (right : (a : A) (f : Decompressor) → Q a f → R a f)
    (wrong : (f : Decompressor) → E f → F f) where
  pub weaken-Ends : (o : Outcome A) → Ends Q E o → Ends R F o
  weaken-Ends (done a f) h = right a f h
  weaken-Ends (failed e f) h = wrong f h
  weaken-Ends panicked h = tt
  weaken-Ends stuck h = h

-- Both branches of a test.
module _ {A : Type 0} (R : A → Decompressor → Type 0) (E : Decompressor → Type 0) where
  pub if-Ends :
      (b : Bool) (x y : Action A) (f : Decompressor)
      → Ends R E (x f)
      → Ends R E (y f)
      → Ends R E ((if b then x else y) f)
  if-Ends true x y f hx hy = hx
  if-Ends false x y f hx hy = hy

-- What is known twice of an outcome.
pub both-Ends :
    {A : Type 0} (Q R : A → Decompressor → Type 0) (E F : Decompressor → Type 0) (o : Outcome A)
    → Ends Q E o
    → Ends R F o
    → Ends (λ a f. Q a f × R a f) (λ f. E f × F f) o
both-Ends Q R E F (done a f) h k = (h, k)
both-Ends Q R E F (failed e f) h k = (h, k)
both-Ends Q R E F panicked h k = tt
both-Ends Q R E F stuck h k = h

-- What fails in no state at all.
abbrev pub Never : Decompressor → Type 0
Never f = ⊥

-- A caught failure is a return.
module _ (Q R E : Decompressor → Type 0) where
  pub catch_outcome-Ends :
      (o : Outcome Unit)
      → ((f : Decompressor) → Q f → R f)
      → ((f : Decompressor) (e : Error) → E f → R (record f { err = some e }))
      → Ends (λ _. Q) E o
      → Ends (λ _. R) Never (catch_outcome o)
  catch_outcome-Ends (done a f) right wrong h = right f h
  catch_outcome-Ends (failed e f) right wrong h = wrong f e h
  catch_outcome-Ends panicked right wrong h = tt
  catch_outcome-Ends stuck right wrong h = h
