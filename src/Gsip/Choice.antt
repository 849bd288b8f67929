-- ===== src/Gsip/Choice.antt =====
-- gsip/gsip.go: which gzip reader `acquireReader` has for an offset, and how far it is moved on.
use mathlib.Core.List.{Mem}
use targz.Prelude.{
  ℕ, ◌-◌, ◌≤◌, ◌<◌, List, [], ◌∷◌, ◌++◌, ◌≡◌, ◌≢◌, Bool, true, false, Option, none, some, leb, ◌==◌,
  length, All,
}
use targz.Flate.Checkpoint.{Checkpoint}
use targz.Gsip.{ReadEnd, StreamReader, Reader}

-- Checkpoints in the order of their offsets, as the decoder sends them.
abbrev pub IsAscending : List Checkpoint → Type 0
IsAscending [] = Unit
IsAscending (c ∷ cs) = All (λ k. c.out_pos ≤ k.out_pos) cs × IsAscending cs

-- The checkpoint with the greatest offset that is not behind `off`.
pub record IsHighest (off : ℕ) (cs : List Checkpoint) (c : Checkpoint) : Type 0 where
  pub listed : Mem c cs
  pub before : c.out_pos ≤ off
  pub greatest : All (λ k. k.out_pos ≤ off → k.out_pos ≤ c.out_pos) cs

-- `r` is the first of `rs` that passes the test, and `rest` are the others.
pub record IsFirst {R : Type 0} (test : R → Bool) (rs : List R) (r : R) (rest : List R)
    : Type 0 where
  pub front : List R
  pub back : List R
  pub there : rs ≡ front ++ (r ∷ back)
  pub others : rest ≡ front ++ back
  pub passes : test r ≡ true
  pub fail : All (λ x. test x ≡ false) front

-- None of the readers passes the test, or there is a first.
abbrev Taken : {R : Type 0} → (R → Bool) → List R → Option (R × List R) → Type 0
Taken test rs none = All (λ x. test x ≡ false) rs
Taken test rs (some (r, rest)) = IsFirst test rs r rest

-- What the search for a checkpoint finds in checkpoints in order.
abbrev Searched : ℕ → List Checkpoint → Option Checkpoint → Type 0
Searched off cs none = All (λ k. off < k.out_pos) cs
Searched off cs (some c) = IsHighest off cs c

module _ {R : Type 0} (ops : StreamReader R) where
  -- `k` bytes are read and thrown away; a reader that has fewer is given up.
  pub data Skips (k : ℕ) (r : R) : Option R → Type 0 where
    moved : length (ops.read_full k r).0.0 ≡ k → Skips k r (some (ops.read_full k r).1)
    too_short : length (ops.read_full k r).0.0 ≢ k → Skips k r none

  -- How a reader is had for an offset, and which free readers that leaves: one that stands there;
  -- one resumed at the last checkpoint that is not behind the offset; where there is no such
  -- checkpoint, one that stands in front of the offset; or none.
  pub data Chosen (off : ℕ) (st : Reader R) : Option R → List R → Type 0 where
    standing :
        {r : R} {rest : List R}
        → IsFirst (λ x. ops.offset x == off) st.idle r rest
        → Chosen off st (some r) rest
    resumed :
        {c : Checkpoint} {o : Option R}
        → All (λ x. (ops.offset x == off) ≡ false) st.idle
        → IsHighest off st.checkpoints c
        → Skips (off - c.out_pos) (ops.resume c) o
        → Chosen off st o st.idle
    passing :
        {r : R} {rest : List R} {o : Option R}
        → All (λ x. (ops.offset x == off) ≡ false) st.idle
        → All (λ k. off < k.out_pos) st.checkpoints
        → IsFirst (λ x. leb (ops.offset x) off) st.idle r rest
        → Skips (off - ops.offset r) r o
        → Chosen off st o rest
    nobody :
        All (λ k. off < k.out_pos) st.checkpoints
        → All (λ x. leb (ops.offset x) off ≡ false) st.idle
        → Chosen off st none st.idle

  -- What is returned, and the reader behind the call, with whom it is for that.
  abbrev pub Reads :
      ℕ → Reader R → Option R → List R → Option (List ℕ × ReadEnd) × Reader R → Type 0
  Reads n st none idle answer = answer ≡ (none, record st { idle = idle })
  Reads n st (some r) idle answer =
      answer ≡ (some (ops.read_full n r).0, record st { idle = (ops.read_full n r).1 ∷ idle })

  -- What is acquired, the checkpoints kept.
  abbrev Acquires : ℕ → Reader R → Option R × Reader R → Type 0
  Acquires off st (o, st') = Chosen off st o st'.idle × (st' ≡ record st { idle = st'.idle })
