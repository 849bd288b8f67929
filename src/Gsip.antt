-- ===== src/Gsip.antt =====
-- gsip/gsip.go: `acquireReader` and `ReadAt`. A gzip reader is known by what `StreamReader` has of it:
-- its `Offset`, reading from it, and `gzip.Continue` over the section that starts at a checkpoint.
-- Of the map `readers` the model keeps those that are free, in the order in which the iteration
-- meets them; one in use is not looked at until it is put back. Calls do not overlap.
pub mod Choice
pub mod Store
pub mod Tests
use targz.Prelude.{
  ℕ, ◌+◌, ◌-◌, List, [], ◌∷◌, Bool, true, false, Option, none, some, ltb, leb, ◌==◌, if◌then◌else◌,
  length,
}
use targz.Flate.Checkpoint.{Checkpoint}

-- How `io.ReadFull` ends: with a nil error, with `io.EOF` or `io.ErrUnexpectedEOF`, or with another.
pub data ReadEnd : Type 0 where
  complete ended broken : ReadEnd

pub record StreamReader (R : Type 0) : Type 0 where
  pub offset : R → ℕ
  -- `io.ReadFull` into that many bytes
  pub read_full : ℕ → R → (List ℕ × ReadEnd) × R
  -- `gzip.Continue`, which parses no header at a checkpoint and returns no error
  pub resume : Checkpoint → R

pub record Reader (R : Type 0) : Type 0 where
  pub checkpoints : List Checkpoint
  pub idle : List R

-- The last of the checkpoints in front of the first that lies behind `off`.
unfoldable pub highest_after : Option Checkpoint → ℕ → List Checkpoint → Option Checkpoint
highest_after best off [] = best
highest_after best off (c ∷ cs) =
    let later = highest_after (some c) off cs in if ltb off c.out_pos then best else later

unfoldable pub highest : ℕ → List Checkpoint → Option Checkpoint
unfolding highest_after
highest off cs = highest_after none off cs

-- The first free reader that passes a test, and the others.
unfoldable pub take_first : {R : Type 0} → (R → Bool) → List R → Option (R × List R)
take_first test [] = none
take_first test (r ∷ rs) =
    let later = take_first test rs in
    if test r
    then some (r, rs)
    else elim later [ none ↦ none | some found ↦ some (found.0, r ∷ found.1) ]

-- A reader that is in use from here on, or none for an error, and the state behind the call.
abbrev pub Acquired : Type 0 → Type 0
Acquired R = Option R × Reader R

module _ {R : Type 0} (ops : StreamReader R) where
  -- `io.CopyN(io.Discard, zr, n)`
  unfoldable pub discard : ℕ → R → Option R
  discard n r =
      let ((bytes, end), r') = ops.read_full n r in if length bytes == n then some r' else none

  -- A checkpoint has been found.
  unfoldable pub acquire_at : Checkpoint → ℕ → Reader R → Acquired R
  unfolding discard
  acquire_at c off st = (discard (off - c.out_pos) (ops.resume c), st)

  -- No checkpoint has been found: any free reader that has not gone too far.
  unfoldable pub acquire_any : ℕ → Reader R → Acquired R
  unfolding discard take_first
  acquire_any off st = elim (take_first (λ r. leb (ops.offset r) off) st.idle) [
    | none ↦ (none, st)
    | some (r, rest) ↦ (discard (off - ops.offset r) r, record st { idle = rest })
  ]

  unfoldable pub acquire_reader : ℕ → Reader R → Acquired R
  unfolding take_first highest acquire_at acquire_any
  acquire_reader off st = elim (take_first (λ r. ops.offset r == off) st.idle) [
    | some (r, rest) ↦ (some r, record st { idle = rest })
    | none ↦ elim (highest off st.checkpoints) [
      | none ↦ acquire_any off st
      | some c ↦ acquire_at c off st
    ]
  ]

  -- Behind `acquireReader`: reading, and putting the reader back.
  unfoldable pub read_from : ℕ → Acquired R → Option (List ℕ × ReadEnd) × Reader R
  read_from n (none, st) = (none, st)
  read_from n (some r, st) =
      let (got, r') = ops.read_full n r in (some got, record st { idle = r' ∷ st.idle })

  -- `ReadAt` into `n` bytes: what is read and how it ends (`ended` is `io.EOF`), or none if no
  -- reader could be had.
  unfoldable pub read_at : ℕ → ℕ → Reader R → Option (List ℕ × ReadEnd) × Reader R
  unfolding acquire_reader read_from
  read_at n off st = read_from n (acquire_reader off st)
