-- ===== src/Tarfs/Section.antt =====
-- tarfs/tarfs.go: what `File` and `New` use of `io.SectionReader` and `io.ReaderAt`. The archive's
-- `ReadAt` is a parameter with a state of its own: `ra n off st` reads into `n` bytes at `off`.
-- Offsets are `int64`: a sum beyond 2^63 - 1 wraps to a negative one, which `Seek` refuses.
use targz.Prelude.{
  ℕ, zero, suc, ◌+◌, ◌-◌, min, List, [], Option, none, some, ltb, leb, if◌then◌else◌, length,
}

pub data ℤ : Type 0 where
  pos negsuc : ℕ → ℤ

pub data ReadErr : Type 0 where
  no_error eof failed : ReadErr

-- What a call returns, and the state behind it.
abbrev pub ReaderAt : Type 0 → Type 0
ReaderAt S = ℕ → ℕ → S → (List ℕ × ReadErr) × S

pub record Section : Type 0 where
  pub base : ℕ
  pub off : ℕ
  pub limit : ℕ
  pub size : ℕ

-- 2^63 - 1
abbrev pub max_int64 : ℕ
max_int64 = 9223372036854775807

-- `io.NewSectionReader`
unfoldable pub new_section : ℕ → ℕ → Section
new_section off n = record {
  base = off;
  off = off;
  limit = if leb (off + n) max_int64 then off + n else max_int64;
  size = n;
}

-- The size of `New`'s section: a negative size means that the caller does not know.
unfoldable pub section_size : ℤ → ℕ
section_size (pos n) = n
section_size (negsuc n) = max_int64

-- Where `Seek` counts from: `io.SeekStart`, `io.SeekCurrent` and `io.SeekEnd`.
unfoldable pub seek_from : ℕ → Section → Option ℕ
seek_from zero s = some s.base
seek_from (suc zero) s = some s.off
seek_from (suc (suc zero)) s = some s.limit
seek_from (suc (suc (suc k))) s = none

-- `from + offset`, or none for a negative number.
unfoldable pub shift : ℕ → ℤ → Option ℕ
shift from (pos k) = if leb (from + k) max_int64 then some (from + k) else none
shift from (negsuc k) = if ltb k from then some (from - suc k) else none

unfoldable pub seek_to : Option ℕ → Section → Option ℕ × Section
seek_to none s = (none, s)
seek_to (some t) s = if ltb t s.base then (none, s) else (some (t - s.base), record s { off = t })

-- `Seek`: the position from the section's start, or none for an error.
unfoldable pub seek : ℤ → ℕ → Section → Option ℕ × Section
unfolding seek_from shift seek_to
seek offset whence s = elim (seek_from whence s) [
  | none ↦ (none, s)
  | some from ↦ seek_to (shift from offset) s
]

-- A read that has been cut at the section's end has `io.EOF` for no error.
unfoldable pub cut_off : ReadErr → ReadErr
cut_off no_error = eof
cut_off eof = eof
cut_off failed = failed

module _ {S : Type 0} (ra : ReaderAt S) where
  -- `Read`, which moves the section on.
  unfoldable pub read : ℕ → Section → S → (List ℕ × ReadErr) × (Section × S)
  read n s st =
      if ltb s.off s.limit
      then (let (answer, st') = ra (min n (s.limit - s.off)) s.off st in
          (answer, (record s { off = s.off + length answer.0 }, st')))
      else (([], eof), (s, st))

  -- `ReadAt` at an offset in the archive that lies in the section.
  unfoldable pub read_within : ℕ → ℕ → Section → S → (List ℕ × ReadErr) × S
  unfolding cut_off
  read_within n off s st =
      if ltb (s.limit - off) n
      then (let ((got, err), st') = ra (s.limit - off) off st in ((got, cut_off err), st'))
      else ra n off st

  -- `ReadAt`, which does not move it. The section's size is `limit - base` there.
  unfoldable pub read_at : ℕ → ℤ → Section → S → (List ℕ × ReadErr) × S
  unfolding read_within
  read_at n (negsuc k) s st = (([], eof), st)
  read_at n (pos k) s st =
      if ltb k (s.limit - s.base) then read_within n (s.base + k) s st else (([], eof), st)
