-- ===== src/Flate/Source.antt =====
-- The reader below the decoder (io.Reader with ReadByte, io.ReadFull), and the errors.
-- A source is the bytes that it still gives and the error that it then reports, again and again.
use targz.Prelude.{ℕ, List, Option, none, some, length, take, drop, ltb, if◌then◌else◌, ◌==◌}

-- `corrupt` is CorruptInputError with its offset, `internal` InternalError, `checksum` and `header`
-- gzip.ErrChecksum and gzip.ErrHeader; `other` is any error of the reader below.
pub data Error : Type 0 where
  eof unexpected_eof internal checksum header not_exist : Error
  corrupt other : ℕ → Error

pub record Source : Type 0 where
  pub rest : List ℕ
  pub fail : Error

-- `noEOF`, in package flate and in package gzip.
unfoldable pub no_eof : Error → Error
no_eof eof = unexpected_eof
no_eof e = e

-- What a read returns: the bytes that it got, an error or none, and the source afterwards.
pub record Got : Type 0 where
  pub bytes : List ℕ
  pub err : Option Error
  pub source : Source

-- `io.ReadFull(r, buf)` for a buffer of `n` bytes: an error if fewer come, `ErrUnexpectedEOF` in
-- place of `EOF` if at least one came.
unfoldable pub read_full : ℕ → Source → Got
unfolding no_eof
read_full n s =
    let got = take n s.rest in
    let after : Source = record s { rest = drop n s.rest } in
    if ltb (length s.rest) n
    then (if length got == 0
        then record { bytes = got; err = some s.fail; source = after }
        else record { bytes = got; err = some (no_eof s.fail); source = after })
    else record { bytes = got; err = none; source = after }
