-- ===== src/Gzip/State.antt =====
-- gsip/internal/gzip/gunzip.go, the state of `Reader`, and reading bytes through `countReader`.
-- The reader `z.r` and the channel `updates` are shared with the decompressor: they are kept in
-- `Reader`, and the decompressor has them while it is called (`attach`). `buf` is written before it
-- is read wherever it is used, and is local here. A `bufio.Reader` in front of `r` reads ahead of
-- what is asked for, which nothing here shows. `time.Time` is the seconds of MTIME, or `none` for
-- its zero value. After a failed call of the decompressor `n` is one less than countReader's
-- where the call asked for a byte that was not there, as ReadByte counts it all the same.
use targz.Prelude.{ℕ, ◌+◌, List, [], Bool, Option, none, length}
use targz.Flate.Source.{Source, Error, read_full}
use targz.Flate.Checkpoint.{Checkpoint}
use targz.Flate.State.{Decompressor}

-- `comment` and `name` are the bytes of their strings.
pub record Header : Type 0 where
  pub comment : List ℕ
  pub extra : List ℕ
  pub mod_time : Option ℕ
  pub name : List ℕ
  pub os : ℕ

abbrev pub no_header : Header
no_header = record { comment = []; extra = []; mod_time = none; name = []; os = 0 }

pub record Trailer : Type 0 where
  pub digest : ℕ
  pub size : ℕ

pub record CountReader : Type 0 where
  pub source : Source
  pub n : ℕ

pub record Reader : Type 0 where
  pub header : Header
  pub trailer : Option Trailer
  pub r : CountReader
  pub decompressor : Option Decompressor
  pub digest : ℕ
  pub size : ℕ
  pub err : Option Error
  pub multistream : Bool
  pub out : ℕ
  pub span : ℕ
  pub from : Option Checkpoint
  pub updates : Option (List Checkpoint)
  pub last : Option Checkpoint

-- `CompressedCount` and `UncompressedCount`
unfoldable pub compressed_count : Reader → ℕ
compressed_count z = z.r.n

unfoldable pub uncompressed_count : Reader → ℕ
uncompressed_count z = z.out

-- `io.ReadFull(z.r, buf)` for a buffer of `n` bytes
unfoldable pub fill : ℕ → Reader → (List ℕ × Option Error) × Reader
unfolding read_full
fill n z =
    let got = read_full n z.r.source in
    let r : CountReader = record { source = got.source; n = z.r.n + length got.bytes } in
    ((got.bytes, got.err), record z { r = r })

-- The decompressor with what it shares with `z`.
unfoldable pub attach : Reader → Decompressor → Decompressor
attach z f = record f { r = z.r.source; updates = z.updates }
