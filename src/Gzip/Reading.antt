-- ===== src/Gzip/Reading.antt =====
-- gsip/internal/gzip/gunzip.go: the constructors, `Reset`, `Read` and what else callers use.
use targz.Prelude.{
  ℕ, zero, suc, ◌+◌, ◌-◌, ◌*◌, ◌%◌, ◌^◌, List, [], ◌∷◌, Bool, true, false, ◌||◌, not, Option, none,
  some, ◌==◌, if◌then◌else◌, take, drop, length,
}
use targz.Flate.Source.{Source, Error, eof, checksum, no_eof}
use targz.Flate.Checkpoint.{Checkpoint}
use targz.Flate.State.{Decompressor, Outcome, done, failed, panicked, stuck}
use targz.Flate.Reading
use targz.Gzip.Crc.{update}
use targz.Gzip.State.{no_header, Trailer, CountReader, Reader, fill, attach}
use targz.Gzip.Header.{uint32}
use targz.Gzip.Members.{read_header}

-- `Reset`: the error, and the reader.
unfoldable pub reset : Source → Reader → Option Error × Reader
unfolding read_header
reset r z =
    let fresh : Reader = record {
      header = no_header;
      trailer = none;
      r = record { source = r; n = 0 };
      decompressor = z.decompressor;
      digest = 0;
      size = 0;
      err = none;
      multistream = true;
      out = z.out;
      span = z.span;
      from = z.from;
      updates = z.updates;
      last = none;
    } in
    let p = read_header fresh in (p.err, record p.z { header = p.hdr; err = p.err })

-- `new(Reader)`, with the fields that the constructors set; `r` is set by `Reset`.
unfoldable pub blank : Source → ℕ → Option Checkpoint → Option (List Checkpoint) → Reader
blank r span from updates = record {
  header = no_header;
  trailer = none;
  r = record { source = r; n = 0 };
  decompressor = none;
  digest = 0;
  size = 0;
  err = none;
  multistream = false;
  out = 0;
  span = span;
  from = from;
  updates = updates;
  last = none;
}

-- A reader, or the error of `Reset`.
pub data Opened : Type 0 where
  opened : Reader → Opened
  not_opened : Error → Opened

abbrev pub open_result : Option Error × Reader → Opened
open_result (none, z) = opened z
open_result (some e, z) = not_opened e

-- `NewReaderWithSpans`
unfoldable pub new_reader_with_spans : Source → ℕ → Option (List Checkpoint) → Opened
unfolding reset blank
new_reader_with_spans r span updates = open_result (reset r (blank r span none updates))

-- `NewReader`
unfoldable pub new_reader : Source → Option (List Checkpoint) → Opened
unfolding new_reader_with_spans
new_reader r updates = new_reader_with_spans r (2 ^ 22) updates

-- `Continue`
unfoldable pub continue_at : Source → ℕ → Checkpoint → Option (List Checkpoint) → Opened
unfolding reset blank
continue_at r span from updates = open_result (reset r (blank r span (some from) updates))

-- `Multistream`
unfoldable pub set_multistream : Bool → Reader → Reader
set_multistream ok z = record z { multistream = ok }

-- How a call of `Read` ends: with bytes and an error or nil, with a panic of the decompressor, or,
-- which `Gzip.Ends` rules out inside a member, for want of fuel.
pub data Ended : Type 0 where
  returned : List ℕ → Option Error → Reader → Ended
  crashed : Ended
  out_of_fuel : Ended

-- What `z` takes over from the decompressor, which has read what is missing from the input, and the
-- sums over the bytes that it has returned.
unfoldable pub take_over : List ℕ → Option Error → Decompressor → Reader → Reader
unfolding update
take_over bytes err f z =
    let r : CountReader = record {
      source = f.r;
      n = (z.r.n + length z.r.source.rest) - length f.r.rest;
    } in
    record z {
      r = r;
      decompressor = some f;
      digest = update z.digest bytes;
      size = (z.size + length bytes) % 2 ^ 32;
      err = err;
      out = z.out + length bytes;
      updates = f.updates;
    }

abbrev pub read_end : Reader → Outcome (List ℕ × Option Error) → Ended
read_end z (done (bytes, err) f) = returned bytes err (take_over bytes err f z)
read_end z (failed e f) = out_of_fuel
read_end z panicked = crashed
read_end z stuck = out_of_fuel

-- Rounds enough for the decompressor: two for each bit that is left, and three.
unfoldable pub rounds_for : Decompressor → ℕ
rounds_for f = 2 * (8 * length f.r.rest + f.nb) + 3

unfoldable pub body_with : ℕ → Reader → Option Decompressor → Ended
unfolding attach Reading.read take_over rounds_for
body_with n z none = crashed
body_with n z (some f) = read_end z (Reading.read (rounds_for (attach z f)) n (attach z f))

-- `n, z.err = z.decompressor.Read(p)` into `n` bytes, and the sums
unfoldable pub read_body : ℕ → Reader → Ended
unfolding body_with
read_body n z = body_with n z z.decompressor

-- The comparison of the trailer, which is left out in a reader that has been resumed.
unfoldable pub compare_trailer : Option Checkpoint → Trailer → Reader → Option Error × Reader
compare_trailer from t z =
    let wrong : Bool = not (t.digest == z.digest) || not (t.size == z.size) in
    let passed : Reader = record z { digest = 0; size = 0; trailer = some t } in
    elim from [
      | none ↦ if wrong then (some checksum, record z { err = some checksum }) else (none, passed)
      | some c ↦ (none, passed)
    ]

unfoldable pub trailer_of : List ℕ → Trailer
unfolding uint32
trailer_of b = record { digest = uint32 (take 4 b); size = uint32 (drop 4 b) }

unfoldable pub trailer_read : Option Error → List ℕ → Reader → Option Error × Reader
unfolding no_eof compare_trailer trailer_of
trailer_read none b z = compare_trailer z.from (trailer_of b) z
trailer_read (some e) b z = (some (no_eof e), record z { err = some (no_eof e) })

-- The checksum and the size behind a member. The error that `Read` then returns, if any.
unfoldable pub check_trailer : Reader → Option Error × Reader
unfolding fill trailer_read
check_trailer z = let ((b, err), z') = fill 8 z in trailer_read err b z'

-- The next member, if there is one: the error that `Read` then returns, if any.
unfoldable pub next_member : Reader → Option Error × Reader
unfolding read_header
next_member z =
    let p = read_header (record z { err = none }) in
    if z.multistream then (p.err, record p.z { err = p.err }) else (some eof, z)

unfoldable pub after_trailer : Option Error × Reader → Option Error × Reader
unfolding next_member
after_trailer (none, z) = next_member z
after_trailer (some e, z) = (some e, z)

-- What stands in the loop of `Read` behind the end of a member.
unfoldable pub end_member : Reader → Option Error × Reader
unfolding check_trailer after_trailer
end_member z = after_trailer (check_trailer z)

abbrev pub is_eof : Option Error → Bool
is_eof none = false
is_eof (some e) = elim e [ eof ↦ true | _ ↦ false ]

-- How the loop goes on behind a member: it returns an error, or bytes, or has another turn.
unfoldable pub after_member : List ℕ → Option Error × Reader → (Reader → Ended) → Ended
after_member bytes (some e, z) again = returned bytes (some e) z
after_member (c ∷ cs) (none, z) again = returned (c ∷ cs) none z
after_member [] (none, z) again = again z

-- A turn of the loop, behind the call of the decompressor.
unfoldable pub after_body : Ended → (Reader → Ended) → Ended
unfolding end_member after_member
after_body crashed again = crashed
after_body out_of_fuel again = out_of_fuel
after_body (returned bytes err z) again =
    if is_eof err then after_member bytes (end_member z) again else returned bytes err z

-- The loop of `Read`, with fuel for so many members.
unfoldable pub read_members : ℕ → ℕ → Reader → Ended
unfolding read_body after_body
read_members zero n z = out_of_fuel
read_members (suc members) n z = after_body (read_body n z) (read_members members n)

-- Fuel enough for the members that follow, each of which takes some bits.
unfoldable pub members_with : Reader → Option Decompressor → ℕ
unfolding rounds_for attach
members_with z none = 1
members_with z (some f) = rounds_for (attach z f)

unfoldable pub read_with : Option Error → ℕ → Reader → Ended
unfolding read_members members_with
read_with none n z = read_members (members_with z z.decompressor) n z
read_with (some e) n z = returned [] (some e) z

-- `Read` into `n` bytes
unfoldable pub read : ℕ → Reader → Ended
unfolding read_with
read n z = read_with z.err n z

-- `Close`, or none for a panic.
unfoldable pub close : Reader → Option (Option Error)
unfolding Reading.close
close z = elim z.decompressor [ none ↦ none | some f ↦ some (Reading.close f) ]

-- `Offset`, or none for a panic.
unfoldable pub offset : Reader → Option ℕ
unfolding Reading.woffset Reading.to_read
offset z = elim z.decompressor [
  | none ↦ none
  | some f ↦ some (Reading.woffset f - Reading.to_read f)
]
