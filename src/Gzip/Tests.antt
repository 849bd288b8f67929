-- ===== src/Gzip/Tests.antt =====
-- The theorems on gzip's reader at concrete files.
use targz.Prelude.{ℕ, ◌++◌, true, some, ◌≡◌, ◌↔◌, refl, List, [], ◌∷◌, none, drop, arith}
use targz.Flate.Source.{Source, eof}
use targz.Flate.State.{Decompressor}
use targz.Flate.Blocks.{checkpoint_of}
use targz.Flate.Reading
use targz.Flate.Sound.Starts.{new_reader_with_spans-IsSane}
use targz.Gzip.Crc.{checksum_ieee}
use targz.Gzip.State.{Reader}
use targz.Gzip.Header.{parsed, uint32, utf8, text, read_string}
use targz.Gzip.Members.{start_member, read_member}
use targz.Gzip.Fields.{Fields, IsEncodable, header_bytes, decoded}
use targz.Gzip.Parses.{passed, read_member-header_bytes}
use targz.Gzip.Strings.{IsBounded, text-utf8, read_string-IsBounded}
use targz.Gzip.Errors.{read_member-eof}
use targz.Gzip.Reading.{reset, blank, new_reader_with_spans, continue_at, check_trailer}
use targz.Gzip.Opens.{Opens, new_reader_with_spans-Opens, continue_at-Opens}
use targz.Gzip.Trailer.{check_trailer-accepts}

-- The text "abc": a header, a block with the fixed codes, the checksum and the size.
abbrev trailer : List ℕ
trailer = 194 ∷ 65 ∷ 36 ∷ 53 ∷ 3 ∷ 0 ∷ 0 ∷ 0 ∷ []

abbrev deflated : List ℕ
deflated = 75 ∷ 76 ∷ 74 ∷ 6 ∷ 0 ∷ trailer

abbrev file : Source
file = record { rest = 31 ∷ 139 ∷ 8 ∷ 0 ∷ 0 ∷ 0 ∷ 0 ∷ 0 ∷ 0 ∷ 255 ∷ deflated; fail = eof }

abbrev start : Reader
start = (reset file (blank file 100 none none)).1

new_reader_with_spans-Opens_example : Opens 0 23 (new_reader_with_spans file 100 none)
new_reader_with_spans-Opens_example = new_reader_with_spans-Opens file 100 none

-- A decoder whose checkpoint is taken behind the header.
abbrev begun : Decompressor
begun = Reading.new_reader_with_spans (record { rest = deflated; fail = eof }) 100 10 none

continue_at-Opens_example : Opens 7 13 (continue_at begun.r 100 (checkpoint_of begun 7) none)
unfolding Reading.new_reader_with_spans
continue_at-Opens_example =
    continue_at-Opens begun 0 23 7 100 none
      (new_reader_with_spans-IsSane (record { rest = deflated; fail = eof }) 100 10 none)
      (omega arith)

-- A reader in front of the trailer, which has handed out "abc".
abbrev ended : Reader
ended = record (blank (record { rest = trailer; fail = eof }) 100 none none) {
  digest = checksum_ieee (97 ∷ 98 ∷ 99 ∷ []);
  size = 3;
}

check_trailer-accepts_example :
    ((check_trailer ended).0 ≡ none)
    ↔ ((uint32 trailer ≡ checksum_ieee (97 ∷ 98 ∷ 99 ∷ [])) × (uint32 (drop 4 trailer) ≡ 3))
unfolding blank
check_trailer-accepts_example =
    check_trailer-accepts ended (97 ∷ 98 ∷ 99 ∷ []) refl refl refl (omega arith)

uint32_run : uint32 trailer ≡ checksum_ieee (97 ∷ 98 ∷ 99 ∷ [])
unfolding uint32 checksum_ieee
uint32_run = refl

-- A header with every field, in front of two bytes. The name is "é" in Latin-1.
abbrev fields : Fields
fields = record {
  hdr_crc = true;
  mtime = 1000000;
  xfl = 0;
  os = 3;
  extra = some (7 ∷ 8 ∷ 9 ∷ []);
  name = some (233 ∷ []);
  comment = some (97 ∷ 98 ∷ []);
}

abbrev fields_file : Reader
fields_file =
    blank (record { rest = header_bytes fields ++ (3 ∷ 0 ∷ []); fail = eof }) 100 none none

fields-IsEncodable : IsEncodable fields
fields-IsEncodable = record {
  mtime_fits = omega arith;
  extra_fits = omega arith;
  name_fits = (((λ h. omega arith), tt), omega arith);
  comment_fits = (((λ h. omega arith), ((λ h. omega arith), tt)), omega arith);
}

read_member-header_bytes_example :
    read_member fields_file
    ≡ parsed
        (decoded fields)
        (start_member (decoded fields) (passed fields_file (header_bytes fields) (3 ∷ 0 ∷ [])))
unfolding blank
read_member-header_bytes_example =
    read_member-header_bytes fields_file fields (3 ∷ 0 ∷ []) fields-IsEncodable refl

text-utf8_example : text (97 ∷ 233 ∷ []) ≡ utf8 (97 ∷ 233 ∷ [])
text-utf8_example = text-utf8 (97 ∷ 233 ∷ [])

utf8_run : utf8 (97 ∷ 233 ∷ []) ≡ 97 ∷ 195 ∷ 169 ∷ []
unfolding utf8
utf8_run = refl

read_string-IsBounded_example : IsBounded fields_file 512 511 (read_string fields_file)
read_string-IsBounded_example = read_string-IsBounded fields_file

-- Nothing is left to read.
abbrev at_end : Reader
at_end = blank (record { rest = []; fail = eof }) 100 none none

read_member-eof_example : at_end.r.source.rest ≡ []
unfolding blank read_member
read_member-eof_example = read_member-eof at_end refl
