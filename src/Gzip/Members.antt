-- ===== src/Gzip/Members.antt =====
-- gsip/internal/gzip/gunzip.go: `toFlateHeader`, and `readHeader` as a whole.
use targz.Prelude.{
  ℕ, List, [], ◌∷◌, ◌++◌, Bool, true, false, ◌&&◌, Option, none, some, ltb, ◌==◌, if◌then◌else◌,
  get_or, drop, length,
}
use targz.Flate.Source.{header}
use targz.Flate.Checkpoint
use targz.Flate.Checkpoint.{Checkpoint}
use targz.Flate.State.{Decompressor}
use targz.Flate.Reading.{new_reader_with_spans, continue_from, reset}
use targz.Gzip.Crc.{checksum_ieee}
use targz.Gzip.State.{Header, no_header, Reader, compressed_count, fill, attach}
use targz.Gzip.Header.{
  gzip_id1, gzip_id2, gzip_deflate, uint32, Parsed, and_then, parsed, refused, read_extra,
  read_name, read_comment, read_hdr_crc,
}

-- `toFlateHeader`
unfoldable pub to_flate_header : Header → Option Checkpoint.Header
to_flate_header hdr =
    let no_time : Bool = elim hdr.mod_time [ none ↦ true | some t ↦ false ] in
    if length hdr.extra == 0
      && length hdr.comment == 0
      && no_time
      && length hdr.name == 0
      && hdr.os == 255
    then none
    else some (record {
      comment = hdr.comment;
      extra = hdr.extra;
      mod_time = hdr.mod_time;
      name = hdr.name;
      os = if hdr.os == 255 then none else some hdr.os;
    })

-- `z.last = &flate.Checkpoint{...}; z.updates <- z.last`, where there is a channel
unfoldable pub announce : Header → ℕ → Reader → Reader
unfolding to_flate_header compressed_count
announce hdr out_pos z =
    let c : Checkpoint = record {
      in_pos = compressed_count z;
      out_pos = out_pos;
      b = 0;
      nb = 0;
      hist = [];
      wr_pos = 0;
      rd_pos = 0;
      full = false;
      empty = true;
      gzip_header = to_flate_header hdr;
    } in
    record z {
      last = elim z.updates [ none ↦ z.last | some sent ↦ some c ];
      updates = elim z.updates [ none ↦ none | some sent ↦ some (sent ++ (c ∷ [])) ];
    }

-- `z.decompressor = flate.Continue(z.r, z.from, z.span, z.updates)`
unfoldable pub resume : Checkpoint → Reader → Reader
unfolding continue_from
resume c z = record z { decompressor = some (continue_from z.r.source c z.span z.updates) }

-- The end of `readHeader`: the decompressor starts behind the header.
unfoldable pub start_with : Option Decompressor → Option Checkpoint → Header → Reader → Reader
unfolding announce resume attach new_reader_with_spans reset compressed_count
start_with none (some c) hdr z = resume c z
start_with none none hdr z =
    let z' = announce hdr 0 z in
    record z' {
      decompressor =
          some (new_reader_with_spans z'.r.source z'.span (compressed_count z') z'.updates);
    }
start_with (some f) from hdr z =
    let z' = announce hdr f.woffset z in
    record z' { decompressor = some (reset z'.r.source [] (compressed_count z') (attach z' f)) }

unfoldable pub start_member : Header → Reader → Reader
unfolding start_with
start_member hdr z = start_with z.decompressor z.from hdr (record z { digest = 0 })

-- What the ten bytes at the start say.
unfoldable pub read_fixed : List ℕ → Header
unfolding uint32
read_fixed b =
    let t = uint32 (drop 4 b) in
    record {
      comment = [];
      extra = [];
      mod_time = if ltb 0 t then some t else none;
      name = [];
      os = get_or b 9 0;
    }

unfoldable pub is_gzip : List ℕ → Bool
is_gzip b = get_or b 0 0 == gzip_id1 && get_or b 1 0 == gzip_id2 && get_or b 2 0 == gzip_deflate

-- `readHeader` behind the ten bytes at the start
unfoldable pub read_fields : List ℕ → Reader → Parsed
unfolding read_extra read_name read_comment read_hdr_crc start_member read_fixed checksum_ieee
read_fields b z =
    let flg = get_or b 3 0 in
    and_then (read_extra flg (read_fixed b) (record z { digest = checksum_ieee b })) (λ hdr z₁.
      and_then (read_name flg hdr z₁) (λ hdr z₂. and_then (read_comment flg hdr z₂) (λ hdr z₃.
        and_then (read_hdr_crc flg hdr z₃) (λ hdr z₄. parsed hdr (start_member hdr z₄)))))

-- The test of the ten bytes, and what follows them.
unfoldable pub after_fixed : List ℕ → Header → Reader → Parsed
unfolding is_gzip read_fields
after_fixed b hdr z = if is_gzip b then read_fields b z else refused hdr header z

unfoldable pub read_member : Reader → Parsed
unfolding fill after_fixed
read_member z =
    let ((b, err), z') = fill 10 z in
    and_then (record { hdr = no_header; err = err; z = z' }) (after_fixed b)

unfoldable pub header_with : Option Decompressor → Option Checkpoint → Reader → Parsed
unfolding read_member resume
header_with none (some c) z = parsed no_header (resume c (record z { digest = 0 }))
header_with none none z = read_member z
header_with (some f) from z = read_member z

unfoldable pub read_header : Reader → Parsed
unfolding header_with
read_header z = header_with z.decompressor z.from z
