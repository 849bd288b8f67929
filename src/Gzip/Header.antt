-- ===== src/Gzip/Header.antt =====
-- gsip/internal/gzip/gunzip.go: `readString`, `readHeader` and `toFlateHeader`.
use targz.Prelude.{
  ℕ, zero, suc, ◌+◌, ◌*◌, ◌/◌, ◌%◌, ◌^◌, List, [], ◌∷◌, ◌++◌, Bool, false, not, ◌||◌, Option, none,
  some, ltb, ◌==◌, if◌then◌else◌, bit_and, get_or,
}
use targz.Flate.Source.{Error, header, no_eof}
use targz.Gzip.Crc.{update}
use targz.Gzip.State.{Header, CountReader, Reader, fill}

abbrev pub gzip_id1 : ℕ
gzip_id1 = 31

abbrev pub gzip_id2 : ℕ
gzip_id2 = 139

abbrev pub gzip_deflate : ℕ
gzip_deflate = 8

abbrev pub flag_hdr_crc : ℕ
flag_hdr_crc = 2

abbrev pub flag_extra : ℕ
flag_extra = 4

abbrev pub flag_name : ℕ
flag_name = 8

abbrev pub flag_comment : ℕ
flag_comment = 16

-- `len(z.buf)`
abbrev pub buf_len : ℕ
buf_len = 512

-- `le.Uint16` and `le.Uint32`
unfoldable pub uint16 : List ℕ → ℕ
uint16 b = get_or b 0 0 + 2 ^ 8 * get_or b 1 0

unfoldable pub uint32 : List ℕ → ℕ
uint32 b = get_or b 0 0 + 2 ^ 8 * get_or b 1 0 + 2 ^ 16 * get_or b 2 0 + 2 ^ 24 * get_or b 3 0

-- `needConv`: a byte is above 0x7f.
unfoldable pub need_conv : List ℕ → Bool
need_conv [] = false
need_conv (c ∷ cs) = ltb 127 c || need_conv cs

-- `string(s)` for runes of one byte: UTF-8.
unfoldable pub utf8 : List ℕ → List ℕ
utf8 [] = []
utf8 (c ∷ cs) = if ltb c 128 then c ∷ utf8 cs else (192 + c / 64) ∷ (128 + c % 64) ∷ utf8 cs

unfoldable pub text : List ℕ → List ℕ
unfolding need_conv utf8
text bytes = if need_conv bytes then utf8 bytes else bytes

-- `z.r.ReadByte()`, the bytes that are left being `rest`
abbrev pub advance : List ℕ → Reader → Reader
advance rest z =
    let r : CountReader = record { source = record z.r.source { rest = rest }; n = z.r.n + 1 } in
    record z { r = r }

-- The loop of `readString`, with room for `left` bytes behind those that have been read; `rest` are
-- the bytes that `z.r` still gives.
unfoldable pub string_loop : ℕ → List ℕ → List ℕ → Reader → (List ℕ × Option Error) × Reader
unfolding update text
string_loop zero seen rest z = (([], some header), z)
string_loop (suc left) seen [] z = (([], some z.r.source.fail), advance [] z)
string_loop (suc left) seen (c ∷ rest) z =
    let more = string_loop left (seen ++ (c ∷ [])) rest (advance rest z) in
    if c == 0
    then (
      (text seen, none),
      record (advance rest z) { digest = update z.digest (seen ++ (0 ∷ [])) },
    )
    else more

unfoldable pub read_string : Reader → (List ℕ × Option Error) × Reader
unfolding string_loop
read_string z = string_loop buf_len [] z.r.source.rest z

-- What `readHeader` returns, and the reader behind it.
pub record Parsed : Type 0 where
  pub hdr : Header
  pub err : Option Error
  pub z : Reader

abbrev pub parsed : Header → Reader → Parsed
parsed hdr z = record { hdr = hdr; err = none; z = z }

abbrev pub refused : Header → Error → Reader → Parsed
refused hdr e z = record { hdr = hdr; err = some e; z = z }

abbrev pub has_flag : ℕ → ℕ → Bool
has_flag flg flag = not (bit_and flg flag == 0)

-- `if err != nil { return hdr, err }`, and on.
abbrev pub go_on : Option Error → Parsed → (Header → Reader → Parsed) → Parsed
go_on none p k = k p.hdr p.z
go_on (some e) p k = p

abbrev pub and_then : Parsed → (Header → Reader → Parsed) → Parsed
and_then p k = go_on p.err p k

-- `if err != nil { return hdr, noEOF(err) }`, and on.
unfoldable pub unless_failed : Option Error → Header → Reader → Parsed → Parsed
unfolding no_eof
unless_failed none hdr z p = p
unless_failed (some e) hdr z p = refused hdr (no_eof e) z

-- The extra data behind its length, with the digest over both.
unfoldable pub read_data : List ℕ → Header → Reader → Parsed
unfolding fill uint16 unless_failed update
read_data len hdr z =
    let digest = update z.digest len in
    let ((bytes, err), z') = fill (uint16 len) (record z { digest = digest }) in
    unless_failed err hdr z'
      (parsed (record hdr { extra = bytes }) (record z' { digest = update digest bytes }))

unfoldable pub read_extra : ℕ → Header → Reader → Parsed
unfolding fill read_data unless_failed
read_extra flg hdr z =
    let ((len, err), z') = fill 2 z in
    if has_flag flg flag_extra
    then unless_failed err hdr z' (read_data len hdr z')
    else parsed hdr z

unfoldable pub read_name : ℕ → Header → Reader → Parsed
unfolding read_string unless_failed
read_name flg hdr z =
    let ((s, err), z') = read_string z in
    if has_flag flg flag_name
    then unless_failed err hdr z' (parsed (record hdr { name = s }) z')
    else parsed hdr z

unfoldable pub read_comment : ℕ → Header → Reader → Parsed
unfolding read_string unless_failed
read_comment flg hdr z =
    let ((s, err), z') = read_string z in
    if has_flag flg flag_comment
    then unless_failed err hdr z' (parsed (record hdr { comment = s }) z')
    else parsed hdr z

unfoldable pub read_hdr_crc : ℕ → Header → Reader → Parsed
unfolding fill uint16 unless_failed
read_hdr_crc flg hdr z =
    let ((b, err), z') = fill 2 z in
    if has_flag flg flag_hdr_crc
    then unless_failed err hdr z'
        (if uint16 b == z'.digest % 2 ^ 16 then parsed hdr z' else refused hdr header z')
    else parsed hdr z
