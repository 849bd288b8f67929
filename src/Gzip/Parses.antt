-- ===== src/Gzip/Parses.antt =====
-- gsip/internal/gzip/gunzip.go, `readHeader`: it reads back any header of RFC 1952, section 2.3.
use mathlib.Core.List.{append-nil}
use targz.Prelude.{
  ℕ, ◌+◌, ◌*◌, ◌/◌, ◌%◌, ◌^◌, ◌<◌, ◌≡◌, ◌∙◌, refl, sym, ap, List, [], ◌++◌, Bool, true, false,
  Option, none, some, ◌==◌, ltb, length, length-append, arith, if◌then◌else◌,
}
use targz.Flate.Source.{Error}
use targz.Gzip.Crc.{checksum_ieee}
use targz.Gzip.State.{Header, CountReader, Reader, no_header}
use targz.Gzip.Header.{
  flag_hdr_crc, flag_extra, flag_name, flag_comment, uint16, uint32, has_flag, Parsed, parsed,
  refused, and_then, unless_failed, read_extra, read_name, read_comment, read_hdr_crc,
}
use targz.Gzip.Members.{start_member, read_fixed, is_gzip, read_fields, after_fixed, read_member}
use targz.Gzip.Encoded.{fill_reads}
use targz.Gzip.RoundTrip.{
  le16, uint16-le16, extra_field, text_field, bytes_of, text_of, is_there, part, read_extra_reads,
  read_name_reads, read_comment_reads,
}
use targz.Gzip.Fields.{
  Fields, IsEncodable, flags, flags_found, fixed_part, crc_field, checked_part, header_bytes,
  decoded, nested,
}

module _ (z₀ : Reader) where
  -- `z₀` behind `bytes`.
  abbrev pub passed : List ℕ → List ℕ → Reader
  passed bytes more =
      let r : CountReader = record {
        source = record z₀.r.source { rest = more };
        n = z₀.r.n + length bytes;
      } in
      record z₀ { r = r }

  read_hdr_crc_reads :
      (flg : ℕ) (hdr : Header) (b : Bool) (done more : List ℕ)
      → has_flag flg flag_hdr_crc ≡ b
      → read_hdr_crc flg hdr (part z₀ done (crc_field b done ++ more))
        ≡ parsed hdr
            (record (passed (done ++ crc_field b done) more) { digest = checksum_ieee done })
  unfolding read_hdr_crc
  read_hdr_crc_reads flg hdr false done more e = rw e (
      ap (λ d. parsed hdr (record (passed d more) { digest = checksum_ieee done }))
        (sym (append-nil done)))
  read_hdr_crc_reads flg hdr true done more e = rw e (
      ap stage (fill_reads crc more (part z₀ done (crc ++ more)) refl)
      ∙ ap
          (λ b.
            if b
            then parsed hdr (after (z₀.r.n + length done + 2))
            else refused hdr Error.header (after (z₀.r.n + length done + 2)))
          (agree (checksum_ieee done % 2 ^ 16) (omega arith))
      ∙ ap (λ n. parsed hdr (after n)) (omega (arith, length-append done crc)))
    where
      crc : List ℕ
      crc = le16 (checksum_ieee done % 2 ^ 16)

      after : ℕ → Reader
      after n =
          let r : CountReader = record { source = record z₀.r.source { rest = more }; n = n } in
          record z₀ { r = r; digest = checksum_ieee done }

      agree : (c : ℕ) → c < 2 ^ 16 → (uint16 (le16 c) == c) ≡ true
      agree c h = ground (arith, uint16-le16 c h)

      stage : (List ℕ × Option Error) × Reader → Parsed
      stage p = unless_failed p.0.1 hdr p.1 (
          if uint16 p.0.0 == p.1.digest % 2 ^ 16
          then parsed hdr p.1
          else refused hdr Error.header p.1)

  module _ (x : Fields) (ok : IsEncodable x) (more : List ℕ) where
    -- The header so far, stage by stage.
    abbrev h₀ : Header
    h₀ = record (decoded x) { extra = []; name = []; comment = [] }

    mtime_read :
        (t : ℕ)
        → t < 2 ^ 32
        → t % 2 ^ 8
            + 2 ^ 8 * (t / 2 ^ 8 % 2 ^ 8)
            + 2 ^ 16 * (t / 2 ^ 16 % 2 ^ 8)
            + 2 ^ 24 * (t / 2 ^ 24)
          ≡ t
    mtime_read t h = omega arith

    read_fixed_reads : read_fixed (fixed_part x) ≡ h₀
    unfolding read_fixed uint32
    read_fixed_reads =
        ap (λ t. record h₀ { mod_time = if ltb 0 t then some t else none })
          (mtime_read x.mtime ok.mtime_fits)

    -- What is left behind the comment, the name, the extra data and the ten bytes.
    abbrev r₃ : List ℕ
    r₃ = crc_field x.hdr_crc (checked_part x) ++ more

    abbrev r₂ : List ℕ
    r₂ = text_field x.comment ++ r₃

    abbrev r₁ : List ℕ
    r₁ = text_field x.name ++ r₂

    abbrev r₀ : List ℕ
    r₀ = extra_field x.extra ++ r₁

    read_fields_reads :
        (d : ℕ)
        → read_fields (fixed_part x) (record (passed (fixed_part x) r₀) { digest = d })
          ≡ parsed (decoded x) (start_member (decoded x) (passed (header_bytes x) more))
    unfolding read_fields start_member
    read_fields_reads d =
        ap (λ h. and_then (read_extra (flags x) h (part z₀ (fixed_part x) r₀)) k₁) read_fixed_reads
        ∙ ap (λ p. and_then p k₁)
            (read_extra_reads z₀ (flags x) h₀ x.extra (fixed_part x) r₁ found.1 ok.extra_fits refl)
        ∙ ap (λ p. and_then p k₂)
            (read_name_reads z₀ (flags x) h₁ x.name d₁ r₂ found.2 ok.name_fits refl)
        ∙ ap (λ p. and_then p k₃)
            (read_comment_reads z₀ (flags x) h₂ x.comment d₂ r₃ found.3 ok.comment_fits refl)
        ∙ ap (λ p. and_then p k₄)
            (read_hdr_crc_reads (flags x) (decoded x) x.hdr_crc (checked_part x) more found.0)
      where
        found :
            (has_flag (flags x) flag_hdr_crc ≡ x.hdr_crc)
            × (has_flag (flags x) flag_extra ≡ is_there x.extra)
            × (has_flag (flags x) flag_name ≡ is_there x.name)
            × (has_flag (flags x) flag_comment ≡ is_there x.comment)
        found = flags_found x.hdr_crc (is_there x.extra) (is_there x.name) (is_there x.comment)

        d₁ : List ℕ
        d₁ = fixed_part x ++ extra_field x.extra

        d₂ : List ℕ
        d₂ = d₁ ++ text_field x.name

        h₁ : Header
        h₁ = record h₀ { extra = bytes_of x.extra }

        h₂ : Header
        h₂ = record h₁ { name = text_of x.name }

        k₄ : Header → Reader → Parsed
        k₄ hdr z = parsed hdr (start_member hdr z)

        k₃ : Header → Reader → Parsed
        k₃ hdr z = and_then (read_hdr_crc (flags x) hdr z) k₄

        k₂ : Header → Reader → Parsed
        k₂ hdr z = and_then (read_comment (flags x) hdr z) k₃

        k₁ : Header → Reader → Parsed
        k₁ hdr z = and_then (read_name (flags x) hdr z) k₂

  -- `readHeader` in front of a header of RFC 1952, with any of the optional fields (extra data
  -- shorter than 2^16 bytes, a name and a comment without NUL and shorter than 512 bytes, a
  -- checksum of the header), returns with no error what was written, the strings in UTF-8, and
  -- starts the decompressor just behind it.
  pub read_member-header_bytes :
      (x : Fields) (more : List ℕ)
      → IsEncodable x
      → z₀.r.source.rest ≡ header_bytes x ++ more
      → read_member z₀
        ≡ parsed (decoded x) (start_member (decoded x) (passed (header_bytes x) more))
  unfolding read_member after_fixed is_gzip
  read_member-header_bytes x more ok e =
      ap stage (
        fill_reads (fixed_part x) (r₀ x ok more) z₀ (
          e
          ∙ nested (fixed_part x) (extra_field x.extra) (text_field x.name) (text_field x.comment)
              (crc_field x.hdr_crc (checked_part x)) more))
      ∙ read_fields_reads x ok more z₀.digest
    where
      stage : (List ℕ × Option Error) × Reader → Parsed
      stage p = and_then (record { hdr = no_header; err = p.0.1; z = p.1 }) (after_fixed p.0.0)
