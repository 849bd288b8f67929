-- ===== src/Gzip/RoundTrip.antt =====
-- gsip/internal/gzip/gunzip.go, `readHeader` against the header of RFC 1952, section 2.3, written
-- out by itself: the fields that are there, in their order, and the checksum over them.
use mathlib.Core.List.{append-nil, append_assoc}
use targz.Prelude.{
  ℕ, ◌+◌, ◌/◌, ◌%◌, ◌^◌, ◌<◌, ◌≡◌, ◌∙◌, refl, sym, ap, ap₂, List, [], ◌∷◌, ◌++◌, Bool, true, false,
  Option, none, some, length, length-append, arith,
}
use targz.Flate.Source.{Error}
use targz.Gzip.Crc.{update, checksum_ieee}
use targz.Gzip.Sums.{checksum_ieee-append}
use targz.Gzip.State.{Header, CountReader, Reader, fill}
use targz.Gzip.Header.{
  flag_extra, flag_name, flag_comment, buf_len, uint16, text, has_flag, Parsed, parsed, read_string,
  unless_failed, read_data, read_extra, read_name, read_comment,
}
use targz.Gzip.Encoded.{behind, IsText, read_string_reads, fill_reads}

abbrev pub le16 : ℕ → List ℕ
le16 n = n % 2 ^ 8 ∷ n / 2 ^ 8 ∷ []

pub uint16-le16 : (n : ℕ) → n < 2 ^ 16 → uint16 (le16 n) ≡ n
unfolding uint16
uint16-le16 n h = omega arith

-- The fields that follow the ten bytes at the start.
abbrev pub extra_field : Option (List ℕ) → List ℕ
extra_field none = []
extra_field (some x) = le16 (length x) ++ x

abbrev pub text_field : Option (List ℕ) → List ℕ
text_field none = []
text_field (some s) = s ++ (0 ∷ [])

-- What `Header` has of them.
abbrev pub bytes_of : Option (List ℕ) → List ℕ
bytes_of none = []
bytes_of (some x) = x

abbrev pub text_of : Option (List ℕ) → List ℕ
text_of none = []
text_of (some s) = text s

abbrev pub is_there : Option (List ℕ) → Bool
is_there none = false
is_there (some x) = true

abbrev pub IsShort : Option (List ℕ) → Type 0
IsShort none = Unit
IsShort (some x) = length x < 2 ^ 16

abbrev pub IsName : Option (List ℕ) → Type 0
IsName none = Unit
IsName (some s) = IsText s × (length s < buf_len)

module _ (z₀ : Reader) where
  -- `z₀` when `done` has been read of a header, and `more` is to come.
  abbrev pub part : List ℕ → List ℕ → Reader
  part done more =
      let r : CountReader = record {
        source = record z₀.r.source { rest = more };
        n = z₀.r.n + length done;
      } in
      record z₀ { r = r; digest = checksum_ieee done }

  part-behind :
      (done bytes more : List ℕ)
      → behind bytes more (part done (bytes ++ more)) ≡ part (done ++ bytes) more
  part-behind done bytes more =
      ap₂ state (omega (arith, length-append done bytes))
        (checksum_ieee-append (checksum_ieee done) done bytes refl)
    where
      state : ℕ → ℕ → Reader
      state n digest =
          let r : CountReader = record { source = record z₀.r.source { rest = more }; n = n } in
          record z₀ { r = r; digest = digest }

  text_reads :
      (s done more : List ℕ)
      → IsText s
      → length s < buf_len
      → read_string (part done ((s ++ (0 ∷ [])) ++ more))
        ≡ ((text s, none), part (done ++ (s ++ (0 ∷ []))) more)
  text_reads s done more t lt =
      read_string_reads s more (part done ((s ++ (0 ∷ [])) ++ more)) (append_assoc s (0 ∷ []) more)
        t lt
      ∙ ap (λ z. ((text s, none), z)) (part-behind done (s ++ (0 ∷ [])) more)

  pub read_name_reads :
      (flg : ℕ) (hdr : Header) (s : Option (List ℕ)) (done more : List ℕ)
      → has_flag flg flag_name ≡ is_there s
      → IsName s
      → hdr.name ≡ []
      → read_name flg hdr (part done (text_field s ++ more))
        ≡ parsed (record hdr { name = text_of s }) (part (done ++ text_field s) more)
  unfolding read_name
  read_name_reads flg hdr none done more e t empty =
      rw e
        (ap₂ (λ n d. parsed (record hdr { name = n }) (part d more)) empty (sym (append-nil done)))
  read_name_reads flg hdr (some s) done more e (t, lt) empty = rw e (
      ap (λ p. unless_failed p.0.1 hdr p.1 (parsed (record hdr { name = p.0.0 }) p.1))
        (text_reads s done more t lt))

  pub read_comment_reads :
      (flg : ℕ) (hdr : Header) (s : Option (List ℕ)) (done more : List ℕ)
      → has_flag flg flag_comment ≡ is_there s
      → IsName s
      → hdr.comment ≡ []
      → read_comment flg hdr (part done (text_field s ++ more))
        ≡ parsed (record hdr { comment = text_of s }) (part (done ++ text_field s) more)
  unfolding read_comment
  read_comment_reads flg hdr none done more e t empty =
      rw e (
        ap₂ (λ n d. parsed (record hdr { comment = n }) (part d more)) empty
          (sym (append-nil done)))
  read_comment_reads flg hdr (some s) done more e (t, lt) empty = rw e (
      ap (λ p. unless_failed p.0.1 hdr p.1 (parsed (record hdr { comment = p.0.0 }) p.1))
        (text_reads s done more t lt))

  -- The extra data behind its length.
  read_data_reads :
      (x done more : List ℕ) (hdr : Header)
      → length x < 2 ^ 16
      → read_data
          (le16 (length x))
          hdr
          (record (part (done ++ le16 (length x)) (x ++ more)) { digest = checksum_ieee done })
        ≡ parsed (record hdr { extra = x }) (part ((done ++ le16 (length x)) ++ x) more)
  unfolding read_data
  read_data_reads x done more hdr short =
      ap (λ z. stage (fill (uint16 (le16 (length x))) z))
        (ap (λ d. record (part (done ++ le16 (length x)) (x ++ more)) { digest = d })
          (checksum_ieee-append (checksum_ieee done) done (le16 (length x)) refl))
      ∙ ap (λ k. stage (fill k (part (done ++ le16 (length x)) (x ++ more))))
          (uint16-le16 (length x) short)
      ∙ ap stage (fill_reads x more (part (done ++ le16 (length x)) (x ++ more)) refl)
      ∙ ap (λ z. parsed (record hdr { extra = x }) z) (part-behind (done ++ le16 (length x)) x more)
    where
      stage : (List ℕ × Option Error) × Reader → Parsed
      stage p =
          unless_failed p.0.1 hdr p.1 (
            parsed (record hdr { extra = p.0.0 }) (record p.1 { digest = update p.1.digest p.0.0 }))

  pub read_extra_reads :
      (flg : ℕ) (hdr : Header) (x : Option (List ℕ)) (done more : List ℕ)
      → has_flag flg flag_extra ≡ is_there x
      → IsShort x
      → hdr.extra ≡ []
      → read_extra flg hdr (part done (extra_field x ++ more))
        ≡ parsed (record hdr { extra = bytes_of x }) (part (done ++ extra_field x) more)
  unfolding read_extra
  read_extra_reads flg hdr none done more e short empty =
      rw e
        (ap₂ (λ n d. parsed (record hdr { extra = n }) (part d more)) empty (sym (append-nil done)))
  read_extra_reads flg hdr (some x) done more e short empty = rw e (
      ap stage
        (fill_reads (le16 (length x)) (x ++ more) (part done ((le16 (length x) ++ x) ++ more)) refl)
      ∙ ap (λ z. read_data (le16 (length x)) hdr (record z { digest = checksum_ieee done }))
          (part-behind done (le16 (length x)) (x ++ more))
      ∙ read_data_reads x done more hdr short
      ∙ ap (λ d. parsed (record hdr { extra = x }) (part d more))
          (append_assoc done (le16 (length x)) x))
    where
      stage : (List ℕ × Option Error) × Reader → Parsed
      stage p = unless_failed p.0.1 hdr p.1 (read_data p.0.0 hdr p.1)
