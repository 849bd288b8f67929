-- ===== src/Gzip/Fields.antt =====
-- The header of RFC 1952, section 2.3: its fields, and their bytes. It is independent of gunzip.go but
-- for `Header`, which says what a reader is to make of it.
use mathlib.Core.List.{append_assoc}
use targz.Prelude.{
  ℕ, ◌+◌, ◌/◌, ◌%◌, ◌^◌, ◌<◌, ◌≡◌, ◌∙◌, refl, List, [], ◌∷◌, ◌++◌, Bool, true, false, Option, none,
  some, ltb, if◌then◌else◌,
}
use targz.Gzip.Crc.{checksum_ieee}
use targz.Gzip.State.{Header}
use targz.Gzip.Header.{flag_hdr_crc, flag_extra, flag_name, flag_comment, has_flag}
use targz.Gzip.RoundTrip.{
  le16, extra_field, text_field, bytes_of, text_of, is_there, IsShort, IsName,
}

-- What the format can say. The strings are in Latin-1.
pub record Fields : Type 0 where
  pub hdr_crc : Bool
  pub mtime : ℕ
  pub xfl : ℕ
  pub os : ℕ
  pub extra : Option (List ℕ)
  pub name : Option (List ℕ)
  pub comment : Option (List ℕ)

pub record IsEncodable (x : Fields) : Type 0 where
  pub mtime_fits : x.mtime < 2 ^ 32
  pub extra_fits : IsShort x.extra
  pub name_fits : IsName x.name
  pub comment_fits : IsName x.comment

abbrev pub flags_of : Bool → Bool → Bool → Bool → ℕ
flags_of crc extra name comment =
    (if crc then 2 else 0)
    + (if extra then 4 else 0)
    + (if name then 8 else 0)
    + (if comment then 16 else 0)

-- Each flag is found in the byte.
pub flags_found :
    (a b c d : Bool)
    → (has_flag (flags_of a b c d) flag_hdr_crc ≡ a)
      × (has_flag (flags_of a b c d) flag_extra ≡ b)
      × (has_flag (flags_of a b c d) flag_name ≡ c)
      × (has_flag (flags_of a b c d) flag_comment ≡ d)
flags_found true true true true = (refl, refl, refl, refl)
flags_found true true true false = (refl, refl, refl, refl)
flags_found true true false true = (refl, refl, refl, refl)
flags_found true true false false = (refl, refl, refl, refl)
flags_found true false true true = (refl, refl, refl, refl)
flags_found true false true false = (refl, refl, refl, refl)
flags_found true false false true = (refl, refl, refl, refl)
flags_found true false false false = (refl, refl, refl, refl)
flags_found false true true true = (refl, refl, refl, refl)
flags_found false true true false = (refl, refl, refl, refl)
flags_found false true false true = (refl, refl, refl, refl)
flags_found false true false false = (refl, refl, refl, refl)
flags_found false false true true = (refl, refl, refl, refl)
flags_found false false true false = (refl, refl, refl, refl)
flags_found false false false true = (refl, refl, refl, refl)
flags_found false false false false = (refl, refl, refl, refl)

abbrev pub flags : Fields → ℕ
flags x = flags_of x.hdr_crc (is_there x.extra) (is_there x.name) (is_there x.comment)

abbrev pub fixed_part : Fields → List ℕ
fixed_part x =
    31
    ∷ 139
    ∷ 8
    ∷ flags x
    ∷ x.mtime % 2 ^ 8
    ∷ x.mtime / 2 ^ 8 % 2 ^ 8
    ∷ x.mtime / 2 ^ 16 % 2 ^ 8
    ∷ x.mtime / 2 ^ 24
    ∷ x.xfl
    ∷ x.os
    ∷ []

abbrev pub crc_field : Bool → List ℕ → List ℕ
crc_field false done = []
crc_field true done = le16 (checksum_ieee done % 2 ^ 16)

-- Everything in front of the checksum.
abbrev pub checked_part : Fields → List ℕ
checked_part x =
    ((fixed_part x ++ extra_field x.extra) ++ text_field x.name) ++ text_field x.comment

abbrev pub header_bytes : Fields → List ℕ
header_bytes x = checked_part x ++ crc_field x.hdr_crc (checked_part x)

pub nested :
    (a b c d e m : List ℕ) → ((((a ++ b) ++ c) ++ d) ++ e) ++ m ≡ a ++ (b ++ (c ++ (d ++ (e ++ m))))
nested a b c d e m =
    append_assoc (((a ++ b) ++ c) ++ d) e m
    ∙ append_assoc ((a ++ b) ++ c) d (e ++ m)
    ∙ append_assoc (a ++ b) c (d ++ (e ++ m))
    ∙ append_assoc a b (c ++ (d ++ (e ++ m)))

-- What the reader makes of it.
abbrev pub decoded : Fields → Header
decoded x = record {
  comment = text_of x.comment;
  extra = bytes_of x.extra;
  mod_time = if ltb 0 x.mtime then some x.mtime else none;
  name = text_of x.name;
  os = x.os;
}
