-- ===== src/Gzip/Errors.antt =====
-- gsip/internal/gzip/gunzip.go, `readHeader`: io.EOF is returned only in front of a header.
use targz.Prelude.{
  ℕ, ◌%◌, ◌^◌, ◌≡◌, ◌≢◌, refl, List, [], ◌∷◌, Bool, true, false, Option, none, some, ltb, le→ltb,
  ◌⊎◌, zero, suc, ◌==◌, length, take, get_or, arith, Bool-cases, inl, inr, if◌then◌else◌,
}
use targz.Flate.Source.{
  Error, eof, unexpected_eof, internal, checksum, not_exist, corrupt, other, no_eof, read_full,
}
use targz.Gzip.Crc.{update, checksum_ieee}
use targz.Gzip.State.{Header, no_header, Reader, fill}
use targz.Gzip.Header.{
  flag_hdr_crc, flag_extra, flag_name, flag_comment, uint16, has_flag, Parsed, parsed, refused,
  go_on, and_then, unless_failed, read_string, read_data, read_extra, read_name, read_comment,
  read_hdr_crc,
}
use targz.Gzip.Members.{start_member, read_fixed, is_gzip, read_fields, after_fixed, read_member}

no_eof-not_eof : (e : Error) → no_eof e ≢ eof
unfolding no_eof
no_eof-not_eof eof h = cc h
no_eof-not_eof unexpected_eof h = cc h
no_eof-not_eof internal h = cc h
no_eof-not_eof checksum h = cc h
no_eof-not_eof Error.header h = cc h
no_eof-not_eof not_exist h = cc h
no_eof-not_eof (corrupt n) h = cc h
no_eof-not_eof (other n) h = cc h

some_inj : {a b : Error} → some a ≡ some b → a ≡ b
some_inj h = cc h

-- A stage of `readHeader` does not return io.EOF.
abbrev Fails : Parsed → Type 0
Fails p = p.err ≢ some eof

parsed-Fails : (hdr : Header) (z : Reader) → Fails (parsed hdr z)
parsed-Fails hdr z h = cc h

unless_failed-Fails :
    (o : Option Error) (hdr : Header) (z : Reader) (p : Parsed)
    → Fails p
    → Fails (unless_failed o hdr z p)
unfolding unless_failed
unless_failed-Fails none hdr z p h = h
unless_failed-Fails (some e) hdr z p h = λ q. no_eof-not_eof e (some_inj q)

if-Fails : (b : Bool) (p q : Parsed) → Fails p → Fails q → Fails (if b then p else q)
if-Fails true p q hp hq = hp
if-Fails false p q hp hq = hq

and_then-Fails :
    (p : Parsed) (k : Header → Reader → Parsed)
    → Fails p
    → ((hdr : Header) (z : Reader) → Fails (k hdr z))
    → Fails (and_then p k)
and_then-Fails p k h next = go p.err
  where
    go : (o : Option Error) → Fails (go_on o p k)
    go none = next p.hdr p.z
    go (some e) = h

read_data-Fails : (len : List ℕ) (hdr : Header) (z : Reader) → Fails (read_data len hdr z)
unfolding read_data
read_data-Fails len hdr z =
    let got = fill (uint16 len) (record z { digest = update z.digest len }) in
    unless_failed-Fails got.0.1 hdr got.1
      (parsed (record hdr { extra = got.0.0 })
        (record got.1 { digest = update (update z.digest len) got.0.0 }))
      (parsed-Fails (record hdr { extra = got.0.0 })
        (record got.1 { digest = update (update z.digest len) got.0.0 }))

read_extra-Fails : (flg : ℕ) (hdr : Header) (z : Reader) → Fails (read_extra flg hdr z)
unfolding read_extra
read_extra-Fails flg hdr z =
    if-Fails (has_flag flg flag_extra) _ _
      (unless_failed-Fails (fill 2 z).0.1 hdr (fill 2 z).1 _
        (read_data-Fails (fill 2 z).0.0 hdr (fill 2 z).1))
      (parsed-Fails hdr z)

read_name-Fails : (flg : ℕ) (hdr : Header) (z : Reader) → Fails (read_name flg hdr z)
unfolding read_name
read_name-Fails flg hdr z =
    if-Fails (has_flag flg flag_name) _ _
      (unless_failed-Fails (read_string z).0.1 hdr (read_string z).1 _ (λ h. cc h))
      (parsed-Fails hdr z)

read_comment-Fails : (flg : ℕ) (hdr : Header) (z : Reader) → Fails (read_comment flg hdr z)
unfolding read_comment
read_comment-Fails flg hdr z =
    if-Fails (has_flag flg flag_comment) _ _
      (unless_failed-Fails (read_string z).0.1 hdr (read_string z).1 _ (λ h. cc h))
      (parsed-Fails hdr z)

read_hdr_crc-Fails : (flg : ℕ) (hdr : Header) (z : Reader) → Fails (read_hdr_crc flg hdr z)
unfolding read_hdr_crc
read_hdr_crc-Fails flg hdr z =
    if-Fails (has_flag flg flag_hdr_crc) _ _
      (unless_failed-Fails (fill 2 z).0.1 hdr (fill 2 z).1 _ (
        if-Fails (uint16 (fill 2 z).0.0 == (fill 2 z).1.digest % 2 ^ 16) _ _ (λ h. cc h)
          (λ h. cc h)))
      (parsed-Fails hdr z)

read_fields-Fails : (b : List ℕ) (z : Reader) → Fails (read_fields b z)
unfolding read_fields
read_fields-Fails b z =
    let flg = get_or b 3 0 in
    and_then-Fails (read_extra flg (read_fixed b) (record z { digest = checksum_ieee b })) _
      (read_extra-Fails flg (read_fixed b) (record z { digest = checksum_ieee b }))
      (λ hdr z₁. and_then-Fails (read_name flg hdr z₁) _ (read_name-Fails flg hdr z₁) (λ hdr z₂.
        and_then-Fails (read_comment flg hdr z₂) _ (read_comment-Fails flg hdr z₂) (λ hdr z₃.
          and_then-Fails (read_hdr_crc flg hdr z₃) _ (read_hdr_crc-Fails flg hdr z₃)
            (λ hdr z₄. parsed-Fails hdr (start_member hdr z₄)))))

-- `io.ReadFull` returns io.EOF only where there is nothing.
eof-read_full :
    (n : ℕ) (rest : List ℕ) (fail : Error)
    → (read_full n (record { rest = rest; fail = fail })).err ≡ some eof
    → rest ≡ []
unfolding read_full
eof-read_full n [] fail h = refl
eof-read_full zero (x ∷ xs) fail h = absurd (none_here (x ∷ xs) fail h)
  where
    none_here :
        (xs : List ℕ) (fail : Error)
        → (read_full 0 (record { rest = xs; fail = fail })).err ≢ some eof
    none_here xs fail = rw (le→ltb (length xs) 0 (omega arith)) (λ h. cc h)
eof-read_full (suc n) (x ∷ xs) fail h =
    absurd (some_here (Bool-cases (ltb (suc (length xs)) (suc n))) h)
  where
    some_here :
        (ltb (suc (length xs)) (suc n) ≡ true) ⊎ (ltb (suc (length xs)) (suc n) ≡ false)
        → (read_full (suc n) (record { rest = x ∷ xs; fail = fail })).err ≢ some eof
    some_here (inl e) = rw (e, no_zero (length (take n xs))) (λ h. no_eof-not_eof fail (some_inj h))
      where
        no_zero : (k : ℕ) → (suc k == 0) ≡ false
        no_zero k = ground arith
    some_here (inr e) = rw e (λ h. cc h)

-- `readHeader` in front of a header returns `io.EOF` only where not one byte is left: a header
-- that is cut off anywhere ends in another error.
pub read_member-eof : (z : Reader) → (read_member z).err ≡ some eof → z.r.source.rest ≡ []
unfolding read_member fill after_fixed
read_member-eof z = by_fill (fill 10 z).0.1 refl
  where
    by_fill :
        (o : Option Error)
        → (fill 10 z).0.1 ≡ o
        → (go_on o
            (record { hdr = no_header; err = (fill 10 z).0.1; z = (fill 10 z).1 })
            (after_fixed (fill 10 z).0.0)).err
          ≡ some eof
        → z.r.source.rest ≡ []
    by_fill (some e) p h = eof-read_full 10 z.r.source.rest z.r.source.fail h
    by_fill none p h = absurd (
        if-Fails (is_gzip (fill 10 z).0.0) (read_fields (fill 10 z).0.0 (fill 10 z).1)
          (refused no_header Error.header (fill 10 z).1)
          (read_fields-Fails (fill 10 z).0.0 (fill 10 z).1) (λ q. cc q) h)
