-- ===== src/Tarfs/Contents.antt =====
-- tarfs/tarfs.go: what is read of a `File` against what `io.ReaderAt` promises of the archive.
use targz.Prelude.{
  length-take, length-drop, drop-drop, take-drop-take, ltb→lt, ltb→le, Bool-cases, inl, inr, ◌≡◌,
  ◌∙◌, refl, sym, ap, arith, ℕ, ◌+◌, ◌-◌, ◌≤◌, ◌<◌, min, List, [], true, ltb, leb, length, take,
  drop,
}
use mathlib.Core.Path.{subst}
use targz.Tarfs.Index.{Entry}
use targz.Tarfs.Section.{
  pos, ReadErr, no_error, eof, failed, ReaderAt, Section, max_int64, new_section, cut_off, read,
  read_within, read_at,
}
use targz.Tarfs.File.{File, file_of, file_read, file_read_at}

-- How many bytes an answer to a call for `n` has, by its error, where `left` bytes stand behind the
-- offset: all `n` with no error, all that are left up to `n` with `io.EOF`.
abbrev pub Counts : ℕ → ℕ → ℕ → ReadErr → Type 0
Counts n left got no_error = got ≡ n
Counts n left got eof = got ≡ min n left
Counts n left got failed = Unit

-- The answer to a call for `n` bytes at an offset: they are the bytes that stand there.
abbrev pub IsAnswer : List ℕ → ℕ → ℕ → List ℕ × ReadErr → Type 0
IsAnswer bytes n off (got, err) =
    (got ≡ take (length got) (drop off bytes))
    × (length got ≤ n)
    × Counts n (length bytes - off) (length got) err

-- What the documentation of `io.ReaderAt` asks for, of a reader of `bytes`.
pub record IsReaderAt {S : Type 0} (ra : ReaderAt S) (bytes : List ℕ) (Sane : S → Type 0)
    : Type 0 where
  pub answers : (n off : ℕ) (st : S) → Sane st → IsAnswer bytes n off (ra n off st).0
  pub stays : (n off : ℕ) (st : S) → Sane st → Sane (ra n off st).1

-- The bytes of an entry.
abbrev pub content : List ℕ → Entry → List ℕ
content bytes e = take e.header.size (drop e.offset bytes)

-- The bytes of a section, and one that lies within the offsets of the archive.
abbrev pub part : List ℕ → Section → List ℕ
part bytes s = take s.size (drop s.base bytes)

abbrev pub IsFitting : Section → Type 0
IsFitting s = s.limit ≡ s.base + s.size

length-part :
    (bytes : List ℕ) (s : Section) → length (part bytes s) ≡ min s.size (length bytes - s.base)
length-part bytes s =
    length-take s.size (drop s.base bytes) ∙ ap (min s.size) (length-drop s.base bytes)

-- Answers of a call for `m` bytes, cut at the section's end, for a call for `n`.
inside-part :
    (bytes : List ℕ) (s : Section) (k g : ℕ) (got : List ℕ)
    → g + k ≤ s.size
    → got ≡ take g (drop (s.base + k) bytes)
    → got ≡ take g (drop k (part bytes s))
inside-part bytes s k g got h e =
    e
    ∙ ap (take g) (sym (drop-drop k s.base bytes))
    ∙ sym (take-drop-take g k s.size (drop s.base bytes) h)

uncut-IsAnswer :
    (bytes : List ℕ) (s : Section) (n k : ℕ) (a : List ℕ × ReadErr)
    → n + k ≤ s.size
    → IsAnswer bytes n (s.base + k) a
    → IsAnswer (part bytes s) n k a
uncut-IsAnswer bytes s n k (got, no_error) h (e, le, c) =
    (inside-part bytes s k (length got) got (omega arith) e, le, c)
uncut-IsAnswer bytes s n k (got, eof) h (e, le, c) = (
  inside-part bytes s k (length got) got (omega arith) e,
  le,
  omega (arith, length-part bytes s, c, h),
)
uncut-IsAnswer bytes s n k (got, failed) h (e, le, c) =
    (inside-part bytes s k (length got) got (omega arith) e, le, tt)

cut-IsAnswer :
    (bytes : List ℕ) (s : Section) (m n k : ℕ) (got : List ℕ) (err : ReadErr)
    → m + k ≡ s.size
    → m < n
    → IsAnswer bytes m (s.base + k) (got, err)
    → IsAnswer (part bytes s) n k (got, cut_off err)
unfolding cut_off
cut-IsAnswer bytes s m n k got no_error h lt (e, le, c) = (
  inside-part bytes s k (length got) got (omega arith) e,
  omega arith,
  omega (
    arith,
    length-part bytes s,
    length-take (length got) (drop (s.base + k) bytes),
    length-drop (s.base + k) bytes,
    ap length e,
  ),
)
cut-IsAnswer bytes s m n k got eof h lt (e, le, c) = (
  inside-part bytes s k (length got) got (omega arith) e,
  omega arith,
  omega (arith, length-part bytes s, c),
)
cut-IsAnswer bytes s m n k got failed h lt (e, le, c) =
    (inside-part bytes s k (length got) got (omega arith) e, omega arith, tt)

-- The file that `open` makes of an entry, its section moved on to a position, and its listing to a
-- cursor.
abbrev pub at_position : ℕ → ℕ → Entry → File
at_position k cursor e = record (file_of e) {
  section = record ((file_of e).section) { off = (file_of e).section.off + k };
  cursor = cursor;
}

pub new_section-IsFitting : (b n : ℕ) → b + n ≤ max_int64 → IsFitting (new_section b n)
unfolding new_section
new_section-IsFitting b n h = rw (le_leb (b + n) max_int64 h) refl
  where
    le_leb : (a b : ℕ) → a ≤ b → leb a b ≡ true
    le_leb a b h = ground arith

module _ {S : Type 0} (ra : ReaderAt S) (bytes : List ℕ) (Sane : S → Type 0)
    (ok : IsReaderAt ra bytes Sane) where
  read_within-IsAnswer :
      (n k : ℕ) (s : Section) (st : S)
      → IsFitting s
      → k < s.size
      → Sane st
      → IsAnswer (part bytes s) n k (read_within ra n (s.base + k) s st).0
        × Sane (read_within ra n (s.base + k) s st).1
  unfolding read_within
  read_within-IsAnswer n k s st fits lt sane = elim (Bool-cases (ltb (s.limit - (s.base + k)) n)) [
    | inl p ↦ rw p (
      cut-IsAnswer bytes s (s.limit - (s.base + k)) n k _ _ (omega (arith, fits, lt)) (ltb→lt _ n p)
          (ok.answers _ _ st sane),
      ok.stays _ _ st sane,
    )
    | inr p ↦ rw p (
      uncut-IsAnswer bytes s n k _ (omega (arith, fits, lt, ltb→le _ n p))
          (ok.answers n (s.base + k) st sane),
      ok.stays n (s.base + k) st sane,
    )
  ]

  -- Behind the part nothing is read.
  nothing-IsAnswer : (n k : ℕ) (s : Section) → s.size ≤ k → IsAnswer (part bytes s) n k ([], eof)
  nothing-IsAnswer n k s le = (refl, omega arith, omega (arith, length-part bytes s))

  pub read_at-IsAnswer :
      (n k : ℕ) (s : Section) (st : S)
      → IsFitting s
      → Sane st
      → IsAnswer (part bytes s) n k (read_at ra n (pos k) s st).0
        × Sane (read_at ra n (pos k) s st).1
  unfolding read_at
  read_at-IsAnswer n k s st fits sane = elim (Bool-cases (ltb k (s.limit - s.base))) [
    | inl p ↦ rw p (read_within-IsAnswer n k s st fits (omega (arith, fits, ltb→lt k _ p)) sane)
    | inr p ↦ rw p (nothing-IsAnswer n k s (omega (arith, fits, ltb→le k _ p)), sane)
  ]

  -- Where `ReadAt` of the archive answers as `io.ReaderAt` asks for, `ReadAt` of a file that
  -- `open` makes of an entry, wherever the file has been moved to, does so for the bytes of the
  -- entry: what it returns are the bytes that stand there from the offset that it is asked for on,
  -- never one from behind the entry, as many as asked for where it reports no error, as many as
  -- are left up to that with `io.EOF`. The entry's end is an offset that fits `int64`.
  pub file_read_at-IsAnswer :
      (n k position cursor : ℕ) (e : Entry) (st : S)
      → e.offset + e.header.size ≤ max_int64
      → Sane st
      → IsAnswer
          (content bytes e)
          n
          k
          (file_read_at ra n (pos k) (at_position position cursor e) st).0
        × Sane (file_read_at ra n (pos k) (at_position position cursor e) st).1
  unfolding file_read_at file_of new_section
  file_read_at-IsAnswer n k position cursor e st h sane =
      read_at-IsAnswer n k (at_position position cursor e).section st
        (new_section-IsFitting e.offset e.header.size h) sane

  read-IsAnswer :
      (n k : ℕ) (s : Section) (st : S)
      → IsFitting s
      → s.off ≡ s.base + k
      → Sane st
      → IsAnswer (part bytes s) (min n (s.size - k)) k (read ra n s st).0
        × ((read ra n s st).1.0 ≡ record s { off = s.off + length (read ra n s st).0.0 })
        × Sane (read ra n s st).1.1
  unfolding read
  read-IsAnswer n k s st fits at_k sane = elim (Bool-cases (ltb s.off s.limit)) [
    | inl p ↦ rw p (
      asked _ (ltb→lt s.off s.limit p) (ok.answers (min n (s.limit - s.off)) s.off st sane),
      refl,
      ok.stays (min n (s.limit - s.off)) s.off st sane,
    )
    | inr p ↦ rw p (
      (refl, omega arith, nothing (ltb→le s.off s.limit p)),
      ap (λ o. record s { off = o }) (plus_zero s.off),
      sane,
    )
  ]
    where
      asked :
          (a : List ℕ × ReadErr)
          → s.off < s.limit
          → IsAnswer bytes (min n (s.limit - s.off)) s.off a
          → IsAnswer (part bytes s) (min n (s.size - k)) k a
      asked a lt h =
          uncut-IsAnswer bytes s (min n (s.size - k)) k a (omega (arith, fits, at_k, lt)) (
            subst (λ o. IsAnswer bytes (min n (s.size - k)) o a) at_k
              (subst (λ m. IsAnswer bytes m s.off a) (omega (arith, fits, at_k)) h))

      nothing : s.limit ≤ s.off → 0 ≡ min (min n (s.size - k)) (length (part bytes s) - k)
      nothing h = omega (arith, fits, at_k, length-part bytes s)

      plus_zero : (o : ℕ) → o ≡ o + 0
      plus_zero o = omega arith

  -- Where `ReadAt` of the archive reads its bytes as `io.ReaderAt` asks for, `Read` of a file that
  -- `open` makes of an entry, moved to a position, reads bytes of the entry from there, all of
  -- those asked for that are left where it reports no error, and stands behind them afterwards; at
  -- the end of the entry or behind it nothing is read. The entry's end is an offset that fits
  -- `int64`.
  pub file_read-IsAnswer :
      (n k cursor : ℕ) (e : Entry) (st : S)
      → e.offset + e.header.size ≤ max_int64
      → Sane st
      → IsAnswer
          (content bytes e)
          (min n (e.header.size - k))
          k
          (file_read ra n (at_position k cursor e) st).0
        × ((file_read ra n (at_position k cursor e) st).1.0
            ≡ at_position (k + length (file_read ra n (at_position k cursor e) st).0.0) cursor e)
        × Sane (file_read ra n (at_position k cursor e) st).1.1
  unfolding file_read file_of new_section
  file_read-IsAnswer n k cursor e st h sane =
      let f = at_position k cursor e in
      let (answer, goes_on, stays) =
        read-IsAnswer n k f.section st (new_section-IsFitting e.offset e.header.size h) refl sane in
      (
        answer,
        ap (λ s. record f { section = s }) goes_on
            ∙ ap (λ o. record f { section = record (f.section) { off = o } }) (assoc e.offset k _),
        stays,
      )
    where
      assoc : (a b c : ℕ) → a + b + c ≡ a + (b + c)
      assoc a b c = omega arith
