-- ===== src/Tarfs/Seeks.antt =====
-- tarfs/tarfs.go: where `(*File).Seek` goes.
use targz.Prelude.{
  Bool-cases, inl, inr, ltb→lt, ltb→le, lt→ltb, le→ltb, ◌≡◌, ◌∙◌, refl, sym, ap, arith, List, min,
  ℕ, zero, suc, ◌+◌, ◌-◌, ◌≤◌, ◌<◌, true, Option, none, some, ltb, leb, if◌then◌else◌,
}
use targz.Tarfs.Index.{Entry}
use targz.Tarfs.Section.{
  ReaderAt, ℤ, pos, negsuc, max_int64, new_section, seek_from, shift, seek_to, seek,
}
use targz.Tarfs.File.{File, file_of, file_read, file_seek}
use targz.Tarfs.Contents.{
  IsAnswer, IsReaderAt, content, at_position, new_section-IsFitting, file_read-IsAnswer,
}
use mathlib.Core.Path.{subst}

-- The position that a whence is counted from: the start, the position or the end.
abbrev pub origin : ℕ → ℕ → Entry → Option ℕ
origin zero k e = some 0
origin (suc zero) k e = some k
origin (suc (suc zero)) k e = some e.header.size
origin (suc (suc (suc w))) k e = none

-- An integer added to a position, if that is not negative.
abbrev pub moved : ℕ → ℤ → Option ℕ
moved k (pos d) = some (k + d)
moved k (negsuc d) = if ltb d k then some (k - suc d) else none

-- What a file tells of such a position, and how it stands behind the call.
abbrev pub goes : ℕ → ℕ → Entry → Option ℕ → Option ℕ × File
goes k cursor e none = (none, at_position k cursor e)
goes k cursor e (some t) =
    if leb (e.offset + t) max_int64
    then (some t, at_position t cursor e)
    else (none, at_position k cursor e)

abbrev pub sought : ℤ → ℕ → ℕ → Entry → Option ℕ
sought offset whence k e = elim (origin whence k e) [ none ↦ none | some from ↦ moved from offset ]

-- How `seek` leaves a file.
abbrev left_at : ℕ → ℕ → Entry → Option ℕ → Option ℕ × File
left_at k cursor e o =
    let (to, s) = seek_to o (at_position k cursor e).section in
    (to, record (at_position k cursor e) { section = s })

left_at-at_position :
    (t k cursor : ℕ) (e : Entry)
    → left_at k cursor e (some (e.offset + t)) ≡ (some t, at_position t cursor e)
unfolding seek_to file_of new_section
left_at-at_position t k cursor e =
    rw (le→ltb (e.offset + t) e.offset (omega arith), add_sub e.offset t) refl
  where
    add_sub : (a b : ℕ) → a + b - a ≡ b
    add_sub a b = omega arith

shift-goes :
    (from k cursor : ℕ) (offset : ℤ) (e : Entry)
    → e.offset + from ≤ max_int64
    → left_at k cursor e (shift (e.offset + from) offset) ≡ goes k cursor e (moved from offset)
unfolding seek_to shift file_of new_section
shift-goes from k cursor (pos d) e h =
    ap (λ x. left_at k cursor e (if leb x max_int64 then some x else none)) (assoc e.offset from d)
    ∙ elim (Bool-cases (leb (e.offset + (from + d)) max_int64)) [
      | inl p ↦ rw p (left_at-at_position (from + d) k cursor e)
      | inr p ↦ rw p refl
    ]
  where
    assoc : (a b c : ℕ) → a + b + c ≡ a + (b + c)
    assoc a b c = omega arith
shift-goes from k cursor (negsuc d) e h = elim (Bool-cases (ltb d from)) [
  | inl p ↦
      rw
        (
          p,
          lt→ltb d (e.offset + from) (omega (arith, ltb→lt d from p)),
          sub_assoc (ltb→lt d from p),
          le_leb (ltb→lt d from p),
        )
        (left_at-at_position (from - suc d) k cursor e)
  | inr p ↦ elim (Bool-cases (ltb d (e.offset + from))) [
    | inl q ↦ rw (p, q, lt→ltb _ e.offset (behind (ltb→lt d _ q) (ltb→le d from p))) refl
    | inr q ↦ rw (p, q) refl
  ]
]
  where
    sub_assoc : d < from → e.offset + from - suc d ≡ e.offset + (from - suc d)
    sub_assoc lt = omega (arith, lt)

    le_leb : d < from → leb (e.offset + (from - suc d)) max_int64 ≡ true
    le_leb lt = ground (arith, lt, h)

    behind : d < e.offset + from → from ≤ d → e.offset + from - suc d < e.offset
    behind lt le = omega (arith, lt, le)

-- `Seek` of a file at a position goes to the integer sum of the offset and of what its whence
-- counts from, the start, the position or the size of the entry, and tells it; where the sum is
-- negative, or it is an offset in the archive that does not fit `int64`, or there is no such
-- whence, it fails and the file stays where it is. The entry's end and the position before are
-- offsets that fit `int64`.
pub file_seek-goes :
    (offset : ℤ) (whence k cursor : ℕ) (e : Entry)
    → e.offset + e.header.size ≤ max_int64
    → e.offset + k ≤ max_int64
    → file_seek offset whence (at_position k cursor e) ≡ goes k cursor e (sought offset whence k e)
unfolding file_seek seek seek_from file_of new_section
file_seek-goes offset zero k cursor e h at_k =
    ap (λ b. left_at k cursor e (shift b offset)) (plus_zero e.offset)
    ∙ shift-goes 0 k cursor offset e (omega (arith, h))
  where
    plus_zero : (b : ℕ) → b ≡ b + 0
    plus_zero b = omega arith
file_seek-goes offset (suc zero) k cursor e h at_k = shift-goes k k cursor offset e at_k
file_seek-goes offset (suc (suc zero)) k cursor e h at_k =
    ap (λ b. left_at k cursor e (shift b offset)) (new_section-IsFitting e.offset e.header.size h)
    ∙ shift-goes e.header.size k cursor offset e h
file_seek-goes offset (suc (suc (suc w))) k cursor e h at_k = refl

goes-at_position :
    (t k cursor : ℕ) (e : Entry)
    → e.offset + t ≤ max_int64
    → goes k cursor e (some t) ≡ (some t, at_position t cursor e)
goes-at_position t k cursor e h = rw (le_leb (e.offset + t) max_int64 h) refl
  where
    le_leb : (a b : ℕ) → a ≤ b → leb a b ≡ true
    le_leb a b h = ground arith

-- Where `ReadAt` of the archive reads its bytes as `io.ReaderAt` asks for, and the integer sum of
-- an offset and of what its whence counts from, the start, the position or the size of the entry,
-- is not negative, `Seek` of a file that `open` makes of an entry, moved to a position, tells that
-- sum, and a `Read` behind it reads the bytes of the entry from there. The sum, the position and
-- the size, behind the entry's offset, fit `int64`.
pub file_seek-file_read :
    {S : Type 0} (ra : ReaderAt S) (bytes : List ℕ) (Sane : S → Type 0)
    (ok : IsReaderAt ra bytes Sane) (offset : ℤ) (whence n t k cursor : ℕ) (e : Entry) (st : S)
    → e.offset + e.header.size ≤ max_int64
    → e.offset + k ≤ max_int64
    → e.offset + t ≤ max_int64
    → sought offset whence k e ≡ some t
    → Sane st
    → ((file_seek offset whence (at_position k cursor e)).0 ≡ some t)
      × IsAnswer
          (content bytes e)
          (min n (e.header.size - t))
          t
          (file_read ra n (file_seek offset whence (at_position k cursor e)).1 st).0
file_seek-file_read ra bytes Sane ok offset whence n t k cursor e st h at_k at_t there sane =
    let gone =
      file_seek-goes offset whence k cursor e h at_k
      ∙ ap (goes k cursor e) there
      ∙ goes-at_position t k cursor e at_t in
    (
      ap (λ r. r.0) gone,
      subst
          (λ r. IsAnswer (content bytes e) (min n (e.header.size - t)) t (file_read ra n r.1 st).0)
          (sym gone) (file_read-IsAnswer ra bytes Sane ok n t cursor e st h sane).0,
    )
