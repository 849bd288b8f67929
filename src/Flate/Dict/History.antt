-- ===== src/Flate/Dict/History.antt =====
-- What the window stands for: the last bytes of the output, oldest first, as RFC 1951 sees them.
use targz.Prelude.{
  ℕ, zero, suc, ◌+◌, ◌-◌, ◌≤◌, ◌<◌, ◌≡◌, ◌∙◌, sym, ap, ap₂, List, [], ◌∷◌, ◌++◌, length, take, drop,
  set, get_or, not_lt, if◌then◌else◌, arith, Bool-cases, inl, inr, length-append, length-take,
  length-drop, take-set, drop-set, drop_step, lt→ltb, le→ltb, drop-set_le, get_or-drop, get_or_at,
  get_or-append_ge, get_or-append_lt, get_or-take_lt,
}
use targz.Flate.Dict.{DictDecoder, write_byte, hist_size}
use targz.Flate.Dict.Valid.{IsValid}
use targz.Flate.Dict.Copy.{byte_back}
use mathlib.Core.List.{append_assoc}
use native.Mathlib.Decide.{dec_lt}
use native.Mathlib.Numerals.{add-one}
use targz.Prelude.Slices.{slice}

-- An output history that remembers at most `cap` bytes.
unfoldable pub push : ℕ → List ℕ → ℕ → List ℕ
push cap w c = drop (length w + 1 - cap) (w ++ (c ∷ []))

-- The byte `dist` from the end.
unfoldable pub from_end : List ℕ → ℕ → ℕ
from_end w dist = get_or w (length w - dist) 0

-- RFC 1951's copy of length `n` at distance `dist`, and the bytes that it emits.
unfoldable pub lz_copy : ℕ → ℕ → ℕ → List ℕ → List ℕ
lz_copy cap zero dist w = w
lz_copy cap (suc n) dist w = lz_copy cap n dist (push cap w (from_end w dist))

unfoldable pub lz_bytes : ℕ → ℕ → ℕ → List ℕ → List ℕ
lz_bytes cap zero dist w = []
lz_bytes cap (suc n) dist w = from_end w dist ∷ lz_bytes cap n dist (push cap w (from_end w dist))

unfoldable pub history : DictDecoder → List ℕ
history dd =
    if dd.full then drop dd.wr_pos dd.hist ++ take dd.wr_pos dd.hist else take dd.wr_pos dd.hist

-- What `readFlush` would emit.
unfoldable pub pending : DictDecoder → List ℕ
pending dd = slice dd.hist dd.rd_pos dd.wr_pos

-- A byte written behind a slice of the array extends the slice.
slice-set :
    (xs : List ℕ) (a i c : ℕ)
    → a ≤ i
    → i < length xs
    → slice (set xs i c) a (suc i) ≡ slice xs a i ++ (c ∷ [])
slice-set xs a i c le lt =
    ap₂ take count (drop-set_le xs a i c le)
    ∙ take-set (drop a xs) (i - a) c (omega (arith, length-drop a xs))
  where
    count : suc i - a ≡ suc (i - a)
    count = omega arith

-- A history is as long as the output so far, up to the size of the window.
pub length-history : (dd : DictDecoder) → IsValid dd → length (history dd) ≡ hist_size dd
unfolding history hist_size
length-history dd v = elim (Bool-cases dd.full) [
  | inl f ↦ rw f (
      omega (
        arith,
        length-append {0} (drop dd.wr_pos dd.hist) (take dd.wr_pos dd.hist),
        length-take dd.wr_pos dd.hist,
        length-drop dd.wr_pos dd.hist,
        v.write_in,
      ))
  | inr f ↦ rw f (omega (arith, length-take dd.wr_pos dd.hist, v.write_in))
]

-- A window that is full forgets its oldest byte for the new one; one that is not only grows.
pub push_full :
    (cap : ℕ) (x c : ℕ) (front back : List ℕ)
    → suc (length front + length back) ≡ cap
    → push cap ((x ∷ front) ++ back) c ≡ front ++ (back ++ (c ∷ []))
unfolding push
push_full cap x c front back e =
    ap (λ k. drop k ((x ∷ front ++ back) ++ (c ∷ []))) one ∙ append_assoc front back (c ∷ [])
  where
    one : length (x ∷ front ++ back) + 1 - cap ≡ 1
    one = omega (arith, length-append {0} front back)

pub push_short : (cap c : ℕ) (w : List ℕ) → length w < cap → push cap w c ≡ w ++ (c ∷ [])
unfolding push
push_short cap c w lt = ap (λ k. drop k (w ++ (c ∷ []))) none_dropped
  where
    none_dropped : length w + 1 - cap ≡ 0
    none_dropped = omega arith

-- `writeByte` appends a byte to the bounded output history.
pub history-write_byte :
    (dd : DictDecoder) (c : ℕ)
    → dd.wr_pos < length dd.hist
    → history (write_byte dd c) ≡ push (length dd.hist) (history dd) c
unfolding history write_byte
history-write_byte dd c lt = elim (Bool-cases dd.full) [
  | inl f ↦
      rw (f, add-one, take-set dd.hist dd.wr_pos c lt, drop-set, drop_step dd.hist dd.wr_pos 0 lt)
        (sym (push_full _ _ c (drop (suc dd.wr_pos) dd.hist) (take dd.wr_pos dd.hist) lengths))
  | inr f ↦
      rw (f, add-one, take-set dd.hist dd.wr_pos c lt)
        (sym
          (push_short _ c (take dd.wr_pos dd.hist) (omega (arith, length-take dd.wr_pos dd.hist))))
]
  where
    lengths :
        suc (length (drop (suc dd.wr_pos) dd.hist) + length (take dd.wr_pos dd.hist))
        ≡ length dd.hist
    lengths = omega (arith, length-take dd.wr_pos dd.hist, length-drop (suc dd.wr_pos) dd.hist)

pub pending-write_byte :
    (dd : DictDecoder) (c : ℕ)
    → IsValid dd
    → dd.wr_pos < length dd.hist
    → pending (write_byte dd c) ≡ pending dd ++ (c ∷ [])
unfolding pending write_byte
pending-write_byte dd c v lt = rw add-one (slice-set dd.hist dd.rd_pos dd.wr_pos c v.read_first lt)

module _ (h : List ℕ) (wr dist : ℕ) (inside : wr ≤ length h) (pos : 0 < dist) where
  at_short : dist ≤ wr → get_or (take wr h) (wr - dist) 0 ≡ get_or h (wr - dist) 0
  at_short le = get_or-take_lt wr h (wr - dist) 0 (omega arith)

  at_full_near :
      dist ≤ wr → get_or (drop wr h ++ take wr h) (length h - dist) 0 ≡ get_or h (wr - dist) 0
  at_full_near le =
      get_or-append_ge (drop wr h) (take wr h) (length h - dist) 0 (omega (arith, length-drop wr h))
      ∙ get_or_at (take wr h) _ (wr - dist) 0 (omega (arith, length-drop wr h))
      ∙ at_short le

  at_full_far :
      wr < dist
      → dist ≤ length h
      → get_or (drop wr h ++ take wr h) (length h - dist) 0 ≡ get_or h (length h + wr - dist) 0
  at_full_far lt le =
      get_or-append_lt (drop wr h) (take wr h) (length h - dist) 0 (omega (arith, length-drop wr h))
      ∙ get_or-drop wr h (length h - dist) 0
      ∙ get_or_at h _ (length h + wr - dist) 0 (omega arith)

-- The byte at a distance is the one so far from the end of the history.
pub byte_back-from_end :
    (dd : DictDecoder) (dist : ℕ)
    → IsValid dd
    → 0 < dist
    → dist ≤ hist_size dd
    → byte_back dd dist ≡ from_end (history dd) dist
unfolding byte_back from_end history hist_size
byte_back-from_end dd dist v pos le = elim (Bool-cases dd.full) [
  | inl f ↦ elim (dec_lt dd.wr_pos dist) [
    | yes lt ↦
        rw (length-history dd v, lt→ltb _ _ lt, f)
          (sym (at_full_far dd.hist dd.wr_pos dist v.write_in pos lt (ground arith)))
    | no ge ↦
        rw (length-history dd v, le→ltb _ _ (not_lt ge), f)
          (sym (at_full_near dd.hist dd.wr_pos dist v.write_in pos (not_lt ge)))
  ]
  | inr f ↦
      let near : dist ≤ dd.wr_pos = ground arith in
      rw (length-history dd v, le→ltb _ _ near, f)
        (sym (at_short dd.hist dd.wr_pos dist v.write_in pos near))
]
