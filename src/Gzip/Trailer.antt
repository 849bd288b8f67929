-- ===== src/Gzip/Trailer.antt =====
-- gsip/internal/gzip/gunzip.go, the trailer behind a member: the checksum and the size.
use targz.Prelude.{
  ℕ, ◌%◌, ◌^◌, ◌≤◌, ◌≡◌, ◌∙◌, ◌↔◌, sym, ap, List, none, take, drop, length, get_or-take_lt,
  get_or-drop, arith,
}
use targz.Gzip.Crc.{checksum_ieee}
use targz.Gzip.State.{Trailer, Reader, fill}
use targz.Gzip.Header.{uint32}
use targz.Gzip.Reading.{compare_trailer, trailer_of, trailer_read, check_trailer}
use targz.Gzip.Consumed.{fill_enough}

module _ (b : List ℕ) where
  uint32-take : uint32 (take 4 (take 8 b)) ≡ uint32 b
  unfolding uint32
  uint32-take = omega (
    arith,
    get_or-take_lt 4 (take 8 b) 0 0 (omega arith),
    get_or-take_lt 8 b 0 0 (omega arith),
    get_or-take_lt 4 (take 8 b) 1 0 (omega arith),
    get_or-take_lt 8 b 1 0 (omega arith),
    get_or-take_lt 4 (take 8 b) 2 0 (omega arith),
    get_or-take_lt 8 b 2 0 (omega arith),
    get_or-take_lt 4 (take 8 b) 3 0 (omega arith),
    get_or-take_lt 8 b 3 0 (omega arith),
  )

  uint32-drop : uint32 (drop 4 (take 8 b)) ≡ uint32 (drop 4 b)
  unfolding uint32
  uint32-drop = omega (
    arith,
    get_or-drop 4 (take 8 b) 0 0,
    get_or-take_lt 8 b 4 0 (omega arith),
    get_or-drop 4 b 0 0,
    get_or-drop 4 (take 8 b) 1 0,
    get_or-take_lt 8 b 5 0 (omega arith),
    get_or-drop 4 b 1 0,
    get_or-drop 4 (take 8 b) 2 0,
    get_or-take_lt 8 b 6 0 (omega arith),
    get_or-drop 4 b 2 0,
    get_or-drop 4 (take 8 b) 3 0,
    get_or-take_lt 8 b 7 0 (omega arith),
    get_or-drop 4 b 3 0,
  )

-- A reader that has not been resumed accepts just its own sums.
compare_trailer-accepts :
    (t : Trailer) (z : Reader)
    → ((compare_trailer none t z).0 ≡ none) ↔ ((t.digest ≡ z.digest) × (t.size ≡ z.size))
unfolding compare_trailer
compare_trailer-accepts t z = (λ h. ground arith, λ h. ground arith)

seen :
    (z : Reader)
    → z.from ≡ none
    → 8 ≤ length z.r.source.rest
    → (check_trailer z).0
      ≡ (compare_trailer none (trailer_of (take 8 z.r.source.rest)) (fill 8 z).1).0
unfolding check_trailer trailer_read fill
seen z no_from enough =
    let (no_err, bytes) = fill_enough 8 z enough in
    ap (λ o. (trailer_read o (fill 8 z).0.0 (fill 8 z).1).0) no_err
    ∙ ap (λ b. (trailer_read none b (fill 8 z).1).0) bytes
    ∙ ap (λ from. (compare_trailer from (trailer_of (take 8 z.r.source.rest)) (fill 8 z).1).0)
        no_from

-- A reader that has not been resumed, whose digest and size are the checksum and the size of the
-- bytes of the member, accepts eight bytes or more at the end of the member just when the first
-- four are that checksum and the next four that size, modulo 2^32.
pub check_trailer-accepts :
    (z : Reader) (m : List ℕ)
    → z.from ≡ none
    → z.digest ≡ checksum_ieee m
    → z.size ≡ length m % 2 ^ 32
    → 8 ≤ length z.r.source.rest
    → ((check_trailer z).0 ≡ none) ↔ (
        (uint32 z.r.source.rest ≡ checksum_ieee m)
        × (uint32 (drop 4 z.r.source.rest) ≡ length m % 2 ^ 32))
unfolding check_trailer trailer_read trailer_of fill
check_trailer-accepts z m no_from digest size enough =
    let rest = z.r.source.rest in
    let accepts = compare_trailer-accepts (trailer_of (take 8 rest)) (fill 8 z).1 in
    let same = seen z no_from enough in
    (
      λ h.
          let (d, s) = accepts.0 (sym same ∙ h) in
          (sym (uint32-take rest) ∙ d ∙ digest, sym (uint32-drop rest) ∙ s ∙ size),
      λ (d, s).
          same ∙ accepts.1 (uint32-take rest ∙ d ∙ sym digest, uint32-drop rest ∙ s ∙ sym size),
    )
