-- ===== src/Flate/Token.antt =====
-- gsip/internal/flate/token.go: tokens of the compressor and its code tables. Indexing out of a table's
-- range panics: none.
pub mod Packing
pub mod Codes
pub mod Distances
mod Tests
use targz.Prelude.{
  ℕ, ◌+◌, ◌-◌, ◌*◌, ◌/◌, ◌%◌, ◌^◌, List, [], ◌∷◌, Option, none, some, map, ltb, if◌then◌else◌,
  length, get_elem?,
}

abbrev pub length_shift : ℕ
length_shift = 22

abbrev pub literal_type : ℕ
literal_type = 0

abbrev pub match_type : ℕ
match_type = 1073741824

unfoldable pub length_codes : List ℕ
length_codes =
    0 ∷ 1 ∷ 2 ∷ 3 ∷ 4 ∷ 5 ∷ 6 ∷ 7 ∷ 8 ∷ 8 ∷ 9 ∷ 9 ∷ 10 ∷ 10 ∷ 11 ∷ 11 ∷ 12 ∷ 12 ∷ 12 ∷ 12 ∷ 13 ∷ 13
    ∷ 13 ∷ 13 ∷ 14 ∷ 14 ∷ 14 ∷ 14 ∷ 15 ∷ 15 ∷ 15 ∷ 15 ∷ 16 ∷ 16 ∷ 16 ∷ 16 ∷ 16 ∷ 16 ∷ 16 ∷ 16 ∷ 17
    ∷ 17 ∷ 17 ∷ 17 ∷ 17 ∷ 17 ∷ 17 ∷ 17 ∷ 18 ∷ 18 ∷ 18 ∷ 18 ∷ 18 ∷ 18 ∷ 18 ∷ 18 ∷ 19 ∷ 19 ∷ 19 ∷ 19
    ∷ 19 ∷ 19 ∷ 19 ∷ 19 ∷ 20 ∷ 20 ∷ 20 ∷ 20 ∷ 20 ∷ 20 ∷ 20 ∷ 20 ∷ 20 ∷ 20 ∷ 20 ∷ 20 ∷ 20 ∷ 20 ∷ 20
    ∷ 20 ∷ 21 ∷ 21 ∷ 21 ∷ 21 ∷ 21 ∷ 21 ∷ 21 ∷ 21 ∷ 21 ∷ 21 ∷ 21 ∷ 21 ∷ 21 ∷ 21 ∷ 21 ∷ 21 ∷ 22 ∷ 22
    ∷ 22 ∷ 22 ∷ 22 ∷ 22 ∷ 22 ∷ 22 ∷ 22 ∷ 22 ∷ 22 ∷ 22 ∷ 22 ∷ 22 ∷ 22 ∷ 22 ∷ 23 ∷ 23 ∷ 23 ∷ 23 ∷ 23
    ∷ 23 ∷ 23 ∷ 23 ∷ 23 ∷ 23 ∷ 23 ∷ 23 ∷ 23 ∷ 23 ∷ 23 ∷ 23 ∷ 24 ∷ 24 ∷ 24 ∷ 24 ∷ 24 ∷ 24 ∷ 24 ∷ 24
    ∷ 24 ∷ 24 ∷ 24 ∷ 24 ∷ 24 ∷ 24 ∷ 24 ∷ 24 ∷ 24 ∷ 24 ∷ 24 ∷ 24 ∷ 24 ∷ 24 ∷ 24 ∷ 24 ∷ 24 ∷ 24 ∷ 24
    ∷ 24 ∷ 24 ∷ 24 ∷ 24 ∷ 24 ∷ 25 ∷ 25 ∷ 25 ∷ 25 ∷ 25 ∷ 25 ∷ 25 ∷ 25 ∷ 25 ∷ 25 ∷ 25 ∷ 25 ∷ 25 ∷ 25
    ∷ 25 ∷ 25 ∷ 25 ∷ 25 ∷ 25 ∷ 25 ∷ 25 ∷ 25 ∷ 25 ∷ 25 ∷ 25 ∷ 25 ∷ 25 ∷ 25 ∷ 25 ∷ 25 ∷ 25 ∷ 25 ∷ 26
    ∷ 26 ∷ 26 ∷ 26 ∷ 26 ∷ 26 ∷ 26 ∷ 26 ∷ 26 ∷ 26 ∷ 26 ∷ 26 ∷ 26 ∷ 26 ∷ 26 ∷ 26 ∷ 26 ∷ 26 ∷ 26 ∷ 26
    ∷ 26 ∷ 26 ∷ 26 ∷ 26 ∷ 26 ∷ 26 ∷ 26 ∷ 26 ∷ 26 ∷ 26 ∷ 26 ∷ 26 ∷ 27 ∷ 27 ∷ 27 ∷ 27 ∷ 27 ∷ 27 ∷ 27
    ∷ 27 ∷ 27 ∷ 27 ∷ 27 ∷ 27 ∷ 27 ∷ 27 ∷ 27 ∷ 27 ∷ 27 ∷ 27 ∷ 27 ∷ 27 ∷ 27 ∷ 27 ∷ 27 ∷ 27 ∷ 27 ∷ 27
    ∷ 27 ∷ 27 ∷ 27 ∷ 27 ∷ 27 ∷ 28 ∷ []

unfoldable pub offset_codes : List ℕ
offset_codes =
    0 ∷ 1 ∷ 2 ∷ 3 ∷ 4 ∷ 4 ∷ 5 ∷ 5 ∷ 6 ∷ 6 ∷ 6 ∷ 6 ∷ 7 ∷ 7 ∷ 7 ∷ 7 ∷ 8 ∷ 8 ∷ 8 ∷ 8 ∷ 8 ∷ 8 ∷ 8 ∷ 8
    ∷ 9 ∷ 9 ∷ 9 ∷ 9 ∷ 9 ∷ 9 ∷ 9 ∷ 9 ∷ 10 ∷ 10 ∷ 10 ∷ 10 ∷ 10 ∷ 10 ∷ 10 ∷ 10 ∷ 10 ∷ 10 ∷ 10 ∷ 10 ∷ 10
    ∷ 10 ∷ 10 ∷ 10 ∷ 11 ∷ 11 ∷ 11 ∷ 11 ∷ 11 ∷ 11 ∷ 11 ∷ 11 ∷ 11 ∷ 11 ∷ 11 ∷ 11 ∷ 11 ∷ 11 ∷ 11 ∷ 11
    ∷ 12 ∷ 12 ∷ 12 ∷ 12 ∷ 12 ∷ 12 ∷ 12 ∷ 12 ∷ 12 ∷ 12 ∷ 12 ∷ 12 ∷ 12 ∷ 12 ∷ 12 ∷ 12 ∷ 12 ∷ 12 ∷ 12
    ∷ 12 ∷ 12 ∷ 12 ∷ 12 ∷ 12 ∷ 12 ∷ 12 ∷ 12 ∷ 12 ∷ 12 ∷ 12 ∷ 12 ∷ 12 ∷ 13 ∷ 13 ∷ 13 ∷ 13 ∷ 13 ∷ 13
    ∷ 13 ∷ 13 ∷ 13 ∷ 13 ∷ 13 ∷ 13 ∷ 13 ∷ 13 ∷ 13 ∷ 13 ∷ 13 ∷ 13 ∷ 13 ∷ 13 ∷ 13 ∷ 13 ∷ 13 ∷ 13 ∷ 13
    ∷ 13 ∷ 13 ∷ 13 ∷ 13 ∷ 13 ∷ 13 ∷ 13 ∷ 14 ∷ 14 ∷ 14 ∷ 14 ∷ 14 ∷ 14 ∷ 14 ∷ 14 ∷ 14 ∷ 14 ∷ 14 ∷ 14
    ∷ 14 ∷ 14 ∷ 14 ∷ 14 ∷ 14 ∷ 14 ∷ 14 ∷ 14 ∷ 14 ∷ 14 ∷ 14 ∷ 14 ∷ 14 ∷ 14 ∷ 14 ∷ 14 ∷ 14 ∷ 14 ∷ 14
    ∷ 14 ∷ 14 ∷ 14 ∷ 14 ∷ 14 ∷ 14 ∷ 14 ∷ 14 ∷ 14 ∷ 14 ∷ 14 ∷ 14 ∷ 14 ∷ 14 ∷ 14 ∷ 14 ∷ 14 ∷ 14 ∷ 14
    ∷ 14 ∷ 14 ∷ 14 ∷ 14 ∷ 14 ∷ 14 ∷ 14 ∷ 14 ∷ 14 ∷ 14 ∷ 14 ∷ 14 ∷ 14 ∷ 14 ∷ 15 ∷ 15 ∷ 15 ∷ 15 ∷ 15
    ∷ 15 ∷ 15 ∷ 15 ∷ 15 ∷ 15 ∷ 15 ∷ 15 ∷ 15 ∷ 15 ∷ 15 ∷ 15 ∷ 15 ∷ 15 ∷ 15 ∷ 15 ∷ 15 ∷ 15 ∷ 15 ∷ 15
    ∷ 15 ∷ 15 ∷ 15 ∷ 15 ∷ 15 ∷ 15 ∷ 15 ∷ 15 ∷ 15 ∷ 15 ∷ 15 ∷ 15 ∷ 15 ∷ 15 ∷ 15 ∷ 15 ∷ 15 ∷ 15 ∷ 15
    ∷ 15 ∷ 15 ∷ 15 ∷ 15 ∷ 15 ∷ 15 ∷ 15 ∷ 15 ∷ 15 ∷ 15 ∷ 15 ∷ 15 ∷ 15 ∷ 15 ∷ 15 ∷ 15 ∷ 15 ∷ 15 ∷ 15
    ∷ 15 ∷ 15 ∷ []

unfoldable pub literal_token : ℕ → ℕ
literal_token literal = (literal_type + literal) % 2 ^ 32

-- `matchType + xlength<<lengthShift + xoffset`
unfoldable pub match_token : ℕ → ℕ → ℕ
match_token xlength xoffset = (match_type + xlength * 2 ^ length_shift % 2 ^ 32 + xoffset) % 2 ^ 32

-- `t - x` on 32 bits
abbrev pub minus : ℕ → ℕ → ℕ
minus t x = (t + 2 ^ 32 - x) % 2 ^ 32

unfoldable pub literal : ℕ → ℕ
literal t = minus t literal_type

-- `t & offsetMask`
unfoldable pub offset : ℕ → ℕ
offset t = t % 2 ^ length_shift

unfoldable pub token_length : ℕ → ℕ
token_length t = minus t match_type / 2 ^ length_shift

unfoldable pub length_code : ℕ → Option ℕ
unfolding length_codes
length_code len = get_elem? length_codes len

abbrev pub plus : ℕ → Option ℕ → Option ℕ
plus k none = none
plus k (some c) = some (c + k)

unfoldable pub offset_code : ℕ → Option ℕ
unfolding offset_codes
offset_code off =
    if ltb off (length offset_codes)
    then get_elem? offset_codes off
    else if ltb (off / 2 ^ 7) (length offset_codes)
    then plus 14 (get_elem? offset_codes (off / 2 ^ 7))
    else plus 28 (get_elem? offset_codes (off / 2 ^ 14))
