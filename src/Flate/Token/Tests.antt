-- ===== src/Flate/Token/Tests.antt =====
-- Tokens and codes at concrete values.
use targz.Prelude.{ℕ, ◌+◌, ◌≡◌, some, arith, refl}
use targz.Flate.Token.{match_token, offset, token_length, length_code, offset_code}
use targz.Flate.Token.Packing.{match_token-unpack}
use targz.Flate.Token.Codes.{Reaches, codes_for, alone_for, length_code-length_base}
use targz.Flate.Token.Distances.{Decodes, offset_code-dist_of}
use targz.Flate.Blocks.{length_base}

match_token-unpack_example :
    (token_length (match_token 255 4194303) ≡ 255) × (offset (match_token 255 4194303) ≡ 4194303)
match_token-unpack_example = match_token-unpack 255 4194303 (omega arith) (omega arith)

length_code-length_base_example :
    (c : ℕ) × (length_code 21 ≡ some c)
    × Reaches (length_base (257 + c)) (21 + 3)
    × (codes_for (21 + 3) 29 ≡ alone_for 21 c)
length_code-length_base_example = length_code-length_base 21 (omega arith)

offset_code-dist_of_example : (c : ℕ) × (offset_code 32767 ≡ some c) × Decodes c (32767 + 1)
offset_code-dist_of_example = offset_code-dist_of 32767 (omega arith)

codes_run : (offset_code 3 ≡ some 3) × (offset_code 32767 ≡ some 29) × (length_code 9 ≡ some 8)
unfolding offset_code length_code
codes_run = (refl, refl, refl)
