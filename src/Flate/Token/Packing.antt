-- ===== src/Flate/Token/Packing.antt =====
-- gsip/internal/flate/token.go: what is packed in a token is found in it again.
use targz.Prelude.{ℕ, ◌<◌, ◌≡◌, arith}
use targz.Flate.Token.{literal_token, match_token, literal, offset, token_length}

-- A match token of a length below 256 and an offset below 2^22 gives both back.
pub match_token-unpack :
    (xlength xoffset : ℕ)
    → xlength < 256
    → xoffset < 4194304
    → (token_length (match_token xlength xoffset) ≡ xlength)
      × (offset (match_token xlength xoffset) ≡ xoffset)
unfolding token_length match_token offset
match_token-unpack xlength xoffset hl ho = (omega arith, omega arith)

-- A literal.
pub literal-literal_token : (n : ℕ) → n < 4294967296 → literal (literal_token n) ≡ n
unfolding literal literal_token
literal-literal_token n h = omega arith
