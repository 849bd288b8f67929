-- ===== src/Tarfs/Text.antt =====
-- Texts that encoding/json reads back as they are: valid UTF-8, for which it needs no replacement.
use targz.Prelude.{
  ◌≡◌, refl, ℕ, zero, suc, List, [], ◌∷◌, Bool, true, false, ◌&&◌, ◌==◌, Option, none, some, leb,
  if◌then◌else◌,
}

within : ℕ → ℕ → ℕ → Bool
within lo hi c = leb lo c && leb c hi

-- The bytes that follow a first byte: how many, and between which two the next of them lies.
unfoldable first_byte : ℕ → Option (ℕ × ℕ × ℕ)
unfolding within
first_byte c =
    if within 0 127 c
    then some (0, 128, 191)
    else if within 194 223 c
    then some (1, 128, 191)
    else if c == 224
    then some (2, 160, 191)
    else if c == 237
    then some (2, 128, 159)
    else if within 225 239 c
    then some (2, 128, 191)
    else if c == 240
    then some (3, 144, 191)
    else if within 241 243 c
    then some (3, 128, 191)
    else if c == 244
    then some (3, 128, 143)
    else none

-- So many bytes of a character are still to come.
unfoldable is_utf8_rest : ℕ → ℕ → ℕ → List ℕ → Bool
unfolding first_byte within
is_utf8_rest zero lo hi [] = true
is_utf8_rest (suc k) lo hi [] = false
is_utf8_rest zero lo hi (c ∷ cs) = elim (first_byte c) [
  | none ↦ false
  | some (k, lo', hi') ↦ is_utf8_rest k lo' hi' cs
]
is_utf8_rest (suc k) lo hi (c ∷ cs) = within lo hi c && is_utf8_rest k 128 191 cs

unfoldable pub is_utf8 : List ℕ → Bool
unfolding is_utf8_rest
is_utf8 s = is_utf8_rest 0 128 191 s

-- "é" and "€", and a Latin-1 "é"
utf8_run : (is_utf8 (195 ∷ 169 ∷ 226 ∷ 130 ∷ 172 ∷ []) ≡ true) × (is_utf8 (233 ∷ []) ≡ false)
unfolding is_utf8
utf8_run = (refl, refl)
