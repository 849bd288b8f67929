-- ===== src/Gzip/Crc.antt =====
-- `hash/crc32` of Go's standard library, as far as gunzip.go uses it: the IEEE checksum, bit by bit
-- with the reversed polynomial 0xEDB88320.
use targz.Prelude.{
  ℕ, zero, suc, ◌-◌, ◌/◌, ◌%◌, ◌^◌, ◌≡◌, refl, List, [], ◌∷◌, ◌==◌, if◌then◌else◌, bit_xor,
}

abbrev ieee : ℕ
ieee = 3988292384

-- One bit of the division: shifted out, the polynomial is added.
unfoldable shift_bit : ℕ → ℕ
shift_bit crc = if crc % 2 == 1 then bit_xor (crc / 2) ieee else crc / 2

unfoldable shift_bits : ℕ → ℕ → ℕ
unfolding shift_bit
shift_bits zero crc = crc
shift_bits (suc n) crc = shift_bits n (shift_bit crc)

-- A byte of the text, in 32 bits.
unfoldable pub feed_byte : ℕ → ℕ → ℕ
unfolding shift_bits
feed_byte crc c = shift_bits 8 (bit_xor crc c) % 2 ^ 32

unfoldable pub feed : ℕ → List ℕ → ℕ
unfolding feed_byte
feed crc [] = crc
feed crc (c ∷ cs) = feed (feed_byte crc c) cs

-- `^crc` on 32 bits
unfoldable pub complement : ℕ → ℕ
complement crc = 2 ^ 32 - 1 - crc % 2 ^ 32

-- `crc32.Update(crc, crc32.IEEETable, p)`
unfoldable pub update : ℕ → List ℕ → ℕ
unfolding feed complement
update crc p = complement (feed (complement crc) p)

-- `crc32.ChecksumIEEE(p)`
unfoldable pub checksum_ieee : List ℕ → ℕ
unfolding update
checksum_ieee p = update 0 p

check_value : checksum_ieee (49 ∷ 50 ∷ 51 ∷ 52 ∷ 53 ∷ 54 ∷ 55 ∷ 56 ∷ 57 ∷ []) ≡ 3421780262
unfolding checksum_ieee
check_value = refl
