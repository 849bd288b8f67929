-- ===== src/Gzip/Sums.antt =====
-- What the sums over a text are made of: a checksum goes on where it stopped.
use targz.Prelude.{
  ℕ, ◌+◌, ◌%◌, ◌^◌, ◌<◌, ◌≡◌, ◌∙◌, refl, ap, List, [], ◌∷◌, ◌++◌, length, length-append, arith,
}
use targz.Gzip.Crc.{feed_byte, feed, complement, update, checksum_ieee}

feed-append : (crc : ℕ) (xs ys : List ℕ) → feed (feed crc xs) ys ≡ feed crc (xs ++ ys)
unfolding feed
feed-append crc [] ys = refl
feed-append crc (x ∷ xs) ys = feed-append (feed_byte crc x) xs ys

byte_in : (crc c : ℕ) → feed_byte crc c < 2 ^ 32
unfolding feed_byte
byte_in crc c = omega arith

feed_in : (crc : ℕ) (xs : List ℕ) → crc < 2 ^ 32 → feed crc xs < 2 ^ 32
unfolding feed
feed_in crc [] h = h
feed_in crc (x ∷ xs) h = feed_in (feed_byte crc x) xs (byte_in crc x)

complement_in : (crc : ℕ) → complement crc < 2 ^ 32
unfolding complement
complement_in crc = omega arith

complement-complement : (crc : ℕ) → crc < 2 ^ 32 → complement (complement crc) ≡ crc
unfolding complement
complement-complement crc h = omega arith

-- The checksum of two texts, one behind the other.
pub update-append : (crc : ℕ) (xs ys : List ℕ) → update (update crc xs) ys ≡ update crc (xs ++ ys)
unfolding update
update-append crc xs ys =
    ap (λ c. complement (feed c ys))
      (complement-complement (feed (complement crc) xs)
        (feed_in (complement crc) xs (complement_in crc)))
    ∙ ap complement (feed-append (complement crc) xs ys)

-- What `Read` does with the size and the checksum.
pub checksum_ieee-append :
    (digest : ℕ) (m bytes : List ℕ)
    → digest ≡ checksum_ieee m
    → update digest bytes ≡ checksum_ieee (m ++ bytes)
unfolding checksum_ieee
checksum_ieee-append digest m bytes e = ap (λ d. update d bytes) e ∙ update-append 0 m bytes

pub size_append :
    (size : ℕ) (m bytes : List ℕ)
    → size ≡ length m % 2 ^ 32
    → (size + length bytes) % 2 ^ 32 ≡ length (m ++ bytes) % 2 ^ 32
size_append size m bytes e = omega (arith, e, length-append m bytes)

-- The checksum of nothing
pub checksum_ieee_nothing : checksum_ieee [] ≡ 0
unfolding checksum_ieee
checksum_ieee_nothing = refl
