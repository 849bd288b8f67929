-- ===== src/Flate/Huffman.antt =====
-- gsip/internal/flate/inflate.go, `huffmanDecoder` and its `init`.
-- An entry of a table is `value << 4 | bits`; as the number of bits is below 16, `|` is `+`.
-- `none` stands for a panic: the constant `sanity` is true, so `init` panics where it finds the
-- code incomplete, and its `return false` is never reached.
use targz.Prelude.{
  ℕ, zero, suc, ◌+◌, ◌-◌, ◌*◌, ◌/◌, ◌%◌, ◌^◌, List, [], ◌∷◌, Bool, true, false, not, ◌&&◌, ◌||◌,
  Option, none, some, length, get_or, set, replicate, ltb, ◌==◌, if◌then◌else◌,
}

abbrev pub max_code_len : ℕ
max_code_len = 16

abbrev pub chunk_bits : ℕ
chunk_bits = 9

abbrev pub num_chunks : ℕ
num_chunks = 2 ^ chunk_bits

pub record HuffmanDecoder : Type 0 where
  pub min : ℕ
  pub chunks : List ℕ
  pub links : List (List ℕ)
  pub link_mask : ℕ

-- The zero value.
unfoldable pub empty : HuffmanDecoder
empty = record { min = 0; chunks = replicate num_chunks 0; links = []; link_mask = 0 }

-- The last `k` binary digits of `x`, in reverse, behind those of `acc`.
unfoldable pub reverse_loop : ℕ → ℕ → ℕ → ℕ
reverse_loop zero x acc = acc
reverse_loop (suc k) x acc = reverse_loop k (x / 2) (acc * 2 + x % 2)

-- `bits.Reverse16`
unfoldable pub reverse16 : ℕ → ℕ
unfolding reverse_loop
reverse16 x = reverse_loop 16 x 0

-- The shortest and the longest code, and how many codes there are of each length.
pub record Tally : Type 0 where
  pub min : ℕ
  pub max : ℕ
  pub count : List ℕ

unfoldable pub tally : List ℕ → Tally → Tally
tally [] t = t
tally (n ∷ lengths) t = tally lengths (
    if n == 0 then t else record {
      min = if t.min == 0 || ltb n t.min then n else t.min;
      max = if ltb t.max n then n else t.max;
      count = set t.count n (get_or t.count n 0 + 1);
    })

abbrev pub no_codes : Tally
no_codes = record { min = 0; max = 0; count = replicate max_code_len 0 }

-- `for i := min; i <= max; i++`: the first code of each length, and the code after the last.
unfoldable pub next_codes : ℕ → ℕ → List ℕ → ℕ → List ℕ → ℕ × List ℕ
next_codes zero i count code nextcode = (code, nextcode)
next_codes (suc rounds) i count code nextcode =
    next_codes rounds (i + 1) count (code * 2 + get_or count i 0) (set nextcode i (code * 2))

-- `for off := start; off < len(tab); off += step`: every entry must be free. The step is at least
-- 2, so `len(tab)` rounds are enough.
unfoldable pub fill_table : ℕ → List ℕ → ℕ → ℕ → ℕ → Option (List ℕ)
fill_table zero tab off step chunk = some tab
fill_table (suc rounds) tab off step chunk =
    let rest = fill_table rounds (set tab off chunk) (off + step) step chunk in
    if ltb off (length tab) then (if get_or tab off 0 == 0 then rest else none) else some tab

-- `for j := uint(link); j < huffmanNumChunks; j++`: the entries that point to link tables.
unfoldable pub make_links : ℕ → ℕ → ℕ → ℕ → HuffmanDecoder → Option HuffmanDecoder
unfolding reverse16
make_links zero j link num_links h = some h
make_links (suc rounds) j link num_links h =
    let reverse = reverse16 j / 2 ^ (16 - chunk_bits) in
    let rest = make_links rounds (j + 1) link num_links (record h {
      chunks = set h.chunks reverse ((j - link) * 16 + (chunk_bits + 1));
      links = set h.links (j - link) (replicate num_links 0);
    }) in
    if get_or h.chunks reverse 0 == 0 then rest else none

-- The table entries of one symbol with a code of `n` bits.
unfoldable pub place : HuffmanDecoder → ℕ → ℕ → ℕ → Option HuffmanDecoder
unfolding reverse16 fill_table
place h i n code =
    let chunk = i * 16 + n in
    let reverse = reverse16 code / 2 ^ (16 - n) in
    let j = reverse % num_chunks in
    let value = get_or h.chunks j 0 / 16 in
    let linktab = get_or h.links value [] in
    if ltb chunk_bits n
    then (if get_or h.chunks j 0 % 16 == chunk_bits + 1
        then elim (fill_table (length linktab) linktab (reverse / num_chunks) (2 ^ (n - chunk_bits))
            chunk) [ none ↦ none | some tab ↦ some (record h { links = set h.links value tab }) ]
        else none)
    else elim (fill_table (length h.chunks) h.chunks reverse (2 ^ n) chunk) [
      | none ↦ none
      | some tab ↦ some (record h { chunks = tab })
    ]

-- `for i, n := range lengths`
unfoldable pub place_all : List ℕ → ℕ → List ℕ → HuffmanDecoder → Option HuffmanDecoder
unfolding place
place_all [] i nextcode h = some h
place_all (n ∷ lengths) i nextcode h =
    let code = get_or nextcode n 0 in
    elim (if n == 0 then some h else place h i n code) [
      | none ↦ none
      | some h' ↦
          place_all lengths (i + 1) (if n == 0 then nextcode else set nextcode n (code + 1)) h'
    ]

-- The last check: no entry is left free, but for the odd ones of a single code.
unfoldable pub chunks_full : Bool → ℕ → List ℕ → Bool
chunks_full single i [] = true
chunks_full single i (c ∷ cs) =
    (not (c == 0) || (single && i % 2 == 1)) && chunks_full single (i + 1) cs

unfoldable pub links_full : List (List ℕ) → Bool
unfolding chunks_full
links_full [] = true
links_full (tab ∷ tabs) = chunks_full false 0 tab && links_full tabs

-- The tables of a complete code: `max` is the longest code, `code` the one after the last.
unfoldable pub build : HuffmanDecoder → List ℕ → Tally → ℕ → List ℕ → Option HuffmanDecoder
unfolding make_links place_all chunks_full links_full
build h lengths t code nextcode =
    let link = get_or nextcode (chunk_bits + 1) 0 / 2 in
    let num_links = 2 ^ (t.max - chunk_bits) in
    let linked : Option HuffmanDecoder =
      if ltb chunk_bits t.max
      then make_links (num_chunks - link) link link num_links (record h {
        min = t.min;
        link_mask = num_links - 1;
        links = replicate (num_chunks - link) [];
      })
      else some (record h { min = t.min }) in
    elim linked [
      | none ↦ none
      | some h₁ ↦ elim (place_all lengths 0 nextcode h₁) [
        | none ↦ none
        | some h₂ ↦
            if chunks_full (code == 1) 0 h₂.chunks && links_full h₂.links then some h₂ else none
      ]
    ]

-- Every bit sequence is assigned, or there is a single code of one bit.
unfoldable pub complete : ℕ → ℕ → Bool
complete code max = code == 2 ^ max || (code == 1 && max == 1)

unfoldable pub init : HuffmanDecoder → List ℕ → Option HuffmanDecoder
unfolding empty tally next_codes build complete
init h lengths =
    let h₀ = if h.min == 0 then h else empty in
    let t = tally lengths no_codes in
    let (code, nextcode) =
      next_codes (t.max + 1 - t.min) t.min t.count 0 (replicate max_code_len 0) in
    let built = build h₀ lengths t code nextcode in
    if t.max == 0 then some h₀ else if complete code t.max then built else none
