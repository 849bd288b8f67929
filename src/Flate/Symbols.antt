-- ===== src/Flate/Symbols.antt =====
-- gsip/internal/flate/inflate.go, `huffSym` and `readHuffman`.
use Prim.Native.Nat.{bit_and}
use targz.Prelude.{
  ℕ, zero, suc, ◌+◌, ◌-◌, ◌/◌, ◌%◌, ◌^◌, List, [], ◌∷◌, true, false, none, some, ltb, leb, ◌==◌,
  if◌then◌else◌, get_or, set,
}
use targz.Prelude.Slices.{slice}
use targz.Flate.Source.{corrupt, internal}
use targz.Flate.Huffman
use targz.Flate.Huffman.{HuffmanDecoder, chunk_bits, num_chunks}
use targz.Flate.State.{
  Decompressor, Action, done, failed, panicked, stuck, pure, ◌>>=◌, ◌>>◌, modify, gets, need_bits,
  take_bits, read_bits, max_num_lit, max_num_dist, num_codes, end_block_marker,
}

-- `CorruptInputError(f.roffset)`
abbrev pub corrupt_input : {A : Type 0} → Action A
corrupt_input f = failed (corrupt f.roffset) f

-- The entry for the bits at the front of `b`, behind a link too.
unfoldable pub lookup : HuffmanDecoder → ℕ → ℕ
lookup h b =
    let chunk = get_or h.chunks (b % num_chunks) 0 in
    if ltb chunk_bits (chunk % 16)
    then get_or (get_or h.links (chunk / 16) []) (bit_and (b / num_chunks) h.link_mask) 0
    else chunk

-- The rest of a round, with an entry and `nb` bits: an entry for more bits than that wants another
-- round, and one for no bits at all is no code.
unfoldable pub use_entry : ℕ → ℕ → Action ℕ → Action ℕ
unfolding take_bits
use_entry chunk nb retry f = elim (leb (chunk % 16) nb) [
  | true ↦ elim (chunk % 16 == 0) [
    | true ↦ failed (corrupt f.roffset) (record f { err = some (corrupt f.roffset) })
    | false ↦ (do _ ← take_bits (chunk % 16); pure (chunk / 16)) f
  ]
  | false ↦ retry f
]

-- `f.b`, `f.nb`: the code keeps them in local variables and writes them back wherever it returns.
-- It reads a byte only while `nb < n ≤ 15`, so the shift by `nb & 31` is one by `nb`.
unfoldable pub sym_loop : ℕ → HuffmanDecoder → ℕ → Action ℕ
unfolding need_bits lookup use_entry
sym_loop zero h n f = stuck
sym_loop (suc rounds) h n f =
    (do
      need_bits n n
      chunk ← gets (λ f. lookup h f.b)
      nb ← gets (λ f. f.nb)
      use_entry chunk nb (sym_loop rounds h (chunk % 16)))
      f

-- Each further round knows more bits, and an entry has at most 15.
unfoldable pub huff_sym : HuffmanDecoder → Action ℕ
unfolding sym_loop
huff_sym h = sym_loop 17 h h.min

abbrev pub code_order : List ℕ
code_order = 16 ∷ 17 ∷ 18 ∷ 0 ∷ 8 ∷ 7 ∷ 9 ∷ 6 ∷ 10 ∷ 5 ∷ 11 ∷ 4 ∷ 12 ∷ 3 ∷ 13 ∷ 2 ∷ 14 ∷ 1 ∷ 15 ∷ []

-- `f.codebits[codeOrder[i]] = x`
unfoldable pub set_codebits : ℕ → ℕ → Action Unit
set_codebits i x = modify (λ f. record f { codebits = set f.codebits (get_or code_order i 0) x })

-- `for i := 0; i < nclen; i++`
unfoldable pub read_codebits : ℕ → ℕ → Action Unit
unfolding set_codebits read_bits
read_codebits zero i = pure tt
read_codebits (suc rounds) i = do x ← read_bits 3; set_codebits i x; read_codebits rounds (i + 1)

-- `for i := nclen; i < len(codeOrder); i++`
unfoldable pub clear_codebits : ℕ → ℕ → Action Unit
unfolding set_codebits
clear_codebits zero i = pure tt
clear_codebits (suc rounds) i = do set_codebits i 0; clear_codebits rounds (i + 1)

-- `for j := 0; j < rep; j++ { f.bits[i] = b; i++ }`
unfoldable pub repeat_bits : ℕ → ℕ → ℕ → List ℕ → List ℕ
repeat_bits zero i b bits = bits
repeat_bits (suc rep) i b bits = repeat_bits rep (i + 1) b (set bits i b)

-- What symbols 16 to 18 repeat, how often at least, and how many bits count the rest.
pub record Repeat : Type 0 where
  pub rep : ℕ
  pub nb : ℕ
  pub b : ℕ

unfoldable pub repeat_of : ℕ → ℕ → Action Repeat
repeat_of x i f =
    if x == 16
    then (if i == 0
        then failed (corrupt f.roffset) f
        else done (record { rep = 3; nb = 2; b = get_or f.bits (i - 1) 0 }) f)
    else if x == 17
    then done (record { rep = 3; nb = 3; b = 0 }) f
    else if x == 18
    then done (record { rep = 11; nb = 7; b = 0 }) f
    else failed internal f

-- The lengths that a repeat sets, unless they pass `n`.
unfoldable pub use_repeat : Repeat → ℕ → ℕ → ℕ → (ℕ → Action Unit) → Action Unit
unfolding repeat_bits
use_repeat r more i n next = if ltb n (i + (r.rep + more)) then corrupt_input else do
  modify (λ f. record f { bits = repeat_bits (r.rep + more) i r.b f.bits })
  next (i + (r.rep + more))

-- What a symbol says of the lengths from `i` on, below `n`; `next` goes on behind them.
unfoldable pub use_length : ℕ → ℕ → ℕ → (ℕ → Action Unit) → Action Unit
unfolding repeat_of read_bits use_repeat
use_length x i n next = elim (ltb x 16) [
  | true ↦ do modify (λ f. record f { bits = set f.bits i x }); next (i + 1)
  | false ↦ do r ← repeat_of x i; more ← read_bits r.nb; use_repeat r more i n next
]

-- `for i < n`: every round sets a length at least, so `n` rounds are enough.
unfoldable pub read_lengths : ℕ → ℕ → ℕ → Action Unit
unfolding huff_sym use_length
read_lengths zero i n f = if ltb i n then stuck else done tt f
read_lengths (suc rounds) i n f = elim (ltb i n) [
  | true ↦
      (do h ← gets (λ f. f.h1); x ← huff_sym h; use_length x i n (λ j. read_lengths rounds j n)) f
  | false ↦ done tt f
]

unfoldable pub init_h1 : (Decompressor → List ℕ) → Action Unit
unfolding Huffman.init
init_h1 lengths f = elim (Huffman.init f.h1 (lengths f)) [
  | none ↦ panicked
  | some h ↦ done tt (record f { h1 = h })
]

unfoldable pub init_h2 : (Decompressor → List ℕ) → Action Unit
unfolding Huffman.init
init_h2 lengths f = elim (Huffman.init f.h2 (lengths f)) [
  | none ↦ panicked
  | some h ↦ done tt (record f { h2 = h })
]

-- HLIT, HDIST and HCLEN; `nb` is reduced when all three have been read.
unfoldable pub read_counts : Action (ℕ × ℕ × ℕ)
unfolding need_bits
read_counts = do
  need_bits 14 14
  nlit ← gets (λ f. f.b % 2 ^ 5 + 257)
  if ltb max_num_lit nlit then corrupt_input else do
    modify (λ f. record f { b = f.b / 2 ^ 5 })
    ndist ← gets (λ f. f.b % 2 ^ 5 + 1)
    if ltb max_num_dist ndist then corrupt_input else do
      modify (λ f. record f { b = f.b / 2 ^ 5 })
      nclen ← gets (λ f. f.b % 2 ^ 4 + 4)
      modify (λ f. record f { b = f.b / 2 ^ 4; nb = f.nb - 14 })
      pure (nlit, ndist, nclen)

-- No fewer bits are read at a time than the end-of-block symbol has.
unfoldable pub raise_min : Decompressor → Decompressor
raise_min f =
    let eob = get_or f.bits end_block_marker 0 in
    record f { h1 = record (f.h1) { min = if ltb f.h1.min eob then eob else f.h1.min } }

unfoldable pub read_huffman : Action Unit
unfolding read_counts read_codebits clear_codebits init_h1 init_h2 read_lengths raise_min
read_huffman = do
  (nlit, ndist, nclen) ← read_counts
  read_codebits nclen 0
  clear_codebits (num_codes - nclen) nclen
  init_h1 (λ f. f.codebits)
  read_lengths (nlit + ndist) 0 (nlit + ndist)
  init_h1 (λ f. slice f.bits 0 nlit)
  init_h2 (λ f. slice f.bits nlit (nlit + ndist))
  modify raise_min
