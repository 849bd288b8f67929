-- ===== src/Flate/Blocks.antt =====
-- gsip/internal/flate/inflate.go, the steps of the decoder: `nextBlock`, `huffmanBlock`,
-- `dataBlock`, `copyData` and `finishBlock`.
use targz.Prelude.{
  ℕ, zero, suc, ◌+◌, ◌-◌, ◌*◌, ◌/◌, ◌%◌, ◌^◌, min, List, [], ◌∷◌, ◌++◌, Bool, true, false, ◌||◌,
  Option, none, some, ltb, ◌==◌, if◌then◌else◌, get_or, length, replicate,
}
use targz.Flate.Source.{Error, eof, corrupt, no_eof, Got, read_full}
use targz.Flate.Huffman
use targz.Flate.Huffman.{HuffmanDecoder, reverse_loop}
use targz.Flate.Dict
use targz.Flate.Dict.{DictDecoder}
use targz.Flate.Checkpoint.{Checkpoint}
use targz.Flate.State.{
  Decompressor, next_block, huffman_block, copy_data, StepState, state_init, state_dict, TableName,
  fixed_table, table1, table2, Action, done, failed, panicked, stuck, pure, ◌>>=◌, ◌>>◌, modify,
  gets, catch, read_bits, need_bits, max_num_lit, max_num_dist,
}
use targz.Flate.Symbols.{corrupt_input, huff_sym, read_huffman}

-- The checkpoint of `finishBlock`. Its history is a copy of the window.
unfoldable pub checkpoint_of : Decompressor → ℕ → Checkpoint
checkpoint_of f woffset = record {
  in_pos = f.roffset;
  out_pos = woffset;
  b = f.b;
  nb = f.nb;
  hist = f.dict.hist;
  wr_pos = f.dict.wr_pos;
  rd_pos = f.dict.rd_pos;
  full = f.dict.full;
  empty = false;
  gzip_header = none;
}

-- `if f.final`: the rest of the window is flushed, and the stream is at its end.
unfoldable pub flush_final : Decompressor → ℕ × Decompressor
flush_final f =
    let (bytes, dict) = Dict.read_flush f.dict in
    if f.final
    then (if ltb 0 (Dict.avail_read f.dict)
        then (f.woffset + length bytes, record f { to_read = bytes; dict = dict; err = some eof })
        else (f.woffset, record f { err = some eof }))
    else (f.woffset, f)

-- `if f.updates != nil && (woffset-f.last > f.span)`; the difference is signed.
unfoldable pub send_checkpoint : ℕ → Decompressor → Decompressor
unfolding checkpoint_of
send_checkpoint woffset f = elim f.updates [
  | none ↦ f
  | some sent ↦
      if ltb (f.last + f.span) woffset
      then record f { updates = some (sent ++ (checkpoint_of f woffset ∷ [])); last = woffset }
      else f
]

unfoldable pub finish_block : Decompressor → Decompressor
unfolding flush_final send_checkpoint
finish_block f =
    let (woffset, f₁) = flush_final f in
    let f₂ = send_checkpoint woffset f₁ in record f₂ { step = next_block }

-- `f.toRead = f.dict.readFlush()`
unfoldable pub flush : Decompressor → Decompressor
flush f = let (bytes, dict) = Dict.read_flush f.dict in record f { to_read = bytes; dict = dict }

-- The bytes that `copyData` reads go straight into the window.
unfoldable pub received : Decompressor → Got → ℕ → Decompressor
received f got cnt = record f {
  r = got.source;
  roffset = f.roffset + cnt;
  copy_len = f.copy_len - cnt;
  dict = Dict.write_mark (Dict.fill_slice f.dict got.bytes) cnt;
}

-- What `copyData` does behind `io.ReadFull`.
unfoldable pub after_read : Decompressor → Option Error → Decompressor
unfolding no_eof flush finish_block
after_read f err = elim err [
  | some e ↦ record f { err = some (no_eof e) }
  | none ↦
      if Dict.avail_write f.dict == 0 || ltb 0 f.copy_len
      then record (flush f) { step = copy_data }
      else finish_block f
]

-- `copyData`
unfoldable pub run_copy_data : Decompressor → Decompressor
unfolding read_full received after_read
run_copy_data f =
    let got = read_full (min (Dict.avail_write f.dict) f.copy_len) f.r in
    after_read (received f got (length got.bytes)) got.err

-- The length of a stored block and its complement agree.
unfoldable pub stored_length : List ℕ → Option ℕ
stored_length buf =
    let n = get_or buf 0 0 + get_or buf 1 0 * 256 in
    let nn = get_or buf 2 0 + get_or buf 3 0 * 256 in if nn == 65535 - n then some n else none

-- The four bytes of the length have been read.
unfoldable pub after_length : Decompressor → List ℕ → Option Error → Decompressor
unfolding no_eof stored_length flush finish_block run_copy_data
after_length f buf err = elim err [
  | some e ↦ record f { err = some (no_eof e) }
  | none ↦ elim (stored_length buf) [
    | none ↦ record f { err = some (corrupt f.roffset) }
    | some n ↦ if n == 0 then finish_block (flush f) else run_copy_data (record f { copy_len = n })
  ]
]

-- `dataBlock`
unfoldable pub data_block : Decompressor → Decompressor
unfolding read_full after_length
data_block f =
    let got = read_full 4 f.r in
    after_length
      (record f { nb = 0; b = 0; r = got.source; roffset = f.roffset + length got.bytes }) got.bytes
      got.err

-- `tryWriteCopy`, and `writeCopy` if that copied nothing.
unfoldable pub copy_match : DictDecoder → ℕ → ℕ → ℕ × DictDecoder
copy_match dd dist len =
    let (n, dd₁) = Dict.try_write_copy dd dist len in
    let second = Dict.write_copy dd₁ dist len in if n == 0 then second else (n, dd₁)

-- `copyHistory`: whether to go on with `readLiteral`.
unfoldable pub copy_history : Action Bool
unfolding copy_match flush
copy_history f =
    let (cnt, dict) = copy_match f.dict f.copy_dist f.copy_len in
    let f₁ : Decompressor = record f { dict = dict; copy_len = f.copy_len - cnt } in
    if Dict.avail_write dict == 0 || ltb 0 f₁.copy_len
    then done false (record (flush f₁) { step = huffman_block; step_state = state_dict })
    else done true f₁

-- The match length of a length symbol: what its extra bits are added to, and how many they are.
unfoldable pub length_base : ℕ → ℕ × ℕ
length_base v =
    if ltb v 265
    then (v - (257 - 3), 0)
    else if ltb v 269
    then (v * 2 - (265 * 2 - 11), 1)
    else if ltb v 273
    then (v * 4 - (269 * 4 - 19), 2)
    else if ltb v 277
    then (v * 8 - (273 * 8 - 35), 3)
    else if ltb v 281
    then (v * 16 - (277 * 16 - 67), 4)
    else if ltb v 285
    then (v * 32 - (281 * 32 - 131), 5)
    else (258, 0)

-- The distance of a symbol from 4 on with its extra bits, of which there are `dist_bits`. The
-- symbol's lowest bit stands above the extra bits, so `|` is `+`.
unfoldable pub dist_bits : ℕ → ℕ
dist_bits sym = (sym - 2) / 2

unfoldable pub dist_of : ℕ → ℕ → ℕ
unfolding dist_bits
dist_of sym extra = 2 ^ (dist_bits sym + 1) + 1 + (sym % 2 * 2 ^ dist_bits sym + extra)

-- `fixedHuffmanDecoder`, which `fixedHuffmanDecoderInit` fills once, before any decoder is made.
unfoldable pub fixed_bits : List ℕ
fixed_bits = replicate 144 8 ++ (replicate 112 9 ++ (replicate 24 7 ++ replicate 8 8))

unfoldable pub fixed_huffman_decoder : Option HuffmanDecoder
unfolding Huffman.init fixed_bits
fixed_huffman_decoder = Huffman.init Huffman.empty fixed_bits

-- What a pointer to a table points to; a nil pointer panics.
unfoldable pub table : Option TableName → Action HuffmanDecoder
table none f = panicked
table (some fixed_table) f = elim fixed_huffman_decoder [ none ↦ panicked | some h ↦ done h f ]
table (some table1) f = done f.h1 f
table (some table2) f = done f.h2 f

-- The distance symbol: five plain bits in a fixed block, a Huffman code in a dynamic one.
unfoldable pub dist_sym : Action ℕ
unfolding read_bits reverse_loop huff_sym table
dist_sym f = elim f.hd [
  | none ↦ (do x ← read_bits 5; pure (reverse_loop 8 (x * 2 ^ 3) 0)) f
  | some name ↦ (do h ← table (some name); huff_sym h) f
]

unfoldable pub read_dist : Action ℕ
unfolding dist_sym read_bits dist_bits dist_of
read_dist = do
  sym ← dist_sym
  if ltb sym 4
      then pure (sym + 1)
      else if ltb sym max_num_dist
      then (do extra ← read_bits (dist_bits sym); pure (dist_of sym extra))
      else corrupt_input

-- The length of the match, with its extra bits.
unfoldable pub length_of : ℕ → Action ℕ
unfolding length_base read_bits
length_of v = do
  extra ← if ltb 0 (length_base v).1 then read_bits (length_base v).1 else pure 0
  pure ((length_base v).0 + extra)

-- `No check on length; encoding can be prescient`: the distance is checked, and the copy begins.
unfoldable pub start_copy : ℕ → ℕ → Action Bool
unfolding copy_history
start_copy len dist f =
    if ltb (Dict.hist_size f.dict) dist
    then failed (corrupt f.roffset) f
    else copy_history (record f { copy_len = len; copy_dist = dist })

unfoldable pub read_match : ℕ → Action Bool
unfolding length_of read_dist start_copy
read_match v = do len ← length_of v; dist ← read_dist; start_copy len dist

unfoldable pub write_literal : ℕ → Action Bool
unfolding flush
write_literal v f =
    let f₁ : Decompressor = record f { dict = Dict.write_byte f.dict v } in
    if Dict.avail_write f₁.dict == 0
    then done false (record (flush f₁) { step = huffman_block; step_state = state_init })
    else done true f₁

-- The cases of the literal or length symbol.
unfoldable pub use_symbol : ℕ → Action Bool
unfolding write_literal finish_block read_match
use_symbol v f =
    if ltb v 256
    then write_literal v f
    else if v == 256
    then done false (finish_block f)
    else if ltb v max_num_lit
    then read_match v f
    else failed (corrupt f.roffset) f

-- `readLiteral`, with the `copyHistory` that follows it: whether to go on.
unfoldable pub read_literal : Action Bool
unfolding table huff_sym use_symbol
read_literal f = (do h ← table f.hl; v ← huff_sym h; use_symbol v) f

-- `goto readLiteral`: every round writes a byte at least, or it is the last.
unfoldable pub block_loop : ℕ → Action Unit
unfolding read_literal
block_loop zero f = stuck
block_loop (suc rounds) f =
    (do again ← read_literal; elim again [ true ↦ block_loop rounds | false ↦ pure tt ]) f

-- Where `huffmanBlock` starts or goes on.
unfoldable pub resume_block : ℕ → StepState → Action Unit
unfolding block_loop copy_history
resume_block rounds state_init = block_loop rounds
resume_block rounds state_dict = do
  again ← copy_history
  elim again [ true ↦ block_loop rounds | false ↦ pure tt ]

-- `huffmanBlock`
unfoldable pub run_huffman_block : Action Unit
unfolding resume_block
run_huffman_block f = catch (resume_block (suc (Dict.avail_write f.dict)) f.step_state) f

-- What follows the three header bits of a block.
unfoldable pub run_type : ℕ → Action Unit
unfolding data_block run_huffman_block read_huffman
run_type typ =
    if typ == 0
    then modify data_block
    else if typ == 1
    then (do modify (λ f. record f { hl = some fixed_table; hd = none }); run_huffman_block)
    else if typ == 2
    then (do
      read_huffman
      modify (λ f. record f { hl = some table1; hd = some table2 })
      run_huffman_block)
    else corrupt_input

-- `nextBlock`
unfoldable pub run_next_block : Action Unit
unfolding need_bits run_type
run_next_block = catch do
  need_bits 3 3
  modify (λ f. record f { final = f.b % 2 == 1; b = f.b / 2 })
  typ ← gets (λ f. f.b % 4)
  modify (λ f. record f { b = f.b / 4; nb = f.nb - 3 })
  run_type typ

-- `f.step(f)`
unfoldable pub run_step : Action Unit
unfolding run_next_block run_huffman_block run_copy_data
run_step f = elim f.step [
  | next_block ↦ run_next_block f
  | huffman_block ↦ run_huffman_block f
  | copy_data ↦ done tt (run_copy_data f)
]
