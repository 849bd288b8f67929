-- ===== src/Flate/Reading.antt =====
-- gsip/internal/flate/inflate.go, what callers use: `Read`, `Close`, the constructors, `Reset` and
-- `Continue`.
use targz.Prelude.{
  ℕ, zero, suc, ◌+◌, List, [], true, false, Option, none, some, ltb, ◌==◌, if◌then◌else◌, take,
  drop, replicate, length,
}
use targz.Prelude.Slices.{copy_into}
use targz.Flate.Source.{Source, Error, eof}
use targz.Flate.Huffman
use targz.Flate.Dict
use targz.Flate.Dict.{DictDecoder}
use targz.Flate.Checkpoint.{Checkpoint}
use targz.Flate.State.{
  Decompressor, next_block, state_init, Action, done, stuck, ◌>>◌, modify, max_match_offset,
  max_num_lit, max_num_dist, num_codes,
}
use targz.Flate.Blocks.{flush, run_step}

-- `if len(f.toRead) > 0`: as much as fits `n` bytes, and the error with the last of it.
unfoldable pub deliver : ℕ → Decompressor → (List ℕ × Option Error) × Decompressor
deliver n f =
    let after : Decompressor = record f { to_read = drop n f.to_read } in
    ((take n f.to_read, if length after.to_read == 0 then f.err else none), after)

-- The two updates of `woffset` behind a step; after an error what is left in the window is flushed.
unfoldable pub settle : Decompressor → Decompressor
unfolding flush
settle f =
    let f₁ : Decompressor = record f { woffset = f.woffset + length f.to_read } in
    let f₂ = flush f₁ in
    elim f₁.err [
      | none ↦ f₁
      | some e ↦
          if length f₁.to_read == 0
          then record f₂ { woffset = f₂.woffset + length f₂.to_read }
          else f₁
    ]

-- `Read` into a buffer of `n` bytes: the bytes, and an error or nil.
unfoldable pub read : ℕ → ℕ → Action (List ℕ × Option Error)
unfolding deliver settle run_step
read zero n f = stuck
read (suc rounds) n f = elim (ltb 0 (length f.to_read)) [
  | true ↦ done (deliver n f).0 (deliver n f).1
  | false ↦ elim f.err [
    | some e ↦ done ([], some e) f
    | none ↦ (do run_step; modify settle; read rounds n) f
  ]
]

-- `Close`
unfoldable pub close : Decompressor → Option Error
close f = elim f.err [ none ↦ none | some e ↦ elim e [ eof ↦ none | e' ↦ some e' ] ]

-- The fields that every constructor sets alike.
unfoldable pub fresh : Source → DictDecoder → Decompressor
unfolding Huffman.empty
fresh r dict = record {
  r = r;
  roffset = 0;
  woffset = 0;
  b = 0;
  nb = 0;
  h1 = Huffman.empty;
  h2 = Huffman.empty;
  bits = replicate (max_num_lit + max_num_dist) 0;
  codebits = replicate num_codes 0;
  dict = dict;
  step = next_block;
  step_state = state_init;
  final = false;
  err = none;
  to_read = [];
  hl = none;
  hd = none;
  copy_len = 0;
  copy_dist = 0;
  span = 0;
  last = 0;
  updates = none;
}

-- `NewReader` and `NewReaderDict`
unfoldable pub new_reader_dict : Source → List ℕ → Decompressor
unfolding fresh Dict.init
new_reader_dict r dict = fresh r (Dict.init Dict.no_dict max_match_offset dict)

unfoldable pub new_reader : Source → Decompressor
unfolding new_reader_dict
new_reader r = new_reader_dict r []

-- `NewReaderWithSpans`
unfoldable pub new_reader_with_spans : Source → ℕ → ℕ → Option (List Checkpoint) → Decompressor
unfolding new_reader
new_reader_with_spans r span start updates = record (new_reader r) {
  roffset = start;
  last = start;
  span = span;
  updates = updates;
}

-- `Reset`
unfoldable pub reset : Source → List ℕ → ℕ → Decompressor → Decompressor
unfolding new_reader_dict
reset r dict roffset f = record (new_reader_dict r dict) {
  last = f.woffset;
  span = f.span;
  updates = f.updates;
  woffset = f.woffset;
  roffset = roffset;
}

-- The window of a checkpoint, in an array of the full size.
unfoldable pub restored : Checkpoint → DictDecoder
restored from = record {
  hist = (copy_into (replicate max_match_offset 0) 0 max_match_offset from.hist).1;
  wr_pos = from.wr_pos;
  rd_pos = from.rd_pos;
  full = from.full;
}

-- `Continue`
unfoldable pub continue_from : Source → Checkpoint → ℕ → Option (List Checkpoint) → Decompressor
unfolding fresh restored
continue_from r from span updates = record (fresh r (restored from)) {
  b = from.b;
  nb = from.nb;
  roffset = from.in_pos;
  woffset = from.out_pos;
  last = from.out_pos;
  updates = updates;
  span = span;
}

-- `Woffset`, `ToRead`, and gzip's `Offset`: the bytes that have been delivered.
unfoldable pub woffset : Decompressor → ℕ
woffset f = f.woffset

unfoldable pub to_read : Decompressor → ℕ
to_read f = length f.to_read
