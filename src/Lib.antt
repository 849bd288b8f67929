-- ===== src/Lib.antt =====
-- targz: reading a compressed tar file at any offset.
--
-- gsip reads gzip and keeps checkpoints of the decoder, from which it later resumes at an offset of
-- the output; tarfs serves a tar file through an io.ReaderAt as a file system; ranger reads over
-- HTTP ranges. Under all of them stands a fork of Go's DEFLATE decoder, which sends a checkpoint at
-- the end of a block when `span` bytes have passed since the last.
--
-- Prelude.antt and Prelude/ have the shared helpers: Boolean tests on numbers, lemmas on lists,
-- and slices (`copy` and `s[i:j]`).
--
-- Flate/ models gsip/internal/flate:
--   Dict.antt      dict_decoder.go: the window `dictDecoder` and its methods. Dict/ has its proofs:
--                  Valid (the invariant), Copy and Loop (the copy byte by byte), Paths and Refine (the
--                  branches of writeCopy), History and Window (the window as a bounded history), Start
--                  (what `init` makes of a dictionary).
--   Source.antt    the io.Reader and io.ByteReader that the decoder reads: its bytes and the error at
--                  their end.
--   Huffman.antt   `huffmanDecoder` and its `init`.
--   Checkpoint.antt  `Checkpoint` with its methods.
--   State.antt     `Decompressor`, how a call ends (a value, an error, a panic), reading bits.
--   Symbols.antt   `huffSym` and `readHuffman`.
--   Blocks.antt    the steps: `nextBlock`, `huffmanBlock`, `dataBlock`, `copyData`, `finishBlock`.
--   Reading.antt   `Read`, `Close`, the constructors, `Reset`, `Continue`.
--   Token.antt     token.go: tokens and the code tables of the compressor. Token/ has the proofs.
--   Sound.antt and Sound/  what every step keeps and uses up: Bits, Symbols, Copies, Histories, Steps,
--                  Loop, Stored and Whole go through the operations from reading a bit to the step,
--                  Offsets to a round of `Read` and Reads to the call; Starts has the constructors.
--   Resume.antt and Resume/  two decoders that agree in what the next step needs: Blind (reading bits),
--                  Lengths, Tables, Codes, Sizes and Blocks (the tables of a block), Copying, Loop,
--                  Stored and Steps (a step), Reads (`Read`) and Resumed (`Continue`).
--
-- Gzip/ models gsip/internal/gzip/gunzip.go:
--   Crc.antt       hash/crc32, bit by bit. Sums.antt has the checksum of texts behind one another.
--   State.antt     `Reader`, `Header`, `Trailer`, `countReader`.
--   Header.antt    `readString` and the fields of a header.
--   Members.antt   `toFlateHeader`, `readHeader`.
--   Reading.antt   the constructors, `Reset`, `Read` and its loop over the members, `Close`, `Offset`.
--   Running.antt   what holds inside a member, and a call of the decompressor.
--   Consumed, Started  what reading a header keeps, and that a member then begins.
--   Fields.antt    the header of RFC 1952 written out; Encoded, RoundTrip and Parses read it back.
--   Strings, Errors  the bounds of `readString`, and when a header ends in io.EOF.
--   Trailer, Followed, Ends, Opens  the trailer, the next member, `Read` as a whole, the constructors.
--
-- Gsip.antt models `acquireReader` and `ReadAt` of gsip/gsip.go, over an interface to gzip's readers, of
-- which no laws are assumed. Gsip/Choice.antt describes which reader is chosen for an offset, and
-- Gsip/Store.antt has `NewReader`, the collecting of the checkpoints, `Encode` and `Decode`.
--
-- Ranger.antt models ranger/ranger.go over a transport that is a parameter; Ranger/Redirects.antt follows
-- the redirections. The requests are fuel: the code has no bound for them.
--
-- Tarfs/ models tarfs/tarfs.go:
--   Paths.antt     `normalize` and `dirs`, with what is used of `strings` and `path`.
--   Index.antt     `FS`, `New`, `Entry`, `ReadDir`, `Lstat`. Lookup and Listing prove what they find.
--   Open.antt      `Open`, `Stat`, `ReadLink` and the pages of `(*File).ReadDir`. Links says where a
--                  name leads, Chase and Pages have the proofs.
--   Decode.antt    `Encode` and `Decode`, with the round trip for texts in UTF-8 (Text.antt).
--   Section.antt   `io.SectionReader`, over an `io.ReaderAt` that is a parameter with a state.
--   File.antt      `File` and its methods, `Index`, `countReader`. Contents and Seeks have their proofs.
-- archive/tar is the list of the headers that it reads, with the offset behind each; its
-- `Header.FileInfo` and encoding/json are parameters. `open` recurses on the calls that `maxHops`
-- leaves it, which is the code's own bound.
--
-- A call that may fail is a function of the decoder's state into `Outcome`. A method's loops with a
-- `goto` or a condition are recursion on fuel, and running out of it is an outcome of its own,
-- `stuck`. The fuel: need_bits has a round for every bit it wants, as a round reads eight; sym_loop
-- has 17, since a round ends or asks for more bits than before, and at most 15; block_loop has one
-- more than the room in the window, since every round but the last fills a place. `Read` takes its
-- rounds as an argument; two more than the `weight` of the state, of which the bits left to read are the
-- greater part, are enough; gzip's `Read` gives it three more than twice those bits, and takes as many
-- turns of its own loop at most, since a member takes some bits.
--
-- Offsets are numbers, since no stream reaches 2^63 bytes; the bit buffer keeps its 32 bits. The
-- channel of checkpoints is the list of those sent. Texts of errors are left out.
--
-- Not modelled: overlapping calls of gsip's reader, with `Wait`; the filling of its interface by the
-- model of gzip; the Huffman encoder of huffman_code.go,
-- which is Go's own and which nothing calls; and main.go, which opens files, prints and serves.
pub mod Prelude
pub mod Flate
pub mod Gzip
pub mod Ranger
pub mod Gsip
pub mod Tarfs
