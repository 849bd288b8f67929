-- ===== src/Flate/Dict.antt =====
-- gsip/internal/flate/dict_decoder.go: the sliding window of the LZ77 decoder.
-- A method that updates `*dd` returns the new decoder beside its result. `int` positions are
-- numbers: none of them is negative or above the window's size plus 258. An index out of range is
-- a panic in Go; here a write out of range changes nothing, and `Flate.Dict.Valid` shows that the
-- documented contracts keep every index in range.
pub mod Loop
pub mod Copy
pub mod Paths
pub mod Refine
pub mod History
pub mod Start
pub mod Window
mod Tests
pub mod Valid
use targz.Prelude.{
  ℕ, zero, suc, ◌+◌, ◌-◌, Bool, true, false, List, [], length, set, take, drop, replicate, ltb,
  ◌==◌, if◌then◌else◌, ◌||◌,
}
use targz.Prelude.Slices.{copy_into, slice}

-- `dictDecoder`. Every slice stored in `hist` has its length as its capacity.
pub record DictDecoder : Type 0 where
  pub hist : List ℕ
  pub wr_pos : ℕ
  pub rd_pos : ℕ
  pub full : Bool

abbrev pub no_dict : DictDecoder
no_dict = record { hist = []; wr_pos = 0; rd_pos = 0; full = false }

-- The last `size` bytes of a preset dictionary.
abbrev pub tail_of : ℕ → List ℕ → List ℕ
tail_of size dict = if ltb size (length dict) then drop (length dict - size) dict else dict

-- The array that the decoder has, if it is large enough, or a new one.
unfoldable pub array_of : List ℕ → ℕ → List ℕ
array_of old size = if ltb (length old) size then replicate size 0 else take size old

-- The preset dictionary in the array, and the positions behind it.
unfoldable pub load : List ℕ → List ℕ → DictDecoder
load hist dict =
    let (n, hist') = copy_into hist 0 (length hist) (tail_of (length hist) dict) in
    if n == length hist'
    then record { hist = hist'; wr_pos = 0; rd_pos = 0; full = true }
    else record { hist = hist'; wr_pos = n; rd_pos = n; full = false }

unfoldable pub init : DictDecoder → ℕ → List ℕ → DictDecoder
unfolding load array_of
init dd size dict = load (array_of dd.hist size) dict

unfoldable pub hist_size : DictDecoder → ℕ
hist_size dd = if dd.full then length dd.hist else dd.wr_pos

unfoldable pub avail_read : DictDecoder → ℕ
avail_read dd = dd.wr_pos - dd.rd_pos

unfoldable pub avail_write : DictDecoder → ℕ
avail_write dd = length dd.hist - dd.wr_pos

-- `writeSlice` hands out `hist[wrPos:]` to be written to: here the bytes written come as a list,
-- and `write_mark` advances over as many of them as the caller says.
unfoldable pub fill_slice : DictDecoder → List ℕ → DictDecoder
fill_slice dd bytes = record dd { hist = (copy_into dd.hist dd.wr_pos (length dd.hist) bytes).1 }

unfoldable pub write_mark : DictDecoder → ℕ → DictDecoder
write_mark dd cnt = record dd { wr_pos = dd.wr_pos + cnt }

unfoldable pub write_byte : DictDecoder → ℕ → DictDecoder
write_byte dd c = record dd { hist = set dd.hist dd.wr_pos c; wr_pos = dd.wr_pos + 1 }

-- `for dstPos < endPos { dstPos += copy(hist[dstPos:endPos], hist[srcPos:dstPos]) }`. Each round
-- copies a byte at least, so `endPos - dstPos` rounds are enough.
unfoldable pub copy_loop : ℕ → List ℕ → ℕ → ℕ → ℕ → ℕ × List ℕ
copy_loop zero h src dst end_pos = (dst, h)
copy_loop (suc fuel) h src dst end_pos = elim (ltb dst end_pos) [
  | true ↦
      let (n, h') = copy_into h dst end_pos (slice h src dst) in
      copy_loop fuel h' src (dst + n) end_pos
  | false ↦ (dst, h)
]

-- The copy before `wrPos` of a distance that reaches round the end of the window. The negative
-- `srcPos` is `dstPos - dist`.
unfoldable pub copy_wrapped : List ℕ → ℕ → ℕ → ℕ → ℕ × List ℕ
copy_wrapped h dst dist end_pos = copy_into h dst end_pos (drop (length h + dst - dist) h)

unfoldable pub write_copy : DictDecoder → ℕ → ℕ → ℕ × DictDecoder
write_copy dd dist len =
    let dst_base = dd.wr_pos in
    let end_pos =
      if ltb (length dd.hist) (dst_base + len) then length dd.hist else dst_base + len in
    let (n, h) =
      if ltb dst_base dist then copy_wrapped dd.hist dst_base dist end_pos else (0, dd.hist) in
    let src = if ltb dst_base dist then 0 else dst_base - dist in
    let (dst, h') = copy_loop (end_pos - (dst_base + n)) h src (dst_base + n) end_pos in
    (dst - dst_base, record dd { hist = h'; wr_pos = dst })

unfoldable pub try_write_copy : DictDecoder → ℕ → ℕ → ℕ × DictDecoder
try_write_copy dd dist len =
    let end_pos = dd.wr_pos + len in
    let (dst, h) = copy_loop len dd.hist (dd.wr_pos - dist) dd.wr_pos end_pos in
    if ltb dd.wr_pos dist || ltb (length dd.hist) end_pos
    then (0, dd)
    else (dst - dd.wr_pos, record dd { hist = h; wr_pos = dst })

-- The bytes to emit, and the decoder, which starts again at the front when the window is full.
unfoldable pub read_flush : DictDecoder → List ℕ × DictDecoder
read_flush dd =
    let to_read = slice dd.hist dd.rd_pos dd.wr_pos in
    if dd.wr_pos == length dd.hist
    then (to_read, record dd { wr_pos = 0; rd_pos = 0; full = true })
    else (to_read, record dd { rd_pos = dd.wr_pos })
