-- ===== src/Flate/Dict/Valid.antt =====
-- The documented invariant of `dictDecoder`, kept by every method under its contract.
use targz.Prelude.{
  ℕ, ◌-◌, ◌≤◌, ◌<◌, ◌≡◌, List, length, arith, length-set, length-take, length-replicate, take, min,
  lt→ltb, le→ltb, not_lt,
}
use native.Mathlib.Decide.{dec_lt}
use targz.Prelude.Slices.{copy_into, length-overwrite}
use targz.Flate.Dict.{
  DictDecoder, init, load, array_of, tail_of, avail_read, avail_write, fill_slice, write_mark,
  write_byte, read_flush,
}

-- `0 <= rdPos <= wrPos <= len(hist)`, and there is a window.
pub record IsValid (dd : DictDecoder) : Type 0 where
  pub window : 0 < length dd.hist
  pub read_first : dd.rd_pos ≤ dd.wr_pos
  pub write_in : dd.wr_pos ≤ length dd.hist

-- `writeByte` keeps the invariant and the size of the window, where there is room for the byte.
pub write_byte-IsValid :
    (dd : DictDecoder) (c : ℕ)
    → IsValid dd
    → 0 < avail_write dd
    → IsValid (write_byte dd c) × (length (write_byte dd c).hist ≡ length dd.hist)
unfolding write_byte avail_write
write_byte-IsValid dd c v room = ground (arith, length-set dd.hist dd.wr_pos c)

-- So does filling the free part and advancing over the bytes written.
pub fill_slice-IsValid :
    (dd : DictDecoder) (bytes : List ℕ) (cnt : ℕ)
    → IsValid dd
    → cnt ≤ avail_write dd
    → IsValid (write_mark (fill_slice dd bytes) cnt)
      × (length (write_mark (fill_slice dd bytes) cnt).hist ≡ length dd.hist)
unfolding write_mark fill_slice avail_write copy_into
fill_slice-IsValid dd bytes cnt v room = ground (
  arith,
  length-overwrite dd.hist dd.wr_pos (take (min (length dd.hist - dd.wr_pos) (length bytes)) bytes),
)

-- `readFlush` keeps a window valid and of its size, leaves nothing to read, and makes room.
pub read_flush-IsValid :
    (dd : DictDecoder)
    → IsValid dd
    → IsValid (read_flush dd).1
      × (length (read_flush dd).1.hist ≡ length dd.hist)
      × (avail_read (read_flush dd).1 ≡ 0)
      × (0 < avail_write (read_flush dd).1)
unfolding read_flush avail_read avail_write
read_flush-IsValid dd v = ground arith

pub length-array_of : (old : List ℕ) (size : ℕ) → length (array_of old size) ≡ size
unfolding array_of
length-array_of old size = elim (dec_lt (length old) size) [
  | yes lt ↦ rw (lt→ltb _ _ lt) (length-replicate size 0)
  | no ge ↦ rw (le→ltb _ _ (not_lt ge)) (omega (arith, length-take size old))
]

load-IsValid :
    (hist dict : List ℕ)
    → 0 < length hist
    → IsValid (load hist dict) × (length (load hist dict).hist ≡ length hist)
unfolding load copy_into
load-IsValid hist dict pos = ground (
  arith,
  length-overwrite hist 0 (
      take (min (length hist - 0) (length (tail_of (length hist) dict)))
        (tail_of (length hist) dict)),
)

-- `init` makes a valid window of the size asked for.
pub init-IsValid :
    (dd : DictDecoder) (size : ℕ) (dict : List ℕ)
    → 0 < size
    → IsValid (init dd size dict) × (length (init dd size dict).hist ≡ size)
unfolding init
init-IsValid dd size dict pos =
    let (v, e) =
      load-IsValid (array_of dd.hist size) dict (omega (arith, length-array_of dd.hist size)) in
    (v, omega (arith, e, length-array_of dd.hist size))
