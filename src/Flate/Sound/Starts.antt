-- ===== src/Flate/Sound/Starts.antt =====
-- gsip/internal/flate/inflate.go, `NewReaderDict`, `Reset` and `Continue`: the states that they
-- make are those from which `Read` is known to end.
use targz.Prelude.{
  ℕ, ◌+◌, ◌-◌, ◌<◌, ◌≤◌, ◌≡◌, ◌∙◌, refl, sym, ap, List, [], ◌∷◌, Option, length, min, arith, take,
  replicate, length-replicate, take_all,
}
use targz.Prelude.Slices.{copy_into, overwrite, length-overwrite}
use targz.Flate.Source.{Source}
use targz.Flate.Checkpoint.{Checkpoint}
use targz.Flate.Dict
use targz.Flate.Dict.{DictDecoder, load, array_of, tail_of, avail_write}
use targz.Flate.Dict.Valid.{IsValid, init-IsValid, length-array_of}
use targz.Flate.State.{Decompressor, state_init, max_match_offset}
use targz.Flate.Sound.{GoodAt, bits_left}
use mathlib.Core.Path.{subst}
use targz.Flate.Blocks.{checkpoint_of}
use targz.Flate.Reading.{
  fresh, new_reader, new_reader_dict, new_reader_with_spans, reset, restored, continue_from,
}
use targz.Flate.Sound.Whole.{IsSane}

room-load : (hist dict : List ℕ) → 0 < length hist → 0 < avail_write (load hist dict)
unfolding load copy_into avail_write
room-load hist dict pos = ground (
  arith,
  length-overwrite hist 0 (
      take (min (length hist - 0) (length (tail_of (length hist) dict)))
        (tail_of (length hist) dict)),
)

room-init :
    (dd : DictDecoder) (size : ℕ) (dict : List ℕ)
    → 0 < size
    → 0 < avail_write (Dict.init dd size dict)
unfolding Dict.init
room-init dd size dict pos =
    room-load (array_of dd.hist size) dict (omega (arith, length-array_of dd.hist size))

-- A state with no copy that waits, over a window with room.
at_start :
    {cap wo total budget : ℕ} {dd : DictDecoder} {position bits dist : ℕ}
    → IsValid dd × (length dd.hist ≡ cap)
    → 0 < avail_write dd
    → position ≡ total
    → bits ≤ budget
    → GoodAt cap wo total budget dd wo position bits state_init dist
at_start v room e le = record {
  valid = v.0;
  size = v.1;
  room = room;
  flushed = refl;
  consumed = e;
  bounded = le;
  waiting = λ p. absurd (cc p);
}

window_here : 0 < max_match_offset
unfolding max_match_offset
window_here = omega arith

-- `NewReaderWithSpans` makes a sane decoder with a window of the full size, which starts at the
-- offset in the input that it is given.
pub new_reader_with_spans-IsSane :
    (r : Source) (span start : ℕ) (updates : Option (List Checkpoint))
    → IsSane max_match_offset 0 (start + length r.rest) (new_reader_with_spans r span start updates)
unfolding new_reader_with_spans new_reader new_reader_dict fresh
new_reader_with_spans-IsSane r span start updates =
    at_start (init-IsValid Dict.no_dict max_match_offset [] window_here)
      (room-init Dict.no_dict max_match_offset [] window_here) refl (omega arith)

pub reset-IsSane :
    (r : Source) (dict : List ℕ) (roffset : ℕ) (f : Decompressor)
    → IsSane max_match_offset f.woffset (roffset + length r.rest) (reset r dict roffset f)
unfolding reset new_reader_dict fresh
reset-IsSane r dict roffset f =
    at_start (init-IsValid Dict.no_dict max_match_offset dict window_here)
      (room-init Dict.no_dict max_match_offset dict window_here) refl (omega arith)

overwrite_all : {A : Type 0} (xs ys : List A) → length xs ≡ length ys → overwrite xs 0 ys ≡ ys
unfolding overwrite
overwrite_all [] [] e = refl
overwrite_all [] (y ∷ ys) e = absurd (omega (arith, e))
overwrite_all (x ∷ xs) [] e = absurd (omega (arith, e))
overwrite_all (x ∷ xs) (y ∷ ys) e = ap (λ l. y ∷ l) (overwrite_all xs ys (omega (arith, e)))

-- The window that `Continue` makes from the checkpoint of a decoder whose window has the full size
-- is that decoder's window, with its positions.
pub restored-checkpoint_of :
    (f : Decompressor) (w : ℕ)
    → length f.dict.hist ≡ max_match_offset
    → restored (checkpoint_of f w) ≡ f.dict
unfolding restored checkpoint_of copy_into
restored-checkpoint_of f w e =
    ap (λ h. record f.dict { hist = h })
      (ap (λ t. overwrite (replicate max_match_offset 0) 0 t)
          (take_all (min (max_match_offset - 0) (length f.dict.hist)) f.dict.hist
            (omega (arith, e)))
        ∙ overwrite_all (replicate max_match_offset 0) f.dict.hist
            (length-replicate max_match_offset 0 ∙ sym e))

-- What `Continue` makes from the rest of the input and the checkpoint of a sane decoder with a
-- window of the full size is a sane decoder at the checkpoint's offset in the output, that has
-- read as much of the same input.
pub continue_from-IsSane :
    (f : Decompressor) (w span wo total : ℕ) (updates : Option (List Checkpoint))
    → IsSane max_match_offset wo total f
    → IsSane max_match_offset w total (continue_from f.r (checkpoint_of f w) span updates)
unfolding continue_from checkpoint_of fresh
continue_from-IsSane f w span wo total updates g =
    subst
      (λ dd.
        GoodAt max_match_offset w total (bits_left f) dd w (f.roffset + length f.r.rest)
          (bits_left f) state_init 0)
      (sym (restored-checkpoint_of f w g.size))
      (at_start (g.valid, g.size) g.room g.consumed (omega arith))
