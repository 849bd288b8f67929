-- ===== src/Flate/Sound/Tests.antt =====
-- The theorems on the decoder at concrete states.
use targz.Prelude.{inr, none, false, ◌≡◌, refl, [], ◌∷◌, arith}
use targz.Prelude.Slices.{copy_into, overwrite}
use targz.Flate.Source.{eof}
use targz.Flate.Dict
use targz.Flate.Dict.{DictDecoder, avail_write, hist_size}
use targz.Flate.Dict.Valid.{init-IsValid}
use targz.Flate.Dict.Copy.{copy_bytes}
use targz.Flate.Dict.Refine.{fitting}
use targz.Flate.State.{Decompressor, max_match_offset, ◌>>◌, modify}
use targz.Flate.Blocks.{checkpoint_of, copy_match, run_step}
use targz.Flate.Reading.{new_reader_with_spans, restored, continue_from, read, fresh, settle}
use targz.Flate.Sound.{Never, Ends}
use targz.Flate.Sound.Starts.{
  new_reader_with_spans-IsSane, restored-checkpoint_of, continue_from-IsSane,
}
use targz.Flate.Sound.Copies.{copy_match-copy_bytes}
use targz.Flate.Sound.Whole.{IsSane, Advanced, weight, run_step-Ends}
use targz.Flate.Sound.Reads.{Delivered, read-Ends}
use targz.Flate.Sound.Offsets.{Rounded, round-Ends}

-- A decoder with a window of four bytes before a stream of seven.
abbrev start : Decompressor
start =
    fresh (record { rest = 75 ∷ 76 ∷ 74 ∷ 78 ∷ 68 ∷ 70 ∷ 0 ∷ []; fail = eof })
      (Dict.init Dict.no_dict 4 [])

start-IsSane : IsSane 4 0 7 start
unfolding fresh Dict.init Dict.load Dict.array_of avail_write copy_into overwrite
start-IsSane = record {
  valid = (init-IsValid Dict.no_dict 4 [] (omega arith)).0;
  size = refl;
  room = omega arith;
  flushed = refl;
  consumed = refl;
  bounded = omega arith;
  waiting = λ e. absurd (cc e);
}

run_step-Ends_example : Ends (λ _. Advanced 4 0 7 56 (weight start)) Never (run_step start)
unfolding fresh
run_step-Ends_example = run_step-Ends 4 0 7 56 start start-IsSane

round-Ends_example :
    Ends (λ _. Rounded 4 7 56 0 (weight start)) Never ((run_step >> modify settle) start)
unfolding fresh
round-Ends_example = round-Ends 4 7 56 start start-IsSane

-- 56 bits are left, so that 114 rounds are enough.
read-Ends_example : Ends (Delivered 4 7 56 3 0) Never (read 114 3 start)
unfolding fresh
read-Ends_example = read-Ends 4 7 56 3 114 0 start (inr (omega arith)) start-IsSane refl

abbrev window : DictDecoder
window = record { hist = 1 ∷ 2 ∷ 3 ∷ 0 ∷ 0 ∷ 0 ∷ []; wr_pos = 3; rd_pos = 1; full = false }

copy_match-copy_bytes_example :
    copy_match window 2 5 ≡ (fitting window 5, copy_bytes (fitting window 5) 2 window)
unfolding hist_size
copy_match-copy_bytes_example =
    copy_match-copy_bytes window 2 5 (omega arith) (omega arith) (omega arith)

-- A decoder as gzip makes it, behind a header of ten bytes.
abbrev begun : Decompressor
begun = new_reader_with_spans (record { rest = 75 ∷ 76 ∷ 4 ∷ 0 ∷ []; fail = eof }) 100 10 none

new_reader_with_spans-IsSane_example : IsSane max_match_offset 0 14 begun
new_reader_with_spans-IsSane_example =
    new_reader_with_spans-IsSane (record { rest = 75 ∷ 76 ∷ 4 ∷ 0 ∷ []; fail = eof }) 100 10 none

restored-checkpoint_of_example : restored (checkpoint_of begun 3) ≡ begun.dict
restored-checkpoint_of_example =
    restored-checkpoint_of begun 3 new_reader_with_spans-IsSane_example.size

continue_from-IsSane_example :
    IsSane max_match_offset 3 14 (continue_from begun.r (checkpoint_of begun 3) 100 none)
continue_from-IsSane_example =
    continue_from-IsSane begun 3 100 0 14 none new_reader_with_spans-IsSane_example
