-- ===== src/Flate/Tests.antt =====
-- Runs of the decoder on short streams.
use targz.Prelude.{ℕ, ◌≡◌, refl, List, [], ◌∷◌, Option, none, some}
use targz.Prelude.Slices.{copy_into, overwrite}
use targz.Flate.Source.{Source, Error, eof}
use targz.Flate.Dict
use targz.Flate.State.{Outcome, done, failed, panicked, stuck}
use targz.Flate.Blocks.{fixed_huffman_decoder}
use targz.Flate.Reading.{read, fresh}

abbrev source : List ℕ → Source
source bytes = record { rest = bytes; fail = eof }

abbrev result : Outcome (List ℕ × Option Error) → Option (List ℕ × Option Error)
result (done a f) = some a
result (failed e f) = none
result panicked = none
result stuck = none

-- What `Read` returns into a buffer of 40 bytes, in a decoder with a window of 64.
run : List ℕ → Option (List ℕ × Option Error)
unfolding read fresh Dict.init Dict.load Dict.array_of Dict.copy_loop Dict.copy_wrapped
    Dict.write_copy Dict.try_write_copy Dict.write_byte Dict.read_flush Dict.fill_slice
    Dict.write_mark Dict.hist_size Dict.avail_read Dict.avail_write copy_into overwrite
    fixed_huffman_decoder
run bytes = result (read 9 40 (fresh (source bytes) (Dict.init Dict.no_dict 64 [])))

stored_run :
    run (1 ∷ 3 ∷ 0 ∷ 252 ∷ 255 ∷ 104 ∷ 105 ∷ 33 ∷ []) ≡ some (104 ∷ 105 ∷ 33 ∷ [], some eof)
unfolding run
stored_run = refl

fixed_run :
    run (75 ∷ 76 ∷ 74 ∷ 78 ∷ 68 ∷ 70 ∷ 0 ∷ [])
    ≡ some (
      97 ∷ 98 ∷ 99 ∷ 97 ∷ 98 ∷ 99 ∷ 97 ∷ 98 ∷ 99 ∷ 97 ∷ 98 ∷ 99 ∷ 97 ∷ 98 ∷ 99 ∷ 97 ∷ [],
      some eof,
    )
unfolding run
fixed_run = refl
