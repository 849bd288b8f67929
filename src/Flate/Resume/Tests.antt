-- ===== src/Flate/Resume/Tests.antt =====
-- A decoder with the tables of an earlier block, and the one that is resumed at its place.
use targz.Prelude.{[], ◌∷◌, refl, arith, inl, inr, none, some}
use targz.Flate.Source.{Source, eof}
use targz.Flate.Huffman
use targz.Flate.State.{Decompressor, table1, table2, max_match_offset}
use targz.Flate.Blocks.{checkpoint_of}
use targz.Flate.Reading.{new_reader_with_spans, continue_from}
use targz.Flate.Sound.{bits_left}
use targz.Flate.Sound.Whole.{IsSane}
use targz.Flate.Sound.Starts.{new_reader_with_spans-IsSane}
use targz.Flate.Resume.{Both, SameCore}
use targz.Flate.Resume.Reads.{Along}
use targz.Flate.Resume.Resumed.{IsBoundary, read_each, continue_from-read_each}

-- The text "a" in a fixed block.
abbrev source : Source
source = record { rest = 75 ∷ 4 ∷ 0 ∷ []; fail = eof }

abbrev boundary : Decompressor
boundary = record (new_reader_with_spans source 100 0 (some [])) {
  h1 = record Huffman.empty { min = 3 };
  hl = some table1;
  hd = some table2;
}

boundary-IsSane : IsSane max_match_offset 0 3 boundary
unfolding new_reader_with_spans
boundary-IsSane = new_reader_with_spans-IsSane source 100 0 (some [])

boundary-IsBoundary : IsBoundary boundary
unfolding new_reader_with_spans
boundary-IsBoundary = record {
  step = refl;
  err = refl;
  to_read = refl;
  final = refl;
  copy_len = refl;
  bits = refl;
  codebits = refl;
  table1 = inl (λ e. omega (arith, e));
  table2 = inr refl;
}

continue_from-read_each_example :
    Both
      (λ _. Along max_match_offset 3 (bits_left boundary))
      SameCore
      (read_each 60 (1 ∷ 5 ∷ []) boundary)
      (read_each 60 (1 ∷ 5 ∷ []) (continue_from source (checkpoint_of boundary 0) 7 none))
unfolding new_reader_with_spans
continue_from-read_each_example =
    continue_from-read_each boundary 7 3 60 none (1 ∷ 5 ∷ []) boundary-IsBoundary boundary-IsSane
