-- ===== src/Flate/Dict/Tests.antt =====
-- Runs of the window, and its theorems at concrete windows.
use targz.Prelude.{
  ◌+◌, ◌<◌, ◌≡◌, refl, min, true, [], ◌∷◌, ◌++◌, length, arith, ltb, ◌||◌, if◌then◌else◌,
}
use targz.Prelude.Slices.{copy_into, overwrite}
use targz.Flate.Dict.{
  DictDecoder, no_dict, init, write_byte, write_copy, try_write_copy, copy_loop, copy_wrapped,
  read_flush, fill_slice, write_mark, avail_read, avail_write, hist_size,
}
use targz.Flate.Dict.Valid.{IsValid, write_byte-IsValid, fill_slice-IsValid, read_flush-IsValid}
use targz.Flate.Dict.History.{push, lz_copy, lz_bytes, history, pending, history-write_byte}
use targz.Flate.Dict.Start.{init-history}
use targz.Flate.Dict.Copy.{copy_bytes}
use targz.Flate.Dict.Refine.{try_write_copy-copy_bytes}
use targz.Flate.Dict.Window.{write_copy_refines, read_flush_refines}

-- Eight bytes, all of them written once, and then three more from the front.
abbrev wrapped : DictDecoder
wrapped = record {
  hist = 11 ∷ 12 ∷ 13 ∷ 4 ∷ 5 ∷ 6 ∷ 7 ∷ 8 ∷ [];
  wr_pos = 3;
  rd_pos = 1;
  full = true;
}

wrapped-IsValid : IsValid wrapped
wrapped-IsValid = omega arith

copied_round :
    write_copy wrapped 5 4
    ≡ (4, record wrapped { hist = 11 ∷ 12 ∷ 13 ∷ 7 ∷ 8 ∷ 11 ∷ 12 ∷ 8 ∷ []; wr_pos = 7 })
unfolding write_copy copy_loop copy_wrapped copy_into overwrite
copied_round = refl

copied_overlapping :
    write_copy wrapped 2 9
    ≡ (5, record wrapped { hist = 11 ∷ 12 ∷ 13 ∷ 12 ∷ 13 ∷ 12 ∷ 13 ∷ 12 ∷ []; wr_pos = 8 })
unfolding write_copy copy_loop copy_wrapped copy_into overwrite
copied_overlapping = refl

-- Of a dictionary of ten bytes the last eight.
init-history_example :
    IsValid (init no_dict 8 (1 ∷ 2 ∷ 3 ∷ 4 ∷ 5 ∷ 6 ∷ 7 ∷ 8 ∷ 9 ∷ 10 ∷ []))
    × (length (init no_dict 8 (1 ∷ 2 ∷ 3 ∷ 4 ∷ 5 ∷ 6 ∷ 7 ∷ 8 ∷ 9 ∷ 10 ∷ [])).hist ≡ 8)
    × (history (init no_dict 8 (1 ∷ 2 ∷ 3 ∷ 4 ∷ 5 ∷ 6 ∷ 7 ∷ 8 ∷ 9 ∷ 10 ∷ []))
        ≡ 3 ∷ 4 ∷ 5 ∷ 6 ∷ 7 ∷ 8 ∷ 9 ∷ 10 ∷ [])
    × (avail_read (init no_dict 8 (1 ∷ 2 ∷ 3 ∷ 4 ∷ 5 ∷ 6 ∷ 7 ∷ 8 ∷ 9 ∷ 10 ∷ [])) ≡ 0)
    × (0 < avail_write (init no_dict 8 (1 ∷ 2 ∷ 3 ∷ 4 ∷ 5 ∷ 6 ∷ 7 ∷ 8 ∷ 9 ∷ 10 ∷ [])))
init-history_example =
    init-history no_dict 8 (1 ∷ 2 ∷ 3 ∷ 4 ∷ 5 ∷ 6 ∷ 7 ∷ 8 ∷ 9 ∷ 10 ∷ []) (omega arith)

write_byte-IsValid_example :
    IsValid (write_byte wrapped 9) × (length (write_byte wrapped 9).hist ≡ length wrapped.hist)
unfolding avail_write
write_byte-IsValid_example = write_byte-IsValid wrapped 9 wrapped-IsValid (omega arith)

fill_slice-IsValid_example :
    IsValid (write_mark (fill_slice wrapped (1 ∷ 2 ∷ [])) 2)
    × (length (write_mark (fill_slice wrapped (1 ∷ 2 ∷ [])) 2).hist ≡ length wrapped.hist)
unfolding avail_write
fill_slice-IsValid_example = fill_slice-IsValid wrapped (1 ∷ 2 ∷ []) 2 wrapped-IsValid (omega arith)

read_flush-IsValid_example :
    IsValid (read_flush wrapped).1
    × (length (read_flush wrapped).1.hist ≡ length wrapped.hist)
    × (avail_read (read_flush wrapped).1 ≡ 0)
    × (0 < avail_write (read_flush wrapped).1)
read_flush-IsValid_example = read_flush-IsValid wrapped wrapped-IsValid

history-write_byte_example : history (write_byte wrapped 9) ≡ push 8 (history wrapped) 9
history-write_byte_example = history-write_byte wrapped 9 (omega arith)

write_copy_refines_example :
    let (n, dd') = write_copy wrapped 5 4 in
    (n ≡ min 4 (avail_write wrapped))
    × (history dd' ≡ lz_copy 8 n 5 (history wrapped))
    × (pending dd' ≡ pending wrapped ++ lz_bytes 8 n 5 (history wrapped))
unfolding hist_size
write_copy_refines_example =
    write_copy_refines wrapped 5 4 wrapped-IsValid (omega arith) (omega arith)

try_write_copy-copy_bytes_example :
    try_write_copy wrapped 2 4
    ≡ (if ltb 3 2 || ltb 8 (3 + 4) then (0, wrapped) else (4, copy_bytes 4 2 wrapped))
try_write_copy-copy_bytes_example =
    try_write_copy-copy_bytes wrapped 2 4 wrapped-IsValid (omega arith)

read_flush_refines_example :
    ((read_flush wrapped).0 ≡ pending wrapped)
    × (history (read_flush wrapped).1 ≡ history wrapped)
    × (pending (read_flush wrapped).1 ≡ [])
read_flush_refines_example = read_flush_refines wrapped
