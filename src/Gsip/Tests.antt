-- ===== src/Gsip/Tests.antt =====
-- A stream of five bytes, read by readers that are their offsets.
use targz.Prelude.{
  ℕ, ◌+◌, ◌≡◌, refl, List, [], ◌∷◌, none, some, false, take, drop, length, ltb, if◌then◌else◌,
}
use targz.Flate.Checkpoint.{Checkpoint}
use targz.Gsip.{complete, ended, StreamReader, Reader, read_at}
use targz.Gsip.Store.{encode, decode, new_reader, collect_all}

abbrev stream : List ℕ
stream = 10 ∷ 20 ∷ 30 ∷ 40 ∷ 50 ∷ []

abbrev offsets : StreamReader ℕ
offsets = record {
  offset = λ o. o;
  read_full = λ n o. (
    (take n (drop o stream), if ltb (length (take n (drop o stream))) n then ended else complete),
    o + length (take n (drop o stream)),
  );
  resume = λ c. c.out_pos;
}

abbrev checkpoint : ℕ → Checkpoint
checkpoint out = record {
  in_pos = 0;
  out_pos = out;
  b = 0;
  nb = 0;
  hist = [];
  wr_pos = 0;
  rd_pos = 0;
  full = false;
  empty = false;
  gzip_header = none;
}

-- One reader is free, behind the offset 1 and in front of 3.
abbrev state : Reader ℕ
state = record { checkpoints = checkpoint 0 ∷ checkpoint 2 ∷ checkpoint 4 ∷ []; idle = 2 ∷ [] }

resumed_run :
    read_at offsets 2 3 state ≡ (some (40 ∷ 50 ∷ [], complete), record state { idle = 5 ∷ 2 ∷ [] })
unfolding read_at
resumed_run = refl

end_run :
    read_at offsets 9 2 state ≡ (some (30 ∷ 40 ∷ 50 ∷ [], ended), record state { idle = 5 ∷ [] })
unfolding read_at
end_run = refl

-- The index is its own encoding, and two checkpoints have been collected.
abbrev opened : Reader ℕ
opened = record { checkpoints = []; idle = 0 ∷ [] }

opened_run : new_reader (some 0) ≡ some opened
unfolding new_reader
opened_run = refl

abbrev two : List Checkpoint
two = checkpoint 0 ∷ checkpoint 2 ∷ []

stored_run :
    decode {R = ℕ}
      (λ index. index)
      (λ index. some index)
      (encode (λ index. index) (λ index. some index) (collect_all two opened))
    ≡ some (record { checkpoints = two; idle = [] })
unfolding encode decode collect_all
stored_run = refl
