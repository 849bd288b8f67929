-- ===== src/Flate/Sound/Stored.antt =====
-- Stored blocks: what is read goes into the window, and keeps the state good.
use targz.Prelude.{
  ◌*◌, true, ◌⊎◌, ◌≢◌, ℕ, ◌+◌, ◌-◌, ◌≤◌, ◌<◌, min, ◌≡◌, ◌∙◌, refl, Option, none, some, List, length,
  arith, ltb, ◌==◌, ◌||◌, Bool-cases, Option-cases, inl, inr,
}
use targz.Flate.Source.{Got, read_full, Error}
use targz.Flate.Dict.{avail_write}
use targz.Flate.State.{Decompressor, next_block}
use targz.Flate.Blocks.{
  finish_block, received, after_read, after_length, run_copy_data, stored_length, data_block, flush,
}
use targz.Flate.Sound.{bits_left, GoodAt-position}
use targz.Flate.Sound.Copies.{IsGrown, flush-IsGood, flush_again, finish_block-IsGood}
use targz.Flate.Sound.Steps.{IsRead, read_full-IsRead, fill-IsGrown, Good}

some_read :
    (room len room' n : ℕ)
    → 0 < room
    → room' + n ≡ room
    → n ≡ min room len
    → (room' == 0 || ltb 0 (len - n)) ≡ true
    → 0 < n
some_read room len room' n pos left all stops = ground arith

-- A read that leaves no room, or has not got all that was to be copied, has got something.
used :
    (f : Decompressor) (got : Got) (room' : ℕ) {budget : ℕ}
    → 0 < avail_write f.dict
    → room' + length got.bytes ≡ avail_write f.dict
    → length got.bytes ≡ min (avail_write f.dict) f.copy_len
    → (room' == 0 || ltb 0 (f.copy_len - length got.bytes)) ≡ true
    → length got.bytes + length got.source.rest ≡ length f.r.rest
    → 8 * length f.r.rest + f.nb ≤ budget
    → 8 * length got.source.rest + f.nb < budget
used f got room' room left all stops front bounded = omega (
  arith,
  front,
  bounded,
  some_read (avail_write f.dict) f.copy_len room' (length got.bytes) room left all stops,
)

module _ (cap wo total budget : ℕ) where
  -- Bytes that are read straight into the window.
  dict-received-IsGrown :
      (f : Decompressor) (got : Got) (n : ℕ)
      → Good cap wo total budget f
      → n ≤ avail_write f.dict
      → IsRead n f.r got
      → IsGrown f.dict (length got.bytes) (received f got (length got.bytes)).dict
  unfolding received
  dict-received-IsGrown f got n g fits r =
      fill-IsGrown f.dict got.bytes g.valid (omega (arith, fits, r.at_most))

  received-IsGood :
      (f : Decompressor) (got : Got) (n : ℕ)
      → Good cap wo total budget f
      → n ≤ avail_write f.dict
      → IsRead n f.r got
      → 0 < avail_write (received f got (length got.bytes)).dict
      → Good cap wo total budget (received f got (length got.bytes))
  received-IsGood f got n g fits r room =
      let w = dict-received-IsGrown f got n g fits r in
      record {
        valid = w.valid;
        size = w.size ∙ g.size;
        room = room;
        flushed = unfold received in g.flushed;
        consumed = unfold received in omega (arith, g.consumed, r.front);
        bounded = unfold received in omega (arith, g.bounded, r.front);
        waiting = λ e. unfold received in ((g.waiting e).0, omega (arith, (g.waiting e).1, w.more));
      }

  flush-received-IsGood :
      (f : Decompressor) (got : Got) (n : ℕ)
      → Good cap wo total budget f
      → n ≤ avail_write f.dict
      → IsRead n f.r got
      → Good cap wo total budget (flush (received f got (length got.bytes)))
  flush-received-IsGood f got n g fits r =
      let w = dict-received-IsGrown f got n g fits r in
      flush-IsGood cap wo total budget (received f got (length got.bytes)) w.valid (w.size ∙ g.size)
        (unfold received in g.flushed) (unfold received in omega (arith, g.consumed, r.front))
        (unfold received in omega (arith, g.bounded, r.front))
        (λ e. unfold received in ((g.waiting e).0, omega (arith, (g.waiting e).1, w.more)))

  after_read-IsGood :
      (f : Decompressor) (err : Option Error)
      → (0 < avail_write f.dict → Good cap wo total budget f)
      → Good cap wo total budget (flush f)
      → ((e : Error) → err ≡ some e → 0 < avail_write f.dict)
      → Good cap wo total budget (after_read f err)
  unfolding after_read
  after_read-IsGood f (some e) room full short = room (short e refl)
  after_read-IsGood f none room full short =
      elim (Bool-cases (avail_write f.dict == 0 || ltb 0 f.copy_len)) [
        | inl e ↦ rw e full
        | inr e ↦ rw e (finish_block-IsGood cap wo total budget f (room (ground arith)))
      ]

  pub run_copy_data-IsGood :
      (f : Decompressor) → Good cap wo total budget f → Good cap wo total budget (run_copy_data f)
  unfolding run_copy_data
  run_copy_data-IsGood f g =
      let n = min (avail_write f.dict) f.copy_len in
      let got = read_full n f.r in
      let r = read_full-IsRead n f.r in
      let w = dict-received-IsGrown f got n g (omega arith) r in
      after_read-IsGood (received f got (length got.bytes)) got.err
        (received-IsGood f got n g (omega arith) r)
        (flush-received-IsGood f got n g (omega arith) r)
        (λ e p. omega (arith, w.left, r.short e p))

  -- Behind the reading of a stored block: an error, or bits used, or the block is at its end.
  abbrev pub Copied : Decompressor → Type 0
  Copied f = (f.err ≢ none) ⊎ ((bits_left f < budget) ⊎ (f.step ≡ next_block))

  after_read-Copied :
      (f : Decompressor) (err : Option Error)
      → (err ≡ none → (avail_write f.dict == 0 || ltb 0 f.copy_len) ≡ true → bits_left f < budget)
      → Copied (after_read f err)
  unfolding after_read finish_block flush
  after_read-Copied f (some e) used = inl (λ p. cc p)
  after_read-Copied f none used = elim (Bool-cases (avail_write f.dict == 0 || ltb 0 f.copy_len)) [
    | inl e ↦ rw e (inr (inl (used refl e)))
    | inr e ↦ rw e (inr (inr refl))
  ]

  pub run_copy_data-Copied :
      (f : Decompressor) → Good cap wo total budget f → Copied (run_copy_data f)
  unfolding run_copy_data
  run_copy_data-Copied f g =
      let n = min (avail_write f.dict) f.copy_len in
      let got = read_full n f.r in
      let r = read_full-IsRead n f.r in
      let w = dict-received-IsGrown f got n g (omega arith) r in
      after_read-Copied (received f got (length got.bytes)) got.err (λ none_wrong stops.
        unfold received in
        used f got (avail_write (received f got (length got.bytes)).dict) g.room w.left
          (r.whole none_wrong) stops r.front g.bounded)

  after_length-IsGood :
      (f : Decompressor) (buf : List ℕ) (err : Option Error)
      → Good cap wo total budget f
      → Good cap wo total budget (after_length f buf err)
  unfolding after_length
  after_length-IsGood f buf (some e) g = g
  after_length-IsGood f buf none g = elim (Option-cases (stored_length buf)) [
    | inl p ↦ rw (p, after_length) g
    | inr (n, p) ↦ elim (Bool-cases (n == 0)) [
      | inl z ↦
          rw (p, after_length, z)
            (finish_block-IsGood cap wo total budget (flush f)
              (flush_again cap wo total budget f g))
      | inr z ↦ rw (p, after_length, z) (run_copy_data-IsGood (record f { copy_len = n }) g)
    ]
  ]

  pub data_block-IsGood :
      (f : Decompressor) → Good cap wo total budget f → Good cap wo total budget (data_block f)
  unfolding data_block
  data_block-IsGood f g =
      let got = read_full 4 f.r in
      after_length-IsGood
        (record f { nb = 0; b = 0; r = got.source; roffset = f.roffset + length got.bytes })
        got.bytes got.err
        (GoodAt-position (omega (arith, (read_full-IsRead 4 f.r).front))
          (omega (arith, g.bounded, (read_full-IsRead 4 f.r).front)) g)
