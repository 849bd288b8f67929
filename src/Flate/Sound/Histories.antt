-- ===== src/Flate/Sound/Histories.antt =====
-- gsip/internal/flate/inflate.go, `copyHistory` of `huffmanBlock`: the copy into the window, as far as
-- it has room, and what it leaves to be handed out.
use targz.Prelude.{
  ℕ, ◌+◌, ◌-◌, ◌≤◌, ◌<◌, min, ◌≡◌, ◌∙◌, Bool, true, false, length, arith, ltb, ◌==◌, ◌||◌,
  Bool-cases, inl, inr,
}
use targz.Prelude.Slices.{length-slice}
use targz.Flate.Dict.{DictDecoder, hist_size, avail_write, read_flush}
use targz.Flate.Dict.Valid.{IsValid}
use targz.Flate.Dict.Copy.{copy_bytes-fields, copy_bytes}
use targz.Flate.Dict.Refine.{fitting}
use targz.Flate.State.{Decompressor, state_dict}
use targz.Flate.Blocks.{copy_history}
use targz.Flate.Sound.{IsGood, Ends}
use targz.Flate.Sound.Copies.{
  Again, IsGrown, copy_bytes-IsGrown, copy_match-copy_bytes, flush-IsGood, grown-IsGood,
}

flushed_pending :
    (dd : DictDecoder) → IsValid dd → dd.rd_pos < dd.wr_pos → 0 < length (read_flush dd).0
unfolding read_flush
flushed_pending dd v lt = elim (Bool-cases (dd.wr_pos == length dd.hist)) [
  | inl e ↦ rw e (omega (arith, length-slice dd.hist dd.rd_pos dd.wr_pos, v.write_in))
  | inr e ↦ rw e (omega (arith, length-slice dd.hist dd.rd_pos dd.wr_pos, v.write_in))
]

fitting-le : (dd : DictDecoder) (len : ℕ) → fitting dd len ≤ avail_write dd
unfolding fitting
fitting-le dd len = omega arith

-- A copy that has filled the window, or has not been finished, has copied something.
some_copied :
    (after dd : DictDecoder) (len : ℕ)
    → 0 < avail_write dd
    → avail_write after + fitting dd len ≡ avail_write dd
    → (avail_write after == 0 || ltb 0 (len - fitting dd len)) ≡ true
    → 0 < fitting dd len
unfolding fitting
some_copied after dd len room e h = ground arith

flushed_some :
    (k dist : ℕ) (dd : DictDecoder)
    → IsValid dd
    → k ≤ avail_write dd
    → 0 < k
    → 0 < length (read_flush (copy_bytes k dist dd)).0
flushed_some k dist dd v fits pos =
    flushed_pending (copy_bytes k dist dd) (copy_bytes-IsGrown k dist dd v fits).valid (
      omega (arith, (copy_bytes-fields k dist dd).0, (copy_bytes-fields k dist dd).1, v.read_first))

module _ (cap wo total budget : ℕ) where
  abbrev Good : Decompressor → Type 0
  Good = IsGood cap wo total budget

  -- A flush makes the room that a good state has.
  -- The window behind `copyHistory`'s copy, and whether the block stops there.
  abbrev copied : Decompressor → DictDecoder
  copied f = copy_bytes (fitting f.dict f.copy_len) f.copy_dist f.dict

  abbrev stops : Decompressor → Bool
  stops f = avail_write (copied f) == 0 || ltb 0 (f.copy_len - fitting f.dict f.copy_len)

  copied-IsGrown :
      (f : Decompressor) → Good f → IsGrown f.dict (fitting f.dict f.copy_len) (copied f)
  copied-IsGrown f g =
      copy_bytes-IsGrown (fitting f.dict f.copy_len) f.copy_dist f.dict g.valid
        (fitting-le f.dict f.copy_len)

  pub copy_history-Ends :
      (n : ℕ) (f : Decompressor)
      → Good f
      → 0 < f.copy_dist
      → f.copy_dist ≤ hist_size f.dict
      → avail_write f.dict < n + min 1 f.copy_len
      → Ends (Again cap wo total budget n) Good (copy_history f)
  unfolding copy_history
  copy_history-Ends n f g pos le room =
      rw (copy_match-copy_bytes f.dict f.copy_dist f.copy_len g.valid pos le)
        (elim (Bool-cases (stops f)) [
          | inl e ↦ rw e (
            flush-IsGood cap wo total budget (record f { dict = copied f; step_state = state_dict })
                (copied-IsGrown f g).valid ((copied-IsGrown f g).size ∙ g.size) g.flushed g.consumed
                g.bounded (λ _. (pos, omega (arith, le, (copied-IsGrown f g).more))),
            λ p. absurd (cc p),
          )
          | inr e ↦ rw e (
            grown-IsGood cap wo total budget f _ g (copied-IsGrown f g) (ground arith),
            λ _. less (ground arith) (copied-IsGrown f g).left,
          )
        ])
    where
      less :
          f.copy_len ≤ fitting f.dict f.copy_len
          → avail_write (copied f) + fitting f.dict f.copy_len ≡ avail_write f.dict
          → avail_write (copied f) < n
      less all left = omega (arith, room)

  -- A copy that stops has something for `toRead`.
  pub copy_history-to_read :
      (f : Decompressor)
      → Good f
      → 0 < f.copy_dist
      → f.copy_dist ≤ hist_size f.dict
      → Ends (λ again f'. again ≡ false → 0 < length f'.to_read) (λ _. Unit) (copy_history f)
  unfolding copy_history
  copy_history-to_read f g pos le =
      rw (copy_match-copy_bytes f.dict f.copy_dist f.copy_len g.valid pos le)
        (elim (Bool-cases (stops f)) [
          | inl e ↦ rw e (λ _.
              flushed_some (fitting f.dict f.copy_len) f.copy_dist f.dict g.valid
                (fitting-le f.dict f.copy_len)
                (some_copied (copied f) f.dict f.copy_len g.room (copied-IsGrown f g).left e))
          | inr e ↦ rw e (λ p. absurd (cc p))
        ])
