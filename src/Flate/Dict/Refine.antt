-- ===== src/Flate/Dict/Refine.antt =====
-- `writeCopy` and `tryWriteCopy` are the copy byte by byte.
use targz.Prelude.{
  ℕ, ◌+◌, ◌-◌, ◌≤◌, ◌<◌, min, ◌≡◌, ◌∙◌, refl, sym, ap₂, List, length, ltb, if◌then◌else◌, ◌||◌,
  arith, lt→ltb, le→ltb, not_lt, drop,
}
use native.Mathlib.Decide.{dec_lt}
use native.Mathlib.Nat.{add-zero}
use targz.Flate.Dict.{DictDecoder, copy_wrapped, write_copy, try_write_copy, hist_size, avail_write}
use targz.Flate.Dict.Valid.{IsValid}
use targz.Flate.Dict.Loop.{copy_into_count}
use targz.Flate.Dict.Copy.{IsCopy, IsCopy-unique, copy_bytes, copy_bytes-IsCopy, copy_bytes-fields}
use targz.Flate.Dict.Paths.{straight_stop, straight_loop, wrapped_stop, wrapped-IsCopy}

DictDecoder_path :
    (a b : DictDecoder)
    → a.hist ≡ b.hist
    → a.wr_pos ≡ b.wr_pos
    → a.rd_pos ≡ b.rd_pos
    → a.full ≡ b.full
    → a ≡ b
DictDecoder_path a b p q r s = λ i. record { hist = p i; wr_pos = q i; rd_pos = r i; full = s i }

-- How much of a copy fits in front of the window's end.
unfoldable pub fitting : DictDecoder → ℕ → ℕ
unfolding avail_write
fitting dd len = min len (avail_write dd)

-- A loop that made the copy of `n` bytes leaves the decoder of the copy byte by byte.
copied :
    (dd : DictDecoder) (dist n : ℕ) (out : ℕ × List ℕ)
    → 0 < dist
    → dist ≤ length dd.hist
    → dd.wr_pos + n ≤ length dd.hist
    → out.0 ≡ dd.wr_pos + n
    → IsCopy dd.hist dd.wr_pos (dd.wr_pos + n) dist out.1
    → ◌≡◌ {A = ℕ × DictDecoder}
        (out.0 - dd.wr_pos, record dd { hist = out.1; wr_pos = out.0 })
        (n, copy_bytes n dist dd)
copied dd dist n out pos small fits stop c =
    ap₂ (λ a b. (a, b)) (omega arith)
      (DictDecoder_path (record dd { hist = out.1; wr_pos = out.0 }) (copy_bytes n dist dd)
        (IsCopy-unique dd.hist dd.wr_pos (dd.wr_pos + n) dist pos c
          (copy_bytes-IsCopy n dist (dd.wr_pos + n) dd pos small refl fits))
        (stop ∙ sym fields.0) (sym fields.1) (sym fields.2))
  where
    fields :
        ((copy_bytes n dist dd).wr_pos ≡ dd.wr_pos + n)
        × ((copy_bytes n dist dd).rd_pos ≡ dd.rd_pos)
        × ((copy_bytes n dist dd).full ≡ dd.full)
    fields = copy_bytes-fields n dist dd

module _ (dd : DictDecoder) (dist len : ℕ) (v : IsValid dd) (pos : 0 < dist) where
  abbrev end_pos : ℕ
  end_pos = if ltb (length dd.hist) (dd.wr_pos + len) then length dd.hist else dd.wr_pos + len

  end_pos_lem : end_pos ≡ dd.wr_pos + fitting dd len
  unfolding fitting
  end_pos_lem = ground arith

  in_window : dd.wr_pos + fitting dd len ≤ length dd.hist
  unfolding fitting
  in_window = omega (arith, v.write_in)

  write_copy-straight :
      dist ≤ dd.wr_pos
      → write_copy dd dist len ≡ (fitting dd len, copy_bytes (fitting dd len) dist dd)
  unfolding write_copy
  write_copy-straight le =
      rw (le→ltb _ _ le, end_pos_lem, add-zero)
        (copied dd dist (fitting dd len) _ pos (omega (arith, v.write_in)) in_window
          (straight_stop dd.hist dd.wr_pos (dd.wr_pos + fitting dd len) dist pos le in_window _
            (omega arith) (omega arith))
          (straight_loop dd.hist dd.wr_pos (dd.wr_pos + fitting dd len) dist pos le in_window _
            (omega arith) (omega arith)))

  write_copy-wrapped :
      dd.wr_pos < dist
      → dist ≤ length dd.hist
      → write_copy dd dist len ≡ (fitting dd len, copy_bytes (fitting dd len) dist dd)
  unfolding write_copy copy_wrapped
  write_copy-wrapped lt small =
      rw
        (
          lt→ltb _ _ lt,
          end_pos_lem,
          copy_into_count dd.hist dd.wr_pos (dd.wr_pos + fitting dd len)
              (drop (length dd.hist + dd.wr_pos - dist) dd.hist) in_window (omega arith),
        )
        (copied dd dist (fitting dd len) _ pos small in_window
          (wrapped_stop dd.hist dd.wr_pos (dd.wr_pos + fitting dd len) dist lt small (omega arith)
            in_window)
          (wrapped-IsCopy dd.hist dd.wr_pos (dd.wr_pos + fitting dd len) dist lt small (omega arith)
            in_window))

  -- `writeCopy` copies what fits in front of the window's end, for every distance that the history
  -- has, and the window is then the one of the copy byte by byte.
  pub write_copy-copy_bytes :
      dist ≤ hist_size dd
      → write_copy dd dist len ≡ (fitting dd len, copy_bytes (fitting dd len) dist dd)
  unfolding hist_size
  write_copy-copy_bytes le = elim (dec_lt dd.wr_pos dist) [
    | yes lt ↦ write_copy-wrapped lt (ground (arith, v.write_in))
    | no ge ↦ write_copy-straight (omega arith)
  ]

  -- `tryWriteCopy` makes the whole copy, byte by byte, where it neither wraps nor runs over the
  -- end, and else does nothing.
  pub try_write_copy-copy_bytes : try_write_copy dd dist len ≡ (
      if ltb dd.wr_pos dist || ltb (length dd.hist) (dd.wr_pos + len)
      then (0, dd)
      else (len, copy_bytes len dist dd))
  unfolding try_write_copy
  try_write_copy-copy_bytes = elim (dec_lt dd.wr_pos dist) [
    | yes lt ↦ rw (lt→ltb _ _ lt)
    | no ge ↦ elim (dec_lt (length dd.hist) (dd.wr_pos + len)) [
      | yes lt ↦ rw (lt→ltb _ _ lt, le→ltb _ _ (not_lt ge))
      | no in_end ↦
          rw (le→ltb _ _ (not_lt ge), le→ltb _ _ (not_lt in_end))
            (copied dd dist len _ pos (omega (arith, v.write_in)) (omega arith)
              (straight_stop dd.hist dd.wr_pos (dd.wr_pos + len) dist pos (not_lt ge)
                (not_lt in_end) len (omega arith) (omega arith))
              (straight_loop dd.hist dd.wr_pos (dd.wr_pos + len) dist pos (not_lt ge)
                (not_lt in_end) len (omega arith) (omega arith)))
    ]
  ]
