-- ===== src/Flate/Dict/Window.antt =====
-- The methods of `dictDecoder` refine an output history that remembers `len(hist)` bytes.
use targz.Prelude.{
  ℕ, zero, suc, ◌+◌, ◌-◌, ◌≤◌, ◌<◌, min, ◌≡◌, ◌∙◌, refl, sym, ap, ap₂, List, [], ◌∷◌, ◌++◌, length,
  arith, take, drop, Bool-cases, inl, inr, take_all, drop_all, length-set, ◌==◌,
}
use mathlib.Core.List.{append_assoc, append-nil}
use targz.Flate.Dict.{DictDecoder, write_byte, write_copy, hist_size, read_flush, avail_write}
use targz.Flate.Dict.Valid.{IsValid}
use targz.Flate.Dict.Copy.{byte_back, copy_bytes}
use targz.Flate.Dict.Refine.{fitting, write_copy-copy_bytes}
use targz.Prelude.Slices.{slice}
use targz.Flate.Dict.History.{
  push, from_end, lz_copy, lz_bytes, history, pending, history-write_byte, pending-write_byte,
  byte_back-from_end,
}

-- One byte of a copy keeps what a copy needs.
copy_step :
    (dd : DictDecoder) (c dist cap n : ℕ)
    → IsValid dd
    → length dd.hist ≡ cap
    → dd.wr_pos + suc n ≤ cap
    → dist ≤ hist_size dd
    → IsValid (write_byte dd c)
      × (length (write_byte dd c).hist ≡ cap)
      × ((write_byte dd c).wr_pos + n ≤ cap)
      × (dist ≤ hist_size (write_byte dd c))
unfolding write_byte hist_size
copy_step dd c dist cap n v e room le = ground (arith, length-set dd.hist dd.wr_pos c)

module _ (dist cap : ℕ) (pos : 0 < dist) where
  abbrev next : DictDecoder → DictDecoder
  next dd = write_byte dd (byte_back dd dist)

  next-history :
      (dd : DictDecoder)
      → IsValid dd
      → length dd.hist ≡ cap
      → dd.wr_pos < cap
      → dist ≤ hist_size dd
      → history (next dd) ≡ push cap (history dd) (from_end (history dd) dist)
  next-history dd v e room le =
      history-write_byte dd (byte_back dd dist) (omega arith)
      ∙ ap₂ (λ k c. push k (history dd) c) e (byte_back-from_end dd dist v pos le)

  copy_bytes-history :
      (n : ℕ) (dd : DictDecoder)
      → IsValid dd
      → length dd.hist ≡ cap
      → dd.wr_pos + n ≤ cap
      → dist ≤ hist_size dd
      → (history (copy_bytes n dist dd) ≡ lz_copy cap n dist (history dd))
        × (pending (copy_bytes n dist dd) ≡ pending dd ++ lz_bytes cap n dist (history dd))
  unfolding copy_bytes lz_copy lz_bytes
  copy_bytes-history zero dd v e room le = (refl, sym (append-nil (pending dd)))
  copy_bytes-history (suc n) dd v e room le =
      let (v', e', room', le') = copy_step dd (byte_back dd dist) dist cap n v e room le in
      let rest = copy_bytes-history n (next dd) v' e' room' le' in
      let h = next-history dd v e (omega arith) le in
      (
        rest.0 ∙ ap (lz_copy cap n dist) h,
        rest.1
            ∙ ap₂ ◌++◌
                (pending-write_byte dd (byte_back dd dist) v (omega arith)
                  ∙ ap (λ c. pending dd ++ (c ∷ [])) (byte_back-from_end dd dist v pos le))
                (ap (lz_bytes cap n dist) h)
            ∙ append_assoc (pending dd) (from_end (history dd) dist ∷ []) _,
      )

-- `writeCopy` into a valid window, for a distance from 1 to the size of the history, is the copy
-- of RFC 1951 on the bounded output history, cut at the end of the array.
pub write_copy_refines :
    (dd : DictDecoder) (dist len : ℕ)
    → IsValid dd
    → 0 < dist
    → dist ≤ hist_size dd
    → let (n, dd') = write_copy dd dist len in
      (n ≡ min len (avail_write dd))
      × (history dd' ≡ lz_copy (length dd.hist) n dist (history dd))
      × (pending dd' ≡ pending dd ++ lz_bytes (length dd.hist) n dist (history dd))
unfolding fitting
write_copy_refines dd dist len v pos le =
    let rest = copy_bytes-history dist (length dd.hist) pos (fitting dd len) dd v refl room le in
    rw (write_copy-copy_bytes dd dist len v pos le) (refl, rest.0, rest.1)
  where
    room : dd.wr_pos + fitting dd len ≤ length dd.hist
    room = omega (arith, v.write_in)

nothing_between : (h : List ℕ) (i : ℕ) → slice h i i ≡ []
nothing_between h i = ap (λ k. take k (drop i h)) none_left
  where
    none_left : i - i ≡ 0
    none_left = omega arith

-- At the end of the window the history is the whole array.
history_at_end : (dd : DictDecoder) → dd.wr_pos ≡ length dd.hist → history dd ≡ dd.hist ++ []
unfolding history
history_at_end dd e = elim (Bool-cases dd.full) [
  | inl f ↦
      rw (f, take_all dd.wr_pos dd.hist (omega arith), drop_all dd.wr_pos dd.hist (omega arith))
        (sym (append-nil dd.hist))
  | inr f ↦ rw (f, take_all dd.wr_pos dd.hist (omega arith)) (sym (append-nil dd.hist))
]

-- `readFlush` of a valid window returns the bytes that were pending, leaves none pending, and
-- keeps the history.
pub read_flush_refines :
    (dd : DictDecoder)
    → ((read_flush dd).0 ≡ pending dd)
      × (history (read_flush dd).1 ≡ history dd)
      × (pending (read_flush dd).1 ≡ [])
unfolding read_flush pending
read_flush_refines dd = elim (Bool-cases (dd.wr_pos == length dd.hist)) [
  | inl e ↦ rw e (refl, unfold history in sym (history_at_end dd (ground arith)), refl)
  | inr e ↦ rw e (refl, unfold history in refl, nothing_between dd.hist dd.wr_pos)
]
