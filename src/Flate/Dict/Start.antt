-- ===== src/Flate/Dict/Start.antt =====
-- gsip/internal/flate/dict_decoder.go, `init`: the window that a preset dictionary makes.
use mathlib.Core.List.{append-nil}
use targz.Prelude.{
  ℕ, ◌-◌, ◌≤◌, ◌<◌, ◌≡◌, ◌∙◌, refl, sym, ap, List, [], ◌∷◌, ltb, ◌==◌, true, false, length, take,
  drop, min, arith, Bool-cases, inl, inr, take_all, length-drop, ltb→le,
}
use targz.Prelude.Slices.{overwrite, copy_into, length-overwrite}
use targz.Flate.Dict.{DictDecoder, init, load, array_of, tail_of, avail_read, avail_write}
use targz.Flate.Dict.Valid.{IsValid, init-IsValid, length-array_of}
use targz.Flate.Dict.History.{history}

-- What is written at the front of an array stands there.
take-overwrite :
    (xs ys : List ℕ) → length ys ≤ length xs → take (length ys) (overwrite xs 0 ys) ≡ ys
unfolding overwrite
take-overwrite [] [] h = refl
take-overwrite [] (y ∷ ys) h = absurd (omega arith)
take-overwrite (x ∷ xs) [] h = refl
take-overwrite (x ∷ xs) (y ∷ ys) h = ap (◌∷◌ y) (take-overwrite xs ys (omega arith))

tail_of-drop : (size : ℕ) (dict : List ℕ) → tail_of size dict ≡ drop (length dict - size) dict
tail_of-drop size dict = elim (Bool-cases (ltb size (length dict))) [
  | inl p ↦ rw p refl
  | inr p ↦ rw p (ap (λ k. drop k dict) (none_dropped (ltb→le size (length dict) p)))
]
  where
    none_dropped : length dict ≤ size → 0 ≡ length dict - size
    none_dropped h = omega (arith, h)

-- A window that holds this history has been read, and has room.
abbrev Starts : List ℕ → DictDecoder → Type 0
Starts w d = (history d ≡ w) × (avail_read d ≡ 0) × (0 < avail_write d)

load_text :
    (hist w : List ℕ) → length w ≤ length hist → take (min (length hist - 0) (length w)) w ≡ w
load_text hist w h = take_all _ w (omega arith)

load-Starts :
    (hist dict w : List ℕ)
    → 0 < length hist
    → tail_of (length hist) dict ≡ w
    → length w ≤ length hist
    → Starts w (load hist dict)
unfolding load copy_into history avail_read avail_write
load-Starts hist dict w pos e le =
    elim (Bool-cases (min (length hist - 0) (length w) == length (overwrite hist 0 w))) [
      | inl p ↦
          rw (load, e, load_text hist w le, p)
            (
              append-nil (overwrite hist 0 w)
                  ∙ sym (take_all (length w) (overwrite hist 0 w) (all_written p))
                  ∙ take-overwrite hist w le,
              refl,
              omega (arith, pos, length-overwrite hist 0 w),
            )
      | inr p ↦
          rw (load, e, load_text hist w le, p)
            (
              ap (λ k. take k (overwrite hist 0 w)) counted ∙ take-overwrite hist w le,
              omega arith,
              not_all p,
            )
    ]
  where
    counted : min (length hist - 0) (length w) ≡ length w
    counted = omega (arith, le)

    all_written :
        (min (length hist - 0) (length w) == length (overwrite hist 0 w)) ≡ true
        → length (overwrite hist 0 w) ≤ length w
    all_written p = ground (arith, p)

    not_all :
        (min (length hist - 0) (length w) == length (overwrite hist 0 w)) ≡ false
        → 0 < length (overwrite hist 0 w) - min (length hist - 0) (length w)
    not_all p = ground (arith, p, le, length-overwrite hist 0 w)

-- `init` makes a valid window of the size asked for, with nothing to read and room to write, whose
-- history are the last bytes of the dictionary, as many as the window holds, whatever the decoder
-- was before.
pub init-history :
    (dd : DictDecoder) (size : ℕ) (dict : List ℕ)
    → 0 < size
    → IsValid (init dd size dict)
      × (length (init dd size dict).hist ≡ size)
      × (history (init dd size dict) ≡ drop (length dict - size) dict)
      × (avail_read (init dd size dict) ≡ 0)
      × (0 < avail_write (init dd size dict))
unfolding init
init-history dd size dict pos =
    let h = array_of dd.hist size in
    let (v, fits) = init-IsValid dd size dict pos in
    let sized = length-array_of dd.hist size in
    let (text, read, room) =
      load-Starts h dict (drop (length dict - size) dict) (omega (arith, sized, pos))
        (tail_of-drop (length h) dict ∙ ap (λ k. drop (length dict - k) dict) sized)
        (omega (arith, sized, length-drop (length dict - size) dict)) in
    (v, fits, text, read, room)
