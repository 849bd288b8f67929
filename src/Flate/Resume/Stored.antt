-- ===== src/Flate/Resume/Stored.antt =====
-- A stored block, and how a compressed one begins.
use targz.Prelude.{
  ℕ, suc, ◌+◌, ◌-◌, ◌≤◌, ◌<◌, min, List, Bool, true, false, ◌||◌, Option, none, some, ltb, ◌==◌,
  if◌then◌else◌, ◌≡◌, refl, ap, sym, ◌∙◌, length, arith, Bool-cases, Option-cases, inl, inr,
}
use mathlib.Core.Path.{subst}
use targz.Flate.Dict
use targz.Flate.Dict.{DictDecoder}
use targz.Flate.Dict.Valid.{IsValid}
use targz.Flate.Dict.Copy.{copy_bytes}
use targz.Flate.Dict.Refine.{fitting}
use targz.Flate.Sound.Copies.{copy_match-copy_bytes}
use targz.Flate.Source.{Error, no_eof, read_full}
use targz.Flate.State.{
  Decompressor, huffman_block, copy_data, StepState, state_init, state_dict, Action, Outcome, done,
  pure, then_outcome,
}
use targz.Flate.Blocks.{
  flush, finish_block, received, after_read, run_copy_data, stored_length, after_length, data_block,
  copy_match, copy_history, block_loop, resume_block, run_huffman_block,
}
use targz.Flate.Resume.{Extras, extras, with_extras, Both, SameCore, Like, change, like_any}
use targz.Flate.Resume.Tables.{Kept}
use targz.Flate.Resume.Copying.{Ended, AtSymbol, Ready, finish_block-Ready}
use targz.Flate.Resume.Loop.{block_loop-Both, catch_outcome-Both}

-- What matters to the copy of a stored block.
abbrev Stored : Extras → Extras → Type 0
Stored x y = Kept x y × (x.copy_len ≡ y.copy_len)

-- `copyData` behind `io.ReadFull`, with the length given.
abbrev after_with : ℕ → Decompressor → Decompressor
after_with len f =
    if Dict.avail_write f.dict == 0 || ltb 0 len
    then record (flush f) { step = copy_data }
    else finish_block f

none_left : (b : Bool) (n : ℕ) → (b || ltb 0 n) ≡ false → n ≡ 0
none_left true n h = absurd (cc h)
none_left false n h = ground (arith, h)

after_with-Ready :
    (len : ℕ) (f : Decompressor) (y : Extras)
    → Stored (extras f) y
    → f.copy_len ≡ len
    → Ready (after_with len f) (after_with len (with_extras y f))
unfolding flush
after_with-Ready len f y (k, l) e = elim (Bool-cases (Dict.avail_write f.dict == 0 || ltb 0 len)) [
  | inl p ↦ rw p (refl, λ _. (k, l))
  | inr p ↦ rw p (
      finish_block-Ready f (with_extras y f)
        (refl, (k, (e ∙ none_left _ len p, sym l ∙ e ∙ none_left _ len p))))
]

after_read-Ready :
    (err : Option Error) (f g : Decompressor)
    → Like Stored f g
    → Ready (after_read f err) (after_read g err)
unfolding after_read
after_read-Ready (some e) f g (h, k) =
    (change (λ z. record z { err = some (no_eof e) }) f g h, λ q. absurd (cc q))
after_read-Ready none f g (h, (k, l)) =
    subst (λ n. Ready (after_with f.copy_len f) (after_with n g)) l
      (like_any Stored (λ g. Ready (after_with f.copy_len f) (after_with f.copy_len g)) f g
        (h, (k, l)) (λ y k. after_with-Ready f.copy_len f y k refl))

-- `copyData` with the length given.
abbrev copy_of : ℕ → Decompressor → Decompressor
copy_of len f =
    let got = read_full (min (Dict.avail_write f.dict) len) f.r in
    after_read (received f got (length got.bytes)) got.err

pub run_copy_data-Ready :
    (f g : Decompressor) → Like Stored f g → Ready (run_copy_data f) (run_copy_data g)
unfolding run_copy_data received
run_copy_data-Ready f g (h, (k, l)) =
    subst (λ n. Ready (copy_of f.copy_len f) (copy_of n g)) l
      (like_any Stored (λ g. Ready (copy_of f.copy_len f) (copy_of f.copy_len g)) f g (h, (k, l))
        (λ y (k, l). after_read-Ready _ _ _ (
          refl,
          (
            k,
            ap (λ n. n - length (read_full (min (Dict.avail_write f.dict) f.copy_len) f.r).bytes) l,
          ),
        )))

after_length-Ready :
    (buf : List ℕ) (err : Option Error) (f g : Decompressor)
    → Like Ended f g
    → Ready (after_length f buf err) (after_length g buf err)
unfolding after_length flush
after_length-Ready buf (some e) f g (h, k) =
    (change (λ z. record z { err = some (no_eof e) }) f g h, λ q. absurd (cc q))
after_length-Ready buf none f g h =
    like_any Ended (λ g. Ready (after_length f buf none) (after_length g buf none)) f g h
      (λ y k. elim (Option-cases (stored_length buf)) [
        | inl e ↦ rw (after_length, e) (refl, λ q. absurd (cc q))
        | inr (n, e) ↦ elim (Bool-cases (n == 0)) [
          | inl p ↦
              rw (after_length, e, p)
                (finish_block-Ready (flush f) (flush (with_extras y f)) (flushed y k))
          | inr p ↦ rw (after_length, e, p) (run_copy_data-Ready _ _ (refl, (k.0, refl)))
        ]
      ])
  where
    flushed : (y : Extras) → Ended (extras f) y → Like Ended (flush f) (flush (with_extras y f))
    flushed y k = (refl, k)

pub data_block-Ready : (f g : Decompressor) → Like Ended f g → Ready (data_block f) (data_block g)
unfolding data_block
data_block-Ready f g h =
    like_any Ended (λ g. Ready (data_block f) (data_block g)) f g h
      (λ y k.
        let got = read_full 4 f.r in
        let f₁ : Decompressor = record f {
          nb = 0;
          b = 0;
          r = got.source;
          roffset = f.roffset + length got.bytes;
        } in
        after_length-Ready got.bytes got.err f₁ (with_extras y f₁) (refl, k))

-- A window with room, and a distance that it covers if a copy is to go on.
pub record IsFine (f : Decompressor) : Type 0 where
  pub valid : IsValid f.dict
  pub room : 0 < Dict.avail_write f.dict
  pub waiting :
      f.step_state ≡ state_dict → (0 < f.copy_dist) × (f.copy_dist ≤ Dict.hist_size f.dict)

nothing_copied :
    (dd : DictDecoder) (dist len : ℕ)
    → IsValid dd
    → (0 < dist) × (dist ≤ Dict.hist_size dd)
    → len ≡ 0
    → copy_match dd dist len ≡ (0, dd)
unfolding copy_bytes fitting Dict.avail_write
nothing_copied dd dist len v (pos, le) z =
    copy_match-copy_bytes dd dist len v pos le ∙ ap (λ n. (n, copy_bytes n dist dd)) none_fit
  where
    none_fit : fitting dd len ≡ 0
    none_fit = omega (arith, z)

-- What `copyHistory` does behind the copy.
abbrev copied_on : Decompressor → ℕ × DictDecoder → Outcome Bool
copied_on f (cnt, dict) =
    let f₁ : Decompressor = record f { dict = dict; copy_len = f.copy_len - cnt } in
    if Dict.avail_write dict == 0 || ltb 0 f₁.copy_len
    then done false (record (flush f₁) { step = huffman_block; step_state = state_dict })
    else done true f₁

-- A copy of nothing does nothing.
copy_history-nothing :
    (f : Decompressor)
    → IsFine f
    → f.step_state ≡ state_dict
    → f.copy_len ≡ 0
    → copy_history f ≡ done true f
unfolding copy_history
copy_history-nothing f fine s z =
    ap (copied_on f) (nothing_copied f.dict f.copy_dist f.copy_len fine.valid (fine.waiting s) z)
    ∙ rw (no_room (Dict.avail_write f.dict) fine.room, nothing_left z)
        (ap (λ n. done true (record f { copy_len = n })) (same_len f.copy_len))
  where
    no_room : (n : ℕ) → 0 < n → (n == 0) ≡ false
    no_room n lt = ground (arith, lt)

    same_len : (n : ℕ) → n - 0 ≡ n
    same_len n = omega arith

    nothing_left : f.copy_len ≡ 0 → ltb 0 (f.copy_len - 0) ≡ false
    nothing_left z = ground (arith, z)

-- A block that begins, whatever the state that an earlier one has left.
started :
    (rounds : ℕ) (state : StepState) (f : Decompressor)
    → IsFine f
    → f.step_state ≡ state
    → f.copy_len ≡ 0
    → resume_block rounds state f ≡ block_loop rounds f
unfolding resume_block
started rounds state_init f fine s z = refl
started rounds state_dict f fine s z =
    ap
      (λ o.
        then_outcome o (λ again. elim again as (λ _. Action Unit) [
          | true ↦ block_loop rounds
          | false ↦ pure tt
        ]))
      (copy_history-nothing f fine s z)

pub block_starts :
    (f g : Decompressor)
    → Like AtSymbol f g
    → IsFine f
    → IsFine g
    → Both (λ _. Ready) SameCore (run_huffman_block f) (run_huffman_block g)
unfolding run_huffman_block
block_starts f g h fine fine' = catch_outcome-Both (
    subst
      (λ o.
        Both (λ _. Ready) SameCore o (resume_block (suc (Dict.avail_write g.dict)) g.step_state g))
      (sym (started (suc (Dict.avail_write f.dict)) f.step_state f fine refl h.1.1.0))
      (subst (λ o. Both (λ _. Ready) SameCore (block_loop (suc (Dict.avail_write f.dict)) f) o)
        (sym (started (suc (Dict.avail_write g.dict)) g.step_state g fine' refl h.1.1.1))
        (subst
          (λ d.
            Both (λ _. Ready) SameCore (block_loop (suc (Dict.avail_write f.dict)) f)
              (block_loop (suc (Dict.avail_write d)) g))
          (sym (change_dict h.0)) (block_loop-Both (suc (Dict.avail_write f.dict)) f g h))))
  where
    change_dict : SameCore f g → g.dict ≡ f.dict
    change_dict e = ap (λ z. z.dict) e
