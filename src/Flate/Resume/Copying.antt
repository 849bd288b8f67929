-- ===== src/Flate/Resume/Copying.antt =====
-- The end of a block, and a copy that may stop for want of room: where two decoders stand that agree
-- on what is needed there.
use targz.Prelude.{
  ℕ, ◌+◌, ◌-◌, List, Bool, true, false, ◌||◌, Option, none, some, ltb, ◌==◌, if◌then◌else◌, ◌≡◌,
  refl, sym, length, arith, Bool-cases, Option-cases, inl, inr,
}
use mathlib.Core.Path.{subst}
use targz.Flate.Source.{eof}
use targz.Flate.Dict
use targz.Flate.Huffman.{HuffmanDecoder}
use targz.Flate.Checkpoint.{Checkpoint}
use targz.Flate.State.{
  Decompressor, Step, next_block, huffman_block, copy_data, StepState, state_init, state_dict,
  TableName, fixed_table, table1, table2, Action, done,
}
use targz.Flate.Blocks.{
  flush_final, send_checkpoint, finish_block, flush, copy_match, copy_history, table,
  fixed_huffman_decoder, start_copy, write_literal,
}
use targz.Flate.Resume.{
  Extras, extras, with_extras, Both, both_done, both_failed, both_panicked, SameCore, Like, change,
  like_any,
}
use targz.Flate.Resume.Tables.{Kept, done-Both}

-- The table that a name stands for is the same.
abbrev pub AgreesOn :
    Option TableName → HuffmanDecoder → HuffmanDecoder → HuffmanDecoder → HuffmanDecoder → Type 0
AgreesOn none h1 h2 g1 g2 = Unit
AgreesOn (some fixed_table) h1 h2 g1 g2 = Unit
AgreesOn (some table1) h1 h2 g1 g2 = h1 ≡ g1
AgreesOn (some table2) h1 h2 g1 g2 = h2 ≡ g2

-- The names that a compressed block has for its tables, and the tables.
pub record TablesAt (hl hd gl gd : Option TableName) (h1 h2 g1 g2 : HuffmanDecoder) : Type 0 where
  pub hl_same : hl ≡ gl
  pub hd_same : hd ≡ gd
  pub literals : AgreesOn hl h1 h2 g1 g2
  pub distances : AgreesOn hd h1 h2 g1 g2

-- What matters inside it.
abbrev pub InBlock : Extras → Extras → Type 0
InBlock x y = Kept x y × TablesAt x.hl x.hd y.hl y.hd x.h1 x.h2 y.h1 y.h2

-- Nothing is left to copy.
abbrev pub Still : Extras → Extras → Type 0
Still x y = (x.copy_len ≡ 0) × (y.copy_len ≡ 0)

abbrev pub Ended : Extras → Extras → Type 0
Ended x y = Kept x y × Still x y

-- Between the symbols of a block.
abbrev pub AtSymbol : Extras → Extras → Type 0
AtSymbol x y = InBlock x y × Still x y

-- A copy that goes on, by the state in which it was left.
abbrev pub Waiting : StepState → Extras → Extras → Type 0
Waiting state_init x y = Still x y
Waiting state_dict x y = (x.copy_len ≡ y.copy_len) × (x.copy_dist ≡ y.copy_dist)

-- What matters to the next step.
abbrev pub ForStep : Step → Extras → Extras → Type 0
ForStep next_block x y = Ended x y
ForStep huffman_block x y = InBlock x y × (x.step_state ≡ y.step_state) × Waiting x.step_state x y
ForStep copy_data x y = Kept x y × (x.copy_len ≡ y.copy_len)

-- Decoders that go on alike; after an error there is no further step.
abbrev pub Ready : Decompressor → Decompressor → Type 0
Ready f g = SameCore f g × (f.err ≡ none → ForStep f.step (extras f) (extras g))

-- In a block, between symbols or behind it.
abbrev pub Looping : Bool → Decompressor → Decompressor → Type 0
Looping true f g = Like AtSymbol f g
Looping false f g = Ready f g

-- Only the channel, and what was sent last, are changed.
sent :
    (w : ℕ) (f : Decompressor)
    → (l : ℕ) × (u : Option (List Checkpoint)) × (send_checkpoint w f
        ≡ record f { last = l; updates = u })
unfolding send_checkpoint
sent w f = elim (Option-cases f.updates) [
  | inl e ↦ rw (send_checkpoint, e) (f.last, f.updates, refl)
  | inr (before, e) ↦ elim (Bool-cases (ltb (f.last + f.span) w)) [
    | inl p ↦ rw (send_checkpoint, e, p) (_, _, refl)
    | inr p ↦ rw (send_checkpoint, e, p) (f.last, f.updates, refl)
  ]
]

finished :
    (w : ℕ) (f g : Decompressor)
    → Like Ended f g
    → Ready
        (record (send_checkpoint w f) { step = next_block })
        (record (send_checkpoint w g) { step = next_block })
finished w f g (e, (k, still)) =
    let (l, u, p) = sent w f in
    let (l', u', p') = sent w g in
    let next : Decompressor → Decompressor = λ z. record z { step = next_block } in
    subst (λ z. Ready (next z) (next (send_checkpoint w g))) (sym p)
      (subst (λ z. Ready (next (record f { last = l; updates = u })) (next z)) (sym p')
        (
          change (λ z. record z { last = l'; updates = u'; step = next_block }) f g e,
          λ _. (k, still),
        ))

-- `finishBlock` with its tests given.
abbrev finish_with : Bool → Bool → Decompressor → Decompressor
finish_with final waiting f =
    let (bytes, dict) = Dict.read_flush f.dict in
    let (woffset, f₁) : ℕ × Decompressor =
      if final
      then (if waiting
          then (f.woffset + length bytes, record f { to_read = bytes; dict = dict; err = some eof })
          else (f.woffset, record f { err = some eof }))
      else (f.woffset, f) in
    let f₂ = send_checkpoint woffset f₁ in record f₂ { step = next_block }

finish_with-Ready :
    (final waiting : Bool) (f : Decompressor) (y : Extras)
    → Ended (extras f) y
    → Ready (finish_with final waiting f) (finish_with final waiting (with_extras y f))
finish_with-Ready false waiting f y k = finished _ f (with_extras y f) (refl, k)
finish_with-Ready true true f y k =
    let (bytes, dict) = Dict.read_flush f.dict in
    let f₁ : Decompressor = record f { to_read = bytes; dict = dict; err = some eof } in
    finished _ f₁ (with_extras y f₁) (refl, k)
finish_with-Ready true false f y k =
    let f₁ : Decompressor = record f { err = some eof } in
    finished _ f₁ (with_extras y f₁) (refl, k)

-- Behind a block.
pub finish_block-Ready :
    (f g : Decompressor) → Like Ended f g → Ready (finish_block f) (finish_block g)
unfolding finish_block flush_final
finish_block-Ready f g h =
    like_any Ended (λ g. Ready (finish_block f) (finish_block g)) f g h
      (λ y k. finish_with-Ready f.final (ltb 0 (Dict.avail_read f.dict)) f y k)

-- `copyHistory` with the distance and the length given.
abbrev copy_with : ℕ → ℕ → Action Bool
copy_with dist len f =
    let (cnt, dict) = copy_match f.dict dist len in
    let f₁ : Decompressor = record f { dict = dict; copy_len = len - cnt } in
    if Dict.avail_write dict == 0 || ltb 0 f₁.copy_len
    then done false (record (flush f₁) { step = huffman_block; step_state = state_dict })
    else done true f₁

-- The tables and the distance.
abbrev pub Copying : Extras → Extras → Type 0
Copying x y = InBlock x y × (x.copy_dist ≡ y.copy_dist)

copied :
    (dist len : ℕ) (f : Decompressor) (y : Extras)
    → Copying (extras f) y
    → Both Looping SameCore (copy_with dist len f) (copy_with dist len (with_extras y f))
unfolding flush
copied dist len f y (k, d) =
    elim (Bool-cases (
      Dict.avail_write (copy_match f.dict dist len).1 == 0
      || ltb 0 (len - (copy_match f.dict dist len).0))) [
        | inl p ↦ rw p (both_done (refl, λ _. (k, refl, (refl, d))))
        | inr p ↦ rw p (both_done (refl, (k, (none_left _ _ p, none_left _ _ p))))
      ]
  where
    none_left : (b : Bool) (n : ℕ) → (b || ltb 0 n) ≡ false → n ≡ 0
    none_left true n h = absurd (cc h)
    none_left false n h = ground (arith, h)

pub copy_history-Both :
    (f g : Decompressor)
    → Like InBlock f g
    → f.copy_len ≡ g.copy_len
    → f.copy_dist ≡ g.copy_dist
    → Both Looping SameCore (copy_history f) (copy_history g)
unfolding copy_history
copy_history-Both f g (e, q) l d =
    subst (λ k. Both Looping SameCore (copy_history f) (copy_with k g.copy_len g)) d
      (subst (λ n. Both Looping SameCore (copy_history f) (copy_with f.copy_dist n g)) l
        (like_any Copying
          (λ g. Both Looping SameCore (copy_history f) (copy_with f.copy_dist f.copy_len g)) f g
          (e, (q, d)) (λ y k. copied f.copy_dist f.copy_len f y k)))

-- A literal, and a match.
pub write_literal-Both :
    (v : ℕ) (f g : Decompressor)
    → Like AtSymbol f g
    → Both Looping SameCore (write_literal v f) (write_literal v g)
unfolding write_literal flush
write_literal-Both v f g h =
    like_any AtSymbol (λ g. Both Looping SameCore (write_literal v f) (write_literal v g)) f g h
      (λ y (k, still). elim (Bool-cases (Dict.avail_write (Dict.write_byte f.dict v) == 0)) [
        | inl p ↦ rw (write_literal, p) (both_done (refl, λ _. (k, refl, still)))
        | inr p ↦ rw (write_literal, p) (both_done (refl, (k, still)))
      ])

pub start_copy-Both :
    (len dist : ℕ) (f g : Decompressor)
    → Like AtSymbol f g
    → Both Looping SameCore (start_copy len dist f) (start_copy len dist g)
unfolding start_copy
start_copy-Both len dist f g h =
    like_any AtSymbol (λ g. Both Looping SameCore (start_copy len dist f) (start_copy len dist g)) f
      g h
      (λ y (k, still). elim (Bool-cases (ltb (Dict.hist_size f.dict) dist)) [
        | inl p ↦ rw (start_copy, p) (both_failed refl)
        | inr p ↦ rw (start_copy, p) (copy_history-Both _ _ (refl, k) refl refl)
      ])

-- The table that a name stands for.
pub table-Both :
    (name : Option TableName) (f g : Decompressor)
    → Like AtSymbol f g
    → AgreesOn name f.h1 f.h2 g.h1 g.h2
    → Both (λ _. Like AtSymbol) SameCore (table name f) (table name g)
unfolding table
table-Both none f g h a = both_panicked
table-Both (some fixed_table) f g h a = elim (Option-cases fixed_huffman_decoder) [
  | inl e ↦ rw (table, e) both_panicked
  | inr (t, e) ↦ rw (table, e) (both_done h)
]
table-Both (some table1) f g h a = done-Both _ f.h1 g.h1 f g a h
table-Both (some table2) f g h a = done-Both _ f.h2 g.h2 f g a h
