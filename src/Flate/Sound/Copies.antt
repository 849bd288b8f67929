-- ===== src/Flate/Sound/Copies.antt =====
-- Writing to the window and flushing it keep the state good.
use targz.Prelude.{
  ℕ, zero, suc, ◌+◌, ◌≤◌, ◌<◌, ◌≡◌, ◌∙◌, refl, Bool, true, false, length, arith, ltb, ◌==◌, ◌||◌,
  if◌then◌else◌, Bool-cases, Option-cases, inl, inr, length-set,
}
use targz.Flate.Dict.{
  DictDecoder, hist_size, avail_write, write_byte, read_flush, write_copy, avail_read,
}
use targz.Flate.Dict.Valid.{IsValid, read_flush-IsValid}
use targz.Flate.Dict.Copy.{copy_bytes, byte_back}
use targz.Flate.Dict.Refine.{fitting, write_copy-copy_bytes, try_write_copy-copy_bytes}
use targz.Flate.State.{Decompressor, state_init, state_dict}
use targz.Flate.Blocks.{
  flush, flush_final, send_checkpoint, finish_block, copy_match, write_literal,
}
use targz.Flate.Sound.{bits_left, IsGood, Ends}

-- The window after writing `k` bytes.
pub record IsGrown (dd : DictDecoder) (k : ℕ) (dd' : DictDecoder) : Type 0 where
  pub valid : IsValid dd'
  pub size : length dd'.hist ≡ length dd.hist
  pub left : avail_write dd' + k ≡ avail_write dd
  pub more : hist_size dd ≤ hist_size dd'

write_byte-IsGrown :
    (dd : DictDecoder) (c : ℕ) → IsValid dd → 0 < avail_write dd → IsGrown dd 1 (write_byte dd c)
unfolding write_byte avail_write hist_size
write_byte-IsGrown dd c v room = ground (arith, length-set dd.hist dd.wr_pos c)

pub copy_bytes-IsGrown :
    (k dist : ℕ) (dd : DictDecoder)
    → IsValid dd
    → k ≤ avail_write dd
    → IsGrown dd k (copy_bytes k dist dd)
unfolding copy_bytes
copy_bytes-IsGrown zero dist dd v room = record {
  valid = v;
  size = refl;
  left = omega arith;
  more = omega arith;
}
copy_bytes-IsGrown (suc k) dist dd v room =
    let g = write_byte-IsGrown dd (byte_back dd dist) v (omega arith) in
    let h =
      copy_bytes-IsGrown k dist (write_byte dd (byte_back dd dist)) g.valid
        (omega (arith, g.left)) in
    record {
      valid = h.valid;
      size = h.size ∙ g.size;
      left = omega (arith, h.left, g.left);
      more = omega (arith, h.more, g.more);
    }

fitting_all :
    (dd : DictDecoder) (dist len : ℕ)
    → (ltb dd.wr_pos dist || ltb (length dd.hist) (dd.wr_pos + len)) ≡ false
    → fitting dd len ≡ len
unfolding fitting
fitting_all dd dist len e = ground arith

-- The second call makes the copy where the first did nothing, and nothing where the first did it.
second_call :
    (dd : DictDecoder) (dist len : ℕ)
    → IsValid dd
    → 0 < dist
    → dist ≤ hist_size dd
    → fitting dd len ≡ len
    → (if len == 0
        then write_copy (copy_bytes len dist dd) dist len
        else (len, copy_bytes len dist dd))
      ≡ (fitting dd len, copy_bytes (fitting dd len) dist dd)
second_call dd dist zero v pos le e = unfold copy_bytes in write_copy-copy_bytes dd dist 0 v pos le
second_call dd dist (suc len) v pos le e = rw e (ground arith)

-- `tryWriteCopy` and behind it `writeCopy` where that copied nothing make the copy byte by byte,
-- as far as the window has room, for every distance from 1 to the size of the history.
pub copy_match-copy_bytes :
    (dd : DictDecoder) (dist len : ℕ)
    → IsValid dd
    → 0 < dist
    → dist ≤ hist_size dd
    → copy_match dd dist len ≡ (fitting dd len, copy_bytes (fitting dd len) dist dd)
unfolding copy_match
copy_match-copy_bytes dd dist len v pos le =
    elim (Bool-cases (ltb dd.wr_pos dist || ltb (length dd.hist) (dd.wr_pos + len))) [
      | inl e ↦
          rw (try_write_copy-copy_bytes dd dist len v pos, e)
            (write_copy-copy_bytes dd dist len v pos le)
      | inr e ↦
          rw (try_write_copy-copy_bytes dd dist len v pos, e)
            (second_call dd dist len v pos le (fitting_all dd dist len e))
    ]

hist_size-read_flush : (dd : DictDecoder) → IsValid dd → hist_size dd ≤ hist_size (read_flush dd).1
unfolding hist_size read_flush
hist_size-read_flush dd v = ground arith

module _ (cap wo total budget : ℕ) where
  abbrev Good : Decompressor → Type 0
  Good = IsGood cap wo total budget

  -- A flush makes the room that a good state has.
  pub flush-IsGood :
      (f : Decompressor)
      → IsValid f.dict
      → length f.dict.hist ≡ cap
      → f.woffset ≡ wo
      → f.roffset + length f.r.rest ≡ total
      → bits_left f ≤ budget
      → (f.step_state ≡ state_dict → (0 < f.copy_dist) × (f.copy_dist ≤ hist_size f.dict))
      → Good (flush f)
  unfolding flush
  flush-IsGood f v s w t b d =
      let (v', s', _, r) = read_flush-IsValid f.dict v in
      record {
        valid = v';
        size = s' ∙ s;
        room = r;
        flushed = w;
        consumed = t;
        bounded = b;
        waiting = λ e. ((d e).0, omega (arith, (d e).1, hist_size-read_flush f.dict v));
      }

  pub flush_again : (f : Decompressor) → Good f → Good (flush f)
  flush_again f g = flush-IsGood f g.valid g.size g.flushed g.consumed g.bounded g.waiting

  flush_final-IsGood : (f : Decompressor) → Good f → Good (flush_final f).1
  unfolding flush_final flush
  flush_final-IsGood f g = elim (Bool-cases f.final) [
    | inl e ↦ elim (Bool-cases (ltb 0 (avail_read f.dict))) [
      | inl p ↦ rw (e, p, flush_final) (flush_again f g)
      | inr p ↦ rw (e, p, flush_final) g
    ]
    | inr e ↦ rw (e, flush_final) g
  ]

  send_checkpoint-IsGood : (k : ℕ) (f : Decompressor) → Good f → Good (send_checkpoint k f)
  unfolding send_checkpoint
  send_checkpoint-IsGood k f g = elim (Option-cases f.updates) [
    | inl e ↦ rw (e, send_checkpoint) g
    | inr (sent, e) ↦ elim (Bool-cases (ltb (f.last + f.span) k)) [
      | inl p ↦ rw (e, send_checkpoint, p) g
      | inr p ↦ rw (e, send_checkpoint, p) g
    ]
  ]

  pub finish_block-IsGood : (f : Decompressor) → Good f → Good (finish_block f)
  unfolding finish_block
  finish_block-IsGood f g =
      send_checkpoint-IsGood (flush_final f).0 (flush_final f).1 (flush_final-IsGood f g)

  -- After a literal: go on with one place less, or stop behind a flush.
  abbrev pub Again : ℕ → Bool → Decompressor → Type 0
  Again n again f = Good f × (again ≡ true → avail_write f.dict < n)

  -- The state with a window that has grown, as long as there is room left.
  pub grown-IsGood :
      (f : Decompressor) (k : ℕ) {dict : DictDecoder}
      → Good f
      → IsGrown f.dict k dict
      → 0 < avail_write dict
      → Good (record f { dict = dict })
  grown-IsGood f k g w room = record {
    valid = w.valid;
    size = w.size ∙ g.size;
    room = room;
    flushed = g.flushed;
    consumed = g.consumed;
    bounded = g.bounded;
    waiting = λ e. ((g.waiting e).0, omega (arith, (g.waiting e).1, w.more));
  }

  pub write_literal-Ends :
      (v : ℕ) (f : Decompressor)
      → Good f
      → Ends (Again (avail_write f.dict)) Good (write_literal v f)
  unfolding write_literal
  write_literal-Ends v f g =
      let w = write_byte-IsGrown f.dict v g.valid g.room in
      elim (Bool-cases (avail_write (write_byte f.dict v) == 0)) [
        | inl e ↦
            rw (e, write_literal)
              (
                flush-IsGood (record f { dict = write_byte f.dict v; step_state = state_init })
                    w.valid (w.size ∙ g.size) g.flushed g.consumed g.bounded (λ p. absurd (cc p)),
                λ p. absurd (cc p),
              )
        | inr e ↦
            rw (e, write_literal) (grown-IsGood f 1 g w (ground arith), λ _. omega (arith, w.left))
      ]
