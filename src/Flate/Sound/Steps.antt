-- ===== src/Flate/Sound/Steps.antt =====
-- Every step of the decoder ends and keeps the state good.
use targz.Prelude.{
  ltb→le, ℕ, ◌+◌, ◌≤◌, ◌<◌, ◌≡◌, sym, Option, none, some, List, length, arith, ltb, ◌==◌,
  if◌then◌else◌, Bool-cases, Option-cases, inl, inr, ltb→lt, length-take, length-drop, take, drop,
}
use targz.Prelude.Slices.{copy_into}
use targz.Flate.Source.{Source, Got, read_full, Error}
use targz.Flate.Dict.{DictDecoder, hist_size, avail_write, fill_slice, write_mark}
use targz.Flate.Dict.Valid.{IsValid, fill_slice-IsValid}
use targz.Flate.State.{
  Decompressor, max_num_lit, TableName, fixed_table, table1, table2, Outcome, pure, ◌>>=◌,
  read_bits,
}
use targz.Flate.Symbols.{huff_sym}
use targz.Flate.Blocks.{
  fixed_huffman_decoder, table, dist_bits, dist_of, dist_sym, read_dist, length_base, read_match,
  length_of, start_copy, use_symbol,
}
use targz.Flate.Sound.{IsGood, IsQuiet, Ends, bind-Ends, weaken-Ends, if-Ends}
use targz.Flate.Sound.Bits.{read_bits-Ends}
use targz.Flate.Sound.Symbols.{Spent, huff_sym-Ends}
use targz.Flate.Sound.Copies.{Again, IsGrown, finish_block-IsGood, write_literal-Ends}
use targz.Flate.Sound.Histories.{copy_history-Ends}

-- `io.ReadFull` returns the front of the source, and less than it was asked for if it fails.
pub record IsRead (n : ℕ) (s : Source) (got : Got) : Type 0 where
  pub front : length got.bytes + length got.source.rest ≡ length s.rest
  pub at_most : length got.bytes ≤ n
  pub whole : got.err ≡ none → length got.bytes ≡ n
  pub short : (e : Error) → got.err ≡ some e → length got.bytes < n

pub read_full-IsRead : (n : ℕ) (s : Source) → IsRead n s (read_full n s)
unfolding read_full
read_full-IsRead n s = elim (Bool-cases (ltb (length s.rest) n)) [
  | inl e ↦ elim (Bool-cases (length (take n s.rest) == 0)) [
    | inl z ↦
        rw (e, z)
          (record {
            front = whole;
            at_most = few;
            whole = λ p. absurd (cc p);
            short = λ _ _. less (ltb→lt _ _ e);
          })
    | inr z ↦
        rw (e, z)
          (record {
            front = whole;
            at_most = few;
            whole = λ p. absurd (cc p);
            short = λ _ _. less (ltb→lt _ _ e);
          })
  ]
  | inr e ↦ rw e (record {
    front = whole;
    at_most = few;
    whole = λ _. all (ltb→le _ _ e);
    short = λ _ p. absurd (cc p);
  })
]
  where
    whole : length (take n s.rest) + length (drop n s.rest) ≡ length s.rest
    whole = omega (arith, length-take n s.rest, length-drop n s.rest)

    all : n ≤ length s.rest → length (take n s.rest) ≡ n
    all le = omega (arith, length-take n s.rest)

    few : length (take n s.rest) ≤ n
    few = omega (arith, length-take n s.rest)

    less : length s.rest < n → length (take n s.rest) < n
    less lt = omega (arith, length-take n s.rest)

pub fill-IsGrown :
    (dd : DictDecoder) (bytes : List ℕ)
    → IsValid dd
    → length bytes ≤ avail_write dd
    → IsGrown dd (length bytes) (write_mark (fill_slice dd bytes) (length bytes))
unfolding avail_write hist_size
fill-IsGrown dd bytes v fits =
    let (v', s') = fill_slice-IsValid dd bytes (length bytes) v (unfold avail_write in fits) in
    record { valid = v'; size = s'; left = left s'; more = more s' }
  where
    left :
        length (write_mark (fill_slice dd bytes) (length bytes)).hist ≡ length dd.hist
        → avail_write (write_mark (fill_slice dd bytes) (length bytes)) + length bytes
          ≡ avail_write dd
    left e = unfold write_mark fill_slice copy_into in omega (arith, e)

    more :
        length (write_mark (fill_slice dd bytes) (length bytes)).hist ≡ length dd.hist
        → hist_size dd ≤ hist_size (write_mark (fill_slice dd bytes) (length bytes))
    more e = unfold write_mark fill_slice copy_into in ground (arith, e)

length_base_pos : (v : ℕ) → 257 ≤ v → 3 ≤ (length_base v).0
unfolding length_base
length_base_pos v h = ground arith

dist_of_pos : (sym extra : ℕ) → 0 < dist_of sym extra
unfolding dist_of
dist_of_pos sym extra = omega arith

module _ (cap wo total budget n : ℕ) where
  abbrev pub Quiet : Decompressor → Type 0
  Quiet = IsQuiet cap wo total budget n

  abbrev pub Post : {A : Type 0} → A → Decompressor → Type 0
  Post a f = Quiet f

  pub table-Ends :
      (name : Option TableName) (f : Decompressor) → Quiet f → Ends Post Quiet (table name f)
  unfolding table
  table-Ends none f q = tt
  table-Ends (some fixed_table) f q = elim (Option-cases fixed_huffman_decoder) [
    | inl e ↦ rw (e, table) tt
    | inr (h, e) ↦ rw (e, table) q
  ]
  table-Ends (some table1) f q = q
  table-Ends (some table2) f q = q

  pub sym_of-Ends :
      (name : Option TableName) (f : Decompressor)
      → Quiet f
      → Ends (Spent cap wo total budget n) Quiet ((table name >>= λ h. huff_sym h) f)
  sym_of-Ends name f q =
      bind-Ends Post (Spent cap wo total budget n) Quiet (table name) _ f (table-Ends name f q)
        (λ h f' p. huff_sym-Ends cap wo total budget n h f' p)

  length_of-Ends :
      (v : ℕ) (f : Decompressor)
      → 257 ≤ v
      → Quiet f
      → Ends (λ len f'. Quiet f' × (3 ≤ len)) Quiet (length_of v f)
  unfolding length_of
  length_of-Ends v f big q =
      bind-Ends Post (λ len f'. Quiet f' × (3 ≤ len)) Quiet
        (if ltb 0 (length_base v).1 then read_bits (length_base v).1 else pure 0) _ f
        (if-Ends Post Quiet (ltb 0 (length_base v).1) _ _ f
          (read_bits-Ends cap wo total budget n (length_base v).1 f q) q)
        (λ extra f' p. (p, omega (arith, length_base_pos v big)))

  dist_sym-Ends : (f : Decompressor) → Quiet f → Ends Post Quiet (dist_sym f)
  unfolding dist_sym
  dist_sym-Ends f q = elim (Option-cases f.hd) [
    | inl e ↦
        rw (e, dist_sym)
          (bind-Ends Post Post Quiet (read_bits 5) _ f (read_bits-Ends cap wo total budget n 5 f q)
            (λ x f' p. p))
    | inr (name, e) ↦
        rw (e, dist_sym)
          (weaken-Ends (Spent cap wo total budget n) Post Quiet Quiet (λ _ _ h. h.0) (λ _ h. h)
            ((table (some name) >>= λ h. huff_sym h) f) (sym_of-Ends (some name) f q))
  ]

  read_dist-Ends :
      (f : Decompressor) → Quiet f → Ends (λ dist f'. Quiet f' × (0 < dist)) Quiet (read_dist f)
  unfolding read_dist
  read_dist-Ends f q =
      bind-Ends Post (λ dist f'. Quiet f' × (0 < dist)) Quiet dist_sym _ f (dist_sym-Ends f q)
        λ sym f' p.
          if-Ends (λ dist f'. Quiet f' × (0 < dist)) Quiet (ltb sym 4) _ _ f' (p, omega arith)
            (if-Ends (λ dist f'. Quiet f' × (0 < dist)) Quiet (ltb sym 30) _ _ f'
              (bind-Ends Post (λ dist f'. Quiet f' × (0 < dist)) Quiet (read_bits (dist_bits sym)) _
                f' (read_bits-Ends cap wo total budget n (dist_bits sym) f' p)
                (λ extra f₂ p₂. (p₂, dist_of_pos sym extra)))
              p)

-- What `readLiteral` and `huffmanBlock` leave.
module _ (cap wo total budget : ℕ) where
  abbrev pub Good : Decompressor → Type 0
  Good = IsGood cap wo total budget

  start_copy-Ends :
      (n len dist : ℕ) (f : Decompressor)
      → 0 < len
      → 0 < dist
      → IsQuiet cap wo total budget n f
      → Ends (Again cap wo total budget n) Good (start_copy len dist f)
  unfolding start_copy
  start_copy-Ends n len dist f some_len pos q = elim (Bool-cases (ltb (hist_size f.dict) dist)) [
    | inl e ↦ rw e q.0
    | inr e ↦ rw e (
        copy_history-Ends cap wo total budget n (record f { copy_len = len; copy_dist = dist })
          (record {
            valid = q.0.valid;
            size = q.0.size;
            room = q.0.room;
            flushed = q.0.flushed;
            consumed = q.0.consumed;
            bounded = q.0.bounded;
            waiting = λ _. (pos, ground arith);
          })
          pos (ground arith) (omega (arith, q.1)))
  ]

  -- Reading fails in a state that is as good as it was.
  pub quiet-Ends :
      {A : Type 0} (n : ℕ) (Q : A → Decompressor → Type 0) (o : Outcome A)
      → Ends Q (IsQuiet cap wo total budget n) o
      → Ends Q Good o
  quiet-Ends n Q o =
      weaken-Ends Q Q (IsQuiet cap wo total budget n) Good (λ _ _ h. h) (λ _ h. h.0) o

  read_match-Ends :
      (v n : ℕ) (f : Decompressor)
      → 257 ≤ v
      → IsQuiet cap wo total budget n f
      → Ends (Again cap wo total budget n) Good (read_match v f)
  unfolding read_match
  read_match-Ends v n f big q =
      bind-Ends (λ len f'. IsQuiet cap wo total budget n f' × (3 ≤ len))
        (Again cap wo total budget n) Good (length_of v) _ f
        (quiet-Ends n (λ len f'. IsQuiet cap wo total budget n f' × (3 ≤ len)) (length_of v f)
          (length_of-Ends cap wo total budget n v f big q))
        λ len f₁ h₁.
          bind-Ends (λ dist f'. IsQuiet cap wo total budget n f' × (0 < dist))
            (Again cap wo total budget n) Good read_dist _ f₁
            (quiet-Ends n (λ dist f'. IsQuiet cap wo total budget n f' × (0 < dist)) (read_dist f₁)
              (read_dist-Ends cap wo total budget n f₁ h₁.0))
            λ dist f₂ h₂. start_copy-Ends n len dist f₂ (omega (arith, h₁.1)) h₂.1 h₂.0

  pub use_symbol-Ends :
      (n v : ℕ) (f : Decompressor)
      → IsQuiet cap wo total budget n f
      → Ends (Again cap wo total budget n) Good (use_symbol v f)
  unfolding use_symbol
  use_symbol-Ends n v f q = elim (Bool-cases (ltb v 256)) [
    | inl e ↦ rw e (
        weaken-Ends (Again cap wo total budget (avail_write f.dict)) (Again cap wo total budget n)
          Good Good (λ _ _ h. (h.0, λ a. omega (arith, h.1 a, q.1))) (λ _ h. h) _
          (write_literal-Ends cap wo total budget v f q.0))
    | inr e ↦ elim (Bool-cases (v == 256)) [
      | inl e' ↦ rw (e, e') (finish_block-IsGood cap wo total budget f q.0, λ p. absurd (cc p))
      | inr e' ↦ elim (Bool-cases (ltb v max_num_lit)) [
        | inl e₂ ↦ rw (e, e', e₂) (read_match-Ends v n f (ground arith) q)
        | inr e₂ ↦ rw (e, e', e₂) q.0
      ]
    ]
  ]
