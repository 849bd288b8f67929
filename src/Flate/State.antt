-- ===== src/Flate/State.antt =====
-- gsip/internal/flate/inflate.go, the state of `Decompressor` and what every step is made of.
-- Offsets count bytes and stay far below 2^63, so `int64` is a number. The channel `updates` is
-- the list of the checkpoints sent so far, newest last, or `none` for a nil channel. `buf`, a
-- temporary buffer, is local to `Flate.Blocks.data_block`. A pointer to a Huffman table is the
-- table's name: `fixed_table` is the package's `fixedHuffmanDecoder`.
use targz.Prelude.{
  ℕ, zero, suc, ◌+◌, ◌-◌, ◌*◌, ◌/◌, ◌%◌, ◌^◌, bit_or, List, [], ◌∷◌, Bool, true, false, Option,
  some, ltb, if◌then◌else◌,
}
use targz.Flate.Dict.{DictDecoder}
use targz.Flate.Source.{Source, Error, no_eof}
use targz.Flate.Checkpoint.{Checkpoint}
use targz.Flate.Huffman.{HuffmanDecoder}

abbrev pub max_num_lit : ℕ
max_num_lit = 286

abbrev pub max_num_dist : ℕ
max_num_dist = 30

abbrev pub num_codes : ℕ
num_codes = 19

abbrev pub end_block_marker : ℕ
end_block_marker = 256

-- 32768, kept shut: a buffer of this size is not to be computed.
unfoldable pub max_match_offset : ℕ
max_match_offset = 2 ^ 15

-- The method that the field `step` holds.
pub data Step : Type 0 where
  next_block huffman_block copy_data : Step

pub data StepState : Type 0 where
  state_init state_dict : StepState

pub data TableName : Type 0 where
  fixed_table table1 table2 : TableName

pub record Decompressor : Type 0 where
  pub r : Source
  pub roffset : ℕ
  pub woffset : ℕ
  pub b : ℕ
  pub nb : ℕ
  pub h1 : HuffmanDecoder
  pub h2 : HuffmanDecoder
  pub bits : List ℕ
  pub codebits : List ℕ
  pub dict : DictDecoder
  pub step : Step
  pub step_state : StepState
  pub final : Bool
  pub err : Option Error
  pub to_read : List ℕ
  pub hl : Option TableName
  pub hd : Option TableName
  pub copy_len : ℕ
  pub copy_dist : ℕ
  pub span : ℕ
  pub last : ℕ
  pub updates : Option (List Checkpoint)

-- How a call ends: it returns a value, or an error; it panics; or a loop of the model has run out
-- of fuel, which `Flate.Sound` rules out. The decoder is the one that the call leaves.
pub data Outcome (A : Type 0) : Type 0 where
  done : A → Decompressor → Outcome A
  failed : Error → Decompressor → Outcome A
  panicked : Outcome A
  stuck : Outcome A

abbrev pub Action : Type 0 → Type 0
Action A = Decompressor → Outcome A

abbrev pub pure : {A : Type 0} → A → Action A
pure a f = done a f

abbrev pub then_outcome : {A B : Type 0} → Outcome A → (A → Action B) → Outcome B
then_outcome (done a f) k = k a f
then_outcome (failed e f) k = failed e f
then_outcome panicked k = panicked
then_outcome stuck k = stuck

infixl 5 ◌>>=◌ ◌>>◌
abbrev pub ◌>>=◌ : {A B : Type 0} → Action A → (A → Action B) → Action B
◌>>=◌ m k f = then_outcome (m f) k

abbrev pub ◌>>◌ : {B : Type 0} → Action Unit → Action B → Action B
m >> k = m >>= λ _. k

abbrev pub modify : (Decompressor → Decompressor) → Action Unit
modify g f = done tt (g f)

abbrev pub gets : {A : Type 0} → (Decompressor → A) → Action A
gets g f = done (g f) f

abbrev pub raise : {A : Type 0} → Error → Action A
raise e f = failed e f

-- `f.err = err; return`
abbrev pub catch_outcome : Outcome Unit → Outcome Unit
catch_outcome (done a f) = done a f
catch_outcome (failed e f) = done tt (record f { err = some e })
catch_outcome panicked = panicked
catch_outcome stuck = stuck

abbrev pub catch : Action Unit → Action Unit
catch m f = catch_outcome (m f)

-- `b | uint32(c) << nb`
abbrev pub or_byte : ℕ → ℕ → ℕ → ℕ
or_byte b c nb = bit_or b (c * 2 ^ nb % 2 ^ 32)

unfoldable pub more_bits_from : List ℕ → Action Unit
more_bits_from [] f = failed (no_eof f.r.fail) f
more_bits_from (c ∷ rest) f = done tt (record f {
  r = record { rest = rest; fail = f.r.fail };
  roffset = f.roffset + 1;
  b = or_byte f.b c f.nb;
  nb = f.nb + 8;
})

unfoldable pub more_bits : Action Unit
unfolding more_bits_from no_eof
more_bits f = more_bits_from f.r.rest f

-- `for f.nb < n { moreBits }`. A round adds eight bits, so `n` rounds are enough.
unfoldable pub need_bits : ℕ → ℕ → Action Unit
unfolding more_bits
need_bits zero n f = if ltb f.nb n then stuck else done tt f
need_bits (suc rounds) n f = elim (ltb f.nb n) [
  | true ↦ (do more_bits; need_bits rounds n) f
  | false ↦ done tt f
]

-- `f.b & uint32(1<<n-1)`, then `f.b >>= n` and `f.nb -= n`, which runs only at `n ≤ f.nb`.
unfoldable pub take_bits : ℕ → Action ℕ
take_bits n f = done (f.b % 2 ^ n) (record f { b = f.b / 2 ^ n; nb = f.nb - n })

-- The two together, as the code has them everywhere.
unfoldable pub read_bits : ℕ → Action ℕ
unfolding need_bits take_bits
read_bits n = do need_bits n n; take_bits n
