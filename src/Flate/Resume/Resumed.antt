-- ===== src/Flate/Resume/Resumed.antt =====
-- A decoder that `Continue` makes of a checkpoint, against the one that has sent it.
use targz.Prelude.{
  ℕ, List, [], ◌∷◌, Bool, false, Option, none, ◌≡◌, ◌≢◌, ◌⊎◌, ◌==◌, inl, inr, arith, refl, ap, sym,
  ◌∙◌, length, length-replicate, ◌+◌,
}
use mathlib.Core.Path.{subst}
use targz.Flate.Source.{Error}
use targz.Flate.Dict.{DictDecoder}
use targz.Flate.Huffman
use targz.Flate.Huffman.{HuffmanDecoder}
use targz.Flate.Checkpoint.{Checkpoint}
use targz.Flate.State.{
  Decompressor, Step, next_block, Action, pure, ◌>>=◌, max_match_offset, max_num_lit, max_num_dist,
  num_codes,
}
use targz.Flate.Blocks.{checkpoint_of}
use targz.Flate.Reading.{read, fresh, continue_from}
use targz.Flate.Sound.{bits_left}
use targz.Flate.Sound.Whole.{IsSane}
use targz.Flate.Sound.Starts.{restored-checkpoint_of, continue_from-IsSane}
use targz.Flate.Resume.{extras, Both, both_done, SameCore, bind-Both}
use targz.Flate.Resume.Tables.{SameInit}
use targz.Flate.Resume.Copying.{ForStep, Ready}
use targz.Flate.Resume.Reads.{Along, read-Both}

-- A table that `init` clears, or the zero value.
abbrev pub IsCleared : HuffmanDecoder → Type 0
IsCleared h = (h.min ≢ 0) ⊎ (h ≡ Huffman.empty)

IsCleared-SameInit : (h : HuffmanDecoder) → IsCleared h → SameInit h Huffman.empty
unfolding Huffman.init
IsCleared-SameInit h (inl used) lengths = rw (differ h.min used) refl
  where
    differ : (n : ℕ) → n ≢ 0 → (n == 0) ≡ false
    differ n ne = ground (arith, ne)
IsCleared-SameInit h (inr e) lengths = ap (λ t. Huffman.init t lengths) e

-- A decoder behind a block that is not the last, with nothing to hand out, and tables that the next
-- `init` clears.
pub record IsBoundary (f : Decompressor) : Type 0 where
  pub step : f.step ≡ next_block
  pub err : f.err ≡ none
  pub to_read : f.to_read ≡ []
  pub final : f.final ≡ false
  pub copy_len : f.copy_len ≡ 0
  pub bits : length f.bits ≡ max_num_lit + max_num_dist
  pub codebits : length f.codebits ≡ num_codes
  pub table1 : IsCleared f.h1
  pub table2 : IsCleared f.h2

-- Calls of `Read` with buffers of some sizes, one behind the other.
unfoldable pub read_each : ℕ → List ℕ → Action (List (List ℕ × Option Error))
unfolding read
read_each rounds [] = pure []
read_each rounds (n ∷ ns) = do
  got ← read rounds n
  others ← read_each rounds ns
  pure (got ∷ others)

pub read_each-Both :
    (cap total budget rounds : ℕ) (ns : List ℕ) (f g : Decompressor)
    → Along cap total budget f g
    → Both (λ _. Along cap total budget) SameCore (read_each rounds ns f) (read_each rounds ns g)
unfolding read_each
read_each-Both cap total budget rounds [] f g h = both_done h
read_each-Both cap total budget rounds (n ∷ ns) f g h =
    bind-Both (λ _. Along cap total budget) (λ _. Along cap total budget) SameCore (read rounds n)
      (read rounds n) _ _ f g (read-Both cap total budget n rounds f g h)
      (λ got f g h.
        bind-Both (λ _. Along cap total budget) (λ _. Along cap total budget) SameCore
          (read_each rounds ns) (read_each rounds ns) _ _ f g
          (read_each-Both cap total budget rounds ns f g h) (λ others f g h. both_done h))

module _ (f : Decompressor) (span : ℕ) (updates : Option (List Checkpoint)) (b : IsBoundary f)
    (size : length f.dict.hist ≡ max_match_offset) where
  abbrev resumed : Decompressor
  resumed = continue_from f.r (checkpoint_of f f.woffset) span updates

  -- What `Continue` makes, with what it does not take from the checkpoint as it stands given.
  abbrev made : DictDecoder → Step → Bool → Option Error → List ℕ → Decompressor
  made dict step final err to_read = record (fresh f.r dict) {
    b = f.b;
    nb = f.nb;
    roffset = f.roffset;
    woffset = f.woffset;
    last = f.woffset;
    updates = updates;
    span = span;
    step = step;
    final = final;
    err = err;
    to_read = to_read;
  }

  resumed-SameCore : SameCore f resumed
  unfolding continue_from checkpoint_of fresh
  resumed-SameCore =
      ap (λ d. made d next_block false none []) (restored-checkpoint_of f f.woffset size)
      ∙ ap (λ s. made f.dict s false none []) (sym b.step)
      ∙ ap (λ l. made f.dict f.step l none []) (sym b.final)
      ∙ ap (λ e. made f.dict f.step f.final e []) (sym b.err)
      ∙ ap (λ t. made f.dict f.step f.final f.err t) (sym b.to_read)

  resumed-Ready : Ready f resumed
  unfolding continue_from checkpoint_of fresh
  resumed-Ready = (
    resumed-SameCore,
    λ _.
        subst (λ s. ForStep s (extras f) (extras resumed)) (sym b.step)
          (
            record {
              init1 = IsCleared-SameInit f.h1 b.table1;
              init2 = IsCleared-SameInit f.h2 b.table2;
              lengths = b.bits ∙ sym (length-replicate {A = ℕ} (max_num_lit + max_num_dist) 0);
              size = b.codebits;
              size' = length-replicate {A = ℕ} num_codes 0;
            },
            (b.copy_len, refl),
          ),
  )

-- For a sane decoder with a window of the full size, behind a block that is not the last, with
-- nothing to hand out, no error and nothing left to copy, and with tables that the next `init`
-- clears or that are the zero value: what `Continue` makes of the rest of the input and of the
-- checkpoint of that decoder, with any span and channel, does in any sequence of calls of `Read`
-- just what that decoder does: it returns the same bytes and the same errors, call by call, or it
-- panics, or runs out of the rounds given, as that one does; and behind the calls the two are
-- sane, agree in all but the tables, the place of a copy and the channel, and in these where the
-- next step needs them.
pub continue_from-read_each :
    (f : Decompressor) (span total rounds : ℕ) (updates : Option (List Checkpoint)) (ns : List ℕ)
    → IsBoundary f
    → IsSane max_match_offset f.woffset total f
    → Both
        (λ _. Along max_match_offset total (bits_left f))
        SameCore
        (read_each rounds ns f)
        (read_each rounds ns (continue_from f.r (checkpoint_of f f.woffset) span updates))
unfolding continue_from checkpoint_of
continue_from-read_each f span total rounds updates ns b sane =
    read_each-Both max_match_offset total (bits_left f) rounds ns f _ (
      resumed-Ready f span updates b sane.size,
      sane,
      continue_from-IsSane f f.woffset span f.woffset total updates sane,
    )
