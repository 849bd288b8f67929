-- ===== src/Gzip/Opens.antt =====
-- gsip/internal/gzip/gunzip.go, `Reset` and the constructors: a reader that they return is inside
-- its first member.
use targz.Prelude.{ℕ, ◌≤◌, ◌≡◌, refl, sym, List, [], Option, none, some, length, arith}
use targz.Flate.Source.{Source, Error}
use targz.Flate.Checkpoint.{Checkpoint}
use targz.Flate.State.{Decompressor, max_match_offset}
use targz.Flate.Blocks.{checkpoint_of}
use targz.Flate.Reading
use targz.Flate.Sound.{bits_left}
use targz.Flate.Sound.Whole.{IsSane}
use targz.Flate.Sound.Starts.{continue_from-IsSane}
use targz.Gzip.Sums.{checksum_ieee_nothing}
use targz.Gzip.State.{Reader, attach}
use targz.Gzip.Members.{resume, header_with, read_header}
use targz.Gzip.Reading.{
  Opened, opened, not_opened, open_result, blank, reset, new_reader_with_spans, continue_at,
}
use targz.Gzip.Running.{IsRunning, relabel}
use targz.Gzip.Started.{CanStart, read_header-Begins}

-- What a constructor returns.
abbrev pub Opens : ℕ → ℕ → Opened → Type 0
Opens base whole (opened z) = IsRunning base whole [] z × (z.err ≡ none)
Opens base whole (not_opened e) = Unit

-- Where `Reset` returns no error, the reader is inside a member.
pub reset-IsRunning :
    (base : ℕ) (r : Source) (z : Reader)
    → CanStart base z.out z.from z.decompressor
    → (reset r z).0 ≡ none
    → IsRunning base (length r.rest) [] (reset r z).1
unfolding reset
reset-IsRunning base r z can no_err =
    let begins =
      read_header-Begins base (length r.rest) _
        (record { can_start = can; position = omega arith; size = refl }) no_err in
    relabel base (length r.rest) [] _ _ _ begins.run

Opened-IsRunning :
    (base whole : ℕ) (o : Option Error × Reader)
    → (o.0 ≡ none → IsRunning base whole [] o.1)
    → o.1.err ≡ o.0
    → Opens base whole (open_result o)
Opened-IsRunning base whole (none, z) run e = (run refl, e)
Opened-IsRunning base whole (some err, z) run e = tt

-- `NewReaderWithSpans` returns an error, or a reader with no error inside its first member, as
-- `Read` needs it.
pub new_reader_with_spans-Opens :
    (r : Source) (span : ℕ) (updates : Option (List Checkpoint))
    → Opens 0 (length r.rest) (new_reader_with_spans r span updates)
unfolding new_reader_with_spans reset blank
new_reader_with_spans-Opens r span updates =
    Opened-IsRunning 0 (length r.rest) (reset r (blank r span none updates))
      (reset-IsRunning 0 r (blank r span none updates) refl) refl

-- `Continue` from the checkpoint of a sane decoder, which holds at most seven bits, over the rest
-- of its input returns a reader with no error inside a member, whose `Offset` is the checkpoint's
-- offset in the output.
pub continue_at-Opens :
    (f : Decompressor) (wo total w span : ℕ) (updates : Option (List Checkpoint))
    → IsSane max_match_offset wo total f
    → f.nb ≤ 7
    → Opens w (length f.r.rest) (continue_at f.r span (checkpoint_of f w) updates)
unfolding continue_at reset blank read_header header_with resume attach Reading.continue_from
    Reading.fresh checkpoint_of
continue_at-Opens f wo total w span updates sane few = (
  record {
    f = Reading.continue_from f.r (checkpoint_of f w) span updates;
    total = total;
    budget = bits_left f;
    there = refl;
    good = continue_from-IsSane f w span wo total updates sane;
    within = omega arith;
    counted = omega arith;
    position = omega arith;
    digest = sym checksum_ieee_nothing;
    size = refl;
  },
  refl,
)
