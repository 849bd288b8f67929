-- ===== src/Gzip/Running.antt =====
-- gsip/internal/gzip/gunzip.go, `Reader` inside a member: what holds between calls of `Read`.
use targz.Prelude.{
  ℕ, ◌+◌, ◌*◌, ◌%◌, ◌^◌, ◌≤◌, ◌<◌, ◌≡◌, ◌≢◌, refl, sym, List, [], ◌++◌, Option, none, some, length,
  arith,
}
use mathlib.Core.Path.{subst}
use targz.Flate.Source.{Error}
use targz.Flate.State.{Decompressor, Outcome, done, failed, panicked, stuck, max_match_offset}
use targz.Flate.Sound.{IsGood, Never, Ends}
use targz.Flate.Sound.Offsets.{IsCounted}
use targz.Flate.Sound.Reads.{Delivered, enough_rounds, read-Ends}
use targz.Gzip.Crc.{checksum_ieee}
use targz.Gzip.Sums.{checksum_ieee-append, size_append}
use targz.Gzip.State.{Header, Reader, attach}
use targz.Gzip.Reading.{
  Ended, returned, crashed, out_of_fuel, take_over, read_end, read_body, rounds_for, body_with,
}

-- The decompressor is good with what is left of the input, of which `whole` bytes were there in the
-- beginning and of which the member may still use `budget` bits; `Offset` is `base` more than the
-- bytes handed out; and the sums are those of `m`, what has been handed out of the member.
pub record IsRunning (base whole : ℕ) (m : List ℕ) (z : Reader) : Type 0 where
  pub f : Decompressor
  pub total : ℕ
  pub budget : ℕ
  pub there : z.decompressor ≡ some f
  pub good : IsGood max_match_offset f.woffset total budget (attach z f)
  pub within : budget ≤ 8 * whole + 7
  pub counted : IsCounted (base + z.out) f
  pub position : z.r.n + length z.r.source.rest ≡ whole
  pub digest : z.digest ≡ checksum_ieee m
  pub size : z.size ≡ length m % 2 ^ 32

-- Neither the header nor the error that is kept has a part in it.
unfoldable pub relabel :
    (base whole : ℕ) (m : List ℕ) (z : Reader) (hdr : Header) (e : Option Error)
    → IsRunning base whole m z
    → IsRunning base whole m (record z { header = hdr; err = e })
unfolding attach
relabel base whole m z hdr e run = record {
  f = run.f;
  total = run.total;
  budget = run.budget;
  there = run.there;
  good = run.good;
  within = run.within;
  counted = run.counted;
  position = run.position;
  digest = run.digest;
  size = run.size;
}

-- What a call that returns satisfies; it may panic, but it does not run out of fuel.
abbrev pub After : (List ℕ → Option Error → Reader → Type 0) → Ended → Type 0
After P (returned bytes err z) = P bytes err z
After P crashed = Unit
After P out_of_fuel = ⊥

module _ (base whole n : ℕ) where
  -- What a call of the decompressor leaves of `z`.
  pub record HasRead (m : List ℕ) (z : Reader) (budget : ℕ) (bytes : List ℕ) (err : Option Error)
      (z' : Reader) : Type 0 where
    pub running : IsRunning base whole (m ++ bytes) z'
    pub within : running.budget ≤ budget
    pub fits : length bytes ≤ n
    pub some_here : 0 < n → bytes ≡ [] → err ≢ none
    pub drained : err ≢ none → length running.f.to_read ≡ 0
    pub same_from : z'.from ≡ z.from
    pub same_stream : z'.multistream ≡ z.multistream
    pub same_err : z'.err ≡ err
    pub counts : z'.out ≡ z.out + length bytes

  take_over-HasRead :
      (m : List ℕ) (z : Reader) (run : IsRunning base whole m z) (bytes : List ℕ)
      (err : Option Error) (f : Decompressor)
      → Delivered max_match_offset run.total run.budget n (base + z.out) (bytes, err) f
      → HasRead m z run.budget bytes err (take_over bytes err f z)
  unfolding take_over attach
  take_over-HasRead m z run bytes err f (g, c, fits, some_here, drained) = record {
    running = record {
      f = f;
      total = run.total;
      budget = run.budget;
      there = refl;
      good = g;
      within = run.within;
      counted = omega (arith, c);
      position = omega (arith, run.position, g.bounded, run.within);
      digest = checksum_ieee-append z.digest m bytes run.digest;
      size = size_append z.size m bytes run.size;
    };
    within = omega arith;
    fits = fits;
    some_here = some_here;
    drained = drained;
    same_from = refl;
    same_stream = refl;
    same_err = refl;
    counts = refl;
  }

  read_end-After :
      (m : List ℕ) (z : Reader) (run : IsRunning base whole m z)
      (o : Outcome (List ℕ × Option Error))
      → Ends (Delivered max_match_offset run.total run.budget n (base + z.out)) Never o
      → After (HasRead m z run.budget) (read_end z o)
  read_end-After m z run (done (bytes, err) f) h = take_over-HasRead m z run bytes err f h
  read_end-After m z run (failed e f) h = absurd h
  read_end-After m z run panicked h = tt
  read_end-After m z run stuck h = h

  pub read_body-After :
      (m : List ℕ) (z : Reader) (run : IsRunning base whole m z)
      → After (HasRead m z run.budget) (read_body n z)
  unfolding read_body body_with rounds_for
  read_body-After m z run =
      subst (λ o. After (HasRead m z run.budget) (body_with n z o)) (sym run.there)
        (read_end-After m z run _ (
          read-Ends max_match_offset run.total run.budget n (rounds_for (attach z run.f))
            (base + z.out) (attach z run.f) (enough_rounds _ (attach z run.f) (omega arith))
            run.good run.counted))
