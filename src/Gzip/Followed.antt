-- ===== src/Gzip/Followed.antt =====
-- gsip/internal/gzip/gunzip.go, `Read` behind the end of a member: the trailer and the next member.
use targz.Prelude.{
  ℕ, ◌+◌, ◌≤◌, ◌<◌, ◌≡◌, ◌∙◌, refl, sym, List, [], Bool, true, false, not, ◌||◌, Option, none, some,
  ◌==◌, length, arith, if◌then◌else◌,
}
use mathlib.Core.Path.{subst}
use targz.Flate.Source.{Error, eof, unexpected_eof, internal, checksum, not_exist, corrupt, other}
use targz.Flate.Checkpoint.{Checkpoint}
use targz.Gzip.State.{Trailer, Reader, fill}
use targz.Gzip.Header.{Parsed}
use targz.Gzip.Members.{read_header}
use targz.Gzip.Reading.{
  compare_trailer, trailer_of, trailer_read, check_trailer, next_member, after_trailer, end_member,
  is_eof,
}
use targz.Gzip.Running.{IsRunning, relabel}
use targz.Gzip.Consumed.{fill-Consumed, fill_full}
use targz.Gzip.Started.{Begins, IsReady, CanStart, read_header-Begins}

pub at_eof : (err : Option Error) → is_eof err ≡ true → err ≡ some eof
at_eof none h = absurd (cc h)
at_eof (some eof) h = refl
at_eof (some unexpected_eof) h = absurd (cc h)
at_eof (some internal) h = absurd (cc h)
at_eof (some checksum) h = absurd (cc h)
at_eof (some Error.header) h = absurd (cc h)
at_eof (some not_exist) h = absurd (cc h)
at_eof (some (corrupt n)) h = absurd (cc h)
at_eof (some (other n)) h = absurd (cc h)

-- The trailer has been read and accepted.
record Passed (z z' : Reader) : Type 0 where
  pub shrinks : length z'.r.source.rest + 8 ≤ length z.r.source.rest
  pub position : z'.r.n + length z'.r.source.rest ≡ z.r.n + length z.r.source.rest
  pub same_decompressor : z'.decompressor ≡ z.decompressor
  pub same_out : z'.out ≡ z.out
  pub same_from : z'.from ≡ z.from
  pub same_err : z'.err ≡ z.err
  pub size : z'.size ≡ 0

abbrev IsChecked : Reader → Option Error × Reader → Type 0
IsChecked z (none, z') = Passed z z'
IsChecked z (some e, z') = z'.err ≡ some e

compare_trailer-IsChecked :
    (z z' : Reader) (from : Option Checkpoint) (t : Trailer)
    → Passed z (record z' { digest = 0; size = 0; trailer = some t })
    → IsChecked z (compare_trailer from t z')
unfolding compare_trailer
compare_trailer-IsChecked z z' none t p =
    by_test (not (t.digest == z'.digest) || not (t.size == z'.size))
  where
    by_test :
        (b : Bool)
        → IsChecked z (
            if b
            then (some checksum, record z' { err = some checksum })
            else (none, record z' { digest = 0; size = 0; trailer = some t }))
    by_test true = refl
    by_test false = p
compare_trailer-IsChecked z z' (some c) t p = p

check_trailer-IsChecked : (z : Reader) → IsChecked z (check_trailer z)
unfolding check_trailer fill trailer_read
check_trailer-IsChecked z = by_end (fill 8 z).0.1 refl
  where
    by_end :
        (o : Option Error)
        → (fill 8 z).0.1 ≡ o
        → IsChecked z (trailer_read o (fill 8 z).0.0 (fill 8 z).1)
    by_end none e =
        compare_trailer-IsChecked z (fill 8 z).1 (fill 8 z).1.from (trailer_of (fill 8 z).0.0)
          (record {
            shrinks = omega (arith, fill_full 8 z e);
            position = (fill-Consumed 8 z).position;
            same_decompressor = refl;
            same_out = refl;
            same_from = refl;
            same_err = refl;
            size = refl;
          })
    by_end (some err) e = refl

module _ (base whole : ℕ) where
  -- Behind a member there is an error, which is kept, or another member that may use less.
  abbrev pub IsFollowed : Reader → ℕ → Option Error × Reader → Type 0
  IsFollowed z budget (some e, z') = z'.err ≡ some e
  IsFollowed z budget (none, z') =
      (run : IsRunning base whole [] z') × (run.budget < budget)
      × (z'.out ≡ z.out)
      × (z'.from ≡ z.from)
      × (z'.err ≡ none)

  module _ {m : List ℕ} (z : Reader) (run : IsRunning base whole m z) (at_end : z.err ≡ some eof)
      (drained : length run.f.to_read ≡ 0) where
    Passed-IsReady : (z' : Reader) → Passed z z' → IsReady base whole (record z' { err = none })
    Passed-IsReady z' p = record {
      can_start =
          subst (CanStart base z'.out z'.from) (sym (p.same_decompressor ∙ run.there))
            (omega (arith, run.counted, drained, p.same_out));
      position = p.position ∙ run.position;
      size = p.size;
    }

    next_member-IsFollowed : (z' : Reader) → Passed z z' → IsFollowed z run.budget (next_member z')
    unfolding next_member relabel
    next_member-IsFollowed z' p = by_stream z'.multistream
      where
        parse : Parsed
        parse = read_header (record z' { err = none })

        begins : (parse.err ≡ none) → Begins base whole (record z' { err = none }) parse.z
        begins = read_header-Begins base whole (record z' { err = none }) (Passed-IsReady z' p)

        by_err :
            (o : Option Error)
            → parse.err ≡ o
            → IsFollowed z run.budget (o, record parse.z { err = o })
        by_err none e =
            let b = begins e in
            (
              relabel base whole [] parse.z parse.z.header none b.run,
              omega (arith, b.within, p.shrinks, run.good.bounded),
              b.same_out ∙ p.same_out,
              b.same_from ∙ p.same_from,
              refl,
            )
        by_err (some err) e = refl

        by_stream :
            (t : Bool)
            → IsFollowed z run.budget
                (if t then (parse.err, record parse.z { err = parse.err }) else (some eof, z'))
        by_stream true = by_err parse.err refl
        by_stream false = p.same_err ∙ at_end

    pub end_member-IsFollowed : IsFollowed z run.budget (end_member z)
    unfolding end_member after_trailer
    end_member-IsFollowed = by_check (check_trailer z) (check_trailer-IsChecked z)
      where
        by_check :
            (o : Option Error × Reader) → IsChecked z o → IsFollowed z run.budget (after_trailer o)
        by_check (none, z') p = next_member-IsFollowed z' p
        by_check (some e, z') p = p
