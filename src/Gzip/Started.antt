-- ===== src/Gzip/Started.antt =====
-- gsip/internal/gzip/gunzip.go, `readHeader`: where it returns no error, a member has begun.
use targz.Prelude.{
  ℕ, ◌+◌, ◌*◌, ◌≤◌, ◌≡◌, ◌∙◌, refl, sym, ap, List, [], Bool, true, false, Option, none, some,
  length, arith, get_or, if◌then◌else◌,
}
use targz.Flate.Source.{Error}
use targz.Flate.State.{Decompressor, max_match_offset}
use targz.Flate.Checkpoint.{Checkpoint}
use targz.Flate.Reading
use targz.Flate.Sound.{bits_left}
use targz.Flate.Sound.Whole.{IsSane}
use targz.Gzip.Sums.{checksum_ieee_nothing}
use targz.Flate.Sound.Starts.{new_reader_with_spans-IsSane, reset-IsSane}
use targz.Gzip.Crc.{checksum_ieee}
use targz.Gzip.State.{Header, no_header, CountReader, Reader, attach, fill, compressed_count}
use targz.Gzip.Header.{refused, parsed}
use targz.Gzip.Members.{
  announce, start_with, start_member, read_fixed, is_gzip, read_fields, after_fixed, read_member,
  header_with, read_header,
}
use targz.Gzip.Running.{IsRunning}
use targz.Gzip.Consumed.{
  Consumed, Consumed-refl, fill-Consumed, with_digest, Gives, and_then-Gives, read_extra-Goes,
  read_name-Goes, read_comment-Goes, read_hdr_crc-Goes,
}

-- What `z` has when a header comes: nothing yet, or a decompressor that has handed out all.
abbrev pub CanStart : ℕ → ℕ → Option Checkpoint → Option Decompressor → Type 0
CanStart base out from (some f) = f.woffset ≡ base + out
CanStart base out none none = base + out ≡ 0
CanStart base out (some c) none = ⊥

-- A member begins in `z'`, which has handed out as much as `z` and may use no more than what was
-- left in `z` of the input.
pub record Begins (base whole : ℕ) (z z' : Reader) : Type 0 where
  pub run : IsRunning base whole [] z'
  pub within : run.budget ≤ 8 * length z.r.source.rest
  pub same_out : z'.out ≡ z.out
  pub same_from : z'.from ≡ z.from

module _ (base whole : ℕ) where
  -- A reader in front of a header.
  pub record IsReady (z : Reader) : Type 0 where
    pub can_start : CanStart base z.out z.from z.decompressor
    pub position : z.r.n + length z.r.source.rest ≡ whole
    pub size : z.size ≡ 0

  module _ (hdr : Header) (z : Reader) (position : z.r.n + length z.r.source.rest ≡ whole)
      (size : z.size ≡ 0) (digest : z.digest ≡ 0) where
    started :
        (f : Decompressor) (z' : Reader)
        → z'.decompressor ≡ some f
        → z'.r ≡ z.r
        → z'.digest ≡ z.digest
        → z'.size ≡ z.size
        → base + z.out ≡ f.woffset
        → z'.out ≡ z.out
        → z'.from ≡ z.from
        → f.to_read ≡ []
        → IsSane max_match_offset f.woffset (z.r.n + length z.r.source.rest) (attach z' f)
        → f.nb ≡ 0
        → Begins base whole z z'
    unfolding attach
    started f z' there same_r same_digest same_size here same_out same_from nothing sane no_bits =
        record {
          run = record {
            f = f;
            total = z.r.n + length z.r.source.rest;
            budget = bits_left (attach z' f);
            there = there;
            good = sane;
            within = omega (arith, position, no_bits, left);
            counted = omega (arith, here, same_out, ap length nothing);
            position = omega (arith, position, left, ap CountReader.n same_r);
            digest = same_digest ∙ digest ∙ sym checksum_ieee_nothing;
            size = omega (arith, size, same_size);
          };
          within = omega (arith, no_bits, left);
          same_out = same_out;
          same_from = same_from;
        }
      where
        left : length z'.r.source.rest ≡ length z.r.source.rest
        left = ap (λ r. length r.source.rest) same_r

    start_with-Begins :
        (from : Option Checkpoint) (o : Option Decompressor)
        → CanStart base z.out from o
        → Begins base whole z (start_with o from hdr z)
    unfolding start_with announce attach compressed_count Reading.new_reader_with_spans
        Reading.new_reader Reading.new_reader_dict Reading.reset Reading.fresh
    start_with-Begins none none zero_out =
        started
          (Reading.new_reader_with_spans z.r.source z.span (compressed_count z)
            (announce hdr 0 z).updates)
          (start_with none none hdr z) refl refl refl refl zero_out refl refl refl
          (new_reader_with_spans-IsSane z.r.source z.span (compressed_count z)
            (announce hdr 0 z).updates)
          refl
    start_with-Begins (some c) none can = absurd can
    start_with-Begins from (some f) here =
        started
          (Reading.reset z.r.source [] (compressed_count z) (attach (announce hdr f.woffset z) f))
          (start_with (some f) from hdr z) refl refl refl refl (sym here) refl refl refl
          (reset-IsSane z.r.source [] (compressed_count z) (attach (announce hdr f.woffset z) f))
          refl

  later : (z z' z'' : Reader) → Consumed z z' → Begins base whole z' z'' → Begins base whole z z''
  later z z' z'' c b = record {
    run = b.run;
    within = omega (arith, b.within, c.shrinks);
    same_out = b.same_out ∙ c.same_out;
    same_from = b.same_from ∙ c.same_from;
  }

  start_member-Begins :
      (hdr : Header) (z : Reader) → IsReady z → Begins base whole z (start_member hdr z)
  unfolding start_member
  start_member-Begins hdr z ready =
      later z (record z { digest = 0 }) _ (with_digest z z 0 (Consumed-refl z))
        (start_with-Begins hdr (record z { digest = 0 }) ready.position ready.size refl z.from
          z.decompressor ready.can_start)

  pub Consumed-IsReady : (z z' : Reader) → Consumed z z' → IsReady z → IsReady z'
  Consumed-IsReady z z' c ready = record {
    can_start = rw (c.same_out, c.same_from, c.same_decompressor) ready.can_start;
    position = c.position ∙ ready.position;
    size = c.same_size ∙ ready.size;
  }

  module _ (z : Reader) (ready : IsReady z) where
    abbrev Began : Reader → Type 0
    Began = Begins base whole z

    begun :
        (hdr : Header) (z' : Reader)
        → Consumed z z'
        → Gives Began (parsed hdr (start_member hdr z'))
    begun hdr z' c =
        λ _. later z z' _ c (start_member-Begins hdr z' (Consumed-IsReady z z' c ready))

    read_fields-Began : (b : List ℕ) → Gives Began (read_fields b z)
    unfolding read_fields
    read_fields-Began b =
        let flg = get_or b 3 0 in
        let z₀ : Reader = record z { digest = checksum_ieee b } in
        and_then-Gives Began z z₀ _ _ (with_digest z z _ (Consumed-refl z))
          (read_extra-Goes flg (read_fixed b) z₀)
          (λ hdr z₁ c₁. and_then-Gives Began z z₁ _ _ c₁ (read_name-Goes flg hdr z₁) (λ hdr z₂ c₂.
            and_then-Gives Began z z₂ _ _ c₂ (read_comment-Goes flg hdr z₂) (λ hdr z₃ c₃.
              and_then-Gives Began z z₃ _ _ c₃ (read_hdr_crc-Goes flg hdr z₃)
                (λ hdr z₄ c₄. begun hdr z₄ c₄))))

    after_fixed-Began : (b : List ℕ) (hdr : Header) → Gives Began (after_fixed b hdr z)
    unfolding after_fixed
    after_fixed-Began b hdr = by_test (is_gzip b)
      where
        by_test :
            (t : Bool) → Gives Began (if t then read_fields b z else refused hdr Error.header z)
        by_test true = read_fields-Began b
        by_test false = λ q. absurd (cc q)

  read_member-Begins : (z : Reader) → IsReady z → Gives (Begins base whole z) (read_member z)
  unfolding read_member
  read_member-Begins z ready =
      let got = fill 10 z in
      and_then-Gives (Begins base whole z) z z
        (record { hdr = no_header; err = got.0.1; z = got.1 }) (after_fixed got.0.0)
        (Consumed-refl z) (λ _. fill-Consumed 10 z)
        (λ hdr z' c q.
          later z z' _ c (after_fixed-Began z' (Consumed-IsReady z z' c ready) got.0.0 hdr q))

  -- Where `readHeader` returns no error in front of a header, a member has begun.
  pub read_header-Begins : (z : Reader) → IsReady z → Gives (Begins base whole z) (read_header z)
  unfolding read_header header_with
  read_header-Begins z ready = by_state z.decompressor z.from ready.can_start
    where
      by_state :
          (o : Option Decompressor) (from : Option Checkpoint)
          → CanStart base z.out from o
          → Gives (Begins base whole z) (header_with o from z)
      by_state none none can = read_member-Begins z ready
      by_state none (some c) can = absurd can
      by_state (some f) from can = read_member-Begins z ready
