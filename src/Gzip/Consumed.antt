-- ===== src/Gzip/Consumed.antt =====
-- gsip/internal/gzip/gunzip.go: reading a header uses up the input and keeps the rest of the state.
use targz.Prelude.{
  ℕ, zero, suc, ◌+◌, ◌%◌, ◌^◌, ◌≤◌, ◌≡◌, ◌∙◌, refl, ap, List, [], ◌∷◌, ◌++◌, Bool, true, false,
  Option, none, some, ◌==◌, length, take, drop, length-take, length-drop, Bool-cases, inl, inr,
  arith, if◌then◌else◌,
}
use targz.Flate.Source.{Source, Error, read_full}
use targz.Gzip.Crc.{update}
use targz.Gzip.State.{Header, Reader, fill}
use targz.Gzip.Header.{
  flag_hdr_crc, flag_extra, flag_name, flag_comment, buf_len, uint16, has_flag, Parsed, parsed,
  refused, go_on, and_then, unless_failed, advance, string_loop, read_string, read_data, read_extra,
  read_name, read_comment, read_hdr_crc,
}

-- `z'` has read some bytes of `z`, and counted them.
pub record Consumed (z z' : Reader) : Type 0 where
  pub position : z'.r.n + length z'.r.source.rest ≡ z.r.n + length z.r.source.rest
  pub shrinks : length z'.r.source.rest ≤ length z.r.source.rest
  pub same_decompressor : z'.decompressor ≡ z.decompressor
  pub same_out : z'.out ≡ z.out
  pub same_size : z'.size ≡ z.size
  pub same_from : z'.from ≡ z.from
  pub same_stream : z'.multistream ≡ z.multistream

pub Consumed-refl : (z : Reader) → Consumed z z
Consumed-refl z = record {
  position = refl;
  shrinks = omega arith;
  same_decompressor = refl;
  same_out = refl;
  same_size = refl;
  same_from = refl;
  same_stream = refl;
}

pub Consumed-trans : (a b c : Reader) → Consumed a b → Consumed b c → Consumed a c
Consumed-trans a b c h k = record {
  position = k.position ∙ h.position;
  shrinks = omega (arith, h.shrinks, k.shrinks);
  same_decompressor = k.same_decompressor ∙ h.same_decompressor;
  same_out = k.same_out ∙ h.same_out;
  same_size = k.same_size ∙ h.same_size;
  same_from = k.same_from ∙ h.same_from;
  same_stream = k.same_stream ∙ h.same_stream;
}

-- `io.ReadFull`: the bytes, as many as were asked for where it does not fail.
source-read_full : (n : ℕ) (s : Source) → (read_full n s).source.rest ≡ drop n s.rest
unfolding read_full
source-read_full n s = ground arith

bytes-read_full : (n : ℕ) (s : Source) → (read_full n s).bytes ≡ take n s.rest
unfolding read_full
bytes-read_full n s = ground arith

err-read_full : (n : ℕ) (s : Source) → (read_full n s).err ≡ none → n ≤ length s.rest
unfolding read_full
err-read_full n s h = ground arith

-- What `fill` returns where there are bytes enough.
pub fill_enough :
    (n : ℕ) (z : Reader)
    → n ≤ length z.r.source.rest
    → ((fill n z).0.1 ≡ none) × ((fill n z).0.0 ≡ take n z.r.source.rest)
unfolding fill read_full
fill_enough n z enough = ground arith

pub fill_full :
    (n : ℕ) (z : Reader)
    → (fill n z).0.1 ≡ none
    → length (fill n z).1.r.source.rest + n ≡ length z.r.source.rest
unfolding fill
fill_full n z e = omega (
  arith,
  err-read_full n z.r.source e,
  ap length (source-read_full n z.r.source),
  length-drop n z.r.source.rest,
)

pub fill-Consumed : (n : ℕ) (z : Reader) → Consumed z (fill n z).1
unfolding fill
fill-Consumed n z =
    let len_source = ap length (source-read_full n z.r.source) in
    let len_bytes = ap length (bytes-read_full n z.r.source) in
    record {
      position = omega (
        arith,
        len_source,
        len_bytes,
        length-take n z.r.source.rest,
        length-drop n z.r.source.rest,
      );
      shrinks = omega (arith, len_source, length-drop n z.r.source.rest);
      same_decompressor = refl;
      same_out = refl;
      same_size = refl;
      same_from = refl;
      same_stream = refl;
    }

advance-Consumed :
    (c : ℕ) (rest : List ℕ) (z : Reader) → z.r.source.rest ≡ c ∷ rest → Consumed z (advance rest z)
advance-Consumed c rest z e = record {
  position = omega (arith, ap length e);
  shrinks = omega (arith, ap length e);
  same_decompressor = refl;
  same_out = refl;
  same_size = refl;
  same_from = refl;
  same_stream = refl;
}

-- What a call keeps where it returns no error.
abbrev pub Passes : {A : Type 0} → Reader → (A × Option Error) × Reader → Type 0
Passes z ((a, err), z') = err ≡ none → Consumed z z'

pub with_digest : (a b : Reader) (d : ℕ) → Consumed a b → Consumed a (record b { digest = d })
with_digest a b d h = record {
  position = h.position;
  shrinks = h.shrinks;
  same_decompressor = h.same_decompressor;
  same_out = h.same_out;
  same_size = h.same_size;
  same_from = h.same_from;
  same_stream = h.same_stream;
}

string_loop-Passes :
    (left : ℕ) (seen rest : List ℕ) (z : Reader)
    → z.r.source.rest ≡ rest
    → Passes z (string_loop left seen rest z)
unfolding string_loop
string_loop-Passes zero seen rest z e = λ p. absurd (cc p)
string_loop-Passes (suc left) seen [] z e = λ p. absurd (cc p)
string_loop-Passes (suc left) seen (c ∷ rest) z e = elim (Bool-cases (c == 0)) [
  | inl q ↦ rw q (λ _. with_digest z (advance rest z) _ (advance-Consumed c rest z e))
  | inr q ↦ rw q (λ p.
      Consumed-trans z (advance rest z) _ (advance-Consumed c rest z e)
        (string_loop-Passes left (seen ++ (c ∷ [])) rest (advance rest z) refl p))
]

read_string-Passes : (z : Reader) → Passes z (read_string z)
unfolding read_string
read_string-Passes z = string_loop-Passes buf_len [] z.r.source.rest z refl

-- What the reader satisfies behind a stage of `readHeader` that returns no error.
abbrev pub Gives : (Reader → Type 0) → Parsed → Type 0
Gives R p = p.err ≡ none → R p.z

abbrev pub Goes : Reader → Parsed → Type 0
Goes z = Gives (Consumed z)

pub and_then-Gives :
    (R : Reader → Type 0) (z z' : Reader) (p : Parsed) (k : Header → Reader → Parsed)
    → Consumed z z'
    → Goes z' p
    → ((hdr : Header) (z'' : Reader) → Consumed z z'' → Gives R (k hdr z''))
    → Gives R (and_then p k)
and_then-Gives R z z' p k c h next = go p.err refl
  where
    go : (o : Option Error) → p.err ≡ o → Gives R (go_on o p k)
    go none e q = next p.hdr p.z (Consumed-trans z z' p.z c (h e)) q
    go (some err) e q = absurd (cc (q, e))

unless_failed-Goes :
    (z : Reader) (o : Option Error) (hdr : Header) (z' : Reader) (p : Parsed)
    → (o ≡ none → Consumed z z')
    → Goes z' p
    → Goes z (unless_failed o hdr z' p)
unfolding unless_failed
unless_failed-Goes z none hdr z' p h next = λ q. Consumed-trans z z' p.z (h refl) (next q)
unless_failed-Goes z (some e) hdr z' p h next = λ q. absurd (cc q)

-- A field that the flags may leave out.
if-Goes :
    (z : Reader) (b : Bool) (hdr : Header) (p : Parsed)
    → Goes z p
    → Goes z (if b then p else parsed hdr z)
if-Goes z true hdr p h = h
if-Goes z false hdr p h = λ _. Consumed-refl z

read_data-Goes : (len : List ℕ) (hdr : Header) (z : Reader) → Goes z (read_data len hdr z)
unfolding read_data
read_data-Goes len hdr z =
    let z₁ : Reader = record z { digest = update z.digest len } in
    let got = fill (uint16 len) z₁ in
    unless_failed-Goes z got.0.1 hdr got.1 _
      (λ _.
        Consumed-trans z z₁ got.1 (with_digest z z _ (Consumed-refl z))
          (fill-Consumed (uint16 len) z₁))
      (λ _. with_digest got.1 got.1 _ (Consumed-refl got.1))

pub read_extra-Goes : (flg : ℕ) (hdr : Header) (z : Reader) → Goes z (read_extra flg hdr z)
unfolding read_extra
read_extra-Goes flg hdr z =
    let got = fill 2 z in
    if-Goes z (has_flag flg flag_extra) hdr _ (
      unless_failed-Goes z got.0.1 hdr got.1 _ (λ _. fill-Consumed 2 z)
        (read_data-Goes got.0.0 hdr got.1))

pub read_name-Goes : (flg : ℕ) (hdr : Header) (z : Reader) → Goes z (read_name flg hdr z)
unfolding read_name
read_name-Goes flg hdr z =
    let got = read_string z in
    if-Goes z (has_flag flg flag_name) hdr _
      (unless_failed-Goes z got.0.1 hdr got.1 _ (read_string-Passes z) (λ _. Consumed-refl got.1))

pub read_comment-Goes : (flg : ℕ) (hdr : Header) (z : Reader) → Goes z (read_comment flg hdr z)
unfolding read_comment
read_comment-Goes flg hdr z =
    let got = read_string z in
    if-Goes z (has_flag flg flag_comment) hdr _
      (unless_failed-Goes z got.0.1 hdr got.1 _ (read_string-Passes z) (λ _. Consumed-refl got.1))

pub read_hdr_crc-Goes : (flg : ℕ) (hdr : Header) (z : Reader) → Goes z (read_hdr_crc flg hdr z)
unfolding read_hdr_crc
read_hdr_crc-Goes flg hdr z =
    let got = fill 2 z in
    if-Goes z (has_flag flg flag_hdr_crc) hdr _ (
      unless_failed-Goes z got.0.1 hdr got.1 _ (λ _. fill-Consumed 2 z)
        (agreed (uint16 got.0.0 == got.1.digest % 2 ^ 16) got.1))
  where
    agreed :
        (b : Bool) (z : Reader) → Goes z (if b then parsed hdr z else refused hdr Error.header z)
    agreed true z = λ _. Consumed-refl z
    agreed false z = λ q. absurd (cc q)
