-- ===== src/Gzip/Encoded.antt =====
-- The header of RFC 1952, section 2.3, written out, and that gunzip.go reads it back.
use mathlib.Core.List.{append-nil, append_assoc}
use targz.Prelude.{
  ℕ, zero, suc, ◌+◌, ◌<◌, ◌≡◌, ◌≢◌, ◌∙◌, refl, sym, ap, ap₂, List, [], ◌∷◌, ◌++◌, false, Option,
  none, ◌==◌, length, length-append, take, drop, All, le→ltb, arith,
}
use targz.Flate.Source.{Error, Got, read_full}
use targz.Gzip.Crc.{update}
use targz.Gzip.State.{CountReader, Reader, fill}
use targz.Gzip.Header.{buf_len, text, advance, string_loop, read_string}

-- The reader behind `bytes`, with `more` to come, and the digest over them.
abbrev pub behind : List ℕ → List ℕ → Reader → Reader
behind bytes more z =
    let r : CountReader = record {
      source = record z.r.source { rest = more };
      n = z.r.n + length bytes;
    } in
    record z { r = r; digest = update z.digest bytes }

abbrev pub IsText : List ℕ → Type 0
IsText s = All (λ c. c ≢ 0) s

not_zero : (c : ℕ) → c ≢ 0 → (c == 0) ≡ false
not_zero c h = ground arith

-- Where the loop of `readString` stops, at the NUL behind `s`, when `n` bytes have been counted.
abbrev stopped : List ℕ → ℕ → List ℕ → Reader → (List ℕ × Option Error) × Reader
stopped s n more z =
    let r : CountReader = record { source = record z.r.source { rest = more }; n = n } in
    ((text s, none), record z { r = r; digest = update z.digest (s ++ (0 ∷ [])) })

string_loop_stops :
    (left : ℕ) (seen s more : List ℕ) (z : Reader)
    → IsText s
    → length s < left
    → string_loop left seen (s ++ (0 ∷ more)) z
      ≡ stopped (seen ++ s) (z.r.n + (length s + 1)) more z
unfolding string_loop
string_loop_stops zero seen s more z t lt = absurd (omega arith)
string_loop_stops (suc left) seen [] more z t lt =
    ap (λ l. stopped l (z.r.n + 1) more z) (sym (append-nil seen))
string_loop_stops (suc left) seen (c ∷ s) more z (c_here, t) lt = rw (not_zero c c_here) (
    string_loop_stops left (seen ++ (c ∷ [])) s more (advance (s ++ (0 ∷ more)) z) t (omega arith)
    ∙ ap₂ (λ l n. stopped l n more z) (append_assoc seen (c ∷ []) s) (count z.r.n (length s)))
  where
    count : (n k : ℕ) → (n + 1) + (k + 1) ≡ n + (suc k + 1)
    count n k = omega arith

-- `readString` of a text without NUL, shorter than the buffer, and the NUL that ends it.
pub read_string_reads :
    (s more : List ℕ) (z : Reader)
    → z.r.source.rest ≡ s ++ (0 ∷ more)
    → IsText s
    → length s < buf_len
    → read_string z ≡ ((text s, none), behind (s ++ (0 ∷ [])) more z)
unfolding read_string
read_string_reads s more z e t lt =
    ap (λ rest. string_loop buf_len [] rest z) e
    ∙ string_loop_stops buf_len [] s more z t lt
    ∙ ap (λ k. stopped s k more z) (omega (arith, length-append s (0 ∷ [])))

module _ {A : Type 0} where
  take-append : (xs ys : List A) → take (length xs) (xs ++ ys) ≡ xs
  take-append [] ys = refl
  take-append (x ∷ xs) ys = ap (λ l. x ∷ l) (take-append xs ys)

  drop-append : (xs ys : List A) → drop (length xs) (xs ++ ys) ≡ ys
  drop-append [] ys = refl
  drop-append (x ∷ xs) ys = drop-append xs ys

read_full_reads :
    (bytes more : List ℕ) (fail : Error)
    → read_full (length bytes) (record { rest = bytes ++ more; fail = fail })
      ≡ record { bytes = bytes; err = none; source = record { rest = more; fail = fail } }
unfolding read_full
read_full_reads bytes more fail =
    rw (le→ltb (length (bytes ++ more)) (length bytes) (omega (arith, length-append bytes more)))
      (ap₂ (λ b m. got b m) (take-append bytes more) (drop-append bytes more))
  where
    got : List ℕ → List ℕ → Got
    got b m = record { bytes = b; err = none; source = record { rest = m; fail = fail } }

-- A buffer that is filled.
pub fill_reads :
    (bytes more : List ℕ) (z : Reader)
    → z.r.source.rest ≡ bytes ++ more
    → fill (length bytes) z ≡ ((bytes, none), record (behind bytes more z) { digest = z.digest })
unfolding fill
fill_reads bytes more z e = ap filled (
    ap (λ rest. read_full (length bytes) (record { rest = rest; fail = z.r.source.fail })) e
    ∙ read_full_reads bytes more z.r.source.fail)
  where
    filled : Got → (List ℕ × Option Error) × Reader
    filled got =
        let r : CountReader = record { source = got.source; n = z.r.n + length got.bytes } in
        ((got.bytes, got.err), record z { r = r })
