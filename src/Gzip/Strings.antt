-- ===== src/Gzip/Strings.antt =====
-- gsip/internal/gzip/gunzip.go, `readString`: how much it reads and returns, and its text.
use targz.Prelude.{
  ℕ, zero, suc, ◌+◌, ◌*◌, ◌≤◌, ◌≡◌, ◌∙◌, refl, sym, ap, List, [], ◌∷◌, ◌++◌, true, false, ◌||◌, ltb,
  ◌==◌, Option, length, length-append, arith, Bool-cases, inl, inr,
}
use targz.Flate.Source.{Error}
use targz.Gzip.State.{Reader}
use targz.Gzip.Header.{need_conv, utf8, text, buf_len, advance, string_loop, read_string}

utf8_plain : (s : List ℕ) → need_conv s ≡ false → utf8 s ≡ s
unfolding need_conv utf8
utf8_plain [] h = refl
utf8_plain (c ∷ s) h = elim (Bool-cases (ltb 127 c)) [
  | inl e ↦ absurd (cc (h, ap (λ b. b || need_conv s) e))
  | inr e ↦ rw (small c e) (ap (λ l. c ∷ l) (utf8_plain s (ap (λ b. b || need_conv s) (sym e) ∙ h)))
]
  where
    small : (c : ℕ) → ltb 127 c ≡ false → ltb c 128 ≡ true
    small c e = ground (arith, e)

-- The text that `readString` returns is the UTF-8 of the Latin-1 bytes also where it has found no
-- byte above 0x7f and returns them as they are.
pub text-utf8 : (s : List ℕ) → text s ≡ utf8 s
unfolding text
text-utf8 s = elim (Bool-cases (need_conv s)) [
  | inl e ↦ rw e refl
  | inr e ↦ rw e (sym (utf8_plain s e))
]

length-utf8 : (s : List ℕ) → length (utf8 s) ≤ 2 * length s
unfolding utf8
length-utf8 [] = omega arith
length-utf8 (c ∷ s) = elim (Bool-cases (ltb c 128)) [
  | inl e ↦ rw e (omega (arith, length-utf8 s))
  | inr e ↦ rw e (omega (arith, length-utf8 s))
]

length-text : (s : List ℕ) → length (text s) ≤ 2 * length s
length-text s = rw (text-utf8 s) (length-utf8 s)

-- What a call leaves that reads at most `left` bytes, and returns at most twice `room`.
abbrev pub IsBounded : Reader → ℕ → ℕ → (List ℕ × Option Error) × Reader → Type 0
IsBounded z left room ((s, err), z') =
    (length s ≤ 2 * room) × (z.r.n ≤ z'.r.n) × (z'.r.n ≤ z.r.n + left)

string_loop-IsBounded :
    (left : ℕ) (seen rest : List ℕ) (z : Reader) (room : ℕ)
    → length seen + left ≤ suc room
    → IsBounded z left room (string_loop left seen rest z)
unfolding string_loop
string_loop-IsBounded zero seen rest z room le = (omega arith, omega arith, omega arith)
string_loop-IsBounded (suc left) seen [] z room le = (omega arith, omega arith, omega arith)
string_loop-IsBounded (suc left) seen (c ∷ rest) z room le = elim (Bool-cases (c == 0)) [
  | inl e ↦ rw e (omega (arith, length-text seen), omega arith, omega arith)
  | inr e ↦
      let (a, b, d) =
        string_loop-IsBounded left (seen ++ (c ∷ [])) rest (advance rest z) room
          (omega (arith, le, length-append seen (c ∷ []))) in
      rw e (a, omega (arith, b), omega (arith, d))
]

-- `readString` asks for at most 512 bytes and returns at most 1022, since a character takes at
-- most two bytes in UTF-8.
pub read_string-IsBounded : (z : Reader) → IsBounded z 512 511 (read_string z)
unfolding read_string
read_string-IsBounded z = string_loop-IsBounded buf_len [] z.r.source.rest z 511 (omega arith)
