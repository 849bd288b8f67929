-- ===== src/Flate/Sound/Reads.antt =====
-- gsip/internal/flate/inflate.go, `Read`: it returns, and hands out what it counts.
use targz.Prelude.{
  ◌∷◌, ◌∙◌, zero, suc, ◌<◌, ◌≤◌, List, [], ◌≢◌, ◌⊎◌, Option, none, ltb, ltb→lt, ltb→le, take, drop,
  refl, ◌==◌, if◌then◌else◌, ℕ, ◌+◌, ◌*◌, ◌≡◌, length, arith, Bool-cases, Option-cases, inl, inr,
  length-take,
}
use targz.Flate.Source.{Error}
use targz.Flate.State.{Decompressor, Step, next_block, huffman_block, copy_data}
use targz.Flate.Blocks.{run_step}
use targz.Flate.Reading.{deliver, settle, read}
use targz.Flate.Sound.{IsGood, bits_left, Never, Ends, bind-Ends}
use targz.Flate.Sound.Offsets.{
  IsCounted, settle-IsCounted, settle-IsGood, settle-HasProgress, deliver-IsCounted,
}
use targz.Flate.Sound.Whole.{pending, weight, HasProgress, Advanced, run_step-Ends}

-- What `Read` needs to return within so many rounds.
abbrev pub HasRounds : ℕ → Decompressor → Type 0
HasRounds rounds f =
    (((f.err ≢ none) ⊎ (0 < length f.to_read)) × (0 < rounds)) ⊎ (weight f + 1 < rounds)

-- As many are enough for any of the steps.
pub enough_rounds :
    (rounds : ℕ) (f : Decompressor) → 2 * bits_left f + 3 ≤ rounds → HasRounds rounds f
enough_rounds rounds f le = inr (lighter f.step)
  where
    lighter : (s : Step) → 2 * bits_left f + pending s + 1 < rounds
    lighter next_block = omega arith
    lighter huffman_block = omega arith
    lighter copy_data = omega arith

-- A decoder with no error and nothing to hand out has the rounds for its weight.
busy :
    (rounds : ℕ) (f : Decompressor)
    → f.err ≡ none
    → length f.to_read ≤ 0
    → HasRounds rounds f
    → weight f + 1 < rounds
busy rounds f p nothing (inl (inl e, _)) = absurd (e p)
busy rounds f p nothing (inl (inr e, _)) = absurd (omega arith)
busy rounds f p nothing (inr h) = h

nothing_waits : (d : ℕ) (f : Decompressor) → length f.to_read ≤ 0 → IsCounted d f → f.woffset ≡ d
nothing_waits d f nothing c = omega (arith, c)

module _ (cap total budget n : ℕ) where
  -- What `Read` into `n` bytes leaves, where `d` bytes have been handed out before it.
  abbrev pub Delivered : ℕ → List ℕ × Option Error → Decompressor → Type 0
  Delivered d (bytes, err) f =
      IsGood cap f.woffset total budget f
      × IsCounted (d + length bytes) f
      × (length bytes ≤ n)
      × (0 < n → bytes ≡ [] → err ≢ none)
      × (err ≢ none → length f.to_read ≡ 0)

  progress-HasRounds :
      (rounds : ℕ) (f f' : Decompressor)
      → weight f + 1 < suc rounds
      → HasProgress (weight f) f'
      → HasRounds rounds f'
  progress-HasRounds rounds f f' enough (inl e) = inl (inl e, omega arith)
  progress-HasRounds rounds f f' enough (inr (inl e)) = inl (inr e, omega arith)
  progress-HasRounds rounds f f' enough (inr (inr lt)) = inr (omega arith)

  -- Something is handed out unless the buffer has no room.
  some_taken : (m : ℕ) (xs : List ℕ) → 0 < length xs → 0 < m → take m xs ≢ []
  some_taken zero xs pos lt e = omega arith
  some_taken (suc m) [] pos lt e = omega arith
  some_taken (suc m) (x ∷ xs) pos lt e = cc e

  deliver-Delivered :
      (d : ℕ) (f : Decompressor)
      → 0 < length f.to_read
      → IsGood cap f.woffset total budget f
      → IsCounted d f
      → Delivered d (deliver n f).0 (deliver n f).1
  unfolding deliver
  deliver-Delivered d f some_here g c = (
    g,
    deliver-IsCounted n d f c,
    omega (arith, length-take n f.to_read),
    λ room nothing _. some_taken n f.to_read some_here room nothing,
    drained (length (drop n f.to_read)),
  )
    where
      drained : (left : ℕ) → (if left == 0 then f.err else none) ≢ none → left ≡ 0
      drained zero h = refl
      drained (suc left) h = absurd (h (ground arith))

  -- `Read` from a sane state returns, or panics, when it may take as many rounds as the weight of
  -- the state asks for: it never stops for want of rounds; the state it leaves is sane with the
  -- same budget of bits, `woffset` counts the bytes handed out and those that wait, where it did
  -- before, and the bytes that it hands out are at most as many as were asked for, with no error
  -- at least one where any was asked for, and with an error none wait.
  pub read-Ends :
      (rounds d : ℕ) (f : Decompressor)
      → HasRounds rounds f
      → IsGood cap f.woffset total budget f
      → IsCounted d f
      → Ends (Delivered d) Never (read rounds n f)
  unfolding read
  read-Ends zero d f (inl h) g c = absurd (omega (arith, h.1))
  read-Ends zero d f (inr h) g c = absurd (omega (arith, h))
  read-Ends (suc rounds) d f enough g c = elim (Bool-cases (ltb 0 (length f.to_read))) [
    | inl e ↦ rw (read, e) (deliver-Delivered d f (ltb→lt 0 _ e) g c)
    | inr e ↦ elim (Option-cases f.err) [
      | inr (x, p) ↦
          rw (read, e, p)
            (g, omega (arith, c), omega arith, (λ _ _ q. cc q), λ _. omega (arith, ltb→le 0 _ e))
      | inl p ↦
          rw (read, e, p)
            (bind-Ends (λ _. Advanced cap f.woffset total budget (weight f)) (Delivered d) Never
              run_step _ f (run_step-Ends cap f.woffset total budget f g)
              (λ _ f' h.
                read-Ends rounds d (settle f')
                  (progress-HasRounds rounds f (settle f')
                    (busy (suc rounds) f p (ltb→le 0 _ e) enough)
                    (settle-HasProgress (weight f) f' h.1))
                  (settle-IsGood cap total budget f.woffset f' h.0)
                  (settle-IsCounted d f' (h.0.flushed ∙ nothing_waits d f (ltb→le 0 _ e) c))))
    ]
  ]
