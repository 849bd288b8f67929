-- ===== src/Flate/Dict/Loop.antt =====
-- The doubling loop of `writeCopy`: what it leaves in the window.
use targz.Prelude.{
  ℕ, zero, suc, ◌+◌, ◌-◌, ◌≤◌, ◌<◌, max, min, ◌≡◌, ◌∙◌, refl, sym, List, length, get_or, ltb,
  ltb→lt, ltb→le, lt→ltb, le→ltb, Bool-cases, inl, inr, arith, get_or-drop, get_or-take_lt,
  length-take, ap, take,
}
use native.Mathlib.Decide.{dec_lt}
use targz.Prelude.Slices.{
  copy_into, slice, length-overwrite, get_or-overwrite_in, get_or-overwrite_out, length-slice,
}
use targz.Flate.Dict.{copy_loop}

-- One `copy` of a slice of the array into a later part of it.
module _ (h : List ℕ) (lo hi : ℕ) (src : List ℕ) (fits : hi ≤ length h) (order : lo ≤ hi) where
  pub copy_into_count : (copy_into h lo hi src).0 ≡ min (hi - lo) (length src)
  unfolding copy_into
  copy_into_count = refl

  pub length-copy_into : length (copy_into h lo hi src).1 ≡ length h
  unfolding copy_into
  length-copy_into = length-overwrite h lo _

  taken : length (take (min (hi - lo) (length src)) src) ≡ min (hi - lo) (length src)
  taken = omega (arith, length-take (min (hi - lo) (length src)) src)

  pub copy_into_in :
      (j : ℕ)
      → lo ≤ j
      → j < lo + min (hi - lo) (length src)
      → get_or (copy_into h lo hi src).1 j 0 ≡ get_or src (j - lo) 0
  unfolding copy_into
  copy_into_in j a b =
      get_or-overwrite_in h lo _ j 0 a (omega (arith, taken)) (omega arith)
      ∙ get_or-take_lt _ src (j - lo) 0 (omega arith)

  pub copy_into_before : (j : ℕ) → j < lo → get_or (copy_into h lo hi src).1 j 0 ≡ get_or h j 0
  unfolding copy_into
  copy_into_before j a = get_or-overwrite_out h lo _ j 0 (inl a)

  pub copy_into_after :
      (j : ℕ)
      → lo + min (hi - lo) (length src) ≤ j
      → get_or (copy_into h lo hi src).1 j 0 ≡ get_or h j 0
  unfolding copy_into
  copy_into_after j a = get_or-overwrite_out h lo _ j 0 (inr (omega (arith, taken)))

pub get_or-slice :
    (h : List ℕ) (a b i : ℕ) → i < b - a → get_or (slice h a b) i 0 ≡ get_or h (a + i) 0
get_or-slice h a b i p = get_or-take_lt (b - a) _ i 0 p ∙ get_or-drop a h i 0

-- What the loop has done when it stops: positions `dst` to `end_pos` hold `F`, the rest is old.
pub record IsFilled (F : ℕ → ℕ) (h : List ℕ) (dst end_pos : ℕ) (out : ℕ × List ℕ) : Type 0 where
  pub stop : out.0 ≡ max dst end_pos
  pub size : length out.1 ≡ length h
  pub before : (j : ℕ) → j < dst → get_or out.1 j 0 ≡ get_or h j 0
  pub after : (j : ℕ) → dst ≤ j → end_pos ≤ j → get_or out.1 j 0 ≡ get_or h j 0
  pub inside : (j : ℕ) → dst ≤ j → j < end_pos → get_or out.1 j 0 ≡ F j

IsFilled-stop :
    (F : ℕ → ℕ) (h : List ℕ) (dst end_pos : ℕ) → end_pos ≤ dst → IsFilled F h dst end_pos (dst, h)
IsFilled-stop F h dst end_pos le = record {
  stop = omega arith;
  size = refl;
  before = λ j a. refl;
  after = λ j a b. refl;
  inside = λ j a b. absurd (omega arith);
}

-- One round, then the rest of the loop. `n` bytes go to `dst`, and `h'` is the array after them.
IsFilled-step :
    (F : ℕ → ℕ) (h h' : List ℕ) (dst n end_pos : ℕ) (out : ℕ × List ℕ)
    → dst + n ≤ end_pos
    → length h' ≡ length h
    → ((j : ℕ) → j < dst → get_or h' j 0 ≡ get_or h j 0)
    → ((j : ℕ) → dst + n ≤ j → get_or h' j 0 ≡ get_or h j 0)
    → ((j : ℕ) → dst ≤ j → j < dst + n → get_or h' j 0 ≡ F j)
    → IsFilled F h' (dst + n) end_pos out
    → IsFilled F h dst end_pos out
IsFilled-step F h h' dst n end_pos out fits len low high mid rest = record {
  stop = omega (arith, rest.stop);
  size = rest.size ∙ len;
  before = λ j a. rest.before j (omega arith) ∙ low j a;
  after = λ j a b. rest.after j (omega arith) b ∙ high j (omega arith);
  inside = λ j a b. elim (Bool-cases (ltb j (dst + n))) [
    | inl e ↦ rest.before j (ltb→lt _ _ e) ∙ mid j a (ltb→lt _ _ e)
    | inr e ↦ rest.inside j (ltb→le _ _ e) b
  ];
}

-- The array after one round, and the count of it.
round : List ℕ → ℕ → ℕ → ℕ → ℕ × List ℕ
round h src dst end_pos = copy_into h dst end_pos (slice h src dst)

copy_loop_more :
    (fuel : ℕ) (h : List ℕ) (src dst end_pos : ℕ)
    → dst < end_pos
    → copy_loop (suc fuel) h src dst end_pos
      ≡ copy_loop fuel (round h src dst end_pos).1 src (dst + (round h src dst end_pos).0) end_pos
unfolding copy_loop round
copy_loop_more fuel h src dst end_pos lt = rw (lt→ltb _ _ lt, copy_loop)

copy_loop_done :
    (fuel : ℕ) (h : List ℕ) (src dst end_pos : ℕ)
    → end_pos ≤ dst
    → copy_loop (suc fuel) h src dst end_pos ≡ (dst, h)
unfolding copy_loop
copy_loop_done fuel h src dst end_pos le = rw (le→ltb _ _ le, copy_loop)

module _ (F : ℕ → ℕ) (h : List ℕ) (src dst end_pos : ℕ) (gap : src < dst) (more : dst < end_pos)
    (fits : end_pos ≤ length h) (shift : (i : ℕ) → F (dst + i) ≡ F (src + i))
    (agree : (j : ℕ) → src ≤ j → j < dst → get_or h j 0 ≡ F j) where
  abbrev count : ℕ
  count = min (end_pos - dst) (length (slice h src dst))

  count_lem : count ≡ min (end_pos - dst) (dst - src)
  count_lem = omega (arith, length-slice {0} h src dst)

  round_count : (round h src dst end_pos).0 ≡ count
  unfolding round
  round_count = copy_into_count h dst end_pos (slice h src dst) fits (omega arith)

  round_low : (j : ℕ) → j < dst → get_or (round h src dst end_pos).1 j 0 ≡ get_or h j 0
  unfolding round
  round_low = copy_into_before h dst end_pos (slice h src dst) fits (omega arith)

  round_high : (j : ℕ) → dst + count ≤ j → get_or (round h src dst end_pos).1 j 0 ≡ get_or h j 0
  unfolding round
  round_high = copy_into_after h dst end_pos (slice h src dst) fits (omega arith)

  round_size : length (round h src dst end_pos).1 ≡ length h
  unfolding round
  round_size = length-copy_into h dst end_pos (slice h src dst) fits (omega arith)

  F_back : (j : ℕ) → dst ≤ j → F (src + (j - dst)) ≡ F j
  F_back j a = sym (shift (j - dst)) ∙ ap F (omega arith)

  round_mid : (j : ℕ) → dst ≤ j → j < dst + count → get_or (round h src dst end_pos).1 j 0 ≡ F j
  unfolding round
  round_mid j a b =
      copy_into_in h dst end_pos (slice h src dst) fits (omega arith) j a b
      ∙ get_or-slice h src dst (j - dst) (omega (arith, count_lem))
      ∙ agree (src + (j - dst)) (omega arith) (omega (arith, count_lem))
      ∙ F_back j a

  -- The loop invariant after the round, unless the round was the last one.
  shift_next : (i : ℕ) → count ≡ dst - src → F (dst + count + i) ≡ F (src + i)
  shift_next i full = ap F assoc ∙ shift (count + i) ∙ ap F back ∙ shift i
    where
      assoc : dst + count + i ≡ dst + (count + i)
      assoc = omega arith

      back : src + (count + i) ≡ dst + i
      back = omega arith

  agree_next : (j : ℕ) → src ≤ j → j < dst + count → get_or (round h src dst end_pos).1 j 0 ≡ F j
  agree_next j a b = elim (Bool-cases (ltb j dst)) [
    | inl e ↦ round_low j (ltb→lt _ _ e) ∙ agree j a (ltb→lt _ _ e)
    | inr e ↦ round_mid j (ltb→le _ _ e) b
  ]

  -- What is left is the loop from the next state: it fills the rest, and its premises hold.
  round_then :
      (fuel : ℕ)
      → end_pos ≤ dst + suc fuel
      → ((enough : end_pos ≤ dst + count + fuel)
          → end_pos ≤ length (round h src dst end_pos).1
          → (dst + count < end_pos → (i : ℕ) → F (dst + count + i) ≡ F (src + i))
          → ((j : ℕ) → src ≤ j → j < dst + count → get_or (round h src dst end_pos).1 j 0 ≡ F j)
          → IsFilled F
              (round h src dst end_pos).1
              (dst + count)
              end_pos
              (copy_loop fuel (round h src dst end_pos).1 src (dst + count) end_pos))
      → IsFilled F h dst end_pos (copy_loop (suc fuel) h src dst end_pos)
  round_then fuel enough rest =
      rw (copy_loop_more fuel h src dst end_pos more, round_count)
        (IsFilled-step F h (round h src dst end_pos).1 dst count end_pos _
          (omega (arith, count_lem)) round_size round_low round_high round_mid
          (rest (omega (arith, count_lem)) (omega (arith, round_size))
            (λ lt i. shift_next i (omega (arith, count_lem))) agree_next))

-- The loop fills the gap up to `end_pos` with any `F` that agrees with the source so far and
-- repeats with the distance between the source and the destination.
pub copy_loop-IsFilled :
    (F : ℕ → ℕ) (fuel : ℕ) (h : List ℕ) (src dst end_pos : ℕ)
    → end_pos ≤ dst + fuel
    → (dst < end_pos → src < dst)
    → end_pos ≤ length h
    → (dst < end_pos → (i : ℕ) → F (dst + i) ≡ F (src + i))
    → ((j : ℕ) → src ≤ j → j < dst → get_or h j 0 ≡ F j)
    → IsFilled F h dst end_pos (copy_loop fuel h src dst end_pos)
copy_loop-IsFilled F zero h src dst end_pos enough gap fits shift agree =
    unfold copy_loop in IsFilled-stop F h dst end_pos (omega arith)
copy_loop-IsFilled F (suc fuel) h src dst end_pos enough gap fits shift agree =
    elim (dec_lt dst end_pos) [
      | yes more ↦
          round_then F h src dst end_pos (gap more) more fits (shift more) agree fuel enough
            (λ a b c d.
              copy_loop-IsFilled F fuel _ src _ end_pos a (λ _. omega (arith, gap more)) b c d)
      | no done ↦
          rw (copy_loop_done fuel h src dst end_pos (omega arith))
            (IsFilled-stop F h dst end_pos (omega arith))
    ]
