-- ===== src/Flate/Dict/Paths.antt =====
-- The copying loops of `writeCopy`: straight, and round the end of the window.
use targz.Prelude.{
  ℕ, ◌+◌, ◌-◌, ◌≤◌, ◌<◌, ◌%◌, min, ◌≡◌, ◌∙◌, sym, ap, List, length, get_or, get_or_at, arith, drop,
  length-drop, get_or-drop,
}
use native.Mathlib.Decide.{dec_lt}
use native.Mathlib.Nat.{mod-eq_of_lt, mod-eq-sub-mod}
use targz.Prelude.Slices.{copy_into}
use targz.Flate.Dict.{copy_loop}
use targz.Flate.Dict.Loop.{
  IsFilled, copy_loop-IsFilled, length-copy_into, copy_into_in, copy_into_before, copy_into_after,
}
use targz.Flate.Dict.Copy.{IsCopy}

-- A copy that does not reach round the end of the window.
module _ (h : List ℕ) (d e p : ℕ) (pos : 0 < p) (near : p ≤ d) (fits : e ≤ length h) where
  abbrev straight : ℕ → ℕ
  straight j = get_or h (d - p + (j - (d - p)) % p) 0

  straight_shift : (i : ℕ) → straight (d + i) ≡ straight (d - p + i)
  straight_shift i = get_or_at h _ _ 0 (grind arith)

  straight_old : (j : ℕ) → d - p ≤ j → j < d → get_or h j 0 ≡ straight j
  straight_old j a b =
      get_or_at h j _ 0 (omega (arith, mod-eq_of_lt {n = j - (d - p)} {m = p} (omega arith)))

  straight_back : (j : ℕ) → d ≤ j → straight j ≡ straight (j - p)
  straight_back j a =
      get_or_at h _ _ 0 (ap (λ k. d - p + (k - (d - p)) % p) split)
      ∙ straight_shift (j - d)
      ∙ get_or_at h _ _ 0 (ap (λ k. d - p + (k - (d - p)) % p) back)
    where
      split : j ≡ d + (j - d)
      split = omega arith

      back : d - p + (j - d) ≡ j - p
      back = omega arith

  straight_known :
      (out : ℕ × List ℕ)
      → IsFilled straight h d e out
      → (j : ℕ) → d - p ≤ j
      → j < e
      → get_or out.1 j 0 ≡ straight j
  straight_known out f j a b = elim (dec_lt j d) [
    | yes q ↦ f.before j q ∙ straight_old j a q
    | no q ↦ f.inside j (omega arith) b
  ]

  straight-IsCopy : (out : ℕ × List ℕ) → d ≤ e → IsFilled straight h d e out → IsCopy h d e p out.1
  straight-IsCopy out le f = record {
    size = f.size;
    before = f.before;
    after = λ j a. f.after j (omega arith) a;
    near = λ j a b q.
        f.inside j a b
        ∙ straight_back j a
        ∙ sym (straight_known out f (j - p) (omega arith) (omega arith));
    far = λ j a b q. absurd (omega arith);
  }

  module _ (fuel : ℕ) (enough : e ≤ d + fuel) (le : d ≤ e) where
    straight-IsFilled : IsFilled straight h d e (copy_loop fuel h (d - p) d e)
    straight-IsFilled =
        copy_loop-IsFilled straight fuel h (d - p) d e enough (λ _. omega arith) fits
          (λ _. straight_shift) straight_old

    pub straight_loop : IsCopy h d e p (copy_loop fuel h (d - p) d e).1
    straight_loop = straight-IsCopy _ le straight-IsFilled

    pub straight_stop : (copy_loop fuel h (d - p) d e).0 ≡ e
    straight_stop = omega (arith, straight-IsFilled.stop)

-- A copy that starts round the end of the window.
module _ (h : List ℕ) (d e p : ℕ) (round : d < p) (small : p ≤ length h) (le : d ≤ e)
    (fits : e ≤ length h) where
  abbrev pub source : List ℕ
  source = drop (length h + d - p) h

  abbrev pub count : ℕ
  count = min (e - d) (length source)

  count_lem : count ≡ min (e - d) (p - d)
  count_lem = omega (arith, length-drop {0} (length h + d - p) h)

  abbrev pub first : List ℕ
  first = (copy_into h d e source).1

  first_far : (j : ℕ) → d ≤ j → j < d + count → get_or first j 0 ≡ get_or h (length h + j - p) 0
  first_far j a b =
      copy_into_in h d e source fits le j a b
      ∙ get_or-drop (length h + d - p) h (j - d) 0
      ∙ get_or_at h _ (length h + j - p) 0 (omega arith)

  abbrev again : ℕ → ℕ
  again j = get_or first (j % p) 0

  again_old : (j : ℕ) → j < p → get_or first j 0 ≡ again j
  again_old j a = get_or_at first j (j % p) 0 (omega (arith, mod-eq_of_lt {n = j} {m = p} a))

  again_shift : (dst : ℕ) → dst ≡ p → (i : ℕ) → again (dst + i) ≡ again (0 + i)
  again_shift dst e₁ i = get_or_at first _ _ 0 (grind arith)

  abbrev pub wrapped_loop : ℕ × List ℕ
  wrapped_loop = copy_loop (e - (d + count)) first 0 (d + count) e

  wrapped-IsFilled : IsFilled again first (d + count) e wrapped_loop
  wrapped-IsFilled =
      copy_loop-IsFilled again (e - (d + count)) first 0 (d + count) e (omega arith)
        (λ lt. omega (arith, count_lem)) (omega (arith, length-copy_into h d e source fits le))
        (λ lt. again_shift (d + count) (omega (arith, count_lem)))
        (λ j a b. again_old j (omega (arith, count_lem)))

  wrapped_known : (j : ℕ) → j < e → get_or wrapped_loop.1 j 0 ≡ again j
  wrapped_known j a = elim (dec_lt j (d + count)) [
    | yes q ↦ wrapped-IsFilled.before j q ∙ again_old j (omega (arith, count_lem))
    | no q ↦ wrapped-IsFilled.inside j (omega arith) a
  ]

  again_back : (j : ℕ) → p ≤ j → again j ≡ again (j - p)
  again_back j a = get_or_at first _ _ 0 (mod-eq-sub-mod {n = j} {m = p} a)

  pub wrapped_stop : wrapped_loop.0 ≡ e
  wrapped_stop = omega (arith, wrapped-IsFilled.stop, count_lem)

  pub wrapped-IsCopy : IsCopy h d e p wrapped_loop.1
  wrapped-IsCopy = record {
    size = wrapped-IsFilled.size ∙ length-copy_into h d e source fits le;
    before =
        λ j a. wrapped-IsFilled.before j (omega arith) ∙ copy_into_before h d e source fits le j a;
    after = λ j a.
        wrapped-IsFilled.after j (omega (arith, count_lem)) a
        ∙ copy_into_after h d e source fits le j (omega (arith, count_lem));
    near =
        λ j a b q. wrapped_known j b ∙ again_back j q ∙ sym (wrapped_known (j - p) (omega arith));
    far = λ j a b q.
        wrapped-IsFilled.before j (omega (arith, count_lem))
        ∙ first_far j a (omega (arith, count_lem));
  }
