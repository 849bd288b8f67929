-- ===== src/Prelude/Slices.antt =====
-- Go's slices over a list: `xs[a:b]`, and `copy`, which moves as many elements as both sides hold.
use Prim.Native.Nat.{ℕ, zero, suc, ◌+◌, ◌-◌, ◌≤◌, ◌<◌, min}
use mathlib.Core.Path.{◌≡◌, refl, ap, ◌∙◌}
use mathlib.Core.Logic.{◌⊎◌}
use mathlib.Core.List.{List, [], ◌∷◌}
use native.Mathlib.Omega.{arith}
use targz.Prelude.Lists.{length, get_or, get_or_at, take, drop, length-take, length-drop}

module _ {ℓ} {A : Type ℓ} where
  abbrev pub slice : List A → ℕ → ℕ → List A
  slice xs a b = take (b - a) (drop a xs)

  -- `ys` written over `xs` from index `i` on; what passes the end of `xs` is dropped.
  unfoldable pub overwrite : List A → ℕ → List A → List A
  overwrite [] i ys = []
  overwrite (x ∷ xs) (suc i) ys = x ∷ overwrite xs i ys
  overwrite (x ∷ xs) zero [] = x ∷ xs
  overwrite (x ∷ xs) zero (y ∷ ys) = y ∷ overwrite xs zero ys

  -- `copy(xs[lo:hi], src)`: how many elements, and the array afterwards. `copy` is a memmove, so
  -- `src` may be a slice of `xs` itself.
  unfoldable pub copy_into : List A → ℕ → ℕ → List A → ℕ × List A
  copy_into xs lo hi src = let n = min (hi - lo) (length src) in (n, overwrite xs lo (take n src))

  pub length-overwrite :
      (xs : List A) (i : ℕ) (ys : List A) → length (overwrite xs i ys) ≡ length xs
  unfolding overwrite
  length-overwrite [] i ys = refl
  length-overwrite (x ∷ xs) (suc i) ys = ap suc (length-overwrite xs i ys)
  length-overwrite (x ∷ xs) zero [] = refl
  length-overwrite (x ∷ xs) zero (y ∷ ys) = ap suc (length-overwrite xs zero ys)

  pub get_or-overwrite_in :
      (xs : List A) (i : ℕ) (ys : List A) (j : ℕ) (d : A)
      → i ≤ j
      → j < i + length ys
      → j < length xs
      → get_or (overwrite xs i ys) j d ≡ get_or ys (j - i) d
  unfolding overwrite
  get_or-overwrite_in [] i ys j d lo hi h = absurd (omega arith)
  get_or-overwrite_in (x ∷ xs) (suc i) ys zero d lo hi h = absurd (omega arith)
  get_or-overwrite_in (x ∷ xs) (suc i) ys (suc j) d lo hi h =
      get_or-overwrite_in xs i ys j d (omega arith) (omega arith) (omega arith)
      ∙ get_or_at ys (j - i) (suc j - suc i) d (omega arith)
  get_or-overwrite_in (x ∷ xs) zero [] j d lo hi h = absurd (omega arith)
  get_or-overwrite_in (x ∷ xs) zero (y ∷ ys) zero d lo hi h =
      get_or_at (y ∷ ys) 0 (0 - 0) d (omega arith)
  get_or-overwrite_in (x ∷ xs) zero (y ∷ ys) (suc j) d lo hi h =
      get_or-overwrite_in xs zero ys j d (omega arith) (omega arith) (omega arith)
      ∙ get_or_at (y ∷ ys) (suc (j - 0)) (suc j - 0) d (omega arith)

  pub get_or-overwrite_out :
      (xs : List A) (i : ℕ) (ys : List A) (j : ℕ) (d : A)
      → (j < i) ⊎ (i + length ys ≤ j)
      → get_or (overwrite xs i ys) j d ≡ get_or xs j d
  unfolding overwrite
  get_or-overwrite_out [] i ys j d h = refl
  get_or-overwrite_out (x ∷ xs) (suc i) ys zero d h = refl
  get_or-overwrite_out (x ∷ xs) (suc i) ys (suc j) d h =
      get_or-overwrite_out xs i ys j d (omega arith)
  get_or-overwrite_out (x ∷ xs) zero [] j d h = refl
  get_or-overwrite_out (x ∷ xs) zero (y ∷ ys) zero d h = absurd (omega arith)
  get_or-overwrite_out (x ∷ xs) zero (y ∷ ys) (suc j) d h =
      get_or-overwrite_out xs zero ys j d (omega arith)

  pub length-slice : (xs : List A) (a b : ℕ) → length (slice xs a b) ≡ min (b - a) (length xs - a)
  length-slice xs a b = omega (arith, length-take (b - a) (drop a xs), length-drop a xs)
