-- ===== src/Prelude/Lists.antt =====
-- Lists measured and indexed by native numbers, under the library's names.
use Prim.Native.Nat.{ℕ, zero, suc, ◌+◌, ◌-◌, ◌≤◌, ◌<◌, min}
use mathlib.Core.Path.{◌≡◌, refl, sym, ap, ap₂, ◌∙◌}
use mathlib.Core.Logic.{◌≢◌}
use mathlib.Core.List.{List, [], ◌∷◌, ◌++◌}
use mathlib.Core.Option.{Option, none, some}
use native.Mathlib.Omega.{arith}

module _ {ℓ} {A : Type ℓ} where
  abbrev pub length : List A → ℕ
  length [] = 0
  length (x ∷ xs) = suc (length xs)

  abbrev pub get_elem? : List A → ℕ → Option A
  get_elem? [] i = none
  get_elem? (x ∷ xs) zero = some x
  get_elem? (x ∷ xs) (suc i) = get_elem? xs i

  abbrev pub get_or : List A → ℕ → A → A
  get_or [] i d = d
  get_or (x ∷ xs) zero d = x
  get_or (x ∷ xs) (suc i) d = get_or xs i d

  -- A write out of bounds changes nothing.
  abbrev pub set : List A → ℕ → A → List A
  set [] i v = []
  set (x ∷ xs) zero v = v ∷ xs
  set (x ∷ xs) (suc i) v = x ∷ set xs i v

  abbrev pub take : ℕ → List A → List A
  take zero xs = []
  take (suc n) [] = []
  take (suc n) (x ∷ xs) = x ∷ take n xs

  abbrev pub drop : ℕ → List A → List A
  drop zero xs = xs
  drop (suc n) [] = []
  drop (suc n) (x ∷ xs) = drop n xs

  abbrev pub replicate : ℕ → A → List A
  replicate zero a = []
  replicate (suc n) a = a ∷ replicate n a

  abbrev pub All {κ} : (A → Type κ) → List A → Type κ
  All P [] = Unit {κ}
  All P (x ∷ xs) = P x × All P xs

module _ {ℓ} {A : Type ℓ} where
  pub length-append : (xs ys : List A) → length (xs ++ ys) ≡ length xs + length ys
  length-append [] ys = omega arith
  length-append (x ∷ xs) ys = omega (arith, length-append xs ys)

  pub length-set : (xs : List A) (i : ℕ) (v : A) → length (set xs i v) ≡ length xs
  length-set [] i v = refl
  length-set (x ∷ xs) zero v = refl
  length-set (x ∷ xs) (suc i) v = ap suc (length-set xs i v)

  pub length-take : (n : ℕ) (xs : List A) → length (take n xs) ≡ min n (length xs)
  length-take zero xs = omega arith
  length-take (suc n) [] = omega arith
  length-take (suc n) (x ∷ xs) = omega (arith, length-take n xs)

  pub length-drop : (n : ℕ) (xs : List A) → length (drop n xs) ≡ length xs - n
  length-drop zero xs = omega arith
  length-drop (suc n) [] = omega arith
  length-drop (suc n) (x ∷ xs) = omega (arith, length-drop n xs)

  pub length-replicate : (n : ℕ) (a : A) → length (replicate n a) ≡ n
  length-replicate zero a = refl
  length-replicate (suc n) a = ap suc (length-replicate n a)

  pub take-append-drop : (n : ℕ) (xs : List A) → take n xs ++ drop n xs ≡ xs
  take-append-drop zero xs = refl
  take-append-drop (suc n) [] = refl
  take-append-drop (suc n) (x ∷ xs) = ap (λ l. x ∷ l) (take-append-drop n xs)

  pub get_or_ext :
      (d : A) (xs ys : List A)
      → length xs ≡ length ys
      → ((i : ℕ) → get_or xs i d ≡ get_or ys i d)
      → xs ≡ ys
  get_or_ext d [] [] e h = refl
  get_or_ext d [] (y ∷ ys) e h = absurd (omega arith)
  get_or_ext d (x ∷ xs) [] e h = absurd (omega arith)
  get_or_ext d (x ∷ xs) (y ∷ ys) e h =
      ap₂ ◌∷◌ (h 0) (get_or_ext d xs ys (omega arith) (λ i. h (suc i)))

  pub get_or-set_self :
      (xs : List A) (i : ℕ) (v d : A) → i < length xs → get_or (set xs i v) i d ≡ v
  get_or-set_self [] i v d h = absurd (omega arith)
  get_or-set_self (x ∷ xs) zero v d h = refl
  get_or-set_self (x ∷ xs) (suc i) v d h = get_or-set_self xs i v d (omega arith)

  pub get_or-set_ne :
      (xs : List A) (i j : ℕ) (v d : A) → i ≢ j → get_or (set xs i v) j d ≡ get_or xs j d
  get_or-set_ne [] i j v d h = refl
  get_or-set_ne (x ∷ xs) zero zero v d h = absurd (h refl)
  get_or-set_ne (x ∷ xs) zero (suc j) v d h = refl
  get_or-set_ne (x ∷ xs) (suc i) zero v d h = refl
  get_or-set_ne (x ∷ xs) (suc i) (suc j) v d h = get_or-set_ne xs i j v d (λ e. h (ap suc e))

  -- To move along an equation of indices.
  pub get_or_at : (xs : List A) (i j : ℕ) (d : A) → i ≡ j → get_or xs i d ≡ get_or xs j d
  get_or_at xs i j d e = ap (λ k. get_or xs k d) e

  pub get_or-drop :
      (n : ℕ) (xs : List A) (i : ℕ) (d : A) → get_or (drop n xs) i d ≡ get_or xs (n + i) d
  get_or-drop zero xs i d = get_or_at xs i (0 + i) d (omega arith)
  get_or-drop (suc n) [] i d = refl
  get_or-drop (suc n) (x ∷ xs) i d =
      get_or-drop n xs i d ∙ get_or_at (x ∷ xs) (suc (n + i)) (suc n + i) d (omega arith)

  pub get_or-take_lt :
      (n : ℕ) (xs : List A) (i : ℕ) (d : A) → i < n → get_or (take n xs) i d ≡ get_or xs i d
  get_or-take_lt zero xs i d h = absurd (omega arith)
  get_or-take_lt (suc n) [] i d h = refl
  get_or-take_lt (suc n) (x ∷ xs) zero d h = refl
  get_or-take_lt (suc n) (x ∷ xs) (suc i) d h = get_or-take_lt n xs i d (omega arith)

  pub get_or-append_lt :
      (xs ys : List A) (i : ℕ) (d : A) → i < length xs → get_or (xs ++ ys) i d ≡ get_or xs i d
  get_or-append_lt [] ys i d h = absurd (omega arith)
  get_or-append_lt (x ∷ xs) ys zero d h = refl
  get_or-append_lt (x ∷ xs) ys (suc i) d h = get_or-append_lt xs ys i d (omega arith)

  pub get_or_out : (xs : List A) (i : ℕ) (d : A) → length xs ≤ i → get_or xs i d ≡ d
  get_or_out [] i d h = refl
  get_or_out (x ∷ xs) zero d h = absurd (omega arith)
  get_or_out (x ∷ xs) (suc i) d h = get_or_out xs i d (omega arith)

  pub get_or-append_ge :
      (xs ys : List A) (i : ℕ) (d : A)
      → length xs ≤ i
      → get_or (xs ++ ys) i d ≡ get_or ys (i - length xs) d
  get_or-append_ge [] ys i d h = get_or_at ys i (i - 0) d (omega arith)
  get_or-append_ge (x ∷ xs) ys zero d h = absurd (omega arith)
  get_or-append_ge (x ∷ xs) ys (suc i) d h =
      get_or-append_ge xs ys i d (omega arith)
      ∙ get_or_at ys (i - length xs) (suc i - suc (length xs)) d (omega arith)

  -- Writing one place behind what is taken, or in front of what is dropped.
  pub take-set :
      (xs : List A) (i : ℕ) (c : A)
      → i < length xs
      → take (suc i) (set xs i c) ≡ take i xs ++ (c ∷ [])
  take-set [] i c h = absurd (omega arith)
  take-set (x ∷ xs) zero c h = refl
  take-set (x ∷ xs) (suc i) c h = ap (λ l. x ∷ l) (take-set xs i c (omega arith))

  pub drop-set : (xs : List A) (i : ℕ) (c : A) → drop (suc i) (set xs i c) ≡ drop (suc i) xs
  drop-set [] i c = refl
  drop-set (x ∷ xs) zero c = refl
  drop-set (x ∷ xs) (suc i) c = drop-set xs i c

  pub drop_step :
      (xs : List A) (i : ℕ) (d : A) → i < length xs → drop i xs ≡ get_or xs i d ∷ drop (suc i) xs
  drop_step [] i d h = absurd (omega arith)
  drop_step (x ∷ xs) zero d h = refl
  drop_step (x ∷ xs) (suc i) d h = drop_step xs i d (omega arith)

  pub drop-set_le :
      (xs : List A) (a i : ℕ) (c : A) → a ≤ i → drop a (set xs i c) ≡ set (drop a xs) (i - a) c
  drop-set_le xs zero i c h = ap (λ k. set xs k c) (sub-zero' i)
    where
      sub-zero' : (k : ℕ) → k ≡ k - 0
      sub-zero' k = omega arith
  drop-set_le [] (suc a) i c h = refl
  drop-set_le (x ∷ xs) (suc a) zero c h = absurd (omega arith)
  drop-set_le (x ∷ xs) (suc a) (suc i) c h =
      drop-set_le xs a i c (omega arith) ∙ ap (λ k. set (drop a xs) k c) (suc_sub i a)
    where
      suc_sub : (k m : ℕ) → k - m ≡ suc k - suc m
      suc_sub k m = omega arith

  pub take_all : (n : ℕ) (xs : List A) → length xs ≤ n → take n xs ≡ xs
  take_all zero [] h = refl
  take_all zero (x ∷ xs) h = absurd (omega arith)
  take_all (suc n) [] h = refl
  take_all (suc n) (x ∷ xs) h = ap (λ l. x ∷ l) (take_all n xs (omega arith))

  pub drop_all : (n : ℕ) (xs : List A) → length xs ≤ n → drop n xs ≡ []
  drop_all zero [] h = refl
  drop_all zero (x ∷ xs) h = absurd (omega arith)
  drop_all (suc n) [] h = refl
  drop_all (suc n) (x ∷ xs) h = drop_all n xs (omega arith)

  pub drop-drop : (k b : ℕ) (xs : List A) → drop k (drop b xs) ≡ drop (b + k) xs
  drop-drop k zero xs = ap (λ j. drop j xs) (omega arith)
  drop-drop k (suc b) [] = drop_all k [] (omega arith) ∙ sym (drop_all (suc b + k) [] (omega arith))
  drop-drop k (suc b) (x ∷ xs) = drop-drop k b xs ∙ ap (λ j. drop j (x ∷ xs)) (suc_add b k)
    where
      suc_add : (b k : ℕ) → suc (b + k) ≡ suc b + k
      suc_add b k = omega arith

  -- What lies inside the first `size` elements is found there.
  pub take-drop-take :
      (g k size : ℕ) (xs : List A)
      → g + k ≤ size
      → take g (drop k (take size xs)) ≡ take g (drop k xs)
  take-drop-take zero k size xs h = refl
  take-drop-take (suc g) k zero xs h = absurd (omega arith)
  take-drop-take (suc g) zero (suc size) [] h = refl
  take-drop-take (suc g) zero (suc size) (x ∷ xs) h =
      ap (λ l. x ∷ l) (take-drop-take g zero size xs (omega arith))
  take-drop-take (suc g) (suc k) (suc size) [] h = refl
  take-drop-take (suc g) (suc k) (suc size) (x ∷ xs) h =
      take-drop-take (suc g) k size xs (omega arith)

  pub take-length-take : (n : ℕ) (xs : List A) → take (length (take n xs)) xs ≡ take n xs
  take-length-take zero xs = refl
  take-length-take (suc n) [] = refl
  take-length-take (suc n) (x ∷ xs) = ap (λ l. x ∷ l) (take-length-take n xs)
