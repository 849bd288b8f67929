-- ===== src/Flate/Resume/Lengths.antt =====
-- Lists that agree where they have been written.
use targz.Prelude.{
  ℕ, zero, suc, ◌+◌, ◌-◌, ◌≤◌, ◌<◌, List, [], ◌∷◌, ◌≡◌, ◌≢◌, refl, ap, ap₂, sym, ◌∙◌, length,
  get_or, set, take, drop, arith, length-set, take-drop-take, get_or-take_lt, get_or_ext,
  get_or_out, get_or_at, Bool, true, ◌&&◌, ltb, ◌==◌, ltb→lt,
}
use mathlib.Core.Path.{subst}
use native.Mathlib.Decide.{dec_lt}
use targz.Prelude.Below.{all_below, all_below-at, both}
use targz.Prelude.Slices.{slice}
use targz.Flate.Symbols.{repeat_bits, code_order}

pub take-set_both :
    (xs ys : List ℕ) (i c : ℕ)
    → length xs ≡ length ys
    → take i xs ≡ take i ys
    → take (suc i) (set xs i c) ≡ take (suc i) (set ys i c)
take-set_both [] [] i c e h = refl
take-set_both [] (y ∷ ys) i c e h = absurd (omega (arith, e))
take-set_both (x ∷ xs) [] i c e h = absurd (omega (arith, e))
take-set_both (x ∷ xs) (y ∷ ys) zero c e h = refl
take-set_both (x ∷ xs) (y ∷ ys) (suc i) c e h =
    ap₂ (λ a l. a ∷ l) (cc h) (take-set_both xs ys i c (omega (arith, e)) (cc h))

pub get_or-set_both :
    (xs ys : List ℕ) (i j c : ℕ)
    → length xs ≡ length ys
    → (j ≢ i → get_or xs j 0 ≡ get_or ys j 0)
    → get_or (set xs i c) j 0 ≡ get_or (set ys i c) j 0
get_or-set_both [] [] i j c e h = refl
get_or-set_both [] (y ∷ ys) i j c e h = absurd (omega (arith, e))
get_or-set_both (x ∷ xs) [] i j c e h = absurd (omega (arith, e))
get_or-set_both (x ∷ xs) (y ∷ ys) zero zero c e h = refl
get_or-set_both (x ∷ xs) (y ∷ ys) zero (suc j) c e h = h (λ p. omega (arith, p))
get_or-set_both (x ∷ xs) (y ∷ ys) (suc i) zero c e h = h (λ p. omega (arith, p))
get_or-set_both (x ∷ xs) (y ∷ ys) (suc i) (suc j) c e h =
    get_or-set_both xs ys i j c (omega (arith, e)) (λ p. h (λ q. p (omega (arith, q))))

-- The lengths up to an index, and how many there are in all.
abbrev pub AgreeTo : ℕ → List ℕ → List ℕ → Type 0
AgreeTo i xs ys = (length xs ≡ length ys) × (take i xs ≡ take i ys)

pub set-AgreeTo :
    (i c : ℕ) (xs ys : List ℕ) → AgreeTo i xs ys → AgreeTo (i + 1) (set xs i c) (set ys i c)
set-AgreeTo i c xs ys (e, h) = (
  length-set xs i c ∙ e ∙ sym (length-set ys i c),
  ap (λ k. take k (set xs i c)) (plus_one i)
      ∙ take-set_both xs ys i c e h
      ∙ ap (λ k. take k (set ys i c)) (sym (plus_one i)),
)
  where
    plus_one : (i : ℕ) → i + 1 ≡ suc i
    plus_one i = omega arith

pub repeat_bits-AgreeTo :
    (rep i c : ℕ) (xs ys : List ℕ)
    → AgreeTo i xs ys
    → AgreeTo (i + rep) (repeat_bits rep i c xs) (repeat_bits rep i c ys)
unfolding repeat_bits
repeat_bits-AgreeTo zero i c xs ys (e, h) =
    (e, ap (λ k. take k xs) (plus_zero i) ∙ h ∙ ap (λ k. take k ys) (sym (plus_zero i)))
  where
    plus_zero : (i : ℕ) → i + 0 ≡ i
    plus_zero i = omega arith
repeat_bits-AgreeTo (suc rep) i c xs ys h =
    subst
      (λ k.
        AgreeTo k (repeat_bits rep (i + 1) c (set xs i c)) (repeat_bits rep (i + 1) c (set ys i c)))
      (assoc i rep)
      (repeat_bits-AgreeTo rep (i + 1) c (set xs i c) (set ys i c) (set-AgreeTo i c xs ys h))
  where
    assoc : (i rep : ℕ) → i + 1 + rep ≡ i + suc rep
    assoc i rep = omega arith

pub get_or-AgreeTo :
    (i j : ℕ) (xs ys : List ℕ) → j < i → AgreeTo i xs ys → get_or xs j 0 ≡ get_or ys j 0
get_or-AgreeTo i j xs ys lt (e, h) =
    sym (get_or-take_lt i xs j 0 lt) ∙ ap (λ l. get_or l j 0) h ∙ get_or-take_lt i ys j 0 lt

pub slice-AgreeTo :
    (n a b : ℕ) (xs ys : List ℕ) → a ≤ b → b ≤ n → AgreeTo n xs ys → slice xs a b ≡ slice ys a b
slice-AgreeTo n a b xs ys le le' (e, h) =
    sym (take-drop-take (b - a) a n xs (omega (arith, le, le')))
    ∙ ap (λ l. take (b - a) (drop a l)) h
    ∙ take-drop-take (b - a) a n ys (omega (arith, le, le'))

-- The code lengths of the first places of `codeOrder`.
abbrev pub AgreeIn : ℕ → List ℕ → List ℕ → Type 0
AgreeIn i xs ys =
    (length xs ≡ 19)
    × (length ys ≡ 19)
    × ((k : ℕ) → k < i → get_or xs (get_or code_order k 0) 0 ≡ get_or ys (get_or code_order k 0) 0)

pub set-AgreeIn :
    (i c : ℕ) (xs ys : List ℕ)
    → AgreeIn i xs ys
    → AgreeIn (i + 1) (set xs (get_or code_order i 0) c) (set ys (get_or code_order i 0) c)
set-AgreeIn i c xs ys (e, e', h) = (
  length-set xs _ c ∙ e,
  length-set ys _ c ∙ e',
  λ k lt.
      get_or-set_both xs ys (get_or code_order i 0) (get_or code_order k 0) c (e ∙ sym e')
        (λ p. h k (earlier k lt p)),
)
  where
    earlier : (k : ℕ) → k < i + 1 → get_or code_order k 0 ≢ get_or code_order i 0 → k < i
    earlier k lt p = elim (dec_lt k i) [
      | yes less ↦ less
      | no ge ↦ absurd (p (get_or_at code_order k i 0 (omega (arith, ge, lt))))
    ]

-- Where a length stands in `codeOrder`.
abbrev place_of : List ℕ
place_of = 3 ∷ 17 ∷ 15 ∷ 13 ∷ 11 ∷ 9 ∷ 7 ∷ 5 ∷ 4 ∷ 6 ∷ 8 ∷ 10 ∷ 12 ∷ 14 ∷ 16 ∷ 18 ∷ 0 ∷ 1 ∷ 2 ∷ []

abbrev is_placed : ℕ → Bool
is_placed j = ltb (get_or place_of j 0) 19 && get_or code_order (get_or place_of j 0) 0 == j

all_placed : all_below is_placed 19 ≡ true
unfolding all_below
all_placed = refl

pub AgreeIn-all : (xs ys : List ℕ) → AgreeIn 19 xs ys → xs ≡ ys
AgreeIn-all xs ys (e, e', h) = get_or_ext 0 xs ys (e ∙ sym e') (λ j. elim (dec_lt j 19) [
  | yes lt ↦ placed j (both _ _ (all_below-at is_placed 19 j all_placed lt))
  | no ge ↦
      get_or_out xs j 0 (omega (arith, e, ge)) ∙ sym (get_or_out ys j 0 (omega (arith, e', ge)))
])
  where
    same_number : (a b : ℕ) → (a == b) ≡ true → a ≡ b
    same_number a b h = ground arith

    placed :
        (j : ℕ)
        → (ltb (get_or place_of j 0) 19 ≡ true)
          × ((get_or code_order (get_or place_of j 0) 0 == j) ≡ true)
        → get_or xs j 0 ≡ get_or ys j 0
    placed j (below, there) =
        let k_j = same_number (get_or code_order (get_or place_of j 0) 0) j there in
        ap (λ i. get_or xs i 0) (sym k_j)
        ∙ h (get_or place_of j 0) (ltb→lt _ 19 below)
        ∙ ap (λ i. get_or ys i 0) k_j
