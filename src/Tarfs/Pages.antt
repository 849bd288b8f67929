-- ===== src/Tarfs/Pages.antt =====
-- tarfs/tarfs.go, `(*File).ReadDir`: page by page through a listing.
use targz.Prelude.{
  ℕ, zero, suc, ◌+◌, ◌-◌, ◌<◌, List, [], ◌++◌, ◌≡◌, ◌≢◌, ◌↔◌, ◌∙◌, refl, ap, sym, Bool, Option,
  none, some, true, false, arith, ltb, Bool-cases, inl, inr, length, take, drop, take_all,
  length-take, length-drop, take-append-drop, drop_all, drop-drop, ltb→le, ltb→lt,
}
use mathlib.Core.List.{append-nil}
use targz.Tarfs.Index.{Entry}
use targz.Tarfs.Open.{file_read_dir}

whole_rest : (c : ℕ) (xs : List Entry) → drop c xs ++ drop (length xs) xs ≡ drop c xs
whole_rest c xs =
    ap (λ ys. drop c xs ++ ys) (drop_all (length xs) xs (omega arith)) ∙ append-nil (drop c xs)

-- The entries of a page from a cursor on: of a positive `n` at most as many, of one below zero all
-- that are left.
abbrev pub page : Option ℕ → List Entry → List Entry
page (some n) left = take n left
page none left = left

-- `io.EOF` is for a positive `n` where nothing is left.
abbrev pub IsEnd : Option ℕ → List Entry → Type 0
IsEnd (some n) left = (0 < n) × (left ≡ [])
IsEnd none left = ⊥

-- In front of the end of a directory something is left.
some_left : (c : ℕ) (dir : List Entry) → ltb c (length dir) ≡ true → drop c dir ≢ []
some_left c dir p e = omega (arith, ltb→lt c (length dir) p, length-drop c dir, ap length e)

-- The cursor behind all that is left.
at_end :
    (c : ℕ) (dir : List Entry) → ltb c (length dir) ≡ true → length dir ≡ c + length (drop c dir)
at_end c dir p = omega (arith, ltb→lt c (length dir) p, length-drop c dir)

-- What a call may return, by the page and the entries that were left.
abbrev pub IsPage : Option ℕ → List Entry → ℕ → (List Entry × Bool) × ℕ → Type 0
IsPage n dir c ((got, eof), c') =
    (got ≡ page n (drop c dir))
    × (c' ≡ c + length got)
    × (got ++ drop c' dir ≡ drop c dir)
    × ((eof ≡ true) ↔ IsEnd n (drop c dir))

rest-IsPage :
    (n : Option ℕ) (c : ℕ) (dir : List Entry)
    → ltb c (length dir) ≡ true
    → page n (drop c dir) ≡ drop c dir
    → (IsEnd n (drop c dir) → drop c dir ≡ [])
    → IsPage n dir c ((drop c dir, false), length dir)
rest-IsPage n c dir p whole ends = (
  sym whole,
  at_end c dir p,
  whole_rest c dir,
  ((λ e. absurd (cc e)), λ e. absurd (some_left c dir p (ends e))),
)

cut-IsPage :
    (k c : ℕ) (dir : List Entry)
    → ltb c (length dir) ≡ true
    → suc k < length dir - c
    → IsPage (some (suc k)) dir c ((take (suc k) (drop c dir), false), c + suc k)
cut-IsPage k c dir p lt = (
  refl,
  omega (arith, length-take (suc k) (drop c dir), length-drop c dir),
  ap (λ l. take (suc k) (drop c dir) ++ l) (sym (drop-drop (suc k) c dir))
      ∙ take-append-drop (suc k) (drop c dir),
  ((λ e. absurd (cc e)), λ e. absurd (some_left c dir p e.1)),
)

-- `ReadDir` of a directory behind a cursor returns, for a positive `n`, the first `n` of the
-- entries that are left or all if they are fewer, for an `n` below zero all that are left, for
-- zero none; the cursor moves on by the entries returned, so that they and what stands behind the
-- new cursor make up what was left; and `io.EOF` is returned just for a positive `n` where nothing
-- was left.
pub file_read_dir-IsPage :
    (n : Option ℕ) (dir : List Entry) (cursor : ℕ)
    → IsPage n dir cursor (file_read_dir n dir cursor)
unfolding file_read_dir
file_read_dir-IsPage (some zero) dir c =
    (refl, omega arith, refl, ((λ e. absurd (cc e)), λ e. absurd (omega (arith, e.0))))
file_read_dir-IsPage (some (suc k)) dir c = elim (Bool-cases (ltb c (length dir))) [
  | inl p ↦ elim (Bool-cases (ltb (suc k) (length dir - c))) [
    | inl q ↦ rw (file_read_dir, p, q) (cut-IsPage k c dir p (ltb→lt _ _ q))
    | inr q ↦
        rw (file_read_dir, p, q)
          (rest-IsPage (some (suc k)) c dir p
            (take_all (suc k) (drop c dir) (omega (arith, length-drop c dir, ltb→le _ _ q)))
            (λ e. e.1))
  ]
  | inr p ↦
      let none_left = drop_all c dir (ltb→le c (length dir) p) in
      rw (file_read_dir, p)
        (
          sym (ap (take (suc k)) none_left),
          omega arith,
          refl,
          ((λ _. (omega arith, none_left)), λ _. refl),
        )
]
file_read_dir-IsPage none dir c = elim (Bool-cases (ltb c (length dir))) [
  | inl p ↦ rw (file_read_dir, p) (rest-IsPage none c dir p refl (λ e. absurd e))
  | inr p ↦
      rw (file_read_dir, p)
        (
          sym (drop_all c dir (ltb→le c (length dir) p)),
          omega arith,
          refl,
          ((λ e. absurd (cc e)), λ e. absurd e),
        )
]
