-- ===== src/Tarfs/Listing.antt =====
-- tarfs/tarfs.go, `ReadDir` on what `New` builds: the files of the directory, in the order of names.
use targz.Prelude.{
  ℕ, List, [], ◌∷◌, ◌++◌, map, ◌≡◌, ◌∙◌, refl, ap, sym, none, some, true, false, arith,
  if◌then◌else◌, Bool-cases, inl, inr,
}
use mathlib.Core.List.{
  Mem, Perm, Pairwise, append-nil, append_assoc, forall_mem-cons, Pairwise-singleton,
}
use mathlib.Core.List.Perm
use targz.Tarfs.Paths.{Name, same, same_eq}
use targz.Tarfs.Index.{
  Header, FileInfo, Entry, lookup, name_le, insert, sort, append_to, group, fill_dirs, read_dir,
  entry_of, built,
}
use targz.Tarfs.Decode.{built-files}

-- The entries of a directory, in the order of the archive.
abbrev pub in_dir : Name → List Entry → List Entry
in_dir d [] = []
in_dir d (e ∷ es) = if same e.dir d then e ∷ in_dir d es else in_dir d es

abbrev listed : Name → List (Name × List Entry) → List Entry
listed d ds = elim (lookup d ds) [ none ↦ [] | some es ↦ es ]

same_left : (a b c : Name) → same a b ≡ true → same a c ≡ same b c
same_left a b c h = ap (λ x. same x c) (same_eq a b h)

same_right : (a b c : Name) → same a c ≡ true → same a b ≡ same c b
same_right a b c h = ap (λ x. same x b) (same_eq a c h)

other_key : (k d c : Name) → same k d ≡ true → same k c ≡ false → same c d ≡ false
other_key k d c p q = elim (Bool-cases (same c d)) [
  | inl r ↦ absurd (cc (sym (same_eq c d r), q, p))
  | inr r ↦ r
]

listed-append_to :
    (d : Name) (e : Entry) (ds : List (Name × List Entry))
    → listed d (append_to e ds) ≡ listed d ds ++ in_dir d (e ∷ [])
unfolding append_to lookup
listed-append_to d e [] = elim (Bool-cases (same e.dir d)) [
  | inl q ↦ rw (listed, append_to, lookup, q) refl
  | inr q ↦ rw (listed, append_to, lookup, q) refl
]
listed-append_to d e ((k, es) ∷ rest) = elim (Bool-cases (same k e.dir)) [
  | inl q ↦ elim (Bool-cases (same e.dir d)) [
    | inl p ↦ rw (listed, append_to, q, lookup, same_left k e.dir d q, p) refl
    | inr p ↦ rw (listed, append_to, q, lookup, same_left k e.dir d q, p) (sym (append-nil _))
  ]
  | inr q ↦ elim (Bool-cases (same k d)) [
    | inl p ↦ rw (listed, append_to, q, lookup, p, other_key k d e.dir p q) (sym (append-nil es))
    | inr p ↦ rw (listed, append_to, q, lookup, p) (listed-append_to d e rest)
  ]
]

in_dir-cons :
    (d : Name) (e : Entry) (es : List Entry) → in_dir d (e ∷ []) ++ in_dir d es ≡ in_dir d (e ∷ es)
in_dir-cons d e es = elim (Bool-cases (same e.dir d)) [
  | inl q ↦ rw (in_dir, q) refl
  | inr q ↦ rw (in_dir, q) refl
]

listed-group :
    (d : Name) (es : List Entry) (ds : List (Name × List Entry))
    → listed d (group es ds) ≡ listed d ds ++ in_dir d es
unfolding group
listed-group d [] ds = sym (append-nil _)
listed-group d (e ∷ es) ds =
    listed-group d es (append_to e ds)
    ∙ ap (λ xs. xs ++ in_dir d es) (listed-append_to d e ds)
    ∙ append_assoc (listed d ds) (in_dir d (e ∷ [])) (in_dir d es)
    ∙ ap (λ xs. listed d ds ++ xs) (in_dir-cons d e es)

listed-sort :
    (d : Name) (ds : List (Name × List Entry))
    → listed d (map (λ p. (p.0, sort p.1)) ds) ≡ sort (listed d ds)
unfolding lookup sort
listed-sort d [] = refl
listed-sort d ((k, es) ∷ rest) = elim (Bool-cases (same k d)) [
  | inl q ↦ rw (listed, lookup, q) refl
  | inr q ↦ rw (listed, lookup, q) (listed-sort d rest)
]

-- What sorts before what.
abbrev pub Before : Entry → Entry → Type 0
Before a b = name_le a.fi.name b.fi.name ≡ true

name_le_total : (s t : Name) → name_le s t ≡ false → name_le t s ≡ true
unfolding name_le
name_le_total [] t h = absurd (cc h)
name_le_total (c ∷ cs) [] h = refl
name_le_total (c ∷ cs) (d ∷ ds) h = ground (arith, name_le_total cs ds)

name_le_trans : (s t u : Name) → name_le s t ≡ true → name_le t u ≡ true → name_le s u ≡ true
unfolding name_le
name_le_trans [] t u h k = refl
name_le_trans (c ∷ cs) [] u h k = absurd (cc h)
name_le_trans (c ∷ cs) (d ∷ ds) [] h k = absurd (cc k)
name_le_trans (c ∷ cs) (d ∷ ds) (b ∷ bs) h k = ground (arith, name_le_trans cs ds bs)

insert-perm : (e : Entry) (es : List Entry) → Perm (insert e es) (e ∷ es)
unfolding insert
insert-perm e [] = Perm.rfl
insert-perm e (x ∷ xs) = elim (Bool-cases (name_le e.fi.name x.fi.name)) [
  | inl q ↦ rw q Perm.rfl
  | inr q ↦ rw q (Perm.trans (Perm.cons x (insert-perm e xs)) (Perm.swap e x xs))
]

pub sort-perm : (es : List Entry) → Perm (sort es) es
unfolding sort
sort-perm [] = Perm.rfl
sort-perm (e ∷ es) = Perm.trans (insert-perm e (sort es)) (Perm.cons e (sort-perm es))

abbrev Below : Entry → List Entry → Type 0
Below e es = (a : Entry) → Mem a es → Before e a

Before-prop : (e a : Entry) → IsProp (Before e a)
Before-prop e a = hlevel

Below-cons : (e : Entry) {x : Entry} {es : List Entry} → Before e x → Below e es → Below e (x ∷ es)
Below-cons e p h = (forall_mem-cons (Before-prop e)).1 (p, h)

Below-perm : (e : Entry) {l r : List Entry} → Perm l r → Below e r → Below e l
Below-perm e p h a m = h a ((Perm.mem_iff p).0 m)

insert-Pairwise : (e : Entry) {es : List Entry} → Pairwise Before es → Pairwise Before (insert e es)
unfolding insert
insert-Pairwise e Pairwise.nil = Pairwise-singleton _ e
insert-Pairwise e (Pairwise.cons {a = x} {l = xs} below s) =
    elim (Bool-cases (name_le e.fi.name x.fi.name)) [
      | inl q ↦ rw q (
          Pairwise.cons
            (Below-cons e q (λ a m. name_le_trans e.fi.name x.fi.name a.fi.name q (below a m)))
            (Pairwise.cons below s))
      | inr q ↦ rw q (
          Pairwise.cons
            (Below-perm x (insert-perm e xs)
              (Below-cons x (name_le_total e.fi.name x.fi.name q) below))
            (insert-Pairwise e s))
    ]

sort-Pairwise : (es : List Entry) → Pairwise Before (sort es)
unfolding sort
sort-Pairwise [] = Pairwise.nil
sort-Pairwise (e ∷ es) = insert-Pairwise e (sort-Pairwise es)

module _ (file_info : Header → FileInfo) (hs : List (Header × ℕ)) (d : Name) where
  read_dir-sort : read_dir (built file_info hs) d ≡ sort (in_dir d (map (entry_of file_info) hs))
  unfolding read_dir built fill_dirs
  read_dir-sort =
      listed-sort d (group (built file_info hs).files [])
      ∙ ap sort
          (listed-group d (built file_info hs).files [] ∙ ap (in_dir d) (built-files file_info hs))

  -- On what `New` builds of any archive, `ReadDir` lists the entries whose directory it is asked
  -- for, each as often as the archive has it and no other, and in the order of their names.
  pub read_dir-in_dir :
      Perm (read_dir (built file_info hs) d) (in_dir d (map (entry_of file_info) hs))
      × Pairwise Before (read_dir (built file_info hs) d)
  read_dir-in_dir = rw read_dir-sort (sort-perm _, sort-Pairwise _)
