-- ===== src/Tarfs/Lookup.antt =====
-- tarfs/tarfs.go, `Entry` on what `New` builds: the last file of a name.
use targz.Prelude.{
  ℕ, zero, suc, ◌<◌, List, [], ◌∷◌, ◌++◌, map, ◌≡◌, ◌∙◌, refl, ap, some, length, get_elem?, arith,
  if◌then◌else◌, length-append, Bool-cases, Option-cases, inl, inr,
}
use mathlib.Core.Option.{some-injective}
use targz.Tarfs.Paths.{Name, same}
use targz.Tarfs.Index.{
  Header, FileInfo, Entry, Fs, Found, found, not_exist, entry, file_at, lookup, empty_fs, register,
  fill_dirs, entry_of, place, add, scan, built,
}

-- The last entry of that name, if there is one.
abbrev pub last_after : Found → Name → List Entry → Found
last_after before name [] = before
last_after before name (e ∷ es) =
    last_after (if same e.filename name then found e else before) name es

abbrev pub last_named : Name → List Entry → Found
last_named = last_after not_exist

-- Every position in the index is one of a file.
record IsIndexed (fs : Fs) : Type 0 where
  inside : (name : Name) (i : ℕ) → lookup name fs.index ≡ some i → i < length fs.files

get_elem?-append_left :
    (xs ys : List Entry) (i : ℕ) → i < length xs → get_elem? (xs ++ ys) i ≡ get_elem? xs i
get_elem?-append_left [] ys i lt = absurd (omega arith)
get_elem?-append_left (x ∷ xs) ys zero lt = refl
get_elem?-append_left (x ∷ xs) ys (suc i) lt = get_elem?-append_left xs ys i (omega arith)

get_elem?-append_end :
    (xs : List Entry) (e : Entry) → get_elem? (xs ++ (e ∷ [])) (length xs) ≡ some e
get_elem?-append_end [] e = refl
get_elem?-append_end (x ∷ xs) e = get_elem?-append_end xs e

place-IsIndexed : (e : Entry) (fs : Fs) → IsIndexed fs → IsIndexed (place e fs)
unfolding place register lookup
place-IsIndexed e fs v = record {
  inside = λ name i p. elim (Bool-cases (same e.filename name)) [
    | inl q ↦ ground (arith, some-injective _ _ (rw q at p), length-append fs.files (e ∷ []))
    | inr q ↦ omega (arith, v.inside name i (rw q at p), length-append fs.files (e ∷ []))
  ];
}

entry-place :
    (e : Entry) (fs : Fs) (name : Name)
    → IsIndexed fs
    → entry (place e fs) name ≡ (if same e.filename name then found e else entry fs name)
unfolding place register lookup entry file_at
entry-place e fs name v = elim (Bool-cases (same e.filename name)) [
  | inl q ↦ rw (entry, q, file_at, get_elem?-append_end fs.files e) refl
  | inr q ↦ elim (Option-cases (lookup name fs.index)) [
    | inl none_there ↦ rw (entry, q, none_there) refl
    | inr (i, there) ↦
        rw
          (
            entry,
            q,
            there,
            file_at,
            get_elem?-append_left fs.files (e ∷ []) i (v.inside name i there),
          )
          refl
  ]
]

module _ (file_info : Header → FileInfo) where
  entry-scan :
      (hs : List (Header × ℕ)) (fs : Fs) (name : Name)
      → IsIndexed fs
      → entry (scan file_info hs fs) name
        ≡ last_after (entry fs name) name (map (entry_of file_info) hs)
  unfolding scan add
  entry-scan [] fs name v = refl
  entry-scan (h ∷ hs) fs name v =
      entry-scan hs (add file_info h fs) name (place-IsIndexed (entry_of file_info h) fs v)
      ∙ ap (λ before. last_after before name (map (entry_of file_info) hs))
          (entry-place (entry_of file_info h) fs name v)

  -- On what `New` builds of any archive, `Entry` is the last entry of the archive that has the
  -- name when normalized, fails if there is none, and never indexes `files` out of range.
  pub entry-last_named :
      (hs : List (Header × ℕ)) (name : Name)
      → entry (built file_info hs) name ≡ last_named name (map (entry_of file_info) hs)
  unfolding built fill_dirs entry file_at lookup
  entry-last_named hs name =
      entry-scan hs empty_fs name (record { inside = λ _ _ p. absurd (cc p) })
